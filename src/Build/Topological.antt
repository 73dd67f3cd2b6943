-- ===== src/Build/Topological.antt =====
-- Lists of Slices in which what a Slice depends on stands before it.
use dsp.Prelude.{
  ◌≡◌, ap, sym, ◌∙◌, String, List, [], ◌∷◌, ◌++◌, Bool, true, ◌||◌, ◌==◌, inl, inr, arith, elem,
  eq_iff,
}
use dsp.Prelude.Tests.{Bool-cases}

-- what a Slice depends on stands before it
abbrev pub IsTopological : (String → String → Bool) → List String → List String → Type 0
IsTopological E seen [] = Unit
IsTopological E seen (x ∷ xs) =
    ((p : String) → E p x ≡ true → elem p seen ≡ true) × IsTopological E (x ∷ seen) xs

pub IsTopological-snoc :
    (E : String → String → Bool) (c : String) (seen xs : List String)
    → IsTopological E seen xs
    → ((p : String) → E p c ≡ true → (elem p xs || elem p seen) ≡ true)
    → IsTopological E seen (xs ++ (c ∷ []))
IsTopological-snoc E c seen [] a h = (h, tt)
IsTopological-snoc E c seen (x ∷ xs) a h = (
  a.0,
  IsTopological-snoc E c (x ∷ seen) xs a.1 λ p e. turned (p == x) (elem p xs) (elem p seen) (h p e),
)
  where
    turned : (a b c : Bool) → ((a || b) || c) ≡ true → (b || (a || c)) ≡ true
    turned a b c h = ground arith

-- one text stands before another
abbrev pub Precedes : String → String → List String → Type 0
Precedes p n xs = (front back : List String) × (xs ≡ front ++ (n ∷ back)) × (elem p front ≡ true)

-- in a topological list, what an item depends on stands before it
pub IsTopological-Precedes :
    (E : String → String → Bool) (seen xs : List String) (p n : String)
    → IsTopological E seen xs
    → E p n ≡ true
    → elem n xs ≡ true
    → (front back : List String) × (xs ≡ front ++ (n ∷ back))
      × ((elem p front || elem p seen) ≡ true)
IsTopological-Precedes E seen [] p n a e m = cc
IsTopological-Precedes E seen (x ∷ xs) p n a e m = elim (Bool-cases (n == x)) [
  | inl t ↦
      let same = (eq_iff n x).0 t in
      ([], xs, ap (λ y. y ∷ xs) (sym same), a.0 p (ap (E p) (sym same) ∙ e))
  | inr t ↦
      let (front, back, e', h) = IsTopological-Precedes E (x ∷ seen) xs p n a.1 e (rw t at m) in
      (x ∷ front, back, ap (λ l. x ∷ l) e', turned (p == x) (elem p front) (elem p seen) h)
]
  where
    turned : (a b c : Bool) → (b || (a || c)) ≡ true → ((a || b) || c) ≡ true
    turned a b c h = ground arith
