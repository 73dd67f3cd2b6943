-- ===== src/Scope/Listing.antt =====
-- Membership with its place, and lists that run in parallel: both kept by filtering and by sorting
-- (`sorted` and the generator expressions of scope_comparator.py).
use dsp.Prelude.{◌≡◌, refl, ap, ◌∙◌, List, [], ◌∷◌, Bool, true, false, ◌⊎◌, inl, inr, arith, tally}
use dsp.Prelude.Tests.{Bool-cases}
use dsp.Prelude.Sort.{insert_by, sort_by}
use dsp.Contracts.{is_empty}
use dsp.Scope.Compare.{keep}

-- an item stands in a list
abbrev pub Among : {A : Type 0} → A → List A → Type 0
Among x [] = ⊥
Among x (y ∷ ys) = (x ≡ y) ⊎ Among x ys

-- one item for each item, in order
abbrev pub Parallel {ℓ κ} : {A : Type ℓ} {B : Type κ} → (A → B → Type 0) → List A → List B → Type 0
Parallel R [] [] = Unit
Parallel R [] (_ ∷ _) = ⊥
Parallel R (_ ∷ _) [] = ⊥
Parallel R (x ∷ xs) (y ∷ ys) = R x y × Parallel R xs ys

-- two lists of which every test counts the same
abbrev pub SameTally {ℓ} : {B : Type ℓ} → List B → List B → Type ℓ
SameTally {B = B} xs ys = (p : B → Bool) → tally p xs ≡ tally p ys

module _ {A : Type 0} (p : A → Bool) where
  pub Among-keep : (x : A) (xs : List A) → Among x xs → p x ≡ true → Among x (keep p xs)
  unfolding keep
  Among-keep x [] m h = absurd m
  Among-keep x (y ∷ ys) (inl e) h = rw (← e) (rw h (inl refl))
  Among-keep x (y ∷ ys) (inr m) h = elim (Bool-cases (p y)) [
    | inl t ↦ rw t (inr (Among-keep x ys m h))
    | inr t ↦ rw t (Among-keep x ys m h)
  ]

  pub keep-Among : (x : A) (xs : List A) → Among x (keep p xs) → Among x xs × (p x ≡ true)
  unfolding keep
  keep-Among x [] m = absurd m
  keep-Among x (y ∷ ys) m = elim (Bool-cases (p y)) [
    | inl t ↦ kept t (keep-Among x ys) (rw t at m)
    | inr t ↦ let (n, h) = keep-Among x ys (rw t at m) in (inr n, h)
  ]
    where
      kept :
          p y ≡ true
          → (Among x (keep p ys) → Among x ys × (p x ≡ true))
          → (x ≡ y) ⊎ Among x (keep p ys)
          → Among x (y ∷ ys) × (p x ≡ true)
      kept t later (inl e) = (inl e, ap p e ∙ t)
      kept t later (inr n) = let (n', h) = later n in (inr n', h)

pub Among-full : {A : Type 0} (x : A) (xs : List A) → Among x xs → is_empty xs ≡ false
Among-full x [] m = absurd m
Among-full x (y ∷ ys) m = refl

pub full-Among : {A : Type 0} (xs : List A) → is_empty xs ≡ false → (x : A) × Among x xs
full-Among [] e = cc
full-Among (x ∷ xs) e = (x, inl refl)

-- to go on behind the first item
later_or {ℓ} : {P Q R : Type ℓ} → (Q → R) → P ⊎ Q → P ⊎ R
later_or f (inl e) = inl e
later_or f (inr n) = inr (f n)

swap {ℓ} : {P Q R : Type ℓ} → P ⊎ (Q ⊎ R) → Q ⊎ (P ⊎ R)
swap (inl e) = inr (inl e)
swap (inr (inl e)) = inl e
swap (inr (inr n)) = inr (inr n)

module _ {A : Type 0} (le : A → A → Bool) (x : A) where
  Among-insert : (y : A) (ys : List A) → Among x (y ∷ ys) → Among x (insert_by le y ys)
  unfolding insert_by
  Among-insert y [] m = m
  Among-insert y (z ∷ zs) m = elim (Bool-cases (le y z)) [
    | inl t ↦ rw t m
    | inr t ↦ rw t (later_or (Among-insert y zs) (swap m))
  ]

  insert-Among : (y : A) (ys : List A) → Among x (insert_by le y ys) → Among x (y ∷ ys)
  unfolding insert_by
  insert-Among y [] m = m
  insert-Among y (z ∷ zs) m = elim (Bool-cases (le y z)) [
    | inl t ↦ rw t at m
    | inr t ↦ swap (later_or (insert-Among y zs) (rw t at m))
  ]

  pub Among-sort : (xs : List A) → Among x xs → Among x (sort_by le xs)
  unfolding sort_by
  Among-sort [] m = m
  Among-sort (y ∷ ys) m = Among-insert y (sort_by le ys) (later_or (Among-sort ys) m)

  pub sort-Among : (xs : List A) → Among x (sort_by le xs) → Among x xs
  unfolding sort_by
  sort-Among [] m = m
  sort-Among (y ∷ ys) m = later_or (sort-Among ys) (insert-Among y (sort_by le ys) m)

module _ {ℓ κ} {A : Type ℓ} {B : Type κ} (R : A → B → Type 0) (le : A → A → Bool) where
  -- an item put into a sorted list takes its partner along
  Parallel-insert :
      (x : A) (xs : List A) (q : B) (qs : List B)
      → R x q
      → Parallel R xs qs
      → (rs : List B) × Parallel R (insert_by le x xs) rs × SameTally (q ∷ qs) rs
  unfolding insert_by
  Parallel-insert x [] q qs a b = (q ∷ qs, (a, b), λ p. refl)
  Parallel-insert x (y ∷ ys) q [] a b = absurd b
  Parallel-insert x (y ∷ ys) q (r ∷ rs) a b = elim (Bool-cases (le x y)) [
    | inl t ↦ rw t (q ∷ r ∷ rs, (a, b), λ p. refl)
    | inr t ↦
        let (ts, c, same) = Parallel-insert x ys q rs a b.1 in
        rw t (r ∷ ts, (b.0, c), λ p. ground (arith, same p))
  ]

  insert-Parallel :
      (x : A) (xs : List A) (rs : List B)
      → Parallel R (insert_by le x xs) rs
      → (q : B) × (qs : List B) × R x q × Parallel R xs qs × SameTally (q ∷ qs) rs
  unfolding insert_by
  insert-Parallel x [] [] a = absurd a
  insert-Parallel x [] (q ∷ qs) a = (q, qs, a.0, a.1, λ p. refl)
  insert-Parallel x (y ∷ ys) [] a = elim (Bool-cases (le x y)) [
    | inl t ↦ absurd (rw t at a)
    | inr t ↦ absurd (rw t at a)
  ]
  insert-Parallel x (y ∷ ys) (r ∷ ts) a = elim (Bool-cases (le x y)) [
    | inl t ↦ let a' = rw t at a in (r, ts, a'.0, a'.1, λ p. refl)
    | inr t ↦
        let a' = rw t at a in
        let (q, qs, b, c, same) = insert-Parallel x ys ts a'.1 in
        (q, r ∷ qs, b, (a'.0, c), λ p. ground (arith, same p))
  ]

  pub Parallel-sort :
      (xs : List A) (qs : List B)
      → Parallel R xs qs
      → (rs : List B) × Parallel R (sort_by le xs) rs × SameTally qs rs
  unfolding sort_by
  Parallel-sort [] qs h = (qs, h, λ p. refl)
  Parallel-sort (x ∷ xs) [] h = absurd h
  Parallel-sort (x ∷ xs) (q ∷ qs) h =
      let (rs, a, same) = Parallel-sort xs qs h.1 in
      let (ts, b, same') = Parallel-insert x (sort_by le xs) q rs h.0 a in
      (ts, b, λ p. ground (arith, same p, same' p))

  pub sort-Parallel :
      (xs : List A) (rs : List B)
      → Parallel R (sort_by le xs) rs
      → (qs : List B) × Parallel R xs qs × SameTally qs rs
  unfolding sort_by
  sort-Parallel [] rs h = (rs, h, λ p. refl)
  sort-Parallel (x ∷ xs) rs h =
      let (q, ts, a, b, same) = insert-Parallel x (sort_by le xs) rs h in
      let (qs, c, same') = sort-Parallel xs ts b in
      (q ∷ qs, (a, c), λ p. ground (arith, same p, same' p))
