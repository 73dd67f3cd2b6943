-- ===== src/Build/Counting.antt =====
-- How often a text stands in a list, and what two lists with the same counts have in common.
pub mod Lengths
use dsp.Prelude.{
  ℕ, zero, suc, ◌+◌, ◌-◌, ◌≤◌, ◌≡◌, refl, ap, sym, ◌∙◌, subst, String, List, [], ◌∷◌, ◌++◌, Bool,
  true, false, ◌&&◌, ◌||◌, ◌==◌, not, ◌⊎◌, inl, inr, arith, tally, tally_yes, tally_no,
  tally-append, elem, length, if◌then◌else◌, eq_iff, eq_refl,
}
use dsp.Prelude.Tests.{Bool-cases}
use dsp.Prelude.Sort.{insert_by, sort_by}
use dsp.Contracts.{distinct, unique}

abbrev pub count : String → List String → ℕ
count v xs = tally (λ x. v == x) xs

-- `int(b)`
abbrev pub one_if : Bool → ℕ
one_if true = 1
one_if false = 0

pub count-cons : (v x : String) (xs : List String) → count v (x ∷ xs) ≡ one_if (v == x) + count v xs
count-cons v x xs = elim (Bool-cases (v == x)) [
  | inl t ↦ tally_yes (λ y. v == y) x xs t ∙ rw t (omega arith)
  | inr t ↦ tally_no (λ y. v == y) x xs t ∙ rw t (omega arith)
]

pub count-absent : (v : String) (xs : List String) → elem v xs ≡ false → count v xs ≡ 0
count-absent v [] h = refl
count-absent v (x ∷ xs) h = elim (Bool-cases (v == x)) [
  | inl t ↦ let h' = rw t at h in cc
  | inr t ↦ count-cons v x xs ∙ rw t (rw (count-absent v xs (rw t at h)) (omega arith))
]

pub count-present : (v : String) (xs : List String) → elem v xs ≡ true → 1 ≤ count v xs
count-present v [] h = cc
count-present v (x ∷ xs) h = elim (Bool-cases (v == x)) [
  | inl t ↦
      let e : count v (x ∷ xs) ≡ 1 + count v xs = count-cons v x xs ∙ rw t refl in omega (arith, e)
  | inr t ↦
      let e : count v (x ∷ xs) ≡ 0 + count v xs = count-cons v x xs ∙ rw t refl in
      omega (arith, e, count-present v xs (rw t at h))
]

pub count-insert :
    (le : String → String → Bool) (v x : String) (xs : List String)
    → count v (insert_by le x xs) ≡ one_if (v == x) + count v xs
unfolding insert_by
count-insert le v x [] = count-cons v x []
count-insert le v x (y ∷ ys) = elim (Bool-cases (le x y)) [
  | inl t ↦ rw t (count-cons v x (y ∷ ys))
  | inr t ↦
      rw t (
        omega
          (arith, count-cons v y (insert_by le x ys), count-cons v y ys, count-insert le v x ys))
]

pub count-sort :
    (le : String → String → Bool) (v : String) (xs : List String)
    → count v (sort_by le xs) ≡ count v xs
unfolding sort_by
count-sort le v [] = refl
count-sort le v (x ∷ xs) =
    count-insert le v x (sort_by le xs) ∙ omega (arith, count-sort le v xs, count-cons v x xs)

-- membership follows the counts
pub same_elem : (v : String) (xs ys : List String) → count v xs ≡ count v ys → elem v xs ≡ elem v ys
same_elem v xs ys e = elim (Bool-cases (elem v xs)) [
  | inl t ↦ elim (Bool-cases (elem v ys)) [
    | inl u ↦ t ∙ sym u
    | inr u ↦ absurd (omega (arith, count-present v xs t, count-absent v ys u, e))
  ]
  | inr t ↦ elim (Bool-cases (elem v ys)) [
    | inl u ↦ absurd (omega (arith, count-absent v xs t, count-present v ys u, e))
    | inr u ↦ t ∙ sym u
  ]
]

-- a list without repetitions
abbrev pub IsSingle : List String → Type 0
IsSingle xs = (v : String) → count v xs ≤ 1

pub distinct-count : (v : String) (xs : List String) → count v (distinct xs) ≡ one_if (elem v xs)
unfolding distinct
distinct-count v [] = refl
distinct-count v (x ∷ xs) = elim (Bool-cases (elem x xs)) [
  | inl t ↦ rw t (distinct-count v xs ∙ ap one_if (again t))
  | inr t ↦ rw t (count-cons v x (distinct xs) ∙ first t (distinct-count v xs))
]
  where
    again : elem x xs ≡ true → elem v xs ≡ (v == x || elem v xs)
    again t = elim (Bool-cases (v == x)) [
      | inl u ↦ rw u (rw ((eq_iff v x).0 u) t)
      | inr u ↦ rw u refl
    ]

    first :
        elem x xs ≡ false
        → count v (distinct xs) ≡ one_if (elem v xs)
        → one_if (v == x) + count v (distinct xs) ≡ one_if (v == x || elem v xs)
    first t e = elim (Bool-cases (v == x)) [
      | inl u ↦
          let absent : elem v xs ≡ false = ap (λ y. elem y xs) ((eq_iff v x).0 u) ∙ t in
          rw u (rw (e ∙ ap one_if absent) (omega arith))
      | inr u ↦ rw u (rw e (omega arith))
    ]

-- two tests that agree off a text that is not in the list count the same
tally_same :
    (p q : String → Bool) (c : String) (xs : List String)
    → count c xs ≡ 0
    → ((x : String) → c == x ≡ false → p x ≡ q x)
    → tally q xs ≡ tally p xs
tally_same p q c [] none same = refl
tally_same p q c (x ∷ xs) none same = elim (Bool-cases (c == x)) [
  | inl t ↦ absurd (omega (arith, none, count-cons c x xs, ap one_if t))
  | inr t ↦
      let rest = tally_same p q c xs (omega (arith, none, count-cons c x xs, ap one_if t)) same in
      elim (Bool-cases (p x)) [
        | inl u ↦ tally_yes q x xs (sym (same x t) ∙ u) ∙ ap suc rest ∙ sym (tally_yes p x xs u)
        | inr u ↦ tally_no q x xs (sym (same x t) ∙ u) ∙ rest ∙ sym (tally_no p x xs u)
      ]
]

-- two tests that differ on one text of the list count one apart
pub tally_one :
    (p q : String → Bool) (c : String) (xs : List String)
    → count c xs ≡ 1
    → p c ≡ false
    → q c ≡ true
    → ((x : String) → c == x ≡ false → p x ≡ q x)
    → tally q xs ≡ suc (tally p xs)
tally_one p q c [] one h k same = absurd (omega (arith, one))
tally_one p q c (x ∷ xs) one h k same = elim (Bool-cases (c == x)) [
  | inl t ↦
      let e = (eq_iff c x).0 t in
      tally_yes q x xs (ap q (sym e) ∙ k)
      ∙ ap suc (
          tally_same p q c xs (omega (arith, one, count-cons c x xs, ap one_if t)) same
          ∙ sym (tally_no p x xs (ap p (sym e) ∙ h)))
  | inr t ↦
      let rest = tally_one p q c xs (omega (arith, one, count-cons c x xs, ap one_if t)) h k same in
      elim (Bool-cases (p x)) [
        | inl u ↦ tally_yes q x xs (sym (same x t) ∙ u) ∙ ap suc (rest ∙ sym (tally_yes p x xs u))
        | inr u ↦ tally_no q x xs (sym (same x t) ∙ u) ∙ rest ∙ ap suc (sym (tally_no p x xs u))
      ]
]

-- tests that agree everywhere
pub tally_agree :
    (p q : String → Bool) (xs : List String) → ((x : String) → p x ≡ q x) → tally p xs ≡ tally q xs
tally_agree p q [] same = refl
tally_agree p q (x ∷ xs) same = elim (Bool-cases (p x)) [
  | inl u ↦
      tally_yes p x xs u
      ∙ ap suc (tally_agree p q xs same)
      ∙ sym (tally_yes q x xs (sym (same x) ∙ u))
  | inr u ↦ tally_no p x xs u ∙ tally_agree p q xs same ∙ sym (tally_no q x xs (sym (same x) ∙ u))
]

-- a test that counts none fails on each text of the list
pub tally_none :
    (p : String → Bool) (v : String) (xs : List String)
    → tally p xs ≡ 0
    → elem v xs ≡ true
    → p v ≡ false
tally_none p v [] e m = cc
tally_none p v (x ∷ xs) e m = elim (Bool-cases (p x)) [
  | inl u ↦ absurd (omega (arith, e, tally_yes p x xs u))
  | inr u ↦ elim (Bool-cases (v == x)) [
    | inl t ↦ ap p ((eq_iff v x).0 t) ∙ u
    | inr t ↦ tally_none p v xs (sym (tally_no p x xs u) ∙ e) (rw t at m)
  ]
]

-- a test that counts some holds of a text of the list
pub tally_some :
    (p : String → Bool) (xs : List String)
    → 1 ≤ tally p xs
    → (v : String) × (elem v xs ≡ true) × (p v ≡ true)
tally_some p [] e = absurd (omega arith)
tally_some p (x ∷ xs) e = elim (Bool-cases (p x)) [
  | inl u ↦ (x, rw (eq_refl x) refl, u)
  | inr u ↦
      let (v, m, h) = tally_some p xs (subst (λ n. 1 ≤ n) (tally_no p x xs u) e) in
      (v, elem_later v x xs m, h)
]
  where
    elem_later : (v y : String) (ys : List String) → elem v ys ≡ true → elem v (y ∷ ys) ≡ true
    elem_later v y ys m = ground arith
