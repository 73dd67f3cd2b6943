-- ===== src/Build/Counting/Lengths.antt =====
-- Lists whose counts agree are equally long, and the other way round.
use dsp.Prelude.{
  suc, ◌+◌, ◌-◌, ◌≤◌, ◌≡◌, refl, ap, ◌∙◌, String, List, [], ◌∷◌, Bool, true, false, ◌&&◌, ◌==◌, not,
  ◌⊎◌, inl, inr, arith, elem, length, if◌then◌else◌, eq_iff, eq_refl,
}
use dsp.Prelude.Tests.{Bool-cases}
use dsp.Contracts.{unique}
use dsp.Build.Counting.{count, one_if, IsSingle, count-cons, count-absent, count-present}

-- the first occurrence taken out
without : String → List String → List String
without v [] = []
without v (x ∷ xs) = let rest = without v xs in if v == x then xs else x ∷ rest

count-without :
    (v w : String) (xs : List String) → count w (without v xs) ≡ count w xs - one_if (w == v)
unfolding without
count-without v w [] = omega arith
count-without v w (x ∷ xs) = elim (Bool-cases (v == x)) [
  | inl t ↦ rw t (hit t)
  | inr t ↦ rw t (
      count-cons w x (without v xs)
      ∙ ap (λ n. one_if (w == x) + n) (count-without v w xs)
      ∙ miss t (Bool-cases (w == v)))
]
  where
    hit : v == x ≡ true → count w xs ≡ count w (x ∷ xs) - one_if (w == v)
    hit t =
        let e = ap (λ y. one_if (w == y)) ((eq_iff v x).0 t) in omega (arith, count-cons w x xs, e)

    miss :
        v == x ≡ false
        → ((w == v ≡ true) ⊎ (w == v ≡ false))
        → one_if (w == x) + (count w xs - one_if (w == v)) ≡ count w (x ∷ xs) - one_if (w == v)
    miss t (inl u) =
        let other : w == x ≡ false = ap (λ y. y == x) ((eq_iff w v).0 u) ∙ t in
        omega (arith, count-cons w x xs, ap one_if other)
    miss t (inr u) = omega (arith, count-cons w x xs, ap one_if u)

length-without :
    (v : String) (xs : List String)
    → ((elem v xs ≡ true) × (length xs ≡ suc (length (without v xs))))
      ⊎ ((elem v xs ≡ false) × (length xs ≡ length (without v xs)))
unfolding without
length-without v [] = inr (refl, refl)
length-without v (x ∷ xs) = elim (Bool-cases (v == x)) [
  | inl t ↦ inl (rw t refl, rw t refl)
  | inr t ↦ elim (length-without v xs) [
    | inl (m, e) ↦ inl (rw t m, rw t (ap suc e))
    | inr (m, e) ↦ inr (rw t m, rw t (ap suc e))
  ]
]

-- a list that counts no text more often than another is no longer
pub count-length :
    (xs ys : List String) → ((v : String) → count v xs ≤ count v ys) → length xs ≤ length ys
count-length [] [] h = omega arith
count-length (x ∷ xs) [] h = absurd (omega (arith, h x, count-cons x x xs, ap one_if (eq_refl x)))
count-length xs (y ∷ ys) h =
    let rest =
      count-length (without y xs) ys
        λ v. omega (arith, h v, count-cons v y ys, count-without y v xs) in
    elim (length-without y xs) [
      | inl (_, e) ↦ omega (arith, e, rest)
      | inr (_, e) ↦ omega (arith, e, rest)
    ]

-- and has the same counts if it is as long
pub count-full :
    (xs ys : List String)
    → ((v : String) → count v xs ≤ count v ys)
    → length xs ≡ length ys
    → (v : String) → count v xs ≡ count v ys
count-full [] [] h e v = refl
count-full (x ∷ xs) [] h e v = absurd (omega (arith, e))
count-full xs (y ∷ ys) h e v = elim (length-without y xs) [
  | inl (m, e') ↦
      let rest = count-full (without y xs) ys below (omega (arith, e, e')) v in
      elim (Bool-cases (v == y)) [
        | inl t ↦
            let here : 1 ≤ count v xs =
              count-present v xs (ap (λ z. elem z xs) ((eq_iff v y).0 t) ∙ m) in
            omega (arith, rest, count-without y v xs, count-cons v y ys, ap one_if t, here)
        | inr t ↦ omega (arith, rest, count-without y v xs, count-cons v y ys, ap one_if t)
      ]
  | inr (m, e') ↦ absurd (omega (arith, e, e', count-length (without y xs) ys below))
]
  where
    below : (w : String) → count w (without y xs) ≤ count w ys
    below w = omega (arith, h w, count-cons w y ys, count-without y w xs)

pub unique-IsSingle : (xs : List String) → unique xs ≡ true → IsSingle xs
unfolding unique
unique-IsSingle [] h v = omega arith
unique-IsSingle (x ∷ xs) h v =
    let (fresh, rest) = halves (elem x xs) (unique xs) h in
    elim (Bool-cases (v == x)) [
      | inl t ↦
          let absent : elem v xs ≡ false = ap (λ y. elem y xs) ((eq_iff v x).0 t) ∙ fresh in
          omega (arith, count-cons v x xs, ap one_if t, count-absent v xs absent)
      | inr t ↦ omega (arith, count-cons v x xs, ap one_if t, unique-IsSingle xs rest v)
    ]
  where
    halves : (a b : Bool) → (not a && b) ≡ true → (a ≡ false) × (b ≡ true)
    halves true b h = cc
    halves false b h = (refl, h)
