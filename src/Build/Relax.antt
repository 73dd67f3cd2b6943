-- ===== src/Build/Relax.antt =====
-- The inner loop of `_topological_order` (saga.py): what lowering the degrees of some Slices changes.
use dsp.Prelude.{
  ℕ, ◌+◌, ◌-◌, ◌≡◌, refl, ap, sym, ◌∙◌, String, List, [], ◌∷◌, true, false, ◌&&◌, ◌==◌, ◌⊎◌, inl,
  inr, arith, elem, eq_iff,
}
use dsp.Prelude.Tests.{Bool-cases, nat_eq}
use dsp.Prelude.Dict.{Dict, update}
use dsp.Prelude.Sort.{str_le}
use dsp.Build.Order.{degree, Frontier, lowered, relax}
use dsp.Build.Counting.{count, one_if, IsSingle, count-cons, count-insert, count-present}

pub degree-update :
    (d : Dict ℕ) (h n : String) (v : ℕ)
    → ((h ≡ n) × (degree (update d h v) n ≡ v))
      ⊎ ((n == h ≡ false) × (degree (update d h v) n ≡ degree d n))
unfolding degree
degree-update d h n v = elim (Bool-cases (h == n)) [
  | inl t ↦ inl ((eq_iff h n).0 t, rw t refl)
  | inr t ↦ inr (turned t (Bool-cases (n == h)), rw t refl)
]
  where
    turned : h == n ≡ false → ((n == h ≡ true) ⊎ (n == h ≡ false)) → n == h ≡ false
    turned t (inl u) = let w : h == n ≡ true = (eq_iff h n).1 (sym ((eq_iff n h).0 u)) in cc
    turned t (inr u) = u

lowered-degree :
    (s : Frontier) (h n : String)
    → degree (lowered s h).degrees n ≡ degree s.degrees n - one_if (n == h)
unfolding lowered
lowered-degree s h n = elim (degree-update s.degrees h n (degree s.degrees h - 1)) [
  | inl (e, v) ↦ v ∙ here e
  | inr (t, v) ↦ v ∙ rw t (omega arith)
]
  where
    here : h ≡ n → degree s.degrees h - 1 ≡ degree s.degrees n - one_if (n == h)
    here e =
        let same = ap (degree s.degrees) e in
        let hit : n == h ≡ true = (eq_iff n h).1 (sym e) in rw hit (omega (arith, same))

lowered-count :
    (s : Frontier) (h n : String)
    → count n (lowered s h).eligible
      ≡ count n s.eligible + one_if (n == h && nat_eq (degree s.degrees h) 1)
unfolding lowered
lowered-count s h n = elim (Bool-cases (nat_eq (degree s.degrees h) 1)) [
  | inl t ↦ rw t (count-insert str_le n h s.eligible ∙ omega (arith, both t))
  | inr t ↦ rw t (omega (arith, neither t))
]
  where
    both : nat_eq (degree s.degrees h) 1 ≡ true → one_if (n == h && true) ≡ one_if (n == h)
    both t = elim (Bool-cases (n == h)) [ inl u ↦ rw u refl | inr u ↦ rw u refl ]

    neither : nat_eq (degree s.degrees h) 1 ≡ false → one_if (n == h && false) ≡ 0
    neither t = elim (Bool-cases (n == h)) [ inl u ↦ rw u refl | inr u ↦ rw u refl ]

pub relax-degree :
    (hs : List String) (s : Frontier) (n : String)
    → degree (relax hs s).degrees n ≡ degree s.degrees n - count n hs
unfolding relax
relax-degree [] s n = omega arith
relax-degree (h ∷ hs) s n =
    omega (arith, relax-degree hs (lowered s h) n, lowered-degree s h n, count-cons n h hs)

-- the Slices whose degree becomes 0 are eligible now
pub relax-count :
    (hs : List String) (s : Frontier) (n : String)
    → IsSingle hs
    → count n (relax hs s).eligible
      ≡ count n s.eligible + one_if (elem n hs && nat_eq (degree s.degrees n) 1)
unfolding relax
relax-count [] s n one = omega arith
relax-count (h ∷ hs) s n one =
    let ih = relax-count hs (lowered s h) n later in
    let own = lowered-count s h n in
    elim (Bool-cases (n == h)) [
      | inl t ↦ elim (Bool-cases (elem n hs)) [
        | inl u ↦
            absurd (omega (arith, one n, count-cons n h hs, ap one_if t, count-present n hs u))
        | inr u ↦ rw t (only t (rw u at ih) (rw t at own))
      ]
      | inr t ↦ rw t (others t (ih) (rw t at own))
    ]
  where
    later : IsSingle hs
    later v = omega (arith, one v, count-cons v h hs)

    only :
        n == h ≡ true
        → count n (relax hs (lowered s h)).eligible ≡ count n (lowered s h).eligible + 0
        → count n (lowered s h).eligible
          ≡ count n s.eligible + one_if (nat_eq (degree s.degrees h) 1)
        → count n (relax hs (lowered s h)).eligible
          ≡ count n s.eligible + one_if (nat_eq (degree s.degrees n) 1)
    only t e e' =
        let same = ap (λ x. one_if (nat_eq (degree s.degrees x) 1)) ((eq_iff n h).0 t) in
        omega (arith, e, e', same)

    others :
        n == h ≡ false
        → count n (relax hs (lowered s h)).eligible
          ≡ count n (lowered s h).eligible
            + one_if (elem n hs && nat_eq (degree (lowered s h).degrees n) 1)
        → count n (lowered s h).eligible ≡ count n s.eligible + 0
        → count n (relax hs (lowered s h)).eligible
          ≡ count n s.eligible + one_if (elem n hs && nat_eq (degree s.degrees n) 1)
    others t e e' =
        let kept : degree (lowered s h).degrees n ≡ degree s.degrees n =
          lowered-degree s h n ∙ rw t (omega arith) in
        let same = ap (λ k. one_if (elem n hs && nat_eq k 1)) kept in omega (arith, e, e', same)
