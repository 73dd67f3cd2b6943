-- ===== src/Build/Loop.antt =====
-- The loop `while eligible` of `_topological_order` (saga.py): its invariant, and why one round for
-- each Slice is enough.
use dsp.Prelude.{
  ℕ, zero, suc, ◌+◌, ◌-◌, ◌≤◌, ◌≡◌, refl, ap, sym, ◌∙◌, String, some, List, [], ◌∷◌, ◌++◌, Bool,
  true, false, ◌&&◌, ◌||◌, ◌==◌, not, ◌⊎◌, inl, inr, arith, elem, elem-append, tally, tally-append,
  length, length-append, eq_iff, eq_refl,
}
use dsp.Prelude.Tests.{Bool-cases, nat_eq}
use dsp.Prelude.Dict.{Dict}
use dsp.Prelude.Sort.{sort_by, str_le}
use dsp.Contracts.{distinct}
use dsp.Build.Order.{Graph, degree, successors_of, Frontier, relax, drain}
use dsp.Build.Counting.{
  count, one_if, IsSingle, count-cons, count-absent, count-present, count-sort, same_elem,
  distinct-count, tally_one, tally_agree, tally_none,
}
use dsp.Build.Counting.Lengths.{count-length}
use dsp.Build.Relax.{relax-degree, relax-count}
use dsp.Build.Graph.{IsGraph, edge}
use dsp.Build.Topological.{IsTopological, IsTopological-snoc}

pub distinct-elem : (v : String) (xs : List String) → elem v (distinct xs) ≡ elem v xs
distinct-elem v xs = elim (Bool-cases (elem v xs)) [
  | inl t ↦ elim (Bool-cases (elem v (distinct xs))) [
    | inl u ↦ u ∙ sym t
    | inr u ↦
        absurd (omega (arith, distinct-count v xs, ap one_if t, count-absent v (distinct xs) u))
  ]
  | inr t ↦ elim (Bool-cases (elem v (distinct xs))) [
    | inl u ↦
        absurd (omega (arith, distinct-count v xs, ap one_if t, count-present v (distinct xs) u))
    | inr u ↦ u ∙ sym t
  ]
]

elem-snoc_self : (x c : String) (xs : List String) → x == c ≡ true → elem x (xs ++ (c ∷ [])) ≡ true
elem-snoc_self x c xs h = elem-append x xs (c ∷ []) ∙ ground arith

elem-snoc_other :
    (x c : String) (xs : List String) → x == c ≡ false → elem x (xs ++ (c ∷ [])) ≡ elem x xs
elem-snoc_other x c xs h = elem-append x xs (c ∷ []) ∙ ground arith

pub eq_turned : (x y : String) → x == y ≡ false → y == x ≡ false
eq_turned x y h = elim (Bool-cases (y == x)) [
  | inl t ↦ let u : x == y ≡ true = (eq_iff x y).1 (sym ((eq_iff y x).0 t)) in cc
  | inr t ↦ t
]

one_if-absent : (b : Bool) → one_if b ≡ 0 → b ≡ false
one_if-absent true h = absurd (omega (arith, h))
one_if-absent false h = refl

one_if-present : (b : Bool) → 1 ≤ one_if b → b ≡ true
one_if-present true h = refl
one_if-present false h = absurd (omega (arith, h))

module _ (hashes : List String) (g : Graph) (graph : IsGraph hashes g) where
  -- the Slices that are not ordered yet and lead to a Slice
  abbrev pub pending : List String → String → String → Bool
  pending ordered n p = not (elem p ordered) && edge g p n

  pub record Inv (degrees : Dict ℕ) (eligible ordered : List String) : Type 0 where
    pub waits : (n : String) → degree degrees n ≡ tally (pending ordered n) (distinct hashes)
    pub ready :
        (n : String)
        → count n ordered + count n eligible ≡ one_if (elem n hashes && nat_eq (degree degrees n) 0)
    pub topological : IsTopological (edge g) [] ordered

  -- the Slice that is popped
  module _ (degrees : Dict ℕ) (c : String) (cs ordered : List String)
      (inv : Inv degrees (c ∷ cs) ordered) where
    abbrev after : Frontier
    after =
        relax (sort_by str_le (successors_of g.successors c))
          (record { degrees = degrees; eligible = cs })

    popped :
        (elem c hashes ≡ true) × (nat_eq (degree degrees c) 0 ≡ true) × (elem c ordered ≡ false)
    popped =
        let here = count-cons c c cs in
        let self = ap one_if (eq_refl c) in
        let two =
          both (elem c hashes) (nat_eq (degree degrees c) 0)
            (omega (arith, inv.ready c, here, self)) in
        (
          two.0,
          two.1,
          unordered (Bool-cases (elem c ordered))
              (bound (elem c hashes && nat_eq (degree degrees c) 0)),
        )
      where
        both : (a b : Bool) → 1 ≤ one_if (a && b) → (a ≡ true) × (b ≡ true)
        both true true h = (refl, refl)
        both true false h = absurd (omega (arith, h))
        both false b h = absurd (omega (arith, h))

        bound : (b : Bool) → one_if b ≤ 1
        bound true = omega arith
        bound false = omega arith

        unordered :
            ((elem c ordered ≡ true) ⊎ (elem c ordered ≡ false))
            → one_if (elem c hashes && nat_eq (degree degrees c) 0) ≤ 1
            → elem c ordered ≡ false
        unordered (inr t) h = t
        unordered (inl t) h = absurd (
            omega (
              arith,
              inv.ready c,
              count-cons c c cs,
              ap one_if (eq_refl c),
              count-present c ordered t,
              h,
            ))

    -- the edges from it, each once
    sorted-count :
        (n : String) → count n (sort_by str_le (successors_of g.successors c)) ≡ one_if (edge g c n)
    sorted-count n =
        count-sort str_le n (successors_of g.successors c) ∙ once (Bool-cases (edge g c n))
      where
        once :
            ((edge g c n ≡ true) ⊎ (edge g c n ≡ false))
            → count n (successors_of g.successors c) ≡ one_if (edge g c n)
        once (inl t) =
            rw t (omega (arith, graph.single c n, count-present n (successors_of g.successors c) t))
        once (inr t) = rw t (count-absent n (successors_of g.successors c) t)

    after-degree : (n : String) → degree after.degrees n ≡ degree degrees n - one_if (edge g c n)
    after-degree n =
        relax-degree (sort_by str_le (successors_of g.successors c))
          (record { degrees = degrees; eligible = cs }) n
        ∙ ap (λ k. degree degrees n - k) (sorted-count n)

    -- how many wait, before and after
    pending-count :
        (n : String)
        → tally (pending ordered n) (distinct hashes)
          ≡ tally (pending (ordered ++ (c ∷ [])) n) (distinct hashes) + one_if (edge g c n)
    pending-count n = elim (Bool-cases (edge g c n)) [
      | inl t ↦ rw t (
          tally_one (pending (ordered ++ (c ∷ [])) n) (pending ordered n) c (distinct hashes)
            (distinct-count c hashes ∙ ap one_if popped.0)
            (ap (λ b. not b && edge g c n) (elem-snoc_self c c ordered (eq_refl c)))
            (ap (λ b. not b && edge g c n) popped.2 ∙ t)
            (λ x h. ap (λ b. not b && edge g x n) (elem-snoc_other x c ordered (eq_turned c x h)))
          ∙ omega arith)
      | inr t ↦ rw t (
          tally_agree (pending ordered n) (pending (ordered ++ (c ∷ [])) n) (distinct hashes)
            (λ x. agree t x (Bool-cases (x == c)))
          ∙ omega arith)
    ]
      where
        agree :
            edge g c n ≡ false
            → (x : String) → ((x == c ≡ true) ⊎ (x == c ≡ false))
            → pending ordered n x ≡ pending (ordered ++ (c ∷ [])) n x
        agree t x (inl u) =
            let no_edge : edge g x n ≡ false = ap (λ y. edge g y n) ((eq_iff x c).0 u) ∙ t in
            ground (arith, no_edge)
        agree t x (inr u) = ap (λ b. not b && edge g x n) (sym (elem-snoc_other x c ordered u))

    after-waits :
        (n : String)
        → degree after.degrees n ≡ tally (pending (ordered ++ (c ∷ [])) n) (distinct hashes)
    after-waits n = omega (arith, after-degree n, inv.waits n, pending-count n)

    after-count :
        (n : String)
        → count n after.eligible ≡ count n cs + one_if (edge g c n && nat_eq (degree degrees n) 1)
    after-count n =
        relax-count (sort_by str_le (successors_of g.successors c))
          (record { degrees = degrees; eligible = cs }) n one
        ∙ ap (λ b. count n cs + one_if (b && nat_eq (degree degrees n) 1))
            (same_elem n (sort_by str_le (successors_of g.successors c))
              (successors_of g.successors c) (count-sort str_le n (successors_of g.successors c)))
      where
        one : IsSingle (sort_by str_le (successors_of g.successors c))
        one v = omega (arith, graph.single c v, count-sort str_le v (successors_of g.successors c))

    -- a Slice becomes eligible in the round that lowers its degree to 0
    ready_shift :
        (n : String)
        → one_if (elem n hashes && nat_eq (degree degrees n) 0)
            + one_if (edge g c n && nat_eq (degree degrees n) 1)
          ≡ one_if (elem n hashes && nat_eq (degree after.degrees n) 0)
    ready_shift n = elim (Bool-cases (edge g c n)) [
      | inl t ↦
          let h = (graph.inside c n t).1 in
          rw t (rw h (shift (degree degrees n) (degree after.degrees n) (drop t)))
      | inr t ↦
          let same : degree after.degrees n ≡ degree degrees n =
            after-degree n ∙ rw t (omega arith) in
          rw t (rw same (omega arith))
    ]
      where
        drop : edge g c n ≡ true → degree degrees n ≡ suc (degree after.degrees n)
        drop t = omega (arith, inv.waits n, pending-count n, after-waits n, ap one_if t)

        shift :
            (a b : ℕ)
            → a ≡ suc b
            → one_if (true && nat_eq a 0) + one_if (true && nat_eq a 1)
              ≡ one_if (true && nat_eq b 0)
        shift a b e = ground (arith, e)

    after-ready :
        (n : String)
        → count n (ordered ++ (c ∷ [])) + count n after.eligible
          ≡ one_if (elem n hashes && nat_eq (degree after.degrees n) 0)
    after-ready n = omega (
      arith,
      tally-append (λ x. n == x) ordered (c ∷ []),
      count-cons n c [],
      count-cons n c cs,
      after-count n,
      inv.ready n,
      ready_shift n,
    )

    after-Inv : Inv after.degrees after.eligible (ordered ++ (c ∷ []))
    after-Inv = record {
      waits = after-waits;
      ready = after-ready;
      topological =
          IsTopological-snoc (edge g) c [] ordered inv.topological
            λ p e. before p e (Bool-cases (elem p ordered));
    }
      where
        idle : tally (pending ordered c) (distinct hashes) ≡ 0
        idle = sym (inv.waits c) ∙ is_zero (degree degrees c) popped.1
          where
            is_zero : (k : ℕ) → nat_eq k 0 ≡ true → k ≡ 0
            is_zero k h = ground arith

        before :
            (p : String)
            → edge g p c ≡ true
            → ((elem p ordered ≡ true) ⊎ (elem p ordered ≡ false))
            → (elem p ordered || elem p []) ≡ true
        before p e (inl t) = rw t refl
        before p e (inr t) =
            let known = distinct-elem p hashes ∙ (graph.inside p c e).0 in
            let fails = tally_none (pending ordered c) p (distinct hashes) idle known in
            let h : true ≡ false = sym (rw t (rw e refl)) ∙ fails in cc

  -- ordered and eligible Slices together are at most as many as all
  bounded :
      (degrees : Dict ℕ) (eligible ordered : List String)
      → Inv degrees eligible ordered
      → length (ordered ++ eligible) ≤ length hashes
  bounded degrees eligible ordered inv = count-length (ordered ++ eligible) hashes below
    where
      at_most : (v : String) (b : Bool) → one_if (elem v hashes && b) ≤ count v hashes
      at_most v b = elim (Bool-cases (elem v hashes)) [
        | inl t ↦ rw t (some_time b (count-present v hashes t))
        | inr t ↦ rw t (omega arith)
      ]
        where
          some_time : (b : Bool) → 1 ≤ count v hashes → one_if (true && b) ≤ count v hashes
          some_time true h = h
          some_time false h = omega arith

      below : (v : String) → count v (ordered ++ eligible) ≤ count v hashes
      below v = omega (
        arith,
        tally-append (λ x. v == x) ordered eligible,
        inv.ready v,
        at_most v (nat_eq (degree degrees v) 0),
      )

  -- the loop ends with nothing eligible if it may run once for each Slice that is not ordered
  pub drain-Inv :
      (fuel : ℕ) (degrees : Dict ℕ) (eligible ordered : List String)
      → Inv degrees eligible ordered
      → length hashes ≤ fuel + length ordered
      → (out : List String) × (drain fuel g.successors degrees eligible ordered ≡ some out)
        × ((last : Dict ℕ) × Inv last [] out)
  unfolding drain
  drain-Inv fuel degrees [] ordered inv enough = (ordered, refl, (degrees, inv))
  drain-Inv zero degrees (c ∷ cs) ordered inv enough =
      absurd (
        omega (arith, enough, bounded degrees (c ∷ cs) ordered inv, length-append ordered (c ∷ cs)))
  drain-Inv (suc fuel) degrees (c ∷ cs) ordered inv enough =
      let s = after degrees c cs ordered inv in
      drain-Inv fuel s.degrees s.eligible (ordered ++ (c ∷ [])) (after-Inv degrees c cs ordered inv)
        (omega (arith, enough, length-append ordered (c ∷ [])))
