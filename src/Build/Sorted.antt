-- ===== src/Build/Sorted.antt =====
-- What `_topological_order` (saga.py) returns, and when.
use dsp.Prelude.{
  ℕ, ◌+◌, ◌≤◌, ◌≡◌, refl, ap, sym, ◌∙◌, subst, String, Option, some, List, [], ◌∷◌, Bool, true,
  false, ◌&&◌, ◌||◌, ◌==◌, ◌⊎◌, inl, inr, arith, elem, length, ok, >>=-eq-ok, guard_then,
  ok-injective, if◌then◌else◌, eq_iff,
}
use dsp.Prelude.Tests.{Bool-cases, nat_eq}
use dsp.Prelude.Dict.{Dict}
use dsp.Prelude.Sort.{sort_by, str_le}
use dsp.Contracts.{distinct}
use dsp.Saga.Definition.{SliceDependency}
use dsp.Scope.Compare.{keep}
use dsp.Scope.Listing.{Among}
use dsp.Build.Order.{
  Graph, unlinked, degree, add_dependencies, eligible_at_first, drained, complete_order,
  topological_order,
}
use dsp.Build.Counting.{
  count, one_if, count-cons, count-present, count-sort, distinct-count, same_elem, tally_agree,
}
use dsp.Build.Counting.Lengths.{count-full}
use dsp.Build.Graph.{IsGraph, edge}
use dsp.Build.Graph.Growth.{Covers, add_dependencies-IsGraph}
use dsp.Build.Topological.{Precedes, IsTopological-Precedes}
use dsp.Build.Loop.{Inv, pending, drain-Inv}

count-keep :
    (p : String → Bool) (v : String) (xs : List String)
    → count v (keep p xs) ≡ (if p v then count v xs else 0)
unfolding keep
count-keep p v [] = elim (Bool-cases (p v)) [ inl t ↦ rw t refl | inr t ↦ rw t refl ]
count-keep p v (x ∷ xs) = elim (Bool-cases (v == x)) [
  | inl u ↦ same (ap p ((eq_iff v x).0 u)) u (count-keep p v xs) (Bool-cases (p x))
  | inr u ↦ other u (count-keep p v xs) (Bool-cases (p x)) (Bool-cases (p v))
]
  where
    same :
        p v ≡ p x
        → v == x ≡ true
        → count v (keep p xs) ≡ (if p v then count v xs else 0)
        → ((p x ≡ true) ⊎ (p x ≡ false))
        → count v (keep p (x ∷ xs)) ≡ (if p v then count v (x ∷ xs) else 0)
    same e u h (inl t) =
        let t' = e ∙ t in
        let h' = rw t' at h in
        rw t (
          rw t' (
            count-cons v x (keep p xs)
            ∙ ap (λ k. one_if (v == x) + k) h'
            ∙ sym (count-cons v x xs)))
    same e u h (inr t) = let t' = e ∙ t in let h' = rw t' at h in rw t (rw t' h')

    other :
        v == x ≡ false
        → count v (keep p xs) ≡ (if p v then count v xs else 0)
        → ((p x ≡ true) ⊎ (p x ≡ false))
        → ((p v ≡ true) ⊎ (p v ≡ false))
        → count v (keep p (x ∷ xs)) ≡ (if p v then count v (x ∷ xs) else 0)
    other u h (inl t) (inl t') =
        let h' = rw t' at h in
        rw t (
          rw t' (
            count-cons v x (keep p xs)
            ∙ ap (λ k. one_if (v == x) + k) h'
            ∙ sym (count-cons v x xs)))
    other u h (inl t) (inr t') =
        let h' = rw t' at h in
        rw t (rw t' (omega (arith, count-cons v x (keep p xs), ap one_if u, h')))
    other u h (inr t) (inl t') =
        let h' = rw t' at h in rw t (rw t' (omega (arith, count-cons v x xs, ap one_if u, h')))
    other u h (inr t) (inr t') = let h' = rw t' at h in rw t (rw t' h')

module _ (hashes : List String) (g : Graph) (graph : IsGraph hashes g) where
  first-Inv : Inv hashes g graph g.indegree (eligible_at_first g hashes) []
  unfolding eligible_at_first
  first-Inv = record {
    waits = λ n.
        graph.degrees n
        ∙ tally_agree (λ p. edge g p n) (pending hashes g graph [] n) (distinct hashes) (λ x. refl);
    ready = λ n. counted n (Bool-cases (nat_eq (degree g.indegree n) 0));
    topological = tt;
  }
    where
      open_now : String → Bool
      open_now h = nat_eq (degree g.indegree h) 0

      both :
          (n : String)
          → open_now n ≡ true
          → one_if (elem n hashes) ≡ one_if (elem n hashes && open_now n)
      both n t = elim (Bool-cases (elem n hashes)) [ inl u ↦ rw u (rw t refl) | inr u ↦ rw u refl ]

      neither : (n : String) → open_now n ≡ false → 0 ≡ one_if (elem n hashes && open_now n)
      neither n t = elim (Bool-cases (elem n hashes)) [
        | inl u ↦ rw u (rw t refl)
        | inr u ↦ rw u refl
      ]

      counted :
          (n : String)
          → ((open_now n ≡ true) ⊎ (open_now n ≡ false))
          → 0 + count n (sort_by str_le (keep open_now (distinct hashes)))
            ≡ one_if (elem n hashes && open_now n)
      counted n (inl t) =
          let kept : count n (keep open_now (distinct hashes)) ≡ count n (distinct hashes) =
            count-keep open_now n (distinct hashes) ∙ rw t refl in
          omega (
            arith,
            count-sort str_le n (keep open_now (distinct hashes)),
            kept,
            distinct-count n hashes,
            both n t,
          )
      counted n (inr t) =
          let kept : count n (keep open_now (distinct hashes)) ≡ 0 =
            count-keep open_now n (distinct hashes) ∙ rw t refl in
          omega (arith, count-sort str_le n (keep open_now (distinct hashes)), kept, neither n t)

  -- the loop ends, with the invariant
  pub drained-Inv :
      (out : List String) × (drained g hashes ≡ some out)
      × ((last : Dict ℕ) × Inv hashes g graph last [] out)
  unfolding drained
  drained-Inv =
      drain-Inv hashes g graph (length hashes) g.indegree (eligible_at_first g hashes) [] first-Inv
        (omega arith)

-- Kahn's loop ends within one round for each Slice, with nothing eligible left, whatever the
-- dependencies are, once both ends of each are Slices.
pub drained-ends :
    (hashes : List String) (dependencies : List SliceDependency) (g : Graph)
    → add_dependencies (unlinked hashes) dependencies ≡ ok g
    → (ordered : List String) × (drained g hashes ≡ some ordered)
drained-ends hashes dependencies g run =
    let (graph, _, _) = add_dependencies-IsGraph hashes g dependencies run in
    let (out, e, _) = drained-Inv hashes g graph in (out, e)

or_false : (b : Bool) → (b || false) ≡ true → b ≡ true
or_false b h = ground arith

one_if_le : (n : ℕ) (a b : Bool) → n ≡ one_if (a && b) → n ≤ one_if a
one_if_le n true true e = omega (arith, e)
one_if_le n true false e = omega (arith, e)
one_if_le n false b e = omega (arith, e)

one_if-elem : (v : String) (xs : List String) → one_if (elem v xs) ≤ count v xs
one_if-elem v xs = elim (Bool-cases (elem v xs)) [
  | inl t ↦ rw t (count-present v xs t)
  | inr t ↦ rw t (omega arith)
]

-- The topological order that is returned has the Slices, each as often as it was given, and every
-- dependency's predecessor stands before its successor.
pub topological_order-IsSorted :
    (hashes : List String) (dependencies : List SliceDependency) (ordered : List String)
    → topological_order hashes dependencies ≡ ok ordered
    → ((v : String) → count v ordered ≡ count v hashes)
      × ((d : SliceDependency)
          → Among d dependencies
          → Precedes d.predecessor_slice_hash d.successor_slice_hash ordered)
unfolding topological_order
topological_order-IsSorted hashes dependencies ordered run =
    let (g, linked, run₁) = >>=-eq-ok (add_dependencies (unlinked hashes) dependencies) _ run in
    let (graph, covers, _) = add_dependencies-IsGraph hashes g dependencies linked in
    let (out, ended, (last, inv)) = drained-Inv hashes g graph in
    let (full, done) =
      guard_then (nat_eq (length out) (length hashes)) _ _
        (subst (Completed hashes ordered) ended run₁) in
    let same = all_counted out last graph inv (eq_of (length out) (length hashes) full) in
    subst (Sorted_as g) (ok-injective out ordered done)
      (same, λ d m. precedes graph covers inv same d m)
  where
    Completed : List String → List String → Option (List String) → Type 0
    Completed hs xs o = complete_order (length hs) o ≡ ok xs

    Sorted_as : Graph → List String → Type 0
    Sorted_as g xs =
        ((v : String) → count v xs ≡ count v hashes)
        × ((d : SliceDependency)
            → Among d dependencies
            → Precedes d.predecessor_slice_hash d.successor_slice_hash xs)

    eq_of : (a b : ℕ) → nat_eq a b ≡ true → a ≡ b
    eq_of a b h = ground arith

    all_counted :
        {g : Graph} (out : List String) (last : Dict ℕ) (graph : IsGraph hashes g)
        → Inv hashes g graph last [] out
        → length out ≡ length hashes
        → (v : String) → count v out ≡ count v hashes
    all_counted out last graph inv full = count-full out hashes (λ v. below v) full
      where
        below : (v : String) → count v out ≤ count v hashes
        below v = omega (
          arith,
          one_if-elem v hashes,
          one_if_le (count v out + count v []) (elem v hashes) (nat_eq (degree last v) 0)
              (inv.ready v),
        )

    precedes :
        {g : Graph} {out : List String} {last : Dict ℕ} (graph : IsGraph hashes g)
        → Covers g dependencies
        → Inv hashes g graph last [] out
        → ((v : String) → count v out ≡ count v hashes)
        → (d : SliceDependency) → Among d dependencies
        → Precedes d.predecessor_slice_hash d.successor_slice_hash out
    precedes {g = g} {out = out} graph covers inv same d m =
        let p = d.predecessor_slice_hash in
        let n = d.successor_slice_hash in
        let present = same_elem n out hashes (same n) ∙ (graph.inside p n (covers d m)).1 in
        let (front, back, e, h) =
          IsTopological-Precedes (edge g) [] out p n inv.topological (covers d m) present in
        (front, back, e, or_false (elem p front) h)
