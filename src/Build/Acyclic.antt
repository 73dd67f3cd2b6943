-- ===== src/Build/Acyclic.antt =====
-- `_topological_order` (saga.py) finds a cycle only where there is one.
use dsp.Prelude.{
  ℕ, zero, suc, ◌≤◌, ◌<◌, ◌≡◌, refl, ap, sym, ◌∙◌, String, some, List, [], Bool, true, false, ◌&&◌,
  not, inl, inr, arith, elem, tally, length, ok, >>=-returns,
}
use dsp.Prelude.Tests.{Bool-cases, nat_eq}
use dsp.Prelude.Dict.{Dict}
use dsp.Contracts.{distinct, unique}
use dsp.Saga.Definition.{SliceDependency}
use dsp.Scope.Listing.{Among}
use dsp.Build.Order.{Graph, unlinked, degree, add_dependencies, complete_order, topological_order}
use dsp.Build.Counting.{count, one_if, IsSingle, count-absent, count-present, tally_some}
use dsp.Build.Counting.Lengths.{count-length, unique-IsSingle}
use dsp.Build.Graph.{IsGraph, edge, unlinked-IsGraph}
use dsp.Build.Graph.Growth.{AreInside, add_dependencies-IsGraph, add_dependencies-returns}
use dsp.Build.Loop.{Inv, pending, distinct-elem}
use dsp.Build.Sorted.{drained-Inv}

-- `rank` puts each Slice above those that it depends on: there is no cycle
abbrev pub IsRanked : (String → ℕ) → List SliceDependency → Type 0
IsRanked rank ds =
    (d : SliceDependency) → Among d ds → rank d.predecessor_slice_hash < rank d.successor_slice_hash

module _ (hashes : List String) (g : Graph) (graph : IsGraph hashes g) (rank : String → ℕ)
    (below : (p n : String) → edge g p n ≡ true → rank p < rank n) (out : List String)
    (last : Dict ℕ) (inv : Inv hashes g graph last [] out) where
  -- a Slice that was never ordered waits for another one
  waits_for :
      (n : String)
      → elem n hashes ≡ true
      → elem n out ≡ false
      → (p : String) × (elem p hashes ≡ true) × (elem p out ≡ false) × (rank p < rank n)
  waits_for n m left =
      let (p, known, h) =
        tally_some (pending hashes g graph out n) (distinct hashes)
          (some_wait (degree last n) refl) in
      let (a, b) = halves (elem p out) (edge g p n) h in
      (p, sym (distinct-elem p hashes) ∙ known, a, below p n b)
    where
      halves : (a b : Bool) → (not a && b) ≡ true → (a ≡ false) × (b ≡ true)
      halves true b h = cc
      halves false b h = (refl, h)

      some_wait :
          (k : ℕ) → k ≡ degree last n → 1 ≤ tally (pending hashes g graph out n) (distinct hashes)
      some_wait zero e =
          let none_out = count-absent n out left in
          let one : one_if (elem n hashes && nat_eq (degree last n) 0) ≡ 1 = rw m (rw (← e) refl) in
          absurd (omega (arith, inv.ready n, none_out, one))
      some_wait (suc k) e = omega (arith, e, inv.waits n)

  -- so none is left out
  all_ordered : (bound : ℕ) (n : String) → rank n < bound → elem n hashes ≡ true → elem n out ≡ true
  all_ordered zero n small m = absurd (omega arith)
  all_ordered (suc bound) n small m = elim (Bool-cases (elem n out)) [
    | inl t ↦ t
    | inr t ↦
        let (p, m', left, less) = waits_for n m t in
        let t' = all_ordered bound p (omega (arith, less, small)) m' in cc
  ]

  full_length : IsSingle hashes → length out ≡ length hashes
  full_length single = omega (arith, count-length out hashes fewer, count-length hashes out more)
    where
      more : (v : String) → count v hashes ≤ count v out
      more v = elim (Bool-cases (elem v hashes)) [
        | inl t ↦
            omega
              (arith, single v, count-present v out (all_ordered (suc (rank v)) v (omega arith) t))
        | inr t ↦ omega (arith, count-absent v hashes t)
      ]

      fewer : (v : String) → count v out ≤ count v hashes
      fewer v = elim (Bool-cases (elem v hashes)) [
        | inl t ↦ omega (
          arith,
          inv.ready v,
          count-present v hashes t,
          at_most (elem v hashes && nat_eq (degree last v) 0),
        )
        | inr t ↦
            let none_there : one_if (elem v hashes && nat_eq (degree last v) 0) ≡ 0 = rw t refl in
            omega (arith, inv.ready v, none_there)
      ]
        where
          at_most : (b : Bool) → one_if b ≤ 1
          at_most true = omega arith
          at_most false = omega arith

-- Distinct Slices with dependencies among them that have no cycle get an order: there is no error.
pub topological_order-returns :
    (hashes : List String) (dependencies : List SliceDependency) (rank : String → ℕ)
    → unique hashes ≡ true
    → AreInside hashes dependencies
    → IsRanked rank dependencies
    → (ordered : List String) × (topological_order hashes dependencies ≡ ok ordered)
unfolding topological_order
topological_order-returns hashes dependencies rank distinct_all inside ranked =
    let (g, linked) =
      add_dependencies-returns hashes (unlinked hashes) dependencies (unlinked-IsGraph hashes)
        inside in
    let (graph, _, from) = add_dependencies-IsGraph hashes g dependencies linked in
    let (out, ended, (last, inv)) = drained-Inv hashes g graph in
    let full =
      full_length hashes g graph rank (lower g from) out last inv
        (unique-IsSingle hashes distinct_all) in
    >>=-returns (add_dependencies (unlinked hashes) dependencies) _ linked
      (out, rw ended (completes (length hashes) out full))
  where
    lower :
        (g : Graph)
        → ((q m : String)
            → edge g q m ≡ true
            → (d : SliceDependency) × Among d dependencies
              × (d.predecessor_slice_hash ≡ q)
              × (m ≡ d.successor_slice_hash))
        → (p n : String) → edge g p n ≡ true
        → rank p < rank n
    lower g from p n h =
        let (d, m, e, e') = from p n h in omega (arith, ranked d m, ap rank e, ap rank e')

    completes : (n : ℕ) (out : List String) → length out ≡ n → complete_order n (some out) ≡ ok out
    completes n out e = let h : nat_eq (length out) n ≡ true = ground (arith, e) in rw h refl
