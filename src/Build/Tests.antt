-- ===== src/Build/Tests.antt =====
-- Runs of the topological order, and its theorems at concrete inputs.
pub mod Builder
use dsp.Prelude.{
  ℕ, ◌≡◌, refl, ap, String, List, [], ◌∷◌, true, ◌==◌, inl, inr, arith, elem, Result, ok, err, some,
  if◌then◌else◌,
}
use dsp.Contracts.{Error, saga_integrity_invalid, unique}
use dsp.Saga.Definition.{SliceDependency}
use dsp.Scope.Listing.{Among}
use dsp.Build.Order.{Graph, unlinked, add_dependencies, drained, topological_order}
use dsp.Build.Counting.{count}
use dsp.Build.Graph.Growth.{AreInside}
use dsp.Build.Sorted.{drained-ends, topological_order-IsSorted}
use dsp.Build.Topological.{Precedes}
use dsp.Build.Acyclic.{IsRanked, topological_order-returns}

abbrev after : String → String → SliceDependency
after p n = record { predecessor_slice_hash = p; successor_slice_hash = n; reason_refs = "r" ∷ [] }

abbrev slices : List String
slices = "c" ∷ "a" ∷ "b" ∷ []

-- b before a, c before a, and the first of them twice
abbrev dependencies : List SliceDependency
dependencies = after "b" "a" ∷ after "c" "a" ∷ after "b" "a" ∷ []

abbrev cyclic : List SliceDependency
cyclic = after "b" "a" ∷ after "a" "b" ∷ []

order_run : topological_order slices dependencies ≡ ok ("b" ∷ "c" ∷ "a" ∷ [])
unfolding topological_order
order_run = refl

cycle_run : topological_order slices cyclic ≡ err saga_integrity_invalid
unfolding topological_order
cycle_run = refl

outside_run : topological_order slices (after "x" "a" ∷ []) ≡ err saga_integrity_invalid
unfolding topological_order
outside_run = refl

topological_order-IsSorted_example :
    ((v : String) → count v ("b" ∷ "c" ∷ "a" ∷ []) ≡ count v slices)
    × ((d : SliceDependency)
        → Among d dependencies
        → Precedes d.predecessor_slice_hash d.successor_slice_hash ("b" ∷ "c" ∷ "a" ∷ []))
topological_order-IsSorted_example =
    topological_order-IsSorted slices dependencies ("b" ∷ "c" ∷ "a" ∷ []) order_run

abbrev rank : String → ℕ
rank s = if s == "a" then 1 else 0

slices-unique : unique slices ≡ true
unfolding unique
slices-unique = refl

dependencies-AreInside : AreInside slices dependencies
dependencies-AreInside d (inl e) = (
  ap (λ (x : SliceDependency). elem x.predecessor_slice_hash slices) e,
  ap (λ (x : SliceDependency). elem x.successor_slice_hash slices) e,
)
dependencies-AreInside d (inr (inl e)) = (
  ap (λ (x : SliceDependency). elem x.predecessor_slice_hash slices) e,
  ap (λ (x : SliceDependency). elem x.successor_slice_hash slices) e,
)
dependencies-AreInside d (inr (inr (inl e))) = (
  ap (λ (x : SliceDependency). elem x.predecessor_slice_hash slices) e,
  ap (λ (x : SliceDependency). elem x.successor_slice_hash slices) e,
)
dependencies-AreInside d (inr (inr (inr m))) = absurd m

dependencies-IsRanked : IsRanked rank dependencies
dependencies-IsRanked d (inl e) = omega (
  arith,
  ap (λ (x : SliceDependency). rank x.predecessor_slice_hash) e,
  ap (λ (x : SliceDependency). rank x.successor_slice_hash) e,
)
dependencies-IsRanked d (inr (inl e)) = omega (
  arith,
  ap (λ (x : SliceDependency). rank x.predecessor_slice_hash) e,
  ap (λ (x : SliceDependency). rank x.successor_slice_hash) e,
)
dependencies-IsRanked d (inr (inr (inl e))) = omega (
  arith,
  ap (λ (x : SliceDependency). rank x.predecessor_slice_hash) e,
  ap (λ (x : SliceDependency). rank x.successor_slice_hash) e,
)
dependencies-IsRanked d (inr (inr (inr m))) = absurd m

topological_order-returns_example :
    (ordered : List String) × (topological_order slices dependencies ≡ ok ordered)
topological_order-returns_example =
    topological_order-returns slices dependencies rank slices-unique dependencies-AreInside
      dependencies-IsRanked

abbrev built : Result Error Graph → Graph
built (ok g) = g
built (err _) = unlinked []

built_run :
    add_dependencies (unlinked slices) cyclic
    ≡ ok (built (add_dependencies (unlinked slices) cyclic))
unfolding add_dependencies unlinked
built_run = refl

-- the loop ends on a cycle too
drained-ends_example :
    (ordered : List String) × (drained (built (add_dependencies (unlinked slices) cyclic)) slices
      ≡ some ordered)
drained-ends_example =
    drained-ends slices cyclic (built (add_dependencies (unlinked slices) cyclic)) built_run
