-- ===== src/Saga/Order.antt =====
-- The Slices of a Saga whose dependencies point forward are taken in the order of its definition.
pub mod Steps
pub mod Candidate
pub mod Failure
use dsp.Prelude.{
  String, ◌≡◌, refl, List, [], ◌∷◌, ◌++◌, map, Bool, true, false, arith, all, all-append, elem,
  ◌&&◌, ◌||◌, ◌⊎◌, if◌then◌else◌, not, ◌==◌, eq_iff, inl, inr, Bool-cases, any,
}
use dsp.Saga.Definition.{Definition, SliceDependency}
use dsp.Saga.State.{SliceState}
use dsp.Saga.Coherence.{slice_fresh}
use dsp.Saga.Transitions.Checks.{predecessors}
use dsp.Saga.Transitions.Verification.{slice_succeeded}

-- the predecessors of each Slice stand before it
unfoldable pub forward_from : List SliceDependency → List String → List String → Bool
forward_from ds seen [] = true
forward_from ds seen (h ∷ hs) =
    all (λ p. elem p seen) (predecessors ds h) && forward_from ds (seen ++ (h ∷ [])) hs

unfoldable pub is_forward : Definition → Bool
unfolding forward_from
is_forward d = forward_from d.slice_dependencies [] d.ordered_slice_hashes

-- Slices that have succeeded, then one in any status, then new ones
unfoldable pub in_order : List SliceState → Bool
in_order [] = true
in_order (s ∷ ss) = if slice_succeeded s then in_order ss else all slice_fresh ss

pub in_order-fresh : (ss : List SliceState) → all slice_fresh ss ≡ true → in_order ss ≡ true
unfolding in_order
in_order-fresh [] h = refl
in_order-fresh (s ∷ ss) h = ground arith

-- what stands around a Slice that is neither new nor has succeeded
pub in_order-around :
    (pre post : List SliceState) (s : SliceState)
    → in_order (pre ++ (s ∷ post)) ≡ true
    → slice_fresh s ≡ false
    → slice_succeeded s ≡ false
    → (all slice_succeeded pre ≡ true) × (all slice_fresh post ≡ true)
unfolding in_order
in_order-around [] post s h new done = ground arith
in_order-around (p ∷ pre) post s h new done =
    ground (arith, in_order-around pre post s, all-append slice_fresh pre (s ∷ post))

pub in_order-middle :
    (pre post : List SliceState) (t : SliceState)
    → all slice_succeeded pre ≡ true
    → all slice_fresh post ≡ true
    → in_order (pre ++ (t ∷ post)) ≡ true
unfolding in_order
in_order-middle [] post t done new = ground (arith, in_order-fresh post)
in_order-middle (p ∷ pre) post t done new = ground (arith, in_order-middle pre post t)

-- a new Slice in an ordered Saga follows succeeded ones only, or one that has not succeeded comes
-- first
pub in_order-first :
    (pre post : List SliceState) (s : SliceState)
    → in_order (pre ++ (s ∷ post)) ≡ true
    → slice_fresh s ≡ true
    → ((all slice_succeeded pre ≡ true) × (all slice_fresh post ≡ true))
      ⊎ ((done : List SliceState) × (x : SliceState) × (rest : List SliceState) × (pre
            ≡ done ++ (x ∷ rest))
          × (all slice_succeeded done ≡ true)
          × (slice_succeeded x ≡ false))
unfolding in_order
in_order-first [] post s h new = inl (refl, ground arith)
in_order-first (p ∷ pre) post s h new = elim (Bool-cases (slice_succeeded p)) [
  | inl yes' ↦ elim (in_order-first pre post s (ground arith) new) [
    | inl (a, b) ↦ inl (ground arith, b)
    | inr (done, x, rest, e, a, b) ↦ inr (p ∷ done, x, rest, (λ i. p ∷ e i), ground arith, b)
  ]
  | inr no' ↦ inr ([], p, pre, refl, refl, no')
]
