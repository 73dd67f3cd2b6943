-- ===== src/Coordination/Validate.antt =====
-- materialized_coordinator.py: the checks of `execute` before the readiness barrier, and the indexes
-- that they build.
use dsp.Prelude.{
  String, Option, none, some, List, [], ◌∷◌, Bool, ◌&&◌, ◌==◌, all, map, Result, ok, err, ◌>>=◌,
  ◌>>◌, guard,
}
use dsp.Prelude.Json.{Json}
use dsp.Contracts.{Error, unique}
use dsp.Saga.Evidence.{Authority}
use dsp.Saga.Transitions.Verification.{same_texts}
use dsp.Scope.Rules.{Boundary}
use dsp.Scope.Local.{ExecutionSlice}
use dsp.Coordination.Effects.{
  CoordinationError, materialization_plan_hash_mismatch, materialization_required_set_mismatch,
  convergence_profile_mismatch, materialization_binding_mismatch,
  materialization_authority_mismatch, as_error,
}
use dsp.Coordination.Contracts.{Job}
use dsp.Coordination.Bindings.{intent_ids, validate_cross_materialization_identity}
use dsp.Coordination.Indexes.{Check, index_by, found, covers, check_each, caught}
use dsp.Coordination.Inputs.{
  MaterializationIntent, MaterializationPlan, Profile, ExecutionUnit, PlannedSlice, ExecutionPlan,
  BindingSet, Inputs, compute_materialization_intent_hash, compute_required_set_hash,
  compute_materialization_plan_hash, compute_convergence_profile_hash,
}

abbrev pub slice_id : PlannedSlice → String
slice_id s = s.execution_slice.materialization_id

-- the one unit of a Slice, against its intent
unfoldable pub unit_fits : MaterializationPlan → MaterializationIntent → ExecutionUnit → Bool
unit_fits plan intent unit =
    unit.materialization_id == intent.materialization_id
    && unit.materialization_plan_hash == plan.materialization_plan_hash
    && unit.materialization_slot_id == intent.materialization_slot_id
    && unit.required_host_type == intent.required_host_type
    && same_texts unit.targets intent.semantic_targets

-- a Slice with one unit, against its intent
unfoldable pub slice_fits :
    String → Boundary → MaterializationPlan → MaterializationIntent → ExecutionSlice → Bool
slice_fits changeset_hash boundary plan intent s =
    s.materialization_plan_hash == plan.materialization_plan_hash
    && s.materialization_slot_id == intent.materialization_slot_id
    && s.host_runtime_ref.host_type == intent.required_host_type
    && s.changeset_hash == changeset_hash
    && s.approved_scope_ref.scope_hash == boundary.scope_hash

abbrev pub check_units : MaterializationPlan → MaterializationIntent → List ExecutionUnit → Check
check_units plan intent (unit ∷ []) =
    guard (unit_fits plan intent unit) materialization_plan_hash_mismatch
check_units plan intent _ = err materialization_plan_hash_mismatch

unfoldable pub check_slice : String → Boundary → MaterializationPlan → PlannedSlice → Check
unfolding index_by slice_fits unit_fits
check_slice changeset_hash boundary plan s = do
  intent ←
      found
        (index_by (λ (i : MaterializationIntent). i.materialization_id) plan.intents (slice_id s))
  guard (slice_fits changeset_hash boundary plan intent s.execution_slice)
      materialization_plan_hash_mismatch
  check_units plan intent s.execution_units

-- the lineage of an execution plan
unfoldable pub plan_joins : String → Boundary → MaterializationPlan → ExecutionPlan → Bool
plan_joins changeset_hash boundary plan e =
    e.changeset_hash == changeset_hash
    && e.scope_hash == boundary.scope_hash
    && e.materialization_plan_hash == plan.materialization_plan_hash
    && e.required_set_hash == plan.required_set_hash
    && e.convergence_profile_hash == plan.convergence_profile_hash

-- _slice_index, as the check that it makes; the index is of `execution_plan.execution_slices`
unfoldable pub check_slices : String → Boundary → MaterializationPlan → ExecutionPlan → Check
unfolding plan_joins covers check_each check_slice
check_slices changeset_hash boundary plan e = do
  guard (plan_joins changeset_hash boundary plan e) materialization_plan_hash_mismatch
  guard (e.ordering_policy == "stable_host_type_then_slot.v1") materialization_plan_hash_mismatch
  guard (covers (map slice_id e.execution_slices) (intent_ids plan))
      materialization_required_set_mismatch
  check_each (check_slice changeset_hash boundary plan) e.execution_slices

-- an authority, against the Slice and the binding set of its materialization
unfoldable pub authority_fits : MaterializationPlan → Authority → ExecutionSlice → BindingSet → Bool
authority_fits plan a s b =
    a.materialization_plan_hash == plan.materialization_plan_hash
    && a.changeset_hash == plan.changeset_hash
    && a.approved_scope_hash == plan.approved_scope_hash
    && a.execution_slice_hash == s.execution_slice_hash
    && a.binding_set_hash == b.binding_set_hash
    && a.host_instance_id == s.host_runtime_ref.host_instance_id

-- the indexes by materialization
abbrev pub slices_of : Inputs → String → Option PlannedSlice
slices_of given = index_by slice_id given.execution_plan.execution_slices

abbrev pub bindings_of : Inputs → String → Option BindingSet
bindings_of given = index_by (λ (s : BindingSet). s.materialization_id) given.binding_sets

abbrev pub authorities_of : Inputs → String → Option Authority
authorities_of given = index_by (λ (a : Authority). a.materialization_id) given.authorities

unfoldable pub check_authority : Inputs → Authority → Check
unfolding index_by authority_fits
check_authority given a = do
  s ← found (slices_of given a.materialization_id)
  b ← found (bindings_of given a.materialization_id)
  guard (authority_fits given.materialization_plan a s.execution_slice b)
      materialization_authority_mismatch

-- _authority_index, as the check that it makes
unfoldable pub check_authorities : Inputs → Check
unfolding covers check_each check_authority
check_authorities given = do
  guard
      (covers (map (λ (a : Authority). a.materialization_id) given.authorities)
        (intent_ids given.materialization_plan))
      materialization_authority_mismatch
  check_each (check_authority given) given.authorities

-- what a round of the loop looks up for its Slice
unfoldable pub job_of : Inputs → PlannedSlice → Result CoordinationError Job
unfolding index_by
job_of given s = do
  b ← found (bindings_of given (slice_id s))
  a ← found (authorities_of given (slice_id s))
  ok (record {
    execution_slice = s.execution_slice;
    authority = a;
    binding_set_hash = b.binding_set_hash;
  })

unfoldable pub jobs_of : Inputs → List PlannedSlice → Result CoordinationError (List Job)
unfolding job_of
jobs_of given [] = ok []
jobs_of given (s ∷ ss) = do job ← job_of given s; jobs ← jobs_of given ss; ok (job ∷ jobs)

-- `owner_truth` is the outcome of the integrity checks that belong to the owners of the boundary and
-- of the change set, and `binding_integrity` that of the owner of a binding set for a Slice
module _ (sha256_json : Json → String) (owner_truth : String → Boundary → Result Error (Unit {0}))
    (binding_integrity : BindingSet → ExecutionSlice → Result Error (Unit {0})) where
  -- _validate_materialization_plan
  unfoldable pub validate_materialization_plan :
      String → Boundary → MaterializationPlan → Profile → Check
  unfolding compute_materialization_intent_hash compute_required_set_hash
      compute_materialization_plan_hash compute_convergence_profile_hash
  validate_materialization_plan changeset_hash boundary plan profile = do
    guard
        (all
          (λ (i : MaterializationIntent).
            i.intent_hash == compute_materialization_intent_hash sha256_json i)
          plan.intents)
        materialization_plan_hash_mismatch
    expected_required ← as_error (compute_required_set_hash sha256_json plan.intents)
    guard (plan.required_set_hash == expected_required) materialization_required_set_mismatch
    expected_plan ← as_error (compute_materialization_plan_hash sha256_json plan)
    guard (plan.materialization_plan_hash == expected_plan) materialization_plan_hash_mismatch
    expected_profile ←
        as_error
          (compute_convergence_profile_hash sha256_json profile.profile_version profile.field_rules)
    guard (profile.profile_hash == expected_profile) convergence_profile_mismatch
    guard (plan.changeset_hash == changeset_hash && plan.approved_scope_hash == boundary.scope_hash)
        materialization_plan_hash_mismatch
    guard (plan.convergence_profile_hash == profile.profile_hash) convergence_profile_mismatch

  -- a binding set has a Slice, for which its owner vouches
  unfoldable pub check_binding_set : Inputs → BindingSet → Check
  unfolding index_by
  check_binding_set given b = check (slices_of given b.materialization_id)
    where
      check : Option PlannedSlice → Check
      check none = err materialization_binding_mismatch
      check (some s) =
          caught (binding_integrity b s.execution_slice) materialization_binding_mismatch

  -- _binding_index, as the check that it makes
  unfoldable pub check_binding_sets : Inputs → Check
  unfolding validate_cross_materialization_identity unique check_each check_binding_set
  check_binding_sets given = do
    caught (validate_cross_materialization_identity given.materialization_plan given.binding_sets)
        materialization_binding_mismatch
    guard (unique (map (λ (s : BindingSet). s.materialization_id) given.binding_sets))
        materialization_binding_mismatch
    check_each (check_binding_set given) given.binding_sets

  -- the jobs of `execute`
  unfoldable pub admitted_jobs : Inputs → Result CoordinationError (List Job)
  unfolding validate_materialization_plan check_slices check_binding_sets check_authorities jobs_of
  admitted_jobs given = do
    caught (owner_truth given.changeset_hash given.boundary) materialization_plan_hash_mismatch
    validate_materialization_plan given.changeset_hash given.boundary given.materialization_plan
        given.convergence_profile
    check_slices given.changeset_hash given.boundary given.materialization_plan given.execution_plan
    check_binding_sets given
    check_authorities given
    jobs_of given given.execution_plan.execution_slices
