-- ===== src/Saga/Transitions/Admission.antt =====
-- Creation of a Saga, admission of a Slice and the Host commit.
use dsp.Prelude.{
  ℕ, suc, String, Option, none, some, List, [], ◌∷◌, Result, ok, err, ◌>>=◌, ◌>>◌, guard, ◌==◌,
  if◌then◌else◌, Bool, true, false, ◌&&◌, ℤ,
}
use dsp.Prelude.Json.{Json}
use dsp.Contracts.{Error, saga_conflict, saga_integrity_invalid}
use dsp.Saga.Definition.{Definition, same_definition}
use dsp.Saga.State.{
  SagaStatus, ready, executing, not_started, admission_reserved, admitted, host_committed,
  SliceState, StoredSaga, check_slice_state, check_stored,
}
use dsp.Saga.Evidence.{Authority, ActualDelta, validate_actual_delta_integrity}
use dsp.Saga.Transitions.Checks.{
  is_not_started, is_reserved, is_admitted, recorded_as, state_index, state_at, require_cas,
  require_no_other_active, require_next_eligible, definition_integrity,
}
use dsp.Saga.Transitions.Rebuild.{with_state}

unfoldable pub initial_state : Definition → ℕ → String → SliceState
initial_state d index slice_hash = record {
  execution_slice_hash = slice_hash;
  sequence_index = index;
  materialization_plan_hash = d.materialization_plan_hash;
  status = not_started;
  materialization_id = none;
  approval_hash = none;
  grant_hash = none;
  binding_set_hash = none;
  admitted_host_instance_id = none;
  actual_delta_hash = none;
  scope_comparison_hash = none;
  verification_hash = none;
  reserved_at = none;
  admitted_at = none;
  committed_at = none;
  reconciled_at = none;
  failed_at = none;
}

-- `enumerate(definition.ordered_slice_hashes)`
unfoldable pub initial_states : Definition → ℕ → List String → Result Error (List SliceState)
unfolding initial_state
initial_states d index [] = ok []
initial_states d index (h ∷ hs) = do
  s ← check_slice_state (initial_state d index h)
  ss ← initial_states d (suc index) hs
  ok (s ∷ ss)

unfoldable pub initial_saga : (Json → String) → Definition → Result Error StoredSaga
unfolding initial_states
initial_saga canonical_hash d = do
  definition_integrity canonical_hash d
  states ← initial_states d 0 d.ordered_slice_hashes
  check_stored (record {
    definition = d;
    saga_revision = 0;
    status = ready;
    slice_states = states;
    convergence_outcome = none;
    convergence_result_hash = none;
  })

-- create_initial_saga_v2
unfoldable pub create_initial_saga :
    (Json → String) → Definition → Option StoredSaga → Result Error StoredSaga
unfolding initial_saga same_definition
create_initial_saga canonical_hash d none = initial_saga canonical_hash d
create_initial_saga canonical_hash d (some existing) =
    if same_definition existing.definition d then ok existing else err saga_conflict

abbrev pub accepts_reservation : SagaStatus → Bool
accepts_reservation ready = true
accepts_reservation executing = true
accepts_reservation _ = false

-- reserve_slice_admission_transition, past the replay test
unfoldable pub reserve_fresh :
    StoredSaga → ℕ → SliceState → String → ℤ → String → Result Error StoredSaga
reserve_fresh stored index state h expected_revision reserved_at = do
  require_cas stored expected_revision
  guard (accepts_reservation stored.status) saga_conflict
  require_no_other_active stored h
  require_next_eligible stored h
  guard (is_not_started state.status) saga_conflict
  updated ←
      check_slice_state
        (record state { status = admission_reserved; reserved_at = some reserved_at })
  with_state stored index updated (some executing)

unfoldable pub reserve_slice_admission : StoredSaga → String → ℤ → String → Result Error StoredSaga
unfolding reserve_fresh
reserve_slice_admission stored h expected_revision reserved_at = do
  index ← state_index stored.slice_states h
  state ← state_at stored.slice_states index
  elim state.reserved_at [
    | some t ↦ if t == reserved_at then ok stored else err saga_conflict
    | none ↦ reserve_fresh stored index state h expected_revision reserved_at
  ]

-- _authority_matches_state
unfoldable pub authority_matches_state : Authority → SliceState → Bool
authority_matches_state a s =
    recorded_as s.materialization_id a.materialization_id
    && s.materialization_plan_hash == a.materialization_plan_hash
    && recorded_as s.approval_hash a.approval_hash
    && recorded_as s.grant_hash a.grant_hash
    && recorded_as s.binding_set_hash a.binding_set_hash
    && recorded_as s.admitted_host_instance_id a.host_instance_id
    && recorded_as s.admitted_at a.admitted_at

-- the authority joins the Saga's lineage
unfoldable pub authority_joins : StoredSaga → SliceState → Authority → Bool
authority_joins stored s a =
    a.changeset_hash == stored.definition.changeset_hash
    && a.approved_scope_hash == stored.definition.approved_scope_hash
    && a.materialization_plan_hash == stored.definition.materialization_plan_hash
    && a.materialization_plan_hash == s.materialization_plan_hash

-- confirm_slice_admitted_transition, past the replay test
unfoldable pub confirm_fresh : StoredSaga → ℕ → SliceState → Authority → ℤ → Result Error StoredSaga
confirm_fresh stored index state a expected_revision = do
  require_cas stored expected_revision
  guard (is_reserved state.status) saga_conflict
  guard (authority_joins stored state a) saga_integrity_invalid
  updated ← check_slice_state (record state {
    status = admitted;
    materialization_id = some a.materialization_id;
    approval_hash = some a.approval_hash;
    grant_hash = some a.grant_hash;
    binding_set_hash = some a.binding_set_hash;
    admitted_host_instance_id = some a.host_instance_id;
    admitted_at = some a.admitted_at;
  })
  with_state stored index updated none

unfoldable pub confirm_slice_admitted : StoredSaga → Authority → ℤ → Result Error StoredSaga
unfolding confirm_fresh
confirm_slice_admitted stored a expected_revision = do
  index ← state_index stored.slice_states a.execution_slice_hash
  state ← state_at stored.slice_states index
  elim state.grant_hash [
    | some _ ↦ if authority_matches_state a state then ok stored else err saga_conflict
    | none ↦ confirm_fresh stored index state a expected_revision
  ]

-- the delta joins the admitted authority
unfoldable pub delta_joins : StoredSaga → SliceState → ActualDelta → Bool
delta_joins stored s d =
    recorded_as s.grant_hash d.grant_hash
    && recorded_as s.binding_set_hash d.binding_set_hash
    && d.changeset_hash == stored.definition.changeset_hash
    && d.approved_scope_hash == stored.definition.approved_scope_hash
    && recorded_as s.admitted_host_instance_id d.host_instance_id

-- record_host_commit_transition, past the replay test
unfoldable pub commit_fresh :
    StoredSaga → ℕ → SliceState → ActualDelta → ℤ → String → Result Error StoredSaga
commit_fresh stored index state d expected_revision committed_at = do
  require_cas stored expected_revision
  guard (is_admitted state.status) saga_conflict
  guard (delta_joins stored state d) saga_integrity_invalid
  updated ← check_slice_state (record state {
    status = host_committed;
    actual_delta_hash = some d.actual_delta_hash;
    committed_at = some committed_at;
  })
  with_state stored index updated none

unfoldable pub record_host_commit :
    (Json → String) → StoredSaga → ActualDelta → ℤ → String → Result Error StoredSaga
unfolding commit_fresh
record_host_commit canonical_hash stored d expected_revision committed_at = do
  validate_actual_delta_integrity canonical_hash d
  index ← state_index stored.slice_states d.execution_slice_hash
  state ← state_at stored.slice_states index
  elim state.actual_delta_hash [
    | some h ↦
        if h == d.actual_delta_hash && recorded_as state.committed_at committed_at
        then ok stored
        else err saga_conflict
    | none ↦ commit_fresh stored index state d expected_revision committed_at
  ]
