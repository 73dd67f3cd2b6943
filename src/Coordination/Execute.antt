-- ===== src/Coordination/Execute.antt =====
-- materialized_coordinator.py: what `execute` reads off a stored Saga and a definition.
use dsp.Prelude.{
  String, Option, none, some, List, [], ◌∷◌, Bool, true, false, ◌&&◌, ◌==◌, all, elem, Result, ok,
  err, if◌then◌else◌,
}
use dsp.Saga.Definition.{Definition, SliceValidationAssignment}
use dsp.Saga.State.{SagaStatus, SliceStatus, SliceState, StoredSaga}
use dsp.Scope.Compare.{keep}
use dsp.Coordination.Effects.{CoordinationError, saga_integrity_invalid}
use dsp.Coordination.Contracts.{CoordinationStatus, CoordinationResult, Plan}

-- _TERMINAL_STATUS_MAP
unfoldable pub terminal_status : SagaStatus → Option CoordinationStatus
terminal_status SagaStatus.succeeded = some CoordinationStatus.succeeded
terminal_status SagaStatus.failed = some CoordinationStatus.failed
terminal_status SagaStatus.partially_committed = some CoordinationStatus.partially_committed
terminal_status SagaStatus.diverged = some CoordinationStatus.diverged
terminal_status SagaStatus.ready = none
terminal_status SagaStatus.executing = none
terminal_status SagaStatus.convergence_pending = none

-- _ACTIVE_SLICE_STATUSES
unfoldable pub slice_is_active : SliceState → Bool
slice_is_active s = active s.status
  where
    active : SliceStatus → Bool
    active SliceStatus.admission_reserved = true
    active SliceStatus.admitted = true
    active SliceStatus.host_committed = true
    active SliceStatus.reconciling = true
    active _ = false

-- the hashes of the active Slices
unfoldable pub active_slices : List SliceState → List String
active_slices [] = []
active_slices (s ∷ ss) =
    let rest = active_slices ss in if slice_is_active s then s.execution_slice_hash ∷ rest else rest

-- _result
unfoldable pub result_of :
    StoredSaga
    → CoordinationStatus
    → Option String
    → Option String
    → Option String
    → CoordinationResult
result_of stored status active failure_ref convergence = record {
  saga_id = stored.definition.saga_id;
  saga_revision = stored.saga_revision;
  status = status;
  active_slice_hash = active;
  failure_ref = failure_ref;
  convergence_result_hash = convergence;
}

-- the Saga joins what was supplied
unfoldable pub definition_joins : Plan → Definition → Bool
definition_joins plan d =
    d.changeset_hash == plan.changeset_hash
    && d.approved_scope_hash == plan.boundary.scope_hash
    && d.materialization_plan_hash == plan.materialization_plan_hash
    && d.required_set_hash == plan.required_set_hash
    && d.execution_plan_hash == plan.execution_plan_hash

-- _assigned_tasks, of which only the ids are used here
abbrev the_tasks :
    List String → List SliceValidationAssignment → Result CoordinationError (List String)
the_tasks known (assignment ∷ []) =
    if all (λ t. elem t known) assignment.validation_task_ids
    then ok assignment.validation_task_ids
    else err saga_integrity_invalid
the_tasks known _ = err saga_integrity_invalid

unfoldable pub assigned_tasks :
    Definition → List String → String → Result CoordinationError (List String)
unfolding keep
assigned_tasks d known slice_hash = the_tasks known (
    keep (λ (a : SliceValidationAssignment). a.execution_slice_hash == slice_hash)
      d.slice_validation_assignments)

-- how a round of the loop ends: with the result of the whole, or with the Saga to go on with
pub data Step (Evidence : Type 0) : Type 0 where
  returned : CoordinationResult → Step Evidence
  advanced : StoredSaga → Evidence → Step Evidence
