-- ===== src/Saga/Tests.antt =====
-- Test data for the Saga: two Slices, of which the second depends on the first.
pub mod Runs
pub mod Witnesses
pub mod Stores
pub mod Replays
pub mod Orders
use dsp.Prelude.{String, Option, none, some, List, [], ◌∷◌, ◌++◌, ℤ, pos}
use dsp.Prelude.Json.{Json}
use dsp.Saga.Definition.{Definition}
use dsp.Saga.State.{SagaStatus, StoredSaga, SliceState, SliceStatus, converged}
use dsp.Saga.Evidence.{
  Authority, ActualDelta, ScopeResult, within_scope, TaskResult, passed, VerificationResult,
}
use dsp.Saga.Requests.{Request, reserve, confirm, commit, begin, scope, verify, fail, converge}

-- digests
abbrev pub zeros : String
zeros = "0000000000000000000000000000000000000000000000000000000000000000"

abbrev pub ones : String
ones = "1111111111111111111111111111111111111111111111111111111111111111"

abbrev pub twos : String
twos = "2222222222222222222222222222222222222222222222222222222222222222"

-- a hash function under which every content has one digest
abbrev pub flat_hash : Json → String
flat_hash _ = zeros

abbrev pub definition : Definition
definition = record {
  saga_id = "SGV2-000000000000";
  changeset_hash = zeros;
  approved_scope_hash = zeros;
  semantic_environment_ref = record { environment_id = "env"; content_hash = zeros };
  materialization_plan_hash = zeros;
  required_set_hash = zeros;
  execution_plan_hash = zeros;
  ordered_slice_hashes = ones ∷ twos ∷ [];
  slice_dependencies =
      record {
        predecessor_slice_hash = ones;
        successor_slice_hash = twos;
        reason_refs = "wall before door" ∷ [];
      }
      ∷ [];
  slice_validation_assignments =
      record { execution_slice_hash = ones; validation_task_ids = "task" ∷ [] }
      ∷ record { execution_slice_hash = twos; validation_task_ids = "task" ∷ [] }
      ∷ [];
  saga_definition_hash = zeros;
}

abbrev pub first_state : SliceState
first_state = record {
  execution_slice_hash = ones;
  sequence_index = 0;
  materialization_plan_hash = zeros;
  status = SliceStatus.not_started;
  materialization_id = none;
  approval_hash = none;
  grant_hash = none;
  binding_set_hash = none;
  admitted_host_instance_id = none;
  actual_delta_hash = none;
  scope_comparison_hash = none;
  verification_hash = none;
  reserved_at = none;
  admitted_at = none;
  committed_at = none;
  reconciled_at = none;
  failed_at = none;
}

abbrev pub second_state : SliceState
second_state = record first_state { execution_slice_hash = twos; sequence_index = 1 }

abbrev pub initial : StoredSaga
initial = record {
  definition = definition;
  saga_revision = 0;
  status = SagaStatus.ready;
  slice_states = first_state ∷ second_state ∷ [];
  convergence_outcome = none;
  convergence_result_hash = none;
}

-- the Saga after the reservation of its first Slice
abbrev pub with_reservation : StoredSaga
with_reservation = record initial {
  saga_revision = 1;
  status = SagaStatus.executing;
  slice_states =
      record first_state { status = SliceStatus.admission_reserved; reserved_at = some "09:00" }
      ∷ second_state
      ∷ [];
}

abbrev pub authority : String → Authority
authority slice = record {
  approval_hash = zeros;
  grant_hash = zeros;
  changeset_hash = zeros;
  approved_scope_hash = zeros;
  materialization_plan_hash = zeros;
  materialization_id = "m";
  execution_slice_hash = slice;
  binding_set_hash = zeros;
  host_instance_id = "host";
  admitted_at = "09:01";
}

abbrev pub delta : String → ActualDelta
delta slice = record {
  actual_delta_id = "AD-000000000000";
  grant_hash = zeros;
  binding_set_hash = zeros;
  execution_slice_hash = slice;
  changeset_hash = zeros;
  approved_scope_hash = zeros;
  host_instance_id = "host";
  document_ref = "doc";
  revision_before = 1;
  revision_after = 2;
  changes = [];
  actual_delta_hash = zeros;
}

abbrev pub scope_result : String → ScopeResult
scope_result slice = record {
  status = within_scope;
  actual_delta_hash = zeros;
  approved_scope_hash = zeros;
  execution_slice_hash = slice;
  matched_changes = [];
  violations = [];
  comparison_hash = zeros;
}

abbrev pub verification_result : String → VerificationResult
verification_result slice = record {
  verification_id = "V";
  changeset_hash = zeros;
  execution_slice_hash = slice;
  actual_delta_hash = zeros;
  evidence_bundle_hash = zeros;
  task_results =
      record {
        validation_task_id = "task";
        status = passed;
        observations = [];
        failure_codes = [];
        task_result_hash = zeros;
      }
      ∷ [];
  status = passed;
  verification_hash = zeros;
}

-- the whole life of the Saga, every request at the revision it has then
abbrev pub before_convergence : List Request
before_convergence =
    reserve ones (pos 0) "09:00"
    ∷ confirm (authority ones) (pos 1)
    ∷ commit (delta ones) (pos 2) "09:02"
    ∷ begin ones (pos 3)
    ∷ scope (scope_result ones) (pos 4)
    ∷ verify (verification_result ones) (pos 5) "09:03"
    ∷ reserve twos (pos 6) "09:04"
    ∷ confirm (authority twos) (pos 7)
    ∷ commit (delta twos) (pos 8) "09:06"
    ∷ begin twos (pos 9)
    ∷ scope (scope_result twos) (pos 10)
    ∷ verify (verification_result twos) (pos 11) "09:07"
    ∷ []

abbrev pub whole_life : List Request
whole_life = before_convergence ++ (converge converged zeros (pos 12) ∷ [])
