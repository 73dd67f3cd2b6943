-- ===== src/Saga/Tests/Runs.antt =====
-- Runs of a Saga.
use dsp.Prelude.{◌≡◌, refl, ok, err, pos, true}
use dsp.Prelude.Text.{is_digest, strip}
use dsp.Contracts.{unique, saga_conflict}
use dsp.Saga.Definition.{check_definition}
use dsp.Saga.State.{SagaStatus, convergence_pending, check_slice_state, check_stored}
use dsp.Saga.Evidence.{
  validate_actual_delta_integrity, compute_scope_comparison_hash,
  compute_semantic_verification_hash, compute_task_result_hash,
}
use dsp.Saga.Requests.{perform, serve, reserve}
use dsp.Saga.Transitions.Checks.{
  definition_integrity, state_index, state_at, require_cas, require_no_other_active,
  require_next_eligible, assignment_task_ids,
}
use dsp.Saga.Transitions.Rebuild.{with_state, rebuild}
use dsp.Saga.Transitions.Admission.{
  initial_saga, reserve_slice_admission, confirm_slice_admitted, record_host_commit,
  authority_joins, delta_joins,
}
use dsp.Saga.Transitions.Verification.{
  begin_reconciliation, record_scope_result, record_verification_result,
}
use dsp.Saga.Transitions.Closing.{record_convergence_outcome}
use dsp.Saga.Tests.{
  before_convergence, zeros, flat_hash, definition, initial, with_reservation, ones, twos,
  whole_life,
}

pub initial_run : initial_saga flat_hash definition ≡ ok initial
unfolding initial_saga definition_integrity check_slice_state check_stored
initial_run = refl

pub reserve_run : perform flat_hash initial (reserve ones (pos 0) "09:00") ≡ ok with_reservation
unfolding perform reserve_slice_admission state_index state_at require_cas require_no_other_active
    require_next_eligible check_slice_state with_state check_stored
reserve_run = refl

-- the second Slice waits for the first one
waits : perform flat_hash initial (reserve twos (pos 0) "09:00") ≡ err saga_conflict
unfolding perform reserve_slice_admission state_index state_at require_cas require_no_other_active
    require_next_eligible
waits = refl

pub life_run : (serve flat_hash initial whole_life).status ≡ SagaStatus.succeeded
unfolding serve perform reserve_slice_admission confirm_slice_admitted record_host_commit
    begin_reconciliation record_scope_result record_verification_result record_convergence_outcome
    is_digest validate_actual_delta_integrity compute_scope_comparison_hash
    compute_semantic_verification_hash compute_task_result_hash authority_joins delta_joins
    assignment_task_ids state_index state_at require_cas require_no_other_active
    require_next_eligible check_slice_state with_state rebuild check_stored
life_run = refl

-- a repeated reservation returns the Saga as it is
pub reserve_again :
    perform flat_hash with_reservation (reserve ones (pos 0) "09:00") ≡ ok with_reservation
unfolding perform reserve_slice_admission state_index state_at
reserve_again = refl

pub distinct : unique definition.ordered_slice_hashes ≡ true
unfolding unique
distinct = refl

pub definition_run : check_definition definition ≡ ok definition
unfolding check_definition
definition_run = refl

pub pending_run :
    let v = serve flat_hash initial before_convergence in
    (v.status ≡ convergence_pending) × (v.saga_revision ≡ 12)
unfolding serve perform reserve_slice_admission confirm_slice_admitted record_host_commit
    begin_reconciliation record_scope_result record_verification_result record_convergence_outcome
    is_digest validate_actual_delta_integrity compute_scope_comparison_hash
    compute_semantic_verification_hash compute_task_result_hash authority_joins delta_joins
    assignment_task_ids state_index state_at require_cas require_no_other_active
    require_next_eligible check_slice_state with_state rebuild check_stored
pending_run = (refl, refl)

pub pending_made : let v = serve flat_hash initial before_convergence in check_stored v ≡ ok v
unfolding serve perform reserve_slice_admission confirm_slice_admitted record_host_commit
    begin_reconciliation record_scope_result record_verification_result record_convergence_outcome
    is_digest validate_actual_delta_integrity compute_scope_comparison_hash
    compute_semantic_verification_hash compute_task_result_hash authority_joins delta_joins
    assignment_task_ids state_index state_at require_cas require_no_other_active
    require_next_eligible check_slice_state with_state rebuild check_stored
pending_made = refl

pub zeros-is_digest : is_digest zeros ≡ true
unfolding is_digest
zeros-is_digest = refl

pub zeros-strip : strip zeros ≡ zeros
unfolding strip
zeros-strip = refl
