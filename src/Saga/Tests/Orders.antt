-- ===== src/Saga/Tests/Orders.antt =====
-- Failures before a commit, with a dependency that points forward and with one that points back.
use dsp.Prelude.{◌≡◌, refl, ok, List, [], ◌∷◌, pos, true, false, any}
use dsp.Prelude.Text.{is_digest}
use dsp.Saga.Definition.{Definition}
use dsp.Saga.State.{StoredSaga, SagaStatus, check_slice_state, check_stored}
use dsp.Saga.Evidence.{
  validate_actual_delta_integrity, compute_scope_comparison_hash,
  compute_semantic_verification_hash, compute_task_result_hash,
}
use dsp.Saga.Requests.{
  Request, reserve, confirm, commit, begin, scope, verify, fail, perform, serve,
}
use dsp.Saga.Order.{is_forward}
use dsp.Saga.Order.Failure.{serve-failed}
use dsp.Saga.Transitions.Checks.{
  definition_integrity, state_index, state_at, require_cas, require_no_other_active,
  require_next_eligible, assignment_task_ids, predecessors,
}
use dsp.Saga.Transitions.Rebuild.{with_state, rebuild, blocked_after}
use dsp.Saga.Transitions.Admission.{
  initial_saga, reserve_slice_admission, confirm_slice_admitted, record_host_commit,
  authority_joins, delta_joins,
}
use dsp.Saga.Transitions.Verification.{
  begin_reconciliation, record_scope_result, record_verification_result,
}
use dsp.Saga.Transitions.Closing.{fail_slice_before_commit, has_delta}
use dsp.Saga.Tests.{
  flat_hash, definition, initial, ones, twos, authority, delta, scope_result, verification_result,
}
use dsp.Saga.Tests.Runs.{initial_run, distinct}

abbrev pub early_failure : List Request
early_failure = reserve ones (pos 0) "09:00" ∷ fail ones (pos 1) "09:01" ∷ []

forward : is_forward definition ≡ true
unfolding is_forward predecessors
forward = refl

early_run : (serve flat_hash initial early_failure).status ≡ SagaStatus.failed
unfolding serve perform reserve_slice_admission fail_slice_before_commit state_index state_at
    require_cas require_no_other_active require_next_eligible check_slice_state with_state rebuild
    blocked_after check_stored
early_run = refl

serve-failed_example : any has_delta (serve flat_hash initial early_failure).slice_states ≡ false
serve-failed_example =
    serve-failed flat_hash definition early_failure distinct forward initial_run early_run

-- the first Slice of the definition waits for the second one
abbrev backward : Definition
backward = record definition {
  slice_dependencies =
      record {
        predecessor_slice_hash = twos;
        successor_slice_hash = ones;
        reason_refs = "door before wall" ∷ [];
      }
      ∷ [];
}

abbrev backward_initial : StoredSaga
backward_initial = record initial { definition = backward }

backward_accepted : initial_saga flat_hash backward ≡ ok backward_initial
unfolding initial_saga definition_integrity check_slice_state check_stored
backward_accepted = refl

abbrev late_failure : List Request
late_failure =
    reserve twos (pos 0) "09:00"
    ∷ confirm (authority twos) (pos 1)
    ∷ commit (delta twos) (pos 2) "09:02"
    ∷ begin twos (pos 3)
    ∷ scope (scope_result twos) (pos 4)
    ∷ verify (verification_result twos) (pos 5) "09:03"
    ∷ reserve ones (pos 6) "09:04"
    ∷ fail ones (pos 7) "09:05"
    ∷ []

-- the Saga reads as failed although its second Slice has been committed
late_run :
    let v = serve flat_hash backward_initial late_failure in
    (v.status ≡ SagaStatus.failed) × (any has_delta v.slice_states ≡ true)
unfolding serve perform reserve_slice_admission confirm_slice_admitted record_host_commit
    begin_reconciliation record_scope_result record_verification_result fail_slice_before_commit
    is_digest validate_actual_delta_integrity compute_scope_comparison_hash
    compute_semantic_verification_hash compute_task_result_hash authority_joins delta_joins
    assignment_task_ids state_index state_at require_cas require_no_other_active
    require_next_eligible check_slice_state with_state rebuild blocked_after check_stored
late_run = (refl, refl)
