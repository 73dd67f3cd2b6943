-- ===== src/Saga/Transitions/Closing.antt =====
-- Failure before the Host commit, and the convergence outcome.
use dsp.Prelude.{
  ℕ, String, Option, none, some, List, Result, ok, err, ◌>>=◌, ◌>>◌, guard, not, ◌==◌,
  if◌then◌else◌, Bool, true, false, ◌&&◌, ◌||◌, all, any, take, ℤ, is_none,
}
use dsp.Prelude.Text.{is_digest}
use dsp.Contracts.{Error, saga_conflict, saga_integrity_invalid}
use dsp.Saga.State.{
  SagaStatus, partially_committed, convergence_pending, failed, ConvergenceOutcome, converged,
  failed_before_commit, SliceState, StoredSaga, check_slice_state,
}
use dsp.Saga.Transitions.Checks.{
  is_reserved, is_admitted, is_failed_before_commit, recorded_as, state_index, state_at,
  require_cas,
}
use dsp.Saga.Transitions.Verification.{slice_succeeded}
use dsp.Saga.Transitions.Rebuild.{rebuild, blocked_after}

abbrev pub has_delta : SliceState → Bool
has_delta s = not (is_none s.actual_delta_hash)

-- the status of a Saga whose Slice at `index` failed before its commit
unfoldable pub failure_status : List SliceState → ℕ → SagaStatus
failure_status states index =
    if any has_delta (take index states) then partially_committed else failed

-- fail_slice_before_commit_transition, past the replay test
unfoldable pub fail_fresh : StoredSaga → ℕ → SliceState → ℤ → String → Result Error StoredSaga
unfolding failure_status
fail_fresh stored index state expected_revision failed_at = do
  require_cas stored expected_revision
  guard (is_reserved state.status || is_admitted state.status) saga_conflict
  guard (is_none state.actual_delta_hash) saga_conflict
  failed_state ←
      check_slice_state (record state { status = failed_before_commit; failed_at = some failed_at })
  states ← blocked_after stored.slice_states index failed_state
  rebuild stored (some (failure_status stored.slice_states index)) (some states) none none true

unfoldable pub fail_slice_before_commit : StoredSaga → String → ℤ → String → Result Error StoredSaga
unfolding fail_fresh
fail_slice_before_commit stored h expected_revision failed_at = do
  index ← state_index stored.slice_states h
  state ← state_at stored.slice_states index
  elim (is_failed_before_commit state.status) [
    | true ↦ if recorded_as state.failed_at failed_at then ok stored else err saga_conflict
    | false ↦ fail_fresh stored index state expected_revision failed_at
  ]

-- `stored.convergence_outcome is outcome`
abbrev pub same_outcome : Option ConvergenceOutcome → ConvergenceOutcome → Bool
same_outcome (some converged) converged = true
same_outcome (some ConvergenceOutcome.diverged) ConvergenceOutcome.diverged = true
same_outcome _ _ = false

abbrev pub is_convergence_pending : SagaStatus → Bool
is_convergence_pending convergence_pending = true
is_convergence_pending _ = false

-- the terminal status that an outcome gives a Saga
abbrev pub final_status : ConvergenceOutcome → SagaStatus
final_status converged = SagaStatus.succeeded
final_status ConvergenceOutcome.diverged = SagaStatus.diverged

-- record_convergence_outcome_transition, past the replay test
unfoldable pub convergence_fresh :
    StoredSaga → ConvergenceOutcome → String → ℤ → Result Error StoredSaga
convergence_fresh stored outcome result_hash expected_revision = do
  require_cas stored expected_revision
  guard (is_convergence_pending stored.status) saga_conflict
  guard (all slice_succeeded stored.slice_states) saga_conflict
  rebuild stored (some (final_status outcome)) none (some outcome) (some result_hash) false

unfoldable pub record_convergence_outcome :
    StoredSaga → ConvergenceOutcome → String → ℤ → Result Error StoredSaga
unfolding convergence_fresh
record_convergence_outcome stored outcome result_hash expected_revision = do
  guard (is_digest result_hash) saga_integrity_invalid
  elim stored.convergence_result_hash [
    | some h ↦
        if same_outcome stored.convergence_outcome outcome && h == result_hash
        then ok stored
        else err saga_conflict
    | none ↦ convergence_fresh stored outcome result_hash expected_revision
  ]
