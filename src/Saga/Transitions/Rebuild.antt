-- ===== src/Saga/Transitions/Rebuild.antt =====
-- `_rebuild`, `_with_state` and `_blocked_after`: the next snapshot of a Saga.
use dsp.Prelude.{
  ℕ, zero, suc, ◌+◌, String, Option, none, some, List, [], ◌∷◌, Result, ok, ◌>>=◌, Bool, true,
  false, set, if◌then◌else◌,
}
use dsp.Contracts.{Error}
use dsp.Saga.State.{
  SagaStatus, ConvergenceOutcome, blocked, SliceState, StoredSaga, check_slice_state, check_stored,
}
use dsp.Saga.Transitions.Checks.{is_not_started}

abbrev pub or_else {ℓ} : {A : Type ℓ} → Option A → A → A
or_else none a = a
or_else (some b) a = b

unfoldable pub rebuild :
    StoredSaga
    → Option SagaStatus
    → Option (List SliceState)
    → Option ConvergenceOutcome
    → Option String
    → Bool
    → Result Error StoredSaga
rebuild stored status slice_states outcome result_hash preserve_convergence = check_stored (record {
  definition = stored.definition;
  saga_revision = stored.saga_revision + 1;
  status = or_else status stored.status;
  slice_states = or_else slice_states stored.slice_states;
  convergence_outcome = if preserve_convergence then stored.convergence_outcome else outcome;
  convergence_result_hash =
      if preserve_convergence then stored.convergence_result_hash else result_hash;
})

unfoldable pub with_state :
    StoredSaga → ℕ → SliceState → Option SagaStatus → Result Error StoredSaga
unfolding rebuild
with_state stored index state saga_status =
    rebuild stored saga_status (some (set stored.slice_states index state)) none none true

-- the loop over the states after the failed one, the first `skip` being left alone
unfoldable pub block_from : ℕ → List SliceState → Result Error (List SliceState)
block_from skip [] = ok []
block_from (suc skip) (s ∷ ss) = do rest ← block_from skip ss; ok (s ∷ rest)
block_from zero (s ∷ ss) = do
  here ← elim (is_not_started s.status) [
    | true ↦ check_slice_state (record s { status = blocked })
    | false ↦ ok s
  ]
  rest ← block_from zero ss
  ok (here ∷ rest)

unfoldable pub blocked_after : List SliceState → ℕ → SliceState → Result Error (List SliceState)
unfolding block_from
blocked_after states failed_index failed_state =
    block_from (suc failed_index) (set states failed_index failed_state)
