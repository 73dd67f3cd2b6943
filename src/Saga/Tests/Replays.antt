-- ===== src/Saga/Tests/Replays.antt =====
-- Requests sent again.
use dsp.Prelude.{◌≡◌, ◌≢◌, refl, ok, err, pos, arith, eq_iff, ap}
use dsp.Prelude.Text.{strip}
use dsp.Contracts.{saga_conflict}
use dsp.Saga.State.{StoredSaga, check_slice_state, check_stored}
use dsp.Saga.Requests.{perform, reserve}
use dsp.Saga.Invariant.{IsSound}
use dsp.Saga.Invariant.Initial.{initial_saga-IsSound}
use dsp.Saga.Replay.Requests.{perform-replay, reserve-padded}
use dsp.Saga.Transitions.Checks.{
  state_index, state_at, require_cas, require_no_other_active, require_next_eligible,
}
use dsp.Saga.Transitions.Rebuild.{with_state}
use dsp.Saga.Transitions.Admission.{reserve_slice_admission}
use dsp.Saga.Tests.{flat_hash, definition, initial, with_reservation, ones}
use dsp.Saga.Tests.Runs.{initial_run, reserve_run, distinct}

initial-IsSound : IsSound initial
initial-IsSound = initial_saga-IsSound flat_hash definition distinct initial_run

stripped : strip "09:00" ≡ "09:00"
unfolding strip
stripped = refl

perform-replay_example :
    perform flat_hash with_reservation (reserve ones (pos 7) "09:00") ≡ ok with_reservation
perform-replay_example =
    perform-replay flat_hash initial (reserve ones (pos 0) "09:00") (pos 7) initial-IsSound stripped
      reserve_run

padded : strip " 09:00" ≢ " 09:00"
unfolding strip
padded e = ground (arith, eq_iff "09:00" " 09:00")

padded_run : perform flat_hash initial (reserve ones (pos 0) " 09:00") ≡ ok with_reservation
unfolding perform reserve_slice_admission state_index state_at require_cas require_no_other_active
    require_next_eligible check_slice_state with_state check_stored
padded_run = refl

moved : with_reservation ≢ initial
moved e = let r = ap (λ (u : StoredSaga). u.saga_revision) e in omega arith

reserve-padded_example :
    perform flat_hash with_reservation (reserve ones (pos 1) " 09:00") ≡ err saga_conflict
reserve-padded_example =
    reserve-padded flat_hash initial ones " 09:00" (pos 0) (pos 1) initial-IsSound padded padded_run
      moved
