-- ===== src/Saga/Tests/Witnesses.antt =====
-- The theorems about a Saga at concrete inputs.
use dsp.Prelude.{
  ◌≤◌, ◌+◌, ◌≡◌, ◌≢◌, refl, ap, ok, pos, some, [], ◌∷◌, inl, ◌⊎◌, arith, All, length, tally,
}
use dsp.Saga.State.{StoredSaga, converged}
use dsp.Saga.Requests.{serve, reserve}
use dsp.Saga.Distinct.{is_busy}
use dsp.Saga.Lifecycle.{Present}
use dsp.Saga.Invariant.{IsSound, Move-IsSound, serve-IsSound}
use dsp.Saga.Invariant.Initial.{initial_saga-IsSound}
use dsp.Saga.Moves.{Move}
use dsp.Saga.Persistence.{AllPreserve, serve-AllPreserve}
use dsp.Saga.Refinement.{perform_refines_Move}
use dsp.Saga.Revision.{perform-revision, perform-stale, serve-revision}
use dsp.Saga.Terminal.{serve-final, succeeded-Complete, Complete, serve-exclusive}
use dsp.Saga.Transitions.Checks.{require_cas, require_next_eligible}
use dsp.Saga.Tests.{
  flat_hash, definition, initial, with_reservation, first_state, second_state, ones, whole_life,
}
use dsp.Prelude.Text.{strip}
use dsp.Saga.Progress.{converge-accepted}
use dsp.Saga.Moves.{closed_by}
use dsp.Saga.Requests.{converge, perform}
use dsp.Saga.Tests.{before_convergence, zeros}
use dsp.Saga.Tests.Runs.{
  pending_made, pending_run, zeros-is_digest, zeros-strip, distinct, initial_run, reserve_run,
  reserve_again, life_run,
}

moved : with_reservation ≢ initial
moved e = let r = ap (λ (u : StoredSaga). u.saga_revision) e in omega arith

first-Move : Move initial with_reservation
unfolding require_next_eligible strip
first-Move =
    Move.reserve [] (second_state ∷ []) first_state "09:00" refl
      (record { fresh = refl; opened = inl refl; alone = refl; chosen = refl }) refl

perform_refines_Move_example :
    (with_reservation ≡ initial)
    ⊎ ((require_cas initial (pos 0) ≡ ok tt) × Move initial with_reservation)
perform_refines_Move_example =
    perform_refines_Move flat_hash initial (reserve ones (pos 0) "09:00") reserve_run

initial_saga-IsSound_example : IsSound initial
initial_saga-IsSound_example = initial_saga-IsSound flat_hash definition distinct initial_run

initial-IsSound : IsSound initial
initial-IsSound = initial_saga-IsSound flat_hash definition distinct initial_run

serve-IsSound_example : IsSound (serve flat_hash initial whole_life)
serve-IsSound_example = serve-IsSound flat_hash initial whole_life initial-IsSound

life-IsSound : IsSound (serve flat_hash initial whole_life)
life-IsSound = serve-IsSound flat_hash initial whole_life initial-IsSound

serve-AllPreserve_example :
    AllPreserve with_reservation.slice_states
      (serve flat_hash with_reservation whole_life).slice_states
serve-AllPreserve_example =
    serve-AllPreserve flat_hash with_reservation whole_life
      (Move-IsSound first-Move initial-IsSound)

perform-revision_example :
    (with_reservation ≡ initial)
    ⊎ ((◌≡◌ (pos 0) (pos 0))
        × (with_reservation.saga_revision ≡ 0 + 1)
        × (with_reservation.definition ≡ definition))
perform-revision_example =
    perform-revision flat_hash initial (reserve ones (pos 0) "09:00") reserve_run

perform-stale_example : with_reservation ≡ with_reservation
perform-stale_example =
    perform-stale flat_hash initial (reserve ones (pos 0) "09:00") (reserve ones (pos 0) "09:00")
      reserve_run moved refl reserve_again

serve-revision_example :
    let v = serve flat_hash initial whole_life in
    (0 ≤ v.saga_revision) × (v.saga_revision ≤ 0 + length whole_life) × (v.definition ≡ definition)
serve-revision_example = serve-revision flat_hash initial whole_life

serve-final_example :
    serve flat_hash (serve flat_hash initial whole_life) whole_life
    ≡ serve flat_hash initial whole_life
serve-final_example =
    serve-final flat_hash (serve flat_hash initial whole_life) whole_life life-IsSound
      (rw life_run refl)

succeeded-Complete_example :
    let v = serve flat_hash initial whole_life in
    All Complete v.slice_states
    × (v.convergence_outcome ≡ some converged)
    × Present v.convergence_result_hash
succeeded-Complete_example =
    succeeded-Complete flat_hash definition whole_life distinct initial_run life_run

serve-exclusive_example : tally is_busy (serve flat_hash initial whole_life).slice_states ≤ 1
serve-exclusive_example = serve-exclusive flat_hash definition whole_life distinct initial_run

converge-accepted_example :
    let u = serve flat_hash initial before_convergence in
    perform flat_hash u (converge converged zeros (pos u.saga_revision))
    ≡ ok (closed_by u converged zeros)
converge-accepted_example =
    converge-accepted flat_hash (serve flat_hash initial before_convergence) converged zeros
      (serve-IsSound flat_hash initial before_convergence initial-IsSound) pending_made
      pending_run.0 zeros-is_digest zeros-strip refl
