-- ===== src/Saga/Progress.antt =====
-- A Saga whose Slices have all succeeded can be closed.
use dsp.Prelude.{
  ℕ, ◌+◌, String, ◌≡◌, refl, ap, some, ok, arith, true, false, pos, ◌==◌, guard_then, all, nat_eq,
  length,
}
use dsp.Prelude.Json.{Json}
use dsp.Prelude.Text.{strip, is_digest}
use dsp.Contracts.{text, digest, optional_digest}
use dsp.Saga.State.{
  StoredSaga, convergence_pending, ConvergenceOutcome, check_stored, follows, indexed_from,
  binds_plan,
}
use dsp.Saga.Invariant.{IsSound}
use dsp.Saga.Coherence.{Unresolved}
use dsp.Saga.Moves.{closed_by}
use dsp.Saga.Requests.{perform, converge}
use dsp.Saga.Transitions.Checks.{require_cas, require_revision}
use dsp.Saga.Transitions.Rebuild.{rebuild}
use dsp.Saga.Transitions.Verification.{slice_succeeded}
use dsp.Saga.Transitions.Closing.{
  record_convergence_outcome, convergence_fresh, is_convergence_pending, final_status,
}

digest_ok : (h : String) → is_digest h ≡ true → strip h ≡ h → (h == "") ≡ false → digest h ≡ ok h
unfolding digest text
digest_ok h d s n = rw s (rw n (rw d refl))

optional_digest_ok :
    (h : String)
    → is_digest h ≡ true
    → strip h ≡ h
    → (h == "") ≡ false
    → optional_digest (some h) ≡ ok (some h)
unfolding optional_digest
optional_digest_ok h d s n = rw (digest_ok h d s n) refl

-- the guards that a stored Saga has passed
stored_guards :
    (u : StoredSaga)
    → check_stored u ≡ ok u
    → (nat_eq (length u.slice_states) (length u.definition.ordered_slice_hashes) ≡ true)
      × (indexed_from 0 u.slice_states ≡ true)
      × (follows u.slice_states u.definition.ordered_slice_hashes ≡ true)
      × (all (binds_plan u.definition.materialization_plan_hash) u.slice_states ≡ true)
unfolding check_stored
stored_guards u e =
    let (a, e₁) =
      guard_then (nat_eq (length u.slice_states) (length u.definition.ordered_slice_hashes)) _ _
        e in
    let (b, e₂) = guard_then (indexed_from 0 u.slice_states) _ _ e₁ in
    let (c, e₃) = guard_then (follows u.slice_states u.definition.ordered_slice_hashes) _ _ e₂ in
    let (d, _) =
      guard_then (all (binds_plan u.definition.materialization_plan_hash) u.slice_states) _ _ e₃ in
    (a, b, c, d)

closed_ok :
    (u : StoredSaga) (outcome : ConvergenceOutcome) (h : String)
    → check_stored u ≡ ok u
    → optional_digest (some h) ≡ ok (some h)
    → strip h ≡ h
    → check_stored (record u {
      saga_revision = u.saga_revision + 1;
      status = final_status outcome;
      convergence_outcome = some outcome;
      convergence_result_hash = some h;
    })
      ≡ ok (closed_by u outcome h)
unfolding check_stored
closed_ok u outcome h e d s = let (a, b, c, k) = stored_guards u e in rw (a, b, c, k, d, s) refl

pending :
    (u : StoredSaga)
    → IsSound u
    → u.status ≡ convergence_pending
    → (all slice_succeeded u.slice_states ≡ true) × Unresolved u
pending u w e = rw e at w.coherent

current : (n : ℕ) → nat_eq n n ≡ true
current n = ground arith

fresh :
    (u : StoredSaga) (outcome : ConvergenceOutcome) (h : String)
    → all slice_succeeded u.slice_states ≡ true
    → u.status ≡ convergence_pending
    → check_stored (record u {
      saga_revision = u.saga_revision + 1;
      status = final_status outcome;
      convergence_outcome = some outcome;
      convergence_result_hash = some h;
    })
      ≡ ok (closed_by u outcome h)
    → convergence_fresh u outcome h (pos u.saga_revision) ≡ ok (closed_by u outcome h)
unfolding convergence_fresh require_cas require_revision rebuild
fresh u outcome h done e run = rw (current u.saga_revision, ap is_convergence_pending e, done) run

-- A sound Saga that is pending convergence, as its constructor made
-- it, accepts an outcome with a stripped digest at its current revision, and is closed by it.
pub converge-accepted :
    (canonical_hash : Json → String) (u : StoredSaga) (outcome : ConvergenceOutcome) (h : String)
    → IsSound u
    → check_stored u ≡ ok u
    → u.status ≡ convergence_pending
    → is_digest h ≡ true
    → strip h ≡ h
    → (h == "") ≡ false
    → perform canonical_hash u (converge outcome h (pos u.saga_revision))
      ≡ ok (closed_by u outcome h)
unfolding perform record_convergence_outcome
converge-accepted canonical_hash u outcome h w made e d s n =
    let (done, (open_outcome, open_hash)) = pending u w e in
    let run = closed_ok u outcome h made (optional_digest_ok h d s n) s in
    rw (d, open_hash) (fresh u outcome h done e run)
