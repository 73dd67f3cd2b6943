-- ===== src/Saga/Refinement.antt =====
-- Each transition of saga_transitions_v2.py, where it returns a Saga, returns the same Saga (a
-- replay) or makes one `Move` at the expected revision.
use dsp.Prelude.{
  String, ◌≡◌, refl, ok, ◌⊎◌, inl, inr, arith, ℤ, Option-cases, Bool-cases, true, >>=-eq-ok,
  guard_then, ◌==◌, all,
}
use dsp.Prelude.Json.{Json}
use dsp.Prelude.Text.{is_digest}
use dsp.Saga.State.{StoredSaga, SliceState, ConvergenceOutcome}
use dsp.Saga.Evidence.{
  Authority, ActualDelta, ScopeResult, VerificationResult, validate_actual_delta_integrity,
  compute_scope_comparison_hash, compute_semantic_verification_hash,
}
use dsp.Saga.Locate.{find_slice}
use dsp.Saga.Moves.{Move, Advance, Break, IsCandidate}
use dsp.Saga.Requests.{
  Request, reserve, confirm, commit, begin, scope, verify, fail, converge, expected_revision,
  perform,
}
use dsp.Saga.Fresh.{
  reserve_fresh-eq-ok, confirm_fresh-eq-ok, commit_fresh-eq-ok, begin_fresh-eq-ok,
  scope_fresh-eq-ok, verification_fresh-eq-ok, fail_fresh-eq-ok, convergence_fresh-eq-ok,
}
use dsp.Saga.Transitions.Checks.{
  is_not_started, is_reconciling, is_failed_before_commit, require_cas, require_no_other_active,
  require_next_eligible,
}
use dsp.Saga.Transitions.Admission.{
  accepts_reservation, reserve_slice_admission, confirm_slice_admitted, record_host_commit,
}
use dsp.Saga.Transitions.Verification.{
  begin_reconciliation, record_scope_result, record_verification_result, valid_task,
}
use dsp.Saga.Transitions.Closing.{fail_slice_before_commit, record_convergence_outcome}

-- a replay, or a move at the expected revision
abbrev pub Effect : StoredSaga → ℤ → StoredSaga → Type 0
Effect u rev v = (v ≡ u) ⊎ ((require_cas u rev ≡ ok tt) × Move u v)

candidate :
    (u : StoredSaga) (s : SliceState)
    → is_not_started s.status ≡ true
    → accepts_reservation u.status ≡ true
    → require_no_other_active u s.execution_slice_hash ≡ ok tt
    → require_next_eligible u s.execution_slice_hash ≡ ok tt
    → IsCandidate u s
unfolding require_no_other_active
candidate u s new accepts alone next = record {
  fresh = ground arith;
  opened = ground arith;
  alone = ground arith;
  chosen = next;
}

module _ (u : StoredSaga) (rev : ℤ) {v : StoredSaga} where
  reserve-Effect : (h at : String) → reserve_slice_admission u h rev at ≡ ok v → Effect u rev v
  unfolding reserve_slice_admission
  reserve-Effect h at e =
      let f = find_slice u.slice_states h _ e in
      elim (Option-cases f.slice.reserved_at) [
        | inl fresh ↦
            let (cas, accepts, alone, next, new, out) =
              reserve_fresh-eq-ok u f.pre f.post f.slice f.split rev h at (rw fresh at f.run) in
            inr (
              cas,
              Move.reserve f.pre f.post f.slice at f.split
                  (candidate u f.slice new accepts (rw f.named alone) (rw f.named next)) out,
            )
        | inr (t, replay) ↦ ground arith
      ]

  confirm-Effect : (a : Authority) → confirm_slice_admitted u a rev ≡ ok v → Effect u rev v
  unfolding confirm_slice_admitted
  confirm-Effect a e =
      let f = find_slice u.slice_states a.execution_slice_hash _ e in
      elim (Option-cases f.slice.grant_hash) [
        | inl fresh ↦
            let (cas, status, joins, out) =
              confirm_fresh-eq-ok u f.pre f.post f.slice f.split rev a (rw fresh at f.run) in
            inr (
              cas,
              Move.advance f.pre f.post f.slice _ f.split (Advance.admit a (ground arith) refl) out,
            )
        | inr (t, replay) ↦ ground arith
      ]

  begin-Effect : (h : String) → begin_reconciliation u h rev ≡ ok v → Effect u rev v
  unfolding begin_reconciliation
  begin-Effect h e =
      let f = find_slice u.slice_states h _ e in
      elim (Bool-cases (is_reconciling f.slice.status)) [
        | inl replay ↦ ground arith
        | inr fresh ↦
            let (cas, status, out) =
              begin_fresh-eq-ok u f.pre f.post f.slice f.split rev (rw fresh at f.run) in
            inr (
              cas,
              Move.advance f.pre f.post f.slice _ f.split (Advance.begin (ground arith) refl) out,
            )
      ]

  fail-Effect : (h at : String) → fail_slice_before_commit u h rev at ≡ ok v → Effect u rev v
  unfolding fail_slice_before_commit
  fail-Effect h at e =
      let f = find_slice u.slice_states h _ e in
      elim (Bool-cases (is_failed_before_commit f.slice.status)) [
        | inl replay ↦ ground arith
        | inr fresh ↦
            let (cas, status, clean, out) =
              fail_fresh-eq-ok u f.pre f.post f.slice f.split rev at (rw fresh at f.run) in
            inr (
              cas,
              Move.break f.pre f.post f.slice _ f.split
                  (Break.abandon at (ground arith) (ground arith) refl) out,
            )
      ]

  converge-Effect :
      (outcome : ConvergenceOutcome) (result_hash : String)
      → record_convergence_outcome u outcome result_hash rev ≡ ok v
      → Effect u rev v
  unfolding record_convergence_outcome
  converge-Effect outcome result_hash e =
      let (_, e₁) = guard_then (is_digest result_hash) _ _ e in
      elim (Option-cases u.convergence_result_hash) [
        | inl fresh ↦
            let (cas, pending, all_done, out) =
              convergence_fresh-eq-ok u outcome result_hash rev (rw fresh at e₁) in
            inr (cas, Move.converge outcome result_hash (ground arith) fresh all_done out)
        | inr (t, replay) ↦ ground arith
      ]

  module _ (canonical_hash : Json → String) where
    commit-Effect :
        (d : ActualDelta) (at : String)
        → record_host_commit canonical_hash u d rev at ≡ ok v
        → Effect u rev v
    unfolding record_host_commit
    commit-Effect d at e =
        let (_, _, e₁) = >>=-eq-ok (validate_actual_delta_integrity canonical_hash d) _ e in
        let f = find_slice u.slice_states d.execution_slice_hash _ e₁ in
        elim (Option-cases f.slice.actual_delta_hash) [
          | inl fresh ↦
              let (cas, status, joins, out) =
                commit_fresh-eq-ok u f.pre f.post f.slice f.split rev d at (rw fresh at f.run) in
              inr (
                cas,
                Move.advance f.pre f.post f.slice _ f.split
                    (Advance.commit d at (ground arith) refl) out,
              )
          | inr (t, replay) ↦ ground arith
        ]

    scope-Effect :
        (r : ScopeResult) → record_scope_result canonical_hash u r rev ≡ ok v → Effect u rev v
    unfolding record_scope_result
    scope-Effect r e =
        let (_, e₁) =
          guard_then (r.comparison_hash == compute_scope_comparison_hash canonical_hash r) _ _ e in
        let f = find_slice u.slice_states r.execution_slice_hash _ e₁ in
        elim (Option-cases f.slice.scope_comparison_hash) [
          | inl fresh ↦
              let (cas, status, outs) =
                scope_fresh-eq-ok u f.pre f.post f.slice f.split rev r (rw fresh at f.run) in
              elim outs [
                | inl (within, out) ↦ inr (
                  cas,
                  Move.advance f.pre f.post f.slice _ f.split
                      (Advance.compare r (ground arith) fresh within refl) out,
                )
                | inr (breach, out) ↦ inr (
                  cas,
                  Move.break f.pre f.post f.slice _ f.split
                      (Break.breach r (ground arith) fresh (λ w. ground arith) refl) out,
                )
              ]
          | inr (t, replay) ↦ ground arith
        ]

    verify-Effect :
        (r : VerificationResult) (at : String)
        → record_verification_result canonical_hash u r rev at ≡ ok v
        → Effect u rev v
    unfolding record_verification_result
    verify-Effect r at e =
        let (_, e₁) =
          guard_then (r.verification_hash == compute_semantic_verification_hash canonical_hash r) _
            _ e in
        let (_, e₂) = guard_then (all (valid_task canonical_hash) r.task_results) _ _ e₁ in
        let f = find_slice u.slice_states r.execution_slice_hash _ e₂ in
        elim (Option-cases f.slice.verification_hash) [
          | inl fresh ↦
              let (cas, status, compared, outs) =
                verification_fresh-eq-ok u f.pre f.post f.slice f.split rev r at
                  (rw fresh at f.run) in
              elim outs [
                | inl (pass, _, out) ↦ inr (
                  cas,
                  Move.pass f.pre f.post f.slice r at f.split (ground arith) (λ w. ground arith)
                      out,
                )
                | inr (reject, out) ↦ inr (
                  cas,
                  Move.break f.pre f.post f.slice _ f.split
                      (Break.reject r at (ground arith) (λ w. ground arith) (λ w. ground arith)
                        refl)
                      out,
                )
              ]
          | inr (t, replay) ↦ ground arith
        ]

-- Every request that a Saga accepts either is a replay, which returns the very same Saga, or is one
-- step of the life of a Saga, taken at the revision that the caller expected.
pub perform_refines_Move :
    (canonical_hash : Json → String) (u : StoredSaga) (r : Request) {v : StoredSaga}
    → perform canonical_hash u r ≡ ok v
    → (v ≡ u) ⊎ ((require_cas u (expected_revision r) ≡ ok tt) × Move u v)
unfolding perform
perform_refines_Move canonical_hash u (reserve h n at) e = reserve-Effect u n h at e
perform_refines_Move canonical_hash u (confirm a n) e = confirm-Effect u n a e
perform_refines_Move canonical_hash u (commit d n at) e = commit-Effect u n canonical_hash d at e
perform_refines_Move canonical_hash u (begin h n) e = begin-Effect u n h e
perform_refines_Move canonical_hash u (scope r n) e = scope-Effect u n canonical_hash r e
perform_refines_Move canonical_hash u (verify r n at) e = verify-Effect u n canonical_hash r at e
perform_refines_Move canonical_hash u (fail h n at) e = fail-Effect u n h at e
perform_refines_Move canonical_hash u (converge o c n) e = converge-Effect u n o c e
