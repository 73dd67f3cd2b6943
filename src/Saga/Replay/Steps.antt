-- ===== src/Saga/Replay/Steps.antt =====
-- Each transition, sent again to the Saga that it returned.
use dsp.Prelude.{
  String, ◌≡◌, refl, sym, ap, subst, ◌∙◌, map, ok, ◌==◌, eq_refl, inl, inr, arith, Option-cases,
  Bool-cases, ℤ, >>=-eq-ok, guard_then, all,
}
use dsp.Prelude.Json.{Json}
use dsp.Prelude.Text.{strip, is_digest}
use dsp.Saga.State.{StoredSaga, SliceStatus, verify_failed, ConvergenceOutcome}
use dsp.Saga.Evidence.{
  Authority, ActualDelta, ScopeResult, VerificationResult, validate_actual_delta_integrity,
  compute_scope_comparison_hash, compute_semantic_verification_hash,
}
use dsp.Saga.Locate.{find_slice}
use dsp.Saga.Distinct.{name}
use dsp.Saga.Invariant.{IsSound}
use dsp.Saga.Fresh.{
  reserve_fresh-eq-ok, confirm_fresh-eq-ok, commit_fresh-eq-ok, begin_fresh-eq-ok,
  scope_fresh-eq-ok, verification_fresh-eq-ok, fail_fresh-eq-ok, convergence_fresh-eq-ok,
}
use dsp.Saga.Rebuilt.{block}
use dsp.Saga.Moves.{reserved, confirmed, committed, begun, compared, breached, verified, abandoned}
use dsp.Saga.Transitions.Checks.{is_reconciling, is_failed_before_commit}
use dsp.Saga.Transitions.Admission.{
  reserve_slice_admission, confirm_slice_admitted, record_host_commit, authority_matches_state,
  authority_joins,
}
use dsp.Saga.Transitions.Verification.{
  begin_reconciliation, record_scope_result, record_verification_result, valid_task,
}
use dsp.Saga.Transitions.Closing.{fail_slice_before_commit, record_convergence_outcome}
use dsp.Saga.Replay.{
  run_at, slice_IsNormal, CanonicalAuthority, authority_matches-confirmed, same_slice,
  converge_again,
}

module _ (u : StoredSaga) (rev : ℤ) {v : StoredSaga} (w : IsSound u) (w' : IsSound v) where
  pub reserve-replay :
      (h at : String) (rev' : ℤ)
      → strip at ≡ at
      → reserve_slice_admission u h rev at ≡ ok v
      → reserve_slice_admission v h rev' at ≡ ok v
  unfolding reserve_slice_admission
  reserve-replay h at rev' c e =
      let f = find_slice u.slice_states h _ e in
      elim (Option-cases f.slice.reserved_at) [
        | inl fresh ↦
            let (cas, accepts, alone, next, new, out) =
              reserve_fresh-eq-ok u f.pre f.post f.slice f.split rev h at (rw fresh at f.run) in
            let n = slice_IsNormal u f.pre f.post f.slice w f.split in
            run_at v f.pre f.post (reserved f.slice at) h _ w'
              (ap (λ (x : StoredSaga). x.slice_states) out) (ap name n ∙ f.named)
            ∙ rw (c, eq_refl at) refl
        | inr (t, replay) ↦
            let same : v ≡ u = ground arith in
            run_at v f.pre f.post f.slice h _ w' (same_slice u v f.pre f.post f.slice f.split same)
              f.named
            ∙ ground arith
      ]

  pub begin-replay :
      (h : String) (rev' : ℤ)
      → begin_reconciliation u h rev ≡ ok v
      → begin_reconciliation v h rev' ≡ ok v
  unfolding begin_reconciliation
  begin-replay h rev' e =
      let f = find_slice u.slice_states h _ e in
      elim (Bool-cases (is_reconciling f.slice.status)) [
        | inl replay ↦
            let same : v ≡ u = ground arith in
            run_at v f.pre f.post f.slice h _ w' (same_slice u v f.pre f.post f.slice f.split same)
              f.named
            ∙ ground arith
        | inr fresh ↦
            let (cas, status, out) =
              begin_fresh-eq-ok u f.pre f.post f.slice f.split rev (rw fresh at f.run) in
            let n = slice_IsNormal u f.pre f.post f.slice w f.split in
            run_at v f.pre f.post (begun f.slice) h _ w'
              (ap (λ (x : StoredSaga). x.slice_states) out) (ap name n ∙ f.named)
      ]

  pub fail-replay :
      (h at : String) (rev' : ℤ)
      → strip at ≡ at
      → fail_slice_before_commit u h rev at ≡ ok v
      → fail_slice_before_commit v h rev' at ≡ ok v
  unfolding fail_slice_before_commit
  fail-replay h at rev' c e =
      let f = find_slice u.slice_states h _ e in
      elim (Bool-cases (is_failed_before_commit f.slice.status)) [
        | inl replay ↦
            let same : v ≡ u = ground arith in
            run_at v f.pre f.post f.slice h _ w' (same_slice u v f.pre f.post f.slice f.split same)
              f.named
            ∙ ground arith
        | inr fresh ↦
            let (cas, status, clean, out) =
              fail_fresh-eq-ok u f.pre f.post f.slice f.split rev at (rw fresh at f.run) in
            let n = slice_IsNormal u f.pre f.post f.slice w f.split in
            run_at v f.pre (map block f.post) (abandoned f.slice at) h _ w'
              (ap (λ (x : StoredSaga). x.slice_states) out) (ap name n ∙ f.named)
            ∙ rw (c, eq_refl at) refl
      ]

  pub confirm-replay :
      (a : Authority) (rev' : ℤ)
      → CanonicalAuthority a
      → confirm_slice_admitted u a rev ≡ ok v
      → confirm_slice_admitted v a rev' ≡ ok v
  unfolding confirm_slice_admitted authority_matches_state authority_joins
  confirm-replay a rev' c e =
      let f = find_slice u.slice_states a.execution_slice_hash _ e in
      elim (Option-cases f.slice.grant_hash) [
        | inl fresh ↦
            let (cas, status, joins, out) =
              confirm_fresh-eq-ok u f.pre f.post f.slice f.split rev a (rw fresh at f.run) in
            let n = slice_IsNormal u f.pre f.post f.slice w f.split in
            run_at v f.pre f.post (confirmed f.slice a) a.execution_slice_hash _ w'
              (ap (λ (x : StoredSaga). x.slice_states) out) (ap name n ∙ f.named)
            ∙ rw (authority_matches-confirmed u f.slice a c n joins) refl
        | inr (t, replay) ↦
            let same : v ≡ u = ground arith in
            run_at v f.pre f.post f.slice a.execution_slice_hash _ w'
              (same_slice u v f.pre f.post f.slice f.split same) f.named
            ∙ ground arith
      ]

  pub converge-replay :
      (outcome : ConvergenceOutcome) (result_hash : String) (rev' : ℤ)
      → strip result_hash ≡ result_hash
      → record_convergence_outcome u outcome result_hash rev ≡ ok v
      → record_convergence_outcome v outcome result_hash rev' ≡ ok v
  unfolding record_convergence_outcome
  converge-replay outcome result_hash rev' c e =
      let (digest, e₁) = guard_then (is_digest result_hash) _ _ e in
      elim (Option-cases u.convergence_result_hash) [
        | inl fresh ↦
            let (cas, pending, all_done, out) =
              convergence_fresh-eq-ok u outcome result_hash rev (rw fresh at e₁) in
            subst (λ x. record_convergence_outcome x outcome result_hash rev' ≡ ok x) (sym out)
              (converge_again u outcome result_hash rev' digest c)
        | inr (t, replay) ↦ let same : v ≡ u = ground arith in rw same (rw digest (ground arith))
      ]

  module _ (canonical_hash : Json → String) where
    pub commit-replay :
        (d : ActualDelta) (at : String) (rev' : ℤ)
        → strip d.actual_delta_hash ≡ d.actual_delta_hash
        → strip at ≡ at
        → record_host_commit canonical_hash u d rev at ≡ ok v
        → record_host_commit canonical_hash v d rev' at ≡ ok v
    unfolding record_host_commit
    commit-replay d at rev' c c' e =
        let (_, valid, e₁) = >>=-eq-ok (validate_actual_delta_integrity canonical_hash d) _ e in
        let f = find_slice u.slice_states d.execution_slice_hash _ e₁ in
        rw valid (elim (Option-cases f.slice.actual_delta_hash) [
          | inl fresh ↦
              let (cas, status, joins, out) =
                commit_fresh-eq-ok u f.pre f.post f.slice f.split rev d at (rw fresh at f.run) in
              let n = slice_IsNormal u f.pre f.post f.slice w f.split in
              run_at v f.pre f.post (committed f.slice d at) d.execution_slice_hash _ w'
                (ap (λ (x : StoredSaga). x.slice_states) out) (ap name n ∙ f.named)
              ∙ rw (c, c', eq_refl at, eq_refl d.actual_delta_hash) refl
          | inr (t, replay) ↦
              let same : v ≡ u = ground arith in
              run_at v f.pre f.post f.slice d.execution_slice_hash _ w'
                (same_slice u v f.pre f.post f.slice f.split same) f.named
              ∙ ground arith
        ])

    pub scope-replay :
        (r : ScopeResult) (rev' : ℤ)
        → strip r.comparison_hash ≡ r.comparison_hash
        → record_scope_result canonical_hash u r rev ≡ ok v
        → record_scope_result canonical_hash v r rev' ≡ ok v
    unfolding record_scope_result
    scope-replay r rev' c e =
        let (valid, e₁) =
          guard_then (r.comparison_hash == compute_scope_comparison_hash canonical_hash r) _ _ e in
        let f = find_slice u.slice_states r.execution_slice_hash _ e₁ in
        rw valid (elim (Option-cases f.slice.scope_comparison_hash) [
          | inl fresh ↦
              let (cas, status, outs) =
                scope_fresh-eq-ok u f.pre f.post f.slice f.split rev r (rw fresh at f.run) in
              let n = slice_IsNormal u f.pre f.post f.slice w f.split in
              elim outs [
                | inl (within, out) ↦
                    run_at v f.pre f.post (compared f.slice r) r.execution_slice_hash _ w'
                      (ap (λ (x : StoredSaga). x.slice_states) out) (ap name n ∙ f.named)
                    ∙ rw (c, eq_refl r.comparison_hash) refl
                | inr (breach, out) ↦
                    run_at v f.pre (map block f.post) (breached f.slice r) r.execution_slice_hash _
                      w' (ap (λ (x : StoredSaga). x.slice_states) out) (ap name n ∙ f.named)
                    ∙ rw (c, eq_refl r.comparison_hash) refl
              ]
          | inr (t, replay) ↦
              let same : v ≡ u = ground arith in
              run_at v f.pre f.post f.slice r.execution_slice_hash _ w'
                (same_slice u v f.pre f.post f.slice f.split same) f.named
              ∙ ground arith
        ])

    pub verify-replay :
        (r : VerificationResult) (at : String) (rev' : ℤ)
        → strip r.verification_hash ≡ r.verification_hash
        → strip at ≡ at
        → record_verification_result canonical_hash u r rev at ≡ ok v
        → record_verification_result canonical_hash v r rev' at ≡ ok v
    unfolding record_verification_result
    verify-replay r at rev' c c' e =
        let (valid, e₁) =
          guard_then (r.verification_hash == compute_semantic_verification_hash canonical_hash r) _
            _ e in
        let (tasks, e₂) = guard_then (all (valid_task canonical_hash) r.task_results) _ _ e₁ in
        let f = find_slice u.slice_states r.execution_slice_hash _ e₂ in
        rw (valid, tasks)
          (elim (Option-cases f.slice.verification_hash) [
            | inl fresh ↦
                let (cas, status, compared, outs) =
                  verification_fresh-eq-ok u f.pre f.post f.slice f.split rev r at
                    (rw fresh at f.run) in
                let n = slice_IsNormal u f.pre f.post f.slice w f.split in
                elim outs [
                  | inl (pass, _, out) ↦
                      run_at v f.pre f.post (verified SliceStatus.succeeded f.slice r at)
                        r.execution_slice_hash _ w' (ap (λ (x : StoredSaga). x.slice_states) out)
                        (ap name n ∙ f.named)
                      ∙ rw (c, c', eq_refl at, eq_refl r.verification_hash) refl
                  | inr (reject, out) ↦
                      run_at v f.pre (map block f.post) (verified verify_failed f.slice r at)
                        r.execution_slice_hash _ w' (ap (λ (x : StoredSaga). x.slice_states) out)
                        (ap name n ∙ f.named)
                      ∙ rw (c, c', eq_refl at, eq_refl r.verification_hash) refl
                ]
            | inr (t, replay) ↦
                let same : v ≡ u = ground arith in
                run_at v f.pre f.post f.slice r.execution_slice_hash _ w'
                  (same_slice u v f.pre f.post f.slice f.split same) f.named
                ∙ ground arith
          ])
