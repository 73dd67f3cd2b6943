-- ===== src/Saga/Fresh.antt =====
-- What a transition has checked when it accepts a request that is no replay, and the snapshot that
-- it returns.
use dsp.Prelude.{
  ◌+◌, String, ◌≡◌, none, some, List, ◌∷◌, ◌++◌, map, ok, true, false, ◌⊎◌, arith, length, ℤ, ◌||◌,
  is_none, all, set-middle, take-middle,
}
use dsp.Saga.State.{
  StoredSaga, SliceState, executing, admission_reserved, admitted, host_committed, SliceStatus,
  reconciling, partially_committed, verify_failed, failed_before_commit, ConvergenceOutcome,
}
use dsp.Saga.Evidence.{
  Authority, ActualDelta, ScopeResult, VerificationResult, within_scope, scope_breach,
}
use dsp.Saga.Normal.{check_slice_state_cases}
use dsp.Saga.Rebuilt.{
  successor, block, with_state_cases, rebuild_cases, blocked_after_cases, check_stored_cases,
}
use dsp.Saga.Moves.{
  reserved, confirmed, committed, begun, compared, breached, verified, abandoned, passed_status,
  broken_status, closed_by,
}
use dsp.Saga.Transitions.Checks.{
  is_not_started, is_reserved, is_admitted, is_host_committed, is_reconciling, require_cas,
  require_no_other_active, require_next_eligible,
}
use dsp.Saga.Transitions.Rebuild.{rebuild}
use dsp.Saga.Transitions.Admission.{
  accepts_reservation, reserve_fresh, authority_joins, confirm_fresh, delta_joins, commit_fresh,
}
use dsp.Saga.Transitions.Verification.{
  begin_fresh, scope_fresh, verification_fresh, is_passed, task_passed, slice_succeeded,
}
use dsp.Saga.Transitions.Closing.{
  fail_fresh, convergence_fresh, is_convergence_pending, final_status,
}

-- the Saga `u` is split at the Slice `s`
module _ (u : StoredSaga) (pre post : List SliceState) (s : SliceState)
    (split : u.slice_states ≡ pre ++ (s ∷ post)) (rev : ℤ) {v : StoredSaga} where
  pub reserve_fresh-eq-ok :
      (h at : String)
      → reserve_fresh u (length pre) s h rev at ≡ ok v
      → (require_cas u rev ≡ ok tt)
        × (accepts_reservation u.status ≡ true)
        × (require_no_other_active u h ≡ ok tt)
        × (require_next_eligible u h ≡ ok tt)
        × (is_not_started s.status ≡ true)
        × (v ≡ successor u executing (pre ++ (reserved s at ∷ post)))
  unfolding reserve_fresh
  reserve_fresh-eq-ok h at e = ground (
    arith,
    check_slice_state_cases (record s { status = admission_reserved; reserved_at = some at }),
    with_state_cases u (length pre) (reserved s at) (some executing),
    set-middle pre s (reserved s at) post,
  )

  pub confirm_fresh-eq-ok :
      (a : Authority)
      → confirm_fresh u (length pre) s a rev ≡ ok v
      → (require_cas u rev ≡ ok tt)
        × (is_reserved s.status ≡ true)
        × (authority_joins u s a ≡ true)
        × (v ≡ successor u u.status (pre ++ (confirmed s a ∷ post)))
  unfolding confirm_fresh
  confirm_fresh-eq-ok a e = ground (
    arith,
    check_slice_state_cases (record s {
      status = admitted;
      materialization_id = some a.materialization_id;
      approval_hash = some a.approval_hash;
      grant_hash = some a.grant_hash;
      binding_set_hash = some a.binding_set_hash;
      admitted_host_instance_id = some a.host_instance_id;
      admitted_at = some a.admitted_at;
    }),
    with_state_cases u (length pre) (confirmed s a) none,
    set-middle pre s (confirmed s a) post,
  )

  pub commit_fresh-eq-ok :
      (d : ActualDelta) (at : String)
      → commit_fresh u (length pre) s d rev at ≡ ok v
      → (require_cas u rev ≡ ok tt)
        × (is_admitted s.status ≡ true)
        × (delta_joins u s d ≡ true)
        × (v ≡ successor u u.status (pre ++ (committed s d at ∷ post)))
  unfolding commit_fresh
  commit_fresh-eq-ok d at e = ground (
    arith,
    check_slice_state_cases (record s {
      status = host_committed;
      actual_delta_hash = some d.actual_delta_hash;
      committed_at = some at;
    }),
    with_state_cases u (length pre) (committed s d at) none,
    set-middle pre s (committed s d at) post,
  )

  pub begin_fresh-eq-ok :
      begin_fresh u (length pre) s rev ≡ ok v
      → (require_cas u rev ≡ ok tt)
        × (is_host_committed s.status ≡ true)
        × (v ≡ successor u u.status (pre ++ (begun s ∷ post)))
  unfolding begin_fresh
  begin_fresh-eq-ok e = ground (
    arith,
    check_slice_state_cases (record s { status = reconciling }),
    with_state_cases u (length pre) (begun s) none,
    set-middle pre s (begun s) post,
  )

  pub scope_fresh-eq-ok :
      (r : ScopeResult)
      → scope_fresh u (length pre) s r rev ≡ ok v
      → (require_cas u rev ≡ ok tt)
        × (is_reconciling s.status ≡ true)
        × (((r.status ≡ within_scope) × (v ≡ successor u u.status (pre ++ (compared s r ∷ post))))
            ⊎ ((r.status ≡ scope_breach)
                × (v ≡ successor u partially_committed (pre ++ (breached s r ∷ map block post)))))
  unfolding scope_fresh
  scope_fresh-eq-ok r e = ground (
    arith,
    check_slice_state_cases (record s { scope_comparison_hash = some r.comparison_hash }),
    check_slice_state_cases (record s {
      status = SliceStatus.scope_breach;
      scope_comparison_hash = some r.comparison_hash;
    }),
    with_state_cases u (length pre) (compared s r) none,
    set-middle pre s (compared s r) post,
    blocked_after_cases pre s (breached s r) post,
    rebuild_cases u (some partially_committed) (pre ++ (breached s r ∷ map block post)),
  )

  pub verification_fresh-eq-ok :
      (r : VerificationResult) (at : String)
      → verification_fresh u (length pre) s r rev at ≡ ok v
      → (require_cas u rev ≡ ok tt)
        × (is_reconciling s.status ≡ true)
        × (is_none s.scope_comparison_hash ≡ false)
        × (((is_passed r.status ≡ true)
              × (all task_passed r.task_results ≡ true)
              × (v
                  ≡ successor u
                      (passed_status (pre ++ (verified SliceStatus.succeeded s r at ∷ post)))
                      (pre ++ (verified SliceStatus.succeeded s r at ∷ post))))
            ⊎ ((is_passed r.status ≡ false)
                × (v
                    ≡ successor u partially_committed
                        (pre ++ (verified verify_failed s r at ∷ map block post)))))
  unfolding verification_fresh
  verification_fresh-eq-ok r at e =
      let good = verified SliceStatus.succeeded s r at in
      let bad = verified verify_failed s r at in
      ground (
        arith,
        check_slice_state_cases (record s {
          status = SliceStatus.succeeded;
          verification_hash = some r.verification_hash;
          reconciled_at = some at;
        }),
        check_slice_state_cases (record s {
          status = verify_failed;
          verification_hash = some r.verification_hash;
          reconciled_at = some at;
        }),
        set-middle pre s good post,
        rebuild_cases u (some (passed_status (pre ++ (good ∷ post)))) (pre ++ (good ∷ post)),
        blocked_after_cases pre s bad post,
        rebuild_cases u (some partially_committed) (pre ++ (bad ∷ map block post)),
      )

  pub fail_fresh-eq-ok :
      (at : String)
      → fail_fresh u (length pre) s rev at ≡ ok v
      → (require_cas u rev ≡ ok tt)
        × ((is_reserved s.status || is_admitted s.status) ≡ true)
        × (is_none s.actual_delta_hash ≡ true)
        × (v
            ≡ successor u
                (broken_status failed_before_commit pre)
                (pre ++ (abandoned s at ∷ map block post)))
  unfolding fail_fresh
  fail_fresh-eq-ok at e = ground (
    arith,
    check_slice_state_cases (record s { status = failed_before_commit; failed_at = some at }),
    blocked_after_cases pre s (abandoned s at) post,
    take-middle pre (s ∷ post),
    rebuild_cases u (some (broken_status failed_before_commit pre))
        (pre ++ (abandoned s at ∷ map block post)),
  )

module _ (u : StoredSaga) {v : StoredSaga} where
  pub convergence_fresh-eq-ok :
      (outcome : ConvergenceOutcome) (result_hash : String) (rev : ℤ)
      → convergence_fresh u outcome result_hash rev ≡ ok v
      → (require_cas u rev ≡ ok tt)
        × (is_convergence_pending u.status ≡ true)
        × (all slice_succeeded u.slice_states ≡ true)
        × (v ≡ closed_by u outcome result_hash)
  unfolding convergence_fresh rebuild
  convergence_fresh-eq-ok outcome result_hash rev e = ground (
    arith,
    check_stored_cases (record u {
      saga_revision = u.saga_revision + 1;
      status = final_status outcome;
      convergence_outcome = some outcome;
      convergence_result_hash = some result_hash;
    }),
  )
