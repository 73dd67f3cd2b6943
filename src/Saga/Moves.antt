-- ===== src/Saga/Moves.antt =====
-- The life of a Slice and of a Saga as a step relation: what the transitions of
-- saga_transitions_v2.py may do, with no revisions, digests or error codes.
use dsp.Prelude.{
  ◌+◌, String, ◌≡◌, none, some, List, ◌∷◌, ◌++◌, map, true, false, ◌⊎◌, ◌≢◌, if◌then◌else◌, any,
  all, ok,
}
use dsp.Saga.State.{
  SagaStatus, ready, executing, partially_committed, convergence_pending, failed,
  ConvergenceOutcome, SliceStatus, not_started, admission_reserved, admitted, host_committed,
  reconciling, failed_before_commit, verify_failed, SliceState, StoredSaga,
}
use dsp.Saga.Evidence.{
  Authority, ActualDelta, ScopeResult, within_scope, VerificationResult, passed,
}
use dsp.Saga.Normal.{normalised}
use dsp.Saga.Rebuilt.{successor, with_hash, block}
use dsp.Saga.Transitions.Checks.{other_active, require_next_eligible}
use dsp.Saga.Transitions.Verification.{slice_succeeded}
use dsp.Saga.Transitions.Closing.{has_delta, final_status}

-- the Slice with the evidence of one step
abbrev pub reserved : SliceState → String → SliceState
reserved s at = normalised (record s { status = admission_reserved; reserved_at = some at })

abbrev pub confirmed : SliceState → Authority → SliceState
confirmed s a = normalised (record s {
  status = admitted;
  materialization_id = some a.materialization_id;
  approval_hash = some a.approval_hash;
  grant_hash = some a.grant_hash;
  binding_set_hash = some a.binding_set_hash;
  admitted_host_instance_id = some a.host_instance_id;
  admitted_at = some a.admitted_at;
})

abbrev pub committed : SliceState → ActualDelta → String → SliceState
committed s d at = normalised (record s {
  status = host_committed;
  actual_delta_hash = some d.actual_delta_hash;
  committed_at = some at;
})

abbrev pub begun : SliceState → SliceState
begun s = normalised (record s { status = reconciling })

abbrev pub compared : SliceState → ScopeResult → SliceState
compared s r = normalised (record s { scope_comparison_hash = some r.comparison_hash })

abbrev pub breached : SliceState → ScopeResult → SliceState
breached s r =
    normalised (record s {
      status = SliceStatus.scope_breach;
      scope_comparison_hash = some r.comparison_hash;
    })

abbrev pub verified : SliceStatus → SliceState → VerificationResult → String → SliceState
verified status s r at = normalised (record s {
  status = status;
  verification_hash = some r.verification_hash;
  reconciled_at = some at;
})

abbrev pub abandoned : SliceState → String → SliceState
abandoned s at = normalised (record s { status = failed_before_commit; failed_at = some at })

-- a step of one Slice that leaves the status of the Saga alone
pub data Advance (s t : SliceState) : Type 0 where
  admit : (a : Authority) → s.status ≡ admission_reserved → t ≡ confirmed s a → Advance s t
  commit :
      (d : ActualDelta) (at : String) → s.status ≡ admitted → t ≡ committed s d at → Advance s t
  begin : s.status ≡ host_committed → t ≡ begun s → Advance s t
  compare :
      (r : ScopeResult)
      → s.status ≡ reconciling
      → s.scope_comparison_hash ≡ none
      → r.status ≡ within_scope
      → t ≡ compared s r
      → Advance s t

-- a failure of one Slice
pub data Break (s t : SliceState) : Type 0 where
  abandon :
      (at : String)
      → (s.status ≡ admission_reserved) ⊎ (s.status ≡ admitted)
      → s.actual_delta_hash ≡ none
      → t ≡ abandoned s at
      → Break s t
  breach :
      (r : ScopeResult)
      → s.status ≡ reconciling
      → s.scope_comparison_hash ≡ none
      → r.status ≢ within_scope
      → t ≡ breached s r
      → Break s t
  reject :
      (r : VerificationResult) (at : String)
      → s.status ≡ reconciling
      → s.scope_comparison_hash ≢ none
      → r.status ≢ passed
      → t ≡ verified verify_failed s r at
      → Break s t

-- the status of a Saga after a failure, by the new status of the Slice
abbrev pub broken_status : SliceStatus → List SliceState → SagaStatus
broken_status failed_before_commit pre = if any has_delta pre then partially_committed else failed
broken_status _ pre = partially_committed

-- the status of a Saga after a Slice has succeeded
abbrev pub passed_status : List SliceState → SagaStatus
passed_status states = if all slice_succeeded states then convergence_pending else executing

-- the Slice may be admitted next
pub record IsCandidate (u : StoredSaga) (s : SliceState) : Type 0 where
  pub fresh : s.status ≡ not_started
  pub opened : (u.status ≡ ready) ⊎ (u.status ≡ executing)
  pub alone : any (other_active s.execution_slice_hash) u.slice_states ≡ false
  pub chosen : require_next_eligible u s.execution_slice_hash ≡ ok tt

-- the Saga with its convergence outcome
abbrev pub closed_by : StoredSaga → ConvergenceOutcome → String → StoredSaga
closed_by u outcome result_hash = with_hash (record u {
  saga_revision = u.saga_revision + 1;
  status = final_status outcome;
  convergence_outcome = some outcome;
  convergence_result_hash = some result_hash;
})

-- one step of a Saga
pub data Move (u v : StoredSaga) : Type 0 where
  reserve :
      (pre post : List SliceState) (s : SliceState) (at : String)
      → u.slice_states ≡ pre ++ (s ∷ post)
      → IsCandidate u s
      → v ≡ successor u executing (pre ++ (reserved s at ∷ post))
      → Move u v
  advance :
      (pre post : List SliceState) (s t : SliceState)
      → u.slice_states ≡ pre ++ (s ∷ post)
      → Advance s t
      → v ≡ successor u u.status (pre ++ (t ∷ post))
      → Move u v
  pass :
      (pre post : List SliceState) (s : SliceState) (r : VerificationResult) (at : String)
      → u.slice_states ≡ pre ++ (s ∷ post)
      → s.status ≡ reconciling
      → s.scope_comparison_hash ≢ none
      → v
        ≡ successor u
            (passed_status (pre ++ (verified SliceStatus.succeeded s r at ∷ post)))
            (pre ++ (verified SliceStatus.succeeded s r at ∷ post))
      → Move u v
  break :
      (pre post : List SliceState) (s t : SliceState)
      → u.slice_states ≡ pre ++ (s ∷ post)
      → Break s t
      → v ≡ successor u (broken_status t.status pre) (pre ++ (t ∷ map block post))
      → Move u v
  converge :
      (outcome : ConvergenceOutcome) (result_hash : String)
      → u.status ≡ convergence_pending
      → u.convergence_result_hash ≡ none
      → all slice_succeeded u.slice_states ≡ true
      → v ≡ closed_by u outcome result_hash
      → Move u v
