-- ===== src/Saga/Requests.antt =====
-- The requests that a controller passes to a Saga (ExecutionSagaControllerV2 in saga_v2.py).
use dsp.Prelude.{String, ℤ, Result, List, [], ◌∷◌, ok, err}
use dsp.Prelude.Json.{Json}
use dsp.Contracts.{Error}
use dsp.Saga.State.{ConvergenceOutcome, StoredSaga}
use dsp.Saga.Evidence.{Authority, ActualDelta, ScopeResult, VerificationResult}
use dsp.Saga.Transitions.Admission.{
  reserve_slice_admission, confirm_slice_admitted, record_host_commit,
}
use dsp.Saga.Transitions.Verification.{
  begin_reconciliation, record_scope_result, record_verification_result,
}
use dsp.Saga.Transitions.Closing.{fail_slice_before_commit, record_convergence_outcome}

-- a method of the controller with its arguments; the ℤ is `expected_revision`
pub data Request : Type 0 where
  reserve : String → ℤ → String → Request
  confirm : Authority → ℤ → Request
  commit : ActualDelta → ℤ → String → Request
  begin : String → ℤ → Request
  scope : ScopeResult → ℤ → Request
  verify : VerificationResult → ℤ → String → Request
  fail : String → ℤ → String → Request
  converge : ConvergenceOutcome → String → ℤ → Request

abbrev pub expected_revision : Request → ℤ
expected_revision (reserve _ n _) = n
expected_revision (confirm _ n) = n
expected_revision (commit _ n _) = n
expected_revision (begin _ n) = n
expected_revision (scope _ n) = n
expected_revision (verify _ n _) = n
expected_revision (fail _ n _) = n
expected_revision (converge _ _ n) = n

-- the Saga after a call that may have raised
abbrev pub after : StoredSaga → Result Error StoredSaga → StoredSaga
after u (ok v) = v
after u (err _) = u

module _ (canonical_hash : Json → String) where
  unfoldable pub perform : StoredSaga → Request → Result Error StoredSaga
  perform u (reserve h n at) = reserve_slice_admission u h n at
  perform u (confirm a n) = confirm_slice_admitted u a n
  perform u (commit d n at) = record_host_commit canonical_hash u d n at
  perform u (begin h n) = begin_reconciliation u h n
  perform u (scope r n) = record_scope_result canonical_hash u r n
  perform u (verify r n at) = record_verification_result canonical_hash u r n at
  perform u (fail h n at) = fail_slice_before_commit u h n at
  perform u (converge outcome result_hash n) = record_convergence_outcome u outcome result_hash n

  -- a caller that goes on after an error, which leaves the Saga as it was
  unfoldable pub serve : StoredSaga → List Request → StoredSaga
  serve u [] = u
  serve u (r ∷ rs) = serve (after u (perform u r)) rs
