-- ===== src/Coordination/Contracts.antt =====
-- contracts.py and materialized_contracts.py of platform/execution_coordination, and what the
-- coordinator asks of its ports.
use dsp.Prelude.{ℕ, String, Option, List, Result}
use dsp.Contracts.{Error}
use dsp.Saga.Evidence.{Authority, ActualDelta, VerificationResult}
use dsp.Scope.Rules.{Boundary}
use dsp.Scope.Local.{ExecutionSlice}

-- MaterializedCoordinationStatus
pub data CoordinationStatus : Type 0 where
  succeeded failed partially_committed recovery_required readiness_failed diverged :
      CoordinationStatus

-- MaterializedCoordinationResult
pub record CoordinationResult : Type 0 where
  pub saga_id : String
  pub saga_revision : ℕ
  pub status : CoordinationStatus
  pub active_slice_hash : Option String
  pub failure_ref : Option String
  pub convergence_result_hash : Option String

-- HostFailurePhase
pub data FailurePhase : Type 0 where
  before_commit commit_state_unknown : FailurePhase

-- HostDispatchContext
pub record DispatchContext : Type 0 where
  pub dispatch_intent_id : String
  pub idempotency_key : String
  pub saga_id : String
  pub execution_slice_hash : String

-- HostCommitted and HostFailed
pub data HostResult : Type 0 where
  committed : ActualDelta → String → HostResult
  failed_at : FailurePhase → String → String → HostResult

-- what the readiness barrier answers
pub data Readiness : Type 0 where
  is_ready : Readiness
  not_ready : Option String → Readiness

pub data ConvergenceStatus : Type 0 where
  converged diverged evidence_insufficient : ConvergenceStatus

-- a Slice of the plan with what the indexes hold for its materialization
pub record Job : Type 0 where
  pub execution_slice : ExecutionSlice
  pub authority : Authority
  pub binding_set_hash : String

-- what the whole execution is about
pub record Plan : Type 0 where
  pub changeset_hash : String
  pub boundary : Boundary
  pub validation_task_ids : List String
  pub materialization_plan_hash : String
  pub required_set_hash : String
  pub execution_plan_hash : String

-- The ports, as functions on the outside: the clock, the readiness barrier, the registry of Hosts
-- (`none` where it has no port), the source of evidence (where a bundle may be unavailable by its
-- code), the evaluator of semantics and the convergence verifier. All but the clock may raise.
pub record Ports (X Bundle Evidence : Type 0) : Type 0 where
  pub now : X → String × X
  pub readiness : X → Result String Readiness × X
  pub host : Job → DispatchContext → X → Result String (Option HostResult) × X
  pub build_bundle : Job → ActualDelta → X → Result String (Result String Bundle) × X
  pub verify_semantics :
      Job → ActualDelta → List String → Bundle → String → Result Error VerificationResult
  pub build_evidence :
      Job → ActualDelta → VerificationResult → Bundle → X → Result String Evidence × X
  pub verify_convergence : List Evidence → X → Result String (ConvergenceStatus × String) × X
