-- ===== src/Coordination/Rounds.antt =====
-- materialized_coordinator.py: `execute` from the readiness barrier on, over ports and stores.
use dsp.Prelude.{
  String, Option, none, some, List, [], ◌∷◌, ◌++◌, Bool, true, false, pos, Result, ok, err,
}
use dsp.Prelude.Json.{Json}
use dsp.Contracts.{Error}
use dsp.Saga.Definition.{Definition}
use dsp.Saga.State.{SagaStatus, StoredSaga, ConvergenceOutcome}
use dsp.Saga.Evidence.{
  ActualDelta, ScopeResult, ScopeStatus, within_scope, scope_breach, VerificationResult,
  VerificationStatus, passed, failed, evidence_insufficient,
}
use dsp.Saga.Requests.{reserve, confirm, commit, begin, scope, verify, fail, converge}
use dsp.Dispatch.Intent.{Intent, build_host_dispatch_intent}
use dsp.Dispatch.Store.{
  mark_dispatched, mark_outcome_unknown, mark_host_committed, mark_safe_to_retry,
}
use dsp.Scope.Rules.{Boundary}
use dsp.Scope.Local.{compare_scope}
use dsp.Coordination.Effects.{
  CoordinationError, host_result_invalid, saga_integrity_invalid, Coord, ◌>>=◌, pure, raise, ask,
  call, lift, saga, create, prepares, marks,
}
use dsp.Coordination.Contracts.{
  CoordinationStatus, recovery_required, readiness_failed, CoordinationResult, before_commit,
  commit_state_unknown, DispatchContext, HostResult, committed, failed_at, Readiness, is_ready,
  not_ready, ConvergenceStatus, Job, Plan, Ports,
}
use dsp.Coordination.Execute.{
  terminal_status, active_slices, result_of, definition_joins, assigned_tasks, Step, returned,
  advanced,
}

module _ {X Bundle Evidence : Type 0} (canonical_hash : Json → String)
    (uuid5 : String → String → String) (owner_truth : String → Boundary → Result Error (Unit {0}))
    (ports : Ports X Bundle Evidence) (plan : Plan) where
  -- `_terminal_result`, where `None` is an error
  abbrev pub or_invalid :
      StoredSaga → Option String → Option CoordinationStatus → Coord X CoordinationResult
  or_invalid stored failure_ref none = raise saga_integrity_invalid
  or_invalid stored failure_ref (some status) =
      pure (result_of stored status none failure_ref stored.convergence_result_hash)

  unfoldable pub terminal : StoredSaga → Option String → Coord X CoordinationResult
  unfolding terminal_status result_of
  terminal stored failure_ref = or_invalid stored failure_ref (terminal_status stored.status)

  unfoldable pub ends : Coord X CoordinationResult → Coord X (Step Evidence)
  ends m = do result ← m; pure (returned result)

  -- reservation and admission
  unfoldable pub admit : Job → StoredSaga → Coord X StoredSaga
  admit job stored = do
    at ← ask ports.now
    reserved ←
        saga canonical_hash stored.definition.saga_id
          (reserve job.execution_slice.execution_slice_hash (pos stored.saga_revision) at)
    saga canonical_hash stored.definition.saga_id
        (confirm job.authority (pos reserved.saga_revision))

  -- the durable intent, before any Host call
  unfoldable pub dispatch : String → Job → Coord X Intent
  unfolding build_host_dispatch_intent
  dispatch saga_id job = do
    at ← ask ports.now
    intent ← lift (
        build_host_dispatch_intent uuid5
          (record {
            saga_id = saga_id;
            execution_slice_hash = job.execution_slice.execution_slice_hash;
            grant_hash = job.authority.grant_hash;
            binding_set_hash = job.binding_set_hash;
            host_instance_id = job.authority.host_instance_id;
            document_ref = job.execution_slice.host_runtime_ref.document_ref;
            expected_host_revision = none;
          })
          at)
    known ← prepares intent
    then_at ← ask ports.now
    marks mark_dispatched known.dispatch_intent_id (pos known.intent_revision) then_at

  unfoldable pub context_of : String → Job → Intent → DispatchContext
  context_of saga_id job intent = record {
    dispatch_intent_id = intent.dispatch_intent_id;
    idempotency_key = intent.idempotency_key;
    saga_id = saga_id;
    execution_slice_hash = job.execution_slice.execution_slice_hash;
  }

  -- after local verification
  unfoldable pub verified :
      Job
      → ActualDelta
      → Bundle
      → VerificationResult
      → StoredSaga
      → VerificationStatus
      → Coord X (Step Evidence)
  verified job delta bundle v stored passed = do
    evidence ← call (ports.build_evidence job delta v bundle)
    pure (advanced stored evidence)
  verified job delta bundle v stored failed = ends (terminal stored (some v.verification_hash))
  verified job delta bundle v stored evidence_insufficient =
      ends (terminal stored (some v.verification_hash))

  abbrev pub tasks_or : Result CoordinationError (List String) → Coord X (List String)
  tasks_or (ok tasks) = pure tasks
  tasks_or (err e) = raise e

  unfoldable pub with_bundle :
      Job → ActualDelta → StoredSaga → Result String Bundle → Coord X (Step Evidence)
  unfolding result_of assigned_tasks
  with_bundle job delta stored (err code) = pure (
      returned (
        result_of stored recovery_required (some job.execution_slice.execution_slice_hash)
          (some code) none))
  with_bundle job delta stored (ok bundle) = do
    tasks ← tasks_or (
        assigned_tasks stored.definition plan.validation_task_ids
          job.execution_slice.execution_slice_hash)
    at ← ask ports.now
    v ← lift (ports.verify_semantics job delta tasks bundle at)
    then_at ← ask ports.now
    recorded ←
        saga canonical_hash stored.definition.saga_id (verify v (pos stored.saga_revision) then_at)
    verified job delta bundle v recorded v.status

  -- after the scope comparison
  unfoldable pub compared :
      Job → ActualDelta → ScopeResult → StoredSaga → ScopeStatus → Coord X (Step Evidence)
  compared job delta result stored scope_breach =
      ends (terminal stored (some result.comparison_hash))
  compared job delta result stored within_scope = do
    bundle ← call (ports.build_bundle job delta)
    with_bundle job delta stored bundle

  -- what the Host answered
  unfoldable pub answered : Job → Intent → StoredSaga → Option HostResult → Coord X (Step Evidence)
  unfolding result_of compare_scope
  answered job intent stored none = raise host_result_invalid
  answered job intent stored (some (failed_at commit_state_unknown failure_ref at)) = do
    _ ←
        marks (mark_outcome_unknown failure_ref) intent.dispatch_intent_id
          (pos intent.intent_revision) at
    pure (
        returned (
          result_of stored recovery_required (some job.execution_slice.execution_slice_hash)
            (some failure_ref) none))
  answered job intent stored (some (failed_at before_commit failure_ref at)) = do
    _ ←
        marks (mark_safe_to_retry failure_ref) intent.dispatch_intent_id
          (pos intent.intent_revision) at
    closed ←
        saga canonical_hash stored.definition.saga_id
          (fail job.execution_slice.execution_slice_hash (pos stored.saga_revision) at)
    ends (terminal closed (some failure_ref))
  answered job intent stored (some (committed delta at)) = do
    _ ←
        marks (mark_host_committed delta.actual_delta_hash) intent.dispatch_intent_id
          (pos intent.intent_revision) at
    known ←
        saga canonical_hash stored.definition.saga_id (commit delta (pos stored.saga_revision) at)
    begun ←
        saga canonical_hash stored.definition.saga_id
          (begin job.execution_slice.execution_slice_hash (pos known.saga_revision))
    result ← lift (
        compare_scope canonical_hash owner_truth (record {
          changeset_hash = plan.changeset_hash;
          boundary = plan.boundary;
          execution_slice = job.execution_slice;
          authority = job.authority;
          actual_delta = delta;
        }))
    judged ← saga canonical_hash stored.definition.saga_id (scope result (pos begun.saga_revision))
    compared job delta result judged result.status

  -- one round of the loop over the Slices
  unfoldable pub round : Job → StoredSaga → Coord X (Step Evidence)
  unfolding admit dispatch context_of answered
  round job stored = do
    admitted ← admit job stored
    intent ← dispatch stored.definition.saga_id job
    answer ← call (ports.host job (context_of stored.definition.saga_id job intent))
    answered job intent admitted answer

  -- the final outcome
  abbrev pub outcome_of : ConvergenceStatus → ConvergenceOutcome
  outcome_of ConvergenceStatus.converged = ConvergenceOutcome.converged
  outcome_of ConvergenceStatus.diverged = ConvergenceOutcome.diverged
  outcome_of ConvergenceStatus.evidence_insufficient = ConvergenceOutcome.diverged

  abbrev pub failure_of : ConvergenceStatus → Option String
  failure_of ConvergenceStatus.converged = none
  failure_of ConvergenceStatus.diverged = some "CONVERGENCE_DIVERGED"
  failure_of ConvergenceStatus.evidence_insufficient = some "CONVERGENCE_EVIDENCE_INSUFFICIENT"

  abbrev pub final_result :
      StoredSaga → Option String → String → Option CoordinationStatus → Coord X CoordinationResult
  final_result stored failure_ref result_hash none = raise saga_integrity_invalid
  final_result stored failure_ref result_hash (some status) =
      pure (result_of stored status none failure_ref (some result_hash))

  unfoldable pub conclude : StoredSaga → List Evidence → SagaStatus → Coord X CoordinationResult
  unfolding terminal_status result_of
  conclude stored evidence SagaStatus.convergence_pending = do
    (status, result_hash) ← call (ports.verify_convergence evidence)
    final ←
        saga canonical_hash stored.definition.saga_id
          (converge (outcome_of status) result_hash (pos stored.saga_revision))
    final_result final (failure_of status) result_hash (terminal_status final.status)
  conclude stored evidence _ = raise saga_integrity_invalid

  abbrev pub next :
      (StoredSaga → List Evidence → Coord X CoordinationResult)
      → List Evidence
      → Step Evidence
      → Coord X CoordinationResult
  next go evidence (returned result) = pure result
  next go evidence (advanced stored item) = go stored (evidence ++ (item ∷ []))

  -- the loop over the Slices
  unfoldable pub rounds : List Job → StoredSaga → List Evidence → Coord X CoordinationResult
  unfolding round conclude
  rounds [] stored evidence = conclude stored evidence stored.status
  rounds (job ∷ jobs) stored evidence = do step ← round job stored; next (rounds jobs) evidence step

  unfoldable pub resume :
      List Job → StoredSaga → SagaStatus → List String → Coord X CoordinationResult
  unfolding rounds result_of
  resume jobs stored status (slice_hash ∷ _) =
      pure (result_of stored recovery_required (some slice_hash) none none)
  resume jobs stored SagaStatus.ready [] = rounds jobs stored []
  resume jobs stored _ [] = pure (
      result_of stored recovery_required none (some "MATERIALIZED_FORWARD_RESUME_REQUIRES_EVIDENCE")
        none)

  -- a Saga that has ended is not run again
  unfoldable pub start :
      List Job → StoredSaga → Option CoordinationStatus → Coord X CoordinationResult
  unfolding active_slices result_of resume
  start jobs stored (some status) =
      pure (result_of stored status none none stored.convergence_result_hash)
  start jobs stored none = resume jobs stored stored.status (active_slices stored.slice_states)

  unfoldable pub joined : List Job → StoredSaga → Bool → Coord X CoordinationResult
  unfolding terminal_status start
  joined jobs stored false = raise saga_integrity_invalid
  joined jobs stored true = start jobs stored (terminal_status stored.status)

  unfoldable pub proceed :
      Result Error Definition → List Job → Readiness → Coord X CoordinationResult
  unfolding definition_joins joined
  proceed built jobs (not_ready failure_ref) = pure (record {
    saga_id = "NOT_CREATED";
    saga_revision = 0;
    status = readiness_failed;
    active_slice_hash = none;
    failure_ref = failure_ref;
    convergence_result_hash = none;
  })
  proceed built jobs is_ready = do
    d ← lift built
    stored ← create canonical_hash d
    joined jobs stored (definition_joins plan stored.definition)

  -- `execute` from the readiness barrier on; `built` is what the builder made
  unfoldable pub execute : Result Error Definition → List Job → Coord X CoordinationResult
  unfolding proceed
  execute built jobs = do readiness ← call ports.readiness; proceed built jobs readiness
