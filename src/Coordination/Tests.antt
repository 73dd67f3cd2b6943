-- ===== src/Coordination/Tests.antt =====
-- Runs of the coordinator, and its theorems at concrete inputs.
mod Admitted
use dsp.Prelude.{String, ◌≡◌, refl, ap, none, some, List, [], ◌∷◌, Result, ok, ◌⊎◌, All}
use dsp.Prelude.Dict.{empty}
use dsp.Contracts.{Error}
use dsp.Saga.State.{StoredSaga, SagaStatus}
use dsp.Saga.Store.Laws.{HoldsSound}
use dsp.Saga.Terminal.{Complete}
use dsp.Prelude.Text.{is_digest}
use dsp.Contracts.{text, digest, optional_text}
use dsp.Saga.State.{check_slice_state, check_stored}
use dsp.Saga.Store.{create_saga, transition}
use dsp.Saga.Evidence.{
  validate_actual_delta_integrity, compute_scope_comparison_hash,
  compute_semantic_verification_hash, compute_task_result_hash,
}
use dsp.Saga.Requests.{perform}
use dsp.Saga.Transitions.Checks.{
  definition_integrity, state_index, state_at, require_cas, require_no_other_active,
  require_next_eligible, assignment_task_ids,
}
use dsp.Saga.Transitions.Rebuild.{with_state, rebuild, blocked_after}
use dsp.Saga.Transitions.Admission.{
  create_initial_saga, initial_saga, reserve_slice_admission, confirm_slice_admitted,
  record_host_commit, authority_joins, delta_joins,
}
use dsp.Saga.Transitions.Verification.{
  begin_reconciliation, record_scope_result, record_verification_result,
}
use dsp.Saga.Transitions.Closing.{record_convergence_outcome, fail_slice_before_commit}
use dsp.Dispatch.Intent.{build_host_dispatch_intent, check_intent}
use dsp.Dispatch.Store.{Store, new_store, prepare, mark, transitioned}
use dsp.Scope.Local.{compare_scope, validate_local_lineage, resolve_slice_scope}
use dsp.Scope.Evaluate.{evaluate_scope_effects}
use dsp.Saga.Tests.Runs.{distinct}
use dsp.Saga.Tests.Stores.{empty-HoldsSound}
use dsp.Saga.Tests.{zeros, ones, twos, flat_hash, definition, authority, delta, verification_result}
use dsp.Scope.Rules.{Boundary}
use dsp.Scope.Local.{ExecutionSlice}
use dsp.Coordination.Effects.{World}
use dsp.Coordination.Contracts.{
  CoordinationStatus, recovery_required, readiness_failed, CoordinationResult, before_commit,
  commit_state_unknown, DispatchContext, HostResult, committed, failed_at, is_ready,
  ConvergenceStatus, Job, Plan, Ports,
}
use dsp.Coordination.Effects.{◌>>=◌, pure, raise, ask, call, lift, saga, create, prepares, marks}
use dsp.Coordination.Execute.{
  terminal_status, slice_is_active, active_slices, result_of, definition_joins, assigned_tasks,
}
use dsp.Coordination.Rounds.{
  terminal, ends, admit, dispatch, context_of, verified, with_bundle, compared, answered, round,
  conclude, rounds, resume, start, joined, proceed, execute,
}
use dsp.Coordination.Outcomes.{Mirrors}
use dsp.Coordination.Mirror.{execute-Mirrors, execute-succeeded}

abbrev pub boundary : Boundary
boundary = record {
  changeset_hash = zeros;
  scope_hash = zeros;
  existing_entity_rules = [];
  creation_rules = [];
  deletion_rules = [];
  execution_slice_scopes =
      record {
        slice_scope_rule_id = "S1";
        document_ref = "doc";
        existing_rule_ids = [];
        creation_rule_ids = [];
        deletion_rule_ids = [];
      }
      ∷ [];
}

abbrev pub slice : String → ExecutionSlice
slice hash = record {
  execution_slice_id = "ES";
  changeset_id = "CS";
  changeset_hash = zeros;
  materialization_id = "m";
  materialization_plan_hash = zeros;
  materialization_slot_id = "slot";
  host_runtime_ref = record {
    host_type = "REVIT";
    host_instance_id = "host";
    document_ref = "doc";
  };
  approved_scope_ref = record {
    scope_id = "AS";
    scope_hash = zeros;
    execution_slice_scope_rule_id = "S1";
  };
  execution_unit_hashes = [];
  execution_slice_hash = hash;
}

abbrev job : String → Job
job hash = record {
  execution_slice = slice hash;
  authority = authority hash;
  binding_set_hash = zeros;
}

abbrev jobs : List Job
jobs = job ones ∷ job twos ∷ []

abbrev plan : Plan
plan = record {
  changeset_hash = zeros;
  boundary = boundary;
  validation_task_ids = "task" ∷ [];
  materialization_plan_hash = zeros;
  required_set_hash = zeros;
  execution_plan_hash = zeros;
}

abbrev pub owner_truth : String → Boundary → Result Error (Unit {0})
owner_truth _ _ = ok tt

-- an identity for each name
abbrev pub name_id : String → String → String
name_id space name = name

-- the commands that the Host was given are the outside
abbrev pub ports_with : HostResult → Ports (List DispatchContext) String String
ports_with answer = record {
  now = λ x. ("10:00", x);
  readiness = λ x. (ok is_ready, x);
  host = λ job ctx x. (ok (some answer), ctx ∷ x);
  build_bundle = λ job d x. (ok (ok "bundle"), x);
  verify_semantics =
      λ job d tasks bundle at. ok (verification_result job.execution_slice.execution_slice_hash);
  build_evidence = λ job d v b x. (ok "evidence", x);
  verify_convergence = λ es x. (ok (ConvergenceStatus.converged, zeros), x);
}

-- a Host that commits each Slice
abbrev ports : Ports (List DispatchContext) String String
ports = record (ports_with (committed (delta ones) "10:01")) {
  host = λ job ctx x.
      (ok (some (committed (delta job.execution_slice.execution_slice_hash) "10:01")), ctx ∷ x);
}

abbrev world : World (List DispatchContext)
world = record { sagas = empty; intents = new_store; outside = [] }

abbrev pub succeeded_result : CoordinationResult
succeeded_result = record {
  saga_id = "SGV2-000000000000";
  saga_revision = 13;
  status = CoordinationStatus.succeeded;
  active_slice_hash = none;
  failure_ref = none;
  convergence_result_hash = some zeros;
}

-- what is left of the world
abbrev after : Ports (List DispatchContext) String String → World (List DispatchContext)
after p = (execute flat_hash name_id owner_truth p plan (ok definition) jobs world).1

good_run :
    (execute flat_hash name_id owner_truth ports plan (ok definition) jobs world).0
    ≡ ok succeeded_result
unfolding execute compared verified with_bundle ◌>>=◌ pure ask call lift saga create prepares marks
    slice_is_active definition_integrity perform reserve_slice_admission confirm_slice_admitted
    record_host_commit begin_reconciliation record_scope_result record_verification_result
    record_convergence_outcome compute_semantic_verification_hash compute_task_result_hash
    authority_joins delta_joins assignment_task_ids state_index state_at require_cas
    require_no_other_active require_next_eligible check_slice_state with_state check_stored
good_run = refl

-- a Host of which nobody knows whether it committed
abbrev silent : Ports (List DispatchContext) String String
silent = ports_with (failed_at commit_state_unknown "timeout" "10:01")

abbrev recovery_result : CoordinationResult
recovery_result = record succeeded_result {
  saga_revision = 2;
  status = recovery_required;
  active_slice_hash = some ones;
  failure_ref = some "timeout";
  convergence_result_hash = none;
}

unknown_run :
    (execute flat_hash name_id owner_truth silent plan (ok definition) jobs world).0
    ≡ ok recovery_result
unfolding execute ◌>>=◌ pure ask call lift saga create prepares marks slice_is_active
    definition_integrity perform reserve_slice_admission confirm_slice_admitted authority_joins
    state_index state_at require_cas require_no_other_active require_next_eligible check_slice_state
    with_state check_stored
unknown_run = refl

-- a Host that says that it has not committed
failed_run :
    (execute flat_hash name_id owner_truth
      (ports_with (failed_at before_commit "clash" "10:01"))
      plan
      (ok definition)
      jobs
      world).0
    ≡ ok (record recovery_result {
      saga_revision = 3;
      status = CoordinationStatus.failed;
      active_slice_hash = none;
      failure_ref = some "clash";
    })
unfolding execute ends terminal ◌>>=◌ pure ask call lift saga create prepares marks slice_is_active
    definition_integrity perform reserve_slice_admission confirm_slice_admitted authority_joins
    state_index state_at require_cas require_no_other_active require_next_eligible check_slice_state
    with_state check_stored fail_slice_before_commit blocked_after
failed_run = refl

execute-Mirrors_example :
    HoldsSound (after silent).sagas
    × ((recovery_result.status ≡ readiness_failed)
        ⊎ ((u : StoredSaga) × ((after silent).sagas definition.saga_id ≡ some u)
            × Mirrors u recovery_result))
execute-Mirrors_example =
    execute-Mirrors flat_hash name_id owner_truth silent plan definition jobs world distinct
      empty-HoldsSound (ap (λ o. (o, after silent)) unknown_run)

execute-succeeded_example :
    (u : StoredSaga) × ((after ports).sagas definition.saga_id ≡ some u)
    × (succeeded_result.saga_revision ≡ u.saga_revision)
    × (u.status ≡ SagaStatus.succeeded)
    × All Complete u.slice_states
execute-succeeded_example =
    execute-succeeded flat_hash name_id owner_truth ports plan definition jobs world distinct
      empty-HoldsSound (ap (λ o. (o, after ports)) good_run) refl
