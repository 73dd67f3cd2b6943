-- ===== src/Coordination/Tests/Admitted.antt =====
-- Inputs of the coordinator that pass its checks.
use dsp.Prelude.{length, String, ◌≡◌, refl, some, List, [], ◌∷◌, Result, ok, err, All, map, true}
use dsp.Prelude.Dict.{empty}
use dsp.Contracts.{Error, text}
use dsp.Saga.Tests.Stores.{empty-HoldsSound}
use dsp.Saga.Tests.{zeros, ones, twos, flat_hash, authority, delta, verification_result}
use dsp.Saga.Evidence.{Authority}
use dsp.Dispatch.Store.{new_store}
use dsp.Scope.Local.{ExecutionSlice}
use dsp.Coordination.Effects.{World, materialization_authority_mismatch}
use dsp.Coordination.Contracts.{committed, is_ready, ConvergenceStatus, Job, Ports}
use dsp.Coordination.Inputs.{
  MaterializationIntent, MaterializationPlan, Profile, PlannedSlice, ExecutionPlan, BindingSet,
  Inputs,
}
use dsp.Coordination.Indexes.{covers}
use dsp.Coordination.Bindings.{intent_ids}
use dsp.Coordination.Validate.{
  check_slices, check_binding_sets, check_authorities, validate_materialization_plan, admitted_jobs,
}
use dsp.Coordination.Joined.{Joins, admitted_jobs-Joins}
use dsp.Coordination.Checked.{admitted_jobs-returns}
use dsp.Coordination.Coordinate.{coordinate}
use dsp.Coordination.Commanded.{Command, recorded, IsCommanded, coordinate-IsCommanded}
use dsp.Build.Tests.Builder.{source}
use dsp.Saga.State.{check_slice_state, check_stored}
use dsp.Saga.Evidence.{compute_semantic_verification_hash, compute_task_result_hash}
use dsp.Saga.Requests.{perform}
use dsp.Saga.Transitions.Checks.{
  definition_integrity, state_index, state_at, require_cas, require_no_other_active,
  require_next_eligible, assignment_task_ids,
}
use dsp.Saga.Transitions.Rebuild.{with_state}
use dsp.Saga.Transitions.Admission.{
  reserve_slice_admission, confirm_slice_admitted, record_host_commit, authority_joins, delta_joins,
}
use dsp.Saga.Transitions.Verification.{
  begin_reconciliation, record_scope_result, record_verification_result,
}
use dsp.Saga.Transitions.Closing.{record_convergence_outcome}
use dsp.Coordination.Effects.{◌>>=◌, pure, ask, call, lift, saga, create, prepares, marks}
use dsp.Coordination.Execute.{slice_is_active}
use dsp.Coordination.Rounds.{verified, with_bundle, compared, execute}
use dsp.Coordination.Tests.{succeeded_result, slice, boundary, owner_truth, name_id}

abbrev intent : String → MaterializationIntent
intent id = record {
  materialization_id = id;
  source_operation_id = "op";
  source_operation_hash = zeros;
  semantic_targets = "wall" ∷ [];
  materialization_slot_id = "slot";
  required_host_type = "REVIT";
  expected_effects = "geometry" ∷ [];
  intent_hash = zeros;
}

abbrev materialization_plan : MaterializationPlan
materialization_plan = record {
  changeset_hash = zeros;
  approved_scope_hash = zeros;
  topology_snapshot_hash = zeros;
  intents = intent "m1" ∷ intent "m2" ∷ [];
  required_set_hash = zeros;
  convergence_profile_hash = zeros;
  materialization_plan_hash = zeros;
}

abbrev profile : Profile
profile = record {
  profile_version = "v1";
  field_rules =
      record {
        subjects_from_argument = "walls";
        path = "width";
        expected_argument = "width";
        measurement_unit = "mm";
        comparison_mode = "EXACT_CANONICAL_VALUE";
      }
      ∷ [];
  profile_hash = zeros;
}

abbrev slice_for : String → String → ExecutionSlice
slice_for id hash = record (slice hash) { materialization_id = id }

abbrev planned : String → String → PlannedSlice
planned id hash = record {
  execution_slice = slice_for id hash;
  execution_units =
      record {
        materialization_id = id;
        materialization_plan_hash = zeros;
        materialization_slot_id = "slot";
        required_host_type = "REVIT";
        targets = "wall" ∷ [];
      }
      ∷ [];
}

abbrev execution_plan : ExecutionPlan
execution_plan = record {
  changeset_hash = zeros;
  scope_hash = zeros;
  materialization_plan_hash = zeros;
  required_set_hash = zeros;
  convergence_profile_hash = zeros;
  ordering_policy = "stable_host_type_then_slot.v1";
  execution_slices = planned "m1" ones ∷ planned "m2" twos ∷ [];
  execution_plan_hash = zeros;
}

abbrev bound : String → String → BindingSet
bound id hash = record {
  binding_set_id = "PBSV2-000000000000";
  materialization_id = id;
  materialization_plan_hash = zeros;
  execution_slice_id = "ES";
  execution_slice_hash = hash;
  provider_execution_snapshot_id = "snapshot";
  provider_execution_snapshot_hash = zeros;
  bindings =
      record {
        materialization_id = id;
        materialization_plan_hash = zeros;
        native_semantic_ids = "wall" ∷ [];
        binding_hash = zeros;
      }
      ∷ [];
  binding_set_hash = zeros;
}

abbrev authority_for : String → String → Authority
authority_for id hash = record (authority hash) { materialization_id = id }

abbrev given : Inputs
given = record {
  changeset_hash = zeros;
  validation_task_ids = "task" ∷ [];
  boundary = boundary;
  materialization_plan = materialization_plan;
  execution_plan = execution_plan;
  binding_sets = bound "m2" twos ∷ bound "m1" ones ∷ [];
  authorities = authority_for "m2" twos ∷ authority_for "m1" ones ∷ [];
  convergence_profile = profile;
}

abbrev binding_integrity : BindingSet → ExecutionSlice → Result Error (Unit {0})
binding_integrity _ _ = ok tt

abbrev job_for : String → String → Job
job_for id hash = record {
  execution_slice = slice_for id hash;
  authority = authority_for id hash;
  binding_set_hash = zeros;
}

abbrev jobs : List Job
jobs = job_for "m1" ones ∷ job_for "m2" twos ∷ []

admitted_run : admitted_jobs flat_hash owner_truth binding_integrity given ≡ ok jobs
unfolding admitted_jobs text
admitted_run = refl

-- an authority that is swapped for another one is refused
swapped_run :
    admitted_jobs flat_hash owner_truth binding_integrity
      (record given { authorities = authority_for "m1" twos ∷ authority_for "m2" ones ∷ [] })
    ≡ err materialization_authority_mismatch
unfolding admitted_jobs text
swapped_run = refl

plan_run :
    validate_materialization_plan flat_hash owner_truth binding_integrity zeros boundary
      materialization_plan profile
    ≡ ok tt
unfolding validate_materialization_plan text
plan_run = refl

slices_run : check_slices zeros boundary materialization_plan execution_plan ≡ ok tt
unfolding check_slices
slices_run = refl

bindings_run : check_binding_sets flat_hash owner_truth binding_integrity given ≡ ok tt
unfolding check_binding_sets
bindings_run = refl

authorities_run : check_authorities given ≡ ok tt
unfolding check_authorities
authorities_run = refl

admitted_jobs-Joins_example :
    All (Joins given) jobs
    × (map (λ (j : Job). j.execution_slice) jobs
        ≡ map (λ (s : PlannedSlice). s.execution_slice) execution_plan.execution_slices)
    × (covers
          (map (λ (j : Job). j.execution_slice.materialization_id) jobs)
          (intent_ids materialization_plan)
        ≡ true)
admitted_jobs-Joins_example =
    admitted_jobs-Joins given flat_hash owner_truth binding_integrity admitted_run

admitted_jobs-returns_example :
    (found_jobs : List Job) × (admitted_jobs flat_hash owner_truth binding_integrity given
      ≡ ok found_jobs)
admitted_jobs-returns_example =
    admitted_jobs-returns given flat_hash owner_truth binding_integrity refl plan_run slices_run
      bindings_run authorities_run

-- a Host that commits each Slice
abbrev ports : Ports String String String
ports = record {
  now = λ x. ("10:00", x);
  readiness = λ x. (ok is_ready, x);
  host = λ job ctx x.
      (ok (some (committed (delta job.execution_slice.execution_slice_hash) "10:01")), x);
  build_bundle = λ job d x. (ok (ok "bundle"), x);
  verify_semantics =
      λ job d tasks bundle at. ok (verification_result job.execution_slice.execution_slice_hash);
  build_evidence = λ job d v b x. (ok "evidence", x);
  verify_convergence = λ es x. (ok (ConvergenceStatus.converged, zeros), x);
}

-- A Host that raises, which leaves the stores as they were at the call.
abbrev broken : Ports String String String
broken = record ports { host = λ job ctx x. (err "connection", x) }

abbrev world : World (String × List Command)
world = record { sagas = empty; intents = new_store; outside = ("", []) }

abbrev after : Ports String String String → World (String × List Command)
after p =
    (coordinate flat_hash flat_hash name_id owner_truth binding_integrity (recorded p) given (ok tt)
      source world).1

coordinate-IsCommanded_example :
    All (IsCommanded given (after broken).intents) (after broken).outside.1
coordinate-IsCommanded_example =
    coordinate-IsCommanded broken given flat_hash flat_hash name_id owner_truth binding_integrity
      (ok tt) source world empty-HoldsSound refl

-- the whole of an execution
coordinated_run :
    (coordinate flat_hash flat_hash name_id owner_truth binding_integrity
      (recorded ports)
      given
      (ok tt)
      source
      world).0
    ≡ ok succeeded_result
unfolding coordinate admitted_jobs text execute compared verified with_bundle ◌>>=◌ pure ask call
    lift saga create prepares marks slice_is_active definition_integrity perform
    reserve_slice_admission confirm_slice_admitted record_host_commit begin_reconciliation
    record_scope_result record_verification_result record_convergence_outcome
    compute_semantic_verification_hash compute_task_result_hash authority_joins delta_joins
    assignment_task_ids state_index state_at require_cas require_no_other_active
    require_next_eligible check_slice_state with_state check_stored
coordinated_run = refl

-- the broken Host was given one command
broken_run : length (after broken).outside.1 ≡ 1
unfolding coordinate admitted_jobs text execute compared verified with_bundle ◌>>=◌ pure ask call
    lift saga create prepares marks slice_is_active definition_integrity perform
    reserve_slice_admission confirm_slice_admitted record_host_commit begin_reconciliation
    record_scope_result record_verification_result record_convergence_outcome
    compute_semantic_verification_hash compute_task_result_hash authority_joins delta_joins
    assignment_task_ids state_index state_at require_cas require_no_other_active
    require_next_eligible check_slice_state with_state check_stored
broken_run = refl
