-- ===== src/Build/Tests/Builder.antt =====
-- Runs of the builder, and its theorems at concrete inputs.
use dsp.Prelude.{◌↔◌, String, ◌≡◌, refl, ok, err, some, false, [], ◌∷◌, true, any}
use dsp.Contracts.{unique, map_digest, saga_integrity_invalid}
use dsp.Saga.Definition.{Definition}
use dsp.Saga.State.{StoredSaga, failed, check_slice_state, check_stored}
use dsp.Saga.Requests.{serve, perform}
use dsp.Saga.Transitions.Checks.{
  definition_integrity, state_index, state_at, require_cas, require_no_other_active,
  require_next_eligible,
}
use dsp.Saga.Transitions.Rebuild.{with_state, rebuild, blocked_after}
use dsp.Saga.Transitions.Admission.{initial_saga, reserve_slice_admission}
use dsp.Saga.Transitions.Closing.{fail_slice_before_commit, has_delta}
use dsp.Saga.Tests.{flat_hash, definition, initial, zeros, ones, twos}
use dsp.Saga.Tests.Orders.{early_failure}
use dsp.Build.Definition.{
  ValidationTask, canonical_operation, dependency_verification, SourceSlice, Source, build,
  validation_assignments, slice_hashes,
}
use dsp.Build.Chain.{Adjacent, HasEdge, build-IsChain}
use dsp.Build.Forward.{build-failed}

abbrev task : ValidationTask
task = record {
  validation_task_id = "task";
  kind = canonical_operation;
  canonical_operation_ref = some "paint@1";
  subject_semantic_ids = "wall" ∷ [];
}

abbrev source_slice : String → SourceSlice
source_slice hash = record {
  execution_slice_hash = hash;
  canonical_operation = "paint";
  canonical_operation_version = "1";
  targets = "wall" ∷ [];
}

abbrev pub source : Source
source = record {
  changeset_hash = zeros;
  validation_tasks = task ∷ [];
  semantic_environment_ref = record { environment_id = "env"; content_hash = zeros };
  scope_hash = zeros;
  materialization_plan_hash = zeros;
  required_set_hash = zeros;
  execution_plan_hash = zeros;
  execution_slices = source_slice ones ∷ source_slice twos ∷ [];
}

-- the definition of the Saga's tests, but for the reason of its dependency
abbrev built : Definition
built = record definition {
  slice_dependencies =
      record {
        predecessor_slice_hash = ones;
        successor_slice_hash = twos;
        reason_refs = "MATERIALIZATION_ORDER" ∷ [];
      }
      ∷ [];
}

built_run : build flat_hash (ok tt) source ≡ ok built
unfolding build
built_run = refl

-- a task that no Slice owns is refused
stray_run :
    validation_assignments (record source {
      validation_tasks =
          record task { kind = dependency_verification; subject_semantic_ids = "roof" ∷ [] } ∷ [];
    })
    ≡ err saga_integrity_invalid
unfolding validation_assignments
stray_run = refl

build-IsChain_example :
    (map_digest (slice_hashes source) ≡ ok built.ordered_slice_hashes)
    × (unique built.ordered_slice_hashes ≡ true)
    × ((p s : String)
        → HasEdge p s built.slice_dependencies ↔ Adjacent p s built.ordered_slice_hashes)
build-IsChain_example = build-IsChain flat_hash (ok tt) source built_run

abbrev made : StoredSaga
made = record initial { definition = built }

made_run : initial_saga flat_hash built ≡ ok made
unfolding initial_saga definition_integrity check_slice_state check_stored
made_run = refl

failed_run : (serve flat_hash made early_failure).status ≡ failed
unfolding serve perform reserve_slice_admission fail_slice_before_commit state_index state_at
    require_cas require_no_other_active require_next_eligible check_slice_state with_state rebuild
    blocked_after check_stored
failed_run = refl

build-failed_example : any has_delta (serve flat_hash made early_failure).slice_states ≡ false
build-failed_example =
    build-failed flat_hash (ok tt) source early_failure built_run made_run failed_run
