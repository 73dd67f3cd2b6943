-- ===== src/Build/Definition.antt =====
-- saga_v2.py of platform/execution_reconciliation: ExecutionSagaBuilderV2, behind its validators.
use Prim.Native.String
use dsp.Prelude.{
  String, Option, none, some, List, [], ◌∷◌, ◌++◌, Bool, false, ◌&&◌, ◌==◌, any, map, Result, ok,
  ◌>>=◌, ◌>>◌, guard, if◌then◌else◌,
}
use dsp.Prelude.Json.{Json}
use dsp.Prelude.Sort.{sort_by, str_le}
use dsp.Contracts.{Error, saga_integrity_invalid}
use dsp.Saga.Definition.{
  Definition, SemanticEnvironmentRef, SliceDependency, SliceValidationAssignment, slice_dependency,
  slice_validation_assignment, check_definition, compute_definition_hash,
}
use dsp.Saga.Transitions.Checks.{includes, saga_id_of}
use dsp.Saga.Transitions.Verification.{same_texts}
use dsp.Scope.Evaluate.{zeros64}

-- ValidationTaskKind
pub data TaskKind : Type 0 where
  canonical_operation dependency_verification : TaskKind

-- ValidationTask, as far as it is read here
pub record ValidationTask : Type 0 where
  pub validation_task_id : String
  pub kind : TaskKind
  pub canonical_operation_ref : Option String
  pub subject_semantic_ids : List String

-- an ExecutionSliceV2 with its one unit, as far as they are read here
pub record SourceSlice : Type 0 where
  pub execution_slice_hash : String
  pub canonical_operation : String
  pub canonical_operation_version : String
  pub targets : List String

-- what `build` reads of its arguments
pub record Source : Type 0 where
  pub changeset_hash : String
  pub validation_tasks : List ValidationTask
  pub semantic_environment_ref : SemanticEnvironmentRef
  pub scope_hash : String
  pub materialization_plan_hash : String
  pub required_set_hash : String
  pub execution_plan_hash : String
  pub execution_slices : List SourceSlice

abbrev pub slice_hashes : Source → List String
slice_hashes source = map (λ (s : SourceSlice). s.execution_slice_hash) source.execution_slices

-- _dependencies
unfoldable pub dependencies : List String → Result Error (List SliceDependency)
unfolding slice_dependency
dependencies [] = ok []
dependencies (_ ∷ []) = ok []
dependencies (predecessor ∷ successor ∷ hashes) = do
  d ← slice_dependency predecessor successor ("MATERIALIZATION_ORDER" ∷ [])
  ds ← dependencies (successor ∷ hashes)
  ok (d ∷ ds)

abbrev is_ref : Option String → String → Bool
is_ref none name = false
is_ref (some ref) name = ref == name

-- `matches`
abbrev matches_kind : TaskKind → ValidationTask → SourceSlice → Bool
matches_kind canonical_operation task s =
    is_ref task.canonical_operation_ref
      (String.◌++◌ s.canonical_operation (String.◌++◌ "@" s.canonical_operation_version))
    && same_texts task.subject_semantic_ids s.targets
matches_kind dependency_verification task s = includes s.targets task.subject_semantic_ids

unfoldable pub matches : ValidationTask → SourceSlice → Bool
matches task s = matches_kind task.kind task s

-- what a task appends to `tasks_by_slice[slice_hash]`
unfoldable pub appended : ValidationTask → String → List SourceSlice → List String
unfolding matches
appended task slice_hash [] = []
appended task slice_hash (s ∷ ss) =
    let rest = appended task slice_hash ss in
    if matches task s && s.execution_slice_hash == slice_hash
    then task.validation_task_id ∷ rest
    else rest

-- `tasks_by_slice[slice_hash]`
unfoldable pub tasks_of : List ValidationTask → List SourceSlice → String → List String
unfolding appended
tasks_of [] slices slice_hash = []
tasks_of (task ∷ tasks) slices slice_hash =
    appended task slice_hash slices ++ tasks_of tasks slices slice_hash

-- the loop over the tasks refuses one that no Slice owns
unfoldable pub check_owners : List SourceSlice → List ValidationTask → Result Error (Unit {0})
unfolding matches
check_owners slices [] = ok tt
check_owners slices (task ∷ tasks) =
    guard (any (matches task) slices) saga_integrity_invalid >> check_owners slices tasks

unfoldable pub assignments :
    List ValidationTask
    → List SourceSlice
    → List SourceSlice
    → Result Error (List SliceValidationAssignment)
unfolding slice_validation_assignment tasks_of
assignments tasks slices [] = ok []
assignments tasks slices (s ∷ ss) = do
  a ←
      slice_validation_assignment s.execution_slice_hash
        (sort_by str_le (tasks_of tasks slices s.execution_slice_hash))
  rest ← assignments tasks slices ss
  ok (a ∷ rest)

-- _validation_assignments; every task that passes the loop is covered
unfoldable pub validation_assignments : Source → Result Error (List SliceValidationAssignment)
unfolding check_owners assignments
validation_assignments source =
    check_owners source.execution_slices source.validation_tasks
    >> assignments source.validation_tasks source.execution_slices source.execution_slices

-- `draft`, before its constructor
abbrev pub draft_of : Source → List SliceDependency → List SliceValidationAssignment → Definition
draft_of source ds assigned = record {
  saga_id = "SGV2-DRAFT";
  changeset_hash = source.changeset_hash;
  approved_scope_hash = source.scope_hash;
  semantic_environment_ref = source.semantic_environment_ref;
  materialization_plan_hash = source.materialization_plan_hash;
  required_set_hash = source.required_set_hash;
  execution_plan_hash = source.execution_plan_hash;
  ordered_slice_hashes = slice_hashes source;
  slice_dependencies = ds;
  slice_validation_assignments = assigned;
  saga_definition_hash = zeros64;
}

-- a draft under its own digest
abbrev pub under_hash : Definition → String → Definition
under_hash draft hash = record draft { saga_id = saga_id_of hash; saga_definition_hash = hash }

module _ (canonical_hash : Json → String) where
  -- ExecutionSagaBuilderV2.build; `validated` is the outcome of its three validators
  unfoldable pub build : Result Error (Unit {0}) → Source → Result Error Definition
  unfolding dependencies validation_assignments check_definition compute_definition_hash saga_id_of
  build validated source = do
    _ ← validated
    ds ← dependencies (slice_hashes source)
    assigned ← validation_assignments source
    draft ← check_definition (draft_of source ds assigned)
    check_definition (under_hash draft (compute_definition_hash canonical_hash draft))
