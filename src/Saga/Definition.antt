-- ===== src/Saga/Definition.antt =====
-- saga_contracts.py and saga_contracts_v2.py: the immutable definition of a Saga.
pub mod Constructor
use dsp.Prelude.{
  String, List, [], ◌∷◌, map, Result, ok, ◌>>=◌, ◌>>◌, guard, not, ◌==◌, Bool, true, false, ◌&&◌,
  ◌||◌, same_list, same_list_refl, ◌≡◌, eq_refl,
}
use dsp.Prelude.Json.{Json, str, obj, end, field, array}
use dsp.Prelude.Sort.{sort_by, str_le, str_lt, texts_le}
use dsp.Contracts.{Error, value_error, text, digest, digests, texts, unique, is_empty}

pub record SliceDependency : Type 0 where
  pub predecessor_slice_hash : String
  pub successor_slice_hash : String
  pub reason_refs : List String

pub record SliceValidationAssignment : Type 0 where
  pub execution_slice_hash : String
  pub validation_task_ids : List String

pub record SemanticEnvironmentRef : Type 0 where
  pub environment_id : String
  pub content_hash : String

pub record Definition : Type 0 where
  pub saga_id : String
  pub changeset_hash : String
  pub approved_scope_hash : String
  pub semantic_environment_ref : SemanticEnvironmentRef
  pub materialization_plan_hash : String
  pub required_set_hash : String
  pub execution_plan_hash : String
  pub ordered_slice_hashes : List String
  pub slice_dependencies : List SliceDependency
  pub slice_validation_assignments : List SliceValidationAssignment
  pub saga_definition_hash : String

-- `==` on these frozen dataclasses
abbrev same_texts : List String → List String → Bool
same_texts = same_list (λ a b. a == b)

abbrev same_dependency : SliceDependency → SliceDependency → Bool
same_dependency a b =
    a.predecessor_slice_hash == b.predecessor_slice_hash
    && a.successor_slice_hash == b.successor_slice_hash
    && same_texts a.reason_refs b.reason_refs

abbrev same_assignment : SliceValidationAssignment → SliceValidationAssignment → Bool
same_assignment a b =
    a.execution_slice_hash == b.execution_slice_hash
    && same_texts a.validation_task_ids b.validation_task_ids

abbrev same_environment : SemanticEnvironmentRef → SemanticEnvironmentRef → Bool
same_environment a b = a.environment_id == b.environment_id && a.content_hash == b.content_hash

unfoldable pub same_definition : Definition → Definition → Bool
same_definition a b =
    a.saga_id == b.saga_id
    && a.changeset_hash == b.changeset_hash
    && a.approved_scope_hash == b.approved_scope_hash
    && same_environment a.semantic_environment_ref b.semantic_environment_ref
    && a.materialization_plan_hash == b.materialization_plan_hash
    && a.required_set_hash == b.required_set_hash
    && a.execution_plan_hash == b.execution_plan_hash
    && same_texts a.ordered_slice_hashes b.ordered_slice_hashes
    && same_list same_dependency a.slice_dependencies b.slice_dependencies
    && same_list same_assignment a.slice_validation_assignments b.slice_validation_assignments
    && a.saga_definition_hash == b.saga_definition_hash

same_texts_refl : (xs : List String) → same_texts xs xs ≡ true
same_texts_refl xs = same_list_refl (λ a b. a == b) eq_refl xs

same_dependency_refl : (d : SliceDependency) → same_dependency d d ≡ true
same_dependency_refl d = simp (eq_refl, same_texts_refl)

same_assignment_refl : (a : SliceValidationAssignment) → same_assignment a a ≡ true
same_assignment_refl a = simp (eq_refl, same_texts_refl)

pub same_definition_refl : (d : Definition) → same_definition d d ≡ true
unfolding same_definition
same_definition_refl d =
    let ds = same_list_refl same_dependency same_dependency_refl d.slice_dependencies in
    let as' = same_list_refl same_assignment same_assignment_refl d.slice_validation_assignments in
    rw (ds, as') (simp (eq_refl, same_texts_refl))

-- SliceDependency(...)
unfoldable pub slice_dependency : String → String → List String → Result Error SliceDependency
unfolding digest texts
slice_dependency predecessor successor reasons = do
  p ← digest predecessor
  s ← digest successor
  guard (not (p == s)) value_error
  rs ← texts reasons
  guard (not (is_empty rs)) value_error
  ok (record { predecessor_slice_hash = p; successor_slice_hash = s; reason_refs = rs })

-- SliceValidationAssignment(...)
unfoldable pub slice_validation_assignment :
    String → List String → Result Error SliceValidationAssignment
unfolding digest texts
slice_validation_assignment slice_hash task_ids = do
  h ← digest slice_hash
  ts ← texts task_ids
  ok (record { execution_slice_hash = h; validation_task_ids = ts })

-- the sort key of a dependency
unfoldable pub dependency_le : SliceDependency → SliceDependency → Bool
dependency_le a b =
    str_lt a.predecessor_slice_hash b.predecessor_slice_hash
    || (a.predecessor_slice_hash == b.predecessor_slice_hash
        && (str_lt a.successor_slice_hash b.successor_slice_hash
            || (a.successor_slice_hash == b.successor_slice_hash
                && texts_le a.reason_refs b.reason_refs)))

unfoldable pub assignment_le : SliceValidationAssignment → SliceValidationAssignment → Bool
assignment_le a b = str_le a.execution_slice_hash b.execution_slice_hash

-- whether a dependency joins the same two Slices as one in the list
abbrev joins : SliceDependency → List SliceDependency → Bool
joins d [] = false
joins d (e ∷ es) =
    (d.predecessor_slice_hash == e.predecessor_slice_hash
      && d.successor_slice_hash == e.successor_slice_hash)
    || joins d es

unfoldable pub unique_edges : List SliceDependency → Bool
unique_edges [] = true
unique_edges (d ∷ ds) = not (joins d ds) && unique_edges ds

-- ExecutionSagaDefinitionV2.__post_init__
unfoldable pub check_definition : Definition → Result Error Definition
unfolding text digest digests unique unique_edges sort_by dependency_le assignment_le
check_definition d = do
  saga_id ← text d.saga_id
  changeset_hash ← digest d.changeset_hash
  approved_scope_hash ← digest d.approved_scope_hash
  materialization_plan_hash ← digest d.materialization_plan_hash
  required_set_hash ← digest d.required_set_hash
  execution_plan_hash ← digest d.execution_plan_hash
  saga_definition_hash ← digest d.saga_definition_hash
  ordered ← digests d.ordered_slice_hashes
  guard (unique_edges d.slice_dependencies) value_error
  let assignments = d.slice_validation_assignments
  guard (unique (map (λ (a : SliceValidationAssignment). a.execution_slice_hash) assignments))
      value_error
  ok (record {
    saga_id = saga_id;
    changeset_hash = changeset_hash;
    approved_scope_hash = approved_scope_hash;
    semantic_environment_ref = d.semantic_environment_ref;
    materialization_plan_hash = materialization_plan_hash;
    required_set_hash = required_set_hash;
    execution_plan_hash = execution_plan_hash;
    ordered_slice_hashes = ordered;
    slice_dependencies = sort_by dependency_le d.slice_dependencies;
    slice_validation_assignments = sort_by assignment_le assignments;
    saga_definition_hash = saga_definition_hash;
  })

unfoldable pub environment_payload : SemanticEnvironmentRef → Json
environment_payload value = obj (
    field "environment_id" (str value.environment_id)
      (field "content_hash" (str value.content_hash) end))

unfoldable pub dependency_payload : SliceDependency → Json
dependency_payload value = obj (
    field "predecessor_slice_hash" (str value.predecessor_slice_hash) (
      field "successor_slice_hash" (str value.successor_slice_hash)
        (field "reason_refs" (array str value.reason_refs) end)))

unfoldable pub assignment_payload : SliceValidationAssignment → Json
assignment_payload value = obj (
    field "execution_slice_hash" (str value.execution_slice_hash)
      (field "validation_task_ids" (array str value.validation_task_ids) end))

-- compute_execution_saga_definition_hash_v2; `canonical_hash` is SHA-256 over canonical JSON
unfoldable pub compute_definition_hash : (Json → String) → Definition → String
unfolding environment_payload dependency_payload assignment_payload
compute_definition_hash canonical_hash d = canonical_hash (
    obj (
      field "version" (str "EXECUTION_SAGA_DEFINITION_V2") (
        field "changeset_hash" (str d.changeset_hash) (
          field "approved_scope_hash" (str d.approved_scope_hash) (
            field "semantic_environment_ref" (environment_payload d.semantic_environment_ref) (
              field "materialization_plan_hash" (str d.materialization_plan_hash) (
                field "required_set_hash" (str d.required_set_hash) (
                  field "execution_plan_hash" (str d.execution_plan_hash) (
                    field "ordered_slice_hashes" (array str d.ordered_slice_hashes) (
                      field "slice_dependencies" (array dependency_payload d.slice_dependencies) (
                        field "slice_validation_assignments"
                          (array assignment_payload d.slice_validation_assignments) end)))))))))))
