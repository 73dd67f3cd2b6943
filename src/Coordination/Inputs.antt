-- ===== src/Coordination/Inputs.antt =====
-- What the materialized coordinator is given: the materialization plan (platform/materialization_planning,
-- contracts.py and hashing.py), the convergence profile (platform/convergence, profile.py and hashing.py),
-- the execution plan (platform/execution_planning, v2.py) and the binding sets (platform/provider_binding,
-- v2.py).
use dsp.Prelude.{String, List, [], ◌∷◌, Bool, Result, ok, err, ◌>>=◌, ◌>>◌}
use dsp.Prelude.Json.{Json, str, obj, end, field, array}
use dsp.Prelude.Sort.{sort_by, str_le, texts_le}
use dsp.Contracts.{Error, value_error, text}
use dsp.Saga.Evidence.{Authority}
use dsp.Scope.Rules.{Boundary}
use dsp.Scope.Local.{ExecutionSlice}

-- MaterializationIntent
pub record MaterializationIntent : Type 0 where
  pub materialization_id : String
  pub source_operation_id : String
  pub source_operation_hash : String
  pub semantic_targets : List String
  pub materialization_slot_id : String
  pub required_host_type : String
  pub expected_effects : List String
  pub intent_hash : String

-- MaterializationPlan
pub record MaterializationPlan : Type 0 where
  pub changeset_hash : String
  pub approved_scope_hash : String
  pub topology_snapshot_hash : String
  pub intents : List MaterializationIntent
  pub required_set_hash : String
  pub convergence_profile_hash : String
  pub materialization_plan_hash : String

-- ConvergenceFieldRule, whose mode is its text
pub record FieldRule : Type 0 where
  pub subjects_from_argument : String
  pub path : String
  pub expected_argument : String
  pub measurement_unit : String
  pub comparison_mode : String

-- ConvergenceComparisonProfile
pub record Profile : Type 0 where
  pub profile_version : String
  pub field_rules : List FieldRule
  pub profile_hash : String

-- ExecutionUnitV2, as far as it is read here
pub record ExecutionUnit : Type 0 where
  pub materialization_id : String
  pub materialization_plan_hash : String
  pub materialization_slot_id : String
  pub required_host_type : String
  pub targets : List String

-- a Slice of the plan with its units
pub record PlannedSlice : Type 0 where
  pub execution_slice : ExecutionSlice
  pub execution_units : List ExecutionUnit

-- ExecutionPlanV2, as far as it is read here
pub record ExecutionPlan : Type 0 where
  pub changeset_hash : String
  -- of its approval_scope_ref
  pub scope_hash : String
  pub materialization_plan_hash : String
  pub required_set_hash : String
  pub convergence_profile_hash : String
  pub ordering_policy : String
  pub execution_slices : List PlannedSlice
  pub execution_plan_hash : String

-- ProviderBindingV2, as far as it is read here
pub record ProviderBinding : Type 0 where
  pub materialization_id : String
  pub materialization_plan_hash : String
  pub native_semantic_ids : List String
  pub binding_hash : String

-- ProviderBindingSetV2
pub record BindingSet : Type 0 where
  pub binding_set_id : String
  pub materialization_id : String
  pub materialization_plan_hash : String
  pub execution_slice_id : String
  pub execution_slice_hash : String
  pub provider_execution_snapshot_id : String
  pub provider_execution_snapshot_hash : String
  pub bindings : List ProviderBinding
  pub binding_set_hash : String

-- the arguments of `execute`; of the change set, its hash and the ids of its validation tasks
pub record Inputs : Type 0 where
  pub changeset_hash : String
  pub validation_task_ids : List String
  pub boundary : Boundary
  pub materialization_plan : MaterializationPlan
  pub execution_plan : ExecutionPlan
  pub binding_sets : List BindingSet
  pub authorities : List Authority
  pub convergence_profile : Profile

-- `sorted(values)` of texts, as JSON
abbrev sorted_texts : List String → Json
sorted_texts values = array str (sort_by str_le values)

-- _intent_sort_key
unfoldable pub intent_le : MaterializationIntent → MaterializationIntent → Bool
intent_le i j = texts_le (key i) (key j)
  where
    key : MaterializationIntent → List String
    key i = i.required_host_type ∷ i.materialization_slot_id ∷ i.materialization_id ∷ []

-- the key of the rules' order in compute_convergence_profile_hash
unfoldable pub rule_le : FieldRule → FieldRule → Bool
rule_le r s = texts_le (key r) (key s)
  where
    key : FieldRule → List String
    key r =
        r.subjects_from_argument ∷ r.path ∷ r.expected_argument ∷ r.measurement_unit
        ∷ r.comparison_mode ∷ []

-- _required_identity_payload
unfoldable pub required_identity_payload : MaterializationIntent → Json
required_identity_payload i = obj (
    field "materialization_id" (str i.materialization_id) (
      field "intent_hash" (str i.intent_hash) (
        field "materialization_slot_id" (str i.materialization_slot_id) (
          field "required_host_type" (str i.required_host_type)
            (field "semantic_targets" (sorted_texts i.semantic_targets) end)))))

-- the entry of an intent in compute_materialization_plan_hash
unfoldable pub intent_entry : MaterializationIntent → Json
intent_entry i = obj (
    field "materialization_id" (str i.materialization_id) (
      field "intent_hash" (str i.intent_hash) (
        field "materialization_slot_id" (str i.materialization_slot_id) (
          field "required_host_type" (str i.required_host_type) (
            field "semantic_targets" (sorted_texts i.semantic_targets) (
              field "source_operation_id" (str i.source_operation_id) (
                field "source_operation_hash" (str i.source_operation_hash)
                  (field "expected_effects" (sorted_texts i.expected_effects) end))))))))

-- _rule_payload
unfoldable pub rule_payload : FieldRule → Json
rule_payload r = obj (
    field "subjects_from_argument" (str r.subjects_from_argument) (
      field "path" (str r.path) (
        field "expected_argument" (str r.expected_argument) (
          field "measurement_unit" (str r.measurement_unit)
            (field "comparison_mode" (str r.comparison_mode) end)))))

abbrev some_of {ℓ} : {A : Type ℓ} → List A → Result Error (Unit {0})
some_of [] = err value_error
some_of (_ ∷ _) = ok tt

module _ (sha256_json : Json → String) where
  -- compute_materialization_intent_hash
  unfoldable pub compute_materialization_intent_hash : MaterializationIntent → String
  compute_materialization_intent_hash i = sha256_json (
      obj (
        field "version" (str "MATERIALIZATION_INTENT_V1") (
          field "source_operation_id" (str i.source_operation_id) (
            field "source_operation_hash" (str i.source_operation_hash) (
              field "semantic_targets" (sorted_texts i.semantic_targets) (
                field "materialization_slot_id" (str i.materialization_slot_id) (
                  field "required_host_type" (str i.required_host_type)
                    (field "expected_effects" (sorted_texts i.expected_effects) end))))))))

  -- compute_required_set_hash
  unfoldable pub compute_required_set_hash : List MaterializationIntent → Result Error String
  unfolding intent_le required_identity_payload
  compute_required_set_hash intents =
      some_of intents
      >> ok (
          sha256_json (
            obj (
              field "version" (str "MATERIALIZATION_REQUIRED_SET_V1") (
                field "required_materializations"
                  (array required_identity_payload (sort_by intent_le intents)) end))))

  -- compute_materialization_plan_hash, of the parts of a plan
  unfoldable pub compute_materialization_plan_hash : MaterializationPlan → Result Error String
  unfolding intent_le intent_entry
  compute_materialization_plan_hash p =
      some_of p.intents
      >> ok (
          sha256_json (
            obj (
              field "version" (str "MATERIALIZATION_PLAN_V1") (
                field "changeset_hash" (str p.changeset_hash) (
                  field "approved_scope_hash" (str p.approved_scope_hash) (
                    field "topology_snapshot_hash" (str p.topology_snapshot_hash) (
                      field "intents" (array intent_entry (sort_by intent_le p.intents)) (
                        field "required_set_hash" (str p.required_set_hash) (
                          field "convergence_profile_hash" (str p.convergence_profile_hash)
                            end)))))))))

  -- compute_convergence_profile_hash
  unfoldable pub compute_convergence_profile_hash : String → List FieldRule → Result Error String
  unfolding rule_le rule_payload
  compute_convergence_profile_hash version rules = do
    v ← text version
    some_of rules
    ok (
        sha256_json (
          obj (
            field "profile_version" (str v)
              (field "field_rules" (array rule_payload (sort_by rule_le rules)) end))))
