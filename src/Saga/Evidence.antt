-- ===== src/Saga/Evidence.antt =====
-- contracts.py and hashing.py of platform/execution_reconciliation, and AdmittedExecutionAuthorityV2
-- of platform/gateway_authorization: the evidence that a Saga records, and its content hashes.
use dsp.Prelude.{
  ℕ, String, Option, none, some, List, [], ◌∷◌, map, Result, ok, ◌>>◌, guard, ◌==◌, Bool, true,
  ◌&&◌, ◌||◌,
}
use dsp.Prelude.Json.{Json, null, str, num, obj, end, field, array, optional}
use dsp.Prelude.Sort.{sort_by, str_le, str_lt}
use dsp.Contracts.{Error, actual_delta_input_invalid, actual_delta_integrity_invalid}

-- AdmittedExecutionAuthorityV2
pub record Authority : Type 0 where
  pub approval_hash : String
  pub grant_hash : String
  pub changeset_hash : String
  pub approved_scope_hash : String
  pub materialization_plan_hash : String
  pub materialization_id : String
  pub execution_slice_hash : String
  pub binding_set_hash : String
  pub host_instance_id : String
  pub admitted_at : String

-- ActualChangeKind
pub data ChangeKind : Type 0 where
  create modify delete : ChangeKind

pub data CanonicalAspect : Type 0 where
  identity properties placement geometry spatial connectivity : CanonicalAspect
  relationships constraints classification : CanonicalAspect

pub record HostEntityRef : Type 0 where
  pub document_id : String
  pub native_id : String
  pub native_type : Option String

pub record ActualChange : Type 0 where
  pub change_kind : ChangeKind
  pub actual_change_hash : String
  pub semantic_id : Option String
  pub canonical_kind : Option String
  pub changed_aspects : List CanonicalAspect
  pub canonical_operation : Option String
  pub source_execution_unit_hash : Option String
  pub source_semantic_id : Option String
  pub source_canonical_kind : Option String
  pub derivation_rule : Option String
  pub host_entity_ref : Option HostEntityRef

pub record ActualDelta : Type 0 where
  pub actual_delta_id : String
  pub grant_hash : String
  pub binding_set_hash : String
  pub execution_slice_hash : String
  pub changeset_hash : String
  pub approved_scope_hash : String
  pub host_instance_id : String
  pub document_ref : String
  pub revision_before : ℕ
  pub revision_after : ℕ
  pub changes : List ActualChange
  pub actual_delta_hash : String

-- ScopeComparisonStatus
pub data ScopeStatus : Type 0 where
  within_scope scope_breach : ScopeStatus

pub record ScopeMatch : Type 0 where
  pub actual_change_hash : String
  pub rule_id : String

pub record ScopeViolation : Type 0 where
  pub code : String
  pub actual_change_hash : String
  pub rule_id : Option String

-- ScopeComparisonResult
pub record ScopeResult : Type 0 where
  pub status : ScopeStatus
  pub actual_delta_hash : String
  pub approved_scope_hash : String
  pub execution_slice_hash : String
  pub matched_changes : List ScopeMatch
  pub violations : List ScopeViolation
  pub comparison_hash : String

-- VerificationStatus
pub data VerificationStatus : Type 0 where
  passed failed evidence_insufficient : VerificationStatus

-- ValidationTaskResult
pub record TaskResult : Type 0 where
  pub validation_task_id : String
  pub status : VerificationStatus
  pub observations : List String
  pub failure_codes : List String
  pub task_result_hash : String

-- SemanticVerificationResult
pub record VerificationResult : Type 0 where
  pub verification_id : String
  pub changeset_hash : String
  pub execution_slice_hash : String
  pub actual_delta_hash : String
  pub evidence_bundle_hash : String
  pub task_results : List TaskResult
  pub status : VerificationStatus
  pub verification_hash : String

-- the enumerations' values
unfoldable pub change_kind_value : ChangeKind → String
change_kind_value create = "CREATE"
change_kind_value modify = "MODIFY"
change_kind_value delete = "DELETE"

unfoldable pub aspect_value : CanonicalAspect → String
aspect_value identity = "IDENTITY"
aspect_value properties = "PROPERTIES"
aspect_value placement = "PLACEMENT"
aspect_value geometry = "GEOMETRY"
aspect_value spatial = "SPATIAL"
aspect_value connectivity = "CONNECTIVITY"
aspect_value relationships = "RELATIONSHIPS"
aspect_value constraints = "CONSTRAINTS"
aspect_value classification = "CLASSIFICATION"

unfoldable pub scope_status_value : ScopeStatus → String
scope_status_value within_scope = "WITHIN_SCOPE"
scope_status_value scope_breach = "SCOPE_BREACH"

unfoldable pub verification_status_value : VerificationStatus → String
verification_status_value passed = "PASSED"
verification_status_value failed = "FAILED"
verification_status_value evidence_insufficient = "EVIDENCE_INSUFFICIENT"

-- _instance_payload
unfoldable pub instance_payload : Option String → Option HostEntityRef → Json
instance_payload (some semantic_id) _ =
    obj (field "kind" (str "SEMANTIC_ID") (field "semantic_id" (str semantic_id) end))
instance_payload none (some ref) = obj (
    field "kind" (str "HOST_ENTITY")
      (field "document_id" (str ref.document_id) (field "native_id" (str ref.native_id) end)))
instance_payload none none = null

match_payload : ScopeMatch → Json
match_payload m =
    obj
      (field "actual_change_hash" (str m.actual_change_hash) (field "rule_id" (str m.rule_id) end))

violation_payload : ScopeViolation → Json
violation_payload v = obj (
    field "code" (str v.code) (
      field "actual_change_hash" (str v.actual_change_hash)
        (field "rule_id" (optional v.rule_id) end)))

unfoldable pub match_le : ScopeMatch → ScopeMatch → Bool
match_le a b =
    str_lt a.actual_change_hash b.actual_change_hash
    || (a.actual_change_hash == b.actual_change_hash && str_le a.rule_id b.rule_id)

-- `rule_id or ""`
or_blank : Option String → String
or_blank none = ""
or_blank (some r) = r

unfoldable pub violation_le : ScopeViolation → ScopeViolation → Bool
unfolding or_blank
violation_le a b =
    str_lt a.actual_change_hash b.actual_change_hash
    || (a.actual_change_hash == b.actual_change_hash
        && (str_lt a.code b.code
            || (a.code == b.code && str_le (or_blank a.rule_id) (or_blank b.rule_id))))

task_le : TaskResult → TaskResult → Bool
task_le a b = str_le a.validation_task_id b.validation_task_id

-- the Host entity, where there is one, lies in the document
abbrev in_document : String → Option HostEntityRef → Bool
in_document document_ref none = true
in_document document_ref (some ref) = ref.document_id == document_ref

-- `canonical_hash` is SHA-256 over canonical JSON (platform/changeset, hashing.py)
module _ (canonical_hash : Json → String) where
  unfoldable pub compute_actual_change_hash : ActualChange → String
  unfolding instance_payload change_kind_value aspect_value
  compute_actual_change_hash c = canonical_hash (
      obj (
        field "change_kind" (str (change_kind_value c.change_kind)) (
          field "instance" (instance_payload c.semantic_id c.host_entity_ref) (
            field "canonical_kind" (optional c.canonical_kind) (
              field "changed_aspects" (array (λ a. str (aspect_value a)) c.changed_aspects) (
                field "canonical_operation" (optional c.canonical_operation) (
                  field "source_execution_unit_hash" (optional c.source_execution_unit_hash) (
                    field "source_semantic_id" (optional c.source_semantic_id) (
                      field "source_canonical_kind" (optional c.source_canonical_kind)
                        (field "derivation_rule" (optional c.derivation_rule) end))))))))))

  unfoldable pub compute_actual_delta_hash : ActualDelta → String
  unfolding sort_by
  compute_actual_delta_hash d = canonical_hash (
      obj (
        field "grant_hash" (str d.grant_hash) (
          field "binding_set_hash" (str d.binding_set_hash) (
            field "execution_slice_hash" (str d.execution_slice_hash) (
              field "changeset_hash" (str d.changeset_hash) (
                field "approved_scope_hash" (str d.approved_scope_hash) (
                  field "host_instance_id" (str d.host_instance_id) (
                    field "document_ref" (str d.document_ref) (
                      field "revision_before" (num d.revision_before) (
                        field "revision_after" (num d.revision_after) (
                          field "actual_change_hashes"
                            (array str (
                              sort_by str_le
                                (map (λ (c : ActualChange). c.actual_change_hash) d.changes)))
                            end)))))))))))

  -- the loop over the changes
  validate_changes : String → List ActualChange → Result Error (Unit {0})
  unfolding compute_actual_change_hash
  validate_changes document_ref [] = ok tt
  validate_changes document_ref (c ∷ cs) = do
    guard (c.actual_change_hash == compute_actual_change_hash c) actual_delta_integrity_invalid
    guard (in_document document_ref c.host_entity_ref) actual_delta_input_invalid
    validate_changes document_ref cs

  unfoldable pub validate_actual_delta_integrity : ActualDelta → Result Error (Unit {0})
  unfolding validate_changes compute_actual_delta_hash
  validate_actual_delta_integrity d = do
    validate_changes d.document_ref d.changes
    guard (d.actual_delta_hash == compute_actual_delta_hash d) actual_delta_integrity_invalid

  unfoldable pub compute_scope_comparison_hash : ScopeResult → String
  unfolding match_payload violation_payload match_le violation_le sort_by scope_status_value
  compute_scope_comparison_hash r = canonical_hash (
      obj (
        field "status" (str (scope_status_value r.status)) (
          field "actual_delta_hash" (str r.actual_delta_hash) (
            field "approved_scope_hash" (str r.approved_scope_hash) (
              field "execution_slice_hash" (str r.execution_slice_hash) (
                field "matched_changes" (array match_payload (sort_by match_le r.matched_changes)) (
                  field "violations" (array violation_payload (sort_by violation_le r.violations))
                    end)))))))

  unfoldable pub compute_task_result_hash : TaskResult → String
  unfolding verification_status_value
  compute_task_result_hash r = canonical_hash (
      obj (
        field "validation_task_id" (str r.validation_task_id) (
          field "status" (str (verification_status_value r.status)) (
            field "observations" (array str r.observations)
              (field "failure_codes" (array str r.failure_codes) end)))))

  unfoldable pub compute_semantic_verification_hash : VerificationResult → String
  unfolding task_le sort_by verification_status_value
  compute_semantic_verification_hash r = canonical_hash (
      obj (
        field "changeset_hash" (str r.changeset_hash) (
          field "execution_slice_hash" (str r.execution_slice_hash) (
            field "actual_delta_hash" (str r.actual_delta_hash) (
              field "evidence_bundle_hash" (str r.evidence_bundle_hash) (
                field "task_result_hashes"
                  (array (λ (t : TaskResult). str t.task_result_hash)
                    (sort_by task_le r.task_results))
                  (field "status" (str (verification_status_value r.status)) end)))))))
