-- ===== src/Scope/Local.antt =====
-- v2.py of platform/execution_reconciliation: the lineage of a materialised Slice and the entry point
-- `compare_scope` of ExecutionReconciliationServiceV2. ExecutionSliceV2 is that of
-- platform/execution_planning, v2.py.
use dsp.Prelude.{
  String, Option, none, some, List, [], ◌∷◌, ◌&&◌, ◌==◌, Bool, true, all, elem, Result, ok, err,
  ◌>>=◌, ◌>>◌, guard,
}
use dsp.Prelude.Json.{Json}
use dsp.Contracts.{Error, reconciliation_lineage_mismatch, reconciliation_input_invalid}
use dsp.Saga.Evidence.{
  ActualChange, ActualDelta, Authority, ScopeResult, validate_actual_delta_integrity,
}
use dsp.Scope.Rules.{Boundary, SliceScopeRule}
use dsp.Scope.Compare.{keep}
use dsp.Scope.Evaluate.{evaluate_scope_effects}

-- HostRuntimeRef
pub record HostRuntimeRef : Type 0 where
  pub host_type : String
  pub host_instance_id : String
  pub document_ref : String

-- ApprovedExecutionScopeRef
pub record ApprovedScopeRef : Type 0 where
  pub scope_id : String
  pub scope_hash : String
  pub execution_slice_scope_rule_id : String

-- ExecutionSliceV2; of its units, their hashes
pub record ExecutionSlice : Type 0 where
  pub execution_slice_id : String
  pub changeset_id : String
  pub changeset_hash : String
  pub materialization_id : String
  pub materialization_plan_hash : String
  pub materialization_slot_id : String
  pub host_runtime_ref : HostRuntimeRef
  pub approved_scope_ref : ApprovedScopeRef
  pub execution_unit_hashes : List String
  pub execution_slice_hash : String

-- what a comparison is asked about; of the change set, its hash
pub record LocalRequest : Type 0 where
  pub changeset_hash : String
  pub boundary : Boundary
  pub execution_slice : ExecutionSlice
  pub authority : Authority
  pub actual_delta : ActualDelta

unfoldable pub slice_joins : ExecutionSlice → Authority → Bool
slice_joins s a =
    s.materialization_id == a.materialization_id
    && s.materialization_plan_hash == a.materialization_plan_hash
    && s.execution_slice_hash == a.execution_slice_hash
    && s.changeset_hash == a.changeset_hash
    && s.approved_scope_ref.scope_hash == a.approved_scope_hash
    && s.host_runtime_ref.host_instance_id == a.host_instance_id

unfoldable pub boundary_joins : String → Boundary → Authority → Bool
boundary_joins changeset_hash b a =
    changeset_hash == a.changeset_hash
    && b.changeset_hash == a.changeset_hash
    && b.scope_hash == a.approved_scope_hash

unfoldable pub delta_matches : Authority → ActualDelta → Bool
delta_matches a d =
    a.grant_hash == d.grant_hash
    && a.binding_set_hash == d.binding_set_hash
    && a.execution_slice_hash == d.execution_slice_hash
    && a.changeset_hash == d.changeset_hash
    && a.approved_scope_hash == d.approved_scope_hash
    && a.host_instance_id == d.host_instance_id

-- the unit that a change names, if it names one, is one of the Slice's
abbrev from_unit : List String → Option String → Bool
from_unit hashes none = true
from_unit hashes (some hash) = elem hash hashes

abbrev the_only : List SliceScopeRule → Result Error SliceScopeRule
the_only [] = err reconciliation_input_invalid
the_only (rule ∷ []) = ok rule
the_only (_ ∷ _ ∷ _) = err reconciliation_input_invalid

unfoldable pub names_scope : ExecutionSlice → SliceScopeRule → Bool
names_scope s rule =
    rule.slice_scope_rule_id == s.approved_scope_ref.execution_slice_scope_rule_id
    && rule.document_ref == s.host_runtime_ref.document_ref

-- _resolve_slice_scope
unfoldable pub resolve_slice_scope : Boundary → ExecutionSlice → Result Error SliceScopeRule
unfolding keep names_scope
resolve_slice_scope boundary s = the_only (keep (names_scope s) boundary.execution_slice_scopes)

-- `owner_truth` is the outcome of the two integrity checks of `_validate_owner_truth`, which belong
-- to the owners of the boundary and of the change set
module _ (canonical_hash : Json → String)
    (owner_truth : String → Boundary → Result Error (Unit {0})) where
  -- _validate_local_lineage
  unfoldable pub validate_local_lineage : LocalRequest → Result Error (Unit {0})
  unfolding validate_actual_delta_integrity slice_joins boundary_joins delta_matches
  validate_local_lineage r = do
    owner_truth r.changeset_hash r.boundary
    validate_actual_delta_integrity canonical_hash r.actual_delta
    guard (slice_joins r.execution_slice r.authority) reconciliation_lineage_mismatch
    guard (boundary_joins r.changeset_hash r.boundary r.authority) reconciliation_lineage_mismatch
    guard (delta_matches r.authority r.actual_delta) reconciliation_lineage_mismatch
    guard (r.execution_slice.host_runtime_ref.document_ref == r.actual_delta.document_ref)
        reconciliation_lineage_mismatch
    guard
        (all
          (λ (c : ActualChange).
            from_unit r.execution_slice.execution_unit_hashes c.source_execution_unit_hash)
          r.actual_delta.changes)
        reconciliation_lineage_mismatch

  -- ExecutionReconciliationServiceV2.compare_scope
  unfoldable pub compare_scope : LocalRequest → Result Error ScopeResult
  unfolding validate_local_lineage resolve_slice_scope evaluate_scope_effects
  compare_scope r = do
    validate_local_lineage r
    scope ← resolve_slice_scope r.boundary r.execution_slice
    evaluate_scope_effects canonical_hash r.boundary r.execution_slice.execution_slice_hash
        r.actual_delta.actual_delta_hash r.actual_delta.changes scope
