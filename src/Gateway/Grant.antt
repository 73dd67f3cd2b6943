-- ===== src/Gateway/Grant.antt =====
-- v2.py and contracts.py of platform/gateway_authorization: grants, approvals and their states.
use dsp.Prelude.{String, Option, List, Bool, ◌==◌, ◌&&◌}

-- a GatewayAuthorizationError by its stable code, and Python's own KeyError
pub data GatewayError : Type 0 where
  value_error key_error : GatewayError
  approval_admission_already_consumed approval_admission_conflict : GatewayError
  approval_integrity_invalid approval_record_not_found approval_revoked : GatewayError
  execution_grant_conflict execution_grant_revoked execution_grant_expired : GatewayError
  execution_grant_already_admitted : GatewayError

-- GrantState
pub data GrantState : Type 0 where
  active admitted revoked expired : GrantState

-- ApprovalState
pub data ApprovalState : Type 0 where
  active revoked : ApprovalState

-- ApprovalRecord, of which the store reads these fields
pub record ApprovalRecord : Type 0 where
  pub approval_id : String
  pub admission_id : String
  pub admission_fingerprint : String

-- ExecutionGrantV2
pub record Grant : Type 0 where
  pub grant_id : String
  pub approval_id : String
  pub approval_hash : String
  pub changeset_hash : String
  pub approved_scope_hash : String
  pub materialization_plan_hash : String
  pub materialization_id : String
  pub execution_slice_id : String
  pub execution_slice_hash : String
  pub binding_set_hash : String
  pub host_instance_id : String
  pub allowed_operations : List String
  pub issued_at : String
  pub expires_at : String
  pub grant_hash : String

-- _StoredGrantV2
pub record StoredGrant : Type 0 where
  pub grant : Grant
  pub state : GrantState
  pub admitted_at : Option String

-- the key of `_lineages_v2`
pub record Lineage : Type 0 where
  pub approval_hash : String
  pub materialization_plan_hash : String
  pub materialization_id : String
  pub execution_slice_hash : String

-- _lineage_v2
abbrev pub lineage_of : Grant → Lineage
lineage_of g = record {
  approval_hash = g.approval_hash;
  materialization_plan_hash = g.materialization_plan_hash;
  materialization_id = g.materialization_id;
  execution_slice_hash = g.execution_slice_hash;
}

-- `==` on the keys
abbrev pub same_lineage : Lineage → Lineage → Bool
same_lineage a b =
    a.approval_hash == b.approval_hash
    && a.materialization_plan_hash == b.materialization_plan_hash
    && a.materialization_id == b.materialization_id
    && a.execution_slice_hash == b.execution_slice_hash
