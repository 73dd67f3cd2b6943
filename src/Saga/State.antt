-- ===== src/Saga/State.antt =====
-- saga_state_v2.py: the state of a Slice and the stored Saga.
use dsp.Prelude.{
  ℕ, suc, String, Option, none, some, List, [], ◌∷◌, Result, ok, ◌>>=◌, ◌>>◌, guard, ◌==◌, Bool,
  true, false, ◌&&◌, length, all, nat_eq,
}
use dsp.Contracts.{Error, value_error, optional_text, digest, optional_digest}
use dsp.Saga.Definition.{Definition}

-- ExecutionSagaStatusV2
pub data SagaStatus : Type 0 where
  ready executing partially_committed convergence_pending succeeded diverged failed : SagaStatus

-- SagaConvergenceOutcome
pub data ConvergenceOutcome : Type 0 where
  converged diverged : ConvergenceOutcome

-- SliceReconciliationStatusV2
pub data SliceStatus : Type 0 where
  not_started admission_reserved admitted host_committed reconciling succeeded : SliceStatus
  failed_before_commit verify_failed scope_breach blocked : SliceStatus

-- SliceReconciliationStateV2
pub record SliceState : Type 0 where
  pub execution_slice_hash : String
  pub sequence_index : ℕ
  pub materialization_plan_hash : String
  pub status : SliceStatus
  pub materialization_id : Option String
  pub approval_hash : Option String
  pub grant_hash : Option String
  pub binding_set_hash : Option String
  pub admitted_host_instance_id : Option String
  pub actual_delta_hash : Option String
  pub scope_comparison_hash : Option String
  pub verification_hash : Option String
  pub reserved_at : Option String
  pub admitted_at : Option String
  pub committed_at : Option String
  pub reconciled_at : Option String
  pub failed_at : Option String

-- StoredExecutionSagaV2
pub record StoredSaga : Type 0 where
  pub definition : Definition
  pub saga_revision : ℕ
  pub status : SagaStatus
  pub slice_states : List SliceState
  pub convergence_outcome : Option ConvergenceOutcome
  pub convergence_result_hash : Option String

-- SliceReconciliationStateV2.__post_init__, which `dataclasses.replace` runs as well
unfoldable pub check_slice_state : SliceState → Result Error SliceState
unfolding digest optional_text optional_digest
check_slice_state s = do
  execution_slice_hash ← digest s.execution_slice_hash
  materialization_plan_hash ← digest s.materialization_plan_hash
  materialization_id ← optional_text s.materialization_id
  approval_hash ← optional_digest s.approval_hash
  grant_hash ← optional_digest s.grant_hash
  binding_set_hash ← optional_digest s.binding_set_hash
  actual_delta_hash ← optional_digest s.actual_delta_hash
  scope_comparison_hash ← optional_digest s.scope_comparison_hash
  verification_hash ← optional_digest s.verification_hash
  admitted_host_instance_id ← optional_text s.admitted_host_instance_id
  reserved_at ← optional_text s.reserved_at
  admitted_at ← optional_text s.admitted_at
  committed_at ← optional_text s.committed_at
  reconciled_at ← optional_text s.reconciled_at
  failed_at ← optional_text s.failed_at
  ok (record {
    execution_slice_hash = execution_slice_hash;
    sequence_index = s.sequence_index;
    materialization_plan_hash = materialization_plan_hash;
    status = s.status;
    materialization_id = materialization_id;
    approval_hash = approval_hash;
    grant_hash = grant_hash;
    binding_set_hash = binding_set_hash;
    admitted_host_instance_id = admitted_host_instance_id;
    actual_delta_hash = actual_delta_hash;
    scope_comparison_hash = scope_comparison_hash;
    verification_hash = verification_hash;
    reserved_at = reserved_at;
    admitted_at = admitted_at;
    committed_at = committed_at;
    reconciled_at = reconciled_at;
    failed_at = failed_at;
  })

-- the indexes are n, n + 1, ... in the order of the states
unfoldable pub indexed_from : ℕ → List SliceState → Bool
indexed_from n [] = true
indexed_from n (s ∷ ss) = nat_eq s.sequence_index n && indexed_from (suc n) ss

-- the states have the hashes of the definition, in its order
unfoldable pub follows : List SliceState → List String → Bool
follows [] [] = true
follows [] (_ ∷ _) = false
follows (_ ∷ _) [] = false
follows (s ∷ ss) (h ∷ hs) = s.execution_slice_hash == h && follows ss hs

abbrev pub binds_plan : String → SliceState → Bool
binds_plan plan s = s.materialization_plan_hash == plan

-- both or neither
abbrev both_or_neither : Option ConvergenceOutcome → Option String → Bool
both_or_neither none none = true
both_or_neither (some _) (some _) = true
both_or_neither _ _ = false

-- StoredExecutionSagaV2.__post_init__
unfoldable pub check_stored : StoredSaga → Result Error StoredSaga
unfolding optional_digest indexed_from follows
check_stored s = do
  guard (nat_eq (length s.slice_states) (length s.definition.ordered_slice_hashes)) value_error
  guard (indexed_from 0 s.slice_states) value_error
  guard (follows s.slice_states s.definition.ordered_slice_hashes) value_error
  guard (all (binds_plan s.definition.materialization_plan_hash) s.slice_states) value_error
  result_hash ← optional_digest s.convergence_result_hash
  guard (both_or_neither s.convergence_outcome result_hash) value_error
  ok (record s { convergence_result_hash = result_hash })
