-- ===== src/Saga/Transitions/Verification.antt =====
-- Reconciliation of a committed Slice: scope comparison and semantic verification.
use dsp.Prelude.{
  ℕ, String, none, some, List, [], ◌∷◌, map, Result, ok, err, ◌>>=◌, ◌>>◌, guard, not, ◌==◌,
  if◌then◌else◌, Bool, true, false, ◌&&◌, all, set, ℤ, is_none,
}
use dsp.Prelude.Json.{Json}
use dsp.Contracts.{Error, saga_conflict, saga_integrity_invalid}
use dsp.Saga.State.{
  executing, partially_committed, convergence_pending, reconciling, verify_failed, SliceStatus,
  SliceState, StoredSaga, check_slice_state,
}
use dsp.Saga.Evidence.{
  ScopeResult, within_scope, VerificationStatus, passed, TaskResult, VerificationResult,
  compute_scope_comparison_hash, compute_task_result_hash, compute_semantic_verification_hash,
}
use dsp.Saga.Transitions.Checks.{
  is_host_committed, is_reconciling, is_succeeded, recorded_as, state_index, state_at, require_cas,
  assignment_task_ids,
}
use dsp.Saga.Transitions.Rebuild.{rebuild, with_state, blocked_after}

-- begin_reconciliation_transition, past the replay test
unfoldable pub begin_fresh : StoredSaga → ℕ → SliceState → ℤ → Result Error StoredSaga
begin_fresh stored index state expected_revision = do
  require_cas stored expected_revision
  guard (is_host_committed state.status) saga_conflict
  updated ← check_slice_state (record state { status = reconciling })
  with_state stored index updated none

unfoldable pub begin_reconciliation : StoredSaga → String → ℤ → Result Error StoredSaga
unfolding begin_fresh
begin_reconciliation stored h expected_revision = do
  index ← state_index stored.slice_states h
  state ← state_at stored.slice_states index
  elim (is_reconciling state.status) [
    | true ↦ ok stored
    | false ↦ begin_fresh stored index state expected_revision
  ]

-- the two outcomes of a scope comparison
unfoldable pub record_scope : StoredSaga → ℕ → SliceState → ScopeResult → Result Error StoredSaga
record_scope stored index state r = elim r.status [
  | within_scope ↦ do
    updated ← check_slice_state (record state { scope_comparison_hash = some r.comparison_hash })
    with_state stored index updated none
  | _ ↦ do
    failed_state ← check_slice_state (record state {
      status = SliceStatus.scope_breach;
      scope_comparison_hash = some r.comparison_hash;
    })
    states ← blocked_after stored.slice_states index failed_state
    rebuild stored (some partially_committed) (some states) none none true
]

-- record_scope_result_transition, past the replay test
unfoldable pub scope_fresh : StoredSaga → ℕ → SliceState → ScopeResult → ℤ → Result Error StoredSaga
unfolding record_scope
scope_fresh stored index state r expected_revision = do
  require_cas stored expected_revision
  guard (is_reconciling state.status) saga_conflict
  guard
      (recorded_as state.actual_delta_hash r.actual_delta_hash
        && r.approved_scope_hash == stored.definition.approved_scope_hash)
      saga_integrity_invalid
  record_scope stored index state r

unfoldable pub record_scope_result :
    (Json → String) → StoredSaga → ScopeResult → ℤ → Result Error StoredSaga
unfolding scope_fresh
record_scope_result canonical_hash stored r expected_revision = do
  guard (r.comparison_hash == compute_scope_comparison_hash canonical_hash r) saga_integrity_invalid
  index ← state_index stored.slice_states r.execution_slice_hash
  state ← state_at stored.slice_states index
  elim state.scope_comparison_hash [
    | some h ↦ if h == r.comparison_hash then ok stored else err saga_conflict
    | none ↦ scope_fresh stored index state r expected_revision
  ]

abbrev pub is_passed : VerificationStatus → Bool
is_passed passed = true
is_passed _ = false

abbrev pub task_passed : TaskResult → Bool
task_passed t = is_passed t.status

abbrev pub slice_succeeded : SliceState → Bool
slice_succeeded s = is_succeeded s.status

-- equality of two tuples of texts
abbrev pub same_texts : List String → List String → Bool
same_texts [] [] = true
same_texts [] (_ ∷ _) = false
same_texts (_ ∷ _) [] = false
same_texts (x ∷ xs) (y ∷ ys) = x == y && same_texts xs ys

-- the branch for a PASSED verification
unfoldable pub record_passed :
    StoredSaga → ℕ → SliceState → VerificationResult → String → Result Error StoredSaga
record_passed stored index state r reconciled_at = do
  guard (all task_passed r.task_results) saga_integrity_invalid
  succeeded_state ← check_slice_state (record state {
    status = SliceStatus.succeeded;
    verification_hash = some r.verification_hash;
    reconciled_at = some reconciled_at;
  })
  let states = set stored.slice_states index succeeded_state
  rebuild stored (some (if all slice_succeeded states then convergence_pending else executing))
      (some states) none none true

-- the branch for any other verification
unfoldable pub record_failed :
    StoredSaga → ℕ → SliceState → VerificationResult → String → Result Error StoredSaga
record_failed stored index state r reconciled_at = do
  failed_state ← check_slice_state (record state {
    status = verify_failed;
    verification_hash = some r.verification_hash;
    reconciled_at = some reconciled_at;
  })
  states ← blocked_after stored.slice_states index failed_state
  rebuild stored (some partially_committed) (some states) none none true

-- record_verification_result_transition, past the replay test
unfoldable pub verification_fresh :
    StoredSaga → ℕ → SliceState → VerificationResult → ℤ → String → Result Error StoredSaga
unfolding record_passed record_failed
verification_fresh stored index state r expected_revision reconciled_at = do
  require_cas stored expected_revision
  guard (is_reconciling state.status) saga_conflict
  guard (not (is_none state.scope_comparison_hash)) saga_conflict
  guard
      (r.changeset_hash == stored.definition.changeset_hash
        && recorded_as state.actual_delta_hash r.actual_delta_hash)
      saga_integrity_invalid
  expected_tasks ← assignment_task_ids stored.definition r.execution_slice_hash
  guard (same_texts (map (λ (t : TaskResult). t.validation_task_id) r.task_results) expected_tasks)
      saga_integrity_invalid
  elim (is_passed r.status) [
    | true ↦ record_passed stored index state r reconciled_at
    | false ↦ record_failed stored index state r reconciled_at
  ]

-- the task result has the hash of its body
abbrev pub valid_task : (Json → String) → TaskResult → Bool
valid_task canonical_hash t = t.task_result_hash == compute_task_result_hash canonical_hash t

unfoldable pub record_verification_result :
    (Json → String) → StoredSaga → VerificationResult → ℤ → String → Result Error StoredSaga
unfolding verification_fresh
record_verification_result canonical_hash stored r expected_revision reconciled_at = do
  guard (r.verification_hash == compute_semantic_verification_hash canonical_hash r)
      saga_integrity_invalid
  guard (all (valid_task canonical_hash) r.task_results) saga_integrity_invalid
  index ← state_index stored.slice_states r.execution_slice_hash
  state ← state_at stored.slice_states index
  elim state.verification_hash [
    | some h ↦
        if h == r.verification_hash && recorded_as state.reconciled_at reconciled_at
        then ok stored
        else err saga_conflict
    | none ↦ verification_fresh stored index state r expected_revision reconciled_at
  ]
