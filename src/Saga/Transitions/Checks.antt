-- ===== src/Saga/Transitions/Checks.antt =====
-- The guards of the transitions: revision, location of a Slice, exclusion and eligibility.
use Prim.Native.String.{count}
use Prim.Native.String
use dsp.Prelude.{
  ℕ, zero, suc, String, Option, none, some, List, [], ◌∷◌, map, Result, ok, err, ◌>>=◌, ◌>>◌, guard,
  not, ◌==◌, if◌then◌else◌, Bool, true, false, ◌&&◌, all, any, nat_eq, get_elem?, elem, ℤ, pos,
  negsuc,
}
use dsp.Prelude.Json.{Json}
use dsp.Contracts.{Error, key_error, index_error, saga_conflict, saga_integrity_invalid}
use dsp.Saga.Definition.{
  Definition, SliceDependency, SliceValidationAssignment, compute_definition_hash,
}
use dsp.Saga.State.{
  SliceStatus, not_started, admission_reserved, admitted, host_committed, reconciling,
  failed_before_commit, SliceState, StoredSaga,
}

-- `status is SliceReconciliationStatusV2.…`
abbrev pub is_not_started : SliceStatus → Bool
is_not_started not_started = true
is_not_started _ = false

abbrev pub is_reserved : SliceStatus → Bool
is_reserved admission_reserved = true
is_reserved _ = false

abbrev pub is_admitted : SliceStatus → Bool
is_admitted admitted = true
is_admitted _ = false

abbrev pub is_host_committed : SliceStatus → Bool
is_host_committed host_committed = true
is_host_committed _ = false

abbrev pub is_reconciling : SliceStatus → Bool
is_reconciling reconciling = true
is_reconciling _ = false

abbrev pub is_succeeded : SliceStatus → Bool
is_succeeded SliceStatus.succeeded = true
is_succeeded _ = false

abbrev pub is_failed_before_commit : SliceStatus → Bool
is_failed_before_commit failed_before_commit = true
is_failed_before_commit _ = false

-- _ACTIVE_SLICE_STATUSES
abbrev pub is_active : SliceStatus → Bool
is_active admission_reserved = true
is_active admitted = true
is_active host_committed = true
is_active reconciling = true
is_active _ = false

-- `field == value`, where the field may be None
abbrev pub recorded_as : Option String → String → Bool
recorded_as none value = false
recorded_as (some v) value = v == value

-- _require_revision
unfoldable pub require_revision : ℤ → Result Error ℕ
require_revision (pos n) = ok n
require_revision (negsuc n) = err saga_conflict

-- one set of texts includes another
abbrev pub includes : List String → List String → Bool
includes xs ys = all (λ y. elem y xs) ys

-- the first `n` characters
abbrev prefix : ℕ → String → String
prefix zero s = ""
prefix (suc n) String.[] = ""
prefix (suc n) (String.◌∷◌ c s) = String.◌∷◌ c (prefix n s)

-- `f"SGV2-{expected_hash[:12]}"`
unfoldable pub saga_id_of : String → String
saga_id_of hash = String.◌++◌ "SGV2-" (prefix 12 hash)

abbrev dependency_inside : List String → SliceDependency → Bool
dependency_inside hashes d =
    elem d.predecessor_slice_hash hashes && elem d.successor_slice_hash hashes

-- _definition_integrity
unfoldable pub definition_integrity : (Json → String) → Definition → Result Error (Unit {0})
unfolding compute_definition_hash saga_id_of
definition_integrity canonical_hash d = do
  let expected_hash = compute_definition_hash canonical_hash d
  guard (d.saga_definition_hash == expected_hash) saga_integrity_invalid
  guard (d.saga_id == saga_id_of expected_hash) saga_integrity_invalid
  let assigned =
      map (λ (a : SliceValidationAssignment). a.execution_slice_hash) d.slice_validation_assignments
  guard (includes assigned d.ordered_slice_hashes && includes d.ordered_slice_hashes assigned)
      saga_integrity_invalid
  guard (all (dependency_inside d.ordered_slice_hashes) d.slice_dependencies) saga_integrity_invalid

-- _state_index
unfoldable pub state_index : List SliceState → String → Result Error ℕ
state_index [] h = err saga_integrity_invalid
state_index (s ∷ ss) h =
    let rest = state_index ss h in
    if s.execution_slice_hash == h then ok 0 else do i ← rest; ok (suc i)

-- `stored.slice_states[index]`
unfoldable pub state_at : List SliceState → ℕ → Result Error SliceState
state_at states i = elim (get_elem? states i) [ none ↦ err index_error | some s ↦ ok s ]

matching_tasks : List SliceValidationAssignment → String → List (List String)
matching_tasks [] h = []
matching_tasks (a ∷ as') h =
    let rest = matching_tasks as' h in
    if a.execution_slice_hash == h then a.validation_task_ids ∷ rest else rest

-- `if len(matches) != 1: raise`
abbrev only : List (List String) → Result Error (List String)
only (tasks ∷ []) = ok tasks
only _ = err saga_integrity_invalid

-- _assignment_task_ids
unfoldable pub assignment_task_ids : Definition → String → Result Error (List String)
unfolding matching_tasks
assignment_task_ids d h = only (matching_tasks d.slice_validation_assignments h)

-- _require_cas
unfoldable pub require_cas : StoredSaga → ℤ → Result Error (Unit {0})
unfolding require_revision
require_cas stored expected_revision = do
  expected ← require_revision expected_revision
  guard (nat_eq stored.saga_revision expected) saga_conflict

abbrev pub other_active : String → SliceState → Bool
other_active h s = not (s.execution_slice_hash == h) && is_active s.status

-- _require_no_other_active
unfoldable pub require_no_other_active : StoredSaga → String → Result Error (Unit {0})
require_no_other_active stored h =
    guard (not (any (other_active h) stored.slice_states)) saga_conflict

-- the entry of the dictionary `predecessors` at a Slice
unfoldable pub predecessors : List SliceDependency → String → List String
predecessors [] h = []
predecessors (d ∷ ds) h =
    let rest = predecessors ds h in
    if d.successor_slice_hash == h then d.predecessor_slice_hash ∷ rest else rest

-- filling `predecessors` raises a KeyError at a successor that is no Slice of the Saga
unfoldable pub closed_successors : List String → List SliceDependency → Bool
closed_successors hashes ds = all (λ (d : SliceDependency). elem d.successor_slice_hash hashes) ds

-- status_by_hash[h]; the hashes are unique, so the last entry is the only one
unfoldable pub status_of : List SliceState → String → Option SliceStatus
status_of [] h = none
status_of (s ∷ ss) h =
    let rest = status_of ss h in if s.execution_slice_hash == h then some s.status else rest

-- `all(status_by_hash[item] is SUCCEEDED for item in …)`, which stops at the first failure
unfoldable pub all_predecessors_succeeded : List SliceState → List String → Result Error Bool
unfolding status_of
all_predecessors_succeeded states [] = ok true
all_predecessors_succeeded states (p ∷ ps) =
    let rest = all_predecessors_succeeded states ps in
    elim (status_of states p) [
      | none ↦ err key_error
      | some status ↦ if is_succeeded status then rest else ok false
    ]

-- the tuple `eligible`, over the Slices that are left to read
unfoldable pub eligible :
    Definition → List SliceState → List SliceState → Result Error (List String)
unfolding all_predecessors_succeeded predecessors
eligible d states [] = ok []
eligible d states (s ∷ ss) = do
  here ← elim (is_not_started s.status) [
    | true ↦
        all_predecessors_succeeded states (predecessors d.slice_dependencies s.execution_slice_hash)
    | false ↦ ok false
  ]
  rest ← eligible d states ss
  ok (if here then s.execution_slice_hash ∷ rest else rest)

abbrev pub is_first : String → List String → Bool
is_first h [] = false
is_first h (x ∷ xs) = h == x

-- _require_next_eligible
unfoldable pub require_next_eligible : StoredSaga → String → Result Error (Unit {0})
unfolding eligible closed_successors
require_next_eligible stored h = do
  let d = stored.definition
  guard (closed_successors d.ordered_slice_hashes d.slice_dependencies) key_error
  candidates ← eligible d stored.slice_states stored.slice_states
  guard (is_first h candidates) saga_conflict
