-- ===== src/Saga/Normal.antt =====
-- A Slice state that passed its constructor is stripped, and passes again unchanged.
use dsp.Prelude.{◌≡◌, ok, err, ◌⊎◌, arith}
use dsp.Prelude.Text.{strip}
use dsp.Prelude.Strip.{strip_idem}
use dsp.Contracts.{value_error}
use dsp.Contracts.Normal.{
  strip?, strip?_idem, optional_text_cases, digest_cases, optional_digest_cases,
}
use dsp.Saga.State.{SliceState, check_slice_state}

abbrev pub normalised : SliceState → SliceState
normalised s = record {
  execution_slice_hash = strip s.execution_slice_hash;
  sequence_index = s.sequence_index;
  materialization_plan_hash = strip s.materialization_plan_hash;
  status = s.status;
  materialization_id = strip? s.materialization_id;
  approval_hash = strip? s.approval_hash;
  grant_hash = strip? s.grant_hash;
  binding_set_hash = strip? s.binding_set_hash;
  admitted_host_instance_id = strip? s.admitted_host_instance_id;
  actual_delta_hash = strip? s.actual_delta_hash;
  scope_comparison_hash = strip? s.scope_comparison_hash;
  verification_hash = strip? s.verification_hash;
  reserved_at = strip? s.reserved_at;
  admitted_at = strip? s.admitted_at;
  committed_at = strip? s.committed_at;
  reconciled_at = strip? s.reconciled_at;
  failed_at = strip? s.failed_at;
}

abbrev pub IsNormal : SliceState → Type 0
IsNormal s = normalised s ≡ s

pub check_slice_state_cases :
    (s : SliceState)
    → (check_slice_state s ≡ ok (normalised s)) ⊎ (check_slice_state s ≡ err value_error)
unfolding check_slice_state
check_slice_state_cases s = ground (
  arith,
  digest_cases s.execution_slice_hash,
  digest_cases s.materialization_plan_hash,
  optional_text_cases s.materialization_id,
  optional_digest_cases s.approval_hash,
  optional_digest_cases s.grant_hash,
  optional_digest_cases s.binding_set_hash,
  optional_digest_cases s.actual_delta_hash,
  optional_digest_cases s.scope_comparison_hash,
  optional_digest_cases s.verification_hash,
  optional_text_cases s.admitted_host_instance_id,
  optional_text_cases s.reserved_at,
  optional_text_cases s.admitted_at,
  optional_text_cases s.committed_at,
  optional_text_cases s.reconciled_at,
  optional_text_cases s.failed_at,
)

pub check_slice_state-eq-ok :
    (s : SliceState) {t : SliceState} → check_slice_state s ≡ ok t → t ≡ normalised s
check_slice_state-eq-ok s h = ground (arith, check_slice_state_cases s)

pub normalised-IsNormal : (s : SliceState) → IsNormal (normalised s)
normalised-IsNormal s = simp (strip_idem, strip?_idem)

pub check_slice_state-IsNormal :
    (s : SliceState) {t : SliceState} → check_slice_state s ≡ ok t → IsNormal t
check_slice_state-IsNormal s h = rw (check_slice_state-eq-ok s h) (normalised-IsNormal s)
