-- ===== src/Saga/Lifecycle.antt =====
-- The evidence that a Slice holds is decided by its status, through the whole life of a Saga.
use dsp.Prelude.{
  String, ◌≡◌, ◌≢◌, refl, Option, none, List, [], ◌∷◌, ◌++◌, map, true, false, arith, All,
  All-append, All-append_left, All-append_right, is_none,
}
use dsp.Saga.State.{
  SliceStatus, not_started, admission_reserved, admitted, host_committed, reconciling, succeeded,
  failed_before_commit, verify_failed, scope_breach, blocked, SliceState, StoredSaga,
}
use dsp.Saga.Evidence.{VerificationResult}
use dsp.Saga.Rebuilt.{block}
use dsp.Saga.Moves.{
  reserved, verified, Advance, admit, commit, begin, compare, Break, abandon, breach, reject, Move,
  reserve, advance, pass, break, converge,
}

abbrev pub Present : Option String → Type 0
Present o = is_none o ≡ false

abbrev pub Absent : Option String → Type 0
Absent o = is_none o ≡ true

-- the Gateway's authority is recorded whole, or not at all
abbrev pub Admitted : SliceState → Type 0
Admitted s =
    Present s.materialization_id
    × Present s.approval_hash
    × Present s.grant_hash
    × Present s.binding_set_hash
    × Present s.admitted_host_instance_id
    × Present s.admitted_at

abbrev pub Unadmitted : SliceState → Type 0
Unadmitted s =
    Absent s.materialization_id
    × Absent s.approval_hash
    × Absent s.grant_hash
    × Absent s.binding_set_hash
    × Absent s.admitted_host_instance_id
    × Absent s.admitted_at

abbrev pub Committed : SliceState → Type 0
Committed s = Present s.actual_delta_hash × Present s.committed_at

abbrev pub Uncommitted : SliceState → Type 0
Uncommitted s = Absent s.actual_delta_hash × Absent s.committed_at × Absent s.scope_comparison_hash

abbrev pub Verified : SliceState → Type 0
Verified s = Present s.verification_hash × Present s.reconciled_at

abbrev pub Unverified : SliceState → Type 0
Unverified s = Absent s.verification_hash × Absent s.reconciled_at

-- the evidence of a Slice in each status
abbrev pub EvidenceAt : SliceStatus → SliceState → Type 0
EvidenceAt not_started s =
    Absent s.reserved_at × Unadmitted s × Uncommitted s × Unverified s × Absent s.failed_at
EvidenceAt blocked s =
    Absent s.reserved_at × Unadmitted s × Uncommitted s × Unverified s × Absent s.failed_at
EvidenceAt admission_reserved s =
    Present s.reserved_at × Unadmitted s × Uncommitted s × Unverified s × Absent s.failed_at
EvidenceAt admitted s =
    Present s.reserved_at × Admitted s × Uncommitted s × Unverified s × Absent s.failed_at
EvidenceAt host_committed s =
    Present s.reserved_at
    × Admitted s
    × Committed s
    × Absent s.scope_comparison_hash
    × Unverified s
    × Absent s.failed_at
EvidenceAt reconciling s =
    Present s.reserved_at × Admitted s × Committed s × Unverified s × Absent s.failed_at
EvidenceAt succeeded s =
    Present s.reserved_at × Admitted s × Committed s × Present s.scope_comparison_hash × Verified s
EvidenceAt verify_failed s =
    Present s.reserved_at × Admitted s × Committed s × Present s.scope_comparison_hash × Verified s
EvidenceAt scope_breach s =
    Present s.reserved_at
    × Admitted s
    × Committed s
    × Present s.scope_comparison_hash
    × Unverified s
EvidenceAt failed_before_commit s =
    Present s.reserved_at × Present s.failed_at × Uncommitted s × Unverified s

abbrev pub HasEvidence : SliceState → Type 0
HasEvidence s = EvidenceAt s.status s

reserved-HasEvidence :
    (s : SliceState) (at : String)
    → s.status ≡ not_started
    → HasEvidence s
    → HasEvidence (reserved s at)
reserved-HasEvidence s at e h = ground arith

Advance-HasEvidence : {s t : SliceState} → Advance s t → HasEvidence s → HasEvidence t
Advance-HasEvidence (admit a e q) h = ground arith
Advance-HasEvidence (commit d at e q) h = ground arith
Advance-HasEvidence (begin e q) h = ground arith
Advance-HasEvidence (compare r e n w q) h = ground arith

verified-HasEvidence :
    (s : SliceState) (r : VerificationResult) (at : String)
    → s.status ≡ reconciling
    → s.scope_comparison_hash ≢ none
    → HasEvidence s
    → HasEvidence (verified succeeded s r at)
verified-HasEvidence s r at e c h = ground arith

Break-HasEvidence : {s t : SliceState} → Break s t → HasEvidence s → HasEvidence t
Break-HasEvidence (abandon at e d q) h = ground arith
Break-HasEvidence (breach r e n w q) h = ground arith
Break-HasEvidence (reject r at e c w q) h = ground arith

block-HasEvidence : (s : SliceState) → HasEvidence s → HasEvidence (block s)
block-HasEvidence s h = ground arith

map-block-HasEvidence : (ss : List SliceState) → All HasEvidence ss → All HasEvidence (map block ss)
map-block-HasEvidence [] h = tt
map-block-HasEvidence (s ∷ ss) h = (block-HasEvidence s h.0, map-block-HasEvidence ss h.1)

-- replacing one state, and perhaps the states after it
All-replace :
    (pre post post' : List SliceState) (s t : SliceState) {states states' : List SliceState}
    → states ≡ pre ++ (s ∷ post)
    → states' ≡ pre ++ (t ∷ post')
    → (HasEvidence s → HasEvidence t)
    → (All HasEvidence post → All HasEvidence post')
    → All HasEvidence states
    → All HasEvidence states'
All-replace pre post post' s t e e' f g h =
    let all' = rw e at h in
    let right = All-append_right HasEvidence pre (s ∷ post) all' in
    rw e' (
      All-append HasEvidence pre (t ∷ post') (All-append_left HasEvidence pre (s ∷ post) all')
        (f right.0, g right.1))

-- One step of a Saga keeps the evidence of every Slice in line with its status: a reservation, the
-- Gateway's authority, the Host commit, the scope comparison and the verification are recorded
-- exactly when the Slice has come that far.
pub Move-HasEvidence :
    {u v : StoredSaga} → Move u v → All HasEvidence u.slice_states → All HasEvidence v.slice_states
Move-HasEvidence (reserve pre post s at e c q) h =
    All-replace pre post post s (reserved s at) e (rw q refl) (reserved-HasEvidence s at c.fresh)
      (λ x. x) h
Move-HasEvidence (advance pre post s t e a q) h =
    All-replace pre post post s t e (rw q refl) (Advance-HasEvidence a) (λ x. x) h
Move-HasEvidence (pass pre post s r at e st c q) h =
    All-replace pre post post s (verified succeeded s r at) e (rw q refl)
      (verified-HasEvidence s r at st c) (λ x. x) h
Move-HasEvidence (break pre post s t e b q) h =
    All-replace pre post (map block post) s t e (rw q refl) (Break-HasEvidence b)
      (map-block-HasEvidence post) h
Move-HasEvidence (converge o c p f a q) h = rw q h
