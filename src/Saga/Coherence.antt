-- ===== src/Saga/Coherence.antt =====
-- The status of a Saga agrees with the statuses of its Slices.
pub mod Steps
use dsp.Prelude.{
  ℕ, ◌≤◌, String, ◌≡◌, ◌≢◌, refl, Option, none, some, List, [], ◌∷◌, ◌++◌, map, Bool, true, false,
  inl, inr, arith, All, All-append_right, is_none, all, any, tally, tally-append, all-append,
  any-append, not, if◌then◌else◌, ◌&&◌, ◌||◌, ◌+◌,
}
use dsp.Contracts.{unique}
use dsp.Saga.State.{
  SagaStatus, ready, executing, partially_committed, convergence_pending, failed,
  ConvergenceOutcome, converged, SliceStatus, not_started, admission_reserved, admitted,
  host_committed, reconciling, failed_before_commit, verify_failed, scope_breach, blocked,
  SliceState, StoredSaga,
}
use dsp.Saga.Normal.{normalised}
use dsp.Saga.Rebuilt.{block}
use dsp.Saga.Lifecycle.{HasEvidence, Present, Absent}
use dsp.Saga.Distinct.{name, is_busy, idle_siblings}
use dsp.Saga.Transitions.Checks.{is_not_started, is_active}
use dsp.Saga.Transitions.Verification.{slice_succeeded}
use dsp.Saga.Transitions.Closing.{has_delta}
use dsp.Saga.Moves.{
  reserved, verified, Advance, admit, commit, begin, compare, Break, abandon, breach, reject,
  IsCandidate, Move, reserve, advance, pass, break, converge, broken_status, passed_status,
}

abbrev pub slice_fresh : SliceState → Bool
slice_fresh s = is_not_started s.status

-- a Slice that failed
abbrev pub is_broken : SliceStatus → Bool
is_broken failed_before_commit = true
is_broken verify_failed = true
is_broken scope_breach = true
is_broken _ = false

abbrev pub slice_broken : SliceState → Bool
slice_broken s = is_broken s.status

-- a Slice that failed, or that a failure blocked
abbrev is_halted : SliceStatus → Bool
is_halted blocked = true
is_halted other = is_broken other

abbrev pub slice_halted : SliceState → Bool
slice_halted s = is_halted s.status

abbrev pub Unresolved : StoredSaga → Type 0
Unresolved u = (u.convergence_outcome ≡ none) × (u.convergence_result_hash ≡ none)

abbrev pub CoherentAt : SagaStatus → StoredSaga → Type 0
CoherentAt ready u = (all slice_fresh u.slice_states ≡ true) × Unresolved u
CoherentAt executing u =
    (tally is_busy u.slice_states ≤ 1)
    × (tally slice_halted u.slice_states ≡ 0)
    × (all slice_succeeded u.slice_states ≡ false)
    × Unresolved u
CoherentAt convergence_pending u = (all slice_succeeded u.slice_states ≡ true) × Unresolved u
CoherentAt SagaStatus.succeeded u =
    (all slice_succeeded u.slice_states ≡ true)
    × (u.convergence_outcome ≡ some converged)
    × Present u.convergence_result_hash
CoherentAt SagaStatus.diverged u =
    (all slice_succeeded u.slice_states ≡ true)
    × (u.convergence_outcome ≡ some ConvergenceOutcome.diverged)
    × Present u.convergence_result_hash
CoherentAt failed u =
    (tally is_busy u.slice_states ≡ 0) × (tally slice_broken u.slice_states ≡ 1) × Unresolved u
CoherentAt partially_committed u =
    (tally is_busy u.slice_states ≡ 0)
    × (tally slice_broken u.slice_states ≡ 1)
    × (any has_delta u.slice_states ≡ true)
    × Unresolved u

abbrev pub Coherent : StoredSaga → Type 0
Coherent u = CoherentAt u.status u

-- a failure leaves the later Slices idle and unbroken
pub idle-block : (ss : List SliceState) → tally is_busy (map block ss) ≡ tally is_busy ss
idle-block [] = refl
idle-block (s ∷ ss) = ground (arith, idle-block ss)

pub broken-block :
    (ss : List SliceState) → tally slice_broken (map block ss) ≡ tally slice_broken ss
broken-block [] = refl
broken-block (s ∷ ss) = ground (arith, broken-block ss)

pub broken-le-halted : (ss : List SliceState) → tally slice_broken ss ≤ tally slice_halted ss
broken-le-halted [] = omega arith
broken-le-halted (s ∷ ss) = ground (arith, broken-le-halted ss)

pub fresh_idle : (ss : List SliceState) → all slice_fresh ss ≡ true → tally is_busy ss ≡ 0
fresh_idle [] h = refl
fresh_idle (s ∷ ss) h = ground (arith, fresh_idle ss)

pub fresh_unhalted : (ss : List SliceState) → all slice_fresh ss ≡ true → tally slice_halted ss ≡ 0
fresh_unhalted [] h = refl
fresh_unhalted (s ∷ ss) h = ground (arith, fresh_unhalted ss)

pub succeeded_idle : (ss : List SliceState) → all slice_succeeded ss ≡ true → tally is_busy ss ≡ 0
succeeded_idle [] h = refl
succeeded_idle (s ∷ ss) h = ground (arith, succeeded_idle ss)

-- a Saga is executing while one of its Slices is active
pub executing_of_busy :
    (u : StoredSaga) (pre post : List SliceState) (s : SliceState)
    → u.slice_states ≡ pre ++ (s ∷ post)
    → is_busy s ≡ true
    → Coherent u
    → u.status ≡ executing
executing_of_busy u pre post s e b h = ground (
  arith,
  fresh_idle u.slice_states,
  succeeded_idle u.slice_states,
  tally-append is_busy pre (s ∷ post),
)
