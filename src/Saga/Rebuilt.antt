-- ===== src/Saga/Rebuilt.antt =====
-- The snapshots that `_rebuild`, `_with_state` and `_blocked_after` return.
use dsp.Prelude.{
  ℕ, suc, ◌+◌, ◌≡◌, refl, Option, none, some, List, [], ◌∷◌, ◌++◌, map, ok, err, true, ◌⊎◌, inl,
  arith, length, set, set-middle, if◌then◌else◌,
}
use dsp.Contracts.{value_error}
use dsp.Contracts.Normal.{strip?, optional_digest_cases}
use dsp.Saga.State.{SagaStatus, blocked, SliceState, StoredSaga, check_stored}
use dsp.Saga.Normal.{normalised, check_slice_state_cases}
use dsp.Saga.Transitions.Checks.{is_not_started}
use dsp.Saga.Transitions.Rebuild.{rebuild, with_state, block_from, blocked_after, or_else}

abbrev pub with_hash : StoredSaga → StoredSaga
with_hash v = record v { convergence_result_hash = strip? v.convergence_result_hash }

pub check_stored_cases :
    (v : StoredSaga) → (check_stored v ≡ ok (with_hash v)) ⊎ (check_stored v ≡ err value_error)
unfolding check_stored
check_stored_cases v = ground (arith, optional_digest_cases v.convergence_result_hash)

pub check_stored-eq-ok : (v : StoredSaga) {w : StoredSaga} → check_stored v ≡ ok w → w ≡ with_hash v
check_stored-eq-ok v h = ground (arith, check_stored_cases v)

-- the snapshot after `u`, with a new status and new states
abbrev pub successor : StoredSaga → SagaStatus → List SliceState → StoredSaga
successor u status states = record u {
  saga_revision = u.saga_revision + 1;
  status = status;
  slice_states = states;
  convergence_result_hash = strip? u.convergence_result_hash;
}

pub rebuild_cases :
    (u : StoredSaga) (status : Option SagaStatus) (states : List SliceState)
    → let r = rebuild u status (some states) none none true in
      (r ≡ ok (successor u (or_else status u.status) states)) ⊎ (r ≡ err value_error)
unfolding rebuild
rebuild_cases u status states = check_stored_cases _

pub with_state_cases :
    (u : StoredSaga) (i : ℕ) (t : SliceState) (status : Option SagaStatus)
    → let r = with_state u i t status in
      (r ≡ ok (successor u (or_else status u.status) (set u.slice_states i t)))
      ⊎ (r ≡ err value_error)
unfolding with_state
with_state_cases u i t status = rebuild_cases u status (set u.slice_states i t)

-- what a failure makes of a later Slice
abbrev pub block : SliceState → SliceState
block s = if is_not_started s.status then normalised (record s { status = blocked }) else s

block_all_cases :
    (ss : List SliceState)
    → (block_from 0 ss ≡ ok (map block ss)) ⊎ (block_from 0 ss ≡ err value_error)
unfolding block_from
block_all_cases [] = inl refl
block_all_cases (s ∷ ss) =
    ground (arith, check_slice_state_cases (record s { status = blocked }), block_all_cases ss)

block_from-middle :
    (pre : List SliceState) (t : SliceState) (post : List SliceState)
    → (block_from (suc (length pre)) (pre ++ (t ∷ post)) ≡ ok (pre ++ (t ∷ map block post)))
      ⊎ (block_from (suc (length pre)) (pre ++ (t ∷ post)) ≡ err value_error)
unfolding block_from
block_from-middle [] t post = ground (arith, block_all_cases post)
block_from-middle (p ∷ pre) t post = ground (arith, block_from-middle pre t post)

pub blocked_after_cases :
    (pre : List SliceState) (s t : SliceState) (post : List SliceState)
    → let r = blocked_after (pre ++ (s ∷ post)) (length pre) t in
      (r ≡ ok (pre ++ (t ∷ map block post))) ⊎ (r ≡ err value_error)
unfolding blocked_after
blocked_after_cases pre s t post = rw set-middle (block_from-middle pre t post)
