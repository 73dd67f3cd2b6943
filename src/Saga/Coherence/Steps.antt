-- ===== src/Saga/Coherence/Steps.antt =====
-- Every step of a Saga keeps its status in agreement with its Slices.
use dsp.Prelude.{
  String, ◌≡◌, none, List, ◌∷◌, ◌++◌, map, true, false, arith, All, All-append_right, all, any,
  tally, tally-append, all-append, any-append, ◌⊎◌,
}
use dsp.Contracts.{unique}
use dsp.Saga.State.{
  executing, failed, partially_committed, reconciling, SliceStatus, ConvergenceOutcome, converged,
  SliceState, StoredSaga,
}
use dsp.Saga.Evidence.{VerificationResult}
use dsp.Saga.Rebuilt.{successor, block}
use dsp.Saga.Lifecycle.{HasEvidence}
use dsp.Saga.Distinct.{name, is_busy, idle_siblings}
use dsp.Saga.Transitions.Verification.{slice_succeeded}
use dsp.Saga.Transitions.Closing.{has_delta}
use dsp.Saga.Moves.{
  reserved, verified, Advance, admit, commit, begin, compare, Break, abandon, breach, reject,
  IsCandidate, Move, reserve, advance, pass, break, converge, broken_status, passed_status,
  closed_by,
}
use dsp.Saga.Coherence.{
  slice_broken, slice_halted, Coherent, idle-block, broken-block, executing_of_busy, fresh_unhalted,
  broken-le-halted,
}

-- the Saga `u` is split at the Slice `s`
module _ (u : StoredSaga) (pre post : List SliceState) (s : SliceState)
    (split : u.slice_states ≡ pre ++ (s ∷ post)) (coherent : Coherent u) where
  reserve-Coherent :
      (at : String)
      → unique (map name u.slice_states) ≡ true
      → IsCandidate u s
      → Coherent (successor u executing (pre ++ (reserved s at ∷ post)))
  reserve-Coherent at distinct c =
      let (l, r) = idle_siblings pre s post (rw split at distinct) (rw split at c.alone) in
      ground (
        arith,
        l,
        r,
        tally-append is_busy pre (reserved s at ∷ post),
        tally-append slice_halted pre (s ∷ post),
        fresh_unhalted u.slice_states,
        tally-append slice_halted pre (reserved s at ∷ post),
        all-append slice_succeeded pre (reserved s at ∷ post),
      )

  -- an active Slice is the only one, and no Slice has been halted
  alone_of_busy :
      is_busy s ≡ true
      → (u.status ≡ executing)
        × (tally is_busy pre ≡ 0)
        × (tally is_busy post ≡ 0)
        × (tally slice_halted pre ≡ 0)
        × (tally slice_halted post ≡ 0)
        × (u.convergence_outcome ≡ none)
        × (u.convergence_result_hash ≡ none)
  alone_of_busy b = ground (
    arith,
    executing_of_busy u pre post s split b coherent,
    tally-append is_busy pre (s ∷ post),
    tally-append slice_halted pre (s ∷ post),
  )

  busy_of_Advance : {t : SliceState} → Advance s t → (is_busy s ≡ true) × (is_busy t ≡ true)
  busy_of_Advance (admit a e q) = ground arith
  busy_of_Advance (commit d at e q) = ground arith
  busy_of_Advance (begin e q) = ground arith
  busy_of_Advance (compare r e n w q) = ground arith

  Advance-Coherent :
      (t : SliceState) → Advance s t → Coherent (successor u u.status (pre ++ (t ∷ post)))
  Advance-Coherent t a =
      let (b, b') = busy_of_Advance a in
      let (st, l, r, hl, hr, o, c) = alone_of_busy b in
      rw st (
        ground (
          arith,
          b',
          l,
          r,
          hl,
          hr,
          o,
          c,
          tally-append is_busy pre (t ∷ post),
          tally-append slice_halted pre (t ∷ post),
          all-append slice_succeeded pre (t ∷ post),
        ))

  pass-Coherent :
      (r : VerificationResult) (at : String)
      → s.status ≡ reconciling
      → let states = pre ++ (verified SliceStatus.succeeded s r at ∷ post) in
        Coherent (successor u (passed_status states) states)
  pass-Coherent r at e =
      let t = verified SliceStatus.succeeded s r at in
      let (st, l, rt, hl, hr, o, c) = alone_of_busy (ground arith) in
      ground (
        arith,
        l,
        rt,
        hl,
        hr,
        o,
        c,
        tally-append is_busy pre (t ∷ post),
        tally-append slice_halted pre (t ∷ post),
      )

  broken_of_Break :
      {t : SliceState}
      → Break s t
      → HasEvidence s
      → (is_busy s ≡ true)
        × (slice_broken t ≡ true)
        × (is_busy t ≡ false)
        × ((any has_delta pre ≡ true)
            ⊎ (has_delta t ≡ true)
            ⊎ (broken_status t.status pre ≡ failed))
        × ((broken_status t.status pre ≡ failed)
            ⊎ (broken_status t.status pre ≡ partially_committed))
  broken_of_Break (abandon at e d q) h = ground arith
  broken_of_Break (breach r e n w q) h = ground arith
  broken_of_Break (reject r at e c w q) h = ground arith

  Break-Coherent :
      (t : SliceState)
      → Break s t
      → HasEvidence s
      → Coherent (successor u (broken_status t.status pre) (pre ++ (t ∷ map block post)))
  Break-Coherent t b h =
      let (busy, broken, idle, delta, status) = broken_of_Break b h in
      let (st, l, r, hl, hr, o, c) = alone_of_busy busy in
      ground (
        arith,
        busy,
        broken,
        idle,
        delta,
        status,
        l,
        r,
        hl,
        hr,
        o,
        c,
        tally-append is_busy pre (t ∷ map block post),
        idle-block post,
        tally-append slice_broken pre (t ∷ map block post),
        broken-block post,
        broken-le-halted pre,
        broken-le-halted post,
        any-append has_delta pre (t ∷ map block post),
      )

converge-Coherent :
    (u : StoredSaga) (outcome : ConvergenceOutcome) (result_hash : String)
    → all slice_succeeded u.slice_states ≡ true
    → Coherent (closed_by u outcome result_hash)
converge-Coherent u converged c h = ground arith
converge-Coherent u ConvergenceOutcome.diverged c h = ground arith

-- One step of a Saga, with distinct Slice names and evidence that fits the statuses, keeps the
-- status of the Saga in agreement with its Slices.
pub Move-Coherent :
    {u v : StoredSaga}
    → Move u v
    → unique (map name u.slice_states) ≡ true
    → All HasEvidence u.slice_states
    → Coherent u
    → Coherent v
Move-Coherent {u} (reserve pre post s at e c q) d h coherent =
    rw q (reserve-Coherent u pre post s e coherent at d c)
Move-Coherent {u} (advance pre post s t e a q) d h coherent =
    rw q (Advance-Coherent u pre post s e coherent t a)
Move-Coherent {u} (pass pre post s r at e st c q) d h coherent =
    rw q (pass-Coherent u pre post s e coherent r at st)
Move-Coherent {u} (break pre post s t e b q) d h coherent =
    let evidence = All-append_right HasEvidence pre (s ∷ post) (rw e at h) in
    rw q (Break-Coherent u pre post s e coherent t b evidence.0)
Move-Coherent {u} (converge outcome c p f a q) d h coherent = rw q (converge-Coherent u outcome c a)
