-- ===== src/Saga/Terminal.antt =====
-- The end of a Saga: its final statuses, and what a Saga that succeeded has shown.
use dsp.Prelude.{
  ◌≤◌, String, ◌≡◌, refl, some, List, [], ◌∷◌, ◌++◌, ok, err, inl, inr, arith, Bool, true, false,
  All, all, all-append, tally, tally-append, Result,
}
use dsp.Prelude.Json.{Json}
use dsp.Contracts.{Error, unique}
use dsp.Saga.Definition.{Definition}
use dsp.Saga.State.{
  SagaStatus, partially_committed, failed, converged, SliceStatus, SliceState, StoredSaga,
}
use dsp.Saga.Distinct.{is_busy}
use dsp.Saga.Lifecycle.{HasEvidence, Present, Admitted, Committed, Verified}
use dsp.Saga.Coherence.{Coherent, slice_fresh}
use dsp.Saga.Invariant.{IsSound, serve-IsSound}
use dsp.Saga.Invariant.Initial.{initial_saga-IsSound}
use dsp.Saga.Moves.{
  Advance, admit, commit, begin, compare, Break, abandon, breach, reject, Move, reserve, advance,
  pass, break, converge,
}
use dsp.Saga.Requests.{Request, perform, after, serve}
use dsp.Saga.Refinement.{perform_refines_Move}
use dsp.Saga.Transitions.Admission.{initial_saga}
use dsp.Saga.Transitions.Verification.{slice_succeeded}

-- a Saga that no request is meant to change
abbrev pub is_final : SagaStatus → Bool
is_final SagaStatus.succeeded = true
is_final SagaStatus.diverged = true
is_final failed = true
is_final partially_committed = true
is_final _ = false

pub Advance-is_busy : {s t : SliceState} → Advance s t → is_busy s ≡ true
Advance-is_busy (admit a e q) = rw e refl
Advance-is_busy (commit d at e q) = rw e refl
Advance-is_busy (begin e q) = rw e refl
Advance-is_busy (compare r e c w q) = rw e refl

pub Break-is_busy : {s t : SliceState} → Break s t → is_busy s ≡ true
Break-is_busy (abandon at e d q) = ground arith
Break-is_busy (breach r e c w q) = rw e refl
Break-is_busy (reject r at e c w q) = rw e refl

-- a final Saga has no active Slice
no_busy :
    (u : StoredSaga) (pre post : List SliceState) (s : SliceState)
    → u.slice_states ≡ pre ++ (s ∷ post)
    → Coherent u
    → is_final u.status ≡ true
    → is_busy s ≡ true
    → ⊥
no_busy u pre post s e c f b =
    let n = tally-append is_busy pre (s ∷ post) in
    let m = all-append slice_succeeded pre (s ∷ post) in ground arith

final_is_stuck : {u v : StoredSaga} → Move u v → Coherent u → is_final u.status ≡ true → ⊥
final_is_stuck (reserve pre post s at e k q) c f = let o = k.opened in ground arith
final_is_stuck {u} (advance pre post s t e a q) c f = no_busy u pre post s e c f (Advance-is_busy a)
final_is_stuck {u} (pass pre post s r at e st k q) c f = no_busy u pre post s e c f (rw st refl)
final_is_stuck {u} (break pre post s t e b q) c f = no_busy u pre post s e c f (Break-is_busy b)
final_is_stuck (converge o h p k a q) c f = ground arith

module _ (canonical_hash : Json → String) where
  after-final :
      (u : StoredSaga) (r : Request)
      → Coherent u
      → is_final u.status ≡ true
      → after u (perform canonical_hash u r) ≡ u
  after-final u r c f = go (perform canonical_hash u r) refl
    where
      go : (x : Result Error StoredSaga) → perform canonical_hash u r ≡ x → after u x ≡ u
      go (err _) e = refl
      go (ok v) e = elim (perform_refines_Move canonical_hash u r e) [
        | inl replay ↦ replay
        | inr step ↦ absurd (final_is_stuck step.1 c f)
      ]

  -- A sound Saga that has succeeded, diverged, failed or been partially committed is never changed
  -- again, whatever requests it is given.
  pub serve-final :
      (u : StoredSaga) (requests : List Request)
      → IsSound u
      → is_final u.status ≡ true
      → serve canonical_hash u requests ≡ u
  unfolding serve
  serve-final u [] w f = refl
  serve-final u (r ∷ rs) w f = rw (after-final u r w.coherent f) (serve-final u rs w f)

-- a Slice that has been through every step
abbrev pub Complete : SliceState → Type 0
Complete s =
    (s.status ≡ SliceStatus.succeeded)
    × Present s.reserved_at
    × Admitted s
    × Committed s
    × Present s.scope_comparison_hash
    × Verified s

complete :
    (ss : List SliceState) → all slice_succeeded ss ≡ true → All HasEvidence ss → All Complete ss
complete [] a h = tt
complete (s ∷ ss) a h = (ground arith, complete ss (ground arith) h.1)

-- A Saga that was created from a definition with distinct Slices, and that reads as succeeded after
-- any requests, had every Slice reserved, admitted, committed, compared and verified, and its
-- recorded outcome is convergence with a result hash.
pub succeeded-Complete :
    (canonical_hash : Json → String) (d : Definition) (requests : List Request) {u : StoredSaga}
    → unique d.ordered_slice_hashes ≡ true
    → initial_saga canonical_hash d ≡ ok u
    → (serve canonical_hash u requests).status ≡ SagaStatus.succeeded
    → let v = serve canonical_hash u requests in
      All Complete v.slice_states
      × (v.convergence_outcome ≡ some converged)
      × Present v.convergence_result_hash
succeeded-Complete canonical_hash d requests {u} distinct e h =
    let w =
      serve-IsSound canonical_hash u requests (initial_saga-IsSound canonical_hash d distinct e) in
    let (a, o, p) = rw h at w.coherent in (complete _ a w.evidence, o, p)

-- of a sound Saga that reads as succeeded
pub IsSound-Complete :
    (u : StoredSaga) → IsSound u → u.status ≡ SagaStatus.succeeded → All Complete u.slice_states
IsSound-Complete u w h = let (a, _, _) = rw h at w.coherent in complete u.slice_states a w.evidence

fresh_idle : (ss : List SliceState) → all slice_fresh ss ≡ true → tally is_busy ss ≡ 0
fresh_idle [] h = refl
fresh_idle (s ∷ ss) h = let rest = fresh_idle ss in ground arith

done_idle : (ss : List SliceState) → all slice_succeeded ss ≡ true → tally is_busy ss ≡ 0
done_idle [] h = refl
done_idle (s ∷ ss) h = let rest = done_idle ss in ground arith

Coherent-tally : (u : StoredSaga) → Coherent u → tally is_busy u.slice_states ≤ 1
Coherent-tally u c =
    let new = fresh_idle u.slice_states in let done = done_idle u.slice_states in ground arith

-- Two Slices are never in flight together: of a Saga that was created from a definition with
-- distinct Slices, at most one Slice is reserved, admitted, committed or reconciling at any time.
pub serve-exclusive :
    (canonical_hash : Json → String) (d : Definition) (requests : List Request) {u : StoredSaga}
    → unique d.ordered_slice_hashes ≡ true
    → initial_saga canonical_hash d ≡ ok u
    → tally is_busy (serve canonical_hash u requests).slice_states ≤ 1
serve-exclusive canonical_hash d requests {u} distinct e =
    let w =
      serve-IsSound canonical_hash u requests (initial_saga-IsSound canonical_hash d distinct e) in
    Coherent-tally _ w.coherent
