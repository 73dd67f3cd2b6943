-- ===== src/Saga/Persistence.antt =====
-- Evidence that a Slice has recorded is never changed or dropped.
use dsp.Prelude.{
  String, ◌≡◌, refl, Option, none, List, [], ◌∷◌, ◌++◌, map, ok, err, inl, inr, arith, ◌⊎◌, All,
  All-append_right, Bool-cases, Result,
}
use dsp.Prelude.Json.{Json}
use dsp.Contracts.{Error}
use dsp.Saga.State.{SliceState, StoredSaga, SliceStatus, not_started, reconciling}
use dsp.Saga.Transitions.Checks.{is_not_started}
use dsp.Saga.Normal.{normalised, IsNormal}
use dsp.Saga.Rebuilt.{block}
use dsp.Saga.Lifecycle.{HasEvidence}
use dsp.Saga.Moves.{
  Advance, admit, commit, begin, compare, Break, abandon, breach, reject, Move, reserve, advance,
  pass, break, converge, reserved, verified,
}
use dsp.Saga.Evidence.{VerificationResult}
use dsp.Saga.Invariant.{IsSound, after-IsSound}
use dsp.Saga.Requests.{Request, perform, after, serve}
use dsp.Saga.Refinement.{perform_refines_Move}

-- what was recorded is still recorded
abbrev pub Persists : Option String → Option String → Type 0
Persists o p = (o ≡ none) ⊎ (p ≡ o)

-- the evidence of a Slice that its successor holds as well
pub record Preserves (s t : SliceState) : Type 0 where
  pub name : t.execution_slice_hash ≡ s.execution_slice_hash
  pub plan : t.materialization_plan_hash ≡ s.materialization_plan_hash
  pub materialization_id : Persists s.materialization_id t.materialization_id
  pub approval_hash : Persists s.approval_hash t.approval_hash
  pub grant_hash : Persists s.grant_hash t.grant_hash
  pub binding_set_hash : Persists s.binding_set_hash t.binding_set_hash
  pub host : Persists s.admitted_host_instance_id t.admitted_host_instance_id
  pub actual_delta_hash : Persists s.actual_delta_hash t.actual_delta_hash
  pub scope_comparison_hash : Persists s.scope_comparison_hash t.scope_comparison_hash
  pub verification_hash : Persists s.verification_hash t.verification_hash
  pub reserved_at : Persists s.reserved_at t.reserved_at
  pub admitted_at : Persists s.admitted_at t.admitted_at
  pub committed_at : Persists s.committed_at t.committed_at
  pub reconciled_at : Persists s.reconciled_at t.reconciled_at
  pub failed_at : Persists s.failed_at t.failed_at

-- the same, for the states of a Saga one by one
abbrev pub AllPreserve : List SliceState → List SliceState → Type 0
AllPreserve [] [] = Unit
AllPreserve [] (_ ∷ _) = ⊥
AllPreserve (_ ∷ _) [] = ⊥
AllPreserve (s ∷ ss) (t ∷ ts) = Preserves s t × AllPreserve ss ts

Preserves-refl : (s : SliceState) → Preserves s s
Preserves-refl s = ground arith

Preserves-trans : (r s t : SliceState) → Preserves r s → Preserves s t → Preserves r t
Preserves-trans r s t p q = ground arith

AllPreserve-refl : (ss : List SliceState) → AllPreserve ss ss
AllPreserve-refl [] = tt
AllPreserve-refl (s ∷ ss) = (Preserves-refl s, AllPreserve-refl ss)

AllPreserve-trans :
    (rs ss ts : List SliceState) → AllPreserve rs ss → AllPreserve ss ts → AllPreserve rs ts
AllPreserve-trans [] [] [] p q = tt
AllPreserve-trans [] [] (_ ∷ _) p q = q
AllPreserve-trans [] (_ ∷ _) ts p q = absurd p
AllPreserve-trans (_ ∷ _) [] ts p q = absurd p
AllPreserve-trans (r ∷ rs) (s ∷ ss) [] p q = q
AllPreserve-trans (r ∷ rs) (s ∷ ss) (t ∷ ts) p q =
    (Preserves-trans r s t p.0 q.0, AllPreserve-trans rs ss ts p.1 q.1)

AllPreserve-append :
    (pre ss ts : List SliceState) → AllPreserve ss ts → AllPreserve (pre ++ ss) (pre ++ ts)
AllPreserve-append [] ss ts h = h
AllPreserve-append (p ∷ pre) ss ts h = (Preserves-refl p, AllPreserve-append pre ss ts h)

-- stripping a stripped state changes nothing
same : (s : SliceState) → IsNormal s → Preserves s (normalised s)
same s n = rw n (Preserves-refl s)

Advance-Preserves : {s t : SliceState} → Advance s t → IsNormal s → HasEvidence s → Preserves s t
Advance-Preserves {s} (admit a e q) n h = ground (arith, same s n)
Advance-Preserves {s} (commit d at e q) n h = ground (arith, same s n)
Advance-Preserves {s} (begin e q) n h = ground (arith, same s n)
Advance-Preserves {s} (compare r e c w q) n h = ground (arith, same s n)

Break-Preserves : {s t : SliceState} → Break s t → IsNormal s → HasEvidence s → Preserves s t
Break-Preserves {s} (abandon at e d q) n h = ground (arith, same s n)
Break-Preserves {s} (breach r e c w q) n h = ground (arith, same s n)
Break-Preserves {s} (reject r at e c w q) n h = ground (arith, same s n)

reserved-Preserves :
    (s : SliceState) (at : String)
    → s.status ≡ not_started
    → IsNormal s
    → HasEvidence s
    → Preserves s (reserved s at)
reserved-Preserves s at e n h = ground (arith, same s n)

verified-Preserves :
    (s : SliceState) (r : VerificationResult) (at : String)
    → s.status ≡ reconciling
    → IsNormal s
    → HasEvidence s
    → Preserves s (verified SliceStatus.succeeded s r at)
verified-Preserves s r at e n h = ground (arith, same s n)

block-Preserves : (s : SliceState) → IsNormal s → Preserves s (block s)
block-Preserves s n = elim (Bool-cases (is_not_started s.status)) [
  | inl new ↦ rw new (ground (arith, same s n))
  | inr old ↦ rw old (Preserves-refl s)
]

map-block-AllPreserve : (ss : List SliceState) → All IsNormal ss → AllPreserve ss (map block ss)
map-block-AllPreserve [] n = tt
map-block-AllPreserve (s ∷ ss) n = (block-Preserves s n.0, map-block-AllPreserve ss n.1)

replace-AllPreserve :
    (pre post post' : List SliceState) (s t : SliceState) {states states' : List SliceState}
    → states ≡ pre ++ (s ∷ post)
    → states' ≡ pre ++ (t ∷ post')
    → (IsNormal s → HasEvidence s → Preserves s t)
    → (All IsNormal post → AllPreserve post post')
    → All IsNormal states
    → All HasEvidence states
    → AllPreserve states states'
replace-AllPreserve pre post post' s t e e' f g n h =
    let n' = All-append_right IsNormal pre (s ∷ post) (rw e at n) in
    let h' = All-append_right HasEvidence pre (s ∷ post) (rw e at h) in
    rw e (rw e' (AllPreserve-append pre (s ∷ post) (t ∷ post') (f n'.0 h'.0, g n'.1)))

Move-AllPreserve :
    {u v : StoredSaga} → Move u v → IsSound u → AllPreserve u.slice_states v.slice_states
Move-AllPreserve (reserve pre post s at e c q) w =
    replace-AllPreserve pre post post s (reserved s at) e (rw q refl)
      (reserved-Preserves s at c.fresh) (λ _. AllPreserve-refl post) w.normal w.evidence
Move-AllPreserve (advance pre post s t e a q) w =
    replace-AllPreserve pre post post s t e (rw q refl) (Advance-Preserves a)
      (λ _. AllPreserve-refl post) w.normal w.evidence
Move-AllPreserve (pass pre post s r at e st c q) w =
    replace-AllPreserve pre post post s (verified SliceStatus.succeeded s r at) e (rw q refl)
      (verified-Preserves s r at st) (λ _. AllPreserve-refl post) w.normal w.evidence
Move-AllPreserve (break pre post s t e b q) w =
    replace-AllPreserve pre post (map block post) s t e (rw q refl) (Break-Preserves b)
      (map-block-AllPreserve post) w.normal w.evidence
Move-AllPreserve {u} (converge o c p f a q) w = rw q (AllPreserve-refl u.slice_states)

module _ (canonical_hash : Json → String) where
  after-AllPreserve :
      (u : StoredSaga) (r : Request)
      → IsSound u
      → AllPreserve u.slice_states (after u (perform canonical_hash u r)).slice_states
  after-AllPreserve u r w = go (perform canonical_hash u r) refl
    where
      go :
          (x : Result Error StoredSaga)
          → perform canonical_hash u r ≡ x
          → AllPreserve u.slice_states (after u x).slice_states
      go (err _) e = AllPreserve-refl u.slice_states
      go (ok v) e = elim (perform_refines_Move canonical_hash u r e) [
        | inl replay ↦ rw replay (AllPreserve-refl u.slice_states)
        | inr step ↦ Move-AllPreserve step.1 w
      ]

  -- Evidence is append-only. Whatever requests a sound Saga is given, a digest, an identity or a
  -- time that one of its Slices holds is held unchanged by the same Slice afterwards.
  pub serve-AllPreserve :
      (u : StoredSaga) (requests : List Request)
      → IsSound u
      → AllPreserve u.slice_states (serve canonical_hash u requests).slice_states
  unfolding serve
  serve-AllPreserve u [] w = AllPreserve-refl u.slice_states
  serve-AllPreserve u (r ∷ rs) w =
      let next = after u (perform canonical_hash u r) in
      AllPreserve-trans u.slice_states next.slice_states (serve canonical_hash next rs).slice_states
        (after-AllPreserve u r w) (serve-AllPreserve next rs (after-IsSound canonical_hash u r w))
