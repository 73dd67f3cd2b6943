-- ===== src/Saga/Replay.antt =====
-- Idempotence of the transitions: a request that was accepted may be sent again.
pub mod Steps
pub mod Requests
use dsp.Prelude.{
  ℕ, suc, String, ◌≡◌, ◌≢◌, refl, sym, ap, subst, ◌∙◌, Option, none, some, List, [], ◌∷◌, ◌++◌, map,
  Bool, true, false, ok, err, Result, ◌>>=◌, ◌>>◌, guard, ◌==◌, ◌&&◌, ◌||◌, eq_iff, eq_refl, inl,
  inr, ◌⊎◌, arith, All, All-append_right, length, elem, if◌then◌else◌, Option-cases, Bool-cases, ℤ,
  >>=-eq-ok, guard_then, all, is_none,
}
use dsp.Prelude.Json.{Json}
use dsp.Prelude.Text.{strip, is_digest}
use dsp.Contracts.{Error, saga_conflict, unique}
use dsp.Saga.State.{
  StoredSaga, SliceState, SliceStatus, verify_failed, ConvergenceOutcome, converged,
}
use dsp.Saga.Evidence.{
  Authority, ActualDelta, ScopeResult, VerificationResult, validate_actual_delta_integrity,
  compute_scope_comparison_hash, compute_semantic_verification_hash,
}
use dsp.Saga.Normal.{IsNormal}
use dsp.Saga.Locate.{find_slice}
use dsp.Saga.Distinct.{name, unique-middle, map-name-append}
use dsp.Saga.Invariant.{IsSound, after-IsSound}
use dsp.Saga.Requests.{
  Request, reserve, confirm, commit, begin, scope, verify, fail, converge, perform,
}
use dsp.Saga.Fresh.{
  reserve_fresh-eq-ok, confirm_fresh-eq-ok, commit_fresh-eq-ok, begin_fresh-eq-ok,
  scope_fresh-eq-ok, verification_fresh-eq-ok, fail_fresh-eq-ok, convergence_fresh-eq-ok,
}
use dsp.Saga.Rebuilt.{block}
use dsp.Saga.Moves.{
  reserved, confirmed, committed, begun, compared, breached, verified, abandoned, closed_by,
}
use dsp.Saga.Transitions.Checks.{state_index, state_at, is_reconciling, is_failed_before_commit}
use dsp.Saga.Transitions.Admission.{
  reserve_slice_admission, confirm_slice_admitted, record_host_commit, authority_matches_state,
  authority_joins,
}
use dsp.Saga.Transitions.Verification.{
  begin_reconciliation, record_scope_result, record_verification_result, valid_task,
}
use dsp.Saga.Transitions.Closing.{
  fail_slice_before_commit, record_convergence_outcome, same_outcome,
}

state_index-middle :
    (pre post : List SliceState) (t : SliceState) (h : String)
    → elem h (map name pre) ≡ false
    → name t ≡ h
    → state_index (pre ++ (t ∷ post)) h ≡ ok (length pre)
unfolding state_index
state_index-middle [] post t h e n = rw n (rw (eq_refl h) refl)
state_index-middle (p ∷ pre) post t h e n =
    let rest = state_index-middle pre post t h in
    ground (arith, eq_iff (name p) h, eq_iff h (name p))

state_at-middle :
    (pre post : List SliceState) (t : SliceState) → state_at (pre ++ (t ∷ post)) (length pre) ≡ ok t
unfolding state_at
state_at-middle [] post t = refl
state_at-middle (p ∷ pre) post t = state_at-middle pre post t

-- a transition finds the Slice that it splits a sound Saga at
pub run_at :
    (v : StoredSaga) (pre post : List SliceState) (t : SliceState) (h : String)
    (f : ℕ → SliceState → Result Error StoredSaga)
    → IsSound v
    → v.slice_states ≡ pre ++ (t ∷ post)
    → name t ≡ h
    → (do i ← state_index v.slice_states h; s ← state_at v.slice_states i; f i s) ≡ f (length pre) t
run_at v pre post t h f w split n =
    let names : unique (map name pre ++ (name t ∷ map name post)) ≡ true =
      rw (sym (map-name-append pre (t ∷ post)), sym split, w.named) w.distinct in
    let (l, _) = unique-middle (map name pre) (name t) (map name post) names in
    rw (split, state_index-middle pre post t h (rw n at l) n, state_at-middle pre post t) refl

-- the Slice at a split of a sound Saga is stripped
pub slice_IsNormal :
    (u : StoredSaga) (pre post : List SliceState) (s : SliceState)
    → IsSound u
    → u.slice_states ≡ pre ++ (s ∷ post)
    → IsNormal s
slice_IsNormal u pre post s w split =
    let n = rw split at w.normal in let r = All-append_right IsNormal pre (s ∷ post) n in r.0

-- the text fields of an authority are stripped, as its constructor leaves them
abbrev pub CanonicalAuthority : Authority → Type 0
CanonicalAuthority a =
    (strip a.materialization_id ≡ a.materialization_id)
    × (strip a.approval_hash ≡ a.approval_hash)
    × (strip a.grant_hash ≡ a.grant_hash)
    × (strip a.binding_set_hash ≡ a.binding_set_hash)
    × (strip a.host_instance_id ≡ a.host_instance_id)
    × (strip a.admitted_at ≡ a.admitted_at)

pub authority_matches-confirmed :
    (u : StoredSaga) (s : SliceState) (a : Authority)
    → CanonicalAuthority a
    → IsNormal s
    → authority_joins u s a ≡ true
    → authority_matches_state a (confirmed s a) ≡ true
unfolding authority_joins authority_matches_state
authority_matches-confirmed u s a (c₀, c₁, c₂, c₃, c₄, c₅) n j =
    let plan = ap (λ (x : SliceState). x.materialization_plan_hash) n in
    let same : s.materialization_plan_hash ≡ a.materialization_plan_hash =
      ground (arith, eq_iff a.materialization_plan_hash s.materialization_plan_hash) in
    rw (c₀, plan, same, c₁, c₂, c₃, c₄, c₅) (simp eq_refl)

-- where the transition found the Slice `s`, and left the Saga as it is
pub same_slice :
    (u v : StoredSaga) (pre post : List SliceState) (s : SliceState)
    → u.slice_states ≡ pre ++ (s ∷ post)
    → v ≡ u
    → v.slice_states ≡ pre ++ (s ∷ post)
same_slice u v pre post s split e = rw e split

pub converge_again :
    (u : StoredSaga) (outcome : ConvergenceOutcome) (result_hash : String) (rev : ℤ)
    → is_digest result_hash ≡ true
    → strip result_hash ≡ result_hash
    → let v = closed_by u outcome result_hash in
      record_convergence_outcome v outcome result_hash rev ≡ ok v
unfolding record_convergence_outcome
converge_again u converged h rev d c = rw d (rw c (rw (eq_refl h) refl))
converge_again u ConvergenceOutcome.diverged h rev d c = rw d (rw c (rw (eq_refl h) refl))
