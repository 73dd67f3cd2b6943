-- ===== src/Saga/Replay/Requests.antt =====
-- A request that was accepted, sent again.
use dsp.Prelude.{String, ◌≡◌, ◌≢◌, ok, err, ℤ, arith, inl, inr, Option-cases, ap, ◌∙◌, eq_iff}
use dsp.Prelude.Json.{Json}
use dsp.Prelude.Text.{strip}
use dsp.Contracts.{saga_conflict}
use dsp.Saga.State.{StoredSaga}
use dsp.Saga.Distinct.{name}
use dsp.Saga.Locate.{find_slice}
use dsp.Saga.Fresh.{reserve_fresh-eq-ok}
use dsp.Saga.Moves.{reserved}
use dsp.Saga.Invariant.{IsSound, after-IsSound}
use dsp.Saga.Requests.{
  Request, reserve, confirm, commit, begin, scope, verify, fail, converge, perform,
}
use dsp.Saga.Replay.{CanonicalAuthority, run_at, slice_IsNormal}
use dsp.Saga.Replay.Steps.{
  reserve-replay, confirm-replay, commit-replay, begin-replay, scope-replay, verify-replay,
  fail-replay, converge-replay,
}
use dsp.Saga.Transitions.Admission.{reserve_slice_admission}

-- the texts of a request that a Saga records are stripped
abbrev pub IsCanonical : Request → Type 0
IsCanonical (reserve _ _ at) = strip at ≡ at
IsCanonical (confirm a _) = CanonicalAuthority a
IsCanonical (commit d _ at) = (strip d.actual_delta_hash ≡ d.actual_delta_hash) × (strip at ≡ at)
IsCanonical (begin _ _) = Unit
IsCanonical (scope r _) = strip r.comparison_hash ≡ r.comparison_hash
IsCanonical (verify r _ at) = (strip r.verification_hash ≡ r.verification_hash) × (strip at ≡ at)
IsCanonical (fail _ _ at) = strip at ≡ at
IsCanonical (converge _ result_hash _) = strip result_hash ≡ result_hash

-- the request with another expected revision
abbrev pub expecting : ℤ → Request → Request
expecting n (reserve h _ at) = reserve h n at
expecting n (confirm a _) = confirm a n
expecting n (commit d _ at) = commit d n at
expecting n (begin h _) = begin h n
expecting n (scope r _) = scope r n
expecting n (verify r _ at) = verify r n at
expecting n (fail h _ at) = fail h n at
expecting n (converge outcome result_hash _) = converge outcome result_hash n

-- An exact retry is harmless. A sound Saga that accepted a request, whose texts are stripped, accepts
-- the same request again right afterwards, whatever revision it expects, and is not changed by it.
pub perform-replay :
    (canonical_hash : Json → String) (u : StoredSaga) (r : Request) (n : ℤ) {v : StoredSaga}
    → IsSound u
    → IsCanonical r
    → perform canonical_hash u r ≡ ok v
    → perform canonical_hash v (expecting n r) ≡ ok v
unfolding perform
perform-replay ch u r n {v} w c e = go r c e (rw e at (after-IsSound ch u r w))
  where
    go :
        (q : Request)
        → IsCanonical q
        → perform ch u q ≡ ok v
        → IsSound v
        → perform ch v (expecting n q) ≡ ok v
    go (reserve h m at) c e w' = reserve-replay u m w w' h at n c e
    go (confirm a m) c e w' = confirm-replay u m w w' a n c e
    go (commit d m at) c e w' = commit-replay u m w w' ch d at n c.0 c.1 e
    go (begin h m) c e w' = begin-replay u m w w' h n e
    go (scope r m) c e w' = scope-replay u m w w' ch r n c e
    go (verify r m at) c e w' = verify-replay u m w w' ch r at n c.0 c.1 e
    go (fail h m at) c e w' = fail-replay u m w w' h at n c e
    go (converge o h m) c e w' = converge-replay u m w w' o h n c e

-- A reservation whose time has white space around it is not idempotent: the Saga records the
-- stripped time but compares the raw one, so that the accepted request is refused when it is sent
-- again.
pub reserve-padded :
    (canonical_hash : Json → String) (u : StoredSaga) (h at : String) (m n : ℤ) {v : StoredSaga}
    → IsSound u
    → strip at ≢ at
    → perform canonical_hash u (reserve h m at) ≡ ok v
    → v ≢ u
    → perform canonical_hash v (reserve h n at) ≡ err saga_conflict
unfolding perform reserve_slice_admission
reserve-padded ch u h at m n {v} w padded e moved =
    let w' = rw e at (after-IsSound ch u (reserve h m at) w) in
    let f = find_slice u.slice_states h _ e in
    elim (Option-cases f.slice.reserved_at) [
      | inl fresh ↦
          let (_, _, _, _, _, out) =
            reserve_fresh-eq-ok u f.pre f.post f.slice f.split m h at (rw fresh at f.run) in
          let k = slice_IsNormal u f.pre f.post f.slice w f.split in
          run_at v f.pre f.post (reserved f.slice at) h _ w'
            (ap (λ (x : StoredSaga). x.slice_states) out) (ap name k ∙ f.named)
          ∙ ground (arith, eq_iff (strip at) at)
      | inr (t, replay) ↦ ground arith
    ]
