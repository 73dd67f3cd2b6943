-- ===== src/Saga/Revision.antt =====
-- The optimistic concurrency control of a Saga: `saga_revision` and `expected_revision`.
use dsp.Prelude.{
  ◌+◌, ◌≤◌, String, ◌≡◌, ◌≢◌, refl, ◌∙◌, List, [], ◌∷◌, ok, err, ◌⊎◌, inl, inr, arith, ℤ, pos,
  negsuc, length, Result,
}
use dsp.Prelude.Json.{Json}
use dsp.Contracts.{Error}
use dsp.Saga.State.{StoredSaga}
use dsp.Saga.Moves.{Move, reserve, advance, pass, break, converge}
use dsp.Saga.Requests.{Request, expected_revision, perform, after, serve}
use dsp.Saga.Refinement.{perform_refines_Move}
use dsp.Saga.Transitions.Checks.{require_cas, require_revision}

require_cas-eq-ok :
    (u : StoredSaga) (rev : ℤ) → require_cas u rev ≡ ok tt → rev ≡ pos u.saga_revision
unfolding require_cas require_revision
require_cas-eq-ok u (pos n) e = ground arith
require_cas-eq-ok u (negsuc n) e = cc

pub Move-next :
    {u v : StoredSaga}
    → Move u v
    → (v.saga_revision ≡ u.saga_revision + 1) × (v.definition ≡ u.definition)
Move-next (reserve pre post s at e c q) = rw q (refl, refl)
Move-next (advance pre post s t e a q) = rw q (refl, refl)
Move-next (pass pre post s r at e st c q) = rw q (refl, refl)
Move-next (break pre post s t e b q) = rw q (refl, refl)
Move-next (converge o c p f a q) = rw q (refl, refl)

module _ (canonical_hash : Json → String) where
  -- A request that is accepted either changes nothing, or it named the current revision, which goes
  -- up by one while the definition stays as it is.
  pub perform-revision :
      (u : StoredSaga) (r : Request) {v : StoredSaga}
      → perform canonical_hash u r ≡ ok v
      → (v ≡ u)
        ⊎ ((expected_revision r ≡ pos u.saga_revision)
            × (v.saga_revision ≡ u.saga_revision + 1)
            × (v.definition ≡ u.definition))
  perform-revision u r e = elim (perform_refines_Move canonical_hash u r e) [
    | inl replay ↦ inl replay
    | inr step ↦
        let (n, d) = Move-next step.1 in
        inr (require_cas-eq-ok u (expected_revision r) step.0, n, d)
  ]

  -- No update is lost. After a request that changed the Saga, another request that expects the same
  -- revision changes nothing, even if it is accepted.
  pub perform-stale :
      (u : StoredSaga) (r r' : Request) {v w : StoredSaga}
      → perform canonical_hash u r ≡ ok v
      → v ≢ u
      → expected_revision r' ≡ expected_revision r
      → perform canonical_hash v r' ≡ ok w
      → w ≡ v
  perform-stale u r r' {v} {w} e moved same e' =
      ground (arith, perform-revision u r e, perform-revision v r' e')

  after-revision :
      (u : StoredSaga) (r : Request)
      → let v = after u (perform canonical_hash u r) in
        (u.saga_revision ≤ v.saga_revision)
        × (v.saga_revision ≤ u.saga_revision + 1)
        × (v.definition ≡ u.definition)
  after-revision u r = go (perform canonical_hash u r) refl
    where
      go :
          (x : Result Error StoredSaga)
          → perform canonical_hash u r ≡ x
          → let v = after u x in
            (u.saga_revision ≤ v.saga_revision)
            × (v.saga_revision ≤ u.saga_revision + 1)
            × (v.definition ≡ u.definition)
      go (err _) e = (omega arith, omega arith, refl)
      go (ok v) e = ground (arith, perform-revision u r e)

  -- The revision of a Saga never goes back and counts at most the requests it was given, and its
  -- definition never changes.
  pub serve-revision :
      (u : StoredSaga) (requests : List Request)
      → let v = serve canonical_hash u requests in
        (u.saga_revision ≤ v.saga_revision)
        × (v.saga_revision ≤ u.saga_revision + length requests)
        × (v.definition ≡ u.definition)
  unfolding serve
  serve-revision u [] = (omega arith, omega arith, refl)
  serve-revision u (r ∷ rs) =
      let (low, high, d) = after-revision u r in
      let (lows, highs, ds) = serve-revision (after u (perform canonical_hash u r)) rs in
      (omega arith, omega arith, ds ∙ d)
