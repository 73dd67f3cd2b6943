-- ===== src/Saga/Order/Failure.antt =====
-- A Saga whose dependencies point forward fails only where nothing was committed.
use dsp.Prelude.{
  String, ◌≡◌, refl, ap, ◌∙◌, List, [], ◌∷◌, ◌++◌, map, true, false, arith, all, all-append, inl,
  inr, Bool-cases, any, any-append, Result, ok, err, tally-append, All, All-append_right,
}
use dsp.Prelude.Json.{Json}
use dsp.Contracts.{unique, Error}
use dsp.Saga.Definition.{Definition}
use dsp.Saga.State.{
  SliceState, StoredSaga, SliceStatus, SagaStatus, ready, executing, failed, ConvergenceOutcome,
  converged,
}
use dsp.Saga.Coherence.{Coherent, Unresolved, slice_fresh}
use dsp.Saga.Distinct.{is_busy}
use dsp.Saga.Invariant.{IsSound}
use dsp.Saga.Lifecycle.{HasEvidence}
use dsp.Saga.Moves.{
  Move, reserve, advance, pass, break, converge, Break, abandon, breach, reject, reserved, verified,
  passed_status, broken_status, abandoned,
}
use dsp.Saga.Rebuilt.{block}
use dsp.Saga.Order.{is_forward, in_order, in_order-middle, in_order-around, in_order-fresh}
use dsp.Saga.Transitions.Verification.{slice_succeeded}
use dsp.Saga.Transitions.Closing.{has_delta, final_status}
use dsp.Saga.Terminal.{Advance-is_busy, Break-is_busy}
use dsp.Saga.Invariant.{after-IsSound}
use dsp.Saga.Invariant.Initial.{initial_saga-IsSound, initial_saga-definition, initial_saga-ready}
use dsp.Saga.Revision.{Move-next}
use dsp.Saga.Order.Candidate.{candidate_is_next}
use dsp.Saga.Requests.{Request, perform, after, serve}
use dsp.Saga.Refinement.{perform_refines_Move}
use dsp.Saga.Transitions.Admission.{initial_saga}

abbrev OrderAt : SagaStatus → List SliceState → Type 0
OrderAt ready states = in_order states ≡ true
OrderAt executing states = in_order states ≡ true
OrderAt failed states = any has_delta states ≡ false
OrderAt _ states = Unit

-- an active Saga is in order, and a failed one has no commit
abbrev IsOrdered : StoredSaga → Type 0
IsOrdered u = OrderAt u.status u.slice_states

busy_open :
    (u : StoredSaga) (pre post : List SliceState) (s : SliceState)
    → u.slice_states ≡ pre ++ (s ∷ post)
    → Coherent u
    → is_busy s ≡ true
    → u.status ≡ executing
busy_open u pre post s e c b =
    let n = tally-append is_busy pre (s ∷ post) in
    let m = all-append slice_succeeded pre (s ∷ post) in
    let k = all-append slice_fresh pre (s ∷ post) in ground arith

-- around an active Slice
around_busy :
    (u : StoredSaga) (pre post : List SliceState) (s : SliceState)
    → u.slice_states ≡ pre ++ (s ∷ post)
    → Coherent u
    → IsOrdered u
    → is_busy s ≡ true
    → (u.status ≡ executing) × (all slice_succeeded pre ≡ true) × (all slice_fresh post ≡ true)
around_busy u pre post s e c o b =
    let st = busy_open u pre post s e c b in
    let o' : in_order u.slice_states ≡ true = rw st at o in
    let (x, y) = in_order-around pre post s (rw e at o') (ground arith) (ground arith) in (st, x, y)

succeeded-delta :
    (pre : List SliceState)
    → all slice_succeeded pre ≡ true
    → All HasEvidence pre
    → any has_delta pre ≡ false
    → pre ≡ []
succeeded-delta [] a h n = refl
succeeded-delta (p ∷ pre) a h n = let k = h.0 in ground arith

blocked-delta :
    (post : List SliceState)
    → all slice_fresh post ≡ true
    → All HasEvidence post
    → any has_delta (map block post) ≡ false
blocked-delta [] a h = refl
blocked-delta (p ∷ post) a h =
    let rest = blocked-delta post (ground arith) h.1 in let k = h.0 in ground arith

Break-Ordered :
    (pre post : List SliceState) (s t : SliceState)
    → all slice_succeeded pre ≡ true
    → all slice_fresh post ≡ true
    → All HasEvidence (pre ++ (s ∷ post))
    → Break s t
    → OrderAt (broken_status t.status pre) (pre ++ (t ∷ map block post))
Break-Ordered pre post s t done new h (breach r e n w q) = rw q tt
Break-Ordered pre post s t done new h (reject r at e n w q) = rw q tt
Break-Ordered pre post s t done new h (abandon at e d q) =
    let right = All-append_right HasEvidence pre (s ∷ post) h in
    let blocked = blocked-delta post new right.1 in
    let a = any-append has_delta pre (abandoned s at ∷ map block post) in
    elim (Bool-cases (any has_delta pre)) [
      | inl some' ↦ rw q (rw some' tt)
      | inr none' ↦ rw q (rw none' (ground arith))
    ]

passed-Ordered :
    (states : List SliceState) → in_order states ≡ true → OrderAt (passed_status states) states
passed-Ordered states h = elim (Bool-cases (all slice_succeeded states)) [
  | inl done ↦ rw done tt
  | inr more ↦ rw more h
]

closed-Ordered :
    (outcome : ConvergenceOutcome) (states : List SliceState)
    → OrderAt (final_status outcome) states
closed-Ordered converged states = tt
closed-Ordered ConvergenceOutcome.diverged states = tt

Move-Ordered :
    {u v : StoredSaga}
    → Move u v
    → IsSound u
    → is_forward u.definition ≡ true
    → IsOrdered u
    → IsOrdered v
Move-Ordered {u} (reserve pre post s at e c q) w f o =
    let live : in_order u.slice_states ≡ true = (let k = c.opened in ground arith) in
    let (x, y) = candidate_is_next u pre post s w f e c (rw e at live) in
    rw q (in_order-middle pre post (reserved s at) x y)
Move-Ordered {u} (advance pre post s t e a q) w f o =
    let (st, x, y) = around_busy u pre post s e w.coherent o (Advance-is_busy a) in
    rw q (rw st (in_order-middle pre post t x y))
Move-Ordered {u} (pass pre post s r at e st c q) w f o =
    let (_, x, y) = around_busy u pre post s e w.coherent o (rw st refl) in
    let t = verified SliceStatus.succeeded s r at in
    rw q (passed-Ordered (pre ++ (t ∷ post)) (in_order-middle pre post t x y))
Move-Ordered {u} (break pre post s t e b q) w f o =
    let (_, x, y) = around_busy u pre post s e w.coherent o (Break-is_busy b) in
    rw q (Break-Ordered pre post s t x y (rw e at w.evidence) b)
Move-Ordered {u} (converge outcome c p k a q) w f o = rw q (closed-Ordered outcome u.slice_states)

initial-Ordered :
    (canonical_hash : Json → String) (d : Definition) {u : StoredSaga}
    → initial_saga canonical_hash d ≡ ok u
    → IsSound u
    → IsOrdered u
initial-Ordered canonical_hash d {u} e w =
    let st = initial_saga-ready canonical_hash d e in
    let c : (all slice_fresh u.slice_states ≡ true) × Unresolved u = rw st at w.coherent in
    rw st (in_order-fresh u.slice_states c.0)

module _ (canonical_hash : Json → String) where
  after-Ordered :
      (u : StoredSaga) (r : Request)
      → IsSound u
      → is_forward u.definition ≡ true
      → IsOrdered u
      → let v = after u (perform canonical_hash u r) in
        IsOrdered v × (is_forward v.definition ≡ true)
  after-Ordered u r w f o = go (perform canonical_hash u r) refl
    where
      go :
          (x : Result Error StoredSaga)
          → perform canonical_hash u r ≡ x
          → IsOrdered (after u x) × (is_forward (after u x).definition ≡ true)
      go (err _) e = (o, f)
      go (ok v) e = elim (perform_refines_Move canonical_hash u r e) [
        | inl replay ↦ rw replay (o, f)
        | inr step ↦ (Move-Ordered step.1 w f o, ap is_forward (Move-next step.1).1 ∙ f)
      ]

  serve-Ordered :
      (u : StoredSaga) (requests : List Request)
      → IsSound u
      → is_forward u.definition ≡ true
      → IsOrdered u
      → IsOrdered (serve canonical_hash u requests)
  unfolding serve
  serve-Ordered u [] w f o = o
  serve-Ordered u (r ∷ rs) w f o =
      let (o', f') = after-Ordered u r w f o in
      serve-Ordered (after u (perform canonical_hash u r)) rs (after-IsSound canonical_hash u r w)
        f' o'

-- FAILED means that nothing was committed. Of a Saga that was created from a definition with
-- distinct Slices, each of which stands after its predecessors, and that reads as failed after any
-- requests, no Slice has an actual delta.
pub serve-failed :
    (canonical_hash : Json → String) (d : Definition) (requests : List Request) {u : StoredSaga}
    → unique d.ordered_slice_hashes ≡ true
    → is_forward d ≡ true
    → initial_saga canonical_hash d ≡ ok u
    → (serve canonical_hash u requests).status ≡ failed
    → any has_delta (serve canonical_hash u requests).slice_states ≡ false
serve-failed canonical_hash d requests {u} distinct forward e h =
    let w = initial_saga-IsSound canonical_hash d distinct e in
    let f = ap is_forward (initial_saga-definition canonical_hash d e) ∙ forward in
    let o = serve-Ordered canonical_hash u requests w f (initial-Ordered canonical_hash d e w) in
    rw h at o
