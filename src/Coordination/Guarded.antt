-- ===== src/Coordination/Guarded.antt =====
-- The invariant of the coordinator's world, and what each single call keeps of it.
use dsp.Prelude.{
  String, ℤ, ◌≡◌, refl, ap, sym, subst, Option, none, some, Result, ok, err, eq_refl, List, true,
  arith,
}
use dsp.Prelude.Json.{Json}
use dsp.Contracts.{Error, unique}
use dsp.Saga.Definition.{Definition}
use dsp.Saga.State.{StoredSaga}
use dsp.Saga.Evidence.{ActualDelta, VerificationResult}
use dsp.Saga.Requests.{Request, perform}
use dsp.Saga.Transitions.Admission.{create_initial_saga}
use dsp.Saga.Store.{create_saga, transition, transition_of, assign}
use dsp.Saga.Store.Laws.{HoldsSound, transition-HoldsSound, create_saga-HoldsSound}
use dsp.Dispatch.Intent.{Intent, DispatchStatus}
use dsp.Dispatch.Store.{Mark, mark, prepare, target}
use dsp.Dispatch.Changes.{mark-eq-ok}
use dsp.Dispatch.Laws.{mark-items}
use dsp.Coordination.Effects.{
  World, ask, call, as_port_error, saga, create, prepares, marks, as_error,
}
use dsp.Coordination.Contracts.{DispatchContext, Job, Ports}
use dsp.Coordination.Hoare.{Ends, Ensures}

-- an intent that the store holds as dispatched, under the identity of a context
abbrev pub Durable : dsp.Dispatch.Store.Store → DispatchContext → Type 0
Durable intents ctx =
    (k : String) × (i : Intent) × (intents.items k ≡ some i)
    × (i.status ≡ DispatchStatus.dispatched)
    × (ctx.dispatch_intent_id ≡ i.dispatch_intent_id)
    × (ctx.idempotency_key ≡ i.idempotency_key)

-- A predicate on the store of intents and the outside that the store's methods keep, and the ports;
-- the Host's port has to keep it only for a job with a licence, where the intent of its command stands
-- in this very store, dispatched.
pub record Guarded {X Bundle Evidence : Type 0} (ports : Ports X Bundle Evidence)
    (Licensed : Job → Type 0) (Safe : dsp.Dispatch.Store.Store → X → Type 0) : Type 0 where
  pub prepare :
      (intents : dsp.Dispatch.Store.Store) (x : X) (i : Intent)
      → Safe intents x
      → Safe (dsp.Dispatch.Store.prepare intents i).1 x
  pub mark :
      (intents : dsp.Dispatch.Store.Store) (x : X) (m : Mark) (id : String) (n : ℤ) (at : String)
      → Safe intents x
      → Safe (dsp.Dispatch.Store.mark intents m id n at).1 x
  pub now :
      (intents : dsp.Dispatch.Store.Store) (x : X) → Safe intents x → Safe intents (ports.now x).1
  pub readiness :
      (intents : dsp.Dispatch.Store.Store) (x : X)
      → Safe intents x
      → Safe intents (ports.readiness x).1
  pub host :
      (job : Job) (ctx : DispatchContext) (intents : dsp.Dispatch.Store.Store) (x : X)
      → Licensed job
      → ctx.execution_slice_hash ≡ job.execution_slice.execution_slice_hash
      → Durable intents ctx
      → Safe intents x
      → Safe intents (ports.host job ctx x).1
  pub build_bundle :
      (job : Job) (d : ActualDelta) (intents : dsp.Dispatch.Store.Store) (x : X)
      → Safe intents x
      → Safe intents (ports.build_bundle job d x).1
  pub build_evidence :
      (job : Job) (d : ActualDelta) (v : VerificationResult) (b : Bundle)
      (intents : dsp.Dispatch.Store.Store) (x : X)
      → Safe intents x
      → Safe intents (ports.build_evidence job d v b x).1
  pub verify_convergence :
      (es : List Evidence) (intents : dsp.Dispatch.Store.Store) (x : X)
      → Safe intents x
      → Safe intents (ports.verify_convergence es x).1

module _ {X : Type 0} (Safe : dsp.Dispatch.Store.Store → X → Type 0) where
  -- every Saga of the store is sound, and the intents and the outside are safe
  abbrev pub IsFine : World X → Type 0
  IsFine w = HoldsSound w.sagas × Safe w.intents w.outside

  -- and the store holds this Saga under this id
  abbrev pub At : String → StoredSaga → World X → Type 0
  At id u w = IsFine w × (u.definition.saga_id ≡ id) × (w.sagas id ≡ some u)

  pub At-IsFine : (id : String) (u : StoredSaga) (w : World X) → At id u w → IsFine w
  At-IsFine id u w h = h.0

  pub ask-Ensures :
      {A : Type 0} (f : X → A × X) (id : String) (u : StoredSaga)
      → ((intents : dsp.Dispatch.Store.Store) (x : X) → Safe intents x → Safe intents (f x).1)
      → Ensures IsFine (At id u) (ask f) (λ _. At id u)
  unfolding ask
  ask-Ensures f id u keep w ((sound, safe), named, held) =
      ((sound, keep w.intents w.outside safe), named, held)

  pub call-Ensures :
      {A : Type 0} (f : X → Result String A × X) (id : String) (u : StoredSaga)
      → ((intents : dsp.Dispatch.Store.Store) (x : X) → Safe intents x → Safe intents (f x).1)
      → Ensures IsFine (At id u) (call f) (λ _. At id u)
  unfolding call
  call-Ensures {A = A} f id u keep w ((sound, safe), named, held) = go (f w.outside).0
    where
      go :
          (r : Result String A)
          → Ends IsFine (λ _. At id u) (as_port_error r, record w { outside = (f w.outside).1 })
      go (ok _) = ((sound, keep w.intents w.outside safe), named, held)
      go (err _) = (sound, keep w.intents w.outside safe)

  pub prepares-Ensures :
      (i : Intent) (id : String) (u : StoredSaga)
      → ((intents : dsp.Dispatch.Store.Store) (x : X)
          → Safe intents x
          → Safe (prepare intents i).1 x)
      → Ensures IsFine (At id u) (prepares i) (λ _. At id u)
  unfolding prepares
  prepares-Ensures i id u keep w ((sound, safe), named, held) = go (prepare w.intents i).0
    where
      go :
          (r : Result Error Intent)
          → Ends IsFine (λ _. At id u) (as_error r, record w { intents = (prepare w.intents i).1 })
      go (ok _) = ((sound, keep w.intents w.outside safe), named, held)
      go (err _) = (sound, keep w.intents w.outside safe)

  pub marks-Ensures :
      (m : Mark) (k : String) (n : ℤ) (at : String) (id : String) (u : StoredSaga)
      → ((intents : dsp.Dispatch.Store.Store) (x : X)
          → Safe intents x
          → Safe (mark intents m k n at).1 x)
      → Ensures IsFine
          (At id u)
          (marks m k n at)
          (λ i v. At id u v × (v.intents.items k ≡ some i) × (i.status ≡ target m))
  unfolding marks
  marks-Ensures m k n at id u keep w ((sound, safe), named, held) =
      go (mark w.intents m k n at).0 refl
    where
      go :
          (r : Result Error Intent)
          → (mark w.intents m k n at).0 ≡ r
          → Ends IsFine
              (λ i v. At id u v × (v.intents.items k ≡ some i) × (i.status ≡ target m))
              (as_error r, record w { intents = (mark w.intents m k n at).1 })
      go (ok i) e =
          let (_, _, _, out) = mark-eq-ok w.intents m k n at e in
          (
            ((sound, keep w.intents w.outside safe), named, held),
            mark-items w.intents m k n at e,
            ap (λ (x : Intent). x.status) out,
          )
      go (err _) e = (sound, keep w.intents w.outside safe)

  module _ (canonical_hash : Json → String) where
    assigned :
        (id : String) (sagas : dsp.Saga.Store.Store) (r : Result Error StoredSaga)
        → {v : StoredSaga} → (assign sagas id r).0 ≡ ok v
        → (assign sagas id r).1 id ≡ some v
    assigned id sagas (ok u) e = rw (eq_refl id) (ground arith)
    assigned id sagas (err _) e = cc

    transition-held :
        (sagas : dsp.Saga.Store.Store) (id : String) (r : Request) {v : StoredSaga}
        → (transition canonical_hash sagas id r).0 ≡ ok v
        → (transition canonical_hash sagas id r).1 id ≡ some v
    unfolding transition
    transition-held sagas id r e = go (sagas id) e
      where
        go :
            (o : Option StoredSaga) {v : StoredSaga}
            → (transition_of canonical_hash sagas id o r).0 ≡ ok v
            → (transition_of canonical_hash sagas id o r).1 id ≡ some v
        go none e = cc
        go (some u) e = assigned id sagas (perform canonical_hash u r) e

    create-held :
        (sagas : dsp.Saga.Store.Store) (d : Definition) {v : StoredSaga}
        → (create_saga canonical_hash sagas d).0 ≡ ok v
        → (create_saga canonical_hash sagas d).1 d.saga_id ≡ some v
    unfolding create_saga
    create-held sagas d e =
        assigned d.saga_id sagas (create_initial_saga canonical_hash d (sagas d.saga_id)) e

    pub saga-Ensures :
        (id key : String) (u : StoredSaga) (r : Request)
        → key ≡ id
        → Ensures IsFine (At id u) (saga canonical_hash key r) (λ v. At id v)
    unfolding saga
    saga-Ensures id key u r same w ((sound, safe), named, held) =
        subst (λ k. Ends IsFine (λ v. At id v) (saga canonical_hash k r w)) (sym same)
          (go (transition canonical_hash w.sagas id r).0 refl)
      where
        after : HoldsSound (transition canonical_hash w.sagas id r).1
        after = transition-HoldsSound canonical_hash w.sagas id r sound

        go :
            (o : Result Error StoredSaga)
            → (transition canonical_hash w.sagas id r).0 ≡ o
            → Ends IsFine
                (λ v. At id v)
                (as_error o, record w { sagas = (transition canonical_hash w.sagas id r).1 })
        go (ok v) e =
            let there = transition-held w.sagas id r e in
            ((after, safe), (after id v there).1, there)
        go (err _) e = (after, safe)

    pub create-Ensures :
        (d : Definition)
        → unique d.ordered_slice_hashes ≡ true
        → Ensures IsFine IsFine (create canonical_hash d) (λ v. At d.saga_id v)
    unfolding create
    create-Ensures d distinct w (sound, safe) = go (create_saga canonical_hash w.sagas d).0 refl
      where
        after : HoldsSound (create_saga canonical_hash w.sagas d).1
        after = create_saga-HoldsSound canonical_hash w.sagas d distinct sound

        go :
            (o : Result Error StoredSaga)
            → (create_saga canonical_hash w.sagas d).0 ≡ o
            → Ends IsFine
                (λ v. At d.saga_id v)
                (as_error o, record w { sagas = (create_saga canonical_hash w.sagas d).1 })
        go (ok v) e = (
          (after, safe),
          (after d.saga_id v (create-held w.sagas d e)).1,
          create-held w.sagas d e,
        )
        go (err _) e = (after, safe)
