-- ===== src/Coordination/Mirror.antt =====
-- `execute` (materialized_coordinator.py) as a whole.
use dsp.Prelude.{
  String, ◌≡◌, refl, ap, sym, ◌∙◌, subst, Option, none, some, List, [], ◌∷◌, true, false, Bool,
  Result, ok, err, ◌⊎◌, inl, inr, All,
}
use dsp.Prelude.Json.{Json}
use dsp.Contracts.{Error, unique}
use dsp.Saga.Definition.{Definition}
use dsp.Saga.State.{StoredSaga, SagaStatus}
use dsp.Saga.Store.Laws.{HoldsSound}
use dsp.Saga.Terminal.{Complete, IsSound-Complete}
use dsp.Scope.Rules.{Boundary}
use dsp.Coordination.Effects.{
  CoordinationError, World, create, call, as_port_error, pure, lift, ◌>>=◌,
}
use dsp.Coordination.Contracts.{
  CoordinationStatus, recovery_required, readiness_failed, CoordinationResult, Readiness, is_ready,
  not_ready, Job, Plan, Ports,
}
use dsp.Coordination.Execute.{definition_joins, terminal_status, active_slices, result_of}
use dsp.Coordination.Rounds.{resume, start, joined, proceed, execute}
use dsp.Coordination.Hoare.{Ends, Ensures, bind-Ensures, pure-Ensures, raise-Ensures}
use dsp.Coordination.Guarded.{Guarded, IsFine, At, create-Ensures}
use dsp.Coordination.Outcomes.{Mirrors, Final, recovers, rounds-Ensures}

module _ {X Bundle Evidence : Type 0} (canonical_hash : Json → String)
    (uuid5 : String → String → String) (owner_truth : String → Boundary → Result Error (Unit {0}))
    (ports : Ports X Bundle Evidence) (plan : Plan) where
  module _ (Licensed : Job → Type 0) (Safe : dsp.Dispatch.Store.Store → X → Type 0)
      (guarded : Guarded ports Licensed Safe) where
    readiness-Ensures :
        Ensures (IsFine Safe) (IsFine Safe) (call ports.readiness) (λ _. IsFine Safe)
    unfolding call
    readiness-Ensures w (sound, safe) = go (ports.readiness w.outside).0
      where
        go :
            (r : Result String Readiness)
            → Ends
                (IsFine Safe)
                (λ _. IsFine Safe)
                (as_port_error r, record w { outside = (ports.readiness w.outside).1 })
        go (ok _) = (sound, guarded.readiness w.intents w.outside safe)
        go (err _) = (sound, guarded.readiness w.intents w.outside safe)

    -- without a definition, no store is written
    unbuilt-Ensures :
        (e : Error) (jobs : List Job) (readiness : Readiness)
        → Ensures
            (IsFine Safe)
            (IsFine Safe)
            (proceed canonical_hash uuid5 owner_truth ports plan (err e) jobs readiness)
            (λ _. IsFine Safe)
    unfolding proceed pure ◌>>=◌ lift
    unbuilt-Ensures e jobs (not_ready ref) w h = h
    unbuilt-Ensures e jobs is_ready w h = h

    refused-Ensures :
        (e : Error) (jobs : List Job)
        → Ensures
            (IsFine Safe)
            (IsFine Safe)
            (execute canonical_hash uuid5 owner_truth ports plan (err e) jobs)
            (λ _. IsFine Safe)
    unfolding execute
    refused-Ensures e jobs =
        bind-Ensures (IsFine Safe) (λ _. IsFine Safe) (λ _. IsFine Safe) (call ports.readiness) _
          readiness-Ensures λ readiness. unbuilt-Ensures e jobs readiness

  module _ (Licensed : Job → Type 0) (Safe : dsp.Dispatch.Store.Store → X → Type 0)
      (guarded : Guarded ports Licensed Safe) (d : Definition) (jobs : List Job)
      (licences : All Licensed jobs) where
    abbrev Fine : World X → Type 0
    Fine = IsFine Safe

    abbrev Held : StoredSaga → World X → Type 0
    Held = At Safe d.saga_id

    abbrev Ended : CoordinationResult → World X → Type 0
    Ended = Final canonical_hash uuid5 owner_truth ports plan Licensed Safe guarded d.saga_id

    recovery :
        (u : StoredSaga) (active ref : Option String)
        → Ensures Fine (Held u) (pure (result_of u recovery_required active ref none)) Ended
    recovery u active ref = pure-Ensures Fine Ended _ λ w h.
        recovers canonical_hash uuid5 owner_truth ports plan Licensed Safe guarded d.saga_id u
          active ref w h

    resume-Ensures :
        (u : StoredSaga) (status : SagaStatus) (active : List String)
        → Ensures Fine
            (Held u)
            (resume canonical_hash uuid5 owner_truth ports plan jobs u status active)
            Ended
    unfolding resume
    resume-Ensures u status (h ∷ _) = recovery u (some h) none
    resume-Ensures u SagaStatus.ready [] =
        rounds-Ensures canonical_hash uuid5 owner_truth ports plan Licensed Safe guarded d.saga_id
          jobs u [] licences
    resume-Ensures u SagaStatus.executing [] = recovery u none _
    resume-Ensures u SagaStatus.partially_committed [] = recovery u none _
    resume-Ensures u SagaStatus.convergence_pending [] = recovery u none _
    resume-Ensures u SagaStatus.succeeded [] = recovery u none _
    resume-Ensures u SagaStatus.diverged [] = recovery u none _
    resume-Ensures u SagaStatus.failed [] = recovery u none _

    start-Ensures :
        (u : StoredSaga) (o : Option CoordinationStatus)
        → terminal_status u.status ≡ o
        → Ensures Fine (Held u) (start canonical_hash uuid5 owner_truth ports plan jobs u o) Ended
    unfolding start result_of
    start-Ensures u none e = resume-Ensures u u.status (active_slices u.slice_states)
    start-Ensures u (some s) e =
        pure-Ensures Fine Ended _ λ w h. (h.0, inr (u, h.2, (refl, refl, inr e)))

    joined-Ensures :
        (u : StoredSaga) (b : Bool)
        → Ensures Fine (Held u) (joined canonical_hash uuid5 owner_truth ports plan jobs u b) Ended
    unfolding joined
    joined-Ensures u true = start-Ensures u (terminal_status u.status) refl
    joined-Ensures u false = raise-Ensures Fine Ended _ (λ w h. h.0)

    created-Ensures :
        unique d.ordered_slice_hashes ≡ true
        → Ensures Fine Fine
            (create canonical_hash d >>= λ stored.
              joined canonical_hash uuid5 owner_truth ports plan jobs stored
                (definition_joins plan stored.definition))
            Ended
    created-Ensures distinct =
        bind-Ensures Fine Held Ended (create canonical_hash d) _
          (create-Ensures Safe canonical_hash d distinct) λ u. joined-Ensures u _

    proceed-Ensures :
        (readiness : Readiness)
        → unique d.ordered_slice_hashes ≡ true
        → Ensures Fine Fine
            (proceed canonical_hash uuid5 owner_truth ports plan (ok d) jobs readiness)
            Ended
    unfolding proceed pure ◌>>=◌ lift
    proceed-Ensures (not_ready ref) distinct w h = (h, inl refl)
    proceed-Ensures is_ready distinct w h = created-Ensures distinct w h

    execute-Ensures :
        unique d.ordered_slice_hashes ≡ true
        → Ensures Fine Fine (execute canonical_hash uuid5 owner_truth ports plan (ok d) jobs) Ended
    unfolding execute
    execute-Ensures distinct =
        bind-Ensures Fine (λ _. Fine) Ended (call ports.readiness) _
          (readiness-Ensures Licensed Safe guarded) λ readiness. proceed-Ensures readiness distinct

  -- Where every job has a licence, an execution keeps a predicate on the store of intents and the
  -- outside that the methods of the store and the ports keep, whether it returns or raises; the Host's
  -- port has to keep it only for a job with a licence and where the store holds an intent that is
  -- dispatched and has the identity of the command.
  pub execute-Safe :
      (Licensed : Job → Type 0) (Safe : dsp.Dispatch.Store.Store → X → Type 0)
      (built : Result Error Definition) (jobs : List Job) (w : World X)
      → Guarded ports Licensed Safe
      → All Licensed jobs
      → ((d : Definition) → built ≡ ok d → unique d.ordered_slice_hashes ≡ true)
      → HoldsSound w.sagas
      → Safe w.intents w.outside
      → let v = (execute canonical_hash uuid5 owner_truth ports plan built jobs w).1 in
        Safe v.intents v.outside
  execute-Safe Licensed Safe (err e) jobs w guarded licences distinct sound safe =
      kept_plainly (execute canonical_hash uuid5 owner_truth ports plan (err e) jobs w)
        (refused-Ensures Licensed Safe guarded e jobs w (sound, safe))
    where
      kept_plainly :
          (o : Result CoordinationError CoordinationResult × World X)
          → Ends (IsFine Safe) (λ _. IsFine Safe) o
          → Safe o.1.intents o.1.outside
      kept_plainly (ok r, v) h = h.1
      kept_plainly (err e, v) h = h.1
  execute-Safe Licensed Safe (ok d) jobs w guarded licences distinct sound safe =
      kept (execute canonical_hash uuid5 owner_truth ports plan (ok d) jobs w)
        (execute-Ensures Licensed Safe guarded d jobs licences (distinct d refl) w (sound, safe))
    where
      kept :
          (o : Result CoordinationError CoordinationResult × World X)
          → Ends
              (IsFine Safe)
              (Final canonical_hash uuid5 owner_truth ports plan Licensed Safe guarded d.saga_id)
              o
          → Safe o.1.intents o.1.outside
      kept (ok r, v) h = h.0.1
      kept (err e, v) h = h.1

  any_job : (jobs : List Job) → All (λ _. Unit {0}) jobs
  any_job [] = tt
  any_job (job ∷ jobs) = (tt, any_job jobs)

  any_port : Guarded ports (λ _. Unit) (λ _ _. Unit)
  any_port = record {
    prepare = λ s x i h. tt;
    mark = λ s x m id n at h. tt;
    now = λ s x h. tt;
    readiness = λ s x h. tt;
    host = λ job ctx s x l e d h. tt;
    build_bundle = λ job e s x h. tt;
    build_evidence = λ job e v b s x h. tt;
    verify_convergence = λ es s x h. tt;
  }

  -- An execution that returns has been refused by the readiness barrier, or reports the id and the
  -- revision of the Saga that the store now holds, and either asks for recovery or reports the final
  -- status that is stored. The store holds sound Sagas only.
  pub execute-Mirrors :
      (d : Definition) (jobs : List Job) (w : World X) {v : World X} {r : CoordinationResult}
      → unique d.ordered_slice_hashes ≡ true
      → HoldsSound w.sagas
      → execute canonical_hash uuid5 owner_truth ports plan (ok d) jobs w ≡ (ok r, v)
      → HoldsSound v.sagas
        × ((r.status ≡ readiness_failed)
            ⊎ ((u : StoredSaga) × (v.sagas d.saga_id ≡ some u) × Mirrors u r))
  execute-Mirrors d jobs w {v} {r} distinct sound run =
      let h =
        subst
          (Ends (IsFine (λ _ _. Unit)) (
            Final canonical_hash uuid5 owner_truth ports plan (λ _. Unit) (λ _ _. Unit) any_port
              d.saga_id))
          run
          (execute-Ensures (λ _. Unit) (λ _ _. Unit) any_port d jobs (any_job jobs) distinct w
            (sound, tt)) in
      (h.0.0, h.1)

  -- A result that reports success is true: the store holds the Saga at this revision as succeeded,
  -- and each of its Slices was reserved, admitted, committed, compared and verified.
  pub execute-succeeded :
      (d : Definition) (jobs : List Job) (w : World X) {v : World X} {r : CoordinationResult}
      → unique d.ordered_slice_hashes ≡ true
      → HoldsSound w.sagas
      → execute canonical_hash uuid5 owner_truth ports plan (ok d) jobs w ≡ (ok r, v)
      → r.status ≡ CoordinationStatus.succeeded
      → (u : StoredSaga) × (v.sagas d.saga_id ≡ some u)
        × (r.saga_revision ≡ u.saga_revision)
        × (u.status ≡ SagaStatus.succeeded)
        × All Complete u.slice_states
  unfolding terminal_status
  execute-succeeded d jobs w {v} {r} distinct sound run good =
      let (sound', outcome) = execute-Mirrors d jobs w distinct sound run in
      elim outcome [
        | inl refused ↦ let no_way = sym good ∙ refused in cc
        | inr (u, held, mirrors) ↦
            let done = status_of u mirrors.2 in
            (u, held, mirrors.1, done, IsSound-Complete u (sound' d.saga_id u held).0 done)
      ]
    where
      only_succeeded :
          (s : SagaStatus)
          → terminal_status s ≡ some CoordinationStatus.succeeded
          → s ≡ SagaStatus.succeeded
      only_succeeded SagaStatus.succeeded e = refl
      only_succeeded SagaStatus.ready e = cc
      only_succeeded SagaStatus.executing e = cc
      only_succeeded SagaStatus.partially_committed e = cc
      only_succeeded SagaStatus.convergence_pending e = cc
      only_succeeded SagaStatus.diverged e = cc
      only_succeeded SagaStatus.failed e = cc

      status_of :
          (u : StoredSaga)
          → (r.status ≡ recovery_required) ⊎ (terminal_status u.status ≡ some r.status)
          → u.status ≡ SagaStatus.succeeded
      status_of u (inl e) = let no_way = sym good ∙ e in cc
      status_of u (inr e) = only_succeeded u.status (e ∙ ap some good)
