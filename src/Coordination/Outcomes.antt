-- ===== src/Coordination/Outcomes.antt =====
-- What the coordinator returns agrees with the stored Saga, and its Hosts are only ever called on a
-- durable intent (materialized_coordinator.py, `execute`).
use dsp.Prelude.{
  ℤ, String, ◌≡◌, refl, Option, none, some, List, [], ◌∷◌, ◌++◌, pos, Result, ok, err, ◌⊎◌, inl,
  inr, All,
}
use dsp.Prelude.Json.{Json}
use dsp.Contracts.{Error}
use dsp.Saga.State.{StoredSaga, SagaStatus}
use dsp.Saga.Evidence.{
  ActualDelta, ScopeResult, ScopeStatus, within_scope, scope_breach, VerificationResult,
  VerificationStatus, passed, failed, evidence_insufficient,
}
use dsp.Dispatch.Intent.{Intent, DispatchStatus}
use dsp.Dispatch.Store.{Mark, mark_dispatched}
use dsp.Scope.Rules.{Boundary}
use dsp.Coordination.Effects.{
  CoordinationError, World, Coord, pure, raise, ask, call, as_port_error, lift, prepares, marks,
}
use dsp.Coordination.Contracts.{
  CoordinationStatus, recovery_required, readiness_failed, CoordinationResult, before_commit,
  commit_state_unknown, DispatchContext, HostResult, committed, failed_at, Job, Plan, Ports,
}
use dsp.Coordination.Execute.{terminal_status, result_of, Step, returned, advanced}
use dsp.Coordination.Rounds.{
  or_invalid, terminal, ends, admit, dispatch, context_of, verified, tasks_or, with_bundle,
  compared, answered, round, failure_of, final_result, conclude, next, rounds,
}
use dsp.Coordination.Hoare.{
  Ends, Ensures, bind-Ensures, pure-Ensures, raise-Ensures, lift-Ensures, weaken-Ensures,
}
use dsp.Coordination.Guarded.{
  Guarded, IsFine, At, ask-Ensures, call-Ensures, prepares-Ensures, marks-Ensures, saga-Ensures,
}

-- a result reports the id and the revision of a Saga, and its final status where it has one
abbrev pub Mirrors : StoredSaga → CoordinationResult → Type 0
Mirrors u r =
    (r.saga_id ≡ u.definition.saga_id)
    × (r.saga_revision ≡ u.saga_revision)
    × ((r.status ≡ recovery_required) ⊎ (terminal_status u.status ≡ some r.status))

module _ {X Bundle Evidence : Type 0} (canonical_hash : Json → String)
    (uuid5 : String → String → String) (owner_truth : String → Boundary → Result Error (Unit {0}))
    (ports : Ports X Bundle Evidence) (plan : Plan) (Licensed : Job → Type 0)
    (Safe : dsp.Dispatch.Store.Store → X → Type 0) (guarded : Guarded ports Licensed Safe)
    (id : String) where
  abbrev Fine : World X → Type 0
  Fine = IsFine Safe

  abbrev Holds : StoredSaga → World X → Type 0
  Holds = At Safe id

  -- the result was refused by the readiness barrier, or mirrors the stored Saga
  abbrev pub Final : CoordinationResult → World X → Type 0
  Final r w =
      Fine w
      × ((r.status ≡ readiness_failed) ⊎ ((u : StoredSaga) × (w.sagas id ≡ some u) × Mirrors u r))

  abbrev StepHolds : Step Evidence → World X → Type 0
  StepHolds (returned r) w = Final r w
  StepHolds (advanced u _) w = Holds u w

  lost : (u : StoredSaga) (w : World X) → Holds u w → Fine w
  lost u w h = h.0

  pub recovers :
      (u : StoredSaga) (active ref : Option String) (w : World X)
      → Holds u w
      → Final (result_of u recovery_required active ref none) w
  unfolding result_of
  recovers u active ref w (fine, named, held) = (fine, inr (u, held, (refl, refl, inl refl)))

  recover-Ensures :
      (u : StoredSaga) (active ref : Option String)
      → Ensures Fine
          (Holds u)
          (pure (returned (result_of u recovery_required active ref none)))
          StepHolds
  recover-Ensures u active ref = pure-Ensures Fine StepHolds _ (λ w h. recovers u active ref w h)

  -- the id of the Saga that is held
  knowing :
      {A : Type 0} (u : StoredSaga) (m : Coord X A) (Q : A → World X → Type 0)
      → (u.definition.saga_id ≡ id → Ensures Fine (Holds u) m Q)
      → Ensures Fine (Holds u) m Q
  knowing u m Q k w h = k h.1 w h

  -- a mark, of which the intent is forgotten
  marks-Holds :
      (m : Mark) (k : String) (n : ℤ) (at : String) (u : StoredSaga)
      → Ensures Fine (Holds u) (marks m k n at) (λ _. Holds u)
  marks-Holds m k n at u =
      weaken-Ensures Fine _ (λ _. Holds u) (marks m k n at) (λ i w h. h.0)
        (marks-Ensures Safe m k n at id u (λ s x. guarded.mark s x m k n at))

  terminal-Ensures :
      (u : StoredSaga) (ref : Option String)
      → Ensures Fine (Holds u) (terminal canonical_hash uuid5 owner_truth ports plan u ref) Final
  unfolding terminal result_of pure raise
  terminal-Ensures u ref w (fine, named, held) = go (terminal_status u.status) refl
    where
      go :
          (o : Option CoordinationStatus)
          → terminal_status u.status ≡ o
          → Ends Fine Final (or_invalid canonical_hash uuid5 owner_truth ports plan u ref o w)
      go none e = fine
      go (some s) e = (fine, inr (u, held, (refl, refl, inr e)))

  final_result-Ensures :
      (u : StoredSaga) (ref : Option String) (result_hash : String)
      → Ensures Fine
          (Holds u)
          (final_result canonical_hash uuid5 owner_truth ports plan u ref result_hash
            (terminal_status u.status))
          Final
  unfolding result_of pure raise
  final_result-Ensures u ref result_hash w (fine, named, held) = go (terminal_status u.status) refl
    where
      go :
          (o : Option CoordinationStatus)
          → terminal_status u.status ≡ o
          → Ends Fine Final
              (final_result canonical_hash uuid5 owner_truth ports plan u ref result_hash o w)
      go none e = fine
      go (some s) e = (fine, inr (u, held, (refl, refl, inr e)))

  ends-Ensures :
      (u : StoredSaga) (m : Coord X CoordinationResult)
      → Ensures Fine (Holds u) m Final
      → Ensures Fine (Holds u) (ends canonical_hash uuid5 owner_truth ports plan m) StepHolds
  unfolding ends
  ends-Ensures u m h =
      bind-Ensures Fine Final StepHolds m _ h
        λ r. pure-Ensures Fine StepHolds (returned r) (λ w f. f)

  -- the clock
  asks :
      {A : Type 0} (f : X → A × X) (u : StoredSaga)
      → ((intents : dsp.Dispatch.Store.Store) (x : X) → Safe intents x → Safe intents (f x).1)
      → Ensures Fine (Holds u) (ask f) (λ _. Holds u)
  asks f u keep = ask-Ensures Safe f id u keep

  -- a call of a port that has nothing to do with the Host
  asks_port :
      {A : Type 0} (f : X → Result String A × X) (u : StoredSaga)
      → ((intents : dsp.Dispatch.Store.Store) (x : X) → Safe intents x → Safe intents (f x).1)
      → Ensures Fine (Holds u) (call f) (λ _. Holds u)
  asks_port f u keep = call-Ensures Safe f id u keep

  admit-Ensures :
      (job : Job) (u : StoredSaga)
      → u.definition.saga_id ≡ id
      → Ensures Fine
          (Holds u)
          (admit canonical_hash uuid5 owner_truth ports plan job u)
          (λ v. Holds v)
  unfolding admit
  admit-Ensures job u named =
      bind-Ensures Fine (λ _. Holds u) Holds (ask ports.now) _ (asks ports.now u guarded.now)
        λ at.
          bind-Ensures Fine Holds Holds _ _
            (saga-Ensures Safe canonical_hash id u.definition.saga_id u _ named)
            λ reserved. saga-Ensures Safe canonical_hash id u.definition.saga_id reserved _ named

  -- the intent is durable and dispatched when `dispatch` returns it
  abbrev Dispatched : StoredSaga → Intent → World X → Type 0
  Dispatched u i w =
      Holds u w
      × ((k : String) × (w.intents.items k ≡ some i) × (i.status ≡ DispatchStatus.dispatched))

  dispatch-Ensures :
      (saga_id : String) (job : Job) (u : StoredSaga)
      → Ensures Fine
          (Holds u)
          (dispatch canonical_hash uuid5 owner_truth ports plan saga_id job)
          (Dispatched u)
  unfolding dispatch
  dispatch-Ensures saga_id job u =
      bind-Ensures Fine (λ _. Holds u) (Dispatched u) (ask ports.now) _
        (asks ports.now u guarded.now)
        λ at.
          bind-Ensures Fine (λ _. Holds u) (Dispatched u) (lift _) _ (lift-Ensures Fine _ (lost u))
            λ i.
              bind-Ensures Fine (λ _. Holds u) (Dispatched u) (prepares i) _
                (prepares-Ensures Safe i id u (λ s x. guarded.prepare s x i))
                λ known.
                  bind-Ensures Fine (λ _. Holds u) (Dispatched u) (ask ports.now) _
                    (asks ports.now u guarded.now)
                    λ then_at.
                      weaken-Ensures Fine _ (Dispatched u) _
                        (λ j w h. (h.0, (known.dispatch_intent_id, h.1, h.2)))
                        (marks-Ensures Safe mark_dispatched known.dispatch_intent_id
                          (pos known.intent_revision) then_at id u
                          (λ s x.
                            guarded.mark s x mark_dispatched known.dispatch_intent_id
                              (pos known.intent_revision) then_at))

  -- the one call of a Host, on a durable intent
  host-Ensures :
      (saga_id : String) (job : Job) (u : StoredSaga) (i : Intent)
      → Licensed job
      → Ensures Fine
          (Dispatched u i)
          (call
            (ports.host job (context_of canonical_hash uuid5 owner_truth ports plan saga_id job i)))
          (λ _. Holds u)
  unfolding call context_of
  host-Ensures saga_id job u i licence w (((sound, safe), named, held), (k, stored, sent)) =
      go (ports.host job context w.outside).0
    where
      context : DispatchContext
      context = context_of canonical_hash uuid5 owner_truth ports plan saga_id job i

      safe_then : Safe w.intents (ports.host job context w.outside).1
      safe_then =
          guarded.host job context w.intents w.outside licence refl (k, i, stored, sent, refl, refl)
            safe

      go :
          (r : Result String (Option HostResult))
          → Ends Fine
              (λ _. Holds u)
              (as_port_error r, record w { outside = (ports.host job context w.outside).1 })
      go (ok _) = ((sound, safe_then), named, held)
      go (err _) = (sound, safe_then)

  verified-Ensures :
      (job : Job) (delta : ActualDelta) (bundle : Bundle) (v : VerificationResult) (u : StoredSaga)
      (status : VerificationStatus)
      → Ensures Fine
          (Holds u)
          (verified canonical_hash uuid5 owner_truth ports plan job delta bundle v u status)
          StepHolds
  unfolding verified
  verified-Ensures job delta bundle v u passed =
      bind-Ensures Fine (λ _. Holds u) StepHolds (call _) _
        (asks_port (ports.build_evidence job delta v bundle) u
          (guarded.build_evidence job delta v bundle))
        λ e. pure-Ensures Fine StepHolds (advanced u e) (λ w h. h)
  verified-Ensures job delta bundle v u failed = ends-Ensures u _ (terminal-Ensures u _)
  verified-Ensures job delta bundle v u evidence_insufficient =
      ends-Ensures u _ (terminal-Ensures u _)

  tasks_or-Ensures :
      (r : Result CoordinationError (List String)) (u : StoredSaga)
      → Ensures Fine
          (Holds u)
          (tasks_or canonical_hash uuid5 owner_truth ports plan r)
          (λ _. Holds u)
  tasks_or-Ensures (ok ts) u = pure-Ensures Fine (λ _. Holds u) ts (λ w h. h)
  tasks_or-Ensures (err e) u = raise-Ensures Fine (λ _. Holds u) e (lost u)

  with_bundle-Ensures :
      (job : Job) (delta : ActualDelta) (u : StoredSaga) (bundle : Result String Bundle)
      → u.definition.saga_id ≡ id
      → Ensures Fine
          (Holds u)
          (with_bundle canonical_hash uuid5 owner_truth ports plan job delta u bundle)
          StepHolds
  unfolding with_bundle
  with_bundle-Ensures job delta u (err code) named =
      recover-Ensures u (some job.execution_slice.execution_slice_hash) (some code)
  with_bundle-Ensures job delta u (ok bundle) named =
      bind-Ensures Fine (λ _. Holds u) StepHolds _ _ (tasks_or-Ensures _ u)
        λ tasks.
          bind-Ensures Fine (λ _. Holds u) StepHolds (ask ports.now) _
            (asks ports.now u guarded.now)
            λ at.
              bind-Ensures Fine (λ _. Holds u) StepHolds (lift _) _ (lift-Ensures Fine _ (lost u))
                λ v.
                  bind-Ensures Fine (λ _. Holds u) StepHolds (ask ports.now) _
                    (asks ports.now u guarded.now)
                    λ then_at.
                      bind-Ensures Fine Holds StepHolds _ _
                        (saga-Ensures Safe canonical_hash id u.definition.saga_id u _ named)
                        λ recorded. verified-Ensures job delta bundle v recorded v.status

  compared-Ensures :
      (job : Job) (delta : ActualDelta) (result : ScopeResult) (u : StoredSaga)
      (status : ScopeStatus)
      → Ensures Fine
          (Holds u)
          (compared canonical_hash uuid5 owner_truth ports plan job delta result u status)
          StepHolds
  unfolding compared
  compared-Ensures job delta result u scope_breach = ends-Ensures u _ (terminal-Ensures u _)
  compared-Ensures job delta result u within_scope =
      bind-Ensures Fine (λ _. Holds u) StepHolds (call _) _
        (asks_port (ports.build_bundle job delta) u (guarded.build_bundle job delta))
        λ bundle. knowing u _ StepHolds (with_bundle-Ensures job delta u bundle)

  answered-Ensures :
      (job : Job) (i : Intent) (u : StoredSaga) (answer : Option HostResult)
      → u.definition.saga_id ≡ id
      → Ensures Fine
          (Holds u)
          (answered canonical_hash uuid5 owner_truth ports plan job i u answer)
          StepHolds
  unfolding answered
  answered-Ensures job i u none named = raise-Ensures Fine StepHolds _ (lost u)
  answered-Ensures job i u (some (failed_at commit_state_unknown ref at)) named =
      bind-Ensures Fine (λ _. Holds u) StepHolds _ _ (marks-Holds _ _ _ at u)
        λ _. recover-Ensures u (some job.execution_slice.execution_slice_hash) (some ref)
  answered-Ensures job i u (some (failed_at before_commit ref at)) named =
      bind-Ensures Fine (λ _. Holds u) StepHolds _ _ (marks-Holds _ _ _ at u)
        λ _.
          bind-Ensures Fine Holds StepHolds _ _
            (saga-Ensures Safe canonical_hash id u.definition.saga_id u _ named)
            λ closed. ends-Ensures closed _ (terminal-Ensures closed _)
  answered-Ensures job i u (some (committed delta at)) named =
      bind-Ensures Fine (λ _. Holds u) StepHolds _ _ (marks-Holds _ _ _ at u)
        λ _.
          bind-Ensures Fine Holds StepHolds _ _
            (saga-Ensures Safe canonical_hash id u.definition.saga_id u _ named)
            λ known.
              bind-Ensures Fine Holds StepHolds _ _
                (saga-Ensures Safe canonical_hash id u.definition.saga_id known _ named)
                λ begun.
                  bind-Ensures Fine (λ _. Holds begun) StepHolds (lift _) _
                    (lift-Ensures Fine _ (lost begun))
                    λ result.
                      bind-Ensures Fine Holds StepHolds _ _
                        (saga-Ensures Safe canonical_hash id u.definition.saga_id begun _ named)
                        λ judged. compared-Ensures job delta result judged result.status

  pub round-Ensures :
      (job : Job) (u : StoredSaga)
      → Licensed job
      → Ensures Fine (Holds u) (round canonical_hash uuid5 owner_truth ports plan job u) StepHolds
  unfolding round
  round-Ensures job u licence = knowing u _ StepHolds λ named.
      bind-Ensures Fine Holds StepHolds _ _ (admit-Ensures job u named) λ admitted.
        bind-Ensures Fine (Dispatched admitted) StepHolds _ _
          (dispatch-Ensures u.definition.saga_id job admitted)
          λ i.
            bind-Ensures Fine (λ _. Holds admitted) StepHolds (call _) _
              (host-Ensures u.definition.saga_id job admitted i licence)
              λ answer. knowing admitted _ StepHolds (answered-Ensures job i admitted answer)

  conclude-Ensures :
      (u : StoredSaga) (evidence : List Evidence) (status : SagaStatus)
      → Ensures Fine
          (Holds u)
          (conclude canonical_hash uuid5 owner_truth ports plan u evidence status)
          Final
  unfolding conclude
  conclude-Ensures u evidence SagaStatus.convergence_pending = knowing u _ Final λ named.
      bind-Ensures Fine (λ _. Holds u) Final (call _) _
        (asks_port (ports.verify_convergence evidence) u (guarded.verify_convergence evidence))
        λ answer.
          bind-Ensures Fine Holds Final _ _
            (saga-Ensures Safe canonical_hash id u.definition.saga_id u _ named)
            λ final.
              final_result-Ensures final
                (failure_of canonical_hash uuid5 owner_truth ports plan answer.0) answer.1
  conclude-Ensures u evidence SagaStatus.ready = raise-Ensures Fine Final _ (lost u)
  conclude-Ensures u evidence SagaStatus.executing = raise-Ensures Fine Final _ (lost u)
  conclude-Ensures u evidence SagaStatus.partially_committed = raise-Ensures Fine Final _ (lost u)
  conclude-Ensures u evidence SagaStatus.succeeded = raise-Ensures Fine Final _ (lost u)
  conclude-Ensures u evidence SagaStatus.diverged = raise-Ensures Fine Final _ (lost u)
  conclude-Ensures u evidence SagaStatus.failed = raise-Ensures Fine Final _ (lost u)

  pub rounds-Ensures :
      (jobs : List Job) (u : StoredSaga) (evidence : List Evidence)
      → All Licensed jobs
      → Ensures Fine
          (Holds u)
          (rounds canonical_hash uuid5 owner_truth ports plan jobs u evidence)
          Final
  unfolding rounds
  rounds-Ensures [] u evidence licences = conclude-Ensures u evidence u.status
  rounds-Ensures (job ∷ jobs) u evidence (licence, licences) =
      bind-Ensures Fine StepHolds Final _ _ (round-Ensures job u licence)
        (further λ v es. rounds-Ensures jobs v es licences)
    where
      further :
          ((v : StoredSaga) (es : List Evidence)
            → Ensures Fine
                (Holds v)
                (rounds canonical_hash uuid5 owner_truth ports plan jobs v es)
                Final)
          → (step : Step Evidence)
          → Ensures Fine
              (StepHolds step)
              (next canonical_hash uuid5 owner_truth ports plan
                (rounds canonical_hash uuid5 owner_truth ports plan jobs)
                evidence
                step)
              Final
      further later (returned r) = pure-Ensures Fine Final r (λ w h. h)
      further later (advanced v e) = later v (evidence ++ (e ∷ []))
