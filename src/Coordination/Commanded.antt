-- ===== src/Coordination/Commanded.antt =====
-- What a recording of the Host's calls shows of `execute` (materialized_coordinator.py).
use dsp.Prelude.{
  String, ◌≡◌, refl, ap, sym, ◌∙◌, subst, Option, none, some, List, [], ◌∷◌, Bool, true, false,
  Result, ok, err, ◌>>◌, ◌==◌, eq_iff, All, inl, inr, Bool-cases, arith, if◌then◌else◌, nat_eq,
  ◌&&◌, ℤ,
}
use dsp.Prelude.Json.{Json}
use dsp.Contracts.{Error, value_error}
use dsp.Saga.Store.Laws.{HoldsSound}
use dsp.Dispatch.Intent.{Intent}
use dsp.Dispatch.Store.{
  check_evidence, transitioned, Store, Mark, mark, mark_dispatched, mark_outcome_unknown,
  mark_host_committed, mark_safe_to_retry, mark_reconciled, target, assign, prepare, prepare_at,
  inserted, replayed, is_prepared, same_admitted_lineage,
}
use dsp.Dispatch.Changes.{mark-eq-ok}
use dsp.Scope.Rules.{Boundary}
use dsp.Scope.Local.{ExecutionSlice}
use dsp.Build.Definition.{Source}
use dsp.Coordination.Effects.{World}
use dsp.Coordination.Contracts.{DispatchContext, Job, Ports}
use dsp.Coordination.Inputs.{BindingSet, Inputs}
use dsp.Coordination.Joined.{Joins}
use dsp.Coordination.Guarded.{Durable, Guarded}
use dsp.Coordination.Coordinate.{coordinate, coordinate-Safe}

-- a command that a Host was given
abbrev pub Command : Type 0
Command = Job × DispatchContext

-- any ports, with a record of the commands that the Host was given
abbrev pub recorded :
    {X Bundle Evidence : Type 0}
    → Ports X Bundle Evidence
    → Ports (X × List Command) Bundle Evidence
recorded ports = record {
  now = λ x. let o = ports.now x.0 in (o.0, (o.1, x.1));
  readiness = λ x. let o = ports.readiness x.0 in (o.0, (o.1, x.1));
  host = λ job ctx x. let o = ports.host job ctx x.0 in (o.0, (o.1, (job, ctx) ∷ x.1));
  build_bundle = λ job d x. let o = ports.build_bundle job d x.0 in (o.0, (o.1, x.1));
  verify_semantics = ports.verify_semantics;
  build_evidence = λ job d v b x. let o = ports.build_evidence job d v b x.0 in (o.0, (o.1, x.1));
  verify_convergence = λ es x. let o = ports.verify_convergence es x.0 in (o.0, (o.1, x.1));
}

-- the store holds an intent with the identity of the command, which is no longer only prepared
abbrev pub IsSent : Store → DispatchContext → Type 0
IsSent intents ctx =
    (k : String) × (i : Intent) × (intents.items k ≡ some i)
    × (is_prepared i.status ≡ false)
    × (ctx.dispatch_intent_id ≡ i.dispatch_intent_id)
    × (ctx.idempotency_key ≡ i.idempotency_key)

-- a command was given for a Slice of the plan under its admitted authority, and its intent was sent
abbrev pub IsCommanded : Inputs → Store → Command → Type 0
IsCommanded given intents c =
    Joins given c.0
    × (c.1.execution_slice_hash ≡ c.0.execution_slice.execution_slice_hash)
    × IsSent intents c.1

Durable-IsSent :
    (intents : Store) (ctx : DispatchContext) → Durable intents ctx → IsSent intents ctx
Durable-IsSent intents ctx (k, i, held, sent, id, key) = (k, i, held, rw sent refl, id, key)

-- an intent that is held is never overwritten by `prepare`
prepare-IsSent :
    (intents : Store) (new : Intent) (ctx : DispatchContext)
    → IsSent intents ctx
    → IsSent (prepare intents new).1 ctx
unfolding prepare
prepare-IsSent intents new ctx (k, i, held, sent, named, keyed) =
    go (is_prepared new.status && nat_eq new.intent_revision 0)
      (intents.by_slice new.saga_id new.execution_slice_hash)
  where
    fresh :
        (o : Option Intent)
        → intents.items new.dispatch_intent_id ≡ o
        → IsSent (inserted intents o new).1 ctx
    fresh (some _) e = (k, i, held, sent, named, keyed)
    fresh none e = (k, i, ground (arith, eq_iff new.dispatch_intent_id k), sent, named, keyed)

    again : (o : Option Intent) → IsSent (replayed intents o new).1 ctx
    again none = (k, i, held, sent, named, keyed)
    again (some existing) = elim (Bool-cases (same_admitted_lineage existing new)) [
      | inl t ↦ rw t (k, i, held, sent, named, keyed)
      | inr t ↦ rw t (k, i, held, sent, named, keyed)
    ]

    go :
        (b : Bool) (o : Option String)
        → IsSent (if b then prepare_at intents o new else (err value_error, intents)).1 ctx
    go false o = (k, i, held, sent, named, keyed)
    go true none = fresh (intents.items new.dispatch_intent_id) refl
    go true (some id) = again (intents.items id)

target-sent : (m : Mark) → is_prepared (target m) ≡ false
target-sent mark_dispatched = refl
target-sent (mark_outcome_unknown _) = refl
target-sent (mark_host_committed _) = refl
target-sent (mark_safe_to_retry _) = refl
target-sent (mark_reconciled _) = refl

-- a mark leaves no intent prepared, and no identity changed
mark-IsSent :
    (intents : Store) (m : Mark) (id : String) (n : ℤ) (at : String) (ctx : DispatchContext)
    → IsSent intents ctx
    → IsSent (mark intents m id n at).1 ctx
unfolding mark
mark-IsSent intents m id n at ctx (k, i, held, sent, named, keyed) = go _ refl
  where
    marked :
        (j : Intent)
        → (mark intents m id n at).0 ≡ ok j
        → (b : Bool) → (id == k) ≡ b
        → IsSent (assign intents id (ok j)).1 ctx
    marked j e false away = (k, i, rw away held, sent, named, keyed)
    marked j e true here =
        let (known, found, _, out) = mark-eq-ok intents m id n at e in
        let at_id = (eq_iff id k).0 here in
        let one : known ≡ i = ground arith in
        (
          k,
          j,
          rw here refl,
          rw out (target-sent m),
          named
              ∙ ap (λ (x : Intent). x.dispatch_intent_id) (sym one)
              ∙ ap (λ (x : Intent). x.dispatch_intent_id) (sym out),
          keyed
              ∙ ap (λ (x : Intent). x.idempotency_key) (sym one)
              ∙ ap (λ (x : Intent). x.idempotency_key) (sym out),
        )

    go :
        (r : Result Error Intent)
        → (check_evidence m >> transitioned intents id n (target m) at) ≡ r
        → IsSent (assign intents id r).1 ctx
    go (err _) e = (k, i, held, sent, named, keyed)
    go (ok j) e = marked j (ap (λ r. (assign intents id r).0) e) (id == k) refl

module _ {X Bundle Evidence : Type 0} (ports : Ports X Bundle Evidence) (given : Inputs) where
  -- every recorded command
  abbrev AreCommanded : Store → X × List Command → Type 0
  AreCommanded intents x = All (IsCommanded given intents) x.1

  later :
      (s t : Store)
      → ((ctx : DispatchContext) → IsSent s ctx → IsSent t ctx)
      → (cs : List Command) → All (IsCommanded given s) cs
      → All (IsCommanded given t) cs
  later s t keep [] h = tt
  later s t keep (c ∷ cs) ((joins, slice, sent), h) =
      ((joins, slice, keep c.1 sent), later s t keep cs h)

  recorded-Guarded : Guarded (recorded ports) (Joins given) AreCommanded
  recorded-Guarded = record {
    prepare = λ s x i h. later s (prepare s i).1 (prepare-IsSent s i) x.1 h;
    mark = λ s x m id n at h. later s (mark s m id n at).1 (mark-IsSent s m id n at) x.1 h;
    now = λ s x h. h;
    readiness = λ s x h. h;
    host = λ job ctx s x l e d h. ((l, e, Durable-IsSent s ctx d), h);
    build_bundle = λ job d s x h. h;
    build_evidence = λ job d v b s x h. h;
    verify_convergence = λ es s x h. h;
  }

  -- Whatever the ports do, and whether they return or raise: when the coordinator has returned or
  -- raised, every command that it gave to a Host was given for a Slice of the execution plan, under an
  -- authority that was admitted for it, for its binding set and for its Host instance; and the store of
  -- intents holds an intent with the identity of the command that is marked, no longer only prepared.
  -- The store of Sagas is sound before, and the record of the commands empty. A Host that raises ends
  -- the execution, so that this holds at the time of the call as well.
  pub coordinate-IsCommanded :
      (canonical_hash sha256_json : Json → String) (uuid5 : String → String → String)
      (owner_truth : String → Boundary → Result Error (Unit {0}))
      (binding_integrity : BindingSet → ExecutionSlice → Result Error (Unit {0}))
      (validated : Result Error (Unit {0})) (source : Source) (w : World (X × List Command))
      → HoldsSound w.sagas
      → w.outside.1 ≡ []
      → let v =
          (coordinate canonical_hash sha256_json uuid5 owner_truth binding_integrity
            (recorded ports)
            given
            validated
            source
            w).1 in
        All (IsCommanded given v.intents) v.outside.1
  coordinate-IsCommanded canonical_hash sha256_json uuid5 owner_truth binding_integrity validated
        source w sound empty =
      coordinate-Safe canonical_hash sha256_json uuid5 owner_truth binding_integrity
        (recorded ports) AreCommanded given validated source w recorded-Guarded sound
        (subst (All (IsCommanded given w.intents)) (sym empty) tt)
