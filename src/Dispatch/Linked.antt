-- ===== src/Dispatch/Linked.antt =====
-- The two indexes of the store of dispatch intents agree.
use dsp.Prelude.{
  ◌+◌, String, ◌≡◌, refl, ap, subst, ◌∙◌, ◌⊎◌, Option, none, some, List, [], ◌∷◌, inl, inr, arith,
  ◌==◌, ◌&&◌, eq_iff, eq_refl, Bool-cases, All,
}
use dsp.Prelude.Dict.{update, update₂}
use dsp.Prelude.Strip.{strip_idem}
use dsp.Contracts.Normal.{strip?_idem}
use dsp.Dispatch.Intent.{DispatchStatus, Intent}
use dsp.Dispatch.Store.{Store, new_store, Call, call, calls}
use dsp.Dispatch.Changes.{IsNormal, next, Change, same, insert, advance, WellFormed, call-Change}

pub record IsLinked (store : Store) : Type 0 where
  -- an intent stands under its id, and its Slice is indexed to it
  pub keyed :
      (id : String) (i : Intent)
      → store.items id ≡ some i
      → IsNormal i
        × (i.dispatch_intent_id ≡ id)
        × (store.by_slice i.saga_id i.execution_slice_hash ≡ some id)
  -- a Slice is indexed to an intent of its own
  pub known :
      (s h id : String)
      → store.by_slice s h ≡ some id
      → (i : Intent) × (store.items id ≡ some i) × (i.saga_id ≡ s) × (i.execution_slice_hash ≡ h)

-- all but the status and the revision
abbrev pub Frozen : Intent → Intent → Type 0
Frozen i j = j ≡ record i { status = j.status; intent_revision = j.intent_revision }

pub next-Frozen : (i : Intent) (status : DispatchStatus) → IsNormal i → Frozen i (next i status)
next-Frozen i status n =
    ap (λ (x : Intent). record x { status = status; intent_revision = i.intent_revision + 1 }) n

next-IsNormal : (i : Intent) (status : DispatchStatus) → IsNormal (next i status)
next-IsNormal i status = simp (strip_idem, strip?_idem)

-- what an id holds after a write
update_cases :
    (items : String → Option Intent) (k id : String) (v w : Intent)
    → update items k v id ≡ some w
    → ((k ≡ id) × (v ≡ w)) ⊎ (items id ≡ some w)
update_cases items k id v w e = ground (arith, eq_iff k id)

-- the index of another Slice
other_slice :
    (store : Store) (i j : Intent) (id : String)
    → store.by_slice i.saga_id i.execution_slice_hash ≡ none
    → store.by_slice j.saga_id j.execution_slice_hash ≡ some id
    → update₂ store.by_slice i.saga_id i.execution_slice_hash i.dispatch_intent_id j.saga_id
        j.execution_slice_hash
      ≡ some id
other_slice store i j id new slice =
    ground (arith, eq_iff i.saga_id j.saga_id, eq_iff i.execution_slice_hash j.execution_slice_hash)

insert-IsLinked :
    (store : Store) (i : Intent)
    → IsNormal i
    → store.items i.dispatch_intent_id ≡ none
    → store.by_slice i.saga_id i.execution_slice_hash ≡ none
    → IsLinked store
    → IsLinked (record {
      items = update store.items i.dispatch_intent_id i;
      by_slice = update₂ store.by_slice i.saga_id i.execution_slice_hash i.dispatch_intent_id;
    })
insert-IsLinked store i n free new w = record {
  keyed = λ id j e. elim (update_cases store.items i.dispatch_intent_id id i j e) [
    | inl (key, one) ↦
        subst
          (λ (x : Intent).
            IsNormal x
            × (x.dispatch_intent_id ≡ id)
            × (update₂ store.by_slice i.saga_id i.execution_slice_hash i.dispatch_intent_id
                  x.saga_id x.execution_slice_hash
                ≡ some id))
          one (n, key, rw (eq_refl i.saga_id, eq_refl i.execution_slice_hash) (ap some key))
    | inr old ↦
        let (m, key, slice) = w.keyed id j old in (m, key, other_slice store i j id new slice)
  ];
  known = λ s h id e. elim (Bool-cases (i.saga_id == s && i.execution_slice_hash == h)) [
    | inl here ↦
        let key : i.dispatch_intent_id ≡ id = ground arith in
        (
          i,
          rw (key, eq_refl id) refl,
          ground (arith, eq_iff i.saga_id s),
          ground (arith, eq_iff i.execution_slice_hash h),
        )
    | inr there ↦
        let (j, found, a, b) = w.known s h id (rw there at e) in
        (j, ground (arith, eq_iff i.dispatch_intent_id id), a, b)
  ];
}

advance-IsLinked :
    (store : Store) (id : String) (i : Intent) (status : DispatchStatus)
    → store.items id ≡ some i
    → IsLinked store
    → IsLinked (record store { items = update store.items id (next i status) })
advance-IsLinked store k i status found w =
    let (n, key, slice) = w.keyed k i found in
    let saga = ap (λ (x : Intent). x.saga_id) n in
    let hash = ap (λ (x : Intent). x.execution_slice_hash) n in
    record {
      keyed = λ id j e. elim (update_cases store.items k id (next i status) j e) [
        | inl (at, one) ↦
            subst
              (λ (x : Intent).
                IsNormal x
                × (x.dispatch_intent_id ≡ id)
                × (store.by_slice x.saga_id x.execution_slice_hash ≡ some id))
              one (next-IsNormal i status, key ∙ at, rw (saga, hash) (slice ∙ ap some at))
        | inr old ↦ w.keyed id j old
      ];
      known = λ s h id e.
          let (j, there, a, b) = w.known s h id e in
          elim (Bool-cases (k == id)) [
            | inl here ↦
                let at = (eq_iff k id).0 here in
                let one : j ≡ i = ground arith in
                (next i status, rw here refl, saga ∙ ground arith, hash ∙ ground arith)
            | inr away ↦ (j, rw away there, a, b)
          ];
    }

pub Change-IsLinked :
    {store store' : Store} → Change store store' → IsLinked store → IsLinked store'
Change-IsLinked (same q) w = rw q w
Change-IsLinked {store} (insert i n free new q) w = rw q (insert-IsLinked store i n free new w)
Change-IsLinked {store} (advance id i status found q) w =
    rw q (advance-IsLinked store id i status found w)

-- Any calls, with intents whose texts are stripped, keep a consistent store of dispatch intents
-- consistent: each intent stands under its own id, its Saga and Slice are indexed to it, and an
-- index entry never dangles.
pub calls-IsLinked :
    (store : Store) (cs : List Call)
    → All WellFormed cs
    → IsLinked store
    → IsLinked (calls store cs)
unfolding calls
calls-IsLinked store [] ws w = w
calls-IsLinked store (c ∷ cs) ws w =
    calls-IsLinked (call store c).1 cs ws.1 (Change-IsLinked (call-Change store c ws.0) w)

pub new_store-IsLinked : IsLinked new_store
new_store-IsLinked = record { keyed = λ id i e. cc; known = λ s h id e. cc }
