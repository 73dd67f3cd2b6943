-- ===== src/Dispatch/Laws.antt =====
-- What the store of dispatch intents promises its callers.
use dsp.Prelude.{
  ◌+◌, ◌≤◌, String, ◌≡◌, ◌≢◌, refl, ap, subst, some, List, [], ◌∷◌, inl, inr, arith, ◌==◌, eq_iff,
  eq_refl, Bool-cases, All, ok, err, Result, ℤ,
}
use dsp.Contracts.{Error}
use dsp.Dispatch.Intent.{Intent}
use dsp.Dispatch.Store.{Store, Call, call, calls, mark, Mark, assign}
use dsp.Dispatch.Changes.{next, Change, same, insert, advance, WellFormed, call-Change, mark-eq-ok}
use dsp.Dispatch.Linked.{IsLinked, Frozen, next-Frozen, Change-IsLinked, calls-IsLinked}

-- the store still holds the intent, with the same identity and lineage, at no earlier revision
abbrev pub Holds : Store → String → Intent → Type 0
Holds store id i =
    (j : Intent) × (store.items id ≡ some j) × Frozen i j × (i.intent_revision ≤ j.intent_revision)

Change-Holds :
    {store store' : Store} (id : String) (i : Intent)
    → Change store store'
    → IsLinked store
    → store.items id ≡ some i
    → Holds store' id i
Change-Holds id i (same q) w e = (i, rw q e, refl, omega arith)
Change-Holds id i (insert k n free new q) w e =
    (i, rw q (ground (arith, eq_iff k.dispatch_intent_id id)), refl, omega arith)
Change-Holds {store} id i (advance k j status found q) w e = elim (Bool-cases (k == id)) [
  | inl here ↦
      let at = (eq_iff k id).0 here in
      let one : j ≡ i = ground arith in
      (
        next j status,
        rw q (rw here refl),
        subst (λ x. Frozen x (next j status)) one (next-Frozen j status (w.keyed k j found).0),
        let r = ap (λ (x : Intent). x.intent_revision) one in omega arith,
      )
  | inr away ↦ (i, rw q (rw away e), refl, omega arith)
]

-- An intent is immutable but for its status and its revision. Whatever calls a consistent store is
-- given, with intents whose texts are stripped, it holds each intent under the same id, with the
-- same identity and admitted lineage, at no earlier revision.
pub calls-Holds :
    (store : Store) (cs : List Call) (id : String) (i : Intent)
    → All WellFormed cs
    → IsLinked store
    → store.items id ≡ some i
    → Holds (calls store cs) id i
unfolding calls
calls-Holds store [] id i ws w e = (i, e, refl, omega arith)
calls-Holds store (c ∷ cs) id i ws w e =
    let change = call-Change store c ws.0 in
    let (j, e', f, le) = Change-Holds id i change w e in
    let (k, e'', g, le') =
      calls-Holds (call store c).1 cs id j ws.1 (Change-IsLinked change w) e' in
    (k, e'', rw f at g, omega arith)

-- in a consistent store, a Slice has one intent
IsLinked-unique :
    (store : Store) (a b : String) (i j : Intent)
    → IsLinked store
    → store.items a ≡ some i
    → store.items b ≡ some j
    → i.saga_id ≡ j.saga_id
    → i.execution_slice_hash ≡ j.execution_slice_hash
    → (a ≡ b) × (i ≡ j)
IsLinked-unique store a b i j w e e' s h =
    let (_, _, x) = w.keyed a i e in
    let (_, _, y) = w.keyed b j e' in let k : a ≡ b = ground arith in (k, ground arith)

-- A Saga's Slice never has two intents. After any calls to a consistent store, with intents whose
-- texts are stripped, two intents of the same Saga and Slice are the same intent, under the same id.
pub calls_unique :
    (store : Store) (cs : List Call) (a b : String) (i j : Intent)
    → All WellFormed cs
    → IsLinked store
    → (calls store cs).items a ≡ some i
    → (calls store cs).items b ≡ some j
    → i.saga_id ≡ j.saga_id
    → i.execution_slice_hash ≡ j.execution_slice_hash
    → (a ≡ b) × (i ≡ j)
calls_unique store cs a b i j ws w =
    IsLinked-unique (calls store cs) a b i j (calls-IsLinked store cs ws w)

assign-items :
    (store : Store) (id : String) (r : Result Error Intent) {i : Intent}
    → (assign store id r).0 ≡ ok i
    → (assign store id r).1.items id ≡ some i
assign-items store id (ok j) e = rw (eq_refl id) (ground arith)
assign-items store id (err _) e = cc

pub mark-items :
    (store : Store) (m : Mark) (id : String) (n : ℤ) (at : String) {i : Intent}
    → (mark store m id n at).0 ≡ ok i
    → (mark store m id n at).1.items id ≡ some i
unfolding mark
mark-items store m id n at e = assign-items store id _ e

-- A transition is a strict compare-and-set. After one that was accepted, another of the same intent
-- at the same revision is refused.
pub mark-stale :
    (store : Store) (m m' : Mark) (id : String) (n : ℤ) (at at' : String) {i j : Intent}
    → (mark store m id n at).0 ≡ ok i
    → (mark (mark store m id n at).1 m' id n at').0 ≢ ok j
mark-stale store m m' id n at at' {i} {j} e e' =
    let (a, _, now, out) = mark-eq-ok store m id n at e in
    let (b, found, now', _) = mark-eq-ok (mark store m id n at).1 m' id n at' e' in
    let held = mark-items store m id n at e in
    let r : i.intent_revision ≡ a.intent_revision + 1 =
      ap (λ (x : Intent). x.intent_revision) out in
    ground arith
