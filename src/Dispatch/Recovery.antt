-- ===== src/Dispatch/Recovery.antt =====
-- Recovery after a crash: the same admitted lineage is prepared again.
use dsp.Prelude.{
  Bool, String, ◌≡◌, refl, sym, ap, subst, ◌∙◌, Option, none, some, List, inl, inr, arith, ◌&&◌,
  true, false, if◌then◌else◌, eq_iff, eq_refl, All, ok, err, nat_eq, Bool-cases,
}
use dsp.Prelude.Text.{strip}
use dsp.Prelude.Strip.{strip_idem}
use dsp.Contracts.{value_error}
use dsp.Contracts.Normal.{strip?, strip?_idem, text_cases, digest_cases, optional_text_cases}
use dsp.Dispatch.Intent.{
  Intent, Lineage, build_host_dispatch_intent, prepared, intent_name, dispatch_namespace,
  idempotency_namespace,
}
use dsp.Dispatch.Store.{
  Store, Call, calls, prepare, replayed, inserted, prepare_at, same_admitted_lineage, is_prepared,
}
use dsp.Dispatch.Changes.{IsNormal, WellFormed, prepare-Change, check_intent_cases}
use dsp.Dispatch.Linked.{IsLinked, Frozen, calls-IsLinked, Change-IsLinked}
use dsp.Dispatch.Laws.{calls-Holds}

-- the intent that a lineage gives
abbrev pub first_intent : (String → String → String) → Lineage → String → Intent
first_intent uuid5 l at =
    let name =
      intent_name (strip l.saga_id) (strip l.execution_slice_hash) (strip l.grant_hash)
        (strip l.binding_set_hash) (strip l.host_instance_id) (strip l.document_ref) in
    record {
      dispatch_intent_id = uuid5 dispatch_namespace name;
      saga_id = strip l.saga_id;
      execution_slice_hash = strip l.execution_slice_hash;
      grant_hash = strip l.grant_hash;
      binding_set_hash = strip l.binding_set_hash;
      host_instance_id = strip l.host_instance_id;
      document_ref = strip l.document_ref;
      idempotency_key = uuid5 idempotency_namespace name;
      expected_host_revision = strip? l.expected_host_revision;
      status = prepared;
      intent_revision = 0;
      prepared_at = strip at;
    }

ruleset stripped = (strip_idem, strip?_idem)

first_intent-IsNormal :
    (uuid5 : String → String → String) (l : Lineage) (at : String)
    → IsNormal (first_intent uuid5 l at)
first_intent-IsNormal uuid5 l at = simp stripped

pub build-eq-ok :
    (uuid5 : String → String → String) (l : Lineage) (at : String) {i : Intent}
    → build_host_dispatch_intent uuid5 l at ≡ ok i
    → i ≡ first_intent uuid5 l at
unfolding build_host_dispatch_intent
build-eq-ok uuid5 l at e =
    let n = first_intent-IsNormal uuid5 l at in
    ground (
      arith,
      text_cases l.saga_id,
      digest_cases l.execution_slice_hash,
      digest_cases l.grant_hash,
      digest_cases l.binding_set_hash,
      text_cases l.host_instance_id,
      text_cases l.document_ref,
      optional_text_cases l.expected_host_revision,
      text_cases at,
      check_intent_cases (first_intent uuid5 l at),
    )

-- what an accepted intent is after `prepare`
pub record Prepared (store : Store) (i k : Intent) : Type 0 where
  pub held : store.items i.dispatch_intent_id ≡ some k
  pub slice : store.by_slice i.saga_id i.execution_slice_hash ≡ some i.dispatch_intent_id
  pub lineage : same_admitted_lineage k i ≡ true

same_admitted_lineage_refl : (i : Intent) → same_admitted_lineage i i ≡ true
unfolding same_admitted_lineage
same_admitted_lineage_refl i = simp eq_refl

replayed-eq-ok :
    (store : Store) (x i : Intent) {k : Intent}
    → (replayed store (some x) i).0 ≡ ok k
    → (x ≡ k) × (same_admitted_lineage x i ≡ true) × ((replayed store (some x) i).1 ≡ store)
replayed-eq-ok store x i e = elim (Bool-cases (same_admitted_lineage x i)) [
  | inl same ↦ (ground arith, same, rw same refl)
  | inr other ↦ ground arith
]

lineage-id :
    (x i : Intent) → same_admitted_lineage x i ≡ true → x.dispatch_intent_id ≡ i.dispatch_intent_id
unfolding same_admitted_lineage
lineage-id x i e = ground (arith, eq_iff x.dispatch_intent_id i.dispatch_intent_id)

pub prepare-Prepared :
    (store : Store) (i : Intent) {k : Intent}
    → IsLinked store
    → (prepare store i).0 ≡ ok k
    → Prepared (prepare store i).1 i k
unfolding prepare
prepare-Prepared store i {k} w e = go (is_prepared i.status && nat_eq i.intent_revision 0) _ refl e
  where
    accept :
        (id : String)
        → store.by_slice i.saga_id i.execution_slice_hash ≡ some id
        → (r : Option Intent) → store.items id ≡ r
        → (replayed store r i).0 ≡ ok k
        → Prepared (replayed store r i).1 i k
    accept id slice none held e = cc
    accept id slice (some x) held e =
        let run = replayed-eq-ok store x i e in
        let one : x ≡ k = run.0 in
        let key = (w.keyed id x held).1 in
        let at : id ≡ i.dispatch_intent_id = sym key ∙ lineage-id x i run.1 in
        rw run.2 (record {
          held = rw at at (held ∙ ap some one);
          slice = slice ∙ ap some at;
          lineage = rw one at run.1;
        })

    insert :
        (r : Option Intent)
        → store.items i.dispatch_intent_id ≡ r
        → (inserted store r i).0 ≡ ok k
        → Prepared (inserted store r i).1 i k
    insert (some _) held e = cc
    insert none held e =
        let one : i ≡ k = ground arith in
        record {
          held = rw (eq_refl i.dispatch_intent_id) (ap some one);
          slice = rw (eq_refl i.saga_id, eq_refl i.execution_slice_hash) refl;
          lineage =
              subst (λ x. same_admitted_lineage x i ≡ true) one (same_admitted_lineage_refl i);
        }

    go :
        (b : Bool) (o : Option String)
        → store.by_slice i.saga_id i.execution_slice_hash ≡ o
        → (if b then prepare_at store o i else (err value_error, store)).0 ≡ ok k
        → Prepared (if b then prepare_at store o i else (err value_error, store)).1 i k
    go false o slice e = cc
    go true none slice e = insert _ refl e
    go true (some id) slice e = accept id slice _ refl e

replayed-same :
    (store : Store) (i k : Intent)
    → same_admitted_lineage k i ≡ true
    → replayed store (some k) i ≡ (ok k, store)
replayed-same store i k same = rw same refl

prepare-known :
    (store : Store) (id : String) (i k : Intent)
    → is_prepared i.status ≡ true
    → i.intent_revision ≡ 0
    → store.by_slice i.saga_id i.execution_slice_hash ≡ some id
    → store.items id ≡ some k
    → same_admitted_lineage k i ≡ true
    → prepare store i ≡ (ok k, store)
unfolding prepare
prepare-known store id i k s r slice held same =
    rw (s, ap (λ n. nat_eq n 0) r, slice, held) (replayed-same store i k same)

Frozen-lineage :
    (i k k' : Intent)
    → Frozen k k'
    → same_admitted_lineage k i ≡ true
    → same_admitted_lineage k' i ≡ true
unfolding same_admitted_lineage
Frozen-lineage i k k' f e = rw f e

-- the time of preparation takes no part in the lineage
rebuilt-lineage :
    (uuid5 : String → String → String) (l : Lineage) (at at' : String) (i j k : Intent)
    → i ≡ first_intent uuid5 l at
    → j ≡ first_intent uuid5 l at'
    → same_admitted_lineage k i ≡ true
    → same_admitted_lineage k j ≡ true
unfolding same_admitted_lineage
rebuilt-lineage uuid5 l at at' i j k p q e =
    let e' = subst (λ x. same_admitted_lineage k x ≡ true) p e in
    subst (λ x. same_admitted_lineage k x ≡ true) (sym q) e'

-- A crash between `prepare` and the Host's answer makes no second command. When a lineage was built
-- and its intent accepted by a consistent store, then after any calls with stripped intents the
-- same lineage, built again at another time, gets the stored intent back, which has the identity of
-- the accepted one, and the store is unchanged.
pub prepare-recovers :
    (uuid5 : String → String → String) (l : Lineage) (at at' : String) (store : Store)
    (cs : List Call) {i j k : Intent}
    → IsLinked store
    → build_host_dispatch_intent uuid5 l at ≡ ok i
    → (prepare store i).0 ≡ ok k
    → All WellFormed cs
    → build_host_dispatch_intent uuid5 l at' ≡ ok j
    → let later = calls (prepare store i).1 cs in
      (k' : Intent) × Frozen k k' × (prepare later j ≡ (ok k', later))
prepare-recovers uuid5 l at at' store cs {i} {j} {k} w built accepted ws rebuilt =
    let p = build-eq-ok uuid5 l at built in
    let q = build-eq-ok uuid5 l at' rebuilt in
    let n : IsNormal i = rw p (first_intent-IsNormal uuid5 l at) in
    let s = prepare-Prepared store i w accepted in
    let w' = Change-IsLinked (prepare-Change store i n) w in
    let later = calls (prepare store i).1 cs in
    let (k', held, f, _) = calls-Holds (prepare store i).1 cs i.dispatch_intent_id k ws w' s.held in
    let (x, there, saga, hash) =
      w'.known i.saga_id i.execution_slice_hash i.dispatch_intent_id s.slice in
    let one : x ≡ k = ground arith in
    let (_, _, slice) =
      (calls-IsLinked (prepare store i).1 cs ws w').keyed i.dispatch_intent_id k' held in
    let saga' : k'.saga_id ≡ j.saga_id =
      ap (λ (y : Intent). y.saga_id) f
      ∙ ap (λ (y : Intent). y.saga_id) (sym one)
      ∙ saga
      ∙ ap (λ (y : Intent). y.saga_id) p
      ∙ ap (λ (y : Intent). y.saga_id) (sym q) in
    let hash' : k'.execution_slice_hash ≡ j.execution_slice_hash =
      ap (λ (y : Intent). y.execution_slice_hash) f
      ∙ ap (λ (y : Intent). y.execution_slice_hash) (sym one)
      ∙ hash
      ∙ ap (λ (y : Intent). y.execution_slice_hash) p
      ∙ ap (λ (y : Intent). y.execution_slice_hash) (sym q) in
    (
      k',
      f,
      prepare-known later i.dispatch_intent_id j k' (ap (λ (y : Intent). is_prepared y.status) q)
          (ap (λ (y : Intent). y.intent_revision) q) (rw (saga', hash') at slice) held
          (rebuilt-lineage uuid5 l at at' i j k' p q (Frozen-lineage i k k' f s.lineage)),
    )
