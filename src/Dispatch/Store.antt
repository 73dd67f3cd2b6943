-- ===== src/Dispatch/Store.antt =====
-- InMemoryHostDispatchIntentStore of dispatch_intent_store.py. A method returns a value or raises,
-- and leaves a store; one that raises has assigned nothing.
use dsp.Prelude.{
  ℕ, ◌+◌, String, Option, none, some, List, [], ◌∷◌, Result, ok, err, ◌>>=◌, ◌>>◌, guard, ◌==◌,
  ◌&&◌, Bool, true, false, if◌then◌else◌, nat_eq, ℤ, pos, negsuc,
}
use dsp.Prelude.Dict.{Dict, update, update₂, empty}
use dsp.Contracts.{Error, value_error, key_error, dispatch_intent_conflict, text, digest}
use dsp.Dispatch.Intent.{
  DispatchStatus, prepared, dispatched, outcome_unknown, host_committed, safe_to_retry, reconciled,
  Intent, check_intent,
}

pub record Store : Type 0 where
  -- `self._items` and `self._by_slice`
  pub items : Dict Intent
  pub by_slice : String → Dict String

-- what a method returned or raised, and the store after it
abbrev pub Outcome : Type 0
Outcome = Result Error Intent × Store

abbrev pub new_store : Store
new_store = record { items = empty; by_slice = λ _. empty }

-- _expected_revision
abbrev pub expected_revision : ℤ → Result Error ℕ
expected_revision (pos n) = ok n
expected_revision (negsuc n) = err value_error

-- _same_admitted_lineage
unfoldable pub same_admitted_lineage : Intent → Intent → Bool
same_admitted_lineage existing candidate =
    existing.dispatch_intent_id == candidate.dispatch_intent_id
    && existing.grant_hash == candidate.grant_hash
    && existing.binding_set_hash == candidate.binding_set_hash
    && existing.host_instance_id == candidate.host_instance_id
    && existing.document_ref == candidate.document_ref
    && existing.idempotency_key == candidate.idempotency_key

abbrev pub is_prepared : DispatchStatus → Bool
is_prepared prepared = true
is_prepared _ = false

-- the intent that the slice index names
abbrev pub replayed : Store → Option Intent → Intent → Outcome
replayed store none intent = (err key_error, store)
replayed store (some existing) intent =
    if same_admitted_lineage existing intent
    then (ok existing, store)
    else (err dispatch_intent_conflict, store)

-- a first intent of its Slice
abbrev pub inserted : Store → Option Intent → Intent → Outcome
inserted store (some _) intent = (err dispatch_intent_conflict, store)
inserted store none intent = (
  ok intent,
  record {
    items = update store.items intent.dispatch_intent_id intent;
    by_slice =
        update₂ store.by_slice intent.saga_id intent.execution_slice_hash intent.dispatch_intent_id;
  },
)

abbrev pub prepare_at : Store → Option String → Intent → Outcome
prepare_at store (some id) intent = replayed store (store.items id) intent
prepare_at store none intent = inserted store (store.items intent.dispatch_intent_id) intent

-- prepare
unfoldable pub prepare : Store → Intent → Outcome
prepare store intent =
    if is_prepared intent.status && nat_eq intent.intent_revision 0
    then prepare_at store (store.by_slice intent.saga_id intent.execution_slice_hash) intent
    else (err value_error, store)

-- get
unfoldable pub get : Store → String → Option Intent
get store id = store.items id

-- get_for_saga_slice
abbrev present : Option Intent → Result Error (Option Intent)
present none = err key_error
present (some i) = ok (some i)

abbrev found : Store → Option String → Result Error (Option Intent)
found store none = ok none
found store (some id) = present (store.items id)

unfoldable pub get_for_saga_slice : Store → String → String → Result Error (Option Intent)
get_for_saga_slice store saga_id slice_hash = do
  s ← text saga_id
  h ← digest slice_hash
  found store (store.by_slice s h)

-- the intent at its next revision
abbrev pub advanced : Option Intent → ℕ → DispatchStatus → Result Error Intent
advanced none revision target = err dispatch_intent_conflict
advanced (some existing) revision target = do
  guard (nat_eq existing.intent_revision revision) dispatch_intent_conflict
  check_intent (record existing { status = target; intent_revision = existing.intent_revision + 1 })

-- `self._items[dispatch_intent_id] = updated; return updated`
abbrev pub assign : Store → String → Result Error Intent → Outcome
assign store id (ok i) = (ok i, record store { items = update store.items id i })
assign store id (err e) = (err e, store)

-- the checks of _transition, and its result
unfoldable pub transitioned : Store → String → ℤ → DispatchStatus → String → Result Error Intent
transitioned store id expected target observed_at = do
  revision ← expected_revision expected
  _ ← text observed_at
  advanced (store.items id) revision target

-- a `mark_…` method with its evidence
pub data Mark : Type 0 where
  mark_dispatched : Mark
  mark_outcome_unknown : String → Mark
  mark_host_committed : String → Mark
  mark_safe_to_retry : String → Mark
  mark_reconciled : String → Mark

abbrev pub target : Mark → DispatchStatus
target mark_dispatched = dispatched
target (mark_outcome_unknown _) = outcome_unknown
target (mark_host_committed _) = host_committed
target (mark_safe_to_retry _) = safe_to_retry
target (mark_reconciled _) = reconciled

abbrev pub check_evidence : Mark → Result Error (Unit {0})
check_evidence mark_dispatched = ok tt
check_evidence (mark_outcome_unknown failure_ref) = do _ ← text failure_ref; ok tt
check_evidence (mark_host_committed evidence_hash) = do _ ← digest evidence_hash; ok tt
check_evidence (mark_safe_to_retry evidence_ref) = do _ ← text evidence_ref; ok tt
check_evidence (mark_reconciled evidence_hash) = do _ ← digest evidence_hash; ok tt

-- mark_dispatched, mark_outcome_unknown, mark_host_committed, mark_safe_to_retry, mark_reconciled
unfoldable pub mark : Store → Mark → String → ℤ → String → Outcome
unfolding transitioned
mark store m id expected observed_at =
    assign store id (check_evidence m >> transitioned store id expected (target m) observed_at)

-- a call of a method that writes
pub data Call : Type 0 where
  prepares : Intent → Call
  marks : Mark → String → ℤ → String → Call

unfoldable pub call : Store → Call → Outcome
unfolding prepare mark
call store (prepares i) = prepare store i
call store (marks m id expected at) = mark store m id expected at

unfoldable pub calls : Store → List Call → Store
calls store [] = store
calls store (c ∷ cs) = calls (call store c).1 cs
