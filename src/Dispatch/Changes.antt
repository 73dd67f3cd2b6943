-- ===== src/Dispatch/Changes.antt =====
-- What a call does to the store of dispatch intents.
use dsp.Prelude.{
  Bool, ℕ, ◌+◌, String, ◌≡◌, refl, sym, ap, ◌∙◌, Option, none, some, Result, ok, err, ◌⊎◌, arith,
  true, false, if◌then◌else◌, ℤ, pos, negsuc, ◌>>◌, >>=-eq-ok,
}
use dsp.Prelude.Dict.{update, update₂}
use dsp.Prelude.Text.{strip}
use dsp.Contracts.{Error, value_error, text}
use dsp.Contracts.Normal.{strip?, text_cases, digest_cases, optional_text_cases}
use dsp.Dispatch.Intent.{DispatchStatus, Intent, check_intent}
use dsp.Dispatch.Store.{
  Store, prepare, prepare_at, inserted, replayed, mark, Mark, assign, advanced, transitioned,
  check_evidence, target, Call, prepares, marks, call, expected_revision,
}

abbrev pub normalised : Intent → Intent
normalised i = record i {
  saga_id = strip i.saga_id;
  execution_slice_hash = strip i.execution_slice_hash;
  grant_hash = strip i.grant_hash;
  binding_set_hash = strip i.binding_set_hash;
  host_instance_id = strip i.host_instance_id;
  document_ref = strip i.document_ref;
  expected_host_revision = strip? i.expected_host_revision;
  prepared_at = strip i.prepared_at;
}

-- the texts are stripped, as the constructor leaves them
abbrev pub IsNormal : Intent → Type 0
IsNormal i = normalised i ≡ i

pub check_intent_cases :
    (i : Intent) → (check_intent i ≡ ok (normalised i)) ⊎ (check_intent i ≡ err value_error)
unfolding check_intent
check_intent_cases i = ground (
  arith,
  text_cases i.saga_id,
  digest_cases i.execution_slice_hash,
  digest_cases i.grant_hash,
  digest_cases i.binding_set_hash,
  text_cases i.host_instance_id,
  text_cases i.document_ref,
  optional_text_cases i.expected_host_revision,
  text_cases i.prepared_at,
)

abbrev pub next : Intent → DispatchStatus → Intent
next i status = normalised (record i { status = status; intent_revision = i.intent_revision + 1 })

-- a change of the store
pub data Change (store store' : Store) : Type 0 where
  same : store' ≡ store → Change store store'
  insert :
      (i : Intent)
      → IsNormal i
      → store.items i.dispatch_intent_id ≡ none
      → store.by_slice i.saga_id i.execution_slice_hash ≡ none
      → store' ≡ record {
        items = update store.items i.dispatch_intent_id i;
        by_slice = update₂ store.by_slice i.saga_id i.execution_slice_hash i.dispatch_intent_id;
      }
      → Change store store'
  advance :
      (id : String) (i : Intent) (status : DispatchStatus)
      → store.items id ≡ some i
      → store' ≡ record store { items = update store.items id (next i status) }
      → Change store store'

replayed-Change :
    (store : Store) (o : Option Intent) (i : Intent) → Change store (replayed store o i).1
replayed-Change store none i = same refl
replayed-Change store (some existing) i = same (ground arith)

pub prepare-Change : (store : Store) (i : Intent) → IsNormal i → Change store (prepare store i).1
unfolding prepare
prepare-Change store i n = go _ _ refl
  where
    pick :
        (o : Option Intent)
        → store.items i.dispatch_intent_id ≡ o
        → store.by_slice i.saga_id i.execution_slice_hash ≡ none
        → Change store (inserted store o i).1
    pick none e e' = insert i n e e' refl
    pick (some _) e e' = same refl

    go :
        (b : Bool) (o : Option String)
        → store.by_slice i.saga_id i.execution_slice_hash ≡ o
        → Change store (if b then prepare_at store o i else (err value_error, store)).1
    go false o e = same refl
    go true none e = pick _ refl e
    go true (some id) e = replayed-Change store (store.items id) i

advanced-eq-ok :
    (o : Option Intent) (revision : ℕ) (status : DispatchStatus) {j : Intent}
    → advanced o revision status ≡ ok j
    → (i : Intent) × (o ≡ some i) × (i.intent_revision ≡ revision) × (j ≡ next i status)
advanced-eq-ok none revision status h = cc
advanced-eq-ok (some i) revision status h = (
  i,
  refl,
  ground (
    arith,
    check_intent_cases (record i { status = status; intent_revision = i.intent_revision + 1 }),
  ),
  ground (
    arith,
    check_intent_cases (record i { status = status; intent_revision = i.intent_revision + 1 }),
  ),
)

assign-result : (store : Store) (id : String) (r : Result Error Intent) → (assign store id r).0 ≡ r
assign-result store id (ok i) = refl
assign-result store id (err e) = refl

expected_revision-eq-ok : (n : ℤ) {k : ℕ} → expected_revision n ≡ ok k → n ≡ pos k
expected_revision-eq-ok (pos n) e = ground arith
expected_revision-eq-ok (negsuc n) e = cc

-- a transition that returns has read the intent at the revision that the caller expected
pub mark-eq-ok :
    (store : Store) (m : Mark) (id : String) (expected : ℤ) (at : String) {j : Intent}
    → (mark store m id expected at).0 ≡ ok j
    → (i : Intent) × (store.items id ≡ some i)
      × (expected ≡ pos i.intent_revision)
      × (j ≡ next i (target m))
unfolding mark transitioned
mark-eq-ok store m id expected at {j} h =
    let (_, _, e₁) = >>=-eq-ok (check_evidence m) _ (sym (assign-result store id _) ∙ h) in
    let (revision, known, e₂) = >>=-eq-ok (expected_revision expected) _ e₁ in
    let (_, _, e₃) = >>=-eq-ok (text at) _ e₂ in
    let (i, found, now, out) = advanced-eq-ok (store.items id) revision (target m) e₃ in
    (i, found, expected_revision-eq-ok expected known ∙ ap pos (sym now), out)

mark-Change :
    (store : Store) (m : Mark) (id : String) (expected : ℤ) (at : String)
    → Change store (mark store m id expected at).1
unfolding mark
mark-Change store m id expected at = go _ refl
  where
    go :
        (r : Result Error Intent)
        → (check_evidence m >> transitioned store id expected (target m) at) ≡ r
        → Change store (assign store id r).1
    go (err _) e = same refl
    go (ok j) e =
        let (i, found, _, out) =
          mark-eq-ok store m id expected at (ap (λ r. (assign store id r).0) e) in
        advance id i (target m) found (λ k. record store { items = update store.items id (out k) })

-- the intents that a call brings are instances, so that their texts are stripped
abbrev pub WellFormed : Call → Type 0
WellFormed (prepares i) = IsNormal i
WellFormed (marks _ _ _ _) = Unit

pub call-Change : (store : Store) (c : Call) → WellFormed c → Change store (call store c).1
unfolding call
call-Change store (prepares i) w = prepare-Change store i w
call-Change store (marks m id expected at) w = mark-Change store m id expected at
