-- ===== src/Dispatch/Tests.antt =====
-- An intent that is prepared, dispatched and prepared again, and the theorems at these inputs.
use dsp.Prelude.{String, ◌≡◌, ◌≢◌, refl, some, none, ok, List, [], ◌∷◌, pos}
use dsp.Prelude.Text.{strip}
use dsp.Contracts.{text, digest, optional_text}
use dsp.Dispatch.Intent.{
  Intent, Lineage, build_host_dispatch_intent, prepared, dispatched, check_intent,
}
use dsp.Dispatch.Store.{
  new_store, Call, prepares, marks, mark_dispatched, mark_outcome_unknown, calls, prepare, mark,
  call, transitioned,
}
use dsp.Dispatch.Changes.{IsNormal}
use dsp.Dispatch.Linked.{IsLinked, Frozen, calls-IsLinked, new_store-IsLinked}
use dsp.Dispatch.Laws.{Holds, calls-Holds, calls_unique, mark-stale}
use dsp.Dispatch.Recovery.{prepare-recovers}
use dsp.Dispatch.Lookup.{prepare-get}
use dsp.Dispatch.Store.{get_for_saga_slice}
use dsp.Dispatch.Intent.{check_intent}

abbrev zeros : String
zeros = "0000000000000000000000000000000000000000000000000000000000000000"

-- an identity for tests
abbrev first_of : String → String → String
first_of namespace name = namespace

abbrev lineage : Lineage
lineage = record {
  saga_id = "SGV2-000000000000";
  execution_slice_hash = zeros;
  grant_hash = zeros;
  binding_set_hash = zeros;
  host_instance_id = "host";
  document_ref = "doc";
  expected_host_revision = none;
}

abbrev id : String
id = "e0bdb3eb-6c43-5c2a-beb6-e55eb9f252d3"

abbrev intent_at : String → Intent
intent_at at = record {
  dispatch_intent_id = id;
  saga_id = "SGV2-000000000000";
  execution_slice_hash = zeros;
  grant_hash = zeros;
  binding_set_hash = zeros;
  host_instance_id = "host";
  document_ref = "doc";
  idempotency_key = "691eb245-0ea4-50a4-9671-3dd5abf22c79";
  expected_host_revision = none;
  status = prepared;
  intent_revision = 0;
  prepared_at = at;
}

abbrev session : List Call
session =
    prepares (intent_at "09:00")
    ∷ marks mark_dispatched id (pos 0) "09:01"
    ∷ marks (mark_outcome_unknown "timeout") id (pos 1) "09:02"
    ∷ []

intent_IsNormal : IsNormal (intent_at "09:00")
unfolding strip
intent_IsNormal = refl

built : build_host_dispatch_intent first_of lineage "09:00" ≡ ok (intent_at "09:00")
unfolding build_host_dispatch_intent text digest optional_text
built = refl

rebuilt : build_host_dispatch_intent first_of lineage "10:00" ≡ ok (intent_at "10:00")
unfolding build_host_dispatch_intent text digest optional_text
rebuilt = refl

accepted : (prepare new_store (intent_at "09:00")).0 ≡ ok (intent_at "09:00")
unfolding prepare
accepted = refl

calls-IsLinked_example : IsLinked (calls new_store session)
calls-IsLinked_example =
    calls-IsLinked new_store session (intent_IsNormal, (tt, (tt, tt))) new_store-IsLinked

one_intent-IsLinked : IsLinked (calls new_store (prepares (intent_at "09:00") ∷ []))
one_intent-IsLinked =
    calls-IsLinked new_store (prepares (intent_at "09:00") ∷ []) (intent_IsNormal, tt)
      new_store-IsLinked

held : (calls new_store (prepares (intent_at "09:00") ∷ [])).items id ≡ some (intent_at "09:00")
unfolding calls call prepare
held = refl

calls-Holds_example :
    Holds
      (calls (calls new_store (prepares (intent_at "09:00") ∷ [])) session)
      id
      (intent_at "09:00")
calls-Holds_example =
    calls-Holds (calls new_store (prepares (intent_at "09:00") ∷ [])) session id (intent_at "09:00")
      (intent_IsNormal, (tt, (tt, tt))) one_intent-IsLinked held

-- a second intent of the Slice, under another id, is refused
abbrev twice : List Call
twice =
    prepares (intent_at "09:00")
    ∷ prepares (record (intent_at "10:00") { dispatch_intent_id = "other" })
    ∷ []

twice_held : (calls new_store twice).items id ≡ some (intent_at "09:00")
unfolding calls call prepare dsp.Dispatch.Store.same_admitted_lineage
twice_held = refl

other_IsNormal : IsNormal (record (intent_at "10:00") { dispatch_intent_id = "other" })
unfolding strip
other_IsNormal = refl

calls_unique_example : (◌≡◌ {A = String} id id) × (intent_at "09:00" ≡ intent_at "09:00")
calls_unique_example =
    calls_unique new_store twice id id (intent_at "09:00") (intent_at "09:00")
      (intent_IsNormal, (other_IsNormal, tt)) new_store-IsLinked twice_held twice_held refl refl

prepare-recovers_example :
    let later = calls (prepare new_store (intent_at "09:00")).1 session in
    (k : Intent) × Frozen (intent_at "09:00") k
    × (prepare later (intent_at "10:00") ≡ (ok k, later))
prepare-recovers_example =
    prepare-recovers first_of lineage "09:00" "10:00" new_store session new_store-IsLinked built
      accepted (intent_IsNormal, (tt, (tt, tt))) rebuilt

marked :
    (mark
      (calls new_store (prepares (intent_at "09:00") ∷ []))
      mark_dispatched
      id
      (pos 0)
      "09:01").0
    ≡ ok (record (intent_at "09:00") { status = dispatched; intent_revision = 1 })
unfolding mark transitioned calls call prepare text check_intent digest optional_text
marked = refl

mark-stale_example :
    (mark
      (mark
        (calls new_store (prepares (intent_at "09:00") ∷ []))
        mark_dispatched
        id
        (pos 0)
        "09:01").1
      (mark_outcome_unknown "timeout")
      id
      (pos 0)
      "09:02").0
    ≢ ok (intent_at "09:00")
mark-stale_example =
    mark-stale (calls new_store (prepares (intent_at "09:00") ∷ [])) mark_dispatched
      (mark_outcome_unknown "timeout") id (pos 0) "09:01" "09:02" marked

made : check_intent (intent_at "09:00") ≡ ok (intent_at "09:00")
unfolding check_intent text digest optional_text
made = refl

prepare-get_example :
    get_for_saga_slice (prepare new_store (intent_at "09:00")).1 "SGV2-000000000000" zeros
    ≡ ok (some (intent_at "09:00"))
prepare-get_example = prepare-get new_store (intent_at "09:00") new_store-IsLinked made accepted
