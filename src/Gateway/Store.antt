-- ===== src/Gateway/Store.antt =====
-- InMemoryGatewayAuthorizationStoreV2 of store_v2.py. A method returns a value or raises, and leaves
-- a store: one that raises may have recorded an expiry before.
use dsp.Prelude.{
  ℕ, String, Option, none, some, List, [], ◌∷◌, ◌++◌, Result, ok, err, ◌==◌, Bool, true, false,
  if◌then◌else◌, leb, ◌&&◌,
}
use dsp.Prelude.Dict.{Dict, update}
use dsp.Saga.Evidence.{Authority}
use dsp.Gateway.Grant.{
  GatewayError, value_error, approval_admission_already_consumed, approval_admission_conflict,
  ApprovalRecord, key_error, approval_record_not_found, approval_revoked, execution_grant_conflict,
  execution_grant_revoked, execution_grant_expired, execution_grant_already_admitted, GrantState,
  active, admitted, revoked, expired, ApprovalState, Grant, StoredGrant, Lineage, lineage_of,
  same_lineage,
}

pub record Store : Type 0 where
  -- `_consumptions`: of each consumed admission its fingerprint and its approval
  pub consumptions : Dict (String × String)
  -- the lifecycle state of each approval in `_approvals`
  pub approvals : Dict ApprovalState
  -- `_grants_v2` and `_lineages_v2`, where a missing key reads like an empty list
  pub grants : Dict StoredGrant
  pub lineages : Lineage → List String

abbrev pub Outcome {ℓ} : Type ℓ → Type ℓ
Outcome A = Result GatewayError A × Store

-- `_lineages_v2[lineage] = hashes`
abbrev pub set_lineage : (Lineage → List String) → Lineage → List String → Lineage → List String
set_lineage lineages l hashes k = if same_lineage l k then hashes else lineages k

-- `hashes[-1]`
abbrev pub last : String → List String → String
last h [] = h
last h (k ∷ ks) = last k ks

abbrev pub is_active : GrantState → Bool
is_active active = true
is_active _ = false

abbrev pub activated : Grant → StoredGrant
activated g = record { grant = g; state = active; admitted_at = none }

-- the grant becomes the active one of its lineage, after `hashes`
abbrev pub append_grant : Store → List String → Grant → Store
append_grant store hashes g = record store {
  grants = update store.grants g.grant_hash (activated g);
  lineages = set_lineage store.lineages (lineage_of g) (hashes ++ (g.grant_hash ∷ []));
}

-- the first grant of its lineage
abbrev pub issue_first : Store → Option StoredGrant → Grant → Outcome Grant
issue_first store none g = (ok g, append_grant store [] g)
issue_first store (some existing) g = (
  ok existing.grant,
  record store {
    lineages = set_lineage store.lineages (lineage_of g) (existing.grant.grant_hash ∷ []);
  },
)

-- the branches on the current grant of the lineage, by `same_binding` and its state
abbrev pub issue_over :
    Store → List String → Bool → GrantState → StoredGrant → Grant → Outcome Grant
issue_over store hashes true active current g = (ok current.grant, store)
issue_over store hashes true admitted current g = (ok current.grant, store)
issue_over store hashes true revoked current g = (err execution_grant_revoked, store)
issue_over store hashes true expired current g = (err execution_grant_expired, store)
issue_over store hashes false admitted current g = (err execution_grant_already_admitted, store)
issue_over store hashes false active current g = (
  ok g,
  append_grant
      (record store {
        grants = update store.grants current.grant.grant_hash (record current { state = revoked });
      })
      hashes g,
)
issue_over store hashes false revoked current g = (ok g, append_grant store hashes g)
issue_over store hashes false expired current g = (ok g, append_grant store hashes g)

-- `_utc_timestamp` checks and normalises a time, and `instant` is the moment of a normalised one
module _ (utc_timestamp : String → Result GatewayError String) (instant : String → ℕ) where
  abbrev pub is_over : StoredGrant → String → Bool
  is_over s at = elim (is_active s.state) [
    | true ↦ leb (instant s.grant.expires_at) (instant at)
    | false ↦ false
  ]

  abbrev pub expiry_if : Bool → Store → StoredGrant → StoredGrant × Store
  expiry_if false store s = (s, store)
  expiry_if true store s =
      let projected = record s { state = expired; admitted_at = none } in
      (projected, record store { grants = update store.grants s.grant.grant_hash projected })

  -- _project_expiry_v2
  unfoldable pub project_expiry : Store → StoredGrant → String → StoredGrant × Store
  project_expiry store s at = expiry_if (is_over s at) store s

  abbrev pub issue_next : Store → List String → Option StoredGrant → Grant → Outcome Grant
  issue_next store hashes none g = (err key_error, store)
  issue_next store hashes (some c) g =
      let (current, store') = project_expiry store c g.issued_at in
      issue_over store' hashes (current.grant.binding_set_hash == g.binding_set_hash) current.state
        current g

  abbrev pub issue_after : Store → List String → Grant → Outcome Grant
  issue_after store [] g = issue_first store (store.grants g.grant_hash) g
  issue_after store (h ∷ hs) g = issue_next store (h ∷ hs) (store.grants (last h hs)) g

  -- issue_or_get_grant_v2
  unfoldable pub issue_or_get_grant : Store → Grant → Outcome Grant
  unfolding project_expiry
  issue_or_get_grant store g = issue_after store (store.lineages (lineage_of g)) g

  -- get_grant_v2
  unfoldable pub get_grant : Store → String → Option Grant
  get_grant store h = elim (store.grants h) [ none ↦ none | some s ↦ some s.grant ]

  -- _admitted_authority_v2
  unfoldable pub admitted_authority : StoredGrant → Result GatewayError Authority
  admitted_authority s = elim s.admitted_at [
    | none ↦ err execution_grant_conflict
    | some at ↦
        let g = s.grant in
        ok (record {
          approval_hash = g.approval_hash;
          grant_hash = g.grant_hash;
          changeset_hash = g.changeset_hash;
          approved_scope_hash = g.approved_scope_hash;
          materialization_plan_hash = g.materialization_plan_hash;
          materialization_id = g.materialization_id;
          execution_slice_hash = g.execution_slice_hash;
          binding_set_hash = g.binding_set_hash;
          host_instance_id = g.host_instance_id;
          admitted_at = at;
        })
  ]

  -- an active grant, after the projection of its expiry
  abbrev pub admit_projected :
      Store → String → GrantState → StoredGrant → String → Outcome Authority
  admit_projected store h expired s at = (err execution_grant_expired, store)
  admit_projected store h _ s at =
      let now = record s { state = admitted; admitted_at = some at } in
      (admitted_authority now, record store { grants = update store.grants h now })

  abbrev pub admit_state : Store → String → GrantState → StoredGrant → String → Outcome Authority
  admit_state store h admitted s at = (admitted_authority s, store)
  admit_state store h revoked s at = (err execution_grant_revoked, store)
  admit_state store h expired s at = (err execution_grant_expired, store)
  admit_state store h active s at =
      let (projected, store') = project_expiry store s at in
      admit_projected store' h projected.state projected at

  -- the parent approval
  abbrev pub admit_under :
      Store → String → Option ApprovalState → StoredGrant → String → Outcome Authority
  admit_under store h none s at = (err approval_record_not_found, store)
  admit_under store h (some ApprovalState.revoked) s at = (err approval_revoked, store)
  admit_under store h (some ApprovalState.active) s at = admit_state store h s.state s at

  abbrev pub admit_found : Store → String → Option StoredGrant → String → Outcome Authority
  admit_found store h none at = (err execution_grant_conflict, store)
  admit_found store h (some s) at = admit_under store h (store.approvals s.grant.approval_id) s at

  abbrev pub admit_at : Store → String → Result GatewayError String → Outcome Authority
  admit_at store h (err e) = (err e, store)
  admit_at store h (ok at) = admit_found store h (store.grants h) at

  -- admit_grant_v2
  unfoldable pub admit_grant : Store → String → String → Outcome Authority
  unfolding project_expiry admitted_authority
  admit_grant store h at = admit_at store h (utc_timestamp at)

abbrev pub revoked_at : Store → String → Option ApprovalState → Outcome (Unit {0})
revoked_at store approval_id none = (err approval_record_not_found, store)
revoked_at store approval_id (some _) =
    (ok tt, record store { approvals = update store.approvals approval_id ApprovalState.revoked })

-- what `revoke_approval` does to the approval; it leaves the grants of version 2 as they are
unfoldable pub revoke_approval : Store → String → Outcome (Unit {0})
revoke_approval store approval_id = revoked_at store approval_id (store.approvals approval_id)

-- by what the admission was consumed with before
abbrev pub consume_over :
    Store → Option (String × String) → String → ApprovalRecord → Outcome ApprovalRecord
consume_over store (some (fingerprint, _)) admission_fingerprint r = (
  err (
      if fingerprint == admission_fingerprint
      then approval_admission_already_consumed
      else approval_admission_conflict),
  store,
)
consume_over store none admission_fingerprint r = (
  ok r,
  record store {
    approvals = update store.approvals r.approval_id ApprovalState.active;
    consumptions = update store.consumptions r.admission_id (admission_fingerprint, r.approval_id);
  },
)

abbrev pub consume_matching : Bool → Store → String → ApprovalRecord → Outcome ApprovalRecord
consume_matching false store admission_fingerprint r = (err value_error, store)
consume_matching true store admission_fingerprint r =
    consume_over store (store.consumptions r.admission_id) admission_fingerprint r

-- consume_admission_once: the admission is the one that the record names
unfoldable pub consume_admission_once :
    Store → String → String → ApprovalRecord → Outcome ApprovalRecord
consume_admission_once store admission_id admission_fingerprint r =
    consume_matching
      (admission_id == r.admission_id && admission_fingerprint == r.admission_fingerprint) store
      admission_fingerprint r
