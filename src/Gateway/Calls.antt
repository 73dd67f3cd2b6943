-- ===== src/Gateway/Calls.antt =====
-- Sequences of calls to the Gateway's store of grants.
use dsp.Prelude.{
  ℕ, String, ◌≡◌, Option, none, some, List, [], ◌∷◌, Result, arith, true, All, Bool, false,
}
use dsp.Gateway.Grant.{GatewayError, ApprovalRecord, ApprovalState, Grant, StoredGrant, lineage_of}
use dsp.Gateway.Store.{
  Store, issue_or_get_grant, admit_grant, revoke_approval, revoked_at, consume_admission_once,
  consume_matching, consume_over,
}
use dsp.Gateway.Exclusive.{IsExclusive, latest, is_live}
use dsp.Gateway.Methods.{issue-IsExclusive, admit-IsExclusive}

-- a call of a method that writes
pub data Call : Type 0 where
  issue : Grant → Call
  admit : String → String → Call
  revoke : String → Call
  consume : String → String → ApprovalRecord → Call

module _ (utc_timestamp : String → Result GatewayError String) (instant : String → ℕ) where
  -- the store after a call
  unfoldable pub call : Store → Call → Store
  call store (issue g) = (issue_or_get_grant utc_timestamp instant store g).1
  call store (admit h at) = (admit_grant utc_timestamp instant store h at).1
  call store (revoke approval_id) = (revoke_approval store approval_id).1
  call store (consume admission_id admission_fingerprint r) =
      (consume_admission_once store admission_id admission_fingerprint r).1

  unfoldable pub calls : Store → List Call → Store
  calls store [] = store
  calls store (c ∷ cs) = calls (call store c) cs

  module _ (content : String → Grant) where
    -- an issued grant is what its digest is of
    abbrev pub Authentic : Call → Type 0
    Authentic (issue g) = content g.grant_hash ≡ g
    Authentic (admit _ _) = Unit
    Authentic (revoke _) = Unit
    Authentic (consume _ _ _) = Unit

    revoke-IsExclusive :
        (store : Store) (approval_id : String)
        → IsExclusive content store
        → IsExclusive content (revoke_approval store approval_id).1
    unfolding revoke_approval
    revoke-IsExclusive store approval_id w = go (store.approvals approval_id)
      where
        go : (o : Option ApprovalState) → IsExclusive content (revoked_at store approval_id o).1
        go none = w
        go (some _) = record { keyed = w.keyed; owned = w.owned; live = w.live }

    consume-IsExclusive :
        (store : Store) (admission_id f : String) (r : ApprovalRecord)
        → IsExclusive content store
        → IsExclusive content (consume_admission_once store admission_id f r).1
    unfolding consume_admission_once
    consume-IsExclusive store admission_id f r w = go _
      where
        over : (o : Option (String × String)) → IsExclusive content (consume_over store o f r).1
        over (some _) = w
        over none = record { keyed = w.keyed; owned = w.owned; live = w.live }

        go : (b : Bool) → IsExclusive content (consume_matching b store f r).1
        go false = w
        go true = over (store.consumptions r.admission_id)

    pub call-IsExclusive :
        (store : Store) (c : Call)
        → Authentic c
        → IsExclusive content store
        → IsExclusive content (call store c)
    unfolding call
    call-IsExclusive store (issue g) a w =
        issue-IsExclusive content utc_timestamp instant store g a w
    call-IsExclusive store (admit h at) a w =
        admit-IsExclusive content utc_timestamp instant store h at w
    call-IsExclusive store (revoke approval_id) a w = revoke-IsExclusive store approval_id w
    call-IsExclusive store (consume admission_id f r) a w =
        consume-IsExclusive store admission_id f r w

    -- Whatever approvals are consumed and revoked and whatever grants are issued and admitted, in any
    -- order, a grant that is active or admitted is the latest of its lineage, and every grant stands
    -- under its own hash, if that held before and the issued grants are what their digests are of.
    pub calls-IsExclusive :
        (store : Store) (cs : List Call)
        → All Authentic cs
        → IsExclusive content store
        → IsExclusive content (calls store cs)
    unfolding calls
    calls-IsExclusive store [] a w = w
    calls-IsExclusive store (c ∷ cs) a w =
        calls-IsExclusive (call store c) cs a.1 (call-IsExclusive store c a.0 w)

    -- After any calls, with authentic grants and from a store in which a live grant is the latest of
    -- its lineage, two live grants of one lineage are one and the same.
    pub calls-exclusive :
        (store : Store) (cs : List Call) (h k : String) (s t : StoredGrant)
        → All Authentic cs
        → IsExclusive content store
        → (calls store cs).grants h ≡ some s
        → (calls store cs).grants k ≡ some t
        → is_live s.state ≡ true
        → is_live t.state ≡ true
        → lineage_of s.grant ≡ lineage_of t.grant
        → (h ≡ k) × (s ≡ t)
    calls-exclusive store cs h k s t a w e f v u p =
        let w' = calls-IsExclusive store cs a w in
        let x = w'.live h s e v in
        let y = w'.live k t f u in
        let x' : latest ((calls store cs).lineages (lineage_of t.grant)) ≡ some h = rw p at x in
        let one : h ≡ k = ground arith in (one, ground arith)
