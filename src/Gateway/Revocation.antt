-- ===== src/Gateway/Revocation.antt =====
-- A revoked approval stays revoked, and none of its grants is admitted.
use dsp.Prelude.{
  ℕ, String, ◌≡◌, refl, ap, ◌∙◌, Option, none, some, List, [], ◌∷◌, Result, ok, err, arith, Bool,
  true, false, eq_refl, eq_iff, ◌≢◌, ◌==◌, Bool-cases, inl, inr, ◌⊎◌, All,
}
use dsp.Prelude.Dict.{Dict, update}
use dsp.Gateway.Grant.{GatewayError, ApprovalRecord, approval_revoked, ApprovalState, StoredGrant}
use dsp.Gateway.Store.{
  Store, issue_or_get_grant, admit_grant, consume_admission_once, consume_matching, consume_over,
  revoke_approval, revoked_at,
}
use dsp.Gateway.Calls.{Call, issue, admit, revoke, consume, call, calls}
use dsp.Gateway.Frame.{both, issue-both, admit-both}
use dsp.Gateway.Admission.{admit_grant-revoked}

-- an admission that has been consumed
abbrev pub IsUsed : Dict (String × String) → String → Type 0
IsUsed used a = (x : String × String) × (used a ≡ some x)

-- the call does not consume an admission for the approval `k`, but for one that is consumed already
abbrev pub Spares : Dict (String × String) → String → Call → Type 0
Spares used k (consume admission_id f r) = (r.approval_id ≢ k) ⊎ IsUsed used r.admission_id
Spares used k _ = Unit

-- the approval `k` is revoked, and the admissions `used` are consumed
abbrev Final : Dict (String × String) → String → Store → Type 0
Final used k store =
    (store.approvals k ≡ some ApprovalState.revoked)
    × ((a : String) → IsUsed used a → IsUsed store.consumptions a)

module _ (utc_timestamp : String → Result GatewayError String) (instant : String → ℕ) where
  both-Final :
      (used : Dict (String × String)) (k : String) (s t : Store)
      → both t ≡ both s
      → Final used k s
      → Final used k t
  both-Final used k s t e (now, kept) =
      (ap (λ b. b.0 k) e ∙ now, λ a m. let (x, f) = kept a m in (x, ap (λ b. b.1 a) e ∙ f))

  revoked_at-Final :
      (used : Dict (String × String)) (store : Store) (approval_id k : String)
      (o : Option ApprovalState)
      → Final used k store
      → Final used k (revoked_at store approval_id o).1
  revoked_at-Final used store approval_id k none h = h
  revoked_at-Final used store approval_id k (some _) (e, kept) = (ground arith, kept)

  consume-Final :
      (used : Dict (String × String)) (store : Store) (admission_id f : String) (r : ApprovalRecord)
      (k : String)
      → Spares used k (consume admission_id f r)
      → Final used k store
      → Final used k (consume_admission_once store admission_id f r).1
  unfolding consume_admission_once
  consume-Final used store admission_id f r k spares (e, kept) = go _
    where
      still :
          Spares used k (consume admission_id f r)
          → store.consumptions r.admission_id ≡ none
          → update store.approvals r.approval_id ApprovalState.active k ≡ some ApprovalState.revoked
      still (inl other) new = elim (Bool-cases (r.approval_id == k)) [
        | inl here ↦ absurd (other ((eq_iff r.approval_id k).0 here))
        | inr away ↦ rw away e
      ]
      still (inr m) new = let (x, found) = kept r.admission_id m in cc

      grown :
          (a : String)
          → IsUsed used a
          → IsUsed (update store.consumptions r.admission_id (f, r.approval_id)) a
      grown a m = elim (Bool-cases (r.admission_id == a)) [
        | inl here ↦ ((f, r.approval_id), rw here refl)
        | inr away ↦ let (x, found) = kept a m in (x, rw away found)
      ]

      over :
          (o : Option (String × String))
          → store.consumptions r.admission_id ≡ o
          → Final used k (consume_over store o f r).1
      over (some _) new = (e, kept)
      over none new = (still spares new, grown)

      go : (b : Bool) → Final used k (consume_matching b store f r).1
      go false = (e, kept)
      go true = over (store.consumptions r.admission_id) refl

  call-Final :
      (used : Dict (String × String)) (store : Store) (c : Call) (k : String)
      → Spares used k c
      → Final used k store
      → Final used k (call utc_timestamp instant store c)
  unfolding call revoke_approval
  call-Final used store (issue g) k spares h =
      both-Final used k store (issue_or_get_grant utc_timestamp instant store g).1
        (issue-both utc_timestamp instant store g) h
  call-Final used store (admit m at) k spares h =
      both-Final used k store (admit_grant utc_timestamp instant store m at).1
        (admit-both utc_timestamp instant store m at) h
  call-Final used store (revoke approval_id) k spares h =
      revoked_at-Final used store approval_id k (store.approvals approval_id) h
  call-Final used store (consume admission_id f r) k spares h =
      consume-Final used store admission_id f r k spares h

  calls-Final :
      (used : Dict (String × String)) (store : Store) (cs : List Call) (k : String)
      → All (Spares used k) cs
      → Final used k store
      → Final used k (calls utc_timestamp instant store cs)
  unfolding calls
  calls-Final used store [] k spares h = h
  calls-Final used store (c ∷ cs) k spares h =
      calls-Final used (call utc_timestamp instant store c) cs k spares.1
        (call-Final used store c k spares.0 h)

  revoke_approval-revoked :
      (store : Store) (k : String)
      → (revoke_approval store k).0 ≡ ok tt
      → (revoke_approval store k).1.approvals k ≡ some ApprovalState.revoked
  unfolding revoke_approval
  revoke_approval-revoked store k e = go (store.approvals k) e
    where
      go :
          (o : Option ApprovalState)
          → (revoked_at store k o).0 ≡ ok tt
          → (revoked_at store k o).1.approvals k ≡ some ApprovalState.revoked
      go none e = cc
      go (some _) e = rw (eq_refl k) refl

  revoke_approval-IsUsed :
      (store : Store) (k a : String)
      → IsUsed store.consumptions a
      → IsUsed (revoke_approval store k).1.consumptions a
  unfolding revoke_approval
  revoke_approval-IsUsed store k a m = go (store.approvals k)
    where
      go : (o : Option ApprovalState) → IsUsed (revoked_at store k o).1.consumptions a
      go none = m
      go (some _) = m

  -- A revocation is final. Once an approval has been revoked, then after any calls, of which none
  -- consumes a new admission for that approval, no grant of it is admitted, whenever it was issued and
  -- even if it had been admitted before: an admission at a well-formed time raises the error and
  -- changes nothing.
  pub revoke-final :
      (store : Store) (approval_id : String) (cs : List Call) (h at n : String) (s : StoredGrant)
      → All (Spares store.consumptions approval_id) cs
      → (revoke_approval store approval_id).0 ≡ ok tt
      → let later = calls utc_timestamp instant (revoke_approval store approval_id).1 cs in
        later.grants h ≡ some s
        → s.grant.approval_id ≡ approval_id
        → utc_timestamp at ≡ ok n
        → admit_grant utc_timestamp instant later h at ≡ (err approval_revoked, later)
  revoke-final store approval_id cs h at n s spares done found owner time =
      let after = (revoke_approval store approval_id).1 in
      let later = calls utc_timestamp instant after cs in
      admit_grant-revoked utc_timestamp instant later h at n s time found (
        ap later.approvals owner
        ∙ (calls-Final store.consumptions after cs approval_id spares (
          revoke_approval-revoked store approval_id done,
          revoke_approval-IsUsed store approval_id,
        )).0)
