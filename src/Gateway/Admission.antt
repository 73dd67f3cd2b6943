-- ===== src/Gateway/Admission.antt =====
-- What an admission of a grant has checked.
use dsp.Prelude.{
  ℕ, String, ◌≡◌, refl, Option, none, some, Result, ok, err, inl, inr, ◌⊎◌, Bool, true, false,
  eq_refl, leb,
}
use dsp.Saga.Evidence.{Authority}
use dsp.Gateway.Grant.{
  GatewayError, approval_revoked, GrantState, active, admitted, revoked, expired, ApprovalState,
  StoredGrant,
}
use dsp.Gateway.Store.{
  Store, is_over, project_expiry, expiry_if, admit_grant, admit_projected, admit_state, admit_under,
  admit_found, admit_at, admitted_authority,
}

module _ (utc_timestamp : String → Result GatewayError String) (instant : String → ℕ) where
  -- the grant `s` that an admission at the time `n` has found, and what it returned
  pub record Admission (store store' : Store) (h n : String) (a : Authority) : Type 0 where
    pub found : StoredGrant
    pub kept : StoredGrant
    pub before : store.grants h ≡ some found
    pub parent : store.approvals found.grant.approval_id ≡ some ApprovalState.active
    pub after : store'.grants h ≡ some kept
    pub same_grant : kept.grant ≡ found.grant
    pub state : kept.state ≡ admitted
    pub authority : admitted_authority utc_timestamp instant kept ≡ ok a
    -- it was admitted before, or it was active and had not expired
    pub fresh :
        (kept ≡ found)
        ⊎ ((found.state ≡ active) × (leb (instant found.grant.expires_at) (instant n) ≡ false))

  -- An admission that returns an authority has found the grant under an approval that is not
  -- revoked; the grant was admitted before or was active and had not expired at the time given; it
  -- is admitted now, and the authority is read from it.
  pub admit_grant-Admission :
      (store : Store) (h at : String) {a : Authority}
      → (admit_grant utc_timestamp instant store h at).0 ≡ ok a
      → (n : String) × (utc_timestamp at ≡ ok n)
        × Admission store (admit_grant utc_timestamp instant store h at).1 h n a
  unfolding admit_grant project_expiry
  admit_grant-Admission store h at {a} e = go (utc_timestamp at) refl e
    where
      now :
          (st : GrantState) (s : StoredGrant) (n : String)
          → s.state ≡ st
          → st ≡ active
          → is_over utc_timestamp instant s n ≡ false
          → store.grants h ≡ some s
          → store.approvals s.grant.approval_id ≡ some ApprovalState.active
          → (admit_projected utc_timestamp instant store h st s n).0 ≡ ok a
          → Admission store (admit_projected utc_timestamp instant store h st s n).1 h n a
      now active s n here live over found parent e = record {
        found = s;
        kept = record s { state = admitted; admitted_at = some n };
        before = found;
        parent = parent;
        after = rw (eq_refl h) refl;
        same_grant = refl;
        state = refl;
        authority = e;
        fresh = inr (here, rw here at over);
      }
      now admitted s n here live over found parent e = cc
      now revoked s n here live over found parent e = cc
      now expired s n here live over found parent e = cc

      after :
          (b : Bool) (s : StoredGrant) (n : String)
          → s.state ≡ active
          → is_over utc_timestamp instant s n ≡ b
          → store.grants h ≡ some s
          → store.approvals s.grant.approval_id ≡ some ApprovalState.active
          → (admit_projected utc_timestamp instant
              (expiry_if utc_timestamp instant b store s).1
              h
              (expiry_if utc_timestamp instant b store s).0.state
              (expiry_if utc_timestamp instant b store s).0
              n).0
            ≡ ok a
          → Admission store
              (admit_projected utc_timestamp instant
                (expiry_if utc_timestamp instant b store s).1
                h
                (expiry_if utc_timestamp instant b store s).0.state
                (expiry_if utc_timestamp instant b store s).0
                n).1
              h
              n
              a
      after true s n live over found parent e = cc
      after false s n live over found parent e = now s.state s n refl live over found parent e

      state :
          (st : GrantState) (s : StoredGrant) (n : String)
          → s.state ≡ st
          → store.grants h ≡ some s
          → store.approvals s.grant.approval_id ≡ some ApprovalState.active
          → (admit_state utc_timestamp instant store h st s n).0 ≡ ok a
          → Admission store (admit_state utc_timestamp instant store h st s n).1 h n a
      state admitted s n here found parent e = record {
        found = s;
        kept = s;
        before = found;
        parent = parent;
        after = found;
        same_grant = refl;
        state = here;
        authority = e;
        fresh = inl refl;
      }
      state revoked s n here found parent e = cc
      state expired s n here found parent e = cc
      state active s n here found parent e = after _ s n here refl found parent e

      under :
          (o : Option ApprovalState) (s : StoredGrant) (n : String)
          → store.approvals s.grant.approval_id ≡ o
          → store.grants h ≡ some s
          → (admit_under utc_timestamp instant store h o s n).0 ≡ ok a
          → Admission store (admit_under utc_timestamp instant store h o s n).1 h n a
      under none s n parent found e = cc
      under (some ApprovalState.revoked) s n parent found e = cc
      under (some ApprovalState.active) s n parent found e = state s.state s n refl found parent e

      find :
          (o : Option StoredGrant) (n : String)
          → store.grants h ≡ o
          → (admit_found utc_timestamp instant store h o n).0 ≡ ok a
          → Admission store (admit_found utc_timestamp instant store h o n).1 h n a
      find none n found e = cc
      find (some s) n found e = under _ s n refl found e

      go :
          (r : Result GatewayError String)
          → utc_timestamp at ≡ r
          → (admit_at utc_timestamp instant store h r).0 ≡ ok a
          → (n : String) × (r ≡ ok n)
            × Admission store (admit_at utc_timestamp instant store h r).1 h n a
      go (err _) p e = cc
      go (ok n) p e = (n, refl, find _ n refl e)

  -- While the approval of a grant is revoked, the grant is not admitted, and an authority that was
  -- handed out before is not handed out again.
  pub admit_grant-revoked :
      (store : Store) (h at n : String) (s : StoredGrant)
      → utc_timestamp at ≡ ok n
      → store.grants h ≡ some s
      → store.approvals s.grant.approval_id ≡ some ApprovalState.revoked
      → admit_grant utc_timestamp instant store h at ≡ (err approval_revoked, store)
  unfolding admit_grant
  admit_grant-revoked store h at n s p found parent = rw (p, found, parent) refl
