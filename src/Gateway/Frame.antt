-- ===== src/Gateway/Frame.antt =====
-- Issues and admissions of grants touch neither approvals nor consumed admissions.
use dsp.Prelude.{
  ℕ, String, ◌≡◌, refl, ◌∙◌, Option, none, some, List, [], ◌∷◌, Result, ok, err, Bool, true, false,
}
use dsp.Prelude.Dict.{Dict}
use dsp.Gateway.Grant.{
  GatewayError, GrantState, active, admitted, revoked, expired, ApprovalState, Grant, StoredGrant,
  lineage_of,
}
use dsp.Gateway.Store.{
  Store, is_over, project_expiry, expiry_if, issue_or_get_grant, issue_first, issue_over,
  issue_next, issue_after, admit_grant, admit_projected, admit_state, admit_under, admit_found,
  admit_at, last,
}

-- what issues and admissions leave as it is
abbrev pub both : Store → Dict ApprovalState × Dict (String × String)
both store = (store.approvals, store.consumptions)

issue_over-both :
    (store : Store) (hashes : List String) (b : Bool) (st : GrantState) (s : StoredGrant)
    (g : Grant)
    → both (issue_over store hashes b st s g).1 ≡ both store
issue_over-both store hashes true active s g = refl
issue_over-both store hashes true admitted s g = refl
issue_over-both store hashes true revoked s g = refl
issue_over-both store hashes true expired s g = refl
issue_over-both store hashes false active s g = refl
issue_over-both store hashes false admitted s g = refl
issue_over-both store hashes false revoked s g = refl
issue_over-both store hashes false expired s g = refl

issue_first-both :
    (store : Store) (o : Option StoredGrant) (g : Grant)
    → both (issue_first store o g).1 ≡ both store
issue_first-both store none g = refl
issue_first-both store (some _) g = refl

module _ (utc_timestamp : String → Result GatewayError String) (instant : String → ℕ) where
  expiry_if-both :
      (b : Bool) (store : Store) (s : StoredGrant)
      → both (expiry_if utc_timestamp instant b store s).1 ≡ both store
  expiry_if-both true store s = refl
  expiry_if-both false store s = refl

  pub issue-both :
      (store : Store) (g : Grant)
      → both (issue_or_get_grant utc_timestamp instant store g).1 ≡ both store
  unfolding issue_or_get_grant project_expiry
  issue-both store g = go (store.lineages (lineage_of g))
    where
      after :
          (hashes : List String) (o : Option StoredGrant)
          → both (issue_next utc_timestamp instant store hashes o g).1 ≡ both store
      after hashes none = refl
      after hashes (some s) =
          issue_over-both
            (expiry_if utc_timestamp instant (is_over utc_timestamp instant s g.issued_at) store
              s).1
            hashes _ _ _ g
          ∙ expiry_if-both (is_over utc_timestamp instant s g.issued_at) store s

      go : (l : List String) → both (issue_after utc_timestamp instant store l g).1 ≡ both store
      go [] = issue_first-both store (store.grants g.grant_hash) g
      go (h ∷ hs) = after (h ∷ hs) (store.grants (last h hs))

  pub admit-both :
      (store : Store) (h at : String)
      → both (admit_grant utc_timestamp instant store h at).1 ≡ both store
  unfolding admit_grant project_expiry
  admit-both store h at = go (utc_timestamp at)
    where
      projected :
          (store' : Store) (st : GrantState) (t : StoredGrant) (n : String)
          → both (admit_projected utc_timestamp instant store' h st t n).1 ≡ both store'
      projected store' active t n = refl
      projected store' admitted t n = refl
      projected store' revoked t n = refl
      projected store' expired t n = refl

      state :
          (st : GrantState) (s : StoredGrant) (n : String)
          → both (admit_state utc_timestamp instant store h st s n).1 ≡ both store
      state admitted s n = refl
      state revoked s n = refl
      state expired s n = refl
      state active s n =
          let b = is_over utc_timestamp instant s n in
          projected (expiry_if utc_timestamp instant b store s).1 _ _ n ∙ expiry_if-both b store s

      under :
          (o : Option ApprovalState) (s : StoredGrant) (n : String)
          → both (admit_under utc_timestamp instant store h o s n).1 ≡ both store
      under none s n = refl
      under (some ApprovalState.revoked) s n = refl
      under (some ApprovalState.active) s n = state s.state s n

      find :
          (o : Option StoredGrant) (n : String)
          → both (admit_found utc_timestamp instant store h o n).1 ≡ both store
      find none n = refl
      find (some s) n = under (store.approvals s.grant.approval_id) s n

      go :
          (r : Result GatewayError String)
          → both (admit_at utc_timestamp instant store h r).1 ≡ both store
      go (err _) = refl
      go (ok n) = find (store.grants h) n
