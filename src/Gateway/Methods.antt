-- ===== src/Gateway/Methods.antt =====
-- Issuing and admitting a grant keep each lineage with one live grant at most.
use dsp.Prelude.{
  ℕ, String, ◌≡◌, refl, sym, ap, ◌∙◌, Option, none, some, List, [], ◌∷◌, Result, ok, err, inl, inr,
  arith, Bool, true, false, eq_refl, Bool-cases,
}
use dsp.Prelude.Dict.{update}
use dsp.Gateway.Grant.{
  GatewayError, GrantState, active, admitted, revoked, expired, ApprovalState, Grant, StoredGrant,
  Lineage, lineage_of, same_lineage,
}
use dsp.Gateway.Store.{
  Store, last, append_grant, is_over, project_expiry, expiry_if, issue_or_get_grant, issue_first,
  issue_over, issue_next, issue_after, admit_grant, admit_projected, admit_state, admit_under,
  admit_found, admit_at,
}
use dsp.Gateway.Exclusive.{
  IsExclusive, latest, is_live, restated-IsExclusive, append-IsExclusive, same_lineage-eq,
}

pub none-not-some : {A : Type 0} {a : A} → ◌≡◌ {A = Option A} none (some a) → ⊥
none-not-some e = cc

pub update-at :
    (grants : String → Option StoredGrant) (k h : String) (t : StoredGrant)
    → k ≡ h
    → update grants k t h ≡ some t
update-at grants k h t p = rw p (rw (eq_refl h) refl)

module _ (content : String → Grant) where
  -- the latest grant of a lineage is not live, so that none is
  none_live :
      (store : Store) (h : String) (s : StoredGrant) (l : Lineage)
      → IsExclusive content store
      → latest (store.lineages l) ≡ some h
      → store.grants h ≡ some s
      → is_live s.state ≡ false
      → (k : String) (t : StoredGrant) → store.grants k ≡ some t
      → lineage_of t.grant ≡ l
      → is_live t.state ≡ false
  none_live store h s l w top found dead k t there p = elim (Bool-cases (is_live t.state)) [
    | inl v ↦
        let q = w.live k t there v in
        let q' : latest (store.lineages l) ≡ some k = rw p at q in ground arith
    | inr d ↦ d
  ]

  issue_over-IsExclusive :
      (store : Store) (h : String) (hs : List String) (b : Bool) (s : StoredGrant) (g : Grant)
      → store.lineages (lineage_of g) ≡ h ∷ hs
      → store.grants (last h hs) ≡ some s
      → content g.grant_hash ≡ g
      → IsExclusive content store
      → IsExclusive content (issue_over store (h ∷ hs) b s.state s g).1
  issue_over-IsExclusive store h hs b s g index found authentic w = go b s.state refl
    where
      top : latest (store.lineages (lineage_of g)) ≡ some (last h hs)
      top = rw index refl

      over : is_live s.state ≡ false → IsExclusive content (append_grant store (h ∷ hs) g)
      over dead =
          append-IsExclusive content store (h ∷ hs) g authentic
            (none_live store (last h hs) s (lineage_of g) w top found dead) w

      key : s.grant.grant_hash ≡ last h hs
      key = (w.keyed (last h hs) s found).0

      go :
          (b : Bool) (state : GrantState)
          → s.state ≡ state
          → IsExclusive content (issue_over store (h ∷ hs) b state s g).1
      go true active e = w
      go true admitted e = w
      go true revoked e = w
      go true expired e = w
      go false admitted e = w
      go false revoked e = over (rw e refl)
      go false expired e = over (rw e refl)
      go false active e =
          let t = record s { state = revoked } in
          let store' = record store { grants = update store.grants s.grant.grant_hash t } in
          let w' =
            restated-IsExclusive content store s.grant.grant_hash s t (ap store.grants key ∙ found)
              refl (λ v. ground arith) w in
          append-IsExclusive content store' (h ∷ hs) g authentic
            (none_live store' (last h hs) t (lineage_of g) w' top
              (update-at store.grants s.grant.grant_hash (last h hs) t key) refl)
            w'

  module _ (utc_timestamp : String → Result GatewayError String) (instant : String → ℕ) where
    -- the projection of an expiry changes no grant but its state
    pub expiry_if-IsExclusive :
        (store : Store) (h : String) (s : StoredGrant) (b : Bool)
        → store.grants h ≡ some s
        → (b ≡ true → is_live s.state ≡ true)
        → IsExclusive content store
        → let (t, store') = expiry_if utc_timestamp instant b store s in
          IsExclusive content store'
          × (store'.grants h ≡ some t)
          × (t.grant ≡ s.grant)
          × (store'.lineages ≡ store.lineages)
          × (store'.approvals ≡ store.approvals)
    expiry_if-IsExclusive store h s false found alive w = (w, found, refl, refl, refl)
    expiry_if-IsExclusive store h s true found alive w =
        let key = (w.keyed h s found).0 in
        (
          restated-IsExclusive content store s.grant.grant_hash s _ (ap store.grants key ∙ found)
              refl (λ v. alive refl) w,
          update-at store.grants s.grant.grant_hash h _ key,
          refl,
          refl,
          refl,
        )

    pub is_over-live :
        (s : StoredGrant) (at : String)
        → is_over utc_timestamp instant s at ≡ true
        → is_live s.state ≡ true
    is_over-live s at e = ground arith

    index-IsExclusive :
        (store : Store) (s : StoredGrant) (g : Grant)
        → store.lineages (lineage_of g) ≡ []
        → store.grants g.grant_hash ≡ some s
        → content g.grant_hash ≡ g
        → IsExclusive content store
        → IsExclusive content (issue_first store (some s) g).1
    index-IsExclusive store s g new found authentic w =
        let one : s.grant ≡ g = sym (w.keyed g.grant_hash s found).1 ∙ authentic in
        let key : s.grant.grant_hash ≡ g.grant_hash = ap (λ (x : Grant). x.grant_hash) one in
        record {
          keyed = w.keyed;
          owned = λ l k e. elim (Bool-cases (same_lineage (lineage_of g) l)) [
            | inl mine ↦
                let own : some s.grant.grant_hash ≡ some k = rw mine at e in
                let at : s.grant.grant_hash ≡ k = ground arith in
                (
                  s,
                  ap store.grants (sym at ∙ key) ∙ found,
                  ap lineage_of one ∙ same_lineage-eq (lineage_of g) l mine,
                )
            | inr other ↦ w.owned l k (rw other at e)
          ];
          live = λ k x e v. elim (Bool-cases (same_lineage (lineage_of g) (lineage_of x.grant))) [
            | inl mine ↦
                let q = w.live k x e v in
                let p = same_lineage-eq (lineage_of g) (lineage_of x.grant) mine in
                let q' : latest (store.lineages (lineage_of g)) ≡ some k =
                  ap (λ l. latest (store.lineages l)) p ∙ q in
                let q'' = rw new at q' in absurd (none-not-some q'')
            | inr other ↦ rw other (w.live k x e v)
          ];
        }

    pub issue-IsExclusive :
        (store : Store) (g : Grant)
        → content g.grant_hash ≡ g
        → IsExclusive content store
        → IsExclusive content (issue_or_get_grant utc_timestamp instant store g).1
    unfolding issue_or_get_grant project_expiry
    issue-IsExclusive store g authentic w = go _ refl
      where
        first :
            (o : Option StoredGrant)
            → store.grants g.grant_hash ≡ o
            → store.lineages (lineage_of g) ≡ []
            → IsExclusive content (issue_first store o g).1
        first none e new =
            append-IsExclusive content store [] g authentic
              (λ k t there p. elim (Bool-cases (is_live t.state)) [
                | inl v ↦
                    let q = w.live k t there v in
                    let q' : latest (store.lineages (lineage_of g)) ≡ some k = rw p at q in
                    let q'' = rw new at q' in cc
                | inr d ↦ d
              ])
              w
        first (some s) e new = index-IsExclusive store s g new e authentic w

        after :
            (h : String) (hs : List String)
            → store.lineages (lineage_of g) ≡ h ∷ hs
            → (o : Option StoredGrant) → store.grants (last h hs) ≡ o
            → IsExclusive content (issue_next utc_timestamp instant store (h ∷ hs) o g).1
        after h hs index none e = w
        after h hs index (some s) e =
            let (w', found, same, ls, _) =
              expiry_if-IsExclusive store (last h hs) s
                (is_over utc_timestamp instant s g.issued_at) e (is_over-live s g.issued_at) w in
            issue_over-IsExclusive _ h hs _ _ g (ap (λ f. f (lineage_of g)) ls ∙ index) found
              authentic w'

        go :
            (l : List String)
            → store.lineages (lineage_of g) ≡ l
            → IsExclusive content (issue_after utc_timestamp instant store l g).1
        go [] e = first _ refl e
        go (h ∷ hs) e = after h hs e _ refl

    pub admit-IsExclusive :
        (store : Store) (h at : String)
        → IsExclusive content store
        → IsExclusive content (admit_grant utc_timestamp instant store h at).1
    unfolding admit_grant project_expiry
    admit-IsExclusive store h at w = go (utc_timestamp at)
      where
        projected :
            (store' : Store) (state : GrantState) (t : StoredGrant) (n : String)
            → t.state ≡ state
            → is_live state ≡ true
            → store'.grants h ≡ some t
            → IsExclusive content store'
            → IsExclusive content (admit_projected utc_timestamp instant store' h state t n).1
        projected store' expired t n e v found w' = cc
        projected store' revoked t n e v found w' = cc
        projected store' active t n e v found w' =
            restated-IsExclusive content store' h t _ found refl (λ _. rw e refl) w'
        projected store' admitted t n e v found w' =
            restated-IsExclusive content store' h t _ found refl (λ _. rw e refl) w'

        after :
            (b : Bool) (s : StoredGrant) (n : String)
            → s.state ≡ active
            → store.grants h ≡ some s
            → (b ≡ true → is_live s.state ≡ true)
            → let (t, store') = expiry_if utc_timestamp instant b store s in
              IsExclusive content (admit_projected utc_timestamp instant store' h t.state t n).1
        after true s n e found alive = (expiry_if-IsExclusive store h s true found alive w).0
        after false s n e found alive = projected store s.state s n refl (rw e refl) found w

        state :
            (st : GrantState) (s : StoredGrant) (n : String)
            → s.state ≡ st
            → store.grants h ≡ some s
            → IsExclusive content (admit_state utc_timestamp instant store h st s n).1
        state admitted s n e found = w
        state revoked s n e found = w
        state expired s n e found = w
        state active s n e found =
            after (is_over utc_timestamp instant s n) s n e found (is_over-live s n)

        under :
            (a : Option ApprovalState) (s : StoredGrant) (n : String)
            → store.grants h ≡ some s
            → IsExclusive content (admit_under utc_timestamp instant store h a s n).1
        under none s n found = w
        under (some ApprovalState.revoked) s n found = w
        under (some ApprovalState.active) s n found = state s.state s n refl found

        find :
            (o : Option StoredGrant) (n : String)
            → store.grants h ≡ o
            → IsExclusive content (admit_found utc_timestamp instant store h o n).1
        find none n e = w
        find (some s) n e = under (store.approvals s.grant.approval_id) s n e

        go :
            (r : Result GatewayError String)
            → IsExclusive content (admit_at utc_timestamp instant store h r).1
        go (err _) = w
        go (ok n) = find (store.grants h) n refl
