-- ===== src/Gateway/Exclusive.antt =====
-- At most one grant of a lineage is live, and it is the latest.
use dsp.Prelude.{
  String, ◌≡◌, refl, sym, ap, subst, ◌∙◌, Option, none, some, List, [], ◌∷◌, ◌++◌, inl, inr, arith,
  ◌==◌, Bool, true, false, eq_iff, eq_refl, Bool-cases,
}
use dsp.Prelude.Dict.{update}
use dsp.Gateway.Grant.{
  GrantState, active, admitted, Grant, StoredGrant, Lineage, lineage_of, same_lineage,
}
use dsp.Gateway.Store.{Store, set_lineage, last, append_grant, activated}

-- the last item, if there is one
abbrev pub latest : List String → Option String
latest [] = none
latest (h ∷ hs) = some (last h hs)

latest-append : (hs : List String) (h : String) → latest (hs ++ (h ∷ [])) ≡ some h
latest-append [] h = refl
latest-append (k ∷ []) h = refl
latest-append (k ∷ l ∷ hs) h = latest-append (l ∷ hs) h

abbrev pub is_live : GrantState → Bool
is_live active = true
is_live admitted = true
is_live _ = false

same_lineage_refl : (l : Lineage) → same_lineage l l ≡ true
same_lineage_refl l = simp eq_refl

pub same_lineage-eq : (a b : Lineage) → same_lineage a b ≡ true → a ≡ b
same_lineage-eq a b e =
    let p : a.approval_hash ≡ b.approval_hash =
      ground (arith, eq_iff a.approval_hash b.approval_hash) in
    let q : a.materialization_plan_hash ≡ b.materialization_plan_hash =
      ground (arith, eq_iff a.materialization_plan_hash b.materialization_plan_hash) in
    let r : a.materialization_id ≡ b.materialization_id =
      ground (arith, eq_iff a.materialization_id b.materialization_id) in
    let s : a.execution_slice_hash ≡ b.execution_slice_hash =
      ground (arith, eq_iff a.execution_slice_hash b.execution_slice_hash) in
    λ i. record {
      approval_hash = p i;
      materialization_plan_hash = q i;
      materialization_id = r i;
      execution_slice_hash = s i;
    }

-- `content` gives the grant that a digest is of
module _ (content : String → Grant) where
  pub record IsExclusive (store : Store) : Type 0 where
    -- a grant stands under its hash
    pub keyed :
        (h : String) (s : StoredGrant)
        → store.grants h ≡ some s
        → (s.grant.grant_hash ≡ h) × (content h ≡ s.grant)
    -- the latest grant of a lineage exists, and is of that lineage
    pub owned :
        (l : Lineage) (h : String)
        → latest (store.lineages l) ≡ some h
        → (s : StoredGrant) × (store.grants h ≡ some s) × (lineage_of s.grant ≡ l)
    -- a live grant is the latest of its lineage
    pub live :
        (h : String) (s : StoredGrant)
        → store.grants h ≡ some s
        → is_live s.state ≡ true
        → latest (store.lineages (lineage_of s.grant)) ≡ some h

  -- a grant whose state changes, and does not come to life
  pub restated-IsExclusive :
      (store : Store) (h : String) (s t : StoredGrant)
      → store.grants h ≡ some s
      → t.grant ≡ s.grant
      → (is_live t.state ≡ true → is_live s.state ≡ true)
      → IsExclusive store
      → IsExclusive (record store { grants = update store.grants h t })
  restated-IsExclusive store h s t found same alive w = record {
    keyed = λ k x e. elim (Bool-cases (h == k)) [
      | inl here ↦
          let at = (eq_iff h k).0 here in
          let one : t ≡ x = ground arith in
          let (a, b) = w.keyed h s found in
          subst (λ (y : StoredGrant). (y.grant.grant_hash ≡ k) × (content k ≡ y.grant)) one
            (ap (λ (g : Grant). g.grant_hash) same ∙ a ∙ at, ap content (sym at) ∙ b ∙ sym same)
      | inr away ↦ w.keyed k x (rw away at e)
    ];
    owned = λ l k e.
        let (x, there, p) = w.owned l k e in
        elim (Bool-cases (h == k)) [
          | inl here ↦
              let at = (eq_iff h k).0 here in
              let one : x ≡ s = ground arith in
              (
                t,
                rw here refl,
                ap lineage_of same ∙ ap (λ (y : StoredGrant). lineage_of y.grant) (sym one) ∙ p,
              )
          | inr away ↦ (x, rw away there, p)
        ];
    live = λ k x e v. elim (Bool-cases (h == k)) [
      | inl here ↦
          let at = (eq_iff h k).0 here in
          let one : x ≡ t = ground arith in
          ap (λ (y : StoredGrant). latest (store.lineages (lineage_of y.grant))) one
          ∙ ap (λ g. latest (store.lineages (lineage_of g))) same
          ∙ w.live h s found (alive (ap (λ (y : StoredGrant). is_live y.state) (sym one) ∙ v))
          ∙ ap some at
      | inr away ↦ w.live k x (rw away at e) v
    ];
  }

  -- a new grant of a lineage that has no live one
  pub append-IsExclusive :
      (store : Store) (hashes : List String) (g : Grant)
      → content g.grant_hash ≡ g
      → ((h : String) (s : StoredGrant)
          → store.grants h ≡ some s
          → lineage_of s.grant ≡ lineage_of g
          → is_live s.state ≡ false)
      → IsExclusive store
      → IsExclusive (append_grant store hashes g)
  append-IsExclusive store hashes g authentic idle w = record {
    keyed = λ k x e. elim (Bool-cases (g.grant_hash == k)) [
      | inl here ↦
          let at = (eq_iff g.grant_hash k).0 here in
          let one : activated g ≡ x = ground arith in
          subst (λ (y : StoredGrant). (y.grant.grant_hash ≡ k) × (content k ≡ y.grant)) one
            (at, ap content (sym at) ∙ authentic)
      | inr away ↦ w.keyed k x (rw away at e)
    ];
    owned = λ l k e. elim (Bool-cases (same_lineage (lineage_of g) l)) [
      | inl mine ↦
          let own : some g.grant_hash ≡ some k =
            sym (latest-append hashes g.grant_hash) ∙ rw mine at e in
          let at : g.grant_hash ≡ k = ground arith in
          (
            activated g,
            rw (sym at, eq_refl g.grant_hash) refl,
            same_lineage-eq (lineage_of g) l mine,
          )
      | inr other ↦
          let (x, there, p) = w.owned l k (rw other at e) in
          elim (Bool-cases (g.grant_hash == k)) [
            | inl here ↦
                let at = (eq_iff g.grant_hash k).0 here in
                let (_, b) = w.keyed k x there in
                (activated g, rw here refl, ap lineage_of (sym authentic ∙ ap content at ∙ b) ∙ p)
            | inr away ↦ (x, rw away there, p)
          ]
    ];
    live = λ k x e v. elim (Bool-cases (g.grant_hash == k)) [
      | inl here ↦
          let at = (eq_iff g.grant_hash k).0 here in
          let one : activated g ≡ x = ground arith in
          subst
            (λ (y : StoredGrant).
              latest (
                set_lineage store.lineages (lineage_of g) (hashes ++ (g.grant_hash ∷ []))
                  (lineage_of y.grant))
              ≡ some k)
            one
            (rw (same_lineage_refl (lineage_of g)) (latest-append hashes g.grant_hash ∙ ap some at))
      | inr away ↦
          let e' = rw away at e in
          elim (Bool-cases (same_lineage (lineage_of g) (lineage_of x.grant))) [
            | inl mine ↦
                let no =
                  idle k x e' (sym (same_lineage-eq (lineage_of g) (lineage_of x.grant) mine)) in
                ground arith
            | inr other ↦ rw other (w.live k x e' v)
          ]
    ];
  }
