-- ===== src/Saga/Store/Laws.antt =====
-- What the store of Sagas guarantees, over any sequence of calls.
use dsp.Prelude.{
  String, eq_refl, false, ◌≡◌, ◌≢◌, refl, sym, ap, Option, none, some, List, [], ◌∷◌, Result, ok,
  err, inl, inr, arith, ◌==◌, true, eq_iff, Bool-cases, Option-cases, All, subst, ◌∙◌,
}
use dsp.Prelude.Json.{Json}
use dsp.Prelude.Text.{strip}
use dsp.Contracts.{Error, unique}
use dsp.Saga.Definition.{Definition, same_definition_refl}
use dsp.Saga.State.{StoredSaga}
use dsp.Saga.Requests.{Request, perform}
use dsp.Saga.Invariant.{IsSound, after-IsSound}
use dsp.Saga.Invariant.Initial.{initial_saga-IsSound, initial_saga-definition}
use dsp.Saga.Revision.{perform-revision}
use dsp.Saga.Transitions.Admission.{create_initial_saga, initial_saga}
use dsp.Saga.Store.{
  get_saga, Store, assign, create_saga, transition, Call, create, request, target, call, calls,
}

-- every Saga of the store is sound, and stands under its own id
abbrev pub HoldsSound : Store → Type 0
HoldsSound store =
    (k : String) (u : StoredSaga) → store k ≡ some u → IsSound u × (u.definition.saga_id ≡ k)

-- the Slices of a definition are distinct, which its constructor checks
abbrev pub WellFormed : Call → Type 0
WellFormed (create d) = unique d.ordered_slice_hashes ≡ true
WellFormed (request _ _) = Unit

assign-other :
    (store : Store) (k j : String) (r : Result Error StoredSaga)
    → j ≢ k
    → (assign store k r).1 j ≡ store j
assign-other store k j (err e) h = refl
assign-other store k j (ok u) h = ground (arith, eq_iff k j)

assign-err :
    (store : Store) (k : String) (r : Result Error StoredSaga) {e : Error}
    → (assign store k r).0 ≡ err e
    → (assign store k r).1 ≡ store
assign-err store k (err e') h = refl
assign-err store k (ok u) h = cc

assign-HoldsSound :
    (store : Store) (k : String) (r : Result Error StoredSaga)
    → ((u : StoredSaga) → r ≡ ok u → IsSound u × (u.definition.saga_id ≡ k))
    → HoldsSound store
    → HoldsSound (assign store k r).1
assign-HoldsSound store k (err _) f h j v e = h j v e
assign-HoldsSound store k (ok u) f h j v e = elim (Bool-cases (k == j)) [
  | inl same ↦
      let e' : ◌≡◌ {A = Option StoredSaga} (some u) (some v) = rw same at e in
      let p : u ≡ v = ground arith in
      let q = (eq_iff k j).0 same in
      let (w, n) = f u refl in
      (subst IsSound p w, ap (λ (x : StoredSaga). x.definition.saga_id) (sym p) ∙ n ∙ q)
  | inr other ↦ h j v (rw other at e)
]

-- the result of a request keeps the definition
perform-definition :
    (canonical_hash : Json → String) (u : StoredSaga) (r : Request) {v : StoredSaga}
    → perform canonical_hash u r ≡ ok v
    → v.definition ≡ u.definition
perform-definition canonical_hash u r e = elim (perform-revision canonical_hash u r e) [
  | inl same ↦ ap (λ (x : StoredSaga). x.definition) same
  | inr (_, _, d) ↦ d
]

err_is_no_ok : {e : Error} {u : StoredSaga} → ◌≡◌ {A = Result Error StoredSaga} (err e) (ok u) → ⊥
err_is_no_ok h = cc

assign-get :
    (store : Store) (k : String) (r : Result Error StoredSaga) {u : StoredSaga}
    → strip k ≡ k
    → (k == "") ≡ false
    → (assign store k r).0 ≡ ok u
    → get_saga (assign store k r).1 k ≡ ok (some u)
unfolding get_saga
assign-get store k (err e) s n h = cc
assign-get store k (ok v) s n h = rw (s, n, eq_refl k) (ground arith)

module _ (canonical_hash : Json → String) where
  pub create_saga-HoldsSound :
      (store : Store) (d : Definition)
      → unique d.ordered_slice_hashes ≡ true
      → HoldsSound store
      → HoldsSound (create_saga canonical_hash store d).1
  unfolding create_saga create_initial_saga
  create_saga-HoldsSound store d distinct h = go (store d.saga_id) refl
    where
      go :
          (x : Option StoredSaga)
          → store d.saga_id ≡ x
          → HoldsSound (assign store d.saga_id (create_initial_saga canonical_hash d x)).1
      go none e =
          assign-HoldsSound store d.saga_id (initial_saga canonical_hash d)
            (λ u p. (
              initial_saga-IsSound canonical_hash d distinct p,
              ap (λ (x : Definition). x.saga_id) (initial_saga-definition canonical_hash d p),
            ))
            h
      go (some v) e =
          assign-HoldsSound store d.saga_id _ (λ u p. let q = h d.saga_id v e in ground arith) h

  pub transition-HoldsSound :
      (store : Store) (k : String) (r : Request)
      → HoldsSound store
      → HoldsSound (transition canonical_hash store k r).1
  unfolding transition
  transition-HoldsSound store k r h = elim (Option-cases (store k)) [
    | inl missing ↦ rw missing h
    | inr (u, found) ↦
        let (w, n) = h k u found in
        rw found (
          assign-HoldsSound store k (perform canonical_hash u r)
            (λ v p. (
              rw p at (after-IsSound canonical_hash u r w),
              ap (λ (x : Definition). x.saga_id) (perform-definition canonical_hash u r p) ∙ n,
            ))
            h)
  ]

  call-HoldsSound :
      (store : Store) (c : Call)
      → WellFormed c
      → HoldsSound store
      → HoldsSound (call canonical_hash store c).1
  unfolding call
  call-HoldsSound store (create d) w h = create_saga-HoldsSound store d w h
  call-HoldsSound store (request k r) w h = transition-HoldsSound store k r h

  -- Every Saga that a store holds is sound and stands under the id of its own definition, after any
  -- calls whose definitions have distinct Slices, if that held before them.
  pub calls-HoldsSound :
      (store : Store) (cs : List Call)
      → All WellFormed cs
      → HoldsSound store
      → HoldsSound (calls canonical_hash store cs)
  unfolding calls
  calls-HoldsSound store [] w h = h
  calls-HoldsSound store (c ∷ cs) w h =
      calls-HoldsSound (call canonical_hash store c).1 cs w.1 (call-HoldsSound store c w.0 h)

  call-other :
      (store : Store) (c : Call) (k : String)
      → k ≢ target c
      → (call canonical_hash store c).1 k ≡ store k
  unfolding call create_saga transition
  call-other store (create d) k n =
      assign-other store d.saga_id k (create_initial_saga canonical_hash d (store d.saga_id)) n
  call-other store (request j r) k n = elim (Option-cases (store j)) [
    | inl missing ↦ rw missing refl
    | inr (u, found) ↦ rw found (assign-other store j k (perform canonical_hash u r) n)
  ]

  -- Sagas do not interfere: calls that name other ids leave a Saga as it is.
  pub calls-other :
      (store : Store) (cs : List Call) (k : String)
      → All (λ c. k ≢ target c) cs
      → calls canonical_hash store cs k ≡ store k
  unfolding calls
  calls-other store [] k n = refl
  calls-other store (c ∷ cs) k n =
      calls-other (call canonical_hash store c).1 cs k n.1 ∙ call-other store c k n.0

  -- A call that raises an error leaves the whole store as it was.
  pub call-err :
      (store : Store) (c : Call) {e : Error}
      → (call canonical_hash store c).0 ≡ err e
      → (call canonical_hash store c).1 ≡ store
  unfolding call create_saga transition
  call-err store (create d) h =
      assign-err store d.saga_id (create_initial_saga canonical_hash d (store d.saga_id)) h
  call-err store (request j r) h = elim (Option-cases (store j)) [
    | inl missing ↦ rw missing refl
    | inr (u, found) ↦ rw found (assign-err store j (perform canonical_hash u r) (rw found at h))
  ]

  -- Creating a Saga is replay-safe. Whatever requests the Saga was given since, the same definition
  -- returns it as it then is, and changes no entry of the store.
  pub create_saga-replay :
      (store : Store) (d : Definition) (u : StoredSaga)
      → store d.saga_id ≡ some u
      → u.definition ≡ d
      → let o = create_saga canonical_hash store d in
        (o.0 ≡ ok u) × ((k : String) → o.1 k ≡ store k)
  unfolding create_saga create_initial_saga
  create_saga-replay store d u e p =
      rw (e, p, same_definition_refl d) (refl, λ k. ground (arith, eq_iff d.saga_id k))

  -- A reader sees the last write. What an accepted call returned is what `get_saga` then returns for
  -- the id that the call named, if the id is stripped and not empty.
  pub call-get_saga :
      (store : Store) (c : Call) {u : StoredSaga}
      → strip (target c) ≡ target c
      → (target c == "") ≡ false
      → (call canonical_hash store c).0 ≡ ok u
      → get_saga (call canonical_hash store c).1 (target c) ≡ ok (some u)
  unfolding call create_saga transition
  call-get_saga store (create d) s n h =
      assign-get store d.saga_id (create_initial_saga canonical_hash d (store d.saga_id)) s n h
  call-get_saga store (request j r) s n h = elim (Option-cases (store j)) [
    | inl missing ↦ absurd (err_is_no_ok (rw missing at h))
    | inr (u, found) ↦
        rw found (assign-get store j (perform canonical_hash u r) s n (rw found at h))
  ]
