-- ===== src/Saga/Invariant/Initial.antt =====
-- `create_initial_saga_v2` makes a sound Saga.
use dsp.Prelude.{
  ℕ, suc, String, ◌≡◌, ap, refl, List, [], ◌∷◌, map, true, ok, arith, All, All-map, >>=-eq-ok,
  ok-injective, subst, all, eq_iff,
}
use dsp.Prelude.Json.{Json}
use dsp.Contracts.{unique}
use dsp.Contracts.Normal.{optional_digest_cases}
use dsp.Saga.Definition.{Definition}
use dsp.Saga.State.{ready, SliceState, StoredSaga, check_slice_state, check_stored, follows}
use dsp.Saga.Normal.{IsNormal, check_slice_state-eq-ok, check_slice_state-IsNormal}
use dsp.Saga.Rebuilt.{check_stored-eq-ok}
use dsp.Saga.Lifecycle.{HasEvidence}
use dsp.Saga.Distinct.{name}
use dsp.Saga.Coherence.{slice_fresh}
use dsp.Saga.Invariant.{IsSound}
use dsp.Saga.Transitions.Checks.{definition_integrity}
use dsp.Saga.Transitions.Admission.{initial_state, initial_states, initial_saga}

follows-names : (ss : List SliceState) (hs : List String) → follows ss hs ≡ true → map name ss ≡ hs
unfolding follows
follows-names [] [] h = refl
follows-names [] (_ ∷ _) h = cc
follows-names (_ ∷ _) [] h = cc
follows-names (s ∷ ss) (k ∷ hs) h = ground (arith, eq_iff (name s) k, follows-names ss hs)

check_stored-follows :
    (w : StoredSaga) {v : StoredSaga}
    → check_stored w ≡ ok v
    → follows w.slice_states w.definition.ordered_slice_hashes ≡ true
unfolding check_stored
check_stored-follows w h = ground (arith, optional_digest_cases w.convergence_result_hash)

-- a new state
record IsNew (s : SliceState) : Type 0 where
  normal : IsNormal s
  evidence : HasEvidence s
  fresh : slice_fresh s ≡ true

initial_state-IsNew :
    (d : Definition) (i : ℕ) (h : String) {s : SliceState}
    → check_slice_state (initial_state d i h) ≡ ok s
    → IsNew s
initial_state-IsNew d i h e = record {
  normal = check_slice_state-IsNormal (initial_state d i h) e;
  evidence =
      rw (check_slice_state-eq-ok (initial_state d i h) e) (unfold initial_state in ground arith);
  fresh = rw (check_slice_state-eq-ok (initial_state d i h) e) (unfold initial_state in refl);
}

initial_states-IsNew :
    (d : Definition) (i : ℕ) (hs : List String) {ss : List SliceState}
    → initial_states d i hs ≡ ok ss
    → All IsNew ss
unfolding initial_states
initial_states-IsNew d i [] e = subst (All IsNew) (ok-injective [] _ e) tt
initial_states-IsNew d i (h ∷ hs) e =
    let (s, es, e₁) = >>=-eq-ok (check_slice_state (initial_state d i h)) _ e in
    let (ss, ess, e₂) = >>=-eq-ok (initial_states d (suc i) hs) _ e₁ in
    subst (All IsNew) (ok-injective (s ∷ ss) _ e₂)
      (initial_state-IsNew d i h es, initial_states-IsNew d (suc i) hs ess)

all_fresh : (ss : List SliceState) → All IsNew ss → all slice_fresh ss ≡ true
all_fresh [] h = refl
all_fresh (s ∷ ss) h = rw h.0.fresh (all_fresh ss h.1)

-- A Saga that is created from a definition with distinct Slices is sound: every Slice is new, with
-- no evidence, and the states follow the order of the definition.
pub initial_saga-IsSound :
    (canonical_hash : Json → String) (d : Definition) {v : StoredSaga}
    → unique d.ordered_slice_hashes ≡ true
    → initial_saga canonical_hash d ≡ ok v
    → IsSound v
unfolding initial_saga
initial_saga-IsSound canonical_hash d distinct e =
    let (_, _, e₁) = >>=-eq-ok (definition_integrity canonical_hash d) _ e in
    let (ss, ess, e₂) = >>=-eq-ok (initial_states d 0 d.ordered_slice_hashes) _ e₁ in
    let new = initial_states-IsNew d 0 d.ordered_slice_hashes ess in
    let path = check_stored-eq-ok _ e₂ in
    record {
      normal = rw path (All-map IsNew IsNormal (λ s n. n.normal) ss new);
      named = rw path (follows-names ss d.ordered_slice_hashes (check_stored-follows _ e₂));
      distinct = rw path distinct;
      evidence = rw path (All-map IsNew HasEvidence (λ s n. n.evidence) ss new);
      coherent = rw path (all_fresh ss new, (refl, refl));
    }

pub initial_saga-definition :
    (canonical_hash : Json → String) (d : Definition) {u : StoredSaga}
    → initial_saga canonical_hash d ≡ ok u
    → u.definition ≡ d
unfolding initial_saga
initial_saga-definition canonical_hash d e =
    let (_, _, e₁) = >>=-eq-ok (definition_integrity canonical_hash d) _ e in
    let (_, _, e₂) = >>=-eq-ok (initial_states d 0 d.ordered_slice_hashes) _ e₁ in
    ap (λ (x : StoredSaga). x.definition) (check_stored-eq-ok _ e₂)

pub initial_saga-ready :
    (canonical_hash : Json → String) (d : Definition) {u : StoredSaga}
    → initial_saga canonical_hash d ≡ ok u
    → u.status ≡ ready
unfolding initial_saga
initial_saga-ready canonical_hash d e =
    let (_, _, e₁) = >>=-eq-ok (definition_integrity canonical_hash d) _ e in
    let (_, _, e₂) = >>=-eq-ok (initial_states d 0 d.ordered_slice_hashes) _ e₁ in
    ap (λ (x : StoredSaga). x.status) (check_stored-eq-ok _ e₂)
