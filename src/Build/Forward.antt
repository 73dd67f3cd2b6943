-- ===== src/Build/Forward.antt =====
-- The dependencies that the builder makes point forward, so that what is proved of the order of the
-- Slices holds of every Saga that it makes.
use dsp.Prelude.{
  String, ◌≡◌, refl, ap, ◌∙◌, subst, List, [], ◌∷◌, ◌++◌, true, false, ◌==◌, eq_iff, eq_refl, all,
  any, elem, Result, ok, inl, inr, Bool-cases, arith,
}
use dsp.Prelude.Json.{Json}
use dsp.Contracts.{Error, unique}
use dsp.Saga.Definition.{Definition, SliceDependency}
use dsp.Saga.State.{StoredSaga, failed}
use dsp.Saga.Requests.{Request, serve}
use dsp.Saga.Transitions.Admission.{initial_saga}
use dsp.Saga.Transitions.Closing.{has_delta}
use dsp.Saga.Order.Failure.{serve-failed}
use dsp.Saga.Transitions.Checks.{predecessors}
use dsp.Saga.Order.{forward_from, is_forward}
use dsp.Scope.Listing.{Among}
use dsp.Build.Chain.{Edge, build-Kept, dependencies-Edge}
use dsp.Build.Definition.{build, Source, slice_hashes}

Edge-successor :
    (x : String) (xs : List String) (d : SliceDependency)
    → Edge (x ∷ xs) d
    → elem d.successor_slice_hash xs ≡ true
Edge-successor x [] d m = absurd m
Edge-successor x (s ∷ xs) d (inl (_, e)) = rw e (rw (eq_refl s) refl)
Edge-successor x (s ∷ xs) d (inr m) = ground (arith, Edge-successor s xs d m)

-- in a list of distinct texts, an edge to the text after `seen` comes from `seen`
Edge-seen :
    (seen : List String) (h : String) (rest : List String) (d : SliceDependency)
    → unique (seen ++ (h ∷ rest)) ≡ true
    → Edge (seen ++ (h ∷ rest)) d
    → d.successor_slice_hash ≡ h
    → elem d.predecessor_slice_hash seen ≡ true
unfolding unique
Edge-seen [] h rest d distinct m e =
    let no_way = subst (λ z. elem z rest ≡ true) e (Edge-successor h rest d m) in ground arith
Edge-seen (x ∷ []) h rest d distinct (inl (p, _)) e = rw p (rw (eq_refl x) refl)
Edge-seen (x ∷ []) h rest d distinct (inr m) e =
    let no_way = subst (λ z. elem z rest ≡ true) e (Edge-successor h rest d m) in ground arith
Edge-seen (x ∷ y ∷ seen) h rest d distinct (inl (p, _)) e = rw p (rw (eq_refl x) refl)
Edge-seen (x ∷ y ∷ seen) h rest d distinct (inr m) e =
    let later = Edge-seen (y ∷ seen) h rest d (ground arith) m e in ground arith

append-cons :
    (xs : List String) (y : String) (ys : List String) → xs ++ (y ∷ ys) ≡ (xs ++ (y ∷ [])) ++ ys
append-cons [] y ys = refl
append-cons (x ∷ xs) y ys = ap (λ zs. x ∷ zs) (append-cons xs y ys)

module _ (ns : List String) (distinct : unique ns ≡ true) where
  predecessors-seen :
      (ds : List SliceDependency) (seen : List String) (h : String) (rest : List String)
      → ((d : SliceDependency) → Among d ds → Edge ns d)
      → ns ≡ seen ++ (h ∷ rest)
      → all (λ p. elem p seen) (predecessors ds h) ≡ true
  unfolding predecessors
  predecessors-seen [] seen h rest edges split = refl
  predecessors-seen (d ∷ ds) seen h rest edges split =
      let others = predecessors-seen ds seen h rest (λ x m. edges x (inr m)) split in
      elim (Bool-cases (d.successor_slice_hash == h)) [
        | inl t ↦ rw t (
            rw
              (Edge-seen seen h rest d (subst (λ xs. unique xs ≡ true) split distinct)
                (subst (λ xs. Edge xs d) split (edges d (inl refl)))
                (ground (arith, eq_iff d.successor_slice_hash h)))
              others)
        | inr t ↦ rw t others
      ]

  Edges-forward :
      (ds : List SliceDependency) (seen hashes : List String)
      → ((d : SliceDependency) → Among d ds → Edge ns d)
      → ns ≡ seen ++ hashes
      → forward_from ds seen hashes ≡ true
  unfolding forward_from
  Edges-forward ds seen [] edges split = refl
  Edges-forward ds seen (h ∷ hashes) edges split =
      let here = predecessors-seen ds seen h hashes edges split in
      let later =
        Edges-forward ds (seen ++ (h ∷ [])) hashes edges (split ∙ append-cons seen h hashes) in
      rw here later

-- the dependencies point forward
pub build-IsForward :
    (canonical_hash : Json → String) (validated : Result Error (Unit {0})) (source : Source)
    {d : Definition}
    → build canonical_hash validated source ≡ ok d
    → (unique d.ordered_slice_hashes ≡ true) × (is_forward d ≡ true)
unfolding is_forward
build-IsForward canonical_hash validated source {d} run =
    let (ds, kept) = build-Kept canonical_hash validated source run in
    let (made, named, distinct, into, _) = kept in
    (
      distinct,
      Edges-forward d.ordered_slice_hashes distinct d.slice_dependencies [] d.ordered_slice_hashes
          (λ x m. dependencies-Edge (slice_hashes source) named made x (into x m)) refl,
    )

-- A Saga of a definition that the builder made fails only where nothing was committed.
pub build-failed :
    (canonical_hash : Json → String) (validated : Result Error (Unit {0})) (source : Source)
    (requests : List Request) {d : Definition} {u : StoredSaga}
    → build canonical_hash validated source ≡ ok d
    → initial_saga canonical_hash d ≡ ok u
    → (serve canonical_hash u requests).status ≡ failed
    → any has_delta (serve canonical_hash u requests).slice_states ≡ false
build-failed canonical_hash validated source requests {d} run created h =
    let (distinct, forward) = build-IsForward canonical_hash validated source run in
    serve-failed canonical_hash d requests distinct forward created h
