-- ===== src/Build/Chain.antt =====
-- The dependencies that the builder (saga_v2.py) makes: a chain over the Slices of the execution plan.
use dsp.Prelude.{
  ◌↔◌, String, ◌≡◌, refl, ap, sym, ◌∙◌, subst, List, [], ◌∷◌, true, not, ◌==◌, Result, ok,
  >>=-eq-ok, guard_then, ok-injective, inl, inr, ◌⊎◌,
}
use dsp.Prelude.Json.{Json}
use dsp.Contracts.{Error, digest, map_digest, unique, texts, is_empty, value_error}
use dsp.Contracts.Normal.{digest_cases, digest-strip}
use dsp.Saga.Definition.{
  Definition, SliceDependency, slice_dependency, dependency_le, check_definition,
  compute_definition_hash,
}
use dsp.Saga.Definition.Constructor.{check_definition-parts, digests-parts}
use dsp.Scope.Listing.{Among, sort-Among, Among-sort}
use dsp.Build.Definition.{
  dependencies, build, Source, slice_hashes, validation_assignments, draft_of, under_hash,
}

-- two texts that stand next to each other, in this order
abbrev pub Adjacent : String → String → List String → Type 0
Adjacent p s [] = ⊥
Adjacent p s (_ ∷ []) = ⊥
Adjacent p s (a ∷ b ∷ hashes) = ((p ≡ a) × (s ≡ b)) ⊎ Adjacent p s (b ∷ hashes)

-- an edge between such texts
abbrev pub Edge : List String → SliceDependency → Type 0
Edge hashes d = Adjacent d.predecessor_slice_hash d.successor_slice_hash hashes

map_digest-cons :
    (h : String) (hs : List String) {ns : List String}
    → map_digest (h ∷ hs) ≡ ok ns
    → (h' : String) × (rest : List String) × (digest h ≡ ok h')
      × (map_digest hs ≡ ok rest)
      × (ns ≡ h' ∷ rest)
unfolding map_digest
map_digest-cons h hs n =
    let (h', eh, n₁) = >>=-eq-ok (digest h) _ n in
    let (rest, er, n₂) = >>=-eq-ok (map_digest hs) _ n₁ in
    (h', rest, eh, er, sym (ok-injective _ _ n₂))

-- an edge has the digests of its ends
slice_dependency-ends :
    (p s : String) (reasons : List String) {d : SliceDependency}
    → slice_dependency p s reasons ≡ ok d
    → (digest p ≡ ok d.predecessor_slice_hash) × (digest s ≡ ok d.successor_slice_hash)
unfolding slice_dependency
slice_dependency-ends p s reasons e =
    let (p', ep, e₁) = >>=-eq-ok (digest p) _ e in
    let (s', es, e₂) = >>=-eq-ok (digest s) _ e₁ in
    let (_, e₃) = guard_then (not (p' == s')) value_error _ e₂ in
    let (rs, _, e₄) = >>=-eq-ok (texts reasons) _ e₃ in
    let (_, e₅) = guard_then (not (is_empty rs)) value_error _ e₄ in
    let made = ok-injective _ _ e₅ in
    (
      ep ∙ ap (λ (x : SliceDependency). ok x.predecessor_slice_hash) made,
      es ∙ ap (λ (x : SliceDependency). ok x.successor_slice_hash) made,
    )

-- the edges that are made, over the digests that the constructors keep
pub dependencies-Edge :
    (hs : List String) {ns : List String} {ds : List SliceDependency}
    → map_digest hs ≡ ok ns
    → dependencies hs ≡ ok ds
    → (d : SliceDependency) → Among d ds
    → Edge ns d
unfolding dependencies
dependencies-Edge [] n e d m = absurd (subst (λ x. Among d x) (sym (ok-injective [] _ e)) m)
dependencies-Edge (h ∷ []) n e d m = absurd (subst (λ x. Among d x) (sym (ok-injective [] _ e)) m)
dependencies-Edge (p ∷ s ∷ hs) {ns} n e d m =
    let (p', rest, ep, er, split) = map_digest-cons p (s ∷ hs) n in
    let (s', later, es, _, split') = map_digest-cons s hs er in
    let (one, eo, e₁) = >>=-eq-ok (slice_dependency p s ("MATERIALIZATION_ORDER" ∷ [])) _ e in
    let (others, made, e₂) = >>=-eq-ok (dependencies (s ∷ hs)) _ e₁ in
    let (from, to) = slice_dependency-ends p s ("MATERIALIZATION_ORDER" ∷ []) eo in
    let among = subst (λ x. Among d x) (sym (ok-injective _ _ e₂)) m in
    subst (λ xs. Edge xs d) (sym (split ∙ ap (λ xs. p' ∷ xs) split'))
      (edge p' s' later one others (ok-injective _ _ (sym from ∙ ep))
        (ok-injective _ _ (sym to ∙ es))
        (λ x k. subst (λ xs. Edge xs x) split' (dependencies-Edge (s ∷ hs) er made x k)) among)
  where
    edge :
        (p' s' : String) (later : List String) (one : SliceDependency)
        (others : List SliceDependency)
        → one.predecessor_slice_hash ≡ p'
        → one.successor_slice_hash ≡ s'
        → ((x : SliceDependency) → Among x others → Edge (s' ∷ later) x)
        → Among d (one ∷ others)
        → Edge (p' ∷ s' ∷ later) d
    edge p' s' later one others from to rest (inl same) = inl (
      ap (λ (x : SliceDependency). x.predecessor_slice_hash) same ∙ from,
      ap (λ (x : SliceDependency). x.successor_slice_hash) same ∙ to,
    )
    edge p' s' later one others from to rest (inr k) = inr (rest d k)

-- an edge with these ends
abbrev pub HasEdge : String → String → List SliceDependency → Type 0
HasEdge p s ds =
    (x : SliceDependency) × Among x ds
    × (x.predecessor_slice_hash ≡ p)
    × (x.successor_slice_hash ≡ s)

-- and no edge is missing
Adjacent-HasEdge :
    (hs : List String) {ns : List String} {ds : List SliceDependency} (p s : String)
    → map_digest hs ≡ ok ns
    → dependencies hs ≡ ok ds
    → Adjacent p s ns
    → HasEdge p s ds
unfolding dependencies map_digest
Adjacent-HasEdge [] p s n e m = absurd (subst (Adjacent p s) (sym (ok-injective [] _ n)) m)
Adjacent-HasEdge (h ∷ []) p s n e m =
    let (h', eh, n₁) = >>=-eq-ok (digest h) _ n in
    absurd (subst (Adjacent p s) (sym (ok-injective (h' ∷ []) _ n₁)) m)
Adjacent-HasEdge (a ∷ b ∷ hs) p s n e m =
    let (a', rest, ea, er, split) = map_digest-cons a (b ∷ hs) n in
    let (b', later, eb, _, split') = map_digest-cons b hs er in
    let (one, eo, e₁) = >>=-eq-ok (slice_dependency a b ("MATERIALIZATION_ORDER" ∷ [])) _ e in
    let (others, made, e₂) = >>=-eq-ok (dependencies (b ∷ hs)) _ e₁ in
    let (from, to) = slice_dependency-ends a b ("MATERIALIZATION_ORDER" ∷ []) eo in
    subst (HasEdge p s) (ok-injective (one ∷ others) _ e₂) (
      edge a' b' later one others (ok-injective _ _ (sym from ∙ ea))
        (ok-injective _ _ (sym to ∙ eb))
        (λ k. Adjacent-HasEdge (b ∷ hs) p s er made (subst (Adjacent p s) (sym split') k))
        (subst (Adjacent p s) (split ∙ ap (λ xs. a' ∷ xs) split') m))
  where
    edge :
        (a' b' : String) (later : List String) (one : SliceDependency)
        (others : List SliceDependency)
        → one.predecessor_slice_hash ≡ a'
        → one.successor_slice_hash ≡ b'
        → (Adjacent p s (b' ∷ later) → HasEdge p s others)
        → Adjacent p s (a' ∷ b' ∷ later)
        → HasEdge p s (one ∷ others)
    edge a' b' later one others from to rest (inl (x, y)) =
        (one, inl refl, from ∙ sym x, to ∙ sym y)
    edge a' b' later one others from to rest (inr k) = let (x, m, f, t) = rest k in (x, inr m, f, t)

digest_idem : (v : String) {n : String} → digest v ≡ ok n → digest n ≡ ok n
digest_idem v {n} e = elim (digest_cases v) [
  | inl here ↦
      let same = ok-injective _ _ (sym here ∙ e) in
      subst (λ x. digest x ≡ ok n) same (digest-strip v ∙ e)
  | inr refused ↦ let no_way = sym refused ∙ e in cc
]

map_digest_idem :
    (hs : List String) {ns : List String} → map_digest hs ≡ ok ns → map_digest ns ≡ ok ns
unfolding map_digest
map_digest_idem [] n = subst (λ x. map_digest x ≡ ok x) (ok-injective [] _ n) refl
map_digest_idem (h ∷ hs) n =
    let (h', rest, eh, er, split) = map_digest-cons h hs n in
    subst (λ x. map_digest x ≡ ok x) (sym split)
      (rw (digest_idem h eh) (rw (map_digest_idem hs er) refl))

-- what `build` keeps of the Slices and the dependencies
abbrev pub Kept : Source → Definition → List SliceDependency → Type 0
Kept source d ds =
    (dependencies (slice_hashes source) ≡ ok ds)
    × (map_digest (slice_hashes source) ≡ ok d.ordered_slice_hashes)
    × (unique d.ordered_slice_hashes ≡ true)
    × ((x : SliceDependency) → Among x d.slice_dependencies → Among x ds)
    × ((x : SliceDependency) → Among x ds → Among x d.slice_dependencies)

pub build-Kept :
    (canonical_hash : Json → String) (validated : Result Error (Unit {0})) (source : Source)
    {d : Definition}
    → build canonical_hash validated source ≡ ok d
    → (ds : List SliceDependency) × Kept source d ds
unfolding build
build-Kept canonical_hash validated source {d} run =
    let (_, _, run₁) = >>=-eq-ok validated _ run in
    let (ds, made, run₂) = >>=-eq-ok (dependencies (slice_hashes source)) _ run₁ in
    let (assigned, _, run₃) = >>=-eq-ok (validation_assignments source) _ run₂ in
    let first = draft_of source ds assigned in
    let (draft, drafted, run₄) = >>=-eq-ok (check_definition first) _ run₃ in
    let last = under_hash draft (compute_definition_hash canonical_hash draft) in
    let (kept, draft_edges, _, _) = check_definition-parts first drafted in
    let (kept', edges, _, _) = check_definition-parts last run₄ in
    let (named, _, _) = digests-parts (slice_hashes source) kept in
    let (renamed, distinct, _) = digests-parts draft.ordered_slice_hashes kept' in
    let same = ok-injective _ _ (sym (map_digest_idem (slice_hashes source) named) ∙ renamed) in
    (
      ds,
      (
        made,
        named ∙ ap ok same,
        distinct,
        (λ x m. sort-Among dependency_le x ds (
            subst (Among x) draft_edges
              (sort-Among dependency_le x draft.slice_dependencies (subst (Among x) edges m)))),
        (λ x m. subst (Among x) (sym edges) (
            Among-sort dependency_le x draft.slice_dependencies
              (subst (Among x) (sym draft_edges) (Among-sort dependency_le x ds m)))),
      ),
    )

-- A definition that the builder makes has the Slices of the execution plan in their order, by their
-- digests and distinct, and its dependencies form a chain: one goes from a Slice to another just where
-- the second Slice comes directly after the first.
pub build-IsChain :
    (canonical_hash : Json → String) (validated : Result Error (Unit {0})) (source : Source)
    {d : Definition}
    → build canonical_hash validated source ≡ ok d
    → (map_digest (slice_hashes source) ≡ ok d.ordered_slice_hashes)
      × (unique d.ordered_slice_hashes ≡ true)
      × ((p s : String) → HasEdge p s d.slice_dependencies ↔ Adjacent p s d.ordered_slice_hashes)
build-IsChain canonical_hash validated source {d} run =
    let (ds, kept) = build-Kept canonical_hash validated source run in
    let (made, named, distinct, into, out_of) = kept in
    (
      named,
      distinct,
      λ p s. (
        (λ h.
            let (x, m, from, to) = h in
            subst (λ q. Adjacent q s d.ordered_slice_hashes) from
              (subst (λ q. Adjacent x.predecessor_slice_hash q d.ordered_slice_hashes) to
                (dependencies-Edge (slice_hashes source) named made x (into x m)))),
        (λ a.
            let (x, m, from, to) = Adjacent-HasEdge (slice_hashes source) p s named made a in
            (x, out_of x m, from, to)),
      ),
    )
