-- ===== src/Saga/Definition/Constructor.antt =====
-- What ExecutionSagaDefinitionV2.__post_init__ guarantees of a definition.
use dsp.Prelude.Sort.{sort_by}
use dsp.Prelude.{
  String, ◌≡◌, refl, ap, sym, ◌∙◌, subst, List, [], ◌∷◌, map, true, false, ok, arith, all, not,
  >>=-eq-ok, guard_then, ok-injective,
}
use dsp.Prelude.Text.{is_digest}
use dsp.Contracts.{text, digest, digests, map_digest, unique, is_empty}
use dsp.Saga.Definition.{
  Definition, SliceValidationAssignment, check_definition, unique_edges, dependency_le,
}

digest-is_digest : (v : String) {d : String} → digest v ≡ ok d → is_digest d ≡ true
unfolding digest
digest-is_digest v e =
    let (t, _, e₁) = >>=-eq-ok (text v) _ e in
    let (valid, e₂) = guard_then (is_digest t) _ _ e₁ in
    subst (λ x. is_digest x ≡ true) (ok-injective t _ e₂) valid

map_digest-is_digest :
    (vs : List String) {ds : List String} → map_digest vs ≡ ok ds → all is_digest ds ≡ true
unfolding map_digest
map_digest-is_digest [] e = subst (λ x. all is_digest x ≡ true) (ok-injective [] _ e) refl
map_digest-is_digest (v ∷ vs) e =
    let (d, ed, e₁) = >>=-eq-ok (digest v) _ e in
    let (ds, eds, e₂) = >>=-eq-ok (map_digest vs) _ e₁ in
    subst (λ x. all is_digest x ≡ true) (ok-injective (d ∷ ds) _ e₂)
      (rw (digest-is_digest v ed) (map_digest-is_digest vs eds))

-- a tuple of distinct digests, which is not empty
abbrev pub AreDigests : List String → Type 0
AreDigests ds = (all is_digest ds ≡ true) × (is_empty ds ≡ false) × (unique ds ≡ true)

pub digests-parts :
    (vs : List String) {ds : List String}
    → digests vs ≡ ok ds
    → (map_digest vs ≡ ok ds) × (unique ds ≡ true) × (is_empty ds ≡ false)
unfolding digests
digests-parts vs e =
    let (ds, eds, e₁) = >>=-eq-ok (map_digest vs) _ e in
    let (full, e₂) = guard_then (not (is_empty ds)) _ _ e₁ in
    let (distinct, e₃) = guard_then (unique ds) _ _ e₂ in
    subst (λ xs. (map_digest vs ≡ ok xs) × (unique xs ≡ true) × (is_empty xs ≡ false))
      (ok-injective ds _ e₃) (eds, distinct, ground arith)

digests-AreDigests : (vs : List String) {ds : List String} → digests vs ≡ ok ds → AreDigests ds
digests-AreDigests vs e =
    let (eds, distinct, full) = digests-parts vs e in (map_digest-is_digest vs eds, full, distinct)

abbrev assigned_slices : Definition → List String
assigned_slices d =
    map (λ (a : SliceValidationAssignment). a.execution_slice_hash) d.slice_validation_assignments

-- what a constructor keeps of the Slices and the dependencies
pub check_definition-parts :
    (d : Definition) {d' : Definition}
    → check_definition d ≡ ok d'
    → (digests d.ordered_slice_hashes ≡ ok d'.ordered_slice_hashes)
      × (d'.slice_dependencies ≡ sort_by dependency_le d.slice_dependencies)
      × (unique_edges d.slice_dependencies ≡ true)
      × (unique (assigned_slices d) ≡ true)
unfolding check_definition
check_definition-parts d {d'} e =
    let (_, _, e₁) = >>=-eq-ok (text d.saga_id) _ e in
    let (_, _, e₂) = >>=-eq-ok (digest d.changeset_hash) _ e₁ in
    let (_, _, e₃) = >>=-eq-ok (digest d.approved_scope_hash) _ e₂ in
    let (_, _, e₄) = >>=-eq-ok (digest d.materialization_plan_hash) _ e₃ in
    let (_, _, e₅) = >>=-eq-ok (digest d.required_set_hash) _ e₄ in
    let (_, _, e₆) = >>=-eq-ok (digest d.execution_plan_hash) _ e₅ in
    let (_, _, e₇) = >>=-eq-ok (digest d.saga_definition_hash) _ e₆ in
    let (ds, eds, e₈) = >>=-eq-ok (digests d.ordered_slice_hashes) _ e₇ in
    let (edges, e₉) = guard_then (unique_edges d.slice_dependencies) _ _ e₈ in
    let (assigned, last) = guard_then (unique (assigned_slices d)) _ _ e₉ in
    let made = ok-injective _ _ last in
    (
      eds ∙ ap (λ (x : Definition). ok x.ordered_slice_hashes) made,
      ap (λ (x : Definition). x.slice_dependencies) (sym made),
      edges,
      assigned,
    )

-- A definition that its constructor returns has at least one Slice, its Slices are distinct digests,
-- and the definition came with at most one dependency between two Slices and one assignment for each
-- Slice.
pub check_definition-AreDigests :
    (d : Definition) {d' : Definition}
    → check_definition d ≡ ok d'
    → AreDigests d'.ordered_slice_hashes
      × (unique_edges d.slice_dependencies ≡ true)
      × (unique (assigned_slices d) ≡ true)
check_definition-AreDigests d e =
    let (eds, _, edges, assigned) = check_definition-parts d e in
    (digests-AreDigests d.ordered_slice_hashes eds, edges, assigned)
