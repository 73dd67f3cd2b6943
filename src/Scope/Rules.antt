-- ===== src/Scope/Rules.antt =====
-- platform/approval_scope/src/design_approval_scope/contracts.py: the rules of an approved scope.
use dsp.Prelude.{
  ℕ, String, Option, none, some, List, [], ◌∷◌, Result, ok, ◌>>=◌, ◌>>◌, guard, not, ◌&&◌, ◌||◌,
  ◌==◌, Bool, true, false, length, same_list, if◌then◌else◌,
}
use dsp.Prelude.Tests.{is_none, nat_eq, ltb}
use dsp.Prelude.Sort.{sort_by, str_le, texts_le}
use dsp.Contracts.{Error, value_error, text, optional_text, texts, is_empty}
use dsp.Saga.Evidence.{CanonicalAspect, aspect_value}

pub data PredicateField : Type 0 where
  semantic_id canonical_kind source_entity derivation_rule : PredicateField

pub data PredicateOperator : Type 0 where
  equal_to one_of : PredicateOperator

pub record PredicateTerm : Type 0 where
  pub on : PredicateField
  pub operator : PredicateOperator
  pub values : List String

pub record EntityPredicate : Type 0 where
  pub all_of : List PredicateTerm

pub record EntitySelector : Type 0 where
  pub entities : List String
  pub predicate : Option EntityPredicate

pub record ExistingEntityRule : Type 0 where
  pub rule_id : String
  pub selector : EntitySelector
  pub allowed_aspects : List CanonicalAspect

pub record CreationRule : Type 0 where
  pub rule_id : String
  pub canonical_operation : String
  pub source_selector : EntitySelector
  pub entity_kinds : List String
  pub max_count : Option ℕ
  pub required_derivation : Option String

pub record DeletionRule : Type 0 where
  pub rule_id : String
  pub selector : EntitySelector

-- ExecutionSliceScopeRule
pub record SliceScopeRule : Type 0 where
  pub slice_scope_rule_id : String
  pub document_ref : String
  pub existing_rule_ids : List String
  pub creation_rule_ids : List String
  pub deletion_rule_ids : List String

-- ApprovalScopeBoundaryV2, the fields that a comparison reads
pub record Boundary : Type 0 where
  pub changeset_hash : String
  pub scope_hash : String
  pub existing_entity_rules : List ExistingEntityRule
  pub creation_rules : List CreationRule
  pub deletion_rules : List DeletionRule
  pub execution_slice_scopes : List SliceScopeRule

-- the enumerations' values
unfoldable pub field_value : PredicateField → String
field_value semantic_id = "SEMANTIC_ID"
field_value canonical_kind = "CANONICAL_KIND"
field_value source_entity = "SOURCE_ENTITY"
field_value derivation_rule = "DERIVATION_RULE"

unfoldable pub operator_value : PredicateOperator → String
operator_value equal_to = "EQ"
operator_value one_of = "IN"

-- `_texts(values, name, required=True)`
unfoldable pub some_texts : List String → Result Error (List String)
unfolding texts
some_texts values = do ts ← texts values; guard (not (is_empty ts)) value_error; ok ts

abbrev takes_one : PredicateOperator → Bool
takes_one equal_to = true
takes_one one_of = false

-- PredicateTerm.__post_init__
unfoldable pub check_term : PredicateTerm → Result Error PredicateTerm
unfolding some_texts
check_term t = do
  values ← some_texts t.values
  guard (not (takes_one t.operator) || nat_eq (length values) 1) value_error
  ok (record t { values = values })

-- the key `(t.field.value, t.operator.value, t.values)`
unfoldable pub term_key : PredicateTerm → List String
unfolding field_value operator_value
term_key t = field_value t.on ∷ operator_value t.operator ∷ t.values

unfoldable pub same_term : PredicateTerm → PredicateTerm → Bool
unfolding term_key
same_term t u = same_list (λ a b. a == b) (term_key t) (term_key u)

unfoldable pub has_term : PredicateTerm → List PredicateTerm → Bool
unfolding same_term
has_term t [] = false
has_term t (u ∷ us) = same_term t u || has_term t us

unfoldable pub distinct_terms : List PredicateTerm → List PredicateTerm
unfolding has_term
distinct_terms [] = []
distinct_terms (t ∷ ts) = let rest = distinct_terms ts in if has_term t ts then rest else t ∷ rest

-- EntityPredicate.__post_init__
unfoldable pub check_predicate : EntityPredicate → Result Error EntityPredicate
unfolding distinct_terms sort_by term_key
check_predicate p = do
  guard (not (is_empty p.all_of)) value_error
  ok (record {
    all_of = sort_by (λ t u. texts_le (term_key t) (term_key u)) (distinct_terms p.all_of);
  })

-- EntitySelector.__post_init__
unfoldable pub check_selector : EntitySelector → Result Error EntitySelector
unfolding texts
check_selector s = do
  entities ← texts s.entities
  guard
      ((is_empty entities && not (is_none s.predicate))
        || (not (is_empty entities) && is_none s.predicate))
      value_error
  ok (record s { entities = entities })

same_aspect : CanonicalAspect → CanonicalAspect → Bool
unfolding aspect_value
same_aspect a b = aspect_value a == aspect_value b

-- `aspect in aspects`
unfoldable pub has_aspect : CanonicalAspect → List CanonicalAspect → Bool
unfolding same_aspect
has_aspect a [] = false
has_aspect a (b ∷ bs) = same_aspect a b || has_aspect a bs

unfoldable pub distinct_aspects : List CanonicalAspect → List CanonicalAspect
unfolding has_aspect
distinct_aspects [] = []
distinct_aspects (a ∷ rest) =
    let others = distinct_aspects rest in if has_aspect a rest then others else a ∷ others

-- `_aspects(values, required=True)`
unfoldable pub some_aspects : List CanonicalAspect → Result Error (List CanonicalAspect)
unfolding distinct_aspects sort_by aspect_value
some_aspects values = do
  let sorted = sort_by (λ a b. str_le (aspect_value a) (aspect_value b)) (distinct_aspects values)
  guard (not (is_empty sorted)) value_error
  ok sorted

-- ExistingEntityRule.__post_init__
unfoldable pub check_existing_rule : ExistingEntityRule → Result Error ExistingEntityRule
unfolding text some_aspects
check_existing_rule r = do
  id ← text r.rule_id
  aspects ← some_aspects r.allowed_aspects
  ok (record r { rule_id = id; allowed_aspects = aspects })

abbrev positive : Option ℕ → Bool
positive none = true
positive (some n) = ltb 0 n

-- CreationRule.__post_init__
unfoldable pub check_creation_rule : CreationRule → Result Error CreationRule
unfolding text optional_text some_texts
check_creation_rule r = do
  id ← text r.rule_id
  operation ← text r.canonical_operation
  kinds ← some_texts r.entity_kinds
  guard (positive r.max_count) value_error
  derivation ← optional_text r.required_derivation
  ok (record r {
    rule_id = id;
    canonical_operation = operation;
    entity_kinds = kinds;
    required_derivation = derivation;
  })

-- DeletionRule.__post_init__
unfoldable pub check_deletion_rule : DeletionRule → Result Error DeletionRule
unfolding text
check_deletion_rule r = do id ← text r.rule_id; ok (record r { rule_id = id })

-- ExecutionSliceScopeRule.__post_init__
unfoldable pub check_slice_scope_rule : SliceScopeRule → Result Error SliceScopeRule
unfolding text texts
check_slice_scope_rule r = do
  id ← text r.slice_scope_rule_id
  document ← text r.document_ref
  existing ← texts r.existing_rule_ids
  creation ← texts r.creation_rule_ids
  deletion ← texts r.deletion_rule_ids
  ok (record {
    slice_scope_rule_id = id;
    document_ref = document;
    existing_rule_ids = existing;
    creation_rule_ids = creation;
    deletion_rule_ids = deletion;
  })
