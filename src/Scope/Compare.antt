-- ===== src/Scope/Compare.antt =====
-- scope_comparator.py: the comparison of one change with the rules of its kind.
use dsp.Prelude.{
  String, Option, none, some, List, [], ◌∷◌, ◌++◌, map, ◌==◌, Bool, true, false, all, if◌then◌else◌,
}
use dsp.Prelude.Sort.{sort_by, str_le}
use dsp.Contracts.{is_empty}
use dsp.Saga.Evidence.{ActualChange, CanonicalAspect, ScopeMatch, ScopeViolation}
use dsp.Scope.Rules.{ExistingEntityRule, DeletionRule, CreationRule, EntitySelector, has_aspect}
use dsp.Scope.Selector.{selector_matches, context, creation_source_context, is_in}

-- `tuple(x for x in xs if p(x))`
unfoldable pub keep {ℓ} : {A : Type ℓ} → (A → Bool) → List A → List A
keep p [] = []
keep p (x ∷ xs) = let rest = keep p xs in if p x then x ∷ rest else rest

-- what the comparison of some changes adds to the result
pub record Outcome : Type 0 where
  pub matches : List ScopeMatch
  pub violations : List ScopeViolation

unfoldable pub violation : String → ActualChange → ScopeViolation
violation code change = record {
  code = code;
  actual_change_hash = change.actual_change_hash;
  rule_id = none;
}

unfoldable pub scope_match : ActualChange → String → ScopeMatch
scope_match change id = record { actual_change_hash = change.actual_change_hash; rule_id = id }

-- the rules whose selector matches the changed entity
unfoldable pub selects : ActualChange → EntitySelector → Bool
unfolding selector_matches context
selects change selector = selector_matches selector (context change)

unfoldable pub aspects_of : List ExistingEntityRule → List CanonicalAspect
aspects_of [] = []
aspects_of (rule ∷ rules) = rule.allowed_aspects ++ aspects_of rules

-- _compare_modify
unfoldable pub compare_modify : ActualChange → List ExistingEntityRule → Outcome
unfolding keep selects violation scope_match sort_by aspects_of has_aspect
compare_modify change rules =
    let matching = keep (λ (r : ExistingEntityRule). selects change r.selector) rules in
    let matches = map (scope_match change) (
      map (λ (r : ExistingEntityRule). r.rule_id)
        (sort_by (λ (r s : ExistingEntityRule). str_le r.rule_id s.rule_id) matching)) in
    if is_empty matching
    then record { matches = []; violations = violation "ENTITY_OUTSIDE_SCOPE" change ∷ [] }
    else if all (λ a. has_aspect a (aspects_of matching)) change.changed_aspects
    then record { matches = matches; violations = [] }
    else record { matches = matches; violations = violation "ASPECT_OUTSIDE_SCOPE" change ∷ [] }

-- _compare_delete
unfoldable pub compare_delete : ActualChange → List DeletionRule → Outcome
unfolding keep selects violation scope_match sort_by
compare_delete change rules =
    let matching = keep (λ (r : DeletionRule). selects change r.selector) rules in
    let matches = map (scope_match change) (
      map (λ (r : DeletionRule). r.rule_id)
        (sort_by (λ (r s : DeletionRule). str_le r.rule_id s.rule_id) matching)) in
    if is_empty matching
    then record { matches = []; violations = violation "DELETION_FORBIDDEN" change ∷ [] }
    else record { matches = matches; violations = [] }

-- `rule.canonical_operation == change.canonical_operation`
unfoldable pub same_text : Option String → String → Bool
same_text none t = false
same_text (some s) t = t == s

-- `rule.required_derivation is None or rule.required_derivation == change.derivation_rule`
unfoldable pub derivation_allowed : Option String → Option String → Bool
unfolding same_text
derivation_allowed none derivation = true
derivation_allowed (some required) derivation = same_text derivation required

unfoldable pub operation_allowed : ActualChange → CreationRule → Bool
unfolding same_text
operation_allowed change rule = same_text change.canonical_operation rule.canonical_operation

unfoldable pub kind_allowed : ActualChange → CreationRule → Bool
kind_allowed change rule = is_in change.canonical_kind rule.entity_kinds

unfoldable pub source_allowed : ActualChange → CreationRule → Bool
unfolding selector_matches creation_source_context
source_allowed change rule = selector_matches rule.source_selector (creation_source_context change)

unfoldable pub derived_as_required : ActualChange → CreationRule → Bool
unfolding derivation_allowed
derived_as_required change rule = derivation_allowed rule.required_derivation change.derivation_rule

-- the candidates for a created entity, or the violation
pub data Candidates : Type 0 where
  candidates : List CreationRule → Candidates
  forbidden : ScopeViolation → Candidates

-- _creation_candidates
unfoldable pub creation_candidates : ActualChange → List CreationRule → Candidates
unfolding keep violation operation_allowed kind_allowed source_allowed derived_as_required sort_by
creation_candidates change rules =
    let operation_rules = keep (operation_allowed change) rules in
    let kind_rules = keep (kind_allowed change) operation_rules in
    let source_rules = keep (source_allowed change) kind_rules in
    let derivation_rules = keep (derived_as_required change) source_rules in
    if is_empty operation_rules
    then forbidden (violation "CREATION_OPERATION_FORBIDDEN" change)
    else if is_empty kind_rules
    then forbidden (violation "CREATION_KIND_FORBIDDEN" change)
    else if is_empty source_rules
    then forbidden (violation "CREATION_SOURCE_FORBIDDEN" change)
    else if is_empty derivation_rules
    then forbidden (violation "CREATION_DERIVATION_MISMATCH" change)
    else candidates (sort_by (λ (r s : CreationRule). str_le r.rule_id s.rule_id) derivation_rules)
