-- ===== src/Scope/Selector.antt =====
-- scope_comparator.py: which entities a selector of a rule matches.
use dsp.Prelude.{
  String, Option, none, some, List, [], ◌∷◌, ◌==◌, Bool, false, elem, all, if◌then◌else◌,
}
use dsp.Contracts.{is_empty}
use dsp.Saga.Evidence.{ActualChange}
use dsp.Scope.Rules.{
  PredicateField, semantic_id, canonical_kind, source_entity, derivation_rule, PredicateOperator,
  equal_to, one_of, PredicateTerm, EntityPredicate, EntitySelector,
}

-- _SelectorContext
pub record Context : Type 0 where
  pub semantic_id : Option String
  pub canonical_kind : Option String
  pub source_entity : Option String
  pub derivation_rule : Option String

-- _context
unfoldable pub context : ActualChange → Context
context change = record {
  semantic_id = change.semantic_id;
  canonical_kind = change.canonical_kind;
  source_entity = change.source_semantic_id;
  derivation_rule = change.derivation_rule;
}

-- _creation_source_context
unfoldable pub creation_source_context : ActualChange → Context
creation_source_context change = record {
  semantic_id = change.source_semantic_id;
  canonical_kind = change.source_canonical_kind;
  source_entity = change.source_semantic_id;
  derivation_rule = change.derivation_rule;
}

-- _selector_value
unfoldable pub selector_value : Context → PredicateField → Option String
selector_value ctx semantic_id = ctx.semantic_id
selector_value ctx canonical_kind = ctx.canonical_kind
selector_value ctx source_entity = ctx.source_entity
selector_value ctx derivation_rule = ctx.derivation_rule

-- `value == values[0]`; the constructor of a term gives EQ one value
abbrev pub equals_first : String → List String → Bool
equals_first value [] = false
equals_first value (first ∷ _) = value == first

-- one round of the loop over the terms of a predicate
unfoldable pub holds_of : PredicateOperator → List String → Option String → Bool
holds_of _ values none = false
holds_of equal_to values (some value) = equals_first value values
holds_of one_of values (some value) = elem value values

unfoldable pub term_matches : Context → PredicateTerm → Bool
unfolding holds_of selector_value
term_matches ctx term = holds_of term.operator term.values (selector_value ctx term.on)

-- `value is not None and value in values`
abbrev pub is_in : Option String → List String → Bool
is_in none values = false
is_in (some value) values = elem value values

unfoldable pub predicate_matches : Context → Option EntityPredicate → Bool
unfolding term_matches
predicate_matches ctx none = false
predicate_matches ctx (some predicate) = all (term_matches ctx) predicate.all_of

-- _selector_matches
unfoldable pub selector_matches : EntitySelector → Context → Bool
unfolding predicate_matches
selector_matches selector ctx =
    if is_empty selector.entities
    then predicate_matches ctx selector.predicate
    else is_in ctx.semantic_id selector.entities
