-- ===== src/Scope/Evaluate.antt =====
-- scope_comparator.py and v2.py: the whole comparison of an actual delta with the approved scope.
use dsp.Prelude.{
  String, Option, none, some, List, [], ◌∷◌, ◌++◌, Bool, Result, ok, err, ◌>>=◌, ◌>>◌, guard,
  if◌then◌else◌,
}
use dsp.Prelude.Tests.{is_none}
use dsp.Prelude.Dict.{Dict, empty, update}
use dsp.Prelude.Sort.{sort_by, str_le}
use dsp.Prelude.Json.{Json}
use dsp.Contracts.{Error, scope_comparison_invalid, is_empty}
use dsp.Saga.Evidence.{
  ActualChange, ChangeKind, create, modify, delete, ScopeMatch, ScopeViolation, ScopeResult,
  ScopeStatus, within_scope, scope_breach, compute_scope_comparison_hash, match_le, violation_le,
}
use dsp.Scope.Rules.{ExistingEntityRule, CreationRule, DeletionRule, SliceScopeRule, Boundary}
use dsp.Scope.Compare.{Outcome, compare_modify, compare_delete}
use dsp.Scope.Allocation.{compare_creations}

module _ {R : Type 0} (id : R → String) where
  -- _rule_index
  unfoldable pub rule_index : Dict R → List R → Result Error (Dict R)
  rule_index index [] = ok index
  rule_index index (rule ∷ rules) = do
    guard (is_none (index (id rule))) scope_comparison_invalid
    rule_index (update index (id rule) rule) rules

abbrev pub found {ℓ} : {R : Type ℓ} → Option R → Result Error R
found none = err scope_comparison_invalid
found (some rule) = ok rule

unfoldable pub look_up {ℓ} : {R : Type ℓ} → List String → Dict R → Result Error (List R)
look_up [] index = ok []
look_up (id ∷ ids) index = do rule ← found (index id); rules ← look_up ids index; ok (rule ∷ rules)

-- _authorized_rules
unfoldable pub authorized_rules {ℓ} : {R : Type ℓ} → List String → Dict R → Result Error (List R)
unfolding look_up sort_by
authorized_rules ids index = look_up (sort_by str_le ids) index

-- the three tuples of rules that a Slice is authorised by
pub record Rules : Type 0 where
  pub existing : List ExistingEntityRule
  pub creation : List CreationRule
  pub deletion : List DeletionRule

unfoldable pub rules_of : Boundary → SliceScopeRule → Result Error Rules
unfolding rule_index authorized_rules
rules_of boundary scope = do
  existing_index ←
      rule_index (λ (r : ExistingEntityRule). r.rule_id) empty boundary.existing_entity_rules
  existing ← authorized_rules scope.existing_rule_ids existing_index
  creation_index ← rule_index (λ (r : CreationRule). r.rule_id) empty boundary.creation_rules
  creation ← authorized_rules scope.creation_rule_ids creation_index
  deletion_index ← rule_index (λ (r : DeletionRule). r.rule_id) empty boundary.deletion_rules
  deletion ← authorized_rules scope.deletion_rule_ids deletion_index
  ok (record { existing = existing; creation = creation; deletion = deletion })

-- what the loop over the changes has gathered
pub record Gathered : Type 0 where
  pub matches : List ScopeMatch
  pub violations : List ScopeViolation
  pub creates : List ActualChange

abbrev pub extend : Outcome → Gathered → Gathered
extend o g = record g {
  matches = o.matches ++ g.matches;
  violations = o.violations ++ g.violations;
}

unfoldable pub gather_one : Rules → ChangeKind → ActualChange → Gathered → Gathered
unfolding compare_modify compare_delete
gather_one rules modify change g = extend (compare_modify change rules.existing) g
gather_one rules delete change g = extend (compare_delete change rules.deletion) g
gather_one rules create change g = record g { creates = change ∷ g.creates }

unfoldable pub gather : Rules → List ActualChange → Gathered
unfolding gather_one
gather rules [] = record { matches = []; violations = []; creates = [] }
gather rules (change ∷ changes) = gather_one rules change.change_kind change (gather rules changes)

unfoldable pub hash_le : ActualChange → ActualChange → Bool
hash_le a b = str_le a.actual_change_hash b.actual_change_hash

-- all matches and violations of a delta
unfoldable pub effects : Rules → List ActualChange → Result Error Outcome
unfolding gather sort_by hash_le compare_creations
effects rules changes = do
  let g = gather rules (sort_by hash_le changes)
  created ← compare_creations g.creates rules.creation
  ok (record {
    matches = g.matches ++ created.matches;
    violations = g.violations ++ created.violations;
  })

unfoldable pub scope_status : List ScopeViolation → ScopeStatus
scope_status violations = if is_empty violations then within_scope else scope_breach

-- `"0" * 64`
abbrev pub zeros64 : String
zeros64 = "0000000000000000000000000000000000000000000000000000000000000000"

module _ (canonical_hash : Json → String) where
  unfoldable pub with_comparison_hash : ScopeResult → ScopeResult
  unfolding compute_scope_comparison_hash
  with_comparison_hash draft = record draft {
    comparison_hash = compute_scope_comparison_hash canonical_hash draft;
  }

  -- _evaluate_scope_effects
  unfoldable pub evaluate_scope_effects :
      Boundary → String → String → List ActualChange → SliceScopeRule → Result Error ScopeResult
  unfolding rules_of effects scope_status with_comparison_hash sort_by match_le violation_le
  evaluate_scope_effects boundary slice_hash delta_hash changes scope = do
    rules ← rules_of boundary scope
    o ← effects rules changes
    ok (
        with_comparison_hash (record {
          status = scope_status o.violations;
          actual_delta_hash = delta_hash;
          approved_scope_hash = boundary.scope_hash;
          execution_slice_hash = slice_hash;
          matched_changes = sort_by match_le o.matches;
          violations = sort_by violation_le o.violations;
          comparison_hash = zeros64;
        }))
