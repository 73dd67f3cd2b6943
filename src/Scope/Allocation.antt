-- ===== src/Scope/Allocation.antt =====
-- scope_comparator.py: the allocation of created entities to creation rules under their counts.
use dsp.Prelude.{
  ℕ, suc, String, Option, none, some, List, [], ◌∷◌, ◌++◌, ◌&&◌, Bool, false, Result, ok, err,
  ◌>>=◌, ◌>>◌, if◌then◌else◌,
}
use dsp.Prelude.Tests.{leb}
use dsp.Prelude.Dict.{Dict, empty, update}
use dsp.Prelude.Sort.{sort_by, str_le, texts_le}
use dsp.Contracts.{Error, scope_comparison_invalid}
use dsp.Saga.Evidence.{ActualChange, HostEntityRef, ScopeMatch, ScopeViolation}
use dsp.Scope.Rules.{CreationRule}
use dsp.Scope.Compare.{
  Outcome, Candidates, candidates, forbidden, creation_candidates, scope_match, violation,
}

instance_key : Option String → Option HostEntityRef → Result Error (List String)
instance_key (some semantic_id) _ = ok ("SEMANTIC_ID" ∷ semantic_id ∷ [])
instance_key none (some ref) = ok ("HOST_ENTITY" ∷ ref.document_id ∷ ref.native_id ∷ [])
instance_key none none = err scope_comparison_invalid

-- _stable_instance_key
unfoldable pub stable_instance_key : ActualChange → Result Error (List String)
unfolding instance_key
stable_instance_key change = instance_key change.semantic_id change.host_entity_ref

abbrev or_nil : Result Error (List String) → List String
or_nil (ok key) = key
or_nil (err _) = []

-- the order of the keys `(_stable_instance_key(item), item.actual_change_hash)`; all keys exist
unfoldable pub change_le : ActualChange → ActualChange → Bool
unfolding stable_instance_key
change_le a b =
    let key_a = or_nil (stable_instance_key a) in
    let key_b = or_nil (stable_instance_key b) in
    if texts_le key_a key_b && texts_le key_b key_a
    then str_le a.actual_change_hash b.actual_change_hash
    else texts_le key_a key_b

-- the keys that `sorted` computes first
unfoldable pub check_keys : List ActualChange → Result Error (Unit {0})
unfolding stable_instance_key
check_keys [] = ok tt
check_keys (change ∷ changes) = do _ ← stable_instance_key change; check_keys changes

-- a created entity and the rules that admit it
pub record Entry : Type 0 where
  pub change : ActualChange
  pub rules : List CreationRule

unfoldable pub entry_le : Entry → Entry → Bool
unfolding change_le
entry_le a b = change_le a.change b.change

-- counts.get(rule_id, 0)
abbrev or_zero : Option ℕ → ℕ
or_zero none = 0
or_zero (some n) = n

unfoldable pub used : Dict ℕ → String → ℕ
used counts id = or_zero (counts id)

-- `rule.max_count is not None and used >= rule.max_count`
abbrev pub exhausted : Option ℕ → ℕ → Bool
exhausted none n = false
exhausted (some max) n = leb max n

abbrev pub or_else {ℓ} : {A : Type ℓ} → Option A → Option A → Option A
or_else (some a) _ = some a
or_else none o = o

-- the assignment with one more match, if the rest was found
abbrev pub assign {ℓ} : {A : Type ℓ} → A → Option (List A) → Option (List A)
assign m none = none
assign m (some ms) = some (m ∷ ms)

-- the loop over the candidates of a change; the counts of a failed attempt are dropped
unfoldable pub try_rules :
    (Dict ℕ → Option (List ScopeMatch))
    → ActualChange
    → List CreationRule
    → Dict ℕ
    → Option (List ScopeMatch)
unfolding used scope_match
try_rules next change [] counts = none
try_rules next change (rule ∷ rules) counts =
    let n = used counts rule.rule_id in
    let found =
      assign (scope_match change rule.rule_id) (next (update counts rule.rule_id (suc n))) in
    let others = try_rules next change rules counts in
    if exhausted rule.max_count n then others else or_else found others

-- `search`, by the entries that are left
unfoldable pub search : List Entry → Dict ℕ → Option (List ScopeMatch)
unfolding try_rules
search [] counts = some []
search (entry ∷ entries) counts = try_rules (search entries) entry.change entry.rules counts

-- _allocate_creations
unfoldable pub allocate_creations : List Entry → Option (List ScopeMatch)
unfolding search sort_by entry_le
allocate_creations entries = search (sort_by entry_le entries) empty

-- what the loop over the created entities has gathered
pub record Staging : Type 0 where
  pub staged : List Entry
  pub violations : List ScopeViolation

abbrev pub stage_one : ActualChange → Candidates → Staging → Staging
stage_one change (candidates rules) s = record s {
  staged = record { change = change; rules = rules } ∷ s.staged;
}
stage_one change (forbidden v) s = record s { violations = v ∷ s.violations }

unfoldable pub stage : List ActualChange → List CreationRule → Staging
unfolding creation_candidates
stage [] rules = record { staged = []; violations = [] }
stage (change ∷ changes) rules =
    stage_one change (creation_candidates change rules) (stage changes rules)

-- `min` of the staged changes by their key: the first of the least ones
unfoldable pub least : Entry → List Entry → Entry
unfolding entry_le
least e [] = e
least e (f ∷ fs) = least (if entry_le e f then e else f) fs

abbrev pub allocated : Entry → List Entry → List ScopeViolation → Option (List ScopeMatch) → Outcome
allocated e es violations (some found) = record { matches = found; violations = violations }
allocated e es violations none = record {
  matches = [];
  violations = violations ++ violation "CREATION_COUNT_EXCEEDED" (least e es).change ∷ [];
}

unfoldable pub allocate : List Entry → List ScopeViolation → Outcome
unfolding allocate_creations
allocate [] violations = record { matches = []; violations = violations }
allocate (e ∷ es) violations = allocated e es violations (allocate_creations (e ∷ es))

-- _compare_creations
unfoldable pub compare_creations : List ActualChange → List CreationRule → Result Error Outcome
unfolding check_keys stage sort_by change_le allocate
compare_creations changes rules = do
  check_keys changes
  let s = stage (sort_by change_le changes) rules
  ok (allocate s.staged s.violations)
