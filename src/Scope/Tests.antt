-- ===== src/Scope/Tests.antt =====
-- Runs of the scope comparator, and its theorems at concrete inputs.
use dsp.Prelude.{String, ◌≡◌, refl, none, some, List, [], ◌∷◌, Result, ok, ◌↔◌}
use dsp.Prelude.Json.{Json}
use dsp.Contracts.{Error}
use dsp.Saga.Evidence.{
  ActualChange, ActualDelta, Authority, ScopeResult, create, modify, properties, within_scope,
  scope_breach,
}
use dsp.Scope.Rules.{
  Boundary, SliceScopeRule, CreationRule, ExistingEntityRule, EntitySelector, canonical_kind,
  equal_to,
}
use dsp.Scope.Compare.{violation}
use dsp.Scope.Allocation.{least}
use dsp.Scope.Evaluate.{Rules, rules_of, evaluate_scope_effects, zeros64}
use dsp.Scope.Local.{
  ExecutionSlice, LocalRequest, HostRuntimeRef, ApprovedScopeRef, resolve_slice_scope,
  validate_local_lineage, compare_scope,
}
use dsp.Scope.Licences.{IsAuthorised}
use dsp.Scope.Authority.{compare_scope-IsAuthorised}

-- every content hash is the same text here
abbrev flat_hash : Json → String
flat_hash _ = zeros64

abbrev trusted : String → Boundary → Result Error (Unit {0})
trusted _ _ = ok tt

abbrev wall_selector : EntitySelector
wall_selector = record { entities = "wall-1" ∷ []; predicate = none }

abbrev any_wall : EntitySelector
any_wall = record {
  entities = [];
  predicate = some (record {
    all_of = record { on = canonical_kind; operator = equal_to; values = "wall" ∷ [] } ∷ [];
  });
}

abbrev paint : ExistingEntityRule
paint = record { rule_id = "R1"; selector = wall_selector; allowed_aspects = properties ∷ [] }

abbrev doors : CreationRule
doors = record {
  rule_id = "C2";
  canonical_operation = "door.insert";
  source_selector = any_wall;
  entity_kinds = "door" ∷ [];
  max_count = some 1;
  required_derivation = none;
}

-- admits more than `doors` does
abbrev openings : CreationRule
openings = record {
  rule_id = "C1";
  canonical_operation = "door.insert";
  source_selector = any_wall;
  entity_kinds = "door" ∷ "hatch" ∷ [];
  max_count = some 1;
  required_derivation = none;
}

abbrev slice_scope : SliceScopeRule
slice_scope = record {
  slice_scope_rule_id = "S1";
  document_ref = "doc";
  existing_rule_ids = "R1" ∷ [];
  creation_rule_ids = "C1" ∷ "C2" ∷ [];
  deletion_rule_ids = [];
}

abbrev boundary : Boundary
boundary = record {
  changeset_hash = "cs";
  scope_hash = "scope";
  existing_entity_rules = paint ∷ [];
  creation_rules = openings ∷ doors ∷ [];
  deletion_rules = [];
  execution_slice_scopes = slice_scope ∷ [];
}

abbrev host : HostRuntimeRef
host = record { host_type = "REVIT"; host_instance_id = "host"; document_ref = "doc" }

abbrev scope_ref : ApprovedScopeRef
scope_ref = record { scope_id = "AS-1"; scope_hash = "scope"; execution_slice_scope_rule_id = "S1" }

abbrev slice : ExecutionSlice
slice = record {
  execution_slice_id = "ES-1";
  changeset_id = "CS-1";
  changeset_hash = "cs";
  materialization_id = "M1";
  materialization_plan_hash = "plan";
  materialization_slot_id = "slot";
  host_runtime_ref = host;
  approved_scope_ref = scope_ref;
  execution_unit_hashes = "unit" ∷ [];
  execution_slice_hash = "slice";
}

abbrev authority : Authority
authority = record {
  approval_hash = "approval";
  grant_hash = "grant";
  changeset_hash = "cs";
  approved_scope_hash = "scope";
  materialization_plan_hash = "plan";
  materialization_id = "M1";
  execution_slice_hash = "slice";
  binding_set_hash = "binding";
  host_instance_id = "host";
  admitted_at = "2026-01-01T00:00:00Z";
}

abbrev painted : ActualChange
painted = record {
  change_kind = modify;
  actual_change_hash = zeros64;
  semantic_id = some "wall-1";
  canonical_kind = some "wall";
  changed_aspects = properties ∷ [];
  canonical_operation = none;
  source_execution_unit_hash = some "unit";
  source_semantic_id = none;
  source_canonical_kind = none;
  derivation_rule = none;
  host_entity_ref = none;
}

-- a created entity of a kind
abbrev created : String → String → ActualChange
created id kind = record {
  change_kind = create;
  actual_change_hash = zeros64;
  semantic_id = some id;
  canonical_kind = some kind;
  changed_aspects = [];
  canonical_operation = some "door.insert";
  source_execution_unit_hash = none;
  source_semantic_id = some "wall-1";
  source_canonical_kind = some "wall";
  derivation_rule = none;
  host_entity_ref = none;
}

abbrev delta : List ActualChange → ActualDelta
delta changes = record {
  actual_delta_id = "AD-1";
  grant_hash = "grant";
  binding_set_hash = "binding";
  execution_slice_hash = "slice";
  changeset_hash = "cs";
  approved_scope_hash = "scope";
  host_instance_id = "host";
  document_ref = "doc";
  revision_before = 1;
  revision_after = 2;
  changes = changes;
  actual_delta_hash = zeros64;
}

abbrev request : List ActualChange → LocalRequest
request changes = record {
  changeset_hash = "cs";
  boundary = boundary;
  execution_slice = slice;
  authority = authority;
  actual_delta = delta changes;
}

-- `door-a`, which comes first, could take either rule; `hatch-b` needs the first of them, so that the
-- search goes back on its first attempt
abbrev two_created : List ActualChange
two_created = created "hatch-b" "hatch" ∷ created "door-a" "door" ∷ painted ∷ []

abbrev within : ScopeResult
within = record {
  status = within_scope;
  actual_delta_hash = zeros64;
  approved_scope_hash = "scope";
  execution_slice_hash = "slice";
  matched_changes =
      record { actual_change_hash = zeros64; rule_id = "C1" }
      ∷ record { actual_change_hash = zeros64; rule_id = "C2" }
      ∷ record { actual_change_hash = zeros64; rule_id = "R1" }
      ∷ [];
  violations = [];
  comparison_hash = zeros64;
}

two_created_run : compare_scope flat_hash trusted (request two_created) ≡ ok within
unfolding compare_scope validate_local_lineage resolve_slice_scope evaluate_scope_effects
two_created_run = refl

-- a third entity exceeds the counts
abbrev three_created : List ActualChange
three_created = created "door-c" "door" ∷ two_created

three_created_run :
    compare_scope flat_hash trusted (request three_created)
    ≡ ok (record within {
      status = scope_breach;
      matched_changes = record { actual_change_hash = zeros64; rule_id = "R1" } ∷ [];
      violations = violation "CREATION_COUNT_EXCEEDED" (created "door-a" "door") ∷ [];
    })
unfolding compare_scope validate_local_lineage resolve_slice_scope evaluate_scope_effects violation
    least
three_created_run = refl

abbrev rules : Rules
rules = record { existing = paint ∷ []; creation = openings ∷ doors ∷ []; deletion = [] }

compare_scope-IsAuthorised_example :
    (scope : SliceScopeRule) × (found_rules : Rules) × (resolve_slice_scope boundary slice
      ≡ ok scope)
    × (rules_of boundary scope ≡ ok found_rules)
    × ((within.status ≡ within_scope) ↔ IsAuthorised found_rules two_created)
compare_scope-IsAuthorised_example =
    compare_scope-IsAuthorised flat_hash trusted (request two_created) within two_created_run
