-- ===== src/Coordination/Bindings.antt =====
-- validate_cross_materialization_identity of platform/provider_binding, v2.py.
use dsp.Prelude.{String, List, ◌&&◌, ◌==◌, Bool, all, elem, map, ◌>>=◌, ◌>>◌, guard}
use dsp.Coordination.Effects.{materialization_binding_mismatch}
use dsp.Coordination.Inputs.{
  MaterializationPlan, MaterializationIntent, ProviderBinding, BindingSet,
}
use dsp.Coordination.Indexes.{Check, index_by, found, covers, check_each}

abbrev pub intent_ids : MaterializationPlan → List String
intent_ids plan = map (λ (i : MaterializationIntent). i.materialization_id) plan.intents

-- a binding of a set, against the intent of its materialization
unfoldable pub binding_fits : MaterializationPlan → MaterializationIntent → ProviderBinding → Bool
binding_fits plan intent b =
    b.materialization_id == intent.materialization_id
    && b.materialization_plan_hash == plan.materialization_plan_hash
    && all (λ n. elem n intent.semantic_targets) b.native_semantic_ids
    && all (λ t. elem t b.native_semantic_ids) intent.semantic_targets

unfoldable pub check_bindings : MaterializationPlan → BindingSet → Check
unfolding index_by check_each binding_fits
check_bindings plan set = do
  intent ← found (
      index_by (λ (i : MaterializationIntent). i.materialization_id) plan.intents
        set.materialization_id)
  check_each (λ b. guard (binding_fits plan intent b) materialization_binding_mismatch) set.bindings

unfoldable pub validate_cross_materialization_identity :
    MaterializationPlan → List BindingSet → Check
unfolding covers check_each check_bindings
validate_cross_materialization_identity plan sets = do
  guard
      (covers (map (λ (s : BindingSet). s.materialization_id) sets) (intent_ids plan)
        && all (λ (s : BindingSet). s.materialization_plan_hash == plan.materialization_plan_hash)
            sets)
      materialization_binding_mismatch
  check_each (check_bindings plan) sets
