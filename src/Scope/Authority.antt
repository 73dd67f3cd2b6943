-- ===== src/Scope/Authority.antt =====
-- What a comparison that returns has decided (compare_scope of v2.py and `_evaluate_scope_effects` of
-- scope_comparator.py).
use dsp.Prelude.{
  ◌≡◌, refl, ap, sym, ◌∙◌, subst, String, Option, none, some, List, [], ◌∷◌, inl, inr, ◌↔◌, ◌==◌,
  eq_iff, Result, ok, >>=-eq-ok, guard_then, ok-injective,
}
use dsp.Prelude.Tests.{Bool-cases, is_none}
use dsp.Prelude.Dict.{Dict, update, empty}
use dsp.Prelude.Json.{Json}
use dsp.Prelude.Sort.{sort_by, str_le}
use dsp.Contracts.{Error}
use dsp.Saga.Evidence.{ScopeResult, within_scope, ScopeViolation}
use dsp.Scope.Rules.{Boundary, SliceScopeRule, CreationRule, ExistingEntityRule, DeletionRule}
use dsp.Scope.Evaluate.{
  Rules, rule_index, look_up, authorized_rules, rules_of, effects, scope_status, found,
  with_comparison_hash, evaluate_scope_effects,
}
use dsp.Scope.Local.{LocalRequest, validate_local_lineage, resolve_slice_scope, compare_scope}
use dsp.Scope.Listing.{Among}
use dsp.Scope.Budget.{IsConsistent}
use dsp.Scope.Licences.{IsAuthorised, effects-IsAuthorised}

module _ {R : Type 0} (id : R → String) where
  -- each rule of the index stands under its own id
  IsKeyed : Dict R → Type 0
  IsKeyed index = (k : String) (r : R) → index k ≡ some r → id r ≡ k

  update-IsKeyed : (index : Dict R) (r : R) → IsKeyed index → IsKeyed (update index (id r) r)
  unfolding IsKeyed
  update-IsKeyed index r h k s e = elim (Bool-cases (id r == k)) [
    | inl t ↦
        let same : some r ≡ some s = rw t at e in
        let same' : r ≡ s = cc in ap id (sym same') ∙ (eq_iff (id r) k).0 t
    | inr t ↦ h k s (rw t at e)
  ]

  rule_index-IsKeyed :
      (index : Dict R) (rules : List R) (out : Dict R)
      → rule_index id index rules ≡ ok out
      → IsKeyed index
      → IsKeyed out
  unfolding rule_index
  rule_index-IsKeyed index [] out run h = subst IsKeyed (ok-injective index out run) h
  rule_index-IsKeyed index (r ∷ rs) out run h =
      let (_, later) = guard_then (is_none (index (id r))) _ _ run in
      rule_index-IsKeyed (update index (id r) r) rs out later (update-IsKeyed index r h)

  found-eq-ok : (o : Option R) (r : R) → found o ≡ ok r → o ≡ some r
  found-eq-ok none r h = cc
  found-eq-ok (some s) r h = ap some (ok-injective s r h)

  look_up-Among :
      (ids : List String) (index : Dict R) (rules : List R) (r : R)
      → look_up ids index ≡ ok rules
      → Among r rules
      → (k : String) × (index k ≡ some r)
  unfolding look_up
  look_up-Among [] index rules r run m =
      absurd (subst (Among r) (sym (ok-injective [] rules run)) m)
  look_up-Among (k ∷ ks) index rules r run m =
      let (s, e, run₁) = >>=-eq-ok (found (index k)) _ run in
      let (ss, e', run₂) = >>=-eq-ok (look_up ks index) _ run₁ in
      elim (subst (Among r) (sym (ok-injective (s ∷ ss) rules run₂)) m) [
        | inl same ↦ (k, found-eq-ok (index k) s e ∙ ap some (sym same))
        | inr later ↦ look_up-Among ks index ss r e' later
      ]

  -- two rules of a Slice that have one id are the same
  pub authorized_rules_unique :
      (ids : List String) (all index_out : List R) (index : Dict R)
      → rule_index id empty all ≡ ok index
      → authorized_rules ids index ≡ ok index_out
      → (r s : R) → Among r index_out
      → Among s index_out
      → id r ≡ id s
      → r ≡ s
  unfolding authorized_rules IsKeyed
  authorized_rules_unique ids all rules index indexed run r s m n e =
      let keyed = rule_index-IsKeyed empty all index indexed (λ k t h. cc) in
      let (k, at_k) = look_up-Among (sort_by str_le ids) index rules r run m in
      let (j, at_j) = look_up-Among (sort_by str_le ids) index rules s run n in
      let same : k ≡ j = sym (keyed k r at_k) ∙ e ∙ keyed j s at_j in
      let both : some r ≡ some s = sym at_k ∙ ap index same ∙ at_j in cc

rules_of-IsConsistent :
    (boundary : Boundary) (scope : SliceScopeRule) (rules : Rules)
    → rules_of boundary scope ≡ ok rules
    → IsConsistent rules.creation
unfolding rules_of
rules_of-IsConsistent boundary scope rules run r s m n e =
    let (_, _, run₁) =
      >>=-eq-ok
        (rule_index (λ (x : ExistingEntityRule). x.rule_id) empty boundary.existing_entity_rules) _
        run in
    let (_, _, run₂) = >>=-eq-ok (authorized_rules scope.existing_rule_ids _) _ run₁ in
    let (index, indexed, run₃) =
      >>=-eq-ok (rule_index (λ (x : CreationRule). x.rule_id) empty boundary.creation_rules) _
        run₂ in
    let (creation, taken, run₄) =
      >>=-eq-ok (authorized_rules scope.creation_rule_ids index) _ run₃ in
    let (_, _, run₅) =
      >>=-eq-ok (rule_index (λ (x : DeletionRule). x.rule_id) empty boundary.deletion_rules) _
        run₄ in
    let (_, _, run₆) = >>=-eq-ok (authorized_rules scope.deletion_rule_ids _) _ run₅ in
    let own : creation ≡ rules.creation =
      ap (λ (x : Rules). x.creation) (ok-injective _ rules run₆) in
    ap (λ (x : CreationRule). x.max_count)
      (authorized_rules_unique (λ (x : CreationRule). x.rule_id) scope.creation_rule_ids
        boundary.creation_rules creation index indexed taken r s (subst (Among r) (sym own) m)
        (subst (Among s) (sym own) n) e)

scope_status-quiet : (vs : List ScopeViolation) → (scope_status vs ≡ within_scope) ↔ (vs ≡ [])
unfolding scope_status
scope_status-quiet [] = (λ h. refl, λ h. refl)
scope_status-quiet (v ∷ vs) = (λ h. cc, λ h. cc)

-- A scope comparison that returns has resolved the scope rule of the Slice and its rules, and reports
-- WITHIN_SCOPE if and only if every change of the delta has a licence under these rules: a changed
-- entity is selected by an existing-entity rule and each changed aspect is allowed by one that
-- selects it, a deleted one is selected by a deletion rule, and the created ones can be given
-- creation rules that admit them, each rule at most as often as it allows.
pub compare_scope-IsAuthorised :
    (canonical_hash : Json → String) (owner_truth : String → Boundary → Result Error (Unit {0}))
    (request : LocalRequest) (result : ScopeResult)
    → compare_scope canonical_hash owner_truth request ≡ ok result
    → (scope : SliceScopeRule) × (rules : Rules) × (resolve_slice_scope request.boundary
          request.execution_slice
        ≡ ok scope)
      × (rules_of request.boundary scope ≡ ok rules)
      × ((result.status ≡ within_scope) ↔ IsAuthorised rules request.actual_delta.changes)
unfolding compare_scope evaluate_scope_effects with_comparison_hash
compare_scope-IsAuthorised canonical_hash owner_truth request result run =
    let (_, _, run₁) =
      >>=-eq-ok (validate_local_lineage canonical_hash owner_truth request) _ run in
    let (scope, resolved, run₂) =
      >>=-eq-ok (resolve_slice_scope request.boundary request.execution_slice) _ run₁ in
    let (rules, authorised, run₃) = >>=-eq-ok (rules_of request.boundary scope) _ run₂ in
    let (o, compared, run₄) = >>=-eq-ok (effects rules request.actual_delta.changes) _ run₃ in
    let decided : scope_status o.violations ≡ result.status =
      ap (λ (x : ScopeResult). x.status) (ok-injective _ result run₄) in
    let licences =
      effects-IsAuthorised rules request.actual_delta.changes o
        (rules_of-IsConsistent request.boundary scope rules authorised) compared in
    (
      scope,
      rules,
      resolved,
      authorised,
      (
        λ h. licences.0 ((scope_status-quiet o.violations).0 (decided ∙ h)),
        λ h. sym decided ∙ (scope_status-quiet o.violations).1 (licences.1 h),
      ),
    )
