-- ===== src/Scope/Candidates.antt =====
-- What `_creation_candidates` offers for a created entity, and what the loop of `_compare_creations`
-- stages (scope_comparator.py).
use dsp.Prelude.{◌≡◌, refl, ap, subst, List, [], ◌∷◌, Bool, true, ◌⊎◌, inl, inr}
use dsp.Prelude.Tests.{Bool-cases}
use dsp.Prelude.Sort.{sort_by, str_le}
use dsp.Contracts.{is_empty}
use dsp.Saga.Evidence.{ActualChange, ScopeViolation}
use dsp.Scope.Rules.{CreationRule}
use dsp.Scope.Compare.{
  keep, operation_allowed, kind_allowed, source_allowed, derived_as_required, candidates, forbidden,
  creation_candidates, violation,
}
use dsp.Scope.Allocation.{Entry, stage}
use dsp.Scope.Listing.{Among, Parallel, Among-keep, keep-Among, Among-sort, sort-Among}
use dsp.Scope.Search.{Offers}

-- one of the creation rules admits the created entity
abbrev pub Admits : List CreationRule → ActualChange → CreationRule → Type 0
Admits rules change r =
    Among r rules
    × (operation_allowed change r ≡ true)
    × (kind_allowed change r ≡ true)
    × (source_allowed change r ≡ true)
    × (derived_as_required change r ≡ true)

rule_le : CreationRule → CreationRule → Bool
rule_le r s = str_le r.rule_id s.rule_id

keep_nothing : {A : Type 0} (p : A → Bool) (xs : List A) → is_empty xs ≡ true → keep p xs ≡ []
unfolding keep
keep_nothing p [] e = refl
keep_nothing p (x ∷ xs) e = cc

is_nothing : {A : Type 0} (xs : List A) → is_empty xs ≡ true → xs ≡ []
is_nothing [] e = refl
is_nothing (x ∷ xs) e = cc

cons_not_nil : {A : Type 0} {P : Type 0} {x : A} {xs : List A} → x ∷ xs ≡ [] → P
cons_not_nil h = cc

-- the four filters, one after the other
module _ (change : ActualChange) (rules : List CreationRule) where
  abbrev operations : List CreationRule
  operations = keep (operation_allowed change) rules

  abbrev kinds : List CreationRule
  kinds = keep (kind_allowed change) operations

  abbrev sources : List CreationRule
  sources = keep (source_allowed change) kinds

  abbrev admitted : List CreationRule
  admitted = keep (derived_as_required change) sources

  admitted-Admits : (r : CreationRule) → Among r admitted → Admits rules change r
  admitted-Admits r m =
      let (m₃, h₄) = keep-Among (derived_as_required change) r sources m in
      let (m₂, h₃) = keep-Among (source_allowed change) r kinds m₃ in
      let (m₁, h₂) = keep-Among (kind_allowed change) r operations m₂ in
      let (m₀, h₁) = keep-Among (operation_allowed change) r rules m₁ in (m₀, h₁, h₂, h₃, h₄)

  Admits-admitted : (r : CreationRule) → Admits rules change r → Among r admitted
  Admits-admitted r (m, h₁, h₂, h₃, h₄) =
      Among-keep (derived_as_required change) r sources
        (Among-keep (source_allowed change) r kinds
          (Among-keep (kind_allowed change) r operations
            (Among-keep (operation_allowed change) r rules m h₁) h₂)
          h₃)
        h₄

  -- a filter that leaves nothing leaves nothing to the next ones
  no_operations : is_empty operations ≡ true → admitted ≡ []
  unfolding keep
  no_operations e =
      ap
        (λ l.
          keep (derived_as_required change)
            (keep (source_allowed change) (keep (kind_allowed change) l)))
        (is_nothing operations e)

  no_kinds : is_empty kinds ≡ true → admitted ≡ []
  unfolding keep
  no_kinds e =
      ap (λ l. keep (derived_as_required change) (keep (source_allowed change) l))
        (is_nothing kinds e)

  no_sources : is_empty sources ≡ true → admitted ≡ []
  no_sources e = keep_nothing (derived_as_required change) sources e

  -- both results, by what the filters leave
  creation_candidates-cases :
      (creation_candidates change rules ≡ candidates (sort_by rule_le admitted))
      ⊎ ((v : ScopeViolation) × (creation_candidates change rules ≡ forbidden v) × (admitted ≡ []))
  unfolding creation_candidates rule_le
  creation_candidates-cases = elim (Bool-cases (is_empty operations)) [
    | inl n₁ ↦ inr (violation "CREATION_OPERATION_FORBIDDEN" change, rw n₁ refl, no_operations n₁)
    | inr s₁ ↦ elim (Bool-cases (is_empty kinds)) [
      | inl n₂ ↦ inr (violation "CREATION_KIND_FORBIDDEN" change, rw (s₁, n₂) refl, no_kinds n₂)
      | inr s₂ ↦ elim (Bool-cases (is_empty sources)) [
        | inl n₃ ↦
            inr (violation "CREATION_SOURCE_FORBIDDEN" change, rw (s₁, s₂, n₃) refl, no_sources n₃)
        | inr s₃ ↦ elim (Bool-cases (is_empty admitted)) [
          | inl n₄ ↦ inr (
            violation "CREATION_DERIVATION_MISMATCH" change,
            rw (s₁, s₂, s₃, n₄) refl,
            is_nothing admitted n₄,
          )
          | inr s₄ ↦ inl (rw (s₁, s₂, s₃, s₄) refl)
        ]
      ]
    ]
  ]

-- what is staged offers what is admitted, and nothing else
pub stage-Admits :
    (changes : List ActualChange) (rules : List CreationRule) (picks : List CreationRule)
    → (stage changes rules).violations ≡ []
    → Parallel Offers (stage changes rules).staged picks
    → Parallel (Admits rules) changes picks
unfolding stage rule_le
stage-Admits [] rules picks quiet a = a
stage-Admits (c ∷ cs) rules [] quiet a = elim (creation_candidates-cases c rules) [
  | inl offered ↦ absurd (rw offered at a)
  | inr (v, barred, _) ↦ cons_not_nil (rw barred at quiet)
]
stage-Admits (c ∷ cs) rules (r ∷ rs) quiet a = elim (creation_candidates-cases c rules) [
  | inl offered ↦
      let b = rw offered at a in
      let chosen = admitted-Admits c rules r (sort-Among rule_le r (admitted c rules) b.0) in
      (chosen, stage-Admits cs rules rs (rw offered at quiet) b.1)
  | inr (v, barred, _) ↦ cons_not_nil (rw barred at quiet)
]

pub Admits-stage :
    (changes : List ActualChange) (rules : List CreationRule) (picks : List CreationRule)
    → Parallel (Admits rules) changes picks
    → ((stage changes rules).violations ≡ []) × Parallel Offers (stage changes rules).staged picks
unfolding stage rule_le
Admits-stage [] rules picks a = (refl, a)
Admits-stage (c ∷ cs) rules [] a = absurd a
Admits-stage (c ∷ cs) rules (r ∷ rs) a = elim (creation_candidates-cases c rules) [
  | inl offered ↦
      let (quiet, b) = Admits-stage cs rules rs a.1 in
      rw offered
        (quiet, (Among-sort rule_le r (admitted c rules) (Admits-admitted c rules r a.0), b))
  | inr (v, barred, nothing) ↦
      absurd (subst (λ l. Among r l) nothing (Admits-admitted c rules r a.0))
]

-- each candidate is one of the rules
pub stage-Among :
    (changes : List ActualChange) (rules : List CreationRule) (e : Entry)
    → Among e (stage changes rules).staged
    → (r : CreationRule) → Among r e.rules
    → Among r rules
unfolding stage rule_le
stage-Among [] rules e m r n = absurd m
stage-Among (c ∷ cs) rules e m r n = elim (creation_candidates-cases c rules) [
  | inl offered ↦ elim (rw offered at m) [
    | inl same ↦ first same
    | inr later ↦ stage-Among cs rules e later r n
  ]
  | inr (v, barred, _) ↦ stage-Among cs rules e (rw barred at m) r n
]
  where
    first : e ≡ record { change = c; rules = sort_by rule_le (admitted c rules) } → Among r rules
    first same =
        (admitted-Admits c rules r (
          sort-Among rule_le r (admitted c rules)
            (subst (λ l. Among r l) (ap (λ (x : Entry). x.rules) same) n))).0
