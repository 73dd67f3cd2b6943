-- ===== src/Scope/Budget.antt =====
-- The counts of creation rules, as the backtracking of `_allocate_creations` keeps them
-- (scope_comparator.py) and as totals over a whole choice of rules.
use dsp.Prelude.{
  ℕ, suc, ◌+◌, ◌≤◌, ◌≡◌, refl, subst, String, Option, none, some, List, [], ◌∷◌, false, ◌==◌, ◌⊎◌,
  inl, inr, arith, tally, tally_yes, tally_no, eq_iff, eq_refl,
}
use dsp.Prelude.Tests.{Bool-cases}
use dsp.Prelude.Dict.{Dict, update, empty}
use dsp.Scope.Rules.{CreationRule}
use dsp.Scope.Allocation.{used, exhausted}
use dsp.Scope.Listing.{Among}

-- how often a rule of this id is chosen
abbrev pub uses : String → List CreationRule → ℕ
uses id picks = tally (λ (r : CreationRule). r.rule_id == id) picks

abbrev pub IsAllowed : Option ℕ → ℕ → Type 0
IsAllowed none n = Unit
IsAllowed (some max) n = n ≤ max

abbrev pub charged : Dict ℕ → CreationRule → Dict ℕ
unfolding used
charged counts r = update counts r.rule_id (suc (used counts r.rule_id))

-- each choice finds its rule not exhausted
abbrev pub Fits : Dict ℕ → List CreationRule → Type 0
Fits counts [] = Unit
Fits counts (r ∷ rs) =
    (exhausted r.max_count (used counts r.rule_id) ≡ false) × Fits (charged counts r) rs

-- no rule is chosen more often than it allows, what has been counted before included
abbrev pub IsBounded : List CreationRule → Dict ℕ → List CreationRule → Type 0
IsBounded rules counts picks =
    (r : CreationRule)
    → Among r rules
    → IsAllowed r.max_count (used counts r.rule_id + uses r.rule_id picks)

-- rules of one id have one count
abbrev pub IsConsistent : List CreationRule → Type 0
IsConsistent rules =
    (r s : CreationRule)
    → Among r rules
    → Among s rules
    → r.rule_id ≡ s.rule_id
    → r.max_count ≡ s.max_count

abbrev pub AllAmong : List CreationRule → List CreationRule → Type 0
AllAmong rules [] = Unit
AllAmong rules (r ∷ rs) = Among r rules × AllAmong rules rs

uses-cons :
    (id : String) (r : CreationRule) (rs : List CreationRule)
    → ((r.rule_id ≡ id) × (uses id (r ∷ rs) ≡ suc (uses id rs)))
      ⊎ ((r.rule_id == id ≡ false) × (uses id (r ∷ rs) ≡ uses id rs))
uses-cons id r rs = elim (Bool-cases (r.rule_id == id)) [
  | inl t ↦ inl ((eq_iff r.rule_id id).0 t, tally_yes _ r rs t)
  | inr t ↦ inr (t, tally_no _ r rs t)
]

used-charged :
    (counts : Dict ℕ) (r : CreationRule) (id : String)
    → r.rule_id == id ≡ false
    → used (charged counts r) id ≡ used counts id
unfolding used
used-charged counts r id t = rw t refl

used-charged_self :
    (counts : Dict ℕ) (r : CreationRule) (id : String)
    → r.rule_id ≡ id
    → used (charged counts r) id ≡ suc (used counts id)
unfolding used
used-charged_self counts r id e = rw (← e) (rw (eq_refl r.rule_id) refl)

charged-uses :
    (counts : Dict ℕ) (r : CreationRule) (rs : List CreationRule) (id : String)
    → used (charged counts r) id + uses id rs ≡ used counts id + uses id (r ∷ rs)
charged-uses counts r rs id = elim (uses-cons id r rs) [
  | inl (e, more) ↦ rw (used-charged_self counts r id e, more) (omega arith)
  | inr (other, same) ↦ rw (used-charged counts r id other, same) refl
]

uses_self :
    (r : CreationRule) (rs : List CreationRule) → uses r.rule_id (r ∷ rs) ≡ suc (uses r.rule_id rs)
uses_self r rs = tally_yes _ r rs (eq_refl r.rule_id)

allowed_more : (max : Option ℕ) (n k : ℕ) → IsAllowed max (n + suc k) → exhausted max n ≡ false
allowed_more none n k h = refl
allowed_more (some m) n k h = ground arith

not_exhausted : (max : Option ℕ) (n : ℕ) → exhausted max n ≡ false → IsAllowed max (suc n)
not_exhausted none n h = tt
not_exhausted (some m) n h = ground arith

pub empty-uses :
    (id : String) (picks : List CreationRule) → used empty id + uses id picks ≡ uses id picks
unfolding used
empty-uses id picks = omega arith

module _ (rules : List CreationRule) where
  -- totals within their bounds never exhaust a rule on the way
  pub IsBounded-Fits :
      (counts : Dict ℕ) (picks : List CreationRule)
      → AllAmong rules picks
      → IsBounded rules counts picks
      → Fits counts picks
  IsBounded-Fits counts [] a b = tt
  IsBounded-Fits counts (r ∷ rs) a b = (open_yet, IsBounded-Fits (charged counts r) rs a.1 later)
    where
      open_yet : exhausted r.max_count (used counts r.rule_id) ≡ false
      open_yet = allowed_more r.max_count (used counts r.rule_id) (uses r.rule_id rs) (
          subst (λ n. IsAllowed r.max_count (used counts r.rule_id + n)) (uses_self r rs) (b r a.0))

      later : IsBounded rules (charged counts r) rs
      later s m = rw (charged-uses counts r rs s.rule_id) (b s m)

  -- the bounds hold before any further choice
  abbrev IsWithin : Dict ℕ → Type 0
  IsWithin counts =
      (r : CreationRule) → Among r rules → IsAllowed r.max_count (used counts r.rule_id)

  charged-IsWithin :
      IsConsistent rules
      → (counts : Dict ℕ) (r : CreationRule) → Among r rules
      → exhausted r.max_count (used counts r.rule_id) ≡ false
      → IsWithin counts
      → IsWithin (charged counts r)
  unfolding used
  charged-IsWithin same counts r m h w s n = elim (Bool-cases (r.rule_id == s.rule_id)) [
    | inl t ↦ rw t (
        rw (← same r s m n ((eq_iff r.rule_id s.rule_id).0 t))
          (not_exhausted r.max_count (used counts r.rule_id) h))
    | inr t ↦ rw t (w s n)
  ]

  pub Fits-IsBounded :
      IsConsistent rules
      → (counts : Dict ℕ) (picks : List CreationRule) → AllAmong rules picks
      → IsWithin counts
      → Fits counts picks
      → IsBounded rules counts picks
  Fits-IsBounded same counts [] a w f s m =
      let e : used counts s.rule_id + 0 ≡ used counts s.rule_id = omega arith in rw e (w s m)
  Fits-IsBounded same counts (r ∷ rs) a w f s m = rw (← charged-uses counts r rs s.rule_id) (
      Fits-IsBounded same (charged counts r) rs a.1 (charged-IsWithin same counts r a.0 f.0 w) f.1 s
        m)

  pub empty-IsWithin : IsWithin empty
  unfolding used
  empty-IsWithin r m = nothing r.max_count
    where
      nothing : (max : Option ℕ) → IsAllowed max 0
      nothing none = tt
      nothing (some n) = omega arith
