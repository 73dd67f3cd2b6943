-- ===== src/Scope/Search.antt =====
-- The backtracking search of `_allocate_creations` (scope_comparator.py) is sound and complete.
use dsp.Prelude.{ℕ, ◌≡◌, refl, ap, ◌∙◌, Option, some, List, [], ◌∷◌, false, inl, inr}
use dsp.Prelude.Tests.{Bool-cases, Option-cases}
use dsp.Prelude.Dict.{Dict}
use dsp.Saga.Evidence.{ActualChange, ScopeMatch}
use dsp.Scope.Rules.{CreationRule}
use dsp.Scope.Compare.{scope_match}
use dsp.Scope.Allocation.{Entry, used, exhausted, try_rules, search}
use dsp.Scope.Listing.{Among, Parallel}
use dsp.Scope.Budget.{Fits, charged}

-- the rule is a candidate of the entry
abbrev pub Offers : Entry → CreationRule → Type 0
Offers e r = Among r e.rules

-- the matches that a choice of rules stands for
abbrev pub matches_of : List Entry → List CreationRule → List ScopeMatch
unfolding scope_match
matches_of (e ∷ es) (r ∷ rs) = scope_match e.change r.rule_id ∷ matches_of es rs
matches_of _ _ = []

module _ (next : Dict ℕ → Option (List ScopeMatch)) (change : ActualChange) where
  -- a match was found by one of the candidates, which was not exhausted
  Tried : List CreationRule → Dict ℕ → List ScopeMatch → Type 0
  Tried rules counts ms =
      (r : CreationRule) × Among r rules
      × (exhausted r.max_count (used counts r.rule_id) ≡ false)
      × (rest : List ScopeMatch) × (next (charged counts r) ≡ some rest)
      × (ms ≡ scope_match change r.rule_id ∷ rest)

  further :
      (r : CreationRule) (rs : List CreationRule) (counts : Dict ℕ) (ms : List ScopeMatch)
      → Tried rs counts ms
      → Tried (r ∷ rs) counts ms
  unfolding Tried
  further r rs counts ms (s, m, free, rest, run, e) = (s, inr m, free, rest, run, e)

  try-Tried :
      (rules : List CreationRule) (counts : Dict ℕ) (ms : List ScopeMatch)
      → try_rules next change rules counts ≡ some ms
      → Tried rules counts ms
  unfolding try_rules Tried
  try-Tried [] counts ms h = cc
  try-Tried (r ∷ rs) counts ms h =
      elim (Bool-cases (exhausted r.max_count (used counts r.rule_id))) [
        | inl full ↦ further r rs counts ms (try-Tried rs counts ms (rw full at h))
        | inr free ↦ elim (Option-cases (next (charged counts r))) [
          | inl lost ↦ further r rs counts ms (try-Tried rs counts ms (rw lost at rw free at h))
          | inr (rest, run) ↦ let h' = rw run at rw free at h in (r, inl refl, free, rest, run, cc)
        ]
      ]

  Tried-try :
      (rules : List CreationRule) (counts : Dict ℕ) (r : CreationRule) (rest : List ScopeMatch)
      → Among r rules
      → exhausted r.max_count (used counts r.rule_id) ≡ false
      → next (charged counts r) ≡ some rest
      → (ms : List ScopeMatch) × (try_rules next change rules counts ≡ some ms)
  unfolding try_rules
  Tried-try [] counts r rest m free run = absurd m
  Tried-try (s ∷ ss) counts r rest (inl e) free run =
      (scope_match change r.rule_id ∷ rest, rw (← e) (rw free (rw run refl)))
  Tried-try (s ∷ ss) counts r rest (inr m) free run =
      let (ms, h) = Tried-try ss counts r rest m free run in
      elim (Bool-cases (exhausted s.max_count (used counts s.rule_id))) [
        | inl full ↦ (ms, rw full h)
        | inr free_too ↦ elim (Option-cases (next (charged counts s))) [
          | inl lost ↦ (ms, rw free_too (rw lost h))
          | inr (rest', run') ↦ (scope_match change s.rule_id ∷ rest', rw free_too (rw run' refl))
        ]
      ]

pub search-Fits :
    (entries : List Entry) (counts : Dict ℕ) (ms : List ScopeMatch)
    → search entries counts ≡ some ms
    → (picks : List CreationRule) × Parallel Offers entries picks
      × Fits counts picks
      × (ms ≡ matches_of entries picks)
unfolding search Tried
search-Fits [] counts ms h = ([], tt, tt, cc)
search-Fits (e ∷ es) counts ms h =
    let (r, m, free, rest, run, e₁) = try-Tried (search es) e.change e.rules counts ms h in
    let (picks, chosen, fit, e₂) = search-Fits es (charged counts r) rest run in
    (r ∷ picks, (m, chosen), (free, fit), e₁ ∙ ap (λ l. scope_match e.change r.rule_id ∷ l) e₂)

pub Fits-search :
    (entries : List Entry) (counts : Dict ℕ) (picks : List CreationRule)
    → Parallel Offers entries picks
    → Fits counts picks
    → (ms : List ScopeMatch) × (search entries counts ≡ some ms)
unfolding search
Fits-search [] counts [] a f = ([], refl)
Fits-search [] counts (r ∷ rs) a f = absurd a
Fits-search (e ∷ es) counts [] a f = absurd a
Fits-search (e ∷ es) counts (r ∷ rs) a f =
    let (rest, run) = Fits-search es (charged counts r) rs a.1 f.1 in
    Tried-try (search es) e.change e.rules counts r rest a.0 f.0 run
