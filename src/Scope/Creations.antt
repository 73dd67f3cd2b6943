-- ===== src/Scope/Creations.antt =====
-- `_compare_creations` (scope_comparator.py) finds no violation just where the created entities can
-- be given creation rules that admit them, within the counts of the rules.
use dsp.Prelude.{
  ◌≡◌, refl, ap, sym, ◌∙◌, subst, some, List, [], ◌∷◌, ◌++◌, inl, inr, ◌↔◌, ◌==◌, ok, >>=-eq-ok,
  ok-injective,
}
use dsp.Prelude.Tests.{Option-cases}
use dsp.Prelude.Dict.{empty}
use dsp.Prelude.Sort.{sort_by}
use dsp.Saga.Evidence.{ActualChange, ScopeMatch, ScopeViolation}
use dsp.Scope.Rules.{CreationRule}
use dsp.Scope.Compare.{Outcome}
use dsp.Scope.Allocation.{
  Entry, entry_le, change_le, stage, check_keys, search, allocate, allocate_creations,
  compare_creations,
}
use dsp.Scope.Listing.{Among, Parallel, SameTally, Parallel-sort, sort-Parallel, sort-Among}
use dsp.Scope.Budget.{
  uses, IsAllowed, IsBounded, IsConsistent, Fits-IsBounded, IsBounded-Fits, empty-IsWithin,
  AllAmong, empty-uses,
}
use dsp.Scope.Search.{Offers, search-Fits, Fits-search}
use dsp.Scope.Candidates.{Admits, stage-Admits, Admits-stage, stage-Among}

-- each rule is chosen at most as often as it allows
abbrev pub IsCounted : List CreationRule → List CreationRule → Type 0
IsCounted rules picks =
    (r : CreationRule) → Among r rules → IsAllowed r.max_count (uses r.rule_id picks)

-- the entities can be given rules that admit them
abbrev pub CanCreate : List CreationRule → List ActualChange → Type 0
CanCreate rules changes =
    (picks : List CreationRule) × Parallel (Admits rules) changes picks × IsCounted rules picks

SameTally-IsCounted :
    (rules picks others : List CreationRule)
    → SameTally picks others
    → IsCounted rules picks
    → IsCounted rules others
SameTally-IsCounted rules picks others same h r m =
    subst (IsAllowed r.max_count) (same (λ s. s.rule_id == r.rule_id)) (h r m)

-- the entries offer rules of the list only
AreOffered : List CreationRule → List Entry → Type 0
AreOffered rules entries =
    (e : Entry) → Among e entries → (r : CreationRule) → Among r e.rules → Among r rules

Offers-AllAmong :
    (rules : List CreationRule) (entries : List Entry) (picks : List CreationRule)
    → AreOffered rules entries
    → Parallel Offers entries picks
    → AllAmong rules picks
unfolding AreOffered
Offers-AllAmong rules [] [] h a = tt
Offers-AllAmong rules [] (r ∷ rs) h a = absurd a
Offers-AllAmong rules (e ∷ es) [] h a = absurd a
Offers-AllAmong rules (e ∷ es) (r ∷ rs) h a =
    (h e (inl refl) r a.0, Offers-AllAmong rules es rs (λ f m. h f (inr m)) a.1)

module _ (rules : List CreationRule) (entries : List Entry)
    (offered : AreOffered rules entries) where
  sorted-AreOffered : AreOffered rules (sort_by entry_le entries)
  unfolding AreOffered
  sorted-AreOffered e m = offered e (sort-Among entry_le e entries m)

  -- an allocation that is found is a choice within the counts
  allocate-IsCounted :
      IsConsistent rules
      → (ms : List ScopeMatch) → allocate_creations entries ≡ some ms
      → (picks : List CreationRule) × Parallel Offers entries picks × IsCounted rules picks
  unfolding allocate_creations
  allocate-IsCounted same ms h =
      let sorted = sort_by entry_le entries in
      let (picks, chosen, fit, _) = search-Fits sorted empty ms h in
      let all = Offers-AllAmong rules sorted picks sorted-AreOffered chosen in
      let bounded = Fits-IsBounded rules same empty picks all (empty-IsWithin rules) fit in
      let (others, chosen', same') = sort-Parallel Offers entry_le entries picks chosen in
      (
        others,
        chosen',
        SameTally-IsCounted rules picks others (λ p. sym (same' p)) (counted picks bounded),
      )
    where
      counted : (picks : List CreationRule) → IsBounded rules empty picks → IsCounted rules picks
      counted picks b r m = subst (IsAllowed r.max_count) (empty-uses r.rule_id picks) (b r m)

  -- a choice within the counts is found
  IsCounted-allocate :
      (picks : List CreationRule)
      → Parallel Offers entries picks
      → IsCounted rules picks
      → (ms : List ScopeMatch) × (allocate_creations entries ≡ some ms)
  unfolding allocate_creations
  IsCounted-allocate picks chosen counted =
      let sorted = sort_by entry_le entries in
      let (others, chosen', same) = Parallel-sort Offers entry_le entries picks chosen in
      let all = Offers-AllAmong rules sorted others sorted-AreOffered chosen' in
      let fit =
        IsBounded-Fits rules empty others all
          (bounded others (SameTally-IsCounted rules picks others same counted)) in
      Fits-search sorted empty others chosen' fit
    where
      bounded : (picks : List CreationRule) → IsCounted rules picks → IsBounded rules empty picks
      bounded picks b r m = subst (IsAllowed r.max_count) (sym (empty-uses r.rule_id picks)) (b r m)

append_one_not_nil : {A : Type 0} {P : Type 0} (xs : List A) (y : A) → xs ++ (y ∷ []) ≡ [] → P
append_one_not_nil [] y h = cc
append_one_not_nil (x ∷ xs) y h = cc

allocate-quiet :
    (es : List Entry) (vs : List ScopeViolation)
    → (allocate es vs).violations ≡ []
    → (vs ≡ []) × ((ms : List ScopeMatch) × (allocate_creations es ≡ some ms))
unfolding allocate allocate_creations search sort_by
allocate-quiet [] vs h = (h, ([], refl))
allocate-quiet (e ∷ es) vs h = elim (Option-cases (allocate_creations (e ∷ es))) [
  | inl lost ↦ append_one_not_nil vs _ (rw lost at h)
  | inr (ms, run) ↦ (rw run at h, (ms, run))
]

quiet-allocate :
    (es : List Entry) (vs : List ScopeViolation) (ms : List ScopeMatch)
    → allocate_creations es ≡ some ms
    → (allocate es vs).violations ≡ vs
unfolding allocate
quiet-allocate [] vs ms h = refl
quiet-allocate (e ∷ es) vs ms h = rw h refl

-- A comparison of created entities reports no violation if and only if the entities can be given
-- creation rules that admit them, each rule at most as often as it allows, provided that rules of
-- one id have one count.
pub compare_creations-CanCreate :
    (changes : List ActualChange) (rules : List CreationRule) (o : Outcome)
    → IsConsistent rules
    → compare_creations changes rules ≡ ok o
    → (o.violations ≡ []) ↔ CanCreate rules changes
unfolding compare_creations AreOffered
compare_creations-CanCreate changes rules o same run = (forth, back)
  where
    sorted : List ActualChange
    sorted = sort_by change_le changes

    ran : allocate (stage sorted rules).staged (stage sorted rules).violations ≡ o
    ran = let (_, _, e) = >>=-eq-ok (check_keys changes) _ run in ok-injective _ o e

    forth : o.violations ≡ [] → CanCreate rules changes
    forth quiet =
        let s = stage sorted rules in
        let (q, (ms, found)) =
          allocate-quiet s.staged s.violations (ap (λ (x : Outcome). x.violations) ran ∙ quiet) in
        let (picks, chosen, counted) =
          allocate-IsCounted rules s.staged (stage-Among sorted rules) same ms found in
        let (others, admitted, same') =
          sort-Parallel (Admits rules) change_le changes picks
            (stage-Admits sorted rules picks q chosen) in
        (others, admitted, SameTally-IsCounted rules picks others (λ p. sym (same' p)) counted)

    back : CanCreate rules changes → o.violations ≡ []
    back (picks, admitted, counted) =
        let s = stage sorted rules in
        let (others, admitted', same') =
          Parallel-sort (Admits rules) change_le changes picks admitted in
        let (q, chosen) = Admits-stage sorted rules others admitted' in
        let (ms, found) =
          IsCounted-allocate rules s.staged (stage-Among sorted rules) others chosen
            (SameTally-IsCounted rules picks others same' counted) in
        ap (λ (x : Outcome). x.violations) (sym ran)
        ∙ quiet-allocate s.staged s.violations ms found
        ∙ q
