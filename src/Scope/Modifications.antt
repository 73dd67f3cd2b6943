-- ===== src/Scope/Modifications.antt =====
-- `_compare_modify` and `_compare_delete` (scope_comparator.py) find no violation just where the
-- rules cover the change.
use dsp.Prelude.{
  ◌≡◌, refl, ap, sym, ◌∙◌, List, [], ◌∷◌, ◌++◌, Bool, true, ◌||◌, inl, inr, ◌↔◌, arith, All, all,
}
use dsp.Prelude.Tests.{Bool-cases}
use dsp.Contracts.{is_empty}
use dsp.Saga.Evidence.{ActualChange, CanonicalAspect}
use dsp.Scope.Rules.{ExistingEntityRule, DeletionRule, has_aspect}
use dsp.Scope.Compare.{keep, selects, aspects_of, compare_modify, compare_delete}
use dsp.Scope.Listing.{Among, Among-keep, keep-Among, Among-full, full-Among}

-- a rule that selects the entity allows the aspect
abbrev pub Allows : ActualChange → List ExistingEntityRule → CanonicalAspect → Type 0
Allows change rules a =
    (r : ExistingEntityRule) × Among r rules
    × (selects change r.selector ≡ true)
    × (has_aspect a r.allowed_aspects ≡ true)

-- some rule selects the entity, and each changed aspect is allowed by one that does
abbrev pub CanModify : List ExistingEntityRule → ActualChange → Type 0
CanModify rules change =
    ((r : ExistingEntityRule) × Among r rules × (selects change r.selector ≡ true))
    × All (Allows change rules) change.changed_aspects

abbrev pub CanDelete : List DeletionRule → ActualChange → Type 0
CanDelete rules change = (r : DeletionRule) × Among r rules × (selects change r.selector ≡ true)

has_aspect-append :
    (a : CanonicalAspect) (xs ys : List CanonicalAspect)
    → has_aspect a (xs ++ ys) ≡ (has_aspect a xs || has_aspect a ys)
unfolding has_aspect
has_aspect-append a [] ys = refl
has_aspect-append a (x ∷ xs) ys = ground (arith, has_aspect-append a xs ys)

aspects_of-Among :
    (a : CanonicalAspect) (rules : List ExistingEntityRule)
    → has_aspect a (aspects_of rules) ≡ true
    → (r : ExistingEntityRule) × Among r rules × (has_aspect a r.allowed_aspects ≡ true)
unfolding aspects_of has_aspect
aspects_of-Among a [] h = cc
aspects_of-Among a (r ∷ rs) h = elim (Bool-cases (has_aspect a r.allowed_aspects)) [
  | inl t ↦ (r, inl refl, t)
  | inr t ↦
      let h' = sym (has_aspect-append a r.allowed_aspects (aspects_of rs)) ∙ h in
      let (s, m, e) = aspects_of-Among a rs (rw t at h') in (s, inr m, e)
]

Among-aspects_of :
    (a : CanonicalAspect) (rules : List ExistingEntityRule) (r : ExistingEntityRule)
    → Among r rules
    → has_aspect a r.allowed_aspects ≡ true
    → has_aspect a (aspects_of rules) ≡ true
unfolding aspects_of
Among-aspects_of a [] r m h = absurd m
Among-aspects_of a (s ∷ ss) r (inl e) h =
    let h' = ap (λ (x : ExistingEntityRule). has_aspect a x.allowed_aspects) (sym e) ∙ h in
    has_aspect-append a s.allowed_aspects (aspects_of ss) ∙ rw h' refl
Among-aspects_of a (s ∷ ss) r (inr m) h =
    let later = Among-aspects_of a ss r m h in
    has_aspect-append a s.allowed_aspects (aspects_of ss) ∙ ground (arith, later)

module _ {A : Type 0} (p : A → Bool) (P : A → Type 0) where
  all-All : ((x : A) → p x ≡ true → P x) → (xs : List A) → all p xs ≡ true → All P xs
  all-All f [] h = tt
  all-All f (x ∷ xs) h = elim (Bool-cases (p x)) [
    | inl t ↦ (f x t, all-All f xs (rw t at h))
    | inr t ↦ let h' = rw t at h in cc
  ]

  All-all : ((x : A) → P x → p x ≡ true) → (xs : List A) → All P xs → all p xs ≡ true
  All-all f [] h = refl
  All-all f (x ∷ xs) h = rw (f x h.0) (All-all f xs h.1)

module _ (change : ActualChange) (rules : List ExistingEntityRule) where
  abbrev matching : List ExistingEntityRule
  matching = keep (λ (r : ExistingEntityRule). selects change r.selector) rules

  kept-Allows :
      (a : CanonicalAspect) → has_aspect a (aspects_of matching) ≡ true → Allows change rules a
  kept-Allows a h =
      let (r, m, e) = aspects_of-Among a matching h in
      let (n, chosen) =
        keep-Among (λ (s : ExistingEntityRule). selects change s.selector) r rules m in
      (r, n, chosen, e)

  Allows-kept :
      (a : CanonicalAspect) → Allows change rules a → has_aspect a (aspects_of matching) ≡ true
  Allows-kept a (r, m, chosen, e) =
      Among-aspects_of a matching r
        (Among-keep (λ (s : ExistingEntityRule). selects change s.selector) r rules m chosen) e

  pub compare_modify-CanModify :
      ((compare_modify change rules).violations ≡ []) ↔ CanModify rules change
  unfolding compare_modify
  compare_modify-CanModify = (forth, back)
    where
      forth : (compare_modify change rules).violations ≡ [] → CanModify rules change
      forth h = elim (Bool-cases (is_empty matching)) [
        | inl nothing ↦ let h' = rw nothing at h in cc
        | inr some_rule ↦
            elim (Bool-cases
              (all (λ a. has_aspect a (aspects_of matching)) change.changed_aspects)) [
                | inl covered ↦
                    let (r, m) = full-Among matching some_rule in
                    let (n, chosen) =
                      keep-Among (λ (s : ExistingEntityRule). selects change s.selector) r rules
                        m in
                    (
                      (r, n, chosen),
                      all-All (λ a. has_aspect a (aspects_of matching)) (Allows change rules)
                          kept-Allows change.changed_aspects covered,
                    )
                | inr open_aspect ↦ let h' = rw (some_rule, open_aspect) at h in cc
              ]
      ]

      back : CanModify rules change → (compare_modify change rules).violations ≡ []
      back ((r, m, chosen), allowed) =
          let some_rule =
            Among-full r matching (
              Among-keep (λ (s : ExistingEntityRule). selects change s.selector) r rules m
                chosen) in
          let covered =
            All-all (λ a. has_aspect a (aspects_of matching)) (Allows change rules) Allows-kept
              change.changed_aspects allowed in
          rw (some_rule, covered) refl

pub compare_delete-CanDelete :
    (change : ActualChange) (rules : List DeletionRule)
    → ((compare_delete change rules).violations ≡ []) ↔ CanDelete rules change
unfolding compare_delete
compare_delete-CanDelete change rules = (forth, back)
  where
    chosen_by : DeletionRule → Bool
    chosen_by r = selects change r.selector

    forth : (compare_delete change rules).violations ≡ [] → CanDelete rules change
    forth h = elim (Bool-cases (is_empty (keep chosen_by rules))) [
      | inl nothing ↦ let h' = rw nothing at h in cc
      | inr some_rule ↦
          let (r, m) = full-Among (keep chosen_by rules) some_rule in
          let (n, chosen) = keep-Among chosen_by r rules m in (r, n, chosen)
    ]

    back : CanDelete rules change → (compare_delete change rules).violations ≡ []
    back (r, m, chosen) =
        let some_rule =
          Among-full r (keep chosen_by rules) (Among-keep chosen_by r rules m chosen) in
        rw some_rule refl
