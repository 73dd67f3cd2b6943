-- ===== src/Scope/Licences.antt =====
-- The loop of `_evaluate_scope_effects` over the changes of a delta (scope_comparator.py) finds no
-- violation just where every change can be given a licence.
use dsp.Prelude.{
  ◌≡◌, refl, ap, sym, ◌∙◌, subst, suc, String, Option, none, some, List, [], ◌∷◌, ◌++◌, Bool, false,
  inl, inr, ◌↔◌, ◌==◌, tally, tally_yes, tally_no, ok, >>=-eq-ok, ok-injective,
}
use dsp.Prelude.Tests.{Bool-cases}
use dsp.Prelude.Sort.{sort_by}
use dsp.Saga.Evidence.{ActualChange, ChangeKind, create, modify, delete}
use dsp.Scope.Rules.{CreationRule}
use dsp.Scope.Compare.{Outcome, compare_modify, compare_delete}
use dsp.Scope.Allocation.{compare_creations}
use dsp.Scope.Evaluate.{Rules, Gathered, gather, gather_one, hash_le, effects}
use dsp.Scope.Listing.{Among, Parallel, Parallel-sort, sort-Parallel}
use dsp.Scope.Budget.{uses, IsAllowed, IsConsistent}
use dsp.Scope.Candidates.{Admits}
use dsp.Scope.Creations.{compare_creations-CanCreate}
use dsp.Scope.Modifications.{
  CanModify, CanDelete, compare_modify-CanModify, compare_delete-CanDelete,
}

-- what allows a change of a kind: a creation takes a creation rule
abbrev pub Licensed : Rules → ActualChange → ChangeKind → Option CreationRule → Type 0
Licensed rules c modify none = CanModify rules.existing c
Licensed rules c modify (some _) = ⊥
Licensed rules c delete none = CanDelete rules.deletion c
Licensed rules c delete (some _) = ⊥
Licensed rules c create none = ⊥
Licensed rules c create (some r) = Admits rules.creation c r

abbrev pub HasLicence : Rules → ActualChange → Option CreationRule → Type 0
HasLicence rules c l = Licensed rules c c.change_kind l

-- the licence takes a creation rule of this id
abbrev pub takes : String → Option CreationRule → Bool
takes id none = false
takes id (some r) = r.rule_id == id

-- Each change has a licence: a changed entity is selected by an existing-entity rule and each changed
-- aspect is allowed by a rule that selects it, a deleted one is selected by a deletion rule, and the
-- created ones take creation rules that admit them, each rule at most as often as it allows.
abbrev pub IsAuthorised : Rules → List ActualChange → Type 0
IsAuthorised rules changes =
    (licences : List (Option CreationRule)) × Parallel (HasLicence rules) changes licences
    × ((r : CreationRule)
        → Among r rules.creation
        → IsAllowed r.max_count (tally (takes r.rule_id) licences))

-- the rules that the licences take
abbrev SameUses : List (Option CreationRule) → List CreationRule → Type 0
SameUses ls picks = (id : String) → tally (takes id) ls ≡ uses id picks

SameUses-skip :
    (ls : List (Option CreationRule)) (picks : List CreationRule)
    → SameUses ls picks
    → SameUses (none ∷ ls) picks
SameUses-skip ls picks h id = h id

SameUses-take :
    (r : CreationRule) (ls : List (Option CreationRule)) (picks : List CreationRule)
    → SameUses ls picks
    → SameUses (some r ∷ ls) (r ∷ picks)
SameUses-take r ls picks h id = elim (Bool-cases (r.rule_id == id)) [
  | inl t ↦
      tally_yes (takes id) (some r) ls t
      ∙ ap suc (h id)
      ∙ sym (tally_yes (λ (s : CreationRule). s.rule_id == id) r picks t)
  | inr t ↦
      tally_no (takes id) (some r) ls t
      ∙ h id
      ∙ sym (tally_no (λ (s : CreationRule). s.rule_id == id) r picks t)
]

append-nil_left : {A : Type 0} (xs ys : List A) → xs ++ ys ≡ [] → xs ≡ []
append-nil_left [] ys h = refl
append-nil_left (x ∷ xs) ys h = cc

append-nil_right : {A : Type 0} (xs ys : List A) → xs ++ ys ≡ [] → ys ≡ []
append-nil_right [] ys h = h
append-nil_right (x ∷ xs) ys h = cc

module _ (rules : Rules) where
  -- licences for the changes, given rules for the created entities
  GivesLicences : List ActualChange → List CreationRule → Type 0
  GivesLicences changes picks =
      (ls : List (Option CreationRule)) × Parallel (HasLicence rules) changes ls × SameUses ls picks

  one_licence :
      (c : ActualChange) (cs : List ActualChange) (kind : ChangeKind) (g : Gathered)
      → (c.change_kind ≡ kind)
      → ((picks : List CreationRule)
          → g.violations ≡ []
          → Parallel (Admits rules.creation) g.creates picks
          → GivesLicences cs picks)
      → (picks : List CreationRule) → (gather_one rules kind c g).violations ≡ []
      → Parallel (Admits rules.creation) (gather_one rules kind c g).creates picks
      → GivesLicences (c ∷ cs) picks
  unfolding GivesLicences gather_one
  one_licence c cs modify g e later picks quiet a =
      let own = append-nil_left (compare_modify c rules.existing).violations g.violations quiet in
      let rest = append-nil_right (compare_modify c rules.existing).violations g.violations quiet in
      let (ls, b, same) = later picks rest a in
      (
        none ∷ ls,
        (
          subst (λ k. Licensed rules c k none) (sym e)
              ((compare_modify-CanModify c rules.existing).0 own),
          b,
        ),
        SameUses-skip ls picks same,
      )
  one_licence c cs delete g e later picks quiet a =
      let own = append-nil_left (compare_delete c rules.deletion).violations g.violations quiet in
      let rest = append-nil_right (compare_delete c rules.deletion).violations g.violations quiet in
      let (ls, b, same) = later picks rest a in
      (
        none ∷ ls,
        (
          subst (λ k. Licensed rules c k none) (sym e)
              ((compare_delete-CanDelete c rules.deletion).0 own),
          b,
        ),
        SameUses-skip ls picks same,
      )
  one_licence c cs create g e later [] quiet a = absurd a
  one_licence c cs create g e later (r ∷ rs) quiet a =
      let (ls, b, same) = later rs quiet a.1 in
      (
        some r ∷ ls,
        (subst (λ k. Licensed rules c k (some r)) (sym e) a.0, b),
        SameUses-take r ls rs same,
      )

  gather-GivesLicences :
      (changes : List ActualChange) (picks : List CreationRule)
      → (gather rules changes).violations ≡ []
      → Parallel (Admits rules.creation) (gather rules changes).creates picks
      → GivesLicences changes picks
  unfolding gather GivesLicences
  gather-GivesLicences [] [] quiet a = ([], tt, λ id. refl)
  gather-GivesLicences [] (r ∷ rs) quiet a = absurd a
  gather-GivesLicences (c ∷ cs) picks quiet a =
      one_licence c cs c.change_kind (gather rules cs) refl (gather-GivesLicences cs) picks quiet a

  -- rules for the created entities, given licences for the changes
  GivesRules : Gathered → List (Option CreationRule) → Type 0
  GivesRules g ls =
      (g.violations ≡ [])
      × ((picks : List CreationRule) × Parallel (Admits rules.creation) g.creates picks
          × SameUses ls picks)

  one_rule :
      (c : ActualChange) (kind : ChangeKind) (g : Gathered) (l : Option CreationRule)
      (ls : List (Option CreationRule))
      → Licensed rules c kind l
      → GivesRules g ls
      → GivesRules (gather_one rules kind c g) (l ∷ ls)
  unfolding GivesRules gather_one
  one_rule c modify g none ls own (quiet, (picks, a, same)) = (
    rw ((compare_modify-CanModify c rules.existing).1 own) quiet,
    (picks, a, SameUses-skip ls picks same),
  )
  one_rule c modify g (some r) ls own later = absurd own
  one_rule c delete g none ls own (quiet, (picks, a, same)) = (
    rw ((compare_delete-CanDelete c rules.deletion).1 own) quiet,
    (picks, a, SameUses-skip ls picks same),
  )
  one_rule c delete g (some r) ls own later = absurd own
  one_rule c create g none ls own later = absurd own
  one_rule c create g (some r) ls own (quiet, (picks, a, same)) =
      (quiet, (r ∷ picks, (own, a), SameUses-take r ls picks same))

  gather-GivesRules :
      (changes : List ActualChange) (ls : List (Option CreationRule))
      → Parallel (HasLicence rules) changes ls
      → GivesRules (gather rules changes) ls
  unfolding gather GivesRules
  gather-GivesRules [] [] a = (refl, ([], tt, λ id. refl))
  gather-GivesRules [] (l ∷ ls) a = absurd a
  gather-GivesRules (c ∷ cs) [] a = absurd a
  gather-GivesRules (c ∷ cs) (l ∷ ls) a =
      one_rule c c.change_kind (gather rules cs) l ls a.0 (gather-GivesRules cs ls a.1)

  -- The comparison of a delta reports no violation if and only if every change can be given a
  -- licence, provided that creation rules of one id have one count.
  pub effects-IsAuthorised :
      (changes : List ActualChange) (o : Outcome)
      → IsConsistent rules.creation
      → effects rules changes ≡ ok o
      → (o.violations ≡ []) ↔ IsAuthorised rules changes
  unfolding effects GivesLicences GivesRules
  effects-IsAuthorised changes o same run = (forth, back)
    where
      g : Gathered
      g = gather rules (sort_by hash_le changes)

      ran :
          (created : Outcome) × (compare_creations g.creates rules.creation ≡ ok created)
          × (g.violations ++ created.violations ≡ o.violations)
      ran =
          let (created, e, e') = >>=-eq-ok (compare_creations g.creates rules.creation) _ run in
          (created, e, ap (λ (x : Outcome). x.violations) (ok-injective _ o e'))

      forth : o.violations ≡ [] → IsAuthorised rules changes
      forth quiet =
          let (created, e, e') = ran in
          let own = append-nil_left g.violations created.violations (e' ∙ quiet) in
          let rest = append-nil_right g.violations created.violations (e' ∙ quiet) in
          let (picks, a, counted) =
            (compare_creations-CanCreate g.creates rules.creation created same e).0 rest in
          let (ls, b, uses_same) = gather-GivesLicences (sort_by hash_le changes) picks own a in
          let (licences, c, tally_same) = sort-Parallel (HasLicence rules) hash_le changes ls b in
          (
            licences,
            c,
            λ r m.
                subst (IsAllowed r.max_count)
                  (sym (uses_same r.rule_id) ∙ sym (tally_same (takes r.rule_id))) (counted r m),
          )

      back : IsAuthorised rules changes → o.violations ≡ []
      back (licences, a, counted) =
          let (created, e, e') = ran in
          let (ls, b, tally_same) = Parallel-sort (HasLicence rules) hash_le changes licences a in
          let (quiet, (picks, c, uses_same)) = gather-GivesRules (sort_by hash_le changes) ls b in
          let fit = λ (r : CreationRule) (m : Among r rules.creation).
            subst (IsAllowed r.max_count) (tally_same (takes r.rule_id) ∙ uses_same r.rule_id)
              (counted r m) in
          let rest =
            (compare_creations-CanCreate g.creates rules.creation created same e).1
              (picks, c, fit) in
          sym e' ∙ ap (λ l. l ++ created.violations) quiet ∙ rest
