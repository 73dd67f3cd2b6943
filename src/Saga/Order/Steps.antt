-- ===== src/Saga/Order/Steps.antt =====
-- Every step keeps the order, and a failure before the first commit leaves no commit at all.
use dsp.Prelude.{
  String, ◌≡◌, refl, sym, ap, ◌∙◌, List, [], ◌∷◌, ◌++◌, map, true, false, arith, all, elem, eq_iff,
  some, ok, >>=-eq-ok, ok-injective, guard-eq-ok, guard_then,
}
use dsp.Saga.Definition.{Definition, SliceDependency}
use dsp.Saga.State.{SliceState, StoredSaga, SliceStatus}
use dsp.Saga.Coherence.{slice_fresh}
use dsp.Saga.Distinct.{name}
use dsp.Saga.Order.{forward_from}
use dsp.Saga.Transitions.Checks.{
  predecessors, status_of, all_predecessors_succeeded, eligible, is_first, require_next_eligible,
  is_not_started, closed_successors,
}
use dsp.Saga.Transitions.Verification.{slice_succeeded}

pub status_of-done :
    (done rest : List SliceState) (p : String)
    → all slice_succeeded done ≡ true
    → elem p (map name done) ≡ true
    → status_of (done ++ rest) p ≡ some SliceStatus.succeeded
unfolding status_of
status_of-done [] rest p a e = cc
status_of-done (s ∷ done) rest p a e =
    ground (arith, status_of-done done rest p, eq_iff p (name s), eq_iff (name s) p)

pub predecessors_done :
    (done rest : List SliceState) (ps : List String)
    → all slice_succeeded done ≡ true
    → all (λ p. elem p (map name done)) ps ≡ true
    → all_predecessors_succeeded (done ++ rest) ps ≡ ok true
unfolding all_predecessors_succeeded
predecessors_done done rest [] a e = refl
predecessors_done done rest (p ∷ ps) a e =
    let here = status_of-done done rest p a (ground arith) in
    let later = predecessors_done done rest ps a (ground arith) in ground arith

append-cons :
    (xs : List String) (y : String) (ys : List String) → (xs ++ (y ∷ [])) ++ ys ≡ xs ++ (y ∷ ys)
append-cons [] y ys = refl
append-cons (x ∷ xs) y ys = ap (λ l. x ∷ l) (append-cons xs y ys)

append-nil : (xs : List String) → xs ++ [] ≡ xs
append-nil [] = refl
append-nil (x ∷ xs) = ap (λ l. x ∷ l) (append-nil xs)

pub forward_at :
    (ds : List SliceDependency) (seen pre post : List String) (h : String)
    → forward_from ds seen (pre ++ (h ∷ post)) ≡ true
    → all (λ p. elem p (seen ++ pre)) (predecessors ds h) ≡ true
unfolding forward_from
forward_at ds seen [] post h e = rw append-nil (ground arith)
forward_at ds seen (k ∷ pre) post h e =
    ap (λ l. all (λ p. elem p l) (predecessors ds h)) (sym (append-cons seen k pre))
    ∙ forward_at ds (seen ++ (k ∷ [])) pre post h (ground arith)

pub eligible-done :
    (d : Definition) (states done rest : List SliceState) {l : List String}
    → all slice_succeeded done ≡ true
    → eligible d states (done ++ rest) ≡ ok l
    → eligible d states rest ≡ ok l
unfolding eligible
eligible-done d states [] rest a e = e
eligible-done d states (s ∷ done) rest {l} a e =
    let old : is_not_started s.status ≡ false = ground arith in
    let (r, er, e₁) = >>=-eq-ok (eligible d states (done ++ rest)) _ (rw old at e) in
    eligible-done d states done rest (ground arith) (er ∙ e₁)

pub eligible-head :
    (d : Definition) (states rest : List SliceState) (x : SliceState) {l : List String}
    → slice_fresh x ≡ true
    → all_predecessors_succeeded states (predecessors d.slice_dependencies (name x)) ≡ ok true
    → eligible d states (x ∷ rest) ≡ ok l
    → (l' : List String) × (l ≡ name x ∷ l')
unfolding eligible
eligible-head d states rest x new preds e =
    let (r, er, e₁) = >>=-eq-ok (eligible d states rest) _ (rw preds at (rw new at e)) in
    (r, sym (ok-injective _ _ e₁))

pub chosen_list :
    (u : StoredSaga) (h : String)
    → require_next_eligible u h ≡ ok tt
    → (l : List String) × (eligible u.definition u.slice_states u.slice_states ≡ ok l)
      × (is_first h l ≡ true)
unfolding require_next_eligible
chosen_list u h e =
    let (_, e₁) =
      guard_then
        (closed_successors u.definition.ordered_slice_hashes u.definition.slice_dependencies) _ _
        e in
    let (l, el, e₂) = >>=-eq-ok (eligible u.definition u.slice_states u.slice_states) _ e₁ in
    (l, el, guard-eq-ok (is_first h l) _ e₂)
