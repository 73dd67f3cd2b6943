-- ===== src/Saga/Order/Candidate.antt =====
-- Only the first Slice that has not succeeded is admitted.
use dsp.Prelude.{
  ◌≡◌, refl, sym, ap, ◌∙◌, List, [], ◌∷◌, ◌++◌, ◌⊎◌, map, true, false, arith, all, all-append, elem,
  eq_iff, eq_refl, inl, inr, tally, tally-append, elem-append,
}
use dsp.Contracts.{unique}
use dsp.Saga.State.{SliceState, StoredSaga, ready, executing}
use dsp.Saga.Coherence.{Coherent, slice_fresh, slice_halted}
use dsp.Saga.Distinct.{name, unique-middle, map-name-append, idle_siblings, is_busy}
use dsp.Saga.Invariant.{IsSound}
use dsp.Saga.Moves.{IsCandidate}
use dsp.Saga.Order.{is_forward, in_order, in_order-first}
use dsp.Saga.Order.Steps.{forward_at, predecessors_done, eligible-done, eligible-head, chosen_list}
use dsp.Saga.Transitions.Checks.{is_first, eligible}
use dsp.Saga.Transitions.Verification.{slice_succeeded}

-- where no Slice is active, one that has not succeeded is new
idle_is_fresh :
    (u : StoredSaga) (done rest : List SliceState) (x : SliceState)
    → Coherent u
    → (u.status ≡ ready) ⊎ (u.status ≡ executing)
    → u.slice_states ≡ done ++ (x ∷ rest)
    → is_busy x ≡ false
    → slice_succeeded x ≡ false
    → slice_fresh x ≡ true
idle_is_fresh u done rest x c o e idle not_done =
    let a = all-append slice_fresh done (x ∷ rest) in
    let t = tally-append slice_halted done (x ∷ rest) in ground arith

regroup :
    (done rest tail : List SliceState) (x : SliceState)
    → (done ++ (x ∷ rest)) ++ tail ≡ done ++ (x ∷ (rest ++ tail))
regroup [] rest tail x = refl
regroup (d ∷ done) rest tail x = ap (λ l. d ∷ l) (regroup done rest tail x)

busy_inside :
    (done rest : List SliceState) (x : SliceState)
    → tally is_busy (done ++ (x ∷ rest)) ≡ 0
    → is_busy x ≡ false
busy_inside done rest x e = let t = tally-append is_busy done (x ∷ rest) in ground arith

name_twice :
    (rest post : List SliceState) (s x : SliceState)
    → name s ≡ name x
    → elem (name x) (map name (rest ++ (s ∷ post))) ≡ false
    → ⊥
name_twice rest post s x e apart =
    let m = map-name-append rest (s ∷ post) in
    let a = elem-append (name x) (map name rest) (name s ∷ map name post) in
    let r = eq_refl (name x) in
    let apart' : elem (name x) (map name rest ++ (name s ∷ map name post)) ≡ false =
      ap (elem (name x)) (sym m) ∙ apart in
    ground (arith, eq_iff (name x) (name s))

-- a Slice that may be admitted next follows succeeded Slices only
pub candidate_is_next :
    (u : StoredSaga) (pre post : List SliceState) (s : SliceState)
    → IsSound u
    → is_forward u.definition ≡ true
    → u.slice_states ≡ pre ++ (s ∷ post)
    → IsCandidate u s
    → in_order (pre ++ (s ∷ post)) ≡ true
    → (all slice_succeeded pre ≡ true) × (all slice_fresh post ≡ true)
unfolding is_forward
candidate_is_next u pre post s w forward e c order =
    elim (in_order-first pre post s order (rw c.fresh refl)) [
      | inl next ↦ next
      | inr (done, x, rest, split, all_done, not_done) ↦
          let tail = rest ++ (s ∷ post) in
          let e' : u.slice_states ≡ done ++ (x ∷ tail) =
            e ∙ ap (λ l. l ++ (s ∷ post)) split ∙ regroup done rest (s ∷ post) x in
          let names : map name u.slice_states ≡ map name done ++ (name x ∷ map name tail) =
            ap (map name) e' ∙ map-name-append done (x ∷ tail) in
          let distinct : unique (map name u.slice_states) ≡ true = rw w.named w.distinct in
          let (idle_pre, _) = idle_siblings pre s post (rw e at distinct) (rw e at c.alone) in
          let idle : is_busy x ≡ false =
            busy_inside done rest x (ap (tally is_busy) (sym split) ∙ idle_pre) in
          let new = idle_is_fresh u done tail x w.coherent c.opened e' idle not_done in
          let (l, chosen, head) = chosen_list u (name s) c.chosen in
          let preds =
            forward_at u.definition.slice_dependencies [] (map name done) (map name tail) (name x)
              (rw (sym names, w.named) forward) in
          let (l', el) =
            eligible-head u.definition u.slice_states tail x new
              (rw e' (predecessors_done done (x ∷ tail) _ all_done preds))
              (eligible-done u.definition u.slice_states done (x ∷ tail) all_done
                (ap (λ k. eligible u.definition u.slice_states k) (sym e') ∙ chosen)) in
          let one : name s ≡ name x =
            (eq_iff (name s) (name x)).0 (ap (is_first (name s)) (sym el) ∙ head) in
          let (_, apart) =
            unique-middle (map name done) (name x) (map name tail)
              (ap unique (sym names) ∙ distinct) in
          absurd (name_twice rest post s x one apart)
    ]
