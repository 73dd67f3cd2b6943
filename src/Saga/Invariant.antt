-- ===== src/Saga/Invariant.antt =====
-- What holds of a Saga from its creation on, whatever requests it is given.
pub mod Initial
use dsp.Prelude.{
  String, ◌≡◌, refl, sym, ap, ◌∙◌, List, [], ◌∷◌, ◌++◌, map, true, false, ok, err, inl, inr, arith,
  All, All-append, All-append_left, All-append_right, if◌then◌else◌, Bool-cases, Result,
}
use dsp.Prelude.Json.{Json}
use dsp.Contracts.{Error, unique}
use dsp.Saga.Transitions.Checks.{is_not_started}
use dsp.Saga.State.{SliceState, StoredSaga}
use dsp.Prelude.Strip.{strip_idem}
use dsp.Contracts.Normal.{strip?_idem}
use dsp.Saga.Normal.{IsNormal}
use dsp.Saga.Rebuilt.{block}
use dsp.Saga.Lifecycle.{HasEvidence, Move-HasEvidence}
use dsp.Saga.Distinct.{name, map-name-append}
use dsp.Saga.Coherence.{Coherent}
use dsp.Saga.Coherence.Steps.{Move-Coherent}
use dsp.Saga.Moves.{
  reserved, verified, Advance, admit, commit, begin, compare, Break, abandon, breach, reject, Move,
  reserve, advance, pass, break, converge,
}
use dsp.Saga.Requests.{Request, perform, after, serve}
use dsp.Saga.Refinement.{perform_refines_Move}

pub record IsSound (u : StoredSaga) : Type 0 where
  -- the constructors stripped every text
  pub normal : All IsNormal u.slice_states
  -- the states follow the order of the definition, whose Slices are distinct
  pub named : map name u.slice_states ≡ u.definition.ordered_slice_hashes
  pub distinct : unique u.definition.ordered_slice_hashes ≡ true
  pub evidence : All HasEvidence u.slice_states
  pub coherent : Coherent u

-- the new state is stripped, and has the name of the old one
abbrev Keeps : SliceState → SliceState → Type 0
Keeps s t = IsNormal t × (name t ≡ name s)

ruleset stripped = (strip_idem, strip?_idem)

Advance-Keeps : {s t : SliceState} → Advance s t → IsNormal s → Keeps s t
Advance-Keeps {s} {t} (admit a e q) n = (rw q (simp stripped), rw q (ap name n))
Advance-Keeps {s} {t} (commit d at e q) n = (rw q (simp stripped), rw q (ap name n))
Advance-Keeps {s} {t} (begin e q) n = (rw q (simp stripped), rw q (ap name n))
Advance-Keeps {s} {t} (compare r e c w q) n = (rw q (simp stripped), rw q (ap name n))

Break-Keeps : {s t : SliceState} → Break s t → IsNormal s → Keeps s t
Break-Keeps {s} {t} (abandon at e d q) n = (rw q (simp stripped), rw q (ap name n))
Break-Keeps {s} {t} (breach r e c w q) n = (rw q (simp stripped), rw q (ap name n))
Break-Keeps {s} {t} (reject r at e c w q) n = (rw q (simp stripped), rw q (ap name n))

block-Keeps : (s : SliceState) → IsNormal s → Keeps s (block s)
block-Keeps s n = elim (Bool-cases (is_not_started s.status)) [
  | inl new ↦ rw new (simp stripped, ap name n)
  | inr old ↦ rw old (n, refl)
]

-- the same for the states of a Saga, one by one
abbrev AllKeep : List SliceState → List SliceState → Type 0
AllKeep ss ts = All IsNormal ts × (map name ts ≡ map name ss)

map-block-AllKeep : (ss : List SliceState) → All IsNormal ss → AllKeep ss (map block ss)
map-block-AllKeep [] n = (tt, refl)
map-block-AllKeep (s ∷ ss) n =
    let (l, e) = block-Keeps s n.0 in
    let (ls, es) = map-block-AllKeep ss n.1 in ((l, ls), λ i. e i ∷ es i)

replace-AllKeep :
    (pre post post' : List SliceState) (s t : SliceState) (states : List SliceState)
    → states ≡ pre ++ (s ∷ post)
    → (IsNormal s → Keeps s t)
    → (All IsNormal post → AllKeep post post')
    → All IsNormal states
    → AllKeep states (pre ++ (t ∷ post'))
replace-AllKeep pre post post' s t states split f g n =
    let n' = rw split at n in
    let right = All-append_right IsNormal pre (s ∷ post) n' in
    let (tn, te) = f right.0 in
    let (pn, pe) = g right.1 in
    (
      All-append IsNormal pre (t ∷ post') (All-append_left IsNormal pre (s ∷ post) n') (tn, pn),
      rw split (simp map-name-append (λ i. map name pre ++ (te i ∷ pe i))),
    )

Move-AllKeep :
    {u v : StoredSaga}
    → Move u v
    → All IsNormal u.slice_states
    → AllKeep u.slice_states v.slice_states × (v.definition ≡ u.definition)
Move-AllKeep {u} (reserve pre post s at e c q) n = rw q (
  replace-AllKeep pre post post s _ u.slice_states e (λ m. (simp stripped, ap name m))
      (λ m. (m, refl)) n,
  refl,
)
Move-AllKeep {u} (advance pre post s t e a q) n =
    rw q (
      replace-AllKeep pre post post s t u.slice_states e (Advance-Keeps a) (λ m. (m, refl)) n,
      refl,
    )
Move-AllKeep {u} (pass pre post s r at e st c q) n = rw q (
  replace-AllKeep pre post post s _ u.slice_states e (λ m. (simp stripped, ap name m))
      (λ m. (m, refl)) n,
  refl,
)
Move-AllKeep {u} (break pre post s t e b q) n = rw q (
  replace-AllKeep pre post (map block post) s t u.slice_states e (Break-Keeps b)
      (map-block-AllKeep post) n,
  refl,
)
Move-AllKeep {u} (converge o c p f a q) n = rw q ((n, refl), refl)

pub Move-IsSound : {u v : StoredSaga} → Move u v → IsSound u → IsSound v
Move-IsSound m h =
    let ((n, e), d) = Move-AllKeep m h.normal in
    record {
      normal = n;
      named = e ∙ h.named ∙ ap (λ x. x.ordered_slice_hashes) (sym d);
      distinct = rw d h.distinct;
      evidence = Move-HasEvidence m h.evidence;
      coherent = Move-Coherent m (rw h.named h.distinct) h.evidence h.coherent;
    }

module _ (canonical_hash : Json → String) where
  pub after-IsSound :
      (u : StoredSaga) (r : Request) → IsSound u → IsSound (after u (perform canonical_hash u r))
  after-IsSound u r h = go (perform canonical_hash u r) refl
    where
      go : (x : Result Error StoredSaga) → perform canonical_hash u r ≡ x → IsSound (after u x)
      go (err _) e = h
      go (ok v) e = elim (perform_refines_Move canonical_hash u r e) [
        | inl replay ↦ rw replay h
        | inr step ↦ Move-IsSound step.1 h
      ]

  -- Whatever requests a sound Saga is given, in any order and with any arguments, it stays sound:
  -- its states keep the names and the order of the definition, each Slice holds exactly the
  -- evidence of its status, and the status of the Saga agrees with its Slices.
  pub serve-IsSound :
      (u : StoredSaga) (requests : List Request)
      → IsSound u
      → IsSound (serve canonical_hash u requests)
  unfolding serve
  serve-IsSound u [] h = h
  serve-IsSound u (r ∷ rs) h =
      serve-IsSound (after u (perform canonical_hash u r)) rs (after-IsSound u r h)
