-- ===== src/Saga/Locate.antt =====
-- `_state_index` finds the first state with a hash, and splits the states there.
use dsp.Prelude.{
  ℕ, zero, suc, String, ◌≡◌, refl, ap, List, [], ◌∷◌, ◌++◌, Result, ok, eq_iff, length, arith,
  ◌>>=◌, >>=-eq-ok,
}
use dsp.Contracts.{Error}
use dsp.Saga.State.{SliceState, StoredSaga}
use dsp.Saga.Transitions.Checks.{state_index, state_at}

pub record Located (states : List SliceState) (h : String) (i : ℕ) (s : SliceState) : Type 0 where
  pub before : List SliceState
  pub after : List SliceState
  pub split : states ≡ before ++ (s ∷ after)
  pub place : length before ≡ i
  pub named : s.execution_slice_hash ≡ h

Located-cons :
    {states : List SliceState} {h : String} {i : ℕ} {s : SliceState} (r : SliceState)
    → Located states h i s
    → Located (r ∷ states) h (suc i) s
Located-cons r l = record {
  before = r ∷ l.before;
  after = l.after;
  split = ap (λ ss. r ∷ ss) l.split;
  place = ap suc l.place;
  named = l.named;
}

pub locate :
    (states : List SliceState) (h : String) (i : ℕ) (s : SliceState)
    → state_index states h ≡ ok i
    → state_at states i ≡ ok s
    → Located states h i s
unfolding state_index state_at
locate [] h i s p q = cc
locate (r ∷ rs) h zero s p q = record {
  before = [];
  after = rs;
  split = ground arith;
  place = refl;
  named = ground (arith, eq_iff r.execution_slice_hash h);
}
locate (r ∷ rs) h (suc i) s p q = Located-cons r (locate rs h i s (ground arith) q)

-- a transition that has found its Slice
pub record Found (states : List SliceState) (h : String)
    (f : ℕ → SliceState → Result Error StoredSaga) (v : StoredSaga) : Type 0 where
  pub pre : List SliceState
  pub post : List SliceState
  pub slice : SliceState
  pub split : states ≡ pre ++ (slice ∷ post)
  pub named : slice.execution_slice_hash ≡ h
  pub run : f (length pre) slice ≡ ok v

pub find_slice :
    (states : List SliceState) (h : String) (f : ℕ → SliceState → Result Error StoredSaga)
    {v : StoredSaga}
    → (do i ← state_index states h; s ← state_at states i; f i s) ≡ ok v
    → Found states h f v
find_slice states h f e =
    let (i, ei, e₁) = >>=-eq-ok (state_index states h) _ e in
    let (s, es, e₂) = >>=-eq-ok (state_at states i) _ e₁ in
    let l = locate states h i s ei es in
    record {
      pre = l.before;
      post = l.after;
      slice = s;
      split = l.split;
      named = l.named;
      run = rw l.place e₂;
    }
