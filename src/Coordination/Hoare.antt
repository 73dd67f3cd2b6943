-- ===== src/Coordination/Hoare.antt =====
-- What holds after a computation that may raise, step by step.
use dsp.Prelude.{Result, ok, err}
use dsp.Coordination.Effects.{CoordinationError, World, Coord, run_on, ◌>>=◌, pure, raise, lift}
use dsp.Contracts.{Error}

module _ {X : Type 0} (I : World X → Type 0) where
  -- `Q` of what was returned, and `I` of what an exception leaves
  abbrev pub Ends :
      {A : Type 0} → (A → World X → Type 0) → Result CoordinationError A × World X → Type 0
  Ends Q (ok a, w) = Q a w
  Ends Q (err _, w) = I w

  abbrev pub Ensures :
      {A : Type 0} → (World X → Type 0) → Coord X A → (A → World X → Type 0) → Type 0
  Ensures P m Q = (w : World X) → P w → Ends Q (m w)

  run_on-Ends :
      {A B : Type 0} (Q : A → World X → Type 0) (R : B → World X → Type 0)
      (o : Result CoordinationError A × World X) (f : A → Coord X B)
      → Ends Q o
      → ((a : A) → Ensures (Q a) (f a) R)
      → Ends R (run_on o f)
  run_on-Ends Q R (ok a, w) f h k = k a w h
  run_on-Ends Q R (err e, w) f h k = h

  pub bind-Ensures :
      {A B : Type 0} {P : World X → Type 0} (Q : A → World X → Type 0) (R : B → World X → Type 0)
      (m : Coord X A) (f : A → Coord X B)
      → Ensures P m Q
      → ((a : A) → Ensures (Q a) (f a) R)
      → Ensures P (m >>= f) R
  unfolding ◌>>=◌
  bind-Ensures Q R m f h k w p = run_on-Ends Q R (m w) f (h w p) k

  pub pure-Ensures :
      {A : Type 0} {P : World X → Type 0} (Q : A → World X → Type 0) (a : A)
      → ((w : World X) → P w → Q a w)
      → Ensures P (pure a) Q
  unfolding pure
  pure-Ensures Q a h w p = h w p

  pub raise-Ensures :
      {A : Type 0} {P : World X → Type 0} (Q : A → World X → Type 0) (e : CoordinationError)
      → ((w : World X) → P w → I w)
      → Ensures P (raise e) Q
  unfolding raise
  raise-Ensures Q e h w p = h w p

  pub lift-Ensures :
      {A : Type 0} {P : World X → Type 0} (r : Result Error A)
      → ((w : World X) → P w → I w)
      → Ensures P (lift r) (λ _. P)
  unfolding lift
  lift-Ensures (ok a) h w p = p
  lift-Ensures (err e) h w p = h w p

  Ends-weaken :
      {A : Type 0} (Q R : A → World X → Type 0) (o : Result CoordinationError A × World X)
      → ((a : A) (w : World X) → Q a w → R a w)
      → Ends Q o
      → Ends R o
  Ends-weaken Q R (ok a, w) h q = h a w q
  Ends-weaken Q R (err e, w) h q = q

  pub weaken-Ensures :
      {A : Type 0} {P : World X → Type 0} (Q R : A → World X → Type 0) (m : Coord X A)
      → ((a : A) (w : World X) → Q a w → R a w)
      → Ensures P m Q
      → Ensures P m R
  weaken-Ensures Q R m h k w p = Ends-weaken Q R (m w) h (k w p)
