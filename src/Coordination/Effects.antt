-- ===== src/Coordination/Effects.antt =====
-- Calls that may raise and that leave the stores and the outside as they made them: what was written
-- before an exception stays written.
use dsp.Prelude.{String, ℤ, Result, ok, err}
use dsp.Prelude.Json.{Json}
use dsp.Contracts.{Error}
use dsp.Saga.Definition.{Definition}
use dsp.Saga.State.{StoredSaga}
use dsp.Saga.Requests.{Request}
use dsp.Saga.Store.{create_saga, transition}
use dsp.Dispatch.Intent.{Intent}
use dsp.Dispatch.Store.{Mark, prepare, mark}

-- CoordinationError by its code, the error of a store or of an evaluator, or what a port raised
pub data CoordinationError : Type 0 where
  host_result_invalid saga_integrity_invalid : CoordinationError
  materialization_plan_hash_mismatch materialization_required_set_mismatch : CoordinationError
  convergence_profile_mismatch : CoordinationError
  materialization_binding_mismatch materialization_authority_mismatch : CoordinationError
  reconciliation : Error → CoordinationError
  port_error : String → CoordinationError

-- the durable stores, and all that the ports stand for
pub record World (X : Type 0) : Type 0 where
  pub sagas : dsp.Saga.Store.Store
  pub intents : dsp.Dispatch.Store.Store
  pub outside : X

-- a computation on the world
abbrev pub Coord : Type 0 → Type 0 → Type 0
Coord X A = World X → Result CoordinationError A × World X

abbrev pub as_error : {A : Type 0} → Result Error A → Result CoordinationError A
as_error (ok a) = ok a
as_error (err e) = err (reconciliation e)

abbrev pub as_port_error : {A : Type 0} → Result String A → Result CoordinationError A
as_port_error (ok a) = ok a
as_port_error (err e) = err (port_error e)

abbrev pub run_on :
    {X A B : Type 0}
    → Result CoordinationError A × World X
    → (A → Coord X B)
    → Result CoordinationError B × World X
run_on (ok a, w) f = f a w
run_on (err e, w) f = (err e, w)

infixl 5 ◌>>=◌ ◌>>◌
unfoldable pub ◌>>=◌ : {X A B : Type 0} → Coord X A → (A → Coord X B) → Coord X B
(m >>= f) w = run_on (m w) f

abbrev pub ◌>>◌ : {X A B : Type 0} → Coord X A → Coord X B → Coord X B
m >> k = m >>= λ _. k

module _ {X : Type 0} where
  unfoldable pub pure : {A : Type 0} → A → Coord X A
  pure a w = (ok a, w)

  unfoldable pub raise : {A : Type 0} → CoordinationError → Coord X A
  raise e w = (err e, w)

  -- a reading of the clock
  unfoldable pub ask : {A : Type 0} → (X → A × X) → Coord X A
  ask f w = (ok (f w.outside).0, record w { outside = (f w.outside).1 })

  -- a call of a port, which may raise
  unfoldable pub call : {A : Type 0} → (X → Result String A × X) → Coord X A
  call f w = (as_port_error (f w.outside).0, record w { outside = (f w.outside).1 })

  -- a call that reads no store
  unfoldable pub lift : {A : Type 0} → Result Error A → Coord X A
  lift r w = (as_error r, w)

  module _ (canonical_hash : Json → String) where
    unfoldable pub saga : String → Request → Coord X StoredSaga
    unfolding transition
    saga saga_id r w =
        let o = transition canonical_hash w.sagas saga_id r in
        (as_error o.0, record w { sagas = o.1 })

    unfoldable pub create : Definition → Coord X StoredSaga
    unfolding create_saga
    create d w =
        let o = create_saga canonical_hash w.sagas d in (as_error o.0, record w { sagas = o.1 })

  unfoldable pub prepares : Intent → Coord X Intent
  unfolding prepare
  prepares i w = let o = prepare w.intents i in (as_error o.0, record w { intents = o.1 })

  unfoldable pub marks : Mark → String → ℤ → String → Coord X Intent
  unfolding mark
  marks m id n at w = let o = mark w.intents m id n at in (as_error o.0, record w { intents = o.1 })
