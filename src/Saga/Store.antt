-- ===== src/Saga/Store.antt =====
-- InMemoryExecutionSagaStoreV2 of saga_store_v2.py: the Sagas by their id. A method that raises has
-- assigned nothing, so that its effect is the store that it leaves.
pub mod Laws
use dsp.Prelude.{String, Option, none, some, List, [], ◌∷◌, Result, ok, err, ◌==◌, if◌then◌else◌}
use dsp.Prelude.Dict.{Dict, update}
use dsp.Prelude.Json.{Json}
use dsp.Prelude.Text.{strip}
use dsp.Contracts.{Error, value_error, saga_not_found}
use dsp.Saga.Definition.{Definition}
use dsp.Saga.State.{StoredSaga}
use dsp.Saga.Requests.{Request, perform}
use dsp.Saga.Transitions.Admission.{create_initial_saga}

-- `self._sagas`
abbrev pub Store : Type 0
Store = Dict StoredSaga

-- what a method returned or raised, and the store after it
abbrev pub Outcome : Type 0
Outcome = Result Error StoredSaga × Store

-- `self._sagas[saga_id] = updated; return updated`
abbrev pub assign : Store → String → Result Error StoredSaga → Outcome
assign store saga_id (ok u) = (ok u, update store saga_id u)
assign store saga_id (err e) = (err e, store)

unfoldable pub get_saga : Store → String → Result Error (Option StoredSaga)
get_saga store saga_id = if strip saga_id == "" then err value_error else ok (store (strip saga_id))

module _ (canonical_hash : Json → String) where
  unfoldable pub create_saga : Store → Definition → Outcome
  unfolding create_initial_saga
  create_saga store d =
      assign store d.saga_id (create_initial_saga canonical_hash d (store d.saga_id))

  -- `_get_required`, and the transition of what it finds
  abbrev pub transition_of : Store → String → Option StoredSaga → Request → Outcome
  transition_of store saga_id none r = (err saga_not_found, store)
  transition_of store saga_id (some u) r = assign store saga_id (perform canonical_hash u r)

  -- the methods that make a transition, each of which reads, computes and assigns in this way
  unfoldable pub transition : Store → String → Request → Outcome
  transition store saga_id r = transition_of store saga_id (store saga_id) r

-- a call of a method
pub data Call : Type 0 where
  create : Definition → Call
  request : String → Request → Call

-- the id that a call writes to
abbrev pub target : Call → String
target (create d) = d.saga_id
target (request saga_id _) = saga_id

module _ (canonical_hash : Json → String) where
  unfoldable pub call : Store → Call → Outcome
  unfolding create_saga transition
  call store (create d) = create_saga canonical_hash store d
  call store (request saga_id r) = transition canonical_hash store saga_id r

  unfoldable pub calls : Store → List Call → Store
  calls store [] = store
  calls store (c ∷ cs) = calls (call store c).1 cs
