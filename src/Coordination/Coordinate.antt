-- ===== src/Coordination/Coordinate.antt =====
-- `execute` of materialized_coordinator.py as a whole: its checks, and what follows them. The Host
-- is called under the authority that was admitted for its Slice.
use dsp.Prelude.{String, ◌≡◌, refl, List, Result, ok, err}
use dsp.Prelude.Json.{Json}
use dsp.Contracts.{Error}
use dsp.Saga.Definition.{Definition}
use dsp.Saga.Store.Laws.{HoldsSound}
use dsp.Scope.Rules.{Boundary}
use dsp.Scope.Local.{ExecutionSlice}
use dsp.Build.Definition.{Source, build}
use dsp.Build.Forward.{build-IsForward}
use dsp.Coordination.Effects.{CoordinationError, World, Coord, raise}
use dsp.Coordination.Contracts.{CoordinationResult, Job, Plan, Ports}
use dsp.Coordination.Inputs.{BindingSet, Inputs}
use dsp.Coordination.Validate.{admitted_jobs}
use dsp.Coordination.Joined.{Joins, admitted_jobs-Joins}
use dsp.Coordination.Rounds.{execute}
use dsp.Coordination.Guarded.{Guarded}
use dsp.Coordination.Mirror.{execute-Safe}

-- what the loop reads of the arguments
unfoldable pub plan_of : Inputs → Plan
plan_of given = record {
  changeset_hash = given.changeset_hash;
  boundary = given.boundary;
  validation_task_ids = given.validation_task_ids;
  materialization_plan_hash = given.materialization_plan.materialization_plan_hash;
  required_set_hash = given.materialization_plan.required_set_hash;
  execution_plan_hash = given.execution_plan.execution_plan_hash;
}

module _ {X Bundle Evidence : Type 0} (canonical_hash sha256_json : Json → String)
    (uuid5 : String → String → String) (owner_truth : String → Boundary → Result Error (Unit {0}))
    (binding_integrity : BindingSet → ExecutionSlice → Result Error (Unit {0}))
    (ports : Ports X Bundle Evidence) where
  abbrev pub with_jobs :
      Inputs
      → Result Error Definition
      → Result CoordinationError (List Job)
      → Coord X CoordinationResult
  with_jobs given built (err e) = raise e
  with_jobs given built (ok jobs) =
      execute canonical_hash uuid5 owner_truth ports (plan_of given) built jobs

  -- `validated` is the outcome of the validators of the builder, and `source` what it reads of the
  -- arguments
  unfoldable pub coordinate : Inputs → Result Error (Unit {0}) → Source → Coord X CoordinationResult
  unfolding plan_of build
  coordinate given validated source =
      with_jobs given (build canonical_hash validated source)
        (admitted_jobs sha256_json owner_truth binding_integrity given)

  -- What `execute-Safe` says of the jobs that pass the checks, under the definition that the builder
  -- makes.
  pub coordinate-Safe :
      (Safe : dsp.Dispatch.Store.Store → X → Type 0) (given : Inputs)
      (validated : Result Error (Unit {0})) (source : Source) (w : World X)
      → Guarded ports (Joins given) Safe
      → HoldsSound w.sagas
      → Safe w.intents w.outside
      → let v = (coordinate given validated source w).1 in Safe v.intents v.outside
  unfolding coordinate raise
  coordinate-Safe Safe given validated source w guarded sound safe =
      go (admitted_jobs sha256_json owner_truth binding_integrity given) refl
    where
      built : Result Error Definition
      built = build canonical_hash validated source

      go :
          (r : Result CoordinationError (List Job))
          → admitted_jobs sha256_json owner_truth binding_integrity given ≡ r
          → Safe (with_jobs given built r w).1.intents (with_jobs given built r w).1.outside
      go (err e) h = safe
      go (ok jobs) h =
          execute-Safe canonical_hash uuid5 owner_truth ports (plan_of given) (Joins given) Safe
            built jobs w guarded
            (admitted_jobs-Joins given sha256_json owner_truth binding_integrity h).0
            (λ d made. (build-IsForward canonical_hash validated source made).0) sound safe
