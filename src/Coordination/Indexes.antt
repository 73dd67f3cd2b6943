-- ===== src/Coordination/Indexes.antt =====
-- Python's dictionaries by a key, and its loops over checks, as materialized_coordinator.py uses them.
use dsp.Prelude.{
  String, Option, none, some, List, [], ◌∷◌, Bool, ◌&&◌, ◌==◌, all, elem, Result, ok, err, ◌>>◌,
  if◌then◌else◌,
}
use dsp.Contracts.{key_error, unique}
use dsp.Scope.Allocation.{or_else}
use dsp.Coordination.Effects.{CoordinationError, reconciliation}

-- the outcome of a check
abbrev pub Check : Type 0
Check = Result CoordinationError (Unit {0})

-- `{key(x): x for x in xs}`, where a later value replaces an earlier one
unfoldable pub index_by : {A : Type 0} → (A → String) → List A → String → Option A
index_by key [] k = none
index_by key (x ∷ xs) k = or_else (index_by key xs k) (if key x == k then some x else none)

-- `result[key]`
abbrev pub found : {A : Type 0} → Option A → Result CoordinationError A
found none = err (reconciliation key_error)
found (some a) = ok a

-- the ids are distinct, and as a set those that are expected
unfoldable pub covers : List String → List String → Bool
unfolding unique
covers supplied expected =
    unique supplied && all (λ s. elem s expected) supplied && all (λ e. elem e supplied) expected

-- a loop over checks
unfoldable pub check_each : {A : Type 0} → (A → Check) → List A → Check
check_each check [] = ok tt
check_each check (x ∷ xs) = check x >> check_each check xs

-- an error of the owners, under a code of the coordinator's
abbrev pub caught : {E : Type 0} → Result E (Unit {0}) → CoordinationError → Check
caught (ok _) e = ok tt
caught (err _) e = err e
