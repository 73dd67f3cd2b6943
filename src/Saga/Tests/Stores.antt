-- ===== src/Saga/Tests/Stores.antt =====
-- A store of Sagas, and the theorems about it at concrete inputs.
use dsp.Prelude.{String, ◌≡◌, ◌≢◌, refl, some, ok, err, pos, List, [], ◌∷◌, eq_iff, arith}
use dsp.Prelude.Dict.{empty, update}
use dsp.Contracts.{saga_not_found}
use dsp.Saga.Requests.{reserve}
use dsp.Saga.Store.{Store, Call, create, request, call, calls, create_saga, transition}
use dsp.Saga.Store.Laws.{HoldsSound, calls-HoldsSound, calls-other}
use dsp.Prelude.Text.{strip}
use dsp.Saga.Store.{get_saga}
use dsp.Saga.Store.Laws.{call-get_saga}
use dsp.Saga.State.{check_slice_state, check_stored}
use dsp.Saga.Transitions.Checks.{definition_integrity}
use dsp.Saga.Transitions.Admission.{create_initial_saga, initial_saga}
use dsp.Saga.Tests.{initial, flat_hash, definition, with_reservation, ones}
use dsp.Saga.Tests.Runs.{distinct}

abbrev saga_id : String
saga_id = "SGV2-000000000000"

abbrev nobody : String
nobody = "nobody"

-- creation, a reservation, and a request to a Saga that does not exist
abbrev session : List Call
session =
    create definition
    ∷ request saga_id (reserve ones (pos 0) "09:00")
    ∷ request nobody (reserve ones (pos 0) "09:00")
    ∷ []

pub empty-HoldsSound : HoldsSound empty
empty-HoldsSound k u e = cc

calls-HoldsSound_example : HoldsSound (calls flat_hash empty session)
calls-HoldsSound_example =
    calls-HoldsSound flat_hash empty session (distinct, (tt, (tt, tt))) empty-HoldsSound

abbrev stored : Store
stored = update empty saga_id with_reservation

other : saga_id ≢ nobody
other e = ground (arith, eq_iff saga_id nobody)

calls-other_example :
    calls flat_hash stored (request nobody (reserve ones (pos 0) "09:00") ∷ []) saga_id
    ≡ some with_reservation
calls-other_example =
    calls-other flat_hash stored (request nobody (reserve ones (pos 0) "09:00") ∷ []) saga_id
      (other, tt)

refused :
    (call flat_hash stored (request nobody (reserve ones (pos 0) "09:00"))).0 ≡ err saga_not_found
unfolding call transition
refused = refl

created : (call flat_hash empty (create definition)).0 ≡ ok initial
unfolding call create_saga create_initial_saga initial_saga definition_integrity check_slice_state
    check_stored
created = refl

stripped : strip saga_id ≡ saga_id
unfolding strip
stripped = refl

call-get_saga_example :
    get_saga (call flat_hash empty (create definition)).1 saga_id ≡ ok (some initial)
call-get_saga_example = call-get_saga flat_hash empty (create definition) stripped refl created
