-- ===== src/Tests/HubWitnesses.antt =====
-- The theorems on the hub at concrete inputs.
use tucanbit_tvs.Hub.Run.{
  Event, registered, broadcasted, run, owner, WsClient, register, unregister, new_ws_hub,
}
use tucanbit_tvs.Hub.Refine.{spec_run, run-spec_run, meant_for}
use tucanbit_tvs.Hub.Delivery.{WasEntitled, run-delivered}
use tucanbit_tvs.Hub.Given.{Gave, run-Gave}
use tucanbit_tvs.Hub.WellFormed.{IsWellFormed}
use tucanbit_tvs.Hub.Invariant.{run-IsWellFormed, register-IsWellFormed}
use tucanbit_tvs.Hub.RoundTrip.{unregister-register}
use tucanbit_tvs.Hub.View.{connected}
use tucanbit_tvs.Tests.{test_session}
use tucanbit_tvs.Hub.Message.{deposit_message, WsMessage}
use tucanbit_tvs.Prelude.{◌∷◌, [], refl, List, ◌≡◌, All, true, false}

abbrev alice : WsClient
alice = record { user_id = "user"; conn = 7 }

abbrev bob : WsClient
bob = record { user_id = "other"; conn = 8 }

abbrev both_joined : List Event
both_joined = registered bob ∷ registered alice ∷ []

abbrev update : WsMessage
update = deposit_message test_session

abbrev all_sent : List Event
all_sent = broadcasted (λ c. true) update ∷ both_joined

run-IsWellFormed_example : IsWellFormed (run all_sent).clients
run-IsWellFormed_example = run-IsWellFormed all_sent

run-spec_run_example : connected (run all_sent).clients "user" 7 ≡ spec_run all_sent "user" 7
run-spec_run_example = run-spec_run all_sent "user" 7

run-delivered_example : All (WasEntitled all_sent) (run all_sent).delivered
run-delivered_example = run-delivered all_sent

for_alice : meant_for update "user" ≡ true
unfolding owner
for_alice = refl

run-Gave_example : Gave update 7 (run all_sent).delivered
run-Gave_example = run-Gave both_joined (λ c. true) update "user" 7 refl for_alice refl

bob_is_away : connected (register alice new_ws_hub).clients "other" 8 ≡ false
unfolding register
bob_is_away = refl

alice-IsWellFormed : IsWellFormed (register alice new_ws_hub).clients
alice-IsWellFormed = register-IsWellFormed alice new_ws_hub (run-IsWellFormed [])

unregister-register_example :
    (unregister bob (register bob (register alice new_ws_hub))).clients
    ≡ (register alice new_ws_hub).clients
unregister-register_example =
    unregister-register bob (register alice new_ws_hub) alice-IsWellFormed bob_is_away
