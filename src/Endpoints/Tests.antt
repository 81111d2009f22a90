-- ===== src/Endpoints/Tests.antt =====
-- A handler at concrete inputs.
use forch.Base.{◌≡◌, refl, List, [], ◌∷◌, string_eq, nat_eq}
use forch.Base.Dict
use forch.Endpoints.{Endpoint, EndpointHandler, Input, processed, freed, feed_all, create}
use forch.Endpoints.Allocation.{IsSound}
use forch.Endpoints.Release.{requests-IsSound}

abbrev endpoint : Endpoint
endpoint = record { ip = "10.0.0.7"; port = 4789; vni = 5; tap_port = 0 }

abbrev inputs : List Input
inputs =
    processed endpoint "9a:02:57:1e:8f:01"
    ∷ processed endpoint "9a:02:57:1e:8f:02"
    ∷ freed "9a:02:57:1e:8f:01"
    ∷ processed endpoint "9a:02:57:1e:8f:03"
    ∷ freed "9a:02:57:1e:8f:02"
    ∷ []

abbrev ended : EndpointHandler
ended = feed_all inputs (create [])

ended_ports : (ended.mac_tap_port ≡ ("9a:02:57:1e:8f:03", 29) ∷ []) × (ended.next_tap_port ≡ 30)
unfolding feed_all Dict.lookup Dict.insert string_eq nat_eq Dict.erase
ended_ports = (refl, refl)

requests-IsSound_example : IsSound (feed_all inputs (create []))
requests-IsSound_example = requests-IsSound inputs []
