-- ===== src/Report/Tests.antt =====
-- A client at concrete inputs: a device is learned, assigned a VLAN, tested and disconnected.
use forch.Base.{◌≡◌, refl, String, true, some, List, [], ◌∷◌, string_eq, pair_eq, nat_eq}
use forch.Base.Dict
use forch.Base.Exec.{ok}
use forch.Port.Types.{passed}
use forch.Report.{
  Call, start_session, cancel_session, free_endpoint, handle_result, ReportClient, SessionCode,
  Progress, Input, port_state, port_learn, port_assign, progressed, feed, feed_all, fresh,
}
use forch.Report
use forch.Report.Sessions.{IsSingle}
use forch.Report.Sessions.Runs.{feed_all-IsSingle}

abbrev mac : String
mac = "9a:02:57:1e:8f:01"

abbrev tested : Progress
tested = record { endpoint_ip = ""; result = some Report.pass }

abbrev inputs : List Input
inputs =
    port_learn "t2sw1" 5 mac 272
    ∷ port_assign mac 272 200
    ∷ port_learn "t2sw1" 5 mac 272
    ∷ progressed mac tested (ok true)
    ∷ []

inputs_lem :
    (feed_all inputs (fresh 100 true)).out
    ≡ start_session mac 272 200 0
      ∷ handle_result mac passed
      ∷ cancel_session mac 0
      ∷ free_endpoint mac
      ∷ []
unfolding feed_all feed Dict.lookup Dict.insert string_eq pair_eq nat_eq
inputs_lem = refl

feed_all-IsSingle_example : IsSingle 100 (feed_all inputs (fresh 100 true))
feed_all-IsSingle_example = feed_all-IsSingle 100 true inputs
