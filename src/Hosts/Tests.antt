-- ===== src/Hosts/Tests.antt =====
-- A host that is learned at two switches and expires at one, and a host at a port that is not
-- configured.
use forch.Base.{◌≡◌, refl, String, true, false, none, some, List, [], ◌∷◌, string_eq, nat_eq}
use forch.Base.Dict
use forch.Hosts.{Setup, placement, learned_l2_port, report_port_learn, create}
use forch.Hosts.Config.{Dp, Dps, Interface}
use forch.Hosts.Switches.{Input, port_learn, port_expire, radius_result, feed_all}
use forch.Hosts.Sound.{Sound}

abbrev setup : Setup
setup = record {
  has_placement_callback = true;
  has_metrics = true;
  has_reporter = true;
  sequester_port_description = "TAP";
}

abbrev access_port : Interface
access_port = record { description = "HOST"; stack = none; lacp = false }

abbrev dp : Dp
dp = record {
  interfaces = (1, some access_port) ∷ [];
  interface_ranges = (5, 8) ∷ [];
  ports = (1, some 200) ∷ (6, none) ∷ [];
}

abbrev dps : Dps
dps = ("t2sw1", dp) ∷ ("t2sw2", dp) ∷ []

abbrev mac : String
mac = "9a:02:57:1e:8f:01"

abbrev inputs : List Input
inputs =
    port_learn 10 "t2sw1" 1 mac 200 "192.168.0.1"
    ∷ radius_result mac (record { access = "ACCEPT"; segment = "SEG_A"; role = "" })
    ∷ port_learn 12 "t2sw2" 6 mac 200 ""
    ∷ port_learn 13 "t2sw2" 9 "9a:02:57:1e:8f:02" 200 ""
    ∷ port_expire "t2sw1" 1 mac
    ∷ []

calls :
    (feed_all setup inputs (create dps)).out
    ≡ placement (some mac) "t2sw1" 1 true
      ∷ learned_l2_port 1 "t2sw1" mac (some 200)
      ∷ report_port_learn "t2sw1" 1 mac 200
      ∷ placement (some mac) "t2sw2" 6 true
      ∷ learned_l2_port 6 "t2sw2" mac none
      ∷ report_port_learn "t2sw2" 6 mac 200
      ∷ learned_l2_port 0 "t2sw1" mac (some 200)
      ∷ []
unfolding feed_all Dict.lookup Dict.insert Dict.erase string_eq nat_eq
calls = refl
