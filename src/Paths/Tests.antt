-- ===== src/Paths/Tests.antt =====
-- Two switches with a link to each other, of which one is the root, and a loop of two others.
use forch.Base.{
  ◌≡◌, refl, ◌≢◌, some, none, true, false, List, [], ◌∷◌, string_eq, nat_eq, pair_eq, list_eq,
}
use forch.Base.Dict
use forch.Base.Exec.{key_error}
use forch.Hosts.{PortState, new_switch}
use forch.Hosts.Config.{Dp}
use forch.Paths.{
  raised_error, Hop, Topology, healthy_path, broken_path, unfinished, get_switch_egress_path,
  first_hop,
}
use forch.Paths.Ends.{get_switch_egress_path-returns}
use forch.Paths.Routes.{IsRoute, get_switch_egress_path-IsRoute}

abbrev root_dp : Dp
root_dp = record {
  interfaces =
      (9, some (record { description = ""; stack = some ("t2sw1", 24); lacp = false }))
      ∷ (28, some (record { description = ""; stack = none; lacp = true }))
      ∷ [];
  interface_ranges = [];
  ports = [];
}

abbrev port_up : PortState
port_up = record { state_up = true; timestamp = 1; change_count = 1 }

abbrev topology : Topology
topology = record {
  dps = ("t1sw1", 0) ∷ ("t2sw1", 24) ∷ ("t2sw2", 4) ∷ ("t2sw3", 5) ∷ [];
  links =
      record { sw_1 = "t1sw1"; port_1 = 9; sw_2 = "t2sw1"; port_2 = 24 }
      ∷ record { sw_1 = "t2sw2"; port_1 = 4; sw_2 = "t2sw3"; port_2 = 5 }
      ∷ [];
  root = "t1sw1";
  is_message = true;
  sequester_port_description = "TAP";
  dps_config = ("t1sw1", root_dp) ∷ [];
  switch_states = ("t1sw1", record new_switch { ports = (9, port_up) ∷ (28, port_up) ∷ [] }) ∷ [];
}

abbrev path : List Hop
path =
    record { switch = "t2sw1"; in_port = some 1; out_port = some 24 }
    ∷ record { switch = "t1sw1"; in_port = some 9; out_port = some 28 }
    ∷ []

found : get_switch_egress_path topology "t2sw1" 1 ≡ healthy_path path
unfolding get_switch_egress_path Dict.lookup string_eq nat_eq pair_eq list_eq
found = refl

loops :
    get_switch_egress_path topology "t2sw2" 0
    ≡ broken_path "No path to root found. Loop in topology."
unfolding get_switch_egress_path Dict.lookup string_eq nat_eq pair_eq list_eq
loops = refl

-- A switch that the message does not name has no port to the root.
unknown :
    get_switch_egress_path topology "t2sw9" 1
    ≡ broken_path "No path to root found. Root absent in topology."
unfolding get_switch_egress_path Dict.lookup string_eq nat_eq pair_eq list_eq
unknown = refl

unknown_after_restoration :
    get_switch_egress_path (record topology { is_message = false }) "t2sw9" 1
    ≡ raised_error key_error
unfolding get_switch_egress_path Dict.lookup string_eq nat_eq pair_eq list_eq
unknown_after_restoration = refl

get_switch_egress_path-returns_example : get_switch_egress_path topology "t2sw2" 0 ≢ unfinished
get_switch_egress_path-returns_example = get_switch_egress_path-returns topology "t2sw2" 0

get_switch_egress_path-IsRoute_example : IsRoute topology (first_hop "t2sw1" 1) path
get_switch_egress_path-IsRoute_example =
    get_switch_egress_path-IsRoute topology "t2sw1" 1 path found
