-- ===== src/Faucetize/Tests.antt =====
-- Two access ports with one device, and rules in two files.
use forch.Base.{
  ℕ, ◌≡◌, refl, ap, ◌≢◌, true, false, ◌&&◌, none, some, List, [], ◌∷◌, string_eq, nat_eq, pair_eq,
  arith,
}
use forch.Base.Dict
use forch.Base.Dict.{Dict}
use forch.Base.Exec.{raised, attribute_error}
use forch.Port.Types.{no_behavior, unauthenticated, dynamic_operational}
use forch.Vlans
use forch.Vlans.{Faucetizer}
use forch.Faucetize.{Device, port_of, update_ports_config}
use forch.Faucetize.Config
use forch.Faucetize.Config.{Port, PortConfig, Site, Acls}
use forch.Faucetize.Rounds.{IsUnauthenticated, update_ports_config-IsUnauthenticated}
use forch.Faucetize.Cookies.{AclsConfig, Lists, Files, reload_all, process_structural_config}
use forch.Faucetize.Cookies.Distinct.{IsNumbered, reload_all-process_structural_config}

abbrev site : Site
site = record {
  unauthenticated_vlan = 100;
  tail_acl = "";
  port_description = [];
  has_orchestration_manager = false;
}

abbrev faucetizer : Faucetizer
faucetizer = record {
  sequester_segment = "TESTING";
  segments_to_vlans = ("SEG_A", 200) ∷ [];
  all_testing_vlans = 272 ∷ [];
  testing_device_vlans = [];
}

abbrev access_port : PortConfig
access_port = record {
  description = 72 ∷ 79 ∷ 83 ∷ 84 ∷ [];
  stack = false;
  lacp = false;
  output_only = false;
  tagged_vlans = none;
  native_vlan = none;
  acls_in = none;
  has_more = false;
}

abbrev ports : Dict Port PortConfig
ports = (("t2sw1", 1), access_port) ∷ (("t2sw1", 2), access_port) ∷ []

abbrev device : Device
device = record {
  mac = "9a:02:57:1e:8f:01";
  static = false;
  placement = record { switch = "t2sw1"; port = 1; connected = true };
  behavior = record no_behavior { segment = "SEG_A"; role = "red" };
}

abbrev acls : Acls
acls = ("acls.yaml", "role_red" ∷ []) ∷ []

abbrev first : List ℕ → ℕ
first vlans = 0

abbrev placed : Dict Port PortConfig
placed =
    (("t2sw1", 1), record access_port { native_vlan = some 200; acls_in = some ("role_red" ∷ []) })
    ∷ (("t2sw1", 2), record access_port { native_vlan = some 100 })
    ∷ []

round :
    (update_ports_config site acls faucetizer (some []) first (device ∷ []) ports []).1.ports
    ≡ placed
unfolding update_ports_config Dict.lookup Dict.insert Dict.values string_eq nat_eq pair_eq
    Vlans.calculate_vlan_id
round = refl

states :
    (update_ports_config site acls faucetizer (some []) first (device ∷ []) ports []).1.vlan_states
    ≡ (("t2sw1", 1), dynamic_operational) ∷ (("t2sw1", 2), unauthenticated) ∷ []
unfolding update_ports_config Dict.lookup Dict.insert string_eq nat_eq pair_eq
    Vlans.calculate_vlan_id
states = refl

-- Before the first configuration is made there is none to look an old VLAN up in.
first_round :
    (update_ports_config site acls faucetizer none first (device ∷ []) ports []).0
    ≡ raised attribute_error
unfolding update_ports_config Dict.lookup string_eq nat_eq pair_eq Vlans.calculate_vlan_id
first_round = refl

ports-NodupKeys : Dict.NodupKeys ports
unfolding Dict.lookup
ports-NodupKeys = ground arith

second_port : Dict.lookup ("t2sw1", 2) ports ≡ some access_port
unfolding Dict.lookup string_eq nat_eq pair_eq
second_port = refl

is_initialized : Config.is_access (Config.get_port_type site access_port) && true ≡ true
unfolding Config.get_port_type nat_eq
is_initialized = refl

away : ("t2sw1", 2) ≢ port_of device
away e = ground (arith, ap (λ (k : Port). k.1) e)

update_ports_config-IsUnauthenticated_example :
    IsUnauthenticated site
      ("t2sw1", 2)
      (update_ports_config site acls faucetizer (some []) first (device ∷ []) ports []).1
update_ports_config-IsUnauthenticated_example =
    update_ports_config-IsUnauthenticated site acls faucetizer (some []) first ("t2sw1", 2)
      access_port (device ∷ []) ports [] ports-NodupKeys second_port is_initialized (away, tt)

abbrev lists : AclsConfig
lists =
    (
      "acl",
      record { has_rule = true; cookie = none; text = "allow" }
          ∷ record { has_rule = true; cookie = none; text = "deny" }
          ∷ [],
    )
    ∷ []

abbrev empty : Lists
empty = record { next_cookie = 0; acl_configs = [] }

abbrev includes : Files
includes = ("uniform.yaml", some (some lists)) ∷ []

numbered :
    (reload_all includes
      (process_structural_config "faucet.yaml" includes (some lists) empty).1).1.next_cookie
    ≡ 7
unfolding reload_all process_structural_config Dict.insert string_eq
numbered = refl

reload_all-process_structural_config_example :
    IsNumbered
      (reload_all includes
        (process_structural_config "faucet.yaml" includes (some lists) empty).1).1
reload_all-process_structural_config_example =
    reload_all-process_structural_config "faucet.yaml" includes (some lists) includes empty
