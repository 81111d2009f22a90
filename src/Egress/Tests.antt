-- ===== src/Egress/Tests.antt =====
-- Two egress links, of which one is active and the other goes down.
use forch.Base.{◌≡◌, refl, true, none, some, List, [], ◌∷◌, string_eq, nat_eq, pair_eq, option_eq}
use forch.Base.Dict
use forch.Collectors.States.{damaged}
use forch.Hosts.Config.{Dp, Dps, Interface}
use forch.Egress.{Egress, create, LacpRole, LacpState, active_link, link_state_eq}
use forch.Egress.States.Runs.{LagState, process_all}

abbrev lacp_port : Interface
lacp_port = record { description = "EGRESS"; stack = none; lacp = true }

abbrev dp : Dp
dp = record { interfaces = (28, some lacp_port) ∷ []; interface_ranges = []; ports = [] }

abbrev dps : Dps
dps = ("t1sw1", dp) ∷ ("t1sw2", dp) ∷ []

abbrev events : List LagState
events =
    record {
      timestamp = 5;
      name = "t1sw1";
      port = 28;
      lacp_role = LacpRole.selected;
      lacp_state = LacpState.active;
    }
    ∷ record {
      timestamp = 6;
      name = "t1sw2";
      port = 28;
      lacp_role = LacpRole.unselected;
      lacp_state = LacpState.noact;
    }
    ∷ record {
      timestamp = 7;
      name = "t1sw2";
      port = 28;
      lacp_role = LacpRole.unselected;
      lacp_state = LacpState.init;
    }
    ∷ record {
      timestamp = 8;
      name = "t1sw9";
      port = 1;
      lacp_role = LacpRole.selected;
      lacp_state = LacpState.active;
    }
    ∷ []

abbrev egress : Egress
egress = process_all "" dps events (create 1)

is_damaged : egress.state ≡ some damaged
unfolding process_all Dict.lookup Dict.insert string_eq nat_eq pair_eq link_state_eq
is_damaged = refl

names_both : egress.detail ≡ some (active_link (some ("t1sw1", 28)) (some ("t1sw2", 28)))
unfolding process_all Dict.lookup Dict.insert string_eq nat_eq pair_eq link_state_eq
names_both = refl

counts : egress.change_count ≡ 3
unfolding process_all Dict.lookup Dict.insert string_eq nat_eq pair_eq link_state_eq option_eq
counts = refl
