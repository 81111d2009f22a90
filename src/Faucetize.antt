-- ===== src/Faucetize.antt =====
-- The behavioural configuration that `Faucetizer` of forch/faucetizer.py writes: the ports of the
-- switches and the VLANs of the devices on them. A port is named by its switch and its number: the
-- interfaces of all switches are one dict, in their order. Of the
-- keys of a port that the code neither reads nor writes, only whether there are any is kept.
pub mod Config
pub mod Ports
pub mod Rounds
pub mod Cookies
mod Tests
use forch.Base.{
  ℕ, zero, suc, String, ◌<>◌, Bool, true, false, not, ◌&&◌, ◌||◌, Option, none, some, List, [], ◌∷◌,
  ◌++◌, contains, truthy, is_some, string_eq, nat_eq, pair_eq, option_eq, ◌==◌, if◌then◌else◌,
}
use forch.Base.Dict
use forch.Base.Dict.{Dict}
use forch.Base.Exec.{Exec, Result, ok, raised, pure, attribute_error, unbound_local_error, ◌>>◌}
use forch.Collectors.Cpn.{Text}
use forch.Port.Types.{
  DvaState, DeviceBehavior, DevicePlacement, static_operational, sequestered, dynamic_operational,
}
use forch.Vlans
use forch.Vlans.{Faucetizer, Round}
use forch.Faucetize.Config.{
  Port, PortConfig, PortType, testing, access, other, Site, Acls, get_port_type, is_access,
  initialize_ports, initialize_states, has_acl, update_port_config, extend_tagged, append_acl,
  finalize_ports,
}

-- A device that has a behaviour: its address, its type, its place and its behaviour
pub record Device : Type 0 where
  pub mac : String
  pub static : Bool
  pub placement : DevicePlacement
  pub behavior : DeviceBehavior

-- `update_device_testing_vlans` of the orchestration manager
pub data Call : Type 0 where
  update_device_testing_vlans : String → ℕ → Option ℕ → Call

-- What a round changes: the VLANs for tests, the ports, the states, the assigned VLANs, the calls
pub record Placing : Type 0 where
  pub vlans : Round
  pub ports : Dict Port PortConfig
  pub vlan_states : Dict Port DvaState
  pub assigned_vlans : List ℕ
  pub out : List Call

-- `_update_device_dva_state`: `dva_state` is not bound if no branch is taken.
abbrev pub dva_state_of : Faucetizer → Device → Option DvaState
dva_state_of f d =
    if d.static
    then some static_operational
    else if d.behavior.segment == f.sequester_segment
    then some sequestered
    else if Dict.has d.behavior.segment f.segments_to_vlans
    then some dynamic_operational
    else none

abbrev pub port_of : Device → Port
port_of d = (d.placement.switch, d.placement.port)

-- `assigned_vlans.add`
abbrev pub add_assigned : Option ℕ → List ℕ → List ℕ
add_assigned none vlans = vlans
add_assigned (some v) vlans = if not (truthy v) || contains vlans v then vlans else v ∷ vlans

-- The call of the orchestration manager
abbrev pub report_vlan : Site → Option ℕ → Device → ℕ → Option ℕ → DvaState → List Call
report_vlan site old d vlan assigned sequestered =
    if not (some vlan == old) && site.has_orchestration_manager
    then update_device_testing_vlans d.mac vlan assigned ∷ []
    else []
report_vlan site old d vlan assigned _ = []

-- `not port_cfg`: a port without any key
abbrev pub is_empty_text : Text → Bool
is_empty_text [] = true
is_empty_text _ = false

abbrev pub is_blank : PortConfig → Bool
is_blank p =
    is_empty_text p.description
    && not (p.stack || p.lacp || p.output_only || p.has_more)
    && not (is_some p.tagged_vlans || is_some p.native_vlan || is_some p.acls_in)

-- The native VLAN of a port in the configuration that was made last
abbrev pub get_faucet_config_vlan : Dict Port PortConfig → Port → Option ℕ
get_faucet_config_vlan ports port = elim (Dict.lookup port ports) [
  | none ↦ none
  | some p ↦ p.native_vlan
]

module _ (site : Site) (acls : Acls) (f : Faucetizer) (old : Option (Dict Port PortConfig)) where
  -- The state of a device's port, and what is reported of it
  abbrev pub note_state :
      Option DvaState → Option ℕ → Device → ℕ → Option ℕ → Exec Placing (Unit {0})
  note_state none last d vlan assigned s = (raised unbound_local_error, s)
  note_state (some state) last d vlan assigned s = (
    ok tt,
    record s {
      vlan_states = Dict.insert (port_of d) state s.vlan_states;
      out = s.out ++ report_vlan site last d vlan assigned state;
    },
  )

  -- A device that is given a VLAN, for the configuration that was made last: before the first there
  -- is `None`, which has no ports to look up.
  abbrev pub place_in :
      Option (Dict Port PortConfig) → Device → PortConfig → ℕ → Option ℕ → Exec Placing (Unit {0})
  place_in none d p vlan assigned s = (raised attribute_error, s)
  place_in (some last) d p vlan assigned s =
      note_state (dva_state_of f d) (get_faucet_config_vlan last (port_of d)) d vlan assigned
        (record s {
          ports = Dict.insert (port_of d) (update_port_config acls vlan d.behavior.role p) s.ports;
          assigned_vlans = add_assigned assigned s.assigned_vlans;
        })

  -- A device whose port has a configuration, for the VLANs that it is given
  abbrev pub place_with : Device → PortConfig → Option ℕ × Option ℕ → Exec Placing (Unit {0})
  place_with d p (none, assigned) s = (ok tt, s)
  place_with d p (some zero, assigned) s = (ok tt, s)
  place_with d p (some (suc v), assigned) s = place_in old d p (suc v) assigned s

  abbrev pub placed_by :
      Device → PortConfig → Result (Option ℕ × Option ℕ) × Round → Exec Placing (Unit {0})
  placed_by d p (raised e, round) s = (raised e, record s { vlans = round })
  placed_by d p (ok given, round) s = place_with d p given (record s { vlans = round })

  module _ (pick : List ℕ → ℕ) where
    -- A turn of the loop of `_update_ports_config`
    unfoldable pub place_device : Device → Exec Placing (Unit {0})
    unfolding update_port_config
    place_device d s = elim (Dict.lookup (port_of d) s.ports) [
      | none ↦ (ok tt, s)
      | some p ↦
          if is_blank p
          then (ok tt, s)
          else placed_by d p (Vlans.calculate_vlan_id pick d.mac d.behavior f s.vlans) s
    ]

    unfoldable pub place_all : List Device → Exec Placing (Unit {0})
    unfolding place_device
    place_all [] = pure tt
    place_all (d ∷ devices) = place_device d >> place_all devices

abbrev pub start :
    (List ℕ → ℕ) → Site → Faucetizer → Dict Port PortConfig → Dict Port DvaState → Placing
start pick site f ports states = record {
  vlans = Vlans.start_round pick f;
  ports = initialize_ports site ports;
  vlan_states = initialize_states site ports states;
  assigned_vlans = [];
  out = [];
}

-- `_finalize_host_ports_config`, of what the loop has left
abbrev pub finalize : Site → Acls → Placing → Placing
finalize site acls s = record s {
  ports =
      finalize_ports site acls (Dict.values s.vlans.new_testing_device_vlans) s.assigned_vlans
        s.ports;
}

abbrev pub finish : Site → Acls → Result (Unit {0}) × Placing → Result (Unit {0}) × Placing
finish site acls (ok _, s) = (ok tt, finalize site acls s)
finish site acls (raised e, s) = (raised e, s)

-- `_update_ports_config`, of the ports of the structural configuration
unfoldable pub update_ports_config :
    Site
    → Acls
    → Faucetizer
    → Option (Dict Port PortConfig)
    → (List ℕ → ℕ)
    → List Device
    → Dict Port PortConfig
    → Dict Port DvaState
    → Result (Unit {0}) × Placing
unfolding initialize_ports initialize_states finalize_ports place_all
update_ports_config site acls f old pick devices ports states =
    finish site acls (place_all site acls f old pick devices (start pick site f ports states))
