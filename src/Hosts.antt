-- ===== src/Hosts.antt =====
-- Learned hosts and the switches in `FaucetStateCollector` of forch/faucet_state_collector.py, which
-- the orchestrator calls for the events of Faucet. A table of addresses of a switch that was never
-- learned at is `none`. Times are numbers of seconds in place of their ISO texts.
pub mod Config
pub mod Switches
pub mod Sound
mod Tests
use forch.Base.{
  ℕ, zero, suc, ◌+◌, String, Bool, true, false, not, ◌&&◌, ◌||◌, Option, none, some, List, [], ◌∷◌,
  ◌++◌, contains, string_eq, nat_eq, ◌==◌, if◌then◌else◌, is_some, truthy,
}
use forch.Base.Dict
use forch.Base.Dict.{Dict}
use forch.Base.Exec.{
  Exec, Result, ok, raised, pure, raise, modify, when, gets, ◌>>=◌, ◌>>◌, assertion_error,
  key_error,
}
use forch.Port.State.{is_empty}
use forch.Hosts.Config.{Dps, PortType, is_access, get_port_attributes, fill_port_behavior}

pub record RadiusResult : Type 0 where
  pub access : String
  pub segment : String
  pub role : String

-- An entry of `learned_macs`: its addresses, and its port and time at each switch
pub record Host : Type 0 where
  pub ip_address : List String
  pub switches : Dict String (ℕ × ℕ)
  pub radius_result : Option RadiusResult

pub record PortState : Type 0 where
  pub state_up : Bool
  pub timestamp : ℕ
  pub change_count : ℕ

-- An entry of `switch_states`
pub record Switch : Type 0 where
  pub learned_macs : Option (List String)
  pub ports : Dict ℕ PortState
  pub dp_id : ℕ
  pub config_change_count : ℕ
  pub switch_state : Option Bool
  pub switch_state_last_change : ℕ
  pub switch_state_change_count : ℕ

-- The calls of the orchestrator's placements, of the device state reporter, and of the metrics
pub data Call : Type 0 where
  placement : Option String → String → ℕ → Bool → Call
  report_port_state : String → ℕ → Bool → Call
  report_port_learn : String → ℕ → String → ℕ → Call
  learned_l2_port : ℕ → String → String → Option ℕ → Call
  unconfigured_port_event : String → ℕ → Call

pub record Collector : Type 0 where
  pub dps : Dps
  pub dps_config_change_count : ℕ
  pub dps_config_change_timestamp : ℕ
  pub switch_states : Dict String Switch
  pub learned_macs : Dict String Host
  pub radius_results : Dict String RadiusResult
  pub out : List Call

-- What is set once: which of the callbacks there are, and the description of ports for sequestering
pub record Setup : Type 0 where
  pub has_placement_callback : Bool
  pub has_metrics : Bool
  pub has_reporter : Bool
  pub sequester_port_description : String

abbrev pub create : Dps → Collector
create dps = record {
  dps = dps;
  dps_config_change_count = 0;
  dps_config_change_timestamp = 0;
  switch_states = [];
  learned_macs = [];
  radius_results = [];
  out = [];
}

abbrev pub call : Call → Collector → Collector
call c s = record s { out = s.out ++ (c ∷ []) }

abbrev pub new_switch : Switch
new_switch = record {
  learned_macs = none;
  ports = [];
  dp_id = 0;
  config_change_count = 0;
  switch_state = none;
  switch_state_last_change = 0;
  switch_state_change_count = 0;
}

abbrev pub new_host : Host
new_host = record { ip_address = []; switches = []; radius_result = none }

-- `setdefault`
abbrev pub or_new : {A : Type 0} → A → Option A → A
or_new new none = new
or_new new (some a) = a

-- `set.add`
abbrev pub add : String → List String → List String
add a xs = if contains xs a then xs else xs ++ (a ∷ [])

abbrev pub add_ip : String → List String → List String
add_ip ip ips = if is_empty ip then ips else add ip ips

-- `set.remove`
abbrev pub discard : String → List String → List String
discard a [] = []
discard a (x ∷ xs) = let rest = discard a xs in if a == x then rest else x ∷ rest

-- The entry of an address that is learned at a port of a switch
abbrev pub learn_host : ℕ → String → ℕ → String → Option Host → Host
learn_host timestamp name port ip entry =
    let host = or_new new_host entry in
    record host {
      ip_address = add_ip ip host.ip_address;
      switches = Dict.insert name (port, timestamp) host.switches;
    }

abbrev pub learn_at : String → Option Switch → Switch
learn_at mac entry =
    let switch = or_new new_switch entry in
    record switch { learned_macs = some (add mac (or_new [] switch.learned_macs)) }

-- The start of `process_port_learn`
abbrev pub learn_entry : ℕ → String → ℕ → String → String → Collector → Collector
learn_entry timestamp name port mac ip s = record s {
  learned_macs =
      Dict.insert mac (learn_host timestamp name port ip (Dict.lookup mac s.learned_macs))
        s.learned_macs;
  switch_states =
      Dict.insert name (learn_at mac (Dict.lookup name s.switch_states)) s.switch_states;
}

-- `host[MAC_RADIUS_RESULT] = result`, of the entry of an address
abbrev pub with_radius : String → RadiusResult → Option Host → Dict String Host → Dict String Host
with_radius mac result none hosts = hosts
with_radius mac result (some host) hosts =
    Dict.insert mac (record host { radius_result = some result }) hosts

abbrev pub has_radius : Option Host → Bool
has_radius none = false
has_radius (some host) = is_some host.radius_result

abbrev pub note_radius : String → Option RadiusResult → Exec Collector (Unit {0})
note_radius mac none s =
    if has_radius (Dict.lookup mac s.learned_macs) then (raised assertion_error, s) else (ok tt, s)
note_radius mac (some result) s = (
  ok tt,
  record s {
    learned_macs = with_radius mac result (Dict.lookup mac s.learned_macs) s.learned_macs;
  },
)

abbrev pub no_config : Dps → Bool
no_config [] = true
no_config (_ ∷ _) = false

abbrev pub count_learned : String → String → ℕ → Result (Option ℕ) → Exec Collector (Unit {0})
count_learned mac name port (raised e) s = (raised e, s)
count_learned mac name port (ok vlan) s = (ok tt, call (learned_l2_port port name mac vlan) s)

-- `_update_learned_macs_metric`, for the port that it writes
abbrev pub update_learned_macs_metric : String → String → ℕ → ℕ → Exec Collector (Unit {0})
update_learned_macs_metric mac name port written s =
    if no_config s.dps
    then (ok tt, s)
    else count_learned mac name written (fill_port_behavior s.dps name port) s

-- `INVALID_VLAN`
abbrev pub invalid_vlan : ℕ
invalid_vlan = 0

abbrev pub table_of : Option Switch → Option (List String)
table_of none = none
table_of (some switch) = switch.learned_macs

-- The entry of an address with the switches that are left, which goes with the last of them
abbrev pub drop_switch : String → Host → Dict String (ℕ × ℕ) → Dict String Host → Dict String Host
drop_switch mac host [] hosts = Dict.erase mac hosts
drop_switch mac host (at ∷ more) hosts =
    Dict.insert mac (record host { switches = at ∷ more }) hosts

abbrev pub forget_host : String → String → Option Host → Dict String Host → Dict String Host
forget_host name mac none hosts = hosts
forget_host name mac (some host) hosts =
    if Dict.has name host.switches
    then drop_switch mac host (Dict.erase name host.switches) hosts
    else hosts

abbrev pub leave : String → Option Switch → Option (List String) → Switch
leave mac entry table = record (or_new new_switch entry) {
  learned_macs = some (discard mac (or_new [] table));
}

-- The end of `process_port_expire`, for the table of the switch
abbrev pub forget : String → String → Option (List String) → Exec Collector (Unit {0})
forget name mac none s = (raised key_error, s)
forget name mac (some table) s = (
  ok tt,
  record s {
    switch_states =
        Dict.insert name (leave mac (Dict.lookup name s.switch_states) (some table))
          s.switch_states;
    learned_macs = forget_host name mac (Dict.lookup mac s.learned_macs) s.learned_macs;
  },
)

abbrev pub forget_at : String → String → Exec Collector (Unit {0})
forget_at name mac s = forget name mac (table_of (Dict.lookup name s.switch_states)) s

-- `update_radius_result`
unfoldable pub update_radius_result : String → RadiusResult → Exec Collector (Unit {0})
update_radius_result mac result s = (
  ok tt,
  record s {
    radius_results = Dict.insert mac result s.radius_results;
    learned_macs = with_radius mac result (Dict.lookup mac s.learned_macs) s.learned_macs;
  },
)

module _ (setup : Setup) where
  abbrev port_type_of : Collector → String → ℕ → Result PortType
  port_type_of s = get_port_attributes setup.sequester_port_description s.dps

  abbrev pub learned_placement : String → String → ℕ → Exec Collector (Unit {0})
  learned_placement mac name port =
      when setup.has_placement_callback (modify (call (placement (some mac) name port true)))

  abbrev pub learned_metric : String → String → ℕ → Exec Collector (Unit {0})
  learned_metric mac name port =
      when setup.has_metrics (update_learned_macs_metric mac name port port)

  abbrev pub learned_report : String → ℕ → String → ℕ → Exec Collector (Unit {0})
  learned_report name port mac vid =
      when (setup.has_reporter && truthy vid && not (vid == invalid_vlan))
        (modify (call (report_port_learn name port mac vid)))

  -- What `process_port_learn` does for a port to which devices are connected
  abbrev pub learned_at_access : String → ℕ → String → ℕ → Exec Collector (Unit {0})
  learned_at_access name port mac vid =
      learned_placement mac name port
      >> learned_metric mac name port
      >> learned_report name port mac vid

  abbrev pub learned_of_type : String → ℕ → String → ℕ → PortType → Exec Collector (Unit {0})
  learned_of_type name port mac vid type s =
      (note_radius mac (Dict.lookup mac s.radius_results)
          >> when (is_access type) (learned_at_access name port mac vid))
        s

  abbrev pub learned : String → ℕ → String → ℕ → Result PortType → Exec Collector (Unit {0})
  learned name port mac vid (raised e) s = (raised e, s)
  learned name port mac vid (ok type) s = learned_of_type name port mac vid type s

  -- `process_port_learn`
  unfoldable pub process_port_learn :
      ℕ → String → ℕ → String → ℕ → String → Exec Collector (Unit {0})
  unfolding get_port_attributes fill_port_behavior
  process_port_learn timestamp name port mac vid ip s =
      let t = learn_entry timestamp name port mac ip s in
      learned name port mac vid (port_type_of t name port) t

  abbrev pub forget_metric : String → ℕ → String → PortType → Exec Collector (Unit {0})
  forget_metric name port mac type =
      when (is_access type && setup.has_metrics) (update_learned_macs_metric mac name port 0)

  abbrev pub expired : String → ℕ → String → Result PortType → Exec Collector (Unit {0})
  expired name port mac (raised e) s = (raised e, s)
  expired name port mac (ok type) s = (forget_metric name port mac type >> forget_at name mac) s

  -- `process_port_expire`
  unfoldable pub process_port_expire : String → ℕ → String → Exec Collector (Unit {0})
  unfolding get_port_attributes fill_port_behavior
  process_port_expire name port mac s = expired name port mac (port_type_of s name port) s
