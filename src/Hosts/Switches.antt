-- ===== src/Hosts/Switches.antt =====
-- The states of switches and ports in `FaucetStateCollector` of forch/faucet_state_collector.py, the
-- clean-up of learned hosts, and all events that change hosts and switches: `Input` and `feed`.
use forch.Base.{
  ℕ, zero, suc, ◌+◌, String, Bool, false, not, ◌&&◌, Option, none, some, List, [], ◌∷◌, string_eq,
  nat_eq, option_eq, bool_eq, ◌==◌, if◌then◌else◌, truthy,
}
use forch.Base.Dict
use forch.Base.Dict.{Dict}
use forch.Base.Exec.{Exec, Result, ok, raised, pure, raise, modify, when, ◌>>◌, attribute_error}
use forch.Port.State.{is_empty}
use forch.Hosts.{
  Collector, Setup, Switch, PortState, Host, RadiusResult, placement, report_port_state,
  unconfigured_port_event, call, new_switch, or_new, no_config, update_learned_macs_metric,
  process_port_learn, process_port_expire, update_radius_result, port_type_of,
}
use forch.Hosts.Config.{
  Dps, Interface, PortType, is_access, get_port_attributes, fill_port_behavior,
}

-- The configuration of a port, with both `get`s
abbrev pub port_config : Dps → String → ℕ → Option Interface
port_config dps name port = elim (Dict.lookup name dps) [
  | none ↦ none
  | some dp ↦ elim (Dict.lookup port dp.interfaces) [ none ↦ none | some info ↦ info ]
]

abbrev pub changes : Option PortState → ℕ
changes none = 0
changes (some p) = p.change_count

abbrev pub note_port : ℕ → ℕ → Bool → Option Switch → Switch
note_port timestamp port state entry =
    let switch = or_new new_switch entry in
    record switch {
      ports =
          Dict.insert port
            (record {
              state_up = state;
              timestamp = timestamp;
              change_count = changes (Dict.lookup port switch.ports) + 1;
            })
            switch.ports;
    }

abbrev pub set_switch : String → (Option Switch → Switch) → Collector → Collector
set_switch name f s = record s {
  switch_states = Dict.insert name (f (Dict.lookup name s.switch_states)) s.switch_states;
}

-- `dp_id` and the count of an entry
abbrev pub configured : ℕ → Option Switch → Switch
configured dp_id entry =
    let switch = or_new new_switch entry in
    record switch { dp_id = dp_id; config_change_count = switch.config_change_count + 1 }

-- `process_dp_config_change`
unfoldable pub process_dp_config_change : String → ℕ → Exec Collector (Unit {0})
process_dp_config_change dp_name zero s = (ok tt, s)
process_dp_config_change dp_name (suc id) s = (ok tt, set_switch dp_name (configured (suc id)) s)

abbrev pub connect : ℕ → Bool → Option Switch → Switch
connect timestamp connected entry =
    let switch = or_new new_switch entry in
    if switch.switch_state == some connected then switch else record switch {
      switch_state = some connected;
      switch_state_last_change = timestamp;
      switch_state_change_count = switch.switch_state_change_count + 1;
    }

-- `process_dp_change`
unfoldable pub process_dp_change : ℕ → String → Bool → Exec Collector (Unit {0})
process_dp_change timestamp dp_name connected s =
    if is_empty dp_name
    then (ok tt, s)
    else (ok tt, set_switch dp_name (connect timestamp connected) s)

-- The loop of `_get_access_switch`
unfoldable pub access_switch : String → Dps → Dict String (ℕ × ℕ) → Result (Option (String × ℕ))
unfolding get_port_attributes
access_switch description dps [] = ok none
access_switch description dps ((switch, (port, time)) ∷ switches) =
    let rest = access_switch description dps switches in
    elim (get_port_attributes description dps switch port) [
      | raised e ↦ raised e
      | ok type ↦ if is_access type then ok (some (switch, port)) else rest
    ]

-- The events
pub data Input : Type 0 where
  port_learn : ℕ → String → ℕ → String → ℕ → String → Input
  port_expire : String → ℕ → String → Input
  port_change : ℕ → String → ℕ → Bool → String → Input
  dp_config_change : String → ℕ → Input
  dp_change : ℕ → String → Bool → Input
  dataplane_config_change : ℕ → Dps → Input
  radius_result : String → RadiusResult → Input
  restore : Input

module _ (setup : Setup) where
  abbrev unconfigured : String → ℕ → Exec Collector (Unit {0})
  unconfigured name port =
      if setup.has_metrics
      then modify (call (unconfigured_port_event name port))
      else raise attribute_error

  abbrev pub port_effects : String → ℕ → Bool → Result PortType → Exec Collector (Unit {0})
  port_effects name port state (raised e) s = (raised e, s)
  port_effects name port state (ok type) s =
      when (is_access type)
        (when (not state && setup.has_placement_callback)
            (modify (call (placement none name port false)))
          >> when setup.has_reporter (modify (call (report_port_state name port state))))
        s

  abbrev pub change_port : ℕ → String → ℕ → Bool → Option Interface → Exec Collector (Unit {0})
  change_port timestamp name port state none s = unconfigured name port s
  change_port timestamp name port state (some info) s =
      let t = set_switch name (note_port timestamp port state) s in
      port_effects name port state (port_type_of setup t name port) t

  -- `process_port_state`
  unfoldable pub process_port_state : ℕ → String → ℕ → Bool → Exec Collector (Unit {0})
  unfolding get_port_attributes
  process_port_state timestamp name port state s =
      change_port timestamp name port state (port_config s.dps name port) s

  -- `process_port_change`
  abbrev pub process_port_change : ℕ → String → ℕ → Bool → String → Exec Collector (Unit {0})
  process_port_change timestamp name port status reason =
      process_port_state timestamp name port (status && not (reason == "DELETE"))

  -- The metric of a host without the object of the metrics, which is not asked for here
  abbrev pub without_metrics : Result (Option ℕ) → Exec Collector (Unit {0})
  without_metrics (raised e) s = (raised e, s)
  without_metrics (ok vlan) s = (raised attribute_error, s)

  abbrev pub refresh_at : String → String → ℕ → Exec Collector (Unit {0})
  refresh_at mac switch port s =
      if setup.has_metrics
      then update_learned_macs_metric mac switch port port s
      else if no_config s.dps
      then (ok tt, s)
      else without_metrics (fill_port_behavior s.dps switch port) s

  abbrev pub refresh : String → Result (Option (String × ℕ)) → Exec Collector (Unit {0})
  refresh mac (raised e) s = (raised e, s)
  refresh mac (ok none) s = (ok tt, s)
  refresh mac (ok (some (switch, port))) s =
      when (not (is_empty switch) && truthy port) (refresh_at mac switch port) s

  -- `_update_learned_macs_metrics`, of the entries of `learned_macs`
  unfoldable pub update_learned_macs_metrics : Dict String Host → Exec Collector (Unit {0})
  unfolding access_switch fill_port_behavior
  update_learned_macs_metrics [] = pure tt
  update_learned_macs_metrics ((mac, host) ∷ hosts) =
      (λ s. refresh mac (access_switch setup.sequester_port_description s.dps host.switches) s)
      >> update_learned_macs_metrics hosts

  -- `process_dataplane_config_change`
  unfoldable pub process_dataplane_config_change : ℕ → Dps → Exec Collector (Unit {0})
  unfolding update_learned_macs_metrics
  process_dataplane_config_change timestamp dps s =
      update_learned_macs_metrics s.learned_macs (record s {
        dps = dps;
        dps_config_change_timestamp = timestamp;
        dps_config_change_count = s.dps_config_change_count + 1;
      })

  -- `_cleanup_learned_macs`, of the switches of an address
  unfoldable pub expire_switches : String → Dict String (ℕ × ℕ) → Exec Collector (Unit {0})
  unfolding process_port_expire
  expire_switches mac [] = pure tt
  expire_switches mac ((name, (port, time)) ∷ switches) =
      when (truthy port) (process_port_expire setup name port mac) >> expire_switches mac switches

  unfoldable pub expire_all : Dict String Host → Exec Collector (Unit {0})
  unfolding expire_switches
  expire_all [] = pure tt
  expire_all ((mac, host) ∷ hosts) = expire_switches mac host.switches >> expire_all hosts

  -- `_cleanup_learned_macs`
  abbrev pub cleanup_learned_macs : Exec Collector (Unit {0})
  cleanup_learned_macs s = expire_all s.learned_macs s

  unfoldable pub feed : Input → Exec Collector (Unit {0})
  unfolding process_port_learn process_port_expire process_port_state process_dp_config_change
      process_dp_change process_dataplane_config_change update_radius_result expire_all
  feed (port_learn timestamp name port mac vid ip) =
      process_port_learn setup timestamp name port mac vid ip
  feed (port_expire name port mac) = process_port_expire setup name port mac
  feed (port_change timestamp name port status reason) =
      process_port_change timestamp name port status reason
  feed (dp_config_change dp_name dp_id) = process_dp_config_change dp_name dp_id
  feed (dp_change timestamp dp_name connected) = process_dp_change timestamp dp_name connected
  feed (dataplane_config_change timestamp dps) = process_dataplane_config_change timestamp dps
  feed (radius_result mac result) = update_radius_result mac result
  feed restore = cleanup_learned_macs

  -- Events one after the other; one that raises leaves the state in which it stopped.
  unfoldable pub feed_all : List Input → Collector → Collector
  unfolding feed
  feed_all [] s = s
  feed_all (i ∷ inputs) s = feed_all inputs (feed i s).1
