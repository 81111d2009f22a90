-- ===== src/Port/Manager.antt =====
-- The methods of `PortStateManager` that handle behaviours, test results and timers. Two things come from outside: `vlan_of`, which is
-- `get_vlan_from_segment` of the device state manager, and `parse_time`, which stands for
-- `dateutil.parser.parse` with the local time zone and gives seconds, or nothing where the parser
-- raises `ParserError`. The clock is read once by a method: `now`.
pub mod Sound
pub mod Gone
pub mod Authenticate
use forch.Base.{
  ℕ, zero, suc, ◌+◌, ◌-◌, ◌%◌, String, Bool, true, false, not, ◌&&◌, ◌||◌, Option, none, some, List,
  [], ◌∷◌, leb, lower, truthy, string_eq, nat_eq, pair_eq, ◌==◌, if◌then◌else◌,
}
use forch.Base.Dict
use forch.Base.Dict.{Dict}
use forch.Base.Exec.{
  Exec, Result, ok, raised, assertion_error, attribute_error, pure, raise, modify, gets, when,
  ◌>>=◌, ◌>>◌,
}
use forch.Port.Types.{
  DvaState, initial, unauthenticated, sequestered, static_operational, dynamic_operational,
  infracted, operational, is_operational, Event, behavior, result, Behavior, unknown, authenticated,
  cleared, sequester, passed, failed, deauthenticated, manual_sequestered, ResultCode, pass, fail,
  AutoSequestering, enabled, is_enabled, is_given, DeviceBehavior, no_behavior, DevicePlacement,
}
use forch.Port.State.{
  Manager, Action, Effect, disconnect, Timer, TimerKind, sequester_timeout, scheduled_sequester,
  is_empty, present, process_device_placement, process_device_behavior, update_device_state_varz,
  update_static_vlan_varz, start, cancel, emit, drop_timer,
}
use forch.Port.Machine.{send, create_machine, behavior_of, is_static}

abbrev invalid_vlan : ℕ
invalid_vlan = 0

abbrev or_invalid : Option ℕ → ℕ
or_invalid none = invalid_vlan
or_invalid (some vlan) = vlan

abbrev pub put_static : String → DeviceBehavior → Manager → Manager
put_static mac b m = record m { static_behaviors = Dict.insert mac b m.static_behaviors }

abbrev pub put_dynamic : String → DeviceBehavior → Manager → Manager
put_dynamic mac b m = record m { dynamic_behaviors = Dict.insert mac b m.dynamic_behaviors }

-- `_auto_sequester.get(mac, self._default_auto_sequestering)`
abbrev pub auto_of : String → Manager → AutoSequestering
auto_of mac m = elim (Dict.lookup mac m.auto_sequester) [ none ↦ m.default_auto | some a ↦ a ]

-- The event that authentication sends to the machine.
abbrev pub port_behavior_of : String → Manager → Behavior
port_behavior_of mac m =
    if is_empty m.sequester_segment
    then cleared
    else if is_enabled (auto_of mac m)
    then sequester
    else cleared

-- `_handle_authenticated_device`
unfoldable pub handle_authenticated_device : String → DeviceBehavior → Bool → Action
handle_authenticated_device mac b static = do
  modify (if static then put_static mac b else put_dynamic mac b)
  event ← gets (port_behavior_of mac)
  send mac (behavior event)

abbrev pub pop_static : String → Manager → Manager
pop_static mac m = record m { static_behaviors = Dict.erase mac m.static_behaviors }

abbrev pub pop_dynamic : String → Manager → Manager
pop_dynamic mac m = record m { dynamic_behaviors = Dict.erase mac m.dynamic_behaviors }

-- The end of `_handle_deauthenticated_device`
unfoldable pub deauthenticate : String → Bool → Action
deauthenticate mac static = do
  send mac (behavior deauthenticated)
  modify (process_device_behavior mac no_behavior static)

-- `_handle_deauthenticated_device`. A dynamic behaviour that goes is of no matter to a device that
-- has a static one.
unfoldable pub handle_deauthenticated_device : String → Bool → Action
unfolding deauthenticate
handle_deauthenticated_device mac static = do
  modify (if static then pop_static mac else pop_dynamic mac)
  m ← gets (λ m. m)
  when ((static || not (is_static mac m)) && Dict.has mac m.state_machines)
      (deauthenticate mac static)

-- `_handle_disconnected_device`, with the address that it has popped. The result tells the caller
-- whether to propagate, and for which devices.
unfoldable pub disconnected :
    Option String → DevicePlacement → Exec Manager (Bool × Option String × Option String)
disconnected none placement = pure (false, none, none)
disconnected (some mac) placement = do
  modify (process_device_placement mac placement false)
  modify (λ m. record m { state_machines = Dict.erase mac m.state_machines })
  modify (update_device_state_varz mac initial)
  pure (true, some mac, none)

-- `_handle_disconnected_device`
unfoldable pub handle_disconnected_device :
    DevicePlacement → Exec Manager (Bool × Option String × Option String)
unfolding disconnected
handle_disconnected_device placement m =
    let key : String × ℕ = (placement.switch, placement.port) in
    disconnected (present (Dict.lookup key m.placement_to_mac)) placement
      (record m { placement_to_mac = Dict.erase key m.placement_to_mac })

-- `handler` of `_schedule_device_sequester`, started. The delay is the `seconds` of a `timedelta`,
-- which its days are no part of.
unfoldable pub schedule_at : String → ℕ → ℕ → Manager → Manager
schedule_at mac at now m =
    let timers = Dict.insert mac m.next_timer m.scheduled_timer in
    start scheduled_sequester mac ((at - now) % 86400) (record m { scheduled_timer = timers })

-- `_schedule_device_sequester`, with the time that it has parsed
unfoldable pub schedule_device_sequester : Option ℕ → String → ℕ → Action
unfolding schedule_at
schedule_device_sequester none mac now = pure tt
schedule_device_sequester (some at) mac now = when (leb now at) (modify (schedule_at mac at now))

-- `_scheduled_sequester_timer.pop(mac_lower, None)` and `cancel()`
unfoldable pub cancel_scheduled : String → Manager → Manager
cancel_scheduled mac m =
    let popped = record m { scheduled_timer = Dict.erase mac m.scheduled_timer } in
    elim (Dict.lookup mac m.scheduled_timer) [ none ↦ popped | some n ↦ cancel n popped ]

-- `_handle_session_result`
unfoldable pub handle_session_result : String → ResultCode → Action
handle_session_result mac code = send mac (result code)

-- The end of `handle_testing_result`, where the result is final.
unfoldable pub cancel_sequester : String → Manager → Manager
cancel_sequester mac m = elim (Dict.lookup mac m.sequester_timer) [
  | none ↦ m
  | some n ↦ record (cancel n m) { sequester_timer = Dict.erase mac m.sequester_timer }
]

-- `_transition_device_state` and the end of `handle_testing_result`, by the port behaviour that is
-- reported. The result tells whether it is final.
unfoldable pub testing_result : String → Behavior → Exec Manager Bool
unfolding handle_session_result cancel_sequester
testing_result mac passed = do
  handle_session_result mac pass
  modify (cancel_sequester mac)
  pure true
testing_result mac failed = do
  handle_session_result mac fail
  modify (cancel_sequester mac)
  pure true
testing_result mac _ = pure false

-- `handle_testing_result`, of the `device_mac_behaviors` of the result
unfoldable pub handle_testing_result : Dict String DeviceBehavior → Exec Manager Bool
unfolding testing_result
handle_testing_result ((mac, b) ∷ []) = testing_result (lower mac) b.port_behavior
handle_testing_result _ = raise assertion_error

-- `_handle_scheduled_sequstering`
unfoldable pub handle_scheduled_sequestering : String → Action
handle_scheduled_sequestering mac = do
  modify (λ m. record m { scheduled_timer = Dict.erase mac m.scheduled_timer })
  send mac (behavior manual_sequestered)

-- `self._device_state_reporter.disconnect(mac)`
unfoldable pub report_disconnect : String → Action
report_disconnect mac m =
    if m.has_reporter then (ok tt, emit (disconnect mac) m) else (raised attribute_error, m)

-- `_handle_sequestering_timeout`
unfoldable pub handle_sequestering_timeout : String → Action
unfolding handle_session_result report_disconnect
handle_sequestering_timeout mac = do
  modify (λ m. record m { sequester_timer = Dict.erase mac m.sequester_timer })
  handle_session_result mac fail
  report_disconnect mac

-- A timer that runs out is no longer running when its handler is called.
abbrev pub handler_of : TimerKind → String → Action
handler_of sequester_timeout mac = handle_sequestering_timeout mac
handler_of scheduled_sequester mac = handle_scheduled_sequestering mac

unfoldable pub fire : Timer → Action
unfolding handle_sequestering_timeout handle_scheduled_sequestering
fire t = do
  modify (λ m. record m { running = drop_timer t.number m.running })
  handler_of t.kind t.mac

module _ (vlan_of : String → Option ℕ) where
  -- `_get_vlan_from_segment`
  abbrev get_vlan_from_segment : Manager → String → ℕ
  get_vlan_from_segment m segment =
      if m.has_device_state_manager then or_invalid (vlan_of segment) else invalid_vlan

  -- `handle_device_behavior`
  unfoldable pub handle_device_behavior : String → DeviceBehavior → Bool → Action
  unfolding handle_authenticated_device handle_deauthenticated_device
  handle_device_behavior mac b static =
      if is_empty b.segment then handle_deauthenticated_device (lower mac) static else (do
        handle_authenticated_device (lower mac) b static
        when static (
            modify
              (λ m. update_static_vlan_varz (lower mac) (get_vlan_from_segment m b.segment) m)))

-- `self._auto_sequester[mac_lower] = auto_sequester`
unfoldable pub note_auto : String → DeviceBehavior → Manager → Manager
note_auto mac b m =
    let auto = if is_given b.auto_sequestering then b.auto_sequestering else m.default_auto in
    record m { auto_sequester = Dict.insert mac auto m.auto_sequester }

module _ (vlan_of : String → Option ℕ) (parse_time : String → Option ℕ) where
  -- `handle_static_device_behavior`
  unfoldable pub handle_static_device_behavior : String → DeviceBehavior → ℕ → Action
  unfolding note_auto handle_device_behavior cancel_scheduled schedule_device_sequester
  handle_static_device_behavior mac b now = do
    let mac_lower = lower mac
    modify (note_auto mac_lower b)
    when (not (is_empty b.segment)) (handle_device_behavior vlan_of mac_lower b true)
    modify (cancel_scheduled mac_lower)
    when (not (is_empty b.scheduled_timestamp))
        (schedule_device_sequester (parse_time b.scheduled_timestamp) mac_lower now)
