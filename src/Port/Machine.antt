-- ===== src/Port/Machine.antt =====
-- `PortStateMachine` and the state callbacks of `PortStateManager`, which its handlers call.
-- `state_machines` holds the state of each machine; the table is the class's, for all machines.
pub mod Quiet
pub mod Send
pub mod Timers
use forch.Base.{
  ℕ, zero, suc, ◌+◌, String, Bool, true, false, Option, none, some, List, [], ◌∷◌, ltb, or_else,
  is_some, lower, string_eq, if◌then◌else◌,
}
use forch.Base.Dict
use forch.Base.Exec.{
  Exec, ok, raised, assertion_error, attribute_error, type_error, pure, raise, modify, gets, ◌>>=◌,
  ◌>>◌,
}
use forch.Port.Types.{
  DvaState, initial, unauthenticated, sequestered, static_operational, dynamic_operational,
  infracted, operational, Event, behavior, result, Behavior, ResultCode, DeviceBehavior,
  no_behavior,
}
use forch.Port.Table.{Table, get, real, merge}
use forch.Port.State.{
  Manager, Action, sequester_timeout, process_device_behavior, update_device_state_varz, start,
}

-- `_static_device_behaviors.get(mac) or _dynamic_device_behaviors.get(mac)`
abbrev pub behavior_of : String → Manager → Option DeviceBehavior
behavior_of mac m =
    or_else (Dict.lookup mac m.static_behaviors) (Dict.lookup mac m.dynamic_behaviors)

abbrev pub is_static : String → Manager → Bool
is_static mac m = Dict.has mac m.static_behaviors

-- `_handle_unauthenticated_state`
unfoldable pub handle_unauthenticated_state : String → Action
handle_unauthenticated_state mac = modify (update_device_state_varz mac unauthenticated)

-- `_sequester_timer[mac.lower()]`, started
start_sequester_timer : String → ℕ → Manager → Manager
start_sequester_timer mac delay m =
    let timers = Dict.insert (lower mac) m.next_timer m.sequester_timer in
    start sequester_timeout (lower mac) delay (record m { sequester_timer = timers })

-- `if self._sequester_timeout > 0`, which raises on `None`
arm_sequester_timeout : String → Option ℕ → Action
unfolding start_sequester_timer
arm_sequester_timeout mac none = raise type_error
arm_sequester_timeout mac (some zero) = pure tt
arm_sequester_timeout mac (some (suc n)) = modify (start_sequester_timer mac (suc n))

-- The behaviour that a sequestered device is given in place of its own.
abbrev pub sequestered_behavior : Manager → DeviceBehavior → DeviceBehavior
sequestered_behavior m own = record no_behavior {
  segment = m.sequester_segment;
  assigned_segment = own.segment;
}

-- `_set_port_sequestered`, with the behaviour that it has looked up
sequester_with : String → Option DeviceBehavior → Action
unfolding arm_sequester_timeout
sequester_with mac none = raise attribute_error
sequester_with mac (some own) = do
  m ← gets (λ m. m)
  modify (process_device_behavior mac (sequestered_behavior m own) false)
  modify (update_device_state_varz mac sequestered)
  arm_sequester_timeout mac m.sequester_timeout_sec

set_port_sequestered : String → Action
unfolding sequester_with
set_port_sequestered mac m = sequester_with mac (behavior_of mac m) m

-- `_set_port_operational`, with the behaviour that it has looked up
operate_with : String → Option DeviceBehavior → Action
operate_with mac none = raise assertion_error
operate_with mac (some own) = do
  static ← gets (is_static mac)
  modify (process_device_behavior mac own static)
  modify (update_device_state_varz mac (if static then static_operational else dynamic_operational))

set_port_operational : String → Action
unfolding operate_with
set_port_operational mac m = operate_with mac (behavior_of mac m) m

-- `_handle_infracted_state`
handle_infracted_state : String → Action
handle_infracted_state mac = do
  static ← gets (is_static mac)
  modify (process_device_behavior mac no_behavior static)
  modify (update_device_state_varz mac infracted)

-- `_handle_current_state`: the handlers that are registered in `STATE_HANDLERS`.
unfoldable pub handle_state : DvaState → String → Action
unfolding handle_unauthenticated_state set_port_sequestered set_port_operational
    handle_infracted_state
handle_state unauthenticated mac = handle_unauthenticated_state mac
handle_state sequestered mac = set_port_sequestered mac
handle_state operational mac = set_port_operational mac
handle_state infracted mac = handle_infracted_state mac
handle_state _ mac = pure tt

-- The rest of `_transition`, with the next state that it has looked up.
unfoldable pub enter : String → Option DvaState → Action
unfolding handle_state
enter mac none = pure tt
enter mac (some next) = do
  modify (λ m. record m { state_machines = Dict.insert mac next m.state_machines })
  handle_state next mac

-- `_transition` of the machine of a device, from the state that the machine is in
unfoldable pub transition : String → DvaState → Event → Action
unfolding enter
transition mac state event m = enter mac (real (get m.transitions state event)) m

-- `self._state_machines[mac].handle_port_behavior(...)` or `.handle_session_result(...)`, if there
-- is a machine
unfoldable pub send : String → Event → Action
unfolding transition
send mac event m = elim (Dict.lookup mac m.state_machines) [
  | none ↦ (ok tt, m)
  | some state ↦ transition mac state event m
]

-- `PortStateMachine(mac, UNAUTHENTICATED, ...)`: overwrites, if there are any, are merged into the
-- table, and the handler of the first state runs before the machine is stored.
unfoldable pub create_machine : String → Action
unfolding handle_unauthenticated_state
create_machine mac = do
  modify (λ m. record m { transitions = merge m.transitions m.state_overwrites })
  handle_unauthenticated_state mac
  modify (λ m. record m { state_machines = Dict.insert mac unauthenticated m.state_machines })
