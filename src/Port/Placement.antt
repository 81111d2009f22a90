-- ===== src/Port/Placement.antt =====
-- The methods of `PortStateManager` that handle placements, clear static behaviours and report
-- states, and its constructor.
use forch.Base.{
  ℕ, String, Bool, true, false, not, Option, none, some, List, [], ◌∷◌, lower, truthy, string_eq,
  pair_eq, nat_eq, ◌==◌, if◌then◌else◌,
}
use forch.Base.Dict
use forch.Base.Dict.{Dict}
use forch.Base.Exec.{Exec, pure, modify, gets, when, ◌>>=◌, ◌>>◌}
use forch.Port.Types.{
  DvaState, initial, unauthenticated, sequestered, static_operational, dynamic_operational,
  operational, ResultCode, result, result_type, AutoSequestering, disabled, is_given,
  DeviceBehavior, DevicePlacement, event_eq,
}
use forch.Port.Table.{Table, Targets, transitions}
use forch.Port.State.{Manager, Action, present, process_device_placement, update_static_vlan_varz}
use forch.Port.Machine.{create_machine, behavior_of, is_static}
use forch.Port.Manager.{
  handle_device_behavior, handle_deauthenticated_device, handle_disconnected_device,
}

-- `SequesterConfig`, as far as the manager reads it. A negative timeout is 0, which disables too.
pub record SequesterConfig : Type 0 where
  pub segment : String
  pub timeout_sec : ℕ
  pub auto_sequestering : AutoSequestering
  pub test_result_device_states : List (ResultCode × DvaState)

-- `OrchestrationConfig`, as far as the manager reads it.
pub record OrchConfig : Type 0 where
  pub unauthenticated_vlan : ℕ
  pub sequester_config : Option SequesterConfig

-- `dict(dict_maps)`
unfoldable pub targets_of : List (ResultCode × DvaState) → Targets → Targets
targets_of [] targets = targets
targets_of ((code, state) ∷ entries) targets =
    targets_of entries (Dict.insert (result code) state targets)

-- The overwrites that `__init__` builds.
unfoldable pub overwrites_of : List (ResultCode × DvaState) → Table
unfolding targets_of
overwrites_of [] = []
overwrites_of entries = (sequestered, (result_type, targets_of entries []) ∷ []) ∷ []

module _ (has_device_state_manager has_varz_updater has_reporter : Bool) where
  bare : ℕ → Manager
  bare vlan = record {
    state_machines = [];
    transitions = transitions;
    auto_sequester = [];
    static_behaviors = [];
    dynamic_behaviors = [];
    placement_to_mac = [];
    sequester_timer = [];
    scheduled_timer = [];
    running = [];
    next_timer = 0;
    sequester_segment = "";
    sequester_timeout_sec = none;
    default_auto = disabled;
    state_overwrites = [];
    unauthenticated_vlan = vlan;
    has_device_state_manager = has_device_state_manager;
    has_varz_updater = has_varz_updater;
    has_reporter = has_reporter;
    out = [];
  }

  with_sequester : Option SequesterConfig → Manager → Manager
  unfolding overwrites_of
  with_sequester none m = m
  with_sequester (some c) m = record m {
    sequester_segment = c.segment;
    sequester_timeout_sec = some c.timeout_sec;
    state_overwrites = overwrites_of c.test_result_device_states;
    default_auto = if is_given c.auto_sequestering then c.auto_sequestering else m.default_auto;
  }

  -- `__init__`, in a process where no machine has changed the table of the class yet
  unfoldable pub create : Option OrchConfig → Manager
  unfolding bare with_sequester
  create none = bare 0
  create (some c) = with_sequester c.sequester_config (bare c.unauthenticated_vlan)

-- `clear_static_device_behavior`
unfoldable pub clear_static_device_behavior : String → Action
unfolding handle_deauthenticated_device
clear_static_device_behavior mac = do
  known ← gets (is_static (lower mac))
  when known (do
    modify (update_static_vlan_varz (lower mac) 0)
    handle_deauthenticated_device (lower mac) true)

unfoldable pub clear_each : List String → Action
unfolding clear_static_device_behavior
clear_each [] = pure tt
clear_each (mac ∷ macs) = do clear_static_device_behavior mac; clear_each macs

-- `clear_static_device_behaviors`
unfoldable pub clear_static_device_behaviors : Action
unfolding clear_each
clear_static_device_behaviors m = clear_each (Dict.keys m.static_behaviors) m

-- What `_get_dva_state` reports of a machine.
reported : String → DvaState → Manager → DvaState
reported mac operational m = if is_static mac m then static_operational else dynamic_operational
reported mac state m = state

-- `_get_dva_state`, with the address that it has looked up
pub dva_state_of : Option String → Manager → DvaState
unfolding reported
dva_state_of none m = if truthy m.unauthenticated_vlan then unauthenticated else initial
dva_state_of (some mac) m = elim (Dict.lookup mac m.state_machines) [
  | none ↦ initial
  | some state ↦ reported mac state m
]

-- `get_dva_state`
unfoldable pub get_dva_state : String → ℕ → Manager → DvaState
unfolding dva_state_of
get_dva_state switch port m =
    dva_state_of (present (Dict.lookup (switch, port) m.placement_to_mac)) m

-- `self._placement_to_mac[(switch, port)] = mac`
unfoldable pub note_placement : String × ℕ → String → Manager → Manager
note_placement key mac m = record m { placement_to_mac = Dict.insert key mac m.placement_to_mac }

-- The address at the same placement, if it is another one.
unfoldable pub stale_of : String → Option String → Option String
stale_of mac none = none
stale_of mac (some old) = if old == mac then none else some old

-- The cleaning of a stale placement in `_handle_learned_device`
unfoldable pub clean_stale : Option String → DevicePlacement → Action
unfolding handle_disconnected_device
clean_stale none placement = pure tt
clean_stale (some old) placement = do
  _ ← handle_disconnected_device (record placement { connected = false })
  pure tt

module _ (vlan_of : String → Option ℕ) where
  -- The last step of `_handle_learned_device`: the behaviour that the device has already.
  unfoldable pub resume : String → Option DeviceBehavior → Action
  unfolding handle_device_behavior
  resume mac none = pure tt
  resume mac (some b) = do
    static ← gets (is_static mac)
    handle_device_behavior vlan_of mac b static

  -- The machine of a device that has none yet.
  unfoldable pub add_machine : String → Action
  unfolding create_machine resume
  add_machine mac = do create_machine mac; b ← gets (behavior_of mac); resume mac b

  -- The steps of `_handle_learned_device`, once it has looked up the stale address.
  unfoldable pub learn :
      Option String
      → String
      → DevicePlacement
      → Bool
      → Exec Manager (Bool × Option String × Option String)
  unfolding clean_stale add_machine note_placement
  learn stale mac placement static = do
    clean_stale stale placement
    modify (note_placement (placement.switch, placement.port) mac)
    modify (process_device_placement mac placement static)
    known ← gets (λ m. Dict.has mac m.state_machines)
    when (not known) (add_machine mac)
    pure (true, none, stale)

  -- `_handle_learned_device`
  unfoldable pub handle_learned_device :
      String → DevicePlacement → Bool → Exec Manager (Bool × Option String × Option String)
  unfolding stale_of learn
  handle_learned_device mac placement static m =
      let key : String × ℕ = (placement.switch, placement.port) in
      learn (stale_of mac (present (Dict.lookup key m.placement_to_mac))) mac placement static m

  -- `handle_device_placement`
  unfoldable pub handle_device_placement :
      String → DevicePlacement → Bool → Exec Manager (Bool × Option String × Option String)
  unfolding handle_learned_device handle_disconnected_device
  handle_device_placement mac placement static =
      if placement.connected
      then handle_learned_device (lower mac) placement static
      else handle_disconnected_device placement
