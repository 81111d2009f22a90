-- ===== src/Port/State.antt =====
-- The state of `PortStateManager`, and its calls of the objects that it is given. The calls are
-- recorded in `out`. A timer that was started and has neither fired nor been cancelled stands in
-- `running`, under a number of its own.
use forch.Base.{
  ℕ, ◌+◌, String, Bool, Option, none, some, List, [], ◌∷◌, ◌++◌, string_eq, nat_eq, ◌==◌,
  if◌then◌else◌,
}
use forch.Base.Dict.{Dict}
use forch.Base.Exec.{Exec}
use forch.Port.Types.{DvaState, AutoSequestering, DeviceBehavior, DevicePlacement}
use forch.Port.Table.{Table}

pub data Effect : Type 0 where
  device_placement : String → DevicePlacement → Bool → Effect
  device_behavior : String → DeviceBehavior → Bool → Effect
  state_varz : String → DvaState → Effect
  vlan_varz : String → ℕ → Effect
  disconnect : String → Effect

pub data TimerKind : Type 0 where
  sequester_timeout scheduled_sequester : TimerKind

pub record Timer : Type 0 where
  pub number : ℕ
  pub kind : TimerKind
  pub mac : String
  pub delay : ℕ

-- A text that is `None` or empty is false.
abbrev pub is_empty : String → Bool
is_empty s = s == ""

abbrev pub present : Option String → Option String
present none = none
present (some s) = if is_empty s then none else some s

pub record Manager : Type 0 where
  pub state_machines : Dict String DvaState
  pub transitions : Table
  pub auto_sequester : Dict String AutoSequestering
  pub static_behaviors : Dict String DeviceBehavior
  pub dynamic_behaviors : Dict String DeviceBehavior
  pub placement_to_mac : Dict (String × ℕ) String
  pub sequester_timer : Dict String ℕ
  pub scheduled_timer : Dict String ℕ
  pub running : List Timer
  pub next_timer : ℕ
  pub sequester_segment : String
  pub sequester_timeout_sec : Option ℕ
  pub default_auto : AutoSequestering
  pub state_overwrites : Table
  pub unauthenticated_vlan : ℕ
  pub has_device_state_manager : Bool
  pub has_varz_updater : Bool
  pub has_reporter : Bool
  pub out : List Effect

abbrev pub Action : Type 0
Action = Exec Manager (Unit {0})

abbrev pub emit : Effect → Manager → Manager
emit effect m = record m { out = m.out ++ (effect ∷ []) }

-- `_process_device_placement`
unfoldable pub process_device_placement : String → DevicePlacement → Bool → Manager → Manager
process_device_placement mac placement static m =
    if m.has_device_state_manager then emit (device_placement mac placement static) m else m

-- `_process_device_behavior`
unfoldable pub process_device_behavior : String → DeviceBehavior → Bool → Manager → Manager
process_device_behavior mac behavior static m =
    if m.has_device_state_manager then emit (device_behavior mac behavior static) m else m

-- `_update_device_state_varz`
unfoldable pub update_device_state_varz : String → DvaState → Manager → Manager
update_device_state_varz mac state m =
    if m.has_varz_updater then emit (state_varz mac state) m else m

-- `_update_static_vlan_varz`
unfoldable pub update_static_vlan_varz : String → ℕ → Manager → Manager
update_static_vlan_varz mac vlan m = if m.has_varz_updater then emit (vlan_varz mac vlan) m else m

abbrev pub drop_timer : ℕ → List Timer → List Timer
drop_timer n [] = []
drop_timer n (t ∷ timers) =
    let rest = drop_timer n timers in if t.number == n then rest else t ∷ rest

-- `timer.cancel()`
unfoldable pub cancel : ℕ → Manager → Manager
cancel n m = record m { running = drop_timer n m.running }

-- `threading.Timer(delay, handler)` and its `start()`
abbrev pub start : TimerKind → String → ℕ → Manager → Manager
start kind mac delay m = record m {
  running = record { number = m.next_timer; kind = kind; mac = mac; delay = delay } ∷ m.running;
  next_timer = m.next_timer + 1;
}
