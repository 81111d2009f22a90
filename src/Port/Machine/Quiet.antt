-- ===== src/Port/Machine/Quiet.antt =====
-- What the handlers of the machine's states leave alone, and that they do not raise.
use forch.Base.{◌≡◌, String, Bool, true, false, arith, is_some, string_eq}
use forch.Base.Exec.{ok}
use forch.Port.Types.{
  DvaState, unauthenticated, sequestered, infracted, operational, DeviceBehavior,
}
use forch.Port.State.{Manager, process_device_behavior, update_device_state_varz}
use forch.Port.Machine.{handle_state, behavior_of}

-- The machines, the behaviours, the table and what the handlers need of the configuration.
pub record IsKept (m m' : Manager) : Type 0 where
  pub machines : m'.state_machines ≡ m.state_machines
  pub table : m'.transitions ≡ m.transitions
  pub statics : m'.static_behaviors ≡ m.static_behaviors
  pub dynamics : m'.dynamic_behaviors ≡ m.dynamic_behaviors
  pub timeout : m'.sequester_timeout_sec ≡ m.sequester_timeout_sec
  pub overwrites : m'.state_overwrites ≡ m.state_overwrites
  pub reporter : m'.has_reporter ≡ m.has_reporter

-- The placements too: effects, timers and the rest of the configuration may differ.
pub record IsQuiet (m m' : Manager) : Type 0 where
  pub kept : IsKept m m'
  pub open kept use *
  pub placements : m'.placement_to_mac ≡ m.placement_to_mac

-- A sequestered device and an operational one are handled by their behaviour.
abbrev pub needs : DvaState → Bool
needs sequestered = true
needs operational = true
needs _ = false

pub process_device_behavior-IsQuiet :
    (mac : String) (b : DeviceBehavior) (static : Bool) (m : Manager)
    → IsQuiet m (process_device_behavior mac b static m)
unfolding process_device_behavior
process_device_behavior-IsQuiet mac b static m = ground arith

pub handle_state-IsQuiet :
    (state : DvaState) (mac : String) (m : Manager) → IsQuiet m (handle_state state mac m).1
unfolding handle_state process_device_behavior update_device_state_varz
handle_state-IsQuiet unauthenticated mac m = ground arith
handle_state-IsQuiet sequestered mac m = ground arith
handle_state-IsQuiet operational mac m = ground arith
handle_state-IsQuiet infracted mac m = ground arith
handle_state-IsQuiet _ mac m = ground arith

-- The handlers raise only where a behaviour or the timeout is missing.
pub handle_state_succeeds :
    (state : DvaState) (mac : String) (m : Manager)
    → (needs state ≡ true → is_some (behavior_of mac m) ≡ true)
    → is_some m.sequester_timeout_sec ≡ true
    → (handle_state state mac m).0 ≡ ok tt
unfolding handle_state process_device_behavior update_device_state_varz
handle_state_succeeds unauthenticated mac m h t = ground arith
handle_state_succeeds sequestered mac m h t = ground arith
handle_state_succeeds operational mac m h t = ground arith
handle_state_succeeds infracted mac m h t = ground arith
handle_state_succeeds _ mac m h t = ground arith
