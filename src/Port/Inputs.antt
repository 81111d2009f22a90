-- ===== src/Port/Inputs.antt =====
-- Everything that calls a `PortStateManager`: the orchestrator, the report client and the timers.
pub mod Safe
pub mod Steps
pub mod Places
pub mod Runs
pub mod Jail
use forch.Base.{ℕ, String, Bool, true, false, Option, List, [], ◌∷◌}
use forch.Base.Exec.{Exec, pure, ◌>>=◌, ◌>>◌}
use forch.Port.Types.{DeviceBehavior, DevicePlacement}
use forch.Port.State.{Manager, Action, Timer}
use forch.Port.Manager.{
  handle_device_behavior, handle_static_device_behavior, handle_testing_result, fire,
}
use forch.Port.Placement.{
  handle_device_placement, clear_static_device_behavior, clear_static_device_behaviors,
}

pub data Input : Type 0 where
  static_behavior : String → DeviceBehavior → Input
  behavior : String → DeviceBehavior → Input
  placement : String → DevicePlacement → Bool → Input
  testing_result : String → DeviceBehavior → Input
  clear_static : String → Input
  clear_statics : Input
  timer : Timer → Input

-- A call whose result is not looked at.
abbrev pub drop : {A : Type 0} → Exec Manager A → Action
drop m = m >>= λ _. pure tt

module _ (vlan_of : String → Option ℕ) (parse_time : String → Option ℕ) where
  unfoldable pub feed : Input → ℕ → Action
  feed (static_behavior mac b) now = handle_static_device_behavior vlan_of parse_time mac b now
  feed (behavior mac b) now = handle_device_behavior vlan_of mac b false
  feed (placement mac p static) now = drop (handle_device_placement vlan_of mac p static)
  feed (testing_result mac b) now = drop (handle_testing_result ((mac, b) ∷ []))
  feed (clear_static mac) now = clear_static_device_behavior mac
  feed clear_statics now = clear_static_device_behaviors
  feed (timer t) now = fire t

  unfoldable pub feed_all : List (Input × ℕ) → Manager → Manager
  feed_all [] m = m
  feed_all ((i, now) ∷ inputs) m = feed_all inputs (feed i now m).1
