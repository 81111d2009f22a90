-- ===== src/Port/Manager/Authenticate.antt =====
-- Where authentication leads.
use forch.Base.{
  ◌≡◌, ◌∙◌, ap, inl, inr, String, Bool, true, false, not, ◌&&◌, some, arith, string_eq, Bool-cases,
  if◌then◌else◌,
}
use forch.Base.Dict
use forch.Port.Types.{
  DvaState, unauthenticated, sequestered, operational, Event, behavior, cleared, sequester,
  DeviceBehavior, is_enabled,
}
use forch.Port.Table.{get, real}
use forch.Port.State.{Manager, is_empty}
use forch.Port.Machine.{send, transition, enter}
use forch.Port.Machine.Quiet.{handle_state-IsQuiet}
use forch.Port.Machine.Send.{IsSound}
use forch.Port.Manager.Sound.{put-IsSound}
use forch.Port.Manager.{
  put_static, put_dynamic, handle_authenticated_device, auto_of, port_behavior_of,
}

enter-lookup :
    (mac : String) (next : DvaState) (m : Manager)
    → Dict.lookup mac (enter mac (some next) m).1.state_machines ≡ some next
unfolding enter
enter-lookup mac next m =
    let q =
      handle_state-IsQuiet next mac
        (record m { state_machines = Dict.insert mac next m.state_machines }) in
    ap (Dict.lookup mac) q.machines ∙ Dict.lookup-insert_self mac next m.state_machines

-- A machine that has a target for an event is in it afterwards.
pub send-lookup :
    (mac : String) (event : Event) (m : Manager) (state next : DvaState)
    → Dict.lookup mac m.state_machines ≡ some state
    → real (get m.transitions state event) ≡ some next
    → Dict.lookup mac (send mac event m).1.state_machines ≡ some next
unfolding send transition
send-lookup mac event m state next e there = rw (e, send) (rw there (enter-lookup mac next m))

-- Whether a device that has authenticated is to be tested first.
abbrev pub is_tested : String → Manager → Bool
is_tested mac m = not (is_empty m.sequester_segment) && is_enabled (auto_of mac m)

port_behavior_of-eq :
    (mac : String) (m : Manager)
    → port_behavior_of mac m ≡ (if is_tested mac m then sequester else cleared)
port_behavior_of-eq mac m = ground arith

-- The target of an unauthenticated device, once it has authenticated.
abbrev pub admitted : String → Manager → DvaState
admitted mac m = if is_tested mac m then sequestered else operational

authenticate_from :
    (mac : String) (m : Manager)
    → IsSound m
    → Dict.lookup mac m.state_machines ≡ some unauthenticated
    → Dict.lookup mac (send mac (behavior (port_behavior_of mac m)) m).1.state_machines
      ≡ some (admitted mac m)
authenticate_from mac m v e = elim (Bool-cases (is_tested mac m)) [
  | inl t ↦ rw (port_behavior_of-eq mac m) (
      rw t (
        send-lookup mac (behavior sequester) m unauthenticated sequestered e
          (ap real v.orderly.confines)))
  | inr t ↦ rw (port_behavior_of-eq mac m) (
      rw t (
        send-lookup mac (behavior cleared) m unauthenticated operational e
          (ap real v.orderly.clears)))
]

-- An unauthenticated device of a sound manager whose authentication is handled is sequestered if
-- there is a sequester segment and automatic sequestering is enabled for it, by its own setting or
-- by the default; otherwise it is operational at once.
pub handle_authenticated_device-lookup :
    (mac : String) (b : DeviceBehavior) (static : Bool) (m : Manager)
    → IsSound m
    → Dict.lookup mac m.state_machines ≡ some unauthenticated
    → Dict.lookup mac (handle_authenticated_device mac b static m).1.state_machines
      ≡ some (admitted mac m)
unfolding handle_authenticated_device
handle_authenticated_device-lookup mac b true m v e =
    authenticate_from mac (put_static mac b m) (put-IsSound true mac b m v) e
handle_authenticated_device-lookup mac b false m v e =
    authenticate_from mac (put_dynamic mac b m) (put-IsSound false mac b m v) e
