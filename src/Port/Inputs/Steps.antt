-- ===== src/Port/Inputs/Steps.antt =====
-- Each method keeps the manager sound and raises nothing.
use forch.Base.{
  ℕ, ◌≡◌, refl, inl, inr, String, Bool, true, false, Option, none, some, [], ◌∷◌, arith, string_eq,
  pair_eq, nat_eq, Bool-cases, if◌then◌else◌, lower, leb,
}
use mathlib.Core.Bool.{false≢true}
use forch.Base.Exec.{ok, raised, attribute_error, ◌>>◌, modify, pure}
use forch.Port.Types.{
  behavior, result, Behavior, passed, failed, manual_sequestered, ResultCode, pass, fail,
  DeviceBehavior,
}
use forch.Port.State.{
  emit, disconnect, Manager, Timer, TimerKind, sequester_timeout, scheduled_sequester, is_empty,
  update_static_vlan_varz, cancel,
}
use forch.Port.Machine.Quiet.{IsKept}
use forch.Port.Machine.Send.{IsSound}
use forch.Port.Manager.{
  handle_device_behavior, handle_static_device_behavior, cancel_scheduled,
  schedule_device_sequester, handle_authenticated_device, note_auto, handle_testing_result,
  testing_result, cancel_sequester, handle_session_result, fire, handler_of,
  handle_sequestering_timeout, handle_scheduled_sequestering, report_disconnect,
}
use forch.Port.Inputs.Safe.{
  IsFine, Safe, >>-Safe, pure-Safe, modify-Safe, when-Safe, send-Safe, IsHandled-IsFine,
}
use forch.Port.Manager.Sound.{handle_authenticated_device-IsHandled}
use forch.Port.Manager.Gone.{handle_deauthenticated_device-IsHandled}

update_static_vlan_varz-IsKept :
    (mac : String) (vlan : ℕ) (m : Manager) → IsKept m (update_static_vlan_varz mac vlan m)
unfolding update_static_vlan_varz
update_static_vlan_varz-IsKept mac vlan m = ground arith

module _ (vlan_of : String → Option ℕ) where
  pub handle_device_behavior-Safe :
      (mac : String) (b : DeviceBehavior) (static : Bool)
      → Safe (handle_device_behavior vlan_of mac b static)
  unfolding handle_device_behavior
  handle_device_behavior-Safe mac b static m v = elim (Bool-cases (is_empty b.segment)) [
    | inl gone ↦ rw gone (
        IsHandled-IsFine (lower mac) m _
          (handle_deauthenticated_device-IsHandled (lower mac) static m v))
    | inr given ↦ rw given (
        >>-Safe (handle_authenticated_device (lower mac) b static) _
          (λ s w.
            IsHandled-IsFine (lower mac) s _
              (handle_authenticated_device-IsHandled (lower mac) b static s w))
          (when-Safe static _ (modify-Safe _ (λ s. update_static_vlan_varz-IsKept (lower mac) _ s)))
          m v)
  ]

cancel_scheduled-IsKept : (mac : String) (m : Manager) → IsKept m (cancel_scheduled mac m)
unfolding cancel_scheduled cancel
cancel_scheduled-IsKept mac m = ground arith

schedule_device_sequester-Safe :
    (at : Option ℕ) (mac : String) (now : ℕ) → Safe (schedule_device_sequester at mac now)
unfolding schedule_device_sequester
schedule_device_sequester-Safe none mac now = pure-Safe tt
schedule_device_sequester-Safe (some at) mac now =
    when-Safe (leb now at) _ (modify-Safe _ (λ s. ground arith))

note_auto-IsKept : (mac : String) (b : DeviceBehavior) (m : Manager) → IsKept m (note_auto mac b m)
unfolding note_auto
note_auto-IsKept mac b m = ground arith

module _ (vlan_of : String → Option ℕ) (parse_time : String → Option ℕ) where
  pub handle_static_device_behavior-Safe :
      (mac : String) (b : DeviceBehavior) (now : ℕ)
      → Safe (handle_static_device_behavior vlan_of parse_time mac b now)
  unfolding handle_static_device_behavior
  handle_static_device_behavior-Safe mac b now =
      >>-Safe _ _ (modify-Safe _ (note_auto-IsKept (lower mac) b)) (
        >>-Safe _ _ (when-Safe _ _ (handle_device_behavior-Safe vlan_of (lower mac) b true)) (
          >>-Safe _ _ (modify-Safe _ (cancel_scheduled-IsKept (lower mac))) (
            when-Safe _ _
              (schedule_device_sequester-Safe (parse_time b.scheduled_timestamp) (lower mac) now))))

cancel_sequester-IsKept : (mac : String) (m : Manager) → IsKept m (cancel_sequester mac m)
unfolding cancel_sequester cancel
cancel_sequester-IsKept mac m = ground arith

final-Safe :
    (mac : String) (code : ResultCode)
    → Safe (do handle_session_result mac code; modify (cancel_sequester mac); pure true)
unfolding handle_session_result
final-Safe mac code =
    >>-Safe _ _ (send-Safe mac (result code) refl)
      (>>-Safe _ _ (modify-Safe _ (cancel_sequester-IsKept mac)) (pure-Safe true))

testing_result-Safe : (mac : String) (b : Behavior) → Safe (testing_result mac b)
unfolding testing_result
testing_result-Safe mac passed = final-Safe mac pass
testing_result-Safe mac failed = final-Safe mac fail
testing_result-Safe mac _ = pure-Safe false

-- A result for one device.
pub handle_testing_result-Safe :
    (mac : String) (b : DeviceBehavior) → Safe (handle_testing_result ((mac, b) ∷ []))
unfolding handle_testing_result
handle_testing_result-Safe mac b = testing_result-Safe (lower mac) b.port_behavior

handle_scheduled_sequestering-Safe : (mac : String) → Safe (handle_scheduled_sequestering mac)
unfolding handle_scheduled_sequestering
handle_scheduled_sequestering-Safe mac =
    >>-Safe _ _ (modify-Safe _ (λ s. ground arith))
      (send-Safe mac (behavior manual_sequestered) refl)

report_if :
    (b : Bool) (mac : String) (m : Manager)
    → b ≡ true
    → IsSound m
    → IsFine (if b then (ok tt, emit (disconnect mac) m) else (raised attribute_error, m))
report_if true mac m e v = modify-Safe (emit (disconnect mac)) (λ s. ground arith) m v
report_if false mac m e v = absurd (false≢true e)

report_disconnect-Safe : (mac : String) → Safe (report_disconnect mac)
unfolding report_disconnect
report_disconnect-Safe mac m v = report_if m.has_reporter mac m v.reporting v

handle_sequestering_timeout-Safe : (mac : String) → Safe (handle_sequestering_timeout mac)
unfolding handle_sequestering_timeout handle_session_result
handle_sequestering_timeout-Safe mac =
    >>-Safe _ _ (modify-Safe _ (λ s. ground arith))
      (>>-Safe _ _ (send-Safe mac (result fail) refl) (report_disconnect-Safe mac))

handler_of-Safe : (kind : TimerKind) (mac : String) → Safe (handler_of kind mac)
handler_of-Safe sequester_timeout mac = handle_sequestering_timeout-Safe mac
handler_of-Safe scheduled_sequester mac = handle_scheduled_sequestering-Safe mac

pub fire-Safe : (t : Timer) → Safe (fire t)
unfolding fire
fire-Safe t = >>-Safe _ _ (modify-Safe _ (λ s. ground arith)) (handler_of-Safe t.kind t.mac)
