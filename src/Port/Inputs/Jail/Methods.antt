-- ===== src/Port/Inputs/Jail/Methods.antt =====
-- Each method of `PortStateManager` but the placement leaves an infracted device alone, and so do
-- whole sequences of them.
use forch.Base.{
  ℕ, ◌≡◌, refl, String, Bool, true, false, not, Option, none, some, List, [], ◌∷◌, arith, string_eq,
  if◌then◌else◌, lower,
}
use forch.Base.Dict
use forch.Base.Exec.{when, modify, pure, ◌>>◌}
use forch.Port.Types.{
  behavior, result, Behavior, passed, failed, deauthenticated, manual_sequestered, ResultCode, pass,
  fail, DeviceBehavior, no_behavior,
}
use forch.Port.State.{
  Manager, Timer, TimerKind, sequester_timeout, scheduled_sequester, is_empty,
  process_device_behavior, update_static_vlan_varz, cancel, drop_timer,
}
use forch.Port.Machine.{send}
use forch.Port.Machine.Quiet.{process_device_behavior-IsQuiet}
use forch.Port.Manager.{
  handle_device_behavior, handle_authenticated_device, handle_deauthenticated_device,
  deauthenticate, put_static, put_dynamic, pop_static, pop_dynamic, handle_static_device_behavior,
  note_auto, cancel_scheduled, schedule_at, schedule_device_sequester, testing_result,
  handle_testing_result, handle_session_result, cancel_sequester, fire, handler_of,
  handle_sequestering_timeout, handle_scheduled_sequestering, report_disconnect,
}
use forch.Port.Inputs
use forch.Port.Inputs.{
  Input, static_behavior, placement, clear_static, clear_statics, timer, feed, feed_all,
}
use forch.Port.Placement.{clear_static_device_behavior, clear_each, clear_static_device_behaviors}
use forch.Port.Inputs.Jail.{
  IsJailed, Leaves, Guards, >>=-Guards, >>-Guards, modify-Guards, when-Guards, if-Guards,
  send-Guards,
}

process_device_behavior-Leaves :
    (mac : String) (b : DeviceBehavior) (static : Bool)
    → Leaves (process_device_behavior mac b static)
process_device_behavior-Leaves mac b static m =
    let q = process_device_behavior-IsQuiet mac b static m in (q.machines, q.table)

update_static_vlan_varz-Leaves :
    (mac : String) (vlan : ℕ) → Leaves (update_static_vlan_varz mac vlan)
unfolding update_static_vlan_varz
update_static_vlan_varz-Leaves mac vlan m = ground arith

cancel_scheduled-Leaves : (mac : String) → Leaves (cancel_scheduled mac)
unfolding cancel_scheduled cancel
cancel_scheduled-Leaves mac m = ground arith

cancel_sequester-Leaves : (mac : String) → Leaves (cancel_sequester mac)
unfolding cancel_sequester cancel
cancel_sequester-Leaves mac m = ground arith

note_auto-Leaves : (mac : String) (b : DeviceBehavior) → Leaves (note_auto mac b)
unfolding note_auto
note_auto-Leaves mac b m = (refl, refl)

put-Leaves :
    (mac : String) (b : DeviceBehavior) (static : Bool)
    → Leaves (if static then put_static mac b else put_dynamic mac b)
put-Leaves mac b true m = (refl, refl)
put-Leaves mac b false m = (refl, refl)

pop-Leaves :
    (mac : String) (static : Bool) → Leaves (if static then pop_static mac else pop_dynamic mac)
pop-Leaves mac true m = (refl, refl)
pop-Leaves mac false m = (refl, refl)

schedule_at-Leaves : (mac : String) (at now : ℕ) → Leaves (schedule_at mac at now)
unfolding schedule_at
schedule_at-Leaves mac at now m = (refl, refl)

module _ (mac : String) where
  report_disconnect-Guards : (other : String) → Guards mac (report_disconnect other)
  unfolding report_disconnect
  report_disconnect-Guards other m j = record {
    held = ground (j.held, arith);
    locked = λ event. ground (j.locked event, arith);
  }

  handle_authenticated_device-Guards :
      (other : String) (b : DeviceBehavior) (static : Bool)
      → Guards mac (handle_authenticated_device other b static)
  unfolding handle_authenticated_device
  handle_authenticated_device-Guards other b static m j = send-Guards mac other _ _ (
      modify-Guards mac (if static then put_static other b else put_dynamic other b)
        (put-Leaves other b static) m j)

  deauthenticate-Guards :
      (other : String) (static : Bool) → Guards mac (deauthenticate other static)
  unfolding deauthenticate
  deauthenticate-Guards other static =
      >>-Guards mac _ _ (send-Guards mac other (behavior deauthenticated))
        (modify-Guards mac _ (process_device_behavior-Leaves other no_behavior static))

  handle_deauthenticated_device-Guards :
      (other : String) (static : Bool) → Guards mac (handle_deauthenticated_device other static)
  unfolding handle_deauthenticated_device
  handle_deauthenticated_device-Guards other static m j =
      when-Guards mac _ (deauthenticate other static) (deauthenticate-Guards other static) _ (
        modify-Guards mac (if static then pop_static other else pop_dynamic other)
          (pop-Leaves other static) m j)

  handle_device_behavior-Guards :
      (vlan_of : String → Option ℕ) (other : String) (b : DeviceBehavior) (static : Bool)
      → Guards mac (handle_device_behavior vlan_of other b static)
  unfolding handle_device_behavior
  handle_device_behavior-Guards vlan_of other b static =
      if-Guards mac _ _ _ (handle_deauthenticated_device-Guards (lower other) static) (
        >>-Guards mac _ _ (handle_authenticated_device-Guards (lower other) b static) (
          when-Guards mac static _
            (modify-Guards mac _ (λ m. update_static_vlan_varz-Leaves (lower other) _ m))))

  schedule_device_sequester-Guards :
      (at : Option ℕ) (other : String) (now : ℕ)
      → Guards mac (schedule_device_sequester at other now)
  unfolding schedule_device_sequester
  schedule_device_sequester-Guards none other now = λ m j. j
  schedule_device_sequester-Guards (some at) other now =
      when-Guards mac _ (modify (schedule_at other at now))
        (modify-Guards mac _ (schedule_at-Leaves other at now))

  handle_static_device_behavior-Guards :
      (vlan_of : String → Option ℕ) (parse_time : String → Option ℕ) (other : String)
      (b : DeviceBehavior) (now : ℕ)
      → Guards mac (handle_static_device_behavior vlan_of parse_time other b now)
  unfolding handle_static_device_behavior
  handle_static_device_behavior-Guards vlan_of parse_time other b now m j =
      let device = lower other in
      let schedule = schedule_device_sequester (parse_time b.scheduled_timestamp) device now in
      let last = when (not (is_empty b.scheduled_timestamp)) schedule in
      let rest = modify (cancel_scheduled device) >> last in
      >>-Guards mac (when (not (is_empty b.segment)) (handle_device_behavior vlan_of device b true))
        rest (when-Guards mac _ _ (handle_device_behavior-Guards vlan_of device b true))
        (>>-Guards mac (modify (cancel_scheduled device)) last
          (modify-Guards mac (cancel_scheduled device) (cancel_scheduled-Leaves device))
          (when-Guards mac _ schedule (schedule_device_sequester-Guards _ device now)))
        (note_auto device b m)
        (modify-Guards mac (note_auto device b) (note_auto-Leaves device b) m j)

  -- The two final results.
  finish-Guards :
      (other : String) (code : ResultCode)
      → Guards mac (send other (result code) >> (modify (cancel_sequester other) >> pure true))
  finish-Guards other code =
      >>-Guards mac (send other (result code)) (modify (cancel_sequester other) >> pure true)
        (send-Guards mac other (result code))
        (>>-Guards mac (modify (cancel_sequester other)) (pure true)
          (modify-Guards mac (cancel_sequester other) (cancel_sequester-Leaves other)) (λ m j. j))

  testing_result-Guards :
      (other : String) (verdict : Behavior) → Guards mac (testing_result other verdict)
  unfolding testing_result handle_session_result
  testing_result-Guards other passed m j = finish-Guards other pass m j
  testing_result-Guards other failed m j = finish-Guards other fail m j
  testing_result-Guards other _ m j = j

  handle_sequestering_timeout-Guards :
      (other : String) → Guards mac (handle_sequestering_timeout other)
  unfolding handle_sequestering_timeout handle_session_result
  handle_sequestering_timeout-Guards other m j =
      >>-Guards mac (send other (result fail)) (report_disconnect other)
        (send-Guards mac other (result fail)) (report_disconnect-Guards other) _
        (modify-Guards mac (λ m. record m { sequester_timer = Dict.erase other m.sequester_timer })
          (λ m. (refl, refl)) m j)

  handle_scheduled_sequestering-Guards :
      (other : String) → Guards mac (handle_scheduled_sequestering other)
  unfolding handle_scheduled_sequestering
  handle_scheduled_sequestering-Guards other m j =
      send-Guards mac other (behavior manual_sequestered) _ (
        modify-Guards mac (λ m. record m { scheduled_timer = Dict.erase other m.scheduled_timer })
          (λ m. (refl, refl)) m j)

  handler_of-Guards : (kind : TimerKind) (other : String) → Guards mac (handler_of kind other)
  handler_of-Guards sequester_timeout other = handle_sequestering_timeout-Guards other
  handler_of-Guards scheduled_sequester other = handle_scheduled_sequestering-Guards other

  fire-Guards : (t : Timer) → Guards mac (fire t)
  unfolding fire
  fire-Guards t m j = handler_of-Guards t.kind t.mac _ (
      modify-Guards mac (λ m. record m { running = drop_timer t.number m.running })
        (λ m. (refl, refl)) m j)

  clear_static_device_behavior-Guards :
      (other : String) → Guards mac (clear_static_device_behavior other)
  unfolding clear_static_device_behavior
  clear_static_device_behavior-Guards other m j =
      let device = lower other in
      when-Guards mac _
        (modify (update_static_vlan_varz device 0) >> handle_deauthenticated_device device true)
        (>>-Guards mac (modify (update_static_vlan_varz device 0))
          (handle_deauthenticated_device device true)
          (modify-Guards mac (update_static_vlan_varz device 0)
            (update_static_vlan_varz-Leaves device 0))
          (handle_deauthenticated_device-Guards device true))
        m j

  clear_each-Guards : (macs : List String) → Guards mac (clear_each macs)
  unfolding clear_each
  clear_each-Guards [] = λ m j. j
  clear_each-Guards (other ∷ macs) =
      >>-Guards mac (clear_static_device_behavior other) (clear_each macs)
        (clear_static_device_behavior-Guards other) (clear_each-Guards macs)

-- The inputs that are not a placement.
unfoldable pub is_placement : Input → Bool
is_placement (placement mac p static) = true
is_placement _ = false

unfoldable pub IsUnmoved : List (Input × ℕ) → Type 0
IsUnmoved [] = Unit
IsUnmoved ((i, now) ∷ inputs) = (is_placement i ≡ false) × IsUnmoved inputs

module _ (vlan_of : String → Option ℕ) (parse_time : String → Option ℕ) (mac : String) where
  feed-Guards :
      (i : Input) (now : ℕ) → is_placement i ≡ false → Guards mac (feed vlan_of parse_time i now)
  unfolding feed is_placement handle_testing_result clear_static_device_behaviors
  feed-Guards (static_behavior other b) now n =
      handle_static_device_behavior-Guards mac vlan_of parse_time other b now
  feed-Guards (Inputs.behavior other b) now n =
      handle_device_behavior-Guards mac vlan_of other b false
  feed-Guards (placement other p static) now n = cc
  feed-Guards (Inputs.testing_result other b) now n =
      >>=-Guards mac _ _ (testing_result-Guards mac (lower other) b.port_behavior) (λ _ m j. j)
  feed-Guards (clear_static other) now n = clear_static_device_behavior-Guards mac other
  feed-Guards clear_statics now n = λ m j. clear_each-Guards mac (Dict.keys m.static_behaviors) m j
  feed-Guards (timer t) now n = fire-Guards mac t

  -- Where the table gives an infracted machine nowhere to go, no sequence of authentications, test
  -- results, cleared behaviours and timers frees an infracted device: only inputs that say where a device is are left out.
  pub stays_infracted :
      (inputs : List (Input × ℕ)) (m : Manager)
      → IsUnmoved inputs
      → IsJailed mac m
      → IsJailed mac (feed_all vlan_of parse_time inputs m)
  unfolding IsUnmoved feed_all
  stays_infracted [] m u j = j
  stays_infracted ((i, now) ∷ inputs) m (n, u) j =
      stays_infracted inputs _ u (feed-Guards i now n m j)
