-- ===== src/Port/Faults/Stale.antt =====
-- The timer of a sequestering that has ended.
use forch.Base.{◌≡◌, sym, String, Bool, true, false, not, ◌&&◌, some, string_eq}
use mathlib.Core.Path.{subst}
use forch.Base.Dict
use forch.Base.Exec.{after-keeps, when, modify}
use forch.Port.Types.{
  sequestered, infracted, behavior, deauthenticated, result, fail, DeviceBehavior, no_behavior,
}
use forch.Port.Table.{get}
use forch.Port.State.{Manager, Action, Timer, sequester_timeout, process_device_behavior}
use forch.Port.Machine.{send, is_static}
use forch.Port.Machine.Timers.{Among, Keeps, behavior_running, send-Keeps}
use forch.Port.Manager.{
  handle_deauthenticated_device, deauthenticate, handle_authenticated_device, pop_static,
  pop_dynamic, put_static, put_dynamic, port_behavior_of, fire,
}
use forch.Port.Faults.{timeout_infracts}

module _ (t : Timer) where
  deauthenticate-Keeps : (mac : String) (static : Bool) → Keeps t (deauthenticate mac static)
  unfolding deauthenticate
  deauthenticate-Keeps mac static m h =
      after-keeps (λ m. Among t m.running) (send mac (behavior deauthenticated) m)
        (λ _. modify (process_device_behavior mac no_behavior static))
        (send-Keeps t mac (behavior deauthenticated) m h)
        (λ _ s k. subst (Among t) (sym (behavior_running t mac no_behavior static s)) k)

  when-Keeps : (b : Bool) (action : Action) → Keeps t action → Keeps t (when b action)
  when-Keeps true action k m h = k m h
  when-Keeps false action k m h = h

  gone-Keeps : (mac : String) (static : Bool) → Keeps t (handle_deauthenticated_device mac static)
  unfolding handle_deauthenticated_device
  gone-Keeps mac true m h =
      when-Keeps (Dict.has mac m.state_machines) (deauthenticate mac true)
        (deauthenticate-Keeps mac true) (pop_static mac m) h
  gone-Keeps mac false m h =
      when-Keeps (not (is_static mac m) && Dict.has mac m.state_machines) (deauthenticate mac false)
        (deauthenticate-Keeps mac false) (pop_dynamic mac m) h

  again-Keeps :
      (mac : String) (b : DeviceBehavior) (static : Bool)
      → Keeps t (handle_authenticated_device mac b static)
  unfolding handle_authenticated_device
  again-Keeps mac b true m h =
      let s = put_static mac b m in send-Keeps t mac (behavior (port_behavior_of mac s)) s h
  again-Keeps mac b false m h =
      let s = put_dynamic mac b m in send-Keeps t mac (behavior (port_behavior_of mac s)) s h

-- The timer of a sequestering outlives the end of the device's authentication and the next one: it
-- still runs, and if the device is sequestered anew by then and the table says so, it sends the
-- device to `infracted`, before the time of the new sequestering is over.
pub stale_timeout_infracts :
    (t : Timer) (m : Manager) (was_static static : Bool) (b : DeviceBehavior)
    → t.kind ≡ sequester_timeout
    → Among t m.running
    → let gone = (handle_deauthenticated_device t.mac was_static m).1 in
      let again = (handle_authenticated_device t.mac b static gone).1 in
      Dict.lookup t.mac again.state_machines ≡ some sequestered
      → get again.transitions sequestered (result fail) ≡ some infracted
      → Among t again.running × (Dict.lookup t.mac (fire t again).1.state_machines ≡ some infracted)
stale_timeout_infracts t m was_static static b k running here there =
    let gone = (handle_deauthenticated_device t.mac was_static m).1 in
    let again = (handle_authenticated_device t.mac b static gone).1 in
    (
      again-Keeps t t.mac b static gone (gone-Keeps t t.mac was_static m running),
      timeout_infracts t again k here there,
    )
