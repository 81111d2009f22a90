-- ===== src/Port/Inputs/Jail.antt =====
-- An infracted device stays infracted, whatever comes but a placement.
pub mod Methods
use forch.Base.{
  ℕ, ◌≡◌, refl, ◌≢◌, ◌∙◌, sym, ap, inl, inr, String, Bool, true, false, not, ◌&&◌, ◌||◌, Option,
  none, some, List, [], ◌∷◌, arith, string_eq, Option-cases, Bool-cases, if◌then◌else◌, lower, leb,
}
use forch.Base.Dict
use forch.Base.Exec.{
  Exec, Result, ok, raised, attribute_error, after, when, modify, pure, gets, raise, ◌>>=◌, ◌>>◌,
}
use forch.Port.Types.{
  DvaState, infracted, Event, behavior, result, Behavior, unknown, passed, failed, deauthenticated,
  manual_sequestered, ResultCode, pass, fail, DeviceBehavior, no_behavior,
}
use forch.Port.Table.{get, real}
use forch.Port.State.{
  Manager, Action, Timer, TimerKind, sequester_timeout, scheduled_sequester, is_empty,
  process_device_behavior, update_static_vlan_varz, cancel, drop_timer, emit, disconnect, start,
}
use forch.Port.Machine.{send, transition, enter, handle_state, is_static}
use forch.Port.Machine.Quiet.{
  IsKept, IsQuiet, handle_state-IsQuiet, process_device_behavior-IsQuiet,
}
use forch.Port.Manager.{
  handle_device_behavior, handle_authenticated_device, handle_deauthenticated_device,
  deauthenticate, put_static, put_dynamic, pop_static, pop_dynamic, port_behavior_of,
  handle_static_device_behavior, note_auto, cancel_scheduled, schedule_at,
  schedule_device_sequester, testing_result, handle_testing_result, handle_session_result,
  cancel_sequester, fire, handler_of, handle_sequestering_timeout, handle_scheduled_sequestering,
  report_disconnect,
}
use forch.Port.Inputs
use forch.Port.Inputs.{
  Input, static_behavior, placement, clear_static, clear_statics, timer, feed, feed_all,
}
use forch.Port.Placement.{clear_static_device_behavior, clear_each, clear_static_device_behaviors}

-- The device is infracted, and the table has no way out.
pub record IsJailed (mac : String) (m : Manager) : Type 0 where
  pub held : Dict.lookup mac m.state_machines ≡ some infracted
  pub locked : (event : Event) → get m.transitions infracted event ≡ none

-- An update of other fields.
abbrev pub Leaves : (Manager → Manager) → Type 0
Leaves f =
    (m : Manager) → ((f m).state_machines ≡ m.state_machines) × ((f m).transitions ≡ m.transitions)

module _ (mac : String) where
  abbrev pub Guards : {A : Type 0} → Exec Manager A → Type 0
  Guards k = (m : Manager) → IsJailed mac m → IsJailed mac (k m).1

  kept-IsJailed : (m m' : Manager) → IsKept m m' → IsJailed mac m → IsJailed mac m'
  kept-IsJailed m m' q j = record {
    held = ap (Dict.lookup mac) q.machines ∙ j.held;
    locked = λ event. ap (λ t. get t infracted event) q.table ∙ j.locked event;
  }

  after-IsJailed :
      {A B : Type 0} (r : Result A × Manager) (k : A → Exec Manager B)
      → IsJailed mac r.1
      → ((a : A) → Guards (k a))
      → IsJailed mac (after r k).1
  after-IsJailed (ok a, m) k j g = g a m j
  after-IsJailed (raised e, m) k j g = j

  pub >>=-Guards :
      {A B : Type 0} (m : Exec Manager A) (k : A → Exec Manager B)
      → Guards m
      → ((a : A) → Guards (k a))
      → Guards (m >>= k)
  >>=-Guards m k f g s j = after-IsJailed (m s) k (f s j) g

  pub >>-Guards :
      {B : Type 0} (m : Action) (k : Exec Manager B) → Guards m → Guards k → Guards (m >> k)
  >>-Guards m k f g = >>=-Guards m (λ _. k) f (λ _. g)

  pub modify-Guards : (f : Manager → Manager) → Leaves f → Guards (modify f)
  modify-Guards f leaves m j = record {
    held = ap (Dict.lookup mac) (leaves m).0 ∙ j.held;
    locked = λ event. ap (λ t. get t infracted event) (leaves m).1 ∙ j.locked event;
  }

  pub when-Guards : (b : Bool) (k : Action) → Guards k → Guards (when b k)
  when-Guards true k g = g
  when-Guards false k g = λ m j. j

  pub if-Guards :
      {A : Type 0} (b : Bool) (k l : Exec Manager A)
      → Guards k
      → Guards l
      → Guards (if b then k else l)
  if-Guards true k l f g = f
  if-Guards false k l f g = g

  enter-Guards : (other : String) (next : DvaState) → other ≢ mac → Guards (enter other (some next))
  unfolding enter
  enter-Guards other next apart m j =
      let m' = record m { state_machines = Dict.insert other next m.state_machines } in
      kept-IsJailed m' _ (handle_state-IsQuiet next other m').kept (record {
        held = Dict.lookup-insert_ne mac other next m.state_machines (λ e. apart (sym e)) ∙ j.held;
        locked = j.locked;
      })

  transition-Guards :
      (other : String) (state : DvaState) (event : Event)
      → other ≢ mac
      → Guards (transition other state event)
  unfolding transition
  transition-Guards other state event apart m j =
      elim (Option-cases (real (get m.transitions state event))) [
        | inl nowhere ↦ rw nowhere j
        | inr (next, there) ↦ rw there (enter-Guards other next apart m j)
      ]

  own_event : (event : Event) (m : Manager) → IsJailed mac m → IsJailed mac (send mac event m).1
  unfolding send transition
  own_event event m j = rw (j.held, send) (rw (j.locked event) j)

  other_event : (other : String) (event : Event) → other ≢ mac → Guards (send other event)
  unfolding send
  other_event other event apart m j = elim (Option-cases (Dict.lookup other m.state_machines)) [
    | inl e ↦ rw (e, send) j
    | inr (state, e) ↦ rw (e, send) (transition-Guards other state event apart m j)
  ]

  -- No event to any machine frees the device.
  pub send-Guards : (other : String) (event : Event) → Guards (send other event)
  send-Guards other event m j = elim (string_eq.dec other mac) [
    | yes p ↦ rw p (own_event event m j)
    | no n ↦ other_event other event n m j
  ]
