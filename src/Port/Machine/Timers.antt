-- ===== src/Port/Machine/Timers.antt =====
-- What the machines leave of the timers that run: all of them.
use forch.Base.{
  ℕ, suc, zero, ◌≡◌, sym, ◌∙◌, ◌⊎◌, inr, String, Bool, false, Option, none, some, List, [], ◌∷◌,
  arith, string_eq, if◌then◌else◌,
}
use mathlib.Core.Path.{subst}
use forch.Base.Dict
use forch.Base.Exec.{Result, ok}
use forch.Port.Types.{
  DvaState, initial, unauthenticated, sequestered, static_operational, dynamic_operational,
  infracted, operational, Event, DeviceBehavior, no_behavior,
}
use forch.Port.Table.{get, real}
use forch.Port.State.{Manager, Action, Timer, process_device_behavior, update_device_state_varz}
use forch.Port.Machine.{
  send, transition, enter, handle_state, handle_unauthenticated_state, set_port_sequestered,
  sequester_with, arm_sequester_timeout, start_sequester_timer, set_port_operational, operate_with,
  handle_infracted_state, behavior_of, is_static, sequestered_behavior,
}

-- A timer that is still to run out
abbrev pub Among : Timer → List Timer → Type 0
Among t [] = ⊥
Among t (s ∷ timers) = (t ≡ s) ⊎ Among t timers

module _ (t : Timer) where
  abbrev pub Keeps : Action → Type 0
  Keeps action = (m : Manager) → Among t m.running → Among t (action m).1.running

  varz_running :
      (mac : String) (state : DvaState) (m : Manager)
      → (update_device_state_varz mac state m).running ≡ m.running
  unfolding update_device_state_varz
  varz_running mac state m = ground arith

  pub behavior_running :
      (mac : String) (b : DeviceBehavior) (static : Bool) (m : Manager)
      → (process_device_behavior mac b static m).running ≡ m.running
  unfolding process_device_behavior
  behavior_running mac b static m = ground arith

  arm-Keeps : (mac : String) (delay : Option ℕ) → Keeps (arm_sequester_timeout mac delay)
  unfolding arm_sequester_timeout start_sequester_timer
  arm-Keeps mac none m h = h
  arm-Keeps mac (some zero) m h = h
  arm-Keeps mac (some (suc n)) m h = inr h

  sequester-Keeps : (mac : String) (own : Option DeviceBehavior) → Keeps (sequester_with mac own)
  unfolding sequester_with
  sequester-Keeps mac none m h = h
  sequester-Keeps mac (some own) m h =
      let given = process_device_behavior mac (sequestered_behavior m own) false m in
      let shown = update_device_state_varz mac sequestered given in
      arm-Keeps mac m.sequester_timeout_sec shown (
        subst (Among t)
          (sym (
            varz_running mac sequestered given
            ∙ behavior_running mac (sequestered_behavior m own) false m))
          h)

  operate-Keeps : (mac : String) (own : Option DeviceBehavior) → Keeps (operate_with mac own)
  unfolding operate_with
  operate-Keeps mac none m h = h
  operate-Keeps mac (some own) m h =
      let static = is_static mac m in
      let given = process_device_behavior mac own static m in
      let state = if static then static_operational else dynamic_operational in
      subst (Among t) (sym (varz_running mac state given ∙ behavior_running mac own static m)) h

  handle_state-Keeps : (state : DvaState) (mac : String) → Keeps (handle_state state mac)
  unfolding handle_state handle_unauthenticated_state set_port_sequestered set_port_operational
      handle_infracted_state
  handle_state-Keeps unauthenticated mac m h =
      subst (Among t) (sym (varz_running mac unauthenticated m)) h
  handle_state-Keeps sequestered mac m h = sequester-Keeps mac (behavior_of mac m) m h
  handle_state-Keeps operational mac m h = operate-Keeps mac (behavior_of mac m) m h
  handle_state-Keeps infracted mac m h =
      let static = is_static mac m in
      let given = process_device_behavior mac no_behavior static m in
      subst (Among t)
        (sym (varz_running mac infracted given ∙ behavior_running mac no_behavior static m)) h
  handle_state-Keeps initial mac m h = h
  handle_state-Keeps static_operational mac m h = h
  handle_state-Keeps dynamic_operational mac m h = h

  enter-Keeps : (mac : String) (next : Option DvaState) → Keeps (enter mac next)
  unfolding enter
  enter-Keeps mac none m h = h
  enter-Keeps mac (some next) m h =
      handle_state-Keeps next mac
        (record m { state_machines = Dict.insert mac next m.state_machines }) h

  found-Keeps :
      (mac : String) (event : Event) (state : Option DvaState) (m : Manager)
      → Among t m.running
      → Among t
          (elim state as (λ _. Result (Unit {0}) × Manager) [
            | none ↦ (ok tt, m)
            | some state ↦ transition mac state event m
          ]).1.running
  unfolding transition
  found-Keeps mac event none m h = h
  found-Keeps mac event (some state) m h =
      enter-Keeps mac (real (get m.transitions state event)) m h

  pub send-Keeps : (mac : String) (event : Event) → Keeps (send mac event)
  unfolding send
  send-Keeps mac event m h = found-Keeps mac event (Dict.lookup mac m.state_machines) m h
