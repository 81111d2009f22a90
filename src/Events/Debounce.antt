-- ===== src/Events/Debounce.antt =====
-- The debouncing of ports in `FaucetEventClient`.
use forch.Base.{
  ℕ, ◌+◌, Bool, true, false, none, some, List, [], ◌∷◌, not, ◌&&◌, truthy, string_eq, nat_eq,
  bool_eq, pair_eq, ◌==◌, if◌then◌else◌,
}
use forch.Base.Dict
use forch.Base.Dict.{Dict}
use forch.Events.Buffer
use forch.Events.Types.{PortChange, Event, Json, Timer, Target, change_of, message, Client}

-- `_process_state_update`
unfoldable pub process_state_update : ℕ → ℕ → Bool → Client → Bool × Client
process_state_update dpid port active c =
    let key : ℕ × ℕ = (dpid, port) in
    elim (Dict.lookup key c.previous_state) [
      | none ↦ (true, record c { previous_state = Dict.insert key active c.previous_state })
      | some was ↦
          if was == active
          then (false, c)
          else (true, record c { previous_state = Dict.insert key active c.previous_state })
    ]

-- `_make_port_change`, and `_merge_event` of it: `timestamp` and `debounced` are given when it is
-- appended. A prepended event has the time of its base and is not debounced.
abbrev pub make_port_change : ℕ → Bool → PortChange
make_port_change port status = record { port_no = port; status = status; reason = "MODIFY" }

abbrev pub merge_event : Event → PortChange → ℕ → Bool → Event
merge_event base change timestamp debounced = record {
  dp_name = base.dp_name;
  dp_id = base.dp_id;
  event_id = base.event_id;
  time = timestamp;
  debounced = debounced;
  port_change = some change;
  ports_status = none;
  messages = [];
}

abbrev pub drop_timer : ℕ → List Timer → List Timer
drop_timer n [] = []
drop_timer n (t ∷ timers) =
    let rest = drop_timer n timers in if t.number == n then rest else t ∷ rest

-- The timer that `_debounce_port_event` starts for a port that went down
abbrev pub start_timer : Event → ℕ → Bool → Client → Client
start_timer event port active c =
    let key : ℕ × ℕ = (event.dp_id, port) in
    let timer : Timer = record {
      number = c.next_timer;
      event = event;
      port = port;
      active = active;
    } in
    record c {
      running = timer ∷ c.running;
      next_timer = c.next_timer + 1;
      port_timers = Dict.insert key c.next_timer c.port_timers;
    }

-- The timer that is cancelled first, if the port has one
unfoldable pub cancel_timer : ℕ → ℕ → Client → Client
cancel_timer dpid port c =
    let key : ℕ × ℕ = (dpid, port) in
    elim (Dict.lookup key c.port_timers) [
      | none ↦ c
      | some n ↦ record c { running = drop_timer n c.running }
    ]

module _ (json : Json) where
  -- `_handle_debounce`
  unfoldable pub handle_debounce : Event → ℕ → Bool → ℕ → Client → Client
  handle_debounce event port active now c =
      let key : ℕ × ℕ = (event.dp_id, port) in
      let merged = merge_event event (make_port_change port active) now true in
      record c {
        port_timers = Dict.erase key c.port_timers;
        buffer = Buffer.append_event (json.dumps merged) c.buffer;
      }

  -- `_debounce_port_event`. The period is never 0, since 0 stands for 5 seconds.
  unfoldable pub debounce_port_event : Event → ℕ → Bool → ℕ → Client → Client
  unfolding cancel_timer handle_debounce
  debounce_port_event event port active now c =
      let t = cancel_timer event.dp_id port c in
      if active then handle_debounce event port active now t else start_timer event port active t

  -- A timer runs out.
  unfoldable pub fire : Timer → ℕ → Client → Client
  unfolding handle_debounce
  fire t now c =
      handle_debounce t.event t.port t.active now
        (record c { running = drop_timer t.number c.running })

  -- `_handle_port_change_debounce`
  unfoldable pub handle_port_change_debounce : Event → Target → ℕ → Client → Bool × Client
  unfolding debounce_port_event process_state_update
  handle_port_change_debounce event (message name) now c = (true, c)
  handle_port_change_debounce event (change_of change) now c =
      let active = change.status && not (change.reason == "DELETE") in
      if event.debounced
      then process_state_update event.dp_id change.port_no active c
      else (false, debounce_port_event event change.port_no active now c)

  -- The loop of `_handle_ports_status`
  unfoldable pub prepend_ports : Event → Dict ℕ Bool → Client → Client
  prepend_ports event [] c = c
  prepend_ports event ((p, status) ∷ ports) c =
      let merged = merge_event event (make_port_change p status) event.time false in
      prepend_ports event ports
        (record c { buffer = Buffer.prepend_event (json.dumps merged) c.buffer })

  -- `_handle_ports_status`, and `as_ports_status`
  unfoldable pub handle_ports_status : Event → Client → Bool × Client
  unfolding prepend_ports
  handle_ports_status event c = elim event.ports_status [
    | none ↦ (true, c)
    | some ports ↦ if truthy event.dp_id then (false, prepend_ports event ports c) else (true, c)
  ]
