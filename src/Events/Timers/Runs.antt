-- ===== src/Events/Timers/Runs.antt =====
-- The timers over whole runs of the client.
use forch.Base.{
  ℕ, ◌≡◌, sym, ◌∙◌, ap, inl, inr, String, Bool, true, false, Option, none, some, List, [], ◌∷◌,
  arith, string_eq, nat_eq, pair_eq, ◌==◌, if◌then◌else◌, Option-cases, All, not, ◌&&◌,
}
use mathlib.Core.Path.{subst}
use forch.Base.Dict
use forch.Base.Exec.{Result, pure, after-keeps}
use forch.Events.{
  find_timer, next_turn, handle_event, handle_target, returning, dispatch_target, valid_event_order,
  event_target, message_of, dispatch_each, dispatch_faucet_event, register_handler, feed, feed_all,
  Input, received, turn, fired, registered, horizon,
}
use forch.Events.Buffer
use forch.Events.Buffer.Queue.{view, push, IsLine, view-append_event}
use forch.Events.Types.{Event, Json, Timer, Target, change_of, message, Client, create, handlers_of}
use forch.Events.Debounce.{
  make_port_change, merge_event, drop_timer, process_state_update, handle_debounce, cancel_timer,
  debounce_port_event, fire, handle_port_change_debounce, prepend_ports, handle_ports_status,
}
use forch.Events.Timers.{
  IsTimed, IsCurrent, Apart, port_of, NoTimer, All-drop_timer, Apart-drop_timer, left_other,
  handle_debounce-IsTimed, cancel_timer-NoTimer, debounce_port_event-IsTimed,
}

find_timer-runs :
    (P : Timer → Type 0) (n : ℕ) (timers : List Timer) (t : Timer)
    → find_timer n timers ≡ some t
    → All P timers
    → P t
find_timer-runs P n [] t e h = cc
find_timer-runs P n (u ∷ timers) t e h = ground (arith, find_timer-runs P n timers t)

fire-IsTimed :
    (json : Json) (t : Timer) (now : ℕ) (c : Client)
    → IsTimed c
    → IsCurrent c t
    → IsTimed (fire json t now c)
unfolding fire
fire-IsTimed json t now c v cur =
    handle_debounce-IsTimed json t.event t.port t.active now
      (record c { running = drop_timer t.number c.running })
      (record {
        current = All-drop_timer (IsCurrent c) t.number c.running v.current;
        apart = Apart-drop_timer t.number c.running v.apart;
      })
      (left_other c v (port_of t) t.number cur.0)

-- The timers are those of another state.
record Same (c d : Client) : Type 0 where
  running : d.running ≡ c.running
  timers : d.port_timers ≡ c.port_timers
  next : d.next_timer ≡ c.next_timer

All-map :
    {P Q : Timer → Type 0} (timers : List Timer)
    → ((t : Timer) → P t → Q t)
    → All P timers
    → All Q timers
All-map [] f h = tt
All-map (t ∷ timers) f h = (f t h.0, All-map timers f h.1)

Same-IsTimed : (c d : Client) → Same c d → IsTimed c → IsTimed d
Same-IsTimed c d s v = record {
  current =
      subst (All (IsCurrent d)) (sym s.running)
        (All-map c.running (λ t cur. current t cur) v.current);
  apart = subst Apart (sym s.running) v.apart;
}
  where
    current : (t : Timer) → IsCurrent c t → IsCurrent d t
    current t cur = ground (arith, cur, s.timers, s.next)

valid_event_order-Same : (event : Event) (c : Client) → Same c (valid_event_order event c).1
unfolding valid_event_order
valid_event_order-Same event c = ground arith

process_state_update-Same :
    (dpid port : ℕ) (active : Bool) (c : Client)
    → Same c (process_state_update dpid port active c).1
unfolding process_state_update
process_state_update-Same dpid port active c = ground arith

prepend_ports-Same :
    (json : Json) (event : Event) (ports : Dict.Dict ℕ Bool) (c : Client)
    → Same c (prepend_ports json event ports c)
unfolding prepend_ports
prepend_ports-Same json event [] c = ground arith
prepend_ports-Same json event ((p, status) ∷ ports) c =
    let s = prepend_ports-Same json event ports _ in
    record { running = s.running; timers = s.timers; next = s.next }

dispatch_each-Same :
    (handlers : List ℕ) (event : Event) (target : Target) (c : Client)
    → Same c (dispatch_each handlers event target c)
unfolding dispatch_each
dispatch_each-Same [] event target c = ground arith
dispatch_each-Same (h ∷ handlers) event target c =
    let s = dispatch_each-Same handlers event target _ in
    record { running = s.running; timers = s.timers; next = s.next }

handle_ports_status-Same :
    (json : Json) (event : Event) (c : Client) → Same c (handle_ports_status json event c).1
unfolding handle_ports_status
handle_ports_status-Same json event c = elim (Option-cases event.ports_status) [
  | inl e ↦ ground arith
  | inr (ports, e) ↦ ground (arith, prepend_ports-Same json event ports c)
]

-- Of two results, whichever the test takes.
chosen :
    {A : Type 0} (P : Client → Type 0) (b : Bool) (x y : A × Client)
    → P x.1
    → P y.1
    → P (if b then x else y).1
chosen P true x y p q = p
chosen P false x y p q = q

module _ (json : Json) (event : Event) (now : ℕ) where
  handle_port_change_debounce-IsTimed :
      (target : Target) (c : Client)
      → IsTimed c
      → IsTimed (handle_port_change_debounce json event target now c).1
  unfolding handle_port_change_debounce
  handle_port_change_debounce-IsTimed (message name) c v = v
  handle_port_change_debounce-IsTimed (change_of change) c v =
      let active = change.status && not (change.reason == "DELETE") in
      chosen IsTimed event.debounced _ _
        (Same-IsTimed c _ (process_state_update-Same event.dp_id change.port_no active c) v)
        (debounce_port_event-IsTimed json event change.port_no now c v active)

  handle_target-IsTimed :
      (name : String) (target : Target) (c : Client)
      → IsTimed c
      → IsTimed (handle_target json event name target now c).1
  unfolding handle_target dispatch_faucet_event
  handle_target-IsTimed name target c v =
      let d = (handle_port_change_debounce json event target now c).1 in
      let e = (handle_ports_status json event d).1 in
      let v1 = handle_port_change_debounce-IsTimed target c v in
      let v2 = Same-IsTimed d e (handle_ports_status-Same json event d) v1 in
      let v3 = Same-IsTimed e _ (dispatch_each-Same (handlers_of name e) event target e) v2 in
      chosen IsTimed (handle_port_change_debounce json event target now c).0 _ _
        (chosen IsTimed (handle_ports_status json event d).0 _ _ v3 v2) v1

  dispatch_target-IsTimed :
      (name : Option String) (valid : Bool) (c : Client)
      → IsTimed c
      → IsTimed (dispatch_target json event now name valid c).1
  dispatch_target-IsTimed none valid c v = v
  dispatch_target-IsTimed (some name) valid c v = elim (Option-cases (message_of event name)) [
    | inl e ↦ rw (e, dispatch_target) v
    | inr (target, e) ↦
        rw (e, dispatch_target)
          (chosen IsTimed valid (returning json (handle_target json event name target now c))
            (pure none c) (handle_target-IsTimed name target c v) v)
  ]

  handle_event-IsTimed : (c : Client) → IsTimed c → IsTimed (handle_event json event now c).1
  unfolding handle_event
  handle_event-IsTimed c v =
      after-keeps IsTimed (valid_event_order event c)
        (λ valid d. dispatch_target json event now (event_target event d.handlers) valid d)
        (Same-IsTimed c _ (valid_event_order-Same event c) v)
        (λ valid d. dispatch_target-IsTimed (event_target event d.handlers) valid d)

next_turn-IsTimed :
    (json : Json) (now : ℕ) (c : Client) → IsTimed c → IsTimed (next_turn json now c).1
unfolding next_turn
next_turn-IsTimed json now c v = elim (Option-cases (Buffer.split_line c.buffer)) [
  | inl e ↦ rw (e, next_turn) v
  | inr ((line, remainder), e) ↦ rw (e, next_turn) (parsed (json.loads line) remainder)
]
  where
    shorter : (text : Buffer.Text) → IsTimed (record c { buffer = text })
    shorter text = record { current = v.current; apart = v.apart }

    parsed :
        (loaded : Option Event) (text : Buffer.Text)
        → IsTimed
            (elim loaded as (λ _. Result (Option Event) × Client) [
              | none ↦ pure none (record c { buffer = text })
              | some event ↦ handle_event json event now (record c { buffer = text })
            ]).1
    parsed none text = shorter text
    parsed (some event) text = handle_event-IsTimed json event now _ (shorter text)

feed-IsTimed :
    (json : Json) (i : Input) (now : ℕ) (c : Client) → IsTimed c → IsTimed (feed json i now c)
unfolding feed register_handler
feed-IsTimed json (received chunk) now c v = record { current = v.current; apart = v.apart }
feed-IsTimed json turn now c v = next_turn-IsTimed json now c v
feed-IsTimed json (fired n) now c v = elim (Option-cases (find_timer n c.running)) [
  | inl e ↦ rw (e, feed) v
  | inr (t, e) ↦
      rw (e, feed)
        (fire-IsTimed json t now c v (find_timer-runs (IsCurrent c) n c.running t e v.current))
]
feed-IsTimed json (registered name handler) now c v = record {
  current = v.current;
  apart = v.apart;
}
feed-IsTimed json (horizon n) now c v = record { current = v.current; apart = v.apart }

feed_all-IsTimed :
    (json : Json) (inputs : List (Input × ℕ)) (c : Client)
    → IsTimed c
    → IsTimed (feed_all json inputs c)
unfolding feed_all
feed_all-IsTimed json [] c v = v
feed_all-IsTimed json ((i, now) ∷ inputs) c v =
    feed_all-IsTimed json inputs (feed json i now c) (feed-IsTimed json i now c v)

-- What an up event of a port leaves: no timer of the port, and the event behind the lines that wait
pub record IsAnnounced (json : Json) (event : Event) (port now : ℕ) (c d : Client) : Type 0 where
  pub timed : IsTimed d
  pub quiet : NoTimer (event.dp_id, port) d
  pub queued :
      view d.buffer
      ≡ push (json.dumps (merge_event event (make_port_change port true) now true)) (view c.buffer)

cancel_timer-buffer : (dpid port : ℕ) (c : Client) → (cancel_timer dpid port c).buffer ≡ c.buffer
unfolding cancel_timer
cancel_timer-buffer dpid port c = ground arith

-- Whatever a client has read and waited for, if events are written on one line: every timer that
-- runs is the only one of its port and reports that the port is down; and when a port is up, the
-- timer that it may have is cancelled, so that no report that the port is down follows, and the
-- report that it is up is queued as the last complete line.
pub up_settles :
    (json : Json) (inputs : List (Input × ℕ)) (event : Event) (port now : ℕ)
    → ((e : Event) → IsLine (json.dumps e))
    → let c = feed_all json inputs create in
      IsTimed c × IsAnnounced json event port now c (debounce_port_event json event port true now c)
unfolding debounce_port_event handle_debounce
up_settles json inputs event port now one_line =
    let c = feed_all json inputs create in
    let merged = merge_event event (make_port_change port true) now true in
    let v = feed_all-IsTimed json inputs create (record { current = tt; apart = tt }) in
    (
      v,
      record {
        timed = debounce_port_event-IsTimed json event port now c v true;
        quiet = cancel_timer-NoTimer c v event.dp_id port;
        queued =
            view-append_event (json.dumps merged) (cancel_timer event.dp_id port c).buffer
              (one_line merged)
            ∙ ap (λ b. push (json.dumps merged) (view b)) (cancel_timer-buffer event.dp_id port c);
      },
    )
