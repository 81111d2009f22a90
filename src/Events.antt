-- ===== src/Events.antt =====
-- `FaucetEventClient` of forch/faucet_event_client.py: the order of Faucet's events and the
-- debouncing of ports. Reading and writing JSON are parameters; what a client waits for, the socket
-- and the clock, comes as inputs. The calls of the handlers are recorded in `out`.
pub mod Buffer
pub mod Types
pub mod Debounce
pub mod Order
pub mod Timers
mod Tests
use mathlib.Core.Option
use forch.Base.{
  ℕ, zero, suc, ◌+◌, String, Bool, true, false, Option, none, some, List, [], ◌∷◌, ◌++◌, contains,
  is_some, not, ◌&&◌, truthy, leb, string_eq, nat_eq, bool_eq, pair_eq, ◌==◌, if◌then◌else◌,
}
use forch.Base.Dict
use forch.Base.Dict.{Dict}
use forch.Base.Exec.{
  Exec, Result, ok, ◌>>=◌, ◌>>◌, pure, raise, assertion_error, faucet_event_order_error,
}
use forch.Events.Buffer.{Text}
use forch.Events.Types.{
  PortChange, Event, Json, Timer, Target, change_of, message, Dispatch, Client, create,
  set_event_horizon, handlers_of,
}
use forch.Events.Debounce.{handle_port_change_debounce, handle_ports_status, fire}

-- The messages of `FaucetEvent` in proto/faucet_event.proto but for `PORT_CHANGE`
abbrev pub faucet_messages : List String
faucet_messages =
    "CONFIG_CHANGE" ∷ "DP_CHANGE" ∷ "LAG_CHANGE" ∷ "STACK_STATE" ∷ "STACK_TOPO_CHANGE" ∷ "L2_LEARN"
    ∷ "L2_EXPIRE" ∷ []

-- `name in event`, for the name of a message
abbrev pub in_event : Event → String → Bool
in_event event name =
    if name == "PORT_CHANGE"
    then is_some event.port_change
    else if name == "PORTS_STATUS"
    then is_some event.ports_status
    else contains event.messages name

-- `getattr(faucet_event, name, None)`, for a name that the event has
abbrev pub message_of : Event → String → Option Target
message_of event name =
    if name == "PORT_CHANGE"
    then Option.map change_of event.port_change
    else if contains faucet_messages name
    then some (message name)
    else none

-- `_valid_event_order` of an event that was not debounced, after the last event
abbrev pub in_order : ℕ → Option ℕ → Exec Client Bool
in_order event_id none c = raise assertion_error c
in_order event_id (some zero) c = raise assertion_error c
in_order event_id (some (suc n)) c =
    if leb event_id (suc n)
    then pure false c
    else let t = record c { last_event_id = some (suc n + 1) } in
      if event_id == suc n + 1 then pure true t else raise faucet_event_order_error t

-- `_valid_event_order`
unfoldable pub valid_event_order : Event → Exec Client Bool
valid_event_order event c =
    if event.debounced then pure true c else in_order event.event_id c.last_event_id c

-- `event_target`: the first registered name that the event has
unfoldable pub event_target : Event → Dict String (List ℕ) → Option String
event_target event [] = none
event_target event ((name, _) ∷ handlers) =
    let rest = event_target event handlers in if in_event event name then some name else rest

-- `register_handler`, under the name of its messages
unfoldable pub register_handler : String → ℕ → Client → Client
register_handler name handler c = record c {
  handlers = Dict.insert name (handlers_of name c ++ (handler ∷ [])) c.handlers;
}

-- The calls of `_dispatch_faucet_event`, with the time and the switch that `_augment_event_proto` sets
unfoldable pub dispatch_each : List ℕ → Event → Target → Client → Client
dispatch_each [] event target c = c
dispatch_each (h ∷ handlers) event target c =
    let call : Dispatch = record {
      handler = h;
      target = target;
      timestamp = event.time;
      dp_name = event.dp_name;
    } in
    dispatch_each handlers event target (record c { out = c.out ++ (call ∷ []) })

-- `_dispatch_faucet_event`
unfoldable pub dispatch_faucet_event : String → Event → Target → Client → Bool × Client
unfolding dispatch_each
dispatch_faucet_event name event target c =
    (Dict.has name c.handlers, dispatch_each (handlers_of name c) event target c)

module _ (json : Json) where
  -- What the turn of `next_event` does with an event in order, and the event that it returns
  unfoldable pub handle_target : Event → String → Target → ℕ → Client → Option Event × Client
  unfolding handle_port_change_debounce handle_ports_status dispatch_faucet_event
  handle_target event name target now c =
      let (go, d) = handle_port_change_debounce json event target now c in
      let (on, e) = handle_ports_status json event d in
      let (known, f) = dispatch_faucet_event name event target e in
      if go then if on then (if known then none else some event, f) else (none, e) else (none, d)

  abbrev pub returning : Option Event × Client → Result (Option Event) × Client
  returning (event, c) = (ok event, c)

  -- `dispatch`, which is false without a message of the event, or out of order
  abbrev pub dispatch_target : Event → ℕ → Option String → Bool → Exec Client (Option Event)
  dispatch_target event now none valid c = pure none c
  dispatch_target event now (some name) valid c = elim (message_of event name) [
    | none ↦ pure none c
    | some target ↦ if valid then returning (handle_target event name target now c) else pure none c
  ]

  -- A turn of `next_event`, from the parsed event on
  unfoldable pub handle_event : Event → ℕ → Exec Client (Option Event)
  unfolding event_target valid_event_order handle_target
  handle_event event now = valid_event_order event >>= λ valid c.
      dispatch_target event now (event_target event c.handlers) valid c

  -- A turn of the loop of `next_event`
  unfoldable pub next_turn : ℕ → Exec Client (Option Event)
  unfolding handle_event
  next_turn now c = elim (Buffer.split_line c.buffer) [
    | none ↦ pure none c
    | some (line, remainder) ↦
        let d = record c { buffer = remainder } in
        elim (json.loads line) [ none ↦ pure none d | some event ↦ handle_event event now d ]
  ]

-- What a client waits for. A timer fires by its number.
pub data Input : Type 0 where
  received : Text → Input
  turn : Input
  fired : ℕ → Input
  registered : String → ℕ → Input
  horizon : ℕ → Input

abbrev pub find_timer : ℕ → List Timer → Option Timer
find_timer n [] = none
find_timer n (t ∷ timers) = let rest = find_timer n timers in if t.number == n then some t else rest

-- One input at a time of the clock. A turn that raises leaves its state to the next input.
unfoldable pub feed : Json → Input → ℕ → Client → Client
unfolding next_turn fire register_handler
feed json (received chunk) now c = record c { buffer = c.buffer ++ chunk }
feed json turn now c = (next_turn json now c).1
feed json (fired n) now c = elim (find_timer n c.running) [ none ↦ c | some t ↦ fire json t now c ]
feed json (registered name handler) now c = register_handler name handler c
feed json (horizon n) now c = set_event_horizon n c

unfoldable pub feed_all : Json → List (Input × ℕ) → Client → Client
unfolding feed
feed_all json [] c = c
feed_all json ((i, now) ∷ inputs) c = feed_all json inputs (feed json i now c)
