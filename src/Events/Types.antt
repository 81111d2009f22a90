-- ===== src/Events/Types.antt =====
-- The events of Faucet, and the state of `FaucetEventClient` of forch/faucet_event_client.py.
use forch.Base.{ℕ, String, Bool, Option, none, some, List, [], string_eq, nat_eq, bool_eq, pair_eq}
use forch.Base.Dict
use forch.Base.Dict.{Dict}
use forch.Events.Buffer.{Text}

-- `PORT_CHANGE` of an event
pub record PortChange : Type 0 where
  pub port_no : ℕ
  pub status : Bool
  pub reason : String

-- An event is a dict: what it has besides its fields, and the names of further messages in it
pub record Event : Type 0 where
  pub dp_name : String
  pub dp_id : ℕ
  pub event_id : ℕ
  pub time : ℕ
  pub debounced : Bool
  pub port_change : Option PortChange
  pub ports_status : Option (Dict ℕ Bool)
  pub messages : List String

-- `json.dumps` and `json.loads` on events
pub record Json : Type 0 where
  pub dumps : Event → Text
  pub loads : Text → Option Event

-- A timer that runs, with the arguments of its `_handle_debounce`
pub record Timer : Type 0 where
  pub number : ℕ
  pub event : Event
  pub port : ℕ
  pub active : Bool

-- The message of the event that is handled
pub data Target : Type 0 where
  change_of : PortChange → Target
  message : String → Target

pub record Dispatch : Type 0 where
  pub handler : ℕ
  pub target : Target
  pub timestamp : ℕ
  pub dp_name : String

pub record Client : Type 0 where
  pub buffer : Text
  pub handlers : Dict String (List ℕ)
  pub previous_state : Dict (ℕ × ℕ) Bool
  pub port_timers : Dict (ℕ × ℕ) ℕ
  pub running : List Timer
  pub next_timer : ℕ
  pub last_event_id : Option ℕ
  pub out : List Dispatch

-- `__init__` and `connect`
abbrev pub create : Client
create = record {
  buffer = [];
  handlers = [];
  previous_state = [];
  port_timers = [];
  running = [];
  next_timer = 0;
  last_event_id = none;
  out = [];
}

-- `self._handlers.get(name, [])`
abbrev pub handlers_of : String → Client → List ℕ
handlers_of name c = elim (Dict.lookup name c.handlers) [ none ↦ [] | some handlers ↦ handlers ]

-- `set_event_horizon`
abbrev pub set_event_horizon : ℕ → Client → Client
set_event_horizon horizon c = record c { last_event_id = some horizon }
