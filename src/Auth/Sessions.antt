-- ===== src/Auth/Sessions.antt =====
-- `Authenticator` of forch/authenticator.py: the sessions of all devices by MAC address. Its
-- callbacks are those of the sessions, with the counters of `process_radius_result`.
pub mod PortId
pub mod Laws
pub mod Methods
pub mod Runs
use forch.Base.{
  ℕ, ◌+◌, ◌*◌, String, Bool, true, false, not, ◌&&◌, Option, none, some, List, [], ◌∷◌, ◌++◌, take,
  encode, decimal, string_eq, if◌then◌else◌,
}
use forch.Base.Dict
use forch.Base.Dict.{Dict}
use forch.Base.Exec.{Exec, Result, ok, raised, key_error, pure, gets, modify, when, ◌>>=◌, ◌>>◌}
use forch.Auth.Session
use forch.Auth.Session.{
  Session, AuthConfig, QueryErrors, Callback, radius_query, inc_var, auth_result,
}

-- `DevicePlacement` of proto/devices_state.proto.
pub record Placement : Type 0 where
  pub switch : String
  pub port : ℕ
  pub connected : Bool

-- The codes of forch/radius_query.py.
pub data Code : Type 0 where
  accept reject invalid_resp : Code

abbrev pub is_invalid : Code → Bool
is_invalid invalid_resp = true
is_invalid _ = false

pub record Authenticator : Type 0 where
  pub sessions : Dict String Session
  pub auth_config : AuthConfig
  pub query_errors : QueryErrors
  pub metrics : Bool
  pub has_callback : Bool
  pub out : List Callback

abbrev number_from : ℕ → List ℕ → ℕ
number_from n [] = n
number_from n (b ∷ bytes) = number_from (n * 256 + b) bytes

-- `int(text.hex()[:6], 16)`: six hexadecimal digits are three bytes.
unfoldable pub port_id_of : String → ℕ → ℕ
unfolding encode decimal
port_id_of switch port = number_from 0 (take 3 (encode switch ++ decimal port))

-- `process_session_result`, the callback of every session: a result goes on to `auth_callback`
-- if there is one.
process_session_result : Bool → List Callback → List Callback
process_session_result true out = out
process_session_result false [] = []
process_session_result false (auth_result mac state segment role ∷ out) =
    process_session_result false out
process_session_result false (radius_query mac port ∷ out) =
    radius_query mac port ∷ process_session_result false out
process_session_result false (inc_var name ∷ out) = inc_var name ∷ process_session_result false out

-- A method of a session that has been taken from `sessions`: its callbacks are made, and it goes
-- on with none recorded.
call_on : String → Session.Action → Session → Exec Authenticator (Unit {0})
unfolding process_session_result
call_on mac method s a =
    let (r, t) = method s in
    (
      r,
      record a {
        sessions = Dict.insert mac (record t { out = [] }) a.sessions;
        out = a.out ++ process_session_result a.has_callback t.out;
      },
    )

-- `self.sessions[src_mac].method()`
pub call_session : String → Session.Action → Exec Authenticator (Unit {0})
unfolding call_on
call_session mac method a = elim (Dict.lookup mac a.sessions) [
  | none ↦ (raised key_error, a)
  | some s ↦ call_on mac method s a
]

abbrev inc : String → Exec Authenticator (Unit {0})
inc name = modify (λ a. record a { out = a.out ++ (inc_var name ∷ []) })

-- The branch for a device that has no session.
pub open_session : String → Placement → ℕ → Exec Authenticator (Unit {0})
unfolding call_session
open_session mac placement now = do
  a ← gets (λ a. a)
  let port_id = port_id_of placement.switch placement.port
  let session = Session.create mac port_id a.auth_config a.query_errors a.metrics now
  modify (λ b. record b { sessions = Dict.insert mac session b.sessions })
  when placement.connected (call_session mac (Session.host_learned now))

-- The branch for a device that has one.
pub close_session : String → ℕ → Exec Authenticator (Unit {0})
unfolding call_session
close_session mac now = do
  call_session mac (Session.host_expired now)
  modify (λ b. record b { sessions = Dict.erase mac b.sessions })

unfoldable pub process_device_placement : String → Placement → ℕ → Exec Authenticator (Unit {0})
unfolding open_session close_session
process_device_placement mac placement now a =
    if not (Dict.has mac a.sessions)
    then open_session mac placement now a
    else when (not placement.connected) (close_session mac now) a

-- The tail of `process_radius_result`, which runs under the lock.
answer : String → Code → Option String → Option String → ℕ → Exec Authenticator (Unit {0})
unfolding call_session
answer mac accept segment role now = do
  a ← gets (λ a. a)
  when a.metrics (inc "radius_query_accepts")
  call_session mac (Session.received_radius_accept segment role now)
answer mac _ segment role now = do
  a ← gets (λ a. a)
  when a.metrics (inc "radius_query_rejects")
  call_session mac (Session.received_radius_reject now)

unfoldable pub process_radius_result :
    String → Code → Option String → Option String → ℕ → Exec Authenticator (Unit {0})
unfolding answer
process_radius_result mac code segment role now = do
  a ← gets (λ a. a)
  when a.metrics (inc "radius_query_responses")
  when (not (is_invalid code) && Dict.has mac a.sessions) (answer mac code segment role now)

-- The loop of `handle_sm_timeout` over the sessions, by their keys.
tick_each : List String → ℕ → Exec Authenticator (Unit {0})
unfolding call_session
tick_each [] now = pure tt
tick_each (mac ∷ macs) now = do call_session mac (Session.handle_sm_timer now); tick_each macs now

unfoldable pub handle_sm_timeout : ℕ → Exec Authenticator (Unit {0})
unfolding tick_each
handle_sm_timeout now a = tick_each (Dict.keys a.sessions) now a

-- An authenticator that has no session yet.
abbrev pub empty : AuthConfig → QueryErrors → Bool → Bool → Authenticator
empty config query_errors metrics has_callback = record {
  sessions = [];
  auth_config = config;
  query_errors = query_errors;
  metrics = metrics;
  has_callback = has_callback;
  out = [];
}

-- The three callers of the authenticator: the placements, the RADIUS socket and the heartbeat.
pub data Input : Type 0 where
  placed : String → Placement → Input
  answered : String → Code → Option String → Option String → Input
  tick : Input

unfoldable pub feed : Input → ℕ → Exec Authenticator (Unit {0})
unfolding process_device_placement process_radius_result handle_sm_timeout
feed (placed mac placement) now = process_device_placement mac placement now
feed (answered mac code segment role) now = process_radius_result mac code segment role now
feed tick now = handle_sm_timeout now

unfoldable pub feed_all : List (Input × ℕ) → Authenticator → Authenticator
feed_all [] a = a
feed_all ((i, now) ∷ inputs) a = feed_all inputs (feed i now a).1
