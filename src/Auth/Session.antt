-- ===== src/Auth/Session.antt =====
-- `AuthStateMachine` of forch/simple_auth_state_machine.py: the MAB session of one device.
-- Times are in whole seconds, and a handler reads the clock once: `now`. The callbacks that a
-- handler calls are recorded, in order, in `out`.
pub mod Invariant
pub mod Access
pub mod Timer
use forch.Base.{
  ℕ, ◌+◌, ◌*◌, String, Bool, true, false, not, Option, none, some, List, [], ◌∷◌, ◌++◌, ltb, truthy,
  or_default, if◌then◌else◌,
}
use forch.Base.Exec.{Exec, Error, Result, ok, raised, pure, gets, modify, assert, when, ◌>>=◌, ◌>>◌}

-- `_current_state`; `unset` is the `None` that it holds before the constructor is done.
pub data AuthState : Type 0 where
  unset unauth request accept : AuthState

-- `==` on the states.
abbrev pub is : AuthState → AuthState → Bool
is unset unset = true
is unauth unauth = true
is request request = true
is accept accept = true
is _ _ = false

-- The timeouts and the retry limit of `auth_config`; 0 is a field that is not given.
pub record AuthConfig : Type 0 where
  pub max_radius_retries : ℕ
  pub query_timeout_sec : ℕ
  pub reject_timeout_sec : ℕ
  pub auth_timeout_sec : ℕ

pub data Callback : Type 0 where
  radius_query : String → ℕ → Callback
  auth_result : String → AuthState → Option String → Option String → Callback
  inc_var : String → Callback

-- What `send_mab_request`, which `_radius_query_callback` is, raises for an address and a port at a
-- time: nothing, or the error of an attribute that cannot be made or of the socket.
abbrev pub QueryErrors : Type 0
QueryErrors = String → ℕ → ℕ → Option Error

pub record Session : Type 0 where
  pub src_mac : String
  pub port_id : ℕ
  pub current_state : AuthState
  pub radius_retries : ℕ
  pub current_timeout : ℕ
  pub max_retries : ℕ
  pub query_timeout : ℕ
  pub rej_timeout : ℕ
  pub auth_timeout : ℕ
  pub query_errors : QueryErrors
  pub metrics : Bool
  pub out : List Callback

abbrev pub default_max_retries : ℕ
default_max_retries = 5

abbrev pub default_query_timeout : ℕ
default_query_timeout = 10

abbrev pub default_reject_timeout : ℕ
default_reject_timeout = 300

abbrev pub default_auth_timeout : ℕ
default_auth_timeout = 3600

abbrev pub Action : Type 0
Action = Exec Session (Unit {0})

abbrev call : Callback → Action
call c = modify (λ s. record s { out = s.out ++ (c ∷ []) })

-- `_increment_radius_retries`
increment_radius_retries : Action
increment_radius_retries = modify (λ s. record s { radius_retries = s.radius_retries + 1 })

-- `_calculate_backoff_sec`
abbrev pub calculate_backoff_sec : Session → ℕ
calculate_backoff_sec s = s.radius_retries * s.query_timeout

-- `_state_transition` with no `expected` state
state_transition : AuthState → Action
state_transition target = modify (λ s. record s { current_state = target })

-- `_state_transition` with an `expected` state, which it asserts
state_transition_from : AuthState → AuthState → Action
unfolding state_transition
state_transition_from target expected = do
  state ← gets (λ s. s.current_state)
  assert (is state expected)
  state_transition target

-- `_reset_state_machine`
reset_state_machine : ℕ → Action
unfolding state_transition
reset_state_machine now = do
  state_transition unauth
  modify (λ s. record s { radius_retries = 0; current_timeout = now + s.rej_timeout })

-- The rest of `_resend_radius_request`, which is not come to if the query raises
abbrev pub sent : ℕ → Option Error → Action
sent now none s = (ok tt, record s { current_timeout = now + calculate_backoff_sec s })
sent now (some e) s = (raised e, s)

-- `_resend_radius_request`
resend_radius_request : ℕ → Action
resend_radius_request now = do
  s ← gets (λ s. s)
  call (radius_query s.src_mac s.port_id)
  sent now (s.query_errors s.src_mac s.port_id now)

-- `_auth_callback(self.src_mac, access, segment, role)`
abbrev report : AuthState → Option String → Option String → Action
report access segment role = do s ← gets (λ s. s); call (auth_result s.src_mac access segment role)

unfoldable pub host_learned : ℕ → Action
unfolding reset_state_machine state_transition_from resend_radius_request
host_learned now = do
  state ← gets (λ s. s.current_state)
  when (not (is state unauth)) (reset_state_machine now)
  state_transition_from request unauth
  resend_radius_request now

unfoldable pub host_expired : ℕ → Action
unfolding reset_state_machine
host_expired now = do reset_state_machine now; report unauth none none

unfoldable pub received_radius_accept : Option String → Option String → ℕ → Action
unfolding state_transition_from
received_radius_accept segment role now s =
    if is s.current_state request
    then (do
      state_transition_from accept request
      modify (λ s. record s { current_timeout = now + s.auth_timeout; radius_retries = 0 })
      report accept segment role)
        s
    else (ok tt, s)

unfoldable pub received_radius_reject : ℕ → Action
unfolding reset_state_machine
received_radius_reject now s =
    if is s.current_state request
    then (do reset_state_machine now; report unauth none none) s
    else (ok tt, s)

-- The first branch of `handle_sm_timer`, where the session waits for a response.
request_timeout : ℕ → Action
unfolding increment_radius_retries resend_radius_request reset_state_machine
request_timeout now = do
  s ← gets (λ s. s)
  when (truthy s.radius_retries) (
      if ltb s.radius_retries s.max_retries
      then (do increment_radius_retries; resend_radius_request now)
      else (do reset_state_machine now; report unauth none none))
  when s.metrics (call (inc_var "radius_query_timeouts"))

-- The branches of `handle_sm_timer` behind its test of the clock.
timeout_in : AuthState → ℕ → Action
unfolding state_transition request_timeout resend_radius_request reset_state_machine
timeout_in request now = request_timeout now
timeout_in accept now = do state_transition request; resend_radius_request now
timeout_in unauth now = do state_transition request; resend_radius_request now
timeout_in unset now = do reset_state_machine now; report unauth none none

unfoldable pub handle_sm_timer : ℕ → Action
unfolding timeout_in
handle_sm_timer now s =
    if ltb s.current_timeout now then timeout_in s.current_state now s else (ok tt, s)

-- `__init__`, whose last step resets the machine.
unfoldable pub create : String → ℕ → AuthConfig → QueryErrors → Bool → ℕ → Session
unfolding reset_state_machine
create src_mac port_id config query_errors metrics now =
    (reset_state_machine now (record {
      src_mac = src_mac;
      port_id = port_id;
      current_state = unset;
      radius_retries = 0;
      current_timeout = 0;
      max_retries = or_default config.max_radius_retries default_max_retries;
      query_timeout = or_default config.query_timeout_sec default_query_timeout;
      rej_timeout = or_default config.reject_timeout_sec default_reject_timeout;
      auth_timeout = or_default config.auth_timeout_sec default_auth_timeout;
      query_errors = query_errors;
      metrics = metrics;
      out = [];
    })).1

-- What can happen to a session.
pub data Event : Type 0 where
  learned expired rejected timer : Event
  accepted : Option String → Option String → Event

unfoldable pub handle : Event → ℕ → Action
unfolding host_learned host_expired received_radius_accept received_radius_reject handle_sm_timer
handle learned now = host_learned now
handle expired now = host_expired now
handle (accepted segment role) now = received_radius_accept segment role now
handle rejected now = received_radius_reject now
handle timer now = handle_sm_timer now

-- A life of the session: events, each with the time at which it is handled.
unfoldable pub run : List (Event × ℕ) → Session → Session
run [] s = s
run ((e, now) ∷ es) s = run es (handle e now s).1
