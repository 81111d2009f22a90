-- ===== src/Auth/Session/Invariant.antt =====
-- What holds of a session between two events, whatever the events are.
use forch.Base.{
  ◌⊎◌, Option, some, ℕ, ◌≡◌, refl, ◌≢◌, String, Bool, none, List, [], ◌∷◌, ◌++◌, arith, All,
}
use forch.Base.Exec.{Error, Result, ok, raised}
use forch.Auth.Session.{
  unset, unauth, accept, AuthConfig, QueryErrors, Callback, radius_query, auth_result, inc_var,
  Session, Event, learned, expired, rejected, timer, accepted, create, handle, run,
}

-- A callback speaks of the session's own device, and a query of its own port.
abbrev pub IsOwn : String → ℕ → Callback → Type 0
IsOwn mac port (radius_query m p) = (m ≡ mac) × (p ≡ port)
IsOwn mac port (auth_result m state segment role) = m ≡ mac
IsOwn mac port (inc_var name) = Unit

All-snoc {ℓ κ} :
    {A : Type ℓ} (P : A → Type κ) (xs : List A) (x : A) → All P xs → P x → All P (xs ++ (x ∷ []))
All-snoc P [] x h p = (p, tt)
All-snoc P (y ∷ xs) x h p = (h.0, All-snoc P xs x h.1 p)

pub record IsValid (mac : String) (port : ℕ) (s : Session) : Type 0 where
  pub is_set : s.current_state ≢ unset
  pub never_retried : s.radius_retries ≡ 0
  pub own_mac : s.src_mac ≡ mac
  pub own_port : s.port_id ≡ port
  pub own_callbacks : All (IsOwn mac port) s.out

pub create-IsValid :
    (mac : String) (port : ℕ) (config : AuthConfig) (errors : QueryErrors) (metrics : Bool)
    (now : ℕ)
    → IsValid mac port (create mac port config errors metrics now)
unfolding create
create-IsValid mac port config errors metrics now = record {
  is_set = λ e. cc;
  never_retried = refl;
  own_mac = refl;
  own_port = refl;
  own_callbacks = tt;
}

-- The result of a handler, for what the query raises at its time: it raises that or nothing.
abbrev pub Allows : Option Error → Result (Unit {0}) → Type 0
Allows none r = r ≡ ok tt
Allows (some e) r = (r ≡ ok tt) ⊎ (r ≡ raised e)

-- What the query of a session raises
abbrev pub error_of : Session → ℕ → Option Error
error_of s now = s.query_errors s.src_mac s.port_id now

-- Every handler keeps the invariant, and raises nothing but what the query raises.
pub handle-IsValid :
    (mac : String) (port : ℕ) (e : Event) (now : ℕ) (s : Session)
    → IsValid mac port s
    → IsValid mac port (handle e now s).1 × Allows (error_of s now) (handle e now s).0
unfolding handle
handle-IsValid mac port learned now s v =
    ground (arith, All-snoc (IsOwn mac port) s.out (radius_query s.src_mac s.port_id))
handle-IsValid mac port expired now s v =
    ground (arith, All-snoc (IsOwn mac port) s.out (auth_result s.src_mac unauth none none))
handle-IsValid mac port rejected now s v =
    ground (arith, All-snoc (IsOwn mac port) s.out (auth_result s.src_mac unauth none none))
handle-IsValid mac port timer now s v = ground (
  arith,
  All-snoc (IsOwn mac port) s.out (radius_query s.src_mac s.port_id),
  All-snoc (IsOwn mac port) s.out (inc_var "radius_query_timeouts"),
)
handle-IsValid mac port (accepted segment role) now s v =
    ground (arith, All-snoc (IsOwn mac port) s.out (auth_result s.src_mac accept segment role))

-- No handler changes what the query raises.
pub handle-query_errors :
    (e : Event) (now : ℕ) (s : Session) → (handle e now s).1.query_errors ≡ s.query_errors
unfolding handle
handle-query_errors learned now s = ground arith
handle-query_errors expired now s = ground arith
handle-query_errors rejected now s = ground arith
handle-query_errors timer now s = ground arith
handle-query_errors (accepted segment role) now s = ground arith

-- The end of a session asks nothing.
pub expired_succeeds : (now : ℕ) (s : Session) → (handle expired now s).0 ≡ ok tt
unfolding handle
expired_succeeds now s = ground arith

run-IsValid_from :
    (mac : String) (port : ℕ) (es : List (Event × ℕ)) (s : Session)
    → IsValid mac port s
    → IsValid mac port (run es s)
unfolding run
run-IsValid_from mac port [] s v = v
run-IsValid_from mac port ((e, now) ∷ es) s v =
    run-IsValid_from mac port es (handle e now s).1 (handle-IsValid mac port e now s v).0

-- Whatever the events of a session are, after them it is in one of its three states, it counts
-- no retry, and each callback that it has made speaks of its own device and port.
pub run-IsValid :
    (mac : String) (port : ℕ) (config : AuthConfig) (errors : QueryErrors) (metrics : Bool)
    (start : ℕ) (es : List (Event × ℕ))
    → IsValid mac port (run es (create mac port config errors metrics start))
run-IsValid mac port config errors metrics start es =
    run-IsValid_from mac port es _ (create-IsValid mac port config errors metrics start)
