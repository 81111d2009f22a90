-- ===== src/Auth/Session/Access.antt =====
-- When a session grants access.
use forch.Base.{
  ℕ, ◌+◌, ◌≤◌, ◌≡◌, refl, ◌≢◌, String, Bool, Option, none, some, List, [], ◌∷◌, ◌++◌, arith,
}
use forch.Auth.Session.{
  AuthState, unset, unauth, request, accept, AuthConfig, QueryErrors, Callback, radius_query,
  auth_result, inc_var, Session, Event, learned, expired, rejected, timer, accepted,
  handle_sm_timer, create, handle, run,
}
use forch.Auth.Session.Invariant.{IsValid, create-IsValid, handle-IsValid}
use forch.Auth.Session.Timer.{queries, counted, timed_out, handle_sm_timer_lem}

-- How often access was granted.
abbrev pub grants : List Callback → ℕ
grants [] = 0
grants (auth_result m accept segment role ∷ out) = grants out + 1
grants (c ∷ out) = grants out

-- The last access that was reported, from the one before.
abbrev pub view : Option AuthState → List Callback → Option AuthState
view last [] = last
view last (auth_result m state segment role ∷ out) = view (some state) out
view last (c ∷ out) = view last out

queries-snoc :
    (out : List Callback) (c : Callback)
    → queries (out ++ (c ∷ [])) ≡ queries out + queries (c ∷ [])
queries-snoc [] c = omega arith
queries-snoc (radius_query m p ∷ out) c = omega (arith, queries-snoc out c)
queries-snoc (auth_result m a b d ∷ out) c = queries-snoc out c
queries-snoc (inc_var n ∷ out) c = queries-snoc out c

grants-snoc :
    (out : List Callback) (c : Callback) → grants (out ++ (c ∷ [])) ≡ grants out + grants (c ∷ [])
grants-snoc [] c = omega arith
grants-snoc (radius_query m p ∷ out) c = grants-snoc out c
grants-snoc (auth_result m accept b d ∷ out) c = omega (arith, grants-snoc out c)
grants-snoc (auth_result m unset b d ∷ out) c = grants-snoc out c
grants-snoc (auth_result m unauth b d ∷ out) c = grants-snoc out c
grants-snoc (auth_result m request b d ∷ out) c = grants-snoc out c
grants-snoc (inc_var n ∷ out) c = grants-snoc out c

view-snoc :
    (last : Option AuthState) (out : List Callback) (c : Callback)
    → view last (out ++ (c ∷ [])) ≡ view (view last out) (c ∷ [])
view-snoc last [] c = refl
view-snoc last (radius_query m p ∷ out) c = view-snoc last out c
view-snoc last (auth_result m state b d ∷ out) c = view-snoc (some state) out c
view-snoc last (inc_var n ∷ out) c = view-snoc last out c

abbrev waiting : AuthState → ℕ
waiting request = 1
waiting _ = 0

-- What was reported to the callback follows from the state of the session.
pub record IsReported (s : Session) : Type 0 where
  pub granted : s.current_state ≡ accept → view none s.out ≡ some accept
  pub refused : s.current_state ≡ unauth → view none s.out ≢ some accept
  pub asked_first : grants s.out + waiting s.current_state ≤ queries s.out

create-IsReported :
    (mac : String) (port : ℕ) (config : AuthConfig) (errors : QueryErrors) (metrics : Bool)
    (now : ℕ)
    → IsReported (create mac port config errors metrics now)
unfolding create
create-IsReported mac port config errors metrics now = ground arith

module _ (s : Session) where
  abbrev Snoc : Callback → Type 0
  Snoc c =
      (queries (s.out ++ (c ∷ [])) ≡ queries s.out + queries (c ∷ []))
      × (grants (s.out ++ (c ∷ [])) ≡ grants s.out + grants (c ∷ []))
      × (view none (s.out ++ (c ∷ [])) ≡ view (view none s.out) (c ∷ []))

  snoc : (c : Callback) → Snoc c
  snoc c = (queries-snoc s.out c, grants-snoc s.out c, view-snoc none s.out c)

counted-IsReported : (s : Session) → IsReported s → IsReported (counted s)
counted-IsReported s r = ground (arith, snoc s (inc_var "radius_query_timeouts"))

timed_out-IsReported :
    (state : AuthState) (now : ℕ) (s : Session)
    → s.current_state ≡ state
    → IsReported s
    → IsReported (timed_out state now s)
timed_out-IsReported request now s e r = counted-IsReported s r
timed_out-IsReported _ now s e r = ground (arith, snoc s (radius_query s.src_mac s.port_id))

timer-IsReported :
    (mac : String) (port now : ℕ) (s : Session)
    → IsValid mac port s
    → IsReported s
    → IsReported (handle_sm_timer now s).1
timer-IsReported mac port now s v r =
    rw (handle_sm_timer_lem mac port now s v)
      (ground (arith, timed_out-IsReported s.current_state now s refl r))

handle-IsReported :
    (mac : String) (port : ℕ) (e : Event) (now : ℕ) (s : Session)
    → IsValid mac port s
    → IsReported s
    → IsReported (handle e now s).1
unfolding handle
handle-IsReported mac port learned now s v r =
    ground (arith, snoc s (radius_query s.src_mac s.port_id))
handle-IsReported mac port expired now s v r =
    ground (arith, snoc s (auth_result s.src_mac unauth none none))
handle-IsReported mac port rejected now s v r =
    ground (arith, snoc s (auth_result s.src_mac unauth none none))
handle-IsReported mac port timer now s v r = timer-IsReported mac port now s v r
handle-IsReported mac port (accepted segment role) now s v r =
    ground (arith, snoc s (auth_result s.src_mac accept segment role))

run-IsReported_from :
    (mac : String) (port : ℕ) (es : List (Event × ℕ)) (s : Session)
    → IsValid mac port s
    → IsReported s
    → IsReported (run es s)
unfolding run
run-IsReported_from mac port [] s v r = r
run-IsReported_from mac port ((e, now) ∷ es) s v r =
    run-IsReported_from mac port es (handle e now s).1 (handle-IsValid mac port e now s v).0
      (handle-IsReported mac port e now s v r)

-- After any events of a session: if it is in ACCEPT, the access that it reported last is ACCEPT;
-- if it is in UNAUTH, the last report, if there was one, is not ACCEPT; and it has granted access
-- at most as often as it has asked the server, a query that still waits not counted.
pub run-IsReported :
    (mac : String) (port : ℕ) (config : AuthConfig) (errors : QueryErrors) (metrics : Bool)
    (start : ℕ) (es : List (Event × ℕ))
    → IsReported (run es (create mac port config errors metrics start))
run-IsReported mac port config errors metrics start es =
    run-IsReported_from mac port es _ (create-IsValid mac port config errors metrics start)
      (create-IsReported mac port config errors metrics start)
