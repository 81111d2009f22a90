-- ===== src/Auth/Session/Timer.antt =====
-- The timer of a session.
use forch.Base.{
  ℕ, ◌+◌, ◌≤◌, ◌<◌, ◌≡◌, refl, ◌∙◌, ap, String, Bool, Option, none, some, List, [], ◌∷◌, ◌++◌,
  arith, All, ltb, if◌then◌else◌,
}
use forch.Auth.Session.{
  AuthState, request, accept, AuthConfig, QueryErrors, Callback, radius_query, auth_result, inc_var,
  Session, Event, timer, accepted, handle_sm_timer, create, handle, run,
}
use forch.Base.Exec.{Error}
use forch.Auth.Session.Invariant.{error_of, IsValid, handle-IsValid, run-IsValid}

-- A timeout of no seconds, which is not set if the query raises
abbrev pub timed : ℕ → Option Error → Session → Session
timed now none s = record s { current_timeout = now }
timed now (some e) s = s

-- A session asked the server again.
abbrev pub asked : ℕ → Session → Session
asked now s =
    timed now (error_of s now)
      (record s { current_state = request; out = s.out ++ (radius_query s.src_mac s.port_id ∷ []) })

-- A session counted a timeout.
abbrev pub counted : Session → Session
counted s =
    if s.metrics then record s { out = s.out ++ (inc_var "radius_query_timeouts" ∷ []) } else s

-- What the timer does in each state, once its time has passed.
abbrev pub timed_out : AuthState → ℕ → Session → Session
timed_out request now s = counted s
timed_out _ now s = asked now s

-- The timer of a session that has lived through any events: before the timeout it does nothing;
-- after it, it asks the server anew from the states UNAUTH and ACCEPT with a timeout of no
-- seconds, unless the query raises, and in REQUEST it does no more than count the timeout.
pub handle_sm_timer_lem :
    (mac : String) (port now : ℕ) (s : Session)
    → IsValid mac port s
    → (handle_sm_timer now s).1
      ≡ (if ltb s.current_timeout now then timed_out s.current_state now s else s)
unfolding handle_sm_timer
handle_sm_timer_lem mac port now s v = ground arith

-- Only ticks of the timer.
abbrev pub ticks : List ℕ → List (Event × ℕ)
ticks [] = []
ticks (now ∷ times) = (timer, now) ∷ ticks times

abbrev pub queries : List Callback → ℕ
queries [] = 0
queries (radius_query m p ∷ out) = queries out + 1
queries (c ∷ out) = queries out

queries-snoc_count :
    (out : List Callback) (name : String) → queries (out ++ (inc_var name ∷ [])) ≡ queries out
queries-snoc_count [] name = refl
queries-snoc_count (radius_query m p ∷ out) name = omega (arith, queries-snoc_count out name)
queries-snoc_count (auth_result m a b c ∷ out) name = queries-snoc_count out name
queries-snoc_count (inc_var n ∷ out) name = queries-snoc_count out name

-- What a session that lost its response keeps.
record IsStuck (s t : Session) : Type 0 where
  waiting : t.current_state ≡ request
  no_retry : t.radius_retries ≡ 0
  no_query : queries t.out ≡ queries s.out

timer-IsStuck : (s t : Session) (now : ℕ) → IsStuck s t → IsStuck s (handle timer now t).1
unfolding handle
timer-IsStuck s t now v = ground (arith, queries-snoc_count t.out "radius_query_timeouts")

ticks-IsStuck : (s t : Session) (times : List ℕ) → IsStuck s t → IsStuck s (run (ticks times) t)
unfolding run
ticks-IsStuck s t [] v = v
ticks-IsStuck s t (now ∷ times) v =
    ticks-IsStuck s (handle timer now t).1 times (timer-IsStuck s t now v)

-- A lost response is never asked for again: a session that has lived through any events and now
-- waits in REQUEST stays there, and sends no query, however often and however late its timer
-- fires.
pub request_waits_forever :
    (mac : String) (port : ℕ) (config : AuthConfig) (errors : QueryErrors) (metrics : Bool)
    (start : ℕ) (es : List (Event × ℕ)) (times : List ℕ)
    → let s = run es (create mac port config errors metrics start) in
      s.current_state ≡ request
      → let t = run (ticks times) s in (t.current_state ≡ request) × (queries t.out ≡ queries s.out)
request_waits_forever mac port config errors metrics start es times h =
    let v = run-IsValid mac port config errors metrics start es in
    let s = run es (create mac port config errors metrics start) in
    let k : IsStuck s (run (ticks times) s) =
      ticks-IsStuck s s times
        (record { waiting = h; no_retry = v.never_retried; no_query = refl }) in
    (k.waiting, k.no_query)

accepted_due :
    (segment role : Option String) (t : ℕ) (s : Session)
    → s.current_state ≡ request
    → let a = (handle (accepted segment role) t s).1 in
      (a.current_state ≡ accept) × (a.current_timeout ≡ t + s.auth_timeout)
unfolding handle
accepted_due segment role t s waits = ground arith

tick_early :
    (mac : String) (port now : ℕ) (s : Session)
    → IsValid mac port s
    → now ≤ s.current_timeout
    → (handle_sm_timer now s).1 ≡ s
tick_early mac port now s v early = ground (arith, handle_sm_timer_lem mac port now s v)

ticks_early :
    (mac : String) (port : ℕ) (times : List ℕ) (s : Session)
    → IsValid mac port s
    → All (λ now. now ≤ s.current_timeout) times
    → run (ticks times) s ≡ s
unfolding run handle
ticks_early mac port [] s v early = refl
ticks_early mac port (now ∷ times) s v early =
    ap (run (ticks times)) (tick_early mac port now s v early.0)
    ∙ ticks_early mac port times s v early.1

after_timer :
    (mac : String) (port now : ℕ) (s : Session)
    → IsValid mac port s
    → s.current_state ≡ accept
    → s.current_timeout < now
    → (handle timer now s).1 ≡ asked now s
unfolding handle
after_timer mac port now s v e l = ground (arith, handle_sm_timer_lem mac port now s v)

-- A session that waits in REQUEST and is accepted at one time stays as it is for any number of
-- ticks up to `auth_timeout_sec` later, and is asked for again at the first tick after that.
pub accept_lasts :
    (mac : String) (port : ℕ) (segment role : Option String) (t : ℕ) (times : List ℕ) (late : ℕ)
    (s : Session)
    → IsValid mac port s
    → s.current_state ≡ request
    → All (λ now. now ≤ t + s.auth_timeout) times
    → t + s.auth_timeout < late
    → let a = (handle (accepted segment role) t s).1 in
      (run (ticks times) a ≡ a) × ((handle timer late a).1 ≡ asked late a)
accept_lasts mac port segment role t times late s v waits early l =
    let a = (handle (accepted segment role) t s).1 in
    let w = (handle-IsValid mac port (accepted segment role) t s v).0 in
    let (is_accepted, due) = accepted_due segment role t s waits in
    (
      ticks_early mac port times a w (rw due early),
      after_timer mac port late a w is_accepted (rw due l),
    )
