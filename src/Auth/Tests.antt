-- ===== src/Auth/Tests.antt =====
-- A session and an authenticator at concrete inputs.
use forch.Base.{
  ℕ, ◌≡◌, refl, String, true, false, not, ◌||◌, none, some, List, [], ◌∷◌, ◌++◌, ◌==◌,
  if◌then◌else◌, nat_eq, string_eq,
}
use forch.Base.Dict
use forch.Base.Exec.{raised, value_error}
use forch.Auth.Session.{
  handle_sm_timer, received_radius_accept, host_learned, request, accept, AuthConfig, QueryErrors,
  Session, Event, learned, timer, accepted, create, handle, run, auth_result, radius_query,
}
use forch.Auth.Session.Invariant.{IsValid, run-IsValid}
use forch.Auth.Session.Access.{IsReported, run-IsReported}
use forch.Auth.Session.Timer.{ticks, queries, request_waits_forever}
use forch.Auth.Sessions
use forch.Auth.Sessions.{
  Authenticator, Placement, Code, port_id_of, process_device_placement, process_radius_result,
  Input, placed, answered, tick, feed, feed_all, empty,
}
use forch.Auth.Sessions.Laws.{IsSound, IsAllowed}
use forch.Auth.Sessions.Methods.{process_device_placement-has}
use forch.Auth.Sessions.Runs.{inputs_raise_queries_only}

abbrev mac : String
mac = "9a:02:57:1e:8f:01"

abbrev config : AuthConfig
config = record {
  max_radius_retries = 3;
  query_timeout_sec = 0;
  reject_timeout_sec = 20;
  auth_timeout_sec = 60;
}

-- Queries that raise nothing, and queries that raise at one time
abbrev silent : QueryErrors
silent m port now = none

abbrev failing : QueryErrors
failing m port now = if now == 90 then some value_error else none

abbrev fresh : Session
fresh = create mac 5 config silent true 100

abbrev day : List (Event × ℕ)
day = (learned, 101) ∷ (accepted (some "SEG_A") none, 102) ∷ (timer, 200) ∷ []

-- The session asks, is accepted, and asks anew when the authentication has run out.
day_lem :
    let s = run day fresh in
    (s.current_state ≡ request)
    × (s.current_timeout ≡ 200)
    × (s.out
        ≡ radius_query mac 5 ∷ auth_result mac accept (some "SEG_A") none ∷ radius_query mac 5 ∷ [])
unfolding run handle create
day_lem = (refl, refl, refl)

run-IsValid_example : IsValid mac 5 (run day fresh)
run-IsValid_example = run-IsValid mac 5 config silent true 100 day

run-IsReported_example : IsReported (run day fresh)
run-IsReported_example = run-IsReported mac 5 config silent true 100 day

request_waits_forever_example :
    let t = run (ticks (300 ∷ 400 ∷ 500 ∷ [])) (run day fresh) in
    (t.current_state ≡ request) × (queries t.out ≡ queries (run day fresh).out)
request_waits_forever_example =
    request_waits_forever mac 5 config silent true 100 day (300 ∷ 400 ∷ 500 ∷ []) day_lem.0

abbrev asking : Session
asking = run ((learned, 101) ∷ []) fresh

asking_request : (asking.current_state ≡ request) × (asking.auth_timeout ≡ 60)
unfolding run handle create
asking_request = (refl, refl)

abbrev here : Placement
here = record { switch = "t2sw1"; port = 5; connected = true }

abbrev gone : Placement
gone = record here { connected = false }

abbrev before : List (Input × ℕ)
before = (placed mac here, 1) ∷ (answered mac Sessions.accept (some "SEG_A") none, 2) ∷ []

abbrev inputs : List (Input × ℕ)
inputs = before ++ ((tick, 90) ∷ [])

abbrev busy : Authenticator
busy = feed_all inputs (empty config failing true true)

-- The authentication has run out at the tick, and the query that it sends raises.
raises : (feed tick 90 (feed_all before (empty config failing true true))).0 ≡ raised value_error
unfolding feed feed_all Dict.lookup Dict.insert string_eq nat_eq create port_id_of Dict.keys
    handle_sm_timer received_radius_accept host_learned
raises = refl

inputs_raise_queries_only_example :
    IsSound busy × IsAllowed failing 91 (feed (placed mac gone) 91 busy).0
inputs_raise_queries_only_example =
    inputs_raise_queries_only config failing true true inputs (placed mac gone) 91

busy-IsSound : IsSound busy
busy-IsSound = (inputs_raise_queries_only config failing true true inputs tick 91).0

process_device_placement-has_example :
    Dict.has mac (process_device_placement mac gone 91 busy).1.sessions
    ≡ (gone.connected || not (Dict.has mac busy.sessions))
process_device_placement-has_example = process_device_placement-has mac gone 91 busy busy-IsSound
