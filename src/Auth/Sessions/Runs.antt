-- ===== src/Auth/Sessions/Runs.antt =====
-- The heartbeat, and whole runs of the authenticator.
use forch.Base.{
  ℕ, ◌≡◌, refl, ◌∙◌, ap, inl, String, Bool, true, List, [], ◌∷◌, All, is_some, string_eq,
}
use forch.Base.Dict
use mathlib.Core.Path.{subst}
use forch.Base.Exec.{Exec, Result, ok, raised, after}
use forch.Auth.Session
use forch.Auth.Session.{Session, AuthConfig, QueryErrors}
use forch.Auth.Sessions.{
  Authenticator, call_session, tick_each, handle_sm_timeout, Input, placed, answered, tick, feed,
  feed_all, empty,
}
use forch.Auth.Sessions.Laws.{
  IsAllowed, IsSound, IsStored, IsStep, call_session-IsStep, call_session-has, timer-IsSafe,
}
use forch.Auth.Sessions.Methods.{process_device_placement-IsStep, process_radius_result-IsStep}

-- An input of an authenticator raises nothing but what a query raises, and leaves it sound.
abbrev pub IsFine : QueryErrors → ℕ → Result (Unit {0}) × Authenticator → Type 0
IsFine errors now r = IsAllowed errors now r.0 × IsSound r.1 × (r.1.query_errors ≡ errors)

-- Sessions come after one another; the first error ends the loop.
next-IsFine :
    (errors : QueryErrors) (now : ℕ) (r : Result (Unit {0}) × Authenticator)
    (k : Exec Authenticator (Unit {0}))
    → IsFine errors now r
    → IsFine errors now (k r.1)
    → IsFine errors now (after r (λ _. k))
next-IsFine errors now (ok a, s) k h g = g
next-IsFine errors now (raised e, s) k h g = h

abbrev Known : Authenticator → List String → Type 0
Known a = All (λ m. Dict.has m a.sessions ≡ true)

module _ (now : ℕ) where
  ticking : String → Authenticator → Result (Unit {0}) × Authenticator
  ticking mac = call_session mac (Session.handle_sm_timer now)

  ticking-IsStep :
      (mac : String) (a : Authenticator)
      → IsSound a
      → Dict.has mac a.sessions ≡ true
      → IsStep mac now a (ticking mac a)
  unfolding ticking
  ticking-IsStep mac a sound h =
      let (s, e) = Dict.has-eq_some mac a.sessions h in
      call_session-IsStep mac now _ (timer-IsSafe mac now) a s sound e

  ticking-has :
      (mac m : String) (a : Authenticator)
      → IsSound a
      → Dict.has mac a.sessions ≡ true
      → Dict.has m a.sessions ≡ true
      → Dict.has m (ticking mac a).1.sessions ≡ true
  unfolding ticking
  ticking-has mac m a sound h k = elim (string_eq.dec m mac) [
    | yes p ↦ rw p (
        call_session-has mac now _ (timer-IsSafe mac now) a _ (Dict.has-eq_some mac a.sessions h).1)
    | no n ↦ ap is_some ((ticking-IsStep mac a sound h).others m n) ∙ k
  ]

  ticking-Known :
      (mac : String) (macs : List String) (a : Authenticator)
      → IsSound a
      → Dict.has mac a.sessions ≡ true
      → Known a macs
      → Known (ticking mac a).1 macs
  ticking-Known mac [] a sound h k = tt
  ticking-Known mac (m ∷ macs) a sound h k =
      (ticking-has mac m a sound h k.0, ticking-Known mac macs a sound h k.1)

  tick_each-IsFine :
      (macs : List String) (errors : QueryErrors) (a : Authenticator)
      → a.query_errors ≡ errors
      → IsSound a
      → Known a macs
      → IsFine errors now (tick_each macs now a)
  unfolding tick_each ticking
  tick_each-IsFine [] errors a same sound k = (inl refl, sound, same)
  tick_each-IsFine (mac ∷ macs) errors a same sound k =
      let step = ticking-IsStep mac a sound k.0 in
      let r = ticking mac a in
      let keeps = step.errors ∙ same in
      next-IsFine errors now r (tick_each macs now)
        (subst (λ q. IsAllowed q now r.0) same step.allowed, step.sound, keeps)
        (tick_each-IsFine macs errors r.1 keeps step.sound (ticking-Known mac macs a sound k.0 k.1))

  -- The heartbeat keeps all sessions valid, and raises nothing but what a query raises.
  handle_sm_timeout-IsFine :
      (a : Authenticator) → IsSound a → IsFine a.query_errors now (handle_sm_timeout now a)
  unfolding handle_sm_timeout
  handle_sm_timeout-IsFine a sound =
      tick_each-IsFine (Dict.keys a.sessions) a.query_errors a refl sound (Dict.keys-has a.sessions)

feed-IsFine :
    (i : Input) (now : ℕ) (a : Authenticator) → IsSound a → IsFine a.query_errors now (feed i now a)
unfolding feed
feed-IsFine (placed mac placement) now a sound =
    let step = process_device_placement-IsStep mac placement now a sound in
    (step.allowed, step.sound, step.errors)
feed-IsFine (answered mac code segment role) now a sound =
    let step = process_radius_result-IsStep mac segment role now code a sound in
    (step.allowed, step.sound, step.errors)
feed-IsFine tick now a sound = handle_sm_timeout-IsFine now a sound

-- What holds after any inputs
abbrev Lives : QueryErrors → Authenticator → Type 0
Lives errors a = IsSound a × (a.query_errors ≡ errors)

feed_all-IsSound :
    (errors : QueryErrors) (inputs : List (Input × ℕ)) (a : Authenticator)
    → Lives errors a
    → Lives errors (feed_all inputs a)
unfolding feed_all
feed_all-IsSound errors [] a v = v
feed_all-IsSound errors ((i, now) ∷ inputs) a v =
    let (allowed, sound, same) = feed-IsFine i now a v.0 in
    feed_all-IsSound errors inputs (feed i now a).1 (sound, same ∙ v.1)

-- After any inputs of an authenticator that starts with no session, those included in which a RADIUS
-- query raises, every session is stored under its own address in a valid state. The next input,
-- whatever it is, raises nothing but what a query of its time raises: no session is missed and no
-- assertion fails. The callback of results and the metrics are taken to return.
pub inputs_raise_queries_only :
    (config : AuthConfig) (errors : QueryErrors) (metrics has_callback : Bool)
    (inputs : List (Input × ℕ)) (i : Input) (now : ℕ)
    → let a = feed_all inputs (empty config errors metrics has_callback) in
      IsSound a × IsAllowed errors now (feed i now a).0
inputs_raise_queries_only config errors metrics has_callback inputs i now =
    let start = empty config errors metrics has_callback in
    let a = feed_all inputs start in
    let v : Lives errors a =
      feed_all-IsSound errors inputs start (Dict.Each-nil (IsStored errors), refl) in
    (v.0, subst (λ q. IsAllowed q now (feed i now a).0) v.1 (feed-IsFine i now a v.0).0)
