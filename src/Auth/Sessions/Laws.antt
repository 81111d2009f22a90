-- ===== src/Auth/Sessions/Laws.antt =====
-- What the authenticator keeps of its sessions.
use forch.Base.{
  ℕ, ◌≡◌, refl, ◌≢◌, ◌∙◌, String, Bool, true, false, Option, none, some, ◌⊎◌, inl, inr, [],
  string_eq,
}
use forch.Base.Dict
use mathlib.Core.Path.{subst}
use forch.Base.Exec.{Error, Result, ok, raised, when, >>-eq_of_ok}
use forch.Auth.Session
use forch.Auth.Session.{Session, QueryErrors, learned, expired, rejected, timer, accepted, handle}
use forch.Auth.Session.Invariant.{
  Allows, error_of, IsValid, create-IsValid, handle-IsValid, handle-query_errors, expired_succeeds,
}
use forch.Auth.Sessions.{
  Authenticator, Placement, call_on, call_session, open_session, close_session, port_id_of,
}

-- A session is stored under its own address, in a valid state, with the query of the authenticator.
abbrev pub IsStored : QueryErrors → String → Session → Type 0
IsStored errors mac s = (port : ℕ) × IsValid mac port s × (s.query_errors ≡ errors)

abbrev pub IsSound : Authenticator → Type 0
IsSound a = Dict.Each (IsStored a.query_errors) a.sessions

-- A result that raises nothing, or what a query raises at the time
abbrev pub IsAllowed : QueryErrors → ℕ → Result (Unit {0}) → Type 0
IsAllowed errors now r =
    (r ≡ ok tt)
    ⊎ ((mac : String) × (port : ℕ) × (e : Error) × (errors mac port now ≡ some e) × (r ≡ raised e))

allowed :
    (errors : QueryErrors) (mac : String) (port now : ℕ) (o : Option Error) (r : Result (Unit {0}))
    → errors mac port now ≡ o
    → Allows o r
    → IsAllowed errors now r
allowed errors mac port now none r e h = inl h
allowed errors mac port now (some x) r e (inl h) = inl h
allowed errors mac port now (some x) r e (inr h) = inr (mac, port, x, e, h)

-- A method that keeps a session valid and raises nothing but what its query raises.
abbrev IsSafe : ℕ → String → Session.Action → Type 0
IsSafe now mac method =
    (port : ℕ) (s : Session)
    → IsValid mac port s
    → IsValid mac port (method s).1
      × IsAllowed s.query_errors now (method s).0
      × ((method s).1.query_errors ≡ s.query_errors)

handle-IsSafe : (mac : String) (e : Session.Event) (now : ℕ) → IsSafe now mac (handle e now)
handle-IsSafe mac e now port s v =
    let (valid, allows) = handle-IsValid mac port e now s v in
    (
      valid,
      allowed s.query_errors s.src_mac s.port_id now (error_of s now) (handle e now s).0 refl
          allows,
      handle-query_errors e now s,
    )

pub learned-IsSafe : (mac : String) (now : ℕ) → IsSafe now mac (Session.host_learned now)
unfolding handle
learned-IsSafe mac now = handle-IsSafe mac learned now

pub expired-IsSafe : (mac : String) (now : ℕ) → IsSafe now mac (Session.host_expired now)
unfolding handle
expired-IsSafe mac now = handle-IsSafe mac expired now

pub timer-IsSafe : (mac : String) (now : ℕ) → IsSafe now mac (Session.handle_sm_timer now)
unfolding handle
timer-IsSafe mac now = handle-IsSafe mac timer now

pub rejected-IsSafe : (mac : String) (now : ℕ) → IsSafe now mac (Session.received_radius_reject now)
unfolding handle
rejected-IsSafe mac now = handle-IsSafe mac rejected now

pub accepted-IsSafe :
    (mac : String) (segment role : Option String) (now : ℕ)
    → IsSafe now mac (Session.received_radius_accept segment role now)
unfolding handle
accepted-IsSafe mac segment role now = handle-IsSafe mac (accepted segment role) now

quiet :
    (mac : String) (port : ℕ) (s : Session)
    → IsValid mac port s
    → IsValid mac port (record s { out = [] })
quiet mac port s v = record {
  is_set = v.is_set;
  never_retried = v.never_retried;
  own_mac = v.own_mac;
  own_port = v.own_port;
  own_callbacks = tt;
}

-- A write of a valid session under its own address.
insert-IsSound :
    (mac : String) (s : Session) (a : Authenticator)
    → IsStored a.query_errors mac s
    → IsSound a
    → IsSound (record a { sessions = Dict.insert mac s a.sessions })
insert-IsSound mac s a v sound = Dict.Each-insert (IsStored a.query_errors) mac s a.sessions v sound

erase-IsSound :
    (mac : String) (a : Authenticator)
    → IsSound a
    → IsSound (record a { sessions = Dict.erase mac a.sessions })
erase-IsSound mac a sound = Dict.Each-erase (IsStored a.query_errors) mac a.sessions sound

-- What a step on the session of one address does to the rest.
pub record IsStep (mac : String) (now : ℕ) (a : Authenticator)
    (r : Result (Unit {0}) × Authenticator) : Type 0 where
  pub allowed : IsAllowed a.query_errors now r.0
  pub errors : r.1.query_errors ≡ a.query_errors
  pub sound : IsSound r.1
  pub others : (m : String) → m ≢ mac → Dict.lookup m r.1.sessions ≡ Dict.lookup m a.sessions

module _ (mac : String) (now : ℕ) (method : Session.Action) (safe : IsSafe now mac method) where
  call_on-IsStep :
      (a : Authenticator) (s : Session)
      → IsSound a
      → IsStored a.query_errors mac s
      → IsStep mac now a (call_on mac method s a)
  unfolding call_on
  call_on-IsStep a s sound (port, v, same) =
      let (valid, allows, keeps) = safe port s v in
      record {
        allowed = subst (λ errors. IsAllowed errors now (method s).0) same allows;
        errors = refl;
        sound =
            insert-IsSound mac (record (method s).1 { out = [] }) a
              (port, quiet mac port (method s).1 valid, keeps ∙ same) sound;
        others = λ m n. Dict.lookup-insert_ne m mac _ a.sessions n;
      }

  pub call_session-IsStep :
      (a : Authenticator) (s : Session)
      → IsSound a
      → Dict.lookup mac a.sessions ≡ some s
      → IsStep mac now a (call_session mac method a)
  unfolding call_session
  call_session-IsStep a s sound e = rw (e, call_session) (call_on-IsStep a s sound (sound mac s e))

  pub call_session-has :
      (a : Authenticator) (s : Session)
      → Dict.lookup mac a.sessions ≡ some s
      → Dict.has mac (call_session mac method a).1.sessions ≡ true
  unfolding call_session call_on
  call_session-has a s e = rw (e, call_session) (rw Dict.lookup-insert_self refl)

pub IsStep-trans :
    (mac : String) (now : ℕ) (a b : Authenticator) (r : Result (Unit {0}) × Authenticator)
    → b.query_errors ≡ a.query_errors
    → ((m : String) → m ≢ mac → Dict.lookup m b.sessions ≡ Dict.lookup m a.sessions)
    → IsStep mac now b r
    → IsStep mac now a r
IsStep-trans mac now a b r errors same step = record {
  allowed = subst (λ q. IsAllowed q now r.0) errors step.allowed;
  errors = step.errors ∙ errors;
  sound = step.sound;
  others = λ m n. step.others m n ∙ same m n;
}

-- Nothing is done.
pub idle-IsStep :
    (mac : String) (now : ℕ) (a : Authenticator) → IsSound a → IsStep mac now a (ok tt, a)
idle-IsStep mac now a sound = record {
  allowed = inl refl;
  errors = refl;
  sound = sound;
  others = λ m n. refl;
}

when_connected :
    (mac : String) (now : ℕ) (on : Bool) (a : Authenticator) (s : Session)
    → IsSound a
    → Dict.lookup mac a.sessions ≡ some s
    → IsStep mac now a (when on (call_session mac (Session.host_learned now)) a)
when_connected mac now true a s sound e =
    call_session-IsStep mac now (Session.host_learned now) (learned-IsSafe mac now) a s sound e
when_connected mac now false a s sound e = idle-IsStep mac now a sound

created :
    (mac : String) (port : ℕ) (a : Authenticator) (now : ℕ)
    → (Session.create mac port a.auth_config a.query_errors a.metrics now).query_errors
      ≡ a.query_errors
unfolding Session.create
created mac port a now = refl

pub open_session-IsStep :
    (mac : String) (placement : Placement) (now : ℕ) (a : Authenticator)
    → IsSound a
    → IsStep mac now a (open_session mac placement now a)
unfolding open_session
open_session-IsStep mac placement now a sound =
    let port = port_id_of placement.switch placement.port in
    let s = Session.create mac port a.auth_config a.query_errors a.metrics now in
    let b = record a { sessions = Dict.insert mac s a.sessions } in
    let valid = create-IsValid mac port a.auth_config a.query_errors a.metrics now in
    let b_sound : IsSound b = insert-IsSound mac s a (port, valid, created mac port a now) sound in
    IsStep-trans mac now a b _ refl (λ m n. Dict.lookup-insert_ne m mac s a.sessions n)
      (when_connected mac now placement.connected b s b_sound
        (Dict.lookup-insert_self mac s a.sessions))

erase-IsStep :
    (mac : String) (now : ℕ) (a b : Authenticator)
    → IsSound b
    → b.query_errors ≡ a.query_errors
    → ((m : String) → m ≢ mac → Dict.lookup m b.sessions ≡ Dict.lookup m a.sessions)
    → IsStep mac now a (ok tt, record b { sessions = Dict.erase mac b.sessions })
erase-IsStep mac now a b sound errors same = record {
  allowed = inl refl;
  errors = errors;
  sound = erase-IsSound mac b sound;
  others = λ m n. Dict.lookup-erase_ne m mac b.sessions n ∙ same m n;
}

-- The end of a session that is known raises nothing.
pub expire_succeeds :
    (mac : String) (now : ℕ) (a : Authenticator) (s : Session)
    → Dict.lookup mac a.sessions ≡ some s
    → (call_session mac (Session.host_expired now) a).0 ≡ ok tt
unfolding call_session call_on handle
expire_succeeds mac now a s e = rw (e, call_session) (expired_succeeds now s)

pub close_session-IsStep :
    (mac : String) (now : ℕ) (a : Authenticator) (s : Session)
    → IsSound a
    → Dict.lookup mac a.sessions ≡ some s
    → IsStep mac now a (close_session mac now a)
unfolding close_session
close_session-IsStep mac now a s sound e =
    let expire = call_session mac (Session.host_expired now) in
    let step =
      call_session-IsStep mac now (Session.host_expired now) (expired-IsSafe mac now) a s sound e in
    rw (>>-eq_of_ok expire _ a (expire_succeeds mac now a s e))
      (erase-IsStep mac now a (expire a).1 step.sound step.errors step.others)
