-- ===== src/Auth/Sessions/Methods.antt =====
-- Every input of the authenticator keeps its sessions valid, raises nothing but what a query raises, and leaves the
-- sessions of other devices alone.
use forch.Base.{
  ℕ, ◌≡◌, refl, ◌∙◌, sym, String, Bool, true, false, not, ◌||◌, ◌&&◌, Option, some, [], ◌∷◌, ◌++◌,
  inl, inr, string_eq, Option-cases,
}
use forch.Base.Dict
use forch.Base.Exec.{Exec, when, modify, ◌>>◌, >>-eq_of_ok}
use forch.Auth.Session
use forch.Auth.Session.{Session, inc_var}
use forch.Auth.Sessions.{
  Authenticator, Placement, Code, accept, is_invalid, inc, call_session, open_session,
  close_session, answer, process_device_placement, process_radius_result,
}
use forch.Auth.Sessions.Laws.{
  IsStep-trans, idle-IsStep, expire_succeeds, IsSound, IsStep, call_session-IsStep,
  open_session-IsStep, close_session-IsStep, call_session-has, learned-IsSafe, accepted-IsSafe,
  rejected-IsSafe,
}

or_true : (b : Bool) → (b || true) ≡ true
or_true true = refl
or_true false = refl

or_false : (b : Bool) → (b || false) ≡ b
or_false true = refl
or_false false = refl

when_gone :
    (mac : String) (now : ℕ) (on : Bool) (a : Authenticator) (s : Session)
    → IsSound a
    → Dict.lookup mac a.sessions ≡ some s
    → IsStep mac now a (when on (close_session mac now) a)
when_gone mac now true a s sound e = close_session-IsStep mac now a s sound e
when_gone mac now false a s sound e = idle-IsStep mac now a sound

-- A placement of a device, in any state of the authenticator whose sessions are valid, keeps all
-- sessions valid, raises nothing but what a query raises, and leaves the sessions of other devices as they are.
pub process_device_placement-IsStep :
    (mac : String) (placement : Placement) (now : ℕ) (a : Authenticator)
    → IsSound a
    → IsStep mac now a (process_device_placement mac placement now a)
unfolding process_device_placement
process_device_placement-IsStep mac placement now a sound =
    elim (Option-cases (Dict.lookup mac a.sessions)) [
      | inl e ↦ rw e (open_session-IsStep mac placement now a sound)
      | inr (s, e) ↦ rw e (when_gone mac now (not placement.connected) a s sound e)
    ]

when_connected-has :
    (mac : String) (now : ℕ) (on : Bool) (a : Authenticator) (s : Session)
    → Dict.lookup mac a.sessions ≡ some s
    → Dict.has mac (when on (call_session mac (Session.host_learned now)) a).1.sessions ≡ true
when_connected-has mac now true a s e =
    call_session-has mac now (Session.host_learned now) (learned-IsSafe mac now) a s e
when_connected-has mac now false a s e = rw e

open_session-has :
    (mac : String) (placement : Placement) (now : ℕ) (a : Authenticator)
    → Dict.has mac (open_session mac placement now a).1.sessions ≡ true
unfolding open_session
open_session-has mac placement now a =
    when_connected-has mac now placement.connected _ _ (Dict.lookup-insert_self mac _ a.sessions)

close_session-has :
    (mac : String) (now : ℕ) (a : Authenticator) (s : Session)
    → IsSound a
    → Dict.lookup mac a.sessions ≡ some s
    → Dict.has mac (close_session mac now a).1.sessions ≡ false
unfolding close_session
close_session-has mac now a s sound e =
    let expire = call_session mac (Session.host_expired now) in
    let forget : Exec Authenticator (Unit {0}) =
      modify (λ b. record b { sessions = Dict.erase mac b.sessions }) in
    rw (>>-eq_of_ok expire forget a (expire_succeeds mac now a s e))
      (rw Dict.lookup-erase_self refl)

when_gone-has :
    (mac : String) (now : ℕ) (connected : Bool) (a : Authenticator) (s : Session)
    → IsSound a
    → Dict.lookup mac a.sessions ≡ some s
    → Dict.has mac (when (not connected) (close_session mac now) a).1.sessions ≡ connected
when_gone-has mac now true a s sound e = rw e
when_gone-has mac now false a s sound e = close_session-has mac now a s sound e

-- A session is there after a placement if the device is connected, and also if it is not and had
-- no session before: a placement that ends opens one for a device that is not known.
pub process_device_placement-has :
    (mac : String) (placement : Placement) (now : ℕ) (a : Authenticator)
    → IsSound a
    → Dict.has mac (process_device_placement mac placement now a).1.sessions
      ≡ (placement.connected || not (Dict.has mac a.sessions))
unfolding process_device_placement
process_device_placement-has mac placement now a sound =
    elim (Option-cases (Dict.lookup mac a.sessions)) [
      | inl e ↦ rw e (open_session-has mac placement now a ∙ sym (or_true placement.connected))
      | inr (s, e) ↦ rw e (
          when_gone-has mac now placement.connected a s sound e
          ∙ sym (or_false placement.connected))
    ]

module _ (mac : String) where
  -- Counting a response changes no session.
  inc_then-IsStep :
      (now : ℕ) (on : Bool) (name : String) (m : Exec Authenticator (Unit {0})) (a : Authenticator)
      → IsSound a
      → ((b : Authenticator)
          → b.sessions ≡ a.sessions
          → b.query_errors ≡ a.query_errors
          → IsSound b
          → IsStep mac now b (m b))
      → IsStep mac now a ((when on (inc name) >> m) a)
  inc_then-IsStep now true name m a sound k =
      IsStep-trans mac now a (record a { out = a.out ++ (inc_var name ∷ []) }) _ refl (λ x n. refl)
        (k _ refl refl sound)
  inc_then-IsStep now false name m a sound k = k a refl refl sound

module _ (mac : String) (segment role : Option String) (now : ℕ) where
  answer-IsStep :
      (code : Code) (a : Authenticator) (s : Session)
      → IsSound a
      → Dict.lookup mac a.sessions ≡ some s
      → IsStep mac now a (answer mac code segment role now a)
  unfolding answer
  answer-IsStep accept a s sound e =
      inc_then-IsStep mac now a.metrics "radius_query_accepts" _ a sound λ b same errors b_sound.
        call_session-IsStep mac now _ (accepted-IsSafe mac segment role now) b s b_sound (rw same e)
  answer-IsStep _ a s sound e =
      inc_then-IsStep mac now a.metrics "radius_query_rejects" _ a sound λ b same errors b_sound.
        call_session-IsStep mac now _ (rejected-IsSafe mac now) b s b_sound (rw same e)

  when_known :
      (code : Code) (valid : Bool) (a : Authenticator)
      → IsSound a
      → IsStep mac now a
          (when (valid && Dict.has mac a.sessions) (answer mac code segment role now) a)
  when_known code false a sound = idle-IsStep mac now a sound
  when_known code true a sound = elim (Option-cases (Dict.lookup mac a.sessions)) [
    | inl e ↦ rw e (idle-IsStep mac now a sound)
    | inr (s, e) ↦ rw e (answer-IsStep code a s sound e)
  ]

  -- A RADIUS result for a device, in any state of the authenticator whose sessions are valid,
  -- keeps all sessions valid, raises nothing but what a query raises, and leaves the sessions of other devices as they
  -- are.
  pub process_radius_result-IsStep :
      (code : Code) (a : Authenticator)
      → IsSound a
      → IsStep mac now a (process_radius_result mac code segment role now a)
  unfolding process_radius_result
  process_radius_result-IsStep code a sound =
      inc_then-IsStep mac now a.metrics "radius_query_responses" _ a sound
        λ b same errors b_sound. rw (← same) (when_known code (not (is_invalid code)) b b_sound)
