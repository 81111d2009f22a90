-- ===== src/Port/Inputs/Safe.antt =====
-- Methods that keep the manager sound and raise nothing, put together.
use forch.Base.{◌≡◌, refl, String, Bool, true, false, if◌then◌else◌}
use forch.Base.Exec.{Exec, Result, ok, ◌>>=◌, ◌>>◌, >>=-eq_of_ok, when, modify, gets, pure}
use forch.Port.Types.{Event}
use forch.Port.State.{Manager, Action}
use forch.Port.Machine.{send}
use forch.Port.Machine.Quiet.{IsKept}
use forch.Port.Machine.Send.{IsSound, kept-IsSound, send-IsSent, is_auth}
use forch.Port.Manager.Sound.{IsHandled}

-- A method ended without an exception, in a sound state.
pub record IsFine {A : Type 0} (r : Result A × Manager) : Type 0 where
  pub value : (a : A) × (r.0 ≡ ok a)
  pub sound : IsSound r.1

abbrev pub Safe : {A : Type 0} → Exec Manager A → Type 0
Safe k = (m : Manager) → IsSound m → IsFine (k m)

pub >>=-Safe :
    {A B : Type 0} (m : Exec Manager A) (k : A → Exec Manager B)
    → Safe m
    → ((a : A) → Safe (k a))
    → Safe (m >>= k)
>>=-Safe m k f g s v =
    let h = f s v in rw (>>=-eq_of_ok m k s h.value.0 h.value.1) (g h.value.0 (m s).1 h.sound)

pub >>-Safe : {B : Type 0} (m : Action) (k : Exec Manager B) → Safe m → Safe k → Safe (m >> k)
>>-Safe m k f g = >>=-Safe m (λ _. k) f (λ _. g)

pub pure-Safe : {A : Type 0} (a : A) → Safe (pure {S = Manager} a)
pure-Safe a m v = record { value = (a, refl); sound = v }

pub gets-Safe : {A : Type 0} (f : Manager → A) → Safe (gets f)
gets-Safe f m v = record { value = (f m, refl); sound = v }

pub modify-Safe : (f : Manager → Manager) → ((m : Manager) → IsKept m (f m)) → Safe (modify f)
modify-Safe f kept m v = record { value = (tt, refl); sound = kept-IsSound m (f m) (kept m) v }

pub when-Safe : (b : Bool) (k : Action) → Safe k → Safe (when b k)
when-Safe true k f = f
when-Safe false k f = pure-Safe tt

pub IsHandled-IsFine :
    (mac : String) (m : Manager) (r : Result (Unit {0}) × Manager) → IsHandled mac m r → IsFine r
IsHandled-IsFine mac m r h = record { value = (tt, h.succeeds); sound = h.sound }

-- An event that authentication does not send needs nothing.
pub send-Safe : (mac : String) (event : Event) → is_auth event ≡ false → Safe (send mac event)
send-Safe mac event n m v =
    let sent = send-IsSent mac event m v (λ a. cc (n, a)) in
    record { value = (tt, sent.succeeds); sound = sent.sound }

pub if-Safe :
    {A : Type 0} (b : Bool) (k l : Exec Manager A) → Safe k → Safe l → Safe (if b then k else l)
if-Safe true k l f g = f
if-Safe false k l f g = g
