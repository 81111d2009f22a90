-- ===== src/Base/Exec.antt =====
-- Methods of Python objects: a method takes the object's state and ends with a value or with
-- an exception, and the state that it leaves behind is kept in both cases.
use mathlib.Core.Path.{◌≡◌}
use mathlib.Core.Bool.{Bool, true, false}

pub data Error : Type 0 where
  assertion_error attribute_error key_error value_error parse_error type_error : Error
  faucet_event_order_error unbound_local_error plain_exception struct_error : Error

pub data Result {ℓ} (A : Type ℓ) : Type ℓ where
  ok : A → Result A
  raised : Error → Result A

abbrev pub Exec : Type 0 → Type 0 → Type 0
Exec S A = S → Result A × S

abbrev pub pure : {S A : Type 0} → A → Exec S A
pure a s = (ok a, s)

abbrev pub raise : {S A : Type 0} → Error → Exec S A
raise e s = (raised e, s)

abbrev pub after : {S A B : Type 0} → Result A × S → (A → Exec S B) → Result B × S
after (ok a, s) f = f a s
after (raised e, s) f = (raised e, s)

infixl 5 ◌>>=◌ ◌>>◌
abbrev pub ◌>>=◌ : {S A B : Type 0} → Exec S A → (A → Exec S B) → Exec S B
◌>>=◌ m f s = after (m s) f

abbrev pub ◌>>◌ : {S B : Type 0} → Exec S (Unit {0}) → Exec S B → Exec S B
m >> k = m >>= λ _. k

abbrev pub gets : {S A : Type 0} → (S → A) → Exec S A
gets f s = (ok (f s), s)

abbrev pub modify : {S : Type 0} → (S → S) → Exec S (Unit {0})
modify f s = (ok tt, f s)

-- `assert test`
abbrev pub assert : {S : Type 0} → Bool → Exec S (Unit {0})
assert true = pure tt
assert false = raise assertion_error

abbrev pub when : {S : Type 0} → Bool → Exec S (Unit {0}) → Exec S (Unit {0})
when true m = m
when false m = pure tt

after-ok :
    {S A B : Type 0} (r : Result A × S) (f : A → Exec S B) (a : A)
    → r.0 ≡ ok a
    → after r f ≡ f a r.1
after-ok (ok b, s) f a h = cc
after-ok (raised e, s) f a h = cc

-- A step that did not raise goes on with what follows it.
pub >>-eq_of_ok :
    {S B : Type 0} (m : Exec S (Unit {0})) (k : Exec S B) (s : S)
    → (m s).0 ≡ ok tt
    → (m >> k) s ≡ k (m s).1
>>-eq_of_ok m k s h = after-ok (m s) (λ _. k) tt h

pub >>=-eq_of_ok :
    {S A B : Type 0} (m : Exec S A) (k : A → Exec S B) (s : S) (a : A)
    → (m s).0 ≡ ok a
    → (m >>= k) s ≡ k a (m s).1
>>=-eq_of_ok m k s a h = after-ok (m s) k a h

-- What the first step leaves and the second keeps
pub after-keeps :
    {S A B : Type 0} (P : S → Type 0) (r : Result A × S) (f : A → Exec S B)
    → P r.1
    → ((a : A) (s : S) → P s → P (f a s).1)
    → P (after r f).1
after-keeps P (ok a, s) f p k = k a s p
after-keeps P (raised e, s) f p k = p
