-- ===== src/Base/Tests.antt =====
-- Boolean order tests on the native numbers, and Python's `or` on values.
use Prim.Native.Nat.{ℕ, zero, suc, ◌≤◌, ◌<◌, compare, Ordering}
use mathlib.Core.Path.{◌≡◌}
use mathlib.Core.Bool.{Bool, true, false, ◌&&◌}
use mathlib.Core.Option.{Option, none, some}
use native.Mathlib.Omega.{arith}

abbrev pub ltb : ℕ → ℕ → Bool
ltb a b = elim (compare a b) [ Ordering.lt ↦ true | _ ↦ false ]

abbrev pub leb : ℕ → ℕ → Bool
leb a b = elim (compare a b) [ Ordering.gt ↦ false | _ ↦ true ]

-- The truth value of a number: everything but 0 is true.
abbrev pub truthy : ℕ → Bool
truthy zero = false
truthy (suc n) = true

-- `n or default` on numbers.
abbrev pub or_default : ℕ → ℕ → ℕ
or_default zero default = default
or_default (suc n) default = suc n

-- `a or b` where a missing value is `None` and every present one is true.
abbrev pub or_else {ℓ} : {A : Type ℓ} → Option A → Option A → Option A
or_else none other = other
or_else (some a) other = some a

abbrev pub is_some {ℓ} : {A : Type ℓ} → Option A → Bool
is_some none = false
is_some (some a) = true

pub ltb→lt : (a b : ℕ) → ltb a b ≡ true → a < b
ltb→lt a b h = ground arith

pub lt→ltb : (a b : ℕ) → a < b → ltb a b ≡ true
lt→ltb a b h = ground arith

pub leb→le : (a b : ℕ) → leb a b ≡ true → a ≤ b
leb→le a b h = ground arith

pub ruleset tests = (arith, ltb→lt, lt→ltb, leb→le)

-- Whether a test holds of all numbers below a bound, found by trying them.
unfoldable pub holds_below : (ℕ → Bool) → ℕ → Bool
holds_below test zero = true
holds_below test (suc bound) = holds_below test bound && test bound

pub holds_below-true :
    (test : ℕ → Bool) (k bound : ℕ) → holds_below test bound ≡ true → k < bound → test k ≡ true
unfolding holds_below
holds_below-true test k zero held l = absurd (omega arith)
holds_below-true test k (suc bound) held l = ground (arith, holds_below-true test k bound)
