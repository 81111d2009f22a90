-- ===== src/Base/Text.antt =====
-- Python text: lower case, UTF-8 and decimal digits. Lower case is that of ASCII, which is
-- the alphabet of the MAC addresses that the program lowers.
use Prim.Native.Nat.{ℕ, zero, suc, ◌+◌, ◌-◌, ◌/◌, ◌%◌, ◌<◌}
use Prim.Native.Char.{Char, code}
use Prim.Native.String.{String, char_at}
use mathlib.Core.Path.{◌≡◌, refl, ap₂}
use mathlib.Core.Bool.{Bool, true, not, ◌&&◌}
use mathlib.Core.List.{List, [], ◌∷◌, ◌++◌}
use native.Mathlib.Omega.{arith}
use forch.Base.Equality.{if◌then◌else◌}
use forch.Base.Tests.{ltb, leb, holds_below, holds_below-true}

abbrev is_upper : ℕ → Bool
is_upper c = leb b'A' c && leb c b'Z'

small : ℕ → Char
small k = char_at "abcdefghijklmnopqrstuvwxyz" k

lower_char : Char → Char
lower_char c = if is_upper (code c) then small (code c - b'A') else c

-- `s.lower()`
unfoldable pub lower : String → String
unfolding lower_char small
lower String.[] = String.[]
lower (String.◌∷◌ c s) = String.◌∷◌ (lower_char c) (lower s)

small_table : holds_below (λ k. not (is_upper (code (small k)))) 26 ≡ true
unfolding holds_below small
small_table = refl

small-not_upper : (k : ℕ) → k < 26 → not (is_upper (code (small k))) ≡ true
small-not_upper k h = holds_below-true (λ j. not (is_upper (code (small j)))) k 26 small_table h

lower_char_idem : (c : Char) → lower_char (lower_char c) ≡ lower_char c
unfolding lower_char
lower_char_idem c = ground (arith, small-not_upper (code c - b'A'))

pub lower_idem : (s : String) → lower (lower s) ≡ lower s
unfolding lower
lower_idem String.[] = refl
lower_idem (String.◌∷◌ c s) = ap₂ String.◌∷◌ (lower_char_idem c) (lower_idem s)

utf8 : ℕ → List ℕ
utf8 c =
    if ltb c 128
    then c ∷ []
    else if ltb c 2048
    then (192 + c / 64) ∷ (128 + c % 64) ∷ []
    else if ltb c 65536
    then (224 + c / 4096) ∷ (128 + c / 64 % 64) ∷ (128 + c % 64) ∷ []
    else (240 + c / 262144) ∷ (128 + c / 4096 % 64) ∷ (128 + c / 64 % 64) ∷ (128 + c % 64) ∷ []

-- `s.encode('utf-8')`
unfoldable pub encode : String → List ℕ
unfolding utf8
encode String.[] = []
encode (String.◌∷◌ c s) = utf8 (code c) ++ encode s

digits_onto : ℕ → ℕ → List ℕ → List ℕ
digits_onto zero n acc = acc
digits_onto (suc fuel) n acc =
    let rest = digits_onto fuel (n / 10) ((b'0' + n % 10) ∷ acc) in
    if ltb n 10 then (b'0' + n) ∷ acc else rest

-- The bytes of `str(n)`. A number has at most as many digits as its value plus one.
unfoldable pub decimal : ℕ → List ℕ
unfolding digits_onto
decimal n = digits_onto (suc n) n []
