-- ===== src/Base/Equality.antt =====
-- Python's `==` and `in`, for every type whose equality can be decided, and the conditional.
use Prim.Native.Nat.{ℕ}
use Prim.Native.String.{String}
use mathlib.Core.Path.{◌≡◌, refl, ap}
use mathlib.Core.Logic.{ite, dite, ◌⊎◌, inl, inr}
use mathlib.Core.Bool.{Bool, true, false, cond, ◌||◌, Bool-discrete}
use mathlib.Core.Option.{Option, none, some}
use mathlib.Core.List.{List, [], ◌∷◌}
use native.Mathlib.Decide.{ℕ_discrete}
use text.Mathlib.Text
use text.Mathlib.TextEquality.{eq_iff}

infix 1 if◌then◌else◌
abbrev pub if◌then◌else◌ {ℓ} : {A : Type ℓ} → Bool → A → A → A
if b then x else y = cond b x y

pub record Eq {ℓ} (A : Type ℓ) : Type ℓ where
  pub dec : Discrete A

module _ {ℓ} {A : Type ℓ} ⦃e : Eq A⦄ where
  infix 50 ◌==◌
  abbrev pub ◌==◌ : A → A → Bool
  a == b = ite (e.dec a b) true false

  -- `a in xs`
  abbrev pub contains : List A → A → Bool
  contains [] a = false
  contains (x ∷ xs) a = a == x || contains xs a

-- Shut in proofs, where a split on `s == t` yields the equation or its negation.
instance unfoldable pub string_eq : Eq String
string_eq = record {
  dec = λ s t.
      dite (Bool-discrete (Text.◌==◌ s t) true) (λ same. yes ((eq_iff s t).0 same))
        (λ differ. no (λ p. differ ((eq_iff s t).1 p)));
}

instance unfoldable pub nat_eq : Eq ℕ
unfolding ℕ_discrete
nat_eq = record { dec = ℕ_discrete }

instance unfoldable pub bool_eq : Eq Bool
bool_eq = record { dec = Bool-discrete }

pair_dec {ℓ κ} : {A : Type ℓ} {B : Type κ} → Discrete A → Discrete B → Discrete (A × B)
pair_dec d e (a, b) (a', b') =
    dite (d a a')
      (λ p.
        dite (e b b') (λ q. yes (λ i. (p i, q i))) (λ n. no (λ r. n (ap (λ (t : _ × _). t.1) r))))
      (λ n. no (λ r. n (ap (λ (t : _ × _). t.0) r)))

instance unfoldable pub pair_eq {ℓ κ} : {A : Type ℓ} {B : Type κ} ⦃d : Eq A⦄ ⦃e : Eq B⦄ → Eq (A × B)
unfolding pair_dec
pair_eq ⦃d⦄ ⦃e⦄ = record { dec = pair_dec d.dec e.dec }

pub heads {ℓ} : {A : Type ℓ} (x y : A) (xs ys : List A) → x ∷ xs ≡ y ∷ ys → x ≡ y
heads x y xs ys r = cc

pub tails {ℓ} : {A : Type ℓ} (x y : A) (xs ys : List A) → x ∷ xs ≡ y ∷ ys → xs ≡ ys
tails x y xs ys r = cc

list_dec {ℓ} : {A : Type ℓ} → Discrete A → Discrete (List A)
list_dec d [] [] = yes refl
list_dec d [] (y ∷ ys) = no (λ e. cc)
list_dec d (x ∷ xs) [] = no (λ e. cc)
list_dec d (x ∷ xs) (y ∷ ys) =
    let rest = list_dec d xs ys in
    dite (d x y) (λ p. dite rest (λ q. yes (λ i. p i ∷ q i)) (λ n. no (λ r. n (tails x y xs ys r))))
      (λ n. no (λ r. n (heads x y xs ys r)))

instance unfoldable pub list_eq {ℓ} : {A : Type ℓ} ⦃e : Eq A⦄ → Eq (List A)
unfolding list_dec
list_eq ⦃e⦄ = record { dec = list_dec e.dec }

-- To split on a computed value and keep the equation.
pub Bool-cases : (b : Bool) → (b ≡ true) ⊎ (b ≡ false)
Bool-cases true = inl refl
Bool-cases false = inr refl

pub Option-cases {ℓ} : {A : Type ℓ} (o : Option A) → (o ≡ none) ⊎ ((a : A) × (o ≡ some a))
Option-cases none = inl refl
Option-cases (some a) = inr (a, refl)

pub somes {ℓ} : {A : Type ℓ} (x y : A) → some x ≡ some y → x ≡ y
somes x y p = cc

option_dec {ℓ} : {A : Type ℓ} → Discrete A → Discrete (Option A)
option_dec d none none = yes refl
option_dec d none (some y) = no (λ e. cc)
option_dec d (some x) none = no (λ e. cc)
option_dec d (some x) (some y) =
    dite (d x y) (λ p. yes (ap some p)) (λ n. no (λ r. n (somes x y r)))

instance unfoldable pub option_eq {ℓ} : {A : Type ℓ} ⦃e : Eq A⦄ → Eq (Option A)
unfolding option_dec
option_eq ⦃e⦄ = record { dec = option_dec e.dec }
