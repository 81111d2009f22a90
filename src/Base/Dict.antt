-- ===== src/Base/Dict.antt =====
-- Dicts in insertion order. Proofs elsewhere go by the laws; only tests unfold the operations.
use mathlib.Core.Path.{◌≡◌, refl, sym, ap, ◌∙◌, subst₂}
use mathlib.Core.Logic.{◌≢◌, inl, inr}
use mathlib.Core.Bool.{Bool, true, false≢true}
use mathlib.Core.Option.{Option, none, some, none-ne-some}
use mathlib.Core.List.{List, [], ◌∷◌}
use native.Mathlib.Omega.{arith}
use forch.Base.Equality.{Eq, ◌==◌, if◌then◌else◌, Option-cases}
use forch.Base.Lists.{All}
use forch.Base.Tests.{is_some}

abbrev pub Dict {ℓ κ} : Type ℓ → Type κ → Type (ℓ ⊔ κ)
Dict K V = List (K × V)

module _ {ℓ κ} {K : Type ℓ} {V : Type κ} where
  unfoldable pub keys : Dict K V → List K
  keys [] = []
  keys ((k, _) ∷ d) = k ∷ keys d

  unfoldable pub values : Dict K V → List V
  values [] = []
  values ((_, v) ∷ d) = v ∷ values d

module _ {ℓ κ} {K : Type ℓ} {V : Type κ} ⦃e : Eq K⦄ where
  -- `d.get(k)`
  unfoldable pub lookup : K → Dict K V → Option V
  lookup k [] = none
  lookup k ((j, v) ∷ d) = if k == j then some v else lookup k d

  -- `k in d`
  abbrev pub has : K → Dict K V → Bool
  has k d = is_some (lookup k d)

  -- `d[k] = v`
  unfoldable pub insert : K → V → Dict K V → Dict K V
  insert k v [] = (k, v) ∷ []
  insert k v ((j, w) ∷ d) = if k == j then (k, v) ∷ d else (j, w) ∷ insert k v d

  -- `d.pop(k, None)`. Every entry of the key goes; a real dict has at most one.
  unfoldable pub erase : K → Dict K V → Dict K V
  erase k [] = []
  erase k ((j, w) ∷ d) = let rest = erase k d in if k == j then rest else (j, w) ∷ rest

  pub lookup-nil : (k : K) → lookup k [] ≡ none
  unfolding lookup
  lookup-nil k = refl

  pub lookup-cons :
      (j k : K) (v : V) (d : Dict K V)
      → lookup j ((k, v) ∷ d) ≡ (if j == k then some v else lookup j d)
  unfolding lookup
  lookup-cons j k v d = refl

  pub lookup-insert :
      (j k : K) (v : V) (d : Dict K V)
      → lookup j (insert k v d) ≡ (if j == k then some v else lookup j d)
  unfolding insert lookup
  lookup-insert j k v [] = refl
  lookup-insert j k v (_ ∷ d) = ground (arith, lookup-insert j k v d)

  pub lookup-insert_self : (k : K) (v : V) (d : Dict K V) → lookup k (insert k v d) ≡ some v
  lookup-insert_self k v d = ground (arith, lookup-insert k k v d)

  pub lookup-insert_ne :
      (j k : K) (v : V) (d : Dict K V) → j ≢ k → lookup j (insert k v d) ≡ lookup j d
  lookup-insert_ne j k v d n = ground (arith, lookup-insert j k v d)

  pub lookup-erase :
      (j k : K) (d : Dict K V) → lookup j (erase k d) ≡ (if j == k then none else lookup j d)
  unfolding erase lookup
  lookup-erase j k [] = ground arith
  lookup-erase j k (_ ∷ d) = ground (arith, lookup-erase j k d)

  pub lookup-erase_self : (k : K) (d : Dict K V) → lookup k (erase k d) ≡ none
  lookup-erase_self k d = ground (arith, lookup-erase k k d)

  pub lookup-erase_ne : (j k : K) (d : Dict K V) → j ≢ k → lookup j (erase k d) ≡ lookup j d
  lookup-erase_ne j k d n = ground (arith, lookup-erase j k d)

  -- Every entry of a dict satisfies a predicate.
  abbrev pub Each {μ} : (K → V → Type μ) → Dict K V → Type (ℓ ⊔ κ ⊔ μ)
  Each P d = (k : K) (v : V) → lookup k d ≡ some v → P k v

  found_self : (j k : K) (v w : V) (d : Dict K V) → j ≡ k → lookup j (insert k v d) ≡ some w → v ≡ w
  found_self j k v w d q h = ground (arith, lookup-insert j k v d)

  pub Each-nil {μ} : (P : K → V → Type μ) → Each P []
  Each-nil P k v h = absurd (none-ne-some v (sym (lookup-nil k) ∙ h))

  pub Each-insert {μ} :
      (P : K → V → Type μ) (k : K) (v : V) (d : Dict K V) → P k v → Each P d → Each P (insert k v d)
  Each-insert P k v d p each j w h = elim (e.dec j k) [
    | yes q ↦ subst₂ P (sym q) (found_self j k v w d q h) p
    | no n ↦ each j w (sym (lookup-insert_ne j k v d n) ∙ h)
  ]

  found_other :
      (j k : K) (w : V) (d : Dict K V) → lookup j (erase k d) ≡ some w → lookup j d ≡ some w
  found_other j k w d h = ground (arith, lookup-erase j k d)

  pub Each-erase {μ} : (P : K → V → Type μ) (k : K) (d : Dict K V) → Each P d → Each P (erase k d)
  Each-erase P k d each j w h = each j w (found_other j k w d h)

  has-cons : (m k : K) (v : V) (d : Dict K V) → has m d ≡ true → has m ((k, v) ∷ d) ≡ true
  has-cons m k v d h = ground (arith, lookup-cons m k v d)

  has-cons_self : (k : K) (v : V) (d : Dict K V) → has k ((k, v) ∷ d) ≡ true
  has-cons_self k v d = ground (arith, lookup-cons k k v d)

  All-has-cons :
      (ks : List K) (k : K) (v : V) (d : Dict K V)
      → All (λ m. has m d ≡ true) ks
      → All (λ m. has m ((k, v) ∷ d) ≡ true) ks
  All-has-cons [] k v d h = tt
  All-has-cons (m ∷ ks) k v d h = (has-cons m k v d h.0, All-has-cons ks k v d h.1)

  -- Every listed key has an entry.
  pub keys-has : (d : Dict K V) → All (λ m. has m d ≡ true) (keys d)
  unfolding keys
  keys-has [] = tt
  keys-has ((k, v) ∷ d) = (has-cons_self k v d, All-has-cons (keys d) k v d (keys-has d))

  pub has-insert : (m k : K) (v : V) (d : Dict K V) → has m d ≡ true → has m (insert k v d) ≡ true
  has-insert m k v d h = ground (arith, lookup-insert m k v d)

  pub has-eq_some : (k : K) (d : Dict K V) → has k d ≡ true → (v : V) × (lookup k d ≡ some v)
  has-eq_some k d h = elim (Option-cases (lookup k d)) [
    | inl e ↦ absurd (false≢true (sym (ap is_some e) ∙ h))
    | inr found ↦ found
  ]

  -- No key is listed twice, as in every real dict.
  abbrev pub NodupKeys : Dict K V → Type κ
  NodupKeys [] = Unit
  NodupKeys ((k, v) ∷ d) = (lookup k d ≡ none) × NodupKeys d

  pub insert-NodupKeys : (k : K) (v : V) (d : Dict K V) → NodupKeys d → NodupKeys (insert k v d)
  unfolding insert
  insert-NodupKeys k v [] u = (lookup-nil k, tt)
  insert-NodupKeys k v ((j, w) ∷ d) u =
      ground (arith, insert-NodupKeys k v d u.1, lookup-insert j k v d)
