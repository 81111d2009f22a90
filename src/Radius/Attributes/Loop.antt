-- ===== src/Radius/Attributes/Loop.antt =====
-- When the loop of `extract_attributes` ends.
use forch.Base.{
  ℕ, zero, suc, ◌+◌, ◌-◌, ◌≤◌, ◌≡◌, refl, sym, ap, ◌∙◌, inl, inr, true, none, some, List, [], ◌∷◌,
  arith, length, take, drop, length-drop, Option-cases, nat_eq,
}
use forch.Base.Exec.{Result, ok, raised}
use forch.Radius.Attributes.{
  AttributeClass, class_of, find_class, is_concat, Attribute, parse_attribute, parse_class,
  parse_found, Extraction, note_attribute, extract_attributes,
}
use forch.Radius.Attributes.Registered.{class_of-IsRegistered}

-- At an EAP-Message whose length is 0 the loop stays.
pub hangs_from :
    (fuel : ℕ) (rest : List ℕ) (x : Extraction) → extract_attributes fuel (79 ∷ 0 ∷ rest) x ≡ none
unfolding extract_attributes parse_attribute class_of parse_found find_class nat_eq
hangs_from zero rest x = refl
hangs_from (suc fuel) rest x = hangs_from fuel rest _

-- Only the data type `Concat` takes a value without bytes.
parse_class-nil :
    (c : AttributeClass) (a : Attribute) → parse_class c [] ≡ ok a → is_concat c.data_type ≡ true
parse_class-nil c a e = ground arith

parse_attribute-nil : (type : ℕ) (a : Attribute) → parse_attribute type [] ≡ ok a → type ≡ 79
unfolding parse_attribute parse_found
parse_attribute-nil type a e = elim (Option-cases (class_of type)) [
  | inl m ↦ absurd (missing (sym (ap (λ c. parse_found c []) m) ∙ e))
  | inr (c, m) ↦
      let registered = class_of-IsRegistered type c m in
      sym registered.own
      ∙ registered.eap (parse_class-nil c a (sym (ap (λ c. parse_found c []) m) ∙ e))
]
  where
    missing : parse_found none [] ≡ ok a → ⊥
    missing h = cc

drop-nil : (n : ℕ) → drop {A = ℕ} n [] ≡ []
drop-nil zero = refl
drop-nil (suc n) = refl

drop-drop : (m n : ℕ) (xs : List ℕ) → drop m (drop n xs) ≡ drop (n + m) xs
drop-drop m zero xs = ap (λ k. drop k xs) (omega arith)
drop-drop m (suc n) [] = drop-nil m ∙ sym (drop-nil (suc n + m))
drop-drop m (suc n) (x ∷ xs) =
    drop-drop m n xs ∙ ap (λ k. drop k (x ∷ xs)) {x = suc (n + m)} {y = suc n + m} (omega arith)

-- Somewhere in the bytes there is an EAP-Message whose length is 0.
abbrev pub HasEmpty : List ℕ → Type 0
HasEmpty bytes = (k : ℕ) × (rest : List ℕ) × (drop k bytes ≡ 79 ∷ 0 ∷ rest)

HasEmpty-drop : (n : ℕ) (bytes : List ℕ) → HasEmpty (drop n bytes) → HasEmpty bytes
HasEmpty-drop n bytes (k, rest, e) = (n + k, rest, sym (drop-drop k n bytes) ∙ e)

module _ (fuel type : ℕ) (rest : List ℕ) (x : Extraction) where
  abbrev Ends : ℕ → Type 0
  Ends size =
      ((y : Extraction)
        → extract_attributes fuel (drop size (type ∷ size ∷ rest)) y ≡ none
        → HasEmpty (drop size (type ∷ size ∷ rest)))
      → extract_attributes (suc fuel) (type ∷ size ∷ rest) x ≡ none
      → HasEmpty (type ∷ size ∷ rest)

  Ends-of_advance : (size : ℕ) → Ends size
  unfolding extract_attributes
  Ends-of_advance size ih e = go (parse_attribute type (take (size - 2) rest)) e
    where
      go :
          (r : Result Attribute)
          → (elim r [
            | raised x ↦ some (raised x)
            | ok a ↦ extract_attributes fuel (drop size (type ∷ size ∷ rest)) (note_attribute a x)
          ])
            ≡ none
          → HasEmpty (type ∷ size ∷ rest)
      go (raised x) h = cc
      go (ok a) h = HasEmpty-drop size _ (ih _ h)

-- A value that is as short as its header says and that does not advance the loop is an EAP-Message.
HasEmpty-of_zero :
    (fuel type : ℕ) (rest : List ℕ) (x : Extraction)
    → extract_attributes (suc fuel) (type ∷ 0 ∷ rest) x ≡ none
    → HasEmpty (type ∷ 0 ∷ rest)
unfolding extract_attributes
HasEmpty-of_zero fuel type rest x e = go (parse_attribute type []) refl e
  where
    go :
        (r : Result Attribute)
        → parse_attribute type [] ≡ r
        → (elim r [
          | raised x ↦ some (raised x)
          | ok a ↦ extract_attributes fuel (type ∷ 0 ∷ rest) (note_attribute a x)
        ])
          ≡ none
        → HasEmpty (type ∷ 0 ∷ rest)
    go (raised x) p h = cc
    go (ok a) p h = (0, rest, ap (λ t. t ∷ 0 ∷ rest) (parse_attribute-nil type a p))

-- With fuel for as many turns as there are bytes the loop ends, unless somewhere in the bytes there
-- is an EAP-Message whose length is 0.
pub extract_attributes_ends :
    (fuel : ℕ) (bytes : List ℕ) (x : Extraction)
    → length bytes ≤ fuel
    → extract_attributes fuel bytes x ≡ none
    → HasEmpty bytes
unfolding extract_attributes
extract_attributes_ends fuel [] x l e = cc
extract_attributes_ends fuel (b ∷ []) x l e = cc
extract_attributes_ends zero (type ∷ size ∷ rest) x l e = absurd (omega arith)
extract_attributes_ends (suc fuel) (type ∷ zero ∷ rest) x l e = HasEmpty-of_zero fuel type rest x e
extract_attributes_ends (suc fuel) (type ∷ suc size ∷ rest) x l e =
    Ends-of_advance fuel type rest x (suc size)
      (λ y h.
        extract_attributes_ends fuel (drop (suc size) (type ∷ suc size ∷ rest)) y
          (omega (arith, length-drop (suc size) (type ∷ suc size ∷ rest))) h)
      e
