-- ===== src/Radius/Attributes/Registered.antt =====
-- What the registered classes of attributes have in common.
use forch.Base.{ℕ, ◌<◌, ◌≡◌, true, some, List, [], ◌∷◌, arith, All, nat_eq}
use forch.Radius.Attributes.{AttributeClass, attribute_types, find_class, class_of, is_concat}

-- A type fits in a byte, and only EAP-Message is concatenated.
abbrev IsFit : AttributeClass → Type 0
IsFit c = (c.type < 256) × (is_concat c.data_type ≡ true → c.type ≡ 79)

attribute_types-IsFit : All IsFit attribute_types
attribute_types-IsFit = ground arith

pub record IsRegistered (type : ℕ) (c : AttributeClass) : Type 0 where
  pub own : c.type ≡ type
  pub byte : c.type < 256
  pub eap : is_concat c.data_type ≡ true → c.type ≡ 79

find_class-IsRegistered :
    (type : ℕ) (classes : List AttributeClass) (c : AttributeClass)
    → All IsFit classes
    → find_class type classes ≡ some c
    → IsRegistered type c
unfolding find_class
find_class-IsRegistered type [] c fit e = cc
find_class-IsRegistered type (d ∷ classes) c (fit, fits) e =
    ground (arith, find_class-IsRegistered type classes c fits)

pub class_of-IsRegistered :
    (type : ℕ) (c : AttributeClass) → class_of type ≡ some c → IsRegistered type c
unfolding class_of
class_of-IsRegistered type c e =
    find_class-IsRegistered type attribute_types c attribute_types-IsFit e
