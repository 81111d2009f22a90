-- ===== src/Radius/Attributes/RoundTrip.antt =====
-- What is packed is parsed again.
use forch.Base.{
  ℕ, zero, suc, ◌+◌, ◌-◌, ◌≤◌, ◌<◌, ◌≡◌, refl, sym, ap, ◌∙◌, false, Option, some, List, [], ◌∷◌,
  ◌++◌, arith, All, length, take, drop, take-append, drop-append, nat_eq,
}
use forch.Base.Exec.{Result, ok}
use mathlib.Core.List.{append_assoc, append-nil}
use forch.Radius.Datatypes.{
  DataType, integer, enum, text, string, concat, vsa, parse_data, pack_data, full_length, four,
}
use forch.Radius.Attributes.{
  class_of, is_concat, Attribute, parse_attribute, parse_class, parse_found, pack_attribute,
  pack_attributes, Extraction, start_extraction, note_attribute, extract_attributes,
  parse_attributes, merge_concat_attributes, concatenate, remove_all, insert_all,
}
use forch.Radius.Attributes.Registered.{class_of-IsRegistered}

-- An attribute of a registered class that is not concatenated, with a value of a valid length.
pub record IsPlain (a : Attribute) : Type 0 where
  pub found : class_of a.class.type ≡ some a.class
  pub plain : is_concat a.class.data_type ≡ false
  pub valid : parse_data a.class.data_type a.bytes_data ≡ ok a.bytes_data

four-eq : (bytes : List ℕ) → length bytes ≡ 4 → four bytes ≡ bytes
four-eq [] h = ground arith
four-eq (a ∷ []) h = ground arith
four-eq (a ∷ b ∷ []) h = ground arith
four-eq (a ∷ b ∷ c ∷ []) h = ground arith
four-eq (a ∷ b ∷ c ∷ d ∷ []) h = refl
four-eq (a ∷ b ∷ c ∷ d ∷ e ∷ bytes) h = ground arith

-- The value of a plain attribute is packed as it is, and its length fits in a byte.
record IsWhole (kind : DataType) (type : ℕ) (bytes : List ℕ) : Type 0 where
  same : pack_data kind type bytes ≡ bytes
  size : full_length kind bytes ≡ length bytes + 2
  byte : length bytes + 2 < 256

IsWhole-of_valid :
    (kind : DataType) (type : ℕ) (bytes : List ℕ)
    → is_concat kind ≡ false
    → parse_data kind bytes ≡ ok bytes
    → IsWhole kind type bytes
IsWhole-of_valid integer type bytes plain valid = ground (arith, four-eq bytes)
IsWhole-of_valid enum type bytes plain valid = ground (arith, four-eq bytes)
IsWhole-of_valid text type bytes plain valid = ground arith
IsWhole-of_valid string type bytes plain valid = ground arith
IsWhole-of_valid vsa type bytes plain valid = ground arith
IsWhole-of_valid concat type bytes plain valid = cc

abbrev pub on_wire : Attribute → List ℕ
on_wire a = a.class.type ∷ (length a.bytes_data + 2) ∷ a.bytes_data

pack_attribute-eq : (a : Attribute) → IsPlain a → pack_attribute a ≡ ok (on_wire a)
unfolding pack_attribute
pack_attribute-eq a p =
    let whole = IsWhole-of_valid a.class.data_type a.class.type a.bytes_data p.plain p.valid in
    let registered = class_of-IsRegistered a.class.type a.class p.found in
    rw (p.plain, whole.same, whole.size) (ground (arith, whole.byte, registered.byte))

parse_class-eq : (a : Attribute) → IsPlain a → parse_class a.class a.bytes_data ≡ ok a
parse_class-eq a p = rw (p.valid, parse_class) refl

parse_attribute-eq : (a : Attribute) → IsPlain a → parse_attribute a.class.type a.bytes_data ≡ ok a
unfolding parse_attribute parse_found
parse_attribute-eq a p = rw p.found (parse_class-eq a p)

-- The attributes on the wire.
abbrev pub wire : List Attribute → List ℕ
wire [] = []
wire (a ∷ attributes) = on_wire a ++ wire attributes

pub pack_attributes-eq :
    (attributes : List Attribute)
    → All IsPlain attributes
    → pack_attributes attributes ≡ ok (wire attributes)
unfolding pack_attributes
pack_attributes-eq [] p = refl
pack_attributes-eq (a ∷ attributes) (p, ps) =
    rw (pack_attribute-eq a p, pack_attributes) (rw (pack_attributes-eq attributes ps) refl)

take_value : (value rest : List ℕ) → take (length value + 2 - 2) (value ++ rest) ≡ value
take_value value rest = ap (λ n. take n (value ++ rest)) (omega arith) ∙ take-append value rest

drop_value :
    (type size : ℕ) (value rest : List ℕ)
    → drop (length value + 2) (type ∷ size ∷ (value ++ rest)) ≡ rest
drop_value type size value rest =
    ap (λ n. drop n (type ∷ size ∷ (value ++ rest))) {x = length value + 2}
      {y = suc (suc (length value))} (omega arith)
    ∙ drop-append value rest

-- One turn of the loop.
pub extract-on_wire :
    (fuel : ℕ) (a : Attribute) (rest : List ℕ) (x : Extraction)
    → IsPlain a
    → extract_attributes (suc fuel) (on_wire a ++ rest) x
      ≡ extract_attributes fuel rest (note_attribute a x)
unfolding extract_attributes
extract-on_wire fuel a rest x p =
    rw (take_value a.bytes_data rest, extract_attributes)
      (rw (parse_attribute-eq a p)
        (rw (drop_value a.class.type (length a.bytes_data + 2) a.bytes_data rest) refl))

-- A plain attribute goes to the end of the list.
note_attribute-plain :
    (a : Attribute) (x : Extraction)
    → is_concat a.class.data_type ≡ false
    → ((note_attribute a x).attributes ≡ x.attributes ++ (a ∷ []))
      × ((note_attribute a x).to_concat ≡ x.to_concat)
unfolding note_attribute
note_attribute-plain a x plain = (refl, rw plain refl)

-- The whole loop on packed attributes.
record IsExtracted (x : Extraction) (attributes : List Attribute) (r : Option (Result Extraction))
    : Type 0 where
  last : Extraction
  ends : r ≡ some (ok last)
  listed : last.attributes ≡ x.attributes ++ attributes
  alone : last.to_concat ≡ x.to_concat

extract-wire :
    (attributes : List Attribute) (fuel : ℕ) (x : Extraction)
    → All IsPlain attributes
    → length attributes ≤ fuel
    → IsExtracted x attributes (extract_attributes fuel (wire attributes) x)
unfolding extract_attributes
extract-wire [] fuel x p l = record {
  last = x;
  ends = refl;
  listed = sym (append-nil x.attributes);
  alone = refl;
}
extract-wire (a ∷ attributes) zero x p l = absurd (omega arith)
extract-wire (a ∷ attributes) (suc fuel) x (p, ps) l =
    let next = note_attribute a x in
    let noted = note_attribute-plain a x p.plain in
    let r = extract-wire attributes fuel next ps (omega arith) in
    record {
      last = r.last;
      ends = extract-on_wire fuel a (wire attributes) x p ∙ r.ends;
      listed =
          r.listed
          ∙ ap (λ l. l ++ attributes) noted.0
          ∙ append_assoc x.attributes (a ∷ []) attributes;
      alone = r.alone ∙ noted.1;
    }

merge-alone : (x : Extraction) → x.to_concat ≡ [] → merge_concat_attributes x ≡ ok x.attributes
unfolding merge_concat_attributes concatenate remove_all insert_all
merge-alone x h = rw h refl

-- A list of plain attributes (each of a registered class that is not concatenated, with a value of
-- a valid length) can be packed, and what it is packed to is parsed as the same list, with fuel for
-- as many turns of the loop as there are attributes.
pub parse_attributes-pack_attributes :
    (attributes : List Attribute) (fuel : ℕ)
    → All IsPlain attributes
    → length attributes ≤ fuel
    → (bytes : List ℕ) × (pack_attributes attributes ≡ ok bytes)
      × (parse_attributes fuel bytes ≡ some (ok attributes))
unfolding parse_attributes
parse_attributes-pack_attributes attributes fuel p l =
    let r = extract-wire attributes fuel start_extraction p l in
    (
      wire attributes,
      pack_attributes-eq attributes p,
      rw r.ends (ap some (merge-alone r.last r.alone ∙ ap ok r.listed)),
    )
