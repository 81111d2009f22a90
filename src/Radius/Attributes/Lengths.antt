-- ===== src/Radius/Attributes/Lengths.antt =====
-- The length that the packet's header counts.
use forch.Base.{
  ℕ, zero, suc, ◌+◌, ◌-◌, ◌*◌, ◌/◌, ◌%◌, ◌≤◌, ◌<◌, ◌≡◌, refl, sym, ap, ◌∙◌, Bool, true, false, ◌&&◌,
  List, [], ◌∷◌, ◌++◌, arith, length, take, drop, length-append, length-drop, ltb, if◌then◌else◌,
}
use forch.Base.Exec.{Result, ok, raised, struct_error}
use forch.Radius.Datatypes.{
  DataType, integer, enum, text, string, concat, vsa, pack_data, full_length, four, chunks,
  avp_header_len,
}
use forch.Radius.Attributes.{
  Attribute, is_concat, pack_attribute, pack_attributes, pack_header, total_length,
}

length-take_le : (n : ℕ) (xs : List ℕ) → n ≤ length xs → length (take n xs) ≡ n
length-take_le zero xs l = refl
length-take_le (suc n) [] l = absurd (omega arith)
length-take_le (suc n) (x ∷ xs) l = ap suc (length-take_le n xs (omega arith))

length-four : (bytes : List ℕ) → length (four bytes) ≡ 4
length-four [] = refl
length-four (a ∷ []) = refl
length-four (a ∷ b ∷ []) = refl
length-four (a ∷ b ∷ c ∷ []) = refl
length-four (a ∷ b ∷ c ∷ d ∷ bytes) = refl

-- The size of the next chunk, which is that of the last one where fewer than 253 bytes are left
abbrev size_of : ℕ → ℕ → ℕ
size_of left whole = if ltb left 253 then whole % 253 else 253

chunk_fits :
    (left whole : ℕ)
    → left % 253 ≡ whole % 253
    → (size_of left whole ≤ left) × (size_of left whole + (left - 253) ≡ left)
chunk_fits left whole e = ground (arith, e)

-- What is left still has the remainder of the whole.
left_over :
    (left whole : ℕ) → left % 253 ≡ whole % 253 → 0 < left - 253 → (left - 253) % 253 ≡ whole % 253
left_over left whole e l = omega (arith, e, l)

-- A chunk has two more bytes than it takes.
counted :
    (left : ℕ)
    → 0 < left
    → 2 + ((left - 253) + 2 * ((left - 253 + 252) / 253)) + (left - (left - 253))
      ≡ left + 2 * ((left + 252) / 253)
counted left l = omega (arith, l)

length-chunks :
    (fuel type whole : ℕ) (rest : List ℕ)
    → length rest ≤ fuel
    → (0 < length rest → length rest % 253 ≡ whole % 253)
    → length (chunks fuel type whole rest) ≡ length rest + 2 * ((length rest + 252) / 253)
unfolding chunks
length-chunks zero type whole [] l e = omega arith
length-chunks zero type whole (b ∷ rest) l e = absurd (omega arith)
length-chunks (suc fuel) type whole [] l e = omega arith
length-chunks (suc fuel) type whole (b ∷ rest) l e =
    let left = suc (length rest) in
    let size = size_of left whole in
    let same = e (omega arith) in
    let fits = chunk_fits left whole same in
    let next = drop 253 (b ∷ rest) in
    let shorter = length-drop 253 (b ∷ rest) in
    let chunk = take size (b ∷ rest) in
    let more =
      length-chunks fuel type whole next (omega (arith, shorter, l))
        (λ m. ap (λ n. n % 253) shorter ∙ left_over left whole same (omega (arith, m, shorter))) in
    omega (
      arith,
      length-append (type ∷ (length chunk + avp_header_len) ∷ chunk) (chunks fuel type whole next),
      length-take_le size (b ∷ rest) fits.0,
      fits.1,
      more,
      shorter,
      counted left,
    )

-- What one attribute is packed to, behind its own header
abbrev head_of : Bool → ℕ
head_of true = 0
head_of false = 2

length-pack_data :
    (kind : DataType) (type : ℕ) (bytes : List ℕ)
    → head_of (is_concat kind) + length (pack_data kind type bytes) ≡ full_length kind bytes
length-pack_data integer type bytes = omega (arith, length-four bytes)
length-pack_data enum type bytes = omega (arith, length-four bytes)
length-pack_data text type bytes = omega arith
length-pack_data string type bytes = omega arith
length-pack_data vsa type bytes = omega arith
length-pack_data concat type bytes =
    omega (arith, length-chunks (length bytes) type (length bytes) bytes (omega arith) (λ _. refl))

oks : (xs ys : List ℕ) → ok xs ≡ ok ys → xs ≡ ys
oks xs ys e = cc

headed :
    (b : Bool) (type size : ℕ) (value bytes : List ℕ)
    → (elim (if b then ok (type ∷ size ∷ []) else raised struct_error) [
      | ok header ↦ ok (header ++ value)
      | raised e ↦ raised e
    ])
      ≡ ok bytes
    → length bytes ≡ 2 + length value
headed true type size value bytes e =
    ap length (sym (oks (type ∷ size ∷ value) bytes e)) ∙ omega arith
headed false type size value bytes e = absurd cc

length-packed :
    (b : Bool) (type size : ℕ) (value bytes : List ℕ)
    → (if b then ok value else elim (pack_header type size) [
      | ok header ↦ ok (header ++ value)
      | raised e ↦ raised e
    ])
      ≡ ok bytes
    → length bytes ≡ head_of b + length value
length-packed true type size value bytes e = ap length (sym (oks value bytes e)) ∙ omega arith
length-packed false type size value bytes e =
    headed (ltb type 256 && ltb size 256) type size value bytes e

length-pack_attribute :
    (a : Attribute) (bytes : List ℕ)
    → pack_attribute a ≡ ok bytes
    → length bytes ≡ full_length a.class.data_type a.bytes_data
unfolding pack_attribute
length-pack_attribute a bytes e =
    let kind = a.class.data_type in
    length-packed (is_concat kind) a.class.type (full_length kind a.bytes_data)
      (pack_data kind a.class.type a.bytes_data) bytes e
    ∙ length-pack_data kind a.class.type a.bytes_data

length-joined :
    (first rest : Result (List ℕ)) (n m : ℕ) (bytes : List ℕ)
    → ((xs : List ℕ) → first ≡ ok xs → length xs ≡ n)
    → ((xs : List ℕ) → rest ≡ ok xs → length xs ≡ m)
    → (elim first [
      | raised e ↦ raised e
      | ok packed ↦ elim rest [ raised e ↦ raised e | ok more ↦ ok (packed ++ more) ]
    ])
      ≡ ok bytes
    → length bytes ≡ n + m
length-joined (raised x) rest n m bytes h k e = absurd cc
length-joined (ok packed) (raised x) n m bytes h k e = absurd cc
length-joined (ok packed) (ok more) n m bytes h k e =
    ap length (sym (oks (packed ++ more) bytes e))
    ∙ omega (arith, length-append packed more, h packed refl, k more refl)

-- Whatever attributes are packed, concatenated ones that take several headers included, the number
-- of bytes is the length that the packet's header counts for them.
pub length-pack_attributes :
    (attributes : List Attribute) (bytes : List ℕ)
    → pack_attributes attributes ≡ ok bytes
    → length bytes ≡ total_length attributes
unfolding pack_attributes total_length
length-pack_attributes [] bytes e = ap length (sym (oks [] bytes e))
length-pack_attributes (a ∷ attributes) bytes e =
    length-joined (pack_attribute a) (pack_attributes attributes) _ _ bytes
      (length-pack_attribute a) (length-pack_attributes attributes) e
