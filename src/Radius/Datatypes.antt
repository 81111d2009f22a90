-- ===== src/Radius/Datatypes.antt =====
-- The data types of forch/radius_datatypes.py: the checks of a value's length, and how a value is
-- packed. An attribute that was parsed holds the bytes of its value.
use forch.Base.{
  ℕ, zero, suc, ◌+◌, ◌-◌, ◌*◌, ◌/◌, ◌%◌, ◌&&◌, List, [], ◌∷◌, ◌++◌, length, take, drop, replicate,
  ltb, leb, if◌then◌else◌,
}
use forch.Base.Exec.{Result, ok, raised, value_error, parse_error}

-- The classes.
pub data DataType : Type 0 where
  integer enum text string concat vsa : DataType

abbrev pub avp_header_len : ℕ
avp_header_len = 2

-- `MIN_DATA_LENGTH`
abbrev pub min_data_length : DataType → ℕ
min_data_length integer = 4
min_data_length enum = 4
min_data_length vsa = 5
min_data_length _ = 1

-- `MAX_DATA_LENGTH`
abbrev pub max_data_length : DataType → ℕ
max_data_length integer = 4
max_data_length enum = 4
max_data_length _ = 253

-- `is_valid_length`
abbrev pub is_valid_length : DataType → List ℕ → Result (Unit {0})
is_valid_length kind bytes =
    if leb (min_data_length kind) (length bytes) && leb (length bytes) (max_data_length kind)
    then ok tt
    else raised value_error

-- `except (ValueError, struct.error)` around a value
abbrev parsed : Result (Unit {0}) → List ℕ → Result (List ℕ)
parsed (ok _) bytes = ok bytes
parsed (raised _) bytes = raised parse_error

-- `Integer.parse`, to the `bytes_data` that it keeps
abbrev parse_integer : List ℕ → Result (List ℕ)
parse_integer bytes = parsed (is_valid_length integer bytes) bytes

-- `Enum.parse`, to the `bytes_data` that it keeps
abbrev parse_enum : List ℕ → Result (List ℕ)
parse_enum bytes = parsed (is_valid_length enum bytes) bytes

-- `Text.parse`, to the `bytes_data` that it keeps
abbrev parse_text : List ℕ → Result (List ℕ)
parse_text bytes = parsed (is_valid_length text bytes) bytes

-- `String.parse`, to the `bytes_data` that it keeps
abbrev parse_string : List ℕ → Result (List ℕ)
parse_string bytes = parsed (is_valid_length string bytes) bytes

-- `Vsa.parse`, to the `bytes_data` that it keeps
abbrev parse_vsa : List ℕ → Result (List ℕ)
parse_vsa bytes = parsed (is_valid_length vsa bytes) bytes

-- `Concat.parse`, which takes any length
abbrev parse_concat : List ℕ → Result (List ℕ)
parse_concat bytes = ok bytes

-- `DATA_TYPE.parse`
abbrev pub parse_data : DataType → List ℕ → Result (List ℕ)
parse_data integer bytes = parse_integer bytes
parse_data enum bytes = parse_enum bytes
parse_data text bytes = parse_text bytes
parse_data string bytes = parse_string bytes
parse_data concat bytes = parse_concat bytes
parse_data vsa bytes = parse_vsa bytes

-- The packed chunks of `Concat`, from the bytes that are left. Each takes a byte at least, so that
-- the length of all is enough fuel.
unfoldable pub chunks : ℕ → ℕ → ℕ → List ℕ → List ℕ
chunks zero type list_length rest = []
chunks (suc fuel) type list_length [] = []
chunks (suc fuel) type list_length (b ∷ rest) =
    let size = if ltb (length (b ∷ rest)) 253 then list_length % 253 else 253 in
    let chunk = take size (b ∷ rest) in
    (type ∷ (length chunk + avp_header_len) ∷ chunk)
    ++ chunks fuel type list_length (drop 253 (b ∷ rest))

-- `struct.pack("!4s", bytes)`
abbrev pub four : List ℕ → List ℕ
four bytes = take 4 (bytes ++ replicate 4 0)

-- `Integer.pack`
abbrev pack_integer : List ℕ → List ℕ
pack_integer bytes = four bytes

-- `Enum.pack`
abbrev pack_enum : List ℕ → List ℕ
pack_enum bytes = four bytes

-- `Text.pack`
abbrev pack_text : List ℕ → List ℕ
pack_text bytes = bytes

-- `String.pack`
abbrev pack_string : List ℕ → List ℕ
pack_string bytes = bytes

-- `Concat.pack`
abbrev pack_concat : ℕ → List ℕ → List ℕ
pack_concat type bytes = chunks (length bytes) type (length bytes) bytes

-- `Vsa.pack`
abbrev pack_vsa : List ℕ → List ℕ
pack_vsa bytes = bytes

-- `_data_type.pack`
abbrev pub pack_data : DataType → ℕ → List ℕ → List ℕ
pack_data integer type bytes = pack_integer bytes
pack_data enum type bytes = pack_enum bytes
pack_data text type bytes = pack_text bytes
pack_data string type bytes = pack_string bytes
pack_data concat type bytes = pack_concat type bytes
pack_data vsa type bytes = pack_vsa bytes

-- `Concat.full_length`. `math.ceil(n / 253 + 1)` is one more than `n / 253`, rounded up.
abbrev concat_length : List ℕ → ℕ
concat_length bytes =
    avp_header_len * ((length bytes + 252) / 253 + 1) + length bytes - avp_header_len

-- `full_length`, of the `data_length` of each class
abbrev pub full_length : DataType → List ℕ → ℕ
full_length integer bytes = 4 + avp_header_len
full_length enum bytes = 4 + avp_header_len
full_length concat bytes = concat_length bytes
full_length _ bytes = length bytes + avp_header_len
