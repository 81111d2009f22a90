-- ===== src/Radius/Attributes.antt =====
-- The attributes of forch/radius_attributes.py, and `RadiusAttributesList` of forch/radius.py.
pub mod Registered
pub mod RoundTrip
pub mod Lengths
pub mod Loop
use forch.Base.{
  ℕ, zero, suc, ◌+◌, ◌-◌, String, Bool, true, false, not, ◌&&◌, ◌||◌, Option, none, some, List, [],
  ◌∷◌, ◌++◌, length, take, drop, ltb, leb, nat_eq, string_eq, ◌==◌, if◌then◌else◌,
}
use forch.Base.Dict
use forch.Base.Dict.{Dict}
use forch.Base.Exec.{Result, ok, raised, parse_error, value_error, struct_error}
use forch.Radius.Datatypes.{
  DataType, integer, enum, text, string, concat, vsa, parse_data, pack_data, full_length,
  avp_header_len,
}

-- A class of attributes: `TYPE`, `DATA_TYPE` and `DESCRIPTION`.
pub record AttributeClass : Type 0 where
  pub type : ℕ
  pub data_type : DataType
  pub description : String

abbrev cls : ℕ → DataType → String → AttributeClass
cls type data_type description = record {
  type = type;
  data_type = data_type;
  description = description;
}

abbrev pub user_name : AttributeClass
user_name = cls 1 text "User-Name"

abbrev pub user_password : AttributeClass
user_password = cls 2 string "User-Password"

abbrev pub nas_ip_address : AttributeClass
nas_ip_address = cls 4 string "NAS-IP-Address"

abbrev pub nas_port : AttributeClass
nas_port = cls 5 integer "NAS-Port"

abbrev pub service_type : AttributeClass
service_type = cls 6 enum "Service-Type"

abbrev pub filter_id : AttributeClass
filter_id = cls 11 text "Filter-Id"

abbrev pub framed_mtu : AttributeClass
framed_mtu = cls 12 integer "Framed-MTU"

abbrev pub reply_message : AttributeClass
reply_message = cls 18 text "Reply-Message"

abbrev pub state : AttributeClass
state = cls 24 string "State"

abbrev pub vendor_specific : AttributeClass
vendor_specific = cls 26 vsa "Vendor-Specific"

abbrev pub session_timeout : AttributeClass
session_timeout = cls 27 integer "Session-Timeout"

abbrev pub termination_action : AttributeClass
termination_action = cls 29 enum "Termination-Action"

abbrev pub called_station_id : AttributeClass
called_station_id = cls 30 text "Called-Station-Id"

abbrev pub calling_station_id : AttributeClass
calling_station_id = cls 31 text "Calling-Station-Id"

abbrev pub nas_identifier : AttributeClass
nas_identifier = cls 32 text "NAS-Identifier"

abbrev pub acct_session_id : AttributeClass
acct_session_id = cls 44 text "Acct-Session-Id"

abbrev pub nas_port_type : AttributeClass
nas_port_type = cls 61 enum "NAS-Port-Type"

abbrev pub tunnel_type : AttributeClass
tunnel_type = cls 64 enum "Tunnel-Type"

abbrev pub tunnel_medium_type : AttributeClass
tunnel_medium_type = cls 65 enum "Tunnel-Medium-Type"

abbrev pub connect_info : AttributeClass
connect_info = cls 77 text "Connect-Info"

abbrev pub eap_message : AttributeClass
eap_message = cls 79 concat "EAP-Message"

abbrev pub message_authenticator : AttributeClass
message_authenticator = cls 80 string "Message-Authenticator"

abbrev pub tunnel_private_group_id : AttributeClass
tunnel_private_group_id = cls 81 string "Tunnel-Private-Group-ID"

abbrev pub tunnel_assignment_id : AttributeClass
tunnel_assignment_id = cls 82 string "Tunnel-Assignment-ID"

abbrev pub nas_filter_rule : AttributeClass
nas_filter_rule = cls 92 string "NAS-Filter-Rule"

-- `ATTRIBUTE_TYPES`, as the decorator registers the classes.
abbrev pub attribute_types : List AttributeClass
attribute_types =
    user_name ∷ user_password ∷ nas_ip_address ∷ nas_port ∷ service_type ∷ filter_id ∷ framed_mtu
    ∷ reply_message ∷ state ∷ vendor_specific ∷ session_timeout ∷ termination_action
    ∷ called_station_id ∷ calling_station_id ∷ nas_identifier ∷ acct_session_id ∷ nas_port_type
    ∷ tunnel_type ∷ tunnel_medium_type ∷ connect_info ∷ eap_message ∷ message_authenticator
    ∷ tunnel_private_group_id ∷ tunnel_assignment_id ∷ nas_filter_rule ∷ []

find_class : ℕ → List AttributeClass → Option AttributeClass
find_class type [] = none
find_class type (c ∷ classes) = if c.type == type then some c else find_class type classes

-- `ATTRIBUTE_TYPES[type_]`
unfoldable pub class_of : ℕ → Option AttributeClass
unfolding find_class
class_of type = find_class type attribute_types

pub record Attribute : Type 0 where
  pub class : AttributeClass
  pub bytes_data : List ℕ

abbrev pub is_concat : DataType → Bool
is_concat concat = true
is_concat _ = false

-- `Attribute.parse`
abbrev pub parse_class : AttributeClass → List ℕ → Result Attribute
parse_class c bytes = elim (parse_data c.data_type bytes) [
  | ok value ↦ ok (record { class = c; bytes_data = value })
  | raised e ↦ raised e
]

-- `ATTRIBUTE_TYPES[type_].parse(packed_value)`, with the `KeyError` that is turned
parse_found : Option AttributeClass → List ℕ → Result Attribute
parse_found none bytes = raised parse_error
parse_found (some c) bytes = parse_class c bytes

unfoldable pub parse_attribute : ℕ → List ℕ → Result Attribute
unfolding parse_found
parse_attribute type bytes = parse_found (class_of type) bytes

-- `struct.pack("!BB", type, length)`
abbrev pub pack_header : ℕ → ℕ → Result (List ℕ)
pack_header type size =
    if ltb type 256 && ltb size 256 then ok (type ∷ size ∷ []) else raised struct_error

-- `Attribute.pack`, which `EAPMessage` overrides
unfoldable pub pack_attribute : Attribute → Result (List ℕ)
pack_attribute a =
    let value = pack_data a.class.data_type a.class.type a.bytes_data in
    if is_concat a.class.data_type
    then ok value
    else elim (pack_header a.class.type (full_length a.class.data_type a.bytes_data)) [
      | ok header ↦ ok (header ++ value)
      | raised e ↦ raised e
    ]

-- `RadiusAttributesList.pack`
unfoldable pub pack_attributes : List Attribute → Result (List ℕ)
unfolding pack_attribute
pack_attributes [] = ok []
pack_attributes (a ∷ attributes) = elim (pack_attribute a) [
  | raised e ↦ raised e
  | ok packed ↦ elim (pack_attributes attributes) [
    | raised e ↦ raised e
    | ok rest ↦ ok (packed ++ rest)
  ]
]

-- `RadiusAttributesList.__len__`
unfoldable pub total_length : List Attribute → ℕ
total_length [] = 0
total_length (a ∷ attributes) = full_length a.class.data_type a.bytes_data + total_length attributes

-- `find`
unfoldable pub find : String → List Attribute → Option Attribute
find item [] = none
find item (a ∷ attributes) = if item == a.class.description then some a else find item attributes

-- `indexof`, from the number of bytes so far
unfoldable pub index_of : String → List Attribute → ℕ → Result ℕ
index_of item [] index = raised value_error
index_of item (a ∷ attributes) index =
    if item == a.class.description
    then ok index
    else index_of item attributes (index + full_length a.class.data_type a.bytes_data)

-- The variables of the loop of `extract_attributes`. `count` is `index` plus one, since `index`
-- starts at -1, and so does `last`, which is `last_attribute`: `none` is -1.
pub record Extraction : Type 0 where
  pub attributes : List Attribute
  pub to_concat : Dict ℕ (List (Attribute × ℕ))
  pub count : ℕ
  pub last : Option ℕ

abbrev pub start_extraction : Extraction
start_extraction = record { attributes = []; to_concat = []; count = 0; last = none }

abbrev is_last : Option ℕ → ℕ → Bool
is_last none type = false
is_last (some last) type = last == type

abbrev or_nil : {A : Type 0} → Option (List A) → List A
or_nil none = []
or_nil (some xs) = xs

-- The body of the loop behind the parsing.
unfoldable pub note_attribute : Attribute → Extraction → Extraction
note_attribute a x =
    let type = a.class.type in
    let joins = is_concat a.class.data_type in
    let count = if not joins || not (is_last x.last type) then x.count + 1 else x.count in
    let entries = or_nil (Dict.lookup type x.to_concat) ++ ((a, count - 1) ∷ []) in
    record {
      attributes = x.attributes ++ (a ∷ []);
      to_concat = if joins then Dict.insert type entries x.to_concat else x.to_concat;
      count = count;
      last = some type;
    }

-- The loop of `extract_attributes` on the bytes from `pos` on. There is no result if the fuel runs
-- out: an attribute may be so short that the loop does not advance.
unfoldable pub extract_attributes : ℕ → List ℕ → Extraction → Option (Result Extraction)
unfolding parse_attribute note_attribute
extract_attributes fuel [] x = some (ok x)
extract_attributes fuel (b ∷ []) x = some (raised parse_error)
extract_attributes zero (type ∷ size ∷ rest) x = none
extract_attributes (suc fuel) (type ∷ size ∷ rest) x =
    elim (parse_attribute type (take (size - 2) rest)) [
      | raised e ↦ some (raised e)
      | ok a ↦ extract_attributes fuel (drop size (type ∷ size ∷ rest)) (note_attribute a x)
    ]

-- `list.insert(index, a)`
abbrev insert_at : ℕ → Attribute → List Attribute → List Attribute
insert_at zero a attributes = a ∷ attributes
insert_at (suc n) a [] = a ∷ []
insert_at (suc n) a (b ∷ attributes) = b ∷ insert_at n a attributes

-- `data.bytes_data` of all entries, one after the other
abbrev joined : List (Attribute × ℕ) → List ℕ
joined [] = []
joined ((a, index) ∷ entries) = a.bytes_data ++ joined entries

-- The index of the last entry
abbrev last_index : ℕ → List (Attribute × ℕ) → ℕ
last_index index [] = index
last_index index ((a, i) ∷ entries) = last_index i entries

-- The first loop of `merge_concat_attributes`
concatenate : Dict ℕ (List (Attribute × ℕ)) → Result (List (Attribute × ℕ))
unfolding parse_attribute
concatenate [] = ok []
concatenate ((type, entries) ∷ to_concat) = elim (parse_attribute type (joined entries)) [
  | raised e ↦ raised e
  | ok a ↦ elim (concatenate to_concat) [
    | raised e ↦ raised e
    | ok rest ↦ ok ((a, last_index 0 entries) ∷ rest)
  ]
]

-- `[x for x in attributes if x.TYPE != type]`
abbrev without_type : ℕ → List Attribute → List Attribute
without_type type [] = []
without_type type (a ∷ attributes) =
    let rest = without_type type attributes in if a.class.type == type then rest else a ∷ rest

remove_all : List (Attribute × ℕ) → List Attribute → List Attribute
remove_all [] attributes = attributes
remove_all ((a, index) ∷ merged) attributes =
    remove_all merged (without_type a.class.type attributes)

insert_all : List (Attribute × ℕ) → List Attribute → List Attribute
insert_all [] attributes = attributes
insert_all ((a, index) ∷ merged) attributes = insert_all merged (insert_at index a attributes)

-- `merge_concat_attributes`
unfoldable pub merge_concat_attributes : Extraction → Result (List Attribute)
unfolding concatenate remove_all insert_all
merge_concat_attributes x = elim (concatenate x.to_concat) [
  | raised e ↦ raised e
  | ok merged ↦ ok (insert_all merged (remove_all merged x.attributes))
]

abbrev pub merged : Option (Result Extraction) → Option (Result (List Attribute))
merged none = none
merged (some (raised e)) = some (raised e)
merged (some (ok x)) = some (merge_concat_attributes x)

-- `RadiusAttributesList.parse`
unfoldable pub parse_attributes : ℕ → List ℕ → Option (Result (List Attribute))
unfolding extract_attributes merge_concat_attributes
parse_attributes fuel bytes = merged (extract_attributes fuel bytes start_extraction)
