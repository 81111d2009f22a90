-- ===== src/Radius/Client.antt =====
-- `RadiusQuery` of forch/radius_query.py: the requests that wait, by packet identifier. The random
-- bytes of a request are an argument, the packets that are sent are recorded in `sent`.
pub mod Pending
pub mod Receive
use forch.Base.{
  ℕ, zero, suc, ◌+◌, ◌*◌, ◌/◌, ◌%◌, ◌^◌, String, Bool, true, false, not, Option, none, some, List,
  [], ◌∷◌, ◌++◌, length, take, drop, replicate, ltb, truthy, encode, nat_eq, string_eq, ◌==◌,
  if◌then◌else◌,
}
use Prim.Native.Char.{Char, code}
use Prim.Native.String.{char_at}
use forch.Base.Dict
use forch.Base.Dict.{Dict}
use forch.Base.Exec.{
  Exec, Result, ok, raised, value_error, struct_error, type_error, modify, gets, pure, raise, ◌>>=◌,
  ◌>>◌,
}
use forch.Radius.Datatypes.{DataType, integer, enum, text, string, is_valid_length, avp_header_len}
use forch.Radius.Attributes.{
  AttributeClass, called_station_id, calling_station_id, message_authenticator, nas_port,
  nas_port_type, service_type, Attribute, index_of,
}
use forch.Radius.Packet.{Packet, access_request, header_length, pack, zeros, parse}

-- `raw_data.to_bytes(4, "big")`
abbrev to_four : ℕ → List ℕ
to_four n = (n / 16777216) ∷ (n / 65536 % 256) ∷ (n / 256 % 256) ∷ (n % 256) ∷ []

-- `create` of a class of numbers. A 0 leaves the value without bytes, which cannot be packed.
unfoldable pub create_number : AttributeClass → ℕ → Result Attribute
create_number c zero = raised struct_error
create_number c n =
    if ltb n (2 ^ 32) then ok (record { class = c; bytes_data = to_four n }) else raised value_error

abbrev checked : Result (Unit {0}) → Attribute → Result Attribute
checked (ok _) a = ok a
checked (raised e) a = raised e

-- `create` of a class of texts or bytes, from the bytes
unfoldable pub create_bytes : AttributeClass → List ℕ → Result Attribute
create_bytes c bytes =
    checked (is_valid_length c.data_type bytes) (record { class = c; bytes_data = bytes })

-- `str(src_mac).replace(':', "")`
unfoldable pub without_colons : String → String
without_colons String.[] = String.[]
without_colons (String.◌∷◌ c s) =
    let rest = without_colons s in if code c == b':' then rest else String.◌∷◌ c rest

-- `str(src_mac).replace(':', '-')`
unfoldable pub with_dashes : String → String
with_dashes String.[] = String.[]
with_dashes (String.◌∷◌ c s) =
    String.◌∷◌ (if code c == b':' then char_at "-" 0 else c) (with_dashes s)

-- `attr_list.append(...)`, where the attribute may be refused
abbrev append : Result (List Attribute) → Result Attribute → Result (List Attribute)
append (raised e) r = raised e
append (ok attributes) (raised e) = raised e
append (ok attributes) (ok a) = ok (attributes ++ (a ∷ []))

-- The attribute list of `_encode_mab_message`
unfoldable pub mab_attributes : String → ℕ → Result (List Attribute)
unfolding create_number create_bytes without_colons with_dashes
mab_attributes mac port_id =
    let service = append (ok []) (create_number service_type 10) in
    let called = append service (create_bytes called_station_id (encode (without_colons mac))) in
    let calling = append called (create_bytes calling_station_id (encode (with_dashes mac))) in
    let nas = append calling (create_number nas_port_type 15) in
    let port = if truthy port_id then append nas (create_number nas_port port_id) else nas in
    append port (create_bytes message_authenticator zeros)

-- `self.packed[index + position] = ...` for 16 bytes
abbrev splice : ℕ → List ℕ → List ℕ → List ℕ
splice position hash packed = take position packed ++ (take 16 hash ++ drop (position + 16) packed)

module _ (hmac : List ℕ → List ℕ → List ℕ) where
  build_at : Result ℕ → String → List ℕ → List ℕ
  build_at (raised e) secret packed = packed
  build_at (ok index) secret packed =
      if secret == ""
      then packed
      else splice (index + header_length + avp_header_len) (hmac (encode secret) packed) packed

  -- `build` of a packet that has not been packed yet
  unfoldable pub build : Packet → String → Result (List ℕ)
  unfolding build_at
  build p secret = elim (pack p) [
    | raised e ↦ raised e
    | ok packed ↦ ok (build_at (index_of "Message-Authenticator" p.attributes 0) secret packed)
  ]

pub record Client : Type 0 where
  pub next_radius_id : ℕ
  pub packet_id_to_mac : Dict ℕ (String × ℕ)
  pub requests : Dict ℕ (List ℕ)
  pub radius_secret : String
  pub sent : List (List ℕ)

-- `_get_next_radius_pkt_id`
unfoldable pub get_next_radius_pkt_id : Exec Client ℕ
get_next_radius_pkt_id c =
    (ok c.next_radius_id, record c { next_radius_id = (c.next_radius_id + 1) % 256 })

abbrev or_raise : {A : Type 0} → Result A → Exec Client A
or_raise r c = (r, c)

module _ (hmac : List ℕ → List ℕ → List ℕ) where
  -- `access_request.build(self.radius_secret)`, of the attributes that were created
  unfoldable pub built : ℕ → List ℕ → Result (List Attribute) → String → Result (List ℕ)
  unfolding build
  built radius_id random (raised e) secret = raised e
  built radius_id random (ok attributes) secret =
      build hmac
        (record {
          code = access_request;
          packet_id = radius_id;
          authenticator = random;
          attributes = attributes;
        })
        secret

  -- `_encode_mab_message`
  unfoldable pub encode_mab_message : String → ℕ → List ℕ → Exec Client (List ℕ)
  unfolding get_next_radius_pkt_id mab_attributes built
  encode_mab_message mac port_id random = do
    radius_id ← get_next_radius_pkt_id
    modify (λ c. record c {
      packet_id_to_mac = Dict.insert radius_id (mac, port_id) c.packet_id_to_mac;
      requests = Dict.insert radius_id random c.requests;
    })
    secret ← gets (λ c. c.radius_secret)
    or_raise (built radius_id random (mab_attributes mac port_id) secret)

  -- `send_mab_request`
  unfoldable pub send_mab_request : String → ℕ → List ℕ → Exec Client (Unit {0})
  unfolding encode_mab_message
  send_mab_request mac port_id random = do
    packet ← encode_mab_message mac port_id random
    modify (λ c. record c { sent = c.sent ++ (packet ∷ []) })

  -- Requests, each with its random bytes
  unfoldable pub send_all : List (String × ℕ × List ℕ) → Client → Client
  unfolding send_mab_request
  send_all [] c = c
  send_all ((mac, port_id, random) ∷ later) c =
      send_all later (send_mab_request mac port_id random c).1
