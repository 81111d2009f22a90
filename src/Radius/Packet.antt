-- ===== src/Radius/Packet.antt =====
-- The packets of forch/radius.py: `Radius.parse`, `RadiusPacket.pack` and `validate_packet`. Two
-- functions come from outside: `md5` is `hashlib.md5(...).digest()`, and `hmac` is
-- `hmac.new(key, message, 'md5').digest()`.
pub mod Authentic
pub mod Answers
pub mod Hangs
use forch.Base.{
  ℕ, zero, suc, ◌+◌, ◌*◌, ◌/◌, ◌%◌, String, Bool, true, false, not, ◌&&◌, ◌||◌, Option, none, some,
  List, [], ◌∷◌, ◌++◌, length, take, drop, replicate, ltb, leb, encode, is_some, nat_eq, string_eq,
  list_eq, contains, ◌==◌, if◌then◌else◌,
}
use forch.Base.Dict
use forch.Base.Dict.{Dict}
use forch.Base.Exec.{Result, ok, raised, parse_error, value_error, struct_error}
use forch.Radius.Attributes.{Attribute, pack_attributes, total_length, find, parse_attributes}

pub record Packet : Type 0 where
  pub code : ℕ
  pub packet_id : ℕ
  pub authenticator : List ℕ
  pub attributes : List Attribute

abbrev pub access_request : ℕ
access_request = 1

-- The keys of `PACKET_TYPE_PARSERS`
abbrev pub has_parser : ℕ → Bool
has_parser code = contains (1 ∷ 2 ∷ 3 ∷ 11 ∷ []) code

-- `code in [ACCESS_REJECT, ACCESS_ACCEPT, ACCESS_CHALLENGE]`
abbrev pub is_response : ℕ → Bool
is_response code = contains (3 ∷ 2 ∷ 11 ∷ []) code

abbrev pub header_length : ℕ
header_length = 20

-- `struct.pack("!BBH16s", code, packet_id, size, authenticator)`
abbrev pub packed_header : ℕ → ℕ → ℕ → List ℕ → Result (List ℕ)
packed_header code packet_id size authenticator =
    if ltb code 256 && ltb packet_id 256 && ltb size 65536
    then ok
        (code ∷ packet_id ∷ (size / 256) ∷ (size % 256) ∷ take 16 (authenticator ++ replicate 16 0))
    else raised struct_error

abbrev joined_to : List ℕ → Result (List ℕ) → Result (List ℕ)
joined_to header (ok bytes) = ok (header ++ bytes)
joined_to header (raised e) = raised e

-- `RadiusPacket.pack`
unfoldable pub pack : Packet → Result (List ℕ)
pack p =
    elim (packed_header p.code p.packet_id (header_length + total_length p.attributes)
      p.authenticator) [
        | raised e ↦ raised e
        | ok header ↦ joined_to header (pack_attributes p.attributes)
      ]

abbrev pub zeros : List ℕ
zeros = replicate 16 0

-- The packet with the value of its first Message-Authenticator replaced.
unfoldable pub blank : List Attribute → List Attribute
blank [] = []
blank (a ∷ attributes) =
    if "Message-Authenticator" == a.class.description
    then record a { bytes_data = zeros } ∷ attributes
    else a ∷ blank attributes

-- A computed hash is compared with the one that was received. The error of a mismatch is turned
-- into `MessageParseError` by `Radius.parse`.
abbrev compared : List ℕ → List ℕ → Result (Unit {0})
compared calculated given = if calculated == given then ok tt else raised parse_error

module _ (md5 : List ℕ → List ℕ) (hmac : List ℕ → List ℕ → List ℕ) where
  compared_md5 : Result (List ℕ) → String → List ℕ → Result (Unit {0})
  compared_md5 (raised e) secret given = raised e
  compared_md5 (ok packed) secret given = compared (md5 (packed ++ encode secret)) given

  compared_hmac : Result (List ℕ) → String → List ℕ → Result (Unit {0})
  compared_hmac (raised e) secret given = raised e
  compared_hmac (ok packed) secret given = compared (hmac (encode secret) packed) given

  abbrev is_given : List ℕ → Bool
  is_given [] = false
  is_given _ = true

  -- `validate_response_authenticator`
  unfoldable pub validate_response_authenticator : Packet → List ℕ → String → Result (Unit {0})
  unfolding compared_md5 pack
  validate_response_authenticator p request secret =
      if is_given request && is_response p.code
      then compared_md5 (pack (record p { authenticator = request })) secret p.authenticator
      else ok tt

  -- `validate_message_authenticator`
  unfoldable pub validate_message_authenticator : Packet → List ℕ → String → Result (Unit {0})
  unfolding compared_hmac pack blank
  validate_message_authenticator p request secret =
      elim (find "Message-Authenticator" p.attributes) [
        | none ↦ ok tt
        | some a ↦
            compared_hmac
              (pack (record p { authenticator = request; attributes = blank p.attributes })) secret
              a.bytes_data
      ]

  abbrev both : Result (Unit {0}) → Result (Unit {0}) → Packet → Result Packet
  both (raised e) second p = raised e
  both (ok _) (raised e) p = raised e
  both (ok _) (ok _) p = ok p

  -- `validate_packet`
  unfoldable pub validate_packet : Packet → String → List ℕ → Result Packet
  unfolding validate_response_authenticator validate_message_authenticator
  validate_packet p secret request =
      if secret == ""
      then raised value_error
      else both (validate_response_authenticator p request secret)
          (validate_message_authenticator p request secret) p

  -- `request_authenticator` of `Radius.parse`
  abbrev pub request_of : Packet → Dict ℕ (List ℕ) → Option (List ℕ)
  request_of p requests =
      if p.code == access_request then some p.authenticator else Dict.lookup p.packet_id requests

  abbrev validated : Packet → Option (List ℕ) → String → Result Packet
  validated p none secret = raised parse_error
  validated p (some request) secret = validate_packet p secret request

  -- The packet that a code, an identifier, an authenticator and attributes make.
  abbrev made : ℕ → ℕ → List ℕ → Result (List Attribute) → Dict ℕ (List ℕ) → String → Result Packet
  made code packet_id authenticator (raised e) requests secret = raised e
  made code packet_id authenticator (ok attributes) requests secret =
      let p : Packet = record {
        code = code;
        packet_id = packet_id;
        authenticator = authenticator;
        attributes = attributes;
      } in
      validated p (request_of p requests) secret

  abbrev made_of :
      ℕ
      → ℕ
      → List ℕ
      → Option (Result (List Attribute))
      → Dict ℕ (List ℕ)
      → String
      → Option (Result Packet)
  made_of code packet_id authenticator none requests secret = none
  made_of code packet_id authenticator (some r) requests secret =
      some (made code packet_id authenticator r requests secret)

  -- `Radius.parse`. The length that the header gives is not looked at. The fuel is that of the
  -- attributes.
  unfoldable pub parse : ℕ → List ℕ → String → Dict ℕ (List ℕ) → Option (Result Packet)
  unfolding validate_packet
  parse fuel (code ∷ packet_id ∷ high ∷ low ∷ rest) secret requests =
      if leb 16 (length rest)
      then (if has_parser code
          then made_of code packet_id (take 16 rest) (parse_attributes fuel (drop 16 rest)) requests
              secret
          else some (raised parse_error))
      else some (raised parse_error)
  parse fuel _ secret requests = some (raised parse_error)
