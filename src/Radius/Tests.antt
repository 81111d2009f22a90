-- ===== src/Radius/Tests.antt =====
-- Attributes, packets and requests at concrete inputs. The hash functions are constant.
use forch.Base.{
  ℕ, ◌≡◌, Option, String, refl, none, some, List, [], ◌∷◌, ◌++◌, true, arith, All, length,
  replicate, encode, nat_eq, string_eq, list_eq,
}
use forch.Base.Dict
use forch.Base.Dict.{Dict}
use forch.Base.Exec.{ok}
use forch.Radius.Attributes.{
  tunnel_private_group_id, tunnel_type, eap_message, class_of, Attribute, pack_attributes,
  pack_attribute, total_length, find, start_extraction, extract_attributes, parse_attribute,
  parse_attributes,
}
use forch.Radius.Attributes.RoundTrip.{IsPlain, parse_attributes-pack_attributes}
use forch.Radius.Attributes.Loop.{extract_attributes_ends, HasEmpty}
use forch.Radius.Datatypes.{chunks}
use forch.Radius.Packet.{Packet, pack, parse, has_parser}
use forch.Radius.Packet.Hangs.{parse_hangs}
use forch.Radius.Attributes.Lengths.{length-pack_attributes}
use forch.Radius.Packet.Authentic.{IsAuthentic, IsAnswer, parse-IsAuthentic}
use forch.Radius.Packet.Answers.{IsSendable, parse-pack}
use forch.Radius.Client.{Client}
use forch.Auth.Sessions.{accept}
use forch.Radius.Client.Receive.{Answer, receive, IsFrom, receive-IsFrom}

abbrev two : List Attribute
two =
    record { class = tunnel_type; bytes_data = 0 ∷ 0 ∷ 0 ∷ 13 ∷ [] }
    ∷ record { class = tunnel_private_group_id; bytes_data = encode "SEG_A" }
    ∷ []

two-plain : All IsPlain two
unfolding class_of nat_eq encode
two-plain = (
  record { found = refl; plain = refl; valid = refl },
  (record { found = refl; plain = refl; valid = refl }, tt),
)

abbrev two_bytes : List ℕ
two_bytes = 64 ∷ 6 ∷ 0 ∷ 0 ∷ 0 ∷ 13 ∷ 81 ∷ 7 ∷ encode "SEG_A"

two_packed : pack_attributes two ≡ ok two_bytes
unfolding pack_attributes pack_attribute encode
two_packed = refl

-- An EAP-Message that takes two headers
abbrev long_message : List Attribute
long_message = record { class = eap_message; bytes_data = replicate 300 7 } ∷ two

abbrev long_bytes : List ℕ
long_bytes = (79 ∷ 255 ∷ replicate 253 7) ++ ((79 ∷ 49 ∷ replicate 47 7) ++ two_bytes)

long_packed : pack_attributes long_message ≡ ok long_bytes
unfolding pack_attributes pack_attribute encode chunks
long_packed = refl

length-pack_attributes_example : length long_bytes ≡ total_length long_message
length-pack_attributes_example = length-pack_attributes long_message long_bytes long_packed

parse_attributes-pack_attributes_example :
    (bytes : List ℕ) × (pack_attributes two ≡ ok bytes) × (parse_attributes 2 bytes ≡ some (ok two))
parse_attributes-pack_attributes_example =
    parse_attributes-pack_attributes two 2 two-plain (omega arith)

empty_message : extract_attributes 2 (79 ∷ 0 ∷ []) start_extraction ≡ none
unfolding extract_attributes parse_attribute class_of nat_eq
empty_message = refl

extract_attributes_ends_example : HasEmpty (79 ∷ 0 ∷ [])
extract_attributes_ends_example =
    extract_attributes_ends 2 (79 ∷ 0 ∷ []) start_extraction (omega arith) empty_message

known_code : has_parser 2 ≡ true
unfolding nat_eq
known_code = refl

abbrev md5 : List ℕ → List ℕ
md5 bytes = replicate 16 7

abbrev hmac : List ℕ → List ℕ → List ℕ
hmac key message = replicate 16 9

abbrev waiting : Dict ℕ (List ℕ)
waiting = (5, replicate 16 1) ∷ []

abbrev answer : Packet
answer = record { code = 2; packet_id = 5; authenticator = replicate 16 7; attributes = two }

abbrev answer_bytes : List ℕ
answer_bytes =
    2 ∷ 5 ∷ 0 ∷ 33 ∷ 7 ∷ 7 ∷ 7 ∷ 7 ∷ 7 ∷ 7 ∷ 7 ∷ 7 ∷ 7 ∷ 7 ∷ 7 ∷ 7 ∷ 7 ∷ 7 ∷ 7 ∷ 7 ∷ two_bytes

answer_parsed : parse md5 hmac 2 answer_bytes "SECRET" waiting ≡ some (ok answer)
unfolding parse encode nat_eq parse_attributes class_of Dict.lookup string_eq total_length
    pack_attributes list_eq find
answer_parsed = refl

parse-IsAuthentic_example : IsAuthentic md5 hmac "SECRET" waiting answer
parse-IsAuthentic_example =
    parse-IsAuthentic md5 hmac "SECRET" waiting 2 answer_bytes answer answer_parsed

parse_hangs_example :
    parse md5 hmac 1000
      (2 ∷ 5 ∷ 0 ∷ 35 ∷ (replicate 16 0 ++ (two_bytes ++ (79 ∷ 0 ∷ []))))
      "SECRET"
      waiting
    ≡ none
parse_hangs_example =
    parse_hangs md5 hmac two two_bytes [] (replicate 16 0) 2 5 0 35 1000 "SECRET" waiting two-plain
      two_packed known_code refl

answer-IsSendable : IsSendable answer
unfolding nat_eq total_length encode
answer-IsSendable = record {
  byte = omega arith;
  responds = refl;
  sixteen = refl;
  plain = two-plain;
  short = omega arith;
}

answer-IsAnswer : IsAnswer md5 "SECRET" (replicate 16 1) answer
unfolding pack pack_attributes pack_attribute total_length encode
answer-IsAnswer = record {
  packed =
      2 ∷ 5 ∷ 0 ∷ 33 ∷ 1 ∷ 1 ∷ 1 ∷ 1 ∷ 1 ∷ 1 ∷ 1 ∷ 1 ∷ 1 ∷ 1 ∷ 1 ∷ 1 ∷ 1 ∷ 1 ∷ 1 ∷ 1 ∷ two_bytes;
  packs = refl;
  hashed = refl;
}

parse-pack_example :
    (message : List ℕ) × (pack answer ≡ ok message)
    × (parse md5 hmac 2 message "SECRET" waiting ≡ some (ok answer))
unfolding find string_eq Dict.lookup nat_eq
parse-pack_example =
    parse-pack md5 hmac "SECRET" waiting answer (replicate 16 1) 2 (λ e. cc) answer-IsSendable
      (λ e. cc) refl refl answer-IsAnswer (omega arith)

abbrev client : Client
client = record {
  next_radius_id = 255;
  packet_id_to_mac = [];
  requests = [];
  radius_secret = "SECRET";
  sent = [];
}

abbrev waiting_client : Client
waiting_client = record client {
  packet_id_to_mac = (5, ("9a:02:57:1e:8f:01", 7627639)) ∷ [];
  requests = waiting;
}

abbrev decode : List ℕ → Option String
decode bytes = some "SEG_A"

abbrev granted : Answer
granted = record {
  src_mac = "9a:02:57:1e:8f:01";
  code = accept;
  segment = some "SEG_A";
  role = none;
}

granted_received : receive md5 hmac decode 2 answer_bytes waiting_client ≡ some (ok granted)
unfolding receive parse encode nat_eq parse_attributes class_of Dict.lookup string_eq total_length
    pack_attributes list_eq find
granted_received = refl

receive-IsFrom_example : IsFrom md5 hmac decode waiting_client granted
receive-IsFrom_example =
    receive-IsFrom md5 hmac decode 2 answer_bytes waiting_client granted granted_received
