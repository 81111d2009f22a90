-- ===== src/Radius/Packet/Answers.antt =====
-- The answer of an honest server is taken.
use forch.Base.{
  ℕ, ◌+◌, ◌/◌, ◌%◌, ◌≤◌, ◌<◌, ◌≡◌, refl, sym, ap, ◌∙◌, ◌≢◌, String, true, false, none, some, List,
  [], ◌∷◌, ◌++◌, arith, All, take, drop, length, replicate, leb, take-append, drop-append,
  length-append, nat_eq, string_eq, list_eq, ◌==◌,
}
use forch.Base.Dict
use forch.Base.Dict.{Dict}
use forch.Base.Exec.{ok}
use forch.Radius.Attributes.{find, pack_attributes, total_length, parse_attributes}
use forch.Radius.Attributes.RoundTrip.{IsPlain, parse_attributes-pack_attributes}
use forch.Radius.Packet.{
  Packet, access_request, has_parser, is_response, header_length, packed_header, pack, compared,
  compared_md5, validate_response_authenticator, validate_message_authenticator, validate_packet,
  request_of, validated, made, parse,
}
use forch.Radius.Packet.Authentic.{IsAnswer, given_full}

-- A packet that fits on the wire.
pub record IsSendable (p : Packet) : Type 0 where
  pub byte : p.packet_id < 256
  pub responds : is_response p.code ≡ true
  pub sixteen : length p.authenticator ≡ 16
  pub plain : All IsPlain p.attributes
  pub short : total_length p.attributes ≤ 65515

response_codes :
    (code : ℕ)
    → is_response code ≡ true
    → (code < 256) × (has_parser code ≡ true) × ((code == access_request) ≡ false)
response_codes code h = ground arith

take_sixteen : (xs ys : List ℕ) → length xs ≡ 16 → take 16 (xs ++ ys) ≡ xs
take_sixteen xs ys h = ap (λ n. take n (xs ++ ys)) (sym h) ∙ take-append xs ys

drop_sixteen : (xs ys : List ℕ) → length xs ≡ 16 → drop 16 (xs ++ ys) ≡ ys
drop_sixteen xs ys h = ap (λ n. drop n (xs ++ ys)) (sym h) ∙ drop-append xs ys

-- The bytes of a packet, from those of its attributes.
abbrev on_wire : Packet → List ℕ → List ℕ
on_wire p bytes =
    let size = header_length + total_length p.attributes in
    p.code ∷ p.packet_id ∷ (size / 256) ∷ (size % 256) ∷ (p.authenticator ++ bytes)

packed_header-eq :
    (code packet_id size : ℕ) (authenticator : List ℕ)
    → code < 256
    → packet_id < 256
    → size < 65536
    → length authenticator ≡ 16
    → packed_header code packet_id size authenticator
      ≡ ok (code ∷ packet_id ∷ (size / 256) ∷ (size % 256) ∷ authenticator)
packed_header-eq code packet_id size authenticator c i s l =
    rw (take_sixteen authenticator (replicate 16 0) l) (ground (arith, c, i, s))

pack-eq :
    (p : Packet) (bytes : List ℕ)
    → IsSendable p
    → pack_attributes p.attributes ≡ ok bytes
    → pack p ≡ ok (on_wire p bytes)
unfolding pack
pack-eq p bytes s e =
    rw
      (
        packed_header-eq p.code p.packet_id (header_length + total_length p.attributes)
            p.authenticator (response_codes p.code s.responds).0 s.byte (omega (arith, s.short))
            s.sixteen,
        pack,
      )
      (rw e refl)

module _ (md5 : List ℕ → List ℕ) (hmac : List ℕ → List ℕ → List ℕ) (secret : String) where
  self_compared : (xs ys : List ℕ) → xs ≡ ys → compared xs ys ≡ ok tt
  self_compared xs ys h = ground (arith, h)

  response-eq :
      (p : Packet) (request : List ℕ)
      → is_response p.code ≡ true
      → request ≢ []
      → IsAnswer md5 secret request p
      → validate_response_authenticator md5 hmac p request secret ≡ ok tt
  unfolding validate_response_authenticator compared_md5
  response-eq p request responds full answer =
      rw (given_full md5 hmac secret [] request full, validate_response_authenticator)
        (rw responds (rw answer.packs (self_compared _ _ answer.hashed)))

  message-eq :
      (p : Packet) (request : List ℕ)
      → find "Message-Authenticator" p.attributes ≡ none
      → validate_message_authenticator md5 hmac p request secret ≡ ok tt
  unfolding validate_message_authenticator
  message-eq p request unsigned = rw (unsigned, validate_message_authenticator) refl

  validate_packet-eq :
      (p : Packet) (request : List ℕ)
      → secret ≢ ""
      → is_response p.code ≡ true
      → request ≢ []
      → find "Message-Authenticator" p.attributes ≡ none
      → IsAnswer md5 secret request p
      → validate_packet md5 hmac p secret request ≡ ok p
  unfolding validate_packet
  validate_packet-eq p request keyed responds full unsigned answer =
      ground
        (arith, keyed, response-eq p request responds full answer, message-eq p request unsigned)

  module _ (requests : Dict ℕ (List ℕ)) (p : Packet) (request : List ℕ) where
    known-eq :
        is_response p.code ≡ true
        → Dict.lookup p.packet_id requests ≡ some request
        → request_of md5 hmac p requests ≡ some request
    known-eq responds waits = rw ((response_codes p.code responds).2, request_of) waits

    -- A response that is made for a request that waits, with a hash that fits, no Message-Authenticator
    -- and plain attributes, can be packed, and what it is packed to is taken by `Radius.parse` as the
    -- same packet, with fuel for as many turns as it has attributes.
    pub parse-pack :
        (fuel : ℕ)
        → secret ≢ ""
        → IsSendable p
        → request ≢ []
        → find "Message-Authenticator" p.attributes ≡ none
        → Dict.lookup p.packet_id requests ≡ some request
        → IsAnswer md5 secret request p
        → length p.attributes ≤ fuel
        → (message : List ℕ) × (pack p ≡ ok message)
          × (parse md5 hmac fuel message secret requests ≡ some (ok p))
    unfolding parse
    parse-pack fuel keyed s full unsigned waits answer l =
        let (bytes, packed, parsed) =
          parse_attributes-pack_attributes p.attributes fuel s.plain l in
        let valid = validate_packet-eq p request keyed s.responds full unsigned answer in
        (on_wire p bytes, pack-eq p bytes s packed, taken bytes parsed valid)
      where
        made-eq :
            validate_packet md5 hmac p secret request ≡ ok p
            → made md5 hmac p.code p.packet_id p.authenticator (ok p.attributes) requests secret
              ≡ ok p
        made-eq valid = ap (λ o. validated md5 hmac p o secret) (known-eq s.responds waits) ∙ valid

        long : (bytes : List ℕ) → leb 16 (length (p.authenticator ++ bytes)) ≡ true
        long bytes = ground (arith, length-append p.authenticator bytes, s.sixteen)

        taken :
            (bytes : List ℕ)
            → parse_attributes fuel bytes ≡ some (ok p.attributes)
            → validate_packet md5 hmac p secret request ≡ ok p
            → parse md5 hmac fuel (on_wire p bytes) secret requests ≡ some (ok p)
        taken bytes parsed valid =
            rw (long bytes, parse)
              (rw (response_codes p.code s.responds).1 (
                rw (take_sixteen p.authenticator bytes s.sixteen) (
                  rw (drop_sixteen p.authenticator bytes s.sixteen)
                    (rw parsed (ap some (made-eq valid))))))
