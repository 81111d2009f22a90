-- ===== src/Radius/Packet/Authentic.antt =====
-- What a packet that `Radius.parse` takes has proved.
use forch.Base.{
  ℕ, ◌≡◌, refl, ◌≢◌, String, Bool, true, false, ◌&&◌, Option, none, some, List, [], ◌∷◌, ◌++◌,
  arith, take, drop, length, encode, nat_eq, string_eq, list_eq, ◌==◌, if◌then◌else◌, leb,
}
use mathlib.Core.Path.{subst}
use forch.Base.Dict.{Dict}
use forch.Base.Exec.{Result, ok, raised, parse_error, value_error}
use forch.Radius.Attributes.{Attribute, find, parse_attributes}
use forch.Radius.Packet.{
  Packet, has_parser, is_response, pack, blank, compared_md5, compared_hmac,
  validate_response_authenticator, validate_message_authenticator, validate_packet, both,
  request_of, validated, made, made_of, parse, is_given,
}

-- The hash of a packet with the authenticator of the request is the authenticator that it has.
pub record IsAnswer (md5 : List ℕ → List ℕ) (secret : String) (request : List ℕ) (p : Packet)
    : Type 0 where
  pub packed : List ℕ
  pub packs : pack (record p { authenticator = request }) ≡ ok packed
  pub hashed : md5 (packed ++ encode secret) ≡ p.authenticator

-- The hash of the packet with a blank Message-Authenticator is the value that this had.
pub record IsSigned (hmac : List ℕ → List ℕ → List ℕ) (secret : String) (request : List ℕ)
    (p : Packet) (a : Attribute) : Type 0 where
  pub packed : List ℕ
  pub packs :
      pack (record p { authenticator = request; attributes = blank p.attributes }) ≡ ok packed
  pub hashed : hmac (encode secret) packed ≡ a.bytes_data

module _ (md5 : List ℕ → List ℕ) (hmac : List ℕ → List ℕ → List ℕ) (secret : String) where
  compared_md5_ok :
      (r : Result (List ℕ)) (given : List ℕ)
      → compared_md5 md5 hmac r secret given ≡ ok tt
      → (packed : List ℕ) × (r ≡ ok packed) × (md5 (packed ++ encode secret) ≡ given)
  unfolding compared_md5
  compared_md5_ok (ok packed) given h = (packed, refl, ground (arith, h))
  compared_md5_ok (raised e) given h = cc

  compared_hmac_ok :
      (r : Result (List ℕ)) (given : List ℕ)
      → compared_hmac md5 hmac r secret given ≡ ok tt
      → (packed : List ℕ) × (r ≡ ok packed) × (hmac (encode secret) packed ≡ given)
  unfolding compared_hmac
  compared_hmac_ok (ok packed) given h = (packed, refl, ground (arith, h))
  compared_hmac_ok (raised e) given h = cc

  response_ok :
      (p : Packet) (request : List ℕ)
      → (is_given md5 hmac request && is_response p.code) ≡ true
      → validate_response_authenticator md5 hmac p request secret ≡ ok tt
      → IsAnswer md5 secret request p
  unfolding validate_response_authenticator
  response_ok p request given h =
      let (packed, packs, hashed) =
        compared_md5_ok (pack (record p { authenticator = request })) p.authenticator
          (ground (arith, given, h)) in
      record { packed = packed; packs = packs; hashed = hashed }

  message_ok :
      (p : Packet) (request : List ℕ) (a : Attribute)
      → find "Message-Authenticator" p.attributes ≡ some a
      → validate_message_authenticator md5 hmac p request secret ≡ ok tt
      → IsSigned hmac secret request p a
  unfolding validate_message_authenticator
  message_ok p request a found h =
      let (packed, packs, hashed) =
        compared_hmac_ok
          (pack (record p { authenticator = request; attributes = blank p.attributes }))
          a.bytes_data (ground (arith, found, h)) in
      record { packed = packed; packs = packs; hashed = hashed }

  both_ok :
      (r s : Result (Unit {0})) (p q : Packet)
      → both md5 hmac r s p ≡ ok q
      → (r ≡ ok tt) × (s ≡ ok tt) × (p ≡ q)
  both_ok (ok _) (ok _) p q h = (refl, refl, ground (arith, h))
  both_ok (raised e) s p q h = cc
  both_ok (ok _) (raised e) p q h = cc

-- What the packet owes to the secret, and to the requests that wait: the request of its identifier,
-- or its own authenticator if it is a request.
pub record IsAuthentic (md5 : List ℕ → List ℕ) (hmac : List ℕ → List ℕ → List ℕ) (secret : String)
    (requests : Dict ℕ (List ℕ)) (p : Packet) : Type 0 where
  pub keyed : secret ≢ ""
  pub request : List ℕ
  pub known : request_of md5 hmac p requests ≡ some request
  pub answered : request ≢ [] → is_response p.code ≡ true → IsAnswer md5 secret request p
  pub signed :
      (a : Attribute)
      → find "Message-Authenticator" p.attributes ≡ some a
      → IsSigned hmac secret request p a

module _ (md5 : List ℕ → List ℕ) (hmac : List ℕ → List ℕ → List ℕ) (secret : String)
    (requests : Dict ℕ (List ℕ)) where
  pub given_full : (request : List ℕ) → request ≢ [] → is_given md5 hmac request ≡ true
  given_full [] n = absurd (n refl)
  given_full (b ∷ request) n = refl

  validate_packet_ok :
      (p q : Packet) (request : List ℕ)
      → request_of md5 hmac p requests ≡ some request
      → validate_packet md5 hmac p secret request ≡ ok q
      → IsAuthentic md5 hmac secret requests p × (p ≡ q)
  unfolding validate_packet
  validate_packet_ok p q request known h = elim (string_eq.dec secret "") [
    | yes e ↦ absurd (refused (secret == "") (same e) h)
    | no n ↦
        let (response, message, eq) =
          both_ok md5 hmac secret (validate_response_authenticator md5 hmac p request secret)
            (validate_message_authenticator md5 hmac p request secret) p q (ground (arith, n, h)) in
        (
          record {
            keyed = n;
            request = request;
            known = known;
            answered = λ full responds.
                response_ok md5 hmac secret p request
                  (ground (arith, given_full request full, responds)) response;
            signed = λ a found. message_ok md5 hmac secret p request a found message;
          },
          eq,
        )
  ]
    where
      same : secret ≡ "" → (secret == "") ≡ true
      same e = ground arith

      refused :
          (b : Bool)
          → b ≡ true
          → (if b
              then raised value_error
              else both md5 hmac
                  (validate_response_authenticator md5 hmac p request secret)
                  (validate_message_authenticator md5 hmac p request secret)
                  p)
            ≡ ok q
          → ⊥
      refused true e g = cc
      refused false e g = cc

  validated_ok :
      (p q : Packet) (o : Option (List ℕ))
      → request_of md5 hmac p requests ≡ o
      → validated md5 hmac p o secret ≡ ok q
      → IsAuthentic md5 hmac secret requests p × (p ≡ q)
  validated_ok p q none known h = cc
  validated_ok p q (some request) known h = validate_packet_ok p q request known h

  made_ok :
      (code packet_id : ℕ) (authenticator : List ℕ) (r : Result (List Attribute)) (q : Packet)
      → made md5 hmac code packet_id authenticator r requests secret ≡ ok q
      → IsAuthentic md5 hmac secret requests q
  made_ok code packet_id authenticator (raised e) q h = cc
  made_ok code packet_id authenticator (ok attributes) q h =
      let p : Packet = record {
        code = code;
        packet_id = packet_id;
        authenticator = authenticator;
        attributes = attributes;
      } in
      let v = validated_ok p q (request_of md5 hmac p requests) refl h in
      subst (λ x. IsAuthentic md5 hmac secret requests x) v.1 v.0

  made_of_ok :
      (code packet_id : ℕ) (authenticator : List ℕ) (o : Option (Result (List Attribute)))
      (q : Packet)
      → made_of md5 hmac code packet_id authenticator o requests secret ≡ some (ok q)
      → IsAuthentic md5 hmac secret requests q
  made_of_ok code packet_id authenticator none q h = cc
  made_of_ok code packet_id authenticator (some r) q h =
      made_ok code packet_id authenticator r q (ground (arith, h))

  gated :
      (b c : Bool) (o : Option (Result Packet)) (q : Packet)
      → (if b then (if c then o else some (raised parse_error)) else some (raised parse_error))
        ≡ some (ok q)
      → o ≡ some (ok q)
  gated true true o q h = h
  gated true false o q h = cc
  gated false c o q h = cc

  -- A message that `Radius.parse` takes, for any hash functions, is authentic: the secret is not
  -- empty; a response has the identifier of a request that waits, and, if the authenticator of that
  -- request is not empty, its own authenticator is the MD5 hash of the packet with that of the request
  -- and of the secret; and if it has a Message-Authenticator, this is the HMAC of the packet in which it is zero.
  pub parse-IsAuthentic :
      (fuel : ℕ) (message : List ℕ) (p : Packet)
      → parse md5 hmac fuel message secret requests ≡ some (ok p)
      → IsAuthentic md5 hmac secret requests p
  unfolding parse
  parse-IsAuthentic fuel (code ∷ packet_id ∷ high ∷ low ∷ rest) p h =
      made_of_ok code packet_id (take 16 rest) (parse_attributes fuel (drop 16 rest)) p
        (gated (leb 16 (length rest)) (has_parser code) _ p h)
  parse-IsAuthentic fuel [] p h = cc
  parse-IsAuthentic fuel (a ∷ []) p h = cc
  parse-IsAuthentic fuel (a ∷ b ∷ []) p h = cc
  parse-IsAuthentic fuel (a ∷ b ∷ c ∷ []) p h = cc
