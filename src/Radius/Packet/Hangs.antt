-- ===== src/Radius/Packet/Hangs.antt =====
-- Packets for which `Radius.parse` does not end.
use forch.Base.{
  ℕ, zero, suc, ◌≡◌, refl, sym, ap, ◌∙◌, String, true, none, List, [], ◌∷◌, ◌++◌, arith, All,
  length, drop, drop-append, length-append, leb,
}
use mathlib.Core.List.{append_assoc}
use forch.Base.Dict.{Dict}
use forch.Base.Exec.{ok}
use forch.Radius.Attributes.{
  Attribute, Extraction, start_extraction, note_attribute, extract_attributes, parse_attributes,
  pack_attributes,
}
use forch.Radius.Attributes.Loop.{hangs_from}
use forch.Radius.Attributes.RoundTrip.{IsPlain, wire, on_wire, extract-on_wire, pack_attributes-eq}
use forch.Radius.Packet.{parse, has_parser}

hangs_after :
    (attributes : List Attribute) (fuel : ℕ) (rest : List ℕ) (x : Extraction)
    → All IsPlain attributes
    → extract_attributes fuel (wire attributes ++ (79 ∷ 0 ∷ rest)) x ≡ none
unfolding extract_attributes
hangs_after [] fuel rest x p = hangs_from fuel rest x
hangs_after (a ∷ attributes) zero rest x (p, ps) = refl
hangs_after (a ∷ attributes) (suc fuel) rest x (p, ps) =
    let tail = wire attributes ++ (79 ∷ 0 ∷ rest) in
    ap (λ bytes. extract_attributes (suc fuel) bytes x)
      (append_assoc (on_wire a) (wire attributes) (79 ∷ 0 ∷ rest))
    ∙ extract-on_wire fuel a tail x p
    ∙ hangs_after attributes fuel rest (note_attribute a x) ps

oks : (xs ys : List ℕ) → ok xs ≡ ok ys → xs ≡ ys
oks xs ys e = cc

parse_attributes-hangs :
    (attributes : List Attribute) (front rest : List ℕ) (fuel : ℕ)
    → All IsPlain attributes
    → pack_attributes attributes ≡ ok front
    → parse_attributes fuel (front ++ (79 ∷ 0 ∷ rest)) ≡ none
unfolding parse_attributes
parse_attributes-hangs attributes front rest fuel p e =
    let same : wire attributes ≡ front =
      oks (wire attributes) front (sym (pack_attributes-eq attributes p) ∙ e) in
    rw (← same) (rw (hangs_after attributes fuel rest start_extraction p) refl)

long_enough : (xs ys : List ℕ) → length xs ≡ 16 → leb 16 (length (xs ++ ys)) ≡ true
long_enough xs ys e = ground (arith, length-append xs ys, e)

take_sixteen : (xs ys : List ℕ) → length xs ≡ 16 → drop 16 (xs ++ ys) ≡ ys
take_sixteen xs ys e = ap (λ n. drop n (xs ++ ys)) (sym e) ∙ drop-append xs ys

module _ (md5 : List ℕ → List ℕ) (hmac : List ℕ → List ℕ → List ℕ) where
  -- A message of a known code whose attributes are any that can be packed plainly, followed by an
  -- EAP-Message whose length is 0, is parsed for ever, however much fuel there is. This holds of any
  -- authenticator, secret and table of requests, so that none of them has to be known to a sender.
  pub parse_hangs :
      (attributes : List Attribute) (front rest authenticator : List ℕ)
      (code packet_id high low fuel : ℕ) (secret : String) (requests : Dict ℕ (List ℕ))
      → All IsPlain attributes
      → pack_attributes attributes ≡ ok front
      → has_parser code ≡ true
      → length authenticator ≡ 16
      → parse md5 hmac fuel
          (code ∷ packet_id ∷ high ∷ low ∷ (authenticator ++ (front ++ (79 ∷ 0 ∷ rest))))
          secret
          requests
        ≡ none
  unfolding parse
  parse_hangs attributes front rest authenticator code packet_id high low fuel secret requests p e
        known sixteen =
      let bytes = front ++ (79 ∷ 0 ∷ rest) in
      rw (long_enough authenticator bytes sixteen) (
        rw known (
          rw (take_sixteen authenticator bytes sixteen)
            (rw (parse_attributes-hangs attributes front rest fuel p e) refl)))
