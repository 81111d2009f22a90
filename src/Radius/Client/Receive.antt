-- ===== src/Radius/Client/Receive.antt =====
-- `receive_radius_messages` of forch/radius_query.py, one turn of its loop. `decode` is
-- `bytes.decode('utf-8')`, or nothing where it raises `UnicodeDecodeError`, a `ValueError`.
use forch.Base.{
  ℕ, ◌≡◌, refl, sym, ap, String, Option, none, some, List, arith, nat_eq, string_eq, ◌==◌,
  if◌then◌else◌,
}
use forch.Base.Dict
use forch.Base.Exec.{Result, ok, raised, type_error, value_error}
use forch.Auth.Sessions.{Code, accept, reject, invalid_resp}
use forch.Radius.Attributes.{Attribute, find}
use forch.Radius.Packet.{Packet, parse}
use forch.Radius.Packet.Authentic.{IsAuthentic, parse-IsAuthentic}
use forch.Radius.Client.{Client}

-- The arguments of the callback.
pub record Answer : Type 0 where
  pub src_mac : String
  pub code : Code
  pub segment : Option String
  pub role : Option String

abbrev pub code_of : ℕ → Code
code_of code = if code == 2 then accept else if code == 3 then reject else invalid_resp

-- `get_mac_from_packet_id`
abbrev pub get_mac_from_packet_id : ℕ → Client → Option (String × ℕ)
get_mac_from_packet_id packet_id c = Dict.lookup packet_id c.packet_id_to_mac

module _ (decode : List ℕ → Option String) where
  -- `attr.data().decode('utf-8') if attr else None`
  abbrev text_of : Option Attribute → Result (Option String)
  text_of none = ok none
  text_of (some a) = elim (decode a.bytes_data) [ none ↦ raised value_error | some t ↦ ok (some t) ]

  abbrev answer_with :
      String → Code → Result (Option String) → Result (Option String) → Result Answer
  answer_with mac code (raised e) role = raised e
  answer_with mac code (ok segment) (raised e) = raised e
  answer_with mac code (ok segment) (ok role) =
      ok (record { src_mac = mac; code = code; segment = segment; role = role })

  -- The subscript of `None` raises `TypeError`.
  answer_of : Packet → Option (String × ℕ) → Result Answer
  answer_of p none = raised type_error
  answer_of p (some (mac, port_id)) =
      answer_with mac (code_of p.code) (text_of (find "Tunnel-Private-Group-ID" p.attributes))
        (text_of (find "Tunnel-Assignment-ID" p.attributes))

  received : Option (Result Packet) → Client → Option (Result Answer)
  unfolding answer_of
  received none c = none
  received (some (raised e)) c = some (raised e)
  received (some (ok p)) c = some (answer_of p (get_mac_from_packet_id p.packet_id c))

module _ (md5 : List ℕ → List ℕ) (hmac : List ℕ → List ℕ → List ℕ)
    (decode : List ℕ → Option String) where
  unfoldable pub receive : ℕ → List ℕ → Client → Option (Result Answer)
  unfolding received
  receive fuel message c =
      received decode (parse md5 hmac fuel message c.radius_secret c.requests) c

  -- The packet that an answer came in.
  pub record IsFrom (c : Client) (a : Answer) : Type 0 where
    pub packet : Packet
    pub port_id : ℕ
    pub authentic : IsAuthentic md5 hmac c.radius_secret c.requests packet
    pub device : Dict.lookup packet.packet_id c.packet_id_to_mac ≡ some (a.src_mac, port_id)
    pub coded : a.code ≡ code_of packet.code

  answer_with-fields :
      (mac : String) (code : Code) (segment role : Result (Option String)) (a : Answer)
      → answer_with decode mac code segment role ≡ ok a
      → (a.src_mac ≡ mac) × (a.code ≡ code)
  answer_with-fields mac code segment role a h = ground (arith, h)

  answer_of-fields :
      (p : Packet) (o : Option (String × ℕ)) (a : Answer)
      → answer_of decode p o ≡ ok a
      → (port_id : ℕ) × (o ≡ some (a.src_mac, port_id)) × (a.code ≡ code_of p.code)
  unfolding answer_of
  answer_of-fields p none a h = cc
  answer_of-fields p (some (mac, port_id)) a h =
      let fields = answer_with-fields mac _ _ _ a h in
      (port_id, ap (λ m. some (m, port_id)) (sym fields.0), fields.1)

  -- An answer that is passed on came in a packet that is authentic for the client's secret and the
  -- requests that wait; its device is the one that the packet's identifier stands for, and its code is that of
  -- the packet.
  pub receive-IsFrom :
      (fuel : ℕ) (message : List ℕ) (c : Client) (a : Answer)
      → receive fuel message c ≡ some (ok a)
      → IsFrom c a
  unfolding receive received
  receive-IsFrom fuel message c a h =
      cases (parse md5 hmac fuel message c.radius_secret c.requests) refl h
    where
      cases :
          (r : Option (Result Packet))
          → parse md5 hmac fuel message c.radius_secret c.requests ≡ r
          → received decode r c ≡ some (ok a)
          → IsFrom c a
      cases none e g = cc
      cases (some (raised x)) e g = cc
      cases (some (ok p)) e g =
          let fields =
            answer_of-fields p (get_mac_from_packet_id p.packet_id c) a (ground (arith, g)) in
          record {
            packet = p;
            port_id = fields.0;
            authentic = parse-IsAuthentic md5 hmac c.radius_secret c.requests fuel message p e;
            device = fields.1;
            coded = fields.2;
          }
