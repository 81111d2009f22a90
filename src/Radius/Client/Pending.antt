-- ===== src/Radius/Client/Pending.antt =====
-- Which device an answer belongs to.
use forch.Base.{ℕ, ◌+◌, ◌-◌, ◌%◌, ◌≡◌, String, some, List, nat_eq}
use forch.Base.Dict
use forch.Base.Dict.{Dict}
use forch.Radius.Client.{Client, send_mab_request}

-- The client remembers the device and the random bytes of a request under an identifier.
pub record IsPending (id : ℕ) (mac : String) (port_id : ℕ) (random : List ℕ) (c : Client)
    : Type 0 where
  pub device : Dict.lookup id c.packet_id_to_mac ≡ some (mac, port_id)
  pub request : Dict.lookup id c.requests ≡ some random

-- How many identifiers are used before this one is used again.
abbrev left : ℕ → Client → ℕ
left id c = (id + 256 - c.next_radius_id) % 256

module _ (hmac : List ℕ → List ℕ → List ℕ) (mac : String) (port_id : ℕ) (random : List ℕ)
    (c : Client) where
  abbrev after_send : Client
  after_send = (send_mab_request hmac mac port_id random c).1

abbrev Requests : Type 0
Requests = List (String × ℕ × List ℕ)
