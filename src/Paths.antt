-- ===== src/Paths.antt =====
-- The path from a switch to the egress, in `FaucetStateCollector` of forch/faucet_state_collector.py:
-- `get_switch_egress_path` and `_populate_path`. The links are given by their ends, as
-- `get_endpoints_from_link` parses them; the port of each switch on the way to the root is
-- `root_hop_port`, 0 if it has none.
pub mod Ends
pub mod Routes
mod Tests
use forch.Base.{
  ℕ, zero, suc, ◌+◌, ◌*◌, String, ◌<>◌, Bool, true, false, ◌&&◌, ◌||◌, Option, none, some, List, [],
  ◌∷◌, ◌++◌, contains, length, string_eq, nat_eq, pair_eq, list_eq, ◌==◌, if◌then◌else◌,
}
use forch.Base.Dict
use forch.Base.Dict.{Dict}
use forch.Base.Exec.{Error, Result, ok, raised, key_error}
use forch.Hosts.{Switch, PortState}
use forch.Hosts.Config.{Dps, is_egress, get_port_attributes}

-- `get_endpoints_from_link`
pub record Link : Type 0 where
  pub sw_1 : String
  pub port_1 : ℕ
  pub sw_2 : String
  pub port_2 : ℕ

pub record Hop : Type 0 where
  pub switch : String
  pub in_port : Option ℕ
  pub out_port : Option ℕ

abbrev pub optional : Option ℕ → List ℕ
optional none = []
optional (some p) = p ∷ []

-- `tuple(hop.values())`
abbrev pub hop_tuple : Hop → String × List ℕ
hop_tuple hop = (hop.switch, optional hop.in_port ++ optional hop.out_port)

-- The next hop over a link, to its second or its first end
abbrev pub to_2 : Link → Hop
to_2 l = record { switch = l.sw_2; in_port = some l.port_2; out_port = none }

abbrev pub to_1 : Link → Hop
to_1 l = record { switch = l.sw_1; in_port = some l.port_1; out_port = none }

-- `_populate_hop`: `next_hop`, which is left empty if no link has the port
unfoldable pub populate_hop : List Link → String → ℕ → Option Hop
populate_hop [] switch egress_port = none
populate_hop (l ∷ links) switch egress_port =
    let rest = populate_hop links switch egress_port in
    if switch == l.sw_1 && egress_port == l.port_1
    then some (to_2 l)
    else if switch == l.sw_2 && egress_port == l.port_2
    then some (to_1 l)
    else rest

-- What `_populate_path` ends with: the path to the root, one of its two errors with the path so far,
-- or an exception
pub data Outcome : Type 0 where
  found : List Hop → Outcome
  loop_in_topology root_absent : List Hop → Outcome
  failed : Error → Outcome
  out_of_fuel : Outcome

-- `path.append(hop)` before what follows
abbrev pub prepend : Hop → Outcome → Outcome
prepend hop (found path) = found (hop ∷ path)
prepend hop (loop_in_topology path) = loop_in_topology (hop ∷ path)
prepend hop (root_absent path) = root_absent (hop ∷ path)
prepend hop (failed e) = failed e
prepend hop out_of_fuel = out_of_fuel

-- The topology: `root_hop_port` of the switches, the links, the root, and what the egress port of a
-- switch is read from. The switches are the map of a message, where a key that is missing stands for
-- a switch without a port to the root, or a dict after a restoration.
pub record Topology : Type 0 where
  pub dps : Dict String ℕ
  pub links : List Link
  pub root : String
  pub is_message : Bool
  pub sequester_port_description : String
  pub dps_config : Dps
  pub switch_states : Dict String Switch

-- `dps[switch].root_hop_port`
unfoldable pub root_hop_port : Topology → String → Option ℕ
root_hop_port t switch = elim (Dict.lookup switch t.dps) [
  | some p ↦ some p
  | none ↦ if t.is_message then some 0 else none
]

-- The loop of `_get_egress_port`
unfoldable pub first_egress : String → Dps → String → Dict ℕ PortState → Result (Option ℕ)
unfolding get_port_attributes
first_egress description dps switch [] = ok none
first_egress description dps switch ((port, _) ∷ ports) =
    let rest = first_egress description dps switch ports in
    elim (get_port_attributes description dps switch port) [
      | raised e ↦ raised e
      | ok type ↦ if is_egress type then ok (some port) else rest
    ]

-- `_get_egress_port`
unfoldable pub get_egress_port : Topology → String → Result (Option ℕ)
unfolding first_egress
get_egress_port t switch = elim (Dict.lookup switch t.switch_states) [
  | none ↦ raised key_error
  | some s ↦ first_egress t.sequester_port_description t.dps_config switch s.ports
]

-- The end of the path at the root
abbrev pub ended_at : Hop → Result (Option ℕ) → Outcome
ended_at hop (ok port) = found (record hop { out_port = port } ∷ [])
ended_at hop (raised e) = failed e

-- `hop['out']`, which stays away where the switch has no port to the root
abbrev pub with_out : ℕ → Hop → Hop
with_out zero hop = hop
with_out (suc p) hop = record hop { out_port = some (suc p) }

-- A turn of the loop of `_populate_path` at a hop, for the `root_hop_port` of its switch: `ended` is
-- what the loop ends with when there is no next hop, `rest` what it ends with from the next hop on.
unfoldable pub turn :
    Topology → Hop → List (String × List ℕ) → Outcome → (ℕ → Outcome) → Option ℕ → Outcome
unfolding get_egress_port
turn t hop visited ended rest none = failed key_error
turn t hop visited ended rest (some zero) =
    if hop.switch == t.root
    then ended_at hop (get_egress_port t hop.switch)
    else if contains visited (hop_tuple hop)
    then loop_in_topology []
    else ended
turn t hop visited ended rest (some (suc p)) =
    prepend (with_out (suc p) hop)
      (if contains visited (hop_tuple (with_out (suc p) hop)) then loop_in_topology [] else rest p)

-- `_populate_path` from a hop on: a turn of the loop takes one unit of fuel.
unfoldable pub populate_path : Topology → ℕ → Option Hop → List (String × List ℕ) → Outcome
unfolding populate_hop turn root_hop_port
populate_path t zero hop visited = out_of_fuel
populate_path t (suc fuel) none visited = root_absent []
populate_path t (suc fuel) (some hop) visited =
    turn t hop visited (populate_path t fuel none (hop_tuple hop ∷ visited))
      (λ p.
        populate_path t fuel (populate_hop t.links hop.switch (suc p))
          (hop_tuple (with_out (suc p) hop) ∷ visited))
      (root_hop_port t hop.switch)

-- The fuel that is enough
abbrev pub enough : Topology → ℕ
enough t = 2 * length t.links + 3

-- The start of `get_switch_egress_path`, where port 0 stands for none
abbrev pub first_hop : String → ℕ → Hop
first_hop switch zero = record { switch = switch; in_port = none; out_port = none }
first_hop switch (suc p) = record { switch = switch; in_port = some (suc p); out_port = none }

-- What `get_switch_egress_path` returns: the state of the path is broken for a detail.
pub data PathState : Type 0 where
  healthy_path : List Hop → PathState
  broken_path : String → PathState
  raised_error : Error → PathState
  unfinished : PathState

abbrev pub path_state : Outcome → PathState
path_state (found path) = healthy_path path
path_state (loop_in_topology path) = broken_path "No path to root found. Loop in topology."
path_state (root_absent path) = broken_path "No path to root found. Root absent in topology."
path_state (failed e) = raised_error e
path_state out_of_fuel = unfinished

abbrev pub is_nil {ℓ} : {A : Type ℓ} → List A → Bool
is_nil [] = true
is_nil (_ ∷ _) = false

-- `get_switch_egress_path`, once both the links and the switches are known
unfoldable pub get_switch_egress_path : Topology → String → ℕ → PathState
unfolding populate_path
get_switch_egress_path t switch port =
    if is_nil t.links || is_nil t.dps
    then broken_path "No active links available"
    else path_state (populate_path t (enough t) (some (first_hop switch port)) [])
