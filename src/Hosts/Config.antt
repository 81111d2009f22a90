-- ===== src/Hosts/Config.antt =====
-- The configuration of the switches that `FaucetStateCollector` of forch/faucet_state_collector.py
-- reads, and what it says of a port: `_get_switch_config`, `_get_port_attributes`, and of
-- `_fill_port_behavior` the VLAN of a port, when there are no metrics.
use forch.Base.{
  ℕ, String, Bool, true, false, ◌&&◌, Option, none, some, List, [], ◌∷◌, leb, string_eq, nat_eq,
  ◌==◌, if◌then◌else◌,
}
use forch.Base.Dict
use forch.Base.Dict.{Dict}
use forch.Base.Exec.{Result, ok, raised, plain_exception, assertion_error}
use forch.Port.State.{is_empty}

pub record Interface : Type 0 where
  pub description : String
  pub stack : Option (String × ℕ)
  pub lacp : Bool

-- A switch: its interfaces, of which an empty one is `none`, the ranges of ports, and the native
-- VLAN of each port
pub record Dp : Type 0 where
  pub interfaces : Dict ℕ (Option Interface)
  pub interface_ranges : List (ℕ × ℕ)
  pub ports : Dict ℕ (Option ℕ)

abbrev pub Dps : Type 0
Dps = Dict String Dp

pub data PortType : Type 0 where
  stack : String → ℕ → PortType
  egress sequester access : PortType

abbrev pub is_access : PortType → Bool
is_access access = true
is_access _ = false

abbrev pub is_egress : PortType → Bool
is_egress egress = true
is_egress _ = false

-- The type of a configured interface, for the description of the ports for sequestering
abbrev pub interface_type : String → Option Interface → Result PortType
interface_type sequester_port_desc none = raised assertion_error
interface_type sequester_port_desc (some i) = elim i.stack [
  | some peer ↦ ok (stack peer.0 peer.1)
  | none ↦
      if i.lacp
      then ok egress
      else if is_empty sequester_port_desc
      then ok access
      else if sequester_port_desc == i.description
      then ok sequester
      else ok access
]

-- The loop over the ranges
unfoldable pub range_type : ℕ → List (ℕ × ℕ) → Result PortType
range_type port [] = raised plain_exception
range_type port ((start, end) ∷ ranges) =
    let rest = range_type port ranges in if leb start port && leb port end then ok access else rest

abbrev pub port_type : String → Dp → ℕ → Result PortType
port_type sequester_port_desc dp port = elim (Dict.lookup port dp.interfaces) [
  | some info ↦ interface_type sequester_port_desc info
  | none ↦ range_type port dp.interface_ranges
]

-- `_get_port_attributes`, with `_get_switch_config`
unfoldable pub get_port_attributes : String → Dps → String → ℕ → Result PortType
unfolding range_type
get_port_attributes sequester_port_desc dps switch port = elim (Dict.lookup switch dps) [
  | none ↦ raised plain_exception
  | some dp ↦ port_type sequester_port_desc dp port
]

-- `_fill_port_behavior` without metrics, of the VLAN
unfoldable pub fill_port_behavior : Dps → String → ℕ → Result (Option ℕ)
fill_port_behavior dps switch port = elim (Dict.lookup switch dps) [
  | none ↦ ok none
  | some dp ↦ elim (Dict.lookup port dp.ports) [
    | none ↦ raised plain_exception
    | some vlan ↦ ok vlan
  ]
]
