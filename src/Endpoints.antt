-- ===== src/Endpoints.antt =====
-- `EndpointHandler` of forch/endpoint_handler.py: the tap ports of the devices under test, and the
-- requests to the switching host, recorded in `out`. The structural configuration file is the list of
-- the interfaces that it gives to `T1_SW1`; a file that cannot be read is not modelled.
mod Sets
mod Allocation
mod Release
mod Tests
use forch.Base.{
  ℕ, zero, suc, ◌+◌, ◌-◌, String, Bool, true, ◌&&◌, none, some, List, [], ◌∷◌, ◌++◌, contains, leb,
  string_eq, nat_eq, ◌==◌, if◌then◌else◌,
}
use forch.Base.Dict
use forch.Base.Dict.{Dict}

abbrev pub base_t1sw_port : ℕ
base_t1sw_port = 29

-- A value of the YAML file
pub data Value : Type 0 where
  text : String → Value
  numbers : List ℕ → Value

-- `TAP_PORT_CONFIG`
abbrev pub tap_port_config : Dict String Value
tap_port_config = ("description", text "TAP") ∷ ("tagged_vlans", numbers (171 ∷ [])) ∷ []

-- The message of proto/endpoint_server.proto
pub record Endpoint : Type 0 where
  pub ip : String
  pub port : ℕ
  pub vni : ℕ
  pub tap_port : ℕ

-- The requests of the stub
pub data Call : Type 0 where
  configure_interface : Endpoint → Call
  cleanup_interface : ℕ → Call

pub record EndpointHandler : Type 0 where
  pub mac_tap_port : Dict String ℕ
  pub freed_tap_ports : List ℕ
  pub next_tap_port : ℕ
  pub interfaces : Dict ℕ (Dict String Value)
  pub out : List Call

-- `__init__`, with the interfaces that the file has then
abbrev pub create : Dict ℕ (Dict String Value) → EndpointHandler
create interfaces = record {
  mac_tap_port = [];
  freed_tap_ports = [];
  next_tap_port = base_t1sw_port;
  interfaces = interfaces;
  out = [];
}

abbrev pub call : Call → EndpointHandler → EndpointHandler
call c s = record s { out = s.out ++ (c ∷ []) }

-- `max` of a set that has a first port
unfoldable pub max_of : ℕ → List ℕ → ℕ
max_of p [] = p
max_of p (q ∷ ports) = let m = max_of q ports in if leb m p then p else m

-- `ports.remove(p)`
unfoldable pub remove : ℕ → List ℕ → List ℕ
remove p [] = []
remove p (q ∷ ports) = let rest = remove p ports in if q == p then rest else q ∷ rest

-- `ports.add(p)`
abbrev pub add : ℕ → List ℕ → List ℕ
add p ports = if contains ports p then ports else p ∷ ports

-- Where the port of a device that has none comes from, and what is left of the state
unfoldable pub take_port : EndpointHandler → ℕ × EndpointHandler
unfolding max_of remove
take_port s = elim s.freed_tap_ports [
  | [] ↦ (s.next_tap_port, record s { next_tap_port = s.next_tap_port + 1 })
  | p ∷ ports ↦ let m = max_of p ports in (m, record s { freed_tap_ports = remove m (p ∷ ports) })
]

-- The port of a device, in the dict and in the file
abbrev pub note_port : String → ℕ → EndpointHandler → EndpointHandler
note_port mac p s = record s {
  mac_tap_port = Dict.insert mac p s.mac_tap_port;
  interfaces = Dict.insert p tap_port_config s.interfaces;
}

-- `_allocate_tap_port`
unfoldable pub allocate_tap_port : String → EndpointHandler → ℕ × EndpointHandler
unfolding take_port
allocate_tap_port mac s = elim (Dict.lookup mac s.mac_tap_port) [
  | some p ↦ (p, s)
  | none ↦ let (p, t) = take_port s in (p, note_port mac p t)
]

-- `process_endpoint`. The port of the endpoint that is given is not the tap port.
unfoldable pub process_endpoint : Endpoint → String → EndpointHandler → EndpointHandler
unfolding allocate_tap_port
process_endpoint endpoint mac s =
    let (p, t) = allocate_tap_port mac s in
    call (configure_interface (record endpoint { tap_port = p })) t

-- `_deallocate_tap_port`
unfoldable pub deallocate_tap_port : ℕ → EndpointHandler → EndpointHandler
deallocate_tap_port p s = record s {
  freed_tap_ports = add p s.freed_tap_ports;
  interfaces = Dict.erase p s.interfaces;
}

-- `range(p, p + n)`
unfoldable pub port_range : ℕ → ℕ → List ℕ
port_range p zero = []
port_range p (suc n) = p ∷ port_range (p + 1) n

-- `all(port in freed for port in ports)`
unfoldable pub all_free : List ℕ → List ℕ → Bool
all_free [] freed = true
all_free (p ∷ ports) freed = contains freed p && all_free ports freed

-- `freed - set(ports)`
unfoldable pub without : List ℕ → List ℕ → List ℕ
unfolding remove
without [] freed = freed
without (p ∷ ports) freed = without ports (remove p freed)

-- Give back the ports from `p` on, if all of them are free.
unfoldable pub reclaim : ℕ → EndpointHandler → EndpointHandler
unfolding port_range all_free without
reclaim p s =
    let ports = port_range p (s.next_tap_port - p) in
    if all_free ports s.freed_tap_ports
    then record s { next_tap_port = p; freed_tap_ports = without ports s.freed_tap_ports }
    else s

-- `free_endpoint`. Port 0 counts as none.
unfoldable pub free_endpoint : String → EndpointHandler → EndpointHandler
unfolding deallocate_tap_port reclaim
free_endpoint mac s =
    let t = record s { mac_tap_port = Dict.erase mac s.mac_tap_port } in
    elim (Dict.lookup mac s.mac_tap_port) [
      | none ↦ t
      | some zero ↦ t
      | some (suc p) ↦
          call (cleanup_interface (suc p)) (reclaim (suc p) (deallocate_tap_port (suc p) t))
    ]

pub data Input : Type 0 where
  processed : Endpoint → String → Input
  freed : String → Input

-- One call of the report client
unfoldable pub feed : Input → EndpointHandler → EndpointHandler
unfolding process_endpoint free_endpoint
feed (processed endpoint mac) = process_endpoint endpoint mac
feed (freed mac) = free_endpoint mac

unfoldable pub feed_all : List Input → EndpointHandler → EndpointHandler
unfolding feed
feed_all [] s = s
feed_all (i ∷ inputs) s = feed_all inputs (feed i s)
