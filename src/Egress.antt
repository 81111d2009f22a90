-- ===== src/Egress.antt =====
-- The links of the egress in `FaucetStateCollector` of forch/faucet_state_collector.py:
-- `process_lag_state`, which the orchestrator calls for the LACP events of Faucet. A link is named by
-- its switch and port in place of their joined text, which they can be read from.
mod Tests
pub mod States
use forch.Base.{
  ℕ, zero, suc, ◌+◌, String, Bool, true, false, not, ◌&&◌, ◌||◌, Option, none, some, List, [], ◌∷◌,
  contains, string_eq, nat_eq, pair_eq, option_eq, ◌==◌, if◌then◌else◌, Eq,
}
use forch.Base.Dict
use forch.Base.Dict.{Dict}
use forch.Base.Exec.{Exec, Result, ok, raised}
use forch.Port.State.{is_empty}
use forch.Collectors.States.{State, broken, damaged, healthy}
use forch.Hosts.Config.{Dps, PortType, is_egress, get_port_attributes}

-- `LacpRole` and `LacpState`
pub data LacpRole : Type 0 where
  startup no_lacp unselected selected standby : LacpRole

pub data LacpState : Type 0 where
  startup no_lacp init active noact : LacpState

-- `STATE_UP`, `STATE_ACTIVE` and `STATE_DOWN`
pub data LinkState : Type 0 where
  up active down : LinkState

LinkState-discrete : Discrete LinkState
LinkState-discrete = hlevel

instance unfoldable pub link_state_eq : Eq LinkState
unfolding LinkState-discrete
link_state_eq = record { dec = LinkState-discrete }

-- `_get_lacp_link_state`
abbrev pub get_lacp_link_state : LacpRole → LacpState → LinkState
get_lacp_link_state unselected noact = up
get_lacp_link_state unselected active = up
get_lacp_link_state selected active = active
get_lacp_link_state _ _ = down

abbrev pub Link : Type 0
Link = String × ℕ

-- `egress_state_detail`
pub data Detail : Type 0 where
  all_links_down : Detail
  active_link : Option Link → Option Link → Detail

-- `topo_state['egress']`
pub record Egress : Type 0 where
  pub links : Dict Link LinkState
  pub change_count : ℕ
  pub last_change : ℕ
  pub state : Option State
  pub detail : Option Detail

-- What `process_lag_state` leaves of the call of `__init__`
abbrev pub create : ℕ → Egress
create timestamp = record {
  links = [];
  change_count = 0;
  last_change = timestamp;
  state = none;
  detail = none;
}

-- What the loop of `_get_egress_state_detail` collects
pub record Scan : Type 0 where
  pub state_set : List LinkState
  pub egress_name : Option Link
  pub link_down : Option Link

abbrev pub scan_link : Link → LinkState → Scan → Scan
scan_link key active s = record s { state_set = active ∷ s.state_set; egress_name = some key }
scan_link key up s = record s { state_set = up ∷ s.state_set }
scan_link key down s = record s { state_set = down ∷ s.state_set; link_down = some key }

unfoldable pub scan : Dict Link LinkState → Scan → Scan
scan [] s = s
scan ((key, state) ∷ links) s = scan links (scan_link key state s)

abbrev pub subset : List LinkState → List LinkState → Bool
subset [] ys = true
subset (x ∷ xs) ys = let rest = subset xs ys in contains ys x && rest

-- `xs == ys` on sets
abbrev pub set_eq : List LinkState → List LinkState → Bool
set_eq xs ys = subset xs ys && subset ys xs

abbrev pub state_of : List LinkState → State
state_of states =
    if set_eq states (active ∷ up ∷ []) || set_eq states (active ∷ [])
    then healthy
    else if contains states active
    then damaged
    else broken

abbrev pub detail_of : State → Scan → Detail
detail_of broken s = all_links_down
detail_of damaged s = active_link s.egress_name s.link_down
detail_of _ s = active_link s.egress_name none

-- `_get_egress_state_detail`
unfoldable pub get_egress_state_detail : Dict Link LinkState → State × Detail
unfolding scan
get_egress_state_detail links =
    let s = scan links (record { state_set = []; egress_name = none; link_down = none }) in
    (state_of s.state_set, detail_of (state_of s.state_set) s)

-- The rest of `process_lag_state`, of an egress port
abbrev pub note_link : Link → LinkState → Egress → Egress
note_link key state e =
    let links = Dict.insert key state e.links in
    let (s, detail) = get_egress_state_detail links in
    record e {
      links = links;
      change_count =
          if Dict.lookup key e.links == some state then e.change_count else e.change_count + 1;
      state = some s;
      detail = some detail;
    }

-- A port of any other type is left out, and a port that is not known raises.
abbrev pub note_type : Link → LinkState → Result PortType → Exec Egress (Unit {0})
note_type key state (raised x) e = (raised x, e)
note_type key state (ok type) e =
    if is_egress type then (ok tt, note_link key state e) else (ok tt, e)

-- `process_lag_state`, where the role and state have their names
unfoldable pub process_lag_state :
    String → Dps → ℕ → String → ℕ → LacpRole → LacpState → Exec Egress (Unit {0})
unfolding get_port_attributes get_egress_state_detail
process_lag_state description dps timestamp name port role state e =
    let t : Egress = record e { last_change = timestamp } in
    if is_empty name
    then (ok tt, t)
    else note_type (name, port) (get_lacp_link_state role state)
        (get_port_attributes description dps name port) t
