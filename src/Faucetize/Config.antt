-- ===== src/Faucetize/Config.antt =====
-- The ports of the configuration, and what `_initialize_host_ports`, `_update_port_config` and
-- `_finalize_host_ports_config` of `Faucetizer` do with one port or with all.
use forch.Base.{
  ℕ, String, ◌<>◌, Bool, true, false, not, ◌&&◌, ◌||◌, Option, none, some, List, [], ◌∷◌, ◌++◌,
  contains, truthy, is_some, string_eq, nat_eq, pair_eq, option_eq, if◌then◌else◌,
}
use forch.Base.Dict
use forch.Base.Dict.{Dict}
use forch.Collectors.Cpn.{Text, starts_with}
use forch.Port.State.{is_empty}
use forch.Port.Types.{DvaState, unauthenticated}

abbrev pub Port : Type 0
Port = String × ℕ

pub record PortConfig : Type 0 where
  pub description : Text
  pub stack : Bool
  pub lacp : Bool
  pub output_only : Bool
  pub tagged_vlans : Option (List ℕ)
  pub native_vlan : Option ℕ
  pub acls_in : Option (List String)
  pub has_more : Bool

-- `PortType`
pub data PortType : Type 0 where
  unknown access testing other : PortType

-- The configuration of the orchestrator that is read here
pub record Site : Type 0 where
  pub unauthenticated_vlan : ℕ
  pub tail_acl : String
  pub port_description : Text
  pub has_orchestration_manager : Bool

-- `acl_configs`: the names of the access lists of each file
abbrev pub Acls : Type 0
Acls = Dict String (List String)

-- `TESTING`
abbrev pub default_port_description : Text
default_port_description = 84 ∷ 69 ∷ 83 ∷ 84 ∷ 73 ∷ 78 ∷ 71 ∷ []

abbrev pub description_of : Text → Text
description_of [] = default_port_description
description_of (c ∷ text) = c ∷ text

-- `sub in text`
unfoldable pub is_part : Text → Text → Bool
is_part sub [] = starts_with sub []
is_part sub (c ∷ text) = let rest = is_part sub text in starts_with sub (c ∷ text) || rest

-- `_get_port_type`
unfoldable pub get_port_type : Site → PortConfig → PortType
unfolding is_part
get_port_type site p =
    if is_part (description_of site.port_description) p.description
    then testing
    else if p.stack || p.lacp || p.output_only || is_some p.tagged_vlans
    then other
    else access

abbrev pub is_access : PortType → Bool
is_access access = true
is_access _ = false

-- A turn of the loop of `_initialize_host_ports`
abbrev pub initial_port : Site → PortConfig → PortConfig
initial_port site p =
    if is_access (get_port_type site p) && truthy site.unauthenticated_vlan
    then record p { native_vlan = some site.unauthenticated_vlan }
    else p

-- `_initialize_host_ports`, of the ports
unfoldable pub initialize_ports : Site → Dict Port PortConfig → Dict Port PortConfig
unfolding get_port_type
initialize_ports site [] = []
initialize_ports site ((port, p) ∷ ports) =
    (port, initial_port site p) ∷ initialize_ports site ports

-- `_initialize_host_ports`, of `_vlan_states`
unfoldable pub initialize_states :
    Site → Dict Port PortConfig → Dict Port DvaState → Dict Port DvaState
unfolding get_port_type
initialize_states site [] states = states
initialize_states site ((port, p) ∷ ports) states = initialize_states site ports (
    if is_access (get_port_type site p) && truthy site.unauthenticated_vlan
    then Dict.insert port unauthenticated states
    else states)

-- `_has_acl`
unfoldable pub has_acl : String → Acls → Bool
has_acl name [] = false
has_acl name ((file, acls) ∷ configs) =
    let rest = has_acl name configs in contains acls name || rest

-- The part of `_update_port_config` for a role
abbrev pub with_role : Acls → String → PortConfig → PortConfig
with_role acls role p =
    if is_empty role
    then p
    else if has_acl ("role_" <> role) acls
    then record p { acls_in = some (("role_" <> role) ∷ []) }
    else p

-- `_update_port_config`
unfoldable pub update_port_config : Acls → ℕ → String → PortConfig → PortConfig
unfolding has_acl
update_port_config acls vlan role p =
    with_role acls role (if truthy vlan then record p { native_vlan = some vlan } else p)

-- `port_map.setdefault('tagged_vlans', []).extend(vlans)`, and `port_map.pop('output_only', None)`
abbrev pub extend_tagged : List ℕ → PortConfig → PortConfig
extend_tagged vlans p = record p {
  tagged_vlans = elim p.tagged_vlans [ none ↦ some vlans | some had ↦ some (had ++ vlans) ];
  output_only = false;
}

-- `port_map.setdefault('acls_in', []).append(acl)`
abbrev pub append_acl : String → PortConfig → PortConfig
append_acl acl p = record p {
  acls_in = elim p.acls_in [ none ↦ some (acl ∷ []) | some had ↦ some (had ++ (acl ∷ [])) ];
}

abbrev pub is_testing : PortType → Bool
is_testing testing = true
is_testing _ = false

-- The first `if` of the loop of `_finalize_host_ports_config`, for the VLANs of the devices under test
abbrev pub with_testing : Site → List ℕ → List ℕ → PortConfig → PortConfig
with_testing site [] assigned p = p
with_testing site (v ∷ vlans) assigned p =
    if is_testing (get_port_type site p) then extend_tagged ((v ∷ vlans) ++ assigned) p else p

-- `apply_tail_acl`, with `tail_acl_config_valid`
abbrev pub applies_tail_acl : Site → Acls → Bool
applies_tail_acl site acls = not (is_empty site.tail_acl) && has_acl site.tail_acl acls

-- A turn of the loop of `_finalize_host_ports_config`
unfoldable pub final_port : Site → Acls → List ℕ → List ℕ → PortConfig → PortConfig
unfolding get_port_type has_acl
final_port site acls vlans assigned p =
    let q = with_testing site vlans assigned p in
    if is_access (get_port_type site q) && applies_tail_acl site acls
    then append_acl site.tail_acl q
    else q

-- `_finalize_host_ports_config`, of the ports
unfoldable pub finalize_ports :
    Site → Acls → List ℕ → List ℕ → Dict Port PortConfig → Dict Port PortConfig
unfolding final_port
finalize_ports site acls vlans assigned [] = []
finalize_ports site acls vlans assigned ((port, p) ∷ ports) =
    (port, final_port site acls vlans assigned p) ∷ finalize_ports site acls vlans assigned ports
