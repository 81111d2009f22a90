-- ===== src/Faucetize/Rounds.antt =====
-- What a round does to the ports.
use forch.Base.{
  ℕ, suc, zero, ◌≡◌, refl, ◌∙◌, ap, ◌≢◌, Bool, true, false, ◌&&◌, Option, none, some, List, [], ◌∷◌,
  truthy, arith, All, string_eq, nat_eq, pair_eq, if◌then◌else◌,
}
use forch.Base.Dict
use forch.Base.Dict.{Dict}
use forch.Base.Exec.{Result, ok, raised, after-keeps}
use forch.Port.Types.{DvaState, unauthenticated}
use forch.Vlans
use forch.Vlans.{Faucetizer, Round}
use forch.Faucetize.Config.{
  Port, PortConfig, Site, Acls, get_port_type, is_access, initial_port, final_port,
  update_port_config,
}
use forch.Faucetize.Ports.{
  mapped, lookup-initialize_ports, lookup-finalize_ports, lookup-initialize_states,
}
use forch.Faucetize.{
  Device, Placing, port_of, dva_state_of, add_assigned, is_blank, note_state, place_in, place_with,
  placed_by, get_faucet_config_vlan, place_device, place_all, start, finalize, finish,
  update_ports_config,
}

-- A port is as it was.
record Kept (k : Port) (s t : Placing) : Type 0 where
  port : Dict.lookup k t.ports ≡ Dict.lookup k s.ports
  state : Dict.lookup k t.vlan_states ≡ Dict.lookup k s.vlan_states

Kept-trans : (k : Port) (s t u : Placing) → Kept k s t → Kept k t u → Kept k s u
Kept-trans k s t u a b = record { port = b.port ∙ a.port; state = b.state ∙ a.state }

module _ (site : Site) (acls : Acls) (f : Faucetizer) (old : Option (Dict Port PortConfig))
    (k : Port) (d : Device) (n : k ≢ port_of d) where
  note_state-Kept :
      (state : Option DvaState) (last : Option ℕ) (vlan : ℕ) (assigned : Option ℕ) (s : Placing)
      → Kept k s (note_state site acls f old state last d vlan assigned s).1
  note_state-Kept none last vlan assigned s = record { port = refl; state = refl }
  note_state-Kept (some state) last vlan assigned s = record {
    port = refl;
    state = Dict.lookup-insert_ne k (port_of d) state s.vlan_states n;
  }

  place_in-Kept :
      (made : Option (Dict Port PortConfig)) (p : PortConfig) (vlan : ℕ) (assigned : Option ℕ)
      (s : Placing)
      → Kept k s (place_in site acls f old made d p vlan assigned s).1
  place_in-Kept none p vlan assigned s = record { port = refl; state = refl }
  place_in-Kept (some made) p vlan assigned s =
      let q = update_port_config acls vlan d.behavior.role p in
      let last = get_faucet_config_vlan made (port_of d) in
      let t = record s {
        ports = Dict.insert (port_of d) q s.ports;
        assigned_vlans = add_assigned assigned s.assigned_vlans;
      } in
      Kept-trans k s t _
        (record { port = Dict.lookup-insert_ne k (port_of d) q s.ports n; state = refl })
        (note_state-Kept (dva_state_of f d) last vlan assigned t)

  place_with-Kept :
      (p : PortConfig) (given : Option ℕ × Option ℕ) (s : Placing)
      → Kept k s (place_with site acls f old d p given s).1
  place_with-Kept p (none, assigned) s = record { port = refl; state = refl }
  place_with-Kept p (some zero, assigned) s = record { port = refl; state = refl }
  place_with-Kept p (some (suc v), assigned) s = place_in-Kept old p (suc v) assigned s

  placed_by-Kept :
      (p : PortConfig) (r : Result (Option ℕ × Option ℕ) × Round) (s : Placing)
      → Kept k s (placed_by site acls f old d p r s).1
  placed_by-Kept p (raised e, round) s = record { port = refl; state = refl }
  placed_by-Kept p (ok given, round) s =
      Kept-trans k s (record s { vlans = round }) _ (record { port = refl; state = refl })
        (place_with-Kept p given (record s { vlans = round }))

  found-Kept :
      (found : Option PortConfig) (r : Result (Option ℕ × Option ℕ) × Round) (s : Placing)
      → Kept k s
          (elim found as (λ _. Result (Unit {0}) × Placing) [
            | none ↦ (ok tt, s)
            | some p ↦ if is_blank p then (ok tt, s) else placed_by site acls f old d p r s
          ]).1
  found-Kept none r s = record { port = refl; state = refl }
  found-Kept (some p) r s = blank (is_blank p)
    where
      blank : (b : Bool) → Kept k s (if b then (ok tt, s) else placed_by site acls f old d p r s).1
      blank true = record { port = refl; state = refl }
      blank false = placed_by-Kept p r s

  -- A device changes no port but its own.
  place_device-Kept :
      (pick : List ℕ → ℕ) (s : Placing) → Kept k s (place_device site acls f old pick d s).1
  unfolding place_device
  place_device-Kept pick s =
      found-Kept (Dict.lookup (port_of d) s.ports)
        (Vlans.calculate_vlan_id pick d.mac d.behavior f s.vlans) s

place_all-Kept :
    (site : Site) (acls : Acls) (f : Faucetizer) (old : Option (Dict Port PortConfig))
    (pick : List ℕ → ℕ) (k : Port) (devices : List Device) (s : Placing)
    → All (λ d. k ≢ port_of d) devices
    → Kept k s (place_all site acls f old pick devices s).1
unfolding place_all
place_all-Kept site acls f old pick k [] s h = record { port = refl; state = refl }
place_all-Kept site acls f old pick k (d ∷ devices) s h =
    after-keeps (Kept k s) (place_device site acls f old pick d s)
      (λ _. place_all site acls f old pick devices)
      (place_device-Kept site acls f old k d h.0 pick s)
      (λ _ t kept. Kept-trans k s t _ kept (place_all-Kept site acls f old pick k devices t h.1))

final_port-native :
    (site : Site) (acls : Acls) (vlans assigned : List ℕ) (p : PortConfig)
    → (final_port site acls vlans assigned p).native_vlan ≡ p.native_vlan
unfolding final_port
final_port-native site acls [] assigned p = ground arith
final_port-native site acls (v ∷ vlans) assigned p = ground arith

-- A port whose native VLAN and state are those of devices that are not authenticated
pub record IsUnauthenticated (site : Site) (k : Port) (s : Placing) : Type 0 where
  pub config : PortConfig
  pub found : Dict.lookup k s.ports ≡ some config
  pub native : config.native_vlan ≡ some site.unauthenticated_vlan
  pub state : Dict.lookup k s.vlan_states ≡ some unauthenticated

initial_port-native :
    (site : Site) (p : PortConfig)
    → is_access (get_port_type site p) && truthy site.unauthenticated_vlan ≡ true
    → (initial_port site p).native_vlan ≡ some site.unauthenticated_vlan
initial_port-native site p h = ground (arith, h)

module _ (site : Site) (acls : Acls) (f : Faucetizer) (old : Option (Dict Port PortConfig))
    (pick : List ℕ → ℕ) (k : Port) (p : PortConfig) where
  finalize-IsUnauthenticated :
      (s : Placing) → IsUnauthenticated site k s → IsUnauthenticated site k (finalize site acls s)
  finalize-IsUnauthenticated s v =
      let vlans = Dict.values s.vlans.new_testing_device_vlans in
      record {
        config = final_port site acls vlans s.assigned_vlans v.config;
        found =
            lookup-finalize_ports site acls vlans s.assigned_vlans k s.ports
            ∙ ap (mapped (final_port site acls vlans s.assigned_vlans)) v.found;
        native = final_port-native site acls vlans s.assigned_vlans v.config ∙ v.native;
        state = v.state;
      }

  finish-IsUnauthenticated :
      (r : Result (Unit {0}) × Placing)
      → IsUnauthenticated site k r.1
      → IsUnauthenticated site k (finish site acls r).1
  finish-IsUnauthenticated (ok _, s) v = finalize-IsUnauthenticated s v
  finish-IsUnauthenticated (raised e, s) v = v

  -- An access port of the structural configuration that is not the port of any device which has a
  -- behaviour is left in the VLAN for devices that are not authenticated, if there is one, and its
  -- state is unauthenticated, whatever the other devices are, and also if the round raises.
  pub update_ports_config-IsUnauthenticated :
      (devices : List Device) (ports : Dict Port PortConfig) (states : Dict Port DvaState)
      → Dict.NodupKeys ports
      → Dict.lookup k ports ≡ some p
      → is_access (get_port_type site p) && truthy site.unauthenticated_vlan ≡ true
      → All (λ d. k ≢ port_of d) devices
      → IsUnauthenticated site k (update_ports_config site acls f old pick devices ports states).1
  unfolding update_ports_config
  update_ports_config-IsUnauthenticated devices ports states u e h away =
      let s = start pick site f ports states in
      let kept = place_all-Kept site acls f old pick k devices s away in
      finish-IsUnauthenticated (place_all site acls f old pick devices s) (record {
        config = initial_port site p;
        found =
            kept.port ∙ lookup-initialize_ports site k ports ∙ ap (mapped (initial_port site)) e;
        native = initial_port-native site p h;
        state = kept.state ∙ lookup-initialize_states site k p ports states u e h;
      })
