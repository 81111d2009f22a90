-- ===== src/Faucetize/Ports.antt =====
-- Look-ups of ports before and after the loops over all ports.
use forch.Base.{
  ℕ, ◌≡◌, refl, sym, ◌∙◌, ap, ◌≢◌, Bool, true, false, ◌&&◌, Option, none, some, List, [], ◌∷◌,
  truthy, arith, string_eq, nat_eq, pair_eq, ◌==◌, if◌then◌else◌,
}
use mathlib.Core.Bool.{true≢false}
use mathlib.Core.Option.{none-ne-some}
use forch.Base.Dict
use forch.Base.Dict.{Dict}
use forch.Port.Types.{DvaState, unauthenticated}
use forch.Faucetize.Config.{
  Port, PortConfig, Site, Acls, get_port_type, is_access, initial_port, initialize_ports,
  initialize_states, final_port, finalize_ports,
}

abbrev pub mapped : (PortConfig → PortConfig) → Option PortConfig → Option PortConfig
mapped f none = none
mapped f (some p) = some (f p)

lookup-head :
    (k port : Port) (p : PortConfig) (ports : Dict Port PortConfig) (f : PortConfig → PortConfig)
    (rest : Option PortConfig)
    → rest ≡ mapped f (Dict.lookup k ports)
    → (if k == port then some (f p) else rest) ≡ mapped f (Dict.lookup k ((port, p) ∷ ports))
unfolding Dict.lookup
lookup-head k port p ports f rest e = ground (arith, e)

pub lookup-initialize_ports :
    (site : Site) (k : Port) (ports : Dict Port PortConfig)
    → Dict.lookup k (initialize_ports site ports) ≡ mapped (initial_port site) (Dict.lookup k ports)
unfolding initialize_ports Dict.lookup
lookup-initialize_ports site k [] = refl
lookup-initialize_ports site k ((port, p) ∷ ports) =
    lookup-head k port p ports (initial_port site) _ (lookup-initialize_ports site k ports)

pub lookup-finalize_ports :
    (site : Site) (acls : Acls) (vlans assigned : List ℕ) (k : Port) (ports : Dict Port PortConfig)
    → Dict.lookup k (finalize_ports site acls vlans assigned ports)
      ≡ mapped (final_port site acls vlans assigned) (Dict.lookup k ports)
unfolding finalize_ports Dict.lookup
lookup-finalize_ports site acls vlans assigned k [] = refl
lookup-finalize_ports site acls vlans assigned k ((port, p) ∷ ports) =
    lookup-head k port p ports (final_port site acls vlans assigned) _
      (lookup-finalize_ports site acls vlans assigned k ports)

other_port :
    (site : Site) (k port : Port) (b : Bool) (states : Dict Port DvaState)
    → k ≢ port
    → Dict.lookup k (if b then Dict.insert port unauthenticated states else states)
      ≡ Dict.lookup k states
other_port site k port true states n = Dict.lookup-insert_ne k port unauthenticated states n
other_port site k port false states n = refl

tail_of :
    (k port : Port) (p : PortConfig) (ports : Dict Port PortConfig)
    → Dict.lookup k ((port, p) ∷ ports) ≡ none
    → (k ≢ port) × (Dict.lookup k ports ≡ none)
unfolding Dict.lookup
tail_of k port p ports e = ground (arith, e)

-- A port that is not in the configuration keeps its state.
lookup-initialize_states-none :
    (site : Site) (k : Port) (ports : Dict Port PortConfig) (states : Dict Port DvaState)
    → Dict.lookup k ports ≡ none
    → Dict.lookup k (initialize_states site ports states) ≡ Dict.lookup k states
unfolding initialize_states
lookup-initialize_states-none site k [] states e = refl
lookup-initialize_states-none site k ((port, p) ∷ ports) states e =
    let (n, rest) = tail_of k port p ports e in
    lookup-initialize_states-none site k ports _ rest ∙ other_port site k port _ states n

head_of :
    (k port : Port) (p q : PortConfig) (ports : Dict Port PortConfig)
    → Dict.lookup k ((port, p) ∷ ports) ≡ some q
    → k ≡ port
    → p ≡ q
unfolding Dict.lookup
head_of k port p q ports e same = ground (arith, e)

next_of :
    (k port : Port) (p q : PortConfig) (ports : Dict Port PortConfig)
    → Dict.lookup k ((port, p) ∷ ports) ≡ some q
    → k ≢ port
    → Dict.lookup k ports ≡ some q
unfolding Dict.lookup
next_of k port p q ports e n = ground (arith, e)

inserted :
    (k port : Port) (b : Bool) (states : Dict Port DvaState)
    → k ≡ port
    → b ≡ true
    → Dict.lookup k (if b then Dict.insert port unauthenticated states else states)
      ≡ some unauthenticated
inserted k port true states same h =
    ap (λ q. Dict.lookup q (Dict.insert port unauthenticated states)) same
    ∙ Dict.lookup-insert_self port unauthenticated states
inserted k port false states same h = absurd (true≢false (sym h))

-- An access port is not authenticated at the start of a round.
pub lookup-initialize_states :
    (site : Site) (k : Port) (p : PortConfig) (ports : Dict Port PortConfig)
    (states : Dict Port DvaState)
    → Dict.NodupKeys ports
    → Dict.lookup k ports ≡ some p
    → is_access (get_port_type site p) && truthy site.unauthenticated_vlan ≡ true
    → Dict.lookup k (initialize_states site ports states) ≡ some unauthenticated
unfolding initialize_states
lookup-initialize_states site k p [] states u e h =
    absurd (none-ne-some p (sym (Dict.lookup-nil k) ∙ e))
lookup-initialize_states site k p ((port, q) ∷ ports) states u e h = elim (pair_eq.dec k port) [
  | yes same ↦
      lookup-initialize_states-none site k ports _ (ap (λ x. Dict.lookup x ports) same ∙ u.0)
      ∙ inserted k port _ states same (
          ap (λ x. is_access (get_port_type site x) && truthy site.unauthenticated_vlan)
            (head_of k port q p ports e same)
          ∙ h)
  | no n ↦ lookup-initialize_states site k p ports _ u.1 (next_of k port q p ports e n) h
]
