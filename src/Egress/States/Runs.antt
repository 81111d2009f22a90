-- ===== src/Egress/States/Runs.antt =====
-- The state of the egress after any LACP events.
use forch.Base.{
  ℕ, ◌≡◌, ◌⊎◌, String, Bool, true, false, not, ◌&&◌, ◌==◌, Option, none, some, List, [], ◌∷◌,
  string_eq, nat_eq, pair_eq, if◌then◌else◌,
}
use forch.Base.Dict
use forch.Base.Dict.{Dict}
use forch.Base.Exec.{Result, ok}
use forch.Port.State.{is_empty}
use forch.Collectors.States.{State}
use forch.Hosts.Config.{Dps, PortType, egress, get_port_attributes}
use forch.Egress.{
  Egress, Link, LinkState, LacpRole, LacpState, Detail, get_lacp_link_state, process_lag_state,
}
use forch.Egress.States.{IsReported}

-- There was no event of a link yet, or the state and the detail are those of the links.
abbrev pub Reports : Egress → Type 0
Reports e =
    ((e.state ≡ none) × (e.links ≡ []))
    ⊎ ((s : State) × (d : Detail) × (e.state ≡ some s)
        × (e.detail ≡ some d)
        × IsReported e.links s d)

pub record IsAccurate (e : Egress) : Type 0 where
  pub distinct : Dict.NodupKeys e.links
  pub reports : Reports e

-- An LACP event
pub record LagState : Type 0 where
  pub timestamp : ℕ
  pub name : String
  pub port : ℕ
  pub lacp_role : LacpRole
  pub lacp_state : LacpState

module _ (description : String) (dps : Dps) where
  abbrev pub process : LagState → Egress → Egress
  process l e =
      (process_lag_state description dps l.timestamp l.name l.port l.lacp_role l.lacp_state e).1

  unfoldable pub process_all : List LagState → Egress → Egress
  unfolding process_lag_state
  process_all [] e = e
  process_all (l ∷ events) e = process_all events (process l e)

-- Whether a port is an egress port, as the type of the port says
abbrev pub on_egress : Result PortType → Bool
on_egress (ok egress) = true
on_egress _ = false

module _ (description : String) (dps : Dps) where
  -- Whether an event is one of a link: it names a switch, and its port is an egress port.
  abbrev pub is_of : LagState → Link → Bool
  is_of l key =
      (not (is_empty l.name) && on_egress (get_port_attributes description dps l.name l.port))
      && key == (l.name, l.port)

  -- What the last event of a link says of it, if there was one
  unfoldable pub last_of : List LagState → Link → Option LinkState → Option LinkState
  last_of [] key known = known
  last_of (l ∷ events) key known =
      last_of events key
        (if is_of l key then some (get_lacp_link_state l.lacp_role l.lacp_state) else known)
