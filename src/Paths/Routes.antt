-- ===== src/Paths/Routes.antt =====
-- The path that `get_switch_egress_path` finds is a route to the root.
use forch.Base.{
  ℕ, zero, suc, ◌≡◌, refl, String, Bool, true, false, ◌&&◌, ◌||◌, Option, none, some, List, [], ◌∷◌,
  contains, string_eq, nat_eq, pair_eq, list_eq, arith, ◌==◌, if◌then◌else◌, somes,
}
use mathlib.Core.Path.{subst}
use forch.Base.Exec.{Result, ok, raised}
use forch.Paths.{
  Link, Hop, Topology, Outcome, found, loop_in_topology, root_absent, failed, out_of_fuel,
  root_hop_port, get_egress_port, ended_at, PathState, healthy_path, broken_path, to_1, to_2,
  hop_tuple, prepend, with_out, populate_hop, turn, populate_path, enough, first_hop, path_state,
  is_nil, get_switch_egress_path,
}

-- One of the links joins the port of the switch to the next hop, in either direction.
pub data Joined (switch : String) (port : ℕ) (next : Hop) : List Link → Type 0 where
  forward :
      (l : Link) (links : List Link)
      → l.sw_1 ≡ switch
      → l.port_1 ≡ port
      → to_2 l ≡ next
      → Joined switch port next (l ∷ links)
  backward :
      (l : Link) (links : List Link)
      → l.sw_2 ≡ switch
      → l.port_2 ≡ port
      → to_1 l ≡ next
      → Joined switch port next (l ∷ links)
  later :
      (l : Link) (links : List Link)
      → Joined switch port next links
      → Joined switch port next (l ∷ links)

-- A route to the root from a hop: every switch on it leaves by its port to the root, over a link
-- to the next one, and the root leaves by the egress port.
pub data IsRoute (t : Topology) : Hop → List Hop → Type 0 where
  at_root :
      (hop : Hop) (egress : Option ℕ)
      → hop.switch ≡ t.root
      → root_hop_port t hop.switch ≡ some 0
      → get_egress_port t hop.switch ≡ ok egress
      → IsRoute t hop (record hop { out_port = egress } ∷ [])
  over_link :
      (hop next : Hop) (port : ℕ) (path : List Hop)
      → root_hop_port t hop.switch ≡ some (suc port)
      → Joined hop.switch (suc port) next t.links
      → IsRoute t next path
      → IsRoute t hop (record hop { out_port = some (suc port) } ∷ path)

-- The route of a search that has found a path
abbrev IsOutcome : Topology → Hop → Outcome → Type 0
IsOutcome t hop (found path) = IsRoute t hop path
IsOutcome t hop _ = Unit {0}

-- The same over a link from a port
abbrev IsOnward : Topology → String → ℕ → Outcome → Type 0
IsOnward t switch port (found path) =
    (next : Hop) × Joined switch port next t.links × IsRoute t next path
IsOnward t switch port _ = Unit {0}

onward :
    (t : Topology) (switch : String) (port : ℕ) (next : Hop) (o : Outcome)
    → Joined switch port next t.links
    → IsOutcome t next o
    → IsOnward t switch port o
onward t switch port next (found path) j r = (next, j, r)
onward t switch port next (loop_in_topology path) j r = tt
onward t switch port next (root_absent path) j r = tt
onward t switch port next (failed x) j r = tt
onward t switch port next out_of_fuel j r = tt

abbrev AreEnds : String → ℕ → String → ℕ → Type 0
AreEnds s p sw port = (sw ≡ s) × (port ≡ p)

ends : (s sw : String) (p port : ℕ) → s == sw && p == port ≡ true → AreEnds s p sw port
ends s sw p port h = (ground (arith, h), ground (arith, h))

chosen-Joined :
    (s : String) (p : ℕ) (l : Link) (links : List Link) (b c : Bool) (rest : Option Hop)
    (next : Hop)
    → (b ≡ true → AreEnds s p l.sw_1 l.port_1)
    → (c ≡ true → AreEnds s p l.sw_2 l.port_2)
    → (rest ≡ some next → Joined s p next links)
    → (if b then some (to_2 l) else if c then some (to_1 l) else rest) ≡ some next
    → Joined s p next (l ∷ links)
chosen-Joined s p l links true c rest next f g k h =
    let at = f refl in forward l links at.0 at.1 (somes _ _ h)
chosen-Joined s p l links false true rest next f g k h =
    let at = g refl in backward l links at.0 at.1 (somes _ _ h)
chosen-Joined s p l links false false rest next f g k h = later l links (k h)

populate_hop-Joined :
    (links : List Link) (s : String) (p : ℕ) (next : Hop)
    → populate_hop links s p ≡ some next
    → Joined s p next links
unfolding populate_hop
populate_hop-Joined [] s p next h = absurd cc
populate_hop-Joined (l ∷ links) s p next h =
    chosen-Joined s p l links (s == l.sw_1 && p == l.port_1) (s == l.sw_2 && p == l.port_2)
      (populate_hop links s p) next (ends s l.sw_1 p l.port_1) (ends s l.sw_2 p l.port_2)
      (populate_hop-Joined links s p next) h

prepend-IsOutcome :
    (t : Topology) (hop : Hop) (p : ℕ) (o : Outcome)
    → root_hop_port t hop.switch ≡ some (suc p)
    → IsOnward t hop.switch (suc p) o
    → IsOutcome t hop (prepend (with_out (suc p) hop) o)
prepend-IsOutcome t hop p (found path) e (next, j, r) = over_link hop next p path e j r
prepend-IsOutcome t hop p (loop_in_topology path) e r = tt
prepend-IsOutcome t hop p (root_absent path) e r = tt
prepend-IsOutcome t hop p (failed x) e r = tt
prepend-IsOutcome t hop p out_of_fuel e r = tt

if-IsOnward :
    (t : Topology) (s : String) (p : ℕ) (b : Bool) (path : List Hop) (o : Outcome)
    → IsOnward t s p o
    → IsOnward t s p (if b then loop_in_topology path else o)
if-IsOnward t s p true path o r = tt
if-IsOnward t s p false path o r = r

ended_at-IsOutcome :
    (t : Topology) (hop : Hop) (port : Result (Option ℕ))
    → hop.switch ≡ t.root
    → root_hop_port t hop.switch ≡ some 0
    → get_egress_port t hop.switch ≡ port
    → IsOutcome t hop (ended_at hop port)
ended_at-IsOutcome t hop (ok port) root e p = at_root hop port root e p
ended_at-IsOutcome t hop (raised x) root e p = tt

root-IsOutcome :
    (t : Topology) (hop : Hop) (b c : Bool) (o : Outcome)
    → root_hop_port t hop.switch ≡ some 0
    → (b ≡ true → hop.switch ≡ t.root)
    → IsOutcome t hop o
    → IsOutcome t hop (
        if b
        then ended_at hop (get_egress_port t hop.switch)
        else if c
        then loop_in_topology []
        else o)
root-IsOutcome t hop true c o e root r =
    ended_at-IsOutcome t hop (get_egress_port t hop.switch) (root refl) e refl
root-IsOutcome t hop false true o e root r = tt
root-IsOutcome t hop false false o e root r = r

same_switch : (s r : String) → s == r ≡ true → s ≡ r
same_switch s r h = ground (arith, h)

turn-IsOutcome :
    (t : Topology) (hop : Hop) (visited : List (String × List ℕ)) (ended : Outcome)
    (rest : ℕ → Outcome) (port : Option ℕ)
    → root_hop_port t hop.switch ≡ port
    → IsOutcome t hop ended
    → ((p : ℕ) → IsOnward t hop.switch (suc p) (rest p))
    → IsOutcome t hop (turn t hop visited ended rest port)
unfolding turn
turn-IsOutcome t hop visited ended rest none e r k = tt
turn-IsOutcome t hop visited ended rest (some zero) e r k =
    root-IsOutcome t hop (hop.switch == t.root) (contains visited (hop_tuple hop)) ended e
      (same_switch hop.switch t.root) r
turn-IsOutcome t hop visited ended rest (some (suc p)) e r k = prepend-IsOutcome t hop p _ e (
    if-IsOnward t hop.switch (suc p) (contains visited (hop_tuple (with_out (suc p) hop))) []
      (rest p) (k p))

module _ (t : Topology) where
  -- Without a next hop, no path is found.
  none-IsOutcome :
      (fuel : ℕ) (hop : Hop) (visited : List (String × List ℕ))
      → IsOutcome t hop (populate_path t fuel none visited)
  unfolding populate_path
  none-IsOutcome zero hop visited = tt
  none-IsOutcome (suc fuel) hop visited = tt

  none-IsOnward :
      (fuel : ℕ) (s : String) (p : ℕ) (visited : List (String × List ℕ))
      → IsOnward t s p (populate_path t fuel none visited)
  unfolding populate_path
  none-IsOnward zero s p visited = tt
  none-IsOnward (suc fuel) s p visited = tt

  next-IsOnward :
      (fuel : ℕ) (s : String) (p : ℕ) (next : Option Hop) (visited : List (String × List ℕ))
      → ((hop : Hop) → IsOutcome t hop (populate_path t fuel (some hop) visited))
      → populate_hop t.links s p ≡ next
      → IsOnward t s p (populate_path t fuel next visited)
  next-IsOnward fuel s p none visited k e = none-IsOnward fuel s p visited
  next-IsOnward fuel s p (some next) visited k e =
      onward t s p next (populate_path t fuel (some next) visited)
        (populate_hop-Joined t.links s p next e) (k next)

  populate_path-IsOutcome :
      (fuel : ℕ) (hop : Hop) (visited : List (String × List ℕ))
      → IsOutcome t hop (populate_path t fuel (some hop) visited)
  unfolding populate_path
  populate_path-IsOutcome zero hop visited = tt
  populate_path-IsOutcome (suc fuel) hop visited =
      turn-IsOutcome t hop visited _ _ (root_hop_port t hop.switch) refl
        (none-IsOutcome fuel hop (hop_tuple hop ∷ visited))
        (λ p.
          let v = hop_tuple (with_out (suc p) hop) ∷ visited in
          next-IsOnward fuel hop.switch (suc p) (populate_hop t.links hop.switch (suc p)) v
            (λ next. populate_path-IsOutcome fuel next v) refl)

healthy : (p q : List Hop) → healthy_path p ≡ healthy_path q → p ≡ q
healthy p q h = cc

-- A healthy path is not the answer to an empty topology.
reached :
    (b : Bool) (path : List Hop) (s : PathState)
    → (if b then broken_path "No active links available" else s) ≡ healthy_path path
    → s ≡ healthy_path path
reached true path s h = absurd cc
reached false path s h = h

path_state-IsRoute :
    (t : Topology) (hop : Hop) (path : List Hop) (o : Outcome)
    → IsOutcome t hop o
    → path_state o ≡ healthy_path path
    → IsRoute t hop path
path_state-IsRoute t hop path (found p) r e = subst (IsRoute t hop) (healthy p path e) r
path_state-IsRoute t hop path (loop_in_topology p) r e = absurd cc
path_state-IsRoute t hop path (root_absent p) r e = absurd cc
path_state-IsRoute t hop path (failed x) r e = absurd cc
path_state-IsRoute t hop path out_of_fuel r e = absurd cc

-- A path that is reported as healthy is a route from the switch to the root: it begins at the switch
-- with the port that was asked for, each switch on it leaves by its port to the root over a link
-- whose other end is where the next hop comes in, and it ends at the root with the port that
-- `_get_egress_port` finds there, if it finds one.
pub get_switch_egress_path-IsRoute :
    (t : Topology) (switch : String) (port : ℕ) (path : List Hop)
    → get_switch_egress_path t switch port ≡ healthy_path path
    → IsRoute t (first_hop switch port) path
unfolding get_switch_egress_path
get_switch_egress_path-IsRoute t switch port path h =
    let o = populate_path t (enough t) (some (first_hop switch port)) [] in
    path_state-IsRoute t (first_hop switch port) path o
      (populate_path-IsOutcome t (enough t) (first_hop switch port) [])
      (reached (is_nil t.links || is_nil t.dps) path (path_state o) h)
