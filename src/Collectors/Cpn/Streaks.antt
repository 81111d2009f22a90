-- ===== src/Collectors/Cpn/Streaks.antt =====
-- A node is healthy, or down, after enough equal pings.
use forch.Base.{
  ℕ, suc, ◌-◌, ◌≤◌, ◌≡◌, refl, ◌∙◌, ap, String, ◌&&◌, Option, none, some, List, [], ◌∷◌, arith, leb,
  ◌==◌, if◌then◌else◌,
}
use mathlib.Core.Path.{ap₂}
use forch.Collectors.States.{State, damaged, down, healthy, state_eq}
use forch.Collectors.Cpn.{
  Text, Node, get_ping_state, node_state_of, next_count, get_node_state, note_state, handle_ping,
  fresh_node,
}

-- How many pings at the end had the state of the last, where the last stands first
abbrev pub streak : List State → ℕ
streak [] = 0
streak (ping ∷ []) = 1
streak (ping ∷ last ∷ pings) =
    let rest = streak (last ∷ pings) in if ping == last then suc rest else 1

-- The state of a node after some pings
abbrev pub state_after : ℕ → ℕ → List State → Option State
state_after min_healthy min_down [] = none
state_after min_healthy min_down (ping ∷ pings) = some (
    if ping == healthy && leb (suc min_healthy) (streak (ping ∷ pings))
    then healthy
    else if ping == down && leb (suc min_down) (streak (ping ∷ pings))
    then down
    else damaged)

-- The pings of a node, the last first
unfoldable pub ping_all : ℕ → ℕ → List (ℕ × Text) → Node → Node
unfolding handle_ping
ping_all min_healthy min_down [] node = node
ping_all min_healthy min_down ((now, stdout) ∷ pings) node =
    handle_ping min_healthy min_down now stdout (ping_all min_healthy min_down pings node)

abbrev pub ping_states : List (ℕ × Text) → List State
ping_states [] = []
ping_states ((now, stdout) ∷ pings) = get_ping_state stdout ∷ ping_states pings

abbrev first : List State → Option State
first [] = none
first (ping ∷ pings) = some ping

record IsAfter (min_healthy min_down : ℕ) (pings : List State) (node : Node) : Type 0 where
  last : node.ping_state ≡ first pings
  count : node.consecutive_count ≡ streak pings - 1
  state : node.state ≡ state_after min_healthy min_down pings

note_state-state :
    (now : ℕ) (new : State) (node : Node) → (note_state now new node).state ≡ some new
note_state-state now new node = ground arith

note_state-ping :
    (now : ℕ) (new : State) (node : Node)
    → ((note_state now new node).ping_state ≡ node.ping_state)
      × ((note_state now new node).consecutive_count ≡ node.consecutive_count)
note_state-ping now new node = ground arith

streak-suc : (ping : State) (pings : List State) → 1 ≤ streak (ping ∷ pings)
streak-suc ping [] = omega arith
streak-suc ping (last ∷ pings) = ground arith

next_count-streak :
    (ping : State) (pings : List State)
    → next_count (first pings) ping (streak pings - 1) ≡ streak (ping ∷ pings) - 1
next_count-streak ping [] = omega arith
next_count-streak ping (last ∷ pings) = ground (arith, streak-suc last pings)

node_state_of-streak :
    (min_healthy min_down : ℕ) (ping : State) (pings : List State)
    → some (node_state_of min_healthy min_down ping (streak (ping ∷ pings) - 1))
      ≡ state_after min_healthy min_down (ping ∷ pings)
node_state_of-streak min_healthy min_down ping pings = ground (arith, streak-suc ping pings)

module _ (min_healthy min_down : ℕ) where
  handle_ping-IsAfter :
      (now : ℕ) (stdout : Text) (pings : List State) (node : Node)
      → IsAfter min_healthy min_down pings node
      → IsAfter min_healthy min_down
          (get_ping_state stdout ∷ pings)
          (handle_ping min_healthy min_down now stdout node)
  unfolding handle_ping get_node_state
  handle_ping-IsAfter now stdout pings node v =
      let (new, n) = get_node_state min_healthy min_down stdout node in
      let ping = get_ping_state stdout in
      let count : n.consecutive_count ≡ streak (ping ∷ pings) - 1 =
        ap₂ (λ l k. next_count l ping k) v.last v.count ∙ next_count-streak ping pings in
      record {
        last = (note_state-ping now new n).0;
        count = (note_state-ping now new n).1 ∙ count;
        state =
            note_state-state now new n
            ∙ ap (λ k. some (node_state_of min_healthy min_down ping k)) count
            ∙ node_state_of-streak min_healthy min_down ping pings;
      }

  ping_all-IsAfter :
      (ip : String) (pings : List (ℕ × Text))
      → IsAfter min_healthy min_down
          (ping_states pings)
          (ping_all min_healthy min_down pings (fresh_node ip))
  unfolding ping_all
  ping_all-IsAfter ip [] = record { last = refl; count = omega arith; state = refl }
  ping_all-IsAfter ip ((now, stdout) ∷ pings) =
      handle_ping-IsAfter now stdout (ping_states pings)
        (ping_all min_healthy min_down pings (fresh_node ip)) (ping_all-IsAfter ip pings)

  -- The state of a node is decided by its last pings, whatever came before: it is healthy if the
  -- last of them are healthy and are more in a row than the least number for healthy nodes, down if
  -- they are down and more in a row than that for nodes that are down, and damaged otherwise.
  pub ping_all-state :
      (ip : String) (pings : List (ℕ × Text))
      → (ping_all min_healthy min_down pings (fresh_node ip)).state
        ≡ state_after min_healthy min_down (ping_states pings)
  ping_all-state ip pings = (ping_all-IsAfter ip pings).state
