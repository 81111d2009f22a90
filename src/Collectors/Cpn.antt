-- ===== src/Collectors/Cpn.antt =====
-- `CPNStateCollector` of forch/cpn_state_collector.py: the states of the nodes from their pings, and
-- the state of all. Ping results come as inputs, of which the text on stdout is read. A count that is
-- missing from a dict stands for 0, as where it is read.
pub mod Streaks
pub mod Summary
mod Tests
use forch.Base.{
  ℕ, zero, suc, ◌+◌, ◌-◌, ◌*◌, String, ◌<>◌, Bool, true, false, not, ◌&&◌, ◌||◌, Option, none, some,
  List, [], ◌∷◌, ◌++◌, is_some, leb, length, or_default, string_eq, nat_eq, ◌==◌, if◌then◌else◌,
}
use forch.Base.Dict
use forch.Base.Dict.{Dict}
use forch.Collectors.States.{State, unknown, broken, damaged, down, healthy, initializing, state_eq}

-- Text as its code points
abbrev pub Text : Type 0
Text = List ℕ

-- `% packet loss`
abbrev pub packet_loss : Text
packet_loss = 37 ∷ 32 ∷ 112 ∷ 97 ∷ 99 ∷ 107 ∷ 101 ∷ 116 ∷ 32 ∷ 108 ∷ 111 ∷ 115 ∷ 115 ∷ []

abbrev pub starts_with : Text → Text → Bool
starts_with [] text = true
starts_with (c ∷ prefix) [] = false
starts_with (c ∷ prefix) (d ∷ text) = c == d && starts_with prefix text

abbrev pub is_digit : ℕ → Bool
is_digit c = leb 48 c && leb c 57

abbrev pub with_digit : Option ℕ → ℕ → Option ℕ
with_digit none c = some (c - 48)
with_digit (some n) c = some (10 * n + (c - 48))

-- `re.search` for a number before `% packet loss`: the digits that end here are the first argument
unfoldable pub search_loss : Option ℕ → Text → Option ℕ
search_loss none [] = none
search_loss (some n) [] = none
search_loss none (c ∷ text) =
    let rest = search_loss (if is_digit c then with_digit none c else none) text in rest
search_loss (some n) (c ∷ text) =
    let rest = search_loss (if is_digit c then with_digit (some n) c else none) text in
    if starts_with packet_loss (c ∷ text) then some n else rest

-- `_get_ping_state`: without a match, the loss is 100.
unfoldable pub get_ping_state : Text → State
unfolding search_loss
get_ping_state stdout = elim (search_loss none stdout) [ some zero ↦ healthy | _ ↦ down ]

-- `_node_states[name]`
pub record Node : Type 0 where
  pub cpn_ip : String
  pub ping_state : Option State
  pub consecutive_count : ℕ
  pub state : Option State
  pub change_count : ℕ
  pub change_ts : Option ℕ
  pub update_ts : Option ℕ
  pub ping_results : Option Text

pub record Collector : Type 0 where
  pub hosts_ip : Dict String String
  pub node_states : Dict String Node
  pub min_consecutive_healthy : ℕ
  pub min_consecutive_down : ℕ
  pub state : Option State
  pub detail : String
  pub state_count : ℕ
  pub update_ts : Option ℕ
  pub change_ts : Option ℕ
  pub has_ping_manager : Bool

-- `__init__`
abbrev pub create : ℕ → ℕ → Collector
create min_healthy min_down = record {
  hosts_ip = [];
  node_states = [];
  min_consecutive_healthy = or_default min_healthy 3;
  min_consecutive_down = or_default min_down 5;
  state = none;
  detail = "";
  state_count = 0;
  update_ts = none;
  change_ts = none;
  has_ping_manager = false;
}

-- `_get_node_state`, of the state of a ping
abbrev pub node_state_of : ℕ → ℕ → State → ℕ → State
node_state_of min_healthy min_down ping count =
    if ping == healthy && leb min_healthy count
    then healthy
    else if ping == down && leb min_down count
    then down
    else damaged

abbrev pub next_count : Option State → State → ℕ → ℕ
next_count none ping count = 0
next_count (some last) ping count = if ping == last then count + 1 else 0

-- `_get_node_state`
unfoldable pub get_node_state : ℕ → ℕ → Text → Node → State × Node
unfolding get_ping_state
get_node_state min_healthy min_down stdout node =
    let ping = get_ping_state stdout in
    let count = next_count node.ping_state ping node.consecutive_count in
    (
      node_state_of min_healthy min_down ping count,
      record node { ping_state = some ping; consecutive_count = count },
    )

-- `not last_state or new_state != last_state`, where `unknown` is 0
abbrev pub changed : Option State → State → Bool
changed none new = true
changed (some last) new = last == unknown || not (new == last)

-- The new state of a node
abbrev pub note_state : ℕ → State → Node → Node
note_state now new node =
    if changed node.state new
    then record node {
      state = some new;
      change_count = node.change_count + 1;
      change_ts = some now;
    }
    else node

-- The body of the loop of `_handle_ping_result`, for a node that is known
unfoldable pub handle_ping : ℕ → ℕ → ℕ → Text → Node → Node
unfolding get_node_state
handle_ping min_healthy min_down now stdout node =
    let (new, n) = get_node_state min_healthy min_down stdout node in
    record (note_state now new n) { update_ts = some now; ping_results = some stdout }

-- The loop of `_handle_ping_result`
unfoldable pub handle_pings : ℕ → List (String × Text) → Collector → Collector
unfolding handle_ping
handle_pings now [] c = c
handle_pings now ((host, stdout) ∷ pings) c =
    let nodes : Dict String Node = elim (Dict.lookup host c.node_states) [
      | none ↦ c.node_states
      | some node ↦
          Dict.insert host
            (handle_ping c.min_consecutive_healthy c.min_consecutive_down now stdout node)
            c.node_states
    ] in
    handle_pings now pings (record c { node_states = nodes })

abbrev pub is_healthy : Node → Bool
is_healthy node = elim node.state [ none ↦ false | some state ↦ state == healthy ]

unfoldable pub broken_nodes : Dict String Node → List String
broken_nodes [] = []
broken_nodes ((name, node) ∷ nodes) =
    let rest = broken_nodes nodes in if is_healthy node then rest else name ∷ rest

-- `_get_cpn_state`, of the names of the nodes that are not healthy
abbrev pub state_of : ℕ → List String → State
state_of nodes [] = healthy
state_of nodes (name ∷ names) = if length (name ∷ names) == nodes then down else damaged

-- `_get_cpn_state`
unfoldable pub get_cpn_state : Dict String Node → State × List String
unfolding broken_nodes
get_cpn_state [] = (broken, [])
get_cpn_state (entry ∷ nodes) =
    let names = broken_nodes (entry ∷ nodes) in (state_of (length (entry ∷ nodes)) names, names)

-- `', '.join(names)`
abbrev pub join : List String → String
join [] = ""
join (name ∷ []) = name
join (name ∷ names) = name <> ", " <> join names

abbrev pub detail_of : List String → String
detail_of [] = ""
detail_of (name ∷ names) = "CPN failures at: " <> join (name ∷ names)

abbrev pub is_same : Option State → State → Bool
is_same none new = false
is_same (some old) new = new == old

-- `_update_cpn_state`, of the state that is new and its detail
unfoldable pub note_cpn_state : ℕ → State → String → Collector → Collector
note_cpn_state now new detail c =
    let d =
      if is_same c.state new
      then c
      else record c { state_count = c.state_count + 1; state = some new; change_ts = some now } in
    record d { detail = detail; update_ts = some now }

-- `_update_cpn_state` without a state that is given
unfoldable pub update_cpn_state : ℕ → Collector → Collector
unfolding get_cpn_state note_cpn_state
update_cpn_state now c =
    let (new, names) = get_cpn_state c.node_states in note_cpn_state now new (detail_of names) c

-- `_handle_ping_result`
unfoldable pub handle_ping_result : ℕ → List (String × Text) → Collector → Collector
unfolding handle_pings update_cpn_state
handle_ping_result now pings c = update_cpn_state now (handle_pings now pings c)

-- What reading the file of the nodes leads to: their addresses, or the text of an error
pub data Config : Type 0 where
  read : Dict String String → Config
  failed : String → Config

abbrev pub fresh_node : String → Node
fresh_node ip = record {
  cpn_ip = ip;
  ping_state = none;
  consecutive_count = 0;
  state = none;
  change_count = 0;
  change_ts = none;
  update_ts = none;
  ping_results = none;
}

unfoldable pub add_nodes : Dict String String → Collector → Collector
add_nodes [] c = c
add_nodes ((name, ip) ∷ nodes) c =
    let node : Node = elim (Dict.lookup name c.node_states) [
      | none ↦ fresh_node ip
      | some node ↦ record node { cpn_ip = ip }
    ] in
    add_nodes nodes (record c {
      node_states = Dict.insert name node c.node_states;
      hosts_ip = Dict.insert name ip c.hosts_ip;
    })

-- `initialize`. The pings start if there is a manager.
unfoldable pub initialize : ℕ → Config → Collector → Collector
unfolding add_nodes note_cpn_state
initialize now (failed error) c = note_cpn_state now broken error (record c { node_states = [] })
initialize now (read nodes) c =
    let d = add_nodes nodes c in
    elim d.hosts_ip [
      | [] ↦
          note_cpn_state now broken "No CPN components defined in file"
            (record d { node_states = [] })
      | _ ∷ _ ↦
          note_cpn_state now initializing "Initializing" (record d { has_ping_manager = true })
    ]
