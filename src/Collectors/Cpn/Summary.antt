-- ===== src/Collectors/Cpn/Summary.antt =====
-- The state of all nodes.
use forch.Base.{
  ℕ, ◌+◌, ◌≤◌, ◌≡◌, refl, sym, ◌∙◌, ap, ◌≢◌, String, true, false, some, List, [], ◌∷◌, arith,
  length, string_eq, nat_eq, if◌then◌else◌,
}
use mathlib.Core.Path.{subst}
use forch.Base.Dict.{Dict}
use forch.Collectors.States.{State, broken, damaged, down, healthy, state_eq}
use forch.Collectors.Cpn.{
  Text, Node, Collector, is_healthy, broken_nodes, get_cpn_state, detail_of, is_same,
  note_cpn_state, update_cpn_state, handle_pings, handle_ping_result,
}

abbrev AllHealthy : Dict String Node → Type 0
AllHealthy [] = Unit
AllHealthy ((name, node) ∷ nodes) = (is_healthy node ≡ true) × AllHealthy nodes

abbrev NoneHealthy : Dict String Node → Type 0
NoneHealthy [] = Unit
NoneHealthy ((name, node) ∷ nodes) = (is_healthy node ≡ false) × NoneHealthy nodes

-- What a state says of the nodes
abbrev pub IsSummary : Dict String Node → State → Type 0
IsSummary nodes healthy = (nodes ≢ []) × AllHealthy nodes
IsSummary nodes down = (nodes ≢ []) × NoneHealthy nodes
IsSummary nodes damaged = (¬ AllHealthy nodes) × (¬ NoneHealthy nodes)
IsSummary nodes broken = nodes ≡ []
IsSummary nodes _ = ⊥

broken_nodes-le : (nodes : Dict String Node) → length (broken_nodes nodes) ≤ length nodes
unfolding broken_nodes
broken_nodes-le [] = omega arith
broken_nodes-le ((name, node) ∷ nodes) = ground (arith, broken_nodes-le nodes)

broken_nodes-nil : (nodes : Dict String Node) → (broken_nodes nodes ≡ []) → AllHealthy nodes
unfolding broken_nodes
broken_nodes-nil [] e = tt
broken_nodes-nil ((name, node) ∷ nodes) e = ground (arith, broken_nodes-nil nodes)

nil-broken_nodes : (nodes : Dict String Node) → AllHealthy nodes → broken_nodes nodes ≡ []
unfolding broken_nodes
nil-broken_nodes [] e = refl
nil-broken_nodes ((name, node) ∷ nodes) e = ground (arith, nil-broken_nodes nodes)

broken_nodes-all :
    (nodes : Dict String Node) → length (broken_nodes nodes) ≡ length nodes → NoneHealthy nodes
unfolding broken_nodes
broken_nodes-all [] e = tt
broken_nodes-all ((name, node) ∷ nodes) e =
    ground (arith, broken_nodes-all nodes, broken_nodes-le nodes)

all-broken_nodes :
    (nodes : Dict String Node) → NoneHealthy nodes → length (broken_nodes nodes) ≡ length nodes
unfolding broken_nodes
all-broken_nodes [] e = refl
all-broken_nodes ((name, node) ∷ nodes) e = ground (arith, all-broken_nodes nodes)

get_cpn_state-IsSummary : (nodes : Dict String Node) → IsSummary nodes (get_cpn_state nodes).0
unfolding get_cpn_state
get_cpn_state-IsSummary [] = refl
get_cpn_state-IsSummary (entry ∷ nodes) =
    let all = entry ∷ nodes in
    ground (
      arith,
      broken_nodes-nil all,
      nil-broken_nodes all,
      broken_nodes-all all,
      all-broken_nodes all,
    )

-- What a collector knows after an update, against what it knew before
pub record IsUpdated (now : ℕ) (c d : Collector) : Type 0 where
  pub value : State
  pub known : d.state ≡ some value
  pub summary : IsSummary d.node_states value
  pub names : d.detail ≡ detail_of (broken_nodes d.node_states)
  pub count : d.state_count ≡ (if is_same c.state value then c.state_count else c.state_count + 1)
  pub change : d.change_ts ≡ (if is_same c.state value then c.change_ts else some now)
  pub updated : d.update_ts ≡ some now

note_cpn_state-IsNoted :
    (now : ℕ) (new : State) (detail : String) (c : Collector)
    → let d = note_cpn_state now new detail c in
      (d.state ≡ some new)
      × (d.detail ≡ detail)
      × (d.update_ts ≡ some now)
      × (d.node_states ≡ c.node_states)
      × (d.state_count ≡ (if is_same c.state new then c.state_count else c.state_count + 1))
      × (d.change_ts ≡ (if is_same c.state new then c.change_ts else some now))
unfolding note_cpn_state
note_cpn_state-IsNoted now new detail c = ground arith

get_cpn_state-names : (nodes : Dict String Node) → (get_cpn_state nodes).1 ≡ broken_nodes nodes
unfolding get_cpn_state broken_nodes
get_cpn_state-names [] = refl
get_cpn_state-names (entry ∷ nodes) = refl

handle_pings-same :
    (now : ℕ) (pings : List (String × Text)) (c : Collector)
    → let d = handle_pings now pings c in
      (d.state ≡ c.state) × (d.state_count ≡ c.state_count) × (d.change_ts ≡ c.change_ts)
unfolding handle_pings
handle_pings-same now [] c = (refl, refl, refl)
handle_pings-same now ((host, stdout) ∷ pings) c = handle_pings-same now pings _

update_cpn_state-IsUpdated : (now : ℕ) (c : Collector) → IsUpdated now c (update_cpn_state now c)
unfolding update_cpn_state
update_cpn_state-IsUpdated now c =
    let (new, names) = get_cpn_state c.node_states in
    let n = note_cpn_state-IsNoted now new (detail_of names) c in
    record {
      value = new;
      known = n.0;
      summary =
          subst (λ nodes. IsSummary nodes new) (sym n.3) (get_cpn_state-IsSummary c.node_states);
      names =
          n.1
          ∙ ap detail_of (get_cpn_state-names c.node_states)
          ∙ ap (λ nodes. detail_of (broken_nodes nodes)) (sym n.3);
      count = n.4;
      change = n.5;
      updated = n.2;
    }

-- After each round of pings the collector has a state that says of its nodes: broken if there are
-- none; otherwise healthy if all are healthy, down if none is, and damaged if some are. The detail
-- names the nodes that are not healthy. The count of changes is one more, and the time of the last
-- change is that of the round, if and only if the state is not the one before.
pub handle_ping_result-IsUpdated :
    (now : ℕ) (pings : List (String × Text)) (c : Collector)
    → IsUpdated now c (handle_ping_result now pings c)
unfolding handle_ping_result
handle_ping_result-IsUpdated now pings c =
    let s = handle_pings-same now pings c in
    let u = update_cpn_state-IsUpdated now (handle_pings now pings c) in
    record {
      value = u.value;
      known = u.known;
      summary = u.summary;
      names = u.names;
      count = ground (arith, u.count, s.0, s.1);
      change = ground (arith, u.change, s.0, s.2);
      updated = u.updated;
    }
