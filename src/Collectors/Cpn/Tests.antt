-- ===== src/Collectors/Cpn/Tests.antt =====
-- A collector at concrete inputs.
use forch.Base.{ℕ, String, ◌≡◌, refl, List, [], ◌∷◌, encode, string_eq, nat_eq}
use forch.Collectors.States.{healthy, down}
use forch.Collectors.Cpn.{
  Text, get_ping_state, fresh_node, create, Collector, read, initialize, handle_ping_result,
}
use forch.Collectors.Cpn.Streaks.{ping_all, ping_states, state_after, ping_all-state}
use forch.Collectors.Cpn.Summary.{IsUpdated, handle_ping_result-IsUpdated}

abbrev good : Text
good = encode "1 packets transmitted, 1 received, 0% packet loss, time 0ms"

abbrev bad : Text
bad = encode "1 packets transmitted, 0 received, 100% packet loss, time 0ms"

ping_lem : (get_ping_state good ≡ healthy) × (get_ping_state bad ≡ down)
unfolding get_ping_state encode nat_eq
ping_lem = (refl, refl)

-- The last ping stands first.
abbrev pings : List (ℕ × Text)
pings = (3, good) ∷ (2, good) ∷ (1, bad) ∷ []

ping_all-state_example :
    (ping_all 1 1 pings (fresh_node "10.0.0.3")).state ≡ state_after 1 1 (ping_states pings)
ping_all-state_example = ping_all-state 1 1 "10.0.0.3" pings

abbrev collector : Collector
collector = initialize 0 (read (("gw", "10.0.0.3") ∷ ("ap", "10.0.0.4") ∷ [])) (create 0 0)

abbrev results : List (String × Text)
results = ("gw", good) ∷ ("other", good) ∷ []

handle_ping_result-IsUpdated_example :
    IsUpdated 9 collector (handle_ping_result 9 results collector)
handle_ping_result-IsUpdated_example = handle_ping_result-IsUpdated 9 results collector
