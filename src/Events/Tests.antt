-- ===== src/Events/Tests.antt =====
-- A client at concrete inputs.
use forch.Base.{ℕ, ◌≡◌, refl, true, false, none, some, List, [], ◌∷◌, string_eq, nat_eq, arith}
use forch.Base.Dict
use forch.Base.Exec.{ok}
use forch.Events.{Input, turn, received, registered, horizon, feed_all}
use forch.Events.Buffer.{Text, Op, appended, prepended, taken, run}
use forch.Events.Buffer
use forch.Events.Buffer.Queue.{view}
use forch.Events.Buffer.Runs.{replay, run_refines}
use forch.Events.Debounce.{debounce_port_event}
use forch.Events.Order.{IsOrdered, admit_all, admit_all-IsOrdered}
use forch.Events.Timers.{IsTimed}
use forch.Events.Timers.Runs.{IsAnnounced, up_settles}
use forch.Events.Types.{Event, Json, create, set_event_horizon}

abbrev ops : List Op
ops =
    Buffer.received (97 ∷ 98 ∷ [])
    ∷ appended (120 ∷ [])
    ∷ prepended (121 ∷ [])
    ∷ taken
    ∷ Buffer.received (99 ∷ 10 ∷ 100 ∷ [])
    ∷ taken
    ∷ taken
    ∷ []

ops_lem : run ops [] ≡ ((121 ∷ []) ∷ (120 ∷ []) ∷ (97 ∷ 98 ∷ 99 ∷ []) ∷ [], 100 ∷ [])
unfolding run nat_eq
ops_lem = refl

run_refines_example :
    ((run ops []).0 ≡ (replay ops (view [])).0) × (view (run ops []).1 ≡ (replay ops (view [])).1)
run_refines_example =
    run_refines ops []
      (tt, (((λ e. omega arith), tt), (((λ e. omega arith), tt), (tt, (tt, (tt, (tt, tt)))))))

abbrev numbered : ℕ → Event
numbered n = record {
  dp_name = "t2sw1";
  dp_id = 7;
  event_id = n;
  time = 50;
  debounced = false;
  port_change = none;
  ports_status = none;
  messages = "L2_LEARN" ∷ [];
}

abbrev events : List Event
events = numbered 3 ∷ numbered 6 ∷ numbered 5 ∷ numbered 7 ∷ []

events_lem : (admit_all events (set_event_horizon 5 create)).0 ≡ ok (6 ∷ 7 ∷ [])
unfolding admit_all nat_eq
events_lem = refl

admit_all-IsOrdered_example : IsOrdered 5 events (admit_all events (set_event_horizon 5 create))
admit_all-IsOrdered_example = admit_all-IsOrdered events 4 (set_event_horizon 5 create) refl

-- Every event is written as the same line and reads as an event of a port that went down.
abbrev down : Event
down = record (numbered 6) {
  port_change = some (record { port_no = 4; status = false; reason = "MODIFY" });
}

abbrev json : Json
json = record { dumps = λ e. 123 ∷ 125 ∷ []; loads = λ text. some down }

abbrev inputs : List (Input × ℕ)
inputs =
    (registered "PORT_CHANGE" 0, 1)
    ∷ (horizon 5, 1)
    ∷ (received (123 ∷ 10 ∷ 123 ∷ []), 2)
    ∷ (turn, 2)
    ∷ []

-- The port is down, and its timer runs.
inputs_lem : (feed_all json inputs create).port_timers ≡ ((7, 4), 0) ∷ []
unfolding feed_all Buffer.split_line nat_eq Dict.insert string_eq Dict.lookup
inputs_lem = refl

up_settles_example :
    IsTimed (feed_all json inputs create)
    × IsAnnounced json down 4 9
        (feed_all json inputs create)
        (debounce_port_event json down 4 true 9 (feed_all json inputs create))
up_settles_example =
    up_settles json inputs down 4 9 (λ e. ((λ p. omega arith), ((λ p. omega arith), tt)))
