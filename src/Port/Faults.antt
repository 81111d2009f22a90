-- ===== src/Port/Faults.antt =====
-- Where the manager loses track of a device.
pub mod Stale
use forch.Base.{
  ℕ, ◌+◌, ◌-◌, ◌%◌, ◌≤◌, ◌<◌, ◌≡◌, refl, ◌≢◌, ◌∙◌, ap, String, false, none, some, ◌∷◌, arith,
  string_eq, pair_eq, nat_eq,
}
use forch.Base.Dict
use forch.Base.Exec.{Result, ok, raised, after, ◌>>◌}
use forch.Port.Types.{
  DvaState, initial, sequestered, infracted, Event, result, fail, DevicePlacement,
}
use forch.Port.Table.{get, real}
use forch.Port.State.{
  Manager, Timer, sequester_timeout, scheduled_sequester, present, is_empty, drop_timer,
  process_device_placement, update_device_state_varz,
}
use forch.Port.Machine.{send}
use forch.Port.Manager.Authenticate.{send-lookup}
use forch.Port.Manager.{
  handle_disconnected_device, disconnected, schedule_device_sequester, schedule_at, fire,
  handle_sequestering_timeout, handle_session_result, report_disconnect,
}
use forch.Port.Placement.{get_dva_state}

present_full : (mac : String) → is_empty mac ≡ false → present (some mac) ≡ some mac
present_full mac full = ground arith

disconnected_clears :
    (mac : String) (p : DevicePlacement) (m : Manager)
    → let m' = (disconnected (some mac) p m).1 in
      (m'.placement_to_mac ≡ m.placement_to_mac)
      × (m'.state_machines ≡ Dict.erase mac m.state_machines)
unfolding disconnected process_device_placement update_device_state_varz
disconnected_clears mac p m = ground arith

-- What is reported of a placement whose device has no machine.
reported_initial :
    (mac switch : String) (port : ℕ) (m : Manager)
    → is_empty mac ≡ false
    → Dict.lookup (switch, port) m.placement_to_mac ≡ some mac
    → Dict.lookup mac m.state_machines ≡ none
    → get_dva_state switch port m ≡ initial
unfolding get_dva_state
reported_initial mac switch port m full there gone = ground arith

module _ (mac : String) (p : DevicePlacement) (switch : String) (port : ℕ) (m : Manager) where
  popped : Manager
  popped = record m { placement_to_mac = Dict.erase (p.switch, p.port) m.placement_to_mac }

  lost_after :
      ◌≢◌ {A = String × ℕ} (switch, port) (p.switch, p.port)
      → is_empty mac ≡ false
      → Dict.lookup (switch, port) m.placement_to_mac ≡ some mac
      → let m' = (disconnected (some mac) p popped).1 in
        (Dict.lookup (switch, port) m'.placement_to_mac ≡ some mac)
        × (Dict.lookup mac m'.state_machines ≡ none)
        × (get_dva_state switch port m' ≡ initial)
  unfolding popped
  lost_after apart full there =
      let (places, machines) = disconnected_clears mac p popped in
      let kept : Dict.lookup (switch, port) (disconnected (some mac) p popped).1.placement_to_mac
          ≡ some mac =
        ap (Dict.lookup (switch, port)) places
        ∙ Dict.lookup-erase_ne (switch, port) (p.switch, p.port) m.placement_to_mac apart
        ∙ there in
      let gone : Dict.lookup mac (disconnected (some mac) p popped).1.state_machines ≡ none =
        ap (Dict.lookup mac) machines ∙ Dict.lookup-erase_self mac m.state_machines in
      (kept, gone, reported_initial mac switch port _ full kept gone)

  -- A device that was learned at one port and then at another, and whose placement at the first
  -- port now ends, has no machine any more, although its other placement is still recorded; there
  -- its state is reported as `initial`.
  pub moved_device_is_lost :
      is_empty mac ≡ false
      → ◌≢◌ {A = String × ℕ} (switch, port) (p.switch, p.port)
      → Dict.lookup (p.switch, p.port) m.placement_to_mac ≡ some mac
      → Dict.lookup (switch, port) m.placement_to_mac ≡ some mac
      → let m' = (handle_disconnected_device p m).1 in
        (Dict.lookup (switch, port) m'.placement_to_mac ≡ some mac)
        × (Dict.lookup mac m'.state_machines ≡ none)
        × (get_dva_state switch port m' ≡ initial)
  unfolding handle_disconnected_device popped
  moved_device_is_lost full apart here there =
      rw (here, present_full mac full) (lost_after apart full there)

-- A timer with a number, a kind and a device.
module _ (at now : ℕ) (mac : String) (m : Manager) where
  -- A scheduled sequestering that is a day away or more starts one timer, for that device, whose
  -- delay is shorter than the time that is left: the days of the difference are lost.
  pub schedule_loses_days :
      now + 86400 ≤ at
      → (t : Timer) × ((schedule_device_sequester (some at) mac now m).1.running ≡ t ∷ m.running)
        × (t.mac ≡ mac)
        × (t.delay ≡ (at - now) % 86400)
        × (t.delay < at - now)
  unfolding schedule_device_sequester schedule_at
  schedule_loses_days far = (
    record {
      number = m.next_timer;
      kind = scheduled_sequester;
      mac = mac;
      delay = (at - now) % 86400;
    },
    ground arith,
    refl,
    refl,
    omega arith,
  )

report_keeps :
    (mac : String) (m : Manager) → (report_disconnect mac m).1.state_machines ≡ m.state_machines
unfolding report_disconnect
report_keeps mac m = ground arith

-- A call after an event leaves the machines as the event has left them, if it came to it at all.
reported_after :
    (mac : String) (event : Event) (m : Manager) (state : DvaState)
    → Dict.lookup mac (send mac event m).1.state_machines ≡ some state
    → Dict.lookup mac ((send mac event >> report_disconnect mac) m).1.state_machines ≡ some state
reported_after mac event m state e = go (send mac event m) e
  where
    go :
        (r : Result (Unit {0}) × Manager)
        → Dict.lookup mac r.1.state_machines ≡ some state
        → Dict.lookup mac (after r (λ _. report_disconnect mac)).1.state_machines ≡ some state
    go (ok a, s) h = ap (Dict.lookup mac) (report_keeps mac s) ∙ h
    go (raised x, s) h = h

-- A timeout of sequestering that runs out, whatever its number is.
pub timeout_infracts :
    (t : Timer) (m : Manager)
    → t.kind ≡ sequester_timeout
    → Dict.lookup t.mac m.state_machines ≡ some sequestered
    → get m.transitions sequestered (result fail) ≡ some infracted
    → Dict.lookup t.mac (fire t m).1.state_machines ≡ some infracted
unfolding fire handle_sequestering_timeout handle_session_result
timeout_infracts t m k here there =
    let m' = record m {
      running = drop_timer t.number m.running;
      sequester_timer = Dict.erase t.mac m.sequester_timer;
    } in
    rw k (
      reported_after t.mac (result fail) m' infracted
        (send-lookup t.mac (result fail) m' sequestered infracted here (ap real there)))
