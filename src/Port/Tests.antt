-- ===== src/Port/Tests.antt =====
-- The manager at concrete inputs: two devices, a sequester segment, and the table of the class.
use forch.Base.{
  ℕ, ◌≡◌, refl, ◌≢◌, inl, String, true, false, Option, none, some, List, [], ◌∷◌, string_eq, nat_eq,
  pair_eq, lower, ◌-◌, ◌%◌, ◌<◌, arith,
}
use forch.Base.Dict
use forch.Base.Exec.{ok}
use forch.Port.Types.{
  initial, unauthenticated, sequestered, operational, infracted, behavior, result, failed,
  deauthenticated, fail, enabled, result_type, DeviceBehavior, no_behavior, DevicePlacement, dva_eq,
  event_eq, event_type_eq,
}
use forch.Port.Table.{Table, get, merge}
use forch.Port.Table.Merge.{NodupTable}
use forch.Port.State.{
  Manager, Timer, sequester_timeout, process_device_placement, process_device_behavior,
  update_device_state_varz, update_static_vlan_varz, cancel,
}
use forch.Port.Machine.{send}
use forch.Port.Machine.Send.{IsSound, IsSent, send-IsSent}
use forch.Port.Manager.{
  handle_authenticated_device, handle_deauthenticated_device, handle_disconnected_device,
  schedule_device_sequester, fire, handle_testing_result, handle_static_device_behavior,
}
use forch.Port.Manager.Sound.{IsHandled}
use forch.Port.Manager.Gone.{handle_deauthenticated_device-IsHandled}
use forch.Port.Manager.Authenticate.{admitted, handle_authenticated_device-lookup}
use forch.Port.Placement.{
  OrchConfig, SequesterConfig, create, get_dva_state, handle_device_placement,
}
use forch.Port.Faults.{moved_device_is_lost, schedule_loses_days}
use forch.Port.Faults.Stale.{stale_timeout_infracts}
use forch.Port.Machine.Timers.{Among}
use forch.Port.Inputs
use forch.Port.Inputs.{Input, static_behavior, placement, clear_statics, timer, feed, feed_all}
use forch.Port.Inputs.Runs.{feed_never_raises, create-IsSound}
use forch.Port.Inputs.Jail.{IsJailed}
use forch.Port.Inputs.Jail.Methods.{IsUnmoved, is_placement, stays_infracted}

abbrev mac : String
mac = "9a:02:57:1e:8f:01"

abbrev here : DevicePlacement
here = record { switch = "t2sw1"; port = 5; connected = true }

abbrev staff : DeviceBehavior
staff = record no_behavior { segment = "SEG_A"; auto_sequestering = enabled }

abbrev sequestering : SequesterConfig
sequestering = record {
  segment = "TESTING";
  timeout_sec = 60;
  auto_sequestering = enabled;
  test_result_device_states = (fail, unauthenticated) ∷ [];
}

abbrev plain : SequesterConfig
plain = record sequestering { test_result_device_states = [] }

abbrev config : SequesterConfig → OrchConfig
config q = record { unauthenticated_vlan = 100; sequester_config = some q }

abbrev start : Manager
start = create true true true (some (config plain))

start-IsSound : IsSound start
start-IsSound = create-IsSound true true (config plain) plain refl

abbrev vlans : String → Option ℕ
vlans segment = some 200

abbrev times : String → Option ℕ
times text = none

abbrev morning : List (Input × ℕ)
morning =
    (placement mac here false, 1)
    ∷ (static_behavior mac staff, 2)
    ∷ (Inputs.testing_result mac (record no_behavior { port_behavior = failed }), 3)
    ∷ []

feed_never_raises_example :
    let s = feed_all vlans times morning start in
    IsSound s × ((feed vlans times clear_statics 4 s).0 ≡ ok tt)
feed_never_raises_example =
    feed_never_raises vlans times morning clear_statics 4 start start-IsSound

-- The morning ends with an infracted device.
morning_infracts :
    Dict.lookup mac (feed_all vlans times morning start).state_machines ≡ some infracted
unfolding Dict.lookup Dict.insert feed_all feed string_eq dva_eq event_eq event_type_eq
    handle_testing_result send handle_static_device_behavior handle_device_placement create
    process_device_placement process_device_behavior update_device_state_varz
    update_static_vlan_varz cancel lower get merge
morning_infracts = refl

abbrev evening : Manager
evening = feed_all vlans times morning start

-- The rest of the day leaves the device infracted.
abbrev later : List (Input × ℕ)
later = (static_behavior mac staff, 5) ∷ (clear_statics, 6) ∷ []

evening-IsJailed : IsJailed mac evening
evening-IsJailed = record {
  held = morning_infracts;
  locked =
      (feed_never_raises vlans times morning clear_statics 4 start start-IsSound).0.orderly.jailed;
}

later-IsUnmoved : IsUnmoved later
unfolding IsUnmoved is_placement
later-IsUnmoved = (refl, (refl, tt))

stays_infracted_example : IsJailed mac (feed_all vlans times later evening)
stays_infracted_example =
    stays_infracted vlans times mac later evening later-IsUnmoved evening-IsJailed

send-IsSent_example : IsSent mac start (send mac (behavior deauthenticated) start)
send-IsSent_example = send-IsSent mac (behavior deauthenticated) start start-IsSound (λ e. cc)

-- A manager whose one device is operational by its static behaviour.
abbrev noon : Manager
noon =
    feed_all vlans times ((placement mac here false, 1) ∷ (static_behavior mac staff, 2) ∷ []) start

noon-IsSound : IsSound noon
noon-IsSound =
    (feed_never_raises vlans times
      ((placement mac here false, 1) ∷ (static_behavior mac staff, 2) ∷ []) clear_statics 3 start
      start-IsSound).0

handle_deauthenticated_device-IsHandled_example :
    IsHandled mac noon (handle_deauthenticated_device mac true noon)
handle_deauthenticated_device-IsHandled_example =
    handle_deauthenticated_device-IsHandled mac true noon noon-IsSound

-- A manager that has learned the device and knows no behaviour of it.
abbrev dawn : Manager
dawn = feed_all vlans times ((placement mac here false, 1) ∷ []) start

dawn-IsSound : IsSound dawn
dawn-IsSound =
    (feed_never_raises vlans times ((placement mac here false, 1) ∷ []) clear_statics 3 start
      start-IsSound).0

dawn_unauthenticated : Dict.lookup mac dawn.state_machines ≡ some unauthenticated
unfolding Dict.lookup Dict.insert feed_all feed string_eq dva_eq event_eq event_type_eq
    handle_testing_result send handle_static_device_behavior handle_device_placement create
    process_device_placement process_device_behavior update_device_state_varz
    update_static_vlan_varz cancel lower get merge
dawn_unauthenticated = refl

handle_authenticated_device-lookup_example :
    Dict.lookup mac (handle_authenticated_device mac staff false dawn).1.state_machines
    ≡ some (admitted mac dawn)
handle_authenticated_device-lookup_example =
    handle_authenticated_device-lookup mac staff false dawn dawn-IsSound dawn_unauthenticated

-- Overwrites that send a device that fails back to the start.
abbrev lenient : Table
lenient = (sequestered, (result_type, (result fail, unauthenticated) ∷ []) ∷ []) ∷ []

lenient-NodupTable : NodupTable lenient
unfolding Dict.lookup
lenient-NodupTable = (refl, (refl, (refl, tt), tt), tt)

-- The device was learned at port 5 and then at port 7.
abbrev moved : Manager
moved = record start {
  placement_to_mac = (("t2sw1", 5), mac) ∷ (("t2sw1", 7), mac) ∷ [];
  state_machines = (mac, operational) ∷ [];
}

moved_places :
    (Dict.lookup ("t2sw1", 5) moved.placement_to_mac ≡ some mac)
    × (Dict.lookup ("t2sw1", 7) moved.placement_to_mac ≡ some mac)
unfolding Dict.lookup string_eq nat_eq pair_eq
moved_places = (refl, refl)

ports_apart : ◌≢◌ {A = String × ℕ} ("t2sw1", 7) ("t2sw1", 5)
ports_apart e = cc

abbrev gone : DevicePlacement
gone = record here { connected = false }

moved_device_is_lost_example :
    let m' = (handle_disconnected_device gone moved).1 in
    (Dict.lookup ("t2sw1", 7) m'.placement_to_mac ≡ some mac)
    × (Dict.lookup mac m'.state_machines ≡ none)
    × (get_dva_state "t2sw1" 7 m' ≡ initial)
unfolding string_eq
moved_device_is_lost_example =
    moved_device_is_lost mac gone "t2sw1" 7 moved refl ports_apart moved_places.0 moved_places.1

-- Two days and an hour ahead, the timer runs for an hour.
schedule_loses_days_example :
    (t : Timer) × ((schedule_device_sequester (some 176400) mac 0 start).1.running
      ≡ t ∷ start.running)
    × (t.mac ≡ mac)
    × (t.delay ≡ (176400 - 0) % 86400)
    × (t.delay < 176400 - 0)
schedule_loses_days_example = schedule_loses_days 176400 0 mac start (omega arith)

abbrev old_timer : Timer
old_timer = record { number = 0; kind = sequester_timeout; mac = mac; delay = 60 }

-- The device is sequestered, and its timer runs.
abbrev under_test : Manager
under_test = record (create true true true (some (config sequestering))) {
  state_machines = (mac, sequestered) ∷ [];
  dynamic_behaviors = (mac, staff) ∷ [];
  running = old_timer ∷ [];
  next_timer = 1;
}

-- Its authentication ends, and it authenticates anew.
abbrev again : Manager
again =
    (handle_authenticated_device mac staff false
      (handle_deauthenticated_device mac false under_test).1).1

again_sequestered :
    (Dict.lookup mac again.state_machines ≡ some sequestered)
    × (get again.transitions sequestered (result fail) ≡ some infracted)
unfolding Dict.lookup string_eq get dva_eq event_eq event_type_eq create handle_authenticated_device
    handle_deauthenticated_device send process_device_behavior update_device_state_varz Dict.insert
    Dict.erase
again_sequestered = (refl, refl)

stale_timeout_infracts_example :
    Among old_timer again.running
    × (Dict.lookup mac (fire old_timer again).1.state_machines ≡ some infracted)
stale_timeout_infracts_example =
    stale_timeout_infracts old_timer under_test false false staff refl (inl refl)
      again_sequestered.0 again_sequestered.1
