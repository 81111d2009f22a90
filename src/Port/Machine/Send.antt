-- ===== src/Port/Machine/Send.antt =====
-- The invariant of the manager, and that an event to a machine keeps it.
use forch.Base.{
  ◌≡◌, refl, ◌≢◌, ◌∙◌, sym, ap, ◌⊎◌, inl, inr, String, Bool, true, false, Option, none, some, arith,
  is_some, string_eq, Option-cases,
}
use forch.Base.Dict
use forch.Base.Exec.{Result, ok}
use forch.Port.Types.{
  DvaState, unauthenticated, sequestered, infracted, operational, Event, behavior, result, cleared,
  sequester, deauthenticated,
}
use forch.Port.Table.{Table, get, real}
use forch.Port.Table.Merge.{NodupTable}
use forch.Port.State.{Manager}
use forch.Port.Machine.{enter, transition, send, behavior_of}
use forch.Port.Machine.Quiet.{IsKept, IsQuiet, needs, handle_state-IsQuiet, handle_state_succeeds}

-- The events that authentication sends.
abbrev pub is_auth : Event → Bool
is_auth (behavior cleared) = true
is_auth (behavior sequester) = true
is_auth _ = false

abbrev pub is_result : Event → Bool
is_result (result r) = true
is_result _ = false

-- What the safety of the devices needs of a table of transitions.
pub record IsOrderly (t : Table) : Type 0 where
  pub freed :
      (state : DvaState)
      → needs state ≡ true
      → get t state (behavior deauthenticated) ≡ some unauthenticated
  pub earned :
      (state : DvaState) (event : Event) (next : DvaState)
      → get t state event ≡ some next
      → needs next ≡ true
      → (needs state ≡ true) ⊎ (is_auth event ≡ true)
  pub jailed : (event : Event) → get t infracted event ≡ none
  pub clears : get t unauthenticated (behavior cleared) ≡ some operational
  pub confines : get t unauthenticated (behavior sequester) ≡ some sequestered

-- Overwrites are a table of real dicts, and speak of test results of sequestered devices alone.
pub record IsOverwrite (o : Table) : Type 0 where
  pub nodup : NodupTable o
  pub results :
      (state : DvaState) (event : Event) (next : DvaState)
      → get o state event ≡ some next
      → (state ≡ sequestered) × (is_result event ≡ true)

pub record IsSound (m : Manager) : Type 0 where
  pub served :
      (mac : String) (state : DvaState)
      → Dict.lookup mac m.state_machines ≡ some state
      → needs state ≡ true
      → is_some (behavior_of mac m) ≡ true
  pub orderly : IsOrderly m.transitions
  pub overwrites : IsOverwrite m.state_overwrites
  pub timed : is_some m.sequester_timeout_sec ≡ true
  pub reporting : m.has_reporter ≡ true

pub kept-IsSound : (m m' : Manager) → IsKept m m' → IsSound m → IsSound m'
kept-IsSound m m' q v = record {
  served = λ mac state e n.
      rw (q.statics, q.dynamics) (v.served mac state (sym (ap (Dict.lookup mac) q.machines) ∙ e) n);
  orderly = rw q.table v.orderly;
  overwrites = rw q.overwrites v.overwrites;
  timed = rw q.timeout v.timed;
  reporting = q.reporter ∙ v.reporting;
}

pub quiet-IsSound : (m m' : Manager) → IsQuiet m m' → IsSound m → IsSound m'
quiet-IsSound m m' q v = kept-IsSound m m' q.kept v

-- What an event to the machine of one device does.
pub record IsSent (mac : String) (m : Manager) (r : Result (Unit {0}) × Manager) : Type 0 where
  pub succeeds : r.0 ≡ ok tt
  pub sound : IsSound r.1
  pub statics : r.1.static_behaviors ≡ m.static_behaviors
  pub dynamics : r.1.dynamic_behaviors ≡ m.dynamic_behaviors
  pub placements : r.1.placement_to_mac ≡ m.placement_to_mac
  pub others :
      (k : String) → k ≢ mac → Dict.lookup k r.1.state_machines ≡ Dict.lookup k m.state_machines

pub stays : (mac : String) (m : Manager) → IsSound m → IsSent mac m (ok tt, m)
stays mac m v = record {
  succeeds = refl;
  sound = v;
  statics = refl;
  dynamics = refl;
  placements = refl;
  others = λ k n. refl;
}

module _ (mac : String) (state next : DvaState) (m : Manager) where
  -- The manager when the machine is in its next state and its handler has not run.
  abbrev moved : Manager
  moved = record m { state_machines = Dict.insert mac next m.state_machines }

  moved_served :
      IsSound m
      → (needs next ≡ true → is_some (behavior_of mac m) ≡ true)
      → (k : String) (s : DvaState) → Dict.lookup k moved.state_machines ≡ some s
      → needs s ≡ true
      → is_some (behavior_of k m) ≡ true
  moved_served v h =
      Dict.Each-insert (λ k s. needs s ≡ true → is_some (behavior_of k m) ≡ true) mac next
        m.state_machines h v.served

  moved-IsSound :
      IsSound m → (needs next ≡ true → is_some (behavior_of mac m) ≡ true) → IsSound moved
  moved-IsSound v h = record {
    served = moved_served v h;
    orderly = v.orderly;
    overwrites = v.overwrites;
    timed = v.timed;
    reporting = v.reporting;
  }

  enter-IsSent :
      IsSound m
      → (needs next ≡ true → is_some (behavior_of mac m) ≡ true)
      → IsSent mac m (enter mac (some next) m)
  unfolding enter
  enter-IsSent v h =
      let q = handle_state-IsQuiet next mac moved in
      record {
        succeeds = handle_state_succeeds next mac moved h v.timed;
        sound = quiet-IsSound moved _ q (moved-IsSound v h);
        statics = q.statics;
        dynamics = q.dynamics;
        placements = q.placements;
        others = λ k n.
            ap (Dict.lookup k) q.machines ∙ Dict.lookup-insert_ne k mac next m.state_machines n;
      }

pub real-eq_some : (o : Option DvaState) (next : DvaState) → real o ≡ some next → o ≡ some next
real-eq_some o next h = ground arith

module _ (mac : String) (event : Event) (m : Manager) where
  -- A machine that enters a state which needs a behaviour has one.
  earned_behavior :
      (state next : DvaState)
      → IsSound m
      → Dict.lookup mac m.state_machines ≡ some state
      → (is_auth event ≡ true → is_some (behavior_of mac m) ≡ true)
      → get m.transitions state event ≡ some next
      → needs next ≡ true
      → is_some (behavior_of mac m) ≡ true
  earned_behavior state next v e h there n =
      earned_cases (v.orderly.earned state event next there n)
    where
      earned_cases :
          (needs state ≡ true) ⊎ (is_auth event ≡ true) → is_some (behavior_of mac m) ≡ true
      earned_cases (inl held) = v.served mac state e held
      earned_cases (inr given) = h given

  -- The step of a machine from the state that it is in.
  transition-IsSent :
      (state : DvaState)
      → IsSound m
      → Dict.lookup mac m.state_machines ≡ some state
      → (is_auth event ≡ true → is_some (behavior_of mac m) ≡ true)
      → IsSent mac m (transition mac state event m)
  unfolding transition
  transition-IsSent state v e h = elim (Option-cases (real (get m.transitions state event))) [
    | inl nowhere ↦ rw nowhere (stays mac m v)
    | inr (next, there) ↦ rw there (
        enter-IsSent mac state next m v
          (λ n. earned_behavior state next v e h (real-eq_some _ next there) n))
  ]

  -- An event to the machine of a device keeps every machine served and the table in order, raises
  -- nothing, and touches no behaviour, no placement and no machine of another device; an event that
  -- authentication sends wants a behaviour for the device.
  pub send-IsSent :
      IsSound m
      → (is_auth event ≡ true → is_some (behavior_of mac m) ≡ true)
      → IsSent mac m (send mac event m)
  unfolding send
  send-IsSent v h = elim (Option-cases (Dict.lookup mac m.state_machines)) [
    | inl e ↦ rw (e, send) (stays mac m v)
    | inr (state, e) ↦ rw (e, send) (transition-IsSent state v e h)
  ]
