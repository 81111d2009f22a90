-- ===== src/Port/Manager/Gone.antt =====
-- Deauthentication: between the removal of a behaviour and the event to the machine, the manager
-- is sound but for one device.
use forch.Base.{
  ◌≡◌, refl, ◌≢◌, ◌∙◌, sym, ap, ◌⊎◌, inl, inr, String, Bool, true, false, not, ◌&&◌, ◌||◌, none,
  some, arith, is_some, string_eq, Option-cases, Bool-cases, if◌then◌else◌,
}
use forch.Base.Dict
use forch.Base.Exec.{ok, >>-eq_of_ok, when, modify}
use mathlib.Core.Bool.{false≢true}
use forch.Port.Types.{DvaState, unauthenticated, behavior, deauthenticated, no_behavior}
use forch.Port.Table.{get, real}
use forch.Port.State.{Manager, process_device_behavior}
use forch.Port.Machine.{send, transition, enter, behavior_of, is_static}
use forch.Port.Machine.Quiet.{
  needs, process_device_behavior-IsQuiet, handle_state-IsQuiet, handle_state_succeeds,
}
use forch.Port.Machine.Send.{
  IsOrderly, IsOverwrite, IsSound, quiet-IsSound, IsSent, stays, real-eq_some,
}
use forch.Port.Manager.{pop_static, pop_dynamic, deauthenticate, handle_deauthenticated_device}
use forch.Port.Manager.Sound.{IsHandled}

-- Sound but for the machine of one device.
record IsSoundBut (mac : String) (m : Manager) : Type 0 where
  served :
      (k : String) (state : DvaState)
      → k ≢ mac
      → Dict.lookup k m.state_machines ≡ some state
      → needs state ≡ true
      → is_some (behavior_of k m) ≡ true
  orderly : IsOrderly m.transitions
  overwrites : IsOverwrite m.state_overwrites
  timed : is_some m.sequester_timeout_sec ≡ true
  reporting : m.has_reporter ≡ true

whole :
    (mac : String) (m : Manager)
    → IsSoundBut mac m
    → ((state : DvaState)
        → Dict.lookup mac m.state_machines ≡ some state
        → needs state ≡ true
        → is_some (behavior_of mac m) ≡ true)
    → IsSound m
whole mac m v h = record {
  served = λ k state e n. elim (string_eq.dec k mac) [
    | yes p ↦ rw p (h state (sym (ap (λ j. Dict.lookup j m.state_machines) p) ∙ e) n)
    | no q ↦ v.served k state q e n
  ];
  orderly = v.orderly;
  overwrites = v.overwrites;
  timed = v.timed;
  reporting = v.reporting;
}

popped_other :
    (static : Bool) (mac k : String) (m : Manager)
    → k ≢ mac
    → is_some (behavior_of k m) ≡ true
    → is_some (behavior_of k (if static then pop_static mac m else pop_dynamic mac m)) ≡ true
popped_other true mac k m n h = ground (arith, Dict.lookup-erase_ne k mac m.static_behaviors)
popped_other false mac k m n h = ground (arith, Dict.lookup-erase_ne k mac m.dynamic_behaviors)

module _ (mac : String) (m : Manager) (v : IsSound m) where
  pop_static-IsSoundBut : IsSoundBut mac (pop_static mac m)
  pop_static-IsSoundBut = record {
    served = λ k state n e s. popped_other true mac k m n (v.served k state e s);
    orderly = v.orderly;
    overwrites = v.overwrites;
    timed = v.timed;
    reporting = v.reporting;
  }

  pop_dynamic-IsSoundBut : IsSoundBut mac (pop_dynamic mac m)
  pop_dynamic-IsSoundBut = record {
    served = λ k state n e s. popped_other false mac k m n (v.served k state e s);
    orderly = v.orderly;
    overwrites = v.overwrites;
    timed = v.timed;
    reporting = v.reporting;
  }

-- A state that deauthentication leads to needs no behaviour.
free :
    (state next : DvaState) (m : Manager)
    → IsOrderly m.transitions
    → get m.transitions state (behavior deauthenticated) ≡ some next
    → needs next ≡ false
free state next m t e = elim (Bool-cases (needs state)) [
  | inl held ↦ freed_needs next (sym e ∙ t.freed state held)
  | inr unheld ↦ elim (Bool-cases (needs next)) [
    | inl n ↦ absurd (unearned state unheld (t.earned state (behavior deauthenticated) next e n))
    | inr n ↦ n
  ]
]
  where
    freed_needs : (next : DvaState) → some next ≡ some unauthenticated → needs next ≡ false
    freed_needs next h = ground arith

    unearned : (state : DvaState) → needs state ≡ false → (needs state ≡ true) ⊎ (false ≡ true) → ⊥
    unearned state u (inl h) = false≢true (sym u ∙ h)
    unearned state u (inr h) = false≢true h

module _ (mac : String) (m : Manager) (v : IsSoundBut mac m) where
  module _ (next : DvaState) (n : needs next ≡ false) where
    abbrev freed : Manager
    freed = record m { state_machines = Dict.insert mac next m.state_machines }

    freed-IsSound : IsSound freed
    freed-IsSound =
        whole mac freed
          (record {
            served = λ k state q e s.
                v.served k state q (sym (Dict.lookup-insert_ne k mac next m.state_machines q) ∙ e)
                  s;
            orderly = v.orderly;
            overwrites = v.overwrites;
            timed = v.timed;
            reporting = v.reporting;
          })
          (λ state e s.
            absurd (
              unneeded state next (sym (Dict.lookup-insert_self mac next m.state_machines) ∙ e) n
                s))
      where
        unneeded :
            (state next : DvaState)
            → some next ≡ some state
            → needs next ≡ false
            → needs state ≡ true
            → ⊥
        unneeded state next e n s = ground arith

    enter_free : IsSent mac m (enter mac (some next) m)
    unfolding enter
    enter_free =
        let q = handle_state-IsQuiet next mac freed in
        record {
          succeeds =
              handle_state_succeeds next mac freed (λ s. absurd (false≢true (sym n ∙ s))) v.timed;
          sound = quiet-IsSound freed _ q freed-IsSound;
          statics = q.statics;
          dynamics = q.dynamics;
          placements = q.placements;
          others = λ k d.
              ap (Dict.lookup k) q.machines ∙ Dict.lookup-insert_ne k mac next m.state_machines d;
        }

  -- Without a machine that needs a behaviour, the manager is sound.
  unheld-IsSound :
      (state : DvaState)
      → Dict.lookup mac m.state_machines ≡ some state
      → needs state ≡ false
      → IsSound m
  unheld-IsSound state e n = whole mac m v λ s f h. absurd (unneeded s (sym e ∙ f) h)
    where
      unneeded : (s : DvaState) → some state ≡ some s → needs s ≡ true → ⊥
      unneeded s f h = ground arith

  transition_deauth :
      (state : DvaState)
      → Dict.lookup mac m.state_machines ≡ some state
      → IsSent mac m (transition mac state (behavior deauthenticated) m)
  unfolding transition
  transition_deauth state e = elim (Bool-cases (needs state)) [
    | inl held ↦ rw (v.orderly.freed state held) (enter_free unauthenticated refl)
    | inr unheld ↦ elim (Option-cases (real (get m.transitions state (behavior deauthenticated)))) [
      | inl nowhere ↦ rw nowhere (stays mac m (unheld-IsSound state e unheld))
      | inr (next, there) ↦
          rw there (enter_free next (free state next m v.orderly (real-eq_some _ next there)))
    ]
  ]

  send_deauth :
      (state : DvaState)
      → Dict.lookup mac m.state_machines ≡ some state
      → IsSent mac m (send mac (behavior deauthenticated) m)
  unfolding send
  send_deauth state e = rw (e, send) (transition_deauth state e)

  deauthenticate-IsHandled :
      (static : Bool) (state : DvaState)
      → Dict.lookup mac m.state_machines ≡ some state
      → IsHandled mac m (deauthenticate mac static m)
  unfolding deauthenticate
  deauthenticate-IsHandled static state e =
      let sent = send_deauth state e in
      let m' = (send mac (behavior deauthenticated) m).1 in
      let q = process_device_behavior-IsQuiet mac no_behavior static m' in
      rw
        (>>-eq_of_ok (send mac (behavior deauthenticated))
          (modify (process_device_behavior mac no_behavior static)) m sent.succeeds)
        (record {
          succeeds = refl;
          sound = quiet-IsSound m' _ q sent.sound;
          placements = q.placements ∙ sent.placements;
          others = λ k n. ap (Dict.lookup k) q.machines ∙ sent.others k n;
        })

  -- A device without a machine needs no behaviour, nor does one that keeps a static one.
  no_machine-IsSound : Dict.lookup mac m.state_machines ≡ none → IsSound m
  no_machine-IsSound e = whole mac m v λ s f h. absurd (nothing s (sym e ∙ f))
    where
      nothing : (s : DvaState) → none ≡ some s → ⊥
      nothing s f = cc

  static-IsSound : is_static mac m ≡ true → IsSound m
  static-IsSound e = whole mac m v λ s f h. ground arith

  still : IsSound m → IsHandled mac m (ok tt, m)
  still w = record { succeeds = refl; sound = w; placements = refl; others = λ k n. refl }

  unless_static :
      (static : Bool)
      → IsHandled mac m (
          when
            ((static || not (is_static mac m)) && Dict.has mac m.state_machines)
            (deauthenticate mac static)
            m)
  unless_static static = elim (Bool-cases (static || not (is_static mac m))) [
    | inl goes ↦ rw goes (elim (Option-cases (Dict.lookup mac m.state_machines)) [
      | inl e ↦ rw e (still (no_machine-IsSound e))
      | inr (state, e) ↦ rw e (deauthenticate-IsHandled static state e)
    ])
    | inr kept ↦ rw kept (still (static-IsSound (kept_static static (is_static mac m) kept)))
  ]
    where
      kept_static : (a b : Bool) → (a || not b) ≡ false → b ≡ true
      kept_static a b h = ground arith

-- The removal of a behaviour of a device keeps the manager sound, raises nothing, and touches no
-- machine of another device.
pub handle_deauthenticated_device-IsHandled :
    (mac : String) (static : Bool) (m : Manager)
    → IsSound m
    → IsHandled mac m (handle_deauthenticated_device mac static m)
unfolding handle_deauthenticated_device
handle_deauthenticated_device-IsHandled mac true m v =
    let w = unless_static mac (pop_static mac m) (pop_static-IsSoundBut mac m v) true in
    record { succeeds = w.succeeds; sound = w.sound; placements = w.placements; others = w.others }
handle_deauthenticated_device-IsHandled mac false m v =
    let w = unless_static mac (pop_dynamic mac m) (pop_dynamic-IsSoundBut mac m v) false in
    record { succeeds = w.succeeds; sound = w.sound; placements = w.placements; others = w.others }
