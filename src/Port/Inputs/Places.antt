-- ===== src/Port/Inputs/Places.antt =====
-- Placements, and the removal of static behaviours.
use forch.Base.{
  ℕ, ◌≡◌, refl, ◌≢◌, ◌∙◌, sym, ap, ◌⊎◌, inl, inr, String, Bool, true, false, not, Option, none,
  some, List, [], ◌∷◌, arith, is_some, or_else, string_eq, pair_eq, nat_eq, Option-cases, lower,
}
use forch.Base.Dict
use forch.Base.Exec.{modify}
use forch.Port.Types.{
  DvaState, initial, unauthenticated, sequestered, infracted, Event, behavior, deauthenticated,
  cleared, sequester, DeviceBehavior, DevicePlacement,
}
use forch.Port.Table.{Table, get, merge}
use forch.Port.Table.Merge.{get-merge}
use forch.Port.State.{
  Manager, present, process_device_placement, update_device_state_varz, update_static_vlan_varz,
}
use forch.Port.Machine.{create_machine, behavior_of}
use forch.Port.Machine.Quiet.{IsKept, needs}
use forch.Port.Machine.Send.{IsOrderly, IsOverwrite, is_auth, is_result}
use forch.Port.Manager.{handle_disconnected_device, disconnected}
use forch.Port.Manager.Gone.{handle_deauthenticated_device-IsHandled}
use forch.Port.Placement.{
  clear_static_device_behavior, clear_each, clear_static_device_behaviors, resume, add_machine,
  clean_stale, learn, note_placement, handle_learned_device, handle_device_placement,
}
use forch.Port.Inputs.Safe.{
  Safe, >>=-Safe, >>-Safe, pure-Safe, gets-Safe, modify-Safe, when-Safe, if-Safe, IsHandled-IsFine,
}
use forch.Port.Inputs.Steps.{handle_device_behavior-Safe}

module _ (t o : Table) (orderly : IsOrderly t) (over : IsOverwrite o) where
  not_result :
      (state : DvaState) (event : Event) → is_result event ≡ false → get o state event ≡ none
  not_result state event n = elim (Option-cases (get o state event)) [
    | inl e ↦ e
    | inr (next, e) ↦ cc (n, (over.results state event next e).1)
  ]

  not_sequestered :
      (state : DvaState) (event : Event) → state ≢ sequestered → get o state event ≡ none
  not_sequestered state event n = elim (Option-cases (get o state event)) [
    | inl e ↦ e
    | inr (next, e) ↦ absurd (n (over.results state event next e).0)
  ]

  merge_earned :
      (state : DvaState) (event : Event) (next : DvaState)
      → get (merge t o) state event ≡ some next
      → needs next ≡ true
      → (needs state ≡ true) ⊎ (is_auth event ≡ true)
  merge_earned state event next e n = elim (Option-cases (get o state event)) [
    | inl f ↦
        orderly.earned state event next
          (sym (get-merge o t state event over.nodup ∙ ap (λ x. or_else x (get t state event)) f)
            ∙ e)
          n
    | inr (other, f) ↦ inl (ap needs (over.results state event other f).0)
  ]

  -- A merge of overwrites keeps the table in order.
  pub merge-IsOrderly : IsOrderly (merge t o)
  merge-IsOrderly = record {
    freed = λ state n.
        rw (get-merge o t state (behavior deauthenticated) over.nodup)
          (rw (not_result state (behavior deauthenticated) refl) (orderly.freed state n));
    earned = merge_earned;
    jailed = λ event.
        rw (get-merge o t infracted event over.nodup)
          (rw (not_sequestered infracted event (λ e. cc)) (orderly.jailed event));
    clears =
        rw (get-merge o t unauthenticated (behavior cleared) over.nodup)
          (rw (not_result unauthenticated (behavior cleared) refl) orderly.clears);
    confines =
        rw (get-merge o t unauthenticated (behavior sequester) over.nodup)
          (rw (not_result unauthenticated (behavior sequester) refl) orderly.confines);
  }

merged-Safe : Safe (modify (λ m. record m { transitions = merge m.transitions m.state_overwrites }))
merged-Safe m v = record {
  value = (tt, refl);
  sound = record {
    served = v.served;
    orderly = merge-IsOrderly m.transitions m.state_overwrites v.orderly v.overwrites;
    overwrites = v.overwrites;
    timed = v.timed;
    reporting = v.reporting;
  };
}

new_machine-Safe :
    (mac : String)
    → Safe (
        modify
          (λ m. record m { state_machines = Dict.insert mac unauthenticated m.state_machines }))
new_machine-Safe mac m v = record {
  value = (tt, refl);
  sound = record {
    served =
        Dict.Each-insert (λ k s. needs s ≡ true → is_some (behavior_of k m) ≡ true) mac
          unauthenticated m.state_machines (λ n. cc) v.served;
    orderly = v.orderly;
    overwrites = v.overwrites;
    timed = v.timed;
    reporting = v.reporting;
  };
}

lost_machine-Safe :
    (mac : String)
    → Safe (modify (λ m. record m { state_machines = Dict.erase mac m.state_machines }))
lost_machine-Safe mac m v = record {
  value = (tt, refl);
  sound = record {
    served =
        Dict.Each-erase (λ k s. needs s ≡ true → is_some (behavior_of k m) ≡ true) mac
          m.state_machines v.served;
    orderly = v.orderly;
    overwrites = v.overwrites;
    timed = v.timed;
    reporting = v.reporting;
  };
}

update_device_state_varz-IsKept :
    (mac : String) (state : DvaState) (m : Manager)
    → IsKept m (update_device_state_varz mac state m)
unfolding update_device_state_varz
update_device_state_varz-IsKept mac state m = ground arith

update_static_vlan_varz-IsKept :
    (mac : String) (vlan : ℕ) (m : Manager) → IsKept m (update_static_vlan_varz mac vlan m)
unfolding update_static_vlan_varz
update_static_vlan_varz-IsKept mac vlan m = ground arith

process_device_placement-IsKept :
    (mac : String) (p : DevicePlacement) (static : Bool) (m : Manager)
    → IsKept m (process_device_placement mac p static m)
unfolding process_device_placement
process_device_placement-IsKept mac p static m = ground arith

create_machine-Safe : (mac : String) → Safe (create_machine mac)
unfolding create_machine
create_machine-Safe mac = >>-Safe _ _ merged-Safe (
    >>-Safe _ _ (modify-Safe _ (update_device_state_varz-IsKept mac unauthenticated))
      (new_machine-Safe mac))

pub clear_static_device_behavior-Safe : (mac : String) → Safe (clear_static_device_behavior mac)
unfolding clear_static_device_behavior
clear_static_device_behavior-Safe mac = >>=-Safe _ _ (gets-Safe _) λ known. when-Safe known _ (
    >>-Safe _ _ (modify-Safe _ (update_static_vlan_varz-IsKept (lower mac) 0)) λ m v.
      IsHandled-IsFine (lower mac) m _
        (handle_deauthenticated_device-IsHandled (lower mac) true m v))

clear_each-Safe : (macs : List String) → Safe (clear_each macs)
unfolding clear_each
clear_each-Safe [] = pure-Safe tt
clear_each-Safe (mac ∷ macs) =
    >>-Safe _ _ (clear_static_device_behavior-Safe mac) (clear_each-Safe macs)

pub clear_static_device_behaviors-Safe : Safe clear_static_device_behaviors
unfolding clear_static_device_behaviors
clear_static_device_behaviors-Safe m v = clear_each-Safe (Dict.keys m.static_behaviors) m v

note_placement-IsKept :
    (key : String × ℕ) (mac : String) (m : Manager) → IsKept m (note_placement key mac m)
unfolding note_placement
note_placement-IsKept key mac m = ground arith

disconnected-Safe : (mac : Option String) (p : DevicePlacement) → Safe (disconnected mac p)
unfolding disconnected
disconnected-Safe none p = pure-Safe _
disconnected-Safe (some mac) p =
    >>-Safe _ _ (modify-Safe _ (process_device_placement-IsKept mac p false)) (
      >>-Safe _ _ (lost_machine-Safe mac)
        (>>-Safe _ _ (modify-Safe _ (update_device_state_varz-IsKept mac initial)) (pure-Safe _)))

handle_disconnected_device-Safe : (p : DevicePlacement) → Safe (handle_disconnected_device p)
unfolding handle_disconnected_device
handle_disconnected_device-Safe p m v =
    let key : String × ℕ = (p.switch, p.port) in
    disconnected-Safe (present (Dict.lookup key m.placement_to_mac)) p _
      (modify-Safe (λ s. record s { placement_to_mac = Dict.erase key s.placement_to_mac })
        (λ s. ground arith) m v).sound

clean_stale-Safe : (mac : Option String) (p : DevicePlacement) → Safe (clean_stale mac p)
unfolding clean_stale
clean_stale-Safe none p = pure-Safe tt
clean_stale-Safe (some old) p = >>=-Safe _ _ (handle_disconnected_device-Safe _) (λ _. pure-Safe tt)

module _ (vlan_of : String → Option ℕ) where
  resume-Safe : (mac : String) (b : Option DeviceBehavior) → Safe (resume vlan_of mac b)
  unfolding resume
  resume-Safe mac none = pure-Safe tt
  resume-Safe mac (some b) =
      >>=-Safe _ _ (gets-Safe _) λ static. handle_device_behavior-Safe vlan_of mac b static

  add_machine-Safe : (mac : String) → Safe (add_machine vlan_of mac)
  unfolding add_machine
  add_machine-Safe mac =
      >>-Safe _ _ (create_machine-Safe mac)
        (>>=-Safe _ _ (gets-Safe (behavior_of mac)) (resume-Safe mac))

  learn-Safe :
      (stale : Option String) (mac : String) (p : DevicePlacement) (static : Bool)
      → Safe (learn vlan_of stale mac p static)
  unfolding learn
  learn-Safe stale mac p static = >>-Safe _ _ (clean_stale-Safe stale p) (
      >>-Safe _ _ (modify-Safe _ (note_placement-IsKept (p.switch, p.port) mac)) (
        >>-Safe _ _ (modify-Safe _ (process_device_placement-IsKept mac p static)) (
          >>=-Safe _ _ (gets-Safe (λ m. Dict.has mac m.state_machines)) λ known.
            >>-Safe _ _ (when-Safe (not known) _ (add_machine-Safe mac))
              (pure-Safe (true, none, stale)))))

  handle_learned_device-Safe :
      (mac : String) (p : DevicePlacement) (static : Bool)
      → Safe (handle_learned_device vlan_of mac p static)
  unfolding handle_learned_device
  handle_learned_device-Safe mac p static m v = learn-Safe _ mac p static m v

  pub handle_device_placement-Safe :
      (mac : String) (p : DevicePlacement) (static : Bool)
      → Safe (handle_device_placement vlan_of mac p static)
  unfolding handle_device_placement
  handle_device_placement-Safe mac p static =
      if-Safe p.connected _ _ (handle_learned_device-Safe (lower mac) p static)
        (handle_disconnected_device-Safe p)
