-- ===== src/Port/Manager/Sound.antt =====
-- Authentication and deauthentication keep the manager sound.
use forch.Base.{
  ◌≡◌, refl, ◌≢◌, ◌∙◌, ap, String, Bool, true, false, arith, is_some, string_eq, if◌then◌else◌,
}
use forch.Base.Dict
use forch.Base.Exec.{Result, ok}
use forch.Port.Types.{DeviceBehavior}
use forch.Port.State.{Manager}
use forch.Port.Machine.{behavior_of}
use forch.Port.Machine.Send.{IsSound, IsSent, send-IsSent}
use forch.Port.Manager.{put_static, put_dynamic, handle_authenticated_device}

-- What a method that handles one device does: it raises nothing, keeps the manager sound, and
-- touches no machine of another device and no placement.
pub record IsHandled (mac : String) (m : Manager) (r : Result (Unit {0}) × Manager) : Type 0 where
  pub succeeds : r.0 ≡ ok tt
  pub sound : IsSound r.1
  pub placements : r.1.placement_to_mac ≡ m.placement_to_mac
  pub others :
      (k : String) → k ≢ mac → Dict.lookup k r.1.state_machines ≡ Dict.lookup k m.state_machines

-- A write of a behaviour.
abbrev put : Bool → String → DeviceBehavior → Manager → Manager
put static mac b = if static then put_static mac b else put_dynamic mac b

put_served :
    (static : Bool) (mac : String) (b : DeviceBehavior) (m : Manager) (k : String)
    → is_some (behavior_of k m) ≡ true
    → is_some (behavior_of k (put static mac b m)) ≡ true
put_served true mac b m k h = ground (arith, Dict.lookup-insert k mac b m.static_behaviors)
put_served false mac b m k h = ground (arith, Dict.lookup-insert k mac b m.dynamic_behaviors)

put_own :
    (static : Bool) (mac : String) (b : DeviceBehavior) (m : Manager)
    → is_some (behavior_of mac (put static mac b m)) ≡ true
put_own true mac b m = ground (arith, Dict.lookup-insert_self mac b m.static_behaviors)
put_own false mac b m = ground (arith, Dict.lookup-insert_self mac b m.dynamic_behaviors)

pub put-IsSound :
    (static : Bool) (mac : String) (b : DeviceBehavior) (m : Manager)
    → IsSound m
    → IsSound (put static mac b m)
put-IsSound true mac b m v = record {
  served = λ k state e n. put_served true mac b m k (v.served k state e n);
  orderly = v.orderly;
  overwrites = v.overwrites;
  timed = v.timed;
  reporting = v.reporting;
}
put-IsSound false mac b m v = record {
  served = λ k state e n. put_served false mac b m k (v.served k state e n);
  orderly = v.orderly;
  overwrites = v.overwrites;
  timed = v.timed;
  reporting = v.reporting;
}

IsSent-IsHandled :
    (mac : String) (m before : Manager) (r : Result (Unit {0}) × Manager)
    → before.placement_to_mac ≡ m.placement_to_mac
    → before.state_machines ≡ m.state_machines
    → IsSent mac before r
    → IsHandled mac m r
IsSent-IsHandled mac m before r p q sent = record {
  succeeds = sent.succeeds;
  sound = sent.sound;
  placements = sent.placements ∙ p;
  others = λ k n. sent.others k n ∙ ap (Dict.lookup k) q;
}

-- Authentication of a device keeps the manager sound, raises nothing, and touches no machine of
-- another device.
pub handle_authenticated_device-IsHandled :
    (mac : String) (b : DeviceBehavior) (static : Bool) (m : Manager)
    → IsSound m
    → IsHandled mac m (handle_authenticated_device mac b static m)
unfolding handle_authenticated_device
handle_authenticated_device-IsHandled mac b true m v =
    let m' = put_static mac b m in
    IsSent-IsHandled mac m m' _ refl refl
      (send-IsSent mac _ m' (put-IsSound true mac b m v) (λ _. put_own true mac b m))
handle_authenticated_device-IsHandled mac b false m v =
    let m' = put_dynamic mac b m in
    IsSent-IsHandled mac m m' _ refl refl
      (send-IsSent mac _ m' (put-IsSound false mac b m v) (λ _. put_own false mac b m))
