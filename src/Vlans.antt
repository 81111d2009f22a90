-- ===== src/Vlans.antt =====
-- The choice of VLANs in `Faucetizer` of forch/faucetizer.py: `_calculate_available_tesing_vlans`,
-- `_calculate_vlan_id`, and the loop of `_update_ports_config` over the devices that have a behaviour and
-- a port. `pick` is which element `set.pop` takes, by its place.
pub mod Sets
pub mod Distinct
mod Tests
use forch.Base.{
  ℕ, zero, suc, ◌+◌, String, Bool, true, false, not, ◌&&◌, ◌||◌, Option, none, some, List, [], ◌∷◌,
  truthy, contains, string_eq, nat_eq, ◌==◌, if◌then◌else◌,
}
use forch.Base.Dict
use forch.Base.Dict.{Dict}
use forch.Base.Exec.{Exec, Result, ok, raised, key_error, pure, raise, modify, gets, ◌>>=◌, ◌>>◌}
use forch.Port.State.{is_empty}
use forch.Port.Types.{DeviceBehavior}

pub record Faucetizer : Type 0 where
  pub sequester_segment : String
  pub segments_to_vlans : Dict String ℕ
  pub all_testing_vlans : List ℕ
  pub testing_device_vlans : Dict String ℕ

-- The sets that a round of `_update_ports_config` changes.
pub record Round : Type 0 where
  pub available_testing_vlans : List ℕ
  pub new_testing_device_vlans : Dict String ℕ

-- `vlans - others`
abbrev pub minus : List ℕ → List ℕ → List ℕ
minus [] others = []
minus (v ∷ vlans) others =
    let rest = minus vlans others in if contains others v then rest else v ∷ rest

-- `_calculate_available_tesing_vlans`, where there is a sequester segment
unfoldable pub calculate_available_testing_vlans : Faucetizer → List ℕ
calculate_available_testing_vlans f =
    minus (minus f.all_testing_vlans (Dict.values f.segments_to_vlans))
      (Dict.values f.testing_device_vlans)

-- The element at a place and the others; at the last place, if there are not as many.
abbrev pub pop_at : ℕ → ℕ → List ℕ → ℕ × List ℕ
pop_at k v [] = (v, [])
pop_at zero v vlans = (v, vlans)
pop_at (suc k) v (w ∷ vlans) = let (u, rest) = pop_at k w vlans in (u, v ∷ rest)

-- The VLAN that a device has been given for its test.
abbrev pub kept : String → Faucetizer → Option ℕ
kept mac f = elim (Dict.lookup mac f.testing_device_vlans) [
  | none ↦ none
  | some v ↦ if truthy v then some v else none
]

module _ (pick : List ℕ → ℕ) where
  -- `available_testing_vlans.pop()`, of the set as it is
  abbrev pop_from : List ℕ → Exec Round ℕ
  pop_from [] r = (raised key_error, r)
  pop_from (v ∷ vlans) r =
      let popped = pop_at (pick (v ∷ vlans)) v vlans in
      (ok popped.0, record r { available_testing_vlans = popped.1 })

  -- `self._testing_device_vlans.get(device_mac) or available_testing_vlans.pop()`
  abbrev choose : Option ℕ → Exec Round ℕ
  choose (some v) r = (ok v, r)
  choose none r = pop_from r.available_testing_vlans r

  -- `self._segments_to_vlans[assigned_segment]`, where a segment is assigned
  abbrev assigned_of : String → Faucetizer → Exec Round (Option ℕ)
  assigned_of segment f r =
      if is_empty segment then (ok none, r) else elim (Dict.lookup segment f.segments_to_vlans) [
        | none ↦ (raised key_error, r)
        | some v ↦ (ok (some v), r)
      ]

  abbrev note_vlan : String → ℕ → Round → Round
  note_vlan mac vid r = record r {
    new_testing_device_vlans = Dict.insert mac vid r.new_testing_device_vlans;
  }

  -- The branch of a device whose segment is the one of devices under test, from the VLAN that it
  -- has had.
  abbrev testing_with : String → String → Faucetizer → Option ℕ → Exec Round (Option ℕ × Option ℕ)
  testing_with mac assigned_segment f had = do
    vid ← choose had
    modify (note_vlan mac vid)
    assigned ← assigned_of assigned_segment f
    pure (some vid, assigned)

  unfoldable pub testing_vlan : String → String → Faucetizer → Exec Round (Option ℕ × Option ℕ)
  testing_vlan mac assigned_segment f = testing_with mac assigned_segment f (kept mac f)

  abbrev is_exhausted : List ℕ → Bool
  is_exhausted [] = true
  is_exhausted _ = false

  -- `_calculate_vlan_id`
  unfoldable pub calculate_vlan_id :
      String → DeviceBehavior → Faucetizer → Exec Round (Option ℕ × Option ℕ)
  unfolding testing_vlan
  calculate_vlan_id mac b f r =
      if not (is_empty f.sequester_segment) && b.segment == f.sequester_segment
      then (if not (Dict.has mac f.testing_device_vlans) && is_exhausted r.available_testing_vlans
          then (ok (none, none), r)
          else testing_vlan mac b.assigned_segment f r)
      else (ok (Dict.lookup b.segment f.segments_to_vlans, none), r)

  -- The loop over the devices.
  unfoldable pub place_devices : List (String × DeviceBehavior) → Faucetizer → Exec Round (Unit {0})
  unfolding calculate_vlan_id
  place_devices [] f = pure tt
  place_devices ((mac, b) ∷ devices) f = do _ ← calculate_vlan_id mac b f; place_devices devices f

  abbrev pub start_round : Faucetizer → Round
  start_round f = record {
    available_testing_vlans = calculate_available_testing_vlans f;
    new_testing_device_vlans = [];
  }

  abbrev finish : Faucetizer → Result (Unit {0}) × Round → Result (Unit {0}) × Faucetizer
  finish f (ok _, r) = (ok tt, record f { testing_device_vlans = r.new_testing_device_vlans })
  finish f (raised e, r) = (raised e, f)

  -- A round: `_testing_device_vlans` is replaced at its end, unless it raises.
  unfoldable pub update_ports_config :
      List (String × DeviceBehavior) → Faucetizer → Result (Unit {0}) × Faucetizer
  unfolding place_devices calculate_available_testing_vlans
  update_ports_config devices f = finish f (place_devices devices f (start_round f))
