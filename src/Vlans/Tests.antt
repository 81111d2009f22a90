-- ===== src/Vlans/Tests.antt =====
-- Two devices under test, with two VLANs for tests. One of the devices has a VLAN already.
use forch.Base.{ℕ, ◌≡◌, refl, String, List, [], ◌∷◌, string_eq, nat_eq, arith}
use forch.Base.Dict
use forch.Base.Exec.{ok}
use forch.Port.Types.{DeviceBehavior, no_behavior}
use forch.Vlans.{Faucetizer, update_ports_config}
use forch.Vlans.Sets.{NoDup, IsInjective}
use forch.Vlans.Distinct.{update_ports_config-IsInjective}

abbrev faucetizer : Faucetizer
faucetizer = record {
  sequester_segment = "TESTING";
  segments_to_vlans = ("SEG_A", 200) ∷ [];
  all_testing_vlans = 272 ∷ 273 ∷ [];
  testing_device_vlans = ("9a:02:57:1e:8f:01", 272) ∷ [];
}

abbrev testing : DeviceBehavior
testing = record no_behavior { segment = "TESTING"; assigned_segment = "SEG_A" }

abbrev devices : List (String × DeviceBehavior)
devices = ("9a:02:57:1e:8f:02", testing) ∷ ("9a:02:57:1e:8f:01", testing) ∷ []

abbrev first : List ℕ → ℕ
first vlans = 0

placed : (update_ports_config first devices faucetizer).0 ≡ ok tt
unfolding update_ports_config Dict.lookup Dict.values Dict.insert string_eq nat_eq
placed = refl

vlans-NoDup : NoDup (272 ∷ 273 ∷ [])
vlans-NoDup = ground arith

one_device : IsInjective faucetizer.testing_device_vlans
unfolding Dict.lookup
one_device m k v e g = ground arith

update_ports_config-IsInjective_example :
    IsInjective (update_ports_config first devices faucetizer).1.testing_device_vlans
update_ports_config-IsInjective_example =
    update_ports_config-IsInjective first devices faucetizer vlans-NoDup one_device
