-- ===== src/Devices/Tests.antt =====
-- A device with a static placement, which is learned at another port.
use forch.Base.{
  ℕ, ◌≡◌, refl, String, true, false, [], ◌∷◌, or_else, lower, string_eq, ◌==◌, if◌then◌else◌,
}
use forch.Base.Dict
use forch.Base.Exec.{ok}
use forch.Port.Types.{DevicePlacement}
use forch.Devices.{Devices, process_device_placement, device_placements}
use forch.Devices.Merged.{now_at, process_device_placement-merged}

abbrev mac : String
mac = "9a:02:57:1e:8f:01"

abbrev at : ℕ → DevicePlacement
at port = record { switch = "t2sw1"; port = port; connected = true }

abbrev devices : Devices
devices = record {
  static_placements = (mac, at 1) ∷ [];
  dynamic_placements = [];
  device_behaviors = [];
}

process_device_placement-merged_example :
    let (r, t) = process_device_placement mac (at 5) false devices in
    (r ≡ ok tt)
    × (Dict.lookup mac (device_placements t) ≡ (
        if mac == lower mac
        then or_else (Dict.lookup mac devices.static_placements) (now_at (at 5))
        else Dict.lookup mac (device_placements devices)))
unfolding Dict.lookup string_eq
process_device_placement-merged_example =
    process_device_placement-merged mac (at 5) false devices mac (refl, tt) refl refl
