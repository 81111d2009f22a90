-- ===== src/Devices/Merged.antt =====
-- Where a device is, once the static placements have overwritten the dynamic ones.
use forch.Base.{
  ◌≡◌, refl, ◌∙◌, String, Bool, true, false, Option, none, some, [], ◌∷◌, arith, or_else, truthy,
  lower, string_eq, ◌==◌, if◌then◌else◌,
}
use forch.Base.Dict
use forch.Base.Dict.{Dict, NodupKeys}
use forch.Base.Exec.{ok}
use forch.Port.State.{is_empty}
use forch.Port.Types.{DevicePlacement}
use forch.Devices.{Devices, placed, process_device_placement, merged, device_placements}

lookup-merged :
    (mac : String) (dynamic static : Dict String DevicePlacement)
    → NodupKeys static
    → Dict.lookup mac (merged dynamic static)
      ≡ or_else (Dict.lookup mac static) (Dict.lookup mac dynamic)
unfolding merged
lookup-merged mac dynamic [] u = rw Dict.lookup-nil
lookup-merged mac dynamic ((k, p) ∷ static) u = ground (
  arith,
  Dict.lookup-cons mac k p static,
  Dict.lookup-insert mac k p dynamic,
  lookup-merged mac (Dict.insert k p dynamic) static u.1,
)

-- The static placement of a device is the one that counts; without one, the dynamic one does.
lookup-device_placements :
    (mac : String) (s : Devices)
    → NodupKeys s.static_placements
    → Dict.lookup mac (device_placements s)
      ≡ or_else (Dict.lookup mac s.static_placements) (Dict.lookup mac s.dynamic_placements)
unfolding device_placements
lookup-device_placements mac s u = lookup-merged mac s.dynamic_placements s.static_placements u

erase-NodupKeys :
    (mac : String) (d : Dict String DevicePlacement) → NodupKeys d → NodupKeys (Dict.erase mac d)
unfolding Dict.erase
erase-NodupKeys mac [] u = tt
erase-NodupKeys mac ((k, p) ∷ d) u =
    kept (mac == k) (erase-NodupKeys mac d u.1) (Dict.lookup-erase k mac d)
  where
    absent : (b : Bool) → (if b then none else Dict.lookup k d) ≡ none
    absent true = refl
    absent false = u.0

    kept :
        (b : Bool)
        → NodupKeys (Dict.erase mac d)
        → Dict.lookup k (Dict.erase mac d) ≡ (if k == mac then none else Dict.lookup k d)
        → NodupKeys (if b then Dict.erase mac d else (k, p) ∷ Dict.erase mac d)
    kept true v e = v
    kept false v e = (e ∙ absent (k == mac), v)

placed-NodupKeys :
    (mac : String) (p : DevicePlacement) (d : Dict String DevicePlacement)
    → NodupKeys d
    → NodupKeys (placed mac p d)
placed-NodupKeys mac p d u = cases p.connected
  where
    cases : (b : Bool) → NodupKeys (if b then Dict.insert mac p d else Dict.erase mac d)
    cases true = Dict.insert-NodupKeys mac p d u
    cases false = erase-NodupKeys mac d u

-- Where a placement says that its device is.
abbrev pub now_at : DevicePlacement → Option DevicePlacement
now_at p = if p.connected then some p else none

lookup-placed :
    (k mac : String) (p : DevicePlacement) (d : Dict String DevicePlacement)
    → Dict.lookup k (placed mac p d) ≡ (if k == mac then now_at p else Dict.lookup k d)
lookup-placed k mac p d = ground (arith, Dict.lookup-insert k mac p d, Dict.lookup-erase k mac d)

-- After a placement with a switch and a port, the place of the device is its static one, or its dynamic
-- one if it has no static one, where the kind that the placement is of has the new place, or none if the device is
-- disconnected; every other device is where it was.
pub process_device_placement-merged :
    (eth_src : String) (p : DevicePlacement) (static : Bool) (s : Devices) (k : String)
    → NodupKeys s.static_placements
    → is_empty p.switch ≡ false
    → truthy p.port ≡ true
    → let there = Dict.lookup k s.static_placements in
      let here = Dict.lookup k s.dynamic_placements in
      let (r, t) = process_device_placement eth_src p static s in
      (r ≡ ok tt)
      × (Dict.lookup k (device_placements t) ≡ (
          if k == lower eth_src
          then (if static then or_else (now_at p) here else or_else there (now_at p))
          else Dict.lookup k (device_placements s)))
unfolding process_device_placement
process_device_placement-merged eth_src p true s k u full port =
    let mac = lower eth_src in
    let t : Devices = record s { static_placements = placed mac p s.static_placements } in
    ground (
      arith,
      full,
      port,
      lookup-device_placements k s u,
      lookup-device_placements k t (placed-NodupKeys mac p s.static_placements u),
      lookup-placed k mac p s.static_placements,
    )
process_device_placement-merged eth_src p false s k u full port =
    let mac = lower eth_src in
    let t : Devices = record s { dynamic_placements = placed mac p s.dynamic_placements } in
    ground (
      arith,
      full,
      port,
      lookup-device_placements k s u,
      lookup-device_placements k t u,
      lookup-placed k mac p s.dynamic_placements,
    )
