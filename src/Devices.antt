-- ===== src/Devices.antt =====
-- The devices of `Faucetizer` of forch/faucetizer.py: where they are and how they behave. What is
-- written out, `flush_behavioral_config`, is not recorded.
pub mod Merged
mod Tests
use forch.Base.{
  ℕ, String, Bool, true, false, not, ◌&&◌, ◌||◌, Option, none, some, List, [], ◌∷◌, truthy, lower,
  string_eq, ◌==◌, if◌then◌else◌,
}
use forch.Base.Dict
use forch.Base.Dict.{Dict}
use forch.Base.Exec.{Exec, ok, raised, plain_exception}
use forch.Port.State.{is_empty}
use forch.Port.Types.{DeviceBehavior, DevicePlacement}

pub record Devices : Type 0 where
  pub static_placements : Dict String DevicePlacement
  pub dynamic_placements : Dict String DevicePlacement
  pub device_behaviors : Dict String (Bool × DeviceBehavior)

-- `device_placements[eth_src] = placement`, or its removal
abbrev pub placed :
    String → DevicePlacement → Dict String DevicePlacement → Dict String DevicePlacement
placed mac p d = if p.connected then Dict.insert mac p d else Dict.erase mac d

-- `process_device_placement`
unfoldable pub process_device_placement : String → DevicePlacement → Bool → Exec Devices (Unit {0})
process_device_placement eth_src p static s =
    if is_empty p.switch || not (truthy p.port) then (raised plain_exception, s) else (
      ok tt,
      if static
          then record s { static_placements = placed (lower eth_src) p s.static_placements }
          else record s { dynamic_placements = placed (lower eth_src) p s.dynamic_placements },
    )

-- `process_device_behavior`: a behaviour with the type of the device, static or dynamic
unfoldable pub process_device_behavior : String → DeviceBehavior → Bool → Devices → Devices
process_device_behavior eth_src b static s = record s {
  device_behaviors =
      if is_empty b.segment
      then Dict.erase (lower eth_src) s.device_behaviors
      else Dict.insert (lower eth_src) (static, b) s.device_behaviors;
}

-- `clear_static_placement`
unfoldable pub clear_static_placement : String → Devices → Devices
clear_static_placement mac s = record s {
  static_placements = Dict.erase (lower mac) s.static_placements;
}

-- `{**dynamic, **static}`
unfoldable pub merged :
    Dict String DevicePlacement → Dict String DevicePlacement → Dict String DevicePlacement
merged dynamic [] = dynamic
merged dynamic ((mac, p) ∷ static) = merged (Dict.insert mac p dynamic) static

-- `device_placements` of `_update_ports_config`
unfoldable pub device_placements : Devices → Dict String DevicePlacement
unfolding merged
device_placements s = merged s.dynamic_placements s.static_placements
