-- ===== src/Hosts/Sound/Events.antt =====
-- Every event keeps the two tables of hosts and switches sound.
use forch.Base.{Option, string_eq, nat_eq, option_eq, bool_eq}
use forch.Base.Dict
use forch.Base.Dict.{Dict}
use forch.Base.Exec.{Exec, pure}
use forch.Base.Exec
use forch.Hosts
use forch.Hosts.{update_learned_macs_metric}
use forch.Hosts.Sound
use forch.Hosts.Sound.{IsSound, Sound}
