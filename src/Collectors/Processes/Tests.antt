-- ===== src/Collectors/Processes/Tests.antt =====
-- A collector at concrete inputs.
use forch.Base.{ℕ, String, ◌≡◌, refl, none, some, [], ◌∷◌, arith, string_eq, nat_eq, option_eq}
use forch.Base.Dict
use forch.Base.Dict.{Dict}
use forch.Collectors.States.{state_eq}
use forch.Collectors.Processes.{
  max_create_time, Process, Target, Info, Collector, Found, create, extract_process_state,
  old_count, check_process_info,
}
use forch.Collectors.Processes.Scans.{
  IsScanned, check_process_info-IsScanned, restarts_are_forgotten,
}

abbrev process : ℕ → Process
process time = record { cmd_line = "faucet"; create_time = time; cpu_percent = 7 }

abbrev one : Target
one = record { count = 0; cpu_percent_threshold = 50 }

abbrev collector : Collector
collector = create (("faucet", one) ∷ ("gauge", one) ∷ [])

abbrev scan : Dict String Found
scan = ("faucet", record { procs = process 4 ∷ []; exception = none }) ∷ []

scan_lem :
    (check_process_info 9 scan collector).state_detail ≡ some "Processes in broken state: gauge"
unfolding check_process_info Dict.lookup string_eq nat_eq option_eq state_eq
scan_lem = refl

check_process_info-IsScanned_example :
    IsScanned scan collector (check_process_info 9 scan collector)
check_process_info-IsScanned_example = check_process_info-IsScanned 9 scan collector

abbrev info : Info
info = record {
  cmd_line = "faucet";
  create_time = 4;
  create_time_last_update = 8;
  create_time_change_count = some 12;
  create_time_last_change = some 8;
}

abbrev at : ℕ → Found
at time = record { procs = process time ∷ []; exception = none }

restarts_are_forgotten_example :
    (old_count (extract_process_state 9 one (some info) (at 4)).0 ≡ 0)
    × (old_count
          (extract_process_state 10 one (extract_process_state 9 one (some info) (at 4)).0 (at 5)).0
        ≡ 1)
unfolding max_create_time
restarts_are_forgotten_example =
    restarts_are_forgotten 9 10 one info (process 4) (process 5) [] [] refl refl refl
      (λ e. omega (arith, e))
