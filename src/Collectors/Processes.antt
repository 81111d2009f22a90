-- ===== src/Collectors/Processes.antt =====
-- The processes in `LocalStateCollector` of forch/local_state_collector.py. The processes that match a
-- target are an input; of what is taken from a process, the averages of times and memory are left
-- out. The text of the detail
-- of a process is given by its kind and by what it names. Calls of the metrics are
-- recorded in `out`.
pub mod Scans
mod Tests
use forch.Base.{
  ℕ, zero, suc, ◌+◌, ◌*◌, ◌<>◌, String, Bool, true, false, not, ◌&&◌, ◌||◌, Option, none, some,
  List, [], ◌∷◌, ◌++◌, length, ltb, leb, truthy, or_default, string_eq, nat_eq, list_eq, option_eq,
  ◌==◌, if◌then◌else◌,
}
use forch.Base.Dict
use forch.Base.Dict.{Dict}
use forch.Collectors.Cpn.{join}
use forch.Collectors.States.{State, broken, healthy, state_eq}

pub record Process : Type 0 where
  pub cmd_line : String
  pub create_time : ℕ
  pub cpu_percent : ℕ

-- `config.processes[name]`, but for the expression that selects the processes
pub record Target : Type 0 where
  pub count : ℕ
  pub cpu_percent_threshold : ℕ

-- The three texts: a number of processes that is not the target's, an exception, and a threshold
pub data Detail : Type 0 where
  mismatch : ℕ → ℕ → Detail
  extracting : String → Detail
  cpu_usage : ℕ → Detail

-- `proc_map`
pub record Info : Type 0 where
  pub cmd_line : String
  pub create_time : ℕ
  pub create_time_last_update : ℕ
  pub create_time_change_count : Option ℕ
  pub create_time_last_change : Option ℕ

-- The state of a process. A broken one has no information.
pub record Entry : Type 0 where
  pub state : State
  pub detail : Option Detail
  pub info : Option Info

pub data Call : Type 0 where
  process_state : String → Bool → Call

pub record Collector : Type 0 where
  pub target_procs : Dict String Target
  pub processes : Dict String Entry
  pub last_error : Dict String Detail
  pub process_state : Option State
  pub state_detail : Option String
  pub change_count : ℕ
  pub last_change : Option ℕ
  pub last_update : Option ℕ
  pub out : List Call

abbrev pub create : Dict String Target → Collector
create targets = record {
  target_procs = targets;
  processes = [];
  last_error = [];
  process_state = none;
  state_detail = none;
  change_count = 0;
  last_change = none;
  last_update = none;
  out = [];
}

-- What a scan finds for a target: the processes, and the exception that reading them raises, if any
pub record Found : Type 0 where
  pub procs : List Process
  pub exception : Option String

abbrev pub found_of : String → Dict String Found → Found
found_of name scan = elim (Dict.lookup name scan) [
  | none ↦ record { procs = []; exception = none }
  | some found ↦ found
]

-- `' '.join(cmdline)` of the only process, or `multiple`
abbrev pub cmd_line_of : Process → List Process → String
cmd_line_of p [] = p.cmd_line
cmd_line_of p (_ ∷ _) = "multiple"

unfoldable pub max_create_time : Process → List Process → ℕ
max_create_time p [] = p.create_time
max_create_time p (q ∷ procs) =
    let m = max_create_time q procs in if leb m p.create_time then p.create_time else m

abbrev pub total_cpu : List Process → ℕ
total_cpu [] = 0
total_cpu (p ∷ procs) = p.cpu_percent + total_cpu procs

-- The information of the last scan
abbrev pub old_info : String → Dict String Entry → Option Info
old_info name processes = elim (Dict.lookup name processes) [ none ↦ none | some e ↦ e.info ]

abbrev pub old_count : Option Info → ℕ
old_count none = 0
old_count (some info) = elim info.create_time_change_count [ none ↦ 0 | some n ↦ n ]

abbrev pub is_restart : ℕ → Option Info → Bool
is_restart time none = true
is_restart time (some info) = not (time == info.create_time)

-- `proc_map`, for a first process and the others
abbrev pub info_of : ℕ → Option Info → Process → List Process → Info
info_of now old p procs =
    let time = max_create_time p procs in
    let restart = is_restart time old in
    record {
      cmd_line = cmd_line_of p procs;
      create_time = time;
      create_time_last_update = now;
      create_time_change_count = if restart then some (old_count old + 1) else none;
      create_time_last_change = if restart then some now else none;
    }

-- The detail for the average of the CPU usage: `total / n > threshold`
abbrev pub cpu_detail : ℕ → List Process → Option Detail
cpu_detail threshold procs =
    if truthy threshold && ltb (threshold * length procs) (total_cpu procs)
    then some (cpu_usage threshold)
    else none

-- `_extract_process_state`, with `count or 1`
unfoldable pub extract_process_state :
    ℕ → Target → Option Info → Found → Option Info × Option Detail
unfolding max_create_time
extract_process_state now target old found =
    let count = or_default target.count 1 in
    elim found.procs [
      | [] ↦ (none, some (mismatch 0 count))
      | p ∷ procs ↦
          if not (length (p ∷ procs) == count)
          then (none, some (mismatch (length (p ∷ procs)) count))
          else elim found.exception as (λ _. Option Info × Option Detail) [
            | some text ↦ (none, some (extracting text))
            | none ↦ (
              some (info_of now old p procs),
              cpu_detail target.cpu_percent_threshold (p ∷ procs),
            )
          ]
    ]

-- A target in the loop of `_check_process_info`: its entry, and what the scan has so far
abbrev pub entry_of : Option Info × Option Detail → Entry
entry_of (none, detail) = record { state = broken; detail = detail; info = none }
entry_of (some info, detail) = record { state = healthy; detail = detail; info = some info }

abbrev pub is_up : Entry → Bool
is_up e = e.state == healthy

abbrev pub noted_error : String → Entry → Dict String Detail → Dict String Detail
noted_error name e errors =
    if is_up e then Dict.erase name errors else elim e.detail as (λ _. Dict String Detail) [
      | none ↦ errors
      | some detail ↦ Dict.insert name detail errors
    ]

-- The loop of `_check_process_info`: the new map, and the names of the broken processes
unfoldable pub check_targets :
    ℕ
    → Dict String Found
    → Dict String Target
    → Collector
    → (Dict String Entry × List String) × Collector
unfolding extract_process_state
check_targets now scan [] c = (([], []), c)
check_targets now scan ((name, target) ∷ targets) c =
    let e =
      entry_of
        (extract_process_state now target (old_info name c.processes) (found_of name scan)) in
    let d = record c {
      last_error = noted_error name e c.last_error;
      out = c.out ++ (process_state name (is_up e) ∷ []);
    } in
    let (found, d') = check_targets now scan targets d in
    (((name, e) ∷ found.0, if is_up e then found.1 else name ∷ found.1), d')

abbrev pub state_of : List String → State
state_of [] = healthy
state_of (_ ∷ _) = broken

abbrev pub detail_of : List String → String
detail_of [] = ""
detail_of (name ∷ names) = "Processes in broken state: " <> join (name ∷ names)

-- The state of all processes, if it or its detail is new
unfoldable pub note_process_state : ℕ → State → String → Collector → Collector
note_process_state now state detail c =
    if some state == c.process_state && some detail == c.state_detail then c else record c {
      process_state = some state;
      state_detail = some detail;
      change_count = c.change_count + 1;
      last_change = some now;
    }

-- `_check_process_info`
unfoldable pub check_process_info : ℕ → Dict String Found → Collector → Collector
unfolding check_targets note_process_state
check_process_info now scan c =
    let (found, d) = check_targets now scan c.target_procs c in
    let (processes, names) = found in
    note_process_state now (state_of names) (detail_of names)
      (record d { processes = processes; last_update = some now })
