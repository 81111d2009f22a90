-- ===== src/Collectors/Processes/Scans.antt =====
-- The state of the processes after a scan.
use forch.Base.{
  ℕ, zero, suc, ◌+◌, ◌≡◌, refl, sym, ◌∙◌, ap, ◌≢◌, String, Bool, true, false, not, ◌&&◌, Option,
  none, some, List, [], ◌∷◌, arith, length, or_default, is_some, string_eq, nat_eq, option_eq, ◌==◌,
  if◌then◌else◌,
}
use mathlib.Core.Path.{ap₂}
use forch.Base.Dict
use forch.Base.Dict.{Dict}
use forch.Collectors.States.{State, broken, healthy, state_eq}
use forch.Collectors.Processes.{
  Process, Target, Detail, Info, Collector, Found, found_of, max_create_time, old_info, info_of,
  extract_process_state, entry_of, is_up, check_targets, state_of, detail_of, note_process_state,
  old_count, check_process_info,
}

-- A target is met: by as many processes as it wants, which could be read.
abbrev pub is_met : Target → Found → Bool
is_met target found =
    length found.procs == or_default target.count 1 && not (is_some found.exception)

abbrev pub unmet : Dict String Found → Dict String Target → List String
unmet scan [] = []
unmet scan ((name, target) ∷ targets) =
    let rest = unmet scan targets in
    if is_met target (found_of name scan) then rest else name ∷ rest

down_test : (broken == healthy) ≡ false
down_test = ground arith

up_test : (healthy == healthy) ≡ true
up_test = ground arith

counted :
    (b : Bool) (d : Option Detail) (r : Option Info × Option Detail) (c : Bool)
    → is_up (entry_of r) ≡ c
    → is_up (entry_of (if not b then (none, d) else r)) ≡ (b && c)
counted true d r c h = h
counted false d r c h = down_test

empty-count : (count : ℕ) → (0 == or_default count 1) ≡ false
empty-count zero = ground arith
empty-count (suc count) = ground arith

extract-is_met :
    (now : ℕ) (target : Target) (old : Option Info) (procs : List Process)
    (exception : Option String)
    → let found : Found = record { procs = procs; exception = exception } in
      is_up (entry_of (extract_process_state now target old found)) ≡ is_met target found
unfolding extract_process_state
extract-is_met now target old [] exception =
    down_test ∙ sym (ap (λ b. b && not (is_some exception)) (empty-count target.count))
extract-is_met now target old (p ∷ procs) none =
    counted (length (p ∷ procs) == or_default target.count 1) _ _ true up_test
extract-is_met now target old (p ∷ procs) (some text) =
    counted (length (p ∷ procs) == or_default target.count 1) _ _ false down_test

check_targets-unmet :
    (now : ℕ) (scan : Dict String Found) (targets : Dict String Target) (c : Collector)
    → (check_targets now scan targets c).0.1 ≡ unmet scan targets
unfolding check_targets
check_targets-unmet now scan [] c = refl
check_targets-unmet now scan ((name, target) ∷ targets) c =
    let found = found_of name scan in
    ap₂ (λ (b : Bool) (rest : List String). if b then rest else name ∷ rest)
      (extract-is_met now target (old_info name c.processes) found.procs found.exception)
      (check_targets-unmet now scan targets _)

check_targets-keys :
    (now : ℕ) (scan : Dict String Found) (targets : Dict String Target) (c : Collector)
    → Dict.keys (check_targets now scan targets c).0.0 ≡ Dict.keys targets
unfolding check_targets Dict.keys
check_targets-keys now scan [] c = refl
check_targets-keys now scan ((name, target) ∷ targets) c =
    ap (λ names. name ∷ names) (check_targets-keys now scan targets _)

check_targets-same :
    (now : ℕ) (scan : Dict String Found) (targets : Dict String Target) (c : Collector)
    → let d = (check_targets now scan targets c).1 in
      (d.process_state ≡ c.process_state)
      × (d.state_detail ≡ c.state_detail)
      × (d.change_count ≡ c.change_count)
unfolding check_targets
check_targets-same now scan [] c = (refl, refl, refl)
check_targets-same now scan ((name, target) ∷ targets) c = check_targets-same now scan targets _

-- What a scan leaves
pub record IsScanned (scan : Dict String Found) (c d : Collector) : Type 0 where
  pub listed : Dict.keys d.processes ≡ Dict.keys c.target_procs
  pub state : d.process_state ≡ some (state_of (unmet scan c.target_procs))
  pub detail : d.state_detail ≡ some (detail_of (unmet scan c.target_procs))
  pub count : d.change_count ≡ (
      if some (state_of (unmet scan c.target_procs)) == c.process_state
        && some (detail_of (unmet scan c.target_procs)) == c.state_detail
      then c.change_count
      else c.change_count + 1)

note_process_state-IsNoted :
    (now : ℕ) (state : State) (detail : String) (c : Collector)
    → let d = note_process_state now state detail c in
      (d.processes ≡ c.processes)
      × (d.process_state ≡ some state)
      × (d.state_detail ≡ some detail)
      × (d.change_count ≡ (
          if some state == c.process_state && some detail == c.state_detail
          then c.change_count
          else c.change_count + 1))
unfolding note_process_state
note_process_state-IsNoted now state detail c = ground arith

-- After a scan there is an entry for each target, in their order. The state of the processes is
-- healthy if every target is met, by as many processes as it wants (one if it names no number)
-- which could be read, and broken otherwise, with a detail that names the targets that are not met.
-- The count of changes is one more if the state or the detail is not the one before.
pub check_process_info-IsScanned :
    (now : ℕ) (scan : Dict String Found) (c : Collector)
    → IsScanned scan c (check_process_info now scan c)
unfolding check_process_info
check_process_info-IsScanned now scan c =
    let (found, d) = check_targets now scan c.target_procs c in
    let (processes, names) = found in
    let new = record d { processes = processes; last_update = some now } in
    let n = note_process_state-IsNoted now (state_of names) (detail_of names) new in
    let u = check_targets-unmet now scan c.target_procs c in
    let s = check_targets-same now scan c.target_procs c in
    record {
      listed = ap Dict.keys n.0 ∙ check_targets-keys now scan c.target_procs c;
      state = n.1 ∙ ap (λ ns. some (state_of ns)) u;
      detail = n.2 ∙ ap (λ ns. some (detail_of ns)) u;
      count =
          n.3
          ∙ ap₂
              (λ st de.
                if some (state_of names) == st && some (detail_of names) == de
                then d.change_count
                else d.change_count + 1)
              s.0 s.1
          ∙ ap₂
              (λ (ns : List String) (k : ℕ).
                if some (state_of ns) == c.process_state && some (detail_of ns) == c.state_detail
                then k
                else k + 1)
              u s.2;
    }

extract-met :
    (now : ℕ) (target : Target) (old : Option Info) (p : Process) (procs : List Process)
    → suc (length procs) ≡ or_default target.count 1
    → (extract_process_state now target old (record { procs = p ∷ procs; exception = none })).0
      ≡ some (info_of now old p procs)
unfolding extract_process_state
extract-met now target old p procs e = ground (arith, e)

old_count-same :
    (now : ℕ) (info : Info) (p : Process) (procs : List Process)
    → max_create_time p procs ≡ info.create_time
    → old_count (some (info_of now (some info) p procs)) ≡ 0
old_count-same now info p procs e = ground (arith, e)

old_count-restart :
    (now : ℕ) (info : Info) (p : Process) (procs : List Process)
    → max_create_time p procs ≢ info.create_time
    → old_count (some (info_of now (some info) p procs)) ≡ old_count (some info) + 1
old_count-restart now info p procs n = ground (arith, n)

-- A scan that finds a process as it was forgets how often it was restarted: if a target is met
-- first by processes of the time that is known, and then by processes of another time, the count
-- is 0 after the first scan and 1 after the second, whatever it was before.
pub restarts_are_forgotten :
    (now later : ℕ) (target : Target) (info : Info) (p q : Process) (procs others : List Process)
    → suc (length procs) ≡ or_default target.count 1
    → suc (length others) ≡ or_default target.count 1
    → max_create_time p procs ≡ info.create_time
    → max_create_time q others ≢ info.create_time
    → let same : Found = record { procs = p ∷ procs; exception = none } in
      let new : Found = record { procs = q ∷ others; exception = none } in
      let kept = (extract_process_state now target (some info) same).0 in
      (old_count kept ≡ 0) × (old_count (extract_process_state later target kept new).0 ≡ 1)
restarts_are_forgotten now later target info p q procs others h k same other =
    let e = extract-met now target (some info) p procs h in
    let kept = info_of now (some info) p procs in
    let none_left = old_count-same now info p procs same in
    (
      ap old_count e ∙ none_left,
      ap
            (λ o.
              old_count
                (extract_process_state later target o
                  (record { procs = q ∷ others; exception = none })).0)
            e
          ∙ ap old_count (extract-met later target (some kept) q others k)
          ∙ old_count-restart later kept q others (λ d. other (d ∙ same))
          ∙ ap (λ n. n + 1) none_left,
    )
