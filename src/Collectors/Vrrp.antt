-- ===== src/Collectors/Vrrp.antt =====
-- The VRRP state in `LocalStateCollector` of forch/local_state_collector.py. What reading the files of
-- keepalived leads to is an input; the calls of the handlers are recorded in `out`.
pub mod Reports
mod Tests
use forch.Base.{
  ℕ, ◌+◌, String, Bool, true, false, not, ◌&&◌, ◌||◌, Option, none, some, List, [], ◌∷◌, ◌++◌,
  is_some, ◌<>◌, string_eq, option_eq, ◌==◌, if◌then◌else◌,
}
use mathlib.Core.HLevel
use forch.Base.{Eq}
use forch.Collectors.States.{State, active, inactive, broken, healthy, initializing}
use forch.Collectors.Cpn.{Text, starts_with}

-- `VRRP_MASTER` and the other names
pub data Vrrp : Type 0 where
  master backup fault error : Vrrp

Vrrp-discrete : Discrete Vrrp
Vrrp-discrete = hlevel

instance unfoldable pub vrrp_eq : Eq Vrrp
unfolding Vrrp-discrete
vrrp_eq = record { dec = Vrrp-discrete }

pub data Call : Type 0 where
  active_state : State → Call
  cleanup : Call

-- `_vrrp_state`, with `_check_vrrp`
pub record Collector : Type 0 where
  pub check_vrrp : Bool
  pub vrrp_state : Option Vrrp
  pub detail : Option String
  pub change_count : ℕ
  pub last_change : Option ℕ
  pub out : List Call

abbrev pub create : Bool → Collector
create check_vrrp = record {
  check_vrrp = check_vrrp;
  vrrp_state = none;
  detail = none;
  change_count = 0;
  last_change = none;
  out = [];
}

abbrev pub call : Call → Collector → Collector
call k c = record c { out = c.out ++ (k ∷ []) }

-- `initialize`, but for the loop that it starts
abbrev pub initialize : Collector → Collector
initialize c = if c.check_vrrp then c else call (active_state active) c

-- The detail and the call of the handler, for the state that is new. An unknown state has neither.
unfoldable pub report : Option Vrrp → Option String → Collector → Collector
report none error_detail c = c
report (some master) error_detail c = call (active_state active) (record c { detail = none })
report (some backup) error_detail c = call (active_state inactive) (record c { detail = none })
report (some fault) error_detail c =
    call (active_state broken) (record c { detail = some "VRRP is in fault state" })
report (some error) error_detail c = call (active_state broken) (record c { detail = error_detail })

-- `_handle_vrrp_state`, and the update of `_vrrp_state` with what it returns
unfoldable pub handle_vrrp_state : ℕ → Option Vrrp → Option String → Collector → Collector
unfolding report
handle_vrrp_state now vrrp error_detail c =
    let old = record c { vrrp_state = vrrp } in
    let new =
      report vrrp error_detail
        (record old { last_change = some now; change_count = c.change_count + 1 }) in
    if vrrp == c.vrrp_state && error_detail == c.detail
    then old
    else if vrrp == some master
    then new
    else call cleanup new

-- `State = MASTER`, and the other two
abbrev pub state_prefix : Text
state_prefix = 83 ∷ 116 ∷ 97 ∷ 116 ∷ 101 ∷ 32 ∷ 61 ∷ 32 ∷ []

abbrev pub master_text : Text
master_text = state_prefix ++ (77 ∷ 65 ∷ 83 ∷ 84 ∷ 69 ∷ 82 ∷ [])

abbrev pub backup_text : Text
backup_text = state_prefix ++ (66 ∷ 65 ∷ 67 ∷ 75 ∷ 85 ∷ 80 ∷ [])

abbrev pub fault_text : Text
fault_text = state_prefix ++ (70 ∷ 65 ∷ 85 ∷ 76 ∷ 84 ∷ [])

-- The state that stands at the beginning of a text, by the three tests
abbrev pub vrrp_by : (is_master is_backup is_fault : Bool) → Option Vrrp
vrrp_by true is_backup is_fault = some master
vrrp_by false true is_fault = some backup
vrrp_by false false true = some fault
vrrp_by false false false = none

abbrev pub vrrp_at : Text → Option Vrrp
vrrp_at text =
    vrrp_by (starts_with master_text text) (starts_with backup_text text)
      (starts_with fault_text text)

-- `re.search` in a line
unfoldable pub search_state : Text → Option Vrrp
search_state [] = none
search_state (c ∷ line) =
    let rest = search_state line in
    elim (vrrp_at (c ∷ line)) [ none ↦ rest | some vrrp ↦ some vrrp ]

-- The first line that has a state
unfoldable pub first_state : List Text → Option Vrrp
unfolding search_state
first_state [] = none
first_state (line ∷ lines) =
    let rest = first_state lines in elim (search_state line) [ none ↦ rest | some vrrp ↦ some vrrp ]

-- The lines of the file, or the text of an exception
pub data Reading : Type 0 where
  lines : List Text → Reading
  failed : String → Reading

-- The part of `_check_vrrp_info` that runs with `check_vrrp`
unfoldable pub check_reading : ℕ → Reading → Collector → Collector
unfolding first_state handle_vrrp_state
check_reading now (failed exception) c =
    handle_vrrp_state now (some error) (some ("Cannot get VRRP info: " <> exception)) c
check_reading now (lines text) c = elim (first_state text) [
  | none ↦ handle_vrrp_state now (some error) (some "Could not find matching states") c
  | some vrrp ↦ handle_vrrp_state now (some vrrp) none c
]

-- `_check_vrrp_info`. Without `check_vrrp` its `finally` is reached as well.
unfoldable pub check_vrrp_info : ℕ → Reading → Collector → Collector
unfolding check_reading handle_vrrp_state
check_vrrp_info now reading c =
    if c.check_vrrp then check_reading now reading c else handle_vrrp_state now none none c

unfoldable pub check_all : List (ℕ × Reading) → Collector → Collector
unfolding check_vrrp_info
check_all [] c = c
check_all ((now, reading) ∷ checks) c = check_all checks (check_vrrp_info now reading c)

-- The state of `get_vrrp_summary`
abbrev pub summary_state : Collector → State
summary_state c = if not c.check_vrrp then healthy else elim c.vrrp_state [
  | none ↦ initializing
  | some master ↦ healthy
  | some backup ↦ healthy
  | some _ ↦ broken
]
