-- ===== src/Collectors/Vrrp/Reports.antt =====
-- What the handlers are told of the VRRP state.
use forch.Base.{
  ℕ, ◌+◌, ◌≡◌, refl, sym, ◌∙◌, ap, ◌≢◌, String, Bool, true, false, ◌&&◌, Option, none, some, List,
  [], ◌∷◌, ◌++◌, ◌<>◌, arith, string_eq, option_eq, ◌==◌, if◌then◌else◌,
}
use mathlib.Core.Path.{subst}
use mathlib.Core.Bool.{true≢false}
use forch.Collectors.States.{State, active, inactive, broken}
use forch.Collectors.Cpn.{Text}
use forch.Collectors.Vrrp.{
  Vrrp, master, backup, fault, error, vrrp_eq, Call, active_state, cleanup, Collector, create, call,
  initialize, report, handle_vrrp_state, vrrp_by, vrrp_at, search_state, first_state, check_reading,
  Reading, lines, failed, check_vrrp_info, check_all,
}

-- The last state that the handler was told
abbrev pub told : Option State → List Call → Option State
told last [] = last
told last (active_state state ∷ out) = told (some state) out
told last (cleanup ∷ out) = told last out

-- How often it was told a state, and how often there was a cleanup
abbrev pub times : List Call → ℕ
times [] = 0
times (active_state state ∷ out) = times out + 1
times (cleanup ∷ out) = times out

abbrev pub meaning : Vrrp → State
meaning master = active
meaning backup = inactive
meaning fault = broken
meaning error = broken

abbrev pub meaning_of : Option Vrrp → Option State
meaning_of none = none
meaning_of (some vrrp) = some (meaning vrrp)

-- The detail that is kept with a state
abbrev pub HasDetail : Option Vrrp → Option String → Type 0
HasDetail (some fault) detail = detail ≡ some "VRRP is in fault state"
HasDetail (some error) detail = (text : String) × (detail ≡ some text)
HasDetail _ detail = detail ≡ none

pub record IsReported (c : Collector) : Type 0 where
  pub checks : c.check_vrrp ≡ true
  pub last : told none c.out ≡ meaning_of c.vrrp_state
  pub count : times c.out ≡ c.change_count
  pub detail : HasDetail c.vrrp_state c.detail

told-snoc :
    (last : Option State) (out : List Call) (state : State)
    → told last (out ++ (active_state state ∷ [])) ≡ some state
told-snoc last [] state = refl
told-snoc last (active_state s ∷ out) state = told-snoc (some s) out state
told-snoc last (cleanup ∷ out) state = told-snoc last out state

told-cleanup :
    (last : Option State) (out : List Call) → told last (out ++ (cleanup ∷ [])) ≡ told last out
told-cleanup last [] = refl
told-cleanup last (active_state s ∷ out) = told-cleanup (some s) out
told-cleanup last (cleanup ∷ out) = told-cleanup last out

times-snoc : (out : List Call) (k : Call) → times (out ++ (k ∷ [])) ≡ times out + times (k ∷ [])
times-snoc [] k = omega arith
times-snoc (active_state s ∷ out) k = omega (arith, times-snoc out k)
times-snoc (cleanup ∷ out) k = times-snoc out k

-- The details that a reading comes with
abbrev pub IsError : Vrrp → Option String → Type 0
IsError error detail = (text : String) × (detail ≡ some text)
IsError _ detail = detail ≡ none

cleaned-IsReported : (c : Collector) → IsReported c → IsReported (call cleanup c)
cleaned-IsReported c v = record {
  checks = v.checks;
  last = told-cleanup none c.out ∙ v.last;
  count = omega (arith, times-snoc c.out cleanup, v.count);
  detail = v.detail;
}

told-IsReported :
    (vrrp : Vrrp) (c : Collector)
    → c.check_vrrp ≡ true
    → c.vrrp_state ≡ some vrrp
    → times c.out + 1 ≡ c.change_count
    → HasDetail (some vrrp) c.detail
    → IsReported (call (active_state (meaning vrrp)) c)
told-IsReported vrrp c h e n d = record {
  checks = h;
  last = told-snoc none c.out (meaning vrrp) ∙ ap meaning_of (sym e);
  count = omega (arith, times-snoc c.out (active_state (meaning vrrp)), n);
  detail = subst (λ v. HasDetail v c.detail) (sym e) d;
}

report-IsReported :
    (vrrp : Vrrp) (detail : Option String) (c : Collector)
    → c.check_vrrp ≡ true
    → c.vrrp_state ≡ some vrrp
    → IsError vrrp detail
    → times c.out + 1 ≡ c.change_count
    → IsReported (report (some vrrp) detail c)
unfolding report
report-IsReported master detail c h e d n = told-IsReported master _ h e n refl
report-IsReported backup detail c h e d n = told-IsReported backup _ h e n refl
report-IsReported fault detail c h e d n = told-IsReported fault _ h e n refl
report-IsReported error detail c h e d n = told-IsReported error _ h e n d

-- Of two states, whichever the test takes.
either :
    (b : Bool) (c d : Collector)
    → (b ≡ true → IsReported c)
    → (b ≡ false → IsReported d)
    → IsReported (if b then c else d)
either true c d p q = p refl
either false c d p q = q refl

same_state :
    (vrrp : Vrrp) (detail : Option String) (c : Collector)
    → (some vrrp == c.vrrp_state && detail == c.detail) ≡ true
    → some vrrp ≡ c.vrrp_state
same_state vrrp detail c h = ground arith

handle_vrrp_state-IsReported :
    (now : ℕ) (vrrp : Vrrp) (detail : Option String) (c : Collector)
    → IsReported c
    → IsError vrrp detail
    → IsReported (handle_vrrp_state now (some vrrp) detail c)
unfolding handle_vrrp_state
handle_vrrp_state-IsReported now vrrp detail c v d =
    let old = record c { vrrp_state = some vrrp } in
    let new =
      report (some vrrp) detail
        (record old { last_change = some now; change_count = c.change_count + 1 }) in
    let n : IsReported new =
      report-IsReported vrrp detail _ v.checks refl d (omega (arith, v.count)) in
    either (some vrrp == c.vrrp_state && detail == c.detail) old
      (if some vrrp == some master then new else call cleanup new)
      (λ e.
        let s = same_state vrrp detail c e in
        record {
          checks = v.checks;
          last = v.last ∙ ap meaning_of (sym s);
          count = v.count;
          detail = subst (λ w. HasDetail w c.detail) (sym s) v.detail;
        })
      (λ _.
        either (some vrrp == some master) new (call cleanup new) (λ _. n)
          (λ _. cleaned-IsReported new n))

vrrp_by-ne : (a b c : Bool) → vrrp_by a b c ≢ some error
vrrp_by-ne true b c e = ground arith
vrrp_by-ne false true c e = ground arith
vrrp_by-ne false false true e = ground arith
vrrp_by-ne false false false e = ground arith

or_rest :
    (o rest : Option Vrrp)
    → o ≢ some error
    → rest ≢ some error
    → (elim o as (λ _. Option Vrrp) [ none ↦ rest | some vrrp ↦ some vrrp ]) ≢ some error
or_rest none rest n m = m
or_rest (some vrrp) rest n m = n

search_state-ne : (line : Text) → search_state line ≢ some error
unfolding search_state
search_state-ne [] = λ e. ground arith
search_state-ne (c ∷ line) =
    or_rest (vrrp_at (c ∷ line)) (search_state line) (vrrp_by-ne _ _ _) (search_state-ne line)

first_state-ne : (text : List Text) → first_state text ≢ some error
unfolding first_state
first_state-ne [] = λ e. ground arith
first_state-ne (line ∷ text) =
    or_rest (search_state line) (first_state text) (search_state-ne line) (first_state-ne text)

first_state-IsError :
    (text : List Text) (vrrp : Vrrp) → first_state text ≡ some vrrp → IsError vrrp none
first_state-IsError text master e = refl
first_state-IsError text backup e = refl
first_state-IsError text fault e = refl
first_state-IsError text error e = absurd (first_state-ne text e)

lines-IsReported :
    (now : ℕ) (text : List Text) (found : Option Vrrp) (c : Collector)
    → first_state text ≡ found
    → IsReported c
    → IsReported (elim found as (λ _. Collector) [
      | none ↦ handle_vrrp_state now (some error) (some "Could not find matching states") c
      | some vrrp ↦ handle_vrrp_state now (some vrrp) none c
    ])
lines-IsReported now text none c e v =
    handle_vrrp_state-IsReported now error _ c v ("Could not find matching states", refl)
lines-IsReported now text (some vrrp) c e v =
    handle_vrrp_state-IsReported now vrrp none c v (first_state-IsError text vrrp e)

check_reading-IsReported :
    (now : ℕ) (reading : Reading) (c : Collector)
    → IsReported c
    → IsReported (check_reading now reading c)
unfolding check_reading
check_reading-IsReported now (failed exception) c v =
    handle_vrrp_state-IsReported now error _ c v ("Cannot get VRRP info: " <> exception, refl)
check_reading-IsReported now (lines text) c v =
    lines-IsReported now text (first_state text) c refl v

check_vrrp_info-IsReported :
    (now : ℕ) (reading : Reading) (c : Collector)
    → IsReported c
    → IsReported (check_vrrp_info now reading c)
unfolding check_vrrp_info
check_vrrp_info-IsReported now reading c v =
    either c.check_vrrp (check_reading now reading c) (handle_vrrp_state now none none c)
      (λ _. check_reading-IsReported now reading c v) (λ e. absurd (true≢false (sym v.checks ∙ e)))

check_all-keeps :
    (checks : List (ℕ × Reading)) (c : Collector) → IsReported c → IsReported (check_all checks c)
unfolding check_all
check_all-keeps [] c v = v
check_all-keeps ((now, reading) ∷ checks) c v =
    check_all-keeps checks (check_vrrp_info now reading c)
      (check_vrrp_info-IsReported now reading c v)

-- After any checks of a collector that checks VRRP: the handler was last told that the controller is
-- active if the state is MASTER, inactive if it is BACKUP, and broken if it is FAULT or ERROR, and
-- was told nothing before the first check; it was told as many states as changes are counted; and
-- there is a detail if and only if the state is FAULT or ERROR.
pub check_all-IsReported :
    (checks : List (ℕ × Reading)) → IsReported (check_all checks (initialize (create true)))
check_all-IsReported checks =
    check_all-keeps checks (create true)
      (record { checks = refl; last = refl; count = refl; detail = refl })

-- What is taken of three if both tests fail
last_of :
    (a b : Bool) (c d e : Collector)
    → a ≡ false
    → b ≡ false
    → (if a then c else if b then d else e) ≡ e
last_of a b c d e p q = ground arith

first_of : (a : Bool) (c d : Collector) → a ≡ true → (if a then c else d) ≡ c
first_of a c d p = ground arith

-- The detail of a fault is not the one that a check has.
fault_differs :
    (state : Option Vrrp) (detail : Option String)
    → HasDetail state detail
    → (some fault == state && none == detail) ≡ false
fault_differs none detail h = ground arith
fault_differs (some master) detail h = ground arith
fault_differs (some backup) detail h = ground arith
fault_differs (some fault) detail h = ground arith
fault_differs (some error) detail h = ground arith

found_state :
    (now : ℕ) (text : List Text) (vrrp : Vrrp) (c : Collector)
    → first_state text ≡ some vrrp
    → check_reading now (lines text) c ≡ handle_vrrp_state now (some vrrp) none c
unfolding check_reading
found_state now text vrrp c e = rw (e, check_reading) refl

fault-handled :
    (now : ℕ) (c : Collector)
    → IsReported c
    → handle_vrrp_state now (some fault) none c
      ≡ call cleanup (
          report (some fault) none (record c {
            vrrp_state = some fault;
            last_change = some now;
            change_count = c.change_count + 1;
          }))
unfolding handle_vrrp_state
fault-handled now c v =
    last_of (some fault == c.vrrp_state && none == c.detail) (some fault == some master) _ _ _
      (fault_differs c.vrrp_state c.detail v.detail) (ground arith)

-- A check that finds FAULT always counts as a change, and tells the handlers again, also if the
-- state was FAULT before.
pub fault_repeats :
    (checks : List (ℕ × Reading)) (now : ℕ) (text : List Text)
    → first_state text ≡ some fault
    → let c = check_all checks (initialize (create true)) in
      let d = check_vrrp_info now (lines text) c in
      (d.change_count ≡ c.change_count + 1)
      × (d.out ≡ (c.out ++ (active_state broken ∷ [])) ++ (cleanup ∷ []))
unfolding check_vrrp_info report
fault_repeats checks now text found =
    let c = check_all checks (initialize (create true)) in
    let v = check_all-IsReported checks in
    let e =
      first_of c.check_vrrp (check_reading now (lines text) c) (handle_vrrp_state now none none c)
        v.checks
      ∙ found_state now text fault c found
      ∙ fault-handled now c v in
    (ap (λ (d : Collector). d.change_count) e, ap (λ (d : Collector). d.out) e)
