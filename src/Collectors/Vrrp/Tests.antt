-- ===== src/Collectors/Vrrp/Tests.antt =====
-- A collector at concrete inputs.
use forch.Base.{
  true, ℕ, ◌+◌, ◌≡◌, refl, some, List, [], ◌∷◌, ◌++◌, encode, nat_eq, string_eq, option_eq,
}
use forch.Collectors.States.{active, broken}
use forch.Collectors.Cpn.{Text}
use forch.Collectors.Vrrp.{
  fault, vrrp_eq, active_state, cleanup, create, initialize, first_state, Reading, lines, failed,
  check_vrrp_info, check_all,
}
use forch.Collectors.Vrrp.Reports.{IsReported, check_all-IsReported, fault_repeats}

abbrev at_fault : List Text
at_fault = encode "VRRP Instance = VI_1" ∷ encode "  State = FAULT" ∷ []

abbrev checks : List (ℕ × Reading)
checks =
    (1, lines (encode "  State = MASTER" ∷ [])) ∷ (2, lines at_fault) ∷ (3, failed "no file") ∷ []

at_fault_lem : first_state at_fault ≡ some fault
unfolding first_state encode nat_eq
at_fault_lem = refl

checks_lem :
    (check_all checks (create true)).out
    ≡ active_state active ∷ active_state broken ∷ cleanup ∷ active_state broken ∷ cleanup ∷ []
unfolding check_all encode nat_eq string_eq option_eq vrrp_eq
checks_lem = refl

check_all-IsReported_example : IsReported (check_all checks (initialize (create true)))
check_all-IsReported_example = check_all-IsReported checks

fault_repeats_example :
    ((check_vrrp_info 9 (lines at_fault) (check_all checks (initialize (create true)))).change_count
      ≡ (check_all checks (initialize (create true))).change_count + 1)
    × ((check_vrrp_info 9 (lines at_fault) (check_all checks (initialize (create true)))).out
        ≡ ((check_all checks (initialize (create true))).out ++ (active_state broken ∷ []))
          ++ (cleanup ∷ []))
fault_repeats_example = fault_repeats checks 9 at_fault at_fault_lem
