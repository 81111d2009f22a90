-- ===== src/Report/Sessions.antt =====
-- The sessions of a device: one at a time, and only with good VLANs.
pub mod Runs
use forch.Base.{
  ℕ, zero, suc, ◌+◌, ◌≤◌, ◌≡◌, refl, sym, ap, ◌∙◌, ◌≢◌, inl, inr, String, Bool, true, false, not,
  ◌&&◌, ◌||◌, Option, none, some, List, [], ◌∷◌, ◌++◌, arith, is_some, truthy, string_eq, nat_eq,
  pair_eq, ◌==◌, if◌then◌else◌, Option-cases, Bool-cases,
}
use forch.Base.Dict
use forch.Base.Exec.{Result, ok, raised, assertion_error}
use forch.Report.{
  Call, SessionCode, port_behavior_session_result, start_session, cancel_session, free_endpoint,
  process_endpoint, handle_result, ReportClient, call, connect, disconnect, is_good, vlan_or_zero,
  process_session_ready, process_port_state, process_port_learn, process_port_assign, Progress,
  convert_and_handle, process_progress, Input, port_state, port_learn, port_assign, disconnected,
  progressed, feed, feed_all, fresh,
}

-- How often a session of the device was started, and cancelled.
abbrev pub starts : String → List Call → ℕ
starts mac [] = 0
starts mac (start_session m vlan assigned n ∷ out) =
    let rest = starts mac out in if m == mac then rest + 1 else rest
starts mac (_ ∷ out) = starts mac out

abbrev pub cancels : String → List Call → ℕ
cancels mac [] = 0
cancels mac (cancel_session m n ∷ out) =
    let rest = cancels mac out in if m == mac then rest + 1 else rest
cancels mac (_ ∷ out) = cancels mac out

-- Whether a call may be made: a session wants two VLANs that differ, and the device's is not the one
-- for devices that are not authenticated.
abbrev pub IsAllowed : ℕ → Call → Type 0
IsAllowed unauth (start_session m vlan assigned n) =
    (vlan ≢ 0) × (assigned ≢ 0) × (vlan ≢ unauth) × (vlan ≢ assigned)
IsAllowed unauth _ = Unit

abbrev pub AllAllowed : ℕ → List Call → Type 0
AllAllowed unauth [] = Unit
AllAllowed unauth (c ∷ out) = IsAllowed unauth c × AllAllowed unauth out

abbrev one_if : Bool → ℕ
one_if true = 1
one_if false = 0

pub record IsSingle (unauth : ℕ) (s : ReportClient) : Type 0 where
  pub same : s.unauth_vlan ≡ unauth
  pub single :
      (mac : String) → starts mac s.out ≡ cancels mac s.out + one_if (Dict.has mac s.mac_sessions)
  pub allowed : AllAllowed unauth s.out

starts-snoc :
    (mac : String) (out : List Call) (c : Call)
    → starts mac (out ++ (c ∷ [])) ≡ starts mac out + starts mac (c ∷ [])
starts-snoc mac [] c = omega arith
starts-snoc mac (start_session m v a n ∷ out) c = ground (arith, starts-snoc mac out c)
starts-snoc mac (cancel_session m n ∷ out) c = starts-snoc mac out c
starts-snoc mac (free_endpoint m ∷ out) c = starts-snoc mac out c
starts-snoc mac (process_endpoint i m ∷ out) c = starts-snoc mac out c
starts-snoc mac (handle_result m b ∷ out) c = starts-snoc mac out c

cancels-snoc :
    (mac : String) (out : List Call) (c : Call)
    → cancels mac (out ++ (c ∷ [])) ≡ cancels mac out + cancels mac (c ∷ [])
cancels-snoc mac [] c = omega arith
cancels-snoc mac (start_session m v a n ∷ out) c = cancels-snoc mac out c
cancels-snoc mac (cancel_session m n ∷ out) c = ground (arith, cancels-snoc mac out c)
cancels-snoc mac (free_endpoint m ∷ out) c = cancels-snoc mac out c
cancels-snoc mac (process_endpoint i m ∷ out) c = cancels-snoc mac out c
cancels-snoc mac (handle_result m b ∷ out) c = cancels-snoc mac out c

AllAllowed-snoc :
    (unauth : ℕ) (out : List Call) (c : Call)
    → AllAllowed unauth out
    → IsAllowed unauth c
    → AllAllowed unauth (out ++ (c ∷ []))
AllAllowed-snoc unauth [] c h p = (p, tt)
AllAllowed-snoc unauth (d ∷ out) c (q, h) p = (q, AllAllowed-snoc unauth out c h p)

module _ (unauth : ℕ) where
  -- A call that starts and cancels nothing.
  call-IsSingle :
      (c : Call) (s : ReportClient)
      → ((mac : String) → (starts mac (c ∷ []) ≡ 0) × (cancels mac (c ∷ []) ≡ 0))
      → IsAllowed unauth c
      → IsSingle unauth s
      → IsSingle unauth (call c s)
  call-IsSingle c s idle p v = record {
    same = v.same;
    single = λ mac. omega (
      arith,
      starts-snoc mac s.out c,
      cancels-snoc mac s.out c,
      (idle mac).0,
      (idle mac).1,
      v.single mac,
    );
    allowed = AllAllowed-snoc unauth s.out c v.allowed p;
  }

  connect-IsSingle :
      (mac : String) (vlan assigned : ℕ) (s : ReportClient)
      → Dict.has mac s.mac_sessions ≡ false
      → IsAllowed unauth (start_session mac vlan assigned s.next_session)
      → IsSingle unauth s
      → IsSingle unauth (connect mac vlan assigned s)
  unfolding connect
  connect-IsSingle mac vlan assigned s free p v =
      let c = start_session mac vlan assigned s.next_session in
      record {
        same = v.same;
        single = λ m. ground (
          arith,
          starts-snoc m s.out c,
          cancels-snoc m s.out c,
          v.single m,
          free,
          Dict.lookup-insert m mac s.next_session s.mac_sessions,
        );
        allowed = AllAllowed-snoc unauth s.out c v.allowed p;
      }

  cancelled-IsSingle :
      (mac : String) (n : ℕ) (s : ReportClient)
      → Dict.lookup mac s.mac_sessions ≡ some n
      → IsSingle unauth s
      → IsSingle unauth
          (call (cancel_session mac n) (record s { mac_sessions = Dict.erase mac s.mac_sessions }))
  cancelled-IsSingle mac n s held v =
      let c = cancel_session mac n in
      record {
        same = v.same;
        single = λ m. ground (
          arith,
          starts-snoc m s.out c,
          cancels-snoc m s.out c,
          v.single m,
          held,
          Dict.lookup-erase m mac s.mac_sessions,
        );
        allowed = AllAllowed-snoc unauth s.out c v.allowed tt;
      }
