-- ===== src/Report/Sessions/Runs.antt =====
-- Every input keeps the sessions single, and so do runs of inputs.
use forch.Base.{
  ℕ, ◌≡◌, refl, sym, ap, ◌∙◌, inl, inr, String, Bool, true, false, not, ◌&&◌, ◌||◌, Option, none,
  some, List, [], ◌∷◌, arith, string_eq, nat_eq, pair_eq, ◌==◌, if◌then◌else◌, Option-cases,
}
use forch.Base.Dict
use forch.Base.Exec.{Result, ok, raised, assertion_error}
use forch.Report.{
  SessionCode, port_behavior_session_result, start_session, free_endpoint, process_endpoint,
  handle_result, ReportClient, call, connect, disconnect, is_good, vlan_or_zero,
  process_session_ready, process_port_state, process_port_learn, process_port_assign, Progress,
  convert_and_handle, process_progress, Input, port_state, port_learn, port_assign, disconnected,
  progressed, feed, feed_all, fresh,
}
use forch.Report.Sessions.{IsAllowed, IsSingle, call-IsSingle, connect-IsSingle, cancelled-IsSingle}

module _ (unauth : ℕ) where
  disconnect-IsSingle :
      (mac : String) (s : ReportClient) → IsSingle unauth s → IsSingle unauth (disconnect mac s)
  unfolding disconnect
  disconnect-IsSingle mac s v = elim (Option-cases (Dict.lookup mac s.mac_sessions)) [
    | inl e ↦ rw (e, disconnect) v
    | inr (n, e) ↦
        rw (e, disconnect) (freed s.has_endpoint_handler _ (cancelled-IsSingle unauth mac n s e v))
  ]
    where
      freed :
          (b : Bool) (t : ReportClient)
          → IsSingle unauth t
          → IsSingle unauth (if b then call (free_endpoint mac) t else t)
      freed true t w = call-IsSingle unauth (free_endpoint mac) t (λ m. (refl, refl)) tt w
      freed false t w = w

  good-IsAllowed :
      (mac : String) (vlan assigned n : ℕ)
      → is_good unauth vlan assigned ≡ true
      → IsAllowed unauth (start_session mac vlan assigned n)
  good-IsAllowed mac vlan assigned n h = ground (arith, h)

  process_session_ready-IsSingle :
      (mac : String) (s : ReportClient)
      → IsSingle unauth s
      → IsSingle unauth (process_session_ready mac s)
  unfolding process_session_ready
  process_session_ready-IsSingle mac s v =
      ready (Dict.has mac s.mac_sessions) (is_good s.unauth_vlan vlan assigned) refl refl
    where
      vlan : ℕ
      vlan = vlan_or_zero (Dict.lookup mac s.mac_device_vlan_map)

      assigned : ℕ
      assigned = vlan_or_zero (Dict.lookup mac s.mac_assigned_vlan_map)

      ready :
          (b c : Bool)
          → Dict.has mac s.mac_sessions ≡ b
          → is_good s.unauth_vlan vlan assigned ≡ c
          → IsSingle unauth (if b then s else if c then connect mac vlan assigned s else s)
      ready true c h g = v
      ready false false h g = v
      ready false true h g =
          connect-IsSingle unauth mac vlan assigned s h
            (good-IsAllowed mac vlan assigned s.next_session
              (sym (ap (λ u. is_good u vlan assigned) v.same) ∙ g))
            v

  -- An update of the maps.
  noted-IsSingle :
      (s t : ReportClient)
      → t.unauth_vlan ≡ s.unauth_vlan
      → t.out ≡ s.out
      → t.mac_sessions ≡ s.mac_sessions
      → IsSingle unauth s
      → IsSingle unauth t
  noted-IsSingle s t u o m v = record {
    same = u ∙ v.same;
    single = λ mac. rw (o, m) (v.single mac);
    allowed = rw o v.allowed;
  }

  convert_and_handle-IsSingle :
      (mac : String) (p : Progress) (handled : Result Bool) (s : ReportClient)
      → IsSingle unauth s
      → IsSingle unauth (convert_and_handle mac p handled s).1
  unfolding convert_and_handle
  convert_and_handle-IsSingle mac p handled s v = elim (Option-cases p.result) [
    | inl e ↦
        rw (e, convert_and_handle) (relayed (not (p.endpoint_ip == "") && s.has_endpoint_handler))
    | inr (code, e) ↦ rw (e, convert_and_handle) (reported code (p.endpoint_ip == ""))
  ]
    where
      relayed :
          (b : Bool)
          → IsSingle unauth (if b then call (process_endpoint p.endpoint_ip mac) s else s)
      relayed true = call-IsSingle unauth _ s (λ m. (refl, refl)) tt v
      relayed false = v

      reported :
          (code : SessionCode) (b : Bool)
          → let r : Result Bool × ReportClient =
              if b
              then (handled, call (handle_result mac (port_behavior_session_result code)) s)
              else (raised assertion_error, s) in
            IsSingle unauth r.1
      reported code true = call-IsSingle unauth _ s (λ m. (refl, refl)) tt v
      reported code false = v

  process_progress-IsSingle :
      (mac : String) (p : Progress) (handled : Result Bool) (s : ReportClient)
      → IsSingle unauth s
      → IsSingle unauth (process_progress mac p handled s)
  unfolding process_progress
  process_progress-IsSingle mac p handled s v =
      ended (convert_and_handle mac p handled s) (convert_and_handle-IsSingle mac p handled s v)
    where
      ended :
          (rt : Result Bool × ReportClient)
          → IsSingle unauth rt.1
          → IsSingle unauth (elim rt.0 [
            | ok terminal ↦ if terminal then disconnect mac rt.1 else rt.1
            | raised e ↦ disconnect mac rt.1
          ])
      ended (ok true, t) w = disconnect-IsSingle mac t w
      ended (ok false, t) w = w
      ended (raised e, t) w = disconnect-IsSingle mac t w

  process_port_state-IsSingle :
      (dp_name : String) (port : ℕ) (state : Bool) (s : ReportClient)
      → IsSingle unauth s
      → IsSingle unauth (process_port_state dp_name port state s)
  unfolding process_port_state
  process_port_state-IsSingle dp_name port state s v =
      down (Dict.lookup (dp_name, port) s.dp_mac_map)
    where
      unless : (mac : String) (b : Bool) → IsSingle unauth (if b then s else disconnect mac s)
      unless mac true = v
      unless mac false = disconnect-IsSingle mac s v

      down :
          (o : Option String)
          → IsSingle unauth
              (elim o [ none ↦ s | some mac ↦ if mac == "" || state then s else disconnect mac s ])
      down none = v
      down (some mac) = unless mac (mac == "" || state)

  feed-IsSingle : (i : Input) (s : ReportClient) → IsSingle unauth s → IsSingle unauth (feed i s)
  unfolding feed process_port_learn process_port_assign
  feed-IsSingle (port_state dp_name port state) s v =
      process_port_state-IsSingle dp_name port state s v
  feed-IsSingle (port_learn dp_name port mac vlan) s v =
      process_session_ready-IsSingle mac _ (noted-IsSingle s _ refl refl refl v)
  feed-IsSingle (port_assign mac device_vlan assigned_vlan) s v =
      process_session_ready-IsSingle mac _ (noted-IsSingle s _ refl refl refl v)
  feed-IsSingle (disconnected mac) s v = disconnect-IsSingle mac s v
  feed-IsSingle (progressed mac p handled) s v = process_progress-IsSingle mac p handled s v

  feed_all-IsSingle_from :
      (inputs : List Input) (s : ReportClient)
      → IsSingle unauth s
      → IsSingle unauth (feed_all inputs s)
  unfolding feed_all
  feed_all-IsSingle_from [] s v = v
  feed_all-IsSingle_from (i ∷ inputs) s v =
      feed_all-IsSingle_from inputs (feed i s) (feed-IsSingle i s v)

-- After any inputs of a client that has just been made, a device has been given one session more
-- than were cancelled if it has a session, and as many if it has none: it never has two. Each session
-- was started with an assigned VLAN and a device VLAN that are not 0 and differ, the device's not being the VLAN
-- of unauthenticated devices.
pub feed_all-IsSingle :
    (unauth : ℕ) (has_endpoint_handler : Bool) (inputs : List Input)
    → IsSingle unauth (feed_all inputs (fresh unauth has_endpoint_handler))
feed_all-IsSingle unauth has_endpoint_handler inputs =
    feed_all-IsSingle_from unauth inputs (fresh unauth has_endpoint_handler)
      (record { same = refl; single = λ mac. rw (Dict.lookup-nil mac) refl; allowed = tt })
