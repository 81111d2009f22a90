-- ===== src/Report.antt =====
-- `DeviceReportClient` of forch/device_report_client.py: the test sessions of the devices. The calls
-- that it makes are recorded in `out`; a session is a number. A port has the key `dp_name:port`, which
-- stands for the pair.
pub mod Sessions
mod Tests
use forch.Base.{
  ℕ, zero, suc, ◌+◌, String, Bool, true, false, not, ◌&&◌, ◌||◌, Option, none, some, List, [], ◌∷◌,
  ◌++◌, truthy, string_eq, nat_eq, pair_eq, ◌==◌, if◌then◌else◌,
}
use forch.Base.Dict
use forch.Base.Dict.{Dict}
use forch.Base.Exec.{Result, ok, raised, assertion_error}
use forch.Port.Types.{Behavior, unknown, authenticated, passed, failed}

-- The keys of `PORT_BEHAVIOR_SESSION_RESULT`.
pub data SessionCode : Type 0 where
  pending error started pass fail : SessionCode

-- `PORT_BEHAVIOR_SESSION_RESULT`
abbrev pub port_behavior_session_result : SessionCode → Behavior
port_behavior_session_result pending = unknown
port_behavior_session_result error = unknown
port_behavior_session_result started = authenticated
port_behavior_session_result pass = passed
port_behavior_session_result fail = failed

-- What a session reports. A code that is 0 is `none`.
pub record Progress : Type 0 where
  pub endpoint_ip : String
  pub result : Option SessionCode

pub data Call : Type 0 where
  start_session : String → ℕ → ℕ → ℕ → Call
  cancel_session : String → ℕ → Call
  free_endpoint : String → Call
  process_endpoint : String → String → Call
  handle_result : String → Behavior → Call

pub record ReportClient : Type 0 where
  pub dp_mac_map : Dict (String × ℕ) String
  pub mac_sessions : Dict String ℕ
  pub mac_device_vlan_map : Dict String ℕ
  pub mac_assigned_vlan_map : Dict String ℕ
  pub unauth_vlan : ℕ
  pub has_endpoint_handler : Bool
  pub next_session : ℕ
  pub out : List Call

abbrev pub call : Call → ReportClient → ReportClient
call c s = record s { out = s.out ++ (c ∷ []) }

-- `_connect`, and the session that it returns under its device
unfoldable pub connect : String → ℕ → ℕ → ReportClient → ReportClient
connect mac vlan assigned s = call (start_session mac vlan assigned s.next_session) (record s {
  mac_sessions = Dict.insert mac s.next_session s.mac_sessions;
  next_session = s.next_session + 1;
})

-- `disconnect`
unfoldable pub disconnect : String → ReportClient → ReportClient
disconnect mac s = elim (Dict.lookup mac s.mac_sessions) [
  | none ↦ s
  | some n ↦
      let t =
        call (cancel_session mac n) (record s { mac_sessions = Dict.erase mac s.mac_sessions }) in
      if s.has_endpoint_handler then call (free_endpoint mac) t else t
]

-- The truth of a VLAN that may be missing
abbrev pub vlan_or_zero : Option ℕ → ℕ
vlan_or_zero none = 0
vlan_or_zero (some vlan) = vlan

-- `good_device_vlan`, and `assigned_vlan`
abbrev pub is_good : ℕ → ℕ → ℕ → Bool
is_good unauth vlan assigned =
    truthy assigned && truthy vlan && not (vlan == unauth) && not (vlan == assigned)

-- `_process_session_ready`
unfoldable pub process_session_ready : String → ReportClient → ReportClient
unfolding connect
process_session_ready mac s =
    let vlan = vlan_or_zero (Dict.lookup mac s.mac_device_vlan_map) in
    let assigned = vlan_or_zero (Dict.lookup mac s.mac_assigned_vlan_map) in
    if Dict.has mac s.mac_sessions
    then s
    else if is_good s.unauth_vlan vlan assigned
    then connect mac vlan assigned s
    else s

-- `process_port_state`
unfoldable pub process_port_state : String → ℕ → Bool → ReportClient → ReportClient
unfolding disconnect
process_port_state dp_name port state s = elim (Dict.lookup (dp_name, port) s.dp_mac_map) [
  | none ↦ s
  | some mac ↦ if mac == "" || state then s else disconnect mac s
]

-- `process_port_learn`
unfoldable pub process_port_learn : String → ℕ → String → ℕ → ReportClient → ReportClient
unfolding process_session_ready
process_port_learn dp_name port mac vlan s =
    let key : String × ℕ = (dp_name, port) in
    process_session_ready mac (record s {
      mac_device_vlan_map = Dict.insert mac vlan s.mac_device_vlan_map;
      dp_mac_map = Dict.insert key mac s.dp_mac_map;
    })

-- `process_port_assign`
unfoldable pub process_port_assign : String → ℕ → ℕ → ReportClient → ReportClient
unfolding process_session_ready
process_port_assign mac device_vlan assigned_vlan s = process_session_ready mac (record s {
  mac_device_vlan_map = Dict.insert mac device_vlan s.mac_device_vlan_map;
  mac_assigned_vlan_map = Dict.insert mac assigned_vlan s.mac_assigned_vlan_map;
})

-- `_convert_and_handle`. The answer of the handler of results is an argument; it may raise.
unfoldable pub convert_and_handle :
    String → Progress → Result Bool → ReportClient → Result Bool × ReportClient
convert_and_handle mac progress handled s = elim progress.result [
  | some code ↦
      if progress.endpoint_ip == ""
      then (handled, call (handle_result mac (port_behavior_session_result code)) s)
      else (raised assertion_error, s)
  | none ↦ (
    ok false,
    if not (progress.endpoint_ip == "") && s.has_endpoint_handler
        then call (process_endpoint progress.endpoint_ip mac) s
        else s,
  )
]

-- One turn of the loop of `_process_progress`: the loop goes on only after `False`. Its end, also by
-- an exception, disconnects the device.
unfoldable pub process_progress : String → Progress → Result Bool → ReportClient → ReportClient
unfolding convert_and_handle disconnect
process_progress mac progress handled s =
    let (r, t) = convert_and_handle mac progress handled s in
    elim r [ ok terminal ↦ if terminal then disconnect mac t else t | raised e ↦ disconnect mac t ]

-- The callers: the collector of Faucet's events, the port state manager and the sessions' threads.
pub data Input : Type 0 where
  port_state : String → ℕ → Bool → Input
  port_learn : String → ℕ → String → ℕ → Input
  port_assign : String → ℕ → ℕ → Input
  disconnected : String → Input
  progressed : String → Progress → Result Bool → Input

unfoldable pub feed : Input → ReportClient → ReportClient
unfolding process_port_state process_port_learn process_port_assign process_progress disconnect
feed (port_state dp_name port state) s = process_port_state dp_name port state s
feed (port_learn dp_name port mac vlan) s = process_port_learn dp_name port mac vlan s
feed (port_assign mac device_vlan assigned_vlan) s =
    process_port_assign mac device_vlan assigned_vlan s
feed (disconnected mac) s = disconnect mac s
feed (progressed mac progress handled) s = process_progress mac progress handled s

unfoldable pub feed_all : List Input → ReportClient → ReportClient
feed_all [] s = s
feed_all (i ∷ inputs) s = feed_all inputs (feed i s)

-- A client that has just been made.
abbrev pub fresh : ℕ → Bool → ReportClient
fresh unauth_vlan has_endpoint_handler = record {
  dp_mac_map = [];
  mac_sessions = [];
  mac_device_vlan_map = [];
  mac_assigned_vlan_map = [];
  unauth_vlan = unauth_vlan;
  has_endpoint_handler = has_endpoint_handler;
  next_session = 0;
  out = [];
}
