-- ===== src/Uds/Session.antt =====
-- src/protocols/uds_session.cpp: `UdsSession` and, in `Security` and `Manager`, the security levels
-- and the sessions of several ECUs. Times are ticks of the steady clock, nanoseconds, and an
-- operation reads the clock once (`now`); a limit in milliseconds is a number of them. A callback is
-- the number that it is known by, and `called` lists the calls, the oldest first. The locks are left
-- out: every operation holds the one mutex from start to end.
pub mod Security
pub mod Queries
pub mod Manager
pub mod Unlocking
pub mod Bytes
pub mod Unlocked
pub mod Timeout
pub mod Trace
pub mod Invariant
pub mod Reach
use wadjet_link.Prelude.{
  ℕ, ◌+◌, ◌-◌, ◌*◌, ◌/◌, ◌%◌, ◌^◌, List, [], ◌∷◌, ◌++◌, Bool, true, false, not, ◌&&◌, ◌||◌, Option,
  none, some, ltb, leb, ◌==◌, if◌then◌else◌, map,
}
use wadjet_link.Bytes.{◌>>=◌}
use wadjet_link.Uds.ServiceId
use wadjet_link.Uds.Types
use wadjet_link.Uds.Types.{
  UdsHeader, UdsServiceMessage, DiagnosticSessionControlResponse, SecurityAccessResponse,
  NegativeResponseMessage, diagnostic_session_control_response, security_access_response,
  ecu_reset_request, negative_response_message,
}
use wadjet_link.Uds.Message.{UdsResult, ok, err, decode}
use wadjet_link.Uds.Session.Security
use wadjet_link.Uds.Session.Security.{SecurityState, key_accepted, milliseconds}

pub data SessionState : Type 0 where
  idle active timed_out : SessionState

pub data SessionEvent : Type 0 where
  session_started session_changed session_ended : SessionEvent
  security_unlocked security_locked : SessionEvent
  response_pending tester_present_received : SessionEvent

pub record TimingParameters : Type 0 where
  pub p2_server_max : ℕ
  pub p2_star_server_max : ℕ
  pub s3_server : ℕ

abbrev pub default_values : TimingParameters
default_values = record { p2_server_max = 50; p2_star_server_max = 5000; s3_server = 5000 }

abbrev pub programming_values : TimingParameters
programming_values = record { p2_server_max = 50; p2_star_server_max = 5000; s3_server = 5000 }

-- `SessionType` is its byte.
abbrev pub default_session : ℕ
default_session = 1

abbrev pub programming_session : ℕ
programming_session = 2

pub record UdsSession : Type 0 where
  pub ecu_address : ℕ
  pub session_type : ℕ
  pub state : SessionState
  pub timing : TimingParameters
  pub security : SecurityState
  pub last_activity : ℕ
  pub session_start : ℕ
  pub callbacks : List ℕ
  pub called : List (ℕ × SessionEvent)

unfoldable pub new_session : ℕ → ℕ → UdsSession
new_session ecu now = record {
  ecu_address = ecu;
  session_type = default_session;
  state = idle;
  timing = default_values;
  security = [];
  last_activity = now;
  session_start = now;
  callbacks = [];
  called = [];
}

unfoldable pub emit_event : SessionEvent → UdsSession → UdsSession
emit_event event s = record s { called = s.called ++ map (λ c. (c, event)) s.callbacks }

unfoldable pub update_activity : ℕ → UdsSession → UdsSession
update_activity now s = record s { last_activity = now }

unfoldable pub reset_internal : ℕ → UdsSession → UdsSession
reset_internal now s = emit_event session_ended (record s {
  session_type = default_session;
  state = idle;
  timing = default_values;
  security = Security.reset s.security;
  last_activity = now;
})

-- The security levels are locked unless the type stays the same.
unfoldable pub transition_to_session : ℕ → ℕ → UdsSession → UdsSession
transition_to_session now type s = record s {
  session_type = type;
  state = active;
  session_start = now;
  security = if s.session_type == type then s.security else Security.reset s.security;
  timing = if type == programming_session then programming_values else s.timing;
}

abbrev pub is_idle : SessionState → Bool
is_idle idle = true
is_idle active = false
is_idle timed_out = false

-- `if (resp.p2_server_max_ms > 0)` and the like; the second is in units of ten milliseconds.
abbrev pub with_timing : DiagnosticSessionControlResponse → TimingParameters → TimingParameters
with_timing resp t = record t {
  p2_server_max = if ltb 0 resp.p2_server_max_ms then resp.p2_server_max_ms else t.p2_server_max;
  p2_star_server_max =
      if ltb 0 resp.p2_star_server_max_ms
      then resp.p2_star_server_max_ms * 10 % 2 ^ 32
      else t.p2_star_server_max;
}

unfoldable pub handle_diagnostic_session_control_response :
    ℕ → DiagnosticSessionControlResponse → UdsSession → UdsSession
handle_diagnostic_session_control_response now resp s =
    let s1 = transition_to_session now resp.session_type s in
    let s2 = record s1 { timing = with_timing resp s1.timing } in
    if is_idle s.state
    then emit_event session_started s2
    else if s.session_type == resp.session_type
    then s2
    else emit_event session_changed s2

unfoldable pub handle_security_access_response : SecurityAccessResponse → UdsSession → UdsSession
handle_security_access_response resp s =
    if resp.access_type % 2 == 1
    then s
    else emit_event security_unlocked
        (record s { security = key_accepted ((resp.access_type + 1) / 2 % 2 ^ 8) s.security })

unfoldable pub handle_tester_present : ℕ → UdsSession → UdsSession
handle_tester_present now s = emit_event tester_present_received (update_activity now s)

-- 0x78 is `RequestCorrectlyReceivedResponsePending`, 0x35 `InvalidKey` and 0x36
-- `ExceededNumberOfAttempts`.
unfoldable pub handle_negative_response : NegativeResponseMessage → UdsSession → UdsSession
handle_negative_response nrc s =
    if nrc.negative_response_code == 0x78
    then emit_event response_pending s
    else if nrc.rejected_service_id == ServiceId.security_access
        && (nrc.negative_response_code == 0x35 || nrc.negative_response_code == 0x36)
    then emit_event security_locked s
    else s

-- `std::get_if` of each alternative, and nothing where the message is another.
unfoldable pub refuse : UdsServiceMessage → UdsSession → UdsSession
refuse (negative_response_message nrc) s = handle_negative_response nrc s
refuse m s = s

unfoldable pub session_response : ℕ → UdsServiceMessage → UdsSession → UdsSession
session_response now (diagnostic_session_control_response resp) s =
    handle_diagnostic_session_control_response now resp s
session_response now m s = s

unfoldable pub security_response : UdsServiceMessage → UdsSession → UdsSession
security_response (security_access_response resp) s = handle_security_access_response resp s
security_response m s = s

unfoldable pub reset_request : ℕ → UdsServiceMessage → UdsSession → UdsSession
reset_request now (ecu_reset_request req) s = reset_internal now s
reset_request now m s = s

-- The handlers of a request to change the session and of a request for access do nothing.
unfoldable pub dispatch : ℕ → ℕ → UdsServiceMessage → Bool → UdsSession → UdsSession
dispatch now sid m is_request s =
    if sid == ServiceId.diagnostic_session_control
    then (if is_request then s else session_response now m s)
    else if sid == ServiceId.security_access
    then (if is_request then s else security_response m s)
    else if sid == ServiceId.tester_present
    then handle_tester_present now s
    else if sid == ServiceId.ecu_reset
    then (if is_request then reset_request now m s else s)
    else s

unfoldable pub process_decoded : ℕ → UdsHeader → UdsServiceMessage → Bool → UdsSession → UdsSession
process_decoded now header m is_request s =
    let s1 = update_activity now s in
    if Types.is_negative_response header
    then refuse m s1
    else dispatch now header.service_id m is_request s1

unfoldable pub process_result : ℕ → UdsResult → Bool → UdsSession → Bool × UdsSession
process_result now (err e) is_request s = (false, s)
process_result now (ok r) is_request s = (true, process_decoded now r.header r.message is_request s)

-- `none` is an access outside the bytes.
unfoldable pub process_message : ℕ → List ℕ → Bool → UdsSession → Option (Bool × UdsSession)
process_message now bs is_request s = decode bs >>= λ r. some (process_result now r is_request s)

unfoldable pub update_timing : TimingParameters → UdsSession → UdsSession
update_timing params s = record s { timing = params }

unfoldable pub on_event : ℕ → UdsSession → UdsSession
on_event callback s = record s { callbacks = s.callbacks ++ callback ∷ [] }

unfoldable pub clear_callbacks : UdsSession → UdsSession
clear_callbacks s = record s { callbacks = [] }

unfoldable pub refresh_timeout : ℕ → UdsSession → UdsSession
refresh_timeout now s = emit_event tester_present_received (update_activity now s)
