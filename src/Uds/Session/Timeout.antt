-- ===== src/Uds/Session/Timeout.antt =====
-- The S3 timer: how long a session counts as active, and what a late message finds.
use wadjet_link.Prelude.{ℕ, ◌≡◌, refl, Bool, true, false, arith}
use wadjet_link.Uds.Types.{
  MessageDirection, request, positive_response, negative_response, UdsServiceMessage,
  DiagnosticSessionControlResponse, SecurityAccessResponse, NegativeResponseMessage,
  diagnostic_session_control_response, security_access_response, ecu_reset_request,
  negative_response_message,
}
use wadjet_link.Uds.Reads.{Fits}
use wadjet_link.Uds.Session.{
  UdsSession, active, emit_event, update_activity, transition_to_session,
  handle_diagnostic_session_control_response, handle_security_access_response,
  handle_tester_present, handle_negative_response, refuse, session_response, security_response,
  reset_request, dispatch,
}
use wadjet_link.Uds.Session.Unlocking.{act}

-- The session is active with the default S3 time, and its last message came at this time.
pub record IsAlive (last : ℕ) (s : UdsSession) : Type 0 where
  pub running : s.state ≡ active
  pub five_seconds : s.timing.s3_server ≡ 5000
  pub since : s.last_activity ≡ last

abbrev pub resets : UdsServiceMessage → Bool → Bool
resets (ecu_reset_request r) true = true
resets m is_request = false

module _ (now : ℕ) where
  handle_session-IsAlive :
      (r : DiagnosticSessionControlResponse) (s : UdsSession)
      → IsAlive now s
      → IsAlive now (handle_diagnostic_session_control_response now r s)
  unfolding handle_diagnostic_session_control_response transition_to_session emit_event
  handle_session-IsAlive r s h = ground arith

  handle_security-IsAlive :
      (r : SecurityAccessResponse) (s : UdsSession)
      → IsAlive now s
      → IsAlive now (handle_security_access_response r s)
  unfolding handle_security_access_response emit_event
  handle_security-IsAlive r s h = ground arith

  refuse_nrc-IsAlive :
      (r : NegativeResponseMessage) (s : UdsSession)
      → IsAlive now s
      → IsAlive now (handle_negative_response r s)
  unfolding handle_negative_response emit_event
  refuse_nrc-IsAlive r s h = ground arith

  tester_present-IsAlive :
      (s : UdsSession) → IsAlive now s → IsAlive now (handle_tester_present now s)
  unfolding handle_tester_present update_activity emit_event
  tester_present-IsAlive s h = ground arith

  dispatch_neutral-IsAlive :
      (sid : ℕ) (m : UdsServiceMessage) (is_request : Bool) (s : UdsSession)
      → session_response now m s ≡ s
      → security_response m s ≡ s
      → reset_request now m s ≡ s
      → IsAlive now s
      → IsAlive now (dispatch now sid m is_request s)
  unfolding dispatch
  dispatch_neutral-IsAlive sid m is_request s a b c h = ground (arith, tester_present-IsAlive s h)

  pub act-IsAlive :
      (sid : ℕ) (d : MessageDirection) (m : UdsServiceMessage) (is_request : Bool) (s : UdsSession)
      → Fits sid d m
      → resets m is_request ≡ false
      → IsAlive now s
      → IsAlive now (act now sid d m is_request s)
  unfolding dispatch refuse session_response security_response reset_request
  act-IsAlive sid d (diagnostic_session_control_response r) false s (e, f) n h =
      rw (e, f) (handle_session-IsAlive r s h)
  act-IsAlive sid d (diagnostic_session_control_response r) true s (e, f) n h = rw (e, f) h
  act-IsAlive sid d (security_access_response r) false s (e, f) n h =
      rw (e, f) (handle_security-IsAlive r s h)
  act-IsAlive sid d (security_access_response r) true s (e, f) n h = rw (e, f) h
  act-IsAlive sid d (ecu_reset_request r) false s (e, f) n h = rw (e, f) h
  act-IsAlive sid d (ecu_reset_request r) true s (e, f) n h = cc
  act-IsAlive sid d (negative_response_message r) is_request s (e, f) n h =
      rw e (refuse_nrc-IsAlive r s h)
  act-IsAlive sid request m is_request s f n h =
      dispatch_neutral-IsAlive sid m is_request s refl refl refl h
  act-IsAlive sid positive_response m is_request s f n h =
      dispatch_neutral-IsAlive sid m is_request s refl refl refl h
  act-IsAlive sid negative_response m is_request s f n h = h
