-- ===== src/Uds/Session/Unlocking.antt =====
-- What a message does to the security levels.
use wadjet_link.Prelude.{
  ℕ, ◌+◌, ◌/◌, ◌%◌, ◌^◌, ◌≡◌, refl, Bool, true, false, not, ◌&&◌, ◌==◌, if◌then◌else◌, inl, inr,
  Bool-cases, arith,
}
use wadjet_link.Uds.Types
use wadjet_link.Uds.Types.{
  MessageDirection, request, positive_response, negative_response, UdsHeader, UdsServiceMessage,
  UdsDecodeResult, monostate, diagnostic_session_control_response, security_access_response,
  ecu_reset_request, NegativeResponseMessage, DiagnosticSessionControlResponse,
  SecurityAccessResponse, negative_response_message,
}
use wadjet_link.Uds.Reads.{Fits}
use wadjet_link.Uds.Session.{
  SessionEvent, UdsSession, emit_event, update_activity, reset_internal, transition_to_session,
  handle_diagnostic_session_control_response, handle_security_access_response,
  handle_tester_present, handle_negative_response, refuse, session_response, security_response,
  reset_request, dispatch, is_idle,
}
use wadjet_link.Uds.Session.Security.{is_unlocked}
use wadjet_link.Uds.Session.Security.Laws.{is_unlocked-key_accepted, is_unlocked-reset}

-- The message is the answer to a key of this level, and the message ends the session of this type.
abbrev pub grants : UdsServiceMessage → Bool → ℕ → Bool
grants (security_access_response r) false level =
    r.access_type % 2 == 0 && (r.access_type + 1) / 2 % 2 ^ 8 == level
grants m is_request level = false

abbrev pub ends : UdsServiceMessage → Bool → ℕ → Bool
ends (diagnostic_session_control_response r) false type = not (type == r.session_type)
ends (ecu_reset_request r) true type = true
ends m is_request type = false

-- The two branches of `process_decoded`.
abbrev pub act : ℕ → ℕ → MessageDirection → UdsServiceMessage → Bool → UdsSession → UdsSession
act now sid d m is_request s =
    if Types.is_negative_direction d then refuse m s else dispatch now sid m is_request s

module _ (later level : ℕ) where
  abbrev pub open_in : UdsSession → Bool
  open_in s = is_unlocked later level s.security

  abbrev pub after : Bool → Bool → Bool → Bool
  after granted ended before = if granted then true else if ended then false else before

  emit_event-open :
      (event : SessionEvent) (s : UdsSession) → open_in (emit_event event s) ≡ open_in s
  unfolding emit_event
  emit_event-open event s = refl

  handle_session-open :
      (now : ℕ) (r : DiagnosticSessionControlResponse) (s : UdsSession)
      → open_in (handle_diagnostic_session_control_response now r s)
        ≡ after false (not (s.session_type == r.session_type)) (open_in s)
  unfolding handle_diagnostic_session_control_response transition_to_session emit_event
  handle_session-open now r s = elim (Bool-cases (s.session_type == r.session_type)) [
    | inl e ↦ elim (Bool-cases (is_idle s.state)) [
      | inl i ↦ rw (handle_diagnostic_session_control_response, transition_to_session, e, i) refl
      | inr i ↦ rw (handle_diagnostic_session_control_response, transition_to_session, e, i) refl
    ]
    | inr e ↦
        let shut = is_unlocked-reset later level s.security in
        elim (Bool-cases (is_idle s.state)) [
          | inl i ↦
              rw (handle_diagnostic_session_control_response, transition_to_session, e, i) shut
          | inr i ↦
              rw (handle_diagnostic_session_control_response, transition_to_session, e, i) shut
        ]
  ]

  handle_security-open :
      (r : SecurityAccessResponse) (s : UdsSession)
      → open_in (handle_security_access_response r s)
        ≡ after
            (r.access_type % 2 == 0 && (r.access_type + 1) / 2 % 2 ^ 8 == level)
            false
            (open_in s)
  unfolding handle_security_access_response emit_event
  handle_security-open r s = elim (Bool-cases (r.access_type % 2 == 1)) [
    | inl e ↦
        let odd : (r.access_type % 2 == 0) ≡ false = ground arith in
        rw (handle_security_access_response, e, odd) refl
    | inr e ↦
        let even : (r.access_type % 2 == 0) ≡ true = ground arith in
        let accepted =
          is_unlocked-key_accepted later ((r.access_type + 1) / 2 % 2 ^ 8) level s.security in
        rw (handle_security_access_response, e, even) accepted
  ]

  module _ (now sid : ℕ) (m : UdsServiceMessage) (is_request : Bool) (s : UdsSession) where
    dispatch_neutral :
        session_response now m s ≡ s
        → security_response m s ≡ s
        → reset_request now m s ≡ s
        → open_in (dispatch now sid m is_request s) ≡ open_in s
    unfolding dispatch handle_tester_present update_activity emit_event
    dispatch_neutral a b c = ground arith

  refuse_nrc-open :
      (r : NegativeResponseMessage) (s : UdsSession)
      → open_in (handle_negative_response r s) ≡ open_in s
  unfolding handle_negative_response emit_event
  refuse_nrc-open r s = ground arith

  pub act-open :
      (now sid : ℕ) (d : MessageDirection) (m : UdsServiceMessage) (is_request : Bool)
      (s : UdsSession)
      → Fits sid d m
      → open_in (act now sid d m is_request s)
        ≡ after (grants m is_request level) (ends m is_request s.session_type) (open_in s)
  unfolding dispatch refuse session_response security_response reset_request reset_internal
      emit_event
  act-open now sid d (diagnostic_session_control_response r) false s (e, f) =
      rw (e, f) (handle_session-open now r s)
  act-open now sid d (diagnostic_session_control_response r) true s (e, f) = rw (e, f) refl
  act-open now sid d (security_access_response r) false s (e, f) =
      rw (e, f) (handle_security-open r s)
  act-open now sid d (security_access_response r) true s (e, f) = rw (e, f) refl
  act-open now sid d (ecu_reset_request r) false s (e, f) = rw (e, f) refl
  act-open now sid d (ecu_reset_request r) true s (e, f) =
      rw (e, f) (is_unlocked-reset later level s.security)
  act-open now sid d (negative_response_message r) is_request s (e, f) = rw e (refuse_nrc-open r s)
  act-open now sid request m is_request s f = dispatch_neutral now sid m is_request s refl refl refl
  act-open now sid positive_response m is_request s f =
      dispatch_neutral now sid m is_request s refl refl refl
  act-open now sid negative_response m is_request s f = refl
