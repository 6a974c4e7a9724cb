-- ===== src/Uds/Session/Invariant.antt =====
-- What holds of a session whatever happens to it: the messages of either side, with bytes of any
-- kind, and the other operations that change it, in any order and at any times.
use wadjet_link.Prelude.{
  ℕ, ◌+◌, ◌/◌, ◌%◌, ◌^◌, ◌≡◌, refl, [], ◌∷◌, Bool, none, ◌==◌, ◌⊎◌, inl, inr, Bool-cases, arith,
}
use wadjet_link.Prelude.Assoc.{nat_eq, Values, insert-Values}
use wadjet_link.Uds.Types.{
  UdsServiceMessage, DiagnosticSessionControlResponse, SecurityAccessResponse,
  NegativeResponseMessage, diagnostic_session_control_response, security_access_response,
  ecu_reset_request, negative_response_message,
}
use wadjet_link.Uds.Message.{UdsResult, ok, err}
use wadjet_link.Uds.Session.{
  UdsSession, SessionEvent, is_idle, idle, active, default_session, emit_event, update_activity,
  reset_internal, transition_to_session, handle_diagnostic_session_control_response,
  handle_security_access_response, handle_tester_present, handle_negative_response, refuse,
  session_response, security_response, reset_request, dispatch, process_decoded, process_result,
}
use wadjet_link.Uds.Session.Security
use wadjet_link.Uds.Session.Security.{
  SecurityLevelState, SecurityState, level_reset, key_accepted, is_locked_out, level_locked_out,
}

-- No wrong key is counted, nothing is locked out and no seed is kept.
abbrev pub Unharmed : SecurityLevelState → Type 0
Unharmed l = (l.failed_attempts ≡ 0) × (l.lockout_until ≡ none) × (l.current_seed ≡ [])

-- And the stored state is idle, in the default session, or active.
pub record IsSound (s : UdsSession) : Type 0 where
  pub levels : Values Unharmed s.security
  pub settled : ((s.state ≡ idle) × (s.session_type ≡ default_session)) ⊎ (s.state ≡ active)

reset-Values :
    (levels : SecurityState) → Values Unharmed levels → Values Unharmed (Security.reset levels)
unfolding Security.reset level_reset
reset-Values [] h = tt
reset-Values ((j, l) ∷ levels) (h, hs) = ((h.0, h.1, refl), reset-Values levels hs)

key_accepted-Values :
    (level : ℕ) (levels : SecurityState)
    → Values Unharmed levels
    → Values Unharmed (key_accepted level levels)
unfolding key_accepted
key_accepted-Values level levels h = insert-Values Unharmed level _ levels (refl, refl, refl) h

emit_event-IsSound :
    (event : SessionEvent) (s : UdsSession) → IsSound s → IsSound (emit_event event s)
unfolding emit_event
emit_event-IsSound event s h = record { levels = h.levels; settled = h.settled }

pub reset_internal-IsSound : (now : ℕ) (s : UdsSession) → IsSound s → IsSound (reset_internal now s)
unfolding reset_internal emit_event
reset_internal-IsSound now s h = record {
  levels = reset-Values s.security h.levels;
  settled = inl (refl, refl);
}

pub transition-IsSound :
    (now type : ℕ) (s : UdsSession) → IsSound s → IsSound (transition_to_session now type s)
unfolding transition_to_session
transition-IsSound now type s h = elim (Bool-cases (s.session_type == type)) [
  | inl e ↦ record { levels = rw e h.levels; settled = inr refl }
  | inr e ↦ record { levels = rw e (reset-Values s.security h.levels); settled = inr refl }
]

handle_session-IsSound :
    (now : ℕ) (r : DiagnosticSessionControlResponse) (s : UdsSession)
    → IsSound s
    → IsSound (handle_diagnostic_session_control_response now r s)
unfolding handle_diagnostic_session_control_response emit_event
handle_session-IsSound now r s h =
    let moved = transition-IsSound now r.session_type s h in
    elim (Bool-cases (is_idle s.state)) [
      | inl i ↦
          rw (handle_diagnostic_session_control_response, i)
            (record { levels = moved.levels; settled = moved.settled })
      | inr i ↦ elim (Bool-cases (s.session_type == r.session_type)) [
        | inl e ↦
            rw (handle_diagnostic_session_control_response, i, e)
              (record { levels = moved.levels; settled = moved.settled })
        | inr e ↦
            rw (handle_diagnostic_session_control_response, i, e)
              (record { levels = moved.levels; settled = moved.settled })
      ]
    ]

handle_security-IsSound :
    (r : SecurityAccessResponse) (s : UdsSession)
    → IsSound s
    → IsSound (handle_security_access_response r s)
unfolding handle_security_access_response emit_event
handle_security-IsSound r s h = elim (Bool-cases (r.access_type % 2 == 1)) [
  | inl e ↦ rw (handle_security_access_response, e) h
  | inr e ↦
      let level = (r.access_type + 1) / 2 % 2 ^ 8 in
      rw (handle_security_access_response, e)
        (record { levels = key_accepted-Values level s.security h.levels; settled = h.settled })
]

refuse_nrc-IsSound :
    (r : NegativeResponseMessage) (s : UdsSession)
    → IsSound s
    → IsSound (handle_negative_response r s)
unfolding handle_negative_response
refuse_nrc-IsSound r s h = ground (
  arith,
  emit_event-IsSound SessionEvent.response_pending s h,
  emit_event-IsSound SessionEvent.security_locked s h,
)

module _ (now : ℕ) (s : UdsSession) (h : IsSound s) where
  tester_present-IsSound : IsSound (handle_tester_present now s)
  unfolding handle_tester_present update_activity emit_event
  tester_present-IsSound = record { levels = h.levels; settled = h.settled }

  session_response-IsSound : (m : UdsServiceMessage) → IsSound (session_response now m s)
  unfolding session_response
  session_response-IsSound (diagnostic_session_control_response r) =
      handle_session-IsSound now r s h
  session_response-IsSound m = h

  security_response-IsSound : (m : UdsServiceMessage) → IsSound (security_response m s)
  unfolding security_response
  security_response-IsSound (security_access_response r) = handle_security-IsSound r s h
  security_response-IsSound m = h

  reset_request-IsSound : (m : UdsServiceMessage) → IsSound (reset_request now m s)
  unfolding reset_request
  reset_request-IsSound (ecu_reset_request r) = reset_internal-IsSound now s h
  reset_request-IsSound m = h

  refuse-IsSound : (m : UdsServiceMessage) → IsSound (refuse m s)
  unfolding refuse
  refuse-IsSound (negative_response_message r) = refuse_nrc-IsSound r s h
  refuse-IsSound m = h

  dispatch-IsSound :
      (sid : ℕ) (m : UdsServiceMessage) (is_request : Bool)
      → IsSound (dispatch now sid m is_request s)
  unfolding dispatch
  dispatch-IsSound sid m is_request = ground (
    arith,
    tester_present-IsSound,
    session_response-IsSound m,
    security_response-IsSound m,
    reset_request-IsSound m,
  )

module _ (now : ℕ) (s : UdsSession) (h : IsSound s) where
  pub process_result-IsSound :
      (r : UdsResult) (is_request : Bool) → IsSound (process_result now r is_request s).1
  unfolding process_result process_decoded update_activity
  process_result-IsSound (err e) is_request = h
  process_result-IsSound (ok r) is_request =
      let s1 = update_activity now s in
      let h1 : IsSound s1 = record { levels = h.levels; settled = h.settled } in
      ground (
        arith,
        refuse-IsSound now s1 h1 r.message,
        dispatch-IsSound now s1 h1 r.header.service_id r.message is_request,
      )
