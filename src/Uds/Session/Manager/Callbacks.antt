-- ===== src/Uds/Session/Manager/Callbacks.antt =====
-- A callback of the manager is a callback of every session, of those that are there and of those that
-- come.
use wadjet_link.Prelude.{
  ℕ, ◌≡◌, refl, sym, subst, ap, ◌∙◌, List, [], ◌∷◌, ◌++◌, Bool, Option, none, some, inl, inr,
  Option-cases, arith, append-nil, append_assoc,
}
use wadjet_link.Prelude.Assoc.{
  nat_eq, lookup, insert, Values, lookup-Values, insert-Values, erase-Values,
}
use wadjet_link.Uds.Types.{
  UdsServiceMessage, DiagnosticSessionControlResponse, diagnostic_session_control_response,
  security_access_response, ecu_reset_request, negative_response_message,
}
use wadjet_link.Uds.Message.{UdsResult, ok, err, decode}
use wadjet_link.Uds.Session
use wadjet_link.Uds.Session.{
  UdsSession, new_session, emit_event, update_activity, reset_internal, transition_to_session,
  handle_diagnostic_session_control_response, handle_security_access_response,
  handle_tester_present, handle_negative_response, refuse, session_response, security_response,
  reset_request, dispatch, process_decoded, process_result,
}
use wadjet_link.Uds.Session.Manager
use wadjet_link.Uds.Session.Manager.{
  UdsSessionManager, register, get_session, each, reset_all, remove_session,
}

module _ (now : ℕ) (s : UdsSession) where
  handle_session-callbacks :
      (r : DiagnosticSessionControlResponse)
      → (handle_diagnostic_session_control_response now r s).callbacks ≡ s.callbacks
  unfolding handle_diagnostic_session_control_response transition_to_session emit_event
  handle_session-callbacks r = ground arith

  session_response-callbacks :
      (m : UdsServiceMessage) → (session_response now m s).callbacks ≡ s.callbacks
  unfolding session_response
  session_response-callbacks (diagnostic_session_control_response r) = handle_session-callbacks r
  session_response-callbacks m = refl

  security_response-callbacks :
      (m : UdsServiceMessage) → (security_response m s).callbacks ≡ s.callbacks
  unfolding security_response handle_security_access_response emit_event
  security_response-callbacks (security_access_response r) = ground arith
  security_response-callbacks m = refl

  reset_request-callbacks :
      (m : UdsServiceMessage) → (reset_request now m s).callbacks ≡ s.callbacks
  unfolding reset_request reset_internal emit_event
  reset_request-callbacks (ecu_reset_request r) = refl
  reset_request-callbacks m = refl

  refuse-callbacks : (m : UdsServiceMessage) → (refuse m s).callbacks ≡ s.callbacks
  unfolding refuse handle_negative_response emit_event
  refuse-callbacks (negative_response_message r) = ground arith
  refuse-callbacks m = refl

  dispatch-callbacks :
      (sid : ℕ) (m : UdsServiceMessage) (is_request : Bool)
      → (dispatch now sid m is_request s).callbacks ≡ s.callbacks
  unfolding dispatch handle_tester_present update_activity emit_event
  dispatch-callbacks sid m is_request = ground (
    arith,
    session_response-callbacks m,
    security_response-callbacks m,
    reset_request-callbacks m,
  )

process_result-callbacks :
    (now : ℕ) (s : UdsSession) (r : UdsResult) (is_request : Bool)
    → (process_result now r is_request s).1.callbacks ≡ s.callbacks
unfolding process_result process_decoded update_activity
process_result-callbacks now s (err e) is_request = refl
process_result-callbacks now s (ok r) is_request = ground (
  arith,
  refuse-callbacks now (update_activity now s) r.message,
  dispatch-callbacks now (update_activity now s) r.header.service_id r.message is_request,
)

-- Every session has just the callbacks of the manager, in their order.
abbrev pub AllRegistered : UdsSessionManager → Type 0
AllRegistered m = Values (λ s. s.callbacks ≡ m.global_callbacks) m.sessions

register-callbacks : (cs : List ℕ) (s : UdsSession) → (register cs s).callbacks ≡ s.callbacks ++ cs
unfolding register Session.on_event
register-callbacks [] s = sym (append-nil s.callbacks)
register-callbacks (c ∷ cs) s =
    register-callbacks cs (Session.on_event c s) ∙ append_assoc s.callbacks (c ∷ []) cs

each-Values :
    (P Q : UdsSession → Type 0) (f : UdsSession → UdsSession)
    → ((s : UdsSession) → P s → Q (f s))
    → (sessions : List (ℕ × UdsSession)) → Values P sessions
    → Values Q (each f sessions)
unfolding each
each-Values P Q f h [] v = tt
each-Values P Q f h ((ecu, s) ∷ sessions) (p, v) = (h s p, each-Values P Q f h sessions v)

get_session-AllRegistered :
    (now ecu : ℕ) (m : UdsSessionManager)
    → AllRegistered m
    → AllRegistered (get_session now ecu m).1
      × ((get_session now ecu m).0.callbacks ≡ m.global_callbacks)
      × ((get_session now ecu m).1.global_callbacks ≡ m.global_callbacks)
unfolding get_session new_session
get_session-AllRegistered now ecu m h = elim (Option-cases (lookup ecu m.sessions)) [
  | inl n ↦
      let fresh = register-callbacks m.global_callbacks (new_session ecu now) in
      rw (get_session, n)
        (
          insert-Values (λ s. s.callbacks ≡ m.global_callbacks) ecu _ m.sessions fresh h,
          fresh,
          refl,
        )
  | inr (s, e) ↦
      rw (get_session, e)
        (h, lookup-Values (λ s. s.callbacks ≡ m.global_callbacks) ecu m.sessions h e, refl)
]

pub data Step (m : UdsSessionManager) : UdsSessionManager → Type 0 where
  message :
      (now ecu : ℕ) (bs : List ℕ) (is_request decoded : Bool) (m1 : UdsSessionManager)
      → Manager.process_message now ecu bs is_request m ≡ some (decoded, m1)
      → Step m m1
  session_given : (now ecu : ℕ) → Step m (get_session now ecu m).1
  all_reset : (now : ℕ) → Step m (reset_all now m)
  session_removed : (ecu : ℕ) → Step m (remove_session ecu m)
  callback_added : (c : ℕ) → Step m (Manager.on_event c m)

pub data Reached : UdsSessionManager → Type 0 where
  created : Reached (record { sessions = []; global_callbacks = [] })
  next : {m m1 : UdsSessionManager} → Reached m → Step m m1 → Reached m1

process_message-AllRegistered :
    (now ecu : ℕ) (bs : List ℕ) (is_request decoded : Bool) (m m1 : UdsSessionManager)
    → Manager.process_message now ecu bs is_request m ≡ some (decoded, m1)
    → AllRegistered m
    → AllRegistered m1
unfolding Manager.process_message Session.process_message
process_message-AllRegistered now ecu bs is_request decoded m m1 e h =
    elim (Option-cases (decode bs)) [
      | inl n ↦
          let bad : ◌≡◌ {A = Option (Bool × UdsSessionManager)} none (some (decoded, m1)) =
            rw (Manager.process_message, Session.process_message, n) at e in
          cc
      | inr (r, d) ↦
          let (a, b, c) = get_session-AllRegistered now ecu m h in
          let outcome = process_result now r is_request (get_session now ecu m).0 in
          let m2 = record (get_session now ecu m).1 {
            sessions = insert ecu outcome.1 (get_session now ecu m).1.sessions;
          } in
          let done : some (outcome.0, m2) ≡ some (decoded, m1) =
            rw (Manager.process_message, Session.process_message, d) at e in
          let same : m2 ≡ m1 = cc done in
          let kept : outcome.1.callbacks ≡ m2.global_callbacks =
            process_result-callbacks now (get_session now ecu m).0 r is_request ∙ b ∙ sym c in
          subst AllRegistered same (
            insert-Values (λ s. s.callbacks ≡ m2.global_callbacks) ecu outcome.1
              (get_session now ecu m).1.sessions kept a)
    ]

Step-AllRegistered : {m m1 : UdsSessionManager} → Step m m1 → AllRegistered m → AllRegistered m1
unfolding reset_all remove_session Manager.on_event Session.on_event reset_internal emit_event
Step-AllRegistered {m} {m1} (message now ecu bs is_request decoded m2 e) h =
    process_message-AllRegistered now ecu bs is_request decoded m m1 e h
Step-AllRegistered {m} (session_given now ecu) h =
    let (a, b, c) = get_session-AllRegistered now ecu m h in a
Step-AllRegistered {m} (all_reset now) h =
    each-Values (λ s. s.callbacks ≡ m.global_callbacks) (λ s. s.callbacks ≡ m.global_callbacks)
      (reset_internal now) (λ s p. p) m.sessions h
Step-AllRegistered {m} (session_removed ecu) h =
    erase-Values (λ s. s.callbacks ≡ m.global_callbacks) ecu m.sessions h
Step-AllRegistered {m} (callback_added c) h =
    each-Values (λ s. s.callbacks ≡ m.global_callbacks)
      (λ s. s.callbacks ≡ m.global_callbacks ++ c ∷ []) (Session.on_event c)
      (λ s p. ap (λ cs. cs ++ c ∷ []) p) m.sessions h

-- After any sequence of messages, resets, removals and registrations, the callbacks of every
-- session are those of the manager in the order of registration, however old the session is.
pub Reached-AllRegistered : {m : UdsSessionManager} → Reached m → AllRegistered m
Reached-AllRegistered created = tt
Reached-AllRegistered (next r st) = Step-AllRegistered st (Reached-AllRegistered r)
