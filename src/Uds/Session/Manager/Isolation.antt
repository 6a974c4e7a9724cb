-- ===== src/Uds/Session/Manager/Isolation.antt =====
-- A message to one ECU and the sessions of the others.
use wadjet_link.Prelude.{
  ℕ, ◌≡◌, ◌≢◌, refl, List, Bool, none, some, inl, inr, Option-cases, arith, ne→==,
}
use wadjet_link.Prelude.Assoc.{nat_eq, lookup, insert, lookup-insert}
use wadjet_link.Bytes.{IsBytes}
use wadjet_link.Uds.Message.Total.{decode-Explains}
use wadjet_link.Uds.Session
use wadjet_link.Uds.Session.{UdsSession, new_session, process_result}
use wadjet_link.Uds.Session.Manager.{UdsSessionManager, register, get_session, process_message}

-- The session that `get_session` gives: the one that is known, or a new one with the callbacks of
-- the manager.
abbrev pub session_of : ℕ → ℕ → UdsSessionManager → UdsSession
session_of now ecu m = elim (lookup ecu m.sessions) [
  | none ↦ register m.global_callbacks (new_session ecu now)
  | some session ↦ session
]

module _ (now ecu : ℕ) (m : UdsSessionManager) where
  get_session_gives : (get_session now ecu m).0 ≡ session_of now ecu m
  unfolding get_session
  get_session_gives = elim (Option-cases (lookup ecu m.sessions)) [
    | inl n ↦ rw (get_session, session_of, n) refl
    | inr (s, e) ↦ rw (get_session, session_of, e) refl
  ]

  get_session_keeps :
      (other : ℕ)
      → ecu ≢ other
      → lookup other (get_session now ecu m).1.sessions ≡ lookup other m.sessions
  unfolding get_session
  get_session_keeps other d = elim (Option-cases (lookup ecu m.sessions)) [
    | inl n ↦ rw (get_session, n, lookup-insert, ne→== ecu other d) refl
    | inr (s, e) ↦ rw (get_session, e) refl
  ]

  get_session_callbacks : (get_session now ecu m).1.global_callbacks ≡ m.global_callbacks
  unfolding get_session
  get_session_callbacks = elim (Option-cases (lookup ecu m.sessions)) [
    | inl n ↦ rw (get_session, n) refl
    | inr (s, e) ↦ rw (get_session, e) refl
  ]

  -- A message to an ECU is processed by its own session, which is made first if it is not there
  -- yet, and the outcome is kept as the session of this ECU. The session of every other ECU and the
  -- callbacks of the manager stay as they are.
  pub process_message_isolates :
      (bs : List ℕ) (is_request : Bool)
      → IsBytes bs
      → (decoded : Bool) × (t : UdsSession) × (m1 : UdsSessionManager) × (process_message now ecu bs
            is_request m
          ≡ some (decoded, m1))
        × (Session.process_message now bs is_request (session_of now ecu m) ≡ some (decoded, t))
        × (lookup ecu m1.sessions ≡ some t)
        × ((other : ℕ) → ecu ≢ other → lookup other m1.sessions ≡ lookup other m.sessions)
        × (m1.global_callbacks ≡ m.global_callbacks)
  unfolding process_message Session.process_message
  process_message_isolates bs is_request h =
      let (r, d, _) = decode-Explains bs h in
      let outcome = process_result now r is_request (session_of now ecu m) in
      let m0 = (get_session now ecu m).1 in
      let m1 = record m0 { sessions = insert ecu outcome.1 m0.sessions } in
      (
        outcome.0,
        outcome.1,
        m1,
        rw (process_message, Session.process_message, d, get_session_gives) refl,
        rw (Session.process_message, d) refl,
        ground (arith, lookup-insert ecu ecu outcome.1 m0.sessions),
        λ other diff. rw (lookup-insert, ne→== ecu other diff) (get_session_keeps other diff),
        get_session_callbacks,
      )
