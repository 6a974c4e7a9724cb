-- ===== src/Uds/Session/Manager.antt =====
-- `UdsSessionManager`: the sessions by ECU address. A new session gets the callbacks of the manager.
pub mod Isolation
pub mod Callbacks
use wadjet_link.Prelude.{
  ℕ, List, [], ◌∷◌, ◌++◌, Bool, true, false, Option, none, some, if◌then◌else◌,
}
use wadjet_link.Prelude.Assoc.{nat_eq, lookup, insert, erase}
use wadjet_link.Bytes.{◌>>=◌}
use wadjet_link.Uds.Session
use wadjet_link.Uds.Session.{UdsSession, new_session, reset_internal}
use wadjet_link.Uds.Session.Queries.{is_active}

pub record UdsSessionManager : Type 0 where
  pub sessions : List (ℕ × UdsSession)
  pub global_callbacks : List ℕ

unfoldable pub register : List ℕ → UdsSession → UdsSession
register [] s = s
register (callback ∷ callbacks) s = register callbacks (Session.on_event callback s)

unfoldable pub get_session : ℕ → ℕ → UdsSessionManager → UdsSession × UdsSessionManager
get_session now ecu m = elim (lookup ecu m.sessions) [
  | none ↦
      let session = register m.global_callbacks (new_session ecu now) in
      (session, record m { sessions = insert ecu session m.sessions })
  | some session ↦ (session, m)
]

unfoldable pub has_session : ℕ → UdsSessionManager → Bool
has_session ecu m = elim (lookup ecu m.sessions) [ none ↦ false | some session ↦ true ]

unfoldable pub process_message :
    ℕ → ℕ → List ℕ → Bool → UdsSessionManager → Option (Bool × UdsSessionManager)
process_message now ecu bs is_request m =
    let (session, m1) = get_session now ecu m in
    Session.process_message now bs is_request session >>= λ r.
    some (r.0, record m1 { sessions = insert ecu r.1 m1.sessions })

unfoldable pub active_in : ℕ → List (ℕ × UdsSession) → List ℕ
active_in now [] = []
active_in now ((ecu, session) ∷ sessions) =
    let rest = active_in now sessions in if is_active now session then ecu ∷ rest else rest

unfoldable pub active_sessions : ℕ → UdsSessionManager → List ℕ
active_sessions now m = active_in now m.sessions

unfoldable pub each : (UdsSession → UdsSession) → List (ℕ × UdsSession) → List (ℕ × UdsSession)
each f [] = []
each f ((ecu, session) ∷ sessions) = (ecu, f session) ∷ each f sessions

unfoldable pub reset_all : ℕ → UdsSessionManager → UdsSessionManager
reset_all now m = record m { sessions = each (reset_internal now) m.sessions }

unfoldable pub remove_session : ℕ → UdsSessionManager → UdsSessionManager
remove_session ecu m = record m { sessions = erase ecu m.sessions }

unfoldable pub on_event : ℕ → UdsSessionManager → UdsSessionManager
on_event callback m = record m {
  sessions = each (Session.on_event callback) m.sessions;
  global_callbacks = m.global_callbacks ++ callback ∷ [];
}
