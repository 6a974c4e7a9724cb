-- ===== src/Uds/Session/Reach.antt =====
-- The sessions that any sequence of operations reaches.
use wadjet_link.Prelude.{ℕ, ◌≡◌, refl, List, Bool, false, none, some, subst, inl, inr, Option-cases}
use wadjet_link.Prelude.Assoc.{nat_eq, lookup, Values, lookup-Values}
use wadjet_link.Uds.Types.{UdsHeader, UdsServiceMessage}
use wadjet_link.Uds.Message.{ok, decode}
use wadjet_link.Uds.Session.{
  UdsSession, TimingParameters, new_session, emit_event, update_activity, reset_internal,
  transition_to_session, process_decoded, process_result, process_message, update_timing, on_event,
  clear_callbacks, refresh_timeout,
}
use wadjet_link.Uds.Session.Security.{SecurityState, is_locked_out, level_locked_out}
use wadjet_link.Uds.Session.Invariant.{
  Unharmed, IsSound, process_result-IsSound, reset_internal-IsSound, transition-IsSound,
}

no_result : (r : Bool × UdsSession) → none ≡ some r → ⊥
no_result r h = cc

pub data Step (s : UdsSession) : UdsSession → Type 0 where
  message :
      (now : ℕ) (bs : List ℕ) (is_request decoded : Bool) (t : UdsSession)
      → process_message now bs is_request s ≡ some (decoded, t)
      → Step s t
  message_decoded :
      (now : ℕ) (h : UdsHeader) (m : UdsServiceMessage) (is_request : Bool)
      → Step s (process_decoded now h m is_request s)
  timing_updated : (t : TimingParameters) → Step s (update_timing t s)
  session_reset : (now : ℕ) → Step s (reset_internal now s)
  timeout_refreshed : (now : ℕ) → Step s (refresh_timeout now s)
  type_forced : (now type : ℕ) → Step s (transition_to_session now type s)
  callback_added : (c : ℕ) → Step s (on_event c s)
  callbacks_cleared : Step s (clear_callbacks s)

pub data Reached (ecu now : ℕ) : UdsSession → Type 0 where
  created : Reached ecu now (new_session ecu now)
  next : {s t : UdsSession} → Reached ecu now s → Step s t → Reached ecu now t

Step-IsSound : {s t : UdsSession} → Step s t → IsSound s → IsSound t
unfolding process_message update_timing refresh_timeout on_event clear_callbacks emit_event
    update_activity process_decoded process_result
Step-IsSound {s} (message now bs is_request decoded t e) h = elim (Option-cases (decode bs)) [
  | inl n ↦ absurd (no_result (decoded, t) (rw n at e))
  | inr (r, d) ↦
      let done : some (process_result now r is_request s) ≡ some (decoded, t) = rw d at e in
      let same : (process_result now r is_request s).1 ≡ t = cc done in
      subst IsSound same (process_result-IsSound now s h r is_request)
]
Step-IsSound {s} (message_decoded now header m is_request) h =
    process_result-IsSound now s h (ok (record { header = header; message = m })) is_request
Step-IsSound (timing_updated t) h = record { levels = h.levels; settled = h.settled }
Step-IsSound {s} (session_reset now) h = reset_internal-IsSound now s h
Step-IsSound (timeout_refreshed now) h = record { levels = h.levels; settled = h.settled }
Step-IsSound {s} (type_forced now type) h = transition-IsSound now type s h
Step-IsSound (callback_added c) h = record { levels = h.levels; settled = h.settled }
Step-IsSound callbacks_cleared h = record { levels = h.levels; settled = h.settled }

IsSound-Reached : {ecu now : ℕ} {s : UdsSession} → Reached ecu now s → IsSound s
unfolding new_session
IsSound-Reached created = record { levels = tt; settled = inl (refl, refl) }
IsSound-Reached (next r st) = Step-IsSound st (IsSound-Reached r)

never_locked :
    (later level : ℕ) (levels : SecurityState)
    → Values Unharmed levels
    → is_locked_out later level levels ≡ false
unfolding is_locked_out level_locked_out
never_locked later level levels h = elim (Option-cases (lookup level levels)) [
  | inl n ↦ rw (is_locked_out, n) refl
  | inr (l, e) ↦
      let (a, b, c) = lookup-Values Unharmed level levels h e in
      rw (is_locked_out, e, level_locked_out, b) refl
]

-- In every session that was created and then met any messages, decoded or raw, and any of its other
-- operations, no wrong key was ever counted, no level is locked out at any time, and no seed is
-- kept, so `key_rejected` and `seed_requested` leave no trace: nothing calls them. The stored state
-- is idle, and then the session is the default one, or active; it is never timed out.
pub Reached-IsSound :
    {ecu now : ℕ} {s : UdsSession}
    → Reached ecu now s
    → IsSound s × ((later level : ℕ) → is_locked_out later level s.security ≡ false)
Reached-IsSound {s} r =
    let h = IsSound-Reached r in (h, λ later level. never_locked later level s.security h.levels)
