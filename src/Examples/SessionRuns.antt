-- ===== src/Examples/SessionRuns.antt =====
-- The UDS session at concrete inputs.
use wadjet_link.Prelude.{
  ℕ, ◌≡◌, ◌+◌, ◌*◌, ◌^◌, refl, List, [], ◌∷◌, Bool, true, false, none, some, arith, leb,
}
use wadjet_link.Prelude.Assoc.{nat_eq, lookup, insert}
use wadjet_link.Uds.Session.{
  UdsSession, active, timed_out, new_session, process_message, transition_to_session,
}
use wadjet_link.Uds.Session.Security.{
  is_unlocked, is_locked_out, key_rejected, level_open, level_state, level_locked_out,
}
use wadjet_link.Uds.Session.Queries.{is_active, state_at}
use wadjet_link.Uds.Session.Unlocked.{process_message_unlocks}
use wadjet_link.Uds.Session.Timeout.{IsAlive}
use wadjet_link.Uds.Session.Trace.{Message, run, s3_time, run_active, process_message_revives}
use wadjet_link.Uds.Message.{is_negative_response, is_positive_response}
use wadjet_link.Uds.Session.Invariant.{IsSound}
use wadjet_link.Uds.Session.Reach.{Reached-IsSound, created, next, type_forced}
use wadjet_link.Uds.Session.Manager.{UdsSessionManager}

-- An extended session of ECU 16 that began at time 5, with level 1 unlocked.
abbrev extended : UdsSession
extended = record (new_session 16 5) {
  session_type = 3;
  state = active;
  security =
      (
        1,
        record {
          level = 1;
          unlocked = true;
          failed_attempts = 0;
          lockout_until = none;
          current_seed = [];
        },
      )
      ∷ [];
}

process_message_unlocks_example :
    (decoded : Bool) × (t : UdsSession) × (process_message 9 (0x67 ∷ 4 ∷ []) false extended
      ≡ some (decoded, t))
    × (is_unlocked 20 2 t.security ≡ true)
process_message_unlocks_example =
    process_message_unlocks 9 20 2 false extended (0x67 ∷ 4 ∷ []) (omega arith)

extended-IsAlive : IsAlive 5 extended
unfolding new_session
extended-IsAlive = record { running = refl; five_seconds = refl; since = refl }

-- A tester present, and a refusal much later.
abbrev late : List Message
late =
    record { time = 8; bytes = 0x3e ∷ 0 ∷ []; is_request = true }
    ∷ record { time = 90 * 10 ^ 9; bytes = 0x7f ∷ 0x22 ∷ 0x31 ∷ []; is_request = false }
    ∷ []

run_active_example :
    (t : UdsSession) × (run late extended ≡ some t)
    × ((end : ℕ) → is_active end t ≡ leb end (90 * 10 ^ 9 + s3_time))
unfolding is_negative_response is_positive_response
run_active_example =
    run_active 5 late extended
      ((omega arith, omega arith, refl), ((omega arith, omega arith, refl), tt)) extended-IsAlive

process_message_revives_example :
    (state_at (9 * 10 ^ 9) extended ≡ timed_out)
    × ((t : UdsSession) × (process_message (9 * 10 ^ 9) (0x3e ∷ 0 ∷ []) true extended
          ≡ some (true, t))
        × (state_at (9 * 10 ^ 9) t ≡ active)
        × (is_unlocked (9 * 10 ^ 9) 1 t.security ≡ true))
unfolding is_negative_response is_positive_response is_unlocked lookup level_open
process_message_revives_example =
    process_message_revives (9 * 10 ^ 9) 5 1 (0x3e ∷ 0 ∷ []) true extended extended-IsAlive
      (omega arith) (omega arith, omega arith, refl) refl refl

-- A session that was forced into the extended type.
Reached-IsSound_example :
    IsSound (transition_to_session 7 3 (new_session 16 5))
    × ((later level : ℕ)
        → is_locked_out later level (transition_to_session 7 3 (new_session 16 5)).security ≡ false)
Reached-IsSound_example = Reached-IsSound {ecu = 16} {now = 5} (next created (type_forced 7 3))

abbrev manager : UdsSessionManager
manager = record { sessions = (16, extended) ∷ []; global_callbacks = 1 ∷ [] }

-- Three wrong keys in a row lock a level out.
three_wrong_keys :
    is_locked_out 20 1 (key_rejected 1 9 (key_rejected 1 8 (key_rejected 1 7 []))) ≡ true
unfolding is_locked_out key_rejected lookup insert level_state level_locked_out
three_wrong_keys = refl
