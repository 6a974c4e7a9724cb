-- ===== src/Uds/Session/Queries.antt =====
-- What a session tells at a time.
use wadjet_link.Prelude.{
  ℕ, ◌+◌, ◌-◌, ◌*◌, ◌/◌, Bool, true, false, not, ◌&&◌, Option, none, some, ltb, leb, if◌then◌else◌,
}
use wadjet_link.Uds.Session.{SessionState, idle, active, timed_out, is_idle, UdsSession}
use wadjet_link.Uds.Session.Security.{is_unlocked, highest_unlocked_level, milliseconds}

-- `now - last_activity_ > timing_.s3_server`
unfoldable pub is_timed_out : ℕ → UdsSession → Bool
is_timed_out now s =
    not (is_idle s.state) && ltb (s.last_activity + s.timing.s3_server * milliseconds) now

unfoldable pub state_at : ℕ → UdsSession → SessionState
unfolding is_timed_out
state_at now s = if is_timed_out now s then timed_out else s.state

abbrev pub is_active_state : SessionState → Bool
is_active_state idle = false
is_active_state active = true
is_active_state timed_out = false

unfoldable pub is_active : ℕ → UdsSession → Bool
unfolding is_timed_out
is_active now s = is_active_state s.state && not (is_timed_out now s)

-- The clock does not run backwards, so the difference is no negative number.
unfoldable pub time_since_activity : ℕ → UdsSession → ℕ
time_since_activity now s = (now - s.last_activity) / milliseconds

-- `none` is `milliseconds::max()`.
unfoldable pub timeout_remaining : ℕ → UdsSession → Option ℕ
unfolding time_since_activity
timeout_remaining now s =
    if is_idle s.state
    then none
    else if leb s.timing.s3_server (time_since_activity now s)
    then some 0
    else some (s.timing.s3_server - time_since_activity now s)

abbrev pub is_security_unlocked : ℕ → ℕ → UdsSession → Bool
is_security_unlocked now level s = is_unlocked now level s.security

abbrev pub highest_security_level : ℕ → UdsSession → ℕ
highest_security_level now s = highest_unlocked_level now s.security
