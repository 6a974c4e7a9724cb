-- ===== src/Uds/Session/Security.antt =====
-- `SecurityLevelState` and `SecurityState`: what is known of each security level. `levels_[level]`
-- makes a new entry where there is none.
pub mod Laws
use wadjet_link.Prelude.{
  ℕ, ◌+◌, ◌-◌, ◌*◌, ◌/◌, ◌%◌, ◌^◌, List, [], ◌∷◌, Bool, true, false, not, ◌&&◌, ◌||◌, Option, none,
  some, ltb, leb, if◌then◌else◌,
}
use wadjet_link.Prelude.Assoc.{nat_eq, lookup, insert}

abbrev pub milliseconds : ℕ
milliseconds = 10 ^ 6

abbrev pub max_failed_attempts : ℕ
max_failed_attempts = 3

-- ten seconds
abbrev pub default_lockout_duration : ℕ
default_lockout_duration = 10 * 10 ^ 9

pub record SecurityLevelState : Type 0 where
  pub level : ℕ
  pub unlocked : Bool
  pub failed_attempts : ℕ
  pub lockout_until : Option ℕ
  pub current_seed : List ℕ

abbrev pub new_level : SecurityLevelState
new_level = record {
  level = 0;
  unlocked = false;
  failed_attempts = 0;
  lockout_until = none;
  current_seed = [];
}

abbrev pub before : ℕ → Option ℕ → Bool
before now none = false
before now (some until) = ltb now until

unfoldable pub level_locked_out : ℕ → SecurityLevelState → Bool
level_locked_out now l = before now l.lockout_until

unfoldable pub level_reset : SecurityLevelState → SecurityLevelState
level_reset l = record l { unlocked = false; current_seed = [] }

abbrev pub SecurityState : Type 0
SecurityState = List (ℕ × SecurityLevelState)

unfoldable pub level_open : ℕ → SecurityLevelState → Bool
unfolding level_locked_out
level_open now l = l.unlocked && not (level_locked_out now l)

unfoldable pub is_unlocked : ℕ → ℕ → SecurityState → Bool
is_unlocked now level levels = elim (lookup level levels) [
  | none ↦ false
  | some l ↦ level_open now l
]

unfoldable pub highest_from : ℕ → ℕ → SecurityState → ℕ
highest_from now highest [] = highest
highest_from now highest ((level, l) ∷ levels) =
    highest_from now (if level_open now l && ltb highest level then level else highest) levels

unfoldable pub highest_unlocked_level : ℕ → SecurityState → ℕ
highest_unlocked_level now levels = highest_from now 0 levels

unfoldable pub any_unlocked : ℕ → SecurityState → Bool
any_unlocked now [] = false
any_unlocked now ((level, l) ∷ levels) = level_open now l || any_unlocked now levels

-- The entry that `levels_[level]` refers to.
unfoldable pub level_state : ℕ → SecurityState → SecurityLevelState
level_state level levels = elim (lookup level levels) [ none ↦ new_level | some l ↦ l ]

unfoldable pub seed_requested : ℕ → List ℕ → SecurityState → SecurityState
seed_requested level seed levels =
    insert level (record (level_state level levels) { level = level; current_seed = seed }) levels

unfoldable pub key_accepted : ℕ → SecurityState → SecurityState
key_accepted level levels =
    insert level
      (record (level_state level levels) {
        level = level;
        unlocked = true;
        failed_attempts = 0;
        lockout_until = none;
        current_seed = [];
      })
      levels

abbrev pub reject : ℕ → ℕ → SecurityLevelState → SecurityLevelState
reject level now l =
    let attempts = (l.failed_attempts + 1) % 2 ^ 8 in
    record l {
      level = level;
      failed_attempts = attempts;
      current_seed = [];
      lockout_until =
          if leb max_failed_attempts attempts
          then some (now + default_lockout_duration)
          else l.lockout_until;
    }

unfoldable pub key_rejected : ℕ → ℕ → SecurityState → SecurityState
key_rejected level now levels = insert level (reject level now (level_state level levels)) levels

unfoldable pub is_locked_out : ℕ → ℕ → SecurityState → Bool
is_locked_out now level levels = elim (lookup level levels) [
  | none ↦ false
  | some l ↦ level_locked_out now l
]

abbrev pub remaining : ℕ → Option ℕ → ℕ
remaining now none = 0
remaining now (some until) = if leb until now then 0 else (until - now) / milliseconds

unfoldable pub lockout_remaining : ℕ → ℕ → SecurityState → ℕ
lockout_remaining now level levels = elim (lookup level levels) [
  | none ↦ 0
  | some l ↦ remaining now l.lockout_until
]

unfoldable pub reset : SecurityState → SecurityState
reset [] = []
reset ((level, l) ∷ levels) = (level, level_reset l) ∷ reset levels

abbrev pub get_level_state : ℕ → SecurityState → Option SecurityLevelState
get_level_state level levels = lookup level levels
