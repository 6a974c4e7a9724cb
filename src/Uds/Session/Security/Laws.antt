-- ===== src/Uds/Session/Security/Laws.antt =====
-- Which levels the operations unlock and lock out.
use wadjet_link.Prelude.{
  ℕ, ◌+◌, ◌%◌, ◌^◌, ◌≡◌, refl, [], ◌∷◌, true, false, some, ltb, leb, ◌==◌, if◌then◌else◌, inl, inr,
  Bool-cases, Option-cases, arith, ==_iff,
}
use wadjet_link.Prelude.Assoc.{nat_eq, lookup, lookup-insert}
use wadjet_link.Uds.Session.Security.{
  SecurityState, level_locked_out, level_open, level_reset, is_unlocked, level_state, key_accepted,
  key_rejected, reject, is_locked_out, reset, max_failed_attempts, default_lockout_duration,
}

module _ (now level other : ℕ) (levels : SecurityState) where
  pub is_unlocked-key_accepted :
      is_unlocked now other (key_accepted level levels)
      ≡ (if level == other then true else is_unlocked now other levels)
  unfolding is_unlocked key_accepted level_open
  is_unlocked-key_accepted = elim (Bool-cases (level == other)) [
    | inl e ↦ rw (is_unlocked, key_accepted, lookup-insert, e) refl
    | inr e ↦ rw (is_unlocked, key_accepted, lookup-insert, e) refl
  ]

pub is_unlocked-reset :
    (now level : ℕ) (levels : SecurityState) → is_unlocked now level (reset levels) ≡ false
unfolding is_unlocked reset lookup level_open level_reset
is_unlocked-reset now level [] = refl
is_unlocked-reset now level ((j, l) ∷ levels) = elim (Bool-cases (j == level)) [
  | inl e ↦ rw (is_unlocked, reset, lookup, e) refl
  | inr e ↦ rw (is_unlocked, reset, lookup, e) (is_unlocked-reset now level levels)
]

abbrev pub attempts : ℕ → SecurityState → ℕ
attempts level levels = (level_state level levels).failed_attempts

module _ (now level later : ℕ) (levels : SecurityState) where
  abbrev rejected : SecurityState
  rejected = key_rejected level now levels

  found : lookup level rejected ≡ some (reject level now (level_state level levels))
  unfolding key_rejected
  found =
      ground (arith, lookup-insert level level (reject level now (level_state level levels)) levels)

  known : is_locked_out later level levels ≡ level_locked_out later (level_state level levels)
  unfolding is_locked_out level_state level_locked_out
  known = elim (Option-cases (lookup level levels)) [
    | inl n ↦ rw (is_locked_out, level_state, n) refl
    | inr (l, e) ↦ rw (is_locked_out, level_state, e) refl
  ]

  rejected_self : is_locked_out later level rejected ≡ (
      if leb max_failed_attempts ((attempts level levels + 1) % 2 ^ 8)
      then ltb later (now + default_lockout_duration)
      else is_locked_out later level levels)
  unfolding level_locked_out is_locked_out
  rejected_self =
      elim (Bool-cases (leb max_failed_attempts ((attempts level levels + 1) % 2 ^ 8))) [
        | inl e ↦ rw (e, is_locked_out, found, e) refl
        | inr e ↦ rw (e, known, is_locked_out, found, e) refl
      ]

  rejected_other :
      (other : ℕ)
      → (level == other) ≡ false
      → is_locked_out later other rejected ≡ is_locked_out later other levels
  unfolding is_locked_out key_rejected
  rejected_other other e = rw (is_locked_out, key_rejected, lookup-insert, e) refl

-- A wrong key counts against its level alone. The third and each later one in a row locks the level
-- out for ten seconds from the rejection on, and before that the level is as locked out as it was;
-- the count has eight bits, so the 256th wrong key no longer renews the lockout.
pub is_locked_out-key_rejected :
    (now level later other : ℕ) (levels : SecurityState)
    → is_locked_out later other (key_rejected level now levels) ≡ (
        if level == other
        then (if leb max_failed_attempts ((attempts level levels + 1) % 2 ^ 8)
            then ltb later (now + default_lockout_duration)
            else is_locked_out later other levels)
        else is_locked_out later other levels)
is_locked_out-key_rejected now level later other levels = elim (Bool-cases (level == other)) [
  | inl e ↦
      let same : level ≡ other = (==_iff level other).0 e in
      rw (e, ← same) (rejected_self now level later levels)
  | inr e ↦ rw e (rejected_other now level later levels other e)
]
