-- ===== src/Prelude/Integers.antt =====
-- Integers over the native numbers, as far as durations need them.
use Prim.Native.Nat.{ℕ, zero, suc, ◌-◌, ◌/◌}
use mathlib.Core.Bool.{Bool, false}
use wadjet_link.Prelude.Tests.{if◌then◌else◌, ltb, leb}

pub data ℤ : Type 0 where
  pos : ℕ → ℤ
  negsuc : ℕ → ℤ

abbrev pub neg : ℕ → ℤ
neg zero = pos 0
neg (suc n) = negsuc n

-- `duration_cast` of `later - earlier` to a unit of `u` ticks, which rounds towards 0.
abbrev pub duration : ℕ → ℕ → ℕ → ℤ
duration u later earlier =
    if leb earlier later then pos ((later - earlier) / u) else neg ((earlier - later) / u)

abbrev pub exceeds : ℤ → ℕ → Bool
exceeds (pos n) limit = ltb limit n
exceeds (negsuc n) limit = false
