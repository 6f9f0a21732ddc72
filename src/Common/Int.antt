-- ===== src/Common/Int.antt =====
-- Go's `int` as a signed integer, and the arithmetic of 64-bit words that durations use.
use Prim.Native.Nat.{ℕ, ◌+◌, ◌-◌, ◌%◌}
use mathlib.Core.Bool.{Bool, true, false, ◌&&◌}
use bundle_broadcaster.Common.Tests.{ltb, if◌then◌else◌}

-- `negsuc n` is -(n + 1).
pub data ℤ : Type 0 where
  pos : ℕ → ℤ
  negsuc : ℕ → ℤ

-- `n > 0`
abbrev pub is_positive : ℤ → Bool
is_positive (pos n) = ltb 0 n
is_positive (negsuc n) = false

-- `n < 0`
abbrev pub is_negative : ℤ → Bool
is_negative (pos n) = false
is_negative (negsuc n) = true

abbrev pub to_ℕ : ℤ → ℕ
to_ℕ (pos n) = n
to_ℕ (negsuc n) = 0

-- An int64 is kept as its bit pattern, a number below 2 ^ 64.
abbrev pub word : ℕ → ℕ
word n = n % 18446744073709551616

-- The sign test of an int64: `w > 0`.
abbrev pub word_positive : ℕ → Bool
word_positive w = ltb 0 w && ltb w 9223372036854775808

-- `t.Add(d)` for a duration d given by its bit pattern. A negative one moves back.
abbrev pub add_duration : ℕ → ℕ → ℕ
add_duration t d = if ltb d 9223372036854775808 then t + d else t - (18446744073709551616 - d)
