-- ===== src/Base/Int.antt =====
-- Signed integers over the native numbers.
use Prim.Native.Nat.{ℕ, ◌+◌, ◌-◌}
use mathlib.Core.Bool.{Bool, true, false}
use agent_harness_runtime.Base.Tests.{ltb, ◌==◌, if◌then◌else◌}

-- Go's `int` and `int64`, which a file may give a negative value; `negsuc n` is -(n + 1).
pub data ℤ : Type 0 where
  pos negsuc : ℕ → ℤ

abbrev pub int_eq : ℤ → ℤ → Bool
int_eq (pos a) (pos b) = a == b
int_eq (negsuc a) (negsuc b) = a == b
int_eq _ _ = false

abbrev pub is_negative : ℤ → Bool
is_negative (pos a) = false
is_negative (negsuc a) = true

abbrev pub int_lt : ℤ → ℤ → Bool
int_lt (pos a) (pos b) = ltb a b
int_lt (pos a) (negsuc b) = false
int_lt (negsuc a) (pos b) = true
int_lt (negsuc a) (negsuc b) = ltb b a

abbrev pub nat_sub : ℕ → ℕ → ℤ
nat_sub a b = if ltb a b then negsuc (b - a - 1) else pos (a - b)

abbrev pub int_sub : ℤ → ℤ → ℤ
int_sub (pos a) (pos b) = nat_sub a b
int_sub (pos a) (negsuc b) = pos (a + b + 1)
int_sub (negsuc a) (pos b) = negsuc (a + b)
int_sub (negsuc a) (negsuc b) = nat_sub b a

abbrev pub is_positive : ℤ → Bool
is_positive (pos a) = ltb 0 a
is_positive (negsuc a) = false

-- The value of a number that is not negative.
abbrev pub magnitude : ℤ → ℕ
magnitude (pos n) = n
magnitude (negsuc n) = 0
