-- ===== src/Base/Int64.antt =====
-- Go's fixed-width signed integers as bit patterns: an int64 is a number below 2 ^ 64, read as a
-- signed value by its top bit; likewise int32. `int` has 64 bits.
use Prim.Native.Nat.{ℕ, ◌+◌, ◌-◌, ◌%◌, ◌^◌, ◌<◌}
use mathlib.Core.Path.{◌≡◌}
use mathlib.Core.Bool.{Bool}
use native.Mathlib.Omega.{arith}
use k8s_dencer.Base.Tests.{ltb, leb, if◌then◌else◌}

-- Arithmetic that wraps around.
unfoldable pub add64 : ℕ → ℕ → ℕ
add64 a b = (a + b) % 2 ^ 64

unfoldable pub sub64 : ℕ → ℕ → ℕ
sub64 a b = (a + 2 ^ 64 - b % 2 ^ 64) % 2 ^ 64

-- Signed order: flipping the top bit turns it into the order of the patterns.
unfoldable pub le64 : ℕ → ℕ → Bool
le64 a b = leb ((a + 2 ^ 63) % 2 ^ 64) ((b + 2 ^ 63) % 2 ^ 64)

unfoldable pub lt64 : ℕ → ℕ → Bool
lt64 a b = ltb ((a + 2 ^ 63) % 2 ^ 64) ((b + 2 ^ 63) % 2 ^ 64)

-- `max64` of resources.go.
unfoldable pub max64 : ℕ → ℕ → ℕ
unfolding lt64
max64 a b = if lt64 b a then a else b

unfoldable pub le32 : ℕ → ℕ → Bool
le32 a b = leb ((a + 2 ^ 31) % 2 ^ 32) ((b + 2 ^ 31) % 2 ^ 32)

unfoldable pub lt32 : ℕ → ℕ → Bool
lt32 a b = ltb ((a + 2 ^ 31) % 2 ^ 32) ((b + 2 ^ 31) % 2 ^ 32)

-- `int32(x)` of an `int`.
unfoldable pub to_int32 : ℕ → ℕ
to_int32 a = a % 2 ^ 32

-- The pattern of -1.
abbrev pub minus_one : ℕ
minus_one = 2 ^ 64 - 1

-- A value that is not negative.
abbrev pub IsNat64 : ℕ → Type 0
IsNat64 a = a < 2 ^ 63

pub add64-eq_add : (a b : ℕ) → a + b < 2 ^ 63 → add64 a b ≡ a + b
unfolding add64
add64-eq_add a b h = omega arith

pub add64-lt : (a b : ℕ) → add64 a b < 2 ^ 64
unfolding add64
add64-lt a b = omega arith

pub le64-eq-leb : (a b : ℕ) → a < 2 ^ 63 → b < 2 ^ 63 → le64 a b ≡ leb a b
unfolding le64
le64-eq-leb a b ha hb = ground arith

pub lt64-eq-ltb : (a b : ℕ) → a < 2 ^ 63 → b < 2 ^ 63 → lt64 a b ≡ ltb a b
unfolding lt64
lt64-eq-ltb a b ha hb = ground arith

-- Between values that are not negative, the clamped difference is the truncated one.
pub max64-sub64 : (a b : ℕ) → a < 2 ^ 63 → b < 2 ^ 63 → max64 (sub64 a b) 0 ≡ a - b
unfolding max64 sub64
max64-sub64 a b ha hb = ground arith

-- A clamped value is never negative.
pub max64_zero-lt : (a : ℕ) → a < 2 ^ 64 → max64 a 0 < 2 ^ 63
unfolding max64
max64_zero-lt a h = ground arith
