-- ===== src/Base/Int64.antt =====
-- Go's int64: an integer with two's-complement wrap-around, over the native numbers.
use Prim.Native.Nat.{ℕ, suc, ◌+◌, ◌-◌, ◌%◌, ◌<◌, ◌≤◌}
use mathlib.Core.Path.{◌≡◌}
use mathlib.Core.Bool.{Bool, true, false}
use native.Mathlib.Omega.{arith}
use arkade_runtime.Base.Tests.{ltb, if◌then◌else◌}

-- `negsuc n` is -(n + 1).
pub data ℤ : Type 0 where
  pos : ℕ → ℤ
  negsuc : ℕ → ℤ

abbrev pub pos_part : ℤ → ℕ
pos_part (pos n) = n
pos_part (negsuc n) = 0

abbrev pub neg_part : ℤ → ℕ
neg_part (pos n) = 0
neg_part (negsuc n) = suc n

infix 50 ◌≤ℤ◌
abbrev pub ◌≤ℤ◌ : ℤ → ℤ → Type 0
a ≤ℤ b = pos_part a + neg_part b ≤ pos_part b + neg_part a

abbrev pub ltb_ℤ : ℤ → ℤ → Bool
ltb_ℤ a b = ltb (pos_part a + neg_part b) (pos_part b + neg_part a)

abbrev pub is_neg : ℤ → Bool
is_neg (pos n) = false
is_neg (negsuc n) = true

-- 2^63 and 2^64.
abbrev pub int64_half : ℕ
int64_half = 9223372036854775808

abbrev pub uint64_mod : ℕ
uint64_mod = 18446744073709551616

abbrev pub uint32_mod : ℕ
uint32_mod = 4294967296

-- 1<<63 - 1
abbrev pub max_int64 : ℤ
max_int64 = pos 9223372036854775807

-- The conversions uint64(x) and int64(n).
abbrev pub to_u64 : ℤ → ℕ
to_u64 (pos n) = n % uint64_mod
to_u64 (negsuc n) = (uint64_mod - 1 - n % uint64_mod) % uint64_mod

abbrev pub of_u64 : ℕ → ℤ
of_u64 n = if ltb n int64_half then pos n else negsuc (uint64_mod - 1 - n)

abbrev pub int64_add : ℤ → ℤ → ℤ
int64_add a b = of_u64 ((to_u64 a + to_u64 b) % uint64_mod)

abbrev pub int64_sub : ℤ → ℤ → ℤ
int64_sub a b = of_u64 ((to_u64 a + uint64_mod - to_u64 b) % uint64_mod)

-- A value that an int64 holds.
abbrev pub InInt64 : ℤ → Type 0
InInt64 (pos n) = n < int64_half
InInt64 (negsuc n) = n < int64_half

pub int64_sub_le : (a b : ℕ) → a < int64_half → b ≤ a → int64_sub (pos a) (pos b) ≡ pos (a - b)
int64_sub_le a b h k = ground arith
