-- ===== src/Base/Int.antt =====
-- Signed integers over the native numbers: Go's `int` and `int64` where a value may be negative.
use Prim.Native.Nat.{ℕ, suc, ◌+◌, ◌-◌, ◌*◌, ◌%◌, ◌≤◌, ◌<◌}
use mathlib.Core.Bool.{Bool, cond}
use thiam_api.Base.Tests.{ltb, leb}

-- `negsuc n` is -(n + 1).
pub data ℤ : Type 0 where
  pos : ℕ → ℤ
  negsuc : ℕ → ℤ

abbrev pub pos_part : ℤ → ℕ
pos_part (pos n) = n
pos_part (negsuc n) = 0

abbrev pub neg_part : ℤ → ℕ
neg_part (pos n) = 0
neg_part (negsuc n) = suc n

infix 50 ◌≤ℤ◌ ◌<ℤ◌
abbrev pub ◌≤ℤ◌ : ℤ → ℤ → Type 0
a ≤ℤ b = pos_part a + neg_part b ≤ pos_part b + neg_part a

abbrev pub ◌<ℤ◌ : ℤ → ℤ → Type 0
a <ℤ b = pos_part a + neg_part b < pos_part b + neg_part a

abbrev pub ltb_ℤ : ℤ → ℤ → Bool
ltb_ℤ a b = ltb (pos_part a + neg_part b) (pos_part b + neg_part a)

abbrev pub leb_ℤ : ℤ → ℤ → Bool
leb_ℤ a b = leb (pos_part a + neg_part b) (pos_part b + neg_part a)

-- The int64 with a bit pattern, 2 ^ 63 and 2 ^ 64 being written out.
abbrev pub int64_of_bits : ℕ → ℤ
int64_of_bits m = cond (ltb m 9223372036854775808) (pos m) (negsuc (18446744073709551615 - m))

-- A product with a natural number, in an int64.
abbrev pub int64_times : ℤ → ℕ → ℤ
int64_times (pos n) k = int64_of_bits (n * k % 18446744073709551616)
int64_times (negsuc n) k =
    int64_of_bits ((18446744073709551616 - suc n * k % 18446744073709551616) % 18446744073709551616)
