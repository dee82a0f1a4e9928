-- ===== src/Base/Int.antt =====
-- Signed integers over the native numbers, and Go's `int64` (and `int`) as its bit pattern.
use Prim.Native.Nat.{ℕ, suc, ◌+◌, ◌-◌, ◌≤◌, ◌<◌, ◌%◌, ◌^◌}
use mathlib.Core.Bool.{Bool}
use octosql.Base.Tests.{ltb, leb, if◌then◌else◌}

-- `negsuc n` is -(n + 1).
pub data ℤ : Type 0 where
  pos : ℕ → ℤ
  negsuc : ℕ → ℤ

abbrev pub pos_part : ℤ → ℕ
pos_part (pos n) = n
pos_part (negsuc n) = 0

abbrev pub neg_part : ℤ → ℕ
neg_part (pos n) = 0
neg_part (negsuc n) = suc n

-- a - b, as an integer.
abbrev pub sub_ℕ : ℕ → ℕ → ℤ
sub_ℕ a b = if leb b a then pos (a - b) else negsuc (b - a - 1)

infix 50 ◌≤ℤ◌ ◌<ℤ◌
abbrev pub ◌≤ℤ◌ : ℤ → ℤ → Type 0
a ≤ℤ b = pos_part a + neg_part b ≤ pos_part b + neg_part a

abbrev pub ◌<ℤ◌ : ℤ → ℤ → Type 0
a <ℤ b = pos_part a + neg_part b < pos_part b + neg_part a

-- A 64-bit word, and the integer that it stands for in two's complement.
abbrev pub word_mod : ℕ
word_mod = 2 ^ 64

abbrev pub sign_bit : ℕ
sign_bit = 2 ^ 63

abbrev pub signed : ℕ → ℤ
signed w = if ltb w sign_bit then pos w else negsuc (word_mod - w - 1)

-- Go's `x < y` on int64.
abbrev pub int_less : ℕ → ℕ → Bool
int_less x y =
    ltb (pos_part (signed x) + neg_part (signed y)) (pos_part (signed y) + neg_part (signed x))

-- Go's `+` and `-` on int64 wrap.
abbrev pub int_add : ℕ → ℕ → ℕ
int_add x y = (x + y) % word_mod

abbrev pub int_sub : ℕ → ℕ → ℕ
int_sub x y = (x + word_mod - y) % word_mod

-- `x > 0` on int64.
abbrev pub int_positive : ℕ → Bool
int_positive x = int_less 0 x
