-- ===== src/Common/Int.antt =====
-- Signed integers over the native numbers, under the library's names (its ℤ stands on the unary ℕ),
-- and the two machine widths of the program: an `int32` that wraps, an `int64` that saturates.
use Prim.Native.Nat.{ℕ, suc, ◌+◌, ◌-◌, ◌%◌, ◌^◌, ◌≤◌, ◌<◌}
use mathlib.Core.Path.{◌≡◌, refl}
use mathlib.Core.Bool.{Bool}
use native.Mathlib.Omega.{arith}
use native.Mathlib.Decide.{ℕ_discrete}
use distributed_group_member.Common.Tests.{ltb, leb, ◌==◌, if◌then◌else◌}

-- `negsuc n` is -(n + 1).
pub data ℤ : Type 0 where
  pos : ℕ → ℤ
  negsuc : ℕ → ℤ

pub ℤ-discrete : Discrete ℤ
ℤ-discrete = hlevel ℕ_discrete

abbrev pub pos_part : ℤ → ℕ
pos_part (pos n) = n
pos_part (negsuc n) = 0

abbrev pub neg_part : ℤ → ℕ
neg_part (pos n) = 0
neg_part (negsuc n) = suc n

-- a - b, as an integer.
abbrev pub sub_ℕ : ℕ → ℕ → ℤ
sub_ℕ a b = if leb b a then pos (a - b) else negsuc (b - a - 1)

infixl 65 ◌+ℤ◌
infix 50 ◌≤ℤ◌ ◌<ℤ◌
unfoldable pub ◌+ℤ◌ : ℤ → ℤ → ℤ
a +ℤ b = sub_ℕ (pos_part a + pos_part b) (neg_part a + neg_part b)

abbrev pub ◌≤ℤ◌ : ℤ → ℤ → Type 0
a ≤ℤ b = pos_part a + neg_part b ≤ pos_part b + neg_part a

abbrev pub ◌<ℤ◌ : ℤ → ℤ → Type 0
a <ℤ b = pos_part a + neg_part b < pos_part b + neg_part a

-- The comparisons `a < b` and `a == b` of the source.
abbrev pub ltb_ℤ : ℤ → ℤ → Bool
ltb_ℤ a b = ltb (pos_part a + neg_part b) (pos_part b + neg_part a)

abbrev pub leb_ℤ : ℤ → ℤ → Bool
leb_ℤ a b = leb (pos_part a + neg_part b) (pos_part b + neg_part a)

abbrev pub eqb_ℤ : ℤ → ℤ → Bool
eqb_ℤ a b = (pos_part a + neg_part b) == (pos_part b + neg_part a)

pub eq_of_parts : (a b : ℤ) → pos_part a + neg_part b ≡ pos_part b + neg_part a → a ≡ b
eq_of_parts a b h = ground arith

-- int32: the value modulo 2 ^ 32, read as a two's complement word.
abbrev pub word_value : ℕ → ℤ
word_value w = if ltb w (2 ^ 31) then pos w else negsuc (2 ^ 32 - 1 - w)

abbrev pub wrap32 : ℤ → ℤ
wrap32 (pos n) = word_value (n % 2 ^ 32)
wrap32 (negsuc n) = word_value (2 ^ 32 - 1 - n % 2 ^ 32)

-- `x + 1` on an int32.
unfoldable pub inc32 : ℤ → ℤ
unfolding ◌+ℤ◌
inc32 a = wrap32 (a +ℤ pos 1)

-- The values that an int32 holds.
abbrev pub IsInt32 : ℤ → Type 0
IsInt32 a = (pos_part a < 2 ^ 31) × (neg_part a ≤ 2 ^ 31)

abbrev pub max_int32 : ℤ
max_int32 = pos (2 ^ 31 - 1)

-- int64 durations: `time.Time.Sub` saturates.
unfoldable pub saturate64 : ℤ → ℤ
saturate64 (pos n) = if ltb n (2 ^ 63) then pos n else pos (2 ^ 63 - 1)
saturate64 (negsuc n) = if ltb n (2 ^ 63) then negsuc n else negsuc (2 ^ 63 - 1)

pub inc32_lem : (a : ℤ) → IsInt32 a → a <ℤ max_int32 → a <ℤ inc32 a
unfolding inc32
inc32_lem a r h = ground arith

pub inc32-IsInt32 : (a : ℤ) → IsInt32 a → IsInt32 (inc32 a)
unfolding inc32
inc32-IsInt32 a r = ground arith

pub inc32_max : inc32 max_int32 ≡ negsuc (2 ^ 31 - 1)
unfolding inc32
inc32_max = refl

-- int64: likewise modulo 2 ^ 64.
abbrev pub word64_value : ℕ → ℤ
word64_value w = if ltb w (2 ^ 63) then pos w else negsuc (2 ^ 64 - 1 - w)

unfoldable pub wrap64 : ℤ → ℤ
wrap64 (pos n) = word64_value (n % 2 ^ 64)
wrap64 (negsuc n) = word64_value (2 ^ 64 - 1 - n % 2 ^ 64)
