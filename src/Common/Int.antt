-- ===== src/Common/Int.antt =====
-- Signed integers over the native numbers, and the conversions between machine integers.
use Prim.Native.Nat.{ℕ, suc, ◌+◌, ◌-◌, ◌%◌, ◌^◌}
use mathlib.Core.Bool.{Bool, true, false}
use Prim.Native.Nat.{◌<◌}
use mathlib.Core.Path.{◌≡◌}
use native.Mathlib.Omega.{arith}
use sdl_atf.Common.Tests.{ltb, leb, ◌==◌, if◌then◌else◌}

-- `negsuc n` is -(n + 1).
pub data ℤ : Type 0 where
  pos : ℕ → ℤ
  negsuc : ℕ → ℤ

abbrev pub pos_part : ℤ → ℕ
pos_part (pos n) = n
pos_part (negsuc n) = 0

abbrev pub neg_part : ℤ → ℕ
neg_part (pos n) = 0
neg_part (negsuc n) = suc n

-- a - b, as an integer.
abbrev pub sub_ℕ : ℕ → ℕ → ℤ
sub_ℕ a b = if leb b a then pos (a - b) else negsuc (b - a - 1)

infixl 65 ◌+ℤ◌ ◌-ℤ◌
abbrev pub ◌+ℤ◌ : ℤ → ℤ → ℤ
a +ℤ b = sub_ℕ (pos_part a + pos_part b) (neg_part a + neg_part b)

abbrev pub ◌-ℤ◌ : ℤ → ℤ → ℤ
a -ℤ b = sub_ℕ (pos_part a + neg_part b) (neg_part a + pos_part b)

abbrev pub is_neg : ℤ → Bool
is_neg (pos n) = false
is_neg (negsuc n) = true

-- 0 < z
abbrev pub is_pos : ℤ → Bool
is_pos (pos n) = ltb 0 n
is_pos (negsuc n) = false

abbrev pub int_eq : ℤ → ℤ → Bool
int_eq (pos a) (pos b) = a == b
int_eq (negsuc a) (negsuc b) = a == b
int_eq _ _ = false

-- Conversion to an unsigned integer of `w` bits.
abbrev pub to_unsigned : ℕ → ℤ → ℕ
to_unsigned w (pos n) = n % 2 ^ w
to_unsigned w (negsuc n) = 2 ^ w - 1 - n % 2 ^ w

-- The signed integer of `w` bits with the bit pattern `n`, for `n < 2 ^ w`.
abbrev pub of_pattern : ℕ → ℕ → ℤ
of_pattern w n = if ltb n (2 ^ (w - 1)) then pos n else negsuc (2 ^ w - 1 - n)

-- Conversion to a signed integer of `w` bits.
abbrev pub to_signed : ℕ → ℤ → ℤ
to_signed w z = of_pattern w (to_unsigned w z)

-- A `size_t` that is passed as an `int`.
unfoldable pub int_of_size : ℕ → ℤ
int_of_size n = to_signed 32 (pos n)

pub int_of_size_lem : (n : ℕ) → n < 2 ^ 31 → int_of_size n ≡ pos n
unfolding int_of_size
int_of_size_lem n h = ground arith

pub to_signed_int : (n : ℕ) → n < 2 ^ 31 → to_signed 32 (pos n) ≡ pos n
to_signed_int n h = ground arith

-- An `int` that is a port goes unchanged into a `quint16`.
pub to_unsigned-to_signed : (n : ℕ) → n < 2 ^ 16 → to_unsigned 16 (to_signed 32 (pos n)) ≡ n
to_unsigned-to_signed n h = ground arith
