-- ===== src/Common/Integers.antt =====
-- Signed machine integers: `ℤ`, and two's complement in a width.
use Prim.Native.Nat.{ℕ, suc, ◌+◌, ◌-◌, ◌/◌, ◌%◌, ◌^◌, ◌<◌}
use mathlib.Core.Path.{◌≡◌}
use mathlib.Core.Bool.{Bool}
use native.Mathlib.Omega.{arith}
use wroom.Common.Tests.{ltb, leb, if◌then◌else◌}

-- `negsuc n` is the number `- (n + 1)`.
pub data ℤ : Type 0 where
  pos negsuc : ℕ → ℤ

-- `as i8`, `as i16` and `as i32` of a word.
unfoldable pub signed : ℕ → ℕ → ℤ
signed w n = if ltb n (2 ^ (w - 1)) then pos n else negsuc (2 ^ w - n - 1)

-- `as u8`, `as u16` and `as u32` of an integer.
unfoldable pub unsigned : ℕ → ℤ → ℕ
unsigned w (pos n) = n % 2 ^ w
unsigned w (negsuc n) = 2 ^ w - 1 - n % 2 ^ w

-- `>>` on a signed integer.
unfoldable pub shr : ℤ → ℕ → ℤ
shr (pos n) s = pos (n / 2 ^ s)
shr (negsuc n) s = negsuc (n / 2 ^ s)

-- The integer has a two's complement form of some width.
abbrev pub FitsSigned : ℕ → ℤ → Type 0
FitsSigned w (pos n) = n < 2 ^ (w - 1)
FitsSigned w (negsuc n) = n < 2 ^ (w - 1)

abbrev pub pos_part : ℤ → ℕ
pos_part (pos n) = n
pos_part (negsuc n) = 0

abbrev pub neg_part : ℤ → ℕ
neg_part (pos n) = 0
neg_part (negsuc n) = suc n

-- The difference of two naturals.
abbrev pub sub_ℕ : ℕ → ℕ → ℤ
sub_ℕ a b = if leb b a then pos (a - b) else negsuc (b - a - 1)

infixl 65 ◌+ℤ◌ ◌-ℤ◌
unfoldable pub ◌+ℤ◌ : ℤ → ℤ → ℤ
a +ℤ b = sub_ℕ (pos_part a + pos_part b) (neg_part a + neg_part b)

unfoldable pub ◌-ℤ◌ : ℤ → ℤ → ℤ
a -ℤ b = sub_ℕ (pos_part a + neg_part b) (neg_part a + pos_part b)

unfoldable pub abs : ℤ → ℕ
abs (pos n) = n
abs (negsuc n) = suc n

-- `/` rounds towards zero.
unfoldable pub div_trunc : ℤ → ℕ → ℤ
div_trunc (pos n) d = pos (n / d)
div_trunc (negsuc n) d = sub_ℕ 0 (suc n / d)

abbrev pub leb_ℤ : ℤ → ℤ → Bool
leb_ℤ a b = leb (pos_part a + neg_part b) (pos_part b + neg_part a)

-- `clamp(lo, hi)`.
unfoldable pub clamp : ℤ → ℤ → ℤ → ℤ
clamp lo hi a = if leb_ℤ a lo then lo else if leb_ℤ hi a then hi else a

pub add-sub_cancel : (p a : ℤ) → p +ℤ (a -ℤ p) ≡ a
unfolding ◌+ℤ◌ ◌-ℤ◌
add-sub_cancel (pos p) (pos a) = ground arith
add-sub_cancel (pos p) (negsuc a) = ground arith
add-sub_cancel (negsuc p) (pos a) = ground arith
add-sub_cancel (negsuc p) (negsuc a) = ground arith
