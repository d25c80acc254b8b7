-- ===== src/Common/Bits.antt =====
-- Single bits of a number, and how `|`, `<<` and truncation to a width act on them.
use Prim.Native.Nat.{
  ℕ, zero, suc, ◌+◌, ◌-◌, ◌*◌, ◌/◌, ◌%◌, ◌^◌, ◌≤◌, ◌<◌, max, bit_or, digits, bit_or-bitwise,
}
use mathlib.Core.Path.{◌≡◌, refl, sym, ap}
use native.Mathlib.Nat.{pow-suc, one-le-pow, div-add-mod'}
use native.Mathlib.Omega.{arith}
use wroom.Common.Tests.{ltb, nat_beq, if◌then◌else◌}

-- Bit `i` of `n`: `(n >> i) & 1`.
unfoldable pub bit : ℕ → ℕ → ℕ
bit n zero = n % 2
bit n (suc i) = bit (n / 2) i

-- The recursion that `bit_or` stands for.
abbrev or_digits : ℕ → ℕ → ℕ → ℕ
or_digits n a b = digits (λ b. b) max n a b

or_digits_fuel : (fuel more a b : ℕ) → a ≤ fuel → a ≤ more → or_digits fuel a b ≡ or_digits more a b
or_digits_fuel zero zero a b le le' = refl
or_digits_fuel zero (suc more) zero b le le' = refl
or_digits_fuel zero (suc more) (suc a) b le le' = absurd (omega arith)
or_digits_fuel (suc fuel) zero zero b le le' = refl
or_digits_fuel (suc fuel) zero (suc a) b le le' = absurd (omega arith)
or_digits_fuel (suc fuel) (suc more) zero b le le' = refl
or_digits_fuel (suc fuel) (suc more) (suc a) b le le' =
    omega (arith, or_digits_fuel fuel more (suc a / 2) (b / 2) (omega arith) (omega arith))

zero-bit_or : (b : ℕ) → bit_or 0 b ≡ b
zero-bit_or b = bit_or-bitwise 0 b

pub bit_or_step : (a b : ℕ) → bit_or a b ≡ bit_or (a / 2) (b / 2) * 2 + max (a % 2) (b % 2)
bit_or_step zero b = omega (arith, zero-bit_or b, zero-bit_or (b / 2))
bit_or_step (suc a) b = omega (
  arith,
  bit_or-bitwise (suc a) b,
  bit_or-bitwise (suc a / 2) (b / 2),
  or_digits_fuel a (suc a / 2) (suc a / 2) (b / 2) (omega arith) (omega arith),
)

pub bit-bit_or : (a b i : ℕ) → bit (bit_or a b) i ≡ max (bit a i) (bit b i)
unfolding bit
bit-bit_or a b zero = omega (arith, bit_or_step a b)
bit-bit_or a b (suc i) =
    let half : bit_or a b / 2 ≡ bit_or (a / 2) (b / 2) = omega (arith, bit_or_step a b) in
    rw half (bit-bit_or (a / 2) (b / 2) i)

pub bit-le_one : (n i : ℕ) → bit n i ≤ 1
unfolding bit
bit-le_one n zero = omega arith
bit-le_one n (suc i) = bit-le_one (n / 2) i

pub bit_zero : (i : ℕ) → bit 0 i ≡ 0
unfolding bit
bit_zero zero = refl
bit_zero (suc i) = bit_zero i

-- `1 << d` has exactly bit `d`.
pub bit-two_pow : (d i : ℕ) → bit (2 ^ d) i ≡ (if nat_beq d i then 1 else 0)
unfolding bit
bit-two_pow zero zero = refl
bit-two_pow zero (suc i) = ground (arith, bit_zero i)
bit-two_pow (suc d) zero = ground (arith, pow-suc 2 d)
bit-two_pow (suc d) (suc i) =
    let half : 2 ^ suc d / 2 ≡ 2 ^ d = omega (arith, pow-suc 2 d) in
    rw half (ground (arith, bit-two_pow d i))

bit-shl_one : (n i : ℕ) → bit (n * 2) (suc i) ≡ bit n i
unfolding bit
bit-shl_one n i = let half : n * 2 / 2 ≡ n = omega arith in rw half

-- `n << s` moves bit `i` to `s + i` and clears the bits below `s`.
pub bit-shl : (s n i : ℕ) → bit (n * 2 ^ s) i ≡ (if ltb i s then 0 else bit n (i - s))
bit-shl zero n i =
    let e : n * 2 ^ 0 ≡ n = omega arith in
    let e' : i - 0 ≡ i = omega arith in rw e (ground (arith, ap (bit n) e'))
bit-shl (suc s) n zero =
    let e : n * 2 ^ suc s ≡ n * 2 ^ s * 2 = omega (arith, ap (λ (t : ℕ). n * t) (pow-suc 2 s)) in
    rw e (unfold bit in ground arith)
bit-shl (suc s) n (suc i) =
    let e : n * 2 ^ suc s ≡ n * 2 ^ s * 2 = omega (arith, ap (λ (t : ℕ). n * t) (pow-suc 2 s)) in
    let d : suc i - suc s ≡ i - s = omega arith in
    rw e (rw (bit-shl_one (n * 2 ^ s) i) (rw d (ground (arith, bit-shl s n i))))

-- Halving commutes with cutting off the bits from a position on.
mod-of_parts : (p q r : ℕ) → r < p → (q * p + r) % p ≡ r
mod-of_parts p q r h = grind arith

half-mod : (n p : ℕ) → 0 < p → n % (p * 2) / 2 ≡ n / 2 % p
half-mod n p h =
    let q = n / (p * 2) in
    let r = n % (p * 2) in
    let parts : n / 2 ≡ q * p + r / 2 = omega (arith, div-add-mod' n (p * 2)) in
    rw parts (sym (mod-of_parts p q (r / 2) (grind arith)))

low-mod : (n p : ℕ) → n % (p * 2) % 2 ≡ n % 2
low-mod n p = ground arith

-- Truncation to `w` bits keeps the bits below `w` and clears the others.
pub bit-mod_pow : (w n i : ℕ) → bit (n % 2 ^ w) i ≡ (if ltb i w then bit n i else 0)
unfolding bit
bit-mod_pow zero n i = let e : n % 2 ^ 0 ≡ 0 = omega arith in rw e (ground (arith, bit_zero i))
bit-mod_pow (suc w) n zero = rw (pow-suc 2 w) (ground (arith, low-mod n (2 ^ w)))
bit-mod_pow (suc w) n (suc i) = rw (pow-suc 2 w) (
    rw (half-mod n (2 ^ w) (one-le-pow w 2 (omega arith)))
      (ground (arith, bit-mod_pow w (n / 2) i)))
