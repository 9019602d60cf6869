-- ===== src/Common/Bits.antt =====
-- Bitwise operations by their lowest digit: what `|`, `&` and `^` do at the widths the source uses.
use Prim.Native.Nat.{
  ℕ, zero, suc, ◌+◌, ◌-◌, ◌*◌, ◌/◌, ◌%◌, ◌^◌, ◌≤◌, ◌<◌, min, max, digits, differ, bitwise, bit_and,
  bit_or, bit_xor, bit_and-bitwise, bit_or-bitwise, bit_xor-bitwise,
}
use mathlib.Core.Path.{◌≡◌, refl, ap}
use native.Mathlib.Nat.{le_refl}
use native.Mathlib.Omega.{arith}

pub pow_double : (k : ℕ) → 2 ^ suc k ≡ 2 * 2 ^ k
pow_double k = omega arith

-- The recursion that the native operations stand for gives the same with any fuel that is enough.
module _ (z : ℕ → ℕ) (f : ℕ → ℕ → ℕ) where
  any_fuel : (a b n m : ℕ) → a ≤ m → a ≤ n → digits z f n a b ≡ digits z f m a b
  any_fuel zero b zero zero p q = refl
  any_fuel zero b zero (suc m) p q = refl
  any_fuel zero b (suc n) zero p q = refl
  any_fuel zero b (suc n) (suc m) p q = refl
  any_fuel (suc a) b n zero p q = absurd (omega arith)
  any_fuel (suc a) b zero (suc m) p q = absurd (omega arith)
  any_fuel (suc a) b (suc n) (suc m) p q =
      let rest = any_fuel (suc a / 2) (b / 2) n m (omega arith) (omega arith) in rw rest refl

  lowest :
      (a b : ℕ)
      → bitwise z f (suc a) b ≡ bitwise z f (suc a / 2) (b / 2) * 2 + f (suc a % 2) (b % 2)
  lowest a b =
      let half = suc a / 2 in omega (arith, any_fuel half (b / 2) a half (le_refl _) (omega arith))

pub and_step : (a b : ℕ) → bit_and a b ≡ bit_and (a / 2) (b / 2) * 2 + min (a % 2) (b % 2)
and_step zero b = simp bit_and-bitwise (omega arith)
and_step (suc a) b = simp bit_and-bitwise (lowest (λ y. 0) min a b)

pub or_step : (a b : ℕ) → bit_or a b ≡ bit_or (a / 2) (b / 2) * 2 + max (a % 2) (b % 2)
or_step zero b = simp bit_or-bitwise (omega arith)
or_step (suc a) b = simp bit_or-bitwise (lowest (λ y. y) max a b)

differ_bits : (x y : ℕ) → x < 2 → y < 2 → differ x y ≡ (x + y) % 2
differ_bits zero zero p q = refl
differ_bits zero (suc zero) p q = refl
differ_bits (suc zero) zero p q = refl
differ_bits (suc zero) (suc zero) p q = refl
differ_bits (suc (suc x)) y p q = absurd (omega arith)
differ_bits zero (suc (suc y)) p q = absurd (omega arith)
differ_bits (suc zero) (suc (suc y)) p q = absurd (omega arith)

pub xor_step : (a b : ℕ) → bit_xor a b ≡ bit_xor (a / 2) (b / 2) * 2 + (a + b) % 2
xor_step zero b = simp bit_xor-bitwise (omega arith)
xor_step (suc a) b =
    omega (arith, as_digits, differ_bits (suc a % 2) (b % 2) (omega arith) (omega arith))
  where
    as_digits : bit_xor (suc a) b ≡ bit_xor (suc a / 2) (b / 2) * 2 + differ (suc a % 2) (b % 2)
    as_digits = simp bit_xor-bitwise (lowest (λ y. y) differ a b)

-- What `^` is on the two parts of a number.
pub xor_half : (a b : ℕ) → bit_xor a b / 2 ≡ bit_xor (a / 2) (b / 2)
xor_half a b = omega (arith, xor_step a b)

pub xor_parity : (a b : ℕ) → bit_xor a b % 2 ≡ (a + b) % 2
xor_parity a b = omega (arith, xor_step a b)

-- Numbers with equal halves and equal lowest digits are equal.
pub by_digits : (a b : ℕ) → a / 2 ≡ b / 2 → a % 2 ≡ b % 2 → a ≡ b
by_digits a b p q = omega arith

xor_comm_upto : (n a b : ℕ) → a ≤ n → b ≤ n → bit_xor a b ≡ bit_xor b a
xor_comm_upto zero zero zero p q = refl
xor_comm_upto zero (suc a) b p q = absurd (omega arith)
xor_comm_upto zero zero (suc b) p q = absurd (omega arith)
xor_comm_upto (suc n) a b p q =
    omega (
      arith,
      xor_step a b,
      xor_step b a,
      xor_comm_upto n (a / 2) (b / 2) (omega arith) (omega arith),
    )

pub xor_comm : (a b : ℕ) → bit_xor a b ≡ bit_xor b a
xor_comm a b = xor_comm_upto (a + b) a b (omega arith) (omega arith)

pub xor-zero : (a : ℕ) → bit_xor 0 a ≡ a
xor-zero a = simp bit_xor-bitwise refl

xor_assoc_upto :
    (n a b c : ℕ) → a ≤ n → b ≤ n → c ≤ n → bit_xor (bit_xor a b) c ≡ bit_xor a (bit_xor b c)
xor_assoc_upto zero zero zero zero p q r = refl
xor_assoc_upto zero (suc a) b c p q r = absurd (omega arith)
xor_assoc_upto zero zero (suc b) c p q r = absurd (omega arith)
xor_assoc_upto zero zero zero (suc c) p q r = absurd (omega arith)
xor_assoc_upto (suc n) a b c p q r =
    by_digits _ _
      (rw (xor_half (bit_xor a b) c, xor_half a b, xor_half a (bit_xor b c), xor_half b c)
        (xor_assoc_upto n (a / 2) (b / 2) (c / 2) (omega arith) (omega arith) (omega arith)))
      lows
  where
    lows : bit_xor (bit_xor a b) c % 2 ≡ bit_xor a (bit_xor b c) % 2
    lows = omega (
      arith,
      xor_parity (bit_xor a b) c,
      xor_parity a b,
      xor_parity a (bit_xor b c),
      xor_parity b c,
    )

pub xor_assoc : (a b c : ℕ) → bit_xor (bit_xor a b) c ≡ bit_xor a (bit_xor b c)
xor_assoc a b c = xor_assoc_upto (a + b + c) a b c (omega arith) (omega arith) (omega arith)

-- `^` with all ones turns every digit of a number of k digits.
pub xor_ones : (k a : ℕ) → a < 2 ^ k → bit_xor a (2 ^ k - 1) ≡ 2 ^ k - 1 - a
xor_ones zero zero h = refl
xor_ones zero (suc a) h = absurd (omega arith)
xor_ones (suc k) a h = ground (
  arith,
  xor_step a (2 ^ suc k - 1),
  pow_double k,
  xor_ones k (a / 2) (omega (arith, pow_double k)),
  half,
)
  where
    half : (2 ^ suc k - 1) / 2 ≡ 2 ^ k - 1
    half = omega (arith, pow_double k)

pub xor_below : (k a b : ℕ) → a < 2 ^ k → b < 2 ^ k → bit_xor a b < 2 ^ k
xor_below zero zero zero p q = omega arith
xor_below zero (suc a) b p q = absurd (omega arith)
xor_below zero zero (suc b) p q = absurd (omega arith)
xor_below (suc k) a b p q = omega (
  arith,
  xor_step a b,
  pow_double k,
  xor_below k (a / 2) (b / 2) (omega (arith, pow_double k)) (omega (arith, pow_double k)),
)

and-zero_upto : (n a : ℕ) → a ≤ n → bit_and a 0 ≡ 0
and-zero_upto zero zero h = refl
and-zero_upto zero (suc a) h = absurd (omega arith)
and-zero_upto (suc n) a h = omega (arith, and_step a 0, and-zero_upto n (a / 2) (omega arith))

-- The masks of the source, digit by digit.
pub and_low1 : (a : ℕ) → bit_and a 1 ≡ a % 2
and_low1 a = omega (arith, and_step a 1, and-zero_upto (a / 2) (a / 2) (omega arith))

and_low3 : (a : ℕ) → bit_and a 7 ≡ a % 8
and_low3 a = omega (arith, and_step a 7, and_step (a / 2) 3, and_low1 (a / 2 / 2))

and_low5 : (a : ℕ) → bit_and a 31 ≡ a % 32
and_low5 a = omega (arith, and_step a 31, and_step (a / 2) 15, and_low3 (a / 2 / 2))

pub and_low7 : (a : ℕ) → bit_and a 0x7f ≡ a % 128
and_low7 a = omega (arith, and_step a 127, and_step (a / 2) 63, and_low5 (a / 2 / 2))

pub and_low8 : (a : ℕ) → bit_and a 0xff ≡ a % 256
and_low8 a = omega (arith, and_step a 255, and_low7 (a / 2))

and_high3 : (a : ℕ) → bit_and a 8 ≡ a / 8 % 2 * 8
and_high3 a =
    omega
      (arith, and_step a 8, and_step (a / 2) 4, and_step (a / 2 / 2) 2, and_low1 (a / 2 / 2 / 2))

pub and_high7 : (a : ℕ) → bit_and a 0x80 ≡ a / 128 % 2 * 128
and_high7 a = omega (
  arith,
  and_step a 128,
  and_step (a / 2) 64,
  and_step (a / 2 / 2) 32,
  and_step (a / 2 / 2 / 2) 16,
  and_high3 (a / 2 / 2 / 2 / 2),
)

-- `|` of a number of k digits with one that is shifted past them is their sum.
pub or_above : (k r q : ℕ) → r < 2 ^ k → bit_or r (q * 2 ^ k) ≡ r + q * 2 ^ k
or_above zero zero q h = simp bit_or-bitwise (omega arith)
or_above zero (suc r) q h = absurd (omega arith)
or_above (suc k) r q h =
    ground
      (arith, or_step r (q * 2 ^ suc k), twice, or_above k (r / 2) q (omega (arith, pow_double k)))
  where
    twice : q * 2 ^ suc k ≡ 2 * (q * 2 ^ k)
    twice = omega (arith, ap (λ (t : ℕ). q * t) (pow_double k))

-- So is `^` of two such numbers.
pub xor_above : (k r q : ℕ) → r < 2 ^ k → bit_xor r (q * 2 ^ k) ≡ r + q * 2 ^ k
xor_above zero zero q h = simp bit_xor-bitwise (omega arith)
xor_above zero (suc r) q h = absurd (omega arith)
xor_above (suc k) r q h =
    ground (
      arith,
      xor_step r (q * 2 ^ suc k),
      twice,
      xor_above k (r / 2) q (omega (arith, pow_double k)),
    )
  where
    twice : q * 2 ^ suc k ≡ 2 * (q * 2 ^ k)
    twice = omega (arith, ap (λ (t : ℕ). q * t) (pow_double k))

-- The order of the terms of a sum of four does not matter.
pub xor_swap :
    (a b c d : ℕ) → bit_xor (bit_xor a b) (bit_xor c d) ≡ bit_xor (bit_xor a c) (bit_xor b d)
xor_swap a b c d = cc (
  xor_assoc a b (bit_xor c d),
  xor_assoc b c d,
  xor_comm b c,
  xor_assoc c b d,
  xor_assoc a c (bit_xor b d),
)
