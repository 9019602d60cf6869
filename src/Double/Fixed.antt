-- ===== src/Double/Fixed.antt =====
-- A concrete `double` for tests: a fixed-point number of ten-thousandths.
use hft_framework.Common.{
  ℕ, ◌+◌, ◌-◌, ◌*◌, ◌/◌, ◌^◌, ℤ, pos, negsuc, pos_part, neg_part, sub_ℕ, ◌+ℤ◌, ◌-ℤ◌, ltb_ℤ, leb_ℤ,
}
use hft_framework.Double.{Double}

abbrev scale : ℕ
scale = 10000

abbrev fixed_mul : ℤ → ℤ → ℤ
fixed_mul a b =
    sub_ℕ ((pos_part a * pos_part b + neg_part a * neg_part b) / scale)
      ((pos_part a * neg_part b + neg_part a * pos_part b) / scale)

-- The denominators of the tests are positive.
abbrev fixed_div : ℤ → ℤ → ℤ
fixed_div a b = sub_ℕ (pos_part a * scale / pos_part b) (neg_part a * scale / pos_part b)

abbrev pub fixed : Double
fixed = record {
  F = ℤ;
  of_int = λ n. sub_ℕ (pos_part n * scale) (neg_part n * scale);
  literal = λ m e. pos (m * 10 ^ (4 - e));
  infinity = pos (10 ^ 30);
  neg_infinity = negsuc (10 ^ 30);
  add = λ a b. a +ℤ b;
  sub = λ a b. a -ℤ b;
  mul = fixed_mul;
  div = fixed_div;
  lt = ltb_ℤ;
  le = leb_ℤ;
}
