-- ===== src/Algo/Parts.antt =====
-- src/order/algo_order_manager.cpp: the division of a TWAP order's volume into slices, on numbers.
use native.Mathlib.Nat.{le-div_iff_mul-le, div-lt_iff_lt-mul, div-mul-le_self, lt-div-mul-add}
use hft_framework.Common.{
  ℕ, zero, suc, ◌+◌, ◌-◌, ◌*◌, ◌/◌, ◌≤◌, ◌<◌, ltb, leb, ◌≡◌, ◌⊎◌, inl, inr, pos, Bool-cases, arith,
  if◌then◌else◌, ltb_ℤ, leb_ℤ,
}

-- At least one, and no more than what is left.
abbrev pub clipped : ℕ → ℕ → ℕ
clipped rem part =
    let at_least_one = if leb part 0 then 1 else part in
    if ltb rem at_least_one then rem else at_least_one

-- `twap_slice` of what is not filled, over the slices that are left.
abbrev pub part_of : ℕ → ℕ → ℕ
part_of rem m = clipped rem (rem / m)

-- What is left of an order stays between `q` and `q + 1` lots for each slice that is left.
pub record IsEven (q rem m : ℕ) : Type 0 where
  pub low : q * m ≤ rem
  pub high : rem ≤ q * m + m

-- A slice of `q` or `q + 1` lots, at least one, that leaves the rest even.
pub record Fits (q rem m s : ℕ) : Type 0 where
  pub at_least : q ≤ s
  pub at_most : s ≤ suc q
  pub some_lots : 0 < s
  pub enough : s ≤ rem
  pub rest : IsEven q (rem - s) m

full_part : (q rem m : ℕ) → 0 < rem → rem ≡ q * suc m + suc m → Fits q rem m (clipped rem (suc q))
full_part q rem m h e =
    let same : clipped rem (suc q) ≡ suc q = ground (arith, e) in
    rw same (record {
      at_least = omega arith;
      at_most = omega arith;
      some_lots = omega arith;
      enough = omega arith;
      rest = record { low = omega arith; high = omega arith };
    })

short_part :
    (q rem m : ℕ)
    → 0 < rem
    → IsEven q rem (suc m)
    → rem < q * suc m + suc m
    → Fits q rem m (clipped rem q)
short_part zero rem m h e l =
    let same : clipped rem 0 ≡ 1 = ground arith in
    rw same (record {
      at_least = omega arith;
      at_most = omega arith;
      some_lots = omega arith;
      enough = omega arith;
      rest = record { low = omega arith; high = omega arith };
    })
short_part (suc q) rem m h e l =
    let low : suc q * suc m ≤ rem = e.low in
    let same : clipped rem (suc q) ≡ suc q = ground arith in
    rw same (record {
      at_least = omega arith;
      at_most = omega arith;
      some_lots = omega arith;
      enough = omega arith;
      rest = record { low = omega arith; high = omega arith };
    })

pub le_or_lt : (a b : ℕ) → (a ≤ b) ⊎ (b < a)
le_or_lt a b = elim (Bool-cases (leb a b)) [
  | inl e ↦ inl (ground arith)
  | inr e ↦ inr (ground arith)
]

pub part_of-Fits :
    (q rem m : ℕ) → 0 < rem → IsEven q rem (suc m) → Fits q rem m (part_of rem (suc m))
part_of-Fits q rem m h e =
    let some : 0 < suc m = omega arith in
    let above : q ≤ rem / suc m = (le-div_iff_mul-le some).1 e.low in
    let below : rem / suc m < suc (suc q) =
      (div-lt_iff_lt-mul some).1 (omega (arith, e.low, e.high)) in
    elim (le_or_lt (suc q) (rem / suc m)) [
      | inl more ↦
          let all : suc q * suc m ≤ rem = (le-div_iff_mul-le some).0 more in
          let same : rem / suc m ≡ suc q = omega arith in
          rw same (full_part q rem m h (omega (arith, e.high)))
      | inr less ↦
          let few : rem < suc q * suc m = (div-lt_iff_lt-mul some).0 less in
          let same : rem / suc m ≡ q = omega arith in rw same (short_part q rem m h e (omega arith))
    ]

pub clipped_pos :
    (rem part : ℕ)
    → (if ltb_ℤ (pos rem) (if leb_ℤ (pos part) (pos 0) then pos 1 else pos part)
        then pos rem
        else (if leb_ℤ (pos part) (pos 0) then pos 1 else pos part))
      ≡ pos (clipped rem part)
clipped_pos rem part = ground arith

pub whole-IsEven : (total m : ℕ) → IsEven (total / suc m) total (suc m)
whole-IsEven total m = record {
  low = div-mul-le_self total (suc m);
  high = (let below = lt-div-mul-add {a = total} {b = suc m} (omega arith) in omega arith);
}
