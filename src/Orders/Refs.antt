-- ===== src/Orders/Refs.antt =====
-- The order references that `src/order/order_manager.cpp` writes: decimal numbers that differ when the
-- counter does, and that the 16 bytes of a reference hold whole.
use hft_framework.Common.{
  ℕ, zero, suc, ◌+◌, ◌-◌, ◌*◌, ◌/◌, ◌%◌, ◌^◌, ◌≤◌, ◌<◌, ◌≡◌, refl, ap, sym, ◌∙◌, inl, inr, pos, [],
  ◌∷◌, ◌++◌, arith, ltb, Bool-cases, length, length-append, Text, safe_copy, safe_copy_of_lt,
}
use native.Mathlib.Nat.{pow-suc}
use hft_framework.Orders.Methods.{decimal, write_order_ref}

-- The number that decimal digits stand for, after those that give `acc`.
value_from : ℕ → Text → ℕ
value_from acc [] = acc
value_from acc (c ∷ cs) = value_from (acc * 10 + (c - 48)) cs

value_from-append :
    (acc : ℕ) (s t : Text) → value_from acc (s ++ t) ≡ value_from (value_from acc s) t
unfolding value_from
value_from-append acc [] t = refl
value_from-append acc (c ∷ s) t = value_from-append (acc * 10 + (c - 48)) s t

value_from-decimal : (fuel n : ℕ) → n < 10 ^ fuel → value_from 0 (decimal fuel n) ≡ n
unfolding value_from decimal
value_from-decimal zero n h = omega arith
value_from-decimal (suc fuel) n h = elim (Bool-cases (ltb n 10)) [
  | inl small ↦ rw (small, decimal) (omega arith)
  | inr large ↦
      let ih = value_from-decimal fuel (n / 10) (omega (arith, pow-suc 10 fuel)) in
      rw (large, decimal)
        (rw (value_from-append 0 (decimal fuel (n / 10)) ((48 + n % 10) ∷ []), ih) (omega arith))
]

length-decimal-le : (fuel n : ℕ) → length (decimal fuel n) ≤ fuel
unfolding decimal
length-decimal-le zero n = omega arith
length-decimal-le (suc fuel) n = elim (Bool-cases (ltb n 10)) [
  | inl small ↦ rw (small, decimal) (omega arith)
  | inr large ↦
      rw (large, decimal)
        (omega (
          arith,
          length-append (decimal fuel (n / 10)) ((48 + n % 10) ∷ []),
          length-decimal-le fuel (n / 10),
        ))
]

-- Two counter values of at most ten digits give the same key of the order table only if they are
-- equal.
pub write_order_ref-injective :
    (a b : ℕ)
    → a < 10 ^ 10
    → b < 10 ^ 10
    → safe_copy (write_order_ref (pos a)) 16 ≡ safe_copy (write_order_ref (pos b)) 16
    → a ≡ b
unfolding write_order_ref
write_order_ref-injective a b ha hb e =
    sym (value_from-decimal 10 a ha) ∙ ap (value_from 0) same ∙ value_from-decimal 10 b hb
  where
    whole : (n : ℕ) → safe_copy (decimal 10 n) 16 ≡ decimal 10 n
    whole n = safe_copy_of_lt (decimal 10 n) 16 (omega (arith, length-decimal-le 10 n))

    same : decimal 10 a ≡ decimal 10 b
    same = sym (whole a) ∙ e ∙ whole b
