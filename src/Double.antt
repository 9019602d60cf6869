-- ===== src/Double.antt =====
-- The `double` of the source. The language has no floating point, so the type and its operations
-- are a parameter of every definition that computes with them; no law is assumed here.
pub mod Fixed
use hft_framework.Common.{ℕ, ℤ, Bool, if◌then◌else◌}

pub record Double : Type 1 where
  pub F : Type 0
  pub of_int : ℤ → F
  -- `literal m e` is the literal m * 10 ^ -e.
  pub literal : ℕ → ℕ → F
  pub infinity : F
  pub neg_infinity : F
  pub add : F → F → F
  pub sub : F → F → F
  pub mul : F → F → F
  pub div : F → F → F
  pub lt : F → F → Bool
  pub le : F → F → Bool

module _ (d : Double) where
  abbrev pub zero_f : d.F
  zero_f = d.literal 0 0

  -- `std::min`, `std::max` and `std::abs`
  abbrev pub min_f : d.F → d.F → d.F
  min_f a b = if d.lt b a then b else a

  abbrev pub max_f : d.F → d.F → d.F
  max_f a b = if d.lt a b then b else a

  abbrev pub abs_f : d.F → d.F
  abs_f a = if d.lt a zero_f then d.sub zero_f a else a
