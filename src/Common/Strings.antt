-- ===== src/Common/Strings.antt =====
-- The C strings of the source: a `char[N]` field is the list of the bytes before its first NUL.
use Prim.Native.Nat.{ℕ, ◌-◌, ◌<◌}
use Prim.Native.Char.{code}
use Prim.Native.String.{String}
use mathlib.Core.Path.{◌≡◌}
use mathlib.Core.Logic.{◌↔◌}
use mathlib.Core.Bool.{Bool, true, false, ◌&&◌}
use mathlib.Core.List.{List, [], ◌∷◌}
use native.Mathlib.Omega.{arith}
use hft_framework.Common.Tests.{◌==◌, Eq}
use hft_framework.Common.Lists.{length, take, length-take-le, take_of_le}

abbrev pub Text : Type 0
Text = List ℕ

-- The bytes of a literal.
abbrev pub codes : String → Text
codes String.[] = []
codes (String.◌∷◌ c s) = code c ∷ codes s

-- `strcmp(a, b) == 0`
unfoldable pub text_eq : Text → Text → Bool
text_eq [] [] = true
text_eq [] (b ∷ bs) = false
text_eq (a ∷ as') [] = false
text_eq (a ∷ as') (b ∷ bs) = a == b && text_eq as' bs

pub text_eq_iff : (s t : Text) → (text_eq s t ≡ true) ↔ (s ≡ t)
unfolding text_eq
text_eq_iff [] [] = ground arith
text_eq_iff [] (b ∷ bs) = ground arith
text_eq_iff (a ∷ as') [] = ground arith
text_eq_iff (a ∷ as') (b ∷ bs) = ground (arith, text_eq_iff as' bs)

instance abbrev pub Text-Eq : Eq Text
Text-Eq = record { beq = text_eq; beq_iff = text_eq_iff }

-- `s[0] == '\0'`
abbrev pub is_empty : Text → Bool
is_empty [] = true
is_empty (c ∷ cs) = false

-- `safe_copy(dst, src, n)`: what `dst` holds afterwards.
abbrev pub safe_copy : Text → ℕ → Text
safe_copy src n = take (n - 1) src

-- The copy fits its buffer, the closing NUL included.
pub length-safe_copy : (s : Text) (n : ℕ) → 0 < n → length (safe_copy s n) < n
length-safe_copy s n h = omega (arith, length-take-le (n - 1) s)

-- A text that fits is copied whole.
pub safe_copy_of_lt : (s : Text) (n : ℕ) → length s < n → safe_copy s n ≡ s
safe_copy_of_lt s n h = take_of_le (n - 1) s (omega arith)
