-- ===== src/Positions/Keys.antt =====
-- When two instruments and sides share a key in the table of src/position/position_manager.cpp.
use hft_framework.Common.{◌≡◌, ◌↔◌, ap, [], ◌∷◌, ◌++◌, arith, length, length-append, take, Text}
use hft_framework.Types.{Direction}
use hft_framework.Positions.Book.{side_code, side_key}

append-side_code :
    (s t : Text) (a b : Direction) → s ++ side_code a ≡ t ++ side_code b → (s ≡ t) × (a ≡ b)
append-side_code [] [] a b e = ground arith
append-side_code [] (y ∷ t) a b e =
    absurd (omega (arith, ap length e, length-append t (side_code b)))
append-side_code (x ∷ s) [] a b e =
    absurd (omega (arith, ap length e, length-append s (side_code a)))
append-side_code (x ∷ s) (y ∷ t) a b e = ground (arith, append-side_code s t a b)

-- Keys are equal exactly for the same side and the same first 15 bytes.
pub side_key_iff :
    (s t : Text) (a b : Direction)
    → (side_key s a ≡ side_key t b) ↔ ((take 15 s ≡ take 15 t) × (a ≡ b))
unfolding side_key
side_key_iff s t a b = (append-side_code (take 15 s) (take 15 t) a b, λ h. rw (h.0, h.1))
