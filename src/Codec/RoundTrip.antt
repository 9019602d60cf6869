-- ===== src/Codec/RoundTrip.antt =====
-- src/common/binary_io.h: what is read back is what was written.
use hft_framework.Common.{
  ℕ, zero, suc, ◌+◌, ◌-◌, ◌*◌, ◌/◌, ◌%◌, ◌^◌, ◌<◌, ◌≤◌, ◌≡◌, refl, ap, ltb, ◌||◌, bit_and, bit_or,
  ℤ, pos, negsuc, false, some, List, [], ◌∷◌, ◌++◌, if◌then◌else◌, arith, length, take, drop,
  length-append,
}
use hft_framework.Common.Bits.{
  and_low1, and_low7, and_high7, or_above, xor_ones, xor-zero, xor_comm,
}
use mathlib.Core.List.{append_assoc}
use mathlib.Core.WellFounded.{Acc}
use native.Mathlib.Numerals.{towards_suc}
use hft_framework.Codec.Varint.{
  to_u64, to_i64, zigzag_encode, zigzag_decode, write_groups, write_varuint, read_groups,
  read_varuint, write_varint, read_varint, write_string, read_string,
}

-- The groups of seven digits of a number below 128 ^ (k + 1), the lowest first.
unfoldable pub groups : ℕ → ℕ → List ℕ
groups zero value = value ∷ []
groups (suc k) value =
    let rest = groups k (value / 128) in
    if ltb value 128 then value ∷ [] else (value % 128 + 128) ∷ rest

marked : (value : ℕ) → bit_or (bit_and value 0x7f) 0x80 ≡ value % 128 + 128
marked value = rw (and_low7 value) (or_above 7 (value % 128) 1 (omega arith))

write_groups-groups :
    (k : ℕ) (os : List ℕ) (value : ℕ) (w : Acc ◌<◌ value)
    → value < 128 ^ suc k
    → write_groups os value w ≡ os ++ groups k value
unfolding write_groups groups
write_groups-groups zero os value (Acc.intro _ smaller) h = ground arith
write_groups-groups (suc k) os value (Acc.intro _ smaller) h =
    let first : List ℕ = (value % 128 + 128) ∷ [] in
    grind (
      arith,
      marked value,
      λ (w : Acc ◌<◌ (value / 128)).
          write_groups-groups k (os ++ first) (value / 128) w (omega arith),
      append_assoc os first (groups k (value / 128)),
    )

pub write_varuint-groups :
    (os : List ℕ) (value : ℕ) → value < 2 ^ 64 → write_varuint os value ≡ os ++ groups 9 value
unfolding write_varuint
write_varuint-groups os value h = write_groups-groups 9 os value _ (omega arith)

-- The last byte of a number, and a byte before it: `value` has fewer than `shift` digits.
reads_last :
    (ch value shift : ℕ) (is : List ℕ)
    → ch < 128
    → shift < 64
    → value < 2 ^ shift
    → value + ch * 2 ^ shift < 2 ^ 64
    → read_groups (ch ∷ is) value shift ≡ some (value + ch * 2 ^ shift, is)
unfolding read_groups
reads_last ch value shift is hc hs hv fits =
    ground (arith, and_low7 ch, and_high7 ch, or_above shift value ch hv)

reads_marked :
    (g value shift : ℕ) (is : List ℕ)
    → g < 128
    → shift < 64
    → value < 2 ^ shift
    → value + g * 2 ^ shift < 2 ^ 64
    → read_groups ((g + 128) ∷ is) value shift ≡ read_groups is (value + g * 2 ^ shift) (shift + 7)
unfolding read_groups
reads_marked g value shift is hg hs hv fits =
    ground (arith, and_low7 (g + 128), and_high7 (g + 128), or_above shift value g hv)

seven_up : (place : ℕ) → 128 * 2 ^ place ≡ 2 ^ (place + 7)
seven_up place = simp towards_suc (omega arith)

low_below :
    (g value place : ℕ) → g < 128 → value < 2 ^ place → value + g * 2 ^ place < 2 ^ (place + 7)
low_below g value place hg hv = grind (arith, seven_up place, group_times (2 ^ place))
  where
    group_times : (p : ℕ) → g * p + p ≤ 128 * p
    group_times p = grind arith

-- A number at a place is its lowest group there and the others seven digits up.
low_and_rest : (n place : ℕ) → n % 128 * 2 ^ place + n / 128 * 2 ^ (place + 7) ≡ n * 2 ^ place
low_and_rest n place = omega (arith, up, parts)
  where
    parts : n * 2 ^ place ≡ (n / 128 * 128 + n % 128) * 2 ^ place
    parts = ap (λ (m : ℕ). m * 2 ^ place) (omega arith)

    up : n / 128 * (128 * 2 ^ place) ≡ n / 128 * 2 ^ (place + 7)
    up = ap (λ (m : ℕ). n / 128 * m) (seven_up place)

-- `w` is what is still to be read, and `value` what was read of the digits below `shift`.
read_groups-groups :
    (k w value shift : ℕ) (is : List ℕ)
    → w < 128 ^ suc k
    → shift + 7 * k ≤ 63
    → value < 2 ^ shift
    → value + w * 2 ^ shift < 2 ^ 64
    → read_groups (groups k w ++ is) value shift ≡ some (value + w * 2 ^ shift, is)
unfolding groups
read_groups-groups zero w value shift is hw hs hv fits =
    reads_last w value shift is hw (omega arith) hv fits
read_groups-groups (suc k) w value shift is hw hs hv fits = ground (
  arith,
  reads_last w value shift is,
  low_and_rest w shift,
  reads_marked (w % 128) value shift (groups k (w / 128) ++ is),
  low_below (w % 128) value shift,
  read_groups-groups k (w / 128) (value + w % 128 * 2 ^ shift) (shift + 7) is (omega arith)
      (omega arith),
)

read_varuint-groups :
    (value : ℕ) (is : List ℕ)
    → value < 2 ^ 64
    → read_varuint (groups 9 value ++ is) ≡ some (value, is)
unfolding read_varuint
read_varuint-groups value is h =
    ground (arith, read_groups-groups 9 value 0 0 is (omega arith) (omega arith))

-- read_varuint reads back the 64-bit number that write_varuint wrote, and leaves what follows it.
pub read_varuint-write :
    (value : ℕ) (is : List ℕ)
    → value < 2 ^ 64
    → read_varuint (write_varuint [] value ++ is) ≡ some (value, is)
read_varuint-write value is h =
    rw (write_varuint-groups [] value h) (read_varuint-groups value is h)

pub write_string-groups :
    (os value : List ℕ)
    → length value < 2 ^ 64
    → write_string os value ≡ os ++ (groups 9 (length value) ++ value)
unfolding write_string
write_string-groups os value h = rw (write_varuint-groups os (length value) h, append_assoc os) refl

pub take-length-append : (xs ys : List ℕ) → take (length xs) (xs ++ ys) ≡ xs
take-length-append [] ys = refl
take-length-append (x ∷ xs) ys = ap (λ r. x ∷ r) (take-length-append xs ys)

pub drop-length-append : (xs ys : List ℕ) → drop (length xs) (xs ++ ys) ≡ ys
drop-length-append [] ys = refl
drop-length-append (x ∷ xs) ys = drop-length-append xs ys

-- read_string reads back the text that write_string wrote, if it has fewer than 2^63 bytes, and
-- leaves what follows it.
pub read_string-write :
    (value is : List ℕ)
    → length value < 2 ^ 63
    → read_string (write_string [] value ++ is) ≡ some (value, is)
unfolding read_string
read_string-write value is h =
    let fits : (ltb (2 ^ 63 - 1) (length value) || ltb (length (value ++ is)) (length value))
        ≡ false =
      ground (arith, length-append value is) in
    rw
      (
        write_string-groups [] value (omega arith),
        append_assoc (groups 9 (length value)) value is,
        read_string,
        read_varuint-groups (length value) (value ++ is) (omega arith),
        fits,
        take-length-append value is,
        drop-length-append value is,
      )
      refl

-- The numbers that an int64_t holds.
abbrev pub IsI64 : ℤ → Type 0
IsI64 (pos n) = n < 2 ^ 63
IsI64 (negsuc n) = n < 2 ^ 63

zigzag_pos : (n : ℕ) → n < 2 ^ 63 → zigzag_encode (pos n) ≡ 2 * n
unfolding zigzag_encode to_u64
zigzag_pos n h =
    rw (xor_comm (n % 2 ^ 64 * 2 % 2 ^ 64) 0, xor-zero (n % 2 ^ 64 * 2 % 2 ^ 64)) (omega arith)

zigzag_negsuc : (n : ℕ) → n < 2 ^ 63 → zigzag_encode (negsuc n) ≡ 2 * n + 1
unfolding zigzag_encode to_u64
zigzag_negsuc n h =
    rw (xor_ones 64 ((2 ^ 64 - 1 - n % 2 ^ 64) * 2 % 2 ^ 64) (omega arith)) (omega arith)

pub zigzag_below : (value : ℤ) → IsI64 value → zigzag_encode value < 2 ^ 64
zigzag_below (pos n) h = omega (arith, zigzag_pos n h)
zigzag_below (negsuc n) h = omega (arith, zigzag_negsuc n h)

decode_even : (n : ℕ) → n < 2 ^ 63 → zigzag_decode (2 * n) ≡ pos n
unfolding zigzag_decode to_i64
decode_even n h =
    rw (and_low1 (2 * n), half, no_sign, xor_comm n 0, xor-zero n, zigzag_decode, to_i64)
      (ground arith)
  where
    half : 2 * n / 2 ≡ n
    half = omega arith

    no_sign : (2 ^ 64 - 1 - 2 * n % 2 + 1) % 2 ^ 64 ≡ 0
    no_sign = omega arith

decode_odd : (n : ℕ) → n < 2 ^ 63 → zigzag_decode (2 * n + 1) ≡ negsuc n
unfolding zigzag_decode to_i64
decode_odd n h =
    rw (and_low1 (2 * n + 1), half, sign, xor_ones 64 n (omega arith), zigzag_decode, to_i64)
      (ground arith)
  where
    half : (2 * n + 1) / 2 ≡ n
    half = omega arith

    sign : (2 ^ 64 - 1 - (2 * n + 1) % 2 + 1) % 2 ^ 64 ≡ 2 ^ 64 - 1
    sign = omega arith

-- zigzag_decode undoes zigzag_encode on every int64_t.
pub zigzag_decode-encode : (value : ℤ) → IsI64 value → zigzag_decode (zigzag_encode value) ≡ value
zigzag_decode-encode (pos n) h = rw (zigzag_pos n h) (decode_even n h)
zigzag_decode-encode (negsuc n) h = rw (zigzag_negsuc n h) (decode_odd n h)

-- read_varint reads back the int64_t that write_varint wrote, and leaves what follows it.
pub read_varint-write :
    (value : ℤ) (is : List ℕ)
    → IsI64 value
    → read_varint (write_varint [] value ++ is) ≡ some (value, is)
unfolding read_varint write_varint
read_varint-write value is h =
    rw
      (
        write_varint,
        read_varint,
        read_varuint-write (zigzag_encode value) is (zigzag_below value h),
        zigzag_decode-encode value h,
      )
      refl
