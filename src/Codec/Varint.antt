-- ===== src/Codec/Varint.antt =====
-- src/common/binary_io.h: numbers of variable length and texts with their length in front. What is
-- written is put behind the bytes of the stream, which accepts every byte.
use hft_framework.Common.{
  ℕ, ◌+◌, ◌-◌, ◌*◌, ◌/◌, ◌%◌, ◌^◌, ◌<◌, ◌≤◌, ltb, ◌==◌, ◌||◌, bit_and, bit_or, bit_xor, ℤ, pos,
  negsuc, Option, none, some, List, [], ◌∷◌, ◌++◌, if◌then◌else◌, arith, length, take, drop,
}
use mathlib.Core.Logic.{dite}
use mathlib.Core.WellFounded.{Acc}
use native.Mathlib.Decide.{dec_le}
use hft_framework.Common.Order.{lt_wf}

-- `static_cast<uint64_t>` of an int64_t, and back.
unfoldable pub to_u64 : ℤ → ℕ
to_u64 (pos n) = n % 2 ^ 64
to_u64 (negsuc n) = 2 ^ 64 - 1 - n % 2 ^ 64

unfoldable pub to_i64 : ℕ → ℤ
to_i64 n = if ltb n (2 ^ 63) then pos n else negsuc (2 ^ 64 - 1 - n)

-- `value >> 63` keeps the sign: it is 0 or -1.
abbrev pub sign_word : ℤ → ℤ
sign_word (pos n) = pos 0
sign_word (negsuc n) = negsuc 0

unfoldable pub zigzag_encode : ℤ → ℕ
zigzag_encode value = bit_xor (to_u64 value * 2 % 2 ^ 64) (to_u64 (sign_word value))

-- `~x` is 2 ^ 64 - 1 - x.
unfoldable pub zigzag_decode : ℕ → ℤ
zigzag_decode value = to_i64 (bit_xor (value / 2) ((2 ^ 64 - 1 - bit_and value 1 + 1) % 2 ^ 64))

pub shift_shrinks : (value : ℕ) → 0x80 ≤ value → value / 128 < value
shift_shrinks value h = omega arith

-- `value >>= 7` is `value / 128`.
unfoldable pub write_groups : List ℕ → (value : ℕ) → Acc ◌<◌ value → List ℕ
write_groups os value (Acc.intro _ smaller) =
    dite (dec_le 0x80 value)
      (λ more.
        write_groups (os ++ bit_or (bit_and value 0x7f) 0x80 ∷ []) (value / 128)
          (smaller _ (shift_shrinks value more)))
      (λ _. os ++ value ∷ [])

unfoldable pub write_varuint : List ℕ → ℕ → List ℕ
write_varuint os value = write_groups os value (lt_wf.apply value)

-- Rounds left are at most 10, since `shift` goes up by 7 while it is below 64.
unfoldable pub read_groups : List ℕ → ℕ → ℕ → Option (ℕ × List ℕ)
read_groups [] value shift = none
read_groups (ch ∷ is) value shift =
    let value' = bit_or value (bit_and ch 0x7f * 2 ^ shift % 2 ^ 64) in
    let more = read_groups is value' (shift + 7) in
    if ltb shift 64 then if bit_and ch 0x80 == 0 then some (value', is) else more else none

unfoldable pub read_varuint : List ℕ → Option (ℕ × List ℕ)
read_varuint is = read_groups is 0 0

unfoldable pub write_varint : List ℕ → ℤ → List ℕ
write_varint os value = write_varuint os (zigzag_encode value)

unfoldable pub read_varint : List ℕ → Option (ℤ × List ℕ)
read_varint is = elim (read_varuint is) [
  | none ↦ none
  | some (encoded, rest) ↦ some (zigzag_decode encoded, rest)
]

-- `size_t` has 64 bits.
unfoldable pub write_string : List ℕ → List ℕ → List ℕ
write_string os value = write_varuint os (length value) ++ value

-- The largest `std::streamsize` is 2 ^ 63 - 1.
unfoldable pub read_string : List ℕ → Option (List ℕ × List ℕ)
read_string is = elim (read_varuint is) [
  | none ↦ none
  | some (size, rest) ↦
      if ltb (2 ^ 63 - 1) size || ltb (length rest) size
      then none
      else some (take size rest, drop size rest)
]
