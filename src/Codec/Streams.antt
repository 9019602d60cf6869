-- ===== src/Codec/Streams.antt =====
-- src/common/binary_io.h: what a writer puts behind a stream, and a reader takes from its front.
use hft_framework.Common.{
  ℕ, ◌^◌, ◌<◌, ◌≡◌, refl, ℤ, pos, negsuc, some, List, [], ◌++◌, arith, length,
}
use hft_framework.Codec.Varint.{
  to_u64, to_i64, write_varuint, write_varint, write_string, read_varuint, read_varint, read_string,
  zigzag_encode,
}
use hft_framework.Codec.RoundTrip.{
  write_varuint-groups, write_string-groups, read_varuint-write, read_varint-write,
  read_string-write, IsI64, zigzag_below,
}

pub varuint_bytes : ℕ → List ℕ
varuint_bytes value = write_varuint [] value

pub varint_bytes : ℤ → List ℕ
varint_bytes value = write_varint [] value

pub string_bytes : List ℕ → List ℕ
string_bytes value = write_string [] value

pub write_varuint_onto :
    (value : ℕ)
    → value < 2 ^ 64
    → (os : List ℕ) → write_varuint os value ≡ os ++ varuint_bytes value
unfolding varuint_bytes
write_varuint_onto value h os =
    rw (write_varuint-groups os value h, write_varuint-groups [] value h) refl

pub write_varint_onto :
    (value : ℤ) → IsI64 value → (os : List ℕ) → write_varint os value ≡ os ++ varint_bytes value
unfolding varint_bytes varuint_bytes write_varint
write_varint_onto value h os = write_varuint_onto (zigzag_encode value) (zigzag_below value h) os

pub write_string_onto :
    (value : List ℕ)
    → length value < 2 ^ 63
    → (os : List ℕ) → write_string os value ≡ os ++ string_bytes value
unfolding string_bytes
write_string_onto value h os =
    rw (write_string-groups os value (omega arith), write_string-groups [] value (omega arith)) refl

pub read_varuint-bytes :
    (value : ℕ)
    → value < 2 ^ 64
    → (is : List ℕ) → read_varuint (varuint_bytes value ++ is) ≡ some (value, is)
unfolding varuint_bytes
read_varuint-bytes value h is = read_varuint-write value is h

pub read_varint-bytes :
    (value : ℤ)
    → IsI64 value
    → (is : List ℕ) → read_varint (varint_bytes value ++ is) ≡ some (value, is)
unfolding varint_bytes
read_varint-bytes value h is = read_varint-write value is h

pub read_string-bytes :
    (value : List ℕ)
    → length value < 2 ^ 63
    → (is : List ℕ) → read_string (string_bytes value ++ is) ≡ some (value, is)
unfolding string_bytes
read_string-bytes value h is = read_string-write value is h

pub to_u64_lt : (n : ℤ) → to_u64 n < 2 ^ 64
unfolding to_u64
to_u64_lt (pos n) = omega arith
to_u64_lt (negsuc n) = omega arith

-- The conversion of an int64_t to uint64_t loses nothing.
pub to_i64-to_u64 : (n : ℤ) → IsI64 n → to_i64 (to_u64 n) ≡ n
unfolding to_u64 to_i64
to_i64-to_u64 (pos n) h = ground arith
to_i64-to_u64 (negsuc n) h = ground arith
