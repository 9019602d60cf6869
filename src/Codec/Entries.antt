-- ===== src/Codec/Entries.antt =====
-- src/common/wal_writer.h: the bytes of an entry, and what a round of the replay makes of them.
use hft_framework.Common.{
  ℕ, zero, suc, ◌+◌, ◌/◌, ◌%◌, ◌^◌, ◌<◌, ◌≤◌, ◌≡◌, refl, sym, ap, ◌∙◌, ◌==◌, ==_iff, ℤ, pos, negsuc,
  Bool, true, List, [], ◌∷◌, ◌++◌, arith, length, take, drop, length-append,
}
use mathlib.Core.List.{append-nil, append_assoc}
use hft_framework.Codec.Varint.{to_u64, to_i64}
use hft_framework.Codec.Crc.{compute}
use hft_framework.Codec.Linear.{compute_below}
use hft_framework.Codec.RoundTrip.{IsI64}
use hft_framework.Codec.Log.{
  WalEntryType, type_byte, le_bytes, le_value, header_bytes, entry_bytes, append, WalEntry, intact,
  read_round,
}
use hft_framework.Codec.Replay.{framed}

pub length-le_bytes : (n v : ℕ) → length (le_bytes n v) ≡ n
unfolding le_bytes
length-le_bytes zero v = refl
length-le_bytes (suc n) v = ap suc (length-le_bytes n (v / 256))

pub le_value-le_bytes : (n v : ℕ) → v < 256 ^ n → le_value (le_bytes n v) ≡ v
unfolding le_bytes le_value
le_value-le_bytes zero v h = omega arith
le_value-le_bytes (suc n) v h = omega (arith, le_value-le_bytes n (v / 256) (omega arith))

pub to_u64_below : (v : ℤ) → to_u64 v < 2 ^ 64
unfolding to_u64
to_u64_below (pos n) = omega arith
to_u64_below (negsuc n) = omega arith

pub to_i64-to_u64 : (v : ℤ) → IsI64 v → to_i64 (to_u64 v) ≡ v
unfolding to_i64 to_u64
to_i64-to_u64 (pos n) h = ground arith
to_i64-to_u64 (negsuc n) h = ground arith

-- An append to the log, with the clock's reading.
pub record Written : Type 0 where
  pub now : ℤ
  pub kind : WalEntryType
  pub payload : List ℕ

-- The size of the entry fits its field, and the reading is an int64_t.
abbrev pub IsWritable : Written → Type 0
IsWritable w = IsI64 w.now × (length w.payload + 17 < 2 ^ 32)

abbrev pub bytes_of : Written → List ℕ
bytes_of w = entry_bytes w.now w.kind w.payload

abbrev pub entry_of : Written → WalEntry
entry_of w = record { type_of = type_byte w.kind; timestamp_ns = w.now; payload = w.payload }

pub type_byte-le_value : (kind : WalEntryType) → le_value (type_byte kind ∷ []) ≡ type_byte kind
unfolding le_value
type_byte-le_value kind = omega arith

pub header_kind :
    (size : ℕ) (now : ℤ) (kind : WalEntryType)
    → le_value (drop 12 (header_bytes size now (type_byte kind))) ≡ type_byte kind
unfolding le_bytes
header_kind size now kind = type_byte-le_value kind

pub header_time :
    (size : ℕ) (now : ℤ) (kind : WalEntryType)
    → IsI64 now
    → to_i64 (le_value (take 8 (drop 4 (header_bytes size now (type_byte kind))))) ≡ now
unfolding le_bytes
header_time size now kind h =
    ap to_i64 (le_value-le_bytes 8 (to_u64 now) (to_u64_below now)) ∙ to_i64-to_u64 now h

pub header_size :
    (size : ℕ) (now : ℤ) (kind : WalEntryType)
    → size < 2 ^ 32
    → le_value (take 4 (header_bytes size now (type_byte kind))) ≡ size
unfolding le_bytes
header_size size now kind h = le_value-le_bytes 4 size (omega arith)

pub length-header :
    (size : ℕ) (now : ℤ) (kind : WalEntryType)
    → length (header_bytes size now (type_byte kind)) ≡ 13
unfolding le_bytes
length-header size now kind = refl

abbrev pub size_of : Written → ℕ
size_of w = (13 + length w.payload + 4) % 2 ^ 32

abbrev pub header_of : Written → List ℕ
header_of w = header_bytes (size_of w) w.now (type_byte w.kind)

abbrev pub checksum_of : Written → List ℕ
checksum_of w = le_bytes 4 (compute (header_of w ++ w.payload))

pub entry_parts :
    (w : Written) (rest : List ℕ)
    → bytes_of w ++ rest ≡ header_of w ++ (w.payload ++ (checksum_of w ++ rest))
unfolding entry_bytes
entry_parts w rest =
    append_assoc (header_of w ++ w.payload) (checksum_of w) rest
    ∙ append_assoc (header_of w) w.payload (checksum_of w ++ rest)

pub checksum_same :
    (w : Written) → (compute (header_of w ++ w.payload) == le_value (checksum_of w)) ≡ true
checksum_same w =
    let sum = compute (header_of w ++ w.payload) in
    rw (le_value-le_bytes 4 sum (compute_below (header_of w ++ w.payload)))
      ((==_iff sum sum).1 refl)

-- A written entry is found by a round, with what was appended in it.
pub round-entry :
    (w : Written) (rest : List ℕ)
    → IsWritable w
    → read_round (bytes_of w ++ rest) ≡ intact (entry_of w) rest
round-entry w rest h =
    ap read_round (entry_parts w rest)
    ∙ framed (header_of w) w.payload (checksum_of w) rest (length-header (size_of w) w.now w.kind)
        (header_size (size_of w) w.now w.kind (omega arith) ∙ omega arith)
        (length-le_bytes 4 (compute (header_of w ++ w.payload)))
    ∙ rw
        (
          checksum_same w,
          header_kind (size_of w) w.now w.kind,
          header_time (size_of w) w.now w.kind h.0,
        )
        refl

pub length-bytes_of : (w : Written) → length (bytes_of w) ≡ 17 + length w.payload
unfolding entry_bytes
length-bytes_of w = omega (
  arith,
  length-append (header_of w ++ w.payload) (checksum_of w),
  length-append (header_of w) w.payload,
  length-header (size_of w) w.now w.kind,
  length-le_bytes 4 (compute (header_of w ++ w.payload)),
)

-- The file after a list of appends.
abbrev pub log_of : List Written → List ℕ
log_of [] = []
log_of (w ∷ ws) = bytes_of w ++ log_of ws

-- A file whose writer is open and keeps every byte, and a list of appends to it.
abbrev pub keeps : List ℕ → List ℕ → Bool × List ℕ
keeps bytes file = (true, file ++ bytes)

abbrev pub append_all : List Written → List ℕ → List ℕ
append_all [] file = file
append_all (w ∷ ws) file = append_all ws (append (λ f. true) keeps w.now w.kind w.payload file).1

pub append_all-log_of : (ws : List Written) (file : List ℕ) → append_all ws file ≡ file ++ log_of ws
unfolding append
append_all-log_of [] file = sym (append-nil file)
append_all-log_of (w ∷ ws) file =
    append_all-log_of ws (file ++ bytes_of w) ∙ append_assoc file (bytes_of w) (log_of ws)

pub length-log_of : (ws : List Written) → length ws ≤ length (log_of ws)
length-log_of [] = omega arith
length-log_of (w ∷ ws) =
    omega (arith, length-log_of ws, length-append (bytes_of w) (log_of ws), length-bytes_of w)
