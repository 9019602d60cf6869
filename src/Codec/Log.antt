-- ===== src/Codec/Log.antt =====
-- src/common/wal_writer.h and src/common/wal_reader.h: the entries of the log, and their replay. What
-- the file system does is a list of bytes; the clock's reading is an argument.
use hft_framework.Common.{
  ℕ, zero, suc, ◌+◌, ◌-◌, ◌*◌, ◌/◌, ◌%◌, ◌^◌, ltb, ◌==◌, ℤ, Bool, false, Option, none, some, List,
  [], ◌∷◌, ◌++◌, if◌then◌else◌, length, take, drop,
}
use hft_framework.Codec.Varint.{to_u64, to_i64}
use hft_framework.Codec.Crc.{compute, update}

pub data WalEntryType : Type 0 where
  order_update trade_record position_snap checkpoint : WalEntryType

abbrev pub type_byte : WalEntryType → ℕ
type_byte order_update = 1
type_byte trade_record = 2
type_byte position_snap = 3
type_byte checkpoint = 4

-- `std::memcpy` of a number of n bytes to and from a buffer, the lowest byte first.
unfoldable pub le_bytes : ℕ → ℕ → List ℕ
le_bytes zero v = []
le_bytes (suc n) v = v % 256 ∷ le_bytes n (v / 256)

unfoldable pub le_value : List ℕ → ℕ
le_value [] = 0
le_value (b ∷ bs) = b + 256 * le_value bs

-- WalEntryHeader, 13 bytes: `size`, `timestamp_ns` and `type`.
abbrev pub header_bytes : ℕ → ℤ → ℕ → List ℕ
header_bytes size timestamp_ns kind =
    le_bytes 4 size ++ (le_bytes 8 (to_u64 timestamp_ns) ++ kind ∷ [])

-- The buffer that `append` fills: header, payload and checksum.
unfoldable pub entry_bytes : ℤ → WalEntryType → List ℕ → List ℕ
entry_bytes now kind payload =
    let total_size = (13 + length payload + 4) % 2 ^ 32 in
    let covered = header_bytes total_size now (type_byte kind) ++ payload in
    covered ++ le_bytes 4 (compute covered)

-- The writer of the file, which is src/common/async_writer.h: whether it is open, and a write.
module _ {S : Type 0} (is_open : S → Bool) (write : List ℕ → S → Bool × S) where
  unfoldable pub append : ℤ → WalEntryType → List ℕ → S → Bool × S
  append now kind payload s =
      if is_open s then write (entry_bytes now kind payload) s else (false, s)

  unfoldable pub write_checkpoint : ℤ → S → Bool × S
  write_checkpoint now s = append now checkpoint [] s

-- `type` holds any byte of the file.
pub record WalEntry : Type 0 where
  pub type_of : ℕ
  pub timestamp_ns : ℤ
  pub payload : List ℕ

pub data ReplayResult : Type 0 where
  ok file_not_found read_error truncated : ReplayResult

-- What one round of the loop of `replay` finds at the front of the file.
pub data Round : Type 0 where
  at_end : Round
  torn : Round
  undersized : Round
  damaged : List ℕ → Round
  intact : WalEntry → List ℕ → Round

unfoldable pub read_round : List ℕ → Round
read_round file =
    let hdr = take 13 file in
    let size = le_value (take 4 hdr) in
    let remaining = size - 13 in
    let buf = take remaining (drop 13 file) in
    let rest = drop remaining (drop 13 file) in
    let payload_len = remaining - 4 in
    let expected_crc = le_value (take 4 (drop payload_len buf)) in
    let actual_crc =
      if ltb 0 payload_len then update (compute hdr) (take payload_len buf) else compute hdr in
    if length hdr == 0
    then at_end
    else if ltb (length hdr) 13
    then torn
    else if ltb size 17
    then undersized
    else if ltb (length buf) remaining
    then torn
    else if actual_crc == expected_crc
    then intact
        (record {
          type_of = le_value (drop 12 hdr);
          timestamp_ns = to_i64 (le_value (take 8 (drop 4 hdr)));
          payload = take payload_len buf;
        })
        rest
    else damaged rest

-- The result, the state that the callback has reached, and the two counts.
pub record Outcome (S : Type 0) : Type 0 where
  pub result : ReplayResult
  pub reached : S
  pub entries_read : ℕ
  pub entries_corrupted : ℕ

module _ {S : Type 0} (cb : WalEntry → S → S) where
  -- The loop on fuel: none says that the fuel ran out.
  unfoldable pub replay_loop : ℕ → List ℕ → S → ℕ → ℕ → Option (Outcome S)
  replay_loop zero file s read_count corrupt_count = none
  replay_loop (suc fuel) file s read_count corrupt_count =
      let stop : ReplayResult → ℕ → Option (Outcome S) = λ r corrupt. some (record {
        result = r;
        reached = s;
        entries_read = read_count;
        entries_corrupted = corrupt;
      }) in
      elim (read_round file) [
        | at_end ↦ stop ok corrupt_count
        | torn ↦ stop truncated corrupt_count
        | undersized ↦ stop ok (corrupt_count + 1)
        | damaged rest ↦ replay_loop fuel rest s read_count (corrupt_count + 1)
        | intact entry rest ↦ replay_loop fuel rest (cb entry s) (read_count + 1) corrupt_count
      ]

  -- `std::fopen` finds the file or not. Every round but the last takes 17 bytes at least.
  unfoldable pub replay : Option (List ℕ) → S → Option (Outcome S)
  replay none s =
      some
        (record { result = file_not_found; reached = s; entries_read = 0; entries_corrupted = 0 })
  replay (some file) s = replay_loop (suc (length file)) file s 0 0
