-- ===== src/Codec/Tests.antt =====
-- Runs of the encodings, the checksum and the log, and the theorems at concrete inputs.
use hft_framework.Common.{ℕ, ◌≡◌, refl, pos, negsuc, some, List, [], ◌∷◌, ◌++◌, arith, bit_xor}
use hft_framework.Codec.Varint.{to_u64, zigzag_encode}
use hft_framework.Codec.Crc.{
  shift_one, shift_times, entries, table, entry, crc_byte, crc_loop, compute,
}
use hft_framework.Codec.Linear.{divided, compute-divided}
use hft_framework.Codec.Log.{
  order_update, checkpoint, WalEntry, Outcome, ok, truncated, replay, le_bytes, le_value,
  entry_bytes,
}
use hft_framework.Codec.Replay.{replay_total}
use hft_framework.Codec.Entries.{Written, log_of, append_all}
use hft_framework.Codec.Recovery.{replay-append_all, replay_torn, replay_damaged}

zigzags : zigzag_encode (negsuc 63) ∷ zigzag_encode (pos 64) ∷ [] ≡ 127 ∷ 128 ∷ []
unfolding zigzag_encode to_u64
zigzags = refl

-- The checksum of "123456789", the value that the tables of CRC-32 name.
abbrev digits_text : List ℕ
digits_text = 49 ∷ 50 ∷ 51 ∷ 52 ∷ 53 ∷ 54 ∷ 55 ∷ 56 ∷ 57 ∷ []

check_value : compute digits_text ≡ 0xCBF43926
unfolding compute crc_loop crc_byte entry table entries shift_times shift_one
check_value = refl

compute-divided_example : compute digits_text ≡ bit_xor (divided 0xFFFFFFFF digits_text) 0xFFFFFFFF
compute-divided_example = compute-divided digits_text (omega arith)

-- A callback that keeps the payloads, the last first.
abbrev keep : WalEntry → List (List ℕ) → List (List ℕ)
keep entry kept = entry.payload ∷ kept

abbrev order_line : Written
order_line = record { now = pos 1000; kind = order_update; payload = 1 ∷ 2 ∷ 3 ∷ [] }

abbrev mark_line : Written
mark_line = record { now = pos 2000; kind = checkpoint; payload = [] }

abbrev two_lines : List Written
two_lines = order_line ∷ mark_line ∷ []

replay_total_example :
    (o : Outcome (List (List ℕ))) × (replay keep (some (17 ∷ 0 ∷ [])) [] ≡ some o)
replay_total_example = replay_total keep (some (17 ∷ 0 ∷ [])) []

replay-append_all_example :
    replay keep (some (append_all two_lines [])) []
    ≡ some (record {
      result = ok;
      reached = [] ∷ (1 ∷ 2 ∷ 3 ∷ []) ∷ [];
      entries_read = 2;
      entries_corrupted = 0;
    })
replay-append_all_example = replay-append_all keep two_lines [] (omega arith)

-- The first six bytes of an entry of 20: its size, and two bytes of the time.
replay_torn_example :
    replay keep (some (log_of two_lines ++ 20 ∷ 0 ∷ 0 ∷ 0 ∷ 232 ∷ 3 ∷ [])) []
    ≡ some (record {
      result = truncated;
      reached = [] ∷ (1 ∷ 2 ∷ 3 ∷ []) ∷ [];
      entries_read = 2;
      entries_corrupted = 0;
    })
unfolding entry_bytes le_bytes to_u64
replay_torn_example =
    replay_torn keep two_lines order_line (20 ∷ 0 ∷ 0 ∷ 0 ∷ 232 ∷ 3 ∷ [])
      (0
        ∷ 0
        ∷ 0
        ∷ 0
        ∷ 0
        ∷ 1
        ∷ 1
        ∷ 2
        ∷ 3
        ∷ le_bytes 4
            (compute (20 ∷ 0 ∷ 0 ∷ 0 ∷ 232 ∷ 3 ∷ 0 ∷ 0 ∷ 0 ∷ 0 ∷ 0 ∷ 0 ∷ 1 ∷ 1 ∷ 2 ∷ 3 ∷ [])))
      0 [] (omega arith) (omega arith) (omega arith) refl

abbrev bad_header : List ℕ
bad_header = 18 ∷ 0 ∷ 0 ∷ 0 ∷ 232 ∷ 3 ∷ 0 ∷ 0 ∷ 0 ∷ 0 ∷ 0 ∷ 0 ∷ 1 ∷ []

replay_damaged_example :
    replay keep
      (some (
        log_of two_lines
        ++ (bad_header ++ (9 ∷ [] ++ (0 ∷ 0 ∷ 0 ∷ 0 ∷ [] ++ log_of (mark_line ∷ []))))))
      []
    ≡ some (record {
      result = ok;
      reached = [] ∷ [] ∷ (1 ∷ 2 ∷ 3 ∷ []) ∷ [];
      entries_read = 3;
      entries_corrupted = 1;
    })
unfolding le_value compute crc_loop crc_byte entry table entries shift_times shift_one
replay_damaged_example =
    replay_damaged keep two_lines (mark_line ∷ []) bad_header (9 ∷ []) (0 ∷ 0 ∷ 0 ∷ 0 ∷ []) []
      (omega arith) (omega arith) refl refl refl (λ e. absurd (omega (arith, e)))
