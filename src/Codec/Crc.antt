-- ===== src/Codec/Crc.antt =====
-- src/common/crc32.h: the checksum by its table.
use hft_framework.Common.{
  ℕ, zero, suc, ◌+◌, ◌-◌, ◌/◌, ◌^◌, ◌==◌, bit_and, bit_xor, none, some, List, [], ◌∷◌,
  if◌then◌else◌, get_elem?,
}

-- One round of the loop that fills the table.
unfoldable pub shift_one : ℕ → ℕ
shift_one c = if bit_and c 1 == 1 then bit_xor (c / 2) 0xEDB88320 else c / 2

unfoldable pub shift_times : ℕ → ℕ → ℕ
shift_times zero c = c
shift_times (suc j) c = shift_times j (shift_one c)

-- The entries from `i` on, `n` of them.
unfoldable pub entries : ℕ → ℕ → List ℕ
entries zero i = []
entries (suc n) i = shift_times 8 i ∷ entries n (i + 1)

unfoldable pub table : List ℕ
table = entries 256 0

-- `tbl[i]`; the index is below 256.
unfoldable pub entry : ℕ → ℕ
entry i = elim (get_elem? table i) [ none ↦ 0 | some c ↦ c ]

unfoldable pub crc_byte : ℕ → ℕ → ℕ
crc_byte crc b = bit_xor (entry (bit_and (bit_xor crc b) 0xFF)) (crc / 256)

unfoldable pub crc_loop : ℕ → List ℕ → ℕ
crc_loop crc [] = crc
crc_loop crc (b ∷ bs) = crc_loop (crc_byte crc b) bs

unfoldable pub compute : List ℕ → ℕ
compute bytes = bit_xor (crc_loop 0xFFFFFFFF bytes) 0xFFFFFFFF

-- `~crc` is 2 ^ 32 - 1 - crc.
unfoldable pub update : ℕ → List ℕ → ℕ
update crc bytes = 2 ^ 32 - 1 - crc_loop (2 ^ 32 - 1 - crc) bytes
