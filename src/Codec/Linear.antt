-- ===== src/Codec/Linear.antt =====
-- src/common/crc32.h: the table against the division that defines the checksum, digit by digit.
use hft_framework.Common.{
  ℕ, zero, suc, ◌+◌, ◌-◌, ◌*◌, ◌/◌, ◌%◌, ◌^◌, ◌<◌, ◌≡◌, refl, ap, ◌∙◌, ◌==◌, bit_xor, some, List,
  [], ◌∷◌, ◌++◌, if◌then◌else◌, arith, get_elem?, All,
}
use hft_framework.Common.Bits.{
  and_low1, and_low8, xor_ones, xor-zero, xor_comm, xor_assoc, xor_below, xor_half, xor_parity,
  xor_above, xor_swap, pow_double,
}
use hft_framework.Codec.Crc.{
  shift_one, shift_times, entries, table, entry, crc_byte, crc_loop, compute, update,
}

-- The divisor, if the lowest digit asks for it.
abbrev divisor : ℕ → ℕ
divisor c = if c % 2 == 1 then 0xEDB88320 else 0

shift_one_lem : (c : ℕ) → shift_one c ≡ bit_xor (c / 2) (divisor c)
unfolding shift_one
shift_one_lem c = ground (arith, and_low1 c, xor_comm (c / 2) 0, xor-zero (c / 2))

divisor-xor : (a b : ℕ) → divisor (bit_xor a b) ≡ bit_xor (divisor a) (divisor b)
divisor-xor a b = rw (xor_parity a b) (cases (a % 2) (b % 2) (omega arith) (omega arith) (sums))
  where
    sums : (a + b) % 2 ≡ (a % 2 + b % 2) % 2
    sums = omega arith

    cases :
        (p q : ℕ)
        → p < 2
        → q < 2
        → (a + b) % 2 ≡ (p + q) % 2
        → (if (a + b) % 2 == 1 then 0xEDB88320 else 0)
          ≡ bit_xor (if p == 1 then 0xEDB88320 else 0) (if q == 1 then 0xEDB88320 else 0)
    cases zero zero hp hq e = rw e refl
    cases zero (suc zero) hp hq e = rw e refl
    cases (suc zero) zero hp hq e = rw e refl
    cases (suc zero) (suc zero) hp hq e = rw e refl
    cases (suc (suc p)) q hp hq e = absurd (omega arith)
    cases zero (suc (suc q)) hp hq e = absurd (omega arith)
    cases (suc zero) (suc (suc q)) hp hq e = absurd (omega arith)

shift_one-xor : (a b : ℕ) → shift_one (bit_xor a b) ≡ bit_xor (shift_one a) (shift_one b)
shift_one-xor a b = cc (
  shift_one_lem (bit_xor a b),
  shift_one_lem a,
  shift_one_lem b,
  xor_half a b,
  divisor-xor a b,
  xor_swap (a / 2) (divisor a) (b / 2) (divisor b),
)

shift_times-xor :
    (k a b : ℕ) → shift_times k (bit_xor a b) ≡ bit_xor (shift_times k a) (shift_times k b)
unfolding shift_times
shift_times-xor zero a b = refl
shift_times-xor (suc k) a b = rw (shift_one-xor a b) (shift_times-xor k (shift_one a) (shift_one b))

-- Digits that the rounds do not reach are shifted only.
shift_times_high : (k h : ℕ) → shift_times k (h * 2 ^ k) ≡ h
unfolding shift_times
shift_times_high zero h = omega arith
shift_times_high (suc k) h = rw even (shift_times_high k h)
  where
    twice : h * 2 ^ suc k ≡ 2 * (h * 2 ^ k)
    twice = omega (arith, ap (λ (t : ℕ). h * t) (pow_double k))

    even : shift_one (h * 2 ^ suc k) ≡ h * 2 ^ k
    even = unfold shift_one in ground (arith, twice, and_low1 (h * 2 ^ suc k))

shift_times_split : (x : ℕ) → shift_times 8 x ≡ bit_xor (shift_times 8 (x % 256)) (x / 256)
shift_times_split x = cc (
  parts,
  xor_above 8 (x % 256) (x / 256) (omega arith),
  shift_times-xor 8 (x % 256) (x / 256 * 2 ^ 8),
  shift_times_high 8 (x / 256),
)
  where
    parts : x ≡ x % 256 + x / 256 * 2 ^ 8
    parts = omega arith

entries_at : (n i j : ℕ) → j < n → get_elem? (entries n i) j ≡ some (shift_times 8 (i + j))
unfolding entries
entries_at zero i j h = absurd (omega arith)
entries_at (suc n) i zero h = ap (λ (t : ℕ). some (shift_times 8 t)) (omega arith)
entries_at (suc n) i (suc j) h =
    entries_at n (i + 1) j (omega arith) ∙ ap (λ (t : ℕ). some (shift_times 8 t)) (omega arith)

entry-shift_times : (i : ℕ) → i < 256 → entry i ≡ shift_times 8 i
unfolding entry table
entry-shift_times i h = rw (entries_at 256 0 i h, entry) (ap (shift_times 8) (omega arith))

byte_shifted_out : (crc b : ℕ) → b < 256 → bit_xor crc b / 256 ≡ crc / 256
byte_shifted_out crc b h =
    omega (arith, moved, xor_below 8 (crc % 256) b (omega arith) (omega arith))
  where
    parts : crc ≡ crc % 256 + crc / 256 * 2 ^ 8
    parts = omega arith

    moved : bit_xor crc b ≡ bit_xor (crc % 256) b + crc / 256 * 2 ^ 8
    moved = cc (
      parts,
      xor_above 8 (crc % 256) (crc / 256) (omega arith),
      xor_above 8 (bit_xor (crc % 256) b) (crc / 256)
          (xor_below 8 (crc % 256) b (omega arith) (omega arith)),
      xor_assoc (crc % 256) (crc / 256 * 2 ^ 8) b,
      xor_comm (crc / 256 * 2 ^ 8) b,
      xor_assoc (crc % 256) b (crc / 256 * 2 ^ 8),
    )

-- A byte looked up in the table is eight rounds of the division.
pub crc_byte-bitwise : (crc b : ℕ) → b < 256 → crc_byte crc b ≡ shift_times 8 (bit_xor crc b)
unfolding crc_byte
crc_byte-bitwise crc b h =
    rw
      (
        and_low8 (bit_xor crc b),
        entry-shift_times (bit_xor crc b % 256) (omega arith),
        shift_times_split (bit_xor crc b),
        byte_shifted_out crc b h,
      )
      refl

-- The checksum as the division itself defines it, eight rounds for a byte.
unfoldable pub divided : ℕ → List ℕ → ℕ
divided crc [] = crc
divided crc (b ∷ bs) = divided (shift_times 8 (bit_xor crc b)) bs

abbrev pub IsByte : ℕ → Type 0
IsByte b = b < 256

crc_loop-divided :
    (crc : ℕ) (bytes : List ℕ) → All IsByte bytes → crc_loop crc bytes ≡ divided crc bytes
unfolding crc_loop divided
crc_loop-divided crc [] h = refl
crc_loop-divided crc (b ∷ bs) h =
    rw (crc_byte-bitwise crc b h.0) (crc_loop-divided (shift_times 8 (bit_xor crc b)) bs h.1)

-- On any bytes compute gives by its table what the division digit by digit gives.
pub compute-divided :
    (bytes : List ℕ)
    → All IsByte bytes
    → compute bytes ≡ bit_xor (divided 0xFFFFFFFF bytes) 0xFFFFFFFF
unfolding compute
compute-divided bytes h = rw (crc_loop-divided 0xFFFFFFFF bytes h, compute) refl

shift_one_below : (c : ℕ) → c < 2 ^ 32 → shift_one c < 2 ^ 32
unfolding shift_one
shift_one_below c h = ground (arith, xor_below 32 (c / 2) 0xEDB88320 (omega arith) (omega arith))

shift_times_below : (k c : ℕ) → c < 2 ^ 32 → shift_times k c < 2 ^ 32
unfolding shift_times
shift_times_below zero c h = h
shift_times_below (suc k) c h = shift_times_below k (shift_one c) (shift_one_below c h)

crc_byte_below : (crc b : ℕ) → crc < 2 ^ 32 → crc_byte crc b < 2 ^ 32
unfolding crc_byte
crc_byte_below crc b h =
    let i = bit_xor crc b % 256 in
    rw (and_low8 (bit_xor crc b), entry-shift_times (bit_xor crc b % 256) (omega arith), crc_byte)
      (xor_below 32 (shift_times 8 i) (crc / 256) (shift_times_below 8 i (omega arith))
        (omega arith))

pub crc_loop_below : (crc : ℕ) (bytes : List ℕ) → crc < 2 ^ 32 → crc_loop crc bytes < 2 ^ 32
unfolding crc_loop
crc_loop_below crc [] h = h
crc_loop_below crc (b ∷ bs) h = crc_loop_below (crc_byte crc b) bs (crc_byte_below crc b h)

crc_loop-append :
    (crc : ℕ) (xs ys : List ℕ) → crc_loop crc (xs ++ ys) ≡ crc_loop (crc_loop crc xs) ys
unfolding crc_loop
crc_loop-append crc [] ys = refl
crc_loop-append crc (x ∷ xs) ys = crc_loop-append (crc_byte crc x) xs ys

pub compute_below : (bytes : List ℕ) → compute bytes < 2 ^ 32
unfolding compute
compute_below bytes = xor_below 32 _ _ (crc_loop_below 0xFFFFFFFF bytes (omega arith)) (omega arith)

-- The checksum of a first part, updated with a second part, is the checksum of the two together.
pub update-compute : (xs ys : List ℕ) → update (compute xs) ys ≡ compute (xs ++ ys)
unfolding update compute
update-compute xs ys =
    let first = crc_loop_below 0xFFFFFFFF xs (omega arith) in
    let back : 2 ^ 32 - 1 - (2 ^ 32 - 1 - crc_loop 0xFFFFFFFF xs) ≡ crc_loop 0xFFFFFFFF xs =
      omega (arith, first) in
    rw
      (
        xor_ones 32 (crc_loop 0xFFFFFFFF xs) first,
        back,
        crc_loop-append 0xFFFFFFFF xs ys,
        xor_ones 32 (crc_loop (crc_loop 0xFFFFFFFF xs) ys) (crc_loop_below _ ys first),
      )
      refl
