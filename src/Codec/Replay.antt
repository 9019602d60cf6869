-- ===== src/Codec/Replay.antt =====
-- src/common/wal_reader.h: what a replay finds in a log, whole or damaged.
use hft_framework.Common.{
  ℕ, zero, suc, ◌+◌, ◌-◌, ◌<◌, ◌≡◌, ◌⊎◌, inl, inr, refl, sym, ltb, ◌==◌, false, Option, none, some,
  List, [], ◌∷◌, ◌++◌, if◌then◌else◌, arith, length, take, drop, length-append, take_of_le,
}
use mathlib.Core.List.{append-nil, append_assoc}
use hft_framework.Codec.Varint.{to_i64}
use hft_framework.Codec.Crc.{compute, update}
use hft_framework.Codec.Linear.{update-compute}
use hft_framework.Codec.RoundTrip.{take-length-append, drop-length-append}
use hft_framework.Codec.Log.{
  le_value, WalEntry, Round, at_end, torn, undersized, damaged, intact, read_round, Outcome,
  replay_loop, replay,
}

pub length-drop : (n : ℕ) (xs : List ℕ) → length (drop n xs) ≡ length xs - n
length-drop zero xs = omega arith
length-drop (suc n) [] = omega arith
length-drop (suc n) (x ∷ xs) = omega (arith, length-drop n xs)

-- What is left after a round that goes on.
damaged_shorter : (file rest : List ℕ) → read_round file ≡ damaged rest → length rest < length file
unfolding read_round
damaged_shorter [] rest e = absurd (cc)
damaged_shorter (b ∷ bs) rest e =
    let remaining = le_value (take 4 (take 13 (b ∷ bs))) - 13 in
    ground (arith, length-drop remaining (drop 13 (b ∷ bs)), length-drop 12 bs)

intact_shorter :
    (file : List ℕ) (entry : WalEntry) (rest : List ℕ)
    → read_round file ≡ intact entry rest
    → length rest < length file
unfolding read_round
intact_shorter [] entry rest e = absurd (cc)
intact_shorter (b ∷ bs) entry rest e =
    let remaining = le_value (take 4 (take 13 (b ∷ bs))) - 13 in
    ground (arith, length-drop remaining (drop 13 (b ∷ bs)), length-drop 12 bs)

module _ {S : Type 0} (cb : WalEntry → S → S) where
  replay_loop_total :
      (fuel : ℕ) (file : List ℕ) (s : S) (read_count corrupt_count : ℕ)
      → length file < fuel
      → (o : Outcome S) × (replay_loop cb fuel file s read_count corrupt_count ≡ some o)
  unfolding replay_loop
  replay_loop_total zero file s reads bad h = absurd (omega arith)
  replay_loop_total (suc fuel) file s reads bad h = elim (Round-cases (read_round file)) [
    | inl (inl (rest, e)) ↦
        rw (e, replay_loop)
          (replay_loop_total fuel rest s reads (bad + 1)
            (omega (arith, damaged_shorter file rest e)))
    | inl (inr (entry, rest, e)) ↦
        rw (e, replay_loop)
          (replay_loop_total fuel rest (cb entry s) (reads + 1) bad
            (omega (arith, intact_shorter file entry rest e)))
    | inr (inl e) ↦ rw (e, replay_loop) (_, refl)
    | inr (inr (inl e)) ↦ rw (e, replay_loop) (_, refl)
    | inr (inr (inr e)) ↦ rw (e, replay_loop) (_, refl)
  ]
    where
      Round-cases :
          (r : Round)
          → (((rest : List ℕ) × (r ≡ damaged rest))
              ⊎ ((entry : WalEntry) × (rest : List ℕ) × (r ≡ intact entry rest)))
            ⊎ ((r ≡ at_end) ⊎ ((r ≡ torn) ⊎ (r ≡ undersized)))
      Round-cases at_end = inr (inl refl)
      Round-cases torn = inr (inr (inl refl))
      Round-cases undersized = inr (inr (inr refl))
      Round-cases (damaged rest) = inl (inl (rest, refl))
      Round-cases (intact entry rest) = inl (inr (entry, rest, refl))

  -- A replay ends on every file, whatever its bytes: there is a result.
  pub replay_total :
      (file : Option (List ℕ)) (s : S) → (o : Outcome S) × (replay cb file s ≡ some o)
  unfolding replay
  replay_total none s = (_, refl)
  replay_total (some file) s = replay_loop_total (suc (length file)) file s 0 0 (omega arith)

pub take_front : (n : ℕ) (xs ys : List ℕ) → length xs ≡ n → take n (xs ++ ys) ≡ xs
take_front n xs ys e = rw (sym e) (take-length-append xs ys)

drop_front : (n : ℕ) (xs ys : List ℕ) → length xs ≡ n → drop n (xs ++ ys) ≡ ys
drop_front n xs ys e = rw (sym e) (drop-length-append xs ys)

abbrev pub read_entry : List ℕ → List ℕ → WalEntry
read_entry hdr payload = record {
  type_of = le_value (drop 12 hdr);
  timestamp_ns = to_i64 (le_value (take 8 (drop 4 hdr)));
  payload = payload;
}

both_checksums :
    (hdr payload : List ℕ)
    → (if ltb 0 (length payload) then update (compute hdr) payload else compute hdr)
      ≡ compute (hdr ++ payload)
both_checksums hdr [] = rw (append-nil hdr) refl
both_checksums hdr (b ∷ bs) = rw (update-compute hdr (b ∷ bs)) (ground arith)

-- A round on an entry of the size that its header says.
pub framed :
    (hdr payload crc rest : List ℕ)
    → length hdr ≡ 13
    → le_value (take 4 hdr) ≡ 17 + length payload
    → length crc ≡ 4
    → read_round (hdr ++ (payload ++ (crc ++ rest))) ≡ (
        if compute (hdr ++ payload) == le_value crc
        then intact (read_entry hdr payload) rest
        else damaged rest)
unfolding read_round
framed hdr payload crc rest h s c =
    rw
      (
        take_front 13 hdr (payload ++ (crc ++ rest)) h,
        drop_front 13 hdr (payload ++ (crc ++ rest)) h,
        s,
        size,
        sym (append_assoc payload crc rest),
        take_front (length payload + 4) (payload ++ crc) rest both,
        drop_front (length payload + 4) (payload ++ crc) rest both,
        less,
        take_front (length payload) payload crc refl,
        drop_front (length payload) payload crc refl,
        four,
        both_checksums hdr payload,
        h,
        large,
        both,
        enough,
      )
      refl
  where
    size : 17 + length payload - 13 ≡ length payload + 4
    size = omega arith

    less : length payload + 4 - 4 ≡ length payload
    less = omega arith

    both : length (payload ++ crc) ≡ length payload + 4
    both = omega (arith, length-append payload crc)

    four : take 4 crc ≡ crc
    four = take_of_le 4 crc (omega arith)

    large : ltb (17 + length payload) 17 ≡ false
    large = ground arith

    enough : ltb (length payload + 4) (length payload + 4) ≡ false
    enough = ground arith
