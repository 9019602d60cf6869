-- ===== src/Codec/Recovery.antt =====
-- src/common/wal_reader.h against src/common/wal_writer.h: a log that was written is replayed, and a
-- damaged entry costs itself only.
use hft_framework.Common.{
  ℕ, zero, suc, ◌+◌, ◌-◌, ◌<◌, ◌≤◌, ◌≡◌, ◌≢◌, refl, sym, ap, ◌∙◌, ◌==◌, true, false, some, List, [],
  ◌∷◌, ◌++◌, arith, length, take, drop, length-append, take_of_le, All, Bool-cases, ltb, inl, inr,
}
use mathlib.Core.List.{append-nil, append_assoc}
use hft_framework.Codec.Crc.{compute}
use hft_framework.Codec.Log.{
  le_value, WalEntry, ok, truncated, torn, damaged, read_round, replay_loop, replay,
}
use hft_framework.Codec.Replay.{framed, take_front, length-drop}
use hft_framework.Codec.Entries.{
  Written, header_size, length-header, entry_parts, length-bytes_of, append_all-log_of,
  length-log_of, IsWritable, bytes_of, entry_of, size_of, header_of, log_of, append_all,
  round-entry,
}

take_prefix : (n : ℕ) (xs ys : List ℕ) → n ≤ length xs → take n (xs ++ ys) ≡ take n xs
take_prefix zero xs ys h = refl
take_prefix (suc n) [] ys h = absurd (omega arith)
take_prefix (suc n) (x ∷ xs) ys h = ap (λ r. x ∷ r) (take_prefix n xs ys (omega arith))

length-take : (n : ℕ) (xs : List ℕ) → n ≤ length xs → length (take n xs) ≡ n
length-take zero xs h = refl
length-take (suc n) [] h = absurd (omega arith)
length-take (suc n) (x ∷ xs) h = ap suc (length-take n xs (omega arith))

torn_header : (front : List ℕ) → 0 < length front → length front < 13 → read_round front ≡ torn
unfolding read_round
torn_header front h k =
    let whole : take 13 front ≡ front = take_of_le 13 front (omega arith) in
    let some_bytes : (length front == 0) ≡ false = ground arith in
    let short : ltb (length front) 13 ≡ true = ground arith in
    rw (whole, some_bytes, short, read_round) refl

torn_body :
    (front : List ℕ) (size : ℕ)
    → 13 ≤ length front
    → length front < size
    → 17 ≤ size
    → le_value (take 4 (take 13 front)) ≡ size
    → read_round front ≡ torn
unfolding read_round
torn_body front size h k l e =
    let body : length (drop 13 front) ≡ length front - 13 = length-drop 13 front in
    let whole : take (size - 13) (drop 13 front) ≡ drop 13 front =
      take_of_le (size - 13) (drop 13 front) (omega (arith, body)) in
    let large : ltb size 17 ≡ false = ground arith in
    let short : ltb (length front - 13) (size - 13) ≡ true = ground arith in
    rw (length-take 13 front h, e, whole, body, large, short, read_round) refl

-- What is left of an entry that was not written to its end.
round_torn :
    (w : Written) (front back : List ℕ) (x : ℕ)
    → IsWritable w
    → 0 < length front
    → bytes_of w ≡ front ++ x ∷ back
    → read_round front ≡ torn
round_torn w front back x h ne e = elim (Bool-cases (ltb (length front) 13)) [
  | inl k ↦ torn_header front ne (ground arith)
  | inr k ↦
      let long : 13 ≤ length front = ground arith in
      torn_body front (17 + length w.payload) long
        (omega (arith, length-bytes_of w, length-append front (x ∷ back), ap (length {A = ℕ}) e))
        (omega arith)
        (ap (λ (t : List ℕ). le_value (take 4 t)) (header long)
          ∙ header_size (size_of w) w.now w.kind (omega arith)
          ∙ omega arith)
]
  where
    header : 13 ≤ length front → take 13 front ≡ header_of w
    header long =
        sym (take_prefix 13 front (x ∷ back) long)
        ∙ ap (take 13) (sym e ∙ sym (append-nil (bytes_of w)) ∙ entry_parts w [])
        ∙ take_front 13 (header_of w) _ (length-header (size_of w) w.now w.kind)

module _ {S : Type 0} (cb : WalEntry → S → S) where
  -- What the callback makes of the entries in order.
  abbrev pub delivered : List Written → S → S
  delivered [] s = s
  delivered (w ∷ ws) s = delivered ws (cb (entry_of w) s)

  one_round :
      (f : ℕ) (w : Written) (rest : List ℕ) (s : S) (reads bad : ℕ)
      → IsWritable w
      → replay_loop cb (suc f) (bytes_of w ++ rest) s reads bad
        ≡ replay_loop cb f rest (cb (entry_of w) s) (reads + 1) bad
  unfolding replay_loop
  one_round f w rest s reads bad h = rw (round-entry w rest h, replay_loop) refl

  rounds-log_of :
      (ws : List Written) (f fuel : ℕ) (tail : List ℕ) (s : S) (reads total bad : ℕ)
      → All IsWritable ws
      → f ≡ length ws + fuel
      → total ≡ reads + length ws
      → replay_loop cb f (log_of ws ++ tail) s reads bad
        ≡ replay_loop cb fuel tail (delivered ws s) total bad
  rounds-log_of [] f fuel tail s reads total bad h ef et =
      let same_f : f ≡ fuel = omega arith in
      let same_t : total ≡ reads = omega arith in rw (same_f, same_t) refl
  rounds-log_of (w ∷ ws) zero fuel tail s reads total bad h ef et = absurd (omega arith)
  rounds-log_of (w ∷ ws) (suc f) fuel tail s reads total bad h ef et =
      rw
        (
          append_assoc (bytes_of w) (log_of ws) tail,
          one_round f w (log_of ws ++ tail) s reads bad h.0,
        )
        (rounds-log_of ws f fuel tail (cb (entry_of w) s) (reads + 1) total bad h.1 (omega arith)
          (omega arith))

  -- A log with something behind it, whose replay is begun with fuel for every byte.
  after_log :
      (ws : List Written) (tail : List ℕ) (s : S)
      → All IsWritable ws
      → (n : ℕ) × (length tail ≤ n)
        × (replay cb (some (log_of ws ++ tail)) s
            ≡ replay_loop cb (suc n) tail (delivered ws s) (length ws) 0)
  unfolding replay
  after_log ws tail s h = (
    length (log_of ws ++ tail) - length ws,
    omega (arith, length-append (log_of ws) tail, length-log_of ws),
    rounds-log_of ws (suc (length (log_of ws ++ tail)))
        (suc (length (log_of ws ++ tail) - length ws)) tail s 0 (length ws) 0 h
        (omega (arith, length-append (log_of ws) tail, length-log_of ws)) (omega arith),
  )

  -- A log that was appended entry by entry to an empty file replays to the callback on each of
  -- them in order: the result is Ok and nothing is counted as corrupt.
  pub replay-append_all :
      (ws : List Written) (s : S)
      → All IsWritable ws
      → replay cb (some (append_all ws [])) s
        ≡ some (record {
          result = ok;
          reached = delivered ws s;
          entries_read = length ws;
          entries_corrupted = 0;
        })
  unfolding replay_loop read_round
  replay-append_all ws s h =
      let (n, _, e) = after_log ws [] s h in
      ap (λ (file : List ℕ). replay cb (some file) s)
        (append_all-log_of ws [] ∙ sym (append-nil (log_of ws)))
      ∙ e

  -- A log that breaks off inside an entry replays to every entry before it: the result is
  -- Truncated.
  pub replay_torn :
      (ws : List Written) (w : Written) (front back : List ℕ) (x : ℕ) (s : S)
      → All IsWritable ws
      → IsWritable w
      → 0 < length front
      → bytes_of w ≡ front ++ x ∷ back
      → replay cb (some (log_of ws ++ front)) s
        ≡ some (record {
          result = truncated;
          reached = delivered ws s;
          entries_read = length ws;
          entries_corrupted = 0;
        })
  unfolding replay_loop
  replay_torn ws w front back x s h hw ne e =
      let (n, _, r) = after_log ws front s h in
      r ∙ rw (round_torn w front back x hw ne e, replay_loop) refl

  skipped :
      (n : ℕ) (file rest : List ℕ) (s : S) (reads bad : ℕ)
      → read_round file ≡ damaged rest
      → replay_loop cb (suc n) file s reads bad ≡ replay_loop cb n rest s reads (bad + 1)
  unfolding replay_loop
  skipped n file rest s reads bad e = rw (e, replay_loop) refl

  -- An entry between two logs whose checksum is wrong, but whose size is that of its bytes, is
  -- counted as corrupt, and every entry before and behind it is replayed.
  pub replay_damaged :
      (ws vs : List Written) (hdr payload crc : List ℕ) (s : S)
      → All IsWritable ws
      → All IsWritable vs
      → length hdr ≡ 13
      → le_value (take 4 hdr) ≡ 17 + length payload
      → length crc ≡ 4
      → compute (hdr ++ payload) ≢ le_value crc
      → replay cb (some (log_of ws ++ (hdr ++ (payload ++ (crc ++ log_of vs))))) s
        ≡ some (record {
          result = ok;
          reached = delivered vs (delivered ws s);
          entries_read = length ws + length vs;
          entries_corrupted = 1;
        })
  unfolding replay_loop read_round
  replay_damaged ws vs hdr payload crc s hw hv h z c ne =
      let (n, long, e) = after_log ws (hdr ++ (payload ++ (crc ++ log_of vs))) s hw in
      let wrong : (compute (hdr ++ payload) == le_value crc) ≡ false = ground arith in
      let enough : length vs + 17 ≤ n = omega (
        arith,
        long,
        length-append hdr (payload ++ (crc ++ log_of vs)),
        length-append payload (crc ++ log_of vs),
        length-append crc (log_of vs),
        length-log_of vs,
      ) in
      e
      ∙ skipped n (hdr ++ (payload ++ (crc ++ log_of vs))) (log_of vs) (delivered ws s) (length ws)
          0 (rw wrong at (framed hdr payload crc (log_of vs) h z c))
      ∙ ap (λ (file : List ℕ). replay_loop cb n file (delivered ws s) (length ws) 1)
          (sym (append-nil (log_of vs)))
      ∙ rounds-log_of vs n (suc (n - length vs - 1)) [] _ (length ws) (length ws + length vs) 1 hv
          (omega arith) refl
