-- ===== src/Bars/Store.antt =====
-- src/engine/kline_manager.cpp: save_store and load_store, on the bytes of the file. The stream takes
-- every byte; a store that cannot be opened is `none`, and the renaming of the file is left out.
-- `llround` is that of <cmath>.
use hft_framework.Common.{
  ℕ, zero, suc, ◌-◌, ◌%◌, ◌^◌, ltb, ℤ, pos, negsuc, ◌+ℤ◌, ◌-ℤ◌, max_ℤ, Bool, true, false, Option,
  none, some, List, [], ◌∷◌, ◌++◌, if◌then◌else◌, Text, codes, length, take, drop, text_eq,
}
use hft_framework.Common.Sorted
use hft_framework.Common.Sorted.{Text-Less}
use hft_framework.Double.{Double}
use hft_framework.Codec.Varint.{
  to_u64, to_i64, write_varuint, write_varint, write_string, read_varuint, read_varint, read_string,
}
use hft_framework.Bars.State.{
  KlineBar, InstrumentKlineState, KlineManager, Calendar, format_kline_time,
}
use hft_framework.Bars.Update.{keep_last, bars_of, state_of}

abbrev pub store_magic : List ℕ
store_magic = codes "HFTKDB1"

-- `static_cast<int>` of a 64-bit number.
unfoldable pub to_int : ℕ → ℤ
to_int n = if ltb (n % 2 ^ 32) (2 ^ 31) then pos (n % 2 ^ 32) else negsuc (2 ^ 32 - 1 - n % 2 ^ 32)

-- What the loops over the bars remember of the bar before.
pub record Previous : Type 0 where
  pub previous_timestamp : ℤ
  pub previous_close : ℤ
  pub previous_turnover : ℤ

-- The first bar is written whole, any other as the difference from the one before.
abbrev pub delta : Bool → ℤ → ℤ → ℤ
delta first previous x = if first then x else x -ℤ previous

abbrev pub undelta : Bool → ℤ → ℤ → ℤ
undelta first previous x = if first then x else previous +ℤ x

abbrev pub nothing_before : Previous
nothing_before = record {
  previous_timestamp = pos 0;
  previous_close = pos 0;
  previous_turnover = pos 0;
}

-- The entries that hold a bar.
unfoldable pub with_bars : {P : Type 0} → List (Text × List P) → List (Text × List P)
with_bars [] = []
with_bars ((period, []) ∷ m) = with_bars m
with_bars ((period, b ∷ bars) ∷ m) = (period, b ∷ bars) ∷ with_bars m

infixl 5 ◌>>=◌
abbrev ◌>>=◌ : {A B : Type 0} → Option A → (A → Option B) → Option B
none >>= f = none
some a >>= f = f a

module _ (d : Double) (llround : d.F → ℤ) (cal : Calendar) where
  open d use {F, of_int, mul, div}

  abbrev pub fixed_price : F → ℤ
  fixed_price x = llround (mul x (of_int (pos 10000)))

  abbrev pub restore_price : ℤ → F
  restore_price n = div (of_int n) (of_int (pos 10000))

  abbrev pub fixed_turnover : F → ℤ
  fixed_turnover x = llround (mul x (of_int (pos 100)))

  abbrev pub restore_turnover : ℤ → F
  restore_turnover n = div (of_int n) (of_int (pos 100))

  abbrev pub bar_before : KlineBar F → Previous
  bar_before bar = record {
    previous_timestamp = bar.timestamp_ms;
    previous_close = fixed_price bar.close;
    previous_turnover = fixed_turnover bar.turnover;
  }

  unfoldable pub write_bar : Bool → Previous → List ℕ → KlineBar F → List ℕ
  write_bar first before os bar =
      let open_fixed = fixed_price bar.open_price in
      let os1 =
        write_varuint os (to_u64 (delta first before.previous_timestamp bar.timestamp_ms)) in
      let os2 = write_varint os1 (delta first before.previous_close open_fixed) in
      let os3 = write_varint os2 (fixed_price bar.high -ℤ open_fixed) in
      let os4 = write_varint os3 (fixed_price bar.low -ℤ open_fixed) in
      let os5 = write_varint os4 (fixed_price bar.close -ℤ open_fixed) in
      let os6 = write_varuint os5 (to_u64 (max_ℤ bar.volume (pos 0))) in
      write_varint os6 (delta first before.previous_turnover (fixed_turnover bar.turnover))

  unfoldable pub write_bars : Bool → Previous → List ℕ → List (KlineBar F) → List ℕ
  unfolding write_bar
  write_bars first before os [] = os
  write_bars first before os (bar ∷ bars) =
      write_bars false (bar_before bar) (write_bar first before os bar) bars

  unfoldable pub write_period : List ℕ → Text × List (KlineBar F) → List ℕ
  unfolding write_bars
  write_period os entry =
      write_bars true nothing_before (write_varuint (write_string os entry.0) (length entry.1))
        entry.1

  unfoldable pub write_periods : List ℕ → List (Text × List (KlineBar F)) → List ℕ
  unfolding write_period
  write_periods os [] = os
  write_periods os (entry ∷ entries) = write_periods (write_period os entry) entries

  unfoldable pub write_instruments : List ℕ → List (Text × List (Text × List (KlineBar F))) → List ℕ
  unfolding write_periods
  write_instruments os [] = os
  write_instruments os ((instrument, periods) ∷ rest) =
      write_instruments
        (write_periods (write_varuint (write_string os instrument) (length periods)) periods) rest

  unfoldable pub last_bars : List (Text × List (KlineBar F)) → List (Text × List (KlineBar F))
  unfolding keep_last
  last_bars [] = []
  last_bars ((period, bars) ∷ m) = (period, keep_last 400 bars) ∷ last_bars m

  unfoldable pub copies :
      List (Text × InstrumentKlineState F) → List (Text × List (Text × List (KlineBar F)))
  unfolding last_bars with_bars
  copies [] = []
  copies ((instrument, s) ∷ rest) =
      (instrument, last_bars (with_bars s.bars_by_period)) ∷ copies rest

  -- The copy that is made under the lock; an instrument enters it with its first bar.
  unfoldable pub snapshot :
      List (Text × InstrumentKlineState F) → List (Text × List (Text × List (KlineBar F)))
  unfolding copies
  snapshot cache = with_bars (copies cache)

  -- The bytes of the file.
  unfoldable pub save_store : KlineManager F → List ℕ
  unfolding write_instruments snapshot
  save_store k =
      let snap = snapshot k.cache in
      write_instruments (write_varuint store_magic (length snap)) snap

  unfoldable pub read_bar :
      Text → Bool → Previous → List ℕ → Option ((KlineBar F × Previous) × List ℕ)
  read_bar period first before is0 = do
    (timestamp_delta, is1) ← read_varuint is0
    (open_delta, is2) ← read_varint is1
    (high_offset, is3) ← read_varint is2
    (low_offset, is4) ← read_varint is3
    (close_offset, is5) ← read_varint is4
    (volume, is6) ← read_varuint is5
    (turnover_delta, is7) ← read_varint is6
    let timestamp_ms = undelta first before.previous_timestamp (to_i64 timestamp_delta)
    let open_fixed = undelta first before.previous_close open_delta
    let close_fixed = open_fixed +ℤ close_offset
    let turnover_fixed = undelta first before.previous_turnover turnover_delta
    some (
      (
        record {
          timestamp_ms = timestamp_ms;
          time = format_kline_time cal timestamp_ms period;
          open_price = restore_price open_fixed;
          high = restore_price (open_fixed +ℤ high_offset);
          low = restore_price (open_fixed +ℤ low_offset);
          close = restore_price close_fixed;
          volume = to_int volume;
          turnover = restore_turnover turnover_fixed;
        },
        record {
          previous_timestamp = timestamp_ms;
          previous_close = close_fixed;
          previous_turnover = turnover_fixed;
        },
      ),
      is7,
    )

  unfoldable pub read_bars :
      Text → ℕ → Bool → Previous → List (KlineBar F) → List ℕ → Option (List (KlineBar F) × List ℕ)
  unfolding read_bar
  read_bars period zero first before bars is = some (bars, is)
  read_bars period (suc n) first before bars is = elim (read_bar period first before is) [
    | none ↦ none
    | some r ↦ read_bars period n false r.0.1 (bars ++ r.0.0 ∷ []) r.1
  ]

  unfoldable pub read_period :
      List (Text × List (KlineBar F)) → List ℕ → Option (List (Text × List (KlineBar F)) × List ℕ)
  unfolding read_bars Sorted.find Sorted.put
  read_period m is0 = do
    (period, is1) ← read_string is0
    (bar_count, is2) ← read_varuint is1
    (bars, is3) ←
        read_bars period bar_count true nothing_before (bars_of (Sorted.find period m)) is2
    some (Sorted.put period bars m, is3)

  unfoldable pub read_periods :
      ℕ
      → List (Text × List (KlineBar F))
      → List ℕ
      → Option (List (Text × List (KlineBar F)) × List ℕ)
  unfolding read_period
  read_periods zero m is = some (m, is)
  read_periods (suc n) m is = elim (read_period m is) [
    | none ↦ none
    | some r ↦ read_periods n r.0 r.1
  ]

  unfoldable pub read_instrument :
      List (Text × InstrumentKlineState F)
      → List ℕ
      → Option (List (Text × InstrumentKlineState F) × List ℕ)
  unfolding read_periods Sorted.find Sorted.put
  read_instrument m is0 = do
    (instrument, is1) ← read_string is0
    (period_count, is2) ← read_varuint is1
    let s = state_of d cal (Sorted.find instrument m)
    (periods, is3) ← read_periods period_count s.bars_by_period is2
    some (Sorted.put instrument (record s { bars_by_period = periods }) m, is3)

  unfoldable pub read_instruments :
      ℕ
      → List (Text × InstrumentKlineState F)
      → List ℕ
      → Option (List (Text × InstrumentKlineState F) × List ℕ)
  unfolding read_instrument
  read_instruments zero m is = some (m, is)
  read_instruments (suc n) m is = elim (read_instrument m is) [
    | none ↦ none
    | some r ↦ read_instruments n r.0 r.1
  ]

  unfoldable pub read_store : List ℕ → Option (List (Text × InstrumentKlineState F))
  unfolding read_instruments
  read_store file =
      let restored = do
        (count, is) ← read_varuint (drop 7 file)
        (cache, is') ← read_instruments count [] is
        some cache
      in if text_eq (take 7 file) store_magic then restored else none

  unfoldable pub load_store : Option (List ℕ) → KlineManager F → Bool × KlineManager F
  unfolding read_store
  load_store none k = (false, k)
  load_store (some file) k = elim (read_store file) [
    | none ↦ (false, k)
    | some cache ↦ (true, record k { cache = cache })
  ]
