-- ===== src/Bars/RoundTrip.antt =====
-- src/engine/kline_manager.cpp: load_store reads back what save_store wrote.
use hft_framework.Common.{
  ◌^◌, ◌<◌, ◌≡◌, ℤ, true, some, List, [], ◌∷◌, ◌++◌, Text, map, text_eq, length, All,
}
use mathlib.Core.List.{append_assoc, append-nil}
use hft_framework.Common.Sorted.{Text-Less, Above, IsSorted, Follows-nil}
use hft_framework.Double.{Double}
use hft_framework.Codec.Streams.{varuint_bytes, write_varuint_onto, read_varuint-bytes}
use hft_framework.Bars.State.{KlineBar, InstrumentKlineState, KlineManager, Calendar}
use hft_framework.Bars.Store.{
  store_magic, with_bars, last_bars, copies, snapshot, save_store, load_store, read_store,
}
use hft_framework.Bars.Reading.{
  FitsInstruments, PeriodsSorted, stored_instrument, instruments_bytes, write_instruments_onto,
  read_instruments-bytes,
}

Above-with_bars :
    {P : Type 0} (k : Text) (m : List (Text × List P)) → Above k m → Above k (with_bars m)
unfolding with_bars
Above-with_bars k [] a = tt
Above-with_bars k ((j, []) ∷ m) a = Above-with_bars k m a.1
Above-with_bars k ((j, b ∷ bars) ∷ m) a = (a.0, Above-with_bars k m a.1)

with_bars-IsSorted : {P : Type 0} (m : List (Text × List P)) → IsSorted m → IsSorted (with_bars m)
unfolding with_bars
with_bars-IsSorted [] s = tt
with_bars-IsSorted ((j, []) ∷ m) s = with_bars-IsSorted m s.1
with_bars-IsSorted ((j, b ∷ bars) ∷ m) s = (Above-with_bars j m s.0, with_bars-IsSorted m s.1)

module _ (d : Double) (llround : d.F → ℤ) (cal : Calendar) where
  open d use {F}

  Above-last_bars :
      (k : Text) (m : List (Text × List (KlineBar F)))
      → Above k m
      → Above k (last_bars d llround cal m)
  unfolding last_bars
  Above-last_bars k [] a = tt
  Above-last_bars k ((j, bars) ∷ m) a = (a.0, Above-last_bars k m a.1)

  last_bars-IsSorted :
      (m : List (Text × List (KlineBar F))) → IsSorted m → IsSorted (last_bars d llround cal m)
  unfolding last_bars
  last_bars-IsSorted [] s = tt
  last_bars-IsSorted ((j, bars) ∷ m) s = (Above-last_bars j m s.0, last_bars-IsSorted m s.1)

  Above-copies :
      (k : Text) (m : List (Text × InstrumentKlineState F))
      → Above k m
      → Above k (copies d llround cal m)
  unfolding copies
  Above-copies k [] a = tt
  Above-copies k ((j, s) ∷ m) a = (a.0, Above-copies k m a.1)

  copies-IsSorted :
      (m : List (Text × InstrumentKlineState F)) → IsSorted m → IsSorted (copies d llround cal m)
  unfolding copies
  copies-IsSorted [] s = tt
  copies-IsSorted ((j, _) ∷ m) s = (Above-copies j m s.0, copies-IsSorted m s.1)

  -- The periods of every instrument of the cache are in order.
  abbrev pub CacheSorted : List (Text × InstrumentKlineState F) → Type 0
  CacheSorted m = IsSorted m × All (λ e. IsSorted e.1.bars_by_period) m

  copies-PeriodsSorted :
      (m : List (Text × InstrumentKlineState F))
      → All (λ e. IsSorted e.1.bars_by_period) m
      → PeriodsSorted d llround cal (copies d llround cal m)
  unfolding copies
  copies-PeriodsSorted [] a = tt
  copies-PeriodsSorted ((j, s) ∷ m) a =
      (last_bars-IsSorted _ (with_bars-IsSorted s.bars_by_period a.0), copies-PeriodsSorted m a.1)

  with_bars-PeriodsSorted :
      (m : List (Text × List (Text × List (KlineBar F))))
      → PeriodsSorted d llround cal m
      → PeriodsSorted d llround cal (with_bars m)
  unfolding with_bars
  with_bars-PeriodsSorted [] p = tt
  with_bars-PeriodsSorted ((j, []) ∷ m) p = with_bars-PeriodsSorted m p.1
  with_bars-PeriodsSorted ((j, b ∷ bars) ∷ m) p = (p.0, with_bars-PeriodsSorted m p.1)

  read_store-bytes :
      (snap : List (Text × List (Text × List (KlineBar F))))
      → FitsInstruments d llround cal snap
      → length snap < 2 ^ 64
      → IsSorted snap
      → PeriodsSorted d llround cal snap
      → read_store d llround cal
          (store_magic ++ (varuint_bytes (length snap) ++ instruments_bytes d llround cal snap))
        ≡ some (map (stored_instrument d llround cal) snap)
  unfolding read_store text_eq
  read_store-bytes snap fits count sorted periods =
      let whole = append-nil (instruments_bytes d llround cal snap) in
      let read =
        read_instruments-bytes d llround cal snap fits sorted periods []
          (Follows-nil (InstrumentKlineState F) snap) [] in
      rw (read_varuint-bytes (length snap) count, ← whole, read)

  -- A file that save_store wrote loads, into any manager, as the last 400 bars of every period that
  -- has a bar, in order and with prices and turnover rounded to the fixed point of the file; the
  -- counters of the last tick start afresh. The keys of the cache are in order, and the names, the
  -- differences and the volumes fit the types that they are written as.
  pub load-save :
      (k k' : KlineManager F)
      → CacheSorted k.cache
      → FitsInstruments d llround cal (snapshot d llround cal k.cache)
      → length (snapshot d llround cal k.cache) < 2 ^ 64
      → load_store d llround cal (some (save_store d llround cal k)) k' ≡ (
        true,
        record k' {
          cache = map (stored_instrument d llround cal) (snapshot d llround cal k.cache);
        },
      )
  unfolding save_store load_store snapshot
  load-save k k' s fits count =
      let snap = with_bars (copies d llround cal k.cache) in
      let sorted : IsSorted snap = with_bars-IsSorted _ (copies-IsSorted k.cache s.0) in
      let periods = with_bars-PeriodsSorted _ (copies-PeriodsSorted k.cache s.1) in
      rw
        (
          write_varuint_onto (length snap) count store_magic,
          write_instruments_onto d llround cal snap fits,
          append_assoc store_magic,
        )
        (rw (load_store, read_store-bytes snap fits count sorted periods))
