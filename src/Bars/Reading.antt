-- ===== src/Bars/Reading.antt =====
-- src/engine/kline_manager.cpp: the bars of a period, and the periods of an instrument, are read back.
use hft_framework.Common.{
  ℕ, ◌^◌, ◌<◌, ◌≡◌, ℤ, Bool, true, false, some, List, [], ◌∷◌, ◌++◌, Text, map, length,
}
use mathlib.Core.List.{append_assoc, append-nil}
use hft_framework.Common.Sorted.{
  Text-Less, Below, Follows, IsSorted, Follows-append, find_above_all, put_last, Follows-nil,
}
use hft_framework.Double.{Double}
use hft_framework.Codec.Streams.{
  varuint_bytes, string_bytes, write_varuint_onto, write_string_onto, read_varuint-bytes,
  read_string-bytes,
}
use hft_framework.Bars.State.{KlineBar, InstrumentKlineState, Calendar}
use hft_framework.Bars.Update.{fresh_state}
use hft_framework.Bars.Store.{
  Previous, nothing_before, bar_before, write_bars, write_period, write_periods, write_instruments,
  read_bars, read_period, read_periods, read_instrument, read_instruments,
}
use hft_framework.Bars.Reload.{FitsBar, stored, bar_bytes, write_bar_onto, read_bar-bytes}

module _ (d : Double) (llround : d.F → ℤ) (cal : Calendar) where
  open d use {F}

  abbrev pub FitsBars : Bool → Previous → List (KlineBar F) → Type 0
  FitsBars first before [] = Unit
  FitsBars first before (bar ∷ bars) =
      FitsBar d llround cal first before bar × FitsBars false (bar_before d llround cal bar) bars

  bars_bytes : Bool → Previous → List (KlineBar F) → List ℕ
  bars_bytes first before [] = []
  bars_bytes first before (bar ∷ bars) =
      bar_bytes d llround cal first before bar
      ++ bars_bytes false (bar_before d llround cal bar) bars

  write_bars_onto :
      (bars : List (KlineBar F)) (first : Bool) (before : Previous)
      → FitsBars first before bars
      → (os : List ℕ)
      → write_bars d llround cal first before os bars ≡ os ++ bars_bytes first before bars
  unfolding write_bars bars_bytes
  write_bars_onto [] first before f os = rw append-nil
  write_bars_onto (bar ∷ bars) first before f os = rw (
    write_bar_onto d llround cal first before bar f.0 os,
    write_bars_onto bars false (bar_before d llround cal bar) f.1,
    append_assoc os,
  )

  read_bars-bytes :
      (period : Text) (bars : List (KlineBar F)) (first : Bool) (before : Previous)
      → FitsBars first before bars
      → (read : List (KlineBar F)) (is : List ℕ)
      → read_bars d llround cal period
          (length bars)
          first
          before
          read
          (bars_bytes first before bars ++ is)
        ≡ some (read ++ map (stored d llround cal period) bars, is)
  unfolding read_bars bars_bytes
  read_bars-bytes period [] first before f read is = rw append-nil
  read_bars-bytes period (bar ∷ bars) first before f read is = rw (
    append_assoc (bar_bytes d llround cal first before bar),
    read_bars,
    read_bar-bytes d llround cal first before bar f.0 period,
    read_bars-bytes period bars false (bar_before d llround cal bar) f.1,
    append_assoc read,
  )

  -- A period with its bars can be written.
  abbrev pub FitsPeriod : Text × List (KlineBar F) → Type 0
  FitsPeriod entry =
      (length entry.0 < 2 ^ 63) × (length entry.1 < 2 ^ 64) × FitsBars true nothing_before entry.1

  period_bytes : Text × List (KlineBar F) → List ℕ
  period_bytes entry =
      string_bytes entry.0
      ++ (varuint_bytes (length entry.1) ++ bars_bytes true nothing_before entry.1)

  write_period_onto :
      (entry : Text × List (KlineBar F))
      → FitsPeriod entry
      → (os : List ℕ) → write_period d llround cal os entry ≡ os ++ period_bytes entry
  unfolding write_period period_bytes
  write_period_onto entry f os = simp (
    write_string_onto entry.0 f.0,
    write_varuint_onto (length entry.1) f.1,
    write_bars_onto entry.1 true nothing_before f.2,
    append_assoc,
  )

  pub stored_period : Text × List (KlineBar F) → Text × List (KlineBar F)
  stored_period entry = (entry.0, map (stored d llround cal entry.0) entry.1)

  read_period-bytes :
      (entry : Text × List (KlineBar F))
      → FitsPeriod entry
      → (m : List (Text × List (KlineBar F))) → Below entry.0 m
      → (is : List ℕ)
      → read_period d llround cal m (period_bytes entry ++ is)
        ≡ some (m ++ stored_period entry ∷ [], is)
  unfolding read_period period_bytes stored_period
  read_period-bytes entry f m b is = simp (
    append_assoc,
    read_string-bytes entry.0 f.0,
    read_varuint-bytes (length entry.1) f.1,
    find_above_all entry.0 m b,
    read_bars-bytes entry.0 entry.1 true nothing_before f.2,
    put_last entry.0 (map (stored d llround cal entry.0) entry.1) m b,
  )

  abbrev pub FitsPeriods : List (Text × List (KlineBar F)) → Type 0
  FitsPeriods [] = Unit
  FitsPeriods (entry ∷ entries) = FitsPeriod entry × FitsPeriods entries

  periods_bytes : List (Text × List (KlineBar F)) → List ℕ
  periods_bytes [] = []
  periods_bytes (entry ∷ entries) = period_bytes entry ++ periods_bytes entries

  write_periods_onto :
      (entries : List (Text × List (KlineBar F)))
      → FitsPeriods entries
      → (os : List ℕ) → write_periods d llround cal os entries ≡ os ++ periods_bytes entries
  unfolding write_periods periods_bytes
  write_periods_onto [] f os = rw append-nil
  write_periods_onto (entry ∷ entries) f os =
      rw (write_period_onto entry f.0 os, write_periods_onto entries f.1, append_assoc os)

  read_periods-bytes :
      (entries : List (Text × List (KlineBar F)))
      → FitsPeriods entries
      → IsSorted entries
      → (m : List (Text × List (KlineBar F))) → Follows m entries
      → (is : List ℕ)
      → read_periods d llround cal (length entries) m (periods_bytes entries ++ is)
        ≡ some (m ++ map stored_period entries, is)
  unfolding read_periods periods_bytes stored_period
  read_periods-bytes [] f s m b is = rw append-nil
  read_periods-bytes ((period, bars) ∷ entries) f s m b is = rw (
    append_assoc (period_bytes (period, bars)),
    read_periods,
    read_period-bytes (period, bars) f.0 m b.0,
    read_periods-bytes entries f.1 s.1 (m ++ stored_period (period, bars) ∷ [])
        (Follows-append period (map (stored d llround cal period) bars) m entries s.0 b.1),
    append_assoc m,
  )

  -- An instrument with its periods can be written.
  abbrev pub FitsInstruments : List (Text × List (Text × List (KlineBar F))) → Type 0
  FitsInstruments [] = Unit
  FitsInstruments ((instrument, periods) ∷ rest) =
      ((length instrument < 2 ^ 63) × (length periods < 2 ^ 64) × FitsPeriods periods)
      × FitsInstruments rest

  pub instruments_bytes : List (Text × List (Text × List (KlineBar F))) → List ℕ
  instruments_bytes [] = []
  instruments_bytes ((instrument, periods) ∷ rest) =
      string_bytes instrument
      ++ (varuint_bytes (length periods) ++ (periods_bytes periods ++ instruments_bytes rest))

  pub write_instruments_onto :
      (snap : List (Text × List (Text × List (KlineBar F))))
      → FitsInstruments snap
      → (os : List ℕ) → write_instruments d llround cal os snap ≡ os ++ instruments_bytes snap
  unfolding write_instruments instruments_bytes
  write_instruments_onto [] f os = rw append-nil
  write_instruments_onto ((instrument, periods) ∷ rest) f os = simp (
    write_string_onto instrument f.0.0,
    write_varuint_onto (length periods) f.0.1,
    write_periods_onto periods f.0.2,
    write_instruments_onto rest f.1,
    append_assoc,
  )

  -- An instrument as the store gives it back.
  abbrev pub stored_instrument :
      Text × List (Text × List (KlineBar F)) → Text × InstrumentKlineState F
  stored_instrument entry =
      (entry.0, record (fresh_state d cal) { bars_by_period = map stored_period entry.1 })

  -- The periods of every instrument are in order.
  abbrev pub PeriodsSorted : List (Text × List (Text × List (KlineBar F))) → Type 0
  PeriodsSorted [] = Unit
  PeriodsSorted ((instrument, periods) ∷ rest) = IsSorted periods × PeriodsSorted rest

  read_instrument-bytes :
      (instrument : Text) (periods : List (Text × List (KlineBar F)))
      → length instrument < 2 ^ 63
      → length periods < 2 ^ 64
      → FitsPeriods periods
      → IsSorted periods
      → (m : List (Text × InstrumentKlineState F)) → Below instrument m
      → (is : List ℕ)
      → read_instrument d llround cal m (
          string_bytes instrument
          ++ (varuint_bytes (length periods) ++ (periods_bytes periods ++ is)))
        ≡ some (m ++ stored_instrument (instrument, periods) ∷ [], is)
  unfolding read_instrument
  read_instrument-bytes instrument periods hi hp f s m b is = simp (
    read_string-bytes instrument hi,
    read_varuint-bytes (length periods) hp,
    find_above_all instrument m b,
    read_periods-bytes periods f s [] (Follows-nil (List (KlineBar F)) periods),
    put_last instrument (stored_instrument (instrument, periods)).1 m b,
  )

  pub read_instruments-bytes :
      (snap : List (Text × List (Text × List (KlineBar F))))
      → FitsInstruments snap
      → IsSorted snap
      → PeriodsSorted snap
      → (m : List (Text × InstrumentKlineState F)) → Follows m snap
      → (is : List ℕ)
      → read_instruments d llround cal (length snap) m (instruments_bytes snap ++ is)
        ≡ some (m ++ map stored_instrument snap, is)
  unfolding read_instruments instruments_bytes
  read_instruments-bytes [] f s p m b is = rw append-nil
  read_instruments-bytes ((instrument, periods) ∷ rest) f s p m b is =
      let given = stored_instrument (instrument, periods) in
      rw (
        append_assoc (string_bytes instrument),
        append_assoc (varuint_bytes (length periods)),
        append_assoc (periods_bytes periods),
        read_instruments,
        read_instrument-bytes instrument periods f.0.0 f.0.1 f.0.2 p.0 m b.0,
        read_instruments-bytes rest f.1 s.1 p.1 (m ++ given ∷ [])
            (Follows-append instrument given.1 m rest s.0 b.1),
        append_assoc m,
      )
