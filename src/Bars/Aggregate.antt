-- ===== src/Bars/Aggregate.antt =====
-- src/engine/kline_manager.cpp: bars of one period made from those of another, and merged into those
-- that are there.
use hft_framework.Common.{
  ℤ, pos, ◌+ℤ◌, leb_ℤ, max_ℤ, Bool, false, ◌||◌, List, [], ◌∷◌, ◌++◌, if◌then◌else◌, Text, text_eq,
  is_empty,
}
use hft_framework.Common.Sorted
use hft_framework.Common.Sorted.{Text-Less, Int-Less}
use hft_framework.Double.{Double, zero_f, min_f, max_f}
use hft_framework.Bars.State.{
  KlineBar, KlineManager, Calendar, minute_period, five_period, quarter_period, day_period,
  bucket_start_ms, format_kline_time, normalize_kline_period,
}
use hft_framework.Bars.Update.{back, change_back, keep_last, bars_of, state_of, starts_bar, periods}

unfoldable pub collect_import_periods : Text → List Text
collect_import_periods base =
    if text_eq base minute_period
    then periods
    else if text_eq base five_period
    then five_period ∷ quarter_period ∷ day_period ∷ []
    else if text_eq base quarter_period
    then quarter_period ∷ day_period ∷ []
    else day_period ∷ []

-- `std::find`
unfoldable is_listed : Text → List Text → Bool
is_listed t [] = false
is_listed t (x ∷ xs) = text_eq x t || is_listed t xs

-- The periods of the second list that are in the first.
unfoldable pub sort_kline_periods : List Text → List Text → List Text
unfolding is_listed
sort_kline_periods given [] = []
sort_kline_periods given (candidate ∷ rest) =
    let later = sort_kline_periods given rest in
    if is_listed candidate given then candidate ∷ later else later

module _ {P : Type 0} where
  unfoldable pub put_all : List (KlineBar P) → List (ℤ × KlineBar P) → List (ℤ × KlineBar P)
  unfolding Sorted.put
  put_all [] m = m
  put_all (bar ∷ bars) m = put_all bars (Sorted.put bar.timestamp_ms bar m)

  unfoldable pub values : List (ℤ × KlineBar P) → List (KlineBar P)
  values [] = []
  values ((t, bar) ∷ m) = bar ∷ values m

  -- `existing` is empty where the source has no bars of the period.
  unfoldable pub merge_period_bars :
      List (KlineBar P) → List (KlineBar P) → Bool → List (KlineBar P)
  unfolding put_all values keep_last
  merge_period_bars existing imported replace_existing =
      keep_last 2000
        (values (put_all imported (if replace_existing then [] else put_all existing [])))

module _ (d : Double) (cal : Calendar) where
  open d use {F, add}

  abbrev pub opened_by : ℤ → Text → KlineBar F → KlineBar F
  opened_by bucket period source = record source {
    timestamp_ms = bucket;
    time = format_kline_time cal bucket period;
    volume = max_ℤ source.volume (pos 0);
    turnover = max_f d source.turnover (zero_f d);
  }

  abbrev pub absorb : KlineBar F → KlineBar F → KlineBar F
  absorb source bar = record bar {
    high = max_f d bar.high source.high;
    low = min_f d bar.low source.low;
    close = source.close;
    volume = bar.volume +ℤ max_ℤ source.volume (pos 0);
    turnover = add bar.turnover (max_f d source.turnover (zero_f d));
  }

  -- The loop, with the bars made so far.
  unfoldable pub aggregate_from : Text → List (KlineBar F) → List (KlineBar F) → List (KlineBar F)
  unfolding back change_back bucket_start_ms
  aggregate_from period aggregated [] = aggregated
  aggregate_from period aggregated (source ∷ rest) =
      let bucket = bucket_start_ms source.timestamp_ms period in
      aggregate_from period
        (if leb_ℤ source.timestamp_ms (pos 0)
          then aggregated
          else if starts_bar (back aggregated) bucket
          then aggregated ++ opened_by bucket period source ∷ []
          else change_back (absorb source) aggregated)
        rest

  unfoldable pub aggregate_bars_to_period : List (KlineBar F) → Text → List (KlineBar F)
  unfolding aggregate_from normalize_kline_period
  aggregate_bars_to_period source_bars period =
      aggregate_from (normalize_kline_period period) [] source_bars

  -- The periods of one instrument after an import.
  unfoldable pub import_periods :
      List Text
      → List (KlineBar F)
      → Bool
      → List (Text × List (KlineBar F))
      → List (Text × List (KlineBar F))
  unfolding Sorted.find Sorted.put merge_period_bars aggregate_bars_to_period
  import_periods [] base_bars replace_existing m = m
  import_periods (target ∷ rest) base_bars replace_existing m =
      import_periods rest base_bars replace_existing (
        Sorted.put target
          (merge_period_bars (bars_of (Sorted.find target m))
            (aggregate_bars_to_period base_bars target) replace_existing)
          m)

  unfoldable held_periods : List (Text × List (KlineBar F)) → List Text
  held_periods [] = []
  held_periods ((period, []) ∷ m) = held_periods m
  held_periods ((period, b ∷ bars) ∷ m) = period ∷ held_periods m

  unfoldable pub get_periods : Text → KlineManager F → List Text
  unfolding Sorted.find sort_kline_periods held_periods
  get_periods instrument k =
      if is_empty instrument
      then []
      else sort_kline_periods
          (held_periods (state_of d cal (Sorted.find instrument k.cache)).bars_by_period) periods
