-- ===== src/Bars/Tests.antt =====
-- Bars: tests, and instances of the theorems.
use hft_framework.Common.{
  ◌+◌, ◌*◌, ◌/◌, ◌≤◌, ℤ, pos, negsuc, pos_part, ◌≡◌, refl, true, false, some, none, List, [], ◌∷◌,
  codes, Text, ◌+ℤ◌, ◌-ℤ◌, map, if◌then◌else◌, length, arith, text_eq,
}
use hft_framework.Common.Sorted
use hft_framework.Common.Sorted.{text_lt, IsSorted, Int-Less}
use hft_framework.Double.Fixed.{fixed}
use hft_framework.Types.{TickData}
use hft_framework.Bars.State.{
  KlineBar, KlineManager, Calendar, Tm, minute_period, five_period, local_date_time_to_epoch_ms,
  bucket_start_ms, trading_day_to_bucket_ms,
}
use hft_framework.Bars.Update.{update_from_tick, update_state, get_bars, keep_last}
use hft_framework.Bars.Store.{save_store, load_store, snapshot}
use hft_framework.Bars.Aggregate.{aggregate_bars_to_period, merge_period_bars, values}
use hft_framework.Bars.Reading.{stored_instrument}
use hft_framework.Bars.RoundTrip.{load-save}
use hft_framework.Bars.Grouping.{Ascends, total_volume, counted_volume, aggregate-Ascends}
use hft_framework.Bars.Merging.{last_at, InOrder, Keyed, merge_period_bars_lem}

-- Days of 86400 seconds, in months of 31 days and years of 12 such months.
abbrev plain : Calendar
plain = record {
  mktime = λ y mo da h mi s. pos (
      (((pos_part y * 12 + pos_part mo) * 31 + pos_part da) * 24 + pos_part h) * 3600
      + pos_part mi * 60
      + pos_part s);
  localtime = λ t. record {
    tm_year = pos 0;
    tm_mon = pos 0;
    tm_mday = pos 1;
    tm_hour = pos (pos_part t / 3600);
    tm_min = pos 5;
  };
}

abbrev round_off : ℤ → ℤ
round_off n = pos (pos_part n / 10000)

abbrev tick_at : Text → ℤ → ℤ → TickData ℤ
tick_at time price volume = record {
  instrument_id = codes "rb2510";
  exchange_id = [];
  last_price = price;
  pre_close_price = pos 0;
  open_price = pos 0;
  highest_price = pos 0;
  lowest_price = pos 0;
  volume = volume;
  turnover = pos 0;
  open_interest = pos 0;
  bid = [];
  ask = [];
  upper_limit = pos 0;
  lower_limit = pos 0;
  update_time = time;
  update_millisec = pos 0;
  trading_day = codes "20260105";
  action_day = codes "20260105";
  local_recv_ns = pos 0;
}

abbrev no_time : Tm
no_time = plain.localtime (pos 0)

abbrev empty_manager : KlineManager ℤ
empty_manager = record { cache = []; next_persist_steady_ms = pos 0 }

abbrev after_one : KlineManager ℤ
unfolding update_from_tick update_state Sorted.find Sorted.put
after_one =
    (update_from_tick fixed plain no_time (tick_at (codes "09:00:01") (pos 35000) (pos 100))
      empty_manager).1

abbrev after_two : KlineManager ℤ
unfolding update_from_tick update_state Sorted.find Sorted.put
after_two =
    (update_from_tick fixed plain no_time (tick_at (codes "09:00:31") (pos 36000) (pos 107))
      after_one).1

get_bars_two :
    map (λ b. b.volume) (get_bars fixed plain (codes "rb2510") (codes "1m") 0 after_two)
    ≡ pos 7 ∷ []
unfolding get_bars update_from_tick update_state Sorted.find Sorted.put local_date_time_to_epoch_ms
    ◌-ℤ◌ ◌+ℤ◌ text_lt text_eq trading_day_to_bucket_ms bucket_start_ms
get_bars_two = refl

abbrev bar_at : ℤ → ℤ → ℤ → KlineBar ℤ
bar_at ts price volume = record {
  timestamp_ms = ts;
  time = [];
  open_price = price;
  high = price;
  low = pos 100;
  close = price;
  volume = volume;
  turnover = pos 0;
}

abbrev small_manager : KlineManager ℤ
small_manager = record {
  cache =
      (
        codes "rb",
        record {
          last_volume = pos 9;
          last_turnover = pos 0;
          last_trading_day = [];
          bars_by_period =
              (
                minute_period,
                bar_at (pos 60000) (pos 35000) (pos 4)
                    ∷ bar_at (pos 120000) (pos 36000) (pos 5)
                    ∷ [],
              )
              ∷ (five_period, [])
              ∷ [];
        },
      )
      ∷ [];
  next_persist_steady_ms = pos 0;
}

load-save_example :
    load_store fixed round_off plain
      (some (save_store fixed round_off plain small_manager))
      empty_manager
    ≡ (
      true,
      record empty_manager {
        cache =
            map
              (stored_instrument fixed round_off plain)
              (snapshot fixed round_off plain small_manager.cache);
      },
    )
unfolding snapshot text_lt ◌+ℤ◌ ◌-ℤ◌
load-save_example =
    load-save fixed round_off plain small_manager empty_manager
      ((tt, tt), (((refl, tt), (tt, tt)), tt)) (omega arith) (omega arith)

aggregate-Ascends_example :
    Ascends (negsuc 0) (
      aggregate_bars_to_period fixed plain
        (bar_at (pos 60000) (pos 35000) (pos 4) ∷ bar_at (pos 120000) (pos 36000) (pos 5) ∷ [])
        five_period)
    × (total_volume (
          aggregate_bars_to_period fixed plain
            (bar_at (pos 60000) (pos 35000) (pos 4) ∷ bar_at (pos 120000) (pos 36000) (pos 5) ∷ [])
            five_period)
        ≡ counted_volume
            (bar_at (pos 60000) (pos 35000) (pos 4) ∷ bar_at (pos 120000) (pos 36000) (pos 5) ∷ []))
aggregate-Ascends_example =
    aggregate-Ascends fixed plain
      (bar_at (pos 60000) (pos 35000) (pos 4) ∷ bar_at (pos 120000) (pos 36000) (pos 5) ∷ [])
      five_period (omega arith)

merge_period_bars_example :
    (m : List (ℤ × KlineBar ℤ)) × (merge_period_bars
        (bar_at (pos 60000) (pos 35000) (pos 4) ∷ [])
        (bar_at (pos 60000) (pos 36000) (pos 5) ∷ [])
        false
      ≡ keep_last 2000 (values m))
    × IsSorted m
    × Keyed m
    × ((t : ℤ)
        → Sorted.find t m
          ≡ last_at t (bar_at (pos 60000) (pos 36000) (pos 5) ∷ []) (
              if false then none else last_at t (bar_at (pos 60000) (pos 35000) (pos 4) ∷ []) none))
    × InOrder (
        merge_period_bars
          (bar_at (pos 60000) (pos 35000) (pos 4) ∷ [])
          (bar_at (pos 60000) (pos 36000) (pos 5) ∷ [])
          false)
    × (length (
          merge_period_bars
            (bar_at (pos 60000) (pos 35000) (pos 4) ∷ [])
            (bar_at (pos 60000) (pos 36000) (pos 5) ∷ [])
            false)
        ≤ 2000)
merge_period_bars_example =
    merge_period_bars_lem (bar_at (pos 60000) (pos 35000) (pos 4) ∷ [])
      (bar_at (pos 60000) (pos 36000) (pos 5) ∷ []) false

abbrev more_ticks : List (Tm × TickData ℤ)
more_ticks =
    (no_time, tick_at (codes "09:00:31") (pos 36000) (pos 107))
    ∷ (no_time, tick_at (codes "09:01:05") (pos 36000) (pos 110))
    ∷ []
