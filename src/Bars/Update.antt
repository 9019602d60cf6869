-- ===== src/Bars/Update.antt =====
-- src/engine/kline_manager.cpp: what a tick does to the bars of its instrument, and the queries. The
-- mutex covers each method.
use hft_framework.Common.{
  ℕ, ◌-◌, ℤ, pos, negsuc, ◌+ℤ◌, ◌-ℤ◌, ltb_ℤ, leb_ℤ, eq_ℤ, max_ℤ, Bool, true, not, ◌&&◌, ◌||◌,
  Option, none, some, List, [], ◌∷◌, ◌++◌, if◌then◌else◌, Text, text_eq, is_empty, length, drop,
  ◌==◌,
}
use hft_framework.Common.Sorted
use hft_framework.Common.Sorted.{Text-Less}
use hft_framework.Double.{Double, zero_f, min_f, max_f}
use hft_framework.Types.{TickData}
use hft_framework.Bars.State.{
  KlineBar, InstrumentKlineState, KlineManager, CompletedBar, Calendar, Tm, minute_period,
  five_period, quarter_period, day_period, local_date_time_to_epoch_ms, trading_day_to_bucket_ms,
  bucket_start_ms, format_kline_time, normalize_kline_period,
}

module _ {A : Type 0} where
  unfoldable pub back : List A → Option A
  back [] = none
  back (x ∷ []) = some x
  back (x ∷ y ∷ xs) = back (y ∷ xs)

  unfoldable pub change_back : (A → A) → List A → List A
  change_back f [] = []
  change_back f (x ∷ []) = f x ∷ []
  change_back f (x ∷ y ∷ xs) = x ∷ change_back f (y ∷ xs)

  -- `while (bars.size() > n) bars.pop_front();`
  unfoldable pub keep_last : ℕ → List A → List A
  keep_last n xs = drop (length xs - n) xs

-- `bars.empty() || bars.back().timestamp_ms != bar_ts`
abbrev pub starts_bar : {P : Type 0} → Option (KlineBar P) → ℤ → Bool
starts_bar none bar_ts = true
starts_bar (some bar) bar_ts = not (eq_ℤ bar.timestamp_ms bar_ts)

abbrev pub bars_of : {P : Type 0} → Option (List (KlineBar P)) → List (KlineBar P)
bars_of none = []
bars_of (some bars) = bars

-- The periods in the order of the loop.
abbrev pub periods : List Text
periods = minute_period ∷ five_period ∷ quarter_period ∷ day_period ∷ []

module _ (d : Double) (cal : Calendar) where
  open d use {F, of_int, add, sub, le, lt}

  abbrev pub fresh_state : InstrumentKlineState F
  fresh_state = record {
    last_volume = negsuc 0;
    last_turnover = of_int (negsuc 0);
    last_trading_day = [];
    bars_by_period = [];
  }

  abbrev pub state_of : Option (InstrumentKlineState F) → InstrumentKlineState F
  state_of none = fresh_state
  state_of (some s) = s

  abbrev pub new_bar : ℤ → Text → F → ℤ → F → KlineBar F
  new_bar bar_ts period price volume_delta turnover_delta = record {
    timestamp_ms = bar_ts;
    time = format_kline_time cal bar_ts period;
    open_price = price;
    high = price;
    low = price;
    close = price;
    volume = max_ℤ volume_delta (pos 0);
    turnover = max_f d turnover_delta (zero_f d);
  }

  abbrev pub widen_bar : F → ℤ → F → KlineBar F → KlineBar F
  widen_bar price volume_delta turnover_delta bar = record bar {
    high = max_f d bar.high price;
    low = min_f d bar.low price;
    close = price;
    volume = bar.volume +ℤ max_ℤ volume_delta (pos 0);
    turnover = add bar.turnover (max_f d turnover_delta (zero_f d));
  }

  unfoldable pub append_or_update_bar : List (KlineBar F) → ℤ → Text → F → ℤ → F → List (KlineBar F)
  unfolding back change_back keep_last
  append_or_update_bar bars bar_ts period price volume_delta turnover_delta =
      if le price (zero_f d)
      then bars
      else keep_last 2000 (
          if starts_bar (back bars) bar_ts
          then bars ++ new_bar bar_ts period price volume_delta turnover_delta ∷ []
          else change_back (widen_bar price volume_delta turnover_delta) bars)

  abbrev pub bar_timestamp : TickData F → ℤ → Text → ℤ
  bar_timestamp tick timestamp_ms period =
      if text_eq period day_period
      then trading_day_to_bucket_ms cal tick.trading_day
      else bucket_start_ms timestamp_ms period

  -- The bar that a bar starting at `bar_ts` completes.
  abbrev pub completed_by : Text → Text → ℤ → Option (KlineBar F) → List (CompletedBar F)
  completed_by instrument period bar_ts none = []
  completed_by instrument period bar_ts (some bar) =
      if eq_ℤ bar.timestamp_ms bar_ts
      then []
      else (record { instrument = instrument; period = period; bar = bar }) ∷ []

  -- One round of the loop over the periods, with the bars so far and those completed.
  unfoldable pub update_period :
      TickData F
      → ℤ
      → ℤ
      → F
      → Text
      → List (Text × List (KlineBar F)) × List (CompletedBar F)
      → List (Text × List (KlineBar F)) × List (CompletedBar F)
  unfolding Sorted.find Sorted.put append_or_update_bar
  update_period tick timestamp_ms volume_delta turnover_delta period s =
      let bar_ts = bar_timestamp tick timestamp_ms period in
      let bars = bars_of (Sorted.find period s.0) in
      if leb_ℤ bar_ts (pos 0) then s else (
        Sorted.put period
            (append_or_update_bar bars bar_ts period tick.last_price volume_delta turnover_delta)
            s.0,
        s.1 ++ completed_by tick.instrument_id period bar_ts (back bars),
      )

  unfoldable pub update_periods :
      TickData F
      → ℤ
      → ℤ
      → F
      → List Text
      → List (Text × List (KlineBar F)) × List (CompletedBar F)
      → List (Text × List (KlineBar F)) × List (CompletedBar F)
  unfolding update_period
  update_periods tick timestamp_ms volume_delta turnover_delta [] s = s
  update_periods tick timestamp_ms volume_delta turnover_delta (p ∷ ps) s =
      update_periods tick timestamp_ms volume_delta turnover_delta ps
        (update_period tick timestamp_ms volume_delta turnover_delta p s)

  -- The reset of the counters on a new trading day.
  unfoldable pub start_day : Text → InstrumentKlineState F → InstrumentKlineState F
  start_day trade_day s =
      if not (is_empty s.last_trading_day) && not (text_eq s.last_trading_day trade_day)
      then record s {
        last_volume = negsuc 0;
        last_turnover = of_int (negsuc 0);
        last_trading_day = trade_day;
      }
      else record s { last_trading_day = trade_day }

  unfoldable pub volume_step : ℤ → ℤ → ℤ
  volume_step last_volume volume =
      if leb_ℤ (pos 0) last_volume
      then if leb_ℤ last_volume volume then volume -ℤ last_volume else pos 0
      else pos 0

  unfoldable pub turnover_step : F → F → F
  turnover_step last_turnover turnover =
      if le (zero_f d) last_turnover
      then if le last_turnover turnover then sub turnover last_turnover else zero_f d
      else zero_f d

  abbrev pub trade_day_of : TickData F → Text
  trade_day_of tick = if is_empty tick.action_day then tick.trading_day else tick.action_day

  -- What a tick with a time does to the state of its instrument.
  unfoldable pub update_state :
      TickData F → ℤ → InstrumentKlineState F → InstrumentKlineState F × List (CompletedBar F)
  unfolding update_periods start_day volume_step turnover_step
  update_state tick timestamp_ms s =
      let s' = start_day (trade_day_of tick) s in
      let volume_delta = volume_step s'.last_volume tick.volume in
      let turnover_delta = turnover_step s'.last_turnover tick.turnover in
      let done =
        update_periods tick timestamp_ms volume_delta turnover_delta periods
          (s'.bars_by_period, []) in
      (
        record s' {
          last_volume = tick.volume;
          last_turnover = tick.turnover;
          bars_by_period = done.0;
        },
        done.1,
      )

  abbrev pub tick_time : Tm → TickData F → ℤ
  tick_time now tick =
      local_date_time_to_epoch_ms cal now (trade_day_of tick) tick.update_time tick.update_millisec

  -- `now` is the local time, which the source reads if the tick has no date.
  unfoldable pub update_from_tick :
      Tm → TickData F → KlineManager F → List (CompletedBar F) × KlineManager F
  update_from_tick now tick k =
      if is_empty tick.instrument_id
        || le tick.last_price (zero_f d)
        || leb_ℤ (tick_time now tick) (pos 0)
      then ([], k)
      else let r =
          update_state tick (tick_time now tick)
            (state_of (Sorted.find tick.instrument_id k.cache)) in
        (r.1, record k { cache = Sorted.put tick.instrument_id r.0 k.cache })

  -- `steady_us_now / 1000`, of a clock that does not run below zero.
  unfoldable pub maybe_persist : ℤ → KlineManager F → KlineManager F
  maybe_persist now_ms k =
      if ltb_ℤ now_ms k.next_persist_steady_ms
      then k
      else record k { next_persist_steady_ms = now_ms +ℤ pos 60000 }

  unfoldable pub get_bars : Text → Text → ℕ → KlineManager F → List (KlineBar F)
  unfolding Sorted.find keep_last normalize_kline_period
  get_bars instrument period limit k =
      if is_empty instrument
      then []
      else let s = state_of (Sorted.find instrument k.cache) in
        keep_last (if limit == 0 then 200 else limit)
          (bars_of (Sorted.find (normalize_kline_period period) s.bars_by_period))

  -- `restore_legacy_bars`, for one item.
  unfoldable pub restore_bar : Text × Text × KlineBar F → KlineManager F → KlineManager F
  unfolding Sorted.find Sorted.put keep_last
  restore_bar item k =
      let s = state_of (Sorted.find item.0 k.cache) in
      let bars = keep_last 400 (bars_of (Sorted.find item.1 s.bars_by_period) ++ item.2 ∷ []) in
      record k {
        cache =
            Sorted.put item.0
              (record s { bars_by_period = Sorted.put item.1 bars s.bars_by_period }) k.cache;
      }

  unfoldable pub restore_legacy_bars :
      List (Text × Text × KlineBar F) → KlineManager F → KlineManager F
  unfolding restore_bar
  restore_legacy_bars [] k = k
  restore_legacy_bars (item ∷ items) k = restore_legacy_bars items (restore_bar item k)
