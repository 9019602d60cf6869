-- ===== src/Bars/Ticks.antt =====
-- src/engine/kline_manager.cpp: the ticks of one instrument on one day.
use hft_framework.Common.{
  ◌≡◌, refl, ℤ, pos, ◌+ℤ◌, ◌-ℤ◌, ◌≤ℤ◌, leb_ℤ, max_ℤ, true, false, List, [], if◌then◌else◌, arith,
  ◌∙◌, sym, Text, text_eq, text_eq_iff, inl, inr, ◌⊎◌, is_empty, subst,
}
use hft_framework.Common.Sorted
use hft_framework.Common.Sorted.{Text-Less, find-put, text_lt_irrefl}
use hft_framework.Double.{Double, zero_f}
use hft_framework.Types.{TickData}
use hft_framework.Bars.State.{
  KlineBar, InstrumentKlineState, KlineManager, CompletedBar, Calendar, Tm, minute_period,
  five_period, quarter_period, day_period,
}
use hft_framework.Bars.Update.{
  periods, state_of, bar_timestamp, update_periods, start_day, volume_step, turnover_step,
  update_state, trade_day_of, tick_time, update_from_tick,
}
use hft_framework.Bars.Volume.{
  completed_volume, open_volume, volume_in, added_to, round_volume, nothing_added, add_nothing,
}

-- One of the periods that a tick updates.
abbrev pub Listed : Text → Type 0
Listed p = (p ≡ minute_period) ⊎ (p ≡ five_period) ⊎ (p ≡ quarter_period) ⊎ (p ≡ day_period)

module _ (d : Double) (cal : Calendar) where
  open d use {F, le}

  volume_step_nonneg : (a b : ℤ) → max_ℤ (volume_step d cal a b) (pos 0) ≡ volume_step d cal a b
  unfolding volume_step ◌-ℤ◌
  volume_step_nonneg a b = ground arith

  pub volume_step_rising : (a b : ℤ) → pos 0 ≤ℤ a → a ≤ℤ b → volume_step d cal a b ≡ b -ℤ a
  unfolding volume_step
  volume_step_rising a b h k = ground arith

  module _ (tick : TickData F) (ts volume_delta : ℤ) (turnover_delta : F)
      (priced : le tick.last_price (zero_f d) ≡ false) where
    abbrev counted_in : Text → ℤ
    counted_in p =
        if leb_ℤ (bar_timestamp d cal tick ts p) (pos 0) then pos 0 else max_ℤ volume_delta (pos 0)

    all_rounds :
        (p : Text) (s : List (Text × List (KlineBar F)) × List (CompletedBar F))
        → volume_in d cal p (update_periods d cal tick ts volume_delta turnover_delta periods s)
          ≡ volume_in d cal p s
            +ℤ added_to d cal tick ts volume_delta turnover_delta priced p minute_period
            +ℤ added_to d cal tick ts volume_delta turnover_delta priced p five_period
            +ℤ added_to d cal tick ts volume_delta turnover_delta priced p quarter_period
            +ℤ added_to d cal tick ts volume_delta turnover_delta priced p day_period
    unfolding update_periods
    all_rounds p s = simp (round_volume d cal tick ts volume_delta turnover_delta priced)

    abbrev added : Text → Text → ℤ
    added p q = added_to d cal tick ts volume_delta turnover_delta priced p q

    added_self : (p : Text) → added p p ≡ counted_in p
    unfolding added_to
    added_self p = rw ((text_eq_iff p p).1 refl) refl

    added_other : (p q : Text) → text_eq q p ≡ false → added p q ≡ pos 0
    unfolding added_to
    added_other p q h = rw h (ground arith)

    abbrev Gains : (List (Text × List (KlineBar F)) × List (CompletedBar F)) → Text → Type 0
    Gains s p =
        volume_in d cal p (update_periods d cal tick ts volume_delta turnover_delta periods s)
        ≡ volume_in d cal p s +ℤ counted_in p

    periods_volume :
        (p : Text)
        → Listed p
        → (s : List (Text × List (KlineBar F)) × List (CompletedBar F)) → Gains s p
    unfolding text_eq
    periods_volume p l s = elim l [
      | inl e ↦ subst (Gains s) (sym e) (
          all_rounds minute_period s
          ∙ simp (
            added_self minute_period,
            added_other minute_period five_period refl,
            added_other minute_period quarter_period refl,
            added_other minute_period day_period refl,
            add_nothing,
          ))
      | inr l' ↦ elim l' [
        | inl e ↦ subst (Gains s) (sym e) (
            all_rounds five_period s
            ∙ simp (
              added_self five_period,
              added_other five_period minute_period refl,
              added_other five_period quarter_period refl,
              added_other five_period day_period refl,
              add_nothing,
            ))
        | inr l'' ↦ elim l'' [
          | inl e ↦ subst (Gains s) (sym e) (
              all_rounds quarter_period s
              ∙ simp (
                added_self quarter_period,
                added_other quarter_period minute_period refl,
                added_other quarter_period five_period refl,
                added_other quarter_period day_period refl,
                add_nothing,
              ))
          | inr e ↦ subst (Gains s) (sym e) (
              all_rounds day_period s
              ∙ simp (
                added_self day_period,
                added_other day_period minute_period refl,
                added_other day_period five_period refl,
                added_other day_period quarter_period refl,
                add_nothing,
              ))
        ]
      ]
    ]

  -- The state of an instrument, fresh if it has none.
  abbrev pub held : Text → KlineManager F → InstrumentKlineState F
  held instrument k = state_of d cal (Sorted.find instrument k.cache)

  start_day_same :
      (day : Text) (s : InstrumentKlineState F)
      → text_eq s.last_trading_day day ≡ true
      → start_day d cal day s ≡ record s { last_trading_day = day }
  unfolding start_day
  start_day_same day s h = ground arith

  pub state_volume :
      (tick : TickData F) (ts : ℤ) (p : Text) (s : InstrumentKlineState F)
      → le tick.last_price (zero_f d) ≡ false
      → Listed p
      → text_eq s.last_trading_day (trade_day_of d cal tick) ≡ true
      → leb_ℤ (bar_timestamp d cal tick ts p) (pos 0) ≡ false
      → completed_volume p (update_state d cal tick ts s).1
          +ℤ open_volume d cal p (update_state d cal tick ts s).0.bars_by_period
        ≡ open_volume d cal p s.bars_by_period +ℤ volume_step d cal s.last_volume tick.volume
  unfolding update_state volume_in completed_volume
  state_volume tick ts p s priced l same timed =
      let delta = volume_step d cal s.last_volume tick.volume in
      let turnover_delta = turnover_step d cal s.last_turnover tick.turnover in
      rw (start_day_same (trade_day_of d cal tick) s same) (
        periods_volume tick ts delta turnover_delta priced p l (s.bars_by_period, [])
        ∙ simp (timed, volume_step_nonneg, nothing_added))

  -- A tick of the instrument that the bars of the period count.
  pub record Counts (instrument day p : Text) (now : Tm) (tick : TickData F) : Type 0 where
    pub named : tick.instrument_id ≡ instrument
    pub priced : le tick.last_price (zero_f d) ≡ false
    pub timed : leb_ℤ (tick_time d cal now tick) (pos 0) ≡ false
    pub dated : trade_day_of d cal tick ≡ day
    pub placed : leb_ℤ (bar_timestamp d cal tick (tick_time d cal now tick) p) (pos 0) ≡ false

  pub held_after :
      (now : Tm) (tick : TickData F) (k : KlineManager F)
      → is_empty tick.instrument_id ≡ false
      → le tick.last_price (zero_f d) ≡ false
      → leb_ℤ (tick_time d cal now tick) (pos 0) ≡ false
      → ((update_from_tick d cal now tick k).0
          ≡ (update_state d cal tick (tick_time d cal now tick) (held tick.instrument_id k)).1)
        × (held tick.instrument_id (update_from_tick d cal now tick k).1
            ≡ (update_state d cal tick (tick_time d cal now tick) (held tick.instrument_id k)).0)
  unfolding update_from_tick
  held_after now tick k named priced timed =
      rw (named, priced, timed)
        (
          refl,
          rw
              (
                find-put tick.instrument_id tick.instrument_id _ k.cache,
                text_lt_irrefl tick.instrument_id,
              )
              refl,
        )

  pub state_last :
      (tick : TickData F) (ts : ℤ) (s : InstrumentKlineState F)
      → ((update_state d cal tick ts s).0.last_volume ≡ tick.volume)
        × ((update_state d cal tick ts s).0.last_trading_day ≡ trade_day_of d cal tick)
  unfolding update_state start_day
  state_last tick ts s = (refl, ground arith)
