-- ===== src/Bars/Days.antt =====
-- src/engine/kline_manager.cpp: over the ticks of a day no volume is lost, and none is counted twice.
use hft_framework.Common.{ℤ, ◌≤ℤ◌, List, [], ◌∷◌, ◌++◌, Text}
use hft_framework.Double.{Double}
use hft_framework.Types.{TickData}
use hft_framework.Bars.State.{KlineManager, CompletedBar, Calendar, Tm}
use hft_framework.Bars.Update.{update_from_tick}
use hft_framework.Bars.Ticks.{Counts}

module _ (d : Double) (cal : Calendar) where
  open d use {F}

  -- The bars that a sequence of ticks completes, and the manager after them.
  abbrev pub run_ticks :
      List (Tm × TickData F) → KlineManager F → List (CompletedBar F) × KlineManager F
  run_ticks [] k = ([], k)
  run_ticks ((now, tick) ∷ ticks) k =
      let first = update_from_tick d cal now tick k in
      let rest = run_ticks ticks first.1 in (first.0 ++ rest.0, rest.1)

  -- Ticks of an instrument on a day, whose volumes never fall below one another's or `v`.
  abbrev pub DayTicks : Text → Text → Text → ℤ → List (Tm × TickData F) → Type 0
  DayTicks instrument day p v [] = Unit
  DayTicks instrument day p v ((now, tick) ∷ ticks) =
      Counts d cal instrument day p now tick
      × (v ≤ℤ tick.volume)
      × DayTicks instrument day p tick.volume ticks
