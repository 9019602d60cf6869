-- ===== src/Close/Tests.antt =====
-- Tasks of src/order/close_manager.cpp: runs and theorems at concrete inputs.
use hft_framework.Common.{
  ◌≡◌, refl, ℤ, pos, ◌+ℤ◌, ◌-ℤ◌, Bool, false, List, [], ◌∷◌, Text, text_eq, codes,
}
use hft_framework.Double.Fixed.{fixed}
use hft_framework.Types.{OrderRequest, buy, sell, close_today, need_close_today_flag, TradeInfo}
use hft_framework.Close.State.{task_pending, CloseTask, Closes, update_first, first_task}
use hft_framework.Close.Methods.{
  Closing, upsert_task, upsert_all, begin_send, end_send, on_trade, after_trade,
}
use hft_framework.Close.Sections.{AllSound}
use hft_framework.Close.Runs.{
  Section, upserts, begins_send, ends_send, trades, run_sections, run_sections-AllSound,
}
use hft_framework.Close.Sends.{early_fill_lost}

abbrev vacant : Closes fixed
vacant = record { tasks = []; next_id = 1 }

-- Eight lots of a long position, three of them of today.
abbrev long_rb : Closing fixed
long_rb = record {
  instrument = codes "rb2510";
  exchange_id = codes "SHFE";
  account_id = codes "a1";
  pos_direction = buy;
  last_price = pos 35_000_000;
  upper_limit = pos 36_000_000;
  lower_limit = pos 34_000_000;
}

abbrev fill_two : TradeInfo ℤ
fill_two = record {
  instrument_id = codes "rb2510";
  exchange_id = [];
  account_id = codes "a1";
  trade_id = [];
  order_ref = codes "7";
  strategy_id = [];
  direction = sell;
  offset = close_today;
  price = pos 34_900_000;
  volume = pos 2;
  trade_time = [];
}

abbrev today_task : CloseTask fixed
today_task = record {
  id = 1;
  instrument_id = codes "rb2510";
  exchange_id = codes "SHFE";
  account_id = codes "a1";
  pos_direction = buy;
  offset = close_today;
  target_volume = pos 3;
  filled_volume = pos 0;
  retry_count = pos 0;
  last_price = pos 35_000_000;
  upper_limit = pos 36_000_000;
  lower_limit = pos 34_000_000;
  order_ref = [];
  state = task_pending;
  sent_time = 0;
}

abbrev one_task : Closes fixed
one_task = record { tasks = today_task ∷ []; next_id = 2 }

targets : List (CloseTask fixed) → List ℤ
targets [] = []
targets (t ∷ ts) = t.target_volume ∷ targets ts

-- The request is split in two.
splits : targets (upsert_all fixed long_rb (pos 3) (pos 5) vacant).tasks ≡ pos 3 ∷ pos 5 ∷ []
unfolding targets upsert_all upsert_task first_task need_close_today_flag text_eq
splits = refl

abbrev sections : List (Section fixed)
sections =
    upserts long_rb (pos 3) (pos 5)
    ∷ begins_send 1
    ∷ ends_send 100 1 (codes "7")
    ∷ trades fill_two
    ∷ []

fills : List (CloseTask fixed) → List ℤ
fills [] = []
fills (t ∷ ts) = t.filled_volume ∷ fills ts

two_filled : fills (run_sections fixed sections vacant).tasks ≡ pos 2 ∷ pos 0 ∷ []
unfolding fills run_sections upsert_all upsert_task first_task update_first need_close_today_flag
    text_eq begin_send end_send on_trade after_trade ◌+ℤ◌ ◌-ℤ◌
two_filled = refl

run_sections-AllSound_example : AllSound fixed (run_sections fixed sections vacant)
run_sections-AllSound_example = run_sections-AllSound fixed sections vacant tt

early_fill_lost_example :
    run_sections fixed (begins_send 1 ∷ trades fill_two ∷ ends_send 100 1 (codes "7") ∷ []) one_task
    ≡ run_sections fixed (begins_send 1 ∷ ends_send 100 1 (codes "7") ∷ []) one_task
unfolding text_eq
early_fill_lost_example = early_fill_lost fixed 1 100 fill_two one_task (refl, tt)

abbrev never_cancels : Text → Text → List (OrderRequest ℤ) → Bool × List (OrderRequest ℤ)
never_cancels account_id order_ref sent = (false, sent)
