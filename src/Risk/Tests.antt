-- ===== src/Risk/Tests.antt =====
-- Checks of the risk manager of src/risk/risk_manager.cpp, and its theorems at concrete inputs.
use hft_framework.Common.{
  ◌≡◌, ◌-◌, refl, inl, ◌⊎◌, ℤ, pos, ◌+ℤ◌, ◌-ℤ◌, ◌≤ℤ◌, ◌<ℤ◌, abs_ℤ, true, false, none, List, [], ◌∷◌,
  length, arith, Text-Eq, text_eq, codes, find,
}
use hft_framework.Double.Fixed.{fixed}
use hft_framework.Types.{buy, sell, close, open_position, limit, market, PositionInfo}
use hft_framework.Orders.Book.{Orders, counted}
use hft_framework.Orders.Methods.{get_pending_open_volume, get_pending_close_volume}
use hft_framework.Positions.Book.{
  Positions, no_position, get_net_position, get_position, side_key, get_total_absolute_position,
}
use hft_framework.Risk.State.{Risk, Params, World, normal, halted, no_error}
use hft_framework.Risk.Window.{drop_before, prune, recent, minute_ns}
use hft_framework.Risk.Sessions.{in_trading_session}
use hft_framework.Risk.Checks.{
  Call, check_rms_mode, check_price, check_tick_price, check_new_risk, projected_net, check_open,
  held_for, reserved_for, first_checks, check_rates,
}
use hft_framework.Risk.Methods.{
  check_order, on_order_sent, prune_order_rate, prune_cancel_order, prune_cancel,
}
use hft_framework.Risk.Accepts.{check_order-open, check_order-close, check_order-reducing}
use hft_framework.Risk.Limits.{Act, sent, act_all, check_order-rate}

abbrev params : Params fixed
params = record {
  max_order_size = pos 5;
  max_net_position = pos 10;
  max_total_position = pos 0;
  max_orders_per_minute = pos 2;
  cancel_rate_window_minutes = pos 60;
  cancel_rate_min_sample = pos 10;
  max_cancel_rate = pos 5000;
  max_daily_loss = pos 0;
  max_price_deviation = pos 1000;
  cancel_rate_exempt_patterns = [];
  trading_sessions = [];
}

abbrev quiet : Risk fixed
quiet = record {
  params = params;
  account_id = [];
  order_rate_timestamps = [];
  cancel_rate_order_timestamps = [];
  cancel_timestamps = [];
  account_initialized = false;
  day_start_balance = pos 0;
  latest_balance = pos 0;
  trading_day = [];
  total_rejects_today = 0;
  rms_mode = normal;
  last_error_code = no_error;
  pending_risk_events = [];
}

abbrev halted_state : Risk fixed
halted_state = record quiet { rms_mode = halted }

abbrev long_four : PositionInfo ℤ
long_four = record (no_position fixed) {
  instrument_id = codes "rb2510";
  total = pos 4;
  today = pos 1;
  yesterday = pos 3;
}

abbrev book : Positions fixed
book = record { positions = (codes "rb2510_L", long_four) ∷ []; reconciliation_needed = false }

abbrev no_orders : Orders ℤ
no_orders = record {
  orders = [];
  order_ref = pos 0;
  front_id = pos 0;
  session_id = pos 0;
  pending_open = [];
  seen_trade_ids = [];
}

abbrev world : World fixed
world = record {
  positions = book;
  orders = no_orders;
  last_tick = none;
  local_minutes = pos 600;
  steady_now = 90;
  wall_ms = pos 1000;
}

abbrev buys_five : Call fixed
buys_five = record {
  req = record {
    instrument_id = codes "rb2510";
    exchange_id = [];
    account_id = [];
    strategy_id = [];
    direction = buy;
    price_type = limit;
    offset = open_position;
    price = pos 35_000_000;
    volume = pos 5;
  };
  is_risk_reduction = false;
  cond_pending_buy = pos 1;
  cond_pending_sell = pos 0;
  cancel_rate_exempt = false;
}

-- Sells the three lots of yesterday and the one of today, as the caller's risk reduction.
abbrev sells_four : Call fixed
sells_four = record buys_five {
  req = record buys_five.req {
    direction = sell;
    price_type = market;
    offset = close;
    volume = pos 4;
  };
  is_risk_reduction = true;
}

buys_five_passes : (check_order fixed world buys_five quiet).0 ≡ none
unfolding check_order first_checks check_rms_mode check_price check_tick_price check_new_risk
    in_trading_session check_open projected_net get_net_position side_key find text_eq
    get_pending_open_volume counted get_total_absolute_position check_rates prune_order_rate
    prune_cancel_order prune_cancel prune drop_before ◌+ℤ◌ ◌-ℤ◌
buys_five_passes = refl

sells_four_fits :
    reserved_for fixed world sells_four.req +ℤ pos 4 ≤ℤ held_for fixed world sells_four.req
unfolding reserved_for held_for get_position get_pending_close_volume side_key find text_eq ◌+ℤ◌
sells_four_fits = omega arith

sells_four_passes : (check_order fixed world sells_four halted_state).0 ≡ none
sells_four_passes =
    check_order-reducing fixed world sells_four halted_state refl refl (inl refl) (omega arith)
      sells_four_fits

check_order-open_example :
    (pos 0 <ℤ pos 5)
    × (abs_ℤ (projected_net fixed world buys_five) ≤ℤ pos 10)
    × ((pos 0 ≤ℤ pos 0) ⊎ (get_total_absolute_position fixed book +ℤ pos 5 ≤ℤ pos 0))
check_order-open_example = check_order-open fixed world buys_five quiet buys_five_passes refl

check_order-close_example :
    (pos 0 <ℤ pos 4)
    × (reserved_for fixed world sells_four.req +ℤ pos 4 ≤ℤ held_for fixed world sells_four.req)
check_order-close_example =
    check_order-close fixed world sells_four halted_state sells_four_passes refl

check_order-reducing_example : (check_order fixed world sells_four halted_state).0 ≡ none
check_order-reducing_example =
    check_order-reducing fixed world sells_four halted_state refl refl (inl refl) (omega arith)
      sells_four_fits

-- Two orders, one of them more than a minute before the check.
abbrev history : List (Act fixed)
history = sent 5 ∷ sent 60_000_000_050 ∷ []

abbrev later : World fixed
later = record world { steady_now = 60_000_000_090 }

passes_later : (check_order fixed later buys_five (act_all fixed history quiet)).0 ≡ none
unfolding check_order first_checks check_rms_mode check_price check_tick_price check_new_risk
    in_trading_session check_open projected_net get_net_position side_key find text_eq
    get_pending_open_volume counted get_total_absolute_position check_rates prune_order_rate
    prune_cancel_order prune_cancel prune drop_before on_order_sent ◌+ℤ◌ ◌-ℤ◌
passes_later = refl

abbrev after_history : Risk fixed
after_history = act_all fixed history quiet

check_order-rate_example :
    pos (length (recent (60_000_000_090 - minute_ns) (5 ∷ 60_000_000_050 ∷ [])))
    <ℤ after_history.max_orders_per_minute
check_order-rate_example =
    check_order-rate fixed 0 history later buys_five quiet (omega arith, (omega arith, tt))
      (omega arith) refl refl passes_later
