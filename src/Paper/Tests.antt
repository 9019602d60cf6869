-- ===== src/Paper/Tests.antt =====
-- Paper trading: tests, and an instance of the theorem.
use hft_framework.Common.{
  ℤ, pos, ◌+ℤ◌, ◌≡◌, refl, true, false, some, [], ◌∷◌, codes, Text, arith, find,
}
use hft_framework.Double.Fixed.{fixed}
use hft_framework.Types.{
  buy, open_position, market, OrderRequest, OrderInfo, TradeInfo, TickData, PriceLevel,
}
use hft_framework.Positions.Book.{get_net_position}
use hft_framework.Positions.Net.{signed}
use hft_framework.Risk.State.{Risk, Params, normal, no_error}
use hft_framework.Engine.State.{Account, ready, no_reject}
use hft_framework.Engine.Handling.{account_order, account_trade}
use hft_framework.Orders.Methods.{decimal}
use hft_framework.Paper.Methods.{PaperTrading, fill_price, simulate_order, success}
use hft_framework.Paper.Effects.{simulate_order-moves}

abbrev level : ℤ → ℤ → PriceLevel ℤ
level price volume = record { price = price; volume = volume }

abbrev tick_of : Text → ℤ → TickData ℤ
tick_of name price = record {
  instrument_id = name;
  exchange_id = [];
  last_price = price;
  pre_close_price = pos 0;
  open_price = pos 0;
  highest_price = pos 0;
  lowest_price = pos 0;
  volume = pos 0;
  turnover = pos 0;
  open_interest = pos 0;
  bid = level (pos 10000) (pos 3) ∷ level (pos 9000) (pos 4) ∷ [];
  ask = level (pos 20000) (pos 1) ∷ level (pos 30000) (pos 2) ∷ [];
  upper_limit = pos 0;
  lower_limit = pos 0;
  update_time = [];
  update_millisec = pos 0;
  trading_day = [];
  action_day = [];
  local_recv_ns = pos 7;
}

abbrev limits : Params fixed
limits = record {
  max_order_size = pos 5;
  max_net_position = pos 10;
  max_total_position = pos 0;
  max_orders_per_minute = pos 2;
  cancel_rate_window_minutes = pos 60;
  cancel_rate_min_sample = pos 10;
  max_cancel_rate = pos 5000;
  max_daily_loss = pos 0;
  max_price_deviation = pos 1000;
  cancel_rate_exempt_patterns = [];
  trading_sessions = [];
}

abbrev calm : Risk fixed
calm = record {
  params = limits;
  account_id = [];
  order_rate_timestamps = [];
  cancel_rate_order_timestamps = [];
  cancel_timestamps = [];
  account_initialized = false;
  day_start_balance = pos 0;
  latest_balance = pos 0;
  trading_day = [];
  total_rejects_today = 0;
  rms_mode = normal;
  last_error_code = no_error;
  pending_risk_events = [];
}

abbrev account : Account fixed
account = record {
  account_id = codes "A1";
  has_gateway = true;
  order_mgr = record {
    orders = [];
    order_ref = pos 0;
    front_id = pos 1;
    session_id = pos 1;
    pending_open = [];
    seen_trade_ids = [];
  };
  position_mgr = record { positions = []; reconciliation_needed = false };
  risk_mgr = calm;
  account_snapshot_ready = true;
  position_snapshot_ready = true;
  active_orders_snapshot_ready = true;
  reconnect_sync_pending = false;
  resume_after_reconnect = false;
  reconnect_start_time = 0;
  trade_state = ready;
  last_reject_reason = no_reject;
}

abbrev paper : PaperTrading fixed
paper = record {
  has_engine = true;
  active = true;
  account_id = [];
  paper_ref_seq = 900000;
  total_orders = pos 0;
  total_fills = pos 0;
  realized_pnl = pos 0;
}

abbrev two_lots : OrderRequest ℤ
two_lots = record {
  instrument_id = codes "rb2510";
  exchange_id = [];
  account_id = codes "A1";
  strategy_id = [];
  direction = buy;
  price_type = market;
  offset = open_position;
  price = pos 0;
  volume = pos 2;
}

abbrev last_tick : TickData ℤ
last_tick = tick_of (codes "rb2510") (pos 5)

best_ask_fill : fill_price fixed two_lots last_tick ≡ pos 20000
unfolding fill_price
best_ask_fill = refl

-- With no tick of the instrument a market order fills at the price of the request.
no_tick : fill_price fixed two_lots (record last_tick { last_price = pos 0 }) ≡ pos 0
unfolding fill_price
no_tick = refl

named_order : (simulate_order fixed two_lots last_tick [] paper).0.order_ref ≡ codes "P900000"
unfolding simulate_order decimal
named_order = refl

simulate_order-moves_example :
    (o : OrderInfo ℤ) × (t : TradeInfo ℤ) × ((simulate_order fixed two_lots last_tick [] paper).1
      ≡ some (o, t))
    × (success (simulate_order fixed two_lots last_tick [] paper).0 ≡ true)
    × (let a' = (account_trade fixed t (account_order fixed 9 o account).1).1 in
        (a'.order_mgr.orders ≡ account.order_mgr.orders)
        × (a'.order_mgr.pending_open ≡ account.order_mgr.pending_open)
        × (get_net_position fixed (codes "rb2510") a'.position_mgr
            ≡ get_net_position fixed (codes "rb2510") account.position_mgr +ℤ signed buy (pos 2)))
unfolding find
simulate_order-moves_example =
    simulate_order-moves fixed two_lots last_tick [] paper 9 account refl refl (omega arith)
      (omega arith) refl (record { absent = refl; other_session = refl }) tt refl
