-- ===== src/Engine/Tests.antt =====
-- Runs of the order path of src/engine/trading_engine.cpp, and its theorems at concrete inputs.
use hft_framework.Common.{
  List, ℕ, ◌+◌, ◌≡◌, refl, ℤ, pos, ◌+ℤ◌, ◌-ℤ◌, ◌≤ℤ◌, ◌<ℤ◌, abs_ℤ, true, false, none, [], ◌∷◌, arith,
  Text-Eq, text_eq, codes, is_empty, find,
}
use hft_framework.Double.Fixed.{fixed}
use hft_framework.Types.{
  buy, sell, close, close_today, close_yesterday, open_position, limit, OrderRequest, TradeInfo,
  need_close_today_flag,
}
use hft_framework.Orders.Book.{counted}
use hft_framework.Orders.Methods.{
  create_order, created_order, allocate_order_ref, write_order_ref, decimal,
  get_pending_open_volume, get_pending_close_volume,
}
use hft_framework.Positions.Book.{
  Positions, no_position, get_net_position, get_position, side_key, get_total_absolute_position,
}
use hft_framework.Risk.State.{Risk, Params, normal, no_error}
use hft_framework.Risk.Window.{drop_before, prune}
use hft_framework.Risk.Sessions.{in_trading_session}
use hft_framework.Risk.Settings.{is_cancel_rate_exempt}
use hft_framework.Risk.Checks.{
  check_rms_mode, check_price, check_tick_price, check_new_risk, projected_net, check_open,
  first_checks, check_rates,
}
use hft_framework.Risk.Methods.{check_order, prune_order_rate, prune_cancel_order, prune_cancel}
use hft_framework.Conditional.Methods.{pending_open_among}
use hft_framework.Engine.State.{
  gateway_down, strategy_running, Account, Engine, ready, no_reject, resolve_account, find_account,
  default_account, store, trade_state_of,
}
use hft_framework.Engine.Cancelling.{Gateways}
use hft_framework.Engine.Sending.{
  Surroundings, is_invalid, world_of, call_of, route_close, guard, send_checked,
  send_order_unlocked, split,
}
use hft_framework.Engine.Handling.{account_trade}
use hft_framework.Engine.Fills.{account_trade_twice}
use hft_framework.Engine.Closing.{Fits, route_close-Fits}
use hft_framework.Engine.Reconnect.{on_trade_reconnected}
use hft_framework.Engine.Waiting.{WaitsAt}
use hft_framework.Engine.Stuck.{
  Step, takes_account, takes_positions, takes_orders, checks, steps, reconnect_while_down,
}
use hft_framework.Engine.Sends.{Passes, sent_open, failed_send_reserves}

abbrev limits : Params fixed
limits = record {
  max_order_size = pos 5;
  max_net_position = pos 10;
  max_total_position = pos 0;
  max_orders_per_minute = pos 2;
  cancel_rate_window_minutes = pos 60;
  cancel_rate_min_sample = pos 10;
  max_cancel_rate = pos 5000;
  max_daily_loss = pos 0;
  max_price_deviation = pos 1000;
  cancel_rate_exempt_patterns = [];
  trading_sessions = [];
}

abbrev calm : Risk fixed
calm = record {
  params = limits;
  account_id = [];
  order_rate_timestamps = [];
  cancel_rate_order_timestamps = [];
  cancel_timestamps = [];
  account_initialized = false;
  day_start_balance = pos 0;
  latest_balance = pos 0;
  trading_day = [];
  total_rejects_today = 0;
  rms_mode = normal;
  last_error_code = no_error;
  pending_risk_events = [];
}

-- Three lots of today and two of yesterday.
abbrev five_held : Positions fixed
five_held = record {
  positions =
      (
        codes "rb2510_L",
        record (no_position fixed) { total = pos 5; today = pos 3; yesterday = pos 2 },
      )
      ∷ [];
  reconciliation_needed = false;
}

abbrev account : Account fixed
account = record {
  account_id = codes "A1";
  has_gateway = true;
  order_mgr = record {
    orders = [];
    order_ref = pos 0;
    front_id = pos 1;
    session_id = pos 1;
    pending_open = [];
    seen_trade_ids = [];
  };
  position_mgr = record { positions = []; reconciliation_needed = false };
  risk_mgr = calm;
  account_snapshot_ready = true;
  position_snapshot_ready = true;
  active_orders_snapshot_ready = true;
  reconnect_sync_pending = false;
  resume_after_reconnect = false;
  reconnect_start_time = 0;
  trade_state = ready;
  last_reject_reason = no_reject;
}

abbrev engine : Engine fixed
engine = record {
  accounts = account ∷ [];
  account_index = (codes "A1", 0) ∷ [];
  running = true;
  md_only_mode = false;
  trading_ready = true;
  was_running_before_reconnect = false;
  global_state = strategy_running;
  close_mgr = record { tasks = []; next_id = 1 };
  algo_order_mgr = record { orders = []; next_id = 1 };
  cond_order_mgr = record {
    orders = [];
    instrument_index = [];
    trigger_bounds = [];
    retry_not_before = [];
    retry_failures = [];
    next_id = 1;
    next_group_id = 1;
  };
  recent_orders = [];
  recent_trades = [];
}

abbrev buys_two : OrderRequest ℤ
buys_two = record {
  instrument_id = codes "rb2510";
  exchange_id = codes "SHFE";
  account_id = codes "A1";
  strategy_id = [];
  direction = buy;
  price_type = limit;
  offset = open_position;
  price = pos 35_000_000;
  volume = pos 2;
}

abbrev sells_four : OrderRequest ℤ
sells_four = record buys_two { direction = sell; offset = close; volume = pos 4 }

-- A gateway that answers every request with a number, and counts the requests.
abbrev answers : ℤ → Gateways fixed ℕ
answers r = record {
  is_logged_in = λ i g. true;
  send_order = λ i req ref g. (r, g + 1);
  cancel_order = λ i order ref g. (r, g + 1);
}

abbrev morning : Surroundings fixed
morning = record { last_tick = none; local_minutes = pos 600; steady_now = 90; wall_ms = pos 1000 }

abbrev two_bought : TradeInfo ℤ
two_bought = record {
  instrument_id = codes "rb2510";
  exchange_id = codes "SHFE";
  account_id = codes "A1";
  trade_id = codes "T1";
  order_ref = codes "1";
  strategy_id = [];
  direction = buy;
  offset = open_position;
  price = pos 35_000_000;
  volume = pos 2;
  trade_time = [];
}

four_split :
    route_close fixed sells_four (record account { position_mgr = five_held })
    ≡ split
        (record sells_four { offset = close_today; volume = pos 3 })
        (record sells_four { offset = close_yesterday; volume = pos 1 })
unfolding route_close get_position side_key find text_eq get_pending_close_volume ◌+ℤ◌ ◌-ℤ◌
four_split = refl

route_close-Fits_example :
    Fits fixed sells_four
      (record account { position_mgr = five_held })
      (route_close fixed sells_four (record account { position_mgr = five_held }))
route_close-Fits_example =
    route_close-Fits fixed sells_four (record account { position_mgr = five_held })

two_sent :
    is_empty (send_order_unlocked fixed (answers (pos 0)) morning buys_two engine 0).0.order_ref
    ≡ false
unfolding send_order_unlocked guard is_invalid resolve_account find_account default_account find
    text_eq trade_state_of send_checked check_order first_checks check_rms_mode check_price
    check_tick_price check_new_risk in_trading_session check_open projected_net get_net_position
    side_key get_pending_open_volume counted get_total_absolute_position check_rates
    prune_order_rate prune_cancel_order prune_cancel prune drop_before is_cancel_rate_exempt
    pending_open_among create_order allocate_order_ref created_order write_order_ref decimal
    need_close_today_flag ◌+ℤ◌ ◌-ℤ◌
two_sent = refl

sent_open_example :
    (i : ℕ) × (a : Account fixed) × Passes fixed (answers (pos 0)) morning buys_two engine 0 i a
    × (pos 0 <ℤ pos 2)
    × (abs_ℤ (projected_net fixed (world_of fixed morning a) (call_of fixed buys_two a engine))
        ≤ℤ a.risk_mgr.max_net_position)
sent_open_example = sent_open fixed (answers (pos 0)) morning buys_two engine 0 refl two_sent

account_trade_twice_example :
    (((account_trade fixed two_bought (account_trade fixed two_bought account).1).1).order_mgr
      ≡ ((account_trade fixed two_bought account).1).order_mgr)
    × (get_net_position fixed
          (codes "rb2510")
          ((account_trade fixed two_bought (account_trade fixed two_bought account).1).1
            ).position_mgr
        ≡ get_net_position fixed (codes "rb2510") account.position_mgr +ℤ pos 2 +ℤ pos 2)
account_trade_twice_example =
    account_trade_twice fixed two_bought account refl (omega arith) refl (omega arith) tt refl

two_pass :
    (check_order fixed
      (world_of fixed morning account)
      (call_of fixed buys_two account engine)
      account.risk_mgr).0
    ≡ none
unfolding check_order first_checks check_rms_mode check_price check_tick_price check_new_risk
    in_trading_session check_open projected_net get_net_position side_key find text_eq
    get_pending_open_volume counted get_total_absolute_position check_rates prune_order_rate
    prune_cancel_order prune_cancel prune drop_before is_cancel_rate_exempt pending_open_among ◌+ℤ◌
    ◌-ℤ◌
two_pass = refl

failed_send_reserves_example :
    (is_empty (send_checked fixed (answers (pos 1)) morning 0 account buys_two engine 5).0.order_ref
      ≡ true)
    × ((a' : Account fixed) × ((send_checked fixed
            (answers (pos 1))
            morning
            0
            account
            buys_two
            engine
            5).1
          ≡ store fixed 0 a' engine)
        × (get_pending_open_volume (codes "rb2510") buy a'.order_mgr
            ≡ get_pending_open_volume (codes "rb2510") buy account.order_mgr + 2))
failed_send_reserves_example =
    failed_send_reserves fixed (answers (pos 1)) morning 0 account buys_two engine 5 two_pass refl
      refl refl

abbrev down_engine : Engine fixed
down_engine = record engine { accounts = record account { trade_state = gateway_down } ∷ [] }

-- All three snapshots arrive, and the accounts are checked two seconds after the login.
abbrev after_login : List (Step fixed)
after_login =
    takes_account (codes "A1") (pos 100)
    ∷ takes_positions (codes "A1") []
    ∷ takes_orders 1_000_000_000 (codes "A1") []
    ∷ checks (λ i. true) 2_000_000_000 (pos 0)
    ∷ []

reconnect_while_down_example :
    WaitsAt fixed 0 0
      (steps fixed after_login
        (on_trade_reconnected fixed (codes "A1") (pos 1) (pos 2) (pos 0) 0 down_engine)).accounts
unfolding resolve_account find_account default_account find text_eq
reconnect_while_down_example =
    reconnect_while_down fixed (codes "A1") (pos 1) (pos 2) (pos 0) 0 0
      (record account { trade_state = gateway_down }) down_engine after_login refl refl
      (tt, (tt, (tt, ((refl, omega arith), tt))))
