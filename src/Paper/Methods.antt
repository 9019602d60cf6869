-- ===== src/Paper/Methods.antt =====
-- src/engine/paper_trading.cpp and paper_trading.h: an order is filled at once, and the report and the
-- fill are handed to the engine. The engine's last tick of the instrument and the time are arguments;
-- a tick that is not there has prices of zero, as TickData does.
use hft_framework.Common.{
  ℕ, ◌+◌, ◌%◌, ◌^◌, ℤ, pos, leb_ℤ, ◌+ℤ◌, Bool, true, false, not, ◌||◌, Option, none, some, List, [],
  ◌∷◌, if◌then◌else◌, Text, codes, is_empty, safe_copy,
}
use hft_framework.Double.{Double, zero_f}
use hft_framework.Types.{
  Direction, buy, sell, all_traded, PriceType, market, OrderRequest, OrderInfo, TradeInfo,
  PriceLevel, TickData,
}
use hft_framework.Orders.Methods.{decimal}

pub record SendOrderResult : Type 0 where
  pub order_ref : Text
  pub reject_reason : Text
  pub reject_message : Text

abbrev pub success : SendOrderResult → Bool
success r = not (is_empty r.order_ref)

abbrev rejected_as : Text → Text → SendOrderResult
rejected_as reason message = record {
  order_ref = [];
  reject_reason = reason;
  reject_message = message;
}

module _ (d : Double) where
  open d use {F, le, lt}

  pub record PaperTrading : Type 0 where
    pub has_engine : Bool
    pub active : Bool
    pub account_id : Text
    pub paper_ref_seq : ℕ
    pub total_orders : ℤ
    pub total_fills : ℤ
    pub realized_pnl : F

  abbrev without_stats : PaperTrading → PaperTrading
  without_stats p = record p { total_orders = pos 0; total_fills = pos 0; realized_pnl = zero_f d }

  unfoldable pub start : Text → PaperTrading → Bool × PaperTrading
  start account p =
      if p.active
      then (false, p)
      else (true, record (without_stats p) { account_id = account; active = true })

  unfoldable pub stop : PaperTrading → PaperTrading
  stop p = record p { active = false }

  unfoldable pub reset_stats : PaperTrading → PaperTrading
  reset_stats p = without_stats p

  abbrev best_price : List (PriceLevel F) → F
  best_price [] = zero_f d
  best_price (level ∷ levels) = level.price

  abbrev pub is_market : PriceType → Bool
  is_market market = true
  is_market _ = false

  abbrev opposite_best : Direction → TickData F → F
  opposite_best buy tick = best_price tick.ask
  opposite_best sell tick = best_price tick.bid

  unfoldable pub fill_price : OrderRequest F → TickData F → F
  fill_price req tick =
      let best = opposite_best req.direction tick in
      if lt (zero_f d) tick.last_price
      then if is_market req.price_type
        then if le best (zero_f d) then tick.last_price else best
        else req.price
      else req.price

  abbrev pub paper_ref : ℕ → Text
  paper_ref seq = b'P' ∷ decimal 10 seq

  abbrev pub paper_trade_id : ℕ → Text
  paper_trade_id seq = b'P' ∷ b'T' ∷ decimal 10 seq

  abbrev pub paper_order : OrderRequest F → F → ℕ → Text → OrderInfo F
  paper_order req price seq time = record {
    instrument_id = safe_copy req.instrument_id 24;
    exchange_id = safe_copy req.exchange_id 8;
    account_id = safe_copy req.account_id 16;
    order_ref = safe_copy (paper_ref seq) 16;
    strategy_id = safe_copy req.strategy_id 32;
    order_sys_id = [];
    direction = req.direction;
    offset = req.offset;
    price = price;
    total_volume = req.volume;
    traded_volume = req.volume;
    status = all_traded;
    front_id = pos 0;
    session_id = pos 0;
    status_msg = [];
    insert_time = safe_copy time 12;
  }

  abbrev pub paper_trade : OrderRequest F → F → ℕ → Text → TradeInfo F
  paper_trade req price seq time = record {
    instrument_id = safe_copy req.instrument_id 24;
    exchange_id = safe_copy req.exchange_id 8;
    account_id = safe_copy req.account_id 16;
    trade_id = safe_copy (paper_trade_id seq) 24;
    order_ref = safe_copy (paper_ref seq) 16;
    strategy_id = safe_copy req.strategy_id 32;
    direction = req.direction;
    offset = req.offset;
    price = price;
    volume = req.volume;
    trade_time = safe_copy time 12;
  }

  -- The answer, what the engine is handed, if anything, and the state. `fetch_add` wraps around.
  unfoldable pub simulate_order :
      OrderRequest F
      → TickData F
      → Text
      → PaperTrading
      → SendOrderResult × Option (OrderInfo F × TradeInfo F) × PaperTrading
  unfolding fill_price
  simulate_order req tick time p =
      if not p.has_engine
      then (
        rejected_as (codes "EngineNotReady") (codes "paper trading engine not initialized"),
        none,
        p,
      )
      else if is_empty req.instrument_id || leb_ℤ req.volume (pos 0)
      then (rejected_as (codes "InvalidParam") (codes "invalid instrument or volume"), none, p)
      else let seq = p.paper_ref_seq in
        let price = fill_price req tick in
        (
          record { order_ref = paper_ref seq; reject_reason = []; reject_message = [] },
          some (paper_order req price seq time, paper_trade req price seq time),
          record p {
            paper_ref_seq = (seq + 1) % 2 ^ 32;
            total_orders = p.total_orders +ℤ pos 1;
            total_fills = p.total_fills +ℤ pos 1;
          },
        )
