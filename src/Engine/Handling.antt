-- ===== src/Engine/Handling.antt =====
-- src/engine/trading_engine.cpp: what the consumer thread does with a report, a fill and a position.
-- The callbacks of the strategies, the store and the statistics are left out.
use hft_framework.Common.{ℕ, Bool, true, false, Option, none, some, ◌∷◌, take, if◌then◌else◌}
use hft_framework.Double.{Double}
use hft_framework.Types.{OrderStatus, cancelled, OrderInfo, TradeInfo, PositionInfo}
use hft_framework.Orders.Methods.{
  on_order_return, on_trade_return, enrich_order_info, enrich_trade_info,
}
use hft_framework.Positions.Book.{on_trade, update_position}
use hft_framework.Risk.Methods.{on_cancel}
use hft_framework.Close.Methods.{on_order as close_on_order, on_trade as close_on_trade}
use hft_framework.Algo.Methods.{on_trade as algo_on_trade}
use hft_framework.Engine.State.{Account, Engine, resolve_account, store}

abbrev pub or_same {ℓ} : {A : Type ℓ} → Option A → A → A
or_same none a = a
or_same (some b) a = b

module _ (d : Double) where
  open d use {F}

  abbrev pub is_cancelled : OrderStatus → Bool
  is_cancelled cancelled = true
  is_cancelled _ = false

  -- What the account's own managers do with a report, and the report with its identifiers.
  unfoldable pub account_order : ℕ → OrderInfo F → Account d → OrderInfo F × Account d
  account_order now order a =
      let orders = on_order_return order a.order_mgr in
      (
        or_same (enrich_order_info order orders) order,
        record a {
          order_mgr = orders;
          risk_mgr = if is_cancelled order.status then on_cancel d now a.risk_mgr else a.risk_mgr;
        },
      )

  unfoldable pub process_order : ℕ → OrderInfo F → Engine d → Engine d
  process_order now order e = elim (resolve_account d order.account_id e) [
    | none ↦ e
    | some (i, a) ↦
        let done = account_order now order a in
        record (store d i done.1 e) {
          close_mgr = close_on_order d done.0 e.close_mgr;
          recent_orders = take 1000 (done.0 ∷ e.recent_orders);
        }
  ]

  -- The same for a fill. The position manager is given every fill, new or replayed.
  unfoldable pub account_trade : TradeInfo F → Account d → TradeInfo F × Account d
  account_trade trade a =
      let orders = on_trade_return trade a.order_mgr in
      let routed = or_same (enrich_trade_info trade orders) trade in
      (routed, record a { order_mgr = orders; position_mgr = on_trade d routed a.position_mgr })

  unfoldable pub process_trade : TradeInfo F → Engine d → Engine d
  process_trade trade e = elim (resolve_account d trade.account_id e) [
    | none ↦ e
    | some (i, a) ↦
        let done = account_trade trade a in
        record (store d i done.1 e) {
          close_mgr = close_on_trade d done.0 e.close_mgr;
          algo_order_mgr = algo_on_trade done.0.order_ref done.0.volume e.algo_order_mgr;
          recent_trades = take 500 (done.0 ∷ e.recent_trades);
        }
  ]

  unfoldable pub process_position : PositionInfo F → Engine d → Engine d
  process_position p e = elim (resolve_account d p.account_id e) [
    | none ↦ e
    | some (i, a) ↦
        store d i
          (record a {
            position_mgr = update_position d p.instrument_id p.direction p a.position_mgr;
          })
          e
  ]
