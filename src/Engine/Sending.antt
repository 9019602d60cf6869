-- ===== src/Engine/Sending.antt =====
-- src/engine/trading_engine.cpp: sending an order. The strategies' signals, the latency
-- figures, the alerts and the store are left out.
use hft_framework.Common.{
  ℕ, ℤ, pos, ◌+ℤ◌, ◌-ℤ◌, ltb_ℤ, leb_ℤ, eq_ℤ, max_ℤ, Bool, true, false, not, ◌&&◌, ◌||◌, Option,
  none, some, if◌then◌else◌, Text, is_empty, [], ◌⊎◌, inl, inr,
}
use hft_framework.Double.{Double, zero_f}
use hft_framework.Types.{
  buy, sell, opposite, close, close_today, close_yesterday, is_open, offset_eq, PriceType, limit,
  OrderRequest, need_close_today_flag,
}
use hft_framework.Orders.Methods.{get_pending_close_volume, create_order}
use hft_framework.Positions.Book.{get_position}
use hft_framework.Risk.State.{LastTick, World}
use hft_framework.Risk.Checks.{Call}
use hft_framework.Risk.Settings.{is_cancel_rate_exempt}
use hft_framework.Risk.Methods.{check_order, on_order_sent}
use hft_framework.Conditional.Methods.{pending_open_among}
use hft_framework.Engine.Cancelling.{Gateways, try_cancel_order}
use hft_framework.Engine.State.{
  AccountTradeState, reconnect_sync, gateway_down, login_pending, OrderRejectReason, no_reject,
  engine_not_ready, account_not_ready, in_reconnect_sync, gateway_disconnected,
  position_unavailable, risk_check_failed, gateway_send_failed, is_ready, Account, Engine,
  resolve_account, store, trade_state_of,
}

-- The text that the caller is told, if it is set: "InvalidParam" or the name of a reason.
pub data Reject : Type 0 where
  invalid_param : Reject
  for_reason : OrderRejectReason → Reject

-- `out_order_ref`, empty if the order was not sent, and `out_reject_reason`.
pub record Answer : Type 0 where
  pub order_ref : Text
  pub reject : Option Reject

abbrev pub refused : Reject → Answer
refused r = record { order_ref = []; reject = some r }

abbrev pub is_limit : PriceType → Bool
is_limit limit = true
is_limit _ = false

abbrev pub state_reject : AccountTradeState → OrderRejectReason
state_reject reconnect_sync = in_reconnect_sync
state_reject gateway_down = gateway_disconnected
state_reject login_pending = gateway_disconnected
state_reject _ = account_not_ready

-- The later of two rejects that are written to the same place.
abbrev pub later : Option Reject → Option Reject → Option Reject
later (some r) first = some r
later none first = first

module _ (d : Double) where
  open d use {F, le}

  -- The last ticks, the local time and the clocks that the risk check reads.
  pub record Surroundings : Type 0 where
    pub last_tick : Option (Text → LastTick d)
    pub local_minutes : ℤ
    pub steady_now : ℕ
    pub wall_ms : ℤ

  unfoldable pub is_invalid : OrderRequest F → Bool
  is_invalid req =
      is_empty req.instrument_id
      || leb_ℤ req.volume (pos 0)
      || (is_limit req.price_type && le req.price (zero_f d))

  abbrev pub told : OrderRejectReason → Account d → Account d
  told reason a = record a { last_reject_reason = reason }

  -- The world and the call of the risk check for a request of an account.
  abbrev pub world_of : Surroundings → Account d → World d
  world_of out a = record {
    positions = a.position_mgr;
    orders = a.order_mgr;
    last_tick = out.last_tick;
    local_minutes = out.local_minutes;
    steady_now = out.steady_now;
    wall_ms = out.wall_ms;
  }

  abbrev pub call_of : OrderRequest F → Account d → Engine d → Call d
  call_of req a e = record {
    req = req;
    is_risk_reduction = not (is_open req.offset);
    cond_pending_buy = pending_open_among d req.instrument_id buy e.cond_order_mgr.orders;
    cond_pending_sell = pending_open_among d req.instrument_id sell e.cond_order_mgr.orders;
    cancel_rate_exempt = is_cancel_rate_exempt d req.strategy_id a.risk_mgr;
  }

  -- The two parts of a close that are free of pending orders.
  abbrev pub available_today : OrderRequest F → Account d → ℤ
  available_today req a =
      let dir = opposite req.direction in
      max_ℤ (pos 0) (
        (get_position d req.instrument_id dir a.position_mgr).today
        -ℤ pos (get_pending_close_volume req.instrument_id dir close_today a.order_mgr))

  abbrev pub available_yesterday : OrderRequest F → Account d → ℤ
  available_yesterday req a =
      let dir = opposite req.direction in
      max_ℤ (pos 0) (
        (get_position d req.instrument_id dir a.position_mgr).yesterday
        -ℤ pos (get_pending_close_volume req.instrument_id dir close_yesterday a.order_mgr))

  -- How a close on an exchange that tells today's position apart is sent.
  pub data Routing : Type 0 where
    whole : OrderRequest F → Routing
    split : OrderRequest F → OrderRequest F → Routing
    not_held : Routing

  unfoldable pub route_close : OrderRequest F → Account d → Routing
  route_close req a =
      let today = available_today req a in
      let yesterday = available_yesterday req a in
      if leb_ℤ req.volume today
      then whole (record req { offset = close_today })
      else if leb_ℤ req.volume yesterday
      then whole (record req { offset = close_yesterday })
      else if leb_ℤ req.volume (today +ℤ yesterday)
          && ltb_ℤ (pos 0) today
          && ltb_ℤ (pos 0) yesterday
      then split (record req { offset = close_today; volume = today })
          (record req { offset = close_yesterday; volume = req.volume -ℤ today })
      else not_held

  module _ {G : Type 0} (gw : Gateways d G) (out : Surroundings) where
    -- The guards before the offset is looked at: the account that goes on, or the answer.
    unfoldable pub guard :
        OrderRequest F → Engine d → G → (Answer × Engine d) ⊎ (ℕ × Account d × Engine d)
    guard req e g =
        if is_invalid req
        then inl (refused invalid_param, e)
        else elim (resolve_account d req.account_id e) [
          | none ↦ inl (record { order_ref = []; reject = none }, e)
          | some (i, a) ↦
              let state = trade_state_of d e.running (gw.is_logged_in i g) a in
              let reason = state_reject state in
              if e.md_only_mode
              then inl
                  (refused (for_reason engine_not_ready), store d i (told engine_not_ready a) e)
              else if not (is_ready state)
              then inl (refused (for_reason reason), store d i (told reason a) e)
              else inr (i, told no_reject a, store d i (told no_reject a) e)
        ]

    -- The risk check, the new order and the gateway.
    unfoldable pub send_checked :
        ℕ → Account d → OrderRequest F → Engine d → G → Answer × Engine d × G
    send_checked i a req e g =
        let checked = check_order d (world_of out a) (call_of req a e) a.risk_mgr in
        elim checked.0 [
          | some reason ↦ (
            refused (for_reason risk_check_failed),
            store d i (record a { risk_mgr = checked.1; last_reject_reason = risk_check_failed }) e,
            g,
          )
          | none ↦
              let created = create_order req a.order_mgr in
              let ref = created.0.order_ref in
              let sent = gw.send_order i req ref g in
              let a' : Account d = record a {
                order_mgr = created.1;
                risk_mgr = on_order_sent d out.steady_now checked.1;
              } in
              if eq_ℤ sent.0 (pos 0)
              then (
                record { order_ref = ref; reject = none },
                store d i (told no_reject a') e,
                sent.1,
              )
              else (
                refused (for_reason gateway_send_failed),
                store d i (told gateway_send_failed a') e,
                sent.1,
              )
        ]

    -- `send_order_unlocked` for a request whose offset is sent as it is.
    unfoldable pub send_plain : OrderRequest F → Engine d → G → Answer × Engine d × G
    send_plain req e g = elim (guard req e g) [
      | inl (answer, e') ↦ (answer, e', g)
      | inr (i, a, e') ↦ send_checked i a req e' g
    ]

    -- A split of which one order was not sent: the other one is cancelled.
    unfoldable pub undo_split : Text → Text → Text → Engine d → G → G
    undo_split account_id ref1 ref2 e g =
        let g1 = if is_empty ref1 then g else (try_cancel_order d gw ref1 account_id e g).1 in
        if is_empty ref2 then g1 else (try_cancel_order d gw ref2 account_id e g1).1

    -- The two orders of a split. Their offsets are sent as they are.
    unfoldable pub send_split :
        Text → OrderRequest F → OrderRequest F → Engine d → G → Answer × Engine d × G
    send_split account_id today_req yd_req e g =
        let (first, e1, g1) = send_plain today_req e g in
        let (second, e2, g2) = send_plain yd_req e1 g1 in
        let reject = later second.reject first.reject in
        if is_empty first.order_ref || is_empty second.order_ref
        then (
          record {
            order_ref = if is_empty first.order_ref then second.order_ref else first.order_ref;
            reject = reject;
          },
          e2,
          undo_split account_id first.order_ref second.order_ref e2 g2,
        )
        else (record { order_ref = first.order_ref; reject = reject }, e2, g2)

    unfoldable pub send_routed : ℕ → Account d → Routing → Engine d → G → Answer × Engine d × G
    send_routed i a (whole req) e g = send_checked i a req e g
    send_routed i a (split today_req yd_req) e g = send_split a.account_id today_req yd_req e g
    send_routed i a not_held e g =
        (refused (for_reason position_unavailable), store d i (told position_unavailable a) e, g)

    unfoldable pub send_order_unlocked : OrderRequest F → Engine d → G → Answer × Engine d × G
    send_order_unlocked req e g = elim (guard req e g) [
      | inl (answer, e') ↦ (answer, e', g)
      | inr (i, a, e') ↦
          let routed = send_routed i a (route_close req a) e' g in
          let plain = send_checked i a req e' g in
          if offset_eq req.offset close && need_close_today_flag req.exchange_id
          then routed
          else plain
    ]
