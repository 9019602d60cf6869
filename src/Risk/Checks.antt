-- ===== src/Risk/Checks.antt =====
-- src/risk/risk_manager.cpp: the checks that `check_order` makes, in the source's order. A refusal
-- is the reason and the error code that `reject` is called with; `none` goes on.
use hft_framework.Common.{
  ℤ, pos, ◌+ℤ◌, ◌-ℤ◌, ltb_ℤ, leb_ℤ, max_ℤ, abs_ℤ, neg_ℤ, Bool, true, false, not, ◌&&◌, Option, none,
  some, length, if◌then◌else◌,
}
use hft_framework.Double.{Double, zero_f, abs_f}
use hft_framework.Types.{
  buy, sell, opposite, dir_eq, Offset, close, close_today, close_yesterday, is_open, limit,
  OrderRequest,
}
use hft_framework.Orders.Methods.{get_pending_open_volume, get_pending_close_volume}
use hft_framework.Positions.Book.{get_net_position, get_position, get_total_absolute_position}
use hft_framework.Risk.State.{
  RiskMode, normal, warning, no_open, reduce_only, liquidating, halted, RiskErrorCode, no_error,
  risk_no_open, risk_reduce_only, risk_liquidating, risk_halted, max_position, max_order_size,
  daily_loss_limit, order_rate_limit, invalid_price, Reason, rms, volume_not_positive,
  price_not_positive, above_upper_limit, below_lower_limit, deviates_from_tick, exceeds_order_size,
  outside_session, loss_limit_reached, exceeds_net_position, exceeds_total_position, not_closeable,
  exceeds_order_rate, exceeds_cancel_rate, LastTick, Risk, World,
}
use hft_framework.Risk.Sessions.{in_trading_session}

abbrev pub Refusal : Type 0
Refusal = Reason × RiskErrorCode

-- A chain of early returns.
infixr 20 ◌then_check◌
abbrev pub ◌then_check◌ : Option Refusal → Option Refusal → Option Refusal
none then_check next = next
some e then_check next = some e

abbrev pub refuse_if : Bool → Reason → RiskErrorCode → Option Refusal
refuse_if true reason code = some (reason, code)
refuse_if false reason code = none

-- `check_rms_mode_locked` at a mode: the error code of a refusal.
unfoldable pub check_rms_mode : RiskMode → Offset → Bool → Option RiskErrorCode
check_rms_mode halted offset is_risk_reduction =
    if is_risk_reduction then none else if is_open offset then some risk_halted else none
check_rms_mode liquidating offset is_risk_reduction =
    if is_open offset then some risk_liquidating else none
check_rms_mode reduce_only offset is_risk_reduction =
    if is_risk_reduction then none else if is_open offset then some risk_reduce_only else none
check_rms_mode no_open offset is_risk_reduction = if is_open offset then some risk_no_open else none
check_rms_mode normal offset is_risk_reduction = none
check_rms_mode warning offset is_risk_reduction = none

abbrev pub mode_refusal : Option RiskErrorCode → Option Refusal
mode_refusal none = none
mode_refusal (some code) = some (rms code, code)

module _ (d : Double) where
  open d use {F, sub, div, lt, le}

  -- The arguments of `check_order`.
  pub record Call : Type 0 where
    pub req : OrderRequest F
    pub is_risk_reduction : Bool
    pub cond_pending_buy : ℤ
    pub cond_pending_sell : ℤ
    pub cancel_rate_exempt : Bool

  unfoldable pub check_tick_price : F → F → LastTick d → Option Refusal
  check_tick_price max_price_deviation price last =
      refuse_if (lt (zero_f d) last.upper_limit && lt last.upper_limit price) above_upper_limit
        invalid_price
      then_check refuse_if (lt (zero_f d) last.lower_limit && lt price last.lower_limit)
          below_lower_limit invalid_price
      then_check refuse_if
          (lt (zero_f d) last.last_price
            && lt (zero_f d) max_price_deviation
            && lt max_price_deviation (div (abs_f d (sub price last.last_price)) last.last_price))
          deviates_from_tick invalid_price

  unfoldable pub check_price : World d → Risk d → OrderRequest F → Option Refusal
  check_price w r req = elim req.price_type [
    | limit ↦
        refuse_if (le req.price (zero_f d)) price_not_positive invalid_price
        then_check elim w.last_tick [
          | none ↦ none
          | some last_tick ↦
              check_tick_price r.max_price_deviation req.price (last_tick req.instrument_id)
        ]
    | _ ↦ none
  ]

  -- Checks 2 to 4, which an order that reduces risk is excused from.
  unfoldable pub check_new_risk : World d → Risk d → OrderRequest F → Option Refusal
  check_new_risk w r req =
      refuse_if (ltb_ℤ r.max_order_size req.volume) exceeds_order_size max_order_size
      then_check refuse_if (not (in_trading_session w.local_minutes r.trading_sessions))
          outside_session no_error
      then_check refuse_if
          (lt (zero_f d) r.max_daily_loss
            && r.account_initialized
            && le r.max_daily_loss (sub r.day_start_balance r.latest_balance))
          loss_limit_reached daily_loss_limit

  -- The net position if every pending order and this one were filled.
  unfoldable pub projected_net : World d → Call → ℤ
  projected_net w c =
      get_net_position d c.req.instrument_id w.positions
      +ℤ pos (get_pending_open_volume c.req.instrument_id buy w.orders)
      +ℤ c.cond_pending_buy
      -ℤ pos (get_pending_open_volume c.req.instrument_id sell w.orders)
      -ℤ c.cond_pending_sell
      +ℤ (if dir_eq c.req.direction buy then c.req.volume else neg_ℤ c.req.volume)

  unfoldable pub check_open : World d → Risk d → Call → Option Refusal
  check_open w r c =
      refuse_if (ltb_ℤ r.max_net_position (abs_ℤ (projected_net w c))) exceeds_net_position
        max_position
      then_check refuse_if
          (ltb_ℤ (pos 0) r.max_total_position
            && ltb_ℤ r.max_total_position
                (get_total_absolute_position d w.positions +ℤ c.req.volume))
          exceeds_total_position max_position

  -- The part of the opposite position that the offset of an order may close.
  unfoldable pub held_for : World d → OrderRequest F → ℤ
  held_for w req =
      let p = get_position d req.instrument_id (opposite req.direction) w.positions in
      elim req.offset [ close_today ↦ p.today | close_yesterday ↦ p.yesterday | _ ↦ p.total ]

  -- What the pending orders have reserved of it.
  unfoldable pub reserved_for : World d → OrderRequest F → ℤ
  reserved_for w req =
      let dir = opposite req.direction in
      pos (elim req.offset [
        | close_today ↦ get_pending_close_volume req.instrument_id dir close_today w.orders
        | close_yesterday ↦ get_pending_close_volume req.instrument_id dir close_yesterday w.orders
        | _ ↦ get_pending_close_volume req.instrument_id dir close w.orders
      ])

  unfoldable pub check_close : World d → OrderRequest F → Option Refusal
  check_close w req =
      refuse_if (ltb_ℤ (max_ℤ (pos 0) (held_for w req -ℤ reserved_for w req)) req.volume)
        not_closeable no_error

  -- The checks that come before the windows are pruned.
  unfoldable pub first_checks : World d → Risk d → Call → Option Refusal
  first_checks w r c =
      mode_refusal (check_rms_mode r.rms_mode c.req.offset c.is_risk_reduction)
      then_check refuse_if (leb_ℤ c.req.volume (pos 0)) volume_not_positive no_error
      then_check check_price w r c.req
      then_check (if c.is_risk_reduction then none else check_new_risk w r c.req)
      then_check (if is_open c.req.offset then check_open w r c else check_close w c.req)

  -- Checks 7 and 8, on the pruned windows.
  unfoldable pub check_rates : Risk d → Call → Option Refusal
  check_rates r c =
      if c.is_risk_reduction
      then none
      else refuse_if (leb_ℤ r.max_orders_per_minute (pos (length r.order_rate_timestamps)))
          exceeds_order_rate order_rate_limit
        then_check refuse_if
            (not c.cancel_rate_exempt
              && leb_ℤ r.cancel_rate_min_sample (pos (length r.cancel_rate_order_timestamps))
              && lt r.max_cancel_rate (
                  div (d.of_int (pos (length r.cancel_timestamps)))
                    (d.of_int (pos (length r.cancel_rate_order_timestamps)))))
            exceeds_cancel_rate no_error
