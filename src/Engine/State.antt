-- ===== src/Engine/State.antt =====
-- src/engine/account_context.h, src/engine/account_manager.cpp and the part of TradingEngine that the
-- order path reads. An account is known by its place in the list of accounts, which stands for the
-- pointer to it.
use hft_framework.Common.{
  ℕ, zero, suc, Bool, true, false, not, ◌&&◌, ◌||◌, Option, none, some, List, [], ◌∷◌,
  if◌then◌else◌, Text, is_empty, Text-Eq, Dict, find, get_elem?,
}
use hft_framework.Double.{Double}
use hft_framework.Types.{OrderInfo, TradeInfo}
use hft_framework.Orders.Book.{Orders}
use hft_framework.Positions.Book.{Positions}
use hft_framework.Risk.State.{Risk}
use hft_framework.Close.State.{Closes}
use hft_framework.Algo.Methods.{AlgoOrders}
use hft_framework.Conditional.State.{CondOrders}

pub data AccountTradeState : Type 0 where
  unknown booting login_pending snapshot_sync ready : AccountTradeState
  reconnect_sync gateway_down stopped : AccountTradeState

pub data OrderRejectReason : Type 0 where
  no_reject engine_not_ready unknown_account account_not_ready in_reconnect_sync : OrderRejectReason
  gateway_disconnected gateway_login_failed position_unavailable : OrderRejectReason
  risk_check_failed gateway_send_failed : OrderRejectReason

pub data StrategyState : Type 0 where
  strategy_running strategy_paused strategy_stopped : StrategyState

abbrev pub is_ready : AccountTradeState → Bool
is_ready ready = true
is_ready _ = false

module _ (d : Double) where
  open d use {F}

  -- AccountContext. `has_gateway` says whether the pointer to the gateway is set.
  pub record Account : Type 0 where
    pub account_id : Text
    pub has_gateway : Bool
    pub order_mgr : Orders F
    pub position_mgr : Positions d
    pub risk_mgr : Risk d
    pub account_snapshot_ready : Bool
    pub position_snapshot_ready : Bool
    pub active_orders_snapshot_ready : Bool
    pub reconnect_sync_pending : Bool
    pub resume_after_reconnect : Bool
    pub reconnect_start_time : ℕ
    pub trade_state : AccountTradeState
    pub last_reject_reason : OrderRejectReason

  pub record Engine : Type 0 where
    pub accounts : List Account
    pub account_index : Dict Text ℕ
    pub running : Bool
    pub md_only_mode : Bool
    pub trading_ready : Bool
    pub was_running_before_reconnect : Bool
    pub global_state : StrategyState
    pub close_mgr : Closes d
    pub algo_order_mgr : AlgoOrders F
    pub cond_order_mgr : CondOrders d
    pub recent_orders : List (OrderInfo F)
    pub recent_trades : List (TradeInfo F)

  unfoldable pub default_account : Engine → Option ℕ
  default_account e = elim e.accounts [ [] ↦ none | a ∷ rest ↦ some 0 ]

  unfoldable pub find_account : Text → Engine → Option ℕ
  unfolding default_account
  find_account account_id e =
      if is_empty account_id then default_account e else find account_id e.account_index

  -- `resolve_account`, and what the pointer points to.
  unfoldable pub resolve_account : Text → Engine → Option (ℕ × Account)
  unfolding find_account
  resolve_account account_id e = elim (find_account account_id e) [
    | none ↦ none
    | some i ↦ elim (get_elem? e.accounts i) [ none ↦ none | some a ↦ some (i, a) ]
  ]

  unfoldable pub replace_at : ℕ → Account → List Account → List Account
  replace_at i a [] = []
  replace_at zero a (b ∷ bs) = a ∷ bs
  replace_at (suc i) a (b ∷ bs) = b ∷ replace_at i a bs

  -- A change of the account at a place.
  abbrev pub store : ℕ → Account → Engine → Engine
  store i a e = record e { accounts = replace_at i a e.accounts }

  -- `get_account_trade_state_impl`; the second argument is what the gateway says of its login.
  unfoldable pub trade_state_of : Bool → Bool → Account → AccountTradeState
  trade_state_of running logged_in a =
      let any_snapshot =
        a.account_snapshot_ready || a.position_snapshot_ready || a.active_orders_snapshot_ready in
      let all_snapshots =
        a.account_snapshot_ready && a.position_snapshot_ready && a.active_orders_snapshot_ready in
      let was_up : Bool = elim a.trade_state [
        | ready ↦ true
        | gateway_down ↦ true
        | _ ↦ any_snapshot
      ] in
      let synced : AccountTradeState = elim a.trade_state [
        | snapshot_sync ↦ snapshot_sync
        | booting ↦ snapshot_sync
        | login_pending ↦ snapshot_sync
        | unknown ↦ snapshot_sync
        | s ↦ s
      ] in
      if not running
      then stopped
      else if not a.has_gateway
      then booting
      else if a.reconnect_sync_pending
      then reconnect_sync
      else if not logged_in
      then if was_up then gateway_down else login_pending
      else if all_snapshots
      then synced
      else snapshot_sync
