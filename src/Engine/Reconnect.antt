-- ===== src/Engine/Reconnect.antt =====
-- src/engine/trading_engine.cpp: the snapshots of an account, and its trade state over a disconnection.
-- `std::any_of` in on_trade_reconnected is read as over one list of the accounts. The queries to the
-- gateway, the refresh of active orders and the alerts are left out.
use hft_framework.Common.{
  ℕ, ◌+◌, ◌-◌, ◌/◌, ◌++◌, codes, leb, ℤ, Bool, true, false, not, ◌&&◌, ◌||◌, none, some, List, [],
  ◌∷◌, if◌then◌else◌, Text,
}
use hft_framework.Double.{Double}
use hft_framework.Types.{OrderInfo, PositionInfo}
use hft_framework.Orders.Methods.{decimal, init, replace_active_orders}
use hft_framework.Positions.Book.{replace_positions}
use hft_framework.Risk.State.{no_open}
use hft_framework.Risk.Methods.{update_account, set_risk_mode}
use hft_framework.Close.Recovery.{reconcile_active_orders}
use hft_framework.Engine.State.{
  AccountTradeState, ready, snapshot_sync, reconnect_sync, gateway_down, StrategyState,
  strategy_running, strategy_paused, is_ready, Account, Engine, resolve_account, store,
}

abbrev pub is_down : AccountTradeState → Bool
is_down gateway_down = true
is_down _ = false

abbrev pub is_running_state : StrategyState → Bool
is_running_state strategy_running = true
is_running_state _ = false

module _ (d : Double) where
  open d use {F}

  abbrev pub has_snapshots : Account d → Bool
  has_snapshots a =
      a.account_snapshot_ready && a.position_snapshot_ready && a.active_orders_snapshot_ready

  -- `set_account_trade_state`
  abbrev pub in_state : AccountTradeState → Account d → Account d
  in_state s a = record a { trade_state = s }

  -- A loop over all accounts that changes each, and the tests of `std::any_of` and of its dual.
  unfoldable pub each_account : (Account d → Account d) → List (Account d) → List (Account d)
  each_account f [] = []
  each_account f (a ∷ rest) = f a ∷ each_account f rest

  unfoldable pub any_account : (Account d → Bool) → List (Account d) → Bool
  any_account p [] = false
  any_account p (a ∷ rest) = p a || any_account p rest

  -- `reset_snapshot_state` of one account.
  unfoldable pub reset_snapshot_state : Account d → Account d
  reset_snapshot_state a = if is_down a.trade_state then a else record a {
    account_snapshot_ready = false;
    position_snapshot_ready = false;
    active_orders_snapshot_ready = false;
    trade_state = if a.reconnect_sync_pending then reconnect_sync else snapshot_sync;
  }

  abbrev pub is_pending : Account d → Bool
  is_pending a = a.reconnect_sync_pending

  -- The account after its gateway has logged in again.
  unfoldable pub reconnected_account : ℤ → ℤ → ℤ → ℕ → Bool → Account d → Account d
  reconnected_account front session max_ref now was_running a = reset_snapshot_state (record a {
    order_mgr = init front session max_ref a.order_mgr;
    resume_after_reconnect = was_running;
    reconnect_sync_pending = true;
    reconnect_start_time = now;
  })

  unfoldable pub on_trade_reconnected : Text → ℤ → ℤ → ℤ → ℕ → Engine d → Engine d
  on_trade_reconnected account_id front session max_ref now e =
      elim (resolve_account d account_id e) [
        | none ↦ e
        | some (i, a) ↦
            let first = not (any_account is_pending e.accounts) in
            let was_running =
              if first then is_running_state e.global_state else e.was_running_before_reconnect in
            record (store d i (reconnected_account front session max_ref now was_running a) e) {
              was_running_before_reconnect = was_running;
              global_state = if first then strategy_paused else e.global_state;
            }
      ]

  -- The account is not down and lacks a snapshot.
  abbrev pub lacks_snapshot : Account d → Bool
  lacks_snapshot a = not (is_down a.trade_state) && not (has_snapshots a)

  abbrev pub made_ready : Bool → Account d → Account d
  made_ready all_ready a =
      if all_ready && not (is_down a.trade_state) && not a.reconnect_sync_pending
      then in_state ready a
      else a

  -- The account is waiting and has what it waits for.
  abbrev pub is_synced : Account d → Bool
  is_synced a = not (is_down a.trade_state) && a.reconnect_sync_pending && has_snapshots a

  abbrev pub synced : Account d → Account d
  synced a =
      if is_synced a then record a { reconnect_sync_pending = false; trade_state = ready } else a

  abbrev pub resumed : Account d → Account d
  resumed a = record a { resume_after_reconnect = false }

  abbrev pub wants_resume : Account d → Bool
  wants_resume a = a.resume_after_reconnect

  -- `maybe_finish_reconnect_sync`; the Boolean says that the sync of all accounts is complete, on
  -- which the caller resumes the pending close tasks.
  unfoldable pub maybe_finish_reconnect_sync : Engine d → Bool × Engine d
  maybe_finish_reconnect_sync e =
      let all_ready = not (any_account lacks_snapshot e.accounts) in
      let readied = each_account (made_ready all_ready) e.accounts in
      let transition = any_account is_synced readied in
      let accounts' = each_account synced readied in
      let completed = all_ready && transition && not (any_account is_pending accounts') in
      let should_resume = any_account wants_resume accounts' in
      (
        completed,
        record e {
          accounts = if completed then each_account resumed accounts' else accounts';
          trading_ready = e.trading_ready || all_ready;
          global_state = if completed && should_resume then strategy_running else e.global_state;
        },
      )

  unfoldable pub apply_account_snapshot : Text → F → Engine d → Bool × Engine d
  apply_account_snapshot account_id balance e = elim (resolve_account d account_id e) [
    | none ↦ (false, e)
    | some (i, a) ↦ maybe_finish_reconnect_sync (
        store d i
          (record a {
            risk_mgr = update_account d balance a.risk_mgr;
            account_snapshot_ready = true;
          })
          e)
  ]

  unfoldable pub apply_position_snapshot : Text → List (PositionInfo F) → Engine d → Bool × Engine d
  apply_position_snapshot account_id positions e = elim (resolve_account d account_id e) [
    | none ↦ (false, e)
    | some (i, a) ↦ maybe_finish_reconnect_sync (
        store d i
          (record a {
            position_mgr = replace_positions d positions a.position_mgr;
            position_snapshot_ready = true;
          })
          e)
  ]

  unfoldable pub apply_active_orders_snapshot :
      ℕ → Text → List (OrderInfo F) → Engine d → Bool × Engine d
  apply_active_orders_snapshot now account_id active e = elim (resolve_account d account_id e) [
    | none ↦ (false, e)
    | some (i, a) ↦
        maybe_finish_reconnect_sync
          (record (store d i
            (record a {
              order_mgr = replace_active_orders active a.order_mgr;
              active_orders_snapshot_ready = true;
            })
            e) { close_mgr = reconcile_active_orders d now account_id active e.close_mgr })
  ]

  -- `check_runtime_alerts` on one account: its gateway's login, then the timeout of 30 seconds.
  unfoldable pub check_gateway : Bool → Account d → Account d
  check_gateway logged_in a =
      if not a.has_gateway
      then a
      else if not logged_in
      then if a.reconnect_sync_pending
        then in_state reconnect_sync a
        else if is_ready a.trade_state
        then in_state gateway_down a
        else a
      else if not a.reconnect_sync_pending && has_snapshots a && is_down a.trade_state
      then in_state ready a
      else a

  -- The gateways are asked in the order of the accounts.
  unfoldable pub check_gateways : (ℕ → Bool) → ℕ → List (Account d) → List (Account d)
  check_gateways logged_in i [] = []
  check_gateways logged_in i (a ∷ rest) =
      check_gateway (logged_in i) a ∷ check_gateways logged_in (i + 1) rest

  abbrev pub seconds_pending : ℕ → Account d → ℕ
  seconds_pending now a = (now - a.reconnect_start_time) / 1_000_000_000

  -- `kReconnectTimeoutSeconds` is 30.
  unfoldable pub expire_reconnect : ℕ → ℤ → Account d → Account d
  expire_reconnect now wall_ms a =
      let elapsed = seconds_pending now a in
      let reason = codes "reconnect sync timeout after " ++ (decimal 20 elapsed ++ codes "s") in
      if a.reconnect_sync_pending && leb 30 elapsed
      then record a {
        reconnect_sync_pending = false;
        resume_after_reconnect = false;
        trade_state = ready;
        risk_mgr = set_risk_mode d wall_ms no_open reason a.risk_mgr;
      }
      else a

  -- The part of `check_runtime_alerts` that changes accounts.
  unfoldable pub check_accounts : (ℕ → Bool) → ℕ → ℤ → Engine d → Engine d
  check_accounts logged_in now wall_ms e = record e {
    accounts = each_account (expire_reconnect now wall_ms) (check_gateways logged_in 0 e.accounts);
  }
