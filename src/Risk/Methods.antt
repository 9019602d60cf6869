-- ===== src/Risk/Methods.antt =====
-- src/risk/risk_manager.h and .cpp: the operations of the risk manager on its state. The mutex makes
-- each one a single step; what an operation reads from a clock is an argument.
use hft_framework.Common.{
  ℕ, ◌+◌, ℤ, pos, pos_part, max_ℤ, leb_ℤ, ltb_ℤ, true, not, ◌&&◌, ◌||◌, Option, none, some, List,
  [], ◌∷◌, ◌++◌, length, if◌then◌else◌, Text, text_eq, is_empty, safe_copy,
}
use hft_framework.Double.{Double, zero_f, max_f}
use hft_framework.Types.{OrderRequest}
use hft_framework.Risk.State.{
  RiskMode, normal, warning, mode_eq, no_error, refusal, note, RiskEvent, Risk, World, Reason,
}
use hft_framework.Risk.Window.{prune}
use hft_framework.Risk.Checks.{Refusal, Call, first_checks, check_rates}

module _ (d : Double) where
  open d use {F, sub, div, mul, lt, le}

  abbrev pub cancel_window : Risk d → ℕ
  cancel_window r = pos_part (max_ℤ (pos 1) r.cancel_rate_window_minutes)

  -- `prune_order_rate_window_locked`, `prune_cancel_order_window_locked` and
  -- `prune_cancel_window_locked`
  unfoldable pub prune_order_rate : ℕ → Risk d → Risk d
  prune_order_rate now r = record r { order_rate_timestamps = prune 1 now r.order_rate_timestamps }

  unfoldable pub prune_cancel_order : ℕ → Risk d → Risk d
  prune_cancel_order now r = record r {
    cancel_rate_order_timestamps = prune (cancel_window r) now r.cancel_rate_order_timestamps;
  }

  unfoldable pub prune_cancel : ℕ → Risk d → Risk d
  prune_cancel now r = record r {
    cancel_timestamps = prune (cancel_window r) now r.cancel_timestamps;
  }

  -- The closure `reject` of `check_order`. The message stands for its text, which the source
  -- cuts at 127 bytes.
  unfoldable pub reject : World d → OrderRequest F → Refusal → Risk d → Risk d
  reject w req e r = record r {
    total_rejects_today = r.total_rejects_today + 1;
    last_error_code = e.1;
    pending_risk_events =
        r.pending_risk_events
        ++ record {
          timestamp_ms = w.wall_ms;
          mode = r.rms_mode;
          error_code = e.1;
          instrument_id = safe_copy req.instrument_id 24;
          account_id = safe_copy req.account_id 16;
          message = refusal e.0;
        }
          ∷ [];
  }

  -- What is returned to the caller, `none` for a passed check, and the state.
  abbrev pub answer : World d → Call d → Option Refusal → Risk d → Option Reason × Risk d
  answer w c none r = (none, r)
  answer w c (some e) r = (some e.0, reject w c.req e r)

  unfoldable pub check_order : World d → Call d → Risk d → Option Reason × Risk d
  check_order w c r =
      let pruned =
        prune_cancel w.steady_now
          (prune_cancel_order w.steady_now (prune_order_rate w.steady_now r)) in
      elim (first_checks d w r c) [
        | some e ↦ answer w c (some e) r
        | none ↦ answer w c (check_rates d pruned c) pruned
      ]

  unfoldable pub on_cancel : ℕ → Risk d → Risk d
  unfolding prune_cancel
  on_cancel now r =
      prune_cancel now (record r { cancel_timestamps = r.cancel_timestamps ++ now ∷ [] })

  unfoldable pub on_order_sent : ℕ → Risk d → Risk d
  unfolding prune_cancel_order prune_order_rate
  on_order_sent now r = prune_cancel_order now (
      prune_order_rate now (record r {
        order_rate_timestamps = r.order_rate_timestamps ++ now ∷ [];
        cancel_rate_order_timestamps = r.cancel_rate_order_timestamps ++ now ∷ [];
      }))

  -- The argument is the balance of the account report.
  unfoldable pub update_account : F → Risk d → Risk d
  update_account balance r = record r {
    latest_balance = balance;
    account_initialized = true;
    day_start_balance = if r.account_initialized then r.day_start_balance else balance;
  }

  unfoldable pub update_trading_day : Text → Risk d → Risk d
  update_trading_day day r = if is_empty day || text_eq r.trading_day day then r else record r {
    trading_day = day;
    day_start_balance = if r.account_initialized then r.latest_balance else r.day_start_balance;
    total_rejects_today = 0;
  }

  unfoldable pub set_day_start_balance : F → Risk d → Risk d
  set_day_start_balance balance r =
      if lt (zero_f d) balance
      then record r { day_start_balance = balance; account_initialized = true }
      else r

  unfoldable pub set_risk_mode : ℤ → RiskMode → Text → Risk d → Risk d
  set_risk_mode wall_ms mode reason r = if mode_eq r.rms_mode mode then r else record r {
    rms_mode = mode;
    pending_risk_events =
        r.pending_risk_events
        ++ record {
          timestamp_ms = wall_ms;
          mode = mode;
          error_code = no_error;
          instrument_id = [];
          account_id = [];
          message = note (safe_copy reason 128);
        }
          ∷ [];
  }

  unfoldable pub drain_risk_events : Risk d → List RiskEvent × Risk d
  drain_risk_events r = (r.pending_risk_events, record r { pending_risk_events = [] })

  -- The loss of the day, as `get_snapshot` reports it.
  unfoldable pub current_daily_loss : Risk d → F
  current_daily_loss r =
      if r.account_initialized
      then max_f d (zero_f d) (sub r.day_start_balance r.latest_balance)
      else zero_f d

  unfoldable pub current_cancel_rate : Risk d → F
  current_cancel_rate r =
      if leb_ℤ (pos (length r.cancel_rate_order_timestamps)) (pos 0)
      then zero_f d
      else div (d.of_int (pos (length r.cancel_timestamps)))
          (d.of_int (pos (length r.cancel_rate_order_timestamps)))

  pub data RiskLevel : Type 0 where
    level_normal level_warning : RiskLevel
    of_mode : RiskMode → RiskLevel

  -- `risk_level` of `get_snapshot`; `truncate` is the conversion of a `double` to an `int`.
  unfoldable pub risk_level : (F → ℤ) → Risk d → RiskLevel
  unfolding current_daily_loss current_cancel_rate
  risk_level truncate r =
      let eight_tenths = d.literal 8 1 in
      let loss_warning =
        lt (zero_f d) r.max_daily_loss
        && le (mul r.max_daily_loss eight_tenths) (current_daily_loss r) in
      let order_warning =
        ltb_ℤ (pos 0) r.max_orders_per_minute
        && leb_ℤ (truncate (mul (d.of_int r.max_orders_per_minute) eight_tenths))
            (pos (length r.order_rate_timestamps)) in
      let cancel_warning =
        lt (zero_f d) r.max_cancel_rate
        && le (mul r.max_cancel_rate eight_tenths) (current_cancel_rate r) in
      if not (mode_eq r.rms_mode normal) && not (mode_eq r.rms_mode warning)
      then of_mode r.rms_mode
      else if loss_warning || order_warning || cancel_warning
      then level_warning
      else level_normal
