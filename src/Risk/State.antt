-- ===== src/Risk/State.antt =====
-- src/risk/risk_manager.h and the risk types of src/common/types.h: modes, codes, parameters, state.
use hft_framework.Common.{ℕ, ℤ, Bool, Option, List, Text}
use hft_framework.Double.{Double}
use hft_framework.Orders.Book.{Orders}
use hft_framework.Positions.Book.{Positions}

pub data RiskMode : Type 0 where
  normal warning no_open reduce_only liquidating halted : RiskMode

pub data RiskErrorCode : Type 0 where
  no_error : RiskErrorCode
  risk_no_open risk_reduce_only risk_liquidating risk_halted : RiskErrorCode
  max_position max_order_size daily_loss_limit order_rate_limit invalid_price : RiskErrorCode

-- The reason of a refusal, one constructor for each message of the source.
pub data Reason : Type 0 where
  rms : RiskErrorCode → Reason
  volume_not_positive price_not_positive above_upper_limit below_lower_limit : Reason
  deviates_from_tick exceeds_order_size outside_session loss_limit_reached : Reason
  exceeds_net_position exceeds_total_position not_closeable : Reason
  exceeds_order_rate exceeds_cancel_rate : Reason

abbrev pub mode_eq : RiskMode → RiskMode → Bool
mode_eq normal normal = Bool.true
mode_eq warning warning = Bool.true
mode_eq no_open no_open = Bool.true
mode_eq reduce_only reduce_only = Bool.true
mode_eq liquidating liquidating = Bool.true
mode_eq halted halted = Bool.true
mode_eq _ _ = Bool.false

-- `message` is the reason of a refusal, or the text that a change of the mode was given.
pub data Message : Type 0 where
  refusal : Reason → Message
  note : Text → Message

pub record RiskEvent : Type 0 where
  pub timestamp_ms : ℤ
  pub mode : RiskMode
  pub error_code : RiskErrorCode
  pub instrument_id : Text
  pub account_id : Text
  pub message : Message

module _ (d : Double) where
  open d use {F}

  -- The fields of `TickData` that the check of a price reads.
  pub record LastTick : Type 0 where
    pub last_price : F
    pub upper_limit : F
    pub lower_limit : F

  pub record Params : Type 0 where
    pub max_order_size : ℤ
    pub max_net_position : ℤ
    pub max_total_position : ℤ
    pub max_orders_per_minute : ℤ
    pub cancel_rate_window_minutes : ℤ
    pub cancel_rate_min_sample : ℤ
    pub max_cancel_rate : F
    pub max_daily_loss : F
    pub max_price_deviation : F
    pub cancel_rate_exempt_patterns : List Text
    pub trading_sessions : List (ℤ × ℤ)

  -- Time stamps are nanoseconds of the steady clock, the oldest first.
  pub record Risk : Type 0 where
    pub params : Params
    pub open params use *
    pub account_id : Text
    pub order_rate_timestamps : List ℕ
    pub cancel_rate_order_timestamps : List ℕ
    pub cancel_timestamps : List ℕ
    pub account_initialized : Bool
    pub day_start_balance : F
    pub latest_balance : F
    pub trading_day : Text
    pub total_rejects_today : ℕ
    pub rms_mode : RiskMode
    pub last_error_code : RiskErrorCode
    pub pending_risk_events : List RiskEvent

  -- What `check_order` reads outside its own state: the other managers (the position and the order
  -- manager are never null, since `init` throws on a null pointer, and the last ticks only if
  -- there is a `TickDataManager`), the local time in minutes since midnight, and two clocks.
  pub record World : Type 0 where
    pub positions : Positions d
    pub orders : Orders F
    pub last_tick : Option (Text → LastTick)
    pub local_minutes : ℤ
    pub steady_now : ℕ
    pub wall_ms : ℤ
