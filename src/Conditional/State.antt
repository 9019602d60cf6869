-- ===== src/Conditional/State.antt =====
-- src/order/conditional_order_manager.h and the conditional orders of src/common/types.h.
use hft_framework.Common.{
  ℕ, ◌*◌, ◌-◌, ◌^◌, leb, ℤ, pos, pos_part, ◌-ℤ◌, ltb_ℤ, leb_ℤ, Bool, false, List, Text, Dict,
  if◌then◌else◌,
}
use hft_framework.Double.{Double}
use hft_framework.Types.{Direction, Offset}

pub data ConditionType : Type 0 where
  stop_loss take_profit trailing_stop : ConditionType

pub data CondOrderStatus : Type 0 where
  cond_pending triggered cond_cancelled expired rejected : CondOrderStatus

pub data TriggerResult : Type 0 where
  retry_later sent cancelled_result : TriggerResult

module _ (d : Double) where
  open d use {F}

  -- An `int64_t` is a ℤ and a `uint32_t` a ℕ.
  pub record ConditionalOrder : Type 0 where
    pub id : ℕ
    pub instrument_id : Text
    pub account_id : Text
    pub strategy_id : Text
    pub type : ConditionType
    pub direction : Direction
    pub offset : Offset
    pub trigger_price : F
    pub order_price : F
    pub trail_offset : F
    pub volume : ℤ
    pub active : Bool
    pub extreme_price : F
    pub group_id : ℕ
    pub idempotency_key : Text
    pub status : CondOrderStatus
    pub created_at_ms : ℤ
    pub triggered_at_ms : ℤ
    pub cancelled_at_ms : ℤ
    pub expire_at_ms : ℤ
    pub reject_reason : Text

  pub record TriggerBounds : Type 0 where
    pub dirty : Bool
    pub has_trailing : Bool
    pub min_stop_buy : F
    pub max_stop_sell : F
    pub max_take_buy : F
    pub min_take_sell : F

  -- `TriggerBounds{}`
  abbrev pub no_bounds : TriggerBounds
  no_bounds = record {
    dirty = false;
    has_trailing = false;
    min_stop_buy = d.infinity;
    max_stop_sell = d.neg_infinity;
    max_take_buy = d.neg_infinity;
    min_take_sell = d.infinity;
  }

  -- The maps are keyed by identifiers and by `InstrumentKey`s; times to retry are nanoseconds of
  -- the steady clock.
  pub record CondOrders : Type 0 where
    pub orders : Dict ℕ ConditionalOrder
    pub instrument_index : Dict Text (List ℕ)
    pub trigger_bounds : Dict Text TriggerBounds
    pub retry_not_before : Dict ℕ ℕ
    pub retry_failures : Dict ℕ ℕ
    pub next_id : ℕ
    pub next_group_id : ℕ

-- The delay after a number of failures, in milliseconds: 100, 200, 400, 800, then 1600.
unfoldable pub retry_backoff : ℕ → ℕ
retry_backoff failures = let before = failures - 1 in 100 * 2 ^ (if leb before 4 then before else 4)

unfoldable pub is_expired : ℤ → ℤ → ℤ → Bool
is_expired created_at_ms ttl_days now_ms =
    if leb_ℤ ttl_days (pos 0)
    then false
    else if leb_ℤ created_at_ms (pos 0)
    then false
    else ltb_ℤ (pos (pos_part ttl_days * 86400 * 1000)) (now_ms -ℤ created_at_ms)
