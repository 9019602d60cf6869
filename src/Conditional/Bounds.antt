-- ===== src/Conditional/Bounds.antt =====
-- src/order/conditional_order_manager.cpp: the bounds that let a tick be passed over without a look at
-- the orders of its instrument.
use hft_framework.Common.{
  ℕ, Bool, true, false, ◌||◌, Option, none, some, List, [], ◌∷◌, ◌==◌, if◌then◌else◌, Text, Text-Eq,
  Nat-Eq, safe_copy, Dict, find, put, erase,
}
use hft_framework.Double.{Double, min_f, max_f}
use hft_framework.Types.{Direction, buy, sell}
use hft_framework.Conditional.State.{
  ConditionType, stop_loss, take_profit, trailing_stop, ConditionalOrder, TriggerBounds, no_bounds,
  CondOrders,
}

-- `InstrumentKey(s)`
abbrev pub instrument_key : Text → Text
instrument_key s = safe_copy s 20

unfoldable pub without : ℕ → List ℕ → List ℕ
without id [] = []
without id (i ∷ is) = let rest = without id is in if i == id then rest else i ∷ rest

module _ (d : Double) where
  open d use {F, le, sub, add}

  abbrev pub clear_retry_state : ℕ → CondOrders d → CondOrders d
  clear_retry_state id m = record m {
    retry_not_before = erase id m.retry_not_before;
    retry_failures = erase id m.retry_failures;
  }

  -- An identifier that leaves the index; the last one of an instrument takes its bounds with it.
  unfoldable pub remove_from_index : Text → ℕ → CondOrders d → CondOrders d
  unfolding without
  remove_from_index key id m = elim (find key m.instrument_index) [
    | none ↦ m
    | some ids ↦ elim (without id ids) [
      | [] ↦ record m {
        instrument_index = erase key m.instrument_index;
        trigger_bounds = erase key m.trigger_bounds;
      }
      | i ∷ is ↦ record m { instrument_index = put key (i ∷ is) m.instrument_index }
    ]
  ]

  -- The switch over the kinds of orders: the bounds with one order more.
  unfoldable pub widen_by : ConditionType → Direction → F → TriggerBounds d → TriggerBounds d
  widen_by stop_loss buy price b = record b { min_stop_buy = min_f d b.min_stop_buy price }
  widen_by stop_loss sell price b = record b { max_stop_sell = max_f d b.max_stop_sell price }
  widen_by take_profit buy price b = record b { max_take_buy = max_f d b.max_take_buy price }
  widen_by take_profit sell price b = record b { min_take_sell = min_f d b.min_take_sell price }
  widen_by trailing_stop dir price b = record b { has_trailing = true }

  abbrev pub widen : ConditionalOrder d → TriggerBounds d → TriggerBounds d
  widen o b = widen_by o.type o.direction o.trigger_price b

  -- `trigger_bounds_[key]`
  abbrev pub or_no_bounds : Option (TriggerBounds d) → TriggerBounds d
  or_no_bounds none = no_bounds d
  or_no_bounds (some b) = b

  unfoldable pub update_bounds_on_insert : ConditionalOrder d → CondOrders d → CondOrders d
  update_bounds_on_insert o m =
      let key = instrument_key o.instrument_id in
      record m {
        trigger_bounds =
            put key (widen o (or_no_bounds (find key m.trigger_bounds))) m.trigger_bounds;
      }

  unfoldable pub mark_bounds_dirty : Text → CondOrders d → CondOrders d
  mark_bounds_dirty key m = elim (find key m.trigger_bounds) [
    | none ↦ m
    | some b ↦ record m { trigger_bounds = put key (record b { dirty = true }) m.trigger_bounds }
  ]

  -- The loop of `rebuild_bounds_locked`: the identifiers that still name an order, and their
  -- bounds, from the bounds so far.
  unfoldable pub gather :
      Dict ℕ (ConditionalOrder d) → List ℕ → TriggerBounds d → List ℕ × TriggerBounds d
  gather os [] b = ([], b)
  gather os (id ∷ ids) b = elim (find id os) [
    | none ↦ gather os ids b
    | some o ↦ let rest = gather os ids (widen o b) in (id ∷ rest.0, rest.1)
  ]

  -- The identifiers and bounds of a key after the rebuild; no identifiers, no entry.
  unfoldable pub install : Text → List ℕ → TriggerBounds d → CondOrders d → CondOrders d
  install key [] b m = record m {
    instrument_index = erase key m.instrument_index;
    trigger_bounds = erase key m.trigger_bounds;
  }
  install key (i ∷ is) b m = record m {
    instrument_index = put key (i ∷ is) m.instrument_index;
    trigger_bounds = put key b m.trigger_bounds;
  }

  unfoldable pub rebuild_bounds : Text → CondOrders d → CondOrders d
  rebuild_bounds key m = elim (find key m.instrument_index) [
    | none ↦ record m { trigger_bounds = erase key m.trigger_bounds }
    | some ids ↦ let found = gather m.orders ids (no_bounds d) in install key found.0 found.1 m
  ]

  -- `kBoundsEps` and `kPriceEps`
  abbrev pub price_eps : F
  price_eps = d.literal 1 4

  -- The test of `may_trigger_locked`; `le a b` is `b >= a`.
  unfoldable pub within_bounds : TriggerBounds d → F → Bool
  within_bounds b price =
      b.has_trailing
      || le (sub b.min_stop_buy price_eps) price
      || le price (add b.max_stop_sell price_eps)
      || le price (add b.max_take_buy price_eps)
      || le (sub b.min_take_sell price_eps) price

  abbrev pub reaches : Option (TriggerBounds d) → F → Bool
  reaches none price = false
  reaches (some b) price = within_bounds b price

  unfoldable pub may_trigger : Text → F → CondOrders d → Bool × CondOrders d
  may_trigger key price m = elim (find key m.trigger_bounds) [
    | none ↦ (false, m)
    | some b ↦
        let m' = if b.dirty then rebuild_bounds key m else m in
        (reaches (find key m'.trigger_bounds) price, m')
  ]
