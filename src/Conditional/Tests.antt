-- ===== src/Conditional/Tests.antt =====
-- Conditional orders of src/order/conditional_order_manager.cpp: runs and theorems at concrete inputs.
use hft_framework.Common.{
  ℕ, ◌+◌, ◌≡◌, refl, inl, ℤ, pos, ◌+ℤ◌, +ℤ_parts, -ℤ_parts, true, false, List, [], ◌∷◌, arith,
  codes, Text-Eq, Nat-Eq, text_eq, find,
}
use hft_framework.Double.Fixed.{fixed}
use hft_framework.Types.{sell, close, OrderRequest}
use hft_framework.Conditional.State.{
  ConditionalOrder, CondOrders, stop_loss, cond_pending, TriggerResult, sent, retry_backoff,
}
use hft_framework.Conditional.Bounds.{may_trigger, or_no_bounds}
use hft_framework.Conditional.Ticks.{
  TriggerInfo, call_back, request_of, Committed, triggers_by, follow, extreme_after,
}
use hft_framework.Conditional.Filter.{OrderLaws, may_trigger_sound}

fixed_laws : OrderLaws fixed
fixed_laws = record {
  le_refl = λ a. ground arith;
  le_trans = λ a b c h k. ground arith;
  le_of_lt = λ a b h. ground arith;
  le_of_not_lt = λ a b h. ground arith;
  sub_mono = λ a b c h. ground (arith, -ℤ_parts a c, -ℤ_parts b c);
  add_mono = λ a b c h. ground (arith, +ℤ_parts a c, +ℤ_parts b c);
}

-- Sells five lots when the price falls to 3490.
abbrev stop : ConditionalOrder fixed
stop = record {
  id = 0;
  instrument_id = codes "rb2510";
  account_id = [];
  strategy_id = codes "ma";
  type = stop_loss;
  direction = sell;
  offset = close;
  trigger_price = pos 34_900_000;
  order_price = pos 0;
  trail_offset = pos 0;
  volume = pos 5;
  active = true;
  extreme_price = pos 0;
  group_id = 3;
  idempotency_key = codes "k1";
  status = cond_pending;
  created_at_ms = pos 0;
  triggered_at_ms = pos 0;
  cancelled_at_ms = pos 0;
  expire_at_ms = pos 0;
  reject_reason = [];
}

abbrev nothing : CondOrders fixed
nothing = record {
  orders = [];
  instrument_index = [];
  trigger_bounds = [];
  retry_not_before = [];
  retry_failures = [];
  next_id = 1;
  next_group_id = 4;
}

-- The stop as it is stored, with bounds that are to be rebuilt.
abbrev stored_stop : ConditionalOrder fixed
stored_stop = record stop { id = 1 }

abbrev marked : CondOrders fixed
marked = record nothing {
  orders = (1, stored_stop) ∷ [];
  instrument_index = (codes "rb2510", 1 ∷ []) ∷ [];
  trigger_bounds =
      (
        codes "rb2510",
        record {
          dirty = true;
          has_trailing = false;
          min_stop_buy = pos 0;
          max_stop_sell = pos 0;
          max_take_buy = pos 0;
          min_take_sell = pos 0;
        },
      )
      ∷ [];
  next_id = 2;
}

fires : triggers_by fixed stop_loss sell (pos 34_900_000) (pos 0) (pos 0) (pos 34_890_000) ≡ true
unfolding triggers_by ◌+ℤ◌
fires = refl

may_trigger_sound_example : (may_trigger fixed (codes "rb2510") (pos 34_890_000) marked).0 ≡ true
unfolding find text_eq follow extreme_after
may_trigger_sound_example =
    may_trigger_sound fixed fixed_laws (codes "rb2510") marked (1 ∷ [])
      (or_no_bounds fixed (find (codes "rb2510") marked.trigger_bounds)) 1 stored_stop
      (pos 34_890_000) refl refl (inl refl) refl refl fires

-- Two orders of one group trigger together, and every request is sent.
abbrev infos : List (TriggerInfo fixed)
infos =
    record { id = 1; req = request_of fixed (pos 34_890_000) stored_stop; group_id = 3 }
    ∷ record { id = 2; req = request_of fixed (pos 34_890_000) stored_stop; group_id = 3 }
    ∷ []

abbrev always_sent : OrderRequest ℤ → ℕ → TriggerResult × ℕ
always_sent req n = (sent, n + 1)

sends_one : (call_back fixed always_sent infos [] 0).1 ≡ 1
unfolding call_back
sends_one = refl

abbrev committed : Committed fixed
committed = record { state = marked; triggered_group_ids = []; changed_instruments = [] }

seventh_delay : retry_backoff 7 ≡ 1600
unfolding retry_backoff
seventh_delay = refl
