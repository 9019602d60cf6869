-- ===== src/Conditional/Methods.antt =====
-- src/order/conditional_order_manager.cpp: the operations that add and take away orders. What the
-- source writes into an order just before it erases it is not kept anywhere.
use hft_framework.Common.{
  ℕ, ◌+◌, ◌%◌, ◌^◌, ltb, ◌==◌, ℤ, pos, ◌+ℤ◌, Bool, true, false, not, ◌&&◌, ◌||◌, Option, none, some,
  List, [], ◌∷◌, ◌++◌, if◌then◌else◌, Text, Text-Eq, Nat-Eq, text_eq, is_empty, Dict, find, put,
  erase, take,
}
use hft_framework.Double.{Double, zero_f}
use hft_framework.Types.{Direction, dir_eq, is_open}
use hft_framework.Conditional.State.{trailing_stop, ConditionalOrder, CondOrders, cond_pending}
use hft_framework.Conditional.Bounds.{
  instrument_key, clear_retry_state, remove_from_index, update_bounds_on_insert, mark_bounds_dirty,
}

-- `uint32_t` arithmetic
abbrev pub next_u32 : ℕ → ℕ
next_u32 n = (n + 1) % 2 ^ 32

abbrev pub larger : ℕ → ℕ → ℕ
larger a b = if ltb a b then b else a

module _ (d : Double) where
  open d use {F, le}

  abbrev ids_or_none : Option (List ℕ) → List ℕ
  ids_or_none none = []
  ids_or_none (some ids) = ids

  unfoldable pub insert : ConditionalOrder d → CondOrders d → CondOrders d
  insert o m =
      let key = instrument_key o.instrument_id in
      let stored = record m {
        orders = put o.id o m.orders;
        instrument_index =
            put key (ids_or_none (find key m.instrument_index) ++ o.id ∷ []) m.instrument_index;
      } in
      clear_retry_state d o.id (update_bounds_on_insert d o stored)

  unfoldable pub has_key : Text → Dict ℕ (ConditionalOrder d) → Bool
  has_key key [] = false
  has_key key ((id, o) ∷ os) = text_eq o.idempotency_key key || has_key key os

  -- The stored copy of an order that is added.
  unfoldable pub accepted : ℤ → ConditionalOrder d → CondOrders d → ConditionalOrder d
  accepted wall_ms order m = record order {
    id = m.next_id;
    active = true;
    status = cond_pending;
    created_at_ms = wall_ms;
    extreme_price = elim order.type [
      | trailing_stop ↦ if le order.extreme_price (zero_f d) then zero_f d else order.extreme_price
      | _ ↦ order.extreme_price
    ];
  }

  unfoldable pub add : ℤ → ConditionalOrder d → CondOrders d → ℕ × CondOrders d
  unfolding has_key
  add wall_ms order m =
      if not (is_empty order.idempotency_key) && has_key order.idempotency_key m.orders
      then (0, m)
      else (
        m.next_id,
        insert (accepted wall_ms order m) (record m { next_id = next_u32 m.next_id }),
      )

  unfoldable pub allocate_group_id : CondOrders d → ℕ × CondOrders d
  allocate_group_id m = (m.next_group_id, record m { next_group_id = next_u32 m.next_group_id })

  unfoldable pub restore : ConditionalOrder d → CondOrders d → CondOrders d
  restore order m =
      let m' = insert (record order { active = true }) m in
      record m' {
        next_id = larger m'.next_id (next_u32 order.id);
        next_group_id =
            if order.group_id == 0
            then m'.next_group_id
            else larger m'.next_group_id (next_u32 order.group_id);
      }

  -- The part of `cancel` under the test that the order is stored.
  unfoldable pub drop_order : ℕ → ConditionalOrder d → CondOrders d → CondOrders d
  drop_order id o m =
      let key = instrument_key o.instrument_id in
      let m' = remove_from_index d key id (mark_bounds_dirty d key m) in
      record m' { orders = erase id m'.orders }

  unfoldable pub cancel : ℕ → CondOrders d → CondOrders d
  cancel id m =
      clear_retry_state d id (elim (find id m.orders) [ none ↦ m | some o ↦ drop_order id o m ])

  -- The loops over the stored orders erase while they go; the ones after an order do not depend
  -- on it, so each is cancelled in its turn.
  unfoldable pub cancel_matching :
      (ConditionalOrder d → Bool) → Dict ℕ (ConditionalOrder d) → CondOrders d → CondOrders d
  cancel_matching p [] m = m
  cancel_matching p ((id, o) ∷ os) m = cancel_matching p os (if p o then cancel id m else m)

  unfoldable pub cancel_group : ℕ → CondOrders d → CondOrders d
  cancel_group group_id m =
      if group_id == 0 then m else cancel_matching (λ o. o.group_id == group_id) m.orders m

  -- `cancel_by_strategy` collects the identifiers first, and takes an order from the index before
  -- it marks the bounds.
  unfoldable pub drop_matching :
      (ConditionalOrder d → Bool) → Dict ℕ (ConditionalOrder d) → CondOrders d → ℕ × CondOrders d
  drop_matching p [] m = (0, m)
  drop_matching p ((id, o) ∷ os) m =
      let key = instrument_key o.instrument_id in
      let dropped =
        clear_retry_state d id (mark_bounds_dirty d key (remove_from_index d key id m)) in
      let after = drop_matching p os (record dropped { orders = erase id dropped.orders }) in
      let skipped = drop_matching p os m in if p o then (after.0 + 1, after.1) else skipped

  unfoldable pub cancel_by_strategy : Text → CondOrders d → ℕ × CondOrders d
  cancel_by_strategy strategy_id m =
      drop_matching (λ o. text_eq strategy_id o.strategy_id) m.orders m

  unfoldable pub cancel_all : CondOrders d → CondOrders d
  cancel_all m = record m {
    orders = [];
    instrument_index = [];
    trigger_bounds = [];
    retry_not_before = [];
    retry_failures = [];
  }

  -- `get_pending_open_volume`, over the stored orders.
  unfoldable pub pending_open_among : Text → Direction → Dict ℕ (ConditionalOrder d) → ℤ
  pending_open_among instrument dir [] = pos 0
  pending_open_among instrument dir ((id, o) ∷ os) =
      let rest = pending_open_among instrument dir os in
      if is_open o.offset
        && dir_eq o.direction dir
        && text_eq (take 24 o.instrument_id) (take 24 instrument)
      then o.volume +ℤ rest
      else rest
