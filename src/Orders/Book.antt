-- ===== src/Orders/Book.antt =====
-- src/order/order_manager.h and the first part of src/order/order_manager.cpp: the state of the order
-- manager, the volume that an order still has to open, and the counter kept of those volumes.
use hft_framework.Common.{
  ℕ, ◌+◌, ◌-◌, ◌≡◌, ◌↔◌, ℤ, pos, pos_part, ◌-ℤ◌, max_ℤ, Bool, true, false, ◌&&◌, Option, none, some,
  List, [], ◌∷◌, arith, ltb, leb, if◌then◌else◌, Eq, Text, text_eq, text_eq_iff, safe_copy, Dict,
  find, put, erase, weight_of,
}
use hft_framework.Types.{
  Direction, OrderStatus, pending, part_traded, all_traded, cancelled, error, dir_eq, dir_eq_iff,
  is_open, OrderInfo,
}

-- `PendingOpenKey`: an `InstrumentKey` (the first 19 bytes of the name) and a direction.
pub record PendingKey : Type 0 where
  pub instrument : Text
  pub dir : Direction

unfoldable pub key_eq : PendingKey → PendingKey → Bool
key_eq a b = dir_eq a.dir b.dir && text_eq a.instrument b.instrument

pub key_eq_iff : (a b : PendingKey) → (key_eq a b ≡ true) ↔ (a ≡ b)
unfolding key_eq
key_eq_iff a b = ground (arith, dir_eq_iff a.dir b.dir, text_eq_iff a.instrument b.instrument)

instance abbrev pub PendingKey-Eq : Eq PendingKey
PendingKey-Eq = record { beq = key_eq; beq_iff = key_eq_iff }

-- The counter: only positive `int`s are ever stored, so they are numbers.
abbrev pub Counter : Type 0
Counter = Dict PendingKey ℕ

pub record Orders (P : Type 0) : Type 0 where
  pub orders : Dict Text (OrderInfo P)
  pub order_ref : ℤ
  pub front_id : ℤ
  pub session_id : ℤ
  pub pending_open : Counter
  pub seen_trade_ids : List Text

abbrev pub is_active : OrderStatus → Bool
is_active pending = true
is_active part_traded = true
is_active _ = false

abbrev pub is_terminal : OrderStatus → Bool
is_terminal all_traded = true
is_terminal cancelled = true
is_terminal error = true
is_terminal _ = false

-- The counter's value at a key, 0 for a missing one.
unfoldable pub counted : PendingKey → Counter → ℕ
counted k t = weight_of (λ n. n) (find k t)

module _ {P : Type 0} where
  abbrev pub is_active_order : OrderInfo P → Bool
  is_active_order o = is_active o.status

  -- `max(0, total - traded)`
  unfoldable pub remaining_of : OrderInfo P → ℕ
  remaining_of o = pos_part (max_ℤ (pos 0) (o.total_volume -ℤ o.traded_volume))

  unfoldable pub open_remaining_of : OrderInfo P → ℕ
  open_remaining_of o =
      if is_open o.offset then (if is_active_order o then remaining_of o else 0) else 0

  unfoldable pub key_of : OrderInfo P → PendingKey
  key_of o = record { instrument = safe_copy o.instrument_id 20; dir = o.direction }

  -- The first half of `apply_pending_open_delta`, for a `before` that is not null.
  unfoldable pub uncount : OrderInfo P → Counter → Counter
  uncount o t =
      let rem = open_remaining_of o in
      let k = key_of o in
      let lowered : Counter = elim (find k t) [
        | none ↦ t
        | some n ↦ if leb n rem then erase k t else put k (n - rem) t
      ] in
      if ltb 0 rem then lowered else t

  -- The second half, for an `after` that is not null.
  unfoldable pub count_in : OrderInfo P → Counter → Counter
  unfolding counted
  count_in o t =
      let rem = open_remaining_of o in
      let k = key_of o in if ltb 0 rem then put k (counted k t + rem) t else t

  -- `none` is a null pointer: the order does not exist before, or after.
  unfoldable pub apply_pending_open_delta :
      Option (OrderInfo P) → Option (OrderInfo P) → Counter → Counter
  unfolding uncount count_in
  apply_pending_open_delta none none t = t
  apply_pending_open_delta (some b) none t = uncount b t
  apply_pending_open_delta none (some a) t = count_in a t
  apply_pending_open_delta (some b) (some a) t = count_in a (uncount b t)

  -- The loop of `rebuild_pending_open`, from the counter built so far.
  unfoldable pub rebuild_from : Counter → Dict Text (OrderInfo P) → Counter
  unfolding count_in
  rebuild_from t [] = t
  rebuild_from t ((r, o) ∷ m) = rebuild_from (count_in o t) m

  unfoldable pub rebuild_pending_open : Dict Text (OrderInfo P) → Counter
  unfolding rebuild_from
  rebuild_pending_open m = rebuild_from [] m
