-- ===== src/Algo/Methods.antt =====
-- src/order/algo_order_manager.h and .cpp: iceberg and TWAP orders. The function that sends a child
-- order has a state of its own and returns the reference of the child, or fails.
use hft_framework.Common.{
  ℕ, ◌+◌, ◌*◌, ◌-◌, ◌/◌, ◌%◌, ◌^◌, leb, ◌==◌, ℤ, pos, pos_part, ◌+ℤ◌, ◌-ℤ◌, ltb_ℤ, leb_ℤ, max_ℤ,
  min_ℤ, Bool, true, false, ◌&&◌, ◌||◌, Option, none, some, List, [], ◌∷◌, ◌++◌, if◌then◌else◌,
  Text, text_eq, safe_copy, codes,
}
use hft_framework.Types.{Direction, Offset, limit, OrderRequest}

pub data AlgoOrderType : Type 0 where
  iceberg twap : AlgoOrderType

pub data AlgoOrderStatus : Type 0 where
  active paused completed cancelled error : AlgoOrderStatus

abbrev pub is_running : AlgoOrderStatus → Bool
is_running active = true
is_running _ = false

abbrev pub listed : Text → List Text → Bool
listed r [] = false
listed r (s ∷ ss) = text_eq s r || listed r ss

module _ (P : Type 0) where
  -- Time stamps are nanoseconds of the steady clock.
  pub record AlgoOrder : Type 0 where
    pub id : ℕ
    pub type : AlgoOrderType
    pub instrument_id : Text
    pub account_id : Text
    pub direction : Direction
    pub offset : Offset
    pub price : P
    pub total_volume : ℤ
    pub filled_volume : ℤ
    pub display_volume : ℤ
    pub num_slices : ℤ
    pub duration_seconds : ℤ
    pub status : AlgoOrderStatus
    pub child_order_refs : List Text
    pub created_at : ℕ
    pub last_slice_at : ℕ
    pub slices_sent : ℤ

  pub record AlgoOrders : Type 0 where
    pub orders : List AlgoOrder
    pub next_id : ℕ

module _ {P : Type 0} where
  abbrev pub child_request : Text → ℤ → AlgoOrder P → OrderRequest P
  child_request strategy volume o = record {
    instrument_id = safe_copy o.instrument_id 24;
    exchange_id = [];
    account_id = safe_copy o.account_id 16;
    strategy_id = safe_copy strategy 32;
    direction = o.direction;
    price_type = limit;
    offset = o.offset;
    price = o.price;
    volume = volume;
  }

  abbrev pub remaining : AlgoOrder P → ℤ
  remaining o = o.total_volume -ℤ o.filled_volume

  unfoldable pub iceberg_slice : AlgoOrder P → ℤ
  iceberg_slice o = min_ℤ o.display_volume (remaining o)

  -- `remaining / remaining_slices`, which are positive here.
  unfoldable pub twap_slice : AlgoOrder P → ℤ
  twap_slice o =
      let part = pos (pos_part (remaining o) / pos_part (o.num_slices -ℤ o.slices_sent)) in
      let at_least_one = if leb_ℤ part (pos 0) then pos 1 else part in
      if ltb_ℤ (remaining o) at_least_one then remaining o else at_least_one

  -- The order after its child was sent, or was not.
  abbrev pub sent_iceberg : ℕ → AlgoOrder P → Option Text → AlgoOrder P
  sent_iceberg now o none = record o { status = error }
  sent_iceberg now o (some r) = record o {
    child_order_refs = o.child_order_refs ++ r ∷ [];
    last_slice_at = now;
  }

  abbrev pub sent_twap : ℕ → AlgoOrder P → Option Text → AlgoOrder P
  sent_twap now o none = record o { status = error }
  sent_twap now o (some r) = record o {
    child_order_refs = o.child_order_refs ++ r ∷ [];
    slices_sent = o.slices_sent +ℤ pos 1;
    last_slice_at = now;
  }

  -- `elapsed >= interval_ms`; the divisor is at least 1.
  abbrev pub is_due : ℕ → AlgoOrder P → Bool
  is_due now o =
      leb (pos_part o.duration_seconds * 1000 / pos_part o.num_slices)
        ((now - o.last_slice_at) / 1_000_000)

  module _ {S : Type 0} (send_fn : OrderRequest P → S → Option Text × S) where
    unfoldable pub send_next_iceberg_slice : ℕ → AlgoOrder P → S → AlgoOrder P × S
    send_next_iceberg_slice now o s =
        let sent = send_fn (child_request (codes "algo_iceberg") (iceberg_slice o) o) s in
        if leb_ℤ (remaining o) (pos 0)
        then (record o { status = completed }, s)
        else (sent_iceberg now o sent.0, sent.1)

    unfoldable pub send_next_twap_slice : ℕ → AlgoOrder P → S → AlgoOrder P × S
    send_next_twap_slice now o s =
        let sent = send_fn (child_request (codes "algo_twap") (twap_slice o) o) s in
        if leb_ℤ (remaining o) (pos 0)
        then (record o { status = completed }, s)
        else if leb_ℤ (o.num_slices -ℤ o.slices_sent) (pos 0)
        then (o, s)
        else (sent_twap now o sent.0, sent.1)

    abbrev new_id : ℕ → ℕ
    new_id n = (n + 1) % 2 ^ 32

    -- The arguments that both creations share.
    pub record Target : Type 0 where
      pub instrument : Text
      pub account_id : Text
      pub dir : Direction
      pub offset : Offset
      pub price : P
      pub total_volume : ℤ

    unfoldable pub new_order : AlgoOrderType → ℕ → ℕ → Target → AlgoOrder P
    new_order type id now t = record {
      id = id;
      type = type;
      instrument_id = safe_copy t.instrument 24;
      account_id = safe_copy t.account_id 16;
      direction = t.dir;
      offset = t.offset;
      price = t.price;
      total_volume = t.total_volume;
      filled_volume = pos 0;
      display_volume = pos 1;
      num_slices = pos 1;
      duration_seconds = pos 60;
      status = active;
      child_order_refs = [];
      created_at = now;
      last_slice_at = now;
      slices_sent = pos 0;
    }

    unfoldable pub create_iceberg : ℕ → Target → ℤ → AlgoOrders P → S → ℕ × (AlgoOrders P × S)
    create_iceberg now t display_volume m s =
        let o = record (new_order iceberg m.next_id now t) {
          display_volume = max_ℤ (pos 1) display_volume;
        } in
        let done = send_next_iceberg_slice now o s in
        (
          m.next_id,
          (record { orders = m.orders ++ done.0 ∷ []; next_id = new_id m.next_id }, done.1),
        )

    unfoldable pub create_twap : ℕ → Target → ℤ → ℤ → AlgoOrders P → S → ℕ × (AlgoOrders P × S)
    create_twap now t num_slices duration_seconds m s =
        let o = record (new_order twap m.next_id now t) {
          num_slices = max_ℤ (pos 1) num_slices;
          duration_seconds = max_ℤ (pos 1) duration_seconds;
        } in
        let done = send_next_twap_slice now o s in
        (
          m.next_id,
          (record { orders = m.orders ++ done.0 ∷ []; next_id = new_id m.next_id }, done.1),
        )

    -- A running order that is not filled yet, by its kind.
    unfoldable pub tick_kind : AlgoOrderType → ℕ → AlgoOrder P → S → AlgoOrder P × S
    tick_kind iceberg now o s = (o, s)
    tick_kind twap now o s =
        let sent = send_next_twap_slice now o s in
        if leb_ℤ o.num_slices o.slices_sent then (o, s) else if is_due now o then sent else (o, s)

    unfoldable pub tick_one : ℕ → AlgoOrder P → S → AlgoOrder P × S
    tick_one now o s =
        let more = tick_kind o.type now o s in
        if is_running o.status
        then if leb_ℤ o.total_volume o.filled_volume
          then (record o { status = completed }, s)
          else more
        else (o, s)

    unfoldable pub tick_all : ℕ → List (AlgoOrder P) → S → List (AlgoOrder P) × S
    tick_all now [] s = ([], s)
    tick_all now (o ∷ os) s =
        let first = tick_one now o s in
        let rest = tick_all now os first.1 in (first.0 ∷ rest.0, rest.1)

    unfoldable pub tick : ℕ → AlgoOrders P → S → AlgoOrders P × S
    tick now m s = let done = tick_all now m.orders s in (record m { orders = done.0 }, done.1)

  unfoldable pub cancel_first : ℕ → List (AlgoOrder P) → List (AlgoOrder P)
  cancel_first id [] = []
  cancel_first id (o ∷ os) =
      let rest = cancel_first id os in
      if o.id == id && is_running o.status then record o { status = cancelled } ∷ os else o ∷ rest

  unfoldable pub cancel : ℕ → AlgoOrders P → AlgoOrders P
  cancel id m = record m { orders = cancel_first id m.orders }

  -- An order that a fill of `volume` belongs to.
  unfoldable pub filled : ℤ → AlgoOrder P → AlgoOrder P
  filled volume o =
      let total = o.filled_volume +ℤ volume in
      record o {
        filled_volume = total;
        status = if leb_ℤ o.total_volume total then completed else o.status;
      }

  unfoldable pub fill_first : Text → ℤ → List (AlgoOrder P) → List (AlgoOrder P)
  fill_first order_ref volume [] = []
  fill_first order_ref volume (o ∷ os) =
      let rest = fill_first order_ref volume os in
      if is_running o.status && listed order_ref o.child_order_refs
      then filled volume o ∷ os
      else o ∷ rest

  unfoldable pub on_trade : Text → ℤ → AlgoOrders P → AlgoOrders P
  on_trade order_ref volume m = record m { orders = fill_first order_ref volume m.orders }
