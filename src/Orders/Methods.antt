-- ===== src/Orders/Methods.antt =====
-- src/order/order_manager.cpp: the operations of `OrderManager`. The mutex makes each of them one step,
-- the log lines are left out, and a `char[N]` field keeps its first N - 1 bytes.
use hft_framework.Common.{
  ℕ, zero, suc, ◌+◌, ◌/◌, ◌%◌, ℤ, pos, negsuc, ◌+ℤ◌, ltb_ℤ, leb_ℤ, eq_ℤ, max_ℤ, Bool, true, false,
  not, ◌&&◌, ◌||◌, Option, none, some, List, [], ◌∷◌, ◌++◌, ltb, length, if◌then◌else◌, Text,
  text_eq, Text-Eq, is_empty, safe_copy, Dict, find, put, erase, keep,
}
use hft_framework.Types.{
  Direction, Offset, close, OrderStatus, pending, part_traded, all_traded, cancelled, error, dir_eq,
  opposite, is_open, offset_eq, OrderRequest, OrderInfo, TradeInfo,
}
use hft_framework.Orders.Book.{
  Orders, is_active_order, is_terminal, remaining_of, counted, apply_pending_open_delta,
  rebuild_pending_open,
}

-- `std::to_chars` of a number below 10 ^ fuel.
unfoldable pub decimal : ℕ → ℕ → Text
decimal zero n = []
decimal (suc fuel) n = elim (ltb n 10) [
  | true ↦ (48 + n) ∷ []
  | false ↦ decimal fuel (n / 10) ++ (48 + n % 10) ∷ []
]

-- `write_order_ref`: an `int` has at most 10 digits and a sign, so it fits the 15 bytes.
unfoldable pub write_order_ref : ℤ → Text
unfolding decimal
write_order_ref (pos n) = decimal 10 n
write_order_ref (negsuc n) = 45 ∷ decimal 10 (suc n)

-- A copy into a field whose source is not empty, the field's old value otherwise.
abbrev pub copy_if_set : Text → ℕ → Text → Text
copy_if_set src n old = if is_empty src then old else safe_copy src n

-- A field that is empty takes the text of the stored order.
abbrev pub fill_if_empty : Text → ℕ → Text → Text
fill_if_empty own n stored =
    if is_empty own && not (is_empty stored) then safe_copy stored n else own

abbrev pub member : Text → List Text → Bool
member s [] = false
member s (t ∷ ts) = text_eq t s || member s ts

-- Trade deduplication: `none` for a trade that was seen before.
unfoldable pub note_trade : Text → List Text → Option (List Text)
note_trade trade_id seen =
    let kept = if ltb 100000 (length seen) then [] else seen in
    let tid = safe_copy trade_id 24 in
    if is_empty trade_id then some seen else if member tid kept then none else some (tid ∷ kept)

-- The status after a fill that leads to `s`: a cancelled or failed order keeps its own.
abbrev pub filled_status : OrderStatus → OrderStatus → OrderStatus
filled_status cancelled s = cancelled
filled_status error s = error
filled_status _ s = s

module _ {P : Type 0} where
  unfoldable pub fresh : Orders P
  fresh = record {
    orders = [];
    order_ref = pos 0;
    front_id = pos 0;
    session_id = pos 0;
    pending_open = [];
    seen_trade_ids = [];
  }

  -- The session differs from the one that `init` was told last.
  unfoldable pub reconnected : ℤ → ℤ → Orders P → Bool
  reconnected front session m =
      not (eq_ℤ m.front_id (pos 0))
      && (not (eq_ℤ m.front_id front) || not (eq_ℤ m.session_id session))

  -- `init`: a new session drops the active orders. The counter is not touched.
  unfoldable pub init : ℤ → ℤ → ℤ → Orders P → Orders P
  init front session max_ref m =
      let kept =
        if reconnected front session m
        then keep (λ o. not (is_active_order o)) m.orders
        else m.orders in
      record m { orders = kept; order_ref = max_ref; front_id = front; session_id = session }

  unfoldable pub allocate_order_ref : Orders P → Text × Orders P
  unfolding write_order_ref
  allocate_order_ref m =
      let ref = m.order_ref +ℤ pos 1 in (write_order_ref ref, record m { order_ref = ref })

  -- The order that `create_order` stores, under the reference `ref`.
  unfoldable pub created_order : OrderRequest P → Text → Orders P → OrderInfo P
  created_order req ref m = record {
    instrument_id = safe_copy req.instrument_id 24;
    exchange_id = safe_copy req.exchange_id 8;
    account_id = safe_copy req.account_id 16;
    order_ref = ref;
    strategy_id = safe_copy req.strategy_id 32;
    order_sys_id = [];
    direction = req.direction;
    offset = req.offset;
    price = req.price;
    total_volume = req.volume;
    traded_volume = pos 0;
    status = pending;
    front_id = m.front_id;
    session_id = m.session_id;
    status_msg = [];
    insert_time = [];
  }

  unfoldable pub create_order : OrderRequest P → Orders P → OrderInfo P × Orders P
  create_order req m =
      let ref = (allocate_order_ref m).0 in
      let info = created_order req ref m in
      (
        info,
        record m {
          order_ref = m.order_ref +ℤ pos 1;
          orders = put (safe_copy ref 16) info m.orders;
          pending_open = apply_pending_open_delta none (some info) m.pending_open;
        },
      )

  -- The stored order after a report that is accepted.
  unfoldable pub merge_report : OrderInfo P → OrderInfo P → OrderInfo P
  merge_report cur order = record cur {
    status = order.status;
    exchange_id = safe_copy order.exchange_id 8;
    order_sys_id = safe_copy order.order_sys_id 24;
    traded_volume = max_ℤ cur.traded_volume order.traded_volume;
    total_volume = order.total_volume;
    front_id = order.front_id;
    session_id = order.session_id;
    status_msg = safe_copy order.status_msg 80;
    insert_time = safe_copy order.insert_time 12;
    account_id = copy_if_set order.account_id 16 cur.account_id;
    strategy_id = copy_if_set order.strategy_id 32 cur.strategy_id;
  }

  unfoldable pub on_order_return : OrderInfo P → Orders P → Orders P
  on_order_return order m = elim (find key m.orders) [
    | some cur ↦
        let merged = merge_report cur order in
        if is_terminal cur.status && not (is_terminal order.status) then m else record m {
          orders = put key merged m.orders;
          pending_open = apply_pending_open_delta (some cur) (some merged) m.pending_open;
        }
    | none ↦
        if eq_ℤ order.front_id m.front_id && eq_ℤ order.session_id m.session_id
        then record m {
          orders = put key order m.orders;
          pending_open = apply_pending_open_delta none (some order) m.pending_open;
        }
        else m
  ]
    where
      key : Text
      key = safe_copy order.order_ref 16

  -- The stored order after a fill of `volume`.
  unfoldable pub fill : OrderInfo P → ℤ → OrderInfo P
  fill cur volume =
      let sum = cur.traded_volume +ℤ volume in
      let traded = if ltb_ℤ cur.total_volume sum then cur.total_volume else sum in
      let reached = if leb_ℤ cur.total_volume traded then all_traded else part_traded in
      record cur { traded_volume = traded; status = filled_status cur.status reached }

  -- What `on_trade_return` does once the trade is known to be new.
  unfoldable pub apply_trade : TradeInfo P → Orders P → Orders P
  apply_trade trade m = elim (find key m.orders) [
    | none ↦ m
    | some cur ↦
        let filled = fill cur trade.volume in
        if text_eq cur.instrument_id trade.instrument_id
        then record m {
          orders = put key filled m.orders;
          pending_open = apply_pending_open_delta (some cur) (some filled) m.pending_open;
        }
        else m
  ]
    where
      key : Text
      key = safe_copy trade.order_ref 16

  unfoldable pub on_trade_return : TradeInfo P → Orders P → Orders P
  on_trade_return trade m = elim (note_trade trade.trade_id m.seen_trade_ids) [
    | none ↦ m
    | some seen ↦ apply_trade trade (record m { seen_trade_ids = seen })
  ]

  -- An order of the exchange's snapshot keeps the identifiers that were known for its reference.
  unfoldable pub inherit : Option (OrderInfo P) → OrderInfo P → OrderInfo P
  inherit none order = order
  inherit (some old) order = record order {
    strategy_id = fill_if_empty order.strategy_id 32 old.strategy_id;
    account_id = fill_if_empty order.account_id 16 old.account_id;
  }

  unfoldable pub insert_snapshot :
      Dict Text (OrderInfo P)
      → List (OrderInfo P)
      → Dict Text (OrderInfo P)
      → Dict Text (OrderInfo P)
  unfolding inherit
  insert_snapshot existing [] acc = acc
  insert_snapshot existing (o ∷ os) acc =
      let key = safe_copy o.order_ref 16 in
      insert_snapshot existing os (put key (inherit (find key existing) o) acc)

  unfoldable pub replace_active_orders : List (OrderInfo P) → Orders P → Orders P
  unfolding insert_snapshot
  replace_active_orders active m =
      let kept = keep (λ o. not (is_active_order o)) m.orders in
      let orders' = insert_snapshot m.orders active kept in
      record m { orders = orders'; pending_open = rebuild_pending_open orders' }

  unfoldable pub remove_order : Text → Orders P → Orders P
  remove_order ref m = elim (find (safe_copy ref 16) m.orders) [
    | none ↦ m
    | some cur ↦ record m {
      orders = erase (safe_copy ref 16) m.orders;
      pending_open = apply_pending_open_delta (some cur) none m.pending_open;
    }
  ]

  unfoldable pub get_order_copy : Text → Orders P → Option (OrderInfo P)
  get_order_copy ref m = find (safe_copy ref 16) m.orders

  -- `none` is the `false` of a reference that is not known.
  unfoldable pub enrich_order_info : OrderInfo P → Orders P → Option (OrderInfo P)
  unfolding inherit
  enrich_order_info order m = elim (find (safe_copy order.order_ref 16) m.orders) [
    | none ↦ none
    | some cur ↦ some (inherit (some cur) order)
  ]

  unfoldable pub enrich_trade_info : TradeInfo P → Orders P → Option (TradeInfo P)
  enrich_trade_info trade m = elim (find (safe_copy trade.order_ref 16) m.orders) [
    | none ↦ none
    | some cur ↦ some (record trade {
      strategy_id = fill_if_empty trade.strategy_id 32 cur.strategy_id;
      account_id = fill_if_empty trade.account_id 16 cur.account_id;
    })
  ]

  active_among : Dict Text (OrderInfo P) → List (OrderInfo P)
  active_among [] = []
  active_among ((k, o) ∷ m) =
      let rest = active_among m in if is_active_order o then o ∷ rest else rest

  unfoldable pub get_active_orders : Orders P → List (OrderInfo P)
  unfolding active_among
  get_active_orders m = active_among m.orders

  unfoldable pub get_pending_open_volume : Text → Direction → Orders P → ℕ
  get_pending_open_volume instrument dir m =
      if is_empty instrument
      then 0
      else counted (record { instrument = safe_copy instrument 20; dir = dir }) m.pending_open

  -- What one order adds to `get_pending_close_volume`.
  unfoldable pub close_remaining_of : Text → Direction → Offset → OrderInfo P → ℕ
  close_remaining_of instrument pos_dir offset o =
      if not (is_active_order o) || is_open o.offset
      then 0
      else if not (text_eq o.instrument_id instrument)
          || not (dir_eq o.direction (opposite pos_dir))
      then 0
      else if offset_eq offset close || offset_eq o.offset offset
      then remaining_of o
      else 0

  pending_close_among : (OrderInfo P → ℕ) → Dict Text (OrderInfo P) → ℕ
  pending_close_among f [] = 0
  pending_close_among f ((k, o) ∷ m) = f o + pending_close_among f m

  unfoldable pub get_pending_close_volume : Text → Direction → Offset → Orders P → ℕ
  unfolding pending_close_among
  get_pending_close_volume instrument pos_dir offset m =
      pending_close_among (close_remaining_of instrument pos_dir offset) m.orders
