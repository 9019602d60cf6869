-- ===== src/Orders/Fills.antt =====
-- How `src/order/order_manager.cpp` counts fills: replayed trades, the bound on the traded volume, and
-- the statuses that no later report undoes.
use hft_framework.Common.{
  ◌<◌, ◌≡◌, ◌⊎◌, ap, ◌↔◌, eq_of_parts, inl, inr, ℤ, ◌≤ℤ◌, ◌+ℤ◌, true, false, not, ◌&&◌, none, some,
  List, [], ◌∷◌, arith, if◌then◌else◌, Option-cases, length, Text, Text-Eq, text_eq, text_eq_iff,
  is_empty, safe_copy, find, find-put,
}
use hft_framework.Types.{all_traded, cancelled, error, OrderInfo, TradeInfo}
use hft_framework.Orders.Book.{Orders, is_terminal}
use hft_framework.Orders.Methods.{
  member, note_trade, fill, apply_trade, on_trade_return, merge_report, on_order_return,
}

note_trade_twice :
    (id : Text) (seen : List Text) {seen' : List Text}
    → is_empty id ≡ false
    → length seen < 100000
    → note_trade id seen ≡ some seen'
    → note_trade id seen' ≡ none
unfolding note_trade
note_trade_twice id seen named room e =
    ground (arith, text_eq_iff (safe_copy id 24) (safe_copy id 24))

-- With 100000 identifiers noted, a new one is noted, and its replay empties the list and is new again.
pub note_trade_forgets :
    (id : Text) (seen : List Text)
    → is_empty id ≡ false
    → length seen ≡ 100000
    → member (safe_copy id 24) seen ≡ false
    → (note_trade id seen ≡ some (safe_copy id 24 ∷ seen))
      × (note_trade id (safe_copy id 24 ∷ seen) ≡ some (safe_copy id 24 ∷ []))
unfolding note_trade
note_trade_forgets id seen named full new = ground arith

module _ {P : Type 0} where
  seen_trade_ids-apply_trade :
      (trade : TradeInfo P) (m : Orders P) → (apply_trade trade m).seen_trade_ids ≡ m.seen_trade_ids
  unfolding apply_trade
  seen_trade_ids-apply_trade trade m = ground arith

  on_trade_return_seen :
      (trade : TradeInfo P) (m : Orders P)
      → note_trade trade.trade_id m.seen_trade_ids ≡ none
      → on_trade_return trade m ≡ m
  unfolding on_trade_return
  on_trade_return_seen trade m e = rw (e, on_trade_return)

  on_trade_return_new :
      (trade : TradeInfo P) (m : Orders P) {seen : List Text}
      → note_trade trade.trade_id m.seen_trade_ids ≡ some seen
      → on_trade_return trade m ≡ apply_trade trade (record m { seen_trade_ids = seen })
  unfolding on_trade_return
  on_trade_return_new trade m e = rw (e, on_trade_return)

  -- While fewer than 100000 identifiers are noted, a trade with an identifier that is replayed at
  -- once changes nothing.
  pub on_trade_return_twice :
      (trade : TradeInfo P) (m : Orders P)
      → is_empty trade.trade_id ≡ false
      → length m.seen_trade_ids < 100000
      → on_trade_return trade (on_trade_return trade m) ≡ on_trade_return trade m
  on_trade_return_twice trade m named room =
      elim (Option-cases (note_trade trade.trade_id m.seen_trade_ids)) [
        | inl e ↦ ap (on_trade_return trade) (on_trade_return_seen trade m e)
        | inr (seen, e) ↦
            let m' = on_trade_return trade m in
            let ids : m'.seen_trade_ids ≡ seen =
              rw (on_trade_return_new trade m e) (seen_trade_ids-apply_trade trade _) in
            on_trade_return_seen trade m'
              (rw ids (note_trade_twice trade.trade_id m.seen_trade_ids named room e))
      ]

  -- A fill never takes the traded volume past the total, and an order that is neither cancelled nor
  -- failed is then all traded exactly when the two are equal.
  pub fill_bounds :
      (cur : OrderInfo P) (volume : ℤ)
      → let o = fill cur volume in
        (o.traded_volume ≤ℤ cur.total_volume)
        × ((cur.status ≡ cancelled)
            ⊎ (cur.status ≡ error)
            ⊎ ((o.status ≡ all_traded) ↔ (o.traded_volume ≡ cur.total_volume)))
  unfolding fill
  fill_bounds cur volume =
      ground (arith, eq_of_parts (cur.traded_volume +ℤ volume) cur.total_volume)

  -- What a report of its reference makes of a stored order.
  abbrev pub reported : OrderInfo P → OrderInfo P → OrderInfo P
  reported cur order =
      if is_terminal cur.status && not (is_terminal order.status)
      then cur
      else merge_report cur order

  pub find-on_order_return :
      (order cur : OrderInfo P) (r : Text) (m : Orders P)
      → find r m.orders ≡ some cur
      → find r (on_order_return order m).orders
        ≡ some (if text_eq (safe_copy order.order_ref 16) r then reported cur order else cur)
  unfolding on_order_return
  find-on_order_return order cur r m e =
      let key = safe_copy order.order_ref 16 in
      elim (Option-cases (find key m.orders)) [
        | inl absent ↦ ground (arith, text_eq_iff key r, find-put key r order m.orders)
        | inr (old, found) ↦
            ground (arith, text_eq_iff key r, find-put key r (merge_report old order) m.orders)
      ]

  -- No report takes a stored order out of a terminal status.
  pub on_order_return-terminal :
      (order cur : OrderInfo P) (r : Text) (m : Orders P)
      → find r m.orders ≡ some cur
      → is_terminal cur.status ≡ true
      → (o : OrderInfo P) × (find r (on_order_return order m).orders ≡ some o)
        × (is_terminal o.status ≡ true)
  unfolding merge_report
  on_order_return-terminal order cur r m e h = (
    if text_eq (safe_copy order.order_ref 16) r then reported cur order else cur,
    find-on_order_return order cur r m e,
    ground arith,
  )
