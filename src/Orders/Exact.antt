-- ===== src/Orders/Exact.antt =====
-- The counter of `src/order/order_manager.cpp` against the orders: which operations keep the two equal.
use hft_framework.Common.{
  ◌≡◌, refl, inl, inr, ℤ, true, false, not, Option, none, some, List, [], ◌∷◌, arith, Option-cases,
  both_branches, Text, Text-Eq, safe_copy, Dict, find, put, keep, find-keep, only, Unique,
  Unique-put, Unique-erase, Unique-keep, weigh, weight_of,
}
use hft_framework.Types.{OrderRequest, OrderInfo, TradeInfo}
use hft_framework.Orders.Book.{
  Orders, PendingKey, is_active_order, open_remaining_of, counted, apply_pending_open_delta,
}
use hft_framework.Orders.Counting.{
  open_volume, IsExact, put-IsExact, put_fresh-IsExact, erase-IsExact, rebuild-IsExact,
}
use hft_framework.Orders.Methods.{
  fresh, reconnected, init, allocate_order_ref, create_order, merge_report, on_order_return,
  note_trade, fill, apply_trade, on_trade_return, insert_snapshot, replace_active_orders,
  remove_order,
}

module _ {P : Type 0} where
  -- Each reference names one order, and the counter is exact.
  pub record IsConsistent (m : Orders P) : Type 0 where
    pub unique : Unique m.orders
    pub exact : IsExact m.pending_open m.orders

  pub fresh-IsConsistent : IsConsistent fresh
  unfolding fresh counted find open_volume weigh
  fresh-IsConsistent = record { unique = tt; exact = λ k. refl }

  -- The reference that the next `create_order` takes.
  abbrev pub next_ref : Orders P → Text
  next_ref m = safe_copy (allocate_order_ref m).0 16

  pub create_order-IsConsistent :
      (req : OrderRequest P) (m : Orders P)
      → weight_of open_remaining_of (find (next_ref m) m.orders) ≡ 0
      → IsConsistent m
      → IsConsistent (create_order req m).1
  unfolding create_order
  create_order-IsConsistent req m idle c =
      let info = (create_order req m).0 in
      record {
        unique = Unique-put (next_ref m) info m.orders c.unique;
        exact = put_fresh-IsExact (next_ref m) info m.pending_open m.orders idle c.exact;
      }

  -- Storing what `find` found, changed, and accounting for it.
  store-IsConsistent :
      (r : Text) (a : OrderInfo P) (m : Orders P) (before : Option (OrderInfo P))
      → find r m.orders ≡ before
      → IsConsistent m
      → IsConsistent (record m {
        orders = put r a m.orders;
        pending_open = apply_pending_open_delta before (some a) m.pending_open;
      })
  store-IsConsistent r a m before e c = record {
    unique = Unique-put r a m.orders c.unique;
    exact = rw (← e) (put-IsExact r a m.pending_open m.orders c.exact);
  }

  pub on_order_return-IsConsistent :
      (order : OrderInfo P) (m : Orders P) → IsConsistent m → IsConsistent (on_order_return order m)
  unfolding on_order_return
  on_order_return-IsConsistent order m c =
      elim (Option-cases (find (safe_copy order.order_ref 16) m.orders)) [
        | inl e ↦
            rw (e, on_order_return)
              (both_branches _ IsConsistent (store-IsConsistent _ order m none e c) c)
        | inr (cur, e) ↦
            rw (e, on_order_return)
              (both_branches _ IsConsistent c
                (store-IsConsistent _ (merge_report cur order) m (some cur) e c))
      ]

  apply_trade-IsConsistent :
      (trade : TradeInfo P) (m : Orders P) → IsConsistent m → IsConsistent (apply_trade trade m)
  unfolding apply_trade
  apply_trade-IsConsistent trade m c =
      elim (Option-cases (find (safe_copy trade.order_ref 16) m.orders)) [
        | inl e ↦ rw (e, apply_trade) c
        | inr (cur, e) ↦
            rw (e, apply_trade)
              (both_branches _ IsConsistent
                (store-IsConsistent _ (fill cur trade.volume) m (some cur) e c) c)
      ]

  pub on_trade_return-IsConsistent :
      (trade : TradeInfo P) (m : Orders P) → IsConsistent m → IsConsistent (on_trade_return trade m)
  unfolding on_trade_return
  on_trade_return-IsConsistent trade m c =
      elim (Option-cases (note_trade trade.trade_id m.seen_trade_ids)) [
        | inl e ↦ rw (e, on_trade_return) c
        | inr (seen, e) ↦
            rw (e, on_trade_return)
              (apply_trade-IsConsistent trade (record m { seen_trade_ids = seen })
                (record { unique = c.unique; exact = c.exact }))
      ]

  insert_snapshot-Unique :
      (existing : Dict Text (OrderInfo P)) (os : List (OrderInfo P)) (acc : Dict Text (OrderInfo P))
      → Unique acc
      → Unique (insert_snapshot existing os acc)
  unfolding insert_snapshot
  insert_snapshot-Unique existing [] acc u = u
  insert_snapshot-Unique existing (o ∷ os) acc u =
      insert_snapshot-Unique existing os _ (Unique-put _ _ acc u)

  -- A snapshot makes the counter exact, whatever it held before.
  pub replace_active_orders-IsConsistent :
      (active : List (OrderInfo P)) (m : Orders P)
      → Unique m.orders
      → IsConsistent (replace_active_orders active m)
  unfolding replace_active_orders
  replace_active_orders-IsConsistent active m u = record {
    unique = insert_snapshot-Unique m.orders active _ (Unique-keep _ m.orders u);
    exact = rebuild-IsExact _;
  }

  pub remove_order-IsConsistent :
      (ref : Text) (m : Orders P) → IsConsistent m → IsConsistent (remove_order ref m)
  unfolding remove_order
  remove_order-IsConsistent ref m c = elim (Option-cases (find (safe_copy ref 16) m.orders)) [
    | inl e ↦ rw (e, remove_order) c
    | inr (cur, e) ↦
        rw (e, remove_order)
          (record {
            unique = Unique-erase _ m.orders c.unique;
            exact = erase-IsExact _ cur m.pending_open m.orders c.unique e c.exact;
          })
  ]

  -- A second login to the session in hand changes no order.
  pub init-IsConsistent :
      (front session max_ref : ℤ) (m : Orders P)
      → reconnected front session m ≡ false
      → IsConsistent m
      → IsConsistent (init front session max_ref m)
  unfolding init
  init-IsConsistent front session max_ref m h c = record {
    unique = rw (h, init) c.unique;
    exact = rw (h, init) c.exact;
  }

  open_volume_idle :
      (k : PendingKey) (m : Dict Text (OrderInfo P))
      → open_volume k (keep (λ o. not (is_active_order o)) m) ≡ 0
  unfolding open_volume weigh keep open_remaining_of
  open_volume_idle k [] = refl
  open_volume_idle k ((r, o) ∷ m) = ground (arith, open_volume_idle k m)

  -- A login to another session drops every active order and no other, so that none of the stored
  -- orders has volume to open, and the counter keeps what it held.
  pub init_stale :
      (front session max_ref : ℤ) (m : Orders P) (r : Text) (k : PendingKey)
      → reconnected front session m ≡ true
      → IsConsistent m
      → (find r (init front session max_ref m).orders
          ≡ only (λ o. not (is_active_order o)) (find r m.orders))
        × (open_volume k (init front session max_ref m).orders ≡ 0)
        × (counted k (init front session max_ref m).pending_open ≡ open_volume k m.orders)
  unfolding init
  init_stale front session max_ref m r k h c = (
    rw (h, init) (find-keep (λ o. not (is_active_order o)) r m.orders c.unique),
    rw (h, init) (open_volume_idle k m.orders),
    c.exact k,
  )

  -- Until the next snapshot, that makes the counter exact again.
  pub init-replace-IsConsistent :
      (front session max_ref : ℤ) (active : List (OrderInfo P)) (m : Orders P)
      → IsConsistent m
      → IsConsistent (replace_active_orders active (init front session max_ref m))
  unfolding init
  init-replace-IsConsistent front session max_ref active m c =
      replace_active_orders-IsConsistent active (init front session max_ref m) (
        both_branches (reconnected front session m) Unique (Unique-keep _ m.orders c.unique)
          c.unique)
