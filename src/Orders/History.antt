-- ===== src/Orders/History.antt =====
-- A history of the order manager of `src/order/order_manager.cpp`: the calls that change it, in the
-- order in which its mutex lets them in.
use hft_framework.Common.{
  ◌≡◌, ℤ, false, List, [], ◌∷◌, Text, Text-Eq, safe_copy, is_empty, find, weight_of,
}
use hft_framework.Types.{Direction, OrderRequest, OrderInfo, TradeInfo}
use hft_framework.Orders.Book.{Orders, open_remaining_of}
use hft_framework.Orders.Counting.{open_volume}
use hft_framework.Orders.Methods.{
  fresh, reconnected, init, create_order, on_order_return, on_trade_return, replace_active_orders,
  remove_order, get_pending_open_volume,
}
use hft_framework.Orders.Exact.{
  IsConsistent, next_ref, fresh-IsConsistent, create_order-IsConsistent,
  on_order_return-IsConsistent, on_trade_return-IsConsistent, replace_active_orders-IsConsistent,
  remove_order-IsConsistent, init-IsConsistent,
}

pub data Event (P : Type 0) : Type 0 where
  logs_in : ℤ → ℤ → ℤ → Event P
  creates : OrderRequest P → Event P
  reports : OrderInfo P → Event P
  trades : TradeInfo P → Event P
  snapshots : List (OrderInfo P) → Event P
  removes : Text → Event P

module _ {P : Type 0} where
  unfoldable pub step : Event P → Orders P → Orders P
  step (logs_in front session max_ref) m = init front session max_ref m
  step (creates req) m = (create_order req m).1
  step (reports order) m = on_order_return order m
  step (trades trade) m = on_trade_return trade m
  step (snapshots active) m = replace_active_orders active m
  step (removes ref) m = remove_order ref m

  unfoldable pub run : List (Event P) → Orders P → Orders P
  unfolding step
  run [] m = m
  run (e ∷ es) m = run es (step e m)

  -- A login is to the session in hand, and a new order takes a reference with nothing left to open.
  abbrev pub IsReady : Event P → Orders P → Type 0
  IsReady (logs_in front session max_ref) m = reconnected front session m ≡ false
  IsReady (creates req) m = weight_of open_remaining_of (find (next_ref m) m.orders) ≡ 0
  IsReady _ m = Unit

  abbrev pub IsOrderly : List (Event P) → Orders P → Type 0
  IsOrderly [] m = Unit
  IsOrderly (e ∷ es) m = IsReady e m × IsOrderly es (step e m)

  step-IsConsistent :
      (e : Event P) (m : Orders P) → IsReady e m → IsConsistent m → IsConsistent (step e m)
  unfolding step
  step-IsConsistent (logs_in front session max_ref) m h c =
      init-IsConsistent front session max_ref m h c
  step-IsConsistent (creates req) m h c = create_order-IsConsistent req m h c
  step-IsConsistent (reports order) m h c = on_order_return-IsConsistent order m c
  step-IsConsistent (trades trade) m h c = on_trade_return-IsConsistent trade m c
  step-IsConsistent (snapshots active) m h c = replace_active_orders-IsConsistent active m c.unique
  step-IsConsistent (removes ref) m h c = remove_order-IsConsistent ref m c

  pub run-IsConsistent :
      (es : List (Event P)) (m : Orders P)
      → IsOrderly es m
      → IsConsistent m
      → IsConsistent (run es m)
  unfolding run
  run-IsConsistent [] m h c = c
  run-IsConsistent (e ∷ es) m h c = run-IsConsistent es (step e m) h.1 (step-IsConsistent e m h.0 c)

  -- After any orderly history of a new order manager, `get_pending_open_volume` of an instrument
  -- with a name is the sum, over the orders that it stores under that instrument's key and that
  -- direction, of the volume of an active opening order that is not traded yet.
  pub pending_open-run :
      (es : List (Event P)) (instrument : Text) (dir : Direction)
      → IsOrderly es fresh
      → is_empty instrument ≡ false
      → get_pending_open_volume instrument dir (run es fresh)
        ≡ open_volume
            (record { instrument = safe_copy instrument 20; dir = dir })
            (run es fresh).orders
  unfolding get_pending_open_volume
  pending_open-run es instrument dir h named =
      rw (named, get_pending_open_volume) ((run-IsConsistent es fresh h fresh-IsConsistent).exact _)
