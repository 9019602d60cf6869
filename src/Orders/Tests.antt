-- ===== src/Orders/Tests.antt =====
-- Runs of the order manager of `src/order/order_manager.cpp`, and its theorems at concrete inputs.
use hft_framework.Common.{
  ℕ, zero, suc, ◌≡◌, refl, ◌⊎◌, ◌↔◌, pos, ◌≤ℤ◌, ◌+ℤ◌, ◌-ℤ◌, true, false, some, List, [], ◌∷◌, arith,
  only, not, Text-Eq, text_eq, codes, replicate, length-replicate, find, put, erase, keep,
}
use hft_framework.Types.{
  buy, open_position, limit, all_traded, cancelled, error, OrderRequest, OrderInfo, TradeInfo,
}
use hft_framework.Orders.Book.{
  Orders, PendingKey, key_eq, counted, is_active_order, is_terminal, remaining_of,
  open_remaining_of, key_of, apply_pending_open_delta,
}
use hft_framework.Orders.Counting.{open_volume}
use hft_framework.Orders.Methods.{
  decimal, write_order_ref, member, note_trade, fresh, reconnected, init, allocate_order_ref,
  created_order, create_order, on_order_return, fill, apply_trade, on_trade_return,
  replace_active_orders, get_pending_open_volume,
}
use hft_framework.Orders.Exact.{
  IsConsistent, fresh-IsConsistent, init_stale, init-replace-IsConsistent,
}
use hft_framework.Orders.History.{
  Event, logs_in, creates, trades, step, run, IsOrderly, run-IsConsistent, pending_open-run,
}
use hft_framework.Orders.Fills.{
  on_trade_return_twice, note_trade_forgets, fill_bounds, on_order_return-terminal,
}

abbrev request : OrderRequest ℕ
request = record {
  instrument_id = codes "rb2510";
  exchange_id = codes "SHFE";
  account_id = [];
  strategy_id = codes "ma";
  direction = buy;
  price_type = limit;
  offset = open_position;
  price = 3500;
  volume = pos 5;
}

abbrev trade : TradeInfo ℕ
trade = record {
  instrument_id = codes "rb2510";
  exchange_id = codes "SHFE";
  account_id = [];
  trade_id = codes "T1";
  order_ref = codes "1";
  strategy_id = [];
  direction = buy;
  offset = open_position;
  price = 3500;
  volume = pos 2;
  trade_time = [];
}

abbrev history : List (Event ℕ)
history = logs_in (pos 1) (pos 7) (pos 0) ∷ creates request ∷ trades trade ∷ []

abbrev order_key : PendingKey
order_key = record { instrument = codes "rb2510"; dir = buy }

-- The order manager after the history, open to computation with all that it calls.
traded : Orders ℕ
unfolding run step fresh init reconnected create_order allocate_order_ref write_order_ref decimal
    created_order on_trade_return note_trade apply_trade fill text_eq apply_pending_open_delta
    open_remaining_of remaining_of key_of key_eq counted find put erase keep ◌+ℤ◌ ◌-ℤ◌
traded = run history fresh

pending_after : get_pending_open_volume (codes "rb2510") buy traded ≡ 3
unfolding traded get_pending_open_volume
pending_after = refl

history-IsOrderly : IsOrderly history fresh
unfolding traded
history-IsOrderly = (refl, (refl, (tt, tt)))

traded-IsConsistent : IsConsistent traded
unfolding traded
traded-IsConsistent = run-IsConsistent history fresh history-IsOrderly fresh-IsConsistent

pending_open-run_example :
    get_pending_open_volume (codes "rb2510") buy (run history fresh)
    ≡ open_volume order_key (run history fresh).orders
pending_open-run_example = pending_open-run history (codes "rb2510") buy history-IsOrderly refl

init_stale_example :
    (find (codes "1") (init (pos 1) (pos 8) (pos 0) traded).orders
      ≡ only (λ o. not (is_active_order o)) (find (codes "1") traded.orders))
    × (open_volume order_key (init (pos 1) (pos 8) (pos 0) traded).orders ≡ 0)
    × (counted order_key (init (pos 1) (pos 8) (pos 0) traded).pending_open
        ≡ open_volume order_key traded.orders)
unfolding traded
init_stale_example =
    init_stale (pos 1) (pos 8) (pos 0) traded (codes "1") order_key refl traded-IsConsistent

-- The three lots that no order will open any more.
stale_count : counted order_key (init (pos 1) (pos 8) (pos 0) traded).pending_open ≡ 3
unfolding traded
stale_count = refl

init-replace-IsConsistent_example :
    IsConsistent (replace_active_orders [] (init (pos 1) (pos 8) (pos 0) traded))
init-replace-IsConsistent_example =
    init-replace-IsConsistent (pos 1) (pos 8) (pos 0) [] traded traded-IsConsistent

on_trade_return_twice_example :
    on_trade_return trade (on_trade_return trade (fresh {P = ℕ})) ≡ on_trade_return trade fresh
unfolding fresh
on_trade_return_twice_example = on_trade_return_twice trade fresh refl (omega arith)

member-replicate : (n : ℕ) → member (codes "T2") (replicate n (codes "T1")) ≡ false
unfolding text_eq
member-replicate zero = refl
member-replicate (suc n) = member-replicate n

note_trade_forgets_example :
    (note_trade (codes "T2") (replicate 100000 (codes "T1"))
      ≡ some (codes "T2" ∷ replicate 100000 (codes "T1")))
    × (note_trade (codes "T2") (codes "T2" ∷ replicate 100000 (codes "T1"))
        ≡ some (codes "T2" ∷ []))
note_trade_forgets_example =
    note_trade_forgets (codes "T2") (replicate 100000 (codes "T1")) refl
      (length-replicate 100000 (codes "T1")) (member-replicate 100000)

abbrev stored : OrderInfo ℕ
stored = created_order request (codes "1") fresh

fill_bounds_example :
    let o = fill stored (pos 9) in
    (o.traded_volume ≤ℤ stored.total_volume)
    × ((stored.status ≡ cancelled)
        ⊎ (stored.status ≡ error)
        ⊎ ((o.status ≡ all_traded) ↔ (o.traded_volume ≡ stored.total_volume)))
fill_bounds_example = fill_bounds stored (pos 9)

abbrev dead : OrderInfo ℕ
dead = record stored { status = cancelled }

abbrev with_dead : Orders ℕ
with_dead = record fresh { orders = (codes "1", dead) ∷ [] }

on_order_return-terminal_example :
    (o : OrderInfo ℕ) × (find (codes "1") (on_order_return stored with_dead).orders ≡ some o)
    × (is_terminal o.status ≡ true)
unfolding traded
on_order_return-terminal_example =
    on_order_return-terminal stored dead (codes "1") with_dead refl refl
