-- ===== src/Algo/History.antt =====
-- src/order/algo_order_manager.cpp: the number of children over any history of calls.
use hft_framework.Common.{ℕ, ℤ, Option, List, [], ◌∷◌, All, Text}
use hft_framework.Types.{OrderRequest}
use hft_framework.Algo.Methods.{
  AlgoOrders, Target, create_iceberg, create_twap, tick, cancel, on_trade,
}
use hft_framework.Algo.Slices.{IsSound}

module _ {P : Type 0} {S : Type 0} (send_fn : OrderRequest P → S → Option Text × S) where
  pub data Act : Type 0 where
    creates_iceberg : ℕ → Target send_fn → ℤ → Act
    creates_twap : ℕ → Target send_fn → ℤ → ℤ → Act
    ticks : ℕ → Act
    trades : Text → ℤ → Act
    cancels : ℕ → Act

  unfoldable pub act : Act → AlgoOrders P → S → AlgoOrders P × S
  act (creates_iceberg now t v) m s = (create_iceberg send_fn now t v m s).1
  act (creates_twap now t n seconds) m s = (create_twap send_fn now t n seconds m s).1
  act (ticks now) m s = tick send_fn now m s
  act (trades r v) m s = (on_trade r v m, s)
  act (cancels id) m s = (cancel id m, s)

  unfoldable pub act_all : List Act → AlgoOrders P → S → AlgoOrders P × S
  unfolding act
  act_all [] m s = (m, s)
  act_all (a ∷ as') m s = act_all as' (act a m s).0 (act a m s).1

  abbrev pub AllSound : AlgoOrders P → Type 0
  AllSound m = All IsSound m.orders
