-- ===== src/Algo/Even.antt =====
-- src/order/algo_order_manager.cpp: a TWAP order each of whose slices is filled before the next.
use hft_framework.Common.{ℕ, suc, ◌-◌, ◌/◌, leb, ◌≡◌, ℤ, pos, true, List, [], ◌∷◌, Text, ◌≤ℤ◌, All}
use hft_framework.Algo.Methods.{active, AlgoOrder, AlgoOrders}
use hft_framework.Algo.Rounds.{total_of, order_at, alone}

-- `q` lots or one more.
abbrev pub IsPart : ℕ → ℤ → Type 0
IsPart q v = (pos q ≤ℤ v) × (v ≤ℤ pos (suc q))

-- The volumes add up to the total, and each is a part.
abbrev pub AsksFor : ℕ → ℕ → List ℤ → Type 0
AsksFor total q asked = All (IsPart q) asked × (total_of asked ≡ pos total)

-- Each tick comes when the interval, in milliseconds, has passed since the one before.
abbrev pub Spaced : ℕ → ℕ → List ℕ → Type 0
Spaced interval last [] = Unit
Spaced interval last (now ∷ nows) =
    (leb interval ((now - last) / 1_000_000) ≡ true) × Spaced interval now nows

module _ {P : Type 0} (r : Text) where
  module _ (base : AlgoOrder P) (n total parts seconds q : ℕ) where
    -- The manager whose only order has sent `k` slices, with `f` lots filled.
    abbrev under_way : ℕ → ℕ → List Text → ℕ → AlgoOrders P
    under_way f k refs last =
        alone r base n total parts seconds
          (order_at r base n total parts seconds active f k refs last)

  abbrev pub no_orders : AlgoOrders P
  no_orders = record { orders = []; next_id = 1 }
