-- ===== src/Algo/Tests.antt =====
-- Iceberg and TWAP orders of src/order/algo_order_manager.cpp: runs and theorems at concrete inputs.
use hft_framework.Common.{
  ℕ, ◌≡◌, refl, ℤ, pos, ◌+ℤ◌, ◌-ℤ◌, Option, some, List, [], ◌∷◌, ◌++◌, codes, Text, text_eq,
}
use hft_framework.Types.{buy, open_position, OrderRequest}
use hft_framework.Algo.Methods.{
  AlgoOrders, Target, twap_slice, iceberg_slice, send_next_twap_slice, send_next_iceberg_slice,
  new_order, create_twap, create_iceberg, tick, tick_all, tick_one, tick_kind, on_trade, fill_first,
  filled,
}
use hft_framework.Algo.Rounds.{takes, settled, rounds}
use hft_framework.Algo.Even.{no_orders}
use hft_framework.Algo.History.{Act, creates_iceberg, creates_twap, ticks, trades, act_all}

-- Sends every request and keeps the volumes that were asked for.
abbrev recorder : OrderRequest ℕ → List ℤ → Option Text × List ℤ
recorder req volumes = (some (codes "7"), volumes ++ req.volume ∷ [])

abbrev empty : AlgoOrders ℕ
empty = record { orders = []; next_id = 1 }

abbrev ten_lots : Target recorder
ten_lots = record {
  instrument = codes "rb2510";
  account_id = [];
  dir = buy;
  offset = open_position;
  price = 3500;
  total_volume = pos 10;
}

-- Ten lots in two slices over two seconds, the second when one second has passed without a fill.
abbrev two_slices : List (Act recorder)
two_slices = creates_twap 0 ten_lots (pos 2) (pos 2) ∷ ticks 1_000_000_000 ∷ []

asks_for_fifteen : (act_all recorder two_slices empty []).1 ≡ pos 5 ∷ pos 10 ∷ []
unfolding act_all create_twap new_order send_next_twap_slice twap_slice tick tick_all tick_one
    tick_kind ◌+ℤ◌ ◌-ℤ◌
asks_for_fifteen = refl

-- Ten lots of which three are shown: the first three are filled, and no more are sent.
abbrev shown_three : List (Act recorder)
shown_three =
    creates_iceberg 0 ten_lots (pos 3) ∷ trades (codes "7") (pos 3) ∷ ticks 1_000_000_000 ∷ []

asks_for_three : (act_all recorder shown_three empty []).1 ≡ pos 3 ∷ []
unfolding act_all create_iceberg new_order send_next_iceberg_slice iceberg_slice tick tick_all
    tick_one tick_kind on_trade fill_first filled text_eq ◌+ℤ◌ ◌-ℤ◌
asks_for_three = refl

-- Ten lots in three slices over three seconds, each filled before the next.
abbrev ten_filled : Target {P = ℕ} (takes (codes "7"))
ten_filled = record {
  instrument = codes "rb2510";
  account_id = [];
  dir = buy;
  offset = open_position;
  price = 3500;
  total_volume = pos 10;
}

abbrev three_slices : AlgoOrders ℕ × List ℤ
three_slices = rounds (codes "7") (1_000_000_000 ∷ 2_000_000_000 ∷ []) (
    settled (codes "7") []
      (create_twap (takes (codes "7")) 0 ten_filled (pos 3) (pos 3) (no_orders (codes "7")) []).1)

asks_for_ten : three_slices.1 ≡ pos 4 ∷ pos 3 ∷ pos 3 ∷ []
unfolding create_twap new_order send_next_twap_slice twap_slice tick tick_all tick_one tick_kind
    on_trade fill_first filled text_eq ◌+ℤ◌ ◌-ℤ◌
asks_for_ten = refl
