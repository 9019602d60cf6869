-- ===== src/Market/Book.antt =====
-- src/market/order_book.h: the levels of the last tick of an instrument, and what is computed from them.
use hft_framework.Common.{
  ℕ, ℤ, pos, pos_part, ◌+ℤ◌, ◌-ℤ◌, ltb_ℤ, leb_ℤ, leb, Bool, ◌&&◌, ◌||◌, Option, none, some, List,
  [], ◌∷◌, if◌then◌else◌, Text, get_elem?, get_elem?-take, take, Bool-cases, inl, inr, ap, ◌≡◌,
  refl, negsuc, zero, suc, true, arith,
}
use hft_framework.Double.{Double, zero_f}
use hft_framework.Types.{PriceLevel, TickData}

-- `kDepth`
abbrev pub depth_limit : ℕ
depth_limit = 5

module _ (d : Double) where
  open d use {F, of_int, literal, add, sub, mul, div, le, lt}

  pub record WindowedOrderBook : Type 0 where
    pub instrument_id : Text
    pub bids : List (PriceLevel F)
    pub asks : List (PriceLevel F)
    pub last_price : F
    pub update_ns : ℤ

  abbrev pub no_level : PriceLevel F
  no_level = record { price = zero_f d; volume = pos 0 }

  abbrev pub no_levels : List (PriceLevel F)
  no_levels = no_level ∷ no_level ∷ no_level ∷ no_level ∷ no_level ∷ []

  abbrev pub empty_book : WindowedOrderBook
  empty_book = record {
    instrument_id = [];
    bids = no_levels;
    asks = no_levels;
    last_price = zero_f d;
    update_ns = pos 0;
  }

  abbrev level_of : Option (PriceLevel F) → PriceLevel F
  level_of none = no_level
  level_of (some level) = level

  -- A level out of the window is empty.
  unfoldable pub level_at : List (PriceLevel F) → ℤ → PriceLevel F
  level_at levels (pos n) = if leb depth_limit n then no_level else level_of (get_elem? levels n)
  level_at levels n = no_level

  -- The window keeps every level that `level_at` reads.
  pub level_at-take :
      (levels : List (PriceLevel F)) (n : ℤ)
      → level_at (take depth_limit levels) n ≡ level_at levels n
  unfolding level_at
  level_at-take levels (negsuc n) = refl
  level_at-take levels (pos n) = elim (Bool-cases (leb depth_limit n)) [
    | inl out ↦ rw (out, level_at) refl
    | inr in_window ↦
        rw (in_window, level_at) (ap level_of (get_elem?-take depth_limit n levels (ground arith)))
  ]

  pub level_at_empty : (n : ℤ) → level_at no_levels n ≡ no_level
  unfolding level_at
  level_at_empty (negsuc n) = refl
  level_at_empty (pos zero) = refl
  level_at_empty (pos (suc zero)) = refl
  level_at_empty (pos (suc (suc zero))) = refl
  level_at_empty (pos (suc (suc (suc zero)))) = refl
  level_at_empty (pos (suc (suc (suc (suc zero))))) = refl
  level_at_empty (pos (suc (suc (suc (suc (suc n)))))) =
      let out : leb depth_limit (suc (suc (suc (suc (suc n))))) ≡ true = ground arith in
      rw (out, level_at) refl

  unfoldable pub update_from_tick : TickData F → WindowedOrderBook → WindowedOrderBook
  update_from_tick tick b = record {
    instrument_id = tick.instrument_id;
    bids = take depth_limit tick.bid;
    asks = take depth_limit tick.ask;
    last_price = tick.last_price;
    update_ns = tick.local_recv_ns;
  }

  abbrev best_bid : WindowedOrderBook → PriceLevel F
  best_bid b = level_of (get_elem? b.bids 0)

  abbrev best_ask : WindowedOrderBook → PriceLevel F
  best_ask b = level_of (get_elem? b.asks 0)

  abbrev is_one_sided : WindowedOrderBook → Bool
  is_one_sided b = le (best_bid b).price (zero_f d) || le (best_ask b).price (zero_f d)

  unfoldable pub mid_price : WindowedOrderBook → F
  mid_price b =
      if is_one_sided b
      then b.last_price
      else mul (add (best_bid b).price (best_ask b).price) (literal 5 1)

  unfoldable pub weighted_mid : WindowedOrderBook → F
  unfolding mid_price
  weighted_mid b =
      let total = of_int ((best_bid b).volume +ℤ (best_ask b).volume) in
      if is_one_sided b || le total (zero_f d)
      then mid_price b
      else div
          (add (mul (best_bid b).price (of_int (best_ask b).volume))
            (mul (best_ask b).price (of_int (best_bid b).volume)))
          total

  unfoldable pub bid_ask_spread : WindowedOrderBook → F
  bid_ask_spread b = if is_one_sided b then zero_f d else sub (best_ask b).price (best_bid b).price

  unfoldable pub bid_ask_imbalance : WindowedOrderBook → F
  bid_ask_imbalance b =
      let total = of_int ((best_bid b).volume +ℤ (best_ask b).volume) in
      if le total (zero_f d)
      then zero_f d
      else div (of_int ((best_bid b).volume -ℤ (best_ask b).volume)) total

  -- A depth below 1 counts as 1, one above the window as the window.
  unfoldable pub clamp_depth : ℤ → ℕ
  clamp_depth depth =
      if leb_ℤ depth (pos 0)
      then 1
      else if ltb_ℤ (pos depth_limit) depth
      then depth_limit
      else pos_part depth

  -- The sums of the loop over the levels: price times volume, and volume.
  unfoldable pub vwap_sums : List (PriceLevel F) → F → ℤ → F × ℤ
  vwap_sums [] sum_pv sum_v = (sum_pv, sum_v)
  vwap_sums (level ∷ levels) sum_pv sum_v =
      let counts = lt (zero_f d) level.price && ltb_ℤ (pos 0) level.volume in
      vwap_sums levels
        (if counts then add sum_pv (mul level.price (of_int level.volume)) else sum_pv)
        (if counts then sum_v +ℤ level.volume else sum_v)

  unfoldable pub vwap : ℤ → WindowedOrderBook → F
  unfolding vwap_sums clamp_depth
  vwap depth b =
      let sums = vwap_sums (take (clamp_depth depth) b.asks) (zero_f d) (pos 0) in
      if ltb_ℤ (pos 0) sums.1 then div sums.0 (of_int sums.1) else zero_f d

  unfoldable pub sum_levels : List (PriceLevel F) → ℤ
  sum_levels [] = pos 0
  sum_levels (level ∷ levels) = level.volume +ℤ sum_levels levels

  unfoldable pub total_bid_volume : ℤ → WindowedOrderBook → ℤ
  unfolding sum_levels clamp_depth
  total_bid_volume depth b = sum_levels (take (clamp_depth depth) b.bids)

  unfoldable pub total_ask_volume : ℤ → WindowedOrderBook → ℤ
  unfolding sum_levels clamp_depth
  total_ask_volume depth b = sum_levels (take (clamp_depth depth) b.asks)
