-- ===== src/Market/Tests.antt =====
-- The order books: tests, and an instance of the theorem.
use hft_framework.Common.{
  ℤ, pos, ◌≡◌, refl, none, List, [], ◌∷◌, codes, Text, find, put, text_eq, ◌+ℤ◌,
}
use hft_framework.Double.Fixed.{fixed}
use hft_framework.Types.{PriceLevel, TickData}
use hft_framework.Market.Book.{
  WindowedOrderBook, update_from_tick, mid_price, total_bid_volume, total_ask_volume,
}
use hft_framework.Market.Books.{
  update, get_book, has_book, run_updates, last_tick_of, Shows, is_seen, get_book-run,
}

abbrev level : ℤ → ℤ → PriceLevel ℤ
level price volume = record { price = price; volume = volume }

abbrev tick_of : Text → ℤ → TickData ℤ
tick_of name price = record {
  instrument_id = name;
  exchange_id = [];
  last_price = price;
  pre_close_price = pos 0;
  open_price = pos 0;
  highest_price = pos 0;
  lowest_price = pos 0;
  volume = pos 0;
  turnover = pos 0;
  open_interest = pos 0;
  bid = level (pos 10000) (pos 3) ∷ level (pos 9000) (pos 4) ∷ [];
  ask = level (pos 20000) (pos 1) ∷ level (pos 30000) (pos 2) ∷ [];
  upper_limit = pos 0;
  lower_limit = pos 0;
  update_time = [];
  update_millisec = pos 0;
  trading_day = [];
  action_day = [];
  local_recv_ns = pos 7;
}

abbrev some_ticks : List (TickData ℤ)
some_ticks =
    tick_of (codes "rb2510") (pos 5)
    ∷ tick_of (codes "ag2512") (pos 6)
    ∷ tick_of (codes "rb2510") (pos 8)
    ∷ []

abbrev rebar : WindowedOrderBook fixed
unfolding update get_book find put text_eq
rebar = get_book fixed (codes "rb2510") (run_updates fixed some_ticks [])

totals :
    (total_bid_volume fixed (pos 9) rebar ≡ pos 7) × (total_ask_volume fixed (pos 0) rebar ≡ pos 1)
unfolding total_bid_volume total_ask_volume update get_book find put text_eq ◌+ℤ◌ update_from_tick
totals = (refl, refl)

mid : mid_price fixed rebar ≡ pos 15000
unfolding mid_price update get_book find put text_eq ◌+ℤ◌ update_from_tick
mid = refl

get_book-run_example :
    Shows fixed
      (last_tick_of fixed (codes "rb2510") some_ticks none)
      (pos 1)
      (get_book fixed (codes "rb2510") (run_updates fixed some_ticks []))
    × (has_book fixed (codes "rb2510") (run_updates fixed some_ticks [])
        ≡ is_seen fixed (last_tick_of fixed (codes "rb2510") some_ticks none))
get_book-run_example = get_book-run fixed (codes "rb2510") some_ticks (pos 1)
