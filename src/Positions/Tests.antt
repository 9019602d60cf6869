-- ===== src/Positions/Tests.antt =====
-- Fills of the position manager of src/position/position_manager.cpp, and its theorems at concrete
-- inputs.
use hft_framework.Common.{
  ◌≡◌, ◌≢◌, refl, inr, ℤ, pos, ◌+ℤ◌, ◌-ℤ◌, true, false, none, [], ◌∷◌, arith, Text-Eq, text_eq,
  text_eq_iff, codes, find, put,
}
use mathlib.Core.Bool.{false≢true}
use hft_framework.Double.Fixed.{fixed}
use hft_framework.Types.{buy, sell, close, close_today, PositionInfo, TradeInfo}
use hft_framework.Positions.Book.{
  Positions, no_position, volumes, closed_volumes, clamped, balanced, opened, closed, diverges,
  on_trade, get_net_position, side_key,
}
use hft_framework.Positions.Balance.{AreSound}
use hft_framework.Positions.Fills.{closed_lem}
use hft_framework.Positions.Net.{signed, AllSound, net_position-on_trade, on_trade-AllSound}

abbrev held : PositionInfo ℤ
held = record (no_position fixed) {
  instrument_id = codes "rb2510";
  total = pos 8;
  today = pos 3;
  yesterday = pos 5;
  avg_price = pos 35_000_000;
}

abbrev book : Positions fixed
book = record { positions = (codes "rb2510_L", held) ∷ []; reconciliation_needed = false }

-- Sells four of the three lots of today, or of the eight in all.
abbrev over_today : TradeInfo ℤ
over_today = record {
  instrument_id = codes "rb2510";
  exchange_id = [];
  account_id = [];
  trade_id = [];
  order_ref = [];
  strategy_id = [];
  direction = sell;
  offset = close_today;
  price = pos 35_100_000;
  volume = pos 4;
  trade_time = [];
}

abbrev any_day : TradeInfo ℤ
any_day = record over_today { offset = close }

held-AreSound : AreSound (volumes fixed held)
unfolding ◌+ℤ◌
held-AreSound = ground arith

book-AllSound : AllSound fixed book
book-AllSound = (held-AreSound, tt)

-- A fill of the book, open to computation with all that it calls.
filled : TradeInfo ℤ → Positions fixed
unfolding on_trade side_key find put text_eq opened closed diverges clamped closed_volumes balanced
    ◌+ℤ◌ ◌-ℤ◌
filled t = on_trade fixed t book

over_today_flagged : (filled over_today).reconciliation_needed ≡ true
unfolding filled
over_today_flagged = refl

any_day_quiet : (on_trade fixed any_day book).reconciliation_needed ≡ false
unfolding filled
any_day_quiet = refl

net_after_sale : get_net_position fixed (codes "rb2510") (filled any_day) ≡ pos 4
unfolding filled get_net_position
net_after_sale = refl

closed_lem_example :
    ((closed fixed any_day held).total ≡ pos 8 -ℤ pos 4)
    × AreSound (volumes fixed (closed fixed any_day held))
unfolding filled
closed_lem_example = closed_lem fixed any_day held (omega arith) held-AreSound refl

any_day_known : find (side_key (codes "rb2510") buy) book.positions ≢ none
unfolding filled
any_day_known h = cc

net_position-on_trade_example :
    get_net_position fixed (codes "rb2510") (on_trade fixed any_day book)
    ≡ get_net_position fixed (codes "rb2510") book +ℤ signed sell (pos 4)
net_position-on_trade_example =
    net_position-on_trade fixed any_day book (omega arith) book-AllSound (inr any_day_known)
      any_day_quiet

on_trade-AllSound_example : AllSound fixed (on_trade fixed any_day book)
on_trade-AllSound_example =
    on_trade-AllSound fixed any_day book (omega arith) book-AllSound any_day_quiet

other_name : codes "rb2510" ≢ codes "cu2510"
unfolding text_eq
other_name h = false≢true ((text_eq_iff (codes "rb2510") (codes "cu2510")).1 h)
