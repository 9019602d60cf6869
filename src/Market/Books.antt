-- ===== src/Market/Books.antt =====
-- src/market/order_book_manager.h: the books of all instruments, under the first 19 bytes of their names.
use hft_framework.Common.{
  ◌≡◌, refl, ◌∙◌, Bool, true, false, Option, none, some, List, [], ◌∷◌, if◌then◌else◌, Text,
  Text-Eq, text_eq, safe_copy, Dict, find, put, find-put, ap, sym, subst, ℤ, pos,
}
use hft_framework.Double.{Double, zero_f}
use hft_framework.Types.{TickData}
use hft_framework.Market.Book.{
  WindowedOrderBook, empty_book, update_from_tick, no_level, level_at, level_at-take,
  level_at_empty,
}

-- `InstrumentKey(s)` of src/common/types.h
abbrev pub book_key : Text → Text
book_key instrument = safe_copy instrument 20

module _ (d : Double) where
  open d use {F}

  abbrev pub OrderBookManager : Type 0
  OrderBookManager = Dict Text (WindowedOrderBook d)

  abbrev pub book_of : Option (WindowedOrderBook d) → WindowedOrderBook d
  book_of none = empty_book d
  book_of (some b) = b

  unfoldable pub update : TickData F → OrderBookManager → OrderBookManager
  update tick m =
      let key = book_key tick.instrument_id in
      put key (update_from_tick d tick (book_of (find key m))) m

  unfoldable pub get_book : Text → OrderBookManager → WindowedOrderBook d
  get_book instrument m = book_of (find (book_key instrument) m)

  abbrev pub is_there : Option (WindowedOrderBook d) → Bool
  is_there none = false
  is_there (some b) = true

  unfoldable pub has_book : Text → OrderBookManager → Bool
  has_book instrument m = is_there (find (book_key instrument) m)

  abbrev pub run_updates : List (TickData F) → OrderBookManager → OrderBookManager
  run_updates [] m = m
  run_updates (tick ∷ ticks) m = run_updates ticks (update tick m)

  -- The last tick whose instrument has the same first 19 bytes, if any.
  abbrev pub last_tick_of : Text → List (TickData F) → Option (TickData F) → Option (TickData F)
  last_tick_of instrument [] last = last
  last_tick_of instrument (tick ∷ ticks) last =
      last_tick_of instrument ticks
        (if text_eq (book_key tick.instrument_id) (book_key instrument) then some tick else last)

  one_update :
      (instrument : Text) (tick : TickData F) (m : OrderBookManager)
      → find (book_key instrument) (update tick m) ≡ (
          if text_eq (book_key tick.instrument_id) (book_key instrument)
          then some (update_from_tick d tick (empty_book d))
          else find (book_key instrument) m)
  unfolding update update_from_tick
  one_update instrument tick m = find-put (book_key tick.instrument_id) (book_key instrument) _ m

  abbrev pub book_at : Option (TickData F) → Option (WindowedOrderBook d)
  book_at none = none
  book_at (some tick) = some (update_from_tick d tick (empty_book d))

  -- What a book shows after a tick, level by level, and what it shows before any.
  abbrev pub Shows : Option (TickData F) → ℤ → WindowedOrderBook d → Type 0
  Shows none n b =
      (b.instrument_id ≡ [])
      × (level_at d b.bids n ≡ no_level d)
      × (level_at d b.asks n ≡ no_level d)
      × (b.last_price ≡ zero_f d)
      × (b.update_ns ≡ pos 0)
  Shows (some tick) n b =
      (b.instrument_id ≡ tick.instrument_id)
      × (level_at d b.bids n ≡ level_at d tick.bid n)
      × (level_at d b.asks n ≡ level_at d tick.ask n)
      × (b.last_price ≡ tick.last_price)
      × (b.update_ns ≡ tick.local_recv_ns)

  abbrev pub is_seen : Option (TickData F) → Bool
  is_seen none = false
  is_seen (some tick) = true

  book_at-Shows : (last : Option (TickData F)) (n : ℤ) → Shows last n (book_of (book_at last))
  unfolding update_from_tick
  book_at-Shows none n = (refl, level_at_empty d n, level_at_empty d n, refl, refl)
  book_at-Shows (some tick) n =
      (refl, level_at-take d tick.bid n, level_at-take d tick.ask n, refl, refl)

  book_at-is_seen : (last : Option (TickData F)) → is_there (book_at last) ≡ is_seen last
  book_at-is_seen none = refl
  book_at-is_seen (some tick) = refl

  -- After any ticks the book of an instrument has the name, the price, the time and every level of the
  -- bids and of the asks of the last tick whose name has the same first 19 bytes, whatever it
  -- showed before; a level out of the window is empty. If there is no such tick the book is empty
  -- and not there.
  pub get_book-run :
      (instrument : Text) (ticks : List (TickData F)) (n : ℤ)
      → Shows (last_tick_of instrument ticks none) n (get_book instrument (run_updates ticks []))
        × (has_book instrument (run_updates ticks [])
            ≡ is_seen (last_tick_of instrument ticks none))
  unfolding get_book has_book find
  get_book-run instrument ticks n =
      let last = last_tick_of instrument ticks none in
      let e = run_find ticks [] none refl in
      (
        subst (λ b. Shows last n b) (sym (ap book_of e)) (book_at-Shows last n),
        ap is_there e ∙ book_at-is_seen last,
      )
    where
      run_find :
          (ticks : List (TickData F)) (m : OrderBookManager) (last : Option (TickData F))
          → find (book_key instrument) m ≡ book_at last
          → find (book_key instrument) (run_updates ticks m)
            ≡ book_at (last_tick_of instrument ticks last)
      run_find [] m last e = e
      run_find (tick ∷ ticks) m last e = run_find ticks (update tick m) _ (
          one_update instrument tick m
          ∙ either (text_eq (book_key tick.instrument_id) (book_key instrument)))
        where
          either :
              (b : Bool)
              → (if b
                  then some (update_from_tick d tick (empty_book d))
                  else find (book_key instrument) m)
                ≡ book_at (if b then some tick else last)
          either true = refl
          either false = e
