-- ===== src/Engine/Fills.antt =====
-- src/engine/trading_engine.cpp: process_trade on a fill that the exchange sends again.
use hft_framework.Common.{
  ◌≡◌, ◌<◌, refl, sym, ap, ◌∙◌, inl, inr, ℤ, pos, ◌+ℤ◌, ◌≤ℤ◌, true, false, length, is_empty, find,
  safe_copy, Option-cases, Text-Eq,
}
use hft_framework.Double.{Double}
use hft_framework.Types.{is_open, TradeInfo}
use hft_framework.Orders.Book.{Orders}
use hft_framework.Orders.Methods.{on_trade_return, enrich_trade_info}
use hft_framework.Orders.Fills.{on_trade_return_twice}
use hft_framework.Positions.Book.{Positions, on_trade, get_net_position}
use hft_framework.Positions.Net.{AllSound, signed, net_position-on_trade, on_trade-AllSound}
use hft_framework.Engine.State.{Account}
use hft_framework.Engine.Handling.{or_same, account_trade}

module _ (d : Double) where
  open d use {F}

  -- The routed fill differs from the fill in its identifiers only.
  record IsRouted (t u : TradeInfo F) : Type 0 where
    pub instrument : u.instrument_id ≡ t.instrument_id
    pub direction : u.direction ≡ t.direction
    pub offset : u.offset ≡ t.offset
    pub volume : u.volume ≡ t.volume

  or_same-IsRouted :
      (t : TradeInfo F) (m : Orders F) → IsRouted t (or_same (enrich_trade_info t m) t)
  unfolding enrich_trade_info
  or_same-IsRouted t m = elim (Option-cases (find (safe_copy t.order_ref 16) m.orders)) [
    | inl e ↦
        rw (e, or_same, enrich_trade_info)
          (record { instrument = refl; direction = refl; offset = refl; volume = refl })
    | inr (o, e) ↦
        rw (e, or_same, enrich_trade_info)
          (record { instrument = refl; direction = refl; offset = refl; volume = refl })
  ]

  -- An opening fill, applied twice.
  pub open_quiet :
      (u : TradeInfo F) (p : Positions d)
      → is_open u.offset ≡ true
      → p.reconciliation_needed ≡ false
      → (on_trade d u p).reconciliation_needed ≡ false
  unfolding on_trade
  open_quiet u p op quiet = rw (op, on_trade) quiet

  net_twice :
      (u : TradeInfo F) (p : Positions d)
      → is_open u.offset ≡ true
      → pos 0 ≤ℤ u.volume
      → AllSound d p
      → p.reconciliation_needed ≡ false
      → get_net_position d u.instrument_id (on_trade d u (on_trade d u p))
        ≡ get_net_position d u.instrument_id p
          +ℤ signed u.direction u.volume
          +ℤ signed u.direction u.volume
  net_twice u p op h sound quiet =
      let once = open_quiet u p op quiet in
      let sound' = on_trade-AllSound d u p h sound once in
      net_position-on_trade d u (on_trade d u p) h sound' (inl op)
        (open_quiet u (on_trade d u p) op once)
      ∙ ap (λ (n : ℤ). n +ℤ signed u.direction u.volume)
          (net_position-on_trade d u p h sound (inl op) once)

  net_twice_as :
      (t u : TradeInfo F) (p : Positions d)
      → IsRouted t u
      → is_open t.offset ≡ true
      → pos 0 ≤ℤ t.volume
      → AllSound d p
      → p.reconciliation_needed ≡ false
      → get_net_position d t.instrument_id (on_trade d u (on_trade d u p))
        ≡ get_net_position d t.instrument_id p
          +ℤ signed t.direction t.volume
          +ℤ signed t.direction t.volume
  net_twice_as t u p r op h sound quiet =
      rw (sym r.instrument, sym r.direction, sym r.volume)
        (net_twice u p (rw r.offset op) (rw r.volume h) sound quiet)

  -- An opening fill that arrives twice in a row, while fewer than 100000 identifiers are noted, is
  -- counted once by the order manager but twice by the position manager.
  pub account_trade_twice :
      (t : TradeInfo F) (a : Account d)
      → is_empty t.trade_id ≡ false
      → length a.order_mgr.seen_trade_ids < 100000
      → is_open t.offset ≡ true
      → pos 0 ≤ℤ t.volume
      → AllSound d a.position_mgr
      → a.position_mgr.reconciliation_needed ≡ false
      → (((account_trade d t (account_trade d t a).1).1).order_mgr
          ≡ ((account_trade d t a).1).order_mgr)
        × (get_net_position d t.instrument_id
              ((account_trade d t (account_trade d t a).1).1).position_mgr
            ≡ get_net_position d t.instrument_id a.position_mgr
              +ℤ signed t.direction t.volume
              +ℤ signed t.direction t.volume)
  unfolding account_trade
  account_trade_twice t a named room op h sound quiet =
      let same = on_trade_return_twice t a.order_mgr named room in
      (
        same,
        rw same (
            net_twice_as t _ a.position_mgr (or_same-IsRouted t (on_trade_return t a.order_mgr)) op
              h sound quiet),
      )
