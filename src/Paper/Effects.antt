-- ===== src/Paper/Effects.antt =====
-- src/engine/paper_trading.cpp with src/engine/trading_engine.cpp: the account that a simulated order is
-- reported to.
use hft_framework.Common.{
  ℕ, ◌<◌, ◌≡◌, refl, pos, ◌+ℤ◌, ◌<ℤ◌, ◌≤ℤ◌, leb_ℤ, eq_ℤ, true, false, ◌&&◌, none, some, Text,
  is_empty, safe_copy, safe_copy_of_lt, length, find, Text-Eq, arith, Option-cases, inl, inr, subst,
}
use hft_framework.Double.{Double}
use hft_framework.Types.{is_open, OrderRequest, OrderInfo, TradeInfo, TickData}
use hft_framework.Orders.Book.{Orders}
use hft_framework.Orders.Methods.{
  on_order_return, on_trade_return, apply_trade, note_trade, enrich_trade_info,
}
use hft_framework.Positions.Book.{on_trade, get_net_position}
use hft_framework.Positions.Net.{AllSound, signed, net_position-on_trade}
use hft_framework.Engine.State.{Account}
use hft_framework.Engine.Handling.{or_same, account_order, account_trade}
use hft_framework.Engine.Fills.{open_quiet}
use hft_framework.Paper.Methods.{
  PaperTrading, paper_ref, paper_order, paper_trade, fill_price, simulate_order, success,
}

module _ {P : Type 0} where
  -- A report of an order of another session that is not stored.
  foreign_report :
      (o : OrderInfo P) (m : Orders P)
      → find (safe_copy o.order_ref 16) m.orders ≡ none
      → eq_ℤ o.front_id m.front_id && eq_ℤ o.session_id m.session_id ≡ false
      → on_order_return o m ≡ m
  unfolding on_order_return
  foreign_report o m absent foreign = rw (absent, on_order_return) (rw foreign refl)

  foreign_fill :
      (t : TradeInfo P) (m : Orders P)
      → find (safe_copy t.order_ref 16) m.orders ≡ none
      → ((on_trade_return t m).orders ≡ m.orders)
        × ((on_trade_return t m).pending_open ≡ m.pending_open)
  unfolding on_trade_return apply_trade
  foreign_fill t m absent = elim (Option-cases (note_trade t.trade_id m.seen_trade_ids)) [
    | inl seen ↦ rw (seen, on_trade_return) (refl, refl)
    | inr (ids, e) ↦ rw (e, on_trade_return) (rw (absent, apply_trade) (refl, refl))
  ]

module _ (d : Double) where
  open d use {F}

  -- An account whose order manager has logged in, and does not know the reference.
  pub record IsStranger (ref : Text) (a : Account d) : Type 0 where
    pub absent : find (safe_copy (safe_copy ref 16) 16) a.order_mgr.orders ≡ none
    pub other_session :
        eq_ℤ (pos 0) a.order_mgr.front_id && eq_ℤ (pos 0) a.order_mgr.session_id ≡ false

  module _ (req : OrderRequest F) (price : F) (seq : ℕ) (time : Text) (now : ℕ) (a : Account d)
      (opening : is_open req.offset ≡ true) (named : length req.instrument_id < 24)
      (sized : pos 0 ≤ℤ req.volume) (stranger : IsStranger (paper_ref d seq) a)
      (sound : AllSound d a.position_mgr)
      (quiet : a.position_mgr.reconciliation_needed ≡ false) where
    abbrev order : OrderInfo F
    order = paper_order d req price seq time

    abbrev trade : TradeInfo F
    trade = paper_trade d req price seq time

    reported : (account_order d now order a).1 ≡ a
    unfolding account_order
    reported = rw (foreign_report order a.order_mgr stranger.absent stranger.other_session) refl

    routed_as : or_same (enrich_trade_info trade (on_trade_return trade a.order_mgr)) trade ≡ trade
    unfolding enrich_trade_info
    routed_as =
        rw ((foreign_fill trade a.order_mgr stranger.absent).0, stranger.absent, enrich_trade_info)
          refl

    moved :
        get_net_position d req.instrument_id ((account_trade d trade a).1).position_mgr
        ≡ get_net_position d req.instrument_id a.position_mgr +ℤ signed req.direction req.volume
    unfolding account_trade
    moved =
        let whole = safe_copy_of_lt req.instrument_id 24 named in
        let once = open_quiet d trade a.position_mgr opening quiet in
        rw routed_as (
          subst
            (λ i.
              get_net_position d i (on_trade d trade a.position_mgr)
              ≡ get_net_position d i a.position_mgr +ℤ signed req.direction req.volume)
            whole (net_position-on_trade d trade a.position_mgr sized sound (inl opening) once))

    untouched :
        ((account_trade d trade a).1.order_mgr.orders ≡ a.order_mgr.orders)
        × ((account_trade d trade a).1.order_mgr.pending_open ≡ a.order_mgr.pending_open)
    unfolding account_trade
    untouched = foreign_fill trade a.order_mgr stranger.absent

  -- An opening order that paper trading accepts is answered with a reference without a check of the
  -- account, and the report and the fill that it hands on move the net position of the account by the
  -- whole volume, while the account's order manager keeps its orders as they were. The account has
  -- logged in and does not know the reference; its positions are sound and not in question.
  pub simulate_order-moves :
      (req : OrderRequest F) (tick : TickData F) (time : Text) (p : PaperTrading d) (now : ℕ)
      (a : Account d)
      → p.has_engine ≡ true
      → is_empty req.instrument_id ≡ false
      → length req.instrument_id < 24
      → pos 0 <ℤ req.volume
      → is_open req.offset ≡ true
      → IsStranger (paper_ref d p.paper_ref_seq) a
      → AllSound d a.position_mgr
      → a.position_mgr.reconciliation_needed ≡ false
      → (o : OrderInfo F) × (t : TradeInfo F) × ((simulate_order d req tick time p).1 ≡ some (o, t))
        × (success (simulate_order d req tick time p).0 ≡ true)
        × (let a' = (account_trade d t (account_order d now o a).1).1 in
            (a'.order_mgr.orders ≡ a.order_mgr.orders)
            × (a'.order_mgr.pending_open ≡ a.order_mgr.pending_open)
            × (get_net_position d req.instrument_id a'.position_mgr
                ≡ get_net_position d req.instrument_id a.position_mgr
                  +ℤ signed req.direction req.volume))
  unfolding simulate_order
  simulate_order-moves req tick time p now a ready given named sized opening stranger sound quiet =
      let price = fill_price d req tick in
      let seq = p.paper_ref_seq in
      let above : leb_ℤ req.volume (pos 0) ≡ false = ground arith in
      let least : pos 0 ≤ℤ req.volume = omega arith in
      let kept = untouched req price seq time now a opening named least stranger sound quiet in
      (
        paper_order d req price seq time,
        paper_trade d req price seq time,
        rw (ready, given, above) refl,
        rw (ready, given, above) refl,
        rw (reported req price seq time now a opening named least stranger sound quiet) (
          kept.0,
          kept.1,
          moved req price seq time now a opening named least stranger sound quiet,
        ),
      )
