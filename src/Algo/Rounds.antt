-- ===== src/Algo/Rounds.antt =====
-- src/order/algo_order_manager.cpp: one round of a TWAP order, a tick and the fill of the slice that it sent.
use hft_framework.Common.{
  ℕ, suc, ◌+◌, ◌/◌, ◌<◌, ◌≡◌, refl, ℤ, pos, ◌+ℤ◌, ◌-ℤ◌, arith, if◌then◌else◌, true, false, Option,
  some, List, [], ◌∷◌, ◌++◌, Text, text_eq_iff, leb_ℤ, ap, ◌∙◌,
}
use hft_framework.Types.{OrderRequest}
use hft_framework.Algo.Methods.{
  twap, AlgoOrderStatus, active, completed, AlgoOrder, AlgoOrders, is_due, listed, twap_slice,
  send_next_twap_slice, tick_kind, tick_one, tick_all, tick, filled, fill_first, on_trade,
}
use hft_framework.Algo.Parts.{part_of, clipped_pos}

-- The sum of what was asked for.
abbrev pub total_of : List ℤ → ℤ
total_of [] = pos 0
total_of (v ∷ vs) = v +ℤ total_of vs

add_pos : (a b : ℕ) → pos a +ℤ pos b ≡ pos (a + b)
unfolding ◌+ℤ◌
add_pos a b = ground arith

sub_pos : (a b c : ℕ) → b + c ≡ a → pos a -ℤ pos b ≡ pos c
unfolding ◌-ℤ◌
sub_pos a b c h = ground arith

listed_last : (r : Text) (refs : List Text) → listed r (refs ++ r ∷ []) ≡ true
listed_last r [] = ground (arith, text_eq_iff r r)
listed_last r (s ∷ refs) = ground (arith, listed_last r refs)

pub asked_is :
    (f s : ℕ) (asked : List ℤ)
    → total_of asked ≡ pos f
    → (total_of (pos s ∷ asked) ≡ pos (f + s))
      × (total_of (pos s ∷ asked) -ℤ total_of asked ≡ pos s)
asked_is f s asked h =
    let sum : pos s +ℤ pos f ≡ pos (f + s) = ground (arith, add_pos s f) in
    rw (h, sum) (refl, sub_pos (f + s) f s refl)

module _ {P : Type 0} (r : Text) where
  -- Every slice is sent under the same reference; the last volume is in front.
  abbrev pub takes : OrderRequest P → List ℤ → Option Text × List ℤ
  takes req asked = (some r, req.volume ∷ asked)

  -- What was asked for since is filled.
  abbrev pub settled : List ℤ → AlgoOrders P × List ℤ → AlgoOrders P × List ℤ
  settled before (m, asked) = (on_trade r (total_of asked -ℤ total_of before) m, asked)

  abbrev pub rounds : List ℕ → AlgoOrders P × List ℤ → AlgoOrders P × List ℤ
  rounds [] s = s
  rounds (now ∷ nows) s = rounds nows (settled s.1 (tick takes now s.0 s.1))

  -- The order after `k` slices, with `f` lots filled.
  module _ (base : AlgoOrder P) (n total parts seconds : ℕ) where
    abbrev pub order_at : AlgoOrderStatus → ℕ → ℕ → List Text → ℕ → AlgoOrder P
    order_at status f k refs last = record base {
      type = twap;
      total_volume = pos total;
      filled_volume = pos f;
      num_slices = pos parts;
      duration_seconds = pos seconds;
      status = status;
      child_order_refs = refs;
      last_slice_at = last;
      slices_sent = pos k;
    }

    abbrev pub status_at : ℕ → AlgoOrderStatus
    status_at f = if leb_ℤ (pos total) (pos f) then completed else active

    abbrev pub alone : AlgoOrder P → AlgoOrders P
    alone o = record { orders = o ∷ []; next_id = n }

    slice_is :
        (f rem k m last : ℕ) (refs : List Text)
        → f + rem ≡ total
        → k + suc m ≡ parts
        → twap_slice (order_at active f k refs last) ≡ pos (part_of rem (suc m))
    unfolding twap_slice
    slice_is f rem k m last refs h l =
        rw (sub_pos total f rem h, sub_pos parts k (suc m) l, twap_slice)
          (clipped_pos rem (rem / suc m))

    pub send_is :
        (now f rem k m last : ℕ) (refs : List Text) (asked : List ℤ)
        → f + rem ≡ total
        → k + suc m ≡ parts
        → 0 < rem
        → send_next_twap_slice takes now (order_at active f k refs last) asked
          ≡ (order_at active f (suc k) (refs ++ r ∷ []) now, pos (part_of rem (suc m)) ∷ asked)
    unfolding send_next_twap_slice
    send_is now f rem k m last refs asked h l more =
        let some : leb_ℤ (pos rem) (pos 0) ≡ false = ground arith in
        let some_left : leb_ℤ (pos (suc m)) (pos 0) ≡ false = ground arith in
        let next : pos k +ℤ pos 1 ≡ pos (suc k) = ground (arith, add_pos k 1) in
        rw
          (
            slice_is f rem k m last refs h l,
            sub_pos total f rem h,
            sub_pos parts k (suc m) l,
            some,
            some_left,
            next,
          )
          refl

    pub tick_is :
        (now f rem k m last : ℕ) (refs : List Text) (asked : List ℤ)
        → f + rem ≡ total
        → k + suc m ≡ parts
        → 0 < rem
        → is_due now (order_at active f k refs last) ≡ true
        → tick takes now (alone (order_at active f k refs last)) asked ≡ (
          alone (order_at active f (suc k) (refs ++ r ∷ []) now),
          pos (part_of rem (suc m)) ∷ asked,
        )
    unfolding tick tick_all tick_one tick_kind
    tick_is now f rem k m last refs asked h l more due =
        let unfilled : leb_ℤ (pos total) (pos f) ≡ false = ground arith in
        let unsent : leb_ℤ (pos parts) (pos k) ≡ false = ground arith in
        rw (unfilled, unsent, due, send_is now f rem k m last refs asked h l more) refl

    trade_is :
        (now f s k : ℕ) (refs : List Text)
        → on_trade r (pos s) (alone (order_at active f k (refs ++ r ∷ []) now))
          ≡ alone (order_at (status_at (f + s)) (f + s) k (refs ++ r ∷ []) now)
    unfolding on_trade fill_first filled
    trade_is now f s k refs = rw (listed_last r refs, add_pos f s) refl

    pub settled_is :
        (now f s k : ℕ) (refs : List Text) (asked : List ℤ)
        → total_of asked ≡ pos f
        → settled asked (alone (order_at active f k (refs ++ r ∷ []) now), pos s ∷ asked)
          ≡ (alone (order_at (status_at (f + s)) (f + s) k (refs ++ r ∷ []) now), pos s ∷ asked)
    settled_is now f s k refs asked h =
        ap (λ m. (m, pos s ∷ asked))
          (ap (λ v. on_trade r v (alone (order_at active f k (refs ++ r ∷ []) now)))
              (asked_is f s asked h).1
            ∙ trade_is now f s k refs)

    pub rounds-completed :
        (nows : List ℕ) (f k last : ℕ) (refs : List Text) (asked : List ℤ)
        → rounds nows (alone (order_at completed f k refs last), asked)
          ≡ (alone (order_at completed f k refs last), asked)
    unfolding tick tick_all tick_one on_trade fill_first
    rounds-completed [] f k last refs asked = refl
    rounds-completed (now ∷ nows) f k last refs asked = rounds-completed nows f k last refs asked
