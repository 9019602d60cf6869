-- ===== src/Risk/Limits.antt =====
-- src/risk/risk_manager.cpp: the sliding windows over a history of calls, and the limit on the rate of
-- orders that they enforce.
use hft_framework.Common.{
  ℕ, ◌-◌, ◌*◌, ◌≤◌, ◌≡◌, refl, inl, inr, pos, ◌<ℤ◌, leb_ℤ, false, Option, none, some, List, [], ◌∷◌,
  ◌++◌, arith, length, Option-cases,
}
use mathlib.Core.List.{append-nil, append_assoc}
use hft_framework.Double.{Double}
use hft_framework.Risk.State.{Risk, World}
use hft_framework.Risk.Window.{minute_ns, drop_before, prune, recent}
use hft_framework.Risk.Checks.{Call, Refusal, first_checks, check_rates}
use hft_framework.Risk.Methods.{
  answer, reject, check_order, on_order_sent, on_cancel, prune_order_rate, prune_cancel_order,
  prune_cancel,
}
use hft_framework.Risk.Accepts.{
  pruned, then_check-none, refuse_if-none, check_order_passes, check_order_refused,
  check_order_checked,
}

-- A later cutoff sees nothing of what an earlier one dropped from the front.
pub recent-drop_before : (c b : ℕ) (ts : List ℕ) → b ≤ c → recent c (drop_before b ts) ≡ recent c ts
unfolding recent drop_before
recent-drop_before c b [] h = refl
recent-drop_before c b (t ∷ ts) h = ground (arith, recent-drop_before c b ts h)

pub recent-append : (c : ℕ) (ts us : List ℕ) → recent c (ts ++ us) ≡ recent c ts ++ recent c us
unfolding recent
recent-append c [] us = refl
recent-append c (t ∷ ts) us = ground (arith, recent-append c ts us)

length-recent-le : (c : ℕ) (ts : List ℕ) → length (recent c ts) ≤ length ts
unfolding recent
length-recent-le c [] = omega arith
length-recent-le c (t ∷ ts) = ground (arith, length-recent-le c ts)

pub length-recent-le-drop_before :
    (c : ℕ) (ts : List ℕ) → length (recent c ts) ≤ length (drop_before c ts)
unfolding recent drop_before
length-recent-le-drop_before c [] = omega arith
length-recent-le-drop_before c (t ∷ ts) =
    ground (arith, length-recent-le-drop_before c ts, length-recent-le c ts)

module _ (d : Double) where
  -- A call that reads or changes the windows, at a time of the steady clock.
  pub data Act : Type 1 where
    sent : ℕ → Act
    cancelled : ℕ → Act
    checked : World d → Call d → Act

  abbrev pub time_of : Act → ℕ
  time_of (sent t) = t
  time_of (cancelled t) = t
  time_of (checked w c) = w.steady_now

  abbrev pub act : Act → Risk d → Risk d
  act (sent t) r = on_order_sent d t r
  act (cancelled t) r = on_cancel d t r
  act (checked w c) r = (check_order d w c r).1

  abbrev pub act_all : List Act → Risk d → Risk d
  act_all [] r = r
  act_all (a ∷ as') r = act_all as' (act a r)

  -- The clock does not go back from `last` on.
  abbrev pub IsTimed : ℕ → List Act → Type 0
  IsTimed last [] = Unit
  IsTimed last (a ∷ as') = (last ≤ time_of a) × IsTimed (time_of a) as'

  abbrev pub last_time : ℕ → List Act → ℕ
  last_time last [] = last
  last_time last (a ∷ as') = last_time (time_of a) as'

  abbrev sent_now : Act → List ℕ
  sent_now (sent t) = t ∷ []
  sent_now _ = []

  -- When the orders of a history were sent.
  abbrev pub sent_times : List Act → List ℕ
  sent_times [] = []
  sent_times (a ∷ as') = sent_now a ++ sent_times as'

  -- The window has every stamp of the history that a later cutoff would keep.
  abbrev Tracks : ℕ → List ℕ → List ℕ → Type 0
  Tracks now hist ts = (c : ℕ) → now - minute_ns ≤ c → recent c hist ≡ recent c ts

  Tracks-prune :
      (last now : ℕ) (hist ts : List ℕ)
      → last ≤ now
      → Tracks last hist ts
      → Tracks now hist (prune 1 now ts)
  unfolding prune
  Tracks-prune last now hist ts le h c k =
      rw (recent-drop_before c (now - 1 * minute_ns) ts (omega arith)) (h c (omega arith))

  Tracks-append :
      (last now : ℕ) (hist ts : List ℕ)
      → last ≤ now
      → Tracks last hist ts
      → Tracks now (hist ++ now ∷ []) (ts ++ now ∷ [])
  Tracks-append last now hist ts le h c k =
      rw (recent-append c hist (now ∷ []), recent-append c ts (now ∷ []), h c (omega arith)) refl

  answer-order_rate :
      (w : World d) (c : Call d) (o : Option Refusal) (r : Risk d)
      → (answer d w c o r).1.order_rate_timestamps ≡ r.order_rate_timestamps
  unfolding reject
  answer-order_rate w c none r = refl
  answer-order_rate w c (some x) r = refl

  pruned-order_rate :
      (w : World d) (r : Risk d)
      → (pruned d w r).order_rate_timestamps ≡ prune 1 w.steady_now r.order_rate_timestamps
  unfolding prune_order_rate prune_cancel_order prune_cancel
  pruned-order_rate w r = refl

  pruned-max_orders :
      (w : World d) (r : Risk d) → (pruned d w r).max_orders_per_minute ≡ r.max_orders_per_minute
  unfolding prune_order_rate prune_cancel_order prune_cancel
  pruned-max_orders w r = refl

  Tracks-check_order :
      (last : ℕ) (hist : List ℕ) (w : World d) (c : Call d) (r : Risk d)
      → last ≤ w.steady_now
      → Tracks last hist r.order_rate_timestamps
      → Tracks w.steady_now hist (check_order d w c r).1.order_rate_timestamps
  Tracks-check_order last hist w c r le h = elim (Option-cases (first_checks d w r c)) [
    | inl e ↦
        rw
          (
            check_order_checked d w c r e,
            answer-order_rate w c (check_rates d (pruned d w r) c) (pruned d w r),
            pruned-order_rate w r,
          )
          (Tracks-prune last w.steady_now hist _ le h)
    | inr (x, e) ↦
        rw (check_order_refused d w c r x e, answer-order_rate w c (some x) r)
          (λ k b. h k (omega arith))
  ]

  on_order_sent-order_rate :
      (t : ℕ) (r : Risk d)
      → (on_order_sent d t r).order_rate_timestamps ≡ prune 1 t (r.order_rate_timestamps ++ t ∷ [])
  unfolding on_order_sent prune_order_rate prune_cancel_order
  on_order_sent-order_rate t r = refl

  on_cancel-order_rate :
      (t : ℕ) (r : Risk d) → (on_cancel d t r).order_rate_timestamps ≡ r.order_rate_timestamps
  unfolding on_cancel prune_cancel
  on_cancel-order_rate t r = refl

  Tracks-act :
      (last : ℕ) (hist : List ℕ) (a : Act) (r : Risk d)
      → last ≤ time_of a
      → Tracks last hist r.order_rate_timestamps
      → Tracks (time_of a) (hist ++ sent_now a) (act a r).order_rate_timestamps
  Tracks-act last hist (sent t) r le h =
      rw (on_order_sent-order_rate t r)
        (Tracks-prune t t (hist ++ t ∷ []) _ (omega arith) (Tracks-append last t hist _ le h))
  Tracks-act last hist (cancelled t) r le h =
      rw (on_cancel-order_rate t r, append-nil hist) (λ k b. h k (omega arith))
  Tracks-act last hist (checked w c) r le h =
      rw (append-nil hist) (Tracks-check_order last hist w c r le h)

  Tracks-act_all :
      (last : ℕ) (hist : List ℕ) (as' : List Act) (r : Risk d)
      → IsTimed last as'
      → Tracks last hist r.order_rate_timestamps
      → Tracks (last_time last as') (hist ++ sent_times as') (act_all as' r).order_rate_timestamps
  Tracks-act_all last hist [] r timed h = rw (append-nil hist) h
  Tracks-act_all last hist (a ∷ as') r timed h =
      rw⁻¹ (append_assoc hist (sent_now a) (sent_times as')) (
        Tracks-act_all (time_of a) (hist ++ sent_now a) as' (act a r) timed.1
          (Tracks-act last hist a r timed.0 h))

  check_rates-none :
      (r : Risk d) (c : Call d)
      → c.is_risk_reduction ≡ false
      → check_rates d r c ≡ none
      → pos (length r.order_rate_timestamps) <ℤ r.max_orders_per_minute
  unfolding check_rates
  check_rates-none r c red h =
      let busy : leb_ℤ r.max_orders_per_minute (pos (length r.order_rate_timestamps)) ≡ false =
        refuse_if-none _ _ _ (then_check-none _ _ (rw red at h)).0 in
      ground arith

  -- After any history of sends, cancels and checks on a clock that does not go back, an order that
  -- passes without being excused finds fewer orders sent in the minute before it than the limit.
  -- The orders are those of the history, not those that the window still holds.
  pub check_order-rate :
      (last : ℕ) (as' : List Act) (w : World d) (c : Call d) (r : Risk d)
      → IsTimed last as'
      → last_time last as' ≤ w.steady_now
      → r.order_rate_timestamps ≡ []
      → c.is_risk_reduction ≡ false
      → (check_order d w c (act_all as' r)).0 ≡ none
      → pos (length (recent (w.steady_now - minute_ns) (sent_times as')))
        <ℤ (act_all as' r).max_orders_per_minute
  unfolding prune
  check_order-rate last as' w c r timed le empty red h =
      let now = w.steady_now in
      let r' = act_all as' r in
      let start : Tracks last [] r.order_rate_timestamps = λ k b. rw empty refl in
      let seen = Tracks-act_all last [] as' r timed start (now - minute_ns) (omega arith) in
      let busy =
        rw (pruned-order_rate w r', pruned-max_orders w r') at
          (check_rates-none (pruned d w r') c red (check_order_passes d w c r' h).1) in
      let kept : recent (now - minute_ns) (sent_times as')
          ≡ recent (now - minute_ns) r'.order_rate_timestamps =
        seen in
      rw kept
        (omega (arith, length-recent-le-drop_before (now - minute_ns) r'.order_rate_timestamps))
