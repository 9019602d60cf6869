-- ===== src/Close/Sections.antt =====
-- src/order/close_manager.cpp: what the sections under the lock keep, in whatever order the threads
-- run them.
use hft_framework.Common.{
  ℕ, ◌≡◌, ◌⊎◌, inl, inr, ℤ, pos, ◌≤ℤ◌, +ℤ_parts, -ℤ_parts, Bool, true, false, List, [], ◌∷◌, arith,
  Text, All, Bool-cases,
}
use hft_framework.Double.{Double}
use hft_framework.Types.{Offset, OrderInfo, TradeInfo}
use hft_framework.Close.State.{
  CloseTaskState, done, is_in_flight, is_cancelling, is_finished, CloseTask, Closes, update_first,
}
use hft_framework.Close.Methods.{
  Closing, reusable, raised, sent_under, retry_task, of_order, after_order, of_trade, after_trade,
  after_cancel_rejected,
}
use hft_framework.Close.Recovery.{
  after_timeout, after_cancel_failed, after_manual_retry, after_match,
}

abbrev pub is_done : CloseTaskState → Bool
is_done done = true
is_done _ = false

module _ (d : Double) where
  open d use {F}

  -- A task that is not finished has used at most three retries, and one that is done has filled
  -- its target.
  abbrev pub IsSound : CloseTask d → Type 0
  IsSound t =
      ((is_finished t.state ≡ true) ⊎ (t.retry_count ≤ℤ pos 3))
      × ((is_done t.state ≡ false) ⊎ (t.target_volume ≤ℤ t.filled_volume))

  abbrev pub AllSound : Closes d → Type 0
  AllSound m = All IsSound m.tasks

  pub update_first-All :
      (p : CloseTask d → Bool) (f : CloseTask d → CloseTask d)
      → ((t : CloseTask d) → p t ≡ true → IsSound t → IsSound (f t))
      → (ts : List (CloseTask d)) → All IsSound ts
      → All IsSound (update_first d p f ts)
  unfolding update_first
  update_first-All p f keeps [] h = tt
  update_first-All p f keeps (t ∷ ts) h = elim (Bool-cases (p t)) [
    | inl e ↦ rw (e, update_first) (keeps t e h.0, h.1)
    | inr e ↦ rw (e, update_first) (h.0, update_first-All p f keeps ts h.1)
  ]

  pub sent_under-IsSound :
      (now : ℕ) (r : Text) (t : CloseTask d) → IsSound t → IsSound (sent_under d now r t)
  sent_under-IsSound now r t h = ground arith

  retry_task-IsSound :
      (t : CloseTask d) → is_in_flight t.state ≡ true → IsSound t → IsSound (retry_task d t)
  unfolding retry_task
  retry_task-IsSound t e h = ground (arith, +ℤ_parts t.retry_count (pos 1))

  pub after_order-IsSound :
      (o : OrderInfo F) (t : CloseTask d)
      → of_order d o t ≡ true
      → IsSound t
      → IsSound (after_order d o t)
  unfolding after_order retry_task
  after_order-IsSound o t e h =
      ground (arith, +ℤ_parts t.retry_count (pos 1), -ℤ_parts t.target_volume t.filled_volume)

  pub after_trade-IsSound :
      (tr : TradeInfo F) (t : CloseTask d)
      → of_trade d tr t ≡ true
      → IsSound t
      → IsSound (after_trade d tr t)
  unfolding after_trade
  after_trade-IsSound tr t e h = ground arith

  pub after_cancel_rejected-IsSound :
      (now : ℕ) (t : CloseTask d)
      → is_cancelling t.state ≡ true
      → IsSound t
      → IsSound (after_cancel_rejected d now t)
  unfolding after_cancel_rejected
  after_cancel_rejected-IsSound now t e h = ground arith

  pub after_timeout-IsSound :
      (now : ℕ) (t : CloseTask d) → IsSound t → IsSound (after_timeout d now t)
  unfolding after_timeout
  after_timeout-IsSound now t h = ground arith

  pub after_cancel_failed-IsSound :
      (now : ℕ) (t : CloseTask d) → IsSound t → IsSound (after_cancel_failed d now t)
  unfolding after_cancel_failed
  after_cancel_failed-IsSound now t h = ground (arith, +ℤ_parts t.retry_count (pos 1))

  pub after_manual_retry-IsSound : (t : CloseTask d) → IsSound t → IsSound (after_manual_retry d t)
  unfolding after_manual_retry
  after_manual_retry-IsSound t h = ground (arith, -ℤ_parts t.target_volume t.filled_volume)

  pub raised-IsSound :
      (c : Closing d) (offset : Offset) (v : ℤ) (t : CloseTask d)
      → reusable d c offset t ≡ true
      → IsSound t
      → IsSound (raised d c v t)
  raised-IsSound c offset v t e h = ground arith

  pub after_match-IsSound :
      (now : ℕ) (o : OrderInfo F) (t : CloseTask d)
      → is_finished t.state ≡ false
      → IsSound t
      → IsSound (after_match d now o t)
  unfolding after_match
  after_match-IsSound now o t e h = ground arith
