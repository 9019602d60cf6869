-- ===== src/Close/Sends.antt =====
-- src/order/close_manager.cpp: what a task sends, and what becomes of a refusal and of an early fill.
use hft_framework.Common.{
  ℕ, ◌≡◌, refl, ap, ◌++◌, inl, inr, pos, ◌<ℤ◌, leb_ℤ, Bool, false, some, List, [], ◌∷◌, arith, Text,
  text_eq, All, Bool-cases, Option-cases,
}
use hft_framework.Double.{Double}
use hft_framework.Types.{OrderRequest, TradeInfo}
use hft_framework.Close.State.{
  order_rejected, done, is_sendable, CloseTask, Closes, update_first, first_task, has_id,
}
use hft_framework.Close.Methods.{
  remaining, close_request, begin_send, of_trade, after_trade, on_trade,
}
use hft_framework.Close.Recovery.{check_timeout}
use hft_framework.Close.Runs.{begins_send, ends_send, trades, run_sections}

module _ (d : Double) where
  open d use {F}

  -- What is sent for a task is the opposite order over what is left of its target, which is
  -- positive.
  pub begin_send-request :
      (id : ℕ) (m : Closes d) (req : OrderRequest F)
      → (begin_send d id m).0 ≡ some req
      → (t : CloseTask d) × (first_task d (has_id d id) m.tasks ≡ some t)
        × (req ≡ close_request d t)
        × (pos 0 <ℤ remaining d t)
  unfolding begin_send
  begin_send-request id m req e = elim (Option-cases (first_task d (has_id d id) m.tasks)) [
    | inl n ↦ absurd (let k = rw (n, begin_send) at e in cc)
    | inr (t, n) ↦ elim (Bool-cases (is_sendable t.state)) [
      | inr k ↦ absurd (let e' = rw (n, begin_send, k) at e in cc)
      | inl k ↦ elim (Bool-cases (leb_ℤ (remaining d t) (pos 0))) [
        | inl l ↦ absurd (let e' = rw (n, begin_send, k, l) at e in cc)
        | inr l ↦ let e' = rw (n, begin_send, k, l) at e in (t, n, cc, ground arith)
      ]
    ]
  ]

  update_first_none :
      (p : CloseTask d → Bool) (f : CloseTask d → CloseTask d) (ts : List (CloseTask d))
      → All (λ t. p t ≡ false) ts
      → update_first d p f ts ≡ ts
  unfolding update_first
  update_first_none p f [] h = refl
  update_first_none p f (t ∷ ts) h =
      rw (h.0, update_first) (ap (λ r. t ∷ r) (update_first_none p f ts h.1))

  -- None of the tasks has sent its order under this reference.
  abbrev pub IsNewRef : Text → List (CloseTask d) → Type 0
  IsNewRef r ts = All (λ t. text_eq t.order_ref r ≡ false) ts

  not_of_trade :
      (tr : TradeInfo F) (ts : List (CloseTask d))
      → IsNewRef tr.order_ref ts
      → All (λ t. of_trade d tr t ≡ false) ts
  not_of_trade tr [] h = tt
  not_of_trade tr (t ∷ ts) h = (ground (arith, h.0), not_of_trade tr ts h.1)

  update_first-IsNewRef :
      (p : CloseTask d → Bool) (r : Text) (ts : List (CloseTask d))
      → IsNewRef r ts
      → IsNewRef r (update_first d p (λ t. record t { state = done }) ts)
  unfolding update_first
  update_first-IsNewRef p r [] h = tt
  update_first-IsNewRef p r (t ∷ ts) h = elim (Bool-cases (p t)) [
    | inl e ↦ rw (e, update_first) h
    | inr e ↦ rw (e, update_first) (h.0, update_first-IsNewRef p r ts h.1)
  ]

  begin_send-IsNewRef :
      (id : ℕ) (r : Text) (m : Closes d)
      → IsNewRef r m.tasks
      → IsNewRef r (begin_send d id m).1.tasks
  unfolding begin_send
  begin_send-IsNewRef id r m h = elim (Option-cases (first_task d (has_id d id) m.tasks)) [
    | inl n ↦ rw (n, begin_send) h
    | inr (t, n) ↦ elim (Bool-cases (is_sendable t.state)) [
      | inr k ↦ rw (n, begin_send, k) h
      | inl k ↦ elim (Bool-cases (leb_ℤ (remaining d t) (pos 0))) [
        | inr l ↦ rw (n, begin_send, k, l) h
        | inl l ↦ rw (n, begin_send, k, l) (update_first-IsNewRef (has_id d id) r m.tasks h)
      ]
    ]
  ]

  -- A fill that comes before the sending has returned its reference is lost: the tasks end as if
  -- it had not come.
  pub early_fill_lost :
      (id now : ℕ) (tr : TradeInfo F) (m : Closes d)
      → IsNewRef tr.order_ref m.tasks
      → run_sections d (begins_send id ∷ trades tr ∷ ends_send now id tr.order_ref ∷ []) m
        ≡ run_sections d (begins_send id ∷ ends_send now id tr.order_ref ∷ []) m
  unfolding run_sections on_trade
  early_fill_lost id now tr m h =
      let m' = (begin_send d id m).1 in
      let kept =
        update_first_none (of_trade d tr) (after_trade d tr) m'.tasks
          (not_of_trade tr m'.tasks (begin_send-IsNewRef id tr.order_ref m h)) in
      rw kept refl

  -- A manager with one task, whose order was refused.
  abbrev pub refused_only : CloseTask d → ℕ → Closes d
  refused_only t next_id = record {
    tasks = record t { state = order_rejected } ∷ [];
    next_id = next_id;
  }

  -- The exchange refuses every order; the requests that it was sent are kept.
  abbrev pub refuses : OrderRequest F → List (OrderRequest F) → Text × List (OrderRequest F)
  refuses req sent = ([], sent ++ req ∷ [])

  -- The request once for each element of the list.
  abbrev pub once_each : List ℕ → OrderRequest F → List (OrderRequest F)
  once_each [] req = []
  once_each (now ∷ nows) req = req ∷ once_each nows req

  module _ (cancel_fn : Text → Text → List (OrderRequest F) → Bool × List (OrderRequest F)) where
    abbrev pub timeouts :
        List ℕ → Closes d → List (OrderRequest F) → Closes d × List (OrderRequest F)
    timeouts [] m sent = (m, sent)
    timeouts (now ∷ nows) m sent =
        timeouts nows (check_timeout d refuses cancel_fn now m sent).0
          (check_timeout d refuses cancel_fn now m sent).1
