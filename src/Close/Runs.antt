-- ===== src/Close/Runs.antt =====
-- src/order/close_manager.cpp: any sequence of sections under the lock, as the threads interleave them.
use hft_framework.Common.{
  ℕ, ◌-◌, ◌≡◌, refl, inl, inr, ℤ, pos, ◌≤ℤ◌, -ℤ_parts, leb_ℤ, Bool, true, false, not, ◌&&◌, ◌||◌,
  some, List, [], ◌∷◌, ◌++◌, arith, ltb, leb, Text, text_eq, All, Bool-cases, Option-cases,
}
use hft_framework.Double.{Double}
use hft_framework.Types.{
  Offset, close, close_today, close_yesterday, OrderInfo, TradeInfo, need_close_today_flag,
}
use hft_framework.Close.State.{
  is_sendable, is_finished, task_pending, CloseTask, Closes, update_first, update_each, first_task,
  has_id,
}
use hft_framework.Close.Methods.{
  Closing, remaining, reusable, raised, upsert_task, upsert_all, begin_send, end_send, on_order,
  on_trade, on_cancel_rejected,
}
use hft_framework.Close.Recovery.{
  remove_finished, finished_count, cleanup_finished_tasks, scan_timeouts, cancel_failed,
  after_manual_retry, begin_retry, match_order, reconcile_one, reconcile_all,
  reconcile_active_orders,
}
use hft_framework.Close.Sections.{
  IsSound, AllSound, update_first-All, sent_under-IsSound, after_order-IsSound, after_trade-IsSound,
  after_cancel_rejected-IsSound, after_timeout-IsSound, after_cancel_failed-IsSound,
  after_manual_retry-IsSound, raised-IsSound, after_match-IsSound,
}

module _ (d : Double) where
  open d use {F}

  -- One section under the lock.
  pub data Section : Type 0 where
    upserts : Closing d → ℤ → ℤ → Section
    begins_send : ℕ → Section
    ends_send : ℕ → ℕ → Text → Section
    reports : OrderInfo F → Section
    trades : TradeInfo F → Section
    rejects_cancel : ℕ → Text → Text → Section
    scans : ℕ → Section
    fails_cancel : ℕ → ℕ → Section
    cleans : Section
    begins_retry : ℕ → Section
    reconciles : ℕ → Text → List (OrderInfo F) → Section

  unfoldable pub run_section : Section → Closes d → Closes d
  run_section (upserts c today yesterday) m = upsert_all d c today yesterday m
  run_section (begins_send id) m = (begin_send d id m).1
  run_section (ends_send now id r) m = end_send d now id r m
  run_section (reports o) m = on_order d o m
  run_section (trades t) m = on_trade d t m
  run_section (rejects_cancel now a r) m = on_cancel_rejected d now a r m
  run_section (scans now) m = scan_timeouts d now m
  run_section (fails_cancel now id) m = cancel_failed d now id m
  run_section cleans m = cleanup_finished_tasks d m
  run_section (begins_retry id) m = (begin_retry d id m).1
  run_section (reconciles now a os) m = reconcile_active_orders d now a os m

  unfoldable pub run_sections : List Section → Closes d → Closes d
  unfolding run_section
  run_sections [] m = m
  run_sections (s ∷ ss) m = run_sections ss (run_section s m)

  append-All :
      (ts : List (CloseTask d)) (t : CloseTask d)
      → All (IsSound d) ts
      → IsSound d t
      → All (IsSound d) (ts ++ t ∷ [])
  append-All [] t h s = (s, tt)
  append-All (u ∷ ts) t h s = (h.0, append-All ts t h.1 s)

  update_each-All :
      (f : CloseTask d → CloseTask d)
      → ((t : CloseTask d) → IsSound d t → IsSound d (f t))
      → (ts : List (CloseTask d)) → All (IsSound d) ts
      → All (IsSound d) (update_each d f ts)
  unfolding update_each
  update_each-All f keeps [] h = tt
  update_each-All f keeps (t ∷ ts) h = (keeps t h.0, update_each-All f keeps ts h.1)

  remove_finished-All :
      (n : ℕ) (ts : List (CloseTask d))
      → All (IsSound d) ts
      → All (IsSound d) (remove_finished d n ts)
  unfolding remove_finished
  remove_finished-All n [] h = tt
  remove_finished-All n (t ∷ ts) h = elim (Bool-cases (ltb 0 n && is_finished t.state)) [
    | inl e ↦ rw (e, remove_finished) (remove_finished-All (n - 1) ts h.1)
    | inr e ↦ rw (e, remove_finished) (h.0, remove_finished-All n ts h.1)
  ]

  cleanup-AllSound : (m : Closes d) → AllSound d m → AllSound d (cleanup_finished_tasks d m)
  unfolding cleanup_finished_tasks
  cleanup-AllSound m h = elim (Bool-cases (leb (finished_count d m.tasks) 20)) [
    | inl e ↦ rw (e, cleanup_finished_tasks) h
    | inr e ↦ rw (e, cleanup_finished_tasks) (remove_finished-All _ m.tasks h)
  ]

  upsert_task-AllSound :
      (c : Closing d) (offset : Offset) (v : ℤ) (m : Closes d)
      → AllSound d m
      → AllSound d (upsert_task d c offset v m)
  unfolding upsert_task
  upsert_task-AllSound c offset v m h = elim (Bool-cases (leb_ℤ v (pos 0))) [
    | inl e ↦ rw (e, upsert_task) h
    | inr e ↦ elim (Option-cases (first_task d (reusable d c offset) m.tasks)) [
      | inl n ↦ rw (e, n, upsert_task) (append-All m.tasks _ h (inr (omega arith), inl refl))
      | inr (t, n) ↦
          rw (e, n, upsert_task)
            (update_first-All d (reusable d c offset) (raised d c v)
              (λ u k s. raised-IsSound d c offset v u k s) m.tasks h)
    ]
  ]

  upsert_all-AllSound :
      (c : Closing d) (today yesterday : ℤ) (m : Closes d)
      → AllSound d m
      → AllSound d (upsert_all d c today yesterday m)
  unfolding upsert_all
  upsert_all-AllSound c today yesterday m h =
      elim (Bool-cases (need_close_today_flag c.exchange_id)) [
        | inl e ↦
            rw (e, upsert_all)
              (upsert_task-AllSound c close_yesterday yesterday _
                (upsert_task-AllSound c close_today today m h))
        | inr e ↦ rw (e, upsert_all) (upsert_task-AllSound c close _ m h)
      ]

  -- A change of the first task of a kind needs to be right for that task only.
  update_found-All :
      (p : CloseTask d → Bool) (f : CloseTask d → CloseTask d) (ts : List (CloseTask d))
      (t : CloseTask d)
      → first_task d p ts ≡ some t
      → (IsSound d t → IsSound d (f t))
      → All (IsSound d) ts
      → All (IsSound d) (update_first d p f ts)
  unfolding first_task update_first
  update_found-All p f [] t e keeps h = absurd (cc)
  update_found-All p f (u ∷ us) t e keeps h = elim (Bool-cases (p u)) [
    | inl k ↦
        let same : u ≡ t = ground arith in rw (k, update_first, same) (keeps (rw same at h.0), h.1)
    | inr k ↦
        rw (k, update_first) (h.0, update_found-All p f us t (rw (k, first_task) at e) keeps h.1)
  ]

  begin_send-AllSound : (id : ℕ) (m : Closes d) → AllSound d m → AllSound d (begin_send d id m).1
  unfolding begin_send
  begin_send-AllSound id m h = elim (Option-cases (first_task d (has_id d id) m.tasks)) [
    | inl n ↦ rw (n, begin_send) h
    | inr (t, n) ↦ elim (Bool-cases (is_sendable t.state)) [
      | inr k ↦ rw (n, begin_send, k) h
      | inl k ↦ elim (Bool-cases (leb_ℤ (remaining d t) (pos 0))) [
        | inr l ↦ rw (n, begin_send, k, l) h
        | inl l ↦
            rw (n, begin_send, k, l)
              (update_found-All (has_id d id) _ m.tasks t n (λ s. (inl refl, inr (full t l))) h)
      ]
    ]
  ]
    where
      full :
          (t : CloseTask d)
          → leb_ℤ (remaining d t) (pos 0) ≡ true
          → t.target_volume ≤ℤ t.filled_volume
      full t l = ground (arith, -ℤ_parts t.target_volume t.filled_volume)

  begin_retry-AllSound : (id : ℕ) (m : Closes d) → AllSound d m → AllSound d (begin_retry d id m).1
  unfolding begin_retry
  begin_retry-AllSound id m h = elim (Option-cases (first_task d (has_id d id) m.tasks)) [
    | inl n ↦ rw (n, begin_retry) h
    | inr (t, n) ↦
        rw (n, begin_retry)
          (update_first-All d (has_id d id) (after_manual_retry d)
            (λ u k s. after_manual_retry-IsSound d u s) m.tasks h)
  ]

  reconcile_one-IsSound :
      (now : ℕ) (a : Text) (t : CloseTask d) (os : List (OrderInfo F))
      → IsSound d t
      → IsSound d (reconcile_one d now a t os).0
  unfolding reconcile_one
  reconcile_one-IsSound now a t os h =
      elim (Bool-cases (not (text_eq t.account_id a) || is_finished t.state)) [
        | inl e ↦ rw (e, reconcile_one) h
        | inr e ↦
            let open_task : is_finished t.state ≡ false = ground arith in
            elim (Option-cases (match_order d t os)) [
              | inl n ↦ rw (e, n, reconcile_one) (waiting t open_task h)
              | inr ((o, left), n) ↦
                  rw (e, n, reconcile_one) (after_match-IsSound d now o t open_task h)
            ]
      ]
    where
      waiting :
          (u : CloseTask d)
          → is_finished u.state ≡ false
          → IsSound d u
          → IsSound d (record u { state = task_pending; order_ref = [] })
      waiting u e s = ground arith

  reconcile_all-All :
      (now : ℕ) (a : Text) (ts : List (CloseTask d)) (os : List (OrderInfo F))
      → All (IsSound d) ts
      → All (IsSound d) (reconcile_all d now a ts os)
  unfolding reconcile_all
  reconcile_all-All now a [] os h = tt
  reconcile_all-All now a (t ∷ ts) os h =
      (reconcile_one-IsSound now a t os h.0, reconcile_all-All now a ts _ h.1)

  run_section-AllSound : (s : Section) (m : Closes d) → AllSound d m → AllSound d (run_section s m)
  unfolding run_section end_send on_order on_trade on_cancel_rejected scan_timeouts cancel_failed
      reconcile_active_orders
  run_section-AllSound (upserts c today yesterday) m h = upsert_all-AllSound c today yesterday m h
  run_section-AllSound (begins_send id) m h = begin_send-AllSound id m h
  run_section-AllSound (ends_send now id r) m h =
      update_first-All d _ _ (λ t k s. sent_under-IsSound d now r t s) m.tasks h
  run_section-AllSound (reports o) m h = update_first-All d _ _ (after_order-IsSound d o) m.tasks h
  run_section-AllSound (trades t) m h = update_first-All d _ _ (after_trade-IsSound d t) m.tasks h
  run_section-AllSound (rejects_cancel now a r) m h =
      update_first-All d _ _ (λ t k s. after_cancel_rejected-IsSound d now t (ground arith) s)
        m.tasks h
  run_section-AllSound (scans now) m h =
      cleanup-AllSound _ (update_each-All _ (after_timeout-IsSound d now) m.tasks h)
  run_section-AllSound (fails_cancel now id) m h =
      update_first-All d _ _ (λ t k s. after_cancel_failed-IsSound d now t s) m.tasks h
  run_section-AllSound cleans m h = cleanup-AllSound m h
  run_section-AllSound (begins_retry id) m h = begin_retry-AllSound id m h
  run_section-AllSound (reconciles now a os) m h = reconcile_all-All now a m.tasks os h

  -- In whatever order the threads run the sections, from tasks that are sound, a task that is not
  -- finished has used at most three retries, and a task is done only if its target is filled.
  pub run_sections-AllSound :
      (ss : List Section) (m : Closes d) → AllSound d m → AllSound d (run_sections ss m)
  unfolding run_sections
  run_sections-AllSound [] m h = h
  run_sections-AllSound (s ∷ ss) m h = run_sections-AllSound ss _ (run_section-AllSound s m h)
