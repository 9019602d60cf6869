-- ===== src/Close/Recovery.antt =====
-- src/order/close_manager.cpp: timeouts, the removal of finished tasks, and the recovery after a
-- restart; and the operations that call back, as their sections in turn.
use hft_framework.Common.{
  ℕ, ◌+◌, ◌-◌, ◌/◌, ltb, leb, ℤ, pos, ◌+ℤ◌, ◌-ℤ◌, ltb_ℤ, leb_ℤ, max_ℤ, Bool, true, false, not, ◌&&◌,
  ◌||◌, Option, none, some, List, [], ◌∷◌, if◌then◌else◌, Text, text_eq, is_empty,
}
use hft_framework.Double.{Double, abs_f}
use hft_framework.Types.{opposite, dir_eq, offset_eq, OrderRequest, OrderInfo}
use hft_framework.Close.State.{
  CloseTaskState, task_pending, task_sent, cancelling, done, failed, is_cancelling, is_failed,
  is_finished, CloseTask, Closes, update_first, update_each, first_task, ids_where, has_id,
  sendable,
}
use hft_framework.Close.Methods.{
  next_u32, remaining, calc_close_price, begin_send, end_send, Closing, upsert_all,
}

abbrev is_sent : CloseTaskState → Bool
is_sent task_sent = true
is_sent _ = false

module _ (d : Double) where
  open d use {F, sub, lt}

  -- `kTimeoutSeconds` is 5.
  abbrev pub is_late : ℕ → CloseTask d → Bool
  is_late now t = leb 5 ((now - t.sent_time) / 1_000_000_000)

  -- The task in the loop of `check_timeout`.
  unfoldable pub after_timeout : ℕ → CloseTask d → CloseTask d
  after_timeout now t =
      if is_sent t.state
      then if leb_ℤ t.target_volume t.filled_volume
        then record t { state = done }
        else if is_late now t
        then record t { state = cancelling }
        else t
      else t

  -- The orders that the loop asks to cancel.
  unfoldable pub cancel_requests : ℕ → List (CloseTask d) → List (ℕ × Text × Text)
  cancel_requests now [] = []
  cancel_requests now (t ∷ ts) =
      let rest = cancel_requests now ts in
      if is_sent t.state && not (leb_ℤ t.target_volume t.filled_volume) && is_late now t
      then (t.id, t.account_id, t.order_ref) ∷ rest
      else rest

  unfoldable pub finished_count : List (CloseTask d) → ℕ
  finished_count [] = 0
  finished_count (t ∷ ts) = (if is_finished t.state then 1 else 0) + finished_count ts

  -- `remove_if` of the finished tasks, the first `to_remove` of them.
  unfoldable pub remove_finished : ℕ → List (CloseTask d) → List (CloseTask d)
  remove_finished to_remove [] = []
  remove_finished to_remove (t ∷ ts) =
      let removed = remove_finished (to_remove - 1) ts in
      let kept = remove_finished to_remove ts in
      if ltb 0 to_remove && is_finished t.state then removed else t ∷ kept

  -- `kMaxFinishedTasks` is 20.
  unfoldable pub cleanup_finished_tasks : Closes d → Closes d
  cleanup_finished_tasks m =
      let finished = finished_count m.tasks in
      if leb finished 20 then m else record m { tasks = remove_finished (finished - 20) m.tasks }

  -- The section of `check_timeout` under the lock.
  unfoldable pub scan_timeouts : ℕ → Closes d → Closes d
  scan_timeouts now m =
      cleanup_finished_tasks (record m { tasks = update_each d (after_timeout now) m.tasks })

  -- A task whose cancel request was not issued.
  unfoldable pub after_cancel_failed : ℕ → CloseTask d → CloseTask d
  after_cancel_failed now t =
      let count = t.retry_count +ℤ pos 1 in
      if is_cancelling t.state
      then record t {
        retry_count = count;
        state = if ltb_ℤ (pos 3) count then failed else task_sent;
        sent_time = now;
      }
      else t

  unfoldable pub cancel_failed : ℕ → ℕ → Closes d → Closes d
  cancel_failed now id m = record m {
    tasks = update_first d (has_id d id) (after_cancel_failed now) m.tasks;
  }

  abbrev pub is_retried : CloseTask d → Bool
  is_retried t = is_failed t.state && not (leb_ℤ (remaining d t) (pos 0))

  -- A failed task that is tried again by hand.
  unfoldable pub after_manual_retry : CloseTask d → CloseTask d
  after_manual_retry t =
      if is_failed t.state
      then if leb_ℤ (remaining d t) (pos 0)
        then record t { state = done }
        else record t { state = task_pending; retry_count = pos 0; order_ref = [] }
      else t

  -- The section of `retry_failed_task`; the result says whether the task is sent.
  unfoldable pub begin_retry : ℕ → Closes d → Bool × Closes d
  begin_retry id m = elim (first_task d (has_id d id) m.tasks) [
    | none ↦ (false, m)
    | some t ↦
        (is_retried t, record m { tasks = update_first d (has_id d id) after_manual_retry m.tasks })
  ]

  abbrev pub restored : CloseTask d → CloseTask d
  restored t = if is_finished t.state then t else record t { state = task_pending }

  unfoldable pub next_after : List (CloseTask d) → ℕ → ℕ
  next_after [] n = n
  next_after (t ∷ ts) n = next_after ts (if ltb n (next_u32 t.id) then next_u32 t.id else n)

  unfoldable pub restore_tasks : List (CloseTask d) → Closes d
  restore_tasks ts = record { tasks = update_each d restored ts; next_id = next_after ts 1 }

  unfoldable pub is_same_active_close_order : CloseTask d → OrderInfo F → Bool
  is_same_active_close_order t o =
      let left = max_ℤ (pos 0) (remaining d t) in
      let order_left = max_ℤ (pos 0) (o.total_volume -ℤ o.traded_volume) in
      text_eq t.account_id o.account_id
      && text_eq t.instrument_id o.instrument_id
      && offset_eq t.offset o.offset
      && dir_eq o.direction (opposite t.pos_direction)
      && not (leb_ℤ left (pos 0) || leb_ℤ order_left (pos 0) || ltb_ℤ left order_left)
      && not (ltb_ℤ o.traded_volume (pos 0) || ltb_ℤ t.target_volume o.traded_volume)
      && lt (abs_f d (sub o.price (calc_close_price d t))) (d.literal 1 6)

  -- The first order of a kind, taken out of those that are not used yet.
  unfoldable pub take_order :
      (OrderInfo F → Bool) → List (OrderInfo F) → Option (OrderInfo F × List (OrderInfo F))
  take_order p [] = none
  take_order p (o ∷ os) =
      let rest : Option (OrderInfo F × List (OrderInfo F)) = elim (take_order p os) [
        | none ↦ none
        | some found ↦ some (found.0, o ∷ found.1)
      ] in
      if p o then some (o, os) else rest

  -- An order under the task's own reference before any other.
  unfoldable pub match_order :
      CloseTask d → List (OrderInfo F) → Option (OrderInfo F × List (OrderInfo F))
  match_order t os =
      let same = is_same_active_close_order t in
      let by_ref = take_order (λ o. text_eq t.order_ref o.order_ref && same o) os in
      let any = take_order same os in
      if is_empty t.order_ref then any else elim by_ref [ none ↦ any | some found ↦ some found ]

  unfoldable pub after_match : ℕ → OrderInfo F → CloseTask d → CloseTask d
  after_match now o t =
      let total = max_ℤ t.filled_volume o.traded_volume in
      if leb_ℤ t.target_volume total
      then record t { filled_volume = total; state = done; order_ref = [] }
      else record t {
        filled_volume = total;
        state = task_sent;
        order_ref = o.order_ref;
        sent_time = now;
      }

  -- One task of `reconcile_active_orders`, and the orders that are left.
  unfoldable pub reconcile_one :
      ℕ → Text → CloseTask d → List (OrderInfo F) → CloseTask d × List (OrderInfo F)
  reconcile_one now account_id t os =
      let found : CloseTask d × List (OrderInfo F) = elim (match_order t os) [
        | none ↦ (record t { state = task_pending; order_ref = [] }, os)
        | some (o, left) ↦ (after_match now o t, left)
      ] in
      if not (text_eq t.account_id account_id) || is_finished t.state then (t, os) else found

  unfoldable pub reconcile_all :
      ℕ → Text → List (CloseTask d) → List (OrderInfo F) → List (CloseTask d)
  reconcile_all now account_id [] os = []
  reconcile_all now account_id (t ∷ ts) os =
      let first = reconcile_one now account_id t os in
      first.0 ∷ reconcile_all now account_id ts first.1

  unfoldable pub reconcile_active_orders : ℕ → Text → List (OrderInfo F) → Closes d → Closes d
  reconcile_active_orders now account_id active m = record m {
    tasks = reconcile_all now account_id m.tasks active;
  }

  -- The operations that call back, with no other call between their sections. `send_fn` returns
  -- the reference of the order, empty for a refusal; `cancel_fn` says whether it issued a request.
  -- Both callbacks are set.
  module _ {S : Type 0} (send_fn : OrderRequest F → S → Text × S)
      (cancel_fn : Text → Text → S → Bool × S) where
    abbrev after_begin : ℕ → ℕ → Option (OrderRequest F) × Closes d → S → Closes d × S
    after_begin now id (none, m) s = (m, s)
    after_begin now id (some req, m) s =
        let answer = send_fn req s in (end_send d now id answer.0 m, answer.1)

    unfoldable pub send_task : ℕ → ℕ → Closes d → S → Closes d × S
    send_task now id m s = after_begin now id (begin_send d id m) s

    unfoldable pub send_all : ℕ → List ℕ → Closes d → S → Closes d × S
    send_all now [] m s = (m, s)
    send_all now (id ∷ ids) m s = send_all now ids (send_task now id m s).0 (send_task now id m s).1

    unfoldable pub submit_close : ℕ → Closing d → ℤ → ℤ → Closes d → S → Closes d × S
    submit_close now c today_vol yesterday_vol m s =
        let m' = upsert_all d c today_vol yesterday_vol m in
        send_all now (ids_where d (sendable d) m'.tasks) m' s

    unfoldable pub resume_pending_tasks : ℕ → Closes d → S → Closes d × S
    resume_pending_tasks now m s = send_all now (ids_where d (sendable d) m.tasks) m s

    unfoldable pub retry_failed_task : ℕ → ℕ → Closes d → S → Bool × (Closes d × S)
    retry_failed_task now id m s =
        let begun = begin_retry id m in
        let sent = send_task now id begun.1 s in
        if begun.0 then (true, if ltb 0 id then sent else (begun.1, s)) else (false, (begun.1, s))

    unfoldable pub cancel_all : ℕ → List (ℕ × Text × Text) → Closes d → S → Closes d × S
    cancel_all now [] m s = (m, s)
    cancel_all now ((id, account_id, order_ref) ∷ rest) m s =
        let answer = cancel_fn account_id order_ref s in
        cancel_all now rest (if answer.0 then m else cancel_failed now id m) answer.1

    unfoldable pub check_timeout : ℕ → Closes d → S → Closes d × S
    check_timeout now m s =
        let sent = send_all now (ids_where d (sendable d) m.tasks) (scan_timeouts now m) s in
        cancel_all now (cancel_requests now m.tasks) sent.0 sent.1
