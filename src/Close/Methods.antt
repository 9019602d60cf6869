-- ===== src/Close/Methods.antt =====
-- src/order/close_manager.cpp: the operations. The callbacks run with the lock released, so an
-- operation with a callback is several sections here, and a function that runs them in turn.
use hft_framework.Common.{
  ℕ, ◌+◌, ◌%◌, ◌^◌, ℤ, pos, ◌+ℤ◌, ◌-ℤ◌, ltb_ℤ, leb_ℤ, max_ℤ, Bool, true, false, not, ◌&&◌, Option,
  none, some, [], ◌∷◌, ◌++◌, if◌then◌else◌, Text, text_eq, is_empty, safe_copy,
}
use hft_framework.Double.{Double}
use hft_framework.Types.{
  Direction, buy, sell, opposite, dir_eq, Offset, close, close_today, close_yesterday, offset_eq,
  OrderStatus, error, cancelled, OrderRequest, limit, OrderInfo, TradeInfo, need_close_today_flag,
}
use hft_framework.Close.State.{
  task_pending, task_sent, order_rejected, done, failed, is_sendable, is_in_flight, is_cancelling,
  is_finished, CloseTask, Closes, update_first, first_task, has_id,
}

abbrev is_error : OrderStatus → Bool
is_error error = true
is_error _ = false

abbrev ends_order : OrderStatus → Bool
ends_order error = true
ends_order cancelled = true
ends_order _ = false

abbrev is_close_today : Offset → Bool
is_close_today close_today = true
is_close_today _ = false

abbrev pub next_u32 : ℕ → ℕ
next_u32 n = (n + 1) % 2 ^ 32

module _ (d : Double) where
  open d use {F, sub, lt}

  -- The arguments that describe a position to close.
  pub record Closing : Type 0 where
    pub instrument : Text
    pub exchange_id : Text
    pub account_id : Text
    pub pos_direction : Direction
    pub last_price : F
    pub upper_limit : F
    pub lower_limit : F

  abbrev pub remaining : CloseTask d → ℤ
  remaining t = t.target_volume -ℤ t.filled_volume

  -- The task of an earlier request for the same position and offset that is not finished.
  abbrev pub reusable : Closing → Offset → CloseTask d → Bool
  reusable c offset t =
      not (is_finished t.state)
      && text_eq t.instrument_id c.instrument
      && text_eq t.account_id c.account_id
      && dir_eq t.pos_direction c.pos_direction
      && offset_eq t.offset offset

  abbrev pub raised : Closing → ℤ → CloseTask d → CloseTask d
  raised c volume t = record t {
    target_volume = max_ℤ t.target_volume (t.filled_volume +ℤ volume);
    last_price = c.last_price;
    upper_limit = c.upper_limit;
    lower_limit = c.lower_limit;
  }

  abbrev pub new_task : ℕ → Closing → Offset → ℤ → CloseTask d
  new_task id c offset volume = record {
    id = id;
    instrument_id = safe_copy c.instrument 24;
    exchange_id = safe_copy c.exchange_id 8;
    account_id = safe_copy c.account_id 16;
    pos_direction = c.pos_direction;
    offset = offset;
    target_volume = volume;
    filled_volume = pos 0;
    retry_count = pos 0;
    last_price = c.last_price;
    upper_limit = c.upper_limit;
    lower_limit = c.lower_limit;
    order_ref = [];
    state = task_pending;
    sent_time = 0;
  }

  unfoldable pub upsert_task : Closing → Offset → ℤ → Closes d → Closes d
  upsert_task c offset volume m =
      let fresh : Closes d = record {
        tasks = m.tasks ++ new_task m.next_id c offset volume ∷ [];
        next_id = next_u32 m.next_id;
      } in
      if leb_ℤ volume (pos 0) then m else elim (first_task d (reusable c offset) m.tasks) [
        | none ↦ fresh
        | some t ↦ record m { tasks = update_first d (reusable c offset) (raised c volume) m.tasks }
      ]

  -- The section of `submit_close` under the lock.
  unfoldable pub upsert_all : Closing → ℤ → ℤ → Closes d → Closes d
  upsert_all c today_vol yesterday_vol m =
      if need_close_today_flag c.exchange_id
      then upsert_task c close_yesterday yesterday_vol (upsert_task c close_today today_vol m)
      else upsert_task c close (today_vol +ℤ yesterday_vol) m

  -- Longs are closed at the lower limit and shorts at the upper one.
  abbrev pub calc_close_price : CloseTask d → F
  calc_close_price t = elim t.pos_direction [ buy ↦ t.lower_limit | sell ↦ t.upper_limit ]

  abbrev pub close_request : CloseTask d → OrderRequest F
  close_request t = record {
    instrument_id = safe_copy t.instrument_id 24;
    exchange_id = safe_copy t.exchange_id 8;
    account_id = safe_copy t.account_id 16;
    strategy_id = [];
    direction = opposite t.pos_direction;
    price_type = limit;
    offset = t.offset;
    price = calc_close_price t;
    volume = remaining t;
  }

  -- The first section of `send_task`: the request to send, if there is one. The search finds the
  -- same task as the change of its state does.
  unfoldable pub begin_send : ℕ → Closes d → Option (OrderRequest F) × Closes d
  begin_send id m =
      let find_task = first_task d (has_id d id) m.tasks in
      elim find_task [
        | none ↦ (none, m)
        | some t ↦
            if is_sendable t.state
            then if leb_ℤ (remaining t) (pos 0)
              then (
                none,
                record m {
                  tasks = update_first d (has_id d id) (λ u. record u { state = done }) m.tasks;
                },
              )
              else (some (close_request t), m)
            else (none, m)
      ]

  -- A task after its order was sent under a reference, or was refused.
  abbrev pub sent_under : ℕ → Text → CloseTask d → CloseTask d
  sent_under now order_ref t =
      if is_sendable t.state
      then if is_empty order_ref
        then record t { state = order_rejected }
        else record t { order_ref = order_ref; state = task_sent; sent_time = now }
      else t

  -- The second section of `send_task`.
  unfoldable pub end_send : ℕ → ℕ → Text → Closes d → Closes d
  end_send now id order_ref m = record m {
    tasks = update_first d (has_id d id) (sent_under now order_ref) m.tasks;
  }

  -- `kMaxRetry` is 3.
  unfoldable pub retry_task : CloseTask d → CloseTask d
  retry_task t =
      let count = t.retry_count +ℤ pos 1 in
      record t { retry_count = count; state = if ltb_ℤ (pos 3) count then failed else task_pending }

  abbrev pub of_order : OrderInfo F → CloseTask d → Bool
  of_order o t =
      is_in_flight t.state
      && text_eq t.account_id o.account_id
      && text_eq t.order_ref o.order_ref
      && ends_order o.status

  -- A task whose order has failed or was cancelled.
  unfoldable pub after_order : OrderInfo F → CloseTask d → CloseTask d
  after_order o t =
      let downgraded = record t {
        offset = if is_close_today t.offset then close_yesterday else t.offset;
      } in
      if is_error o.status
      then retry_task downgraded
      else if leb_ℤ (remaining t) (pos 0)
      then record t { state = done }
      else retry_task t

  unfoldable pub on_order : OrderInfo F → Closes d → Closes d
  on_order o m = record m { tasks = update_first d (of_order o) (after_order o) m.tasks }

  abbrev pub of_trade : TradeInfo F → CloseTask d → Bool
  of_trade t c =
      is_in_flight c.state
      && text_eq c.account_id t.account_id
      && text_eq c.instrument_id t.instrument_id
      && text_eq c.order_ref t.order_ref

  unfoldable pub after_trade : TradeInfo F → CloseTask d → CloseTask d
  after_trade t c =
      let total = c.filled_volume +ℤ t.volume in
      record c {
        filled_volume = total;
        state = if leb_ℤ c.target_volume total then done else c.state;
      }

  unfoldable pub on_trade : TradeInfo F → Closes d → Closes d
  on_trade t m = record m { tasks = update_first d (of_trade t) (after_trade t) m.tasks }

  unfoldable pub after_cancel_rejected : ℕ → CloseTask d → CloseTask d
  after_cancel_rejected now t =
      if leb_ℤ t.target_volume t.filled_volume
      then record t { state = done }
      else record t { state = task_sent; sent_time = now }

  unfoldable pub on_cancel_rejected : ℕ → Text → Text → Closes d → Closes d
  on_cancel_rejected now account_id order_ref m = record m {
    tasks =
        update_first d
          (λ t.
            is_cancelling t.state
            && text_eq t.account_id account_id
            && text_eq t.order_ref order_ref)
          (after_cancel_rejected now) m.tasks;
  }
