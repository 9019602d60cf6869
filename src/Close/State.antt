-- ===== src/Close/State.antt =====
-- src/order/close_manager.h: the tasks that close positions, and the loops over them. The alerts to
-- the operator are left out with the log lines.
use hft_framework.Common.{
  ℕ, ◌==◌, ℤ, Bool, true, false, Option, none, some, List, [], ◌∷◌, if◌then◌else◌, Text,
}
use hft_framework.Double.{Double}
use hft_framework.Types.{Direction, Offset}

pub data CloseTaskState : Type 0 where
  task_pending task_sent order_rejected cancelling done failed : CloseTaskState

-- `state == Pending || state == OrderRejected`
abbrev pub is_sendable : CloseTaskState → Bool
is_sendable task_pending = true
is_sendable order_rejected = true
is_sendable _ = false

-- `state == Sent || state == Cancelling`
abbrev pub is_in_flight : CloseTaskState → Bool
is_in_flight task_sent = true
is_in_flight cancelling = true
is_in_flight _ = false

abbrev pub is_cancelling : CloseTaskState → Bool
is_cancelling cancelling = true
is_cancelling _ = false

abbrev pub is_failed : CloseTaskState → Bool
is_failed failed = true
is_failed _ = false

-- `state == Done || state == Failed`
abbrev pub is_finished : CloseTaskState → Bool
is_finished done = true
is_finished failed = true
is_finished _ = false

module _ (d : Double) where
  open d use {F}

  -- `sent_time` is in nanoseconds of the steady clock.
  pub record CloseTask : Type 0 where
    pub id : ℕ
    pub instrument_id : Text
    pub exchange_id : Text
    pub account_id : Text
    pub pos_direction : Direction
    pub offset : Offset
    pub target_volume : ℤ
    pub filled_volume : ℤ
    pub retry_count : ℤ
    pub last_price : F
    pub upper_limit : F
    pub lower_limit : F
    pub order_ref : Text
    pub state : CloseTaskState
    pub sent_time : ℕ

  pub record Closes : Type 0 where
    pub tasks : List CloseTask
    pub next_id : ℕ

  -- A loop that changes the first task of a kind and returns, if there is one.
  unfoldable pub update_first :
      (CloseTask → Bool) → (CloseTask → CloseTask) → List CloseTask → List CloseTask
  update_first p f [] = []
  update_first p f (t ∷ ts) = let rest = update_first p f ts in if p t then f t ∷ ts else t ∷ rest

  -- `std::find_if`
  unfoldable pub first_task : (CloseTask → Bool) → List CloseTask → Option CloseTask
  first_task p [] = none
  first_task p (t ∷ ts) = let rest = first_task p ts in if p t then some t else rest

  -- A loop that changes every task.
  unfoldable pub update_each : (CloseTask → CloseTask) → List CloseTask → List CloseTask
  update_each f [] = []
  update_each f (t ∷ ts) = f t ∷ update_each f ts

  unfoldable pub ids_where : (CloseTask → Bool) → List CloseTask → List ℕ
  ids_where p [] = []
  ids_where p (t ∷ ts) = let rest = ids_where p ts in if p t then t.id ∷ rest else rest

  -- `task.id == id`
  abbrev pub has_id : ℕ → CloseTask → Bool
  has_id id t = t.id == id

  abbrev pub sendable : CloseTask → Bool
  sendable t = is_sendable t.state
