-- ===== src/Conditional/Ticks.antt =====
-- src/order/conditional_order_manager.cpp: `check_tick`. Its first phase picks the orders that trigger,
-- its second calls back with no lock held, its third commits what the callbacks returned.
use hft_framework.Common.{
  ◌*◌, ℕ, ◌+◌, ltb, leb, ◌==◌, ℤ, pos, leb_ℤ, ltb_ℤ, Bool, true, false, not, ◌&&◌, ◌||◌, Option,
  none, some, List, [], ◌∷◌, ◌++◌, if◌then◌else◌, Text, Text-Eq, Nat-Eq, safe_copy, find, put,
  erase,
}
use hft_framework.Double.{Double, zero_f}
use hft_framework.Types.{Direction, buy, sell, OrderRequest, limit, get_exchange_id}
use hft_framework.Conditional.State.{
  ConditionType, stop_loss, take_profit, trailing_stop, TriggerResult, retry_later, sent,
  cancelled_result, ConditionalOrder, CondOrders, retry_backoff,
}
use hft_framework.Conditional.Bounds.{
  instrument_key, clear_retry_state, mark_bounds_dirty, rebuild_bounds, price_eps, may_trigger,
}

-- The answers of phase 2 to one order.
pub record CallbackResult : Type 0 where
  pub id : ℕ
  pub group_id : ℕ
  pub result : TriggerResult

-- `std::unordered_set` of group identifiers
abbrev pub among : ℕ → List ℕ → Bool
among g [] = false
among g (x ∷ xs) = x == g || among g xs

abbrev pub ends : TriggerResult → Bool
ends retry_later = false
ends sent = true
ends cancelled_result = true

-- `retry_failures_[id]`
abbrev pub failures_of : Option ℕ → ℕ
failures_of none = 0
failures_of (some n) = n

module _ (d : Double) where
  open d use {F, le, lt, sub, add}

  pub record TriggerInfo : Type 0 where
    pub id : ℕ
    pub req : OrderRequest F
    pub group_id : ℕ

  -- The extreme price of an order after a tick; only a trailing order moves it.
  unfoldable pub extreme_after : ConditionType → Direction → F → F → F
  extreme_after trailing_stop buy price extreme =
      if le extreme (zero_f d) || lt extreme price then price else extreme
  extreme_after trailing_stop sell price extreme =
      if le extreme (zero_f d) || lt price extreme then price else extreme
  extreme_after _ dir price extreme = extreme

  unfoldable pub follow : F → ConditionalOrder d → ConditionalOrder d
  follow price o = record o {
    extreme_price = extreme_after o.type o.direction price o.extreme_price;
  }

  unfoldable pub triggers_by : ConditionType → Direction → F → F → F → F → Bool
  triggers_by stop_loss buy trigger extreme trail price = le (sub trigger (price_eps d)) price
  triggers_by stop_loss sell trigger extreme trail price = le price (add trigger (price_eps d))
  triggers_by take_profit buy trigger extreme trail price = le price (add trigger (price_eps d))
  triggers_by take_profit sell trigger extreme trail price = le (sub trigger (price_eps d)) price
  triggers_by trailing_stop buy trigger extreme trail price =
      le price (add (sub extreme trail) (price_eps d))
  triggers_by trailing_stop sell trigger extreme trail price =
      le (sub (add extreme trail) (price_eps d)) price

  -- Whether an order triggers, its extreme price brought up to date.
  abbrev pub triggers : F → ConditionalOrder d → Bool
  triggers price o =
      triggers_by o.type o.direction o.trigger_price o.extreme_price o.trail_offset price

  -- The request of a triggered order; its price type is the default of `OrderRequest`.
  unfoldable pub request_of : F → ConditionalOrder d → OrderRequest F
  request_of last_price o = record {
    instrument_id = safe_copy o.instrument_id 24;
    exchange_id = safe_copy (get_exchange_id o.instrument_id) 8;
    account_id = safe_copy o.account_id 16;
    strategy_id = safe_copy o.strategy_id 32;
    direction = o.direction;
    price_type = limit;
    offset = o.offset;
    price = if lt (zero_f d) o.order_price then o.order_price else last_price;
    volume = o.volume;
  }

  abbrev pub waits : ℕ → Option ℕ → Bool
  waits steady_ns none = false
  waits steady_ns (some t) = ltb steady_ns t

  -- What the loop of phase 1 has found: the identifiers kept, the orders to call back for, the
  -- state, and whether an order has expired.
  pub record Found : Type 0 where
    pub live_ids : List ℕ
    pub trigger_list : List TriggerInfo
    pub state : CondOrders d
    pub changed : Bool

  -- Expired by the wall clock.
  abbrev pub has_expired : ℤ → ConditionalOrder d → Bool
  has_expired wall_ms o = ltb_ℤ (pos 0) o.expire_at_ms && leb_ℤ o.expire_at_ms wall_ms

  -- One order of the loop.
  unfoldable pub evaluate_one : Text → F → ℤ → ℕ → ℕ → Found → Found
  evaluate_one key price wall_ms steady_ns id f = elim (find id f.state.orders) [
    | none ↦ f
    | some o ↦
        let o' = follow price o in
        let kept = record f {
          live_ids = f.live_ids ++ id ∷ [];
          state = record f.state { orders = put id o' f.state.orders };
        } in
        if has_expired wall_ms o
        then record f {
          state = mark_bounds_dirty d key (record f.state { orders = erase id f.state.orders });
          changed = true;
        }
        else if triggers price o' && not (waits steady_ns (find id f.state.retry_not_before))
        then record kept {
          trigger_list =
              f.trigger_list
              ++ record { id = id; req = request_of price o'; group_id = o'.group_id } ∷ [];
        }
        else kept
  ]

  unfoldable pub evaluate_all : Text → F → ℤ → ℕ → List ℕ → Found → Found
  evaluate_all key price wall_ms steady_ns [] f = f
  evaluate_all key price wall_ms steady_ns (id ∷ ids) f =
      evaluate_all key price wall_ms steady_ns ids (evaluate_one key price wall_ms steady_ns id f)

  -- Phase 1. The index is read after the bounds, which the source reaches through an iterator.
  unfoldable pub evaluate : Text → F → ℤ → ℕ → CondOrders d → Found
  evaluate instrument_id price wall_ms steady_ns m =
      let key = instrument_key instrument_id in
      let none_found : CondOrders d → Found =
        λ s. record { live_ids = []; trigger_list = []; state = s; changed = false } in
      elim (find key m.instrument_index) [
        | none ↦ none_found m
        | some _ ↦
            let checked = may_trigger d key price m in
            let s = checked.1 in
            let looked_at : Found = elim (find key s.instrument_index) [
              | none ↦ none_found s
              | some ids ↦
                  let f = evaluate_all key price wall_ms steady_ns ids (none_found s) in
                  record f {
                    state = record f.state {
                      instrument_index = put key f.live_ids f.state.instrument_index;
                    };
                  }
            ] in
            if checked.0 then looked_at else none_found s
      ]

  -- Phase 2, from the groups that have fired; the callback has a state of its own.
  unfoldable pub call_back {ℓ} :
      {S : Type ℓ}
      → (OrderRequest F → S → TriggerResult × S)
      → List TriggerInfo
      → List ℕ
      → S
      → List CallbackResult × S
  call_back callback [] fired s = ([], s)
  call_back callback (info ∷ infos) fired s =
      let answer = callback info.req s in
      let fired' =
        if not (info.group_id == 0) && ends answer.0 then info.group_id ∷ fired else fired in
      let called = call_back callback infos fired' answer.1 in
      let skipped = call_back callback infos fired s in
      if not (info.group_id == 0) && among info.group_id fired then skipped else (
        record { id = info.id; group_id = info.group_id; result = answer.0 } ∷ called.0,
        called.1,
      )

  -- The end of an order in phase 3.
  unfoldable pub finish : ℕ → Text → CondOrders d → CondOrders d
  finish id key m =
      let m' = mark_bounds_dirty d key (clear_retry_state d id m) in
      record m' { orders = erase id m'.orders }

  -- What phase 3 has done: the state, the groups that fired, the keys to rebuild.
  pub record Committed : Type 0 where
    pub state : CondOrders d
    pub triggered_group_ids : List ℕ
    pub changed_instruments : List Text

  unfoldable pub commit_one : ℕ → CallbackResult → Committed → Committed
  commit_one steady_ns cr c = elim (find cr.id c.state.orders) [
    | none ↦ c
    | some o ↦
        let key = instrument_key o.instrument_id in
        let ended = record c {
          state = finish cr.id key c.state;
          changed_instruments = key ∷ c.changed_instruments;
        } in
        let failures = failures_of (find cr.id c.state.retry_failures) + 1 in
        let again = record c {
          state = record c.state {
            retry_failures = put cr.id failures c.state.retry_failures;
            retry_not_before =
                put cr.id (steady_ns + retry_backoff failures * 1_000_000) c.state.retry_not_before;
          };
        } in
        elim cr.result [
          | sent ↦ record ended {
            triggered_group_ids =
                if cr.group_id == 0
                then c.triggered_group_ids
                else c.triggered_group_ids ++ cr.group_id ∷ [];
          }
          | cancelled_result ↦ ended
          | retry_later ↦ if leb 10 failures then ended else again
        ]
  ]

  unfoldable pub commit_all : ℕ → List CallbackResult → Committed → Committed
  commit_all steady_ns [] c = c
  commit_all steady_ns (cr ∷ crs) c = commit_all steady_ns crs (commit_one steady_ns cr c)

  unfoldable pub rebuild_all : List Text → CondOrders d → CondOrders d
  rebuild_all [] m = m
  rebuild_all (k ∷ ks) m = rebuild_all ks (rebuild_bounds d k m)

  -- Phase 3.
  unfoldable pub commit : ℕ → List CallbackResult → CondOrders d → Committed
  commit steady_ns crs m =
      let c =
        commit_all steady_ns crs
          (record { state = m; triggered_group_ids = []; changed_instruments = [] }) in
      record c { state = rebuild_all c.changed_instruments c.state }

  abbrev some_listed : {A : Type 0} → List A → Bool
  some_listed [] = false
  some_listed (x ∷ xs) = true

  -- `ConditionalCheckResult`
  pub record CheckResult : Type 0 where
    pub triggered_group_ids : List ℕ
    pub changed : Bool

  -- The three phases, with no other call between them; a clock is read once.
  unfoldable pub check_tick {ℓ} :
      {S : Type ℓ}
      → (OrderRequest F → S → TriggerResult × S)
      → Text
      → F
      → ℤ
      → ℕ
      → CondOrders d
      → S
      → CheckResult × (CondOrders d × S)
  check_tick callback instrument_id price wall_ms steady_ns m s =
      let f = evaluate instrument_id price wall_ms steady_ns m in
      let called = call_back callback f.trigger_list [] s in
      let c = commit steady_ns called.0 f.state in
      if some_listed f.trigger_list
      then (
        record {
          triggered_group_ids = c.triggered_group_ids;
          changed = f.changed || some_listed c.changed_instruments;
        },
        (c.state, called.1),
      )
      else (record { triggered_group_ids = []; changed = f.changed }, (f.state, s))
