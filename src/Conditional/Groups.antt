-- ===== src/Conditional/Groups.antt =====
-- src/order/conditional_order_manager.cpp: the second and third phase of `check_tick` on groups and on
-- orders that are to be tried again.
use hft_framework.Common.{
  ◌*◌, ℕ, zero, suc, ◌+◌, ◌-◌, ◌^◌, ◌≤◌, ◌<◌, ◌≡◌, refl, ◌⊎◌, inl, inr, ◌&&◌, none, some, List, [],
  ◌∷◌, arith, leb, ◌==◌, ==_iff, if◌then◌else◌, Text, Text-Eq, Nat-Eq, find, find-put_self,
  find-erase, Option-cases, Bool-cases,
}
use hft_framework.Double.{Double}
use hft_framework.Conditional.State.{retry_later, ConditionalOrder, CondOrders, retry_backoff}
use hft_framework.Conditional.Bounds.{instrument_key, mark_bounds_dirty, clear_retry_state}
use hft_framework.Conditional.Ticks.{
  CallbackResult, ends, failures_of, finish, Committed, commit_one,
}

-- How many results of a group end it.
abbrev pub fired_in : ℕ → List CallbackResult → ℕ
fired_in g [] = 0
fired_in g (cr ∷ crs) = (if cr.group_id == g && ends cr.result then 1 else 0) + fired_in g crs

pow_pos : (j : ℕ) → 1 ≤ 2 ^ j
pow_pos zero = omega arith
pow_pos (suc j) = omega (arith, pow_pos j)

pow_mono : (i j : ℕ) → i ≤ j → 2 ^ i ≤ 2 ^ j
pow_mono zero j h = omega (arith, pow_pos j)
pow_mono (suc i) zero h = absurd (omega arith)
pow_mono (suc i) (suc j) h = omega (arith, pow_mono i j (omega arith))

-- The delay is at least a tenth of a second and at most 1.6 seconds, and does not fall as the
-- failures rise.
pub retry_backoff_bounds :
    (n m : ℕ)
    → n ≤ m
    → (100 ≤ retry_backoff n) × (retry_backoff n ≤ retry_backoff m) × (retry_backoff m ≤ 1600)
unfolding retry_backoff
retry_backoff_bounds n m h =
    let capped : ℕ → ℕ = λ k. if leb (k - 1) 4 then k - 1 else 4 in
    let low : capped n ≤ capped m = ground arith in
    let high : capped m ≤ 4 = ground arith in
    let first = pow_mono 0 (capped n) (omega arith) in
    let second = pow_mono (capped n) (capped m) low in
    let third = pow_mono (capped m) 4 high in (omega arith, omega arith, omega arith)

module _ (d : Double) where
  open d use {F}

  abbrev pub again : ℕ → ℕ → CallbackResult
  again id group_id = record { id = id; group_id = group_id; result = retry_later }

  mark_bounds_dirty-orders :
      (key : Text) (m : CondOrders d) → (mark_bounds_dirty d key m).orders ≡ m.orders
  unfolding mark_bounds_dirty
  mark_bounds_dirty-orders key m = elim (Option-cases (find key m.trigger_bounds)) [
    | inl e ↦ rw (e, mark_bounds_dirty) refl
    | inr (b, e) ↦ rw (e, mark_bounds_dirty) refl
  ]

  find-finish : (id : ℕ) (key : Text) (m : CondOrders d) → find id (finish d id key m).orders ≡ none
  unfolding finish
  find-finish id key m = ground (
    arith,
    find-erase id id (mark_bounds_dirty d key (clear_retry_state d id m)).orders,
    ==_iff id id,
  )

  -- A callback that asks for a retry leaves the order stored, with one failure more and a time
  -- before which it waits; the tenth failure takes the order away.
  pub commit_one-retry :
      (steady_ns id group_id : ℕ) (c : Committed d) (o : ConditionalOrder d)
      → find id c.state.orders ≡ some o
      → let n = failures_of (find id c.state.retry_failures) in
        let c' = commit_one d steady_ns (again id group_id) c in
        ((n < 9)
          × (find id c'.state.orders ≡ some o)
          × (find id c'.state.retry_failures ≡ some (n + 1))
          × (find id c'.state.retry_not_before
              ≡ some (steady_ns + retry_backoff (n + 1) * 1_000_000)))
        ⊎ ((9 ≤ n) × (find id c'.state.orders ≡ none))
  unfolding commit_one
  commit_one-retry steady_ns id group_id c o e =
      let n = failures_of (find id c.state.retry_failures) in
      elim (Bool-cases (leb 10 (n + 1))) [
        | inl late ↦ inr (
          ground arith,
          rw (e, commit_one, late) (find-finish id (instrument_key o.instrument_id) c.state),
        )
        | inr early ↦ inl (
          ground arith,
          rw (e, commit_one, early) e,
          rw (e, commit_one, early) (find-put_self id (n + 1) c.state.retry_failures),
          rw (e, commit_one, early)
              (find-put_self id (steady_ns + retry_backoff (n + 1) * 1_000_000)
                c.state.retry_not_before),
        )
      ]
