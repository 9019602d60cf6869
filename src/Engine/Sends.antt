-- ===== src/Engine/Sends.antt =====
-- src/engine/trading_engine.cpp: what an answer of send_order_unlocked means.
use hft_framework.Common.{
  ℕ, zero, suc, ◌+◌, ◌≡◌, refl, ap, ◌∙◌, inl, inr, ◌⊎◌, ℤ, pos, pos_part, ◌-ℤ◌, take, ◌≤◌, -ℤ_parts,
  ◌≤ℤ◌, ◌<ℤ◌, abs_ℤ, eq_ℤ, max_ℤ, Bool, true, false, ◌&&◌, none, some, [], ◌∷◌, arith, Text,
  is_empty, safe_copy, Bool-cases, Option-cases,
}
use hft_framework.Double.{Double}
use hft_framework.Types.{Offset, close, is_open, offset_eq, OrderRequest, need_close_today_flag}
use hft_framework.Orders.Methods.{
  create_order, created_order, allocate_order_ref, get_pending_open_volume,
}
use hft_framework.Orders.Book.{
  Orders, PendingKey, key_eq, key_eq_iff, counted, apply_pending_open_delta, open_remaining_of,
  remaining_of, key_of,
}
use hft_framework.Orders.Counting.{counted-count_in, contribution}
use hft_framework.Risk.Checks.{projected_net}
use hft_framework.Risk.Methods.{check_order, on_order_sent}
use hft_framework.Risk.Accepts.{check_order-open}
use hft_framework.Engine.State.{
  no_reject, engine_not_ready, gateway_send_failed, is_ready, Account, Engine, resolve_account,
  store, trade_state_of,
}
use hft_framework.Engine.Cancelling.{Gateways}
use hft_framework.Engine.Sending.{
  Answer, invalid_param, for_reason, state_reject, refused, Surroundings, is_invalid, told,
  world_of, call_of, guard, send_checked, send_order_unlocked,
}

module _ (d : Double) where
  open d use {F}

  take_twice : (n m : ℕ) (s : Text) → n ≤ m → take n (take m s) ≡ take n s
  take_twice zero m s h = refl
  take_twice (suc n) zero s h = absurd (omega arith)
  take_twice (suc n) (suc m) [] h = refl
  take_twice (suc n) (suc m) (c ∷ cs) h = ap (λ (t : Text). c ∷ t) (take_twice n m cs (omega arith))

  abbrev key_for : OrderRequest F → PendingKey
  key_for req = record { instrument = safe_copy req.instrument_id 20; dir = req.direction }

  volume_left : (v : ℤ) → pos 0 <ℤ v → pos_part (max_ℤ (pos 0) (v -ℤ pos 0)) ≡ pos_part v
  volume_left v h = ground (arith, -ℤ_parts v (pos 0))

  contribution_new :
      (req : OrderRequest F) (ref : Text) (m : Orders F)
      → is_open req.offset ≡ true
      → pos 0 <ℤ req.volume
      → contribution (key_for req) (created_order req ref m) ≡ pos_part req.volume
  unfolding created_order open_remaining_of remaining_of key_of
  contribution_new req ref m op h =
      let same : key_eq (key_for req) (key_for req) ≡ true =
        (key_eq_iff (key_for req) (key_for req)).1 refl in
      rw (take_twice 19 23 req.instrument_id (omega arith), same, op) (volume_left req.volume h)

  -- A new opening order raises the pending volume by its own.
  create_order-pending :
      (req : OrderRequest F) (m : Orders F)
      → is_open req.offset ≡ true
      → is_empty req.instrument_id ≡ false
      → pos 0 <ℤ req.volume
      → get_pending_open_volume req.instrument_id req.direction (create_order req m).1
        ≡ get_pending_open_volume req.instrument_id req.direction m + pos_part req.volume
  unfolding get_pending_open_volume create_order apply_pending_open_delta
  create_order-pending req m op named h =
      let ref = (allocate_order_ref m).0 in
      rw named (
        counted-count_in (key_for req) (created_order req ref m) m.pending_open
        ∙ ap (λ (n : ℕ). counted (key_for req) m.pending_open + n)
            (contribution_new req ref m op h))

  module _ {G : Type 0} (gw : Gateways d G) (out : Surroundings d) where
    -- What holds of an account that the guards let go on.
    abbrev pub Passes : OrderRequest F → Engine d → G → ℕ → Account d → Type 0
    Passes req e g i a =
        (resolve_account d req.account_id e ≡ some (i, a))
        × (is_ready (trade_state_of d e.running (gw.is_logged_in i g) a) ≡ true)
        × (e.md_only_mode ≡ false)

    guard-cases :
        (req : OrderRequest F) (e : Engine d) (g : G)
        → ((answer : Answer) × (e' : Engine d) × (guard d gw out req e g ≡ inl (answer, e'))
            × (is_empty answer.order_ref ≡ true))
          ⊎ ((i : ℕ) × (a : Account d) × (guard d gw out req e g
                ≡ inr (i, told d no_reject a, store d i (told d no_reject a) e))
              × Passes req e g i a)
    unfolding guard
    guard-cases req e g = elim (Bool-cases (is_invalid d req)) [
      | inl k ↦ inl (refused invalid_param, e, rw (k, guard) refl, refl)
      | inr k ↦ elim (Option-cases (resolve_account d req.account_id e)) [
        | inl n ↦ inl (record { order_ref = []; reject = none }, e, rw (k, n, guard) refl, refl)
        | inr ((i, a), n) ↦ elim (Bool-cases e.md_only_mode) [
          | inl m ↦ inl (
            refused (for_reason engine_not_ready),
            store d i (told d engine_not_ready a) e,
            rw (k, n, m, guard) refl,
            refl,
          )
          | inr m ↦
              elim (Bool-cases (is_ready (trade_state_of d e.running (gw.is_logged_in i g) a))) [
                | inr r ↦
                    let state = trade_state_of d e.running (gw.is_logged_in i g) a in
                    inl (
                      refused (for_reason (state_reject state)),
                      store d i (told d (state_reject state) a) e,
                      rw (k, n, m, r, guard) refl,
                      refl,
                    )
                | inl r ↦ inr (i, a, rw (k, n, m, r, guard) refl, (n, r, m))
              ]
        ]
      ]
    ]

    checked_first :
        (i : ℕ) (a : Account d) (req : OrderRequest F) (e : Engine d) (g : G)
        → is_empty (send_checked d gw out i a req e g).0.order_ref ≡ false
        → (check_order d (world_of d out a) (call_of d req a e) a.risk_mgr).0 ≡ none
    unfolding send_checked
    checked_first i a req e g h =
        elim (Option-cases (check_order d (world_of d out a) (call_of d req a e) a.risk_mgr).0) [
          | inl n ↦ n
          | inr (r, n) ↦ absurd (cc (rw (n, send_checked) at h))
        ]

    open_not_close :
        (offset : Offset) (flag : Bool)
        → is_open offset ≡ true
        → (offset_eq offset close && flag) ≡ false
    open_not_close offset flag op = ground arith

    -- An opening order comes back with a reference only if its account is known and ready, the
    -- engine trades, and the net position with every pending opening order and this one is within
    -- the limit.
    pub sent_open :
        (req : OrderRequest F) (e : Engine d) (g : G)
        → is_open req.offset ≡ true
        → is_empty (send_order_unlocked d gw out req e g).0.order_ref ≡ false
        → (i : ℕ) × (a : Account d) × Passes req e g i a
          × (pos 0 <ℤ req.volume)
          × (abs_ℤ (projected_net d (world_of d out a) (call_of d req a e))
              ≤ℤ a.risk_mgr.max_net_position)
    unfolding send_order_unlocked
    sent_open req e g op h =
        let not_close : (offset_eq req.offset close && need_close_today_flag req.exchange_id)
            ≡ false =
          open_not_close req.offset (need_close_today_flag req.exchange_id) op in
        elim (guard-cases req e g) [
          | inl (answer, e', k, empty) ↦ absurd (cc (rw (k, send_order_unlocked) at h, empty))
          | inr (i, a, k, passes) ↦
              let sent = rw (k, not_close, send_order_unlocked) at h in
              let ok =
                checked_first i (told d no_reject a) req (store d i (told d no_reject a) e) g
                  sent in
              let limits = check_order-open d _ _ _ ok op in (i, a, passes, limits.0, limits.1)
        ]

    -- An opening order that passes the risk check but that the gateway does not take is answered
    -- with no reference, yet it stays with the order manager: the pending volume of its instrument
    -- and direction is raised by its volume.
    pub failed_send_reserves :
        (i : ℕ) (a : Account d) (req : OrderRequest F) (e : Engine d) (g : G)
        → (check_order d (world_of d out a) (call_of d req a e) a.risk_mgr).0 ≡ none
        → is_open req.offset ≡ true
        → is_empty req.instrument_id ≡ false
        → eq_ℤ (gw.send_order i req (create_order req a.order_mgr).0.order_ref g).0 (pos 0) ≡ false
        → (is_empty (send_checked d gw out i a req e g).0.order_ref ≡ true)
          × ((a' : Account d) × ((send_checked d gw out i a req e g).1 ≡ store d i a' e)
              × (get_pending_open_volume req.instrument_id req.direction a'.order_mgr
                  ≡ get_pending_open_volume req.instrument_id req.direction a.order_mgr
                    + pos_part req.volume))
    unfolding send_checked
    failed_send_reserves i a req e g ok op named failed =
        let checked = check_order d (world_of d out a) (call_of d req a e) a.risk_mgr in
        let a' : Account d = record a {
          order_mgr = (create_order req a.order_mgr).1;
          risk_mgr = on_order_sent d out.steady_now checked.1;
          last_reject_reason = gateway_send_failed;
        } in
        rw (ok, failed, send_checked)
          (refl, (a', refl, create_order-pending req a.order_mgr op named positive))
      where
        positive : pos 0 <ℤ req.volume
        positive = (check_order-open d _ _ _ ok op).0
