-- ===== src/Engine/Stuck.antt =====
-- src/engine/trading_engine.cpp: an account that reconnects while it counts as down.
use hft_framework.Common.{
  ℕ, zero, suc, ◌+◌, ◌-◌, ◌/◌, ◌≡◌, ◌<◌, refl, ap, ◌∙◌, ℤ, Bool, true, false, ◌&&◌, some, List, [],
  ◌∷◌, arith, leb, Text, get_elem?, Option-cases, inl, inr, All,
}
use hft_framework.Double.{Double}
use hft_framework.Types.{OrderInfo, PositionInfo}
use hft_framework.Engine.State.{Account, Engine, resolve_account, replace_at, store}
use hft_framework.Engine.Reconnect.{
  is_down, reset_snapshot_state, reconnected_account, on_trade_reconnected, apply_account_snapshot,
  apply_position_snapshot, apply_active_orders_snapshot, check_gateway, check_gateways,
  seconds_pending, expire_reconnect, check_accounts,
}
use hft_framework.Engine.Waiting.{
  Waits, WaitsAt, each_account-WaitsAt, finish-WaitsAt, replace_at-WaitsAt, resolve_account-at,
}

module _ (d : Double) where
  open d use {F}

  -- What happens to an engine while an account waits.
  pub data Step : Type 0 where
    takes_account : Text → F → Step
    takes_positions : Text → List (PositionInfo F) → Step
    takes_orders : ℕ → Text → List (OrderInfo F) → Step
    checks : (ℕ → Bool) → ℕ → ℤ → Step

  unfoldable pub step : Step → Engine d → Engine d
  step (takes_account account_id balance) e = (apply_account_snapshot d account_id balance e).1
  step (takes_positions account_id ps) e = (apply_position_snapshot d account_id ps e).1
  step (takes_orders now account_id os) e = (apply_active_orders_snapshot d now account_id os e).1
  step (checks logged_in now wall_ms) e = check_accounts d logged_in now wall_ms e

  unfoldable pub steps : List Step → Engine d → Engine d
  unfolding step
  steps [] e = e
  steps (s ∷ ss) e = steps ss (step s e)

  -- A check of the accounts finds the gateway logged in, less than 30 seconds after the start.
  abbrev pub IsEarly : ℕ → ℕ → Step → Type 0
  IsEarly i start (checks logged_in now wall_ms) =
      (logged_in i ≡ true) × ((now - start) / 1_000_000_000 < 30)
  IsEarly i start (takes_account account_id balance) = Unit
  IsEarly i start (takes_positions account_id ps) = Unit
  IsEarly i start (takes_orders now account_id os) = Unit

  check_gateway-Waits :
      (start : ℕ) (a : Account d) → Waits d start a → Waits d start (check_gateway d true a)
  unfolding check_gateway
  check_gateway-Waits start a h = ground arith

  check_gateways-WaitsAt :
      (logged_in : ℕ → Bool) (i j start : ℕ) (accounts : List (Account d))
      → logged_in (j + i) ≡ true
      → WaitsAt d i start accounts
      → WaitsAt d i start (check_gateways d logged_in j accounts)
  unfolding check_gateways
  check_gateways-WaitsAt logged_in i j start [] l (a, found, h) = absurd (cc)
  check_gateways-WaitsAt logged_in zero j start (b ∷ bs) l (a, found, h) =
      let same : a ≡ b = ground arith in
      let here : logged_in j ≡ true = ap logged_in (omega arith) ∙ l in
      (check_gateway d (logged_in j) b, refl, rw here (check_gateway-Waits start b (rw same at h)))
  check_gateways-WaitsAt logged_in (suc i) j start (b ∷ bs) l h =
      check_gateways-WaitsAt logged_in i (j + 1) start bs (ap logged_in (omega arith) ∙ l) h

  expire-Waits :
      (start now : ℕ) (wall_ms : ℤ) (a : Account d)
      → (now - start) / 1_000_000_000 < 30
      → Waits d start a
      → Waits d start (expire_reconnect d now wall_ms a)
  unfolding expire_reconnect
  expire-Waits start now wall_ms a early h =
      let soon : leb 30 (seconds_pending d now a) ≡ false = rw h.2 (ground arith) in
      let off : (a.reconnect_sync_pending && leb 30 (seconds_pending d now a)) ≡ false =
        ground arith in
      rw (off, expire_reconnect) h

  store-WaitsAt :
      (i start j : ℕ) (b b' : Account d) (account_id : Text) (e : Engine d)
      → resolve_account d account_id e ≡ some (j, b)
      → (Waits d start b → Waits d start b')
      → WaitsAt d i start e.accounts
      → WaitsAt d i start (store d j b' e).accounts
  store-WaitsAt i start j b b' account_id e r keeps h =
      replace_at-WaitsAt d i start j b b' e.accounts (resolve_account-at d account_id e j b r) keeps
        h

  step-WaitsAt :
      (i start : ℕ) (s : Step) (e : Engine d)
      → IsEarly i start s
      → WaitsAt d i start e.accounts
      → WaitsAt d i start (step s e).accounts
  unfolding step apply_account_snapshot apply_position_snapshot apply_active_orders_snapshot
      check_accounts
  step-WaitsAt i start (takes_account account_id balance) e early h =
      elim (Option-cases (resolve_account d account_id e)) [
        | inl n ↦ rw (n, step, apply_account_snapshot) h
        | inr ((j, b), n) ↦
            rw (n, step, apply_account_snapshot)
              (finish-WaitsAt d i start _ (store-WaitsAt i start j b _ account_id e n (λ w. w) h))
      ]
  step-WaitsAt i start (takes_positions account_id ps) e early h =
      elim (Option-cases (resolve_account d account_id e)) [
        | inl n ↦ rw (n, step, apply_position_snapshot) h
        | inr ((j, b), n) ↦
            rw (n, step, apply_position_snapshot)
              (finish-WaitsAt d i start _ (store-WaitsAt i start j b _ account_id e n (λ w. w) h))
      ]
  step-WaitsAt i start (takes_orders now account_id os) e early h =
      elim (Option-cases (resolve_account d account_id e)) [
        | inl n ↦ rw (n, step, apply_active_orders_snapshot) h
        | inr ((j, b), n) ↦
            rw (n, step, apply_active_orders_snapshot)
              (finish-WaitsAt d i start _ (store-WaitsAt i start j b _ account_id e n (λ w. w) h))
      ]
  step-WaitsAt i start (checks logged_in now wall_ms) e early h =
      each_account-WaitsAt d (expire_reconnect d now wall_ms) i start _
        (λ a w. expire-Waits start now wall_ms a early.1 w)
        (check_gateways-WaitsAt logged_in i 0 start e.accounts
          (ap logged_in (omega arith) ∙ early.0) h)

  steps-WaitsAt :
      (i start : ℕ) (ss : List Step) (e : Engine d)
      → All (IsEarly i start) ss
      → WaitsAt d i start e.accounts
      → WaitsAt d i start (steps ss e).accounts
  unfolding steps
  steps-WaitsAt i start [] e early h = h
  steps-WaitsAt i start (s ∷ ss) e early h =
      steps-WaitsAt i start ss (step s e) early.1 (step-WaitsAt i start s e early.0 h)

  reconnected_account-Waits :
      (front session max_ref : ℤ) (now : ℕ) (was_running : Bool) (a : Account d)
      → is_down a.trade_state ≡ true
      → Waits d now (reconnected_account d front session max_ref now was_running a)
  unfolding reconnected_account reset_snapshot_state
  reconnected_account-Waits front session max_ref now was_running a down =
      rw (down, reset_snapshot_state) (refl, down, refl)

  replaced-at :
      (j : ℕ) (b b' : Account d) (accounts : List (Account d))
      → get_elem? accounts j ≡ some b
      → get_elem? (replace_at d j b' accounts) j ≡ some b'
  unfolding replace_at
  replaced-at j b b' [] e = absurd (cc)
  replaced-at zero b b' (c ∷ cs) e = refl
  replaced-at (suc j) b b' (c ∷ cs) e = replaced-at j b b' cs e

  -- An account that reconnects while it counts as down stays so, waiting: for the next 30 seconds
  -- no snapshot of any account and no check that finds its gateway logged in ends the wait.
  pub reconnect_while_down :
      (account_id : Text) (front session max_ref : ℤ) (now i : ℕ) (a : Account d) (e : Engine d)
      (ss : List Step)
      → resolve_account d account_id e ≡ some (i, a)
      → is_down a.trade_state ≡ true
      → All (IsEarly i now) ss
      → WaitsAt d i now
          (steps ss (on_trade_reconnected d account_id front session max_ref now e)).accounts
  unfolding on_trade_reconnected
  reconnect_while_down account_id front session max_ref now i a e ss r down early =
      rw (r, on_trade_reconnected)
        (steps-WaitsAt i now ss _ early (
          _,
          replaced-at i a _ e.accounts (resolve_account-at d account_id e i a r),
          reconnected_account-Waits front session max_ref now _ a down,
        ))
