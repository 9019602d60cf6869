-- ===== src/Engine/Waiting.antt =====
-- src/engine/trading_engine.cpp: an account that waits for its snapshots while it counts as down, and
-- the changes of the list of accounts that keep it so.
use hft_framework.Common.{
  ℕ, zero, suc, ◌≡◌, refl, Bool, true, not, ◌&&◌, Option, some, List, [], ◌∷◌, arith, Text,
  get_elem?, Option-cases, inl, inr, both_branches,
}
use hft_framework.Double.{Double}
use hft_framework.Engine.State.{Account, Engine, resolve_account, find_account, replace_at}
use hft_framework.Engine.Reconnect.{
  is_down, each_account, any_account, made_ready, synced, resumed, maybe_finish_reconnect_sync,
  lacks_snapshot, is_synced, is_pending,
}

module _ (d : Double) where
  open d use {F}

  -- The account waits for its snapshots, is down, and began to wait at `start`.
  abbrev pub Waits : ℕ → Account d → Type 0
  Waits start a =
      (a.reconnect_sync_pending ≡ true)
      × (is_down a.trade_state ≡ true)
      × (a.reconnect_start_time ≡ start)

  abbrev pub WaitsAt : ℕ → ℕ → List (Account d) → Type 0
  WaitsAt i start accounts = (a : Account d) × (get_elem? accounts i ≡ some a) × Waits start a

  each_account-at :
      (f : Account d → Account d) (as' : List (Account d)) (i : ℕ) (a : Account d)
      → get_elem? as' i ≡ some a
      → get_elem? (each_account d f as') i ≡ some (f a)
  unfolding each_account
  each_account-at f [] i a e = absurd (cc)
  each_account-at f (b ∷ bs) zero a e = ground arith
  each_account-at f (b ∷ bs) (suc i) a e = each_account-at f bs i a e

  made_ready-Waits :
      (start : ℕ) (all_ready : Bool) (a : Account d)
      → Waits start a
      → Waits start (made_ready d all_ready a)
  made_ready-Waits start all_ready a h = ground arith

  synced-Waits : (start : ℕ) (a : Account d) → Waits start a → Waits start (synced d a)
  synced-Waits start a h = ground arith

  pub each_account-WaitsAt :
      (f : Account d → Account d) (i start : ℕ) (accounts : List (Account d))
      → ((a : Account d) → Waits start a → Waits start (f a))
      → WaitsAt i start accounts
      → WaitsAt i start (each_account d f accounts)
  each_account-WaitsAt f i start accounts keeps (a, found, h) =
      (f a, each_account-at f accounts i a found, keeps a h)

  pub finish-WaitsAt :
      (i start : ℕ) (e : Engine d)
      → WaitsAt i start e.accounts
      → WaitsAt i start (maybe_finish_reconnect_sync d e).1.accounts
  unfolding maybe_finish_reconnect_sync
  finish-WaitsAt i start e h =
      let all_ready = not (any_account d (lacks_snapshot d) e.accounts) in
      let readied = each_account d (made_ready d all_ready) e.accounts in
      let accounts' = each_account d (synced d) readied in
      let after : WaitsAt i start accounts' =
        each_account-WaitsAt (synced d) i start readied (synced-Waits start) (
          each_account-WaitsAt (made_ready d all_ready) i start e.accounts
            (made_ready-Waits start all_ready) h) in
      let completed =
        all_ready
        && any_account d (is_synced d) readied
        && not (any_account d (is_pending d) accounts') in
      both_branches completed (WaitsAt i start)
        (each_account-WaitsAt (resumed d) i start accounts' (λ a w. w) after) after

  -- A change of one account.
  pub replace_at-WaitsAt :
      (i start j : ℕ) (b b' : Account d) (accounts : List (Account d))
      → get_elem? accounts j ≡ some b
      → (Waits start b → Waits start b')
      → WaitsAt i start accounts
      → WaitsAt i start (replace_at d j b' accounts)
  unfolding replace_at
  replace_at-WaitsAt i start j b b' [] e keeps h = absurd (cc)
  replace_at-WaitsAt zero start zero b b' (c ∷ cs) e keeps (a, found, h) =
      let same : a ≡ b = ground arith in (b', refl, keeps (rw same at h))
  replace_at-WaitsAt (suc i) start zero b b' (c ∷ cs) e keeps h = h
  replace_at-WaitsAt zero start (suc j) b b' (c ∷ cs) e keeps h = h
  replace_at-WaitsAt (suc i) start (suc j) b b' (c ∷ cs) e keeps h =
      replace_at-WaitsAt i start j b b' cs e keeps h

  pub resolve_account-at :
      (account_id : Text) (e : Engine d) (j : ℕ) (b : Account d)
      → resolve_account d account_id e ≡ some (j, b)
      → get_elem? e.accounts j ≡ some b
  unfolding resolve_account
  resolve_account-at account_id e j b h = elim (Option-cases (find_account d account_id e)) [
    | inl n ↦ absurd (cc (rw (n, resolve_account) at h))
    | inr (k, n) ↦ elim (Option-cases (get_elem? e.accounts k)) [
      | inl m ↦ absurd (cc (rw (n, m, resolve_account) at h))
      | inr (c, m) ↦ same k c m (rw (n, m, resolve_account) at h)
    ]
  ]
    where
      same :
          (k : ℕ) (c : Account d)
          → get_elem? e.accounts k ≡ some c
          → ◌≡◌ {A = Option (ℕ × Account d)} (some (k, c)) (some (j, b))
          → get_elem? e.accounts j ≡ some b
      same k c m h = ground arith
