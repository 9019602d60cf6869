-- ===== src/Risk/Refusals.antt =====
-- src/risk/risk_manager.cpp: what a refused order leaves behind, and the limits of the parameters.
use hft_framework.Common.{
  ◌+◌, ◌≡◌, refl, inl, inr, ℤ, pos, ◌≤ℤ◌, Option, none, some, [], ◌∷◌, ◌++◌, arith, Option-cases,
  safe_copy,
}
use hft_framework.Double.{Double}
use hft_framework.Risk.State.{Risk, World, Params, Reason, RiskEvent, refusal}
use hft_framework.Risk.Checks.{Call, Refusal, first_checks, check_rates}
use hft_framework.Risk.Methods.{
  answer, reject, check_order, prune_order_rate, prune_cancel_order, prune_cancel,
}
use hft_framework.Risk.Accepts.{pruned, check_order_refused, check_order_checked}
use hft_framework.Risk.Settings.{clamp, clamp_risk_params}

module _ (d : Double) where
  -- The events and the count of a call: one more of each for a refusal, none for a pass.
  abbrev pub IsRecorded : World d → Call d → Risk d → Option Reason × Risk d → Type 0
  IsRecorded w c r (none, r') =
      (r'.pending_risk_events ≡ r.pending_risk_events)
      × (r'.total_rejects_today ≡ r.total_rejects_today)
      × (r'.last_error_code ≡ r.last_error_code)
  IsRecorded w c r (some reason, r') =
      (r'.total_rejects_today ≡ r.total_rejects_today + 1)
      × ((event : RiskEvent) × (r'.pending_risk_events ≡ r.pending_risk_events ++ event ∷ [])
          × (event.message ≡ refusal reason)
          × (event.error_code ≡ r'.last_error_code)
          × (event.instrument_id ≡ safe_copy c.req.instrument_id 24)
          × (event.mode ≡ r.rms_mode))

  answer-IsRecorded :
      (w : World d) (c : Call d) (o : Option Refusal) (r : Risk d)
      → IsRecorded w c r (answer d w c o r)
  unfolding reject
  answer-IsRecorded w c none r = (refl, refl, refl)
  answer-IsRecorded w c (some e) r = (refl, (_, refl, refl, refl, refl, refl))

  pruned-IsRecorded :
      (w : World d) (c : Call d) (r : Risk d) (x : Option Reason × Risk d)
      → IsRecorded w c (pruned d w r) x
      → IsRecorded w c r x
  unfolding prune_order_rate prune_cancel_order prune_cancel
  pruned-IsRecorded w c r (none, r') h = h
  pruned-IsRecorded w c r (some reason, r') h = h

  -- A refusal counts as one more reject of the day and adds one event, which has the reason that is
  -- returned, the code that is kept as the last error, the instrument and the mode; a pass adds
  -- none and changes neither the count nor the last error.
  pub check_order-IsRecorded :
      (w : World d) (c : Call d) (r : Risk d) → IsRecorded w c r (check_order d w c r)
  check_order-IsRecorded w c r = elim (Option-cases (first_checks d w r c)) [
    | inl e ↦ rw (check_order_checked d w c r e) (
        pruned-IsRecorded w c r _
          (answer-IsRecorded w c (check_rates d (pruned d w r) c) (pruned d w r)))
    | inr (x, e) ↦ rw (check_order_refused d w c r x e) (answer-IsRecorded w c (some x) r)
  ]

  abbrev pub Between : ℤ → ℤ → ℤ → Type 0
  Between lo hi n = (lo ≤ℤ n) × (n ≤ℤ hi)

  clamp-Between : (lo hi n : ℤ) → lo ≤ℤ hi → Between lo hi (clamp lo hi n)
  unfolding clamp
  clamp-Between lo hi n h = (ground arith, ground arith)

  -- After the limits are applied every integer parameter is in its range.
  pub clamp_risk_params_lem :
      (p : Params d)
      → let q = clamp_risk_params d p in
        Between (pos 1) (pos 10000) q.max_order_size
        × Between (pos 1) (pos 50000) q.max_net_position
        × Between (pos 0) (pos 500000) q.max_total_position
        × Between (pos 1) (pos 600) q.max_orders_per_minute
        × Between (pos 1) (pos 1440) q.cancel_rate_window_minutes
        × Between (pos 1) (pos 1000) q.cancel_rate_min_sample
  unfolding clamp_risk_params
  clamp_risk_params_lem p = (
    clamp-Between (pos 1) (pos 10000) p.max_order_size (omega arith),
    clamp-Between (pos 1) (pos 50000) p.max_net_position (omega arith),
    clamp-Between (pos 0) (pos 500000) p.max_total_position (omega arith),
    clamp-Between (pos 1) (pos 600) p.max_orders_per_minute (omega arith),
    clamp-Between (pos 1) (pos 1440) p.cancel_rate_window_minutes (omega arith),
    clamp-Between (pos 1) (pos 1000) p.cancel_rate_min_sample (omega arith),
  )
