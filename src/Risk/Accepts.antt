-- ===== src/Risk/Accepts.antt =====
-- src/risk/risk_manager.cpp: what an order that `check_order` passes has shown.
use hft_framework.Common.{
  ◌≡◌, refl, ◌⊎◌, inl, inr, pos, ◌+ℤ◌, ◌≤ℤ◌, ◌<ℤ◌, leb_ℤ, abs_ℤ, -ℤ_parts, +ℤ_parts, Bool, true,
  false, Option, none, some, arith, if◌then◌else◌, Option-cases,
}
use hft_framework.Double.{Double}
use hft_framework.Types.{is_open, OrderRequest, Offset, market, fak}
use hft_framework.Positions.Book.{get_total_absolute_position}
use hft_framework.Risk.State.{
  Risk, World, Reason, RiskErrorCode, RiskMode, normal, warning, no_open, reduce_only, liquidating,
  halted,
}
use hft_framework.Risk.Checks.{
  Refusal, ◌then_check◌, refuse_if, mode_refusal, check_rms_mode, Call, check_price, check_new_risk,
  projected_net, check_open, held_for, reserved_for, check_close, first_checks, check_rates,
}
use hft_framework.Risk.Methods.{
  answer, check_order, prune_order_rate, prune_cancel_order, prune_cancel,
}

pub then_check-none : (a b : Option Refusal) → (a then_check b) ≡ none → (a ≡ none) × (b ≡ none)
then_check-none none b e = (refl, e)
then_check-none (some x) b e = absurd (cc)

pub refuse_if-none :
    (b : Bool) (reason : Reason) (code : RiskErrorCode) → refuse_if b reason code ≡ none → b ≡ false
refuse_if-none true _ _ e = absurd (cc)
refuse_if-none false _ _ e = refl

module _ (d : Double) where
  pub answer-none :
      (w : World d) (c : Call d) (e : Option Refusal) (r : Risk d)
      → (answer d w c e r).0 ≡ none
      → e ≡ none
  answer-none w c none r h = refl
  answer-none w c (some e) r h = absurd (cc)

  -- The state in which the rates are checked.
  abbrev pub pruned : World d → Risk d → Risk d
  pruned w r =
      prune_cancel d w.steady_now
        (prune_cancel_order d w.steady_now (prune_order_rate d w.steady_now r))

  pub check_order_refused :
      (w : World d) (c : Call d) (r : Risk d) (e : Refusal)
      → first_checks d w r c ≡ some e
      → check_order d w c r ≡ answer d w c (some e) r
  unfolding check_order
  check_order_refused w c r e h = rw (h, check_order) refl

  pub check_order_checked :
      (w : World d) (c : Call d) (r : Risk d)
      → first_checks d w r c ≡ none
      → check_order d w c r ≡ answer d w c (check_rates d (pruned w r) c) (pruned w r)
  unfolding check_order
  check_order_checked w c r h = rw (h, check_order) refl

  pub check_order_passes :
      (w : World d) (c : Call d) (r : Risk d)
      → (check_order d w c r).0 ≡ none
      → (first_checks d w r c ≡ none) × (check_rates d (pruned w r) c ≡ none)
  check_order_passes w c r h = elim (Option-cases (first_checks d w r c)) [
    | inl e ↦ (e, answer-none w c _ _ (rw (check_order_checked w c r e) at h))
    | inr (x, e) ↦ absurd (let k = rw (check_order_refused w c r x e) at h in cc)
  ]

  -- Every check before the rates, one by one.
  pub record IsPassed (w : World d) (c : Call d) (r : Risk d) : Type 0 where
    pub mode : check_rms_mode r.rms_mode c.req.offset c.is_risk_reduction ≡ none
    pub volume : pos 0 <ℤ c.req.volume
    pub price : check_price d w r c.req ≡ none
    pub new_risk : (if c.is_risk_reduction then none else check_new_risk d w r c.req) ≡ none
    pub position :
        (if is_open c.req.offset then check_open d w r c else check_close d w c.req) ≡ none

  mode_refusal-none : (o : Option RiskErrorCode) → mode_refusal o ≡ none → o ≡ none
  mode_refusal-none none e = refl
  mode_refusal-none (some x) e = absurd (cc)

  pub first_checks-none :
      (w : World d) (c : Call d) (r : Risk d) → first_checks d w r c ≡ none → IsPassed w c r
  unfolding first_checks
  first_checks-none w c r h =
      let h1 = then_check-none _ _ h in
      let h2 = then_check-none _ _ h1.1 in
      let h3 = then_check-none _ _ h2.1 in
      let h4 = then_check-none _ _ h3.1 in
      let v = refuse_if-none _ _ _ h2.0 in
      record {
        mode = mode_refusal-none _ h1.0;
        volume = ground arith;
        price = h3.0;
        new_risk = h4.0;
        position = h4.1;
      }

  check_open-none :
      (w : World d) (c : Call d) (r : Risk d)
      → check_open d w r c ≡ none
      → (abs_ℤ (projected_net d w c) ≤ℤ r.max_net_position)
        × ((r.max_total_position ≤ℤ pos 0)
            ⊎ (get_total_absolute_position d w.positions +ℤ c.req.volume ≤ℤ r.max_total_position))
  unfolding check_open
  check_open-none w c r h =
      let h1 = then_check-none _ _ h in
      let net = refuse_if-none _ _ _ h1.0 in
      let total = refuse_if-none _ _ _ h1.1 in (ground arith, ground arith)

  -- An opening order that passes has a positive volume, and with it and every pending opening
  -- order the net position stays within the limit on either side; so does the sum of all
  -- positions with this order added, unless that limit is off.
  pub check_order-open :
      (w : World d) (c : Call d) (r : Risk d)
      → (check_order d w c r).0 ≡ none
      → is_open c.req.offset ≡ true
      → (pos 0 <ℤ c.req.volume)
        × (abs_ℤ (projected_net d w c) ≤ℤ r.max_net_position)
        × ((r.max_total_position ≤ℤ pos 0)
            ⊎ (get_total_absolute_position d w.positions +ℤ c.req.volume ≤ℤ r.max_total_position))
  check_order-open w c r h o =
      let p = first_checks-none w c r (check_order_passes w c r h).0 in
      let limits = check_open-none w c r (rw o at p.position) in (p.volume, limits.0, limits.1)

  -- A closing order that passes has a positive volume, and it fits, beside what pending orders
  -- have reserved, in the part of the position that its offset closes.
  pub check_order-close :
      (w : World d) (c : Call d) (r : Risk d)
      → (check_order d w c r).0 ≡ none
      → is_open c.req.offset ≡ false
      → (pos 0 <ℤ c.req.volume) × (reserved_for d w c.req +ℤ c.req.volume ≤ℤ held_for d w c.req)
  unfolding check_close
  check_order-close w c r h o =
      let p = first_checks-none w c r (check_order_passes w c r h).0 in
      let fits = refuse_if-none _ _ _ (rw o at p.position) in
      let v = p.volume in
      (
        p.volume,
        ground (
          arith,
          -ℤ_parts (held_for d w c.req) (reserved_for d w c.req),
          +ℤ_parts (reserved_for d w c.req) c.req.volume,
        ),
      )

  -- The modes that let an opening order pass.
  abbrev pub Permits : RiskMode → Bool → Type 0
  Permits mode is_risk_reduction =
      (mode ≡ normal)
      ⊎ ((mode ≡ warning) ⊎ ((is_risk_reduction ≡ true) × ((mode ≡ reduce_only) ⊎ (mode ≡ halted))))

  check_rms_mode-none :
      (mode : RiskMode) (offset : Offset) (is_risk_reduction : Bool)
      → is_open offset ≡ true
      → check_rms_mode mode offset is_risk_reduction ≡ none
      → Permits mode is_risk_reduction
  unfolding check_rms_mode
  check_rms_mode-none normal offset b o h = inl refl
  check_rms_mode-none warning offset b o h = inr (inl refl)
  check_rms_mode-none no_open offset b o h = absurd (let k = rw o at h in cc)
  check_rms_mode-none liquidating offset b o h = absurd (let k = rw o at h in cc)
  check_rms_mode-none reduce_only offset true o h = inr (inr (refl, inl refl))
  check_rms_mode-none reduce_only offset false o h = absurd (let k = rw o at h in cc)
  check_rms_mode-none halted offset true o h = inr (inr (refl, inr refl))
  check_rms_mode-none halted offset false o h = absurd (let k = rw o at h in cc)

  -- An opening order passes in the modes normal and warning only, unless the caller says that it
  -- reduces risk: then in reduce_only and halted as well.
  pub check_order-mode :
      (w : World d) (c : Call d) (r : Risk d)
      → (check_order d w c r).0 ≡ none
      → is_open c.req.offset ≡ true
      → Permits r.rms_mode c.is_risk_reduction
  check_order-mode w c r h o =
      let p = first_checks-none w c r (check_order_passes w c r h).0 in
      check_rms_mode-none r.rms_mode c.req.offset c.is_risk_reduction o p.mode

  -- Closing is never refused for the mode.
  close_mode :
      (mode : RiskMode) (offset : Offset) (b : Bool)
      → is_open offset ≡ false
      → check_rms_mode mode offset b ≡ none
  unfolding check_rms_mode
  close_mode normal offset b o = refl
  close_mode warning offset b o = refl
  close_mode no_open offset b o = rw o refl
  close_mode liquidating offset b o = rw o refl
  close_mode reduce_only offset true o = refl
  close_mode reduce_only offset false o = rw o refl
  close_mode halted offset true o = refl
  close_mode halted offset false o = rw o refl

  free_price :
      (w : World d) (r : Risk d) (req : OrderRequest d.F)
      → (req.price_type ≡ market) ⊎ (req.price_type ≡ fak)
      → check_price d w r req ≡ none
  unfolding check_price
  free_price w r req (inl e) = rw (e, check_price) refl
  free_price w r req (inr e) = rw (e, check_price) refl

  close_fits :
      (w : World d) (req : OrderRequest d.F)
      → reserved_for d w req +ℤ req.volume ≤ℤ held_for d w req
      → check_close d w req ≡ none
  unfolding check_close
  close_fits w req h = ground (
    arith,
    -ℤ_parts (held_for d w req) (reserved_for d w req),
    +ℤ_parts (reserved_for d w req) req.volume,
  )

  first_reducing :
      (w : World d) (c : Call d) (r : Risk d)
      → c.is_risk_reduction ≡ true
      → is_open c.req.offset ≡ false
      → (c.req.price_type ≡ market) ⊎ (c.req.price_type ≡ fak)
      → pos 0 <ℤ c.req.volume
      → reserved_for d w c.req +ℤ c.req.volume ≤ℤ held_for d w c.req
      → first_checks d w r c ≡ none
  unfolding first_checks
  first_reducing w c r red o free v fits =
      let positive : leb_ℤ c.req.volume (pos 0) ≡ false = ground arith in
      simp (
        red,
        o,
        close_mode r.rms_mode c.req.offset true o,
        positive,
        free_price w r c.req free,
        close_fits w c.req fits,
      )

  rates_reducing : (r : Risk d) (c : Call d) → c.is_risk_reduction ≡ true → check_rates d r c ≡ none
  unfolding check_rates
  rates_reducing r c red = simp red

  -- An order that reduces risk, closes, has no limit price and a positive volume passes when what
  -- it closes is not reserved, whatever the mode, the loss of the day, the hours and the rates.
  pub check_order-reducing :
      (w : World d) (c : Call d) (r : Risk d)
      → c.is_risk_reduction ≡ true
      → is_open c.req.offset ≡ false
      → (c.req.price_type ≡ market) ⊎ (c.req.price_type ≡ fak)
      → pos 0 <ℤ c.req.volume
      → reserved_for d w c.req +ℤ c.req.volume ≤ℤ held_for d w c.req
      → (check_order d w c r).0 ≡ none
  check_order-reducing w c r red o free v fits =
      let first = first_reducing w c r red o free v fits in
      let rates = rates_reducing (pruned w r) c red in
      rw (check_order_checked w c r first, rates) refl
