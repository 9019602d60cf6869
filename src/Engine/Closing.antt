-- ===== src/Engine/Closing.antt =====
-- src/engine/trading_engine.cpp: how a close is divided between the positions of today and of
-- yesterday.
use hft_framework.Common.{
  ◌≡◌, refl, inl, inr, ◌⊎◌, ℤ, pos, ◌+ℤ◌, ◌-ℤ◌, +ℤ_parts, -ℤ_parts, ◌≤ℤ◌, ◌<ℤ◌, leb_ℤ, ltb_ℤ, true,
  false, ◌&&◌, arith, Bool-cases, int_laws,
}
use hft_framework.Double.{Double}
use hft_framework.Types.{close_today, close_yesterday, OrderRequest}
use hft_framework.Engine.State.{Account}
use hft_framework.Engine.Sending.{
  available_today, available_yesterday, Routing, whole, split, not_held, route_close,
}

module _ (d : Double) where
  open d use {F}

  -- What a routing of a close has to fit: the whole volume in one part, or both parts of a split,
  -- which add up to it.
  abbrev pub Fits : OrderRequest F → Account d → Routing d → Type 0
  Fits req a (whole r) =
      (r.volume ≡ req.volume)
      × (((r.offset ≡ close_today) × (req.volume ≤ℤ available_today d req a))
          ⊎ ((r.offset ≡ close_yesterday) × (req.volume ≤ℤ available_yesterday d req a)))
  Fits req a (split r s) =
      (r.offset ≡ close_today)
      × (s.offset ≡ close_yesterday)
      × (r.volume +ℤ s.volume ≡ req.volume)
      × (pos 0 <ℤ r.volume)
      × (pos 0 <ℤ s.volume)
      × (r.volume ≡ available_today d req a)
      × (s.volume ≤ℤ available_yesterday d req a)
  Fits req a not_held =
      (available_today d req a <ℤ req.volume) × (available_yesterday d req a <ℤ req.volume)

  parts_add : (t v : ℤ) → t +ℤ (v -ℤ t) ≡ v
  parts_add t v = omega int_laws

  leb→≤ℤ : (a b : ℤ) → leb_ℤ a b ≡ true → a ≤ℤ b
  leb→≤ℤ a b e = ground arith

  leb→<ℤ : (a b : ℤ) → leb_ℤ a b ≡ false → b <ℤ a
  leb→<ℤ a b e = ground arith

  split_fits :
      (v t y : ℤ)
      → leb_ℤ v t ≡ false
      → (leb_ℤ v (t +ℤ y) && ltb_ℤ (pos 0) t && ltb_ℤ (pos 0) y) ≡ true
      → (pos 0 <ℤ t) × (pos 0 <ℤ v -ℤ t) × (v -ℤ t ≤ℤ y)
  split_fits v t y e f = ground (arith, +ℤ_parts t y, -ℤ_parts v t)

  -- A close is routed within what is held and not reserved: as one order for today's or yesterday's
  -- part, or as one for each whose volumes are positive and add up to the request's; it is refused
  -- only if it fits neither part alone.
  pub route_close-Fits : (req : OrderRequest F) (a : Account d) → Fits req a (route_close d req a)
  unfolding route_close
  route_close-Fits req a =
      let v = req.volume in
      let t = available_today d req a in
      let y = available_yesterday d req a in
      elim (Bool-cases (leb_ℤ v t)) [
        | inl e ↦ rw (e, route_close) (refl, inl (refl, leb→≤ℤ v t e))
        | inr e ↦ elim (Bool-cases (leb_ℤ v y)) [
          | inl f ↦ rw (e, f, route_close) (refl, inr (refl, leb→≤ℤ v y f))
          | inr f ↦ elim (Bool-cases (leb_ℤ v (t +ℤ y) && ltb_ℤ (pos 0) t && ltb_ℤ (pos 0) y)) [
            | inl g ↦
                let (some_today, some_rest, within) = split_fits v t y e g in
                rw (e, f, g, route_close)
                  (refl, refl, parts_add t v, some_today, some_rest, refl, within)
            | inr g ↦ rw (e, f, g, route_close) (leb→<ℤ v t e, leb→<ℤ v y f)
          ]
        ]
      ]
