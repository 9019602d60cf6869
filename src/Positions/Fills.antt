-- ===== src/Positions/Fills.antt =====
-- When a closing fill raises the reconciliation flag of src/position/position_manager.cpp, and what it
-- leaves of the position.
use hft_framework.Common.{
  ◌≡◌, refl, sym, subst, ◌∙◌, inl, inr, ap, ℤ, pos, pos_part, neg_part, ◌+ℤ◌, ◌-ℤ◌, ◌≤ℤ◌, ◌<ℤ◌,
  ltb_ℤ, int_laws, ltb→lt, Bool, true, false, not, ◌||◌, Bool-cases, arith,
}
use hft_framework.Double.{Double}
use hft_framework.Types.{
  Offset, open_position, close, close_today, close_yesterday, PositionInfo, TradeInfo,
}
use hft_framework.Positions.Book.{
  Volumes, closed_volumes, clamped, balanced, volumes, opened, closed, diverges,
}
use hft_framework.Positions.Balance.{closeable, AreSound, clamped_sound, closed-Fits, over_one_part}

-- The test that raises the flag, on the volumes alone.
unfoldable flags : Offset → ℤ → Volumes → Bool
flags o n v = ltb_ℤ v.total n || not (balanced (clamped (closed_volumes o n v)))

closeable-le-total : (o : Offset) (v : Volumes) → AreSound v → closeable o v ≤ℤ v.total
closeable-le-total close_today v s = omega (int_laws, ap pos_part s.adds_up, ap neg_part s.adds_up)
closeable-le-total close_yesterday v s =
    omega (int_laws, ap pos_part s.adds_up, ap neg_part s.adds_up)
closeable-le-total open_position v s = omega arith
closeable-le-total close v s = omega arith

flags_fits :
    (o : Offset) (n : ℤ) (v : Volumes)
    → pos 0 ≤ℤ n
    → AreSound v
    → n ≤ℤ closeable o v
    → flags o n v ≡ false
unfolding flags balanced
flags_fits o n v h s f =
    let (t, a, b, e, moved) = closed-Fits o n v h s f in
    let (same, sound) = clamped_sound (closed_volumes o n v) t a b e in
    rw same (ground (arith, closeable-le-total o v s, ap pos_part e, ap neg_part e))

flags_over :
    (o : Offset) (n : ℤ) (v : Volumes) → AreSound v → closeable o v <ℤ n → flags o n v ≡ true
unfolding flags balanced clamped closed_volumes
flags_over close_today n v s over = elim (Bool-cases (ltb_ℤ v.total n)) [
  | inl more ↦ rw more
  | inr le ↦
      let unbalanced =
        over_one_part n v.total v.today v.yesterday s.yesterday_nonneg s.adds_up over
          (ground arith) in
      rw (le, unbalanced.0)
]
flags_over close_yesterday n v s over = elim (Bool-cases (ltb_ℤ v.total n)) [
  | inl more ↦ rw more
  | inr le ↦
      let unbalanced =
        over_one_part n v.total v.yesterday v.today s.today_nonneg
          (omega (int_laws, ap pos_part s.adds_up, ap neg_part s.adds_up)) over (ground arith) in
      rw (le, unbalanced.1)
]
flags_over open_position n v s over = let more : ltb_ℤ v.total n ≡ true = ground arith in rw more
flags_over close n v s over = let more : ltb_ℤ v.total n ≡ true = ground arith in rw more

grown :
    (n t a b : ℤ)
    → pos 0 ≤ℤ n
    → AreSound (record { total = t; today = a; yesterday = b })
    → AreSound (record { total = t +ℤ n; today = a +ℤ n; yesterday = b })
grown n t a b h s = record {
  total_nonneg = omega (int_laws, s.total_nonneg);
  today_nonneg = omega (int_laws, s.today_nonneg);
  yesterday_nonneg = s.yesterday_nonneg;
  adds_up = omega (int_laws, ap pos_part s.adds_up, ap neg_part s.adds_up);
}

module _ (d : Double) where
  open d use {F}

  -- A closing fill of a sound position raises the flag exactly when its volume exceeds what it
  -- closes: the volume of today, the volume of the days before, or the total.
  pub diverges_lem :
      (t : TradeInfo F) (p : PositionInfo F)
      → pos 0 ≤ℤ t.volume
      → AreSound (volumes d p)
      → diverges d t p ≡ ltb_ℤ (closeable t.offset (volumes d p)) t.volume
  unfolding diverges flags
  diverges_lem t p h s = elim (Bool-cases (ltb_ℤ (closeable t.offset (volumes d p)) t.volume)) [
    | inl over ↦ flags_over t.offset t.volume (volumes d p) s (ltb→lt _ _ over) ∙ sym over
    | inr fits ↦ flags_fits t.offset t.volume (volumes d p) h s (ground arith) ∙ sym fits
  ]

  -- One that does not raise it takes its volume off the total, and leaves a sound position.
  pub closed_lem :
      (t : TradeInfo F) (p : PositionInfo F)
      → pos 0 ≤ℤ t.volume
      → AreSound (volumes d p)
      → diverges d t p ≡ false
      → ((closed d t p).total ≡ p.total -ℤ t.volume) × AreSound (volumes d (closed d t p))
  unfolding closed
  closed_lem t p h s quiet =
      let v = volumes d p in
      let fits : t.volume ≤ℤ closeable t.offset v = ground (arith, diverges_lem t p h s) in
      let (x, a, b, e, moved) = closed-Fits t.offset t.volume v h s fits in
      let (same, sound) = clamped_sound (closed_volumes t.offset t.volume v) x a b e in
      (ap (λ w. w.total) same ∙ moved, subst AreSound (sym same) sound)

  -- An opening fill adds its volume to the total, and leaves a sound position.
  pub opened_lem :
      (t : TradeInfo F) (p : PositionInfo F)
      → pos 0 ≤ℤ t.volume
      → AreSound (volumes d p)
      → ((opened d t p).total ≡ p.total +ℤ t.volume) × AreSound (volumes d (opened d t p))
  unfolding opened
  opened_lem t p h s = (refl, grown t.volume p.total p.today p.yesterday h s)
