-- ===== src/Positions/Balance.antt =====
-- What a fill does to the volumes of one position of src/position/position_manager.cpp, and when it
-- raises the reconciliation flag.
use hft_framework.Common.{
  eq_of_parts, +ℤ_parts, -ℤ_parts, eq_ℤ, ◌<ℤ◌, ap, pos_part, neg_part, ◌≡◌, ℤ, pos, ◌+ℤ◌, ◌-ℤ◌,
  ◌≤ℤ◌, +ℤ_parts, -ℤ_parts, int_laws, inl, inr, Bool-cases, ltb_ℤ, ltb→lt, max_ℤ, min_ℤ, false,
  arith,
}
use hft_framework.Types.{Offset, open_position, close, close_today, close_yesterday}
use hft_framework.Positions.Book.{Volumes, closed_volumes, clamped}

-- What a closing fill can take from.
abbrev pub closeable : Offset → Volumes → ℤ
closeable close_today v = v.today
closeable close_yesterday v = v.yesterday
closeable _ v = v.total

-- No volume is negative, and the total is what was opened today and before.
pub record AreSound (v : Volumes) : Type 0 where
  pub total_nonneg : pos 0 ≤ℤ v.total
  pub today_nonneg : pos 0 ≤ℤ v.today
  pub yesterday_nonneg : pos 0 ≤ℤ v.yesterday
  pub adds_up : v.total ≡ v.today +ℤ v.yesterday

max_nonneg : (a : ℤ) → pos 0 ≤ℤ a → max_ℤ (pos 0) a ≡ a
max_nonneg a h = ground arith

pub clamped_sound :
    (v : Volumes)
    → pos 0 ≤ℤ v.total
    → pos 0 ≤ℤ v.today
    → pos 0 ≤ℤ v.yesterday
    → v.total ≡ v.today +ℤ v.yesterday
    → (clamped v ≡ v) × AreSound v
unfolding clamped
clamped_sound v t d y e = (
  λ i. record {
    total = max_nonneg v.total t i;
    today = max_nonneg v.today d i;
    yesterday = max_nonneg v.yesterday y i;
  },
  record { total_nonneg = t; today_nonneg = d; yesterday_nonneg = y; adds_up = e },
)

-- The three volumes after a fill of `n` are what the source keeps without clamping.
abbrev pub Fits : ℤ → ℤ → ℤ → ℤ → ℤ → Type 0
Fits t n t' a' b' = (pos 0 ≤ℤ t') × (pos 0 ≤ℤ a') × (pos 0 ≤ℤ b') × (t' ≡ a' +ℤ b') × (t' ≡ t -ℤ n)

module _ (n t a b : ℤ) (hn : pos 0 ≤ℤ n) (ha : pos 0 ≤ℤ a) (hb : pos 0 ≤ℤ b) (e : t ≡ a +ℤ b) where
  parts : (pos_part t ≡ pos_part (a +ℤ b)) × (neg_part t ≡ neg_part (a +ℤ b))
  parts = (ap pos_part e, ap neg_part e)

  today-Fits : n ≤ℤ a → Fits t n (t -ℤ n) (a -ℤ n) b
  today-Fits f = omega (int_laws, parts)

  yesterday-Fits : n ≤ℤ b → Fits t n (t -ℤ n) a (b -ℤ n)
  yesterday-Fits f = omega (int_laws, parts)

  some-Fits : (m : ℤ) → m ≤ℤ b → n -ℤ m ≤ℤ a → Fits t n (t -ℤ n) (a -ℤ (n -ℤ m)) (b -ℤ m)
  some-Fits m f g = omega (int_laws, parts)

  plain-Fits : n ≤ℤ t → Fits t n (t -ℤ n) (a -ℤ (n -ℤ min_ℤ b n)) (b -ℤ min_ℤ b n)
  plain-Fits f = elim (Bool-cases (ltb_ℤ n b)) [
    | inl c ↦ rw c (some-Fits n (omega (arith, ltb→lt _ _ c)) (omega int_laws))
    | inr c ↦ rw c (some-Fits b (omega arith) (omega (int_laws, parts)))
  ]

-- A close that fits what it closes takes exactly its volume from a sound position.
pub closed-Fits :
    (o : Offset) (n : ℤ) (v : Volumes)
    → pos 0 ≤ℤ n
    → AreSound v
    → n ≤ℤ closeable o v
    → let w = closed_volumes o n v in Fits v.total n w.total w.today w.yesterday
unfolding closed_volumes
closed-Fits close_today n v h s f =
    today-Fits n v.total v.today v.yesterday h s.today_nonneg s.yesterday_nonneg s.adds_up f
closed-Fits close_yesterday n v h s f =
    yesterday-Fits n v.total v.today v.yesterday h s.today_nonneg s.yesterday_nonneg s.adds_up f
closed-Fits open_position n v h s f =
    plain-Fits n v.total v.today v.yesterday h s.today_nonneg s.yesterday_nonneg s.adds_up f
closed-Fits close n v h s f =
    plain-Fits n v.total v.today v.yesterday h s.today_nonneg s.yesterday_nonneg s.adds_up f

max_nonpos : (a : ℤ) → a ≤ℤ pos 0 → max_ℤ (pos 0) a ≡ pos 0
max_nonpos a h = ground (arith, eq_of_parts a (pos 0))

-- Taking more than one part of a total holds, but not more than the total, leaves volumes that do
-- not add up.
pub over_one_part :
    (n t a b : ℤ)
    → pos 0 ≤ℤ b
    → t ≡ a +ℤ b
    → a <ℤ n
    → n ≤ℤ t
    → (eq_ℤ (max_ℤ (pos 0) (t -ℤ n)) (max_ℤ (pos 0) (a -ℤ n) +ℤ max_ℤ (pos 0) b) ≡ false)
      × (eq_ℤ (max_ℤ (pos 0) (t -ℤ n)) (max_ℤ (pos 0) b +ℤ max_ℤ (pos 0) (a -ℤ n)) ≡ false)
over_one_part n t a b hb e over le =
    rw (max_nonneg (t -ℤ n) (omega int_laws), max_nonneg b hb, max_nonpos (a -ℤ n) (omega int_laws))
      (
        ground
            (arith, +ℤ_parts (pos 0) b, -ℤ_parts t n, +ℤ_parts a b, ap pos_part e, ap neg_part e),
        ground
            (arith, +ℤ_parts b (pos 0), -ℤ_parts t n, +ℤ_parts a b, ap pos_part e, ap neg_part e),
      )
