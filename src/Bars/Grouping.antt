-- ===== src/Bars/Grouping.antt =====
-- src/engine/kline_manager.cpp: what aggregate_bars_to_period keeps of the bars that it is given.
use hft_framework.Common.{
  ◌≡◌, refl, ap, ℤ, pos, negsuc, ◌+ℤ◌, leb_ℤ, eq_ℤ, max_ℤ, ◌≤ℤ◌, ◌<ℤ◌, int_laws, some, List, [],
  ◌∷◌, ◌++◌, if◌then◌else◌, Text, arith, Bool-cases, inl, inr, ◌∙◌,
}
use mathlib.Core.List.{append_assoc}
use hft_framework.Double.{Double}
use hft_framework.Bars.State.{
  KlineBar, Calendar, bucket_start_ms, period_bucket_ms, normalize_kline_period,
}
use hft_framework.Bars.Update.{back, change_back}
use hft_framework.Bars.Aggregate.{opened_by, absorb, aggregate_from, aggregate_bars_to_period}

module _ {A : Type 0} where
  pub back-append : (xs : List A) (x : A) → back (xs ++ x ∷ []) ≡ some x
  unfolding back
  back-append [] x = refl
  back-append (y ∷ []) x = refl
  back-append (y ∷ z ∷ xs) x = back-append (z ∷ xs) x

  pub change_back-append :
      (f : A → A) (xs : List A) (x : A) → change_back f (xs ++ x ∷ []) ≡ xs ++ f x ∷ []
  unfolding change_back
  change_back-append f [] x = refl
  change_back-append f (y ∷ []) x = refl
  change_back-append f (y ∷ z ∷ xs) x = ap (λ r. y ∷ r) (change_back-append f (z ∷ xs) x)

bucket_mono :
    (a b : ℤ) (period : Text)
    → pos 0 ≤ℤ a
    → a ≤ℤ b
    → bucket_start_ms a period ≤ℤ bucket_start_ms b period
unfolding bucket_start_ms period_bucket_ms
bucket_mono (pos a) (pos b) period h k = ground arith
bucket_mono (pos a) (negsuc b) period h k = absurd (omega arith)
bucket_mono (negsuc a) b period h k = absurd (omega arith)

bucket_nonneg : (a : ℤ) (period : Text) → pos 0 ≤ℤ a → negsuc 0 <ℤ bucket_start_ms a period
unfolding bucket_start_ms
bucket_nonneg (pos a) period h = omega arith
bucket_nonneg (negsuc a) period h = absurd (omega arith)

add_assoc_ℤ : (a b c : ℤ) → a +ℤ b +ℤ c ≡ a +ℤ (b +ℤ c)
add_assoc_ℤ a b c = omega int_laws

nothing_between : (a b : ℤ) → a +ℤ b ≡ a +ℤ (pos 0 +ℤ b)
nothing_between a b = omega int_laws

nothing_before_it : (a : ℤ) → a ≡ pos 0 +ℤ a
nothing_before_it a = omega int_laws

module _ {P : Type 0} where
  -- The bars start after `t`, each after the one before it.
  abbrev pub Ascends : ℤ → List (KlineBar P) → Type 0
  Ascends t [] = Unit
  Ascends t (bar ∷ bars) = (t <ℤ bar.timestamp_ms) × Ascends bar.timestamp_ms bars

  -- The bars start at `t` or later, none before the one in front of it.
  abbrev pub Rises : ℤ → List (KlineBar P) → Type 0
  Rises t [] = Unit
  Rises t (bar ∷ bars) = (t ≤ℤ bar.timestamp_ms) × Rises bar.timestamp_ms bars

  Rises-weaken : (t u : ℤ) (bars : List (KlineBar P)) → t ≤ℤ u → Rises u bars → Rises t bars
  Rises-weaken t u [] h r = tt
  Rises-weaken t u (bar ∷ bars) h r = (omega (arith, r.0), r.1)

  pub total_volume : List (KlineBar P) → ℤ
  total_volume [] = pos 0
  total_volume (bar ∷ bars) = bar.volume +ℤ total_volume bars

  -- What the bars with a time count for: no volume below zero.
  pub counted_volume : List (KlineBar P) → ℤ
  counted_volume [] = pos 0
  counted_volume (bar ∷ bars) =
      (if leb_ℤ bar.timestamp_ms (pos 0) then pos 0 else max_ℤ bar.volume (pos 0))
      +ℤ counted_volume bars

module _ (d : Double) (cal : Calendar) where
  open d use {F}

  -- The bars from a bar on that is still open.
  grouped : Text → KlineBar F → List (KlineBar F) → List (KlineBar F)
  grouped period bar [] = bar ∷ []
  grouped period bar (source ∷ rest) =
      let bucket = bucket_start_ms source.timestamp_ms period in
      if leb_ℤ source.timestamp_ms (pos 0)
      then grouped period bar rest
      else if eq_ℤ bar.timestamp_ms bucket
      then grouped period (absorb d cal source bar) rest
      else bar ∷ grouped period (opened_by d cal bucket period source) rest

  aggregate_from-grouped :
      (period : Text) (front : List (KlineBar F)) (bar : KlineBar F) (sources : List (KlineBar F))
      → aggregate_from d cal period (front ++ bar ∷ []) sources
        ≡ front ++ grouped period bar sources
  unfolding aggregate_from grouped
  aggregate_from-grouped period front bar [] = refl
  aggregate_from-grouped period front bar (source ∷ rest) =
      let bucket = bucket_start_ms source.timestamp_ms period in
      let opened = opened_by d cal bucket period source in
      ground (
        arith,
        back-append front bar,
        change_back-append (absorb d cal source) front bar,
        aggregate_from-grouped period front bar rest,
        aggregate_from-grouped period front (absorb d cal source bar) rest,
        aggregate_from-grouped period (front ++ bar ∷ []) opened rest,
        append_assoc front (bar ∷ []) (grouped period opened rest),
      )

  grouped-Ascends :
      (period : Text) (t u : ℤ) (bar : KlineBar F) (sources : List (KlineBar F))
      → pos 0 ≤ℤ t
      → bar.timestamp_ms ≡ bucket_start_ms t period
      → u <ℤ bar.timestamp_ms
      → Rises t sources
      → Ascends u (grouped period bar sources)
  unfolding grouped
  grouped-Ascends period t u bar [] h e a r = (a, tt)
  grouped-Ascends period t u bar (source ∷ rest) h e a r =
      elim (Bool-cases (leb_ℤ source.timestamp_ms (pos 0))) [
        | inl skip ↦ rw skip (grouped-Ascends period t u bar rest h e a weaker)
        | inr keep ↦ elim (Bool-cases (eq_ℤ bar.timestamp_ms bucket)) [
          | inl same ↦
              rw (keep, same)
                (grouped-Ascends period t u (absorb d cal source bar) rest h e a weaker)
          | inr other ↦
              rw (keep, other)
                (
                  a,
                  grouped-Ascends period source.timestamp_ms bar.timestamp_ms
                      (opened_by d cal bucket period source) rest (omega (arith, r.0)) refl
                      (ground (arith, bucket_mono t source.timestamp_ms period h r.0)) r.1,
                )
        ]
      ]
    where
      bucket : ℤ
      bucket = bucket_start_ms source.timestamp_ms period

      weaker : Rises t rest
      weaker = Rises-weaken t source.timestamp_ms rest r.0 r.1

  grouped-total :
      (period : Text) (bar : KlineBar F) (sources : List (KlineBar F))
      → total_volume (grouped period bar sources) ≡ bar.volume +ℤ counted_volume sources
  unfolding grouped total_volume counted_volume
  grouped-total period bar [] = omega int_laws
  grouped-total period bar (source ∷ rest) =
      let bucket = bucket_start_ms source.timestamp_ms period in
      let opened = opened_by d cal bucket period source in
      let absorbed = absorb d cal source bar in
      elim (Bool-cases (leb_ℤ source.timestamp_ms (pos 0))) [
        | inl skip ↦ rw skip (grouped-total period bar rest ∙ nothing_between bar.volume _)
        | inr keep ↦ elim (Bool-cases (eq_ℤ bar.timestamp_ms bucket)) [
          | inl same ↦
              rw (keep, same) (grouped-total period absorbed rest ∙ add_assoc_ℤ bar.volume _ _)
          | inr other ↦
              rw (keep, other) (ap (λ n. bar.volume +ℤ n) (grouped-total period opened rest))
        ]
      ]

  -- What a loop over bars of one period makes of them, before its first bar and after.
  fresh-Ascends :
      (period : Text) (t : ℤ) (sources : List (KlineBar F))
      → pos 0 ≤ℤ t
      → Rises t sources
      → Ascends (negsuc 0) (aggregate_from d cal period [] sources)
  unfolding aggregate_from back
  fresh-Ascends period t [] h r = tt
  fresh-Ascends period t (source ∷ rest) h r =
      let bucket = bucket_start_ms source.timestamp_ms period in
      let opened = opened_by d cal bucket period source in
      let later : pos 0 ≤ℤ source.timestamp_ms = omega (arith, r.0) in
      elim (Bool-cases (leb_ℤ source.timestamp_ms (pos 0))) [
        | inl skip ↦ rw skip (fresh-Ascends period source.timestamp_ms rest later r.1)
        | inr keep ↦
            rw (keep, aggregate_from-grouped period [] opened rest)
              (grouped-Ascends period source.timestamp_ms (negsuc 0) opened rest later refl
                (bucket_nonneg source.timestamp_ms period later) r.1)
      ]

  fresh-total :
      (period : Text) (sources : List (KlineBar F))
      → total_volume (aggregate_from d cal period [] sources) ≡ counted_volume sources
  unfolding aggregate_from back counted_volume total_volume
  fresh-total period [] = refl
  fresh-total period (source ∷ rest) =
      let bucket = bucket_start_ms source.timestamp_ms period in
      let opened = opened_by d cal bucket period source in
      elim (Bool-cases (leb_ℤ source.timestamp_ms (pos 0))) [
        | inl skip ↦ rw skip (fresh-total period rest ∙ nothing_before_it _)
        | inr keep ↦
            rw (keep, aggregate_from-grouped period [] opened rest)
              (grouped-total period opened rest)
      ]

  -- Bars in the order of their times become bars whose times ascend, none below zero, and that hold
  -- all the volume of those with a time above zero, a volume below zero counting as none.
  pub aggregate-Ascends :
      (sources : List (KlineBar F)) (period : Text)
      → Rises (pos 0) sources
      → Ascends (negsuc 0) (aggregate_bars_to_period d cal sources period)
        × (total_volume (aggregate_bars_to_period d cal sources period) ≡ counted_volume sources)
  unfolding aggregate_bars_to_period
  aggregate-Ascends sources period r = (
    fresh-Ascends (normalize_kline_period period) (pos 0) sources (omega arith) r,
    fresh-total (normalize_kline_period period) sources,
  )
