-- ===== src/Bars/Volume.antt =====
-- src/engine/kline_manager.cpp: the volume of the ticks against the volume of the bars that they
-- complete and leave open.
use hft_framework.Common.{
  ℕ, zero, suc, ◌-◌, ◌<◌, ◌≡◌, refl, ap, ℤ, pos, ◌+ℤ◌, eq_ℤ, leb_ℤ, max_ℤ, int_laws, true, false,
  ◌||◌, Option, none, some, List, [], ◌∷◌, ◌++◌, if◌then◌else◌, arith, length, drop, ◌∙◌, sym, Text,
  text_eq, text_eq_iff, subst, Bool-cases, Option-cases, inl, inr, ◌⊎◌,
}
use hft_framework.Common.Sorted
use hft_framework.Common.Sorted.{Text-Less, text_lt, find-put, text_lt_irrefl, text_lt_connected}
use hft_framework.Double.{Double, zero_f}
use hft_framework.Types.{TickData}
use hft_framework.Bars.State.{KlineBar, CompletedBar, Calendar}
use hft_framework.Bars.Update.{
  back, change_back, keep_last, starts_bar, bars_of, new_bar, widen_bar, append_or_update_bar,
  bar_timestamp, completed_by, update_period,
}
use hft_framework.Bars.Grouping.{back-append}

module _ {A : Type 0} where
  back-drop : (n : ℕ) (xs : List A) → n < length xs → back (drop n xs) ≡ back xs
  unfolding back
  back-drop zero xs h = refl
  back-drop (suc n) [] h = absurd (omega arith)
  back-drop (suc n) (x ∷ []) h = absurd (omega arith)
  back-drop (suc n) (x ∷ y ∷ xs) h = back-drop n (y ∷ xs) (omega arith)

  back_nothing : (n : ℕ) → back {A = A} (drop n []) ≡ none
  unfolding back
  back_nothing zero = refl
  back_nothing (suc n) = refl

  back-keep_last : (n : ℕ) (xs : List A) → 0 < n → back (keep_last n xs) ≡ back xs
  unfolding keep_last back
  back-keep_last n [] h = back_nothing (0 - n)
  back-keep_last n (x ∷ xs) h = back-drop (length (x ∷ xs) - n) (x ∷ xs) (omega arith)

  back-change_back :
      (f : A → A) (xs : List A)
      → back (change_back f xs) ≡ elim (back xs) [ none ↦ none | some x ↦ some (f x) ]
  unfolding back change_back
  back-change_back f [] = refl
  back-change_back f (x ∷ []) = refl
  back-change_back f (x ∷ y ∷ []) = refl
  back-change_back f (x ∷ y ∷ z ∷ xs) = back-change_back f (y ∷ z ∷ xs)

pub add_assoc_ℤ : (a b c : ℤ) → a +ℤ b +ℤ c ≡ a +ℤ (b +ℤ c)
add_assoc_ℤ a b c = omega int_laws

pub add_nothing : (a : ℤ) → a +ℤ pos 0 ≡ a
add_nothing a = omega int_laws

past_nothing : (a b : ℤ) → a +ℤ pos 0 +ℤ b ≡ a +ℤ b +ℤ pos 0
past_nothing a b = omega int_laws

pub nothing_added : (a : ℤ) → pos 0 +ℤ a ≡ a
nothing_added a = omega int_laws

text_eq_self : (t : Text) → text_eq t t ≡ true
text_eq_self t = (text_eq_iff t t).1 refl

differs : (p q : Text) → (text_lt p q || text_lt q p) ≡ (if text_eq q p then false else true)
differs p q = ground (arith, text_lt_connected p q, text_lt_irrefl p, text_eq_iff q p)

module _ {P : Type 0} where
  abbrev pub volume_of : Option (KlineBar P) → ℤ
  volume_of none = pos 0
  volume_of (some bar) = bar.volume

  -- The volume of the completed bars of a period.
  unfoldable pub completed_volume : Text → List (CompletedBar P) → ℤ
  completed_volume period [] = pos 0
  completed_volume period (c ∷ cs) =
      (if text_eq c.period period then c.bar.volume else pos 0) +ℤ completed_volume period cs

  pub completed_volume-append :
      (period : Text) (cs ds : List (CompletedBar P))
      → completed_volume period (cs ++ ds)
        ≡ completed_volume period cs +ℤ completed_volume period ds
  unfolding completed_volume
  completed_volume-append period [] ds = omega int_laws
  completed_volume-append period (c ∷ cs) ds =
      let first : ℤ = if text_eq c.period period then c.bar.volume else pos 0 in
      ap (λ n. first +ℤ n) (completed_volume-append period cs ds) ∙ sym (add_assoc_ℤ first _ _)

module _ (d : Double) (cal : Calendar) where
  open d use {F, le}

  -- The volume of the open bar of a period.
  pub open_volume : Text → List (Text × List (KlineBar F)) → ℤ
  open_volume period m = volume_of (back (bars_of (Sorted.find period m)))

  append_volume :
      (instrument period : Text) (bars : List (KlineBar F)) (bar_ts : ℤ) (price : F)
      (volume_delta : ℤ) (turnover_delta : F)
      → le price (zero_f d) ≡ false
      → completed_volume period (completed_by d cal instrument period bar_ts (back bars))
          +ℤ volume_of (
              back
                (append_or_update_bar d cal bars bar_ts period price volume_delta turnover_delta))
        ≡ volume_of (back bars) +ℤ max_ℤ volume_delta (pos 0)
  unfolding append_or_update_bar completed_volume
  append_volume instrument period bars bar_ts price volume_delta turnover_delta h =
      rw (h, back-keep_last 2000 _ (omega arith)) (split (Option-cases (back bars)))
    where
      added : KlineBar F
      added = new_bar d cal bar_ts period price volume_delta turnover_delta

      widen : KlineBar F → KlineBar F
      widen = widen_bar d cal price volume_delta turnover_delta

      split :
          ((back bars ≡ none) ⊎ ((bar : KlineBar F) × (back bars ≡ some bar)))
          → completed_volume period (completed_by d cal instrument period bar_ts (back bars))
              +ℤ volume_of (
                  back (
                    if starts_bar (back bars) bar_ts
                    then bars ++ added ∷ []
                    else change_back widen bars))
            ≡ volume_of (back bars) +ℤ max_ℤ volume_delta (pos 0)
      split (inl e) = rw (e, back-append bars added) refl
      split (inr (bar, e)) = elim (Bool-cases (eq_ℤ bar.timestamp_ms bar_ts)) [
        | inl same ↦ rw (e, same, back-change_back widen bars, e) (nothing_added _)
        | inr other ↦
            rw (e, other, back-append bars added, text_eq_self period)
              (ap (λ n. n +ℤ max_ℤ volume_delta (pos 0)) (add_nothing bar.volume))
      ]

  -- The volume of a period: of its completed bars and of the open one.
  unfoldable pub volume_in : Text → List (Text × List (KlineBar F)) × List (CompletedBar F) → ℤ
  volume_in period s = completed_volume period s.1 +ℤ open_volume period s.0

  other_completed :
      (instrument p q : Text) (bar_ts : ℤ) (bar : Option (KlineBar F))
      → text_eq q p ≡ false
      → completed_volume p (completed_by d cal instrument q bar_ts bar) ≡ pos 0
  unfolding completed_volume
  other_completed instrument p q bar_ts none h = refl
  other_completed instrument p q bar_ts (some bar) h =
      elim (Bool-cases (eq_ℤ bar.timestamp_ms bar_ts)) [
        | inl same ↦ rw same refl
        | inr other ↦ rw (other, h) (add_nothing (pos 0))
      ]

  module _ (tick : TickData F) (ts volume_delta : ℤ) (turnover_delta : F)
      (priced : le tick.last_price (zero_f d) ≡ false) where
    -- What a round for the period `q` adds to the period `p`.
    unfoldable pub added_to : Text → Text → ℤ
    added_to p q =
        if leb_ℤ (bar_timestamp d cal tick ts q) (pos 0)
        then pos 0
        else if text_eq q p
        then max_ℤ volume_delta (pos 0)
        else pos 0

    module _ (q : Text) (s : List (Text × List (KlineBar F)) × List (CompletedBar F)) where
      bar_ts : ℤ
      bar_ts = bar_timestamp d cal tick ts q

      bars : List (KlineBar F)
      bars = bars_of (Sorted.find q s.0)

      after : List (KlineBar F)
      after = append_or_update_bar d cal bars bar_ts q tick.last_price volume_delta turnover_delta

      completed : List (CompletedBar F)
      completed = completed_by d cal tick.instrument_id q bar_ts (back bars)

      round : List (Text × List (KlineBar F)) × List (CompletedBar F)
      round = (Sorted.put q after s.0, s.1 ++ completed)

      own_volume : volume_in q round ≡ volume_in q s +ℤ max_ℤ volume_delta (pos 0)
      unfolding volume_in round open_volume completed after bars bar_ts
      own_volume =
          rw (completed_volume-append q s.1 completed, find-put q q after s.0, text_lt_irrefl q)
            (add_assoc_ℤ (completed_volume q s.1) _ _
              ∙ ap (λ n. completed_volume q s.1 +ℤ n)
                  (append_volume tick.instrument_id q bars bar_ts tick.last_price volume_delta
                    turnover_delta priced)
              ∙ sym (add_assoc_ℤ (completed_volume q s.1) _ _))

      other_volume : (p : Text) → text_eq q p ≡ false → volume_in p round ≡ volume_in p s +ℤ pos 0
      unfolding volume_in round open_volume completed after
      other_volume p other =
          rw
            (
              completed_volume-append p s.1 completed,
              other_completed tick.instrument_id p q bar_ts (back bars) other,
              find-put q p after s.0,
              differs p q,
              other,
            )
            (past_nothing (completed_volume p s.1) _)

      pub round_volume :
          (p : Text)
          → volume_in p (update_period d cal tick ts volume_delta turnover_delta q s)
            ≡ volume_in p s +ℤ added_to p q
      unfolding added_to update_period round completed after bars bar_ts
      round_volume p = elim (Bool-cases (leb_ℤ bar_ts (pos 0))) [
        | inl skip ↦ rw skip (sym (add_nothing (volume_in p s)))
        | inr keep ↦ elim (Bool-cases (text_eq q p)) [
          | inl same ↦
              rw (keep, same)
                (subst (λ x. volume_in x round ≡ volume_in x s +ℤ max_ℤ volume_delta (pos 0))
                  ((text_eq_iff q p).0 same) own_volume)
          | inr other ↦ rw (keep, other) (other_volume p other)
        ]
      ]
