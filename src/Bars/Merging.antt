-- ===== src/Bars/Merging.antt =====
-- src/engine/kline_manager.cpp: merge_period_bars, which an import calls for every period.
use hft_framework.Common.{
  ℕ, zero, suc, ◌-◌, ◌≤◌, ◌≡◌, refl, ap, ℤ, ltb_ℤ, eq_ℤ, Bool, true, false, ◌||◌, Option, none,
  some, List, [], ◌∷◌, if◌then◌else◌, arith, length, drop, ◌∙◌, both_branches, subst,
}
use hft_framework.Common.Sorted
use hft_framework.Common.Sorted.{Int-Less, Above, IsSorted, find-put, put-IsSorted}
use hft_framework.Bars.State.{KlineBar}
use hft_framework.Bars.Update.{keep_last}
use hft_framework.Bars.Aggregate.{put_all, values, merge_period_bars}
use hft_framework.Bars.Grouping.{Ascends}

same_time : (a b : ℤ) → (ltb_ℤ b a || ltb_ℤ a b) ≡ (if eq_ℤ a b then false else true)
same_time a b = ground arith

module _ {P : Type 0} where
  -- The last of the bars that starts at `t`, or else `before`.
  abbrev pub last_at : ℤ → List (KlineBar P) → Option (KlineBar P) → Option (KlineBar P)
  last_at t [] before = before
  last_at t (bar ∷ bars) before =
      last_at t bars (if eq_ℤ bar.timestamp_ms t then some bar else before)

  -- Each bar starts after the one before it.
  abbrev pub InOrder : List (KlineBar P) → Type 0
  InOrder [] = Unit
  InOrder (bar ∷ bars) = Ascends bar.timestamp_ms bars

  -- The table has each bar under its time.
  abbrev pub Keyed : List (ℤ × KlineBar P) → Type 0
  Keyed [] = Unit
  Keyed ((t, bar) ∷ m) = (t ≡ bar.timestamp_ms) × Keyed m

  Keyed-put :
      (bar : KlineBar P) (m : List (ℤ × KlineBar P))
      → Keyed m
      → Keyed (Sorted.put bar.timestamp_ms bar m)
  unfolding Sorted.put
  Keyed-put bar [] k = (refl, tt)
  Keyed-put bar ((t, b) ∷ m) k = ground (arith, Keyed-put bar m)

  put_all_keeps :
      (bars : List (KlineBar P)) (m : List (ℤ × KlineBar P))
      → IsSorted m
      → Keyed m
      → IsSorted (put_all bars m) × Keyed (put_all bars m)
  unfolding put_all
  put_all_keeps [] m s k = (s, k)
  put_all_keeps (bar ∷ bars) m s k =
      put_all_keeps bars (Sorted.put bar.timestamp_ms bar m) (put-IsSorted bar.timestamp_ms bar m s)
        (Keyed-put bar m k)

  find-put_all :
      (t : ℤ) (bars : List (KlineBar P)) (m : List (ℤ × KlineBar P))
      → Sorted.find t (put_all bars m) ≡ last_at t bars (Sorted.find t m)
  unfolding put_all
  find-put_all t [] m = refl
  find-put_all t (bar ∷ bars) m =
      find-put_all t bars (Sorted.put bar.timestamp_ms bar m)
      ∙ ap (λ o. last_at t bars o)
          (ground (arith, find-put bar.timestamp_ms t bar m, same_time bar.timestamp_ms t))

  values-Ascends :
      (t : ℤ) (m : List (ℤ × KlineBar P)) → Above t m → IsSorted m → Keyed m → Ascends t (values m)
  unfolding values
  values-Ascends t [] a s k = tt
  values-Ascends t ((u, bar) ∷ m) a s k = (
    ground (arith, a.0, k.0),
    values-Ascends bar.timestamp_ms m (subst (λ x. Above x m) k.0 s.0) s.1 k.1,
  )

  values-InOrder : (m : List (ℤ × KlineBar P)) → IsSorted m → Keyed m → InOrder (values m)
  unfolding values
  values-InOrder [] s k = tt
  values-InOrder ((t, bar) ∷ m) s k =
      values-Ascends bar.timestamp_ms m (subst (λ x. Above x m) k.0 s.0) s.1 k.1

  drop-InOrder : (n : ℕ) (bars : List (KlineBar P)) → InOrder bars → InOrder (drop n bars)
  drop-InOrder zero bars o = o
  drop-InOrder (suc n) [] o = tt
  drop-InOrder (suc n) (bar ∷ []) o = drop-InOrder n [] tt
  drop-InOrder (suc n) (bar ∷ next ∷ bars) o = drop-InOrder n (next ∷ bars) o.1

  length-drop : (n : ℕ) (bars : List (KlineBar P)) → length (drop n bars) ≡ length bars - n
  length-drop zero bars = omega arith
  length-drop (suc n) [] = omega arith
  length-drop (suc n) (bar ∷ bars) = omega (arith, length-drop n bars)

  pub length-keep_last-le : (n : ℕ) (bars : List (KlineBar P)) → length (keep_last n bars) ≤ n
  unfolding keep_last
  length-keep_last-le n bars = omega (arith, length-drop (length bars - n) bars)

  -- A merge gives at most 2000 bars, each starting after the one before it: the last of an
  -- ordered table that holds, at every time, the last imported bar of that time, or else the last existing one, if those
  -- are not replaced.
  pub merge_period_bars_lem :
      (existing imported : List (KlineBar P)) (replace : Bool)
      → (m : List (ℤ × KlineBar P)) × (merge_period_bars existing imported replace
          ≡ keep_last 2000 (values m))
        × IsSorted m
        × Keyed m
        × ((t : ℤ)
            → Sorted.find t m
              ≡ last_at t imported (if replace then none else last_at t existing none))
        × InOrder (merge_period_bars existing imported replace)
        × (length (merge_period_bars existing imported replace) ≤ 2000)
  unfolding merge_period_bars keep_last Sorted.find
  merge_period_bars_lem existing imported replace =
      let base : List (ℤ × KlineBar P) = if replace then [] else put_all existing [] in
      let old = put_all_keeps existing [] tt tt in
      let given = both_branches replace (λ b. IsSorted b × Keyed b) (tt, tt) old in
      let kept = put_all_keeps imported base given.0 given.1 in
      let merged = values (put_all imported base) in
      (
        put_all imported base,
        refl,
        kept.0,
        kept.1,
        λ t. find-put_all t imported base ∙ ap (λ o. last_at t imported o) (base_find t replace),
        drop-InOrder (length merged - 2000) merged (values-InOrder _ kept.0 kept.1),
        length-keep_last-le 2000 merged,
      )
    where
      base_find :
          (t : ℤ) (replace : Bool)
          → Sorted.find t (if replace then [] else put_all existing [])
            ≡ (if replace then none else last_at t existing none)
      base_find t true = refl
      base_find t false = find-put_all t existing []
