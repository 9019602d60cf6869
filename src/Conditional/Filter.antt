-- ===== src/Conditional/Filter.antt =====
-- src/order/conditional_order_manager.cpp: the filter on the bounds passes over no tick on which an
-- order of the instrument triggers.
use hft_framework.Common.{
  ℕ, ◌≡◌, refl, ◌∙◌, ◌⊎◌, inl, inr, true, false, some, List, [], ◌∷◌, arith, ◌==◌, ==_iff, Text,
  Text-Eq, Nat-Eq, Dict, find, find-put_self, Option-cases, Bool-cases,
}
use hft_framework.Double.{Double, min_f, max_f}
use hft_framework.Types.{Direction, buy, sell}
use hft_framework.Conditional.State.{
  ConditionType, stop_loss, take_profit, trailing_stop, ConditionalOrder, TriggerBounds, CondOrders,
  no_bounds,
}
use hft_framework.Conditional.Bounds.{
  widen, widen_by, gather, install, rebuild_bounds, within_bounds, may_trigger, price_eps,
}
use hft_framework.Conditional.Ticks.{among, follow, triggers, triggers_by}

-- What the comparisons and sums of `double` promise for values that are numbers.
pub record OrderLaws (d : Double) : Type 0 where
  pub le_refl : (a : d.F) → d.le a a ≡ true
  pub le_trans : (a b c : d.F) → d.le a b ≡ true → d.le b c ≡ true → d.le a c ≡ true
  pub le_of_lt : (a b : d.F) → d.lt a b ≡ true → d.le a b ≡ true
  pub le_of_not_lt : (a b : d.F) → d.lt a b ≡ false → d.le b a ≡ true
  pub sub_mono : (a b c : d.F) → d.le a b ≡ true → d.le (d.sub a c) (d.sub b c) ≡ true
  pub add_mono : (a b c : d.F) → d.le a b ≡ true → d.le (d.add a c) (d.add b c) ≡ true

module _ (d : Double) (laws : OrderLaws d) where
  open d use {F, le}

  min_left : (a b : F) → le (min_f d a b) a ≡ true
  min_left a b = elim (Bool-cases (d.lt b a)) [
    | inl e ↦ rw e (laws.le_of_lt b a e)
    | inr e ↦ rw e (laws.le_refl a)
  ]

  min_right : (a b : F) → le (min_f d a b) b ≡ true
  min_right a b = elim (Bool-cases (d.lt b a)) [
    | inl e ↦ rw e (laws.le_refl b)
    | inr e ↦ rw e (laws.le_of_not_lt b a e)
  ]

  max_left : (a b : F) → le a (max_f d a b) ≡ true
  max_left a b = elim (Bool-cases (d.lt a b)) [
    | inl e ↦ rw e (laws.le_of_lt a b e)
    | inr e ↦ rw e (laws.le_refl a)
  ]

  max_right : (a b : F) → le b (max_f d a b) ≡ true
  max_right a b = elim (Bool-cases (d.lt a b)) [
    | inl e ↦ rw e (laws.le_refl b)
    | inr e ↦ rw e (laws.le_of_not_lt a b e)
  ]

  -- The bounds take account of an order of a kind, a side and a trigger price.
  abbrev CoversAt : TriggerBounds d → ConditionType → Direction → F → Type 0
  CoversAt b stop_loss buy p = le b.min_stop_buy p ≡ true
  CoversAt b stop_loss sell p = le p b.max_stop_sell ≡ true
  CoversAt b take_profit buy p = le p b.max_take_buy ≡ true
  CoversAt b take_profit sell p = le b.min_take_sell p ≡ true
  CoversAt b trailing_stop dir p = b.has_trailing ≡ true

  abbrev pub Covers : TriggerBounds d → ConditionalOrder d → Type 0
  Covers b o = CoversAt b o.type o.direction o.trigger_price

  covers_new :
      (t : ConditionType) (dir : Direction) (p : F) (b : TriggerBounds d)
      → CoversAt (widen_by d t dir p b) t dir p
  unfolding widen_by
  covers_new stop_loss buy p b = min_right b.min_stop_buy p
  covers_new stop_loss sell p b = max_right b.max_stop_sell p
  covers_new take_profit buy p b = max_right b.max_take_buy p
  covers_new take_profit sell p b = min_right b.min_take_sell p
  covers_new trailing_stop dir p b = refl

  -- Bounds that are wider on every side.
  abbrev IsWider : TriggerBounds d → TriggerBounds d → Type 0
  IsWider b c =
      (le c.min_stop_buy b.min_stop_buy ≡ true)
      × (le b.max_stop_sell c.max_stop_sell ≡ true)
      × (le b.max_take_buy c.max_take_buy ≡ true)
      × (le c.min_take_sell b.min_take_sell ≡ true)
      × (b.has_trailing ≡ true → c.has_trailing ≡ true)

  widen_by-IsWider :
      (t : ConditionType) (dir : Direction) (p : F) (b : TriggerBounds d)
      → IsWider b (widen_by d t dir p b)
  unfolding widen_by
  widen_by-IsWider stop_loss buy p b =
      (min_left b.min_stop_buy p, laws.le_refl _, laws.le_refl _, laws.le_refl _, λ e. e)
  widen_by-IsWider stop_loss sell p b =
      (laws.le_refl _, max_left b.max_stop_sell p, laws.le_refl _, laws.le_refl _, λ e. e)
  widen_by-IsWider take_profit buy p b =
      (laws.le_refl _, laws.le_refl _, max_left b.max_take_buy p, laws.le_refl _, λ e. e)
  widen_by-IsWider take_profit sell p b =
      (laws.le_refl _, laws.le_refl _, laws.le_refl _, min_left b.min_take_sell p, λ e. e)
  widen_by-IsWider trailing_stop dir p b =
      (laws.le_refl _, laws.le_refl _, laws.le_refl _, laws.le_refl _, λ e. refl)

  covers_wider :
      (t : ConditionType) (dir : Direction) (p : F) (b c : TriggerBounds d)
      → IsWider b c
      → CoversAt b t dir p
      → CoversAt c t dir p
  covers_wider stop_loss buy p b c w h = laws.le_trans _ _ _ w.0 h
  covers_wider stop_loss sell p b c w h = laws.le_trans _ _ _ h w.1
  covers_wider take_profit buy p b c w h = laws.le_trans _ _ _ h w.2
  covers_wider take_profit sell p b c w h = laws.le_trans _ _ _ w.3 h
  covers_wider trailing_stop dir p b c w h = w.4 h

  covers_within :
      (t : ConditionType) (dir : Direction) (p extreme trail price : F) (b : TriggerBounds d)
      → CoversAt b t dir p
      → triggers_by d t dir p extreme trail price ≡ true
      → within_bounds d b price ≡ true
  unfolding triggers_by within_bounds
  covers_within stop_loss buy p x y price b h e =
      let reached = laws.le_trans _ _ _ (laws.sub_mono _ _ (price_eps d) h) e in
      ground (arith, reached)
  covers_within stop_loss sell p x y price b h e =
      let reached = laws.le_trans _ _ _ e (laws.add_mono _ _ (price_eps d) h) in
      ground (arith, reached)
  covers_within take_profit buy p x y price b h e =
      let reached = laws.le_trans _ _ _ e (laws.add_mono _ _ (price_eps d) h) in
      ground (arith, reached)
  covers_within take_profit sell p x y price b h e =
      let reached = laws.le_trans _ _ _ (laws.sub_mono _ _ (price_eps d) h) e in
      ground (arith, reached)
  covers_within trailing_stop dir p x y price b h e = rw h refl

  IsWider-trans : (a b c : TriggerBounds d) → IsWider a b → IsWider b c → IsWider a c
  IsWider-trans a b c v w = (
    laws.le_trans _ _ _ w.0 v.0,
    laws.le_trans _ _ _ v.1 w.1,
    laws.le_trans _ _ _ v.2 w.2,
    laws.le_trans _ _ _ w.3 v.3,
    λ e. w.4 (v.4 e),
  )

  gather-IsWider :
      (os : Dict ℕ (ConditionalOrder d)) (ids : List ℕ) (b : TriggerBounds d)
      → IsWider b (gather d os ids b).1
  unfolding gather
  gather-IsWider os [] b = (laws.le_refl _, laws.le_refl _, laws.le_refl _, laws.le_refl _, λ e. e)
  gather-IsWider os (i ∷ is) b = elim (Option-cases (find i os)) [
    | inl e ↦ rw (e, gather) (gather-IsWider os is b)
    | inr (o, e) ↦
        rw (e, gather)
          (IsWider-trans b (widen d o b) (gather d os is (widen d o b)).1
            (widen_by-IsWider o.type o.direction o.trigger_price b)
            (gather-IsWider os is (widen d o b)))
  ]

  -- Every identifier that names an order is kept, and its order is covered.
  gather-Covers :
      (os : Dict ℕ (ConditionalOrder d)) (ids : List ℕ) (b : TriggerBounds d) (id : ℕ)
      (o : ConditionalOrder d)
      → among id ids ≡ true
      → find id os ≡ some o
      → (among id (gather d os ids b).0 ≡ true) × Covers (gather d os ids b).1 o
  unfolding gather
  gather-Covers os [] b id o h e = absurd (cc)
  gather-Covers os (i ∷ is) b id o h e = elim (Option-cases (find i os)) [
    | inl n ↦
        let other : (i == id) ≡ false = ground (arith, ==_iff i id, e, n) in
        rw (n, gather) (gather-Covers os is b id o (rw other at h) e)
    | inr (o', n) ↦ elim (Bool-cases (i == id)) [
      | inl same ↦
          let equal : o' ≡ o = ground (arith, ==_iff i id, e, n) in
          rw (n, gather, same, equal)
            (
              refl,
              covers_wider o.type o.direction o.trigger_price (widen d o b)
                  (gather d os is (widen d o b)).1 (gather-IsWider os is (widen d o b))
                  (covers_new o.type o.direction o.trigger_price b),
            )
      | inr other ↦
          let rest = gather-Covers os is (widen d o' b) id o (rw other at h) e in
          rw (n, gather, other) rest
    ]
  ]

  -- What the filter needs to know of an instrument: its bounds are to be rebuilt before use, or
  -- they cover each of its orders.
  abbrev pub IsFiltered : Text → CondOrders d → List ℕ → TriggerBounds d → Type 0
  IsFiltered key m ids b =
      (b.dirty ≡ true)
      ⊎ ((id : ℕ) (o : ConditionalOrder d)
          → among id ids ≡ true
          → find id m.orders ≡ some o
          → Covers b o)

  install-bounds :
      (key : Text) (m : CondOrders d) (ids : List ℕ) (b : TriggerBounds d) (id : ℕ)
      → among id ids ≡ true
      → find key (install d key ids b m).trigger_bounds ≡ some b
  unfolding install
  install-bounds key m [] b id h = absurd (cc)
  install-bounds key m (i ∷ is) b id h = find-put_self key b m.trigger_bounds

  rebuild_bounds-install :
      (key : Text) (m : CondOrders d) (ids : List ℕ)
      → find key m.instrument_index ≡ some ids
      → rebuild_bounds d key m
        ≡ install d key
            (gather d m.orders ids (no_bounds d)).0
            (gather d m.orders ids (no_bounds d)).1
            m
  unfolding rebuild_bounds
  rebuild_bounds-install key m ids e = rw (e, rebuild_bounds) refl

  may_trigger_clean :
      (key : Text) (m : CondOrders d) (b : TriggerBounds d) (price : F)
      → find key m.trigger_bounds ≡ some b
      → b.dirty ≡ false
      → (may_trigger d key price m).0 ≡ within_bounds d b price
  unfolding may_trigger within_bounds
  may_trigger_clean key m b price e clean = rw (e, may_trigger, clean, e) refl

  may_trigger_dirty :
      (key : Text) (m : CondOrders d) (b c : TriggerBounds d) (price : F)
      → find key m.trigger_bounds ≡ some b
      → b.dirty ≡ true
      → find key (rebuild_bounds d key m).trigger_bounds ≡ some c
      → (may_trigger d key price m).0 ≡ within_bounds d c price
  unfolding may_trigger within_bounds
  may_trigger_dirty key m b c price e stale r = rw (e, may_trigger, stale, r) refl

  -- When the comparisons of prices are an order, and an instrument's bounds either are to be
  -- rebuilt or cover each of its orders, a tick on which one of its orders triggers is never
  -- passed over by the filter.
  pub may_trigger_sound :
      (key : Text) (m : CondOrders d) (ids : List ℕ) (b : TriggerBounds d) (id : ℕ)
      (o : ConditionalOrder d) (price : F)
      → find key m.instrument_index ≡ some ids
      → find key m.trigger_bounds ≡ some b
      → IsFiltered key m ids b
      → among id ids ≡ true
      → find id m.orders ≡ some o
      → triggers d price (follow d price o) ≡ true
      → (may_trigger d key price m).0 ≡ true
  unfolding follow
  may_trigger_sound key m ids b id o price index bounds filtered listed stored fires =
      elim (Bool-cases b.dirty) [
        | inl stale ↦
            let found = gather d m.orders ids (no_bounds d) in
            let covered = gather-Covers m.orders ids (no_bounds d) id o listed stored in
            let rebuilt : find key (rebuild_bounds d key m).trigger_bounds ≡ some found.1 =
              rw (rebuild_bounds-install key m ids index)
                (install-bounds key m found.0 found.1 id covered.0) in
            may_trigger_dirty key m b found.1 price bounds stale rebuilt
            ∙ covers_within o.type o.direction o.trigger_price _ o.trail_offset price found.1
                covered.1 fires
        | inr clean ↦ elim filtered [
          | inl stale ↦ absurd (cc)
          | inr covers ↦
              may_trigger_clean key m b price bounds clean
              ∙ covers_within o.type o.direction o.trigger_price _ o.trail_offset price b
                  (covers id o listed stored) fires
        ]
      ]
