-- ===== src/Positions/Book.antt =====
-- src/position/position_manager.h and .cpp, and the two-part `InstrumentKey` of src/common/types.h. The
-- mutex makes each operation one step; the log lines are left out.
use hft_framework.Common.{
  ℕ, ℤ, pos, ◌+ℤ◌, ◌-ℤ◌, ltb_ℤ, leb_ℤ, eq_ℤ, max_ℤ, min_ℤ, Bool, false, not, ◌&&◌, ◌||◌, Option,
  none, some, List, [], ◌∷◌, ◌++◌, if◌then◌else◌, Text, Text-Eq, is_empty, take, safe_copy, Dict,
  find, put,
}
use hft_framework.Double.{Double, zero_f}
use hft_framework.Types.{
  Direction, buy, sell, opposite, Offset, is_open, close_today, close_yesterday, PositionInfo,
  TradeInfo,
}

abbrev pub side_letter : Direction → ℕ
side_letter buy = b'L'
side_letter sell = b'S'

abbrev pub side_code : Direction → Text
side_code dir = b'_' ∷ side_letter dir ∷ []

-- `InstrumentKey(instrument, dir)`: the first 15 bytes of the name, then `_L` or `_S`.
unfoldable pub side_key : Text → Direction → Text
side_key instrument dir = take 15 instrument ++ side_code dir

-- The three volumes of a position after a close of `volume`, before they are clamped.
pub record Volumes : Type 0 where
  pub total : ℤ
  pub today : ℤ
  pub yesterday : ℤ

unfoldable pub closed_volumes : Offset → ℤ → Volumes → Volumes
closed_volumes close_today volume v = record v {
  total = v.total -ℤ volume;
  today = v.today -ℤ volume;
}
closed_volumes close_yesterday volume v = record v {
  total = v.total -ℤ volume;
  yesterday = v.yesterday -ℤ volume;
}
closed_volumes _ volume v =
    let yd_reduce = min_ℤ v.yesterday volume in
    record {
      total = v.total -ℤ volume;
      today = v.today -ℤ (volume -ℤ yd_reduce);
      yesterday = v.yesterday -ℤ yd_reduce;
    }

unfoldable pub clamped : Volumes → Volumes
clamped v = record {
  total = max_ℤ (pos 0) v.total;
  today = max_ℤ (pos 0) v.today;
  yesterday = max_ℤ (pos 0) v.yesterday;
}

-- `total == today + yesterday`
unfoldable pub balanced : Volumes → Bool
balanced v = eq_ℤ v.total (v.today +ℤ v.yesterday)

module _ (d : Double) where
  open d use {F, of_int, add, sub, mul, div}

  pub record Positions : Type 0 where
    pub positions : Dict Text (PositionInfo F)
    pub reconciliation_needed : Bool

  -- `PositionInfo{}`
  abbrev pub no_position : PositionInfo F
  no_position = record {
    instrument_id = [];
    account_id = [];
    direction = buy;
    total = pos 0;
    today = pos 0;
    yesterday = pos 0;
    avg_price = zero_f d;
    position_profit = zero_f d;
    use_margin = zero_f d;
  }

  abbrev pub volumes : PositionInfo F → Volumes
  volumes p = record { total = p.total; today = p.today; yesterday = p.yesterday }

  -- The position that an opening fill leaves.
  unfoldable pub opened : TradeInfo F → PositionInfo F → PositionInfo F
  opened t p =
      let total' = p.total +ℤ t.volume in
      record p {
        instrument_id = safe_copy t.instrument_id 24;
        account_id = safe_copy t.account_id 16;
        direction = t.direction;
        today = p.today +ℤ t.volume;
        total = total';
        avg_price =
            if ltb_ℤ (pos 0) total'
            then div
                (add (mul p.avg_price (of_int (total' -ℤ t.volume)))
                  (mul t.price (of_int t.volume)))
                (of_int total')
            else p.avg_price;
      }

  -- The position that a closing fill leaves.
  unfoldable pub closed : TradeInfo F → PositionInfo F → PositionInfo F
  closed t p =
      let v = clamped (closed_volumes t.offset t.volume (volumes p)) in
      record p {
        account_id =
            if is_empty p.account_id && not (is_empty t.account_id)
            then safe_copy t.account_id 16
            else p.account_id;
        total = v.total;
        today = v.today;
        yesterday = v.yesterday;
        avg_price = if eq_ℤ v.total (pos 0) then zero_f d else p.avg_price;
      }

  -- A close that raises the flag: more than the total, or volumes that no longer add up.
  unfoldable pub diverges : TradeInfo F → PositionInfo F → Bool
  diverges t p =
      ltb_ℤ p.total t.volume
      || not (balanced (clamped (closed_volumes t.offset t.volume (volumes p))))

  abbrev pub or_default : Option (PositionInfo F) → PositionInfo F
  or_default none = no_position
  or_default (some p) = p

  unfoldable pub on_trade : TradeInfo F → Positions → Positions
  on_trade t m =
      if is_open t.offset
      then record m {
        positions = put open_key (opened t (or_default (find open_key m.positions))) m.positions;
      }
      else elim (find close_key m.positions) [
        | none ↦ m
        | some p ↦ record {
          positions = put close_key (closed t p) m.positions;
          reconciliation_needed = m.reconciliation_needed || diverges t p;
        }
      ]
    where
      open_key : Text
      open_key = side_key t.instrument_id t.direction

      close_key : Text
      close_key = side_key t.instrument_id (opposite t.direction)

  unfoldable pub get_position : Text → Direction → Positions → PositionInfo F
  get_position instrument dir m = elim (find (side_key instrument dir) m.positions) [
    | some p ↦ p
    | none ↦ record no_position { instrument_id = safe_copy instrument 24; direction = dir }
  ]

  abbrev pub total_of : Option (PositionInfo F) → ℤ
  total_of none = pos 0
  total_of (some p) = p.total

  unfoldable pub get_net_position : Text → Positions → ℤ
  get_net_position instrument m =
      total_of (find (side_key instrument buy) m.positions)
      -ℤ total_of (find (side_key instrument sell) m.positions)

  unfoldable pub update_position : Text → Direction → PositionInfo F → Positions → Positions
  update_position instrument dir p m = record m {
    positions = put (side_key instrument dir) p m.positions;
  }

  unfoldable pub insert_positions :
      List (PositionInfo F) → Dict Text (PositionInfo F) → Dict Text (PositionInfo F)
  insert_positions [] acc = acc
  insert_positions (p ∷ ps) acc =
      insert_positions ps
        (if leb_ℤ p.total (pos 0) then acc else put (side_key p.instrument_id p.direction) p acc)

  unfoldable pub replace_positions : List (PositionInfo F) → Positions → Positions
  unfolding insert_positions
  replace_positions snapshot m = record m { positions = insert_positions snapshot [] }

  unfoldable pub clear : Positions → Positions
  clear m = record m { positions = [] }

  unfoldable pub clear_reconciliation_flag : Positions → Positions
  clear_reconciliation_flag m = record m { reconciliation_needed = false }

  held_among : Dict Text (PositionInfo F) → List (PositionInfo F)
  held_among [] = []
  held_among ((k, p) ∷ m) =
      let rest = held_among m in if ltb_ℤ (pos 0) p.total then p ∷ rest else rest

  unfoldable pub get_all_positions : Positions → List (PositionInfo F)
  unfolding held_among
  get_all_positions m = held_among m.positions

  unfoldable pub sum_totals : Dict Text (PositionInfo F) → ℤ
  sum_totals [] = pos 0
  sum_totals ((k, p) ∷ m) = p.total +ℤ sum_totals m

  unfoldable pub get_total_absolute_position : Positions → ℤ
  get_total_absolute_position m = sum_totals m.positions
