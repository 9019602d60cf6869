-- ===== src/Positions/Net.antt =====
-- How a fill moves the net position of src/position/position_manager.cpp, and what it leaves alone.
use hft_framework.Common.{
  ◌≡◌, ◌≢◌, refl, sym, ap, ◌∙◌, ◌⊎◌, inl, inr, ℤ, pos, ◌+ℤ◌, ◌-ℤ◌, ◌≤ℤ◌, ◌<ℤ◌, int_laws, true,
  false, Bool-cases, Option-cases, arith, Option, none, some, Text, Text-Eq, text_eq, text_eq_iff,
  take, find, put, find-put, find-put_self, AllValues, AllValues-put, AllValues-find,
}
use hft_framework.Double.{Double}
use hft_framework.Types.{Direction, buy, sell, opposite, is_open, PositionInfo, TradeInfo}
use hft_framework.Positions.Book.{
  Positions, no_position, volumes, opened, closed, diverges, or_default, on_trade, total_of,
  get_position, get_net_position, side_key,
}
use hft_framework.Positions.Keys.{side_key_iff}
use hft_framework.Positions.Balance.{AreSound}
use hft_framework.Positions.Fills.{opened_lem, closed_lem}

side_key-ne : (s t : Text) → text_eq (side_key s buy) (side_key t sell) ≡ false
side_key-ne s t =
    ground (arith, text_eq_iff (side_key s buy) (side_key t sell), (side_key_iff s t buy sell).0)

side_key-ne' : (s t : Text) → text_eq (side_key s sell) (side_key t buy) ≡ false
side_key-ne' s t =
    ground (arith, text_eq_iff (side_key s sell) (side_key t buy), (side_key_iff s t sell buy).0)

side_key-other :
    (s t : Text) (a b : Direction)
    → take 15 s ≢ take 15 t
    → text_eq (side_key s a) (side_key t b) ≡ false
side_key-other s t a b ne = elim (Bool-cases (text_eq (side_key s a) (side_key t b))) [
  | inl e ↦ absurd (ne ((side_key_iff s t a b).0 ((text_eq_iff _ _).0 e)).0)
  | inr e ↦ e
]

-- The change of the net position that a fill in this direction stands for.
abbrev pub signed : Direction → ℤ → ℤ
signed buy n = n
signed sell n = pos 0 -ℤ n

-- The net position after one side takes this total.
abbrev net_after : Direction → ℤ → ℤ → ℤ → ℤ
net_after buy total long short = total -ℤ short
net_after sell total long short = long -ℤ total

open_moves :
    (dir : Direction) (f : Direction → ℤ) (n : ℤ)
    → net_after dir (f dir +ℤ n) (f buy) (f sell) ≡ f buy -ℤ f sell +ℤ signed dir n
open_moves buy f n = omega int_laws
open_moves sell f n = omega int_laws

close_moves :
    (dir : Direction) (f : Direction → ℤ) (n : ℤ)
    → net_after (opposite dir) (f (opposite dir) -ℤ n) (f buy) (f sell)
      ≡ f buy -ℤ f sell +ℤ signed dir n
close_moves buy f n = omega int_laws
close_moves sell f n = omega int_laws

module _ (d : Double) where
  open d use {F}

  abbrev pub AllSound : Positions d → Type 0
  AllSound m = AllValues (λ p. AreSound (volumes d p)) m.positions

  -- The change of the net position that a fill of this volume stands for.
  abbrev pub signed_volume : TradeInfo F → ℤ
  signed_volume t = signed t.direction t.volume
    where
      signed : Direction → ℤ → ℤ
      signed buy n = n
      signed sell n = pos 0 -ℤ n

  default_sound : AreSound (volumes d (no_position d))
  default_sound = record {
    total_nonneg = omega arith;
    today_nonneg = omega arith;
    yesterday_nonneg = omega arith;
    adds_up = omega int_laws;
  }

  found_sound :
      (k : Text) (m : Positions d)
      → AllSound m
      → AreSound (volumes d (or_default d (find k m.positions)))
  found_sound k m s = elim (Option-cases (find k m.positions)) [
    | inl e ↦ rw e default_sound
    | inr (p, e) ↦ rw e (AllValues-find _ k m.positions s e)
  ]

  total-or_default : (o : Option (PositionInfo F)) → (or_default d o).total ≡ total_of d o
  total-or_default none = refl
  total-or_default (some p) = refl

  abbrev held : Text → Direction → Positions d → ℤ
  held instrument side m = total_of d (find (side_key instrument side) m.positions)

  -- The table after a write of a sound position with this total, on one side of an instrument.
  record Writes (instrument : Text) (side : Direction) (total : ℤ) (m m' : Positions d)
      : Type 0 where
    entry : PositionInfo F
    placed : m'.positions ≡ put (side_key instrument side) entry m.positions
    moved : entry.total ≡ total
    sound : AreSound (volumes d entry)

  open-Writes :
      (t : TradeInfo F) (m : Positions d)
      → pos 0 ≤ℤ t.volume
      → AllSound m
      → is_open t.offset ≡ true
      → Writes t.instrument_id t.direction
          (held t.instrument_id t.direction m +ℤ t.volume)
          m
          (on_trade d t m)
  unfolding on_trade
  open-Writes t m h s op =
      let key = side_key t.instrument_id t.direction in
      let old = or_default d (find key m.positions) in
      let (total, sound) = opened_lem d t old h (found_sound key m s) in
      record {
        entry = opened d t old;
        placed = rw (op, on_trade);
        moved = total ∙ ap (λ n. n +ℤ t.volume) (total-or_default (find key m.positions));
        sound = sound;
      }

  close-Writes :
      (t : TradeInfo F) (m : Positions d) {p : PositionInfo F}
      → pos 0 ≤ℤ t.volume
      → AllSound m
      → is_open t.offset ≡ false
      → find (side_key t.instrument_id (opposite t.direction)) m.positions ≡ some p
      → (on_trade d t m).reconciliation_needed ≡ false
      → Writes t.instrument_id
          (opposite t.direction)
          (held t.instrument_id (opposite t.direction) m -ℤ t.volume)
          m
          (on_trade d t m)
  unfolding on_trade
  close-Writes t m {p} h s cl e quiet =
      let still : diverges d t p ≡ false = ground arith in
      let (total, sound) = closed_lem d t p h (AllValues-find _ _ m.positions s e) still in
      record {
        entry = closed d t p;
        placed = rw (cl, on_trade) (rw (e, on_trade));
        moved = total ∙ ap (λ o. total_of d o -ℤ t.volume) (sym e);
        sound = sound;
      }

  -- What a write does to the net position of its instrument.
  net-Writes :
      (instrument : Text) (side : Direction) (total : ℤ) (m m' : Positions d)
      → Writes instrument side total m m'
      → get_net_position d instrument m'
        ≡ net_after side total (held instrument buy m) (held instrument sell m)
  unfolding get_net_position
  net-Writes i buy total m m' w =
      rw (w.placed, find-put_self, find-put, side_key-ne) (ap (λ n. n -ℤ held i sell m) w.moved)
  net-Writes i sell total m m' w =
      rw (w.placed, find-put_self, find-put, side_key-ne') (ap (λ n. held i buy m -ℤ n) w.moved)

  -- A fill that opens, or that closes a position in the table.
  abbrev pub IsKnown : TradeInfo F → Positions d → Type 0
  IsKnown t m =
      (is_open t.offset ≡ true)
      ⊎ (find (side_key t.instrument_id (opposite t.direction)) m.positions ≢ none)

  net_position-on_trade_open :
      (t : TradeInfo F) (m : Positions d)
      → pos 0 ≤ℤ t.volume
      → AllSound m
      → is_open t.offset ≡ true
      → get_net_position d t.instrument_id (on_trade d t m)
        ≡ get_net_position d t.instrument_id m +ℤ signed t.direction t.volume
  unfolding get_net_position
  net_position-on_trade_open t m h s op =
      net-Writes t.instrument_id t.direction _ m (on_trade d t m) (open-Writes t m h s op)
      ∙ open_moves t.direction (λ side. held t.instrument_id side m) t.volume

  -- A closing fill with no position in the table changes nothing, and does not raise the flag.
  pub close_unknown :
      (t : TradeInfo F) (m : Positions d)
      → is_open t.offset ≡ false
      → find (side_key t.instrument_id (opposite t.direction)) m.positions ≡ none
      → on_trade d t m ≡ m
  unfolding on_trade
  close_unknown t m cl e = rw (cl, on_trade) (rw (e, on_trade))

  -- A closing fill with no position in the table closes more than `get_position` says is held, and
  -- yet changes nothing and does not raise the flag.
  pub close_unknown_unflagged :
      (t : TradeInfo F) (m : Positions d)
      → is_open t.offset ≡ false
      → pos 0 <ℤ t.volume
      → find (side_key t.instrument_id (opposite t.direction)) m.positions ≡ none
      → ((get_position d t.instrument_id (opposite t.direction) m).total <ℤ t.volume)
        × (on_trade d t m ≡ m)
  unfolding get_position
  close_unknown_unflagged t m cl h e = (rw (e, get_position) h, close_unknown t m cl e)

  kept :
      (instrument : Text) (side : Direction) (total : ℤ) (m m' : Positions d)
      → AllSound m
      → Writes instrument side total m m'
      → AllSound m'
  kept i side total m m' s w = rw w.placed (AllValues-put _ _ w.entry m.positions w.sound s)

  -- A fill of sound positions that raises no flag, and that opens a position or closes a known one,
  -- moves the net position of its instrument by its volume, up for a buy and down for a sell.
  pub net_position-on_trade :
      (t : TradeInfo F) (m : Positions d)
      → pos 0 ≤ℤ t.volume
      → AllSound m
      → IsKnown t m
      → (on_trade d t m).reconciliation_needed ≡ false
      → get_net_position d t.instrument_id (on_trade d t m)
        ≡ get_net_position d t.instrument_id m +ℤ signed t.direction t.volume
  unfolding get_net_position
  net_position-on_trade t m h s (inl op) quiet = net_position-on_trade_open t m h s op
  net_position-on_trade t m h s (inr known) quiet = elim (Bool-cases (is_open t.offset)) [
    | inl op ↦ net_position-on_trade_open t m h s op
    | inr cl ↦
        elim (Option-cases (find (side_key t.instrument_id (opposite t.direction)) m.positions)) [
          | inl absent ↦ absurd (known absent)
          | inr (p, e) ↦
              net-Writes t.instrument_id (opposite t.direction) _ m (on_trade d t m)
                (close-Writes t m h s cl e quiet)
              ∙ close_moves t.direction (λ side. held t.instrument_id side m) t.volume
        ]
  ]

  -- Such a fill leaves sound positions.
  pub on_trade-AllSound :
      (t : TradeInfo F) (m : Positions d)
      → pos 0 ≤ℤ t.volume
      → AllSound m
      → (on_trade d t m).reconciliation_needed ≡ false
      → AllSound (on_trade d t m)
  on_trade-AllSound t m h s quiet = elim (Bool-cases (is_open t.offset)) [
    | inl op ↦ kept _ _ _ m (on_trade d t m) s (open-Writes t m h s op)
    | inr cl ↦
        elim (Option-cases (find (side_key t.instrument_id (opposite t.direction)) m.positions)) [
          | inl absent ↦ rw (close_unknown t m cl absent) s
          | inr (p, e) ↦ kept _ _ _ m (on_trade d t m) s (close-Writes t m h s cl e quiet)
        ]
  ]

  find-on_trade_other :
      (t : TradeInfo F) (m : Positions d) (instrument : Text) (side : Direction)
      → take 15 t.instrument_id ≢ take 15 instrument
      → find (side_key instrument side) (on_trade d t m).positions
        ≡ find (side_key instrument side) m.positions
  unfolding on_trade
  find-on_trade_other t m i side ne = elim (Bool-cases (is_open t.offset)) [
    | inl op ↦ rw (op, on_trade) (rw (find-put, side_key-other _ _ _ _ ne))
    | inr cl ↦
        elim (Option-cases (find (side_key t.instrument_id (opposite t.direction)) m.positions)) [
          | inl absent ↦ ap (λ r. find (side_key i side) r.positions) (close_unknown t m cl absent)
          | inr (p, e) ↦
              rw (cl, on_trade) (rw (e, on_trade) (rw (find-put, side_key-other _ _ _ _ ne)))
        ]
  ]

  -- A fill leaves the net position of every instrument that differs from its own in the first 15
  -- bytes.
  pub net_position-on_trade_other :
      (t : TradeInfo F) (m : Positions d) (instrument : Text)
      → take 15 t.instrument_id ≢ take 15 instrument
      → get_net_position d instrument (on_trade d t m) ≡ get_net_position d instrument m
  unfolding get_net_position
  net_position-on_trade_other t m i ne =
      rw (find-on_trade_other t m i buy ne, find-on_trade_other t m i sell ne)
