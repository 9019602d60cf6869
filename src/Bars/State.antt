-- ===== src/Bars/State.antt =====
-- src/engine/kline_manager.h: bars, the state of an instrument, and the time that a bar starts at.
-- The functions of <ctime> are the parameter `Calendar`, and the clock's reading is an argument.
use hft_framework.Common.{
  ℕ, ◌+◌, ◌-◌, ◌*◌, ◌/◌, ◌%◌, leb, ◌==◌, ℤ, pos, negsuc, pos_part, neg_part, sub_ℕ, ◌+ℤ◌, ◌-ℤ◌,
  ltb_ℤ, max_ℤ, ◌||◌, List, [], ◌∷◌, ◌++◌, if◌then◌else◌, Text, text_eq, codes, length, take, drop,
}
use hft_framework.Risk.Sessions.{Parsed, value, throws, stoi}

-- `open` of the source is `open_price` here.
pub record KlineBar (P : Type 0) : Type 0 where
  pub timestamp_ms : ℤ
  pub time : Text
  pub open_price : P
  pub high : P
  pub low : P
  pub close : P
  pub volume : ℤ
  pub turnover : P

pub record InstrumentKlineState (P : Type 0) : Type 0 where
  pub last_volume : ℤ
  pub last_turnover : P
  pub last_trading_day : Text
  pub bars_by_period : List (Text × List (KlineBar P))

pub record KlineManager (P : Type 0) : Type 0 where
  pub cache : List (Text × InstrumentKlineState P)
  pub next_persist_steady_ms : ℤ

pub record CompletedBar (P : Type 0) : Type 0 where
  pub instrument : Text
  pub period : Text
  pub bar : KlineBar P

pub record KlineCatalogItem : Type 0 where
  pub instrument : Text
  pub period : Text
  pub bar_count : ℕ
  pub first_timestamp_ms : ℤ
  pub last_timestamp_ms : ℤ

-- The fields of `std::tm` that the source reads.
pub record Tm : Type 0 where
  pub tm_year : ℤ
  pub tm_mon : ℤ
  pub tm_mday : ℤ
  pub tm_hour : ℤ
  pub tm_min : ℤ

-- `mktime` takes year, month, day, hour, minute and second, as the fields of `std::tm` count them.
pub record Calendar : Type 0 where
  pub mktime : ℤ → ℤ → ℤ → ℤ → ℤ → ℤ → ℤ
  pub localtime : ℤ → Tm

abbrev pub times : ℕ → ℤ → ℤ
times k n = sub_ℕ (k * pos_part n) (k * neg_part n)

abbrev pub minute_period : Text
minute_period = codes "1m"

abbrev pub five_period : Text
five_period = codes "5m"

abbrev pub quarter_period : Text
quarter_period = codes "15m"

abbrev pub day_period : Text
day_period = codes "1d"

-- `substr`
abbrev pub substr : ℕ → ℕ → Text → Text
substr from n s = take n (drop from s)

infixl 5 ◌>>=◌
abbrev ◌>>=◌ : {A B : Type 0} → Parsed A → (A → Parsed B) → Parsed B
value a >>= f = f a
throws >>= f = throws

-- Three numbers, by the place and the length of each.
unfoldable three_numbers : Text → ℕ × ℕ → ℕ × ℕ → ℕ × ℕ → Parsed (ℤ × ℤ × ℤ)
unfolding stoi
three_numbers s a b c = do
  x ← stoi (substr a.0 a.1 s)
  y ← stoi (substr b.0 b.1 s)
  z ← stoi (substr c.0 c.1 s)
  value (x, y, z)

unfoldable day_fields : Tm → Text → Parsed (ℤ × ℤ × ℤ)
unfolding three_numbers
day_fields now day =
    let given : Parsed (ℤ × ℤ × ℤ) =
      (three_numbers day (0, 4) (4, 2) (6, 2) >>= λ ymd.
      value (ymd.0 -ℤ pos 1900, ymd.1 -ℤ pos 1, ymd.2)) in
    if length day == 8 then given else value (now.tm_year, now.tm_mon, now.tm_mday)

unfoldable time_fields : Text → Parsed (ℤ × ℤ × ℤ)
unfolding three_numbers
time_fields time =
    if leb 8 (length time)
    then three_numbers time (0, 2) (3, 2) (6, 2)
    else value (pos 0, pos 0, pos 0)

unfoldable pub local_date_time_to_epoch_ms : Calendar → Tm → Text → Text → ℤ → ℤ
unfolding day_fields time_fields
local_date_time_to_epoch_ms cal now day time millisec =
    elim (do
      d ← day_fields now day
      t ← time_fields time
      value (cal.mktime d.0 d.1 d.2 t.0 t.1 t.2)) [
        | throws ↦ pos 0
        | value seconds ↦
            if ltb_ℤ seconds (pos 0) then pos 0 else times 1000 seconds +ℤ max_ℤ millisec (pos 0)
      ]

unfoldable pub trading_day_to_bucket_ms : Calendar → Text → ℤ
unfolding three_numbers
trading_day_to_bucket_ms cal day =
    let midnight : ℤ = elim (three_numbers day (0, 4) (4, 2) (6, 2)) [
      | throws ↦ pos 0
      | value ymd ↦
          let seconds =
            cal.mktime (ymd.0 -ℤ pos 1900) (ymd.1 -ℤ pos 1) ymd.2 (pos 0) (pos 0) (pos 0) in
          if ltb_ℤ seconds (pos 0) then pos 0 else times 1000 seconds
    ] in
    if length day == 8 then midnight else pos 0

unfoldable pub period_bucket_ms : Text → ℕ
period_bucket_ms period =
    if text_eq period five_period
    then 300000
    else if text_eq period quarter_period
    then 900000
    else if text_eq period day_period
    then 86400000
    else 60000

-- `%` of the source rounds towards zero, and the bucket is never zero.
unfoldable pub bucket_start_ms : ℤ → Text → ℤ
unfolding period_bucket_ms
bucket_start_ms (pos n) period = pos (n - n % period_bucket_ms period)
bucket_start_ms (negsuc n) period = sub_ℕ ((n + 1) % period_bucket_ms period) (n + 1)

-- `%02d`; the fields of a time have at most two digits and no sign.
abbrev two_digits : ℤ → Text
two_digits n = (48 + pos_part n / 10) ∷ (48 + pos_part n % 10) ∷ []

unfoldable pub format_kline_time : Calendar → ℤ → Text → Text
format_kline_time cal timestamp_ms period =
    let tm = cal.localtime (sub_ℕ (pos_part timestamp_ms / 1000) (neg_part timestamp_ms / 1000)) in
    if text_eq period day_period
    then two_digits (tm.tm_mon +ℤ pos 1) ++ b'-' ∷ two_digits tm.tm_mday
    else two_digits tm.tm_hour ++ b':' ∷ two_digits tm.tm_min

unfoldable pub normalize_kline_period : Text → Text
normalize_kline_period period =
    if text_eq period five_period || text_eq period quarter_period || text_eq period day_period
    then period
    else minute_period
