-- ===== src/Types.antt =====
-- src/common/types.h: the enumerations and plain records that the components exchange.
-- A `double` is a value of the parameter `P`, since the components here only pass prices on;
-- a `char[N]` is a `Text`, and an `int` is a `ℤ`.
use hft_framework.Common.{
  ℕ, ℤ, Bool, true, false, ◌&&◌, ◌||◌, [], ◌∷◌, ◌==◌, leb, if◌then◌else◌, Text, text_eq, codes, ◌≡◌,
  ◌↔◌, arith, List,
}

pub data Direction : Type 0 where
  buy sell : Direction

pub data Offset : Type 0 where
  open_position close close_today close_yesterday : Offset

pub data OrderStatus : Type 0 where
  pending part_traded all_traded cancelled error : OrderStatus
  created risk_rejected cancel_pending submitted : OrderStatus

abbrev pub dir_eq : Direction → Direction → Bool
dir_eq buy buy = true
dir_eq sell sell = true
dir_eq buy sell = false
dir_eq sell buy = false

pub dir_eq_iff : (a b : Direction) → (dir_eq a b ≡ true) ↔ (a ≡ b)
dir_eq_iff a b = ground arith

abbrev pub opposite : Direction → Direction
opposite buy = sell
opposite sell = buy

abbrev pub is_open : Offset → Bool
is_open open_position = true
is_open _ = false

-- `a == b` on offsets
abbrev pub offset_eq : Offset → Offset → Bool
offset_eq open_position open_position = true
offset_eq close close = true
offset_eq close_today close_today = true
offset_eq close_yesterday close_yesterday = true
offset_eq _ _ = false

-- The status as it was numbered before the later states were added.
unfoldable pub to_legacy_status : OrderStatus → OrderStatus
to_legacy_status created = pending
to_legacy_status risk_rejected = error
to_legacy_status cancel_pending = pending
to_legacy_status submitted = pending
to_legacy_status s = s

pub data PriceType : Type 0 where
  limit market fak : PriceType

pub record OrderRequest (P : Type 0) : Type 0 where
  pub instrument_id : Text
  pub exchange_id : Text
  pub account_id : Text
  pub strategy_id : Text
  pub direction : Direction
  pub price_type : PriceType
  pub offset : Offset
  pub price : P
  pub volume : ℤ

pub record OrderInfo (P : Type 0) : Type 0 where
  pub instrument_id : Text
  pub exchange_id : Text
  pub account_id : Text
  pub order_ref : Text
  pub strategy_id : Text
  pub order_sys_id : Text
  pub direction : Direction
  pub offset : Offset
  pub price : P
  pub total_volume : ℤ
  pub traded_volume : ℤ
  pub status : OrderStatus
  pub front_id : ℤ
  pub session_id : ℤ
  pub status_msg : Text
  pub insert_time : Text

pub record TradeInfo (P : Type 0) : Type 0 where
  pub instrument_id : Text
  pub exchange_id : Text
  pub account_id : Text
  pub trade_id : Text
  pub order_ref : Text
  pub strategy_id : Text
  pub direction : Direction
  pub offset : Offset
  pub price : P
  pub volume : ℤ
  pub trade_time : Text

pub record PositionInfo (P : Type 0) : Type 0 where
  pub instrument_id : Text
  pub account_id : Text
  pub direction : Direction
  pub total : ℤ
  pub today : ℤ
  pub yesterday : ℤ
  pub avg_price : P
  pub position_profit : P
  pub use_margin : P

abbrev is_cffex : ℕ → ℕ → Bool
is_cffex c0 c1 =
    (c0 == b'I' && (c1 == b'F' || c1 == b'H' || c1 == b'C' || c1 == b'M' || c1 == b'O'))
    || (c0 == b'M' && c1 == b'O')
    || (c0 == b'H' && c1 == b'O')
    || (c0 == b'T' && (c1 == b'F' || c1 == b'S' || c1 == b'L' || (leb b'0' c1 && leb c1 b'9')))

abbrev is_gfex : ℕ → ℕ → Bool
is_gfex c0 c1 =
    ((c0 == b's' || c0 == b'S') && (c1 == b'i' || c1 == b'I'))
    || ((c0 == b'l' || c0 == b'L') && (c1 == b'c' || c1 == b'C'))

abbrev is_shfe : ℕ → ℕ → Bool
is_shfe c0 c1 =
    (c0 == b'r' && c1 == b'b')
    || (c0 == b'h' && c1 == b'c')
    || (c0 == b'c' && c1 == b'u')
    || (c0 == b'a' && c1 == b'l')
    || (c0 == b'z' && c1 == b'n')
    || (c0 == b'p' && c1 == b'b')
    || (c0 == b'n' && c1 == b'i')
    || (c0 == b's' && c1 == b'n')
    || (c0 == b'a' && c1 == b'u')
    || (c0 == b'a' && c1 == b'g')
    || (c0 == b'b' && c1 == b'u')
    || (c0 == b'r' && c1 == b'u')
    || (c0 == b'w' && c1 == b'r')
    || (c0 == b'f' && c1 == b'u')
    || (c0 == b's' && c1 == b's')
    || (c0 == b's' && c1 == b'p')
    || (c0 == b'a' && c1 == b'o')
    || (c0 == b'b' && c1 == b'r')

abbrev is_ine : ℕ → ℕ → Bool
is_ine c0 c1 =
    (c0 == b's' && c1 == b'c')
    || (c0 == b'n' && c1 == b'r')
    || (c0 == b'l' && c1 == b'u')
    || (c0 == b'b' && c1 == b'c')
    || (c0 == b'e' && c1 == b'c')

-- The exchange of an instrument by its first two bytes; the second is 0 after a single one.
abbrev exchange_of : ℕ → ℕ → Text
exchange_of c0 c1 =
    if is_cffex c0 c1
    then codes "CFFEX"
    else if is_gfex c0 c1
    then codes "GFEX"
    else if is_shfe c0 c1
    then codes "SHFE"
    else if is_ine c0 c1
    then codes "INE"
    else if leb b'A' c0 && leb c0 b'Z'
    then codes "CZCE"
    else codes "DCE"

unfoldable pub get_exchange_id : Text → Text
get_exchange_id [] = []
get_exchange_id (c0 ∷ []) = exchange_of c0 0
get_exchange_id (c0 ∷ c1 ∷ cs) = exchange_of c0 c1

unfoldable pub need_close_today_flag : Text → Bool
need_close_today_flag exchange_id =
    text_eq exchange_id (codes "SHFE") || text_eq exchange_id (codes "INE")

pub record PriceLevel (P : Type 0) : Type 0 where
  pub price : P
  pub volume : ℤ

-- `bid` and `ask` have `kMarketDepth` levels, the best first.
pub record TickData (P : Type 0) : Type 0 where
  pub instrument_id : Text
  pub exchange_id : Text
  pub last_price : P
  pub pre_close_price : P
  pub open_price : P
  pub highest_price : P
  pub lowest_price : P
  pub volume : ℤ
  pub turnover : P
  pub open_interest : P
  pub bid : List (PriceLevel P)
  pub ask : List (PriceLevel P)
  pub upper_limit : P
  pub lower_limit : P
  pub update_time : Text
  pub update_millisec : ℤ
  pub trading_day : Text
  pub action_day : Text
  pub local_recv_ns : ℤ
