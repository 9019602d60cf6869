-- ===== src/Risk/Sessions.antt =====
-- src/risk/risk_manager.cpp: the trading hours, as text and as a test of the time of day.
use hft_framework.Common.{
  ℕ, ◌+◌, ◌-◌, ◌*◌, ℤ, pos, negsuc, pos_part, sub_ℕ, ltb_ℤ, leb_ℤ, Bool, true, false, ◌&&◌, ◌||◌,
  Option, none, some, List, [], ◌∷◌, ◌++◌, leb, ◌==◌, if◌then◌else◌, Text, length, take, drop,
  get_elem?,
}

-- `in_trading_session`, at a time of day; hours past midnight have their end before their start.
unfoldable pub within_session : ℤ → ℤ → ℤ → Bool
within_session now start end =
    if leb_ℤ start end then leb_ℤ start now && leb_ℤ now end else leb_ℤ start now || leb_ℤ now end

unfoldable pub any_session : ℤ → List (ℤ × ℤ) → Bool
any_session now [] = false
any_session now ((start, end) ∷ rest) = within_session now start end || any_session now rest

unfoldable pub in_trading_session : ℤ → List (ℤ × ℤ) → Bool
unfolding any_session
in_trading_session now [] = true
in_trading_session now (s ∷ rest) = any_session now (s ∷ rest)

-- What a call that may throw returns.
pub data Parsed (A : Type 0) : Type 0 where
  value : A → Parsed A
  throws : Parsed A

abbrev is_digit : ℕ → Bool
is_digit c = leb b'0' c && leb c b'9'

abbrev pub is_space : ℕ → Bool
is_space c = c == 32 || (leb 9 c && leb c 13)

unfoldable digits_value : ℕ → Text → ℕ
digits_value acc [] = acc
digits_value acc (c ∷ cs) =
    let more = digits_value (acc * 10 + (c - b'0')) cs in if is_digit c then more else acc

-- `std::stoi`: white space, a sign, digits. The bounds of an `int` are left to the caller.
unfoldable stoi_digits : (ℕ → ℤ) → Text → Parsed ℤ
unfolding digits_value
stoi_digits sign [] = throws
stoi_digits sign (c ∷ cs) = if is_digit c then value (sign (digits_value 0 (c ∷ cs))) else throws

unfoldable stoi_signed : Text → Parsed ℤ
unfolding stoi_digits
stoi_signed [] = throws
stoi_signed (c ∷ cs) =
    if c == b'-'
    then stoi_digits (λ n. sub_ℕ 0 n) cs
    else if c == b'+'
    then stoi_digits pos cs
    else stoi_digits pos (c ∷ cs)

unfoldable pub stoi : Text → Parsed ℤ
unfolding stoi_signed
stoi [] = throws
stoi (c ∷ cs) = let rest = stoi cs in if is_space c then rest else stoi_signed (c ∷ cs)

abbrev pub hour_minute : ℤ → ℤ → ℤ
hour_minute hour minute =
    if ltb_ℤ hour (pos 0) || ltb_ℤ (pos 23) hour || ltb_ℤ minute (pos 0) || ltb_ℤ (pos 59) minute
    then negsuc 0
    else pos (pos_part hour * 60 + pos_part minute)

abbrev pub colon : Option ℕ → Bool
colon none = false
colon (some c) = c == b':'

-- Minutes since midnight, or -1; `throws` is the exception of `std::stoi`.
unfoldable pub parse_hhmm : Text → Parsed ℤ
unfolding stoi
parse_hhmm s =
    let parsed : Parsed ℤ = elim (stoi (take 2 s)) [
      | throws ↦ throws
      | value hour ↦ elim (stoi (take 2 (drop 3 s))) [
        | throws ↦ throws
        | value minute ↦ value (hour_minute hour minute)
      ]
    ] in
    if length s == 5 && colon (get_elem? s 2) then parsed else value (negsuc 0)

-- The fields that `std::getline` reads; an empty one at the very end is not read.
unfoldable pub split_from : ℕ → Text → Text → List Text
split_from sep acc [] = if length acc == 0 then [] else acc ∷ []
split_from sep acc (c ∷ cs) =
    let here = split_from sep [] cs in
    let on = split_from sep (acc ++ c ∷ []) cs in if c == sep then acc ∷ here else on

unfoldable pub split : ℕ → Text → List Text
unfolding split_from
split sep s = split_from sep [] s

-- The text before and after the first `-`.
unfoldable pub at_dash : Text → Option (Text × Text)
at_dash [] = none
at_dash (c ∷ cs) =
    let rest : Option (Text × Text) = elim (at_dash cs) [
      | none ↦ none
      | some ab ↦ some (c ∷ ab.0, ab.1)
    ] in
    if c == b'-' then some ([], cs) else rest

-- The sessions that are pushed, and whether the loop is left by an exception.
unfoldable pub read_sessions : List Text → List (ℤ × ℤ) × Bool
unfolding parse_hhmm at_dash
read_sessions [] = ([], false)
read_sessions (token ∷ tokens) =
    let rest = read_sessions tokens in
    elim (at_dash token) [
      | none ↦ rest
      | some ab ↦ elim (parse_hhmm ab.0) [
        | throws ↦ ([], true)
        | value start ↦ elim (parse_hhmm ab.1) [
          | throws ↦ ([], true)
          | value end ↦
              if leb_ℤ (pos 0) start && leb_ℤ (pos 0) end
              then ((start, end) ∷ rest.0, rest.1)
              else rest
        ]
      ]
    ]
