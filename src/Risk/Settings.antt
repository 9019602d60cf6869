-- ===== src/Risk/Settings.antt =====
-- src/risk/risk_manager.cpp: the parameters read from the configuration, their limits, and the patterns
-- that excuse a strategy from the cancel rate.
use hft_framework.Common.{
  ℕ, ◌-◌, ℤ, pos, ltb_ℤ, Bool, true, false, not, ◌&&◌, ◌||◌, List, [], ◌∷◌, ◌++◌, leb, ◌==◌, length,
  take, drop, if◌then◌else◌, Text, text_eq, is_empty, codes,
}
use hft_framework.Double.{Double, zero_f}
use hft_framework.Risk.State.{Params, Risk}
use hft_framework.Risk.Sessions.{split, read_sessions}

abbrev pub starts_with : Text → Text → Bool
starts_with s core = text_eq (take (length core) s) core

-- `s.find(core) != npos`
unfoldable pub contains : Text → Text → Bool
contains core [] = is_empty core
contains core (c ∷ cs) = starts_with (c ∷ cs) core || contains core cs

abbrev first_is_star : Text → Bool
first_is_star [] = false
first_is_star (c ∷ cs) = c == b'*'

abbrev pub head_star : Text → Bool
head_star pat = first_is_star pat

unfoldable pub tail_star : Text → Bool
tail_star [] = false
tail_star (c ∷ []) = c == b'*'
tail_star (c ∷ c' ∷ cs) = tail_star (c' ∷ cs)

abbrev one_if : Bool → ℕ
one_if true = 1
one_if false = 0

-- `substr` of the pattern without its stars; for the pattern `*` the length of the source wraps
-- around and the text it cuts from is empty.
abbrev pub core_of : Text → Text
core_of pat =
    let head = one_if (head_star pat) in
    take (length pat - head - one_if (tail_star pat)) (drop head pat)

unfoldable pub glob_match : Text → Text → Bool
unfolding contains tail_star
glob_match pat s =
    let core = core_of pat in
    if is_empty pat
    then false
    else if is_empty core
    then true
    else if head_star pat && tail_star pat
    then contains core s
    else if head_star pat
    then leb (length core) (length s) && text_eq (drop (length s - length core) s) core
    else if tail_star pat
    then leb (length core) (length s) && starts_with s core
    else text_eq s core

abbrev is_blank : ℕ → Bool
is_blank c = c == 32 || c == 9 || c == 13 || c == 10

unfoldable trim_left : Text → Text
trim_left [] = []
trim_left (c ∷ cs) = let rest = trim_left cs in if is_blank c then rest else c ∷ cs

unfoldable trim_right : Text → Text
trim_right [] = []
trim_right (c ∷ cs) =
    let rest = trim_right cs in if is_blank c && is_empty rest then [] else c ∷ rest

unfoldable trim_all : List Text → List Text
unfolding trim_left trim_right
trim_all [] = []
trim_all (t ∷ ts) =
    let rest = trim_all ts in
    let trimmed = trim_right (trim_left t) in if is_empty trimmed then rest else trimmed ∷ rest

unfoldable pub parse_pattern_list : Text → List Text
unfolding split trim_all
parse_pattern_list csv = trim_all (split b',' csv)

unfoldable pub any_match : List Text → Text → Bool
unfolding glob_match
any_match [] s = false
any_match (pat ∷ pats) s = glob_match pat s || any_match pats s

-- `clamp_risk_params` on one `int`: a value below the range, then one above it.
unfoldable pub clamp : ℤ → ℤ → ℤ → ℤ
clamp lo hi n = let m = if ltb_ℤ n lo then lo else n in if ltb_ℤ hi m then hi else m

module _ (d : Double) where
  open d use {F, lt}

  unfoldable pub is_cancel_rate_exempt : Text → Risk d → Bool
  unfolding any_match
  is_cancel_rate_exempt strategy_id r =
      if is_empty strategy_id then false else any_match r.cancel_rate_exempt_patterns strategy_id

  abbrev above_zero : F → F
  above_zero x = if lt x (zero_f d) then zero_f d else x

  abbrev at_most_one : F → F
  at_most_one x = if lt (d.of_int (pos 1)) x then d.of_int (pos 1) else x

  unfoldable pub clamp_risk_params : Params d → Params d
  unfolding clamp
  clamp_risk_params p = record p {
    max_order_size = clamp (pos 1) (pos 10000) p.max_order_size;
    max_net_position = clamp (pos 1) (pos 50000) p.max_net_position;
    max_total_position = clamp (pos 0) (pos 500000) p.max_total_position;
    max_orders_per_minute = clamp (pos 1) (pos 600) p.max_orders_per_minute;
    cancel_rate_window_minutes = clamp (pos 1) (pos 1440) p.cancel_rate_window_minutes;
    cancel_rate_min_sample = clamp (pos 1) (pos 1000) p.cancel_rate_min_sample;
    max_cancel_rate = at_most_one (above_zero p.max_cancel_rate);
    max_daily_loss = above_zero p.max_daily_loss;
  }

  -- The calls that the risk manager makes of a `Config`: a section, a key and a default.
  pub record Config : Type 0 where
    pub has_section : Text → Bool
    pub get_int : Text → Text → ℤ → ℤ
    pub get_double : Text → Text → F → F
    pub get_string : Text → Text → Text → Text

  -- The section of the account, if it has one, else the common one.
  unfoldable pub risk_section : Config → Text → Text
  risk_section config account_id =
      let own = codes "Risk." ++ account_id in
      if not (is_empty account_id) && config.has_section own then own else codes "Risk"

  unfoldable pub read_params : Config → Text → List (ℤ × ℤ) → Params d
  unfolding parse_pattern_list clamp_risk_params
  read_params config section sessions = clamp_risk_params record {
    max_order_size = config.get_int section (codes "MaxOrderSize") (pos 5);
    max_net_position = config.get_int section (codes "MaxNetPosition") (pos 10);
    max_total_position = config.get_int section (codes "MaxTotalPosition") (pos 0);
    max_orders_per_minute = config.get_int section (codes "MaxOrdersPerMinute") (pos 30);
    cancel_rate_window_minutes = config.get_int section (codes "CancelRateWindowMinutes") (pos 60);
    cancel_rate_min_sample = config.get_int section (codes "CancelRateMinSample") (pos 10);
    max_cancel_rate = config.get_double section (codes "MaxCancelRate") (d.literal 5 1);
    max_daily_loss = config.get_double section (codes "MaxDailyLoss") (d.literal 0 1);
    max_price_deviation = config.get_double section (codes "MaxPriceDeviation") (d.literal 1 1);
    cancel_rate_exempt_patterns =
        parse_pattern_list (config.get_string section (codes "CancelRateExemptStrategies") []);
    trading_sessions = sessions;
  }

  -- The state, and whether an exception leaves the call; the sessions read before it stay.
  unfoldable pub reload_risk_config : Config → Risk d → Risk d × Bool
  unfolding risk_section read_params read_sessions split
  reload_risk_config config r =
      let read =
        read_sessions
          (split b',' (config.get_string (codes "Trading") (codes "TradingSessions") [])) in
      (record r { params = read_params config (risk_section config r.account_id) read.0 }, read.1)

  -- `init`, with managers that are not null. The source repeats the body of the reload.
  unfoldable pub init_risk : Config → Text → Risk d → Risk d × Bool
  unfolding reload_risk_config
  init_risk config account_id r = reload_risk_config config (record r { account_id = account_id })
