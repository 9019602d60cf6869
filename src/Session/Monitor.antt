-- ===== src/Session/Monitor.antt =====
-- src/engine/session_manager.cpp, and the checks of TradingEngine::check_runtime_alerts that read it. The
-- local time, in minutes since midnight, and the steady clock, in milliseconds, are arguments.
use hft_framework.Common.{
  ◌/◌, leb, ℤ, pos, negsuc, pos_part, ◌-ℤ◌, ltb_ℤ, leb_ℤ, Bool, true, false, not, ◌&&◌, ◌||◌, none,
  some, List, [], ◌∷◌, if◌then◌else◌, Text, length, take, drop, get_elem?,
}
use hft_framework.Risk.Sessions.{Parsed, value, throws, stoi, hour_minute, colon, at_dash, split}

pub record SessionManager : Type 0 where
  pub no_tick_warn_seconds : ℤ
  pub monitor_trading_sessions : List (ℤ × ℤ)
  pub last_tick_steady_ms : ℤ
  pub trading_session_enter_steady_ms : ℤ
  pub no_tick_alerted : Bool
  pub last_in_trading_session : Bool
  pub last_md_logged_in : Bool
  pub last_td_logged_in : Bool

abbrev pub initial : SessionManager
initial = record {
  no_tick_warn_seconds = pos 10;
  monitor_trading_sessions = [];
  last_tick_steady_ms = pos 0;
  trading_session_enter_steady_ms = pos 0;
  no_tick_alerted = false;
  last_in_trading_session = false;
  last_md_logged_in = false;
  last_td_logged_in = false;
}

-- `catch (...)`
abbrev pub caught : Parsed ℤ → ℤ
caught throws = negsuc 0
caught (value n) = n

-- Minutes since midnight, or -1. What follows the fifth byte is not read.
unfoldable pub parse_minutes : Text → ℤ
unfolding stoi
parse_minutes text =
    let parsed : Parsed ℤ = elim (stoi (take 2 text)) [
      | throws ↦ throws
      | value hour ↦ elim (stoi (take 2 (drop 3 text))) [
        | throws ↦ throws
        | value minute ↦ value (hour_minute hour minute)
      ]
    ] in
    if leb 5 (length text) && colon (get_elem? text 2) then caught parsed else negsuc 0

unfoldable pub parse_tokens : List Text → List (ℤ × ℤ)
unfolding parse_minutes at_dash
parse_tokens [] = []
parse_tokens (token ∷ tokens) =
    let rest = parse_tokens tokens in
    elim (at_dash token) [
      | none ↦ rest
      | some ab ↦
          if leb_ℤ (pos 0) (parse_minutes ab.0) && leb_ℤ (pos 0) (parse_minutes ab.1)
          then (parse_minutes ab.0, parse_minutes ab.1) ∷ rest
          else rest
    ]

unfoldable pub parse_trading_sessions : Text → List (ℤ × ℤ)
unfolding parse_tokens split
parse_trading_sessions text = parse_tokens (split b',' text)

-- The loop over the sessions; hours past midnight have their end before their start.
unfoldable pub any_window : ℤ → List (ℤ × ℤ) → Bool
any_window now [] = false
any_window now ((start, end) ∷ rest) =
    (if leb_ℤ start end then leb_ℤ start now && leb_ℤ now end else leb_ℤ start now || leb_ℤ now end)
    || any_window now rest

unfoldable pub is_in_configured_trading_session : ℤ → SessionManager → Bool
unfolding any_window
is_in_configured_trading_session now_minutes s = elim s.monitor_trading_sessions [
  | [] ↦ true
  | w ∷ ws ↦ any_window now_minutes (w ∷ ws)
]

unfoldable pub apply_monitoring_config : ℤ → ℤ → ℤ → Text → SessionManager → SessionManager
unfolding is_in_configured_trading_session parse_trading_sessions
apply_monitoring_config now_ms now_minutes warn_seconds trading_sessions s =
    let s' = record s {
      no_tick_warn_seconds = warn_seconds;
      monitor_trading_sessions = parse_trading_sessions trading_sessions;
    } in
    let inside = is_in_configured_trading_session now_minutes s' in
    record s' {
      last_in_trading_session = inside;
      trading_session_enter_steady_ms = if inside then now_ms else pos 0;
      no_tick_alerted = false;
    }

pub record SessionTransition : Type 0 where
  pub changed : Bool
  pub leaving_session : Bool

abbrev bool_eq : Bool → Bool → Bool
bool_eq true b = b
bool_eq false b = not b

unfoldable pub refresh_trading_session_state :
    ℤ → Bool → SessionManager → SessionTransition × SessionManager
refresh_trading_session_state now_ms in_session s =
    if not (bool_eq in_session s.last_in_trading_session)
    then (
      record { changed = true; leaving_session = s.last_in_trading_session && not in_session },
      record s {
        last_in_trading_session = in_session;
        no_tick_alerted = false;
        trading_session_enter_steady_ms = if in_session then now_ms else pos 0;
      },
    )
    else (
      record { changed = false; leaving_session = false },
      if in_session && leb_ℤ s.trading_session_enter_steady_ms (pos 0)
          then record s { trading_session_enter_steady_ms = now_ms }
          else s,
    )

abbrev pub whole_seconds : ℤ → ℤ
whole_seconds ms = pos (pos_part ms / 1000)

unfoldable pub seconds_since_last_tick : ℤ → SessionManager → ℤ
seconds_since_last_tick now_ms s =
    if leb_ℤ s.last_tick_steady_ms (pos 0)
    then negsuc 0
    else whole_seconds (now_ms -ℤ s.last_tick_steady_ms)

-- What the engine does on a tick: update_last_tick_time, then set_no_tick_alerted(false).
unfoldable pub note_tick : ℤ → SessionManager → SessionManager
note_tick now_ms s = record s { last_tick_steady_ms = now_ms; no_tick_alerted = false }

-- The idle time that the engine compares with its limit.
unfoldable pub effective_idle : ℤ → SessionManager → ℤ
unfolding seconds_since_last_tick
effective_idle now_ms s =
    let idle_seconds = seconds_since_last_tick now_ms s in
    if ltb_ℤ idle_seconds (pos 0) && ltb_ℤ (pos 0) s.trading_session_enter_steady_ms
    then whole_seconds (now_ms -ℤ s.trading_session_enter_steady_ms)
    else idle_seconds

-- No tick for longer than the limit, inside the session.
unfoldable pub is_too_quiet : Bool → ℤ → SessionManager → Bool
unfolding effective_idle
is_too_quiet inside now_ms s =
    inside
    && ltb_ℤ (pos 0) s.no_tick_warn_seconds
    && leb_ℤ (pos 0) (effective_idle now_ms s)
    && leb_ℤ s.no_tick_warn_seconds (effective_idle now_ms s)

-- The Boolean says whether an alert is recorded.
unfoldable pub raise_alert : Bool → ℤ → SessionManager → Bool × SessionManager
raise_alert inside now_ms s =
    if is_too_quiet inside now_ms s && not s.no_tick_alerted
    then (true, record s { no_tick_alerted = true })
    else (false, s)

-- The checks of the trading hours and of the ticks.
unfoldable pub check_ticks : ℤ → ℤ → SessionManager → Bool × SessionManager
check_ticks now_ms now_minutes s =
    let inside = is_in_configured_trading_session now_minutes s in
    raise_alert inside now_ms (refresh_trading_session_state now_ms inside s).1
