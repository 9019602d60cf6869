-- ===== src/Session/Tests.antt =====
-- The session manager: tests, and instances of the theorems.
use hft_framework.Common.{
  ◌-ℤ◌, ◌≡◌, refl, ℤ, pos, negsuc, Bool, true, false, List, [], ◌∷◌, codes, Text, arith,
}
use hft_framework.Risk.Sessions.{split, parse_hhmm, read_sessions, in_trading_session, value}
use hft_framework.Session.Monitor.{
  SessionManager, initial, parse_minutes, parse_trading_sessions, is_in_configured_trading_session,
  apply_monitoring_config, check_ticks, raise_alert, is_too_quiet, refresh_trading_session_state,
}
use hft_framework.Session.Hours.{hours_agree}
use hft_framework.Session.Watch.{run_checks}

abbrev hours : Text
hours = codes "09:00-11:30,21:00-02:30"

two_sessions : parse_trading_sessions hours ≡ (pos 540, pos 690) ∷ (pos 1260, pos 150) ∷ []
unfolding parse_trading_sessions
two_sessions = refl

-- A time that is followed by a space is read by one of the two parsers only.
trailing_space :
    (parse_minutes (codes "11:30 ") ≡ pos 690) × (parse_hhmm (codes "11:30 ") ≡ value (negsuc 0))
unfolding parse_minutes parse_hhmm
trailing_space = (refl, refl)

abbrev configured : SessionManager
unfolding apply_monitoring_config
configured = apply_monitoring_config (pos 1000) (pos 600) (pos 5) hours initial

hours_agree_example :
    (parse_trading_sessions hours ≡ (read_sessions (split b',' hours)).0)
    × (is_in_configured_trading_session (pos 600) configured
        ≡ in_trading_session (pos 600) (read_sessions (split b',' hours)).0)
unfolding split read_sessions apply_monitoring_config
hours_agree_example = hours_agree hours (pos 600) configured (omega arith) refl refl

abbrev calls : List (ℤ × Bool)
calls = (pos 5, true) ∷ (pos 6, true) ∷ (pos 7, false) ∷ (pos 9, true) ∷ []

abbrev checks : List (ℤ × ℤ)
checks = (pos 7000, pos 600) ∷ (pos 8000, pos 600) ∷ []

one_alert : (run_checks checks configured).0 ≡ 1
unfolding apply_monitoring_config check_ticks raise_alert is_too_quiet
    is_in_configured_trading_session refresh_trading_session_state ◌-ℤ◌
one_alert = refl
