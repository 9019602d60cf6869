-- ===== src/Session/Watch.antt =====
-- src/engine/session_manager.cpp: what the trading session and the alert are after any sequence of checks.
use hft_framework.Common.{
  ℕ, ◌+◌, ◌≡◌, ◌≤◌, refl, sym, ap, ◌∙◌, leb_ℤ, ℤ, pos, Bool, true, false, List, [], ◌∷◌,
  if◌then◌else◌, arith, Bool-cases, inl, inr,
}
use hft_framework.Session.Monitor.{
  SessionManager, is_in_configured_trading_session, refresh_trading_session_state, check_ticks,
  raise_alert,
}

-- The state after calls with these readings of the clock, in or out of the session.
abbrev pub run_refresh : List (ℤ × Bool) → SessionManager → SessionManager
run_refresh [] s = s
run_refresh ((now_ms, inside) ∷ calls) s =
    run_refresh calls (refresh_trading_session_state now_ms inside s).1

-- When the session was entered that the last call is in, or 0 outside any: by the calls alone.
abbrev pub entered : ℤ → List (ℤ × Bool) → ℤ
entered since [] = since
entered since ((now_ms, inside) ∷ calls) =
    entered (if inside then if leb_ℤ since (pos 0) then now_ms else since else pos 0) calls

abbrev pub last_inside : Bool → List (ℤ × Bool) → Bool
last_inside inside [] = inside
last_inside inside ((now_ms, now_inside) ∷ calls) = last_inside now_inside calls

-- Outside a session no time of entry is kept.
abbrev pub IsConsistent : SessionManager → Type 0
IsConsistent s = s.last_in_trading_session ≡ false → s.trading_session_enter_steady_ms ≡ pos 0

refreshed :
    (now_ms : ℤ) (inside : Bool) (s : SessionManager)
    → IsConsistent s
    → ((refresh_trading_session_state now_ms inside s).1.last_in_trading_session ≡ inside)
      × ((refresh_trading_session_state now_ms inside s).1.trading_session_enter_steady_ms ≡ (
          if inside
          then if leb_ℤ s.trading_session_enter_steady_ms (pos 0)
            then now_ms
            else s.trading_session_enter_steady_ms
          else pos 0))
unfolding refresh_trading_session_state
refreshed now_ms inside s c = elim (Bool-cases s.last_in_trading_session) [
  | inl was ↦ ground arith
  | inr was ↦ ground (arith, c was)
]

refreshed-IsConsistent :
    (now_ms : ℤ) (inside : Bool) (s : SessionManager)
    → IsConsistent s
    → IsConsistent (refresh_trading_session_state now_ms inside s).1
refreshed-IsConsistent now_ms inside s c out =
    let r = refreshed now_ms inside s c in r.1 ∙ rw (sym r.0 ∙ out) refl

-- Over any sequence of checks the manager knows whether the last was inside a session, and the time at
-- which the session that it is in was entered, or 0 outside any. It starts with no time of entry
-- unless it is inside.
pub run_refresh-entered :
    (calls : List (ℤ × Bool)) (s : SessionManager)
    → IsConsistent s
    → ((run_refresh calls s).last_in_trading_session ≡ last_inside s.last_in_trading_session calls)
      × ((run_refresh calls s).trading_session_enter_steady_ms
          ≡ entered s.trading_session_enter_steady_ms calls)
run_refresh-entered [] s c = (refl, refl)
run_refresh-entered ((now_ms, inside) ∷ calls) s c =
    let r = refreshed now_ms inside s c in
    let s' = (refresh_trading_session_state now_ms inside s).1 in
    let rest = run_refresh-entered calls s' (refreshed-IsConsistent now_ms inside s c) in
    (rest.0 ∙ ap (λ b. last_inside b calls) r.0, rest.1 ∙ ap (λ t. entered t calls) r.1)

-- The alerts of a sequence of checks with no tick between them.
abbrev pub run_checks : List (ℤ × ℤ) → SessionManager → ℕ × SessionManager
run_checks [] s = (0, s)
run_checks ((now_ms, now_minutes) ∷ calls) s =
    let first = check_ticks now_ms now_minutes s in
    let rest = run_checks calls first.1 in ((if first.0 then 1 else 0) + rest.0, rest.1)

-- Every check falls inside the sessions.
abbrev pub AllInside : List (ℤ × ℤ) → SessionManager → Type 0
AllInside [] s = Unit
AllInside ((now_ms, now_minutes) ∷ calls) s =
    (is_in_configured_trading_session now_minutes s ≡ true) × AllInside calls s

abbrev alerted : Bool → ℕ
alerted b = if b then 1 else 0

refresh_inside :
    (now_ms : ℤ) (s : SessionManager)
    → s.last_in_trading_session ≡ true
    → let s' = (refresh_trading_session_state now_ms true s).1 in
      (s'.last_in_trading_session ≡ true)
      × (s'.monitor_trading_sessions ≡ s.monitor_trading_sessions)
      × (s'.no_tick_alerted ≡ s.no_tick_alerted)
unfolding refresh_trading_session_state
refresh_inside now_ms s was = ground arith

raise_counted :
    (now_ms : ℤ) (s : SessionManager)
    → let r = raise_alert true now_ms s in
      (r.1.last_in_trading_session ≡ s.last_in_trading_session)
      × (r.1.monitor_trading_sessions ≡ s.monitor_trading_sessions)
      × (alerted s.no_tick_alerted + (if r.0 then 1 else 0) ≡ alerted r.1.no_tick_alerted)
unfolding raise_alert
raise_counted now_ms s = ground arith

check_inside :
    (now_ms now_minutes : ℤ) (s : SessionManager)
    → s.last_in_trading_session ≡ true
    → is_in_configured_trading_session now_minutes s ≡ true
    → let r = check_ticks now_ms now_minutes s in
      (r.1.last_in_trading_session ≡ true)
      × (r.1.monitor_trading_sessions ≡ s.monitor_trading_sessions)
      × (alerted s.no_tick_alerted + (if r.0 then 1 else 0) ≡ alerted r.1.no_tick_alerted)
unfolding check_ticks
check_inside now_ms now_minutes s was inside =
    let a = refresh_inside now_ms s was in
    let s' = (refresh_trading_session_state now_ms true s).1 in
    let b = raise_counted now_ms s' in
    rw inside (
      b.0 ∙ a.0,
      b.1 ∙ a.1,
      ap (λ x. alerted x + (if (raise_alert true now_ms s').0 then 1 else 0)) (sym a.2) ∙ b.2,
    )

same_hours :
    (calls : List (ℤ × ℤ)) (s t : SessionManager)
    → t.monitor_trading_sessions ≡ s.monitor_trading_sessions
    → AllInside calls s
    → AllInside calls t
unfolding is_in_configured_trading_session
same_hours [] s t e a = tt
same_hours ((now_ms, now_minutes) ∷ calls) s t e a = (rw e a.0, same_hours calls s t e a.1)

-- Inside one session and with no tick between them, checks record at most one alert: none if one is
-- recorded already, and as many as say that one is recorded afterwards.
pub run_checks-alerts :
    (calls : List (ℤ × ℤ)) (s : SessionManager)
    → s.last_in_trading_session ≡ true
    → AllInside calls s
    → ((run_checks calls s).0 ≤ 1)
      × ((if s.no_tick_alerted then 1 else 0) + (run_checks calls s).0
          ≡ (if (run_checks calls s).1.no_tick_alerted then 1 else 0))
run_checks-alerts calls s was inside =
    let counted = total calls s was inside in (ground (arith, counted), counted)
  where
    total :
        (calls : List (ℤ × ℤ)) (s : SessionManager)
        → s.last_in_trading_session ≡ true
        → AllInside calls s
        → alerted s.no_tick_alerted + (run_checks calls s).0
          ≡ alerted (run_checks calls s).1.no_tick_alerted
    total [] s was inside = omega arith
    total ((now_ms, now_minutes) ∷ calls) s was inside =
        let one = check_inside now_ms now_minutes s was inside.0 in
        let s' = (check_ticks now_ms now_minutes s).1 in
        let rest = total calls s' one.0 (same_hours calls s s' one.1 inside.1) in
        omega (arith, one.2, rest)
