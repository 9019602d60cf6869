-- ===== src/Session/Hours.antt =====
-- src/engine/session_manager.cpp and src/risk/risk_manager.cpp each read the trading hours from the same
-- text, with a parser of their own.
use hft_framework.Common.{
  ℕ, leb, leb_ℤ, take, drop, get_elem?, ◌==◌, ◌≡◌, ◌≤◌, ℤ, refl, Bool, true, false, ◌&&◌, Option,
  none, some, List, [], ◌∷◌, Text, length, arith, if◌then◌else◌, inl, inr, Option-cases, Bool-cases,
  ap, subst, negsuc, pos,
}
use hft_framework.Risk.Sessions.{
  Parsed, value, throws, stoi, hour_minute, colon, at_dash, split, parse_hhmm, read_sessions,
  within_session, any_session, in_trading_session,
}
use hft_framework.Session.Monitor.{
  SessionManager, parse_minutes, parse_tokens, parse_trading_sessions, any_window,
  is_in_configured_trading_session, caught,
}

size_test : (n : ℕ) → n ≤ 5 → leb 5 n ≡ (n == 5)
size_test n h = ground arith

catch_same :
    (c : Bool) (p : Parsed ℤ) (n : ℤ)
    → (if c then p else value (negsuc 0)) ≡ value n
    → (if c then caught p else negsuc 0) ≡ n
catch_same true (value m) n e = cc
catch_same true throws n e = absurd (cc)
catch_same false p n e = cc

abbrev both_parts : Text → Parsed ℤ
both_parts s = elim (stoi (take 2 s)) [
  | throws ↦ throws
  | value hour ↦ elim (stoi (take 2 (drop 3 s))) [
    | throws ↦ throws
    | value minute ↦ value (hour_minute hour minute)
  ]
]

-- A time of at most five bytes reads the same, unless the risk manager's parser throws.
minutes_agree : (s : Text) (n : ℤ) → length s ≤ 5 → parse_hhmm s ≡ value n → parse_minutes s ≡ n
unfolding parse_hhmm parse_minutes
minutes_agree s n h e =
    rw (size_test (length s) h)
      (catch_same (length s == 5 && colon (get_elem? s 2)) (both_parts s) n e)

abbrev ShortParts : Option (Text × Text) → Type 0
ShortParts none = Unit
ShortParts (some ab) = (length ab.0 ≤ 5) × (length ab.1 ≤ 5)

-- No part of a token before or after its dash is longer than five bytes.
abbrev pub ShortTimes : List Text → Type 0
unfolding at_dash
ShortTimes [] = Unit
ShortTimes (token ∷ tokens) = ShortParts (at_dash token) × ShortTimes tokens

abbrev Sessions : Type 0
Sessions = List (ℤ × ℤ)

-- What the risk manager makes of the two times of a token, and of the tokens behind it.
abbrev joined_times : Parsed ℤ → Parsed ℤ → Sessions × Bool → Sessions × Bool
joined_times a b rest = elim a [
  | throws ↦ ([], true)
  | value start ↦ elim b [
    | throws ↦ ([], true)
    | value end ↦
        if leb_ℤ (pos 0) start && leb_ℤ (pos 0) end then ((start, end) ∷ rest.0, rest.1) else rest
  ]
]

joined_agree :
    (a b : Parsed ℤ) (x y : ℤ) (rest : Sessions × Bool) (mine : Sessions)
    → ((n : ℤ) → a ≡ value n → x ≡ n)
    → ((n : ℤ) → b ≡ value n → y ≡ n)
    → (rest.1 ≡ false → mine ≡ rest.0)
    → (joined_times a b rest).1 ≡ false
    → (if leb_ℤ (pos 0) x && leb_ℤ (pos 0) y then (x, y) ∷ mine else mine)
      ≡ (joined_times a b rest).0
joined_agree throws b x y rest mine hx hy hm e = absurd (cc)
joined_agree (value start) throws x y rest mine hx hy hm e = absurd (cc)
joined_agree (value start) (value end) x y rest mine hx hy hm e =
    rw (hx start refl, hy end refl)
      (elim (Bool-cases (leb_ℤ (pos 0) start && leb_ℤ (pos 0) end)) [
        | inl both ↦ rw both (ap (λ r. (start, end) ∷ r) (hm (rw both at e)))
        | inr not_both ↦ rw not_both (hm (rw not_both at e))
      ])

tokens_agree :
    (tokens : List Text)
    → ShortTimes tokens
    → (read_sessions tokens).1 ≡ false
    → parse_tokens tokens ≡ (read_sessions tokens).0
unfolding parse_tokens read_sessions
tokens_agree [] short e = refl
tokens_agree (token ∷ tokens) short e = elim (Option-cases (at_dash token)) [
  | inl none_at ↦
      rw (none_at, parse_tokens, read_sessions)
        (tokens_agree tokens short.1 (rw (none_at, read_sessions) at e))
  | inr (ab, at) ↦
      let parts : ShortParts (some ab) = subst ShortParts at short.0 in
      rw (at, parse_tokens, read_sessions)
        (joined_agree (parse_hhmm ab.0) (parse_hhmm ab.1) (parse_minutes ab.0) (parse_minutes ab.1)
          (read_sessions tokens) (parse_tokens tokens) (λ n. minutes_agree ab.0 n parts.0)
          (λ n. minutes_agree ab.1 n parts.1) (tokens_agree tokens short.1)
          (rw (at, read_sessions) at e))
]

windows_agree :
    (now : ℤ) (sessions : List (ℤ × ℤ)) → any_window now sessions ≡ any_session now sessions
unfolding any_window any_session within_session
windows_agree now [] = refl
windows_agree now ((start, end) ∷ rest) = rw (windows_agree now rest) refl

-- Where no time has more than five bytes and the risk manager's parser does not throw, the engine and
-- the risk manager read the same trading hours from a text, and say the same of every minute.
pub hours_agree :
    (text : Text) (now : ℤ) (s : SessionManager)
    → ShortTimes (split b',' text)
    → (read_sessions (split b',' text)).1 ≡ false
    → s.monitor_trading_sessions ≡ parse_trading_sessions text
    → (parse_trading_sessions text ≡ (read_sessions (split b',' text)).0)
      × (is_in_configured_trading_session now s
          ≡ in_trading_session now (read_sessions (split b',' text)).0)
unfolding parse_trading_sessions is_in_configured_trading_session in_trading_session
hours_agree text now s short e configured =
    let same = tokens_agree (split b',' text) short e in
    (same, rw (configured, same) (inside_agrees (read_sessions (split b',' text)).0))
  where
    inside_agrees :
        (ws : List (ℤ × ℤ))
        → elim ws [ [] ↦ true | w ∷ rest ↦ any_window now (w ∷ rest) ] ≡ in_trading_session now ws
    inside_agrees [] = refl
    inside_agrees (w ∷ rest) = windows_agree now (w ∷ rest)
