-- ===== src/Config/Order.antt =====
-- src/common/config.cpp: the order in which sections and keys are written.
use hft_framework.Common.{
  ℕ, ltb, ◌==◌, Bool, false, not, ◌&&◌, ◌||◌, List, [], ◌∷◌, if◌then◌else◌, Text, text_eq, codes,
  is_empty, Option, none, some,
}
use hft_framework.Common.Sorted.{text_lt}
use hft_framework.Config.Ini.{starts_with}

-- The text before the first dot, if there is a dot.
unfoldable before_dot : Text → Option Text
before_dot [] = none
before_dot (c ∷ cs) =
    let rest : Option Text = elim (before_dot cs) [ none ↦ none | some t ↦ some (c ∷ t) ] in
    if c == b'.' then some [] else rest

unfoldable pub is_account_gateway_section : Text → Bool
unfolding before_dot
is_account_gateway_section section = elim (before_dot section) [
  | none ↦ false
  | some prefix ↦ not (is_empty prefix) && not (text_eq prefix (codes "Strategy"))
]

-- `find(...) != npos`
unfoldable contains : Text → Text → Bool
unfolding starts_with
contains part [] = is_empty part
contains part (c ∷ cs) = starts_with (c ∷ cs) part || contains part cs

-- The number beside a text in the list, or 1000.
unfoldable pub rank_in : Text → List (Text × ℕ) → ℕ
rank_in t [] = 1000
rank_in t ((u, n) ∷ ranks) = if text_eq t u then n else rank_in t ranks

unfoldable pub section_rank : Text → ℕ
unfolding is_account_gateway_section starts_with rank_in
section_rank section =
    if text_eq section (codes "Accounts")
    then 0
    else if is_account_gateway_section section
    then 10
    else if text_eq section (codes "Strategies")
    then 20
    else if starts_with section (codes "Strategy.")
    then 30
    else rank_in section (
        (codes "Risk", 40)
        ∷ (codes "Trading", 50)
        ∷ (codes "Performance", 60)
        ∷ (codes "Log", 70)
        ∷ (codes "Web", 80)
        ∷ (codes "Runtime", 90)
        ∷ (codes "CTP", 100)
        ∷ (codes "MD", 110)
        ∷ [])

abbrev account_keys : List (Text × ℕ)
account_keys = (codes "List", 0) ∷ (codes "MarketDataAccount", 1) ∷ []

abbrev gateway_keys : List (Text × ℕ)
gateway_keys =
    (codes "BrokerID", 0)
    ∷ (codes "UserID", 1)
    ∷ (codes "Password", 2)
    ∷ (codes "AppID", 3)
    ∷ (codes "AuthCode", 4)
    ∷ (codes "TradeFront", 5)
    ∷ (codes "MarketFront", 6)
    ∷ []

abbrev list_keys : List (Text × ℕ)
list_keys = (codes "List", 0) ∷ []

abbrev strategy_keys : List (Text × ℕ)
strategy_keys =
    (codes "Type", 0)
    ∷ (codes "ScriptPath", 1)
    ∷ (codes "AccountID", 2)
    ∷ (codes "Instruments", 3)
    ∷ (codes "OrderSize", 4)
    ∷ (codes "MomentumTicks", 5)
    ∷ (codes "CooldownSeconds", 6)
    ∷ []

abbrev risk_keys : List (Text × ℕ)
risk_keys =
    (codes "MaxOrderSize", 0)
    ∷ (codes "MaxNetPosition", 1)
    ∷ (codes "MaxOrdersPerMinute", 2)
    ∷ (codes "MaxCancelRate", 3)
    ∷ (codes "MaxDailyLoss", 4)
    ∷ (codes "CancelRateWindowMinutes", 5)
    ∷ []

abbrev trading_keys : List (Text × ℕ)
trading_keys = (codes "TradingSessions", 0) ∷ []

abbrev performance_keys : List (Text × ℕ)
performance_keys =
    (codes "EngineCpuCore", 0)
    ∷ (codes "LoggerCpuCore", 1)
    ∷ (codes "ProductionHftMode", 2)
    ∷ (codes "MdBatchSize", 3)
    ∷ (codes "DisablePythonHotPath", 4)
    ∷ (codes "DisableTickRecordingHotPath", 5)
    ∷ (codes "DisableKlineHotPath", 6)
    ∷ []

abbrev log_keys : List (Text × ℕ)
log_keys =
    (codes "Level", 0)
    ∷ (codes "Directory", 1)
    ∷ (codes "FilePrefix", 2)
    ∷ (codes "QueueCapacity", 3)
    ∷ (codes "RecentBufferSize", 4)
    ∷ (codes "FlushIntervalMs", 5)
    ∷ (codes "RetentionDays", 6)
    ∷ []

abbrev web_keys : List (Text × ℕ)
web_keys =
    (codes "Host", 0)
    ∷ (codes "Port", 1)
    ∷ (codes "AuthToken", 2)
    ∷ (codes "AllowedOrigins", 3)
    ∷ (codes "AllowInsecureNoAuth", 4)
    ∷ (codes "AutoOpenBrowser", 5)
    ∷ []

abbrev runtime_keys : List (Text × ℕ)
runtime_keys = (codes "RunMode", 0) ∷ (codes "StateFile", 1) ∷ (codes "NoTickWarnSeconds", 2) ∷ []

-- Whether a section has the keys of a gateway, and those of a strategy.
abbrev is_gateway : Text → Bool
is_gateway section =
    is_account_gateway_section section
    || text_eq section (codes "CTP")
    || text_eq section (codes "MD")

abbrev is_strategy : Text → Bool
is_strategy section = starts_with section (codes "Strategy.") || text_eq section (codes "Strategy")

-- The ranks of the lists, and of one more class of keys where the list has none.
abbrev rank_or : Bool → ℕ → ℕ → ℕ
rank_or more rank listed = if listed == 1000 && more then rank else listed

unfoldable pub key_rank : Text → Text → ℕ
unfolding is_account_gateway_section contains starts_with rank_in
key_rank section key =
    if text_eq section (codes "Accounts")
    then rank_or (contains (codes ".Gateway") key) 10 (rank_in key account_keys)
    else if is_gateway section
    then rank_in key gateway_keys
    else if text_eq section (codes "Strategies")
    then rank_in key list_keys
    else if is_strategy section
    then rank_or (starts_with key (codes "Param.")) 20 (rank_in key strategy_keys)
    else if text_eq section (codes "Risk")
    then rank_in key risk_keys
    else if text_eq section (codes "Trading")
    then rank_in key trading_keys
    else if text_eq section (codes "Performance")
    then rank_in key performance_keys
    else if text_eq section (codes "Log")
    then rank_in key log_keys
    else if text_eq section (codes "Web")
    then rank_in key web_keys
    else if text_eq section (codes "Runtime")
    then rank_in key runtime_keys
    else 1000

-- By rank, then by the text.
abbrev pub ranked : ℕ → ℕ → Text → Text → Bool
ranked a b s t = ltb a b || (a == b && text_lt s t)

abbrev pub section_before : Text → Text → Bool
section_before s t = ranked (section_rank s) (section_rank t) s t

abbrev pub key_before : Text → Text → Text → Bool
key_before section s t = ranked (key_rank section s) (key_rank section t) s t
