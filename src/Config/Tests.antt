-- ===== src/Config/Tests.antt =====
-- Configurations at fixed inputs.
use hft_framework.Common.{
  ℕ, pos, ◌≡◌, refl, Bool, true, Option, none, some, [], ◌∷◌, ◌==◌, Text, codes, not, ◌&&◌, arith,
  if◌then◌else◌, text_eq,
}
use hft_framework.Common.Sorted.{Text-Less, find, put, text_lt}
use hft_framework.Config.Ini.{
  trim_left, trim_right, Items, Config, get_string, get_int, set_string, erase_key,
}
use hft_framework.Config.Order.{section_rank, key_rank}
use hft_framework.Config.File.{load, save}
use hft_framework.Config.Lines.{Lacks, StartsKey, IsKey, IsValue}
use hft_framework.Config.RoundTrip.{IsSection, load-save_config}

abbrev log_items : Items
log_items = (codes "Level", codes "info") ∷ []

abbrev risk_items : Items
risk_items = (codes "MaxDailyLoss", codes "env:LOSS") ∷ (codes "MaxOrderSize", codes "5") ∷ []

abbrev two_sections : Config
two_sections = (codes "Log", log_items) ∷ (codes "Risk", risk_items) ∷ []

-- `Risk` is written before `Log`, and `MaxOrderSize` before `MaxDailyLoss`.
saved :
    save two_sections
    ≡ codes "[Risk]\nMaxOrderSize = 5\nMaxDailyLoss = env:LOSS\n\n[Log]\nLevel = info\n"
unfolding save section_rank key_rank
saved = refl

abbrev lacks : ℕ → Text → Bool
lacks c [] = true
lacks c (x ∷ xs) = not (x == c) && lacks c xs

lacks_lem : (c : ℕ) (xs : Text) → lacks c xs ≡ true → Lacks c xs
lacks_lem c [] h = tt
lacks_lem c (x ∷ xs) h = ground (arith, lacks_lem c xs)

IsValue_lem : (v : Text) → trim_left v ≡ v → trim_right v ≡ v → lacks b'\n' v ≡ true → IsValue v
IsValue_lem v l r h = record { left_trimmed = l; right_trimmed = r; one_line = lacks_lem b'\n' v h }

IsKey_lem :
    (key : Text)
    → StartsKey key
    → trim_right key ≡ key
    → lacks b'\n' key ≡ true
    → lacks b'=' key ≡ true
    → IsKey key
IsKey_lem key s r h e = record {
  starts = s;
  trimmed = r;
  one_line = lacks_lem b'\n' key h;
  no_equals = lacks_lem b'=' key e;
}

log_kept : IsSection (codes "Log") log_items
unfolding trim_left trim_right
log_kept = record {
  name = IsValue_lem (codes "Log") refl refl refl;
  full = tt;
  sorted = (tt, tt);
  kept = (
    (
      IsKey_lem (codes "Level") (refl, refl, refl, refl, refl) refl refl refl,
      IsValue_lem (codes "info") refl refl refl,
    ),
    tt,
  );
}

risk_kept : IsSection (codes "Risk") risk_items
unfolding text_lt trim_left trim_right
risk_kept = record {
  name = IsValue_lem (codes "Risk") refl refl refl;
  full = tt;
  sorted = ((refl, tt), (tt, tt));
  kept = (
    (
      IsKey_lem (codes "MaxDailyLoss") (refl, refl, refl, refl, refl) refl refl refl,
      IsValue_lem (codes "env:LOSS") refl refl refl,
    ),
    (
      (
        IsKey_lem (codes "MaxOrderSize") (refl, refl, refl, refl, refl) refl refl refl,
        IsValue_lem (codes "5") refl refl refl,
      ),
      tt,
    ),
  );
}

load-save_config_example : load (some (save two_sections)) ≡ (true, two_sections)
unfolding text_lt
load-save_config_example =
    load-save_config two_sections ((refl, tt), (tt, tt)) (log_kept, (risk_kept, tt))

-- Comments, blanks, a byte order mark and a line without `=` are passed over; the last entry of a key counts.
loaded :
    load (some (0xEF ∷ 0xBB ∷ 0xBF ∷ codes "# c\n [ Log ] \nLevel= a\nLevel = b=c\nlost\n"))
    ≡ (true, (codes "Log", (codes "Level", codes "b=c") ∷ []) ∷ [])
unfolding load set_string find put text_lt
loaded = refl

abbrev environment : Text → Option Text
environment name = if text_eq name (codes "LOSS") then some (codes "12") else none

from_environment :
    get_int environment (codes "Risk") (codes "MaxDailyLoss") (pos 3) two_sections ≡ pos 12
unfolding get_int find text_lt text_eq
from_environment = refl

without_variable :
    get_string (λ name. none) (codes "Risk") (codes "MaxDailyLoss") (codes "d") two_sections
    ≡ codes "d"
unfolding get_string find text_lt text_eq
without_variable = refl

-- A section whose last key goes, goes too.
erased : erase_key (codes "Log") (codes "Level") two_sections ≡ (codes "Risk", risk_items) ∷ []
unfolding erase_key find text_lt text_eq
erased = refl
