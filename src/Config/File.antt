-- ===== src/Config/File.antt =====
-- src/common/config.cpp: the text of a file, and load and save. The file system is left out: a file that
-- cannot be opened is `none`, and what is written is the text.
use hft_framework.Common.{
  ℕ, ◌-◌, ◌==◌, Bool, true, false, ◌&&◌, ◌||◌, Option, none, some, List, [], ◌∷◌, ◌++◌,
  if◌then◌else◌, Text, codes, is_empty, length, take, drop,
}
use hft_framework.Common.Permuted.{sort_by}
use hft_framework.Common.Sorted.{Text-Less}
use hft_framework.Risk.Sessions.{split}
use hft_framework.Config.Ini.{Items, Config, trim, set_string}
use hft_framework.Config.Order.{section_before, key_before}

-- A byte order mark in front of a line is dropped.
unfoldable pub without_mark : Text → Text
unfolding trim
without_mark (a ∷ b ∷ c ∷ line) =
    if a == 0xEF && b == 0xBB && c == 0xBF then trim line else a ∷ b ∷ c ∷ line
without_mark line = line

abbrev pub front_is : ℕ → Text → Bool
front_is c [] = false
front_is c (x ∷ line) = x == c

unfoldable pub back_is : ℕ → Text → Bool
back_is c [] = false
back_is c (x ∷ []) = x == c
back_is c (x ∷ y ∷ line) = back_is c (y ∷ line)

-- The text before and after the first `=`.
unfoldable pub at_equals : Text → Option (Text × Text)
at_equals [] = none
at_equals (c ∷ cs) =
    let rest : Option (Text × Text) = elim (at_equals cs) [
      | none ↦ none
      | some ab ↦ some (c ∷ ab.0, ab.1)
    ] in
    if c == b'=' then some ([], cs) else rest

-- One round of the loop, on the section that is open and the data so far.
unfoldable pub load_line : Text → Text × Config → Text × Config
unfolding trim without_mark back_is at_equals set_string
load_line raw s =
    let line = without_mark (trim raw) in
    let entry : Text × Config = elim (at_equals line) [
      | none ↦ s
      | some ab ↦ (s.0, set_string s.0 (trim ab.0) (trim ab.1) s.1)
    ] in
    if is_empty line || front_is b'#' line || front_is b';' line
    then s
    else if front_is b'[' line && back_is b']' line
    then (trim (take (length line - 2) (drop 1 line)), s.1)
    else entry

unfoldable pub load_lines : List Text → Text × Config → Text × Config
unfolding load_line
load_lines [] s = s
load_lines (line ∷ lines) s = load_lines lines (load_line line s)

-- `data_` is cleared first.
unfoldable pub load : Option Text → Bool × Config
unfolding load_lines split
load none = (false, [])
load (some file) = (true, (load_lines (split b'\n' file) ([], [])).1)

unfoldable pub item_lines : Items → Text
item_lines [] = []
item_lines ((key, v) ∷ items) = key ++ (codes " = " ++ (v ++ (codes "\n" ++ item_lines items)))

unfoldable pub section_lines : Text → Items → Text
unfolding item_lines sort_by
section_lines section items =
    b'[' ∷ (section ++ (codes "]\n" ++ item_lines (sort_by (key_before section) items)))

-- The sections in their order, with an empty line between them.
unfoldable pub write_sections : Bool → Config → Text
unfolding section_lines
write_sections first [] = []
write_sections first ((section, items) ∷ config) =
    (if first then [] else codes "\n")
    ++ (section_lines section items ++ write_sections false config)

unfoldable pub save : Config → Text
unfolding write_sections sort_by
save config = write_sections true (sort_by section_before config)
