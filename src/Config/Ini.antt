-- ===== src/Config/Ini.antt =====
-- src/common/config.cpp and config.h: the sections of a configuration, their keys and values. The
-- environment is the parameter `getenv`, and `std::stod` the parameter `stod`.
use hft_framework.Common.{
  ℕ, ◌-◌, ◌^◌, ◌==◌, ℤ, pos, negsuc, ltb_ℤ, leb_ℤ, Bool, true, false, not, ◌&&◌, ◌||◌, Option, none,
  some, List, [], ◌∷◌, if◌then◌else◌, Text, text_eq, codes, is_empty, length, take, drop,
}
use hft_framework.Common.Sorted
use hft_framework.Common.Sorted.{Text-Less, Less}
use hft_framework.Risk.Sessions.{Parsed, value, throws, stoi}

abbrev pub Items : Type 0
Items = List (Text × Text)

-- `data_`
abbrev pub Config : Type 0
Config = List (Text × Items)

abbrev pub items_of : Option Items → Items
items_of none = []
items_of (some items) = items

abbrev pub is_blank : ℕ → Bool
is_blank c = c == 32 || c == 9 || c == 13 || c == 10

unfoldable pub trim_left : Text → Text
trim_left [] = []
trim_left (c ∷ cs) = let rest = trim_left cs in if is_blank c then rest else c ∷ cs

unfoldable pub trim_right : Text → Text
trim_right [] = []
trim_right (c ∷ cs) =
    let rest = trim_right cs in if is_blank c && is_empty rest then [] else c ∷ rest

unfoldable pub trim : Text → Text
unfolding trim_left trim_right
trim s = trim_right (trim_left s)

unfoldable pub starts_with : Text → Text → Bool
unfolding text_eq
starts_with text prefix = text_eq (take (length prefix) text) prefix

unfoldable pub resolve_env_reference : (Text → Option Text) → Text → Text
unfolding starts_with trim
resolve_env_reference getenv v =
    let env_name = trim (drop 4 v) in
    let found : Text = elim (getenv env_name) [ none ↦ [] | some t ↦ t ] in
    if not (starts_with v (codes "env:")) then v else if is_empty env_name then [] else found

-- A value that refers to a variable which is not there gives the default.
unfoldable pub get_string : (Text → Option Text) → Text → Text → Text → Config → Text
unfolding resolve_env_reference Sorted.find
get_string getenv section key default_val config = elim (Sorted.find section config) [
  | none ↦ default_val
  | some items ↦ elim (Sorted.find key items) [
    | none ↦ default_val
    | some v ↦
        let resolved = resolve_env_reference getenv v in
        if is_empty resolved && not (is_empty v) && starts_with v (codes "env:")
        then default_val
        else resolved
  ]
]

-- `std::stoi` throws where the number is none of an `int`.
abbrev int_or : ℤ → Parsed ℤ → ℤ
int_or default_val throws = default_val
int_or default_val (value n) =
    if leb_ℤ (negsuc (2 ^ 31 - 1)) n && ltb_ℤ n (pos (2 ^ 31)) then n else default_val

unfoldable pub get_int : (Text → Option Text) → Text → Text → ℤ → Config → ℤ
unfolding get_string stoi
get_int getenv section key default_val config =
    let val = get_string getenv section key [] config in
    if is_empty val then default_val else int_or default_val (stoi val)

module _ {F : Type 0} (stod : Text → Parsed F) where
  abbrev double_or : F → Parsed F → F
  double_or default_val throws = default_val
  double_or default_val (value x) = x

  unfoldable pub get_double : (Text → Option Text) → Text → Text → F → Config → F
  unfolding get_string
  get_double getenv section key default_val config =
      let val = get_string getenv section key [] config in
      if is_empty val then default_val else double_or default_val (stod val)

abbrev is_some : {A : Type 0} → Option A → Bool
is_some none = false
is_some (some a) = true

unfoldable pub has_section : Text → Config → Bool
unfolding Sorted.find
has_section section config = is_some (Sorted.find section config)

unfoldable pub get_sections : Text → Config → List Text
unfolding starts_with
get_sections prefix [] = []
get_sections prefix ((name, items) ∷ config) =
    let rest = get_sections prefix config in
    if is_empty prefix || starts_with name prefix then name ∷ rest else rest

unfoldable pub get_items : Text → Config → Items
unfolding Sorted.find
get_items section config = items_of (Sorted.find section config)

-- `data_[section][key] = value`
unfoldable pub set_string : Text → Text → Text → Config → Config
unfolding Sorted.find Sorted.put
set_string section key v config =
    Sorted.put section (Sorted.put key v (items_of (Sorted.find section config))) config

-- `std::map::erase`
unfoldable pub remove : {V : Type 0} → Text → List (Text × V) → List (Text × V)
remove k [] = []
remove k ((j, v) ∷ m) = let rest = remove k m in if text_eq j k then rest else (j, v) ∷ rest

abbrev without_section : Text → Items → Config → Config
without_section section [] config = remove section config
without_section section (i ∷ items) config = Sorted.put section (i ∷ items) config

-- A section that loses its last key is erased.
unfoldable pub erase_key : Text → Text → Config → Config
unfolding Sorted.find Sorted.put remove
erase_key section key config = elim (Sorted.find section config) [
  | none ↦ config
  | some items ↦ without_section section (remove key items) config
]

unfoldable pub erase_section : Text → Config → Config
unfolding remove
erase_section section config = remove section config
