-- ===== src/Config/Lines.antt =====
-- src/common/config.cpp: what load makes of one line that save writes.
use hft_framework.Common.{
  ℕ, ◌-◌, ◌==◌, ◌≡◌, refl, ap, sym, ◌∙◌, false, some, [], ◌∷◌, ◌++◌, Text, codes, is_empty, length,
  length-append, take, arith,
}
use mathlib.Core.List.{append_assoc}
use hft_framework.Codec.RoundTrip.{take-length-append}
use hft_framework.Config.Ini.{Config, is_blank, trim, trim_left, trim_right, set_string}
use hft_framework.Config.File.{without_mark, back_is, at_equals, load_line}

-- The byte does not occur.
abbrev pub Lacks : ℕ → Text → Type 0
Lacks c [] = Unit
Lacks c (x ∷ xs) = ((x == c) ≡ false) × Lacks c xs

pub Lacks-append : (c : ℕ) (xs ys : Text) → Lacks c xs → Lacks c ys → Lacks c (xs ++ ys)
Lacks-append c [] ys h k = k
Lacks-append c (x ∷ xs) ys h k = (h.0, Lacks-append c xs ys h.1 k)

-- A value that a file keeps: one line, no blanks at its ends.
pub record IsValue (v : Text) : Type 0 where
  pub left_trimmed : trim_left v ≡ v
  pub right_trimmed : trim_right v ≡ v
  pub one_line : Lacks b'\n' v

-- The first byte of a key: no blank, and none that stands for a comment, a section or a byte order mark.
abbrev pub StartsKey : Text → Type 0
StartsKey [] = ⊥
StartsKey (c ∷ cs) =
    (is_blank c ≡ false)
    × ((c == b'#') ≡ false)
    × ((c == b';') ≡ false)
    × ((c == b'[') ≡ false)
    × ((c == 0xEF) ≡ false)

pub record IsKey (key : Text) : Type 0 where
  pub starts : StartsKey key
  pub trimmed : trim_right key ≡ key
  pub one_line : Lacks b'\n' key
  pub no_equals : Lacks b'=' key

is_empty-append : (xs t : Text) → is_empty t ≡ false → is_empty (xs ++ t) ≡ false
is_empty-append [] t h = h
is_empty-append (x ∷ xs) t h = refl

trim_right-append :
    (xs t : Text) → is_empty (trim_right t) ≡ false → trim_right (xs ++ t) ≡ xs ++ trim_right t
unfolding trim_right
trim_right-append [] t h = refl
trim_right-append (x ∷ xs) t h =
    ground (arith, trim_right-append xs t h, is_empty-append xs (trim_right t) h)

trim_right_blank : (xs : Text) → trim_right (xs ++ 32 ∷ []) ≡ trim_right xs
unfolding trim_right
trim_right_blank [] = refl
trim_right_blank (x ∷ xs) = rw (trim_right_blank xs) refl

without_mark_other :
    (c : ℕ) (line : Text) → (c == 0xEF) ≡ false → without_mark (c ∷ line) ≡ c ∷ line
unfolding without_mark
without_mark_other c [] h = refl
without_mark_other c (a ∷ []) h = refl
without_mark_other c (a ∷ b ∷ line) h = rw h refl

at_equals_first : (xs rest : Text) → Lacks b'=' xs → at_equals (xs ++ b'=' ∷ rest) ≡ some (xs, rest)
unfolding at_equals
at_equals_first [] rest h = refl
at_equals_first (x ∷ xs) rest h = rw (h.0, at_equals_first xs rest h.1) refl

back_is_last : (c : ℕ) (xs : Text) → back_is c (xs ++ c ∷ []) ≡ (c == c)
unfolding back_is
back_is_last c [] = refl
back_is_last c (x ∷ []) = refl
back_is_last c (x ∷ y ∷ xs) = back_is_last c (y ∷ xs)

-- What stands behind the `=` once the line is trimmed.
abbrev behind : Text → Text
behind [] = []
behind (c ∷ cs) = 32 ∷ c ∷ cs

right_of_key : (v : Text) → trim_right v ≡ v → trim_right (codes " = " ++ v) ≡ 32 ∷ b'=' ∷ behind v
unfolding trim_right
right_of_key [] h = refl
right_of_key (c ∷ cs) h = rw h refl

trim-behind : (v : Text) → IsValue v → trim (behind v) ≡ v
unfolding trim trim_left trim_right
trim-behind [] i = refl
trim-behind (c ∷ cs) i = rw (i.left_trimmed, i.right_trimmed) refl

trim_entry :
    (c : ℕ) (cs v : Text)
    → is_blank c ≡ false
    → trim_right v ≡ v
    → trim (c ∷ (cs ++ (codes " = " ++ v))) ≡ c ∷ (cs ++ 32 ∷ b'=' ∷ behind v)
unfolding trim trim_left
trim_entry c cs v h r = rw h (
    trim_right-append (c ∷ cs) (codes " = " ++ v) (ap is_empty (right_of_key v r))
    ∙ ap (λ t. (c ∷ cs) ++ t) (right_of_key v r))

entry_equals :
    (key v : Text)
    → Lacks b'=' key
    → at_equals (key ++ 32 ∷ b'=' ∷ behind v) ≡ some (key ++ 32 ∷ [], behind v)
entry_equals key v h =
    ap at_equals (sym (append_assoc key (32 ∷ []) (b'=' ∷ behind v)))
    ∙ at_equals_first (key ++ 32 ∷ []) (behind v) (Lacks-append b'=' key (32 ∷ []) h (refl, tt))

trim_key :
    (c : ℕ) (cs : Text)
    → is_blank c ≡ false
    → trim_right (c ∷ cs) ≡ c ∷ cs
    → trim (c ∷ (cs ++ 32 ∷ [])) ≡ c ∷ cs
unfolding trim trim_left
trim_key c cs h r = rw h (trim_right_blank (c ∷ cs) ∙ r)

pub load_line_entry :
    (key v section : Text) (config : Config)
    → IsKey key
    → IsValue v
    → load_line (key ++ (codes " = " ++ v)) (section, config)
      ≡ (section, set_string section key v config)
unfolding load_line
load_line_entry [] v section config k i = absurd k.starts
load_line_entry (c ∷ cs) v section config k i =
    rw
      (
        trim_entry c cs v k.starts.0 i.right_trimmed,
        without_mark_other c (cs ++ 32 ∷ b'=' ∷ behind v) k.starts.4,
        k.starts.1,
        k.starts.2,
        k.starts.3,
        entry_equals (c ∷ cs) v k.no_equals,
        trim_key c cs k.starts.0 k.trimmed,
        trim-behind v i,
      )
      refl

trim_bracket :
    (section : Text) → trim (b'[' ∷ (section ++ b']' ∷ [])) ≡ b'[' ∷ (section ++ b']' ∷ [])
unfolding trim trim_left
trim_bracket section = trim_right-append (b'[' ∷ section) (b']' ∷ []) refl

between_brackets :
    (section : Text)
    → take (length (b'[' ∷ (section ++ b']' ∷ [])) - 2) (section ++ b']' ∷ []) ≡ section
between_brackets section =
    ap (λ n. take n (section ++ b']' ∷ [])) (ground (arith, length-append section (b']' ∷ [])))
    ∙ take-length-append section (b']' ∷ [])

pub load_line_section :
    (section current : Text) (config : Config)
    → IsValue section
    → load_line (b'[' ∷ (section ++ b']' ∷ [])) (current, config) ≡ (section, config)
unfolding load_line
load_line_section section current config i =
    rw
      (
        trim_bracket section,
        without_mark_other b'[' (section ++ b']' ∷ []) refl,
        back_is_last b']' (b'[' ∷ section),
        between_brackets section,
        i.left_trimmed,
        i.right_trimmed,
      )
      refl
