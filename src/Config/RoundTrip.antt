-- ===== src/Config/RoundTrip.antt =====
-- src/common/config.cpp: load reads back what save writes.
use hft_framework.Common.{
  ◌≡◌, refl, ap, sym, ◌∙◌, Bool, true, false, none, some, [], ◌∷◌, ◌++◌, if◌then◌else◌, Text, codes,
  arith, subst,
}
use mathlib.Core.List.{append_assoc, append-nil}
use hft_framework.Common.Sorted.{Text-Less, find, put, find-put, IsSorted, text_lt_irrefl}
use hft_framework.Common.Permuted.{
  sort_by, put_each, Distinct, Each, put-put, find-sort_by, sort_by-Distinct, sort_by-Each,
  put_each_same, IsSorted-Distinct,
}
use hft_framework.Risk.Sessions.{split_from}
use hft_framework.Config.Ini.{Items, Config, items_of, set_string}
use hft_framework.Config.Order.{section_before, key_before}
use hft_framework.Config.File.{
  load_line, load_lines, load, item_lines, section_lines, write_sections, save,
}
use hft_framework.Config.Lines.{
  Lacks, Lacks-append, IsKey, IsValue, load_line_entry, load_line_section,
}

abbrev run : Text → Text × Config → Text × Config
run text s = load_lines (split_from b'\n' [] text) s

split_line :
    (acc l rest : Text)
    → Lacks b'\n' l
    → split_from b'\n' acc (l ++ b'\n' ∷ rest) ≡ (acc ++ l) ∷ split_from b'\n' [] rest
unfolding split_from
split_line acc [] rest h = ap (λ t. t ∷ split_from b'\n' [] rest) (sym (append-nil acc))
split_line acc (x ∷ l) rest h = rw h.0 (
    split_line (acc ++ x ∷ []) l rest h.1
    ∙ ap (λ t. t ∷ split_from b'\n' [] rest) (append_assoc acc (x ∷ []) l))

run_line :
    (l rest : Text) (s : Text × Config)
    → Lacks b'\n' l
    → run (l ++ b'\n' ∷ rest) s ≡ run rest (load_line l s)
unfolding load_lines
run_line l rest s h = ap (λ ls. load_lines ls s) (split_line [] l rest h)

abbrev pub IsItem : Text → Text → Type 0
IsItem key v = IsKey key × IsValue v

abbrev set_all : Text → Items → Config → Config
set_all section [] config = config
set_all section ((key, v) ∷ items) config = set_all section items (set_string section key v config)

entry_then :
    (key v more rest : Text)
    → (key ++ (codes " = " ++ (v ++ (codes "\n" ++ more)))) ++ rest
      ≡ (key ++ (codes " = " ++ v)) ++ b'\n' ∷ (more ++ rest)
entry_then key v more rest = simp (append_assoc)

run_items :
    (items : Items) (rest section : Text) (config : Config)
    → Each IsItem items
    → run (item_lines items ++ rest) (section, config)
      ≡ run rest (section, set_all section items config)
unfolding item_lines
run_items [] rest section config e = refl
run_items ((key, v) ∷ items) rest section config e =
    ap (λ t. run t (section, config)) (entry_then key v (item_lines items) rest)
    ∙ run_line (key ++ (codes " = " ++ v)) (item_lines items ++ rest) (section, config) one_line
    ∙ ap (λ s. run (item_lines items ++ rest) s) (load_line_entry key v section config k i)
    ∙ run_items items rest section (set_string section key v config) e.1
  where
    k : IsKey key
    k = e.0.0

    i : IsValue v
    i = e.0.1

    one_line : Lacks b'\n' (key ++ (codes " = " ++ v))
    one_line =
        Lacks-append b'\n' key (codes " = " ++ v) k.one_line
          (Lacks-append b'\n' (codes " = ") v (refl, (refl, (refl, tt))) i.one_line)

set_string_again :
    (section key v : Text) (had : Items) (config : Config)
    → set_string section key v (put section had config) ≡ put section (put key v had) config
unfolding set_string
set_string_again section key v had config =
    rw (find-put section section had config, text_lt_irrefl section)
      (put-put section had (put key v had) config)

set_all_again :
    (section : Text) (items had : Items) (config : Config)
    → set_all section items (put section had config) ≡ put section (put_each items had) config
unfolding put_each
set_all_again section [] had config = refl
set_all_again section ((key, v) ∷ items) had config =
    ap (set_all section items) (set_string_again section key v had config)
    ∙ set_all_again section items (put key v had) config

abbrev pub IsFull : Items → Type 0
IsFull [] = ⊥
IsFull (item ∷ items) = Unit

set_all_fresh :
    (section : Text) (written items : Items) (config : Config)
    → put_each written [] ≡ items
    → IsFull items
    → find section config ≡ none
    → set_all section written config ≡ put section items config
unfolding put_each set_string
set_all_fresh section [] items config h full absent = absurd (subst IsFull (sym h) full)
set_all_fresh section ((key, v) ∷ written) items config h full absent =
    ap (λ had. set_all section written (put section (put key v (items_of had)) config)) absent
    ∙ set_all_again section written (put key v []) config
    ∙ ap (λ had. put section had config) h

-- A section that a file keeps.
pub record IsSection (section : Text) (items : Items) : Type 0 where
  pub name : IsValue section
  pub full : IsFull items
  pub sorted : IsSorted items
  pub kept : Each IsItem items

section_then :
    (section more rest : Text)
    → (b'[' ∷ (section ++ (codes "]\n" ++ more))) ++ rest
      ≡ (b'[' ∷ (section ++ b']' ∷ [])) ++ b'\n' ∷ (more ++ rest)
section_then section more rest = simp (append_assoc)

run_one_section :
    (section rest current : Text) (items : Items) (config : Config)
    → IsSection section items
    → find section config ≡ none
    → run (section_lines section items ++ rest) (current, config)
      ≡ run rest (section, put section items config)
unfolding section_lines
run_one_section section rest current items config i absent =
    ap (λ t. run t (current, config)) (section_then section (item_lines written) rest)
    ∙ run_line (b'[' ∷ (section ++ b']' ∷ [])) (item_lines written ++ rest) (current, config)
        one_line
    ∙ ap (run (item_lines written ++ rest)) (load_line_section section current config i.name)
    ∙ run_items written rest section config (sort_by-Each IsItem (key_before section) items i.kept)
    ∙ ap (λ c. run rest (section, c))
        (set_all_fresh section written items config same i.full absent)
  where
    written : Items
    written = sort_by (key_before section) items

    distinct : Distinct items
    distinct = IsSorted-Distinct items i.sorted

    same : put_each written [] ≡ items
    same =
        put_each_same written items (sort_by-Distinct (key_before section) items distinct) i.sorted
          (λ j. find-sort_by (key_before section) j items distinct)

    one_line : Lacks b'\n' (b'[' ∷ (section ++ b']' ∷ []))
    one_line = (refl, Lacks-append b'\n' section (b']' ∷ []) i.name.one_line (refl, tt))

-- None of the sections is there yet.
abbrev Fresh : Config → Config → Type 0
Fresh [] config = Unit
Fresh ((section, items) ∷ written) config = (find section config ≡ none) × Fresh written config

put-Fresh :
    (section : Text) (items : Items) (written config : Config)
    → find section written ≡ none
    → Fresh written config
    → Fresh written (put section items config)
unfolding find
put-Fresh section items [] config h f = tt
put-Fresh section items ((other, had) ∷ written) config h f =
    ground (arith, find-put section other items config, put-Fresh section items written config)

skip_line :
    (first : Bool) (text : Text) (s : Text × Config)
    → run ((if first then [] else codes "\n") ++ text) s ≡ run text s
unfolding load_line
skip_line true text s = refl
skip_line false text s = run_line [] text s tt

run_sections :
    (first : Bool) (written : Config) (current : Text) (config : Config)
    → Each IsSection written
    → Distinct written
    → Fresh written config
    → (run (write_sections first written) (current, config)).1 ≡ put_each written config
unfolding write_sections put_each load_lines split_from
run_sections first [] current config e d f = refl
run_sections first ((section, items) ∷ written) current config e d f =
    ap (λ s. s.1)
      (skip_line first (section_lines section items ++ write_sections false written)
          (current, config)
        ∙ run_one_section section (write_sections false written) current items config e.0 f.0)
    ∙ run_sections false written section (put section items config) e.1 d.1
        (put-Fresh section items written config d.0 f.1)

Fresh-empty : (written : Config) → Fresh written []
unfolding find
Fresh-empty [] = tt
Fresh-empty ((section, items) ∷ written) = (refl, Fresh-empty written)

-- A configuration whose sections ascend by name and none of which is empty, whose keys ascend, start with
-- no blank, `#`, `;`, `[` or byte 0xEF and have no blank at the end, no line end and no `=`, and whose
-- values and section names have no line end and no blank at either end, is what load reads from the text
-- that save writes.
pub load-save_config :
    (config : Config)
    → IsSorted config
    → Each IsSection config
    → load (some (save config)) ≡ (true, config)
unfolding load save
load-save_config config sorted e =
    ap (λ c. (true, c))
      (run_sections true written [] [] (sort_by-Each IsSection section_before config e) distinct
          (Fresh-empty written)
        ∙ put_each_same written config distinct sorted
            (λ j. find-sort_by section_before j config (IsSorted-Distinct config sorted)))
  where
    written : Config
    written = sort_by section_before config

    distinct : Distinct written
    distinct = sort_by-Distinct section_before config (IsSorted-Distinct config sorted)
