-- ===== src/Service/PageArguments.antt =====
-- Which argument of a page wins: `set_page` of src/httpservice.cpp with a configuration.
use simurga.Base.{
  ◌≡◌, refl, sym, ap, ◌∙◌, true, false, Option, none, some, List, [], ◌∷◌, ◌++◌, ◌==◌,
  if◌then◌else◌, Bytes, codes, arith, take, drop, ◌+◌, ℕ, Bool, Bool-cases, inl, inr,
}
use simurga.Dict.{Dict, lookup, insert, lookup-insert}
use simurga.Files.Config.{dir_config, read_lines, store_line, store_at, lines, config_of}
use simurga.Files.{System}
use simurga.Service.Object.{config_args}
use simurga.Template.Arguments.{
  IsUnique, get_variable, first_of_two, get_variable-add_argument, get_variable-add_arguments,
}
use simurga.Text.{equal, equal_iff, find, trim}

insert-IsUnique : (k v : Bytes) (m : Dict Bytes) → IsUnique m → IsUnique (insert k v m)
unfolding insert lookup
insert-IsUnique k v [] u = (refl, tt)
insert-IsUnique k v ((j, w) ∷ m) u = elim (Bool-cases (equal j k)) [
  | inl e ↦ rw e (ap (λ i. lookup i m) (sym ((equal_iff j k).0 e)) ∙ u.0, u.1)
  | inr e ↦ rw e (
    ground (arith, lookup-insert k j v m, equal_iff k j, equal_iff j k, u.0),
    insert-IsUnique k v m u.1,
  )
]

store_at-IsUnique :
    (s : Bytes) (pos : Option ℕ) (m : Dict Bytes) → IsUnique m → IsUnique (store_at s pos m)
store_at-IsUnique s none m u = u
store_at-IsUnique s (some pos) m u =
    insert-IsUnique (trim (take pos s)) (trim (drop (pos + 1) s)) m u

if-IsUnique :
    (b : Bool) (m n : Dict Bytes) → IsUnique m → IsUnique n → IsUnique (if b then m else n)
if-IsUnique true m n hm hn = hm
if-IsUnique false m n hm hn = hn

store_line-IsUnique : (s : Bytes) (m : Dict Bytes) → IsUnique m → IsUnique (store_line s m)
store_line-IsUnique [] m u = u
store_line-IsUnique (c ∷ s) m u =
    if-IsUnique (c == b'#') _ _ u (store_at-IsUnique (c ∷ s) (find (b'=' ∷ []) (c ∷ s)) m u)

read_lines-IsUnique : (ls : List Bytes) (m : Dict Bytes) → IsUnique m → IsUnique (read_lines ls m)
unfolding read_lines
read_lines-IsUnique [] m u = u
read_lines-IsUnique (l ∷ ls) m u =
    read_lines-IsUnique ls (store_line (trim l) m) (store_line-IsUnique (trim l) m u)

-- Each key of a configuration stands once, whatever the file holds.
dir_config-IsUnique : (sys : System) (name : Bytes) → IsUnique (dir_config sys name).entries
unfolding dir_config
dir_config-IsUnique sys name = by_file (sys.file name)
  where
    by_file : (f : Option Bytes) → IsUnique (config_of f).entries
    by_file none = tt
    by_file (some s) = read_lines-IsUnique (lines s) [] tt

get_variable-none : (j : Bytes) → get_variable [] none j ≡ []
unfolding get_variable lookup
get_variable-none j = refl

-- In a page with a configuration the name "body" is the handler's text, whatever the file of the
-- configuration says; every other name is what the file gives for it, and only a "base_uri" that the
-- file leaves out is the object's path with a slash behind it.
pub get_variable-config_args :
    (sys : System) (name body path j : Bytes)
    → get_variable (config_args (dir_config sys name).entries body path) none j ≡ (
        if equal (codes "body") j
        then body
        else first_of_two
            (lookup j (dir_config sys name).entries)
            (if equal (codes "base_uri") j then path ++ codes "/" else []))
get_variable-config_args sys name body path j =
    get_variable-add_argument _ (codes "body") body j
    ∙ ap (λ t. if equal (codes "body") j then body else t)
        (get_variable-add_arguments _ (dir_config sys name).entries j (dir_config-IsUnique sys name)
          ∙ ap (first_of_two (lookup j (dir_config sys name).entries)) (
              get_variable-add_argument [] (codes "base_uri") (path ++ codes "/") j
              ∙ ap (λ t. if equal (codes "base_uri") j then path ++ codes "/" else t)
                  (get_variable-none j)))
