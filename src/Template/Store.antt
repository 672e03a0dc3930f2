-- ===== src/Template/Store.antt =====
-- The constructor of `PageTemplate` and `TemplateList` of src/template.cpp.
use simurga.Base.{
  ℕ, ◌-◌, ◌||◌, not, Bool, false, Option, none, some, List, map, [], ◌∷◌, ◌++◌, ◌==◌, ltb,
  if◌then◌else◌, Bytes, codes, length, Exception, std_exception, Result, ok, raise,
}
use simurga.Dict.{Dict, lookup, insert}
use simurga.Files.{System, Dirent, read_all}
use simurga.Template.Parser.{Outcome, done, ◌>>=◌, parse}
use simurga.Template.{Tokens}
use simurga.Text.{rfind, substr}

-- The class PageTemplate: its only member is body_.
abbrev pub PageTemplate : Type 0
PageTemplate = Tokens

-- PageTemplate::PageTemplate
unfoldable pub page_template : System → Bytes → Outcome PageTemplate
page_template sys file_name = parse (read_all (sys.blocks file_name))

-- The class TemplateList: its only member is templates_.
abbrev pub Templates : Type 0
Templates = Dict PageTemplate

abbrev pub suffix : Bytes
suffix = codes ".tpl"

abbrev pub is_at : Option ℕ → ℕ → Bool
is_at none n = false
is_at (some i) n = i == n

-- The name of the template that a file holds, if the loop does not pass the file over.
unfoldable pub template_name : Bytes → Option Bytes
unfolding rfind
template_name file =
    if ltb (length file) 4 || not (is_at (rfind suffix file) (length file - 4))
    then none
    else some (substr file 0 (length file - 4))

abbrev pub path_of : Bytes → Bytes → Bytes
path_of dir file = dir ++ b'/' ∷ file

-- The second loop of `load`; an exception leaves it.
unfoldable pub load_files : System → Bytes → List Bytes → Templates → Outcome Templates
load_files sys dir [] ts = done ts
load_files sys dir (file ∷ files) ts = elim (template_name file) [
  | none ↦ load_files sys dir files ts
  | some name ↦
      page_template sys (path_of dir file) >>= λ t. load_files sys dir files (insert name t ts)
]

abbrev pub names_of : List Dirent → List Bytes
names_of es = map (λ e. e.d_name) es

unfoldable pub load : System → Bytes → Templates → Outcome Templates
unfolding load_files
load sys dir ts = elim (sys.dir dir) [
  | none ↦ done ts
  | some es ↦ load_files sys dir (names_of es) ts
]

abbrev pub missing : Bytes → Exception
missing name = std_exception (codes "Template " ++ (name ++ codes " not found"))

-- TemplateList::get
unfoldable pub get : Templates → Bytes → Result PageTemplate
get ts name = elim (lookup name ts) [ none ↦ raise (missing name) | some t ↦ ok t ]
