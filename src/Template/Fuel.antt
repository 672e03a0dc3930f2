-- ===== src/Template/Fuel.antt =====
-- `TemplateList::load` of src/template.cpp always ends: no file uses up the fuel of the parser.
use simurga.Base.{◌≢◌, refl, Option, none, some, List, [], ◌∷◌, Bytes}
use simurga.Dict.{insert}
use simurga.Files.{System, Dirent}
use simurga.Template.Parser.{Outcome, done, failed, out_of_fuel, ◌>>=◌}
use simurga.Template.Progress.{parse-ne-out_of_fuel}
use simurga.Template.Store.{
  Templates, page_template, template_name, path_of, load_files, load, names_of,
}
use simurga.Template.{Tokens}

bind-ne-out_of_fuel :
    (o : Outcome Tokens) (f : Tokens → Outcome Templates)
    → o ≢ out_of_fuel
    → ((t : Tokens) → f t ≢ out_of_fuel)
    → (o >>= f) ≢ out_of_fuel
bind-ne-out_of_fuel (done t) f n rest = rest t
bind-ne-out_of_fuel (failed e) f n rest = λ h. cc
bind-ne-out_of_fuel out_of_fuel f n rest = λ h. n refl

-- A file of the loop, with the files behind it.
file-ne-out_of_fuel :
    (sys : System) (dir file : Bytes) (files : List Bytes) (ts : Templates)
    → ((ts' : Templates) → load_files sys dir files ts' ≢ out_of_fuel)
    → load_files sys dir (file ∷ files) ts ≢ out_of_fuel
unfolding load_files page_template
file-ne-out_of_fuel sys dir file files ts rest = by_name (template_name file)
  where
    by_name :
        (r : Option Bytes)
        → (elim r [
          | none ↦ load_files sys dir files ts
          | some name ↦ page_template sys (path_of dir file) >>= λ t.
              load_files sys dir files (insert name t ts)
        ])
          ≢ out_of_fuel
    by_name none = rest ts
    by_name (some name) =
        bind-ne-out_of_fuel _ _ (parse-ne-out_of_fuel _) (λ t. rest (insert name t ts))

load_files-ne-out_of_fuel :
    (sys : System) (dir : Bytes) (files : List Bytes) (ts : Templates)
    → load_files sys dir files ts ≢ out_of_fuel
unfolding load_files
load_files-ne-out_of_fuel sys dir [] ts = λ h. cc
load_files-ne-out_of_fuel sys dir (file ∷ files) ts =
    file-ne-out_of_fuel sys dir file files ts (load_files-ne-out_of_fuel sys dir files)

-- A load ends with the list of templates or with an exception.
pub load-ne-out_of_fuel :
    (sys : System) (dir : Bytes) (ts : Templates) → load sys dir ts ≢ out_of_fuel
unfolding load
load-ne-out_of_fuel sys dir ts = by_dir (sys.dir dir)
  where
    by_dir :
        (r : Option (List Dirent))
        → (elim r [ none ↦ done ts | some es ↦ load_files sys dir (names_of es) ts ]) ≢ out_of_fuel
    by_dir none = λ h. cc
    by_dir (some es) = load_files-ne-out_of_fuel sys dir (names_of es) ts
