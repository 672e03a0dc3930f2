-- ===== src/Template/Directory.antt =====
-- A directory of templates that are written out, through `TemplateList::load` and `get` of
-- src/template.cpp.
use simurga.Base.{
  ◌≡◌, refl, sym, ◌∙◌, inl, inr, true, some, List, [], ◌∷◌, ◌++◌, Bytes, ok, if◌then◌else◌,
  Option-cases,
}
use simurga.Dict.{insert}
use simurga.Files.{System, Dirent, read_all}
use simurga.Template.Loading.{has, LoadedAs, load-LoadedAs, template_name_sound, or_true}
use simurga.Template.Parser.{done}
use simurga.Template.RoundTrip.{parse-source}
use simurga.Template.Source.{source_all, AreWritable}
use simurga.Template.Store.{
  page_template, Templates, suffix, template_name, path_of, load_files, load, get, names_of,
}
use simurga.Template.{Tokens}
use simurga.Text.{equal, equal_refl}

-- Each template file among these holds its tokens as text.
pub record AreWritten (sys : System) (dir : Bytes) (files : List Bytes) (tokens : Bytes → Tokens)
    : Type 0 where
  pub writable : (n : Bytes) → has (n ++ suffix) files ≡ true → AreWritable (tokens n)
  pub content :
      (n : Bytes)
      → has (n ++ suffix) files ≡ true
      → read_all (sys.blocks (path_of dir (n ++ suffix))) ≡ source_all (tokens n)

module _ (sys : System) (dir : Bytes) (tokens : Bytes → Tokens) where
  page_template-written :
      (files : List Bytes) (n : Bytes)
      → AreWritten sys dir files tokens
      → has (n ++ suffix) files ≡ true
      → page_template sys (path_of dir (n ++ suffix)) ≡ done (tokens n)
  unfolding page_template
  page_template-written files n w h = rw (w.content n h) (parse-source (w.writable n h))

  load_files-done :
      (files : List Bytes) (before : Templates)
      → AreWritten sys dir files tokens
      → (after : Templates) × (load_files sys dir files before ≡ done after)
  unfolding load_files
  load_files-done [] before w = (before, refl)
  load_files-done (file ∷ files) before w =
      let rest : AreWritten sys dir files tokens = record {
        writable = λ n h. w.writable n (or_true (equal file (n ++ suffix)) h);
        content = λ n h. w.content n (or_true (equal file (n ++ suffix)) h);
      } in
      elim (Option-cases (template_name file)) [
        | inl e ↦ rw (e, load_files) (load_files-done files before rest)
        | inr (name, e) ↦
            let file_is : file ≡ name ++ suffix = template_name_sound file name e in
            let listed : has (name ++ suffix) (file ∷ files) ≡ true =
              rw (← file_is) (rw equal_refl refl) in
            let parsed : page_template sys (path_of dir file) ≡ done (tokens name) =
              rw file_is (page_template-written (file ∷ files) name w listed) in
            let (after, l) = load_files-done files (insert name (tokens name) before) rest in
            (after, rw (e, load_files) (rw parsed l))
      ]

  get-LoadedAs :
      (files : List Bytes) (before after : Templates) (n : Bytes)
      → AreWritten sys dir files tokens
      → LoadedAs sys dir files before after n
      → get after n ≡ (if has (n ++ suffix) files then ok (tokens n) else get before n)
  unfolding get
  get-LoadedAs files before after n w (inl (h, (t, l, parsed))) =
      let same : done t ≡ done (tokens n) = sym parsed ∙ page_template-written files n w h in
      rw (get, l, h) (cc same)
  get-LoadedAs files before after n w (inr (h, l)) = rw (get, l, h) refl

  -- A directory whose template files each hold the text of tokens that a template can express is loaded
  -- with no exception. Afterwards `get` gives for the name of such a file just its tokens, and for any
  -- other name what it gave before.
  pub load-written :
      (es : List Dirent) (before : Templates)
      → sys.dir dir ≡ some es
      → AreWritten sys dir (names_of es) tokens
      → (after : Templates) × (load sys dir before ≡ done after)
        × ((n : Bytes)
            → get after n
              ≡ (if has (n ++ suffix) (names_of es) then ok (tokens n) else get before n))
  unfolding load
  load-written es before d w =
      let (after, e) = load_files-done (names_of es) before w in
      let loaded : load sys dir before ≡ done after = rw (d, load) e in
      (
        after,
        loaded,
        λ n.
            get-LoadedAs (names_of es) before after n w
              (load-LoadedAs sys dir before after n d loaded),
      )
