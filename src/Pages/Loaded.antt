-- ===== src/Pages/Loaded.antt =====
-- The templates of the site, from the files of their directory: `TemplateList::load` of src/template.cpp
-- and what the handlers rely on afterwards.
use simurga.Base.{◌≡◌, refl, ◌∙◌, true, some, List, ◌++◌, Bytes, codes, ok, if◌then◌else◌}
use simurga.Files.{Dirent}
use simurga.Pages.Failures.{IsLoaded, AreLoaded}
use simurga.Pages.Signatures.{
  model_signature, collection_signature, lookbook_signature, static_page_signature,
}
use simurga.Pages.World.{World}
use simurga.Template.Directory.{AreWritten, load-written}
use simurga.Template.Loading.{has}
use simurga.Template.Parser.{done}
use simurga.Template.Rendering.{AreWritable-AreComplete}
use simurga.Template.Signature.{Signature, check}
use simurga.Template.Store.{Templates, suffix, load, names_of}
use simurga.Template.Store
use simurga.Template.{Tokens}

-- A name whose file is there and holds tokens that pass the check.
abbrev pub IsOffered : List Bytes → (Bytes → Tokens) → Bytes → Signature → Type 0
IsOffered files tokens name g = (has (name ++ suffix) files ≡ true) × (check g (tokens name) ≡ true)

-- The files of the site's templates.
pub record AreOffered (files : List Bytes) (tokens : Bytes → Tokens) : Type 0 where
  pub for_static_page : IsOffered files tokens (codes "static_page") static_page_signature
  pub for_lookbook : IsOffered files tokens (codes "lookbook") lookbook_signature
  pub for_collection : IsOffered files tokens (codes "collection") collection_signature
  pub for_model : IsOffered files tokens (codes "model") model_signature
  pub for_main : has (codes "main" ++ suffix) files ≡ true

module _ (w : World) (dir : Bytes) (tokens : Bytes → Tokens) where
  offered-IsLoaded :
      (files : List Bytes) (after before : Templates) (name : Bytes) (g : Signature)
      → ((n : Bytes)
          → Store.get after n
            ≡ (if has (n ++ suffix) files then ok (tokens n) else Store.get before n))
      → IsOffered files tokens name g
      → IsLoaded (record w { templates = after }) name g
  offered-IsLoaded files after before name g get (h, c) = (tokens name, get name ∙ rw h refl, c)

  -- If the directory of the templates has the files of the five templates of the site, each template file
  -- in it holds the text of tokens that a template can express, and the four of the handlers pass the
  -- check against what the handlers give, then loading ends with no exception and leaves the templates
  -- as the handlers want them, whatever was loaded before.
  pub load-AreLoaded :
      (es : List Dirent) (before : Templates)
      → w.sys.dir dir ≡ some es
      → AreWritten w.sys dir (names_of es) tokens
      → AreOffered (names_of es) tokens
      → (after : Templates) × (load w.sys dir before ≡ done after)
        × AreLoaded (record w { templates = after })
  load-AreLoaded es before d wr o =
      let (after, l, get) = load-written w.sys dir tokens es before d wr in
      (
        after,
        l,
        record {
          for_static_page = offered-IsLoaded (names_of es) after before _ _ get o.for_static_page;
          for_lookbook = offered-IsLoaded (names_of es) after before _ _ get o.for_lookbook;
          for_collection = offered-IsLoaded (names_of es) after before _ _ get o.for_collection;
          for_model = offered-IsLoaded (names_of es) after before _ _ get o.for_model;
          for_main = (
            tokens (codes "main"),
            get (codes "main") ∙ rw (o.for_main) refl,
            AreWritable-AreComplete (wr.writable (codes "main") o.for_main),
          );
        },
      )
