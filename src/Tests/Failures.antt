-- ===== src/Tests/Failures.antt =====
-- Requests to a site whose templates are loaded and whose database fails.
use simurga.Base.{◌≡◌, refl, none, some, List, map, [], ◌∷◌, Bytes, codes}
use simurga.Daemon.Statuses.{status_for, serve-status}
use simurga.Daemon.{serve, response, run_job, started, message}
use simurga.Database.{execute, connect}
use simurga.Dict.{lookup}
use simurga.Files.{System, Dirent, regular, read_all}
use simurga.Template.Signature.{check}
use simurga.Pages.Failures.{AreLoaded, page_file}
use simurga.Pages.Handlers.{get}
use simurga.Pages.Loaded.{AreOffered, load-AreLoaded}
use simurga.Pages.World.{World}
use simurga.Service.Handle.{handle}
use simurga.Service.Object.{http_object, set_path, create, go_on}
use simurga.Service.Routes.{standard_objects, allocate}
use simurga.Service.{Environment, get_method, collection, HttpObject}
use simurga.Template.Rendering.{cons_in, nil_in, variable_in}
use simurga.Template.Store
use simurga.Template.Store.{Templates, load, names_of}
use simurga.Template.Directory.{AreWritten}
use simurga.Template.Source.{
  source_all, IsName, AreWritable, variable_ok, branch_ok, nil_ok, cons_ok,
}
use simurga.Template.Parser.{done}
use simurga.Template.{Tokens, variable, branch, cons, nil}
use simurga.Tests.Requests.{world, request}
use simurga.Tests.Signatures.{
  static_page_template, check-static_page, lookbook_template, check-lookbook, collection_template,
  check-collection, model_price_template, check-model_price,
}
use simurga.Text.{equal, find, find_first_if, find_last_if}

abbrev same : Bytes → Bytes
same s = s

abbrev main_template : Tokens
main_template = cons (variable (codes "title")) (cons (variable (codes "body")) nil)

abbrev templates : Templates
templates =
    (codes "main", main_template)
    ∷ (codes "static_page", static_page_template)
    ∷ (codes "lookbook", lookbook_template)
    ∷ (codes "collection", collection_template)
    ∷ (codes "model", model_price_template)
    ∷ []

-- No file can be opened, and each statement fails.
abbrev broken_site : World
broken_site = record world { templates = templates }

broken_site-AreLoaded : AreLoaded broken_site
unfolding Store.get lookup equal
broken_site-AreLoaded = record {
  for_static_page = (static_page_template, refl, check-static_page);
  for_lookbook = (lookbook_template, refl, check-lookbook);
  for_collection = (collection_template, refl, check-collection);
  for_model = (model_price_template, refl, check-model_price);
  for_main = (main_template, refl, cons_in variable_in (cons_in variable_in nil_in));
}

abbrev collection_request : Environment
collection_request = record request { request_uri = codes "/collection" }

abbrev failed : HttpObject
failed = record (http_object collection collection_request) {
  path = codes "/collection";
  content_type = codes "text/plain";
  status = codes "500 Internal Server Error";
  output = codes "gone away";
}

serve-failed :
    (serve same standard_objects broken_site collection_request).1.http_object ≡ some failed
unfolding serve response started run_job handle allocate lookup standard_objects equal find_last_if
    find_first_if find set_path create get go_on execute connect
serve-failed = refl

serve-status_example :
    ((serve same standard_objects broken_site collection_request).1.out ≡ message get_method failed)
    × (failed.status
        ≡ status_for broken_site
            (serve same standard_objects broken_site collection_request).1.id
            failed.env.request_method
            failed.kind
            (page_file failed))
serve-status_example =
    serve-status same standard_objects broken_site broken_site-AreLoaded collection_request
      serve-failed

-- A disk on which each template shows the text of the page, if there is one.
abbrev body_template : Tokens
body_template = cons (branch (codes "body") (cons (variable (codes "body")) nil) nil) nil

body_template-AreWritable : AreWritable body_template
unfolding find
body_template-AreWritable =
    cons_ok (branch_ok body (cons_ok (variable_ok body (λ p. cc)) tt nil_ok) nil_ok) tt nil_ok
  where
    body : IsName (codes "body")
    body = record { trimmed = record { starts = refl; ends = refl }; closed = refl }

abbrev template_file : Bytes → Dirent
template_file name = record { d_name = name; d_type = regular }

abbrev template_files : List Dirent
template_files = map template_file (
    codes "main.tpl"
    ∷ codes "model.tpl"
    ∷ codes "collection.tpl"
    ∷ codes "lookbook.tpl"
    ∷ codes "static_page.tpl"
    ∷ [])

abbrev template_disk : System
template_disk = record {
  file = λ name. none;
  blocks = λ name. source_all body_template ∷ [];
  dir = λ name. some template_files;
}

abbrev disk_site : World
disk_site = record world { sys = template_disk }

template_disk-AreWritten :
    AreWritten template_disk (codes "t") (names_of template_files) (λ n. body_template)
unfolding read_all source_all
template_disk-AreWritten = record {
  writable = λ n h. body_template-AreWritable;
  content = λ n h. refl;
}

templates-AreOffered : AreOffered (names_of template_files) (λ n. body_template)
unfolding equal check lookup
templates-AreOffered = record {
  for_static_page = (refl, refl);
  for_lookbook = (refl, refl);
  for_collection = (refl, refl);
  for_model = (refl, refl);
  for_main = refl;
}

load-AreLoaded_example :
    (after : Templates) × (load template_disk (codes "t") [] ≡ done after)
    × AreLoaded (record disk_site { templates = after })
load-AreLoaded_example =
    load-AreLoaded disk_site (codes "t") (λ n. body_template) template_files [] refl
      template_disk-AreWritten templates-AreOffered
