-- ===== src/Pages/Failures.antt =====
-- How the `get` handlers of src/staticpage.cpp, src/lookbook.cpp, src/collection.cpp and src/model.cpp
-- fail when the templates fit what they are given.
use simurga.Base.{
  ap, ℕ, ◌≡◌, refl, Option, none, some, List, [], ◌∷◌, ◌++◌, Bytes, codes, true, Result, ok, raise,
  Exception, not_found, ◌↔◌,
}
use simurga.Database.{execute, connect}
use simurga.Dict.{Dict}
use simurga.Files.{read_all}
use simurga.Pages.Handlers.{
  render, config_at, page_body, collection_query, model_query, static_page_args, get,
  get_static_page, get_lookbook, get_collection, get_model, show_rows, show_model,
}
use simurga.Pages.Model.{parse_id}
use simurga.Pages.Signatures.{
  model_signature, collection_signature, lookbook_signature, static_page_signature, PageArgs,
  of_model, of_collection, of_lookbook, of_static_page, page-render,
}
use simurga.Pages.World.{World, ModelParameters, ModelView, CollectionView}
use simurga.Service.Object.{
  M, config_args, titled_args, go_on, lift, ◌>>=◌, set_main, set_data, set_config_page,
  set_titled_page,
}
use simurga.Service.{Kind, static_page, lookbook, collection, model, HttpObject, object_not_found}
use simurga.Template.Arguments.{ArgumentList}
use simurga.Template.Rendering.{AreComplete, yield-AreComplete}
use simurga.Template.Signature.{Signature, check}
use simurga.Template.Store
use simurga.Template.{Tokens}

-- A template that is loaded and passes the check against the signature of what it is given.
abbrev pub IsLoaded : World → Bytes → Signature → Type 0
IsLoaded w name g = (ts : Tokens) × (Store.get w.templates name ≡ ok ts) × (check g ts ≡ true)

-- The five templates of the site are loaded. That of the whole page shows names that a directory's
-- configuration may leave out; its tags stand where they belong.
pub record AreLoaded (w : World) : Type 0 where
  pub for_static_page : IsLoaded w (codes "static_page") static_page_signature
  pub for_lookbook : IsLoaded w (codes "lookbook") lookbook_signature
  pub for_collection : IsLoaded w (codes "collection") collection_signature
  pub for_model : IsLoaded w (codes "model") model_signature
  pub for_main : (ts : Tokens) × (Store.get w.templates (codes "main") ≡ ok ts) × AreComplete ts

abbrev pub page_file : HttpObject → Bytes
page_file o = (o.env.root ++ (b'/' ∷ o.name)) ++ codes "/page.html"

-- What `execute` ends with for the two statements.
abbrev pub collection_result : World → Result (List CollectionView)
collection_result w =
    (execute (w.collection_rows (collection_query w)) (λ i. connect w.sys w.data_dir (w.client i))
      []).0

abbrev pub model_result : World → ModelParameters → Result (List ModelView)
model_result w p =
    (execute (w.model_rows (model_query w) p) (λ i. connect w.sys w.data_dir (w.client i)) []).0

abbrev pub parameters : ℕ × Bytes → ModelParameters
parameters p = record { model_id = p.0; color_name = p.1 }

-- The failures of the page of a model.
pub data ModelFails (w : World) (id : Bytes) : Exception → Type 0 where
  bad_id : {e : Exception} → parse_id id ≡ raise e → ModelFails w id e
  no_rows :
      {p : ℕ × Bytes} {e : Exception}
      → parse_id id ≡ ok p
      → model_result w (parameters p) ≡ raise e
      → ModelFails w id e
  no_model :
      {p : ℕ × Bytes}
      → parse_id id ≡ ok p
      → model_result w (parameters p) ≡ ok []
      → ModelFails w id object_not_found

abbrev pub Fails : World → Kind → Bytes → HttpObject → Exception → Type 0
Fails w static_page id o e =
    (w.sys.file (page_file o) ≡ none) × (e ≡ not_found (codes "Index page not found"))
Fails w lookbook id o e = ⊥
Fails w collection id o e = collection_result w ≡ raise e
Fails w model id o e = ModelFails w id e

ends : {r : Result (Unit {0})} {e : Exception} → r ≡ ok tt → r ≡ raise e → ⊥
ends h k = cc

pub raised : {e f : Exception} → ◌≡◌ {A = Result (Unit {0})} (raise e) (raise f) → e ≡ f
raised h = cc

module _ (w : World) (loaded : AreLoaded w) where
  set_main-ok :
      (args : ArgumentList) (o : HttpObject)
      → (d : Bytes) × (set_main w.templates args o ≡ (ok tt, set_data d o))
  unfolding go_on set_data
  set_main-ok args o =
      let (ts, e, h) = loaded.for_main in
      let (d, y) = yield-AreComplete ts args h in (d, rw (e, y) refl)

  config_page-ok :
      (config : Dict Bytes) (page : Bytes) (o : HttpObject)
      → (set_config_page w.templates config page o).0 ≡ ok tt
  unfolding set_config_page
  config_page-ok config page o = ap (λ r. r.0) (set_main-ok (config_args config page o.path) o).1

  titled_page-ok :
      (title page : Bytes) (o : HttpObject) → (set_titled_page w.templates title page o).0 ≡ ok tt
  unfolding set_titled_page
  titled_page-ok title page o = ap (λ r. r.0) (set_main-ok (titled_args title page o.path) o).1

  -- A handler whose template is loaded gets to the end, once it has what it gives to the template.
  rendered-ok :
      {name : Bytes} {g : Signature} {args : ArgumentList}
      → PageArgs w name g args
      → IsLoaded w name g
      → (rest : Bytes → M (Unit {0})) → ((page : Bytes) (o : HttpObject) → (rest page o).0 ≡ ok tt)
      → (o : HttpObject) → ((render w name args >>= rest) o).0 ≡ ok tt
  unfolding go_on
  rendered-ok p (ts, e, h) rest done o = let (d, s, r) = page-render p e h o in rw r (done d o)

  lookbook-ok : (id : Bytes) (o : HttpObject) → (get_lookbook w id o).0 ≡ ok tt
  unfolding get_lookbook
  lookbook-ok id o = rendered-ok (of_lookbook _) loaded.for_lookbook _ (config_page-ok _) o

  -- What is behind a step that always gets to the end does not change how the step fails.
  lift-raise_iff :
      {A : Type 0} {e : Exception} (r : Result A) (rest : A → M (Unit {0})) (o : HttpObject)
      → ((a : A) → (rest a o).0 ≡ ok tt)
      → (((lift r >>= rest) o).0 ≡ raise e) ↔ (r ≡ raise e)
  unfolding go_on
  lift-raise_iff (ok a) rest o h = (λ q. (let g = h a in cc), λ q. cc)
  lift-raise_iff (raise e) rest o h = (λ q. cc, λ q. cc)

  get_static_page-raise_iff :
      (id : Bytes) (o : HttpObject) (e : Exception)
      → ((get_static_page w id o).0 ≡ raise e) ↔ Fails w static_page id o e
  unfolding get_static_page go_on
  get_static_page-raise_iff id o e = by_file (w.sys.file (page_file o))
    where
      shown : Bytes → M (Unit {0})
      shown body =
          render w (codes "static_page") (static_page_args body)
          >>= set_config_page w.templates (config_at w (o.env.root ++ (b'/' ∷ o.name))).entries

      shown-ok : (body : Bytes) → (shown body o).0 ≡ ok tt
      shown-ok body =
          rendered-ok (of_static_page body) loaded.for_static_page
            (set_config_page w.templates (config_at w (o.env.root ++ (b'/' ∷ o.name))).entries)
            (config_page-ok _) o

      by_file :
          (c : Option Bytes)
          → (((page_body w (page_file o) c >>= shown) o).0 ≡ raise e)
            ↔ ((c ≡ none) × (e ≡ not_found (codes "Index page not found")))
      by_file none = (λ q. (refl, cc), λ q. cc)
      by_file (some c) =
          (λ q. absurd (ends (shown-ok (read_all (w.sys.blocks (page_file o)))) q), λ q. cc)

  get_collection-raise_iff :
      (id : Bytes) (o : HttpObject) (e : Exception)
      → ((get_collection w id o).0 ≡ raise e) ↔ Fails w collection id o e
  unfolding get_collection
  get_collection-raise_iff id o e =
      lift-raise_iff (collection_result w) _ o
        (λ rows. rendered-ok (of_collection rows) loaded.for_collection _ (config_page-ok _) o)

  show_rows-raise :
      (id : Bytes) (p : ℕ × Bytes) (rows : List ModelView) (o : HttpObject) (e : Exception)
      → parse_id id ≡ ok p
      → model_result w (parameters p) ≡ ok rows
      → (show_rows w rows o).0 ≡ raise e
      → ModelFails w id e
  unfolding go_on
  show_rows-raise id p [] o e a b h = rw (← raised h) (no_model a b)
  show_rows-raise id p (m ∷ ms) o e a b h = absurd (
      ends
        (rendered-ok (of_model m) loaded.for_model (set_titled_page w.templates m.model_title)
          (titled_page-ok m.model_title) o)
        h)

  ModelFails-raise :
      (id : Bytes) (o : HttpObject) {e : Exception}
      → ModelFails w id e
      → (get_model w id o).0 ≡ raise e
  unfolding get_model go_on
  ModelFails-raise id o (bad_id a) = rw a refl
  ModelFails-raise id o (no_rows a b) = rw (a, b) refl
  ModelFails-raise id o (no_model a b) = rw (a, b) refl

  get_model-raise_iff :
      (id : Bytes) (o : HttpObject) (e : Exception)
      → ((get_model w id o).0 ≡ raise e) ↔ Fails w model id o e
  unfolding get_model go_on
  get_model-raise_iff id o e = (by_id (parse_id id) refl, ModelFails-raise id o)
    where
      by_rows :
          (p : ℕ × Bytes)
          → parse_id id ≡ ok p
          → (r : Result (List ModelView)) → model_result w (parameters p) ≡ r
          → ((lift r >>= show_rows w) o).0 ≡ raise e
          → ModelFails w id e
      by_rows p a (ok rows) b h = show_rows-raise id p rows o e a b h
      by_rows p a (raise f) b h = no_rows a (rw (← raised h) b)

      by_id :
          (r : Result (ℕ × Bytes))
          → parse_id id ≡ r
          → ((lift r >>= λ p. show_model w (parameters p)) o).0 ≡ raise e
          → ModelFails w id e
      by_id (ok p) a h = by_rows p a (model_result w (parameters p)) refl h
      by_id (raise f) a h = bad_id (rw (← raised h) a)

  -- If the templates of the site are loaded and pass the check, a handler fails in these ways and in no
  -- other: a static page, if its file cannot be opened; the collection, if the statement fails; a model,
  -- if its id is refused, if the statement fails, or if it gives no row. The lookbook never fails.
  pub get-raise_iff :
      (k : Kind) (id : Bytes) (o : HttpObject) (e : Exception)
      → ((get w k id o).0 ≡ raise e) ↔ Fails w k id o e
  unfolding get
  get-raise_iff static_page id o e = get_static_page-raise_iff id o e
  get-raise_iff lookbook id o e = (ends (lookbook-ok id o), absurd)
  get-raise_iff collection id o e = get_collection-raise_iff id o e
  get-raise_iff model id o e = get_model-raise_iff id o e
