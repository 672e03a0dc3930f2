-- ===== src/Pages/Reads.antt =====
-- The files that the `get` handlers of src/staticpage.cpp, src/lookbook.cpp, src/collection.cpp and
-- src/model.cpp read.
use simurga.Base.{
  ℕ, ◌≡◌, refl, ap, ◌∙◌, true, Option, none, some, [], ◌∷◌, ◌++◌, map, Bytes, codes, ok,
}
use simurga.Database.{ConnectArgs, Attempt, Tried, connect_args, thrown, connect, execute}
use simurga.Dict.{insert}
use simurga.Files.Config.{config_of, dir_config}
use simurga.Files.Listing.{enum_in, enum_files, enum_items}
use simurga.Files.{System, read_all, regular}
use simurga.Pages.Handlers.{
  query, render, config_at, page_body, image_item, collection_item, collection_query, model_query,
  show_rows, model_args, get, get_static_page, get_lookbook, get_collection, get_model,
}
use simurga.Pages.Model.{parse_id}
use simurga.Pages.World.{World}
use simurga.Service.Object.{go_on, lift, ◌>>=◌, set_config_page}
use simurga.Service.{Kind, static_page, lookbook, collection, model, HttpObject}
use simurga.Template.Arguments.{array_argument, add_argument}

-- The names of the static pages.
pub data IsPageName : Bytes → Type 0 where
  phylosophy : IsPageName (codes "phylosophy")
  contacts : IsPageName (codes "contacts")
  howtobuy : IsPageName (codes "howtobuy")

-- Two systems that answer alike for the files of the site under `root`, and for the configuration of the
-- database under `data_dir`; for every other path they may differ.
pub record SameSite (root data_dir : Bytes) (s t : System) : Type 0 where
  pub page :
      (n : Bytes)
      → IsPageName n
      → s.file (root ++ (b'/' ∷ n) ++ codes "/page.html")
        ≡ t.file (root ++ (b'/' ∷ n) ++ codes "/page.html")
  pub page_blocks :
      (n : Bytes)
      → IsPageName n
      → s.blocks (root ++ (b'/' ∷ n) ++ codes "/page.html")
        ≡ t.blocks (root ++ (b'/' ∷ n) ++ codes "/page.html")
  pub page_config :
      (n : Bytes)
      → IsPageName n
      → s.file (root ++ (b'/' ∷ n) ++ codes "/.config")
        ≡ t.file (root ++ (b'/' ∷ n) ++ codes "/.config")
  pub images : s.dir (root ++ codes "/lookbook") ≡ t.dir (root ++ codes "/lookbook")
  pub lookbook_config :
      s.file (root ++ codes "/lookbook" ++ codes "/.config")
      ≡ t.file (root ++ codes "/lookbook" ++ codes "/.config")
  pub collection_config :
      s.file (root ++ codes "/collection" ++ codes "/.config")
      ≡ t.file (root ++ codes "/collection" ++ codes "/.config")
  pub database_config :
      s.file (data_dir ++ codes "/etc/db.conf") ≡ t.file (data_dir ++ codes "/etc/db.conf")

abbrev pub on : World → System → World
on w s = record w { sys = s }

module _ (w : World) (s t : System) where
  page_body-on :
      (file : Bytes) (content : Option Bytes) (o : HttpObject)
      → s.blocks file ≡ t.blocks file
      → page_body (on w s) file content o ≡ page_body (on w t) file content o
  page_body-on file none o e = refl
  page_body-on file (some content) o e = ap (λ bs. (ok (read_all bs), o)) e

  config_at-on :
      (path : Bytes)
      → s.file (path ++ codes "/.config") ≡ t.file (path ++ codes "/.config")
      → config_at (on w s) path ≡ config_at (on w t) path
  unfolding dir_config
  config_at-on path e = ap config_of e

  connect-on :
      (client : ConnectArgs → Attempt (Unit {0}))
      → s.file (w.data_dir ++ codes "/etc/db.conf") ≡ t.file (w.data_dir ++ codes "/etc/db.conf")
      → connect s w.data_dir client ≡ connect t w.data_dir client
  unfolding connect dir_config
  connect-on client e = ap (λ c. thrown (client (connect_args (config_of c)))) e

  query-on :
      {R : Type 0} (attempt : ℕ → Tried R)
      → s.file (w.data_dir ++ codes "/etc/db.conf") ≡ t.file (w.data_dir ++ codes "/etc/db.conf")
      → query (on w s) attempt ≡ query (on w t) attempt
  query-on attempt e = λ i. lift (execute attempt (λ n. connect-on (w.client n) e i) []).0

  get_static_page-on :
      (id : Bytes) (o : HttpObject)
      → SameSite o.env.root w.data_dir s t
      → IsPageName o.name
      → get_static_page (on w s) id o ≡ get_static_page (on w t) id o
  unfolding get_static_page
  get_static_page-on id o f n =
      let path = o.env.root ++ (b'/' ∷ o.name) in
      let file = path ++ codes "/page.html" in
      let body =
        ap (λ c. page_body (on w s) file c o) (f.page o.name n)
        ∙ page_body-on file (t.file file) o (f.page_blocks o.name n) in
      λ i. go_on (body i) (λ b.
        render w (codes "static_page") (add_argument [] (codes "body") b) >>= λ page.
        set_config_page w.templates (config_at-on path (f.page_config o.name n) i).entries page)

  get_lookbook-on :
      (id : Bytes) (o : HttpObject)
      → SameSite o.env.root w.data_dir s t
      → get_lookbook (on w s) id o ≡ get_lookbook (on w t) id o
  unfolding get_lookbook enum_files enum_items
  get_lookbook-on id o f =
      let path = o.env.root ++ codes "/lookbook" in
      let images = ap (λ es. (enum_in es (codes ".jpg") regular [] true).1) f.images in
      λ i.
        (render w (codes "lookbook")
              (insert (codes "images") (array_argument (map (image_item) (images i))) [])
            >>= λ page.
                set_config_page w.templates (config_at-on path f.lookbook_config i).entries page)
          o

  get_collection-on :
      (id : Bytes) (o : HttpObject)
      → SameSite o.env.root w.data_dir s t
      → get_collection (on w s) id o ≡ get_collection (on w t) id o
  unfolding get_collection
  get_collection-on id o f =
      let path = o.env.root ++ codes "/collection" in
      λ i.
        (query-on (w.collection_rows (collection_query w)) f.database_config i >>= λ rows.
        render w (codes "collection")
          (insert (codes "collection") (array_argument (map collection_item rows)) [])
        >>= λ page.
            set_config_page w.templates (config_at-on path f.collection_config i).entries page)
          o

  get_model-on :
      (id : Bytes) (o : HttpObject)
      → SameSite o.env.root w.data_dir s t
      → get_model (on w s) id o ≡ get_model (on w t) id o
  unfolding get_model model_args
  get_model-on id o f = λ i.
      (lift (parse_id id) >>= λ p.
      (query-on (w.model_rows (model_query w) (record { model_id = p.0; color_name = p.1 }))
          f.database_config i
        >>= show_rows w))
        o

  -- The handler of an object reads these files only.
  pub get-on :
      (k : Kind) (id : Bytes) (o : HttpObject)
      → SameSite o.env.root w.data_dir s t
      → (k ≡ static_page → IsPageName o.name)
      → get (on w s) k id o ≡ get (on w t) k id o
  unfolding get
  get-on static_page id o f n = get_static_page-on id o f (n refl)
  get-on lookbook id o f n = get_lookbook-on id o f
  get-on collection id o f n = get_collection-on id o f
  get-on model id o f n = get_model-on id o f
