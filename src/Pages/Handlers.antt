-- ===== src/Pages/Handlers.antt =====
-- The four `get` handlers, and `query` of src/db.hpp as they use it.
use simurga.Base.{
  ℕ, zero, suc, ◌+◌, true, Option, none, some, List, map, [], ◌∷◌, ◌++◌, Bytes, codes, not_found,
  Result, ok, raise,
}
use simurga.Database.{Tried, execute, connect}
use simurga.Dict.{insert}
use simurga.Files.Config.{DirConfig, dir_config}
use simurga.Files.Listing.{enum_files}
use simurga.Files.{read_all}
use simurga.Pages.Model.{parse_id, size_to_string, image_path, big, preview}
use simurga.Pages.World.{World, ModelParameters, ModelView, CollectionView}
use simurga.Service.Object.{M, ◌>>=◌, lift, throw, set_config_page, set_titled_page}
use simurga.Service.{Kind, static_page, lookbook, collection, model, object_not_found}
use simurga.Template.Arguments.{Item, ArgumentList, array_argument, add_argument}
use simurga.Template.Render.{yield}
use simurga.Template.Store
use simurga.Text.Decimal.{to_string, price}

abbrev pub special_entry : Option ℕ → Item → Item
special_entry none item = item
special_entry (some p) item = insert (codes "special_price") (price p) item

abbrev pub collection_item : CollectionView → Item
collection_item view = special_entry view.special_price (
    insert (codes "price") (price view.price) (
      insert (codes "title") view.title (
        insert (codes "color_name") view.color_name
          (insert (codes "model_id") (to_string view.model_id) []))))

-- What the handlers of a static page, of the lookbook and of the collection give to their templates.
abbrev pub static_page_args : Bytes → ArgumentList
static_page_args body = add_argument [] (codes "body") body

abbrev pub image_item : Bytes → Item
image_item image = insert (codes "image") image []

abbrev pub lookbook_args : List Bytes → ArgumentList
lookbook_args images = insert (codes "images") (array_argument (map image_item images)) []

abbrev pub collection_args : List CollectionView → ArgumentList
collection_args rows = insert (codes "collection") (array_argument (map collection_item rows)) []

module _ (w : World) where
  -- Database::execute on this world, with connect() after a failed round
  abbrev pub query : {R : Type 0} → (ℕ → Tried R) → M (List R)
  query attempt = lift (execute attempt (λ i. connect w.sys w.data_dir (w.client i)) []).0

  -- templates.get(name)->yield(args)
  abbrev pub render : Bytes → ArgumentList → M Bytes
  render name args = do t ← lift (Store.get w.templates name); lift (yield t args)

  abbrev pub config_at : Bytes → DirConfig
  config_at path = dir_config w.sys (path ++ codes "/.config")

  -- The stream on the page: `in.good()`, and then its blocks.
  abbrev pub page_body : Bytes → Option Bytes → M Bytes
  page_body file none = throw (not_found (codes "Index page not found"))
  page_body file (some content) = lift (ok (read_all (w.sys.blocks file)))

  -- StaticPageHttpObject::get
  unfoldable pub get_static_page : Bytes → M (Unit {0})
  get_static_page id o =
      let path = o.env.root ++ (b'/' ∷ o.name) in
      let file = path ++ codes "/page.html" in
      let run : M (Unit {0}) = do
        body ← page_body file (w.sys.file file)
        page ← render (codes "static_page") (static_page_args body)
        set_config_page w.templates (config_at path).entries page
      in run o

  -- LookbookHttpObject::get
  unfoldable pub get_lookbook : Bytes → M (Unit {0})
  get_lookbook id o =
      let path = o.env.root ++ codes "/lookbook" in
      let images = (enum_files w.sys path (codes ".jpg") [] true).1 in
      let run : M (Unit {0}) = do
        page ← render (codes "lookbook") (lookbook_args images)
        set_config_page w.templates (config_at path).entries page
      in run o

  abbrev pub collection_query : Bytes
  collection_query = codes "select * from `collection_view_ru`"

  -- CollectionHttpObject::get
  unfoldable pub get_collection : Bytes → M (Unit {0})
  get_collection id o =
      let path = o.env.root ++ codes "/collection" in
      let run : M (Unit {0}) = do
        rows ← query (w.collection_rows collection_query)
        page ← render (codes "collection") (collection_args rows)
        set_config_page w.templates (config_at path).entries page
      in run o

  abbrev pub model_query : Bytes
  model_query =
      codes "select * from `model_view_ru` where `model_id` = ? and `color_name` = ? limit 1"

  abbrev or_nothing : Option Bytes → Bytes
  or_nothing none = []
  or_nothing (some s) = s

  abbrev pub special_argument : Option ℕ → ArgumentList → ArgumentList
  special_argument none args = args
  special_argument (some p) args = add_argument args (codes "special_price") (price p)

  abbrev pub preview_item : ℕ → Item
  preview_item i =
      insert (codes "index") (to_string (i + 1)) (
        insert (codes "preview") (image_path preview i)
          (insert (codes "big") (image_path big i) []))

  -- The loop over the images, from number `i` on.
  unfoldable pub preview_items : ℕ → ℕ → List Item
  preview_items zero i = []
  preview_items (suc n) i = preview_item i ∷ preview_items n (i + 1)

  abbrev pub text_args : ModelView → ArgumentList
  text_args m =
      let a₁ = add_argument [] (codes "model_id") (to_string m.model_id) in
      let a₂ = add_argument a₁ (codes "color_name") m.color_name in
      let a₃ = add_argument a₂ (codes "color_desc") m.color_desc in
      let a₄ = add_argument a₃ (codes "model_title") m.model_title in
      let a₅ = add_argument a₄ (codes "sizes") (size_to_string m.sizes) in
      let a₆ = add_argument a₅ (codes "material_desc") (or_nothing m.material_desc) in
      let a₇ = add_argument a₆ (codes "price") (price m.price) in
      let a₈ = add_argument a₇ (codes "desc") m.desc in
      add_argument a₈ (codes "default_image") (image_path big 0)

  unfoldable pub model_args : ModelView → ArgumentList
  unfolding preview_items
  model_args m =
      insert (codes "previews") (array_argument (preview_items m.num_images 0))
        (special_argument m.special_price (text_args m))

  -- model_items.front(), if there is one
  abbrev pub front : List ModelView → Result ModelView
  front [] = raise object_not_found
  front (m ∷ ms) = ok m

  -- The rest of ModelHttpObject::get, behind the query
  abbrev pub show_rows : List ModelView → M (Unit {0})
  show_rows rows = do
    m ← lift (front rows)
    page ← render (codes "model") (model_args m)
    set_titled_page w.templates m.model_title page

  -- The rest of ModelHttpObject::get, behind parse_id
  abbrev pub show_model : ModelParameters → M (Unit {0})
  show_model params = do rows ← query (w.model_rows model_query params); show_rows rows

  -- ModelHttpObject::get
  unfoldable pub get_model : Bytes → M (Unit {0})
  get_model id = do p ← lift (parse_id id); show_model (record { model_id = p.0; color_name = p.1 })

  unfoldable pub get : Kind → Bytes → M (Unit {0})
  unfolding get_static_page get_lookbook get_collection get_model
  get static_page = get_static_page
  get lookbook = get_lookbook
  get collection = get_collection
  get model = get_model
