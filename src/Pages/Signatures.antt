-- ===== src/Pages/Signatures.antt =====
-- What the `get` handlers of src/staticpage.cpp, src/lookbook.cpp, src/collection.cpp and src/model.cpp
-- give to their templates.
use mathlib.Core.Path.{subst}
use simurga.Base.{
  ℕ, zero, suc, ◌+◌, ◌≡◌, refl, sym, ap, ◌∙◌, Bool, true, false, Option, none, some, List, [], ◌∷◌,
  map, Bytes, codes, All, ok, if◌then◌else◌,
}
use simurga.Dict.{lookup, insert}
use simurga.Pages.Handlers.{
  preview_items, model_args, collection_item, collection_args, image_item, lookbook_args,
  static_page_args, render,
}
use simurga.Pages.World.{World, ModelView, CollectionView}
use simurga.Service.Object.{go_on}
use simurga.Service.{HttpObject}
use simurga.Template.Arguments.{Item, array_argument, ArgumentList, add_argument}
use simurga.Template.Signature.Sound.{check-yield}
use simurga.Template.Signature.{Signature, check, strict_tokens, HasFields, Fits}
use simurga.Template.Store
use simurga.Template.{Tokens}
use simurga.Text.{equal, equal_iff}

abbrev pub model_signature : Signature
model_signature = record {
  texts =
      codes "model_id"
      ∷ codes "color_name"
      ∷ codes "color_desc"
      ∷ codes "model_title"
      ∷ codes "sizes"
      ∷ codes "material_desc"
      ∷ codes "price"
      ∷ codes "desc"
      ∷ codes "default_image"
      ∷ [];
  arrays = (codes "previews", codes "big" ∷ codes "preview" ∷ codes "index" ∷ []) ∷ [];
}

abbrev pub collection_signature : Signature
collection_signature = record {
  texts = [];
  arrays =
      (
        codes "collection",
        codes "model_id" ∷ codes "color_name" ∷ codes "title" ∷ codes "price" ∷ [],
      )
      ∷ [];
}

abbrev pub lookbook_signature : Signature
lookbook_signature = record { texts = []; arrays = (codes "images", codes "image" ∷ []) ∷ [] }

abbrev pub static_page_signature : Signature
static_page_signature = record { texts = codes "body" ∷ []; arrays = [] }

-- The templates that the handlers render, with the arguments that they give.
pub data PageArgs (w : World) : Bytes → Signature → ArgumentList → Type 0 where
  of_model : (m : ModelView) → PageArgs w (codes "model") model_signature (model_args w m)
  of_collection :
      (rows : List CollectionView)
      → PageArgs w (codes "collection") collection_signature (collection_args rows)
  of_lookbook :
      (images : List Bytes)
      → PageArgs w (codes "lookbook") lookbook_signature (lookbook_args images)
  of_static_page :
      (body : Bytes)
      → PageArgs w (codes "static_page") static_page_signature (static_page_args body)

-- A signature with one array.
one_array :
    (k : Bytes) (fields : List Bytes) (args : ArgumentList) (xs : List Item)
    → lookup k args ≡ some (array_argument xs)
    → All (HasFields fields) xs
    → (n : Bytes) (fs : List Bytes) → lookup n ((k, fields) ∷ []) ≡ some fs
    → (ys : List Item) × (lookup n args ≡ some (array_argument ys)) × All (HasFields fs) ys
unfolding lookup
one_array k fields args xs e h n fs l = by_name (equal k n) refl l
  where
    by_name :
        (b : Bool)
        → equal k n ≡ b
        → (if b then some fields else none) ≡ some fs
        → (ys : List Item) × (lookup n args ≡ some (array_argument ys)) × All (HasFields fs) ys
    by_name true q l =
        let same : fields ≡ fs = cc in
        (
          xs,
          ap (λ j. lookup j args) (sym ((equal_iff k n).0 q)) ∙ e,
          subst (λ g. All (HasFields g) xs) same h,
        )
    by_name false q l = cc

preview_items-HasFields :
    (w : World) (n i : ℕ)
    → All (HasFields (codes "big" ∷ codes "preview" ∷ codes "index" ∷ [])) (preview_items w n i)
unfolding preview_items lookup insert equal
preview_items-HasFields w zero i = tt
preview_items-HasFields w (suc n) i =
    (((_, refl), ((_, refl), ((_, refl), tt))), preview_items-HasFields w n (i + 1))

model_args-Fits : (w : World) (m : ModelView) → Fits model_signature (model_args w m)
unfolding model_args lookup insert equal add_argument
model_args-Fits w m = by_price m.special_price
  where
    by_price : (p : Option ℕ) → Fits model_signature (model_args w (record m { special_price = p }))
    by_price none = record {
      texts = (
        (_, refl),
        (
          (_, refl),
          (
            (_, refl),
            ((_, refl), ((_, refl), ((_, refl), ((_, refl), ((_, refl), ((_, refl), tt)))))),
          ),
        ),
      );
      arrays =
          one_array (codes "previews") (codes "big" ∷ codes "preview" ∷ codes "index" ∷ [])
            (model_args w (record m { special_price = none })) (preview_items w m.num_images 0) refl
            (preview_items-HasFields w m.num_images 0);
    }
    by_price (some p) = record {
      texts = (
        (_, refl),
        (
          (_, refl),
          (
            (_, refl),
            ((_, refl), ((_, refl), ((_, refl), ((_, refl), ((_, refl), ((_, refl), tt)))))),
          ),
        ),
      );
      arrays =
          one_array (codes "previews") (codes "big" ∷ codes "preview" ∷ codes "index" ∷ [])
            (model_args w (record m { special_price = some p })) (preview_items w m.num_images 0)
            refl (preview_items-HasFields w m.num_images 0);
    }

collection_item-HasFields :
    (v : CollectionView)
    → HasFields
        (codes "model_id" ∷ codes "color_name" ∷ codes "title" ∷ codes "price" ∷ [])
        (collection_item v)
unfolding lookup insert equal
collection_item-HasFields v = by_price v.special_price
  where
    by_price :
        (p : Option ℕ)
        → HasFields
            (codes "model_id" ∷ codes "color_name" ∷ codes "title" ∷ codes "price" ∷ [])
            (collection_item (record v { special_price = p }))
    by_price none = ((_, refl), ((_, refl), ((_, refl), ((_, refl), tt))))
    by_price (some p) = ((_, refl), ((_, refl), ((_, refl), ((_, refl), tt))))

collection_items-HasFields :
    (rows : List CollectionView)
    → All
        (HasFields (codes "model_id" ∷ codes "color_name" ∷ codes "title" ∷ codes "price" ∷ []))
        (map collection_item rows)
collection_items-HasFields [] = tt
collection_items-HasFields (v ∷ rows) =
    (collection_item-HasFields v, collection_items-HasFields rows)

image_items-HasFields :
    (images : List Bytes) → All (HasFields (codes "image" ∷ [])) (map image_item images)
unfolding lookup insert equal
image_items-HasFields [] = tt
image_items-HasFields (x ∷ images) = (((_, refl), tt), image_items-HasFields images)

-- What a handler gives fits the signature of its template.
PageArgs-Fits :
    {w : World} {name : Bytes} {g : Signature} {args : ArgumentList}
    → PageArgs w name g args
    → Fits g args
unfolding lookup insert equal add_argument
PageArgs-Fits {w} (of_model m) = model_args-Fits w m
PageArgs-Fits (of_collection rows) = record {
  texts = tt;
  arrays =
      one_array (codes "collection")
        (codes "model_id" ∷ codes "color_name" ∷ codes "title" ∷ codes "price" ∷ [])
        (collection_args rows) (map collection_item rows) refl (collection_items-HasFields rows);
}
PageArgs-Fits (of_lookbook images) = record {
  texts = tt;
  arrays =
      one_array (codes "images") (codes "image" ∷ []) (lookbook_args images) (map image_item images)
        refl (image_items-HasFields images);
}
PageArgs-Fits (of_static_page body) = record { texts = ((_, refl), tt); arrays = λ n fs l. cc }

-- If the template that a handler asks for is loaded and passes the check against the handler's
-- signature, then the page is rendered, the object stays as it was, and no name that the template shows
-- or loops over is unset in what the handler gives: for each model, for all rows of the collection, for
-- all images of the lookbook and for each text of a static page.
pub page-render :
    {w : World} {name : Bytes} {g : Signature} {args : ArgumentList} {ts : Tokens}
    → PageArgs w name g args
    → Store.get w.templates name ≡ ok ts
    → check g ts ≡ true
    → (o : HttpObject)
    → (d : Bytes) × (strict_tokens args none ts ≡ some d) × (render w name args o ≡ (ok d, o))
unfolding go_on
page-render {w} {name} {g} {args} {ts} p e h o =
    let (d, s, y) = check-yield g args (PageArgs-Fits p) ts h in (d, s, rw (e, y) refl)
