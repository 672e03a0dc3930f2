-- ===== src/Daemon/Links.antt =====
-- The links of the collection page (src/collection.cpp with image/templates/collection.tpl), from the
-- page that shows them to what src/main.cpp sends for them.
use simurga.Base.{
  ℕ, ◌≤◌, ◌≡◌, refl, sym, ap, ◌∙◌, true, All, Option, none, some, List, [], ◌++◌, Bytes, codes,
  Result, ok, raise, append-nil,
}
use simurga.Daemon.{new_request, started, after_start, complete, response, run_job, message, serve}
use simurga.Database.{Tried, gives, connect, round, execute_loop, execute}
use simurga.Dict.{lookup, insert}
use simurga.Pages.Handlers.{collection_item, model_query, get, get_model, show_rows, show_model}
use simurga.Pages.Ids.{IsColor, id_of}
use simurga.Pages.Model.{parse_id}
use simurga.Pages.World.{World, ModelParameters, ModelView, CollectionView}
use simurga.Service.Handle.{dispatch, caught, handle, settle}
use simurga.Service.Links.{is_kept, model_uri, model_object, allocate-id_of}
use simurga.Service.Routes.{standard_objects, allocate}
use simurga.Service.{Environment, get_method, model, HttpObject, object_not_found, what, status_of}
use simurga.Service.Object.{go_on, http_object, create, set_path}
use simurga.Template.Arguments.{ArgumentList, get_variable-item}
use simurga.Template.Render.{yield_tokens}
use simurga.Template.{Tokens, text, variable, nil, cons}
use simurga.Text.Decimal.{u32_max, to_string, digits_of}
use simurga.Text.{equal}

execute-gives :
    {R : Type 0} {rows : List R} (attempt : ℕ → Tried R) (reconnecting : ℕ → Result (Unit {0}))
    → attempt 0 ≡ record { added = rows; outcome = gives tt }
    → (execute attempt reconnecting []).0 ≡ ok rows
unfolding execute
execute-gives {R = R} attempt reconnecting h =
    ap
      (λ (t : Tried R).
        (round attempt reconnecting 0 t.added t.outcome
          (execute_loop attempt reconnecting 2 1 t.added)).0)
      h

-- A statement that works and has no rows.
abbrev pub no_rows_added : Tried ModelView
no_rows_added = record { added = []; outcome = gives tt }

-- The link of an item, /model/<%model_id%>-<%color_name%>
abbrev pub link_tokens : Tokens
link_tokens = cons (text (codes "/model/")) (
    cons (variable (codes "model_id"))
      (cons (text (codes "-")) (cons (variable (codes "color_name")) nil)))

lookup-model_id :
    (view : CollectionView)
    → lookup (codes "model_id") (collection_item view) ≡ some (to_string view.model_id)
unfolding lookup insert equal
lookup-model_id view = by_price view.special_price
  where
    by_price :
        (p : Option ℕ)
        → lookup (codes "model_id") (collection_item (record view { special_price = p }))
          ≡ some (to_string view.model_id)
    by_price none = refl
    by_price (some p) = refl

lookup-color_name :
    (view : CollectionView)
    → lookup (codes "color_name") (collection_item view) ≡ some view.color_name
unfolding lookup insert equal
lookup-color_name view = by_price view.special_price
  where
    by_price :
        (p : Option ℕ)
        → lookup (codes "color_name") (collection_item (record view { special_price = p }))
          ≡ some view.color_name
    by_price none = refl
    by_price (some p) = refl

-- The answer for a model that is not there.
abbrev pub not_found_page : Bytes
not_found_page =
    codes "Status: 404 Not Found\r\n"
    ++ (codes "Content-Type: text/plain\r\n"
        ++ (codes "Content-Length: 16\r\n" ++ (codes "\r\n" ++ codes "Object not found")))

ok_eq : {a b : Bytes} → ok a ≡ ok b → a ≡ b
ok_eq h = cc

-- The link is the URI of the model's page.
yield_tokens-link :
    (args : ArgumentList) (view : CollectionView)
    → yield_tokens args (some (collection_item view)) link_tokens
      ≡ ok (model_uri (id_of view.model_id view.color_name))
unfolding yield_tokens
yield_tokens-link args view =
    rw (get_variable-item args (collection_item view) _ _ (lookup-model_id view)) (
      rw (get_variable-item args (collection_item view) _ _ (lookup-color_name view))
        (rw append-nil refl))

abbrev pub params_of : CollectionView → ModelParameters
params_of view = record { model_id = view.model_id; color_name = view.color_name }

module _ (w : World) where
  -- A model's object for GET, by the parameters in its id.
  handle-model :
      (id : Bytes) (p : ℕ × Bytes) (o : HttpObject)
      → o.env.request_method ≡ get_method
      → o.kind ≡ model
      → parse_id id ≡ ok p
      → handle w id o ≡ settle w (show_model w (record { model_id = p.0; color_name = p.1 }) o)
  unfolding handle dispatch get get_model go_on
  handle-model id p o m k e =
      ap (λ r. settle w (dispatch w r id o)) m
      ∙ ap (λ c. settle w (get w c id o)) k
      ∙ ap
          (λ (r : Result (ℕ × Bytes)).
            settle w
              (go_on (r, o) (λ q. show_model w (record { model_id = q.0; color_name = q.1 }))))
          e

  -- A query for which the server has no row.
  show_model-missing :
      (params : ModelParameters) (o : HttpObject)
      → o.custom_headers ≡ []
      → w.model_rows (model_query w) params 0 ≡ no_rows_added
      → message get_method (settle w (show_model w params o)) ≡ not_found_page
  unfolding message to_string digits_of caught what status_of go_on
  show_model-missing params o c h =
      ap
        (λ (r : Result (List ModelView)).
          message get_method (settle w (go_on (r, o) (show_rows w))))
        (execute-gives (w.model_rows (model_query w) params)
          (λ i. connect w.sys w.data_dir (w.client i)) h)
      ∙ ap
          (λ hs.
            message get_method
              (settle w (raise object_not_found, record o { custom_headers = hs })))
          c

  -- What is sent for a request whose object is found.
  serve-found :
      (decode : Bytes → Bytes) (env : Environment) (o : HttpObject) (id : Bytes)
      → allocate decode standard_objects env [] ≡ (some o, id)
      → (serve decode standard_objects w env).1.out ≡ message env.request_method (handle w id o)
  unfolding serve response started run_job
  serve-found decode env o id e =
      ap
        (λ (r : Option HttpObject × Bytes).
          (complete decode standard_objects w
            (after_start decode standard_objects w (started (ok r) (new_request env)))).1.out)
        e

  module _ (decode : Bytes → Bytes)
      (keeps : (s : Bytes) → All (λ c. is_kept c ≡ true) s → decode s ≡ s) (env : Environment) where
    abbrev pub page_object : CollectionView → HttpObject
    page_object view = model_object decode keeps env (id_of view.model_id view.color_name)

    -- A GET request for the link that the collection page shows for an item, of a 32-bit number and a
    -- colour name, is answered by the model page of just this number and this name, which the server
    -- is asked for, if the percent decoding leaves letters, digits, '-', '_' and '/' alone.
    pub serve-link :
        (args : ArgumentList) (view : CollectionView)
        → view.model_id ≤ u32_max
        → IsColor view.color_name
        → env.request_method ≡ get_method
        → yield_tokens args (some (collection_item view)) link_tokens ≡ ok env.request_uri
        → (serve decode standard_objects w env).1.out
          ≡ message get_method (settle w (show_model w (params_of view) (page_object view)))
    unfolding create set_path
    serve-link args view n c m u =
        let uri : env.request_uri ≡ model_uri (id_of view.model_id view.color_name) =
          ok_eq (sym u ∙ yield_tokens-link args view) in
        let (found, parsed) =
          allocate-id_of decode keeps env view.model_id view.color_name n c uri in
        serve-found decode env (page_object view) (id_of view.model_id view.color_name) found
        ∙ ap (λ r. message r (handle w (id_of view.model_id view.color_name) (page_object view))) m
        ∙ ap (message get_method) (
            handle-model (id_of view.model_id view.color_name) (view.model_id, view.color_name)
              (page_object view) m refl parsed)

    -- If the first statement to the database gives no row for an item, of a 32-bit number and a colour
    -- name, a GET request for the link that the collection page shows for it is sent 404 as plain text,
    -- if the percent decoding leaves letters, digits, -, _ and / alone.
    pub serve-link_missing :
        (args : ArgumentList) (view : CollectionView)
        → view.model_id ≤ u32_max
        → IsColor view.color_name
        → env.request_method ≡ get_method
        → yield_tokens args (some (collection_item view)) link_tokens ≡ ok env.request_uri
        → w.model_rows (model_query w) (params_of view) 0 ≡ no_rows_added
        → (serve decode standard_objects w env).1.out ≡ not_found_page
    unfolding create set_path http_object
    serve-link_missing args view n c m u none_such =
        serve-link args view n c m u
        ∙ show_model-missing (params_of view) (page_object view) refl none_such
