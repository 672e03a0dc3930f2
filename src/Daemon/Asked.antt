-- ===== src/Daemon/Asked.antt =====
-- What the handlers of src/model.cpp ask the database for, whatever the URI of the request.
use simurga.Base.{ℕ, ◌≡◌, refl, ap, Bytes, Result, ok, raise}
use simurga.Daemon.Worlds.{serve-worlds}
use simurga.Daemon.{serve}
use simurga.Database.{Tried}
use simurga.Pages.Handlers.{
  get, get_static_page, get_lookbook, get_collection, get_model, model_query, model_args, query,
  show_rows, show_model,
}
use simurga.Pages.Ids.{IsColor, parse_id-IsColor}
use simurga.Pages.Model.{parse_id}
use simurga.Pages.World.{World, ModelParameters, ModelView}
use simurga.Service.Object.{go_on, ◌>>=◌}
use simurga.Service.Routes.{ObjectTable}
use simurga.Service.{Kind, static_page, lookbook, collection, model, Environment, HttpObject}

abbrev pub Rows : Type 0
Rows = Bytes → ModelParameters → ℕ → Tried ModelView

-- Two databases that answer alike if the name of the colour is one of letters, digits, '-' and '_'.
abbrev pub SameForColors : Rows → Rows → Type 0
SameForColors r s =
    (text : Bytes) (params : ModelParameters)
    → IsColor params.color_name
    → r text params ≡ s text params

abbrev pub asking : World → Rows → World
asking w r = record w { model_rows = r }

module _ (w : World) (r s : Rows) (same : SameForColors r s) where
  shown-asking :
      (p : Result (ℕ × Bytes)) (o : HttpObject)
      → ((n : ℕ) (c : Bytes) → p ≡ ok (n, c) → IsColor c)
      → go_on (p, o) (λ q. show_model (asking w r) (record { model_id = q.0; color_name = q.1 }))
        ≡ go_on (p, o) (λ q. show_model (asking w s) (record { model_id = q.0; color_name = q.1 }))
  unfolding model_args go_on
  shown-asking (raise e) o h = refl
  shown-asking (ok (n, c)) o h =
      ap (λ rows. (query w rows >>= show_rows w) o)
        (same (model_query w) (record { model_id = n; color_name = c }) (h n c refl))

  get_model-asking :
      (id : Bytes) (o : HttpObject) → get_model (asking w r) id o ≡ get_model (asking w s) id o
  unfolding get_model
  get_model-asking id o = shown-asking (parse_id id) o λ n c e. parse_id-IsColor id e

  get-asking :
      (k : Kind) (id : Bytes) (o : HttpObject) → get (asking w r) k id o ≡ get (asking w s) k id o
  unfolding get get_static_page get_lookbook get_collection
  get-asking static_page id o = refl
  get-asking lookbook id o = refl
  get-asking collection id o = refl
  get-asking model id o = get_model-asking id o

  -- What is sent and logged for a request, whatever its method and its URI and for any table of routes,
  -- does not depend on what the database would give for a colour with a name that is empty or has
  -- other characters than letters, digits, '-' and '_'.
  pub serve-asking :
      (decode : Bytes → Bytes) (table : ObjectTable) (env : Environment)
      → serve decode table (asking w r) env ≡ serve decode table (asking w s) env
  serve-asking decode table env =
      serve-worlds (asking w r) (asking w s) decode table env λ o id e. get-asking o.kind id o
