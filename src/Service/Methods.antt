-- ===== src/Service/Methods.antt =====
-- `handle` of src/httpservice.cpp for requests that differ in their method or their URI.
use simurga.Base.{
  ◌≡◌, refl, Bytes, Option, none, some, Result, ok, raise, Exception, std_exception, http_exception,
  not_found, invalid_method,
}
use simurga.Pages.Handlers.{get, page_body, render}
use simurga.Pages.World.{World}
use simurga.Service.Handle.{dispatch, handle, caught, settle, head}
use simurga.Service.Object.{M, go_on, set_data, set_main, set_config_page, set_titled_page}
use simurga.Template.Arguments.{ArgumentList}
use simurga.Template.Store.{Templates}
use simurga.Service.{
  RequestMethod, method_error, head_method, get_method, put_method, post_method, delete_method,
  trace_method, options_method, connect_method, HttpObject, Kind, static_page, lookbook, collection,
  model,
}

-- The object of the same request with another method and another URI.
abbrev pub with_line : RequestMethod → Bytes → HttpObject → HttpObject
with_line m u o = record o { env = record o.env { request_method = m; request_uri = u } }

-- Two runs with one result, whose objects differ in the method and the URI only.
data Twin {A : Type 0} (m : RequestMethod) (u : Bytes)
    : Result A × HttpObject → Result A × HttpObject → Type 0 where
  twin : (r : Result A) (o : HttpObject) → Twin m u (r, with_line m u o) (r, o)

Twin-bind :
    {A B : Type 0} {m : RequestMethod} {u : Bytes} {r' r : Result A × HttpObject} (f' f : A → M B)
    → Twin m u r' r
    → ((a : A) (o : HttpObject) → Twin m u (f' a (with_line m u o)) (f a o))
    → Twin m u (go_on r' f') (go_on r f)
unfolding go_on
Twin-bind f' f (twin (ok a) o) h = h a o
Twin-bind f' f (twin (raise e) o) h = twin (raise e) o

set_main-Twin :
    (m : RequestMethod) (u : Bytes) (ts : Templates) (args : ArgumentList) (o : HttpObject)
    → Twin m u (set_main ts args (with_line m u o)) (set_main ts args o)
unfolding set_data
set_main-Twin m u ts args o =
    Twin-bind _ _ (twin _ o) λ t o₁. Twin-bind _ _ (twin _ o₁) λ d o₂. twin (ok tt) _

module _ (m : RequestMethod) (u : Bytes) (w : World) where
  render-Twin :
      (name : Bytes) (args : ArgumentList) (o : HttpObject)
      → Twin m u (render w name args (with_line m u o)) (render w name args o)
  render-Twin name args o = Twin-bind _ _ (twin _ o) λ t o₁. twin _ o₁

  page_body-Twin :
      (file : Bytes) (c : Option Bytes) (o : HttpObject)
      → Twin m u (page_body w file c (with_line m u o)) (page_body w file c o)
  page_body-Twin file none o = twin _ o
  page_body-Twin file (some c) o = twin _ o

  get-Twin :
      (k : Kind) (id : Bytes) (o : HttpObject)
      → Twin m u (get w k id (with_line m u o)) (get w k id o)
  unfolding get set_config_page set_titled_page
  get-Twin static_page id o =
      Twin-bind _ _ (page_body-Twin _ _ o)
        λ body o₁. Twin-bind _ _ (render-Twin _ _ o₁) λ page o₂. set_main-Twin m u _ _ o₂
  get-Twin lookbook id o = Twin-bind _ _ (render-Twin _ _ o) λ page o₂. set_main-Twin m u _ _ o₂
  get-Twin collection id o =
      Twin-bind _ _ (twin _ o)
        λ rows o₁. Twin-bind _ _ (render-Twin _ _ o₁) λ page o₂. set_main-Twin m u _ _ o₂
  get-Twin model id o = Twin-bind _ _ (twin _ o) λ p o₁. Twin-bind _ _ (twin _ o₁) λ rows o₂.
      Twin-bind _ _ (twin _ o₂)
        λ v o₃. Twin-bind _ _ (render-Twin _ _ o₃) λ page o₄. set_main-Twin m u _ _ o₄

  caught-both :
      (e : Exception) (o : HttpObject) → caught w e (with_line m u o) ≡ with_line m u (caught w e o)
  unfolding caught
  caught-both (http_exception d) o = refl
  caught-both (not_found d) o = refl
  caught-both invalid_method o = refl
  caught-both (std_exception d) o = refl

  settle-Twin :
      {r' r : Result (Unit {0}) × HttpObject}
      → Twin m u r' r
      → settle w r' ≡ with_line m u (settle w r)
  settle-Twin (twin (ok x) o) = refl
  settle-Twin (twin (raise e) o) = caught-both e o

-- A HEAD request leaves the object as the GET request for it does, the method apart: page or error,
-- with one status and one set of headers.
pub handle-head :
    (w : World) (o : HttpObject) (u v id : Bytes)
    → handle w id (with_line head_method u o)
      ≡ with_line head_method u (handle w id (with_line get_method v o))
unfolding handle dispatch head
handle-head w o u v id =
    settle-Twin head_method u w (get-Twin head_method u w o.kind id (with_line get_method v o))

dispatch-Twin :
    (m : RequestMethod) (w : World) (o : HttpObject) (u v id : Bytes)
    → Twin m u (dispatch w m id (with_line m u o)) (dispatch w m id (with_line m v o))
unfolding dispatch head
dispatch-Twin head_method w o u v id =
    get-Twin head_method u w o.kind id (with_line head_method v o)
dispatch-Twin get_method w o u v id = get-Twin get_method u w o.kind id (with_line get_method v o)
dispatch-Twin put_method w o u v id = twin _ _
dispatch-Twin post_method w o u v id = twin _ _
dispatch-Twin delete_method w o u v id = twin _ _
dispatch-Twin method_error w o u v id = twin _ _
dispatch-Twin trace_method w o u v id = twin _ _
dispatch-Twin options_method w o u v id = twin _ _
dispatch-Twin connect_method w o u v id = twin _ _

-- The URI of a request does not change what `handle` makes of its object.
pub handle-uri :
    (m : RequestMethod) (w : World) (o : HttpObject) (u v id : Bytes)
    → handle w id (with_line m u o) ≡ with_line m u (handle w id (with_line m v o))
unfolding handle
handle-uri m w o u v id = settle-Twin m u w (dispatch-Twin m w o u v id)
