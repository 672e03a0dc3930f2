-- ===== src/Service/Handling.antt =====
-- What `handle` of src/httpservice.cpp leaves in an object.
use simurga.Base.{
  ◌≡◌, refl, Bytes, codes, Option, none, some, Result, ok, raise, Exception, std_exception,
  http_exception, not_found, invalid_method,
}
use simurga.Pages.Handlers.{get, page_body, render}
use simurga.Pages.World.{World}
use simurga.Service.Handle.{dispatch, handle, caught, settle}
use simurga.Service.Object.{M, go_on, set_data, set_main, set_config_page, set_titled_page}
use simurga.Template.Arguments.{ArgumentList}
use simurga.Template.Store.{Templates}
use simurga.Service.{
  RequestMethod, method_error, head_method, get_method, post_method, put_method, delete_method,
  trace_method, options_method, connect_method, HttpObject, Kind, static_page, lookbook, collection,
  model, status_of, what,
}

-- A method either raises an exception and leaves the object alone, or it changes the output only.
pub data IsAtomic (o : HttpObject) : Result (Unit {0}) × HttpObject → Type 0 where
  wrote : (u : Unit {0}) (d : Bytes) → IsAtomic o (ok u, record o { output = d })
  stopped : (e : Exception) → IsAtomic o (raise e, o)

-- The two ends of `handle`.
pub data Answered (o : HttpObject) : HttpObject → Type 0 where
  page : (d : Bytes) → Answered o (record o { output = d })
  error :
      (e : Exception)
      → Answered o
          (record o { content_type = codes "text/plain"; status = status_of e; output = what e })

-- A step that leaves the object alone.
data Reads {A : Type 0} (o : HttpObject) : Result A × HttpObject → Type 0 where
  reads : (r : Result A) → Reads o (r, o)

Reads-bind :
    {A B : Type 0} {o : HttpObject} {r : Result A × HttpObject} (f : A → M B)
    → Reads o r
    → ((a : A) → Reads o (f a o))
    → Reads o (go_on r f)
unfolding go_on
Reads-bind f (reads (ok a)) h = h a
Reads-bind f (reads (raise e)) h = reads (raise e)

IsAtomic-bind :
    {A : Type 0} {o : HttpObject} {r : Result A × HttpObject} (f : A → M (Unit {0}))
    → Reads o r
    → ((a : A) → IsAtomic o (f a o))
    → IsAtomic o (go_on r f)
unfolding go_on
IsAtomic-bind f (reads (ok a)) h = h a
IsAtomic-bind f (reads (raise e)) h = stopped e

set_main-IsAtomic :
    (ts : Templates) (args : ArgumentList) (o : HttpObject) → IsAtomic o (set_main ts args o)
unfolding set_data
set_main-IsAtomic ts args o =
    IsAtomic-bind _ (reads _) λ t. IsAtomic-bind _ (reads _) λ d. wrote tt d

module _ (w : World) (o : HttpObject) where
  render-Reads : (name : Bytes) (args : ArgumentList) → Reads o (render w name args o)
  render-Reads name args = Reads-bind _ (reads _) λ t. reads _

  page_body-Reads : (file : Bytes) (c : Option Bytes) → Reads o (page_body w file c o)
  page_body-Reads file none = reads _
  page_body-Reads file (some c) = reads _

  get-IsAtomic : (k : Kind) (id : Bytes) → IsAtomic o (get w k id o)
  unfolding get set_config_page set_titled_page
  get-IsAtomic static_page id =
      IsAtomic-bind _ (page_body-Reads _ _)
        λ body. IsAtomic-bind _ (render-Reads _ _) λ page. set_main-IsAtomic _ _ o
  get-IsAtomic lookbook id = IsAtomic-bind _ (render-Reads _ _) λ page. set_main-IsAtomic _ _ o
  get-IsAtomic collection id =
      IsAtomic-bind _ (reads _)
        λ rows. IsAtomic-bind _ (render-Reads _ _) λ page. set_main-IsAtomic _ _ o
  get-IsAtomic model id = IsAtomic-bind _ (reads _) λ p. IsAtomic-bind _ (reads _) λ rows.
      IsAtomic-bind _ (reads _)
        λ m. IsAtomic-bind _ (render-Reads _ _) λ page. set_main-IsAtomic _ _ o

  -- A request is either done or not done, whatever its method: the handler that `handle` chooses
  -- changes the output only, or it raises an exception and leaves the object as it was.
  pub dispatch-IsAtomic : (m : RequestMethod) (id : Bytes) → IsAtomic o (dispatch w m id o)
  unfolding dispatch
  dispatch-IsAtomic head_method id = get-IsAtomic o.kind id
  dispatch-IsAtomic get_method id = get-IsAtomic o.kind id
  dispatch-IsAtomic put_method id = stopped _
  dispatch-IsAtomic post_method id = stopped _
  dispatch-IsAtomic delete_method id = stopped _
  dispatch-IsAtomic _ id = stopped _

  caught-Answered : (e : Exception) → Answered o (caught w e o)
  unfolding caught
  caught-Answered (http_exception d) = error (http_exception d)
  caught-Answered (not_found d) = error (not_found d)
  caught-Answered invalid_method = error invalid_method
  caught-Answered (std_exception d) = error (std_exception d)

  settle-Answered : {r : Result (Unit {0}) × HttpObject} → IsAtomic o r → Answered o (settle w r)
  settle-Answered (wrote u d) = page d
  settle-Answered (stopped e) = caught-Answered e

  -- `handle` always ends, with a page or with an error: a page changes the output and nothing else,
  -- and an error is a plain text with the status and the description of the exception.
  pub handle-Answered : (id : Bytes) → Answered o (handle w id o)
  unfolding handle
  handle-Answered id = settle-Answered (dispatch-IsAtomic o.env.request_method id)

-- The methods that no class implements.
data IsRefused : RequestMethod → Type 0 where
  put_refused : IsRefused put_method
  post_refused : IsRefused post_method
  delete_refused : IsRefused delete_method
  error_refused : IsRefused method_error
  trace_refused : IsRefused trace_method
  options_refused : IsRefused options_method
  connect_refused : IsRefused connect_method

-- The answer to a method that is not allowed.
abbrev method_answer : HttpObject → HttpObject
method_answer o = record o {
  content_type = codes "text/plain";
  status = codes "405 Method Not Allowed";
  output = codes "Method is not allowed for this object";
}

dispatch-IsRefused :
    {m : RequestMethod} (w : World) (o : HttpObject) (id : Bytes)
    → IsRefused m
    → settle w (dispatch w m id o) ≡ method_answer o
unfolding dispatch caught
dispatch-IsRefused w o id put_refused = refl
dispatch-IsRefused w o id post_refused = refl
dispatch-IsRefused w o id delete_refused = refl
dispatch-IsRefused w o id error_refused = refl
dispatch-IsRefused w o id trace_refused = refl
dispatch-IsRefused w o id options_refused = refl
dispatch-IsRefused w o id connect_refused = refl

-- A method other than GET and HEAD is answered by 405 for every object.
handle-IsRefused :
    (w : World) (o : HttpObject) (id : Bytes)
    → IsRefused o.env.request_method
    → handle w id o ≡ method_answer o
unfolding handle
handle-IsRefused w o id h = dispatch-IsRefused w o id h
