-- ===== src/Daemon/Statuses.antt =====
-- The status of each answer of src/main.cpp, with the templates of the site loaded.
use simurga.Base.{
  ◌≡◌, refl, sym, ap, ◌∙◌, Option, none, some, [], Bytes, codes, Result, ok, Exception,
  http_exception, not_found, invalid_method, std_exception,
}
use simurga.Daemon.{
  Request, new_request, started, after_start, complete, response, run_job, message, serve,
}
use simurga.Daemon.Headers.{Found-eq}
use simurga.Pages.Failures.{AreLoaded, page_file}
use simurga.Pages.Statuses.{fine, page_status, result_status, get-status}
use simurga.Pages.World.{World}
use simurga.Service.Handle.{dispatch, handle, caught, settle}
use simurga.Service.Handling.{
  IsAtomic, wrote, stopped, dispatch-IsAtomic, Answered, page, error, handle-Answered,
}
use simurga.Service.Routes.{ObjectTable, allocate}
use simurga.Service.Routing.{allocate-Found}
use simurga.Service.{
  RequestMethod, head_method, get_method, put_method, post_method, delete_method, Kind, Environment,
  HttpObject, status_of,
}

abbrev pub status_for : World → Bytes → RequestMethod → Kind → Bytes → Bytes
status_for w id head_method k file = page_status w id k file
status_for w id get_method k file = page_status w id k file
status_for w id _ k file = codes "405 Method Not Allowed"

module _ (w : World) (loaded : AreLoaded w) (o : HttpObject) (id : Bytes) where
  dispatch-status :
      (m : RequestMethod)
      → result_status (dispatch w m id o).0 ≡ status_for w id m o.kind (page_file o)
  unfolding dispatch status_of
  dispatch-status head_method = get-status w loaded o id o.kind
  dispatch-status get_method = get-status w loaded o id o.kind
  dispatch-status put_method = refl
  dispatch-status post_method = refl
  dispatch-status delete_method = refl
  dispatch-status _ = refl

caught-status : (w : World) (e : Exception) (o : HttpObject) → (caught w e o).status ≡ status_of e
unfolding caught status_of
caught-status w (http_exception d) o = refl
caught-status w (not_found d) o = refl
caught-status w invalid_method o = refl
caught-status w (std_exception d) o = refl

settle-status :
    (w : World) (o : HttpObject) {r : Result (Unit {0}) × HttpObject}
    → IsAtomic o r
    → o.status ≡ fine
    → (settle w r).status ≡ result_status r.0
settle-status w o (wrote u d) n = n
settle-status w o (stopped e) n = caught-status w e o

-- What the status is taken from does not change.
Answered-status_for :
    (w : World) (id : Bytes) {o o' : HttpObject}
    → Answered o o'
    → status_for w id o'.env.request_method o'.kind (page_file o')
      ≡ status_for w id o.env.request_method o.kind (page_file o)
Answered-status_for w id (page d) = refl
Answered-status_for w id (error e) = refl

module _ (decode : Bytes → Bytes) (table : ObjectTable) (w : World) (loaded : AreLoaded w)
    (env : Environment) where
  handle-status :
      (o : HttpObject) (id : Bytes)
      → o.status ≡ fine
      → (handle w id o).status
        ≡ status_for w id
            (handle w id o).env.request_method
            (handle w id o).kind
            (page_file (handle w id o))
  unfolding handle
  handle-status o id n =
      settle-status w o (dispatch-IsAtomic w o o.env.request_method id) n
      ∙ dispatch-status w loaded o id o.env.request_method
      ∙ sym (Answered-status_for w id (handle-Answered w o id))

  -- The end of a request for which `allocate` gives `r`.
  abbrev answer : Option HttpObject × Bytes → Request
  answer r =
      (complete decode table w (after_start decode table w (started (ok r) (new_request env)))).1

  answer-status :
      (r : Option HttpObject × Bytes) (o : HttpObject)
      → allocate decode table env [] ≡ r
      → (answer r).http_object ≡ some o
      → ((answer r).out ≡ message env.request_method o)
        × (o.status ≡ status_for w (answer r).id o.env.request_method o.kind (page_file o))
  unfolding response started run_job
  answer-status (none, id) o e q = cc
  answer-status (some p, id) o e q =
      let same : handle w id p ≡ o = cc in
      let found = allocate-Found decode table env [] (ap (λ r. r.0) e) in
      (
        ap (message env.request_method) same,
        rw (← same) (handle-status p id (ap (λ p. p.status) (Found-eq found))),
      )

  -- If the templates of the site are loaded and pass the check, what is sent for a request with an
  -- object is the message of this object, and its status is this, for any table of routes. For GET and HEAD: a static page has 404 if its file cannot be
  -- opened, and else 200; the lookbook has 200; the collection has the status of the exception that its
  -- statement ends with, and else 200; a model has the status of the exception that its id or its
  -- statement ends with, 404 if the statement gives no row, and else 200. Any other method has 405.
  pub serve-status :
      {o : HttpObject}
      → (serve decode table w env).1.http_object ≡ some o
      → ((serve decode table w env).1.out ≡ message env.request_method o)
        × (o.status
            ≡ status_for w
                (serve decode table w env).1.id
                o.env.request_method
                o.kind
                (page_file o))
  unfolding serve
  serve-status {o} q = answer-status (allocate decode table env []) o refl q
