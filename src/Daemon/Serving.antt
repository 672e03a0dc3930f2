-- ===== src/Daemon/Serving.antt =====
-- What src/main.cpp sends for a request.
use simurga.Base.{◌≡◌, refl, ap, true, Option, none, some, [], Bytes, ok}
use simurga.Daemon.{
  new_request, not_found_text, started, after_start, complete, response, run_job, message, serve,
}
use simurga.Pages.World.{World}
use simurga.Service.Handle.{handle}
use simurga.Service.Handling.{Answered, handle-Answered}
use simurga.Service.Routes.{ObjectTable, request_path, allocate}
use simurga.Service.Unrouted.{Unrouted, allocate-none_iff}
use simurga.Service.Routing.{Found, allocate-Found}
use simurga.Service.{Environment, HttpObject}

module _ (decode : Bytes → Bytes) (table : ObjectTable) (w : World) (env : Environment) where
  -- The two ends of a request: no route for its path, or the message of the handled object, which is
  -- the one that the table holds.
  pub data Served : Bytes → Type 0 where
    unknown : Unrouted decode table (request_path env.request_uri) → Served not_found_text
    handled :
        {o : HttpObject} {id : Bytes} (o' : HttpObject)
        → allocate decode table env [] ≡ (some o, id)
        → Found table env [] o id
        → o' ≡ handle w id o
        → Answered o o'
        → Served (message env.request_method o')

  found :
      {o : HttpObject} {id : Bytes}
      → allocate decode table env [] ≡ (some o, id)
      → Found table env [] o id
  found e =
      let f = allocate-Found decode table env [] (ap (λ r. r.0) e) in rw (ap (λ r. r.1) e) at f

  answer-Served :
      (r : Option HttpObject × Bytes)
      → allocate decode table env [] ≡ r
      → let done =
          complete decode table w (after_start decode table w (started (ok r) (new_request env))) in
        (done.0 ≡ true) × Served done.1.out
  unfolding response started run_job
  answer-Served (none, id) e =
      (refl, unknown ((allocate-none_iff decode table env []).0 (ap (λ r. r.0) e)))
  answer-Served (some o, id) e =
      (refl, handled (handle w id o) e (found e) refl (handle-Answered w o id))

  -- Every request is complete after two calls of `response` at most, with the job between them. What is
  -- sent is either the 404 text, for a path with no route, or the message of the object that
  -- `allocate` gives, after `handle` has made it a page or an error.
  pub serve-Served : ((serve decode table w env).0 ≡ true) × Served (serve decode table w env).1.out
  unfolding serve
  serve-Served = answer-Served (allocate decode table env []) refl
