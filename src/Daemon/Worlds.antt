-- ===== src/Daemon/Worlds.antt =====
-- Requests of src/main.cpp in two worlds, in which the object of the request is handled alike.
use simurga.Base.{◌≡◌, refl, ap, Option, none, some, [], ◌∷◌, Bytes, ok}
use simurga.Daemon.{
  finish, accepted_message, new_request, started, after_start, complete, response, run_job, serve,
}
use simurga.Pages.Handlers.{get}
use simurga.Pages.World.{World}
use simurga.Service.Handle.{dispatch, head, handle, settle}
use simurga.Service.Routes.{ObjectTable, allocate}
use simurga.Service.{
  RequestMethod, head_method, get_method, put_method, post_method, delete_method, method_error,
  trace_method, options_method, connect_method, Environment, HttpObject,
}

module _ (w v : World) where
  dispatch-worlds :
      (m : RequestMethod) (id : Bytes) (o : HttpObject)
      → get w o.kind id o ≡ get v o.kind id o
      → dispatch w m id o ≡ dispatch v m id o
  unfolding dispatch head
  dispatch-worlds method_error id o e = refl
  dispatch-worlds head_method id o e = e
  dispatch-worlds get_method id o e = e
  dispatch-worlds post_method id o e = refl
  dispatch-worlds put_method id o e = refl
  dispatch-worlds delete_method id o e = refl
  dispatch-worlds trace_method id o e = refl
  dispatch-worlds options_method id o e = refl
  dispatch-worlds connect_method id o e = refl

  handle-worlds :
      (id : Bytes) (o : HttpObject)
      → get w o.kind id o ≡ get v o.kind id o
      → handle w id o ≡ handle v id o
  unfolding handle
  handle-worlds id o e = ap (settle w) (dispatch-worlds o.env.request_method id o e)

  module _ (decode : Bytes → Bytes) (table : ObjectTable) (env : Environment) where
    answer-worlds :
        (r : Option HttpObject × Bytes)
        → ((o : HttpObject) (id : Bytes) → r ≡ (some o, id) → get w o.kind id o ≡ get v o.kind id o)
        → complete decode table w (after_start decode table w (started (ok r) (new_request env)))
          ≡ complete decode table v (after_start decode table v (started (ok r) (new_request env)))
    unfolding response started run_job
    answer-worlds (none, id) h = refl
    answer-worlds (some o, id) h =
        ap
          (λ (x : HttpObject). response decode table w (record {
            environment = env;
            state = finish;
            http_object = some x;
            id = id;
            out = [];
            err = [];
            logged = accepted_message env ∷ [];
          }))
          (handle-worlds id o (h o id refl))

    -- If the handler of the object that `allocate` gives does the same in both worlds, so does `serve`.
    pub serve-worlds :
        ((o : HttpObject) (id : Bytes)
          → allocate decode table env [] ≡ (some o, id)
          → get w o.kind id o ≡ get v o.kind id o)
        → serve decode table w env ≡ serve decode table v env
    unfolding serve response
    serve-worlds h = answer-worlds (allocate decode table env []) h
