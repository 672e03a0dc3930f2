-- ===== src/Daemon/Logging.antt =====
-- What src/main.cpp logs for a request.
use simurga.Base.{◌≡◌, refl, Option, none, some, [], ◌∷◌, Bytes, ok}
use simurga.Daemon.{
  new_request, started, after_start, complete, response, run_job, serve, not_found_message,
  accepted_message,
}
use simurga.Logs.{Message}
use simurga.Pages.World.{World}
use simurga.Service.Routes.{ObjectTable, allocate}
use simurga.Service.{Environment, HttpObject}

-- The message for a request, by what was found for it.
abbrev message_for : Environment → Option HttpObject → Message
message_for env none = not_found_message env
message_for env (some o) = accepted_message env

module _ (decode : Bytes → Bytes) (table : ObjectTable) (w : World) (env : Environment) where
  logged-started :
      (r : Option HttpObject × Bytes)
      → (complete decode table w
          (after_start decode table w (started (ok r) (new_request env)))).1.logged
        ≡ message_for env r.0 ∷ []
  unfolding started run_job response
  logged-started (none, id) = refl
  logged-started (some o, id) = refl

  -- For each request one message is logged: a warning that names its URI if no object is found, and
  -- otherwise an info that names it, whatever `handle` then does.
  serve-logged :
      (serve decode table w env).1.logged ≡ message_for env (allocate decode table env []).0 ∷ []
  unfolding serve
  serve-logged = logged-started (allocate decode table env [])
