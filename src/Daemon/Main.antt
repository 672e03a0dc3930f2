-- ===== src/Daemon/Main.antt =====
-- `main` of src/main.cpp.
use simurga.Logs.{Argument, text, number}
use simurga.Service.{what}
use simurga.Database.{Attempt, gives, sql_error, throws}
use simurga.Daemon.Singletons.{
  Database, Singletons, new_database, database_instance, templates_instance, jobs_instance,
  objects_instance,
}
use simurga.Jobs.{JobQueue, request_stop, join}
use simurga.Template.Parser.{Outcome, done, failed, out_of_fuel}
use simurga.Template.Store.{Templates, load}
use simurga.Base.{
  List, ℕ, Bool, true, false, Option, none, some, [], ◌∷◌, ◌++◌, if◌then◌else◌, is_empty, Bytes,
  codes, Result, ok, raise,
}
use simurga.Daemon.Socket.{
  Platform, Process, get_data_dir, socket_path, close, unlink, setup_socket, log_error,
}

-- How the program ends: by a value of `main`, or by std::terminate.
pub data Exit : Type 0 where
  returned : ℕ → Exit
  terminated : Exit

module _ {J : Type 0} where
  -- The catch clause behind the serving part.
  abbrev pub abort : List Argument → Process J → Exit × Process J
  abort args s = (returned 2, log_error (codes "%s") args s)

  -- HttpObjectList::instance() in `response_start`, if a request has come.
  abbrev pub routed : Bool → Singletons J → Singletons J
  routed true l = (objects_instance l).1
  routed false l = l

  -- JobQueue::instance().stop(), t.join() and what follows them.
  abbrev pub stop : Bytes → JobQueue J → Process J → Exit × Process J
  stop path q s =
      let l = record s.singletons { jobs = some (join (request_stop q)) } in
      let s' = record s { singletons = l } in
      (returned 0, if is_empty path then s' else unlink path (close s'))

  -- Behind fcgi.handler(). Where it throws, the thread `t` is destroyed while it is joinable, which is
  -- std::terminate, before a catch clause is reached.
  abbrev pub after_handler : Bytes → Attempt (Bool × JobQueue J) → Process J → Exit × Process J
  after_handler path (gives (requested, q)) s =
      stop path q (record s { singletons = routed requested s.singletons })
  after_handler path r s = (terminated, s)

  -- Behind JobQueue::instance(): the manager and the thread.
  abbrev pub serve_with :
      Platform J → Bytes → Option Bytes → JobQueue J × Singletons J → Process J → Exit × Process J
  serve_with p path (some e) (q, l) s = abort (text e ∷ []) (record s { singletons = l })
  serve_with p path none (q, l) s = after_handler path (p.handler q) (record s { singletons = l })

  -- Behind `load`. What a load that fails has added is not followed, since the program ends.
  abbrev pub after_load : Platform J → Bytes → Outcome Templates → Process J → Exit × Process J
  after_load p path (done ts) s =
      serve_with p path p.start_error (jobs_instance (record s.singletons { templates = some ts }))
        s
  after_load p path (failed e) s = abort (text (what e) ∷ []) s
  after_load p path out_of_fuel s = (terminated, s)

  -- TemplateList::instance().load
  unfoldable pub load_templates : Platform J → Singletons J → Outcome Templates
  load_templates p l = load p.sys (get_data_dir p ++ codes "/templates") (templates_instance l).0

  -- The part of `main` behind `setup_socket`: the exit code and the state of the process.
  abbrev pub after_socket : Platform J → Bytes → Result (Unit {0}) × Process J → Exit × Process J
  after_socket p path (raise e, s) =
      (returned 1, log_error (codes "init socket: %s") (text (what e) ∷ []) s)
  after_socket p path (ok u, s) = after_load p path (load_templates p s.singletons) s

  -- Behind Database::instance, with its two catch clauses.
  abbrev pub after_database :
      Platform J → Attempt Database × Singletons J → Process J → Exit × Process J
  after_database p (gives d, l) s =
      let path = socket_path p in
      after_socket p path (setup_socket p path (record s { singletons = l }))
  after_database p (sql_error msg, l) s = (
    returned 1,
    log_error (codes "connect to database: error %d: %s") (number p.erno ∷ text msg ∷ [])
        (record s { singletons = l }),
  )
  after_database p (throws e, l) s = (
    returned 1,
    log_error (codes "connect to database: %s") (text (what e) ∷ []) (record s { singletons = l }),
  )

  unfoldable pub main : Platform J → Process J → Exit × Process J
  unfolding setup_socket socket_path load_templates
  main p s =
      after_database p
        (database_instance (new_database p.sys (get_data_dir p) p.client) s.singletons) s
