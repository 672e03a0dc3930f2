-- ===== src/Daemon/Startup.antt =====
-- The ends of `setup_socket` and of `main` of src/main.cpp.
use simurga.Service.{what}
use simurga.Database.{Attempt, gives, sql_error, throws}
use simurga.Daemon.Singletons.{
  Database, Singletons, new_database, database_instance, templates_instance, no_singletons,
  instance_of, instance_or,
}
use simurga.Base.{
  ℕ, ◌≡◌, refl, true, false, Option, none, some, take, Bytes, std_exception, Result, ok, raise,
}
use simurga.Daemon.Socket.{Platform, Process, get_env, get_data_dir, prefix, setup_socket}
use simurga.Daemon.Main.{load_templates, after_database, main}
use simurga.Daemon.Ends.{
  fresh, Exited, sql_failed, not_connected, not_listening, no_socket, no_bind, no_listen,
  after_load-Exited,
}

module _ {J : Type 0} where
  -- The ends of `setup_socket`.
  pub data SetUp (n : ℕ) (path : Bytes) (s : Process J)
      : Result (Unit {0}) × Process J → Type 0 where
    ready :
        SetUp n path s
          (ok tt, record s { socket_open = true; linked = some (take n path); listening = true })
    failed_with :
        (e : Bytes) (l : Option Bytes)
        → SetUp n path s (
          raise (std_exception e),
          record s { socket_open = false; linked = l; listening = false },
        )

  -- From a process with no socket, whichever call fails, `setup_socket` leaves the mask for new files
  -- as it was; it returns with the socket listening at as
  -- much of the path as sun_path takes, or throws and leaves no descriptor
  -- open.
  pub setup_socket-SetUp :
      (p : Platform J) (path : Bytes) (m : ℕ) (l : Singletons J)
      → SetUp p.sun_path_size path (fresh m l) (setup_socket p path (fresh m l))
  unfolding setup_socket
  setup_socket-SetUp p path m l = cases p.socket_error p.bind_error p.listen_error
    where
      cases :
          (a b c : Option Bytes)
          → SetUp p.sun_path_size path (fresh m l) (
              setup_socket
                (record p { socket_error = a; bind_error = b; listen_error = c })
                path
                (fresh m l))
      cases (some e) b c = failed_with _ _
      cases none (some e) c = failed_with _ _
      cases none none (some e) = failed_with _ _
      cases none none none = ready

  after_database-Exited :
      (p : Platform J) (m : ℕ) (r : Attempt Database)
      → new_database p.sys (get_data_dir p) p.client ≡ r
      → Exited p m (after_database p (database_instance r no_singletons) (fresh m no_singletons))
  unfolding database_instance instance_of setup_socket load_templates templates_instance instance_or
      get_data_dir get_env prefix what
  after_database-Exited p m (sql_error msg) b = sql_failed msg b
  after_database-Exited p m (throws e) b = not_connected e b
  after_database-Exited p m (gives d) h = cases p.socket_error p.bind_error p.listen_error
    where
      with_errors : (a b c : Option Bytes) → Platform J
      with_errors a b c = record p { socket_error = a; bind_error = b; listen_error = c }

      cases :
          (a b c : Option Bytes)
          → Exited (with_errors a b c) m (
              after_database
                (with_errors a b c)
                (database_instance (gives d) no_singletons)
                (fresh m no_singletons))
      cases (some e) b c = not_listening d _ _ h (no_socket e refl)
      cases none (some e) c = not_listening d _ _ h (no_bind e refl refl)
      cases none none (some e) = not_listening d _ _ h (no_listen e refl refl refl)
      cases none none none =
          after_load-Exited (with_errors none none none) m d h
            (record { socket_works = refl; bind_works = refl; listen_works = refl }) _ refl

  -- The end of the program tells what has come before. 1 if connecting to the database fails, or if a
  -- call for the socket fails, with no descriptor open; 2 if the templates cannot be loaded, or if the
  -- manager or the thread cannot be started, with the socket left open and its file left behind; one
  -- error with the reason is logged in these cases. Otherwise the program is terminated if the handler
  -- of the manager throws, with nothing logged, the socket left open and its file left behind, and else
  -- ends with 0 after a stop, with the working thread ended behind the items that it had taken, the
  -- socket closed, its file removed by the path of the environment, and nothing logged.
  pub main-Exited : (p : Platform J) (m : ℕ) → Exited p m (main p (fresh m no_singletons))
  unfolding main
  main-Exited p m = after_database-Exited p m (new_database p.sys (get_data_dir p) p.client) refl
