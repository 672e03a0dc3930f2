-- ===== src/Daemon/Ends.antt =====
-- The ends of `main` of src/main.cpp, behind `setup_socket`.
use simurga.Logs.{text, number}
use simurga.Service.{what}
use simurga.Database.{Attempt, gives, sql_error, throws}
use simurga.Daemon.Singletons.{
  Database, Singletons, new_database, jobs_instance, instance_or, no_singletons,
}
use simurga.Jobs.{JobQueue, exited, new_queue}
use simurga.Template.Parser.{Outcome, done, failed, out_of_fuel}
use simurga.Template.Store.{Templates, load}
use simurga.Template.Fuel.{load-ne-out_of_fuel}
use simurga.Base.{
  ℕ, Bool, ◌≡◌, ◌≢◌, refl, true, false, Option, none, some, [], ◌++◌, is_empty, take, if◌then◌else◌,
  ◌∷◌, Bytes, codes, Exception,
}
use simurga.Daemon.Socket.{
  Platform, Process, get_env, get_data_dir, socket_path, removed, log_error,
}
use simurga.Daemon.Main.{Exit, returned, terminated, routed, after_handler, serve_with, after_load}
use simurga.Jobs.Order.{in_batch}
use simurga.Jobs.Stopping.{join-request_stop}

module _ {J : Type 0} where
  -- A process with no socket and nothing logged.
  abbrev pub fresh : ℕ → Singletons J → Process J
  fresh m l = record {
    socket_open = false;
    linked = none;
    listening = false;
    mask = m;
    logged = [];
    singletons = l;
  }

  socket_path-is_empty : (p : Platform J) → is_empty (socket_path p) ≡ false
  unfolding socket_path
  socket_path-is_empty p = by_length (get_env p (codes "SIMURGA_SOCKET"))
    where
      by_length :
          (path : Bytes)
          → is_empty (if is_empty path then codes "/tmp/simurga.sock" else path) ≡ false
      by_length [] = refl
      by_length (c ∷ s) = refl

  -- The statics of a program that is about to serve, and of one that has served and whose thread has
  -- ended.
  abbrev pub ready_singletons : Database → Templates → Singletons J
  ready_singletons d ts = record {
    database = some d;
    objects = none;
    templates = some ts;
    jobs = some new_queue;
  }

  abbrev pub served_singletons : Database → Templates → Bool → JobQueue J → Singletons J
  served_singletons d ts requested q = record (routed requested (ready_singletons d ts)) {
    jobs = some (record q { stop = true; phase = exited; calls = q.calls ++ in_batch q.phase });
  }

  -- As much of the path of the environment as sun_path takes.
  abbrev pub socket_file : Platform J → Bytes
  socket_file p = take p.sun_path_size (socket_path p)

  -- The process with its socket at this path.
  abbrev pub listening_at : Platform J → ℕ → Singletons J → Process J
  listening_at p m l = record (fresh m l) {
    socket_open = true;
    linked = some (socket_file p);
    listening = true;
  }

  -- The statics of a program that is connected to the database.
  abbrev pub connected : Database → Singletons J
  connected d = record { database = some d; objects = none; templates = none; jobs = none }

  -- No call of `setup_socket` fails.
  pub record Listens (p : Platform J) : Type 0 where
    pub socket_works : p.socket_error ≡ none
    pub bind_works : p.bind_error ≡ none
    pub listen_works : p.listen_error ≡ none

  -- The first of these calls that fails, with the text of the exception, and the file that is left.
  pub data SocketFails (p : Platform J) : Bytes → Option Bytes → Type 0 where
    no_socket : (e : Bytes) → p.socket_error ≡ some e → SocketFails p (codes "socket: " ++ e) none
    no_bind :
        (e : Bytes)
        → p.socket_error ≡ none
        → p.bind_error ≡ some e
        → SocketFails p (codes "bind: " ++ e) none
    no_listen :
        (e : Bytes)
        → p.socket_error ≡ none
        → p.bind_error ≡ none
        → p.listen_error ≡ some e
        → SocketFails p (codes "listen: " ++ e) (some (socket_file p))

  abbrev pub loading : Platform J → Outcome Templates
  loading p = load p.sys (get_data_dir p ++ codes "/templates") []

  abbrev pub connecting_to : Platform J → Attempt Database
  connecting_to p = new_database p.sys (get_data_dir p) p.client

  -- The ends of the program, each with what has brought it about.
  pub data Exited (p : Platform J) (m : ℕ) : Exit × Process J → Type 0 where
    sql_failed :
        (msg : Bytes)
        → connecting_to p ≡ sql_error msg
        → Exited p m (
          returned 1,
          log_error
              (codes "connect to database: error %d: %s")
              (number p.erno ∷ text msg ∷ [])
              (fresh m no_singletons),
        )
    not_connected :
        (e : Exception)
        → connecting_to p ≡ throws e
        → Exited p m (
          returned 1,
          log_error (codes "connect to database: %s") (text (what e) ∷ []) (fresh m no_singletons),
        )
    not_listening :
        (d : Database) (e : Bytes) (file : Option Bytes)
        → connecting_to p ≡ gives d
        → SocketFails p e file
        → Exited p m (
          returned 1,
          log_error
              (codes "init socket: %s")
              (text e ∷ [])
              (record (fresh m (connected d)) { linked = file }),
        )
    not_loaded :
        (d : Database) (e : Exception) (l : Singletons J)
        → connecting_to p ≡ gives d
        → Listens p
        → loading p ≡ failed e
        → Exited p m (returned 2, log_error (codes "%s") (text (what e) ∷ []) (listening_at p m l))
    not_serving :
        (d : Database) (ts : Templates) (e : Bytes)
        → connecting_to p ≡ gives d
        → Listens p
        → loading p ≡ done ts
        → p.start_error ≡ some e
        → Exited p m (
          returned 2,
          log_error (codes "%s") (text e ∷ []) (listening_at p m (ready_singletons d ts)),
        )
    crashed :
        (d : Database) (ts : Templates)
        → connecting_to p ≡ gives d
        → Listens p
        → loading p ≡ done ts
        → p.start_error ≡ none
        → ((requested : Bool) (q : JobQueue J) → p.handler new_queue ≢ gives (requested, q))
        → Exited p m (terminated, listening_at p m (ready_singletons d ts))
    stopped :
        (d : Database) (ts : Templates) (requested : Bool) (q : JobQueue J)
        → connecting_to p ≡ gives d
        → Listens p
        → loading p ≡ done ts
        → p.start_error ≡ none
        → p.handler new_queue ≡ gives (requested, q)
        → Exited p m (
          returned 0,
          record (fresh m (served_singletons d ts requested q)) {
            linked = removed (socket_path p) (some (socket_file p));
          },
        )

  module _ (p : Platform J) (m : ℕ) (d : Database) (b : connecting_to p ≡ gives d)
      (s : Listens p) where
    after_handler-Exited :
        (ts : Templates) (r : Attempt (Bool × JobQueue J))
        → loading p ≡ done ts
        → p.start_error ≡ none
        → p.handler new_queue ≡ r
        → Exited p m (after_handler (socket_path p) r (listening_at p m (ready_singletons d ts)))
    after_handler-Exited ts (gives (requested, q)) l n e =
        rw (socket_path-is_empty p) (rw join-request_stop (stopped d ts requested q b s l n e))
    after_handler-Exited ts (sql_error msg) l n e = crashed d ts b s l n (λ requested q x. cc)
    after_handler-Exited ts (throws x) l n e = crashed d ts b s l n (λ requested q y. cc)

    serve_with-Exited :
        (o : Option Bytes) (ts : Templates)
        → loading p ≡ done ts
        → p.start_error ≡ o
        → Exited p m (
            serve_with p
              (socket_path p)
              o
              (new_queue, ready_singletons d ts)
              (listening_at p m (record (ready_singletons d ts) { templates = none; jobs = none })))
    serve_with-Exited (some e) ts l n = not_serving d ts e b s l n
    serve_with-Exited none ts l n = after_handler-Exited ts (p.handler new_queue) l n refl

    pub after_load-Exited :
        (o : Outcome Templates)
        → loading p ≡ o
        → Exited p m (after_load p (socket_path p) o (listening_at p m (connected d)))
    unfolding jobs_instance instance_or
    after_load-Exited (done ts) l = serve_with-Exited p.start_error ts l refl
    after_load-Exited (failed e) l = not_loaded d e _ b s l
    after_load-Exited out_of_fuel l = absurd (load-ne-out_of_fuel p.sys _ [] l)
