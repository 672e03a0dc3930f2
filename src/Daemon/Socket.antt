-- ===== src/Daemon/Socket.antt =====
-- The environment and `setup_socket` of src/main.cpp. The operating system decides which calls fail,
-- and so its answers are a parameter; what the calls do to the process and to the file of the socket
-- is state.
use simurga.Logs.{Message, Argument, log_err}
use simurga.Database.{Attempt, ConnectArgs}
use simurga.Daemon.Singletons.{Singletons}
use simurga.Files.{System}
use simurga.Jobs.{JobQueue}
use simurga.Text.{equal}
use simurga.Base.{
  List, ℕ, Bool, true, false, Option, none, some, [], ◌∷◌, ◌++◌, if◌then◌else◌, is_empty, take,
  Bytes, codes, std_exception, Result, ok, raise,
}

-- What the calls of `main` answer; a text is that of strerror or of an exception.
pub record Platform (J : Type 0) : Type 0 where
  -- PREFIX, if the build sets it
  pub build_prefix : Option Bytes
  pub sys : System
  -- ::getenv
  pub getenv : Bytes → Option Bytes
  -- the MySQL client, and the number of its error
  pub client : ConnectArgs → Attempt (Unit {0})
  pub erno : ℕ
  -- the size of sun_path; ::bind reads no more of a path
  pub sun_path_size : ℕ
  pub socket_error : Option Bytes
  pub bind_error : Option Bytes
  pub listen_error : Option Bytes
  -- what the construction of the FastCGI manager or the start of the working thread throws
  pub start_error : Option Bytes
  -- the manager's handler and the working thread until the handler returns: whether a request has
  -- come, and the queue that they leave; or what the handler throws
  pub handler : JobQueue J → Attempt (Bool × JobQueue J)

-- What the process holds: the socket, the path of its file, the mask for new files and the statics; and what it
-- has logged.
pub record Process (J : Type 0) : Type 0 where
  pub socket_open : Bool
  pub linked : Option Bytes
  pub listening : Bool
  pub mask : ℕ
  pub logged : List Message
  pub singletons : Singletons J

-- The file of the socket after ::unlink of a path.
abbrev pub removed : Bytes → Option Bytes → Option Bytes
removed path none = none
removed path (some file) = if equal file path then none else some file

module _ {J : Type 0} where
  unfoldable pub get_env : Platform J → Bytes → Bytes
  get_env p key = elim (p.getenv key) [ none ↦ [] | some v ↦ v ]

  -- PREFIX
  unfoldable pub prefix : Platform J → Bytes
  prefix p = elim p.build_prefix [ none ↦ codes "/usr/local" | some s ↦ s ]

  unfoldable pub get_data_dir : Platform J → Bytes
  unfolding get_env prefix
  get_data_dir p =
      let datadir = get_env p (codes "SIMURGA_DATA") in
      if is_empty datadir then prefix p else datadir

  unfoldable pub socket_path : Platform J → Bytes
  unfolding get_env
  socket_path p =
      let path = get_env p (codes "SIMURGA_SOCKET") in
      if is_empty path then codes "/tmp/simurga.sock" else path

  -- ::unlink
  abbrev pub unlink : Bytes → Process J → Process J
  unlink path s = record s { linked = removed path s.linked }

  abbrev pub close : Process J → Process J
  close s = record s { socket_open = false; listening = false }

  -- ::umask(0) up to ::umask(mask)
  abbrev pub umask : ℕ → Process J → Process J
  umask m s = record s { mask = m }

  -- Behind ::bind
  abbrev pub listen_on : Platform J → ℕ → Process J → Result (Unit {0}) × Process J
  listen_on p mask s = elim p.listen_error [
    | some e ↦ (raise (std_exception (codes "listen: " ++ e)), umask mask (close s))
    | none ↦ (ok tt, umask mask (record s { listening = true }))
  ]

  -- Behind ::socket
  abbrev pub bind_to : Platform J → Bytes → ℕ → Process J → Result (Unit {0}) × Process J
  bind_to p path mask s = elim p.bind_error [
    | some e ↦ (raise (std_exception (codes "bind: " ++ e)), umask mask (close s))
    | none ↦ listen_on p mask (record s { linked = some (take p.sun_path_size path) })
  ]

  -- setup_socket; the result stands for the descriptor, which is open in the state.
  unfoldable pub setup_socket : Platform J → Bytes → Process J → Result (Unit {0}) × Process J
  setup_socket p path s = elim p.socket_error [
    | some e ↦ (raise (std_exception (codes "socket: " ++ e)), unlink path s)
    | none ↦ bind_to p path s.mask (umask 0 (record (unlink path s) { socket_open = true }))
  ]

  abbrev pub log_error : Bytes → List Argument → Process J → Process J
  log_error format args s = record s {
    logged = s.logged ++ record { level = log_err; format = format; args = args } ∷ [];
  }
