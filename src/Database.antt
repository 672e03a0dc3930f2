-- ===== src/Database.antt =====
-- `Database` of src/db.cpp: connecting by the configuration, and statements that are tried again.
-- The MySQL client is a parameter: what each attempt gives.
pub mod Retry
pub mod Written
use simurga.Base.{
  ℕ, zero, suc, ◌+◌, ◌-◌, Bool, Option, none, some, List, [], ◌∷◌, ◌++◌, ◌==◌, if◌then◌else◌,
  is_empty, Bytes, codes, Exception, std_exception, Result, ok, raise,
}
use simurga.Files.Config.{DirConfig, dir_config, get}
use simurga.Files.{System}
use simurga.Text.Decimal.{from_string}

-- What a call of the client gives: its result, an ASql::MySQL::Error with its text, or another
-- exception.
pub data Attempt (A : Type 0) : Type 0 where
  gives : A → Attempt A
  sql_error : Bytes → Attempt A
  throws : Exception → Attempt A

-- The arguments of connection_.connect; a null pointer is `none`.
pub record ConnectArgs : Type 0 where
  pub host : Option Bytes
  pub user : Bytes
  pub passwd : Bytes
  pub db : Bytes
  pub port : ℕ
  pub unix_socket : Option Bytes
  pub flags : ℕ
  pub charset : Bytes

abbrev pub mysql_default_port : ℕ
mysql_default_port = 3306

abbrev pub execute_retry_count : ℕ
execute_retry_count = 3

abbrev null_if_empty : Bytes → Option Bytes
null_if_empty s = if is_empty s then none else some s

unfoldable pub connect_args : DirConfig → ConnectArgs
unfolding get
connect_args config = record {
  host = null_if_empty (get config (codes "host"));
  user = get config (codes "user");
  passwd = get config (codes "passwd");
  db = get config (codes "db");
  port =
      if is_empty (get config (codes "port"))
      then mysql_default_port
      else from_string (get config (codes "port"));
  unix_socket = null_if_empty (get config (codes "unix_socket"));
  flags = 0;
  charset = codes "utf8";
}

abbrev pub thrown : {A : Type 0} → Attempt A → Result A
thrown (gives a) = ok a
thrown (sql_error msg) = raise (std_exception msg)
thrown (throws e) = raise e

-- The call of the client in connect, with what it gives for its arguments
abbrev pub connecting : System → Bytes → (ConnectArgs → Attempt (Unit {0})) → Attempt (Unit {0})
connecting sys data_dir client =
    client (connect_args (dir_config sys (data_dir ++ codes "/etc/db.conf")))

-- connect
unfoldable pub connect : System → Bytes → (ConnectArgs → Attempt (Unit {0})) → Result (Unit {0})
unfolding connect_args
connect sys data_dir client = thrown (connecting sys data_dir client)

-- What `execute` does, by the number of the round.
pub data DbEvent : Type 0 where
  statement : ℕ → DbEvent
  reconnect : ℕ → DbEvent

abbrev pub Run : Type 0 → Type 0
Run A = Result A × List DbEvent

-- The event in front of what a run does.
abbrev pub first : {A : Type 0} → DbEvent → Run A → Run A
first e (r, es) = (r, e ∷ es)

-- A try of a statement: the rows that it has added to the container of the results before it ended, and
-- how it ended. The client adds a row before it fetches it, and an error of the fetch leaves the row there.
pub record Tried (R : Type 0) : Type 0 where
  pub added : List R
  pub outcome : Attempt (Unit {0})

module _ {R : Type 0} (attempt : ℕ → Tried R) (reconnecting : ℕ → Result (Unit {0})) where
  -- connect() in the handler: an exception of it leaves the loop.
  abbrev pub after_reconnect : Result (Unit {0}) → Run (List R) → Run (List R)
  after_reconnect (ok u) next = next
  after_reconnect (raise e) next = (raise e, [])

  -- One round, with what the container holds after the statement, the outcome of the statement, and what
  -- the rounds after it do.
  abbrev pub round : ℕ → List R → Attempt (Unit {0}) → Run (List R) → Run (List R)
  round retry results (gives u) next = (ok results, [])
  round retry results (throws e) next = (raise e, [])
  round retry results (sql_error msg) next =
      if retry == execute_retry_count - 1
      then (raise (std_exception msg), [])
      else first (reconnect retry) (after_reconnect (reconnecting retry) next)

  -- The loop: the number of rounds left, the number of this one, and the container, which all rounds
  -- share and none clears.
  unfoldable pub execute_loop : ℕ → ℕ → List R → Run (List R)
  execute_loop zero retry results = (ok results, [])
  execute_loop (suc n) retry results =
      let filled = results ++ (attempt retry).added in
      first (statement retry)
        (round retry filled (attempt retry).outcome (execute_loop n (retry + 1) filled))

  unfoldable pub execute : List R → Run (List R)
  unfolding execute_loop
  execute results = execute_loop execute_retry_count 0 results
