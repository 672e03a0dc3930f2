-- ===== src/Daemon/Singletons.antt =====
-- The objects that src/db.cpp, src/httpservice.cpp, src/template.cpp and src/jobqueue.cpp keep as
-- function-local statics, and their `instance` functions. A static is constructed by the first call;
-- a constructor that throws leaves it as it was, and the next call tries again.
use simurga.Base.{ℕ, ◌≡◌, refl, sym, ap, Option, none, some, [], Bytes, Exception}
use simurga.Database.{Attempt, gives, sql_error, throws, ConnectArgs, connect_args, connecting}
use simurga.Files.{System}
use simurga.Jobs.{JobQueue, new_queue}
use simurga.Service.Routes.{ObjectTable, standard_objects}
use simurga.Template.Store.{Templates}

abbrev pub connection_threads : ℕ
connection_threads = 1

-- The class Database: its connection, by the number of threads it has.
pub record Database : Type 0 where
  pub connection : ℕ

-- The class HttpObjectList.
pub record HttpObjectList : Type 0 where
  pub table : ObjectTable

abbrev pub new_object_list : HttpObjectList
new_object_list = record { table = standard_objects }

-- The four statics; `none` is not constructed.
pub record Singletons (J : Type 0) : Type 0 where
  pub database : Option Database
  pub objects : Option HttpObjectList
  pub templates : Option Templates
  pub jobs : Option (JobQueue J)

-- A static variable: what a call of its function gives, and the static behind it.
unfoldable pub instance_of : {A : Type 0} → Option A → Attempt A → Attempt A × Option A
instance_of (some a) built = (gives a, some a)
instance_of none (gives a) = (gives a, some a)
instance_of none (sql_error msg) = (sql_error msg, none)
instance_of none (throws e) = (throws e, none)

-- The same with a constructor that does not throw.
unfoldable pub instance_or : {A : Type 0} → Option A → A → A
instance_or (some a) built = a
instance_or none built = built

abbrev pub with_connection : ℕ → Attempt (Unit {0}) → Attempt Database
with_connection threads (gives u) = gives (record { connection = threads })
with_connection threads (sql_error msg) = sql_error msg
with_connection threads (throws e) = throws e

-- Database::Database
unfoldable pub new_database : System → Bytes → (ConnectArgs → Attempt (Unit {0})) → Attempt Database
unfolding connect_args
new_database sys data_dir client =
    with_connection connection_threads (connecting sys data_dir client)

module _ {J : Type 0} where
  abbrev pub no_singletons : Singletons J
  no_singletons = record { database = none; objects = none; templates = none; jobs = none }

  -- Database::instance
  unfoldable pub database_instance :
      Attempt Database → Singletons J → Attempt Database × Singletons J
  unfolding instance_of
  database_instance built s =
      let r = instance_of s.database built in (r.0, record s { database = r.1 })

  -- db
  abbrev pub db : Attempt Database → Singletons J → Attempt Database × Singletons J
  db built s = database_instance built s

  -- HttpObjectList::instance
  unfoldable pub objects_instance : Singletons J → HttpObjectList × Singletons J
  unfolding instance_or
  objects_instance s =
      let l = instance_or s.objects new_object_list in (l, record s { objects = some l })

  -- TemplateList::instance
  unfoldable pub templates_instance : Singletons J → Templates × Singletons J
  unfolding instance_or
  templates_instance s = let l = instance_or s.templates [] in (l, record s { templates = some l })

  -- JobQueue::instance
  unfoldable pub jobs_instance : Singletons J → JobQueue J × Singletons J
  unfolding instance_or
  jobs_instance s = let q = instance_or s.jobs new_queue in (q, record s { jobs = some q })

  -- A second call of Database::instance behind a first one.
  data CalledTwice (second : Attempt Database) (s : Singletons J)
      : Attempt Database × Singletons J → Type 0 where
    connected :
        (d : Database) (s' : Singletons J)
        → database_instance second s' ≡ (gives d, s')
        → CalledTwice second s (gives d, s')
    refused :
        (msg : Bytes) (s' : Singletons J)
        → s.database ≡ none
        → s' ≡ s
        → CalledTwice second s (sql_error msg, s')
    failed :
        (e : Exception) (s' : Singletons J)
        → s.database ≡ none
        → s' ≡ s
        → CalledTwice second s (throws e, s')

  -- A call of Database::instance gives the database, and then each later call gives the same one and
  -- changes nothing, whatever connecting would give it; or the call throws, and leaves the four
  -- statics as they were, with no database.
  database_instance-CalledTwice :
      (first second : Attempt Database) (s : Singletons J)
      → CalledTwice second s (database_instance first s)
  unfolding database_instance instance_of
  database_instance-CalledTwice first second s = by_static s.database first refl
    where
      by_static :
          (o : Option Database) (r : Attempt Database)
          → s.database ≡ o
          → CalledTwice second s ((instance_of o r).0, record s { database = (instance_of o r).1 })
      by_static (some d) r h = connected d _ refl
      by_static none (gives d) h = connected d _ refl
      by_static none (sql_error msg) h =
          refused msg _ h (ap (λ o. record s { database = o }) (sym h))
      by_static none (throws e) h = failed e _ h (ap (λ o. record s { database = o }) (sym h))
