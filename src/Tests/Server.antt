-- ===== src/Tests/Server.antt =====
-- Runs of the request handling, of the job queue, and of the start of the program.
use simurga.Base.{
  if◌then◌else◌, ok, arith, ap, ◌≡◌, refl, true, none, some, [], ◌∷◌, ◌++◌, Bytes, codes,
}
use simurga.Daemon.Serving.{Served, serve-Served}
use simurga.Daemon.Singletons.{
  no_singletons, database_instance, instance_of, instance_or, templates_instance, new_database,
}
use simurga.Daemon.Socket.{Platform, get_env, socket_path, setup_socket}
use simurga.Daemon.Main.{returned, load_templates, main}
use simurga.Daemon.Ends.{fresh, Exited}
use simurga.Daemon.Startup.{SetUp, setup_socket-SetUp, main-Exited}
use simurga.Service.Escapes.{percent_escaped_to_real_bytes, decode-kept}
use simurga.Template.Store.{load}
use simurga.Daemon.{serve}
use simurga.Daemon.Headers.{Sent, serve-Sent}
use simurga.Daemon.Heads.{as_method, HeadOfGet, serve-head}
use simurga.Database.{gives, sql_error}
use simurga.Files.{System}
use simurga.Jobs.Order.{
  Reach, start, adding, stopping, stepping, all_calls, calls_of, Reach-all_calls,
}
use simurga.Jobs.Stopping.{join-request_stop}
use simurga.Jobs.{JobPair, JobQueue, running, exited, new_queue, add, request_stop, run_step, join}
use simurga.Pages.World.{World}
use simurga.Service.Object.{create, set_path, config_args}
use simurga.Service.Routes.{standard_objects, allocate}
use simurga.Service.Links.{model_object, allocate-id_of}
use simurga.Service.PageArguments.{get_variable-config_args}
use simurga.Pages.Ids.{IsColor, id_of}
use simurga.Pages.Model.{parse_id}
use simurga.Files.Config.{dir_config}
use simurga.Template.Arguments.{get_variable, first_of_two}
use simurga.Text.Decimal.{to_string}
use simurga.Service.Routing.{Found, allocate-Found}
use simurga.Service.{Environment, HttpObject, get_method, head_method, put_method, model, lookbook}
use simurga.Template.{nil}
use simurga.Text.{find, find_first_if, find_last_if, equal}
use simurga.Dict.{lookup}

abbrev disk : System
disk = record { file = λ name. none; blocks = λ name. []; dir = λ name. none }

abbrev world : World
world = record {
  sys = disk;
  templates = (codes "main", nil) ∷ [];
  data_dir = codes "/srv";
  model_rows = λ text params round. record { added = []; outcome = gives tt };
  collection_rows = λ text round. record { added = []; outcome = sql_error (codes "gone away") };
  client = λ round args. gives tt;
}

abbrev same : Bytes → Bytes
same s = s

abbrev request : Environment
request = record {
  request_method = get_method;
  request_uri = codes "/model/7-red/?x=1";
  root = codes "/www";
}

abbrev model_7 : HttpObject
model_7 = set_path (codes "/model" ++ (b'/' ∷ codes "7-red")) (create model request)

allocate-model : allocate same standard_objects request [] ≡ (some model_7, codes "7-red")
unfolding allocate standard_objects lookup equal find find_last_if find_first_if
allocate-model = refl

allocate_example :
    Found standard_objects request [] model_7 (allocate same standard_objects request []).1
allocate_example = allocate-Found same standard_objects request [] (ap (λ r. r.0) allocate-model)

abbrev put_object : HttpObject
put_object =
    create lookbook
      (record { request_method = put_method; request_uri = codes "/"; root = codes "/www" })

serve_example :
    ((serve same standard_objects world request).0 ≡ true)
    × Served same standard_objects world request (serve same standard_objects world request).1.out
serve_example = serve-Served same standard_objects world request

-- The URI of a link of the collection page.
abbrev link_request : Environment
link_request = record {
  request_method = get_method;
  request_uri = codes "/model/12-red";
  root = codes "/www";
}

red-IsColor : IsColor (codes "red")
red-IsColor = record { named = λ p. cc; plain = (refl, (refl, (refl, tt))) }

link_example :
    (allocate percent_escaped_to_real_bytes standard_objects link_request [] ≡ (
      some (
          model_object percent_escaped_to_real_bytes decode-kept link_request
            (id_of 12 (codes "red"))),
      id_of 12 (codes "red"),
    ))
    × (parse_id (id_of 12 (codes "red")) ≡ ok (12, codes "red"))
unfolding to_string
link_example =
    allocate-id_of percent_escaped_to_real_bytes decode-kept link_request 12 (codes "red")
      (omega arith) red-IsColor refl

config_args_example :
    get_variable
      (config_args (dir_config disk (codes "x")).entries (codes "<p>") (codes "/a"))
      none
      (codes "body")
    ≡ (if equal (codes "body") (codes "body")
        then codes "<p>"
        else first_of_two
            (lookup (codes "body") (dir_config disk (codes "x")).entries)
            (if equal (codes "base_uri") (codes "body") then codes "/a" ++ codes "/" else []))
config_args_example =
    get_variable-config_args disk (codes "x") (codes "<p>") (codes "/a") (codes "body")

serve-Sent_example : Sent get_method (serve same standard_objects world request).1.out
serve-Sent_example = serve-Sent same standard_objects world request

serve-head_example :
    HeadOfGet
      (serve same standard_objects world (as_method head_method request)).1
      (serve same standard_objects world (as_method get_method request)).1
serve-head_example = serve-head same standard_objects request world

-- Jobs named by texts.
abbrev job_a : JobPair Bytes
job_a = record { job = codes "a"; on_complete = codes "a done" }

abbrev job_b : JobPair Bytes
job_b = record { job = codes "b"; on_complete = codes "b done" }

-- A job that comes while another is taken.
abbrev later : JobQueue Bytes
later = record { queue = job_b ∷ []; stop = true; phase = running (job_a ∷ []); calls = [] }

later-Reach : Reach (job_a ∷ job_b ∷ []) later
unfolding new_queue add request_stop run_step
later-Reach = stopping (adding job_b (stepping (adding job_a start) refl))

Reach_example : all_calls later ≡ calls_of (job_a ∷ job_b ∷ [])
Reach_example = Reach-all_calls later-Reach

join_example :
    join (request_stop later)
    ≡ record later { stop = true; phase = exited; calls = [] ++ calls_of (job_a ∷ []) }
join_example = join-request_stop later

-- A system on which the socket cannot be bound.
abbrev taken : Platform Bytes
taken = record {
  build_prefix = none;
  sys = world.sys;
  getenv = λ key. none;
  client = λ args. gives tt;
  erno = 0;
  sun_path_size = 108;
  socket_error = none;
  bind_error = some (codes "Permission denied");
  listen_error = none;
  start_error = none;
  handler = λ q. gives (true, q);
}

-- A system on which nothing fails.
abbrev free : Platform Bytes
free = record taken { bind_error = none }

setup_socket_example :
    SetUp 108
      (codes "/tmp/s")
      (fresh 18 no_singletons)
      (setup_socket taken (codes "/tmp/s") (fresh 18 no_singletons))
setup_socket_example = setup_socket-SetUp taken (codes "/tmp/s") 18 no_singletons

free-exit : (main free (fresh 18 no_singletons)).0 ≡ returned 0
unfolding main database_instance instance_of setup_socket load_templates templates_instance
    instance_or socket_path get_env load new_database
free-exit = refl

main_example : Exited free 18 (main free (fresh 18 no_singletons))
main_example = main-Exited free 18
