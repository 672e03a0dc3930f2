-- ===== src/Tests/Requests.antt =====
-- Runs of the server with one request and with two.
use simurga.Base.{◌↔◌, ◌≡◌, refl, false, none, some, [], ◌∷◌, ◌++◌, Bytes, codes}
use simurga.Daemon.{Request, response, serve, run_job}
use simurga.Database.{gives, sql_error}
use simurga.Dict.{lookup}
use simurga.Jobs.Waiting.Client.{waiting_queue}
use simurga.Jobs.Waiting.Moving.{call_or_wait}
use simurga.Jobs.Waiting.Sound.{step, halted_of}
use simurga.Jobs.Waiting.{add_and_notify, run_or_wait}
use simurga.Jobs.{new_queue, add, run_step}
use simurga.Pages.World.{World}
use simurga.Server.Answering.{Reach-Answered}
use simurga.Server.Ordering.{queued_in, answered_in, line, Reach-in_order}
use simurga.Server.Runs.{Run}
use simurga.Server.Safety.{HasObject, Uses, by_job}
use simurga.Server.Removal.Validity.{Watch-HasObject_iff}
use simurga.Server.Removal.{Watched, Watch, begins, goes_on, steps, removes}
use simurga.Server.Refinement.{Reach-serve}
use simurga.Server.{
  Call, active, sent, Server, accepts, works, delivers, disturbs, Reach, here, next, accept, work,
  deliver,
}
use simurga.Service.Routes.{standard_objects, allocate}
use simurga.Service.{Environment, get_method}
use simurga.Template.{nil}
use simurga.Text.{equal, find, find_first_if, find_last_if}

abbrev same : Bytes → Bytes
same s = s

abbrev pub world : World
world = record {
  sys = record { file = λ name. none; blocks = λ name. []; dir = λ name. none };
  templates = (codes "main", nil) ∷ [];
  data_dir = codes "/srv";
  model_rows = λ text params round. record { added = []; outcome = gives tt };
  collection_rows = λ text round. record { added = []; outcome = sql_error (codes "gone away") };
  client = λ round args. gives tt;
}

abbrev pub request : Environment
request = record {
  request_method = get_method;
  request_uri = codes "/model/7-red";
  root = codes "/www";
}

abbrev On : Server (waiting_queue Call) → Type 0
On s = Reach (waiting_queue Call) same standard_objects world s

-- Accepted, and not handled yet.
waiting_run :
    (s : Server (waiting_queue Call)) × On s
    × (halted_of s.jobs ≡ false)
    × (q : Request) × (s.slots 0 ≡ some (active request q))
unfolding accept response allocate lookup standard_objects equal find find_last_if find_first_if
    add_and_notify add new_queue run_job
waiting_run = (_, next here (accepts 0 request refl), refl, _, refl)

Reach-Answered_example :
    (s' : Server (waiting_queue Call)) × Run
      (waiting_queue Call)
      same
      standard_objects
      world
      waiting_run.0
      s'
    × (s'.slots 0 ≡ some (sent request (serve same standard_objects world request).1.out))
Reach-Answered_example =
    Reach-Answered (waiting_queue Call) same standard_objects world 0 waiting_run.1 waiting_run.2
      waiting_run.4

-- The thread has taken the batch, and the job comes next.
handling_run :
    (s : Server (waiting_queue Call)) × On s
    × Uses (waiting_queue Call) same standard_objects world s 0
unfolding accept work step call_or_wait run_or_wait add_and_notify response allocate lookup
    standard_objects equal find find_last_if find_first_if add new_queue run_job run_step
handling_run = (_, next (next here (accepts 0 request refl)) (works refl), by_job _ refl)

-- The same, and the manager removes the request before its job is called.
removed_run :
    (x : Watched (waiting_queue Call) same standard_objects world) × Watch
      (waiting_queue Call)
      same
      standard_objects
      world
      x
    × Uses (waiting_queue Call) same standard_objects world x.server 0
unfolding accept work step call_or_wait run_or_wait add_and_notify response allocate lookup
    standard_objects equal find find_last_if find_first_if add new_queue run_job run_step
removed_run = (
  _,
  goes_on (goes_on (goes_on begins (steps (accepts 0 request refl))) (steps (works refl)))
      (removes 0 request _ [] refl),
  by_job _ refl,
)

Watch-HasObject_example : HasObject (removed_run.0.server.slots 0) ↔ (removed_run.0.gone 0 ≡ false)
Watch-HasObject_example =
    Watch-HasObject_iff (waiting_queue Call) same standard_objects world removed_run.1 removed_run.2

-- The thread has gone to sleep and is woken by the request, which is handled and answered.
answered_run :
    (s : Server (waiting_queue Call)) × On s × (out : Bytes) × (s.slots 0 ≡ some (sent request out))
unfolding accept work deliver step call_or_wait run_or_wait add_and_notify response allocate lookup
    standard_objects equal find find_last_if find_first_if add new_queue run_job run_step
answered_run = (
  _,
  next
      (next
        (next
          (next (next (next (next here (works refl)) disturbs) (accepts 0 request refl))
            (works refl))
          (works refl))
        (works refl))
      (delivers refl),
  _,
  refl,
)

Reach-serve_example : answered_run.2 ≡ (serve same standard_objects world request).1.out
Reach-serve_example =
    Reach-serve (waiting_queue Call) same standard_objects world 0 answered_run.1 answered_run.3

-- Two requests; the first is answered before the thread gets to the second.
two_run : (s : Server (waiting_queue Call)) × On s
unfolding accept work deliver step call_or_wait run_or_wait add_and_notify response allocate lookup
    standard_objects equal find find_last_if find_first_if add new_queue run_job run_step
two_run = (
  _,
  next
      (next
        (next
          (next (next (next here (accepts 7 request refl)) (accepts 3 request refl)) (works refl))
          (works refl))
        (works refl))
      (delivers refl),
)

Reach-in_order_example :
    queued_in (waiting_queue Call) same standard_objects world two_run.1
    ≡ answered_in (waiting_queue Call) same standard_objects world two_run.1
      ++ line (waiting_queue Call) same standard_objects world two_run.0
Reach-in_order_example = Reach-in_order (waiting_queue Call) same standard_objects world two_run.1
