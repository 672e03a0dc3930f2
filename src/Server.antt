-- ===== src/Server.antt =====
-- The requests of src/main.cpp and the job queue together: any number of requests share the one
-- working thread. The FastCGI manager is the environment: it calls `response` for a new request, and
-- again for each message that the completion handler of a request's job has sent it, in the order of
-- the messages. A request that is complete is taken out by it, and its output stays as what was sent.
pub mod Stages
pub mod Steps
pub mod Refinement
pub mod Runs
pub mod Safety
pub mod Removal
pub mod Ordering
pub mod Answering
use simurga.Base.{
  ℕ, ◌≡◌, Bool, true, false, Option, none, some, List, [], ◌∷◌, ◌++◌, ◌==◌, if◌then◌else◌, Bytes,
}
use simurga.Daemon.{Request, new_request, response, run_job}
use simurga.Jobs.Interface.{CallQueue}
use simurga.Pages.World.{World}
use simurga.Service.Routes.{ObjectTable}
use simurga.Service.{Environment}

-- The two functions that `response_start` binds for a request, by the request's number.
pub data Call : Type 0 where
  handle_call : ℕ → Call
  callback : ℕ → Call

-- A request that is not complete, with the environment it came with, or what was sent for one.
pub data Slot : Type 0 where
  active : Environment → Request → Slot
  sent : Environment → Bytes → Slot

module _ (f : CallQueue Call) where
  pub record Server : Type 0 where
    pub slots : ℕ → Option Slot
    pub jobs : f.State
    -- the messages to the manager, the oldest in front
    pub messages : List ℕ

  -- Before the first request.
  abbrev pub idle : Server
  idle = record { slots = λ i. none; jobs = f.empty; messages = [] }

abbrev pub put_slot : ℕ → Slot → (ℕ → Option Slot) → ℕ → Option Slot
put_slot i slot slots j = if i == j then some slot else slots j

module _ (f : CallQueue Call) (decode : Bytes → Bytes) (table : ObjectTable) (w : World) where
  -- What the manager does with a request after `response`.
  abbrev pub slot_after : Environment → Bool × Request → Slot
  slot_after env (true, q) = sent env q.out
  slot_after env (false, q) = active env q

  -- JobQueue::instance().add in `response_start`, if it comes so far
  abbrev pub jobs_after : ℕ → Bool × Request → f.State → f.State
  jobs_after i (true, q) jobs = jobs
  jobs_after i (false, q) jobs = f.push (handle_call i) (callback i) jobs

  abbrev pub placed : ℕ → Environment → Bool × Request → Server f → Server f
  placed i env r s = record s {
    slots = put_slot i (slot_after env r) s.slots;
    jobs = jobs_after i r s.jobs;
  }

  -- A new request.
  unfoldable pub accept : ℕ → Environment → Server f → Server f
  accept i env s = placed i env (response decode table w (new_request env)) s

  abbrev pub job_done : ℕ → Option Slot → (ℕ → Option Slot) → ℕ → Option Slot
  job_done i (some (active env q)) slots = put_slot i (active env (run_job decode table w q)) slots
  job_done i _ slots = slots

  -- What a call does.
  abbrev pub perform : Option Call → Server f → Server f
  perform none s = s
  perform (some (handle_call i)) s = record s { slots = job_done i (s.slots i) s.slots }
  perform (some (callback i)) s = record s { messages = s.messages ++ i ∷ [] }

  abbrev pub worked : Option (Option Call × f.State) → Server f → Option (Server f)
  worked none s = none
  worked (some (c, jobs)) s = some (perform c (record s { jobs = jobs }))

  -- A step of the working thread.
  unfoldable pub work : Server f → Option (Server f)
  work s = worked (f.step s.jobs) s

  -- A message for a request that is gone is dropped.
  abbrev pub answered : ℕ → Option Slot → Server f → Server f
  answered i (some (active env q)) s = record s {
    slots = put_slot i (slot_after env (response decode table w q)) s.slots;
  }
  answered i _ s = s

  abbrev pub delivered : List ℕ → Server f → Option (Server f)
  delivered [] s = none
  delivered (i ∷ ms) s = some (answered i (s.slots i) (record s { messages = ms }))

  -- The manager's next message.
  unfoldable pub deliver : Server f → Option (Server f)
  deliver s = delivered s.messages s

  -- What can happen next, in any order, where no request is removed before it is answered; the removals
  -- are in Removal.
  pub data Step (s : Server f) : Server f → Type 0 where
    accepts : (i : ℕ) (env : Environment) → s.slots i ≡ none → Step s (accept i env s)
    works : {s' : Server f} → work s ≡ some s' → Step s s'
    delivers : {s' : Server f} → deliver s ≡ some s' → Step s s'
    halts : Step s (record s { jobs = f.halt s.jobs })
    disturbs : Step s (record s { jobs = f.disturb s.jobs })

  pub data Reach : Server f → Type 0 where
    here : Reach (idle f)
    next : {s s' : Server f} → Reach s → Step s s' → Reach s'
