-- ===== src/Jobs.antt =====
-- `JobQueue` of src/jobqueue.hpp and src/jobqueue.cpp: the operations, and the loop of `run` as one
-- step at a time, which the calls of other threads may come between. The lock makes each step whole.
-- A job that throws a std::exception counts as one that returns, since `run` catches it; no job throws
-- anything else.
pub mod Order
pub mod Stopping
pub mod Interface
pub mod Pending
pub mod Patience
pub mod Client
pub mod Waiting
use simurga.Base.{
  ℕ, zero, suc, Bool, true, false, Option, none, some, List, [], ◌∷◌, ◌++◌, if◌then◌else◌,
}

-- A job and its completion handler.
pub record JobPair (J : Type 0) : Type 0 where
  pub job : J
  pub on_complete : J

-- Where the thread of `run` is: at the lock, in front of an item of `jobs`, between the two calls for
-- an item, or out of the loop.
pub data Phase (J : Type 0) : Type 0 where
  waiting : Phase J
  running : List (JobPair J) → Phase J
  completing : J → List (JobPair J) → Phase J
  exited : Phase J

pub record JobQueue (J : Type 0) : Type 0 where
  pub queue : List (JobPair J)
  pub stop : Bool
  pub phase : Phase J
  -- the calls that `run` has made, in their order
  pub calls : List J

module _ {J : Type 0} where
  unfoldable pub new_queue : JobQueue J
  new_queue = record { queue = []; stop = false; phase = waiting; calls = [] }

  -- add(job, on_complete)
  unfoldable pub add : J → J → JobQueue J → JobQueue J
  add job on_complete q = record q {
    queue = q.queue ++ record { job = job; on_complete = on_complete } ∷ [];
  }

  -- add(job), with doNothing
  unfoldable pub add_job : J → J → JobQueue J → JobQueue J
  unfolding add
  add_job do_nothing job q = add job do_nothing q

  -- stop()
  unfoldable pub request_stop : JobQueue J → JobQueue J
  request_stop q = record q { stop = true }

  -- The part of the loop under the lock; `none` while the thread has to wait.
  abbrev pub take_batch : Bool → List (JobPair J) → JobQueue J → Option (JobQueue J)
  take_batch true jobs q = some (record q { phase = exited })
  take_batch false [] q = none
  take_batch false (x ∷ jobs) q = some (record q { queue = []; phase = running (x ∷ jobs) })

  abbrev pub step_in : Phase J → JobQueue J → Option (JobQueue J)
  step_in waiting q = take_batch q.stop q.queue q
  step_in (running []) q = some (record q { phase = waiting })
  step_in (running (x ∷ jobs)) q =
      some (record q { phase = completing x.on_complete jobs; calls = q.calls ++ x.job ∷ [] })
  step_in (completing c jobs) q =
      some (record q { phase = running jobs; calls = q.calls ++ c ∷ [] })
  step_in exited q = none

  -- The next step of `run`.
  unfoldable pub run_step : JobQueue J → Option (JobQueue J)
  run_step q = step_in q.phase q

  -- `n` steps of `run` with no other thread between them, or as many as there are.
  unfoldable pub run_steps : ℕ → JobQueue J → JobQueue J
  unfolding run_step
  run_steps zero q = q
  run_steps (suc n) q = elim (run_step q) [ none ↦ q | some q' ↦ run_steps n q' ]

  -- The steps that a batch takes: two for each item and one to leave it.
  abbrev pub steps_for : List (JobPair J) → ℕ → ℕ
  steps_for [] n = suc n
  steps_for (x ∷ jobs) n = suc (suc (steps_for jobs n))

  abbrev pub steps_to_end : Phase J → ℕ
  steps_to_end waiting = 1
  steps_to_end (running jobs) = steps_for jobs 1
  steps_to_end (completing c jobs) = suc (steps_for jobs 1)
  steps_to_end exited = 0

  -- t.join(), after `stop`: the thread runs to its end.
  unfoldable pub join : JobQueue J → JobQueue J
  unfolding run_steps
  join q = run_steps (steps_to_end q.phase) q
