-- ===== src/Jobs/Waiting.antt =====
-- `JobQueue` of src/jobqueue.cpp with its condition variable: the thread of `run` may sleep in
-- `signal_.wait`, and `notify_all` of `add` and `stop` wakes it, as the system may without a reason.
pub mod Waking
pub mod Moving
pub mod Sound
pub mod Client
use simurga.Base.{
  not, Bool, true, false, ◌&&◌, ◌≡◌, Option, none, some, List, [], ◌∷◌, ◌++◌, is_empty,
}
use simurga.Jobs.{JobPair, Phase, waiting, JobQueue, new_queue, add, request_stop, run_step}

pub record Waiting (J : Type 0) : Type 0 where
  pub jobs : JobQueue J
  pub asleep : Bool

module _ {J : Type 0} where
  abbrev pub new_waiting : Waiting J
  new_waiting = record { jobs = new_queue; asleep = false }

  -- notify_all, and a wake-up without it
  abbrev pub wake : Waiting J → Waiting J
  wake s = record s { asleep = false }

  -- add(job, on_complete)
  unfoldable pub add_and_notify : J → J → Waiting J → Waiting J
  add_and_notify job on_complete s = wake (record s { jobs = add job on_complete s.jobs })

  -- stop()
  unfoldable pub stop_and_notify : Waiting J → Waiting J
  stop_and_notify s = wake (record s { jobs = request_stop s.jobs })

  -- The condition of the loop around `wait`, where the thread is at the lock.
  abbrev pub must_wait : Phase J → Bool → List (JobPair J) → Bool
  must_wait waiting stop queue = not stop && is_empty queue
  must_wait _ stop queue = false

  abbrev pub stepped : Option (JobQueue J) → Option (Waiting J)
  stepped none = none
  stepped (some q) = some (record { jobs = q; asleep = false })

  -- A step of a thread that is asleep or not, and that has to wait or not.
  abbrev pub wait_or_step : Bool → Bool → JobQueue J → Option (Waiting J)
  wait_or_step true b q = none
  wait_or_step false true q = some (record { jobs = q; asleep = true })
  wait_or_step false false q = stepped (run_step q)

  -- The next step of `run`.
  unfoldable pub run_or_wait : Waiting J → Option (Waiting J)
  run_or_wait s = wait_or_step s.asleep (must_wait s.jobs.phase s.jobs.stop s.jobs.queue) s.jobs

  -- The states that any interleaving of the threads leads to, with all that was added, in order.
  pub data Reach : List (JobPair J) → Waiting J → Type 0 where
    start : Reach [] new_waiting
    adding :
        {xs : List (JobPair J)} {s : Waiting J} (x : JobPair J)
        → Reach xs s
        → Reach (xs ++ x ∷ []) (add_and_notify x.job x.on_complete s)
    stopping : {xs : List (JobPair J)} {s : Waiting J} → Reach xs s → Reach xs (stop_and_notify s)
    waking : {xs : List (JobPair J)} {s : Waiting J} → Reach xs s → Reach xs (wake s)
    stepping :
        {xs : List (JobPair J)} {s s' : Waiting J}
        → Reach xs s
        → run_or_wait s ≡ some s'
        → Reach xs s'
