-- ===== src/Jobs/Stopping.antt =====
-- How `run` of src/jobqueue.cpp works off a batch, and what `stop` does to it.
use simurga.Base.{
  ℕ, suc, ◌≡◌, refl, ◌∙◌, true, false, List, [], ◌∷◌, ◌++◌, append_assoc, append-nil,
}
use simurga.Jobs.{
  JobPair, Phase, waiting, running, completing, exited, JobQueue, request_stop, run_steps,
  steps_for, steps_to_end, join,
}
use simurga.Jobs.Order.{calls_of, in_batch}

module _ {J : Type 0} where
  run_steps-running :
      (jobs : List (JobPair J)) (q : JobQueue J) (n : ℕ)
      → run_steps (steps_for jobs n) (record q { phase = running jobs })
        ≡ run_steps n (record q { phase = waiting; calls = q.calls ++ calls_of jobs })
  unfolding run_steps
  run_steps-running [] q n = rw append-nil
  run_steps-running (x ∷ jobs) q n =
      run_steps-running jobs (record q { calls = (q.calls ++ x.job ∷ []) ++ x.on_complete ∷ [] }) n
      ∙ simp append_assoc

  -- With no call of `stop` the thread takes all that is in the queue, calls each job and its handler in
  -- order, and is back at the lock with an empty queue.
  run_steps-drain :
      (x : JobPair J) (jobs : List (JobPair J)) (q : JobQueue J)
      → run_steps
          (suc (steps_for (x ∷ jobs) 0))
          (record q { queue = x ∷ jobs; stop = false; phase = waiting })
        ≡ record q {
          queue = [];
          stop = false;
          phase = waiting;
          calls = q.calls ++ calls_of (x ∷ jobs);
        }
  unfolding run_steps
  run_steps-drain x jobs q = run_steps-running (x ∷ jobs) (record q { queue = []; stop = false }) 0

  -- After `stop` the thread ends once it is through with the items that it has taken: it calls what is
  -- left of these, and nothing of the queue.
  run_steps-stop :
      (jobs : List (JobPair J)) (q : JobQueue J)
      → run_steps (steps_for jobs 1) (record q { stop = true; phase = running jobs })
        ≡ record q { stop = true; phase = exited; calls = q.calls ++ calls_of jobs }
  unfolding run_steps
  run_steps-stop jobs q = run_steps-running jobs (record q { stop = true }) 1

  join_from :
      (p : Phase J) (q : JobQueue J)
      → run_steps (steps_to_end p) (record q { stop = true; phase = p })
        ≡ record q { stop = true; phase = exited; calls = q.calls ++ in_batch p }
  unfolding run_steps
  join_from waiting q = rw append-nil refl
  join_from (running jobs) q = run_steps-stop jobs q
  join_from (completing c jobs) q =
      run_steps-stop jobs (record q { calls = q.calls ++ c ∷ [] }) ∙ simp append_assoc
  join_from exited q = rw append-nil refl

  -- Wherever the working thread is when stop is called, it ends by itself: it calls what is left of the
  -- items that it has taken, each handler behind its job, and leaves what is in the queue.
  pub join-request_stop :
      (q : JobQueue J)
      → join (request_stop q)
        ≡ record q { stop = true; phase = exited; calls = q.calls ++ in_batch q.phase }
  unfolding join request_stop
  join-request_stop q = join_from q.phase q
