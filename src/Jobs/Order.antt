-- ===== src/Jobs/Order.antt =====
-- The calls that `run` of src/jobqueue.cpp makes, against the calls of `add`.
use simurga.Base.{
  ◌≡◌, refl, sym, ap, ◌∙◌, Bool, true, false, some, List, [], ◌∷◌, ◌++◌, append_assoc, append-nil,
}
use simurga.Jobs.{
  JobPair, Phase, waiting, running, completing, exited, JobQueue, new_queue, add, request_stop,
  take_batch, step_in, run_step,
}

module _ {J : Type 0} where
  -- Each job with its completion handler straight after it.
  abbrev pub calls_of : List (JobPair J) → List J
  calls_of [] = []
  calls_of (x ∷ xs) = x.job ∷ x.on_complete ∷ calls_of xs

  -- What `run` is still to call for the items that it has taken.
  abbrev pub in_batch : Phase J → List J
  in_batch waiting = []
  in_batch (running jobs) = calls_of jobs
  in_batch (completing c jobs) = c ∷ calls_of jobs
  in_batch exited = []

  -- The states that any interleaving of the threads leads to, with all that was added, in order.
  pub data Reach : List (JobPair J) → JobQueue J → Type 0 where
    start : Reach [] new_queue
    adding :
        {xs : List (JobPair J)} {q : JobQueue J} (x : JobPair J)
        → Reach xs q
        → Reach (xs ++ x ∷ []) (add x.job x.on_complete q)
    stopping : {xs : List (JobPair J)} {q : JobQueue J} → Reach xs q → Reach xs (request_stop q)
    stepping :
        {xs : List (JobPair J)} {q q' : JobQueue J}
        → Reach xs q
        → run_step q ≡ some q'
        → Reach xs q'

  pub calls_of-append :
      (xs ys : List (JobPair J)) → calls_of (xs ++ ys) ≡ calls_of xs ++ calls_of ys
  calls_of-append [] ys = refl
  calls_of-append (x ∷ xs) ys = ap (λ l. x.job ∷ x.on_complete ∷ l) (calls_of-append xs ys)

  -- Calls made, calls to make for the items taken, and calls for the items in the queue.
  abbrev pub all_calls : JobQueue J → List J
  all_calls q = q.calls ++ (in_batch q.phase ++ calls_of q.queue)

  all_calls-add :
      (x : JobPair J) (q : JobQueue J)
      → all_calls (add x.job x.on_complete q) ≡ all_calls q ++ calls_of (x ∷ [])
  unfolding add
  all_calls-add x q = simp (calls_of-append, append_assoc)

  moved :
      (p : Phase J) (q : JobQueue J) {a q' : JobQueue J}
      → some a ≡ some q'
      → q.phase ≡ p
      → all_calls a ≡ q.calls ++ (in_batch p ++ calls_of q.queue)
      → all_calls q' ≡ all_calls q
  moved p q {a} {q'} h e k =
      let same : a ≡ q' = cc in
      ap all_calls (sym same) ∙ k ∙ ap (λ p'. q.calls ++ (in_batch p' ++ calls_of q.queue)) (sym e)

  take_batch-all_calls :
      (b : Bool) (jobs : List (JobPair J)) (q : JobQueue J) {q' : JobQueue J}
      → q.phase ≡ waiting
      → jobs ≡ q.queue
      → take_batch b jobs q ≡ some q'
      → all_calls q' ≡ all_calls q
  take_batch-all_calls true jobs q e j h = moved waiting q h e refl
  take_batch-all_calls false [] q e j h = cc
  take_batch-all_calls false (x ∷ jobs) q e j h =
      moved waiting q h e
        (ap (λ l. q.calls ++ l) (append-nil (calls_of (x ∷ jobs)) ∙ ap calls_of j))

  step_in-all_calls :
      (p : Phase J) (q : JobQueue J) {q' : JobQueue J}
      → q.phase ≡ p
      → step_in p q ≡ some q'
      → all_calls q' ≡ all_calls q
  step_in-all_calls waiting q e h = take_batch-all_calls q.stop q.queue q e refl h
  step_in-all_calls (running []) q e h = moved (running []) q h e refl
  step_in-all_calls (running (x ∷ jobs)) q e h =
      moved (running (x ∷ jobs)) q h e (append_assoc q.calls (x.job ∷ []) _)
  step_in-all_calls (completing c jobs) q e h =
      moved (completing c jobs) q h e (append_assoc q.calls (c ∷ []) _)
  step_in-all_calls exited q e h = cc

  -- In every state that any interleaving of add, stop and the steps of run reaches, the calls made,
  -- those left in the taken batch and those of the queue are the calls of all items added, each job
  -- with its completion handler straight after it, in the order of the calls of add.
  pub Reach-all_calls :
      {xs : List (JobPair J)} {q : JobQueue J} → Reach xs q → all_calls q ≡ calls_of xs
  unfolding new_queue request_stop run_step
  Reach-all_calls start = refl
  Reach-all_calls (adding {xs} {q} x r) =
      all_calls-add x q
      ∙ ap (λ l. l ++ calls_of (x ∷ [])) (Reach-all_calls r)
      ∙ sym (calls_of-append xs (x ∷ []))
  Reach-all_calls (stopping r) = Reach-all_calls r
  Reach-all_calls (stepping {q} r h) = step_in-all_calls q.phase q refl h ∙ Reach-all_calls r
