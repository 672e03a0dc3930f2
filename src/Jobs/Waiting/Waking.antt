-- ===== src/Jobs/Waiting/Waking.antt =====
-- No wake-up of the thread of `run` (src/jobqueue.cpp) is lost.
use mathlib.Core.Path.{subst}
use simurga.Base.{
  ◌≡◌, refl, ap, ◌∙◌, not, ◌&&◌, Bool, true, false, Option, none, some, List, [], ◌∷◌, ◌⊎◌, inl,
  inr, is_empty,
}
use simurga.Jobs.Order as Order
use simurga.Jobs.Waiting.{
  Waiting, must_wait, stepped, wait_or_step, run_or_wait, add_and_notify, stop_and_notify, Reach,
  start, adding, stopping, waking, stepping,
}
use simurga.Jobs.{
  JobPair, Phase, waiting, running, completing, exited, JobQueue, take_batch, step_in, run_step,
}

module _ {J : Type 0} where
  take_batch-none :
      (b : Bool) (l : List (JobPair J)) (q : JobQueue J)
      → (not b && is_empty l) ≡ true
      → take_batch b l q ≡ none
  take_batch-none true l q h = cc
  take_batch-none false [] q h = refl
  take_batch-none false (x ∷ l) q h = cc

  step_in-none :
      (p : Phase J) (q : JobQueue J) → must_wait p q.stop q.queue ≡ true → step_in p q ≡ none
  step_in-none waiting q h = take_batch-none q.stop q.queue q h
  step_in-none (running jobs) q h = cc
  step_in-none (completing c jobs) q h = cc
  step_in-none exited q h = cc

  take_batch-some :
      (b : Bool) (l : List (JobPair J)) (q : JobQueue J)
      → (not b && is_empty l) ≡ false
      → (q' : JobQueue J) × (take_batch b l q ≡ some q')
  take_batch-some true l q h = (_, refl)
  take_batch-some false [] q h = cc
  take_batch-some false (x ∷ l) q h = (_, refl)

  step_in-some :
      (p : Phase J) (q : JobQueue J)
      → must_wait p q.stop q.queue ≡ false
      → (p ≡ exited) ⊎ ((q' : JobQueue J) × (step_in p q ≡ some q'))
  step_in-some waiting q h = inr (take_batch-some q.stop q.queue q h)
  step_in-some (running []) q h = inr (_, refl)
  step_in-some (running (x ∷ jobs)) q h = inr (_, refl)
  step_in-some (completing c jobs) q h = inr (_, refl)
  step_in-some exited q h = inl refl

  -- The thread sleeps with nothing to do, has left the loop, or has a step to make.
  pub data Awake (xs : List (JobPair J)) (s : Waiting J) : Type 0 where
    sleeps : s.asleep ≡ true → Order.Reach xs s.jobs → run_step s.jobs ≡ none → Awake xs s
    left : s.asleep ≡ false → Order.Reach xs s.jobs → s.jobs.phase ≡ exited → Awake xs s
    goes_on :
        (s' : Waiting J)
        → s.asleep ≡ false
        → Order.Reach xs s.jobs
        → run_or_wait s ≡ some s'
        → Awake xs s

  -- A thread that is not asleep.
  awake :
      (b : Bool) {xs : List (JobPair J)} (q : JobQueue J)
      → must_wait q.phase q.stop q.queue ≡ b
      → Order.Reach xs q
      → Awake xs (record { jobs = q; asleep = false })
  unfolding run_or_wait run_step
  awake true q e r = goes_on _ refl r (ap (λ b. wait_or_step false b q) e)
  awake false q e r = elim (step_in-some q.phase q e) [
    | inl x ↦ left refl r x
    | inr (q', x) ↦ goes_on _ refl r (ap (λ b. wait_or_step false b q) e ∙ ap stepped x)
  ]

  jobs-Reach : {xs : List (JobPair J)} {s : Waiting J} → Awake xs s → Order.Reach xs s.jobs
  jobs-Reach (sleeps a r x) = r
  jobs-Reach (left a r x) = r
  jobs-Reach (goes_on s' a r x) = r

  some-eq : (a b : Waiting J) → ◌≡◌ {A = Option (Waiting J)} (some a) (some b) → a ≡ b
  some-eq a b h = cc

  stepped-Awake :
      (o : Option (JobQueue J)) {xs : List (JobPair J)} {s' : Waiting J} (q : JobQueue J)
      → Order.Reach xs q
      → run_step q ≡ o
      → stepped o ≡ some s'
      → Awake xs s'
  stepped-Awake none q r e h = cc
  stepped-Awake (some q') {xs} q r e h =
      subst (Awake xs) (some-eq _ _ h) (awake _ q' refl (Order.stepping r e))

  wait_or_step-Awake :
      (a b : Bool) {xs : List (JobPair J)} {s' : Waiting J} (q : JobQueue J)
      → must_wait q.phase q.stop q.queue ≡ b
      → Order.Reach xs q
      → wait_or_step a b q ≡ some s'
      → Awake xs s'
  unfolding run_step
  wait_or_step-Awake true b q e r h = cc
  wait_or_step-Awake false true {xs} q e r h =
      subst (Awake xs) (some-eq _ _ h) (sleeps refl r (step_in-none q.phase q e))
  wait_or_step-Awake false false q e r h = stepped-Awake (run_step q) q r refl h

  -- With the condition variable, whose wait may also end without a reason, the queue goes only through
  -- states of the model without it; in each of them the thread is asleep and has nothing to do, has
  -- left the loop, or has a step to make, so no wake-up is lost.
  pub Reach-Awake : {xs : List (JobPair J)} {s : Waiting J} → Reach xs s → Awake xs s
  unfolding add_and_notify stop_and_notify run_or_wait
  Reach-Awake start = awake _ _ refl Order.start
  Reach-Awake (adding x r) = awake _ _ refl (Order.adding x (jobs-Reach (Reach-Awake r)))
  Reach-Awake (stopping r) = awake _ _ refl (Order.stopping (jobs-Reach (Reach-Awake r)))
  Reach-Awake (waking r) = awake _ _ refl (jobs-Reach (Reach-Awake r))
  Reach-Awake (stepping {xs} {s} r h) =
      wait_or_step-Awake s.asleep _ s.jobs refl (jobs-Reach (Reach-Awake r)) h
