-- ===== src/Jobs/Waiting/Moving.antt =====
-- The steps of `run` (src/jobqueue.cpp) with its condition variable, by the calls that they make.
use simurga.Base.{
  ◌≡◌, refl, sym, ap, ◌∙◌, Bool, true, false, Option, none, some, List, [], ◌∷◌, ◌++◌,
}
use simurga.Jobs.Order.{calls_of, in_batch}
use simurga.Jobs.Pending.{pending, call_in, called, call_step}
use simurga.Jobs.Waiting.{Waiting, must_wait, stepped, wait_or_step, run_or_wait}
use simurga.Jobs.{JobPair, Phase, waiting, running, completing, exited, JobQueue, run_step}

module _ {J : Type 0} where
  abbrev pub has_to_wait : JobQueue J → Bool
  has_to_wait q = must_wait q.phase q.stop q.queue

  -- A step with the call that it makes.
  abbrev pub with_call : Option J → Option (Waiting J) → Option (Option J × Waiting J)
  with_call c none = none
  with_call c (some s) = some (c, s)

  unfoldable pub call_or_wait : Waiting J → Option (Option J × Waiting J)
  unfolding run_or_wait
  call_or_wait s = with_call (call_in s.jobs.phase) (run_or_wait s)

  -- What a step does: the thread goes to sleep, or makes a step of the queue.
  pub data Moves (q : JobQueue J) (c : Option J) (s' : Waiting J) : Type 0 where
    waits : has_to_wait q ≡ true → c ≡ none → s' ≡ record { jobs = q; asleep = true } → Moves q c s'
    steps : call_step q ≡ some (c, s'.jobs) → s'.asleep ≡ false → Moves q c s'

  no_call :
      (p : Phase J) (b : Bool) (l : List (JobPair J)) → must_wait p b l ≡ true → call_in p ≡ none
  no_call waiting b l h = refl
  no_call (running jobs) b l h = cc
  no_call (completing c jobs) b l h = cc
  no_call exited b l h = cc

  pair-eq :
      (a b : Option J) (s t : Waiting J)
      → ◌≡◌ {A = Option (Option J × Waiting J)} (some (a, s)) (some (b, t))
      → (a ≡ b) × (s ≡ t)
  pair-eq a b s t h = (cc, cc)

  stepped-Moves :
      (o : Option (JobQueue J)) (q : JobQueue J) (c : Option J) (s' : Waiting J)
      → called (call_in q.phase) o ≡ call_step q
      → with_call (call_in q.phase) (stepped o) ≡ some (c, s')
      → Moves q c s'
  stepped-Moves none q c s' e h = cc
  stepped-Moves (some q') q c s' e h =
      let (x, y) = pair-eq (call_in q.phase) c (record { jobs = q'; asleep = false }) s' h in
      steps (sym e ∙ ap (λ (r : Option J × Waiting J). some (r.0, r.1.jobs)) (λ i. (x i, y i)))
        (sym (ap (λ (s : Waiting J). s.asleep) y))

  wait_or_step-Moves :
      (a b : Bool) (q : JobQueue J) (c : Option J) (s' : Waiting J)
      → has_to_wait q ≡ b
      → with_call (call_in q.phase) (wait_or_step a b q) ≡ some (c, s')
      → (a ≡ false) × Moves q c s'
  unfolding call_step
  wait_or_step-Moves true b q c s' e h = cc
  wait_or_step-Moves false true q c s' e h =
      let (x, y) = pair-eq (call_in q.phase) c (record { jobs = q; asleep = true }) s' h in
      (refl, waits e (sym x ∙ no_call q.phase q.stop q.queue e) (sym y))
  wait_or_step-Moves false false q c s' e h = (refl, stepped-Moves (run_step q) q c s' refl h)

  pub call_or_wait-Moves :
      (s : Waiting J) (c : Option J) (s' : Waiting J)
      → call_or_wait s ≡ some (c, s')
      → (s.asleep ≡ false) × Moves s.jobs c s'
  unfolding call_or_wait
  call_or_wait-Moves s c s' h = wait_or_step-Moves s.asleep (has_to_wait s.jobs) s.jobs c s' refl h

  -- A thread that has to wait has nothing to call.
  pub has_to_wait-pending : (q : JobQueue J) → has_to_wait q ≡ true → pending q ≡ []
  has_to_wait-pending q h = in_phase q.phase q.stop q.queue h
    where
      in_phase :
          (p : Phase J) (b : Bool) (l : List (JobPair J))
          → must_wait p b l ≡ true
          → in_batch p ++ calls_of l ≡ []
      in_phase waiting b [] h = refl
      in_phase waiting true (x ∷ l) h = cc
      in_phase waiting false (x ∷ l) h = cc
      in_phase (running jobs) b l h = cc
      in_phase (completing c jobs) b l h = cc
      in_phase exited b l h = cc
