-- ===== src/Jobs/Patience.antt =====
-- `run` of src/jobqueue.cpp goes on: it makes a call after two steps at most, and it does not leave the
-- loop by itself.
use mathlib.Core.Path.{subst}
use simurga.Base.{
  ℕ, ◌<◌, ◌≡◌, refl, Bool, true, false, ◌||◌, Option, none, some, List, [], ◌∷◌, ◌++◌, arith,
}
use simurga.Jobs.Pending.{has_exited, is_halted, call_in, called, call_step, pair-eq, or-eq-false}
use simurga.Jobs.{
  JobPair, Phase, waiting, running, completing, exited, JobQueue, take_batch, step_in,
}

module _ {J : Type 0} where
  -- The steps without a call that can follow, by where the thread is.
  abbrev pub patience_in : Phase J → ℕ
  patience_in waiting = 1
  patience_in (running []) = 2
  patience_in _ = 0

  abbrev pub patience : JobQueue J → ℕ
  patience q = patience_in q.phase

  take_batch-patience :
      (b : Bool) (jobs : List (JobPair J)) (q q' : JobQueue J)
      → called none (take_batch b jobs q) ≡ some (none, q')
      → patience q' < 1
  take_batch-patience true jobs q q' h =
      subst (λ r. patience r < 1) (pair-eq none none (record q { phase = exited }) q' h).1
        (omega arith)
  take_batch-patience false [] q q' h = cc
  take_batch-patience false (a ∷ jobs) q q' h =
      subst (λ r. patience r < 1)
        (pair-eq none none (record q { queue = []; phase = running (a ∷ jobs) }) q' h).1
        (omega arith)

  step_in-patience :
      (p : Phase J) (q q' : JobQueue J)
      → called (call_in p) (step_in p q) ≡ some (none, q')
      → patience q' < patience_in p
  step_in-patience waiting q q' h = take_batch-patience q.stop q.queue q q' h
  step_in-patience (running []) q q' h =
      subst (λ r. patience r < 2) (pair-eq none none (record q { phase = waiting }) q' h).1
        (omega arith)
  step_in-patience (running (a ∷ jobs)) q q' h = cc
  step_in-patience (completing a jobs) q q' h = cc
  step_in-patience exited q q' h = cc

  pub call_step-patience :
      (q q' : JobQueue J) → call_step q ≡ some (none, q') → patience q' < patience q
  unfolding call_step
  call_step-patience q q' h = step_in-patience q.phase q q' h

  -- A queue that is not told to stop is not halted where its thread is in the loop.
  in_loop :
      (q : JobQueue J) (p : Phase J)
      → q.stop ≡ false
      → has_exited p ≡ false
      → (q.stop || has_exited p) ≡ false
  in_loop q p e x = rw (e, x) refl

  take_batch-halted :
      (b : Bool) (jobs : List (JobPair J)) (q q' : JobQueue J) (c : Option J)
      → b ≡ false
      → q.stop ≡ false
      → called none (take_batch b jobs q) ≡ some (c, q')
      → is_halted q' ≡ false
  take_batch-halted true jobs q q' c e s h = cc
  take_batch-halted false [] q q' c e s h = cc
  take_batch-halted false (a ∷ jobs) q q' c e s h =
      subst (λ r. is_halted r ≡ false)
        (pair-eq none c (record q { queue = []; phase = running (a ∷ jobs) }) q' h).1
        (in_loop q (running (a ∷ jobs)) s refl)

  step_in-halted :
      (p : Phase J) (q q' : JobQueue J) (c : Option J)
      → q.stop ≡ false
      → called (call_in p) (step_in p q) ≡ some (c, q')
      → is_halted q' ≡ false
  step_in-halted waiting q q' c s h = take_batch-halted q.stop q.queue q q' c s s h
  step_in-halted (running []) q q' c s h =
      subst (λ r. is_halted r ≡ false) (pair-eq none c (record q { phase = waiting }) q' h).1
        (in_loop q waiting s refl)
  step_in-halted (running (a ∷ jobs)) q q' c s h =
      subst (λ r. is_halted r ≡ false)
        (pair-eq (some a.job) c
          (record q { phase = completing a.on_complete jobs; calls = q.calls ++ a.job ∷ [] }) q'
          h).1
        (in_loop q (completing a.on_complete jobs) s refl)
  step_in-halted (completing a jobs) q q' c s h =
      subst (λ r. is_halted r ≡ false)
        (pair-eq (some a) c (record q { phase = running jobs; calls = q.calls ++ a ∷ [] }) q' h).1
        (in_loop q (running jobs) s refl)
  step_in-halted exited q q' c s h = cc

  pub call_step-halted :
      (q q' : JobQueue J) (c : Option J)
      → call_step q ≡ some (c, q')
      → is_halted q ≡ false
      → is_halted q' ≡ false
  unfolding call_step
  call_step-halted q q' c h n =
      step_in-halted q.phase q q' c (or-eq-false q.stop (has_exited q.phase) n).0 h
