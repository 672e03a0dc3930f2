-- ===== src/Jobs/Pending.antt =====
-- The pending calls of `JobQueue` (src/jobqueue.cpp): those that `run` has still to make.
use simurga.Base.{
  ◌≡◌, ◌≢◌, refl, sym, ap, ◌∙◌, Bool, true, false, ◌||◌, Option, none, some, List, [], ◌∷◌, ◌++◌,
  append_assoc, append-nil,
}
use simurga.Jobs.Order.{calls_of, in_batch, calls_of-append}
use simurga.Jobs.{
  JobPair, Phase, waiting, running, completing, exited, JobQueue, new_queue, add, request_stop,
  take_batch, step_in, run_step,
}

pub or-eq-false : (a b : Bool) → (a || b) ≡ false → (a ≡ false) × (b ≡ false)
or-eq-false true b h = cc
or-eq-false false b h = (refl, h)

module _ {J : Type 0} where
  abbrev pub has_exited : Phase J → Bool
  has_exited exited = true
  has_exited _ = false

  abbrev pub is_halted : JobQueue J → Bool
  is_halted q = q.stop || has_exited q.phase

  abbrev pub pending : JobQueue J → List J
  pending q = in_batch q.phase ++ calls_of q.queue

  -- The call that a step makes, by where the thread is.
  abbrev pub call_in : Phase J → Option J
  call_in (running (x ∷ jobs)) = some x.job
  call_in (completing c jobs) = some c
  call_in _ = none

  abbrev pub called : Option J → Option (JobQueue J) → Option (Option J × JobQueue J)
  called c none = none
  called c (some q) = some (c, q)

  unfoldable pub call_step : JobQueue J → Option (Option J × JobQueue J)
  unfolding run_step
  call_step q = called (call_in q.phase) (run_step q)

  -- What a step does to the calls that are still to be made.
  data Step (q : JobQueue J) (c : Option J) (q' : JobQueue J) : Type 0 where
    rests : c ≡ none → pending q' ≡ pending q → Step q c q'
    makes : (a : J) → c ≡ some a → pending q ≡ a ∷ pending q' → Step q c q'

  pub pair-eq :
      (a b : Option J) (p q : JobQueue J)
      → ◌≡◌ {A = Option (Option J × JobQueue J)} (some (a, p)) (some (b, q))
      → (a ≡ b) × (p ≡ q)
  pair-eq a b p q h = (cc, cc)

  take_batch-Step :
      (b : Bool) (jobs : List (JobPair J)) (q : JobQueue J) (c : Option J) (q' : JobQueue J)
      → q.phase ≡ waiting
      → jobs ≡ q.queue
      → called none (take_batch b jobs q) ≡ some (c, q')
      → Step q c q'
  take_batch-Step true jobs q c q' e j h =
      let (x, y) = pair-eq none c (record q { phase = exited }) q' h in
      rests (sym x) (ap pending (sym y) ∙ ap (λ p. in_batch p ++ calls_of q.queue) (sym e))
  take_batch-Step false [] q c q' e j h = cc
  take_batch-Step false (a ∷ jobs) q c q' e j h =
      let (x, y) = pair-eq none c (record q { queue = []; phase = running (a ∷ jobs) }) q' h in
      rests (sym x) (
        ap pending (sym y)
        ∙ append-nil (calls_of (a ∷ jobs))
        ∙ ap calls_of j
        ∙ ap (λ p. in_batch p ++ calls_of q.queue) (sym e))

  step_in-Step :
      (p : Phase J) (q : JobQueue J) (c : Option J) (q' : JobQueue J)
      → q.phase ≡ p
      → called (call_in p) (step_in p q) ≡ some (c, q')
      → Step q c q'
  step_in-Step waiting q c q' e h = take_batch-Step q.stop q.queue q c q' e refl h
  step_in-Step (running []) q c q' e h =
      let (x, y) = pair-eq none c (record q { phase = waiting }) q' h in
      rests (sym x) (ap pending (sym y) ∙ ap (λ p. in_batch p ++ calls_of q.queue) (sym e))
  step_in-Step (running (a ∷ jobs)) q c q' e h =
      let (x, y) =
        pair-eq (some a.job) c
          (record q { phase = completing a.on_complete jobs; calls = q.calls ++ a.job ∷ [] }) q'
          h in
      makes a.job (sym x)
        (ap (λ p. in_batch p ++ calls_of q.queue) e ∙ ap (λ r. a.job ∷ pending r) y)
  step_in-Step (completing a jobs) q c q' e h =
      let (x, y) =
        pair-eq (some a) c (record q { phase = running jobs; calls = q.calls ++ a ∷ [] }) q' h in
      makes a (sym x) (ap (λ p. in_batch p ++ calls_of q.queue) e ∙ ap (λ r. a ∷ pending r) y)
  step_in-Step exited q c q' e h = cc

  call_step-Step : (q q' : JobQueue J) (c : Option J) → call_step q ≡ some (c, q') → Step q c q'
  unfolding call_step
  call_step-Step q q' c h = step_in-Step q.phase q c q' refl h

  pub call_step-rest : (q q' : JobQueue J) → call_step q ≡ some (none, q') → pending q' ≡ pending q
  call_step-rest q q' h = elim (call_step-Step q q' none h) [ rests x e ↦ e | makes a x e ↦ cc ]

  pub call_step-call :
      (q q' : JobQueue J) (c : J) → call_step q ≡ some (some c, q') → pending q ≡ c ∷ pending q'
  call_step-call q q' c h = elim (call_step-Step q q' (some c) h) [
    | rests x e ↦ cc
    | makes a x e ↦ cc
  ]

  pub pending-add : (a b : J) (q : JobQueue J) → pending (add a b q) ≡ pending q ++ (a ∷ b ∷ [])
  unfolding add
  pending-add a b q = simp (calls_of-append, append_assoc)

  take_batch-live :
      (b : Bool) (jobs : List (JobPair J)) (q : JobQueue J)
      → b ≡ false
      → jobs ≢ []
      → (r : Option J × JobQueue J) × (called none (take_batch b jobs q) ≡ some r)
  take_batch-live true jobs q e ne = cc
  take_batch-live false [] q e ne = absurd (ne refl)
  take_batch-live false (a ∷ jobs) q e ne = (_, refl)

  step_in-live :
      (p : Phase J) (q : JobQueue J)
      → q.phase ≡ p
      → is_halted q ≡ false
      → pending q ≢ []
      → (r : Option J × JobQueue J) × (called (call_in p) (step_in p q) ≡ some r)
  step_in-live waiting q e h ne =
      take_batch-live q.stop q.queue q (or-eq-false q.stop (has_exited q.phase) h).0
        λ l. ne (ap (λ p. in_batch p ++ calls_of q.queue) e ∙ ap calls_of l)
  step_in-live (running []) q e h ne = (_, refl)
  step_in-live (running (a ∷ jobs)) q e h ne = (_, refl)
  step_in-live (completing c jobs) q e h ne = (_, refl)
  step_in-live exited q e h ne =
      let x : has_exited q.phase ≡ false = (or-eq-false q.stop (has_exited q.phase) h).1 in
      let y : has_exited q.phase ≡ true = ap has_exited e in cc

  pub call_step-live :
      (q : JobQueue J)
      → is_halted q ≡ false
      → pending q ≢ []
      → (r : Option J × JobQueue J) × (call_step q ≡ some r)
  unfolding call_step
  call_step-live q h ne = step_in-live q.phase q refl h ne

pub pending-new_queue : {C : Type 0} → pending {J = C} new_queue ≡ []
unfolding new_queue
pending-new_queue = refl

pub pending-request_stop : {C : Type 0} (q : JobQueue C) → pending (request_stop q) ≡ pending q
unfolding request_stop
pending-request_stop q = refl
