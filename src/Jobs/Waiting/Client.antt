-- ===== src/Jobs/Waiting/Client.antt =====
-- `JobQueue` of src/jobqueue.cpp with its condition variable behind the interface for its clients.
use simurga.Base.{
  ◌≡◌, ◌≢◌, refl, ap, ◌∙◌, false, Option, none, some, [], ◌∷◌, ◌++◌, Bool-cases, inl, inr,
}
use simurga.Jobs.Interface.{CallQueue}
use simurga.Jobs.Pending.{
  pending, is_halted, call_in, called, call_step, call_step-live, pending-add, pending-new_queue,
  pending-request_stop,
}
use simurga.Jobs.Waiting.Moving.{has_to_wait, call_or_wait, with_call, has_to_wait-pending}
use simurga.Jobs.Waiting.{
  Waiting, new_waiting, wake, add_and_notify, stop_and_notify, wait_or_step, stepped,
}
use simurga.Jobs.{JobQueue, run_step}
use simurga.Jobs.Waiting.Sound.{
  IsSound, Sound, seal, step-IsSound, step, pending_of, patience_of, halted_of, step-rest,
  step-call, step-patience, step-halted,
}

module _ {J : Type 0} where
  called-some :
      (c : Option J) (o : Option (JobQueue J)) (r : Option J × JobQueue J)
      → called c o ≡ some r
      → (q : JobQueue J) × (o ≡ some q)
  called-some c none r h = cc
  called-some c (some q) r h = (q, refl)

  seal-some :
      (r : Option (Option J × Waiting J))
      (k : (c : Option J) (s' : Waiting J) → r ≡ some (c, s') → IsSound s')
      (x : Option J × Waiting J)
      → r ≡ some x
      → (t : Option J × Sound J) × (seal r k ≡ some t)
  seal-some none k x h = cc
  seal-some (some (c, s')) k x h = (_, refl)

  -- A thread that is awake and has calls to make.
  awake-live :
      (s : Waiting J)
      → s.asleep ≡ false
      → has_to_wait s.jobs ≡ false
      → is_halted s.jobs ≡ false
      → pending s.jobs ≢ []
      → (x : Option J × Waiting J) × (call_or_wait s ≡ some x)
  unfolding call_or_wait call_step
  awake-live s a b n ne =
      let (r, e) = call_step-live s.jobs n ne in
      let (q, f) = called-some (call_in s.jobs.phase) (run_step s.jobs) r e in
      (
        (call_in s.jobs.phase, record { jobs = q; asleep = false }),
        ap (λ x. with_call (call_in s.jobs.phase) (wait_or_step x (has_to_wait s.jobs) s.jobs)) a
            ∙ ap (λ x. with_call (call_in s.jobs.phase) (wait_or_step false x s.jobs)) b
            ∙ ap (λ o. with_call (call_in s.jobs.phase) (stepped o)) f,
      )

  pub step_live :
      (t : Sound J)
      → halted_of t ≡ false
      → pending_of t ≢ []
      → (r : Option J × Sound J) × (step t ≡ some r)
  unfolding step
  step_live (s, p) n ne = elim (Bool-cases (has_to_wait s.jobs)) [
    | inl w ↦ absurd (ne (has_to_wait-pending s.jobs w))
    | inr b ↦ elim (Bool-cases s.asleep) [
      | inl a ↦ absurd (ne (has_to_wait-pending s.jobs (p a)))
      | inr a ↦
          let (x, e) = awake-live s a b n ne in seal-some (call_or_wait s) (step-IsSound s) x e
    ]
  ]

  -- The operations keep the soundness, since they wake the thread.
  pub wake-IsSound : (s : Waiting J) → IsSound (wake s)
  wake-IsSound s h = cc

  abbrev pub woken : Waiting J → Sound J
  woken s = (wake s, wake-IsSound s)

  pub add-IsSound : (a b : J) (s : Waiting J) → IsSound (add_and_notify a b s)
  unfolding add_and_notify
  add-IsSound a b s h = cc

  pub stop-IsSound : (s : Waiting J) → IsSound (stop_and_notify s)
  unfolding stop_and_notify
  stop-IsSound s h = cc

  pub pending-add_and_notify :
      (a b : J) (s : Waiting J)
      → pending (add_and_notify a b s).jobs ≡ pending s.jobs ++ (a ∷ b ∷ [])
  unfolding add_and_notify
  pending-add_and_notify a b s = pending-add a b s.jobs

  pub pending-stop_and_notify : (s : Waiting J) → pending (stop_and_notify s).jobs ≡ pending s.jobs
  unfolding stop_and_notify
  pending-stop_and_notify s = pending-request_stop s.jobs

-- The queue with its condition variable keeps to the interface, wake-ups without a reason included.
abbrev pub waiting_queue : (C : Type 0) → CallQueue C
waiting_queue C = record {
  State = Sound C;
  pending = pending_of;
  halted = halted_of;
  empty = woken new_waiting;
  push = λ a b t. (add_and_notify a b t.0, add-IsSound a b t.0);
  halt = λ t. (stop_and_notify t.0, stop-IsSound t.0);
  step = step;
  disturb = λ t. woken t.0;
  pending-empty = pending-new_queue;
  pending-push = λ a b t. pending-add_and_notify a b t.0;
  pending-halt = λ t. pending-stop_and_notify t.0;
  pending-disturb = λ t. refl;
  pending-rest = step-rest;
  pending-call = step-call;
  step_live = step_live;
  patience = patience_of;
  patience-rest = step-patience;
  halted-step = step-halted;
}
