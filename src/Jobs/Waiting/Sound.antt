-- ===== src/Jobs/Waiting/Sound.antt =====
-- The states of the queue of src/jobqueue.cpp with its condition variable in which no sleeping thread
-- has something to do, and its steps among them.
use simurga.Base.{
  ℕ, ◌<◌, ◌≡◌, refl, sym, ap, ◌∙◌, Bool, true, false, Option, none, some, List, ◌∷◌, arith,
}
use simurga.Jobs.Patience.{patience_in, patience, call_step-patience, call_step-halted}
use simurga.Jobs.Pending.{pending, is_halted, call_step-rest, call_step-call}
use simurga.Jobs.Waiting.Moving.{has_to_wait, call_or_wait, Moves, waits, steps, call_or_wait-Moves}
use simurga.Jobs.Waiting.{Waiting, must_wait}
use simurga.Jobs.{JobPair, Phase, waiting, running, completing, exited, JobQueue}

module _ {J : Type 0} where
  -- A thread that sleeps has to wait.
  abbrev pub IsSound : Waiting J → Type 0
  IsSound s = s.asleep ≡ true → has_to_wait s.jobs ≡ true

abbrev pub Sound : Type 0 → Type 0
Sound J = (s : Waiting J) × IsSound s

module _ {J : Type 0} where
  Moves-IsSound : (q : JobQueue J) (c : Option J) (s' : Waiting J) → Moves q c s' → IsSound s'
  Moves-IsSound q c s' (waits e x y) = λ h. ap (λ (s : Waiting J). has_to_wait s.jobs) y ∙ e
  Moves-IsSound q c s' (steps e a) = λ h. cc

  -- A step with the soundness of the state behind it.
  abbrev pub seal :
      (r : Option (Option J × Waiting J))
      → ((c : Option J) (s' : Waiting J) → r ≡ some (c, s') → IsSound s')
      → Option (Option J × Sound J)
  seal none k = none
  seal (some (c, s')) k = some (c, (s', k c s' refl))

  abbrev pub unseal : Option (Option J × Sound J) → Option (Option J × Waiting J)
  unseal none = none
  unseal (some (c, t)) = some (c, t.0)

  unseal-seal :
      (r : Option (Option J × Waiting J))
      (k : (c : Option J) (s' : Waiting J) → r ≡ some (c, s') → IsSound s')
      → unseal (seal r k) ≡ r
  unseal-seal none k = refl
  unseal-seal (some (c, s')) k = refl

  pub step-IsSound :
      (s : Waiting J) (c : Option J) (s' : Waiting J) → call_or_wait s ≡ some (c, s') → IsSound s'
  step-IsSound s c s' h = Moves-IsSound s.jobs c s' (call_or_wait-Moves s c s' h).1

  unfoldable pub step : Sound J → Option (Option J × Sound J)
  step (s, p) = seal (call_or_wait s) (step-IsSound s)

  step-Moves :
      (t t' : Sound J) (c : Option J)
      → step t ≡ some (c, t')
      → (t.0.asleep ≡ false) × Moves t.0.jobs c t'.0
  unfolding step
  step-Moves (s, p) t' c h =
      call_or_wait-Moves s c t'.0
        (sym (unseal-seal (call_or_wait s) (step-IsSound s)) ∙ ap unseal h)

  abbrev pub pending_of : Sound J → List J
  pending_of t = pending t.0.jobs

  pub step-rest : (t t' : Sound J) → step t ≡ some (none, t') → pending_of t' ≡ pending_of t
  step-rest t t' h = elim (step-Moves t t' none h).1 [
    | waits e x y ↦ ap (λ (s : Waiting J). pending s.jobs) y
    | steps e a ↦ call_step-rest t.0.jobs t'.0.jobs e
  ]

  pub step-call :
      (t t' : Sound J) (c : J) → step t ≡ some (some c, t') → pending_of t ≡ c ∷ pending_of t'
  step-call t t' c h = elim (step-Moves t t' (some c) h).1 [
    | waits e x y ↦ cc
    | steps e a ↦ call_step-call t.0.jobs t'.0.jobs c e
  ]

  -- No more steps without a call for a thread that sleeps.
  abbrev pub patience_if : Bool → JobQueue J → ℕ
  patience_if true q = 0
  patience_if false q = patience q

  abbrev pub patience_of : Sound J → ℕ
  patience_of t = patience_if t.0.asleep t.0.jobs

  patience_waiting :
      (p : Phase J) (b : Bool) (l : List (JobPair J)) → must_wait p b l ≡ true → patience_in p ≡ 1
  patience_waiting waiting b l h = refl
  patience_waiting (running jobs) b l h = cc
  patience_waiting (completing c jobs) b l h = cc
  patience_waiting exited b l h = cc

  pub step-patience : (t t' : Sound J) → step t ≡ some (none, t') → patience_of t' < patience_of t
  step-patience t t' h =
      let (awake, moves) = step-Moves t t' none h in
      let before = ap (λ b. patience_if b t.0.jobs) awake in
      elim moves [
        | waits e x y ↦ omega (
          arith,
          before,
          patience_waiting t.0.jobs.phase t.0.jobs.stop t.0.jobs.queue e,
          ap (λ (s : Waiting J). patience_if s.asleep s.jobs) y,
        )
        | steps e a ↦ omega (
          arith,
          before,
          ap (λ b. patience_if b t'.0.jobs) a,
          call_step-patience t.0.jobs t'.0.jobs e,
        )
      ]

  abbrev pub halted_of : Sound J → Bool
  halted_of t = is_halted t.0.jobs

  pub step-halted :
      (t t' : Sound J) (c : Option J)
      → step t ≡ some (c, t')
      → halted_of t ≡ false
      → halted_of t' ≡ false
  step-halted t t' c h n = elim (step-Moves t t' c h).1 [
    | waits e x y ↦ ap (λ (s : Waiting J). is_halted s.jobs) y ∙ n
    | steps e a ↦ call_step-halted t.0.jobs t'.0.jobs c e n
  ]
