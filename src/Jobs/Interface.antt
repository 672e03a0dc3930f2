-- ===== src/Jobs/Interface.antt =====
-- What a client of `JobQueue` (src/jobqueue.hpp) relies on: a first-in first-out list of the calls
-- that are still to be made, two for each `add`.
use simurga.Base.{ℕ, ◌<◌, ◌≡◌, ◌≢◌, Bool, false, Option, none, some, List, [], ◌∷◌, ◌++◌}

-- A queue of calls: a call is made by a step, and a step may also make none.
pub record CallQueue (C : Type 0) : Type 1 where
  pub State : Type 0
  pub pending : State → List C
  pub halted : State → Bool
  pub empty : State
  pub push : C → C → State → State
  pub halt : State → State
  pub step : State → Option (Option C × State)
  -- what the system may do to the queue between the steps
  pub disturb : State → State
  pub pending-empty : pending empty ≡ []
  pub pending-push : (a b : C) (s : State) → pending (push a b s) ≡ pending s ++ (a ∷ b ∷ [])
  pub pending-halt : (s : State) → pending (halt s) ≡ pending s
  pub pending-disturb : (s : State) → pending (disturb s) ≡ pending s
  pub pending-rest : (s s' : State) → step s ≡ some (none, s') → pending s' ≡ pending s
  pub pending-call :
      (s s' : State) (c : C) → step s ≡ some (some c, s') → pending s ≡ c ∷ pending s'
  pub step_live :
      (s : State) → halted s ≡ false → pending s ≢ [] → (r : Option C × State) × (step s ≡ some r)
  -- how many steps in a row may make no call
  pub patience : State → ℕ
  pub patience-rest : (s s' : State) → step s ≡ some (none, s') → patience s' < patience s
  pub halted-step :
      (s s' : State) (c : Option C) → step s ≡ some (c, s') → halted s ≡ false → halted s' ≡ false
