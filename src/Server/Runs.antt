-- ===== src/Server/Runs.antt =====
-- What the working thread and the manager do with no new request (src/main.cpp, src/jobqueue.cpp), and
-- what stays of each request.
use simurga.Base.{
  ℕ, ◌≡◌, refl, sym, ap, ◌∙◌, Bool, true, false, Option, none, some, [], ◌==◌, ==_iff, Bytes,
  Bool-cases, inl, inr,
}
use simurga.Daemon.{Request}
use simurga.Jobs.Interface.{CallQueue}
use simurga.Pages.World.{World}
use simurga.Server.Steps.{Good}
use simurga.Server.{
  Call, handle_call, callback, Slot, active, sent, Server, put_slot, slot_after, job_done, perform,
  worked, work, answered, deliver,
}
use simurga.Service.Routes.{ObjectTable}
use simurga.Service.{Environment}

-- The environment that a request came with.
abbrev pub env_of : Option Slot → Option Environment
env_of none = none
env_of (some (active env q)) = some env
env_of (some (sent env out)) = some env

put_slot-env :
    (i j : ℕ) (x : Slot) (slots : ℕ → Option Slot)
    → env_of (some x) ≡ env_of (slots i)
    → env_of (put_slot i x slots j) ≡ env_of (slots j)
put_slot-env i j x slots h = elim (Bool-cases (i == j)) [
  | inl e ↦ rw e (h ∙ ap (λ k. env_of (slots k)) ((==_iff i j).0 e))
  | inr e ↦ rw e refl
]

module _ (f : CallQueue Call) (decode : Bytes → Bytes) (table : ObjectTable) (w : World) where
  -- Steps of the working thread and of the manager, with no new request and no stop.
  pub data Run : Server f → Server f → Type 0 where
    stays : {s : Server f} → Run s s
    then_works : {s s' s'' : Server f} → work f decode table w s ≡ some s' → Run s' s'' → Run s s''
    then_delivers :
        {s s' s'' : Server f} → deliver f decode table w s ≡ some s' → Run s' s'' → Run s s''

  -- A state that a run leads to.
  pub record Later (s s' : Server f) : Type 0 where
    pub run : Run s s'
    pub good : Good f decode table w s'
    pub idle_jobs : f.pending s'.jobs ≡ []
    pub keeps : (j : ℕ) → env_of (s'.slots j) ≡ env_of (s.slots j)

  job_done-env :
      (i j : ℕ) (sl : Option Slot) (slots : ℕ → Option Slot)
      → slots i ≡ sl
      → env_of (job_done f decode table w i sl slots j) ≡ env_of (slots j)
  job_done-env i j none slots e = refl
  job_done-env i j (some (sent env out)) slots e = refl
  job_done-env i j (some (active env q)) slots e = put_slot-env i j _ slots (sym (ap env_of e))

  perform-env :
      (c : Option Call) (s : Server f) (j : ℕ)
      → env_of ((perform f decode table w c s).slots j) ≡ env_of (s.slots j)
  perform-env none s j = refl
  perform-env (some (handle_call i)) s j = job_done-env i j (s.slots i) s.slots refl
  perform-env (some (callback i)) s j = refl

  pub perform-jobs : (c : Option Call) (s : Server f) → (perform f decode table w c s).jobs ≡ s.jobs
  perform-jobs none s = refl
  perform-jobs (some (handle_call i)) s = refl
  perform-jobs (some (callback i)) s = refl

  slot_after-env :
      (env : Environment) (r : Bool × Request)
      → env_of (some (slot_after f decode table w env r)) ≡ some env
  slot_after-env env (true, q) = refl
  slot_after-env env (false, q) = refl

  pub answered-env :
      (i j : ℕ) (sl : Option Slot) (s : Server f)
      → s.slots i ≡ sl
      → env_of ((answered f decode table w i sl s).slots j) ≡ env_of (s.slots j)
  answered-env i j none s e = refl
  answered-env i j (some (sent env out)) s e = refl
  answered-env i j (some (active env q)) s e =
      put_slot-env i j _ s.slots (slot_after-env env _ ∙ sym (ap env_of e))

  pub answered-jobs :
      (i : ℕ) (sl : Option Slot) (s : Server f)
      → ((answered f decode table w i sl s).jobs ≡ s.jobs)
        × ((answered f decode table w i sl s).messages ≡ s.messages)
  answered-jobs i none s = (refl, refl)
  answered-jobs i (some (sent env out)) s = (refl, refl)
  answered-jobs i (some (active env q)) s = (refl, refl)

  Later-work :
      {s s' s'' : Server f}
      → work f decode table w s ≡ some s'
      → ((j : ℕ) → env_of (s'.slots j) ≡ env_of (s.slots j))
      → Later s' s''
      → Later s s''
  Later-work e k l = record {
    run = then_works e l.run;
    good = l.good;
    idle_jobs = l.idle_jobs;
    keeps = λ j. l.keeps j ∙ k j;
  }

  abbrev pub Drained : Server f → Type 0
  Drained s = (s' : Server f) × Later s s'

  -- A step with the call that it makes, and what is left to do behind it.
  pub worked-Drained :
      (s : Server f) (c : Option Call) (jobs : f.State)
      → f.step s.jobs ≡ some (c, jobs)
      → Drained (perform f decode table w c (record s { jobs = jobs }))
      → Drained s
  unfolding work
  worked-Drained s c jobs e (s', l) = (
    s',
    Later-work (ap (λ r. worked f decode table w r s) e) (perform-env c (record s { jobs = jobs }))
        l,
  )

  -- The queue can be emptied from any state of some of these bounds.

  pub Run-append : {s s' s'' : Server f} → Run s s' → Run s' s'' → Run s s''
  Run-append stays b = b
  Run-append (then_works e a) b = then_works e (Run-append a b)
  Run-append (then_delivers e a) b = then_delivers e (Run-append a b)
