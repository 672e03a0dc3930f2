-- ===== src/Server/Answering.antt =====
-- Every request of the server (src/main.cpp, src/jobqueue.cpp) gets its answer, if the working thread
-- and the manager go on.
use simurga.Base.{
  ℕ, zero, suc, ◌≤◌, ◌<◌, ◌≡◌, ◌≢◌, ◌⊎◌, refl, sym, ap, ◌∙◌, false, Option, none, some, List, [],
  ◌∷◌, Bytes, length, inl, inr, arith,
}
use simurga.Daemon.{Request, serve}
use simurga.Jobs.Interface.{CallQueue}
use simurga.Pages.World.{World}
use simurga.Server.Refinement.{Reach-Good}
use simurga.Server.Stages.{about, mails, Stage, absent, queued, handled, notified, finished}
use simurga.Server.Steps.Deliver.{deliver-Good}
use simurga.Server.Steps.{some-eq, Good, work-Good}
use simurga.Server.{
  Call, Slot, active, sent, Server, Reach, perform, worked, work, answered, delivered, deliver,
}
use simurga.Service.Routes.{ObjectTable}
use simurga.Service.{Environment}
use simurga.Server.Runs.{
  env_of, Run, stays, then_delivers, Later, perform-jobs, answered-env, answered-jobs, Drained,
  worked-Drained, Run-append,
}

list-cases {ℓ} : {A : Type ℓ} (l : List A) → (l ≡ []) ⊎ (l ≢ [])
list-cases [] = inl refl
list-cases (x ∷ l) = inr (λ h. cc)

module _ (f : CallQueue Call) (decode : Bytes → Bytes) (table : ObjectTable) (w : World) where
  abbrev Drains : (Server f → Type 0) → Type 0
  Drains P =
      (s : Server f)
      → P s
      → f.halted s.jobs ≡ false
      → Good f decode table w s
      → Drained f decode table w s

  abbrev calls_left : Server f → ℕ
  calls_left s = length (f.pending s.jobs)

  step-Drained :
      (n k : ℕ) (s : Server f)
      → calls_left s ≤ n
      → f.patience s.jobs ≤ k
      → Drains (λ s'. calls_left s' < n)
      → Drains (λ s'. (calls_left s' ≤ n) × (f.patience s'.jobs < k))
      → f.halted s.jobs ≡ false
      → Good f decode table w s
      → (c : Option Call) (jobs : f.State) → f.step s.jobs ≡ some (c, jobs)
      → Drained f decode table w s
  unfolding work
  step-Drained n k s ln lk fewer sooner h g none jobs e =
      worked-Drained f decode table w s none jobs e (
        sooner (record s { jobs = jobs })
          (
            omega (arith, ap length (f.pending-rest s.jobs jobs e), ln),
            omega (arith, f.patience-rest s.jobs jobs e, lk),
          )
          (f.halted-step s.jobs jobs none e h)
          (work-Good f decode table w s (ap (λ r. worked f decode table w r s) e) g))
  step-Drained n k s ln lk fewer sooner h g (some c) jobs e =
      let same = perform-jobs f decode table w (some c) (record s { jobs = jobs }) in
      worked-Drained f decode table w s (some c) jobs e (
        fewer (perform f decode table w (some c) (record s { jobs = jobs }))
          (omega (
            arith,
            ap length (f.pending-call s.jobs jobs c e),
            ap (λ q. length (f.pending q)) same,
            ln,
          ))
          (ap f.halted same ∙ f.halted-step s.jobs jobs (some c) e h)
          (work-Good f decode table w s (ap (λ r. worked f decode table w r s) e) g))

  drain_step :
      (n k : ℕ)
      → Drains (λ s'. calls_left s' < n)
      → Drains (λ s'. (calls_left s' ≤ n) × (f.patience s'.jobs < k))
      → Drains (λ s. (calls_left s ≤ n) × (f.patience s.jobs ≤ k))
  drain_step n k fewer sooner s (ln, lk) h g = elim (list-cases (f.pending s.jobs)) [
    | inl e ↦ (s, record { run = stays; good = g; idle_jobs = e; keeps = λ j. refl })
    | inr e ↦
        let (r, step) = f.step_live s.jobs h e in
        step-Drained n k s ln lk fewer sooner h g r.0 r.1 step
  ]

  drain_patient :
      (n : ℕ)
      → Drains (λ s'. calls_left s' < n)
      → (k : ℕ) → Drains (λ s. (calls_left s ≤ n) × (f.patience s.jobs ≤ k))
  drain_patient n fewer zero = drain_step n 0 fewer (λ s l h g. absurd (omega (arith, l.1)))
  drain_patient n fewer (suc k) =
      drain_step n (suc k) fewer
        (λ s l h g. drain_patient n fewer k s (l.0, omega (arith, l.1)) h g)

  drain : (n : ℕ) → Drains (λ s. calls_left s ≤ n)
  drain zero s l h g =
      drain_patient 0 (λ s' l' h' g'. absurd (omega (arith, l'))) (f.patience s.jobs) s
        (l, omega arith) h g
  drain (suc n) s l h g =
      drain_patient (suc n) (λ s' l' h' g'. drain n s' (omega (arith, l')) h' g')
        (f.patience s.jobs) s (l, omega arith) h g

  -- All messages can be delivered.
  deliver_all :
      (ms : List ℕ) (s : Server f)
      → s.messages ≡ ms
      → f.pending s.jobs ≡ []
      → Good f decode table w s
      → (s' : Server f) × Later f decode table w s s' × (s'.messages ≡ [])
  unfolding deliver
  deliver_all [] s e p g =
      (s, record { run = stays; good = g; idle_jobs = p; keeps = λ j. refl }, e)
  deliver_all (i ∷ ms) s e p g =
      let next = answered f decode table w i (s.slots i) (record s { messages = ms }) in
      let d = ap (λ l. delivered f decode table w l s) e in
      let same = answered-jobs f decode table w i (s.slots i) (record s { messages = ms }) in
      let (s', l, m) =
        deliver_all ms next same.1 (ap f.pending same.0 ∙ p)
          (deliver-Good f decode table w s d g) in
      (
        s',
        record {
          run = then_delivers d l.run;
          good = l.good;
          idle_jobs = l.idle_jobs;
          keeps = λ j.
              l.keeps j
              ∙ answered-env f decode table w i j (s.slots i) (record s { messages = ms }) refl;
        },
        m,
      )

  -- With nothing pending and no message on its way a request is answered.
  Stage-answered :
      {i : ℕ} {slot : Option Slot} {calls : List Call} {mail : List ℕ} {env : Environment}
      → Stage decode table w i slot calls mail
      → calls ≡ []
      → mail ≡ []
      → env_of slot ≡ some env
      → slot ≡ some (sent env (serve decode table w env).1.out)
  Stage-answered (absent x y z) c m e = cc
  Stage-answered (queued env' u g x y z) c m e = cc
  Stage-answered (handled env' u g x y z) c m e = cc
  Stage-answered (notified env' u g x y z) c m e = cc
  Stage-answered (finished env' x y z) c m e =
      x
      ∙ ap (λ v. some (sent v (serve decode table w v).1.out)) (some-eq _ _ (sym (ap env_of x) ∙ e))

  -- From every reachable state in which the queue is not told to stop, steps of the working thread and
  -- of the manager alone, with no new request, lead to a state in which a request that waits has been
  -- sent its answer, that of serve.
  pub Reach-Answered :
      {s : Server f} {env : Environment} {q : Request} (i : ℕ)
      → Reach f decode table w s
      → f.halted s.jobs ≡ false
      → s.slots i ≡ some (active env q)
      → (s' : Server f) × Run f decode table w s s'
        × (s'.slots i ≡ some (sent env (serve decode table w env).1.out))
  unfolding about mails
  Reach-Answered {s} i r h e =
      let (t, a) = drain (calls_left s) s (omega arith) h (Reach-Good f decode table w r) in
      let (u, b, m) = deliver_all t.messages t refl a.idle_jobs a.good in
      (
        u,
        Run-append f decode table w a.run b.run,
        Stage-answered (b.good i) (ap (about i) b.idle_jobs) (ap (mails i) m)
            (b.keeps i ∙ a.keeps i ∙ ap env_of e),
      )
