-- ===== src/Server/Steps.antt =====
-- The steps of the server (src/main.cpp, src/jobqueue.cpp) against the stages of its requests.
pub mod Deliver
use simurga.Base.{
  ℕ, ◌≡◌, refl, sym, ap, ◌∙◌, Bool, true, false, Option, none, some, List, [], ◌∷◌, ◌++◌, ◌==◌,
  ==_iff, Bytes, append-nil, Bool-cases, inl, inr,
}
use mathlib.Core.Path.{subst}
use simurga.Daemon.{Request, new_request, response, serve}
use simurga.Daemon.Serving.{serve-Served}
use simurga.Jobs.Interface.{CallQueue}
use simurga.Pages.World.{World}
use simurga.Server.Stages.{
  about, mails, number_of, about-own, about-other, about-append, about-added, about-added_other,
  mails-own, mails-other, mails-append, put_slot-own, put_slot-other, ==-self, Stage, absent,
  queued, handled, notified, finished, Stage-same, Stage-accept, Stage-handle, Stage-callback,
  Stage-message, serve-Begun, serve_complete,
}
use simurga.Server.{
  Call, handle_call, callback, Slot, active, sent, Server, idle, slot_after, placed, accept,
  job_done, perform, worked, work, answered, delivered, deliver,
}
use simurga.Service.Routes.{ObjectTable}
use simurga.Service.{Environment}

pub some-eq {ℓ} : {A : Type ℓ} (a b : A) → ◌≡◌ {A = Option A} (some a) (some b) → a ≡ b
some-eq a b h = cc

module _ (f : CallQueue Call) (decode : Bytes → Bytes) (table : ObjectTable) (w : World) where
  -- What holds of request `i`.
  abbrev pub Holds : Server f → ℕ → Type 0
  Holds s i = Stage decode table w i (s.slots i) (about i (f.pending s.jobs)) (mails i s.messages)

  abbrev pub Good : Server f → Type 0
  Good s = (i : ℕ) → Holds s i

  -- A step that concerns request `i` is looked at for `i` and for the others.
  pub each : (s : Server f) (i : ℕ) → Holds s i → ((j : ℕ) → (i == j) ≡ false → Holds s j) → Good s
  each s i own others j = elim (Bool-cases (i == j)) [
    | inl e ↦ subst (Holds s) ((==_iff i j).0 e) own
    | inr e ↦ others j e
  ]

  pub idle-Good : Good (idle f)
  unfolding about mails
  idle-Good i = absent refl (ap (about i) f.pending-empty) refl

  pending-after :
      (i j : ℕ) (jobs : f.State)
      → about j (f.pending (f.push (handle_call i) (callback i) jobs))
        ≡ about j (f.pending jobs) ++ about j (handle_call i ∷ callback i ∷ [])
  pending-after i j jobs =
      ap (about j) (f.pending-push (handle_call i) (callback i) jobs)
      ∙ about-append j (f.pending jobs) (handle_call i ∷ callback i ∷ [])

  accept-own :
      (i : ℕ) (env : Environment) (s : Server f) (r : Bool × Request)
      → response decode table w (new_request env) ≡ r
      → s.slots i ≡ none
      → Holds s i
      → Holds (placed f decode table w i env r s) i
  accept-own i env s (true, q) e n h =
      let (calls, mail) = Stage-accept decode table w i _ _ _ n h in
      finished env
        (put_slot-own i (sent env q.out) s.slots
          ∙ ap (λ r. some (sent env r.1.out)) (sym (serve_complete decode table w env q e)))
        calls mail
  accept-own i env s (false, q) e n h =
      let (calls, mail) = Stage-accept decode table w i _ _ _ n h in
      queued env q e (put_slot-own i (active env q) s.slots)
        (pending-after i i s.jobs
          ∙ ap (λ l. l ++ about i (handle_call i ∷ callback i ∷ [])) calls
          ∙ about-added i)
        mail

  accept-others :
      (i : ℕ) (env : Environment) (s : Server f) (r : Bool × Request) (j : ℕ)
      → (i == j) ≡ false
      → Holds s j
      → Holds (placed f decode table w i env r s) j
  accept-others i env s (true, q) j e h =
      Stage-same decode table w (put_slot-other i j _ s.slots e) refl refl h
  accept-others i env s (false, q) j e h =
      Stage-same decode table w (put_slot-other i j _ s.slots e)
        (pending-after i j s.jobs
          ∙ ap (λ l. about j (f.pending s.jobs) ++ l) (about-added_other i j e)
          ∙ append-nil (about j (f.pending s.jobs)))
        refl h

  pub accept-Good :
      (i : ℕ) (env : Environment) (s : Server f)
      → s.slots i ≡ none
      → Good s
      → Good (accept f decode table w i env s)
  unfolding accept
  accept-Good i env s n g =
      each _ i (accept-own i env s _ refl n (g i)) λ j e. accept-others i env s _ j e (g j)

  job_done-other :
      (i j : ℕ) (slot : Option Slot) (slots : ℕ → Option Slot)
      → (i == j) ≡ false
      → job_done f decode table w i slot slots j ≡ slots j
  job_done-other i j none slots e = refl
  job_done-other i j (some (sent env out)) slots e = refl
  job_done-other i j (some (active env q)) slots e = put_slot-other i j _ slots e

  -- The calls for `j` after the call `c`.
  calls-own :
      (i : ℕ) (c : Call) (jobs jobs' : f.State)
      → number_of c ≡ i
      → f.step jobs ≡ some (some c, jobs')
      → about i (f.pending jobs) ≡ c ∷ about i (f.pending jobs')
  calls-own i c jobs jobs' n e =
      ap (about i) (f.pending-call jobs jobs' c e)
      ∙ about-own i c (f.pending jobs') (ap (λ k. k == i) n ∙ ==-self i)

  calls-other :
      (j : ℕ) (c : Call) (jobs jobs' : f.State)
      → (number_of c == j) ≡ false
      → f.step jobs ≡ some (some c, jobs')
      → about j (f.pending jobs') ≡ about j (f.pending jobs)
  calls-other j c jobs jobs' n e =
      sym (ap (about j) (f.pending-call jobs jobs' c e) ∙ about-other j c (f.pending jobs') n)

  handle-own :
      (i : ℕ) (s : Server f) (jobs : f.State)
      → f.step s.jobs ≡ some (some (handle_call i), jobs)
      → Holds s i
      → Holds (perform f decode table w (some (handle_call i)) (record s { jobs = jobs })) i
  handle-own i s jobs e h =
      let (env, q, g, slot, calls, mail) =
        Stage-handle decode table w i _ _ (about i (f.pending jobs)) _
          (calls-own i (handle_call i) s.jobs jobs refl e) h in
      handled env q g
        (ap (λ sl. job_done f decode table w i sl s.slots i) slot ∙ put_slot-own i _ s.slots) calls
        mail

  callback-own :
      (i : ℕ) (s : Server f) (jobs : f.State)
      → f.step s.jobs ≡ some (some (callback i), jobs)
      → Holds s i
      → Holds (perform f decode table w (some (callback i)) (record s { jobs = jobs })) i
  unfolding mails
  callback-own i s jobs e h =
      let (env, q, g, slot, calls, mail) =
        Stage-callback decode table w i _ _ (about i (f.pending jobs)) _
          (calls-own i (callback i) s.jobs jobs refl e) h in
      notified env q g slot calls (
        mails-append i s.messages (i ∷ [])
        ∙ ap (λ l. l ++ mails i (i ∷ [])) mail
        ∙ mails-own i i [] (==-self i))

  perform-Good :
      (c : Option Call) (s : Server f) (jobs : f.State)
      → f.step s.jobs ≡ some (c, jobs)
      → Good s
      → Good (perform f decode table w c (record s { jobs = jobs }))
  unfolding mails
  perform-Good none s jobs e g =
      λ i. Stage-same decode table w refl (ap (about i) (f.pending-rest s.jobs jobs e)) refl (g i)
  perform-Good (some (handle_call i)) s jobs e g = each _ i (handle-own i s jobs e (g i)) λ j ne.
      Stage-same decode table w (job_done-other i j (s.slots i) s.slots ne)
        (calls-other j (handle_call i) s.jobs jobs ne e) refl (g j)
  perform-Good (some (callback i)) s jobs e g = each _ i (callback-own i s jobs e (g i)) λ j ne.
      Stage-same decode table w refl (calls-other j (callback i) s.jobs jobs ne e)
        (mails-append j s.messages (i ∷ [])
          ∙ ap (λ l. mails j s.messages ++ l) (mails-other j i [] ne)
          ∙ append-nil (mails j s.messages))
        (g j)

  worked-Good :
      (r : Option (Option Call × f.State)) (s : Server f) {s' : Server f}
      → f.step s.jobs ≡ r
      → worked f decode table w r s ≡ some s'
      → Good s
      → Good s'
  worked-Good none s e h g = cc
  worked-Good (some (c, jobs)) s e h g = subst Good (some-eq _ _ h) (perform-Good c s jobs e g)

  pub work-Good :
      (s : Server f) {s' : Server f} → work f decode table w s ≡ some s' → Good s → Good s'
  unfolding work
  work-Good s h g = worked-Good (f.step s.jobs) s refl h g
