-- ===== src/Server/Removal/Shadow.antt =====
-- The server of src/main.cpp with removals, and the one without them.
use simurga.Base.{
  ℕ, ◌≡◌, refl, sym, ap, ◌∙◌, Bool, true, false, Option, none, some, List, [], ◌∷◌, ◌++◌, ◌==◌,
  ==_iff, Bytes, if◌then◌else◌, Bool-cases, inl, inr,
}
use mathlib.Core.Path.{subst}
use simurga.Daemon.{Request, new_request, response, run_job}
use simurga.Jobs.Interface.{CallQueue}
use simurga.Pages.World.{World}
use simurga.Server.Stages.{put_slot-other}
use simurga.Server.Steps.{some-eq}
use simurga.Server.{
  Call, handle_call, callback, Slot, active, sent, Server, slot_after, jobs_after, accept, job_done,
  perform, worked, work, answered, delivered, deliver, Step, accepts, works, delivers, halts,
  disturbs, Reach, next,
}
use simurga.Service.Routes.{ObjectTable}
use simurga.Service.{Environment}
use simurga.Server.Removal.Changes.{IsSent, at_slot, at_slot-kept, at_slot-lost}
use simurga.Server.Removal.{Watched}

module _ (f : CallQueue Call) (decode : Bytes → Bytes) (table : ObjectTable) (w : World) where
  -- The server without the removals: it has the same jobs and messages, and the requests that are not
  -- removed are as they are here.
  pub record Shadow (x : Watched f decode table w) (t : Server f) : Type 0 where
    pub reached : Reach f decode table w t
    pub jobs : x.server.jobs ≡ t.jobs
    pub messages : x.server.messages ≡ t.messages
    pub kept : (i : ℕ) → x.gone i ≡ false → x.server.slots i ≡ t.slots i
    pub lost : (i : ℕ) → x.gone i ≡ true → IsSent (x.server.slots i)

  module _ (x : Watched f decode table w) (t : Server f) (h : Shadow x t) where
    -- A request that is not there has not been removed.
    absent-kept : (i : ℕ) → x.server.slots i ≡ none → x.gone i ≡ false
    absent-kept i n = elim (Bool-cases (x.gone i)) [
      | inl g ↦ let (env, out, s) = h.lost i g in absurd (both n s)
      | inr g ↦ g
    ]
      where
        both :
            {env : Environment} {out : Bytes}
            → x.server.slots i ≡ none
            → x.server.slots i ≡ some (sent env out)
            → ⊥
        both n s = cc

    -- One request is changed, and the jobs and the messages as there.
    Shadow-at :
        (g : Environment → Request → Slot) (i : ℕ) (a b : Server f)
        → a.slots ≡ at_slot g i (x.server.slots i) x.server.slots
        → b.slots ≡ at_slot g i (t.slots i) t.slots
        → a.jobs ≡ b.jobs
        → a.messages ≡ b.messages
        → Reach f decode table w b
        → Shadow (record { server = a; gone = x.gone }) b
    Shadow-at g i a b p q j m r = record {
      reached = r;
      jobs = j;
      messages = m;
      kept = λ k e.
          ap (λ s. s k) p
          ∙ at_slot-kept g i k x.server.slots t.slots x.gone h.kept e
          ∙ ap (λ s. s k) (sym q);
      lost = λ k e.
          let (env, out, s) = at_slot-lost g i k x.server.slots (h.lost k e) in
          (env, out, ap (λ z. z k) p ∙ s);
    }

    accept-Shadow :
        (i : ℕ) (env : Environment)
        → x.server.slots i ≡ none
        → (t' : Server f) × Shadow
            (record { server = accept f decode table w i env x.server; gone = x.gone })
            t'
    unfolding accept
    accept-Shadow i env n = (
      accept f decode table w i env t,
      record {
        reached = next h.reached (accepts i env (sym (h.kept i (absent-kept i n)) ∙ n));
        jobs = ap (jobs_after f decode table w i r) h.jobs;
        messages = h.messages;
        kept = λ j e.
            ap (λ z. if i == j then some (slot_after f decode table w env r) else z) (h.kept j e);
        lost = λ j e. elim (Bool-cases (i == j)) [
          | inl same ↦ absurd (differ j same e)
          | inr ne ↦
              let (env', out, s) = h.lost j e in
              (
                env',
                out,
                put_slot-other i j (slot_after f decode table w env r) x.server.slots ne ∙ s,
              )
        ];
      },
    )
      where
        r : Bool × Request
        r = response decode table w (new_request env)

        differ : (j : ℕ) → (i == j) ≡ true → x.gone j ≡ true → ⊥
        differ j same e = apart (sym (absent-kept i n) ∙ ap x.gone ((==_iff i j).0 same) ∙ e)
          where
            apart : false ≡ true → ⊥
            apart q = cc

    -- No request is changed.
    Shadow-same :
        (a b : Server f)
        → a.slots ≡ x.server.slots
        → b.slots ≡ t.slots
        → a.jobs ≡ b.jobs
        → a.messages ≡ b.messages
        → Reach f decode table w b
        → Shadow (record { server = a; gone = x.gone }) b
    Shadow-same a b p q j m r = record {
      reached = r;
      jobs = j;
      messages = m;
      kept = λ k e. ap (λ s. s k) p ∙ h.kept k e ∙ ap (λ s. s k) (sym q);
      lost = λ k e. let (env, out, s) = h.lost k e in (env, out, ap (λ z. z k) p ∙ s);
    }

    abbrev by_handle : Environment → Request → Slot
    by_handle env q = active env (run_job decode table w q)

    job_done-at :
        (i : ℕ) (slot : Option Slot) (slots : ℕ → Option Slot)
        → job_done f decode table w i slot slots ≡ at_slot by_handle i slot slots
    job_done-at i (some (active env q)) slots = refl
    job_done-at i (some (sent env out)) slots = refl
    job_done-at i none slots = refl

    abbrev by_response : Environment → Request → Slot
    by_response env q = slot_after f decode table w env (response decode table w q)

    answered-at :
        (i : ℕ) (slot : Option Slot) (s : Server f)
        → answered f decode table w i slot s
          ≡ record s { slots = at_slot by_response i slot s.slots }
    answered-at i (some (active env q)) s = refl
    answered-at i (some (sent env out)) s = refl
    answered-at i none s = refl

    perform-Shadow :
        (c : Option Call) (jobs : f.State)
        → Reach f decode table w (perform f decode table w c (record t { jobs = jobs }))
        → Shadow
            (record {
              server = perform f decode table w c (record x.server { jobs = jobs });
              gone = x.gone;
            })
            (perform f decode table w c (record t { jobs = jobs }))
    perform-Shadow none jobs r = Shadow-same _ _ refl refl refl h.messages r
    perform-Shadow (some (handle_call i)) jobs r =
        Shadow-at by_handle i _ _ (job_done-at i (x.server.slots i) x.server.slots)
          (job_done-at i (t.slots i) t.slots) refl h.messages r
    perform-Shadow (some (callback i)) jobs r =
        Shadow-same _ _ refl refl refl (ap (λ ms. ms ++ i ∷ []) h.messages) r

    worked-Shadow :
        (r : Option (Option Call × f.State)) {s' : Server f}
        → f.step x.server.jobs ≡ r
        → worked f decode table w r x.server ≡ some s'
        → (t' : Server f) × Shadow (record { server = s'; gone = x.gone }) t'
    unfolding work
    worked-Shadow none e q = cc
    worked-Shadow (some (c, jobs)) e q =
        let there : f.step t.jobs ≡ some (c, jobs) = ap f.step (sym h.jobs) ∙ e in
        (
          perform f decode table w c (record t { jobs = jobs }),
          subst
              (λ s.
                Shadow (record { server = s; gone = x.gone })
                  (perform f decode table w c (record t { jobs = jobs })))
              (some-eq _ _ q)
              (perform-Shadow c jobs
                (next h.reached (works (ap (λ r. worked f decode table w r t) there)))),
        )

    delivered-Shadow :
        (ms : List ℕ) {s' : Server f}
        → x.server.messages ≡ ms
        → delivered f decode table w ms x.server ≡ some s'
        → (t' : Server f) × Shadow (record { server = s'; gone = x.gone }) t'
    unfolding deliver
    delivered-Shadow [] e q = cc
    delivered-Shadow (i ∷ ms) e q =
        let there : t.messages ≡ i ∷ ms = sym h.messages ∙ e in
        let a = record x.server { messages = ms } in
        let b = record t { messages = ms } in
        let pa = answered-at i (x.server.slots i) a in
        let pb = answered-at i (t.slots i) b in
        (
          answered f decode table w i (t.slots i) b,
          subst
              (λ s.
                Shadow (record { server = s; gone = x.gone })
                  (answered f decode table w i (t.slots i) b))
              (some-eq _ _ q)
              (Shadow-at by_response i _ _ (ap (λ (s : Server f). s.slots) pa)
                (ap (λ (s : Server f). s.slots) pb)
                (ap (λ (s : Server f). s.jobs) pa ∙ h.jobs ∙ sym (ap (λ (s : Server f). s.jobs) pb))
                (ap (λ (s : Server f). s.messages) pa ∙ sym (ap (λ (s : Server f). s.messages) pb))
                (next h.reached (delivers (ap (λ l. delivered f decode table w l t) there)))),
        )

    pub step-Shadow :
        {s' : Server f}
        → Step f decode table w x.server s'
        → (t' : Server f) × Shadow (record { server = s'; gone = x.gone }) t'
    unfolding work deliver
    step-Shadow (accepts i env n) = accept-Shadow i env n
    step-Shadow (works e) = worked-Shadow (f.step x.server.jobs) refl e
    step-Shadow (delivers e) = delivered-Shadow x.server.messages refl e
    step-Shadow halts =
        (_, Shadow-same _ _ refl refl (ap f.halt h.jobs) h.messages (next h.reached halts))
    step-Shadow disturbs =
        (_, Shadow-same _ _ refl refl (ap f.disturb h.jobs) h.messages (next h.reached disturbs))
