-- ===== src/Server/Safety.antt =====
-- The pointers that src/main.cpp binds and follows: `http_object_.get()` in the job, and `http_object_`
-- in `response_finish`. No request is removed before it is answered here; Removal has this.
use simurga.Base.{ℕ, ◌≡◌, sym, ap, ◌∙◌, false, Option, none, some, List, ◌∷◌, Bytes, [], ok}
use simurga.Daemon.{finish, Request, new_request, started, after_start, response, run_job}
use simurga.Jobs.Interface.{CallQueue}
use simurga.Pages.World.{World}
use simurga.Server.Refinement.{Reach-Good}
use simurga.Server.Stages.{
  about, mails, Begun, about-own, mails-own, ==-self, Stage-handle, Stage-message,
}
use simurga.Server.{Call, handle_call, Slot, active, Server, Reach}
use simurga.Service.Handle.{handle}
use simurga.Service.Routes.{ObjectTable, allocate}
use simurga.Service.{Environment, HttpObject}

-- A request that waits for its second call of `response`, with the object that it was given.
pub record HasObject (slot : Option Slot) : Type 0 where
  pub env : Environment
  pub q : Request
  pub o : HttpObject
  pub waits : slot ≡ some (active env q)
  pub object : q.http_object ≡ some o
  pub second : q.state ≡ finish

module _ (decode : Bytes → Bytes) (table : ObjectTable) (w : World) where
  abbrev Given : Request → Type 0
  Given q = (o : HttpObject) × (q.http_object ≡ some o) × (q.state ≡ finish)

  started-Given :
      (env : Environment) (r : Option HttpObject × Bytes) (q : Request)
      → after_start decode table w (started (ok r) (new_request env)) ≡ (false, q)
      → Given q
  unfolding started
  started-Given env (none, id) q h = cc
  started-Given env (some o, id) q h =
      let same = ap (λ r. r.1) h in
      (o, sym (ap (λ (p : Request). p.http_object) same), sym (ap (λ (p : Request). p.state) same))

  Begun-Given : (env : Environment) (q : Request) → Begun decode table w env q → Given q
  unfolding response
  Begun-Given env q h = started-Given env (allocate decode table env []) q h

  run_job-Given : (q : Request) → Given q → Given (run_job decode table w q)
  unfolding run_job
  run_job-Given q (o, e, f) = (
    handle w q.id o,
    ap
        (λ (x : Option HttpObject). elim x as (λ y. Option HttpObject) [
          | none ↦ none
          | some o' ↦ some (handle w q.id o')
        ])
        e,
    f,
  )

module _ (f : CallQueue Call) (decode : Bytes → Bytes) (table : ObjectTable) (w : World) where
  -- The next thing to happen uses the object of request `i`: the working thread calls its job, or the
  -- manager calls `response` for its message.
  pub data Uses (s : Server f) (i : ℕ) : Type 0 where
    by_job : (jobs : f.State) → f.step s.jobs ≡ some (some (handle_call i), jobs) → Uses s i
    by_message : (ms : List ℕ) → s.messages ≡ i ∷ ms → Uses s i

  -- Where no request is removed: in every reachable state, if the next call of the working thread is the job of a request, or the
  -- next message is for a request, then the request is still there, waits for its second call of
  -- `response`, and has its object: no pointer dangles and none is null.
  pub Reach-HasObject :
      {s : Server f} {i : ℕ} → Reach f decode table w s → Uses s i → HasObject (s.slots i)
  Reach-HasObject {s} {i} r (by_job jobs e) =
      let (env, q, g, slot, calls, mail) =
        Stage-handle decode table w i _ _ (about i (f.pending jobs)) _
          (ap (about i) (f.pending-call s.jobs jobs (handle_call i) e)
            ∙ about-own i (handle_call i) (f.pending jobs) (==-self i))
          (Reach-Good f decode table w r i) in
      let (o, x, y) = Begun-Given decode table w env q g in
      record { env = env; q = q; o = o; waits = slot; object = x; second = y }
  Reach-HasObject {s} {i} r (by_message ms e) =
      let (env, q, g, slot, calls, mail) =
        Stage-message decode table w i _ _ _ (mails i ms)
          (ap (mails i) e ∙ mails-own i i ms (==-self i)) (Reach-Good f decode table w r i) in
      let (o, x, y) = run_job-Given decode table w q (Begun-Given decode table w env q g) in
      record {
        env = env;
        q = run_job decode table w q;
        o = o;
        waits = slot;
        object = x;
        second = y;
      }
