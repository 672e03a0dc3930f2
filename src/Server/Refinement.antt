-- ===== src/Server/Refinement.antt =====
-- The server (src/main.cpp, src/jobqueue.cpp) against `serve`, a request by itself.
use simurga.Base.{ℕ, ◌≡◌, refl, ap, Option, some, List, Bytes}
use simurga.Daemon.{serve}
use simurga.Jobs.Interface.{CallQueue}
use simurga.Pages.World.{World}
use simurga.Server.Stages.{about, Stage, Stage-same, absent, queued, handled, notified, finished}
use simurga.Server.Steps.Deliver.{deliver-Good}
use simurga.Server.Steps.{Good, idle-Good, accept-Good, work-Good}
use simurga.Server.{
  Call, Slot, sent, Server, Step, accepts, works, delivers, halts, disturbs, Reach, here, next,
}
use simurga.Service.Routes.{ObjectTable}
use simurga.Service.{Environment}

module _ (f : CallQueue Call) (decode : Bytes → Bytes) (table : ObjectTable) (w : World) where
  Step-Good :
      {s s' : Server f}
      → Step f decode table w s s'
      → Good f decode table w s
      → Good f decode table w s'
  Step-Good {s} (accepts i env n) g = accept-Good f decode table w i env s n g
  Step-Good {s} (works h) g = work-Good f decode table w s h g
  Step-Good {s} (delivers h) g = deliver-Good f decode table w s h g
  Step-Good {s} halts g =
      λ i. Stage-same decode table w refl (ap (about i) (f.pending-halt s.jobs)) refl (g i)
  Step-Good {s} disturbs g =
      λ i. Stage-same decode table w refl (ap (about i) (f.pending-disturb s.jobs)) refl (g i)

  -- In every state that the two threads can reach each request is at one stage: not there, its job
  -- and completion handler pending in this order, the handler pending, a message on its way, or
  -- answered; and nothing else is pending or on its way for it.
  pub Reach-Good : {s : Server f} → Reach f decode table w s → Good f decode table w s
  Reach-Good here = idle-Good f decode table w
  Reach-Good (next r st) = Step-Good st (Reach-Good r)

  Stage-sent :
      {i : ℕ} {slot : Option Slot} {calls : List Call} {mail : List ℕ} {env : Environment}
      {out : Bytes}
      → Stage decode table w i slot calls mail
      → slot ≡ some (sent env out)
      → out ≡ (serve decode table w env).1.out
  Stage-sent (absent x y z) e = cc
  Stage-sent (queued env u g x y z) e = cc
  Stage-sent (handled env u g x y z) e = cc
  Stage-sent (notified env u g x y z) e = cc
  Stage-sent (finished env x y z) e = cc

  -- Whatever other requests come, and in whatever order the working thread, the messages to the manager
  -- and a stop come between, what is sent for a request is what serve gives for it alone.
  pub Reach-serve :
      {s : Server f} {env : Environment} {out : Bytes} (i : ℕ)
      → Reach f decode table w s
      → s.slots i ≡ some (sent env out)
      → out ≡ (serve decode table w env).1.out
  Reach-serve i r e = Stage-sent (Reach-Good r i) e
