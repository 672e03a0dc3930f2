-- ===== src/Server/Removal.antt =====
-- Requests that the manager removes before they are answered: `Request::handler` of
-- fastcgipp/src/request.cpp says that a request is done for an abort and for a record out of order, also
-- while the job of src/main.cpp waits or has run, and the manager then removes it. A request keeps its
-- number. Where the working thread calls the job of a removed request, the program follows a pointer to
-- an object that is no more; nothing is said of what comes of it.
mod Changes
mod Shadow
pub mod Validity
mod Watching
use simurga.Base.{
  ℕ, ◌≡◌, refl, sym, ap, ◌∙◌, Bool, true, false, Option, none, some, List, [], ◌∷◌, ◌++◌, ◌==◌,
  ==_iff, Bytes, if◌then◌else◌, Bool-cases, inl, inr, ◌↔◌,
}
use mathlib.Core.Path.{subst}
use simurga.Daemon.{Request, new_request, response, run_job}
use simurga.Jobs.Interface.{CallQueue}
use simurga.Pages.World.{World}
use simurga.Server.Stages.{put_slot-other, put_slot-own, ==-self}
use simurga.Server.Steps.{some-eq}
use simurga.Server.{
  Call, handle_call, callback, Slot, active, sent, Server, idle, put_slot, slot_after, jobs_after,
  placed, accept, job_done, perform, worked, work, answered, delivered, deliver, Step, accepts,
  works, delivers, halts, disturbs, Reach, here, next,
}
use simurga.Service.Routes.{ObjectTable}
use simurga.Service.{Environment}

module _ (f : CallQueue Call) (decode : Bytes → Bytes) (table : ObjectTable) (w : World) where
  -- The server, and the requests that were removed before they were answered.
  pub record Watched : Type 0 where
    pub server : Server f
    pub gone : ℕ → Bool

  abbrev pub removed_also : ℕ → (ℕ → Bool) → ℕ → Bool
  removed_also i gone j = if i == j then true else gone j

  -- A step of the server, or the removal of a request that is not complete, with what was sent for it.
  pub data Happens (x : Watched) : Watched → Type 0 where
    steps :
        {t : Server f}
        → Step f decode table w x.server t
        → Happens x (record { server = t; gone = x.gone })
    removes :
        (i : ℕ) (env : Environment) (q : Request) (out : Bytes)
        → x.server.slots i ≡ some (active env q)
        → Happens x (record {
          server = record x.server { slots = put_slot i (sent env out) x.server.slots };
          gone = removed_also i x.gone;
        })

  pub data Watch : Watched → Type 0 where
    begins : Watch (record { server = idle f; gone = λ i. false })
    goes_on : {x y : Watched} → Watch x → Happens x y → Watch y
