-- ===== src/Server/Removal/Validity.antt =====
-- The pointers of src/main.cpp where the manager may remove requests.
use simurga.Base.{ℕ, ◌≡◌, sym, ap, ◌∙◌, false, Option, some, Bytes, Bool-cases, inl, inr, ◌↔◌}
use mathlib.Core.Path.{subst}
use simurga.Daemon.{Request}
use simurga.Jobs.Interface.{CallQueue}
use simurga.Pages.World.{World}
use simurga.Server.Safety.{HasObject, Uses, by_job, by_message, Reach-HasObject}
use simurga.Server.{Call, Slot, active, sent, Server}
use simurga.Service.Routes.{ObjectTable}
use simurga.Service.{Environment}
use simurga.Server.Removal.Shadow.{Shadow}
use simurga.Server.Removal.Watching.{Watch-Shadow}
use simurga.Server.Removal.{Watched, Watch}

module _ (f : CallQueue Call) (decode : Bytes → Bytes) (table : ObjectTable) (w : World) where
  uses-Shadow :
      {x : Watched f decode table w} {t : Server f} {i : ℕ}
      → Shadow f decode table w x t
      → Uses f decode table w x.server i
      → Uses f decode table w t i
  uses-Shadow h (by_job jobs e) = by_job jobs (ap f.step (sym h.jobs) ∙ e)
  uses-Shadow h (by_message ms e) = by_message ms (sym h.messages ∙ e)

  kept-HasObject : {a b : Option Slot} → a ≡ b → HasObject b → HasObject a
  kept-HasObject e o = subst HasObject (sym e) o

  sent-HasObject :
      {slot : Option Slot} (env : Environment) (out : Bytes)
      → slot ≡ some (sent env out)
      → HasObject slot
      → ⊥
  sent-HasObject env out e o = apart (sym e ∙ o.waits)
    where
      apart :
          {q : Request} → ◌≡◌ {A = Option Slot} (some (sent env out)) (some (active o.env q)) → ⊥
      apart h = cc

  -- Where the manager may at any time remove a request that is not complete, as it does for an abort
  -- and for a record out of order, whether or not its job has been called: if the next call of the
  -- working thread is the job of a request, or the next message is for a request, then the request is
  -- still there, waits for its second call of response and has its object, if and only if it has not
  -- been removed. So with no removal no pointer dangles and none is null, and the job of a removed
  -- request is called on a pointer that dangles.
  pub Watch-HasObject_iff :
      {x : Watched f decode table w} {i : ℕ}
      → Watch f decode table w x
      → Uses f decode table w x.server i
      → HasObject (x.server.slots i) ↔ (x.gone i ≡ false)
  Watch-HasObject_iff {x} {i} r u =
      let (t, h) = Watch-Shadow f decode table w r in
      (
        λ o. elim (Bool-cases (x.gone i)) [
          | inl g ↦ let (env, out, e) = h.lost i g in absurd (sent-HasObject env out e o)
          | inr g ↦ g
        ],
        λ g.
            kept-HasObject (h.kept i g)
              (Reach-HasObject f decode table w h.reached (uses-Shadow h u)),
      )
