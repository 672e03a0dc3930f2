-- ===== src/Server/Removal/Watching.antt =====
-- The states that the server of src/main.cpp reaches with removals.
use simurga.Base.{ℕ, ◌≡◌, refl, ◌∙◌, true, false, ◌==◌, Bytes, Bool-cases, inl, inr}
use simurga.Jobs.Interface.{CallQueue}
use simurga.Pages.World.{World}
use simurga.Server.Stages.{put_slot-other}
use simurga.Server.{Call, sent, Server, idle, put_slot, here}
use simurga.Service.Routes.{ObjectTable}
use simurga.Service.{Environment}
use simurga.Server.Removal.{Watched, removed_also, steps, removes, Watch, begins, goes_on}
use simurga.Server.Removal.Shadow.{Shadow, step-Shadow}

module _ (f : CallQueue Call) (decode : Bytes → Bytes) (table : ObjectTable) (w : World) where
  module _ (x : Watched f decode table w) (t : Server f) (h : Shadow f decode table w x t) where
    removed-Shadow :
        (i : ℕ) (env : Environment) (out : Bytes)
        → Shadow f decode table w
            (record {
              server = record x.server { slots = put_slot i (sent env out) x.server.slots };
              gone = removed_also f decode table w i x.gone;
            })
            t
    removed-Shadow i env out = record {
      reached = h.reached;
      jobs = h.jobs;
      messages = h.messages;
      kept = λ j e. elim (Bool-cases (i == j)) [
        | inl same ↦ absurd (there j same e)
        | inr ne ↦ put_slot-other i j (sent env out) x.server.slots ne ∙ h.kept j (rw ne at e)
      ];
      lost = λ j e. elim (Bool-cases (i == j)) [
        | inl same ↦ (env, out, rw same refl)
        | inr ne ↦
            let (env', out', s) = h.lost j (rw ne at e) in
            (env', out', put_slot-other i j (sent env out) x.server.slots ne ∙ s)
      ];
    }
      where
        there : (j : ℕ) → (i == j) ≡ true → removed_also f decode table w i x.gone j ≡ false → ⊥
        there j same e = apart (rw same at e)
          where
            apart : true ≡ false → ⊥
            apart q = cc

  pub Watch-Shadow :
      {x : Watched f decode table w}
      → Watch f decode table w x
      → (t : Server f) × Shadow f decode table w x t
  Watch-Shadow begins = (
    idle f,
    record { reached = here; jobs = refl; messages = refl; kept = λ i e. refl; lost = λ i e. cc },
  )
  Watch-Shadow (goes_on {x} r (steps s)) =
      let (t, h) = Watch-Shadow r in step-Shadow f decode table w x t h s
  Watch-Shadow (goes_on {x} r (removes i env q out e)) =
      let (t, h) = Watch-Shadow r in (t, removed-Shadow x t h i env out)
