-- ===== src/Server/Steps/Deliver.antt =====
-- A message that is delivered (src/main.cpp) against the stages of the requests.
use simurga.Base.{
  ℕ, ◌≡◌, refl, sym, ap, ◌∙◌, Bool, true, false, Option, none, some, List, [], ◌∷◌, ◌==◌, Bytes,
}
use mathlib.Core.Path.{subst}
use simurga.Daemon.{Request, serve}
use simurga.Daemon.Serving.{serve-Served}
use simurga.Jobs.Interface.{CallQueue}
use simurga.Pages.World.{World}
use simurga.Server.Stages.{
  mails, mails-own, mails-other, put_slot-own, put_slot-other, ==-self, finished, Stage-same,
  Stage-message, serve-Begun,
}
use simurga.Server.{Call, Slot, active, sent, Server, slot_after, answered, delivered, deliver}
use simurga.Service.Routes.{ObjectTable}
use simurga.Service.{Environment}
use simurga.Server.Steps.{some-eq, Holds, Good, each}

module _ (f : CallQueue Call) (decode : Bytes → Bytes) (table : ObjectTable) (w : World) where
  slot_after-done :
      (env : Environment) (r : Bool × Request)
      → r.0 ≡ true
      → slot_after f decode table w env r ≡ sent env r.1.out
  slot_after-done env (true, q) e = refl
  slot_after-done env (false, q) e = cc

  answer-own :
      (i : ℕ) (s : Server f) (ms : List ℕ)
      → s.messages ≡ i ∷ ms
      → Holds f decode table w s i
      → Holds f decode table w
          (answered f decode table w i (s.slots i) (record s { messages = ms }))
          i
  answer-own i s ms e h =
      let (env, q, g, slot, calls, mail) =
        Stage-message decode table w i _ _ _ (mails i ms)
          (ap (mails i) e ∙ mails-own i i ms (==-self i)) h in
      subst
        (λ sl.
          Holds f decode table w (answered f decode table w i sl (record s { messages = ms })) i)
        (sym slot)
        (finished env
          (put_slot-own i _ s.slots
            ∙ ap some (
                ap (slot_after f decode table w env) (sym (serve-Begun decode table w env q g))
                ∙ slot_after-done env (serve decode table w env)
                    (serve-Served decode table w env).0))
          calls mail)

  answer-others :
      (i j : ℕ) (slot : Option Slot) (s : Server f) (ms : List ℕ)
      → s.messages ≡ i ∷ ms
      → (i == j) ≡ false
      → Holds f decode table w s j
      → Holds f decode table w (answered f decode table w i slot (record s { messages = ms })) j
  answer-others i j none s ms e ne h =
      Stage-same decode table w refl refl (sym (ap (mails j) e ∙ mails-other j i ms ne)) h
  answer-others i j (some (sent env out)) s ms e ne h =
      Stage-same decode table w refl refl (sym (ap (mails j) e ∙ mails-other j i ms ne)) h
  answer-others i j (some (active env q)) s ms e ne h =
      Stage-same decode table w (put_slot-other i j _ s.slots ne) refl
        (sym (ap (mails j) e ∙ mails-other j i ms ne)) h

  delivered-Good :
      (ms : List ℕ) (s : Server f) {s' : Server f}
      → s.messages ≡ ms
      → delivered f decode table w ms s ≡ some s'
      → Good f decode table w s
      → Good f decode table w s'
  delivered-Good [] s e h g = cc
  delivered-Good (i ∷ ms) s e h g = subst (Good f decode table w) (some-eq _ _ h) (
      each f decode table w _ i (answer-own i s ms e (g i))
        λ j ne. answer-others i j (s.slots i) s ms e ne (g j))

  pub deliver-Good :
      (s : Server f) {s' : Server f}
      → deliver f decode table w s ≡ some s'
      → Good f decode table w s
      → Good f decode table w s'
  unfolding deliver
  deliver-Good s h g = delivered-Good s.messages s refl h g
