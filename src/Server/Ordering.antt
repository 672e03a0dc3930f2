-- ===== src/Server/Ordering.antt =====
-- The order of answers: requests (src/main.cpp) that go through the queue of src/jobqueue.cpp.
use simurga.Base.{
  ℕ, ◌≡◌, refl, sym, ap, ◌∙◌, Bool, true, false, Option, none, some, List, [], ◌∷◌, ◌++◌,
  append_assoc, append-nil, Bytes,
}
use simurga.Daemon.{Request, new_request, response}
use simurga.Jobs.Interface.{CallQueue}
use simurga.Pages.World.{World}
use simurga.Server.Safety.{HasObject, by_message, Reach-HasObject}
use simurga.Server.Steps.{some-eq}
use simurga.Server.{
  Slot, active, sent, Call, handle_call, callback, Server, placed, accept, perform, worked, work,
  delivered, answered, deliver, accepts, works, delivers, halts, disturbs, Reach, here, next,
}
use simurga.Service.Routes.{ObjectTable}
use simurga.Service.{Environment}

-- The requests whose completion handler is among these calls.
unfoldable pub callbacks : List Call → List ℕ
callbacks [] = []
callbacks (handle_call i ∷ cs) = callbacks cs
callbacks (callback i ∷ cs) = i ∷ callbacks cs

callbacks-append : (a b : List Call) → callbacks (a ++ b) ≡ callbacks a ++ callbacks b
unfolding callbacks
callbacks-append [] b = refl
callbacks-append (handle_call i ∷ a) b = callbacks-append a b
callbacks-append (callback i ∷ a) b = ap (λ l. i ∷ l) (callbacks-append a b)

-- The request of a new number, if its first call of `response` has put it into the queue.
abbrev if_waiting : ℕ → Bool → List ℕ
if_waiting i true = []
if_waiting i false = i ∷ []

-- A request that is there and not complete.
abbrev if_active : ℕ → Option Slot → List ℕ
if_active i (some (active env q)) = i ∷ []
if_active i _ = []

-- The request that the next of these messages makes the manager call again.
abbrev called_by : List ℕ → (ℕ → Option Slot) → List ℕ
called_by [] slots = []
called_by (i ∷ ms) slots = if_active i (slots i)

module _ (f : CallQueue Call) (decode : Bytes → Bytes) (table : ObjectTable) (w : World) where
  -- The requests that a run has put into the queue, in the order in which they came.
  unfoldable pub queued_in : {s : Server f} → Reach f decode table w s → List ℕ
  queued_in here = []
  queued_in (next r (accepts i env n)) =
      queued_in r ++ if_waiting i (response decode table w (new_request env)).0
  queued_in (next r (works h)) = queued_in r
  queued_in (next r (delivers h)) = queued_in r
  queued_in (next r halts) = queued_in r
  queued_in (next r disturbs) = queued_in r

  -- The requests that a run has called `response` for again, in this order.
  unfoldable pub answered_in : {s : Server f} → Reach f decode table w s → List ℕ
  answered_in here = []
  answered_in (next r (accepts i env n)) = answered_in r
  answered_in (next r (works h)) = answered_in r
  answered_in (next {s} r (delivers h)) = answered_in r ++ called_by s.messages s.slots
  answered_in (next r halts) = answered_in r
  answered_in (next r disturbs) = answered_in r

  -- The requests that are still to be answered, in the order in which they will be.
  abbrev pub line : Server f → List ℕ
  line s = s.messages ++ callbacks (f.pending s.jobs)

  line-placed :
      (i : ℕ) (env : Environment) (r : Bool × Request) (s : Server f)
      → line (placed f decode table w i env r s) ≡ line s ++ if_waiting i r.0
  unfolding callbacks
  line-placed i env (true, q) s = sym (append-nil (line s))
  line-placed i env (false, q) s =
      ap (λ cs. s.messages ++ callbacks cs) (f.pending-push (handle_call i) (callback i) s.jobs)
      ∙ ap (λ l. s.messages ++ l)
          (callbacks-append (f.pending s.jobs) (handle_call i ∷ callback i ∷ []))
      ∙ sym (append_assoc s.messages (callbacks (f.pending s.jobs)) (i ∷ []))

  line-perform :
      (c : Option Call) (s : Server f) (jobs : f.State)
      → f.step s.jobs ≡ some (c, jobs)
      → line (perform f decode table w c (record s { jobs = jobs })) ≡ line s
  unfolding callbacks
  line-perform none s jobs e = ap (λ cs. s.messages ++ callbacks cs) (f.pending-rest s.jobs jobs e)
  line-perform (some (handle_call i)) s jobs e =
      ap (λ cs. s.messages ++ callbacks cs) (sym (f.pending-call s.jobs jobs (handle_call i) e))
  line-perform (some (callback i)) s jobs e =
      append_assoc s.messages (i ∷ []) (callbacks (f.pending jobs))
      ∙ ap (λ cs. s.messages ++ callbacks cs) (sym (f.pending-call s.jobs jobs (callback i) e))

  line-worked :
      (r : Option (Option Call × f.State)) (s : Server f) {s' : Server f}
      → f.step s.jobs ≡ r
      → worked f decode table w r s ≡ some s'
      → line s' ≡ line s
  line-worked none s e h = cc
  line-worked (some (c, jobs)) s e h = ap line (sym (some-eq _ _ h)) ∙ line-perform c s jobs e

  line-work : (s : Server f) {s' : Server f} → work f decode table w s ≡ some s' → line s' ≡ line s
  unfolding work
  line-work s h = line-worked (f.step s.jobs) s refl h

  line-answered :
      (i : ℕ) (slot : Option Slot) (s : Server f)
      → line (answered f decode table w i slot s) ≡ line s
  line-answered i none s = refl
  line-answered i (some (active env q)) s = refl
  line-answered i (some (sent env out)) s = refl

  called_by-HasObject :
      (i : ℕ) (slots : ℕ → Option Slot) → HasObject (slots i) → if_active i (slots i) ≡ i ∷ []
  called_by-HasObject i slots h = ap (if_active i) h.waits

  line-delivered :
      (ms : List ℕ) (s : Server f) {s' : Server f}
      → Reach f decode table w s
      → s.messages ≡ ms
      → delivered f decode table w ms s ≡ some s'
      → line s ≡ called_by ms s.slots ++ line s'
  line-delivered [] s r e h = cc
  line-delivered (i ∷ ms) s {s'} r e h =
      let there : called_by (i ∷ ms) s.slots ≡ i ∷ [] =
        called_by-HasObject i s.slots (Reach-HasObject f decode table w r (by_message ms e)) in
      let kept : line s' ≡ ms ++ callbacks (f.pending s.jobs) =
        ap line (sym (some-eq _ _ h)) ∙ line-answered i (s.slots i) (record s { messages = ms }) in
      ap (λ l. l ++ callbacks (f.pending s.jobs)) e ∙ sym (rw (there, kept) refl)

  line-deliver :
      (s : Server f) {s' : Server f}
      → Reach f decode table w s
      → deliver f decode table w s ≡ some s'
      → line s ≡ called_by s.messages s.slots ++ line s'
  unfolding deliver
  line-deliver s r h = line-delivered s.messages s r refl h

  -- In every reachable state the requests that have gone into the queue are, in the order in which they
  -- came, those that `response` has been called for again, in the order of these calls, and then those
  -- that a message or a completion handler is still there for. So requests are answered in the order in
  -- which they came, whatever the two threads do in between, and none is lost or answered twice.
  pub Reach-in_order :
      {s : Server f} (r : Reach f decode table w s) → queued_in r ≡ answered_in r ++ line s
  unfolding queued_in answered_in callbacks accept
  Reach-in_order here = ap callbacks (sym f.pending-empty)
  Reach-in_order (next {s} r (accepts i env n)) =
      let given = response decode table w (new_request env) in
      ap (λ l. l ++ if_waiting i given.0) (Reach-in_order r)
      ∙ append_assoc (answered_in r) (line s) (if_waiting i given.0)
      ∙ ap (λ l. answered_in r ++ l) (sym (line-placed i env given s))
  Reach-in_order (next {s} r (works h)) =
      Reach-in_order r ∙ ap (λ l. answered_in r ++ l) (sym (line-work s h))
  Reach-in_order (next {s} {s'} r (delivers h)) =
      Reach-in_order r
      ∙ ap (λ l. answered_in r ++ l) (line-deliver s r h)
      ∙ sym (append_assoc (answered_in r) (called_by s.messages s.slots) (line s'))
  Reach-in_order (next {s} r halts) =
      Reach-in_order r
      ∙ ap (λ cs. answered_in r ++ (s.messages ++ callbacks cs)) (sym (f.pending-halt s.jobs))
  Reach-in_order (next {s} r disturbs) =
      Reach-in_order r
      ∙ ap (λ cs. answered_in r ++ (s.messages ++ callbacks cs)) (sym (f.pending-disturb s.jobs))
