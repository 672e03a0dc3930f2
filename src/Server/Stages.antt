-- ===== src/Server/Stages.antt =====
-- How far a request of src/main.cpp has come, by what the server holds for it.
use simurga.Base.{
  ℕ, ◌≡◌, refl, ap, ◌∙◌, true, false, Option, none, some, List, [], ◌∷◌, ◌++◌, ◌==◌, if◌then◌else◌,
  arith, Bytes,
}
use simurga.Daemon.{Request, new_request, response, run_job, complete, serve}
use simurga.Pages.World.{World}
use simurga.Service.Routes.{ObjectTable}
use simurga.Service.{Environment}
use simurga.Server.{Call, handle_call, callback, Slot, active, sent, put_slot}

abbrev pub number_of : Call → ℕ
number_of (handle_call i) = i
number_of (callback i) = i

-- The calls for one request, and the messages for it.
unfoldable pub about : ℕ → List Call → List Call
about i [] = []
about i (c ∷ cs) = let rest = about i cs in if number_of c == i then c ∷ rest else rest

unfoldable pub mails : ℕ → List ℕ → List ℕ
mails i [] = []
mails i (k ∷ ms) = let rest = mails i ms in if k == i then k ∷ rest else rest

pub about-own :
    (i : ℕ) (c : Call) (cs : List Call)
    → (number_of c == i) ≡ true
    → about i (c ∷ cs) ≡ c ∷ about i cs
unfolding about
about-own i c cs e = rw e

pub about-other :
    (i : ℕ) (c : Call) (cs : List Call) → (number_of c == i) ≡ false → about i (c ∷ cs) ≡ about i cs
unfolding about
about-other i c cs e = rw e

pub about-append : (i : ℕ) (a b : List Call) → about i (a ++ b) ≡ about i a ++ about i b
unfolding about
about-append i [] b = refl
about-append i (c ∷ a) b = ground (arith, about-append i a b)

-- The two calls that a request adds.
pub about-added :
    (i : ℕ) → about i (handle_call i ∷ callback i ∷ []) ≡ handle_call i ∷ callback i ∷ []
unfolding about
about-added i = ground arith

pub about-added_other :
    (i j : ℕ) → (i == j) ≡ false → about j (handle_call i ∷ callback i ∷ []) ≡ []
unfolding about
about-added_other i j e = rw e

pub mails-own : (i k : ℕ) (ms : List ℕ) → (k == i) ≡ true → mails i (k ∷ ms) ≡ k ∷ mails i ms
unfolding mails
mails-own i k ms e = rw e

pub mails-other : (i k : ℕ) (ms : List ℕ) → (k == i) ≡ false → mails i (k ∷ ms) ≡ mails i ms
unfolding mails
mails-other i k ms e = rw e

pub mails-append : (i : ℕ) (a b : List ℕ) → mails i (a ++ b) ≡ mails i a ++ mails i b
unfolding mails
mails-append i [] b = refl
mails-append i (k ∷ a) b = ground (arith, mails-append i a b)

pub ==-self : (i : ℕ) → (i == i) ≡ true
==-self i = ground arith

pub put_slot-own :
    (i : ℕ) (slot : Slot) (slots : ℕ → Option Slot) → put_slot i slot slots i ≡ some slot
put_slot-own i slot slots = rw (==-self i)

pub put_slot-other :
    (i j : ℕ) (slot : Slot) (slots : ℕ → Option Slot)
    → (i == j) ≡ false
    → put_slot i slot slots j ≡ slots j
put_slot-other i j slot slots e = rw e

module _ (decode : Bytes → Bytes) (table : ObjectTable) (w : World) where
  -- The first call of `response` has added a job.
  abbrev pub Begun : Environment → Request → Type 0
  Begun env q = response decode table w (new_request env) ≡ (false, q)

  abbrev pub answer_of : Environment → Bytes
  answer_of env = (serve decode table w env).1.out

  -- The slot of request `i`, the calls that are pending for it and the messages on their way.
  pub data Stage (i : ℕ) (slot : Option Slot) (calls : List Call) (mail : List ℕ) : Type 0 where
    absent : slot ≡ none → calls ≡ [] → mail ≡ [] → Stage i slot calls mail
    queued :
        (env : Environment) (q : Request)
        → Begun env q
        → slot ≡ some (active env q)
        → calls ≡ handle_call i ∷ callback i ∷ []
        → mail ≡ []
        → Stage i slot calls mail
    handled :
        (env : Environment) (q : Request)
        → Begun env q
        → slot ≡ some (active env (run_job decode table w q))
        → calls ≡ callback i ∷ []
        → mail ≡ []
        → Stage i slot calls mail
    notified :
        (env : Environment) (q : Request)
        → Begun env q
        → slot ≡ some (active env (run_job decode table w q))
        → calls ≡ []
        → mail ≡ i ∷ []
        → Stage i slot calls mail
    finished :
        (env : Environment)
        → slot ≡ some (sent env (answer_of env))
        → calls ≡ []
        → mail ≡ []
        → Stage i slot calls mail

  pub Stage-same :
      {i : ℕ} {a a' : Option Slot} {b b' : List Call} {c c' : List ℕ}
      → a' ≡ a
      → b' ≡ b
      → c' ≡ c
      → Stage i a b c
      → Stage i a' b' c'
  Stage-same p q r (absent x y z) = absent (p ∙ x) (q ∙ y) (r ∙ z)
  Stage-same p q r (queued env u g x y z) = queued env u g (p ∙ x) (q ∙ y) (r ∙ z)
  Stage-same p q r (handled env u g x y z) = handled env u g (p ∙ x) (q ∙ y) (r ∙ z)
  Stage-same p q r (notified env u g x y z) = notified env u g (p ∙ x) (q ∙ y) (r ∙ z)
  Stage-same p q r (finished env x y z) = finished env (p ∙ x) (q ∙ y) (r ∙ z)

  -- Between the two calls of `response` the answer is still to come, and it is the one of `serve`.
  pub serve-Begun :
      (env : Environment) (q : Request)
      → Begun env q
      → serve decode table w env ≡ response decode table w (run_job decode table w q)
  unfolding serve
  serve-Begun env q g = ap (complete decode table w) g

  pub serve_complete :
      (env : Environment) (q : Request)
      → response decode table w (new_request env) ≡ (true, q)
      → serve decode table w env ≡ (true, q)
  unfolding serve
  serve_complete env q g = ap (complete decode table w) g

  -- A new request, by what `response` gave for it.
  pub Stage-accept :
      (i : ℕ) (slot : Option Slot) (calls : List Call) (mail : List ℕ)
      → slot ≡ none
      → Stage i slot calls mail
      → (calls ≡ []) × (mail ≡ [])
  Stage-accept i slot calls mail n (absent x y z) = (y, z)
  Stage-accept i slot calls mail n (queued env u g x y z) = cc
  Stage-accept i slot calls mail n (handled env u g x y z) = cc
  Stage-accept i slot calls mail n (notified env u g x y z) = cc
  Stage-accept i slot calls mail n (finished env x y z) = cc

  -- The request whose job is called, the one whose completion handler is called, and the one of a
  -- message.
  pub Stage-handle :
      (i : ℕ) (slot : Option Slot) (calls rest : List Call) (mail : List ℕ)
      → calls ≡ handle_call i ∷ rest
      → Stage i slot calls mail
      → (env : Environment) × (q : Request) × Begun env q
        × (slot ≡ some (active env q))
        × (rest ≡ callback i ∷ [])
        × (mail ≡ [])
  Stage-handle i slot calls rest mail e (absent x y z) = cc
  Stage-handle i slot calls rest mail e (queued env u g x y z) = (env, u, g, x, cc, z)
  Stage-handle i slot calls rest mail e (handled env u g x y z) = cc
  Stage-handle i slot calls rest mail e (notified env u g x y z) = cc
  Stage-handle i slot calls rest mail e (finished env x y z) = cc

  pub Stage-callback :
      (i : ℕ) (slot : Option Slot) (calls rest : List Call) (mail : List ℕ)
      → calls ≡ callback i ∷ rest
      → Stage i slot calls mail
      → (env : Environment) × (q : Request) × Begun env q
        × (slot ≡ some (active env (run_job decode table w q)))
        × (rest ≡ [])
        × (mail ≡ [])
  Stage-callback i slot calls rest mail e (absent x y z) = cc
  Stage-callback i slot calls rest mail e (queued env u g x y z) = cc
  Stage-callback i slot calls rest mail e (handled env u g x y z) = (env, u, g, x, cc, z)
  Stage-callback i slot calls rest mail e (notified env u g x y z) = cc
  Stage-callback i slot calls rest mail e (finished env x y z) = cc

  pub Stage-message :
      (i : ℕ) (slot : Option Slot) (calls : List Call) (mail rest : List ℕ)
      → mail ≡ i ∷ rest
      → Stage i slot calls mail
      → (env : Environment) × (q : Request) × Begun env q
        × (slot ≡ some (active env (run_job decode table w q)))
        × (calls ≡ [])
        × (rest ≡ [])
  Stage-message i slot calls mail rest e (absent x y z) = cc
  Stage-message i slot calls mail rest e (queued env u g x y z) = cc
  Stage-message i slot calls mail rest e (handled env u g x y z) = cc
  Stage-message i slot calls mail rest e (notified env u g x y z) = (env, u, g, x, y, cc)
  Stage-message i slot calls mail rest e (finished env x y z) = cc
