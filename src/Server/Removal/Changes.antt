-- ===== src/Server/Removal/Changes.antt =====
-- Changes of one request that is not complete (src/main.cpp), in two servers that agree on the others.
use simurga.Base.{
  ℕ, ◌≡◌, refl, sym, ap, ◌∙◌, Bool, false, Option, none, some, ◌==◌, ==_iff, Bytes, Bool-cases, inl,
  inr,
}
use mathlib.Core.Path.{subst}
use simurga.Daemon.{Request}
use simurga.Server.Stages.{put_slot-other, put_slot-own}
use simurga.Server.{Slot, active, sent, put_slot}
use simurga.Service.{Environment}

abbrev pub IsSent : Option Slot → Type 0
IsSent slot = (env : Environment) × (out : Bytes) × (slot ≡ some (sent env out))

-- A change of one request that is not complete.
abbrev pub at_slot :
    (Environment → Request → Slot) → ℕ → Option Slot → (ℕ → Option Slot) → ℕ → Option Slot
at_slot g i (some (active env q)) slots = put_slot i (g env q) slots
at_slot g i _ slots = slots

at_slot-other :
    (g : Environment → Request → Slot) (i j : ℕ) (slot : Option Slot) (slots : ℕ → Option Slot)
    → (i == j) ≡ false
    → at_slot g i slot slots j ≡ slots j
at_slot-other g i j (some (active env q)) slots e = put_slot-other i j (g env q) slots e
at_slot-other g i j (some (sent env out)) slots e = refl
at_slot-other g i j none slots e = refl

at_slot-own :
    (g : Environment → Request → Slot) (i : ℕ) (s t : Option Slot) (a b : ℕ → Option Slot)
    → s ≡ t
    → a i ≡ b i
    → at_slot g i s a i ≡ at_slot g i t b i
at_slot-own g i s t a b e h = subst (λ u. at_slot g i s a i ≡ at_slot g i u b i) e (same s)
  where
    same : (s : Option Slot) → at_slot g i s a i ≡ at_slot g i s b i
    same (some (active env q)) = put_slot-own i _ a ∙ sym (put_slot-own i _ b)
    same (some (sent env out)) = h
    same none = h

pub at_slot-kept :
    (g : Environment → Request → Slot) (i j : ℕ) (a b : ℕ → Option Slot) (gone : ℕ → Bool)
    → ((k : ℕ) → gone k ≡ false → a k ≡ b k)
    → gone j ≡ false
    → at_slot g i (a i) a j ≡ at_slot g i (b i) b j
at_slot-kept g i j a b gone kept h = elim (Bool-cases (i == j)) [
  | inl e ↦
      let same : i ≡ j = (==_iff i j).0 e in
      subst (λ k. at_slot g i (a i) a k ≡ at_slot g i (b i) b k) same
        (at_slot-own g i (a i) (b i) a b (kept i (ap gone same ∙ h)) (kept i (ap gone same ∙ h)))
  | inr e ↦ at_slot-other g i j (a i) a e ∙ kept j h ∙ sym (at_slot-other g i j (b i) b e)
]

pub at_slot-lost :
    (g : Environment → Request → Slot) (i j : ℕ) (a : ℕ → Option Slot)
    → IsSent (a j)
    → IsSent (at_slot g i (a i) a j)
at_slot-lost g i j a (env, out, h) = elim (Bool-cases (i == j)) [
  | inl e ↦
      let same : i ≡ j = (==_iff i j).0 e in
      (env, out, subst (λ s. at_slot g i s a j ≡ some (sent env out)) (sym (ap a same ∙ h)) h)
  | inr e ↦ (env, out, at_slot-other g i j (a i) a e ∙ h)
]
