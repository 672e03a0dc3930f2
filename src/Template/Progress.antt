-- ===== src/Template/Progress.antt =====
-- How far each token of src/template.cpp moves on in the input, and the fuel that takes.
use simurga.Base.{
  ℕ, zero, suc, ◌+◌, ◌-◌, ◌<◌, ◌≤◌, ◌≡◌, ◌≢◌, refl, Bool, true, false, Option, none, some, [], ◌∷◌,
  arith, if◌then◌else◌, length, take, drop, Bytes, Exception, length-drop,
}
use simurga.Text.{find, trim}
use simurga.Text.Find.{find-le-length}
use simurga.Template.{TokenType, end_type, none_type, else_type, separator_type}
use simurga.Template.Parser.{
  Outcome, done, failed, out_of_fuel, ◌>>=◌, Sub, Tag, simple, bad, if_tag, for_tag, classify,
  build, read_tag, next_at, next_token, text_length, open_mark, close_mark, second_list, ends_list,
  get_next_token, parse_subtokens, parse_loop, parse,
}

-- The code stays within its fuel, and `P` holds of what it returns if it raises nothing.
pub data Ensures {ℓ κ} {A : Type ℓ} (P : A → Type κ) : Outcome A → Type (ℓ ⊔ κ) where
  returned : {a : A} → P a → Ensures P (done a)
  raised : {e : Exception} → Ensures P (failed e)

module _ {ℓ κ} {A : Type ℓ} {P : A → Type κ} where
  pub Ensures-out_of_fuel : {r : Outcome A} → Ensures P r → r ≢ out_of_fuel
  Ensures-out_of_fuel (returned h) = cc
  Ensures-out_of_fuel raised = cc

  pub Ensures-bind {ℓ' κ'} :
      {B : Type ℓ'} {Q : B → Type κ'} {r : Outcome A} {f : A → Outcome B}
      → Ensures P r
      → ((a : A) → P a → Ensures Q (f a))
      → Ensures Q (r >>= f)
  Ensures-bind (returned {a} h) k = k a h
  Ensures-bind raised k = raised

  Ensures-mono {κ'} :
      {Q : A → Type κ'} {r : Outcome A} → ((a : A) → P a → Q a) → Ensures P r → Ensures Q r
  Ensures-mono k (returned {a} h) = returned (k a h)
  Ensures-mono k raised = raised

  Ensures-if :
      (b : Bool) {x y : Outcome A} → Ensures P x → Ensures P y → Ensures P (if b then x else y)
  Ensures-if true hx hy = hx
  Ensures-if false hx hy = hy

-- Reads at most `n` bytes' worth of input safely: what is left is no longer than what was given.
abbrev SubOk : ℕ → Sub → Type 0
SubOk n sub =
    (end1 end2 : TokenType) (s : Bytes)
    → length s < n
    → Ensures (λ (ty, ts, r). length r ≤ length s) (sub end1 end2 s)

module _ (n : ℕ) (sub : Sub) (h : SubOk n sub) where
  second_list-Ensures :
      (more ty : TokenType) (r : Bytes)
      → length r < n
      → Ensures (λ (ts, r'). length r' ≤ length r) (second_list sub more ty r)
  second_list-Ensures more ty r l =
      Ensures-if _ (Ensures-bind (h end_type none_type r l) λ (_, ts, r') p. returned p)
        (returned (omega arith))

  build-Ensures :
      (t : Tag) (r : Bytes)
      → length r < n
      → Ensures (λ (t', r'). length r' ≤ length r) (build sub t r)
  unfolding build
  build-Ensures (simple t) r l = returned (omega arith)
  build-Ensures (bad e) r l = raised
  build-Ensures (if_tag name) r l = Ensures-bind (h end_type else_type r l) λ (ty, ts, r₁) p.
      Ensures-bind (second_list-Ensures else_type ty r₁ (omega arith))
        λ (fs, r₂) q. returned (omega arith)
  build-Ensures (for_tag name) r l = Ensures-bind (h end_type separator_type r l) λ (ty, ts, r₁) p.
      Ensures-bind (second_list-Ensures separator_type ty r₁ (omega arith))
        λ (fs, r₂) q. returned (omega arith)

  read_tag-Ensures :
      (s : Bytes) (p : Option ℕ)
      → find close_mark s ≡ p
      → length s < n + 2
      → Ensures (λ (t', r'). length r' + 2 ≤ length s) (read_tag sub s p)
  unfolding read_tag
  read_tag-Ensures s none e l = raised
  read_tag-Ensures s (some i) e l =
      Ensures-mono (λ (t, r) q. omega (arith, shorter))
        (build-Ensures (classify (trim (take i s))) (drop (i + 2) s) (omega (arith, shorter)))
    where
      shorter : length (drop (i + 2) s) + i + 2 ≡ length s
      shorter = omega (arith, length-drop (i + 2) s, find-le-length close_mark s i e)

  next_at-Ensures :
      (s : Bytes) (k : ℕ)
      → text_length (find open_mark s) s ≡ k
      → length s < n + 4
      → 0 < length s
      → Ensures (λ (t', r'). length r' < length s) (next_at sub s k)
  unfolding next_at
  next_at-Ensures s zero e l pos =
      Ensures-mono (λ (t, r) q. omega (arith, length-drop 2 s))
        (read_tag-Ensures (drop 2 s) _ refl (omega (arith, length-drop 2 s)))
  next_at-Ensures s (suc k) e l pos = returned (omega (arith, length-drop (suc k) s))

next_token-Ensures :
    (n : ℕ) (sub : Sub) (s : Bytes)
    → SubOk n sub
    → length s < n + 4
    → 0 < length s
    → Ensures (λ (t, r). length r < length s) (next_token sub s)
unfolding next_token
next_token-Ensures n sub s h l pos = next_at-Ensures n sub h s _ refl l pos

-- A call of `get_next_token` leaves less than it was given, one of `parse_subtokens` no more.
mutual
  unfolding get_next_token

  get_next_token-Ensures :
      (f : ℕ) (s : Bytes)
      → length s + length s < f
      → 0 < length s
      → Ensures (λ (t, r). length r < length s) (get_next_token f s)
  get_next_token-Ensures zero s h pos = absurd (omega arith)
  get_next_token-Ensures (suc f) s h pos =
      next_token-Ensures (length s - 3) (parse_subtokens f) s
        (λ end1 end2 r l. parse_subtokens-Ensures f end1 end2 r (omega arith)) (omega arith) pos

  parse_subtokens-Ensures :
      (f : ℕ) (end1 end2 : TokenType) (s : Bytes)
      → length s + length s + 1 < f
      → Ensures (λ (ty, ts, r). length r ≤ length s) (parse_subtokens f end1 end2 s)
  parse_subtokens-Ensures zero end1 end2 s h = absurd (omega arith)
  parse_subtokens-Ensures (suc f) end1 end2 [] h = raised
  parse_subtokens-Ensures (suc f) end1 end2 (c ∷ s) h =
      Ensures-bind (get_next_token-Ensures f (c ∷ s) (omega arith) (omega arith)) λ (t, r) p.
        Ensures-if (ends_list end1 end2 t) (returned (omega arith)) (
          Ensures-bind (parse_subtokens-Ensures f end1 end2 r (omega arith))
            λ (ty, ts, r') q. returned (omega arith))

parse_loop-Ensures :
    (f : ℕ) (s : Bytes) → length s + length s + 1 < f → Ensures (λ ts. Unit {0}) (parse_loop f s)
unfolding parse_loop
parse_loop-Ensures zero s h = absurd (omega arith)
parse_loop-Ensures (suc f) [] h = returned tt
parse_loop-Ensures (suc f) (c ∷ s) h =
    Ensures-bind (get_next_token-Ensures f (c ∷ s) (omega arith) (omega arith))
      λ (t, r) p. Ensures-bind (parse_loop-Ensures f r (omega arith)) λ ts q. returned tt

-- The fuel that the model of parse gives suffices for every input, so the parser always ends with
-- tokens or an exception.
pub parse-ne-out_of_fuel : (s : Bytes) → parse s ≢ out_of_fuel
unfolding parse
parse-ne-out_of_fuel s = Ensures-out_of_fuel (parse_loop-Ensures _ s (omega arith))
