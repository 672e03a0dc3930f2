-- ===== src/Text/Trim.antt =====
-- `trim` of src/main.cpp on texts with white bytes at their ends.
use simurga.Base.{
  Option-cases, inl, inr, suc, take, ℕ, ◌+◌, ◌-◌, ◌≡◌, refl, Bool, true, false, not, none, some, [],
  ◌∷◌, ◌++◌, arith, length, Bytes, All, append-nil, take-length-append, drop-length-append,
}
use simurga.Text.{find_first_if, find_last_if, trim, is_white}

abbrev pub IsWhite : Bytes → Type 0
IsWhite = All (λ c. is_white c ≡ true)

-- The last byte is there and is not white.
abbrev pub ends_solid : Bytes → Bool
ends_solid [] = false
ends_solid (c ∷ []) = not (is_white c)
ends_solid (c ∷ d ∷ s) = ends_solid (d ∷ s)

abbrev pub starts_solid : Bytes → Bool
starts_solid [] = false
starts_solid (c ∷ s) = not (is_white c)

-- Neither end is white; such a text is not empty.
pub record IsTrimmed (s : Bytes) : Type 0 where
  pub starts : starts_solid s ≡ true
  pub ends : ends_solid s ≡ true

abbrev solid : ℕ → Bool
solid c = not (is_white c)

find_first-white :
    (w s : Bytes)
    → IsWhite w
    → starts_solid s ≡ true
    → find_first_if solid (w ++ s) ≡ some (length w)
unfolding find_first_if
find_first-white [] [] h e = cc
find_first-white [] (c ∷ s) h e = rw e
find_first-white (x ∷ w) s h e = rw (h.0, find_first-white w s h.1 e)

find_last-white : (w : Bytes) → IsWhite w → find_last_if solid w ≡ none
unfolding find_last_if
find_last-white [] h = refl
find_last-white (x ∷ w) h = rw (find_last-white w h.1, h.0)

find_last-solid :
    (s w : Bytes)
    → IsWhite w
    → ends_solid s ≡ true
    → find_last_if solid (s ++ w) ≡ some (length s - 1)
unfolding find_last_if
find_last-solid [] w h e = cc
find_last-solid (c ∷ []) w h e = rw (find_last-white w h, e)
find_last-solid (c ∷ d ∷ s) w h e = ground (arith, find_last-solid (d ∷ s) w h e)

find_last-append :
    (w s : Bytes) (i : ℕ)
    → find_last_if solid s ≡ some i
    → find_last_if solid (w ++ s) ≡ some (length w + i)
unfolding find_last_if
find_last-append [] s i h = ground arith
find_last-append (x ∷ w) s i h = ground (arith, find_last-append w s i h)

length-starts_solid : (s : Bytes) → starts_solid s ≡ true → length s - 1 + 1 ≡ length s
length-starts_solid [] h = cc
length-starts_solid (c ∷ s) h = omega arith

starts_solid-append : (s w : Bytes) → starts_solid s ≡ true → starts_solid (s ++ w) ≡ true
starts_solid-append [] w h = cc
starts_solid-append (c ∷ s) w h = h

-- White bytes around a trimmed text, and only those, are taken off.
pub trim-append_white :
    (w s w' : Bytes) → IsWhite w → IsWhite w' → IsTrimmed s → trim (w ++ (s ++ w')) ≡ s
unfolding trim
trim-append_white w s w' h h' t =
    rw (find_first-white w (s ++ w') h (starts_solid-append s w' t.starts)) (
      rw (find_last-append w (s ++ w') _ (find_last-solid s w' h' t.ends))
        (rw (drop-length-append w (s ++ w'), trimmed_count) (take-length-append s w')))
  where
    trimmed_count : length w + (length s - 1) - length w + 1 ≡ length s
    trimmed_count = omega (arith, length-starts_solid s t.starts)

find_first-none : (w : Bytes) → IsWhite w → find_first_if solid w ≡ none
unfolding find_first_if
find_first-none [] h = refl
find_first-none (x ∷ w) h = rw (find_first-none w h.1, h.0)

-- A text of white bytes is trimmed to nothing.
pub trim-white : (w : Bytes) → IsWhite w → trim w ≡ []
unfolding trim
trim-white w h = rw (find_first-none w h)

-- A trimmed text stays as it is.
pub trim-IsTrimmed : (s : Bytes) → IsTrimmed s → trim s ≡ s
trim-IsTrimmed s t = rw append-nil at (trim-append_white [] s [] tt tt t)

find_last-cons :
    (c : ℕ) (s : Bytes) → is_white c ≡ false → (i : ℕ) × (find_last_if solid (c ∷ s) ≡ some i)
unfolding find_last_if
find_last-cons c s h = elim (Option-cases (find_last_if solid s)) [
  | inl e ↦ (0, rw e (rw h))
  | inr (i, e) ↦ (suc i, rw e)
]

-- Trimming keeps a first byte that is not white.
pub trim-cons : (c : ℕ) (s : Bytes) → is_white c ≡ false → (t : Bytes) × (trim (c ∷ s) ≡ c ∷ t)
unfolding trim
trim-cons c s h = let (i, e) = find_last-cons c s h in (take i s, rw (h, e) (rw (count i)))
  where
    count : (i : ℕ) → i - 0 + 1 ≡ suc i
    count i = omega arith

pub ends_solid-append : (a b : Bytes) → ends_solid b ≡ true → ends_solid (a ++ b) ≡ true
ends_solid-append [] b h = h
ends_solid-append (c ∷ []) [] h = cc
ends_solid-append (c ∷ []) (d ∷ b) h = h
ends_solid-append (c ∷ d ∷ a) b h = ends_solid-append (d ∷ a) b h
