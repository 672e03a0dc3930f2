-- ===== src/Text/Find.antt =====
-- Where `find` stops.
use simurga.Base.{
  ℕ, ◌+◌, ◌-◌, ◌≤◌, ◌≡◌, ◌≢◌, true, none, some, [], ◌∷◌, ◌++◌, arith, length, Bytes, ==_iff,
}
use simurga.Text.{find, starts_with}

-- A two-byte mark is found right behind a text that does not hold it.
pub find-append_mark :
    (a b : ℕ) (s r : Bytes)
    → a ≢ b
    → find (a ∷ b ∷ []) s ≡ none
    → find (a ∷ b ∷ []) (s ++ a ∷ b ∷ r) ≡ some (length s)
unfolding find
find-append_mark a b [] r ne h = ground (arith, ==_iff a a, ==_iff b b)
find-append_mark a b (c ∷ []) r ne h = ground (arith, find-append_mark a b [] r ne)
find-append_mark a b (c ∷ d ∷ s) r ne h = ground (arith, find-append_mark a b (d ∷ s) r ne)

-- A byte is found right behind a text that does not hold it.
pub find-append_byte :
    (a : ℕ) (s r : Bytes) → find (a ∷ []) s ≡ none → find (a ∷ []) (s ++ a ∷ r) ≡ some (length s)
unfolding find
find-append_byte a [] r h = ground (arith, ==_iff a a)
find-append_byte a (c ∷ s) r h = ground (arith, find-append_byte a s r)

starts_with-le-length : (p s : Bytes) → starts_with p s ≡ true → length p ≤ length s
unfolding starts_with
starts_with-le-length [] s h = omega arith
starts_with-le-length (p ∷ ps) [] h = cc
starts_with-le-length (p ∷ ps) (c ∷ s) h = ground (arith, starts_with-le-length ps s)

-- A mark that is found lies within the text.
pub find-le-length : (p s : Bytes) (i : ℕ) → find p s ≡ some i → i + length p ≤ length s
unfolding find
find-le-length p [] i h = ground (arith, starts_with-le-length p [])
find-le-length p (c ∷ s) i h =
    ground (arith, find-le-length p s (i - 1), starts_with-le-length p (c ∷ s))
