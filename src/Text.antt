-- ===== src/Text.antt =====
-- The operations of std::string that the program uses, over lists of bytes, and `trim` of
-- src/main.cpp. A position is a number and npos is `none`.
pub mod Find
pub mod Trim
pub mod Decimal
pub mod Decimals
use simurga.Base.{
  ℕ, zero, suc, ◌+◌, ◌-◌, ◌≡◌, ◌↔◌, refl, Bool, true, false, not, ◌&&◌, ◌||◌, Option, none, some,
  List, [], ◌∷◌, ◌++◌, arith, ltb, ◌==◌, ==_iff, if◌then◌else◌, length, take, drop, Bytes,
}
use mathlib.Core.Option

-- operator==
unfoldable pub equal : Bytes → Bytes → Bool
equal [] [] = true
equal (x ∷ xs) (y ∷ ys) = x == y && equal xs ys
equal _ _ = false

pub equal_iff : (s t : Bytes) → (equal s t ≡ true) ↔ (s ≡ t)
unfolding equal
equal_iff [] [] = ground arith
equal_iff [] (d ∷ t) = ground arith
equal_iff (c ∷ s) [] = ground arith
equal_iff (c ∷ s) (d ∷ t) = ground (equal_iff s t, arith)

pub equal_refl : (a : Bytes) → equal a a ≡ true
equal_refl a = (equal_iff a a).1 refl

-- operator<
unfoldable pub less : Bytes → Bytes → Bool
less [] [] = false
less [] (y ∷ ys) = true
less (x ∷ xs) [] = false
less (x ∷ xs) (y ∷ ys) = ltb x y || (x == y && less xs ys)

unfoldable pub starts_with : Bytes → Bytes → Bool
starts_with [] s = true
starts_with (p ∷ ps) [] = false
starts_with (p ∷ ps) (c ∷ s) = p == c && starts_with ps s

-- s.find(p)
unfoldable pub find : Bytes → Bytes → Option ℕ
unfolding starts_with
find p [] = if starts_with p [] then some 0 else none
find p (c ∷ s) = if starts_with p (c ∷ s) then some 0 else Option.map suc (find p s)

-- The first and the last position whose byte passes a test: find_first_of and its like.
unfoldable pub find_first_if : (ℕ → Bool) → Bytes → Option ℕ
find_first_if p [] = none
find_first_if p (c ∷ s) = if p c then some 0 else Option.map suc (find_first_if p s)

unfoldable pub find_last_if : (ℕ → Bool) → Bytes → Option ℕ
find_last_if p [] = none
find_last_if p (c ∷ s) = elim (find_last_if p s) [
  | some i ↦ some (suc i)
  | none ↦ if p c then some 0 else none
]

-- s.rfind(p)
unfoldable pub rfind : Bytes → Bytes → Option ℕ
unfolding starts_with
rfind p [] = if starts_with p [] then some 0 else none
rfind p (c ∷ s) = elim (rfind p s) [
  | some i ↦ some (suc i)
  | none ↦ if starts_with p (c ∷ s) then some 0 else none
]

-- s.substr(pos, n) for a `pos` within the string
abbrev pub substr : Bytes → ℕ → ℕ → Bytes
substr s pos n = take n (drop pos s)

-- " \t\n\r"
abbrev pub is_white : ℕ → Bool
is_white c = c == b' ' || c == b'\t' || c == b'\n' || c == b'\r'

abbrev is_solid : ℕ → Bool
is_solid c = not (is_white c)

abbrev between : Bytes → ℕ → Option ℕ → Bytes
between s start none = []
between s start (some last) = substr s start (last - start + 1)

abbrev trim_at : Bytes → Option ℕ → Option ℕ → Bytes
trim_at s none last = []
trim_at s (some start) last = between s start last

unfoldable pub trim : Bytes → Bytes
unfolding find_first_if find_last_if
trim s = trim_at s (find_first_if is_solid s) (find_last_if is_solid s)
