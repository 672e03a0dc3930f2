-- ===== src/Pages/Ids.antt =====
-- `parse_id` of src/model.cpp: the ids that the links of the collection page hold, and the names that
-- get into a query.
use mathlib.Core.Path.{subst}
use simurga.Base.{
  All-map, ℕ, ◌+◌, ◌≤◌, ◌≡◌, ◌≢◌, refl, ap, Bool, true, false, not, ◌&&◌, ◌||◌, Option, none, some,
  [], ◌∷◌, ◌++◌, ◌==◌, if◌then◌else◌, take, drop, is_empty, Bytes, Result, ok, raise, arith, All,
  Bool-cases, inl, inr, take-length-append,
}
use simurga.Pages.Model.{is_letter, is_digit, is_special, check_color, checked, parse_at, parse_id}
use simurga.Service.{object_not_found}
use simurga.Text.Decimal.{from_string, to_string, u32_max}
use simurga.Files.Lines.{drop-length_one}
use simurga.Text.Decimals.{from_string-to_string, to_string-All}
use simurga.Text.Find.{find-append_byte}
use simurga.Text.{find}

-- A letter, a digit, '-' or '_'
abbrev pub is_plain : ℕ → Bool
is_plain c = is_letter c || is_digit c || is_special c

pub record IsColor (s : Bytes) : Type 0 where
  pub named : s ≢ []
  pub plain : All (λ c. is_plain c ≡ true) s

pub check_color-plain : (s : Bytes) → All (λ c. is_plain c ≡ true) s → check_color s ≡ ok tt
unfolding check_color
check_color-plain [] h = refl
check_color-plain (c ∷ s) h = ground (arith, check_color-plain s h.1, h.0)

check_color_sound :
    (s : Bytes) {u : Unit {0}} → check_color s ≡ ok u → All (λ c. is_plain c ≡ true) s
unfolding check_color
check_color_sound [] h = tt
check_color_sound (c ∷ s) h =
    elim (Bool-cases (not (is_letter c) && not (is_digit c) && not (is_special c))) [
      | inl e ↦ absurd (raised (rw e at h))
      | inr e ↦ (plain c e, check_color_sound s (rw e at h))
    ]
  where
    plain :
        (c : ℕ)
        → (not (is_letter c) && not (is_digit c) && not (is_special c)) ≡ false
        → is_plain c ≡ true
    plain c e = ground arith

    raised : {u : Unit {0}} → raise object_not_found ≡ ok u → ⊥
    raised x = cc

pub find-All : (a : ℕ) (s : Bytes) → All (λ c. (a == c) ≡ false) s → find (a ∷ []) s ≡ none
unfolding find
find-All a [] h = refl
find-All a (c ∷ s) h = rw (h.0, find-All a s h.1)

to_string-no_dash : (n : ℕ) → find (b'-' ∷ []) (to_string n) ≡ none
to_string-no_dash n =
    find-All b'-' (to_string n) (All-map (to_string n) (λ c e. not_dash c e) (to_string-All n))
  where
    not_dash : (c : ℕ) → is_digit c ≡ true → (b'-' == c) ≡ false
    not_dash c e = ground arith

-- The id of a model's colour, as the page of the collection writes it.
abbrev pub id_of : ℕ → Bytes → Bytes
id_of n color = to_string n ++ (b'-' ∷ color)

is_empty-false : (s : Bytes) → s ≢ [] → is_empty s ≡ false
is_empty-false [] h = absurd (h refl)
is_empty-false (c ∷ s) h = refl

-- An id that is written from a number of 32 bits and a colour's name is parsed as these.
pub parse_id-id_of :
    (n : ℕ) (color : Bytes) → n ≤ u32_max → IsColor color → parse_id (id_of n color) ≡ ok (n, color)
unfolding parse_id
parse_id-id_of n color h c = rw (find-append_byte b'-' (to_string n) color (to_string-no_dash n)) (
    rw (drop-length_one (to_string n) color b'-', take-length-append (to_string n) (b'-' ∷ color))
      (rw
        (is_empty-false color c.named, check_color-plain color c.plain, from_string-to_string n h)))

if-ok {ℓ} :
    {A : Type ℓ} (b : Bool) {x : Result A} {a : A}
    → (if b then raise object_not_found else x) ≡ ok a
    → (b ≡ false) × (x ≡ ok a)
if-ok true h = cc
if-ok false h = (refl, h)

checked-ok :
    (c : Result (Unit {0})) (p : ℕ × Bytes) {q : ℕ × Bytes}
    → checked c p ≡ ok q
    → (u : Unit {0}) × (c ≡ ok u) × (p ≡ q)
checked-ok (ok u) p h = (u, refl, cc)
checked-ok (raise e) p h = cc

is_empty-ne : (s : Bytes) → is_empty s ≡ false → s ≢ []
is_empty-ne [] h = cc
is_empty-ne (c ∷ s) h = λ p. cc

parse_at_sound :
    (pos : Option ℕ) (id : Bytes) {n : ℕ} {color : Bytes}
    → parse_at pos id ≡ ok (n, color)
    → IsColor color
parse_at_sound none id h = cc
parse_at_sound (some pos) id h =
    let rest : Bytes = drop (pos + 1) id in
    let (named, checks) = if-ok (is_empty rest) h in
    let (u, plain, same) = checked-ok (check_color rest) (from_string (take pos id), rest) checks in
    subst IsColor (ap (λ (q : ℕ × Bytes). q.1) same)
      (record { named = is_empty-ne rest named; plain = check_color_sound rest plain })

-- Whatever the id is, a colour's name that `parse_id` hands to the query has letters, digits, '-' and
-- '_' only, and is not empty.
pub parse_id-IsColor :
    (id : Bytes) {n : ℕ} {color : Bytes} → parse_id id ≡ ok (n, color) → IsColor color
unfolding parse_id
parse_id-IsColor id h = parse_at_sound (find (b'-' ∷ []) id) id h
