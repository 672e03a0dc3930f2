-- ===== src/Text/Decimals.antt =====
-- Numbers and prices that are written out and read back (src/common.hpp and src/db.hpp).
use simurga.Base.{
  ℕ, zero, suc, ◌+◌, ◌-◌, ◌*◌, ◌/◌, ◌%◌, ◌≤◌, ◌<◌, ◌≡◌, refl, sym, ap, ◌∙◌, Bool, true, false, [],
  ◌∷◌, ◌++◌, ◌==◌, ltb, if◌then◌else◌, Bytes, All, arith, append_assoc, append-nil, Bool-cases, inl,
  inr,
}
use simurga.Text.Decimal.{
  is_digit, digits_of, to_string, read_digits, u32_max, clamp, from_string, price,
}

-- No digit in front.
abbrev pub no_digit : Bytes → Bool
no_digit [] = true
no_digit (c ∷ s) = if is_digit c then false else true

ltb→lt : (a b : ℕ) → ltb a b ≡ true → a < b
ltb→lt a b h = ground arith

one_digit : (n : ℕ) (s : Bytes) → n < 10 → read_digits 0 ((b'0' + n) ∷ s) ≡ read_digits n s
unfolding read_digits
one_digit n s h = rw digit (ap (λ v. read_digits v s) (omega arith))
  where
    digit : is_digit (b'0' + n) ≡ true
    digit = ground arith

last_digit : (n : ℕ) (s : Bytes) → read_digits (n / 10) ((b'0' + n % 10) ∷ s) ≡ read_digits n s
unfolding read_digits
last_digit n s = rw digit (ap (λ v. read_digits v s) (omega arith))
  where
    digit : is_digit (b'0' + n % 10) ≡ true
    digit = ground arith

read_digits-digits_of :
    (f n : ℕ) (s : Bytes) → n < f → read_digits 0 (digits_of f n ++ s) ≡ read_digits n s
unfolding digits_of read_digits
read_digits-digits_of zero n s h = absurd (omega arith)
read_digits-digits_of (suc f) n s h = elim (Bool-cases (ltb n 10)) [
  | inl small ↦ rw small (one_digit n s (ltb→lt n 10 small))
  | inr large ↦
      let last : ℕ = b'0' + n % 10 in
      rw large (
        ap (read_digits 0) (append_assoc (digits_of f (n / 10)) (last ∷ []) s)
        ∙ read_digits-digits_of f (n / 10) (last ∷ s) (ground arith)
        ∙ last_digit n s)
]

read_digits-no_digit : (n : ℕ) (s : Bytes) → no_digit s ≡ true → read_digits n s ≡ n
unfolding read_digits
read_digits-no_digit n [] h = refl
read_digits-no_digit n (c ∷ s) h = ground arith

-- The first digit of what is written.
digits_of-cons :
    (f n : ℕ) → (c : ℕ) × (s : Bytes) × (digits_of (suc f) n ≡ c ∷ s) × (b'0' ≤ c) × (c ≤ b'9')
unfolding digits_of
digits_of-cons zero n = elim (Bool-cases (ltb n 10)) [
  | inl small ↦ (b'0' + n, [], rw small, omega arith, ground arith)
  | inr large ↦ (b'0' + n % 10, [], rw large, omega arith, omega arith)
]
digits_of-cons (suc f) n = elim (Bool-cases (ltb n 10)) [
  | inl small ↦ (b'0' + n, [], rw small, omega arith, ground arith)
  | inr large ↦
      let (c, s, e, lo, hi) = digits_of-cons f (n / 10) in
      (c, s ++ (b'0' + n % 10) ∷ [], rw large (ap (λ d. d ++ (b'0' + n % 10) ∷ []) e), lo, hi)
]

-- What is behind the digits at the front.
abbrev pub after_digits : Bytes → Bytes
after_digits [] = []
after_digits (c ∷ s) = let rest = after_digits s in if is_digit c then rest else c ∷ s

read_digits-to_string :
    (n : ℕ) (s : Bytes) → no_digit s ≡ true → read_digits 0 (to_string n ++ s) ≡ n
unfolding to_string
read_digits-to_string n s h =
    read_digits-digits_of (suc n) n s (omega arith) ∙ read_digits-no_digit n s h

read_signed-digit :
    (c : ℕ) (s : Bytes) → b'0' ≤ c → c ≤ b'9' → from_string (c ∷ s) ≡ clamp (read_digits 0 (c ∷ s))
unfolding from_string
read_signed-digit c s lo hi = ground arith

pub to_string-cons :
    (n : ℕ) → (c : ℕ) × (s : Bytes) × (to_string n ≡ c ∷ s) × (b'0' ≤ c) × (c ≤ b'9')
unfolding to_string
to_string-cons n = digits_of-cons n n

-- A number of 32 bits that is written as text is read back.
pub from_string-to_string : (n : ℕ) → n ≤ u32_max → from_string (to_string n) ≡ n
from_string-to_string n h =
    let (c, s, e, lo, hi) = to_string-cons n in
    let value : read_digits 0 (c ∷ s) ≡ n =
      ap (read_digits 0) (sym e ∙ sym (append-nil (to_string n)))
      ∙ read_digits-to_string n [] refl in
    ap from_string e ∙ read_signed-digit c s lo hi ∙ ap clamp value ∙ clamp-le n h
  where
    clamp-le : (n : ℕ) → n ≤ u32_max → clamp n ≡ n
    clamp-le n h = ground arith

digits_of-two :
    (f n : ℕ)
    → 10 ≤ n
    → n < 100
    → digits_of (suc (suc f)) n ≡ (b'0' + n / 10) ∷ (b'0' + n % 10) ∷ []
unfolding digits_of
digits_of-two f n lo hi = ground arith

to_string-one : (n : ℕ) → n < 10 → to_string n ≡ (b'0' + n) ∷ []
unfolding to_string
to_string-one n h = ground arith

to_string-two : (n : ℕ) → 10 ≤ n → n < 100 → to_string n ≡ (b'0' + n / 10) ∷ (b'0' + n % 10) ∷ []
unfolding to_string
to_string-two n lo hi =
    let e : n ≡ suc (n - 1) = omega arith in
    ap (λ f. digits_of (suc f) n) e ∙ digits_of-two (n - 1) n lo hi

-- A price as it is meant to be read: units, and behind a point exactly two digits of hundredths.
abbrev pub cents : Bytes → ℕ
cents (p ∷ a ∷ b ∷ []) = if p == b'.' then (a - b'0') * 10 + (b - b'0') else 0
cents _ = 0

unfoldable pub read_price : Bytes → ℕ
read_price s = read_digits 0 s * 100 + cents (after_digits s)

after_digits-digits_of : (f n : ℕ) (s : Bytes) → after_digits (digits_of f n ++ s) ≡ after_digits s
unfolding digits_of
after_digits-digits_of zero n s = refl
after_digits-digits_of (suc f) n s = elim (Bool-cases (ltb n 10)) [
  | inl small ↦ rw small (ground arith)
  | inr large ↦
      let last : ℕ = b'0' + n % 10 in
      rw large (
        ap after_digits (append_assoc (digits_of f (n / 10)) (last ∷ []) s)
        ∙ after_digits-digits_of f (n / 10) (last ∷ s)
        ∙ ground arith)
]

after_digits-to_string :
    (n : ℕ) (s : Bytes) → no_digit s ≡ true → after_digits (to_string n ++ s) ≡ s
unfolding to_string
after_digits-to_string n s h = after_digits-digits_of (suc n) n s ∙ no_digits s h
  where
    no_digits : (s : Bytes) → no_digit s ≡ true → after_digits s ≡ s
    no_digits [] h = refl
    no_digits (c ∷ s) h = ground arith

-- The part of a price behind the units.
abbrev tail_of : ℕ → Bytes
tail_of cent =
    if cent == 0 then [] else b'.' ∷ ((if ltb cent 10 then b'0' ∷ [] else []) ++ to_string cent)

tail_of-cents : (cent : ℕ) → cent < 100 → cents (tail_of cent) ≡ cent
tail_of-cents cent h = elim (Bool-cases (cent == 0)) [
  | inl z ↦ rw z (ground arith)
  | inr p ↦ elim (Bool-cases (ltb cent 10)) [
    | inl s ↦ rw (p, s, to_string-one cent (ltb→lt cent 10 s)) (omega arith)
    | inr l ↦ rw (p, l, to_string-two cent (ground arith) h) (omega arith)
  ]
]

tail_of-no_digit : (cent : ℕ) → no_digit (tail_of cent) ≡ true
tail_of-no_digit cent = ground arith

-- A price, read as units and two digits of hundredths, has the value that it was written from.
read_price-price : (value : ℕ) → read_price (price value) ≡ value
unfolding read_price price
read_price-price value =
    let tail : Bytes = tail_of (value % 100) in
    let quiet : no_digit tail ≡ true = tail_of-no_digit (value % 100) in
    rw
      (
        read_digits-to_string (value / 100) tail quiet,
        after_digits-to_string (value / 100) tail quiet,
        tail_of-cents (value % 100) (omega arith),
      )
      (omega arith)

All-concat : (P : ℕ → Type 0) (s : Bytes) (c : ℕ) → All P s → P c → All P (s ++ c ∷ [])
All-concat P [] c h p = (p, tt)
All-concat P (x ∷ s) c h p = (h.0, All-concat P s c h.1 p)

-- A number is written in digits only.
pub digits_of-All : (f n : ℕ) → All (λ c. is_digit c ≡ true) (digits_of f n)
unfolding digits_of
digits_of-All zero n = tt
digits_of-All (suc f) n = elim (Bool-cases (ltb n 10)) [
  | inl small ↦ rw small (ground arith, tt)
  | inr large ↦ rw large (
      All-concat _ (digits_of f (n / 10)) (b'0' + n % 10) (digits_of-All f (n / 10)) (ground arith))
]

pub to_string-All : (n : ℕ) → All (λ c. is_digit c ≡ true) (to_string n)
unfolding to_string
to_string-All n = digits_of-All (suc n) n
