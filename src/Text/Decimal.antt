-- ===== src/Text/Decimal.antt =====
-- Numbers as text: `to_string` and `from_string<unsigned int>` of src/common.hpp (the stream operators
-- in the classic locale) and `price` of src/db.hpp.
use simurga.Base.{
  ℕ, zero, suc, ◌+◌, ◌-◌, ◌*◌, ◌/◌, ◌%◌, Bool, ◌&&◌, ◌||◌, [], ◌∷◌, ◌++◌, ◌==◌, ltb, leb,
  if◌then◌else◌, Bytes,
}

abbrev pub is_digit : ℕ → Bool
is_digit c = leb b'0' c && leb c b'9'

-- The digits of a number, with fuel for each of them.
unfoldable pub digits_of : ℕ → ℕ → Bytes
digits_of zero n = []
digits_of (suc f) n =
    let front = digits_of f (n / 10) in
    if ltb n 10 then (b'0' + n) ∷ [] else front ++ (b'0' + n % 10) ∷ []

-- ss << value
unfoldable pub to_string : ℕ → Bytes
unfolding digits_of
to_string n = digits_of (suc n) n

-- The value of the digits at the front, behind a value already read.
unfoldable pub read_digits : ℕ → Bytes → ℕ
read_digits acc [] = acc
read_digits acc (c ∷ s) =
    let rest = read_digits (acc * 10 + (c - b'0')) s in if is_digit c then rest else acc

abbrev pub u32_max : ℕ
u32_max = 4294967295

-- isspace in the classic locale: blank, and \t \n \v \f \r
abbrev pub is_space : ℕ → Bool
is_space c = c == b' ' || leb 9 c && leb c 13

unfoldable pub skip_space : Bytes → Bytes
skip_space [] = []
skip_space (c ∷ s) = let rest = skip_space s in if is_space c then rest else c ∷ s

-- A value that does not fit is read as the largest one.
abbrev pub clamp : ℕ → ℕ
clamp v = if ltb u32_max v then u32_max else v

-- A minus is accepted for an unsigned number too, and gives the value modulo 2 ^ 32.
abbrev pub negated : ℕ → ℕ
negated v = if ltb u32_max v then u32_max else (u32_max + 1 - v) % (u32_max + 1)

unfoldable pub read_signed : Bytes → ℕ
unfolding read_digits
read_signed [] = 0
read_signed (c ∷ s) =
    if c == b'-'
    then negated (read_digits 0 s)
    else if c == b'+'
    then clamp (read_digits 0 s)
    else clamp (read_digits 0 (c ∷ s))

-- from_string<unsigned int>
unfoldable pub from_string : Bytes → ℕ
unfolding skip_space read_signed
from_string s = read_signed (skip_space s)

-- price(value)
unfoldable pub price : ℕ → Bytes
price value =
    let cent = value % 100 in
    to_string (value / 100)
    ++ (if cent == 0
        then []
        else b'.' ∷ ((if ltb cent 10 then b'0' ∷ [] else []) ++ to_string cent))
