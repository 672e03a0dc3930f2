-- ===== src/Service/Escapes.antt =====
-- `percentEscapedToRealBytes` of fastcgipp/src/http.cpp, which `allocate` of src/httpservice.cpp
-- calls: the function that stands for the parameter `decode` where one is needed.
use simurga.Base.{
  ℕ, ◌+◌, ◌-◌, ◌*◌, ◌/◌, ◌%◌, ◌<◌, ◌≡◌, refl, ap, true, false, ◌&&◌, [], ◌∷◌, ◌++◌, ◌==◌, ltb, leb,
  if◌then◌else◌, Bytes, All, arith, Bool-cases, inl, inr,
}
use simurga.Service.Links.{is_kept}

-- The value of a hexadecimal digit; another character sets no bits.
abbrev pub hex_value : ℕ → ℕ
hex_value c =
    if leb b'a' c && leb c b'f'
    then c - 87
    else if leb b'A' c && leb c b'F'
    then c - 55
    else if leb b'0' c && leb c b'9'
    then c - b'0'
    else 0

-- Where the loop is: at a character of its own, or at the first or the second digit of an escape, with
-- the value of the first.
pub data Place : Type 0 where
  at_character : Place
  at_high : Place
  at_low : ℕ → Place

abbrev pub next_place : Place → ℕ → Place
next_place at_character c = if c == b'%' then at_high else at_character
next_place at_high c = at_low (hex_value c)
next_place (at_low n) c = at_character

-- What is stored in front of the destination when the loop goes past a character.
abbrev pub stored : Place → ℕ → Bytes
stored at_character c = if c == b'%' then [] else if c == b'+' then b' ' ∷ [] else c ∷ []
stored at_high c = []
stored (at_low n) c = (n * 16 + hex_value c) ∷ []

-- What an escape holds that the end cuts off.
abbrev pub cut_off : Place → Bytes
cut_off at_character = []
cut_off at_high = 0 ∷ []
cut_off (at_low n) = (n * 16) ∷ []

unfoldable pub decode_from : Place → Bytes → Bytes
decode_from p [] = cut_off p
decode_from p (c ∷ s) = stored p c ++ decode_from (next_place p c) s

unfoldable pub percent_escaped_to_real_bytes : Bytes → Bytes
unfolding decode_from
percent_escaped_to_real_bytes s = decode_from at_character s

-- The digit of a number below 16.
abbrev pub hex_digit : ℕ → ℕ
hex_digit n = if ltb n 10 then b'0' + n else 55 + n

-- A text as a part of a URI: what is not a letter, a digit, '-', '_' or '/' as an escape.
unfoldable pub escape : Bytes → Bytes
escape [] = []
escape (c ∷ s) =
    let rest = escape s in
    if is_kept c then c ∷ rest else b'%' ∷ hex_digit (c / 16) ∷ hex_digit (c % 16) ∷ rest

kept_stored : (c : ℕ) → is_kept c ≡ true → (c == b'%') ≡ false
kept_stored c h = ground arith

kept_plus : (c : ℕ) → is_kept c ≡ true → (c == b'+') ≡ false
kept_plus c h = ground arith

hex_value-hex_digit : (n : ℕ) → n < 16 → hex_value (hex_digit n) ≡ n
hex_value-hex_digit n h = ground arith

byte_value :
    (c : ℕ) → c < 256 → (hex_value (hex_digit (c / 16)) * 16 + hex_value (hex_digit (c % 16))) ≡ c
byte_value c h =
    rw (hex_value-hex_digit (c / 16) (omega arith))
      (rw (hex_value-hex_digit (c % 16) (omega arith)) (omega arith))

-- A path with nothing to be decoded stays as it is.
pub decode-kept : (s : Bytes) → All (λ c. is_kept c ≡ true) s → percent_escaped_to_real_bytes s ≡ s
unfolding percent_escaped_to_real_bytes decode_from
decode-kept [] h = refl
decode-kept (c ∷ s) h =
    rw (kept_stored c h.0) (rw (kept_plus c h.0) (ap (◌∷◌ c) (decode-kept s h.1)))

-- A text of bytes whose characters other than letters, digits, -, _ and / are escaped for a URI is
-- decoded as this text.
pub decode-escape :
    (s : Bytes) → All (λ c. c < 256) s → percent_escaped_to_real_bytes (escape s) ≡ s
unfolding percent_escaped_to_real_bytes decode_from escape
decode-escape [] h = refl
decode-escape (c ∷ s) h = elim (Bool-cases (is_kept c)) [
  | inl k ↦ rw k (rw (kept_stored c k) (rw (kept_plus c k) (ap (◌∷◌ c) (decode-escape s h.1))))
  | inr k ↦ rw k (rw (byte_value c h.0) (ap (◌∷◌ c) (decode-escape s h.1)))
]
