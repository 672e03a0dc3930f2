-- ===== src/Template/Parser.antt =====
-- `parse`, `get_next_token` and `parse_subtokens` of src/template.cpp. The pair of `data` and `pos`
-- is the part of `data` from `pos` on, which is all that these functions read. What a call leaves is
-- no structural part of what it was given, so each call takes a unit of fuel; `Progress` is
-- about how much of it there is.
use simurga.Base.{
  ◌++◌, ℕ, zero, suc, ◌+◌, ◌*◌, Bool, not, ◌||◌, none, some, Option, [], ◌∷◌, ◌==◌, if◌then◌else◌,
  length, take, drop, Bytes, codes, Exception, std_exception, ltb,
}
use simurga.Text.Decimal.{to_string}
use simurga.Text.{equal, find, trim, substr}
use simurga.Template.{
  TokenType, none_type, end_type, else_type, separator_type, Token, Tokens, text, variable,
  separator, end_tag, else_tag, foreach, branch, nil, cons, type_of, same_type,
}

-- `out_of_fuel` has no counterpart in the program.
pub data Outcome {ℓ} (A : Type ℓ) : Type ℓ where
  done : A → Outcome A
  failed : Exception → Outcome A
  out_of_fuel : Outcome A

infixl 5 ◌>>=◌
abbrev pub ◌>>=◌ {ℓ κ} : {A : Type ℓ} {B : Type κ} → Outcome A → (A → Outcome B) → Outcome B
done a >>= f = f a
failed e >>= f = failed e
out_of_fuel >>= f = out_of_fuel

abbrev pub invalid_template : Exception
invalid_template = std_exception (codes "invalid template")

abbrev pub invalid_tag : Exception
invalid_tag = std_exception (codes "invalid template special tag")

abbrev pub unexpected_eof : Exception
unexpected_eof = std_exception (codes "unexpected eof")

-- std::out_of_range, thrown by substr at a position behind the end, with the text of libstdc++
abbrev pub out_of_range : ℕ → ℕ → Exception
out_of_range pos size = std_exception (
    codes "basic_string::substr: __pos (which is "
    ++ (to_string pos ++ (codes ") > this->size() (which is " ++ (to_string size ++ codes ")"))))

-- What the body of a tag asks for: a whole token, or a name with the lists of tokens to be read.
pub data Tag : Type 0 where
  simple : Token → Tag
  if_tag : Bytes → Tag
  for_tag : Bytes → Tag
  bad : Exception → Tag

-- `trim(body.substr(n))`
abbrev tag_name : (Bytes → Tag) → ℕ → Bytes → Tag
tag_name make n body =
    if ltb (length body) n then bad (out_of_range n (length body)) else make (trim (drop n body))

-- The tests on `body`, in the order of the source.
unfoldable pub classify : Bytes → Tag
unfolding equal
classify [] = bad invalid_template
classify (c ∷ cs) =
    if not (c == b'#')
    then simple (variable (c ∷ cs))
    else if equal (c ∷ cs) (codes "#end")
    then simple end_tag
    else if equal (c ∷ cs) (codes "#sep")
    then simple separator
    else if equal (c ∷ cs) (codes "#else")
    then simple else_tag
    else if equal (substr (c ∷ cs) 0 3) (codes "#if")
    then tag_name if_tag 4 (c ∷ cs)
    else if equal (substr (c ∷ cs) 0 4) (codes "#for")
    then tag_name for_tag 5 (c ∷ cs)
    else bad invalid_tag

abbrev pub open_mark : Bytes
open_mark = b'<' ∷ b'%' ∷ []

abbrev pub close_mark : Bytes
close_mark = b'%' ∷ b'>' ∷ []

-- spec_pos - pos: up to the next "<%", or to the end
abbrev pub text_length : Option ℕ → Bytes → ℕ
text_length none s = length s
text_length (some n) s = n

-- What `parse_subtokens` gives: the type of the token that ended the list, the list, and the rest.
abbrev pub Sub : Type 0
Sub = TokenType → TokenType → Bytes → Outcome (TokenType × Tokens × Bytes)

-- The second list of a tag, if the first was ended by `more`.
abbrev pub second_list : Sub → TokenType → TokenType → Bytes → Outcome (Tokens × Bytes)
second_list sub more ty r =
    if same_type ty more
    then sub end_type none_type r >>= (λ (_, ts, r'). done (ts, r'))
    else done (nil, r)

-- The rest of `get_next_token` for the body of a tag, with `r` behind the tag.
unfoldable pub build : Sub → Tag → Bytes → Outcome (Token × Bytes)
unfolding same_type
build sub (simple t) r = done (t, r)
build sub (bad e) r = failed e
build sub (if_tag name) r = sub end_type else_type r >>= λ (ty, ts, r₁).
    second_list sub else_type ty r₁ >>= λ (fs, r₂). done (branch name ts fs, r₂)
build sub (for_tag name) r = sub end_type separator_type r >>= λ (ty, ts, r₁).
    second_list sub separator_type ty r₁ >>= λ (ss, r₂). done (foreach name ts ss, r₂)

-- From behind "<%" on, with the place of "%>".
unfoldable pub read_tag : Sub → Bytes → Option ℕ → Outcome (Token × Bytes)
unfolding build classify trim
read_tag sub s none = failed invalid_template
read_tag sub s (some n) = build sub (classify (trim (take n s))) (drop (n + 2) s)

-- With the number of bytes before the next tag.
unfoldable pub next_at : Sub → Bytes → ℕ → Outcome (Token × Bytes)
unfolding read_tag
next_at sub s (suc n) = done (text (take (suc n) s), drop (suc n) s)
next_at sub s zero = read_tag sub (drop 2 s) (find close_mark (drop 2 s))

unfoldable pub next_token : Sub → Bytes → Outcome (Token × Bytes)
unfolding next_at
next_token sub s = next_at sub s (text_length (find open_mark s) s)

unfoldable pub ends_list : TokenType → TokenType → Token → Bool
unfolding same_type type_of
ends_list end1 end2 t = same_type (type_of t) end1 || same_type (type_of t) end2

unfoldable mutual
  pub get_next_token : ℕ → Bytes → Outcome (Token × Bytes)
  get_next_token zero s = out_of_fuel
  get_next_token (suc f) s = next_token (parse_subtokens f) s

  pub parse_subtokens : ℕ → Sub
  parse_subtokens zero end1 end2 s = out_of_fuel
  parse_subtokens (suc f) end1 end2 [] = failed unexpected_eof
  parse_subtokens (suc f) end1 end2 (c ∷ s) = get_next_token f (c ∷ s) >>= λ (t, r).
      let more = parse_subtokens f end1 end2 r >>= (λ (ty, ts, r'). done (ty, cons t ts, r')) in
      if ends_list end1 end2 t then done (type_of t, nil, r) else more

-- The loop of `parse`.
unfoldable pub parse_loop : ℕ → Bytes → Outcome Tokens
unfolding get_next_token
parse_loop zero s = out_of_fuel
parse_loop (suc f) [] = done nil
parse_loop (suc f) (c ∷ s) =
    get_next_token f (c ∷ s) >>= λ (t, r). parse_loop f r >>= λ ts. done (cons t ts)

unfoldable pub parse : Bytes → Outcome Tokens
unfolding parse_loop
parse s = parse_loop (2 * length s + 2) s
