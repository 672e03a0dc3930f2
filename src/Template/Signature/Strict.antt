-- ===== src/Template/Signature/Strict.antt =====
-- Where the rendering that wants each name set gives a text, `yield` of src/template.cpp gives it too.
use simurga.Base.{
  ℕ, ◌+◌, ◌≡◌, refl, ap, Option, none, some, List, [], ◌∷◌, ◌++◌, Bytes, arith, Result, ok,
}
use simurga.Dict.{lookup}
use simurga.Template.Arguments.{
  Item, Argument, to_string, string_argument, array_argument, ArgumentList, in_item, text_of,
  first_of_two, get_variable,
}
use simurga.Template.Render.{yield_items, yield_foreach, yield_token, yield_tokens}
use simurga.Template.Signature.{
  text_in, first_set, set_value, joined, strict_more, strict_loop, strict_token, strict_tokens,
}
use simurga.Template.{
  Token, Tokens, text, variable, separator, end_tag, else_tag, foreach, branch, nil, cons,
}

-- Both parts of a text that is given.
joined-some :
    (a b : Option Bytes) {d : Bytes}
    → joined a b ≡ some d
    → (x : Bytes) × (y : Bytes) × (a ≡ some x) × (b ≡ some y) × (d ≡ x ++ y)
joined-some none b h = cc
joined-some (some x) none h = cc
joined-some (some x) (some y) h = (x, y, refl, refl, cc)

parts-text :
    (o : Option Bytes) (a : Option Argument) (v : Bytes)
    → first_set o (text_in a) ≡ some v
    → first_of_two o (text_of a) ≡ v
unfolding to_string
parts-text (some w) a v h = cc
parts-text none none v h = cc
parts-text none (some (string_argument w)) v h = cc
parts-text none (some (array_argument xs)) v h = cc

pub set_value-get_variable :
    (args : ArgumentList) (item : Option Item) (n v : Bytes)
    → set_value args item n ≡ some v
    → get_variable args item n ≡ v
unfolding set_value get_variable
set_value-get_variable args item n v h = parts-text (in_item item n) (lookup n args) v h

module _ (strict : Item → Option Bytes) (body : Item → Result Bytes)
    (agree : (x : Item) (d : Bytes) → strict x ≡ some d → body x ≡ ok d) where
  module _ (strict_sep : Option Bytes) (sep : Result Bytes)
      (agree_sep : (d : Bytes) → strict_sep ≡ some d → sep ≡ ok d) where
    more-items :
        (xs : List Item) (i : ℕ) (d : Bytes)
        → strict_more strict strict_sep xs ≡ some d
        → yield_items body sep (i + 1) xs ≡ ok d
    unfolding strict_more yield_items
    more-items [] i d h = cc
    more-items (x ∷ xs) i d h =
        let (s, r, p, q, e) =
          joined-some strict_sep (joined (strict x) (strict_more strict strict_sep xs)) h in
        let (b, t, u, v, e') = joined-some (strict x) (strict_more strict strict_sep xs) q in
        ground (arith, agree_sep s p, agree x b u, more-items xs (i + 1) t v, e, e')

    loop-items :
        (a : Option Argument) (d : Bytes)
        → strict_loop strict strict_sep a ≡ some d
        → yield_foreach body sep a ≡ ok d
    unfolding yield_foreach yield_items
    loop-items none d h = cc
    loop-items (some (string_argument v)) d h = cc
    loop-items (some (array_argument [])) d h = cc
    loop-items (some (array_argument (x ∷ xs))) d h =
        let (b, t, u, v, e) = joined-some (strict x) (strict_more strict strict_sep xs) h in
        ground (arith, agree x b u, more-items xs 0 t v, e)

mutual
  unfolding strict_token yield_token

  token-strict :
      (args : ArgumentList) (item : Option Item) (t : Token) (d : Bytes)
      → strict_token args item t ≡ some d
      → yield_token args item t ≡ ok d
  token-strict args item (text e) d h = cc
  token-strict args item (variable n) d h = ap ok (set_value-get_variable args item n d h)
  token-strict args item (foreach n body sep) d h =
      loop-items (λ x. strict_tokens args (some x) body) (λ x. yield_tokens args (some x) body)
        (λ x e. tokens-strict args (some x) body e) (strict_tokens args none sep)
        (yield_tokens args none sep) (λ e. tokens-strict args none sep e) (lookup n args) d h
  token-strict args item (branch n if_true if_false) d h =
      ground (arith, tokens-strict args item if_true d, tokens-strict args item if_false d)
  token-strict args item separator d h = cc
  token-strict args item end_tag d h = cc
  token-strict args item else_tag d h = cc

  pub tokens-strict :
      (args : ArgumentList) (item : Option Item) (ts : Tokens) (d : Bytes)
      → strict_tokens args item ts ≡ some d
      → yield_tokens args item ts ≡ ok d
  tokens-strict args item nil d h = cc
  tokens-strict args item (cons t ts) d h =
      let (a, b, p, q, e) = joined-some (strict_token args item t) (strict_tokens args item ts) h in
      ground (arith, token-strict args item t a p, tokens-strict args item ts b q, e)
