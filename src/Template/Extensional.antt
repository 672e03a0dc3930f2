-- ===== src/Template/Extensional.antt =====
-- Renderings (src/template.cpp) with two lists of arguments that give the same look-ups, such as one
-- map in two orders of its keys.
use simurga.Base.{◌≡◌, refl, Option, none, some, ap, Bytes, ok}
use mathlib.Core.Path.{fun_ext}
use simurga.Dict.{lookup}
use simurga.Template.Arguments.{ArgumentList, Item, get_variable}
use simurga.Template.Render.{yield_token, yield_tokens, yield}
use simurga.Template.{
  Token, Tokens, text, variable, separator, end_tag, else_tag, foreach, branch, nil, cons,
}

-- Equal at every name.
abbrev pub Agree : ArgumentList → ArgumentList → Type 0
Agree a b = (k : Bytes) → lookup k a ≡ lookup k b

module _ (a b : ArgumentList) (same : Agree a b) where
  get_variable-Agree :
      (item : Option Item) (n : Bytes) → get_variable a item n ≡ get_variable b item n
  unfolding get_variable
  get_variable-Agree item n = rw (same n)

  mutual
    unfolding yield_token

    yield_token-Agree :
        (t : Token) (item : Option Item) → yield_token a item t ≡ yield_token b item t
    yield_token-Agree (text d) item = refl
    yield_token-Agree (variable n) item = ap ok (get_variable-Agree item n)
    yield_token-Agree separator item = refl
    yield_token-Agree end_tag item = refl
    yield_token-Agree else_tag item = refl
    yield_token-Agree (foreach n ts us) item =
        let inner : (λ x. yield_tokens a (some x) ts) ≡ (λ x. yield_tokens b (some x) ts) =
          fun_ext λ x. yield_tokens-Agree ts (some x) in
        rw (inner, yield_tokens-Agree us none, same n)
    yield_token-Agree (branch n ts us) item =
        rw (get_variable-Agree item n, yield_tokens-Agree ts item, yield_tokens-Agree us item)

    yield_tokens-Agree :
        (ts : Tokens) (item : Option Item) → yield_tokens a item ts ≡ yield_tokens b item ts
    yield_tokens-Agree nil item = refl
    yield_tokens-Agree (cons t ts) item = rw (yield_token-Agree t item, yield_tokens-Agree ts item)

  -- Arguments that agree at every name give the same page.
  pub yield-Agree : (ts : Tokens) → yield ts a ≡ yield ts b
  unfolding yield
  yield-Agree ts = yield_tokens-Agree ts none
