-- ===== src/Template/Render.antt =====
-- `yield` and the functions below it in src/template.cpp. What the source appends to `result` is
-- what these return; an exception discards it.
use simurga.Base.{
  ℕ, ◌+◌, Option, none, some, List, [], ◌∷◌, ◌++◌, if◌then◌else◌, Bytes, is_empty, ltb, codes,
  Exception, std_exception, Result, ok, raise, ◌>>=◌,
}
use simurga.Dict.{lookup}
use simurga.Template.Arguments.{
  Item, Argument, string_argument, array_argument, ArgumentList, get_variable,
}
use simurga.Template.{
  Token, Tokens, text, variable, separator, end_tag, else_tag, foreach, branch, nil, cons,
}

abbrev pub invalid_structure : Exception
invalid_structure = std_exception (codes "invalid template structure")

-- The loop of `yield_foreach` from index `i` on: the separator stands before each item but the first.
unfoldable pub yield_items : (Item → Result Bytes) → Result Bytes → ℕ → List Item → Result Bytes
yield_items body sep i [] = ok []
yield_items body sep i (x ∷ xs) = do
  s ← if ltb 0 i then sep else ok []
  b ← body x
  r ← yield_items body sep (i + 1) xs
  ok (s ++ (b ++ r))

-- `yield_foreach`, on what `arguments.find` gives
unfoldable pub yield_foreach : (Item → Result Bytes) → Result Bytes → Option Argument → Result Bytes
unfolding yield_items
yield_foreach body sep none = ok []
yield_foreach body sep (some (string_argument v)) = ok []
yield_foreach body sep (some (array_argument xs)) = yield_items body sep 0 xs

unfoldable mutual
  pub yield_token : ArgumentList → Option Item → Token → Result Bytes
  yield_token args item (text d) = ok d
  yield_token args item (variable n) = ok (get_variable args item n)
  yield_token args item (foreach n body sep) =
      yield_foreach (λ x. yield_tokens args (some x) body) (yield_tokens args none sep)
        (lookup n args)
  yield_token args item (branch n if_true if_false) =
      if is_empty (get_variable args item n)
      then yield_tokens args item if_false
      else yield_tokens args item if_true
  yield_token args item separator = raise invalid_structure
  yield_token args item end_tag = raise invalid_structure
  yield_token args item else_tag = raise invalid_structure

  pub yield_tokens : ArgumentList → Option Item → Tokens → Result Bytes
  yield_tokens args item nil = ok []
  yield_tokens args item (cons t ts) =
      yield_token args item t >>= λ a. yield_tokens args item ts >>= λ b. ok (a ++ b)

-- PageTemplate::yield
unfoldable pub yield : Tokens → ArgumentList → Result Bytes
unfolding yield_tokens
yield body args = yield_tokens args none body
