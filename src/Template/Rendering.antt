-- ===== src/Template/Rendering.antt =====
-- What a rendering gives: loops, branches, texts, and when it cannot fail.
use simurga.Base.{
  ℕ, ◌+◌, ◌≡◌, refl, ap, ◌∙◌, Bool, true, false, Option, none, some, List, [], ◌∷◌, ◌++◌, map,
  arith, if◌then◌else◌, Bytes, is_empty, ltb, Result, ok, raise, ◌>>=◌, append-nil,
}
use simurga.Dict.{lookup}
use simurga.Text.{find}
use simurga.Template.Arguments.{
  Item, Argument, string_argument, array_argument, ArgumentList, get_variable,
}
use simurga.Template.Parser.{done, parse, open_mark}
use simurga.Template.Render.{yield_items, yield_foreach, yield_token, yield_tokens, yield}
use simurga.Template.RoundTrip.{parse-source}
use simurga.Template.Source.{
  source_all, AreWritable, IsWritable, text_ok, variable_ok, foreach_ok, branch_ok, nil_ok, cons_ok,
}
use simurga.Template.{Token, Tokens, text, variable, foreach, branch, nil, cons}

-- The texts of a loop, with the separator's text between them.
abbrev pub join : Bytes → List Bytes → Bytes
join sep [] = []
join sep (x ∷ []) = x
join sep (x ∷ y ∷ xs) = x ++ (sep ++ join sep (y ∷ xs))

abbrev joined_from : ℕ → Bytes → List Bytes → Bytes
joined_from i sep [] = []
joined_from i sep (x ∷ xs) = (if ltb 0 i then sep else []) ++ (x ++ joined_from (i + 1) sep xs)

yield_items-joined :
    (body : Item → Result Bytes) (f : Item → Bytes) (sep : Bytes) (i : ℕ) (xs : List Item)
    → ((x : Item) → body x ≡ ok (f x))
    → yield_items body (ok sep) i xs ≡ ok (joined_from i sep (map f xs))
unfolding yield_items
yield_items-joined body f sep i [] h = refl
yield_items-joined body f sep i (x ∷ xs) h =
    ground (arith, h x, yield_items-joined body f sep (i + 1) xs h)

joined_from-join :
    (i : ℕ) (sep x : Bytes) (xs : List Bytes)
    → joined_from i sep (x ∷ xs) ≡ (if ltb 0 i then sep else []) ++ join sep (x ∷ xs)
joined_from-join i sep x [] = rw append-nil
joined_from-join i sep x (y ∷ xs) = ground (arith, joined_from-join (i + 1) sep y xs)

joined_from-join_zero : (sep : Bytes) (xs : List Bytes) → joined_from 0 sep xs ≡ join sep xs
joined_from-join_zero sep [] = refl
joined_from-join_zero sep (x ∷ xs) = joined_from-join 0 sep x xs

-- If the body of a loop gives a text for each item, and the separator gives a text, a loop over an
-- array gives the texts of its items in order, with the separator's between each two of them.
pub yield_token-foreach :
    (args : ArgumentList) (item : Option Item) (n : Bytes) (body sep : Tokens) (xs : List Item)
    (f : Item → Bytes) (s : Bytes)
    → lookup n args ≡ some (array_argument xs)
    → ((x : Item) → yield_tokens args (some x) body ≡ ok (f x))
    → yield_tokens args none sep ≡ ok s
    → yield_token args item (foreach n body sep) ≡ ok (join s (map f xs))
unfolding yield_token yield_foreach
yield_token-foreach args item n body sep xs f s a h e =
    rw (a, e)
      (yield_items-joined (λ x. yield_tokens args (some x) body) f s 0 xs h
        ∙ ap ok (joined_from-join_zero s (map f xs)))

-- Tokens with no separator, end or else tag outside the lists that these end.
mutual
  pub data IsComplete : Token → Type 0 where
    text_in : {d : Bytes} → IsComplete (text d)
    variable_in : {n : Bytes} → IsComplete (variable n)
    foreach_in :
        {n : Bytes} {b s : Tokens} → AreComplete b → AreComplete s → IsComplete (foreach n b s)
    branch_in :
        {n : Bytes} {t f : Tokens} → AreComplete t → AreComplete f → IsComplete (branch n t f)

  pub data AreComplete : Tokens → Type 0 where
    nil_in : AreComplete nil
    cons_in : {t : Token} {ts : Tokens} → IsComplete t → AreComplete ts → AreComplete (cons t ts)

abbrev pub IsOk {ℓ} : {A : Type ℓ} → Result A → Type 0
IsOk (ok a) = Unit
IsOk (raise e) = ⊥

IsOk-if : (b : Bool) (x y : Result Bytes) → IsOk x → IsOk y → IsOk (if b then x else y)
IsOk-if true x y hx hy = hx
IsOk-if false x y hx hy = hy

IsOk-bind {ℓ κ} :
    {A : Type ℓ} {B : Type κ} (m : Result A) (f : A → Result B)
    → IsOk m
    → ((a : A) → IsOk (f a))
    → IsOk (m >>= f)
IsOk-bind (ok a) f h k = k a
IsOk-bind (raise e) f h k = h

yield_items-IsOk :
    (body : Item → Result Bytes) (sep : Result Bytes) (i : ℕ) (xs : List Item)
    → ((x : Item) → IsOk (body x))
    → IsOk sep
    → IsOk (yield_items body sep i xs)
unfolding yield_items
yield_items-IsOk body sep i [] h e = tt
yield_items-IsOk body sep i (x ∷ xs) h e = IsOk-bind _ _ (IsOk-if (ltb 0 i) sep (ok []) e tt) λ s.
    IsOk-bind (body x) _ (h x) λ b.
      IsOk-bind (yield_items body sep (i + 1) xs) _ (yield_items-IsOk body sep (i + 1) xs h e)
        λ r. tt

yield_foreach-IsOk :
    (body : Item → Result Bytes) (sep : Result Bytes) (o : Option Argument)
    → ((x : Item) → IsOk (body x))
    → IsOk sep
    → IsOk (yield_foreach body sep o)
unfolding yield_foreach
yield_foreach-IsOk body sep none h e = tt
yield_foreach-IsOk body sep (some (string_argument v)) h e = tt
yield_foreach-IsOk body sep (some (array_argument xs)) h e = yield_items-IsOk body sep 0 xs h e

mutual
  unfolding yield_token

  yield_token-IsOk :
      {t : Token} (args : ArgumentList) (item : Option Item)
      → IsComplete t
      → IsOk (yield_token args item t)
  yield_token-IsOk args item text_in = tt
  yield_token-IsOk args item variable_in = tt
  yield_token-IsOk args item (foreach_in {n} {b} {s} hb hs) =
      yield_foreach-IsOk _ _ (lookup n args) (λ x. yield_tokens-IsOk args (some x) hb)
        (yield_tokens-IsOk args none hs)
  yield_token-IsOk args item (branch_in {n} ht hf) =
      IsOk-if (is_empty (get_variable args item n)) _ _ (yield_tokens-IsOk args item hf)
        (yield_tokens-IsOk args item ht)

  yield_tokens-IsOk :
      {ts : Tokens} (args : ArgumentList) (item : Option Item)
      → AreComplete ts
      → IsOk (yield_tokens args item ts)
  yield_tokens-IsOk args item nil_in = tt
  yield_tokens-IsOk args item (cons_in {t} {ts} h hs) =
      IsOk-bind (yield_token args item t) _ (yield_token-IsOk args item h)
        λ a. IsOk-bind (yield_tokens args item ts) _ (yield_tokens-IsOk args item hs) λ b. tt

IsOk-value {ℓ} : {A : Type ℓ} (r : Result A) → IsOk r → (a : A) × (r ≡ ok a)
IsOk-value (ok a) h = (a, refl)
IsOk-value (raise e) h = elim h [ ]

-- Tokens whose every tag stands where it belongs are rendered with no exception, whatever the
-- arguments are.
pub yield-AreComplete :
    (ts : Tokens) (args : ArgumentList) → AreComplete ts → (b : Bytes) × (yield ts args ≡ ok b)
unfolding yield
yield-AreComplete ts args h = IsOk-value _ (yield_tokens-IsOk args none h)

mutual
  IsWritable-IsComplete : {t : Token} → IsWritable t → IsComplete t
  IsWritable-IsComplete (text_ok _ _) = text_in
  IsWritable-IsComplete (variable_ok _ _) = variable_in
  IsWritable-IsComplete (foreach_ok _ b s) =
      foreach_in (AreWritable-AreComplete b) (AreWritable-AreComplete s)
  IsWritable-IsComplete (branch_ok _ t f) =
      branch_in (AreWritable-AreComplete t) (AreWritable-AreComplete f)

  pub AreWritable-AreComplete : {ts : Tokens} → AreWritable ts → AreComplete ts
  AreWritable-AreComplete nil_ok = nil_in
  AreWritable-AreComplete (cons_ok w _ ws) =
      cons_in (IsWritable-IsComplete w) (AreWritable-AreComplete ws)

abbrev literal : Bytes → Tokens
literal [] = nil
literal (c ∷ s) = cons (text (c ∷ s)) nil

literal-AreWritable : (s : Bytes) → find open_mark s ≡ none → AreWritable (literal s)
literal-AreWritable [] e = nil_ok
literal-AreWritable (c ∷ s) e = cons_ok (text_ok (λ p. cc) e) tt nil_ok

source_all-literal : (s : Bytes) → source_all (literal s) ≡ s
unfolding source_all
source_all-literal [] = refl
source_all-literal (c ∷ s) = append-nil (c ∷ s)

yield-literal : (s : Bytes) (args : ArgumentList) → yield (literal s) args ≡ ok s
unfolding yield
yield-literal [] args = refl
yield-literal (c ∷ s) args = rw append-nil

-- A file with no tag in it is a template that gives the file back, whatever the arguments are.
parse_text :
    (s : Bytes) (args : ArgumentList)
    → find open_mark s ≡ none
    → (ts : Tokens) × (parse s ≡ done ts) × (yield ts args ≡ ok s)
parse_text s args e = (
  literal s,
  rw source_all-literal at (parse-source (literal-AreWritable s e)),
  yield-literal s args,
)
