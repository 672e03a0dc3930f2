-- ===== src/Template/Signature/Sound.antt =====
-- Templates of src/template.cpp that pass the check against a signature, with arguments that fit it.
use mathlib.Core.Bool.{and-eq-true_iff}
use simurga.Base.{
  ◌≡◌, refl, Bool, true, false, ◌&&◌, ◌||◌, Option, none, some, List, [], ◌∷◌, ◌++◌, Bytes,
  if◌then◌else◌, is_empty, All, ok, All-append, All-map,
}
use simurga.Dict.{lookup}
use simurga.Template.Arguments.{
  Item, Argument, to_string, string_argument, array_argument, ArgumentList, in_item, text_of,
  first_of_two, get_variable,
}
use simurga.Template.Render.{yield}
use simurga.Template.Signature.Strict.{tokens-strict}
use simurga.Template.Signature.{
  Signature, has_name, check_token, check_tokens, check, text_in, first_set, set_value, joined,
  strict_more, strict_items, strict_loop, strict_token, strict_tokens, HasFields, Fits,
}
use simurga.Template.{
  Token, Tokens, text, variable, separator, end_tag, else_tag, foreach, branch, nil, cons,
}
use simurga.Text.{equal, equal_iff}

-- A text is given.
abbrev Gives : Option Bytes → Type 0
Gives o = (d : Bytes) × (o ≡ some d)

joined-Gives : (a b : Option Bytes) → Gives a → Gives b → Gives (joined a b)
joined-Gives a b (x, p) (y, q) = (x ++ y, rw (p, q) refl)

abbrev IsKnown : ArgumentList → Option Item → Bytes → Type 0
IsKnown args item n = Gives (set_value args item n)

has_name-IsKnown :
    (args : ArgumentList) (item : Option Item) (n : Bytes) (ns : List Bytes)
    → All (IsKnown args item) ns
    → has_name n ns ≡ true
    → IsKnown args item n
has_name-IsKnown args item n [] h e = cc
has_name-IsKnown args item n (m ∷ ns) (h, hs) e =
    by_name (equal m n) refl e (has_name-IsKnown args item n ns hs)
  where
    by_name :
        (b : Bool)
        → equal m n ≡ b
        → (b || has_name n ns) ≡ true
        → (has_name n ns ≡ true → IsKnown args item n)
        → IsKnown args item n
    by_name true q e rest = rw ((equal_iff m n).0 q) at h
    by_name false q e rest = rest e

-- A name whose text is not empty is set.
parts-Gives :
    (o : Option Bytes) (a : Option Argument)
    → is_empty (first_of_two o (text_of a)) ≡ false
    → Gives (first_set o (text_in a))
unfolding to_string
parts-Gives (some v) a h = (v, refl)
parts-Gives none none h = cc
parts-Gives none (some (string_argument v)) h = (v, refl)
parts-Gives none (some (array_argument xs)) h = cc

nonempty-IsKnown :
    (args : ArgumentList) (item : Option Item) (n : Bytes)
    → is_empty (get_variable args item n) ≡ false
    → IsKnown args item n
unfolding get_variable set_value
nonempty-IsKnown args item n h = parts-Gives (in_item item n) (lookup n args) h

-- Within a loop the fields of the item are set, and what is set outside all items.
field-IsKnown :
    (args : ArgumentList) (x : Item) (f : Bytes)
    → (v : Bytes) × (lookup f x ≡ some v)
    → IsKnown args (some x) f
unfolding set_value
field-IsKnown args x f (v, e) = (v, rw e refl)

argument-IsKnown :
    (args : ArgumentList) (item : Option Item) (n : Bytes)
    → (v : Bytes) × (lookup n args ≡ some (string_argument v))
    → IsKnown args item n
unfolding set_value
argument-IsKnown args item n (v, e) = by_item (in_item item n) (lookup n args) e
  where
    by_item :
        (o : Option Bytes) (a : Option Argument)
        → a ≡ some (string_argument v)
        → Gives (first_set o (text_in a))
    by_item (some w) a e = (w, refl)
    by_item none a e = (v, rw e refl)

module _ (g : Signature) (args : ArgumentList) (fits : Fits g args) where
  texts-IsKnown : (item : Option Item) → All (IsKnown args item) g.texts
  texts-IsKnown item = All-map g.texts (λ n h. argument-IsKnown args item n h) fits.texts

  body-IsKnown :
      (fields : List Bytes) (x : Item)
      → HasFields fields x
      → All (IsKnown args (some x)) (fields ++ g.texts)
  body-IsKnown fields x h =
      All-append (IsKnown args (some x)) fields g.texts
        (All-map fields (λ f e. field-IsKnown args x f e) h) (texts-IsKnown (some x))

module _ (body : Item → Option Bytes) (sep : Option Bytes) (P : Item → Type 0)
    (gives : (x : Item) → P x → Gives (body x)) (gives_sep : Gives sep) where
  more-Gives : (xs : List Item) → All P xs → Gives (strict_more body sep xs)
  unfolding strict_more
  more-Gives [] h = ([], refl)
  more-Gives (x ∷ xs) h =
      joined-Gives sep _ gives_sep (joined-Gives (body x) _ (gives x h.0) (more-Gives xs h.1))

  items-Gives : (xs : List Item) → All P xs → Gives (strict_items body sep xs)
  items-Gives [] h = ([], refl)
  items-Gives (x ∷ xs) h = joined-Gives (body x) _ (gives x h.0) (more-Gives xs h.1)

loop-Gives :
    (body : Item → Option Bytes) (sep : Option Bytes) (a : Option Argument) (xs : List Item)
    → a ≡ some (array_argument xs)
    → Gives (strict_items body sep xs)
    → Gives (strict_loop body sep a)
loop-Gives body sep a xs e h = rw e h

loop_checked :
    (o : Option (List Bytes)) (p : List Bytes → Bool) (q : Bool)
    → elim o as (λ x. Bool) [ none ↦ false | some fields ↦ p fields && q ] ≡ true
    → (fields : List Bytes) × (o ≡ some fields) × (p fields ≡ true) × (q ≡ true)
loop_checked none p q h = cc
loop_checked (some fields) p q h = let (a, b) = (and-eq-true_iff _ _).0 h in (fields, refl, a, b)

in_branch :
    (b : Bool) (x y : Option Bytes) → (b ≡ false → Gives x) → Gives y → Gives (if b then y else x)
in_branch true x y h k = k
in_branch false x y h k = h refl

module _ (g : Signature) (args : ArgumentList) (fits : Fits g args) where
  mutual
    unfolding check_token strict_token

    token-Gives :
        (item : Option Item) (known : List Bytes) (t : Token)
        → All (IsKnown args item) known
        → check_token g known t ≡ true
        → Gives (strict_token args item t)
    token-Gives item known (text d) k h = (d, refl)
    token-Gives item known (variable n) k h = has_name-IsKnown args item n known k h
    token-Gives item known (foreach n body sep) k h =
        let (fields, e, b, s) =
          loop_checked (lookup n g.arrays) (λ fields. check_tokens g (fields ++ g.texts) body)
            (check_tokens g g.texts sep) h in
        let (xs, a, has) = fits.arrays n fields e in
        loop-Gives _ _ (lookup n args) xs a (
          items-Gives (λ x. strict_tokens args (some x) body) (strict_tokens args none sep)
            (HasFields fields)
            (λ x f.
              tokens-Gives (some x) (fields ++ g.texts) body (body-IsKnown g args fits fields x f)
                b)
            (tokens-Gives none g.texts sep (texts-IsKnown g args fits none) s) xs has)
    token-Gives item known (branch n if_true if_false) k h =
        let (t, f) = (and-eq-true_iff _ _).0 h in
        in_branch (is_empty (get_variable args item n)) _ _
          (λ e. tokens-Gives item (n ∷ known) if_true (nonempty-IsKnown args item n e, k) t)
          (tokens-Gives item known if_false k f)
    token-Gives item known separator k h = cc
    token-Gives item known end_tag k h = cc
    token-Gives item known else_tag k h = cc

    tokens-Gives :
        (item : Option Item) (known : List Bytes) (ts : Tokens)
        → All (IsKnown args item) known
        → check_tokens g known ts ≡ true
        → Gives (strict_tokens args item ts)
    tokens-Gives item known nil k h = ([], refl)
    tokens-Gives item known (cons t ts) k h =
        let (a, b) = (and-eq-true_iff _ _).0 h in
        joined-Gives (strict_token args item t) (strict_tokens args item ts)
          (token-Gives item known t k a) (tokens-Gives item known ts k b)

  -- A template that passes the check against a signature is rendered for all arguments that fit it, and
  -- no name that it shows or loops over is unset: the strict rendering, which fails at such a name,
  -- gives a text, and `yield` gives this text.
  pub check-yield :
      (ts : Tokens)
      → check g ts ≡ true
      → (d : Bytes) × (strict_tokens args none ts ≡ some d) × (yield ts args ≡ ok d)
  unfolding check yield
  check-yield ts h =
      let (d, e) = tokens-Gives none g.texts ts (texts-IsKnown g args fits none) h in
      (d, e, tokens-strict args none ts d e)
