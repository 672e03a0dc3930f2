-- ===== src/Template/Signature.antt =====
-- What a template of src/template.cpp may take for granted of the arguments that a handler gives it, a
-- check of the template against this, and a rendering that fails where `yield` shows nothing for a name
-- that is not set.
mod Strict
pub mod Sound
use simurga.Base.{
  Bool, true, false, ◌&&◌, ◌||◌, Option, none, some, List, [], ◌∷◌, ◌++◌, Bytes, if◌then◌else◌,
  is_empty, All, ◌≡◌,
}
use simurga.Dict.{Dict, lookup}
use simurga.Template.Arguments.{
  Item, Argument, string_argument, array_argument, ArgumentList, in_item, get_variable,
}
use simurga.Template.{
  Token, Tokens, text, variable, separator, end_tag, else_tag, foreach, branch, nil, cons,
}
use simurga.Text.{equal}

-- The names that stand for a text, and those of the arrays with the fields of their items.
pub record Signature : Type 0 where
  pub texts : List Bytes
  pub arrays : Dict (List Bytes)

abbrev pub has_name : Bytes → List Bytes → Bool
has_name n [] = false
has_name n (m ∷ ms) = equal m n || has_name n ms

-- Each name that is shown is known to be set: by the signature, as a field of the item, or since an #if
-- asks for it; each loop is over an array. The names known outside a loop need not be known in it.
unfoldable mutual
  pub check_token : Signature → List Bytes → Token → Bool
  check_token g known (text d) = true
  check_token g known (variable n) = has_name n known
  check_token g known (foreach n body sep) = elim (lookup n g.arrays) [
    | none ↦ false
    | some fields ↦ check_tokens g (fields ++ g.texts) body && check_tokens g g.texts sep
  ]
  check_token g known (branch n if_true if_false) =
      check_tokens g (n ∷ known) if_true && check_tokens g known if_false
  check_token g known separator = false
  check_token g known end_tag = false
  check_token g known else_tag = false

  pub check_tokens : Signature → List Bytes → Tokens → Bool
  check_tokens g known nil = true
  check_tokens g known (cons t ts) = check_token g known t && check_tokens g known ts

unfoldable pub check : Signature → Tokens → Bool
unfolding check_tokens
check g ts = check_tokens g g.texts ts

abbrev pub text_in : Option Argument → Option Bytes
text_in none = none
text_in (some (string_argument v)) = some v
text_in (some (array_argument xs)) = none

abbrev pub first_set : Option Bytes → Option Bytes → Option Bytes
first_set (some v) o = some v
first_set none o = o

-- The text that a name is set to.
unfoldable pub set_value : ArgumentList → Option Item → Bytes → Option Bytes
set_value args item n = first_set (in_item item n) (text_in (lookup n args))

abbrev pub joined : Option Bytes → Option Bytes → Option Bytes
joined none o = none
joined (some a) none = none
joined (some a) (some b) = some (a ++ b)

-- The items behind the first, each with the separator in front of it.
unfoldable pub strict_more : (Item → Option Bytes) → Option Bytes → List Item → Option Bytes
strict_more body sep [] = some []
strict_more body sep (x ∷ xs) = joined sep (joined (body x) (strict_more body sep xs))

abbrev pub strict_items : (Item → Option Bytes) → Option Bytes → List Item → Option Bytes
strict_items body sep [] = some []
strict_items body sep (x ∷ xs) = joined (body x) (strict_more body sep xs)

abbrev pub strict_loop : (Item → Option Bytes) → Option Bytes → Option Argument → Option Bytes
strict_loop body sep none = none
strict_loop body sep (some (string_argument v)) = none
strict_loop body sep (some (array_argument xs)) = strict_items body sep xs

-- A rendering in which a name that is shown or looped over has to be set.
unfoldable mutual
  pub strict_token : ArgumentList → Option Item → Token → Option Bytes
  strict_token args item (text d) = some d
  strict_token args item (variable n) = set_value args item n
  strict_token args item (foreach n body sep) =
      strict_loop (λ x. strict_tokens args (some x) body) (strict_tokens args none sep)
        (lookup n args)
  strict_token args item (branch n if_true if_false) =
      if is_empty (get_variable args item n)
      then strict_tokens args item if_false
      else strict_tokens args item if_true
  strict_token args item separator = none
  strict_token args item end_tag = none
  strict_token args item else_tag = none

  pub strict_tokens : ArgumentList → Option Item → Tokens → Option Bytes
  strict_tokens args item nil = some []
  strict_tokens args item (cons t ts) =
      joined (strict_token args item t) (strict_tokens args item ts)

-- The arguments that a signature stands for.
abbrev pub HasFields : List Bytes → Item → Type 0
HasFields fields x = All (λ f. (v : Bytes) × (lookup f x ≡ some v)) fields

pub record Fits (g : Signature) (args : ArgumentList) : Type 0 where
  pub texts : All (λ n. (v : Bytes) × (lookup n args ≡ some (string_argument v))) g.texts
  pub arrays :
      (n : Bytes) (fields : List Bytes)
      → lookup n g.arrays ≡ some fields
      → (xs : List Item) × (lookup n args ≡ some (array_argument xs)) × All (HasFields fields) xs
