-- ===== src/Template/Arguments.antt =====
-- The arguments of a template: TemplateArgument with its two classes, ArgumentList, `add_argument`,
-- `add_arguments` and `get_variable` of src/template.hpp and src/template.cpp.
use simurga.Base.{◌≡◌, refl, ◌∙◌, Option, none, some, List, [], ◌∷◌, arith, if◌then◌else◌, Bytes}
use simurga.Text.{equal, equal_iff}
use simurga.Dict.{Dict, lookup, insert, lookup-insert}

-- ArrayArgument::Item
abbrev pub Item : Type 0
Item = Dict Bytes

-- StringArgument and ArrayArgument
pub data Argument : Type 0 where
  string_argument : Bytes → Argument
  array_argument : List Item → Argument

abbrev pub ArgumentList : Type 0
ArgumentList = Dict Argument

unfoldable pub to_string : Argument → Bytes
to_string (string_argument v) = v
to_string (array_argument xs) = []

unfoldable pub add_argument : ArgumentList → Bytes → Bytes → ArgumentList
add_argument args name value = insert name (string_argument value) args

unfoldable pub add_arguments : ArgumentList → Dict Bytes → ArgumentList
unfolding add_argument
add_arguments args [] = args
add_arguments args ((k, v) ∷ m) = add_arguments (add_argument args k v) m

abbrev pub in_item : Option Item → Bytes → Option Bytes
in_item none var = none
in_item (some item) var = lookup var item

abbrev pub text_of : Option Argument → Bytes
text_of none = []
text_of (some a) = to_string a

abbrev pub first_of_two : Option Bytes → Bytes → Bytes
first_of_two (some v) w = v
first_of_two none w = w

unfoldable pub get_variable : ArgumentList → Option Item → Bytes → Bytes
unfolding to_string
get_variable args item var = first_of_two (in_item item var) (text_of (lookup var args))

-- A field of the current item hides the argument of its name.
pub get_variable-item :
    (args : ArgumentList) (item : Item) (var v : Bytes)
    → lookup var item ≡ some v
    → get_variable args (some item) var ≡ v
unfolding get_variable
get_variable-item args item var v e = rw e

-- A name that the item does not have is looked up among the arguments.
pub get_variable-no_item :
    (args : ArgumentList) (item : Item) (var : Bytes)
    → lookup var item ≡ none
    → get_variable args (some item) var ≡ get_variable args none var
unfolding get_variable
get_variable-no_item args item var e = rw e

pub get_variable-add_argument :
    (args : ArgumentList) (k v j : Bytes)
    → get_variable (add_argument args k v) none j
      ≡ (if equal k j then v else get_variable args none j)
unfolding get_variable add_argument
get_variable-add_argument args k v j = ground (arith, lookup-insert k j (string_argument v) args)

-- Each key of a std::map stands once.
abbrev pub IsUnique : Dict Bytes → Type 0
IsUnique [] = Unit
IsUnique ((k, v) ∷ m) = (lookup k m ≡ none) × IsUnique m

-- After `add_arguments` with a map whose keys stand once each, a name has the map's value, or what it
-- had before if the map has none.
pub get_variable-add_arguments :
    (args : ArgumentList) (m : Dict Bytes) (j : Bytes)
    → IsUnique m
    → get_variable (add_arguments args m) none j
      ≡ first_of_two (lookup j m) (get_variable args none j)
unfolding add_arguments lookup
get_variable-add_arguments args [] j u = refl
get_variable-add_arguments args ((k, v) ∷ m) j u =
    get_variable-add_arguments (add_argument args k v) m j u.1
    ∙ ground (arith, equal_iff k j, get_variable-add_argument args k v j, u.0)
