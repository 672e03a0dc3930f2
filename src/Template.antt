-- ===== src/Template.antt =====
-- The page templates of src/template.hpp and src/template.cpp: tokens, arguments, the parser, the
-- rendering, and the list of loaded templates.
pub mod Parser
pub mod Progress
pub mod Fuel
pub mod Source
pub mod Reading
pub mod Rounds
pub mod RoundTrip
pub mod Arguments
pub mod Render
pub mod Rendering
pub mod Extensional
pub mod Orders
pub mod Signature
pub mod Store
pub mod Loading
pub mod Directory
use simurga.Base.{Bool, true, false, Bytes, List, ◌∷◌, []}

-- enum TokenType; `none_type` is Token_None.
pub data TokenType : Type 0 where
  none_type string_type variable_type foreach_type separator_type end_type if_type else_type :
      TokenType

-- struct Token with ForeachToken and IfToken, and TokenList.
mutual
  pub data Token : Type 0 where
    text : Bytes → Token
    variable : Bytes → Token
    separator : Token
    end_tag : Token
    else_tag : Token
    foreach : Bytes → Tokens → Tokens → Token
    branch : Bytes → Tokens → Tokens → Token

  pub data Tokens : Type 0 where
    nil : Tokens
    cons : Token → Tokens → Tokens

-- token->type
unfoldable pub type_of : Token → TokenType
type_of (text d) = string_type
type_of (variable d) = variable_type
type_of separator = separator_type
type_of end_tag = end_type
type_of else_tag = else_type
type_of (foreach d b s) = foreach_type
type_of (branch d t f) = if_type

-- operator== of the enumeration
unfoldable pub same_type : TokenType → TokenType → Bool
same_type none_type none_type = true
same_type string_type string_type = true
same_type variable_type variable_type = true
same_type foreach_type foreach_type = true
same_type separator_type separator_type = true
same_type end_type end_type = true
same_type if_type if_type = true
same_type else_type else_type = true
same_type _ _ = false
