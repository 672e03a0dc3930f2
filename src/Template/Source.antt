-- ===== src/Template/Source.antt =====
-- The text of a template: the tokens written back, which `Template/RoundTrip` parses again.
use simurga.Base.{◌≡◌, ◌≢◌, none, [], ◌∷◌, ◌++◌, Bytes, codes}
use simurga.Text.{find}
use simurga.Text.Trim.{IsTrimmed}
use simurga.Template.{
  Token, Tokens, text, variable, separator, end_tag, else_tag, foreach, branch, nil, cons,
}
use simurga.Template.Parser.{open_mark, close_mark}

-- "<%", the body, "%>"
abbrev pub tag : Bytes → Bytes
tag body = b'<' ∷ b'%' ∷ (body ++ b'%' ∷ b'>' ∷ [])

-- A second list, with the tag in front of it, unless it is empty.
abbrev pub second : Bytes → Tokens → Bytes → Bytes
second body nil s = []
second body (cons t ts) s = tag body ++ s

unfoldable mutual
  pub source : Token → Bytes
  source (text d) = d
  source (variable n) = tag n
  source separator = tag (codes "#sep")
  source end_tag = tag (codes "#end")
  source else_tag = tag (codes "#else")
  source (foreach n b s) =
      tag (codes "#for " ++ n)
      ++ (source_all b ++ (second (codes "#sep") s (source_all s) ++ tag (codes "#end")))
  source (branch n t f) =
      tag (codes "#if " ++ n)
      ++ (source_all t ++ (second (codes "#else") f (source_all f) ++ tag (codes "#end")))

  pub source_all : Tokens → Bytes
  source_all nil = []
  source_all (cons t ts) = source t ++ source_all ts

-- A name can stand in a tag: neither end is white, and it does not hold "%>".
pub record IsName (n : Bytes) : Type 0 where
  pub trimmed : IsTrimmed n
  pub closed : find close_mark n ≡ none

abbrev pub NoHash : Bytes → Type 0
NoHash [] = Unit
NoHash (c ∷ s) = c ≢ b'#'

-- Two texts in a row would be read as one.
abbrev pub Apart : Token → Tokens → Type 0
Apart (text d) (cons (text e) ts) = ⊥
Apart (text d) _ = Unit
Apart _ ts = Unit

-- The tokens that a template can express.
mutual
  pub data IsWritable : Token → Type 0 where
    text_ok : {d : Bytes} → d ≢ [] → find open_mark d ≡ none → IsWritable (text d)
    variable_ok : {n : Bytes} → IsName n → NoHash n → IsWritable (variable n)
    foreach_ok :
        {n : Bytes} {b s : Tokens}
        → IsName n
        → AreWritable b
        → AreWritable s
        → IsWritable (foreach n b s)
    branch_ok :
        {n : Bytes} {t f : Tokens}
        → IsName n
        → AreWritable t
        → AreWritable f
        → IsWritable (branch n t f)

  pub data AreWritable : Tokens → Type 0 where
    nil_ok : AreWritable nil
    cons_ok :
        {t : Token} {ts : Tokens}
        → IsWritable t
        → Apart t ts
        → AreWritable ts
        → AreWritable (cons t ts)
