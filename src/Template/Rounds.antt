-- ===== src/Template/Rounds.antt =====
-- One round of the loop in `parse_subtokens` of src/template.cpp on written tokens, and the parts of a
-- written tag.
use simurga.Base.{
  ℕ, suc, ◌+◌, ◌<◌, ◌≡◌, refl, ap, true, false, [], ◌∷◌, ◌++◌, arith, length, Bytes, codes,
  length-append, append_assoc, inr,
}
use simurga.Text.{find}
use simurga.Template.{
  TokenType, end_type, none_type, else_type, separator_type, Token, Tokens, nil, cons, text,
  separator, end_tag, else_tag, foreach, branch, type_of,
}
use simurga.Template.Parser.{
  done, Sub, if_tag, for_tag, build, next_token, ends_list, get_next_token, parse_subtokens,
}
use simurga.Template.Reading.{IsMarked}
use simurga.Template.Source.{
  tag, source, source_all, Apart, IsWritable, AreWritable, text_ok, variable_ok, foreach_ok,
  branch_ok, nil_ok, cons_ok,
}

-- The second types that `get_next_token` passes to `parse_subtokens`.
pub data IsSecond : TokenType → Type 0 where
  at_none : IsSecond none_type
  at_else : IsSecond else_type
  at_separator : IsSecond separator_type

-- A token that can be written never ends a list.
pub IsWritable-passes :
    {end2 : TokenType} {t : Token}
    → IsSecond end2
    → IsWritable t
    → ends_list end_type end2 t ≡ false
unfolding ends_list
IsWritable-passes at_none (text_ok _ _) = refl
IsWritable-passes at_none _ = refl
IsWritable-passes at_else (text_ok _ _) = refl
IsWritable-passes at_else _ = refl
IsWritable-passes at_separator (text_ok _ _) = refl
IsWritable-passes at_separator _ = refl

-- The tag `body` ends a list that `parse_subtokens` reads up to "#end" or a token of type `end2`.
pub record Closes (end2 : TokenType) (close : Token) (body : Bytes) : Type 0 where
  pub reads : (sub : Sub) (r : Bytes) → next_token sub (tag body ++ r) ≡ done (close, r)
  pub stops : ends_list end_type end2 close ≡ true
  pub is_second : IsSecond end2

end-reads : (sub : Sub) (r : Bytes) → next_token sub (tag (codes "#end") ++ r) ≡ done (end_tag, r)
unfolding next_token find
end-reads sub r = refl

pub end-Closes_none : Closes none_type end_tag (codes "#end")
unfolding ends_list
end-Closes_none = record { reads = end-reads; stops = refl; is_second = at_none }

pub end-Closes_else : Closes else_type end_tag (codes "#end")
unfolding ends_list
end-Closes_else = record { reads = end-reads; stops = refl; is_second = at_else }

pub end-Closes_separator : Closes separator_type end_tag (codes "#end")
unfolding ends_list
end-Closes_separator = record { reads = end-reads; stops = refl; is_second = at_separator }

pub else-Closes : Closes else_type else_tag (codes "#else")
unfolding ends_list next_token find
else-Closes = record { reads = λ sub r. refl; stops = refl; is_second = at_else }

pub separator-Closes : Closes separator_type separator (codes "#sep")
unfolding ends_list next_token find
separator-Closes = record { reads = λ sub r. refl; stops = refl; is_second = at_separator }

-- One round of the loop in `parse_subtokens`.
module _ {end2 : TokenType} {close : Token} {body : Bytes} (c : Closes end2 close body) where
  pub last_round :
      (f : ℕ) (rest : Bytes)
      → parse_subtokens (suc (suc f)) end_type end2 (tag body ++ rest)
        ≡ done (type_of close, nil, rest)
  unfolding get_next_token
  last_round f rest = rw (c.reads (parse_subtokens f) rest) (rw c.stops)

  pub inner_round :
      (f : ℕ) (s r r' : Bytes) (t : Token) (ts : Tokens)
      → 0 < length s
      → IsWritable t
      → get_next_token f s ≡ done (t, r)
      → parse_subtokens f end_type end2 r ≡ done (type_of close, ts, r')
      → parse_subtokens (suc f) end_type end2 s ≡ done (type_of close, cons t ts, r')
  unfolding get_next_token
  inner_round f [] r r' t ts pos w e e' = absurd (omega arith)
  inner_round f (x ∷ s) r r' t ts pos w e e' = rw e (rw e' (rw (IsWritable-passes c.is_second w)))

-- The one or two lists of a tag.
module _ (sub : Sub) (n s r : Bytes) (ts : Tokens) where
  pub build-if :
      sub end_type else_type s ≡ done (end_type, ts, r)
      → build sub (if_tag n) s ≡ done (branch n ts nil, r)
  unfolding build
  build-if e = rw e

  pub build-for :
      sub end_type separator_type s ≡ done (end_type, ts, r)
      → build sub (for_tag n) s ≡ done (foreach n ts nil, r)
  unfolding build
  build-for e = rw e

module _ (sub : Sub) (n s r r' : Bytes) (ts us : Tokens) (ty : TokenType) where
  pub build-if_else :
      sub end_type else_type s ≡ done (else_type, ts, r)
      → sub end_type none_type r ≡ done (ty, us, r')
      → build sub (if_tag n) s ≡ done (branch n ts us, r')
  unfolding build
  build-if_else e e' = rw e (rw e')

  pub build-for_sep :
      sub end_type separator_type s ≡ done (separator_type, ts, r)
      → sub end_type none_type r ≡ done (ty, us, r')
      → build sub (for_tag n) s ≡ done (foreach n ts us, r')
  unfolding build
  build-for_sep e e' = rw e (rw e')

-- A text has a tag or the end behind it.
abbrev pub Follows : Token → Bytes → Type 0
Follows (text d) rest = IsMarked rest
Follows _ rest = Unit

pub Follows-list :
    {t : Token} {ts : Tokens} (rest : Bytes)
    → IsMarked rest
    → IsWritable t
    → Apart t ts
    → AreWritable ts
    → Follows t (source_all ts ++ rest)
unfolding source
Follows-list rest m (text_ok x y) a nil_ok = m
Follows-list rest m (text_ok x y) a (cons_ok (text_ok _ _) a' ws) = elim a [ ]
Follows-list rest m (text_ok x y) a (cons_ok (variable_ok _ _) a' ws) = inr (_, refl)
Follows-list rest m (text_ok x y) a (cons_ok (foreach_ok _ _ _) a' ws) = inr (_, refl)
Follows-list rest m (text_ok x y) a (cons_ok (branch_ok _ _ _) a' ws) = inr (_, refl)
Follows-list rest m (variable_ok _ _) a ws = tt
Follows-list rest m (foreach_ok _ _ _) a ws = tt
Follows-list rest m (branch_ok _ _ _) a ws = tt

pub length-source_pos : {t : Token} → IsWritable t → 0 < length (source t)
unfolding source
length-source_pos (text_ok {d = []} x y) = absurd (x refl)
length-source_pos (text_ok {d = c ∷ d} x y) = omega arith
length-source_pos (variable_ok _ _) = omega arith
length-source_pos (foreach_ok _ _ _) = omega arith
length-source_pos (branch_ok _ _ _) = omega arith

-- The parts of a written tag that are behind its first tag.
unfoldable pub inside : Bytes → Tokens → Tokens → Bytes → Bytes
inside body ts nil rest = source_all ts ++ (tag (codes "#end") ++ rest)
inside body ts (cons u us) rest =
    source_all ts ++ (tag body ++ (source_all (cons u us) ++ (tag (codes "#end") ++ rest)))

pub source-branch :
    (n : Bytes) (ts us : Tokens) (rest : Bytes)
    → source (branch n ts us) ++ rest ≡ tag (codes "#if " ++ n) ++ inside (codes "#else") ts us rest
unfolding source inside
source-branch n ts nil rest = simp append_assoc
source-branch n ts (cons u us) rest = simp append_assoc

pub source-foreach :
    (n : Bytes) (ts us : Tokens) (rest : Bytes)
    → source (foreach n ts us) ++ rest
      ≡ tag (codes "#for " ++ n) ++ inside (codes "#sep") ts us rest
unfolding source inside
source-foreach n ts nil rest = simp append_assoc
source-foreach n ts (cons u us) rest = simp append_assoc

pub length-tag : (body s : Bytes) → length (tag body ++ s) ≡ length body + 4 + length s
length-tag body s =
    omega (arith, length-append (body ++ b'%' ∷ b'>' ∷ []) s, length-append body (b'%' ∷ b'>' ∷ []))

pub inside-bound :
    (s body x : Bytes) (f : ℕ)
    → s ≡ tag body ++ x
    → length s + length s < suc f
    → length x + length x + 1 < f
inside-bound s body x f e h = omega (arith, length-tag body x, ap length e)
