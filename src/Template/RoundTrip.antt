-- ===== src/Template/RoundTrip.antt =====
-- `parse` of src/template.cpp on what `source` writes.
use simurga.Base.{
  ℕ, zero, suc, ◌+◌, ◌<◌, ◌≡◌, refl, ap, ◌∙◌, [], ◌∷◌, ◌++◌, arith, length, Bytes, codes,
  length-append, append_assoc, append-nil, inl, inr,
}
use simurga.Template.{TokenType, end_type, Token, Tokens, nil, cons, type_of}
use simurga.Template.Parser.{done, get_next_token, parse_subtokens, parse_loop, parse}
use simurga.Template.Reading.{next_token-text, next_token-if, next_token-for, next_token-variable}
use simurga.Template.Rounds.{
  Closes, end-Closes_none, end-Closes_else, end-Closes_separator, else-Closes, separator-Closes,
  last_round, inner_round, build-if, build-if_else, build-for, build-for_sep, Follows, Follows-list,
  length-source_pos, inside, source-branch, source-foreach, length-tag, inside-bound,
}
use simurga.Template.Source.{
  tag, source, source_all, IsWritable, AreWritable, text_ok, variable_ok, foreach_ok, branch_ok,
  nil_ok, cons_ok,
}

length-append_bytes : (s r : Bytes) → length (s ++ r) ≡ length s + length r
length-append_bytes = length-append

ruleset lengths = (arith, length-append_bytes, length-tag)

-- With fuel for the whole input, a written token and a written list are read off its front.
mutual
  unfolding get_next_token source inside type_of

  token-reads :
      {t : Token} (f : ℕ) (rest : Bytes)
      → IsWritable t
      → length (source t ++ rest) + length (source t ++ rest) < f
      → Follows t rest
      → get_next_token f (source t ++ rest) ≡ done (t, rest)
  token-reads zero rest w h m = absurd (omega arith)
  token-reads (suc f) rest (text_ok {d} ne e) h m =
      next_token-text (parse_subtokens f) d rest ne e m
  token-reads (suc f) rest (variable_ok {n} name nh) h m =
      next_token-variable (parse_subtokens f) n rest name nh
  token-reads (suc f) rest (branch_ok {n} {t} {f = nil} name wt wf) h m =
      let x : Bytes = inside (codes "#else") t nil rest in
      let bound : length x + length x + 1 < f =
        inside-bound _ (codes "#if " ++ n) x f (source-branch n t nil rest) h in
      ap (get_next_token (suc f)) (source-branch n t nil rest)
      ∙ (next_token-if (parse_subtokens f) n x name
          ∙ build-if (parse_subtokens f) n x rest t (list-reads f rest end-Closes_else wt bound))
  token-reads (suc f) rest (branch_ok {n} {t} {f = cons u us} name wt wf) h m =
      let x : Bytes = inside (codes "#else") t (cons u us) rest in
      let bound : length x + length x + 1 < f =
        inside-bound _ (codes "#if " ++ n) x f (source-branch n t (cons u us) rest) h in
      ap (get_next_token (suc f)) (source-branch n t (cons u us) rest)
      ∙ (next_token-if (parse_subtokens f) n x name
          ∙ build-if_else (parse_subtokens f) n x
              (source_all (cons u us) ++ (tag (codes "#end") ++ rest)) rest t (cons u us) end_type
              (list-reads f (source_all (cons u us) ++ (tag (codes "#end") ++ rest)) else-Closes wt
                bound)
              (list-reads f rest end-Closes_none wf (omega lengths)))
  token-reads (suc f) rest (foreach_ok {n} {b} {s = nil} name wt wf) h m =
      let x : Bytes = inside (codes "#sep") b nil rest in
      let bound : length x + length x + 1 < f =
        inside-bound _ (codes "#for " ++ n) x f (source-foreach n b nil rest) h in
      ap (get_next_token (suc f)) (source-foreach n b nil rest)
      ∙ (next_token-for (parse_subtokens f) n x name
          ∙ build-for (parse_subtokens f) n x rest b
              (list-reads f rest end-Closes_separator wt bound))
  token-reads (suc f) rest (foreach_ok {n} {b} {s = cons u us} name wt wf) h m =
      let x : Bytes = inside (codes "#sep") b (cons u us) rest in
      let bound : length x + length x + 1 < f =
        inside-bound _ (codes "#for " ++ n) x f (source-foreach n b (cons u us) rest) h in
      ap (get_next_token (suc f)) (source-foreach n b (cons u us) rest)
      ∙ (next_token-for (parse_subtokens f) n x name
          ∙ build-for_sep (parse_subtokens f) n x
              (source_all (cons u us) ++ (tag (codes "#end") ++ rest)) rest b (cons u us) end_type
              (list-reads f (source_all (cons u us) ++ (tag (codes "#end") ++ rest))
                separator-Closes wt bound)
              (list-reads f rest end-Closes_none wf (omega lengths)))

  list-reads :
      {ts : Tokens} {end2 : TokenType} {close : Token} {body : Bytes} (f : ℕ) (rest : Bytes)
      → Closes end2 close body
      → AreWritable ts
      → length (source_all ts ++ (tag body ++ rest))
          + length (source_all ts ++ (tag body ++ rest))
          + 1
        < f
      → parse_subtokens f end_type end2 (source_all ts ++ (tag body ++ rest))
        ≡ done (type_of close, ts, rest)
  list-reads zero rest c w h = absurd (omega arith)
  list-reads (suc zero) rest c w h = absurd (omega arith)
  list-reads (suc (suc f)) rest c nil_ok h = last_round c f rest
  list-reads {body} (suc (suc f)) rest c (cons_ok {t} {ts} w a ws) h =
      let tail : Bytes = source_all ts ++ (tag body ++ rest) in
      let whole : source_all (cons t ts) ++ (tag body ++ rest) ≡ source t ++ tail =
        append_assoc (source t) (source_all ts) (tag body ++ rest) in
      rw whole (
        inner_round c (suc f) _ tail rest t ts (omega (lengths, length-source_pos w)) w
          (token-reads (suc f) tail w (omega (lengths, ap length whole))
            (Follows-list (tag body ++ rest) (inr (_, refl)) w a ws))
          (list-reads (suc f) rest c ws (omega (lengths, ap length whole, length-source_pos w))))

loop_round :
    (f : ℕ) (s r : Bytes) (t : Token) (ts : Tokens)
    → 0 < length s
    → get_next_token f s ≡ done (t, r)
    → parse_loop f r ≡ done ts
    → parse_loop (suc f) s ≡ done (cons t ts)
unfolding parse_loop
loop_round f [] r t ts pos e e' = absurd (omega arith)
loop_round f (c ∷ s) r t ts pos e e' = rw e (rw e')

parse_loop-source :
    {ts : Tokens} (f : ℕ)
    → AreWritable ts
    → length (source_all ts) + length (source_all ts) + 1 < f
    → parse_loop f (source_all ts) ≡ done ts
unfolding parse_loop source
parse_loop-source zero w h = absurd (omega arith)
parse_loop-source (suc f) nil_ok h = refl
parse_loop-source (suc f) (cons_ok {t} {ts} w a ws) h =
    loop_round f _ (source_all ts) t ts (omega (lengths, length-source_pos w))
      (token-reads f (source_all ts) w (omega arith)
        (rw append-nil at (Follows-list [] (inl refl) w a ws)))
      (parse_loop-source f ws (omega (lengths, length-source_pos w)))

-- The text of tokens that a template can express parses to these tokens: separator, end and else tags
-- stand where they end a list only, names are trimmed and hold no "%>", a variable's does not begin with
-- '#', texts are not empty, hold no "<%" and do not follow each other.
pub parse-source : {ts : Tokens} → AreWritable ts → parse (source_all ts) ≡ done ts
unfolding parse
parse-source w = parse_loop-source _ w (omega arith)
