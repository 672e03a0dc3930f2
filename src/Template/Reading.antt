-- ===== src/Template/Reading.antt =====
-- How `get_next_token` of src/template.cpp reads one written piece: a text, a tag, a name in a tag.
use simurga.Base.{
  ℕ, suc, ◌+◌, ◌≡◌, ◌≢◌, refl, ◌∙◌, true, none, some, [], ◌∷◌, ◌++◌, arith, length, drop, Bytes,
  codes, append_assoc, append-nil, inl, inr, ◌⊎◌, take-length-append, drop-length-append, ==_iff,
}
use simurga.Text.{find}
use simurga.Text.Find.{find-append_mark}
use simurga.Text.Trim.{IsTrimmed, trim-IsTrimmed, ends_solid}
use simurga.Template.{text, variable}
use simurga.Template.Parser.{
  done, Sub, if_tag, for_tag, simple, classify, build, next_at, next_token, open_mark, close_mark,
}
use simurga.Template.Source.{tag, IsName, NoHash}

drop-length_two : (s r : Bytes) (a b : ℕ) → drop (length s + 2) (s ++ a ∷ b ∷ r) ≡ r
drop-length_two [] r a b = refl
drop-length_two (c ∷ s) r a b = rw (suc-add (length s)) (drop-length_two s r a b)
  where
    suc-add : (n : ℕ) → suc n + 2 ≡ suc (n + 2)
    suc-add n = omega arith

find-open_mark : (s : Bytes) → find open_mark (b'<' ∷ b'%' ∷ s) ≡ some 0
unfolding find
find-open_mark s = refl

-- A whole tag at the front of the input.
pub next_token-tag :
    (sub : Sub) (body r : Bytes)
    → IsTrimmed body
    → find close_mark body ≡ none
    → next_token sub (tag body ++ r) ≡ build sub (classify body) r
unfolding next_token
next_token-tag sub body r t e = rw find-open_mark (
    rw (append_assoc body close_mark r) (
      rw (find-append_mark b'%' b'>' body r (omega arith) e) (
        rw (take-length-append body (close_mark ++ r), drop-length_two body r b'%' b'>')
          (rw (trim-IsTrimmed body t)))))

-- A text in front of a tag or of the end.
abbrev pub IsMarked : Bytes → Type 0
IsMarked s = (s ≡ []) ⊎ ((r : Bytes) × (s ≡ b'<' ∷ b'%' ∷ r))

next_at-length_append :
    (sub : Sub) (d r : Bytes) → d ≢ [] → next_at sub (d ++ r) (length d) ≡ done (text d, r)
unfolding next_at
next_at-length_append sub [] r ne = absurd (ne refl)
next_at-length_append sub (c ∷ d) r ne = rw (take-length-append d r, drop-length-append d r)

next_at-length : (sub : Sub) (d : Bytes) → d ≢ [] → next_at sub d (length d) ≡ done (text d, [])
next_at-length sub d ne = rw append-nil at (next_at-length_append sub d [] ne)

pub next_token-text :
    (sub : Sub) (d r : Bytes)
    → d ≢ []
    → find open_mark d ≡ none
    → IsMarked r
    → next_token sub (d ++ r) ≡ done (text d, r)
unfolding next_token
next_token-text sub d r ne e (inl m) = rw (m, append-nil d) (rw e (next_at-length sub d ne))
next_token-text sub d r ne e (inr (r', m)) =
    rw m (rw (find-append_mark b'<' b'%' d r' (omega arith) e) (next_at-length_append sub d _ ne))

ends_solid-cons : (c : ℕ) (s : Bytes) → ends_solid s ≡ true → ends_solid (c ∷ s) ≡ true
ends_solid-cons c [] h = cc
ends_solid-cons c (d ∷ s) h = h

-- The bodies of the tags that take a name.
if_body-IsTrimmed : (n : Bytes) → IsTrimmed n → IsTrimmed (codes "#if " ++ n)
if_body-IsTrimmed n t = record {
  starts = refl;
  ends = ends_solid-cons b'f' (b' ' ∷ n) (ends_solid-cons b' ' n t.ends);
}

for_body-IsTrimmed : (n : Bytes) → IsTrimmed n → IsTrimmed (codes "#for " ++ n)
for_body-IsTrimmed n t = record {
  starts = refl;
  ends = ends_solid-cons b'r' (b' ' ∷ n) (ends_solid-cons b' ' n t.ends);
}

if_body-closed : (n : Bytes) → find close_mark n ≡ none → find close_mark (codes "#if " ++ n) ≡ none
unfolding find
if_body-closed n e = rw e

for_body-closed :
    (n : Bytes) → find close_mark n ≡ none → find close_mark (codes "#for " ++ n) ≡ none
unfolding find
for_body-closed n e = rw e

classify-if : (n : Bytes) → IsTrimmed n → classify (codes "#if " ++ n) ≡ if_tag n
unfolding classify
classify-if n t = ground (arith, trim-IsTrimmed n t)

classify-for : (n : Bytes) → IsTrimmed n → classify (codes "#for " ++ n) ≡ for_tag n
unfolding classify
classify-for n t = ground (arith, trim-IsTrimmed n t)

module _ (sub : Sub) (n r : Bytes) (name : IsName n) where
  pub next_token-if : next_token sub (tag (codes "#if " ++ n) ++ r) ≡ build sub (if_tag n) r
  next_token-if =
      next_token-tag sub _ r (if_body-IsTrimmed n name.trimmed) (if_body-closed n name.closed)
      ∙ rw (classify-if n name.trimmed)

  pub next_token-for : next_token sub (tag (codes "#for " ++ n) ++ r) ≡ build sub (for_tag n) r
  next_token-for =
      next_token-tag sub _ r (for_body-IsTrimmed n name.trimmed) (for_body-closed n name.closed)
      ∙ rw (classify-for n name.trimmed)

classify-variable : (n : Bytes) → IsTrimmed n → NoHash n → classify n ≡ simple (variable n)
unfolding classify
classify-variable [] t h = cc (t.starts)
classify-variable (c ∷ s) t h = ground (arith, ==_iff c b'#')

pub next_token-variable :
    (sub : Sub) (n r : Bytes)
    → IsName n
    → NoHash n
    → next_token sub (tag n ++ r) ≡ done (variable n, r)
unfolding build
next_token-variable sub n r name h =
    next_token-tag sub n r name.trimmed name.closed ∙ rw (classify-variable n name.trimmed h)
