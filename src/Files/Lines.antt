-- ===== src/Files/Lines.antt =====
-- Configurations that are written out and read back (`DirConfig` of src/httpservice.cpp).
use simurga.Base.{
  ℕ, suc, ◌+◌, ◌≡◌, ◌≢◌, ◌⊎◌, inl, inr, refl, ap, ◌∙◌, true, none, some, List, map, [], ◌∷◌, ◌++◌,
  arith, ◌==◌, drop, Bytes, All, length, take-length-append, Bool-cases, ==_iff,
}
use simurga.Dict.{Dict, insert}
use simurga.Files.Config.{lines, read_lines, store_line, dir_config}
use simurga.Files.{System}
use simurga.Text.{find, trim}
use simurga.Text.Find.{find-append_byte}
use simurga.Text.Trim.{
  IsTrimmed, trim-IsTrimmed, IsWhite, trim-white, trim-cons, ends_solid, ends_solid-append,
  starts_solid,
}

abbrev NoNewline : Bytes → Type 0
NoNewline = All (λ c. c ≢ b'\n')

lines-append : (l s : Bytes) → NoNewline l → lines (l ++ b'\n' ∷ s) ≡ l ∷ lines s
unfolding lines
lines-append [] s h = refl
lines-append (c ∷ l) s h = ground (arith, lines-append l s h.1, ==_iff c b'\n', h.0)

-- A key or value that a line can hold.
pub record IsKey (k : Bytes) : Type 0 where
  pub trimmed : IsTrimmed k
  pub no_newline : NoNewline k
  pub no_equals : find (b'=' ∷ []) k ≡ none
  pub no_comment : (s : Bytes) → k ≢ b'#' ∷ s

pub record IsValue (v : Bytes) : Type 0 where
  pub trimmed : (v ≡ []) ⊎ IsTrimmed v
  pub no_newline : NoNewline v

-- What a line of the file is for.
pub data Line : Type 0 where
  entry : Bytes → Bytes → Line
  comment : Bytes → Line
  blank : Bytes → Line

abbrev pub write_line : Line → Bytes
write_line (entry k v) = k ++ b'=' ∷ v
write_line (comment s) = b'#' ∷ s
write_line (blank s) = s

abbrev pub write : List Line → Bytes
write [] = []
write (l ∷ ls) = write_line l ++ b'\n' ∷ write ls

abbrev pub IsLine : Line → Type 0
IsLine (entry k v) = IsKey k × IsValue v
IsLine (comment s) = NoNewline s
IsLine (blank s) = NoNewline s × IsWhite s

-- The meaning of the lines: the entries in their order, each over the former of its key.
abbrev pub meaning : List Line → Dict Bytes → Dict Bytes
meaning [] m = m
meaning (entry k v ∷ ls) m = meaning ls (insert k v m)
meaning (comment s ∷ ls) m = meaning ls m
meaning (blank s ∷ ls) m = meaning ls m

NoNewline-append : (a b : Bytes) → NoNewline a → NoNewline b → NoNewline (a ++ b)
NoNewline-append [] b ha hb = hb
NoNewline-append (c ∷ a) b ha hb = (ha.0, NoNewline-append a b ha.1 hb)

write_line-NoNewline : (l : Line) → IsLine l → NoNewline (write_line l)
write_line-NoNewline (entry k v) h =
    NoNewline-append k (b'=' ∷ v) h.0.no_newline (omega arith, h.1.no_newline)
write_line-NoNewline (comment s) h = (omega arith, h)
write_line-NoNewline (blank s) h = h.0

lines-write : (ls : List Line) → All IsLine ls → lines (write ls) ≡ map write_line ls ++ [] ∷ []
unfolding lines
lines-write [] h = refl
lines-write (l ∷ ls) h =
    lines-append (write_line l) (write ls) (write_line-NoNewline l h.0) ∙ rw (lines-write ls h.1)

pub drop-length_one : (s r : Bytes) (a : ℕ) → drop (length s + 1) (s ++ a ∷ r) ≡ r
drop-length_one [] r a = refl
drop-length_one (c ∷ s) r a = rw (suc-add (length s)) (drop-length_one s r a)
  where
    suc-add : (n : ℕ) → suc n + 1 ≡ suc (n + 1)
    suc-add n = omega arith

ends-equals : (v : Bytes) → (v ≡ []) ⊎ IsTrimmed v → ends_solid (b'=' ∷ v) ≡ true
ends-equals v (inl e) = rw e
ends-equals v (inr t) = ends_solid-append (b'=' ∷ []) v t.ends

starts-key : (k s : Bytes) → starts_solid k ≡ true → starts_solid (k ++ s) ≡ true
starts-key [] s h = cc
starts-key (c ∷ k) s h = h

trim-entry : (k v : Bytes) → IsKey k → IsValue v → trim (k ++ b'=' ∷ v) ≡ k ++ b'=' ∷ v
trim-entry k v hk hv = trim-IsTrimmed (k ++ b'=' ∷ v) (record {
  starts = starts-key k (b'=' ∷ v) hk.trimmed.starts;
  ends = ends_solid-append k (b'=' ∷ v) (ends-equals v hv.trimmed);
})

trim-value : (v : Bytes) → (v ≡ []) ⊎ IsTrimmed v → trim v ≡ v
trim-value v (inl e) = rw e (trim-white [] tt)
trim-value v (inr t) = trim-IsTrimmed v t

store_line-entry :
    (k v : Bytes) (m : Dict Bytes)
    → IsKey k
    → IsValue v
    → store_line (k ++ b'=' ∷ v) m ≡ insert k v m
store_line-entry [] v m hk hv = cc (hk.trimmed.starts)
store_line-entry (c ∷ k) v m hk hv = elim (Bool-cases (c == b'#')) [
  | inl e ↦ absurd (hk.no_comment k (ap (λ x. x ∷ k) ((==_iff c b'#').0 e)))
  | inr e ↦ rw e (
      rw (find-append_byte b'=' (c ∷ k) v hk.no_equals) (
        rw (take-length-append k (b'=' ∷ v), drop-length_one (c ∷ k) v b'=')
          (rw (trim-IsTrimmed (c ∷ k) hk.trimmed, trim-value v hv.trimmed))))
]

store_line-comment : (s : Bytes) (m : Dict Bytes) → store_line (trim (b'#' ∷ s)) m ≡ m
store_line-comment s m = let (t, e) = trim-cons b'#' s refl in rw e

abbrev meaning_line : Line → Dict Bytes → Dict Bytes
meaning_line l m = meaning (l ∷ []) m

meaning-cons :
    (l : Line) (ls : List Line) (m : Dict Bytes)
    → meaning ls (meaning_line l m) ≡ meaning (l ∷ ls) m
meaning-cons (entry k v) ls m = refl
meaning-cons (comment s) ls m = refl
meaning-cons (blank s) ls m = refl

store_line-write :
    (l : Line) (m : Dict Bytes) → IsLine l → store_line (trim (write_line l)) m ≡ meaning_line l m
store_line-write (entry k v) m h =
    ap (λ s. store_line s m) (trim-entry k v h.0 h.1) ∙ store_line-entry k v m h.0 h.1
store_line-write (comment s) m h = store_line-comment s m
store_line-write (blank s) m h = ap (λ l. store_line l m) (trim-white s h.1)

read_lines-write :
    (ls : List Line) (m : Dict Bytes)
    → All IsLine ls
    → read_lines (map write_line ls ++ [] ∷ []) m ≡ meaning ls m
unfolding read_lines
read_lines-write [] m h = ap (λ l. store_line l m) (trim-white [] tt)
read_lines-write (l ∷ ls) m h =
    ap (read_lines (map write_line ls ++ [] ∷ [])) (store_line-write l m h.0)
    ∙ read_lines-write ls (meaning_line l m) h.1
    ∙ meaning-cons l ls m

-- A configuration file written from entries, comments and blank lines that a line can hold is read as
-- its entries, the later before the earlier of one key.
pub dir_config-write :
    (sys : System) (name : Bytes) (ls : List Line)
    → sys.file name ≡ some (write ls)
    → All IsLine ls
    → dir_config sys name ≡ record { exists = true; entries = meaning ls [] }
unfolding dir_config
dir_config-write sys name ls e h = rw e (rw (lines-write ls h) (rw (read_lines-write ls [] h)))
