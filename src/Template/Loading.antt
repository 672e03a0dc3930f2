-- ===== src/Template/Loading.antt =====
-- Which templates `TemplateList::load` of src/template.cpp makes known.
use simurga.Base.{
  ℕ, zero, suc, ◌≤◌, ◌-◌, ◌≡◌, ◌≢◌, ◌||◌, refl, sym, ap, ◌∙◌, ◌⊎◌, inl, inr, Bool, true, false,
  Option, none, some, List, [], ◌∷◌, ◌++◌, take, drop, Bytes, length, arith, Option-cases,
  Bool-cases, take-length-append, take-append-drop, length-append, length-drop, ==_iff,
}
use simurga.Dict.{lookup, insert, lookup-insert}
use simurga.Files.{System, Dirent}
use simurga.Template.Parser.{Outcome, done, failed, out_of_fuel, ◌>>=◌}
use simurga.Template.Store.{
  page_template, Templates, suffix, is_at, template_name, path_of, load_files, load, names_of,
}
use simurga.Template.{Tokens}
use simurga.Text.{rfind, starts_with, equal, equal_iff, equal_refl}

rfind-append : (n : Bytes) → rfind suffix (n ++ suffix) ≡ some (length n)
unfolding rfind
rfind-append [] = refl
rfind-append (c ∷ n) = rw (rfind-append n)

-- A file of that ending holds the template of the name in front of it.
template_name-append : (n : Bytes) → template_name (n ++ suffix) ≡ some n
unfolding template_name
template_name-append n =
    ground (arith, rfind-append n, length-append n suffix, take-length-append n suffix)

rfind_sound : (p s : Bytes) (i : ℕ) → rfind p s ≡ some i → starts_with p (drop i s) ≡ true
unfolding rfind
rfind_sound p [] zero e = ground arith
rfind_sound p [] (suc i) e = ground arith
rfind_sound p (c ∷ s) zero e = ground arith
rfind_sound p (c ∷ s) (suc i) e = ground (arith, rfind_sound p s i)

starts_with-eq : (p d : Bytes) → starts_with p d ≡ true → length d ≡ length p → d ≡ p
unfolding starts_with
starts_with-eq [] [] h e = refl
starts_with-eq [] (c ∷ d) h e = absurd (omega arith)
starts_with-eq (x ∷ p) [] h e = cc
starts_with-eq (x ∷ p) (c ∷ d) h e = ground (arith, starts_with-eq p d, ==_iff x c)

is_at_iff : (o : Option ℕ) (n : ℕ) → is_at o n ≡ true → o ≡ some n
is_at_iff none n h = cc
is_at_iff (some i) n h = ground (arith, ==_iff i n)

template_name-parts :
    (file n : Bytes)
    → template_name file ≡ some n
    → (4 ≤ length file)
      × (rfind suffix file ≡ some (length file - 4))
      × (n ≡ take (length file - 4) file)
unfolding template_name
template_name-parts file n h = ground (arith, is_at_iff (rfind suffix file) (length file - 4))

pub template_name_sound : (file n : Bytes) → template_name file ≡ some n → file ≡ n ++ suffix
template_name_sound file n h =
    let (long, at, e) = template_name-parts file n h in
    let i : ℕ = length file - 4 in
    let tail : drop i file ≡ suffix =
      starts_with-eq suffix (drop i file) (rfind_sound suffix file i at)
        (omega (arith, length-drop i file)) in
    sym (take-append-drop i file) ∙ rw (tail, e)

-- Whether a directory's names have `f` among them.
abbrev pub has : Bytes → List Bytes → Bool
has f [] = false
has f (g ∷ gs) = equal g f || has f gs

-- What `load` leaves under a name: the template of the file of that name, parsed, or what was there.
abbrev pub LoadedAs : System → Bytes → List Bytes → Templates → Templates → Bytes → Type 0
LoadedAs sys dir files before after n =
    (has (n ++ suffix) files ≡ true)
      × ((t : Tokens) × (lookup n after ≡ some t)
          × (page_template sys (path_of dir (n ++ suffix)) ≡ done t))
    ⊎ (has (n ++ suffix) files ≡ false) × (lookup n after ≡ lookup n before)

pub or_true : (a : Bool) {b : Bool} → b ≡ true → (a || b) ≡ true
or_true a h = ground arith

bind-eq-done {ℓ κ} :
    {A : Type ℓ} {B : Type κ} (m : Outcome A) (f : A → Outcome B) {b : B}
    → (m >>= f) ≡ done b
    → (a : A) × (m ≡ done a) × (f a ≡ done b)
bind-eq-done (done a) f h = (a, refl, h)
bind-eq-done (failed e) f h = cc
bind-eq-done out_of_fuel f h = cc

module _ (sys : System) (dir file : Bytes) (files : List Bytes) (before after : Templates)
    (n : Bytes) where
  LoadedAs-skip :
      template_name file ≢ some n
      → LoadedAs sys dir files before after n
      → LoadedAs sys dir (file ∷ files) before after n
  LoadedAs-skip ne (inl (h, t)) = inl (or_true (equal file (n ++ suffix)) h, t)
  LoadedAs-skip ne (inr (h, e)) = elim (Bool-cases (equal file (n ++ suffix))) [
    | inl same ↦
        let file_is : file ≡ n ++ suffix = (equal_iff file (n ++ suffix)).0 same in
        absurd (ne (ap template_name file_is ∙ template_name-append n))
    | inr differs ↦ inr (rw differs h, e)
  ]

  other_file :
      {name : Bytes}
      → equal name n ≡ false
      → template_name file ≡ some name
      → equal file (n ++ suffix) ≡ false
  other_file {name} differs e = elim (Bool-cases (equal file (n ++ suffix))) [
    | inl same ↦
        let file_is : file ≡ n ++ suffix = (equal_iff file (n ++ suffix)).0 same in
        let named : some name ≡ some n =
          sym e ∙ ap template_name file_is ∙ template_name-append n in
        cc (differs, equal_refl n, named)
    | inr other ↦ other
  ]

  LoadedAs-insert :
      (name : Bytes) (t : Tokens)
      → template_name file ≡ some name
      → page_template sys (path_of dir file) ≡ done t
      → LoadedAs sys dir files (insert name t before) after n
      → LoadedAs sys dir (file ∷ files) before after n
  LoadedAs-insert name t e parsed (inl (h, l)) = inl (or_true (equal file (n ++ suffix)) h, l)
  LoadedAs-insert name t e parsed (inr (h, l)) = elim (Bool-cases (equal name n)) [
    | inl same ↦
        let name_is : name ≡ n = (equal_iff name n).0 same in
        let file_is : file ≡ n ++ suffix =
          template_name_sound file name e ∙ ap (λ x. x ++ suffix) name_is in
        inl (
          rw (← file_is) (rw equal_refl),
          (t, l ∙ lookup-insert name n t before ∙ rw same, rw (← file_is) parsed),
        )
    | inr differs ↦
        inr (rw (other_file differs e) h, l ∙ lookup-insert name n t before ∙ rw differs)
  ]

load_files-LoadedAs :
    (sys : System) (dir : Bytes) (files : List Bytes) (before after : Templates) (n : Bytes)
    → load_files sys dir files before ≡ done after
    → LoadedAs sys dir files before after n
unfolding load_files
load_files-LoadedAs sys dir [] before after n h = inr (refl, cc)
load_files-LoadedAs sys dir (file ∷ files) before after n h =
    elim (Option-cases (template_name file)) [
      | inl e ↦
          LoadedAs-skip sys dir file files before after n (λ p. cc (e, p))
            (load_files-LoadedAs sys dir files before after n (rw (e, load_files) at h))
      | inr (name, e) ↦
          let (t, parsed, rest) =
            bind-eq-done (page_template sys (path_of dir file))
              (λ t. load_files sys dir files (insert name t before)) (rw (e, load_files) at h) in
          LoadedAs-insert sys dir file files before after n name t e parsed
            (load_files-LoadedAs sys dir files (insert name t before) after n rest)
    ]

-- After a load that ends, of a directory that can be opened, a name has the template that the file of
-- that name with ".tpl" behind it holds, if the directory has this file, and keeps what it had if not.
pub load-LoadedAs :
    (sys : System) (dir : Bytes) (before after : Templates) (n : Bytes) {es : List Dirent}
    → sys.dir dir ≡ some es
    → load sys dir before ≡ done after
    → LoadedAs sys dir (names_of es) before after n
unfolding load
load-LoadedAs sys dir before after n {es} e h =
    load_files-LoadedAs sys dir (names_of es) before after n (rw (e, load) at h)
