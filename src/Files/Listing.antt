-- ===== src/Files/Listing.antt =====
-- `enum_items`, `enum_files` and `enum_folders` of src/httpservice.cpp: the wanted names of a
-- directory.
use simurga.Base.{
  ℕ, ◌-◌, ◌≡◌, ◌≢◌, inl, inr, refl, ap, ◌∙◌, Bool, true, false, not, ◌&&◌, ◌||◌, Option, none, some,
  List, [], ◌∷◌, ◌++◌, arith, ◌==◌, ltb, if◌then◌else◌, take, drop, Bytes, length, is_empty,
  Bool-cases, ==_iff, take-append-drop, drop-length-append, length-append, append-nil, sym,
}
use mathlib.Core.List.{Perm}
use simurga.Files.Sorting.{sort, IsSorted, sort-IsSorted, sort-perm}
use simurga.Files.{System, Dirent, FileType, regular, directory, other}
use simurga.Text.{equal, equal_iff, equal_refl}

abbrev same_type : FileType → FileType → Bool
same_type regular regular = true
same_type directory directory = true
same_type other other = true
same_type _ _ = false

abbrev is_hidden : Bytes → Bool
is_hidden [] = true
is_hidden (c ∷ s) = c == b'.'

-- The test on the end of the name, left out if `ext` is empty.
abbrev lacks_ext : Bytes → Bytes → Bool
lacks_ext id ext =
    not (is_empty ext)
    && (ltb (length id) (length ext) || not (equal (drop (length id - length ext) id) ext))

-- The loop over readdir_r, with its three `continue`s.
unfoldable pub keep : Bytes → FileType → List Dirent → List Bytes
keep ext d_type [] = []
keep ext d_type (e ∷ es) =
    let rest = keep ext d_type es in
    if is_hidden e.d_name
    then rest
    else if not (same_type e.d_type d_type)
    then rest
    else if lacks_ext e.d_name ext
    then rest
    else e.d_name ∷ rest

-- `result.swap(items)`, unless there are none; the Boolean is the returned value.
abbrev hand_over : Bool → List Bytes → List Bytes → Bool × List Bytes
hand_over sorted result [] = (false, result)
hand_over sorted result (x ∷ xs) = (true, if sorted then sort (x ∷ xs) else x ∷ xs)

abbrev pub enum_in : Option (List Dirent) → Bytes → FileType → List Bytes → Bool → Bool × List Bytes
enum_in none ext d_type result sorted = (false, result)
enum_in (some es) ext d_type result sorted = hand_over sorted result (keep ext d_type es)

unfoldable pub enum_items :
    System → Bytes → Bytes → FileType → List Bytes → Bool → Bool × List Bytes
unfolding keep sort
enum_items sys path ext d_type result sorted = enum_in (sys.dir path) ext d_type result sorted

unfoldable pub enum_files : System → Bytes → Bytes → List Bytes → Bool → Bool × List Bytes
unfolding enum_items
enum_files sys path ext result sorted = enum_items sys path ext regular result sorted

unfoldable pub enum_folders : System → Bytes → List Bytes → Bool → Bool × List Bytes
unfolding enum_items
enum_folders sys path result sorted = enum_items sys path [] directory result sorted

-- A visible entry of the type whose name ends in `ext`.
pub record IsWanted (ext : Bytes) (d_type : FileType) (e : Dirent) : Type 0 where
  pub typed : e.d_type ≡ d_type
  pub visible : (s : Bytes) → e.d_name ≢ b'.' ∷ s
  pub named : e.d_name ≢ []
  pub stem : Bytes
  pub ends : e.d_name ≡ stem ++ ext

-- The names listed are those of wanted entries.
pub data Names (ext : Bytes) (d_type : FileType) : List Dirent → List Bytes → Type 0 where
  done : Names ext d_type [] []
  wanted :
      {e : Dirent} {es : List Dirent} {ns : List Bytes}
      → IsWanted ext d_type e
      → Names ext d_type es ns
      → Names ext d_type (e ∷ es) (e.d_name ∷ ns)
  passed :
      {e : Dirent} {es : List Dirent} {ns : List Bytes}
      → ¬ IsWanted ext d_type e
      → Names ext d_type es ns
      → Names ext d_type (e ∷ es) ns

same_type_iff : (a b : FileType) → (same_type a b ≡ true) → a ≡ b
same_type_iff regular regular h = refl
same_type_iff directory directory h = refl
same_type_iff other other h = refl
same_type_iff regular directory h = cc
same_type_iff regular other h = cc
same_type_iff directory regular h = cc
same_type_iff directory other h = cc
same_type_iff other regular h = cc
same_type_iff other directory h = cc

same_type_refl : (a : FileType) → same_type a a ≡ true
same_type_refl regular = refl
same_type_refl directory = refl
same_type_refl other = refl

drop-stem : (stem ext : Bytes) → drop (length (stem ++ ext) - length ext) (stem ++ ext) ≡ ext
drop-stem stem ext = rw stem_length (drop-length-append stem ext)
  where
    stem_length : length (stem ++ ext) - length ext ≡ length stem
    stem_length = omega (arith, length-append stem ext)

lacks_ext-append : (stem ext : Bytes) → lacks_ext (stem ++ ext) ext ≡ false
lacks_ext-append stem ext =
    ground (arith, drop-stem stem ext, equal_refl ext, length-append stem ext)

has_ext : (id ext : Bytes) → lacks_ext id ext ≡ false → (stem : Bytes) × (id ≡ stem ++ ext)
has_ext id [] h = (id, sym (append-nil id))
has_ext id (c ∷ ext) h =
    let n : ℕ = length id - length (c ∷ ext) in
    (take n id, sym (take-append-drop n id) ∙ ap (λ d. take n id ++ d) (ends h))
  where
    ends : lacks_ext id (c ∷ ext) ≡ false → drop (length id - length (c ∷ ext)) id ≡ c ∷ ext
    ends k = ground (arith, equal_iff (drop (length id - length (c ∷ ext)) id) (c ∷ ext))

hidden→¬IsWanted :
    (ext : Bytes) (d_type : FileType) (e : Dirent)
    → is_hidden e.d_name ≡ true
    → ¬ IsWanted ext d_type e
hidden→¬IsWanted ext d_type e h w = hidden_name e.d_name h w.named w.visible
  where
    hidden_name : (n : Bytes) → is_hidden n ≡ true → n ≢ [] → ((s : Bytes) → n ≢ b'.' ∷ s) → ⊥
    hidden_name [] h named visible = named refl
    hidden_name (c ∷ n) h named visible = visible n (ap (λ x. x ∷ n) ((==_iff c b'.').0 h))

mistyped→¬IsWanted :
    (ext : Bytes) (d_type : FileType) (e : Dirent)
    → same_type e.d_type d_type ≡ false
    → ¬ IsWanted ext d_type e
mistyped→¬IsWanted ext d_type e t w =
    cc (ap (λ x. same_type x d_type) w.typed, same_type_refl d_type)

ext→¬IsWanted :
    (ext : Bytes) (d_type : FileType) (e : Dirent)
    → lacks_ext e.d_name ext ≡ true
    → ¬ IsWanted ext d_type e
ext→¬IsWanted ext d_type e l w = cc (ap (λ n. lacks_ext n ext) w.ends, lacks_ext-append w.stem ext)

visible_name : (n : Bytes) → is_hidden n ≡ false → (n ≢ []) × ((s : Bytes) → n ≢ b'.' ∷ s)
visible_name [] h = cc
visible_name (c ∷ n) h = ((λ p. cc), λ s p. ground (arith, ==_iff c b'.'))

keep-Names :
    (ext : Bytes) (d_type : FileType) (es : List Dirent) → Names ext d_type es (keep ext d_type es)
unfolding keep
keep-Names ext d_type [] = done
keep-Names ext d_type (e ∷ es) = elim (Bool-cases (is_hidden e.d_name)) [
  | inl h ↦ rw h (passed (hidden→¬IsWanted ext d_type e h) (keep-Names ext d_type es))
  | inr h ↦ elim (Bool-cases (same_type e.d_type d_type)) [
    | inr t ↦ rw (h, t) (passed (mistyped→¬IsWanted ext d_type e t) (keep-Names ext d_type es))
    | inl t ↦ elim (Bool-cases (lacks_ext e.d_name ext)) [
      | inl l ↦ rw (h, t, l) (passed (ext→¬IsWanted ext d_type e l) (keep-Names ext d_type es))
      | inr l ↦
          let (stem, ends) = has_ext e.d_name ext l in
          let (named, visible) = visible_name e.d_name h in
          rw (h, t, l)
            (wanted
              (record {
                typed = same_type_iff e.d_type d_type t;
                visible = visible;
                named = named;
                stem = stem;
                ends = ends;
              })
              (keep-Names ext d_type es))
    ]
  ]
]

-- What a sorted listing of a directory hands over: true and the sorted names of the wanted entries,
-- or false and the former result if there is no such entry.
pub data Listed (names result : List Bytes) : Bool × List Bytes → Type 0 where
  found : {l : List Bytes} → names ≢ [] → IsSorted l → Perm l names → Listed names result (true, l)
  nothing : names ≡ [] → Listed names result (false, result)

hand_over-Listed : (result names : List Bytes) → Listed names result (hand_over true result names)
hand_over-Listed result [] = nothing refl
hand_over-Listed result (x ∷ xs) = found (λ p. cc) (sort-IsSorted (x ∷ xs)) (sort-perm (x ∷ xs))

-- For a directory that can be opened a sorted listing gives the sorted names of exactly the wanted
-- entries, or false and the former result if there are none.
pub enum_items-Listed :
    (sys : System) (path ext : Bytes) (d_type : FileType) (result : List Bytes) {es : List Dirent}
    → sys.dir path ≡ some es
    → (names : List Bytes) × Names ext d_type es names
      × Listed names result (enum_items sys path ext d_type result true)
unfolding enum_items
enum_items-Listed sys path ext d_type result {es} e = (
  keep ext d_type es,
  keep-Names ext d_type es,
  rw e (hand_over-Listed result (keep ext d_type es)),
)
