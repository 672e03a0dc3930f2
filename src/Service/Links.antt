-- ===== src/Service/Links.antt =====
-- The links of the collection page: `allocate` of src/httpservice.cpp on the URI of a model.
use simurga.Base.{
  All-append, All-map, ℕ, ◌≤◌, ◌≡◌, refl, sym, ap, ◌∙◌, Bool, true, false, ◌||◌, none, some, [],
  ◌∷◌, ◌++◌, ◌==◌, Bytes, codes, All, arith, ok,
}
use simurga.Dict.{lookup}
use simurga.Pages.Ids.{is_plain, IsColor, id_of, find-All, parse_id-id_of}
use simurga.Pages.Model.{parse_id}
use simurga.Service.Object.{create, set_path}
use simurga.Service.Routes.{
  standard_objects, strip_slash, request_path, is_slash, is_forbidden, allocate_path, allocate,
}
use simurga.Service.{Environment, HttpObject, model}
use simurga.Text.Decimal.{u32_max, to_string, is_digit}
use simurga.Text.Decimals.{to_string-cons, to_string-All}
use simurga.Text.{find, find_first_if, find_last_if, equal}

-- A character of a path that has nothing to be decoded.
abbrev pub is_kept : ℕ → Bool
is_kept c = is_plain c || c == b'/'

-- The URI of a model's page.
abbrev pub model_uri : Bytes → Bytes
model_uri id = codes "/model" ++ (b'/' ∷ id)

abbrev pub IsPlain : Bytes → Type 0
IsPlain = All (λ c. is_plain c ≡ true)

not_slash : (c : ℕ) → is_plain c ≡ true → is_slash c ≡ false
not_slash c h = ground arith

not_query : (c : ℕ) → is_plain c ≡ true → (b'?' == c) ≡ false
not_query c h = ground arith

not_forbidden : (c : ℕ) → is_plain c ≡ true → is_forbidden c ≡ false
not_forbidden c h = ground arith

kept : (c : ℕ) → is_plain c ≡ true → is_kept c ≡ true
kept c h = ground arith

find_last-All : (p : ℕ → Bool) (s : Bytes) → All (λ c. p c ≡ false) s → find_last_if p s ≡ none
unfolding find_last_if
find_last-All p [] h = refl
find_last-All p (c ∷ s) h = rw (find_last-All p s h.1, h.0)

find_first-All : (p : ℕ → Bool) (s : Bytes) → All (λ c. p c ≡ false) s → find_first_if p s ≡ none
unfolding find_first_if
find_first-All p [] h = refl
find_first-All p (c ∷ s) h = rw (h.0, find_first-All p s h.1)

strip_slash-All : (s : Bytes) → All (λ c. is_slash c ≡ false) s → strip_slash s ≡ s
unfolding strip_slash
strip_slash-All [] h = refl
strip_slash-All (c ∷ []) h = rw h.0
strip_slash-All (c ∷ d ∷ s) h = ap (◌∷◌ c) (strip_slash-All (d ∷ s) h.1)

strip_slash-model_uri :
    (c : ℕ) (s : Bytes)
    → All (λ c. is_slash c ≡ false) (c ∷ s)
    → strip_slash (model_uri (c ∷ s)) ≡ model_uri (c ∷ s)
unfolding strip_slash
strip_slash-model_uri c s h = ap model_uri (strip_slash-All (c ∷ s) h)

find-model_uri : (id : Bytes) → find (b'?' ∷ []) id ≡ none → find (b'?' ∷ []) (model_uri id) ≡ none
unfolding find
find-model_uri id e = rw e

request_path-model_uri :
    (c : ℕ) (s : Bytes)
    → All (λ c. is_plain c ≡ true) (c ∷ s)
    → request_path (model_uri (c ∷ s)) ≡ model_uri (c ∷ s)
unfolding request_path
request_path-model_uri c s h =
    let e = find-model_uri (c ∷ s) (find-All b'?' (c ∷ s) (All-map (c ∷ s) not_query h)) in
    rw e (strip_slash-model_uri c s (All-map (c ∷ s) not_slash h))

find_last-model_uri :
    (id : Bytes) → find_last_if is_slash id ≡ none → find_last_if is_slash (model_uri id) ≡ some 6
unfolding find_last_if
find_last-model_uri id e = rw e

lookup-model_uri : (id : Bytes) → lookup (model_uri id) standard_objects ≡ none
unfolding standard_objects lookup equal
lookup-model_uri id = refl

id_of-IsPlain : (n : ℕ) (color : Bytes) → IsColor color → IsPlain (id_of n color)
id_of-IsPlain n color h =
    All-append _ (to_string n) (b'-' ∷ color) (All-map (to_string n) digit (to_string-All n))
      (refl, h.plain)
  where
    digit : (c : ℕ) → is_digit c ≡ true → is_plain c ≡ true
    digit c e = ground arith

-- The percent decoding leaves a text with no '%' and no '+' alone, in particular one of such
-- characters.
module _ (decode : Bytes → Bytes)
    (keeps : (s : Bytes) → All (λ c. is_kept c ≡ true) s → decode s ≡ s) (env : Environment) where
  decode-IsPlain : (s : Bytes) → IsPlain s → decode s ≡ s
  decode-IsPlain s h = keeps s (All-map s kept h)

  -- The object of a model's page.
  abbrev pub model_object : Bytes → HttpObject
  model_object id = set_path (model_uri id) (create model env)

  allocate_path-model_uri :
      (c : ℕ) (s : Bytes)
      → IsPlain (c ∷ s)
      → allocate_path decode standard_objects env (model_uri (c ∷ s)) []
        ≡ (some (model_object (c ∷ s)), c ∷ s)
  unfolding standard_objects lookup equal
  allocate_path-model_uri c s h =
      let uri =
        keeps (model_uri (c ∷ s))
          (refl, (refl, (refl, (refl, (refl, (refl, (refl, All-map (c ∷ s) kept h))))))) in
      let last =
        find_last-model_uri (c ∷ s)
          (find_last-All is_slash (c ∷ s) (All-map (c ∷ s) not_slash h)) in
      let first = find_first-All is_forbidden (c ∷ s) (All-map (c ∷ s) not_forbidden h) in
      let dir = keeps (codes "/model") (refl, (refl, (refl, (refl, (refl, (refl, tt)))))) in
      let id = decode-IsPlain (c ∷ s) h in rw uri (rw last (rw (dir, id) (rw first refl)))

  allocate-model_uri :
      (id : Bytes) (c : ℕ) (s : Bytes)
      → id ≡ c ∷ s
      → IsPlain id
      → env.request_uri ≡ model_uri id
      → allocate decode standard_objects env [] ≡ (some (model_object id), id)
  unfolding allocate
  allocate-model_uri id c s e h u =
      let plain : IsPlain (c ∷ s) = rw e at h in
      ap (λ p. allocate_path decode standard_objects env (request_path p) []) (u ∙ ap model_uri e)
      ∙ ap (λ p. allocate_path decode standard_objects env p []) (request_path-model_uri c s plain)
      ∙ allocate_path-model_uri c s plain
      ∙ ap (λ i. (some (model_object i), i)) (sym e)

  -- The URI "/model/N-COLOR" of a number of 32 bits and a colour's name is routed to the model page with
  -- this id, which `parse_id` reads as that number and that name, if the percent decoding leaves
  -- letters, digits, '-', '_' and '/' alone.
  pub allocate-id_of :
      (n : ℕ) (color : Bytes)
      → n ≤ u32_max
      → IsColor color
      → env.request_uri ≡ model_uri (id_of n color)
      → (allocate decode standard_objects env []
          ≡ (some (model_object (id_of n color)), id_of n color))
        × (parse_id (id_of n color) ≡ ok (n, color))
  allocate-id_of n color h col u =
      let (c, s, e, lo, hi) = to_string-cons n in
      let front : id_of n color ≡ c ∷ (s ++ (b'-' ∷ color)) = ap (λ d. d ++ (b'-' ∷ color)) e in
      (
        allocate-model_uri (id_of n color) c (s ++ (b'-' ∷ color)) front (id_of-IsPlain n color col)
            u,
        parse_id-id_of n color h col,
      )
