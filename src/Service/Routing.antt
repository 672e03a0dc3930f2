-- ===== src/Service/Routing.antt =====
-- What `allocate` of src/httpservice.cpp finds.
use simurga.Base.{
  ℕ, suc, ◌≡◌, ◌≢◌, refl, Bool, true, false, Option, none, some, [], ◌∷◌, ◌++◌, if◌then◌else◌,
  Bytes, All,
}
use mathlib.Core.Option
use simurga.Dict.{lookup}
use simurga.Service.Object.{create, set_path}
use simurga.Service.Routes.{
  Route, ObjectTable, is_forbidden, is_slash, is_sane, with_id, by_id, second_case, first_case,
  allocate,
}
use simurga.Service.{Environment, HttpObject}
use simurga.Text.{find_first_if, find_last_if}

-- An id that may be handed to an object.
pub record IsSafe (id : Bytes) : Type 0 where
  pub named : id ≢ []
  pub clean : All (λ c. is_forbidden c ≡ false) id

find_first-none : (p : ℕ → Bool) (s : Bytes) → find_first_if p s ≡ none → All (λ c. p c ≡ false) s
unfolding find_first_if
find_first-none p [] h = tt
find_first-none p (c ∷ s) h =
    let (e, rest) = passed (p c) (find_first_if p s) h in (e, find_first-none p s rest)
  where
    passed :
        (b : Bool) (o : Option ℕ)
        → (if b then some 0 else Option.map suc o) ≡ none
        → (b ≡ false) × (o ≡ none)
    passed true o x = cc
    passed false none x = (refl, refl)
    passed false (some i) x = cc

if-some {ℓ} :
    {A : Type ℓ} (b : Bool) {x : Option A} {a : A}
    → (if b then x else none) ≡ some a
    → (b ≡ true) × (x ≡ some a)
if-some true h = (refl, h)
if-some false h = cc

is_sane-none : (o : Option ℕ) (id : Bytes) → is_sane o id ≡ true → (o ≡ none) × (id ≢ [])
is_sane-none none [] h = cc
is_sane-none none (c ∷ s) h = (refl, λ p. cc)
is_sane-none (some i) id h = cc

pub is_sane-IsSafe : (id : Bytes) → is_sane (find_first_if is_forbidden id) id ≡ true → IsSafe id
is_sane-IsSafe id h =
    let (e, ne) = is_sane-none (find_first_if is_forbidden id) id h in
    record { named = ne; clean = find_first-none is_forbidden id e }

-- What a successful `allocate` stands for, by the route it took.
pub data Found (table : ObjectTable) (env : Environment) (given : Bytes)
    : HttpObject → Bytes → Type 0 where
  whole :
      {o : HttpObject} (path : Bytes) (r : Route)
      → lookup path table ≡ some r
      → o ≡ set_path path (create r.allocator env)
      → Found table env given o given
  with_last :
      {o : HttpObject} {id : Bytes} (path : Bytes) (r : Route)
      → lookup path table ≡ some r
      → r.accepts_id ≡ true
      → IsSafe id
      → o ≡ set_path (path ++ (b'/' ∷ id)) (create r.allocator env)
      → Found table env given o id

module _ (decode : Bytes → Bytes) (table : ObjectTable) (env : Environment) where
  with_id-Found :
      (q : Option Route) (given path id : Bytes) {o : HttpObject}
      → lookup path table ≡ q
      → IsSafe id
      → with_id decode table env q path id ≡ some o
      → Found table env given o id
  with_id-Found none given path id e s h = cc
  with_id-Found (some r) given path id e s h =
      let (a, made) = if-some r.accepts_id h in with_last path r e a s cc

  by_id-Found :
      (given path id : Bytes) {o : HttpObject}
      → (by_id decode table env path id).0 ≡ some o
      → Found table env given o id
  by_id-Found given path id h =
      let (sane, made) = if-some (is_sane (find_first_if is_forbidden id) id) h in
      with_id-Found _ given path id refl (is_sane-IsSafe id sane) made

  second_case-Found :
      (q : Option ℕ) (path given : Bytes) {o : HttpObject}
      → (second_case decode table env q path given).0 ≡ some o
      → Found table env given o (second_case decode table env q path given).1
  second_case-Found none path given h = cc
  second_case-Found (some pos) path given h = by_id-Found given _ _ h

  first_case-Found :
      (q : Option Route) (path given : Bytes) {o : HttpObject}
      → lookup (decode path) table ≡ q
      → (first_case decode table env q path given).0 ≡ some o
      → Found table env given o (first_case decode table env q path given).1
  first_case-Found none path given e h = second_case-Found (find_last_if is_slash path) path given h
  first_case-Found (some r) path given e h = whole (decode path) r e cc

  -- An object that `allocate` returns is of the class registered for its path. Either the whole path
  -- is registered and the caller's id is untouched, or the class accepts ids, and the id is not
  -- empty and has none of the characters \ / | . & #.
  pub allocate-Found :
      (given : Bytes) {o : HttpObject}
      → (allocate decode table env given).0 ≡ some o
      → Found table env given o (allocate decode table env given).1
  unfolding allocate
  allocate-Found given h = first_case-Found _ _ given refl h
