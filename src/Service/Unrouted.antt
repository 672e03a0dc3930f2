-- ===== src/Service/Unrouted.antt =====
-- The paths for which `allocate` of src/httpservice.cpp has no object.
use simurga.Base.{
  ℕ, ◌+◌, ◌≡◌, ◌≢◌, ◌↔◌, refl, ap, ◌∙◌, inl, inr, Bool, true, false, Bool-cases, Option, none, some,
  [], ◌∷◌, if◌then◌else◌, take, drop, Bytes, All,
}
use simurga.Dict.{lookup}
use simurga.Service.Routes.{
  Route, ObjectTable, is_forbidden, request_path, is_slash, is_sane, with_id, by_id, second_case,
  first_case, allocate_path, allocate,
}
use simurga.Service.Routing.{IsSafe, is_sane-IsSafe}
use simurga.Service.{Environment, HttpObject}
use simurga.Text.{find_first_if, find_last_if}

-- Why a path has no object: it is not registered, and its last part is no id for a class in front of it.
pub data Unrouted (decode : Bytes → Bytes) (table : ObjectTable) (path : Bytes) : Type 0 where
  no_id :
      lookup (decode path) table ≡ none
      → find_last_if is_slash path ≡ none
      → Unrouted decode table path
  unsafe_id :
      (pos : ℕ)
      → lookup (decode path) table ≡ none
      → find_last_if is_slash path ≡ some pos
      → ¬ IsSafe (decode (drop (pos + 1) path))
      → Unrouted decode table path
  no_class :
      (pos : ℕ)
      → lookup (decode path) table ≡ none
      → find_last_if is_slash path ≡ some pos
      → lookup (decode (take pos path)) table ≡ none
      → Unrouted decode table path
  takes_no_id :
      (pos : ℕ) (r : Route)
      → lookup (decode path) table ≡ none
      → find_last_if is_slash path ≡ some pos
      → lookup (decode (take pos path)) table ≡ some r
      → r.accepts_id ≡ false
      → Unrouted decode table path

find_first-All : (p : ℕ → Bool) (s : Bytes) → All (λ c. p c ≡ false) s → find_first_if p s ≡ none
unfolding find_first_if
find_first-All p [] h = refl
find_first-All p (c ∷ s) (e, h) = rw (e, find_first-All p s h) refl

IsSafe-is_sane : (id : Bytes) → IsSafe id → is_sane (find_first_if is_forbidden id) id ≡ true
IsSafe-is_sane [] h = absurd (h.named refl)
IsSafe-is_sane (c ∷ s) h = ap (λ o. is_sane o (c ∷ s)) (find_first-All is_forbidden (c ∷ s) h.clean)

module _ (decode : Bytes → Bytes) (table : ObjectTable) (env : Environment) where
  with_id-some :
      (r : Route) (path id : Bytes)
      → r.accepts_id ≡ true
      → with_id decode table env (some r) path id ≢ none
  with_id-some r path id a h = cc (rw a at h)

  by_class :
      (path : Bytes) (pos : ℕ) (q : Option Route) (dir id : Bytes)
      → lookup (decode path) table ≡ none
      → find_last_if is_slash path ≡ some pos
      → lookup (decode (take pos path)) table ≡ q
      → with_id decode table env q dir id ≡ none
      → Unrouted decode table path
  by_class path pos none dir id e f l h = no_class pos e f l
  by_class path pos (some r) dir id e f l h = elim (Bool-cases r.accepts_id) [
    | inl a ↦
        let k : with_id decode table env (some r) dir id ≡ none = h in
        absurd (with_id-some r dir id a k)
    | inr a ↦ takes_no_id pos r e f l a
  ]

  by_last :
      (path : Bytes) (q : Option ℕ) (given : Bytes)
      → lookup (decode path) table ≡ none
      → find_last_if is_slash path ≡ q
      → (second_case decode table env q path given).0 ≡ none
      → Unrouted decode table path
  by_last path none given e f h = no_id e f
  by_last path (some pos) given e f h =
      let dir = decode (take pos path) in
      let id = decode (drop (pos + 1) path) in
      elim (Bool-cases (is_sane (find_first_if is_forbidden id) id)) [
        | inl sane ↦ by_class path pos (lookup dir table) dir id e f refl (rw sane at h)
        | inr not_sane ↦ unsafe_id pos e f λ s. cc (not_sane, IsSafe-is_sane id s)
      ]

  by_path :
      (path : Bytes) (q : Option Route) (given : Bytes)
      → lookup (decode path) table ≡ q
      → (first_case decode table env q path given).0 ≡ none
      → Unrouted decode table path
  by_path path none given e h = by_last path (find_last_if is_slash path) given e refl h
  by_path path (some r) given e h = cc

  with_id-refused :
      (r : Route) (path id : Bytes)
      → r.accepts_id ≡ false
      → with_id decode table env (some r) path id ≡ none
  with_id-refused r path id a = rw a refl

  by_id-none :
      (path id : Bytes) (q : Option Route)
      → lookup path table ≡ q
      → with_id decode table env q path id ≡ none
      → (by_id decode table env path id).0 ≡ none
  by_id-none path id q l h = in_either (is_sane (find_first_if is_forbidden id) id)
    where
      in_either :
          (b : Bool)
          → ◌≡◌ {A = Option HttpObject}
              (if b then with_id decode table env (lookup path table) path id else none)
              none
      in_either true = ap (λ c. with_id decode table env c path id) l ∙ h
      in_either false = refl

  by_id-unsafe : (path id : Bytes) → ¬ IsSafe id → (by_id decode table env path id).0 ≡ none
  by_id-unsafe path id s = elim (Bool-cases (is_sane (find_first_if is_forbidden id) id)) [
    | inl sane ↦ absurd (s (is_sane-IsSafe id sane))
    | inr not_sane ↦ rw not_sane refl
  ]

  -- The way to the last part of a path that is not registered.
  to_last :
      (path given : Bytes) (q : Option ℕ)
      → lookup (decode path) table ≡ none
      → find_last_if is_slash path ≡ q
      → (allocate_path decode table env path given).0
        ≡ (second_case decode table env q path given).0
  to_last path given q e f =
      ap (λ r. (first_case decode table env r path given).0) e
      ∙ ap (λ p. (second_case decode table env p path given).0) f

  none_in :
      (path given : Bytes)
      → Unrouted decode table path
      → (allocate_path decode table env path given).0 ≡ none
  none_in path given (no_id e f) = to_last path given none e f
  none_in path given (unsafe_id pos e f s) =
      to_last path given (some pos) e f
      ∙ by_id-unsafe (decode (take pos path)) (decode (drop (pos + 1) path)) s
  none_in path given (no_class pos e f l) =
      to_last path given (some pos) e f
      ∙ by_id-none (decode (take pos path)) (decode (drop (pos + 1) path)) none l refl
  none_in path given (takes_no_id pos r e f l a) =
      to_last path given (some pos) e f
      ∙ by_id-none (decode (take pos path)) (decode (drop (pos + 1) path)) (some r) l
          (with_id-refused r (decode (take pos path)) (decode (drop (pos + 1) path)) a)

  -- A request gets no object if and only if its path has no route: it is not registered, and it has no
  -- slash, or what is behind the last slash is no id, or no class that takes ids is registered for what
  -- is in front of it.
  pub allocate-none_iff :
      (given : Bytes)
      → ((allocate decode table env given).0 ≡ none)
        ↔ Unrouted decode table (request_path env.request_uri)
  unfolding allocate
  allocate-none_iff given = (
    by_path (request_path env.request_uri) _ given refl,
    none_in (request_path env.request_uri) given,
  )
