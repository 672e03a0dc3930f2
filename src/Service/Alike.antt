-- ===== src/Service/Alike.antt =====
-- What `allocate` of src/httpservice.cpp gives for requests that differ in their method or their URI.
use mathlib.Core.Path.{subst}
use simurga.Base.{
  ◌≡◌, Bool, true, false, if◌then◌else◌, ℕ, ◌+◌, take, drop, Option, none, some, ◌∷◌, ◌++◌, Bytes,
}
use simurga.Dict.{lookup}
use simurga.Service.Methods.{with_line}
use simurga.Service.Object.{create, set_path}
use simurga.Service.Routes.{
  Route, ObjectTable, request_path, is_slash, is_forbidden, is_sane, object_at, with_id,
  second_case, first_case, allocate,
}
use simurga.Service.{
  Environment, HttpObject, RequestMethod, Kind, static_page, lookbook, collection, model,
}
use simurga.Text.{find_first_if, find_last_if}

-- The same request with another method and another URI.
abbrev pub as_line : RequestMethod → Bytes → Environment → Environment
as_line m u env = record env { request_method = m; request_uri = u }

-- Two ends of `allocate`: nothing, or one object, the method and the URI apart.
pub data Pair (m : RequestMethod) (u : Bytes) (n : RequestMethod) (v : Bytes)
    : Option HttpObject × Bytes → Option HttpObject × Bytes → Type 0 where
  nothing : (id : Bytes) → Pair m u n v (none, id) (none, id)
  object :
      (o : HttpObject) (id : Bytes)
      → Pair m u n v (some (with_line m u o), id) (some (with_line n v o), id)

module _ (decode : Bytes → Bytes) (table : ObjectTable) (env : Environment) (m : RequestMethod)
    (u : Bytes) (n : RequestMethod) (v : Bytes) where
  object_at-Pair :
      (k : Kind) (path id : Bytes)
      → Pair m u n v
          (some (object_at decode table (as_line m u env) k path), id)
          (some (object_at decode table (as_line n v env) k path), id)
  unfolding create set_path
  object_at-Pair static_page path id = object (object_at decode table env static_page path) id
  object_at-Pair lookbook path id = object (object_at decode table env lookbook path) id
  object_at-Pair collection path id = object (object_at decode table env collection path) id
  object_at-Pair model path id = object (object_at decode table env model path) id

  if-Pair :
      (b : Bool) (id : Bytes) {x y : Option HttpObject}
      → Pair m u n v (x, id) (y, id)
      → Pair m u n v ((if b then x else none), id) ((if b then y else none), id)
  if-Pair true id p = p
  if-Pair false id p = nothing id

  with_id-Pair :
      (r : Option Route) (path id : Bytes)
      → Pair m u n v
          (with_id decode table (as_line m u env) r path id, id)
          (with_id decode table (as_line n v env) r path id, id)
  with_id-Pair none path id = nothing id
  with_id-Pair (some r) path id =
      if-Pair r.accepts_id id (object_at-Pair r.allocator (path ++ (b'/' ∷ id)) id)

  second_case-Pair :
      (q : Option ℕ) (path id : Bytes)
      → Pair m u n v
          (second_case decode table (as_line m u env) q path id)
          (second_case decode table (as_line n v env) q path id)
  second_case-Pair none path id = nothing id
  second_case-Pair (some pos) path id =
      let dir = decode (take pos path) in
      let last = decode (drop (pos + 1) path) in
      if-Pair (is_sane (find_first_if is_forbidden last) last) last
        (with_id-Pair (lookup dir table) dir last)

  first_case-Pair :
      (q : Option Route) (path id : Bytes)
      → Pair m u n v
          (first_case decode table (as_line m u env) q path id)
          (first_case decode table (as_line n v env) q path id)
  first_case-Pair (some r) path id = object_at-Pair r.allocator (decode path) id
  first_case-Pair none path id = second_case-Pair (find_last_if is_slash path) path id

  -- One object for two requests whose URIs have one path.
  pub allocate-Pair :
      (id : Bytes)
      → request_path u ≡ request_path v
      → Pair m u n v
          (allocate decode table (as_line m u env) id)
          (allocate decode table (as_line n v env) id)
  unfolding allocate
  allocate-Pair id h =
      subst
        (λ p.
          Pair m u n v
            (first_case decode table (as_line m u env) (lookup (decode (request_path u)) table)
              (request_path u) id)
            (first_case decode table (as_line n v env) (lookup (decode p) table) p id))
        h (first_case-Pair _ (request_path u) id)
