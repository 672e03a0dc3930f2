-- ===== src/Service/Routes.antt =====
-- `HttpObjectList` of src/httpservice.cpp. The decoding of percent escapes is the FastCGI library's,
-- and so a parameter.
use simurga.Base.{
  ℕ, ◌+◌, ◌||◌, Bool, true, false, Option, none, some, [], ◌∷◌, ◌++◌, ◌==◌, if◌then◌else◌, take,
  drop, Bytes, codes,
}
use simurga.Dict.{Dict, lookup, insert}
use simurga.Service.Object.{create, set_path}
use simurga.Service.{Environment, Kind, static_page, lookbook, collection, model, HttpObject}
use simurga.Text.{find, find_first_if, find_last_if}

-- struct Item; the allocator is named by the class that it makes.
pub record Route : Type 0 where
  pub accepts_id : Bool
  pub allocator : Kind

abbrev pub ObjectTable : Type 0
ObjectTable = Dict Route

unfoldable pub add : Bytes → Bool → Kind → ObjectTable → ObjectTable
unfolding insert
add path accepts_id allocator table =
    insert path (record { accepts_id = accepts_id; allocator = allocator }) table

-- add<T>
abbrev pub add_class : Bytes → Bool → Kind → ObjectTable → ObjectTable
add_class path accepts_id t table = add path accepts_id t table

-- add_standard_objects
unfoldable pub add_standard_objects : ObjectTable → ObjectTable
unfolding add
add_standard_objects table = add_class (codes "/model") true model (
    add_class (codes "/collection") false collection (
      add_class [] false lookbook (
        add_class (codes "/lookbook") false lookbook (
          add_class (codes "/howtobuy") false static_page (
            add_class (codes "/contacts") false static_page
              (add_class (codes "/phylosophy") false static_page table))))))

-- HttpObjectList::HttpObjectList, on the table of a new object
unfoldable pub standard_objects : ObjectTable
unfolding add_standard_objects
standard_objects = add_standard_objects []

-- "\\/|.&#"
abbrev pub is_forbidden : ℕ → Bool
is_forbidden c = c == b'\\' || c == b'/' || c == b'|' || c == b'.' || c == b'&' || c == b'#'

abbrev pub cut : Option ℕ → Bytes → Bytes
cut none s = s
cut (some pos) s = take pos s

unfoldable pub strip_slash : Bytes → Bytes
strip_slash [] = []
strip_slash (c ∷ []) = if c == b'/' then [] else c ∷ []
strip_slash (c ∷ d ∷ s) = c ∷ strip_slash (d ∷ s)

-- The request URI with no query parameters and no slash at its end.
unfoldable pub request_path : Bytes → Bytes
unfolding strip_slash
request_path uri = strip_slash (cut (find (b'?' ∷ []) uri) uri)

abbrev pub is_slash : ℕ → Bool
is_slash c = c == b'/'

-- "sanity check"
abbrev pub is_sane : Option ℕ → Bytes → Bool
is_sane (some i) id = false
is_sane none [] = false
is_sane none (c ∷ s) = true

module _ (decode : Bytes → Bytes) (table : ObjectTable) (env : Environment) where
  abbrev pub object_at : Kind → Bytes → HttpObject
  object_at kind path = set_path path (create kind env)

  -- The last step: a class that accepts ids.
  abbrev pub with_id : Option Route → Bytes → Bytes → Option HttpObject
  with_id none path id = none
  with_id (some r) path id =
      if r.accepts_id then some (object_at r.allocator (path ++ (b'/' ∷ id))) else none

  abbrev pub by_id : Bytes → Bytes → Option HttpObject × Bytes
  by_id path id = (
    if is_sane (find_first_if is_forbidden id) id
        then with_id (lookup path table) path id
        else none,
    id,
  )

  -- "2nd case": the last part of the path is the id.
  abbrev pub second_case : Option ℕ → Bytes → Bytes → Option HttpObject × Bytes
  second_case none path id = (none, id)
  second_case (some pos) path id = by_id (decode (take pos path)) (decode (drop (pos + 1) path))

  abbrev pub first_case : Option Route → Bytes → Bytes → Option HttpObject × Bytes
  first_case (some r) path id = (some (object_at r.allocator (decode path)), id)
  first_case none path id = second_case (find_last_if is_slash path) path id

  abbrev pub allocate_path : Bytes → Bytes → Option HttpObject × Bytes
  allocate_path path id = first_case (lookup (decode path) table) path id

  -- allocate; `id` is the caller's string, which the call may overwrite.
  unfoldable pub allocate : Bytes → Option HttpObject × Bytes
  unfolding request_path
  allocate id = allocate_path (request_path env.request_uri) id
