-- ===== src/Pages/Statuses.antt =====
-- The status of what the `get` handlers of src/staticpage.cpp, src/lookbook.cpp, src/collection.cpp and
-- src/model.cpp end with, when the templates of the site are loaded.
use simurga.Base.{
  ℕ, ◌≡◌, refl, sym, ◌∙◌, Option, none, some, List, [], ◌∷◌, Bytes, codes, Result, ok, raise,
  Exception, not_found,
}
use simurga.Pages.Failures.{
  AreLoaded, ModelFails, bad_id, no_rows, no_model, page_file, collection_result, model_result,
  parameters, get-raise_iff,
}
use simurga.Pages.Handlers.{get}
use simurga.Pages.Model.{parse_id}
use simurga.Pages.World.{World, ModelView, CollectionView}
use simurga.Service.{
  Kind, static_page, lookbook, collection, model, HttpObject, status_of, object_not_found,
}

abbrev pub fine : Bytes
fine = codes "200 OK"

abbrev pub missing : Bytes
missing = codes "404 Not Found"

-- The status by what a statement has ended with.
abbrev pub status_by : {A : Type 0} → Bytes → Result (List A) → Bytes
status_by empty (ok []) = empty
status_by empty (ok (x ∷ xs)) = fine
status_by empty (raise e) = status_of e

abbrev pub model_status : World → Result (ℕ × Bytes) → Bytes
model_status w (ok p) = status_by missing (model_result w (parameters p))
model_status w (raise e) = status_of e

abbrev pub file_status : Option Bytes → Bytes
file_status none = missing
file_status (some content) = fine

-- A page needs its file, its statement's rows, or its model; the lookbook needs nothing.
abbrev pub page_status : World → Bytes → Kind → Bytes → Bytes
page_status w id static_page file = file_status (w.sys.file file)
page_status w id lookbook file = fine
page_status w id collection file = status_by fine (collection_result w)
page_status w id model file = model_status w (parse_id id)

-- The status that a handler's result stands for.
abbrev pub result_status : Result (Unit {0}) → Bytes
result_status (ok u) = fine
result_status (raise e) = status_of e

not_raised : (r : Result (Unit {0})) → ((e : Exception) → r ≡ raise e → ⊥) → result_status r ≡ fine
not_raised (ok u) h = refl
not_raised (raise e) h = absurd (h e refl)

is_raised : (r : Result (Unit {0})) (e : Exception) → r ≡ raise e → result_status r ≡ status_of e
is_raised r e h = rw h refl

both : {A : Type 0} {r : Result A} {a : A} {e : Exception} → r ≡ ok a → r ≡ raise e → ⊥
both h k = cc

filled : {A : Type 0} {x : A} {xs : List A} → ok (x ∷ xs) ≡ ok [] → ⊥
filled h = cc

shown :
    {w : World} {id : Bytes} (p : ℕ × Bytes) {m : ModelView} {ms : List ModelView} {e : Exception}
    → parse_id id ≡ ok p
    → model_result w (parameters p) ≡ ok (m ∷ ms)
    → ModelFails w id e
    → ⊥
shown p a b (bad_id x) = both a x
shown p a b (no_rows {p = q} x y) = let same : p ≡ q = cc in both b (rw (← same) at y)
shown p a b (no_model {p = q} x y) = let same : p ≡ q = cc in filled (sym b ∙ rw same y)

module _ (w : World) (loaded : AreLoaded w) (o : HttpObject) (id : Bytes) where
  file-status :
      (c : Option Bytes)
      → w.sys.file (page_file o) ≡ c
      → result_status (get w static_page id o).0 ≡ file_status c
  unfolding status_of
  file-status none e = is_raised _ _ (
      (get-raise_iff w loaded static_page id o (not_found (codes "Index page not found"))).1
        (e, refl))
  file-status (some c) e =
      not_raised _ (λ f h. no_file ((get-raise_iff w loaded static_page id o f).0 h).0)
    where
      no_file : w.sys.file (page_file o) ≡ none → ⊥
      no_file h = cc

  rows-status :
      (r : Result (List CollectionView))
      → collection_result w ≡ r
      → result_status (get w collection id o).0 ≡ status_by fine r
  rows-status (raise f) e = is_raised _ f ((get-raise_iff w loaded collection id o f).1 e)
  rows-status (ok []) e =
      not_raised _ (λ f h. both e ((get-raise_iff w loaded collection id o f).0 h))
  rows-status (ok (x ∷ xs)) e =
      not_raised _ (λ f h. both e ((get-raise_iff w loaded collection id o f).0 h))

  models-status :
      (p : ℕ × Bytes) (r : Result (List ModelView))
      → parse_id id ≡ ok p
      → model_result w (parameters p) ≡ r
      → result_status (get w model id o).0 ≡ status_by missing r
  unfolding status_of
  models-status p (raise f) a e =
      is_raised _ f ((get-raise_iff w loaded model id o f).1 (no_rows a e))
  models-status p (ok []) a e =
      is_raised _ _ ((get-raise_iff w loaded model id o object_not_found).1 (no_model a e))
  models-status p (ok (m ∷ ms)) a e =
      not_raised _ (λ f h. shown p a e ((get-raise_iff w loaded model id o f).0 h))

  id-status :
      (r : Result (ℕ × Bytes))
      → parse_id id ≡ r
      → result_status (get w model id o).0 ≡ model_status w r
  id-status (ok p) a = models-status p (model_result w (parameters p)) a refl
  id-status (raise f) a = is_raised _ f ((get-raise_iff w loaded model id o f).1 (bad_id a))

  -- The status of a page is that of what the handler's result stands for.
  pub get-status : (k : Kind) → result_status (get w k id o).0 ≡ page_status w id k (page_file o)
  get-status static_page = file-status (w.sys.file (page_file o)) refl
  get-status lookbook = not_raised _ (λ f h. (get-raise_iff w loaded lookbook id o f).0 h)
  get-status collection = rows-status (collection_result w) refl
  get-status model = id-status (parse_id id) refl
