-- ===== src/Daemon/Reads.antt =====
-- The files that the program reads for a request, whatever its URI (src/main.cpp and
-- src/httpservice.cpp).
use mathlib.Core.Path.{subst}
use simurga.Base.{
  ◌≡◌, ◌≢◌, refl, sym, ap, Bool, true, false, some, [], ◌∷◌, All, Bytes, if◌then◌else◌,
}
use simurga.Daemon.Worlds.{serve-worlds}
use simurga.Daemon.{serve}
use simurga.Dict.{Dict, lookup}
use simurga.Files.{System}
use simurga.Pages.Reads.{IsPageName, phylosophy, contacts, howtobuy, SameSite, on, get-on}
use simurga.Pages.World.{World}
use simurga.Service.Object.{create, set_path, http_object}
use simurga.Service.Routes.{Route, standard_objects}
use simurga.Service.Routing.{Found, whole, with_last, allocate-Found}
use simurga.Service.{Environment, Kind, static_page, lookbook, collection, model, HttpObject}
use simurga.Text.{equal, equal_iff, find}

-- The routes: a static page stands for its whole path, which is its name.
data IsRoute : Bytes × Route → Type 0 where
  page :
      {n : Bytes}
      → IsPageName n
      → IsRoute (b'/' ∷ n, record { accepts_id = false; allocator = static_page })
  other : {path : Bytes} {r : Route} → r.allocator ≢ static_page → IsRoute (path, r)

lookup-All :
    {V : Type 0} (P : Bytes × V → Type 0) (m : Dict V) (k : Bytes) (v : V)
    → All P m
    → lookup k m ≡ some v
    → P (k, v)
unfolding lookup
lookup-All P [] k v h e = cc
lookup-All P ((j, u) ∷ m) k v (p, h) e =
    by_key (equal j k) ((equal_iff j k).0) e (lookup-All P m k v h)
  where
    by_key :
        (b : Bool)
        → (b ≡ true → j ≡ k)
        → (if b then some u else lookup k m) ≡ some v
        → (lookup k m ≡ some v → P (k, v))
        → P (k, v)
    by_key true q x rest = let y : u ≡ v = cc in subst P (λ i. (q refl i, y i)) p
    by_key false q x rest = rest x

standard_objects-IsRoute : All IsRoute standard_objects
unfolding standard_objects equal
standard_objects-IsRoute = (
  page phylosophy,
  (
    page contacts,
    (page howtobuy, (other (λ e. cc), (other (λ e. cc), (other (λ e. cc), (other (λ e. cc), tt))))),
  ),
)

-- An object of the request, which is a static page of one of the three names, or another class.
record IsConfined (env : Environment) (o : HttpObject) : Type 0 where
  its_env : o.env ≡ env
  named : o.kind ≡ static_page → IsPageName o.name

module _ (env : Environment) where
  other-IsConfined :
      (k : Kind) (path : Bytes) → k ≢ static_page → IsConfined env (set_path path (create k env))
  unfolding create set_path http_object
  other-IsConfined static_page path h = absurd (h refl)
  other-IsConfined lookbook path h = record { its_env = refl; named = λ e. cc }
  other-IsConfined collection path h = record { its_env = refl; named = λ e. cc }
  other-IsConfined model path h = record { its_env = refl; named = λ e. cc }

  page-IsConfined :
      {n : Bytes} → IsPageName n → IsConfined env (set_path (b'/' ∷ n) (create static_page env))
  unfolding create set_path http_object find
  page-IsConfined phylosophy = record { its_env = refl; named = λ e. phylosophy }
  page-IsConfined contacts = record { its_env = refl; named = λ e. contacts }
  page-IsConfined howtobuy = record { its_env = refl; named = λ e. howtobuy }

  whole-IsConfined :
      (path : Bytes) (r : Route)
      → IsRoute (path, r)
      → IsConfined env (set_path path (create r.allocator env))
  whole-IsConfined path r (page n) = page-IsConfined n
  whole-IsConfined path r (other h) = other-IsConfined r.allocator path h

  with_id-IsConfined :
      (path : Bytes) (r : Route) (id : Bytes)
      → IsRoute (path, r)
      → r.accepts_id ≡ true
      → IsConfined env (set_path id (create r.allocator env))
  with_id-IsConfined path r id (page n) h = cc
  with_id-IsConfined path r id (other h) a = other-IsConfined r.allocator id h

  Found-IsConfined :
      {given : Bytes} {o : HttpObject} {id : Bytes}
      → Found standard_objects env given o id
      → IsConfined env o
  Found-IsConfined (whole path r l e) = subst (IsConfined env) (sym e) (
      whole-IsConfined path r
        (lookup-All IsRoute standard_objects path r standard_objects-IsRoute l))
  Found-IsConfined (with_last path r l a s e) = subst (IsConfined env) (sym e) (
      with_id-IsConfined path r _
        (lookup-All IsRoute standard_objects path r standard_objects-IsRoute l) a)

module _ (w : World) (s t : System) where
  -- What is sent and logged for a request, whatever its method and its URI, depends on the files of the
  -- site only: the pages of the three static pages with their configurations, the list of images and the
  -- configuration of the lookbook, the configuration of the collection and that of the database. Two
  -- file systems that differ elsewhere give the same answer.
  pub serve-SameSite :
      (decode : Bytes → Bytes) (env : Environment)
      → SameSite env.root w.data_dir s t
      → serve decode standard_objects (on w s) env ≡ serve decode standard_objects (on w t) env
  serve-SameSite decode env f = serve-worlds (on w s) (on w t) decode standard_objects env λ o id e.
      let c =
        Found-IsConfined env (allocate-Found decode standard_objects env [] (ap (λ r. r.0) e)) in
      get-on w s t o.kind id o
        (subst (λ (e : Environment). SameSite e.root w.data_dir s t) (sym c.its_env) f) c.named
