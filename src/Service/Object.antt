-- ===== src/Service/Object.antt =====
-- The constructor and the shared methods of `HttpObject`, and `set_path` with its override in
-- src/staticpage.cpp.
use simurga.Base.{
  ℕ, Option, none, some, [], ◌∷◌, ◌++◌, ◌==◌, if◌then◌else◌, take, is_empty, Bytes, codes, Result,
  ok, raise, Exception,
}
use simurga.Dict.{Dict}
use simurga.Service.{Environment, Kind, static_page, lookbook, collection, model, HttpObject}
use simurga.Template.Arguments.{ArgumentList, add_argument, add_arguments}
use simurga.Template.Render.{yield}
use simurga.Template.Store.{Templates}
use simurga.Template.Store
use simurga.Text.{find}

-- A method that may raise an exception: the object is changed as far as the code came.
abbrev pub M : Type 0 → Type 0
M A = HttpObject → Result A × HttpObject

unfoldable pub go_on : {A B : Type 0} → Result A × HttpObject → (A → M B) → Result B × HttpObject
go_on (ok a, o) f = f a o
go_on (raise e, o) f = (raise e, o)

infixl 5 ◌>>=◌ ◌>>◌
abbrev pub ◌>>=◌ : {A B : Type 0} → M A → (A → M B) → M B
◌>>=◌ m f o = go_on (m o) f

abbrev pub ◌>>◌ : {B : Type 0} → M (Unit {0}) → M B → M B
m >> k = m >>= λ _. k

abbrev pub lift : {A : Type 0} → Result A → M A
lift r o = (r, o)

abbrev pub throw : {A : Type 0} → Exception → M A
throw e o = (raise e, o)

-- HttpObject(env)
unfoldable pub http_object : Kind → Environment → HttpObject
http_object kind env = record {
  kind = kind;
  env = env;
  status = codes "200 OK";
  path = [];
  content_type = codes "text/html; charset=utf-8";
  custom_headers = [];
  output = codes "OK";
  name = [];
}

-- The constructors of the four classes.
abbrev pub static_page_http_object : Environment → HttpObject
static_page_http_object env = http_object static_page env

abbrev pub lookbook_http_object : Environment → HttpObject
lookbook_http_object env = http_object lookbook env

abbrev pub collection_http_object : Environment → HttpObject
collection_http_object env = http_object collection env

abbrev pub model_http_object : Environment → HttpObject
model_http_object env = http_object model env

-- create_http_object<T>
unfoldable pub create : Kind → Environment → HttpObject
unfolding http_object
create static_page env = static_page_http_object env
create lookbook env = lookbook_http_object env
create collection env = collection_http_object env
create model env = model_http_object env

abbrev pub segment : Option ℕ → Bytes → Bytes
segment none s = s
segment (some i) s = take i s

-- The name in the first part of a path that begins with '/'; it stays as it is for another path.
abbrev pub name_in : Bytes → Bytes → Bytes
name_in name [] = name
name_in name (c ∷ s) = if c == b'/' then segment (find (b'/' ∷ []) s) s else name

abbrev pub or_lookbook : Bytes → Bytes
or_lookbook name = if is_empty name then codes "lookbook" else name

-- The two overrides of set_path.
abbrev pub set_path_of : Kind → Bytes → HttpObject → HttpObject
set_path_of static_page path o = record o { path = path; name = or_lookbook (name_in o.name path) }
set_path_of _ path o = record o { path = path }

unfoldable pub set_path : Bytes → HttpObject → HttpObject
set_path path o = set_path_of o.kind path o

abbrev pub modify : (HttpObject → HttpObject) → M (Unit {0})
modify f o = (ok tt, f o)

unfoldable pub set_data : Bytes → HttpObject → HttpObject
set_data d o = record o { output = d }

unfoldable pub set_content_type : Bytes → HttpObject → HttpObject
set_content_type value o = record o { content_type = value }

unfoldable pub set_xml : HttpObject → HttpObject
set_xml o = record o { content_type = codes "application/xml" }

unfoldable pub add_custom_header : Bytes → Bytes → HttpObject → HttpObject
add_custom_header header value o = record o {
  custom_headers = o.custom_headers ++ (header ++ (codes ": " ++ (value ++ codes "\r\n")));
}

unfoldable pub redirect : Bytes → HttpObject → HttpObject
unfolding add_custom_header
redirect url o =
    add_custom_header (codes "Location") url
      (record o { content_type = []; status = codes "302 Found" })

-- The end of both set_page: the page from the template "main".
abbrev pub set_main : Templates → ArgumentList → M (Unit {0})
set_main ts args = do
  t ← lift (Store.get ts (codes "main"))
  d ← lift (yield t args)
  modify (set_data d)

abbrev pub titled_args : Bytes → Bytes → Bytes → ArgumentList
titled_args title body path =
    add_argument (add_argument (add_argument [] (codes "title") title) (codes "body") body)
      (codes "base_uri") (path ++ codes "/")

-- set_page(title, body)
unfoldable pub set_titled_page : Templates → Bytes → Bytes → M (Unit {0})
unfolding set_data
set_titled_page ts title body o = set_main ts (titled_args title body o.path) o

abbrev pub config_args : Dict Bytes → Bytes → Bytes → ArgumentList
config_args config body path =
    add_argument (add_arguments (add_argument [] (codes "base_uri") (path ++ codes "/")) config)
      (codes "body") body

-- set_page(config, body)
unfoldable pub set_config_page : Templates → Dict Bytes → Bytes → M (Unit {0})
unfolding set_data
set_config_page ts config body o = set_main ts (config_args config body o.path) o
