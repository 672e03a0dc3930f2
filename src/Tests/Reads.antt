-- ===== src/Tests/Reads.antt =====
-- Requests that are served from two file systems and two databases, with a query, and with no object.
use mathlib.Core.Path.{fun_ext}
use simurga.Base.{
  ◌==◌, arith, ◌↔◌, ◌≡◌, refl, none, some, [], ◌∷◌, ◌++◌, Bytes, if◌then◌else◌, codes,
}
use simurga.Daemon.Reads.{serve-SameSite}
use simurga.Daemon.Queries.{serve-query}
use simurga.Daemon.Links.{no_rows_added}
use simurga.Daemon.{serve}
use simurga.Daemon.Asked.{Rows, SameForColors, asking, serve-asking}
use simurga.Database.{Tried, sql_error, gives}
use simurga.Files.{System}
use simurga.Pages.Reads.{IsPageName, phylosophy, contacts, howtobuy, SameSite, on}
use simurga.Pages.Ids.{IsColor}
use simurga.Pages.World.{World, ModelView}
use simurga.Service.Alike.{as_line}
use simurga.Service.Escapes.{percent_escaped_to_real_bytes}
use simurga.Service.Routes.{standard_objects, request_path, allocate}
use simurga.Service.Unrouted.{Unrouted, allocate-none_iff}
use simurga.Service.{Environment, get_method}
use simurga.Template.{variable, nil, cons}
use simurga.Text.{equal, find}

-- Every file holds its name.
abbrev open_disk : System
open_disk = record { file = λ name. some name; blocks = λ name. name ∷ []; dir = λ name. none }

-- The same with one file that cannot be read.
abbrev closed_disk : System
closed_disk = record open_disk {
  file = λ name. if equal name (codes "/etc/shadow") then none else some name;
}

abbrev site : World
site = record {
  sys = open_disk;
  templates =
      (codes "main", cons (variable (codes "body")) nil)
      ∷ (codes "static_page", cons (variable (codes "body")) nil)
      ∷ [];
  data_dir = codes "/srv";
  model_rows = λ text params round. record { added = []; outcome = gives tt };
  collection_rows = λ text round. record { added = []; outcome = sql_error (codes "gone away") };
  client = λ round args. gives tt;
}

abbrev contacts_request : Environment
contacts_request = record {
  request_method = get_method;
  request_uri = codes "/contacts/?from=/etc/shadow";
  root = codes "/www";
}

page-same :
    (n : Bytes)
    → IsPageName n
    → open_disk.file (codes "/www" ++ (b'/' ∷ n) ++ codes "/page.html")
      ≡ closed_disk.file (codes "/www" ++ (b'/' ∷ n) ++ codes "/page.html")
unfolding equal
page-same n phylosophy = refl
page-same n contacts = refl
page-same n howtobuy = refl

config-same :
    (n : Bytes)
    → IsPageName n
    → open_disk.file (codes "/www" ++ (b'/' ∷ n) ++ codes "/.config")
      ≡ closed_disk.file (codes "/www" ++ (b'/' ∷ n) ++ codes "/.config")
unfolding equal
config-same n phylosophy = refl
config-same n contacts = refl
config-same n howtobuy = refl

disks-SameSite : SameSite (codes "/www") (codes "/srv") open_disk closed_disk
unfolding equal
disks-SameSite = record {
  page = page-same;
  page_blocks = λ n p. refl;
  page_config = config-same;
  images = refl;
  lookbook_config = refl;
  collection_config = refl;
  database_config = refl;
}

serve-SameSite_example :
    serve percent_escaped_to_real_bytes standard_objects (on site open_disk) contacts_request
    ≡ serve percent_escaped_to_real_bytes standard_objects (on site closed_disk) contacts_request
serve-SameSite_example =
    serve-SameSite site open_disk closed_disk percent_escaped_to_real_bytes contacts_request
      disks-SameSite

no_query : find (b'?' ∷ []) (codes "/contacts/") ≡ none
unfolding find
no_query = refl

serve-query_example :
    (serve percent_escaped_to_real_bytes standard_objects site (
      as_line get_method (codes "/contacts/" ++ (b'?' ∷ codes "from=mail")) contacts_request)).1.out
    ≡ (serve percent_escaped_to_real_bytes standard_objects site
        (as_line get_method (codes "/contacts/") contacts_request)).1.out
serve-query_example =
    serve-query percent_escaped_to_real_bytes standard_objects contacts_request get_method site
      (codes "/contacts/") (codes "from=mail") no_query

-- A database that fails for a name with a quote in front.
abbrev guarded : Bytes → Tried ModelView
guarded [] = record { added = []; outcome = sql_error (codes "no name") }
guarded (c ∷ s) =
    if c == 39 then record { added = []; outcome = sql_error (codes "quote") } else no_rows_added

abbrev open_rows : Rows
open_rows = λ text params round. no_rows_added

abbrev guarded_rows : Rows
guarded_rows = λ text params round. guarded params.color_name

rows-SameForColors : SameForColors open_rows guarded_rows
rows-SameForColors text params h = fun_ext λ round. guarded-IsColor params.color_name h
  where
    guarded-IsColor : (c : Bytes) → IsColor c → no_rows_added ≡ guarded c
    guarded-IsColor [] h = absurd (h.named refl)
    guarded-IsColor (c ∷ s) h = ground (arith, h.plain.0)

abbrev quote_request : Environment
quote_request = record {
  request_method = get_method;
  request_uri = codes "/model/7-'red'";
  root = codes "/www";
}

serve-asking_example :
    serve percent_escaped_to_real_bytes standard_objects (asking site open_rows) quote_request
    ≡ serve percent_escaped_to_real_bytes standard_objects (asking site guarded_rows) quote_request
serve-asking_example =
    serve-asking site open_rows guarded_rows rows-SameForColors percent_escaped_to_real_bytes
      standard_objects quote_request

-- A picture's URI, which the program has no object for.
abbrev picture_request : Environment
picture_request = record quote_request { request_uri = codes "/model/7-red/big_0.jpg" }

allocate-none_example :
    ((allocate percent_escaped_to_real_bytes standard_objects picture_request []).0 ≡ none)
    ↔ Unrouted percent_escaped_to_real_bytes standard_objects
        (request_path picture_request.request_uri)
allocate-none_example =
    allocate-none_iff percent_escaped_to_real_bytes standard_objects picture_request []
