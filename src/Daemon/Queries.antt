-- ===== src/Daemon/Queries.antt =====
-- What src/main.cpp sends for URIs with one path.
use simurga.Base.{◌≡◌, refl, ap, Option, none, [], ◌∷◌, ◌++◌, Bytes, ok, take-length-append}
use simurga.Daemon.{new_request, started, after_start, complete, response, run_job, message, serve}
use simurga.Pages.World.{World}
use simurga.Service.Alike.{as_line, Pair, nothing, object, allocate-Pair}
use simurga.Service.Methods.{handle-uri}
use simurga.Service.Routes.{strip_slash, ObjectTable, request_path}
use simurga.Service.{Environment, HttpObject, RequestMethod}
use simurga.Text.Find.{find-append_byte}
use simurga.Text.{find}

-- A query behind a URI with no '?' of its own does not change the path that is looked up.
request_path-query :
    (uri q : Bytes)
    → find (b'?' ∷ []) uri ≡ none
    → request_path (uri ++ (b'?' ∷ q)) ≡ request_path uri
unfolding request_path
request_path-query uri q h =
    rw (find-append_byte b'?' uri q h, h) (ap strip_slash (take-length-append uri (b'?' ∷ q)))

module _ (decode : Bytes → Bytes) (table : ObjectTable) (env : Environment) (m : RequestMethod)
    (w : World) where
  answer-uri :
      (u v : Bytes) {r r' : Option HttpObject × Bytes}
      → Pair m u m v r r'
      → (complete decode table w
          (after_start decode table w (started (ok r) (new_request (as_line m u env))))).1.out
        ≡ (complete decode table w
            (after_start decode table w (started (ok r') (new_request (as_line m v env))))).1.out
  unfolding started run_job response
  answer-uri u v (nothing id) = refl
  answer-uri u v (object o id) = ap (message m) (handle-uri m w o u v id)

  -- Requests with one method are answered alike if their URIs have one path.
  serve-path :
      (u v : Bytes)
      → request_path u ≡ request_path v
      → (serve decode table w (as_line m u env)).1.out
        ≡ (serve decode table w (as_line m v env)).1.out
  unfolding serve
  serve-path u v h = answer-uri u v (allocate-Pair decode table env m u m v [] h)

  -- A query behind a URI with no '?' of its own does not change what is sent for the request, with any
  -- method, for any table of routes and any decoding of escapes.
  pub serve-query :
      (uri q : Bytes)
      → find (b'?' ∷ []) uri ≡ none
      → (serve decode table w (as_line m (uri ++ (b'?' ∷ q)) env)).1.out
        ≡ (serve decode table w (as_line m uri env)).1.out
  serve-query uri q h = serve-path (uri ++ (b'?' ∷ q)) uri (request_path-query uri q h)
