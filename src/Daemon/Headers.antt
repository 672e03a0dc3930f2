-- ===== src/Daemon/Headers.antt =====
-- The headers that src/main.cpp sends, whatever a request asks for.
use mathlib.Core.Path.{subst}
use simurga.Base.{
  ◌≡◌, refl, sym, ap, ◌∙◌, [], ◌++◌, length, Bytes, codes, Exception, http_exception, not_found,
  invalid_method, std_exception,
}
use simurga.Daemon.Serving.{Served, unknown, handled, serve-Served}
use simurga.Daemon.{not_found_text, crlf, body_for, message, serve}
use simurga.Pages.World.{World}
use simurga.Service.Handling.{Answered, page, error}
use simurga.Service.Object.{http_object, create, set_path}
use simurga.Service.Routes.{ObjectTable}
use simurga.Service.Routing.{Found, whole, with_last}
use simurga.Service.{
  RequestMethod, Environment, Kind, static_page, lookbook, collection, model, HttpObject, status_of,
  what,
}
use simurga.Text.Decimal.{to_string}

-- The statuses with their content types.
pub data IsHeader : Bytes → Bytes → Type 0 where
  page_header : IsHeader (codes "200 OK") (codes "text/html; charset=utf-8")
  not_found_header : IsHeader (codes "404 Not Found") (codes "text/plain")
  not_allowed_header : IsHeader (codes "405 Method Not Allowed") (codes "text/plain")
  server_error_header : IsHeader (codes "500 Internal Server Error") (codes "text/plain")

-- Three headers, a blank line and the body, which is left out for HEAD.
abbrev pub response_text : Bytes → Bytes → RequestMethod → Bytes → Bytes
response_text status content_type m body =
    codes "Status: "
    ++ (status
        ++ (crlf
            ++ (codes "Content-Type: "
                ++ (content_type ++ crlf)
                ++ (codes "Content-Length: " ++ (to_string (length body) ++ (crlf ++ crlf))))))
    ++ body_for m body

pub data Sent (m : RequestMethod) : Bytes → Type 0 where
  invalid_url : Sent m not_found_text
  response_with :
      {status content_type : Bytes} (body : Bytes)
      → IsHeader status content_type
      → Sent m (response_text status content_type m body)

-- An object with the fields as the constructor sets them.
abbrev pub fresh_as : HttpObject → HttpObject
fresh_as o = record o {
  status = codes "200 OK";
  content_type = codes "text/html; charset=utf-8";
  custom_headers = [];
}

created-eq :
    (k : Kind) (path : Bytes) (env : Environment)
    → set_path path (create k env) ≡ fresh_as (set_path path (create k env))
unfolding create set_path http_object
created-eq static_page path env = refl
created-eq lookbook path env = refl
created-eq collection path env = refl
created-eq model path env = refl

pub Found-eq :
    {table : ObjectTable} {env : Environment} {given : Bytes} {o : HttpObject} {id : Bytes}
    → Found table env given o id
    → o ≡ fresh_as o
Found-eq (whole path r l e) = e ∙ created-eq r.allocator path _ ∙ ap fresh_as (sym e)
Found-eq (with_last path r l a s e) = e ∙ created-eq r.allocator _ _ ∙ ap fresh_as (sym e)

module _ (m : RequestMethod) where
  error-Sent :
      (o : HttpObject) (e : Exception)
      → Sent m (
          message m (record (fresh_as o) {
            content_type = codes "text/plain";
            status = status_of e;
            output = what e;
          }))
  unfolding message status_of what
  error-Sent o (http_exception d) = response_with d server_error_header
  error-Sent o (not_found d) = response_with d not_found_header
  error-Sent o invalid_method = response_with (what invalid_method) not_allowed_header
  error-Sent o (std_exception d) = response_with d server_error_header

  fresh-Sent : (o : HttpObject) {o' : HttpObject} → Answered (fresh_as o) o' → Sent m (message m o')
  unfolding message
  fresh-Sent o (page d) = response_with d page_header
  fresh-Sent o (error e) = error-Sent o e

module _ (decode : Bytes → Bytes) (table : ObjectTable) (w : World) (env : Environment) where
  Served-Sent : {out : Bytes} → Served decode table w env out → Sent env.request_method out
  Served-Sent (unknown u) = invalid_url
  Served-Sent (handled {o} o' a f h x) =
      fresh-Sent env.request_method o (subst (λ p. Answered p o') (Found-eq f) x)

  -- Every answer is the text for an invalid URL, or has one of four statuses with its content type, the
  -- length of the body, a blank line, and the body, which is left out for HEAD. So no text of a
  -- request, of a file or of the database gets into the headers.
  pub serve-Sent : Sent env.request_method (serve decode table w env).1.out
  serve-Sent = Served-Sent (serve-Served decode table w env).1
