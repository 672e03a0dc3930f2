-- ===== src/Daemon/Heads.antt =====
-- What src/main.cpp sends for HEAD, against GET.
use simurga.Base.{◌≡◌, refl, ap, ◌∙◌, Option, some, [], ◌++◌, append-nil, Bytes, ok}
use simurga.Daemon.{
  Request, new_request, not_found_text, started, after_start, complete, response, run_job, message,
  serve, head_of,
}
use simurga.Pages.World.{World}
use simurga.Service.Handle.{handle}
use simurga.Service.Alike.{Pair, nothing, object, allocate-Pair}
use simurga.Service.Methods.{with_line, handle-head}
use simurga.Service.Routes.{ObjectTable}
use simurga.Service.{Environment, HttpObject, RequestMethod, head_method, get_method}

-- The same request with another method.
abbrev pub as_method : RequestMethod → Environment → Environment
as_method m env = record env { request_method = m }

-- The ends of a request by HEAD and by GET: both are the answer for an unknown URL, or the one by HEAD
-- sends the head of the object with which the one by GET ends, and this one sends the head and the
-- page behind it.
pub data HeadOfGet (head_end get_end : Request) : Type 0 where
  unknown :
      head_end.out ≡ not_found_text → get_end.out ≡ not_found_text → HeadOfGet head_end get_end
  object_of :
      (o : HttpObject)
      → get_end.http_object ≡ some o
      → head_end.out ≡ head_of o
      → get_end.out ≡ head_of o ++ o.output
      → HeadOfGet head_end get_end

module _ (decode : Bytes → Bytes) (table : ObjectTable) (env : Environment) where
  message-head :
      (w : World) (o : HttpObject) (u id : Bytes)
      → message head_method (handle w id (with_line head_method u o))
        ≡ head_of (handle w id (with_line get_method u o))
  unfolding message
  message-head w o u id =
      append-nil (head_of (handle w id (with_line head_method u o)))
      ∙ ap head_of (handle-head w o u u id)

  -- The end of a request for which `allocate` gives `r`.
  abbrev answer : World → RequestMethod → Option HttpObject × Bytes → Request
  answer w m r =
      (complete decode table w
        (after_start decode table w (started (ok r) (new_request (as_method m env))))).1

  answer-Pair :
      (w : World) {r r' : Option HttpObject × Bytes}
      → Pair head_method env.request_uri get_method env.request_uri r r'
      → HeadOfGet (answer w head_method r) (answer w get_method r')
  unfolding started run_job response message
  answer-Pair w (nothing id) = unknown refl refl
  answer-Pair w (object o id) =
      object_of (handle w id (with_line get_method env.request_uri o)) refl
        (message-head w o env.request_uri id) refl

  -- For every request: HEAD and GET are both answered as an unknown URL, or HEAD is answered by the
  -- status line and the headers of the object with which GET ends, and no body, and GET by the same
  -- with the page of the object as the body.
  pub serve-head :
      (w : World)
      → HeadOfGet
          (serve decode table w (as_method head_method env)).1
          (serve decode table w (as_method get_method env)).1
  unfolding serve
  serve-head w = answer-Pair w (
      allocate-Pair decode table env head_method env.request_uri get_method env.request_uri [] refl)
