-- ===== src/Daemon.antt =====
-- `Request` of src/main.cpp: the two calls of `response` for a request, what they write for the web
-- server and to the log, and the job between them. The decoding of percent escapes is the FastCGI
-- library's, and so a parameter.
pub mod Serving
pub mod Headers
pub mod Heads
pub mod Logging
pub mod Links
pub mod Worlds
pub mod Reads
pub mod Asked
pub mod Queries
pub mod Startup
pub mod Singletons
pub mod Socket
pub mod Main
pub mod Ends
pub mod Statuses
pub mod Records
use simurga.Base.{
  Bool, true, false, Option, none, some, List, [], ◌∷◌, ◌++◌, if◌then◌else◌, is_empty, length,
  Bytes, codes, Exception, Result, ok, raise,
}
use simurga.Logs.{Message, log_err, log_warning, log_info, text}
use simurga.Pages.World.{World}
use simurga.Service.Handle.{handle}
use simurga.Service.Routes.{ObjectTable, allocate}
use simurga.Service.{Environment, RequestMethod, head_method, HttpObject, what}
use simurga.Text.Decimal.{to_string}

pub data State : Type 0 where
  start finish : State

-- The members of `Request` and of its base class: `out` and `err` are what was written so far, and
-- `logged` are the messages that were logged for the request.
pub record Request : Type 0 where
  pub environment : Environment
  pub state : State
  pub http_object : Option HttpObject
  pub id : Bytes
  pub out : Bytes
  pub err : Bytes
  pub logged : List Message

abbrev pub new_request : Environment → Request
new_request env = record {
  environment = env;
  state = start;
  http_object = none;
  id = [];
  out = [];
  err = [];
  logged = [];
}

abbrev pub crlf : Bytes
crlf = codes "\r\n"

abbrev pub write : Bytes → Request → Request
write s q = record q { out = q.out ++ s }

abbrev pub write_error : Bytes → Request → Request
write_error s q = record q { err = q.err ++ s }

abbrev pub log : Message → Request → Request
log m q = record q { logged = q.logged ++ m ∷ [] }

abbrev pub not_found_message : Environment → Message
not_found_message env = record {
  level = log_warning;
  format = codes "http request to '%s': not found";
  args = text env.request_uri ∷ [];
}

abbrev pub accepted_message : Environment → Message
accepted_message env = record {
  level = log_info;
  format = codes "http request to '%s'";
  args = text env.request_uri ∷ [];
}

abbrev pub exception_message : Exception → Message
exception_message e = record {
  level = log_err;
  format = codes "http: exception '%s'";
  args = text (what e) ∷ [];
}

abbrev pub not_found_text : Bytes
not_found_text =
    codes "Status: 404 Not Found\r\n"
    ++ (codes "Content-Type: text/plain\r\n\r\n" ++ codes "Invalid url\r\n")

abbrev pub server_error_text : Bytes
server_error_text =
    codes "Status: 500 Internal Server Error\r\n"
    ++ (codes "Content-Type: text/plain\r\n\r\n" ++ codes "Internal server error\r\n")

-- `response_start` behind the call of `allocate` and up to the end of the catch clause; the result says
-- whether the request is complete.
unfoldable pub started : Result (Option HttpObject × Bytes) → Request → Bool × Request
started (ok (none, id)) q =
    (true, write not_found_text (log (not_found_message q.environment) (record q { id = id })))
started (ok (some o, id)) q =
    (false, log (accepted_message q.environment) (record q { http_object = some o; id = id }))
started (raise e) q =
    (true, write server_error_text (write_error (what e) (log (exception_message e) q)))

abbrev pub content_type_line : Bytes → Bytes
content_type_line t = if is_empty t then [] else codes "Content-Type: " ++ (t ++ crlf)

abbrev pub body_for : RequestMethod → Bytes → Bytes
body_for head_method d = []
body_for _ d = d

abbrev pub head_of : HttpObject → Bytes
head_of o =
    codes "Status: "
    ++ (o.status
        ++ (crlf
            ++ (content_type_line o.content_type
                ++ (codes "Content-Length: "
                    ++ (to_string (length o.output) ++ (crlf ++ (o.custom_headers ++ crlf)))))))

-- What `response_finish` writes.
unfoldable pub message : RequestMethod → HttpObject → Bytes
message m o = head_of o ++ body_for m o.output

module _ (decode : Bytes → Bytes) (table : ObjectTable) (w : World) where
  unfoldable pub response_start : Request → Bool × Request
  unfolding started
  response_start q = started (ok (allocate decode table q.environment q.id)) q

  -- The pointer is set whenever `response` comes here.
  unfoldable pub response_finish : Request → Request
  unfolding message
  response_finish q = elim q.http_object [
    | none ↦ q
    | some o ↦ write (message q.environment.request_method o) q
  ]

  abbrev pub after_start : Bool × Request → Bool × Request
  after_start (true, q) = (true, q)
  after_start (false, q) = (false, record q { state = finish })

  abbrev pub response_in : State → Request → Bool × Request
  response_in start q = after_start (response_start q)
  response_in finish q = (true, response_finish q)

  -- response
  unfoldable pub response : Request → Bool × Request
  unfolding response_start response_finish
  response q = response_in q.state q

  -- The job that `response_start` adds to the queue.
  unfoldable pub run_job : Request → Request
  run_job q = record q {
    http_object = elim q.http_object [ none ↦ none | some o ↦ some (handle w q.id o) ];
  }

  -- The job and the call of `response` that its completion handler brings about.
  abbrev pub complete : Bool × Request → Bool × Request
  complete (true, q) = (true, q)
  complete (false, q) = response (run_job q)

  -- A request from its first call of `response` to the last.
  unfoldable pub serve : Environment → Bool × Request
  unfolding response run_job
  serve env = complete (response (new_request env))
