-- ===== src/Daemon/Records.antt =====
-- `Fastcgipp::Request::handler` of fastcgipp/src/request.cpp, from which `Request` of src/main.cpp is
-- derived: how the records and messages for a request come to the calls of `response`. What the
-- environment keeps of a posted body is a parameter, since no handler of the program reads it.
pub mod Handler
pub mod Exchange
pub mod Ends
use simurga.Base.{
  ℕ, ◌≡◌, Bool, true, false, ◌&&◌, not, Option, none, some, List, [], ◌∷◌, ◌++◌, ◌==◌, ltb,
  if◌then◌else◌, Bytes, codes, Exception, std_exception,
}
use simurga.Daemon.{Request, new_request, write, write_error, response, run_job}
use simurga.Pages.World.{World}
use simurga.Service.Params.{request_method_label, fill, new_environment}
use simurga.Service.Routes.{ObjectTable}
use simurga.Service.{RequestMethod, post_method, Environment, what}
use simurga.Text.{equal}

pub data Role : Type 0 where
  responder authorizer filter : Role

-- The values that the member `state` of the base class takes.
pub data Phase : Type 0 where
  params_phase in_phase out_phase : Phase

-- A record of type PARAMS, IN, ABORT_REQUEST or another type, with its body, or a message that is no
-- record.
pub data Message : Type 0 where
  params_record : Bytes → Message
  in_record : Bytes → Message
  abort_record : Message
  other_record : Message
  own_message : Message

-- The protocol status of an END_REQUEST record.
pub data EndStatus : Type 0 where
  request_complete unknown_role : EndStatus

-- What the environment keeps besides the members that the program reads; `fill_post_buffer` gives
-- nothing where the buffer is too small.
pub record Posts : Type 1 where
  pub Data : Type 0
  pub new_data : Data
  pub fill_data : Bytes → Data → Data
  pub content_length : Data → ℕ
  pub content_type : Data → Bytes
  pub host : Data → Bytes
  pub fill_post_buffer : Bytes → Data → Option Data
  pub parse_posts_multipart : Data → Data
  pub parse_posts_url_encoded : Data → Data
  pub clear_post_buffer : Data → Data

-- The members of both classes; `ended` is the END_REQUEST record that was sent.
pub record Connection (p : Posts) : Type 0 where
  pub role : Role
  pub phase : Phase
  pub max_post_size : ℕ
  pub posts : p.Data
  pub request : Request
  pub ended : Option EndStatus

abbrev pub records_out_of_order : Exception
records_out_of_order = std_exception (codes "FastCGI records received out of order from server.")

abbrev pub unknown_content_type : Exception
unknown_content_type = std_exception (codes "Client sent unknown content type.")

abbrev pub server_error_page : Bytes
server_error_page =
    codes "Status: 500 Internal Server Error\n"
    ++ (codes "Content-Type: text/html; charset=ISO-8859-1\r\n\r\n"
        ++ (codes
              "<!DOCTYPE html><html lang='en'><head><title>500 Internal Server Error</title></head>"
            ++ codes "<body><h1>500 Internal Server Error</h1></body></html>"))

abbrev pub big_post_page : Bytes
big_post_page =
    codes "Status: 413 Request Entity Too Large\n"
    ++ (codes "Content-Type: text/html; charset=ISO-8859-1\r\n\r\n"
        ++ (codes
              "<!DOCTYPE html><html lang='en'><head><title>413 Request Entity Too Large</title></head>"
            ++ codes "<body><h1>413 Request Entity Too Large</h1></body></html>"))

abbrev pub error_line : Bytes → Environment → Exception → Bytes
error_line host env e =
    codes "\""
    ++ (what e
        ++ (codes "\" from \"http://"
            ++ (host
                ++ (env.request_uri
                    ++ (codes "\" with a "
                        ++ (request_method_label env.request_method
                            ++ codes " request method."))))))
