-- ===== src/Tests/Inputs.antt =====
-- What comes in and what is logged, on concrete inputs.
use simurga.Base.{◌≡◌, refl, some, List, [], ◌∷◌, Bytes, codes, arith}
use simurga.Logs.History.{log_all-new_logging}
use simurga.Logs.{Message, log_err, log_info, text, number, constructed, log_all, new_logging}
use simurga.Service.Escapes.{percent_escaped_to_real_bytes, decode_from, escape, decode-escape}
use simurga.Service.Params.RoundTrip.{fill-write_params}
use simurga.Service.Params.{
  Param, method_named, store_param, fill, new_environment, write_params, store_params,
}
use simurga.Service.{method_error}
use simurga.Tests.Requests.{request}
use simurga.Text.{equal}

abbrev colour : Bytes
colour = codes "a+b%"

escaped_colour : percent_escaped_to_real_bytes (codes "a%2Bb%25") ≡ colour
unfolding percent_escaped_to_real_bytes decode_from
escaped_colour = refl

-- Two digits are taken for whatever they are, and at the end as many as there are.
odd_escapes : percent_escaped_to_real_bytes (codes "%zz+%4") ≡ 0 ∷ b' ' ∷ 64 ∷ []
unfolding percent_escaped_to_real_bytes decode_from
odd_escapes = refl

decode-escape_example : percent_escaped_to_real_bytes (escape colour) ≡ colour
decode-escape_example =
    decode-escape colour (omega arith, (omega arith, (omega arith, (omega arith, tt))))

abbrev params : List Param
params =
    (codes "REQUEST_METHOD", codes "GET")
    ∷ (codes "QUERY_STRING", codes "")
    ∷ (codes "REQUEST_URI", codes "/model/7-red")
    ∷ (codes "DOCUMENT_ROOT", codes "/www")
    ∷ []

stored-params : store_params params new_environment ≡ request
unfolding store_params store_param method_named equal
stored-params = refl

connect-method : method_named (codes "CONNECT") ≡ method_error
unfolding method_named equal
connect-method = refl

fill-write_params_example :
    fill (write_params params) new_environment ≡ some (store_params params new_environment)
fill-write_params_example = fill-write_params params new_environment (
  (omega arith, omega arith),
  ((omega arith, omega arith), ((omega arith, omega arith), ((omega arith, omega arith), tt))),
)

abbrev first_message : Message
first_message = record {
  level = log_info;
  format = codes "http request to '%s'";
  args = text (codes "/") ∷ [];
}

abbrev second_message : Message
second_message = record {
  level = log_err;
  format = codes "connect to database: error %d: %s";
  args = number 7 ∷ text (codes "no") ∷ [];
}

log_all-new_logging_example : log_all (first_message ∷ second_message ∷ []) new_logging ≡ record {
  manager = constructed;
  syslog = record {
    ident = some (codes "simurga");
    opened = 1;
    messages = first_message ∷ second_message ∷ [];
  };
}
log_all-new_logging_example = log_all-new_logging first_message (second_message ∷ [])
