-- ===== src/Tests/Records.antt =====
-- Requests from the records of the web server.
use simurga.Base.{◌≡◌, ◌≢◌, refl, true, none, some, List, [], ◌∷◌, Bytes, codes, arith}
use simurga.Daemon.Records.{responder, filter, Message, in_record, abort_record, Posts}
use simurga.Daemon.Records.Ends.{Ends, has_abort, handle_all-Ends}
use simurga.Daemon.Records.Exchange.{AreRecords, records_of, stored_all, done_with, records-serve}
use simurga.Daemon.Records.Handler.{new_connection, continue_with, handle_all, after_job, handler}
use simurga.Daemon.{serve}
use simurga.Service.Params.{Param, store_params, store_param, method_named, new_environment}
use simurga.Service.Routes.{standard_objects}
use simurga.Service.{get_method, post_method}
use simurga.Tests.Requests.{world}
use simurga.Text.{equal}

abbrev same : Bytes → Bytes
same s = s

-- Nothing is kept of what is posted.
abbrev no_posts : Posts
no_posts = record {
  Data = Bytes;
  new_data = [];
  fill_data = λ s d. d;
  content_length = λ d. 0;
  content_type = λ d. [];
  host = λ d. [];
  fill_post_buffer = λ s d. none;
  parse_posts_multipart = λ d. d;
  parse_posts_url_encoded = λ d. d;
  clear_post_buffer = λ d. [];
}

abbrev two_records : List (List Param)
two_records =
    ((codes "REQUEST_METHOD", codes "GET") ∷ [])
    ∷ ((codes "REQUEST_URI", codes "/model/7-red") ∷ (codes "DOCUMENT_ROOT", codes "/www") ∷ [])
    ∷ []

two_records-AreRecords : AreRecords two_records
two_records-AreRecords = (
  ((λ h. cc), ((omega arith, omega arith), tt)),
  (((λ h. cc), ((omega arith, omega arith), ((omega arith, omega arith), tt))), tt),
)

responder-served : responder ≢ filter
responder-served h = cc

stored-get : (stored_all two_records new_environment).request_method ≡ get_method
unfolding store_params store_param method_named equal
stored-get = refl

stored-other : (stored_all two_records new_environment).request_method ≢ post_method
stored-other h = other (rw stored-get at h)
  where
    other : get_method ≢ post_method
    other h = cc

records-serve_example :
    (d : Bytes) × (continue_with no_posts same standard_objects world
        (after_job no_posts same standard_objects world)
        (handle_all no_posts same standard_objects world
          (records_of two_records)
          (new_connection no_posts responder 0))
      ≡ some (
        true,
        done_with no_posts responder
            (serve same standard_objects world (stored_all two_records new_environment)).1
            d,
      ))
records-serve_example =
    records-serve no_posts responder same standard_objects world responder-served two_records
      two_records-AreRecords stored-other

-- A body before the parameters have ended.
abbrev early : List Message
early = in_record (codes "a=b") ∷ abort_record ∷ []

early-error :
    handle_all no_posts same standard_objects world early (new_connection no_posts responder 0)
    ≡ handler no_posts same standard_objects world
        (in_record [])
        (new_connection no_posts responder 0)
unfolding handle_all handler
early-error = refl

handle_all-Ends_example :
    Ends no_posts
      (has_abort early)
      (handle_all no_posts same standard_objects world early (new_connection no_posts responder 0))
handle_all-Ends_example =
    handle_all-Ends no_posts same standard_objects world early (new_connection no_posts responder 0)
      refl
