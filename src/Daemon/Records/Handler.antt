-- ===== src/Daemon/Records/Handler.antt =====
-- The functions of fastcgipp/src/request.cpp: `complete`, `errorHandler`, `bigPostErrorHandler` and
-- `handler`.
use simurga.Base.{
  ℕ, Bool, true, false, ◌&&◌, not, Option, none, some, List, [], ◌∷◌, ◌==◌, ltb, if◌then◌else◌,
  Bytes, codes, Exception,
}
use simurga.Daemon.{Request, new_request, write, write_error, response, run_job}
use simurga.Pages.World.{World}
use simurga.Service.Params.{request_method_label, fill, new_environment}
use simurga.Service.Routes.{ObjectTable}
use simurga.Service.{RequestMethod, post_method, Environment, what}
use simurga.Text.{equal}
use simurga.Daemon.Records.{
  Role, filter, Phase, params_phase, in_phase, out_phase, Message, params_record, in_record,
  abort_record, other_record, own_message, request_complete, unknown_role, Posts, Connection,
  records_out_of_order, unknown_content_type, server_error_page, big_post_page, error_line,
}

module _ (p : Posts) where
  -- Fastcgipp::Request::Request, with what Manager::push sets of the role
  abbrev pub new_connection : Role → ℕ → Connection p
  new_connection role size = record {
    role = role;
    phase = params_phase;
    max_post_size = size;
    posts = p.clear_post_buffer p.new_data;
    request = new_request new_environment;
    ended = none;
  }

  -- complete
  unfoldable pub complete_request : Connection p → Connection p
  complete_request c = record c { ended = some request_complete }

  unfoldable pub error_handler : Exception → Connection p → Connection p
  unfolding what request_method_label
  error_handler e c = record c {
    request =
        write_error (error_line (p.host c.posts) c.request.environment e)
          (write server_error_page c.request);
  }

  unfoldable pub big_post_error_handler : Connection p → Connection p
  big_post_error_handler c = record c { request = write big_post_page c.request }

  abbrev pub Handled : Type 0
  Handled = Option (Bool × Connection p)

  -- The catch clause
  abbrev pub caught_by : Exception → Connection p → Handled
  caught_by e c = some (true, complete_request (error_handler e c))

  abbrev pub too_big : Connection p → Handled
  too_big c = some (true, complete_request (big_post_error_handler c))

  -- PARAMS; none is a read behind the end of the record.
  abbrev pub filled : Bytes → Option Environment → Connection p → Handled
  filled body none c = none
  filled body (some env) c = some (
    false,
    record c { posts = p.fill_data body c.posts; request = record c.request { environment = env } },
  )

  abbrev pub exceeds : Connection p → Bool
  exceeds c = not (c.max_post_size == 0) && ltb c.max_post_size (p.content_length c.posts)

  abbrev pub params_body : Bytes → Connection p → Handled
  params_body [] c = if exceeds c then too_big c else some (false, record c { phase = in_phase })
  params_body (b ∷ s) c = filled (b ∷ s) (fill (b ∷ s) c.request.environment) c

  abbrev pub on_params : Phase → Bytes → Connection p → Handled
  on_params params_phase body c = params_body body c
  on_params _ body c = caught_by records_out_of_order c

  -- What a posted body is parsed to; none is an unknown content type.
  abbrev pub parsed_post : p.Data → Option p.Data
  parsed_post d =
      if equal (p.content_type d) (codes "multipart/form-data")
      then some (p.parse_posts_multipart d)
      else if equal (p.content_type d) (codes "application/x-www-form-urlencoded")
      then some (p.parse_posts_url_encoded d)
      else none

  abbrev pub parsed : RequestMethod → p.Data → Option p.Data
  parsed post_method d = parsed_post d
  parsed _ d = some d

  abbrev pub on_fill : Option p.Data → Connection p → Handled
  on_fill none c = too_big c
  on_fill (some d) c = some (false, record c { posts = d })

  module _ (decode : Bytes → Bytes) (table : ObjectTable) (w : World) where
    -- if(response()) { complete(); return true; }
    abbrev pub responded : Bool × Request → Connection p → Handled
    responded (true, q) c = some (true, complete_request (record c { request = q }))
    responded (false, q) c = some (false, record c { request = q })

    abbrev pub respond : Connection p → Handled
    respond c = responded (response decode table w c.request) c

    abbrev pub at_end_of_input : Option p.Data → Connection p → Handled
    at_end_of_input none c = caught_by unknown_content_type c
    at_end_of_input (some d) c =
        respond (record c { phase = out_phase; posts = p.clear_post_buffer d })

    -- IN
    abbrev pub in_body : Bytes → Connection p → Handled
    in_body [] c = at_end_of_input (parsed c.request.environment.request_method c.posts) c
    in_body (b ∷ s) c = on_fill (p.fill_post_buffer (b ∷ s) c.posts) c

    abbrev pub on_in : Phase → Bytes → Connection p → Handled
    on_in in_phase body c = in_body body c
    on_in _ body c = caught_by records_out_of_order c

    abbrev pub on_message : Message → Connection p → Handled
    on_message (params_record body) c = on_params c.phase body c
    on_message (in_record body) c = on_in c.phase body c
    on_message abort_record c = some (true, c)
    on_message other_record c = some (false, c)
    on_message own_message c = respond c

    abbrev pub in_role : Role → Message → Connection p → Handled
    in_role filter m c = some (true, record c { ended = some unknown_role })
    in_role _ m c = on_message m c

    -- handler, with the message in front of the queue
    unfoldable pub handler : Message → Connection p → Handled
    unfolding response
    handler m c = in_role c.role m c

    -- The calls for a list of messages, up to the one that says that the request is done: Manager::handler
    -- removes it then.
    abbrev pub continue_with : (Connection p → Handled) → Handled → Handled
    continue_with next none = none
    continue_with next (some (true, c)) = some (true, c)
    continue_with next (some (false, c)) = next c

    unfoldable pub handle_all : List Message → Connection p → Handled
    unfolding handler
    handle_all [] c = some (false, c)
    handle_all (m ∷ ms) c = continue_with (handle_all ms) (handler m c)

    -- The job, and the message of its completion handler.
    unfoldable pub after_job : Connection p → Handled
    unfolding run_job handler
    after_job c = handler own_message (record c { request = run_job decode table w c.request })
