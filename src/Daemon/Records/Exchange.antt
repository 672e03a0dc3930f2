-- ===== src/Daemon/Records/Exchange.antt =====
-- From the records of the web server to the end of a request: `handler` of fastcgipp/src/request.cpp with
-- `fill` of fastcgipp/src/http.cpp and `response` of src/main.cpp.
use simurga.Base.{
  ◌≡◌, ◌≢◌, refl, ap, ◌∙◌, Bool, true, false, some, List, [], ◌∷◌, Bytes, All, arith, length,
}
use simurga.Daemon.{Request, new_request, response, run_job, complete, serve}
use simurga.Daemon.Records.{
  Role, responder, authorizer, filter, in_phase, out_phase, Message, params_record, in_record,
  own_message, request_complete, Posts, Connection,
}
use simurga.Daemon.Records.Handler.{
  new_connection, complete_request, in_role, on_message, filled, params_body, parsed, responded,
  handler, continue_with, handle_all, after_job,
}
use simurga.Daemon.Serving.{serve-Served}
use simurga.Pages.World.{World}
use simurga.Service.Params.{Param, Fits, fill, write_params, store_params, new_environment}
use simurga.Service.Params.RoundTrip.{fill-write_params, write_param-length}
use simurga.Service.Routes.{ObjectTable}
use simurga.Service.{RequestMethod, post_method, Environment}

-- The records of a request with no body: its parameters, in records that hold whole parameters each, and
-- the two empty records.
abbrev pub records_of : List (List Param) → List Message
records_of [] = params_record [] ∷ in_record [] ∷ []
records_of (ps ∷ pss) = params_record (write_params ps) ∷ records_of pss

abbrev pub stored_all : List (List Param) → Environment → Environment
stored_all [] env = env
stored_all (ps ∷ pss) env = stored_all pss (store_params ps env)

-- Records that hold one parameter at least, each of names and values that can be written.
abbrev pub AreRecords : List (List Param) → Type 0
AreRecords pss = All (λ ps. (ps ≢ []) × All Fits ps) pss

write_params-nonempty : (ps : List Param) → ps ≢ [] → write_params ps ≢ []
unfolding write_params
write_params-nonempty [] n h = n refl
write_params-nonempty ((name, value) ∷ ps) n h =
    omega (arith, write_param-length name value (write_params ps), ap length h)

module _ (p : Posts) (role : Role) where
  -- A connection that gets parameters, one whose request goes on, and one whose request has ended.
  abbrev filling : Environment → p.Data → Connection p
  filling env d = record (new_connection p role 0) { posts = d; request = new_request env }

  abbrev serving : Request → p.Data → Connection p
  serving q d = record (new_connection p role 0) { phase = out_phase; posts = d; request = q }

  abbrev pub done_with : Request → p.Data → Connection p
  done_with q d = record (serving q d) { ended = some request_complete }

  params_body-filled :
      (s : Bytes) (c : Connection p)
      → s ≢ []
      → params_body p s c ≡ filled p s (fill s c.request.environment) c
  params_body-filled [] c n = absurd (n refl)
  params_body-filled (b ∷ s) c n = refl

  parsed-other : (m : RequestMethod) (d : p.Data) → m ≢ post_method → parsed p m d ≡ some d
  parsed-other post_method d n = absurd (n refl)
  parsed-other _ d n = refl

  module _ (decode : Bytes → Bytes) (table : ObjectTable) (w : World) (served : role ≢ filter) where
    in_role-served :
        (m : Message) (c : Connection p)
        → in_role p decode table w role m c ≡ on_message p decode table w m c
    in_role-served m c = by_role role served
      where
        by_role :
            (r : Role)
            → r ≢ filter
            → in_role p decode table w r m c ≡ on_message p decode table w m c
        by_role responder n = refl
        by_role authorizer n = refl
        by_role filter n = absurd (n refl)

    -- A record with parameters.
    handler-params :
        (ps : List Param) (env : Environment) (d : p.Data)
        → (ps ≢ []) × All Fits ps
        → handler p decode table w (params_record (write_params ps)) (filling env d)
          ≡ some (false, filling (store_params ps env) (p.fill_data (write_params ps) d))
    unfolding handler
    handler-params ps env d h =
        in_role-served (params_record (write_params ps)) (filling env d)
        ∙ params_body-filled (write_params ps) (filling env d) (write_params-nonempty ps h.0)
        ∙ ap (λ r. filled p (write_params ps) r (filling env d)) (fill-write_params ps env h.1)

    -- The empty records.
    handle_all-ends :
        (env : Environment) (d : p.Data)
        → env.request_method ≢ post_method
        → handle_all p decode table w (records_of []) (filling env d)
          ≡ continue_with p decode table w (handle_all p decode table w []) (
              responded p decode table w
                (response decode table w (new_request env))
                (serving (new_request env) (p.clear_post_buffer d)))
    unfolding handle_all handler
    handle_all-ends env d n = rw (in_role-served (params_record []) (filling env d)) (
        rw (in_role-served (in_record []) (record (filling env d) { phase = in_phase }))
          (rw (parsed-other env.request_method d n) refl))

    -- All records.
    handle_all-records :
        (pss : List (List Param)) (env : Environment) (d : p.Data)
        → AreRecords pss
        → (stored_all pss env).request_method ≢ post_method
        → (e : p.Data) × (handle_all p decode table w (records_of pss) (filling env d)
            ≡ continue_with p decode table w (handle_all p decode table w []) (
                responded p decode table w
                  (response decode table w (new_request (stored_all pss env)))
                  (serving (new_request (stored_all pss env)) e)))
    unfolding handle_all
    handle_all-records [] env d h n = (p.clear_post_buffer d, handle_all-ends env d n)
    handle_all-records (ps ∷ pss) env d (h, hs) n =
        let (e, q) =
          handle_all-records pss (store_params ps env) (p.fill_data (write_params ps) d) hs n in
        (e, rw (handler-params ps env d h) q)

    responded-true :
        (r : Bool × Request) (q : Request) (d : p.Data)
        → r.0 ≡ true
        → responded p decode table w r (serving q d) ≡ some (true, done_with r.1 d)
    unfolding complete_request
    responded-true (true, q') q d h = refl
    responded-true (false, q') q d h = cc

    answer-serve :
        (r : Bool × Request) (q : Request) (d : p.Data)
        → (complete decode table w r).0 ≡ true
        → continue_with p decode table w (after_job p decode table w) (
            continue_with p decode table w
              (handle_all p decode table w [])
              (responded p decode table w r (serving q d)))
          ≡ some (true, done_with (complete decode table w r).1 d)
    unfolding handle_all after_job handler complete_request
    answer-serve (true, q') q d h = refl
    answer-serve (false, q') q d h =
        in_role-served own_message (serving (run_job decode table w q') d)
        ∙ responded-true (response decode table w (run_job decode table w q'))
            (run_job decode table w q') d h

    -- If the role is not that of a filter: the parameters of a request with any method but POST, written
    -- to records that hold one parameter at least each, of names and values that can be written, and the
    -- two empty records behind them, followed by the job and its message if the request is not done
    -- before, leave the request done with an END_REQUEST record, and what was sent and logged for it is
    -- what `serve` gives for the parameters stored one after the other.
    pub records-serve :
        (pss : List (List Param))
        → AreRecords pss
        → (stored_all pss new_environment).request_method ≢ post_method
        → (d : p.Data) × (continue_with p decode table w
              (after_job p decode table w)
              (handle_all p decode table w (records_of pss) (new_connection p role 0))
            ≡ some (true, done_with (serve decode table w (stored_all pss new_environment)).1 d))
    unfolding serve
    records-serve pss h n =
        let env = stored_all pss new_environment in
        let (d, q) = handle_all-records pss new_environment (p.clear_post_buffer p.new_data) h n in
        (
          d,
          ap (continue_with p decode table w (after_job p decode table w)) q
              ∙ answer-serve (response decode table w (new_request env)) (new_request env) d
                  (serve-Served decode table w env).0,
        )
