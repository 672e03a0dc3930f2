-- ===== src/Daemon/Records/Ends.antt =====
-- When `handler` of fastcgipp/src/request.cpp says that a request is done.
use simurga.Base.{
  ◌≡◌, refl, Bool, true, false, ◌||◌, Option, none, some, List, [], ◌∷◌, Bytes, if◌then◌else◌,
  Exception,
}
use simurga.Daemon.{Request}
use simurga.Daemon.Records.{
  Role, responder, authorizer, filter, Phase, params_phase, in_phase, out_phase, Message,
  params_record, in_record, abort_record, other_record, own_message, EndStatus, request_complete,
  unknown_role, Posts, Connection,
}
use simurga.Daemon.Records.Handler.{
  complete_request, caught_by, too_big, exceeds, Handled, filled, on_params, parsed, on_fill,
  responded, at_end_of_input, on_in, on_message, in_role, handler, continue_with, handle_all,
}
use simurga.Pages.World.{World}
use simurga.Service.Params.{fill}
use simurga.Service.Routes.{ObjectTable}
use simurga.Service.{Environment}

abbrev is_abort : Message → Bool
is_abort abort_record = true
is_abort _ = false

abbrev pub has_abort : List Message → Bool
has_abort [] = false
has_abort (m ∷ ms) = is_abort m || has_abort ms

-- After these messages a request goes on, and no END_REQUEST record was sent; or it is done, and one was
-- sent; or it is done without one, since it was aborted; or a record was read behind its end.
pub data Ends (p : Posts) (aborted : Bool) : Handled p → Type 0 where
  unread : Ends p aborted none
  goes_on : {c : Connection p} → aborted ≡ false → c.ended ≡ none → Ends p aborted (some (false, c))
  finished : {c : Connection p} (s : EndStatus) → c.ended ≡ some s → Ends p aborted (some (true, c))
  given_up : {c : Connection p} → aborted ≡ true → c.ended ≡ none → Ends p aborted (some (true, c))

module _ (p : Posts) where
  caught_by-Ends : (e : Exception) (c : Connection p) → Ends p false (caught_by p e c)
  unfolding complete_request
  caught_by-Ends e c = finished request_complete refl

  too_big-Ends : (c : Connection p) → Ends p false (too_big p c)
  unfolding complete_request
  too_big-Ends c = finished request_complete refl

  filled-Ends :
      (s : Bytes) (r : Option Environment) (c : Connection p)
      → c.ended ≡ none
      → Ends p false (filled p s r c)
  filled-Ends s none c h = unread
  filled-Ends s (some env) c h = goes_on refl h

  if-Ends :
      (b : Bool) {x y : Handled p}
      → Ends p false x
      → Ends p false y
      → Ends p false (if b then x else y)
  if-Ends true h k = h
  if-Ends false h k = k

  on_params-Ends :
      (f : Phase) (s : Bytes) (c : Connection p) → c.ended ≡ none → Ends p false (on_params p f s c)
  on_params-Ends params_phase [] c h = if-Ends (exceeds p c) (too_big-Ends c) (goes_on refl h)
  on_params-Ends params_phase (b ∷ s) c h =
      filled-Ends (b ∷ s) (fill (b ∷ s) c.request.environment) c h
  on_params-Ends in_phase s c h = caught_by-Ends _ c
  on_params-Ends out_phase s c h = caught_by-Ends _ c

  on_fill-Ends :
      (d : Option p.Data) (c : Connection p) → c.ended ≡ none → Ends p false (on_fill p d c)
  on_fill-Ends none c h = too_big-Ends c
  on_fill-Ends (some d) c h = goes_on refl h

  module _ (decode : Bytes → Bytes) (table : ObjectTable) (w : World) where
    responded-Ends :
        (r : Bool × Request) (c : Connection p)
        → c.ended ≡ none
        → Ends p false (responded p decode table w r c)
    unfolding complete_request
    responded-Ends (true, q) c h = finished request_complete refl
    responded-Ends (false, q) c h = goes_on refl h

    at_end-Ends :
        (d : Option p.Data) (c : Connection p)
        → c.ended ≡ none
        → Ends p false (at_end_of_input p decode table w d c)
    at_end-Ends none c h = caught_by-Ends _ c
    at_end-Ends (some d) c h = responded-Ends _ _ h

    on_in-Ends :
        (f : Phase) (s : Bytes) (c : Connection p)
        → c.ended ≡ none
        → Ends p false (on_in p decode table w f s c)
    on_in-Ends in_phase [] c h =
        at_end-Ends (parsed p c.request.environment.request_method c.posts) c h
    on_in-Ends in_phase (b ∷ s) c h = on_fill-Ends (p.fill_post_buffer (b ∷ s) c.posts) c h
    on_in-Ends params_phase s c h = caught_by-Ends _ c
    on_in-Ends out_phase s c h = caught_by-Ends _ c

module _ (p : Posts) (decode : Bytes → Bytes) (table : ObjectTable) (w : World) where
  on_message-Ends :
      (m : Message) (c : Connection p)
      → c.ended ≡ none
      → Ends p (is_abort m) (on_message p decode table w m c)
  on_message-Ends (params_record s) c h = on_params-Ends p c.phase s c h
  on_message-Ends (in_record s) c h = on_in-Ends p decode table w c.phase s c h
  on_message-Ends abort_record c h = given_up refl h
  on_message-Ends other_record c h = goes_on refl h
  on_message-Ends own_message c h = responded-Ends p decode table w _ c h

  handler-Ends :
      (m : Message) (c : Connection p)
      → c.ended ≡ none
      → Ends p (is_abort m) (handler p decode table w m c)
  unfolding handler
  handler-Ends m c h = by_role c.role
    where
      by_role : (r : Role) → Ends p (is_abort m) (in_role p decode table w r m c)
      by_role responder = on_message-Ends m c h
      by_role authorizer = on_message-Ends m c h
      by_role filter = finished unknown_role refl

  or-Ends : (x y : Bool) {r : Handled p} → x ≡ false → Ends p y r → Ends p (x || y) r
  or-Ends true y h k = cc
  or-Ends false y h k = k

  continue-Ends :
      (x y : Bool) (next : Connection p → Handled p) {r : Handled p}
      → Ends p x r
      → ((c : Connection p) → c.ended ≡ none → Ends p y (next c))
      → Ends p (x || y) (continue_with p decode table w next r)
  continue-Ends x y next unread k = unread
  continue-Ends x y next (finished s e) k = finished s e
  continue-Ends x y next (given_up e h) k = given_up (rw e refl) h
  continue-Ends x y next (goes_on {c = c} f h) k = or-Ends x y f (k c h)

  -- Whatever records and messages come for a request for which no END_REQUEST record was sent, in
  -- whatever order and whatever they hold, unless one is read behind its end: either the request is not
  -- done, none of them is an abort, and no END_REQUEST record was sent; or it is done, and such a record
  -- was sent, or one of them is an abort and no such record was sent.
  pub handle_all-Ends :
      (ms : List Message) (c : Connection p)
      → c.ended ≡ none
      → Ends p (has_abort ms) (handle_all p decode table w ms c)
  unfolding handle_all
  handle_all-Ends [] c h = goes_on refl h
  handle_all-Ends (m ∷ ms) c h =
      continue-Ends (is_abort m) (has_abort ms) (handle_all p decode table w ms)
        (handler-Ends m c h) (handle_all-Ends ms)
