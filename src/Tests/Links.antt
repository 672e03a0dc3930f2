-- ===== src/Tests/Links.antt =====
-- The link of an item of the collection page, on concrete inputs.
use simurga.Base.{◌≡◌, refl, some, [], codes, ok, arith}
use simurga.Daemon.Links.{
  link_tokens, params_of, page_object, not_found_page, serve-link, serve-link_missing,
}
use simurga.Daemon.{message, serve}
use simurga.Dict.{lookup, insert}
use simurga.Pages.Handlers.{collection_item, show_model}
use simurga.Pages.Ids.{IsColor}
use simurga.Pages.World.{CollectionView}
use simurga.Service.Escapes.{percent_escaped_to_real_bytes, decode-kept}
use simurga.Service.Handle.{settle}
use simurga.Service.Routes.{standard_objects}
use simurga.Service.{Environment, get_method}
use simurga.Template.Arguments.{get_variable}
use simurga.Template.Parser.{done, parse, next_token}
use simurga.Template.Render.{yield_tokens}
use simurga.Tests.Requests.{world}
use simurga.Text.Decimal.{to_string}
use simurga.Text.{equal, find}

abbrev view : CollectionView
view = record {
  model_id = 12;
  color_name = codes "red";
  title = codes "Coat";
  price = 120050;
  special_price = some 99900;
}

abbrev link_request : Environment
link_request = record {
  request_method = get_method;
  request_uri = codes "/model/12-red";
  root = codes "/www";
}

view-IsColor : IsColor view.color_name
view-IsColor = record { named = λ p. cc; plain = (refl, (refl, (refl, tt))) }

-- The link in the template's text is these tokens, and the page shows this text for the item.
link-parse : parse (codes "/model/<%model_id%>-<%color_name%>") ≡ done link_tokens
unfolding parse next_token find
link-parse = refl

link-yield : yield_tokens [] (some (collection_item view)) link_tokens ≡ ok link_request.request_uri
unfolding yield_tokens get_variable lookup insert equal to_string
link-yield = refl

serve-link_example :
    (serve percent_escaped_to_real_bytes standard_objects world link_request).1.out
    ≡ message get_method (
        settle world (
          show_model world
            (params_of view)
            (page_object world percent_escaped_to_real_bytes decode-kept link_request view)))
serve-link_example =
    serve-link world percent_escaped_to_real_bytes decode-kept link_request [] view (omega arith)
      view-IsColor refl link-yield

serve-link_missing_example :
    (serve percent_escaped_to_real_bytes standard_objects world link_request).1.out ≡ not_found_page
serve-link_missing_example =
    serve-link_missing world percent_escaped_to_real_bytes decode-kept link_request [] view
      (omega arith) view-IsColor refl link-yield refl
