-- ===== src/Tests/Signatures.antt =====
-- The templates of image/templates, parsed, checked against what the handlers give them, and rendered.
use simurga.Base.{◌≡◌, refl, true, false, none, some, List, [], ◌∷◌, ◌++◌, Bytes, codes, ok}
use simurga.Dict.{lookup}
use simurga.Pages.Handlers.{collection_args, render}
use simurga.Pages.Signatures.{
  collection_signature, lookbook_signature, static_page_signature, model_signature, of_collection,
  page-render,
}
use simurga.Pages.World.{World, CollectionView}
use simurga.Service.Object.{http_object}
use simurga.Service.{HttpObject, collection}
use simurga.Template.Arguments.{ArgumentList, string_argument}
use simurga.Template.Parser.{done, parse, next_token, ends_list}
use simurga.Template.Render.{yield}
use simurga.Template.Signature.Sound.{check-yield}
use simurga.Template.Signature.{Signature, Fits, check, strict_tokens}
use simurga.Template.Store
use simurga.Template.{Tokens, text, variable, foreach, branch, nil, cons}
use simurga.Tests.Requests.{world, request}
use simurga.Text.{equal, find, trim}

-- image/templates/lookbook.tpl
abbrev lookbook_source : Bytes
lookbook_source =
    codes "\t\t\t<ul class=\"lookbook\">\n<%#for images%>\n\t\t\t\t<li>\n"
    ++ codes "\t\t\t\t\t<a href=\"/contacts\">\n"
    ++ codes "\t\t\t\t\t\t<img src=\"<%image%>\" alt=\"\" />\n\t\t\t\t\t</a>\n\t\t\t\t</li>\n"
    ++ codes "<%#end%>\n\t\t\t</ul>\n"

abbrev pub lookbook_template : Tokens
lookbook_template = cons (text (codes "\t\t\t<ul class=\"lookbook\">\n")) (
    cons
      (foreach (codes "images")
        (cons
          (text (codes "\n\t\t\t\t<li>\n\t\t\t\t\t<a href=\"/contacts\">\n\t\t\t\t\t\t<img src=\""))
          (cons (variable (codes "image"))
            (cons (text (codes "\" alt=\"\" />\n\t\t\t\t\t</a>\n\t\t\t\t</li>\n")) nil)))
        (nil))
      (cons (text (codes "\n\t\t\t</ul>\n")) nil))

parse-lookbook : parse lookbook_source ≡ done lookbook_template
unfolding parse next_token ends_list find trim
parse-lookbook = refl

pub check-lookbook : check lookbook_signature lookbook_template ≡ true
unfolding check lookup equal
check-lookbook = refl

-- image/templates/collection.tpl
abbrev collection_source : Bytes
collection_source =
    codes "<%#for collection%>\n\t\t\t<div class=\"collection\">\n"
    ++ codes "\t\t\t\t<a href=\"/model/<%model_id%>-<%color_name%>\">\n"
    ++ codes
        "\t\t\t\t\t<img src=\"/model/<%model_id%>-<%color_name%>/preview_0.jpg\" width=\"147\" height=\"220\" alt=\"\" />\n"
    ++ codes "\t\t\t\t\t<div class=\"title\"><%title%></div>\n"
    ++ codes "\t\t\t\t\t<div class=\"price<%#if special_price%> strike<%#end%>\"><%price%> "
    ++ (209 ∷ 128 ∷ 209 ∷ 131 ∷ 208 ∷ 177 ∷ [])
    ++ codes ".</div>\n\t\t\t\t</a>\n"
    ++ codes
        "\t\t\t\t<%#if special_price%><div class=\"specialprice\"><%special_price%></div><%#end%>\n"
    ++ codes "\t\t\t</div>\n<%#end%>\n"

abbrev pub collection_template : Tokens
collection_template =
    cons
      (foreach (codes "collection")
        (cons (text (codes "\n\t\t\t<div class=\"collection\">\n\t\t\t\t<a href=\"/model/")) (
          cons (variable (codes "model_id")) (
            cons (text (codes "-")) (
              cons (variable (codes "color_name")) (
                cons (text (codes "\">\n\t\t\t\t\t<img src=\"/model/")) (
                  cons (variable (codes "model_id")) (
                    cons (text (codes "-")) (
                      cons (variable (codes "color_name")) (
                        cons
                          (text (
                            codes "/preview_0.jpg\" width=\"147\" height=\"220\" alt=\"\" />\n"
                            ++ codes "\t\t\t\t\t<div class=\"title\">"))
                          (cons (variable (codes "title")) (
                            cons (text (codes "</div>\n\t\t\t\t\t<div class=\"price")) (
                              cons
                                (branch (codes "special_price") (cons (text (codes " strike")) nil)
                                  (nil))
                                (cons (text (codes "\">")) (
                                  cons (variable (codes "price")) (
                                    cons
                                      (text (
                                        codes " "
                                        ++ (209 ∷ 128 ∷ 209 ∷ 131 ∷ 208 ∷ 177 ∷ [])
                                        ++ codes ".</div>\n\t\t\t\t</a>\n\t\t\t\t"))
                                      (cons
                                        (branch (codes "special_price")
                                          (cons (text (codes "<div class=\"specialprice\">")) (
                                            cons (variable (codes "special_price"))
                                              (cons (text (codes "</div>")) nil)))
                                          (nil))
                                        (cons (text (codes "\n\t\t\t</div>\n")) nil)))))))))))))))))
        (nil))
      (cons (text (codes "\n")) nil)

parse-collection : parse collection_source ≡ done collection_template
unfolding parse next_token ends_list find trim
parse-collection = refl

pub check-collection : check collection_signature collection_template ≡ true
unfolding check lookup equal
check-collection = refl

-- image/templates/static_page.tpl
abbrev static_page_source : Bytes
static_page_source = codes "\t\t\t<div class=\"static\">\n<%body%>\n\t\t\t</div>\n"

abbrev pub static_page_template : Tokens
static_page_template =
    cons (text (codes "\t\t\t<div class=\"static\">\n"))
      (cons (variable (codes "body")) (cons (text (codes "\n\t\t\t</div>\n")) nil))

parse-static_page : parse static_page_source ≡ done static_page_template
unfolding parse next_token ends_list find trim
parse-static_page = refl

pub check-static_page : check static_page_signature static_page_template ≡ true
unfolding check lookup equal
check-static_page = refl

-- The loop of image/templates/model.tpl
abbrev previews_source : Bytes
previews_source =
    codes "<%#for previews%>\n"
    ++ codes
        "\t\t\t\t\t<a class=\"fancybox\" rel=\"group\" href=\"<%big%>\"><img src=\"<%preview%>\" alt=\"Preview <%index%>\" class=\"preview<%index%>\" /></a>\n"
    ++ codes "<%#end%>\n"

abbrev pub previews_template : Tokens
previews_template =
    cons
      (foreach (codes "previews")
        (cons (text (codes "\n\t\t\t\t\t<a class=\"fancybox\" rel=\"group\" href=\"")) (
          cons (variable (codes "big")) (
            cons (text (codes "\"><img src=\"")) (
              cons (variable (codes "preview")) (
                cons (text (codes "\" alt=\"Preview ")) (
                  cons (variable (codes "index")) (
                    cons (text (codes "\" class=\"preview")) (
                      cons (variable (codes "index"))
                        (cons (text (codes "\" /></a>\n")) nil)))))))))
        (nil))
      (cons (text (codes "\n")) nil)

parse-previews : parse previews_source ≡ done previews_template
unfolding parse next_token ends_list find trim
parse-previews = refl

pub check-previews : check model_signature previews_template ≡ true
unfolding check lookup equal
check-previews = refl

-- The price in image/templates/model.tpl
abbrev model_price_source : Bytes
model_price_source =
    codes "<%#if special_price%><span class=\"strike\"><%price%> "
    ++ (209 ∷ 128 ∷ 209 ∷ 131 ∷ 208 ∷ 177 ∷ [])
    ++ codes ".</span> <span class=\"specialprice\"><%special_price%> "
    ++ (209 ∷ 128 ∷ 209 ∷ 131 ∷ 208 ∷ 177 ∷ [])
    ++ codes ".</span><%#else%><%price%> "
    ++ (209 ∷ 128 ∷ 209 ∷ 131 ∷ 208 ∷ 177 ∷ [])
    ++ codes ".<%#end%>\n"

abbrev pub model_price_template : Tokens
model_price_template =
    cons
      (branch (codes "special_price")
        (cons (text (codes "<span class=\"strike\">")) (
          cons (variable (codes "price")) (
            cons
              (text (
                codes " "
                ++ (209 ∷ 128 ∷ 209 ∷ 131 ∷ 208 ∷ 177 ∷ [])
                ++ codes ".</span> <span class=\"specialprice\">"))
              (cons (variable (codes "special_price")) (
                cons
                  (text (codes " " ++ (209 ∷ 128 ∷ 209 ∷ 131 ∷ 208 ∷ 177 ∷ []) ++ codes ".</span>"))
                  nil)))))
        (cons (variable (codes "price"))
          (cons (text (codes " " ++ (209 ∷ 128 ∷ 209 ∷ 131 ∷ 208 ∷ 177 ∷ []) ++ codes ".")) nil)))
      (cons (text (codes "\n")) nil)

parse-model_price : parse model_price_source ≡ done model_price_template
unfolding parse next_token ends_list find trim
parse-model_price = refl

pub check-model_price : check model_signature model_price_template ≡ true
unfolding check lookup equal
check-model_price = refl

-- A loop body that shows a name that no item has.
check-misspelt :
    check lookbook_signature
      (cons (foreach (codes "images") (cons (variable (codes "picture")) nil) nil) nil)
    ≡ false
unfolding check lookup equal
check-misspelt = refl

-- A name that is shown where an #if has asked for it, and one that is always set.
abbrev greeting : Tokens
greeting =
    cons (branch (codes "name") (cons (variable (codes "name")) nil) nil)
      (cons (variable (codes "body")) nil)

abbrev greeting_signature : Signature
greeting_signature = record { texts = codes "body" ∷ []; arrays = [] }

abbrev greeting_args : ArgumentList
greeting_args = (codes "body", string_argument (codes "Hello")) ∷ []

greeting_args-Fits : Fits greeting_signature greeting_args
unfolding lookup equal
greeting_args-Fits = record { texts = ((_, refl), tt); arrays = λ n fs l. cc }

check-greeting : check greeting_signature greeting ≡ true
unfolding check lookup equal
check-greeting = refl

check-yield_example :
    (d : Bytes) × (strict_tokens greeting_args none greeting ≡ some d)
    × (yield greeting greeting_args ≡ ok d)
check-yield_example =
    check-yield greeting_signature greeting_args greeting_args-Fits greeting check-greeting

-- The collection with one row.
abbrev rows : List CollectionView
rows =
    record {
      model_id = 7;
      color_name = codes "red";
      title = codes "Trousers";
      price = 1990;
      special_price = some 990;
    }
    ∷ []

abbrev shop_world : World
shop_world = record world { templates = (codes "collection", collection_template) ∷ [] }

get-collection : Store.get shop_world.templates (codes "collection") ≡ ok collection_template
unfolding Store.get lookup equal
get-collection = refl

abbrev object : HttpObject
object = http_object collection request

page-render_example :
    (d : Bytes) × (strict_tokens (collection_args rows) none collection_template ≡ some d)
    × (render shop_world (codes "collection") (collection_args rows) object ≡ (ok d, object))
page-render_example =
    page-render {w = shop_world} (of_collection rows) get-collection check-collection object
