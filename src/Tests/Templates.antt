-- ===== src/Tests/Templates.antt =====
-- Runs of the template parser and of the rendering.
use simurga.Base.{
  if◌then◌else◌, ◌≡◌, ◌≢◌, refl, none, some, List, map, [], ◌∷◌, ◌++◌, Bytes, codes, ok,
}
use simurga.Dict.{lookup, insert}
use simurga.Files.{System, regular, directory, read_all}
use simurga.Template.Arguments.{ArgumentList, string_argument, array_argument, Item, get_variable}
use simurga.Template.Loading.{has}
use simurga.Template.Parser.{done, out_of_fuel, parse, next_token, ends_list}
use simurga.Template.Progress.{parse-ne-out_of_fuel}
use simurga.Template.Render.{yield, yield_token, yield_foreach}
use simurga.Template.Rendering.{yield_token-foreach, join}
use simurga.Template.Directory.{AreWritten, load-written}
use simurga.Template.RoundTrip.{parse-source}
use simurga.Template.Source.{
  source_all, IsName, AreWritable, text_ok, variable_ok, foreach_ok, branch_ok, nil_ok, cons_ok,
}
use simurga.Template.Store.{Templates, suffix, get, load, page_template, template_name}
use simurga.Template.{Tokens, text, variable, foreach, branch, nil, cons}
use simurga.Text.{find, trim, equal}

abbrev shop : Tokens
shop = cons (text (codes "Hello ")) (
    cons (variable (codes "name")) (
      cons
        (foreach (codes "items") (cons (variable (codes "title")) nil)
          (cons (text (codes ", ")) nil))
        (cons (branch (codes "sale") (cons (text (codes "!")) nil) nil) nil)))

shop-AreWritable : AreWritable shop
unfolding find
shop-AreWritable = cons_ok (text_ok (λ p. cc) refl) tt (
    cons_ok (variable_ok name (λ p. cc)) tt (
      cons_ok
        (foreach_ok items (cons_ok (variable_ok title (λ p. cc)) tt nil_ok)
          (cons_ok (text_ok (λ p. cc) refl) tt nil_ok))
        tt
        (cons_ok (branch_ok sale (cons_ok (text_ok (λ p. cc) refl) tt nil_ok) nil_ok) tt nil_ok)))
  where
    name : IsName (codes "name")
    name = record { trimmed = record { starts = refl; ends = refl }; closed = refl }

    items : IsName (codes "items")
    items = record { trimmed = record { starts = refl; ends = refl }; closed = refl }

    title : IsName (codes "title")
    title = record { trimmed = record { starts = refl; ends = refl }; closed = refl }

    sale : IsName (codes "sale")
    sale = record { trimmed = record { starts = refl; ends = refl }; closed = refl }

abbrev shop_source : Bytes
shop_source =
    codes "Hello <% name %><%#for items%><%title%><%#sep%>, <%#end%><% #if sale %>!<%#end%>"

parse-shop : parse shop_source ≡ done shop
unfolding parse next_token ends_list find trim
parse-shop = refl

parse-shop_example : parse (source_all shop) ≡ done shop
parse-shop_example = parse-source shop-AreWritable

parse-fuel_example : parse shop_source ≢ out_of_fuel
parse-fuel_example = parse-ne-out_of_fuel shop_source

abbrev two_items : List Item
two_items = ((codes "title", codes "Bag") ∷ []) ∷ ((codes "title", codes "Scarf") ∷ []) ∷ []

abbrev shop_args : ArgumentList
shop_args =
    (codes "name", string_argument (codes "Ann"))
    ∷ (codes "items", array_argument two_items)
    ∷ (codes "sale", string_argument (codes "1"))
    ∷ []

yield-shop : yield shop shop_args ≡ ok (codes "Hello AnnBag, Scarf!")
unfolding yield yield_token yield_foreach get_variable lookup equal
yield-shop = refl

abbrev title_of : Item → Bytes
title_of x = get_variable shop_args (some x) (codes "title") ++ []

foreach_example :
    yield_token shop_args none
      (foreach (codes "items") (cons (variable (codes "title")) nil) (cons (text (codes ", ")) nil))
    ≡ ok (join (codes ", ") (map title_of two_items))
unfolding yield_token lookup equal
foreach_example =
    yield_token-foreach shop_args none (codes "items") (cons (variable (codes "title")) nil)
      (cons (text (codes ", ")) nil) two_items title_of (codes ", ") refl (λ x. refl) refl

-- A directory with one template in it.
abbrev disk : System
disk = record {
  file = λ name. none;
  blocks = λ name. codes "<%a%>" ∷ [];
  dir = λ name. some (
      record { d_name = codes "main.tpl"; d_type = regular }
      ∷ record { d_name = codes ".."; d_type = directory }
      ∷ []);
}

abbrev loaded : Templates
loaded = (codes "main", cons (variable (codes "a")) nil) ∷ []

load-disk : load disk (codes "t") [] ≡ done loaded
unfolding load template_name page_template parse next_token ends_list find trim insert read_all
load-disk = refl

-- A directory with the shop's template in it.
abbrev shop_disk : System
shop_disk = record {
  file = λ name. none;
  blocks = λ name. source_all shop ∷ [];
  dir = λ name. some (record { d_name = codes "shop.tpl"; d_type = regular } ∷ []);
}

shop_disk-AreWritten : AreWritten shop_disk (codes "t") (codes "shop.tpl" ∷ []) (λ n. shop)
unfolding read_all source_all
shop_disk-AreWritten = record { writable = λ n h. shop-AreWritable; content = λ n h. refl }

load-written_example :
    (after : Templates) × (load shop_disk (codes "t") [] ≡ done after)
    × ((n : Bytes)
        → get after n ≡ (if has (n ++ suffix) (codes "shop.tpl" ∷ []) then ok shop else get [] n))
load-written_example = load-written shop_disk (codes "t") (λ n. shop) _ [] refl shop_disk-AreWritten
