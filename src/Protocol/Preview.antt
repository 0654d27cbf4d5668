-- ===== src/Protocol/Preview.antt =====
-- daemon/protocol/linkpreview.go: the walk over a parsed page. `url.Parse`, `ResolveReference`, the
-- HTTP exchange and `html.Parse` are parameters.
pub mod Preorder
use kha_app.Prelude.{
  ℕ, Bool, true, false, not, ◌&&◌, ◌||◌, ◌==◌, ◌+◌, leb, Option, none, some, List, [], ◌∷◌, map,
  Text, codes, is_empty, same_text, trim_space, if◌then◌else◌,
}
use kha_app.Prelude.Result.{Result, ok, err, Outcome}

-- `html.Node`: whether it is an element, its data, its attributes as keys and values, and its
-- children from `FirstChild` on along `NextSibling`.
mutual
  pub data Node : Type 0 where
    node : Bool → Text → List (Text × Text) → Children → Node

  pub data Children : Type 0 where
    childless : Children
    child : Node → Children → Children

pub record LinkPreview : Type 0 where
  pub title : Text
  pub description : Text
  pub image_url : Text

-- The variables that `walk` captures.
pub record Walk : Type 0 where
  pub title : Text
  pub description : Text
  pub image_url : Text
  pub title_fallback : Text

-- `strings.EqualFold` with a lower-case ASCII word that has no k and no s, the letters that a
-- character beyond ASCII folds to.
abbrev pub ascii_lower : ℕ → ℕ
ascii_lower c = if leb 65 c && leb c 90 then c + 32 else c

abbrev pub equal_fold : Text → Text → Bool
equal_fold key name = same_text (map ascii_lower key) name

-- `strings.ToLower`, for a comparison with an ASCII word: beyond ASCII only U+0130 and U+212A have
-- a lower case in ASCII.
abbrev pub lower_code : ℕ → ℕ
lower_code c = if c == 0x130 then b'i' else if c == 0x212A then b'k' else ascii_lower c

unfoldable pub attr_value : List (Text × Text) → Text → Text
attr_value [] name = []
attr_value ((key, val) ∷ attrs) name =
    if equal_fold key name then trim_space val else attr_value attrs name

abbrev pub first_child_data : Children → Option Text
first_child_data childless = none
first_child_data (child (node is_element node_data attrs children) rest) = some node_data

abbrev pub is_full : Walk → Bool
is_full s =
    not (is_empty s.title)
    && not (is_empty s.description)
    && not (is_empty s.image_url)
    && not (is_empty s.title_fallback)

abbrev pub property_of : List (Text × Text) → Text
property_of attrs =
    if is_empty (attr_value attrs (codes "property"))
    then attr_value attrs (codes "name")
    else attr_value attrs (codes "property")

-- `url.Parse` of the value and `ResolveReference` at the base: on an error the value itself.
unfoldable pub resolve_relative_url : (Text → Result Text) → Text → Text
resolve_relative_url resolve value =
    if is_empty value then [] else elim (resolve value) [ err e ↦ value | ok url ↦ url ]

-- The inner switch, on the property in lower case.
unfoldable pub visit_meta : (Text → Result Text) → Text → Text → Walk → Walk
unfolding resolve_relative_url
visit_meta resolve property content s =
    if same_text property (codes "og:title")
    then (if is_empty s.title then record s { title = content } else s)
    else if same_text property (codes "og:description")
    then (if is_empty s.description then record s { description = content } else s)
    else if same_text property (codes "og:image")
    then (if is_empty s.image_url
        then record s { image_url = resolve_relative_url resolve content }
        else s)
    else s

abbrev pub visit_title : Option Text → Walk → Walk
visit_title none s = s
visit_title (some node_data) s =
    if is_empty s.title_fallback then record s { title_fallback = trim_space node_data } else s

-- The outer switch.
unfoldable pub visit :
    (Text → Result Text) → Bool → Text → List (Text × Text) → Option Text → Walk → Walk
unfolding attr_value visit_meta
visit resolve is_element node_data attrs first s =
    if is_element
    then (if same_text node_data (codes "meta")
        then visit_meta resolve (map lower_code (property_of attrs))
            (attr_value attrs (codes "content")) s
        else if same_text node_data (codes "title")
        then visit_title first s
        else s)
    else s

unfoldable mutual
  unfolding visit

  pub walk : (Text → Result Text) → Node → Walk → Walk
  walk resolve (node is_element node_data attrs children) s =
      let after =
        walk_children resolve children
          (visit resolve is_element node_data attrs (first_child_data children) s) in
      if is_full s then s else after

  pub walk_children : (Text → Result Text) → Children → Walk → Walk
  walk_children resolve childless s = s
  walk_children resolve (child n rest) s = walk_children resolve rest (walk resolve n s)

abbrev pub nothing : Walk
nothing = record { title = []; description = []; image_url = []; title_fallback = [] }

abbrev pub no_preview : LinkPreview
no_preview = record { title = []; description = []; image_url = [] }

-- What stands outside: `url.Parse` of the raw URL with the scheme that it finds, a reference
-- resolved at that URL, the request, the response's body and the parsed page.
pub record Web : Type 0 where
  pub parse_scheme : Text → Result Text
  pub resolve : Text → Text → Result Text
  pub new_request : Text → Outcome
  pub get : Text → Result Text
  pub parse_html : Text → Result Node

abbrev pub is_http : Result Text → Bool
is_http (err e) = false
is_http (ok scheme) = same_text scheme (codes "http") || same_text scheme (codes "https")

abbrev pub preview_of : Walk → LinkPreview
preview_of s = record {
  title = if is_empty s.title then s.title_fallback else s.title;
  description = s.description;
  image_url = s.image_url;
}

abbrev page_of : Web → Text → Result Text → Result Node
page_of w raw_url (err e) = err e
page_of w raw_url (ok body) = w.parse_html body

abbrev pub document_of : Web → Text → Result Node
document_of w raw_url = elim (w.new_request raw_url) [
  | some e ↦ err e
  | none ↦ page_of w raw_url (w.get raw_url)
]

abbrev pub preview_in : (Text → Result Text) → Result Node → LinkPreview
preview_in resolve (err e) = no_preview
preview_in resolve (ok document) = preview_of (walk resolve document nothing)

unfoldable pub fetch_link_preview : Web → Text → LinkPreview
unfolding walk
fetch_link_preview w raw_url =
    if is_http (w.parse_scheme raw_url)
    then preview_in (w.resolve raw_url) (document_of w raw_url)
    else no_preview
