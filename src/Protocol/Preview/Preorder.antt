-- ===== src/Protocol/Preview/Preorder.antt =====
-- The link preview as a search in document order.
use kha_app.Prelude.{
  ◌≡◌, refl, sym, ap, ◌∙◌, inl, inr, Bool-cases, same_text_iff, Bool, true, false, ◌&&◌, Option,
  none, some, List, [], ◌∷◌, ◌++◌, arith, Text, codes, is_empty, same_text, trim_space, map,
  if◌then◌else◌,
}
use kha_app.Prelude.Result.{Result, ok}
use kha_app.Protocol.Preview.{
  Node, Children, node, childless, child, Walk, attr_value, first_child_data, visit, visit_meta,
  walk, walk_children, nothing, preview_in, is_full, resolve_relative_url, property_of, lower_code,
}

-- One node as the switch of the walk sees it.
pub record Item : Type 0 where
  pub is_element : Bool
  pub node_data : Text
  pub attrs : List (Text × Text)
  pub first : Option Text

-- A node before its children, the children in their order.
unfoldable mutual
  pub preorder : Node → List Item
  preorder (node is_element node_data attrs children) =
      record {
        is_element = is_element;
        node_data = node_data;
        attrs = attrs;
        first = first_child_data children;
      }
      ∷ preorder_all children

  pub preorder_all : Children → List Item
  preorder_all childless = []
  preorder_all (child n rest) = preorder n ++ preorder_all rest

abbrev pub visit_item : (Text → Result Text) → Item → Walk → Walk
visit_item resolve i s = visit resolve i.is_element i.node_data i.attrs i.first s

-- Every node is visited, with no early end.
unfoldable pub visit_all : (Text → Result Text) → List Item → Walk → Walk
visit_all resolve [] s = s
visit_all resolve (i ∷ is) s = visit_all resolve is (visit_item resolve i s)

visit_all-append :
    (resolve : Text → Result Text) (is js : List Item) (s : Walk)
    → visit_all resolve (is ++ js) s ≡ visit_all resolve js (visit_all resolve is s)
unfolding visit_all
visit_all-append resolve [] js s = refl
visit_all-append resolve (i ∷ is) js s = visit_all-append resolve is js (visit_item resolve i s)

visit_item-full :
    (resolve : Text → Result Text) (i : Item) (s : Walk)
    → is_full s ≡ true
    → visit_item resolve i s ≡ s
unfolding visit visit_meta
visit_item-full resolve i s h = ground arith

visit_all-full :
    (resolve : Text → Result Text) (is : List Item) (s : Walk)
    → is_full s ≡ true
    → visit_all resolve is s ≡ s
unfolding visit_all
visit_all-full resolve [] s h = refl
visit_all-full resolve (i ∷ is) s h =
    ground (arith, visit_item-full resolve i s h, visit_all-full resolve is s h)

mutual
  unfolding walk preorder visit_all

  walk_lem :
      (resolve : Text → Result Text) (n : Node) (s : Walk)
      → walk resolve n s ≡ visit_all resolve (preorder n) s
  walk_lem resolve (node is_element node_data attrs children) s = elim (Bool-cases (is_full s)) [
    | inl e ↦
        rw e
          (sym (visit_all-full resolve (preorder (node is_element node_data attrs children)) s e))
    | inr e ↦ rw e (walk_children_lem resolve children _)
  ]

  walk_children_lem :
      (resolve : Text → Result Text) (c : Children) (s : Walk)
      → walk_children resolve c s ≡ visit_all resolve (preorder_all c) s
  walk_children_lem resolve childless s = refl
  walk_children_lem resolve (child n rest) s =
      walk_children_lem resolve rest (walk resolve n s)
      ∙ ap (visit_all resolve (preorder_all rest)) (walk_lem resolve n s)
      ∙ sym (visit_all-append resolve (preorder n) (preorder_all rest) s)

-- The first text that is not empty.
abbrev pub or_else : Text → Text → Text
or_else s t = if is_empty s then t else s

unfoldable pub first_filled : (Item → Text) → List Item → Text
first_filled f [] = []
first_filled f (i ∷ is) = or_else (f i) (first_filled f is)

-- The content of a `meta` element with the property.
abbrev pub meta_content : Text → Item → Text
meta_content property i =
    if i.is_element
      && same_text i.node_data (codes "meta")
      && same_text (map lower_code (property_of i.attrs)) property
    then attr_value i.attrs (codes "content")
    else []

abbrev trimmed : Option Text → Text
trimmed none = []
trimmed (some t) = trim_space t

-- The text of a `title` element.
abbrev pub title_text : Item → Text
title_text i = if i.is_element && same_text i.node_data (codes "title") then trimmed i.first else []

abbrev pub image_of : (Text → Result Text) → Item → Text
image_of resolve i = resolve_relative_url resolve (meta_content (codes "og:image") i)

same_text-distinct :
    (p s t : Text) → same_text s t ≡ false → same_text p s ≡ true → same_text p t ≡ false
same_text-distinct p s t h e = rw ((same_text_iff p s).0 e) h

-- The property that the walk compares.
abbrev property_read : Item → Text
property_read i = map lower_code (property_of i.attrs)

meta_not_title :
    (i : Item)
    → same_text i.node_data (codes "meta") ≡ true
    → same_text i.node_data (codes "title") ≡ false
unfolding same_text
meta_not_title i = same_text-distinct i.node_data (codes "meta") (codes "title") refl

title_not_description :
    (i : Item)
    → same_text (property_read i) (codes "og:title") ≡ true
    → same_text (property_read i) (codes "og:description") ≡ false
unfolding same_text
title_not_description i =
    same_text-distinct (property_read i) (codes "og:title") (codes "og:description") refl

title_not_image :
    (i : Item)
    → same_text (property_read i) (codes "og:title") ≡ true
    → same_text (property_read i) (codes "og:image") ≡ false
unfolding same_text
title_not_image i = same_text-distinct (property_read i) (codes "og:title") (codes "og:image") refl

description_not_image :
    (i : Item)
    → same_text (property_read i) (codes "og:description") ≡ true
    → same_text (property_read i) (codes "og:image") ≡ false
unfolding same_text
description_not_image i =
    same_text-distinct (property_read i) (codes "og:description") (codes "og:image") refl

visit_item-title :
    (resolve : Text → Result Text) (i : Item) (s : Walk)
    → (visit_item resolve i s).title ≡ or_else s.title (meta_content (codes "og:title") i)
unfolding visit visit_meta
visit_item-title resolve i s = ground arith

visit_item-description :
    (resolve : Text → Result Text) (i : Item) (s : Walk)
    → (visit_item resolve i s).description
      ≡ or_else s.description (meta_content (codes "og:description") i)
unfolding visit visit_meta
visit_item-description resolve i s = ground (arith, title_not_description i)

visit_item-image_url :
    (resolve : Text → Result Text) (i : Item) (s : Walk)
    → (visit_item resolve i s).image_url ≡ or_else s.image_url (image_of resolve i)
unfolding visit visit_meta resolve_relative_url
visit_item-image_url resolve i s = ground (arith, title_not_image i, description_not_image i)

visit_item-title_fallback :
    (resolve : Text → Result Text) (i : Item) (s : Walk)
    → (visit_item resolve i s).title_fallback ≡ or_else s.title_fallback (title_text i)
unfolding visit visit_meta
visit_item-title_fallback resolve i s = ground (arith, meta_not_title i)

-- What one field is after all the visits, where each visit fills it with a candidate.
visit_all-field :
    (resolve : Text → Result Text) (field : Walk → Text) (f : Item → Text)
    → ((i : Item) (s : Walk) → field (visit_item resolve i s) ≡ or_else (field s) (f i))
    → (is : List Item) (s : Walk)
    → field (visit_all resolve is s) ≡ or_else (field s) (first_filled f is)
unfolding visit_all first_filled
visit_all-field resolve field f h [] s = ground arith
visit_all-field resolve field f h (i ∷ is) s =
    ground (arith, h i s, visit_all-field resolve field f h is (visit_item resolve i s))

walk-field :
    (resolve : Text → Result Text) (field : Walk → Text) (f : Item → Text)
    → ((i : Item) (s : Walk) → field (visit_item resolve i s) ≡ or_else (field s) (f i))
    → (n : Node) → field nothing ≡ []
    → field (walk resolve n nothing) ≡ first_filled f (preorder n)
walk-field resolve field f h n e =
    rw walk_lem (rw (visit_all-field resolve field f h (preorder n) nothing) (rw e refl))

-- The preview of a page holds the first texts in document order that are not empty: the contents
-- of the `meta` elements for og:title (or else the text of a `title` element) and og:description,
-- and the resolved content for og:image. That the walk ends early changes nothing.
pub preview_in_lem :
    (resolve : Text → Result Text) (document : Node)
    → let items = preorder document in
      preview_in resolve (ok document) ≡ record {
        title =
            or_else
              (first_filled (meta_content (codes "og:title")) items)
              (first_filled title_text items);
        description = first_filled (meta_content (codes "og:description")) items;
        image_url = first_filled (image_of resolve) items;
      }
preview_in_lem resolve document =
    rw
      (
        walk-field resolve (λ s. s.title) _ (visit_item-title resolve) document refl,
        walk-field resolve (λ s. s.title_fallback) _ (visit_item-title_fallback resolve) document
            refl,
        walk-field resolve (λ s. s.description) _ (visit_item-description resolve) document refl,
        walk-field resolve (λ s. s.image_url) _ (visit_item-image_url resolve) document refl,
      )
      refl
