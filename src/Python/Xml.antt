-- ===== src/Python/Xml.antt =====
-- What the parsers use of `xml.etree.ElementTree`: elements with a tag, attributes and children.
use nasdaq_protocols.Prelude.{Option, none, some, List, [], ◌∷◌, ◌++◌, if◌then◌else◌}
use nasdaq_protocols.Python.Text.{Str, str_equal}

mutual
  pub data Element : Type 0 where
    -- tag, attributes, text, children
    element : Str → List (Str × Str) → Option Str → Elements → Element

  pub data Elements : Type 0 where
    no_elements : Elements
    child : Element → Elements → Elements

abbrev pub tag_of : Element → Str
tag_of (element tag attributes text children) = tag

abbrev pub text_of : Element → Option Str
text_of (element tag attributes text children) = text

abbrev pub children_of : Element → Elements
children_of (element tag attributes text children) = children

unfoldable pub get_attribute : Str → List (Str × Str) → Option Str
get_attribute key [] = none
get_attribute key ((k, v) ∷ rest) = if str_equal key k then some v else get_attribute key rest

-- element.get(key); an attribute stands once
unfoldable pub get : Str → Element → Option Str
unfolding get_attribute
get key (element tag attributes text children) = get_attribute key attributes

abbrev pub append_elements : Elements → Elements → Elements
append_elements no_elements ys = ys
append_elements (child x xs) ys = child x (append_elements xs ys)

-- The children with a tag; the children of all of several elements.
abbrev pub with_tag : Str → Elements → Elements
with_tag tag no_elements = no_elements
with_tag tag (child x xs) =
    if str_equal tag (tag_of x) then child x (with_tag tag xs) else with_tag tag xs

abbrev pub all_children : Elements → Elements
all_children no_elements = no_elements
all_children (child x xs) = append_elements (children_of x) (all_children xs)

-- element.iter(tag): the element and what is below it, in the order of the document.
unfoldable mutual
  pub iter : Str → Element → List Element
  iter tag (element t attributes text children) =
      let below = iter_elements tag children in
      if str_equal tag t then element t attributes text children ∷ below else below

  pub iter_elements : Str → Elements → List Element
  iter_elements tag no_elements = []
  iter_elements tag (child x xs) = iter tag x ++ iter_elements tag xs
