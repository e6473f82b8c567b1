-- ===== src/Tests/ParserTests.antt =====
-- The theorems on the parsers of definitions at concrete inputs: fix/parser/parser.py.
use nasdaq_protocols.Prelude.{
  ◌+◌, ◌≡◌, refl, true, none, some, List, [], ◌∷◌, ok, raised, recursion_error, value_error,
  key_error,
}
use nasdaq_protocols.Python.Text.{Str, codes, str_equal}
use nasdaq_protocols.Python.Dict.{same_name, find, put}
use nasdaq_protocols.Python.Xml.{
  Element, element, no_elements, child, children_of, get_attribute, get, iter,
}
use nasdaq_protocols.Fix.Types.{fix_string, fix_int}
use nasdaq_protocols.Fix.Parser.{
  get_supported_types, find_type, FieldDef, Entries, field, group, no_entries, entry, Definitions,
  handle_entry, handle_entries, handle_fields, handle_messages, handle_components, handle,
  handle_reversed, parse, client_session,
}
use nasdaq_protocols.Fix.Parser.Contexts.{Groups, Context, codegen_context}
use nasdaq_protocols.Fix.Parser.Contexts.Repeated.{
  Test, number_of, weight, message_weight, number_of-codegen_context,
}
use nasdaq_protocols.Fix.Parser.Refusal.{Returns, AllFit}
use nasdaq_protocols.Fix.Parser.Typed.{DefinitionsAreTyped, parse-AreTyped}

abbrev named_as : Str → List (Str × Str)
named_as name = (codes "name", name) ∷ (codes "required", codes "Y") ∷ []

abbrev field_of : Str → Element
field_of name = element (codes "field") (named_as name) none no_elements

abbrev a_field_def : Str → Str → Str → Element
a_field_def number name type =
    element (codes "field")
      ((codes "number", number) ∷ (codes "name", name) ∷ (codes "type", type) ∷ []) none no_elements

-- A message with a component, whose group holds a field.
abbrev parties : Element
parties = element (codes "component") (named_as (codes "Parties")) none (
    child
      (element (codes "group") (named_as (codes "NoPartyIDs")) none
        (child (field_of (codes "PartyID")) no_elements))
      no_elements)

abbrev order_tree : Element
order_tree = element (codes "fix") [] none (
    child (element (codes "header") [] none (child (field_of (codes "MsgType")) no_elements)) (
      child
        (element (codes "messages") [] none (
          child
            (element (codes "message")
              ((codes "name", codes "Order")
                ∷ (codes "msgtype", codes "D")
                ∷ (codes "msgcat", codes "app")
                ∷ [])
              none
              (child (element (codes "component") (named_as (codes "Parties")) none no_elements)
                no_elements))
            no_elements))
        (child (element (codes "components") [] none (child parties no_elements)) (
          child
            (element (codes "fields") [] none (
              child (a_field_def (codes "35") (codes "MsgType") (codes "STRING"))
                (child (a_field_def (codes "448") (codes "PartyID") (codes "SEQNUM")) no_elements)))
            no_elements))))

abbrev msg_type : FieldDef
msg_type = record {
  tag = some (codes "35");
  name = some (codes "MsgType");
  field_type = fix_string;
  possible_values = [];
}

abbrev party_id : FieldDef
party_id = record {
  tag = some (codes "448");
  name = some (codes "PartyID");
  field_type = fix_int;
  possible_values = [];
}

abbrev party_entries : Entries
party_entries =
    entry (group (some (codes "NoPartyIDs")) true (entry (field party_id true) no_entries))
      no_entries

abbrev order_definitions : Definitions
order_definitions = record {
  version = codes "4.4";
  fields = (some (codes "MsgType"), msg_type) ∷ (some (codes "PartyID"), party_id) ∷ [];
  components = (some (codes "Parties"), party_entries) ∷ [];
  header = entry (field msg_type true) no_entries;
  trailer = no_entries;
  messages =
      record {
        tag = some (codes "D");
        name = some (codes "Order");
        category = some (codes "app");
        entries = party_entries;
      }
      ∷ [];
}

parsed_order : parse 9 (codes "4.4") order_tree ≡ ok order_definitions
unfolding parse get_supported_types handle_reversed handle handle_fields handle_messages
    handle_components handle_entries handle_entry find_type find put get get_attribute iter
    str_equal
parsed_order = refl

-- SEQNUM is no type of 4.2.
parsed_42 : parse 9 (codes "4.2") order_tree ≡ raised key_error
unfolding parse get_supported_types handle_reversed handle handle_fields find_type find put get
    get_attribute iter str_equal
parsed_42 = refl

order_fits : AllFit order_tree 3 (children_of order_tree)
unfolding get get_attribute str_equal
order_fits = ((tt, tt), (((((tt, tt), tt), tt), tt), ((((tt, tt), tt), tt), (tt, tt))))

parse-AreTyped_example :
    Returns (DefinitionsAreTyped (codes "4.4")) (parse 3 (codes "4.4") order_tree)
parse-AreTyped_example = parse-AreTyped 3 (codes "4.4") order_tree order_fits

-- A component that holds itself.
abbrev looping_tree : Element
looping_tree = element (codes "fix") [] none (
    child
      (element (codes "components") [] none (
        child
          (element (codes "component") (named_as (codes "Parties")) none (
            child (element (codes "component") (named_as (codes "Parties")) none no_elements)
              no_elements))
          no_elements))
      no_elements)

looping : parse 9 (codes "4.4") looping_tree ≡ raised recursion_error
unfolding parse get_supported_types handle_reversed handle handle_components handle_entries
    handle_entry find_type find put get get_attribute str_equal
looping = refl

no_session : client_session (codes "4.2") ≡ raised value_error
unfolding client_session str_equal
no_session = refl

-- A group in a group: the inner one is listed twice.
abbrev nested_definitions : Definitions
nested_definitions = record order_definitions {
  trailer = entry (group (some (codes "NoSides")) true party_entries) no_entries;
}

abbrev no_groups : Groups
no_groups = record { contexts = []; counts = [] }

a_session : client_session (codes "4.4") ≡ ok (codes "Fix44Session")
unfolding client_session str_equal
a_session = refl

abbrev is_party_group : Test
is_party_group name es = same_name name (some (codes "NoPartyIDs"))

number_of-codegen_context_example :
    (c : Context) × ((codegen_context nested_definitions no_groups).0 ≡ ok c)
    × (number_of is_party_group c.groups
        ≡ 0
          + (message_weight is_party_group nested_definitions.messages
              + (weight is_party_group 1 nested_definitions.header
                  + weight is_party_group 1 nested_definitions.trailer)))
number_of-codegen_context_example =
    number_of-codegen_context is_party_group nested_definitions no_groups (codes "Fix44Session")
      a_session

-- One in the message, and twice the one in the trailer's group.
three_party_groups :
    message_weight is_party_group nested_definitions.messages
      + (weight is_party_group 1 nested_definitions.header
          + weight is_party_group 1 nested_definitions.trailer)
    ≡ 3
unfolding weight str_equal
three_party_groups = refl
