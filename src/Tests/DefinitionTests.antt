-- ===== src/Tests/DefinitionTests.antt =====
-- The theorems on the message definitions of an application at concrete inputs:
-- common/message/parser.py.
use nasdaq_protocols.Prelude.{
  ◌≡◌, ◌⊎◌, ◌↔◌, refl, true, false, Option, none, some, List, [], ◌∷◌, ok, raised, value_error,
  attribute_error, Succeeds,
}
use nasdaq_protocols.Python.Text.{Str, codes, str_equal}
use nasdaq_protocols.Python.Find.{starts_with, find_sub}
use nasdaq_protocols.Python.Decimal.{is_digit, str_int}
use nasdaq_protocols.Python.Dict.{find}
use nasdaq_protocols.Python.Xml.{Element, Elements, element, no_elements, child, get_attribute, get}
use nasdaq_protocols.Common.Message.Parser.{
  FieldDef, MessageDef, Definitions, parse, parse_element, parse_elements, parse_field,
  parse_fields, parse_messages, message_id, create_msg, collect,
}
use nasdaq_protocols.Common.Message.Parser.Distinct.{
  create_all, Distinct, message_keys, keyed, last_with, parse_messages_lem,
}
use nasdaq_protocols.Common.Message.Context.{
  TypeClasses, type_named, base_named, array_named, field_context, codegen_context, FieldContext,
}
use nasdaq_protocols.Common.Message.Context.Resolved.{NamesAreFound, codegen_context_iff}

abbrev with_id : Str → Str → Elements → Element
with_id name id fields =
    element (codes "message") ((codes "id", name) ∷ (codes "message-id", id) ∷ []) none fields

abbrev price_fields : Elements
price_fields =
    child
      (element (codes "fields") [] none (
        child
          (element (codes "field")
            ((codes "name", codes "levels")
              ∷ (codes "type", codes "int_4")
              ∷ (codes "array", codes "one")
              ∷ (codes "length_type", codes "int_4")
              ∷ [])
            none no_elements)
          no_elements))
      no_elements

abbrev messages_root : Elements
messages_root = child (with_id (codes "Add") (codes "A") price_fields) (
    child (with_id (codes "Delete") (codes "68") no_elements)
      (child (with_id (codes "AddAgain") (codes "A") no_elements) no_elements))

abbrev levels : FieldDef
levels = record {
  name = some (codes "levels");
  field_type = some (codes "int_4");
  ref = none;
  array = some (codes "one");
  length = none;
  default_value = none;
  length_type = some (codes "int_4");
}

abbrev a_message : Str → Str → List FieldDef → MessageDef
a_message name id fields = record {
  name = some name;
  id = id;
  group = none;
  fields = fields;
  direction = none;
}

abbrev the_messages : List MessageDef
the_messages =
    a_message (codes "Add") (codes "65") (levels ∷ [])
    ∷ a_message (codes "Delete") (codes "68") []
    ∷ a_message (codes "AddAgain") (codes "65") []
    ∷ []

created : create_all [] messages_root ≡ ok the_messages
unfolding create_all create_msg message_id parse_fields parse_field get get_attribute str_equal
    is_digit str_int
created = refl

parse_messages_lem_example :
    ((Distinct (message_keys the_messages)
        × (parse_messages [] false messages_root ≡ ok the_messages))
      ⊎ ((Distinct (message_keys the_messages) → ⊥)
          × (parse_messages [] false messages_root ≡ raised value_error)))
    × (es : List MessageDef) × (parse_messages [] true messages_root ≡ ok es)
    × Distinct (message_keys es)
    × ((k : Option Str) → find k (keyed es) ≡ last_with k the_messages)
parse_messages_lem_example = parse_messages_lem [] messages_root the_messages created

abbrev empty_definitions : List MessageDef → Definitions
empty_definitions ms = record { enums = []; records = []; messages = ms }

-- The attribute `message-id` of the last message is absent.
no_id :
    parse false [] (
      element (codes "root") [] none (
        child
          (element
            (codes "messages-root")
            []
            none
            (child (element (codes "message") [] none no_elements) no_elements))
          no_elements))
    ≡ (raised attribute_error, [])
unfolding parse parse_element parse_elements parse_messages collect create_msg message_id get
    get_attribute str_equal
no_id = refl

abbrev int_classes : TypeClasses
int_classes = (some (codes "int_4"), record { class_name = codes "Int"; hint = codes "int" }) ∷ []

abbrev levels_context : FieldContext
levels_context = record {
  name = some (codes "levels");
  type_name = codes "Array(Int, Int)";
  has_default = false;
  default_value = none;
  quote = false;
  hint = codes "list[int]";
}

levels_field : field_context int_classes (empty_definitions []) levels ≡ ok levels_context
unfolding field_context base_named type_named array_named starts_with find_sub find str_equal
levels_field = refl

codegen_context_iff_example :
    Succeeds (codegen_context int_classes (empty_definitions the_messages))
    ↔ NamesAreFound int_classes (empty_definitions the_messages)
codegen_context_iff_example = codegen_context_iff int_classes (empty_definitions the_messages)
