-- ===== src/Common/Message/Parser.antt =====
-- src/nasdaq_protocols/common/message/parser.py: the message definitions of an application, parsed
-- from an XML tree.
pub mod Distinct
use nasdaq_protocols.Prelude.{
  ℕ, Bool, true, false, ◌&&◌, not, Option, none, some, List, [], ◌∷◌, ◌++◌, if◌then◌else◌, pos,
  Result, ok, raised, value_error, key_error, index_error, type_error, attribute_error, ◌>>=◌,
}
use nasdaq_protocols.Python.Text.{Str, codes, str_equal}
use nasdaq_protocols.Python.Decimal.{is_digit, str_int}
use nasdaq_protocols.Python.Dict.{Dict, is_in, keys, values, find, put}
use nasdaq_protocols.Python.Xml.{
  Element, Elements, no_elements, child, tag_of, text_of, children_of, get,
}

-- Attributes that are absent are None.
pub record EnumVal : Type 0 where
  pub name : Option Str
  pub description : Option Str
  pub value : Option Str

pub record EnumDef : Type 0 where
  pub name : Option Str
  pub enum_type : Option Str
  pub values : List EnumVal

pub record FieldDef : Type 0 where
  pub name : Option Str
  pub field_type : Option Str
  pub ref : Option Str
  pub array : Option Str
  pub length : Option Str
  pub default_value : Option Str
  pub length_type : Option Str

pub record RecordDef : Type 0 where
  pub name : Option Str
  pub fields : List FieldDef

pub record MessageDef : Type 0 where
  pub name : Option Str
  pub id : Str
  pub group : Option Str
  pub fields : List FieldDef
  pub direction : Option Str

pub record Definitions : Type 0 where
  pub enums : Dict EnumDef
  pub records : Dict RecordDef
  pub messages : List MessageDef

abbrev pub enum_val : Element → EnumVal
enum_val x = record {
  name = get (codes "name") x;
  description = get (codes "description") x;
  value = text_of x;
}

abbrev pub enum_vals : Elements → List EnumVal
enum_vals no_elements = []
enum_vals (child x xs) = enum_val x ∷ enum_vals xs

abbrev pub parse_enum : Element → EnumDef
parse_enum x = record {
  name = get (codes "id") x;
  enum_type = get (codes "type") x;
  values = enum_vals (children_of x);
}

-- {_.name: _ for _ in Parser._parse_enums(element)}
abbrev pub parse_enums : Elements → Dict EnumDef → Dict EnumDef
parse_enums no_elements enums = enums
parse_enums (child x xs) enums = parse_enums xs (put (get (codes "id") x) (parse_enum x) enums)

-- element.get(key, default)
abbrev pub get_or : Option Str → Option Str → Option Str
get_or (some a) other = some a
get_or none other = other

abbrev pub renamed : Element → Option FieldDef → Result FieldDef
renamed x none = raised key_error
renamed x (some f) = ok (record f { name = get_or (get (codes "name") x) f.name })

abbrev pub written_field : Element → FieldDef
written_field x = record {
  name = get (codes "name") x;
  field_type = get (codes "type") x;
  ref = get (codes "ref") x;
  array = get (codes "array") x;
  length = get (codes "length") x;
  default_value = get (codes "default") x;
  length_type = get (codes "length_type") x;
}

-- An attribute `def` that is empty counts as absent.
abbrev pub field_named : Dict FieldDef → Element → Option Str → Result FieldDef
field_named known x none = ok (written_field x)
field_named known x (some []) = ok (written_field x)
field_named known x (some (c ∷ s)) = renamed x (find (some (c ∷ s)) known)

-- `_parse_field`; `known` is the global FieldDef.Definitions
unfoldable pub parse_field : Dict FieldDef → Element → Result FieldDef
parse_field known x = field_named known x (get (codes "def") x)

unfoldable pub parse_fields : Dict FieldDef → Elements → Result (List FieldDef)
unfolding parse_field
parse_fields known no_elements = ok []
parse_fields known (child x xs) = do
  f ← parse_field known x
  fs ← parse_fields known xs
  ok (f ∷ fs)

abbrev pub by_name : List FieldDef → Dict FieldDef → Dict FieldDef
by_name [] fields = fields
by_name (f ∷ fs) fields = by_name fs (put f.name f fields)

abbrev pub parse_fielddefs : Dict FieldDef → Elements → Result (Dict FieldDef)
parse_fielddefs known xs = do fs ← parse_fields known xs; ok (by_name fs [])

-- record[0], and its fields
abbrev pub record_fields : Dict FieldDef → Elements → Result (List FieldDef)
record_fields known no_elements = raised index_error
record_fields known (child x xs) = parse_fields known (children_of x)

-- {_.name: _ for _ in Parser._parse_records(element)}
unfoldable pub parse_records : Dict FieldDef → Elements → Dict RecordDef → Result (Dict RecordDef)
parse_records known no_elements records = ok records
parse_records known (child x xs) records = do
  fs ← record_fields known (children_of x)
  let r : RecordDef = record { name = get (codes "id") x; fields = fs }
  parse_records known xs (put r.name r records)

abbrev pub all_digits : Str → Bool
all_digits [] = true
all_digits (c ∷ s) = is_digit c && all_digits s

-- x if x.isdigit() else str(ord(x)), for the digits of ASCII
unfoldable pub message_id : Option Str → Result Str
message_id none = raised attribute_error
message_id (some []) = raised type_error
message_id (some (c ∷ [])) = if is_digit c then ok (c ∷ []) else ok (str_int (pos c))
message_id (some (c ∷ d ∷ s)) = if all_digits (c ∷ d ∷ s) then ok (c ∷ d ∷ s) else raised type_error

-- The fields of a message are below its first child.
abbrev pub message_fields : Dict FieldDef → Elements → Result (List FieldDef)
message_fields known no_elements = ok []
message_fields known (child x xs) = parse_fields known (children_of x)

unfoldable pub create_msg : Dict FieldDef → Element → Result MessageDef
unfolding message_id
create_msg known x = do
  fs ← message_fields known (children_of x)
  id ← message_id (get (codes "message-id") x)
  ok (record {
    name = get (codes "id") x;
    id = id;
    group = get (codes "message-group") x;
    fields = fs;
    direction = get (codes "direction") x;
  })

abbrev pub shown : Option Str → Str
shown none = codes "None"
shown (some s) = s

-- f'{msg.id}-{msg.group}-{msg.direction}'
abbrev pub message_key : MessageDef → Option Str
message_key m = some (m.id ++ codes "-" ++ shown m.group ++ codes "-" ++ shown m.direction)

abbrev pub add_message : Bool → Dict MessageDef → MessageDef → Result (Dict MessageDef)
add_message override_messages messages m =
    if is_in (message_key m) (keys messages) && not override_messages
    then raised value_error
    else ok (put (message_key m) m messages)

unfoldable pub collect :
    Dict FieldDef → Bool → Elements → Dict MessageDef → Result (Dict MessageDef)
collect known override_messages no_elements messages = ok messages
collect known override_messages (child x xs) messages = do
  m ← create_msg known x
  messages' ← add_message override_messages messages m
  collect known override_messages xs messages'

unfoldable pub parse_messages : Dict FieldDef → Bool → Elements → Result (List MessageDef)
parse_messages known override_messages xs = do
  messages ← collect known override_messages xs []
  ok (values messages)

-- The global FieldDef.Definitions, and what `parse` is to return.
pub record Parsing : Type 0 where
  pub known : Dict FieldDef
  pub definitions : Definitions

-- An exception leaves the global as it was.
abbrev pub Step : Type 0
Step = Result (Unit {0}) × Parsing

abbrev pub fielddefs_set : Parsing → Result (Dict FieldDef) → Step
fielddefs_set s (raised e) = (raised e, s)
fielddefs_set s (ok known) = (ok tt, record s { known = known })

abbrev pub records_set : Parsing → Result (Dict RecordDef) → Step
records_set s (raised e) = (raised e, s)
records_set s (ok rs) = (ok tt, record s { definitions = record s.definitions { records = rs } })

abbrev pub messages_set : Parsing → Result (List MessageDef) → Step
messages_set s (raised e) = (raised e, s)
messages_set s (ok ms) = (ok tt, record s { definitions = record s.definitions { messages = ms } })

-- The branches of the loop of `parse`; other elements are passed over.
unfoldable pub parse_element : Bool → Parsing → Element → Step
parse_element override_messages s x =
    if str_equal (tag_of x) (codes "enums-root")
    then (
      ok tt,
      record s { definitions = record s.definitions { enums = parse_enums (children_of x) [] } },
    )
    else if str_equal (tag_of x) (codes "fielddef-root")
    then fielddefs_set s (parse_fielddefs s.known (children_of x))
    else if str_equal (tag_of x) (codes "records-root")
    then records_set s (parse_records s.known (children_of x) [])
    else if str_equal (tag_of x) (codes "messages-root")
    then messages_set s (parse_messages s.known override_messages (children_of x))
    else (ok tt, s)

abbrev pub and_then : Step → (Parsing → Step) → Step
and_then (ok u, s) next = next s
and_then (raised e, s) next = (raised e, s)

unfoldable pub parse_elements : Bool → Parsing → Elements → Step
parse_elements override_messages s no_elements = (ok tt, s)
parse_elements override_messages s (child x xs) =
    and_then (parse_element override_messages s x) λ s'. parse_elements override_messages s' xs

abbrev pub returned : Step → Result Definitions × Dict FieldDef
returned (raised e, s) = (raised e, s.known)
returned (ok u, s) = (ok s.definitions, s.known)

-- `Parser.parse`, on the root of the tree: what it returns, and the global after it
unfoldable pub parse : Bool → Dict FieldDef → Element → Result Definitions × Dict FieldDef
unfolding parse_elements
parse override_messages known root = returned (
    parse_elements override_messages
      (record { known = known; definitions = record { enums = []; records = []; messages = [] } })
      (children_of root))
