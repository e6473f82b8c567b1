-- ===== src/Fix/Parser.antt =====
-- src/nasdaq_protocols/fix/parser: the definitions of a FIX version, parsed from an XML tree, and the
-- types of version_types.py.
pub mod Refusal
pub mod Typed
pub mod Contexts
use nasdaq_protocols.Prelude.{
  ℕ, zero, suc, Bool, true, false, ◌||◌, Option, none, some, List, [], ◌∷◌, ◌++◌, if◌then◌else◌,
  Result, ok, raised, value_error, key_error, recursion_error, ◌>>=◌,
}
use nasdaq_protocols.Python.Text.{Str, codes, str_equal}
use nasdaq_protocols.Python.Dict.{Dict, same_name, find, put}
use nasdaq_protocols.Python.Xml.{
  Element, Elements, no_elements, child, tag_of, children_of, get, with_tag, all_children, iter,
}
use nasdaq_protocols.Fix.Types.{
  FixType, fix_string, fix_bool, fix_int, fix_float, fix_char, fix_multiple_value_string,
  fix_currency, fix_exchange, fix_utc_timestamp, fix_local_mkt_date, fix_utc_time_only,
  fix_tz_timeonly, fix_quantity, fix_price, fix_price_offset, fix_amount, fix_day_of_month,
}

-- A dict from texts to classes, the latest entry first.
abbrev pub SupportedTypes : Type 0
SupportedTypes = List (Str × FixType)

abbrev pub fix_42_version_types : SupportedTypes
fix_42_version_types =
    (codes "AMT", fix_amount)
    ∷ (codes "BOOLEAN", fix_bool)
    ∷ (codes "CHAR", fix_char)
    ∷ (codes "CURRENCY", fix_currency)
    ∷ (codes "DATA", fix_string)
    ∷ (codes "DAYOFMONTH", fix_day_of_month)
    ∷ (codes "EXCHANGE", fix_exchange)
    ∷ (codes "FLOAT", fix_float)
    ∷ (codes "INT", fix_int)
    ∷ (codes "LENGTH", fix_int)
    ∷ (codes "LOCALMKTDATE", fix_string)
    ∷ (codes "MONTHYEAR", fix_int)
    ∷ (codes "MULTIPLEVALUESTRING", fix_multiple_value_string)
    ∷ (codes "PRICE", fix_price)
    ∷ (codes "PRICEOFFSET", fix_price_offset)
    ∷ (codes "QTY", fix_quantity)
    ∷ (codes "STRING", fix_string)
    ∷ (codes "UTCDATE", fix_string)
    ∷ (codes "UTCTIMEONLY", fix_utc_time_only)
    ∷ (codes "UTCTIMESTAMP", fix_utc_timestamp)
    ∷ (codes "COUNTRY", fix_string)
    ∷ (codes "PERCENTAGE", fix_float)
    ∷ (codes "LONG", fix_int)
    ∷ []

abbrev pub fix_44_version_types : SupportedTypes
fix_44_version_types =
    (codes "NUMINGROUP", fix_int) ∷ (codes "SEQNUM", fix_int) ∷ fix_42_version_types

abbrev pub fix_50_version_types : SupportedTypes
fix_50_version_types =
    (codes "SEQNUM", fix_int)
    ∷ (codes "NUMINGROUP", fix_int)
    ∷ (codes "MULTIPLECHARVALUE", fix_string)
    ∷ (codes "FIXSTRING", fix_string)
    ∷ fix_42_version_types

abbrev pub fix_502_version_types : SupportedTypes
fix_502_version_types =
    (codes "MULTIPLESTRINGVALUE", fix_multiple_value_string)
    ∷ (codes "TZTIMEONLY", fix_tz_timeonly)
    ∷ (codes "LOCALMKTDATE", fix_local_mkt_date)
    ∷ fix_50_version_types

unfoldable pub get_supported_types : Str → Result SupportedTypes
get_supported_types version =
    if str_equal version (codes "4.2")
    then ok fix_42_version_types
    else if str_equal version (codes "4.4")
    then ok fix_44_version_types
    else if str_equal version (codes "5.0")
    then ok fix_50_version_types
    else if str_equal version (codes "5.0SP2")
    then ok fix_502_version_types
    else raised value_error

-- types[name], where the name may be None
unfoldable pub find_type : SupportedTypes → Option Str → Result FixType
find_type types none = raised key_error
find_type [] (some name) = raised key_error
find_type ((n, t) ∷ types) (some name) =
    if str_equal name n then ok t else find_type types (some name)

-- Attributes that are absent are None.
pub record FieldDef : Type 0 where
  pub tag : Option Str
  pub name : Option Str
  pub field_type : FixType
  pub possible_values : Dict (Option Str)

mutual
  pub data Entry : Type 0 where
    field : FieldDef → Bool → Entry
    group : Option Str → Bool → Entries → Entry

  pub data Entries : Type 0 where
    no_entries : Entries
    entry : Entry → Entries → Entries

abbrev pub append : Entries → Entries → Entries
append no_entries later = later
append (entry e es) later = entry e (append es later)

pub record Message : Type 0 where
  pub tag : Option Str
  pub name : Option Str
  pub category : Option Str
  pub entries : Entries

pub record Definitions : Type 0 where
  pub version : Str
  pub fields : Dict FieldDef
  pub components : Dict Entries
  pub header : Entries
  pub trailer : Entries
  pub messages : List Message

abbrev pub is_required : Element → Bool
is_required x = same_name (get (codes "required") x) (some (codes "Y"))

-- The first of `root.findall('./components/component')` with a name.
abbrev pub named : Option Str → Elements → Option Element
named name no_elements = none
named name (child x xs) = if same_name name (get (codes "name") x) then some x else named name xs

abbrev pub component_elements : Element → Elements
component_elements root =
    with_tag (codes "component") (all_children (with_tag (codes "components") (children_of root)))

-- What a call returns: the definitions, and the entries that it appends to a container.
abbrev pub Parsed : Type 0
Parsed = Result (Definitions × Entries)

abbrev pub field_entry : Definitions → Element → Option FieldDef → Parsed
field_entry defs x none = raised value_error
field_entry defs x (some f) = ok (defs, entry (field f (is_required x)) no_entries)

abbrev pub group_entry : Element → Parsed → Parsed
group_entry x parsed = do
  (defs, es) ← parsed
  ok (defs, entry (group (get (codes "name") x) (is_required x) es) no_entries)

-- definitions.components[comp_name] = container, and its entries
abbrev pub component_added : Option Str → Parsed → Parsed
component_added name parsed = do
  (defs, es) ← parsed
  ok (record defs { components = put name es defs.components }, es)

abbrev pub component_entries :
    (Definitions → Elements → Parsed) → Definitions → Option Element → Option Entries → Parsed
component_entries handle defs found (some es) = ok (defs, es)
component_entries handle defs none none = raised value_error
component_entries handle defs (some x) none =
    component_added (get (codes "name") x) (handle defs (children_of x))

-- `_handle_entry`; `handle` is the call for the entries of a group or component
unfoldable pub handle_entry :
    (Definitions → Elements → Parsed) → Element → Definitions → Element → Parsed
handle_entry handle root defs x =
    if str_equal (tag_of x) (codes "field")
    then field_entry defs x (find (get (codes "name") x) defs.fields)
    else if str_equal (tag_of x) (codes "group")
    then group_entry x (handle defs (children_of x))
    else if str_equal (tag_of x) (codes "component")
    then component_entries handle defs (named (get (codes "name") x) (component_elements root))
        (find (get (codes "name") x) defs.components)
    else ok (defs, no_entries)

-- The entries of a container. `depth` is how many calls inside one another the interpreter allows.
unfoldable pub handle_entries : ℕ → Element → Definitions → Elements → Parsed
handle_entries depth root defs no_elements = ok (defs, no_entries)
handle_entries zero root defs (child x xs) = raised recursion_error
handle_entries (suc depth) root defs (child x xs) = do
  (defs1, es) ← handle_entry (λ d ys. handle_entries depth root d ys) root defs x
  (defs2, more) ← handle_entries (suc depth) root defs1 xs
  ok (defs2, append es more)

-- {v.get('enum'): v.get('description') for v in field.iter('value')}
abbrev pub values_of : List Element → Dict (Option Str) → Dict (Option Str)
values_of [] values = values
values_of (v ∷ vs) values =
    values_of vs (put (get (codes "enum") v) (get (codes "description") v) values)

abbrev pub field_def : Element → FixType → FieldDef
field_def x t = record {
  tag = get (codes "number") x;
  name = get (codes "name") x;
  field_type = t;
  possible_values = values_of (iter (codes "value") x) [];
}

-- definitions.fields[name] = FieldDef(...)
abbrev pub field_added : SupportedTypes → Definitions → Element → Result Definitions
field_added types defs x = do
  t ← find_type types (get (codes "type") x)
  ok (record defs { fields = put (get (codes "name") x) (field_def x t) defs.fields })

unfoldable pub handle_fields : SupportedTypes → Definitions → Elements → Result Definitions
handle_fields types defs no_elements = ok defs
handle_fields types defs (child x xs) = do
  defs' ←
      if str_equal (tag_of x) (codes "field") then field_added types defs x else raised value_error
  handle_fields types defs' xs

-- definitions.messages.append(Message(...))
abbrev pub message_added : Element → Entries → Definitions → Definitions
message_added x es defs =
    let message : Message = record {
      tag = get (codes "msgtype") x;
      name = get (codes "name") x;
      category = get (codes "msgcat") x;
      entries = es;
    } in
    record defs { messages = defs.messages ++ message ∷ [] }

module _ (depth : ℕ) (root : Element) where
  abbrev pub handle_header : Definitions → Elements → Result Definitions
  handle_header defs xs = do
    (defs', es) ← handle_entries depth root defs xs
    ok (record defs' { header = append defs'.header es })

  abbrev pub handle_trailer : Definitions → Elements → Result Definitions
  handle_trailer defs xs = do
    (defs', es) ← handle_entries depth root defs xs
    ok (record defs' { trailer = append defs'.trailer es })

  unfoldable pub handle_messages : Definitions → Elements → Result Definitions
  handle_messages defs no_elements = ok defs
  handle_messages defs (child x xs) = do
    (defs', es) ← handle_entries depth root defs (children_of x)
    handle_messages (message_added x es defs') xs

  -- A component that another one has used is handled again.
  unfoldable pub handle_components : Definitions → Elements → Result Definitions
  handle_components defs no_elements = ok defs
  handle_components defs (child x xs) = do
    (defs', _) ←
        component_added (get (codes "name") x) (handle_entries depth root defs (children_of x))
    handle_components defs' xs

  -- handlers[element.tag](definitions, root, element)
  unfoldable pub handle : SupportedTypes → Definitions → Element → Result Definitions
  handle types defs x =
      if str_equal (tag_of x) (codes "fields")
      then handle_fields types defs (children_of x)
      else if str_equal (tag_of x) (codes "components")
      then handle_components defs (children_of x)
      else if str_equal (tag_of x) (codes "header")
      then handle_header defs (children_of x)
      else if str_equal (tag_of x) (codes "trailer")
      then handle_trailer defs (children_of x)
      else if str_equal (tag_of x) (codes "messages")
      then handle_messages defs (children_of x)
      else raised key_error

  -- list(root)[::-1]: the last child first
  unfoldable pub handle_reversed : SupportedTypes → Definitions → Elements → Result Definitions
  handle_reversed types defs no_elements = ok defs
  handle_reversed types defs (child x xs) = do
    defs' ← handle_reversed types defs xs
    handle types defs' x

abbrev pub new_definitions : Str → Definitions
new_definitions version = record {
  version = version;
  fields = [];
  components = [];
  header = no_entries;
  trailer = no_entries;
  messages = [];
}

-- `parse`, on the root of the tree
unfoldable pub parse : ℕ → Str → Element → Result Definitions
parse depth version root =
    if str_equal (tag_of root) (codes "fix")
    then (do
      types ← get_supported_types version
      handle_reversed depth root types (new_definitions version) (children_of root))
    else raised value_error

-- `Definitions._client_session`
unfoldable pub client_session : Str → Result Str
client_session version =
    if str_equal version (codes "4.4")
    then ok (codes "Fix44Session")
    else if str_equal version (codes "5.0") || str_equal version (codes "5.0SP2")
    then ok (codes "Fix50Session")
    else raised value_error
