-- ===== src/Fix/Parser/Contexts.antt =====
-- src/nasdaq_protocols/fix/parser/definitions.py: what the definitions hand to the templates of the
-- code generator. The contexts of groups are collected in a global list, under names that are counted.
pub mod Repeated
use Prim.Native.String.{String}
use nasdaq_protocols.Prelude.{
  ℕ, ◌+◌, Bool, true, false, Option, none, some, List, [], ◌∷◌, ◌++◌, if◌then◌else◌, pos, Result,
  ok, raised,
}
use nasdaq_protocols.Python.Text.{Str, codes, str_equal}
use nasdaq_protocols.Python.Decimal.{str_int}
use nasdaq_protocols.Python.Dict.{Dict, find, put, values}
use nasdaq_protocols.Fix.Types.{
  FixType, fix_string, fix_bool, fix_int, fix_float, fix_char, fix_multiple_value_string,
  fix_currency, fix_exchange, fix_utc_timestamp, fix_utc_time, fix_local_mkt_date, fix_tz_time,
  fix_tz_timestamp, fix_utc_time_only, fix_tz_timeonly, fix_quantity, fix_price, fix_price_offset,
  fix_amount, fix_day_of_month, base,
}
use nasdaq_protocols.Fix.Parser.{
  FieldDef, Entry, Entries, field, group, no_entries, entry, Message, Definitions, client_session,
}

-- The name of a class, and its attributes `hint` and `type_cls in [str, bool]`.
abbrev pub class_name : FixType → Str
class_name fix_string = codes "FixString"
class_name fix_bool = codes "FixBool"
class_name fix_int = codes "FixInt"
class_name fix_float = codes "FixFloat"
class_name fix_char = codes "FixChar"
class_name fix_multiple_value_string = codes "FixMultipleValueString"
class_name fix_currency = codes "FixCurrency"
class_name fix_exchange = codes "FixExchange"
class_name fix_utc_timestamp = codes "FixUTCTimeStamp"
class_name fix_utc_time = codes "FixUTCTime"
class_name fix_local_mkt_date = codes "FixLocalMktDate"
class_name fix_tz_time = codes "FixTzTime"
class_name fix_tz_timestamp = codes "FixTzTimestamp"
class_name fix_utc_time_only = codes "FixUTCTimeOnly"
class_name fix_tz_timeonly = codes "FixTzTimeonly"
class_name fix_quantity = codes "FixQuantity"
class_name fix_price = codes "FixPrice"
class_name fix_price_offset = codes "FixPriceOffset"
class_name fix_amount = codes "FixAmount"
class_name fix_day_of_month = codes "FixDayOfMonth"

abbrev pub base_hint : FixType → Str
base_hint fix_bool = codes "bool"
base_hint fix_int = codes "int"
base_hint fix_float = codes "float"
base_hint _ = codes "str"

abbrev pub is_quoted : FixType → Bool
is_quoted fix_int = false
is_quoted fix_float = false
is_quoted _ = true

-- keyword.kwlist
abbrev pub keywords : List String
keywords =
    "False" ∷ "None" ∷ "True" ∷ "and" ∷ "as" ∷ "assert" ∷ "async" ∷ "await" ∷ "break" ∷ "class"
    ∷ "continue" ∷ "def" ∷ "del" ∷ "elif" ∷ "else" ∷ "except" ∷ "finally" ∷ "for" ∷ "from"
    ∷ "global" ∷ "if" ∷ "import" ∷ "in" ∷ "is" ∷ "lambda" ∷ "nonlocal" ∷ "not" ∷ "or" ∷ "pass"
    ∷ "raise" ∷ "return" ∷ "try" ∷ "while" ∷ "with" ∷ "yield" ∷ []

abbrev pub is_among : Str → List String → Bool
is_among s [] = false
is_among s (k ∷ ks) = if str_equal s (codes k) then true else is_among s ks

-- f'{s}'
abbrev pub shown : Option Str → Str
shown none = codes "None"
shown (some s) = s

abbrev pub value_shown : Option Str → Str
value_shown none = codes "None"
value_shown (some s) = if is_among s keywords then s ++ codes "_" else s

pub record ValueContext : Type 0 where
  pub f_name : Option Str
  pub f_value : Str
  pub quote : Bool

-- `FieldDef._values_ctx`
unfoldable pub values_ctx : FixType → Dict (Option Str) → List ValueContext
values_ctx t [] = []
values_ctx t ((key, value) ∷ rest) =
    record { f_name = key; f_value = value_shown value; quote = is_quoted (base t) }
    ∷ values_ctx t rest

pub record FieldContext : Type 0 where
  pub tag : Option Str
  pub name : Option Str
  pub type_name : Str
  pub type_hint : Str
  pub values : List ValueContext

unfoldable pub field_context : FieldDef → FieldContext
unfolding values_ctx
field_context f = record {
  tag = f.tag;
  name = f.name;
  type_name = class_name f.field_type;
  type_hint = base_hint (base f.field_type);
  values = values_ctx f.field_type f.possible_values;
}

mutual
  pub data EntryContext : Type 0 where
    field_entry : Str → FieldContext → EntryContext
    -- required, name, unique name, entries
    group_entry : Str → Option Str → Str → EntryContexts → EntryContext

  pub data EntryContexts : Type 0 where
    no_contexts : EntryContexts
    context : EntryContext → EntryContexts → EntryContexts

pub record GroupContext : Type 0 where
  pub name : Option Str
  pub unique_name : Str
  pub entries : EntryContexts

-- Group.Contexts and Group.UniqueNameCounter, the next number of each name that is in use
pub record Groups : Type 0 where
  pub contexts : List GroupContext
  pub counts : Dict ℕ

-- next(Group.UniqueNameCounter[name])
abbrev pub count_or_one : Option ℕ → ℕ
count_or_one none = 1
count_or_one (some n) = n

abbrev pub next_count : Option Str → Groups → ℕ
next_count name s = count_or_one (find name s.counts)

abbrev pub counted : Option Str → Groups → Groups
counted name s = record s { counts = put name (next_count name s + 1) s.counts }

abbrev pub unique_name : Option Str → Groups → Str
unique_name name s = shown name ++ codes "_" ++ str_int (pos (next_count name s))

-- Group.Contexts.append(...)
abbrev pub group_added : Option Str → Str → EntryContexts × Groups → Groups
group_added name unique (es, s) = record s {
  contexts = s.contexts ++ record { name = name; unique_name = unique; entries = es } ∷ [];
}

abbrev pub required_shown : Bool → Str
required_shown true = codes "True"
required_shown false = codes "False"

-- `get_codegen_context` of `Field` and `Group`, and of their lists
unfoldable mutual
  unfolding field_context

  pub entry_context : Entry → Groups → EntryContext × Groups
  entry_context (field f required) s = (field_entry (required_shown required) (field_context f), s)
  entry_context (group name required es) s =
      let first = entry_contexts es (counted name s) in
      let again = entry_contexts es first.1 in
      (
        group_entry (required_shown required) name (unique_name name s) first.0,
        group_added name (unique_name name s) again,
      )

  pub entry_contexts : Entries → Groups → EntryContexts × Groups
  entry_contexts no_entries s = (no_contexts, s)
  entry_contexts (entry e es) s =
      let first = entry_context e s in
      let rest = entry_contexts es first.1 in (context first.0 rest.0, rest.1)

pub record MessageContext : Type 0 where
  pub tag : Option Str
  pub name : Option Str
  pub category : Option Str
  pub body_name : Str
  pub entries : EntryContexts

unfoldable pub message_contexts : List Message → Groups → List MessageContext × Groups
unfolding entry_context
message_contexts [] s = ([], s)
message_contexts (m ∷ ms) s =
    let first = entry_contexts m.entries s in
    let rest = message_contexts ms first.1 in
    let c : MessageContext = record {
      tag = m.tag;
      name = m.name;
      category = m.category;
      body_name = shown m.name ++ codes "Body";
      entries = first.0;
    } in
    (c ∷ rest.0, rest.1)

abbrev pub field_contexts : List FieldDef → List FieldContext
field_contexts [] = []
field_contexts (f ∷ fs) = field_context f ∷ field_contexts fs

-- The bodies are those of the header, the trailer and the messages.
pub record Context : Type 0 where
  pub client_session : Str
  pub fields : List FieldContext
  pub header : EntryContexts
  pub trailer : EntryContexts
  pub messages : List MessageContext
  pub groups : List GroupContext

abbrev pub context_of :
    Definitions → List MessageContext × Groups → Result Str → Result Context × Groups
context_of defs (ms, s) (raised e) = (raised e, s)
context_of defs (ms, s) (ok session) =
    let header = entry_contexts defs.header s in
    let trailer = entry_contexts defs.trailer header.1 in
    (
      ok (record {
        client_session = session;
        fields = field_contexts (values defs.fields);
        header = header.0;
        trailer = trailer.0;
        messages = ms;
        groups = trailer.1.contexts;
      }),
      trailer.1,
    )

-- `Definitions.get_codegen_context`, with the globals before and after it
unfoldable pub codegen_context : Definitions → Groups → Result Context × Groups
unfolding message_contexts
codegen_context defs s =
    context_of defs (message_contexts defs.messages s) (client_session defs.version)
