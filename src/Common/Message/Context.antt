-- ===== src/Common/Message/Context.antt =====
-- src/nasdaq_protocols/common/message/parser.py: what the definitions hand to the templates of the
-- code generator.
pub mod Resolved
use nasdaq_protocols.Prelude.{
  ℕ, zero, suc, ◌-◌, Bool, true, false, ◌||◌, not, Option, none, some, List, [], ◌∷◌, ◌++◌,
  if◌then◌else◌, length, Result, ok, raised, value_error, key_error, attribute_error, ◌>>=◌,
  map_results,
}
use nasdaq_protocols.Python.Text.{Str, codes, str_equal}
use nasdaq_protocols.Python.Find.{starts_with, find_sub}
use nasdaq_protocols.Python.Dict.{Dict, find, values}
use nasdaq_protocols.Common.Message.Parser.{
  EnumVal, EnumDef, FieldDef, RecordDef, MessageDef, Definitions, shown,
}

-- What the generator reads of a class in TypeDefinition.Definitions.
pub record TypeClass : Type 0 where
  pub class_name : Str
  pub hint : Str

-- TypeDefinition.Definitions, as the modules that are imported have filled it.
abbrev pub TypeClasses : Type 0
TypeClasses = Dict TypeClass

abbrev pub or_raise {ℓ} : {A : Type ℓ} → Option A → Result A
or_raise none = raised key_error
or_raise (some a) = ok a

abbrev pub class_of : TypeClasses → Option Str → Result TypeClass
class_of types name = or_raise (find name types)

-- s.replace(pattern_, ''): `skipped` code points are left out before the next
unfoldable pub without : Str → ℕ → Str → Str
without pattern_ skipped [] = []
without pattern_ (suc skipped) (c ∷ s) = without pattern_ skipped s
without pattern_ zero (c ∷ s) =
    let dropped = without pattern_ (length pattern_ - 1) s in
    let kept = without pattern_ zero s in if starts_with pattern_ (c ∷ s) then dropped else c ∷ kept

-- The type's name in the generated code, and its hint.
abbrev pub Named : Type 0
Named = Str × Str

abbrev pub enum_named : TypeClasses → Str → Option EnumDef → Result Named
enum_named types name none = raised value_error
enum_named types name (some e) = do c ← class_of types e.enum_type; ok (c.class_name, name)

-- A record that is found under a name has this name.
abbrev pub record_named : Option RecordDef → Result Named
record_named none = raised value_error
record_named (some r) = ok (shown r.name, shown r.name)

abbrev pub class_named : TypeClasses → Option Str → Result Named
class_named types name = do c ← class_of types name; ok (c.class_name, c.hint)

unfoldable pub type_named : TypeClasses → Definitions → Str → Result Named
type_named types defs t =
    if starts_with (codes "enum:") t
    then (let name = without (codes "enum:") zero t in
        enum_named types name (find (some name) defs.enums))
    else if starts_with (codes "record:") t
    then record_named (find (some (without (codes "record:") zero t)) defs.records)
    else class_named types (some t)

-- `types_`: exactly one of type and ref is given; a ref that is empty counts as none given.
unfoldable pub base_named : TypeClasses → Definitions → Option Str → Option Str → Result Named
unfolding type_named
base_named types defs none none = raised value_error
base_named types defs (some t) (some r) = raised value_error
base_named types defs none (some []) = raised attribute_error
base_named types defs none (some (c ∷ s)) = ok (c ∷ s, c ∷ s)
base_named types defs (some t) none = type_named types defs t

abbrev pub array_type : Str → Str → Str
array_type endian t = codes "Array(" ++ t ++ codes ", " ++ endian ++ codes ")"

abbrev pub list_hint : Str → Str
list_hint hint = codes "list[" ++ hint ++ codes "]"

-- An array, and an array of arrays.
abbrev pub in_array : Str → Str → Named → Named
in_array array endian (t, hint) =
    if str_equal array (codes "double")
    then (array_type endian (array_type endian t), list_hint (list_hint hint))
    else (array_type endian t, list_hint hint)

unfoldable pub array_named : TypeClasses → Option Str → Option Str → Named → Result Named
array_named types none length_type named = ok named
array_named types (some array) length_type named = do
  endian ← class_of types length_type
  ok (in_array array endian.class_name named)

abbrev pub is_fixed_len_str : Option Str → Bool
is_fixed_len_str none = false
is_fixed_len_str (some t) =
    str_equal t (codes "str_ascii_n") || str_equal t (codes "str_iso-8859-1_n")

abbrev pub is_some {ℓ} : {A : Type ℓ} → Option A → Bool
is_some none = false
is_some (some a) = true

-- part in text
abbrev pub has : Str → Str → Bool
has part s = is_some (find_sub part s)

pub record FieldContext : Type 0 where
  pub name : Option Str
  pub type_name : Str
  pub has_default : Bool
  pub default_value : Option Str
  pub quote : Bool
  pub hint : Str

abbrev pub sized : FieldDef → Str → Str
sized f t =
    if is_fixed_len_str f.field_type
    then t ++ codes "(length=" ++ shown f.length ++ codes ")"
    else t

abbrev pub context_of : FieldDef → Named → FieldContext
context_of f (t, hint) = record {
  name = f.name;
  type_name = sized f t;
  has_default = is_some f.default_value;
  default_value = f.default_value;
  quote = has (codes "Char") (sized f t) || has (codes "String") (sized f t);
  hint = hint;
}

-- `FieldDef.get_codegen_context`, with `_field_context`
unfoldable pub field_context : TypeClasses → Definitions → FieldDef → Result FieldContext
field_context types defs f = do
  base ← base_named types defs f.field_type f.ref
  named ← array_named types f.array f.length_type base
  ok (context_of f named)

pub record EnumContext : Type 0 where
  pub name : Option Str
  pub quote : Bool
  pub values : List (Option Str × Option Str)

abbrev pub enum_values : List EnumVal → List (Option Str × Option Str)
enum_values [] = []
enum_values (v ∷ vs) = (v.name, v.value) ∷ enum_values vs

abbrev pub enum_context : TypeClasses → EnumDef → Result EnumContext
enum_context types e = do
  c ← class_of types e.enum_type
  ok (record {
    name = e.name;
    quote = str_equal c.hint (codes "str");
    values = enum_values e.values;
  })

pub record MessageContext : Type 0 where
  pub name : Option Str
  pub indicator : Str
  pub group : Option Str
  pub fields : List FieldContext
  pub direction : Option Str

abbrev pub message_context : TypeClasses → Definitions → MessageDef → Result MessageContext
message_context types defs m = do
  cs ← map_results (field_context types defs) m.fields
  ok (record {
    name = m.name;
    indicator = m.id;
    group = m.group;
    fields = cs;
    direction = m.direction;
  })

abbrev pub record_context :
    TypeClasses → Definitions → RecordDef → Result (Option Str × List FieldContext)
record_context types defs r = do
  cs ← map_results (field_context types defs) r.fields
  ok (r.name, cs)

pub record Context : Type 0 where
  pub enums : List EnumContext
  pub messages : List MessageContext
  pub records : List (Option Str × List FieldContext)

-- `Definitions.get_codegen_context`
unfoldable pub codegen_context : TypeClasses → Definitions → Result Context
codegen_context types defs = do
  es ← map_results (enum_context types) (values defs.enums)
  ms ← map_results (message_context types defs) defs.messages
  rs ← map_results (record_context types defs) (values defs.records)
  ok (record { enums = es; messages = ms; records = rs })
