-- ===== src/Common/Message/Structures.antt =====
-- src/nasdaq_protocols/common/message/structures.py: records, records with a present bit, arrays.
pub mod Wire
pub mod Returns
pub mod Elementary
pub mod RoundTrip
-- A value of the wrong Python type raises AttributeError or TypeError, whichever operation meets it
-- first: both are `type_error` here.
use mathlib.Core.Logic.{ite}
use text.Mathlib.Text.{◌==◌}
use Prim.Native.String.{String}
use nasdaq_protocols.Prelude.{
  ℕ, zero, suc, ◌+◌, Bool, true, false, not, Option, none, some, List, [], ◌∷◌, ◌++◌, if◌then◌else◌,
  ℤ, pos, negsuc, ◌+ℤ◌, Result, ok, raised, Error, type_error, index_error, ◌>>=◌, length,
}
use nasdaq_protocols.Python.Bytes.{Bytes}
use nasdaq_protocols.Python.Text.{Str, Encoding}
use nasdaq_protocols.Common.Message.Types
use nasdaq_protocols.Common.Message.Types.{IntType, FixedString, from_index}

-- The Python values of fields. A record holds its `values` dict, in insertion order.
mutual
  pub data Value : Type 0 where
    absent : Value
    bool : Bool → Value
    int : ℤ → Value
    str : Str → Value
    list : Values → Value
    record_of : Entries → Value

  pub data Values : Type 0 where
    nil : Values
    cons : Value → Values → Values

  pub data Entries : Type 0 where
    end : Entries
    entry : String → Value → Entries → Entries

-- The type of a field, and the `Fields` of a record class: name, type and default value.
mutual
  pub data FieldType : Type 0 where
    boolean : FieldType
    integer : IntType → FieldType
    char : Encoding → FieldType
    string : Encoding → FieldType
    fixed_string : FixedString → FieldType
    plain_record : Fields → FieldType
    optional_record : Fields → FieldType
    array : FieldType → IntType → FieldType

  pub data Fields : Type 0 where
    no_fields : Fields
    field : String → FieldType → Value → Fields → Fields

unfoldable pub get_entry : String → Entries → Option Value
get_entry name end = none
get_entry name (entry n v es) = if n == name then some v else get_entry name es

-- values[name] = v
unfoldable pub set_entry : String → Value → Entries → Entries
set_entry name v end = entry name v end
set_entry name v (entry n w es) =
    if n == name then entry n v es else entry n w (set_entry name v es)

abbrev pub filled : String → Option Value → Option Value → Entries → Entries
filled name (some v) fresh es = es
filled name none (some r) es = set_entry name r es
filled name none none es = es

-- The class attribute `default_value` of a type.
unfoldable pub type_default : FieldType → Value
type_default boolean = bool false
type_default (integer t) = int (pos 0)
type_default (char e) = str (32 ∷ [])
type_default (string e) = str []
type_default (fixed_string t) = str []
type_default (plain_record fs) = absent
type_default (optional_record fs) = absent
type_default (array t n) = list nil

abbrev pub default_value : FieldType → Value → Value
default_value t absent = type_default t
default_value t default_ = default_

abbrev pub or_default : FieldType → Value → Option Value → Value
or_default t default_ (some v) = v
or_default t default_ none = default_value t default_

-- `IndexedFields`, a dict by name, in which the last field of a name stands
unfoldable pub indexed : String → Fields → Option (FieldType × Value)
indexed name no_fields = none
indexed name (field n t d fs) = elim (indexed name fs) [
  | some found ↦ some found
  | none ↦ if n == name then some (t, d) else none
]

-- `get_field_value` of a record object with these values
abbrev pub value_of_field : String → Entries → Option (FieldType × Value) → Result Value
value_of_field name es none = raised type_error
value_of_field name es (some (t, default_)) = ok (or_default t default_ (get_entry name es))

unfoldable pub get_field_value : Fields → String → Entries → Result Value
unfolding indexed
get_field_value fs name es = value_of_field name es (indexed name fs)

-- bool(x)
unfoldable pub truthy : Value → Bool
truthy absent = false
truthy (bool b) = b
truthy (int (pos zero)) = false
truthy (int z) = true
truthy (str []) = false
truthy (str s) = true
truthy (list nil) = false
truthy (list vs) = true
truthy (record_of es) = true

abbrev pub Packed : Type 0
Packed = Result (ℕ × Bytes)

-- sum(segments[0]), b''.join(segments[1])
abbrev pub join : ℕ × Bytes → ℕ × Bytes → ℕ × Bytes
join (n, bs) (m, cs) = (n + m, bs ++ cs)

unfoldable pub pack_items : (Value → Packed) → Values → Packed
pack_items pack nil = ok (0, [])
pack_items pack (cons v vs) = do first ← pack v; rest ← pack_items pack vs; ok (join first rest)

abbrev pub count : Values → ℕ
count nil = 0
count (cons v vs) = suc (count vs)

abbrev pub as_int : Value → Result ℤ
as_int (int z) = ok z
as_int (bool true) = ok (pos 1)
as_int (bool false) = ok (pos 0)
as_int v = raised type_error

abbrev pub as_str : Value → Result Str
as_str (str s) = ok s
as_str v = raised type_error

abbrev pub as_entries : Value → Result Entries
as_entries (record_of es) = ok es
as_entries v = raised type_error

abbrev pub as_values : Value → Result Values
as_values (list vs) = ok vs
as_values v = raised type_error

-- `segments[0]` of no segments
abbrev pub some_fields : Fields → Result (Unit {0})
some_fields no_fields = raised index_error
some_fields fs = ok tt

-- A record with a present bit: absent, or empty, is one zero byte.
abbrev pub present_entries : Value → Result (Option Entries)
present_entries absent = ok none
present_entries (record_of end) = ok none
present_entries (record_of es) = ok (some es)
present_entries v = raised type_error

abbrev pub pack_present : (Entries → Packed) → Option Entries → Packed
pack_present pack none = ok (Types.pack_bool false)
pack_present pack (some es) = do body ← pack es; ok (join (Types.pack_bool true) body)

abbrev pub pack_array : IntType → (Value → Packed) → Value → Packed
pack_array n pack v = do
  vs ← as_values v
  head ← Types.pack_int n (pos (count vs))
  items ← pack_items pack vs
  ok (join head items)

-- `to_bytes` of each type. `fields_to_bytes all` walks the fields of the record class `all`. An
-- array of records with a present bit packs its items without the bit.
unfoldable mutual
  pub to_bytes : FieldType → Value → Packed
  to_bytes boolean v = ok (Types.pack_bool (truthy v))
  to_bytes (integer t) v = do z ← as_int v; Types.pack_int t z
  to_bytes (char e) v = do s ← as_str v; Types.pack_char e s
  to_bytes (string e) v = do s ← as_str v; Types.pack_string e s
  to_bytes (fixed_string t) v = do s ← as_str v; Types.pack_fixed t s
  to_bytes (plain_record fs) v = some_fields fs >>= λ _. fields_to_bytes fs fs v
  to_bytes (optional_record fs) v = do
    es ← present_entries v
    pack_present (λ es. some_fields fs >>= λ _. fields_to_bytes fs fs (record_of es)) es
  to_bytes (array (optional_record fs) n) v =
      pack_array n (λ x. some_fields fs >>= λ _. fields_to_bytes fs fs x) v
  to_bytes (array t n) v = pack_array n (to_bytes t) v

  pub fields_to_bytes : Fields → Fields → Value → Packed
  fields_to_bytes no_fields all v = ok (0, [])
  fields_to_bytes (field name t d fs) all v = do
    es ← as_entries v
    x ← get_field_value all name es
    first ← to_bytes t x
    rest ← fields_to_bytes fs all v
    ok (join first rest)

abbrev pub Unpacked : Type 0
Unpacked = Result (ℤ × Value)

abbrev pub wrap {ℓ} : {A : Type ℓ} → (A → Value) → ℤ × A → Unpacked
wrap f (n, a) = ok (n, f a)

-- The loop of `Array.from_bytes` over `range(len_)`: so many items, from an offset on.
unfoldable pub unpack_items : (Bytes → Unpacked) → ℕ → Bytes → ℤ → Result (ℤ × Values)
unpack_items unpack zero bs offset = ok (offset, nil)
unpack_items unpack (suc k) bs offset = do
  (n, v) ← unpack (from_index offset bs)
  (end_, vs) ← unpack_items unpack k bs (offset +ℤ n)
  ok (end_, cons v vs)

abbrev pub range_length : ℤ → ℕ
range_length (pos n) = n
range_length (negsuc n) = 0

abbrev pub unpack_array : IntType → (Bytes → Unpacked) → Bytes → Unpacked
unpack_array n unpack bs =
    let (offset, len_) = Types.unpack_int n bs in
    do (end_, vs) ← unpack_items unpack (range_length len_) bs offset; ok (end_, list vs)

-- `init_values` and `__attrs_post_init__`: an empty record for each field that is a record and has
-- no value. (The fields of that record that are records are filled in the same way.)
unfoldable mutual
  pub new_record : FieldType → Option Value
  new_record (plain_record fs) = some (record_of (fill_records fs end))
  new_record (optional_record fs) = some (record_of (fill_records fs end))
  new_record t = none

  pub fill_records : Fields → Entries → Entries
  fill_records no_fields es = es
  fill_records (field name t d fs) es =
      fill_records fs (filled name (get_entry name es) (new_record t) es)

-- `from_bytes` of each type; `fields_from_bytes` is the loop of `Record.from_bytes`.
unfoldable mutual
  pub from_bytes : FieldType → Bytes → Unpacked
  from_bytes boolean bs = wrap bool (Types.unpack_bool bs)
  from_bytes (integer t) bs = wrap int (Types.unpack_int t bs)
  from_bytes (char e) bs = Types.unpack_char e bs >>= wrap str
  from_bytes (string e) bs = Types.unpack_string e bs >>= wrap str
  from_bytes (fixed_string t) bs = Types.unpack_fixed t bs >>= wrap str
  from_bytes (plain_record fs) bs =
      fields_from_bytes fs bs (pos 0) end >>= wrap (λ es. record_of (fill_records fs es))
  from_bytes (optional_record fs) bs =
      let (offset, present) = Types.unpack_bool bs in
      if present
      then (do
        (n, es) ← fields_from_bytes fs (from_index offset bs) (pos 0) end
        ok (offset +ℤ n, record_of (fill_records fs es)))
      else ok (pos 1, absent)
  from_bytes (array (optional_record fs) n) bs =
      unpack_array n
        (λ cs. fields_from_bytes fs cs (pos 0) end >>= wrap (λ es. record_of (fill_records fs es)))
        bs
  from_bytes (array t n) bs = unpack_array n (from_bytes t) bs

  pub fields_from_bytes : Fields → Bytes → ℤ → Entries → Result (ℤ × Entries)
  fields_from_bytes no_fields bs offset es = ok (offset, es)
  fields_from_bytes (field name t d fs) bs offset es = do
    (n, v) ← from_bytes t (from_index offset bs)
    fields_from_bytes fs bs (offset +ℤ n) (set_entry name v es)
