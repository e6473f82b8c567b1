-- ===== src/Fix/Access.antt =====
-- `DataSegment` of src/nasdaq_protocols/fix/core.py as a container of fields: keys, values that are
-- set and got, defaults, and `validate`. `Field.Def` is the list of the field classes, the latest
-- first.
pub mod Laws
use nasdaq_protocols.Prelude.{
  ℕ, zero, suc, Bool, true, false, not, ◌&&◌, ◌||◌, Option, none, some, List, [], ◌∷◌, ◌++◌,
  if◌then◌else◌, ℤ, pos, eqb_ℤ, Result, ok, raised, value_error, type_error, key_error, ◌>>=◌,
}
use nasdaq_protocols.Python.Text.{Str, str_equal}
use nasdaq_protocols.Python.Decimal.{is_digit, parse_int}
use nasdaq_protocols.Fix.Types.{FixType, fix_string, fix_bool, fix_int, fix_float, base}
use nasdaq_protocols.Fix.Field
use nasdaq_protocols.Fix.Field.{Floats, FieldClass, Atom, text, bool, int}
use nasdaq_protocols.Fix.Segment.{
  EntryDef, field, container, Entries, no_entries, entry, entry_of, later, Node, Values, value,
  empty, Groups, no_groups, group, keys, is_in,
}

abbrev pub FieldDefs : Type 0
FieldDefs = List FieldClass

-- Field.Def[tag] and Field.Def[name]
unfoldable pub def_by_tag : FieldDefs → ℤ → Result FieldClass
def_by_tag [] tag = raised key_error
def_by_tag (c ∷ defs) tag = if eqb_ℤ tag c.tag then ok c else def_by_tag defs tag

unfoldable pub def_by_name : FieldDefs → Str → Result FieldClass
def_by_name [] name = raised key_error
def_by_name (c ∷ defs) name = if str_equal name c.name then ok c else def_by_name defs name

pub data Key : Type 0 where
  tag : ℤ → Key
  name : Str → Key

-- key.isdecimal(), of an ASCII text
abbrev pub all_digits : Str → Bool
all_digits [] = true
all_digits (c ∷ cs) = is_digit c && all_digits cs

abbrev pub is_decimal : Str → Bool
is_decimal [] = false
is_decimal (c ∷ cs) = all_digits (c ∷ cs)

abbrev pub tag_of : Result FieldClass → Result ℤ
tag_of found = do c ← found; ok c.tag

unfoldable pub key_to_tag : FieldDefs → Key → Result ℤ
unfolding is_digit
key_to_tag defs (tag t) = ok t
key_to_tag defs (name n) = if is_decimal n then parse_int n else tag_of (def_by_name defs n)

-- values[tag] = node
unfoldable pub put : {F : Type 0} → ℤ → Node F → Values F → Values F
put t node empty = value t node empty
put t node (value u other rest) =
    if eqb_ℤ t u then value u node rest else value u other (put t node rest)

unfoldable pub get : {F : Type 0} → ℤ → Values F → Option (Node F)
get t empty = none
get t (value u node rest) = if eqb_ℤ t u then some node else get t rest

-- What is given as a value: an object of the application, a field, or a sequence of dicts. A segment
-- or group stands for the dict of its values, and a container for the sequence of its groups.
mutual
  pub data Given (F : Type 0) : Type 0 where
    atom : Atom F → Given F
    nothing : Given F
    a_field : FieldClass → Atom F → Given F
    items : GivenItems F → Given F

  pub data GivenItems (F : Type 0) : Type 0 where
    no_items : GivenItems F
    item : GivenDict F → GivenItems F → GivenItems F

  pub data GivenDict (F : Type 0) : Type 0 where
    not_a_dict : GivenDict F
    end : GivenDict F
    pair : Key → Given F → GivenDict F → GivenDict F

abbrev pub made_field : {F : Type 0} → FieldClass → Result (Atom F) → Result (Node F)
made_field c r = do v ← r; ok (field c v)

-- cls.IndexedEntries[tag]
abbrev pub or_key_error {ℓ} : {A : Type ℓ} → Option A → Result A
or_key_error none = raised key_error
or_key_error (some a) = ok a

unfoldable pub indexed : Entries → ℤ → Result EntryDef
indexed es t = or_key_error (entry_of es t)

module _ (fl : Floats) (defs : FieldDefs) where
  abbrev pub is_same : FieldClass → FieldClass → Bool
  is_same c d = eqb_ℤ c.tag d.tag && str_equal c.name d.name

  -- `Field.from_value`, for a field and for another object
  abbrev pub field_of : FieldClass → Given (Floats.Float fl) → Result (Node (Floats.Float fl))
  field_of c (atom v) = made_field c (Field.from_value fl c v)
  field_of c (a_field d v) = if is_same d c then ok (field c v) else raised type_error
  field_of c given = raised type_error

  unfoldable mutual
    unfolding Field.from_value key_to_tag indexed put

    -- `from_value` of an entry's class. The iteration over a text gives texts, which are no dicts.
    pub from_given : EntryDef → Given (Floats.Float fl) → Result (Node (Floats.Float fl))
    from_given (field c) given = field_of c given
    from_given (container t n class_name es) (items gs) = do
      groups ← groups_of es gs
      ok (container t n es groups)
    from_given (container t n class_name es) (atom (text [])) = ok (container t n es no_groups)
    from_given (container t n class_name es) given = raised type_error

    pub groups_of : Entries → GivenItems (Floats.Float fl) → Result (Groups (Floats.Float fl))
    groups_of es no_items = ok no_groups
    groups_of es (item d rest) = do
      vs ← values_of es d empty
      more ← groups_of es rest
      ok (group vs more)

    -- `DataSegment.from_value`: the items of the dict are set one after the other.
    pub values_of :
        Entries
        → GivenDict (Floats.Float fl)
        → Values (Floats.Float fl)
        → Result (Values (Floats.Float fl))
    values_of es not_a_dict vs = raised type_error
    values_of es end vs = ok vs
    values_of es (pair key given rest) vs = do
      t ← key_to_tag defs key
      def ← indexed es t
      node ← from_given def given
      values_of es rest (put t node vs)

  -- `__setitem__`, over the values of a segment of a class
  unfoldable pub set_item :
      Entries
      → Key
      → Given (Floats.Float fl)
      → Values (Floats.Float fl)
      → Result (Values (Floats.Float fl))
  unfolding from_given
  set_item es key given vs = do
    t ← key_to_tag defs key
    def ← indexed es t
    node ← from_given def given
    ok (put t node vs)

-- What a segment gives for a key: the value of a field, the groups of a container, or None.
pub data Got (F : Type 0) : Type 0 where
  of_field : Atom F → Got F
  of_container : Groups F → Got F
  nothing : Got F

-- `FieldType.default_value` of a base class; that of a float is the int 0.
abbrev pub default_of : {F : Type 0} → FixType → Atom F
default_of fix_bool = bool false
default_of fix_int = int (pos 0)
default_of fix_float = int (pos 0)
default_of _ = text []

abbrev pub default_got : {F : Type 0} → EntryDef → Got F
default_got (field c) = of_field (default_of (base c.field_type))
default_got (container t n class_name es) = nothing

abbrev pub got : {F : Type 0} → EntryDef → Option (Node F) → Got F
got def none = default_got def
got def (some (field c v)) = of_field v
got def (some (container t n es groups)) = of_container groups

-- `__getitem__` and `__contains__`; a tag that the class does not have is a KeyError of `__dict__`.
unfoldable pub get_item : {F : Type 0} → FieldDefs → Entries → Key → Values F → Result (Got F)
unfolding key_to_tag indexed get
get_item defs es key vs = do t ← key_to_tag defs key; def ← indexed es t; ok (got def (get t vs))

unfoldable pub contains : {F : Type 0} → FieldDefs → Key → Values F → Result Bool
unfolding key_to_tag
contains defs key vs = do t ← key_to_tag defs key; ok (is_in t (keys vs))

-- `Required`, and the tags of it that have no value
abbrev pub required_tags : Entries → List ℤ
required_tags no_entries = []
required_tags (entry (field c) true es) = c.tag ∷ required_tags es
required_tags (entry (container t n class_name sub) true es) = t ∷ required_tags es
required_tags (entry def false es) = required_tags es

abbrev pub missing : {F : Type 0} → List ℤ → Values F → List ℤ
missing [] vs = []
missing (t ∷ ts) vs = if is_in t (keys vs) then missing ts vs else t ∷ missing ts vs

abbrev pub fail_if_any : List ℤ → Result (Unit {0})
fail_if_any [] = ok tt
fail_if_any (t ∷ ts) = raised value_error

unfoldable pub validate : {F : Type 0} → Entries → Values F → Result (Unit {0})
validate es vs = fail_if_any (missing (required_tags es) vs)

-- `key in cls.IndexedEntries` of a name: the name of a field or of a container's count field
unfoldable pub has_name : Str → Entries → Bool
has_name n no_entries = false
has_name n (entry (field c) required es) = str_equal n c.name || has_name n es
has_name n (entry (container t count_name class_name sub) required es) =
    str_equal n count_name || has_name n es

-- `__setattr__`: a name that is no key of the class becomes an attribute of the Python object, and
-- no value of the segment.
unfoldable pub set_attr :
    (fl : Floats)
    → FieldDefs
    → Entries
    → Str
    → Given (Floats.Float fl)
    → Values (Floats.Float fl)
    → Result (Values (Floats.Float fl))
unfolding set_item has_name
set_attr fl defs es n given vs =
    if has_name n es then set_item fl defs es (name n) given vs else ok vs

-- `__getattr__`: the class name of a container stands for the tag of its count field.
abbrev pub class_tag : Str → Entries → Option ℤ
class_tag n no_entries = none
class_tag n (entry (field c) required es) = class_tag n es
class_tag n (entry (container t count_name class_name sub) required es) =
    later (class_tag n es) (if str_equal n class_name then some t else none)

abbrev pub got_attr :
    {F : Type 0} → FieldDefs → Entries → Str → Option ℤ → Values F → Result (Got F)
got_attr defs es n (some t) vs = get_item defs es (tag t) vs
got_attr defs es n none vs =
    if has_name n es then get_item defs es (name n) vs else raised key_error

unfoldable pub get_attr : {F : Type 0} → FieldDefs → Entries → Str → Values F → Result (Got F)
unfolding get_item has_name
get_attr defs es n vs = got_attr defs es n (class_tag n es) vs
