-- ===== src/Fix/Field.antt =====
-- `Field` of src/nasdaq_protocols/fix/core.py: a tag with a value of a type of fix/types.py.
-- CPython's float is a parameter, with what the code uses of it.
pub mod RoundTrip
use nasdaq_protocols.Prelude.{
  ℕ, zero, suc, ◌+◌, Bool, true, false, not, Option, none, some, List, [], ◌∷◌, ◌++◌, ◌==◌,
  if◌then◌else◌, ℤ, pos, negsuc, Result, ok, raised, value_error, type_error, ◌>>=◌, length,
}
use nasdaq_protocols.Python.Bytes.{Bytes}
use nasdaq_protocols.Python.Text.{Str, encode, ascii, codes}
use nasdaq_protocols.Python.Decimal.{str_int}
use nasdaq_protocols.Python.Find.{slice, find_byte}
use nasdaq_protocols.Fix.Types.{
  FixType, fix_string, fix_bool, fix_int, fix_float, base, pack_str, unpack_str, pack_bool,
  unpack_int, unpack_bool,
}

abbrev pub separator : ℕ
separator = b'='

abbrev pub soh : ℕ
soh = 1

-- float, `str` and `float` for it, and its truth; `float` gives none where it raises ValueError
pub record Floats : Type 1 where
  pub Float : Type 0
  pub str_float : Float → Str
  pub parse_float : Str → Option Float
  pub truth : Float → Bool

-- What a class statement `class X(Field, Tag=…, Name=…, Type=…)` gives.
pub record FieldClass : Type 0 where
  pub tag : ℤ
  pub name : Str
  pub field_type : FixType

-- The Python value of a field.
pub data Atom (F : Type 0) : Type 0 where
  text : Str → Atom F
  bool : Bool → Atom F
  int : ℤ → Atom F
  float : F → Atom F

abbrev pub as_float : {F : Type 0} → Option F → Result F
as_float none = raised value_error
as_float (some x) = ok x

module _ (fl : Floats) where
  -- str(value) and bool(value)
  abbrev pub str_atom : Atom (Floats.Float fl) → Str
  str_atom (text s) = s
  str_atom (bool true) = codes "True"
  str_atom (bool false) = codes "False"
  str_atom (int z) = str_int z
  str_atom (float x) = fl.str_float x

  abbrev pub is_true : Atom (Floats.Float fl) → Bool
  is_true (text []) = false
  is_true (text (c ∷ cs)) = true
  is_true (bool b) = b
  is_true (int (pos zero)) = false
  is_true (int (pos (suc n))) = true
  is_true (int (negsuc n)) = true
  is_true (float x) = fl.truth x

  -- `FieldType.to_bytes` and `FieldType.from_bytes`; `len` of what is no text is a TypeError.
  abbrev pub pack_text : Atom (Floats.Float fl) → Result (ℕ × Bytes)
  pack_text (text s) = pack_str s
  pack_text _ = raised type_error

  abbrev pub pack_base : FixType → Atom (Floats.Float fl) → Result (ℕ × Bytes)
  pack_base fix_bool v = pack_bool (is_true v)
  pack_base fix_int v = pack_str (str_atom v)
  pack_base fix_float v = pack_str (str_atom v)
  pack_base _ v = pack_text v

  abbrev pub unpack_base : FixType → Bytes → Result (ℕ × Atom (Floats.Float fl))
  unpack_base fix_bool bs = do (n, b) ← unpack_bool bs; ok (n, bool b)
  unpack_base fix_int bs = do (n, z) ← unpack_int bs; ok (n, int z)
  unpack_base fix_float bs = do
    (n, s) ← unpack_str bs
    x ← as_float (fl.parse_float s)
    ok (n, float x)
  unpack_base _ bs = do (n, s) ← unpack_str bs; ok (n, text s)

  unfoldable pub to_bytes : FieldClass → Atom (Floats.Float fl) → Result (ℕ × Bytes)
  to_bytes c value = do
    tag_key ← encode ascii (str_int c.tag ++ separator ∷ [])
    (_, packed) ← pack_base (base c.field_type) value
    ok (length (tag_key ++ packed), tag_key ++ packed)

  -- The value between the first separator and the first SOH, or the end.
  abbrev pub unpack_between : FieldClass → ℕ → ℕ → ℕ → Bytes → Result (ℕ × Atom (Floats.Float fl))
  unpack_between c total value_start value_end bs = do
    (_, value) ← unpack_base (base c.field_type) (slice (value_start + 1) value_end bs)
    ok (total, value)

  abbrev pub from_found :
      FieldClass → Option ℕ → Option ℕ → Bytes → Result (ℕ × Atom (Floats.Float fl))
  from_found c none value_end bs = raised value_error
  from_found c (some value_start) none bs = unpack_between c (length bs) value_start (length bs) bs
  from_found c (some value_start) (some value_end) bs =
      unpack_between c (value_end + 1) value_start value_end bs

  unfoldable pub from_bytes : FieldClass → Bytes → Result (ℕ × Atom (Floats.Float fl))
  from_bytes c bs = from_found c (find_byte separator bs) (find_byte soh bs) bs

  -- isinstance(value, type_cls); a bool is an int too
  abbrev pub is_instance_base : FixType → Atom (Floats.Float fl) → Bool
  is_instance_base fix_bool (bool b) = true
  is_instance_base fix_bool _ = false
  is_instance_base fix_int (int z) = true
  is_instance_base fix_int (bool b) = true
  is_instance_base fix_int _ = false
  is_instance_base fix_float (float x) = true
  is_instance_base fix_float _ = false
  is_instance_base _ (text s) = true
  is_instance_base _ _ = false

  -- `from_value` for a value that is no field.
  unfoldable pub from_value : FieldClass → Atom (Floats.Float fl) → Result (Atom (Floats.Float fl))
  from_value c value =
      if is_instance_base (base c.field_type) value then ok value else raised type_error
