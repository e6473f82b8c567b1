-- ===== src/Fix/Types.antt =====
-- src/nasdaq_protocols/fix/types.py: the types of FIX fields, as texts in ASCII.
-- A float is of any type, with Python's `str` and `float` for it as parameters.
pub mod RoundTrip
use Prim.Native.String.{String}
use text.Mathlib.Text.{◌==◌ as str_eq}
use nasdaq_protocols.Prelude.{
  ℕ, Bool, true, false, Option, none, some, List, [], ◌∷◌, ◌==◌, if◌then◌else◌, ℤ, Result, ok,
  raised, ◌>>=◌, length,
}
use nasdaq_protocols.Python.Bytes.{Bytes}
use nasdaq_protocols.Python.Text.{Str, encode, decode, ascii}
use nasdaq_protocols.Python.Decimal.{str_int, parse_int}

-- A class of the module, with what it inherits from.
pub data FixType : Type 0 where
  fix_string fix_bool fix_int fix_float : FixType
  -- subclasses of FixString
  fix_char fix_multiple_value_string fix_currency fix_exchange fix_utc_timestamp : FixType
  fix_utc_time fix_local_mkt_date fix_tz_time fix_tz_timestamp fix_utc_time_only : FixType
  fix_tz_timeonly : FixType
  -- subclasses of FixFloat
  fix_quantity fix_price fix_price_offset fix_amount : FixType
  -- a subclass of FixInt
  fix_day_of_month : FixType

-- The class whose functions it has.
abbrev pub base : FixType → FixType
base fix_bool = fix_bool
base fix_int = fix_int
base fix_day_of_month = fix_int
base fix_float = fix_float
base fix_quantity = fix_float
base fix_price = fix_float
base fix_price_offset = fix_float
base fix_amount = fix_float
base _ = fix_string

-- `TypeDefinition.Definitions` after the decorators of the module, the latest first: a type id that
-- stands twice leads to the class that was added last.
abbrev pub definitions : List (String × FixType)
definitions =
    ("fix_day_of_month", fix_day_of_month)
    ∷ ("fix_tz_timestamp", fix_tz_timestamp)
    ∷ ("fix_tx_time", fix_tz_time)
    ∷ ("fix_local_mkt_date", fix_local_mkt_date)
    ∷ ("fix_utc_time", fix_utc_time)
    ∷ ("fix_utc_timestamp", fix_utc_timestamp)
    ∷ ("fix_exchange", fix_exchange)
    ∷ ("fix_currency", fix_currency)
    ∷ ("fix_multiple_value_string", fix_multiple_value_string)
    ∷ ("fix_amount", fix_amount)
    ∷ ("fix_price_offset", fix_price_offset)
    ∷ ("fix_price", fix_price)
    ∷ ("fix_quantity", fix_quantity)
    ∷ ("fix_char", fix_char)
    ∷ ("fix_float", fix_float)
    ∷ ("fix_bool", fix_int)
    ∷ ("fix_bool", fix_bool)
    ∷ ("fix_string", fix_string)
    ∷ []

unfoldable pub get_type : String → List (String × FixType) → Option FixType
get_type type_id [] = none
get_type type_id ((n, t) ∷ rest) = if str_eq n type_id then some t else get_type type_id rest

-- `_pack_str`, `_unpack_str`, `_pack_int`, `_unpack_int`
unfoldable pub pack_str : Str → Result (ℕ × Bytes)
pack_str s = do bs ← encode ascii s; ok (length s, bs)

unfoldable pub unpack_str : Bytes → Result (ℕ × Str)
unpack_str bs = do s ← decode ascii bs; ok (length bs, s)

unfoldable pub pack_int : ℤ → Result (ℕ × Bytes)
unfolding pack_str
pack_int val = pack_str (str_int val)

unfoldable pub unpack_int : Bytes → Result (ℕ × ℤ)
unfolding unpack_str
unpack_int bs = do (len_, s) ← unpack_str bs; n ← parse_int s; ok (len_, n)

-- The functions of FixBool.
unfoldable pub pack_bool : Bool → Result (ℕ × Bytes)
pack_bool true = ok (1, b'Y' ∷ [])
pack_bool false = ok (1, b'N' ∷ [])

abbrev is_yes : Bytes → Bool
is_yes (c ∷ []) = c == b'Y'
is_yes bs = false

unfoldable pub unpack_bool : Bytes → Result (ℕ × Bool)
unpack_bool bs = ok (length bs, is_yes bs)

module _ (Float : Type 0) (str_float : Float → Str) (parse_float : Str → Result Float) where
  unfoldable pub pack_float : Float → Result (ℕ × Bytes)
  unfolding pack_str
  pack_float val = pack_str (str_float val)

  unfoldable pub unpack_float : Bytes → Result (ℕ × Float)
  unfolding unpack_str
  unpack_float bs = do (len_, s) ← unpack_str bs; x ← parse_float s; ok (len_, x)

  -- What a field of the type holds.
  abbrev pub ValueOfBase : FixType → Type 0
  ValueOfBase fix_bool = Bool
  ValueOfBase fix_int = ℤ
  ValueOfBase fix_float = Float
  ValueOfBase _ = Str

  abbrev pub pack_base : (t : FixType) → ValueOfBase t → Result (ℕ × Bytes)
  pack_base fix_bool v = pack_bool v
  pack_base fix_int v = pack_int v
  pack_base fix_float v = pack_float v
  pack_base _ v = pack_str v

  abbrev pub unpack_base : (t : FixType) → Bytes → Result (ℕ × ValueOfBase t)
  unpack_base fix_bool bs = unpack_bool bs
  unpack_base fix_int bs = unpack_int bs
  unpack_base fix_float bs = unpack_float bs
  unpack_base _ bs = unpack_str bs

  -- `to_bytes` and `from_bytes` of a class
  unfoldable pub to_bytes : (t : FixType) → ValueOfBase (base t) → Result (ℕ × Bytes)
  to_bytes t v = pack_base (base t) v

  unfoldable pub from_bytes : (t : FixType) → Bytes → Result (ℕ × ValueOfBase (base t))
  from_bytes t bs = unpack_base (base t) bs
