-- ===== src/Common/Message/Registry.antt =====
-- `CommonMessage` of src/nasdaq_protocols/common/message/structures.py and `SoupAppMessage` of
-- src/nasdaq_protocols/soup/soup_app.py: message classes by application and message id.
pub mod Laws
use mathlib.Core.Bool.{◌&&◌}
use text.Mathlib.Text.{◌==◌ as str_eq}
use Prim.Native.String.{String}
use nasdaq_protocols.Prelude.{
  ℕ, ◌+◌, Bool, true, false, not, Option, none, some, List, [], ◌∷◌, ◌++◌, ◌==◌, if◌then◌else◌, ℤ,
  pos, negsuc, pos_part, ◌+ℤ◌, Result, ok, raised, key_error, duplicate_message, ◌>>=◌, length,
}
use nasdaq_protocols.Python.Bytes.{Bytes}
use nasdaq_protocols.Common.Message.Types
use nasdaq_protocols.Common.Message.Types.{from_index}
use nasdaq_protocols.Common.Message.Structures
use nasdaq_protocols.Common.Message.Structures.{
  Value, absent, FieldType, Fields, Packed, new_record,
}

-- SoupAppMessageId
pub record MessageId : Type 0 where
  pub indicator : ℤ
  pub direction : String

-- The generated equality of `SoupAppMessageId`.
unfoldable pub same_int : ℤ → ℤ → Bool
same_int (pos a) (pos b) = a == b
same_int (negsuc a) (negsuc b) = a == b
same_int _ _ = false

unfoldable pub same_id : MessageId → MessageId → Bool
unfolding same_int
same_id a b = same_int a.indicator b.indicator && str_eq a.direction b.direction

-- `from_bytes` and `to_bytes` of the id: one byte, and always the direction 'outgoing'
unfoldable pub id_from_bytes : Bytes → ℤ × MessageId
id_from_bytes bs =
    let (_, value) = Types.unpack_int Types.byte bs in
    (pos 1, record { indicator = value; direction = "outgoing" })

unfoldable pub id_to_bytes : MessageId → Packed
id_to_bytes m = Types.pack_int Types.byte m.indicator

-- A message class: `identity` stands for the class object, of which Python compares the identity.
pub record MessageClass : Type 0 where
  pub identity : ℕ
  pub name : String
  pub msg_id : MessageId
  pub body : FieldType

-- AppName, None where the class statement gives no `app_name`
abbrev pub AppName : Type 0
AppName = Option String

unfoldable pub same_app : AppName → AppName → Bool
same_app none none = true
same_app (some a) (some b) = str_eq a b
same_app _ _ = false

-- `MsgIdToClsMap` and `MsgNameToMsgMap`, the latest entry of a key first.
pub record Registry : Type 0 where
  pub by_id : List (AppName × MessageClass)
  pub by_name : List (AppName × MessageClass)

abbrev pub empty : Registry
empty = record { by_id = []; by_name = [] }

unfoldable pub find_id : AppName → MessageId → List (AppName × MessageClass) → Option MessageClass
find_id app msg_id [] = none
find_id app msg_id ((a, c) ∷ rest) =
    if same_app a app && same_id c.msg_id msg_id then some c else find_id app msg_id rest

unfoldable pub find_name : AppName → String → List (AppName × MessageClass) → Option MessageClass
find_name app name [] = none
find_name app name ((a, c) ∷ rest) =
    if same_app a app && str_eq c.name name then some c else find_name app name rest

abbrev pub add : AppName → MessageClass → Registry → Registry
add app c r = record { by_id = (app, c) ∷ r.by_id; by_name = (app, c) ∷ r.by_name }

abbrev pub checked : AppName → MessageClass → Registry → Option MessageClass → Result Registry
checked app c r none = ok (add app c r)
checked app c r (some existing) =
    if existing.identity == c.identity then ok (add app c r) else raised duplicate_message

-- `__init_subclass__` with `app_name`, `msg_id_cls` and `msg_id`
unfoldable pub register : AppName → MessageClass → Registry → Result Registry
register app c r = checked app c r (find_id app c.msg_id r.by_id)

abbrev pub found : Option MessageClass → Result MessageClass
found none = raised key_error
found (some c) = ok c

-- `CommonMessage.to_bytes` of an instance of the class
unfoldable pub to_bytes : MessageClass → Value → Packed
to_bytes c v = do
  (_, head) ← id_to_bytes c.msg_id
  (_, body) ← Structures.to_bytes c.body v
  ok (length (head ++ body), head ++ body)

-- `__attrs_post_init__` of an instance that is made with a record: none given is a new one.
abbrev pub or_empty : Option Value → Value
or_empty none = absent
or_empty (some v) = v

unfoldable pub record_given : FieldType → Value → Value
record_given t absent = or_empty (new_record t)
record_given t v = v

-- `CommonMessage.from_bytes` for an application
unfoldable pub from_bytes : AppName → Registry → Bytes → Result (ℤ × MessageClass × Value)
from_bytes app r bs =
    let (len_, msg_id) = id_from_bytes bs in
    do
      c ← found (find_id app msg_id r.by_id)
      (msg_len, value) ← Structures.from_bytes c.body (from_index len_ bs)
      ok (len_ +ℤ msg_len, c, record_given c.body value)

-- `get_msg_cls_by_name` and `get_msg_cls_by_indicator`, whose argument is a message id
unfoldable pub get_msg_cls_by_name : AppName → String → Registry → Result MessageClass
unfolding find_name
get_msg_cls_by_name app name r = found (find_name app name r.by_name)

unfoldable pub get_msg_cls_by_indicator : AppName → MessageId → Registry → Result MessageClass
unfolding find_id
get_msg_cls_by_indicator app msg_id r = found (find_id app msg_id r.by_id)
