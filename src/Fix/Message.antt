-- ===== src/Fix/Message.antt =====
-- `Message` of src/nasdaq_protocols/fix/core.py: classes with three segments, their registration under
-- type and name, and how a message is written and read.
pub mod RoundTrip
use nasdaq_protocols.Prelude.{
  ℕ, suc, ◌+◌, ◌-◌, Bool, true, false, Option, none, some, List, [], ◌∷◌, ◌++◌, ◌==◌, if◌then◌else◌,
  Result, ok, raised, key_error, ◌>>=◌, ◌>>◌, length, take, drop,
}
use nasdaq_protocols.Python.Bytes.{Bytes}
use nasdaq_protocols.Python.Text.{Str, decode, ascii, codes, str_equal}
use nasdaq_protocols.Python.Find.{slice, find_from, find_sub, ends_with}
use nasdaq_protocols.Fix.Field.{Floats, soh}
use nasdaq_protocols.Fix.Segment.{
  Entries, Values, empty, join, segment_to_bytes, segment_from_bytes,
}
use nasdaq_protocols.Fix.Access.{FieldDefs, validate}

pub record MessageClass : Type 0 where
  pub name : Str
  pub msg_type : Str
  pub category : Str
  pub header : Entries
  pub body : Entries
  pub trailer : Entries

pub record Message (F : Type 0) : Type 0 where
  pub cls : MessageClass
  pub header : Values F
  pub body : Values F
  pub trailer : Values F

pub data Segments : Type 0 where
  header body trailer : Segments

-- Message.Def, the latest entry first.
abbrev pub MessageDefs : Type 0
MessageDefs = List (Str × MessageClass)

unfoldable pub register : MessageClass → MessageDefs → MessageDefs
register cls defs = (cls.msg_type, cls) ∷ (cls.name, cls) ∷ defs

unfoldable pub class_of : MessageDefs → Str → Result MessageClass
class_of [] key = raised key_error
class_of ((k, cls) ∷ defs) key = if str_equal key k then ok cls else class_of defs key

unfoldable pub is_heartbeat : {F : Type 0} → Message F → Bool
is_heartbeat m = str_equal m.cls.msg_type (codes "0")

unfoldable pub is_logout : {F : Type 0} → Message F → Bool
is_logout m = str_equal m.cls.msg_type (codes "5")

abbrev pub validate_segment : {F : Type 0} → Segments → Message F → Result (Unit {0})
validate_segment header m = validate m.cls.header m.header
validate_segment body m = validate m.cls.body m.body
validate_segment trailer m = validate m.cls.trailer m.trailer

unfoldable pub validate_all : {F : Type 0} → List Segments → Message F → Result (Unit {0})
unfolding validate
validate_all [] m = ok tt
validate_all (s ∷ segments) m = validate_segment s m >> validate_all segments m

-- [_ for _ in all_bytes if len(_) > 0]
abbrev pub non_empty : List Bytes → List Bytes
non_empty [] = []
non_empty ([] ∷ parts) = non_empty parts
non_empty ((b ∷ bs) ∷ parts) = (b ∷ bs) ∷ non_empty parts

unfoldable pub with_soh : Bytes → Bytes
unfolding ends_with
with_soh bs = if ends_with soh bs then bs else bs ++ soh ∷ []

-- bytes_[start+1:end], where the end may be -1
abbrev pub between : ℕ → Option ℕ → Bytes → Bytes
between start (some end) bs = slice (start + 1) end bs
between start none bs = slice (start + 1) (length bs - 1) bs

-- bytes_.find(b'35=') + 2, which is 1 where there is none
abbrev pub type_start : Option ℕ → ℕ
type_start (some i) = i + 2
type_start none = 1

abbrev pub msg_type_tag : Bytes
msg_type_tag = b'3' ∷ b'5' ∷ b'=' ∷ []

unfoldable pub get_msg_type : Bytes → Result Str
unfolding find_sub find_from
get_msg_type bs =
    let start = type_start (find_sub msg_type_tag bs) in
    decode ascii (between start (find_from soh start bs) bs)

module _ (fl : Floats) where
  unfoldable pub to_bytes : Message (Floats.Float fl) → Result (ℕ × Bytes)
  to_bytes m = do
    (_, h) ← segment_to_bytes fl m.header
    (_, b) ← segment_to_bytes fl m.body
    (_, t) ← segment_to_bytes fl m.trailer
    let bs = with_soh (join (non_empty (h ∷ b ∷ t ∷ [])))
    ok (length bs, bs)

  -- `from_bytes` of a subclass
  unfoldable pub class_from_bytes : MessageClass → Bytes → Result (ℕ × Message (Floats.Float fl))
  class_from_bytes cls bs = do
    (n, h) ← segment_from_bytes fl cls.header bs
    (m, b) ← segment_from_bytes fl cls.body (drop n bs)
    (k, t) ← segment_from_bytes fl cls.trailer (drop m (drop n bs))
    ok (n + m + k, record { cls = cls; header = h; body = b; trailer = t })

  -- `Message.from_bytes`
  unfoldable pub from_bytes : MessageDefs → Bytes → Result (ℕ × Message (Floats.Float fl))
  from_bytes defs bs = do
    msg_type ← get_msg_type bs
    cls ← class_of defs msg_type
    class_from_bytes cls bs
