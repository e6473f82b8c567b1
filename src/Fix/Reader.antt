-- ===== src/Fix/Reader.antt =====
-- `FixMessageReader` of src/nasdaq_protocols/fix/_reader.py. The announced length is an integer, which
-- may be negative, and so may then the read position.
pub mod RoundTrip
pub mod Stable
use nasdaq_protocols.Prelude.{
  ℕ, suc, ◌+◌, ◌-◌, ◌/◌, Bool, true, false, Option, none, some, List, [], ◌∷◌, if◌then◌else◌, ℤ,
  pos, negsuc, ◌+ℤ◌, ltb_ℤ, Result, ok, raised, ◌>>=◌, length, take, drop,
}
use nasdaq_protocols.Python.Bytes.{Bytes}
use nasdaq_protocols.Python.Decimal.{parse_int}
use nasdaq_protocols.Python.Find.{slice, find_from, find_sub}
use nasdaq_protocols.Common.Buffer.{Response}
use nasdaq_protocols.Fix.Field.{Floats, separator, soh}
use nasdaq_protocols.Fix.Message as Messages
use nasdaq_protocols.Fix.Message.{Message, MessageDefs, msg_type_tag, is_logout, is_heartbeat}

-- `_buffer` and `_read_pos`
pub record Cursor : Type 0 where
  pub bytes : Bytes
  pub read_pos : ℤ

-- bs[i:] and bs[:i]
abbrev pub slice_from : ℤ → Bytes → Bytes
slice_from (pos n) bs = drop n bs
slice_from (negsuc n) bs = drop (length bs - suc n) bs

abbrev pub slice_to : ℤ → Bytes → Bytes
slice_to (pos n) bs = take n bs
slice_to (negsuc n) bs = take (length bs - suc n) bs

abbrev pub view : Cursor → Bytes
view c = slice_from c.read_pos c.bytes

unfoldable pub calc_msg_len : ℕ → ℤ → ℤ
calc_msg_len third_field_pos body_length = (pos third_field_pos +ℤ body_length) +ℤ pos 7

-- What the view announces: no whole header yet, or the length of the message.
abbrev pub announced_at : ℕ → Option ℕ → Bytes → Result (Option ℤ)
announced_at start none u = ok none
announced_at start (some end) u = do
  body_length ← parse_int (slice (start + 1) end u)
  ok (some (calc_msg_len (end + 1) body_length))

abbrev pub announced_from : Option ℕ → Bytes → Result (Option ℤ)
announced_from none u = ok none
announced_from (some start) u = announced_at start (find_from soh start u) u

abbrev pub announced_if : Option ℕ → Bytes → Result (Option ℤ)
announced_if none u = ok none
announced_if (some i) u = announced_from (find_from separator 2 u) u

unfoldable pub announced : Bytes → Result (Option ℤ)
unfolding find_sub find_from calc_msg_len
announced u = announced_if (find_sub msg_type_tag u) u

-- `_read_pos += msg_len`, and what is read is dropped once it is more than half of the buffer.
unfoldable pub move_on : ℤ → Cursor → Cursor
move_on msg_len c =
    let pos' = c.read_pos +ℤ msg_len in
    if ltb_ℤ (pos (length c.bytes / 2)) pos'
    then record { bytes = slice_from pos' c.bytes; read_pos = pos 0 }
    else record c { read_pos = pos' }

module _ {F : Type 0} where
  abbrev pub empty_response : Response (Message F)
  empty_response = (none, false, false)

  abbrev pub taken : ℤ → Cursor → Result (ℕ × Message F) → Result (Response (Message F)) × Cursor
  taken msg_len c (raised e) = (raised e, c)
  taken msg_len c (ok (_, msg)) =
      (ok (some msg, is_logout msg, is_heartbeat msg), move_on msg_len c)

module _ (fl : Floats) (defs : MessageDefs) where
  abbrev pub deserialized :
      Cursor → Result (Option ℤ) → Result (Response (Message (Floats.Float fl))) × Cursor
  deserialized c (raised e) = (raised e, c)
  deserialized c (ok none) = (ok empty_response, c)
  deserialized c (ok (some msg_len)) =
      if ltb_ℤ (pos (length (view c))) msg_len
      then (ok empty_response, c)
      else taken msg_len c (Messages.from_bytes fl defs (slice_to msg_len (view c)))

  unfoldable pub deserialize : Cursor → Result (Response (Message (Floats.Float fl))) × Cursor
  unfolding announced Messages.from_bytes is_logout is_heartbeat move_on
  deserialize c = deserialized c (announced (view c))
