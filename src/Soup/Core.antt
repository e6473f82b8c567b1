-- ===== src/Soup/Core.antt =====
-- src/nasdaq_protocols/soup/core.py: the soup messages, their packing and unpacking.
pub mod RoundTrip
pub mod Framing
pub mod Refusal
use nasdaq_protocols.Prelude.{
  ℕ, zero, suc, ◌+◌, ◌-◌, ◌≡◌, Bool, true, false, Option, none, some, List, [], ◌∷◌, ◌++◌, ltb,
  ◌==◌, if◌then◌else◌, ℤ, pos, ltb_ℤ, Result, ok, raised, Error, invalid_soup_message, struct_error,
  value_error, index_error, key_error, ◌>>=◌, length, take, drop,
}
use nasdaq_protocols.Python.Bytes.{Bytes}
use nasdaq_protocols.Python.Text.{
  Str, encode, decode, ascii, ljust, strip, is_space, is_blank_or_nul,
}
use nasdaq_protocols.Python.Decimal.{str_int, parse_int}
use nasdaq_protocols.Python.Find.{slice}
use nasdaq_protocols.Python.Struct.{pack_short, unpack_short, pack_string}

pub data LoginRejectReason : Type 0 where
  not_authorized session_not_available : LoginRejectReason

unfoldable pub reason_value : LoginRejectReason → ℕ
reason_value not_authorized = b'A'
reason_value session_not_available = b'S'

-- LoginRejectReason.get of a string
unfoldable pub get_reason : Str → Result LoginRejectReason
get_reason (c ∷ []) =
    if c == b'A'
    then ok not_authorized
    else if c == b'S'
    then ok session_not_available
    else raised value_error
get_reason s = raised value_error

-- One constructor for each subclass, with the attributes in the source's order.
pub data SoupMessage : Type 0 where
  login_request : (user password session sequence : Str) → SoupMessage
  login_accepted : (session_id : Str) (sequence : ℤ) → SoupMessage
  login_rejected : LoginRejectReason → SoupMessage
  sequenced_data unsequenced_data : Bytes → SoupMessage
  debug : Str → SoupMessage
  client_heartbeat server_heartbeat end_of_session logout_request : SoupMessage

unfoldable pub indicator : SoupMessage → ℕ
indicator (login_request _ _ _ _) = b'L'
indicator (login_accepted _ _) = b'A'
indicator (login_rejected _) = b'J'
indicator (sequenced_data _) = b'S'
indicator (unsequenced_data _) = b'U'
indicator (debug _) = b'+'
indicator client_heartbeat = b'R'
indicator server_heartbeat = b'H'
indicator end_of_session = b'Z'
indicator logout_request = b'O'

unfoldable pub is_heartbeat : SoupMessage → Bool
is_heartbeat client_heartbeat = true
is_heartbeat server_heartbeat = true
is_heartbeat _ = false

unfoldable pub is_logout : SoupMessage → Bool
is_logout end_of_session = true
is_logout logout_request = true
is_logout _ = false

-- `_pack`, `_unpack_string` and `_unpack_int`
unfoldable pub pack_field : Str → ℕ → Result Bytes
unfolding ljust
pack_field text field_size = encode ascii (ljust field_size text)

unfoldable pub unpack_string : Bytes → Result Str
unfolding strip is_space
unpack_string bs = do s ← decode ascii bs; ok (strip is_space s)

unfoldable pub unpack_int : Bytes → Result ℤ
unfolding strip is_blank_or_nul parse_int
unpack_int bs = parse_int (strip is_blank_or_nul bs)

-- '!h c': the length and the indicator in front of every message
unfoldable pub pack_header : ℕ → ℕ → Result Bytes
unfolding pack_short
pack_header len ind = do l ← pack_short (pos len); ok (l ++ ind ∷ [])

abbrev pub with_length : Bytes → ℕ × Bytes
with_length bs = (length bs, bs)

-- `SoupMessage.to_bytes` and its overrides, each the body behind the header
unfoldable pub to_bytes : SoupMessage → Result (ℕ × Bytes)
unfolding pack_header pack_field pack_string indicator reason_value
to_bytes (login_request user password session sequence) = do
  user_field ← pack_field user 6
  password_field ← pack_field password 10
  session_field ← pack_field session 10
  sequence_field ← pack_field sequence 20
  header ← pack_header 47 (indicator (login_request user password session sequence))
  ok (
      with_length (
        header
        ++ (pack_string 6 user_field
            ++ (pack_string 10 password_field
                ++ (pack_string 10 session_field ++ pack_string 20 sequence_field)))))
to_bytes (login_accepted session_id sequence) = do
  session_field ← pack_field session_id 10
  sequence_field ← pack_field (str_int sequence) 20
  header ← pack_header 31 (indicator (login_accepted session_id sequence))
  ok (with_length (header ++ (pack_string 10 session_field ++ pack_string 20 sequence_field)))
to_bytes (login_rejected reason) = do
  header ← pack_header 2 (indicator (login_rejected reason))
  ok (with_length (header ++ reason_value reason ∷ []))
to_bytes (sequenced_data payload) = do
  header ← pack_header (length payload + 1) (indicator (sequenced_data payload))
  ok (with_length (header ++ payload))
to_bytes (unsequenced_data payload) = do
  header ← pack_header (length payload + 1) (indicator (unsequenced_data payload))
  ok (with_length (header ++ payload))
to_bytes (debug msg) = do
  header ← pack_header (length msg + 1) (indicator (debug msg))
  text ← encode ascii msg
  ok (with_length (header ++ text))
to_bytes msg = do header ← pack_header 1 (indicator msg); ok (with_length header)

-- `struct.unpack` wants exactly the size of the format.
unfoldable pub check_size : ℕ → Bytes → Result (Unit {0})
check_size size bs = if length bs == size then ok tt else raised struct_error

-- `SoupMessage.unpack`, for the classes that do not override it
unfoldable pub unpack_plain : SoupMessage → Bytes → Result SoupMessage
unpack_plain msg bs = if length bs == 3 then ok msg else raised invalid_soup_message

-- bytes_[3:] if len_ > 1 else b''
unfoldable pub payload_of : Bytes → Result Bytes
unfolding check_size unpack_short
payload_of bs = do
  _ ← check_size 3 (take 3 bs)
  ok (if ltb_ℤ (pos 1) (unpack_short (take 2 bs)) then drop 3 bs else [])

unfoldable pub unpack_login_request : Bytes → Result SoupMessage
unfolding check_size
unpack_login_request bs = do
  _ ← check_size 49 bs
  user ← unpack_string (slice 3 9 bs)
  password ← unpack_string (slice 9 19 bs)
  session ← unpack_string (slice 19 29 bs)
  sequence ← unpack_int (slice 29 49 bs)
  ok (login_request user password session (str_int sequence))

unfoldable pub unpack_login_accepted : Bytes → Result SoupMessage
unfolding check_size
unpack_login_accepted bs = do
  _ ← check_size 33 bs
  session_id ← unpack_string (slice 3 13 bs)
  sequence ← unpack_int (slice 13 33 bs)
  ok (login_accepted session_id sequence)

unfoldable pub unpack_login_rejected : Bytes → Result SoupMessage
unfolding check_size get_reason
unpack_login_rejected bs = do
  _ ← check_size 4 bs
  text ← unpack_string (slice 3 4 bs)
  reason ← get_reason text
  ok (login_rejected reason)

unfoldable pub unpack_sequenced : Bytes → Result SoupMessage
unpack_sequenced bs = do payload ← payload_of bs; ok (sequenced_data payload)

unfoldable pub unpack_unsequenced : Bytes → Result SoupMessage
unpack_unsequenced bs = do payload ← payload_of bs; ok (unsequenced_data payload)

unfoldable pub unpack_debug : Bytes → Result SoupMessage
unpack_debug bs = do payload ← payload_of bs; msg ← decode ascii payload; ok (debug msg)

-- `SoupMessage.ClassByIndicator`, as the `unpack` of the class that is registered
unfoldable pub class_by_indicator : ℕ → Option (Bytes → Result SoupMessage)
class_by_indicator ind =
    if ind == b'L'
    then some unpack_login_request
    else if ind == b'A'
    then some unpack_login_accepted
    else if ind == b'J'
    then some unpack_login_rejected
    else if ind == b'S'
    then some unpack_sequenced
    else if ind == b'U'
    then some unpack_unsequenced
    else if ind == b'+'
    then some unpack_debug
    else if ind == b'R'
    then some (unpack_plain client_heartbeat)
    else if ind == b'H'
    then some (unpack_plain server_heartbeat)
    else if ind == b'Z'
    then some (unpack_plain end_of_session)
    else if ind == b'O'
    then some (unpack_plain logout_request)
    else none

-- bytes_[2]
abbrev pub third_byte : Bytes → Result ℕ
third_byte (_ ∷ _ ∷ c ∷ _) = ok c
third_byte _ = raised index_error

abbrev pub found_class : Option (Bytes → Result SoupMessage) → Result (Bytes → Result SoupMessage)
found_class none = raised key_error
found_class (some unpack) = ok unpack

-- `except KeyError` and `except IndexError` of `from_bytes`
abbrev pub as_invalid {ℓ} : {A : Type ℓ} → Result A → Result A
as_invalid (raised key_error) = raised invalid_soup_message
as_invalid (raised index_error) = raised invalid_soup_message
as_invalid r = r

unfoldable pub from_bytes : Bytes → Result (ℕ × SoupMessage)
from_bytes bs = as_invalid do
  ind ← third_byte bs
  unpack ← found_class (class_by_indicator ind)
  msg ← unpack bs
  ok (length bs, msg)
