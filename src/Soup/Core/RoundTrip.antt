-- ===== src/Soup/Core/RoundTrip.antt =====
-- Packing and unpacking of soup messages: src/nasdaq_protocols/soup/core.py.
use nasdaq_protocols.Prelude.{
  ℕ, ◌+◌, ◌-◌, ◌≤◌, ◌<◌, ◌≡◌, refl, sym, ap, ◌∙◌, true, some, [], ◌∷◌, ◌++◌, append-nil, arith, ℤ,
  Result, ok, length, length-append, take_all, take-append_eq, drop-append_add,
}
use nasdaq_protocols.Python.Bytes.{Bytes}
use nasdaq_protocols.Python.Text.{
  Str, IsEncodable, ascii, IsTrimmed, is_space, is_blank_or_nul, ljust, length-ljust,
  ljust-IsEncodable, transcode, transcode_lem, strip-ljust, strip-append,
}
use nasdaq_protocols.Python.Decimal.{
  str_int, parse_int-str_int, str_int-IsEncodable, str_int-IsTrimmed,
}
use nasdaq_protocols.Python.Find.{slice}
use nasdaq_protocols.Python.Struct.{short_bytes, pack_short_pos, pack_string, unpack_short_bytes}
use nasdaq_protocols.Soup.Core.{
  SoupMessage, login_request, login_accepted, login_rejected, sequenced_data, unsequenced_data,
  debug, client_heartbeat, not_authorized, session_not_available, reason_value, indicator,
  pack_field, unpack_string, unpack_int, pack_header, with_length, to_bytes, payload_of, from_bytes,
  unpack_plain, class_by_indicator, unpack_login_request, unpack_login_accepted,
  unpack_login_rejected, unpack_sequenced, unpack_unsequenced, unpack_debug,
}

-- A text that a field of `size` bytes holds whole and gives back unchanged.
pub record IsField (size : ℕ) (s : Str) : Type 0 where
  pub short : length s ≤ size
  pub encodable : IsEncodable ascii s
  pub trimmed : IsTrimmed is_space s

-- The messages that the wire format represents: texts that fit their fields, numbers of at most
-- twenty characters, payloads with a length that two signed bytes hold.
abbrev pub Fits : SoupMessage → Type 0
Fits (login_request user password session sequence) =
    IsField 6 user
    × IsField 10 password
    × IsField 10 session
    × ((n : ℤ) × (sequence ≡ str_int n))
    × (length sequence ≤ 20)
Fits (login_accepted session_id sequence) = IsField 10 session_id × (length (str_int sequence) ≤ 20)
Fits (login_rejected reason) = Unit
Fits (sequenced_data payload) = length payload + 1 < 32768
Fits (unsequenced_data payload) = length payload + 1 < 32768
Fits (debug msg) = (length msg + 1 < 32768) × IsEncodable ascii msg
Fits _ = Unit

-- The bytes of a message behind the two bytes of length and the indicator.
abbrev pub body : SoupMessage → Bytes
body (login_request user password session sequence) =
    ljust 6 user ++ (ljust 10 password ++ (ljust 10 session ++ ljust 20 sequence))
body (login_accepted session_id sequence) = ljust 10 session_id ++ ljust 20 (str_int sequence)
body (login_rejected reason) = reason_value reason ∷ []
body (sequenced_data payload) = payload
body (unsequenced_data payload) = payload
body (debug msg) = msg
body _ = []

abbrev pub wire : SoupMessage → Bytes
wire msg = short_bytes (length (body msg) + 1) ++ (indicator msg ∷ body msg)

pub pack_field_lem :
    (size : ℕ) (s : Str)
    → length s ≤ size
    → IsEncodable ascii s
    → (pack_field s size ≡ ok (ljust size s)) × (pack_string size (ljust size s) ≡ ljust size s)
unfolding pack_field pack_string
pack_field_lem size s h e = (
  transcode_lem ascii (ljust size s) (ljust-IsEncodable ascii size s e),
  rw
      (
        length-ljust size s h,
        take_all size (ljust size s) (omega (arith, length-ljust size s h)),
        no_fill,
      )
      (append-nil (ljust size s)),
)
  where
    no_fill : size - size ≡ 0
    no_fill = omega arith

pub pack_header_lem :
    (len ind : ℕ) → len < 32768 → pack_header len ind ≡ ok (short_bytes len ++ (ind ∷ []))
pack_header_lem len ind h = unfold pack_header in rw (pack_short_pos len h)

login_request_length :
    (user password session sequence : Str)
    → length user ≤ 6
    → length password ≤ 10
    → length session ≤ 10
    → length sequence ≤ 20
    → length (body (login_request user password session sequence)) ≡ 46
login_request_length user password session sequence a b c d =
    rw (length-append, length-append, length-append)
      (omega (
        arith,
        length-ljust 6 user,
        length-ljust 10 password,
        length-ljust 10 session,
        length-ljust 20 sequence,
      ))

login_accepted_length :
    (session_id sequence : Str)
    → length session_id ≤ 10
    → length sequence ≤ 20
    → length (ljust 10 session_id ++ ljust 20 sequence) ≡ 30
login_accepted_length session_id sequence a b =
    rw length-append (omega (arith, length-ljust 10 session_id, length-ljust 20 sequence))

-- The packed form, written out.
pub to_bytes-wire : (msg : SoupMessage) → Fits msg → to_bytes msg ≡ ok (with_length (wire msg))
to_bytes-wire (login_request user password session sequence) (u, p, s, (n, q), l) =
    let seq_encodable : IsEncodable ascii sequence = rw q (str_int-IsEncodable n) in
    let f = pack_field_lem 6 user u.short u.encodable in
    let g = pack_field_lem 10 password p.short p.encodable in
    let h = pack_field_lem 10 session s.short s.encodable in
    let k = pack_field_lem 20 sequence l seq_encodable in
    let size = login_request_length user password session sequence u.short p.short s.short l in
    let msg = login_request user password session sequence in
    let packed : to_bytes msg ≡ ok (with_length (short_bytes 47 ++ (indicator msg ∷ body msg))) =
      unfold to_bytes in rw (f.0, g.0, h.0, k.0) (rw (f.1, g.1, h.1, k.1)) in
    packed
    ∙ ap (λ (n : ℕ). ok (with_length (short_bytes (n + 1) ++ (indicator msg ∷ body msg))))
        (sym size)
to_bytes-wire (login_accepted session_id sequence) (s, l) =
    let h = pack_field_lem 10 session_id s.short s.encodable in
    let k = pack_field_lem 20 (str_int sequence) l (str_int-IsEncodable sequence) in
    let msg = login_accepted session_id sequence in
    let size = login_accepted_length session_id (str_int sequence) s.short l in
    let packed : to_bytes msg ≡ ok (with_length (short_bytes 31 ++ (indicator msg ∷ body msg))) =
      unfold to_bytes in rw (h.0, k.0) (rw (h.1, k.1)) in
    packed
    ∙ ap (λ (n : ℕ). ok (with_length (short_bytes (n + 1) ++ (indicator msg ∷ body msg))))
        (sym size)
to_bytes-wire (login_rejected reason) h = unfold to_bytes in refl
to_bytes-wire (sequenced_data payload) h =
    unfold to_bytes in rw (pack_header_lem (length payload + 1) b'S' h)
to_bytes-wire (unsequenced_data payload) h =
    unfold to_bytes in rw (pack_header_lem (length payload + 1) b'U' h)
to_bytes-wire (debug msg) (h, e) =
    unfold to_bytes in rw (pack_header_lem (length msg + 1) b'+' h) (rw (transcode_lem ascii msg e))
to_bytes-wire client_heartbeat h = unfold to_bytes in refl
to_bytes-wire _ h = unfold to_bytes in refl

unpack_string-ljust : (size : ℕ) (s : Str) → IsField size s → unpack_string (ljust size s) ≡ ok s
unpack_string-ljust size s f =
    let text = transcode_lem ascii (ljust size s) (ljust-IsEncodable ascii size s f.encodable) in
    unfold unpack_string in rw text (rw (strip-ljust size s f.trimmed))

unpack_int-ljust : (size : ℕ) (n : ℤ) → unpack_int (ljust size (str_int n)) ≡ ok n
unfolding ljust
unpack_int-ljust size n =
    let pad = size - length (str_int n) in
    let blank : is_blank_or_nul 32 ≡ true = unfold is_blank_or_nul in refl in
    let stripped = strip-append is_blank_or_nul (str_int n) pad 32 blank (str_int-IsTrimmed n) in
    unfold unpack_int in rw stripped (parse_int-str_int n)

payload_of-wire :
    (ind : ℕ) (payload : Bytes)
    → length payload + 1 < 32768
    → payload_of (short_bytes (length payload + 1) ++ (ind ∷ payload)) ≡ ok payload
payload_of-wire ind [] h = unfold payload_of in refl
payload_of-wire ind (b ∷ bs) h =
    unfold payload_of in rw (unpack_short_bytes (length (b ∷ bs) + 1) h) (ground arith)

-- The four fields of a login request, and the two of a login acceptance.
fields4 :
    (h0 h1 h2 : ℕ) (a b c d : Bytes)
    → length a ≡ 6
    → length b ≡ 10
    → length c ≡ 10
    → length d ≡ 20
    → let bs : Bytes = h0 ∷ h1 ∷ h2 ∷ (a ++ (b ++ (c ++ d))) in
      (slice 3 9 bs ≡ a) × (slice 9 19 bs ≡ b) × (slice 19 29 bs ≡ c) × (slice 29 49 bs ≡ d)
fields4 h0 h1 h2 a b c d ha hb hc hd = (
  take-append_eq 6 a _ (sym ha),
  rw (drop-append_add 6 0 a (b ++ (c ++ d)) (omega arith)) (take-append_eq 10 b _ (sym hb)),
  rw
      (
        drop-append_add 16 10 a (b ++ (c ++ d)) (omega arith),
        drop-append_add 10 0 b (c ++ d) (omega arith),
      )
      (take-append_eq 10 c _ (sym hc)),
  rw
      (
        drop-append_add 26 20 a (b ++ (c ++ d)) (omega arith),
        drop-append_add 20 10 b (c ++ d) (omega arith),
        drop-append_add 10 0 c d (omega arith),
      )
      (take_all 20 d (omega arith)),
)

fields2 :
    (h0 h1 h2 : ℕ) (a b : Bytes)
    → length a ≡ 10
    → length b ≡ 20
    → let bs : Bytes = h0 ∷ h1 ∷ h2 ∷ (a ++ b) in (slice 3 13 bs ≡ a) × (slice 13 33 bs ≡ b)
fields2 h0 h1 h2 a b ha hb = (
  take-append_eq 10 a b (sym ha),
  rw (drop-append_add 10 0 a b (omega arith)) (take_all 20 b (omega arith)),
)

unpack_login_request-wire :
    (user password session : Str) (n : ℤ)
    → Fits (login_request user password session (str_int n))
    → let msg = login_request user password session (str_int n) in
      unpack_login_request (0 ∷ 47 ∷ b'L' ∷ body msg) ≡ ok msg
unpack_login_request-wire user password session n (u, p, s, _, l) =
    let sequence = str_int n in
    let (f0, f1, f2, f3) =
      fields4 0 47 b'L' (ljust 6 user) (ljust 10 password) (ljust 10 session) (ljust 20 sequence)
        (length-ljust 6 user u.short) (length-ljust 10 password p.short)
        (length-ljust 10 session s.short) (length-ljust 20 sequence l) in
    let size = login_request_length user password session sequence u.short p.short s.short l in
    unfold unpack_login_request in
    rw size (
      rw (f0, f1, f2, f3)
        (rw (
          unpack_string-ljust 6 user u,
          unpack_string-ljust 10 password p,
          unpack_string-ljust 10 session s,
          unpack_int-ljust 20 n,
        )))

unpack_login_accepted-wire :
    (session_id : Str) (n : ℤ)
    → Fits (login_accepted session_id n)
    → let msg = login_accepted session_id n in
      unpack_login_accepted (0 ∷ 31 ∷ b'A' ∷ body msg) ≡ ok msg
unpack_login_accepted-wire session_id n (s, l) =
    let (f0, f1) =
      fields2 0 31 b'A' (ljust 10 session_id) (ljust 20 (str_int n))
        (length-ljust 10 session_id s.short) (length-ljust 20 (str_int n) l) in
    let size = login_accepted_length session_id (str_int n) s.short l in
    unfold unpack_login_accepted in
    rw size (rw (f0, f1) (rw (unpack_string-ljust 10 session_id s, unpack_int-ljust 20 n)))

-- `from_bytes` hands the bytes to the class of the third byte.
pub from_bytes_dispatch :
    (a b ind : ℕ) (rest : Bytes) {unpack : Bytes → Result SoupMessage} {msg : SoupMessage}
    → class_by_indicator ind ≡ some unpack
    → unpack (a ∷ b ∷ ind ∷ rest) ≡ ok msg
    → from_bytes (a ∷ b ∷ ind ∷ rest) ≡ ok (length (a ∷ b ∷ ind ∷ rest), msg)
from_bytes_dispatch a b ind rest p q = unfold from_bytes in rw p (rw q)

abbrev class_of : SoupMessage → Bytes → Result SoupMessage
class_of (login_request _ _ _ _) = unpack_login_request
class_of (login_accepted _ _) = unpack_login_accepted
class_of (login_rejected _) = unpack_login_rejected
class_of (sequenced_data _) = unpack_sequenced
class_of (unsequenced_data _) = unpack_unsequenced
class_of (debug _) = unpack_debug
class_of msg = unpack_plain msg

registered : (msg : SoupMessage) → class_by_indicator (indicator msg) ≡ some (class_of msg)
unfolding class_by_indicator indicator
registered (login_request _ _ _ _) = refl
registered _ = refl

unpack-wire : (msg : SoupMessage) → Fits msg → class_of msg (wire msg) ≡ ok msg
unpack-wire (login_request user password session sequence) (u, p, s, (n, q), l) =
    let size = login_request_length user password session sequence u.short p.short s.short l in
    rw (size, q)
      (unfold indicator in
        unpack_login_request-wire user password session n (u, p, s, (n, refl), rw q at l))
unpack-wire (login_accepted session_id n) (s, l) =
    let size = login_accepted_length session_id (str_int n) s.short l in
    rw size (unfold indicator in unpack_login_accepted-wire session_id n (s, l))
unpack-wire (login_rejected not_authorized) h =
    unfold unpack_login_rejected unpack_string transcode reason_value in refl
unpack-wire (login_rejected session_not_available) h =
    unfold unpack_login_rejected unpack_string transcode reason_value in refl
unpack-wire (sequenced_data payload) h = unfold unpack_sequenced in rw (payload_of-wire _ payload h)
unpack-wire (unsequenced_data payload) h =
    unfold unpack_unsequenced in rw (payload_of-wire _ payload h)
unpack-wire (debug msg) (h, e) =
    unfold unpack_debug in rw (payload_of-wire _ msg h) (rw (transcode_lem ascii msg e))
unpack-wire client_heartbeat h = unfold unpack_plain in refl
unpack-wire _ h = unfold unpack_plain in refl

pub from_bytes-wire :
    (msg : SoupMessage) → Fits msg → from_bytes (wire msg) ≡ ok (length (wire msg), msg)
from_bytes-wire msg h =
    from_bytes_dispatch _ _ (indicator msg) (body msg) (registered msg) (unpack-wire msg h)

-- A message that the format represents is packed, with the length of what is written, and
-- `from_bytes` reads exactly that message back from the bytes.
pub soup_round_trip :
    (msg : SoupMessage)
    → Fits msg
    → (bs : Bytes) × (to_bytes msg ≡ ok (length bs, bs)) × (from_bytes bs ≡ ok (length bs, msg))
soup_round_trip msg h = (wire msg, to_bytes-wire msg h, from_bytes-wire msg h)
