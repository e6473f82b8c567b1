-- ===== src/Soup/Core/Refusal.antt =====
-- What `from_bytes` refuses or loses: src/nasdaq_protocols/soup/core.py.
use mathlib.Core.Path.{subst}
use nasdaq_protocols.Prelude.{
  ℕ, ◌+◌, ◌≤◌, ◌<◌, ◌≡◌, ◌≢◌, refl, sym, Bool, true, false, Option, none, some, [], ◌∷◌, ◌++◌,
  arith, ltb, ◌==◌, Bool-cases, ltb_ℤ, ◌||◌, ◌⊎◌, inl, inr, ap, ◌∙◌, ℤ, pos, Result, ok, raised,
  invalid_soup_message, Error, struct_error, unicode_error, value_error, if◌then◌else◌, ◌>>=◌,
  length, take,
}
use nasdaq_protocols.Python.Text.{
  Encoding, transcode, code_limit, ascii, strip, is_int_space, is_blank_or_nul,
}
use nasdaq_protocols.Python.Decimal.{parse_int, read_signed, as_int, negated}
use nasdaq_protocols.Python.Find.{slice}
use nasdaq_protocols.Python.Bytes
use nasdaq_protocols.Python.Bytes.{Bytes, big}
use nasdaq_protocols.Python.Struct.{short_bytes, unpack_short}
use nasdaq_protocols.Soup.Core.{
  SoupMessage, check_size, unpack_string, unpack_int, get_reason, unpack_login_request,
  unpack_login_accepted, unpack_login_rejected, unpack_unsequenced, unpack_debug, sequenced_data,
  payload_of, unpack_sequenced, unpack_plain, client_heartbeat, server_heartbeat, end_of_session,
  logout_request, class_by_indicator, found_class, as_invalid, from_bytes,
}
use nasdaq_protocols.Soup.Core.RoundTrip.{from_bytes_dispatch}

-- The indicators of the messages without fields, and of those with fields.
abbrev pub is_plain : ℕ → Bool
is_plain ind = (ind == b'R') || (ind == b'H') || (ind == b'Z') || (ind == b'O')

abbrev pub has_fields : ℕ → Bool
has_fields ind =
    (ind == b'L')
    || (ind == b'A')
    || (ind == b'J')
    || (ind == b'S')
    || (ind == b'U')
    || (ind == b'+')

-- No indicator, one of no message, or bytes behind a message that has no fields.
abbrev pub IsInvalid : Bytes → Type 0
IsInvalid (_ ∷ _ ∷ ind ∷ rest) =
    ((is_plain ind ≡ false) × (has_fields ind ≡ false)) ⊎ ((is_plain ind ≡ true) × (rest ≢ []))
IsInvalid _ = Unit

abbrev pub HasFields : Bytes → Type 0
HasFields (_ ∷ _ ∷ ind ∷ rest) = has_fields ind ≡ true
HasFields _ = ⊥

-- What the fields of a message are refused by: their size, a byte that is not ASCII, a text that is no
-- number or no reason.
abbrev pub IsFieldError : Error → Type 0
IsFieldError e = (e ≡ struct_error) ⊎ (e ≡ unicode_error) ⊎ (e ≡ value_error)

abbrev pub Refused : Bytes → Result (ℕ × SoupMessage) → Type 0
Refused bs (ok v) = IsInvalid bs → ⊥
Refused bs (raised e) =
    ((e ≡ invalid_soup_message) × IsInvalid bs)
    ⊎ (IsFieldError e × HasFields bs × (IsInvalid bs → ⊥))

abbrev FieldErrors {ℓ} : {V : Type ℓ} → Result V → Type 0
FieldErrors (raised e) = IsFieldError e
FieldErrors (ok v) = Unit {0}

FieldErrors->>= {ℓ κ} :
    {V : Type ℓ} {W : Type κ} (call : Result V) (next : V → Result W)
    → FieldErrors call
    → ((v : V) → FieldErrors (next v))
    → FieldErrors (call >>= next)
FieldErrors->>= (raised e) next h each = h
FieldErrors->>= (ok v) next h each = each v

FieldErrors-if {ℓ} :
    {V : Type ℓ} (b : Bool) (x y : Result V)
    → FieldErrors x
    → FieldErrors y
    → FieldErrors (if b then x else y)
FieldErrors-if true x y h k = h
FieldErrors-if false x y h k = k

transcode-FieldErrors : (e : Encoding) (s : Bytes) → FieldErrors (transcode e s)
unfolding transcode
transcode-FieldErrors e [] = tt
transcode-FieldErrors e (c ∷ cs) =
    FieldErrors->>= (transcode e cs) _ (transcode-FieldErrors e cs)
      λ rest. FieldErrors-if (ltb c (code_limit e)) _ _ tt (inr (inl refl))

as_int-FieldErrors : (f : ℕ → ℤ) (n : Option ℕ) → FieldErrors (as_int f n)
as_int-FieldErrors f none = inr (inr refl)
as_int-FieldErrors f (some n) = tt

parse_int-FieldErrors : (s : Bytes) → FieldErrors (parse_int s)
unfolding parse_int
parse_int-FieldErrors s = signed (strip is_int_space s)
  where
    signed : (s : Bytes) → FieldErrors (read_signed s)
    signed [] = inr (inr refl)
    signed (c ∷ cs) =
        FieldErrors-if (c == b'-') _ _ (as_int-FieldErrors negated _)
          (FieldErrors-if (c == b'+') _ _ (as_int-FieldErrors pos _) (as_int-FieldErrors pos _))

unpack_int-FieldErrors : (bs : Bytes) → FieldErrors (unpack_int bs)
unfolding unpack_int
unpack_int-FieldErrors bs = parse_int-FieldErrors (strip is_blank_or_nul bs)

check_size-FieldErrors : (size : ℕ) (bs : Bytes) → FieldErrors (check_size size bs)
unfolding check_size
check_size-FieldErrors size bs = FieldErrors-if (length bs == size) _ _ tt (inl refl)

unpack_string-FieldErrors : (bs : Bytes) → FieldErrors (unpack_string bs)
unfolding unpack_string
unpack_string-FieldErrors bs =
    FieldErrors->>= (transcode ascii bs) _ (transcode-FieldErrors ascii bs) (λ s. tt)

get_reason-FieldErrors : (s : Bytes) → FieldErrors (get_reason s)
unfolding get_reason
get_reason-FieldErrors [] = inr (inr refl)
get_reason-FieldErrors (c ∷ []) =
    FieldErrors-if (c == b'A') _ _ tt (FieldErrors-if (c == b'S') _ _ tt (inr (inr refl)))
get_reason-FieldErrors (c ∷ d ∷ s) = inr (inr refl)

payload-FieldErrors {ℓ} :
    {V : Type ℓ} (bs : Bytes) (next : Bytes → Result V)
    → ((p : Bytes) → FieldErrors (next p))
    → FieldErrors (payload_of bs >>= next)
unfolding payload_of
payload-FieldErrors bs next each =
    FieldErrors->>= (payload_of bs) next
      (FieldErrors->>= (check_size 3 (take 3 bs)) _ (check_size-FieldErrors 3 (take 3 bs))
        (λ u. tt))
      each

-- What `unpack` of a class with fields raises.
abbrev FieldClass : (Bytes → Result SoupMessage) → Type 0
FieldClass unpack = (bs : Bytes) → FieldErrors (unpack bs)

login_request_class : FieldClass unpack_login_request
unfolding unpack_login_request
login_request_class bs = FieldErrors->>= (check_size 49 bs) _ (check_size-FieldErrors 49 bs) λ _.
    FieldErrors->>= (unpack_string (slice 3 9 bs)) _ (unpack_string-FieldErrors _) λ _.
      FieldErrors->>= (unpack_string (slice 9 19 bs)) _ (unpack_string-FieldErrors _) λ _.
        FieldErrors->>= (unpack_string (slice 19 29 bs)) _ (unpack_string-FieldErrors _)
          λ _. FieldErrors->>= (unpack_int (slice 29 49 bs)) _ (unpack_int-FieldErrors _) λ _. tt

login_accepted_class : FieldClass unpack_login_accepted
unfolding unpack_login_accepted
login_accepted_class bs = FieldErrors->>= (check_size 33 bs) _ (check_size-FieldErrors 33 bs) λ _.
    FieldErrors->>= (unpack_string (slice 3 13 bs)) _ (unpack_string-FieldErrors _)
      λ _. FieldErrors->>= (unpack_int (slice 13 33 bs)) _ (unpack_int-FieldErrors _) λ _. tt

login_rejected_class : FieldClass unpack_login_rejected
unfolding unpack_login_rejected
login_rejected_class bs = FieldErrors->>= (check_size 4 bs) _ (check_size-FieldErrors 4 bs) λ _.
    FieldErrors->>= (unpack_string (slice 3 4 bs)) _ (unpack_string-FieldErrors _)
      λ text. FieldErrors->>= (get_reason text) _ (get_reason-FieldErrors text) λ _. tt

sequenced_class : FieldClass unpack_sequenced
unfolding unpack_sequenced
sequenced_class bs = payload-FieldErrors bs _ λ _. tt

unsequenced_class : FieldClass unpack_unsequenced
unfolding unpack_unsequenced
unsequenced_class bs = payload-FieldErrors bs _ λ _. tt

debug_class : FieldClass unpack_debug
unfolding unpack_debug
debug_class bs = payload-FieldErrors bs _ λ payload.
    FieldErrors->>= (transcode ascii payload) _ (transcode-FieldErrors ascii payload) λ _. tt

-- The class of an indicator.
abbrev ClassIs : ℕ → Option (Bytes → Result SoupMessage) → Type 0
ClassIs ind none = (is_plain ind ≡ false) × (has_fields ind ≡ false)
ClassIs ind (some unpack) =
    ((is_plain ind ≡ true) × ((msg : SoupMessage) × (unpack ≡ unpack_plain msg)))
    ⊎ ((is_plain ind ≡ false) × (has_fields ind ≡ true) × FieldClass unpack)

class_if :
    (c ind : ℕ) (x y : Option (Bytes → Result SoupMessage))
    → ClassIs c x
    → ((ind == c) ≡ false → ClassIs ind y)
    → ClassIs ind (if ind == c then x else y)
class_if c ind x y h k = elim (Bool-cases (ind == c)) [
  | inl e ↦ let same : ind ≡ c = ground arith in rw e (subst (λ (i : ℕ). ClassIs i x) (sym same) h)
  | inr e ↦ rw e (k e)
]

class_by_indicator-ClassIs : (ind : ℕ) → ClassIs ind (class_by_indicator ind)
unfolding class_by_indicator
class_by_indicator-ClassIs ind = class_if b'L' ind _ _ (inr (refl, refl, login_request_class)) λ n0.
    class_if b'A' ind _ _ (inr (refl, refl, login_accepted_class)) λ n1.
      class_if b'J' ind _ _ (inr (refl, refl, login_rejected_class)) λ n2.
        class_if b'S' ind _ _ (inr (refl, refl, sequenced_class)) λ n3.
          class_if b'U' ind _ _ (inr (refl, refl, unsequenced_class)) λ n4.
            class_if b'+' ind _ _ (inr (refl, refl, debug_class)) λ n5.
              class_if b'R' ind _ _ (inl (refl, (client_heartbeat, refl))) λ n6.
                class_if b'H' ind _ _ (inl (refl, (server_heartbeat, refl))) λ n7.
                  class_if b'Z' ind _ _ (inl (refl, (end_of_session, refl))) λ n8.
                    class_if b'O' ind _ _ (inl (refl, (logout_request, refl)))
                      λ n9. (simp (n6, n7, n8, n9), simp (n0, n1, n2, n3, n4, n5))

unpack_plain_invalid :
    (msg : SoupMessage) (a b c : ℕ) (rest : Bytes)
    → rest ≢ []
    → unpack_plain msg (a ∷ b ∷ c ∷ rest) ≡ raised invalid_soup_message
unpack_plain_invalid msg a b c [] h = absurd (h refl)
unpack_plain_invalid msg a b c (d ∷ rest) h = unfold unpack_plain in ground arith

as_invalid_field :
    (bs : Bytes) (r : Result SoupMessage) (n : ℕ)
    → FieldErrors r
    → HasFields bs
    → (IsInvalid bs → ⊥)
    → Refused bs (as_invalid (r >>= λ msg. ok (n, msg)))
as_invalid_field bs (ok msg) n h fields valid = valid
as_invalid_field bs (raised e) n (inl h) fields valid = rw h (inr (inl refl, fields, valid))
as_invalid_field bs (raised e) n (inr (inl h)) fields valid =
    rw h (inr (inr (inl refl), fields, valid))
as_invalid_field bs (raised e) n (inr (inr h)) fields valid =
    rw h (inr (inr (inr refl), fields, valid))

plain_lem :
    (msg : SoupMessage) (a b ind : ℕ) (rest : Bytes)
    → is_plain ind ≡ true
    → Refused (a ∷ b ∷ ind ∷ rest) (
        as_invalid
          (unpack_plain msg (a ∷ b ∷ ind ∷ rest) >>= λ msg. ok (length (a ∷ b ∷ ind ∷ rest), msg)))
unfolding unpack_plain
plain_lem msg a b ind [] plain = λ invalid. not_invalid invalid
  where
    not_invalid : IsInvalid (a ∷ b ∷ ind ∷ []) → ⊥
    not_invalid (inl (other, _)) = absurd (cc (plain, other))
    not_invalid (inr (_, more)) = more refl
plain_lem msg a b ind (d ∷ rest) plain =
    rw (unpack_plain_invalid msg a b ind (d ∷ rest) (λ e. cc)) (inl (refl, inr (plain, λ e. cc)))

-- `from_bytes` raises InvalidSoupMessage exactly for fewer than three bytes, an indicator of no
-- message, and bytes behind a message without fields. Otherwise it returns a message, or the message
-- has fields, and it raises struct.error, UnicodeDecodeError or ValueError: no KeyError and no
-- IndexError is left.
pub from_bytes-Refused : (bs : Bytes) → Refused bs (from_bytes bs)
unfolding from_bytes
from_bytes-Refused [] = inl (refl, tt)
from_bytes-Refused (a ∷ []) = inl (refl, tt)
from_bytes-Refused (a ∷ b ∷ []) = inl (refl, tt)
from_bytes-Refused (a ∷ b ∷ ind ∷ rest) =
    of_class (class_by_indicator ind) (class_by_indicator-ClassIs ind)
  where
    bs : Bytes
    bs = a ∷ b ∷ ind ∷ rest

    not_invalid : is_plain ind ≡ false → has_fields ind ≡ true → IsInvalid bs → ⊥
    not_invalid not_plain fields (inl (_, other)) = absurd (cc (fields, other))
    not_invalid not_plain fields (inr (plain, _)) = absurd (cc (not_plain, plain))

    of_class :
        (c : Option (Bytes → Result SoupMessage))
        → ClassIs ind c
        → Refused bs
            (as_invalid (found_class c >>= λ unpack. unpack bs >>= λ msg. ok (length bs, msg)))
    of_class none h = inl (refl, inl h)
    of_class (some unpack) (inl (plain, (msg, e))) =
        subst
          (λ (u : Bytes → Result SoupMessage).
            Refused bs (as_invalid (u bs >>= λ msg. ok (length bs, msg))))
          (sym e) (plain_lem msg a b ind rest plain)
    of_class (some unpack) (inr (not_plain, fields, h)) =
        as_invalid_field bs (unpack bs) (length bs) (h bs) fields (not_invalid not_plain fields)

unpack_short_large :
    (n : ℕ) → 32768 ≤ n → n < 65536 → ltb_ℤ (pos 1) (unpack_short (short_bytes n)) ≡ false
unpack_short_large n h k = unfold unpack_short Bytes.from_bytes in ground arith

dropped :
    (payload : Bytes)
    → 32768 ≤ length payload + 1
    → length payload + 1 < 65536
    → unpack_sequenced (short_bytes (length payload + 1) ++ (b'S' ∷ payload))
      ≡ ok (sequenced_data [])
dropped payload h k =
    unfold unpack_sequenced payload_of in rw (unpack_short_large (length payload + 1) h k)

-- A sequenced message with a length of 32768 or more, which the reader frames as unsigned, is
-- unpacked with a signed length: its payload is dropped, whatever it is, and no error is raised.
pub from_bytes_drops_payload :
    (payload : Bytes)
    → 32768 ≤ length payload + 1
    → length payload + 1 < 65536
    → from_bytes (short_bytes (length payload + 1) ++ (b'S' ∷ payload))
      ≡ ok (length payload + 3, sequenced_data [])
from_bytes_drops_payload payload h k =
    from_bytes_dispatch _ _ b'S' payload {unpack = unpack_sequenced}
      (unfold class_by_indicator in refl) (dropped payload h k)
    ∙ ap (λ (n : ℕ). ok (n, sequenced_data [])) (omega arith)
