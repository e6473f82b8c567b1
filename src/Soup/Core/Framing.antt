-- ===== src/Soup/Core/Framing.antt =====
-- The length prefix of packed soup messages: src/nasdaq_protocols/soup/core.py.
use nasdaq_protocols.Prelude.{
  ℕ, ◌+◌, ◌-◌, ◌≤◌, ◌<◌, ◌≡◌, refl, [], ◌∷◌, ◌++◌, arith, Result, ok, raised, struct_error, ◌>>=◌,
  length, length-append, length-take, length-replicate, take, replicate,
}
use nasdaq_protocols.Python.Bytes.{Bytes, big, unsigned_value}
use nasdaq_protocols.Python.Text.{transcode, ascii, transcode-IsEncodable}
use nasdaq_protocols.Python.Decimal.{str_int}
use nasdaq_protocols.Python.Struct.{short_bytes, pack_short_overflow, pack_string}
use mathlib.Core.Path.{subst}
use native.Mathlib.Decide.{dec_lt}
use nasdaq_protocols.Soup.Core.RoundTrip.{pack_header_lem}
use nasdaq_protocols.Soup.Core.{
  SoupMessage, login_request, login_accepted, login_rejected, sequenced_data, unsequenced_data,
  debug, client_heartbeat, pack_field, pack_header, with_length, to_bytes,
}

-- The first two bytes are the length of what follows them, and something follows.
pub record IsFramed (n : ℕ) (bs : Bytes) : Type 0 where
  pub size : n ≡ length bs
  pub at_least : 3 ≤ n
  pub below : n < 32770
  pub prefix : unsigned_value big (take 2 bs) ≡ n - 2

short_bytes_value : (len : ℕ) → unsigned_value big (short_bytes len) ≡ len
unfolding unsigned_value
short_bytes_value len = ground arith

pack_header_overflow : (len ind : ℕ) → 32768 ≤ len → pack_header len ind ≡ raised struct_error
pack_header_overflow len ind h = unfold pack_header in rw (pack_short_overflow len h)

pub pack_header_inv :
    (len ind : ℕ) (header : Bytes)
    → pack_header len ind ≡ ok header
    → (len < 32768) × (header ≡ short_bytes len ++ (ind ∷ []))
pack_header_inv len ind header h = elim (dec_lt len 32768) [
  | yes small ↦ (small, cc (pack_header_lem len ind small))
  | no large ↦ cc (pack_header_overflow len ind (omega arith))
]

IsFramed-of_header :
    (len ind : ℕ) (header body : Bytes)
    → pack_header len ind ≡ ok header
    → length body + 1 ≡ len
    → IsFramed (length (header ++ body)) (header ++ body)
IsFramed-of_header len ind header body h l =
    let (small, e) = pack_header_inv len ind header h in
    rw e (record {
      size = refl;
      at_least = omega arith;
      below = omega arith;
      prefix = omega (arith, short_bytes_value len);
    })

length-pack_string : (n : ℕ) (bs : Bytes) → length (pack_string n bs) ≡ n
unfolding pack_string
length-pack_string n bs = omega (
  arith,
  length-append (take n bs) (replicate (n - length bs) 0),
  length-take n bs,
  length-replicate {A = ℕ} (n - length bs) 0,
)

abbrev FramedResult : Result (ℕ × Bytes) → Type 0
FramedResult (ok (n, bs)) = IsFramed n bs
FramedResult (raised e) = Unit

FramedResult-bind :
    {A : Type 0} (m : Result A) (f : A → Result (ℕ × Bytes))
    → ((a : A) → m ≡ ok a → FramedResult (f a))
    → FramedResult (m >>= f)
FramedResult-bind (ok a) f h = h a refl
FramedResult-bind (raised e) f h = tt

-- The end of a `to_bytes`: a header, then a body of the length that it announces.
framed_body :
    (len ind : ℕ) (body : Bytes)
    → length body + 1 ≡ len
    → FramedResult (pack_header len ind >>= λ header. ok (with_length (header ++ body)))
framed_body len ind body l =
    FramedResult-bind (pack_header len ind) _
      (λ header p. IsFramed-of_header len ind header body p l)

length-four :
    (a b c d : Bytes)
    → length (pack_string 6 a ++ (pack_string 10 b ++ (pack_string 10 c ++ pack_string 20 d))) ≡ 46
length-four a b c d =
    rw (length-append, length-append, length-append)
      (omega (
        arith,
        length-pack_string 6 a,
        length-pack_string 10 b,
        length-pack_string 10 c,
        length-pack_string 20 d,
      ))

length-two : (a b : Bytes) → length (pack_string 10 a ++ pack_string 20 b) ≡ 30
length-two a b = rw length-append (omega (arith, length-pack_string 10 a, length-pack_string 20 b))

IsFramed-plain : (ind : ℕ) → IsFramed 3 (short_bytes 1 ++ (ind ∷ []))
IsFramed-plain ind = record {
  size = refl;
  at_least = omega arith;
  below = omega arith;
  prefix = short_bytes_value 1;
}

framed_result : (msg : SoupMessage) → FramedResult (to_bytes msg)
framed_result (login_request user password session sequence) =
    unfold to_bytes in
    FramedResult-bind (pack_field user 6) _ λ a _.
      FramedResult-bind (pack_field password 10) _ λ b _.
        FramedResult-bind (pack_field session 10) _ λ c _.
          FramedResult-bind (pack_field sequence 20) _
            λ d _. framed_body 47 _ _ (omega (arith, length-four a b c d))
framed_result (login_accepted session_id sequence) =
    unfold to_bytes in
    FramedResult-bind (pack_field session_id 10) _ λ a _.
      FramedResult-bind (pack_field (str_int sequence) 20) _
        λ b _. framed_body 31 _ _ (omega (arith, length-two a b))
framed_result (login_rejected reason) = unfold to_bytes in framed_body 2 _ _ refl
framed_result (sequenced_data payload) = unfold to_bytes in framed_body _ _ payload refl
framed_result (unsequenced_data payload) = unfold to_bytes in framed_body _ _ payload refl
framed_result (debug msg) =
    unfold to_bytes in
    FramedResult-bind (pack_header (length msg + 1) b'+') _ λ header p.
      FramedResult-bind (transcode ascii msg) _ λ text q.
        IsFramed-of_header (length msg + 1) b'+' header text p
          (rw ((transcode-IsEncodable ascii msg text q).1))
framed_result client_heartbeat = unfold to_bytes in IsFramed-plain b'R'
framed_result _ = unfold to_bytes in IsFramed-plain _

-- Whatever message `to_bytes` packs, also one whose texts it cuts, it returns the size of the bytes,
-- at least 3, and the first two bytes are, unsigned and high byte first, the number of those behind.
pub to_bytes-IsFramed :
    (msg : SoupMessage) (n : ℕ) (bs : Bytes) → to_bytes msg ≡ ok (n, bs) → IsFramed n bs
to_bytes-IsFramed msg n bs h = subst FramedResult h (framed_result msg)
