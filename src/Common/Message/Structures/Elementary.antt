-- ===== src/Common/Message/Structures/Elementary.antt =====
-- Packing and unpacking a value of an elementary type: common/message/structures.py.
use nasdaq_protocols.Prelude.{
  ℕ, suc, ◌+◌, ◌≤◌, ◌<◌, ◌≡◌, refl, ap, Bool, true, false, [], ◌∷◌, ◌++◌, arith, ℤ, pos, ok, length,
  length-append,
}
use nasdaq_protocols.Python.Bytes.{Bytes}
use nasdaq_protocols.Common.Message.Types
use nasdaq_protocols.Python.Text.{Str, Encoding, IsEncodable, IsTrimmed, is_space}
use nasdaq_protocols.Common.Message.Types.{IntType, FixedString, unpack_int}
use nasdaq_protocols.Common.Message.Types.RoundTrip.{
  unpack_int-pack_int, unpack_bool-pack_bool, unpack_char-pack_char, pack_string_lem,
  unpack_fixed-pack_fixed,
}
use nasdaq_protocols.Common.Message.Structures.{
  bool, int, str, FieldType, truthy, to_bytes, from_bytes,
}
use nasdaq_protocols.Common.Message.Structures.Returns.{RoundTrips}

pub boolean_returns : (b : Bool) → RoundTrips FieldType.boolean (bool b)
boolean_returns b = (
  (Types.pack_bool b).1,
  unfold to_bytes in ap ok (one_byte b),
  λ rest.
      unfold from_bytes in
      rw (unpack_bool-pack_bool b rest) (ap (λ (n : ℕ). ok (pos n, bool b)) (one b)),
)
  where
    one_byte :
        (b : Bool)
        → Types.pack_bool (truthy (bool b)) ≡ (length (Types.pack_bool b).1, (Types.pack_bool b).1)
    one_byte true = unfold truthy Types.pack_bool in refl
    one_byte false = unfold truthy Types.pack_bool in refl

    one : (b : Bool) → 1 ≡ length (Types.pack_bool b).1
    one true = unfold Types.pack_bool in refl
    one false = unfold Types.pack_bool in refl

pub integer_returns :
    (t : IntType) (size : ℕ) (z : ℤ) (n : ℕ) (bs : Bytes)
    → t.size ≡ suc size
    → Types.pack_int t z ≡ ok (n, bs)
    → RoundTrips (FieldType.integer t) (int z)
integer_returns t size z n bs positive h =
    let (width, _) = unpack_int-pack_int t size z n bs [] positive h in
    (
      bs,
      unfold to_bytes in rw h (rw width),
      λ rest.
          let read = (unpack_int-pack_int t size z n bs rest positive h).1 in
          unfold from_bytes in rw read (rw width),
    )

pub char_returns :
    (e : Encoding) (c : ℕ) → IsEncodable e (c ∷ []) → RoundTrips (FieldType.char e) (str (c ∷ []))
char_returns e c h =
    let p = unpack_char-pack_char e c [] h in
    (
      c ∷ [],
      unfold to_bytes in p.0,
      λ rest. unfold from_bytes in rw (unpack_char-pack_char e c rest h).1,
    )

pub string_returns :
    (e : Encoding) (s : Str)
    → IsEncodable e s
    → length s < 32768
    → RoundTrips (FieldType.string e) (str s)
string_returns e s h small =
    let (head, width, p, q) = pack_string_lem e s h small in
    let size : length (head ++ s) ≡ 2 + length s = omega (arith, length-append head s) in
    (
      head ++ s,
      unfold to_bytes in rw p (rw size),
      λ rest. unfold from_bytes in rw (q rest) (rw size),
    )

pub fixed_returns :
    (t : FixedString) (s : Str)
    → length s ≤ t.length_
    → IsEncodable t.encoding s
    → IsTrimmed is_space s
    → RoundTrips (FieldType.fixed_string t) (str s)
fixed_returns t s fits enc trimmed =
    let (bs, width, p, q) = unpack_fixed-pack_fixed t s fits enc trimmed in
    (bs, unfold to_bytes in rw p (rw width), λ rest. unfold from_bytes in rw (q rest) (rw width))
