-- ===== src/Common/Message/Types/RoundTrip.antt =====
-- What the elementary types pack is unpacked again: common/message/types.py.
use nasdaq_protocols.Prelude.{
  ℕ, suc, ◌+◌, ◌-◌, ◌/◌, ◌%◌, ◌≤◌, ◌<◌, ◌≡◌, refl, sym, ap, ◌∙◌, Bool, true, false, [], ◌∷◌, ◌++◌,
  append-nil, arith, ℤ, pos, ◌+ℤ◌, ok, >>=-eq-ok, length, take-append_eq, Bool-cases, inl, inr,
}
use nasdaq_protocols.Python.Bytes
use nasdaq_protocols.Python.Bytes.{Bytes, little, from_bytes-to_bytes, length-to_bytes}
use nasdaq_protocols.Python.Text.{
  Str, Encoding, IsEncodable, IsTrimmed, is_space, strip, transcode_lem, ljust, rjust, length-ljust,
  length-rjust, ljust-IsEncodable, rjust-IsEncodable, strip-ljust, strip-rjust,
}
use nasdaq_protocols.Common.Message.Types.{
  IntType, short, between, pack_int, unpack_int, pack_char, unpack_char, pack_string, unpack_string,
  FixedString, justify, pack_fixed, unpack_fixed, pack_bool, unpack_bool,
}

-- An integer in the range of its type is written on exactly the bytes of the type, and is read back
-- whatever follows.
pub unpack_int-pack_int :
    (t : IntType) (size : ℕ) (v : ℤ) (n : ℕ) (bs rest : Bytes)
    → t.size ≡ suc size
    → pack_int t v ≡ ok (n, bs)
    → (n ≡ length bs) × (unpack_int t (bs ++ rest) ≡ (pos n, v))
unfolding pack_int unpack_int
unpack_int-pack_int t size v n bs rest positive h =
    let (ds, p, q) = >>=-eq-ok (Bytes.to_bytes t.endian t.signed t.size v) _ h in
    let same : bs ≡ ds = ground arith in
    let width = length-to_bytes t.endian t.signed t.size v ds p in
    let exact = from_bytes-to_bytes t.endian t.signed size v ds (rw positive at p) in
    let front = take-append_eq t.size ds rest (sym width) in
    let same_size : n ≡ t.size = ground arith in
    (
      same_size ∙ sym width ∙ ap (λ (l : Bytes). length l) (sym same),
      rw (same, front, exact, same_size),
    )

pub unpack_bool-pack_bool :
    (b : Bool) (rest : Bytes) → unpack_bool ((pack_bool b).1 ++ rest) ≡ (pos 1, b)
unfolding pack_bool unpack_bool
unpack_bool-pack_bool true rest = refl
unpack_bool-pack_bool false rest = refl

pub unpack_char-pack_char :
    (e : Encoding) (c : ℕ) (rest : Bytes)
    → IsEncodable e (c ∷ [])
    → (pack_char e (c ∷ []) ≡ ok (1, c ∷ [])) × (unpack_char e (c ∷ rest) ≡ ok (pos 1, c ∷ []))
unpack_char-pack_char e c rest h =
    let one = transcode_lem e (c ∷ []) h in
    (unfold pack_char in rw one, unfold unpack_char in rw one)

pub pos-+ℤ : (a b : ℕ) → pos a +ℤ pos b ≡ pos (a + b)
unfolding ◌+ℤ◌
pos-+ℤ a b = ground arith

pack_short : (n : ℕ) → n < 32768 → pack_int short (pos n) ≡ ok (2, (n % 256) ∷ (n / 256) ∷ [])
unfolding pack_int Bytes.to_bytes
pack_short n h = let high : n / 256 % 256 ≡ n / 256 = omega arith in ground (arith, high)

-- A string shorter than 2 ^ 15 that its encoding has is written behind its length.
pub pack_string_lem :
    (e : Encoding) (s : Str)
    → IsEncodable e s
    → length s < 32768
    → (len_bytes : Bytes) × (length len_bytes ≡ 2)
      × (pack_string e s ≡ ok (2 + length s, len_bytes ++ s))
      × ((rest : Bytes) → unpack_string e ((len_bytes ++ s) ++ rest) ≡ ok (pos (2 + length s), s))
pack_string_lem e s h small =
    let n = length s in
    let len_bytes : Bytes = (n % 256) ∷ (n / 256) ∷ [] in
    let packed = pack_short n small in
    let text = transcode_lem e s h in
    (
      len_bytes,
      refl,
      unfold pack_string in rw packed (rw text),
      λ rest.
          let read = (unpack_int-pack_int short 1 (pos n) 2 len_bytes (s ++ rest) refl packed).1 in
          let cut : between (pos 2) (pos (2 + n)) (len_bytes ++ (s ++ rest)) ≡ s =
            take-append_eq (2 + n - 2) s rest (omega arith) in
          unfold unpack_string in rw read (rw (pos-+ℤ 2 n) (rw cut (rw text))),
    )

-- A text that fits its field, that the encoding has and that has no blanks at its ends is written
-- on exactly the size of the field, filled on the side of its justification, and read back.
pub unpack_fixed-pack_fixed :
    (t : FixedString) (s : Str)
    → length s ≤ t.length_
    → IsEncodable t.encoding s
    → IsTrimmed is_space s
    → (bs : Bytes) × (length bs ≡ t.length_)
      × (pack_fixed t s ≡ ok (t.length_, bs))
      × ((rest : Bytes) → unpack_fixed t (bs ++ rest) ≡ ok (pos t.length_, s))
unpack_fixed-pack_fixed t s fits enc trimmed = (
  justify t s,
  width,
  unfold pack_fixed in rw (transcode_lem t.encoding (justify t s) text),
  λ rest.
      unfold unpack_fixed in
      rw (take-append_eq t.length_ (justify t s) rest (sym width))
        (rw (transcode_lem t.encoding (justify t s) text) (rw back)),
)
  where
    width : length (justify t s) ≡ t.length_
    width = elim (Bool-cases t.right_justified) [
      | inl r ↦ simp r (length-rjust t.length_ s fits)
      | inr l ↦ simp l (length-ljust t.length_ s fits)
    ]

    text : IsEncodable t.encoding (justify t s)
    text = elim (Bool-cases t.right_justified) [
      | inl r ↦ simp r (rjust-IsEncodable t.encoding t.length_ s enc)
      | inr l ↦ simp l (ljust-IsEncodable t.encoding t.length_ s enc)
    ]

    back : strip is_space (justify t s) ≡ s
    back = elim (Bool-cases t.right_justified) [
      | inl r ↦ simp r (strip-rjust t.length_ s trimmed)
      | inr l ↦ simp l (strip-ljust t.length_ s trimmed)
    ]

-- A text longer than its field is written whole: more bytes than the size that is returned.
pub pack_fixed_overlong :
    (t : FixedString) (s : Str)
    → t.length_ < length s
    → IsEncodable t.encoding s
    → pack_fixed t s ≡ ok (t.length_, s)
pack_fixed_overlong t s long enc =
    let nothing : t.length_ - length s ≡ 0 = omega arith in
    let same : justify t s ≡ s = elim (Bool-cases t.right_justified) [
      | inl r ↦ simp r (unfold rjust in rw nothing)
      | inr l ↦ simp l (unfold ljust in rw nothing (append-nil s))
    ] in
    unfold pack_fixed in rw same (rw (transcode_lem t.encoding s enc))
