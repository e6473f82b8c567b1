-- ===== src/Common/Message/Types.antt =====
-- src/nasdaq_protocols/common/message/types.py: the elementary types of message fields.
-- Offsets are ℤ, and a negative slice bound counts from the end, as in Python: a negative length in
-- front of a string gives such bounds.
pub mod RoundTrip
use nasdaq_protocols.Prelude.{
  ℕ, zero, suc, ◌+◌, ◌-◌, Bool, true, false, List, [], ◌∷◌, ◌++◌, ◌==◌, if◌then◌else◌, ℤ, pos,
  negsuc, ◌+ℤ◌, Result, ok, raised, ◌>>=◌, length, take, drop,
}
use nasdaq_protocols.Python.Bytes
use nasdaq_protocols.Python.Bytes.{Bytes, Endian, little, big}
use nasdaq_protocols.Python.Text.{
  Str, Encoding, ascii, iso8859_1, encode, decode, ljust, rjust, strip, is_space,
}

-- Where a slice bound lies in a sequence of `len` elements.
abbrev pub bound : ℕ → ℤ → ℕ
bound len (pos n) = n
bound len (negsuc n) = len - suc n

-- xs[start:] and xs[start:end]
abbrev pub from_index : ℤ → Bytes → Bytes
from_index start bs = drop (bound (length bs) start) bs

abbrev pub between : ℤ → ℤ → Bytes → Bytes
between start end bs =
    let a = bound (length bs) start in let b = bound (length bs) end in take (b - a) (drop a bs)

-- The parameters of `_int_packer_fac` and `_int_unpacker_fac`.
pub record IntType : Type 0 where
  pub endian : Endian
  pub signed : Bool
  pub size : ℕ

unfoldable pub pack_int : IntType → ℤ → Result (ℕ × Bytes)
pack_int t value = do bs ← Bytes.to_bytes t.endian t.signed t.size value; ok (t.size, bs)

unfoldable pub unpack_int : IntType → Bytes → ℤ × ℤ
unpack_int t bs = (pos t.size, Bytes.from_bytes t.endian t.signed (take t.size bs))

abbrev int : IntType
int = record { endian = little; signed = true; size = 4 }

abbrev int_be : IntType
int_be = record { endian = big; signed = true; size = 4 }

abbrev unsigned_int : IntType
unsigned_int = record { endian = little; signed = false; size = 4 }

abbrev unsigned_int_be : IntType
unsigned_int_be = record { endian = big; signed = false; size = 4 }

abbrev pub byte : IntType
byte = record { endian = little; signed = false; size = 1 }

abbrev pub short : IntType
short = record { endian = little; signed = true; size = 2 }

abbrev short_be : IntType
short_be = record { endian = big; signed = true; size = 2 }

abbrev unsigned_short : IntType
unsigned_short = record { endian = little; signed = false; size = 2 }

abbrev unsigned_short_be : IntType
unsigned_short_be = record { endian = big; signed = false; size = 2 }

abbrev long : IntType
long = record { endian = little; signed = true; size = 8 }

abbrev long_be : IntType
long_be = record { endian = big; signed = true; size = 8 }

abbrev unsigned_long : IntType
unsigned_long = record { endian = little; signed = false; size = 8 }

abbrev unsigned_long_be : IntType
unsigned_long_be = record { endian = big; signed = false; size = 8 }

unfoldable pub pack_bool : Bool → ℕ × Bytes
pack_bool true = (1, 1 ∷ [])
pack_bool false = (1, 0 ∷ [])

abbrev starts_with_one : Bytes → Bool
starts_with_one [] = false
starts_with_one (b ∷ bs) = b == 1

unfoldable pub unpack_bool : Bytes → ℤ × Bool
unpack_bool bs = (pos 1, starts_with_one bs)

-- `CharAscii` and `CharIso8599`
unfoldable pub pack_char : Encoding → Str → Result (ℕ × Bytes)
pack_char e s = do bs ← encode e (take 1 s); ok (1, bs)

unfoldable pub unpack_char : Encoding → Bytes → Result (ℤ × Str)
unpack_char e bs = do s ← decode e (take 1 bs); ok (pos 1, s)

-- `_str_pack_fac` and `_str_unpack_fac`: a string behind its length, a signed short
unfoldable pub pack_string : Encoding → Str → Result (ℕ × Bytes)
pack_string e s = do
  (len_size, len_bytes) ← pack_int short (pos (length s))
  bs ← encode e s
  ok (len_size + length s, len_bytes ++ bs)

unfoldable pub unpack_string : Encoding → Bytes → Result (ℤ × Str)
unpack_string e bs =
    let (offset, len_) = unpack_int short bs in
    do s ← decode e (between offset (offset +ℤ len_) bs); ok (offset +ℤ len_, s)

-- `FixedAsciiString` and `FixedIsoString`
pub record FixedString : Type 0 where
  pub encoding : Encoding
  pub length_ : ℕ
  pub right_justified : Bool

abbrev pub justify : FixedString → Str → Str
justify t s = if t.right_justified then rjust t.length_ s else ljust t.length_ s

unfoldable pub pack_fixed : FixedString → Str → Result (ℕ × Bytes)
pack_fixed t s = do bs ← encode t.encoding (justify t s); ok (t.length_, bs)

unfoldable pub unpack_fixed : FixedString → Bytes → Result (ℤ × Str)
unpack_fixed t bs = do
  s ← decode t.encoding (take t.length_ bs)
  ok (pos t.length_, strip is_space s)
