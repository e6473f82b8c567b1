-- ===== src/Fix/Types/RoundTrip.antt =====
-- The fields of fix/types.py are read back.
use nasdaq_protocols.Prelude.{ℕ, ◌≡◌, refl, Bool, true, false, [], ◌∷◌, ℤ, Result, ok, length}
use nasdaq_protocols.Python.Bytes.{Bytes}
use nasdaq_protocols.Python.Text.{Str, IsEncodable, ascii, transcode_lem}
use nasdaq_protocols.Python.Decimal.{str_int, parse_int-str_int, str_int-IsEncodable}
use nasdaq_protocols.Fix.Types.{
  FixType, fix_bool, fix_int, fix_float, base, pack_str, unpack_str, pack_int, unpack_int,
  pack_bool, unpack_bool, pack_float, unpack_float, ValueOfBase, pack_base, unpack_base, to_bytes,
  from_bytes,
}

-- What is packed has the size that is returned, and is unpacked to the value.
abbrev pub ReadsBack {ℓ} : {A : Type ℓ} → Result (ℕ × Bytes) → (Bytes → Result (ℕ × A)) → A → Type ℓ
ReadsBack packed unpack v =
    (bs : Bytes) × (packed ≡ ok (length bs, bs)) × (unpack bs ≡ ok (length bs, v))

pack_str-ReadsBack : (s : Str) → IsEncodable ascii s → ReadsBack (pack_str s) unpack_str s
unfolding pack_str unpack_str
pack_str-ReadsBack s h = let e = transcode_lem ascii s h in (s, rw e refl, rw e refl)

pack_int-ReadsBack : (z : ℤ) → ReadsBack (pack_int z) unpack_int z
unfolding pack_int unpack_int
pack_int-ReadsBack z =
    let e = transcode_lem ascii (str_int z) (str_int-IsEncodable z) in
    (str_int z, rw e refl, rw e (rw (parse_int-str_int z) refl))

pack_bool-ReadsBack : (b : Bool) → ReadsBack (pack_bool b) unpack_bool b
unfolding pack_bool unpack_bool
pack_bool-ReadsBack true = (b'Y' ∷ [], refl, refl)
pack_bool-ReadsBack false = (b'N' ∷ [], refl, refl)

module _ (Float : Type 0) (str_float : Float → Str) (parse_float : Str → Result Float) where
  abbrev pub IsAscii : (t : FixType) → ValueOfBase Float str_float parse_float t → Type 0
  IsAscii fix_bool v = Unit
  IsAscii fix_int v = Unit
  IsAscii fix_float v = Unit
  IsAscii _ v = IsEncodable ascii v

module _ (Float : Type 0) (str_float : Float → Str) (parse_float : Str → Result Float)
    (str_ascii : (x : Float) → IsEncodable ascii (str_float x))
    (parse_str : (x : Float) → parse_float (str_float x) ≡ ok x) where
  pack_float-ReadsBack :
      (x : Float)
      → ReadsBack
          (pack_float Float str_float parse_float x)
          (unpack_float Float str_float parse_float)
          x
  unfolding pack_float unpack_float
  pack_float-ReadsBack x =
      let e = transcode_lem ascii (str_float x) (str_ascii x) in
      (str_float x, rw e refl, rw e (rw (parse_str x) refl))

  base-ReadsBack :
      (t : FixType) (v : ValueOfBase Float str_float parse_float t)
      → IsAscii Float str_float parse_float t v
      → ReadsBack
          (pack_base Float str_float parse_float t v)
          (unpack_base Float str_float parse_float t)
          v
  base-ReadsBack fix_bool v h = pack_bool-ReadsBack v
  base-ReadsBack fix_int v h = pack_int-ReadsBack v
  base-ReadsBack fix_float v h = pack_float-ReadsBack v
  base-ReadsBack _ v h = pack_str-ReadsBack v h

  -- A value of any FIX type is packed, with the size that is returned, and unpacked again from
  -- these bytes: a text that is ASCII, and for floats where `str` writes ASCII and `float` reads
  -- back what it writes.
  pub fix_round_trip :
      (t : FixType) (v : ValueOfBase Float str_float parse_float (base t))
      → IsAscii Float str_float parse_float (base t) v
      → ReadsBack
          (to_bytes Float str_float parse_float t v)
          (from_bytes Float str_float parse_float t)
          v
  unfolding to_bytes from_bytes
  fix_round_trip t v h = base-ReadsBack (base t) v h
