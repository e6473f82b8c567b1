-- ===== src/Fix/Field/RoundTrip.antt =====
-- A field is read back from what it was written to, whatever bytes follow.
use nasdaq_protocols.Prelude.{
  ℕ, suc, ◌+◌, ◌-◌, ◌<◌, ◌≡◌, refl, ap, Bool, true, false, some, [], ◌∷◌, ◌++◌, append_assoc, ◌==◌,
  arith, ℤ, ok, length, length-append, drop, take-append, drop-append_add, All, All-append,
  append-nil,
}
use nasdaq_protocols.Python.Bytes.{Bytes}
use nasdaq_protocols.Python.Text.{Str, encode, ascii, transcode_lem}
use nasdaq_protocols.Python.Decimal.{
  str_int, parse_int-str_int, str_int-IsEncodable, str_int-IsIntChar, IsIntChar, All-map,
}
use nasdaq_protocols.Python.Find.{slice, find_byte, Lacks, find_byte-append, find_byte-none}
use nasdaq_protocols.Fix.Types.{
  FixType, fix_string, fix_bool, fix_int, fix_float, base, pack_str, unpack_str, pack_bool,
  unpack_bool, unpack_int,
}
use nasdaq_protocols.Fix.Field.{
  Floats, FieldClass, Atom, text, bool, int, float, separator, soh, pack_base, unpack_base,
  to_bytes, from_bytes,
}

-- ASCII, and not the byte that ends a field.
abbrev pub IsClean : ℕ → Type 0
IsClean c = (c < 128) × ((c == soh) ≡ false)

-- What the code relies on in CPython's float: `str` writes clean ASCII, and `float` reads it back.
pub record FloatLaws (fl : Floats) : Type 0 where
  pub str_clean : (x : Floats.Float fl) → All IsClean (fl.str_float x)
  pub parse_str : (x : Floats.Float fl) → fl.parse_float (fl.str_float x) ≡ some x

-- A value of one of the four classes that have functions of their own; a text has only clean
-- characters.
pub data IsValueOf {F : Type 0} : FixType → Atom F → Type 0 where
  a_text : (s : Str) → All IsClean s → IsValueOf fix_string (text s)
  a_bool : (b : Bool) → IsValueOf fix_bool (bool b)
  an_int : (z : ℤ) → IsValueOf fix_int (int z)
  a_float : (x : F) → IsValueOf fix_float (float x)

abbrev pub IsFieldValue : {F : Type 0} → FieldClass → Atom F → Type 0
IsFieldValue c v = IsValueOf (base c.field_type) v

-- What a value is written to, and is read back from.
record IsWritten (fl : Floats) (t : FixType) (v : Atom (Floats.Float fl)) : Type 0 where
  bytes : Bytes
  size : ℕ
  packs : pack_base fl t v ≡ ok (size, bytes)
  reads : unpack_base fl t bytes ≡ ok (length bytes, v)
  clean : Lacks soh bytes

pub IsClean-int : (z : ℤ) → All IsClean (str_int z)
IsClean-int z = All-map IsIntChar IsClean (str_int z) (λ c h. ground arith) (str_int-IsIntChar z)

module _ (fl : Floats) (laws : FloatLaws fl) where
  text-IsWritten :
      (s : Str)
      → All IsClean s
      → (pack_str s ≡ ok (length s, s)) × (unpack_str s ≡ ok (length s, s)) × Lacks soh s
  unfolding pack_str unpack_str
  text-IsWritten s h =
      let e = transcode_lem ascii s (All-map IsClean (λ c. c < 128) s (λ c k. k.0) h) in
      (rw e refl, rw e refl, All-map IsClean (λ c. (c == soh) ≡ false) s (λ c k. k.1) h)

  value-IsWritten : {t : FixType} {v : Atom (Floats.Float fl)} → IsValueOf t v → IsWritten fl t v
  unfolding pack_bool unpack_bool unpack_int
  value-IsWritten (a_text s h) =
      let (packs, reads, clean) = text-IsWritten s h in
      record { bytes = s; size = length s; packs = packs; reads = rw reads refl; clean = clean }
  value-IsWritten (a_bool true) = record {
    bytes = b'Y' ∷ [];
    size = 1;
    packs = refl;
    reads = refl;
    clean = (refl, tt);
  }
  value-IsWritten (a_bool false) = record {
    bytes = b'N' ∷ [];
    size = 1;
    packs = refl;
    reads = refl;
    clean = (refl, tt);
  }
  value-IsWritten (an_int z) =
      let s = str_int z in
      let (packs, reads, clean) = text-IsWritten s (IsClean-int z) in
      record {
        bytes = s;
        size = length s;
        packs = packs;
        reads = rw reads (rw (parse_int-str_int z) refl);
        clean = clean;
      }
  value-IsWritten (a_float x) =
      let s = fl.str_float x in
      let (packs, reads, clean) = text-IsWritten s (laws.str_clean x) in
      record {
        bytes = s;
        size = length s;
        packs = packs;
        reads = rw reads (rw (laws.parse_str x) refl);
        clean = clean;
      }

-- The bytes of a tag and its separator.
abbrev pub tag_key : ℤ → Bytes
tag_key tag = str_int tag ++ separator ∷ []

pub tag_key-encode : (tag : ℤ) → encode ascii (tag_key tag) ≡ ok (tag_key tag)
tag_key-encode tag = transcode_lem ascii (tag_key tag) (
    All-append (λ c. c < 128) (str_int tag) (separator ∷ []) (str_int-IsEncodable tag)
      (omega arith, tt))

pub tag_clean : (tag : ℤ) → Lacks separator (str_int tag) × Lacks soh (str_int tag)
tag_clean tag = (
  All-map IsIntChar (λ c. (c == separator) ≡ false) (str_int tag) (λ c h. ground arith)
      (str_int-IsIntChar tag),
  All-map IsIntChar (λ c. (c == soh) ≡ false) (str_int tag) (λ c h. ground arith)
      (str_int-IsIntChar tag),
)

-- What a field is written to: its tag, the separator, and bytes that are not SOH.
pub record IsLine (fl : Floats) (c : FieldClass) (v : Atom (Floats.Float fl)) (line : Bytes)
    : Type 0 where
  pub writes : to_bytes fl c v ≡ ok (length line, line)
  pub clean : Lacks soh line
  pub filled : 0 < length line
  pub value_bytes : Bytes
  pub starts : line ≡ str_int c.tag ++ separator ∷ value_bytes
  pub reads_soh : (rest : Bytes) → from_bytes fl c (line ++ soh ∷ rest) ≡ ok (suc (length line), v)
  pub reads_end : from_bytes fl c line ≡ ok (length line, v)

slice_line :
    (tag value rest : Bytes) (sep : ℕ)
    → slice (length tag + 1) (length (tag ++ sep ∷ value)) ((tag ++ sep ∷ value) ++ rest) ≡ value
slice_line tag value rest sep =
    let n : length (tag ++ sep ∷ value) - (length tag + 1) ≡ length value =
      omega (arith, length-append tag (sep ∷ value)) in
    let d : drop (length tag + 1) (tag ++ (sep ∷ value ++ rest)) ≡ value ++ rest =
      drop-append_add (length tag + 1) 1 tag (sep ∷ value ++ rest) refl in
    rw (n, append_assoc tag (sep ∷ value) rest, d) (take-append value rest)

line_clean :
    (tag : ℤ) (value : Bytes) → Lacks soh value → Lacks soh (str_int tag ++ separator ∷ value)
line_clean tag value h =
    All-append (λ b. (b == soh) ≡ false) (str_int tag) (separator ∷ value) (tag_clean tag).1
      (refl, h)

find_separator :
    (tag : ℤ) (value rest : Bytes)
    → find_byte separator ((str_int tag ++ separator ∷ value) ++ rest) ≡ some (length (str_int tag))
find_separator tag value rest =
    rw (append_assoc (str_int tag) (separator ∷ value) rest)
      (find_byte-append separator (str_int tag) (value ++ rest) (tag_clean tag).0)

module _ (fl : Floats) (laws : FloatLaws fl) where
  pub field-IsLine :
      (c : FieldClass) (v : Atom (Floats.Float fl))
      → IsFieldValue c v
      → (line : Bytes) × IsLine fl c v line
  unfolding to_bytes from_bytes
  field-IsLine c v h =
      let w = value-IsWritten fl laws h in
      let line = str_int c.tag ++ separator ∷ w.bytes in
      (
        line,
        record {
          writes =
              rw (tag_key-encode c.tag)
                (rw w.packs (rw (append_assoc (str_int c.tag) (separator ∷ []) w.bytes) refl));
          clean = line_clean c.tag w.bytes w.clean;
          filled = omega (arith, length-append (str_int c.tag) (separator ∷ w.bytes));
          value_bytes = w.bytes;
          starts = refl;
          reads_soh = λ rest.
              rw
                (
                  find_separator c.tag w.bytes (soh ∷ rest),
                  find_byte-append soh line rest (line_clean c.tag w.bytes w.clean),
                )
                (rw (slice_line (str_int c.tag) w.bytes (soh ∷ rest) separator)
                  (rw w.reads (ap (λ (n : ℕ). ok (n, v)) (omega arith))));
          reads_end =
              let whole = slice_line (str_int c.tag) w.bytes [] separator in
              let whole' = rw append-nil at whole in
              rw
                (
                  rw append-nil at (find_separator c.tag w.bytes []),
                  find_byte-none soh line (line_clean c.tag w.bytes w.clean),
                )
                (rw whole' (rw w.reads refl));
        },
      )
