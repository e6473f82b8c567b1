-- ===== src/Fix/Session/Completion.antt =====
-- What `_prepare_complete_msg` of fix/session.py makes of a message: begin string, body length and
-- type in front, the checksum behind.
use nasdaq_protocols.Prelude.{
  ℕ, zero, suc, ◌+◌, ◌-◌, ◌/◌, ◌%◌, ◌<◌, ◌≤◌, ◌≡◌, refl, sym, [], ◌∷◌, ◌++◌, append_assoc, arith,
  Bool-cases, inl, inr, ℤ, pos, eqb_ℤ, eqb_ℤ_iff, ok, length, length-append, replicate,
  length-replicate, All, All-append,
}
use nasdaq_protocols.Python.Bytes.{Bytes}
use nasdaq_protocols.Python.Text.{Str, ascii, IsEncodable, transcode_lem, All-replicate}
use nasdaq_protocols.Python.Decimal.{str_nat, str_int, digits, All-map, str_nat-IsDigit, IsDigit}
use nasdaq_protocols.Fix.Types.{fix_string, fix_int, base, pack_str}
use nasdaq_protocols.Fix.Field
use nasdaq_protocols.Fix.Field.{Floats, FieldClass, Atom, text, int, soh, separator}
use nasdaq_protocols.Fix.Field.RoundTrip.{IsClean, tag_key, tag_key-encode, IsClean-int}
use nasdaq_protocols.Fix.Access.{FieldDefs, def_by_tag}
use nasdaq_protocols.Fix.Message as Messages
use nasdaq_protocols.Fix.Message.{Message}
use nasdaq_protocols.Fix.Session.{
  Version, fix44, fix50, begin_string, sum_bytes, three_digits, field_bytes, prepare_complete_msg,
}

-- The field classes that the session asks `Field.Def` for, with the types that the standard gives.
pub record StandardFields (defs : FieldDefs) : Type 0 where
  pub begin_class : FieldClass
  pub length_class : FieldClass
  pub type_class : FieldClass
  pub checksum_class : FieldClass
  pub finds_begin : def_by_tag defs (pos 8) ≡ ok begin_class
  pub finds_length : def_by_tag defs (pos 9) ≡ ok length_class
  pub finds_type : def_by_tag defs (pos 35) ≡ ok type_class
  pub finds_checksum : def_by_tag defs (pos 10) ≡ ok checksum_class
  pub begin_text : base begin_class.field_type ≡ fix_string
  pub length_int : base length_class.field_type ≡ fix_int
  pub type_text : base type_class.field_type ≡ fix_string
  pub checksum_text : base checksum_class.field_type ≡ fix_string

pub def_by_tag-tag :
    (defs : FieldDefs) (t : ℤ) (c : FieldClass) → def_by_tag defs t ≡ ok c → c.tag ≡ t
unfolding def_by_tag
def_by_tag-tag [] t c h = absurd (cc)
def_by_tag-tag (d ∷ defs) t c h = elim (Bool-cases (eqb_ℤ t d.tag)) [
  | inl same ↦
      let is_d : d ≡ c = cc (rw same at h) in rw (← is_d) (sym ((eqb_ℤ_iff t d.tag).0 same))
  | inr differs ↦ def_by_tag-tag defs t c (rw differs at h)
]

-- A field as a line of the message.
abbrev pub line : ℤ → Str → Bytes
line tag value = (tag_key tag ++ value) ++ soh ∷ []

length-digits_one : (fuel n : ℕ) → n < 10 → length (digits fuel n) ≤ 1
unfolding digits
length-digits_one zero n h = omega arith
length-digits_one (suc fuel) n h = ground arith

length-digits_two : (fuel n : ℕ) → n < 100 → length (digits fuel n) ≤ 2
unfolding digits
length-digits_two zero n h = omega arith
length-digits_two (suc fuel) n h = ground (
  arith,
  length-append (digits fuel (n / 10)) ((48 + n % 10) ∷ []),
  length-digits_one fuel (n / 10),
)

length-digits_three : (fuel n : ℕ) → n < 1_000 → length (digits fuel n) ≤ 3
unfolding digits
length-digits_three zero n h = omega arith
length-digits_three (suc fuel) n h = ground (
  arith,
  length-append (digits fuel (n / 10)) ((48 + n % 10) ∷ []),
  length-digits_two fuel (n / 10),
)

pub length-three_digits : (n : ℕ) → n < 1_000 → length (three_digits n) ≡ 3
unfolding str_nat
length-three_digits n h = omega (
  arith,
  length-append (replicate (3 - length (str_nat n)) b'0') (str_nat n),
  length-replicate {A = ℕ} (3 - length (str_nat n)) b'0',
  length-digits_three (suc n) n h,
)

pub three_digits-IsDigit : (n : ℕ) → All IsDigit (three_digits n)
three_digits-IsDigit n =
    All-append IsDigit (replicate (3 - length (str_nat n)) b'0') (str_nat n)
      (All-replicate IsDigit (3 - length (str_nat n)) b'0' (omega arith)) (str_nat-IsDigit n)

pub digit-IsClean : (s : Str) → All IsDigit s → All IsClean s
digit-IsClean s h = All-map IsDigit IsClean s (λ c k. ground arith) h

clean_ascii : (s : Str) → All IsClean s → IsEncodable ascii s
clean_ascii s h = All-map IsClean (λ c. c < 128) s (λ c k. k.0) h

module _ (fl : Floats) (defs : FieldDefs) where
  pub text_to_bytes :
      (t : ℤ) (c : FieldClass) (s : Str)
      → def_by_tag defs t ≡ ok c
      → base c.field_type ≡ fix_string
      → All IsClean s
      → Field.to_bytes fl c (text s) ≡ ok (length (tag_key t ++ s), tag_key t ++ s)
  unfolding Field.to_bytes pack_str
  text_to_bytes t c s found is_text h =
      rw
        (
          def_by_tag-tag defs t c found,
          tag_key-encode t,
          is_text,
          transcode_lem ascii s (clean_ascii s h),
        )
        refl

  pub int-to_bytes :
      (t : ℤ) (c : FieldClass) (z : ℤ)
      → def_by_tag defs t ≡ ok c
      → base c.field_type ≡ fix_int
      → Field.to_bytes fl c (int z) ≡ ok (length (tag_key t ++ str_int z), tag_key t ++ str_int z)
  unfolding Field.to_bytes pack_str
  int-to_bytes t c z found is_int =
      rw
        (
          def_by_tag-tag defs t c found,
          tag_key-encode t,
          is_int,
          transcode_lem ascii (str_int z) (clean_ascii (str_int z) (IsClean-int z)),
        )
        refl

  text_line :
      (t : ℤ) (c : FieldClass) (s : Str)
      → def_by_tag defs t ≡ ok c
      → base c.field_type ≡ fix_string
      → All IsClean s
      → field_bytes fl defs t (text s) ≡ ok (line t s)
  unfolding field_bytes Field.from_value
  text_line t c s found is_text h =
      rw (found, is_text) (rw (text_to_bytes t c s found is_text h) refl)

  int-line :
      (t : ℤ) (c : FieldClass) (z : ℤ)
      → def_by_tag defs t ≡ ok c
      → base c.field_type ≡ fix_int
      → field_bytes fl defs t (int z) ≡ ok (line t (str_int z))
  unfolding field_bytes Field.from_value
  int-line t c z found is_int = rw (found, is_int) (rw (int-to_bytes t c z found is_int) refl)

-- Begin string and body length, in front of a body of so many bytes.
abbrev pub front : Version → ℕ → Bytes
front version n = line (pos 8) (begin_string version) ++ line (pos 9) (str_int (pos n))

abbrev pub checksum_of : Bytes → Str
checksum_of bs = three_digits (sum_bytes bs % 256)

-- The layout of a message on the wire: what begin string and body length announce, the body from
-- the message type on, and seven bytes of checksum.
pub record IsComplete (version : Version) (msg_type : Str) (written bs : Bytes) : Type 0 where
  pub body : Bytes
  pub body_is : body ≡ line (pos 35) msg_type ++ written
  pub layout :
      bs
      ≡ front version (length body)
        ++ (body ++ line (pos 10) (checksum_of (front version (length body) ++ body)))
  pub trailer_size : length (line (pos 10) (checksum_of (front version (length body) ++ body))) ≡ 7

pub begin-IsClean : (version : Version) → All IsClean (begin_string version)
begin-IsClean fix44 = ground arith
begin-IsClean fix50 = ground arith

trailer_length : (s : Str) → length s ≡ 3 → length (line (pos 10) s) ≡ 7
unfolding str_int str_nat digits
trailer_length s h =
    omega
      (arith, length-append (tag_key (pos 10) ++ s) (soh ∷ []), length-append (tag_key (pos 10)) s)

module _ (fl : Floats) (defs : FieldDefs) (standard : StandardFields defs) where
  -- A message that can be written, of a type that is clean text, is completed: in front stand the
  -- begin string of the version and the length of the body, which is the message type and what the
  -- message is written to; behind it the sum of all bytes before it, modulo 256, in three digits.
  pub completes :
      (version : Version) (m : Message (Floats.Float fl)) (n : ℕ) (written : Bytes)
      → Messages.to_bytes fl m ≡ ok (n, written)
      → All IsClean m.cls.msg_type
      → (bs : Bytes) × (prepare_complete_msg fl defs version m ≡ ok bs)
        × IsComplete version m.cls.msg_type written bs
  unfolding prepare_complete_msg
  completes version m n written h clean =
      let body = line (pos 35) m.cls.msg_type ++ written in
      let whole = front version (length body) ++ body in
      let flat : line (pos 8) (begin_string version)
            ++ (line (pos 9) (str_int (pos (length body))) ++ body)
          ≡ whole =
        sym (
          append_assoc (line (pos 8) (begin_string version))
            (line (pos 9) (str_int (pos (length body)))) body) in
      (
        whole ++ line (pos 10) (checksum_of whole),
        rw h (
            rw
              (text_line fl defs (pos 35) standard.type_class m.cls.msg_type standard.finds_type
                standard.type_text clean)
              (rw
                (int-line fl defs (pos 9) standard.length_class (pos (length body))
                  standard.finds_length standard.length_int)
                (rw
                  (text_line fl defs (pos 8) standard.begin_class (begin_string version)
                    standard.finds_begin standard.begin_text (begin-IsClean version))
                  (rw
                    (
                      flat,
                      text_line fl defs (pos 10) standard.checksum_class (checksum_of whole)
                          standard.finds_checksum standard.checksum_text
                          (digit-IsClean (checksum_of whole)
                            (three_digits-IsDigit (sum_bytes whole % 256))),
                    )
                    refl)))),
        record {
          body = body;
          body_is = refl;
          layout =
              append_assoc (front version (length body)) body (line (pos 10) (checksum_of whole));
          trailer_size =
              trailer_length (checksum_of whole)
                (length-three_digits (sum_bytes whole % 256) (omega arith));
        },
      )
