-- ===== src/Fix/Segment/Ending.antt =====
-- The loops of fix/core.py come to an end: no call of `from_bytes` runs out of fuel.
use nasdaq_protocols.Prelude.{
  ℕ, zero, suc, ◌+◌, ◌<◌, ◌≤◌, ◌≡◌, ◌≢◌, refl, ◌∙◌, inl, inr, Option, none, some, List, [], ◌∷◌,
  arith, Bool-cases, Option-cases, ℤ, pos, pos_part, eqb_ℤ, Result, ok, raised, out_of_fuel, ◌>>=◌,
  >>=-ne-raised, >>=-eq-ok, length, drop, length-drop, ◌==◌,
}
use nasdaq_protocols.Python.Bytes.{Bytes}
use nasdaq_protocols.Python.Text.{Str, Encoding, transcode, ascii, strip, is_int_space}
use nasdaq_protocols.Python.Decimal.{parse_int, read_signed, as_int, negated}
use nasdaq_protocols.Python.Find.{find_byte, find_byte-lt}
use nasdaq_protocols.Fix.Types.{
  FixType, fix_bool, fix_int, fix_float, base, unpack_str, unpack_int, unpack_bool,
}
use nasdaq_protocols.Fix.Field
use nasdaq_protocols.Fix.Field.{
  Floats, FieldClass, Atom, as_float, separator, soh, unpack_base, from_found, unpack_between,
}
use nasdaq_protocols.Fix.Segment
use nasdaq_protocols.Fix.Segment.{
  EntryDef, field, container, Entries, no_entries, entry, def_tag, count_class, Node, Values,
  Groups, Reads, Indexed, later, is_in, read_tag, before, try_entry, with_value, read_values,
  read_groups, counted, int_value, container_from_bytes, field_from_bytes, segment_reads,
  node_reads, indexed_entries, segment_from_bytes,
}

abbrev pub Ends {ℓ} : {A : Type ℓ} → Result A → Type ℓ
Ends r = r ≢ raised out_of_fuel

transcode-Ends : (e : Encoding) (s : Str) → Ends (transcode e s)
unfolding transcode
transcode-Ends e [] = λ h. cc
transcode-Ends e (c ∷ cs) =
    >>=-ne-raised (transcode e cs) _ out_of_fuel (transcode-Ends e cs) (λ rest h k. ground arith)

as_int-Ends : (f : ℕ → ℤ) (o : Option ℕ) → Ends (as_int f o)
as_int-Ends f none = λ h. cc
as_int-Ends f (some n) = λ h. cc

read_signed-Ends : (s : Str) → Ends (read_signed s)
unfolding read_signed
read_signed-Ends [] = λ h. cc
read_signed-Ends (c ∷ cs) = elim (Bool-cases (c == b'-')) [
  | inl minus ↦ rw minus (as_int-Ends negated _)
  | inr other ↦ rw other (elim (Bool-cases (c == b'+')) [
    | inl plus ↦ rw plus (as_int-Ends pos _)
    | inr digit ↦ rw digit (as_int-Ends pos _)
  ])
]

parse_int-Ends : (s : Str) → Ends (parse_int s)
unfolding parse_int
parse_int-Ends s = read_signed-Ends (strip is_int_space s)

read_tag-Ends : (bs : Bytes) → Ends (read_tag bs)
unfolding read_tag
read_tag-Ends bs =
    >>=-ne-raised (transcode ascii (before (find_byte separator bs) bs)) _ out_of_fuel
      (transcode-Ends ascii _) (λ s h. parse_int-Ends s)

-- A reader that comes to an end, and that uses at least one byte.
abbrev pub IsReader {ℓ} : {A : Type ℓ} → (Bytes → Result (ℕ × A)) → Type ℓ
IsReader {A} read = (bs : Bytes) → Ends (read bs) × ((n : ℕ) (a : A) → read bs ≡ ok (n, a) → 0 < n)

unpack_str-Ends : (bs : Bytes) → Ends (unpack_str bs)
unfolding unpack_str
unpack_str-Ends bs =
    >>=-ne-raised (transcode ascii bs) _ out_of_fuel (transcode-Ends ascii bs) (λ s h k. cc)

unpack_int-Ends : (bs : Bytes) → Ends (unpack_int bs)
unfolding unpack_int
unpack_int-Ends bs =
    >>=-ne-raised (unpack_str bs) _ out_of_fuel (unpack_str-Ends bs)
      λ v h. >>=-ne-raised (parse_int v.1) _ out_of_fuel (parse_int-Ends v.1) (λ z g k. cc)

as_float-Ends : {F : Type 0} (o : Option F) → Ends (as_float o)
as_float-Ends none = λ h. cc
as_float-Ends (some x) = λ h. cc

module _ (fl : Floats) where
  unpack_base-Ends : (t : FixType) (bs : Bytes) → Ends (unpack_base fl t bs)
  unfolding unpack_bool
  unpack_base-Ends fix_bool bs = λ h. cc
  unpack_base-Ends fix_int bs =
      >>=-ne-raised (unpack_int bs) _ out_of_fuel (unpack_int-Ends bs) (λ v h k. cc)
  unpack_base-Ends fix_float bs =
      >>=-ne-raised (unpack_str bs) _ out_of_fuel (unpack_str-Ends bs) λ v h.
        >>=-ne-raised (as_float (fl.parse_float v.1)) _ out_of_fuel
          (as_float-Ends (fl.parse_float v.1)) (λ z g k. cc)
  unpack_base-Ends _ bs =
      >>=-ne-raised (unpack_str bs) _ out_of_fuel (unpack_str-Ends bs) (λ v h k. cc)

  unpack_between-Reads :
      (c : FieldClass) (total start end : ℕ) (bs : Bytes)
      → Ends (unpack_between fl c total start end bs)
        × ((n : ℕ) (v : Atom (Floats.Float fl))
            → unpack_between fl c total start end bs ≡ ok (n, v)
            → n ≡ total)
  unpack_between-Reads c total start end bs =
      let unpacked = unpack_base fl (base c.field_type) _ in
      (
        >>=-ne-raised unpacked _ out_of_fuel (unpack_base-Ends (base c.field_type) _) (λ v h k. cc),
        λ n v h. let (w, _, same) = >>=-eq-ok unpacked _ h in cc,
      )

  field-IsReader : (c : FieldClass) → IsReader (Field.from_bytes fl c)
  unfolding Field.from_bytes
  field-IsReader c bs =
      found (find_byte separator bs) (find_byte soh bs) (λ i h. find_byte-lt separator bs i h)
    where
      found :
          (start end : Option ℕ)
          → ((i : ℕ) → start ≡ some i → i < length bs)
          → Ends (from_found fl c start end bs)
            × ((n : ℕ) (v : Atom (Floats.Float fl))
                → from_found fl c start end bs ≡ ok (n, v)
                → 0 < n)
      found none end lt = (λ h. cc, λ n v h. absurd (cc))
      found (some i) none lt =
          let (ends, total) = unpack_between-Reads c (length bs) i (length bs) bs in
          (ends, λ n v h. omega (arith, total n v h, lt i refl))
      found (some i) (some j) lt =
          let (ends, total) = unpack_between-Reads c (j + 1) i j bs in
          (ends, λ n v h. omega (arith, total n v h))

module _ {F : Type 0} where
  abbrev IsIndex : Indexed F → Type 0
  IsIndex indexed = (t : ℤ) (read : Reads (Node F)) → indexed t ≡ some read → IsReader read

  with_value-Ends :
      (tag : ℤ) (node : Node F) (n : ℕ) (r : Result (ℕ × Values F))
      → Ends r
      → Ends (r >>= with_value tag node n)
  with_value-Ends tag node n (ok (m, vs)) h = λ k. cc
  with_value-Ends tag node n (raised e) h = λ k. h cc

  read_values-Ends :
      (indexed : Indexed F)
      → IsIndex indexed
      → (fuel : ℕ) (seen : List ℤ) (bs : Bytes) → length bs < fuel
      → Ends (read_values indexed fuel seen bs)
  unfolding read_values
  read_values-Ends indexed index zero seen bs h = absurd (omega arith)
  read_values-Ends indexed index (suc fuel) seen [] h = λ k. cc
  read_values-Ends indexed index (suc fuel) seen (b ∷ bs) h =
      >>=-ne-raised (read_tag (b ∷ bs)) _ out_of_fuel (read_tag-Ends (b ∷ bs)) λ tag t.
        elim (Bool-cases (is_in tag seen)) [
          | inl again ↦ rw again (λ k. cc)
          | inr new ↦ rw new (elim (Option-cases (indexed tag)) [
            | inl unknown ↦ rw unknown (λ k. cc)
            | inr (read, known) ↦ rw known (
                >>=-ne-raised (read (b ∷ bs)) _ out_of_fuel (index tag read known (b ∷ bs)).0
                  λ (found : ℕ × Node F) g. with_value-Ends tag found.1 found.0 _ (
                    read_values-Ends indexed index fuel (tag ∷ seen) (drop found.0 (b ∷ bs)) (
                      omega (
                        arith,
                        length-drop found.0 (b ∷ bs),
                        (index tag read known (b ∷ bs)).1 found.0 found.1 g,
                      ))))
          ])
        ]

  read_groups-Ends :
      (read : Reads (Values F))
      → ((bs : Bytes) → Ends (read bs))
      → (missing : ℕ) (bs : Bytes) → Ends (read_groups read missing bs)
  unfolding read_groups
  read_groups-Ends read ends zero bs = λ k. cc
  read_groups-Ends read ends (suc missing) [] = λ k. cc
  read_groups-Ends read ends (suc missing) (b ∷ bs) =
      >>=-ne-raised (read (b ∷ bs)) _ out_of_fuel (ends (b ∷ bs)) λ v h.
        >>=-ne-raised (read_groups read missing (drop v.0 (b ∷ bs))) _ out_of_fuel
          (read_groups-Ends read ends missing (drop v.0 (b ∷ bs))) (λ g k l. cc)

  counted-Reads :
      (count : ℤ) (end : ℕ) (found : ℕ × Groups F) (make : Groups F → Node F)
      → Ends (counted count end found make)
        × ((n : ℕ) (v : Node F) → counted count end found make ≡ ok (n, v) → end ≤ n)
  counted-Reads count end found make =
      elim (Bool-cases (eqb_ℤ (pos (Segment.group_count found.1)) count)) [
        | inl t ↦ rw t (λ k. cc, λ n v h. ground arith)
        | inr f ↦ rw f (λ k. cc, λ n v h. absurd (cc))
      ]

module _ (fl : Floats) where
  container-IsReader :
      (tag : ℤ) (name : Str) (es : Entries) (read : Reads (Values (Floats.Float fl)))
      → ((bs : Bytes) → Ends (read bs))
      → IsReader (container_from_bytes fl tag name es read)
  unfolding container_from_bytes
  container-IsReader tag name es read ends bs =
      let counts = field-IsReader fl (count_class tag name) bs in
      let count = Field.from_bytes fl (count_class tag name) bs in
      (
        >>=-ne-raised count _ out_of_fuel counts.0 λ (v : ℕ × Atom (Floats.Float fl)) h.
            >>=-ne-raised (read_groups read (pos_part (int_value v.1)) (drop v.0 bs)) _ out_of_fuel
              (read_groups-Ends read ends (pos_part (int_value v.1)) (drop v.0 bs))
              λ found g. (counted-Reads (int_value v.1) v.0 found (container tag name es)).0,
        λ n node h.
            let (v, is_count, then_groups) = >>=-eq-ok count _ h in
            let (found, _, made) =
              >>=-eq-ok (read_groups read (pos_part (int_value v.1)) (drop v.0 bs)) _ then_groups in
            omega (
              arith,
              counts.1 v.0 v.1 is_count,
              (counted-Reads (int_value v.1) v.0 found (container tag name es)).1 n node made,
            ),
      )

  segment-Ends :
      (indexed : Indexed (Floats.Float fl))
      → IsIndex indexed
      → (bs : Bytes) → Ends (segment_reads fl indexed bs)
  unfolding segment_reads
  segment-Ends indexed index bs =
      read_values-Ends indexed index (suc (length bs)) [] bs (omega arith)

  mutual
    unfolding node_reads

    node-IsReader : (def : EntryDef) → IsReader (node_reads fl def)
    node-IsReader (field c) bs =
        let fields = field-IsReader fl c bs in
        (
          >>=-ne-raised (Field.from_bytes fl c bs) _ out_of_fuel fields.0 (λ v h k. cc),
          λ n node h.
              let (v, is_field, made) = >>=-eq-ok (Field.from_bytes fl c bs) _ h in
              let same : v.0 ≡ n = cc in rw (← same) (fields.1 v.0 v.1 is_field),
        )
    node-IsReader (container tag name class_name es) bs =
        container-IsReader tag name es _ (segment-Ends _ (indexed-IsIndex es)) bs

    indexed-IsIndex : (es : Entries) → IsIndex (indexed_entries fl es)
    indexed-IsIndex no_entries t read h = absurd (cc)
    indexed-IsIndex (entry def required es) t read h =
        elim (Option-cases (indexed_entries fl es t)) [
          | inr (r, found) ↦ indexed-IsIndex es t read (found ∙ rw found at h)
          | inl other ↦ elim (Bool-cases (eqb_ℤ t (def_tag def))) [
            | inl same ↦
                let h' = rw (other, same) at h in
                let is_read : (λ (bs : Bytes). node_reads fl def bs) ≡ read = cc in
                rw is_read at (node-IsReader def)
            | inr differs ↦ absurd (cc (rw (other, differs) at h))
          ]
        ]

  -- Reading a segment of any class off any bytes comes to an end: the loops, and those of the
  -- groups in it, never run out of fuel.
  pub segment_from_bytes-Ends :
      (es : Entries) (bs : Bytes) → segment_from_bytes fl es bs ≢ raised out_of_fuel
  unfolding segment_from_bytes
  segment_from_bytes-Ends es bs = segment-Ends (indexed_entries fl es) (indexed-IsIndex es) bs
