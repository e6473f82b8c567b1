-- ===== src/Common/Message/Structures/RoundTrip.antt =====
-- Packing a value and unpacking it again: common/message/structures.py.
use Prim.Native.String.{String}
use nasdaq_protocols.Prelude.{
  ℕ, suc, ◌+◌, ◌≡◌, refl, sym, ap, ◌∙◌, true, [], ◌∷◌, ◌++◌, append_assoc, arith, pos, ok, ◌>>=◌,
  length, length-append,
}
use nasdaq_protocols.Python.Bytes.{Bytes}
use nasdaq_protocols.Common.Message.Types
use nasdaq_protocols.Common.Message.Types.{IntType, FixedString, unpack_int}
use nasdaq_protocols.Common.Message.Types.RoundTrip.{unpack_int-pack_int, pos-+ℤ}
use nasdaq_protocols.Common.Message.Structures.{
  Value, absent, list, record_of, Values, Entries, entry, FieldType, optional_record, Fields,
  get_entry, get_field_value, fill_records, count, Packed, Unpacked, pack_array, unpack_array,
  some_fields, to_bytes, from_bytes, fields_to_bytes, fields_from_bytes, wrap,
}
use nasdaq_protocols.Common.Message.Structures.Wire.{
  In, here, there, Distinct, NonEmpty, IsWire, AreWire, ItemsWire, is_item, get_field_value-In,
  fill_records_lem,
}
use nasdaq_protocols.Common.Message.Structures.Returns.{
  Returns, RoundTrips, FieldsReturn, ItemsReturn, join_parts, items_nil, items_cons, fields_none,
  fields_cons, has_fields, append_first, record-Returns,
}
use nasdaq_protocols.Common.Message.Structures.Elementary.{
  boolean_returns, integer_returns, char_returns, string_returns, fixed_returns,
}

plain_record_returns :
    (fs : Fields) (es : Entries)
    → NonEmpty es
    → Distinct es
    → AreWire fs es
    → FieldsReturn fs fs es es
    → RoundTrips (FieldType.plain_record fs) (record_of es)
plain_record_returns fs es filled distinct w r =
    unfold to_bytes from_bytes in record-Returns fs es filled distinct w r

not_present_returns : (fs : Fields) → RoundTrips (optional_record fs) absent
unfolding to_bytes from_bytes Types.pack_bool Types.unpack_bool
not_present_returns fs = (0 ∷ [], refl, λ rest. refl)

present_returns :
    (fs : Fields) (es : Entries)
    → NonEmpty es
    → Distinct es
    → AreWire fs es
    → FieldsReturn fs fs es es
    → RoundTrips (optional_record fs) (record_of es)
present_returns fs Entries.end filled distinct w r = absurd filled
present_returns fs (entry n v es) filled distinct w r =
    let (bs, p, q) = r in
    let all = entry n v es in
    (
      1 ∷ bs,
      unfold to_bytes Types.pack_bool in
          rw (has_fields w filled) (rw p (ap (λ (k : ℕ). ok (k, 1 ∷ bs)) (omega arith))),
      λ rest.
          let read = q [] rest Entries.end (λ n v i. unfold get_entry in refl) in
          unfold from_bytes Types.unpack_bool in
          rw read (
            rw (append_first all) (
              rw (fill_records_lem fs all w distinct)
                (rw pos-+ℤ (ap (λ (k : ℕ). ok (pos k, record_of all)) (omega arith))))),
    )

-- How an array packs and unpacks an item.
abbrev item_packer : FieldType → Value → Packed
item_packer (optional_record fs) v = some_fields fs >>= λ _. fields_to_bytes fs fs v
item_packer t v = to_bytes t v

abbrev item_unpacker : FieldType → Bytes → Unpacked
item_unpacker (optional_record fs) bs =
    fields_from_bytes fs bs (pos 0) Entries.end >>= wrap (λ e. record_of (fill_records fs e))
item_unpacker t bs = from_bytes t bs

array_to_bytes :
    (t : FieldType) (n : IntType) (v : Value)
    → to_bytes (FieldType.array t n) v ≡ pack_array n (item_packer t) v
unfolding to_bytes
array_to_bytes (optional_record fs) n v = refl
array_to_bytes _ n v = refl

array_from_bytes :
    (t : FieldType) (n : IntType) (bs : Bytes)
    → from_bytes (FieldType.array t n) bs ≡ unpack_array n (item_unpacker t) bs
unfolding from_bytes
array_from_bytes (optional_record fs) n bs = refl
array_from_bytes _ n bs = refl

array_returns :
    (t : FieldType) (n : IntType) (size : ℕ) (vs : Values) (k : ℕ) (head : Bytes)
    → n.size ≡ suc size
    → Types.pack_int n (pos (count vs)) ≡ ok (k, head)
    → ItemsReturn (item_packer t) (item_unpacker t) vs
    → RoundTrips (FieldType.array t n) (list vs)
array_returns t n size vs k head positive h (bs, p, q) =
    let (width, _) = unpack_int-pack_int n size (pos (count vs)) k head [] positive h in
    (
      head ++ bs,
      array_to_bytes t n (list vs) ∙ rw h (rw p (rw width (join_parts head bs))),
      λ rest.
          let counted =
            (unpack_int-pack_int n size (pos (count vs)) k head (bs ++ rest) positive h).1 in
          let total : length head + length bs ≡ length (head ++ bs) = sym (length-append head bs) in
          array_from_bytes t n ((head ++ bs) ++ rest)
          ∙ rw append_assoc (rw counted (rw width (rw (q head rest) (rw total)))),
    )

item_packer_lem :
    (t : FieldType) (v : Value)
    → is_item t ≡ true
    → RoundTrips t v
    → Returns (item_packer t v) (item_unpacker t) v
item_packer_lem (optional_record fs) v h r = cc
item_packer_lem FieldType.boolean v h r = r
item_packer_lem _ v h r = r

-- The proof over the derivations: the lemmas above, one for each constructor.
mutual
  round_trips : {t : FieldType} {v : Value} → IsWire t v → RoundTrips t v
  round_trips (IsWire.boolean b) = boolean_returns b
  round_trips (IsWire.integer t size z n bs positive h) = integer_returns t size z n bs positive h
  round_trips (IsWire.char e c h) = char_returns e c h
  round_trips (IsWire.string e s h small) = string_returns e s h small
  round_trips (IsWire.fixed_string t s fits enc trimmed) = fixed_returns t s fits enc trimmed
  round_trips (IsWire.plain_record fs es filled d w) =
      plain_record_returns fs es filled d w
        (fields_return w fs es d (λ n v i. get_field_value-In fs es d w i))
  round_trips (IsWire.not_present fs) = not_present_returns fs
  round_trips (IsWire.present fs es filled d w) =
      present_returns fs es filled d w
        (fields_return w fs es d (λ n v i. get_field_value-In fs es d w i))
  round_trips (IsWire.array t n size vs k bs positive h w) =
      array_returns t n size vs k bs positive h (items_return w)

  fields_return :
      {fs : Fields} {es : Entries}
      → AreWire fs es
      → (all : Fields) (whole : Entries) → Distinct es
      → ((n : String) (v : Value) → In n v es → get_field_value all n whole ≡ ok v)
      → FieldsReturn fs all whole es
  fields_return AreWire.end all whole d found = fields_none all whole
  fields_return (AreWire.field name t default_ v fs es w ws) all whole d found =
      fields_cons name t default_ v fs all whole es (found name v here) d.0 d.1 (round_trips w)
        (fields_return ws all whole d.1 (λ n x i. found n x (there i)))

  items_return :
      {t : FieldType} {vs : Values}
      → ItemsWire t vs
      → ItemsReturn (item_packer t) (item_unpacker t) vs
  items_return (ItemsWire.nil t) = items_nil (item_packer t) (item_unpacker t)
  items_return (ItemsWire.cons t v vs item w ws) =
      items_cons (item_packer t) (item_unpacker t) v vs (item_packer_lem t v item (round_trips w))
        (items_return ws)
  items_return (ItemsWire.cons_record fs es vs filled d w ws) =
      items_cons (item_packer (optional_record fs)) (item_unpacker (optional_record fs))
        (record_of es) vs
        (record-Returns fs es filled d w
          (fields_return w fs es d (λ n v i. get_field_value-In fs es d w i)))
        (items_return ws)

-- A value that fits its type is packed, with the size that is returned, and unpacked again from the
-- bytes, whatever follows them: nested records, present bits and arrays included.
pub value_round_trip : {t : FieldType} {v : Value} → IsWire t v → RoundTrips t v
value_round_trip w = round_trips w
