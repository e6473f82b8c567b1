-- ===== src/Common/Message/Structures/Returns.antt =====
-- What it is for a value to be packed and unpacked again, and how the parts of a record or an array
-- are put together: common/message/structures.py.
use text.Mathlib.Text.{◌==◌}
use text.Mathlib.TextEquality.{eq_iff}
use Prim.Native.String.{String}
use nasdaq_protocols.Prelude.{
  ℕ, ◌+◌, ◌≡◌, refl, sym, ap, ◌∙◌, inl, inr, false, Bool-cases, none, [], ◌++◌, append_assoc, arith,
  pos, ◌+ℤ◌, ok, ◌>>=◌, length, length-append, drop, drop-append,
}
use nasdaq_protocols.Python.Bytes.{Bytes}
use nasdaq_protocols.Common.Message.Types.RoundTrip.{pos-+ℤ}
use nasdaq_protocols.Common.Message.Structures.{
  Value, record_of, Values, Entries, entry, FieldType, Fields, no_fields, get_entry,
  get_field_value, fill_records, count, Packed, Unpacked, join, pack_items, unpack_items,
  some_fields, to_bytes, from_bytes, fields_to_bytes, fields_from_bytes, wrap,
}
use nasdaq_protocols.Common.Message.Structures.Wire
use nasdaq_protocols.Common.Message.Structures.Wire.{
  In, here, there, Distinct, NonEmpty, IsWire, AreWire, ItemsWire, is_item, get_field_value-In,
  get_entry-In, fill_records_lem, append, append-end, set_entry_new, get_entry-append,
}

-- What is packed has the size that is returned, and unpacks to the value, whatever follows.
abbrev pub Returns : Packed → (Bytes → Unpacked) → Value → Type 0
Returns packed unpack v =
    (bs : Bytes) × (packed ≡ ok (length bs, bs))
    × ((rest : Bytes) → unpack (bs ++ rest) ≡ ok (pos (length bs), v))

abbrev pub RoundTrips : FieldType → Value → Type 0
RoundTrips t v = Returns (to_bytes t v) (from_bytes t) v

-- No entry of `es` has a name of `acc`.
abbrev pub New : Entries → Entries → Type 0
New acc es = (n : String) (v : Value) → In n v es → get_entry n acc ≡ none

abbrev pub FieldsReturn : Fields → Fields → Entries → Entries → Type 0
FieldsReturn fs all whole es =
    (bs : Bytes) × (fields_to_bytes fs all (record_of whole) ≡ ok (length bs, bs))
    × ((front rest : Bytes) (acc : Entries)
        → New acc es
        → fields_from_bytes fs (front ++ (bs ++ rest)) (pos (length front)) acc
          ≡ ok (pos (length front + length bs), append acc es))

abbrev pub ItemsReturn : (Value → Packed) → (Bytes → Unpacked) → Values → Type 0
ItemsReturn pack unpack vs =
    (bs : Bytes) × (pack_items pack vs ≡ ok (length bs, bs))
    × ((front rest : Bytes)
        → unpack_items unpack (count vs) (front ++ (bs ++ rest)) (pos (length front))
          ≡ ok (pos (length front + length bs), vs))

-- Two parts, one behind the other, as `join` puts them.
pub join_parts :
    (a b : Bytes) → ok (join (length a, a) (length b, b)) ≡ ok (length (a ++ b), a ++ b)
join_parts a b = ap (λ (n : ℕ). ok (n, a ++ b)) (sym (length-append a b))

-- The bytes from the offset on, and what stands behind the first part.
pub at_front : (front rest : Bytes) → drop (length front) (front ++ rest) ≡ rest
at_front = drop-append

pub regroup : (front a b rest : Bytes) → front ++ ((a ++ b) ++ rest) ≡ (front ++ a) ++ (b ++ rest)
regroup front a b rest = rw append_assoc (sym (append_assoc front a (b ++ rest)))

pub next_offset :
    (front a : Bytes) → pos (length front) +ℤ pos (length a) ≡ pos (length (front ++ a))
next_offset front a = pos-+ℤ (length front) (length a) ∙ ap pos (sym (length-append front a))

pub items_nil :
    (pack : Value → Packed) (unpack : Bytes → Unpacked) → ItemsReturn pack unpack Values.nil
items_nil pack unpack = (
  [],
  unfold pack_items in refl,
  λ front rest. unfold unpack_items in ap (λ (n : ℕ). ok (pos n, Values.nil)) (omega arith),
)

pub items_cons :
    (pack : Value → Packed) (unpack : Bytes → Unpacked) (v : Value) (vs : Values)
    → Returns (pack v) unpack v
    → ItemsReturn pack unpack vs
    → ItemsReturn pack unpack (Values.cons v vs)
items_cons pack unpack v vs (a, p, q) (b, ps, qs) = (
  a ++ b,
  unfold pack_items in rw p (rw ps (join_parts a b)),
  λ front rest.
      let here_ : drop (length front) (front ++ ((a ++ b) ++ rest)) ≡ a ++ (b ++ rest) =
        at_front front ((a ++ b) ++ rest) ∙ append_assoc a b rest in
      let ih = qs (front ++ a) rest in
      let total : length (front ++ a) + length b ≡ length front + length (a ++ b) =
        omega (arith, length-append front a, length-append a b) in
      unfold unpack_items in
      rw here_
        (rw (q (b ++ rest)) (rw (next_offset front a, regroup front a b rest) (rw ih (rw total)))),
)

pub fields_none : (all : Fields) (whole : Entries) → FieldsReturn no_fields all whole Entries.end
fields_none all whole = (
  [],
  unfold to_bytes fields_to_bytes in refl,
  λ front rest acc new.
      unfold from_bytes fields_from_bytes in
      rw append-end (ap (λ (n : ℕ). ok (pos n, acc)) (omega arith)),
)

pub New-after :
    (name : String) (v : Value) (acc es : Entries)
    → get_entry name es ≡ none
    → Distinct es
    → New acc (entry name v es)
    → New (append acc (entry name v Entries.end)) es
New-after name v acc es fresh d new n w i =
    let other : (name == n) ≡ false = elim (Bool-cases (name == n)) [
      | inl e ↦ let same = (eq_iff name n).0 e in cc (fresh, same, get_entry-In d i)
      | inr e ↦ e
    ] in
    get_entry-append n acc (entry name v Entries.end) (new n w (there i))
      (unfold get_entry in rw other)

pub fields_cons :
    (name : String) (t : FieldType) (d v : Value) (fs all : Fields) (whole es : Entries)
    → get_field_value all name whole ≡ ok v
    → get_entry name es ≡ none
    → Distinct es
    → RoundTrips t v
    → FieldsReturn fs all whole es
    → FieldsReturn (Fields.field name t d fs) all whole (entry name v es)
fields_cons name t d v fs all whole es value fresh distinct (a, p, q) (b, ps, qs) = (
  a ++ b,
  unfold to_bytes fields_to_bytes in rw value (rw p (rw ps (join_parts a b))),
  λ front rest acc new.
      let here_ : drop (length front) (front ++ ((a ++ b) ++ rest)) ≡ a ++ (b ++ rest) =
        at_front front ((a ++ b) ++ rest) ∙ append_assoc a b rest in
      let acc' = append acc (entry name v Entries.end) in
      let ih = qs (front ++ a) rest acc' (New-after name v acc es fresh distinct new) in
      let set_ = set_entry_new name v acc (new name v here) in
      let total : length (front ++ a) + length b ≡ length front + length (a ++ b) =
        omega (arith, length-append front a, length-append a b) in
      let joined : append acc' es ≡ append acc (entry name v es) =
        Wire.append_assoc acc (entry name v Entries.end) es ∙ (unfold append in refl) in
      unfold from_bytes fields_from_bytes in
      rw here_ (
        rw (q (b ++ rest))
          (rw (next_offset front a, regroup front a b rest, set_) (rw ih (rw (total, joined))))),
)

pub has_fields : {fs : Fields} {es : Entries} → AreWire fs es → NonEmpty es → some_fields fs ≡ ok tt
has_fields AreWire.end h = absurd h
has_fields (AreWire.field name t d v fs es w ws) h = refl

pub append_first : (es : Entries) → append Entries.end es ≡ es
unfolding append
append_first es = refl

pub record-Returns :
    (fs : Fields) (es : Entries)
    → NonEmpty es
    → Distinct es
    → AreWire fs es
    → FieldsReturn fs fs es es
    → Returns
        (some_fields fs >>= λ _. fields_to_bytes fs fs (record_of es))
        (λ bs.
          fields_from_bytes fs bs (pos 0) Entries.end >>= wrap (λ e. record_of (fill_records fs e)))
        (record_of es)
record-Returns fs es filled distinct w (bs, p, q) = (
  bs,
  rw (has_fields w filled) p,
  λ rest. rw (q [] rest Entries.end (λ n v i. unfold get_entry in refl)) (
      rw (append_first es) (
        rw (fill_records_lem fs es w distinct)
          (ap (λ (n : ℕ). ok (pos n, record_of es)) (omega arith)))),
)
