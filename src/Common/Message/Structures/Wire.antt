-- ===== src/Common/Message/Structures/Wire.antt =====
-- The values that a message definition can carry: common/message/structures.py.
use text.Mathlib.Text.{◌==◌}
use text.Mathlib.TextEquality.{eq_iff}
use text.Mathlib.TextPositions.{eq_refl}
use Prim.Native.String.{String}
use nasdaq_protocols.Prelude.{
  ℕ, suc, ◌≤◌, ◌<◌, ◌≡◌, refl, ap, inl, inr, Bool, true, false, Bool-cases, Option-cases, none,
  some, [], ◌∷◌, arith, ℤ, pos, ok, length,
}
use nasdaq_protocols.Python.Bytes.{Bytes}
use nasdaq_protocols.Python.Text.{Str, Encoding, IsEncodable, IsTrimmed, is_space}
use nasdaq_protocols.Common.Message.Types.{IntType, FixedString, pack_int}
use nasdaq_protocols.Common.Message.Structures.{
  Value, absent, bool, int, str, list, record_of, Values, Entries, entry, FieldType,
  optional_record, Fields, no_fields, get_entry, set_entry, indexed, get_field_value, fill_records,
  count,
}

-- An entry of a dict.
pub data In : String → Value → Entries → Type 0 where
  here : {n : String} {v : Value} {es : Entries} → In n v (entry n v es)
  there : {n m : String} {v w : Value} {es : Entries} → In n v es → In n v (entry m w es)

-- No name stands twice.
abbrev pub Distinct : Entries → Type 0
Distinct Entries.end = Unit
Distinct (entry n v es) = (get_entry n es ≡ none) × Distinct es

abbrev pub NonEmpty : Entries → Type 0
NonEmpty Entries.end = ⊥
NonEmpty (entry n v es) = Unit

abbrev pub is_item : FieldType → Bool
is_item (optional_record fs) = false
is_item (FieldType.fixed_string t) = false
is_item (FieldType.array t n) = false
is_item t = true

-- The values that fit their types: integers in range, one character, texts that the encoding and
-- the size hold, records with a value for each field in the order of the fields, arrays whose
-- number of items the length type holds.
mutual
  pub data IsWire : FieldType → Value → Type 0 where
    boolean : (b : Bool) → IsWire FieldType.boolean (bool b)
    integer :
        (t : IntType) (size : ℕ) (z : ℤ) (n : ℕ) (bs : Bytes)
        → t.size ≡ suc size
        → pack_int t z ≡ ok (n, bs)
        → IsWire (FieldType.integer t) (int z)
    char :
        (e : Encoding) (c : ℕ) → IsEncodable e (c ∷ []) → IsWire (FieldType.char e) (str (c ∷ []))
    string :
        (e : Encoding) (s : Str)
        → IsEncodable e s
        → length s < 32768
        → IsWire (FieldType.string e) (str s)
    fixed_string :
        (t : FixedString) (s : Str)
        → length s ≤ t.length_
        → IsEncodable t.encoding s
        → IsTrimmed is_space s
        → IsWire (FieldType.fixed_string t) (str s)
    plain_record :
        (fs : Fields) (es : Entries)
        → NonEmpty es
        → Distinct es
        → AreWire fs es
        → IsWire (FieldType.plain_record fs) (record_of es)
    not_present : (fs : Fields) → IsWire (optional_record fs) absent
    present :
        (fs : Fields) (es : Entries)
        → NonEmpty es
        → Distinct es
        → AreWire fs es
        → IsWire (optional_record fs) (record_of es)
    array :
        (t : FieldType) (n : IntType) (size : ℕ) (vs : Values) (k : ℕ) (bs : Bytes)
        → n.size ≡ suc size
        → pack_int n (pos (count vs)) ≡ ok (k, bs)
        → ItemsWire t vs
        → IsWire (FieldType.array t n) (list vs)

  pub data AreWire : Fields → Entries → Type 0 where
    end : AreWire no_fields Entries.end
    field :
        (name : String) (t : FieldType) (d v : Value) (fs : Fields) (es : Entries)
        → IsWire t v
        → AreWire fs es
        → AreWire (Fields.field name t d fs) (entry name v es)

  -- The items of an array are of a class: an array or a fixed string is no class, and
  -- `Array(...)` raises TypeError for such a type. Records with a present bit go without the bit.
  pub data ItemsWire : FieldType → Values → Type 0 where
    nil : (t : FieldType) → ItemsWire t Values.nil
    cons :
        (t : FieldType) (v : Value) (vs : Values)
        → is_item t ≡ true
        → IsWire t v
        → ItemsWire t vs
        → ItemsWire t (Values.cons v vs)
    cons_record :
        (fs : Fields) (es : Entries) (vs : Values)
        → NonEmpty es
        → Distinct es
        → AreWire fs es
        → ItemsWire (optional_record fs) vs
        → ItemsWire (optional_record fs) (Values.cons (record_of es) vs)

pub get_entry-In :
    {n : String} {v : Value} {es : Entries} → Distinct es → In n v es → get_entry n es ≡ some v
unfolding get_entry
get_entry-In {n} d here = rw (eq_refl n)
get_entry-In {n} d (there {m = m} i) =
    let found = get_entry-In d.1 i in ground (arith, found, d.0, eq_iff m n)

pub indexed-In :
    {fs : Fields} {es : Entries} {n : String} {v : Value}
    → AreWire fs es
    → In n v es
    → (p : FieldType × Value) × (indexed n fs ≡ some p)
unfolding indexed
indexed-In end i = elim i [ ]
indexed-In (field name t d v fs es w ws) here = elim (Option-cases (indexed name fs)) [
  | inl e ↦ ((t, d), rw (e, eq_refl name))
  | inr (p, e) ↦ (p, rw e)
]
indexed-In (field name t d v fs es w ws) (there i) = let (p, e) = indexed-In ws i in (p, rw e)

-- `get_field_value` of a record that has a value for each field.
pub get_field_value-In :
    {n : String} {v : Value} (fs : Fields) (es : Entries)
    → Distinct es
    → AreWire fs es
    → In n v es
    → get_field_value fs n es ≡ ok v
get_field_value-In fs es d w i =
    let (p, e) = indexed-In w i in unfold get_field_value in rw e (rw (get_entry-In d i))

-- A name with a value is not filled with a fresh record.
fill_records_within :
    (fs : Fields) (es all : Entries)
    → AreWire fs es
    → Distinct all
    → ((n : String) (v : Value) → In n v es → In n v all)
    → fill_records fs all ≡ all
unfolding fill_records
fill_records_within fs es all end d inside = refl
fill_records_within fs es all (field name t default_ v rest more w ws) d inside =
    rw (get_entry-In d (inside name v here))
      (fill_records_within rest more all ws d (λ n x i. inside n x (there i)))

pub fill_records_lem :
    (fs : Fields) (es : Entries) → AreWire fs es → Distinct es → fill_records fs es ≡ es
fill_records_lem fs es w d = fill_records_within fs es es w d (λ n v i. i)

-- Entries one after the other.
unfoldable pub append : Entries → Entries → Entries
append Entries.end es = es
append (entry n v es) fs = entry n v (append es fs)

pub append-end : (es : Entries) → append es Entries.end ≡ es
unfolding append
append-end Entries.end = refl
append-end (entry n v es) = ap (entry n v) (append-end es)

pub append_assoc : (a b c : Entries) → append (append a b) c ≡ append a (append b c)
unfolding append
append_assoc Entries.end b c = refl
append_assoc (entry n v es) b c = ap (entry n v) (append_assoc es b c)

pub set_entry_new :
    (name : String) (v : Value) (es : Entries)
    → get_entry name es ≡ none
    → set_entry name v es ≡ append es (entry name v Entries.end)
unfolding set_entry append get_entry
set_entry_new name v Entries.end h = refl
set_entry_new name v (entry n w es) h = elim (Bool-cases (n == name)) [
  | inl e ↦ cc (rw e at h)
  | inr e ↦ rw e (ap (entry n w) (set_entry_new name v es (rw e at h)))
]

pub get_entry-append :
    (name : String) (a b : Entries)
    → get_entry name a ≡ none
    → get_entry name b ≡ none
    → get_entry name (append a b) ≡ none
unfolding append get_entry
get_entry-append name Entries.end b h k = k
get_entry-append name (entry n w es) b h k = elim (Bool-cases (n == name)) [
  | inl e ↦ cc (rw e at h)
  | inr e ↦ rw e (get_entry-append name es b (rw e at h) k)
]
