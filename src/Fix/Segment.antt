-- ===== src/Fix/Segment.antt =====
-- `DataSegment`, `Group` and `GroupContainer` of src/nasdaq_protocols/fix/core.py: their classes, the
-- objects, and how these are written and read. The count of a container is a field of the type
-- FixInt, as it is of every generated class.
pub mod Ending
pub mod Lines
pub mod Represented
pub mod Steps
pub mod RoundTrip
use nasdaq_protocols.Prelude.{
  ℕ, zero, suc, ◌+◌, ◌-◌, pos_part, Bool, true, false, ◌||◌, Option, none, some, List, [], ◌∷◌,
  ◌++◌, ◌==◌, if◌then◌else◌, ℤ, pos, negsuc, eqb_ℤ, Result, ok, raised, value_error, type_error,
  out_of_fuel, ◌>>=◌, length, take, drop,
}
use nasdaq_protocols.Python.Bytes.{Bytes}
use nasdaq_protocols.Python.Text.{Str, decode, ascii}
use nasdaq_protocols.Python.Decimal.{parse_int}
use nasdaq_protocols.Python.Find.{find_byte}
use nasdaq_protocols.Fix.Types.{fix_int}
use nasdaq_protocols.Fix.Field
use nasdaq_protocols.Fix.Field.{Floats, FieldClass, Atom, int, separator, soh}

-- `Entries` of a class: fields, and containers with the entries of their group class.
mutual
  pub data EntryDef : Type 0 where
    field : FieldClass → EntryDef
    -- the tag and name of the count class, the name of the container class, the group's entries
    container : ℤ → Str → Str → Entries → EntryDef

  pub data Entries : Type 0 where
    no_entries : Entries
    entry : EntryDef → Bool → Entries → Entries

abbrev pub count_class : ℤ → Str → FieldClass
count_class tag name = record { tag = tag; name = name; field_type = fix_int }

abbrev pub def_tag : EntryDef → ℤ
def_tag (field c) = c.tag
def_tag (container tag name class_name es) = tag

-- An object of an entry's class, the `values` of a segment or group, and the groups of a container.
mutual
  pub data Node (F : Type 0) : Type 0 where
    field : FieldClass → Atom F → Node F
    container : ℤ → Str → Entries → Groups F → Node F

  pub data Values (F : Type 0) : Type 0 where
    empty : Values F
    value : ℤ → Node F → Values F → Values F

  pub data Groups (F : Type 0) : Type 0 where
    no_groups : Groups F
    group : Values F → Groups F → Groups F

abbrev pub keys : {F : Type 0} → Values F → List ℤ
keys empty = []
keys (value tag node rest) = tag ∷ keys rest

abbrev pub group_count : {F : Type 0} → Groups F → ℕ
group_count no_groups = 0
group_count (group values rest) = suc (group_count rest)

abbrev pub is_in : ℤ → List ℤ → Bool
is_in tag [] = false
is_in tag (t ∷ ts) = eqb_ℤ tag t || is_in tag ts

-- SOH.join(parts)
unfoldable pub join : List Bytes → Bytes
join [] = []
join (p ∷ []) = p
join (p ∷ q ∷ ps) = p ++ soh ∷ join (q ∷ ps)

-- The results of `to_bytes` in order; the first that raises is what the list raises.
abbrev pub all_bytes : List (Result (ℕ × Bytes)) → Result (List Bytes)
all_bytes [] = ok []
all_bytes (r ∷ rs) = do (_, bs) ← r; rest ← all_bytes rs; ok (bs ∷ rest)

abbrev pub joined : Result (List Bytes) → Result (ℕ × Bytes)
joined parts = do ps ← parts; ok (length (join ps), join ps)

-- [values[_.entry_def.Tag].to_bytes() for _ in Entries if _.entry_def.Tag in values]
abbrev pub written_at : ℤ → List (ℤ × Result (ℕ × Bytes)) → List (Result (ℕ × Bytes))
written_at tag [] = []
written_at tag ((t, r) ∷ rest) = if eqb_ℤ tag t then r ∷ [] else written_at tag rest

abbrev pub by_definition : Entries → List (ℤ × Result (ℕ × Bytes)) → List (Result (ℕ × Bytes))
by_definition no_entries written = []
by_definition (entry def required es) written =
    written_at (def_tag def) written ++ by_definition es written

abbrev pub results : List (ℤ × Result (ℕ × Bytes)) → List (Result (ℕ × Bytes))
results [] = []
results ((t, r) ∷ rest) = r ∷ results rest

module _ (fl : Floats) where
  unfoldable mutual
    unfolding Field.to_bytes join

    -- `to_bytes` of a field and of a container
    pub node_to_bytes : Node (Floats.Float fl) → Result (ℕ × Bytes)
    node_to_bytes (field c v) = Field.to_bytes fl c v
    node_to_bytes (container tag name es groups) = do
      (_, count) ← Field.to_bytes fl (count_class tag name) (int (pos (group_count groups)))
      parts ← all_bytes (groups_to_bytes es groups)
      ok (length (join (count ∷ parts)), join (count ∷ parts))

    -- each value of a segment, under its tag
    pub written : Values (Floats.Float fl) → List (ℤ × Result (ℕ × Bytes))
    written empty = []
    written (value tag node rest) = (tag, node_to_bytes node) ∷ written rest

    -- `Group.to_bytes` of each group
    pub groups_to_bytes : Entries → Groups (Floats.Float fl) → List (Result (ℕ × Bytes))
    groups_to_bytes es no_groups = []
    groups_to_bytes es (group values rest) =
        joined (all_bytes (by_definition es (written values))) ∷ groups_to_bytes es rest

  -- `DataSegment.to_bytes`, in the order of insertion
  unfoldable pub segment_to_bytes : Values (Floats.Float fl) → Result (ℕ × Bytes)
  unfolding node_to_bytes
  segment_to_bytes values = joined (all_bytes (results (written values)))

abbrev pub later {ℓ} : {A : Type ℓ} → Option A → Option A → Option A
later (some a) earlier = some a
later none earlier = earlier

-- IndexedEntries[tag]: of two entries with one tag the later counts.
abbrev pub entry_of : Entries → ℤ → Option EntryDef
entry_of no_entries t = none
entry_of (entry def required es) t =
    later (entry_of es t) (if eqb_ℤ t (def_tag def) then some def else none)

-- `from_bytes` of an entry's class, and `IndexedEntries[tag].from_bytes`, if there is such a key.
abbrev pub Reads : Type 0 → Type 0
Reads A = Bytes → Result (ℕ × A)

abbrev pub Indexed : Type 0 → Type 0
Indexed F = ℤ → Option (Reads (Node F))

-- bytes_[0:tag_pos]; -1 is the index of the last byte
abbrev pub before : Option ℕ → Bytes → Bytes
before (some i) bs = take i bs
before none bs = take (length bs - 1) bs

unfoldable pub read_tag : Bytes → Result ℤ
read_tag bs = do s ← decode ascii (before (find_byte separator bs) bs); parse_int s

module _ {F : Type 0} where
  abbrev pub with_value : ℤ → Node F → ℕ → ℕ × Values F → Result (ℕ × Values F)
  with_value tag node n (m, values) = ok (n + m, value tag node values)

  abbrev pub try_entry :
      Option (Reads (Node F)) → Bytes → (ℕ × Node F → Result (ℕ × Values F)) → Result (ℕ × Values F)
  try_entry none bs next = ok (0, empty)
  try_entry (some from_bytes) bs next = from_bytes bs >>= next

  -- The loop of `DataSegment.from_bytes`; `seen` are the keys of `deserialized`. It gives the bytes
  -- it used and what it adds. The fuel is more than the bytes.
  unfoldable pub read_values : Indexed F → ℕ → List ℤ → Reads (Values F)
  read_values indexed zero seen bs = raised out_of_fuel
  read_values indexed (suc fuel) seen [] = ok (0, empty)
  read_values indexed (suc fuel) seen (b ∷ bs) = do
    tag ← read_tag (b ∷ bs)
    let next = λ (found : ℕ × Node F).
        read_values indexed fuel (tag ∷ seen) (drop found.0 (b ∷ bs))
        >>= with_value tag found.1 found.0
    if is_in tag seen then ok (0, empty) else try_entry (indexed tag) (b ∷ bs) next

  -- The loop of `GroupContainer.from_bytes`, over the groups that are still missing.
  unfoldable pub read_groups : Reads (Values F) → ℕ → Reads (Groups F)
  read_groups read zero bs = ok (0, no_groups)
  read_groups read (suc missing) [] = ok (0, no_groups)
  read_groups read (suc missing) (b ∷ bs) = do
    (n, values) ← read (b ∷ bs)
    (m, groups) ← read_groups read missing (drop n (b ∷ bs))
    ok (n + m, group values groups)

  abbrev pub counted : ℤ → ℕ → ℕ × Groups F → (Groups F → Node F) → Result (ℕ × Node F)
  counted count end (n, groups) make =
      if eqb_ℤ (pos (group_count groups)) count
      then ok (end + n, make groups)
      else raised value_error

-- `count.value` of a count field that was read, which is an int.
abbrev pub int_value : {F : Type 0} → Atom F → ℤ
int_value (int z) = z
int_value v = pos 0

module _ (fl : Floats) where
  -- `GroupContainer.from_bytes`, over that of the group class
  unfoldable pub container_from_bytes :
      ℤ → Str → Entries → Reads (Values (Floats.Float fl)) → Reads (Node (Floats.Float fl))
  unfolding Field.from_bytes read_groups
  container_from_bytes tag name es read bs = do
    (end, count) ← Field.from_bytes fl (count_class tag name) bs
    found ← read_groups read (pos_part (int_value count)) (drop end bs)
    counted (int_value count) end found (container tag name es)

  abbrev pub field_from_bytes : FieldClass → Reads (Node (Floats.Float fl))
  field_from_bytes c bs = do (n, v) ← Field.from_bytes fl c bs; ok (n, field c v)

  -- `DataSegment.from_bytes`
  unfoldable pub segment_reads : Indexed (Floats.Float fl) → Reads (Values (Floats.Float fl))
  unfolding read_values
  segment_reads indexed bs = read_values indexed (suc (length bs)) [] bs

  -- The functions of the classes that `entry_of` finds.
  unfoldable mutual
    unfolding segment_reads container_from_bytes

    pub node_reads : EntryDef → Reads (Node (Floats.Float fl))
    node_reads (field c) bs = field_from_bytes c bs
    node_reads (container tag name class_name es) bs =
        container_from_bytes tag name es (segment_reads (λ t. indexed_entries es t)) bs

    pub indexed_entries : Entries → Indexed (Floats.Float fl)
    indexed_entries no_entries t = none
    indexed_entries (entry def required es) t =
        later (indexed_entries es t)
          (if eqb_ℤ t (def_tag def) then some (λ bs. node_reads def bs) else none)

  unfoldable pub segment_from_bytes : Entries → Reads (Values (Floats.Float fl))
  unfolding node_reads
  segment_from_bytes es = segment_reads (indexed_entries es)
