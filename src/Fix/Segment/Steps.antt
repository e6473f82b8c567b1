-- ===== src/Fix/Segment/Steps.antt =====
-- One more field, container or group: what it adds to what is written and read.
use nasdaq_protocols.Prelude.{
  ℕ, zero, suc, ◌+◌, ◌<◌, ◌≡◌, refl, sym, ap, ◌∙◌, inl, inr, false, Option, none, some, List, [],
  ◌∷◌, ◌++◌, append_assoc, append-nil, arith, ℤ, pos, eqb_ℤ_iff, ok, length, length-append, All,
  drop, drop-append, drop-append_add, >>=-eq-ok,
}
use nasdaq_protocols.Python.Bytes.{Bytes}
use nasdaq_protocols.Python.Text.{Str}
use nasdaq_protocols.Python.Decimal.{str_int}
use nasdaq_protocols.Fix.Field.{Floats, FieldClass, Atom, int, separator, soh}
use nasdaq_protocols.Fix.Field.RoundTrip.{FloatLaws, IsFieldValue, IsLine, field-IsLine}
use nasdaq_protocols.Fix.Segment.{
  EntryDef, field, container, Entries, entry_of, def_tag, count_class, Node, Values, value, empty,
  Groups, no_groups, group, keys, is_in, group_count, join, all_bytes, by_definition, results,
  written, read_values, read_groups, container_from_bytes, segment_reads, node_reads,
  indexed_entries, node_to_bytes, groups_to_bytes,
}
use nasdaq_protocols.Python.Find.{ends_with-Lacks}
use nasdaq_protocols.Fix.Segment.Lines.{
  IsPart, join-IsPart, lines, join-lines, Follows, read_tag_lem, entry_of-tag,
  indexed_entries-entry_of, read_values-step, read_values_stop, read_groups-step,
}
use nasdaq_protocols.Fix.Segment.Represented.{first_tag, first_group, Stops}

module _ (fl : Floats) where
  pub record SegmentReads (es : Entries) (seen : List ℤ) (vs : Values (Floats.Float fl))
      (next : Option ℤ) (parts : List Bytes) : Type 0 where
    pub count : length parts ≡ length (keys vs)
    pub solid : All IsPart parts
    pub writes : all_bytes (results (written fl vs)) ≡ ok parts
    pub starts :
        (rest : Bytes) → Follows next rest → Follows (first_tag vs next) (lines parts ++ rest)
    pub reads :
        (rest : Bytes) (fuel : ℕ)
        → Follows next rest
        → length (lines parts ++ rest) < fuel
        → read_values (indexed_entries fl es) fuel seen (lines parts ++ rest)
          ≡ ok (length (lines parts), vs)

  pub record NodeReads (def : EntryDef) (node : Node (Floats.Float fl)) (next : Option ℤ)
      (part : Bytes) : Type 0 where
    pub solid : IsPart part
    pub writes : node_to_bytes fl node ≡ ok (length part, part)
    pub value_bytes : Bytes
    pub starts : part ≡ str_int (def_tag def) ++ separator ∷ value_bytes
    pub reads :
        (rest : Bytes)
        → Follows next rest
        → node_reads fl def (part ++ soh ∷ rest) ≡ ok (suc (length part), node)

  pub record GroupsRead (es : Entries) (gs : Groups (Floats.Float fl)) (next : Option ℤ)
      (parts : List Bytes) : Type 0 where
    pub solid : All IsPart parts
    pub writes : all_bytes (groups_to_bytes fl es gs) ≡ ok parts
    pub starts :
        (rest : Bytes) → Follows next rest → Follows (first_group gs next) (lines parts ++ rest)
    pub reads :
        (rest : Bytes)
        → Follows next rest
        → read_groups
            (segment_reads fl (indexed_entries fl es))
            (group_count gs)
            (lines parts ++ rest)
          ≡ ok (length (lines parts), gs)

length_tag : (tag : ℤ) (rest : Bytes) → 0 < length (str_int tag ++ separator ∷ rest)
length_tag tag rest = omega (arith, length-append (str_int tag) (separator ∷ rest))

abbrev behind : List Bytes → Bytes
behind [] = []
behind (p ∷ ps) = soh ∷ join (p ∷ ps)

join-behind : (p : Bytes) (ps : List Bytes) → join (p ∷ ps) ≡ p ++ behind ps
unfolding join
join-behind p [] = sym (append-nil p)
join-behind p (q ∷ ps) = refl

module _ (fl : Floats) where
  read_values_last :
      (es : Entries) (seen : List ℤ) (next : Option ℤ)
      → Stops es seen next
      → (bs : Bytes) (fuel : ℕ) → Follows next bs
      → length bs < fuel
      → read_values (indexed_entries fl es) fuel seen bs ≡ ok (0, empty)
  read_values_last es seen next stops bs zero follows h = absurd (omega arith)
  read_values_last es seen none stops bs (suc fuel) follows h =
      rw follows (unfold read_values in refl)
  read_values_last es seen (some tag) stops bs (suc fuel) (rest, is) h = rw is (
      read_values_stop (indexed_entries fl es) fuel seen (str_int tag ++ separator ∷ rest) tag
        (length_tag tag rest) (read_tag_lem tag rest)
        (elim stops [
          | inl again ↦ inl again
          | inr unknown ↦ inr (rw (indexed_entries-entry_of fl es tag, unknown) refl)
        ]))

  pub last-SegmentReads :
      (es : Entries) (seen : List ℤ) (next : Option ℤ)
      → Stops es seen next
      → SegmentReads fl es seen empty next []
  unfolding node_to_bytes
  last-SegmentReads es seen next stops = record {
    count = refl;
    solid = tt;
    writes = refl;
    starts = λ rest follows. follows;
    reads = λ rest fuel follows h. read_values_last es seen next stops rest fuel follows h;
  }

  part_starts :
      (def : EntryDef) (tag : ℤ) (node : Node (Floats.Float fl)) (next : Option ℤ)
      (part tail : Bytes)
      → def_tag def ≡ tag
      → NodeReads fl def node next part
      → Follows (some tag) (part ++ soh ∷ tail)
  part_starts def tag node next part tail e n = (
    n.value_bytes ++ soh ∷ tail,
    ap (λ (p : Bytes). p ++ soh ∷ tail) n.starts
        ∙ append_assoc (str_int (def_tag def)) (separator ∷ n.value_bytes) (soh ∷ tail)
        ∙ ap (λ (t : ℤ). str_int t ++ separator ∷ (n.value_bytes ++ soh ∷ tail)) e,
  )

  values_read :
      (es : Entries) (seen : List ℤ) (tag : ℤ) (def : EntryDef) (node : Node (Floats.Float fl))
      (more : Values (Floats.Float fl)) (next : Option ℤ) (part : Bytes) (parts : List Bytes)
      → entry_of es tag ≡ some def
      → is_in tag seen ≡ false
      → NodeReads fl def node (first_tag more next) part
      → SegmentReads fl es (tag ∷ seen) more next parts
      → (rest : Bytes) (fuel : ℕ) → Follows next rest
      → length (part ++ soh ∷ (lines parts ++ rest)) < fuel
      → read_values (indexed_entries fl es) fuel seen (part ++ soh ∷ (lines parts ++ rest))
        ≡ ok (suc (length part) + length (lines parts), value tag node more)
  values_read es seen tag def node more next part parts e new n s rest zero follows h =
      absurd (omega arith)
  values_read es seen tag def node more next part parts e new n s rest (suc fuel) follows h =
      let tail = lines parts ++ rest in
      let (behind, is) =
        part_starts def tag node (first_tag more next) part tail (entry_of-tag es tag def e) n in
      let cut : drop (suc (length part)) (part ++ soh ∷ tail) ≡ tail =
        drop-append_add (suc (length part)) 1 part (soh ∷ tail) (omega arith) in
      read_values-step (indexed_entries fl es) fuel seen (part ++ soh ∷ tail) tag
        (λ bs. node_reads fl def bs) (suc (length part)) (length (lines parts)) node more
        (omega (arith, length-append part (soh ∷ tail))) (rw is (read_tag_lem tag behind)) new
        (rw (indexed_entries-entry_of fl es tag, e) refl) (n.reads tail (s.starts rest follows))
        (rw cut (s.reads rest fuel follows (omega (arith, length-append part (soh ∷ tail)))))

  pub values-SegmentReads :
      (es : Entries) (seen : List ℤ) (tag : ℤ) (def : EntryDef) (node : Node (Floats.Float fl))
      (more : Values (Floats.Float fl)) (next : Option ℤ) (part : Bytes) (parts : List Bytes)
      → entry_of es tag ≡ some def
      → is_in tag seen ≡ false
      → NodeReads fl def node (first_tag more next) part
      → SegmentReads fl es (tag ∷ seen) more next parts
      → SegmentReads fl es seen (value tag node more) next (part ∷ parts)
  values-SegmentReads es seen tag def node more next part parts e new n s = record {
    count = ap suc s.count;
    solid = (n.solid, s.solid);
    writes = unfold node_to_bytes in rw n.writes (rw s.writes refl);
    starts = λ rest follows. rw (append_assoc part (soh ∷ lines parts) rest) (
        part_starts def tag node (first_tag more next) part (lines parts ++ rest)
          (entry_of-tag es tag def e) n);
    reads = λ rest fuel follows h.
        let size : length (part ++ soh ∷ lines parts) ≡ suc (length part) + length (lines parts) =
          omega (arith, length-append part (soh ∷ lines parts)) in
        rw (size, append_assoc part (soh ∷ lines parts) rest)
          (values_read es seen tag def node more next part parts e new n s rest fuel follows
            (rw (append_assoc part (soh ∷ lines parts) rest) at h));
  }

  pub field-NodeReads :
      (laws : FloatLaws fl) (c : FieldClass) (v : Atom (Floats.Float fl)) (next : Option ℤ)
      → IsFieldValue c v
      → (part : Bytes) × NodeReads fl (field c) (field c v) next part
  unfolding node_reads node_to_bytes
  field-NodeReads laws c v next h =
      let (line, l) = field-IsLine fl laws c v h in
      (
        line,
        record {
          solid = (l.filled, ends_with-Lacks soh line l.clean);
          writes = l.writes;
          value_bytes = l.value_bytes;
          starts = l.starts;
          reads = λ rest follows. rw (l.reads_soh rest) refl;
        },
      )

  container_read :
      (tag : ℤ) (name class_name : Str) (es : Entries) (gs : Groups (Floats.Float fl))
      (next : Option ℤ) (parts : List Bytes) (line : Bytes)
      → IsLine fl (count_class tag name) (int (pos (group_count gs))) line
      → GroupsRead fl es gs next parts
      → (rest : Bytes) → Follows next rest
      → node_reads fl (container tag name class_name es) (line ++ soh ∷ (lines parts ++ rest))
        ≡ ok (suc (length line) + length (lines parts), container tag name es gs)
  unfolding node_reads container_from_bytes
  container_read tag name class_name es gs next parts line l g rest follows =
      let tail = lines parts ++ rest in
      let cut : drop (suc (length line)) (line ++ soh ∷ tail) ≡ tail =
        drop-append_add (suc (length line)) 1 line (soh ∷ tail) (omega arith) in
      rw (l.reads_soh tail) (
        rw cut (
          rw (g.reads rest follows)
            (rw ((eqb_ℤ_iff (pos (group_count gs)) (pos (group_count gs))).1 refl) refl)))

  pub container-NodeReads :
      (tag : ℤ) (name class_name : Str) (es : Entries) (gs : Groups (Floats.Float fl))
      (next : Option ℤ) (parts : List Bytes) (line : Bytes)
      → IsLine fl (count_class tag name) (int (pos (group_count gs))) line
      → GroupsRead fl es gs next parts
      → NodeReads fl
          (container tag name class_name es)
          (container tag name es gs)
          next
          (join (line ∷ parts))
  unfolding node_to_bytes
  container-NodeReads tag name class_name es gs next parts line l g = record {
    solid = join-IsPart line parts ((l.filled, ends_with-Lacks soh line l.clean), g.solid);
    writes = rw l.writes (rw g.writes refl);
    value_bytes = l.value_bytes ++ behind parts;
    starts =
        join-behind line parts
        ∙ ap (λ (p : Bytes). p ++ behind parts) l.starts
        ∙ append_assoc (str_int tag) (separator ∷ l.value_bytes) (behind parts);
    reads = λ rest follows.
        let flat = append_assoc line (soh ∷ lines parts) rest in
        let size : suc (length (join (line ∷ parts))) ≡ suc (length line) + length (lines parts) =
          omega (
            arith,
            ap (λ (b : Bytes). length b) (join-lines line parts []),
            length-append (join (line ∷ parts)) (soh ∷ []),
            length-append (lines (line ∷ parts)) [],
            length-append line (soh ∷ lines parts),
          ) in
        rw (join-lines line parts rest, flat, size)
          (container_read tag name class_name es gs next parts line l g rest follows);
  }

  pub end-GroupsRead : (es : Entries) (next : Option ℤ) → GroupsRead fl es no_groups next []
  unfolding node_to_bytes read_groups
  end-GroupsRead es next = record {
    solid = tt;
    writes = refl;
    starts = λ rest follows. follows;
    reads = λ rest follows. refl;
  }

  -- One group, and those behind it.
  pub groups-GroupsRead :
      (es : Entries) (tag : ℤ) (node : Node (Floats.Float fl)) (vs : Values (Floats.Float fl))
      (more : Groups (Floats.Float fl)) (next : Option ℤ) (p : Bytes) (ps parts : List Bytes)
      → by_definition es (written fl (value tag node vs)) ≡ results (written fl (value tag node vs))
      → SegmentReads fl es [] (value tag node vs) (first_group more next) (p ∷ ps)
      → GroupsRead fl es more next parts
      → GroupsRead fl es (group (value tag node vs) more) next (join (p ∷ ps) ∷ parts)
  groups-GroupsRead es tag node vs more next p ps parts ordered s g = record {
    solid = (join-IsPart p ps s.solid, g.solid);
    writes = unfold node_to_bytes in rw ordered (rw s.writes (rw g.writes refl));
    starts =
        λ rest follows. rw (flat rest) (s.starts (lines parts ++ rest) (g.starts rest follows));
    reads = λ rest follows. rw (flat rest, size) (read rest follows);
  }
    where
      flat :
          (rest : Bytes)
          → lines (join (p ∷ ps) ∷ parts) ++ rest ≡ lines (p ∷ ps) ++ (lines parts ++ rest)
      flat rest =
          append_assoc (join (p ∷ ps)) (soh ∷ lines parts) rest
          ∙ join-lines p ps (lines parts ++ rest)

      size : length (lines (join (p ∷ ps) ∷ parts)) ≡ length (lines (p ∷ ps)) + length (lines parts)
      size =
          ap (λ (b : Bytes). length b) (join-lines p ps (lines parts))
          ∙ length-append (lines (p ∷ ps)) (lines parts)

      read :
          (rest : Bytes)
          → Follows next rest
          → read_groups
              (segment_reads fl (indexed_entries fl es))
              (suc (group_count more))
              (lines (p ∷ ps) ++ (lines parts ++ rest))
            ≡ ok (length (lines (p ∷ ps)) + length (lines parts), group (value tag node vs) more)
      read rest follows =
          let tail = lines parts ++ rest in
          read_groups-step (segment_reads fl (indexed_entries fl es)) (group_count more)
            (lines (p ∷ ps) ++ tail) (length (lines (p ∷ ps))) (length (lines parts))
            (value tag node vs) more
            (omega (arith, length-append p (soh ∷ lines ps), length-append (lines (p ∷ ps)) tail))
            (unfold segment_reads in
              s.reads tail (suc (length (lines (p ∷ ps) ++ tail))) (g.starts rest follows)
                (omega arith))
            (rw (drop-append (lines (p ∷ ps)) tail) (g.reads rest follows))

  pub has_part :
      (es : Entries) (seen : List ℤ) (tag : ℤ) (node : Node (Floats.Float fl))
      (vs : Values (Floats.Float fl)) (next : Option ℤ) (parts : List Bytes)
      → SegmentReads fl es seen (value tag node vs) next parts
      → (p : Bytes) × (ps : List Bytes) × (parts ≡ p ∷ ps)
  unfolding node_to_bytes
  has_part es seen tag node vs next (p ∷ ps) s = (p, ps, refl)
  has_part es seen tag node vs next [] s =
      let (first, _, then_rest) = >>=-eq-ok (node_to_bytes fl node) _ s.writes in
      let (others, _, same) = >>=-eq-ok (all_bytes (results (written fl vs))) _ then_rest in
      absurd (cc)
