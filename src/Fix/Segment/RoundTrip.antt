-- ===== src/Fix/Segment/RoundTrip.antt =====
-- What a segment was written to is read back, with whatever may follow it.
use nasdaq_protocols.Prelude.{
  suc, ◌+◌, ◌≡◌, refl, ap, Option, List, [], ◌∷◌, ◌++◌, arith, ℤ, pos, ok, length, length-append,
}
use nasdaq_protocols.Python.Bytes.{Bytes}
use nasdaq_protocols.Fix.Field.{Floats, int, soh}
use nasdaq_protocols.Fix.Field.RoundTrip.{FloatLaws, an_int, field-IsLine}
use nasdaq_protocols.Fix.Segment.{
  EntryDef, Entries, count_class, Node, Values, value, Groups, group_count, join, written,
  segment_reads, segment_to_bytes, segment_from_bytes,
}
use nasdaq_protocols.Fix.Segment.Lines.{
  lines, join-lines, Follows, by_definition-results, tags_of-written,
}
use nasdaq_protocols.Fix.Segment.Represented.{
  first_group, IsSegment, last, values, IsNode, a_field, a_container, AreGroups, end, groups,
  keys-AreDistinct,
}
use nasdaq_protocols.Fix.Segment.Steps.{
  SegmentReads, NodeReads, GroupsRead, last-SegmentReads, values-SegmentReads, field-NodeReads,
  container-NodeReads, end-GroupsRead, groups-GroupsRead, has_part,
}

module _ (fl : Floats) (laws : FloatLaws fl) where
  mutual
    pub SegmentReads-back :
        {es : Entries} {seen : List ℤ} {vs : Values (Floats.Float fl)} {next : Option ℤ}
        → IsSegment es seen vs next
        → (parts : List Bytes) × SegmentReads fl es seen vs next parts
    SegmentReads-back (last es seen next stops) = ([], last-SegmentReads fl es seen next stops)
    SegmentReads-back (values es seen tag def node rest next e new n s) =
        let (part, is_part) = NodeReads-back n in
        let (parts, are_parts) = SegmentReads-back s in
        (
          part ∷ parts,
          values-SegmentReads fl es seen tag def node rest next part parts e new is_part are_parts,
        )

    NodeReads-back :
        {def : EntryDef} {node : Node (Floats.Float fl)} {next : Option ℤ}
        → IsNode def node next
        → (part : Bytes) × NodeReads fl def node next part
    NodeReads-back (a_field c v next h) = field-NodeReads fl laws c v next h
    NodeReads-back (a_container tag name class_name es gs next h) =
        let (parts, are_parts) = GroupsRead-back h in
        let (line, l) =
          field-IsLine fl laws (count_class tag name) (int (pos (group_count gs)))
            (an_int (pos (group_count gs))) in
        (
          join (line ∷ parts),
          container-NodeReads fl tag name class_name es gs next parts line l are_parts,
        )

    GroupsRead-back :
        {es : Entries} {gs : Groups (Floats.Float fl)} {next : Option ℤ}
        → AreGroups es gs next
        → (parts : List Bytes) × GroupsRead fl es gs next parts
    GroupsRead-back (end es next) = ([], end-GroupsRead fl es next)
    GroupsRead-back (groups es tag node vs more next ordered s g) =
        let (parts, are_parts) = SegmentReads-back s in
        let (others, are_others) = GroupsRead-back g in
        let (p, ps, same) = has_part fl es [] tag node vs (first_group more next) parts are_parts in
        let tags = tags_of-written fl (value tag node vs) in
        let in_order =
          by_definition-results es (written fl (value tag node vs)) (rw tags (keys-AreDistinct s))
            (rw tags ordered) in
        (
          join (p ∷ ps) ∷ others,
          groups-GroupsRead fl es tag node vs more next p ps others in_order (rw same at are_parts)
              are_others,
        )

  -- A segment with values that the format represents is written to bytes, of the length that is
  -- returned, and its class reads it back off them, containers and groups included: behind the SOH
  -- that ends the last field anything may stand that begins with the tag `next`, one that the
  -- segment has already or that its class does not have, or nothing.
  pub segment_round_trip :
      (es : Entries) (tag : ℤ) (node : Node (Floats.Float fl)) (vs : Values (Floats.Float fl))
      (next : Option ℤ)
      → IsSegment es [] (value tag node vs) next
      → (bs : Bytes) × (segment_to_bytes fl (value tag node vs) ≡ ok (length bs, bs))
        × ((rest : Bytes)
            → Follows next rest
            → segment_from_bytes fl es (bs ++ soh ∷ rest) ≡ ok (length bs + 1, value tag node vs))
  unfolding segment_to_bytes segment_from_bytes segment_reads
  segment_round_trip es tag node vs next h =
      let (parts, s) = SegmentReads-back h in
      let (p, ps, same) = has_part fl es [] tag node vs next parts s in
      let size : length (lines (p ∷ ps)) ≡ length (join (p ∷ ps)) + 1 = omega (
        arith,
        ap (λ (b : Bytes). length b) (join-lines p ps []),
        length-append (join (p ∷ ps)) (soh ∷ []),
        length-append (lines (p ∷ ps)) [],
      ) in
      (
        join (p ∷ ps),
        rw s.writes (rw same refl),
        λ rest follows.
            rw (join-lines p ps rest, ← size)
              ((rw same at s.reads) rest (suc (length (lines (p ∷ ps) ++ rest))) follows
                (omega arith)),
      )
