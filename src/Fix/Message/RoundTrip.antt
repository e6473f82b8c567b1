-- ===== src/Fix/Message/RoundTrip.antt =====
-- A message of fix/core.py is read back by its class.
use nasdaq_protocols.Prelude.{
  ℕ, suc, ◌+◌, ◌<◌, ◌≤◌, ◌≡◌, refl, ap, ◌∙◌, false, Option, none, List, [], ◌∷◌, ◌++◌, append-nil,
  arith, ℤ, ok, length, length-append, drop-append, All,
}
use nasdaq_protocols.Python.Bytes.{Bytes}
use nasdaq_protocols.Python.Find.{ends_with}
use nasdaq_protocols.Fix.Field.{Floats, soh}
use nasdaq_protocols.Fix.Field.RoundTrip.{FloatLaws}
use nasdaq_protocols.Fix.Segment.{
  Entries, Values, keys, all_bytes, results, written, join, segment_to_bytes, segment_from_bytes,
  segment_reads,
}
use nasdaq_protocols.Fix.Segment.Lines.{lines, join-lines, IsPart, join-IsPart, Follows}
use nasdaq_protocols.Fix.Segment.Represented.{first_tag, IsSegment}
use nasdaq_protocols.Fix.Segment.Steps.{SegmentReads}
use nasdaq_protocols.Fix.Segment.RoundTrip.{SegmentReads-back}
use nasdaq_protocols.Fix.Message.{Message, non_empty, with_soh, to_bytes, class_from_bytes}

-- A message of the class that the format represents: its segments, each ended by the first tag of
-- what follows; not all three are empty.
pub record IsMessage {F : Type 0} (m : Message F) : Type 0 where
  pub header : IsSegment m.cls.header [] m.header (first_tag m.body (first_tag m.trailer none))
  pub body : IsSegment m.cls.body [] m.body (first_tag m.trailer none)
  pub trailer : IsSegment m.cls.trailer [] m.trailer none
  pub some_value : 0 < length (keys m.header ++ (keys m.body ++ keys m.trailer))

-- The parts of the segments, those of empty segments left out.
non_empty-join :
    (ps : List Bytes) (others : List Bytes)
    → All IsPart ps
    → lines (non_empty (join ps ∷ others)) ≡ lines ps ++ lines (non_empty others)
non_empty-join [] others h = unfold join in refl
non_empty-join (p ∷ ps) others h =
    filled (join (p ∷ ps)) (join-IsPart p ps h) (join-lines p ps (lines (non_empty others)))
  where
    filled :
        (bs : Bytes)
        → IsPart bs
        → bs ++ soh ∷ lines (non_empty others) ≡ lines (p ∷ ps) ++ lines (non_empty others)
        → lines (non_empty (bs ∷ others)) ≡ lines (p ∷ ps) ++ lines (non_empty others)
    filled [] k e = absurd (omega arith)
    filled (b ∷ bs) k e = e

non_empty-IsPart :
    (ps : List Bytes) → All (λ p. ends_with soh p ≡ false) ps → All IsPart (non_empty ps)
non_empty-IsPart [] h = tt
non_empty-IsPart ([] ∷ ps) h = non_empty-IsPart ps h.1
non_empty-IsPart ((b ∷ bs) ∷ ps) h = ((omega arith, h.0), non_empty-IsPart ps h.1)

with_soh-join : (ps : List Bytes) → All IsPart ps → 0 < length ps → with_soh (join ps) ≡ lines ps
unfolding with_soh
with_soh-join [] h k = absurd (omega arith)
with_soh-join (p ∷ ps) h k =
    rw (join-IsPart p ps h).1 (join-lines p ps [] ∙ append-nil (lines (p ∷ ps)))

join_end : (ps : List Bytes) → All IsPart ps → ends_with soh (join ps) ≡ false
join_end [] h = unfold join ends_with in refl
join_end (p ∷ ps) h = (join-IsPart p ps h).1

length-le-lines : (ps : List Bytes) → length ps ≤ length (lines ps)
length-le-lines [] = omega arith
length-le-lines (p ∷ ps) = omega (arith, length-le-lines ps, length-append p (soh ∷ lines ps))

length-lines : (ps : List Bytes) → 0 < length (lines ps) → 0 < length ps
length-lines [] h = h
length-lines (p ∷ ps) h = omega arith

module _ (fl : Floats) where
  -- A segment as its class reads it, where something may follow.
  read_segment :
      (es : Entries) (vs : Values (Floats.Float fl)) (next : Option ℤ) (parts : List Bytes)
      → SegmentReads fl es [] vs next parts
      → (rest : Bytes) → Follows next rest
      → segment_from_bytes fl es (lines parts ++ rest) ≡ ok (length (lines parts), vs)
  unfolding segment_from_bytes segment_reads
  read_segment es vs next parts s rest follows =
      s.reads rest (suc (length (lines parts ++ rest))) follows (omega arith)

  -- The parts that a segment is written to.
  pub record SegmentWrites (vs : Values (Floats.Float fl)) (parts : List Bytes) : Type 0 where
    pub writes : all_bytes (results (written fl vs)) ≡ ok parts
    pub solid : All IsPart parts
    pub count : length parts ≡ length (keys vs)

module _ (fl : Floats) where
  pub SegmentReads-SegmentWrites :
      (es : Entries) (vs : Values (Floats.Float fl)) (next : Option ℤ) (parts : List Bytes)
      → SegmentReads fl es [] vs next parts
      → SegmentWrites fl vs parts
  SegmentReads-SegmentWrites es vs next parts s = record {
    writes = s.writes;
    solid = s.solid;
    count = s.count;
  }

  segment_bytes :
      (vs : Values (Floats.Float fl)) (parts : List Bytes)
      → SegmentWrites fl vs parts
      → segment_to_bytes fl vs ≡ ok (length (join parts), join parts)
  unfolding segment_to_bytes
  segment_bytes vs parts s = rw s.writes refl

  -- The bytes of a message whose segments have these parts.
  pub message_bytes :
      (m : Message (Floats.Float fl)) (hp bp tp : List Bytes)
      → 0 < length hp + (length bp + length tp)
      → SegmentWrites fl m.header hp
      → SegmentWrites fl m.body bp
      → SegmentWrites fl m.trailer tp
      → let bs = lines hp ++ (lines bp ++ lines tp) in to_bytes fl m ≡ ok (length bs, bs)
  unfolding to_bytes
  message_bytes m hp bp tp some_value hs bs ts =
      let parts = non_empty (join hp ∷ join bp ∷ join tp ∷ []) in
      let flat : lines parts ≡ lines hp ++ (lines bp ++ lines tp) =
        non_empty-join hp (join bp ∷ join tp ∷ []) hs.solid
        ∙ ap (λ (x : Bytes). lines hp ++ x)
            (non_empty-join bp (join tp ∷ []) bs.solid
              ∙ ap (λ (x : Bytes). lines bp ++ x)
                  (non_empty-join tp [] ts.solid ∙ append-nil (lines tp))) in
      let solid : All IsPart parts =
        non_empty-IsPart (join hp ∷ join bp ∷ join tp ∷ [])
          (join_end hp hs.solid, (join_end bp bs.solid, (join_end tp ts.solid, tt))) in
      let some_part : 0 < length parts =
        length-lines parts (rw flat (filled hp bp tp some_value)) in
      rw (segment_bytes m.header hp hs, segment_bytes m.body bp bs, segment_bytes m.trailer tp ts)
        (rw (with_soh-join parts solid some_part, flat) refl)
    where
      filled :
          (hp bp tp : List Bytes)
          → 0 < length hp + (length bp + length tp)
          → 0 < length (lines hp ++ (lines bp ++ lines tp))
      filled hp bp tp k = omega (
        arith,
        length-append (lines hp) (lines bp ++ lines tp),
        length-append (lines bp) (lines tp),
        length-le-lines hp,
        length-le-lines bp,
        length-le-lines tp,
      )

  message_read :
      (m : Message (Floats.Float fl)) (hp bp tp : List Bytes)
      → SegmentReads fl m.cls.header [] m.header (first_tag m.body (first_tag m.trailer none)) hp
      → SegmentReads fl m.cls.body [] m.body (first_tag m.trailer none) bp
      → SegmentReads fl m.cls.trailer [] m.trailer none tp
      → let bs = lines hp ++ (lines bp ++ lines tp) in
        class_from_bytes fl m.cls bs ≡ ok (length bs, m)
  unfolding class_from_bytes
  message_read m hp bp tp hs bs ts =
      let behind_body : Follows (first_tag m.trailer none) (lines tp) =
        rw append-nil at (ts.starts [] refl) in
      let read_header =
        read_segment fl m.cls.header m.header _ hp hs (lines bp ++ lines tp)
          (bs.starts (lines tp) behind_body) in
      let read_body = read_segment fl m.cls.body m.body _ bp bs (lines tp) behind_body in
      let read_trailer = read_segment fl m.cls.trailer m.trailer none tp ts [] refl in
      rw
        (
          read_header,
          drop-append (lines hp) (lines bp ++ lines tp),
          read_body,
          drop-append (lines bp) (lines tp),
        )
        (rw (rw append-nil at read_trailer) (
          ap (λ (n : ℕ). ok (n, m))
            (omega (
              arith,
              length-append (lines hp) (lines bp ++ lines tp),
              length-append (lines bp) (lines tp),
            ))))

module _ (fl : Floats) (laws : FloatLaws fl) where
  -- A message that the format represents is written to bytes, of the length that is returned, and
  -- its class reads exactly these bytes back to the message.
  pub message_round_trip :
      (m : Message (Floats.Float fl))
      → IsMessage m
      → (bs : Bytes) × (to_bytes fl m ≡ ok (length bs, bs))
        × (class_from_bytes fl m.cls bs ≡ ok (length bs, m))
  message_round_trip m h =
      let (hp, hs) = SegmentReads-back fl laws h.header in
      let (bp, bs) = SegmentReads-back fl laws h.body in
      let (tp, ts) = SegmentReads-back fl laws h.trailer in
      (
        lines hp ++ (lines bp ++ lines tp),
        message_bytes fl m hp bp tp
            (omega (
              arith,
              h.some_value,
              hs.count,
              bs.count,
              ts.count,
              length-append (keys m.header) (keys m.body ++ keys m.trailer),
              length-append (keys m.body) (keys m.trailer),
            ))
            (SegmentReads-SegmentWrites fl m.cls.header m.header _ hp hs)
            (SegmentReads-SegmentWrites fl m.cls.body m.body _ bp bs)
            (SegmentReads-SegmentWrites fl m.cls.trailer m.trailer none tp ts),
        message_read fl m hp bp tp hs bs ts,
      )
