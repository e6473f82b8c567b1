-- ===== src/Fix/Session/Arrival.antt =====
-- A message from `_prepare_complete_msg` of fix/session.py to the reader of the other side.
use nasdaq_protocols.Prelude.{
  ℕ, suc, ◌+◌, ◌%◌, ◌≡◌, refl, sym, ap, ◌∙◌, false, none, some, List, [], ◌∷◌, ◌++◌, ◌==◌,
  >>=-eq-ok, append_assoc, arith, ℤ, pos, ok, length, length-append, All, All-append,
}
use nasdaq_protocols.Python.Bytes.{Bytes}
use nasdaq_protocols.Python.Text.{Str}
use nasdaq_protocols.Python.Decimal.{str_int, All-map}
use nasdaq_protocols.Python.Find.{Lacks, ends_with-Lacks}
use nasdaq_protocols.Fix.Field.{Floats, FieldClass, text, int, soh, separator}
use nasdaq_protocols.Fix.Field.RoundTrip.{IsClean, FloatLaws, tag_key, tag_clean, IsClean-int}
use nasdaq_protocols.Fix.Segment.{
  Values, value, empty, Node, field, keys, all_bytes, results, written, node_to_bytes,
}
use nasdaq_protocols.Fix.Segment.Lines.{lines, lines-append, IsPart}
use nasdaq_protocols.Fix.Segment.RoundTrip.{SegmentReads-back}
use nasdaq_protocols.Fix.Access.{FieldDefs, def_by_tag}
use nasdaq_protocols.Fix.Types.{fix_string, fix_int, base}
use nasdaq_protocols.Fix.Message as Messages
use nasdaq_protocols.Fix.Message.{
  MessageDefs, Message, class_of, class_from_bytes, is_logout, is_heartbeat,
}
use nasdaq_protocols.Fix.Message.RoundTrip.{
  IsMessage, message_round_trip, message_bytes, SegmentWrites, SegmentReads-SegmentWrites,
}
use nasdaq_protocols.Fix.Reader.{Cursor, view, move_on, deserialize}
use nasdaq_protocols.Fix.Session.{Version, begin_string, sum_bytes, prepare_complete_msg}
use nasdaq_protocols.Fix.Session.Completion.{
  StandardFields, front, line, checksum_of, IsComplete, completes, text_to_bytes, int-to_bytes,
  digit-IsClean, three_digits-IsDigit, begin-IsClean,
}
use nasdaq_protocols.Fix.Session.Delivery.{deserialize_complete}

abbrev pub put_last : {F : Type 0} → ℤ → Node F → Values F → Values F
put_last tag node empty = value tag node empty
put_last tag node (value t other rest) = value t other (put_last tag node rest)

-- A message with the fields that the session adds.
abbrev pub completed :
    {F : Type 0} {defs : FieldDefs}
    → StandardFields defs
    → Version
    → Message F
    → ℕ
    → Str
    → Message F
completed standard version m size checksum = record m {
  header = value (pos 8) (field standard.begin_class (text (begin_string version))) (
      value (pos 9) (field standard.length_class (int (pos size)))
        (value (pos 35) (field standard.type_class (text m.cls.msg_type)) m.header));
  trailer = put_last (pos 10) (field standard.checksum_class (text checksum)) m.trailer;
}

tag_value-IsPart : (t : ℤ) (s : Str) → All IsClean s → IsPart (tag_key t ++ s)
tag_value-IsPart t s h =
    let lacks : Lacks soh (tag_key t ++ s) =
      All-append (λ c. (c == soh) ≡ false) (tag_key t) s
        (All-append (λ c. (c == soh) ≡ false) (str_int t) (separator ∷ []) (tag_clean t).1
          (refl, tt))
        (All-map IsClean (λ c. (c == soh) ≡ false) s (λ c k. k.1) h) in
    (
      omega (arith, length-append (tag_key t) s, length-append (str_int t) (separator ∷ [])),
      ends_with-Lacks soh (tag_key t ++ s) lacks,
    )

module _ (fl : Floats) where
  value-SegmentWrites :
      (t : ℤ) (node : Node (Floats.Float fl)) (vs : Values (Floats.Float fl)) (n : ℕ) (p : Bytes)
      (ps : List Bytes)
      → node_to_bytes fl node ≡ ok (n, p)
      → IsPart p
      → SegmentWrites fl vs ps
      → SegmentWrites fl (value t node vs) (p ∷ ps)
  value-SegmentWrites t node vs n p ps e part s = record {
    writes = unfold node_to_bytes in rw e (rw s.writes refl);
    solid = (part, s.solid);
    count = ap suc s.count;
  }

  all_bytes-put_last :
      (t : ℤ) (node : Node (Floats.Float fl)) (vs : Values (Floats.Float fl)) (n : ℕ) (p : Bytes)
      (ps : List Bytes)
      → node_to_bytes fl node ≡ ok (n, p)
      → all_bytes (results (written fl vs)) ≡ ok ps
      → all_bytes (results (written fl (put_last t node vs))) ≡ ok (ps ++ p ∷ [])
  unfolding node_to_bytes
  all_bytes-put_last t node empty n p ps e h =
      let none_before : ps ≡ [] = cc in rw none_before (rw e refl)
  all_bytes-put_last t node (value u other vs) n p ps e h =
      let (first, is_first, then_rest) = >>=-eq-ok (node_to_bytes fl other) _ h in
      let (others, are_others, same) =
        >>=-eq-ok (all_bytes (results (written fl vs))) _ then_rest in
      let is : ps ≡ first.1 ∷ others = cc in
      rw is (rw is_first (rw (all_bytes-put_last t node vs n p others e are_others) refl))

  length-put_last :
      (t : ℤ) (node : Node (Floats.Float fl)) (vs : Values (Floats.Float fl))
      → length (keys (put_last t node vs)) ≡ length (keys vs) + 1
  length-put_last t node empty = omega arith
  length-put_last t node (value u other vs) = omega (arith, length-put_last t node vs)

  put_last-SegmentWrites :
      (t : ℤ) (node : Node (Floats.Float fl)) (vs : Values (Floats.Float fl)) (n : ℕ) (p : Bytes)
      (ps : List Bytes)
      → node_to_bytes fl node ≡ ok (n, p)
      → IsPart p
      → SegmentWrites fl vs ps
      → SegmentWrites fl (put_last t node vs) (ps ++ p ∷ [])
  put_last-SegmentWrites t node vs n p ps e part s = record {
    writes = all_bytes-put_last t node vs n p ps e s.writes;
    solid = All-append IsPart ps (p ∷ []) s.solid (part, tt);
    count = omega (arith, s.count, length-put_last t node vs, length-append ps (p ∷ []));
  }

-- A message that can be completed: whatever body length and checksum are, the format represents it.
pub record IsSendable {F : Type 0} {defs : FieldDefs} (standard : StandardFields defs)
    (version : Version) (m : Message F) : Type 0 where
  pub alone : IsMessage m
  pub whole :
      (size : ℕ) (checksum : Str)
      → All IsClean checksum
      → IsMessage (completed standard version m size checksum)
  pub clean_type : All IsClean m.cls.msg_type

checksum-IsClean : (bs : Bytes) → All IsClean (checksum_of bs)
checksum-IsClean bs = digit-IsClean (checksum_of bs) (three_digits-IsDigit (sum_bytes bs % 256))

flat_message :
    (k8 k9 k35 k10 head middle tail : Bytes)
    → (k8 ++ soh ∷ (k9 ++ soh ∷ (k35 ++ soh ∷ head))) ++ (middle ++ (tail ++ (k10 ++ soh ∷ [])))
      ≡ ((k8 ++ soh ∷ []) ++ (k9 ++ soh ∷ []))
        ++ (((k35 ++ soh ∷ []) ++ (head ++ (middle ++ tail))) ++ (k10 ++ soh ∷ []))
flat_message k8 k9 k35 k10 head middle tail = simp append_assoc

module _ (fl : Floats) (defs : FieldDefs) (standard : StandardFields defs) where
  -- The bytes of the message with the added fields, from the parts of the message without them.
  completed_bytes :
      (version : Version) (m : Message (Floats.Float fl)) (size : ℕ) (checksum : Str)
      (hp bp tp : List Bytes)
      → All IsClean m.cls.msg_type
      → All IsClean checksum
      → SegmentWrites fl m.header hp
      → SegmentWrites fl m.body bp
      → SegmentWrites fl m.trailer tp
      → let bs =
          front version size
          ++ ((line (pos 35) m.cls.msg_type ++ (lines hp ++ (lines bp ++ lines tp)))
              ++ line (pos 10) checksum) in
        Messages.to_bytes fl (completed standard version m size checksum) ≡ ok (length bs, bs)
  completed_bytes version m size checksum hp bp tp clean_type clean hs bs ts =
      let k8 = tag_key (pos 8) ++ begin_string version in
      let k9 = tag_key (pos 9) ++ str_int (pos size) in
      let k35 = tag_key (pos 35) ++ m.cls.msg_type in
      let k10 = tag_key (pos 10) ++ checksum in
      let header =
        added (pos 8) k8
          (text-writes (pos 8) standard.begin_class (begin_string version) standard.finds_begin
            standard.begin_text (begin-IsClean version))
          (tag_value-IsPart (pos 8) (begin_string version) (begin-IsClean version))
          (added (pos 9) k9
            (int-writes (pos 9) standard.length_class (pos size) standard.finds_length
              standard.length_int)
            (tag_value-IsPart (pos 9) (str_int (pos size)) (IsClean-int (pos size)))
            (added (pos 35) k35
              (text-writes (pos 35) standard.type_class m.cls.msg_type standard.finds_type
                standard.type_text clean_type)
              (tag_value-IsPart (pos 35) m.cls.msg_type clean_type) hs)) in
      let trailer =
        put_last-SegmentWrites fl (pos 10) _ m.trailer (length k10) k10 tp
          (text-writes (pos 10) standard.checksum_class checksum standard.finds_checksum
            standard.checksum_text clean)
          (tag_value-IsPart (pos 10) checksum clean) ts in
      rw
        (
          ← flat_message k8 k9 k35 k10 (lines hp) (lines bp) (lines tp),
          ← lines-append tp (k10 ∷ []),
        )
        (message_bytes fl (completed standard version m size checksum) (k8 ∷ k9 ∷ k35 ∷ hp) bp
          (tp ++ k10 ∷ []) (omega arith) header bs trailer)
    where
      text-writes :
          (t : ℤ) (c : FieldClass) (s : Str)
          → def_by_tag defs t ≡ ok c
          → base c.field_type ≡ fix_string
          → All IsClean s
          → node_to_bytes fl (field c (text s)) ≡ ok (length (tag_key t ++ s), tag_key t ++ s)
      text-writes t c s found is_text h =
          unfold node_to_bytes in text_to_bytes fl defs t c s found is_text h

      int-writes :
          (t : ℤ) (c : FieldClass) (z : ℤ)
          → def_by_tag defs t ≡ ok c
          → base c.field_type ≡ fix_int
          → node_to_bytes fl (field c (int z))
            ≡ ok (length (tag_key t ++ str_int z), tag_key t ++ str_int z)
      int-writes t c z found is_int =
          unfold node_to_bytes in int-to_bytes fl defs t c z found is_int

      added :
          (t : ℤ) (p : Bytes) {node : Node (Floats.Float fl)} {vs : Values (Floats.Float fl)}
          {ps : List Bytes}
          → node_to_bytes fl node ≡ ok (length p, p)
          → IsPart p
          → SegmentWrites fl vs ps
          → SegmentWrites fl (value t node vs) (p ∷ ps)
      added t p {node} {vs} {ps} e part s =
          value-SegmentWrites fl t node vs (length p) p ps e part s

module _ (fl : Floats) (laws : FloatLaws fl) (defs : FieldDefs)
    (standard : StandardFields defs) where
  -- The completed message is what the message with the added fields is written to.
  pub completed_written :
      (version : Version) (m : Message (Floats.Float fl))
      → IsSendable standard version m
      → (written bs : Bytes) × (c : IsComplete version m.cls.msg_type written bs)
        × (prepare_complete_msg fl defs version m ≡ ok bs)
        × (Messages.to_bytes fl (
              completed standard version m
                (length c.body)
                (checksum_of (front version (length c.body) ++ c.body)))
            ≡ ok (length bs, bs))
  completed_written version m h =
      let (hp, h_reads) = SegmentReads-back fl laws h.alone.header in
      let (bp, b_reads) = SegmentReads-back fl laws h.alone.body in
      let (tp, t_reads) = SegmentReads-back fl laws h.alone.trailer in
      let hs = SegmentReads-SegmentWrites fl m.cls.header m.header _ hp h_reads in
      let bs = SegmentReads-SegmentWrites fl m.cls.body m.body _ bp b_reads in
      let ts = SegmentReads-SegmentWrites fl m.cls.trailer m.trailer none tp t_reads in
      let written = lines hp ++ (lines bp ++ lines tp) in
      let is_written =
        message_bytes fl m hp bp tp
          (omega (
            arith,
            h.alone.some_value,
            hs.count,
            bs.count,
            ts.count,
            length-append (keys m.header) (keys m.body ++ keys m.trailer),
            length-append (keys m.body) (keys m.trailer),
          ))
          hs bs ts in
      let (whole, prepared, c) =
        completes fl defs standard version m (length written) written is_written h.clean_type in
      let checksum = checksum_of (front version (length c.body) ++ c.body) in
      let trailer = line (pos 10) checksum in
      let flat =
        c.layout ∙ ap (λ (b : Bytes). front version (length c.body) ++ (b ++ trailer)) c.body_is in
      (
        written,
        whole,
        c,
        prepared,
        completed_bytes fl defs standard version m (length c.body) checksum hp bp tp h.clean_type
              (checksum-IsClean (front version (length c.body) ++ c.body)) hs bs ts
            ∙ ap (λ (b : Bytes). ok (length b, b)) (sym flat),
      )

module _ (fl : Floats) (laws : FloatLaws fl) (defs : FieldDefs) (standard : StandardFields defs)
    (classes : MessageDefs) where
  -- A message that can be completed arrives: where `_prepare_complete_msg` of a session gives `bs`,
  -- the reader of the other side, with `bs` at the front of what it has not read and any bytes
  -- behind, takes off exactly `bs` and hands out a message of the same class with the same body,
  -- before whose header stand begin string, body length and message type, and behind whose trailer
  -- the checksum.
  pub message_arrives :
      (version : Version) (m : Message (Floats.Float fl))
      → IsSendable standard version m
      → class_of classes m.cls.msg_type ≡ ok m.cls
      → (bs : Bytes) × (size : ℕ) × (checksum : Str) × (prepare_complete_msg fl defs version m
          ≡ ok bs)
        × ((v : Bytes) (cursor : Cursor)
            → view cursor ≡ bs ++ v
            → let full = completed standard version m size checksum in
              deserialize fl classes cursor ≡ (
                ok (some full, is_logout full, is_heartbeat full),
                move_on (pos (length bs)) cursor,
              ))
  message_arrives version m h registered =
      let (written, bs, c, prepared, is_bytes) =
        completed_written fl laws defs standard version m h in
      let checksum = checksum_of (front version (length c.body) ++ c.body) in
      let full = completed standard version m (length c.body) checksum in
      let (bs', writes, reads) = message_round_trip fl laws full (
        h.whole (length c.body) checksum
          (checksum-IsClean (front version (length c.body) ++ c.body))) in
      let same : bs' ≡ bs = cc in
      (
        bs,
        length c.body,
        checksum,
        prepared,
        λ v cursor seen.
            deserialize_complete fl classes version written bs full c v cursor h.clean_type
              registered (rw same at reads) seen,
      )
