-- ===== src/Tests/FixTests.antt =====
-- The theorems on FIX segments, messages, reader and sessions at concrete inputs: fix/core.py,
-- fix/_reader.py and fix/session.py.
use nasdaq_protocols.Prelude.{
  ℕ, ◌+◌, ◌≡◌, ◌≢◌, refl, inl, inr, true, false, Option, some, none, List, [], ◌∷◌, ◌++◌, arith, ℤ,
  pos, Result, ok, raised, out_of_fuel, value_error, length, length-append, eqb_ℤ, ◌⊎◌,
}
use nasdaq_protocols.Python.Bytes.{Bytes}
use nasdaq_protocols.Python.Text.{Str, codes, str_equal}
use nasdaq_protocols.Python.Decimal.{str_int, parse_int, parse_int-str_int}
use nasdaq_protocols.Fix.Types.{fix_string, fix_int}
use nasdaq_protocols.Fix.Field.{Floats, FieldClass, text, int, soh}
use nasdaq_protocols.Fix.Field.RoundTrip.{FloatLaws, a_text, an_int, IsClean-int}
use nasdaq_protocols.Fix.Segment.{
  EntryDef, Entries, no_entries, entry, Values, value, empty, group, no_groups, Node, is_in, keys,
  segment_to_bytes, segment_from_bytes,
}
use nasdaq_protocols.Fix.Segment.Lines.{Follows}
use nasdaq_protocols.Fix.Segment.Ending.{segment_from_bytes-Ends}
use nasdaq_protocols.Fix.Segment.RoundTrip.{segment_round_trip}
use nasdaq_protocols.Fix.Segment.Represented.{
  Stops, IsSegment, last, values, a_field, a_container, end, groups,
}
use nasdaq_protocols.Common.Session.{new_session}
use nasdaq_protocols.Python.Find.{find_byte}
use nasdaq_protocols.Python.Text.{transcode}
use nasdaq_protocols.Fix.Types.{unpack_int, pack_str}
use nasdaq_protocols.Fix.Segment
use nasdaq_protocols.Fix.Message as Messages
use nasdaq_protocols.Fix.Access.{
  FieldDefs, def_by_tag, Key, key_to_tag, Given, from_given, Got, got, validate, set_item, get_item,
  contains,
}
use nasdaq_protocols.Fix.Access.Laws.{get_item-set_item, HasRequired, LacksRequired, validate_lem}
use nasdaq_protocols.Fix.Session.Delivery.{deserialize_waits}
use nasdaq_protocols.Fix.Session.Counting.{IsSent, send_msg-IsSent}
use nasdaq_protocols.Fix.Message.{
  MessageClass, Message, MessageDefs, register, class_of, is_logout, is_heartbeat,
}
use nasdaq_protocols.Fix.Reader.{Cursor, view, deserialize, move_on, empty_response}
use nasdaq_protocols.Fix.Session.{fix44, prepare_complete_msg, FixSession, send_msg}
use nasdaq_protocols.Fix.Session.Completion.{
  StandardFields, front, line, checksum_of, IsComplete, completes,
}
use nasdaq_protocols.Fix.Session.Arrival.{IsSendable, completed, message_arrives}

-- Floats that are whole numbers.
abbrev number : Result ℤ → Option ℤ
number (ok z) = some z
number (raised e) = none

abbrev whole_floats : Floats
whole_floats = record {
  Float = ℤ;
  str_float = str_int;
  parse_float = λ s. number (parse_int s);
  truth = λ z. true;
}

whole_laws : FloatLaws whole_floats
whole_laws = record { str_clean = IsClean-int; parse_str = λ z. rw (parse_int-str_int z) refl }

abbrev begin_field : FieldClass
begin_field = record { tag = pos 8; name = codes "BeginString"; field_type = fix_string }

abbrev length_field : FieldClass
length_field = record { tag = pos 9; name = codes "BodyLength"; field_type = fix_int }

abbrev checksum_field : FieldClass
checksum_field = record { tag = pos 10; name = codes "CheckSum"; field_type = fix_string }

abbrev type_field : FieldClass
type_field = record { tag = pos 35; name = codes "MsgType"; field_type = fix_string }

abbrev seq_num_field : FieldClass
seq_num_field = record { tag = pos 34; name = codes "MsgSeqNum"; field_type = fix_int }

abbrev quantity_field : FieldClass
quantity_field = record { tag = pos 1; name = codes "Quantity"; field_type = fix_int }

abbrev note_field : FieldClass
note_field = record { tag = pos 2; name = codes "Note"; field_type = fix_string }

abbrev defs : FieldDefs
defs =
    begin_field ∷ length_field ∷ checksum_field ∷ type_field ∷ seq_num_field ∷ quantity_field
    ∷ note_field ∷ []

standard : StandardFields defs
unfolding def_by_tag
standard = record {
  begin_class = begin_field;
  length_class = length_field;
  type_class = type_field;
  checksum_class = checksum_field;
  finds_begin = refl;
  finds_length = refl;
  finds_type = refl;
  finds_checksum = refl;
  begin_text = refl;
  length_int = refl;
  type_text = refl;
  checksum_text = refl;
}

abbrev header_entries : Entries
header_entries = entry (EntryDef.field begin_field) true (
    entry (EntryDef.field length_field) true (
      entry (EntryDef.field type_field) true
        (entry (EntryDef.field seq_num_field) false no_entries)))

abbrev leg_entries : Entries
leg_entries =
    entry (EntryDef.field quantity_field) true (entry (EntryDef.field note_field) false no_entries)

abbrev body_entries : Entries
body_entries = entry (EntryDef.field note_field) true (
    entry (EntryDef.container (pos 22) (codes "NoLegs") (codes "Legs") leg_entries) false
      no_entries)

abbrev trailer_entries : Entries
trailer_entries = entry (EntryDef.field checksum_field) true no_entries

abbrev order_class : MessageClass
order_class = record {
  name = codes "Order";
  msg_type = codes "D";
  category = codes "app";
  header = header_entries;
  body = body_entries;
  trailer = trailer_entries;
}

-- Two legs, each with a quantity.
abbrev legs : Values ℤ
legs =
    value (pos 22)
      (Node.container (pos 22) (codes "NoLegs") leg_entries (
        group (value (pos 1) (Node.field quantity_field (int (pos 5))) empty)
          (group (value (pos 1) (Node.field quantity_field (int (pos 7))) empty) no_groups)))
      empty

abbrev order_body : Values ℤ
order_body = value (pos 2) (Node.field note_field (text (codes "fast"))) legs

abbrev order : Message ℤ
order = record {
  cls = order_class;
  header = value (pos 34) (Node.field seq_num_field (int (pos 3))) empty;
  body = order_body;
  trailer = empty;
}

one_leg :
    (n : ℕ) (next : Option ℤ)
    → Stops leg_entries (pos 1 ∷ []) next
    → IsSegment {F = ℤ} leg_entries []
        (value (pos 1) (Node.field quantity_field (int (pos n))) empty)
        next
one_leg n next stops =
    values leg_entries [] (pos 1) (EntryDef.field quantity_field) _ empty next refl refl
      (a_field quantity_field (int (pos n)) next (an_int (pos n)))
      (last leg_entries (pos 1 ∷ []) next stops)

legs-IsSegment :
    (next : Option ℤ)
    → Stops leg_entries (pos 1 ∷ []) next
    → Stops body_entries (pos 22 ∷ pos 2 ∷ []) next
    → IsSegment {F = ℤ} body_entries (pos 2 ∷ []) legs next
legs-IsSegment next ends_leg ends_body =
    values body_entries (pos 2 ∷ []) (pos 22)
      (EntryDef.container (pos 22) (codes "NoLegs") (codes "Legs") leg_entries) _ empty next refl
      refl
      (a_container (pos 22) (codes "NoLegs") (codes "Legs") leg_entries _ next (
        groups leg_entries (pos 1) _ empty _ next refl (one_leg 5 (some (pos 1)) (inl refl)) (
          groups leg_entries (pos 1) _ empty _ next refl (one_leg 7 next ends_leg)
            (end leg_entries next))))
      (last body_entries (pos 22 ∷ pos 2 ∷ []) next ends_body)

body-IsSegment :
    (next : Option ℤ)
    → Stops leg_entries (pos 1 ∷ []) next
    → Stops body_entries (pos 22 ∷ pos 2 ∷ []) next
    → IsSegment {F = ℤ} body_entries [] order_body next
body-IsSegment next ends_leg ends_body =
    values body_entries [] (pos 2) (EntryDef.field note_field) _ legs next refl refl
      (a_field note_field (text (codes "fast")) (some (pos 22))
        (a_text (codes "fast") (ground arith)))
      (legs-IsSegment next ends_leg ends_body)

-- The tag 34, behind any tags of the header that stand before it.
seq_num-IsSegment :
    (seen : List ℤ)
    → is_in (pos 34) seen ≡ false
    → IsSegment {F = ℤ} header_entries seen order.header (some (pos 2))
seq_num-IsSegment seen new =
    values header_entries seen (pos 34) (EntryDef.field seq_num_field) _ empty (some (pos 2)) refl
      new (a_field seq_num_field (int (pos 3)) (some (pos 2)) (an_int (pos 3)))
      (last header_entries (pos 34 ∷ seen) (some (pos 2)) (inr refl))

order-IsSendable : IsSendable standard fix44 order
unfolding standard
order-IsSendable = record {
  alone = record {
    header = seq_num-IsSegment [] refl;
    body = body-IsSegment none tt tt;
    trailer = last trailer_entries [] none tt;
    some_value = omega arith;
  };
  whole = λ size checksum clean. record {
    header =
        values header_entries [] (pos 8) (EntryDef.field begin_field) _ _ (some (pos 2)) refl refl
          (a_field begin_field (text (codes "FIX.4.4")) (some (pos 9))
            (a_text (codes "FIX.4.4") (ground arith)))
          (values header_entries (pos 8 ∷ []) (pos 9) (EntryDef.field length_field) _ _
            (some (pos 2)) refl refl
            (a_field length_field (int (pos size)) (some (pos 35)) (an_int (pos size)))
            (values header_entries (pos 9 ∷ pos 8 ∷ []) (pos 35) (EntryDef.field type_field) _ _
              (some (pos 2)) refl refl
              (a_field type_field (text (codes "D")) (some (pos 34))
                (a_text (codes "D") (ground arith)))
              (seq_num-IsSegment (pos 35 ∷ pos 9 ∷ pos 8 ∷ []) refl)));
    body = body-IsSegment (some (pos 10)) (inr refl) (inr refl);
    trailer =
        values trailer_entries [] (pos 10) (EntryDef.field checksum_field) _ empty none refl refl
          (a_field checksum_field (text checksum) none (a_text checksum clean))
          (last trailer_entries (pos 10 ∷ []) none tt);
    some_value = omega arith;
  };
  clean_type = ground arith;
}

segment_round_trip_example :
    (bs : Bytes) × (segment_to_bytes whole_floats order_body ≡ ok (length bs, bs))
    × ((rest : Bytes)
        → Follows none rest
        → segment_from_bytes whole_floats body_entries (bs ++ soh ∷ rest)
          ≡ ok (length bs + 1, order_body))
segment_round_trip_example =
    segment_round_trip whole_floats whole_laws body_entries (pos 2)
      (Node.field note_field (text (codes "fast"))) legs none (body-IsSegment none tt tt)

-- A count of two and one group: the second is missing.
abbrev short_legs : Bytes
short_legs = codes "22=2" ++ soh ∷ codes "1=5"

segment_from_bytes-Ends_example :
    segment_from_bytes whole_floats body_entries short_legs ≢ raised out_of_fuel
segment_from_bytes-Ends_example = segment_from_bytes-Ends whole_floats body_entries short_legs

short_legs_refused : segment_from_bytes whole_floats body_entries short_legs ≡ raised value_error
unfolding segment_from_bytes Segment.read_tag transcode find_byte parse_int unpack_int
short_legs_refused = refl

abbrev classes : MessageDefs
classes = (codes "D", order_class) ∷ (codes "Order", order_class) ∷ []

order_registered : register order_class [] ≡ classes
unfolding register
order_registered = refl

finds_order : class_of classes (codes "D") ≡ ok order_class
unfolding class_of str_equal
finds_order = refl

message_arrives_example :
    (bs : Bytes) × (size : ℕ) × (checksum : Str) × (prepare_complete_msg whole_floats defs fix44
        order
      ≡ ok bs)
    × ((v : Bytes) (cursor : Cursor)
        → view cursor ≡ bs ++ v
        → let full = completed standard fix44 order size checksum in
          deserialize whole_floats classes cursor
          ≡ (ok (some full, is_logout full, is_heartbeat full), move_on (pos (length bs)) cursor))
message_arrives_example =
    message_arrives whole_floats whole_laws defs standard classes fix44 order order-IsSendable
      finds_order

order_line : Bytes
order_line =
    (((codes "34=3" ++ soh ∷ codes "2=fast") ++ soh ∷ codes "22=2") ++ soh ∷ codes "1=5")
    ++ soh ∷ (codes "1=7" ++ soh ∷ [])

order_written : Messages.to_bytes whole_floats order ≡ ok (length order_line, order_line)
unfolding order_line Messages.to_bytes segment_to_bytes transcode str_int pack_str Messages.with_soh
order_written = refl

completes_example :
    (bs : Bytes) × (prepare_complete_msg whole_floats defs fix44 order ≡ ok bs)
    × IsComplete fix44 (codes "D") order_line bs
completes_example =
    completes whole_floats defs standard fix44 order (length order_line) order_line order_written
      (ground arith)

-- The reader has begin string and body length.
abbrev begun : Cursor
begun = record { bytes = front fix44 (length completes_example.2.body); read_pos = pos 0 }

deserialize_waits_example : deserialize whole_floats classes begun ≡ (ok empty_response, begun)
deserialize_waits_example =
    let c = completes_example.2 in
    let trailer = line (pos 10) (checksum_of (front fix44 (length c.body) ++ c.body)) in
    deserialize_waits whole_floats classes fix44 (codes "D") order_line completes_example.0 c
      (front fix44 (length c.body)) (c.body ++ trailer) begun c.layout
      (omega (arith, c.trailer_size, length-append c.body trailer)) refl

abbrev slow_note : Values ℤ
slow_note = value (pos 2) (Node.field note_field (text (codes "slow"))) legs

set_note :
    set_item whole_floats defs body_entries
      (Key.tag (pos 2))
      (Given.atom (text (codes "slow")))
      order_body
    ≡ ok slow_note
unfolding set_item
set_note = refl

get_item-set_item_example :
    (t : ℤ) × (def : EntryDef) × (node : Node ℤ) × (key_to_tag defs (Key.tag (pos 2)) ≡ ok t)
    × (from_given whole_floats defs def (Given.atom (text (codes "slow"))) ≡ ok node)
    × (get_item defs body_entries (Key.tag (pos 2)) slow_note ≡ ok (got def (some node)))
    × (contains defs (Key.tag (pos 2)) slow_note ≡ ok true)
    × ((u : ℤ)
        → key_to_tag defs (Key.tag (pos 22)) ≡ ok u
        → eqb_ℤ u t ≡ false
        → get_item defs body_entries (Key.tag (pos 22)) slow_note
          ≡ get_item defs body_entries (Key.tag (pos 22)) order_body)
get_item-set_item_example =
    get_item-set_item whole_floats defs body_entries (Key.tag (pos 2)) (Key.tag (pos 22))
      (Given.atom (text (codes "slow"))) order_body slow_note set_note

-- The note, which is required, is missing.
validate_lem_example :
    ((validate body_entries legs ≡ ok tt) × HasRequired body_entries legs)
    ⊎ ((validate body_entries legs ≡ raised value_error) × LacksRequired body_entries legs)
validate_lem_example = validate_lem body_entries legs

abbrev session : FixSession ℤ
session = record {
  common = new_session false false false true;
  version = fix44;
  sequence = some (pos 3);
  username = Got.nothing;
  sender_comp_id = Given.nothing;
  sender_sub_id = Given.nothing;
  target_comp_id = Given.nothing;
  sent = [];
}

send_msg-IsSent_example :
    IsSent whole_floats defs
      (codes "now")
      order
      session
      (send_msg whole_floats defs (codes "now") order session)
send_msg-IsSent_example = send_msg-IsSent whole_floats defs (codes "now") order session
