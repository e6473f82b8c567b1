-- ===== src/Tests/MessageTests.antt =====
-- The theorems on application messages at concrete values: common/message and soup/soup_app.py.
use nasdaq_protocols.Prelude.{
  ℕ, ◌<◌, ◌≡◌, refl, true, false, none, some, List, [], ◌∷◌, ◌++◌, length, arith, ◌+ℤ◌, pos, negsuc,
  ok,
}
use nasdaq_protocols.Python.Bytes
use nasdaq_protocols.Python.Bytes.{Bytes}
use nasdaq_protocols.Python.Text.{Str, ascii}
use nasdaq_protocols.Common.Message.Types
use nasdaq_protocols.Common.Message.Types.{
  FixedString, pack_int, unpack_int, pack_string, unpack_string, pack_fixed, unpack_fixed,
}
use nasdaq_protocols.Common.Message.Types.RoundTrip.{unpack_int-pack_int, pack_fixed_overlong}
use nasdaq_protocols.Common.Message.Structures
use nasdaq_protocols.Common.Message.Structures.{
  Value, int, str, list, record_of, Values, Entries, entry, FieldType, Fields, no_fields,
}
use nasdaq_protocols.Common.Message.Structures.Wire.{IsWire, AreWire, ItemsWire}
use nasdaq_protocols.Common.Message.Structures.Returns.{RoundTrips}
use nasdaq_protocols.Common.Message.Structures.RoundTrip.{value_round_trip}
use nasdaq_protocols.Common.Message.Registry
use nasdaq_protocols.Common.Message.Registry.{
  MessageClass, Registry, empty, register, find_id, id_to_bytes,
}
use nasdaq_protocols.Common.Message.Registry.Laws.{
  Registered, register_lem, message_round_trip, from_bytes_direction,
}
use nasdaq_protocols.Common.Queue
use nasdaq_protocols.Common.Queue.Order.{all}
use nasdaq_protocols.Common.Session.{new_session}
use nasdaq_protocols.SoupApp.{AppSession, Message}
use nasdaq_protocols.SoupApp.Delivery.{Packed, receive, receive-packed}

minus_two : pack_int Types.short (negsuc 1) ≡ ok (2, 254 ∷ 255 ∷ [])
unfolding pack_int Bytes.to_bytes
minus_two = refl

unpack_int-pack_int_example :
    (2 ≡ length (254 ∷ 255 ∷ (let e : Bytes = [] in e)))
    × (unpack_int Types.short ((254 ∷ 255 ∷ []) ++ (7 ∷ [])) ≡ (pos 2, negsuc 1))
unpack_int-pack_int_example =
    unpack_int-pack_int Types.short 1 (negsuc 1) 2 (254 ∷ 255 ∷ []) (7 ∷ []) refl minus_two

abbrev word : Str
word = b'o' ∷ b'k' ∷ []

abbrev one : FixedString
one = record { encoding = ascii; length_ = 1; right_justified = false }

pack_fixed_overlong_example : pack_fixed one word ≡ ok (1, word)
pack_fixed_overlong_example =
    pack_fixed_overlong one word (omega arith) (omega arith, (omega arith, tt))

-- A message body: a number and an array of one-byte numbers.
abbrev order : Fields
order = Fields.field "quantity" (FieldType.integer Types.short) (int (pos 0)) (
    Fields.field "marks" (FieldType.array (FieldType.integer Types.byte) Types.byte)
      (list Values.nil) no_fields)

abbrev marks : Values
marks = Values.cons (int (pos 3)) (Values.cons (int (pos 200)) Values.nil)

abbrev entries : Entries
entries = entry "quantity" (int (negsuc 1)) (entry "marks" (list marks) Entries.end)

packed_byte : (n : ℕ) → n < 256 → pack_int Types.byte (pos n) ≡ ok (1, n ∷ [])
unfolding pack_int Bytes.to_bytes
packed_byte n h = ground arith

order-IsWire : IsWire (FieldType.plain_record order) (record_of entries)
unfolding Structures.get_entry Structures.count
order-IsWire =
    IsWire.plain_record order entries tt (refl, (refl, tt))
      (AreWire.field "quantity" _ _ _ _ _
        (IsWire.integer Types.short 1 (negsuc 1) 2 (254 ∷ 255 ∷ []) refl minus_two)
        (AreWire.field "marks" _ _ _ _ _
          (IsWire.array (FieldType.integer Types.byte) Types.byte 0 marks 1 (2 ∷ []) refl
            (packed_byte 2 (omega arith))
            (ItemsWire.cons _ _ _ refl
              (IsWire.integer Types.byte 0 (pos 3) 1 (3 ∷ []) refl (packed_byte 3 (omega arith)))
              (ItemsWire.cons _ _ _ refl
                (IsWire.integer Types.byte 0 (pos 200) 1 (200 ∷ []) refl
                  (packed_byte 200 (omega arith)))
                (ItemsWire.nil _))))
          AreWire.end))

value_round_trip_example : RoundTrips (FieldType.plain_record order) (record_of entries)
value_round_trip_example = value_round_trip order-IsWire

abbrev order_class : MessageClass
order_class = record {
  identity = 1;
  name = "Order";
  msg_id = record { indicator = pos 79; direction = "outgoing" };
  body = FieldType.plain_record order;
}

abbrev other_class : MessageClass
other_class = record order_class { identity = 2 }

abbrev registry : Registry
registry = record {
  by_id = (some "app", order_class) ∷ [];
  by_name = (some "app", order_class) ∷ [];
}

register_lem_example :
    Registered (some "app") other_class registry (register (some "app") other_class registry)
register_lem_example = register_lem (some "app") other_class registry

order_found : find_id (some "app") order_class.msg_id registry.by_id ≡ some order_class
unfolding find_id Registry.same_app Registry.same_id
order_found = refl

order_indicator : id_to_bytes order_class.msg_id ≡ ok (1, 79 ∷ [])
unfolding id_to_bytes
order_indicator = packed_byte 79 (omega arith)

message_round_trip_example :
    (bs : Bytes) × (Registry.to_bytes order_class (record_of entries) ≡ ok (length bs, bs))
    × ((rest : Bytes)
        → Registry.from_bytes (some "app") registry (bs ++ rest)
          ≡ ok (
            pos (length bs),
            order_class,
            Registry.record_given order_class.body (record_of entries),
          ))
message_round_trip_example =
    message_round_trip (some "app") registry order_class (record_of entries) 1 (79 ∷ []) order_found
      refl order_indicator order-IsWire

order_read :
    Registry.from_bytes (some "app") registry (79 ∷ 254 ∷ 255 ∷ 0 ∷ [])
    ≡ ok (
      pos 4,
      order_class,
      record_of (entry "quantity" (int (negsuc 1)) (entry "marks" (list Values.nil) Entries.end)),
    )
unfolding Registry.from_bytes Registry.same_app Registry.record_given find_id Registry.id_from_bytes
    unpack_int Structures.from_bytes Registry.same_id Bytes.from_bytes Structures.unpack_items ◌+ℤ◌
    Structures.fill_records Structures.get_entry Structures.set_entry
order_read = refl

from_bytes_direction_example :
    (order_class.msg_id.direction ≡ "outgoing")
    × (Registry.same_int (pos 79) (Registry.id_from_bytes (79 ∷ 254 ∷ 255 ∷ 0 ∷ [])).1.indicator
        ≡ true)
from_bytes_direction_example =
    from_bytes_direction (some "app") registry (79 ∷ 254 ∷ 255 ∷ 0 ∷ []) (pos 4) order_class
      (record_of (entry "quantity" (int (negsuc 1)) (entry "marks" (list Values.nil) Entries.end)))
      order_read

-- An application session over a client's session that has connected.
abbrev application : AppSession
application = record {
  soup_session = record {
    common = new_session false false false true;
    sequence = pos 1;
    user = [];
    session = [];
    sent = [];
    logged_in = false;
    unsequenced = [];
    debugs = [];
  };
  on_close_coro = false;
  closed = false;
  close_event = none;
  message_queue = Queue.empty;
  close_calls = 0;
}

order_given : Registry.record_given order_class.body (record_of entries) ≡ record_of entries
unfolding Registry.record_given
order_given = refl

abbrev messages : List Message
messages = (order_class, record_of entries) ∷ []

receive-packed_example :
    (ps : List Bytes) × Packed messages ps
    × (all (receive (some "app") registry ps application).message_queue ≡ messages)
receive-packed_example =
    receive-packed (some "app") registry messages application
      ((order_found, refl, (1, 79 ∷ [], order_indicator), order-IsWire, order_given), tt)
