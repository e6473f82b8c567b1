-- ===== src/Tests/ProtocolTests.antt =====
-- The theorems on FIX fields, on the protocols' clients and on the synchronous session at concrete
-- inputs: fix/types.py, itch, ouch, sqf and soup/session.py.
use nasdaq_protocols.Prelude.{
  ◌≡◌, refl, true, false, some, none, [], ◌∷◌, arith, ℤ, pos, ok, length,
}
use nasdaq_protocols.Python.Bytes
use nasdaq_protocols.Python.Bytes.{Bytes}
use nasdaq_protocols.Python.Decimal.{str_int, parse_int, parse_int-str_int, str_int-IsEncodable}
use nasdaq_protocols.Fix.Types.{fix_price, fix_int, get_type, definitions, to_bytes, from_bytes}
use nasdaq_protocols.Fix.Types.RoundTrip.{ReadsBack, fix_round_trip}
use nasdaq_protocols.Common.Queue
use nasdaq_protocols.Common.Message.Types
use nasdaq_protocols.Common.Message.Structures.{
  Value, int, entry, Entries, record_of, FieldType, Fields, no_fields,
}
use nasdaq_protocols.Common.Message.Structures
use nasdaq_protocols.Common.Message.Structures.Wire.{IsWire, AreWire}
use nasdaq_protocols.Common.Message.Registry
use nasdaq_protocols.Common.Message.Registry.{record_given, Registry, register, empty}
use nasdaq_protocols.Common.Session.{new_session}
use nasdaq_protocols.Soup.Core.{sequenced_data}
use nasdaq_protocols.Soup.Session.{SoupSession}
use nasdaq_protocols.Soup.Sync.{
  caller_, request_, closing_, on_close_, closing, requesting, close, run,
}
use nasdaq_protocols.Soup.Sync.Deadlock.{closing_already, close_blocks}
use nasdaq_protocols.SoupApp.{AppSession}
use nasdaq_protocols.Protocols.{sqf, register_message, on_message}
use nasdaq_protocols.Protocols.Clients.{message_class, client_receives}

-- Prices that are whole numbers, for which `str` and `float` are those of integers.
fix_round_trip_example :
    ReadsBack
      (to_bytes ℤ str_int parse_int fix_price (pos 12))
      (from_bytes ℤ str_int parse_int fix_price)
      (pos 12)
unfolding to_bytes from_bytes
fix_round_trip_example =
    fix_round_trip ℤ str_int parse_int str_int-IsEncodable parse_int-str_int fix_price (pos 12) tt

-- The type id of booleans leads to the integers.
bool_is_int : get_type "fix_bool" definitions ≡ some fix_int
unfolding get_type
bool_is_int = refl

abbrev soup_session : SoupSession
soup_session = record {
  common = new_session false false false true;
  sequence = pos 1;
  user = [];
  session = [];
  sent = [];
  logged_in = false;
  unsequenced = [];
  debugs = [];
}

close_blocks_example :
    ((run
        (caller_ ∷ caller_ ∷ closing_ ∷ closing_ ∷ closing_ ∷ request_ ∷ on_close_ ∷ [])
        (close (closing_already soup_session))).caller
      ≡ requesting closing)
    × ((run
          (caller_ ∷ caller_ ∷ closing_ ∷ closing_ ∷ closing_ ∷ request_ ∷ on_close_ ∷ [])
          (close (closing_already soup_session))).closed_event
        ≡ false)
close_blocks_example = close_blocks soup_session (request_ ∷ on_close_ ∷ []) refl refl

abbrev application : AppSession
application = record {
  soup_session = soup_session;
  on_close_coro = false;
  closed = false;
  close_event = none;
  message_queue = Queue.empty;
  close_calls = 0;
}

abbrev body : FieldType
body =
    FieldType.plain_record
      (Fields.field "count" (FieldType.integer Types.byte) (int (pos 0)) no_fields)

abbrev value : Value
value = record_of (entry "count" (int (pos 9)) Entries.end)

nine : Types.pack_int Types.byte (pos 9) ≡ ok (1, 9 ∷ [])
unfolding Types.pack_int Bytes.to_bytes
nine = refl

body-IsWire : IsWire body value
unfolding Structures.get_entry
body-IsWire =
    IsWire.plain_record _ _ tt (refl, tt)
      (AreWire.field "count" _ _ _ _ _ (IsWire.integer Types.byte 0 (pos 9) 1 (9 ∷ []) refl nine)
        AreWire.end)

abbrev registry : Registry
registry = Registry.add none (message_class 1 "Tick" 84 body) empty

tick_registered : register_message none 1 "Tick" (pos 84) "outgoing" body empty ≡ ok registry
unfolding register_message register Registry.find_id
tick_registered = refl

client_receives_example :
    (bs : Bytes) × (Registry.to_bytes (message_class 1 "Tick" 84 body) value ≡ ok (length bs, bs))
    × (on_message sqf registry (sequenced_data bs) application ≡ (
      ok tt,
      record application {
        message_queue =
            Queue.put (message_class 1 "Tick" 84 body, record_given body value) Queue.empty;
      },
    ))
client_receives_example =
    client_receives sqf 1 "Tick" 84 body empty registry value application tick_registered
      (omega arith) body-IsWire
