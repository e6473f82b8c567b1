-- ===== src/Protocols/Clients.antt =====
-- The client sessions of itch, ouch and sqf take what the server of the protocol sends.
use Prim.Native.String.{String}
use nasdaq_protocols.Prelude.{
  some, none, ℕ, ◌<◌, ◌≡◌, refl, sym, ap, ◌∙◌, arith, [], ◌∷◌, append-nil, ℤ, pos, Result, ok,
  raised, length,
}
use nasdaq_protocols.Python.Bytes
use nasdaq_protocols.Python.Bytes.{Bytes}
use nasdaq_protocols.Common.Queue
use nasdaq_protocols.Common.Message.Structures.{Value, FieldType}
use nasdaq_protocols.Common.Message.Structures.Wire.{IsWire}
use nasdaq_protocols.Common.Message.Types
use nasdaq_protocols.Common.Message.Registry
use nasdaq_protocols.Common.Message.Registry.{
  AppName, record_given, MessageClass, Registry, find_id, id_to_bytes, register,
}
use nasdaq_protocols.Common.Message.Registry.Laws.{Registered, register_lem, message_round_trip}
use nasdaq_protocols.Soup.Core.{sequenced_data}
use nasdaq_protocols.SoupApp.{AppSession, on_soup_message, decoded}
use nasdaq_protocols.Protocols.{Protocol, register_message, decode, on_message}

abbrev pub message_class : ℕ → String → ℕ → FieldType → MessageClass
message_class identity name indicator body = record {
  identity = identity;
  name = name;
  msg_id = record { indicator = pos indicator; direction = "outgoing" };
  body = body;
}

registered :
    (app : AppName) (c : MessageClass) (r r' : Registry) (x : Result Registry)
    → Registered app c r x
    → x ≡ ok r'
    → find_id app c.msg_id r'.by_id ≡ some c
registered app c r r' (raised e) h p = cc
registered app c r r' (ok s) h p =
    let same : s ≡ r' = cc in ap (λ (x : Registry). find_id app c.msg_id x.by_id) (sym same) ∙ h.1

one_byte : (n : ℕ) → n < 256 → Types.pack_int Types.byte (pos n) ≡ ok (1, n ∷ [])
unfolding Types.pack_int Bytes.to_bytes
one_byte n h = ground arith

-- A message class that is registered without an `app_name`, as 'outgoing' and with an indicator of
-- one byte, as a subclass of the `Message` of any of the three protocols: what the server packs of it comes, in
-- sequenced data, into the queue of the client session of each protocol, whichever it was registered
-- for, as the class and the value, for every value that fits the body; an absent body is an empty
-- record.
pub client_receives :
    (p : Protocol) (identity : ℕ) (name : String) (indicator : ℕ) (body : FieldType)
    (r r' : Registry) (v : Value) (a : AppSession)
    → register_message none identity name (pos indicator) "outgoing" body r ≡ ok r'
    → indicator < 256
    → IsWire body v
    → (bs : Bytes) × (Registry.to_bytes (message_class identity name indicator body) v
        ≡ ok (length bs, bs))
      × (on_message p r' (sequenced_data bs) a ≡ (
        ok tt,
        record a {
          message_queue =
              Queue.put
                (message_class identity name indicator body, record_given body v)
                a.message_queue;
        },
      ))
unfolding register_message on_message on_soup_message decode
client_receives p identity name indicator body r r' v a h small w =
    let c = message_class identity name indicator body in
    let found = registered none c r r' (register none c r) (register_lem none c r) h in
    let packed : id_to_bytes c.msg_id ≡ ok (1, indicator ∷ []) =
      unfold id_to_bytes in one_byte indicator small in
    let (bs, q, read) = message_round_trip none r' c v 1 (indicator ∷ []) found refl packed w in
    (
      bs,
      q,
      ap (λ (x : Result (ℤ × MessageClass × Value)). decoded (decode p r') x a)
          (ap (Registry.from_bytes none r') (sym (append-nil bs)) ∙ read []),
    )
