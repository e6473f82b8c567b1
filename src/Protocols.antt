-- ===== src/Protocols.antt =====
-- src/nasdaq_protocols/itch, ouch and sqf: the application protocols over soup.
pub mod Clients
use Prim.Native.String.{String}
use nasdaq_protocols.Prelude.{
  ℕ, Bool, true, false, Option, none, some, List, [], ◌∷◌, if◌then◌else◌, ℤ, Result, ok, raised,
  not_implemented,
}
use nasdaq_protocols.Python.Bytes.{Bytes}
use nasdaq_protocols.Common.Message.Structures.{Value, FieldType}
use nasdaq_protocols.Common.Message.Registry
use nasdaq_protocols.Common.Message.Registry.{AppName, MessageClass, MessageId, Registry, register}
use nasdaq_protocols.Soup.Core.{SoupMessage}
use nasdaq_protocols.SoupApp
use nasdaq_protocols.SoupApp.{AppSession, Message, on_soup_message}

pub data Protocol : Type 0 where
  itch ouch sqf : Protocol

-- AppName of the `Message` of each core.py: `attrs.define` makes the class a second time, without the
-- keyword `app_name` of the class statement, and `__init_subclass__` of `SoupAppMessage` then sets
-- None. So it is not APP_NAME, and the three protocols share one name.
unfoldable pub message_app_name : Protocol → AppName
message_app_name p = none

-- `Message.__init_subclass__` of each core.py, of a class with an indicator and a direction, through
-- that of `SoupAppMessage`: without the keyword `app_name` the class goes under None.
unfoldable pub register_message :
    (app_name : AppName) (identity : ℕ) (name : String) (indicator : ℤ) (direction : String)
    → FieldType
    → Registry
    → Result Registry
register_message app_name identity name indicator direction body r =
    register app_name
      (record {
        identity = identity;
        name = name;
        msg_id = record { indicator = indicator; direction = direction };
        body = body;
      })
      r

-- `decode` of each client session
unfoldable pub decode : Protocol → Registry → Bytes → Result (ℤ × MessageClass × Value)
unfolding message_app_name
decode p r bs = Registry.from_bytes (message_app_name p) r bs

-- `send_message`: ITCH is read-only.
unfoldable pub send_message : Protocol → Message → AppSession → Result (Unit {0}) × AppSession
send_message itch m a = (raised not_implemented, a)
send_message ouch m a = SoupApp.send_message m a
send_message sqf m a = SoupApp.send_message m a

unfoldable pub on_message :
    Protocol → Registry → SoupMessage → AppSession → Result (Unit {0}) × AppSession
unfolding decode
on_message p r msg a = on_soup_message (decode p r) msg a
