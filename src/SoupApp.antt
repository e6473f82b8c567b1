-- ===== src/SoupApp.antt =====
-- `SoupAppClientSession` of src/nasdaq_protocols/soup/soup_app.py: an application's messages over a
-- soup session. Its ids and its message classes are in Common/Message/Registry.
pub mod Delivery
use nasdaq_protocols.Prelude.{
  ℕ, ◌+◌, Bool, true, false, not, ◌&&◌, ◌||◌, Option, none, some, List, [], ◌∷◌, if◌then◌else◌, ℤ,
  Result, ok, raised, ◌>>=◌,
}
use Prim.Native.String.{String}
use nasdaq_protocols.Python.Bytes.{Bytes}
use nasdaq_protocols.Common.Queue
use nasdaq_protocols.Common.Queue.{Queue}
use nasdaq_protocols.Common.Message.Structures.{Value}
use nasdaq_protocols.Common.Message.Registry
use nasdaq_protocols.Common.Message.Registry.{MessageClass, Registry}
use nasdaq_protocols.Common.Session
use nasdaq_protocols.Common.Session.{is_some}
use nasdaq_protocols.Soup.Core.{SoupMessage, sequenced_data}
use nasdaq_protocols.Soup.Session.{SoupSession, Outcome, send_unseq_data}

-- A decoded message: its class and its record.
abbrev pub Message : Type 0
Message = MessageClass × Value

pub record AppSession : Type 0 where
  pub soup_session : SoupSession
  pub on_close_coro : Bool
  pub closed : Bool
  -- the event that `close` waits for: whether it is set
  pub close_event : Option Bool
  pub message_queue : Queue Message
  -- calls of `on_close_coro`
  pub close_calls : ℕ

abbrev pub handled :
    AppSession → Result (Unit {0}) × Session.Session SoupMessage → Result (Unit {0}) × AppSession
handled a (r, c) = (r, record a { soup_session = record a.soup_session { common = c } })

abbrev pub then_start : Result (Unit {0}) × AppSession → Result (Unit {0}) × AppSession
then_start (ok u, a) = handled a (Session.start_dispatching a.soup_session.common)
then_start (raised e, a) = (raised e, a)

-- `__attrs_post_init__`; the flags tell which coros are given
unfoldable pub start : Bool → Bool → SoupSession → Result (Unit {0}) × AppSession
unfolding Queue.start_dispatching Session.set_handlers Session.start_dispatching
start on_msg on_close s = elim (Queue.new on_msg) [
  | ok q ↦
      let a : AppSession = record {
        soup_session = s;
        on_close_coro = on_close;
        closed = false;
        close_event = none;
        message_queue = q;
        close_calls = 0;
      } in
      then_start (handled a (Session.set_handlers true true s.common))
  | raised e ↦ (
    raised e,
    record {
      soup_session = s;
      on_close_coro = on_close;
      closed = false;
      close_event = none;
      message_queue = Queue.empty;
      close_calls = 0;
    },
  )
]

abbrev pub sent_in : AppSession → Outcome → Result (Unit {0}) × AppSession
sent_in a (r, s) = (r, record a { soup_session = s })

abbrev pub send_packed_message : Result (ℕ × Bytes) → AppSession → Result (Unit {0}) × AppSession
send_packed_message (raised e) a = (raised e, a)
send_packed_message (ok (_, bs)) a = sent_in a (send_unseq_data bs a.soup_session)

unfoldable pub send_message : Message → AppSession → Result (Unit {0}) × AppSession
unfolding Registry.to_bytes send_unseq_data
send_message (c, v) a = send_packed_message (Registry.to_bytes c v) a

-- `close` up to its wait
unfoldable pub close : AppSession → AppSession
unfolding Session.initiate_close
close a = if is_some a.close_event || a.closed then a else record a {
  close_event = some false;
  soup_session = record a.soup_session {
    common = Session.initiate_close false a.soup_session.common;
  };
}

unfoldable pub on_soup_close : AppSession → AppSession
unfolding Queue.stop
on_soup_close a = record a {
  message_queue = Queue.stop a.message_queue;
  close_calls = if a.on_close_coro then a.close_calls + 1 else a.close_calls;
  close_event = if is_some a.close_event then some true else none;
  closed = true;
}

module _ (decode : Bytes → Result (ℤ × MessageClass × Value)) where
  abbrev pub decoded :
      Result (ℤ × MessageClass × Value) → AppSession → Result (Unit {0}) × AppSession
  decoded (raised e) a = (raised e, a)
  decoded (ok (_, c, v)) a = (ok tt, record a { message_queue = Queue.put (c, v) a.message_queue })

  unfoldable pub on_soup_message : SoupMessage → AppSession → Result (Unit {0}) × AppSession
  unfolding Queue.put
  on_soup_message (sequenced_data payload) a = decoded (decode payload) a
  on_soup_message msg a = (ok tt, a)

abbrev pub with_queue {ℓ} : {A : Type ℓ} → AppSession → A × Queue Message → A × AppSession
with_queue a (r, q) = (r, record a { message_queue = q })

-- `receive_message`: none where it waits. A message object is true in Python.
unfoldable pub receive_message : AppSession → Result (Option Message) × AppSession
unfolding Queue.get
receive_message a = with_queue a (Queue.get (λ _. true) a.message_queue)
