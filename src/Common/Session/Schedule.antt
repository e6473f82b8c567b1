-- ===== src/Common/Session/Schedule.antt =====
-- Sequences of what happens to a session of common/session.py: the calls of the event loop, of its
-- tasks and of the application, in any order.
use nasdaq_protocols.Prelude.{
  Bool, true, false, Option, none, some, List, [], ◌∷◌, ltb, if◌then◌else◌, length, drop,
}
use nasdaq_protocols.Python.Bytes.{Bytes}
use nasdaq_protocols.Common.Buffer.{Framing}
use nasdaq_protocols.Common.Reader
use nasdaq_protocols.Common.Reader.{Reader}
use nasdaq_protocols.Common.Monitor
use nasdaq_protocols.Common.Monitor.{Monitor}
use nasdaq_protocols.Common.Queue.Schedule as QueueSchedule
use nasdaq_protocols.Common.Session.{
  Session, map_option, initiate_close, close, close_step, finish_step, run_closing,
  start_heartbeats, set_handlers, start_dispatching, data_received, connection_lost, on_message,
}

-- `queue_` is what the dispatcher or a reader of the queue does with it.
pub data Event (M : Type 0) : Type 0 where
  data_ : Bytes → Event M
  poll lost run_closing_ close_step_ finish_step_ start_heartbeats_ start_dispatching_ tick_remote :
      Event M
  tick_local initiate_ close_ : Bool → Event M
  set_handlers_ : (on_msg on_close : Bool) → Event M
  queue_ : QueueSchedule.Event M → Event M

module _ {M : Type 0} where
  unfoldable pub deliver : List M → Session M → Session M
  unfolding on_message
  deliver [] s = s
  deliver (m ∷ ms) s = deliver ms (on_message m s)

  abbrev pub close_if : Bool → Session M → Session M
  close_if b s = if b then close false s else s

  -- The remote monitor's coro is `close`.
  abbrev pub ticked : Session M → Option Monitor → Session M
  ticked s none = s
  ticked s (some m) =
      let m' = Monitor.tick true m in
      close_if (ltb m.no_activity m'.no_activity) (record s { remote_hb_monitor = some m' })

module _ {M : Type 0} (f : Framing M) where
  -- A round of the reader, whose coros are `on_message` and `close`.
  abbrev pub polled : Session M → Option (Reader M) → Session M
  polled s none = s
  polled s (some r) =
      let r' = Reader.process f (λ _. true) r in
      close_if (ltb r.close_calls r'.close_calls)
        (deliver (drop (length r.dispatched) r'.dispatched) (record s { reader = some r' }))

module _ {M : Type 0} (f : Framing M) (truthy : M → Bool) where
  unfoldable pub apply : Event M → Session M → Session M
  unfolding deliver data_received connection_lost run_closing close_step finish_step close
      initiate_close start_heartbeats start_dispatching set_handlers QueueSchedule.apply
      Monitor.tick Reader.process
  apply (data_ bs) s = data_received bs s
  apply poll s = polled f s s.reader
  apply lost s = connection_lost s
  apply run_closing_ s = run_closing s
  apply close_step_ s = close_step s
  apply finish_step_ s = finish_step s
  apply start_heartbeats_ s = start_heartbeats s
  apply start_dispatching_ s = (start_dispatching s).1
  apply tick_remote s = ticked s s.remote_hb_monitor
  apply (tick_local returns) s = record s {
    local_hb_monitor = map_option (Monitor.tick returns) s.local_hb_monitor;
  }
  apply (initiate_ drain) s = initiate_close drain s
  apply (close_ drain) s = close drain s
  apply (set_handlers_ on_msg on_close) s = (set_handlers on_msg on_close s).1
  apply (queue_ e) s = record s { msg_queue = QueueSchedule.apply truthy e s.msg_queue }

  unfoldable pub run : List (Event M) → Session M → Session M
  run [] s = s
  run (e ∷ es) s = run es (apply e s)
