-- ===== src/Common/Session.antt =====
-- `AsyncSession` of src/nasdaq_protocols/common/session.py, over its reader, its monitors and its
-- message queue. `close` is cut at its drains, at the stop of the queue, at that of the
-- reader and at `on_close_coro`; its start, with the stop of the monitors, is one step. `phase` is how
-- far the one running call has got.
pub mod Schedule
pub mod Stages
pub mod Closing
pub mod Failure
pub mod Passing
pub mod Handing
pub mod Delivery
use nasdaq_protocols.Prelude.{
  ℕ, ◌+◌, Bool, true, false, not, ◌&&◌, ◌||◌, Option, none, some, List, [], ◌∷◌, ◌++◌,
  if◌then◌else◌, Result, ok, raised, state_error, length, drop, ltb,
}
use nasdaq_protocols.Python.Bytes.{Bytes}
use nasdaq_protocols.Common.Buffer.{Framing}
use nasdaq_protocols.Common.Reader
use nasdaq_protocols.Common.Reader.{Reader}
use nasdaq_protocols.Common.Monitor
use nasdaq_protocols.Common.Monitor.{Monitor}
use nasdaq_protocols.Common.Queue
use nasdaq_protocols.Common.Queue.{Queue, is_empty}

-- How far `close` has got: not called, waiting for the reader or the queue to drain, stopping the
-- queue, stopping the reader, in the coro `on_close_coro`, at its end, or left by an exception.
pub data Phase : Type 0 where
  not_called draining_reader draining_queue stopping_queue stopping_reader in_on_close done failed :
      Phase

pub record Session (M : Type 0) : Type 0 where
  -- whether the coros are given
  pub on_msg_coro : Bool
  pub on_close_coro : Bool
  pub dispatch_on_connect : Bool
  pub graceful_shutdown : Bool
  pub reader : Option (Reader M)
  -- the transport, and whether it is still open
  pub transport : Option Bool
  pub closed : Bool
  -- the argument `drain` of the task that `initiate_close` creates
  pub closing_task : Option Bool
  pub local_hb_monitor : Option Monitor
  pub remote_hb_monitor : Option Monitor
  pub msg_queue : Queue M
  pub phase : Phase
  -- calls of `on_close_coro`
  pub close_calls : ℕ

abbrev pub is_some {ℓ} : {A : Type ℓ} → Option A → Bool
is_some none = false
is_some (some a) = true

abbrev pub map_option {ℓ} : {A : Type ℓ} → (A → A) → Option A → Option A
map_option f none = none
map_option f (some a) = some (f a)

module _ {M : Type 0} where
  abbrev pub new_session : Bool → Bool → Bool → Bool → Session M
  new_session on_msg on_close dispatch graceful = record {
    on_msg_coro = on_msg;
    on_close_coro = on_close;
    dispatch_on_connect = dispatch;
    graceful_shutdown = graceful;
    reader = none;
    transport = none;
    closed = false;
    closing_task = none;
    local_hb_monitor = none;
    remote_hb_monitor = none;
    msg_queue = Queue.empty;
    phase = not_called;
    close_calls = 0;
  }

  unfoldable pub is_active : Session M → Bool
  is_active s = not (s.closed || is_some s.closing_task)

  -- The task of `initiate_close`; it runs later, as `run_closing`.
  unfoldable pub initiate_close : Bool → Session M → Session M
  initiate_close drain s =
      if s.closed || is_some s.closing_task then s else record s { closing_task = some drain }

  -- `close` up to the drain: flag, transport, monitors
  abbrev pub shut : Session M → Session M
  shut s = record s {
    closed = true;
    transport = map_option (λ _. false) s.transport;
    local_hb_monitor = map_option Monitor.stop s.local_hb_monitor;
    remote_hb_monitor = map_option Monitor.stop s.remote_hb_monitor;
  }

  -- `close` from the drain on: `stop_task` of the queue, and in later turns that of the reader, whose
  -- `stop` calls `close` again, which is no change then, and `on_close_coro`.
  unfoldable pub finish_close : Session M → Session M
  unfolding Queue.stop
  finish_close s = record s { msg_queue = Queue.stop s.msg_queue; phase = stopping_queue }

  unfoldable pub stop_reader : Session M → Session M
  unfolding Reader.stop
  stop_reader s = record s { reader = map_option Reader.stop s.reader; phase = stopping_reader }

  unfoldable pub call_on_close : Session M → Session M
  call_on_close s = record s {
    close_calls = if s.on_close_coro then s.close_calls + 1 else s.close_calls;
    phase = if s.on_close_coro then in_on_close else done;
  }

  -- `buffer_until_drained` of the reader is entered; with no reader that is an AttributeError.
  abbrev pub entered_reader : Session M → Result (Reader M) → Session M
  entered_reader s (ok r) = record s { reader = some r; phase = draining_reader }
  entered_reader s (raised e) = record s { phase = failed }

  abbrev pub begin_drain : Session M → Option (Reader M) → Session M
  begin_drain s none = record s { phase = failed }
  begin_drain s (some r) = entered_reader s (Reader.enter_drain r)

  abbrev pub begin_close : Bool → Session M → Session M
  begin_close drain s = if drain then begin_drain s s.reader else finish_close s

  unfoldable pub close : Bool → Session M → Session M
  unfolding finish_close Reader.enter_drain
  close drain s = if s.closed then s else begin_close drain (shut s)

  -- The event of the reader is set: the queue's `buffer_until_drained` is entered.
  abbrev pub entered_queue : Session M → Reader M → Result (Queue M) → Session M
  entered_queue s r (ok q) = record s { msg_queue = q; phase = draining_queue }
  entered_queue s r (raised e) = record s {
    reader = some (Reader.leave_drain true r);
    phase = failed;
  }

  abbrev pub at_event : Session M → Reader M → Option Bool → Session M
  at_event s r (some true) = entered_queue s r (Queue.enter_drain s.msg_queue)
  at_event s r _ = s

  abbrev pub reader_drained : Session M → Option (Reader M) → Session M
  reader_drained s none = s
  reader_drained s (some r) = at_event s r r.drain_mode

  -- The queue is empty: both blocks end, discarding, and `close` goes on.
  abbrev pub queue_drained : Session M → Session M
  queue_drained s =
      if is_empty s.msg_queue.msg_queue
      then finish_close (record s {
        msg_queue = Queue.leave_drain true s.msg_queue;
        reader = map_option (Reader.leave_drain true) s.reader;
      })
      else s

  abbrev pub close_step_at : Phase → Session M → Session M
  close_step_at draining_reader s = reader_drained s s.reader
  close_step_at draining_queue s = queue_drained s
  close_step_at _ s = s

  abbrev pub finish_step_at : Phase → Session M → Session M
  finish_step_at stopping_queue s = stop_reader s
  finish_step_at stopping_reader s = call_on_close s
  finish_step_at in_on_close s = record s { phase = done }
  finish_step_at _ s = s

  -- A turn of a `close` that is past the drain.
  unfoldable pub finish_step : Session M → Session M
  unfolding stop_reader call_on_close
  finish_step s = finish_step_at s.phase s

  -- A turn of a `close` that waits for a drain.
  unfoldable pub close_step : Session M → Session M
  unfolding finish_close Reader.leave_drain Queue.enter_drain Queue.leave_drain
  close_step s = close_step_at s.phase s

  abbrev pub closing : Session M → Option Bool → Session M
  closing s none = s
  closing s (some drain) = close drain s

  unfoldable pub run_closing : Session M → Session M
  unfolding close
  run_closing s = closing s s.closing_task

  unfoldable pub start_heartbeats : Session M → Session M
  unfolding Monitor.start_monitor
  start_heartbeats s = record s {
    local_hb_monitor = some (Monitor.start_monitor false 1);
    remote_hb_monitor = some (Monitor.start_monitor true 1);
  }

  abbrev pub set_on_msg : Bool → Session M → Result (Session M)
  set_on_msg on_msg s =
      if on_msg
      then (if s.msg_queue.dispatcher_task
          then raised state_error
          else ok (record s { on_msg_coro = true }))
      else ok s

  -- The close handler is set before the test that raises: the session that is left is given too.
  abbrev pub set_on_close : Bool → Session M → Result (Unit {0}) × Session M
  set_on_close on_close s =
      if on_close
      then (
        if is_some s.closing_task || s.closed then raised state_error else ok tt,
        record s { on_close_coro = true },
      )
      else (ok tt, s)

  abbrev pub set_next : Bool → Session M → Result (Session M) → Result (Unit {0}) × Session M
  set_next on_close s (ok s') = set_on_close on_close s'
  set_next on_close s (raised e) = (raised e, s)

  unfoldable pub set_handlers : Bool → Bool → Session M → Result (Unit {0}) × Session M
  set_handlers on_msg on_close s = set_next on_close s (set_on_msg on_msg s)

  abbrev pub dispatching : Session M → Result (Queue M) → Result (Unit {0}) × Session M
  dispatching s (ok q) = (ok tt, record s { msg_queue = q })
  dispatching s (raised e) = (raised e, s)

  unfoldable pub start_dispatching : Session M → Result (Unit {0}) × Session M
  unfolding Queue.start_dispatching
  start_dispatching s =
      if s.on_msg_coro then dispatching s (Queue.start_dispatching true s.msg_queue) else (ok tt, s)

  unfoldable pub connection_made : Session M → Result (Unit {0}) × Session M
  unfolding start_dispatching
  connection_made s =
      let s' = record s { transport = some true; reader = some Reader.start } in
      if s.dispatch_on_connect then start_dispatching s' else (ok tt, s')

  unfoldable pub data_received : Bytes → Session M → Session M
  unfolding Monitor.ping Reader.on_data
  data_received data' s = record s {
    remote_hb_monitor = map_option Monitor.ping s.remote_hb_monitor;
    reader = map_option (Reader.on_data data') s.reader;
  }

  unfoldable pub connection_lost : Session M → Session M
  unfolding initiate_close
  connection_lost s = initiate_close s.graceful_shutdown s

  unfoldable pub on_message : M → Session M → Session M
  unfolding Queue.put
  on_message m s = record s { msg_queue = Queue.put m s.msg_queue }

  abbrev pub with_queue {ℓ} : {A : Type ℓ} → Session M → A × Queue M → A × Session M
  with_queue s (r, q) = (r, record s { msg_queue = q })

  -- `receive_msg` gives none where it waits; `truthy` is Python's truth of a message.
  unfoldable pub receive_msg : (M → Bool) → Session M → Result (Option M) × Session M
  unfolding Queue.get
  receive_msg truthy s = with_queue s (Queue.get truthy s.msg_queue)

  unfoldable pub receive_msg_nowait : Session M → Result (Option M) × Session M
  unfolding Queue.get_nowait
  receive_msg_nowait s = with_queue s (Queue.get_nowait s.msg_queue)
