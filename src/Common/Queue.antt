-- ===== src/Common/Queue.antt =====
-- `DispatchableMessageQueue` of src/nasdaq_protocols/common/message_queue.py.
-- What runs between two awaits is one function. A blocking read is two: `get` creates the task,
-- `finish_read` is the task's end.
pub mod Schedule
pub mod Order
pub mod Stop
pub mod Stale
use nasdaq_protocols.Prelude.{
  ℕ, ◌+◌, Bool, true, false, not, ◌&&◌, Option, none, some, List, [], ◌∷◌, ◌++◌, ◌==◌,
  if◌then◌else◌, Result, ok, raised, state_error, end_of_queue,
}

pub record Queue (M : Type 0) : Type 0 where
  pub closed : Bool
  pub on_msg_coro : Bool
  -- `_msg_queue`: which queue object it is, and what it holds
  pub queue_id : ℕ
  pub msg_queue : List M
  pub buffer_msg_queue : Option (List M)
  -- the queue object that a blocking read waits on
  pub recv_task : Option ℕ
  pub dispatcher_task : Bool
  -- what `get` and `get_nowait` returned or `on_msg_coro` was given, first message first
  pub taken : List M

module _ {M : Type 0} where
  -- `start_dispatching`; the flag tells whether a coro is given
  unfoldable pub start_dispatching : Bool → Queue M → Result (Queue M)
  start_dispatching on_msg q =
      if q.dispatcher_task
      then raised state_error
      else ok (if on_msg then record q { on_msg_coro = true; dispatcher_task = true } else q)

  abbrev pub empty : Queue M
  empty = record {
    closed = false;
    on_msg_coro = false;
    queue_id = 0;
    msg_queue = [];
    buffer_msg_queue = none;
    recv_task = none;
    dispatcher_task = false;
    taken = [];
  }

  abbrev pub new : Bool → Result (Queue M)
  unfolding start_dispatching
  new on_msg = start_dispatching on_msg empty

  abbrev pub push : M → Queue M → Option (List M) → Queue M
  push m q none = record q { msg_queue = q.msg_queue ++ m ∷ [] }
  push m q (some buffered) = record q { buffer_msg_queue = some (buffered ++ m ∷ []) }

  -- `put` and `put_nowait`
  unfoldable pub put : M → Queue M → Queue M
  put m q = push m q q.buffer_msg_queue

  abbrev pub pop : Queue M → List M → Result (Option M) × Queue M
  pop q [] = (if q.closed then raised end_of_queue else ok none, q)
  pop q (m ∷ ms) = (ok (some m), record q { msg_queue = ms; taken = q.taken ++ m ∷ [] })

  unfoldable pub get_nowait : Queue M → Result (Option M) × Queue M
  get_nowait q = if q.dispatcher_task then (raised state_error, q) else pop q q.msg_queue

  -- `_blocking_read` up to its await
  abbrev pub blocking_read : Queue M → Queue M
  blocking_read q = record q { recv_task = some q.queue_id }

  -- The end of `_blocking_read`: only the object it waits on can wake it.
  abbrev pub wake : Queue M → Option ℕ → List M → Option M × Queue M
  wake q (some waiting) (m ∷ ms) =
      if waiting == q.queue_id
      then (some m, record q { msg_queue = ms; recv_task = none; taken = q.taken ++ m ∷ [] })
      else (none, q)
  wake q _ _ = (none, q)

  unfoldable pub finish_read : Queue M → Option M × Queue M
  finish_read q = wake q q.recv_task q.msg_queue

  -- One round of `_start_dispatching`, whether `on_msg_coro` returns or raises.
  abbrev pub deliver : Queue M → List M → Queue M
  deliver q [] = q
  deliver q (m ∷ ms) = record q { msg_queue = ms; taken = q.taken ++ m ∷ [] }

  unfoldable pub dispatch : Queue M → Queue M
  dispatch q = if q.dispatcher_task then deliver q q.msg_queue else q

  -- The two ends of `pause_dispatching`.
  unfoldable pub pause : Queue M → Result (Queue M)
  pause q =
      if q.dispatcher_task then ok (record q { dispatcher_task = false }) else raised state_error

  unfoldable pub resume : Queue M → Queue M
  resume q = record q { dispatcher_task = true }

  -- `buffer_until_drained`: up to the loop, the loop's test, the `finally` block. A dispatcher is
  -- paused there and resumed, so it goes on with the new object; a blocking read does not.
  abbrev pub begin_buffer : Queue M → Option (List M) → Result (Queue M)
  begin_buffer q none = ok (record q { buffer_msg_queue = some [] })
  begin_buffer q (some buffered) = raised state_error

  unfoldable pub enter_drain : Queue M → Result (Queue M)
  enter_drain q = begin_buffer q q.buffer_msg_queue

  abbrev pub is_empty : List M → Bool
  is_empty [] = true
  is_empty (m ∷ ms) = false

  abbrev pub replace : Queue M → Option (List M) → Queue M
  replace q none = q
  replace q (some buffered) = record q {
    queue_id = q.queue_id + 1;
    msg_queue = buffered;
    buffer_msg_queue = none;
  }

  unfoldable pub leave_drain : Bool → Queue M → Queue M
  leave_drain discard q =
      if discard then record q { buffer_msg_queue = none } else replace q q.buffer_msg_queue

  unfoldable pub stop : Queue M → Queue M
  stop q =
      if q.closed then q else record q { closed = true; dispatcher_task = false; recv_task = none }

-- `get`: what is returned at once, or none where it waits. `truthy` is Python's truth of a message.
module _ {M : Type 0} (truthy : M → Bool) where
  -- The result of `get_nowait` on `q` as `get` goes on with it: a message that is false is gone.
  abbrev pub or_wait : Queue M → Result (Option M) × Queue M → Result (Option M) × Queue M
  or_wait q (raised e, q') = (raised e, q')
  or_wait q (ok none, q') = (ok none, blocking_read q')
  or_wait q (ok (some m), q') =
      if truthy m
      then (ok (some m), q')
      else (ok none, blocking_read (record q' { taken = q.taken }))

  unfoldable pub get : Queue M → Result (Option M) × Queue M
  get q = or_wait q (get_nowait q)
