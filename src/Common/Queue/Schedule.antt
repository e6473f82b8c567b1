-- ===== src/Common/Queue/Schedule.antt =====
-- Sequences of the operations of the queue in common/message_queue.py, in any order the event loop
-- and the callers give. An operation that raises leaves the queue as it was.
use nasdaq_protocols.Prelude.{
  Bool, true, false, Option, none, some, List, [], ◌∷◌, ◌++◌, if◌then◌else◌, Result, ok, raised,
}
use nasdaq_protocols.Common.Queue.{
  Queue, start_dispatching, put, get_nowait, get, finish_read, dispatch, pause, resume, enter_drain,
  is_empty, leave_drain, stop,
}

pub data Event (M : Type 0) : Type 0 where
  put_ : M → Event M
  get_nowait_ get_ finish_read_ dispatch_ pause_ resume_ stop_ : Event M
  start_ : Bool → Event M
  enter_drain_ : Event M
  -- the end of the `with` block, after the loop that waits for an empty queue
  leave_drain_ : Bool → Event M

abbrev pub kept {ℓ} : {A : Type ℓ} → A → Result A → A
kept q (ok q') = q'
kept q (raised e) = q

module _ {M : Type 0} (truthy : M → Bool) where
  unfoldable pub apply : Event M → Queue M → Queue M
  unfolding put get_nowait get finish_read dispatch pause resume start_dispatching enter_drain
      leave_drain stop
  apply (put_ m) q = put m q
  apply get_nowait_ q = (get_nowait q).1
  apply get_ q = (get truthy q).1
  apply finish_read_ q = (finish_read q).1
  apply dispatch_ q = dispatch q
  apply pause_ q = kept q (pause q)
  apply resume_ q = resume q
  apply stop_ q = stop q
  apply (start_ on_msg) q = kept q (start_dispatching on_msg q)
  apply enter_drain_ q = kept q (enter_drain q)
  apply (leave_drain_ discard) q = if is_empty q.msg_queue then leave_drain discard q else q

  unfoldable pub run : List (Event M) → Queue M → Queue M
  run [] q = q
  run (e ∷ es) q = run es (apply e q)

-- What was put, first message first, and whether something was discarded.
module _ {M : Type 0} where
  unfoldable pub puts : List (Event M) → List M
  puts [] = []
  puts (put_ m ∷ es) = m ∷ puts es
  puts (_ ∷ es) = puts es

  abbrev pub keeps : Event M → Bool
  keeps (leave_drain_ discard) = if discard then false else true
  keeps _ = true

abbrev pub held {ℓ} : {A : Type ℓ} → Option (List A) → List A
held none = []
held (some ms) = ms

-- What is still to be taken.
abbrev pub pending : {M : Type 0} → Queue M → List M
pending q = q.msg_queue ++ held q.buffer_msg_queue
