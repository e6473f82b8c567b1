-- ===== src/Common/Queue/Stale.antt =====
-- A blocking read over a change of the queue object: `_blocking_read` and `buffer_until_drained` of
-- common/message_queue.py.
use nasdaq_protocols.Prelude.{
  ℕ, ◌<◌, ◌≤◌, Bool, true, false, ◌≡◌, refl, ap, ◌∙◌, arith, Option, none, some, List, [], ◌∷◌,
  ◌==◌, if◌then◌else◌, Result, All,
}
use nasdaq_protocols.Common.Queue.{
  Queue, push, pop, wake, deliver, begin_buffer, replace, start_dispatching, put, get_nowait,
  finish_read, dispatch, pause, resume, enter_drain, is_empty, leave_drain,
}
use nasdaq_protocols.Common.Queue.Schedule.{
  kept, Event, put_, get_nowait_, get_, finish_read_, dispatch_, pause_, resume_, stop_, start_,
  enter_drain_, leave_drain_, apply, run,
}

module _ {M : Type 0} (truthy : M → Bool) where
  -- A blocking read that waits on a former queue object.
  abbrev IsStale : Queue M → Type 0
  IsStale q = (w : ℕ) × (q.recv_task ≡ some w) × (w < q.queue_id)

  -- The read goes on: no other read is begun, and the queue is not stopped.
  abbrev pub goes_on : Event M → Bool
  goes_on get_ = false
  goes_on stop_ = false
  goes_on _ = true

  wake_stale : (q : Queue M) (w : ℕ) (ms : List M) → w < q.queue_id → wake q (some w) ms ≡ (none, q)
  wake_stale q w [] h = refl
  wake_stale q w (m ∷ ms) h = let f : (w == q.queue_id) ≡ false = ground arith in simp f

  finish_stale : (q : Queue M) → IsStale q → finish_read q ≡ (none, q)
  unfolding finish_read
  finish_stale q (w, e, h) = (simp e) ∙ wake_stale q w q.msg_queue h

  branch {ℓ} :
      {A : Type ℓ} (f : A → Queue M) (b : Bool) (x y : A)
      → IsStale (f x)
      → IsStale (f y)
      → IsStale (f (if b then x else y))
  branch f true x y p q = p
  branch f false x y p q = q

  push-IsStale : (m : M) (q : Queue M) (b : Option (List M)) → IsStale q → IsStale (push m q b)
  push-IsStale m q none s = s
  push-IsStale m q (some b) s = s

  pop-IsStale : (q : Queue M) (ms : List M) → IsStale q → IsStale (pop q ms).1
  pop-IsStale q [] s = s
  pop-IsStale q (m ∷ ms) s = s

  wakes-IsStale :
      (q : Queue M) (r : Option ℕ) (ms : List M)
      → q.recv_task ≡ r
      → IsStale q
      → IsStale (wake q r ms).1
  wakes-IsStale q none ms e s = s
  wakes-IsStale q (some w) [] e s = s
  wakes-IsStale q (some w) (m ∷ ms) e (w', e', h) =
      let f : (w == q.queue_id) ≡ false = ground arith in
      let stale : IsStale q = (w', e', h) in rw f stale

  deliver-IsStale : (q : Queue M) (ms : List M) → IsStale q → IsStale (deliver q ms)
  deliver-IsStale q [] s = s
  deliver-IsStale q (m ∷ ms) s = s

  begin_buffer-IsStale :
      (q : Queue M) (b : Option (List M)) → IsStale q → IsStale (kept q (begin_buffer q b))
  begin_buffer-IsStale q none s = s
  begin_buffer-IsStale q (some b) s = s

  replace-IsStale : (q : Queue M) (b : Option (List M)) → IsStale q → IsStale (replace q b)
  replace-IsStale q none s = s
  replace-IsStale q (some b) (w, e, h) = (w, e, omega arith)

  stays-IsStale :
      (e : Event M) (q : Queue M) → goes_on e ≡ true → IsStale q → IsStale (apply truthy e q)
  unfolding apply put get_nowait finish_read dispatch pause resume start_dispatching enter_drain
      leave_drain
  stays-IsStale (put_ m) q h s = push-IsStale m q q.buffer_msg_queue s
  stays-IsStale get_nowait_ q h s =
      branch (λ (p : Result (Option M) × Queue M). p.1) q.dispatcher_task _ _ s
        (pop-IsStale q q.msg_queue s)
  stays-IsStale get_ q h s = cc
  stays-IsStale finish_read_ q h s = wakes-IsStale q q.recv_task q.msg_queue refl s
  stays-IsStale dispatch_ q h s =
      branch (λ x. x) q.dispatcher_task _ _ (deliver-IsStale q q.msg_queue s) s
  stays-IsStale pause_ q h s = branch (kept q) q.dispatcher_task _ _ s s
  stays-IsStale resume_ q h s = s
  stays-IsStale stop_ q h s = cc
  stays-IsStale (start_ true) q h s = branch (kept q) q.dispatcher_task _ _ s s
  stays-IsStale (start_ false) q h s = branch (kept q) q.dispatcher_task _ _ s s
  stays-IsStale enter_drain_ q h s = begin_buffer-IsStale q q.buffer_msg_queue s
  stays-IsStale (leave_drain_ true) q h s = branch (λ x. x) (is_empty q.msg_queue) _ _ s s
  stays-IsStale (leave_drain_ false) q h s =
      branch (λ x. x) (is_empty q.msg_queue) _ _ (replace-IsStale q q.buffer_msg_queue s) s

  run-IsStale :
      (es : List (Event M)) (q : Queue M)
      → All (λ (e : Event M). goes_on e ≡ true) es
      → IsStale q
      → IsStale (run truthy es q)
  unfolding run
  run-IsStale [] q h s = s
  run-IsStale (e ∷ es) q h s = run-IsStale es (apply truthy e q) h.1 (stays-IsStale e q h.0 s)

  -- A blocking read that waits when `buffer_until_drained` ends, not discarding, waits on the queue
  -- object that is dropped there: whatever is put and read from then on, it never returns a message,
  -- until the queue is stopped or another blocking read takes its place.
  pub leave_drain_stale :
      (q : Queue M) (w : ℕ) (buffered : List M) (es : List (Event M))
      → q.recv_task ≡ some w
      → w ≤ q.queue_id
      → q.buffer_msg_queue ≡ some buffered
      → All (λ (e : Event M). goes_on e ≡ true) es
      → (finish_read (run truthy es (leave_drain false q))).0 ≡ none
  leave_drain_stale q w buffered es r le b h =
      let stale : IsStale (leave_drain false q) =
        (w, (unfold leave_drain in simp (b, r)), (unfold leave_drain in rw b (omega arith))) in
      ap (λ (p : Option M × Queue M). p.0)
        (finish_stale _ (run-IsStale es (leave_drain false q) h stale))
