-- ===== src/Common/Queue/Stop.antt =====
-- Stopping the queue of common/message_queue.py.
use nasdaq_protocols.Prelude.{
  ℕ, zero, suc, Bool, true, false, inl, inr, Bool-cases, ◌≡◌, refl, ◌∙◌, Option, none, some, List,
  [], ◌∷◌, ◌++◌, ◌==◌, if◌then◌else◌, Result, ok, raised, end_of_queue, length,
}
use nasdaq_protocols.Common.Queue.{
  Queue, push, pop, or_wait, wake, deliver, begin_buffer, replace, put, get_nowait, is_empty, stop,
}
use nasdaq_protocols.Common.Queue.Schedule.{
  kept, Event, put_, get_nowait_, get_, finish_read_, dispatch_, pause_, resume_, stop_, start_,
  enter_drain_, leave_drain_, apply,
}

module _ {M : Type 0} where
  -- A second stop changes nothing.
  pub stop-stop : (q : Queue M) → stop (stop q) ≡ stop q
  unfolding stop
  stop-stop q = elim (Bool-cases q.closed) [ inl e ↦ simp e | inr e ↦ simp e ]

  push_closed : (m : M) (q : Queue M) (b : Option (List M)) → (push m q b).closed ≡ q.closed
  push_closed m q none = refl
  push_closed m q (some b) = refl

  pub put_closed : (m : M) (q : Queue M) → (put m q).closed ≡ q.closed
  unfolding put
  put_closed m q = push_closed m q q.buffer_msg_queue

  -- What `get_nowait` gives in so many calls.
  unfoldable pub reads : ℕ → Queue M → List (Result (Option M)) × Queue M
  reads zero q = ([], q)
  reads (suc n) q = let (r, q') = get_nowait q in let (rs, q'') = reads n q' in (r ∷ rs, q'')

  abbrev pub returned : List M → List (Result (Option M))
  returned [] = []
  returned (m ∷ ms) = ok (some m) ∷ returned ms

  abbrev Drains : List M → Queue M → Type 0
  Drains ms q =
      (q' : Queue M) × (reads (length ms) q ≡ (returned ms, q'))
      × (get_nowait q' ≡ (raised end_of_queue, q'))

  get_nowait_step : (q : Queue M) → q.dispatcher_task ≡ false → get_nowait q ≡ pop q q.msg_queue
  unfolding get_nowait
  get_nowait_step q d = simp d

  pop_end :
      (q : Queue M)
      → q.closed ≡ true
      → q.msg_queue ≡ []
      → pop q q.msg_queue ≡ (raised end_of_queue, q)
  pop_end q c e = simp (e, c)

  pop_next :
      (q : Queue M) (m : M) (ms : List M)
      → q.msg_queue ≡ m ∷ ms
      → pop q q.msg_queue ≡ pop q (m ∷ ms)
  pop_next q m ms e = simp e

  closed-Drains :
      (ms : List M) (q : Queue M)
      → q.closed ≡ true
      → q.dispatcher_task ≡ false
      → q.msg_queue ≡ ms
      → Drains ms q
  unfolding reads
  closed-Drains [] q c d e = (q, refl, get_nowait_step q d ∙ pop_end q c e)
  closed-Drains (m ∷ ms) q c d e =
      let q' = record q { msg_queue = ms; taken = q.taken ++ m ∷ [] } in
      let (r, p, s) = closed-Drains ms q' c d refl in
      (r, (let e' = get_nowait_step q d ∙ pop_next q m ms e in simp (e', p)), s)

  stop_open :
      (q : Queue M)
      → q.closed ≡ false
      → stop q ≡ record q { closed = true; dispatcher_task = false; recv_task = none }
  unfolding stop
  stop_open q h = simp h

  -- A queue that is stopped, and was not stopped before, still gives what it holds, in order, and
  -- then raises EndOfQueue.
  pub stop-Drains : (q : Queue M) → q.closed ≡ false → Drains q.msg_queue (stop q)
  stop-Drains q h = simp (stop_open q h) (
      closed-Drains q.msg_queue
        (record q { closed = true; dispatcher_task = false; recv_task = none }) refl refl refl)

module _ {M : Type 0} (truthy : M → Bool) where
  closed_branch {ℓ} :
      {A : Type ℓ} (f : A → Queue M) (b : Bool) (x y : A)
      → (f x).closed ≡ true
      → (f y).closed ≡ true
      → (f (if b then x else y)).closed ≡ true
  closed_branch f true x y p q = p
  closed_branch f false x y p q = q

  pop_closed : (q : Queue M) (ms : List M) → (pop q ms).1.closed ≡ q.closed
  pop_closed q [] = refl
  pop_closed q (m ∷ ms) = refl

  get_nowait_closed : (q : Queue M) → q.closed ≡ true → (get_nowait q).1.closed ≡ true
  unfolding get_nowait
  get_nowait_closed q h =
      closed_branch (λ (p : Result (Option M) × Queue M). p.1) q.dispatcher_task _ _ h
        (pop_closed q q.msg_queue ∙ h)

  or_wait_closed :
      (q q' : Queue M) (r : Result (Option M))
      → q'.closed ≡ true
      → (or_wait truthy q (r, q')).1.closed ≡ true
  or_wait_closed q q' (raised e) h = h
  or_wait_closed q q' (ok none) h = h
  or_wait_closed q q' (ok (some m)) h =
      closed_branch (λ (p : Result (Option M) × Queue M). p.1) (truthy m) _ _ h h

  wake_closed :
      (q : Queue M) (w : Option ℕ) (ms : List M) → q.closed ≡ true → (wake q w ms).1.closed ≡ true
  wake_closed q none ms h = h
  wake_closed q (some w) [] h = h
  wake_closed q (some w) (m ∷ ms) h =
      closed_branch (λ (p : Option M × Queue M). p.1) (w == q.queue_id) _ _ h h

  deliver_closed : (q : Queue M) (ms : List M) → q.closed ≡ true → (deliver q ms).closed ≡ true
  deliver_closed q [] h = h
  deliver_closed q (m ∷ ms) h = h

  begin_buffer_closed :
      (q : Queue M) (b : Option (List M))
      → q.closed ≡ true
      → (kept q (begin_buffer q b)).closed ≡ true
  begin_buffer_closed q none h = h
  begin_buffer_closed q (some b) h = h

  replace_closed :
      (q : Queue M) (b : Option (List M)) → q.closed ≡ true → (replace q b).closed ≡ true
  replace_closed q none h = h
  replace_closed q (some b) h = h

  -- A stopped queue stays stopped, whatever is done with it.
  pub apply_closed :
      (e : Event M) (q : Queue M) → q.closed ≡ true → (apply truthy e q).closed ≡ true
  unfolding apply
  apply_closed (put_ m) q h = put_closed m q ∙ h
  apply_closed get_nowait_ q h = get_nowait_closed q h
  apply_closed get_ q h = or_wait_closed q (get_nowait q).1 (get_nowait q).0 (get_nowait_closed q h)
  apply_closed finish_read_ q h = wake_closed q q.recv_task q.msg_queue h
  apply_closed dispatch_ q h =
      closed_branch (λ x. x) q.dispatcher_task _ _ (deliver_closed q q.msg_queue h) h
  apply_closed pause_ q h = closed_branch (kept q) q.dispatcher_task _ _ h h
  apply_closed resume_ q h = h
  apply_closed stop_ q h = closed_branch (λ x. x) q.closed _ _ h refl
  apply_closed (start_ true) q h = closed_branch (kept q) q.dispatcher_task _ _ h h
  apply_closed (start_ false) q h = closed_branch (kept q) q.dispatcher_task _ _ h h
  apply_closed enter_drain_ q h = begin_buffer_closed q q.buffer_msg_queue h
  apply_closed (leave_drain_ true) q h = closed_branch (λ x. x) (is_empty q.msg_queue) _ _ h h
  apply_closed (leave_drain_ false) q h =
      closed_branch (λ x. x) (is_empty q.msg_queue) _ _ (replace_closed q q.buffer_msg_queue h) h
