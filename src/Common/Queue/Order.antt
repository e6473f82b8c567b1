-- ===== src/Common/Queue/Order.antt =====
-- In which order messages leave the queue of common/message_queue.py.
use nasdaq_protocols.Prelude.{
  ℕ, Bool, true, false, inl, inr, Bool-cases, ◌≡◌, refl, sym, ◌∙◌, Option, none, some, List, [],
  ◌∷◌, ◌++◌, append_assoc, append-nil, ◌==◌, if◌then◌else◌, Result, ok, raised, All,
}
use nasdaq_protocols.Common.Queue.{
  Queue, empty, push, pop, or_wait, wake, deliver, begin_buffer, replace, start_dispatching, put,
  get_nowait, get, finish_read, dispatch, pause, resume, enter_drain, is_empty, leave_drain, stop,
}
use nasdaq_protocols.Common.Queue.Schedule.{
  kept, Event, put_, get_nowait_, get_, finish_read_, dispatch_, pause_, resume_, stop_, start_,
  enter_drain_, leave_drain_, apply, run, puts, keeps, pending, held,
}

module _ {M : Type 0} where
  -- What was taken and what is to be taken.
  abbrev pub all : Queue M → List M
  all q = q.taken ++ pending q

  abbrev pub added : Event M → List M
  added (put_ m) = m ∷ []
  added _ = []

  pop-all : (q : Queue M) (ms : List M) → q.msg_queue ≡ ms → all (pop q ms).1 ≡ all q
  pop-all q [] e = refl
  pop-all q (m ∷ ms) e = rw e (append_assoc q.taken (m ∷ []) (ms ++ held q.buffer_msg_queue))

  -- Whichever branch is taken.
  branch {ℓ} :
      {A : Type ℓ} (f : A → Queue M) (b : Bool) (x y : A) (ms : List M)
      → all (f x) ≡ ms
      → all (f y) ≡ ms
      → all (f (if b then x else y)) ≡ ms
  branch f true x y ms p q = p
  branch f false x y ms p q = q

  get_nowait-all : (q : Queue M) → all (get_nowait q).1 ≡ all q
  unfolding get_nowait
  get_nowait-all q =
      branch (λ (p : Result (Option M) × Queue M). p.1) q.dispatcher_task _ _ (all q) refl
        (pop-all q q.msg_queue refl)

  wake-all :
      (q : Queue M) (w : Option ℕ) (ms : List M) → q.msg_queue ≡ ms → all (wake q w ms).1 ≡ all q
  wake-all q none ms e = refl
  wake-all q (some w) [] e = refl
  wake-all q (some w) (m ∷ ms) e = elim (Bool-cases (w == q.queue_id)) [
    | inl t ↦ rw t (rw e (append_assoc q.taken (m ∷ []) (ms ++ held q.buffer_msg_queue)))
    | inr f ↦ rw f refl
  ]

  deliver-all : (q : Queue M) (ms : List M) → q.msg_queue ≡ ms → all (deliver q ms) ≡ all q
  deliver-all q [] e = refl
  deliver-all q (m ∷ ms) e = rw e (append_assoc q.taken (m ∷ []) (ms ++ held q.buffer_msg_queue))

  pub push-all :
      (m : M) (q : Queue M) (b : Option (List M))
      → q.buffer_msg_queue ≡ b
      → all (push m q b) ≡ all q ++ m ∷ []
  push-all m q none e =
      rw (e, append-nil (q.msg_queue ++ m ∷ []), append-nil q.msg_queue)
        (sym (append_assoc q.taken q.msg_queue (m ∷ [])))
  push-all m q (some b) e =
      rw (e, append_assoc q.taken (q.msg_queue ++ b) (m ∷ []), append_assoc q.msg_queue b (m ∷ []))
        refl

  begin_buffer-all :
      (q : Queue M) (b : Option (List M))
      → q.buffer_msg_queue ≡ b
      → all (kept q (begin_buffer q b)) ≡ all q
  begin_buffer-all q none e = rw e refl
  begin_buffer-all q (some b) e = refl

  replace-all :
      (q : Queue M) (b : Option (List M)) (ms : List M)
      → q.buffer_msg_queue ≡ b
      → q.msg_queue ≡ ms
      → all (if is_empty ms then replace q b else q) ≡ all q
  replace-all q none [] e f = refl
  replace-all q none (m ∷ ms) e f = refl
  replace-all q (some b) [] e f = rw (e, f, append-nil) refl
  replace-all q (some b) (m ∷ ms) e f = refl

module _ {M : Type 0} (truthy : M → Bool) where
  or_wait-all :
      ((m : M) → truthy m ≡ true)
      → (q q' : Queue M) (r : Result (Option M)) → all (or_wait truthy q (r, q')).1 ≡ all q'
  or_wait-all true_ q q' (raised e) = refl
  or_wait-all true_ q q' (ok none) = refl
  or_wait-all true_ q q' (ok (some m)) = rw (true_ m) refl

  pub keep_all :
      ((m : M) → truthy m ≡ true)
      → (e : Event M) (q : Queue M) → keeps e ≡ true
      → all (apply truthy e q) ≡ all q ++ added e
  unfolding apply put get finish_read dispatch pause resume start_dispatching enter_drain
      leave_drain stop
  keep_all true_ (put_ m) q h = push-all m q q.buffer_msg_queue refl
  keep_all true_ get_nowait_ q h = get_nowait-all q ∙ sym (append-nil (all q))
  keep_all true_ get_ q h =
      or_wait-all true_ q (get_nowait q).1 (get_nowait q).0
      ∙ get_nowait-all q
      ∙ sym (append-nil (all q))
  keep_all true_ finish_read_ q h =
      wake-all q q.recv_task q.msg_queue refl ∙ sym (append-nil (all q))
  keep_all true_ dispatch_ q h =
      branch (λ x. x) q.dispatcher_task _ _ (all q) (deliver-all q q.msg_queue refl) refl
      ∙ sym (append-nil (all q))
  keep_all true_ pause_ q h =
      branch (kept q) q.dispatcher_task _ _ (all q) refl refl ∙ sym (append-nil (all q))
  keep_all true_ resume_ q h = sym (append-nil (all q))
  keep_all true_ stop_ q h =
      branch (λ x. x) q.closed _ _ (all q) refl refl ∙ sym (append-nil (all q))
  keep_all true_ (start_ true) q h =
      branch (kept q) q.dispatcher_task _ _ (all q) refl refl ∙ sym (append-nil (all q))
  keep_all true_ (start_ false) q h =
      branch (kept q) q.dispatcher_task _ _ (all q) refl refl ∙ sym (append-nil (all q))
  keep_all true_ enter_drain_ q h =
      begin_buffer-all q q.buffer_msg_queue refl ∙ sym (append-nil (all q))
  keep_all true_ (leave_drain_ true) q h = cc
  keep_all true_ (leave_drain_ false) q h =
      replace-all q q.buffer_msg_queue q.msg_queue refl refl ∙ sym (append-nil (all q))

  abbrev KeepsAll : List (Event M) → Type 0
  KeepsAll es = All (λ (e : Event M). keeps e ≡ true) es

  puts-cons : (e : Event M) (es : List (Event M)) → puts (e ∷ es) ≡ added e ++ puts es
  unfolding puts
  puts-cons (put_ m) es = refl
  puts-cons _ es = refl

  run_from :
      ((m : M) → truthy m ≡ true)
      → (es : List (Event M)) (q : Queue M) → KeepsAll es
      → all (run truthy es q) ≡ all q ++ puts es
  unfolding run
  run_from true_ [] q h = unfold puts in sym (append-nil (all q))
  run_from true_ (e ∷ es) q h =
      run_from true_ es (apply truthy e q) h.1
      ∙ rw (keep_all true_ e q h.0, puts-cons e es) (append_assoc (all q) (added e) (puts es))

  -- First in, first out, and nothing lost: for every sequence of operations that discards nothing,
  -- where every message is true, what was handed out and what is still held is what was put, in the
  -- order of the puts. So it stays over pauses, buffering, a stop and a change of the queue object.
  pub run-IsFifo :
      ((m : M) → truthy m ≡ true)
      → (es : List (Event M)) → KeepsAll es
      → (run truthy es empty).taken ++ pending (run truthy es empty) ≡ puts es
  run-IsFifo true_ es h = run_from true_ es empty h
