-- ===== src/Common/Session/Failure.antt =====
-- A draining `close` of common/session.py that comes while the session is draining already.
use nasdaq_protocols.Prelude.{
  ℕ, ◌≡◌, ap, ◌∙◌, arith, Bool, true, false, ◌||◌, Option, none, some, List, [], ◌∷◌, Result,
  raised, state_error,
}
use nasdaq_protocols.Common.Buffer.{Framing}
use nasdaq_protocols.Common.Reader
use nasdaq_protocols.Common.Reader.{Reader}
use nasdaq_protocols.Common.Monitor
use nasdaq_protocols.Common.Monitor.{Monitor}
use nasdaq_protocols.Common.Queue.{Queue}
use nasdaq_protocols.Common.Session.{
  Session, Phase, not_called, draining_reader, draining_queue, stopping_queue, stopping_reader,
  in_on_close, done, failed, is_some, initiate_close, shut, begin_drain, entered_reader, close,
  close_step_at, finish_step_at, closing, set_handlers, set_on_close, set_next, start_dispatching,
  dispatching, on_message,
}
use nasdaq_protocols.Common.Session.Schedule.{
  Event, data_, poll, lost, run_closing_, close_step_, finish_step_, start_heartbeats_,
  start_dispatching_, tick_remote, tick_local, initiate_, close_, set_handlers_, queue_, deliver,
  close_if, ticked, polled, apply, run,
}
use nasdaq_protocols.Common.Session.Stages.{branch}

module _ {M : Type 0} where
  -- Closed, and `close` has ended by an exception, after so many calls of `on_close_coro`.
  abbrev pub IsFailed : ℕ → Session M → Type 0
  IsFailed n s = (s.closed ≡ true) × (s.phase ≡ failed) × (s.close_calls ≡ n)

  close-IsFailed :
      (n : ℕ) (drain : Bool) (s : Session M) → IsFailed n s → IsFailed n (close drain s)
  unfolding close
  close-IsFailed n drain s h = branch (IsFailed n) s.closed _ _ (λ _. h) (λ e. absurd (no h.0 e))
    where
      no : {b : Bool} → b ≡ true → b ≡ false → ⊥
      no p q = cc

  close_if-IsFailed : (n : ℕ) (b : Bool) (s : Session M) → IsFailed n s → IsFailed n (close_if b s)
  close_if-IsFailed n b s h = branch (IsFailed n) b _ _ (λ _. close-IsFailed n false s h) (λ _. h)

  step_failed :
      (n : ℕ) (p : Phase) (s : Session M)
      → p ≡ failed
      → IsFailed n s
      → IsFailed n (close_step_at p s)
  step_failed n failed s e h = h
  step_failed n not_called s e h = h
  step_failed n done s e h = h
  step_failed n draining_reader s e h = cc
  step_failed n draining_queue s e h = cc
  step_failed n stopping_queue s e h = cc
  step_failed n stopping_reader s e h = cc
  step_failed n in_on_close s e h = cc

  finish_failed :
      (n : ℕ) (p : Phase) (s : Session M)
      → p ≡ failed
      → IsFailed n s
      → IsFailed n (finish_step_at p s)
  finish_failed n failed s e h = h
  finish_failed n not_called s e h = h
  finish_failed n done s e h = h
  finish_failed n draining_reader s e h = h
  finish_failed n draining_queue s e h = h
  finish_failed n stopping_queue s e h = cc
  finish_failed n stopping_reader s e h = cc
  finish_failed n in_on_close s e h = cc

  closing-IsFailed :
      (n : ℕ) (s : Session M) (o : Option Bool) → IsFailed n s → IsFailed n (closing s o)
  closing-IsFailed n s none h = h
  closing-IsFailed n s (some drain) h = close-IsFailed n drain s h

  deliver-IsFailed :
      (n : ℕ) (ms : List M) (s : Session M) → IsFailed n s → IsFailed n (deliver ms s)
  unfolding deliver on_message
  deliver-IsFailed n [] s h = h
  deliver-IsFailed n (m ∷ ms) s h = deliver-IsFailed n ms (on_message m s) h

  ticked-IsFailed :
      (n : ℕ) (s : Session M) (o : Option Monitor) → IsFailed n s → IsFailed n (ticked s o)
  ticked-IsFailed n s none h = h
  ticked-IsFailed n s (some m) h =
      close_if-IsFailed n _ (record s { remote_hb_monitor = some (Monitor.tick true m) }) h

  initiate-IsFailed :
      (n : ℕ) (drain : Bool) (s : Session M) → IsFailed n s → IsFailed n (initiate_close drain s)
  unfolding initiate_close
  initiate-IsFailed n drain s h =
      branch (IsFailed n) (s.closed || is_some s.closing_task) _ _ (λ _. h) (λ _. h)

  set_on_close-IsFailed :
      (n : ℕ) (on_close : Bool) (s : Session M)
      → IsFailed n s
      → IsFailed n (set_on_close on_close s).1
  set_on_close-IsFailed n true s h = h
  set_on_close-IsFailed n false s h = h

  set_handlers-IsFailed :
      (n : ℕ) (on_msg on_close : Bool) (s : Session M)
      → IsFailed n s
      → IsFailed n (set_handlers on_msg on_close s).1
  unfolding set_handlers
  set_handlers-IsFailed n false on_close s h = set_on_close-IsFailed n on_close s h
  set_handlers-IsFailed n true on_close s h =
      branch (λ (x : Result (Session M)). IsFailed n (set_next on_close s x).1)
        s.msg_queue.dispatcher_task _ _ (λ _. h)
        (λ _. set_on_close-IsFailed n on_close (record s { on_msg_coro = true }) h)

  start-IsFailed : (n : ℕ) (s : Session M) → IsFailed n s → IsFailed n (start_dispatching s).1
  unfolding start_dispatching
  start-IsFailed n s h =
      branch (λ (p : Result (Unit {0}) × Session M). IsFailed n p.1) s.on_msg_coro _ _
        (λ _.
          branch (λ (q : Result (Queue M)). IsFailed n (dispatching s q).1)
            s.msg_queue.dispatcher_task _ _ (λ _. h) (λ _. h))
        (λ _. h)

module _ {M : Type 0} (f : Framing M) (truthy : M → Bool) where
  polled-IsFailed :
      (n : ℕ) (s : Session M) (o : Option (Reader M)) → IsFailed n s → IsFailed n (polled f s o)
  polled-IsFailed n s none h = h
  polled-IsFailed n s (some r) h =
      close_if-IsFailed n _ _
        (deliver-IsFailed n _ (record s { reader = some (Reader.process f (λ _. true) r) }) h)

  apply-IsFailed :
      (n : ℕ) (e : Event M) (s : Session M) → IsFailed n s → IsFailed n (apply f truthy e s)
  unfolding apply
  apply-IsFailed n (data_ bs) s h = h
  apply-IsFailed n poll s h = polled-IsFailed n s s.reader h
  apply-IsFailed n lost s h = initiate-IsFailed n s.graceful_shutdown s h
  apply-IsFailed n run_closing_ s h = closing-IsFailed n s s.closing_task h
  apply-IsFailed n close_step_ s h = step_failed n s.phase s h.1 h
  apply-IsFailed n finish_step_ s h = finish_failed n s.phase s h.1 h
  apply-IsFailed n start_heartbeats_ s h = h
  apply-IsFailed n start_dispatching_ s h = start-IsFailed n s h
  apply-IsFailed n tick_remote s h = ticked-IsFailed n s s.remote_hb_monitor h
  apply-IsFailed n (tick_local returns) s h = h
  apply-IsFailed n (initiate_ drain) s h = initiate-IsFailed n drain s h
  apply-IsFailed n (close_ drain) s h = close-IsFailed n drain s h
  apply-IsFailed n (set_handlers_ on_msg on_close) s h = set_handlers-IsFailed n on_msg on_close s h
  apply-IsFailed n (queue_ e) s h = h

  run-IsFailed :
      (n : ℕ) (es : List (Event M)) (s : Session M) → IsFailed n s → IsFailed n (run f truthy es s)
  unfolding run
  run-IsFailed n [] s h = h
  run-IsFailed n (e ∷ es) s h = run-IsFailed n es (apply f truthy e s) (apply-IsFailed n e s h)

  already :
      (r : Reader M) (b : Bool) → r.drain_mode ≡ some b → Reader.enter_drain r ≡ raised state_error
  unfolding Reader.enter_drain
  already r b d = ground arith

  nested_drain :
      (s : Session M) (r : Reader M) (b : Bool)
      → s.closed ≡ false
      → s.reader ≡ some r
      → r.drain_mode ≡ some b
      → IsFailed s.close_calls (close true s)
  unfolding close
  nested_drain s r b open_ e d =
      let begun : close true s ≡ begin_drain (shut s) s.reader = simp open_ in
      let refused : Reader.enter_drain r ≡ raised state_error = already r b d in
      let left : close true s ≡ record (shut s) { phase = failed } =
        begun ∙ ap (begin_drain (shut s)) e ∙ ap (entered_reader (shut s)) refused in
      (
        ap (λ (x : Session M). x.closed) left,
        ap (λ (x : Session M). x.phase) left,
        ap (λ (x : Session M). x.close_calls) left,
      )

  -- A draining `close` of an open session whose reader is draining already ends by StateError, and
  -- is never made good: whatever happens from then on, `on_close_coro` is not called any more,
  -- though the session counts as closed.
  pub nested_drain_never_closes :
      (s : Session M) (r : Reader M) (b : Bool) (es : List (Event M))
      → s.closed ≡ false
      → s.reader ≡ some r
      → r.drain_mode ≡ some b
      → IsFailed s.close_calls (run f truthy es (close true s))
  nested_drain_never_closes s r b es open_ e d =
      run-IsFailed s.close_calls es (close true s) (nested_drain s r b open_ e d)
