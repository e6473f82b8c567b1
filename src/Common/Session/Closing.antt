-- ===== src/Common/Session/Closing.antt =====
-- How a session of common/session.py closes, whatever happens to it in any order.
use nasdaq_protocols.Prelude.{
  ◌≤◌, ◌≡◌, refl, arith, Bool, true, false, ◌||◌, Option, none, some, List, [], ◌∷◌, Result,
}
use nasdaq_protocols.Common.Buffer.{Framing}
use nasdaq_protocols.Common.Reader
use nasdaq_protocols.Common.Reader.{Reader}
use nasdaq_protocols.Common.Queue
use nasdaq_protocols.Common.Queue.{Queue}
use nasdaq_protocols.Common.Queue.Stop.{apply_closed}
use nasdaq_protocols.Common.Session.{
  Session, Phase, not_called, draining_reader, draining_queue, stopping_queue, stopping_reader,
  in_on_close, done, failed, is_some, new_session, initiate_close, set_on_msg, set_on_close,
  set_next, start_dispatching, dispatching, connection_made,
}
use nasdaq_protocols.Common.Session.Schedule.{
  Event, data_, poll, lost, run_closing_, close_step_, finish_step_, start_heartbeats_,
  start_dispatching_, tick_remote, tick_local, initiate_, close_, set_handlers_, queue_, polled,
  apply, run,
}
use nasdaq_protocols.Common.Session.Stages.{
  branch, IsStopped, Stage, IsClosing, other_fields, not_closed, close-IsClosing,
  close_if-IsClosing, close_step_lem, finish_step_lem, closing_lem, deliver-IsClosing,
  ticked-IsClosing, map_stopped, on_data_stopped,
}

module _ {M : Type 0} (f : Framing M) (truthy : M → Bool) where
  process_stopped :
      (r : Reader M) → r.stopped ≡ true → (Reader.process f (λ _. true) r).stopped ≡ true
  unfolding Reader.process
  process_stopped r h = let off : Reader.is_running r ≡ false = simp h in simp (off, h)

  polled-IsClosing :
      (s : Session M) (r : Option (Reader M))
      → s.reader ≡ r
      → IsClosing s
      → IsClosing (polled f s r)
  polled-IsClosing s none e h = h
  polled-IsClosing s (some r) e h = close_if-IsClosing _ _ (
      deliver-IsClosing _ _
        (other_fields s.phase s _ refl refl (λ e. e) (λ k. process_stopped r (rw e at k)) h))

  initiate-IsClosing :
      (drain : Bool) (s : Session M) → IsClosing s → IsClosing (initiate_close drain s)
  unfolding initiate_close
  initiate-IsClosing drain s h =
      branch IsClosing (s.closed || is_some s.closing_task) _ _ (λ _. h)
        (λ _. other_fields s.phase s _ refl refl (λ e. e) (λ r. r) h)

  set_on_close-IsClosing :
      (on_close : Bool) (s : Session M) → IsClosing s → IsClosing (set_on_close on_close s).1
  set_on_close-IsClosing true s h = other_fields s.phase s _ refl refl (λ e. e) (λ r. r) h
  set_on_close-IsClosing false s h = h

  set_handlers-IsClosing :
      (on_msg on_close : Bool) (s : Session M)
      → IsClosing s
      → IsClosing (set_next on_close s (set_on_msg on_msg s)).1
  set_handlers-IsClosing false on_close s h = set_on_close-IsClosing on_close s h
  set_handlers-IsClosing true on_close s h =
      branch (λ (r : Result (Session M)). IsClosing (set_next on_close s r).1)
        s.msg_queue.dispatcher_task _ _ (λ _. h)
        (λ _.
          set_on_close-IsClosing on_close _
            (other_fields s.phase s _ refl refl (λ e. e) (λ r. r) h))

  start_dispatching-IsClosing : (s : Session M) → IsClosing s → IsClosing (start_dispatching s).1
  unfolding start_dispatching
  start_dispatching-IsClosing s h =
      branch (λ (p : Result (Unit {0}) × Session M). IsClosing p.1) s.on_msg_coro _ _
        (λ _.
          branch (λ (q : Result (Queue M)). IsClosing (dispatching s q).1)
            s.msg_queue.dispatcher_task _ _ (λ _. h)
            (λ _. other_fields s.phase s _ refl refl (λ e. e) (λ r. r) h))
        (λ _. h)

  apply-IsClosing : (e : Event M) (s : Session M) → IsClosing s → IsClosing (apply f truthy e s)
  unfolding apply
  apply-IsClosing (data_ bs) s h =
      other_fields s.phase s _ refl refl (λ e. e)
        (map_stopped (Reader.on_data bs) (on_data_stopped bs) s.reader) h
  apply-IsClosing poll s h = polled-IsClosing s s.reader refl h
  apply-IsClosing lost s h = initiate-IsClosing s.graceful_shutdown s h
  apply-IsClosing run_closing_ s h = closing_lem s s.closing_task h
  apply-IsClosing close_step_ s h = close_step_lem s.phase s h h
  apply-IsClosing finish_step_ s h = finish_step_lem s.phase s h h
  apply-IsClosing start_heartbeats_ s h = other_fields s.phase s _ refl refl (λ e. e) (λ r. r) h
  apply-IsClosing start_dispatching_ s h = start_dispatching-IsClosing s h
  apply-IsClosing tick_remote s h = ticked-IsClosing s s.remote_hb_monitor h
  apply-IsClosing (tick_local returns) s h = other_fields s.phase s _ refl refl (λ e. e) (λ r. r) h
  apply-IsClosing (initiate_ drain) s h = initiate-IsClosing drain s h
  apply-IsClosing (close_ drain) s h = close-IsClosing drain s h
  apply-IsClosing (set_handlers_ on_msg on_close) s h = set_handlers-IsClosing on_msg on_close s h
  apply-IsClosing (queue_ e) s h =
      other_fields s.phase s _ refl refl (apply_closed truthy e s.msg_queue) (λ r. r) h

  run-IsClosing_from :
      (es : List (Event M)) (s : Session M) → IsClosing s → IsClosing (run f truthy es s)
  unfolding run
  run-IsClosing_from [] s h = h
  run-IsClosing_from (e ∷ es) s h =
      run-IsClosing_from es (apply f truthy e s) (apply-IsClosing e s h)

  -- What a stage of `close` means to the application.
  abbrev pub ClosesOnce : Session M → Type 0
  ClosesOnce s =
      (s.close_calls ≤ 1)
      × ((s.closed ≡ false) → s.close_calls ≡ 0)
      × (s.phase ≡ done → (s.closed ≡ true) × (s.msg_queue.closed ≡ true) × IsStopped s.reader)

  closes_once : (s : Session M) → IsClosing s → ClosesOnce s
  closes_once s h = (few s.phase s h, not_closed s.phase s h, ended s.phase s h)
    where
      few : (p : Phase) (s : Session M) → Stage p s → s.close_calls ≤ 1
      few done s h = h.1
      few not_called s h = omega arith
      few draining_reader s h = omega arith
      few draining_queue s h = omega arith
      few stopping_queue s h = omega arith
      few stopping_reader s h = omega arith
      few in_on_close s h = h.1
      few failed s h = omega arith

      ended :
          (p : Phase) (s : Session M)
          → Stage p s
          → p ≡ done
          → (s.closed ≡ true) × (s.msg_queue.closed ≡ true) × IsStopped s.reader
      ended done s h e = (h.0, h.2, h.3)
      ended not_called s h e = cc
      ended draining_reader s h e = cc
      ended draining_queue s h e = cc
      ended stopping_queue s h e = cc
      ended stopping_reader s h e = cc
      ended in_on_close s h e = cc
      ended failed s h e = cc

  connected-IsClosing :
      (on_msg on_close dispatch graceful : Bool)
      → IsClosing (connection_made (new_session {M = M} on_msg on_close dispatch graceful)).1
  unfolding connection_made Queue.start_dispatching
  connected-IsClosing true on_close true graceful = (refl, refl)
  connected-IsClosing false on_close true graceful = (refl, refl)
  connected-IsClosing on_msg on_close false graceful = (refl, refl)

  -- A session that has connected calls `on_close_coro` at most once, and never while it is open,
  -- whatever happens to it in any order: calls of `close` by the peer's logout, the monitor, the
  -- connection's end and the application, draining or not. Where `close` has come to its end, the
  -- session is closed and its queue and its reader are stopped.
  pub run-ClosesOnce :
      (on_msg on_close dispatch graceful : Bool) (es : List (Event M))
      → ClosesOnce
          (run f truthy es (connection_made (new_session on_msg on_close dispatch graceful)).1)
  run-ClosesOnce on_msg on_close dispatch graceful es =
      let start = (connection_made (new_session {M = M} on_msg on_close dispatch graceful)).1 in
      closes_once (run f truthy es start)
        (run-IsClosing_from es start (connected-IsClosing on_msg on_close dispatch graceful))
