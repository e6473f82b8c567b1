-- ===== src/Common/Session/Delivery.antt =====
-- What the application gets out of a session of common/session.py, against the bytes it received.
use nasdaq_protocols.Prelude.{
  ◌≡◌, refl, sym, ap, ◌∙◌, Bool, true, false, List, [], ◌∷◌, ◌++◌, append-nil, append_assoc, All,
}
use nasdaq_protocols.Python.Bytes.{Bytes}
use nasdaq_protocols.Common.Buffer.{Framing}
use nasdaq_protocols.Common.Reader
use nasdaq_protocols.Common.Reader.{
  Reader, is_running, available, is_waiting, mark_drained, process, process_1, handle,
}
use nasdaq_protocols.Common.Reader.Stream.{messages}
use nasdaq_protocols.Common.Reader.Schedule as ReaderSchedule
use nasdaq_protocols.Common.Queue.Order.{all, keep_all}
use nasdaq_protocols.Common.Queue.Schedule as QueueSchedule
use nasdaq_protocols.Common.Session.{
  Session, new_session, run_closing, finish_step, start_heartbeats, connection_made,
  connection_lost,
}
use nasdaq_protocols.Common.Session.Schedule.{
  Event, data_, poll, lost, run_closing_, close_step_, finish_step_, start_heartbeats_,
  start_dispatching_, tick_remote, tick_local, initiate_, close_, set_handlers_, queue_, apply, run,
}
use nasdaq_protocols.Common.Session.Passing.{
  returns, IsDelivered, close-IsDelivered, finish_step_at-IsDelivered,
}
use nasdaq_protocols.Common.Session.Handing.{
  polled-IsDelivered, ticked-IsDelivered, closing-IsDelivered, initiate-IsDelivered,
  data-IsDelivered, set_handlers-IsDelivered, start_dispatching-IsDelivered,
}

-- What the event loop brings in, and the events that take messages in no other way than the reader's
-- and give none up: all but the ends of a draining `close`, which discards, and the queue's own puts.
module _ {M : Type 0} where
  unfoldable pub received : List (Event M) → Bytes
  received [] = []
  received (data_ bs ∷ es) = bs ++ received es
  received (_ ∷ es) = received es

  abbrev pub passes : Event M → Bool
  passes close_step_ = false
  passes finish_step_ = true
  passes (queue_ (QueueSchedule.put_ m)) = false
  passes (queue_ e) = QueueSchedule.keeps e
  passes _ = true

module _ {M : Type 0} (f : Framing M) (truthy : M → Bool) where
  abbrev arrived : Event M → Bytes
  arrived (data_ bs) = bs
  arrived _ = []

  received-cons : (e : Event M) (es : List (Event M)) → received (e ∷ es) ≡ arrived e ++ received es
  unfolding received
  received-cons (data_ bs) es = refl
  received-cons _ es = refl

  queue-IsDelivered :
      ((m : M) → truthy m ≡ true)
      → (e : QueueSchedule.Event M) (bs : Bytes) (s : Session M) → passes (queue_ e) ≡ true
      → IsDelivered f bs s
      → IsDelivered f bs (record s { msg_queue = QueueSchedule.apply truthy e s.msg_queue })
  queue-IsDelivered true_ (QueueSchedule.put_ m) bs s p h = cc
  queue-IsDelivered true_ e bs s p (r, q, h, k) =
      (r, q, h, keep_all truthy true_ e s.msg_queue p ∙ append-nil (all s.msg_queue) ∙ k)

  apply-IsDelivered :
      ((m : M) → truthy m ≡ true)
      → (e : Event M) (bs : Bytes) (s : Session M) → passes e ≡ true
      → IsDelivered f bs s
      → IsDelivered f (bs ++ arrived e) (apply f truthy e s)
  unfolding apply connection_lost run_closing finish_step start_heartbeats
  apply-IsDelivered true_ (data_ data') bs s p h = data-IsDelivered f data' bs s h
  apply-IsDelivered true_ poll bs s p h = rw append-nil (polled-IsDelivered f bs s s.reader refl h)
  apply-IsDelivered true_ lost bs s p h =
      rw append-nil (initiate-IsDelivered f s.graceful_shutdown bs s h)
  apply-IsDelivered true_ run_closing_ bs s p h =
      rw append-nil (closing-IsDelivered f bs s s.closing_task h)
  apply-IsDelivered true_ close_step_ bs s p h = cc
  apply-IsDelivered true_ finish_step_ bs s p h =
      rw append-nil (finish_step_at-IsDelivered f bs s.phase s h)
  apply-IsDelivered true_ start_heartbeats_ bs s p (r, e, h, k) = rw append-nil (r, e, h, k)
  apply-IsDelivered true_ start_dispatching_ bs s p h =
      rw append-nil (start_dispatching-IsDelivered f bs s h)
  apply-IsDelivered true_ tick_remote bs s p h =
      rw append-nil (ticked-IsDelivered f bs s s.remote_hb_monitor h)
  apply-IsDelivered true_ (tick_local returns) bs s p (r, e, h, k) = rw append-nil (r, e, h, k)
  apply-IsDelivered true_ (initiate_ drain) bs s p h =
      rw append-nil (initiate-IsDelivered f drain bs s h)
  apply-IsDelivered true_ (close_ drain) bs s p h = rw append-nil (close-IsDelivered f drain bs s h)
  apply-IsDelivered true_ (set_handlers_ on_msg on_close) bs s p h =
      rw append-nil (set_handlers-IsDelivered f on_msg on_close bs s h)
  apply-IsDelivered true_ (queue_ e) bs s p h = rw append-nil (queue-IsDelivered true_ e bs s p h)

  run-IsDelivered :
      ((m : M) → truthy m ≡ true)
      → (es : List (Event M)) (bs : Bytes) (s : Session M)
      → All (λ (e : Event M). passes e ≡ true) es
      → IsDelivered f bs s
      → IsDelivered f (bs ++ received es) (run f truthy es s)
  unfolding run
  run-IsDelivered true_ [] bs s p h = unfold received in rw append-nil h
  run-IsDelivered true_ (e ∷ es) bs s p h =
      rw (received-cons e es, ← append_assoc bs (arrived e) (received es))
        (run-IsDelivered true_ es (bs ++ arrived e) (apply f truthy e s) p.1
          (apply-IsDelivered true_ e bs s p.0 h))

  abbrev pub connected : Bool → Bool → Bool → Bool → Session M
  unfolding connection_made
  connected on_msg on_close dispatch graceful =
      (connection_made (new_session on_msg on_close dispatch graceful)).1

  connected-IsDelivered :
      (on_msg on_close dispatch graceful : Bool)
      → IsDelivered f [] (connected on_msg on_close dispatch graceful)
  unfolding connected
  connected-IsDelivered true on_close true graceful =
      (Reader.start, refl, ReaderSchedule.start-IsFaithful f (returns f), refl)
  connected-IsDelivered false on_close true graceful =
      (Reader.start, refl, ReaderSchedule.start-IsFaithful f (returns f), refl)
  connected-IsDelivered on_msg on_close false graceful =
      (Reader.start, refl, ReaderSchedule.start-IsFaithful f (returns f), refl)

  -- End to end: whatever the chunks in which the bytes arrive at a connected session and the order
  -- of what else happens, the messages that left the queue for the application, in order, are the
  -- first of the messages of the bytes received, and those that are still in the queue are the
  -- next. It holds for every protocol's framing, over closing, pausing and buffering, where no
  -- draining `close` comes to its end and no `buffer_until_drained` discards, where only the
  -- reader puts messages, and where no message is false.
  pub run_delivers :
      ((m : M) → truthy m ≡ true)
      → (on_msg on_close dispatch graceful : Bool) (es : List (Event M))
      → All (λ (e : Event M). passes e ≡ true) es
      → (rest : List M) × (messages f (received es)
          ≡ (run f truthy es (connected on_msg on_close dispatch graceful)).msg_queue.taken
            ++ (QueueSchedule.pending
                  (run f truthy es (connected on_msg on_close dispatch graceful)).msg_queue
                ++ rest))
  run_delivers true_ on_msg on_close dispatch graceful es p =
      let start = connected on_msg on_close dispatch graceful in
      let (r, e, h, k) =
        run-IsDelivered true_ es [] start p
          (connected-IsDelivered on_msg on_close dispatch graceful) in
      let (rest, q, _) = h.follows [] in
      let end = (run f truthy es start).msg_queue in
      (
        rest,
        ap (messages f) (sym (append-nil (received es)))
            ∙ q
            ∙ ap (λ (ms : List M). ms ++ rest) (sym k)
            ∙ append_assoc end.taken (QueueSchedule.pending end) rest,
      )
