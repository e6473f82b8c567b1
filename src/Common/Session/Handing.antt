-- ===== src/Common/Session/Handing.antt =====
-- How the events of a session of common/session.py pass messages on to the queue, or leave them.
use nasdaq_protocols.Prelude.{
  ◌≡◌, refl, sym, ap, ◌∙◌, inl, inr, Bool, true, false, ◌||◌, Option-cases, Option, none, some,
  ◌++◌, drop-append, Result, length, drop,
}
use nasdaq_protocols.Python.Bytes.{Bytes}
use nasdaq_protocols.Common.Buffer.{Framing}
use nasdaq_protocols.Common.Reader
use nasdaq_protocols.Common.Reader.{
  Reader, is_running, available, is_waiting, mark_drained, process, process_1, handle,
}
use nasdaq_protocols.Common.Reader.Stream.{on_data-IsFaithful}
use nasdaq_protocols.Common.Reader.Schedule as ReaderSchedule
use nasdaq_protocols.Common.Monitor
use nasdaq_protocols.Common.Monitor.{Monitor}
use nasdaq_protocols.Common.Queue.{Queue}
use nasdaq_protocols.Common.Session.{
  Session, map_option, is_some, initiate_close, closing, set_handlers, set_on_close, set_next,
  start_dispatching, dispatching, data_received,
}
use nasdaq_protocols.Common.Session.Schedule.{close_if, ticked, polled}
use nasdaq_protocols.Common.Session.Stages.{branch}
use nasdaq_protocols.Common.Session.Passing.{
  returns, process-Grows, IsDelivered, other_fields, close-IsDelivered, all-deliver, deliver_reader,
}

module _ {M : Type 0} (f : Framing M) where
  pub close_if-IsDelivered :
      (b : Bool) (bs : Bytes) (s : Session M) → IsDelivered f bs s → IsDelivered f bs (close_if b s)
  close_if-IsDelivered b bs s h =
      branch (IsDelivered f bs) b _ _ (λ _. close-IsDelivered f false bs s h) (λ _. h)

  pub polled-IsDelivered :
      (bs : Bytes) (s : Session M) (o : Option (Reader M))
      → s.reader ≡ o
      → IsDelivered f bs s
      → IsDelivered f bs (polled f s o)
  polled-IsDelivered bs s none e h = h
  polled-IsDelivered bs s (some r) e (r0, p, h, k) =
      let same_reader : r0 ≡ r = cc in
      let (new, g) = process-Grows f r in
      close_if-IsDelivered _ bs _ (
        process f (returns f) r,
        deliver_reader f _ _,
        ReaderSchedule.process-IsFaithful f (returns f) bs r (rw same_reader at h),
        (let new_is : drop (length r.dispatched) (process f (returns f) r).dispatched ≡ new =
              ap (drop (length r.dispatched)) g ∙ drop-append r.dispatched new in
            all-deliver f _ _ ∙ rw (new_is, k, same_reader) (sym g)),
      )

  pub ticked-IsDelivered :
      (bs : Bytes) (s : Session M) (m : Option Monitor)
      → IsDelivered f bs s
      → IsDelivered f bs (ticked s m)
  ticked-IsDelivered bs s none h = h
  ticked-IsDelivered bs s (some m) h = close_if-IsDelivered _ bs _ (
      other_fields f bs s (record s { remote_hb_monitor = some (Monitor.tick true m) }) refl refl h)

  pub closing-IsDelivered :
      (bs : Bytes) (s : Session M) (o : Option Bool)
      → IsDelivered f bs s
      → IsDelivered f bs (closing s o)
  closing-IsDelivered bs s none h = h
  closing-IsDelivered bs s (some drain) h = close-IsDelivered f drain bs s h

  pub initiate-IsDelivered :
      (drain : Bool) (bs : Bytes) (s : Session M)
      → IsDelivered f bs s
      → IsDelivered f bs (initiate_close drain s)
  unfolding initiate_close
  initiate-IsDelivered drain bs s h =
      branch (IsDelivered f bs) (s.closed || is_some s.closing_task) _ _ (λ _. h)
        (λ _. other_fields f bs s (record s { closing_task = some drain }) refl refl h)

  pub on_data_dispatched :
      (bs : Bytes) (r : Reader M) → (Reader.on_data bs r).dispatched ≡ r.dispatched
  on_data_dispatched bs r = elim (Option-cases r.drain_buffer) [
    | inl e ↦ unfold Reader.on_data in rw e refl
    | inr (b, e) ↦ unfold Reader.on_data in rw e refl
  ]

  pub data-IsDelivered :
      (data' bs : Bytes) (s : Session M)
      → IsDelivered f bs s
      → IsDelivered f (bs ++ data') (data_received data' s)
  unfolding data_received
  data-IsDelivered data' bs s (r, e, h, k) = (
    Reader.on_data data' r,
    ap (map_option (Reader.on_data data')) e,
    on_data-IsFaithful f data' bs r h,
    k ∙ sym (on_data_dispatched data' r),
  )

  pub set_on_close-IsDelivered :
      (on_close : Bool) (bs : Bytes) (s : Session M)
      → IsDelivered f bs s
      → IsDelivered f bs (set_on_close on_close s).1
  set_on_close-IsDelivered true bs s (r, e, h, k) = (r, e, h, k)
  set_on_close-IsDelivered false bs s h = h

  pub set_handlers-IsDelivered :
      (on_msg on_close : Bool) (bs : Bytes) (s : Session M)
      → IsDelivered f bs s
      → IsDelivered f bs (set_handlers on_msg on_close s).1
  unfolding set_handlers
  set_handlers-IsDelivered false on_close bs s h = set_on_close-IsDelivered on_close bs s h
  set_handlers-IsDelivered true on_close bs s (r, e, h, k) =
      branch (λ (x : Result (Session M)). IsDelivered f bs (set_next on_close s x).1)
        s.msg_queue.dispatcher_task _ _ (λ _. (r, e, h, k))
        (λ _. set_on_close-IsDelivered on_close bs (record s { on_msg_coro = true }) (r, e, h, k))

  pub start_dispatching-IsDelivered :
      (bs : Bytes) (s : Session M) → IsDelivered f bs s → IsDelivered f bs (start_dispatching s).1
  unfolding start_dispatching
  start_dispatching-IsDelivered bs s (r, e, h, k) =
      branch (λ (p : Result (Unit {0}) × Session M). IsDelivered f bs p.1) s.on_msg_coro _ _
        (λ _.
          branch (λ (q : Result (Queue M)). IsDelivered f bs (dispatching s q).1)
            s.msg_queue.dispatcher_task _ _ (λ _. (r, e, h, k)) (λ _. (r, e, h, k)))
        (λ _. (r, e, h, k))
