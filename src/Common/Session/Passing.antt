-- ===== src/Common/Session/Passing.antt =====
-- How the operations of a session of common/session.py pass messages on, from the reader to the
-- queue.
use nasdaq_protocols.Prelude.{
  ℕ, ◌≡◌, refl, sym, ap, ◌∙◌, inl, inr, Bool, true, false, not, ◌&&◌, Option-cases, Option, none,
  some, List, [], ◌∷◌, ◌++◌, append-nil, append_assoc, ltb, ◌==◌, Result, ok, raised,
}
use nasdaq_protocols.Python.Bytes.{Bytes}
use nasdaq_protocols.Common.Buffer.{Framing, Response}
use nasdaq_protocols.Common.Reader
use nasdaq_protocols.Common.Reader.{
  Reader, is_running, available, is_waiting, mark_drained, process, process_1, handle,
}
use nasdaq_protocols.Common.Reader.Stream.{IsFaithful, stop-IsFaithful}
use nasdaq_protocols.Common.Reader.Schedule as ReaderSchedule
use nasdaq_protocols.Common.Queue
use nasdaq_protocols.Common.Queue.{Queue}
use nasdaq_protocols.Common.Queue.Order.{all, push-all}
use nasdaq_protocols.Common.Session.{
  Session, map_option, shut, finish_close, stop_reader, call_on_close, finish_step_at, Phase,
  not_called, draining_reader, draining_queue, stopping_queue, stopping_reader, in_on_close, done,
  failed, entered_reader, begin_drain, close, on_message,
}
use nasdaq_protocols.Common.Session.Schedule.{deliver}
use nasdaq_protocols.Common.Session.Stages.{branch}

module _ {M : Type 0} (f : Framing M) where
  -- A round of the reader adds to what was dispatched.
  abbrev pub Grows : Reader M → Reader M → Type 0
  Grows r r' = (new : List M) × (r'.dispatched ≡ r.dispatched ++ new)

  abbrev pub returns : M → Bool
  returns _ = true

  pub same : (r : Reader M) → Grows r r
  same r = ([], sym (append-nil r.dispatched))

  pub stop_dispatched : (r : Reader M) → (Reader.stop r).dispatched ≡ r.dispatched
  unfolding Reader.stop
  stop_dispatched r =
      branch (λ (x : Reader M). x.dispatched ≡ r.dispatched) r.stopped _ _ (λ _. refl) (λ _. refl)

  pub stop-Grows : (r : Reader M) → Grows r (Reader.stop r)
  stop-Grows r = ([], stop_dispatched r ∙ sym (append-nil r.dispatched))

  pub handle-Grows : (x : Result (Response M)) (r : Reader M) → Grows r (handle f returns x r)
  handle-Grows (raised e) r = same r
  handle-Grows (ok (none, stop_, skip)) r =
      branch (Grows r) stop_ _ _ (λ _. stop-Grows r) (λ _. same r)
  handle-Grows (ok (some m, stop_, skip)) r =
      branch (Grows r) stop_ _ _ (λ _. stop-Grows r)
        (λ _. branch (Grows r) skip _ _ (λ _. same r) (λ _. (m ∷ [], refl)))

  pub mark-Grows : (before : ℕ) (r r' : Reader M) → Grows r r' → Grows r (mark_drained before r')
  mark-Grows before r r' g =
      branch (Grows r) (not r'.crashed && is_waiting r'.drain_mode && (available r' == before)) _ _
        (λ _. g) (λ _. g)

  pub process-Grows : (r : Reader M) → Grows r (process f returns r)
  unfolding process process_1
  process-Grows r =
      branch (Grows r) (is_running r) _ _
        (λ _. mark-Grows (available r) r _ (
          branch (Grows r) (ltb 0 (available r)) _ _
            (λ _.
              handle-Grows (f.deserialize r.buffer).0
                (record r { buffer = (f.deserialize r.buffer).1 }))
            (λ _. same r)))
        (λ _. same r)

  -- What was taken out of the queue and what is in it are what the reader dispatched.
  abbrev pub IsDelivered : Bytes → Session M → Type 0
  IsDelivered received s =
      (r : Reader M) × (s.reader ≡ some r)
      × IsFaithful f received r
      × (all s.msg_queue ≡ r.dispatched)

  -- A change of the other fields.
  pub other_fields :
      (bs : Bytes) (s s' : Session M)
      → s'.reader ≡ s.reader
      → all s'.msg_queue ≡ all s.msg_queue
      → IsDelivered bs s
      → IsDelivered bs s'
  other_fields bs s s' e q (r, p, h, k) = (r, e ∙ p, h, q ∙ k)

  pub stop-all : (q : Queue M) → all (Queue.stop q) ≡ all q
  unfolding Queue.stop
  stop-all q = branch (λ (x : Queue M). all x ≡ all q) q.closed _ _ (λ _. refl) (λ _. refl)

  pub stopped : (bs : Bytes) (r : Reader M) → IsFaithful f bs r → IsFaithful f bs (Reader.stop r)
  stopped bs r h =
      stop-IsFaithful f bs r h.compact h.idle
        (λ more. let (rest, p, _) = h.follows more in (rest, p))

  pub finish_close-IsDelivered :
      (bs : Bytes) (s : Session M) → IsDelivered bs s → IsDelivered bs (finish_close s)
  unfolding finish_close
  finish_close-IsDelivered bs s h = other_fields bs s (finish_close s) refl (stop-all s.msg_queue) h

  stop_reader-IsDelivered :
      (bs : Bytes) (s : Session M) → IsDelivered bs s → IsDelivered bs (stop_reader s)
  unfolding stop_reader
  stop_reader-IsDelivered bs s (r, e, h, k) =
      (Reader.stop r, ap (map_option Reader.stop) e, stopped bs r h, k ∙ sym (stop_dispatched r))

  call_on_close-IsDelivered :
      (bs : Bytes) (s : Session M) → IsDelivered bs s → IsDelivered bs (call_on_close s)
  unfolding call_on_close
  call_on_close-IsDelivered bs s h = other_fields bs s (call_on_close s) refl refl h

  pub finish_step_at-IsDelivered :
      (bs : Bytes) (p : Phase) (s : Session M)
      → IsDelivered bs s
      → IsDelivered bs (finish_step_at p s)
  finish_step_at-IsDelivered bs stopping_queue s h = stop_reader-IsDelivered bs s h
  finish_step_at-IsDelivered bs stopping_reader s h = call_on_close-IsDelivered bs s h
  finish_step_at-IsDelivered bs in_on_close s h =
      other_fields bs s (record s { phase = done }) refl refl h
  finish_step_at-IsDelivered bs not_called s h = h
  finish_step_at-IsDelivered bs draining_reader s h = h
  finish_step_at-IsDelivered bs draining_queue s h = h
  finish_step_at-IsDelivered bs done s h = h
  finish_step_at-IsDelivered bs failed s h = h

  pub drained_dispatched :
      (r : Reader M) → (ReaderSchedule.drained r (Reader.enter_drain r)).dispatched ≡ r.dispatched
  unfolding Reader.enter_drain
  drained_dispatched r = elim (Option-cases r.drain_mode) [
    | inl e ↦ rw e refl
    | inr (b, e) ↦ rw e refl
  ]

  pub entered :
      (bs : Bytes) (s : Session M) (r : Reader M) (x : Result (Reader M))
      → s.reader ≡ some r
      → IsFaithful f bs (ReaderSchedule.drained r x)
      → (ReaderSchedule.drained r x).dispatched ≡ r.dispatched
      → all s.msg_queue ≡ r.dispatched
      → IsDelivered bs (entered_reader s x)
  entered bs s r (ok r') e h d k = (r', refl, h, k ∙ sym d)
  entered bs s r (raised x) e h d k = (r, e, h, k)

  pub begin_drain-IsDelivered :
      (bs : Bytes) (s : Session M) (o : Option (Reader M))
      → s.reader ≡ o
      → IsDelivered bs s
      → IsDelivered bs (begin_drain s o)
  begin_drain-IsDelivered bs s none e h = other_fields bs s (begin_drain s none) refl refl h
  begin_drain-IsDelivered bs s (some r) e (r0, p, h, k) =
      let same_reader : r0 ≡ r = cc in
      entered bs s r (Reader.enter_drain r) e
        (ReaderSchedule.enter_drain-IsFaithful f returns bs r (rw same_reader at h))
        (drained_dispatched r) (k ∙ ap (λ (x : Reader M). x.dispatched) same_reader)

  pub close-IsDelivered :
      (drain : Bool) (bs : Bytes) (s : Session M)
      → IsDelivered bs s
      → IsDelivered bs (close drain s)
  unfolding close
  close-IsDelivered true bs s h =
      branch (IsDelivered bs) s.closed _ _ (λ _. h)
        (λ _.
          begin_drain-IsDelivered bs (shut s) s.reader refl
            (other_fields bs s (shut s) refl refl h))
  close-IsDelivered false bs s h =
      branch (IsDelivered bs) s.closed _ _ (λ _. h)
        (λ _. finish_close-IsDelivered bs (shut s) (other_fields bs s (shut s) refl refl h))

  pub put-all : (m : M) (q : Queue M) → all (Queue.put m q) ≡ all q ++ m ∷ []
  unfolding Queue.put
  put-all m q = push-all m q q.buffer_msg_queue refl

  pub all-deliver :
      (ms : List M) (s : Session M) → all (deliver ms s).msg_queue ≡ all s.msg_queue ++ ms
  unfolding deliver on_message
  all-deliver [] s = sym (append-nil (all s.msg_queue))
  all-deliver (m ∷ ms) s =
      all-deliver ms (on_message m s)
      ∙ rw (put-all m s.msg_queue) (append_assoc (all s.msg_queue) (m ∷ []) ms)

  pub deliver_reader : (ms : List M) (s : Session M) → (deliver ms s).reader ≡ s.reader
  unfolding deliver on_message
  deliver_reader [] s = refl
  deliver_reader (m ∷ ms) s = deliver_reader ms (on_message m s)
