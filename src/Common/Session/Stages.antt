-- ===== src/Common/Session/Stages.antt =====
-- The stages of `close` in common/session.py, and how the operations keep to them.
use nasdaq_protocols.Prelude.{
  ◌+◌, ◌≤◌, ◌≡◌, refl, ◌∙◌, arith, inl, inr, Bool, true, false, Option-cases, Option, none, some,
  List, [], ◌∷◌, if◌then◌else◌, Result, ok, raised,
}
use nasdaq_protocols.Python.Bytes.{Bytes}
use nasdaq_protocols.Common.Reader
use nasdaq_protocols.Common.Reader.{Reader}
use nasdaq_protocols.Common.Monitor.{Monitor}
use nasdaq_protocols.Common.Queue
use nasdaq_protocols.Common.Queue.{Queue}
use nasdaq_protocols.Common.Queue.Stop.{put_closed}
use nasdaq_protocols.Common.Session.{
  Session, Phase, not_called, draining_reader, draining_queue, stopping_queue, stopping_reader,
  in_on_close, done, failed, map_option, shut, stop_reader, call_on_close, finish_close,
  entered_reader, begin_drain, begin_close, close, entered_queue, at_event, reader_drained,
  close_step_at, finish_step_at, closing, on_message,
}
use nasdaq_protocols.Common.Session.Schedule.{deliver, close_if, ticked}

-- Whichever branch is taken.
pub branch {ℓ κ} :
    {A : Type ℓ} (P : A → Type κ) (b : Bool) (x y : A)
    → ((b ≡ true) → P x)
    → ((b ≡ false) → P y)
    → P (if b then x else y)
branch P true x y p q = p refl
branch P false x y p q = q refl

module _ {M : Type 0} where
  abbrev pub IsStopped : Option (Reader M) → Type 0
  IsStopped none = Unit
  IsStopped (some r) = r.stopped ≡ true

  -- What holds while `close` is so far.
  abbrev pub Stage : Phase → Session M → Type 0
  Stage not_called s = (s.closed ≡ false) × (s.close_calls ≡ 0)
  Stage stopping_queue s = (s.closed ≡ true) × (s.close_calls ≡ 0) × (s.msg_queue.closed ≡ true)
  Stage stopping_reader s =
      (s.closed ≡ true) × (s.close_calls ≡ 0) × (s.msg_queue.closed ≡ true) × IsStopped s.reader
  Stage in_on_close s =
      (s.closed ≡ true) × (s.close_calls ≤ 1) × (s.msg_queue.closed ≡ true) × IsStopped s.reader
  Stage done s =
      (s.closed ≡ true) × (s.close_calls ≤ 1) × (s.msg_queue.closed ≡ true) × IsStopped s.reader
  Stage _ s = (s.closed ≡ true) × (s.close_calls ≡ 0)

  abbrev pub IsClosing : Session M → Type 0
  IsClosing s = Stage s.phase s

  -- A change of the other fields.
  pub other_fields :
      (p : Phase) (s s' : Session M)
      → s'.closed ≡ s.closed
      → s'.close_calls ≡ s.close_calls
      → (s.msg_queue.closed ≡ true → s'.msg_queue.closed ≡ true)
      → (IsStopped s.reader → IsStopped s'.reader)
      → Stage p s
      → Stage p s'
  other_fields not_called s s' c n q r h = (c ∙ h.0, n ∙ h.1)
  other_fields stopping_queue s s' c n q r (h, k, hq) = (c ∙ h, n ∙ k, q hq)
  other_fields stopping_reader s s' c n q r (h, k, hq, hr) = (c ∙ h, n ∙ k, q hq, r hr)
  other_fields in_on_close s s' c n q r (h, k, hq, hr) = (c ∙ h, rw n k, q hq, r hr)
  other_fields done s s' c n q r (h, k, hq, hr) = (c ∙ h, rw n k, q hq, r hr)
  other_fields _ s s' c n q r h = (c ∙ h.0, n ∙ h.1)

  pub stop-IsStopped : (r : Option (Reader M)) → IsStopped (map_option Reader.stop r)
  unfolding Reader.stop
  stop-IsStopped none = tt
  stop-IsStopped (some r) =
      branch (λ (x : Reader M). x.stopped ≡ true) r.stopped _ _ (λ e. e) (λ _. refl)

  pub stop_closed : (q : Queue M) → (Queue.stop q).closed ≡ true
  unfolding Queue.stop
  stop_closed q = branch (λ (x : Queue M). x.closed ≡ true) q.closed _ _ (λ e. e) (λ _. refl)

  pub finish_close_lem :
      (s : Session M) → s.closed ≡ true → s.close_calls ≡ 0 → IsClosing (finish_close s)
  unfolding finish_close
  finish_close_lem s c n = (c, n, stop_closed s.msg_queue)

  stop_reader_lem :
      (s : Session M)
      → s.closed ≡ true
      → s.close_calls ≡ 0
      → s.msg_queue.closed ≡ true
      → IsClosing (stop_reader s)
  unfolding stop_reader
  stop_reader_lem s c n q = (c, n, q, stop-IsStopped s.reader)

  call_on_close_lem : (s : Session M) → Stage stopping_reader s → IsClosing (call_on_close s)
  unfolding call_on_close
  call_on_close_lem s (c, n, q, r) = called s.on_close_coro
    where
      called :
          (given : Bool)
          → IsClosing (record s {
            close_calls = if given then s.close_calls + 1 else s.close_calls;
            phase = if given then in_on_close else done;
          })
      called true = (c, omega arith, q, r)
      called false = (c, omega arith, q, r)

  pub entered_reader_lem :
      (s : Session M) (r : Result (Reader M))
      → s.closed ≡ true
      → s.close_calls ≡ 0
      → IsClosing (entered_reader s r)
  entered_reader_lem s (ok r) c n = (c, n)
  entered_reader_lem s (raised e) c n = (c, n)

  pub begin_close_lem :
      (drain : Bool) (s : Session M)
      → s.closed ≡ true
      → s.close_calls ≡ 0
      → IsClosing (begin_close drain s)
  begin_close_lem false s c n = finish_close_lem s c n
  begin_close_lem true s c n = begun s s.reader c n
    where
      begun :
          (s : Session M) (r : Option (Reader M))
          → s.closed ≡ true
          → s.close_calls ≡ 0
          → IsClosing (begin_drain s r)
      begun s none c n = (c, n)
      begun s (some r) c n = entered_reader_lem s (Reader.enter_drain r) c n

  pub not_closed : (p : Phase) (s : Session M) → Stage p s → s.closed ≡ false → s.close_calls ≡ 0
  not_closed not_called s h f = h.1
  not_closed done s h f = cc (h.0, f)
  not_closed in_on_close s h f = cc (h.0, f)
  not_closed _ s h f = h.1

  pub close-IsClosing : (drain : Bool) (s : Session M) → IsClosing s → IsClosing (close drain s)
  unfolding close
  close-IsClosing drain s h =
      branch IsClosing s.closed _ _ (λ _. h)
        (λ f. begin_close_lem drain (shut s) refl (not_closed s.phase s h f))

  pub close_if-IsClosing : (b : Bool) (s : Session M) → IsClosing s → IsClosing (close_if b s)
  close_if-IsClosing b s h = branch IsClosing b _ _ (λ _. close-IsClosing false s h) (λ _. h)

  pub entered_queue_lem :
      (s : Session M) (r : Reader M) (q : Result (Queue M))
      → s.closed ≡ true
      → s.close_calls ≡ 0
      → IsClosing (entered_queue s r q)
  entered_queue_lem s r (ok q) c n = (c, n)
  entered_queue_lem s r (raised e) c n = (c, n)

  pub at_event_lem :
      (s : Session M) (r : Reader M) (mode : Option Bool)
      → s.closed ≡ true
      → s.close_calls ≡ 0
      → IsClosing s
      → IsClosing (at_event s r mode)
  at_event_lem s r (some true) c n h = entered_queue_lem s r (Queue.enter_drain s.msg_queue) c n
  at_event_lem s r (some false) c n h = h
  at_event_lem s r none c n h = h

  pub reader_drained_lem :
      (s : Session M) (r : Option (Reader M))
      → s.closed ≡ true
      → s.close_calls ≡ 0
      → IsClosing s
      → IsClosing (reader_drained s r)
  reader_drained_lem s none c n h = h
  reader_drained_lem s (some r) c n h = at_event_lem s r r.drain_mode c n h

  pub close_step_lem :
      (p : Phase) (s : Session M) → Stage p s → IsClosing s → IsClosing (close_step_at p s)
  close_step_lem not_called s h k = k
  close_step_lem draining_reader s h k = reader_drained_lem s s.reader h.0 h.1 k
  close_step_lem draining_queue s h k =
      branch IsClosing (Queue.is_empty s.msg_queue.msg_queue) _ _ (λ _. finish_close_lem _ h.0 h.1)
        (λ _. k)
  close_step_lem stopping_queue s h k = k
  close_step_lem stopping_reader s h k = k
  close_step_lem in_on_close s h k = k
  close_step_lem done s h k = k
  close_step_lem failed s h k = k

  pub finish_step_lem :
      (p : Phase) (s : Session M) → Stage p s → IsClosing s → IsClosing (finish_step_at p s)
  finish_step_lem stopping_queue s h k = stop_reader_lem s h.0 h.1 h.2
  finish_step_lem stopping_reader s h k = call_on_close_lem s h
  finish_step_lem in_on_close s h k = h
  finish_step_lem not_called s h k = k
  finish_step_lem draining_reader s h k = k
  finish_step_lem draining_queue s h k = k
  finish_step_lem done s h k = k
  finish_step_lem failed s h k = k

  pub closing_lem : (s : Session M) (task : Option Bool) → IsClosing s → IsClosing (closing s task)
  closing_lem s none h = h
  closing_lem s (some drain) h = close-IsClosing drain s h

  pub deliver-IsClosing : (ms : List M) (s : Session M) → IsClosing s → IsClosing (deliver ms s)
  unfolding deliver on_message
  deliver-IsClosing [] s h = h
  deliver-IsClosing (m ∷ ms) s h = deliver-IsClosing ms (on_message m s) (
      other_fields s.phase s (on_message m s) refl refl (λ e. put_closed m s.msg_queue ∙ e) (λ r. r)
        h)

  pub ticked-IsClosing : (s : Session M) (m : Option Monitor) → IsClosing s → IsClosing (ticked s m)
  ticked-IsClosing s none h = h
  ticked-IsClosing s (some m) h =
      close_if-IsClosing _ _ (other_fields s.phase s _ refl refl (λ e. e) (λ r. r) h)

  pub map_stopped :
      (f : Reader M → Reader M)
      → ((r : Reader M) → r.stopped ≡ true → (f r).stopped ≡ true)
      → (r : Option (Reader M)) → IsStopped r
      → IsStopped (map_option f r)
  map_stopped f k none h = h
  map_stopped f k (some r) h = k r h

  pub on_data_stopped :
      (bs : Bytes) (r : Reader M) → r.stopped ≡ true → (Reader.on_data bs r).stopped ≡ true
  unfolding Reader.on_data
  on_data_stopped bs r h = elim (Option-cases r.drain_buffer) [
    | inl e ↦ rw e h
    | inr (b, e) ↦ rw e h
  ]
