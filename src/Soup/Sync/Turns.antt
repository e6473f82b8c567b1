-- ===== src/Soup/Sync/Turns.antt =====
-- The turns of the task that closes the session of a `SoupClientSessionSync` of soup/session.py.
use nasdaq_protocols.Prelude.{
  ◌+◌, ◌≡◌, refl, sym, ap, ◌∙◌, arith, Bool, true, false, not, Option, none, some, ltb,
}
use nasdaq_protocols.Common.Session
use nasdaq_protocols.Common.Session.{Session, shut, finish_close, stop_reader, call_on_close, done}
use nasdaq_protocols.Soup.Core.{SoupMessage}
use nasdaq_protocols.Soup.Session.{SoupSession}
use nasdaq_protocols.Soup.Sync.{
  Thread, CallerAt, LoopAt, in_close_coro, Sync, closed_by, closing_turn, coro_ended,
}

pub initiated :
    (s : Session SoupMessage)
    → s.closed ≡ false
    → s.closing_task ≡ none
    → Session.initiate_close false s ≡ record s { closing_task = some false }
unfolding Session.initiate_close
initiated s c t = simp (c, t)

-- The first turn of the closing task of an open session, and a turn with no task.
pub begins :
    (s : Session SoupMessage)
    → s.closed ≡ false
    → closing_turn (record s { closing_task = some false })
      ≡ finish_close (shut (record s { closing_task = some false }))
unfolding closing_turn Session.run_closing Session.close
begins s c = simp c

no_turn : (s : Session SoupMessage) → s.closed ≡ false → s.closing_task ≡ none → closing_turn s ≡ s
unfolding closing_turn Session.run_closing
no_turn s c t = simp (c, t)

nothing_more :
    (y : Sync) (c : Session SoupMessage)
    → c.close_calls ≡ y.session.common.close_calls
    → closed_by y c ≡ record y { session = record y.session { common = c } }
nothing_more y c e =
    let same : ltb y.session.common.close_calls c.close_calls ≡ false = ground arith in rw same refl

module _ (s : SoupSession) where
  abbrev pub opened : Session SoupMessage
  opened = record s.common { on_close_coro = true }

  abbrev pub asked_session : Session SoupMessage
  asked_session = record opened { closing_task = some false }

  -- The session after each turn of its closing task, and at the end of `close`.
  pub queue_stopped : Session SoupMessage
  queue_stopped = finish_close (shut asked_session)

  pub reader_stopped : Session SoupMessage
  reader_stopped = stop_reader queue_stopped

  pub in_coro : Session SoupMessage
  in_coro = call_on_close reader_stopped

  pub closed_session : Session SoupMessage
  closed_session = record in_coro { phase = done }

  abbrev pub make : Session SoupMessage → Option Thread → CallerAt → LoopAt → Bool → Sync
  make common lock at_ loop ended = record {
    session = record s { common = common };
    bridge_running = not ended;
    closed_event = ended;
    close_lock = lock;
    caller = at_;
    loop = loop;
  }

  pub stops_reader :
      (y : Sync)
      → y.session.common ≡ queue_stopped
      → closed_by y (closing_turn queue_stopped)
        ≡ record y { session = record y.session { common = reader_stopped } }
  unfolding closing_turn Session.finish_step queue_stopped reader_stopped finish_close stop_reader
  stops_reader y e =
      nothing_more y reader_stopped (ap (λ (x : Session SoupMessage). x.close_calls) (sym e))

  pub calls_coro :
      (y : Sync)
      → y.session.common ≡ reader_stopped
      → closed_by y (closing_turn reader_stopped)
        ≡ record y { session = record y.session { common = in_coro }; loop = in_close_coro }
  unfolding closing_turn Session.finish_step queue_stopped reader_stopped in_coro finish_close
      stop_reader call_on_close
  calls_coro y e =
      let calls : y.session.common.close_calls ≡ s.common.close_calls =
        ap (λ (x : Session SoupMessage). x.close_calls) e in
      let more : ltb y.session.common.close_calls (s.common.close_calls + 1) ≡ true =
        ground arith in
      rw more refl

  pub coro_end : coro_ended in_coro ≡ closed_session
  unfolding coro_ended Session.finish_step closed_session in_coro reader_stopped queue_stopped
      call_on_close stop_reader finish_close
  coro_end = refl

  pub ends_closed : closed_session.closed ≡ true
  unfolding closed_session in_coro reader_stopped queue_stopped call_on_close stop_reader
      finish_close
  ends_closed = refl

  module _ (open_ : s.common.closed ≡ false) (no_task : s.common.closing_task ≡ none) where
    pub idle : (y : Sync) → y.session.common ≡ opened → closed_by y (closing_turn opened) ≡ y
    idle y e =
        ap (closed_by y) (no_turn opened open_ no_task ∙ sym e)
        ∙ nothing_more y y.session.common refl

    pub stops_queue :
        (y : Sync)
        → y.session.common ≡ asked_session
        → closed_by y (closing_turn asked_session)
          ≡ record y { session = record y.session { common = queue_stopped } }
    unfolding queue_stopped finish_close
    stops_queue y e =
        ap (closed_by y) (begins opened open_)
        ∙ nothing_more y queue_stopped (ap (λ (x : Session SoupMessage). x.close_calls) (sym e))
