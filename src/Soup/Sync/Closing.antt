-- ===== src/Soup/Sync/Closing.antt =====
-- The waits of `SoupClientSessionSync.close` of soup/session.py, whatever the order of its steps.
use nasdaq_protocols.Prelude.{true, false, none, some, List, [], ◌∷◌, ok}
use nasdaq_protocols.Common.Session.{Session}
use nasdaq_protocols.Soup.Session.{SoupSession}
use nasdaq_protocols.Soup.Sync.{
  caller_thread, closing, entering, testing, requesting, requested, waiting, joining, returned,
  free, in_close_coro, Sync, Step, caller_, request_, closing_, on_close_,
}
use nasdaq_protocols.Soup.Sync.Turns.{
  opened, asked_session, queue_stopped, reader_stopped, in_coro, closed_session, make,
}

-- What a call of `close` and the loop have come to, of a session that was active.
data Stage : Type 0 where
  at_lock at_test at_request : Stage
  asked asked_queue asked_reader asked_closed : Stage
  waits waits_queue waits_reader waits_closed waits_ended : Stage
  joins done : Stage

-- Where a step leads.
abbrev next : Step → Stage → Stage
next caller_ at_lock = at_test
next caller_ at_test = at_request
next request_ at_request = asked
next on_close_ waits_closed = waits_ended
next caller_ waits_ended = joins
next caller_ joins = done
next caller_ asked = waits
next caller_ asked_queue = waits_queue
next caller_ asked_reader = waits_reader
next caller_ asked_closed = waits_closed
next closing_ asked = asked_queue
next closing_ asked_queue = asked_reader
next closing_ asked_reader = asked_closed
next closing_ waits = waits_queue
next closing_ waits_queue = waits_reader
next closing_ waits_reader = waits_closed
next _ k = k

abbrev follow : List Step → Stage → Stage
follow [] k = k
follow (e ∷ es) k = follow es (next e k)

-- A step that goes on, and the steps after which the call has returned.
abbrev rest : Stage → List Step
rest at_lock =
    caller_ ∷ caller_ ∷ request_ ∷ caller_ ∷ closing_ ∷ closing_ ∷ closing_ ∷ on_close_ ∷ caller_
    ∷ caller_ ∷ []
rest at_test =
    caller_ ∷ request_ ∷ caller_ ∷ closing_ ∷ closing_ ∷ closing_ ∷ on_close_ ∷ caller_ ∷ caller_
    ∷ []
rest at_request =
    request_ ∷ caller_ ∷ closing_ ∷ closing_ ∷ closing_ ∷ on_close_ ∷ caller_ ∷ caller_ ∷ []
rest asked = caller_ ∷ closing_ ∷ closing_ ∷ closing_ ∷ on_close_ ∷ caller_ ∷ caller_ ∷ []
rest asked_queue = caller_ ∷ closing_ ∷ closing_ ∷ on_close_ ∷ caller_ ∷ caller_ ∷ []
rest asked_reader = caller_ ∷ closing_ ∷ on_close_ ∷ caller_ ∷ caller_ ∷ []
rest asked_closed = caller_ ∷ on_close_ ∷ caller_ ∷ caller_ ∷ []
rest waits = closing_ ∷ closing_ ∷ closing_ ∷ on_close_ ∷ caller_ ∷ caller_ ∷ []
rest waits_queue = closing_ ∷ closing_ ∷ on_close_ ∷ caller_ ∷ caller_ ∷ []
rest waits_reader = closing_ ∷ on_close_ ∷ caller_ ∷ caller_ ∷ []
rest waits_closed = on_close_ ∷ caller_ ∷ caller_ ∷ []
rest waits_ended = caller_ ∷ caller_ ∷ []
rest joins = caller_ ∷ []
rest done = []

module _ (s : SoupSession) where
  abbrev state : Stage → Sync
  state at_lock = make s (opened s) none (entering closing) free false
  state at_test = make s (opened s) (some caller_thread) (testing closing) free false
  state at_request = make s (opened s) (some caller_thread) (requesting closing) free false
  state asked = make s (asked_session s) (some caller_thread) (requested (ok tt)) free false
  state asked_queue = make s (queue_stopped s) (some caller_thread) (requested (ok tt)) free false
  state asked_reader = make s (reader_stopped s) (some caller_thread) (requested (ok tt)) free false
  state asked_closed =
      make s (in_coro s) (some caller_thread) (requested (ok tt)) in_close_coro false
  state waits = make s (asked_session s) none waiting free false
  state waits_queue = make s (queue_stopped s) none waiting free false
  state waits_reader = make s (reader_stopped s) none waiting free false
  state waits_closed = make s (in_coro s) none waiting in_close_coro false
  state waits_ended = make s (closed_session s) none waiting free true
  state joins = make s (closed_session s) none joining free true
  state done = make s (closed_session s) none returned free true
