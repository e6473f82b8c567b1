-- ===== src/Soup/Sync/Deadlock.antt =====
-- `SoupClientSessionSync.close` of soup/session.py while the session is already being closed.
use nasdaq_protocols.Prelude.{◌≡◌, refl, ap, ◌∙◌, false, none, some, List, [], ◌∷◌}
use nasdaq_protocols.Common.Session
use nasdaq_protocols.Common.Session.{Session}
use nasdaq_protocols.Soup.Core.{SoupMessage}
use nasdaq_protocols.Soup.Session.{SoupSession, on_common}
use nasdaq_protocols.Soup.Sync.{
  caller_thread, closing, requesting, free, in_close_coro, Sync, Step, caller_, request_, closing_,
  on_close_, start, close, run_loop, apply, run,
}
use nasdaq_protocols.Soup.Sync.Turns.{
  initiated, opened, asked_session, queue_stopped, reader_stopped, in_coro, make, stops_queue,
  stops_reader, calls_coro,
}

module _ (s : SoupSession) where
  -- `initiate_close` has been called by the session itself, as when the peer ends it.
  abbrev pub closing_already : Sync
  closing_already =
      let y = start s in record y { session = on_common (Session.initiate_close false) y.session }

  blocked : Sync
  blocked = make s (in_coro s) (some caller_thread) (requesting closing) in_close_coro false

  stuck : (e : Step) → apply e blocked ≡ blocked
  unfolding apply blocked
  stuck caller_ = refl
  stuck request_ = refl
  stuck closing_ = refl
  stuck on_close_ = refl

  stuck_for_ever : (es : List Step) → run es blocked ≡ blocked
  unfolding run
  stuck_for_ever [] = refl
  stuck_for_ever (e ∷ es) = ap (run es) (stuck e) ∙ stuck_for_ever es

  -- A `close` on a session that closes already can block for ever: it takes the lock before the loop
  -- comes to `on_close_coro`, which then waits for the lock in the loop's thread, while the caller holds
  -- it and waits for the loop. Whatever steps follow, the caller waits for its request, and the event
  -- is not set.
  pub close_blocks :
      (es : List Step)
      → s.common.closed ≡ false
      → s.common.closing_task ≡ none
      → ((run
            (caller_ ∷ caller_ ∷ closing_ ∷ closing_ ∷ closing_ ∷ es)
            (close closing_already)).caller
          ≡ requesting closing)
        × ((run
              (caller_ ∷ caller_ ∷ closing_ ∷ closing_ ∷ closing_ ∷ es)
              (close closing_already)).closed_event
            ≡ false)
  unfolding run start apply blocked
  close_blocks es open_ no_task =
      let at_request : Session SoupMessage → Sync =
        λ x. make s x (some caller_thread) (requesting closing) free false in
      let asked =
        ap (λ (x : Session SoupMessage). run es (run_loop (run_loop (run_loop (at_request x)))))
          (initiated (opened s) open_ no_task) in
      let all =
        asked
        ∙ ap (λ (y : Sync). run es (run_loop (run_loop y)))
            (stops_queue s open_ no_task (at_request (asked_session s)) refl)
        ∙ ap (λ (y : Sync). run es (run_loop y))
            (stops_reader s (at_request (queue_stopped s)) refl)
        ∙ ap (run es) (calls_coro s (at_request (reader_stopped s)) refl)
        ∙ stuck_for_ever es in
      (ap (λ (y : Sync). y.caller) all, ap (λ (y : Sync). y.closed_event) all)
