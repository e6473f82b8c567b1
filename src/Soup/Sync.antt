-- ===== src/Soup/Sync.antt =====
-- `SoupClientSessionSync` of src/nasdaq_protocols/soup/session.py, with two threads: that of a caller
-- of `close` or `logout`, and that of the bridge's event loop. `close` and `logout` are cut where the
-- caller may block: at `close_lock`, at `execute_sync`, at the event and at the join.
pub mod Turns
pub mod Closing
pub mod Deadlock
use nasdaq_protocols.Prelude.{
  ℕ, Bool, true, false, not, Option, none, some, List, [], ◌∷◌, ltb, if◌then◌else◌, Result, ok,
  raised, Error, state_error,
}
use nasdaq_protocols.Python.Bytes.{Bytes}
use nasdaq_protocols.Python.Text.{Str}
use nasdaq_protocols.Common.Session
use nasdaq_protocols.Common.Session.{Session, Phase, draining_reader, draining_queue, in_on_close}
use nasdaq_protocols.Soup.Core.{SoupMessage}
use nasdaq_protocols.Soup.Session as SoupSessions
use nasdaq_protocols.Soup.Session.{SoupSession, Outcome, on_common}

pub data Thread : Type 0 where
  caller_thread loop_thread : Thread

-- The call that the caller makes.
pub data Call : Type 0 where
  closing logging_out : Call

-- How far it is: at the lock, at the test of the event, waiting for the loop to run its request, with
-- the request's result, waiting for the event, at the join, returned, or left by an exception.
pub data CallerAt : Type 0 where
  no_call waiting joining returned : CallerAt
  entering testing requesting : Call → CallerAt
  requested : Result (Unit {0}) → CallerAt
  failed : Error → CallerAt

-- The loop is free, or it is in `on_close_coro` at the lock, and runs nothing else then.
pub data LoopAt : Type 0 where
  free in_close_coro : LoopAt

pub record Sync : Type 0 where
  pub session : SoupSession
  -- whether the bridge still runs its loop
  pub bridge_running : Bool
  pub closed_event : Bool
  -- who holds the lock
  pub close_lock : Option Thread
  pub caller : CallerAt
  pub loop : LoopAt

-- `__attrs_post_init__` puts its own `on_close_coro` in.
unfoldable pub start : SoupSession → Sync
start s = record {
  session = record s { common = record s.common { on_close_coro = true } };
  bridge_running = true;
  closed_event = false;
  close_lock = none;
  caller = no_call;
  loop = free;
}

-- `bridge.execute_sync` of a function of the session
abbrev pub executed : Sync → Outcome → Result (Unit {0}) × Sync
executed y (r, s) = (r, record y { session = s })

unfoldable pub send_msg : SoupMessage → Sync → Result (Unit {0}) × Sync
unfolding SoupSessions.send_msg
send_msg msg y = executed y (SoupSessions.send_msg msg y.session)

unfoldable pub send_debug : Str → Sync → Result (Unit {0}) × Sync
unfolding SoupSessions.send_debug
send_debug text y = executed y (SoupSessions.send_debug text y.session)

unfoldable pub send_unseq_data : Bytes → Sync → Result (Unit {0}) × Sync
unfolding SoupSessions.send_unseq_data
send_unseq_data payload y = executed y (SoupSessions.send_unseq_data payload y.session)

-- `close` and `logout` begin.
abbrev pub close : Sync → Sync
close y = record y { caller = entering closing }

abbrev pub logout : Sync → Sync
logout y = record y { caller = entering logging_out }

-- with self.close_lock: it is taken if it is free, and else the caller blocks
abbrev pub caller_locks : Call → Option Thread → Sync → Sync
caller_locks c none y = record y { close_lock = some caller_thread; caller = testing c }
caller_locks c (some t) y = y

-- The end of the `with` block.
abbrev pub unlocked : CallerAt → Sync → Sync
unlocked at_ y = record y { close_lock = none; caller = at_ }

-- `_must_be_active` of the bridge raises StateError.
abbrev pub asks : Call → Sync → Sync
asks c y =
    if y.bridge_running then record y { caller = requesting c } else unlocked (failed state_error) y

abbrev pub caller_step_at : CallerAt → Sync → Sync
caller_step_at (entering c) y = caller_locks c y.close_lock y
caller_step_at (testing c) y = if y.closed_event then unlocked waiting y else asks c y
caller_step_at (requested (ok u)) y = unlocked waiting y
caller_step_at (requested (raised e)) y = unlocked (failed e) y
caller_step_at waiting y = if y.closed_event then record y { caller = joining } else y
caller_step_at joining y = if y.bridge_running then y else record y { caller = returned }
caller_step_at _ y = y

unfoldable pub caller_step : Sync → Sync
caller_step y = caller_step_at y.caller y

-- What the caller has asked for, in the loop.
abbrev pub answered : Sync → Outcome → Sync
answered y (r, s) = record y { session = s; caller = requested r }

abbrev pub run_request_at : CallerAt → Sync → Sync
run_request_at (requesting closing) y =
    answered y (ok tt, on_common (Session.initiate_close false) y.session)
run_request_at (requesting logging_out) y = answered y (SoupSessions.logout y.session)
run_request_at _ y = y

-- The loop runs while it has not been stopped, and only where it is free.
abbrev pub if_free : LoopAt → Sync → (Sync → Sync) → Sync
if_free free y step = if y.bridge_running then step y else y
if_free in_close_coro y step = y

unfoldable pub run_request : Sync → Sync
unfolding Session.initiate_close SoupSessions.logout
run_request y = if_free y.loop y (λ y. run_request_at y.caller y)

-- The task of `initiate_close`, which calls `on_close_coro` at its end: `close` begins, and each
-- turn of the loop then takes it to its next await.
abbrev pub closing_turn_at : Phase → Session SoupMessage → Session SoupMessage
closing_turn_at draining_reader s = Session.close_step s
closing_turn_at draining_queue s = Session.close_step s
closing_turn_at in_on_close s = s
closing_turn_at _ s = Session.finish_step s

unfoldable pub closing_turn : Session SoupMessage → Session SoupMessage
unfolding Session.run_closing Session.close_step Session.finish_step
closing_turn s = if s.closed then closing_turn_at s.phase s else Session.run_closing s

abbrev pub closed_by : Sync → Session SoupMessage → Sync
closed_by y c =
    let y' : Sync = record y { session = record y.session { common = c } } in
    if ltb y.session.common.close_calls c.close_calls
    then record y' { loop = in_close_coro }
    else y'

unfoldable pub run_loop : Sync → Sync
unfolding closing_turn
run_loop y = if_free y.loop y (λ y. closed_by y (closing_turn y.session.common))

-- The injected `on_close_coro`: it takes the lock if that is free, and else the loop's thread blocks.
-- It has no await, so that `close` ends with it.
unfoldable pub coro_ended : Session SoupMessage → Session SoupMessage
unfolding Session.finish_step
coro_ended s = Session.finish_step s

abbrev pub ended : Sync → Sync
ended y =
    let y' : Sync = record y { session = on_common coro_ended y.session; loop = free } in
    if y.closed_event then y' else record y' { bridge_running = false; closed_event = true }

abbrev pub on_close_locks : Option Thread → Sync → Sync
on_close_locks none y = ended y
on_close_locks (some t) y = y

abbrev pub on_close_at : LoopAt → Sync → Sync
on_close_at free y = y
on_close_at in_close_coro y = on_close_locks y.close_lock y

unfoldable pub on_close : Sync → Sync
unfolding coro_ended
on_close y = on_close_at y.loop y

unfoldable pub is_closed : Sync → Bool
is_closed y = y.session.common.closed

-- The steps of the two threads, in any order.
pub data Step : Type 0 where
  caller_ request_ closing_ on_close_ : Step

unfoldable pub apply : Step → Sync → Sync
unfolding caller_step run_request run_loop on_close
apply caller_ y = caller_step y
apply request_ y = run_request y
apply closing_ y = run_loop y
apply on_close_ y = on_close y

unfoldable pub run : List Step → Sync → Sync
unfolding apply
run [] y = y
run (e ∷ es) y = run es (apply e y)
