-- ===== src/Tests/SessionTests.antt =====
-- The theorems on queues, monitors and sessions at concrete runs: common/message_queue.py,
-- common/session.py and soup/session.py.
use nasdaq_protocols.Prelude.{
  ℕ, ◌≡◌, refl, Bool, true, false, none, some, List, [], ◌∷◌, ◌++◌, arith, ◌+ℤ◌, pos, Result, ok,
  raised, end_of_queue,
}
use nasdaq_protocols.Python.Bytes.{Bytes, unsigned_value}
use nasdaq_protocols.Python.Decimal.{str_int}
use nasdaq_protocols.Python.Text.{transcode}
use nasdaq_protocols.Common.Buffer.{extend, advance}
use nasdaq_protocols.Common.Reader
use nasdaq_protocols.Common.Reader.{Reader}
use nasdaq_protocols.Common.Reader.Stream
use nasdaq_protocols.Common.Reader.Stream.{messages}
use nasdaq_protocols.Common.Reader.Schedule as ReaderSchedule
use nasdaq_protocols.Common.Reader.Schedule.{arrive}
use nasdaq_protocols.Common.Queue
use nasdaq_protocols.Common.Queue.{Queue, finish_read, get_nowait, leave_drain, stop}
use nasdaq_protocols.Common.Queue.Schedule
use nasdaq_protocols.Common.Queue.Schedule.{
  put_, get_nowait_, get_, finish_read_, enter_drain_, leave_drain_, stop_, start_, dispatch_,
  pending, puts,
}
use nasdaq_protocols.Common.Queue.Order.{run-IsFifo}
use nasdaq_protocols.Common.Queue.Stop.{reads, returned, stop-Drains}
use nasdaq_protocols.Common.Queue.Stale.{leave_drain_stale}
use nasdaq_protocols.Common.Monitor.{Monitor, ticks}
use nasdaq_protocols.Common.Monitor.Trips.{trips_after}
use nasdaq_protocols.Common.Session.{Session, new_session, connection_made, close}
use nasdaq_protocols.Common.Session.Schedule as SessionSchedule
use nasdaq_protocols.Common.Session.Schedule.{data_, poll, lost, run_closing_, queue_, close_}
use nasdaq_protocols.Common.Session.Closing.{ClosesOnce, run-ClosesOnce}
use nasdaq_protocols.Common.Session.Failure.{IsFailed, nested_drain_never_closes}
use nasdaq_protocols.Common.Session.Delivery.{received, connected, run_delivers}
use nasdaq_protocols.Soup.Core.{
  SoupMessage, login_request, login_accepted, unsequenced_data, class_by_indicator,
  unpack_sequenced, payload_of, from_bytes, to_bytes, is_logout, is_heartbeat,
}
use nasdaq_protocols.Soup.Reader.{soup_framing, deserialize, deserialized}
use nasdaq_protocols.Soup.Session.{SoupSession, on_msg, handle_login, send_msg}
use nasdaq_protocols.Soup.Session.Client.{send_all, receive_all, sequenced, sequences_agree}
use nasdaq_protocols.Soup.Session.Server.{Occurs, Accepted, serve, serve_login}

-- Messages that are numbers, 0 among them no message.
abbrev all_true : ℕ → Bool
all_true _ = true

abbrev work : List (Schedule.Event ℕ)
work =
    put_ 1
    ∷ get_
    ∷ put_ 2
    ∷ enter_drain_
    ∷ put_ 3
    ∷ start_ true
    ∷ dispatch_
    ∷ leave_drain_ false
    ∷ dispatch_
    ∷ put_ 4
    ∷ stop_
    ∷ []

run-IsFifo_example :
    (Schedule.run all_true work Queue.empty).taken
      ++ pending (Schedule.run all_true work Queue.empty)
    ≡ 1 ∷ 2 ∷ 3 ∷ 4 ∷ []
unfolding puts
run-IsFifo_example =
    run-IsFifo all_true (λ _. refl) work
      (refl, (refl, (refl, (refl, (refl, (refl, (refl, (refl, (refl, (refl, (refl, tt)))))))))))

abbrev two_left : Queue ℕ
two_left = record Queue.empty { msg_queue = 5 ∷ 6 ∷ [] }

stop-Drains_example :
    (q : Queue ℕ) × (reads 2 (stop two_left) ≡ (returned (5 ∷ 6 ∷ []), q))
    × (get_nowait q ≡ (raised end_of_queue, q))
stop-Drains_example = stop-Drains two_left refl

-- A reader waits on the queue while new messages are buffered.
abbrev waiting : Queue ℕ
waiting = record Queue.empty { recv_task = some 0; buffer_msg_queue = some (7 ∷ []) }

leave_drain_stale_example :
    (finish_read (Schedule.run all_true (put_ 8 ∷ finish_read_ ∷ []) (leave_drain false waiting))).0
    ≡ none
leave_drain_stale_example =
    leave_drain_stale all_true waiting 0 (7 ∷ []) (put_ 8 ∷ finish_read_ ∷ []) refl (omega arith)
      refl (refl, (refl, tt))

abbrev monitor : Monitor
monitor = record {
  stop_when_no_activity = true;
  tolerate_missed_heartbeats = 2;
  pinged = true;
  missed_heartbeats = 1;
  is_running = true;
  no_activity = 0;
}

trips_after_example :
    ((ticks 2 monitor).no_activity ≡ 0)
    × ((ticks 2 monitor).is_running ≡ true)
    × ((ticks 3 monitor).no_activity ≡ 1)
    × ((ticks 3 monitor).is_running ≡ false)
trips_after_example = trips_after monitor 1 refl refl refl

abbrev no_false : SoupMessage → Bool
no_false _ = true

abbrev hello_bytes : Bytes
hello_bytes = 0 ∷ 3 ∷ b'S' ∷ b'h' ∷ b'i' ∷ []

abbrev traffic : List (SessionSchedule.Event SoupMessage)
traffic =
    data_ (0 ∷ 3 ∷ b'S' ∷ [])
    ∷ poll
    ∷ data_ (b'h' ∷ b'i' ∷ [])
    ∷ poll
    ∷ queue_ get_nowait_
    ∷ lost
    ∷ run_closing_
    ∷ []

run_delivers_example :
    (rest : List SoupMessage) × (messages soup_framing hello_bytes
      ≡ (SessionSchedule.run soup_framing no_false traffic
          (connected soup_framing no_false false true false true)).msg_queue.taken
        ++ (pending
              (SessionSchedule.run soup_framing no_false traffic
                (connected soup_framing no_false false true false true)).msg_queue
            ++ rest))
unfolding received
run_delivers_example =
    run_delivers soup_framing no_false (λ _. refl) false true false true traffic
      (refl, (refl, (refl, (refl, (refl, (refl, (refl, tt)))))))

run-ClosesOnce_example : ClosesOnce soup_framing no_false (
    SessionSchedule.run soup_framing no_false
      (lost ∷ close_ false ∷ run_closing_ ∷ [])
      (connection_made (new_session true true true true)).1)
run-ClosesOnce_example =
    run-ClosesOnce soup_framing no_false true true true true
      (lost ∷ close_ false ∷ run_closing_ ∷ [])

-- The application drains the session when the connection is lost.
abbrev draining : Reader SoupMessage
draining = record Reader.start { drain_mode = some false; drain_buffer = some [] }

abbrev drained_session : Session SoupMessage
drained_session = record (new_session true true true true) {
  reader = some draining;
  transport = some true;
}

nested_drain_never_closes_example :
    IsFailed 0
      (SessionSchedule.run soup_framing no_false (close_ false ∷ []) (close true drained_session))
nested_drain_never_closes_example =
    nested_drain_never_closes soup_framing no_false drained_session draining false
      (close_ false ∷ []) refl refl refl

abbrev soup_session : SoupSession
soup_session = record {
  common = record (new_session true true true true) { transport = some true };
  sequence = pos 1;
  user = [];
  session = [];
  sent = [];
  logged_in = false;
  unsequenced = [];
  debugs = [];
}

abbrev payloads : List Bytes
payloads = (b'h' ∷ b'i' ∷ []) ∷ []

abbrev chunks : List ReaderSchedule.Event
chunks = arrive hello_bytes ∷ ReaderSchedule.poll ∷ []

payloads_sent : (send_all payloads soup_session).1.sent ≡ hello_bytes
unfolding send_all send_msg to_bytes
payloads_sent = refl

chunks-run : Reader.is_running (ReaderSchedule.run soup_framing no_false chunks Reader.start) ≡ true
unfolding ReaderSchedule.run ReaderSchedule.apply Reader.on_data extend Reader.process
    Reader.process_1 deserialize deserialized from_bytes unsigned_value advance is_logout
    is_heartbeat class_by_indicator unpack_sequenced payload_of
chunks-run = refl

chunks-pending : Stream.pending (ReaderSchedule.run soup_framing no_false chunks Reader.start) ≡ []
unfolding ReaderSchedule.run ReaderSchedule.apply Reader.on_data extend Reader.process
    Reader.process_1 deserialize deserialized from_bytes unsigned_value advance is_logout
    is_heartbeat class_by_indicator unpack_sequenced payload_of
chunks-pending = refl

sequences_agree_example :
    ((send_all payloads soup_session).0 ≡ ok tt)
    × ((send_all payloads soup_session).1.sequence ≡ pos 1 +ℤ pos 1)
    × ((ReaderSchedule.run soup_framing no_false chunks Reader.start).dispatched
        ≡ sequenced payloads)
    × ((receive_all
          (ReaderSchedule.run soup_framing no_false chunks Reader.start).dispatched
          soup_session).sequence
        ≡ pos 1 +ℤ pos 1)
sequences_agree_example =
    sequences_agree payloads soup_session soup_session no_false chunks (omega arith, tt) refl refl
      payloads_sent chunks-run chunks-pending

abbrev request : SoupMessage
request = login_request (b'a' ∷ []) (b'b' ∷ []) [] (b'1' ∷ [])

abbrev accept_all : SoupMessage → Result SoupMessage
accept_all msg = ok (login_accepted (b's' ∷ []) (pos 1))

abbrev handles : Bytes → Bool
handles payload = true

request_accepted :
    (serve accept_all handles (unsequenced_data [] ∷ request ∷ []) soup_session).logged_in ≡ true
unfolding serve on_msg handle_login send_msg to_bytes transcode str_int
request_accepted = refl

serve_login_example :
    (m : SoupMessage) × Occurs m (unsequenced_data [] ∷ request ∷ [])
    × Accepted accept_all handles m
serve_login_example =
    serve_login accept_all handles (unsequenced_data [] ∷ request ∷ []) soup_session refl
      request_accepted
