-- ===== src/Soup/Session.antt =====
-- `SoupSession`, `SoupClientSession` and `SoupServerSession` of src/nasdaq_protocols/soup/session.py.
-- An operation gives what it returns or raises and the session it leaves.
pub mod Client
pub mod Server
use nasdaq_protocols.Prelude.{
  ℕ, ◌+◌, Bool, true, false, not, ◌&&◌, Option, none, some, List, [], ◌∷◌, ◌++◌, if◌then◌else◌, ℤ,
  pos, negsuc, ◌+ℤ◌, ◌-ℤ◌, Result, ok, raised, attribute_error, state_error, connection_refused,
  callback_error,
}
use nasdaq_protocols.Python.Bytes.{Bytes}
use nasdaq_protocols.Python.Text.{Str}
use nasdaq_protocols.Common.Monitor
use nasdaq_protocols.Common.Session
use nasdaq_protocols.Common.Session.{Session, map_option}
use nasdaq_protocols.Soup.Core.{
  SoupMessage, login_request, login_accepted, login_rejected, sequenced_data, unsequenced_data,
  debug, client_heartbeat, server_heartbeat, end_of_session, logout_request, to_bytes, is_heartbeat,
}

-- `user` and `session` are those of the session id; `sent` is what was written to the transport.
pub record SoupSession : Type 0 where
  pub common : Session SoupMessage
  pub sequence : ℤ
  pub user : Str
  pub session : Str
  pub sent : Bytes
  -- the server's `_logged_in`, and what `on_unsequenced` and `on_debug` were called with
  pub logged_in : Bool
  pub unsequenced : List Bytes
  pub debugs : List Str

abbrev pub Outcome : Type 0
Outcome = Result (Unit {0}) × SoupSession

-- The next statement, unless an exception was raised.
infixl 5 ◌then_◌
abbrev pub ◌then_◌ : Outcome → (SoupSession → Outcome) → Outcome
(ok u, s) then_ f = f s
(raised e, s) then_ f = (raised e, s)

-- `transport.write`: a closed transport drops it, and before the connection there is none.
abbrev pub write_to : Option Bool → Bytes → SoupSession → Outcome
write_to none bs s = (raised attribute_error, s)
write_to (some false) bs s = (ok tt, s)
write_to (some true) bs s = (ok tt, record s { sent = s.sent ++ bs })

abbrev pub write : Bytes → SoupSession → Outcome
write bs s = write_to s.common.transport bs s

abbrev pub is_sequenced : SoupMessage → Bool
is_sequenced (sequenced_data payload) = true
is_sequenced _ = false

-- After the write: the local monitor is pinged, and the sequence number counts.
abbrev pub sent_msg : SoupMessage → SoupSession → SoupSession
sent_msg msg s = record s {
  common = record s.common {
    local_hb_monitor =
        if is_heartbeat msg
        then s.common.local_hb_monitor
        else map_option Monitor.ping s.common.local_hb_monitor;
  };
  sequence = if is_sequenced msg then s.sequence +ℤ pos 1 else s.sequence;
}

abbrev pub send_packed : SoupMessage → Result (ℕ × Bytes) → SoupSession → Outcome
send_packed msg (raised e) s = (raised e, s)
send_packed msg (ok (_, bs)) s = write bs s then_ λ s'. (ok tt, sent_msg msg s')

unfoldable pub send_msg : SoupMessage → SoupSession → Outcome
unfolding is_heartbeat Monitor.ping
send_msg msg s = send_packed msg (to_bytes msg) s

unfoldable pub send_debug : Str → SoupSession → Outcome
send_debug text s = send_msg (debug text) s

abbrev pub on_common : (Session SoupMessage → Session SoupMessage) → SoupSession → SoupSession
on_common f s = record s { common = f s.common }

unfoldable pub logout : SoupSession → Outcome
unfolding send_msg Session.initiate_close
logout s =
    send_msg logout_request s then_ λ s'. (ok tt, on_common (Session.initiate_close false) s')

-- `SoupSessionId.update` of a login message
abbrev pub update_id : SoupMessage → SoupSession → SoupSession
update_id (login_request user password session sequence) s = record s { user = user }
update_id (login_accepted session_id sequence) s = record s { session = session_id }
update_id _ s = s

-- SoupClientSession. `login` up to its await, and what it does with the reply.
unfoldable pub login : SoupMessage → SoupSession → Outcome
unfolding send_msg
login msg s = send_msg msg (update_id msg s)

abbrev pub with_common : SoupSession → Result (Unit {0}) × Session SoupMessage → Outcome
with_common s (r, c) = (r, record s { common = c })

unfoldable pub login_reply : SoupMessage → SoupSession → Outcome
unfolding Session.start_heartbeats Session.start_dispatching Session.close
login_reply (login_accepted session_id sequence) s =
    let s' : SoupSession = record (update_id (login_accepted session_id sequence) s) {
      sequence = sequence -ℤ pos 1;
      common = Session.start_heartbeats s.common;
    } in
    with_common s' (Session.start_dispatching s'.common)
login_reply reply s = (raised connection_refused, on_common (Session.close false) s)

unfoldable pub on_message : SoupMessage → SoupSession → SoupSession
unfolding Session.on_message
on_message msg s = record s {
  common = Session.on_message msg s.common;
  sequence = if is_sequenced msg then s.sequence +ℤ pos 1 else s.sequence;
}

unfoldable pub send_unseq_data : Bytes → SoupSession → Outcome
send_unseq_data payload s = send_msg (unsequenced_data payload) s

unfoldable pub send_heartbeat : Bool → SoupSession → Outcome
send_heartbeat is_client s = send_msg (if is_client then client_heartbeat else server_heartbeat) s

-- SoupServerSession
unfoldable pub send_seq_msg : Bytes → SoupSession → Outcome
send_seq_msg payload s = send_msg (sequenced_data payload) s

unfoldable pub end_session : SoupSession → Outcome
unfolding send_msg Session.initiate_close
end_session s =
    send_msg end_of_session s then_ λ s'. (ok tt, on_common (Session.initiate_close false) s')

abbrev pub answered : SoupMessage → SoupSession → Outcome
answered (login_accepted session_id sequence) s = (
  ok tt,
  record (update_id (login_accepted session_id sequence) s) {
    logged_in = true;
    common = Session.start_heartbeats s.common;
  },
)
answered reply s = (ok tt, on_common (Session.close false) s)

-- `on_login` and `on_unsequenced` are the subclass's; the second returns or raises.
module _ (on_login : SoupMessage → Result SoupMessage) (on_unsequenced : Bytes → Bool) where
  abbrev pub reply_to : Result SoupMessage → SoupSession → Outcome
  reply_to (raised e) s = (raised e, s)
  reply_to (ok reply) s = send_msg reply s then_ answered reply

  unfoldable pub handle_login : SoupMessage → SoupSession → Outcome
  unfolding send_msg
  handle_login msg s = if s.logged_in then (raised state_error, s) else reply_to (on_login msg) s

  unfoldable pub on_msg : SoupMessage → SoupSession → Outcome
  unfolding handle_login Session.close
  on_msg (login_request user password session sequence) s =
      let msg = login_request user password session sequence in handle_login msg (update_id msg s)
  on_msg (unsequenced_data payload) s = (
    if on_unsequenced payload then ok tt else raised callback_error,
    record s { unsequenced = s.unsequenced ++ payload ∷ [] },
  )
  on_msg (debug text) s = (ok tt, record s { debugs = s.debugs ++ text ∷ [] })
  on_msg logout_request s = (ok tt, on_common (Session.close false) s)
  on_msg msg s = (ok tt, s)
