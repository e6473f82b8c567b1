-- ===== src/Fix/Session.antt =====
-- `FixSession`, `Fix44Session` and `Fix50Session` of src/nasdaq_protocols/fix/session.py. What is sent
-- is completed by begin string, body length, message type and checksum.
pub mod Completion
pub mod Delivery
pub mod Arrival
pub mod Counting
use nasdaq_protocols.Prelude.{
  ℕ, suc, ◌+◌, ◌-◌, ◌%◌, Bool, true, false, ◌&&◌, Option, none, some, List, [], ◌∷◌, ◌++◌,
  if◌then◌else◌, ℤ, pos, ◌+ℤ◌, Result, ok, raised, type_error, attribute_error, connection_refused,
  ◌>>=◌, length, replicate,
}
use nasdaq_protocols.Python.Bytes.{Bytes}
use nasdaq_protocols.Python.Text.{Str, codes, str_equal}
use nasdaq_protocols.Python.Decimal.{str_nat}
use nasdaq_protocols.Common.Monitor
use nasdaq_protocols.Common.Session as Common
use nasdaq_protocols.Common.Session.{Session, map_option}
use nasdaq_protocols.Fix.Field
use nasdaq_protocols.Fix.Field.{Floats, Atom, text, int, soh}
use nasdaq_protocols.Fix.Segment.{Values, empty}
use nasdaq_protocols.Fix.Access
use nasdaq_protocols.Fix.Access.{
  FieldDefs, def_by_tag, Given, Got, of_field, of_container, set_attr, get_attr, validate,
}
use nasdaq_protocols.Fix.Message as Messages
use nasdaq_protocols.Fix.Message.{MessageClass, MessageDefs, Message, class_of, is_heartbeat}

-- Fix44Session and Fix50Session
pub data Version : Type 0 where
  fix44 fix50 : Version

abbrev pub begin_string : Version → Str
begin_string fix44 = codes "FIX.4.4"
begin_string fix50 = codes "FIXT.1.1"

-- reduce(add, data)
abbrev pub sum_bytes : Bytes → ℕ
sum_bytes [] = 0
sum_bytes (b ∷ bs) = b + sum_bytes bs

-- str(n).rjust(3, '0')
abbrev pub three_digits : ℕ → Str
three_digits n = replicate (3 - length (str_nat n)) b'0' ++ str_nat n

module _ (fl : Floats) (defs : FieldDefs) where
  -- Field.from_tag_value(tag, value).to_bytes()[1] + SOH
  unfoldable pub field_bytes : ℤ → Atom (Floats.Float fl) → Result Bytes
  field_bytes tag value = do
    c ← def_by_tag defs tag
    v ← Field.from_value fl c value
    (_, bs) ← Field.to_bytes fl c v
    ok (bs ++ soh ∷ [])

  -- data[0:0] = field_bytes
  abbrev pub in_front : ℤ → Atom (Floats.Float fl) → Bytes → Result Bytes
  in_front tag value rest = do bs ← field_bytes tag value; ok (bs ++ rest)

  unfoldable pub prepare_complete_msg : Version → Message (Floats.Float fl) → Result Bytes
  prepare_complete_msg version msg = do
    (_, body) ← Messages.to_bytes fl msg
    typed ← in_front (pos 35) (text msg.cls.msg_type) body
    sized ← in_front (pos 9) (int (pos (length typed))) typed
    whole ← in_front (pos 8) (text (begin_string version)) sized
    checksum ← field_bytes (pos 10) (text (three_digits (sum_bytes whole % 256)))
    ok (whole ++ checksum)

-- `sequence` is the iterator once `login` has set it, before that the int 1, which is none. `sent` is
-- what was written to the transport.
pub record FixSession (F : Type 0) : Type 0 where
  pub common : Session (Message F)
  pub version : Version
  pub sequence : Option ℤ
  pub username : Got F
  pub sender_comp_id : Given F
  pub sender_sub_id : Given F
  pub target_comp_id : Given F
  pub sent : Bytes

-- A call that sends changes the message, too.
pub record Sending (F : Type 0) : Type 0 where
  pub session : FixSession F
  pub msg : Message F

abbrev pub Outcome : Type 0 → Type 0
Outcome S = Result (Unit {0}) × S

infixl 5 ◌then_◌
abbrev pub ◌then_◌ : {S : Type 0} → Outcome S → (S → Outcome S) → Outcome S
(ok u, s) then_ f = f s
(raised e, s) then_ f = (raised e, s)

module _ {F : Type 0} where
  abbrev pub header_set : Sending F → Result (Values F) → Outcome (Sending F)
  header_set s (raised e) = (raised e, s)
  header_set s (ok vs) = (ok tt, record s { msg = record s.msg { header = vs } })

  abbrev pub checked : Sending F → Result (Unit {0}) → Outcome (Sending F)
  checked s (raised e) = (raised e, s)
  checked s (ok u) = (ok tt, s)

  -- `transport.write`: a closed transport drops it, and before the connection there is none.
  abbrev pub write_to : Option Bool → Bytes → Sending F → Outcome (Sending F)
  write_to none bs s = (raised attribute_error, s)
  write_to (some false) bs s = (ok tt, s)
  write_to (some true) bs s =
      (ok tt, record s { session = record s.session { sent = s.session.sent ++ bs } })

  abbrev pub write_if : Result Bytes → Sending F → Outcome (Sending F)
  write_if (raised e) s = (raised e, s)
  write_if (ok bs) s = write_to s.session.common.transport bs s

  abbrev pub pinged : Sending F → Sending F
  pinged s = record s {
    session = record s.session {
      common = record s.session.common {
        local_hb_monitor =
            if is_heartbeat s.msg
            then s.session.common.local_hb_monitor
            else map_option Monitor.ping s.session.common.local_hb_monitor;
      };
    };
  }

module _ (fl : Floats) (defs : FieldDefs) where
  -- msg.Header.name = given
  abbrev pub set_header :
      Str
      → Given (Floats.Float fl)
      → Sending (Floats.Float fl)
      → Outcome (Sending (Floats.Float fl))
  set_header name given s = header_set s (set_attr fl defs s.msg.cls.header name given s.msg.header)

  -- msg.Header.MsgSeqNum = next(self.sequence)
  abbrev pub set_sequence :
      Option ℤ → Sending (Floats.Float fl) → Outcome (Sending (Floats.Float fl))
  set_sequence none s = (raised type_error, s)
  set_sequence (some n) s =
      set_header (codes "MsgSeqNum") (Given.atom (int n))
        (record s { session = record s.session { sequence = some (n +ℤ pos 1) } })

  -- The five fields that the session sets; `now` is the formatted time.
  unfoldable pub set_headers : Str → Sending (Floats.Float fl) → Outcome (Sending (Floats.Float fl))
  set_headers now s = set_header (codes "SenderSubID") s.session.sender_sub_id s then_ λ s1.
      set_header (codes "TargetCompID") s.session.target_comp_id s1 then_ λ s2.
      set_header (codes "SenderCompID") s.session.sender_comp_id s2 then_ λ s3.
      set_sequence s3.session.sequence s3 then_ λ s4.
      set_header (codes "SendingTime") (Given.atom (text now)) s4

  unfoldable pub send_msg :
      Str
      → Message (Floats.Float fl)
      → FixSession (Floats.Float fl)
      → Outcome (Sending (Floats.Float fl))
  send_msg now msg session =
      let s : Sending (Floats.Float fl) = record { session = session; msg = msg } in
      checked s (validate msg.cls.body msg.body) then_ λ s1. set_headers now s1 then_ λ s2.
      write_if (prepare_complete_msg fl defs s2.session.version s2.msg) s2 then_ λ s3.
      (ok tt, pinged s3)

  abbrev pub session_of :
      Outcome (Sending (Floats.Float fl)) → Outcome (FixSession (Floats.Float fl))
  session_of (r, s) = (r, s.session)

  abbrev pub send_empty :
      Str
      → Result MessageClass
      → FixSession (Floats.Float fl)
      → Outcome (FixSession (Floats.Float fl))
  send_empty now (raised e) session = (raised e, session)
  send_empty now (ok cls) session =
      session_of
        (send_msg now (record { cls = cls; header = empty; body = empty; trailer = empty }) session)

  -- A message of the class that is registered under the type of heartbeats, with no values.
  unfoldable pub send_heartbeat :
      MessageDefs → Str → FixSession (Floats.Float fl) → Outcome (FixSession (Floats.Float fl))
  unfolding send_msg
  send_heartbeat classes now session = send_empty now (class_of classes (codes "0")) session

-- count(value), for a field of the type FixInt, as MsgSeqNum is one
abbrev pub count_from : {F : Type 0} → Got F → Result ℤ
count_from (of_field (int n)) = ok n
count_from got = raised type_error

abbrev pub given_of : {F : Type 0} → Got F → Given F
given_of (of_field v) = Given.atom v
given_of got = Given.nothing

module _ {F : Type 0} where
  abbrev pub after_read :
      Result (Got F) → FixSession F → (Got F → Outcome (FixSession F)) → Outcome (FixSession F)
  after_read (raised e) s next = (raised e, s)
  after_read (ok got) s next = next got

  abbrev pub set_count : Result ℤ → FixSession F → Outcome (FixSession F)
  set_count (raised e) s = (raised e, s)
  set_count (ok n) s = (ok tt, record s { sequence = some n })

module _ {F : Type 0} (defs : FieldDefs) where
  abbrev pub header_attr : Message F → Str → Result (Got F)
  header_attr msg name = get_attr defs msg.cls.header name msg.header

  -- `_initialize_session`, one assignment after the other
  unfoldable pub initialize_session : Message F → FixSession F → Outcome (FixSession F)
  unfolding get_attr
  initialize_session msg s =
      after_read (get_attr defs msg.cls.body (codes "Username") msg.body) s λ username.
        let s1 = record s { username = username } in
        after_read (header_attr msg (codes "MsgSeqNum")) s1 λ number.
          set_count (count_from number) s1 then_ λ s2.
          after_read (header_attr msg (codes "SenderCompID")) s2 λ sender.
            let s3 = record s2 { sender_comp_id = given_of sender } in
            after_read (header_attr msg (codes "SenderSubID")) s3 λ sub.
              let s4 = record s3 { sender_sub_id = given_of sub } in
              after_read (header_attr msg (codes "TargetCompID")) s4
                λ target. (ok tt, record s4 { target_comp_id = given_of target })

module _ (fl : Floats) (defs : FieldDefs) where
  -- `login` up to its await, and what it does with what it receives.
  unfoldable pub login :
      Str
      → Message (Floats.Float fl)
      → FixSession (Floats.Float fl)
      → Outcome (FixSession (Floats.Float fl))
  unfolding initialize_session send_msg
  login now msg s =
      initialize_session defs msg s then_ λ s'. session_of fl defs (send_msg fl defs now msg s')

-- isinstance(logon_resp, login_msg.__class__)
abbrev pub is_same_class : MessageClass → MessageClass → Bool
is_same_class c d = str_equal c.name d.name && str_equal c.msg_type d.msg_type

module _ {F : Type 0} where
  abbrev pub with_common :
      FixSession F → Result (Unit {0}) × Session (Message F) → Outcome (FixSession F)
  with_common s (r, c) = (r, record s { common = c })

  abbrev pub heartbeats_started : FixSession F → FixSession F
  heartbeats_started s = record s { common = Common.start_heartbeats s.common }

  abbrev pub refused : FixSession F → Outcome (FixSession F)
  refused s = (raised connection_refused, record s { common = Common.close false s.common })

  abbrev pub accepted : Outcome (FixSession F) → Outcome (FixSession F)
  accepted o = o then_ λ s. (ok tt, heartbeats_started s)

  -- The reply, or the end of the queue.
  unfoldable pub login_reply : MessageClass → Message F → FixSession F → Outcome (FixSession F)
  unfolding Common.close Common.start_dispatching Common.start_heartbeats
  login_reply cls reply s =
      if is_same_class reply.cls cls
      then accepted (with_common s (Common.start_dispatching s.common))
      else refused s

  unfoldable pub login_ended : FixSession F → Outcome (FixSession F)
  unfolding Common.close
  login_ended s = refused s
