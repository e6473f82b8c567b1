-- ===== src/Soup/Session/Client.antt =====
-- The sequence numbers of both ends and what is sent between them: soup/session.py.
use nasdaq_protocols.Prelude.{
  ℕ, ◌+◌, ◌<◌, ◌≡◌, refl, sym, ap, ◌∙◌, arith, Bool, true, false, Option, none, some, List, [], ◌∷◌,
  ◌++◌, append-nil, append_assoc, ℤ, pos, negsuc, ◌+ℤ◌, ok, length, All,
}
use nasdaq_protocols.Python.Bytes.{Bytes}
use nasdaq_protocols.Common.Reader.{is_running, start}
use nasdaq_protocols.Common.Reader.Stream.{pending}
use nasdaq_protocols.Common.Reader.Schedule.{Event, received, run}
use nasdaq_protocols.Soup.Core.{SoupMessage, sequenced_data, is_heartbeat, is_logout}
use nasdaq_protocols.Soup.Core.RoundTrip.{Fits, wire, to_bytes-wire}
use nasdaq_protocols.Soup.Reader.{soup_framing}
use nasdaq_protocols.Soup.Stream.{wires, without_heartbeats, run-wires}
use nasdaq_protocols.Soup.Session.{
  SoupSession, Outcome, ◌then_◌, sent_msg, write_to, send_packed, send_msg, send_seq_msg,
  on_message,
}

-- The server sends payloads one after the other.
unfoldable pub send_all : List Bytes → SoupSession → Outcome
unfolding send_seq_msg
send_all [] s = (ok tt, s)
send_all (p ∷ ps) s = send_seq_msg p s then_ send_all ps

-- The client is given messages one after the other.
unfoldable pub receive_all : List SoupMessage → SoupSession → SoupSession
unfolding on_message
receive_all [] s = s
receive_all (m ∷ ms) s = receive_all ms (on_message m s)

abbrev pub sequenced : List Bytes → List SoupMessage
sequenced [] = []
sequenced (p ∷ ps) = sequenced_data p ∷ sequenced ps

abbrev pub Sendable : List Bytes → Type 0
Sendable ps = All (λ (p : Bytes). length p + 1 < 32768) ps

plus_plus : (z : ℤ) (a b : ℕ) → (z +ℤ pos a) +ℤ pos b ≡ z +ℤ pos (a + b)
unfolding ◌+ℤ◌
plus_plus (pos n) a b = ground arith
plus_plus (negsuc n) a b = ground arith

plus_zero : (z : ℤ) → z +ℤ pos 0 ≡ z
unfolding ◌+ℤ◌
plus_zero (pos n) = ground arith
plus_zero (negsuc n) = ground arith

-- Sending a message that the format represents over an open transport.
send_msg-wire :
    (m : SoupMessage) (s : SoupSession)
    → Fits m
    → s.common.transport ≡ some true
    → send_msg m s ≡ (ok tt, sent_msg m (record s { sent = s.sent ++ wire m }))
unfolding send_msg
send_msg-wire m s fits open_ =
    ap (λ r. send_packed m r s) (to_bytes-wire m fits) ∙ written (wire m) s.common.transport open_
  where
    written :
        (bs : Bytes) (t : Option Bool)
        → t ≡ some true
        → (write_to t bs s then_ λ s'. (ok tt, sent_msg m s'))
          ≡ (ok tt, sent_msg m (record s { sent = s.sent ++ bs }))
    written bs none e = cc
    written bs (some false) e = cc
    written bs (some true) e = refl

-- What the client counts.
pub receive_all_sequence :
    (ps : List Bytes) (c : SoupSession)
    → (receive_all (sequenced ps) c).sequence ≡ c.sequence +ℤ pos (length ps)
unfolding receive_all on_message
receive_all_sequence [] c = sym (plus_zero c.sequence)
receive_all_sequence (p ∷ ps) c =
    receive_all_sequence ps (on_message (sequenced_data p) c)
    ∙ plus_plus c.sequence 1 (length ps)
    ∙ ap (λ (n : ℕ). c.sequence +ℤ pos n) (omega arith)

-- What the server has sent and counted.
abbrev Sent : List Bytes → SoupSession → Type 0
Sent ps s =
    (s' : SoupSession) × (send_all ps s ≡ (ok tt, s'))
    × (s'.sent ≡ s.sent ++ wires (sequenced ps))
    × (s'.sequence ≡ s.sequence +ℤ pos (length ps))

send_all_sends :
    (ps : List Bytes) (s : SoupSession) → Sendable ps → s.common.transport ≡ some true → Sent ps s
unfolding send_all wires
send_all_sends [] s h o = (s, refl, sym (append-nil s.sent), sym (plus_zero s.sequence))
send_all_sends (p ∷ ps) s h o =
    let m = sequenced_data p in
    let s1 = sent_msg m (record s { sent = s.sent ++ wire m }) in
    let step = send_msg-wire m s h.0 o in
    let (s2, a, b, c) = send_all_sends ps s1 h.1 o in
    (
      s2,
      unfold send_seq_msg in rw step a,
      b ∙ append_assoc s.sent (wire m) (wires (sequenced ps)),
      c ∙ plus_plus s.sequence 1 (length ps) ∙ ap (λ (n : ℕ). s.sequence +ℤ pos n) (omega arith),
    )

Fits-All :
    (ps : List Bytes) → Sendable ps → All (λ m. Fits m × (is_logout m ≡ false)) (sequenced ps)
Fits-All [] h = tt
Fits-All (p ∷ ps) (h, hs) = ((h, unfold is_logout in refl), Fits-All ps hs)

no_heartbeats : (ps : List Bytes) → without_heartbeats (sequenced ps) ≡ sequenced ps
unfolding is_heartbeat
no_heartbeats [] = refl
no_heartbeats (p ∷ ps) = ap (λ (l : List SoupMessage). sequenced_data p ∷ l) (no_heartbeats ps)

-- From end to end: a server with an open transport that has sent nothing yet sends payloads, each
-- of less than 32767 bytes. Where the client's reader, which runs, has got those bytes in whatever
-- chunks, between any rounds and drains, and nothing is pending, it has dispatched exactly these
-- payloads, in order; and both ends have counted each of them once.
pub sequences_agree :
    (ps : List Bytes) (server client : SoupSession) (on_msg : SoupMessage → Bool)
    (events : List Event)
    → Sendable ps
    → server.common.transport ≡ some true
    → server.sent ≡ []
    → (send_all ps server).1.sent ≡ received events
    → is_running (run soup_framing on_msg events start) ≡ true
    → pending (run soup_framing on_msg events start) ≡ []
    → ((send_all ps server).0 ≡ ok tt)
      × ((send_all ps server).1.sequence ≡ server.sequence +ℤ pos (length ps))
      × ((run soup_framing on_msg events start).dispatched ≡ sequenced ps)
      × ((receive_all (run soup_framing on_msg events start).dispatched client).sequence
          ≡ client.sequence +ℤ pos (length ps))
sequences_agree ps server client on_msg events h open_ fresh same running idle =
    let (s', a, b, c) = send_all_sends ps server h open_ in
    let bytes : received events ≡ wires (sequenced ps) =
      sym same
      ∙ ap (λ (o : Outcome). o.1.sent) a
      ∙ b
      ∙ ap (λ (bs : Bytes). bs ++ wires (sequenced ps)) fresh in
    let got =
      run-wires on_msg events (sequenced ps) (Fits-All ps h) bytes running idle
      ∙ no_heartbeats ps in
    (
      ap (λ (o : Outcome). o.0) a,
      ap (λ (o : Outcome). o.1.sequence) a ∙ c,
      got,
      ap (λ (ms : List SoupMessage). (receive_all ms client).sequence) got
          ∙ receive_all_sequence ps client,
    )
