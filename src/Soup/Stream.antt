-- ===== src/Soup/Stream.antt =====
-- The soup reader on a stream of packed messages: soup/_reader.py with soup/core.py.
use nasdaq_protocols.Prelude.{
  ◌+◌, ◌≡◌, refl, sym, ap, ◌∙◌, inl, inr, Bool, true, false, List, [], ◌∷◌, ◌++◌, append-nil,
  append_assoc, arith, ltb, Bool-cases, if◌then◌else◌, ok, length, length-append, take, All,
  take-append_eq, drop-append_eq, take-append_le,
}
use nasdaq_protocols.Python.Bytes.{Bytes, big, unsigned_value}
use nasdaq_protocols.Common.Buffer.{message}
use nasdaq_protocols.Common.Reader.{start, is_running}
use nasdaq_protocols.Common.Reader.Stream.{pending, messages, messages_message, messages_incomplete}
use nasdaq_protocols.Common.Reader.Schedule.{Event, received, run, run-IsFaithful}
use nasdaq_protocols.Soup.Core.{SoupMessage, is_logout, is_heartbeat, from_bytes}
use nasdaq_protocols.Soup.Core.RoundTrip.{Fits, wire, to_bytes-wire, from_bytes-wire}
use nasdaq_protocols.Soup.Core.Framing.{IsFramed, to_bytes-IsFramed}
use nasdaq_protocols.Soup.Reader.{scan, soup_framing}

-- The stream of packed messages, and those of them that are no heartbeats.
abbrev pub wires : List SoupMessage → Bytes
wires [] = []
wires (m ∷ ms) = wire m ++ wires ms

abbrev pub without_heartbeats : List SoupMessage → List SoupMessage
without_heartbeats [] = []
without_heartbeats (m ∷ ms) =
    if is_heartbeat m then without_heartbeats ms else m ∷ without_heartbeats ms

scan_framed :
    (w rest : Bytes) (msg : SoupMessage)
    → IsFramed (length w) w
    → from_bytes w ≡ ok (length w, msg)
    → scan (w ++ rest) ≡ message (length w) msg
scan_framed w rest msg framed unpacked =
    let two = take-append_le 2 w rest (omega (arith, framed.at_least)) in
    let size : unsigned_value big (take 2 w) + 2 ≡ length w =
      omega (arith, framed.prefix, framed.at_least) in
    let whole = take-append_eq (length w) w rest refl in
    let enough : ltb (length (w ++ rest)) 2 ≡ false =
      ground (arith, length-append w rest, framed.at_least) in
    let fits : ltb (length (w ++ rest)) (length w) ≡ false = ground (arith, length-append w rest) in
    unfold scan in rw (two, size) (rw (enough, fits) (rw whole (rw unpacked)))

-- A packed message in front of any bytes is what the reader finds.
pub scan-wire :
    (msg : SoupMessage) (rest : Bytes)
    → Fits msg
    → scan (wire msg ++ rest) ≡ message (length (wire msg)) msg
scan-wire msg rest h =
    scan_framed (wire msg) rest msg
      (to_bytes-IsFramed msg (length (wire msg)) (wire msg) (to_bytes-wire msg h))
      (from_bytes-wire msg h)

-- The messages of a stream of packed messages are those that were packed, without the heartbeats.
messages-wires :
    (msgs : List SoupMessage) (rest : Bytes)
    → All (λ m. Fits m × (is_logout m ≡ false)) msgs
    → messages soup_framing (wires msgs ++ rest)
      ≡ without_heartbeats msgs ++ messages soup_framing rest
messages-wires [] rest h = refl
messages-wires (m ∷ ms) rest ((fits, stays), hs) =
    let u = wire m ++ (wires ms ++ rest) in
    let step = messages_message soup_framing u _ m (scan-wire m (wires ms ++ rest) fits) in
    let left = drop-append_eq (length (wire m)) (wire m) (wires ms ++ rest) refl in
    let ih = messages-wires ms rest hs in
    ap (messages soup_framing) (append_assoc (wire m) (wires ms) rest)
    ∙ step
    ∙ rw (stays, left)
        (elim (Bool-cases (is_heartbeat m)) [
          | inl b ↦ rw b ih
          | inr b ↦ rw b (ap (λ (l : List SoupMessage). m ∷ l) ih)
        ])

-- A peer packs messages that the format represents, none a logout, and the bytes arrive in any
-- chunks, between any rounds and drains of the reader task. While the reader runs and nothing
-- is pending, it has dispatched exactly those messages, in order, without the heartbeats.
pub run-wires :
    (on_msg : SoupMessage → Bool) (events : List Event) (msgs : List SoupMessage)
    → All (λ m. Fits m × (is_logout m ≡ false)) msgs
    → received events ≡ wires msgs
    → is_running (run soup_framing on_msg events start) ≡ true
    → pending (run soup_framing on_msg events start) ≡ []
    → (run soup_framing on_msg events start).dispatched ≡ without_heartbeats msgs
run-wires on_msg events msgs fits same running idle =
    let (rest, p, q) = (run-IsFaithful soup_framing on_msg events).follows [] in
    let nothing : messages soup_framing [] ≡ [] =
      messages_incomplete soup_framing [] (unfold scan in refl) in
    let none_left : rest ≡ [] = q running ∙ rw idle nothing in
    let whole : messages soup_framing (received events ++ []) ≡ without_heartbeats msgs =
      rw same (messages-wires msgs [] fits ∙ rw nothing (append-nil (without_heartbeats msgs))) in
    let done = (run soup_framing on_msg events start).dispatched in
    sym (append-nil done) ∙ ap (λ (l : List SoupMessage). done ++ l) (sym none_left) ∙ sym p ∙ whole
