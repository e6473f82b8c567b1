-- ===== src/Soup/Reader.antt =====
-- src/nasdaq_protocols/soup/_reader.py: taking one soup message off the receive buffer.
use nasdaq_protocols.Prelude.{
  ℕ, ◌+◌, ◌-◌, ◌≤◌, ◌<◌, ◌≡◌, refl, ap, ◌∙◌, ◌⊎◌, inl, inr, false, none, some, ◌++◌, arith, ltb,
  Bool-cases, if◌then◌else◌, Result, ok, raised, Error, length, length-drop, length-append, take,
  drop, take-append_le,
}
use nasdaq_protocols.Python.Bytes.{Bytes, big, unsigned_value}
use nasdaq_protocols.Python.Find.{slice}
use nasdaq_protocols.Common.Buffer.{
  Buffer, advance, unread, IsCompact, Scan, incomplete, message, failed, Response, respond, Framing,
}
use nasdaq_protocols.Soup.Core.{SoupMessage, from_bytes, is_logout, is_heartbeat}

-- What follows the call of `SoupMessage.from_bytes`; an exception leaves the buffer as it is.
unfoldable pub deserialized :
    Buffer → ℕ → Result (ℕ × SoupMessage) → Result (Response SoupMessage) × Buffer
deserialized b size (raised e) = (raised e, b)
deserialized b size (ok (_, msg)) = (ok (some msg, is_logout msg, is_heartbeat msg), advance size b)

unfoldable pub deserialize : Buffer → Result (Response SoupMessage) × Buffer
deserialize b =
    let available = length b.bytes - b.read_pos in
    let siz = unsigned_value big (slice b.read_pos (b.read_pos + 2) b.bytes) in
    let frame = slice b.read_pos (b.read_pos + siz + 2) b.bytes in
    if ltb available 2
    then (ok (none, false, false), b)
    else if ltb available (siz + 2)
    then (ok (none, false, false), b)
    else deserialized b (siz + 2) (from_bytes frame)

-- The specification: a message is two bytes of length and as many bytes as they say.
abbrev pub scanned : ℕ → Result (ℕ × SoupMessage) → Scan SoupMessage
scanned n (raised e) = failed e
scanned n (ok (_, msg)) = message n msg

unfoldable pub scan : Bytes → Scan SoupMessage
scan u =
    let size = unsigned_value big (take 2 u) + 2 in
    if ltb (length u) 2
    then incomplete
    else if ltb (length u) size
    then incomplete
    else scanned size (from_bytes (take size u))

slice_two : (p : ℕ) (bs : Bytes) → slice p (p + 2) bs ≡ take 2 (drop p bs)
slice_two p bs = let e : p + 2 - p ≡ 2 = omega arith in ap (λ (k : ℕ). take k (drop p bs)) e

slice_frame : (p n : ℕ) (bs : Bytes) → slice p (p + n + 2) bs ≡ take (n + 2) (drop p bs)
slice_frame p n bs =
    let e : p + n + 2 - p ≡ n + 2 = omega arith in ap (λ (k : ℕ). take k (drop p bs)) e

answer :
    (b : Buffer) (size : ℕ) (r : Result (ℕ × SoupMessage))
    → deserialized b size r ≡ respond is_logout is_heartbeat b (scanned size r)
unfolding deserialized
answer b size (ok (n, msg)) = refl
answer b size (raised e) = refl

-- On a buffer of which at least half is unread, `deserialize` finds what the framing of the unread
-- bytes says: it waits, takes off a message of that size, or raises and leaves the buffer.
pub deserialize-scan :
    (b : Buffer) → IsCompact b → deserialize b ≡ respond is_logout is_heartbeat b (scan (unread b))
deserialize-scan b h =
    let u = unread b in
    let siz = unsigned_value big (take 2 u) in
    elim (Bool-cases (ltb (length u) 2)) [
      | inl t ↦ unfold deserialize scan in rw (← length-drop b.read_pos b.bytes, t)
      | inr f ↦ elim (Bool-cases (ltb (length u) (siz + 2))) [
        | inl t ↦
            unfold deserialize scan in
            rw (← length-drop b.read_pos b.bytes, f, slice_two b.read_pos b.bytes, t)
        | inr g ↦
            unfold deserialize scan in
            rw (← length-drop b.read_pos b.bytes, f, slice_two b.read_pos b.bytes, g)
              (rw (slice_frame b.read_pos siz b.bytes)
                (answer b (siz + 2) (from_bytes (take (siz + 2) u))))
      ]
    ]

pub scan_size :
    (u : Bytes) (n : ℕ) (m : SoupMessage) → scan u ≡ message n m → (0 < n) × (n ≤ length u)
unfolding scan
scan_size u n m h = ground arith

-- Bytes behind a whole frame do not change what is made of it.
scan-append : (u v : Bytes) → (scan u ≡ incomplete) ⊎ (scan (u ++ v) ≡ scan u)
scan-append u v =
    let size = unsigned_value big (take 2 u) + 2 in
    elim (Bool-cases (ltb (length u) 2)) [
      | inl t ↦ inl (unfold scan in rw t)
      | inr f ↦ elim (Bool-cases (ltb (length u) size)) [
        | inl t ↦ inl (unfold scan in rw (f, t))
        | inr g ↦
            let two = take-append_le 2 u v (ground arith) in
            let all = take-append_le size u v (ground arith) in
            let f' : ltb (length (u ++ v)) 2 ≡ false = ground (arith, length-append u v) in
            let g' : ltb (length (u ++ v)) size ≡ false = ground (arith, length-append u v) in
            inr (unfold scan in rw two (rw (f', f) (rw (g', g) (rw all))))
      ]
    ]

pub message_stable :
    (u v : Bytes) (n : ℕ) (m : SoupMessage) → scan u ≡ message n m → scan (u ++ v) ≡ message n m
message_stable u v n m h = elim (scan-append u v) [ inl early ↦ cc | inr same ↦ same ∙ h ]

pub failed_stable : (u v : Bytes) (e : Error) → scan u ≡ failed e → scan (u ++ v) ≡ failed e
failed_stable u v e h = elim (scan-append u v) [ inl early ↦ cc | inr same ↦ same ∙ h ]

-- The soup reader as an instance of what a reader has to do.
abbrev pub soup_framing : Framing SoupMessage
soup_framing = record {
  deserialize = deserialize;
  is_logout = is_logout;
  is_heartbeat = is_heartbeat;
  scan = scan;
  refines = deserialize-scan;
  scan_bounds = scan_size;
  message_stable = message_stable;
  failed_stable = failed_stable;
}
