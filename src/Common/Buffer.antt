-- ===== src/Common/Buffer.antt =====
-- The receive buffer of a reader, `_buffer` and `_read_pos` of common/session.py, and what the
-- readers of soup/_reader.py and fix/_reader.py do with it once a message is taken off.
use nasdaq_protocols.Prelude.{
  ℕ, ◌+◌, ◌*◌, ◌/◌, ◌≤◌, ◌<◌, ◌≡◌, refl, sym, Bool, false, Option, none, some, ◌++◌, arith, ◌⊎◌,
  inl, inr, ltb, Bool-cases, if◌then◌else◌, Result, ok, raised, Error, length, length-append, drop,
  drop-drop, drop-append_le,
}
use nasdaq_protocols.Python.Bytes.{Bytes}

pub record Buffer : Type 0 where
  pub bytes : Bytes
  pub read_pos : ℕ

-- Drop what has been read once it is more than half of the buffer.
unfoldable pub advance : ℕ → Buffer → Buffer
advance n b =
    let pos = b.read_pos + n in
    if ltb (length b.bytes / 2) pos
    then record { bytes = drop pos b.bytes; read_pos = 0 }
    else record b { read_pos = pos }

unfoldable pub extend : Bytes → Buffer → Buffer
extend data' b = record b { bytes = b.bytes ++ data' }

-- The bytes that no message has been made of yet.
abbrev pub unread : Buffer → Bytes
unread b = drop b.read_pos b.bytes

-- At least half of what the buffer holds is unread.
abbrev pub IsCompact : Buffer → Type 0
IsCompact b = 2 * b.read_pos ≤ length b.bytes

pub advance-IsCompact : (n : ℕ) (b : Buffer) → IsCompact (advance n b)
unfolding advance
advance-IsCompact n b = ground arith

pub extend-IsCompact : (data' : Bytes) (b : Buffer) → IsCompact b → IsCompact (extend data' b)
unfolding extend
extend-IsCompact data' b h = omega (arith, length-append b.bytes data')

pub unread-advance : (n : ℕ) (b : Buffer) → unread (advance n b) ≡ drop n (unread b)
unfolding advance
unread-advance n b = elim (Bool-cases (ltb (length b.bytes / 2) (b.read_pos + n))) [
  | inl t ↦ rw t (sym (drop-drop n b.read_pos b.bytes))
  | inr f ↦ rw f (sym (drop-drop n b.read_pos b.bytes))
]

pub unread-extend :
    (data' : Bytes) (b : Buffer) → IsCompact b → unread (extend data' b) ≡ unread b ++ data'
unfolding extend
unread-extend data' b h = drop-append_le b.read_pos b.bytes data' (omega arith)

-- What a look at the unread bytes finds: no whole message yet, a message of so many bytes, or
-- bytes that raise.
pub data Scan (M : Type 0) : Type 0 where
  incomplete : Scan M
  message : ℕ → M → Scan M
  failed : Error → Scan M

-- The triple (message, stop, skip) that `deserialize` returns.
abbrev pub Response : Type 0 → Type 0
Response M = Option M × Bool × Bool

-- How a reader answers for what it found.
module _ {M : Type 0} (is_logout is_heartbeat : M → Bool) where
  abbrev pub respond : Buffer → Scan M → Result (Response M) × Buffer
  respond b incomplete = (ok (none, false, false), b)
  respond b (message n m) = (ok (some m, is_logout m, is_heartbeat m), advance n b)
  respond b (failed e) = (raised e, b)

-- A protocol's `deserialize`, and what it does in terms of the unread bytes alone: a message, once
-- whole, is the same whatever bytes follow.
pub record Framing (M : Type 0) : Type 0 where
  pub deserialize : Buffer → Result (Response M) × Buffer
  pub is_logout : M → Bool
  pub is_heartbeat : M → Bool
  pub scan : Bytes → Scan M
  pub refines :
      (b : Buffer)
      → IsCompact b
      → deserialize b ≡ respond is_logout is_heartbeat b (scan (unread b))
  pub scan_bounds : (u : Bytes) (n : ℕ) (m : M) → scan u ≡ message n m → (0 < n) × (n ≤ length u)
  pub message_stable :
      (u v : Bytes) (n : ℕ) (m : M) → scan u ≡ message n m → scan (u ++ v) ≡ message n m
  pub failed_stable : (u v : Bytes) (e : Error) → scan u ≡ failed e → scan (u ++ v) ≡ failed e

-- To split on what was found and keep the equation.
pub Scan-cases :
    {M : Type 0} (r : Scan M)
    → (r ≡ incomplete) ⊎ ((n : ℕ) × (m : M) × (r ≡ message n m)) ⊎ ((e : Error) × (r ≡ failed e))
Scan-cases incomplete = inl refl
Scan-cases (message n m) = inr (inl (n, m, refl))
Scan-cases (failed e) = inr (inr (e, refl))
