-- ===== src/Common/Reader.antt =====
-- `Reader` of src/nasdaq_protocols/common/session.py, over a protocol's `deserialize`.
-- A state change between two awaits is one function; the tests on `_stopped` and the sleep of the
-- reader task are the schedule of such calls. `on_msg_coro` is the application's: it returns or
-- raises. The session's `close`, which `on_close_coro` is, calls `stop` once more: see Session.
pub mod Stream
pub mod Schedule
use nasdaq_protocols.Prelude.{
  ℕ, ◌+◌, ◌-◌, Bool, true, false, not, ◌&&◌, ◌||◌, Option, none, some, List, [], ◌∷◌, ◌++◌, ltb,
  ◌==◌, if◌then◌else◌, Result, ok, raised, state_error, length, drop,
}
use nasdaq_protocols.Python.Bytes.{Bytes}
use nasdaq_protocols.Common.Buffer.{Buffer, extend, Response, Framing}

pub record Reader (M : Type 0) : Type 0 where
  pub buffer : Buffer
  -- what arrives while draining
  pub drain_buffer : Option Bytes
  -- the event of `buffer_until_drained`: none, not set, or set
  pub drain_mode : Option Bool
  pub stopped : Bool
  -- the task ended by an exception out of `deserialize`
  pub crashed : Bool
  -- what `on_msg_coro` was called with, first call first
  pub dispatched : List M
  pub close_calls : ℕ

abbrev pub held : Option Bytes → Bytes
held none = []
held (some bs) = bs

module _ {M : Type 0} where
  abbrev pub start : Reader M
  start = record {
    buffer = record { bytes = []; read_pos = 0 };
    drain_buffer = none;
    drain_mode = none;
    stopped = false;
    crashed = false;
    dispatched = [];
    close_calls = 0;
  }

  abbrev pub is_running : Reader M → Bool
  is_running s = not (s.stopped || s.crashed)

  -- No data is no change.
  unfoldable pub on_data : Bytes → Reader M → Reader M
  unfolding extend
  on_data data' s = elim s.drain_buffer [
    | none ↦ record s { buffer = extend data' s.buffer }
    | some held ↦ record s { drain_buffer = some (held ++ data') }
  ]

  unfoldable pub stop : Reader M → Reader M
  stop s = if s.stopped then s else record s { stopped = true; close_calls = s.close_calls + 1 }

  unfoldable pub enter_drain : Reader M → Result (Reader M)
  enter_drain s = elim s.drain_mode [
    | none ↦ ok (record s { drain_mode = some false; drain_buffer = some [] })
    | some _ ↦ raised state_error
  ]

  -- The `finally` block of `buffer_until_drained`.
  unfoldable pub leave_drain : Bool → Reader M → Reader M
  leave_drain discard s =
      if discard then record s { drain_mode = none; drain_buffer = none } else record s {
        drain_mode = none;
        drain_buffer = none;
        buffer = record {
          bytes = drop s.buffer.read_pos s.buffer.bytes ++ held s.drain_buffer;
          read_pos = 0;
        };
      }

abbrev pub is_waiting : Option Bool → Bool
is_waiting (some false) = true
is_waiting _ = false

module _ {M : Type 0} where
  abbrev pub available : Reader M → ℕ
  available s = length s.buffer.bytes - s.buffer.read_pos

  -- `self._drain_mode.set()` once a round has read nothing
  abbrev pub mark_drained : ℕ → Reader M → Reader M
  mark_drained before s =
      if not s.crashed && is_waiting s.drain_mode && (available s == before)
      then record s { drain_mode = some true }
      else s

module _ {M : Type 0} (f : Framing M) (on_msg : M → Bool) where
  abbrev pub dispatch : M → Reader M → Reader M
  dispatch m s =
      let s' : Reader M = record s { dispatched = s.dispatched ++ m ∷ [] } in
      if on_msg m then s' else stop s'

  abbrev pub handle : Result (Response M) → Reader M → Reader M
  handle (raised e) s = record s { crashed = true }
  handle (ok (none, stop_, skip)) s = if stop_ then stop s else s
  handle (ok (some m, stop_, skip)) s = if stop_ then stop s else if skip then s else dispatch m s

  -- `_process_1`
  unfoldable pub process_1 : Reader M → Reader M
  process_1 s = let (r, b) = f.deserialize s.buffer in handle r (record s { buffer = b })

  -- One round of the loop in `_process`.
  unfoldable pub process : Reader M → Reader M
  process s =
      if is_running s
      then mark_drained (available s) (if ltb 0 (available s) then process_1 s else s)
      else s
