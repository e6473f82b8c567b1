-- ===== src/Lib.antt =====
-- nasdaq-protocols: the protocol library for SoupBinTCP and the applications over it.
--
-- How the program is put together. A transport's bytes come into `AsyncSession` (src/nasdaq_protocols/common/session.py), which
-- gives them to its `Reader`. The reader's task takes one message at a time off its buffer, by the protocol's
-- `deserialize` (soup/_reader.py), and gives it to the session, which puts it into a `DispatchableMessageQueue`
-- (common/message_queue.py). From there the application reads it or a dispatcher hands it out. Two heartbeat monitors
-- watch the two directions. Soup sessions (soup/session.py) add login, sequence numbers and what they send; application
-- sessions (soup/soup_app.py) decode the payload of sequenced data by message classes (common/message).
--
-- Which file models which part; all paths are below src/nasdaq_protocols:
--   Prelude, Python: shared names, exceptions as values, and what the code uses of Python: bytes, integers, texts, struct.
--   Soup/Core: soup/core.py, one constructor for each message class, `to_bytes` and `from_bytes` as they are composed there.
--   Common/Buffer: the receive buffer, and `Framing`, the interface of a protocol's `deserialize`; Soup/Reader fills it.
--   Common/Reader: `Reader` of common/session.py. Reader/Schedule has the sequences of its calls.
--   Common/Monitor: `HeartbeatMonitor`, a tick for each interval.
--   Common/Queue: `DispatchableMessageQueue`. Queue/Schedule has the sequences of its operations.
--   Common/Session: `AsyncSession`. `close` is cut at its drains, at the stops of the queue and of the reader
--     and at `on_close_coro`; its start, with the stop of the monitors, is one step. The field `phase` tells how far the
--     one running call is.
--   Soup/Session: `SoupSession`, `SoupClientSession` and `SoupServerSession` of soup/session.py.
--   Common/Message/Types, Structures, Registry: common/message/types.py, structures.py, and the ids of soup/soup_app.py.
--   Soup/Sync: `SoupClientSessionSync` of soup/session.py, with the caller's thread and that of its bridge's loop, and
--     who holds `close_lock`. Sync/Turns is about the turns of the closing task.
--   SoupApp: `SoupAppClientSession` of soup/soup_app.py.
--   Protocols: itch, ouch and sqf, their application names and client sessions.
--   Common/Message/Parser, Context: common/message/parser.py, the parser of message definitions and what it hands to the
--     code generator; Parser/Distinct and Context/Resolved hold what is proved of them.
--   Fix/Types: fix/types.py; floats are a parameter, with Python's `str` and `float`.
--   Fix/Field: `Field` of fix/core.py, a tag, an equals sign, a value and the byte 1.
--   Fix/Segment: `DataSegment`, `Group` and `GroupContainer` of fix/core.py, how they are written and read.
--     Segment/Represented says which values a class can read back, Segment/Lines and Segment/Steps what a read does.
--   Fix/Access: the item and attribute access of a segment, and `validate`.
--   Fix/Message: `Message` of fix/core.py, its classes by message type, `to_bytes` and `from_bytes`.
--   Fix/Reader: fix/_reader.py, which finds a message by its body length; Reader/Stable is about bytes that follow.
--   Fix/Session: fix/session.py, login, header fields, body length and checksum; the clock's text is a parameter.
--   Fix/Parser: fix/parser/parser.py, definitions.py and version_types.py, on the tree of Python/Xml.
--     Parser/Refusal says how it ends and how deep a tree nests. Parser/Contexts: what the definitions hand to the
--     templates, with the global list of groups.
--   Tests: the theorems at concrete inputs.
--
-- How it is modelled. A state is a record with the fields of the class; what runs between two awaits is one function on it (the
-- start of `close` runs over the stop of the monitors too);
-- an exception is a value of `Result`. Orders of calls, by the event loop, tasks and the application, are lists of events.
-- Coroutines that the application gives are parameters: whether they return or raise, or what they give. Logs that no
-- class keeps record what was handed out (`taken`, `dispatched`), what was sent (`sent`) and how often a coroutine was
-- called (`close_calls`). Integers are unbounded as in Python; widths are those of the formats.
--
-- Fuel and depth. The specification `messages` takes the length of the bytes, which is enough since a message takes at
-- least one byte. The loops that read a FIX segment take one more than the bytes that are left, and never run out, since
-- each round takes at least one byte or ends. The depth of the FIX parser of definitions is no fuel but the interpreter's
-- limit on calls inside one another, and at its end stands RecursionError.
--
-- What is not modelled: logging and printing, the session ids' host and port, the synchronous
-- `receive`, the templates of code generation and the command line tools, which are input and output, and ASN.1, which
-- wraps a library. XML files are read by a library, and the parsers start from the tree. The
-- classes registered in TypeDefinition.Definitions are a parameter; `isdigit` is that of ASCII. The cancellation of a task
-- in the middle of the application's coroutine is not modelled either: a coroutine that was called counts as called.
pub mod Prelude
pub mod Python
pub mod Fix
pub mod Protocols
pub mod Soup
pub mod SoupApp
pub mod Common
pub mod Tests
