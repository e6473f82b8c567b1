-- ===== src/Tests/SoupTests.antt =====
-- The theorems on soup messages, readers and streams at concrete messages: soup/core.py,
-- soup/_reader.py.
use nasdaq_protocols.Prelude.{
  ap, ℕ, ◌+◌, ◌≡◌, refl, Bool, true, List, [], ◌∷◌, ◌++◌, replicate, length, arith, pos, ok, raised,
  length-replicate,
}
use nasdaq_protocols.Python.Bytes.{Bytes, unsigned_value}
use nasdaq_protocols.Python.Decimal.{str_int}
use nasdaq_protocols.Python.Text.{IsTrimmed-of_none, is_space}
use nasdaq_protocols.Python.Struct.{short_bytes}
use nasdaq_protocols.Common.Buffer.{Buffer, unread, respond, incomplete, extend, advance}
use nasdaq_protocols.Common.Reader.{
  start, is_running, process, process_1, on_data, enter_drain, leave_drain,
}
use nasdaq_protocols.Common.Reader.Stream.{pending, IsFaithful}
use nasdaq_protocols.Common.Reader.Schedule.{
  Event, arrive, poll, begin_drain, end_drain, received, apply, run, run-IsFaithful, run_chunking,
}
use nasdaq_protocols.Prelude.{struct_error}
use nasdaq_protocols.Soup.Core.{
  unpack_login_rejected, check_size, indicator, class_by_indicator, unpack_plain, unpack_sequenced,
  payload_of, SoupMessage, login_accepted, sequenced_data, server_heartbeat, to_bytes, from_bytes,
  is_logout, is_heartbeat,
}
use nasdaq_protocols.Soup.Core.RoundTrip.{Fits, soup_round_trip}
use nasdaq_protocols.Soup.Core.Framing.{IsFramed, to_bytes-IsFramed}
use nasdaq_protocols.Soup.Core.Refusal.{Refused, from_bytes-Refused, from_bytes_drops_payload}
use nasdaq_protocols.Soup.Reader.{deserialize, deserialized, scan, deserialize-scan, soup_framing}
use nasdaq_protocols.Soup.Stream.{wires, without_heartbeats, run-wires}

abbrev hello : SoupMessage
hello = sequenced_data (b'h' ∷ b'i' ∷ [])

abbrev hello_bytes : Bytes
hello_bytes = 0 ∷ 3 ∷ b'S' ∷ b'h' ∷ b'i' ∷ []

abbrev heartbeat_bytes : Bytes
heartbeat_bytes = 0 ∷ 1 ∷ b'H' ∷ []

abbrev accepted : SoupMessage
accepted = login_accepted (b'o' ∷ b'n' ∷ b'e' ∷ []) (pos 17)

accepted-Fits : Fits accepted
unfolding str_int is_space
accepted-Fits = (
  record {
    short = omega arith;
    encodable = (omega arith, (omega arith, (omega arith, tt)));
    trimmed = IsTrimmed-of_none is_space (b'o' ∷ b'n' ∷ b'e' ∷ []) (refl, (refl, (refl, tt)));
  },
  omega arith,
)

soup_round_trip_example :
    (bs : Bytes) × (to_bytes accepted ≡ ok (length bs, bs))
    × (from_bytes bs ≡ ok (length bs, accepted))
soup_round_trip_example = soup_round_trip accepted accepted-Fits

hello_packed : to_bytes hello ≡ ok (5, hello_bytes)
unfolding to_bytes
hello_packed = refl

to_bytes-IsFramed_example : IsFramed 5 hello_bytes
to_bytes-IsFramed_example = to_bytes-IsFramed hello 5 hello_bytes hello_packed

-- Two bytes too few for a login that is rejected, which has fields.
from_bytes-Refused_example : Refused (0 ∷ 1 ∷ b'J' ∷ []) (from_bytes (0 ∷ 1 ∷ b'J' ∷ []))
from_bytes-Refused_example = from_bytes-Refused (0 ∷ 1 ∷ b'J' ∷ [])

rejected_short : from_bytes (0 ∷ 1 ∷ b'J' ∷ []) ≡ raised struct_error
unfolding from_bytes class_by_indicator unpack_login_rejected check_size
rejected_short = refl

-- The least payload that is lost.
abbrev large : Bytes
large = replicate 32767 b'x'

large_size : length large ≡ 32767
large_size = length-replicate 32767 (let x : ℕ = b'x' in x)

from_bytes_drops_payload_example :
    from_bytes (short_bytes (length large + 1) ++ (b'S' ∷ large))
    ≡ ok (length large + 3, sequenced_data [])
from_bytes_drops_payload_example =
    from_bytes_drops_payload large (omega (arith, large_size)) (omega (arith, large_size))

-- A heartbeat has been read, a message is not whole yet.
abbrev part_read : Buffer
part_read = record { bytes = heartbeat_bytes ++ (0 ∷ 3 ∷ b'S' ∷ []); read_pos = 3 }

deserialize-scan_example :
    deserialize part_read ≡ respond is_logout is_heartbeat part_read (scan (unread part_read))
deserialize-scan_example = deserialize-scan part_read (omega arith)

abbrev two_chunks : List Event
two_chunks =
    arrive (0 ∷ 1 ∷ b'H' ∷ 0 ∷ 3 ∷ []) ∷ poll ∷ arrive (b'S' ∷ b'h' ∷ b'i' ∷ []) ∷ poll ∷ []

-- The same bytes at once, drained.
abbrev one_chunk : List Event
one_chunk =
    arrive (heartbeat_bytes ++ hello_bytes) ∷ begin_drain ∷ poll ∷ poll ∷ poll ∷ end_drain ∷ []

abbrev accepts : SoupMessage → Bool
accepts _ = true

run-IsFaithful_example :
    IsFaithful soup_framing (received two_chunks) (run soup_framing accepts two_chunks start)
run-IsFaithful_example = run-IsFaithful soup_framing accepts two_chunks

abbrev heartbeat_and_hello : List SoupMessage
heartbeat_and_hello = server_heartbeat ∷ hello ∷ []

same_bytes : received two_chunks ≡ wires heartbeat_and_hello
unfolding wires indicator
same_bytes = refl

chunks_run : is_running (run soup_framing accepts two_chunks start) ≡ true
unfolding run apply on_data extend process process_1 enter_drain leave_drain deserialize
    deserialized from_bytes unsigned_value advance is_logout is_heartbeat class_by_indicator
    unpack_plain unpack_sequenced payload_of
chunks_run = refl

chunks_pending : pending (run soup_framing accepts two_chunks start) ≡ []
unfolding run apply on_data extend process process_1 enter_drain leave_drain deserialize
    deserialized from_bytes unsigned_value advance is_logout is_heartbeat class_by_indicator
    unpack_plain unpack_sequenced payload_of
chunks_pending = refl

run-wires_example :
    (run soup_framing accepts two_chunks start).dispatched ≡ without_heartbeats heartbeat_and_hello
unfolding is_logout
run-wires_example =
    run-wires accepts two_chunks heartbeat_and_hello ((tt, refl), ((omega arith, refl), tt))
      same_bytes chunks_run chunks_pending

chunk_run : is_running (run soup_framing accepts one_chunk start) ≡ true
unfolding run apply on_data extend process process_1 enter_drain leave_drain deserialize
    deserialized from_bytes unsigned_value advance is_logout is_heartbeat class_by_indicator
    unpack_plain unpack_sequenced payload_of
chunk_run = refl

chunks_idle : scan (pending (run soup_framing accepts two_chunks start)) ≡ incomplete
unfolding scan
chunks_idle = ap scan chunks_pending

chunk_idle : scan (pending (run soup_framing accepts one_chunk start)) ≡ incomplete
unfolding run apply on_data extend process process_1 enter_drain leave_drain deserialize
    deserialized from_bytes unsigned_value advance is_logout is_heartbeat class_by_indicator
    unpack_plain unpack_sequenced payload_of scan
chunk_idle = refl

run_chunking_example :
    (run soup_framing accepts two_chunks start).dispatched
    ≡ (run soup_framing accepts one_chunk start).dispatched
run_chunking_example =
    run_chunking soup_framing accepts two_chunks one_chunk refl chunks_run chunk_run chunks_idle
      chunk_idle
