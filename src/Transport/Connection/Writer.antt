-- ===== src/Transport/Connection/Writer.antt =====
-- `WriterLoop`, from one of its waits to the next: it waits in `Yield` for frames, and in `WriteAll` for
-- the socket.
use coro_rpc.Protocol.Wire.{Bytes}
use coro_rpc.Transport.Status.{CallStatus}
use coro_rpc.Transport.Connection.{Connection, OutboundFrame, find, update, is_ready, is_closing}
use coro_rpc.Transport.Connection.Closing.{maybe_finish_drain, fail_connection}
use coro_rpc.Base.{
  length, leb, ◌==◌, if◌then◌else◌, sub64, ℕ, zero, suc, ◌+◌, ◌*◌, Bool, true, false, not, ◌&&◌,
  ◌||◌, Option, none, some, List, [], ◌∷◌, ◌++◌,
}

abbrev pub write_batch_bytes : ℕ
write_batch_bytes = 64 * 1024

-- The frame at the front is taken: its call is marked as sent, or it is skipped where nobody waits
-- for its answer. The result says whether its bytes are appended.
unfoldable pub take_front : Connection → OutboundFrame → Connection × Bool
take_front c frame =
    if frame.control then (c, true) else elim (find frame.request_id c.pending_calls) [
      | none ↦ (c, false)
      | some p ↦ if p.completed then (c, false) else (
        record c {
          pending_calls = update frame.request_id (record p { sent = true }) c.pending_calls;
        },
        true,
      )
    ]

-- The inner loop of `WriterLoop`, over the frames that are queued, with the batch so far.
unfoldable pub fill_batch : List OutboundFrame → Connection → Bytes → Connection × Bytes
fill_batch [] c batch = (record c { outbound = [] }, batch)
fill_batch (frame ∷ rest) c batch =
    let popped = record c {
      outbound = rest;
      outbound_bytes = sub64 c.outbound_bytes (length frame.bytes);
    } in
    let (taken, sends) = take_front popped frame in
    let more = fill_batch rest taken (if sends then batch ++ frame.bytes else batch) in
    if (length batch == 0) || leb (length batch + length frame.bytes) write_batch_bytes
    then more
    else (record c { outbound = frame ∷ rest }, batch)

-- What the writer waits for, or that it has ended.
pub data Writing : Type 0 where
  idle : Writing
  write : Bytes → Writing
  ended : Writing

-- The writer runs, on fuel for the rounds of its loop in which no byte is written.
unfoldable pub run_writer : ℕ → Connection → Option (Connection × Writing)
run_writer zero c = none
run_writer (suc fuel) c =
    let (filled, batch) = fill_batch c.outbound c [] in
    let again = run_writer fuel filled in
    if not (is_ready c.state) && not (is_closing c.state)
    then some (c, ended)
    else elim c.outbound [
      | [] ↦ some (record c { writer_waits = true }, idle)
      | frame ∷ rest ↦ if length batch == 0 then again else some (filled, write batch)
    ]

-- A round without bytes has emptied the queue, so two rounds are enough.
unfoldable pub writer_turn : Connection → Option (Connection × Writing)
writer_turn c = run_writer 2 c

-- `WriteAll` returns: it has written the whole batch, or not.
unfoldable pub written : Connection → Bool → Option (Connection × Writing)
written c all =
    if all
    then writer_turn (maybe_finish_drain c)
    else some (fail_connection c CallStatus.connection_closed, ended)
