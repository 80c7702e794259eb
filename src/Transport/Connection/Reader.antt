-- ===== src/Transport/Connection/Reader.antt =====
-- `ReaderLoop`, from one `Read` to the next.
use coro_rpc.Protocol.Wire.{Bytes}
use coro_rpc.Protocol.MessageType
use coro_rpc.Protocol.Frame.{Frame}
use coro_rpc.Protocol.Decoder.{
  Polled, more_needed, invalid, protocol_error, next, prepare_writable, commit_writable,
}
use coro_rpc.Protocol.Decoder.Session.{read_size}
use coro_rpc.Transport.Status.{CallStatus}
use coro_rpc.Transport.Connection.{Connection, find, is_ready, is_closing}
use coro_rpc.Transport.Connection.Closing.{complete_pending, maybe_finish_drain, fail_connection}
use coro_rpc.Base.{
  length, ◌==◌, if◌then◌else◌, add64, ℕ, zero, suc, ◌+◌, Bool, true, false, not, ◌&&◌, Option, none,
  some, [],
}

-- A frame that the decoder hands out. The result says whether the inner loop goes on.
unfoldable pub handle_frame : Connection → Frame → Connection × Bool
handle_frame c frame =
    let late = record c {
      metrics = record c.metrics { late_responses = add64 c.metrics.late_responses 1 };
    } in
    let answered : Connection = elim (find frame.header.request_id c.pending_calls) [
      | none ↦ late
      | some p ↦
          complete_pending maybe_finish_drain none c frame.header.request_id p CallStatus.ok frame
    ] in
    if not (frame.header.message_type == MessageType.response_type)
    then (fail_connection c CallStatus.protocol_error, false)
    else (answered, true)

-- The inner loop, on fuel; `none` where it runs out.
unfoldable pub deliver : ℕ → Connection → Option Connection
deliver zero c = none
deliver (suc fuel) c = elim (next c.decoder) [
  | none ↦ none
  | some (d, more_needed) ↦ some (record c { decoder = d })
  | some (d, invalid) ↦ some (fail_connection (record c { decoder = d }) CallStatus.protocol_error)
  | some (d, Polled.ready frame) ↦
      let (handled, goes_on) = handle_frame (record c { decoder = d }) frame in
      let rest = deliver fuel handled in if goes_on then rest else some handled
]

-- The start of a round: a place to read into, or the end. The result is true where `Read` is called.
unfoldable pub start_read : Connection → Connection × Bool
start_read c =
    let (d, writable) = prepare_writable c.decoder read_size in
    let prepared = record c { decoder = d } in
    if not (is_ready c.state) && not (is_closing c.state)
    then (c, false)
    else (if writable
        then (prepared, true)
        else (fail_connection prepared CallStatus.protocol_error, false))

-- `Read` returns: the bytes that it has received, or no byte (the end of the stream or an error). Every
-- frame takes 32 bytes at least, so the bytes at hand, with those of a header already taken, are fuel enough.
unfoldable pub received : Connection → Option Bytes → Option (Connection × Bool)
received c none = some (
  fail_connection (record c { decoder = (commit_writable c.decoder [] 0).0 })
      CallStatus.connection_closed,
  false,
)
received c (some bytes) =
    let (d, status) = commit_writable c.decoder bytes (length bytes) in
    let committed = record c { decoder = d } in
    let delivered : Option (Connection × Bool) = elim (deliver (length d.buffer + 33) committed) [
      | none ↦ none
      | some e ↦ some (start_read e)
    ] in
    elim status [
      | protocol_error ↦ some (fail_connection committed CallStatus.protocol_error, false)
      | _ ↦ delivered
    ]
