-- ===== src/Transport/Connection/Tests.antt =====
-- Concrete runs of a connection, and its theorems at concrete inputs.
use coro_rpc.Protocol.MessageType
use coro_rpc.Protocol.Wire.{load, store, put, bswap, Bytes, put, bswap, store, load}
use coro_rpc.Protocol.Frame.{
  Frame, default_frame, default_header, build_header, is_valid_message_type, lacks_request_id,
}
use coro_rpc.Protocol.Decoder.{
  prepare_writable, make_room, ensure_writable, Decoder, default_limits, read_fixed_header,
  commit_writable,
}
use coro_rpc.Protocol.Decoder
use coro_rpc.Transport.Status.{CallStatus, CallResult}
use coro_rpc.Transport.Connection.{
  Connection, ConnectionState, ConnectionLimits, OutboundFrame, find, has_unfinished, is_ready,
  create, next_request_id, is_closing, wake_writer,
}
use coro_rpc.Base.{
  length, sub64, add64, ◌≤◌, ◌<◌, ◌≡◌, refl, ◌⊎◌, inl, Bool, true, false, none, some, [], ◌∷◌,
  arith, ◌*◌,
}
use coro_rpc.Transport.Connection.Valid.{ConnectionValid}
use coro_rpc.Transport.Connection.Ends.{Ended, close-Ended, fail_connection-Ended}
use coro_rpc.Transport.Connection.Calls.{
  finish_call, new_pending, call, send_encoded, call_encoded, waiting,
}
use coro_rpc.Transport.Connection.Batches.{Batched, writer_turn_total, fill_batch_lem, Alone}
use coro_rpc.Transport.Connection.Writer.{writer_turn, Writing, fill_batch, idle, run_writer}
use coro_rpc.Transport.Connection.Reader.{received, handle_frame, start_read}
use coro_rpc.Transport.Connection.Settle.{callers}
use coro_rpc.Transport.Connection.Answers.{
  Waits, answer, finish_call-handle_frame, handle_frame-finish_call,
}
use coro_rpc.Transport.Connection.Closing.{fail_connection, close}
use coro_rpc.Protocol.Decoder.Refine.{Running}
use coro_rpc.Protocol.Encoder.{encode}
use coro_rpc.Transport.Connection.Progress.{received_total}
use coro_rpc.Transport.Connection.History.{
  Reachable-ConnectionValid, led, constructed, called, was_closed, attached,
}
use coro_rpc.Transport.Connection.Starts.{numbered, Started, call-Started}
use coro_rpc.Transport.Connection.Drains.{writer_turn_stuck}
use coro_rpc.Transport.Connection.Opening.{attach, start_fibers}
use coro_rpc.Transport.Connection.Invariant.Broken.{Broken}

abbrev small_limits : ConnectionLimits
small_limits = record { max_pending_calls = 4; max_outbound_bytes = 1000 }

abbrev fresh_decoder : Decoder
fresh_decoder = record {
  limits = default_limits;
  state = read_fixed_header;
  buffer = [];
  capacity = 16384;
  prepared_size = 16384;
  read_offset = 0;
  pending_header = default_header;
  pending_metadata_size = 0;
  pending_body_size = 0;
  error = "";
}

abbrev ready_connection : Connection
ready_connection = record {
  state = ConnectionState.ready;
  fd = some 5;
  next_request_id = 1;
  decoder = fresh_decoder;
  writer_waits = true;
  pending_calls = [];
  outbound = [];
  limits = small_limits;
  metrics = record {
    calls_started = 0;
    calls_completed = 0;
    calls_timed_out = 0;
    calls_rejected = 0;
    late_responses = 0;
    connection_failures = 0;
  };
  outbound_bytes = 0;
  resumed = [];
}

-- A connection with a call of the coroutine 9 under the id 1, whose request of three bytes is queued.
abbrev queued_frame : OutboundFrame
queued_frame = record { request_id = 1; bytes = 7 ∷ 8 ∷ 9 ∷ []; control = false }

abbrev calling : Connection
calling = record ready_connection {
  pending_calls = (1, new_pending 9) ∷ [];
  outbound = queued_frame ∷ [];
  outbound_bytes = 3;
}

calling-ConnectionValid : ConnectionValid calling
unfolding find
calling-ConnectionValid = record {
  kept = record {
    limit_range = omega arith;
    counted = refl;
    bytes_in = omega arith;
    calls_in = omega arith;
    distinct = (refl, tt);
    released = inl refl;
  };
  settled = inl refl;
}

calling-Waits : Waits calling 1 (new_pending 9)
unfolding find
calling-Waits = record { kept = refl; unfinished = refl }

abbrev response_frame : Frame
response_frame = record {
  header = record { flags = 0; message_type = MessageType.response_type; request_id = 1 };
  metadata = [];
  body = 1 ∷ 2 ∷ [];
}

close-Ended_example : Ended calling CallStatus.connection_closed (close calling)
close-Ended_example = close-Ended calling calling-ConnectionValid refl

fail_connection-Ended_example :
    Ended calling CallStatus.protocol_error (fail_connection calling CallStatus.protocol_error)
fail_connection-Ended_example =
    fail_connection-Ended calling CallStatus.protocol_error calling-ConnectionValid refl

handle_frame-finish_call_example :
    (callers (handle_frame calling response_frame).0.resumed ≡ 9 ∷ [])
    × ((d : Connection) × ((finish_call (handle_frame calling response_frame).0 1
            ≡ some (d, answer 1 response_frame))
          × (find 1 d.pending_calls ≡ none)))
handle_frame-finish_call_example =
    handle_frame-finish_call calling (new_pending 9) response_frame calling-ConnectionValid
      calling-Waits refl

finish_call-handle_frame_example :
    (d : Connection) × ((r : CallResult) × ((finish_call calling 1 ≡ some (d, r))
        × ((r.status ≡ CallStatus.timeout)
            × ((find 1 d.pending_calls ≡ none)
                × (handle_frame d response_frame ≡ (
                  record d {
                    metrics = record d.metrics {
                      late_responses = add64 d.metrics.late_responses 1;
                    };
                  },
                  true,
                ))))))
finish_call-handle_frame_example =
    finish_call-handle_frame calling 1 (new_pending 9) response_frame calling-ConnectionValid
      calling-Waits refl refl

fill_batch_lem_example :
    (taken : Batched calling (queued_frame ∷ []) [] (fill_batch (queued_frame ∷ []) calling []))
    × ((length (fill_batch (queued_frame ∷ []) calling []).1 ≤ 64 * 1024)
        ⊎ Alone calling.pending_calls taken.sent (fill_batch (queued_frame ∷ []) calling []).1)
fill_batch_lem_example = fill_batch_lem calling

writer_turn_total_example : (d : Connection) × ((w : Writing) × (writer_turn calling ≡ some (d, w)))
writer_turn_total_example = writer_turn_total calling

-- The call has timed out while its connection drains.
abbrev draining : Connection
draining = record calling { state = ConnectionState.closing; pending_calls = [] }

draining_over : has_unfinished draining.pending_calls ≡ false
unfolding has_unfinished
draining_over = refl

writer_turn_stuck_example :
    (d : Connection) × ((writer_turn draining ≡ some (d, idle))
      × ((is_closing d.state ≡ true)
          × ((d.outbound ≡ []) × (has_unfinished d.pending_calls ≡ false))))
writer_turn_stuck_example =
    writer_turn_stuck draining queued_frame [] refl refl (refl, tt) draining_over

-- Three bytes of a header have come.
abbrev three_bytes : Bytes
three_bytes = 0x52 ∷ 0x50 ∷ 0x43 ∷ []

three_bytes-Running : Running (commit_writable fresh_decoder three_bytes 3).0
unfolding commit_writable
three_bytes-Running = record { valid = omega arith; holds = tt; bytes = omega arith }

received_total_example :
    (d : Connection) × ((reads : Bool) × (received calling (some three_bytes) ≡ some (d, reads)))
received_total_example = received_total calling three_bytes three_bytes-Running

abbrev small_request : Frame
small_request = default_frame

call_waits :
    call ready_connection (some 9) small_request 100
    ≡ ((call ready_connection (some 9) small_request 100).0, waiting 1)
unfolding call next_request_id send_encoded call_encoded find wake_writer encode build_header put
    bswap store load is_valid_message_type lacks_request_id sub64 add64
call_waits = refl

call-Started_example :
    ((is_ready ready_connection.state ≡ true)
      × (length ready_connection.pending_calls < ready_connection.limits.max_pending_calls))
    × ((1 ≡ ready_connection.next_request_id)
        × (((encode (numbered small_request 1) [] none).success ≡ true)
            × Started ready_connection 9 1
                (encode (numbered small_request 1) [] none).output
                (call ready_connection (some 9) small_request 100).0))
call-Started_example =
    call-Started ready_connection 9 small_request 100
      (call ready_connection (some 9) small_request 100).0 1 call_waits

-- The connection is created, attached, called and closed.
abbrev created_connection : Connection
created_connection = record ready_connection {
  state = ConnectionState.disconnected;
  fd = none;
  decoder = Decoder.init default_limits;
  writer_waits = false;
}

create_small : create small_limits ≡ some created_connection
unfolding create
create_small = refl

attach_small : attach created_connection (some 5) true true ≡ some (ready_connection, true)
unfolding attach start_fibers start_read writer_turn run_writer fill_batch prepare_writable
    make_room ensure_writable Decoder.init sub64 add64 Decoder.compact_buffer
attach_small = refl

Reachable-ConnectionValid_example :
    ConnectionValid (close (call ready_connection (some 9) small_request 100).0)
    ⊎ ((false ≡ true) × Broken (close (call ready_connection (some 9) small_request 100).0))
Reachable-ConnectionValid_example =
    Reachable-ConnectionValid small_limits false
      (close (call ready_connection (some 9) small_request 100).0) (omega arith)
      (led
        (led (led (constructed create_small) (attached (some 5) true true true attach_small))
          (called (some 9) small_request 100 refl))
        (was_closed refl))
