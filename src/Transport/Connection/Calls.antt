-- ===== src/Transport/Connection/Calls.antt =====
-- The two `Call`s of a connection, `CallEncoded` before and after its wait, and `QueueCancel`.
use coro_rpc.Protocol.Wire.{Bytes}
use coro_rpc.Protocol.MessageType
use coro_rpc.Protocol.Metadata.{RequestMetadata}
use coro_rpc.Protocol.Frame.{Frame, Encoded, default_frame}
use coro_rpc.Protocol.Encoder.{encode, encode_request}
use coro_rpc.Transport.Status.{CallStatus, CallResult, default_result}
use coro_rpc.Transport.Connection.{
  Connection, PendingCall, find, update, erase, next_request_id, wake_writer, is_ready,
}
use coro_rpc.Transport.Connection.Closing.{maybe_finish_drain}
use coro_rpc.Base.{
  length, ltb, leb, ◌==◌, if◌then◌else◌, sub64, add64, ℕ, Bool, true, false, not, ◌||◌, Option,
  none, some, [], ◌∷◌, ◌++◌,
}

-- How a call goes on: it returns, or it waits under its request id.
pub data Called : Type 0 where
  returned : CallResult → Called
  waiting : ℕ → Called

abbrev pub refused : ℕ → CallStatus → Called
refused id status = returned (record default_result { status = status; request_id = id })

-- `metrics_.calls_rejected`.
abbrev pub count_rejection : Connection → Connection
count_rejection c = record c {
  metrics = record c.metrics { calls_rejected = add64 c.metrics.calls_rejected 1 };
}

-- The bytes do not fit the outbound limit.
abbrev pub exceeds_outbound : Connection → Bytes → Bool
exceeds_outbound c encoded =
    ltb c.limits.max_outbound_bytes (length encoded)
    || ltb (sub64 c.limits.max_outbound_bytes (length encoded)) c.outbound_bytes

-- `PendingCall` as `CallEncoded` fills it.
abbrev pub new_pending : ℕ → PendingCall
new_pending coroutine = record {
  coroutine = coroutine;
  status = CallStatus.not_connected;
  response = default_frame;
  completed = false;
  sent = false;
}

-- `CallEncoded` up to its wait, in the coroutine `current`.
unfoldable pub call_encoded : Connection → ℕ → ℕ → Bytes → Connection × Called
call_encoded c current id encoded =
    let queued = record c {
      pending_calls = (id, new_pending current) ∷ c.pending_calls;
      outbound = c.outbound ++ record { request_id = id; bytes = encoded; control = false } ∷ [];
      outbound_bytes = add64 c.outbound_bytes (length encoded);
      metrics = record c.metrics { calls_started = add64 c.metrics.calls_started 1 };
    } in
    let accepted : Connection × Called =
      if exceeds_outbound c encoded
      then (count_rejection c, refused id CallStatus.local_overloaded)
      else (wake_writer queued, waiting id) in
    elim (find id c.pending_calls) [
      | some p ↦ (c, refused id CallStatus.duplicate_request_id)
      | none ↦ accepted
    ]

-- The step from an encoder's result to `CallEncoded`.
unfoldable pub send_encoded : Connection → ℕ → ℕ → Encoded → Connection × Called
send_encoded c current id e =
    if e.success
    then call_encoded c current id e.output
    else (c, refused id CallStatus.encode_error)

abbrev pub is_full : Connection → Bool
is_full c = leb c.limits.max_pending_calls (length c.pending_calls)

-- `Call` of a frame. `current` is the coroutine that runs, if one does.
unfoldable pub call : Connection → Option ℕ → Frame → ℕ → Connection × Called
call c none request timeout_ms = (c, returned default_result)
call c (some current) request timeout_ms =
    let (numbered, fresh) = next_request_id c in
    let fresh_frame = record request { header = record request.header { request_id = fresh } } in
    if not (is_ready c.state)
    then (c, returned default_result)
    else (if not (request.header.message_type == MessageType.request_type)
        then (c, refused 0 CallStatus.invalid_request)
        else (if timeout_ms == 0
            then (c, refused 0 CallStatus.timeout)
            else (if is_full c
                then (count_rejection c, refused 0 CallStatus.local_overloaded)
                else (if request.header.request_id == 0
                    then send_encoded numbered current fresh (encode fresh_frame [] none)
                    else send_encoded c current request.header.request_id
                        (encode request [] none)))))

-- `Call` of metadata and a body.
unfoldable pub call_metadata :
    Connection → Option ℕ → RequestMetadata → Bytes → ℕ → Connection × Called
call_metadata c none metadata body timeout_ms = (c, returned default_result)
call_metadata c (some current) metadata body timeout_ms =
    let (numbered, fresh) = next_request_id c in
    if not (is_ready c.state)
    then (c, returned default_result)
    else (if timeout_ms == 0
        then (c, refused 0 CallStatus.timeout)
        else (if is_full c
            then (count_rejection c, refused 0 CallStatus.local_overloaded)
            else send_encoded numbered current fresh (encode_request metadata body fresh [] none)))

abbrev pub cancel_frame : ℕ → Frame
cancel_frame id = record default_frame {
  header = record { flags = 0; message_type = MessageType.cancel_type; request_id = id };
}

-- `QueueCancel`.
unfoldable pub queue_cancel : Connection → ℕ → Connection
queue_cancel c id =
    let e = encode (cancel_frame id) [] none in
    let queued = record c {
      outbound_bytes = add64 c.outbound_bytes (length e.output);
      outbound = c.outbound ++ record { request_id = id; bytes = e.output; control = true } ∷ [];
    } in
    if not (is_ready c.state) || id == 0
    then c
    else (if not e.success || exceeds_outbound c e.output then c else wake_writer queued)

-- The branch of `CallEncoded` behind its wait for a call that is not completed.
unfoldable pub time_out : Connection → ℕ → PendingCall → Connection
time_out c id p =
    let timed_out = record c {
      pending_calls =
          update id (record p { completed = true; status = CallStatus.timeout }) c.pending_calls;
      metrics = record c.metrics { calls_timed_out = add64 c.metrics.calls_timed_out 1 };
    } in
    if p.completed
    then c
    else maybe_finish_drain (if p.sent then queue_cancel timed_out id else timed_out)

-- `CallEncoded` behind its wait, whether it was resumed or its time is over. `none` is a call that is
-- not kept, which the code does not ask for.
unfoldable pub finish_call : Connection → ℕ → Option (Connection × CallResult)
finish_call c id = elim (find id c.pending_calls) [
  | none ↦ none
  | some p ↦
      let settled = time_out c id p in
      elim (find id settled.pending_calls) [
        | none ↦ none
        | some q ↦ some (
          record settled { pending_calls = erase id settled.pending_calls },
          record {
            status = q.status;
            rpc_status = q.response.header.flags;
            request_id = id;
            response = q.response;
          },
        )
      ]
]
