-- ===== src/Transport/Connection/Invariant/Calls.antt =====
-- The calls of a connection keep its invariant.
use coro_rpc.Protocol.Wire.{Bytes}
use coro_rpc.Protocol.Metadata.{RequestMetadata}
use coro_rpc.Transport.Status.{CallStatus, CallResult}
use coro_rpc.Protocol.Frame.{Frame, Encoded}
use coro_rpc.Transport.Connection.{
  Connection, is_down, OutboundFrame, next_request_id, find, PendingCall, update, ConnectionMetrics,
  erase,
}
use coro_rpc.Base.{
  length, Bool-cases, Option-cases, add64, sub64_exact, add64_exact, ℕ, ◌+◌, ◌≤◌, ◌<◌, ◌≡◌, inl,
  inr, false, none, List, [], ◌∷◌, ◌++◌, arith, true, Option, some, refl,
}
use coro_rpc.Transport.Connection.Calls.{
  new_pending, call_encoded, send_encoded, exceeds_outbound, count_rejection, call, call_metadata,
  queue_cancel, time_out, cancel_frame, finish_call,
}
use coro_rpc.Transport.Connection.Valid.{
  ConnectionValid, Kept, total_bytes, wake_writer-ConnectionValid, has_unfinished-update,
  maybe_finish_drain-ConnectionValid, has_unfinished-erase, length-update, length-erase,
  update-Distinct, erase-Distinct,
}
use coro_rpc.Protocol.Encoder.{encode_request, encode}

pub total_bytes-append :
    (fs gs : List OutboundFrame) → total_bytes (fs ++ gs) ≡ total_bytes fs + total_bytes gs
total_bytes-append [] gs = omega arith
total_bytes-append (f ∷ fs) gs = omega (arith, total_bytes-append fs gs)

-- Bytes that fit the limit are counted without wrapping around.
fits_outbound :
    (c : Connection) (encoded : Bytes)
    → Kept c
    → exceeds_outbound c encoded ≡ false
    → (add64 c.outbound_bytes (length encoded) ≡ c.outbound_bytes + length encoded)
      × (c.outbound_bytes + length encoded ≤ c.limits.max_outbound_bytes)
fits_outbound c encoded v h =
    let s = sub64_exact c.limits.max_outbound_bytes (length encoded) in
    let a = add64_exact c.outbound_bytes (length encoded) in ground arith

-- One more frame in the queue.
queued-Kept :
    (c : Connection) (f : OutboundFrame)
    → Kept c
    → is_down c.state ≡ false
    → exceeds_outbound c f.bytes ≡ false
    → Kept (record c {
      outbound = c.outbound ++ f ∷ [];
      outbound_bytes = add64 c.outbound_bytes (length f.bytes);
    })
queued-Kept c f v up h =
    let fits = fits_outbound c f.bytes v h in
    let total = total_bytes-append c.outbound (f ∷ []) in
    record {
      limit_range = v.limit_range;
      counted = omega (arith, v.counted);
      bytes_in = omega arith;
      calls_in = v.calls_in;
      distinct = v.distinct;
      released = inl up;
    }

count_rejection-ConnectionValid :
    (c : Connection) → ConnectionValid c → ConnectionValid (count_rejection c)
count_rejection-ConnectionValid c v = ground arith

next_request_id-ConnectionValid :
    (c : Connection) → ConnectionValid c → ConnectionValid (next_request_id c).0
unfolding next_request_id
next_request_id-ConnectionValid c v = ground arith

next_request_id_keeps :
    (c : Connection)
    → ((next_request_id c).0.state ≡ c.state)
      × (((next_request_id c).0.limits ≡ c.limits)
          × ((next_request_id c).0.pending_calls ≡ c.pending_calls))
unfolding next_request_id
next_request_id_keeps c = ground arith

-- The connection in which `CallEncoded` waits.
abbrev started : Connection → ℕ → ℕ → Bytes → Connection
started c current id encoded = record c {
  pending_calls = (id, new_pending current) ∷ c.pending_calls;
  outbound = c.outbound ++ record { request_id = id; bytes = encoded; control = false } ∷ [];
  outbound_bytes = add64 c.outbound_bytes (length encoded);
  metrics = record c.metrics { calls_started = add64 c.metrics.calls_started 1 };
}

started-ConnectionValid :
    (c : Connection) (current id : ℕ) (encoded : Bytes)
    → ConnectionValid c
    → is_down c.state ≡ false
    → length c.pending_calls < c.limits.max_pending_calls
    → find id c.pending_calls ≡ none
    → exceeds_outbound c encoded ≡ false
    → ConnectionValid (started c current id encoded)
started-ConnectionValid c current id encoded v up room fresh fits =
    let f : OutboundFrame = record { request_id = id; bytes = encoded; control = false } in
    let k = queued-Kept c f v.kept up fits in
    record {
      kept = record {
        limit_range = k.limit_range;
        counted = k.counted;
        bytes_in = k.bytes_in;
        calls_in = omega arith;
        distinct = (fresh, k.distinct);
        released = inl up;
      };
      settled = inl up;
    }

call_encoded-ConnectionValid :
    (c : Connection) (current id : ℕ) (encoded : Bytes)
    → ConnectionValid c
    → is_down c.state ≡ false
    → length c.pending_calls < c.limits.max_pending_calls
    → ConnectionValid (call_encoded c current id encoded).0
unfolding call_encoded
call_encoded-ConnectionValid c current id encoded v up room =
    let r = count_rejection-ConnectionValid c v in
    elim (Option-cases (find id c.pending_calls)) [
      | inr (p, e) ↦ rw (e, call_encoded) v
      | inl fresh ↦
          rw (fresh, call_encoded)
            (elim (Bool-cases (exceeds_outbound c encoded)) [
              | inl h ↦ rw h r
              | inr h ↦ rw h (
                  wake_writer-ConnectionValid (started c current id encoded)
                    (started-ConnectionValid c current id encoded v up room fresh h))
            ])
    ]

send_encoded-ConnectionValid :
    (c : Connection) (current id : ℕ) (e : Encoded)
    → ConnectionValid c
    → is_down c.state ≡ false
    → length c.pending_calls < c.limits.max_pending_calls
    → ConnectionValid (send_encoded c current id e).0
unfolding send_encoded
send_encoded-ConnectionValid c current id e v up room =
    let k = call_encoded-ConnectionValid c current id e.output v up room in ground arith

-- `Call` of a frame keeps the invariant.
pub call-ConnectionValid :
    (c : Connection) (current : Option ℕ) (request : Frame) (timeout_ms : ℕ)
    → ConnectionValid c
    → ConnectionValid (call c current request timeout_ms).0
unfolding call
call-ConnectionValid c none request timeout_ms v = v
call-ConnectionValid c (some current) request timeout_ms v =
    let numbered = (next_request_id c).0 in
    let fresh = (next_request_id c).1 in
    let fresh_frame : Frame = record request {
      header = record request.header { request_id = fresh };
    } in
    let n = next_request_id-ConnectionValid c v in
    let r = count_rejection-ConnectionValid c v in
    let same = next_request_id_keeps c in
    let a = send_encoded-ConnectionValid numbered current fresh (encode fresh_frame [] none) n in
    let b =
      send_encoded-ConnectionValid c current request.header.request_id (encode request [] none) v in
    ground arith

pub call_metadata-ConnectionValid :
    (c : Connection) (current : Option ℕ) (metadata : RequestMetadata) (body : Bytes)
    (timeout_ms : ℕ)
    → ConnectionValid c
    → ConnectionValid (call_metadata c current metadata body timeout_ms).0
unfolding call_metadata
call_metadata-ConnectionValid c none metadata body timeout_ms v = v
call_metadata-ConnectionValid c (some current) metadata body timeout_ms v =
    let numbered = (next_request_id c).0 in
    let fresh = (next_request_id c).1 in
    let n = next_request_id-ConnectionValid c v in
    let r = count_rejection-ConnectionValid c v in
    let same = next_request_id_keeps c in
    let a =
      send_encoded-ConnectionValid numbered current fresh
        (encode_request metadata body fresh [] none) n in
    ground arith

queue_cancel-ConnectionValid :
    (c : Connection) (id : ℕ) → ConnectionValid c → ConnectionValid (queue_cancel c id)
unfolding queue_cancel
queue_cancel-ConnectionValid c id v =
    let bytes = (encode (cancel_frame id) [] none).output in
    let f : OutboundFrame = record { request_id = id; bytes = bytes; control = true } in
    let queued : Connection = record c {
      outbound_bytes = add64 c.outbound_bytes (length bytes);
      outbound = c.outbound ++ f ∷ [];
    } in
    let k = queued-Kept c f v.kept in let w = wake_writer-ConnectionValid queued in ground arith

-- A write to a pending call that completes it.
pub completing-ConnectionValid :
    (c : Connection) (id : ℕ) (q : PendingCall) (m : ConnectionMetrics)
    → q.completed ≡ true
    → ConnectionValid c
    → ConnectionValid (record c { pending_calls = update id q c.pending_calls; metrics = m })
completing-ConnectionValid c id q m done v =
    let k = v.kept in
    let settles = has_unfinished-update id q c.pending_calls done in
    record {
      kept = record {
        limit_range = k.limit_range;
        counted = k.counted;
        bytes_in = k.bytes_in;
        calls_in = omega (arith, length-update id q c.pending_calls);
        distinct = update-Distinct id q c.pending_calls k.distinct;
        released = k.released;
      };
      settled = ground arith;
    }

time_out-ConnectionValid :
    (c : Connection) (id : ℕ) (p : PendingCall)
    → ConnectionValid c
    → ConnectionValid (time_out c id p)
unfolding time_out
time_out-ConnectionValid c id p v =
    let q : PendingCall = record p { completed = true; status = CallStatus.timeout } in
    let counted : ConnectionMetrics = record c.metrics {
      calls_timed_out = add64 c.metrics.calls_timed_out 1;
    } in
    let timed_out : Connection = record c {
      pending_calls = update id q c.pending_calls;
      metrics = counted;
    } in
    let t = completing-ConnectionValid c id q counted refl v in
    let a = maybe_finish_drain-ConnectionValid timed_out t in
    let b =
      maybe_finish_drain-ConnectionValid (queue_cancel timed_out id)
        (queue_cancel-ConnectionValid timed_out id t) in
    ground arith

erase-ConnectionValid :
    (c : Connection) (id : ℕ)
    → ConnectionValid c
    → ConnectionValid (record c { pending_calls = erase id c.pending_calls })
erase-ConnectionValid c id v =
    let k = v.kept in
    let settles = has_unfinished-erase id c.pending_calls in
    record {
      kept = record {
        limit_range = k.limit_range;
        counted = k.counted;
        bytes_in = k.bytes_in;
        calls_in = omega (arith, length-erase id c.pending_calls);
        distinct = erase-Distinct id c.pending_calls k.distinct;
        released = k.released;
      };
      settled = ground arith;
    }

-- `CallEncoded` behind its wait keeps the invariant.
pub finish_call-ConnectionValid :
    (c : Connection) (id : ℕ) (d : Connection) (r : CallResult)
    → ConnectionValid c
    → finish_call c id ≡ some (d, r)
    → ConnectionValid d
unfolding finish_call
finish_call-ConnectionValid c id d r v h = elim (Option-cases (find id c.pending_calls)) [
  | inl n ↦ absurd (ground arith)
  | inr (p, e) ↦
      let settled = time_out c id p in
      let t = erase-ConnectionValid settled id (time_out-ConnectionValid c id p v) in
      elim (Option-cases (find id settled.pending_calls)) [
        | inl n ↦ absurd (ground arith)
        | inr (q, f) ↦ ground arith
      ]
]
