-- ===== src/Transport/Connection/Invariant/Broken.antt =====
-- A connection that an exception of `Resume` has left closed: calls may still wait on it, and whatever
-- its operations do from then on, it stays closed and its accounting stays right.
use coro_rpc.Protocol.Decoder.{more_needed, invalid, Polled}
use coro_rpc.Transport.Connection.Completing.{
  IsClosed, maybe_finish_drain-IsClosed, complete_pending-Kept, complete_all-IsClosed,
  complete_pending-IsClosed,
}
use coro_rpc.Transport.Connection.Valid.{
  Kept, length-erase, length-update, shut, erase-Distinct, update-Distinct, state-wake_writer,
}
use coro_rpc.Base.{
  length, Option-cases, if_cases, add64, ℕ, zero, suc, ◌+◌, ◌≡◌, refl, sym, ◌∙◌, inl, inr, Bool,
  true, false, Option, none, some, [], arith,
}
use coro_rpc.Transport.Connection.Opening.{attach, connect}
use coro_rpc.Transport.Connection.{
  Connection, PendingCall, erase, CallStatus, Decoder, Frame, Bytes, is_down, update, find,
}
use coro_rpc.Transport.Connection.Calls.{queue_cancel, call_metadata, finish_call, time_out, call}
use coro_rpc.Transport.Connection.Reader.{handle_frame, deliver, start_read, received}
use coro_rpc.Transport.Connection.Writer.{writer_turn, run_writer, written, Writing}
use coro_rpc.Transport.Connection.Closing.{
  begin_drain, fail_connection_in, close, fail_connection, complete_pending, maybe_finish_drain,
  complete_all,
}
use coro_rpc.Protocol.Metadata.{RequestMetadata}
use coro_rpc.Protocol.Decoder.{Decoder, next, commit_writable}
use coro_rpc.Protocol.Frame.{Frame}
use coro_rpc.Transport.Status.{CallResult, CallStatus}
use coro_rpc.Protocol.Wire.{Bytes}
use coro_rpc.Transport.Connection.Ends.{fail_connection_down, close_down}
use coro_rpc.Transport.Connection.Invariant.{fail_connection_in-Kept}
use mathlib.Core.Path.{subst}

pub record Broken (c : Connection) : Type 0 where
  pub kept : Kept c
  pub shut_down : IsClosed c

pub fail_connection_in-Broken :
    (running : Option ℕ) (c : Connection) (status : CallStatus)
    → Kept c
    → is_down c.state ≡ false
    → Broken (fail_connection_in running c status)
unfolding fail_connection_in
fail_connection_in-Broken running c status v up =
    let cleared : Connection = record (shut c) {
      metrics = record c.metrics { connection_failures = add64 c.metrics.connection_failures 1 };
    } in
    let out = complete_all maybe_finish_drain running cleared status in
    let closed = complete_all-IsClosed running cleared status refl in
    let awake = state-wake_writer out.0 in
    record {
      kept = fail_connection_in-Kept running c status v;
      shut_down = rw up (if_cases IsClosed out.1 _ _ (λ e. closed) (λ e. awake ∙ closed));
    }

decoder-Broken : (c : Connection) (d : Decoder) → Broken c → Broken (record c { decoder = d })
decoder-Broken c d v = ground arith

complete_pending-Broken :
    (c : Connection) (id : ℕ) (p : PendingCall) (status : CallStatus) (response : Frame)
    → Broken c
    → Broken (complete_pending maybe_finish_drain none c id p status response)
complete_pending-Broken c id p status response v = record {
  kept = complete_pending-Kept none c id p status response v.kept;
  shut_down = complete_pending-IsClosed none c id p status response v.shut_down;
}

fail_connection_idle :
    (c : Connection) (status : CallStatus) → Broken c → fail_connection c status ≡ c
fail_connection_idle c status v = fail_connection_down c status (ground arith)

handle_frame-Broken : (c : Connection) (frame : Frame) → Broken c → Broken (handle_frame c frame).0
unfolding handle_frame
handle_frame-Broken c frame v =
    let f = fail_connection_idle c CallStatus.protocol_error v in
    let id = frame.header.request_id in
    elim (Option-cases (find id c.pending_calls)) [
      | inl n ↦ ground arith
      | inr (p, e) ↦ let a = complete_pending-Broken c id p CallStatus.ok frame v in ground arith
    ]

deliver-Broken : (fuel : ℕ) (c e : Connection) → Broken c → deliver fuel c ≡ some e → Broken e
unfolding deliver
deliver-Broken zero c e v h = absurd (ground arith)
deliver-Broken (suc fuel) c e v h = elim (Option-cases (next c.decoder)) [
  | inl n ↦ absurd (ground arith)
  | inr ((d, more_needed), n) ↦ let k = decoder-Broken c d v in ground arith
  | inr ((d, invalid), n) ↦
      let k = decoder-Broken c d v in
      let f = fail_connection_idle (record c { decoder = d }) CallStatus.protocol_error k in
      ground arith
  | inr ((d, Polled.ready frame), n) ↦
      let handled = (handle_frame (record c { decoder = d }) frame).0 in
      let k = handle_frame-Broken (record c { decoder = d }) frame (decoder-Broken c d v) in
      let rest = deliver-Broken fuel handled e k in ground arith
]

start_read-Broken : (c : Connection) → Broken c → Broken (start_read c).0
unfolding start_read
start_read-Broken c v = let s = v.shut_down in ground arith

pub received-Broken :
    (c : Connection) (input : Option Bytes) (d : Connection) (reads : Bool)
    → Broken c
    → received c input ≡ some (d, reads)
    → Broken d
unfolding received
received-Broken c none d reads v h =
    let after = (commit_writable c.decoder [] 0).0 in
    let k = decoder-Broken c after v in
    let f = fail_connection_idle (record c { decoder = after }) CallStatus.connection_closed k in
    ground arith
received-Broken c (some bytes) d reads v h =
    let after = (commit_writable c.decoder bytes (length bytes)).0 in
    let committed : Connection = record c { decoder = after } in
    let k = decoder-Broken c after v in
    let f = fail_connection_idle committed CallStatus.protocol_error k in
    elim (Option-cases (deliver (length after.buffer + 33) committed)) [
      | inl n ↦ ground arith
      | inr (e, n) ↦
          let l = deliver-Broken (length after.buffer + 33) committed e k n in
          let s = start_read-Broken e l in ground arith
    ]

run_writer-Broken :
    (fuel : ℕ) (c d : Connection) (w : Writing)
    → Broken c
    → run_writer fuel c ≡ some (d, w)
    → Broken d
unfolding run_writer
run_writer-Broken zero c d w v h = absurd (ground arith)
run_writer-Broken (suc fuel) c d w v h = let s = v.shut_down in ground arith

pub writer_turn-Broken :
    (c d : Connection) (w : Writing) → Broken c → writer_turn c ≡ some (d, w) → Broken d
unfolding writer_turn
writer_turn-Broken c d w v h = run_writer-Broken 2 c d w v h

pub written-Broken :
    (c : Connection) (all : Bool) (d : Connection) (w : Writing)
    → Broken c
    → written c all ≡ some (d, w)
    → Broken d
unfolding written
written-Broken c all d w v h =
    let m = maybe_finish_drain-IsClosed c v.shut_down in
    let f = fail_connection_idle c CallStatus.connection_closed v in
    let r = writer_turn-Broken c d w v in ground arith

queue_cancel_idle : (c : Connection) (id : ℕ) → IsClosed c → queue_cancel c id ≡ c
unfolding queue_cancel
queue_cancel_idle c id h = ground arith

timed_out-Broken :
    (c : Connection) (id : ℕ) (p : PendingCall)
    → Broken c
    → Broken (record c {
      pending_calls =
          update id (record p { completed = true; status = CallStatus.timeout }) c.pending_calls;
      metrics = record c.metrics { calls_timed_out = add64 c.metrics.calls_timed_out 1 };
    })
timed_out-Broken c id p v =
    let q : PendingCall = record p { completed = true; status = CallStatus.timeout } in
    let k = v.kept in
    record {
      kept = record {
        limit_range = k.limit_range;
        counted = k.counted;
        bytes_in = k.bytes_in;
        calls_in = omega (arith, k.calls_in, length-update id q c.pending_calls);
        distinct = update-Distinct id q c.pending_calls k.distinct;
        released = k.released;
      };
      shut_down = v.shut_down;
    }

time_out-Broken : (c : Connection) (id : ℕ) (p : PendingCall) → Broken c → Broken (time_out c id p)
unfolding time_out
time_out-Broken c id p v =
    let after : Connection = record c {
      pending_calls =
          update id (record p { completed = true; status = CallStatus.timeout }) c.pending_calls;
      metrics = record c.metrics { calls_timed_out = add64 c.metrics.calls_timed_out 1 };
    } in
    let t = timed_out-Broken c id p v in
    let q = queue_cancel_idle after id t.shut_down in
    let m = maybe_finish_drain-IsClosed after t.shut_down in ground arith

erased-Broken :
    (c : Connection) (id : ℕ)
    → Broken c
    → Broken (record c { pending_calls = erase id c.pending_calls })
erased-Broken c id v =
    let k = v.kept in
    record {
      kept = record {
        limit_range = k.limit_range;
        counted = k.counted;
        bytes_in = k.bytes_in;
        calls_in = omega (arith, k.calls_in, length-erase id c.pending_calls);
        distinct = erase-Distinct id c.pending_calls k.distinct;
        released = k.released;
      };
      shut_down = v.shut_down;
    }

pub finish_call-Broken :
    (c : Connection) (id : ℕ) (d : Connection) (r : CallResult)
    → Broken c
    → finish_call c id ≡ some (d, r)
    → Broken d
unfolding finish_call
finish_call-Broken c id d r v h = elim (Option-cases (find id c.pending_calls)) [
  | inl n ↦ absurd (ground arith)
  | inr (p, e) ↦
      let settled = time_out c id p in
      let t = time_out-Broken c id p v in
      let x = erased-Broken settled id t in
      elim (Option-cases (find id settled.pending_calls)) [
        | inl n ↦ absurd (ground arith)
        | inr (q, f) ↦ ground arith
      ]
]

-- The operations that ask whether the connection is open leave it as it is.
pub call-Broken :
    (c : Connection) (current : Option ℕ) (request : Frame) (timeout_ms : ℕ)
    → Broken c
    → Broken (call c current request timeout_ms).0
unfolding call
call-Broken c none request timeout_ms v = v
call-Broken c (some current) request timeout_ms v = let s = v.shut_down in ground arith

pub call_metadata-Broken :
    (c : Connection) (current : Option ℕ) (metadata : RequestMetadata) (body : Bytes)
    (timeout_ms : ℕ)
    → Broken c
    → Broken (call_metadata c current metadata body timeout_ms).0
unfolding call_metadata
call_metadata-Broken c none metadata body timeout_ms v = v
call_metadata-Broken c (some current) metadata body timeout_ms v =
    let s = v.shut_down in ground arith

pub begin_drain-Broken : (c : Connection) → Broken c → Broken (begin_drain c)
unfolding begin_drain
begin_drain-Broken c v = let s = v.shut_down in ground arith

pub close-Broken : (c : Connection) → Broken c → Broken (close c)
close-Broken c v = subst Broken (sym (close_down c (ground arith))) v

pub attach-Broken :
    (c : Connection) (fd : Option ℕ) (configured created : Bool) (d : Connection) (done : Bool)
    → Broken c
    → attach c fd configured created ≡ some (d, done)
    → Broken d
unfolding attach
attach-Broken c none configured created d done v h = ground arith
attach-Broken c (some fd) configured created d done v h = let s = v.shut_down in ground arith

pub connect-Broken :
    (c : Connection) (has_address : Bool) (fd : Option ℕ) (configured success created : Bool)
    (d : Connection) (done : Bool)
    → Broken c
    → connect c has_address fd configured success created ≡ some (d, done)
    → Broken d
unfolding connect
connect-Broken c has_address none configured success created d done v h = ground arith
connect-Broken c has_address (some fd) configured success created d done v h =
    let s = v.shut_down in ground arith
