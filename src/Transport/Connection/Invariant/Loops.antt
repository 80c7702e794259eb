-- ===== src/Transport/Connection/Invariant/Loops.antt =====
-- The reader and the writer of a connection keep its invariant.
use coro_rpc.Protocol.Decoder.{more_needed, invalid, Polled}
use coro_rpc.Protocol.Wire.{Bytes}
use coro_rpc.Transport.Status.{CallStatus}
use coro_rpc.Protocol.Frame.{Frame}
use coro_rpc.Transport.Connection.{
  Connection, is_down, Decoder, PendingCall, count_completion, find, update, OutboundFrame,
}
use coro_rpc.Base.{
  length, Option-cases, ℕ, zero, suc, ◌+◌, ◌≡◌, refl, inl, inr, Bool, true, Option, none, some, [],
  arith, if◌then◌else◌, sub64, sub64_exact, ap, false, List, ◌∷◌, ◌++◌,
}
use coro_rpc.Transport.Connection.Closing.{complete_pending, maybe_finish_drain}
use coro_rpc.Transport.Connection.Reader.{deliver, received, start_read, handle_frame}
use coro_rpc.Transport.Connection.Valid.{
  ConnectionValid, total_bytes, length-update, update-Distinct,
}
use coro_rpc.Protocol.Decoder.{more_needed, invalid, commit_writable, next, prepare_writable}
use coro_rpc.Transport.Connection.Invariant.{
  fail_connection-ConnectionValid, maybe_finish_drain-ConnectionValid,
}
use coro_rpc.Protocol.Decoder.Session.{read_size}
use coro_rpc.Transport.Connection.Invariant.Calls.{completing-ConnectionValid}
use coro_rpc.Transport.Connection.Writer.{
  run_writer, take_front, written, fill_batch, Writing, writer_turn,
}

complete_pending-ConnectionValid :
    (c : Connection) (id : ℕ) (p : PendingCall) (status : CallStatus) (response : Frame)
    → ConnectionValid c
    → ConnectionValid (complete_pending maybe_finish_drain none c id p status response)
unfolding complete_pending
complete_pending-ConnectionValid c id p status response v =
    let q : PendingCall = record p { completed = true; status = status; response = response } in
    let m = count_completion status c.metrics in
    let e : Connection = record c { pending_calls = update id q c.pending_calls; metrics = m } in
    let d = maybe_finish_drain-ConnectionValid e (completing-ConnectionValid c id q m refl v) in
    ground arith

handle_frame-ConnectionValid :
    (c : Connection) (frame : Frame) → ConnectionValid c → ConnectionValid (handle_frame c frame).0
unfolding handle_frame
handle_frame-ConnectionValid c frame v =
    let f = fail_connection-ConnectionValid c CallStatus.protocol_error v in
    let id = frame.header.request_id in
    elim (Option-cases (find id c.pending_calls)) [
      | inl n ↦ ground arith
      | inr (p, e) ↦
          let a = complete_pending-ConnectionValid c id p CallStatus.ok frame v in ground arith
    ]

decoder-ConnectionValid :
    (c : Connection) (d : Decoder) → ConnectionValid c → ConnectionValid (record c { decoder = d })
decoder-ConnectionValid c d v = ground arith

-- The inner loop of the reader keeps the invariant.
pub deliver-ConnectionValid :
    (fuel : ℕ) (c e : Connection) → ConnectionValid c → deliver fuel c ≡ some e → ConnectionValid e
unfolding deliver
deliver-ConnectionValid zero c e v h = absurd (ground arith)
deliver-ConnectionValid (suc fuel) c e v h = elim (Option-cases (next c.decoder)) [
  | inl n ↦ absurd (ground arith)
  | inr ((d, more_needed), n) ↦ let k = decoder-ConnectionValid c d v in ground arith
  | inr ((d, invalid), n) ↦
      let k =
        fail_connection-ConnectionValid (record c { decoder = d }) CallStatus.protocol_error
          (decoder-ConnectionValid c d v) in
      ground arith
  | inr ((d, Polled.ready frame), n) ↦
      let handled = (handle_frame (record c { decoder = d }) frame).0 in
      let k =
        handle_frame-ConnectionValid (record c { decoder = d }) frame
          (decoder-ConnectionValid c d v) in
      let rest = deliver-ConnectionValid fuel handled e k in ground arith
]

pub start_read-ConnectionValid :
    (c : Connection) → ConnectionValid c → ConnectionValid (start_read c).0
unfolding start_read
start_read-ConnectionValid c v =
    let d = (prepare_writable c.decoder read_size).0 in
    let k = decoder-ConnectionValid c d v in
    let f =
      fail_connection-ConnectionValid (record c { decoder = d }) CallStatus.protocol_error k in
    ground arith

pub received-ConnectionValid :
    (c : Connection) (input : Option Bytes) (d : Connection) (reads : Bool)
    → ConnectionValid c
    → received c input ≡ some (d, reads)
    → ConnectionValid d
unfolding received
received-ConnectionValid c none d reads v h =
    let k = decoder-ConnectionValid c (commit_writable c.decoder [] 0).0 v in
    let f =
      fail_connection-ConnectionValid (record c { decoder = (commit_writable c.decoder [] 0).0 })
        CallStatus.connection_closed k in
    ground arith
received-ConnectionValid c (some bytes) d reads v h =
    let after = (commit_writable c.decoder bytes (length bytes)).0 in
    let committed : Connection = record c { decoder = after } in
    let k = decoder-ConnectionValid c after v in
    let f = fail_connection-ConnectionValid committed CallStatus.protocol_error k in
    elim (Option-cases (deliver (length after.buffer + 33) committed)) [
      | inl n ↦ ground arith
      | inr (e, n) ↦
          let l = deliver-ConnectionValid (length after.buffer + 33) committed e k n in
          let s = start_read-ConnectionValid e l in ground arith
    ]

-- An open connection stays as it is but for its pending calls and its queue.
abbrev Up : Connection → Type 0
Up c = is_down c.state ≡ false

popped-ConnectionValid :
    (c : Connection) (frame : OutboundFrame) (rest : List OutboundFrame)
    → ConnectionValid c
    → Up c
    → c.outbound ≡ frame ∷ rest
    → ConnectionValid
        (record c { outbound = rest; outbound_bytes = sub64 c.outbound_bytes (length frame.bytes) })
popped-ConnectionValid c frame rest v up e =
    let k = v.kept in
    let total = ap total_bytes e in
    let s = sub64_exact c.outbound_bytes (length frame.bytes) in
    record {
      kept = record {
        limit_range = k.limit_range;
        counted = ground arith;
        bytes_in = ground arith;
        calls_in = k.calls_in;
        distinct = k.distinct;
        released = inl up;
      };
      settled = inl up;
    }

take_front-ConnectionValid :
    (c : Connection) (frame : OutboundFrame)
    → ConnectionValid c
    → Up c
    → ConnectionValid (take_front c frame).0
      × (Up (take_front c frame).0 × ((take_front c frame).0.outbound ≡ c.outbound))
unfolding take_front
take_front-ConnectionValid c frame v up =
    let id = frame.request_id in
    let k = v.kept in
    elim (Option-cases (find id c.pending_calls)) [
      | inl n ↦ ground arith
      | inr (p, e) ↦
          let q : PendingCall = record p { sent = true } in
          let m = update id q c.pending_calls in
          let s : ConnectionValid (record c { pending_calls = m }) = record {
            kept = record {
              limit_range = k.limit_range;
              counted = k.counted;
              bytes_in = k.bytes_in;
              calls_in = omega (arith, length-update id q c.pending_calls);
              distinct = update-Distinct id q c.pending_calls k.distinct;
              released = inl up;
            };
            settled = inl up;
          } in
          ground arith
    ]

fill_batch-ConnectionValid :
    (frames : List OutboundFrame) (c : Connection) (batch : Bytes)
    → c.outbound ≡ frames
    → ConnectionValid c
    → Up c
    → ConnectionValid (fill_batch frames c batch).0 × Up (fill_batch frames c batch).0
unfolding fill_batch
fill_batch-ConnectionValid [] c batch e v up = ground arith
fill_batch-ConnectionValid (frame ∷ rest) c batch e v up =
    let popped : Connection = record c {
      outbound = rest;
      outbound_bytes = sub64 c.outbound_bytes (length frame.bytes);
    } in
    let p = popped-ConnectionValid c frame rest v up e in
    let t = take_front-ConnectionValid popped frame p up in
    let taken = take_front popped frame in
    let more =
      fill_batch-ConnectionValid rest taken.0 (if taken.1 then batch ++ frame.bytes else batch)
        t.1.1 t.0 t.1.0 in
    ground arith

pub run_writer-ConnectionValid :
    (fuel : ℕ) (c d : Connection) (w : Writing)
    → ConnectionValid c
    → run_writer fuel c ≡ some (d, w)
    → ConnectionValid d
unfolding run_writer
run_writer-ConnectionValid zero c d w v h = absurd (ground arith)
run_writer-ConnectionValid (suc fuel) c d w v h =
    let filled = (fill_batch c.outbound c []).0 in
    let k = fill_batch-ConnectionValid c.outbound c [] refl v in
    let again = run_writer-ConnectionValid fuel filled d w in
    let waits : ConnectionValid c → ConnectionValid (record c { writer_waits = true }) =
      λ u. ground arith in
    ground arith

-- The writer, once its bytes are written or not, keeps the invariant up to its next wait.
pub written-ConnectionValid :
    (c : Connection) (all : Bool) (d : Connection) (w : Writing)
    → ConnectionValid c
    → written c all ≡ some (d, w)
    → ConnectionValid d
unfolding written writer_turn
written-ConnectionValid c all d w v h =
    let m = maybe_finish_drain-ConnectionValid c v in
    let f = fail_connection-ConnectionValid c CallStatus.connection_closed v in
    let r = run_writer-ConnectionValid 2 (maybe_finish_drain c) d w m in ground arith
