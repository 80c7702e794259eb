-- ===== src/Transport/Connection/Progress.antt =====
-- The reader and the writer of a connection come to their next wait: the fuel of their loops suffices.
use mathlib.Core.Path.{subst}
use coro_rpc.Protocol.Decoder.{
  read_fixed_header, read_metadata, failed, DecodeStatus, need_more, frame_ready, protocol_error,
  Decoder, Polled, next, FrameLimits, State, commit_writable,
}
use coro_rpc.Protocol.Wire.{Bytes, get}
use coro_rpc.Protocol.Frame.{Frame}
use coro_rpc.Transport.Connection.{
  Connection, wake_writer, PendingCall, find, CallStatus, update, count_completion,
}
use coro_rpc.Base.{
  length, length-drop, Option-cases, ℕ, zero, suc, ◌+◌, ◌≤◌, ◌<◌, ◌≡◌, refl, ◌⊎◌, inl, inr, true,
  some, arith, length-append, Bool-cases, sym, ap, Bool, false, none,
}
use coro_rpc.Transport.Connection.Closing.{maybe_finish_drain, complete_pending, fail_connection}
use coro_rpc.Transport.Connection.Reader.{deliver, handle_frame, received, start_read}
use coro_rpc.Protocol.Decoder.Spec.{parse, Parsed, incomplete, item, bad}
use coro_rpc.Transport.Connection.Valid.{shut, maybe_finish_drain_lem}
use coro_rpc.Protocol.Decoder.Refine.{Running, stream, next-Answers, Answers, held}
use coro_rpc.Protocol.Decoder.Buffer.{unread}
use coro_rpc.Protocol.Frame.Header.{length-build_header}

-- A frame takes at least a header's bytes off the stream.
parse_shortens :
    (l : FrameLimits) (s : Bytes) (f : Frame) (rest : Bytes)
    → parse l s ≡ item f rest
    → length rest + 32 ≤ length s
unfolding parse
parse_shortens l s f rest h = let n = length-drop (32 + get 4 s 24 + get 4 s 28) s in ground arith

decoder-wake_writer : (c : Connection) → (wake_writer c).decoder ≡ c.decoder
unfolding wake_writer
decoder-wake_writer c = ground arith

decoder-maybe_finish_drain : (c : Connection) → (maybe_finish_drain c).decoder ≡ c.decoder
decoder-maybe_finish_drain c =
    let w = decoder-wake_writer (shut c) in rw (maybe_finish_drain_lem c) (ground arith)

decoder-complete_pending :
    (c : Connection) (id : ℕ) (p : PendingCall) (status : CallStatus) (response : Frame)
    → (complete_pending maybe_finish_drain none c id p status response).decoder ≡ c.decoder
unfolding complete_pending
decoder-complete_pending c id p status response =
    let q : PendingCall = record p { completed = true; status = status; response = response } in
    let e : Connection = record c {
      pending_calls = update id q c.pending_calls;
      metrics = count_completion status c.metrics;
    } in
    let d = decoder-maybe_finish_drain e in ground arith

-- A frame that is handled leaves the decoder alone.
decoder-handle_frame :
    (c : Connection) (frame : Frame)
    → (handle_frame c frame).1 ≡ true
    → (handle_frame c frame).0.decoder ≡ c.decoder
unfolding handle_frame
decoder-handle_frame c frame h =
    elim (Option-cases (find frame.header.request_id c.pending_calls)) [
      | inl n ↦ ground arith
      | inr (p, e) ↦
          let d = decoder-complete_pending c frame.header.request_id p CallStatus.ok frame in
          ground arith
    ]

-- `deliver` comes to its end from where a decoder of few bytes is left.
abbrev Delivers : ℕ → Connection → Type 0
Delivers fuel c = (e : Connection) × (deliver fuel c ≡ some e)

deliver_frame :
    (fuel : ℕ) (c : Connection) (d : Decoder) (f : Frame)
    → next c.decoder ≡ some (d, Polled.ready f)
    → (((handle_frame (record c { decoder = d }) f).1 ≡ true)
        → Delivers fuel (handle_frame (record c { decoder = d }) f).0)
    → Delivers (suc fuel) c
unfolding deliver
deliver_frame fuel c d f n rec =
    let handled = handle_frame (record c { decoder = d }) f in
    elim (Bool-cases handled.1) [
      | inl on ↦ let (e, r) = rec on in (e, rw (n, deliver) (rw on r))
      | inr off ↦ (handled.0, rw (n, deliver) (rw off refl))
    ]

deliver_answer :
    (fuel : ℕ) (c : Connection) (p : Parsed)
    → parse c.decoder.limits (stream c.decoder) ≡ p
    → Answers c.decoder p (next c.decoder)
    → ((d : Connection) → Running d.decoder → length (stream d.decoder) < fuel → Delivers fuel d)
    → length (stream c.decoder) < suc fuel
    → Delivers (suc fuel) c
unfolding deliver
deliver_answer fuel c incomplete e (d, out, _, _, _) rec h =
    (record c { decoder = d }, rw (out, deliver) refl)
deliver_answer fuel c bad e (d, out, _) rec h =
    (fail_connection (record c { decoder = d }) CallStatus.protocol_error, rw (out, deliver) refl)
deliver_answer fuel c (item f rest) e (d, out, run, st, _) rec h =
    let shorter = parse_shortens c.decoder.limits (stream c.decoder) f rest e in
    let room : length (stream d) < fuel = omega (arith, ap length st) in
    deliver_frame fuel c d f out (λ on.
      let kept = decoder-handle_frame (record c { decoder = d }) f on in
      rec (handle_frame (record c { decoder = d }) f).0 (subst Running (sym kept) run)
        (subst (λ x. length (stream x) < fuel) (sym kept) room))

deliver_total :
    (fuel : ℕ) (c : Connection)
    → Running c.decoder
    → length (stream c.decoder) < fuel
    → Delivers fuel c
deliver_total zero c r h = absurd (omega arith)
deliver_total (suc fuel) c r h =
    deliver_answer fuel c (parse c.decoder.limits (stream c.decoder)) refl
      (next-Answers c.decoder r) (deliver_total fuel) h

length-held : (s : State) (d : Decoder) → length (held s d) ≤ 32
length-held read_fixed_header d = omega arith
length-held read_metadata d =
    omega (arith, length-build_header d.pending_header d.pending_metadata_size d.pending_body_size)
length-held failed d = omega arith

length-stream : (d : Decoder) → length (stream d) ≤ length d.buffer + 32
length-stream d = omega (
  arith,
  length-append (held d.state d) (unread d),
  length-held d.state d,
  length-drop d.read_offset d.buffer,
)

commit_cases : (s : DecodeStatus) → (s ≡ protocol_error) ⊎ ((s ≡ need_more) ⊎ (s ≡ frame_ready))
commit_cases protocol_error = inl refl
commit_cases need_more = inr (inl refl)
commit_cases frame_ready = inr (inr refl)

-- A round of the reader comes to the next `Read` or to the end of the loop, where the decoder is
-- running behind the bytes that were read.
pub received_total :
    (c : Connection) (bytes : Bytes)
    → Running (commit_writable c.decoder bytes (length bytes)).0
    → (d : Connection) × ((reads : Bool) × (received c (some bytes) ≡ some (d, reads)))
unfolding received
received_total c bytes r =
    let after = (commit_writable c.decoder bytes (length bytes)).0 in
    let committed : Connection = record c { decoder = after } in
    let (e, done) =
      deliver_total (length after.buffer + 33) committed r (omega (arith, length-stream after)) in
    elim (commit_cases (commit_writable c.decoder bytes (length bytes)).1) [
      | inl s ↦ (fail_connection committed CallStatus.protocol_error, (false, ground arith))
      | inr s ↦ ((start_read e).0, ((start_read e).1, ground arith))
    ]
