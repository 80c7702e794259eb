-- ===== src/Transport/Connection/Answers.antt =====
-- The life of one call on a connection: its start, its answer or its time-out, and what is late.
use mathlib.Core.Path.{subst}
use coro_rpc.Protocol.MessageType
use coro_rpc.Protocol.Frame.{Frame}
use coro_rpc.Transport.Status.{CallStatus, CallResult}
use coro_rpc.Transport.Connection.{
  Connection, PendingCall, find, Pending, update, erase, wake_writer,
}
use coro_rpc.Base.{
  ℕ, ◌≡◌, ap, ◌∙◌, true, false, none, some, [], ◌∷◌, ◌++◌, arith, if◌then◌else◌, add64, refl, sym,
  Bool,
}
use coro_rpc.Transport.Connection.Calls.{finish_call, time_out, queue_cancel}
use coro_rpc.Transport.Connection.Reader.{handle_frame}
use coro_rpc.Transport.Connection.Closing.{complete_pending, maybe_finish_drain}
use coro_rpc.Transport.Connection.Valid.{
  ConnectionValid, find-update, pending_calls-maybe_finish_drain, Distinct, update-Distinct,
  find-erase,
}
use coro_rpc.Transport.Connection.Settle.{
  callers, woken, pending_calls-complete_pending, callers-complete_pending,
}
use coro_rpc.Transport.Connection.Completing.{complete_pending-Kept}

-- The result of a call that a frame has answered.
abbrev pub answer : ℕ → Frame → CallResult
answer id frame = record {
  status = CallStatus.ok;
  rpc_status = frame.header.flags;
  request_id = id;
  response = frame;
}

-- `id` is kept for a call that still waits.
pub record Waits (c : Connection) (id : ℕ) (p : PendingCall) : Type 0 where
  pub kept : find id c.pending_calls ≡ some p
  pub unfinished : p.completed ≡ false

handle_response :
    (c : Connection) (p : PendingCall) (frame : Frame)
    → Waits c frame.header.request_id p
    → frame.header.message_type ≡ MessageType.response_type
    → handle_frame c frame ≡ (
      complete_pending maybe_finish_drain none c frame.header.request_id p CallStatus.ok frame,
      true,
    )
unfolding handle_frame
handle_response c p frame w t = let k = w.kept in ground arith

find_updated :
    (id : ℕ) (p q : PendingCall) (m : Pending)
    → find id m ≡ some p
    → find id (update id q m) ≡ some q
find_updated id p q m h = let u = find-update id id q m in ground arith

-- A call that is completed returns what is kept for it, and its id is free again.
finish_completed :
    (c : Connection) (id : ℕ) (q : PendingCall)
    → find id c.pending_calls ≡ some q
    → q.completed ≡ true
    → finish_call c id
      ≡ some (
        record c { pending_calls = erase id c.pending_calls },
        record {
          status = q.status;
          rpc_status = q.response.header.flags;
          request_id = id;
          response = q.response;
        },
      )
unfolding finish_call time_out
finish_completed c id q h d = rw (h, finish_call) (ground arith)

-- A response frame with the id of a call that waits resumes that call's coroutine, and no other; the
-- call then returns this frame with status OK, and its id is free again.
pub handle_frame-finish_call :
    (c : Connection) (p : PendingCall) (frame : Frame)
    → ConnectionValid c
    → Waits c frame.header.request_id p
    → frame.header.message_type ≡ MessageType.response_type
    → (callers (handle_frame c frame).0.resumed ≡ callers c.resumed ++ p.coroutine ∷ [])
      × ((d : Connection) × ((finish_call (handle_frame c frame).0 frame.header.request_id
              ≡ some (d, answer frame.header.request_id frame))
            × (find frame.header.request_id d.pending_calls ≡ none)))
unfolding woken
handle_frame-finish_call c p frame v w t =
    let id = frame.header.request_id in
    let q : PendingCall = record p { completed = true; status = CallStatus.ok; response = frame } in
    let e = complete_pending maybe_finish_drain none c id p CallStatus.ok frame in
    let handled = ap (λ (x : Connection × Bool). x.0) (handle_response c p frame w t) in
    let pending : e.pending_calls ≡ update id q c.pending_calls =
      pending_calls-complete_pending c id p CallStatus.ok frame
      ∙ ap (λ b. if b then c.pending_calls else update id q c.pending_calls) w.unfinished in
    let found : find id e.pending_calls ≡ some q =
      ap (find id) pending ∙ find_updated id p q c.pending_calls w.kept in
    let woke = callers-complete_pending c id p CallStatus.ok frame in
    let one = ap (λ b. callers c.resumed ++ (if b then [] else p.coroutine ∷ [])) w.unfinished in
    let k = complete_pending-Kept none c id p CallStatus.ok frame v.kept in
    (
      ap (λ (x : Connection). callers x.resumed) handled ∙ woke ∙ one,
      (
        record e { pending_calls = erase id e.pending_calls },
        (
          ap (λ x. finish_call x id) handled ∙ finish_completed e id q found refl,
          find-erase id e.pending_calls k.distinct,
        ),
      ),
    )

pending_calls-queue_cancel :
    (c : Connection) (id : ℕ) → (queue_cancel c id).pending_calls ≡ c.pending_calls
unfolding queue_cancel wake_writer
pending_calls-queue_cancel c id = ground arith

timed_out_call : PendingCall → PendingCall
timed_out_call p = record p { completed = true; status = CallStatus.timeout }

pending_calls-time_out :
    (c : Connection) (id : ℕ) (p : PendingCall)
    → p.completed ≡ false
    → (time_out c id p).pending_calls ≡ update id (timed_out_call p) c.pending_calls
unfolding time_out timed_out_call
pending_calls-time_out c id p h =
    let e : Connection = record c {
      pending_calls = update id (timed_out_call p) c.pending_calls;
      metrics = record c.metrics { calls_timed_out = add64 c.metrics.calls_timed_out 1 };
    } in
    let a = pending_calls-maybe_finish_drain e in
    let b = pending_calls-maybe_finish_drain (queue_cancel e id) in
    let q = pending_calls-queue_cancel e id in ground arith

finish_waiting :
    (c : Connection) (id : ℕ) (p q : PendingCall)
    → find id c.pending_calls ≡ some p
    → find id (time_out c id p).pending_calls ≡ some q
    → finish_call c id
      ≡ some (
        record (time_out c id p) { pending_calls = erase id (time_out c id p).pending_calls },
        record {
          status = q.status;
          rpc_status = q.response.header.flags;
          request_id = id;
          response = q.response;
        },
      )
unfolding finish_call
finish_waiting c id p q h k = rw (h, finish_call) (rw k refl)

late_response :
    (c : Connection) (frame : Frame)
    → find frame.header.request_id c.pending_calls ≡ none
    → frame.header.message_type ≡ MessageType.response_type
    → handle_frame c frame ≡ (
      record c { metrics = record c.metrics { late_responses = add64 c.metrics.late_responses 1 } },
      true,
    )
unfolding handle_frame
late_response c frame h t = ground arith

-- A call that goes on before its answer has come returns TIMEOUT. Its id is free again, and a response
-- that comes later is counted as late and changes nothing else.
pub finish_call-handle_frame :
    (c : Connection) (id : ℕ) (p : PendingCall) (frame : Frame)
    → ConnectionValid c
    → Waits c id p
    → frame.header.message_type ≡ MessageType.response_type
    → frame.header.request_id ≡ id
    → (d : Connection) × ((r : CallResult) × ((finish_call c id ≡ some (d, r))
          × ((r.status ≡ CallStatus.timeout)
              × ((find id d.pending_calls ≡ none)
                  × (handle_frame d frame ≡ (
                    record d {
                      metrics = record d.metrics {
                        late_responses = add64 d.metrics.late_responses 1;
                      };
                    },
                    true,
                  ))))))
unfolding timed_out_call
finish_call-handle_frame c id p frame v w t e =
    let q = timed_out_call p in
    let pending = pending_calls-time_out c id p w.unfinished in
    let found : find id (time_out c id p).pending_calls ≡ some q =
      ap (find id) pending ∙ find_updated id p q c.pending_calls w.kept in
    let distinct =
      subst Distinct (sym pending) (update-Distinct id q c.pending_calls v.kept.distinct) in
    let free = find-erase id (time_out c id p).pending_calls distinct in
    let d : Connection = record (time_out c id p) {
      pending_calls = erase id (time_out c id p).pending_calls;
    } in
    let late = late_response d frame (ap (λ i. find i d.pending_calls) e ∙ free) t in
    (
      d,
      (
        record {
          status = CallStatus.timeout;
          rpc_status = p.response.header.flags;
          request_id = id;
          response = p.response;
        },
        (finish_waiting c id p q w.kept found, (refl, (free, late))),
      ),
    )
