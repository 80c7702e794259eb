-- ===== src/Server/Invariant/Finishing.antt =====
-- Answers to requests keep the invariant of a server.
use coro_rpc.Protocol.Wire.{Bytes}
use coro_rpc.Protocol.Frame.{Frame}
use coro_rpc.Server.{RpcServer, RpcServerOptions, ServerConnection, RequestState, IdempotencyRecord}
use coro_rpc.Server.Closing.{find_record}
use coro_rpc.Server.Valid.{
  ServerValid, OptionsInRange, open_count-set_done, length-prune, length-put_record,
  length-erase_record,
}
use coro_rpc.Base.{
  ℕ, Bool, length, ltb, Bool-cases, Option-cases, add64, sub64_exact, find_entry, get_elem?, ◌-◌,
  ◌≡◌, refl, inl, inr, true, false, ◌&&◌, ◌||◌, Option, none, some, List, [], ◌∷◌, ◌++◌, arith,
  if_cases,
}
use coro_rpc.Server.Finishing.{
  settle_record, close_after_drain, queue_frame, finish_either, queue_found, finish_found,
  finish_idempotent, prune_cache, queue_encoded, mark_finished, close_drained, forget_request,
  finish_each, finish, complete_request, has_expired, settle_found, final_response,
}
use coro_rpc.Protocol.Encoder.{encode}
use coro_rpc.Transport.Connection.Closing.{is_empty}
use coro_rpc.Server.Invariant.{
  close_connection-ServerValid, finish_drain-ServerValid, put-ServerValid,
}

module _ (o : RpcServerOptions) (w : OptionsInRange o) where
  queue_encoded-ServerValid :
      (s : RpcServer) (id : ℕ) (c : ServerConnection) (bytes : Bytes)
      → ServerValid o s
      → ServerValid o (queue_encoded o s id c bytes)
  unfolding queue_encoded
  queue_encoded-ServerValid s id c bytes v =
      let k = close_connection-ServerValid o w s id v in
      let p =
        put-ServerValid o w s id
          (record c {
            outbound = c.outbound ++ bytes ∷ [];
            outbound_bytes = add64 c.outbound_bytes (length bytes);
          })
          v in
      elim (Bool-cases (
        ltb o.max_outbound_bytes (length bytes)
        || ltb (o.max_outbound_bytes - length bytes) c.outbound_bytes)) [
          | inl e ↦ rw e k
          | inr e ↦ rw e p
        ]

  queue_found-ServerValid :
      (id : ℕ) (frame : Frame) (s : RpcServer) (q : Option ServerConnection)
      → ServerValid o s
      → ServerValid o (queue_found o id frame s q)
  unfolding queue_found
  queue_found-ServerValid id frame s none v = v
  queue_found-ServerValid id frame s (some c) v = elim (Bool-cases (encode frame [] none).success) [
    | inl e ↦ rw e (queue_encoded-ServerValid s id c (encode frame [] none).output v)
    | inr e ↦ rw e (close_connection-ServerValid o w s id v)
  ]

  pub queue_frame-ServerValid :
      (s : RpcServer) (id : ℕ) (frame : Frame)
      → ServerValid o s
      → ServerValid o (queue_frame o s id frame)
  unfolding queue_frame
  queue_frame-ServerValid s id frame v = queue_found-ServerValid id frame s _ v

  close_drained-ServerValid :
      (id : ℕ) (s : RpcServer) (q : Option ServerConnection)
      → ServerValid o s
      → ServerValid o (close_drained id s q)
  unfolding close_drained
  close_drained-ServerValid id s none v = v
  close_drained-ServerValid id s (some c) v =
      let k = close_connection-ServerValid o w s id v in
      elim (Bool-cases (c.draining && (is_empty c.requests && is_empty c.outbound))) [
        | inl e ↦ rw e k
        | inr e ↦ rw e v
      ]

  pub close_after_drain-ServerValid :
      (s : RpcServer) (id : ℕ) → ServerValid o s → ServerValid o (close_after_drain s id)
  unfolding close_after_drain
  close_after_drain-ServerValid s id v = close_drained-ServerValid id s _ v

  forget_request-ServerValid :
      (id request_id : ℕ) (s : RpcServer) (q : Option ServerConnection)
      → ServerValid o s
      → ServerValid o (forget_request id request_id s q)
  unfolding forget_request
  forget_request-ServerValid id request_id s none v = v
  forget_request-ServerValid id request_id s (some c) v = put-ServerValid o w s id _ v

  complete_request-ServerValid :
      (s : RpcServer) (id request_id : ℕ) (response : Frame)
      → ServerValid o s
      → ServerValid o (complete_request o s id request_id response)
  unfolding complete_request
  complete_request-ServerValid s id request_id response v = close_after_drain-ServerValid _ id (
      queue_frame-ServerValid _ id response
        (forget_request-ServerValid id request_id s (find_entry id s.connections) v))

  mark_finished-ServerValid :
      (expired : Bool) (address : ℕ) (r : RequestState) (s : RpcServer)
      → get_elem? s.states address ≡ some r
      → r.completed ≡ false
      → ServerValid o s
      → ServerValid o (mark_finished expired address r s)
  unfolding mark_finished
  mark_finished-ServerValid expired address r s e c v =
      let d = record r { completed = true; cancelled = expired || r.cancelled } in
      let n = open_count-set_done s.states address r d e c refl in
      let x = sub64_exact s.inflight_count 1 in ground arith

  finish_found-ServerValid :
      (clock : ℕ → ℕ) (address : ℕ) (response : Frame) (s : RpcServer) (q : Option RequestState)
      → get_elem? s.states address ≡ q
      → ServerValid o s
      → ServerValid o (finish_found o clock address response s q)
  unfolding finish_found
  finish_found-ServerValid clock address response s none e v = v
  finish_found-ServerValid clock address response s (some r) e v =
      if_cases (ServerValid o) r.completed _ _ (λ c. v)
        (λ c. finish_drain-ServerValid o w _ (
          complete_request-ServerValid _ r.connection r.request_id
            (final_response (has_expired r.deadline_ms (clock address)) r response)
            (mark_finished-ServerValid (has_expired r.deadline_ms (clock address)) address r s e c
              v)))

  pub finish-ServerValid :
      (clock : ℕ → ℕ) (s : RpcServer) (address : ℕ) (response : Frame)
      → ServerValid o s
      → ServerValid o (finish o clock s address response)
  unfolding finish
  finish-ServerValid clock s address response v =
      finish_found-ServerValid clock address response s _ refl v

  finish_each-ServerValid :
      (clock : ℕ → ℕ) (response : Frame) (addresses : List ℕ) (s : RpcServer)
      → ServerValid o s
      → ServerValid o (finish_each o clock response addresses s)
  unfolding finish_each
  finish_each-ServerValid clock response [] s v = v
  finish_each-ServerValid clock response (a ∷ addresses) s v =
      finish_each-ServerValid clock response addresses (finish o clock s a response)
        (finish-ServerValid clock s a response v)

  pub prune_cache-ServerValid : (s : RpcServer) → ServerValid o s → ServerValid o (prune_cache o s)
  unfolding prune_cache
  prune_cache-ServerValid s v =
      let l = length-prune o.max_idempotency_entries s.completed_keys s.idempotency in ground arith

  settle_record-ServerValid :
      (key : Bytes) (r : IdempotencyRecord) (response : Frame) (cache_response : Bool)
      (s : RpcServer)
      → ServerValid o s
      → ServerValid o (settle_record o key r response cache_response s)
  unfolding settle_record
  settle_record-ServerValid key r response true s v =
      let n =
        length-put_record key (record r { pending = false; response = response; waiters = [] })
          s.idempotency in
      prune_cache-ServerValid _ (ground arith)
  settle_record-ServerValid key r response false s v =
      let n = length-erase_record key s.idempotency in ground arith

  pub finish_idempotent-ServerValid :
      (clock : ℕ → ℕ) (s : RpcServer) (key : Bytes) (response : Frame) (cache_response : Bool)
      → ServerValid o s
      → ServerValid o (finish_idempotent o clock s key response cache_response)
  unfolding finish_idempotent settle_found
  finish_idempotent-ServerValid clock s key response cache_response v =
      elim (Option-cases (find_record key s.idempotency)) [
        | inl e ↦ rw e v
        | inr (r, e) ↦ rw e (
            finish_each-ServerValid clock response r.waiters _
              (settle_record-ServerValid key r response cache_response s v))
      ]

  pub finish_either-ServerValid :
      (clock : ℕ → ℕ) (s : RpcServer) (address : ℕ) (r : RequestState) (response : Frame)
      (cache_response : Bool)
      → ServerValid o s
      → ServerValid o (finish_either o clock s address r response cache_response)
  unfolding finish_either
  finish_either-ServerValid clock s address r response cache_response v =
      let a = finish-ServerValid clock s address response v in
      let b = finish_idempotent-ServerValid clock s r.idempotency_key response cache_response v in
      elim (Bool-cases (is_empty r.idempotency_key)) [ inl e ↦ rw e a | inr e ↦ rw e b ]
