-- ===== src/Server/Stale.antt =====
-- A worker that reports after its request was cancelled (`Cancel` and `OnWorkerCompletion` of
-- rpc_src/transport/rpc_server.cpp).
use coro_rpc.Protocol.Wire.{Bytes}
use coro_rpc.Protocol.Frame.{Frame}
use coro_rpc.Server.{RpcServer, RpcServerOptions, ServerConnection, RequestState, IdempotencyRecord}
use coro_rpc.Base.{ℕ, Bool, get_elem?, ◌≡◌, true, false, some, [], ◌∷◌, arith}
use coro_rpc.Server.Finishing.{
  on_worker_completion, settle_record, prune_cache, complete_work, finish_either, finish_idempotent,
  settle_found, finish_each,
}
use coro_rpc.Server.Answers.{
  after_finish, finish-after_finish, CanAnswer, sent_response, after_finish,
}
use coro_rpc.Transport.Connection.Closing.{is_empty}
use coro_rpc.Server.Closing.{find_record}

-- The records are settled apart from the requests.
settle_record-CanAnswer :
    (o : RpcServerOptions) (s : RpcServer) (address : ℕ) (r : RequestState) (c : ServerConnection)
    (response : Frame) (key : Bytes) (entry : IdempotencyRecord) (given : Frame) (cache : Bool)
    → CanAnswer o s address r c response
    → CanAnswer o (settle_record o key entry given cache s) address r c response
unfolding settle_record prune_cache
settle_record-CanAnswer o s address r c response key entry given true v = ground arith
settle_record-CanAnswer o s address r c response key entry given false v = ground arith

-- The report of a worker whose request was cancelled goes to the request that waits under the same key
-- by then, whatever body that one was sent with: its peer is answered with the response to the cancelled
-- request, which is also kept for the key where it may be cached.
pub on_worker_completion-stale :
    (o : RpcServerOptions) (clock : ℕ → ℕ) (s : RpcServer) (old address : ℕ)
    (cancelled r : RequestState) (c : ServerConnection) (entry : IdempotencyRecord)
    (response : Frame) (cache : Bool)
    → get_elem? s.states old ≡ some cancelled
    → cancelled.completed ≡ true
    → is_empty cancelled.idempotency_key ≡ false
    → find_record cancelled.idempotency_key s.idempotency ≡ some entry
    → entry.waiters ≡ address ∷ []
    → CanAnswer o s address r c (sent_response clock address r response)
    → on_worker_completion o clock s old response cache
      ≡ after_finish clock
          (settle_record o cancelled.idempotency_key entry response cache s)
          address
          r
          c
          response
unfolding on_worker_completion complete_work finish_either finish_idempotent settle_found
    finish_each
on_worker_completion-stale o clock s old address q r c entry response cache e d k f w v =
    let t = settle_record o q.idempotency_key entry response cache s in
    let p =
      finish-after_finish o clock t address r c response
        (settle_record-CanAnswer o s address r c _ q.idempotency_key entry response cache v) in
    ground arith
