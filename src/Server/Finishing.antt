-- ===== src/Server/Finishing.antt =====
-- How requests end: `QueueFrame`, `CompleteRequest`, `Finish`, `FinishIdempotent`,
-- `OnWorkerCompletion` and `Cancel` of rpc_src/transport/rpc_server.cpp. `clock a` is what `NowMs`
-- answers when the request `a` is finished.
use coro_rpc.Protocol.Wire.{Bytes}
use coro_rpc.Protocol.MessageType
use coro_rpc.Protocol.Frame.{Frame, default_frame}
use coro_rpc.Protocol.Encoder.{encode}
use coro_rpc.Transport.Connection.Closing.{is_empty}
use coro_rpc.Transport.Status.{rpc_deadline_exceeded}
use coro_rpc.Server.{
  RpcServer, RpcServerOptions, RpcServerMetrics, ServerConnection, RequestState, IdempotencyRecord,
  no_timeout,
}
use coro_rpc.Server.Closing.{
  Records, find_record, put_record, erase_record, leave_record, close_connection, finish_drain,
}
use coro_rpc.Base.{
  ℕ, Bool, length, ltb, leb, ◌==◌, if◌then◌else◌, sub64, add64, find_entry, put_entry, erase_entry,
  get_elem?, set, ◌-◌, true, false, not, ◌&&◌, ◌||◌, Option, none, some, List, [], ◌∷◌, ◌++◌,
}

abbrev pub rpc_cancelled : ℕ
rpc_cancelled = 1

-- A response as the server addresses it.
abbrev pub answer_to : ℕ → Frame → Frame
answer_to id response = record response {
  header = record response.header { message_type = MessageType.response_type; request_id = id };
}

-- `MakeStatusResponse`.
unfoldable pub status_response : ℕ → ℕ → Frame
status_response id status = record default_frame {
  header = record { flags = status; message_type = MessageType.response_type; request_id = id };
}

-- `QueueEncoded`, of an open connection.
unfoldable pub queue_encoded :
    RpcServerOptions → RpcServer → ℕ → ServerConnection → Bytes → RpcServer
queue_encoded o s id c bytes =
    if ltb o.max_outbound_bytes (length bytes)
      || ltb (o.max_outbound_bytes - length bytes) c.outbound_bytes
    then close_connection s id
    else record s {
      connections =
          put_entry id
            (record c {
              outbound = c.outbound ++ bytes ∷ [];
              outbound_bytes = add64 c.outbound_bytes (length bytes);
            })
            s.connections;
    }

-- Both forms of `QueueFrame`.
unfoldable pub queue_found :
    RpcServerOptions → ℕ → Frame → RpcServer → Option ServerConnection → RpcServer
queue_found o id frame s none = s
queue_found o id frame s (some c) =
    let encoded = encode frame [] none in
    if encoded.success then queue_encoded o s id c encoded.output else close_connection s id

unfoldable pub queue_frame : RpcServerOptions → RpcServer → ℕ → Frame → RpcServer
queue_frame o s id frame = queue_found o id frame s (find_entry id s.connections)

-- `MaybeCloseAfterDrain`.
unfoldable pub close_drained : ℕ → RpcServer → Option ServerConnection → RpcServer
close_drained id s none = s
close_drained id s (some c) =
    if c.draining && (is_empty c.requests && is_empty c.outbound) then close_connection s id else s

unfoldable pub close_after_drain : RpcServer → ℕ → RpcServer
close_after_drain s id = close_drained id s (find_entry id s.connections)

unfoldable pub forget_request : ℕ → ℕ → RpcServer → Option ServerConnection → RpcServer
forget_request id request_id s none = s
forget_request id request_id s (some c) = record s {
  connections =
      put_entry id (record c { requests = erase_entry request_id c.requests }) s.connections;
}

unfoldable pub complete_request : RpcServerOptions → RpcServer → ℕ → ℕ → Frame → RpcServer
complete_request o s id request_id response =
    let forgotten = forget_request id request_id s (find_entry id s.connections) in
    close_after_drain (queue_frame o forgotten id response) id

abbrev pub has_expired : ℕ → ℕ → Bool
has_expired deadline now = not (deadline == no_timeout) && leb deadline now

abbrev pub count_timed_out : Bool → RpcServerMetrics → RpcServerMetrics
count_timed_out expired m =
    if expired then record m { requests_timed_out = add64 m.requests_timed_out 1 } else m

-- The first part of `Finish`: the request is completed, and no longer in flight.
unfoldable pub mark_finished : Bool → ℕ → RequestState → RpcServer → RpcServer
mark_finished expired address r s =
    let m = count_timed_out expired s.metrics in
    record s {
      states =
          set s.states address (record r { completed = true; cancelled = expired || r.cancelled });
      inflight_count = sub64 s.inflight_count 1;
      metrics = record m { requests_completed = add64 m.requests_completed 1 };
    }

-- What `Finish` sends.
unfoldable pub final_response : Bool → RequestState → Frame → Frame
final_response expired r response =
    answer_to r.request_id
      (if expired then status_response r.request_id rpc_deadline_exceeded else response)

unfoldable pub finish_found :
    RpcServerOptions → (ℕ → ℕ) → ℕ → Frame → RpcServer → Option RequestState → RpcServer
finish_found o clock address response s none = s
finish_found o clock address response s (some r) =
    let expired = has_expired r.deadline_ms (clock address) in
    let finished = finish_drain (
      complete_request o (mark_finished expired address r s) r.connection r.request_id
        (final_response expired r response)) in
    if r.completed then s else finished

-- `Finish`.
unfoldable pub finish : RpcServerOptions → (ℕ → ℕ) → RpcServer → ℕ → Frame → RpcServer
finish o clock s address response =
    finish_found o clock address response s (get_elem? s.states address)

-- `FinishOnOwner` for each waiter.
unfoldable pub finish_each : RpcServerOptions → (ℕ → ℕ) → Frame → List ℕ → RpcServer → RpcServer
finish_each o clock response [] s = s
finish_each o clock response (address ∷ addresses) s =
    finish_each o clock response addresses (finish o clock s address response)

-- `PruneIdempotencyCache`.
unfoldable pub erase_completed : Bytes → Records → Records
erase_completed key records = elim (find_record key records) [
  | none ↦ records
  | some r ↦ if r.pending then records else erase_record key records
]

unfoldable pub prune : ℕ → List Bytes → Records → Records × List Bytes
prune limit [] records = (records, [])
prune limit (key ∷ keys) records =
    let rest = prune limit keys (erase_completed key records) in
    if ltb (length records) limit then (records, key ∷ keys) else rest

unfoldable pub prune_cache : RpcServerOptions → RpcServer → RpcServer
prune_cache o s =
    let pruned = prune o.max_idempotency_entries s.completed_keys s.idempotency in
    record s { idempotency = pruned.0; completed_keys = pruned.1 }

-- The part of `FinishIdempotent` that holds the lock.
unfoldable pub settle_record :
    RpcServerOptions → Bytes → IdempotencyRecord → Frame → Bool → RpcServer → RpcServer
settle_record o key r response cache_response s =
    let completed = record r { pending = false; response = response; waiters = [] } in
    if cache_response
    then prune_cache o (record s {
      idempotency = put_record key completed s.idempotency;
      completed_keys = s.completed_keys ++ key ∷ [];
    })
    else record s { idempotency = erase_record key s.idempotency }

unfoldable pub settle_found :
    RpcServerOptions
    → (ℕ → ℕ)
    → Bytes
    → Frame
    → Bool
    → RpcServer
    → Option IdempotencyRecord
    → RpcServer
settle_found o clock key response cache_response s none = s
settle_found o clock key response cache_response s (some r) =
    finish_each o clock response r.waiters (settle_record o key r response cache_response s)

-- `FinishIdempotent`.
unfoldable pub finish_idempotent :
    RpcServerOptions → (ℕ → ℕ) → RpcServer → Bytes → Frame → Bool → RpcServer
finish_idempotent o clock s key response cache_response =
    settle_found o clock key response cache_response s (find_record key s.idempotency)

-- The choice between `Finish` and `FinishIdempotent`.
unfoldable pub finish_either :
    RpcServerOptions → (ℕ → ℕ) → RpcServer → ℕ → RequestState → Frame → Bool → RpcServer
finish_either o clock s address r response cache_response =
    if is_empty r.idempotency_key
    then finish o clock s address response
    else finish_idempotent o clock s r.idempotency_key response cache_response

-- `OnWorkerCompletion`.
unfoldable pub complete_work :
    RpcServerOptions → (ℕ → ℕ) → ℕ → Frame → Bool → RpcServer → Option RequestState → RpcServer
complete_work o clock address response cache_response s none = s
complete_work o clock address response cache_response s (some r) =
    if is_empty r.idempotency_key && r.completed
    then s
    else finish_either o clock s address r response cache_response

unfoldable pub on_worker_completion :
    RpcServerOptions → (ℕ → ℕ) → RpcServer → ℕ → Frame → Bool → RpcServer
on_worker_completion o clock s address response cache_response =
    complete_work o clock address response cache_response s (get_elem? s.states address)

-- `Cancel`, of a request that the connection knows.
unfoldable pub cancel_found :
    RpcServerOptions → (ℕ → ℕ) → ℕ → ℕ → RpcServer → Option RequestState → RpcServer
cancel_found o clock request_id address s none = s
cancel_found o clock request_id address s (some r) =
    let left = record s {
      states = set s.states address (record r { cancelled = true });
      idempotency = leave_record address r.idempotency_key s.idempotency;
      metrics = record s.metrics { cancellations = add64 s.metrics.cancellations 1 };
    } in
    finish o clock left address (status_response request_id rpc_cancelled)

-- `FindRequest` of a connection.
unfoldable pub find_request : ℕ → Option ServerConnection → Option ℕ
find_request request_id none = none
find_request request_id (some c) = find_entry request_id c.requests

unfoldable pub cancel : RpcServerOptions → (ℕ → ℕ) → RpcServer → ℕ → ℕ → RpcServer
cancel o clock s id request_id = elim (find_request request_id (find_entry id s.connections)) [
  | none ↦ s
  | some address ↦ cancel_found o clock request_id address s (get_elem? s.states address)
]
