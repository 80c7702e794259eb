-- ===== src/Server/Checks.antt =====
-- Limits, refusals and the inline handler of views in `OnFrame` of rpc_src/transport/rpc_server.cpp, with
-- `AcquireInflight`, `AddRequest` and the body of the work that is submitted to an executor.
use coro_rpc.Protocol.Frame.{Frame, default_frame}
use coro_rpc.Transport.Dispatcher.{ServerRequest}
use coro_rpc.Transport.Status.{rpc_deadline_exceeded, rpc_resource_exhausted}
use coro_rpc.Server.{RpcServer, RpcServerOptions, ServerConnection, RequestState, no_timeout}
use coro_rpc.Server.Closing.{finish_drain}
use coro_rpc.Server.Finishing.{
  answer_to, status_response, queue_frame, count_timed_out, has_expired, rpc_cancelled,
}
use coro_rpc.Base.{
  ℕ, Bool, length, ltb, leb, ◌==◌, if◌then◌else◌, sub64, add64, find_entry, put_entry, ◌+◌, ◌-◌,
  ◌^◌, true, false, Option, none, some, [], ◌∷◌, ◌++◌,
}

abbrev pub rpc_invalid_argument : ℕ
rpc_invalid_argument = 2

abbrev pub rpc_already_exists : ℕ
rpc_already_exists = 5

abbrev pub rpc_internal : ℕ
rpc_internal = 9

unfoldable pub add_deadline : ℕ → ℕ → ℕ
add_deadline now timeout_ms =
    if timeout_ms == 0
    then no_timeout
    else (if ltb (2 ^ 64 - 1 - now) timeout_ms then 2 ^ 64 - 1 else now + timeout_ms)

-- `AcquireInflight`: none where the limit is reached.
unfoldable pub acquire_inflight : RpcServerOptions → RpcServer → Option RpcServer
acquire_inflight o s =
    if leb o.max_inflight_requests s.inflight_count
    then none
    else some (record s { inflight_count = s.inflight_count + 1 })

abbrev pub count_refused : RpcServer → RpcServer
count_refused s = record s {
  metrics = record s.metrics { requests_rejected = add64 s.metrics.requests_rejected 1 };
}

abbrev pub count_received : RpcServer → RpcServer
count_received s = record s {
  metrics = record s.metrics { requests_received = add64 s.metrics.requests_received 1 };
}

abbrev pub count_duplicate : RpcServer → RpcServer
count_duplicate s = record s {
  metrics = record s.metrics { duplicate_requests = add64 s.metrics.duplicate_requests 1 };
}

abbrev pub count_expired : RpcServer → RpcServer
count_expired s = record s { metrics = count_timed_out true s.metrics }

-- A refusal of a frame.
unfoldable pub refuse_frame : RpcServerOptions → RpcServer → ℕ → ℕ → ℕ → RpcServer
refuse_frame o s id request_id status =
    queue_frame o (count_refused s) id (status_response request_id status)

-- The body of a handler's call, for a request that is cancelled or not, and what the handler gives:
-- the response, and `cache_response`.
unfoldable pub work_result : Bool → ℕ → Option Frame → Frame × Bool
work_result true request_id result = (status_response request_id rpc_cancelled, false)
work_result false request_id none = (status_response request_id rpc_internal, false)
work_result false request_id (some response) = (answer_to request_id response, true)

-- The response of the inline handler of views, and the same after its deadline.
unfoldable pub view_result : ℕ → Option Frame → Frame
view_result request_id none = status_response request_id rpc_internal
view_result request_id (some response) = answer_to request_id response

abbrev pub expired_view : Frame → Frame
expired_view response = record default_frame {
  header = record response.header { flags = rpc_deadline_exceeded };
}

unfoldable pub timed_view : Bool → Frame → Frame
timed_view expired response = if expired then expired_view response else response

-- The path of `NETWORK_INLINE` with views. `later` is the reading of the clock behind the handler.
unfoldable pub serve_view :
    RpcServerOptions
    → ℕ
    → (ServerRequest → Option Frame)
    → RpcServer
    → ℕ
    → ServerRequest
    → RpcServer
serve_view o later handler s id request =
    let expired = has_expired request.deadline_ms later in
    let response = timed_view expired (view_result request.request_id (handler request)) in
    elim (acquire_inflight o s) [
      | none ↦ refuse_frame o s id request.request_id rpc_resource_exhausted
      | some t ↦
          let m = count_timed_out expired t.metrics in
          finish_drain (
            queue_frame o
              (record t {
                inflight_count = sub64 t.inflight_count 1;
                metrics = record m { requests_completed = add64 m.requests_completed 1 };
              })
              id response)
    ]

-- `AddRequest`, where the state is the next one: none where it returns false.
unfoldable pub add_found :
    RpcServerOptions → ℕ → RequestState → RpcServer → Option ServerConnection → Option RpcServer
add_found o id r s none = none
add_found o id r s (some c) =
    let address = length s.states in
    let added = record s {
      states = s.states ++ r ∷ [];
      connections =
          put_entry id (record c { requests = (r.request_id, address) ∷ c.requests }) s.connections;
    } in
    elim (find_entry r.request_id c.requests) [
      | some _ ↦ none
      | none ↦ if leb o.max_inflight_per_connection (length c.requests) then none else some added
    ]

unfoldable pub add_request : RpcServerOptions → RpcServer → ℕ → RequestState → Option RpcServer
add_request o s id r = add_found o id r s (find_entry id s.connections)
