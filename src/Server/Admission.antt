-- ===== src/Server/Admission.antt =====
-- `OnFrame` of rpc_src/transport/rpc_server.cpp. `now` is what `NowMs` answers at its start, `later` behind
-- the inline handler of views, and `clock` as in Finishing.
use coro_rpc.Protocol.MessageType
use coro_rpc.Protocol.Frame.{Frame}
use coro_rpc.Protocol.Metadata.{default_metadata, decode_request_metadata}
use coro_rpc.Transport.Connection.Closing.{is_empty}
use coro_rpc.Transport.Dispatcher.{ServerRequest, RpcExecutionMode}
use coro_rpc.Transport.Status.{rpc_deadline_exceeded, rpc_resource_exhausted}
use coro_rpc.Server.{RpcServer, RpcServerOptions, ServerConnection, RequestState, Handlers}
use coro_rpc.Server.Keys.{build_idempotency_key, body_fingerprint}
use coro_rpc.Server.Closing.{close_connection}
use coro_rpc.Server.Finishing.{status_response, queue_frame, has_expired, cancel}
use coro_rpc.Base.{
  ℕ, Bool, length, ◌==◌, if◌then◌else◌, sub64, find_entry, true, false, not, ◌&&◌, Option, none,
  some, [],
}
use coro_rpc.Server.Checks.{
  add_deadline, serve_view, count_received, acquire_inflight, refuse_frame, rpc_invalid_argument,
  add_request, count_expired,
}
use coro_rpc.Server.Verdicts.{follow_verdict, judge}

-- The `RequestState` of a request that arrives on the connection `id`.
unfoldable pub new_state : ℕ → ServerConnection → ServerRequest → RequestState
new_state id c request = record {
  connection = id;
  request_id = request.request_id;
  deadline_ms = request.deadline_ms;
  idempotency_key =
      if is_empty request.metadata.idempotency_key
      then []
      else build_idempotency_key c.caller_scope request.metadata.service request.metadata.method
          request.metadata.idempotency_key;
  fingerprint = body_fingerprint request.frame.body;
  cancelled = false;
  completed = false;
}

unfoldable pub admitted :
    RpcServerOptions
    → Handlers
    → (ℕ → ℕ)
    → Bool
    → RpcServer
    → ℕ
    → RequestState
    → ServerRequest
    → RpcServer
admitted o h clock submitted s id q request =
    let address = length s.states in
    elim (acquire_inflight o s) [
      | none ↦ refuse_frame o s id q.request_id rpc_resource_exhausted
      | some t ↦ elim (add_request o t id q) [
        | none ↦
            refuse_frame o (record t { inflight_count = sub64 t.inflight_count 1 }) id q.request_id
              rpc_resource_exhausted
        | some u ↦
            follow_verdict o h clock submitted address q request
              (judge o u address q request.frame.body)
      ]
    ]

abbrev pub is_inline_mode : RpcExecutionMode → Bool
is_inline_mode RpcExecutionMode.network_inline = true
is_inline_mode _ = false

-- The choice between the inline handler of views and the ordinary path, which leaves `ordinary`.
unfoldable pub serve_by :
    RpcServerOptions
    → ℕ
    → Bool
    → RpcServer
    → RpcServer
    → ℕ
    → ServerRequest
    → Option (ServerRequest → Option Frame)
    → RpcServer
serve_by o later inlined ordinary s id request none = ordinary
serve_by o later inlined ordinary s id request (some view) =
    if inlined && is_empty request.metadata.idempotency_key
    then serve_view o later view s id request
    else ordinary

unfoldable pub serve :
    RpcServerOptions
    → Handlers
    → (ℕ → ℕ)
    → ℕ
    → Bool
    → RpcServer
    → ℕ
    → ServerConnection
    → ServerRequest
    → RpcServer
serve o h clock later submitted s id c request =
    serve_by o later (is_inline_mode (h.select_mode request.metadata))
      (admitted o h clock submitted s id (new_state id c request) request) s id request
      h.inline_view_handler

-- A request frame, whose type is tested.
unfoldable pub on_request :
    RpcServerOptions
    → Handlers
    → (ℕ → ℕ)
    → ℕ
    → ℕ
    → Bool
    → RpcServer
    → ℕ
    → ServerConnection
    → Frame
    → RpcServer
on_request o h clock now later submitted s id c frame =
    let request_id = frame.header.request_id in
    let decoded = decode_request_metadata frame.metadata default_metadata none in
    let deadline = add_deadline now decoded.metadata.timeout_ms in
    let request : ServerRequest = record {
      request_id = request_id;
      deadline_ms = deadline;
      metadata = decoded.metadata;
      frame = frame;
    } in
    if not s.accepting
    then refuse_frame o s id request_id rpc_resource_exhausted
    else (if not decoded.success
        then refuse_frame o s id request_id rpc_invalid_argument
        else (if has_expired deadline now
            then queue_frame o (count_expired s) id
                (status_response request_id rpc_deadline_exceeded)
            else serve o h clock later submitted s id c request))

-- `OnFrame`, which is called for open connections.
unfoldable pub on_frame :
    RpcServerOptions → Handlers → (ℕ → ℕ) → ℕ → ℕ → Bool → RpcServer → ℕ → Frame → RpcServer
on_frame o h clock now later submitted s id frame = elim (find_entry id s.connections) [
  | none ↦ s
  | some c ↦
      if frame.header.message_type == MessageType.cancel_type
      then cancel o clock s id frame.header.request_id
      else (if frame.header.message_type == MessageType.request_type
          then on_request o h clock now later submitted (count_received s) id c frame
          else close_connection s id)
]
