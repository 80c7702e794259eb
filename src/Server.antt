-- ===== src/Server.antt =====
-- `RpcServer` of rpc_src/transport/rpc_server.h and rpc_server.cpp: its data. There is one network
-- shard, so every operation on connections and requests runs on its owner thread. A connection and a
-- request are objects behind shared pointers: the former is the number it was created with, the latter
-- its position among all requests that were admitted.
pub mod Keys
pub mod Closing
pub mod Finishing
pub mod Checks
pub mod Admission
pub mod Verdicts
pub mod Lifecycle
pub mod Valid
pub mod Invariant
pub mod History
pub mod Answers
pub mod Stale
pub mod Replay
pub mod Drains
mod Tests
use coro_rpc.Protocol.Wire.{Bytes}
use coro_rpc.Protocol.Frame.{Frame}
use coro_rpc.Protocol.Metadata.{RequestMetadata}
use coro_rpc.Transport.Dispatcher.{ServerRequest, RpcExecutionMode}
use coro_rpc.Base.{ℕ, Bool, true, false, Option, List, [], ◌-◌, ◌*◌, ◌^◌}

-- `runtime::kNoTimeout`.
abbrev pub no_timeout : ℕ
no_timeout = 2 ^ 64 - 1

-- The limits of `RpcServerOptions`.
pub record RpcServerOptions : Type 0 where
  pub max_connections : ℕ
  pub max_inflight_per_connection : ℕ
  pub max_inflight_requests : ℕ
  pub max_outbound_bytes : ℕ
  pub max_idempotency_entries : ℕ

abbrev pub default_server_options : RpcServerOptions
default_server_options = record {
  max_connections = 1024;
  max_inflight_per_connection = 256;
  max_inflight_requests = 8192;
  max_outbound_bytes = 16 * 1024 * 1024;
  max_idempotency_entries = 8192;
}

-- The functions of `RpcServerOptions`, and `handler_`. A handler that throws gives `none`. The two
-- selectors of the execution mode and its default are one function.
pub record Handlers : Type 0 where
  pub select_mode : RequestMetadata → RpcExecutionMode
  pub handler : ServerRequest → Option Frame
  pub inline_view_handler : Option (ServerRequest → Option Frame)

pub record RpcServerMetrics : Type 0 where
  pub accepted_connections : ℕ
  pub requests_received : ℕ
  pub requests_rejected : ℕ
  pub requests_completed : ℕ
  pub requests_timed_out : ℕ
  pub duplicate_requests : ℕ
  pub cancellations : ℕ

-- `RequestState`; `cancelled` is the flag of its context.
pub record RequestState : Type 0 where
  pub connection : ℕ
  pub request_id : ℕ
  pub deadline_ms : ℕ
  pub idempotency_key : Bytes
  pub fingerprint : ℕ
  pub cancelled : Bool
  pub completed : Bool

-- `ServerConnection` while it is open, less its decoder, its buffers and its two coroutines. `unwritten`
-- is the batch that `WriteAll` has yet to write.
pub record ServerConnection : Type 0 where
  pub caller_scope : Bytes
  pub requests : List (ℕ × ℕ)
  pub outbound : List Bytes
  pub outbound_bytes : ℕ
  pub unwritten : Bytes
  pub draining : Bool

-- `waiters` are weak pointers. Where one has expired its request was completed before, and to finish
-- that has no effect either.
pub record IdempotencyRecord : Type 0 where
  pub pending : Bool
  pub fingerprint : ℕ
  pub body : Bytes
  pub response : Frame
  pub waiters : List ℕ

-- A connection that is not among `connections` is closed.
pub record RpcServer : Type 0 where
  pub connections : List (ℕ × ServerConnection)
  pub next_connection : ℕ
  pub states : List RequestState
  pub inflight_count : ℕ
  pub active_connections : ℕ
  pub accepting : Bool
  pub stopped : Bool
  pub idempotency : List (Bytes × IdempotencyRecord)
  pub completed_keys : List Bytes
  pub metrics : RpcServerMetrics

abbrev pub new_server : RpcServer
new_server = record {
  connections = [];
  next_connection = 0;
  states = [];
  inflight_count = 0;
  active_connections = 0;
  accepting = true;
  stopped = false;
  idempotency = [];
  completed_keys = [];
  metrics = record {
    accepted_connections = 0;
    requests_received = 0;
    requests_rejected = 0;
    requests_completed = 0;
    requests_timed_out = 0;
    duplicate_requests = 0;
    cancellations = 0;
  };
}
