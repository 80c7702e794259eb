-- ===== src/Server/History.antt =====
-- Histories of a server: any sequence of its operations.
use coro_rpc.Protocol.Wire.{Bytes}
use coro_rpc.Protocol.Frame.{Frame}
use coro_rpc.Server.{RpcServer, RpcServerOptions, Handlers, new_server}
use coro_rpc.Base.{ℕ, Bool, refl, inl, arith}
use coro_rpc.Server.Lifecycle.{attach_connection, start_write, end_write, start_drain}
use coro_rpc.Server.Valid.{OptionsInRange, ServerValid}
use coro_rpc.Server.Admission.{on_frame}
use coro_rpc.Server.Invariant.Frames.{on_frame-ServerValid}
use coro_rpc.Server.Invariant.Lifecycle.{
  attach_connection-ServerValid, on_worker_completion-ServerValid, start_write-ServerValid,
  end_write-ServerValid, start_drain-ServerValid,
}
use coro_rpc.Server.Finishing.{on_worker_completion}
use coro_rpc.Server.Closing.{close_connection, stop_now}
use coro_rpc.Server.Invariant.{close_connection-ServerValid, stop_now-ServerValid}

-- The servers that operations lead to from a new one. A worker may report anything at any time.
pub data Reachable (o : RpcServerOptions) (h : Handlers) : RpcServer → Type 0 where
  created : Reachable o h new_server
  attached :
      {s : RpcServer} (ready : Bool) (caller_scope : Bytes)
      → Reachable o h s
      → Reachable o h (attach_connection o ready caller_scope s).0
  framed :
      {s : RpcServer} (clock : ℕ → ℕ) (now later : ℕ) (submitted : Bool) (id : ℕ) (frame : Frame)
      → Reachable o h s
      → Reachable o h (on_frame o h clock now later submitted s id frame)
  worked :
      {s : RpcServer} (clock : ℕ → ℕ) (address : ℕ) (response : Frame) (cache_response : Bool)
      → Reachable o h s
      → Reachable o h (on_worker_completion o clock s address response cache_response)
  writing : {s : RpcServer} (id : ℕ) → Reachable o h s → Reachable o h (start_write s id)
  wrote :
      {s : RpcServer} (written : Bool) (id : ℕ)
      → Reachable o h s
      → Reachable o h (end_write written s id)
  disconnected : {s : RpcServer} (id : ℕ) → Reachable o h s → Reachable o h (close_connection s id)
  draining :
      {s : RpcServer} (timeout_ms : ℕ) → Reachable o h s → Reachable o h (start_drain s timeout_ms)
  stopped : {s : RpcServer} → Reachable o h s → Reachable o h (stop_now s)

new_server-ServerValid : (o : RpcServerOptions) → ServerValid o new_server
new_server-ServerValid o = record {
  inflight = refl;
  active = refl;
  inflight_limit = omega arith;
  active_limit = omega arith;
  records_limit = omega arith;
  stopped_refuses = inl refl;
}

-- After any history of connections, frames, completions of workers, writes, failures, drain and stop,
-- in any order: the server counts as in flight exactly the admitted requests that are not completed,
-- and as active exactly the open connections; both counts and the number of idempotency records are
-- within their limits; and a stopped server accepts nothing.
pub Reachable-ServerValid :
    (o : RpcServerOptions) (h : Handlers) (s : RpcServer)
    → OptionsInRange o
    → Reachable o h s
    → ServerValid o s
Reachable-ServerValid o h _ w created = new_server-ServerValid o
Reachable-ServerValid o h _ w (attached {s} ready caller_scope r) =
    attach_connection-ServerValid o w ready caller_scope s (Reachable-ServerValid o h s w r)
Reachable-ServerValid o h _ w (framed {s} clock now later submitted id frame r) =
    on_frame-ServerValid o w h clock now later submitted s id frame
      (Reachable-ServerValid o h s w r)
Reachable-ServerValid o h _ w (worked {s} clock address response cache_response r) =
    on_worker_completion-ServerValid o w clock s address response cache_response
      (Reachable-ServerValid o h s w r)
Reachable-ServerValid o h _ w (writing {s} id r) =
    start_write-ServerValid o w s id (Reachable-ServerValid o h s w r)
Reachable-ServerValid o h _ w (wrote {s} written id r) =
    end_write-ServerValid o w written s id (Reachable-ServerValid o h s w r)
Reachable-ServerValid o h _ w (disconnected {s} id r) =
    close_connection-ServerValid o w s id (Reachable-ServerValid o h s w r)
Reachable-ServerValid o h _ w (draining {s} timeout_ms r) =
    start_drain-ServerValid o w s timeout_ms (Reachable-ServerValid o h s w r)
Reachable-ServerValid o h _ w (stopped {s} r) =
    stop_now-ServerValid o w s (Reachable-ServerValid o h s w r)
