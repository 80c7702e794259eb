-- ===== src/Server/Lifecycle.antt =====
-- The connections of a server from accept to drain: `AttachConnection`, `BeginDrain`,
-- `NetworkShard::BeginDrainConnections` and the batches of `WriterLoop` of
-- rpc_src/transport/rpc_server.cpp.
use coro_rpc.Protocol.Wire.{Bytes}
use coro_rpc.Server.{RpcServer, RpcServerOptions, ServerConnection}
use coro_rpc.Server.Closing.{finish_drain, stop_now, close_connection}
use coro_rpc.Server.Finishing.{close_after_drain}
use coro_rpc.Transport.Connection.Closing.{is_empty}
use coro_rpc.Base.{
  ℕ, Bool, leb, ◌==◌, if◌then◌else◌, add64, find_entry, put_entry, entry_keys, ◌+◌, true, false,
  not, ◌||◌, Option, none, some, List, [], ◌∷◌, length, sub64, ◌*◌, ◌++◌,
}

-- `AttachConnection` for a descriptor that is valid, not open yet and could be configured (`ready`),
-- and whose peer is `caller_scope`: the server, and the result.
unfoldable pub attach_connection : RpcServerOptions → Bool → Bytes → RpcServer → RpcServer × Bool
attach_connection o ready caller_scope s =
    let c : ServerConnection = record {
      caller_scope = caller_scope;
      requests = [];
      outbound = [];
      outbound_bytes = 0;
      unwritten = [];
      draining = false;
    } in
    if not ready || (s.stopped || leb o.max_connections s.active_connections) then (s, false) else (
      record s {
        connections = (s.next_connection, c) ∷ s.connections;
        next_connection = s.next_connection + 1;
        active_connections = s.active_connections + 1;
        metrics = record s.metrics {
          accepted_connections = add64 s.metrics.accepted_connections 1;
        };
      },
      true,
    )

-- `BeginDrain` of a connection.
unfoldable pub drain_found : ℕ → RpcServer → Option ServerConnection → RpcServer
drain_found id s none = s
drain_found id s (some c) =
    close_after_drain
      (record s { connections = put_entry id (record c { draining = true }) s.connections }) id

unfoldable pub drain_each : List ℕ → RpcServer → RpcServer
drain_each [] s = s
drain_each (id ∷ ids) s = drain_each ids (drain_found id s (find_entry id s.connections))

-- `BeginDrain` of the server, less the waiting for its time to run out, which ends in `stop_now`.
unfoldable pub start_drain : RpcServer → ℕ → RpcServer
start_drain s timeout_ms =
    let refusing = record s { accepting = false } in
    let drained = drain_each (entry_keys s.connections) refusing in
    if s.stopped || not s.accepting
    then s
    else (if timeout_ms == 0
        then stop_now refusing
        else (if drained.stopped then drained else finish_drain drained))

-- The server's `kWriteBatchBytes`.
abbrev pub batch_limit : ℕ
batch_limit = 64 * 1024

-- The loop of `WriterLoop` that fills a batch: the batch, and the frames that stay queued.
unfoldable pub take_batch : Bytes → List Bytes → Bytes × List Bytes
take_batch batch [] = (batch, [])
take_batch batch (bytes ∷ outbound) =
    if is_empty batch || leb (length batch + length bytes) batch_limit
    then take_batch (batch ++ bytes) outbound
    else (batch, bytes ∷ outbound)

-- A round of `WriterLoop` up to its `WriteAll`, where the writer is not in another one.
unfoldable pub write_found : ℕ → RpcServer → Option ServerConnection → RpcServer
write_found id s none = s
write_found id s (some c) =
    let taken = take_batch [] c.outbound in
    if is_empty c.outbound || not (is_empty c.unwritten) then s else record s {
      connections =
          put_entry id
            (record c {
              outbound = taken.1;
              outbound_bytes = sub64 c.outbound_bytes (length taken.0);
              unwritten = taken.0;
            })
            s.connections;
    }

unfoldable pub start_write : RpcServer → ℕ → RpcServer
start_write s id = write_found id s (find_entry id s.connections)

-- The rest of the round, where `WriteAll` has written the batch or not.
unfoldable pub write_done : Bool → ℕ → RpcServer → Option ServerConnection → RpcServer
write_done written id s none = s
write_done written id s (some c) =
    if written
    then close_after_drain
        (record s { connections = put_entry id (record c { unwritten = [] }) s.connections }) id
    else close_connection s id

unfoldable pub end_write : Bool → RpcServer → ℕ → RpcServer
end_write written s id = write_done written id s (find_entry id s.connections)
