-- ===== src/Server/Closing.antt =====
-- How a connection of the server closes: `Abandon`, `ServerConnection::Close`,
-- `NetworkShard::OnConnectionClosed`, `StopNow` and `MaybeFinishDrain` of
-- rpc_src/transport/rpc_server.cpp.
use coro_rpc.Protocol.Wire.{Bytes}
use coro_rpc.Protocol.Metadata.{same_bytes}
use coro_rpc.Transport.Connection.Closing.{is_empty}
use coro_rpc.Server.{RpcServer, ServerConnection, RequestState, IdempotencyRecord}
use coro_rpc.Base.{
  ℕ, Bool, ◌==◌, if◌then◌else◌, sub64, find_entry, erase_entry, entry_values, entry_keys, get_elem?,
  set, true, false, not, ◌&&◌, ◌||◌, Option, none, some, List, [], ◌∷◌,
}

-- `idempotency_`.
abbrev pub Records : Type 0
Records = List (Bytes × IdempotencyRecord)

unfoldable pub find_record : Bytes → Records → Option IdempotencyRecord
find_record key [] = none
find_record key ((k, r) ∷ m) = if same_bytes key k then some r else find_record key m

unfoldable pub put_record : Bytes → IdempotencyRecord → Records → Records
put_record key r [] = []
put_record key r ((k, q) ∷ m) = if same_bytes key k then (k, r) ∷ m else (k, q) ∷ put_record key r m

unfoldable pub erase_record : Bytes → Records → Records
erase_record key [] = []
erase_record key ((k, r) ∷ m) = if same_bytes key k then m else (k, r) ∷ erase_record key m

unfoldable pub remove_waiter : ℕ → List ℕ → List ℕ
remove_waiter address [] = []
remove_waiter address (w ∷ ws) =
    if w == address then remove_waiter address ws else w ∷ remove_waiter address ws

-- The part of `Abandon` and `Cancel` that holds the lock of the records.
unfoldable pub release_waiter : ℕ → Bytes → Records → Records
release_waiter address key records = elim (find_record key records) [
  | none ↦ records
  | some r ↦
      let left = remove_waiter address r.waiters in
      if r.pending
      then (if is_empty left
          then erase_record key records
          else put_record key (record r { waiters = left }) records)
      else records
]

unfoldable pub leave_record : ℕ → Bytes → Records → Records
leave_record address key records =
    if is_empty key then records else release_waiter address key records

-- `Abandon`, of a request that is there.
unfoldable pub abandon_found : ℕ → RpcServer → Option RequestState → RpcServer
abandon_found address s none = s
abandon_found address s (some r) = if r.completed then s else record s {
  states = set s.states address (record r { completed = true; cancelled = true });
  inflight_count = sub64 s.inflight_count 1;
  idempotency = leave_record address r.idempotency_key s.idempotency;
}

unfoldable pub abandon : RpcServer → ℕ → RpcServer
abandon s address = abandon_found address s (get_elem? s.states address)

unfoldable pub abandon_all : List ℕ → RpcServer → RpcServer
abandon_all [] s = s
abandon_all (address ∷ addresses) s = abandon_all addresses (abandon s address)

-- `Close`, which a closed connection ignores, with `OnConnectionClosed`. `drain` is `MaybeFinishDrain`.
unfoldable pub close_found :
    (RpcServer → RpcServer) → ℕ → RpcServer → Option ServerConnection → RpcServer
close_found drain id s none = s
close_found drain id s (some c) = drain (
    abandon_all (entry_values c.requests) (record s {
      connections = erase_entry id s.connections;
      active_connections = sub64 s.active_connections 1;
    }))

unfoldable pub close_connection_with : (RpcServer → RpcServer) → RpcServer → ℕ → RpcServer
close_connection_with drain s id = close_found drain id s (find_entry id s.connections)

unfoldable pub close_each_connection : List ℕ → RpcServer → RpcServer
close_each_connection [] s = s
close_each_connection (id ∷ ids) s = close_each_connection ids (close_connection_with (λ t. t) s id)

-- `StopNow`, less the registry, the sockets and the threads. It sets `stopped_` first, so the
-- `MaybeFinishDrain` of the connections that it closes returns at once.
unfoldable pub stop_now : RpcServer → RpcServer
stop_now s =
    let closed =
      close_each_connection (entry_keys s.connections)
        (record s { stopped = true; accepting = false }) in
    if s.stopped then s else closed

unfoldable pub is_drained : RpcServer → Bool
is_drained s =
    not (s.accepting || (s.stopped || not (s.inflight_count == 0))) && (s.active_connections == 0)

-- `MaybeFinishDrain`.
unfoldable pub finish_drain : RpcServer → RpcServer
finish_drain s = let stopped = stop_now s in if is_drained s then stopped else s

unfoldable pub close_connection : RpcServer → ℕ → RpcServer
close_connection s id = close_connection_with finish_drain s id
