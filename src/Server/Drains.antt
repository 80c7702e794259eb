-- ===== src/Server/Drains.antt =====
-- A drain that meets a batch on its way (`BeginDrain` and `MaybeCloseAfterDrain` of
-- rpc_src/transport/rpc_server.cpp).
use coro_rpc.Server.{RpcServer, ServerConnection}
use coro_rpc.Server.Lifecycle.{start_drain, drain_each, drain_found}
use coro_rpc.Base.{
  ℕ, ==_iff, sub64, find_entry, put_entry, erase_entry, ◌≡◌, ◌≢◌, true, false, [], ◌∷◌, arith,
}
use coro_rpc.Server.Finishing.{close_after_drain, close_drained}
use coro_rpc.Server.Closing.{
  close_connection, close_connection_with, close_found, abandon_all, finish_drain, is_drained,
  stop_now, close_each_connection,
}

-- Where the last response of a server's only connection is still being written, a drain with time left
-- closes the connection at once and stops the server: `MaybeCloseAfterDrain` asks for the frames that
-- are queued, and not for those that the writer has taken.
pub start_drain_unwritten :
    (s : RpcServer) (id timeout_ms : ℕ) (c : ServerConnection)
    → s.connections ≡ (id, c) ∷ []
    → s.active_connections ≡ 1
    → s.inflight_count ≡ 0
    → s.accepting ≡ true
    → s.stopped ≡ false
    → c.requests ≡ []
    → c.outbound ≡ []
    → c.unwritten ≢ []
    → timeout_ms ≢ 0
    → ((start_drain s timeout_ms).connections ≡ []) × ((start_drain s timeout_ms).stopped ≡ true)
unfolding start_drain drain_each drain_found close_after_drain close_drained close_connection
    close_connection_with close_found abandon_all finish_drain is_drained stop_now
    close_each_connection find_entry put_entry erase_entry sub64
start_drain_unwritten s id timeout_ms c n a f p q r e u t = ground (arith, ==_iff id id)
