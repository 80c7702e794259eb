-- ===== src/Server/Invariant.antt =====
-- The operations by which connections and requests of a server end keep its invariant.
pub mod Frames
pub mod Finishing
pub mod Lifecycle
use coro_rpc.Protocol.Wire.{Bytes}
use coro_rpc.Protocol.Frame.{Frame}
use coro_rpc.Server.{RpcServer, RpcServerOptions, ServerConnection, RequestState, IdempotencyRecord}
use coro_rpc.Server.Closing.{
  abandon, abandon_found, abandon_all, close_found, close_connection_with, close_each_connection,
  stop_now, finish_drain, close_connection, is_drained, find_record,
}
use coro_rpc.Server.Valid.{
  ServerValid, OptionsInRange, length-erase_entry, length-put_entry, open_count-set_done,
  length-prune, length-put_record, length-leave_record, length-erase_record,
}
use coro_rpc.Base.{
  ℕ, Bool, length, ltb, Bool-cases, Option-cases, sub64, add64, sub64_exact, find_entry, put_entry,
  erase_entry, entry_values, entry_keys, get_elem?, ◌-◌, ◌≡◌, refl, inl, inr, true, false, ◌&&◌,
  ◌||◌, Option, none, some, List, [], ◌∷◌, ◌++◌, arith, if_cases,
}
use coro_rpc.Server.Finishing.{
  settle_record, close_after_drain, queue_frame, finish_either, queue_found, finish_found,
  finish_idempotent, prune_cache, queue_encoded, mark_finished, close_drained, forget_request,
  finish_each, finish, complete_request, has_expired, settle_found, final_response,
}
use coro_rpc.Protocol.Encoder.{encode}
use coro_rpc.Transport.Connection.Closing.{is_empty}

module _ (o : RpcServerOptions) (w : OptionsInRange o) where
  pub abandon_found-ServerValid :
      (address : ℕ) (s : RpcServer) (q : Option RequestState)
      → get_elem? s.states address ≡ q
      → ServerValid o s
      → ServerValid o (abandon_found address s q)
  unfolding abandon_found
  abandon_found-ServerValid address s none e v = v
  abandon_found-ServerValid address s (some r) e v =
      let d = record r { completed = true; cancelled = true } in
      let n = open_count-set_done s.states address r d e in
      let l = length-leave_record address r.idempotency_key s.idempotency in
      let x = sub64_exact s.inflight_count 1 in ground arith

  pub abandon-ServerValid :
      (s : RpcServer) (address : ℕ) → ServerValid o s → ServerValid o (abandon s address)
  unfolding abandon
  abandon-ServerValid s address v = abandon_found-ServerValid address s _ refl v

  pub abandon_all-ServerValid :
      (addresses : List ℕ) (s : RpcServer)
      → ServerValid o s
      → ServerValid o (abandon_all addresses s)
  unfolding abandon_all
  abandon_all-ServerValid [] s v = v
  abandon_all-ServerValid (a ∷ addresses) s v =
      abandon_all-ServerValid addresses (abandon s a) (abandon-ServerValid s a v)

  -- Without its drain.
  pub detach-ServerValid :
      (id : ℕ) (s : RpcServer) (c : ServerConnection)
      → find_entry id s.connections ≡ some c
      → ServerValid o s
      → ServerValid o (record s {
        connections = erase_entry id s.connections;
        active_connections = sub64 s.active_connections 1;
      })
  detach-ServerValid id s c e v =
      let n = length-erase_entry id c s.connections e in
      let x = sub64_exact s.active_connections 1 in ground arith

  pub close_found-ServerValid :
      (drain : RpcServer → RpcServer)
      → ((t : RpcServer) → ServerValid o t → ServerValid o (drain t))
      → (id : ℕ) (s : RpcServer) (q : Option ServerConnection) → find_entry id s.connections ≡ q
      → ServerValid o s
      → ServerValid o (close_found drain id s q)
  unfolding close_found
  close_found-ServerValid drain keep id s none e v = v
  close_found-ServerValid drain keep id s (some c) e v =
      keep _ (abandon_all-ServerValid (entry_values c.requests) _ (detach-ServerValid id s c e v))

  pub close_connection_with-ServerValid :
      (drain : RpcServer → RpcServer)
      → ((t : RpcServer) → ServerValid o t → ServerValid o (drain t))
      → (s : RpcServer) (id : ℕ) → ServerValid o s
      → ServerValid o (close_connection_with drain s id)
  unfolding close_connection_with
  close_connection_with-ServerValid drain keep s id v =
      close_found-ServerValid drain keep id s _ refl v

  pub close_each_connection-ServerValid :
      (ids : List ℕ) (s : RpcServer) → ServerValid o s → ServerValid o (close_each_connection ids s)
  unfolding close_each_connection
  close_each_connection-ServerValid [] s v = v
  close_each_connection-ServerValid (id ∷ ids) s v =
      close_each_connection-ServerValid ids (close_connection_with (λ t. t) s id)
        (close_connection_with-ServerValid (λ t. t) (λ t u. u) s id v)

  pub stop_now-ServerValid : (s : RpcServer) → ServerValid o s → ServerValid o (stop_now s)
  unfolding stop_now
  stop_now-ServerValid s v =
      let c =
        close_each_connection-ServerValid (entry_keys s.connections)
          (record s { stopped = true; accepting = false }) (ground arith) in
      if_cases (ServerValid o) s.stopped _ _ (λ e. v) (λ e. c)

  pub finish_drain-ServerValid : (s : RpcServer) → ServerValid o s → ServerValid o (finish_drain s)
  unfolding finish_drain
  finish_drain-ServerValid s v =
      let c = stop_now-ServerValid s v in
      elim (Bool-cases (is_drained s)) [ inl e ↦ rw e c | inr e ↦ rw e v ]

  pub close_connection-ServerValid :
      (s : RpcServer) (id : ℕ) → ServerValid o s → ServerValid o (close_connection s id)
  unfolding close_connection
  close_connection-ServerValid s id v =
      close_connection_with-ServerValid finish_drain finish_drain-ServerValid s id v

  -- A connection that is overwritten.
  pub put-ServerValid :
      (s : RpcServer) (id : ℕ) (c : ServerConnection)
      → ServerValid o s
      → ServerValid o (record s { connections = put_entry id c s.connections })
  put-ServerValid s id c v = let n = length-put_entry id c s.connections in ground arith
