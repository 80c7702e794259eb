-- ===== src/Server/Invariant/Lifecycle.antt =====
-- Reports of workers, connections, drain and writes keep the invariant of a server.
use coro_rpc.Protocol.Wire.{Bytes}
use coro_rpc.Protocol.Frame.{Frame}
use coro_rpc.Server.{RpcServer, RpcServerOptions}
use coro_rpc.Base.{
  ℕ, Bool, length, Option-cases, if_cases, sub64, find_entry, entry_keys, get_elem?, inl, inr, true,
  false, List, [], ◌∷◌, arith, not, ◌||◌, ◌==◌,
}
use coro_rpc.Server.Valid.{OptionsInRange, ServerValid}
use coro_rpc.Server.Lifecycle.{
  attach_connection, drain_each, end_write, start_write, start_drain, drain_found, write_found,
  write_done, take_batch,
}
use coro_rpc.Server.Finishing.{on_worker_completion, complete_work}
use coro_rpc.Server.Invariant.{
  stop_now-ServerValid, finish_drain-ServerValid, put-ServerValid, close_connection-ServerValid,
}
use coro_rpc.Server.Invariant.Finishing.{finish_either-ServerValid, close_after_drain-ServerValid}
use coro_rpc.Transport.Connection.Closing.{is_empty}

module _ (o : RpcServerOptions) (w : OptionsInRange o) where
  pub on_worker_completion-ServerValid :
      (clock : ℕ → ℕ) (s : RpcServer) (address : ℕ) (response : Frame) (cache_response : Bool)
      → ServerValid o s
      → ServerValid o (on_worker_completion o clock s address response cache_response)
  unfolding on_worker_completion complete_work
  on_worker_completion-ServerValid clock s address response cache_response v =
      elim (Option-cases (get_elem? s.states address)) [
        | inl e ↦ rw e v
        | inr (r, e) ↦ rw e (
            if_cases (ServerValid o) _ _ _ (λ a. v)
              (λ a. finish_either-ServerValid o w clock s address r response cache_response v))
      ]

  pub attach_connection-ServerValid :
      (ready : Bool) (caller_scope : Bytes) (s : RpcServer)
      → ServerValid o s
      → ServerValid o (attach_connection o ready caller_scope s).0
  unfolding attach_connection
  attach_connection-ServerValid ready caller_scope s v = ground arith

  drain_each-ServerValid :
      (ids : List ℕ) (s : RpcServer) → ServerValid o s → ServerValid o (drain_each ids s)
  unfolding drain_each drain_found
  drain_each-ServerValid [] s v = v
  drain_each-ServerValid (id ∷ ids) s v = elim (Option-cases (find_entry id s.connections)) [
    | inl e ↦ rw e (drain_each-ServerValid ids s v)
    | inr (c, e) ↦ rw e (
        drain_each-ServerValid ids _ (
          close_after_drain-ServerValid o w _ id
            (put-ServerValid o w s id (record c { draining = true }) v)))
  ]

  pub start_drain-ServerValid :
      (s : RpcServer) (timeout_ms : ℕ) → ServerValid o s → ServerValid o (start_drain s timeout_ms)
  unfolding start_drain
  start_drain-ServerValid s timeout_ms v =
      let refusing : ServerValid o (record s { accepting = false }) = ground arith in
      let drained = drain_each (entry_keys s.connections) (record s { accepting = false }) in
      let d = drain_each-ServerValid (entry_keys s.connections) _ refusing in
      let now = stop_now-ServerValid o w _ refusing in
      let then_finished = finish_drain-ServerValid o w _ d in
      if_cases (ServerValid o) (s.stopped || not s.accepting) _ _ (λ a. v)
        (λ a.
          if_cases (ServerValid o) (timeout_ms == 0) _ _ (λ b. now)
            (λ b. if_cases (ServerValid o) drained.stopped _ _ (λ e. d) (λ e. then_finished)))

  pub start_write-ServerValid :
      (s : RpcServer) (id : ℕ) → ServerValid o s → ServerValid o (start_write s id)
  unfolding start_write write_found
  start_write-ServerValid s id v = elim (Option-cases (find_entry id s.connections)) [
    | inl e ↦ rw (e, start_write) v
    | inr (c, e) ↦
        let batch = take_batch [] c.outbound in
        let p =
          put-ServerValid o w s id
            (record c {
              outbound = batch.1;
              outbound_bytes = sub64 c.outbound_bytes (length batch.0);
              unwritten = batch.0;
            })
            v in
        rw (e, start_write)
          (if_cases (ServerValid o) (is_empty c.outbound || not (is_empty c.unwritten)) _ _ (λ a. v)
            (λ a. p))
  ]

  pub end_write-ServerValid :
      (written : Bool) (s : RpcServer) (id : ℕ)
      → ServerValid o s
      → ServerValid o (end_write written s id)
  unfolding end_write write_done
  end_write-ServerValid written s id v = elim (Option-cases (find_entry id s.connections)) [
    | inl e ↦ rw (e, end_write) v
    | inr (c, e) ↦
        let p =
          close_after_drain-ServerValid o w _ id
            (put-ServerValid o w s id (record c { unwritten = [] }) v) in
        rw (e, end_write)
          (if_cases (ServerValid o) written _ _ (λ a. p)
            (λ a. close_connection-ServerValid o w s id v))
  ]
