-- ===== src/Server/Verdicts.antt =====
-- What an admitted request leads to: the records of idempotent requests, and the execution in `OnFrame` of
-- rpc_src/transport/rpc_server.cpp. `clock` is as in Finishing.
use coro_rpc.Protocol.Wire.{Bytes}
use coro_rpc.Protocol.Frame.{Frame, default_frame}
use coro_rpc.Protocol.Metadata.{same_bytes}
use coro_rpc.Transport.Connection.Closing.{is_empty}
use coro_rpc.Transport.Dispatcher.{ServerRequest, RpcExecutionMode}
use coro_rpc.Transport.Status.{rpc_resource_exhausted}
use coro_rpc.Server.{RpcServer, RpcServerOptions, RequestState, IdempotencyRecord, Handlers}
use coro_rpc.Server.Closing.{find_record, put_record}
use coro_rpc.Server.Finishing.{status_response, finish, finish_either, prune_cache}
use coro_rpc.Base.{
  ℕ, Bool, length, leb, ◌==◌, if◌then◌else◌, true, false, not, ◌&&◌, Option, none, some, [], ◌∷◌,
  ◌++◌,
}
use coro_rpc.Server.Checks.{count_duplicate, count_refused, rpc_already_exists, work_result}

-- What the records say of a request with a key.
pub data Verdict : Type 0 where
  -- The first request with its key, or one without.
  fresh : RpcServer → Verdict
  -- It waits for the first one.
  joined : RpcServer → Verdict
  replayed : RpcServer → Frame → Verdict
  conflicting : RpcServer → Verdict
  full : RpcServer → Verdict

abbrev pub same_request : IdempotencyRecord → ℕ → Bytes → Bool
same_request r fingerprint body = (r.fingerprint == fingerprint) && same_bytes r.body body

unfoldable pub judge_found :
    RpcServerOptions → RpcServer → ℕ → RequestState → Bytes → Option IdempotencyRecord → Verdict
judge_found o s address q body (some r) =
    let counted = count_duplicate s in
    if not (same_request r q.fingerprint body)
    then conflicting counted
    else (if r.pending
        then joined (record counted {
          idempotency =
              put_record q.idempotency_key (record r { waiters = r.waiters ++ address ∷ [] })
                s.idempotency;
        })
        else replayed counted r.response)
judge_found o s address q body none =
    let pruned = prune_cache o s in
    let started : IdempotencyRecord = record {
      pending = true;
      fingerprint = q.fingerprint;
      body = body;
      response = default_frame;
      waiters = address ∷ [];
    } in
    if leb o.max_idempotency_entries (length pruned.idempotency)
    then full pruned
    else fresh (record pruned { idempotency = (q.idempotency_key, started) ∷ pruned.idempotency })

unfoldable pub judge : RpcServerOptions → RpcServer → ℕ → RequestState → Bytes → Verdict
judge o s address q body =
    if is_empty q.idempotency_key
    then fresh s
    else judge_found o s address q body (find_record q.idempotency_key s.idempotency)

-- The execution of an admitted request. `submitted` is what `TrySubmit` of its executor answers; the
-- worker then reports to `on_worker_completion` with a `work_result`.
unfoldable pub execute :
    RpcServerOptions
    → Handlers
    → (ℕ → ℕ)
    → Bool
    → RpcServer
    → ℕ
    → RequestState
    → ServerRequest
    → RpcServer
execute o h clock submitted s address q request =
    let (response, cache_response) = work_result q.cancelled q.request_id (h.handler request) in
    let inlined = finish_either o clock s address q response cache_response in
    let rejected =
      finish_either o clock (count_refused s) address q
        (status_response q.request_id rpc_resource_exhausted) false in
    elim (h.select_mode request.metadata) [
      | RpcExecutionMode.network_inline ↦ inlined
      | _ ↦ if submitted then s else rejected
    ]

unfoldable pub follow_verdict :
    RpcServerOptions
    → Handlers
    → (ℕ → ℕ)
    → Bool
    → ℕ
    → RequestState
    → ServerRequest
    → Verdict
    → RpcServer
follow_verdict o h clock submitted address q request (fresh s) =
    execute o h clock submitted s address q request
follow_verdict o h clock submitted address q request (joined s) = s
follow_verdict o h clock submitted address q request (replayed s response) =
    finish o clock s address response
follow_verdict o h clock submitted address q request (conflicting s) =
    finish o clock s address (status_response q.request_id rpc_already_exists)
follow_verdict o h clock submitted address q request (full s) =
    finish o clock (count_refused s) address (status_response q.request_id rpc_resource_exhausted)
