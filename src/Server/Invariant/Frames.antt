-- ===== src/Server/Invariant/Frames.antt =====
-- The operations by which requests and connections of a server start keep its invariant.
use coro_rpc.Protocol.Wire.{Bytes}
use coro_rpc.Protocol.Frame.{Frame}
use coro_rpc.Protocol.MessageType
use coro_rpc.Server.{
  RpcServer, RpcServerOptions, ServerConnection, RequestState, IdempotencyRecord, RpcServerMetrics,
  ServerRequest, Handlers, RpcExecutionMode,
}
use coro_rpc.Server.Admission.{admitted, serve, on_request, on_frame, new_state, serve_by}
use coro_rpc.Server.Checks.{
  refuse_frame, acquire_inflight, serve_view, add_request, add_found, count_received, work_result,
  count_refused, add_deadline, count_expired,
}
use coro_rpc.Server.Verdicts.{
  Verdict, fresh, joined, replayed, conflicting, full, judge_found, judge, execute, follow_verdict,
}
use coro_rpc.Base.{
  ℕ, Bool, length, if◌then◌else◌, Option-cases, if_cases, sub64, sub64_exact, find_entry, get_elem?,
  ◌+◌, ◌≡◌, refl, inl, inr, true, false, Option, none, some, [], ◌∷◌, ◌++◌, arith, not, ◌==◌,
}
use coro_rpc.Server.Valid.{OptionsInRange, ServerValid, open_count-append, open_count-set_same}
use coro_rpc.Server.Finishing.{cancel, cancel_found, find_request, status_response, has_expired}
use coro_rpc.Server.Invariant.{
  length-put_record, finish_drain-ServerValid, close_connection-ServerValid, length-put_entry,
  length-leave_record,
}
use coro_rpc.Server.Invariant.Finishing.{
  prune_cache-ServerValid, queue_frame-ServerValid, finish-ServerValid, finish_either-ServerValid,
}
use coro_rpc.Transport.Connection.Closing.{is_empty}
use coro_rpc.Transport.Status.{rpc_resource_exhausted, rpc_deadline_exceeded}
use coro_rpc.Protocol.Metadata.{decode_request_metadata, default_metadata}

-- A metric does not matter.
metrics-ServerValid :
    (o : RpcServerOptions) (s : RpcServer) (m : RpcServerMetrics)
    → ServerValid o s
    → ServerValid o (record s { metrics = m })
metrics-ServerValid o s m v = ground arith

-- What a verdict leaves is valid.
abbrev VerdictValid : RpcServerOptions → Verdict → Type 0
VerdictValid o (fresh s) = ServerValid o s
VerdictValid o (joined s) = ServerValid o s
VerdictValid o (replayed s response) = ServerValid o s
VerdictValid o (conflicting s) = ServerValid o s
VerdictValid o (full s) = ServerValid o s

module _ (o : RpcServerOptions) (w : OptionsInRange o) where
  refuse_frame-ServerValid :
      (s : RpcServer) (id request_id status : ℕ)
      → ServerValid o s
      → ServerValid o (refuse_frame o s id request_id status)
  unfolding refuse_frame
  refuse_frame-ServerValid s id request_id status v =
      queue_frame-ServerValid o w _ id _ (metrics-ServerValid o s _ v)

  -- A place in flight that is given back.
  give_back-ServerValid :
      (s t : RpcServer) (m : RpcServerMetrics)
      → acquire_inflight o s ≡ some t
      → ServerValid o s
      → ServerValid o (record t { inflight_count = sub64 t.inflight_count 1; metrics = m })
  unfolding acquire_inflight
  give_back-ServerValid s t m e v = let x = sub64_exact (s.inflight_count + 1) 1 in ground arith

  serve_view-ServerValid :
      (later : ℕ) (handler : ServerRequest → Option Frame) (s : RpcServer) (id : ℕ)
      (request : ServerRequest)
      → ServerValid o s
      → ServerValid o (serve_view o later handler s id request)
  unfolding serve_view
  serve_view-ServerValid later handler s id request v = elim (Option-cases (acquire_inflight o s)) [
    | inl e ↦
        rw (e, serve_view)
          (refuse_frame-ServerValid s id request.request_id rpc_resource_exhausted v)
    | inr (t, e) ↦
        rw (e, serve_view)
          (finish_drain-ServerValid o w _
            (queue_frame-ServerValid o w _ id _ (give_back-ServerValid s t _ e v)))
  ]

  add_request-ServerValid :
      (s t u : RpcServer) (id : ℕ) (r : RequestState)
      → acquire_inflight o s ≡ some t
      → add_request o t id r ≡ some u
      → r.completed ≡ false
      → ServerValid o s
      → ServerValid o u
  unfolding acquire_inflight add_request add_found
  add_request-ServerValid s t u id r e f c v = elim (Option-cases (find_entry id t.connections)) [
    | inl g ↦ ground arith
    | inr (d, g) ↦
        let n = open_count-append s.states r c in
        let l =
          length-put_entry id (record d { requests = (r.request_id, length t.states) ∷ d.requests })
            t.connections in
        ground arith
  ]

  judge_found-VerdictValid :
      (s : RpcServer) (address : ℕ) (q : RequestState) (body : Bytes)
      (found : Option IdempotencyRecord)
      → ServerValid o s
      → VerdictValid o (judge_found o s address q body found)
  unfolding judge_found
  judge_found-VerdictValid s address q body none v =
      let p = prune_cache-ServerValid o w s v in ground arith
  judge_found-VerdictValid s address q body (some r) v =
      let l =
        length-put_record q.idempotency_key (record r { waiters = r.waiters ++ address ∷ [] })
          s.idempotency in
      ground arith

  judge-VerdictValid :
      (s : RpcServer) (address : ℕ) (q : RequestState) (body : Bytes)
      → ServerValid o s
      → VerdictValid o (judge o s address q body)
  unfolding judge
  judge-VerdictValid s address q body v =
      if_cases (VerdictValid o) (is_empty q.idempotency_key) _ _ (λ e. v)
        (λ e. judge_found-VerdictValid s address q body _ v)

  execute-ServerValid :
      (h : Handlers) (clock : ℕ → ℕ) (submitted : Bool) (s : RpcServer) (address : ℕ)
      (q : RequestState) (request : ServerRequest)
      → ServerValid o s
      → ServerValid o (execute o h clock submitted s address q request)
  unfolding execute
  execute-ServerValid h clock submitted s address q request v =
      let given = work_result q.cancelled q.request_id (h.handler request) in
      let a = finish_either-ServerValid o w clock s address q given.0 given.1 v in
      let b =
        finish_either-ServerValid o w clock (count_refused s) address q
          (status_response q.request_id rpc_resource_exhausted) false
          (metrics-ServerValid o s _ v) in
      choose_mode a b submitted (h.select_mode request.metadata)
    where
      choose_mode :
          {x y : RpcServer}
          → ServerValid o x
          → ServerValid o y
          → (b : Bool) (m : RpcExecutionMode)
          → ServerValid o (elim m [ RpcExecutionMode.network_inline ↦ x | _ ↦ if b then s else y ])
      choose_mode a b true RpcExecutionMode.network_inline = a
      choose_mode a b true RpcExecutionMode.cpu_pool = v
      choose_mode a b true RpcExecutionMode.io_coroutine = v
      choose_mode a b false RpcExecutionMode.network_inline = a
      choose_mode a b false RpcExecutionMode.cpu_pool = b
      choose_mode a b false RpcExecutionMode.io_coroutine = b

  follow_verdict-ServerValid :
      (h : Handlers) (clock : ℕ → ℕ) (submitted : Bool) (address : ℕ) (q : RequestState)
      (request : ServerRequest) (verdict : Verdict)
      → VerdictValid o verdict
      → ServerValid o (follow_verdict o h clock submitted address q request verdict)
  unfolding follow_verdict
  follow_verdict-ServerValid h clock submitted address q request (fresh s) v =
      execute-ServerValid h clock submitted s address q request v
  follow_verdict-ServerValid h clock submitted address q request (joined s) v = v
  follow_verdict-ServerValid h clock submitted address q request (replayed s response) v =
      finish-ServerValid o w clock s address response v
  follow_verdict-ServerValid h clock submitted address q request (conflicting s) v =
      finish-ServerValid o w clock s address _ v
  follow_verdict-ServerValid h clock submitted address q request (full s) v =
      finish-ServerValid o w clock (count_refused s) address _ (metrics-ServerValid o s _ v)

  admitted-ServerValid :
      (h : Handlers) (clock : ℕ → ℕ) (submitted : Bool) (s : RpcServer) (id : ℕ) (q : RequestState)
      (request : ServerRequest)
      → q.completed ≡ false
      → ServerValid o s
      → ServerValid o (admitted o h clock submitted s id q request)
  unfolding admitted
  admitted-ServerValid h clock submitted s id q request c v =
      elim (Option-cases (acquire_inflight o s)) [
        | inl e ↦
            rw (e, admitted) (refuse_frame-ServerValid s id q.request_id rpc_resource_exhausted v)
        | inr (t, e) ↦ elim (Option-cases (add_request o t id q)) [
          | inl f ↦
              rw (e, admitted, f)
                (refuse_frame-ServerValid _ id q.request_id rpc_resource_exhausted
                  (give_back-ServerValid s t t.metrics e v))
          | inr (u, f) ↦
              rw (e, admitted, f)
                (follow_verdict-ServerValid h clock submitted (length s.states) q request _ (
                  judge-VerdictValid u (length s.states) q request.frame.body
                    (add_request-ServerValid s t u id q e f c v)))
        ]
      ]

  serve_by-ServerValid :
      (later : ℕ) (inlined : Bool) (ordinary s : RpcServer) (id : ℕ) (request : ServerRequest)
      (view : Option (ServerRequest → Option Frame))
      → ServerValid o ordinary
      → ServerValid o s
      → ServerValid o (serve_by o later inlined ordinary s id request view)
  unfolding serve_by
  serve_by-ServerValid later inlined ordinary s id request none a v = a
  serve_by-ServerValid later inlined ordinary s id request (some view) a v =
      if_cases (ServerValid o) _ _ _ (λ f. serve_view-ServerValid later view s id request v)
        (λ f. a)

  serve-ServerValid :
      (h : Handlers) (clock : ℕ → ℕ) (later : ℕ) (submitted : Bool) (s : RpcServer) (id : ℕ)
      (c : ServerConnection) (request : ServerRequest)
      → ServerValid o s
      → ServerValid o (serve o h clock later submitted s id c request)
  unfolding serve new_state
  serve-ServerValid h clock later submitted s id c request v =
      serve_by-ServerValid later _ _ s id request h.inline_view_handler
        (admitted-ServerValid h clock submitted s id (new_state id c request) request refl v) v

  on_request-ServerValid :
      (h : Handlers) (clock : ℕ → ℕ) (now later : ℕ) (submitted : Bool) (s : RpcServer) (id : ℕ)
      (c : ServerConnection) (frame : Frame)
      → ServerValid o s
      → ServerValid o (on_request o h clock now later submitted s id c frame)
  unfolding on_request
  on_request-ServerValid h clock now later submitted s id c frame v =
      let decoded = decode_request_metadata frame.metadata default_metadata none in
      let deadline = add_deadline now decoded.metadata.timeout_ms in
      let request : ServerRequest = record {
        request_id = frame.header.request_id;
        deadline_ms = deadline;
        metadata = decoded.metadata;
        frame = frame;
      } in
      let late =
        queue_frame-ServerValid o w (count_expired s) id
          (status_response frame.header.request_id rpc_deadline_exceeded)
          (metrics-ServerValid o s _ v) in
      let served = serve-ServerValid h clock later submitted s id c request v in
      if_cases (ServerValid o) (not s.accepting) _ _ (λ a. refuse_frame-ServerValid s id _ _ v)
        (λ a.
          if_cases (ServerValid o) (not decoded.success) _ _
            (λ b. refuse_frame-ServerValid s id _ _ v)
            (λ b.
              if_cases (ServerValid o) (has_expired deadline now) _ _ (λ d. late) (λ d. served)))

  cancel-ServerValid :
      (clock : ℕ → ℕ) (s : RpcServer) (id request_id : ℕ)
      → ServerValid o s
      → ServerValid o (cancel o clock s id request_id)
  unfolding cancel cancel_found
  cancel-ServerValid clock s id request_id v =
      elim (Option-cases (find_request request_id (find_entry id s.connections))) [
        | inl e ↦ rw (e, cancel) v
        | inr (a, e) ↦ elim (Option-cases (get_elem? s.states a)) [
          | inl f ↦ rw (e, cancel, f) v
          | inr (r, f) ↦
              let n = open_count-set_same s.states a r (record r { cancelled = true }) f refl in
              let l = length-leave_record a r.idempotency_key s.idempotency in
              rw (e, cancel, f) (finish-ServerValid o w clock _ a _ (ground arith))
        ]
      ]

  pub on_frame-ServerValid :
      (h : Handlers) (clock : ℕ → ℕ) (now later : ℕ) (submitted : Bool) (s : RpcServer) (id : ℕ)
      (frame : Frame)
      → ServerValid o s
      → ServerValid o (on_frame o h clock now later submitted s id frame)
  unfolding on_frame
  on_frame-ServerValid h clock now later submitted s id frame v =
      let a = cancel-ServerValid clock s id frame.header.request_id v in
      let z = close_connection-ServerValid o w s id v in
      elim (Option-cases (find_entry id s.connections)) [
        | inl e ↦ rw (e, on_frame) v
        | inr (c, e) ↦
            let b =
              on_request-ServerValid h clock now later submitted (count_received s) id c frame
                (metrics-ServerValid o s _ v) in
            rw (e, on_frame)
              (if_cases (ServerValid o) (frame.header.message_type == MessageType.cancel_type) _ _
                (λ d. a)
                (λ d.
                  if_cases (ServerValid o) (frame.header.message_type == MessageType.request_type) _
                    _ (λ f. b) (λ f. z)))
      ]
