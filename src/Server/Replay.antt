-- ===== src/Server/Replay.antt =====
-- Requests whose idempotency key has a record (`OnFrame` of rpc_src/transport/rpc_server.cpp).
use coro_rpc.Protocol.Wire.{Bytes}
use coro_rpc.Protocol.Frame.{Frame}
use coro_rpc.Protocol.MessageType
use coro_rpc.Server.{
  RpcServer, RpcServerOptions, ServerConnection, RequestState, IdempotencyRecord, Handlers,
  ServerRequest,
}
use coro_rpc.Base.{
  ℕ, Bool, length, if◌then◌else◌, find_entry, put_entry, ◌+◌, ◌<◌, ◌≡◌, refl, true, false, none,
  some, [], ◌∷◌, ◌++◌, arith, Option,
}
use coro_rpc.Protocol.Metadata.{decode_request_metadata, default_metadata}
use coro_rpc.Server.Admission.{
  admitted, on_frame, serve_by, new_state, on_request, serve, is_inline_mode,
}
use coro_rpc.Server.Checks.{
  count_duplicate, acquire_inflight, add_request, add_deadline, add_found, rpc_already_exists,
  count_received,
}
use coro_rpc.Server.Verdicts.{judge, same_request, judge_found, follow_verdict}
use coro_rpc.Transport.Dispatcher.{ServerRequest}
use coro_rpc.Transport.Connection.Closing.{is_empty}
use coro_rpc.Server.Keys.{build_idempotency_key, append_key_part}
use coro_rpc.Server.Closing.{put_record, find_record}
use coro_rpc.Server.Finishing.{has_expired, finish, status_response}

-- A frame as a request.
abbrev pub request_of : ℕ → Frame → ServerRequest
request_of now frame =
    let metadata = (decode_request_metadata frame.metadata default_metadata none).metadata in
    record {
      request_id = frame.header.request_id;
      deadline_ms = add_deadline now metadata.timeout_ms;
      metadata = metadata;
      frame = frame;
    }

-- The server that has taken the request `q` in.
abbrev pub taken_in : RpcServer → ℕ → ServerConnection → RequestState → RpcServer
taken_in s id c q = record s {
  inflight_count = s.inflight_count + 1;
  states = s.states ++ q ∷ [];
  connections =
      put_entry id (record c { requests = (q.request_id, length s.states) ∷ c.requests })
        s.connections;
}

-- What the limits ask of a request that is taken in.
pub record CanTakeIn (o : RpcServerOptions) (s : RpcServer) (id : ℕ) (c : ServerConnection)
    (request_id : ℕ) : Type 0 where
  pub peer : find_entry id s.connections ≡ some c
  pub below_limit : s.inflight_count < o.max_inflight_requests
  pub below_share : length c.requests < o.max_inflight_per_connection
  pub new_id : find_entry request_id c.requests ≡ none

-- A request frame that passes the checks of `OnFrame`, with a key.
pub record IsKeyed (s : RpcServer) (now : ℕ) (frame : Frame) : Type 0 where
  pub kind : frame.header.message_type ≡ MessageType.request_type
  pub accepting : s.accepting ≡ true
  pub metadata : (decode_request_metadata frame.metadata default_metadata none).success ≡ true
  pub in_time : has_expired (request_of now frame).deadline_ms now ≡ false
  pub keyed : is_empty (request_of now frame).metadata.idempotency_key ≡ false

-- What becomes of a request whose key has the record `r`.
unfoldable pub known_outcome :
    RpcServerOptions
    → (ℕ → ℕ)
    → RpcServer
    → ℕ
    → RequestState
    → Bytes
    → IdempotencyRecord
    → RpcServer
known_outcome o clock s address q body r =
    let t = count_duplicate s in
    let waiting = record r { waiters = r.waiters ++ address ∷ [] } in
    if same_request r q.fingerprint body
    then (if r.pending
        then record t { idempotency = put_record q.idempotency_key waiting s.idempotency }
        else finish o clock t address r.response)
    else finish o clock t address (status_response q.request_id rpc_already_exists)

known_judge :
    (o : RpcServerOptions) (h : Handlers) (clock : ℕ → ℕ) (submitted : Bool) (s : RpcServer)
    (address : ℕ) (q : RequestState) (request : ServerRequest) (r : IdempotencyRecord)
    → is_empty q.idempotency_key ≡ false
    → find_record q.idempotency_key s.idempotency ≡ some r
    → follow_verdict o h clock submitted address q request (judge o s address q request.frame.body)
      ≡ known_outcome o clock s address q request.frame.body r
unfolding judge judge_found follow_verdict known_outcome
known_judge o h clock submitted s address q request r k e = ground arith

admitted-known_outcome :
    (o : RpcServerOptions) (h : Handlers) (clock : ℕ → ℕ) (submitted : Bool) (s : RpcServer)
    (id : ℕ) (c : ServerConnection) (q : RequestState) (request : ServerRequest)
    (r : IdempotencyRecord)
    → CanTakeIn o s id c q.request_id
    → is_empty q.idempotency_key ≡ false
    → find_record q.idempotency_key s.idempotency ≡ some r
    → admitted o h clock submitted s id q request
      ≡ known_outcome o clock (taken_in s id c q) (length s.states) q request.frame.body r
unfolding admitted acquire_inflight add_request add_found
admitted-known_outcome o h clock submitted s id c q request r v k e =
    let j = known_judge o h clock submitted (taken_in s id c q) (length s.states) q request r k e in
    ground arith

is_empty-append : (xs ys : Bytes) → is_empty ys ≡ false → is_empty (xs ++ ys) ≡ false
is_empty-append [] ys h = h
is_empty-append (x ∷ xs) ys h = refl

is_empty-append_left : (xs ys : Bytes) → is_empty xs ≡ false → is_empty (xs ++ ys) ≡ false
is_empty-append_left [] ys h = cc
is_empty-append_left (x ∷ xs) ys h = refl

build_idempotency_key-nonempty :
    (a b c d : Bytes) → is_empty (build_idempotency_key a b c d) ≡ false
unfolding build_idempotency_key append_key_part
build_idempotency_key-nonempty a b c d =
    is_empty-append_left _ d (is_empty-append _ (b':' ∷ []) refl)

serve_by_keyed :
    (o : RpcServerOptions) (later : ℕ) (inlined : Bool) (ordinary s : RpcServer) (id : ℕ)
    (request : ServerRequest) (view : Option (ServerRequest → Option Frame))
    → is_empty request.metadata.idempotency_key ≡ false
    → serve_by o later inlined ordinary s id request view ≡ ordinary
unfolding serve_by
serve_by_keyed o later inlined ordinary s id request none k = refl
serve_by_keyed o later false ordinary s id request (some view) k = refl
serve_by_keyed o later true ordinary s id request (some view) k = rw k

new_state-keyed :
    (id : ℕ) (c : ServerConnection) (request : ServerRequest)
    → is_empty request.metadata.idempotency_key ≡ false
    → is_empty (new_state id c request).idempotency_key ≡ false
unfolding new_state
new_state-keyed id c request k =
    let n =
      build_idempotency_key-nonempty c.caller_scope request.metadata.service request.metadata.method
        request.metadata.idempotency_key in
    rw k n

-- Where the key of a request has a record, no handler is asked: the frame is counted as a duplicate, and
-- the outcome is the same for all handlers and whatever an executor would say. A request with the body of
-- the first one waits for its response, or is finished with the response that is kept; one with
-- another body is finished with ALREADY_EXISTS.
pub on_frame-known_outcome :
    (o : RpcServerOptions) (h : Handlers) (clock : ℕ → ℕ) (now later : ℕ) (submitted : Bool)
    (s : RpcServer) (id : ℕ) (c : ServerConnection) (frame : Frame) (r : IdempotencyRecord)
    → IsKeyed s now frame
    → CanTakeIn o s id c frame.header.request_id
    → find_record (new_state id c (request_of now frame)).idempotency_key s.idempotency ≡ some r
    → on_frame o h clock now later submitted s id frame
      ≡ known_outcome o clock
          (taken_in (count_received s) id c (new_state id c (request_of now frame)))
          (length s.states)
          (new_state id c (request_of now frame))
          frame.body
          r
unfolding on_frame on_request serve new_state
on_frame-known_outcome o h clock now later submitted s id c frame r k v e =
    let request = request_of now frame in
    let q = new_state id c request in
    let u = count_received s in
    let t : CanTakeIn o u id c q.request_id = (record {
      peer = v.peer;
      below_limit = v.below_limit;
      below_share = v.below_share;
      new_id = v.new_id;
    }) in
    let a =
      admitted-known_outcome o h clock submitted u id c q request r t
        (new_state-keyed id c request k.keyed) e in
    let b =
      serve_by_keyed o later (is_inline_mode (h.select_mode request.metadata))
        (admitted o h clock submitted u id q request) u id request h.inline_view_handler k.keyed in
    ground arith
