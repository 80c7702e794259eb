-- ===== src/Server/Answers.antt =====
-- What the peer of a request is answered.
use coro_rpc.Protocol.Wire.{Bytes}
use coro_rpc.Protocol.Frame.{Frame}
use coro_rpc.Server.{RpcServer, RpcServerOptions, ServerConnection, RequestState}
use mathlib.Core.Path.{subst}
use coro_rpc.Base.{
  ℕ, length, add64, find_entry, put_entry, erase_entry, ◌+◌, ◌≤◌, ◌≡◌, refl, true, false, none,
  some, List, [], ◌∷◌, ◌++◌, arith, if_cases, get_elem?, ap, ◌∙◌, set, zero, suc, ◌||◌, leb, ◌==◌,
  if◌then◌else◌, IsU64, sub64_exact, ◌-◌, ◌^◌, ◌<◌, sym, ◌≢◌, Bool, not, ◌&&◌,
}
use coro_rpc.Server.Finishing.{
  queue_frame, complete_request, close_after_drain, queue_found, close_drained, forget_request,
  queue_encoded, finish, final_response, mark_finished, finish_found, has_expired, status_response,
}
use coro_rpc.Protocol.Encoder.{encode}
use coro_rpc.Server.Closing.{finish_drain, is_drained}

module _ {A : Type 0} where
  pub find-put_entry :
      (k : ℕ) (v w : A) (m : List (ℕ × A))
      → find_entry k m ≡ some v
      → find_entry k (put_entry k w m) ≡ some w
  unfolding find_entry put_entry
  find-put_entry k v w [] h = cc
  find-put_entry k v w ((j, u) ∷ m) h = ground (arith, find-put_entry k v w m)

  pub put-put_entry :
      (k : ℕ) (v w : A) (m : List (ℕ × A)) → put_entry k w (put_entry k v m) ≡ put_entry k w m
  unfolding put_entry
  put-put_entry k v w [] = refl
  put-put_entry k v w ((j, u) ∷ m) = ground (arith, put-put_entry k v w m)

-- A connection whose peer was answered.
abbrev pub answered : ℕ → Bytes → ServerConnection → ServerConnection
answered request_id bytes c = record c {
  requests = erase_entry request_id c.requests;
  outbound = c.outbound ++ bytes ∷ [];
  outbound_bytes = add64 c.outbound_bytes (length bytes);
}

module _ (o : RpcServerOptions) (s : RpcServer) (id : ℕ) (c : ServerConnection)
    (found : find_entry id s.connections ≡ some c) where
  queue_frame-answered :
      (frame : Frame)
      → (encode frame [] none).success ≡ true
      → c.outbound_bytes + length (encode frame [] none).output ≤ o.max_outbound_bytes
      → queue_frame o s id frame ≡ record s {
        connections =
            put_entry id
              (record c {
                outbound = c.outbound ++ (encode frame [] none).output ∷ [];
                outbound_bytes = add64 c.outbound_bytes (length (encode frame [] none).output);
              })
              s.connections;
      }
  unfolding queue_frame queue_found queue_encoded
  queue_frame-answered frame e l = ground arith

  close_after_drain-open : c.draining ≡ false → close_after_drain s id ≡ s
  unfolding close_after_drain close_drained
  close_after_drain-open d = ground arith

complete_request-answered :
    (o : RpcServerOptions) (s : RpcServer) (id request_id : ℕ) (c : ServerConnection)
    (response : Frame)
    → find_entry id s.connections ≡ some c
    → c.draining ≡ false
    → (encode response [] none).success ≡ true
    → c.outbound_bytes + length (encode response [] none).output ≤ o.max_outbound_bytes
    → complete_request o s id request_id response ≡ record s {
      connections =
          put_entry id (answered request_id (encode response [] none).output c) s.connections;
    }
unfolding complete_request forget_request
complete_request-answered o s id request_id c response f d e l =
    let forgotten = record c { requests = erase_entry request_id c.requests } in
    let t = record s { connections = put_entry id forgotten s.connections } in
    let g = find-put_entry id c forgotten s.connections f in
    let q = queue_frame-answered o t id forgotten g response e l in
    let done = answered request_id (encode response [] none).output c in
    let p = put-put_entry id forgotten done s.connections in
    let u = record s { connections = put_entry id done s.connections } in
    let k = close_after_drain-open o u id done (find-put_entry id c done s.connections f) d in
    ground arith

finish_drain-accepting : (s : RpcServer) → s.accepting ≡ true → finish_drain s ≡ s
unfolding finish_drain is_drained
finish_drain-accepting s a = ground arith

-- The response as it is sent, and its bytes.
abbrev pub sent_response : (ℕ → ℕ) → ℕ → RequestState → Frame → Frame
sent_response clock address r response =
    final_response (has_expired r.deadline_ms (clock address)) r response

abbrev pub sent_bytes : (ℕ → ℕ) → ℕ → RequestState → Frame → Bytes
sent_bytes clock address r response =
    (encode (sent_response clock address r response) [] none).output

-- A request that is open on a server that accepts, and a connection that can take the answer.
pub record CanAnswer (o : RpcServerOptions) (s : RpcServer) (address : ℕ) (r : RequestState)
    (c : ServerConnection) (response : Frame) : Type 0 where
  pub request : get_elem? s.states address ≡ some r
  pub unfinished : r.completed ≡ false
  pub peer : find_entry r.connection s.connections ≡ some c
  pub staying : c.draining ≡ false
  pub accepting : s.accepting ≡ true
  pub encodable : (encode response [] none).success ≡ true
  pub room : c.outbound_bytes + length (encode response [] none).output ≤ o.max_outbound_bytes

-- What `Finish` leaves: the request is completed, and its peer answered.
abbrev pub after_finish :
    (ℕ → ℕ) → RpcServer → ℕ → RequestState → ServerConnection → Frame → RpcServer
after_finish clock s address r c response =
    let t = mark_finished (has_expired r.deadline_ms (clock address)) address r s in
    record t {
      connections =
          put_entry r.connection (answered r.request_id (sent_bytes clock address r response) c)
            s.connections;
    }

pub finish-after_finish :
    (o : RpcServerOptions) (clock : ℕ → ℕ) (s : RpcServer) (address : ℕ) (r : RequestState)
    (c : ServerConnection) (response : Frame)
    → CanAnswer o s address r c (sent_response clock address r response)
    → finish o clock s address response ≡ after_finish clock s address r c response
unfolding finish finish_found mark_finished
finish-after_finish o clock s address r c response v =
    let t = mark_finished (has_expired r.deadline_ms (clock address)) address r s in
    let p =
      complete_request-answered o t r.connection r.request_id c
        (sent_response clock address r response) v.peer v.staying v.encodable v.room in
    rw (v.request, finish_found)
      (if_cases (λ u. u ≡ after_finish clock s address r c response) r.completed _ _
        (λ e. absurd (ground arith))
        (λ e. ap finish_drain p ∙ finish_drain-accepting _ v.accepting))

completed-get_elem? :
    (rs : List RequestState) (i : ℕ) (r q : RequestState)
    → get_elem? rs i ≡ some r
    → get_elem? (set rs i q) i ≡ some q
unfolding get_elem? set
completed-get_elem? [] i r q h = cc
completed-get_elem? (p ∷ rs) zero r q h = refl
completed-get_elem? (p ∷ rs) (suc i) r q h = completed-get_elem? rs i r q h

after_finish-finish :
    (o : RpcServerOptions) (clock : ℕ → ℕ) (s : RpcServer) (address : ℕ) (r : RequestState)
    (c : ServerConnection) (response : Frame) (clock' : ℕ → ℕ) (response' : Frame)
    → get_elem? s.states address ≡ some r
    → finish o clock' (after_finish clock s address r c response) address response'
      ≡ after_finish clock s address r c response
unfolding finish finish_found mark_finished
after_finish-finish o clock s address r c response clock' response' e =
    let d = record r {
      completed = true;
      cancelled = has_expired r.deadline_ms (clock address) || r.cancelled;
    } in
    rw (completed-get_elem? s.states address r d e, finish_found) refl

-- The deadline of a request has passed, where it has one.
abbrev pub is_overdue : ℕ → RequestState → Bool
is_overdue now r = not (r.deadline_ms == 2 ^ 64 - 1) && leb r.deadline_ms now

-- What the peer is to receive: the handler's status, metadata and body, or the bare status 3,
-- DEADLINE_EXCEEDED, as the response (the message type 2) to its own request.
abbrev pub due_answer : ℕ → RequestState → Frame → Frame
due_answer now r response =
    if is_overdue now r
    then record {
      header = record { flags = 3; message_type = 2; request_id = r.request_id };
      metadata = [];
      body = [];
    }
    else record {
      header = record {
        flags = response.header.flags;
        message_type = 2;
        request_id = r.request_id;
      };
      metadata = response.metadata;
      body = response.body;
    }

sent_response_lem :
    (clock : ℕ → ℕ) (address : ℕ) (r : RequestState) (response : Frame)
    → sent_response clock address r response ≡ due_answer (clock address) r response
unfolding final_response status_response
sent_response_lem clock address r response = ground arith

-- The server `t` after `s` has answered the request `r` of the connection `c` at the time `now`.
pub record Answered (now : ℕ) (s : RpcServer) (address : ℕ) (r : RequestState)
    (c : ServerConnection) (response : Frame) (t : RpcServer) : Type 0 where
  pub final : RequestState
  pub recorded : get_elem? t.states address ≡ some final
  pub is_completed : final.completed ≡ true
  pub one_less : t.inflight_count + 1 ≡ s.inflight_count
  pub peer_after : ServerConnection
  pub still_open : find_entry r.connection t.connections ≡ some peer_after
  pub answer_queued :
      peer_after.outbound ≡ c.outbound ++ (encode (due_answer now r response) [] none).output ∷ []
  pub forgotten : peer_after.requests ≡ erase_entry r.request_id c.requests
  pub others : (i : ℕ) → i ≢ r.connection → find_entry i t.connections ≡ find_entry i s.connections
  pub count_completed : t.metrics.requests_completed ≡ add64 s.metrics.requests_completed 1
  pub count_overdue : t.metrics.requests_timed_out ≡ (
      if is_overdue now r
      then add64 s.metrics.requests_timed_out 1
      else s.metrics.requests_timed_out)
  pub same_records : t.idempotency ≡ s.idempotency

module _ {A : Type 0} where
  find-put_entry-other :
      (i k : ℕ) (v : A) (m : List (ℕ × A)) → i ≢ k → find_entry i (put_entry k v m) ≡ find_entry i m
  unfolding find_entry put_entry
  find-put_entry-other i k v [] h = ground arith
  find-put_entry-other i k v ((j, u) ∷ m) h = ground (arith, find-put_entry-other i k v m h)

after_finish-Answered :
    (o : RpcServerOptions) (clock : ℕ → ℕ) (s : RpcServer) (address : ℕ) (r : RequestState)
    (c : ServerConnection) (response : Frame)
    → 0 < s.inflight_count
    → IsU64 s.inflight_count
    → get_elem? s.states address ≡ some r
    → find_entry r.connection s.connections ≡ some c
    → Answered (clock address) s address r c response (after_finish clock s address r c response)
unfolding mark_finished
after_finish-Answered o clock s address r c response some_open range e peer =
    let expired = has_expired r.deadline_ms (clock address) in
    let d : RequestState = record r { completed = true; cancelled = expired || r.cancelled } in
    let after = answered r.request_id (sent_bytes clock address r response) c in
    record {
      final = d;
      recorded = completed-get_elem? s.states address r d e;
      is_completed = refl;
      one_less = omega (arith, sub64_exact s.inflight_count 1 (omega arith) range);
      peer_after = after;
      still_open = find-put_entry r.connection c after s.connections peer;
      answer_queued =
          ap (λ f. c.outbound ++ (encode f [] none).output ∷ [])
            (sent_response_lem clock address r response);
      forgotten = refl;
      others = λ i ne. find-put_entry-other i r.connection after s.connections ne;
      count_completed = ground arith;
      count_overdue = ground arith;
      same_records = refl;
    }

-- `Finish` answers an open request exactly once, on a server that accepts and counts it, where the
-- connection does not drain and the answer can be encoded and fits its outbound limit. Then the
-- request is completed, one request less is in flight, and the answer is queued for its peer behind
-- what was queued before, under the request's own id: what the handler gives, or the bare status
-- DEADLINE_EXCEEDED where the deadline has passed. The connection forgets the request; other
-- connections and the idempotency records stay as they were. To finish it again, with whatever
-- response, has no effect.
pub finish_once :
    (o : RpcServerOptions) (clock : ℕ → ℕ) (s : RpcServer) (address : ℕ) (r : RequestState)
    (c : ServerConnection) (response : Frame)
    → 0 < s.inflight_count
    → IsU64 s.inflight_count
    → CanAnswer o s address r c (due_answer (clock address) r response)
    → Answered (clock address) s address r c response (finish o clock s address response)
      × ((clock' : ℕ → ℕ) (response' : Frame)
          → finish o clock' (finish o clock s address response) address response'
            ≡ finish o clock s address response)
finish_once o clock s address r c response some_open range v =
    let same = sent_response_lem clock address r response in
    let w = subst (λ f. CanAnswer o s address r c f) (sym same) v in
    let e = finish-after_finish o clock s address r c response w in
    let a = after_finish-Answered o clock s address r c response some_open range v.request v.peer in
    (
      subst (λ t. Answered (clock address) s address r c response t) (sym e) a,
      λ clock' response'.
          rw e (after_finish-finish o clock s address r c response clock' response' v.request),
    )
