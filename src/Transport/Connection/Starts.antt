-- ===== src/Transport/Connection/Starts.antt =====
-- What a call that waits has done to its connection.
use mathlib.Core.Path.{subst}
use coro_rpc.Protocol.Wire.{Bytes}
use coro_rpc.Protocol.Frame.{Frame, Encoded}
use coro_rpc.Transport.Connection.{Connection, find, wake_writer, next_request_id, is_ready}
use coro_rpc.Base.{
  length, ◌==◌, if◌then◌else◌, Option-cases, ℕ, ◌<◌, ◌≡◌, inl, inr, true, false, none, some, [],
  ◌∷◌, ◌++◌, arith, sym, ap, ◌∙◌, ◌≢◌, ◌⊎◌,
}
use coro_rpc.Transport.Connection.Calls.{call, call_encoded, send_encoded, new_pending, waiting}
use coro_rpc.Protocol.Encoder.{encode}

-- `d` is `c` with one more call, kept under an id that was free, and with its request at the end of the
-- queue.
pub record Started (c : Connection) (current id : ℕ) (bytes : Bytes) (d : Connection) : Type 0 where
  pub fresh : find id c.pending_calls ≡ none
  pub kept : d.pending_calls ≡ (id, new_pending current) ∷ c.pending_calls
  pub queued :
      d.outbound ≡ c.outbound ++ record { request_id = id; bytes = bytes; control = false } ∷ []
  pub same_state : d.state ≡ c.state

call_encoded-Started :
    (c : Connection) (current id : ℕ) (bytes : Bytes) (d : Connection) (k : ℕ)
    → call_encoded c current id bytes ≡ (d, waiting k)
    → (k ≡ id) × Started c current id bytes d
unfolding call_encoded wake_writer
call_encoded-Started c current id bytes d k h = elim (Option-cases (find id c.pending_calls)) [
  | inl n ↦ ground arith
  | inr (p, e) ↦ absurd (ground arith)
]

send_encoded-Started :
    (c : Connection) (current id : ℕ) (e : Encoded) (d : Connection) (k : ℕ)
    → send_encoded c current id e ≡ (d, waiting k)
    → (e.success ≡ true) × ((k ≡ id) × Started c current id e.output d)
unfolding send_encoded
send_encoded-Started c current id e d k h =
    let s = call_encoded-Started c current id e.output d k in ground arith

-- `request` with the request id `id`.
abbrev pub numbered : Frame → ℕ → Frame
numbered request id = record request { header = record request.header { request_id = id } }

-- Which guards a call that waits has passed.
call_inverts :
    (c : Connection) (current : ℕ) (request : Frame) (timeout_ms : ℕ) (d : Connection) (id : ℕ)
    → call c (some current) request timeout_ms ≡ (d, waiting id)
    → ((is_ready c.state ≡ true) × (length c.pending_calls < c.limits.max_pending_calls))
      × (((request.header.request_id ≡ 0)
            × (send_encoded
                  (next_request_id c).0
                  current
                  (next_request_id c).1
                  (encode (numbered request (next_request_id c).1) [] none)
                ≡ (d, waiting id)))
          ⊎ ((request.header.request_id ≢ 0)
              × (send_encoded c current request.header.request_id (encode request [] none)
                  ≡ (d, waiting id))))
unfolding call
call_inverts c current request timeout_ms d id h = ground arith

next_request_id_lem :
    (c : Connection)
    → ((next_request_id c).1 ≡ c.next_request_id)
      × (((next_request_id c).0.state ≡ c.state)
          × (((next_request_id c).0.outbound ≡ c.outbound)
              × ((next_request_id c).0.pending_calls ≡ c.pending_calls)))
unfolding next_request_id
next_request_id_lem c = ground arith

next-Started :
    (c : Connection) (current id : ℕ) (bytes : Bytes) (d : Connection)
    → Started (next_request_id c).0 current id bytes d
    → Started c current id bytes d
next-Started c current id bytes d s =
    let n = next_request_id_lem c in
    record {
      fresh = ap (find id) (sym n.1.1.1) ∙ s.fresh;
      kept = s.kept ∙ ap (λ m. (id, new_pending current) ∷ m) n.1.1.1;
      queued =
          s.queued
          ∙ ap (λ q. q ++ record { request_id = id; bytes = bytes; control = false } ∷ []) n.1.1.0;
      same_state = s.same_state ∙ n.1.0;
    }

-- A call of a frame that waits has found the connection ready and its calls below their limit. It
-- waits under the frame's id, or the connection's next one where the frame has none; the id was free,
-- and the frame with this id is encoded at the end of the queue.
pub call-Started :
    (c : Connection) (current : ℕ) (request : Frame) (timeout_ms : ℕ) (d : Connection) (id : ℕ)
    → call c (some current) request timeout_ms ≡ (d, waiting id)
    → ((is_ready c.state ≡ true) × (length c.pending_calls < c.limits.max_pending_calls))
      × ((id ≡ (
            if request.header.request_id == 0
            then c.next_request_id
            else request.header.request_id))
          × (((encode (numbered request id) [] none).success ≡ true)
              × Started c current id (encode (numbered request id) [] none).output d))
call-Started c current request timeout_ms d id h =
    let g = call_inverts c current request timeout_ms d id h in
    let n = (next_request_id_lem c).0 in
    elim g.1 [
      | inl (z, e) ↦
          let fresh = (next_request_id c).1 in
          let s =
            send_encoded-Started (next_request_id c).0 current fresh
              (encode (numbered request fresh) [] none) d id e in
          let same : fresh ≡ id = sym s.1.0 in
          let encodes : (x : ℕ) → Type 0 = λ x.
            ((encode (numbered request x) [] none).success ≡ true)
            × Started c current x (encode (numbered request x) [] none).output d in
          (
            g.0,
            (
              ground arith,
              subst encodes same (
                s.0,
                next-Started c current fresh (encode (numbered request fresh) [] none).output d
                    s.1.1,
              ),
            ),
          )
      | inr (z, e) ↦
          let own = request.header.request_id in
          let s = send_encoded-Started c current own (encode request [] none) d id e in
          let same : own ≡ id = sym s.1.0 in
          let encodes : (x : ℕ) → Type 0 = λ x.
            ((encode (numbered request x) [] none).success ≡ true)
            × Started c current x (encode (numbered request x) [] none).output d in
          (g.0, (ground arith, subst encodes same (s.0, s.1.1)))
    ]
