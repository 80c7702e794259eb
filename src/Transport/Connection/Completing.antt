-- ===== src/Transport/Connection/Completing.antt =====
-- What completing pending calls keeps of a connection.
use mathlib.Core.Path.{subst}
use coro_rpc.Base.{
  if◌then◌else◌, Bool-cases, ℕ, ◌≡◌, refl, sym, ap, inl, inr, true, Option, none, some, List, [],
  ◌∷◌, arith, if_cases, Bool,
}
use coro_rpc.Transport.Connection.Closing.{
  complete_all, complete_each, complete_found, complete_pending, maybe_finish_drain, unfinished_ids,
  throws,
}
use coro_rpc.Transport.Connection.{
  Connection, wake_writer, PendingCall, CallStatus, ConnectionState, Frame, update, find,
  count_completion,
}
use coro_rpc.Protocol.Frame.{default_frame}
use coro_rpc.Transport.Connection.Valid.{
  Kept, shut, maybe_finish_drain_lem, length-update, update-Distinct, maybe_finish_drain-Kept,
}

pub complete_pending-Kept :
    (running : Option ℕ) (c : Connection) (id : ℕ) (p : PendingCall) (status : CallStatus)
    (response : Frame)
    → Kept c
    → Kept (complete_pending maybe_finish_drain running c id p status response)
unfolding complete_pending
complete_pending-Kept running c id p status response v =
    let done = record p { completed = true; status = status; response = response } in
    let e : Connection = record c {
      pending_calls = update id done c.pending_calls;
      metrics = count_completion status c.metrics;
    } in
    let k : Kept e = record {
      limit_range = v.limit_range;
      counted = v.counted;
      bytes_in = v.bytes_in;
      calls_in = omega (arith, v.calls_in, length-update id done c.pending_calls);
      distinct = update-Distinct id done c.pending_calls v.distinct;
      released = v.released;
    } in
    let d = maybe_finish_drain-Kept e k in ground arith

-- What completing one call keeps, completing all of them keeps.
complete_found_keeps :
    (P : Connection → Type 0) (running : Option ℕ) (status : CallStatus)
    → ((c : Connection) (id : ℕ) (p : PendingCall)
        → P c
        → P (complete_pending maybe_finish_drain running c id p status default_frame))
    → (c : Connection) (id : ℕ) (found : Option PendingCall) → P c
    → P (complete_found maybe_finish_drain running status c id found)
unfolding complete_found
complete_found_keeps P running status keep c id none v = v
complete_found_keeps P running status keep c id (some p) v = elim (Bool-cases p.completed) [
  | inl h ↦
      subst P
        (sym (
          ap
            (λ b.
              if b
              then c
              else complete_pending maybe_finish_drain running c id p status default_frame)
            h))
        v
  | inr h ↦
      subst P
        (sym (
          ap
            (λ b.
              if b
              then c
              else complete_pending maybe_finish_drain running c id p status default_frame)
            h))
        (keep c id p v)
]

pub complete_each_keeps :
    (P : Connection → Type 0) (running : Option ℕ) (status : CallStatus)
    → ((c : Connection) (id : ℕ) (p : PendingCall)
        → P c
        → P (complete_pending maybe_finish_drain running c id p status default_frame))
    → (ids : List ℕ) (c : Connection) → P c
    → P (complete_each maybe_finish_drain running status ids c).0
unfolding complete_each
complete_each_keeps P running status keep [] c v = v
complete_each_keeps P running status keep (id ∷ ids) c v =
    let found = find id c.pending_calls in
    let next = complete_found maybe_finish_drain running status c id found in
    let one = complete_found_keeps P running status keep c id found v in
    if_cases (λ (out : Connection × Bool). P out.0) (throws running found) _ _ (λ e. one)
      (λ e. complete_each_keeps P running status keep ids next one)

pub complete_all-Kept :
    (running : Option ℕ) (c : Connection) (status : CallStatus)
    → Kept c
    → Kept (complete_all maybe_finish_drain running c status).0
unfolding complete_all
complete_all-Kept running c status v =
    complete_each_keeps Kept running status
      (λ d id p k. complete_pending-Kept running d id p status default_frame k)
      (unfinished_ids c.pending_calls) c v

-- Nothing is held any more.
pub record Bare (c : Connection) : Type 0 where
  pub no_fd : c.fd ≡ none
  pub no_frames : c.outbound ≡ []
  pub no_bytes : c.outbound_bytes ≡ 0

pub wake_writer-Bare : (c : Connection) → Bare c → Bare (wake_writer c)
unfolding wake_writer
wake_writer-Bare c v = ground arith

maybe_finish_drain-Bare : (c : Connection) → Bare c → Bare (maybe_finish_drain c)
maybe_finish_drain-Bare c v =
    let w =
      wake_writer-Bare (shut c) (record { no_fd = refl; no_frames = refl; no_bytes = refl }) in
    rw (maybe_finish_drain_lem c) (ground arith)

complete_pending-Bare :
    (running : Option ℕ) (c : Connection) (id : ℕ) (p : PendingCall) (status : CallStatus)
    (response : Frame)
    → Bare c
    → Bare (complete_pending maybe_finish_drain running c id p status response)
unfolding complete_pending
complete_pending-Bare running c id p status response v =
    let done = record p { completed = true; status = status; response = response } in
    let e : Connection = record c {
      pending_calls = update id done c.pending_calls;
      metrics = count_completion status c.metrics;
    } in
    let b : Bare e = record { no_fd = v.no_fd; no_frames = v.no_frames; no_bytes = v.no_bytes } in
    let d = maybe_finish_drain-Bare e b in ground arith

pub complete_all-Bare :
    (running : Option ℕ) (c : Connection) (status : CallStatus)
    → Bare c
    → Bare (complete_all maybe_finish_drain running c status).0
unfolding complete_all
complete_all-Bare running c status v =
    complete_each_keeps Bare running status
      (λ d id p b. complete_pending-Bare running d id p status default_frame b)
      (unfinished_ids c.pending_calls) c v

-- A closed connection stays closed while its calls are completed.
abbrev pub IsClosed : Connection → Type 0
IsClosed c = c.state ≡ ConnectionState.closed

pub maybe_finish_drain-IsClosed : (c : Connection) → IsClosed c → maybe_finish_drain c ≡ c
maybe_finish_drain-IsClosed c h = rw (maybe_finish_drain_lem c) (ground arith)

pub complete_pending-IsClosed :
    (running : Option ℕ) (c : Connection) (id : ℕ) (p : PendingCall) (status : CallStatus)
    (response : Frame)
    → IsClosed c
    → IsClosed (complete_pending maybe_finish_drain running c id p status response)
unfolding complete_pending
complete_pending-IsClosed running c id p status response h =
    let done = record p { completed = true; status = status; response = response } in
    let e : Connection = record c {
      pending_calls = update id done c.pending_calls;
      metrics = count_completion status c.metrics;
    } in
    let s = ap (λ (d : Connection). d.state) (maybe_finish_drain-IsClosed e h) in ground arith

pub complete_all-IsClosed :
    (running : Option ℕ) (c : Connection) (status : CallStatus)
    → IsClosed c
    → IsClosed (complete_all maybe_finish_drain running c status).0
unfolding complete_all
complete_all-IsClosed running c status h =
    complete_each_keeps IsClosed running status
      (λ d id p k. complete_pending-IsClosed running d id p status default_frame k)
      (unfinished_ids c.pending_calls) c h
