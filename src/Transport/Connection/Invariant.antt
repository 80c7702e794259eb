-- ===== src/Transport/Connection/Invariant.antt =====
-- Every operation of a connection keeps its invariant.
pub mod Broken
pub mod Calls
pub mod Loops
use mathlib.Core.Path.{subst}
use coro_rpc.Transport.Status.{CallStatus}
use coro_rpc.Transport.Connection.{
  Connection, ConnectionState, is_down, has_unfinished, wake_writer, is_ready,
}
use coro_rpc.Base.{
  Bool-cases, add64, refl, sym, ap, ◌∙◌, inl, inr, arith, if_cases, ℕ, Option, none,
}
use coro_rpc.Transport.Connection.Closing.{
  begin_drain, close, fail_connection, close_with, complete_all, maybe_finish_drain,
  fail_connection_in,
}
use coro_rpc.Transport.Connection.Valid.{
  ConnectionValid, Kept, shut, maybe_finish_drain-ConnectionValid, wake_writer-Kept,
  wake_writer-ConnectionValid,
}
use coro_rpc.Transport.Connection.Ends.{
  fail_connection_down, Ended, close_down, close-Ended, fail_connection-Ended,
}
use coro_rpc.Transport.Connection.Settle.{has_unfinished-settle}
use coro_rpc.Transport.Connection.Completing.{complete_all-Kept, complete_all-Bare}

-- A connection that has ended is valid.
Ended-ConnectionValid :
    (c : Connection) (status : CallStatus) (d : Connection)
    → Kept d
    → Ended c status d
    → ConnectionValid d
Ended-ConnectionValid c status d k e =
    let settled = has_unfinished-settle status c.pending_calls in
    let same = ap has_unfinished e.calls in record { kept = k; settled = inr (same ∙ settled) }

closing-Kept :
    (c : Connection) → Kept c → Kept (record (shut c) { state = ConnectionState.closing })
closing-Kept c v = ground arith

close-Kept : (c : Connection) → Kept c → Kept (close c)
unfolding close close_with
close-Kept c v =
    let cleared : Connection = record (shut c) { state = ConnectionState.closing } in
    let d = (complete_all maybe_finish_drain none cleared CallStatus.connection_closed).0 in
    let k = complete_all-Kept none cleared CallStatus.connection_closed (closing-Kept c v) in
    let b =
      complete_all-Bare none cleared CallStatus.connection_closed
        (record { no_fd = refl; no_frames = refl; no_bytes = refl }) in
    let s : Kept (record d { state = ConnectionState.closed }) = record {
      limit_range = k.limit_range;
      counted = k.counted;
      bytes_in = k.bytes_in;
      calls_in = k.calls_in;
      distinct = k.distinct;
      released = inr (b.no_fd, b.no_frames);
    } in
    let w = wake_writer-Kept (record d { state = ConnectionState.closed }) s in
    elim (Bool-cases (is_down c.state)) [ inl h ↦ rw h v | inr h ↦ rw h w ]

pub close-ConnectionValid : (c : Connection) → ConnectionValid c → ConnectionValid (close c)
close-ConnectionValid c v = elim (Bool-cases (is_down c.state)) [
  | inl h ↦ subst ConnectionValid (sym (close_down c h)) v
  | inr h ↦
      Ended-ConnectionValid c CallStatus.connection_closed (close c) (close-Kept c v.kept)
        (close-Ended c v h)
]

pub fail_connection_in-Kept :
    (running : Option ℕ) (c : Connection) (status : CallStatus)
    → Kept c
    → Kept (fail_connection_in running c status)
unfolding fail_connection_in
fail_connection_in-Kept running c status v =
    let cleared : Connection = record (shut c) {
      metrics = record c.metrics { connection_failures = add64 c.metrics.connection_failures 1 };
    } in
    let start : Kept cleared = record {
      limit_range = v.limit_range;
      counted = refl;
      bytes_in = omega arith;
      calls_in = v.calls_in;
      distinct = v.distinct;
      released = inr (refl, refl);
    } in
    let out = complete_all maybe_finish_drain running cleared status in
    let k = complete_all-Kept running cleared status start in
    let w = wake_writer-Kept out.0 k in
    if_cases Kept (is_down c.state) _ _ (λ h. v) (λ h. if_cases Kept out.1 _ _ (λ e. k) (λ e. w))

pub fail_connection-ConnectionValid :
    (c : Connection) (status : CallStatus)
    → ConnectionValid c
    → ConnectionValid (fail_connection c status)
unfolding fail_connection
fail_connection-ConnectionValid c status v = elim (Bool-cases (is_down c.state)) [
  | inl h ↦ subst ConnectionValid (sym (fail_connection_down c status h)) v
  | inr h ↦
      Ended-ConnectionValid c status (fail_connection c status)
        (fail_connection_in-Kept none c status v.kept) (fail_connection-Ended c status v h)
]

pub begin_drain-ConnectionValid :
    (c : Connection) → ConnectionValid c → ConnectionValid (begin_drain c)
unfolding begin_drain
begin_drain-ConnectionValid c v =
    let draining : Connection = record c { state = ConnectionState.closing } in
    let k = v.kept in
    let d : ConnectionValid draining = record {
      kept = record {
        limit_range = k.limit_range;
        counted = k.counted;
        bytes_in = k.bytes_in;
        calls_in = k.calls_in;
        distinct = k.distinct;
        released = inl refl;
      };
      settled = inl refl;
    } in
    let w =
      maybe_finish_drain-ConnectionValid (wake_writer draining)
        (wake_writer-ConnectionValid draining d) in
    elim (Bool-cases (is_ready c.state)) [ inl h ↦ rw h w | inr h ↦ rw h v ]
