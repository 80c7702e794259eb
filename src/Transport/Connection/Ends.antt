-- ===== src/Transport/Connection/Ends.antt =====
-- The ways in which a connection ends: `Close`, `FailConnection` and a finished drain.
use coro_rpc.Transport.Status.{CallStatus}
use coro_rpc.Transport.Connection.{Connection, ConnectionState, is_down, wake_writer}
use coro_rpc.Base.{add64, ◌≡◌, refl, ◌∙◌, false, none, [], ◌++◌, true}
use coro_rpc.Transport.Connection.Completing.{
  Bare, wake_writer-Bare, complete_all-Bare, complete_all-IsClosed,
}
use coro_rpc.Transport.Connection.Closing.{
  fail_connection, close, close_with, complete_all, maybe_finish_drain, fail_connection_in,
}
use coro_rpc.Transport.Connection.Valid.{
  ConnectionValid, state-wake_writer, pending_calls-wake_writer,
}
use coro_rpc.Transport.Connection.Settle.{
  settle, callers-wake_writer, callers, complete_all_lem, waiting_callers, complete_all_calm,
}

-- The connection `d` after `c` has ended: closed, with nothing held, every waiting call completed
-- with `status` and each of their coroutines resumed once.
pub record Ended (c : Connection) (status : CallStatus) (d : Connection) : Type 0 where
  pub is_closed : d.state ≡ ConnectionState.closed
  pub bare : Bare d
  pub calls : d.pending_calls ≡ settle status c.pending_calls
  pub woken_callers : callers d.resumed ≡ callers c.resumed ++ waiting_callers c.pending_calls

wake_writer-Ended :
    (c : Connection) (status : CallStatus) (d : Connection)
    → Ended c status d
    → Ended c status (wake_writer d)
wake_writer-Ended c status d e =
    let k = callers-wake_writer d in
    record {
      is_closed = state-wake_writer d ∙ e.is_closed;
      bare = wake_writer-Bare d e.bare;
      calls = pending_calls-wake_writer d ∙ e.calls;
      woken_callers = k ∙ e.woken_callers;
    }

-- `Close` ends a connection that is open: its descriptor and its queue are released, each call that
-- waits is completed as CONNECTION_CLOSED without a response and its coroutine resumed exactly once,
-- and completed calls keep their results.
pub close-Ended :
    (c : Connection)
    → ConnectionValid c
    → is_down c.state ≡ false
    → Ended c CallStatus.connection_closed (close c)
unfolding close close_with
close-Ended c v open_ =
    let cleared : Connection = record c {
      state = ConnectionState.closing;
      fd = none;
      outbound = [];
      outbound_bytes = 0;
    } in
    let completed = (complete_all maybe_finish_drain none cleared CallStatus.connection_closed).0 in
    let both = complete_all_lem cleared CallStatus.connection_closed v.kept.distinct in
    let bare =
      complete_all-Bare none cleared CallStatus.connection_closed
        (record { no_fd = refl; no_frames = refl; no_bytes = refl }) in
    rw open_ (
      wake_writer-Ended c CallStatus.connection_closed
        (record completed { state = ConnectionState.closed })
        (record {
          is_closed = refl;
          bare = record {
            no_fd = bare.no_fd;
            no_frames = bare.no_frames;
            no_bytes = bare.no_bytes;
          };
          calls = both.0;
          woken_callers = both.1;
        }))

-- Where no call is running, so that no `Resume` throws, `FailConnection` ends a connection that is open
-- in the same way, with the status of the failure.
pub fail_connection-Ended :
    (c : Connection) (status : CallStatus)
    → ConnectionValid c
    → is_down c.state ≡ false
    → Ended c status (fail_connection c status)
unfolding fail_connection fail_connection_in
fail_connection-Ended c status v open_ =
    let cleared : Connection = record c {
      fd = none;
      outbound = [];
      outbound_bytes = 0;
      metrics = record c.metrics { connection_failures = add64 c.metrics.connection_failures 1 };
      state = ConnectionState.closed;
    } in
    let both = complete_all_lem cleared status v.kept.distinct in
    let bare =
      complete_all-Bare none cleared status
        (record { no_fd = refl; no_frames = refl; no_bytes = refl }) in
    let ended =
      wake_writer-Ended c status (complete_all maybe_finish_drain none cleared status).0 (record {
        is_closed = complete_all-IsClosed none cleared status refl;
        bare = bare;
        calls = both.0;
        woken_callers = both.1;
      }) in
    rw open_ (rw (complete_all_calm cleared status) ended)

-- A connection that is down stays as it is.
pub close_down : (c : Connection) → is_down c.state ≡ true → close c ≡ c
unfolding close close_with
close_down c h = rw h refl

pub fail_connection_down :
    (c : Connection) (status : CallStatus) → is_down c.state ≡ true → fail_connection c status ≡ c
unfolding fail_connection fail_connection_in
fail_connection_down c status h = rw h refl
