-- ===== src/Transport/Connection/Closing.antt =====
-- How a connection completes its pending calls and closes: `CompletePending`, `CompleteAllPending`,
-- `MaybeFinishDrain`, `Close`, `FailConnection` and `BeginDrain`.
use coro_rpc.Protocol.Frame.{Frame, default_frame}
use coro_rpc.Transport.Status.{CallStatus}
use coro_rpc.Transport.Connection.{
  Connection, ConnectionState, PendingCall, Pending, caller, find, update, has_unfinished,
  wake_writer, count_completion, is_closing, is_down, is_ready,
}
use coro_rpc.Base.{
  if◌then◌else◌, add64, ℕ, zero, suc, Bool, true, false, not, ◌&&◌, none, some, List, [], ◌∷◌, ◌++◌,
  Option, ◌==◌,
}

-- Whether `CompletePending` throws: `Resume` throws a `logic_error` for a coroutine that is running, and
-- `running` is the coroutine of a call that runs while its connection completes calls, if there is
-- one. A call that waits in `Yield` or `YieldFor` is resumed without an exception; where its time is
-- just over and its coroutine queued to run, `Resume` leaves it to that.
abbrev pub throws : Option ℕ → Option PendingCall → Bool
throws none found = false
throws (some running) none = false
throws (some running) (some p) = not p.completed && (p.coroutine == running)

-- `CompletePending`, where `drain` is `MaybeFinishDrain`, up to its end or to the exception of
-- `Resume`: then the call is completed, and its coroutine is not resumed.
unfoldable pub complete_pending :
    (Connection → Connection)
    → Option ℕ
    → Connection
    → ℕ
    → PendingCall
    → CallStatus
    → Frame
    → Connection
complete_pending drain running c id p status response =
    let done = record p { completed = true; status = status; response = response } in
    let drained = drain (record c {
      pending_calls = update id done c.pending_calls;
      metrics = count_completion status c.metrics;
    }) in
    if p.completed
    then c
    else (if throws running (some p)
        then drained
        else record drained { resumed = drained.resumed ++ caller p.coroutine ∷ [] })

unfoldable pub unfinished_ids : Pending → List ℕ
unfinished_ids [] = []
unfinished_ids ((j, p) ∷ m) = if p.completed then unfinished_ids m else j ∷ unfinished_ids m

-- A round of the second loop of `CompleteAllPending`, with what `find` has given.
unfoldable pub complete_found :
    (Connection → Connection)
    → Option ℕ
    → CallStatus
    → Connection
    → ℕ
    → Option PendingCall
    → Connection
complete_found drain running status c id none = c
complete_found drain running status c id (some p) =
    if p.completed then c else complete_pending drain running c id p status default_frame

-- The second loop of `CompleteAllPending`, which an exception of `Resume` ends: the result says
-- whether one was thrown.
unfoldable pub complete_each :
    (Connection → Connection) → Option ℕ → CallStatus → List ℕ → Connection → Connection × Bool
complete_each drain running status [] c = (c, false)
complete_each drain running status (id ∷ ids) c =
    let found = find id c.pending_calls in
    let next = complete_found drain running status c id found in
    let rest = complete_each drain running status ids next in
    if throws running found then (next, true) else rest

unfoldable pub complete_all :
    (Connection → Connection) → Option ℕ → Connection → CallStatus → Connection × Bool
complete_all drain running c status =
    complete_each drain running status (unfinished_ids c.pending_calls) c

-- `Close`. No coroutine of a call that waits runs it: such a coroutine runs in `WakeWriter` only, and
-- the writer closes the connection only where no call waits. So no `Resume` throws.
unfoldable pub close_with : (Connection → Connection) → Connection → Connection
close_with drain c =
    let cleared = record c {
      state = ConnectionState.closing;
      fd = none;
      outbound = [];
      outbound_bytes = 0;
    } in
    let (completed, thrown) = complete_all drain none cleared CallStatus.connection_closed in
    if is_down c.state then c else wake_writer (record completed { state = ConnectionState.closed })

abbrev pub is_empty {ℓ} : {A : Type ℓ} → List A → Bool
is_empty [] = true
is_empty (x ∷ xs) = false

abbrev pub drain_is_over : Connection → Bool
drain_is_over c =
    is_closing c.state && (is_empty c.outbound && not (has_unfinished c.pending_calls))

-- `MaybeFinishDrain`, on fuel for the calls of itself that its `Close` makes.
unfoldable pub drain_loop : ℕ → Connection → Connection
drain_loop zero c = c
drain_loop (suc fuel) c =
    let finished = close_with (drain_loop fuel) c in if drain_is_over c then finished else c

-- No call is left unfinished where it closes, so nothing calls it again: one round is enough.
unfoldable pub maybe_finish_drain : Connection → Connection
maybe_finish_drain c = drain_loop 1 c

unfoldable pub close : Connection → Connection
close c = close_with maybe_finish_drain c

-- `FailConnection`, which an exception of `Resume` leaves before the writer is woken. The coroutine
-- `running` is that of a call that is still in its `WakeWriter`, where the writer fails at once.
unfoldable pub fail_connection_in : Option ℕ → Connection → CallStatus → Connection
fail_connection_in running c status =
    let cleared = record c {
      fd = none;
      outbound = [];
      outbound_bytes = 0;
      metrics = record c.metrics { connection_failures = add64 c.metrics.connection_failures 1 };
      state = ConnectionState.closed;
    } in
    let (completed, thrown) = complete_all maybe_finish_drain running cleared status in
    if is_down c.state then c else (if thrown then completed else wake_writer completed)

-- `FailConnection` where no call is running: its coroutines wait.
unfoldable pub fail_connection : Connection → CallStatus → Connection
fail_connection c status = fail_connection_in none c status

unfoldable pub begin_drain : Connection → Connection
begin_drain c =
    if is_ready c.state
    then maybe_finish_drain (wake_writer (record c { state = ConnectionState.closing }))
    else c
