-- ===== src/Transport/Connection.antt =====
-- `MultiplexedConnection` of rpc_src/transport/multiplexed_connection.cpp. Every operation is called on
-- the connection's owner thread, so `CheckOwnerThread` is true. `Resume` switches to another coroutine
-- at once; here the call is noted in `resumed`, and what that coroutine does is a later operation. The
-- pools of buffers and of pending calls save allocations only, and are left out.
pub mod Closing
pub mod Calls
pub mod Reader
pub mod Writer
pub mod Opening
pub mod Valid
pub mod Settle
pub mod Completing
pub mod Ends
pub mod Invariant
pub mod History
pub mod Progress
pub mod Batches
pub mod Answers
pub mod Starts
pub mod Drains
mod Tests
use coro_rpc.Protocol.Wire.{Bytes}
use coro_rpc.Protocol.Frame.{Frame}
use coro_rpc.Protocol.Decoder.{Decoder, default_limits}
use coro_rpc.Protocol.Decoder
use coro_rpc.Transport.Status.{CallStatus}
use coro_rpc.Base.{
  ◌==◌, if◌then◌else◌, add64, ℕ, ◌*◌, Bool, true, false, not, ◌||◌, Option, none, some, List, [],
  ◌∷◌, ◌++◌,
}

pub data ConnectionState : Type 0 where
  disconnected connecting ready closing closed : ConnectionState

abbrev pub is_ready : ConnectionState → Bool
is_ready ConnectionState.ready = true
is_ready _ = false

abbrev pub is_closing : ConnectionState → Bool
is_closing ConnectionState.closing = true
is_closing _ = false

-- The connection is closed, or was never opened.
abbrev pub is_down : ConnectionState → Bool
is_down ConnectionState.closed = true
is_down ConnectionState.disconnected = true
is_down _ = false

pub record ConnectionLimits : Type 0 where
  pub max_pending_calls : ℕ
  pub max_outbound_bytes : ℕ

abbrev pub default_connection_limits : ConnectionLimits
default_connection_limits = record {
  max_pending_calls = 4096;
  max_outbound_bytes = 16 * 1024 * 1024;
}

pub record ConnectionMetrics : Type 0 where
  pub calls_started : ℕ
  pub calls_completed : ℕ
  pub calls_timed_out : ℕ
  pub calls_rejected : ℕ
  pub late_responses : ℕ
  pub connection_failures : ℕ

-- `request_id` is the key under which a pending call is kept.
pub record PendingCall : Type 0 where
  pub coroutine : ℕ
  pub status : CallStatus
  pub response : Frame
  pub completed : Bool
  pub sent : Bool

pub record OutboundFrame : Type 0 where
  pub request_id : ℕ
  pub bytes : Bytes
  pub control : Bool

-- The coroutines that the connection resumes: those of callers, and its writer.
pub data Resumed : Type 0 where
  caller : ℕ → Resumed
  writer : Resumed

abbrev pub Pending : Type 0
Pending = List (ℕ × PendingCall)

-- `writer_waits`: the writer is in `Yield`. `pending_calls` stands in the hash table's order.
pub record Connection : Type 0 where
  pub state : ConnectionState
  pub fd : Option ℕ
  pub next_request_id : ℕ
  pub decoder : Decoder
  pub writer_waits : Bool
  pub pending_calls : Pending
  pub outbound : List OutboundFrame
  pub limits : ConnectionLimits
  pub metrics : ConnectionMetrics
  pub outbound_bytes : ℕ
  pub resumed : List Resumed

-- The constructor, which throws where a limit is zero.
unfoldable pub create : ConnectionLimits → Option Connection
create limits =
    if limits.max_pending_calls == 0 || limits.max_outbound_bytes == 0
    then none
    else some (record {
      state = ConnectionState.disconnected;
      fd = none;
      next_request_id = 1;
      decoder = Decoder.init default_limits;
      writer_waits = false;
      pending_calls = [];
      outbound = [];
      limits = limits;
      metrics = record {
        calls_started = 0;
        calls_completed = 0;
        calls_timed_out = 0;
        calls_rejected = 0;
        late_responses = 0;
        connection_failures = 0;
      };
      outbound_bytes = 0;
      resumed = [];
    })

-- The operations of `std::unordered_map` that the code uses.
unfoldable pub find : ℕ → Pending → Option PendingCall
find id [] = none
find id ((j, p) ∷ m) = if id == j then some p else find id m

-- A write through the pointer that `find` has given.
unfoldable pub update : ℕ → PendingCall → Pending → Pending
update id q [] = []
update id q ((j, p) ∷ m) = if id == j then (j, q) ∷ m else (j, p) ∷ update id q m

unfoldable pub erase : ℕ → Pending → Pending
erase id [] = []
erase id ((j, p) ∷ m) = if id == j then m else (j, p) ∷ erase id m

-- `NextRequestId`: the id, and the connection behind the call.
unfoldable pub next_request_id : Connection → Connection × ℕ
next_request_id c =
    let next = add64 c.next_request_id 1 in
    (record c { next_request_id = if next == 0 then 1 else next }, c.next_request_id)

unfoldable pub has_unfinished : Pending → Bool
has_unfinished [] = false
has_unfinished ((j, p) ∷ m) = not p.completed || has_unfinished m

unfoldable pub wake_writer : Connection → Connection
wake_writer c =
    if c.writer_waits
    then record c { writer_waits = false; resumed = c.resumed ++ writer ∷ [] }
    else c

-- The counters that `CompletePending` advances.
abbrev pub count_completion : CallStatus → ConnectionMetrics → ConnectionMetrics
count_completion CallStatus.timeout m = record m { calls_timed_out = add64 m.calls_timed_out 1 }
count_completion CallStatus.ok m = record m { calls_completed = add64 m.calls_completed 1 }
count_completion _ m = m
