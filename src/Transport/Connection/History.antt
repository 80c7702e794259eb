-- ===== src/Transport/Connection/History.antt =====
-- The connections that any sequence of operations leads to.
use mathlib.Core.Path.{subst}
use coro_rpc.Protocol.Wire.{Bytes}
use coro_rpc.Protocol.Frame.{Frame}
use coro_rpc.Protocol.Metadata.{RequestMetadata}
use coro_rpc.Transport.Status.{CallResult, CallStatus}
use coro_rpc.Transport.Connection.{
  Connection, ConnectionLimits, ConnectionState, create, CallStatus, is_down,
}
use coro_rpc.Base.{
  Option-cases, IsU64, ℕ, ◌≡◌, refl, sym, inl, inr, Bool, true, Option, none, some, arith, ◌⊎◌,
  false,
}
use coro_rpc.Transport.Connection.Writer.{writer_turn, run_writer, Writing, written}
use coro_rpc.Transport.Connection.Opening.{start_fibers, connect, attach, is_disconnected}
use coro_rpc.Transport.Connection.Valid.{ConnectionValid, create-ConnectionValid}
use coro_rpc.Transport.Connection.Invariant.Calls.{
  call-ConnectionValid, call_metadata-ConnectionValid, finish_call-ConnectionValid,
}
use coro_rpc.Transport.Connection.Calls.{call, call_metadata, finish_call}
use coro_rpc.Transport.Connection.Reader.{start_read, received}
use coro_rpc.Transport.Connection.Invariant.Loops.{
  start_read-ConnectionValid, received-ConnectionValid, run_writer-ConnectionValid,
  written-ConnectionValid,
}
use coro_rpc.Transport.Connection.Invariant.{close-ConnectionValid, begin_drain-ConnectionValid}
use coro_rpc.Transport.Connection.Closing.{begin_drain, close, fail_connection_in}
use coro_rpc.Transport.Connection.Invariant.Broken.{
  Broken, attach-Broken, fail_connection_in-Broken, connect-Broken, call-Broken,
  call_metadata-Broken, finish_call-Broken, received-Broken, written-Broken, writer_turn-Broken,
  begin_drain-Broken, close-Broken,
}

-- The operations, with whatever their callers, the peer and the system give them. `Leads` is a step
-- from one connection to the next.
pub data Leads (c d : Connection) : Type 0 where
  attached :
      (fd : Option ℕ) (configured created done : Bool)
      → attach c fd configured created ≡ some (d, done)
      → Leads c d
  connected :
      (has_address : Bool) (fd : Option ℕ) (configured success created done : Bool)
      → connect c has_address fd configured success created ≡ some (d, done)
      → Leads c d
  called :
      (current : Option ℕ) (request : Frame) (timeout_ms : ℕ)
      → d ≡ (call c current request timeout_ms).0
      → Leads c d
  called_with :
      (current : Option ℕ) (metadata : RequestMetadata) (body : Bytes) (timeout_ms : ℕ)
      → d ≡ (call_metadata c current metadata body timeout_ms).0
      → Leads c d
  call_finished : (id : ℕ) (r : CallResult) → finish_call c id ≡ some (d, r) → Leads c d
  read_returned :
      (input : Option Bytes) (reads : Bool) → received c input ≡ some (d, reads) → Leads c d
  write_returned : (all : Bool) (w : Writing) → written c all ≡ some (d, w) → Leads c d
  writer_ran : (w : Writing) → writer_turn c ≡ some (d, w) → Leads c d
  drain_began : d ≡ begin_drain c → Leads c d
  was_closed : d ≡ close c → Leads c d

-- The connections that sequences of operations lead to. The mark is set where the writer has failed
-- while the call that had woken it was still running, so that `Resume` has thrown.
pub data Reachable (l : ConnectionLimits) : Bool → Connection → Type 0 where
  constructed : {c : Connection} → create l ≡ some c → Reachable l false c
  led : {threw : Bool} {c d : Connection} → Reachable l threw c → Leads c d → Reachable l threw d
  threw_in :
      {threw : Bool} {c : Connection} (running : ℕ) (status : CallStatus)
      → Reachable l threw c
      → is_down c.state ≡ false
      → Reachable l true (fail_connection_in (some running) c status)

start_fibers-ConnectionValid :
    (c : Connection) (created : Bool) (d : Connection) (done : Bool)
    → ConnectionValid c
    → start_fibers c created ≡ some (d, done)
    → ConnectionValid d
unfolding start_fibers writer_turn
start_fibers-ConnectionValid c created d done v h =
    let r = (start_read c).0 in
    let s = start_read-ConnectionValid c v in
    let k = close-ConnectionValid c v in
    elim (Option-cases (run_writer 2 r)) [
      | inl n ↦ ground arith
      | inr ((e, w), n) ↦ let u = run_writer-ConnectionValid 2 r e w s n in ground arith
    ]

opened-ConnectionValid :
    (c : Connection) (fd : Option ℕ)
    → ConnectionValid c
    → ConnectionValid (record c { fd = fd; state = ConnectionState.ready })
opened-ConnectionValid c fd v =
    let k = v.kept in
    record {
      kept = record {
        limit_range = k.limit_range;
        counted = k.counted;
        bytes_in = k.bytes_in;
        calls_in = k.calls_in;
        distinct = k.distinct;
        released = inl refl;
      };
      settled = inl refl;
    }

attach-ConnectionValid :
    (c : Connection) (fd : Option ℕ) (configured created : Bool) (d : Connection) (done : Bool)
    → ConnectionValid c
    → attach c fd configured created ≡ some (d, done)
    → ConnectionValid d
unfolding attach
attach-ConnectionValid c none configured created d done v h = ground arith
attach-ConnectionValid c (some fd) configured created d done v h =
    let opened : Connection = record c { fd = some fd; state = ConnectionState.ready } in
    let s =
      start_fibers-ConnectionValid opened created d done (opened-ConnectionValid c (some fd) v) in
    ground arith

failed_connect-ConnectionValid :
    (c : Connection)
    → ConnectionValid c
    → is_disconnected c.state ≡ true
    → ConnectionValid (record c { fd = none; state = ConnectionState.disconnected })
failed_connect-ConnectionValid c v h = ground arith

connect-ConnectionValid :
    (c : Connection) (has_address : Bool) (fd : Option ℕ) (configured success created : Bool)
    (d : Connection) (done : Bool)
    → ConnectionValid c
    → connect c has_address fd configured success created ≡ some (d, done)
    → ConnectionValid d
unfolding connect
connect-ConnectionValid c has_address none configured success created d done v h = ground arith
connect-ConnectionValid c has_address (some fd) configured success created d done v h =
    let opened : Connection = record c { fd = some fd; state = ConnectionState.ready } in
    let s =
      start_fibers-ConnectionValid opened created d done (opened-ConnectionValid c (some fd) v) in
    let f = failed_connect-ConnectionValid c v in ground arith

Leads-ConnectionValid : (c d : Connection) → Leads c d → ConnectionValid c → ConnectionValid d
unfolding writer_turn
Leads-ConnectionValid c d (attached fd configured created done e) v =
    attach-ConnectionValid c fd configured created d done v e
Leads-ConnectionValid c d (connected has_address fd configured success created done e) v =
    connect-ConnectionValid c has_address fd configured success created d done v e
Leads-ConnectionValid c d (called current request timeout_ms e) v =
    subst ConnectionValid (sym e) (call-ConnectionValid c current request timeout_ms v)
Leads-ConnectionValid c d (called_with current metadata body timeout_ms e) v =
    subst ConnectionValid (sym e)
      (call_metadata-ConnectionValid c current metadata body timeout_ms v)
Leads-ConnectionValid c d (call_finished id r e) v = finish_call-ConnectionValid c id d r v e
Leads-ConnectionValid c d (read_returned input reads e) v =
    received-ConnectionValid c input d reads v e
Leads-ConnectionValid c d (write_returned all w e) v = written-ConnectionValid c all d w v e
Leads-ConnectionValid c d (writer_ran w e) v = run_writer-ConnectionValid 2 c d w v e
Leads-ConnectionValid c d (drain_began e) v =
    subst ConnectionValid (sym e) (begin_drain-ConnectionValid c v)
Leads-ConnectionValid c d (was_closed e) v =
    subst ConnectionValid (sym e) (close-ConnectionValid c v)

Leads-Broken : (c d : Connection) → Leads c d → Broken c → Broken d
Leads-Broken c d (attached fd configured created done e) v =
    attach-Broken c fd configured created d done v e
Leads-Broken c d (connected has_address fd configured success created done e) v =
    connect-Broken c has_address fd configured success created d done v e
Leads-Broken c d (called current request timeout_ms e) v =
    subst Broken (sym e) (call-Broken c current request timeout_ms v)
Leads-Broken c d (called_with current metadata body timeout_ms e) v =
    subst Broken (sym e) (call_metadata-Broken c current metadata body timeout_ms v)
Leads-Broken c d (call_finished id r e) v = finish_call-Broken c id d r v e
Leads-Broken c d (read_returned input reads e) v = received-Broken c input d reads v e
Leads-Broken c d (write_returned all w e) v = written-Broken c all d w v e
Leads-Broken c d (writer_ran w e) v = writer_turn-Broken c d w v e
Leads-Broken c d (drain_began e) v = subst Broken (sym e) (begin_drain-Broken c v)
Leads-Broken c d (was_closed e) v = subst Broken (sym e) (close-Broken c v)

-- On every connection that operations lead to, in any order, the queued bytes are counted exactly
-- and within their limit, the pending calls are within theirs and have different request ids, and a
-- connection that is down holds no descriptor and no bytes. Besides, no call waits on a connection
-- that is down, except where `Resume` has thrown because the writer failed while the call that had
-- woken it was still running: then the connection is closed for good.
pub Reachable-ConnectionValid :
    (l : ConnectionLimits) (threw : Bool) (c : Connection)
    → IsU64 l.max_outbound_bytes
    → Reachable l threw c
    → ConnectionValid c ⊎ ((threw ≡ true) × Broken c)
Reachable-ConnectionValid l _ _ range (constructed {c} e) = inl (create-ConnectionValid l c range e)
Reachable-ConnectionValid l _ _ range (led {threw} {c} {d} r s) =
    elim (Reachable-ConnectionValid l threw c range r) [
      | inl v ↦ inl (Leads-ConnectionValid c d s v)
      | inr (t, b) ↦ inr (t, Leads-Broken c d s b)
    ]
Reachable-ConnectionValid l _ _ range (threw_in {threw} {c} running status r up) =
    elim (Reachable-ConnectionValid l threw c range r) [
      | inl v ↦ inr (refl, fail_connection_in-Broken (some running) c status v.kept up)
      | inr (t, b) ↦ inr (refl, fail_connection_in-Broken (some running) c status b.kept up)
    ]
