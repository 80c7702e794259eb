-- ===== src/Transport/Breaker.antt =====
-- The circuit breaker of rpc_src/transport/rpc_client.cpp: the packed control word and `Allow`,
-- `Record` and `Open`. The fields of a word do not overlap, so `|` is a sum, a mask is a remainder
-- and a shift a quotient. Each call runs with no other thread between its steps, so a
-- compare-and-swap on the value just loaded succeeds.
pub mod Control
pub mod Laws
pub mod Recovery
pub mod Window
use coro_rpc.Base.{
  ltb, leb, ◌==◌, if◌then◌else◌, add64, ℕ, zero, suc, ◌+◌, ◌-◌, ◌*◌, ◌/◌, ◌%◌, ◌^◌, min, Bool, not,
  ◌&&◌, ◌||◌, Option, none, some,
}
use coro_rpc.Transport.Status.{
  CallResult, is_ok, is_local_failure, is_local_overload, is_connection_failure, rpc_ok,
  rpc_deadline_exceeded, rpc_resource_exhausted, rpc_unavailable,
}

abbrev pub denied_permit : ℕ
denied_permit = 2 ^ 64 - 1

abbrev pub closed : ℕ
closed = 0

abbrev pub opened : ℕ
opened = 1

abbrev pub half_open : ℕ
half_open = 2

abbrev pub opening : ℕ
opening = 3

unfoldable pub state : ℕ → ℕ
state control = control % 4

unfoldable pub generation : ℕ → ℕ
generation control = control / 2 ^ 34 % 2 ^ 30

unfoldable pub inflight : ℕ → ℕ
inflight control = control / 2 ^ 2 % 2 ^ 16

unfoldable pub successes : ℕ → ℕ
successes control = control / 2 ^ 18 % 2 ^ 16

-- `Control(state, generation, inflight, successes)`, for one of the four states.
unfoldable pub pack : ℕ → ℕ → ℕ → ℕ → ℕ
pack s g i n = s + i % 2 ^ 16 * 2 ^ 2 + n % 2 ^ 16 * 2 ^ 18 + g % 2 ^ 30 * 2 ^ 34

unfoldable pub next_generation : ℕ → ℕ
next_generation control = (generation control + 1) % 2 ^ 30

-- `CircuitBreakerOptions`, and `base_backoff_ms` of `RetryOptions`.
pub record Options : Type 0 where
  pub window_size : ℕ
  pub minimum_requests : ℕ
  pub failure_threshold_percent : ℕ
  pub open_interval_ms : ℕ
  pub max_open_interval_ms : ℕ
  pub half_open_max_probes : ℕ
  pub base_backoff_ms : ℕ

abbrev pub default_options : Options
default_options = record {
  window_size = 20;
  minimum_requests = 10;
  failure_threshold_percent = 50;
  open_interval_ms = 1000;
  max_open_interval_ms = 30000;
  half_open_max_probes = 1;
  base_backoff_ms = 5;
}

pub record Breaker : Type 0 where
  pub control : ℕ
  pub window : ℕ
  pub reopen_at_ms : ℕ
  pub overload_until_ms : ℕ
  pub consecutive_opens : ℕ

abbrev pub new_breaker : Breaker
new_breaker = record {
  control = 0;
  window = 0;
  reopen_at_ms = 0;
  overload_until_ms = 0;
  consecutive_opens = 0;
}

-- The loop of `Allow`, on fuel: a breaker that is being opened is read again. The result is the
-- permit, and `none` where the fuel runs out.
unfoldable pub allow_loop : ℕ → Options → Breaker → ℕ → Option (Breaker × ℕ)
allow_loop zero o b now = none
allow_loop (suc fuel) o b now =
    let again = allow_loop fuel o b now in
    let half = pack half_open (next_generation b.control) 1 0 in
    let probe =
      pack half_open (generation b.control) (inflight b.control + 1) (successes b.control) in
    if state b.control == closed
    then some (b, b.control)
    else (if state b.control == opened
        then (if ltb now b.reopen_at_ms
            then some (b, denied_permit)
            else some (record b { control = half }, half))
        else (if state b.control == opening
            then again
            else (if leb o.half_open_max_probes (inflight b.control)
                then some (b, denied_permit)
                else some (record b { control = probe }, probe))))

unfoldable pub allow : ℕ → Options → Breaker → ℕ → Option (Breaker × ℕ)
allow fuel o b now =
    if ltb now b.overload_until_ms then some (b, denied_permit) else allow_loop fuel o b now

-- `Open`: the loop tries again while the state and the generation are the expected ones, so it opens
-- the breaker where those of the current word are. Other threads see `opening` on the way.
unfoldable pub open_breaker : Options → Breaker → ℕ → ℕ → Breaker
open_breaker o b expected now =
    let interval =
      min (o.open_interval_ms * 2 ^ min b.consecutive_opens 16 % 2 ^ 64) o.max_open_interval_ms in
    if (state b.control == state expected) && (generation b.control == generation expected)
    then record b {
      control = pack opened (next_generation b.control) 0 0;
      window = 0;
      reopen_at_ms = add64 now interval;
      consecutive_opens = add64 b.consecutive_opens 1;
    }
    else b

abbrev pub is_overload : CallResult → Bool
is_overload r = is_local_overload r.status || (r.rpc_status == rpc_resource_exhausted)

abbrev pub is_transport_failure : CallResult → Bool
is_transport_failure r =
    is_connection_failure r.status
    || ((r.rpc_status == rpc_unavailable) || (r.rpc_status == rpc_deadline_exceeded))

-- The overload pause at the front of `Record`.
unfoldable pub note_overload : Options → Breaker → CallResult → ℕ → Breaker
note_overload o b r now =
    if is_overload r then record b { overload_until_ms = add64 now o.base_backoff_ms } else b

-- The result of a probe that has not failed.
unfoldable pub record_probe : Options → Breaker → ℕ → CallResult → Breaker
record_probe o b permit r =
    let good = if is_ok r.status && (r.rpc_status == rpc_ok) then 1 else 0 in
    let count = successes b.control + good in
    if (state b.control == half_open) && (generation b.control == generation permit)
    then (if (inflight b.control == 1) && leb o.half_open_max_probes count
        then record b {
          control = pack closed (next_generation b.control) 0 0;
          window = 0;
          consecutive_opens = 0;
        }
        else record b {
          control = pack half_open (generation b.control) (inflight b.control - 1) count;
        })
    else b

-- The window's halves: calls in the low 32 bits, failures in the high ones.
abbrev pub window_count : ℕ → ℕ
window_count window = window % 2 ^ 32

abbrev pub window_failures : ℕ → ℕ
window_failures window = window / 2 ^ 32 % 2 ^ 32

-- One more call in the window, which starts again when it is full.
unfoldable pub advance_window : Options → ℕ → Bool → ℕ
advance_window o window failed =
    let full = leb o.window_size (window_count window) in
    let count = ((if full then 0 else window_count window) + 1) % 2 ^ 32 in
    let failures =
      ((if full then 0 else window_failures window) + (if failed then 1 else 0)) % 2 ^ 32 in
    failures * 2 ^ 32 + count

-- `failures * 100` is computed in 32 bits, and the other product in 64.
unfoldable pub trips : Options → ℕ → Bool
trips o window =
    leb o.minimum_requests (window_count window)
    && leb (window_count window * o.failure_threshold_percent % 2 ^ 64)
        (window_failures window * 100 % 2 ^ 32)

-- The result of a call under a closed breaker.
unfoldable pub record_call : Options → Breaker → ℕ → CallResult → ℕ → Breaker
record_call o b permit r now =
    let counted = record b { window = advance_window o b.window (is_transport_failure r) } in
    if not (state b.control == closed) || not (generation b.control == generation permit)
    then b
    else (if trips o counted.window then open_breaker o counted b.control now else counted)

unfoldable pub record_result : Options → Breaker → ℕ → CallResult → ℕ → Breaker
record_result o b permit r now =
    let noted = note_overload o b r now in
    if state permit == half_open
    then (if is_transport_failure r
        then open_breaker o noted permit now
        else record_probe o noted permit r)
    else (if is_local_failure r.status || (is_overload r || not (state permit == closed))
        then noted
        else record_call o noted permit r now)
