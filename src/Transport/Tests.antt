-- ===== src/Transport/Tests.antt =====
-- Concrete runs of the circuit breaker, and its theorems at concrete inputs.
use coro_rpc.Transport.Status.{CallResult, CallStatus, default_result}
use coro_rpc.Transport.Breaker.{
  Breaker, default_options, new_breaker, allow_loop, allow, open_breaker, note_overload,
  record_call, record_result, denied_permit, closed, opened, half_open, state, generation, inflight,
  pack, next_generation, advance_window, trips, is_transport_failure,
}
use coro_rpc.Transport.Breaker.Laws.{OptionsInRange, BreakerValid, Permits, blocked, allow-Permits}
use coro_rpc.Transport.Breaker.Window.{record_result-trips, calls_after, failures_after}
use coro_rpc.Transport.Breaker.Recovery.{
  start, recorded, Reachable-BreakerValid, record_result-stale, first_probe, probing,
  allow-record_result, OpenedAt, record_result-OpenedAt,
}
use coro_rpc.Base.{add64, ℕ, ◌+◌, ◌*◌, ◌^◌, ◌≡◌, refl, ◌≢◌, ◌⊎◌, true, false, some, arith, ◌≤◌, ◌<◌}

default_range : OptionsInRange default_options
default_range = record {
  window_pos = omega arith;
  window_range = omega arith;
  probes_range = omega arith;
  probes_pos = omega arith;
}

-- An answer, a call that timed out, and a request that the server refused for its load.
abbrev answered : CallResult
answered = record default_result { status = CallStatus.ok; rpc_status = 0 }

abbrev timed_out : CallResult
timed_out = record default_result { status = CallStatus.timeout; rpc_status = 0 }

abbrev refused : CallResult
refused = record default_result { status = CallStatus.ok; rpc_status = 6 }

-- A closed breaker with nine calls in its window, four of them failed.
abbrev busy : Breaker
busy = record new_breaker { window = 4 * 2 ^ 32 + 9 }

abbrev open_since : Breaker
open_since = record new_breaker {
  control = 1 + 5 * 2 ^ 34;
  reopen_at_ms = 2000;
  consecutive_opens = 3;
}

abbrev half_open_word : ℕ
half_open_word = 2 + 4 + 6 * 2 ^ 34

abbrev probed : Breaker
probed = record open_since { control = half_open_word }

tenth_call : (record_result default_options busy 0 timed_out 100).control ≡ 1 + 2 ^ 34
unfolding record_result note_overload record_call advance_window trips open_breaker add64 state
    generation pack next_generation
tenth_call = refl

tenth_call_interval : (record_result default_options busy 0 timed_out 100).reopen_at_ms ≡ 1100
unfolding record_result note_overload record_call advance_window trips open_breaker add64 state
    generation pack next_generation
tenth_call_interval = refl

probe_word : allow 1 default_options open_since 2000 ≡ some (probed, half_open_word)
unfolding allow allow_loop state generation pack next_generation
probe_word = refl

Reachable-BreakerValid_example :
    BreakerValid default_options (record_result default_options new_breaker 0 timed_out 100)
Reachable-BreakerValid_example =
    Reachable-BreakerValid default_options
      (record_result default_options new_breaker 0 timed_out 100) default_range
      (recorded 0 timed_out 100 start)

half_open_valid : BreakerValid default_options probed
unfolding state inflight
half_open_valid = record {
  control_valid = record { settled = omega arith; probes_in = λ q. omega arith };
  window_valid = record { not_over = omega arith; failures_le = omega arith };
}

allow-Permits_example :
    (blocked default_options probed 3000 ≡ true
      × (allow 1 default_options probed 3000 ≡ some (probed, denied_permit)))
    ⊎ (blocked default_options probed 3000 ≡ false
        × ((c : ℕ) × ((allow 1 default_options probed 3000
                ≡ some (record probed { control = c }, c))
              × Permits default_options probed c)))
allow-Permits_example = allow-Permits 0 default_options probed 3000 default_range half_open_valid

other_generation : generation 0 ≢ generation half_open_word
unfolding generation
other_generation = omega arith

record_result-stale_example :
    record_result default_options probed 0 refused 3000
    ≡ note_overload default_options probed refused 3000
record_result-stale_example =
    record_result-stale default_options probed 0 refused 3000 other_generation

open_since_state : state (1 + 5 * 2 ^ 34) ≡ opened
unfolding state
open_since_state = refl

allow-record_result_example :
    (allow 1 default_options open_since 2500 ≡ some (probing open_since, first_probe open_since))
    × ((allow 1 default_options (probing open_since) 2600
          ≡ some (probing open_since, denied_permit))
        × (record_result default_options (probing open_since) (first_probe open_since) answered 2600
            ≡ record open_since {
              control = pack closed (next_generation (first_probe open_since)) 0 0;
              window = 0;
              consecutive_opens = 0;
            }))
allow-record_result_example =
    allow-record_result 0 default_options open_since 2500 answered 2600 refl open_since_state
      (omega arith) (omega arith) refl

half_open_word_state : state half_open_word ≡ half_open
unfolding state
half_open_word_state = refl

record_result-OpenedAt_example :
    OpenedAt default_options 2600
      (generation half_open_word)
      (record_result default_options probed half_open_word timed_out 2600)
record_result-OpenedAt_example =
    record_result-OpenedAt default_options probed half_open_word timed_out 2600 half_open_word_state
      half_open_word_state refl refl (omega arith)

closed_word_state : state 0 ≡ closed
unfolding state
closed_word_state = refl

record_result-trips_example :
    ((10 ≤ calls_after default_options 9)
      × ((calls_after default_options 9 * 50
            ≤ failures_after default_options 9 4 (is_transport_failure timed_out) * 100)
          × OpenedAt default_options 100
              (generation 0)
              (record_result default_options busy 0 timed_out 100)))
    ⊎ (((calls_after default_options 9 < 10)
          ⊎ (failures_after default_options 9 4 (is_transport_failure timed_out) * 100
              < calls_after default_options 9 * 50))
        × (record_result default_options busy 0 timed_out 100 ≡ record busy {
          window =
              failures_after default_options 9 4 (is_transport_failure timed_out) * 2 ^ 32
              + calls_after default_options 9;
        }))
record_result-trips_example =
    record_result-trips default_options busy timed_out 100 9 4
      (record { window_pos = omega arith; window_range = omega arith; percent = omega arith })
      (refl, (omega arith, omega arith)) closed_word_state refl refl (omega arith)
