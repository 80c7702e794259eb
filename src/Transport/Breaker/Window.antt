-- ===== src/Transport/Breaker/Window.antt =====
-- How a closed breaker counts calls, and when it opens.
use mathlib.Core.Path.{subst}
use coro_rpc.Transport.Status.{CallResult, is_local_failure}
use coro_rpc.Transport.Breaker.{
  Options, Breaker, advance_window, trips, open_breaker, note_overload, record_call, record_result,
  closed, state, generation, is_transport_failure, is_overload,
}
use coro_rpc.Transport.Breaker.Recovery.{OpenedAt, open_breaker-OpenedAt}
use coro_rpc.Base.{
  ℕ, leb, if◌then◌else◌, Bool-cases, ◌+◌, ◌*◌, ◌/◌, ◌%◌, ◌^◌, ◌≤◌, ◌<◌, ◌≡◌, refl, sym, ap, ◌∙◌,
  ◌⊎◌, inl, inr, Bool, true, false, ◌&&◌, arith,
}

-- A window of `calls` calls, `failures` of which have failed, once one more call is counted in it: a
-- full window starts again with this call.
abbrev pub calls_after : Options → ℕ → ℕ
calls_after o calls = if leb o.window_size calls then 1 else calls + 1

abbrev pub failures_after : Options → ℕ → ℕ → Bool → ℕ
failures_after o calls failures failed =
    (if leb o.window_size calls then 0 else failures) + (if failed then 1 else 0)

-- The halves of a window word.
abbrev pub Holds : Options → ℕ → ℕ → ℕ → Type 0
Holds o window calls failures =
    (window ≡ failures * 2 ^ 32 + calls) × ((calls ≤ o.window_size) × (failures ≤ calls))

-- Options in which the products of the threshold's test stay within their words.
pub record ThresholdInRange (o : Options) : Type 0 where
  pub window_pos : 0 < o.window_size
  pub window_range : o.window_size * 100 < 2 ^ 32
  pub percent : o.failure_threshold_percent ≤ 100

advance_window_lem :
    (o : Options) (window calls failures : ℕ) (failed : Bool)
    → ThresholdInRange o
    → Holds o window calls failures
    → Holds o
        (advance_window o window failed)
        (calls_after o calls)
        (failures_after o calls failures failed)
unfolding advance_window
advance_window_lem o window calls failures failed range (e, (c, f)) =
    let n : window % 2 ^ 32 ≡ calls = omega (arith, range.window_range) in
    let k : window / 2 ^ 32 % 2 ^ 32 ≡ failures = omega (arith, range.window_range) in
    let w = range.window_range in let p = range.window_pos in ground arith

product_le : (n a b : ℕ) → a ≤ b → n * a ≤ n * b
product_le n a b h = grind arith

trips_lem :
    (o : Options) (window calls failures : ℕ)
    → ThresholdInRange o
    → Holds o window calls failures
    → trips o window
      ≡ (leb o.minimum_requests calls && leb (calls * o.failure_threshold_percent) (failures * 100))
unfolding trips
trips_lem o window calls failures range (e, (c, f)) =
    let n : window % 2 ^ 32 ≡ calls = omega (arith, range.window_range) in
    let k : window / 2 ^ 32 % 2 ^ 32 ≡ failures = omega (arith, range.window_range) in
    let small : calls * o.failure_threshold_percent ≤ calls * 100 =
      product_le calls o.failure_threshold_percent 100 range.percent in
    let w = range.window_range in
    let x : calls * o.failure_threshold_percent % 2 ^ 64 ≡ calls * o.failure_threshold_percent =
      omega arith in
    let y : failures * 100 % 2 ^ 32 ≡ failures * 100 = omega arith in ground arith

counted_call :
    (o : Options) (b : Breaker) (r : CallResult) (now : ℕ)
    → state b.control ≡ closed
    → is_local_failure r.status ≡ false
    → is_overload r ≡ false
    → record_result o b b.control r now ≡ record_call o b b.control r now
unfolding record_result note_overload
counted_call o b r now h l w = ground arith

record_call-trips :
    (o : Options) (b : Breaker) (r : CallResult) (now : ℕ)
    → state b.control ≡ closed
    → trips o (advance_window o b.window (is_transport_failure r)) ≡ true
    → record_call o b b.control r now
      ≡ open_breaker o
          (record b { window = advance_window o b.window (is_transport_failure r) })
          b.control
          now
unfolding record_call
record_call-trips o b r now h t = ground arith

record_call_counts :
    (o : Options) (b : Breaker) (r : CallResult) (now : ℕ)
    → state b.control ≡ closed
    → trips o (advance_window o b.window (is_transport_failure r)) ≡ false
    → record_call o b b.control r now
      ≡ record b { window = advance_window o b.window (is_transport_failure r) }
unfolding record_call
record_call_counts o b r now h t = ground arith

-- The result of a call that a closed breaker let through, neither an overload nor a local failure, is
-- counted in the window, which starts again when it is full, for options in which the threshold's
-- products stay within their words. The breaker opens where the window then holds at least the
-- minimum of calls and the share of failures reaches the threshold; otherwise nothing else changes.
pub record_result-trips :
    (o : Options) (b : Breaker) (r : CallResult) (now calls failures : ℕ)
    → ThresholdInRange o
    → Holds o b.window calls failures
    → state b.control ≡ closed
    → is_local_failure r.status ≡ false
    → is_overload r ≡ false
    → now + o.max_open_interval_ms < 2 ^ 64
    → ((o.minimum_requests ≤ calls_after o calls)
        × ((calls_after o calls * o.failure_threshold_percent
              ≤ failures_after o calls failures (is_transport_failure r) * 100)
            × OpenedAt o now (generation b.control) (record_result o b b.control r now)))
      ⊎ (((calls_after o calls < o.minimum_requests)
            ⊎ (failures_after o calls failures (is_transport_failure r) * 100
                < calls_after o calls * o.failure_threshold_percent))
          × (record_result o b b.control r now ≡ record b {
            window =
                failures_after o calls failures (is_transport_failure r) * 2 ^ 32
                + calls_after o calls;
          }))
record_result-trips o b r now calls failures range holds h l w bound =
    let called = counted_call o b r now h l w in
    let failed = is_transport_failure r in
    let window = advance_window o b.window failed in
    let next = advance_window_lem o b.window calls failures failed range holds in
    let test =
      trips_lem o window (calls_after o calls) (failures_after o calls failures failed) range
        next in
    elim (Bool-cases (trips o window)) [
      | inl t ↦
          let opens =
            open_breaker-OpenedAt o (record b { window = window }) b.control now refl refl bound in
          let e = called ∙ record_call-trips o b r now h t in
          inl (
            ground arith,
            (ground arith, subst (λ x. OpenedAt o now (generation b.control) x) (sym e) opens),
          )
      | inr t ↦
          let e = called ∙ record_call_counts o b r now h t in
          inr (ground arith, e ∙ ap (λ x. record b { window = x }) next.0)
    ]
