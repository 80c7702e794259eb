-- ===== src/Transport/Breaker/Control.antt =====
-- The fields of the packed control word, and the window of recent calls.
use coro_rpc.Base.{◌≡◌, IsU32, ℕ, ◌^◌, ◌≤◌, ◌<◌, ◌≢◌, Bool, arith}
use coro_rpc.Transport.Breaker.{
  Options, state, generation, inflight, successes, pack, next_generation, window_count,
  window_failures, advance_window,
}

-- What is packed is read back.
module _ (s g i n : ℕ) (hs : s < 4) where
  pub state-pack : state (pack s g i n) ≡ s
  unfolding state pack
  state-pack = omega arith

  pub generation-pack : g < 2 ^ 30 → generation (pack s g i n) ≡ g
  unfolding generation pack
  generation-pack h = omega arith

  pub inflight-pack : i < 2 ^ 16 → inflight (pack s g i n) ≡ i
  unfolding inflight pack
  inflight-pack h = omega arith

  pub successes-pack : n < 2 ^ 16 → successes (pack s g i n) ≡ n
  unfolding successes pack
  successes-pack h = omega arith

pub generation_bound : (c : ℕ) → generation c < 2 ^ 30
unfolding generation
generation_bound c = omega arith

pub next_generation_bound : (c : ℕ) → next_generation c < 2 ^ 30
unfolding next_generation
next_generation_bound c = omega arith

pub inflight_bound : (c : ℕ) → inflight c < 2 ^ 16
unfolding inflight
inflight_bound c = omega arith

pub next_generation_ne : (c : ℕ) → next_generation c ≢ generation c
unfolding next_generation
next_generation_ne c = omega (arith, generation_bound c)

-- The window holds no more calls than its size, and no more failures than calls.
pub record WindowValid (o : Options) (w : ℕ) : Type 0 where
  pub not_over : window_count w ≤ o.window_size
  pub failures_le : window_failures w ≤ window_count w

-- A call is counted within the window's bounds: the new count is between 1 and the size, and the
-- failures grow by one where the call failed, or start again with the count.
pub advance_window-WindowValid :
    (o : Options) (w : ℕ) (failed : Bool)
    → 0 < o.window_size
    → IsU32 o.window_size
    → WindowValid o w
    → WindowValid o (advance_window o w failed) × (1 ≤ window_count (advance_window o w failed))
unfolding advance_window
advance_window-WindowValid o w failed pos range v = ground (arith, v.not_over, v.failures_le)
