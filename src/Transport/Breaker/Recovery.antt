-- ===== src/Transport/Breaker/Recovery.antt =====
-- What the circuit breaker does over several calls: its invariant along every history, late results,
-- and how an open breaker returns to normal service or opens again.
use mathlib.Core.Path.{subst}
use coro_rpc.Transport.Breaker.Control.{
  state-pack, generation-pack, inflight-pack, successes-pack, next_generation_bound,
  next_generation_ne,
}
use coro_rpc.Transport.Breaker.Laws.{
  OptionsInRange, BreakerValid, new_breaker-BreakerValid, record_result-BreakerValid, allow-Permits,
}
use coro_rpc.Transport.Status.{CallResult, is_ok, rpc_ok}
use coro_rpc.Transport.Breaker.{
  Options, Breaker, new_breaker, allow_loop, allow, open_breaker, note_overload, record_probe,
  record_call, record_result, denied_permit, closed, opened, half_open, state, generation, inflight,
  successes, pack, next_generation, is_transport_failure, is_overload,
}
use coro_rpc.Base.{
  ℕ, zero, suc, ◌≡◌, sym, ◌≢◌, some, arith, ◌==◌, ◌+◌, ◌^◌, ◌≤◌, ◌<◌, Bool, true, false, ◌&&◌, ap,
  ◌∙◌, add64, add64_exact, ◌*◌, ◌%◌, min,
}

-- The breakers that calls of `Allow` and `Record` lead to, with any permits, results and times.
pub data Reachable (o : Options) : Breaker → Type 0 where
  start : Reachable o new_breaker
  asked :
      {b c : Breaker} (fuel now permit : ℕ)
      → Reachable o b
      → allow fuel o b now ≡ some (c, permit)
      → Reachable o c
  recorded :
      {b : Breaker} (permit : ℕ) (r : CallResult) (now : ℕ)
      → Reachable o b
      → Reachable o (record_result o b permit r now)

allow-zero :
    (o : Options) (b c : Breaker) (now permit : ℕ) → allow zero o b now ≡ some (c, permit) → c ≡ b
unfolding allow allow_loop
allow-zero o b c now permit h = ground arith

allow-BreakerValid :
    (fuel : ℕ) (o : Options) (b c : Breaker) (now permit : ℕ)
    → OptionsInRange o
    → BreakerValid o b
    → allow fuel o b now ≡ some (c, permit)
    → BreakerValid o c
allow-BreakerValid zero o b c now permit range v h =
    subst (λ x. BreakerValid o x) (sym (allow-zero o b c now permit h)) v
allow-BreakerValid (suc fuel) o b c now permit range v h =
    let answer = allow-Permits fuel o b now range v in ground arith

-- Every breaker that calls lead to is settled, has no more probes in flight than allowed, and a
-- window within its size, for options in range.
pub Reachable-BreakerValid :
    (o : Options) (b : Breaker) → OptionsInRange o → Reachable o b → BreakerValid o b
Reachable-BreakerValid o _ range start = new_breaker-BreakerValid o
Reachable-BreakerValid o _ range (asked {b} {c} fuel now permit r e) =
    allow-BreakerValid fuel o b c now permit range (Reachable-BreakerValid o b range r) e
Reachable-BreakerValid o _ range (recorded {b} permit r now h) =
    record_result-BreakerValid o b permit r now range (Reachable-BreakerValid o b range h)

-- The result of a call whose permit is from another generation than the breaker's word changes
-- nothing but the time up to which an overload pauses calls.
pub record_result-stale :
    (o : Options) (b : Breaker) (permit : ℕ) (r : CallResult) (now : ℕ)
    → generation permit ≢ generation b.control
    → record_result o b permit r now ≡ note_overload o b r now
unfolding record_result note_overload record_probe record_call open_breaker
record_result-stale o b permit r now h = ground arith

-- The permit of an open breaker's first probe, and the breaker with that probe in flight.
unfoldable pub first_probe : Breaker → ℕ
first_probe b = pack half_open (next_generation b.control) 1 0

abbrev pub probing : Breaker → Breaker
probing b = record b { control = first_probe b }

state-first_probe : (b : Breaker) → state (first_probe b) ≡ half_open
unfolding first_probe
state-first_probe b = state-pack half_open (next_generation b.control) 1 0 (omega arith)

inflight-first_probe : (b : Breaker) → inflight (first_probe b) ≡ 1
unfolding first_probe
inflight-first_probe b =
    inflight-pack half_open (next_generation b.control) 1 0 (omega arith) (omega arith)

successes-first_probe : (b : Breaker) → successes (first_probe b) ≡ 0
unfolding first_probe
successes-first_probe b =
    successes-pack half_open (next_generation b.control) 1 0 (omega arith) (omega arith)

allow_first :
    (fuel : ℕ) (o : Options) (b : Breaker) (now : ℕ)
    → state b.control ≡ opened
    → b.reopen_at_ms ≤ now
    → b.overload_until_ms ≤ now
    → allow (suc fuel) o b now ≡ some (probing b, first_probe b)
unfolding allow allow_loop first_probe
allow_first fuel o b now h reopen pause = ground arith

allow-probing :
    (fuel : ℕ) (o : Options) (b : Breaker) (now : ℕ)
    → o.half_open_max_probes ≡ 1
    → allow (suc fuel) o (probing b) now ≡ some (probing b, denied_permit)
unfolding allow allow_loop
allow-probing fuel o b now h = ground (arith, state-first_probe b, inflight-first_probe b)

abbrev pub succeeds : CallResult → Bool
succeeds r = is_ok r.status && (r.rpc_status == rpc_ok)

succeeds-is_transport_failure :
    (r : CallResult) → succeeds r ≡ true → is_transport_failure r ≡ false
succeeds-is_transport_failure r h = ground arith

succeeds-is_overload : (r : CallResult) → succeeds r ≡ true → is_overload r ≡ false
succeeds-is_overload r h = ground arith

-- With one probe at a time, an open breaker whose interval and overload pause have passed lets one
-- call through, turns the others away while its result is missing, and closes when it succeeds,
-- with an empty window, no past openings and a new generation.
pub allow-record_result :
    (fuel : ℕ) (o : Options) (b : Breaker) (now : ℕ) (r : CallResult) (later : ℕ)
    → o.half_open_max_probes ≡ 1
    → state b.control ≡ opened
    → b.reopen_at_ms ≤ now
    → b.overload_until_ms ≤ now
    → succeeds r ≡ true
    → (allow (suc fuel) o b now ≡ some (probing b, first_probe b))
      × ((allow (suc fuel) o (probing b) later ≡ some (probing b, denied_permit))
          × (record_result o (probing b) (first_probe b) r later ≡ record b {
            control = pack closed (next_generation (first_probe b)) 0 0;
            window = 0;
            consecutive_opens = 0;
          }))
unfolding record_result note_overload record_probe
allow-record_result fuel o b now r later one h reopen pause good =
    let a = allow_first fuel o b now h reopen pause in
    let d = allow-probing fuel o b later one in
    let f = succeeds-is_transport_failure r good in
    let g = succeeds-is_overload r good in
    (a, (d, ground (arith, state-first_probe b, inflight-first_probe b, successes-first_probe b)))

-- A breaker opened at `now`, away from the generation `g`: it takes a call again after the time
-- `reopen_at_ms`, at most the longest interval later, and it counts no calls.
pub record OpenedAt (o : Options) (now g : ℕ) (b : Breaker) : Type 0 where
  pub is_opened : state b.control ≡ opened
  pub new_generation : generation b.control ≢ g
  pub not_before : now ≤ b.reopen_at_ms
  pub not_after : b.reopen_at_ms ≤ now + o.max_open_interval_ms
  pub empty : b.window ≡ 0

pub open_breaker-OpenedAt :
    (o : Options) (b : Breaker) (expected now : ℕ)
    → state b.control ≡ state expected
    → generation b.control ≡ generation expected
    → now + o.max_open_interval_ms < 2 ^ 64
    → OpenedAt o now (generation expected) (open_breaker o b expected now)
unfolding open_breaker
open_breaker-OpenedAt o b expected now hs hg range =
    let s = state-pack opened (next_generation b.control) 0 0 (omega arith) in
    let g =
      generation-pack opened (next_generation b.control) 0 0 (omega arith)
        (next_generation_bound b.control) in
    let n = next_generation_ne b.control in
    let interval : ℕ =
      min (o.open_interval_ms * 2 ^ min b.consecutive_opens 16 % 2 ^ 64) o.max_open_interval_ms in
    let bound : interval ≤ o.max_open_interval_ms = omega arith in
    let exact : add64 now interval ≡ now + interval = add64_exact now interval (omega arith) in
    ground arith

control-note_overload :
    (o : Options) (b : Breaker) (r : CallResult) (now : ℕ)
    → (note_overload o b r now).control ≡ b.control
unfolding note_overload
control-note_overload o b r now = ground arith

failed_probe :
    (o : Options) (b : Breaker) (permit : ℕ) (r : CallResult) (now : ℕ)
    → state permit ≡ half_open
    → is_transport_failure r ≡ true
    → record_result o b permit r now ≡ open_breaker o (note_overload o b r now) permit now
unfolding record_result
failed_probe o b permit r now h bad = ground arith

-- A probe that meets a transport failure opens the half-open breaker of its generation again, even
-- where other probes have succeeded.
pub record_result-OpenedAt :
    (o : Options) (b : Breaker) (permit : ℕ) (r : CallResult) (now : ℕ)
    → state permit ≡ half_open
    → state b.control ≡ half_open
    → generation b.control ≡ generation permit
    → is_transport_failure r ≡ true
    → now + o.max_open_interval_ms < 2 ^ 64
    → OpenedAt o now (generation permit) (record_result o b permit r now)
record_result-OpenedAt o b permit r now hp hb hg bad range =
    let c = control-note_overload o b r now in
    let opens =
      open_breaker-OpenedAt o (note_overload o b r now) permit now (ap state c ∙ hb ∙ sym hp)
        (ap generation c ∙ hg) range in
    subst (λ x. OpenedAt o now (generation permit) x) (sym (failed_probe o b permit r now hp bad))
      opens
