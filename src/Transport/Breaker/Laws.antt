-- ===== src/Transport/Breaker/Laws.antt =====
-- The invariant of the circuit breaker, what a permit is worth, and the way back to normal service.
use coro_rpc.Transport.Breaker.Control.{
  state-pack, inflight-pack, WindowValid, advance_window-WindowValid,
}
use coro_rpc.Transport.Status.{is_ok, rpc_ok, CallResult}
use coro_rpc.Transport.Breaker.{
  Options, Breaker, new_breaker, open_breaker, note_overload, opened, half_open, opening, state,
  inflight, pack, next_generation, record_probe, record_call, record_result, closed, denied_permit,
  is_transport_failure, advance_window, generation, allow, successes, allow_loop,
}
use coro_rpc.Base.{
  IsU32, ℕ, ◌^◌, ◌≤◌, ◌<◌, ◌≡◌, ◌≢◌, arith, ◌⊎◌, ltb, leb, ◌==◌, if◌then◌else◌, suc, ◌+◌, ◌-◌, refl,
  inl, inr, Bool, true, false, ◌&&◌, ◌||◌, some, Bool-cases,
}

-- The configurations in which the packed fields and the window cannot overflow.
pub record OptionsInRange (o : Options) : Type 0 where
  pub window_pos : 0 < o.window_size
  pub window_range : IsU32 o.window_size
  pub probes_range : o.half_open_max_probes < 2 ^ 16
  pub probes_pos : 0 < o.half_open_max_probes

-- No call leaves a breaker half way through opening, and no more probes are in flight than allowed.
pub record ControlValid (o : Options) (c : ℕ) : Type 0 where
  pub settled : state c ≢ opening
  pub probes_in : state c ≡ half_open → inflight c ≤ o.half_open_max_probes

pub record BreakerValid (o : Options) (b : Breaker) : Type 0 where
  pub control_valid : ControlValid o b.control
  pub window_valid : WindowValid o b.window

idle-ControlValid : (o : Options) (s g : ℕ) → s < 2 → ControlValid o (pack s g 0 0)
idle-ControlValid o s g h =
    let e = state-pack s g 0 0 (omega arith) in
    record { settled = omega arith; probes_in = λ q. omega arith }

probing-ControlValid :
    (o : Options) (g i n : ℕ)
    → i ≤ o.half_open_max_probes
    → o.half_open_max_probes < 2 ^ 16
    → ControlValid o (pack half_open g i n)
probing-ControlValid o g i n h r =
    let e = state-pack half_open g i n (omega arith) in
    let f = inflight-pack half_open g i n (omega arith) (omega arith) in
    record { settled = omega arith; probes_in = λ q. omega arith }

empty-WindowValid : (o : Options) → WindowValid o 0
empty-WindowValid o = record { not_over = omega arith; failures_le = omega arith }

pub new_breaker-BreakerValid : (o : Options) → BreakerValid o new_breaker
unfolding state
new_breaker-BreakerValid o = record {
  control_valid = record { settled = omega arith; probes_in = λ q. omega arith };
  window_valid = empty-WindowValid o;
}

open_breaker-BreakerValid :
    (o : Options) (b : Breaker) (expected now : ℕ)
    → BreakerValid o b
    → BreakerValid o (open_breaker o b expected now)
unfolding open_breaker
open_breaker-BreakerValid o b expected now v = ground (
  arith,
  idle-ControlValid o opened (next_generation b.control) (omega arith),
  empty-WindowValid o,
)

note_overload-BreakerValid :
    (o : Options) (b : Breaker) (r : CallResult) (now : ℕ)
    → BreakerValid o b
    → BreakerValid o (note_overload o b r now)
unfolding note_overload
note_overload-BreakerValid o b r now v = ground arith

record_probe-BreakerValid :
    (o : Options) (b : Breaker) (permit : ℕ) (r : CallResult)
    → OptionsInRange o
    → BreakerValid o b
    → BreakerValid o (record_probe o b permit r)
unfolding record_probe
record_probe-BreakerValid o b permit r range v =
    let good : ℕ = if is_ok r.status && (r.rpc_status == rpc_ok) then 1 else 0 in
    ground (
      arith,
      idle-ControlValid o closed (next_generation b.control) (omega arith),
      empty-WindowValid o,
      probing-ControlValid o (generation b.control) (inflight b.control - 1)
          (successes b.control + good),
    )

record_call-BreakerValid :
    (o : Options) (b : Breaker) (permit : ℕ) (r : CallResult) (now : ℕ)
    → OptionsInRange o
    → BreakerValid o b
    → BreakerValid o (record_call o b permit r now)
unfolding record_call
record_call-BreakerValid o b permit r now range v =
    let next =
      advance_window-WindowValid o b.window (is_transport_failure r) range.window_pos
        range.window_range v.window_valid in
    let counted : Breaker = record b {
      window = advance_window o b.window (is_transport_failure r);
    } in
    let counted_valid : BreakerValid o counted = record {
      control_valid = v.control_valid;
      window_valid = next.0;
    } in
    let opened_valid = open_breaker-BreakerValid o counted b.control now counted_valid in
    ground arith

pub record_result-BreakerValid :
    (o : Options) (b : Breaker) (permit : ℕ) (r : CallResult) (now : ℕ)
    → OptionsInRange o
    → BreakerValid o b
    → BreakerValid o (record_result o b permit r now)
unfolding record_result
record_result-BreakerValid o b permit r now range v =
    let noted = note_overload-BreakerValid o b r now v in
    let a = open_breaker-BreakerValid o (note_overload o b r now) permit now noted in
    let c = record_probe-BreakerValid o (note_overload o b r now) permit r range noted in
    let d = record_call-BreakerValid o (note_overload o b r now) permit r now range noted in
    ground arith

-- A new call is turned away: during an overload pause, before an open breaker may be probed, and
-- while all probes of a half-open one are in flight.
abbrev pub blocked : Options → Breaker → ℕ → Bool
blocked o b now =
    ltb now b.overload_until_ms
    || (((state b.control == opened) && ltb now b.reopen_at_ms)
        || ((state b.control == half_open) && leb o.half_open_max_probes (inflight b.control)))

-- The permit `c` that is also the control word behind the call: the word of a closed breaker, or that
-- of a half-open one in which the probe is counted.
pub record Permits (o : Options) (b : Breaker) (c : ℕ) : Type 0 where
  pub still_valid : BreakerValid o (record b { control = c })
  pub not_denied : c ≢ denied_permit
  pub kind :
      (state c ≡ closed × (c ≡ b.control))
      ⊎ ((state c ≡ half_open × (0 < inflight c)) × (state b.control ≢ closed))

state_bound : (c : ℕ) → state c < 4
unfolding state
state_bound c = omega arith

denied_permit_state : (c : ℕ) → state c ≢ opening → c ≢ denied_permit
unfolding state
denied_permit_state c h = omega arith

closed-Permits :
    (o : Options) (b : Breaker)
    → BreakerValid o b
    → state b.control ≡ closed
    → Permits o b b.control
closed-Permits o b v h = record {
  still_valid = v;
  not_denied = denied_permit_state b.control v.control_valid.settled;
  kind = inl (h, refl);
}

probe-Permits :
    (o : Options) (b : Breaker) (g i n : ℕ)
    → OptionsInRange o
    → BreakerValid o b
    → state b.control ≢ closed
    → 0 < i
    → i ≤ o.half_open_max_probes
    → Permits o b (pack half_open g i n)
probe-Permits o b g i n range v ne pos le =
    let word = probing-ControlValid o g i n le range.probes_range in
    let bound = range.probes_range in
    let counted : inflight (pack half_open g i n) ≡ i =
      inflight-pack half_open g i n (omega arith) (omega arith) in
    record {
      still_valid = record { control_valid = word; window_valid = v.window_valid };
      not_denied = denied_permit_state (pack half_open g i n) word.settled;
      kind = inr ((state-pack half_open g i n (omega arith), omega arith), ne);
    }

-- The answer to a call that is not blocked, and the control word behind it.
unfoldable granted : Breaker → ℕ
granted b =
    if state b.control == closed
    then b.control
    else (if state b.control == opened
        then pack half_open (next_generation b.control) 1 0
        else pack half_open (generation b.control) (inflight b.control + 1) (successes b.control))

allow-blocked :
    (fuel : ℕ) (o : Options) (b : Breaker) (now : ℕ)
    → blocked o b now ≡ true
    → allow (suc fuel) o b now ≡ some (b, denied_permit)
unfolding allow allow_loop
allow-blocked fuel o b now h = ground arith

allow-granted :
    (fuel : ℕ) (o : Options) (b : Breaker) (now : ℕ)
    → state b.control ≢ opening
    → blocked o b now ≡ false
    → allow (suc fuel) o b now ≡ some (record b { control = granted b }, granted b)
unfolding allow allow_loop granted
allow-granted fuel o b now s h =
    let bound : state b.control < 4 = state_bound b.control in ground arith

granted-Permits :
    (o : Options) (b : Breaker) (now : ℕ)
    → OptionsInRange o
    → BreakerValid o b
    → blocked o b now ≡ false
    → Permits o b (granted b)
unfolding granted
granted-Permits o b now range v h =
    let bound : state b.control < 4 = state_bound b.control in
    let settled = v.control_valid.settled in
    let first = probe-Permits o b (next_generation b.control) 1 0 range v in
    let more =
      probe-Permits o b (generation b.control) (inflight b.control + 1) (successes b.control) range
        v in
    let same = closed-Permits o b v in ground arith

-- For options in range, `allow` answers at once on a breaker as calls leave it. Exactly the blocked
-- calls are denied, and they change nothing. Any other call gets a permit that is the control word it
-- leaves behind, and no more probes are in flight than allowed.
pub allow-Permits :
    (fuel : ℕ) (o : Options) (b : Breaker) (now : ℕ)
    → OptionsInRange o
    → BreakerValid o b
    → (blocked o b now ≡ true × (allow (suc fuel) o b now ≡ some (b, denied_permit)))
      ⊎ (blocked o b now ≡ false
          × ((c : ℕ) × ((allow (suc fuel) o b now ≡ some (record b { control = c }, c))
                × Permits o b c)))
allow-Permits fuel o b now range v = elim (Bool-cases (blocked o b now)) [
  | inl h ↦ inl (h, allow-blocked fuel o b now h)
  | inr h ↦ inr (
    h,
    (
      granted b,
      (allow-granted fuel o b now v.control_valid.settled h, granted-Permits o b now range v h),
    ),
  )
]
