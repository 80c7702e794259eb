-- ===== src/Task/Join.antt =====
-- `CoScope::Dispatch` and `CoScope::Join` (co_scope.h, co_scope.cpp of rpc_src/task) and `CompleteTask`
-- (task_complete.h), where the batch is notified by a semaphore (batch_waiter.h). One user thread
-- dispatches and joins, and any threads complete tasks. An event is one access to shared memory, and a
-- history is any sequence of events.
pub mod Safety
use coro_rpc.Base.{ℕ, ◌==◌, if◌then◌else◌, ◌+◌, ◌-◌, Option, none, some, List, [], ◌∷◌}

pub data BatchWaitState : Type 0 where
  idle armed signaled : BatchWaitState

-- Where the user thread is: it has yet to call `Join` (`outside`), is before a step of `Join` that the
-- constructor names, or has returned (`joined`).
pub data Joiner : Type 0 where
  outside arming checking waiting leaving settling draining joined : Joiner

-- `Gather`, with the semaphore's tokens and the threads inside `CompleteTask`: `finishing` have counted
-- the last task off and have not yet looked at `wait_state`, `signaling` have yet to call `Signal`.
pub record Gather : Type 0 where
  pub remaining : ℕ
  pub wait_state : BatchWaitState
  pub tokens : ℕ
  pub joiner : Joiner
  pub finishing : ℕ
  pub signaling : ℕ

abbrev pub new_gather : Gather
new_gather = record {
  remaining = 0;
  wait_state = BatchWaitState.idle;
  tokens = 0;
  joiner = Joiner.outside;
  finishing = 0;
  signaling = 0;
}

pub data Event : Type 0 where
  dispatch proceed complete exchange signal : Event

-- `Dispatch`, which may follow a `Join` that has returned.
unfoldable pub dispatch_task : Gather → Option Gather
dispatch_task g =
    let more = record g { remaining = g.remaining + 1; joiner = Joiner.outside } in
    elim g.joiner [ Joiner.outside ↦ some more | Joiner.joined ↦ some more | _ ↦ none ]

-- A decrement of the semaphore, which waits for a token.
abbrev pub take_token : Gather → Joiner → Option Gather
take_token g next =
    if g.tokens == 0 then none else some (record g { tokens = g.tokens - 1; joiner = next })

-- The next step of `Join`.
unfoldable pub join_step : Gather → Option Gather
join_step g =
    let settled = record g { wait_state = BatchWaitState.idle; joiner = Joiner.joined } in
    elim g.joiner [
      | Joiner.outside ↦ some (record g { joiner = Joiner.arming })
      | Joiner.arming ↦
          some (record g { wait_state = BatchWaitState.armed; joiner = Joiner.checking })
      | Joiner.checking ↦
          some (record g { joiner = if g.remaining == 0 then Joiner.settling else Joiner.waiting })
      | Joiner.waiting ↦ take_token g Joiner.leaving
      | Joiner.leaving ↦ some settled
      | Joiner.settling ↦ elim g.wait_state [
        | BatchWaitState.signaled ↦ some (record settled { joiner = Joiner.draining })
        | _ ↦ some settled
      ]
      | Joiner.draining ↦ take_token g Joiner.joined
      | Joiner.joined ↦ none
    ]

-- `fetch_sub` of `CompleteTask`.
unfoldable pub complete_task : Gather → Option Gather
complete_task g =
    if g.remaining == 0
    then none
    else some (record g {
      remaining = g.remaining - 1;
      finishing = if g.remaining == 1 then g.finishing + 1 else g.finishing;
    })

-- `compare_exchange_strong` of `CompleteTask`.
unfoldable pub exchange_state : Gather → Option Gather
exchange_state g =
    let looked = record g { finishing = g.finishing - 1 } in
    let found : Gather = elim g.wait_state [
      | BatchWaitState.armed ↦ record looked {
        wait_state = BatchWaitState.signaled;
        signaling = g.signaling + 1;
      }
      | _ ↦ looked
    ] in
    if g.finishing == 0 then none else some found

-- `BatchWaiter::Signal`.
unfoldable pub post_signal : Gather → Option Gather
post_signal g =
    if g.signaling == 0
    then none
    else some (record g { signaling = g.signaling - 1; tokens = g.tokens + 1 })

-- One event; `none` where no thread is at this step, or it has to wait.
unfoldable pub step : Event → Gather → Option Gather
step Event.dispatch g = dispatch_task g
step Event.proceed g = join_step g
step Event.complete g = complete_task g
step Event.exchange g = exchange_state g
step Event.signal g = post_signal g

unfoldable pub run_events : List Event → Gather → Option Gather
run_events [] g = some g
run_events (e ∷ es) g = elim (step e g) [ none ↦ none | some h ↦ run_events es h ]
