-- ===== src/Task/Join/Safety.antt =====
-- When `Join` may return, and that it always can.
use coro_rpc.Task.Join.{
  BatchWaitState, Joiner, Gather, Event, dispatch_task, join_step, complete_task, exchange_state,
  post_signal, step, new_gather, run_events,
}
use coro_rpc.Base.{
  ◌+◌, ◌≡◌, ◌≢◌, ◌⊎◌, some, arith, ◌==◌, Bool-cases, ◌-◌, refl, inl, inr, Option, none, List, [],
  ◌∷◌,
}

-- The state of the batch at each place of the user thread. A token, or a call of `Signal` on its way,
-- stands for the completion that was seen as armed.
abbrev pub At : Joiner → BatchWaitState → Gather → Type 0
At Joiner.waiting BatchWaitState.armed g =
    (g.signaling + g.tokens ≡ 0) × ((g.remaining ≢ 0) ⊎ (g.finishing ≡ 1))
At Joiner.waiting BatchWaitState.signaled g =
    (g.signaling + g.tokens ≡ 1) × ((g.remaining ≡ 0) × (g.finishing ≡ 0))
At Joiner.checking BatchWaitState.armed g = g.signaling + g.tokens ≡ 0
At Joiner.checking BatchWaitState.signaled g =
    (g.signaling + g.tokens ≡ 1) × ((g.remaining ≡ 0) × (g.finishing ≡ 0))
At Joiner.settling BatchWaitState.armed g = (g.signaling + g.tokens ≡ 0) × (g.remaining ≡ 0)
At Joiner.settling BatchWaitState.signaled g =
    (g.signaling + g.tokens ≡ 1) × ((g.remaining ≡ 0) × (g.finishing ≡ 0))
At Joiner.leaving BatchWaitState.signaled g =
    (g.signaling + g.tokens ≡ 0) × ((g.remaining ≡ 0) × (g.finishing ≡ 0))
At Joiner.draining BatchWaitState.idle g =
    (g.signaling + g.tokens ≡ 1) × ((g.remaining ≡ 0) × (g.finishing ≡ 0))
At Joiner.joined BatchWaitState.idle g = (g.signaling + g.tokens ≡ 0) × (g.remaining ≡ 0)
At Joiner.outside BatchWaitState.idle g = g.signaling + g.tokens ≡ 0
At Joiner.arming BatchWaitState.idle g = g.signaling + g.tokens ≡ 0
At _ _ g = ⊥

pub record GatherValid (g : Gather) : Type 0 where
  pub at : At g.joiner g.wait_state g
  pub last : (g.finishing ≡ 0) ⊎ ((g.finishing ≡ 1) × (g.remaining ≡ 0))

-- A task is dispatched only when no thread is still at the end of an earlier completion.
abbrev pub IsCalm : Event → Gather → Type 0
IsCalm Event.dispatch g = g.finishing ≡ 0
IsCalm _ g = Unit {0}

dispatch_task-GatherValid :
    (g h : Gather) → GatherValid g → g.finishing ≡ 0 → dispatch_task g ≡ some h → GatherValid h
unfolding dispatch_task
dispatch_task-GatherValid g h v c e = ground arith

join_step-GatherValid : (g h : Gather) → GatherValid g → join_step g ≡ some h → GatherValid h
unfolding join_step
join_step-GatherValid g h v e = ground arith

complete_task-GatherValid :
    (g h : Gather) → GatherValid g → complete_task g ≡ some h → GatherValid h
unfolding complete_task
complete_task-GatherValid g h v e = ground arith

exchange_state-GatherValid :
    (g h : Gather) → GatherValid g → exchange_state g ≡ some h → GatherValid h
unfolding exchange_state
exchange_state-GatherValid g h v e = ground arith

post_signal-GatherValid : (g h : Gather) → GatherValid g → post_signal g ≡ some h → GatherValid h
unfolding post_signal
post_signal-GatherValid g h v e = ground arith

step-GatherValid :
    (e : Event) (g h : Gather) → IsCalm e g → GatherValid g → step e g ≡ some h → GatherValid h
unfolding step
step-GatherValid Event.dispatch g h c v s = dispatch_task-GatherValid g h v c s
step-GatherValid Event.proceed g h c v s = join_step-GatherValid g h v s
step-GatherValid Event.complete g h c v s = complete_task-GatherValid g h v s
step-GatherValid Event.exchange g h c v s = exchange_state-GatherValid g h v s
step-GatherValid Event.signal g h c v s = post_signal-GatherValid g h v s

-- What calm events lead to, in any order.
pub data Calm : Gather → Type 0 where
  start : Calm new_gather
  next : {g h : Gather} (e : Event) → IsCalm e g → Calm g → step e g ≡ some h → Calm h

Calm-GatherValid : (g : Gather) → Calm g → GatherValid g
Calm-GatherValid _ start = record { at = refl; last = inl refl }
Calm-GatherValid _ (next {g} {h} e c r s) = step-GatherValid e g h c (Calm-GatherValid g r) s

-- Where every task is dispatched only when no thread is still at the end of an earlier completion,
-- which the code does not ensure, `Join` returns only when no task is left, and it leaves no token
-- and no signal behind for the next batch.
pub join_safe :
    (g : Gather)
    → Calm g
    → g.joiner ≡ Joiner.joined
    → (g.remaining ≡ 0) × ((g.tokens ≡ 0) × (g.signaling ≡ 0))
join_safe g r j = let v = Calm-GatherValid g r in ground arith

-- Some thread can take a step that is not a dispatch.
abbrev pub CanStep : Gather → Type 0
CanStep g =
    ((h : Gather) × (step Event.proceed g ≡ some h))
    ⊎ (((h : Gather) × (step Event.complete g ≡ some h))
        ⊎ (((h : Gather) × (step Event.exchange g ≡ some h))
            ⊎ ((h : Gather) × (step Event.signal g ≡ some h))))

is_some_cases : (o : Option Gather) → (o ≢ none) → (h : Gather) × (o ≡ some h)
is_some_cases none n = absurd (n refl)
is_some_cases (some h) n = (h, refl)

complete_can : (g : Gather) → g.remaining ≢ 0 → step Event.complete g ≢ none
unfolding step complete_task
complete_can g h e = ground arith

exchange_can : (g : Gather) → g.finishing ≢ 0 → step Event.exchange g ≢ none
unfolding step exchange_state
exchange_can g h e = ground arith

signal_can : (g : Gather) → g.signaling ≢ 0 → step Event.signal g ≢ none
unfolding step post_signal
signal_can g h e = ground arith

proceed_can :
    (g : Gather)
    → GatherValid g
    → g.joiner ≢ Joiner.joined
    → g.remaining ≡ 0
    → g.finishing ≡ 0
    → g.signaling ≡ 0
    → step Event.proceed g ≢ none
unfolding step join_step
proceed_can g v j r f s e = ground arith

-- Under the same condition no wake-up is lost: before `Join` has returned, some thread can go on, the
-- user thread itself once all tasks are completed and signalled.
pub join_progress : (g : Gather) → Calm g → g.joiner ≢ Joiner.joined → CanStep g
join_progress g r j =
    let v = Calm-GatherValid g r in
    elim (Bool-cases (g.remaining == 0)) [
      | inr n ↦ inr (inl (is_some_cases (step Event.complete g) (complete_can g (ground arith))))
      | inl a ↦ elim (Bool-cases (g.finishing == 0)) [
        | inr n ↦
            inr (inr (inl (is_some_cases (step Event.exchange g) (exchange_can g (ground arith)))))
        | inl b ↦ elim (Bool-cases (g.signaling == 0)) [
          | inr n ↦
              inr (inr (inr (is_some_cases (step Event.signal g) (signal_can g (ground arith)))))
          | inl c ↦ inl (
              is_some_cases (step Event.proceed g)
                (proceed_can g v j (ground arith) (ground arith) (ground arith)))
        ]
      ]
    ]

-- The events by which a completion that was counted off earlier wakes a later `Join`.
abbrev pub early_return : List Event
early_return =
    Event.proceed ∷ Event.proceed ∷ Event.exchange ∷ Event.signal ∷ Event.proceed ∷ Event.proceed
    ∷ []

-- Where a task is dispatched while a thread is still at the end of the completion that counted the
-- tasks before it off, `Join` may return with the new task not completed, however many are left.
pub join_early :
    (g : Gather)
    → g.joiner ≡ Joiner.arming
    → g.remaining ≢ 0
    → g.finishing ≢ 0
    → (h : Gather) × ((run_events early_return g ≡ some h)
        × ((h.joiner ≡ Joiner.joined) × (h.remaining ≡ g.remaining)))
unfolding run_events step join_step exchange_state post_signal
join_early g j r f = (
  record g {
    wait_state = BatchWaitState.idle;
    joiner = Joiner.joined;
    finishing = g.finishing - 1;
    signaling = g.signaling + 1 - 1;
    tokens = g.tokens + 1 - 1;
  },
  (ground arith, (refl, refl)),
)
