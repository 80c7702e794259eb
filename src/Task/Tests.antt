-- ===== src/Task/Tests.antt =====
-- Runs of a batch (rpc_src/task) on concrete histories.
use coro_rpc.Task.Join.{
  BatchWaitState, Joiner, Gather, Event, dispatch_task, join_step, complete_task, exchange_state,
  post_signal, step, new_gather, run_events,
}
use coro_rpc.Task.Join.Safety.{
  Calm, start, next, CanStep, join_safe, join_progress, join_early, early_return,
}
use coro_rpc.Base.{◌≡◌, refl, arith, some, true, false, Option, none, List, [], ◌∷◌}
use coro_rpc.Task.CoroResult.{Exception, CoroResult, end_routines, wait, Waited}
use coro_rpc.Task.CoroResult.Waits.{
  ends_with, first_thrown, wait-end_routines_open, wait-end_routines,
}

-- One task is dispatched, and `Join` waits for it.
abbrev waiting_gather : Gather
waiting_gather = record {
  remaining = 1;
  wait_state = BatchWaitState.armed;
  tokens = 0;
  joiner = Joiner.waiting;
  finishing = 0;
  signaling = 0;
}

waiting_gather-Calm : Calm waiting_gather
unfolding step dispatch_task join_step
waiting_gather-Calm =
    next Event.proceed tt
      (next Event.proceed tt (next Event.proceed tt (next Event.dispatch refl start refl) refl)
        refl)
      refl

-- The task is completed and signalled, and `Join` returns.
abbrev joined_gather : Gather
joined_gather = record new_gather { joiner = Joiner.joined }

joined_gather-Calm : Calm joined_gather
unfolding step join_step complete_task exchange_state post_signal
joined_gather-Calm =
    next Event.proceed tt
      (next Event.proceed tt
        (next Event.signal tt
          (next Event.exchange tt (next Event.complete tt waiting_gather-Calm refl) refl) refl)
        refl)
      refl

join_safe_example :
    (joined_gather.remaining ≡ 0) × ((joined_gather.tokens ≡ 0) × (joined_gather.signaling ≡ 0))
join_safe_example = join_safe joined_gather joined_gather-Calm refl

join_progress_example : CanStep waiting_gather
join_progress_example = join_progress waiting_gather waiting_gather-Calm (ground arith)

-- A new task is dispatched while the thread that counted the last one off is yet to look.
abbrev late_gather : Gather
late_gather = record new_gather { remaining = 1; joiner = Joiner.arming; finishing = 1 }

join_early_example :
    (h : Gather) × ((run_events early_return late_gather ≡ some h)
      × ((h.joiner ≡ Joiner.joined) × (h.remaining ≡ late_gather.remaining)))
join_early_example = join_early late_gather refl (omega arith) (omega arith)

-- A coroutine that waits for two routines.
abbrev two_routines : CoroResult
two_routines = record {
  runtime = 7;
  parent = 3;
  remaining = 2;
  waiting = true;
  first_error = none;
  resumed = 0;
}

abbrev two_outcomes : List (Option Exception)
two_outcomes = none ∷ some (Exception.thrown 5) ∷ []

wait-end_routines_example :
    ((end_routines two_outcomes two_routines).resumed ≡ 1)
    × (wait 7 3 (end_routines two_outcomes two_routines)
        ≡ ends_with
            (first_thrown none two_outcomes)
            (record (end_routines two_outcomes two_routines) { waiting = false }))
wait-end_routines_example = wait-end_routines two_outcomes two_routines refl (omega arith) refl

wait-end_routines_open_example :
    ((end_routines (some (Exception.thrown 5) ∷ []) two_routines).resumed ≡ 0)
    × (wait 7 3 (end_routines (some (Exception.thrown 5) ∷ []) two_routines)
        ≡ Waited.suspended (record (end_routines (some (Exception.thrown 5) ∷ []) two_routines) {
          waiting = true;
        }))
wait-end_routines_open_example =
    wait-end_routines_open (some (Exception.thrown 5) ∷ []) two_routines refl (omega arith)
