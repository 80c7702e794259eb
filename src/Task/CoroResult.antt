-- ===== src/Task/CoroResult.antt =====
-- `CoroResult<void>` of rpc_src/runtime/coro_result.h, by which a coroutine waits for the routines that
-- it starts on its runtime. Runtimes, coroutines and exceptions are numbers.
pub mod Waits
use coro_rpc.Base.{
  ℕ, Bool, true, false, ◌==◌, if◌then◌else◌, ◌+◌, ◌-◌, Option, none, some, ◌⊎◌, inl, inr, List, [],
  ◌∷◌,
}

-- What the operations throw of their own.
pub data Misuse : Type 0 where
  outside_coroutine wrong_runtime all_filled wrong_coroutine : Misuse

-- `first_error_`: an exception that a routine has thrown, or one of `CoroResult`.
pub data Exception : Type 0 where
  thrown : ℕ → Exception
  logic_error : Misuse → Exception

-- `resumed` counts the calls of `Resume(parent_)`.
pub record CoroResult : Type 0 where
  pub runtime : ℕ
  pub parent : ℕ
  pub remaining : ℕ
  pub waiting : Bool
  pub first_error : Option Exception
  pub resumed : ℕ

-- The constructor: `current` is the runtime with its coroutine, where they exist.
unfoldable pub create_result : Option (ℕ × Option ℕ) → ℕ → Misuse ⊎ CoroResult
create_result none count = inl Misuse.outside_coroutine
create_result (some (runtime, none)) count = inl Misuse.outside_coroutine
create_result (some (runtime, some parent)) count = inr (record {
  runtime = runtime;
  parent = parent;
  remaining = count;
  waiting = false;
  first_error = none;
  resumed = 0;
})

unfoldable pub finish_slot : CoroResult → CoroResult
finish_slot r =
    let counted = record r { remaining = r.remaining - 1 } in
    if counted.remaining == 0
    then (if r.waiting then record counted { resumed = r.resumed + 1 } else counted)
    else counted

unfoldable pub done : ℕ → CoroResult → Misuse ⊎ CoroResult
done current r =
    if current == r.runtime
    then (if r.remaining == 0 then inl Misuse.all_filled else inr (finish_slot r))
    else inl Misuse.wrong_runtime

unfoldable pub keep_first : Option Exception → Exception → Option Exception
keep_first none error = some error
keep_first (some first) error = some first

unfoldable pub set_exception : ℕ → Exception → CoroResult → Misuse ⊎ CoroResult
set_exception current error r =
    let kept = record r { first_error = keep_first r.first_error error } in
    if current == r.runtime
    then (if r.remaining == 0 then inl Misuse.all_filled else inr (finish_slot kept))
    else inl Misuse.wrong_runtime

-- The handler of `GoInto`: what `SetException` throws is dropped.
unfoldable pub catch_error : ℕ → Exception → CoroResult → CoroResult
catch_error current error r = elim (set_exception current error r) [ inl _ ↦ r | inr h ↦ h ]

-- The end of a routine that `GoInto` has started, whose function has returned (`none`) or thrown.
unfoldable pub end_routine : ℕ → Option Exception → CoroResult → CoroResult
end_routine current (some error) r = catch_error current error r
end_routine current none r = elim (done current r) [
  | inl misuse ↦ catch_error current (Exception.logic_error misuse) r
  | inr h ↦ h
]

-- How a turn of `Wait` ends.
pub data Waited : Type 0 where
  refused : Misuse → Waited
  suspended : CoroResult → Waited
  returned : CoroResult → Waited
  rethrown : Exception → CoroResult → Waited

unfoldable pub wait : ℕ → ℕ → CoroResult → Waited
wait current routine r =
    let over = record r { waiting = false } in
    let ended : Waited = elim r.first_error [
      | none ↦ Waited.returned over
      | some error ↦ Waited.rethrown error over
    ] in
    let turn = if r.remaining == 0 then ended else Waited.suspended (record r { waiting = true }) in
    if current == r.runtime
    then (if routine == r.parent then turn else Waited.refused Misuse.wrong_coroutine)
    else Waited.refused Misuse.wrong_coroutine

-- Routines that end on the runtime of the result, in this order.
unfoldable pub end_routines : List (Option Exception) → CoroResult → CoroResult
end_routines [] r = r
end_routines (o ∷ outcomes) r = end_routines outcomes (end_routine r.runtime o r)
